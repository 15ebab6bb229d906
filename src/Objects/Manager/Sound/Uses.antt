-- ===== src/Objects/Manager/Sound/Uses.antt =====
-- What clients do with a manager and its handles, step by step, and what holds in every memory that
-- they reach.
use packaged_task.Base.{
  ℕ, suc, ◌+◌, ◌^◌, ◌<◌, ◌≡◌, refl, ap, sym, subst, ◌∙◌, inl, inr, List, [], ◌∷◌, find, assign,
  Option-cases, some, arith,
}
use packaged_task.Rtti.{Registry, Rtti, Result, class_id_to_rtti}
use packaged_task.Objects.State.{
  Object, component, game_object, World, ObjHandle, ObjEntry, Outcome, ok, ◌>>=◌,
}
use packaged_task.Objects.Handles.{retain, release, lock}
use packaged_task.Objects.Members.{assign_component, set_game_object_internal}
use packaged_task.Objects.Steps.{owned_once_more, retain_lem, set_game_object_internal_lem}
use packaged_task.Objects.Manager.{
  Factory, owned_handles, create_default_obj, get_object, release_unused_objects,
}
use packaged_task.Objects.Manager.Counts.{count}
use packaged_task.Objects.Manager.Sound.{Sound}
use packaged_task.Objects.Manager.Sound.Released.{release_held}
use packaged_task.Objects.Manager.Sound.Swept.{release_unused_objects_held}
use packaged_task.Objects.Manager.Sound.Attached.{
  owned_once_more-Sound, assign_component_held, point-Sound,
}
use packaged_task.Objects.Manager.Sound.Created.{create_default_obj_held}
use packaged_task.Objects.Manager.Sound.Owners.{held-Sound}

-- Two outcomes of one call.
same_world :
    {A : Type 0} {o : Outcome A} {a b : A} {v w : World}
    → o ≡ ok a v
    → o ≡ ok b w
    → (a ≡ b) × (v ≡ w)
same_world e f = let same = sym e ∙ f in (cc, cc)

get_object_lem :
    (id : ℕ) (e : ObjEntry) (w : World)
    → find id w.entries ≡ some e
    → get_object id w ≡ lock e.handle w
unfolding get_object
get_object_lem id e w at = rw (at, ◌>>=◌) refl

-- `lock` of a handle that is gone, and of one that is there.
lock_held :
    (held : List (ℕ × ℕ)) (k h : ℕ) (w w' : World)
    → Sound w.entries held w
    → lock k w ≡ ok h w'
    → Sound w'.entries ((0, h) ∷ held) w'
unfolding lock count
lock_held held k h w w' s run = elim (Option-cases (find k w.handles)) [
  | inl lost ↦
      let gone : lock k w ≡ ok 0 w = rw (lost, lock) refl in
      let (key, same) = same_world run gone in
      rw (key, same) (held-Sound w.entries held ((0, 0) ∷ held) w s (λ j. ground arith))
  | inr (r, there) ↦
      let locked : lock k w ≡ ok k (record w { handles = assign k (owned_once_more r) w.handles }) =
        rw (there, lock) refl in
      let (key, same) = same_world run locked in
      rw (key, same) (owned_once_more-Sound w.entries held 0 k r w s there)
]

get_object_held :
    (held : List (ℕ × ℕ)) (id h : ℕ) (w w' : World)
    → Sound w.entries held w
    → get_object id w ≡ ok h w'
    → Sound w'.entries ((0, h) ∷ held) w'
unfolding get_object
get_object_held held id h w w' s run = elim (Option-cases (find id w.entries)) [
  | inl gone ↦ absurd (ground (arith, run, gone))
  | inr (e, at) ↦ lock_held held e.handle h w w' s (sym (get_object_lem id e w at) ∙ run)
]

retain_held :
    (held : List (ℕ × ℕ)) (p : ℕ) (w w' : World)
    → Sound w.entries held w
    → retain (suc p) w ≡ ok tt w'
    → Sound w'.entries ((0, suc p) ∷ held) w'
unfolding retain
retain_held held p w w' s run = elim (Option-cases (find (suc p) w.handles)) [
  | inl gone ↦ absurd (ground (arith, run, gone))
  | inr (r, there) ↦
      let (unit, same) = same_world run (retain_lem p r w there) in
      rw same (owned_once_more-Sound w.entries held 0 (suc p) r w s there)
]

point_held :
    (held : List (ℕ × ℕ)) (cmp g go : ℕ) (o : Object) (w w' : World)
    → Sound w.entries held w
    → find cmp w.objects ≡ some o
    → o.body ≡ component g
    → set_game_object_internal cmp go w ≡ ok tt w'
    → Sound w'.entries held w'
point_held held cmp g go o w w' s there kind run =
    let (unit, same) = same_world run (set_game_object_internal_lem cmp go o w there) in
    rw same (point-Sound w.entries held cmp g go o w s there kind)

-- A step of the clients: `held` are the handles that they own.
pub data Use (reg : Registry Factory)
    : (held : List (ℕ × ℕ)) → World → (held' : List (ℕ × ℕ)) → World → Type 0 where
  -- `createDefaultObj` of a class whose objects start without handles, while identifiers last.
  creates :
      {held : List (ℕ × ℕ)} {w w' : World} (c : ℕ) (rtti : Rtti Factory) (h : ℕ)
      → class_id_to_rtti reg c ≡ Result.ok rtti
      → owned_handles rtti.factory ≡ []
      → w.next_available_id + 1 < 2 ^ 32
      → create_default_obj reg c w ≡ ok h w'
      → Use reg held w ((0, h) ∷ held) w'
  -- `getObject`, a copy of a handle, and the end of one.
  finds :
      {held : List (ℕ × ℕ)} {w w' : World} (id h : ℕ)
      → get_object id w ≡ ok h w'
      → Use reg held w ((0, h) ∷ held) w'
  copies :
      {held : List (ℕ × ℕ)} {w w' : World} (p : ℕ)
      → retain (suc p) w ≡ ok tt w'
      → Use reg held w ((0, suc p) ∷ held) w'
  gives_up :
      {held : List (ℕ × ℕ)} {w w' : World} (key h : ℕ)
      → release h w ≡ ok tt w'
      → Use reg ((key, h) ∷ held) w held w'
  reorders :
      {held held' : List (ℕ × ℕ)} {w : World}
      → ((h : ℕ) → count h held' ≡ count h held)
      → Use reg held w held' w
  -- What `addComponent` does to the component and to the map of its game object.
  points :
      {held : List (ℕ × ℕ)} {w w' : World} (cmp g go : ℕ) (o : Object)
      → find cmp w.objects ≡ some o
      → o.body ≡ component g
      → set_game_object_internal cmp go w ≡ ok tt w'
      → Use reg held w held w'
  attaches :
      {held : List (ℕ × ℕ)} {w w' : World} (id key p : ℕ) (e : ObjEntry) (r : ObjHandle)
      (o : Object) (cs : List (ℕ × ℕ))
      → find (suc p) w.handles ≡ some r
      → find id w.entries ≡ some e
      → find e.unique w.objects ≡ some o
      → o.body ≡ game_object cs
      → assign_component e.unique key (suc p) w ≡ ok tt w'
      → Use reg held w held w'
  -- `releaseUnusedObjects`.
  sweeps :
      {held : List (ℕ × ℕ)} {w w' : World}
      → release_unused_objects w ≡ ok tt w'
      → Use reg held w held w'

-- Each step keeps the invariant.
pub Use-Sound :
    {reg : Registry Factory} {held held' : List (ℕ × ℕ)} {w w' : World}
    → Use reg held w held' w'
    → Sound w.entries held w
    → Sound w'.entries held' w'
Use-Sound {reg} {held} {held'} {w} {w'} (creates c rtti h known bare room run) s =
    let (w₁, made, s₁) = create_default_obj_held reg c rtti held w known bare room s in
    let (key, same) = same_world run made in rw (key, same) s₁
Use-Sound {held} {held'} {w} {w'} (finds id h run) s = get_object_held held id h w w' s run
Use-Sound {held} {held'} {w} {w'} (copies p run) s = retain_held held p w w' s run
Use-Sound {held} {held'} {w} {w'} (gives_up key h run) s =
    let (w₁, done, s₁, frame) = release_held w.entries held' key h w s in
    let (unit, same) = same_world run done in
    let left : w'.entries ≡ w.entries = ap (λ (v : World). v.entries) (same ∙ frame) in
    subst (λ (es : List (ℕ × ObjEntry)). Sound es held' w') (sym left)
      (subst (λ (v : World). Sound w.entries held' v) (sym same) s₁)
Use-Sound {held} {held'} {w} {w'} (reorders same) s =
    held-Sound w.entries held held' w s (λ h. omega (arith, same (suc h)))
Use-Sound {held} {held'} {w} {w'} (points cmp g go o there kind run) s =
    point_held held cmp g go o w w' s there kind run
Use-Sound {held} {held'} {w} {w'} (attaches id key p e r o cs there at object kind run) s =
    let (w₁, done, s₁) = assign_component_held held id key p e r o cs w s there at object kind in
    let (unit, same) = same_world run done in rw same s₁
Use-Sound {held} {held'} {w} {w'} (sweeps run) s =
    let (w₁, done, s₁) = release_unused_objects_held held w s in
    let (unit, same) = same_world run done in rw same s₁
