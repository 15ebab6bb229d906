-- ===== src/Objects/Manager/Sound/Attached.antt =====
-- More owners of a handle, and handles that go into the map of a game object, keep the invariant.
use packaged_task.Base.{
  ℕ, suc, ◌+◌, ◌≡◌, ◌≢◌, refl, ap, sym, subst, ◌∙◌, inl, inr, List, [], ◌∷◌, ◌++◌, find, assign,
  find-assign, erase, All, Option, none, some, Bool-cases, ◌==◌, ==_ne, if◌then◌else◌, arith,
}
use packaged_task.Objects.State.{Object, component, game_object, World, ObjHandle, ObjEntry, ok}
use packaged_task.Objects.Handles.{retain}
use packaged_task.Objects.Members.{load_components, store_components, assign_component}
use packaged_task.Objects.Steps.{
  after_ok, owned_once_more, retain_lem, load_components_lem, store_components_lem, replaced,
}
use packaged_task.Objects.Manager.{owned_handles}
use packaged_task.Objects.Manager.Counts.{count, count-append}
use packaged_task.Objects.Manager.Nullify.{body_of}
use packaged_task.Objects.Manager.Owned.{OwnsEach, owned_by, handles_of, owned_by_same}
use packaged_task.Objects.Manager.Sound.{Sound}
use packaged_task.Objects.Manager.Sound.Erased.{erase-apart, erase-count}
use packaged_task.Objects.Manager.Sound.Released.{release_held}
use packaged_task.Objects.Manager.Sound.Owners.{recounted-Sound}

-- One owner more.
pub owned_once_more-Sound :
    (es : List (ℕ × ObjEntry)) (held : List (ℕ × ℕ)) (key h : ℕ) (r : ObjHandle) (w : World)
    → Sound es held w
    → find h w.handles ≡ some r
    → Sound es ((key, h) ∷ held) (record w { handles = assign h (owned_once_more r) w.handles })
unfolding count
owned_once_more-Sound es held key h r w s there =
    recounted-Sound es held ((key, h) ∷ held) h (r.owners + 1) r w s there (omega arith)
      λ j. ground (arith, s.counted j, find-assign h (suc j) (owned_once_more r) w.handles, there)

-- Objects of the same entries that are as alive, with other members.
replaced-OwnsEach :
    (a : ℕ) (o' : Object) (objects : List (ℕ × Object)) (es : List (ℕ × ObjEntry))
    → OwnsEach objects es
    → OwnsEach (assign a o' objects) es
replaced-OwnsEach a o' objects [] owns = tt
replaced-OwnsEach a o' objects ((id, e) ∷ es) owns = (
  elim (Bool-cases (a == e.unique)) [
    | inl same ↦ (o'.body, ground (arith, find-assign a e.unique o' objects))
    | inr other ↦ (owns.0.0, ground (arith, find-assign a e.unique o' objects, owns.0.1))
  ],
  owns.1,
  replaced-OwnsEach a o' objects es owns.2,
)

pub replaced-Sound :
    (es : List (ℕ × ObjEntry)) (held held' : List (ℕ × ℕ)) (a : ℕ) (o o' : Object) (w : World)
    → Sound es held w
    → find a w.objects ≡ some o
    → o'.is_del_it ≡ o.is_del_it
    → ((h : ℕ)
        → count (suc h) held' + count (suc h) (owned_by (assign a o' w.objects) es)
          ≡ count (suc h) held + count (suc h) (owned_by w.objects es))
    → Sound es held' (record w { objects = assign a o' w.objects })
replaced-Sound es held held' a o o' w s there same_mark balance = record {
  owned = s.owned;
  led = λ h r f set.
      let (p, entry, at, alive) = s.led h r f set in
      elim (Bool-cases (a == r.ptr)) [
        | inl same ↦
            let key : a ≡ r.ptr = ground arith in
            (
              o',
              entry,
              ground (arith, find-assign a r.ptr o' w.objects),
              ground (
                arith,
                same_mark,
                alive,
                at,
                subst (λ (n : ℕ). find n w.objects ≡ some o) key there,
              ),
            )
        | inr other ↦ (p, entry, ground (arith, find-assign a r.ptr o' w.objects, at), alive)
      ];
  objects_below = λ b p f. elim (Bool-cases (a == b)) [
    | inl same ↦ ground (arith, s.objects_below a o there)
    | inr other ↦ s.objects_below b p (ground (arith, find-assign a b o' w.objects))
  ];
  ids_below = s.ids_below;
  own = replaced-OwnsEach a o' w.objects es s.own;
  counted = λ h. omega (arith, s.counted h, balance h);
}

pub others_replaced :
    (objects : List (ℕ × Object)) (a id : ℕ) (o' : Object) (es : List (ℕ × ObjEntry))
    → All (λ r. (r.1.unique ≢ a) × (r.0 ≢ id)) es
    → All
        (λ r. body_of (find r.1.unique (assign a o' objects)) ≡ body_of (find r.1.unique objects))
        es
others_replaced objects a id o' [] apart = tt
others_replaced objects a id o' ((j, d) ∷ es) (here, apart) = (
  ap body_of (find-assign a d.unique o' objects ∙ rw (==_ne a d.unique (λ q. here.0 (sym q))) refl),
  others_replaced objects a id o' es apart,
)

-- The object of an entry with other members: what the entries own changes by what it owns.
owned_by-replaced :
    (objects : List (ℕ × Object)) (es : List (ℕ × ObjEntry)) (id : ℕ) (e : ObjEntry) (o o' : Object)
    (h : ℕ)
    → OwnsEach objects es
    → find id es ≡ some e
    → find e.unique objects ≡ some o
    → count h (owned_by (assign e.unique o' objects) es) + count h (owned_handles o.body)
      ≡ count h (owned_by objects es) + count h (owned_handles o'.body)
owned_by-replaced objects es id e o o' h owns at there =
    let others = owned_by_same objects (assign e.unique o' objects) (erase id es) (
      others_replaced objects e.unique id o' (erase id es) (erase-apart objects id e es owns at)) in
    let before = erase-count objects id e es h owns at in
    let after =
      erase-count (assign e.unique o' objects) id e es h
        (replaced-OwnsEach e.unique o' objects es owns) at in
    let mine = ap (λ x. count h (handles_of (body_of x))) there in
    let new : find e.unique (assign e.unique o' objects) ≡ some o' =
      ground (arith, find-assign e.unique e.unique o' objects) in
    let its = ap (λ x. count h (handles_of (body_of x))) new in
    let rest = ap (count h) others in omega (arith, before, after, mine, its, rest)

-- A handle that a map has replaced.
abbrev replaced_handle : Option ℕ → List (ℕ × ℕ)
replaced_handle none = []
replaced_handle (some h) = (0, h) ∷ []

count-assign :
    (h key x : ℕ) (cs : List (ℕ × ℕ))
    → count h (assign key x cs) + count h (replaced_handle (find key cs))
      ≡ count h cs + (if x == h then 1 else 0)
unfolding count assign find
count-assign h key x [] = omega arith
count-assign h key x ((k, y) ∷ cs) = ground (arith, count-assign h key x cs)

release_replaced :
    (es : List (ℕ × ObjEntry)) (held : List (ℕ × ℕ)) (old : Option ℕ) (w : World)
    → Sound es (replaced_handle old ++ held) w
    → (w' : World) × (replaced old w ≡ ok tt w') × Sound es held w' × (w'.entries ≡ w.entries)
release_replaced es held none w s = (w, refl, s, refl)
release_replaced es held (some h) w s =
    let (w', released, s', frame) = release_held es held 0 h w s in
    (w', released, s', ap (λ (v : World). v.entries) frame)

-- `mComponents[key] = cmph` of a game object that an entry has, with a handle that is owned.
pub assign_component_held :
    (held : List (ℕ × ℕ)) (id key p : ℕ) (e : ObjEntry) (r : ObjHandle) (o : Object)
    (cs : List (ℕ × ℕ)) (w : World)
    → Sound w.entries held w
    → find (suc p) w.handles ≡ some r
    → find id w.entries ≡ some e
    → find e.unique w.objects ≡ some o
    → o.body ≡ game_object cs
    → (w' : World) × (assign_component e.unique key (suc p) w ≡ ok tt w') × Sound w'.entries held w'
unfolding assign_component count
assign_component_held held id key p e r o cs w s there at object kind =
    let w₁ : World = record w { handles = assign (suc p) (owned_once_more r) w.handles } in
    let o' : Object = record o { body = game_object (assign key (suc p) cs) } in
    let w₂ : World = record w₁ { objects = assign e.unique o' w.objects } in
    let old = replaced_handle (find key cs) in
    let s₁ = owned_once_more-Sound w.entries held 0 (suc p) r w s there in
    let s₂ : Sound w.entries (old ++ held) w₂ =
      replaced-Sound w.entries ((0, suc p) ∷ held) (old ++ held) e.unique o o' w₁ s₁ object refl
        (λ h.
          let its = ap (λ b. count (suc h) (owned_handles b)) kind in
          omega (
            arith,
            its,
            owned_by-replaced w.objects w.entries id e o o' (suc h) s.own at object,
            count-assign (suc h) key (suc p) cs,
            count-append (suc h) old held,
          )) in
    let (w', released, s', frame) = release_replaced w.entries held (find key cs) w₂ s₂ in
    (
      w',
      after_ok (retain (suc p)) _ w (retain_lem p r w there)
          ∙ after_ok (load_components e.unique) _ w₁
              (load_components_lem e.unique o cs w₁ object kind)
          ∙ after_ok (store_components e.unique (assign key (suc p) cs)) _ w₁
              (store_components_lem e.unique o (assign key (suc p) cs) w₁ object)
          ∙ released,
      subst (λ (es : List (ℕ × ObjEntry)). Sound es held w') (sym frame) s',
    )

-- Objects that own the same handles.
owned_by_handles :
    (before after : List (ℕ × Object)) (es : List (ℕ × ObjEntry))
    → ((a : ℕ) → handles_of (body_of (find a after)) ≡ handles_of (body_of (find a before)))
    → owned_by after es ≡ owned_by before es
owned_by_handles before after [] same = refl
owned_by_handles before after ((id, e) ∷ es) same =
    rw (same e.unique, owned_by_handles before after es same) refl

-- A component that points to another game object.
pub point-Sound :
    (es : List (ℕ × ObjEntry)) (held : List (ℕ × ℕ)) (cmp g go : ℕ) (o : Object) (w : World)
    → Sound es held w
    → find cmp w.objects ≡ some o
    → o.body ≡ component g
    → Sound es held (record w { objects = assign cmp (record o { body = component go }) w.objects })
point-Sound es held cmp g go o w s there kind =
    let o' : Object = record o { body = component go } in
    let same =
      owned_by_handles w.objects (assign cmp o' w.objects) es
        λ a. ground (arith, find-assign cmp a o' w.objects, there, kind, ap owned_handles kind) in
    replaced-Sound es held held cmp o o' w s there refl
      (λ h. ap (λ l. count (suc h) held + count (suc h) l) same)
