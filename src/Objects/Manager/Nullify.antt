-- ===== src/Objects/Manager/Nullify.antt =====
-- The body of `~GameObjectManager`: what it does to the handles of the entries and to the objects.
use packaged_task.Base.{
  ℕ, suc, ◌+◌, ◌-◌, ◌<◌, ◌≡◌, ◌≢◌, refl, ap, sym, ◌∙◌, inl, inr, List, [], ◌∷◌, find, assign,
  find-assign, find-assign_self, Option, Option-cases, none, some, subst, Bool, Bool-cases, true,
  false, ◌==◌, ==_ne, ◌||◌, if◌then◌else◌, arith,
}
use packaged_task.Objects.State.{
  Object, Body, World, ObjHandle, ObjEntry, Outcome, ok, raised, assertion_failed, fault, running,
  Action, ◌>>=◌, ◌>>◌,
}
use packaged_task.Objects.Handles.{delete_obj, delete_pointee, release, lock, nullify}
use packaged_task.Objects.Manager.{nullify_if_alive, nullify_entries}
use packaged_task.Objects.Steps.{after_ok, release_lem}

-- Every handle has an address and an owner, and leads nowhere or to an object.
abbrev pub IsAlive : World → Type 0
IsAlive w =
    (h : ℕ) (r : ObjHandle)
    → find h w.handles ≡ some r
    → (0 < h) × (0 < r.owners) × (r.ptr ≢ 0 → (o : Object) × (find r.ptr w.objects ≡ some o))

-- Whether a handle is that of an entry.
unfoldable pub is_handle : List (ℕ × ObjEntry) → ℕ → Bool
is_handle [] h = false
is_handle ((id, e) ∷ es) h = e.handle == h || is_handle es h

-- A handle that leads nowhere now, if it is that of an entry.
abbrev pub cut_off : Bool → Option ObjHandle → Option ObjHandle
cut_off b none = none
cut_off b (some r) = if b then some (record r { ptr = 0 }) else some r

abbrev pub body_of : Option Object → Option Body
body_of none = none
body_of (some o) = some o.body

-- The same objects, but for the marks of deletion and the identifiers.
abbrev pub SameBodies : (before after : List (ℕ × Object)) → Type 0
SameBodies before after = (a : ℕ) → body_of (find a after) ≡ body_of (find a before)

pub still_there :
    (before after : List (ℕ × Object)) (a : ℕ) (o : Object)
    → SameBodies before after
    → find a before ≡ some o
    → (p : Object) × (find a after ≡ some p) × (p.body ≡ o.body)
still_there before after a o same there = elim (Option-cases (find a after)) [
  | inl gone ↦ absurd (ground (arith, same a, there, gone))
  | inr (p, found) ↦ (p, found, ground (arith, same a, there, found))
]

-- The objects after at most one was marked as deleted.
pub record Marked (ptr : ℕ) (before after : List (ℕ × Object)) : Type 0 where
  pub bodies : SameBodies before after
  pub others : (a : ℕ) → a ≢ ptr → find a after ≡ find a before

pub delete_pointee_marks :
    (ptr : ℕ) (w : World)
    → (ptr ≢ 0 → (o : Object) × (find ptr w.objects ≡ some o))
    → (objects : List (ℕ × Object)) × (delete_pointee ptr w
        ≡ ok tt (record w { objects = objects }))
      × Marked ptr w.objects objects
unfolding delete_pointee delete_obj
delete_pointee_marks ptr w leads = elim (Bool-cases (ptr == 0)) [
  | inl null ↦ (w.objects, rw null refl, record { bodies = λ a. refl; others = λ a n. refl })
  | inr set ↦
      let (o, there) = leads (λ e. ground arith) in
      let after = assign ptr (record o { is_del_it = true }) w.objects in
      (
        after,
        rw (set, delete_obj, there, ◌>>=◌) refl,
        record {
          bodies = λ a.
              ground (arith, find-assign ptr a (record o { is_del_it = true }) w.objects, there);
          others = λ a n.
              find-assign ptr a (record o { is_del_it = true }) w.objects
              ∙ rw (==_ne ptr a (λ q. n (sym q))) refl;
        },
      )
]

-- `nullify` of a locked handle, and the end of the lock.
nullify_owned :
    (p : ℕ) (r : ObjHandle) (w : World)
    → find (suc p) w.handles ≡ some r
    → 1 < r.owners
    → (r.ptr ≢ 0 → (o : Object) × (find r.ptr w.objects ≡ some o))
    → (objects : List (ℕ × Object)) × (handles : List (ℕ × ObjHandle)) × (nullify_if_alive (suc p) w
        ≡ ok tt (record w { objects = objects; handles = handles }))
      × SameBodies w.objects objects
      × ((h : ℕ)
          → find h handles ≡ (
              if suc p == h
              then some (record r { ptr = 0; owners = r.owners - 1 })
              else find h w.handles))
unfolding nullify_if_alive nullify
nullify_owned p r w there shared leads =
    let (objects, deleted, marked) = delete_pointee_marks r.ptr w leads in
    let cut : ObjHandle = record r { ptr = 0 } in
    let w₁ : World = record w { objects = objects } in
    let w₂ : World = record w₁ { handles = assign (suc p) cut w.handles } in
    (
      objects,
      assign (suc p) (record cut { owners = cut.owners - 1 }) w₂.handles,
      rw (==_ne (suc p) 0 (λ e. omega (arith, e))) (
          after_ok (nullify (suc p)) (λ _. release (suc p)) w (rw (there, ◌>>=◌, deleted) refl)
          ∙ release_lem p cut w₂ (find-assign_self (suc p) cut w.handles) (ground arith)),
      marked.bodies,
      λ h. ground (
        arith,
        find-assign (suc p) h (record cut { owners = cut.owners - 1 }) w₂.handles,
        find-assign (suc p) h cut w.handles,
      ),
    )

-- One round of the loop: the handle of an entry, if it is still owned.
nullify_round :
    (k : ℕ) (w : World)
    → IsAlive w
    → (objects : List (ℕ × Object)) × (handles : List (ℕ × ObjHandle)) × ((do
      sp ← lock k
      nullify_if_alive sp)
          w
        ≡ ok tt (record w { objects = objects; handles = handles }))
      × SameBodies w.objects objects
      × ((h : ℕ) → find h handles ≡ cut_off (k == h) (find h w.handles))
unfolding lock
nullify_round k w alive = elim (Option-cases (find k w.handles)) [
  | inl gone ↦ (
    w.objects,
    w.handles,
    rw (gone, ◌>>=◌) (unfold nullify_if_alive in refl),
    λ a. refl,
    λ h. elim (Bool-cases (k == h)) [ inl same ↦ ground (arith, gone) | inr other ↦ ground arith ],
  )
  | inr (r, there) ↦
      let kept = alive k r there in
      let k' = k - 1 in
      let at : k ≡ suc k' = omega (arith, kept.0) in
      let twice : ObjHandle = record r { owners = r.owners + 1 } in
      let w₁ : World = record w { handles = assign k twice w.handles } in
      let (objects, handles, ends, bodies, cut) =
        nullify_owned k' twice w₁
          (subst (λ (n : ℕ). find n w₁.handles ≡ some twice) at
            (find-assign_self k twice w.handles))
          (omega (arith, kept.1)) kept.2 in
      (
        objects,
        handles,
        rw (there, ◌>>=◌)
            (subst
              (λ (n : ℕ).
                nullify_if_alive n w₁ ≡ ok tt (record w { objects = objects; handles = handles }))
              (sym at) ends),
        bodies,
        λ h. ground (arith, cut h, there, find-assign k h twice w.handles),
      )
]

-- Two steps that have succeeded, and what follows.
bound_lem :
    (o : Outcome ℕ) (f : ℕ → Action (Unit {0})) (g : Action (Unit {0})) (w w' : World)
    → ((λ (z : World). o) >>= f) w ≡ ok tt w'
    → ((λ (z : World). o) >>= (λ a. f a >> g)) w ≡ g w'
bound_lem (ok a w₁) f g w w' e = rw (e, ◌>>=◌) refl
bound_lem (raised x w₁) f g w w' e = cc
bound_lem assertion_failed f g w w' e = cc
bound_lem fault f g w w' e = cc
bound_lem running f g w w' e = cc

then_lem :
    (m : Action ℕ) (f : ℕ → Action (Unit {0})) (g : Action (Unit {0})) (w : World) {w' : World}
    → (m >>= f) w ≡ ok tt w'
    → (m >>= (λ a. f a >> g)) w ≡ g w'
then_lem m f g w {w'} e = bound_lem (m w) f g w w' e

-- What a round or the loop does to handles keeps them alive.
cut_off-IsAlive :
    (cut : ℕ → Bool) (w : World) (objects : List (ℕ × Object)) (handles : List (ℕ × ObjHandle))
    → IsAlive w
    → SameBodies w.objects objects
    → ((h : ℕ) → find h handles ≡ cut_off (cut h) (find h w.handles))
    → IsAlive (record w { objects = objects; handles = handles })
cut_off-IsAlive cut w objects handles alive bodies all h r e =
    elim (Option-cases (find h w.handles)) [
      | inl gone ↦ absurd (ground (arith, all h, gone))
      | inr (q, there) ↦
          let kept = alive h q there in
          (
            kept.0,
            ground (arith, all h, there, kept.1),
            λ set.
                let same : q.ptr ≡ r.ptr = ground (arith, all h, there) in
                let (o, at) = kept.2 (λ e. ground (arith, e)) in
                let (p, found, body) = still_there w.objects objects q.ptr o bodies at in
                (p, subst (λ (n : ℕ). find n objects ≡ some p) same found),
          )
    ]

cut_off-cut_off : (a b : Bool) (o : Option ObjHandle) → cut_off b (cut_off a o) ≡ cut_off (a || b) o
cut_off-cut_off a b none = refl
cut_off-cut_off a b (some r) = ground arith

-- The loop succeeds, and afterwards the handles of the entries lead nowhere.
pub nullify_entries_lem :
    (es : List (ℕ × ObjEntry)) (w : World)
    → IsAlive w
    → (objects : List (ℕ × Object)) × (handles : List (ℕ × ObjHandle)) × (nullify_entries es w
        ≡ ok tt (record w { objects = objects; handles = handles }))
      × SameBodies w.objects objects
      × ((h : ℕ) → find h handles ≡ cut_off (is_handle es h) (find h w.handles))
unfolding nullify_entries is_handle
nullify_entries_lem [] w alive = (
  w.objects,
  w.handles,
  refl,
  λ a. refl,
  λ h. elim (find h w.handles) as (λ o. o ≡ cut_off false o) [ none ↦ refl | some r ↦ refl ],
)
nullify_entries_lem ((id, e) ∷ es) w alive =
    let (objects₁, handles₁, round, bodies₁, cut₁) = nullify_round e.handle w alive in
    let w₁ : World = record w { objects = objects₁; handles = handles₁ } in
    let (objects, handles, rest, bodies, cut) =
      nullify_entries_lem es w₁
        (cut_off-IsAlive (λ h. e.handle == h) w objects₁ handles₁ alive bodies₁ cut₁) in
    (
      objects,
      handles,
      then_lem (lock e.handle) nullify_if_alive (nullify_entries es) w round ∙ rest,
      λ a. bodies a ∙ bodies₁ a,
      λ h. cut h ∙ ap (cut_off (is_handle es h)) (cut₁ h) ∙ cut_off-cut_off _ _ (find h w.handles),
    )
