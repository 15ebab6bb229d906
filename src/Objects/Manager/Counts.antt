-- ===== src/Objects/Manager/Counts.antt =====
-- Giving up the handles that an object owns, where no handle leads anywhere any more.
use packaged_task.Base.{
  ℕ, zero, suc, ◌+◌, ◌-◌, ◌≤◌, ◌<◌, ◌≡◌, refl, ap, ◌∙◌, inl, inr, List, [], ◌∷◌, ◌++◌, find, erase,
  assign, find-erase, find-assign, Option, Option-cases, none, some, Bool-cases, ◌==◌, leb,
  if◌then◌else◌, arith,
}
use packaged_task.Objects.State.{World, ObjHandle, ok, ◌>>=◌}
use packaged_task.Objects.Handles.{delete_pointee, destroy_handle, release, release_all}
use packaged_task.Objects.Steps.{after_ok, release_lem}

-- A handle with so many owners fewer: the last owner takes it along.
abbrev pub fewer : Option ObjHandle → ℕ → Option ObjHandle
fewer none k = none
fewer (some r) k =
    if k == 0
    then some r
    else if leb r.owners k
    then none
    else some (record r { owners = r.owners - k })

pub fewer-fewer : (o : Option ObjHandle) (a b : ℕ) → fewer (fewer o a) b ≡ fewer o (a + b)
fewer-fewer none a b = refl
fewer-fewer (some r) a b = ground arith

abbrev pub owners_of : Option ObjHandle → ℕ
owners_of none = 0
owners_of (some r) = r.owners

pub owners_of-fewer : (o : Option ObjHandle) (a : ℕ) → owners_of (fewer o a) ≡ owners_of o - a
owners_of-fewer none a = omega arith
owners_of-fewer (some r) a = ground arith

-- How often a list of components has a handle.
unfoldable pub count : ℕ → List (ℕ × ℕ) → ℕ
count h [] = 0
count h ((key, j) ∷ cs) = (if j == h then 1 else 0) + count h cs

pub count-append : (h : ℕ) (xs ys : List (ℕ × ℕ)) → count h (xs ++ ys) ≡ count h xs + count h ys
unfolding count
count-append h [] ys = omega arith
count-append h ((key, j) ∷ xs) ys = omega (arith, count-append h xs ys)

-- No handle leads to an object.
abbrev pub IsCleared : World → Type 0
IsCleared w = (h : ℕ) (r : ObjHandle) → find (suc h) w.handles ≡ some r → r.ptr ≡ 0

-- The handles have lost so many owners each.
abbrev pub Released : (lost : ℕ → ℕ) → World → List (ℕ × ObjHandle) → Type 0
Released lost w handles =
    (h : ℕ) → find (suc h) handles ≡ fewer (find (suc h) w.handles) (lost (suc h))

pub Released-IsCleared :
    (lost : ℕ → ℕ) (w : World) (handles : List (ℕ × ObjHandle))
    → IsCleared w
    → Released lost w handles
    → (h : ℕ) (r : ObjHandle) → find (suc h) handles ≡ some r
    → r.ptr ≡ 0
Released-IsCleared lost w handles clear all h r e = elim (Option-cases (find (suc h) w.handles)) [
  | inl gone ↦ ground (arith, all h, gone)
  | inr (q, there) ↦ ground (arith, all h, there, clear h q there)
]

release_cleared :
    (p : ℕ) (w : World)
    → IsCleared w
    → 0 < owners_of (find (suc p) w.handles)
    → (handles : List (ℕ × ObjHandle)) × (release (suc p) w
        ≡ ok tt (record w { handles = handles }))
      × Released (λ h. if suc p == h then 1 else 0) w handles
unfolding release destroy_handle delete_pointee
release_cleared p w clear owned = elim (Option-cases (find (suc p) w.handles)) [
  | inl gone ↦ absurd (ground (arith, gone))
  | inr (r, there) ↦ elim (Bool-cases (r.owners == 1)) [
    | inl last ↦ (
      erase (suc p) w.handles,
      rw (there, ◌>>=◌, last, clear p r there) refl,
      λ h. ground (arith, find-erase (suc p) (suc h) w.handles, there),
    )
    | inr shared ↦ (
      assign (suc p) (record r { owners = r.owners - 1 }) w.handles,
      release_lem p r w there shared,
      λ h. ground (
        arith,
        find-assign (suc p) (suc h) (record r { owners = r.owners - 1 }) w.handles,
        there,
      ),
    )
  ]
]

-- Null handles are skipped; of every other the count is taken off.
pub release_all_cleared :
    (cs : List (ℕ × ℕ)) (w : World)
    → IsCleared w
    → ((h : ℕ) → count (suc h) cs ≤ owners_of (find (suc h) w.handles))
    → (handles : List (ℕ × ObjHandle)) × (release_all cs w ≡ ok tt (record w { handles = handles }))
      × Released (λ h. count h cs) w handles
unfolding release_all count
release_all_cleared [] w clear enough = (
  w.handles,
  refl,
  λ h. elim (find (suc h) w.handles) as (λ o. o ≡ fewer o 0) [ none ↦ refl | some r ↦ refl ],
)
release_all_cleared ((key, zero) ∷ cs) w clear enough =
    let (handles, ends, all) = release_all_cleared cs w clear (λ h. ground (arith, enough h)) in
    (handles, after_ok (release zero) _ w null_released ∙ ends, λ h. ground (arith, all h))
  where
    null_released : release zero w ≡ ok tt w
    null_released = unfold release in refl
release_all_cleared ((key, suc p) ∷ cs) w clear enough =
    let (first, released, once) = release_cleared p w clear (ground (arith, enough p)) in
    let (handles, ends, all) =
      release_all_cleared cs (record w { handles = first })
        (Released-IsCleared (λ h. if suc p == h then 1 else 0) w first clear once)
        (λ h. ground (
          arith,
          enough h,
          once h,
          owners_of-fewer (find (suc h) w.handles) (if suc p == suc h then 1 else 0),
        )) in
    (
      handles,
      after_ok (release (suc p)) _ w released ∙ ends,
      λ h.
          all h
          ∙ ap (λ o. fewer o (count (suc h) cs)) (once h)
          ∙ fewer-fewer (find (suc h) w.handles) _ _,
    )
