-- ===== src/Objects/Manager/Sound/Reached.antt =====
-- What holds in every memory that the clients of a manager reach.
use packaged_task.Base.{
  ℕ, zero, suc, ◌≤◌, ◌≡◌, ◌≢◌, refl, sym, ◌∙◌, ◌⊎◌, inl, inr, List, [], ◌∷◌, find, All, Option,
  Option-cases, none, some, true, false, arith,
}
use packaged_task.Rtti.{Registry}
use packaged_task.Objects.State.{Object, World, ObjHandle, ObjEntry, ok}
use packaged_task.Objects.Handles.{release}
use packaged_task.Objects.Manager.{Factory, release_unused_objects, destroy_manager}
use packaged_task.Objects.Manager.Counts.{owners_of, count, fewer}
use packaged_task.Objects.Manager.Nullify.{cut_off}
use packaged_task.Objects.Manager.Owned.{owned_by}
use packaged_task.Objects.Manager.Destroy.{IsSound, destroy_manager_lem}
use packaged_task.Objects.Manager.Sound.{Sound, is_led-is_handle}
use packaged_task.Objects.Manager.Sound.Released.{release_held}
use packaged_task.Objects.Manager.Sound.Swept.{release_unused_objects_held}
use packaged_task.Objects.Manager.Sound.Uses.{Use, Use-Sound}

-- A manager without entries, in a memory without objects and handles.
abbrev pub blank : (address id : ℕ) → World
blank address id = record {
  objects = [];
  handles = [];
  next_address = address;
  next_available_id = id;
  entries = [];
}

pub data Reach (reg : Registry Factory) : (held : List (ℕ × ℕ)) → World → Type 0 where
  start : {w : World} (address id : ℕ) → w ≡ blank address id → Reach reg [] w
  then_use :
      {held held' : List (ℕ × ℕ)} {w w' : World}
      → Reach reg held w
      → Use reg held w held' w'
      → Reach reg held' w'

blank-Sound : (address id : ℕ) → Sound [] [] (blank address id)
unfolding find count
blank-Sound address id = record {
  owned = λ h r f. cc;
  led = λ h r f set. absurd (cc);
  objects_below = λ a o f. absurd (cc);
  ids_below = λ k e f. absurd (cc);
  own = tt;
  counted = λ h. omega arith;
}

pub Reach-Sound :
    {reg : Registry Factory} {held : List (ℕ × ℕ)} {w : World}
    → Reach reg held w
    → Sound w.entries held w
Reach-Sound (start address id e) = rw e (blank-Sound address id)
Reach-Sound (then_use before step) = Use-Sound step (Reach-Sound before)

-- A handle that a client has: it is null, or there, and then leads nowhere or to an object that is
-- not deleted.
abbrev pub IsGood : World → ℕ × ℕ → Type 0
IsGood w (key, h) =
    (h ≡ 0)
    ⊎ ((r : ObjHandle) × (find h w.handles ≡ some r)
        × (r.ptr ≢ 0 → (o : Object) × (find r.ptr w.objects ≡ some o) × (o.is_del_it ≡ false)))

Sound-IsGood :
    (es : List (ℕ × ObjEntry)) (held : List (ℕ × ℕ)) (w : World)
    → ((h : ℕ) → count (suc h) held ≤ owners_of (find (suc h) w.handles))
    → ((h : ℕ) (r : ObjHandle)
        → find h w.handles ≡ some r
        → r.ptr ≢ 0
        → (o : Object) × (find r.ptr w.objects ≡ some o) × (o.is_del_it ≡ false))
    → All (IsGood w) held
unfolding count
Sound-IsGood es [] w enough leads = tt
Sound-IsGood es ((key, zero) ∷ held) w enough leads =
    (inl refl, Sound-IsGood es held w (λ h. ground (arith, enough h)) leads)
Sound-IsGood es ((key, suc p) ∷ held) w enough leads = (
  inr (elim (Option-cases (find (suc p) w.handles)) [
    | inl gone ↦ absurd (ground (arith, enough p, gone))
    | inr (r, there) ↦ (r, there, leads (suc p) r there)
  ]),
  Sound-IsGood es held w (λ h. ground (arith, enough h)) leads,
)

-- What the destruction needs.
pub Sound-IsSound : (held : List (ℕ × ℕ)) (w : World) → Sound w.entries held w → IsSound w
Sound-IsSound held w s = record {
  alive = λ h r f.
      let kept = s.owned h r f in
      (kept.0, kept.2, λ set. let (o, entry, at, alive) = s.led h r f set in (o, at));
  led = λ h r f set.
      let (o, entry, at, alive) = s.led h r f set in is_led-is_handle w.entries h r.ptr entry;
  own = s.own;
  counted = λ h. omega (arith, s.counted h);
}

left_cleared :
    (o : Option ObjHandle) (k : ℕ) (r : ObjHandle) → fewer (cut_off true o) k ≡ some r → r.ptr ≡ 0
left_cleared none k r e = cc
left_cleared (some q) k r e = ground arith

-- A step that gives up the first handle is possible.
abbrev pub CanRelease : List (ℕ × ℕ) → World → Type 0
CanRelease [] w = Unit {0}
CanRelease ((key, h) ∷ held) w = (w' : World) × (release h w ≡ ok tt w')

Sound-CanRelease : (held : List (ℕ × ℕ)) (w : World) → Sound w.entries held w → CanRelease held w
Sound-CanRelease [] w s = tt
Sound-CanRelease ((key, h) ∷ held) w s =
    let (w', released, s', frame) = release_held w.entries held key h w s in (w', released)

-- In every memory that clients reach from a new manager by creating objects, finding, copying,
-- giving up and rearranging handles, attaching components to game objects, and releasing unused
-- objects: each handle that they own is null, or there and leads nowhere or to an object that is not
-- deleted; the first of them can be given up; releasing unused objects succeeds; and the destructor
-- succeeds, and no handle that it leaves leads anywhere. New objects are of registered classes whose
-- objects start without handles, and have an identifier left; a handle that is attached is there, and
-- the game object is that of an entry.
pub Reach-safe :
    {reg : Registry Factory} {held : List (ℕ × ℕ)} {w : World}
    → Reach reg held w
    → All (IsGood w) held
      × CanRelease held w
      × ((w' : World) × (release_unused_objects w ≡ ok tt w'))
      × ((w' : World) × (destroy_manager w ≡ ok tt w')
          × ((h : ℕ) (r : ObjHandle) → find (suc h) w'.handles ≡ some r → r.ptr ≡ 0))
Reach-safe {reg} {held} {w} reached =
    let s = Reach-Sound reached in
    let (w₁, swept, s₁) = release_unused_objects_held held w s in
    let (w₂, destroyed, ids, objects, handles) = destroy_manager_lem w (Sound-IsSound held w s) in
    (
      Sound-IsGood w.entries held w (λ h. omega (arith, s.counted h))
          (λ h r f set. let (o, entry, at, alive) = s.led h r f set in (o, at, alive)),
      Sound-CanRelease held w s,
      (w₁, swept),
      (
        w₂,
        destroyed,
        λ h r f.
            left_cleared (find (suc h) w.handles) (count (suc h) (owned_by w.objects w.entries)) r
              (sym (handles h) ∙ f),
      ),
    )
