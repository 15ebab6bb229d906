-- ===== src/Objects/Manager/Sound.antt =====
-- The invariant of owners: who owns which handles, and where the handles lead.
pub mod Erased
pub mod Appended
pub mod Owners
pub mod Released
pub mod Dropped
pub mod Swept
pub mod Attached
pub mod Created
pub mod Uses
pub mod Reached
use packaged_task.Base.{
  ℕ, zero, suc, ◌+◌, ◌≤◌, ◌<◌, ◌≡◌, ◌≢◌, refl, ap, sym, subst, ◌∙◌, inl, inr, List, [], ◌∷◌, ◌++◌,
  find, erase, All, Option, none, some, Bool, Bool-cases, true, false, ◌==◌, ◌&&◌, ◌||◌, ==_ne,
  if◌then◌else◌, arith,
}
use packaged_task.Objects.State.{Object, Body, World, ObjHandle, ObjEntry}
use packaged_task.Objects.Manager.{owned_handles}
use packaged_task.Objects.Manager.Counts.{owners_of, count, count-append}
use packaged_task.Objects.Manager.Nullify.{is_handle, body_of}
use packaged_task.Objects.Manager.Owned.{OwnsEach, owned_by, handles_of}

-- Whether an entry has a handle and an object.
unfoldable pub is_led : List (ℕ × ObjEntry) → (h ptr : ℕ) → Bool
is_led [] h ptr = false
is_led ((id, e) ∷ es) h ptr = (e.handle == h && e.unique == ptr) || is_led es h ptr

-- An object that is not deleted, to which a handle of its entry leads.
abbrev pub IsLed : List (ℕ × ObjEntry) → List (ℕ × Object) → (h ptr : ℕ) → Type 0
IsLed es objects h ptr =
    (o : Object) × (is_led es h ptr ≡ true) × (find ptr objects ≡ some o) × (o.is_del_it ≡ false)

-- `es` are the entries, and `held` the handles that are owned from outside, by clients and by what
-- is being destroyed. What the manager and the allocator hand out next is above all that there is.
pub record Sound (es : List (ℕ × ObjEntry)) (held : List (ℕ × ℕ)) (w : World) : Type 0 where
  pub owned :
      (h : ℕ) (r : ObjHandle)
      → find h w.handles ≡ some r
      → (0 < h) × (h < w.next_address) × (0 < r.owners)
  pub led :
      (h : ℕ) (r : ObjHandle) → find h w.handles ≡ some r → r.ptr ≢ 0 → IsLed es w.objects h r.ptr
  pub objects_below : (a : ℕ) (o : Object) → find a w.objects ≡ some o → a < w.next_address
  pub ids_below : (id : ℕ) (e : ObjEntry) → find id es ≡ some e → id < w.next_available_id
  pub own : OwnsEach w.objects es
  pub counted :
      (h : ℕ)
      → count (suc h) held + count (suc h) (owned_by w.objects es)
        ≤ owners_of (find (suc h) w.handles)

-- An object that has a body.
pub behind_body : (o : Option Object) {b : Body} → body_of o ≡ some b → (p : Object) × (o ≡ some p)
behind_body none e = absurd (cc)
behind_body (some p) e = (p, refl)

pub is_led-absent :
    (a id h : ℕ) (es : List (ℕ × ObjEntry))
    → All (λ r. (r.1.unique ≢ a) × (r.0 ≢ id)) es
    → is_led es h a ≡ false
unfolding is_led
is_led-absent a id h [] others = refl
is_led-absent a id h ((j, e) ∷ es) (here, others) =
    ground (arith, is_led-absent a id h es others, ==_ne e.unique a here.0)

-- An object has one handle.
pub is_led_unique :
    (objects : List (ℕ × Object)) (es : List (ℕ × ObjEntry)) (h j a : ℕ)
    → OwnsEach objects es
    → is_led es h a ≡ true
    → is_led es j a ≡ true
    → h ≡ j
unfolding is_led
is_led_unique objects [] h j a owns x y = absurd cc
is_led_unique objects ((id, e) ∷ es) h j a owns x y = elim (Bool-cases (e.unique == a)) [
  | inl same ↦
      let at : e.unique ≡ a = ground arith in
      let none_h = is_led-absent e.unique id h es owns.1 in
      let none_j = is_led-absent e.unique id j es owns.1 in
      ground (arith, ap (λ n. is_led es h n) at, ap (λ n. is_led es j n) at)
  | inr other ↦ is_led_unique objects es h j a owns.2 (ground arith) (ground arith)
]

pub is_led-is_handle :
    (es : List (ℕ × ObjEntry)) (h a : ℕ) → is_led es h a ≡ true → is_handle es h ≡ true
unfolding is_led is_handle
is_led-is_handle [] h a x = absurd cc
is_led-is_handle ((id, e) ∷ es) h a x = ground (arith, is_led-is_handle es h a)
