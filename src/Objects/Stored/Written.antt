-- ===== src/Objects/Stored/Written.antt =====
-- `Component::write` and `GameObject::write` put the bytes of an object behind the stream.
use packaged_task.Base.{
  ℕ, suc, ◌%◌, ◌^◌, ◌<◌, ◌≡◌, refl, ap, sym, ◌∙◌, List, [], ◌∷◌, ◌++◌, length, find, Option, none,
  some, some_cancel, Bool-cases, inl, inr, ◌==◌, if◌then◌else◌, arith, append_assoc, append-nil,
}
use packaged_task.Base.Bytes.{le_bytes}
use packaged_task.MemoryStream.{OutputMemoryStream, write}
use packaged_task.Objects.State.{
  Object, Body, plain, component, game_object, class_component, World, ObjHandle,
}
use packaged_task.Objects.Write.{
  ◌>>=◌, write_header, write_component, write_components, write_game_object, write_body,
  write_object,
}
use packaged_task.Objects.Stored.{Stored, component_of, game_object_of, links_bytes, stored_bytes}

-- The class and the instance of each component, where both pointers of its handle are good.
unfoldable pub links_of : World → List (ℕ × ℕ) → Option (List (ℕ × ℕ))
links_of w [] = some []
links_of w ((key, h) ∷ rest) = do
  cmp ← find h w.handles
  c_ptr ← find cmp.ptr w.objects
  links ← links_of w rest
  some ((key, c_ptr.instance_id) ∷ links)

-- The record of an object, where the pointers that `write` follows are good. A plain object has none.
unfoldable pub stored_in : World → (inst_id : ℕ) → Body → Option Stored
stored_in w inst_id plain = none
stored_in w inst_id (component g) =
    if g == 0
    then some (component_of inst_id none)
    else (do go ← find g w.objects; some (component_of inst_id (some go.instance_id)))
stored_in w inst_id (game_object cs) = do links ← links_of w cs; some (game_object_of inst_id links)

-- A stream with more bytes behind it.
abbrev pub extended : OutputMemoryStream → List ℕ → OutputMemoryStream
extended out bytes = record { buffer = out.buffer ++ bytes }

pub extended-extended :
    (out : OutputMemoryStream) (a b : List ℕ) → extended (extended out a) b ≡ extended out (a ++ b)
extended-extended out a b = ap (λ bytes. record { buffer = bytes }) (append_assoc out.buffer a b)

write-extended :
    (size : ℕ) (out : OutputMemoryStream) (value : ℕ)
    → write size out value ≡ extended out (le_bytes size value)
unfolding write
write-extended size out value = refl

pub >>=-eq-some {ℓ κ} :
    {A : Type ℓ} {B : Type κ} (m : Option A) (f : A → Option B) {b : B}
    → (m >>= f) ≡ some b
    → (a : A) × (m ≡ some a) × (f a ≡ some b)
>>=-eq-some none f e = cc
>>=-eq-some (some a) f e = (a, refl, e)

-- Where the links of a game object are known, so are the pointers.
pub links_of_cons :
    (w : World) (key h : ℕ) (cs links : List (ℕ × ℕ))
    → links_of w ((key, h) ∷ cs) ≡ some links
    → (cmp : ObjHandle) × (c : Object) × (rest : List (ℕ × ℕ)) × (find h w.handles ≡ some cmp)
      × (find cmp.ptr w.objects ≡ some c)
      × (links_of w cs ≡ some rest)
      × (links ≡ (key, c.instance_id) ∷ rest)
unfolding links_of
links_of_cons w key h cs links e =
    let (cmp, found, e₁) = >>=-eq-some (find h w.handles) _ e in
    let (c, alive, e₂) = >>=-eq-some (find cmp.ptr w.objects) _ e₁ in
    let (rest, e₃, e₄) = >>=-eq-some (links_of w cs) _ e₂ in
    (cmp, c, rest, found, alive, e₃, ground (arith, e₄))

length-links_of :
    (w : World) (cs links : List (ℕ × ℕ)) → links_of w cs ≡ some links → length links ≡ length cs
length-links_of w [] links e = unfold links_of in ground arith
length-links_of w ((key, h) ∷ cs) links e =
    let (cmp, c, rest, found, alive, e', same) = links_of_cons w key h cs links e in
    rw same (ap suc (length-links_of w cs rest e'))

write_components-links :
    (w : World) (cs links : List (ℕ × ℕ)) (out : OutputMemoryStream)
    → links_of w cs ≡ some links
    → write_components w cs out ≡ some (extended out (links_bytes links))
unfolding write_components
write_components-links w [] links out e =
    let nil : [] ≡ links = unfold links_of in ground arith in
    rw (← nil) (ap (λ b. some (record { buffer = b })) (sym (append-nil out.buffer)))
write_components-links w ((key, h) ∷ cs) links out e =
    let (cmp, c, rest, found, alive, e', same) = links_of_cons w key h cs links e in
    rw
      (
        same,
        write_components,
        found,
        alive,
        write-extended,
        write-extended,
        write_components-links w cs rest _ e',
      )
      (ap some (
        extended-extended _ (le_bytes 4 c.instance_id) (links_bytes rest)
        ∙ extended-extended out (le_bytes 4 key) _))

-- A stream is its buffer.
same_buffer :
    (a b : List ℕ)
    → a ≡ b
    → ◌≡◌ {A = Option OutputMemoryStream}
        (some (record { buffer = a }))
        (some (record { buffer = b }))
same_buffer a b e = ap (λ bytes. some (record { buffer = bytes })) e

at_record :
    {r : Option OutputMemoryStream} (out : OutputMemoryStream) (y x : Stored)
    → some y ≡ some x
    → r ≡ some (extended out (stored_bytes y))
    → r ≡ some (extended out (stored_bytes x))
at_record out y x same e = e ∙ ap (λ z. some (extended out (stored_bytes z))) (some_cancel same)

write_component-stored :
    (w : World) (inst g : ℕ) (x : Stored) (out : OutputMemoryStream)
    → stored_in w inst (component g) ≡ some x
    → write_component w g (write 4 (write 4 out class_component) inst)
      ≡ some (extended out (stored_bytes x))
unfolding stored_in write_component stored_bytes write
write_component-stored w inst g x out e = elim (Bool-cases (g == 0)) [
  | inl null ↦
      at_record out (component_of inst none) x (rw (null, stored_in) at e)
        (rw (null, write_component) (same_buffer _ _ (simp append_assoc)))
  | inr set ↦
      let (go, alive, e') = >>=-eq-some (find g w.objects) _ (rw (set, stored_in) at e) in
      at_record out (component_of inst (some go.instance_id)) x e'
        (rw (set, write_component, alive) (same_buffer _ _ (simp append_assoc)))
]

write_game_object-bytes :
    (w : World) (cs : List (ℕ × ℕ)) (links : List (ℕ × ℕ)) (out : OutputMemoryStream)
    → length cs < 2 ^ 32
    → links_of w cs ≡ some links
    → write_game_object w cs out
      ≡ some (extended out (le_bytes 4 (length links) ++ links_bytes links))
unfolding write_game_object
write_game_object-bytes w [] links out small e =
    let nil : [] ≡ links = unfold links_of in ground arith in
    rw (← nil, write-extended) (same_buffer _ _ (rw (append-nil (le_bytes 4 0))))
write_game_object-bytes w (c ∷ cs) links out small e =
    let whole : length (c ∷ cs) % 2 ^ 32 ≡ length links =
      omega (arith, length-links_of w (c ∷ cs) links e) in
    rw (whole, write-extended, write_components-links w (c ∷ cs) links _ e)
      (ap some (extended-extended out (le_bytes 4 (length links)) (links_bytes links)))

-- `size()` fits the 32 bits that it is written with.
abbrev pub IsCountable : Body → Type 0
IsCountable plain = Unit {0}
IsCountable (component g) = Unit {0}
IsCountable (game_object cs) = length cs < 2 ^ 32

-- Writing an object whose pointers are good, and which has fewer than 2 ^ 32 components, puts the
-- bytes of its record behind the stream.
pub write_object-stored :
    (w : World) (o : Object) (b : Body) (x : Stored) (out : OutputMemoryStream)
    → o.body ≡ b
    → stored_in w o.instance_id b ≡ some x
    → IsCountable b
    → write_object w o out ≡ some (extended out (stored_bytes x))
unfolding write_object write_body write_header stored_in
write_object-stored w o plain x out same e fits = cc
write_object-stored w o (component g) x out same e fits =
    rw (same, write_object, write_body, write_header)
      (rw same (write_component-stored w o.instance_id g x out e))
write_object-stored w o (game_object cs) x out same e fits =
    let (links, known, record_of) =
      >>=-eq-some (links_of w cs) (λ ls. some (game_object_of o.instance_id ls)) e in
    at_record out (game_object_of o.instance_id links) x record_of (
      rw
        (
          same,
          write_object,
          write_body,
          write_header,
          same,
          write_game_object-bytes w cs links _ fits known,
        )
        (unfold stored_bytes write in same_buffer _ _ (simp append_assoc)))
