-- ===== src/Objects/RoundTrip.antt =====
-- `serialize` and the `read` of each object, joined: what is written for an object is read back.
use packaged_task.Base.{
  ℕ, ◌+◌, ◌^◌, ◌<◌, ◌≡◌, refl, ap, sym, ◌∙◌, List, [], ◌∷◌, ◌++◌, length, find, Option, some,
  some_cancel, Bool, true, false, append_assoc, append-nil,
}
use packaged_task.MemoryStream.{OutputMemoryStream, done}
use packaged_task.MemoryStream.RoundTrip.{stream_from}
use packaged_task.Objects.State.{Object, Body, plain, component, game_object, World, ObjEntry}
use packaged_task.Objects.Write.{
  ◌>>=◌, write_object, write_body, write_if_alive, write_entries, serialize,
}
use packaged_task.Objects.Parse.{read_members}
use packaged_task.Objects.Stored.{Stored, IsStored, stored_bytes, stored_members}
use packaged_task.Objects.Stored.Written.{
  stored_in, extended, >>=-eq-some, extended-extended, IsCountable, write_object-stored,
}
use packaged_task.Objects.Stored.Parsed.{stored_body, read_members-stored_bytes}

-- Whatever the stream held before and whatever follows, writing a component or game object whose
-- pointers are good succeeds, and the virtual `read` of a new object of its class, started where the
-- object was written, returns its identifier and links and leaves the head behind it. The numbers
-- have to fit 32 bits, a game object must have each class once, and the end must lie below 2 ^ 32.
pub read_members-write_object :
    (w : World) (o : Object) (b : Body) (x : Stored) (out : OutputMemoryStream) (rest : List ℕ)
    → o.body ≡ b
    → IsCountable b
    → stored_in w o.instance_id b ≡ some x
    → IsStored x
    → length out.buffer + length (stored_bytes x) < 2 ^ 32
    → (out' : OutputMemoryStream) × (write_object w o out ≡ some out')
      × (read_members (stored_body x) (stream_from (length out.buffer) (out'.buffer ++ rest))
          ≡ done (stored_members x) (stream_from (length out'.buffer) (out'.buffer ++ rest)))
read_members-write_object w o b x out rest same countable known stored small = (
  extended out (stored_bytes x),
  write_object-stored w o b x out same known countable,
  rw (append_assoc out.buffer (stored_bytes x) rest) (
      read_members-stored_bytes x stored out.buffer rest small
      ∙ rw (append_assoc out.buffer (stored_bytes x) rest)),
)

-- The records of the objects that are written: those that are not deleted and not plain.
unfoldable pub records_of_body : World → (inst_id : ℕ) → Body → Option (List Stored)
records_of_body w inst plain = some []
records_of_body w inst (component g) = do x ← stored_in w inst (component g); some (x ∷ [])
records_of_body w inst (game_object cs) = do x ← stored_in w inst (game_object cs); some (x ∷ [])

unfoldable pub records_if_alive : World → Object → (deleted : Bool) → Option (List Stored)
records_if_alive w o true = some []
records_if_alive w o false = records_of_body w o.instance_id o.body

unfoldable pub records_in : World → List (ℕ × ObjEntry) → Option (List Stored)
unfolding records_of_body records_if_alive
records_in w [] = some []
records_in w ((id, e) ∷ rest) = do
  o ← find e.unique w.objects
  here ← records_if_alive w o o.is_del_it
  there ← records_in w rest
  some (here ++ there)

unfoldable pub records_bytes : List Stored → List ℕ
records_bytes [] = []
records_bytes (x ∷ xs) = stored_bytes x ++ records_bytes xs

records_bytes-append :
    (xs ys : List Stored) → records_bytes (xs ++ ys) ≡ records_bytes xs ++ records_bytes ys
unfolding records_bytes
records_bytes-append [] ys = refl
records_bytes-append (x ∷ xs) ys =
    rw (records_bytes-append xs ys) (sym (append_assoc (stored_bytes x) (records_bytes xs) _))

one_record :
    (w : World) (o : Object) (b : Body) (xs : List Stored) (out : OutputMemoryStream)
    → o.body ≡ b
    → IsCountable b
    → (do x ← stored_in w o.instance_id b; some (x ∷ [])) ≡ some xs
    → write_object w o out ≡ some (extended out (records_bytes xs))
one_record w o b xs out same countable e =
    let (x, known, single) = >>=-eq-some (stored_in w o.instance_id b) (λ x. some (x ∷ [])) e in
    write_object-stored w o b x out same known countable
    ∙ ap (λ bytes. some (extended out bytes))
        (sym (append-nil (stored_bytes x))
          ∙ unfold records_bytes in ap records_bytes (some_cancel single))

no_records :
    (out : OutputMemoryStream) (xs : List Stored)
    → some [] ≡ some xs
    → some out ≡ some (extended out (records_bytes xs))
no_records out xs e =
    ap (λ bytes. some (record { buffer = bytes })) (sym (append-nil out.buffer))
    ∙ unfold records_bytes in ap (λ ys. some (extended out (records_bytes ys))) (some_cancel e)

write_object-records :
    (w : World) (o : Object) (b : Body) (xs : List Stored) (out : OutputMemoryStream)
    → o.body ≡ b
    → IsCountable b
    → records_of_body w o.instance_id b ≡ some xs
    → write_object w o out ≡ some (extended out (records_bytes xs))
unfolding records_of_body write_object write_body
write_object-records w o plain xs out same countable e =
    rw (same, write_object, write_body) (no_records out xs e)
write_object-records w o (component g) xs out same countable e =
    one_record w o (component g) xs out same countable e
write_object-records w o (game_object cs) xs out same countable e =
    one_record w o (game_object cs) xs out same countable e

write_if_alive-records :
    (w : World) (o : Object) (deleted : Bool) (xs : List Stored) (out : OutputMemoryStream)
    → IsCountable o.body
    → records_if_alive w o deleted ≡ some xs
    → write_if_alive w o deleted out ≡ some (extended out (records_bytes xs))
unfolding write_if_alive records_if_alive
write_if_alive-records w o true xs out countable e = no_records out xs e
write_if_alive-records w o false xs out countable e =
    write_object-records w o o.body xs out refl countable e

write_entries-records :
    (w : World) (entries : List (ℕ × ObjEntry)) (xs : List Stored) (out : OutputMemoryStream)
    → ((a : ℕ) (o : Object) → find a w.objects ≡ some o → IsCountable o.body)
    → records_in w entries ≡ some xs
    → write_entries w entries out ≡ some (extended out (records_bytes xs))
unfolding write_entries records_in
write_entries-records w [] xs out countable e = no_records out xs e
write_entries-records w ((id, entry) ∷ entries) xs out countable e =
    let (o, at, e₁) = >>=-eq-some (find entry.unique w.objects) _ e in
    let (here, live, e₂) = >>=-eq-some (records_if_alive w o o.is_del_it) _ e₁ in
    let (there, later, both) = >>=-eq-some (records_in w entries) _ e₂ in
    rw
      (
        write_entries,
        at,
        write_if_alive-records w o o.is_del_it here out (countable entry.unique o at) live,
        write_entries-records w entries there _ countable later,
      )
      (ap some (extended-extended out (records_bytes here) (records_bytes there))
        ∙ ap (λ bytes. some (extended out bytes)) (sym (records_bytes-append here there))
        ∙ ap (λ ys. some (extended out (records_bytes ys))) (some_cancel both))

-- `serialize` puts behind the stream the records of the objects that are not deleted and not of class
-- `Object`, one after the other in the order of `mObjects`, if the pointers that they hold are good
-- and no game object has 2 ^ 32 components.
pub serialize-records :
    (w : World) (xs : List Stored) (out : OutputMemoryStream)
    → ((a : ℕ) (o : Object) → find a w.objects ≡ some o → IsCountable o.body)
    → records_in w w.entries ≡ some xs
    → serialize w out ≡ some (extended out (records_bytes xs))
unfolding serialize
serialize-records w xs out countable e = write_entries-records w w.entries xs out countable e
