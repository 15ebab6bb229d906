-- ===== src/Objects/Linking/Transfer.antt =====
-- `serialize` of one manager, and the whole of `deserialize` by an empty one.
use packaged_task.Base.{
  ℕ, ◌+◌, ◌^◌, ◌<◌, ◌≡◌, refl, ap, sym, subst, ◌∙◌, List, [], ◌++◌, length, find, All, some, arith,
}
use packaged_task.MemoryStream.{OutputMemoryStream, InputMemoryStream, input}
use packaged_task.MemoryStream.RoundTrip.{stream_from}
use packaged_task.Rtti.{Registry}
use packaged_task.Objects.State.{Object, World, ok, ◌>>=◌}
use packaged_task.Objects.Manager.{Factory}
use packaged_task.Objects.Write.{serialize}
use packaged_task.Objects.Stored.{Stored, IsStored}
use packaged_task.Objects.Stored.Written.{IsCountable}
use packaged_task.Objects.RoundTrip.{records_in, records_bytes}
use packaged_task.Objects.Link.{link_entries}
use packaged_task.Objects.Deserialize.{Loaded, deserialize_loop, deserialize, release_handles}
use packaged_task.Objects.Loading.{IsStandard, load_records}
use packaged_task.Objects.Loading.Loop.{IsRoomy, empty-IsRoomy}
use packaged_task.Objects.Loading.Transfer.{
  nothing_loaded, deserialize_loop-serialize, load_records_counts,
}
use packaged_task.Objects.Linking.{AreLive, entries_of}
use packaged_task.Objects.Linking.Entries.{IsClosed, AreDone, link_entries_lem}
use packaged_task.Objects.Linking.Made.{
  AreDistinct, load_records-ArePlaced, load_records-entries, load_records-AreRemapped,
}
use packaged_task.Objects.Linking.Targets.{
  IsKnown, object_in, handle_in, All-IsClosed, placed-AreLive,
}
use packaged_task.Objects.Linking.Apart.{placed-ArePending}

-- Linking what a list of records has been read into.
link_loaded :
    (xs : List Stored) (w : World)
    → All IsStored xs
    → All (IsKnown xs) xs
    → AreDistinct xs
    → w.entries ≡ []
    → IsRoomy w
    → (w' : World) × (link_entries
          (load_records xs w nothing_loaded).1.id_remap
          (load_records xs w nothing_loaded).0.entries
          (load_records xs w nothing_loaded).0
        ≡ ok tt w')
      × (w'.entries ≡ entries_of xs w.next_address w.next_available_id)
      × AreLive w'
      × AreDone
          (object_in xs w.next_address)
          (handle_in xs w.next_address)
          w'
          xs
          w.next_address
          w.next_available_id
link_loaded xs w stored known distinct empty roomy =
    let a = w.next_address in
    let id = w.next_available_id in
    let w₁ = (load_records xs w nothing_loaded).0 in
    let id_remap = (load_records xs w nothing_loaded).1.id_remap in
    let entries : w₁.entries ≡ entries_of xs a id =
      load_records-entries xs a id w nothing_loaded refl refl roomy
      ∙ ap (λ es. es ++ entries_of xs a id) empty in
    let placed = (load_records-ArePlaced xs a id w nothing_loaded refl refl).0 in
    let live : AreLive w₁ = λ n e found.
      placed-AreLive xs a id w₁ placed n e (subst (λ es. find n es ≡ some e) entries found) in
    let mapped = load_records-AreRemapped xs id w nothing_loaded refl distinct in
    let (w', run, same, live', done, rest) =
      link_entries_lem id_remap (object_in xs a) (handle_in xs a) xs a id w₁ stored
        (subst (λ es. All (IsClosed id_remap (object_in xs a) (handle_in xs a) es) xs) (sym entries)
          (All-IsClosed id_remap xs a id mapped xs known))
        live (placed-ArePending xs [] a id w₁ entries tt placed) in
    (w', ap (λ es. link_entries id_remap es w₁) entries ∙ run, same ∙ entries, live', done)

deserialize_linked :
    (fuel : ℕ) (reg : Registry Factory) (s s' : InputMemoryStream) (l : Loaded) (w w₁ w' : World)
    → deserialize_loop fuel reg s nothing_loaded w ≡ ok (s', l) w₁
    → link_entries l.id_remap w₁.entries w₁ ≡ ok tt w'
    → deserialize fuel reg s [] w ≡ ok (s', l.objects) w'
unfolding deserialize release_handles
deserialize_linked fuel reg s s' l w w₁ w' read linked = rw (read, ◌>>=◌, linked) refl

-- What a manager whose pointers are good serializes, an empty manager deserializes: the calls
-- succeed, every byte is taken, and there is a handle for each record. The empty manager then has an
-- entry for each record, in order and under consecutive identifiers; a component points to the new
-- object of its game object, and a game object has under each class the handle of the new object of
-- its component, and these handles are there. Every component has a game object, and what is
-- referred to is among the records, which have different identifiers and fit 32 bits; the buffer is
-- below 2 ^ 31 bytes, no game object has 2 ^ 32 components, both classes are registered, the new
-- identifiers are below 2 ^ 32, and there is a round more than there are records.
pub deserialize-serialize :
    (fuel : ℕ) (reg : Registry Factory) (v w : World) (xs : List Stored)
    → ((a : ℕ) (o : Object) → find a v.objects ≡ some o → IsCountable o.body)
    → records_in v v.entries ≡ some xs
    → All IsStored xs
    → All (IsKnown xs) xs
    → AreDistinct xs
    → length (records_bytes xs) < 2 ^ 31
    → IsStandard reg
    → w.entries ≡ []
    → w.next_available_id + length xs < 2 ^ 32
    → length xs < fuel
    → (out : OutputMemoryStream) × (serialize v (record { buffer = [] }) ≡ some out)
      × (w' : World) × (objects : List ℕ) × (deserialize fuel reg (input out.buffer) [] w
          ≡ ok (stream_from (length out.buffer) out.buffer, objects) w')
      × (length objects ≡ length xs)
      × (w'.entries ≡ entries_of xs w.next_address w.next_available_id)
      × AreLive w'
      × AreDone
          (object_in xs w.next_address)
          (handle_in xs w.next_address)
          w'
          xs
          w.next_address
          w.next_available_id
deserialize-serialize fuel reg v w xs countable recorded stored known distinct small std empty room
      enough =
    let roomy = empty-IsRoomy w empty in
    let (out, written, read) =
      deserialize_loop-serialize fuel reg v w xs countable recorded stored small std roomy room
        enough in
    let (w', linked, entries, live, done) = link_loaded xs w stored known distinct empty roomy in
    (
      out,
      written,
      w',
      (load_records xs w nothing_loaded).1.objects,
      deserialize_linked fuel reg (input out.buffer) _ (load_records xs w nothing_loaded).1 w
          (load_records xs w nothing_loaded).0 w' read linked,
      omega (arith, (load_records_counts xs w nothing_loaded).0),
      entries,
      live,
      done,
    )
