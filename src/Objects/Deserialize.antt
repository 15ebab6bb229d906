-- ===== src/Objects/Deserialize.antt =====
-- `GameObjectManager::deserialize`.
use packaged_task.Base.{
  ℕ, zero, suc, ◌+◌, List, [], ◌∷◌, ◌++◌, take, drop, length, assign, true, false, ltb,
  if◌then◌else◌,
}
use packaged_task.Base.Bytes.{from_le}
use packaged_task.MemoryStream.{
  InputMemoryStream, Read, done, get_remaining_data_size, is_positive32,
}
use packaged_task.Rtti.{Registry}
use packaged_task.Objects.State.{
  component, game_object, ok, fault, running, Action, pure, ◌>>=◌, ◌>>◌, get, raise, range_error,
  load_object, store_object, load_handle, new_handle,
}
use packaged_task.Objects.Handles.{release}
use packaged_task.Objects.Manager.{Factory, create, destroy_object, register_obj}
use packaged_task.Objects.Parse.{
  Members, no_members, component_members, game_object_members, read_members,
}
use packaged_task.Objects.Link.{link_entries}

-- The `int32_t` at the head, read through a cast pointer without moving the head.
unfoldable pub peek_type_id : InputMemoryStream → Action ℕ
peek_type_id s w =
    if ltb (length s.bytes) (s.head + 4)
    then fault
    else ok (from_le (take 4 (drop s.head s.bytes))) w

-- `std::make_shared<ObjHandle>(nullptr)` with its `m_link_key`, for each link.
unfoldable pub make_link_handles : List (ℕ × ℕ) → Action (List (ℕ × ℕ))
make_link_handles [] = pure []
make_link_handles ((key, inst) ∷ links) = do
  h ← new_handle (record { ptr = 0; link_key = inst; owners = 1 })
  rest ← make_link_handles links
  pure ((key, h) ∷ rest)

-- The members that `read` sets.
unfoldable pub store_members : ℕ → Members → Action (Unit {0})
store_members a no_members = pure tt
store_members a (component_members inst_id g) = do
  o ← load_object a
  store_object a (record o { instance_id = inst_id; body = component g })
store_members a (game_object_members inst_id links) = do
  o ← load_object a
  cs ← make_link_handles links
  store_object a (record o { instance_id = inst_id; body = game_object cs })

-- `obj->read(..)`. An exception destroys the object that `obj` owns and goes on.
unfoldable pub read_into : ℕ → Read Members → Action InputMemoryStream
read_into a (done members s) = do store_members a members; pure s
read_into a (Read.range_error s) = do destroy_object a; raise range_error
read_into a Read.fault = λ w. fault

-- What the loop of `deserialize` carries: the map of identifiers and the handles pushed so far.
pub record Loaded : Type 0 where
  pub id_remap : List (ℕ × ℕ)
  pub objects : List ℕ

-- One round of the loop.
unfoldable pub deserialize_one :
    Registry Factory → InputMemoryStream → Loaded → Action (InputMemoryStream × Loaded)
deserialize_one reg s l = do
  type_id ← peek_type_id s
  a ← create reg type_id
  blank ← load_object a
  s' ← read_into a (read_members blank.body s)
  o ← load_object a
  obj_handler ← register_obj a
  r ← load_handle obj_handler
  o' ← load_object r.ptr
  pure (
    s',
    record {
      id_remap = assign o.instance_id o'.instance_id l.id_remap;
      objects = l.objects ++ (obj_handler ∷ []);
    },
  )

-- `while(inMemoryStream.getRemainingDataSize() > 0)` on fuel.
unfoldable pub deserialize_loop :
    (fuel : ℕ) → Registry Factory → InputMemoryStream → Loaded → Action (InputMemoryStream × Loaded)
deserialize_loop zero reg s l = λ w. running
deserialize_loop (suc fuel) reg s l = elim (is_positive32 (get_remaining_data_size s)) [
  | false ↦ pure (s, l)
  | true ↦ (do (s', l') ← deserialize_one reg s l; deserialize_loop fuel reg s' l')
]

unfoldable pub release_handles : List ℕ → Action (Unit {0})
release_handles [] = pure tt
release_handles (h ∷ hs) = do release h; release_handles hs

-- `objects` is the caller's vector, which is cleared first; the result is its new contents and the
-- stream behind what was read.
unfoldable pub deserialize :
    (fuel : ℕ)
    → Registry Factory
    → InputMemoryStream
    → (objects : List ℕ) → Action (InputMemoryStream × List ℕ)
deserialize fuel reg s objects = do
  release_handles objects
  (s', l) ← deserialize_loop fuel reg s (record { id_remap = []; objects = [] })
  w ← get
  link_entries l.id_remap w.entries
  pure (s', l.objects)
