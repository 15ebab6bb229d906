-- ===== src/Objects/Components.antt =====
-- src/core/gameobject.h, src/core/gameobject.cpp and src/core/component.cpp, but for serialization:
-- how components are added to a game object and receive its messages. A callback is a function of
-- the receiver's address, the message and its data, of type `D`, that acts on the memory; it must
-- not add or remove components of the game object that is sending, as that would invalidate the
-- loop.
pub mod Added
pub mod Receivers
use packaged_task.Base.{
  ℕ, List, [], ◌∷◌, find, Option, none, some, Bool, true, false, not, ◌==◌, ◌&&◌, if◌then◌else◌,
}
use packaged_task.Rtti.{Registry, is_derived_from_class_id, undefined}
use packaged_task.Objects.State.{
  class_component, get_class_id_virtual, Outcome, ok, running, Action, pure, ◌>>=◌, ◌>>◌, assert,
  or_fault, load_object, load_handle,
}
use packaged_task.Objects.Handles.{retain}
use packaged_task.Objects.Manager.{Factory}
use packaged_task.Objects.Members.{
  load_components, sender_game_object, set_game_object_internal, assign_component,
}
use packaged_task.Objects.Messages.{
  CmpMsgsTable, has_message_callback, message_callback, msg_undefined, msg_did_add_component,
}

abbrev pub Callback : Type 0 → Type 0
Callback D = ℕ → ℕ → D → Action (Unit {0})

-- What the operations read besides the memory: the registered classes and `sMsgHandler`. `fuel`
-- bounds the rounds of `IsDerivedFromClassID`.
pub record Tables (D : Type 0) : Type 0 where
  pub registry : Registry Factory
  pub fuel : ℕ
  pub msg_handler : CmpMsgsTable (Callback D)

module _ {D : Type 0} (t : Tables D) where
  unfoldable pub cast_result : ℕ → Option Bool → Action ℕ
  cast_result o none w = running
  cast_result o (some false) w = ok 0 w
  cast_result o (some true) w = ok o w

  -- `dynamic_ohdl_cast<T>`: the class is asked for before the null test, so a null handle and one
  -- that points nowhere fault. 0 is the null pointer of a failed cast.
  unfoldable pub dynamic_ohdl_cast : (class_id : ℕ) → ℕ → Action ℕ
  dynamic_ohdl_cast class_id h = do
    r ← load_handle h
    o ← load_object r.ptr
    cast_result r.ptr (is_derived_from_class_id t.fuel t.registry (get_class_id_virtual o) class_id)

  -- The loop body of `GameObject::sendMessage`: the assertion of `handleMessage`, the search by the
  -- receiver's own class, and the call.
  unfoldable pub handle_message : ℕ → ℕ → D → Action (Unit {0})
  handle_message rec id payload = do
    assert (not (rec == 0))
    o ← load_object rec
    call ← or_fault (message_callback t.msg_handler id (get_class_id_virtual o))
    call rec id payload

  unfoldable pub deliver : (sender id : ℕ) → D → (key h : ℕ) → Action (Unit {0})
  deliver sender id payload key h =
      if has_message_callback t.msg_handler id key && not (key == sender)
      then (do cmp_ptr ← dynamic_ohdl_cast class_component h; handle_message cmp_ptr id payload)
      else pure tt

  unfoldable pub deliver_all : (sender id : ℕ) → D → List (ℕ × ℕ) → Action (Unit {0})
  deliver_all sender id payload [] = pure tt
  deliver_all sender id payload ((key, h) ∷ rest) = do
    deliver sender id payload key h
    deliver_all sender id payload rest

  unfoldable pub send_message : (go sender id : ℕ) → D → Action (Unit {0})
  send_message go sender id payload = do
    assert (not (id == msg_undefined))
    cs ← load_components go
    deliver_all sender id payload cs

  -- `Component::sendMessage`
  unfoldable pub component_send_message : (cmp id : ℕ) → D → Action (Unit {0})
  component_send_message cmp id payload = do
    o ← load_object cmp
    go ← sender_game_object o
    if go == 0 then pure tt else send_message go (get_class_id_virtual o) id payload

  -- `addComponent`: `empty` is the `{}` that the message carries.
  unfoldable pub add_component : (empty : D) → (go cmph : ℕ) → Action (Unit {0})
  add_component empty go cmph = do
    r ← load_handle cmph
    assert (not (r.ptr == 0))
    cmp_ptr ← dynamic_ohdl_cast class_component cmph
    set_game_object_internal cmp_ptr go
    component_send_message cmp_ptr msg_did_add_component empty
    o ← load_object cmp_ptr
    assign_component go (get_class_id_virtual o) cmph

  -- `queryComponentImplementation`: 0 is the null pointer.
  unfoldable pub query_component_implementation : (go class_id : ℕ) → Action ℕ
  query_component_implementation go class_id = do
    assert (not (class_id == undefined))
    cs ← load_components go
    elim (find class_id cs) [ none ↦ pure 0 | some h ↦ dynamic_ohdl_cast class_component h ]

  -- `getComponent<T>` and `getComponentPtr<T>`; the latter returns a copy of the handle.
  unfoldable pub get_component : (go class_id : ℕ) → Action ℕ
  get_component go class_id = do
    cmph ← query_component_implementation go class_id
    assert (not (cmph == 0))
    pure cmph

  unfoldable pub get_component_ptr : (go class_id : ℕ) → Action ℕ
  get_component_ptr go class_id = do
    cs ← load_components go
    elim (find class_id cs) [ none ↦ λ w. Outcome.assertion_failed | some h ↦ do retain h; pure h ]
