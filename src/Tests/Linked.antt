-- ===== src/Tests/Linked.antt =====
-- A component and its game object, saved by one manager and loaded by another.
use packaged_task.Base.{
  ℕ, ◌≡◌, refl, List, [], ◌∷◌, length, ◌+◌, find, All, some, true, false, arith,
}
use packaged_task.MemoryStream.{OutputMemoryStream, input}
use packaged_task.MemoryStream.RoundTrip.{stream_from}
use packaged_task.Objects.State.{World, ok, component, game_object, class_component}
use packaged_task.Rtti.{is_derived_from_class_id, get_super_class_id, class_id_to_rtti}
use packaged_task.Objects.Components.{Tables, add_component, get_component}
use packaged_task.Objects.Components.Added.{get_component-add_component}
use packaged_task.Objects.Write.{serialize}
use packaged_task.Objects.Deserialize.{deserialize}
use packaged_task.Objects.Linking.{AreLive, entries_of}
use packaged_task.Objects.Linking.Entries.{AreDone}
use packaged_task.Objects.Linking.Made.{AreDistinct}
use packaged_task.Objects.Linking.Targets.{IsKnown, has_record, object_in, handle_in}
use packaged_task.Objects.Linking.Transfer.{deserialize-serialize}
use packaged_task.Tests.Managers.{
  saved, fresh, classes, records, saved-IsCountable, saved-records, records-IsStored, records-small,
  standard,
}

records-IsKnown : All (IsKnown records) records
unfolding has_record
records-IsKnown = (refl, ((refl, tt), tt))

records-AreDistinct : AreDistinct records
records-AreDistinct = (((λ e. omega (arith, e)), tt), (tt, tt))

deserialize-serialize_example :
    (out : OutputMemoryStream) × (serialize saved (record { buffer = [] }) ≡ some out)
    × (w' : World) × (objects : List ℕ) × (deserialize 3 classes (input out.buffer) [] fresh
        ≡ ok (stream_from (length out.buffer) out.buffer, objects) w')
    × (length objects ≡ 2)
    × (w'.entries ≡ entries_of records 1 1)
    × AreLive w'
    × AreDone (object_in records 1) (handle_in records 1) w' records 1 1
deserialize-serialize_example =
    deserialize-serialize 3 classes saved fresh records saved-IsCountable saved-records
      records-IsStored records-IsKnown records-AreDistinct records-small standard refl (omega arith)
      (omega arith)

-- The component is at 1 and its handle at 2, the game object at 3 and its handle at 5.
entries-records :
    entries_of records 1 1
    ≡ (1, record { unique = 1; handle = 2 }) ∷ (2, record { unique = 3; handle = 5 }) ∷ []
entries-records = refl

-- A component at 1 and a game object at 3 that has no component yet, with nobody listening.
abbrev separate : World
separate = record {
  objects =
      (1, record { instance_id = 1; is_del_it = false; body = component 0 })
      ∷ (3, record { instance_id = 2; is_del_it = false; body = game_object [] })
      ∷ [];
  handles = (2, record { ptr = 1; link_key = 0; owners = 1 }) ∷ [];
  next_address = 5;
  next_available_id = 3;
  entries = [];
}

abbrev tables : Tables ℕ
tables = record { registry = classes; fuel = 4; msg_handler = [] }

component_derived : is_derived_from_class_id 4 classes class_component class_component ≡ some true
unfolding is_derived_from_class_id get_super_class_id class_id_to_rtti find
component_derived = refl

separate-component :
    find 1 separate.objects
    ≡ some (record { instance_id = 1; is_del_it = false; body = component 0 })
unfolding find
separate-component = refl

separate-game_object :
    find 3 separate.objects
    ≡ some (record { instance_id = 2; is_del_it = false; body = game_object [] })
unfolding find
separate-game_object = refl

separate-handle : find 2 separate.handles ≡ some (record { ptr = 1; link_key = 0; owners = 1 })
unfolding find
separate-handle = refl

get_component-add_component_example :
    (w' : World) × (add_component tables 0 3 2 separate ≡ ok tt w')
    × (get_component tables 3 class_component w' ≡ ok 1 w')
    × (find 1 w'.objects ≡ some (record { instance_id = 1; is_del_it = false; body = component 3 }))
    × (find 2 w'.handles ≡ some (record { ptr = 1; link_key = 0; owners = 1 + 1 }))
unfolding find
get_component-add_component_example =
    get_component-add_component tables 0 3 1 (record { ptr = 1; link_key = 0; owners = 1 })
      (record { instance_id = 1; is_del_it = false; body = component 0 }) 0
      (record { instance_id = 2; is_del_it = false; body = game_object [] }) [] separate
      separate-handle (λ e. omega (arith, e)) separate-component refl (λ e. omega (arith, e))
      (λ e. omega (arith, e)) separate-game_object refl refl tt component_derived
