-- ===== src/Tests/Managers.antt =====
-- A game object with one component, saved and loaded; and what the registry answers.
use packaged_task.Base.{
  ℕ, ◌+◌, ◌^◌, ◌<◌, ◌≡◌, ◌≢◌, ◌↔◌, refl, List, [], ◌∷◌, ◌++◌, length, All, find, none, assign, some,
  Bool, true, false, ◌==◌, subst, some_cancel, Bool-cases, inl, inr, if◌then◌else◌, arith,
}
use Prim.Native.String.{String}
use text.Mathlib.Text.{◌==◌ as str_eq}
use text.Mathlib.TextEquality.{eq_iff}
use packaged_task.Base.Bytes.{le_bytes, from_le}
use packaged_task.MemoryStream.{
  OutputMemoryStream, InputMemoryStream, input, done, get_remaining_data_size, is_positive32,
}
use packaged_task.MemoryStream.RoundTrip.{stream_at, stream_from}
use packaged_task.Rtti.{
  Rtti, Registry, Result, undefined, class_id_to_rtti, register_class, get_super_class_id,
  is_derived_from_class_id,
}
use packaged_task.Rtti.Derived.{Derives, IsRanked, is_derived_from_class_id-Derives}
use packaged_task.Rtti.Lookup.{IsDistinct}
use packaged_task.Objects.State.{
  class_object, class_component, class_game_object, Object, plain, component, game_object, World,
  ok, raised, not_exist, running,
}
use packaged_task.Objects.Manager.{release_unused_objects, Factory, create_default_obj}
use packaged_task.Objects.Manager.Release.{IsSweepable, is_unused, release_unused_objects_lem}
use packaged_task.Objects.Manager.Valid.{IsValid}
use packaged_task.Objects.Manager.Creation.{create_default_obj-IsValid}
use packaged_task.Objects.Write.{serialize, write_object}
use packaged_task.Objects.Parse.{read_members}
use packaged_task.Objects.Deserialize.{peek_type_id, deserialize_loop, deserialize}
use packaged_task.Objects.Stored.{
  Stored, component_of, game_object_of, IsStored, stored_bytes, stored_members,
}
use packaged_task.Objects.Stored.Parsed.{stored_body}
use packaged_task.Objects.Stored.Written.{stored_in, links_of, extended, IsCountable}
use packaged_task.Objects.RoundTrip.{
  records_in, records_bytes, read_members-write_object, serialize-records,
}
use packaged_task.Objects.Loading.{IsStandard, load_records}
use packaged_task.Objects.Loading.Loop.{IsRoomy, deserialize_loop-records}
use packaged_task.Objects.Loading.Transfer.{nothing_loaded}
use packaged_task.Objects.Loading.Endless.{deserialize_loop-running}
use packaged_task.Objects.Loading.Alone.{deserialize-serialize_alone}

abbrev object_rtti : Rtti Factory
object_rtti = record { base = undefined; size = 16; class_name = "Object"; factory = plain }

abbrev component_class : Rtti Factory
component_class = record {
  base = class_object;
  size = 24;
  class_name = "Component";
  factory = component 0;
}

abbrev game_object_class : Rtti Factory
game_object_class = record {
  base = class_object;
  size = 64;
  class_name = "GameObject";
  factory = game_object [];
}

abbrev pub classes : Registry Factory
classes =
    (class_object, object_rtti)
    ∷ (class_component, component_class)
    ∷ (class_game_object, game_object_class)
    ∷ []

-- The component at address 1 and its game object at address 3.
abbrev pub saved : World
saved = record {
  objects =
      (1, record { instance_id = 1; is_del_it = false; body = component 3 })
      ∷ (3, record { instance_id = 2; is_del_it = false; body = game_object ((1001, 2) ∷ []) })
      ∷ [];
  handles =
      (2, record { ptr = 1; link_key = 0; owners = 2 })
      ∷ (4, record { ptr = 3; link_key = 0; owners = 1 })
      ∷ [];
  next_address = 5;
  next_available_id = 3;
  entries = (1, record { unique = 1; handle = 2 }) ∷ (2, record { unique = 3; handle = 4 }) ∷ [];
}

abbrev pub fresh : World
fresh = record { objects = []; handles = []; next_address = 1; next_available_id = 1; entries = [] }

abbrev pub records : List Stored
records = component_of 1 (some 2) ∷ game_object_of 2 ((1001, 1) ∷ []) ∷ []

found-IsCountable :
    (m : List (ℕ × Object))
    → All (λ p. IsCountable p.1.body) m
    → (a : ℕ) (o : Object) → find a m ≡ some o
    → IsCountable o.body
unfolding find
found-IsCountable [] h a o e = cc
found-IsCountable ((k, p) ∷ m) h a o e = elim (Bool-cases (k == a)) [
  | inl same ↦
      let found : some p ≡ some o = ground arith in
      subst (λ (q : Object). IsCountable q.body) (some_cancel found) h.0
  | inr other ↦ found-IsCountable m h.1 a o (ground arith)
]

pub saved-IsCountable : (a : ℕ) (o : Object) → find a saved.objects ≡ some o → IsCountable o.body
saved-IsCountable = found-IsCountable saved.objects (tt, (omega arith, tt))

pub saved-records : records_in saved saved.entries ≡ some records
unfolding records_in stored_in find links_of
saved-records = refl

pub records-IsStored : All IsStored records
unfolding find
records-IsStored = (
  (omega arith, omega arith),
  ((omega arith, omega arith, (omega arith, omega arith, refl, tt)), tt),
)

pub records-small : length (records_bytes records) < 2 ^ 31
unfolding records_bytes stored_bytes le_bytes
records-small = omega arith

records-shorter : 1 + length (records_bytes records) < 2 ^ 31
unfolding records_bytes stored_bytes le_bytes
records-shorter = omega arith

saved-game_object :
    stored_in saved 2 (game_object ((1001, 2) ∷ [])) ≡ some (game_object_of 2 ((1001, 1) ∷ []))
unfolding stored_in find links_of
saved-game_object = refl

game_object-small : 1 + length (stored_bytes (game_object_of 2 ((1001, 1) ∷ []))) < 2 ^ 32
unfolding stored_bytes le_bytes
game_object-small = omega arith

pub standard : IsStandard classes
unfolding class_id_to_rtti find
standard = record {
  component_rtti = component_class;
  game_object_rtti = game_object_class;
  component_found = refl;
  component_factory = refl;
  game_object_found = refl;
  game_object_factory = refl;
}

fresh-IsRoomy : IsRoomy fresh
unfolding find
fresh-IsRoomy id late = refl

fresh-IsValid : IsValid fresh
unfolding find
fresh-IsValid = record {
  first = (omega arith, omega arith);
  ids = λ id e f. cc;
  object_addresses = λ a o f. cc;
  handle_addresses = λ a o f. cc;
  entry_objects = λ a o f. cc;
  handle_objects = λ a o f n. cc;
}

deserialize_loop-records_example :
    deserialize_loop 3 classes (stream_at (7 ∷ []) (records_bytes records)) nothing_loaded fresh
    ≡ ok
        (
          stream_at ((7 ∷ []) ++ records_bytes records) [],
          (load_records records fresh nothing_loaded).1,
        )
        (load_records records fresh nothing_loaded).0
deserialize_loop-records_example =
    deserialize_loop-records 3 classes records (7 ∷ []) nothing_loaded fresh standard
      records-IsStored (omega (arith, records-shorter)) fresh-IsRoomy (omega arith) (omega arith)

read_members-write_object_example :
    (out : OutputMemoryStream) × (write_object saved
        (record { instance_id = 2; is_del_it = false; body = game_object ((1001, 2) ∷ []) })
        (record { buffer = 7 ∷ [] })
      ≡ some out)
    × (read_members
          (stored_body (game_object_of 2 ((1001, 1) ∷ [])))
          (stream_from 1 (out.buffer ++ (9 ∷ [])))
        ≡ done
            (stored_members (game_object_of 2 ((1001, 1) ∷ [])))
            (stream_from (length out.buffer) (out.buffer ++ (9 ∷ []))))
read_members-write_object_example =
    read_members-write_object saved
      (record { instance_id = 2; is_del_it = false; body = game_object ((1001, 2) ∷ []) })
      (game_object ((1001, 2) ∷ [])) (game_object_of 2 ((1001, 1) ∷ []))
      (record { buffer = 7 ∷ [] }) (9 ∷ []) refl (omega arith) saved-game_object
      records-IsStored.1.0 game_object-small

serialize-records_example :
    serialize saved (record { buffer = 7 ∷ [] })
    ≡ some (extended (record { buffer = 7 ∷ [] }) (records_bytes records))
serialize-records_example =
    serialize-records saved records (record { buffer = 7 ∷ [] }) saved-IsCountable saved-records

game_object-known : class_id_to_rtti classes class_game_object ≡ Result.ok game_object_class
unfolding class_id_to_rtti find
game_object-known = refl

create_default_obj-IsValid_example :
    (h a : ℕ) × (w' : World) × (create_default_obj classes class_game_object fresh ≡ ok h w')
    × IsValid w'
    × (find h w'.handles ≡ some (record { ptr = a; link_key = 0; owners = 1 }))
    × (find a w'.objects
        ≡ some (record { instance_id = 1; is_del_it = false; body = game_object [] }))
    × ((k : ℕ)
        → find k w'.entries
          ≡ (if 1 == k then some (record { unique = a; handle = h }) else find k fresh.entries))
create_default_obj-IsValid_example =
    create_default_obj-IsValid classes class_game_object game_object_class fresh fresh-IsValid
      game_object-known (omega arith)

abbrev object_stream : InputMemoryStream
object_stream = record { bytes = 232 ∷ 3 ∷ 0 ∷ 0 ∷ []; head = 0; capacity = 4 }

object-known : class_id_to_rtti classes class_object ≡ Result.ok object_rtti
unfolding class_id_to_rtti find
object-known = refl

object-peeked : (w : World) → peek_type_id object_stream w ≡ ok class_object w
unfolding peek_type_id from_le
object-peeked w = refl

object-more : is_positive32 (get_remaining_data_size object_stream) ≡ true
unfolding get_remaining_data_size
object-more = refl

deserialize_loop-running_example :
    deserialize_loop 100 classes object_stream nothing_loaded fresh ≡ running
deserialize_loop-running_example =
    deserialize_loop-running classes object_rtti object-known refl object_stream object-peeked
      object-more 100 nothing_loaded fresh fresh-IsRoomy (omega arith)

unfoldable rank : ℕ → ℕ
rank c = if c == class_object then 1 else if c == undefined then 0 else 2

rank_component : rank class_component + 1 < 4
unfolding rank
rank_component = omega arith

classes-IsRanked : IsRanked classes rank
unfolding rank get_super_class_id find
classes-IsRanked c inner = ground arith

is_derived_from_class_id-Derives_example :
    (found : Bool) × (is_derived_from_class_id 4 classes class_component class_object ≡ some found)
    × ((found ≡ true) ↔ Derives classes class_component class_object)
is_derived_from_class_id-Derives_example =
    is_derived_from_class_id-Derives classes rank 4 class_component class_object classes-IsRanked
      rank_component

registered_fourth :
    register_class classes 1003 class_component "Light" 32 (component 0)
    ≡ Result.ok (
        classes
        ++ ((
          1003,
          record { base = class_component; size = 32; class_name = "Light"; factory = component 0 },
        )
            ∷ []))
unfolding register_class find assign
registered_fourth = refl

component-found : find class_component classes ≡ some component_class
unfolding find
component-found = refl

differ : (a b : String) → str_eq a b ≡ false → a ≢ b
differ a b e same = ground (arith, eq_iff a b)

classes-IsDistinct : IsDistinct classes
unfolding find
classes-IsDistinct = (
  refl,
  (differ "Component" "Object" refl, (differ "GameObject" "Object" refl, tt)),
  (refl, (differ "GameObject" "Component" refl, tt), (refl, tt, tt)),
)

abbrev lone : World
lone = record {
  objects = (1, record { instance_id = 1; is_del_it = false; body = component 0 }) ∷ [];
  handles = (2, record { ptr = 1; link_key = 0; owners = 1 }) ∷ [];
  next_address = 3;
  next_available_id = 2;
  entries = (1, record { unique = 1; handle = 2 }) ∷ [];
}

lone-records : records_in lone lone.entries ≡ some (component_of 1 none ∷ [])
unfolding records_in stored_in find
lone-records = refl

deserialize-serialize_alone_example :
    (out : OutputMemoryStream) × (serialize lone (record { buffer = [] }) ≡ some out)
    × (w' : World) × (deserialize 2 classes (input out.buffer) [] fresh ≡ raised not_exist w')
deserialize-serialize_alone_example =
    deserialize-serialize_alone 2 classes lone fresh 1 (found-IsCountable lone.objects (tt, tt))
      lone-records (omega arith) (omega arith) standard refl (omega arith) (omega arith)

-- The saved objects, of which the component is deleted.
abbrev half_deleted : World
half_deleted = record saved {
  objects =
      (1, record { instance_id = 1; is_del_it = true; body = component 3 })
      ∷ (3, record { instance_id = 2; is_del_it = false; body = game_object [] })
      ∷ [];
}

half_deleted-IsSweepable : IsSweepable half_deleted.objects half_deleted.entries
unfolding find
half_deleted-IsSweepable = (
  (record { instance_id = 1; is_del_it = true; body = component 3 }, refl, λ d. refl),
  ((λ q. omega (arith, q), λ q. omega (arith, q)), tt),
  ((record { instance_id = 2; is_del_it = false; body = game_object [] }, refl, λ d. refl), tt, tt),
)

release_unused_objects_lem_example :
    (w' : World) × (release_unused_objects half_deleted ≡ ok tt w')
    × ((k : ℕ)
        → find k w'.entries ≡ (
            if is_unused half_deleted.objects half_deleted.entries k
            then none
            else find k half_deleted.entries))
release_unused_objects_lem_example =
    release_unused_objects_lem half_deleted half_deleted-IsSweepable
