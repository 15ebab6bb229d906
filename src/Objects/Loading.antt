-- ===== src/Objects/Loading.antt =====
-- The first loop of `deserialize`, as a function of the records in the stream.
pub mod One
pub mod Loop
pub mod Transfer
pub mod Endless
pub mod Alone
use packaged_task.Base.{
  ℕ, zero, suc, ◌+◌, ◌^◌, ◌≤◌, ◌≡◌, List, [], ◌∷◌, ◌++◌, find, assign, Option, none, some, true,
  false,
}
use packaged_task.Rtti.{Registry, Rtti, Result, class_id_to_rtti}
use packaged_task.Objects.State.{
  class_component, class_game_object, Object, Body, component, game_object, World, ObjHandle,
}
use packaged_task.Objects.Manager.{Factory, created}
use packaged_task.Objects.Manager.Registered.{registered}
use packaged_task.Objects.Manager.Creation.{made}
use packaged_task.Objects.Stored.{Stored, component_of, game_object_of, stored_game_obj}
use packaged_task.Objects.Stored.Parsed.{stored_body}
use packaged_task.Objects.Deserialize.{Loaded}

-- The registry has the two classes with their factories.
pub record IsStandard (reg : Registry Factory) : Type 0 where
  pub component_rtti : Rtti Factory
  pub game_object_rtti : Rtti Factory
  pub component_found : class_id_to_rtti reg class_component ≡ Result.ok component_rtti
  pub component_factory : component_rtti.factory ≡ component 0
  pub game_object_found : class_id_to_rtti reg class_game_object ≡ Result.ok game_object_rtti
  pub game_object_factory : game_object_rtti.factory ≡ game_object []

-- The handles that stand for the components of a game object until it is linked.
unfoldable pub number_links : ℕ → List (ℕ × ℕ) → List (ℕ × ℕ)
number_links n [] = []
number_links n ((key, inst) ∷ links) = (key, n) ∷ number_links (suc n) links

unfoldable pub with_links : List (ℕ × ℕ) → World → World
with_links [] w = w
with_links ((key, inst) ∷ links) w = with_links links (record w {
  handles = assign w.next_address (record { ptr = 0; link_key = inst; owners = 1 }) w.handles;
  next_address = suc w.next_address;
})

abbrev pub inst_of : Stored → ℕ
inst_of (component_of inst g) = inst
inst_of (game_object_of inst links) = inst

-- The memory behind the members of a record, the object as read, and the memory with both.
abbrev pub linked_world : Stored → World → World
linked_world (component_of inst g) w = made (component 0) w
linked_world (game_object_of inst links) w = with_links links (made (game_object []) w)

abbrev pub loaded_body : Stored → World → Body
loaded_body (component_of inst g) w = component (stored_game_obj g)
loaded_body (game_object_of inst links) w = game_object (number_links (suc w.next_address) links)

abbrev pub loaded_object : Stored → World → Object
loaded_object x w = record { instance_id = inst_of x; is_del_it = false; body = loaded_body x w }

abbrev pub loaded_world : Stored → World → World
loaded_world x w = record (linked_world x w) {
  objects = assign w.next_address (loaded_object x w) (linked_world x w).objects;
}

-- The memory and the loop's variables after a record.
abbrev pub load_world : Stored → World → World
load_world x w = registered w.next_address (loaded_object x w) (loaded_world x w)

abbrev pub load_one : Stored → World → Loaded → Loaded
load_one x w l = record {
  id_remap = assign (inst_of x) w.next_available_id l.id_remap;
  objects = l.objects ++ ((linked_world x w).next_address ∷ []);
}

unfoldable pub load_records : List Stored → World → Loaded → World × Loaded
load_records [] w l = (w, l)
load_records (x ∷ xs) w l = load_records xs (load_world x w) (load_one x w l)
