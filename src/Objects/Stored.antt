-- ===== src/Objects/Stored.antt =====
-- An object as its bytes in a stream.
pub mod Parsed
pub mod Written
use packaged_task.Base.{ℕ, ◌^◌, ◌<◌, ◌≡◌, List, [], ◌∷◌, ◌++◌, length, find, Option, none, some}
use packaged_task.Base.Bytes.{le_bytes}
use packaged_task.Objects.State.{class_component, class_game_object}
use packaged_task.Objects.Parse.{Members, component_members, game_object_members, int_to_pointer}

-- What a stream says of an object: its identifier, and for a component that of its game object, or
-- for a game object the class and the identifier of each component.
pub data Stored : Type 0 where
  component_of : (inst_id : ℕ) (game_obj : Option ℕ) → Stored
  game_object_of : (inst_id : ℕ) (links : List (ℕ × ℕ)) → Stored

abbrev pub IsU32 : ℕ → Type 0
IsU32 n = n < 2 ^ 32

-- Links that a map can hold: 32-bit numbers, no class twice.
abbrev pub AreLinks : List (ℕ × ℕ) → Type 0
AreLinks [] = Unit {0}
AreLinks ((key, inst) ∷ links) = IsU32 key × IsU32 inst × (find key links ≡ none) × AreLinks links

abbrev pub IsStored : Stored → Type 0
IsStored (component_of inst none) = IsU32 inst
IsStored (component_of inst (some g)) = IsU32 inst × IsU32 g
IsStored (game_object_of inst links) = IsU32 inst × IsU32 (length links) × AreLinks links

abbrev pub game_obj_bytes : Option ℕ → List ℕ
game_obj_bytes none = le_bytes 4 0
game_obj_bytes (some g) = le_bytes 4 1 ++ le_bytes 4 g

abbrev pub links_bytes : List (ℕ × ℕ) → List ℕ
links_bytes [] = []
links_bytes ((key, inst) ∷ links) = le_bytes 4 key ++ (le_bytes 4 inst ++ links_bytes links)

unfoldable pub stored_bytes : Stored → List ℕ
stored_bytes (component_of inst g) =
    le_bytes 4 class_component ++ (le_bytes 4 inst ++ game_obj_bytes g)
stored_bytes (game_object_of inst links) =
    le_bytes 4 class_game_object
    ++ (le_bytes 4 inst ++ (le_bytes 4 (length links) ++ links_bytes links))

-- The members that reading gives.
unfoldable pub stored_game_obj : Option ℕ → ℕ
stored_game_obj none = 0
stored_game_obj (some g) = int_to_pointer g

unfoldable pub stored_members : Stored → Members
stored_members (component_of inst g) = component_members inst (stored_game_obj g)
stored_members (game_object_of inst links) = game_object_members inst links
