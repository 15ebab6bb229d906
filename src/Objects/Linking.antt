-- ===== src/Objects/Linking.antt =====
-- The second loop of `deserialize`, which turns identifiers into pointers and handles
-- (src/core/gameobject.cpp, src/core/component.cpp), on what the first loop has made.
pub mod Shared
pub mod Step
pub mod Links
pub mod Entries
pub mod Placed
pub mod Made
pub mod Targets
pub mod Apart
pub mod Transfer
use packaged_task.Base.{ℕ, suc, ◌+◌, ◌≡◌, ◌≢◌, List, [], ◌∷◌, length, find, some, none, false}
use packaged_task.Objects.State.{Object, Body, component, game_object, ObjHandle, ObjEntry, World}
use packaged_task.Objects.Stored.{Stored, component_of, game_object_of, stored_game_obj}
use packaged_task.Objects.Loading.{number_links, inst_of}
use packaged_task.Objects.Linking.Shared.{stand_in}

-- An address that is no entry's handle.
abbrev pub IsFree : List (ℕ × ObjEntry) → ℕ → Type 0
IsFree entries b = (n : ℕ) (e : ObjEntry) → find n entries ≡ some e → e.handle ≢ b

-- Every entry's handle is there.
abbrev pub AreLive : World → Type 0
AreLive w =
    (n : ℕ) (e : ObjEntry)
    → find n w.entries ≡ some e
    → (r : ObjHandle) × (find e.handle w.handles ≡ some r)

-- The stand-ins of some links, from an address on.
abbrev pub AreStandIns : World → (address : ℕ) → List (ℕ × ℕ) → Type 0
AreStandIns w n [] = Unit {0}
AreStandIns w n ((key, inst) ∷ links) =
    (find n w.handles ≡ some (stand_in inst)) × IsFree w.entries n × AreStandIns w (suc n) links

abbrev pub links_of : Stored → List (ℕ × ℕ)
links_of (component_of inst g) = []
links_of (game_object_of inst links) = links

-- A record takes the addresses from `a` on: its object, its stand-ins, and the handle behind them.
abbrev pub entry_at : Stored → (a : ℕ) → ObjEntry
entry_at x a = record { unique = a; handle = suc (a + length (links_of x)) }

abbrev pub next_at : Stored → (a : ℕ) → ℕ
next_at x a = suc (suc (a + length (links_of x)))

abbrev pub entries_of : List Stored → (a id : ℕ) → List (ℕ × ObjEntry)
entries_of [] a id = []
entries_of (x ∷ xs) a id = (id, entry_at x a) ∷ entries_of xs (next_at x a) (id + 1)

-- The object of a record before it is linked.
abbrev pub body_at : Stored → (a : ℕ) → Body
body_at (component_of inst g) a = component (stored_game_obj g)
body_at (game_object_of inst links) a = game_object (number_links (suc a) links)

abbrev pub object_at : Stored → (a id : ℕ) → Object
object_at x a id = record { instance_id = id; is_del_it = false; body = body_at x a }

-- The records' objects and stand-ins are there.
abbrev pub ArePending : World → List Stored → (a id : ℕ) → Type 0
ArePending w [] a id = Unit {0}
ArePending w (x ∷ xs) a id =
    (find a w.objects ≡ some (object_at x a id))
    × AreStandIns w (suc a) (links_of x)
    × ArePending w xs (next_at x a) (id + 1)
