-- ===== src/Objects/State.antt =====
-- The memory that the object system works on: objects and handles behind addresses, and one
-- `GameObjectManager`. Address 0 is the null pointer; the allocator hands out each address once, so
-- a dangling pointer is one that leads nowhere.
use packaged_task.Base.{ℕ, suc, List, find, assign, Option, none, some, Bool, true, false}

-- core/classids.h
abbrev pub class_object : ℕ
class_object = 1000

abbrev pub class_component : ℕ
class_component = 1001

abbrev pub class_game_object : ℕ
class_game_object = 1002

-- The members that a class adds to `Object`, as the tag of its virtual functions. A component has
-- the address of its game object, and a game object the map from class identifiers to handles.
pub data Body : Type 0 where
  plain : Body
  component : (game_obj : ℕ) → Body
  game_object : (components : List (ℕ × ℕ)) → Body

pub record Object : Type 0 where
  pub instance_id : ℕ
  pub is_del_it : Bool
  pub body : Body

abbrev pub class_of : Body → ℕ
class_of plain = class_object
class_of (component g) = class_component
class_of (game_object cs) = class_game_object

-- `getClassIDVirtual()`
abbrev pub get_class_id_virtual : Object → ℕ
get_class_id_virtual o = class_of o.body

-- An `ObjHandle` with the number of `shared_ptr`s that own it.
pub record ObjHandle : Type 0 where
  pub ptr : ℕ
  pub link_key : ℕ
  pub owners : ℕ

pub record ObjEntry : Type 0 where
  pub unique : ℕ
  pub handle : ℕ

-- `next_available_id` and `entries` are the members of the manager.
pub record World : Type 0 where
  pub objects : List (ℕ × Object)
  pub handles : List (ℕ × ObjHandle)
  pub next_address : ℕ
  pub next_available_id : ℕ
  pub entries : List (ℕ × ObjEntry)

pub data Error : Type 0 where
  rtti_not_found not_created not_exist range_error : Error

-- `fault` is undefined behaviour (a null or dangling pointer, an access outside an array), and
-- `running` a loop that has used up its fuel.
pub data Outcome {ℓ} (A : Type ℓ) : Type ℓ where
  ok : A → World → Outcome A
  raised : Error → World → Outcome A
  assertion_failed fault running : Outcome A

abbrev pub Action : Type 0 → Type 0
Action A = World → Outcome A

abbrev pub pure : {A : Type 0} → A → Action A
pure a w = ok a w

infixl 5 ◌>>=◌ ◌>>◌
abbrev pub ◌>>=◌ : {A B : Type 0} → Action A → (A → Action B) → Action B
◌>>=◌ m f w = elim (m w) [
  | ok a w' ↦ f a w'
  | raised e w' ↦ raised e w'
  | assertion_failed ↦ assertion_failed
  | fault ↦ fault
  | running ↦ running
]

abbrev pub ◌>>◌ : {B : Type 0} → Action (Unit {0}) → Action B → Action B
m >> k = m >>= λ _. k

abbrev pub raise : {A : Type 0} → Error → Action A
raise e w = raised e w

abbrev pub get : Action World
get w = ok w w

-- A value behind a pointer.
abbrev pub or_fault : {A : Type 0} → Option A → Action A
or_fault none w = fault
or_fault (some a) w = ok a w

abbrev pub assert : Bool → Action (Unit {0})
assert true w = ok tt w
assert false w = assertion_failed

abbrev pub load_object : ℕ → Action Object
load_object a w = or_fault (find a w.objects) w

abbrev pub store_object : ℕ → Object → Action (Unit {0})
store_object a o w = ok tt (record w { objects = assign a o w.objects })

abbrev pub load_handle : ℕ → Action ObjHandle
load_handle h w = or_fault (find h w.handles) w

abbrev pub store_handle : ℕ → ObjHandle → Action (Unit {0})
store_handle h r w = ok tt (record w { handles = assign h r w.handles })

-- `std::make_unique` and `std::make_shared`
abbrev pub new_object : Object → Action ℕ
new_object o w =
    ok w.next_address
      (record w { objects = assign w.next_address o w.objects; next_address = suc w.next_address })

abbrev pub new_handle : ObjHandle → Action ℕ
new_handle r w =
    ok w.next_address
      (record w { handles = assign w.next_address r w.handles; next_address = suc w.next_address })
