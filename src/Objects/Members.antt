-- ===== src/Objects/Members.antt =====
-- The members that components and game objects add: `mGameObj` and `mComponents`
-- (src/core/component.h, src/core/gameobject.h).
use packaged_task.Base.{ℕ, List, find, assign, none, some}
use packaged_task.Objects.State.{
  Object, plain, component, game_object, ok, fault, Action, pure, ◌>>=◌, ◌>>◌, load_object,
  store_object,
}
use packaged_task.Objects.Handles.{retain, release}

-- `mComponents` of the game object at an address; any other object there has none to be read.
unfoldable pub components_of : Object → Action (List (ℕ × ℕ))
components_of o w = elim o.body [ plain ↦ fault | component g ↦ fault | game_object cs ↦ ok cs w ]

unfoldable pub load_components : ℕ → Action (List (ℕ × ℕ))
load_components go = do o ← load_object go; components_of o

unfoldable pub store_components : ℕ → List (ℕ × ℕ) → Action (Unit {0})
store_components go cs = do o ← load_object go; store_object go (record o { body = game_object cs })

-- `mComponents[key] = com`: the new handle is copied in, and one that was there is released.
unfoldable pub assign_component : (go key cmph : ℕ) → Action (Unit {0})
assign_component go key cmph = do
  retain cmph
  cs ← load_components go
  store_components go (assign key cmph cs)
  elim (find key cs) [ none ↦ pure tt | some old ↦ release old ]

-- `mGameObj` of a component.
unfoldable pub sender_game_object : Object → Action ℕ
sender_game_object o w = elim o.body [
  | plain ↦ fault
  | component g ↦ ok g w
  | game_object cs ↦ fault
]

unfoldable pub set_game_object_internal : (cmp go : ℕ) → Action (Unit {0})
set_game_object_internal cmp go = do
  o ← load_object cmp
  store_object cmp (record o { body = component go })
