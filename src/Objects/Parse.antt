-- ===== src/Objects/Parse.antt =====
-- What `Component::read` and `GameObject::read` take from the stream.
use packaged_task.Base.{ℕ, zero, suc, ◌+◌, ◌-◌, ◌^◌, List, [], assign, ltb, ◌==◌, if◌then◌else◌}
use packaged_task.MemoryStream.{Reader, pure, ◌>>=◌, read}
use packaged_task.Objects.State.{Body, plain, component, game_object}

-- The values that `read` stores. A component gets its `mGameObj`, still an identifier cast to a
-- pointer. A game object gets the identifiers for its class identifiers, each the `m_link_key` of
-- a handle to be made.
pub data Members : Type 0 where
  no_members : Members
  component_members : (inst_id : ℕ) (game_obj : ℕ) → Members
  game_object_members : (inst_id : ℕ) (links : List (ℕ × ℕ)) → Members

-- `(GameObject *)n` of an `int`: the sign bit fills the upper half of the 64 bits.
abbrev pub int_to_pointer : ℕ → ℕ
int_to_pointer n = if ltb n (2 ^ 31) then n else n + (2 ^ 64 - 2 ^ 32)

unfoldable pub read_game_obj : ℕ → Reader ℕ
read_game_obj n_ptr = if n_ptr == 0 then pure 0 else (do n ← read 4; pure (int_to_pointer n))

unfoldable pub read_component : Reader Members
read_component = do
  type_id ← read 4
  inst_id ← read 4
  n_ptr ← read 4
  g ← read_game_obj n_ptr
  pure (component_members inst_id g)

-- `while(size > 0)`: a class identifier that comes again replaces the handle that it has.
unfoldable pub read_links : ℕ → List (ℕ × ℕ) → Reader (List (ℕ × ℕ))
read_links zero links = pure links
read_links (suc size) links = do
  key ← read 4
  cmp_inst ← read 4
  read_links size (assign key cmp_inst links)

unfoldable pub read_game_object : Reader Members
read_game_object = do
  type_id ← read 4
  inst_id ← read 4
  size ← read 4
  links ← read_links size []
  pure (game_object_members inst_id links)

-- The virtual `read`: `Object::read` takes nothing.
unfoldable pub read_members : Body → Reader Members
read_members plain = pure no_members
read_members (component g) = read_component
read_members (game_object cs) = read_game_object
