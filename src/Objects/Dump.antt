-- ===== src/Objects/Dump.antt =====
-- `dump` of src/core/gameobject.cpp, src/core/component.cpp, src/core/object.h and
-- src/core/gameobjectmanager.cpp: the bytes that go to `std::cout`, `none` where a null or dangling
-- pointer is followed.
pub mod Shown
use packaged_task.Base.{
  ℕ, ◌+◌, ◌*◌, List, [], ◌∷◌, ◌++◌, find, Option, none, some, Bool, true, false, ◌==◌,
  if◌then◌else◌,
}
use packaged_task.Base.Text.{codes, newline, spaces, unsigned_text, int_text}
use packaged_task.Objects.State.{
  Object, Body, plain, component, game_object, get_class_id_virtual, World, ObjEntry,
}
use packaged_task.Objects.Messages.{msg_did_add_component}
use packaged_task.Objects.Write.{◌>>=◌}

-- `std::string(4 * n, ' ')`
abbrev pub indented : ℕ → List ℕ
indented n = spaces (4 * n)

-- The name of the class, its number, and the identifier.
unfoldable pub dump_header : (level : ℕ) → (name : List ℕ) → Object → List ℕ
dump_header level name o =
    name
    ++ (codes " { "
        ++ (newline
            ++ (indented (level + 1)
                ++ (codes "type: "
                    ++ (int_text (get_class_id_virtual o)
                        ++ (newline
                            ++ (indented (level + 1)
                                ++ (codes "ID: " ++ (unsigned_text o.instance_id ++ newline)))))))))

-- The part of `Component::dump` that stands between the braces of `mGameObj`.
unfoldable pub dump_game_obj : World → (level : ℕ) → ℕ → Option (List ℕ)
dump_game_obj w level game_obj = if game_obj == 0 then some (codes "nullptr") else (do
  go ← find game_obj w.objects
  some (
      indented (level + 2)
      ++ (codes "Ptr object ID: "
          ++ (unsigned_text go.instance_id ++ (newline ++ indented (level + 1))))))

unfoldable pub dump_component : World → (level : ℕ) → Object → ℕ → Option (List ℕ)
dump_component w level o game_obj = do
  shown ← dump_game_obj w level game_obj
  some (
      dump_header level (codes "Component") o
      ++ (indented (level + 1)
          ++ (codes "mGameObj {"
              ++ (newline
                  ++ (shown ++ (codes "}" ++ (newline ++ (indented level ++ codes "}"))))))))

-- The loop of `GameObject::dump`; `cmp->getPtr()->getInstanceId()` follows two pointers.
unfoldable pub dump_components : World → (level : ℕ) → List (ℕ × ℕ) → Option (List ℕ)
dump_components w level [] = some []
dump_components w level ((key, h) ∷ rest) = do
  cmp ← find h w.handles
  c_ptr ← find cmp.ptr w.objects
  others ← dump_components w level rest
  some (
      indented (level + 2)
      ++ (codes "[type: "
          ++ (int_text key
              ++ (codes ", ID: "
                  ++ (unsigned_text c_ptr.instance_id ++ (codes "]" ++ (newline ++ others)))))))

-- The part of `GameObject::dump` that stands behind the opening brace of the components.
unfoldable pub dump_members : World → (level : ℕ) → List (ℕ × ℕ) → Option (List ℕ)
dump_members w level [] = some (codes "0}" ++ newline)
dump_members w level (c ∷ cs) = do
  shown ← dump_components w level (c ∷ cs)
  some (newline ++ (shown ++ (indented (level + 1) ++ (codes "}" ++ newline))))

unfoldable pub dump_game_object : World → (level : ℕ) → Object → List (ℕ × ℕ) → Option (List ℕ)
dump_game_object w level o cs = do
  shown ← dump_members w level cs
  some (
      dump_header level (codes "GameObject") o
      ++ (indented (level + 1)
          ++ (codes "std::unique_ptr<mComponents>{" ++ (shown ++ (indented level ++ codes "}")))))

-- The virtual `dump`: that of `Object` prints nothing.
unfoldable pub dump_body : World → (level : ℕ) → Object → Body → Option (List ℕ)
dump_body w level o plain = some []
dump_body w level o (component g) = dump_component w level o g
dump_body w level o (game_object cs) = dump_game_object w level o cs

unfoldable pub dump_object : World → (level : ℕ) → Object → Option (List ℕ)
dump_object w level o = dump_body w level o o.body

-- The body of the loop of the manager's `dump`.
unfoldable pub dump_if_alive : World → Object → (deleted : Bool) → Option (List ℕ)
dump_if_alive w o true = some []
dump_if_alive w o false = do shown ← dump_object w 0 o; some (shown ++ newline)

unfoldable pub dump_entries : World → List (ℕ × ObjEntry) → Option (List ℕ)
dump_entries w [] = some []
dump_entries w ((id, e) ∷ rest) = do
  o ← find e.unique w.objects
  here ← dump_if_alive w o o.is_del_it
  there ← dump_entries w rest
  some (here ++ there)

-- `GameObjectManager::dump`
unfoldable pub dump : World → Option (List ℕ)
dump w = dump_entries w w.entries

-- `Component::onAddMessage`: what it prints of the added component `rec` and of `self`, for the one
-- message that it knows.
unfoldable pub on_add_message : World → (self rec id : ℕ) → Option (List ℕ)
on_add_message w self rec id = do
  added ← find rec w.objects
  if id == msg_did_add_component
      then (do
        this ← find self w.objects
        some (
            codes "OnAddComponent type:"
            ++ (int_text (get_class_id_virtual added)
                ++ (codes " ID:"
                    ++ (unsigned_text added.instance_id
                        ++ (codes " this ID:" ++ (unsigned_text this.instance_id ++ newline)))))))
      else some []
