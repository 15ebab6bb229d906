-- ===== src/Objects/Loading/One.antt =====
-- One round of the loop, on the bytes of a record.
use packaged_task.Base.{
  ℕ, ◌+◌, ◌^◌, ◌<◌, ◌≤◌, ◌≡◌, refl, List, [], ◌∷◌, ◌++◌, length, take, drop-append, find,
  find-assign_self, none, arith, append_assoc, le→ltb,
}
use packaged_task.Base.Bytes.{le_bytes, from_le-le_bytes, byte_sizes}
use packaged_task.MemoryStream.RoundTrip.{stream_at}
use packaged_task.Rtti.{Registry}
use packaged_task.Objects.State.{
  class_component, class_game_object, component, game_object, World, ok, ◌>>=◌,
}
use packaged_task.Objects.Manager.{Factory, created, create, create_instance, register_obj}
use packaged_task.Objects.Manager.Registered.{register_obj_lem}
use packaged_task.Objects.Manager.Creation.{made}
use packaged_task.Objects.Stored.{
  Stored, component_of, game_object_of, IsStored, stored_bytes, stored_members,
}
use packaged_task.Objects.Stored.Parsed.{stored_body, read_members-stored_bytes}
use packaged_task.Objects.Deserialize.{
  Loaded, peek_type_id, make_link_handles, store_members, read_into, deserialize_one,
}
use packaged_task.Objects.Loading.{
  IsStandard, number_links, with_links, linked_world, loaded_object, loaded_world, load_world,
  load_one,
}

abbrev class_stored : Stored → ℕ
class_stored (component_of inst g) = class_component
class_stored (game_object_of inst links) = class_game_object

first_four : (c : ℕ) (rest : List ℕ) → take 4 (le_bytes 4 c ++ rest) ≡ le_bytes 4 c
unfolding le_bytes
first_four c rest = refl

peek-le_bytes :
    (c : ℕ) (front rest : List ℕ) (w : World)
    → c < 2 ^ 32
    → peek_type_id (stream_at front (le_bytes 4 c ++ rest)) w ≡ ok c w
unfolding peek_type_id
peek-le_bytes c front rest w fits = rw (
  le→ltb _ _ enough,
  drop-append front (le_bytes 4 c ++ rest),
  first_four c rest,
  from_le-le_bytes 4 c fits,
)
  where
    enough : length front + 4 ≤ length (front ++ (le_bytes 4 c ++ rest))
    enough = omega byte_sizes

peek-stored_bytes :
    (x : Stored) (front rest : List ℕ) (w : World)
    → peek_type_id (stream_at front (stored_bytes x ++ rest)) w ≡ ok (class_stored x) w
unfolding stored_bytes
peek-stored_bytes (component_of inst g) front rest w =
    rw append_assoc (peek-le_bytes class_component front _ w (omega arith))
peek-stored_bytes (game_object_of inst links) front rest w =
    rw append_assoc (peek-le_bytes class_game_object front _ w (omega arith))

create-stored_body :
    (reg : Registry Factory) (x : Stored) (w : World)
    → IsStandard reg
    → create reg (class_stored x) w ≡ ok w.next_address (made (stored_body x) w)
unfolding create create_instance stored_body
create-stored_body reg (component_of inst g) w std =
    rw (std.component_found, create, create_instance, std.component_factory)
create-stored_body reg (game_object_of inst links) w std =
    rw (std.game_object_found, create, create_instance, std.game_object_factory)

make_link_handles-with_links :
    (links : List (ℕ × ℕ)) (w : World)
    → make_link_handles links w ≡ ok (number_links w.next_address links) (with_links links w)
unfolding make_link_handles number_links with_links
make_link_handles-with_links [] w = refl
make_link_handles-with_links ((key, inst) ∷ links) w =
    rw (make_link_handles-with_links links _, ◌>>=◌)

pub objects-with_links :
    (links : List (ℕ × ℕ)) (w : World)
    → ((with_links links w).objects ≡ w.objects)
      × ((with_links links w).entries ≡ w.entries)
      × ((with_links links w).next_available_id ≡ w.next_available_id)
unfolding with_links
objects-with_links [] w = (refl, refl, refl)
objects-with_links ((key, inst) ∷ links) w = objects-with_links links _

store_members-stored :
    (x : Stored) (w : World)
    → store_members w.next_address (stored_members x) (made (stored_body x) w)
      ≡ ok tt (loaded_world x w)
unfolding store_members stored_members stored_body
store_members-stored (component_of inst g) w =
    rw (store_members, ◌>>=◌, find-assign_self w.next_address (created (component 0)) w.objects)
store_members-stored (game_object_of inst links) w = rw (
  store_members,
  ◌>>=◌,
  find-assign_self w.next_address (created (game_object [])) w.objects,
  make_link_handles-with_links links _,
  ◌>>=◌,
)

pub loaded_manager :
    (x : Stored) (w : World)
    → ((linked_world x w).entries ≡ w.entries)
      × ((linked_world x w).next_available_id ≡ w.next_available_id)
loaded_manager (component_of inst g) w = (refl, refl)
loaded_manager (game_object_of inst links) w =
    let (_, entries, ids) = objects-with_links links (made (game_object []) w) in (entries, ids)

register-loaded :
    (x : Stored) (w : World)
    → find w.next_available_id w.entries ≡ none
    → w.next_available_id + 1 < 2 ^ 32
    → register_obj w.next_address (loaded_world x w)
      ≡ ok (linked_world x w).next_address (load_world x w)
register-loaded x w absent small =
    let (entries, ids) = loaded_manager x w in
    register_obj_lem w.next_address (loaded_object x w) (loaded_world x w)
      (find-assign_self w.next_address _ (linked_world x w).objects) (rw (entries, ids) absent)
      (rw ids small)

-- On the bytes of a record a round takes exactly these and does to the memory and the variables of
-- the loop what `load_world` and `load_one` say.
pub deserialize_one-stored :
    (reg : Registry Factory) (x : Stored) (front rest : List ℕ) (l : Loaded) (w : World)
    → IsStandard reg
    → IsStored x
    → length front + length (stored_bytes x) < 2 ^ 32
    → find w.next_available_id w.entries ≡ none
    → w.next_available_id + 1 < 2 ^ 32
    → deserialize_one reg (stream_at front (stored_bytes x ++ rest)) l w
      ≡ ok (stream_at (front ++ stored_bytes x) rest, load_one x w l) (load_world x w)
unfolding deserialize_one read_into
deserialize_one-stored reg x front rest l w std stored fits absent small = rw (
  deserialize_one,
  peek-stored_bytes x front rest w,
  ◌>>=◌,
  create-stored_body reg x w std,
  find-assign_self w.next_address (created (stored_body x)) w.objects,
  read_members-stored_bytes x stored front rest fits,
  read_into,
  store_members-stored x w,
  find-assign_self w.next_address (loaded_object x w) (linked_world x w).objects,
  register-loaded x w absent small,
  find-assign_self (linked_world x w).next_address _ (linked_world x w).handles,
  find-assign_self w.next_address _ (loaded_world x w).objects,
  (loaded_manager x w).1,
)
