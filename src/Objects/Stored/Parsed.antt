-- ===== src/Objects/Stored/Parsed.antt =====
-- `Component::read` and `GameObject::read` on the bytes of an object.
use packaged_task.Base.{
  ℕ, ◌≡◌, refl, List, [], ◌∷◌, ◌++◌, length, find, assign, assign-fresh, find-assign, subst, Option,
  none, some, arith, append_assoc, append-nil,
}
use packaged_task.Base.Bytes.{le_bytes}
use packaged_task.MemoryStream.{pure, ◌>>=◌, read}
use packaged_task.MemoryStream.Reads.{Reads, Reads-pure, Reads->>=, Reads-read, Reads-then_pure}
use packaged_task.Objects.State.{Body, component, game_object, class_component, class_game_object}
use packaged_task.Objects.Parse.{
  Members, component_members, game_object_members, read_game_obj, read_component, read_links,
  read_game_object, read_members, int_to_pointer,
}
use packaged_task.Objects.Stored.{
  Stored, component_of, game_object_of, IsU32, AreLinks, IsStored, game_obj_bytes, links_bytes,
  stored_bytes, stored_game_obj, stored_members,
}

abbrev IsGameObj : Option ℕ → Type 0
IsGameObj none = Unit {0}
IsGameObj (some g) = IsU32 g

-- The last field, put into its place.
read_game_obj_lem :
    (g : Option ℕ) (place : ℕ → Members)
    → IsGameObj g
    → Reads
        (do n ← read 4; g ← read_game_obj n; pure (place g))
        (game_obj_bytes g)
        (place (stored_game_obj g))
unfolding read_game_obj stored_game_obj
read_game_obj_lem none place h = rw (← append-nil (le_bytes 4 0)) (
    Reads->>= (read 4) _ (le_bytes 4 0) [] 0 _ (Reads-read 4 0 (omega arith))
      (Reads-pure (place 0)))
read_game_obj_lem (some g) place h =
    Reads->>= (read 4) (λ n. do g ← read_game_obj n; pure (place g)) (le_bytes 4 1) (le_bytes 4 g) 1
      (place (int_to_pointer g)) (Reads-read 4 1 (omega arith))
      (Reads-then_pure (do n ← read 4; pure (int_to_pointer n)) place (le_bytes 4 g)
        (int_to_pointer g)
        (Reads-then_pure (read 4) int_to_pointer (le_bytes 4 g) g (Reads-read 4 g (omega arith))))

read_component_lem :
    (inst : ℕ) (g : Option ℕ)
    → IsU32 inst
    → IsGameObj g
    → Reads read_component
        (stored_bytes (component_of inst g))
        (component_members inst (stored_game_obj g))
unfolding read_component stored_bytes
read_component_lem inst g hi hg =
    Reads->>= (read 4) _ (le_bytes 4 class_component) _ class_component _
      (Reads-read 4 class_component (omega arith))
      (Reads->>= (read 4) _ (le_bytes 4 inst) (game_obj_bytes g) inst _
        (Reads-read 4 inst (omega arith)) (read_game_obj_lem g (component_members inst) hg))

abbrev AreFresh : List (ℕ × ℕ) → List (ℕ × ℕ) → Type 0
AreFresh acc [] = Unit {0}
AreFresh acc ((key, inst) ∷ links) = (find key acc ≡ none) × AreFresh acc links

AreFresh-assign :
    (key inst : ℕ) (acc links : List (ℕ × ℕ))
    → find key links ≡ none
    → AreFresh acc links
    → AreFresh (assign key inst acc) links
unfolding find
AreFresh-assign key inst acc [] absent fresh = tt
AreFresh-assign key inst acc ((k, i) ∷ links) absent fresh = (
  ground (arith, find-assign key k inst acc),
  AreFresh-assign key inst acc links (ground arith) fresh.1,
)

assigned_first :
    (key inst : ℕ) (acc links : List (ℕ × ℕ))
    → find key acc ≡ none
    → assign key inst acc ++ links ≡ acc ++ ((key, inst) ∷ links)
assigned_first key inst acc links absent =
    rw (assign-fresh key inst acc absent) (append_assoc acc ((key, inst) ∷ []) links)

read_links_lem :
    (links acc : List (ℕ × ℕ))
    → AreLinks links
    → AreFresh acc links
    → Reads (read_links (length links) acc) (links_bytes links) (acc ++ links)
unfolding read_links
read_links_lem [] acc ok fresh = rw (append-nil acc) (Reads-pure acc)
read_links_lem ((key, inst) ∷ links) acc ok fresh =
    Reads->>= (read 4) _ (le_bytes 4 key) _ key _ (Reads-read 4 key (omega arith)) (
      Reads->>= (read 4) _ (le_bytes 4 inst) (links_bytes links) inst _
        (Reads-read 4 inst (omega arith))
        (subst (Reads (read_links (length links) (assign key inst acc)) (links_bytes links))
          (assigned_first key inst acc links fresh.0)
          (read_links_lem links (assign key inst acc) ok.3
            (AreFresh-assign key inst acc links ok.2 fresh.1))))

AreFresh-nil : (links : List (ℕ × ℕ)) → AreFresh [] links
unfolding find
AreFresh-nil [] = tt
AreFresh-nil (l ∷ links) = (refl, AreFresh-nil links)

read_game_object_lem :
    (inst : ℕ) (links : List (ℕ × ℕ))
    → IsStored (game_object_of inst links)
    → Reads read_game_object
        (stored_bytes (game_object_of inst links))
        (game_object_members inst links)
unfolding read_game_object stored_bytes
read_game_object_lem inst links ok =
    Reads->>= (read 4) _ (le_bytes 4 class_game_object) _ class_game_object _
      (Reads-read 4 class_game_object (omega arith))
      (Reads->>= (read 4) _ (le_bytes 4 inst) _ inst _ (Reads-read 4 inst (omega arith)) (
        Reads->>= (read 4) _ (le_bytes 4 (length links)) (links_bytes links) (length links) _
          (Reads-read 4 (length links) (omega arith))
          (Reads-then_pure (read_links (length links) []) (game_object_members inst)
            (links_bytes links) links (read_links_lem links [] ok.2 (AreFresh-nil links)))))

-- The object that the class identifier of a record makes, with the members of a new object.
unfoldable pub stored_body : Stored → Body
stored_body (component_of inst g) = component 0
stored_body (game_object_of inst links) = game_object []

-- The virtual `read` takes exactly the bytes of a record and gives its members back.
pub read_members-stored_bytes :
    (x : Stored)
    → IsStored x
    → Reads (read_members (stored_body x)) (stored_bytes x) (stored_members x)
unfolding read_members stored_body stored_members
read_members-stored_bytes (component_of inst none) ok = read_component_lem inst none ok tt
read_members-stored_bytes (component_of inst (some g)) ok =
    read_component_lem inst (some g) ok.0 ok.1
read_members-stored_bytes (game_object_of inst links) ok = read_game_object_lem inst links ok
