-- ===== src/Objects/Linking/Placed.antt =====
-- Where the first loop of `deserialize` has put the objects, the handles and the stand-ins.
use packaged_task.Base.{
  ℕ, suc, ◌+◌, ◌≤◌, ◌<◌, ◌≡◌, refl, ap, sym, ◌∙◌, List, [], ◌∷◌, ◌++◌, length, find, find-assign,
  find-assign_self, assign-fresh, ==_ne, none, some, false, ◌==◌, arith,
}
use packaged_task.Objects.State.{Body, component, game_object, World, ObjHandle}
use packaged_task.Objects.Manager.{created}
use packaged_task.Objects.Manager.Creation.{made}
use packaged_task.Objects.Stored.{Stored, component_of, game_object_of}
use packaged_task.Objects.Loading.{
  with_links, linked_world, loaded_world, loaded_object, loaded_body, load_world,
}
use packaged_task.Objects.Loading.One.{loaded_manager, objects-with_links}
use packaged_task.Objects.Linking.{links_of, entry_at, next_at, object_at, body_at}
use packaged_task.Objects.Linking.Shared.{stand_in}

abbrev pub HaveStandIns : World → (address : ℕ) → List (ℕ × ℕ) → Type 0
HaveStandIns w n [] = Unit {0}
HaveStandIns w n ((key, inst) ∷ links) =
    (find n w.handles ≡ some (stand_in inst)) × HaveStandIns w (suc n) links

-- A new handle.
abbrev pub handle_to : (a : ℕ) → ObjHandle
handle_to a = record { ptr = a; link_key = 0; owners = 1 }

next-with_links :
    (links : List (ℕ × ℕ)) (w : World)
    → (with_links links w).next_address ≡ w.next_address + length links
unfolding with_links
next-with_links [] w = omega arith
next-with_links ((key, inst) ∷ links) w = omega (arith, next-with_links links _)

below-with_links :
    (links : List (ℕ × ℕ)) (w : World) (b : ℕ)
    → b < w.next_address
    → find b (with_links links w).handles ≡ find b w.handles
unfolding with_links
below-with_links [] w b below = refl
below-with_links ((key, inst) ∷ links) w b below =
    below-with_links links _ b (omega (arith, below))
    ∙ find-assign w.next_address b (stand_in inst) w.handles
    ∙ rw (==_ne w.next_address b (λ e. omega (arith, e, below))) refl

-- Stand-ins stay where the handles below an address do.
pub still-HaveStandIns :
    (links : List (ℕ × ℕ)) (n last : ℕ) (w w' : World)
    → n + length links ≤ last
    → ((b : ℕ) → b < last → find b w'.handles ≡ find b w.handles)
    → HaveStandIns w n links
    → HaveStandIns w' n links
still-HaveStandIns [] n last w w' fits same there = tt
still-HaveStandIns ((key, inst) ∷ links) n last w w' fits same (here, rest) = (
  same n (omega (arith, fits)) ∙ here,
  still-HaveStandIns links (suc n) last w w' (omega (arith, fits)) same rest,
)

with_links-HaveStandIns :
    (links : List (ℕ × ℕ)) (n : ℕ) (w : World)
    → w.next_address ≡ n
    → HaveStandIns (with_links links w) n links
unfolding with_links
with_links-HaveStandIns [] n w place = tt
with_links-HaveStandIns ((key, inst) ∷ links) n w place = (
  ap (λ m. find m (with_links ((key, inst) ∷ links) w).handles) (sym place)
      ∙ below-with_links links _ w.next_address (omega arith)
      ∙ find-assign_self w.next_address (stand_in inst) w.handles,
  with_links-HaveStandIns links (suc n) _ (ap suc place),
)

-- What the memory has of a record at an address.
pub record IsPlaced (w : World) (x : Stored) (a id : ℕ) : Type 0 where
  pub object : find a w.objects ≡ some (object_at x a id)
  pub handle : find (suc (a + length (links_of x))) w.handles ≡ some (handle_to a)
  pub stand_ins : HaveStandIns w (suc a) (links_of x)

next-linked_world :
    (x : Stored) (w : World)
    → (linked_world x w).next_address ≡ suc (w.next_address + length (links_of x))
next-linked_world (component_of inst g) w = omega arith
next-linked_world (game_object_of inst links) w =
    omega (arith, next-with_links links (made (game_object []) w))

linked_handles :
    (x : Stored) (w : World) (b : ℕ)
    → b ≤ w.next_address
    → find b (linked_world x w).handles ≡ find b w.handles
linked_handles (component_of inst g) w b below = refl
linked_handles (game_object_of inst links) w b below =
    below-with_links links (made (game_object []) w) b (omega (arith, below))

made_objects :
    (body : Body) (w : World) (b : ℕ)
    → b < w.next_address
    → find b (made body w).objects ≡ find b w.objects
made_objects body w b below =
    find-assign w.next_address b (created body) w.objects
    ∙ rw (==_ne w.next_address b (λ e. omega (arith, e, below))) refl

linked_objects :
    (x : Stored) (w : World) (b : ℕ)
    → b < w.next_address
    → find b (linked_world x w).objects ≡ find b w.objects
linked_objects (component_of inst g) w b below = made_objects (component 0) w b below
linked_objects (game_object_of inst links) w b below =
    ap (find b) (objects-with_links links (made (game_object []) w)).0
    ∙ made_objects (game_object []) w b below

linked-HaveStandIns :
    (x : Stored) (w : World) → HaveStandIns (linked_world x w) (suc w.next_address) (links_of x)
linked-HaveStandIns (component_of inst g) w = tt
linked-HaveStandIns (game_object_of inst links) w =
    with_links-HaveStandIns links (suc w.next_address) (made (game_object []) w) refl

loaded_body_lem : (x : Stored) (w : World) → loaded_body x w ≡ body_at x w.next_address
loaded_body_lem (component_of inst g) w = refl
loaded_body_lem (game_object_of inst links) w = refl

module _ (x : Stored) (w : World) where
  pub next-load_world : (load_world x w).next_address ≡ next_at x w.next_address
  next-load_world = ap suc (next-linked_world x w)

  -- The object of a record, with its new identifier.
  object-load_world :
      find w.next_address (load_world x w).objects
      ≡ some (object_at x w.next_address w.next_available_id)
  object-load_world =
      find-assign_self w.next_address _ (loaded_world x w).objects
      ∙ ap (λ i. some (record (loaded_object x w) { instance_id = i })) (loaded_manager x w).1
      ∙ ap
          (λ body.
            some (record { instance_id = w.next_available_id; is_del_it = false; body = body }))
          (loaded_body_lem x w)

  load_world-handles :
      (b : ℕ)
      → b < suc (w.next_address + length (links_of x))
      → find b (load_world x w).handles ≡ find b (linked_world x w).handles
  load_world-handles b below =
      find-assign (linked_world x w).next_address b (handle_to w.next_address)
        (linked_world x w).handles
      ∙ rw
          (==_ne (linked_world x w).next_address b
            (λ e. omega (arith, e, below, next-linked_world x w)))
          refl

  pub load_world-IsPlaced : IsPlaced (load_world x w) x w.next_address w.next_available_id
  load_world-IsPlaced = record {
    object = object-load_world;
    handle =
        ap (λ b. find b (load_world x w).handles) (sym (next-linked_world x w))
        ∙ find-assign_self (linked_world x w).next_address (handle_to w.next_address)
            (linked_world x w).handles;
    stand_ins =
        still-HaveStandIns (links_of x) (suc w.next_address)
          (suc (w.next_address + length (links_of x))) (linked_world x w) (load_world x w)
          (omega arith) load_world-handles (linked-HaveStandIns x w);
  }

  -- What was there before stays.
  pub load_world-below :
      (b : ℕ)
      → b < w.next_address
      → (find b (load_world x w).objects ≡ find b w.objects)
        × (find b (load_world x w).handles ≡ find b w.handles)
  load_world-below b below =
      let other : (w.next_address == b) ≡ false =
        ==_ne w.next_address b (λ e. omega (arith, e, below)) in
      (
        find-assign w.next_address b _ (loaded_world x w).objects
            ∙ rw other (
                find-assign w.next_address b (loaded_object x w) (linked_world x w).objects
                ∙ rw other (linked_objects x w b below)),
        load_world-handles b (omega (arith, below)) ∙ linked_handles x w b (omega (arith, below)),
      )

  pub load_world-entries :
      find w.next_available_id w.entries ≡ none
      → (load_world x w).entries
        ≡ w.entries ++ ((w.next_available_id, entry_at x w.next_address) ∷ [])
  load_world-entries absent =
      let (entries, ids) = loaded_manager x w in
      rw (ids, entries, next-linked_world x w)
        (assign-fresh w.next_available_id (entry_at x w.next_address) w.entries absent)
