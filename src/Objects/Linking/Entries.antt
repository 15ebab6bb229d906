-- ===== src/Objects/Linking/Entries.antt =====
-- The loop of `deserialize` that links the objects one after the other.
use packaged_task.Base.{
  ℕ, suc, ◌+◌, ◌%◌, ◌^◌, ◌≤◌, ◌<◌, ◌≡◌, refl, ap, sym, subst, ◌∙◌, List, [], ◌∷◌, All, find, assign,
  find-assign, ==_ne, ==_refl, Bool-cases, inl, inr, some, none, false, ltb, arith,
}
use packaged_task.Objects.State.{
  Object, Body, component, game_object, World, ObjEntry, ok, load_object, or_fault, ◌>>=◌,
}
use packaged_task.Objects.Members.{set_game_object_internal}
use packaged_task.Objects.Manager.{get_object_ptr}
use packaged_task.Objects.Parse.{int_to_pointer}
use packaged_task.Objects.Stored.{Stored, component_of, game_object_of, IsStored, stored_game_obj}
use packaged_task.Objects.Link.{remapped, link_component, link_body, link_entries}
use packaged_task.Objects.Linking.{
  IsFree, AreLive, AreStandIns, links_of, next_at, entries_of, body_at, object_at, ArePending,
}
use packaged_task.Objects.Steps.{after_ok, set_game_object_internal_lem}
use packaged_task.Objects.Linking.Step.{remapped_lem}
use packaged_task.Objects.Linking.Links.{
  target, Leads, linked_links, AreLinked, AreFresh, link_components_lem,
}

-- The cast to `uint32_t` takes back the one to a pointer.
int_to_pointer_back : (n : ℕ) → n < 2 ^ 32 → int_to_pointer n % 2 ^ 32 ≡ n
int_to_pointer_back n small = elim (Bool-cases (ltb n (2 ^ 31))) [
  | inl low ↦ rw low (omega (arith, small))
  | inr high ↦ rw high (omega (arith, small))
]

ptr_lem :
    (n : ℕ) (e : ObjEntry) (w : World)
    → find n w.entries ≡ some e
    → get_object_ptr n w ≡ ok e.unique w
unfolding get_object_ptr
ptr_lem n e w entry = rw (entry, ◌>>=◌) refl

all_fresh : (links : List (ℕ × ℕ)) → AreFresh [] links
unfolding find
all_fresh [] = tt
all_fresh ((key, inst) ∷ links) = (refl, all_fresh links)

module _ (object_of handle_before : ℕ → ℕ) where
  -- The members of a record's object when it has been linked.
  abbrev pub linked_body : Stored → Body
  linked_body (component_of inst none) = component 0
  linked_body (component_of inst (some g)) = component (object_of g)
  linked_body (game_object_of inst links) = game_object (linked_links object_of handle_before links)

  abbrev pub linked_object : Stored → (id : ℕ) → Object
  linked_object x id = record { instance_id = id; is_del_it = false; body = linked_body x }

  -- The objects of the records, linked.
  abbrev pub AreDone : World → List Stored → (a id : ℕ) → Type 0
  AreDone w [] a id = Unit {0}
  AreDone w (x ∷ xs) a id =
      (find a w.objects ≡ some (linked_object x id)) × AreDone w xs (next_at x a) (id + 1)

module _ (id_remap : List (ℕ × ℕ)) (object_of handle_before : ℕ → ℕ) where
  -- What a record refers to is there; a component has a game object.
  abbrev pub IsClosed : List (ℕ × ObjEntry) → Stored → Type 0
  IsClosed entries (component_of inst none) = ⊥
  IsClosed entries (component_of inst (some g)) = Leads id_remap object_of handle_before entries g
  IsClosed entries (game_object_of inst links) =
      All (λ l. Leads id_remap object_of handle_before entries l.1) links

  link_component_lem :
      (a g : ℕ) (o : Object) (w : World)
      → g < 2 ^ 32
      → Leads id_remap object_of handle_before w.entries g
      → find a w.objects ≡ some o
      → link_component id_remap a (int_to_pointer g) w
        ≡ ok tt (record w {
          objects = assign a (record o { body = component (object_of g) }) w.objects;
        })
  unfolding link_component get_object_ptr set_game_object_internal
  link_component_lem a g o w small (n, known, entry) there =
      after_ok (remapped id_remap (int_to_pointer g % 2 ^ 32)) _ w (
        ap (λ i. remapped id_remap i w) (int_to_pointer_back g small)
        ∙ remapped_lem id_remap g n w known)
      ∙ after_ok (get_object_ptr n) (set_game_object_internal a) w
          (ptr_lem n (target object_of handle_before g) w entry)
      ∙ set_game_object_internal_lem a (object_of g) o w there

  -- One object.
  link_body_lem :
      (x : Stored) (a id : ℕ) (w : World)
      → IsStored x
      → IsClosed w.entries x
      → AreLive w
      → find a w.objects ≡ some (object_at x a id)
      → AreStandIns w (suc a) (links_of x)
      → (w' : World) × (link_body id_remap a (body_at x a) w ≡ ok tt w')
        × AreLinked id_remap object_of handle_before a
            (object_at x a id)
            (linked_body object_of handle_before x)
            (next_at x a)
            w
            w'
  unfolding link_body stored_game_obj
  link_body_lem (component_of inst none) a id w stored closed live there stand_ins = elim closed [ ]
  link_body_lem (component_of inst (some g)) a id w (first, small) closed live there stand_ins = (
    _,
    link_component_lem a g (object_at (component_of inst (some g)) a id) w small closed there,
    record {
      entries = refl;
      objects = λ b.
          find-assign a b (linked_object object_of handle_before (component_of inst (some g)) id)
            w.objects;
      live = live;
      kept = λ b free late. refl;
    },
  )
  link_body_lem (game_object_of inst links) a id w (first, count, keys) closed live there
        stand_ins =
      let (w', run, done) =
        link_components_lem id_remap object_of handle_before a links [] a
          (object_at (game_object_of inst links) a id) w live closed keys (all_fresh links)
          stand_ins there refl in
      (
        w',
        run,
        record {
          entries = done.entries;
          objects = done.objects;
          live = done.live;
          kept = λ b free late. done.kept b free (omega (arith, late));
        },
      )

  module _ (self last : ℕ) (o : Object) (body : Body) (w w' : World)
      (done : AreLinked id_remap object_of handle_before self o body last w w') where
    other_object : (b : ℕ) → self < b → find b w'.objects ≡ find b w.objects
    other_object b later = done.objects b ∙ rw (==_ne self b (λ e. omega (arith, e, later))) refl

    kept-AreStandIns :
        (n : ℕ) (links : List (ℕ × ℕ)) → last ≤ n → AreStandIns w n links → AreStandIns w' n links
    kept-AreStandIns n [] late there = tt
    kept-AreStandIns n ((key, inst) ∷ links) late (here, free, rest) = (
      done.kept n free late ∙ here,
      subst (λ es. IsFree es n) (sym done.entries) free,
      kept-AreStandIns (suc n) links (omega (arith, late)) rest,
    )

    kept-ArePending :
        (xs : List Stored) (a id : ℕ)
        → self < a
        → last ≤ a
        → ArePending w xs a id
        → ArePending w' xs a id
    kept-ArePending [] a id later late there = tt
    kept-ArePending (x ∷ xs) a id later late (object, stand_ins, rest) = (
      other_object a later ∙ object,
      kept-AreStandIns (suc a) (links_of x) (omega (arith, late)) stand_ins,
      kept-ArePending xs (next_at x a) (id + 1) (omega (arith, later)) (omega (arith, late)) rest,
    )

  -- All objects of the records, which stand from an address on.
  pub link_entries_lem :
      (xs : List Stored) (a id : ℕ) (w : World)
      → All IsStored xs
      → All (IsClosed w.entries) xs
      → AreLive w
      → ArePending w xs a id
      → (w' : World) × (link_entries id_remap (entries_of xs a id) w ≡ ok tt w')
        × (w'.entries ≡ w.entries)
        × AreLive w'
        × AreDone object_of handle_before w' xs a id
        × ((b : ℕ) → b < a → find b w'.objects ≡ find b w.objects)
  unfolding link_entries
  link_entries_lem [] a id w stored closed live pending =
      (w, refl, refl, live, tt, λ b before. refl)
  link_entries_lem (x ∷ xs) a id w (first, stored) (known, closed) live
        (there, stand_ins, pending) =
      let (w₁, run, done) = link_body_lem x a id w first known live there stand_ins in
      let (w', rest, entries, live', all_done, before) =
        link_entries_lem xs (next_at x a) (id + 1) w₁ stored
          (subst (λ es. All (IsClosed es) xs) (sym done.entries) closed) done.live
          (kept-ArePending a (next_at x a) (object_at x a id)
            (linked_body object_of handle_before x) w w₁ done xs (next_at x a) (id + 1)
            (omega arith) (omega arith) pending) in
      (
        w',
        after_ok (load_object a) _ w (ap (λ o. or_fault o w) there)
            ∙ after_ok (link_body id_remap a (body_at x a)) _ w run
            ∙ rest,
        entries ∙ done.entries,
        live',
        (before a (omega arith) ∙ done.objects a ∙ rw (==_refl a) refl, all_done),
        λ b early.
            before b (omega (arith, early))
            ∙ done.objects b
            ∙ rw (==_ne a b (λ e. omega (arith, e, early))) refl,
      )
