-- ===== src/Objects/Dump/Shown.antt =====
-- `dump` shows of a manager what `serialize` writes of it, and nothing else.
use packaged_task.Base.{
  ℕ, ◌≡◌, refl, ap, sym, ◌∙◌, List, [], ◌∷◌, ◌++◌, find, Option, none, some, some_cancel, Bool,
  true, false, ◌==◌, inl, inr, Bool-cases, arith, append_assoc, append-nil,
}
use packaged_task.Base.Text.{codes, newline, unsigned_text, int_text}
use packaged_task.Objects.State.{
  Object, Body, plain, component, game_object, class_component, class_game_object, class_of, World,
  ObjEntry,
}
use packaged_task.Objects.Write.{◌>>=◌}
use packaged_task.Objects.Stored.{Stored, component_of, game_object_of}
use packaged_task.Objects.Stored.Written.{links_of, links_of_cons, stored_in, >>=-eq-some}
use packaged_task.Objects.RoundTrip.{records_of_body, records_if_alive, records_in}
use packaged_task.Objects.Dump.{
  indented, dump_header, dump_game_obj, dump_component, dump_components, dump_members,
  dump_game_object, dump_body, dump_object, dump_if_alive, dump_entries, dump,
}

-- The text of a record.
pub links_text : List (ℕ × ℕ) → List ℕ
links_text [] = []
links_text ((key, inst) ∷ links) =
    indented 2
    ++ (codes "[type: "
        ++ (int_text key
            ++ (codes ", ID: "
                ++ (unsigned_text inst ++ (codes "]" ++ (newline ++ links_text links))))))

game_obj_text : Option ℕ → List ℕ
game_obj_text none = codes "nullptr"
game_obj_text (some inst) =
    indented 2 ++ (codes "Ptr object ID: " ++ (unsigned_text inst ++ (newline ++ indented 1)))

members_text : List (ℕ × ℕ) → List ℕ
members_text [] = codes "0}" ++ newline
members_text (l ∷ ls) = newline ++ (links_text (l ∷ ls) ++ (indented 1 ++ (codes "}" ++ newline)))

title : (name : List ℕ) → (class_id inst : ℕ) → List ℕ
title name class_id inst =
    name
    ++ (codes " { "
        ++ (newline
            ++ (indented 1
                ++ (codes "type: "
                    ++ (int_text class_id
                        ++ (newline
                            ++ (indented 1
                                ++ (codes "ID: " ++ (unsigned_text inst ++ newline)))))))))

pub record_text : Stored → List ℕ
record_text (component_of inst g) =
    title (codes "Component") class_component inst
    ++ (indented 1
        ++ (codes "mGameObj {"
            ++ (newline
                ++ (game_obj_text g ++ (codes "}" ++ (newline ++ (indented 0 ++ codes "}")))))))
record_text (game_object_of inst links) =
    title (codes "GameObject") class_game_object inst
    ++ (indented 1
        ++ (codes "std::unique_ptr<mComponents>{"
            ++ (members_text links ++ (indented 0 ++ codes "}"))))

-- One text for each record, each on lines of its own.
unfoldable pub records_text : List Stored → List ℕ
records_text [] = []
records_text (x ∷ xs) = (record_text x ++ newline) ++ records_text xs

records_text-append :
    (xs ys : List Stored) → records_text (xs ++ ys) ≡ records_text xs ++ records_text ys
unfolding records_text
records_text-append [] ys = refl
records_text-append (x ∷ xs) ys =
    rw (records_text-append xs ys)
      (sym (append_assoc (record_text x ++ newline) (records_text xs) _))

dump_header_lem :
    (name : List ℕ) (o : Object) (b : Body)
    → o.body ≡ b
    → dump_header 0 name o ≡ title name (class_of b) o.instance_id
unfolding dump_header title
dump_header_lem name o b e = ap (λ x. title name (class_of x) o.instance_id) e

dump_game_obj_lem :
    (w : World) (inst g : ℕ) (x : Stored)
    → stored_in w inst (component g) ≡ some x
    → (there : Option ℕ) × (x ≡ component_of inst there)
      × (dump_game_obj w 0 g ≡ some (game_obj_text there))
unfolding stored_in dump_game_obj game_obj_text
dump_game_obj_lem w inst g x e = elim (Bool-cases (g == 0)) [
  | inl null ↦ (none, ground (arith, e), rw null refl)
  | inr set ↦
      let (go, found, last) =
        >>=-eq-some (find g w.objects) (λ go. some (component_of inst (some go.instance_id)))
          (ground (arith, e)) in
      (some go.instance_id, sym (some_cancel last), rw (set, found) refl)
]

dump_components_lem :
    (w : World) (cs links : List (ℕ × ℕ))
    → links_of w cs ≡ some links
    → dump_components w 0 cs ≡ some (links_text links)
unfolding dump_components links_text
dump_components_lem w [] links e =
    let nil : [] ≡ links = unfold links_of in ground arith in rw (← nil) refl
dump_components_lem w ((key, h) ∷ cs) links e =
    let (cmp, c, rest, found, alive, e', same) = links_of_cons w key h cs links e in
    rw (same, dump_components, found, alive, dump_components_lem w cs rest e') refl

dump_members_lem :
    (w : World) (cs links : List (ℕ × ℕ))
    → links_of w cs ≡ some links
    → dump_members w 0 cs ≡ some (members_text links)
unfolding dump_members members_text
dump_members_lem w [] links e =
    let nil : [] ≡ links = unfold links_of in ground arith in rw (← nil) refl
dump_members_lem w ((key, h) ∷ cs) links e =
    let (cmp, c, rest, found, alive, e', same) = links_of_cons w key h cs links e in
    rw (dump_components_lem w ((key, h) ∷ cs) links e, same) refl

stored_links :
    (w : World) (inst : ℕ) (cs : List (ℕ × ℕ)) (x : Stored)
    → stored_in w inst (game_object cs) ≡ some x
    → (links : List (ℕ × ℕ)) × (links_of w cs ≡ some links)
      × (some (game_object_of inst links) ≡ some x)
unfolding stored_in
stored_links w inst cs x e =
    >>=-eq-some (links_of w cs) (λ links. some (game_object_of inst links)) e

dump_body_lem :
    (w : World) (o : Object) (b : Body) (x : Stored)
    → o.body ≡ b
    → stored_in w o.instance_id b ≡ some x
    → dump_body w 0 o b ≡ some (record_text x)
unfolding dump_body dump_component dump_game_object record_text
dump_body_lem w o plain x same e = absurd (unfold stored_in in cc)
dump_body_lem w o (component g) x same e =
    let (there, shape, shown) = dump_game_obj_lem w o.instance_id g x e in
    rw (shape, shown, dump_header_lem (codes "Component") o (component g) same) refl
dump_body_lem w o (game_object cs) x same e =
    let (links, known, last) = stored_links w o.instance_id cs x e in
    rw
      (
        ← some_cancel last,
        dump_members_lem w cs links known,
        dump_header_lem (codes "GameObject") o (game_object cs) same,
      )
      refl

-- Objects that have members.
abbrev pub HasMembers : Body → Type 0
HasMembers plain = ⊥
HasMembers (component g) = Unit {0}
HasMembers (game_object cs) = Unit {0}

one_shown :
    (w : World) (o : Object) (b : Body) (xs : List Stored)
    → o.body ≡ b
    → (do x ← stored_in w o.instance_id b; some (x ∷ [])) ≡ some xs
    → (do shown ← dump_body w 0 o b; some (shown ++ newline)) ≡ some (records_text xs)
unfolding records_text
one_shown w o b xs same e =
    let (x, known, single) = >>=-eq-some (stored_in w o.instance_id b) (λ x. some (x ∷ [])) e in
    rw (dump_body_lem w o b x same known) (
      ap some (sym (append-nil (record_text x ++ newline)))
      ∙ ap (λ ys. some (records_text ys)) (some_cancel single))

alive_shown :
    (w : World) (o : Object) (b : Body) (xs : List Stored)
    → o.body ≡ b
    → HasMembers b
    → records_of_body w o.instance_id b ≡ some xs
    → (do shown ← dump_body w 0 o b; some (shown ++ newline)) ≡ some (records_text xs)
unfolding records_of_body
alive_shown w o plain xs same has e = absurd has
alive_shown w o (component g) xs same has e = one_shown w o (component g) xs same e
alive_shown w o (game_object cs) xs same has e = one_shown w o (game_object cs) xs same e

dump_if_alive_lem :
    (w : World) (o : Object) (deleted : Bool) (xs : List Stored)
    → HasMembers o.body
    → records_if_alive w o deleted ≡ some xs
    → dump_if_alive w o deleted ≡ some (records_text xs)
unfolding dump_if_alive dump_object records_if_alive records_text
dump_if_alive_lem w o true xs has e = ap (λ ys. some (records_text ys)) (some_cancel e)
dump_if_alive_lem w o false xs has e = alive_shown w o o.body xs refl has e

dump_entries_lem :
    (w : World) (es : List (ℕ × ObjEntry)) (xs : List Stored)
    → ((a : ℕ) (o : Object) → find a w.objects ≡ some o → HasMembers o.body)
    → records_in w es ≡ some xs
    → dump_entries w es ≡ some (records_text xs)
unfolding dump_entries records_in records_text
dump_entries_lem w [] xs has e = ap (λ ys. some (records_text ys)) (some_cancel e)
dump_entries_lem w ((id, entry) ∷ es) xs has e =
    let (o, at, e₁) = >>=-eq-some (find entry.unique w.objects) _ e in
    let (here, live, e₂) = >>=-eq-some (records_if_alive w o o.is_del_it) _ e₁ in
    let (there, later, both) = >>=-eq-some (records_in w es) _ e₂ in
    rw
      (
        dump_entries,
        at,
        dump_if_alive_lem w o o.is_del_it here (has entry.unique o at) live,
        dump_entries_lem w es there has later,
      )
      (ap some (sym (records_text-append here there))
        ∙ ap (λ ys. some (records_text ys)) (some_cancel both))

-- Where `serialize` writes the records of a manager of components and game objects, `dump` succeeds
-- and prints a text for each of them, in the same order: with the class and identifier of the
-- object, the identifier of a component's game object, and the class and identifier of each
-- component of a game object. So managers with the same records print the same.
pub dump-records :
    (w : World) (xs : List Stored)
    → ((a : ℕ) (o : Object) → find a w.objects ≡ some o → HasMembers o.body)
    → records_in w w.entries ≡ some xs
    → dump w ≡ some (records_text xs)
unfolding dump
dump-records w xs has e = dump_entries_lem w w.entries xs has e
