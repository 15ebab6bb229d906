-- ===== src/Objects/Linking/Links.antt =====
-- The loop of `GameObject::link`: all components of one game object.
use packaged_task.Base.{
  ℕ, suc, ◌+◌, ◌≤◌, ◌<◌, ◌≡◌, ◌≢◌, refl, ap, sym, ◌∙◌, List, [], ◌∷◌, ◌++◌, length, All, find,
  assign, append_assoc, find-assign, find-assign_self, ==_ne, ==_refl, ==_iff, Bool-cases, inl, inr,
  some, none, ◌==◌, if◌then◌else◌, arith,
}
use packaged_task.Objects.State.{Object, Body, game_object, World, ObjHandle, ObjEntry, ok}
use packaged_task.Objects.Link.{link_components}
use packaged_task.Objects.Loading.{number_links}
use packaged_task.Objects.Stored.{AreLinks}
use packaged_task.Objects.Linking.{IsFree, AreLive, AreStandIns}
use packaged_task.Objects.Steps.{owned_once_more}
use packaged_task.Objects.Linking.Step.{stepped, stepped-handles, link_components-step}

-- No key of the links is in front.
abbrev pub AreFresh : (front links : List (ℕ × ℕ)) → Type 0
AreFresh front [] = Unit {0}
AreFresh front ((key, inst) ∷ links) = (find key front ≡ none) × AreFresh front links

find-middle :
    (k v : ℕ) (front rest : List (ℕ × ℕ))
    → find k front ≡ none
    → find k (front ++ ((k, v) ∷ rest)) ≡ some v
unfolding find
find-middle k v [] rest e = rw (==_refl k) refl
find-middle k v ((j, u) ∷ front) rest e = ground (arith, find-middle k v front rest)

assign-middle :
    (k v u : ℕ) (front rest : List (ℕ × ℕ))
    → find k front ≡ none
    → assign k u (front ++ ((k, v) ∷ rest)) ≡ (front ++ ((k, u) ∷ [])) ++ rest
unfolding find assign
assign-middle k v u [] rest e = rw (==_refl k) refl
assign-middle k v u ((j, t) ∷ front) rest e = ground (arith, assign-middle k v u front rest)

not_behind :
    (k j v : ℕ) (front : List (ℕ × ℕ))
    → find k front ≡ none
    → j ≢ k
    → find k (front ++ ((j, v) ∷ [])) ≡ none
unfolding find
not_behind k j v [] absent other = rw (==_ne j k other) refl
not_behind k j v ((i, u) ∷ front) absent other = ground (arith, not_behind k j v front)

not_first :
    (key k inst : ℕ) (links : List (ℕ × ℕ))
    → find key ((k, inst) ∷ links) ≡ none
    → (key ≢ k) × (find key links ≡ none)
unfolding find
not_first key k inst links absent = ground arith

still-AreFresh :
    (front links : List (ℕ × ℕ)) (key v : ℕ)
    → find key links ≡ none
    → AreFresh front links
    → AreFresh (front ++ ((key, v) ∷ [])) links
still-AreFresh front [] key v other fresh = tt
still-AreFresh front ((k, inst) ∷ links) key v other (fresh, rest) =
    let (differs, others) = not_first key k inst links other in
    (not_behind k key v front fresh differs, still-AreFresh front links key v others rest)

-- Where the objects of the identifiers in the stream are: `suc (handle_before inst)` is the handle.
module _ (object_of handle_before : ℕ → ℕ) where
  abbrev pub target : ℕ → ObjEntry
  target inst = record { unique = object_of inst; handle = suc (handle_before inst) }

  abbrev pub linked_links : List (ℕ × ℕ) → List (ℕ × ℕ)
  linked_links [] = []
  linked_links ((key, inst) ∷ links) = (key, suc (handle_before inst)) ∷ linked_links links

module _ (id_remap : List (ℕ × ℕ)) (object_of handle_before : ℕ → ℕ) where
  abbrev pub Leads : List (ℕ × ObjEntry) → (inst : ℕ) → Type 0
  Leads entries inst =
      (n : ℕ) × (find inst id_remap ≡ some n)
      × (find n entries ≡ some (target object_of handle_before inst))

  -- What the loop leaves of a game object whose stand-ins start at an address.
  pub record AreLinked (self : ℕ) (o : Object) (body : Body) (last : ℕ) (w w' : World)
      : Type 0 where
    pub entries : w'.entries ≡ w.entries
    pub objects :
        (b : ℕ)
        → find b w'.objects
          ≡ (if self == b then some (record o { body = body }) else find b w.objects)
    pub live : AreLive w'
    pub kept : (b : ℕ) → IsFree w.entries b → last ≤ b → find b w'.handles ≡ find b w.handles

  module _ (self key p h inst n u : ℕ) (o : Object) (cs : List (ℕ × ℕ)) (r : ObjHandle) (w : World)
      (entry : find n w.entries ≡ some (record { unique = u; handle = suc p })) where
    abbrev next : World
    next = stepped id_remap self key p h inst n u o cs r w

    step-kept : (b : ℕ) → IsFree w.entries b → suc h < b → find b next.handles ≡ find b w.handles
    step-kept b free later =
        rw
          (
            stepped-handles id_remap self key p h inst n u o cs r w b,
            ==_ne (suc p) b (free n _ entry),
            ==_ne (suc h) b (λ e. omega (arith, e, later)),
          )
          refl

    step-AreLive : IsFree w.entries (suc h) → AreLive w → AreLive next
    step-AreLive free live i e found =
        let (q, there) = live i e found in
        elim (Bool-cases (suc p == e.handle)) [
          | inl same ↦ (
            owned_once_more r,
            stepped-handles id_remap self key p h inst n u o cs r w e.handle ∙ rw same refl,
          )
          | inr other ↦ (
            q,
            stepped-handles id_remap self key p h inst n u o cs r w e.handle
                ∙ rw (other, ==_ne (suc h) e.handle (λ s. free i e found (sym s))) there,
          )
        ]

    step-AreStandIns :
        (m : ℕ) (links : List (ℕ × ℕ))
        → suc h < m
        → AreStandIns w m links
        → AreStandIns next m links
    step-AreStandIns m [] later there = tt
    step-AreStandIns m ((k, i) ∷ links) later (here, free, rest) = (
      step-kept m free later ∙ here,
      free,
      step-AreStandIns (suc m) links (omega (arith, later)) rest,
    )

    -- What a round and the rest of the loop do together.
    linked_further :
        (front linked : List (ℕ × ℕ)) (count : ℕ) (w' : World)
        → AreLinked self
            (record o { body = game_object (assign key (suc p) cs) })
            (game_object ((front ++ ((key, suc p) ∷ [])) ++ linked))
            (suc (suc h) + count)
            next
            w'
        → AreLinked self o (game_object (front ++ ((key, suc p) ∷ linked))) (suc h + suc count) w w'
    linked_further front linked count w' done = record {
      entries = done.entries;
      objects = λ b.
          done.objects b
          ∙ ap
              (λ c.
                if self == b then some (record o { body = game_object c }) else find b next.objects)
              (append_assoc front ((key, suc p) ∷ []) linked)
          ∙ elim (Bool-cases (self == b)) [
            | inl same ↦ rw same refl
            | inr other ↦
                rw
                  (
                    other,
                    find-assign self b (record o { body = game_object (assign key (suc p) cs) })
                        w.objects,
                    other,
                  )
                  refl
          ];
      live = done.live;
      kept = λ b free late.
          done.kept b free (omega (arith, late)) ∙ step-kept b free (omega (arith, late));
    }

  nothing_left :
      (self : ℕ) (o : Object) (front : List (ℕ × ℕ)) (last : ℕ) (w : World)
      → AreLive w
      → find self w.objects ≡ some o
      → o.body ≡ game_object (front ++ [])
      → AreLinked self o (game_object (front ++ [])) last w w
  nothing_left self o front last w live there body = record {
    entries = refl;
    objects = λ b. elim (Bool-cases (self == b)) [
      | inl same ↦ rw same (
          ap (λ a. find a w.objects) (sym ((==_iff self b).0 same))
          ∙ there
          ∙ ap (λ c. some (record o { body = c })) body)
      | inr other ↦ rw other refl
    ];
    live = live;
    kept = λ b free late. refl;
  }

  -- The loop ends, and each stand-in has given way to the handle of its object.
  pub link_components_lem :
      (self : ℕ) (links front : List (ℕ × ℕ)) (h : ℕ) (o : Object) (w : World)
      → AreLive w
      → All (λ l. Leads w.entries l.1) links
      → AreLinks links
      → AreFresh front links
      → AreStandIns w (suc h) links
      → find self w.objects ≡ some o
      → o.body ≡ game_object (front ++ number_links (suc h) links)
      → (w' : World) × (link_components id_remap self (number_links (suc h) links) w ≡ ok tt w')
        × AreLinked self o
            (game_object (front ++ linked_links object_of handle_before links))
            (suc h + length links)
            w
            w'
  unfolding link_components number_links
  link_components_lem self [] front h o w live leads keys fresh there object body =
      (w, refl, nothing_left self o front (suc h + 0) w live object body)
  link_components_lem self ((key, inst) ∷ links) front h o w live leads keys fresh there object
        body =
      let (n, known, entry) = leads.0 in
      let (r, handle) = live n (target object_of handle_before inst) entry in
      let p = handle_before inst in
      let (here, free, later) = there in
      let (first, second, distinct, others) = keys in
      let cs = front ++ number_links (suc h) ((key, inst) ∷ links) in
      let w₁ = next self key p h inst n (object_of inst) o cs r w entry in
      let o₁ = record o { body = game_object (assign key (suc p) cs) } in
      let front₁ = front ++ ((key, suc p) ∷ []) in
      let body₁ : o₁.body ≡ game_object (front₁ ++ number_links (suc (suc h)) links) =
        ap game_object
          (assign-middle key (suc h) (suc p) front (number_links (suc (suc h)) links) fresh.0) in
      let (w', rest, done) =
        link_components_lem self links front₁ (suc h) o₁ w₁
          (step-AreLive self key p h inst n (object_of inst) o cs r w entry free live) leads.1
          others (still-AreFresh front links key (suc p) distinct fresh.1)
          (step-AreStandIns self key p h inst n (object_of inst) o cs r w entry (suc (suc h)) links
            (omega arith) later)
          (find-assign_self self o₁ w.objects) body₁ in
      (
        w',
        link_components-step id_remap self key p h inst n (object_of inst) o cs r w
              (number_links (suc (suc h)) links) here known entry handle
              (λ e. free n (target object_of handle_before inst) entry (ap suc e)) object body
              (find-middle key (suc h) front (number_links (suc (suc h)) links) fresh.0)
            ∙ rest,
        linked_further self key p h inst n (object_of inst) o cs r w entry front
            (linked_links object_of handle_before links) (length links) w' done,
      )
