-- ===== src/Objects/Components/Receivers.antt =====
-- Who receives a message of a game object, in which order, and through which callback.
use packaged_task.Base.{
  ℕ, ◌≡◌, ◌≢◌, refl, ◌∙◌, List, [], ◌∷◌, All, find, ==_ne, Option-cases, none, some, Bool-cases,
  inl, inr, true, false, not, ◌==◌, ◌&&◌, if◌then◌else◌, arith,
}
use packaged_task.Rtti.{is_derived_from_class_id}
use packaged_task.Objects.State.{
  class_component, get_class_id_virtual, Object, game_object, World, ok, raised, Outcome,
  assertion_failed, fault, running, Action, pure, ◌>>=◌, ◌>>◌,
}
use packaged_task.Objects.Members.{load_components}
use packaged_task.Objects.Messages.{has_message_callback, message_callback, msg_undefined}
use packaged_task.Objects.Steps.{after_ok, load_components_lem}
use packaged_task.Objects.Components.{
  Tables, Callback, cast_result, dynamic_ohdl_cast, handle_message, deliver, deliver_all,
  send_message,
}

module _ {D : Type 0} (t : Tables D) where
  -- The calls that a message of a class leads to, with an address for each entry of the map of
  -- components: one for each class but the sender's that has a callback for the message.
  abbrev pub calls_of : (sender id : ℕ) → D → List (ℕ × ℕ × ℕ) → List (Action (Unit {0}))
  calls_of sender id payload [] = []
  calls_of sender id payload ((key, h, rec) ∷ cs) =
      if key == sender
      then calls_of sender id payload cs
      else elim (message_callback t.msg_handler id key) [
        | none ↦ calls_of sender id payload cs
        | some call ↦ call rec id payload ∷ calls_of sender id payload cs
      ]

  -- One after the other, up to the first that does not return.
  abbrev pub run_all : List (Action (Unit {0})) → Action (Unit {0})
  run_all [] = pure tt
  run_all (m ∷ ms) = m >> run_all ms

  -- A handle that leads to a component of the class.
  abbrev pub LeadsTo : World → ℕ × ℕ × ℕ → Type 0
  LeadsTo w (key, h, rec) =
      (link_key owners : ℕ) × (o : Object) × (find h w.handles
        ≡ some (record { ptr = rec; link_key = link_key; owners = owners }))
      × (rec ≢ 0)
      × (find rec w.objects ≡ some o)
      × (get_class_id_virtual o ≡ key)
      × (is_derived_from_class_id t.fuel t.registry key class_component ≡ some true)

  heard_lem :
      (id key : ℕ) (call : Callback D)
      → message_callback t.msg_handler id key ≡ some call
      → has_message_callback t.msg_handler id key ≡ true
  unfolding message_callback has_message_callback
  heard_lem id key call e = rw (e, has_message_callback) refl

  unheard_lem :
      (id key : ℕ)
      → message_callback t.msg_handler id key ≡ none
      → has_message_callback t.msg_handler id key ≡ false
  unfolding message_callback has_message_callback
  unheard_lem id key e = rw (e, has_message_callback) refl

  deliver_called :
      (sender id : ℕ) (payload : D) (key h rec : ℕ) (call : Callback D) (w : World)
      → (key == sender) ≡ false
      → message_callback t.msg_handler id key ≡ some call
      → LeadsTo w (key, h, rec)
      → deliver t sender id payload key h w ≡ call rec id payload w
  unfolding deliver dynamic_ohdl_cast cast_result handle_message
  deliver_called sender id payload key h rec call w other heard l =
      let (link, owners, o, handle, real, object, class, derived) = l in
      rw
        (
          heard_lem id key call heard,
          other,
          handle,
          ◌>>=◌,
          object,
          ◌>>=◌,
          class,
          derived,
          ==_ne rec 0 real,
          object,
          ◌>>=◌,
          class,
          heard,
        )
        refl

  -- A class that has no callback for the message, or is the sender's.
  deliver_skipped :
      (sender id : ℕ) (payload : D) (key h : ℕ) (w : World)
      → (has_message_callback t.msg_handler id key && not (key == sender)) ≡ false
      → deliver t sender id payload key h w ≡ ok tt w
  unfolding deliver
  deliver_skipped sender id payload key h w skipped = rw skipped refl

  same_rest :
      (o : Outcome (Unit {0})) (f g : Action (Unit {0})) (w : World)
      → ((w' : World) → o ≡ ok tt w' → f w' ≡ g w')
      → ((λ (z : World). o) >> f) w ≡ ((λ (z : World). o) >> g) w
  same_rest (ok tt w') f g w next = next w' refl
  same_rest (raised e w') f g w next = refl
  same_rest assertion_failed f g w next = refl
  same_rest fault f g w next = refl
  same_rest running f g w next = refl

  same_bind :
      (m m' f g : Action (Unit {0})) (w : World)
      → m w ≡ m' w
      → ((w' : World) → m' w ≡ ok tt w' → f w' ≡ g w')
      → (m >> f) w ≡ (m' >> g) w
  same_bind m m' f g w e next = rw (e, ◌>>=◌) (same_rest (m' w) f g w next)

  -- What each entry of the map of components is, without the addresses of the components.
  abbrev pub entries_of : List (ℕ × ℕ × ℕ) → List (ℕ × ℕ)
  entries_of [] = []
  entries_of ((key, h, rec) ∷ cs) = (key, h) ∷ entries_of cs

  module _ (Good : World → Type 0) (sender id : ℕ) (payload : D)
      (keeps : (key rec : ℕ) (call : Callback D) (w w' : World)
        → message_callback t.msg_handler id key ≡ some call
        → Good w
        → call rec id payload w ≡ ok tt w'
        → Good w') where
    deliver_all_lem :
        (cs : List (ℕ × ℕ × ℕ)) (w : World)
        → ((w : World) → Good w → All (LeadsTo w) cs)
        → Good w
        → deliver_all t sender id payload (entries_of cs) w
          ≡ run_all (calls_of sender id payload cs) w
    unfolding deliver_all
    deliver_all_lem [] w leads good = refl
    deliver_all_lem ((key, h, rec) ∷ cs) w leads good =
        let rest =
          λ (w : World) (good : Good w). deliver_all_lem cs w (λ w g. (leads w g).1) good in
        elim (Bool-cases (key == sender)) [
          | inl same ↦ rw same (
              after_ok (deliver t sender id payload key h) _ w
                (deliver_skipped sender id payload key h w (rw same (ground arith)))
              ∙ rest w good)
          | inr other ↦ elim (Option-cases (message_callback t.msg_handler id key)) [
            | inl unheard ↦
                rw (other, unheard)
                  (after_ok (deliver t sender id payload key h) _ w (
                      deliver_skipped sender id payload key h w
                        (rw (unheard_lem id key unheard) refl))
                    ∙ rest w good)
            | inr (call, heard) ↦
                rw (other, heard)
                  (same_bind (deliver t sender id payload key h) (call rec id payload) _ _ w
                    (deliver_called sender id payload key h rec call w other heard (leads w good).0)
                    (λ w' returns. rest w' (keeps key rec call w w' heard good returns)))
          ]
        ]

    -- A message that is not the undefined one runs the callbacks of all classes of components but
    -- the sender's that have one for it, each once, with the component, in the order of the map, up
    -- to the first that does not return; and nothing else happens. What holds of the memory at the
    -- start and is kept by the callbacks has to say that each handle of the map leads to a component
    -- of its class.
    pub send_message_lem :
        (go : ℕ) (owner : Object) (cs : List (ℕ × ℕ × ℕ)) (w : World)
        → id ≢ msg_undefined
        → find go w.objects ≡ some owner
        → owner.body ≡ game_object (entries_of cs)
        → ((w : World) → Good w → All (LeadsTo w) cs)
        → Good w
        → send_message t go sender id payload w ≡ run_all (calls_of sender id payload cs) w
    unfolding send_message
    send_message_lem go owner cs w defined owned kind leads good =
        rw (==_ne id msg_undefined defined) (
          after_ok (load_components go) _ w
            (load_components_lem go owner (entries_of cs) w owned kind)
          ∙ deliver_all_lem cs w leads good)
