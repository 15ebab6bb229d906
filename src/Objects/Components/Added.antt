-- ===== src/Objects/Components/Added.antt =====
-- A component that has been added is found.
use packaged_task.Base.{
  ℕ, suc, ◌≡◌, ◌≢◌, refl, ap, sym, ◌∙◌, List, [], ◌∷◌, All, find, assign, find-assign,
  find-assign_self, ==_ne, Option, none, some, Bool, true, false, not, ◌==◌,
}
use packaged_task.Rtti.{is_derived_from_class_id}
use packaged_task.Objects.State.{
  class_component, get_class_id_virtual, Object, component, game_object, World, ObjHandle, ok,
  Action, pure, assert, or_fault, load_object, load_handle, ◌>>=◌,
}
use packaged_task.Objects.Handles.{retain}
use packaged_task.Objects.Members.{
  load_components, store_components, sender_game_object, set_game_object_internal, assign_component,
}
use packaged_task.Objects.Messages.{has_message_callback, msg_did_add_component}
use packaged_task.Objects.Steps.{
  after_ok, replaced, owned_once_more, retain_lem, load_components_lem, store_components_lem,
  set_game_object_internal_lem,
}
use packaged_task.Objects.Components.{
  Tables, cast_result, dynamic_ohdl_cast, deliver, deliver_all, send_message,
  component_send_message, add_component, query_component_implementation, get_component,
}

-- What `queryComponentImplementation` does with what it has found.
abbrev implementation : {D : Type 0} → Tables D → Option ℕ → Action ℕ
implementation t h = elim h [ none ↦ pure 0 | some h' ↦ dynamic_ohdl_cast t class_component h' ]

assert_lem : (b : Bool) (w : World) → b ≡ true → assert b w ≡ ok tt w
assert_lem b w holds = rw holds refl

-- A class that a game object does not have yet.
assign_vacant :
    (go key p : ℕ) (r : ObjHandle) (owner : Object) (cs : List (ℕ × ℕ)) (w : World)
    → find (suc p) w.handles ≡ some r
    → find go w.objects ≡ some owner
    → owner.body ≡ game_object cs
    → find key cs ≡ none
    → assign_component go key (suc p) w
      ≡ ok tt (record w {
        objects = assign go (record owner { body = game_object (assign key (suc p) cs) }) w.objects;
        handles = assign (suc p) (owned_once_more r) w.handles;
      })
unfolding assign_component
assign_vacant go key p r owner cs w handle owned kind vacant =
    let w₁ = record w { handles = assign (suc p) (owned_once_more r) w.handles } in
    let w₂ = record w₁ {
      objects = assign go (record owner { body = game_object (assign key (suc p) cs) }) w.objects;
    } in
    after_ok (retain (suc p)) _ w (retain_lem p r w handle)
    ∙ after_ok (load_components go) _ w₁ (load_components_lem go owner cs w₁ owned kind)
    ∙ after_ok (store_components go (assign key (suc p) cs)) _ w₁
        (store_components_lem go owner (assign key (suc p) cs) w₁ owned)
    ∙ ap (λ old. replaced old w₂) vacant

module _ {D : Type 0} (t : Tables D) where
  cast_lem :
      (h : ℕ) (r : ObjHandle) (o : Object) (w : World)
      → find h w.handles ≡ some r
      → find r.ptr w.objects ≡ some o
      → is_derived_from_class_id t.fuel t.registry (get_class_id_virtual o) class_component
        ≡ some true
      → dynamic_ohdl_cast t class_component h w ≡ ok r.ptr w
  unfolding dynamic_ohdl_cast cast_result
  cast_lem h r o w handle object derived = rw (handle, ◌>>=◌, object, derived) refl

  -- A message for which no component's class has a callback changes nothing.
  deliver_all_none :
      (sender id : ℕ) (payload : D) (cs : List (ℕ × ℕ)) (w : World)
      → All (λ c. has_message_callback t.msg_handler id c.0 ≡ false) cs
      → deliver_all t sender id payload cs w ≡ ok tt w
  unfolding deliver_all deliver
  deliver_all_none sender id payload [] w deaf = refl
  deliver_all_none sender id payload ((key, h) ∷ cs) w (here, deaf) =
      rw here (deliver_all_none sender id payload cs w deaf)

  ignored_message :
      (cmp go : ℕ) (o owner : Object) (cs : List (ℕ × ℕ)) (payload : D) (w : World)
      → find cmp w.objects ≡ some o
      → o.body ≡ component go
      → go ≢ 0
      → find go w.objects ≡ some owner
      → owner.body ≡ game_object cs
      → All (λ c. has_message_callback t.msg_handler msg_did_add_component c.0 ≡ false) cs
      → component_send_message t cmp msg_did_add_component payload w ≡ ok tt w
  unfolding component_send_message sender_game_object send_message
  ignored_message cmp go o owner cs payload w there body real owned kind deaf =
      after_ok (load_object cmp) _ w (ap (λ h. or_fault h w) there)
      ∙ rw (sender_game_object, body, ==_ne go 0 real)
          (after_ok (load_components go) _ w (load_components_lem go owner cs w owned kind)
            ∙ deliver_all_none class_component msg_did_add_component payload cs w deaf)

  module _ (empty : D) (go p : ℕ) (r : ObjHandle) (o : Object) (g : ℕ) (owner : Object)
      (cs : List (ℕ × ℕ)) (w : World) where
    -- The memory with the component's pointer, and with its handle in the map.
    abbrev pointed : World
    pointed = record w { objects = assign r.ptr (record o { body = component go }) w.objects }

    abbrev added : World
    added = record pointed {
      objects =
          assign go (record owner { body = game_object (assign class_component (suc p) cs) })
            pointed.objects;
      handles = assign (suc p) (owned_once_more r) w.handles;
    }

    add_component_run :
        find (suc p) w.handles ≡ some r
        → r.ptr ≢ 0
        → find r.ptr w.objects ≡ some o
        → o.body ≡ component g
        → go ≢ 0
        → r.ptr ≢ go
        → find go w.objects ≡ some owner
        → owner.body ≡ game_object cs
        → find class_component cs ≡ none
        → All (λ c. has_message_callback t.msg_handler msg_did_add_component c.0 ≡ false) cs
        → is_derived_from_class_id t.fuel t.registry class_component class_component ≡ some true
        → add_component t empty go (suc p) w ≡ ok tt added
    unfolding add_component
    add_component_run handle set object body real apart owned kind vacant deaf derived =
        let o₁ = record o { body = component go } in
        let there : find r.ptr pointed.objects ≡ some o₁ = find-assign_self r.ptr o₁ w.objects in
        let owned₁ : find go pointed.objects ≡ some owner =
          find-assign r.ptr go o₁ w.objects ∙ rw (==_ne r.ptr go apart) owned in
        after_ok (load_handle (suc p)) _ w (ap (λ h. or_fault h w) handle)
        ∙ after_ok (assert (not (r.ptr == 0))) _ w
            (assert_lem (not (r.ptr == 0)) w (ap not (==_ne r.ptr 0 set)))
        ∙ after_ok (dynamic_ohdl_cast t class_component (suc p)) _ w
            (cast_lem (suc p) r o w handle object (rw body derived))
        ∙ after_ok (set_game_object_internal r.ptr go) _ w
            (set_game_object_internal_lem r.ptr go o w object)
        ∙ after_ok (component_send_message t r.ptr msg_did_add_component empty) _ pointed
            (ignored_message r.ptr go o₁ owner cs empty pointed there refl real owned₁ kind deaf)
        ∙ after_ok (load_object r.ptr) _ pointed (ap (λ h. or_fault h pointed) there)
        ∙ assign_vacant go class_component p r owner cs pointed handle owned₁ kind vacant

    -- A component that is added to a game object without one of its class, where no class of the game
    -- object's components listens for that, is there afterwards: it points to the game object, its
    -- handle has one owner more, and `getComponent` returns it. The component and the game object
    -- exist, and the registry derives the component's class from itself.
    pub get_component-add_component :
        find (suc p) w.handles ≡ some r
        → r.ptr ≢ 0
        → find r.ptr w.objects ≡ some o
        → o.body ≡ component g
        → go ≢ 0
        → r.ptr ≢ go
        → find go w.objects ≡ some owner
        → owner.body ≡ game_object cs
        → find class_component cs ≡ none
        → All (λ c. has_message_callback t.msg_handler msg_did_add_component c.0 ≡ false) cs
        → is_derived_from_class_id t.fuel t.registry class_component class_component ≡ some true
        → (w' : World) × (add_component t empty go (suc p) w ≡ ok tt w')
          × (get_component t go class_component w' ≡ ok r.ptr w')
          × (find r.ptr w'.objects ≡ some (record o { body = component go }))
          × (find (suc p) w'.handles ≡ some (owned_once_more r))
    unfolding get_component query_component_implementation
    get_component-add_component handle set object body real apart owned kind vacant deaf derived =
        let o₁ = record o { body = component go } in
        let owner₁ = record owner { body = game_object (assign class_component (suc p) cs) } in
        let there : find r.ptr added.objects ≡ some o₁ =
          find-assign go r.ptr owner₁ pointed.objects
          ∙ rw (==_ne go r.ptr (λ e. apart (sym e))) (find-assign_self r.ptr o₁ w.objects) in
        let retained = find-assign_self (suc p) (owned_once_more r) w.handles in
        (
          added,
          add_component_run handle set object body real apart owned kind vacant deaf derived,
          after_ok (query_component_implementation t go class_component) _ added (
                after_ok (load_components go) _ added (
                  load_components_lem go owner₁ (assign class_component (suc p) cs) added
                    (find-assign_self go owner₁ pointed.objects) refl)
                ∙ ap (λ h. implementation t h added) (find-assign_self class_component (suc p) cs)
                ∙ cast_lem (suc p) (owned_once_more r) o₁ added retained there derived)
              ∙ after_ok (assert (not (r.ptr == 0))) (λ _. pure r.ptr) added
                  (assert_lem (not (r.ptr == 0)) added (ap not (==_ne r.ptr 0 set))),
          there,
          retained,
        )
