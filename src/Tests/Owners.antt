-- ===== src/Tests/Owners.antt =====
-- A game object with a component: who owns the handles, who hears a message, what is printed and
-- destroyed.
use packaged_task.Base.{
  ℕ, suc, ◌≡◌, refl, ap, sym, subst, ◌∙◌, [], ◌∷◌, All, find, assign, none, some, some_cancel,
  Bool-cases, true, false, ◌==◌, inl, inr, if◌then◌else◌, arith,
}
use packaged_task.Rtti.{class_id_to_rtti, is_derived_from_class_id, get_super_class_id}
use packaged_task.Objects.State.{
  class_component, class_game_object, Object, component, game_object, World, ObjHandle, ok,
}
use packaged_task.Objects.Handles.{retain, release}
use packaged_task.Objects.Members.{
  components_of, load_components, store_components, assign_component,
}
use packaged_task.Objects.Manager.{
  create_default_obj, create, create_instance, register_obj, fetch_add_id, assign_entry,
  release_unused_objects, destroy_manager,
}
use packaged_task.Objects.Manager.Counts.{count, fewer}
use packaged_task.Objects.Manager.Nullify.{cut_off, body_of}
use packaged_task.Objects.Manager.Owned.{owned_by}
use packaged_task.Objects.Manager.Destroy.{has_object, destroy_manager_lem}
use packaged_task.Objects.Manager.Sound.Uses.{creates, attaches}
use packaged_task.Objects.Manager.Sound.Reached.{
  Reach, start, then_use, blank, IsGood, Reach-Sound, Sound-IsSound, Reach-safe,
}
use packaged_task.Objects.Messages.{message_callback, find_callback}
use packaged_task.Objects.Components.{Tables, Callback, send_message}
use packaged_task.Objects.Components.Receivers.{calls_of, run_all, LeadsTo, send_message_lem}
use packaged_task.Base.Text.{codes, int_text, unsigned_text, digits, spaces}
use packaged_task.Objects.Dump.{dump, dump_component, dump_game_obj, dump_header}
use packaged_task.Objects.Dump.Shown.{HasMembers, records_text, dump-records}
use packaged_task.Tests.Managers.{classes, saved, records, saved-records}

abbrev with_owner : World
with_owner = record {
  objects = (1, record { instance_id = 1; is_del_it = false; body = game_object [] }) ∷ [];
  handles = (2, record { ptr = 1; link_key = 0; owners = 1 }) ∷ [];
  next_address = 3;
  next_available_id = 2;
  entries = (1, record { unique = 1; handle = 2 }) ∷ [];
}

abbrev with_both : World
with_both = record {
  objects =
      (1, record { instance_id = 1; is_del_it = false; body = game_object [] })
      ∷ (3, record { instance_id = 2; is_del_it = false; body = component 0 })
      ∷ [];
  handles =
      (2, record { ptr = 1; link_key = 0; owners = 1 })
      ∷ (4, record { ptr = 3; link_key = 0; owners = 1 })
      ∷ [];
  next_address = 5;
  next_available_id = 3;
  entries = (1, record { unique = 1; handle = 2 }) ∷ (2, record { unique = 3; handle = 4 }) ∷ [];
}

-- The handle of the component is in the map of the game object, and its client has given it up.
abbrev attached : World
attached = record with_both {
  objects =
      (1, record { instance_id = 1; is_del_it = false; body = game_object ((1001, 4) ∷ []) })
      ∷ (3, record { instance_id = 2; is_del_it = false; body = component 0 })
      ∷ [];
  handles =
      (2, record { ptr = 1; link_key = 0; owners = 1 })
      ∷ (4, record { ptr = 3; link_key = 0; owners = 2 })
      ∷ [];
}

first_created : create_default_obj classes class_game_object (blank 1 1) ≡ ok 2 with_owner
unfolding create_default_obj create class_id_to_rtti find assign create_instance register_obj
    fetch_add_id assign_entry
first_created = refl

second_created : create_default_obj classes class_component with_owner ≡ ok 4 with_both
unfolding create_default_obj create class_id_to_rtti find assign create_instance register_obj
    fetch_add_id assign_entry
second_created = refl

component_attached : assign_component 1 1001 4 with_both ≡ ok tt attached
unfolding assign_component retain load_components store_components components_of find assign
component_attached = refl

reached : Reach classes ((0, 4) ∷ (0, 2) ∷ []) attached
unfolding class_id_to_rtti find
reached =
    then_use
      (then_use
        (then_use (start 1 1 refl)
          (creates class_game_object _ 2 refl refl (omega arith) first_created))
        (creates class_component _ 4 refl refl (omega arith) second_created))
      (attaches 1 1001 3 (record { unique = 1; handle = 2 })
        (record { ptr = 3; link_key = 0; owners = 1 })
        (record { instance_id = 1; is_del_it = false; body = game_object [] }) [] refl refl refl
        refl component_attached)

Reach-safe_example :
    All (IsGood attached) ((0, 4) ∷ (0, 2) ∷ [])
    × ((w' : World) × (release 4 attached ≡ ok tt w'))
    × ((w' : World) × (release_unused_objects attached ≡ ok tt w'))
    × ((w' : World) × (destroy_manager attached ≡ ok tt w')
        × ((h : ℕ) (r : ObjHandle) → find (suc h) w'.handles ≡ some r → r.ptr ≡ 0))
Reach-safe_example = Reach-safe reached

destroy_manager_lem_example :
    (w' : World) × (destroy_manager attached ≡ ok tt w')
    × ((k : ℕ) → find k w'.entries ≡ none)
    × ((a : ℕ)
        → body_of (find a w'.objects)
          ≡ (if has_object attached.entries a then none else body_of (find a attached.objects)))
    × ((h : ℕ)
        → find (suc h) w'.handles
          ≡ fewer
              (cut_off true (find (suc h) attached.handles))
              (count (suc h) (owned_by attached.objects attached.entries)))
destroy_manager_lem_example =
    destroy_manager_lem attached
      (Sound-IsSound ((0, 4) ∷ (0, 2) ∷ []) attached (Reach-Sound reached))

-- A callback that leaves the number of the message in the manager.
abbrev noted : Callback ℕ
noted rec id payload w = ok tt (record w { next_available_id = payload })

abbrev listening : Tables ℕ
listening = record {
  registry = classes;
  fuel = 4;
  msg_handler = (record { first = 2; second = 1001 }, noted) ∷ [];
}

-- The objects and handles are those at the start.
abbrev IsSaved : World → Type 0
IsSaved w = (w.objects ≡ saved.objects) × (w.handles ≡ saved.handles)

only_callback :
    (key : ℕ) (call : Callback ℕ)
    → message_callback listening.msg_handler 2 key ≡ some call
    → noted ≡ call
unfolding message_callback find_callback
only_callback key call heard = elim (Bool-cases (1001 == key)) [
  | inl same ↦
      let found : message_callback listening.msg_handler 2 key ≡ some noted =
        rw (same, message_callback, find_callback) refl in
      some_cancel (sym found ∙ heard)
  | inr other ↦
      let none_found : message_callback listening.msg_handler 2 key ≡ none =
        rw (other, message_callback, find_callback) refl in
      absurd (let clash = sym none_found ∙ heard in cc)
]

noted-keeps :
    (key rec : ℕ) (call : Callback ℕ) (w w' : World)
    → message_callback listening.msg_handler 2 key ≡ some call
    → IsSaved w
    → call rec 2 7 w ≡ ok tt w'
    → IsSaved w'
noted-keeps key rec call w w' heard good run =
    let kept : ok tt (record w { next_available_id = 7 }) ≡ ok tt w' =
      ap (λ (c : Callback ℕ). c rec 2 7 w) (only_callback key call heard) ∙ run in
    let objects : w.objects ≡ w'.objects = cc in
    let handles : w.handles ≡ w'.handles = cc in (sym objects ∙ good.0, sym handles ∙ good.1)

component-derived : is_derived_from_class_id 4 classes 1001 class_component ≡ some true
unfolding is_derived_from_class_id get_super_class_id find
component-derived = refl

saved-component :
    find 1 saved.objects ≡ some (record { instance_id = 1; is_del_it = false; body = component 3 })
unfolding find
saved-component = refl

saved-handle : find 2 saved.handles ≡ some (record { ptr = 1; link_key = 0; owners = 2 })
unfolding find
saved-handle = refl

saved-owner :
    find 3 saved.objects
    ≡ some (record { instance_id = 2; is_del_it = false; body = game_object ((1001, 2) ∷ []) })
unfolding find
saved-owner = refl

component-led : (w : World) → IsSaved w → All (LeadsTo listening w) ((1001, 2, 1) ∷ [])
component-led w good = (
  (
    0,
    2,
    record { instance_id = 1; is_del_it = false; body = component 3 },
    ap (find 2) good.1 ∙ saved-handle,
    (λ e. omega (arith, e)),
    ap (find 1) good.0 ∙ saved-component,
    refl,
    component-derived,
  ),
  tt,
)

send_message_lem_example :
    send_message listening 3 1002 2 7 saved
    ≡ run_all listening (calls_of listening 1002 2 7 ((1001, 2, 1) ∷ [])) saved
send_message_lem_example =
    send_message_lem listening IsSaved 1002 2 7 noted-keeps 3
      (record { instance_id = 2; is_del_it = false; body = game_object ((1001, 2) ∷ []) })
      ((1001, 2, 1) ∷ []) saved (λ e. omega (arith, e)) saved-owner refl component-led (refl, refl)

-- What is shown of the saved manager.
saved-HasMembers : (a : ℕ) (o : Object) → find a saved.objects ≡ some o → HasMembers o.body
unfolding find
saved-HasMembers a o f = elim (Bool-cases (1 == a)) [
  | inl first ↦
      let it : record { instance_id = 1; is_del_it = false; body = component 3 } ≡ o =
        ground arith in
      subst (λ (p : Object). HasMembers p.body) it tt
  | inr more ↦ elim (Bool-cases (3 == a)) [
    | inl second ↦
        let it : record { instance_id = 2; is_del_it = false; body = game_object ((1001, 2) ∷ []) }
            ≡ o =
          ground arith in
        subst (λ (p : Object). HasMembers p.body) it tt
    | inr none_such ↦ absurd (ground arith)
  ]
]

dump-records_example : dump saved ≡ some (records_text records)
dump-records_example = dump-records saved records saved-HasMembers saved-records

component-shown :
    dump_component saved 0 (record { instance_id = 1; is_del_it = false; body = component 3 }) 3
    ≡ some (
        codes
          "Component { \n    type: 1001\n    ID: 1\n    mGameObj {\n        Ptr object ID: 2\n    }\n}")
unfolding dump_component dump_game_obj dump_header find int_text unsigned_text digits spaces
component-shown = refl
