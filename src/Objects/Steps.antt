-- ===== src/Objects/Steps.antt =====
-- What the operations on handles and members do where their pointers are good.
use packaged_task.Base.{
  ℕ, suc, ◌+◌, ◌-◌, ◌≡◌, refl, List, find, assign, Option, some, none, false, ◌==◌,
}
use packaged_task.Objects.State.{
  Object, component, game_object, World, ObjHandle, ok, Action, pure, ◌>>=◌,
}
use packaged_task.Objects.Handles.{retain, release}
use packaged_task.Objects.Members.{
  components_of, load_components, store_components, set_game_object_internal,
}

-- What is done after an operation that has succeeded.
pub after_ok :
    {A B : Type 0} {w' : World} {a : A} (m : Action A) (f : A → Action B) (w : World)
    → m w ≡ ok a w'
    → (m >>= f) w ≡ f a w'
after_ok m f w e = rw (e, ◌>>=◌) refl

-- A handle with one owner more.
abbrev pub owned_once_more : ObjHandle → ObjHandle
owned_once_more r = record r { owners = r.owners + 1 }

pub retain_lem :
    (p : ℕ) (r : ObjHandle) (w : World)
    → find (suc p) w.handles ≡ some r
    → retain (suc p) w ≡ ok tt (record w { handles = assign (suc p) (owned_once_more r) w.handles })
unfolding retain
retain_lem p r w there = rw (there, ◌>>=◌) refl

pub release_lem :
    (p : ℕ) (r : ObjHandle) (w : World)
    → find (suc p) w.handles ≡ some r
    → (r.owners == 1) ≡ false
    → release (suc p) w
      ≡ ok tt (record w { handles = assign (suc p) (record r { owners = r.owners - 1 }) w.handles })
unfolding release
release_lem p r w there shared = rw (there, ◌>>=◌, shared) refl

pub load_components_lem :
    (self : ℕ) (o : Object) (cs : List (ℕ × ℕ)) (w : World)
    → find self w.objects ≡ some o
    → o.body ≡ game_object cs
    → load_components self w ≡ ok cs w
unfolding load_components components_of
load_components_lem self o cs w there body = rw (there, ◌>>=◌, body) refl

pub store_components_lem :
    (self : ℕ) (o : Object) (cs : List (ℕ × ℕ)) (w : World)
    → find self w.objects ≡ some o
    → store_components self cs w
      ≡ ok tt (record w { objects = assign self (record o { body = game_object cs }) w.objects })
unfolding store_components
store_components_lem self o cs w there = rw (there, ◌>>=◌) refl

pub set_game_object_internal_lem :
    (a g : ℕ) (o : Object) (w : World)
    → find a w.objects ≡ some o
    → set_game_object_internal a g w
      ≡ ok tt (record w { objects = assign a (record o { body = component g }) w.objects })
unfolding set_game_object_internal
set_game_object_internal_lem a g o w there = rw (there, ◌>>=◌) refl

-- What happens to the handle that an assignment replaces.
abbrev pub replaced : Option ℕ → Action (Unit {0})
replaced old = elim old [ none ↦ pure tt | some h ↦ release h ]
