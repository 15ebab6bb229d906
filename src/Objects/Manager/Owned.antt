-- ===== src/Objects/Manager/Owned.antt =====
-- The objects of entries, and the handles that they own.
use packaged_task.Base.{
  ℕ, ◌≡◌, ◌≢◌, refl, ap, sym, ◌∙◌, List, [], ◌∷◌, ◌++◌, find, erase, find-erase, All, Option, none,
  some, ==_ne,
}
use packaged_task.Objects.State.{Object, Body, ObjEntry}
use packaged_task.Objects.Manager.{owned_handles}
use packaged_task.Objects.Manager.Nullify.{body_of, SameBodies}

-- The handles that an object owns, and those that the objects of entries own.
abbrev pub handles_of : Option Body → List (ℕ × ℕ)
handles_of none = []
handles_of (some b) = owned_handles b

abbrev pub owned_by : List (ℕ × Object) → List (ℕ × ObjEntry) → List (ℕ × ℕ)
owned_by objects [] = []
owned_by objects ((id, e) ∷ es) =
    handles_of (body_of (find e.unique objects)) ++ owned_by objects es

-- Each entry has an object, which no later entry has, and neither its identifier.
abbrev pub OwnsEach : List (ℕ × Object) → List (ℕ × ObjEntry) → Type 0
OwnsEach objects [] = Unit {0}
OwnsEach objects ((id, e) ∷ es) =
    ((b : Body) × (body_of (find e.unique objects) ≡ some b))
    × All (λ r. (r.1.unique ≢ e.unique) × (r.0 ≢ id)) es
    × OwnsEach objects es

-- Both look at the bodies of the objects of the entries only.
pub owned_by_same :
    (before after : List (ℕ × Object)) (es : List (ℕ × ObjEntry))
    → All (λ r. body_of (find r.1.unique after) ≡ body_of (find r.1.unique before)) es
    → owned_by after es ≡ owned_by before es
owned_by_same before after [] same = refl
owned_by_same before after ((id, e) ∷ es) (here, same) =
    rw (here, owned_by_same before after es same) refl

pub OwnsEach-same :
    (before after : List (ℕ × Object)) (es : List (ℕ × ObjEntry))
    → All (λ r. body_of (find r.1.unique after) ≡ body_of (find r.1.unique before)) es
    → OwnsEach before es
    → OwnsEach after es
OwnsEach-same before after [] same owns = tt
OwnsEach-same before after ((id, e) ∷ es) (here, same) owns =
    ((owns.0.0, here ∙ owns.0.1), owns.1, OwnsEach-same before after es same owns.2)

pub all_same :
    (before after : List (ℕ × Object)) (es : List (ℕ × ObjEntry))
    → SameBodies before after
    → All (λ r. body_of (find r.1.unique after) ≡ body_of (find r.1.unique before)) es
all_same before after [] same = tt
all_same before after ((id, e) ∷ es) same = (same e.unique, all_same before after es same)

-- The objects of other entries outlive an object.
pub others_same :
    (a id : ℕ) (objects : List (ℕ × Object)) (es : List (ℕ × ObjEntry))
    → All (λ r. (r.1.unique ≢ a) × (r.0 ≢ id)) es
    → All (λ r. body_of (find r.1.unique (erase a objects)) ≡ body_of (find r.1.unique objects)) es
others_same a id objects [] others = tt
others_same a id objects ((j, e) ∷ es) (here, others) = (
  ap body_of (find-erase a e.unique objects ∙ rw (==_ne a e.unique (λ q. here.0 (sym q))) refl),
  others_same a id objects es others,
)
