-- ===== src/Fs/Files/Lookup.antt =====
-- Looking names up after a file has been written.
use packaged_task.Base.{
  ℕ, ◌≡◌, refl, sym, subst, ◌↔◌, List, [], ◌∷◌, ◌++◌, Bool, true, false, Bool-cases, inl, inr, ◌&&◌,
  some, if◌then◌else◌, arith,
}
use packaged_task.Base.Bytes.{bytes_eq→eq, bytes_eq}
use packaged_task.Fs.Files.{
  FileData, plain_file, shown_name, is_exist, find_file, file_name, write_file,
}

found-exists :
    (fs : List FileData) (name : List ℕ) (f : FileData)
    → find_file fs name ≡ some f
    → is_exist fs name ≡ true
unfolding is_exist find_file
found-exists [] name f e = cc
found-exists (g ∷ fs) name f e = ground (arith, found-exists fs name f)

exists-found :
    (fs : List FileData) (name : List ℕ)
    → is_exist fs name ≡ true
    → (f : FileData) × (find_file fs name ≡ some f) × (name ≡ shown_name f)
unfolding is_exist find_file
exists-found [] name e = absurd (ground arith)
exists-found (g ∷ fs) name e = elim (Bool-cases (bytes_eq name (shown_name g))) [
  | inl same ↦ (g, rw (same, find_file), bytes_eq→eq name (shown_name g) same)
  | inr other ↦
      let (f, found, named) = exists-found fs name (ground arith) in
      (f, rw (other, find_file) found, named)
]

-- `isExist` is true exactly if `getFile` finds a file, and what it finds has that name.
pub find_file-is_exist :
    (fs : List FileData) (name : List ℕ)
    → (is_exist fs name ≡ true)
      ↔ ((f : FileData) × (find_file fs name ≡ some f) × (name ≡ shown_name f))
find_file-is_exist fs name =
    (exists-found fs name, λ (f, found, named). found-exists fs name f found)

already_there :
    (fs : List FileData) (name other : List ℕ)
    → is_exist fs name ≡ true
    → is_exist fs other ≡ (if bytes_eq other name then true else is_exist fs other)
already_there fs name other there = elim (Bool-cases (bytes_eq other name)) [
  | inl same ↦ rw same (subst (λ n. is_exist fs n ≡ true) (sym (bytes_eq→eq other name same)) there)
  | inr differs ↦ rw differs
]

appended :
    (fs : List FileData) (name other : List ℕ)
    → is_exist (fs ++ (plain_file name ∷ [])) other
      ≡ (if bytes_eq other name then true else is_exist fs other)
unfolding is_exist
appended [] name other = refl
appended (f ∷ fs) name other = ground (arith, appended fs name other)

-- After a file has been written its name exists, and every other name exists if it did before; a
-- file that could not be opened changes nothing, and the result tells which it was.
pub is_exist-write_file :
    (opens : Bool) (path name : List ℕ) (fs : List FileData) (other : List ℕ)
    → (is_exist (write_file opens path name fs).0 other
        ≡ (if opens && bytes_eq other (file_name path name) then true else is_exist fs other))
      × ((write_file opens path name fs).1 ≡ opens)
unfolding write_file
is_exist-write_file false path name fs other = (refl, refl)
is_exist-write_file true path name fs other = (
  elim (Bool-cases (is_exist fs (file_name path name))) [
    | inl there ↦ rw (there, write_file) (already_there fs (file_name path name) other there)
    | inr absent ↦ rw (absent, write_file) (appended fs (file_name path name) other)
  ],
  refl,
)
