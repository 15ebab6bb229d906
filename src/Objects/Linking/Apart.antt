-- ===== src/Objects/Linking/Apart.antt =====
-- The stand-ins are no entries' handles.
use packaged_task.Base.{
  ℕ, suc, ◌+◌, ◌≤◌, ◌<◌, ◌≡◌, ◌≢◌, sym, subst, ◌∙◌, List, [], ◌∷◌, ◌++◌, length, All, find,
  append_assoc, some_cancel, Bool-cases, inl, inr, ◌==◌, arith,
}
use packaged_task.Objects.State.{World, ObjEntry}
use packaged_task.Objects.Stored.{Stored}
use packaged_task.Objects.Linking.{
  IsFree, AreStandIns, links_of, entry_at, next_at, entries_of, ArePending,
}
use packaged_task.Objects.Linking.Placed.{HaveStandIns}
use packaged_task.Objects.Linking.Made.{ArePlaced}

All-IsFree : (es : List (ℕ × ObjEntry)) (b : ℕ) → All (λ l. l.1.handle ≢ b) es → IsFree es b
unfolding find
All-IsFree [] b apart n e found = absurd (ground (arith, found))
All-IsFree ((i, e') ∷ es) b (apart, others) n e found = elim (Bool-cases (i == n)) [
  | inl same ↦ subst (λ d. d.handle ≢ b) (some_cancel (rw same at found)) apart
  | inr other ↦ All-IsFree es b others n e (rw other at found)
]

All-append :
    (P : ℕ × ObjEntry → Type 0) (es fs : List (ℕ × ObjEntry))
    → All P es
    → All P fs
    → All P (es ++ fs)
All-append P [] fs first second = second
All-append P (e ∷ es) fs (here, first) second = (here, All-append P es fs first second)

low_apart :
    (es : List (ℕ × ObjEntry)) (a b : ℕ)
    → a ≤ b
    → All (λ l. l.1.handle < a) es
    → All (λ l. l.1.handle ≢ b) es
low_apart [] a b above low = tt
low_apart (e ∷ es) a b above (here, low) =
    (λ same. omega (arith, same, here, above), low_apart es a b above low)

still_low :
    (es : List (ℕ × ObjEntry)) (a b : ℕ)
    → a ≤ b
    → All (λ l. l.1.handle < a) es
    → All (λ l. l.1.handle < b) es
still_low [] a b above low = tt
still_low (e ∷ es) a b above (here, low) = (omega (arith, here, above), still_low es a b above low)

high_apart :
    (xs : List Stored) (a id b : ℕ) → b < a → All (λ l. l.1.handle ≢ b) (entries_of xs a id)
high_apart [] a id b below = tt
high_apart (x ∷ xs) a id b below = (
  λ same. omega (arith, same, below),
  high_apart xs (next_at x a) (id + 1) b (omega (arith, below)),
)

placed-AreStandIns :
    (w : World) (last n : ℕ) (links : List (ℕ × ℕ))
    → ((b : ℕ) → n ≤ b → b < last → IsFree w.entries b)
    → n + length links ≤ last
    → HaveStandIns w n links
    → AreStandIns w n links
placed-AreStandIns w last n [] free fits there = tt
placed-AreStandIns w last n ((key, inst) ∷ links) free fits (here, there) = (
  here,
  free n (omega arith) (omega (arith, fits)),
  placed-AreStandIns w last (suc n) links (λ b low high. free b (omega (arith, low)) high)
      (omega (arith, fits)) there,
)

-- What was placed behind other entries can be linked.
pub placed-ArePending :
    (xs : List Stored) (before : List (ℕ × ObjEntry)) (a id : ℕ) (w : World)
    → w.entries ≡ before ++ entries_of xs a id
    → All (λ l. l.1.handle < a) before
    → ArePlaced w xs a id
    → ArePending w xs a id
placed-ArePending [] before a id w entries low placed = tt
placed-ArePending (x ∷ xs) before a id w entries low (placed, others) =
    let last = suc (a + length (links_of x)) in
    let free : (b : ℕ) → suc a ≤ b → b < last → IsFree w.entries b = λ b above below.
      subst (λ es. IsFree es b) (sym entries)
        (All-IsFree (before ++ entries_of (x ∷ xs) a id) b (
          All-append (λ l. l.1.handle ≢ b) before (entries_of (x ∷ xs) a id)
            (low_apart before a b (omega (arith, above)) low)
            (
              λ same. omega (arith, same, below),
              high_apart xs (next_at x a) (id + 1) b (omega (arith, below)),
            ))) in
    (
      placed.object,
      placed-AreStandIns w last (suc a) (links_of x) free (omega arith) placed.stand_ins,
      placed-ArePending xs (before ++ ((id, entry_at x a) ∷ [])) (next_at x a) (id + 1) w
          (entries
            ∙ sym (
                append_assoc before ((id, entry_at x a) ∷ [])
                  (entries_of xs (next_at x a) (id + 1))))
          (All-append (λ l. l.1.handle < next_at x a) before ((id, entry_at x a) ∷ [])
            (still_low before a (next_at x a) (omega arith) low) (omega arith, tt))
          others,
    )
