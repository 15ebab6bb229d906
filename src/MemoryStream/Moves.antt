-- ===== src/MemoryStream/Moves.antt =====
-- The move operations of `InputMemoryStream` (src/core/memory_stream.h), which call each other
-- through `std::swap`, and the `swap` that would have ended. `fuel` bounds the depth of the calls;
-- `none` is a call that is still running.
use packaged_task.Base.{ℕ, zero, suc, ◌≡◌, refl, Option, none, some, []}
use packaged_task.MemoryStream.{InputMemoryStream}

infixl 5 ◌>>=◌
abbrev ◌>>=◌ {ℓ κ} : {A : Type ℓ} {B : Type κ} → Option A → (A → Option B) → Option B
none >>= f = none
some a >>= f = f a

-- `InputMemoryStream()`
abbrev empty_stream : InputMemoryStream
empty_stream = record { bytes = []; head = 0; capacity = 0 }

-- `swap` of two streams, a friend: what each of them is afterwards.
unfoldable pub swap : InputMemoryStream → InputMemoryStream → InputMemoryStream × InputMemoryStream
swap left right = (
  record { bytes = right.bytes; head = right.head; capacity = right.capacity },
  record { bytes = left.bytes; head = left.head; capacity = left.capacity },
)

unfoldable mutual
  -- The move constructor: the new stream and the other one.
  pub move_construct : ℕ → InputMemoryStream → Option (InputMemoryStream × InputMemoryStream)
  move_construct zero other = none
  move_construct (suc fuel) other = std_swap fuel empty_stream other

  -- The move assignment: both streams.
  pub move_assign :
      ℕ → InputMemoryStream → InputMemoryStream → Option (InputMemoryStream × InputMemoryStream)
  move_assign zero this other = none
  move_assign (suc fuel) this other = std_swap fuel this other

  -- `std::swap`: a temporary is moved from the first, and two moves follow.
  pub std_swap :
      ℕ → InputMemoryStream → InputMemoryStream → Option (InputMemoryStream × InputMemoryStream)
  std_swap zero left right = none
  std_swap (suc fuel) left right = do
    made ← move_construct fuel left
    first ← move_assign fuel made.1 right
    second ← move_assign fuel first.1 made.0
    some (first.0, second.0)

std_swap-none : (fuel : ℕ) (left right : InputMemoryStream) → std_swap fuel left right ≡ none
unfolding std_swap move_construct
std_swap-none zero left right = refl
std_swap-none (suc zero) left right = refl
std_swap-none (suc (suc fuel)) left right = rw (std_swap-none fuel empty_stream left) refl

-- However deep the calls may go, neither moving a stream into a new one nor moving it into another
-- one comes back.
pub moves-none :
    (fuel : ℕ) (this other : InputMemoryStream)
    → (move_construct fuel other ≡ none) × (move_assign fuel this other ≡ none)
unfolding move_construct move_assign
moves-none zero this other = (refl, refl)
moves-none (suc fuel) this other =
    (std_swap-none fuel empty_stream other, std_swap-none fuel this other)
