-- ===== src/Fs/Stream.antt =====
-- `std::ifstream` in binary mode over a file that could be opened, as far as file_system.cpp uses
-- it: a position, and the fail bit that a short read sets and that makes later reads and seeks
-- do nothing.
pub mod Reading
pub mod Writing
use packaged_task.Base.{
  ℕ, ◌+◌, ◌-◌, ◌^◌, List, [], ◌∷◌, ◌++◌, replicate, length, take, drop, ltb, Bool, true, false,
  if◌then◌else◌,
}

pub record FileStream : Type 0 where
  pub bytes : List ℕ
  pub position : ℕ
  pub good : Bool

abbrev pub opened : List ℕ → FileStream
opened bytes = record { bytes = bytes; position = 0; good = true }

unfoldable pub seek : ℕ → FileStream → FileStream
seek position s = if s.good then record s { position = position } else s

-- `seekg(n, std::ifstream::cur)`
unfoldable pub skip : ℕ → FileStream → FileStream
skip count s = if s.good then record s { position = s.position + count } else s

-- `tellg()` as a `size_t`: -1 after a failure.
unfoldable pub tell : FileStream → ℕ
tell s = if s.good then s.position else 2 ^ 64 - 1

-- The stream after a read of `count` bytes into a buffer that holds `old`, and the buffer.
unfoldable pub read_into : (count : ℕ) → (old : List ℕ) → FileStream → List ℕ × FileStream
read_into count old s =
    let there = take count (drop s.position s.bytes) in
    if s.good
    then (if ltb (length s.bytes) (s.position + count)
        then (
          there ++ drop (length there) old,
          record s { position = length s.bytes; good = false },
        )
        else (there ++ drop count old, record s { position = s.position + count }))
    else (old, s)

-- What a file holds after bytes are written at a position; behind its end the gap is filled with
-- zeros.
unfoldable pub overwrite : (position : ℕ) → (fresh bytes : List ℕ) → List ℕ
overwrite position fresh bytes =
    take position bytes
    ++ (replicate (position - length bytes) 0 ++ (fresh ++ drop (position + length fresh) bytes))

-- `write` of an `std::fstream`, whose position is that of its reads.
unfoldable pub put : List ℕ → FileStream → FileStream
put fresh s =
    if s.good
    then record s {
      bytes = overwrite s.position fresh s.bytes;
      position = s.position + length fresh;
    }
    else s

-- Several writes in a row.
unfoldable pub put_all : List (List ℕ) → FileStream → FileStream
put_all [] s = s
put_all (b ∷ bs) s = put_all bs (put b s)
