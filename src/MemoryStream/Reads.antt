-- ===== src/MemoryStream/Reads.antt =====
-- Readers composed along the bytes that they take.
use packaged_task.Base.{
  ℕ, ◌+◌, ◌^◌, ◌<◌, ◌≡◌, ap, sym, List, ◌++◌, [], length, append_assoc, append-nil,
}
use packaged_task.Base.Bytes.{le_bytes, byte_sizes}
use packaged_task.MemoryStream.{done, Reader, pure, ◌>>=◌, read}
use packaged_task.MemoryStream.RoundTrip.{stream_at, read-stream_at}

-- Wherever the bytes `bs` are next in a stream whose positions fit 32 bits, the reader returns `a`
-- and leaves the head behind them.
abbrev pub Reads : {A : Type 0} → Reader A → List ℕ → A → Type 0
Reads m bs a =
    (front rest : List ℕ)
    → length front + length bs < 2 ^ 32
    → m (stream_at front (bs ++ rest)) ≡ done a (stream_at (front ++ bs) rest)

pub Reads-pure : {A : Type 0} (a : A) → Reads (pure a) [] a
Reads-pure a front rest small = ap (λ f. done a (stream_at f rest)) (sym (append-nil front))

pub Reads->>= :
    {A B : Type 0} (m : Reader A) (f : A → Reader B) (bs cs : List ℕ) (a : A) (b : B)
    → Reads m bs a
    → Reads (f a) cs b
    → Reads (m >>= f) (bs ++ cs) b
Reads->>= m f bs cs a b first second front rest small = rw (
  append_assoc bs cs rest,
  first front (cs ++ rest) (omega byte_sizes),
  ◌>>=◌,
  second (front ++ bs) rest (omega byte_sizes),
  append_assoc front bs cs,
)

pub Reads-read :
    (size value : ℕ) → value < 256 ^ size → Reads (read size) (le_bytes size value) value
Reads-read size value fits front rest small =
    read-stream_at size value front rest fits (omega byte_sizes)

-- A reader whose value is only put into its place.
pub Reads-then_pure :
    {A B : Type 0} (m : Reader A) (g : A → B) (bs : List ℕ) (a : A)
    → Reads m bs a
    → Reads (m >>= λ x. pure (g x)) bs (g a)
Reads-then_pure m g bs a first front rest small = rw (first front rest small, ◌>>=◌)
