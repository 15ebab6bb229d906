-- ===== src/Fs/Stream/Writing.antt =====
-- Writes that begin within the bytes of a stream that has not failed.
use packaged_task.Base.{
  ℕ, ◌-◌, ◌≡◌, refl, ap, sym, ◌∙◌, List, [], ◌∷◌, ◌++◌, length, drop, take-append, drop-append,
  length-append, append_assoc, append-nil,
}
use packaged_task.Base.Bytes.{byte_sizes}
use packaged_task.Fs.Stream.{overwrite, put, put_all}
use packaged_task.Fs.Stream.Reading.{at, drop-drop}

abbrev pub joined : List (List ℕ) → List ℕ
joined [] = []
joined (b ∷ bs) = b ++ joined bs

overwrite_lem :
    (front fresh tail : List ℕ)
    → overwrite (length front) fresh (front ++ tail) ≡ (front ++ fresh) ++ drop (length fresh) tail
unfolding overwrite
overwrite_lem front fresh tail =
    let none_missing : length front - length (front ++ tail) ≡ 0 = omega byte_sizes in
    rw
      (
        take-append front tail,
        none_missing,
        drop-drop (length front) (length fresh) (front ++ tail),
        drop-append front tail,
      )
      (sym (append_assoc front fresh (drop (length fresh) tail)))

put_lem :
    (front fresh tail : List ℕ)
    → put fresh (at (front ++ tail) (length front))
      ≡ at ((front ++ fresh) ++ drop (length fresh) tail) (length (front ++ fresh))
unfolding put
put_lem front fresh tail = rw (overwrite_lem front fresh tail, length-append front fresh) refl

-- A row of writes puts the bytes of all of them over those that stand there.
pub put_all_lem :
    (bs : List (List ℕ)) (front tail : List ℕ)
    → put_all bs (at (front ++ tail) (length front))
      ≡ at ((front ++ joined bs) ++ drop (length (joined bs)) tail) (length (front ++ joined bs))
unfolding put_all
put_all_lem [] front tail = rw (append-nil front) refl
put_all_lem (b ∷ bs) front tail =
    ap (put_all bs) (put_lem front b tail)
    ∙ put_all_lem bs (front ++ b) (drop (length b) tail)
    ∙ rw
        (
          append_assoc front b (joined bs),
          length-append b (joined bs),
          drop-drop (length b) (length (joined bs)) tail,
        )
        refl
