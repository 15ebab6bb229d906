-- ===== src/Fs/Extend/Appended.antt =====
-- `addFileToZIP` on an archive that `createZIP` has written.
use packaged_task.Base.{
  ℕ, suc, ◌+◌, ◌-◌, ◌^◌, ◌<◌, ◌≡◌, refl, ap, sym, ◌∙◌, List, [], ◌∷◌, ◌++◌, length, replicate, All,
  arith, append_assoc, append-nil, true, false, ==_ne, some, if◌then◌else◌,
}
use packaged_task.Base.Bytes.{byte_sizes}
use packaged_task.Fs.Stream.{seek, read_into}
use packaged_task.Fs.Stream.Reading.{at, drop-all, read_whole, length-replicate}
use packaged_task.Fs.Archive.{Zlib, File, uncompressed_data, create_zip}
use packaged_task.Fs.Archive.Layout.{records_of, directory_of}
use packaged_task.Fs.Files.Opening.{
  eocd_with, ending, eocd_found, eocd_read, eocd_known, front_of, count_of, total_of, place_of,
  create_zip-ending, front_size, directory_here,
}
use packaged_task.Fs.Files.Listing.{directory_entry-size}
use packaged_task.Fs.Extend.{
  has_name, read_names, write_extended, write_if_new, extend_at, add_file_to_zip,
}
use packaged_task.Fs.Extend.Names.{names_of, read_names_lem}
use packaged_task.Fs.Extend.Rewritten.{write_extended-archive}

-- Behind the archive of some files.
module _ (z : Zlib) (f : File) (fs : List File) (new : File) where
  abbrev records : List ℕ
  records = records_of z (f ∷ fs)

  abbrev directory : List ℕ
  directory = directory_of z 0 (f ∷ fs)

  abbrev extended : List File
  extended = (f ∷ fs) ++ (new ∷ [])

  abbrev bytes : List ℕ
  bytes = front_of z f fs ++ ending (count_of z f fs) (total_of z f fs) (place_of z f fs)

  directory_read :
      length (create_zip z (f ∷ fs)) < 2 ^ 32
      → read_into (total_of z f fs) (replicate (total_of z f fs) 0) (at bytes (place_of z f fs))
        ≡ (directory, at bytes (length records + length directory))
  directory_read room =
      let (size, long, split) = front_size z f fs in
      let near : place_of z f fs ≡ length records = omega (arith, room, long, split) in
      let small : total_of z f fs ≡ length directory = omega (arith, room, long, split) in
      let some_bytes : 0 < length directory = omega (byte_sizes, directory_entry-size z 0 f) in
      ap (λ n. read_into n (replicate n 0) (at bytes (place_of z f fs))) small
      ∙ ap (λ n. read_into (length directory) (replicate (length directory) 0) (at bytes n)) near
      ∙ read_whole (length directory) (length records) (replicate (length directory) 0) bytes
          directory (ending (count_of z f fs) (total_of z f fs) (place_of z f fs))
          (directory_here z f fs) refl some_bytes
      ∙ ap (λ d. (directory ++ d, at bytes (length records + length directory)))
          (drop-all (length directory) (replicate (length directory) 0)
            (length-replicate (length directory) 0))
      ∙ ap (λ d. (d, at bytes (length records + length directory))) (append-nil directory)

  names_read :
      All (λ g. z.crc32 (uncompressed_data g) < 2 ^ 32) (f ∷ fs)
      → length (f ∷ fs) < 2 ^ 16
      → length (create_zip z (f ∷ fs)) < 2 ^ 32
      → (q : ℕ) × (read_names (count_of z f fs) (at bytes (place_of z f fs))
          ≡ some (names_of (f ∷ fs), at bytes q))
  names_read sums few room =
      let (size, long, split) = front_size z f fs in
      let near : place_of z f fs ≡ length records = omega (arith, room, long, split) in
      let few' : count_of z f fs ≡ length (f ∷ fs) = omega (arith, few) in
      let (q, read) =
        read_names_lem z (f ∷ fs) 0 (length records) bytes
          (ending (count_of z f fs) (total_of z f fs) (place_of z f fs)) sums
          (directory_here z f fs) in
      (
        q,
        ap (λ n. read_names n (at bytes (place_of z f fs))) few'
            ∙ ap (λ n. read_names (length (f ∷ fs)) (at bytes n)) near
            ∙ read,
      )

  written :
      length (create_zip z (f ∷ fs)) < 2 ^ 32
      → (write_extended z new
          (eocd_with (count_of z f fs) (total_of z f fs) (place_of z f fs))
          directory
          (at bytes (place_of z f fs))).bytes
        ≡ create_zip z extended
  written room =
      let (size, long, split) = front_size z f fs in
      let near : place_of z f fs ≡ length records = omega (arith, room, long, split) in
      let eocd = eocd_with (count_of z f fs) (total_of z f fs) (place_of z f fs) in
      ap (λ n. (write_extended z new eocd directory (at bytes n)).bytes) near
      ∙ ap (λ b. (write_extended z new eocd directory (at b (length records))).bytes)
          (append_assoc records directory
            (ending (count_of z f fs) (total_of z f fs) (place_of z f fs)))
      ∙ write_extended-archive z f fs new

-- Adding a file to an archive that `createZIP` has written gives the archive that `createZIP` writes
-- of all the files, unless a file is listed under that name: then the archive stays as it is and the
-- result is false. The archive has at least one file, lies below 2 ^ 32 bytes with fewer than
-- 2 ^ 16 files, and its checksums fit 32 bits.
pub add_file_to_zip-create_zip :
    (z : Zlib) (f : File) (fs : List File) (new : File)
    → All (λ g. z.crc32 (uncompressed_data g) < 2 ^ 32) (f ∷ fs)
    → length (f ∷ fs) < 2 ^ 16
    → length (create_zip z (f ∷ fs)) < 2 ^ 32
    → add_file_to_zip z new (create_zip z (f ∷ fs)) ≡ (
        if has_name new.name (names_of (f ∷ fs))
        then (create_zip z (f ∷ fs), false)
        else (create_zip z ((f ∷ fs) ++ (new ∷ [])), true))
unfolding add_file_to_zip extend_at seek write_if_new
add_file_to_zip-create_zip z f fs new sums few room =
    let m = length (front_of z f fs) - 1 in
    let (size, long, split) = front_size z f fs in
    let (q, names) = names_read z f fs new sums few room in
    let count = count_of z f fs in
    let total = total_of z f fs in
    let place = place_of z f fs in
    ap (add_file_to_zip z new) (create_zip-ending z f fs)
    ∙ rw
        (
          eocd_found (front_of z f fs) m size count total place (omega (arith, long, size, room)),
          eocd_read (front_of z f fs) m size count total place,
          eocd_known count total place (omega arith) (omega arith) (omega arith),
          ==_ne (suc m + 4) 0 (λ e. omega (arith, e)),
          directory_read z f fs new room,
          names,
          written z f fs new room,
        )
        (ap
          (λ bytes.
            if has_name new.name (names_of (f ∷ fs))
            then (bytes, false)
            else (create_zip z ((f ∷ fs) ++ (new ∷ [])), true))
          (sym (create_zip-ending z f fs)))
