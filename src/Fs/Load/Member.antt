-- ===== src/Fs/Load/Member.antt =====
-- `loadZipFile` on an archive that `createZIP` has written.
use packaged_task.Base.{
  ℕ, zero, suc, ◌+◌, ◌%◌, ◌^◌, ◌<◌, ◌≡◌, refl, ap, sym, ◌∙◌, List, [], ◌∷◌, ◌++◌, length, take,
  drop, replicate, take-append, arith, append_assoc, append-nil, ltb, Bool-cases, true, inl, inr,
  leb, ◌==◌, some, if◌then◌else◌,
}
use packaged_task.Base.Bytes.{le_bytes}
use packaged_task.Fs.DosTime.{get_dos_time, unpack_dos_time}
use packaged_task.Fs.ZipFormat.{LocalFileHeader, local_bytes, local_of, size_of_local}
use packaged_task.Fs.ZipFormat.Codec.{FitsLocal, local_of-local_bytes}
use packaged_task.Fs.Stream.{FileStream, opened, seek, skip, read_into}
use packaged_task.Fs.Stream.Reading.{at, drop-all, read_whole, behind, length-replicate}
use packaged_task.Fs.Archive.{
  Zlib, File, uncompressed_data, stored_size, stored_method, stored_data, local_header,
  local_record, local_signature, deflated_method,
}
use packaged_task.Fs.Files.{FileData}
use packaged_task.Fs.Files.Listing.{stored_size-IsU32, stored_method_cases, skip_none}
use packaged_task.Fs.Memory.{BufferedFile}
use packaged_task.Fs.Load.{Host, inflate_into, load_member}

-- A read of bytes that lie in the stream, of none too.
read_there :
    (count p : ℕ) (bytes data' rest : List ℕ)
    → drop p bytes ≡ data' ++ rest
    → length data' ≡ count
    → (read_into count (replicate count 0) (at bytes p)).0 ≡ data'
unfolding read_into
read_there zero p bytes [] rest here size = elim (Bool-cases (ltb (length bytes) (p + 0))) [
  | inl e ↦ rw e refl
  | inr e ↦ rw e refl
]
read_there zero p bytes (d ∷ ds) rest here size = absurd (omega (arith, size))
read_there (suc n) p bytes data' rest here size =
    rw
      (
        read_whole (suc n) p (replicate (suc n) 0) bytes data' rest here size (omega arith),
        drop-all (suc n) (replicate (suc n) 0) (length-replicate (suc n) 0),
      )
      (append-nil data')

pub contents_whole : (f : File) → length f.contents < 2 ^ 32 → uncompressed_data f ≡ f.contents
contents_whole f small =
    let whole : length f.contents % 2 ^ 32 ≡ length f.contents = omega (arith, small) in
    ap (λ n. take n f.contents) whole
    ∙ ap (take (length f.contents)) (sym (append-nil f.contents))
    ∙ take-append f.contents []

module _ (z : Zlib) (f : File) (small : length f.contents < 2 ^ 32) where
  -- The stored data have the stored size, and give the contents back.
  stored_back :
      (length (z.deflated f.contents) < length f.contents
        → z.inflated (length f.contents) (z.deflated f.contents) ≡ f.contents)
      → (length (stored_data z f) ≡ stored_size z f)
        × ((if stored_method z f == deflated_method
              then length f.contents % 2 ^ 32
              else stored_size z f)
            ≡ length f.contents)
        × ((if stored_method z f == deflated_method
              then inflate_into z (length f.contents % 2 ^ 32) (stored_data z f)
              else stored_data z f)
            ≡ f.contents)
  unfolding stored_data stored_size stored_method inflate_into
  stored_back restores =
      let whole : length f.contents % 2 ^ 32 ≡ length f.contents = omega (arith, small) in
      elim (Bool-cases (leb (length f.contents) (length (z.deflated f.contents)))) [
        | inl e ↦ rw (contents_whole f small, whole, e) (refl, refl, refl)
        | inr e ↦
            let back = restores (ground arith) in
            rw (contents_whole f small, whole, e, back)
              (
                refl,
                refl,
                ap (λ r. f.contents ++ r)
                      (drop-all (length f.contents) (replicate (length f.contents) 0)
                        (length-replicate (length f.contents) 0))
                    ∙ append-nil f.contents,
              )
      ]

local_header-FitsLocal :
    (z : Zlib) (f : File) → z.crc32 (uncompressed_data f) < 2 ^ 32 → FitsLocal (local_header z f)
unfolding local_header get_dos_time
local_header-FitsLocal z f sum =
    let method : stored_method z f < 2 ^ 16 = elim (stored_method_cases z f) [
      | inl e ↦ omega (arith, e)
      | inr e ↦ omega (arith, e)
    ] in
    record {
      signature = omega arith;
      version = omega arith;
      method = (omega arith, method);
      moment = (omega arith, omega arith);
      sum = sum;
      sizes = (stored_size-IsU32 z f, omega arith);
      lengths = (omega arith, omega arith);
    }

-- What is loaded at a header that has the signature.
member_step :
    (host : Host) (z : Zlib) (zf : FileData) (bytes stored : List ℕ) (lfh : LocalFileHeader)
    {header : List ℕ} {s₁ s₂ : FileStream}
    → read_into size_of_local (replicate size_of_local 0) (seek zf.lfh_offset (opened bytes))
      ≡ (header, s₁)
    → local_of header ≡ lfh
    → skip lfh.extra_field_length (skip lfh.filename_length s₁) ≡ s₂
    → (read_into lfh.compressed_size (replicate lfh.compressed_size 0) s₂).0 ≡ stored
    → (lfh.signature == local_signature) ≡ true
    → load_member host z zf (some bytes)
      ≡ some (record {
        name = zf.fname;
        file_size = if zf.compressed then lfh.uncompressed_size else lfh.compressed_size;
        data_bytes = if zf.compressed then inflate_into z lfh.uncompressed_size stored else stored;
        last_write_time = host.mktime (
            unpack_dos_time
              (record { time = lfh.modification_time; date = lfh.modification_date }));
      })
unfolding load_member
member_step host z zf bytes stored lfh read known skipped data_read signed =
    rw (read, known, skipped, data_read, signed) refl

-- What is loaded of a file that was put into an archive.
abbrev pub loaded : Host → (archive : List ℕ) → File → BufferedFile
loaded host archive f = record {
  name = archive;
  file_size = length f.contents;
  data_bytes = f.contents;
  last_write_time = host.mktime (unpack_dos_time (get_dos_time f.stamp));
}

skip_within : (n p : ℕ) (bytes : List ℕ) → skip n (at bytes p) ≡ at bytes (p + n)
unfolding skip
skip_within n p bytes = refl

local_bytes-size : (h : LocalFileHeader) → length (local_bytes h) ≡ size_of_local
unfolding local_bytes le_bytes
local_bytes-size h = refl

-- Loading where a record lies in the archive.
pub load_member-record :
    (host : Host) (z : Zlib) (zf : FileData) (bytes rest : List ℕ) (f : File)
    → z.crc32 (uncompressed_data f) < 2 ^ 32
    → length f.name < 2 ^ 16
    → length f.contents < 2 ^ 32
    → (length (z.deflated f.contents) < length f.contents
        → z.inflated (length f.contents) (z.deflated f.contents) ≡ f.contents)
    → drop zf.lfh_offset bytes ≡ local_record z f ++ rest
    → zf.compressed ≡ (stored_method z f == deflated_method)
    → load_member host z zf (some bytes) ≡ some (loaded host zf.fname f)
unfolding local_header local_record seek
load_member-record host z zf bytes rest f sum named small restores here packed =
    let h = local_header z f in
    let p = zf.lfh_offset in
    let (size, whole_size, whole) = stored_back z f small restores in
    let here' : drop p bytes ≡ local_bytes h ++ (f.name ++ (stored_data z f ++ rest)) =
      here
      ∙ append_assoc (local_bytes h) (f.name ++ stored_data z f) rest
      ∙ ap (λ r. local_bytes h ++ r) (append_assoc f.name (stored_data z f) rest) in
    let name_size : length f.name ≡ length f.name % 2 ^ 16 = omega (arith, named) in
    let there = behind size_of_local p bytes (local_bytes h) _ here' (local_bytes-size h) in
    let there' =
      behind (length f.name % 2 ^ 16) (p + size_of_local) bytes f.name (stored_data z f ++ rest)
        there name_size in
    let behind_name = p + size_of_local + length f.name % 2 ^ 16 in
    member_step host z zf bytes (stored_data z f) h
      (read_whole size_of_local p (replicate size_of_local 0) bytes (local_bytes h) _ here'
        (local_bytes-size h) (omega arith))
      (local_of-local_bytes h (drop size_of_local (replicate size_of_local 0))
        (local_header-FitsLocal z f sum))
      (ap (skip 0) (skip_within (length f.name % 2 ^ 16) (p + size_of_local) bytes)
        ∙ skip_none behind_name bytes)
      (read_there (stored_size z f) behind_name bytes (stored_data z f) rest there' size) refl
    ∙ rw (packed, whole_size, whole) refl
