-- ===== src/Tests/Archives.antt =====
-- An archive of two files, its headers, a moment, and the list of files.
use packaged_task.Base.{◌<◌, ◌^◌, ◌+◌, ◌*◌, ◌/◌, ◌^◌, ◌≡◌, [], ◌∷◌, length, arith}
use packaged_task.Fs.DosTime.{Tm, get_dos_time, unpack_dos_time, IsTm, unpack_dos_time-get_dos_time}
use packaged_task.Fs.ZipFormat.{eocd_bytes, central_bytes, local_bytes}
use packaged_task.Fs.Files.Entered.{entered, add_zipped_dir-entered}
use packaged_task.Base.Bytes.{le_bytes}
use packaged_task.Fs.Archive.{
  write_records, write_directory, local_header, stored_data, stored_size, stored_method, file_info,
  central_header, end_record, Zlib, File, local_record, create_zip,
}
use packaged_task.Fs.Archive.Format.{archive_format, create_zip-archive_format}
use packaged_task.Fs.Files.{add_zipped_dir}

abbrev pub moment : Tm
moment = record { tm_sec = 31; tm_min = 45; tm_hour = 13; tm_mday = 9; tm_mon = 4; tm_year = 119 }

moment-IsTm : IsTm moment
moment-IsTm = record {
  sec = omega arith;
  min = omega arith;
  hour = omega arith;
  mday = (omega arith, omega arith);
  mon = omega arith;
  year = (omega arith, omega arith);
}

unpack_dos_time-get_dos_time_example : unpack_dos_time (get_dos_time moment) ≡ record {
  tm_sec = 31 / 2 * 2;
  tm_min = 45;
  tm_hour = 13;
  tm_mday = 9;
  tm_mon = 4 + 1;
  tm_year = 119 + 1900;
}
unpack_dos_time-get_dos_time_example = unpack_dos_time-get_dos_time moment moment-IsTm

-- A deflater that cannot shorten anything.
abbrev pub stores : Zlib
stores = record { crc32 = λ bytes. 0; deflated = λ bytes. bytes; inflated = λ n bytes. bytes }

abbrev pub file_a : File
file_a = record { name = 97 ∷ []; contents = 1 ∷ 2 ∷ []; stamp = moment }

abbrev pub file_b : File
file_b = record { name = 98 ∷ []; contents = 3 ∷ []; stamp = moment }

create_zip-archive_format_example :
    create_zip stores (file_a ∷ file_b ∷ []) ≡ archive_format stores (file_a ∷ file_b ∷ [])
create_zip-archive_format_example = create_zip-archive_format stores (file_a ∷ file_b ∷ [])

pub two-small : length (create_zip stores (file_a ∷ file_b ∷ [])) < 2 ^ 32
unfolding create_zip write_records write_directory local_record local_header local_bytes stored_data
    stored_size stored_method file_info central_header central_bytes end_record eocd_bytes le_bytes
two-small = omega arith

add_zipped_dir-entered_example :
    add_zipped_dir (122 ∷ []) (create_zip stores (file_a ∷ file_b ∷ []))
    ≡ entered stores (122 ∷ []) 0 (file_a ∷ file_b ∷ [])
add_zipped_dir-entered_example =
    add_zipped_dir-entered stores (122 ∷ []) file_a (file_b ∷ []) (omega arith, (omega arith, tt))
      (omega arith) two-small
