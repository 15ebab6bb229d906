-- ===== src/Fs/DosTime.antt =====
-- The packed time and date of a zip header: `GetDosTime`, and the unpacking at the end of
-- `loadZipFile` (src/fs/file_system.cpp). `localtime` and `mktime` belong to the C library: the
-- first gives the `struct tm` to pack, the second takes the one that is unpacked.
use Prim.Native.Nat.{bit_and, bit_or}
use packaged_task.Base.{ℕ, ◌+◌, ◌-◌, ◌*◌, ◌/◌, ◌%◌, ◌^◌, ◌≤◌, ◌<◌, ◌≡◌, arith}
use packaged_task.Base.Bits.{bit_or-disjoint, mask_1f, mask_1e0, mask_7e0, mask_fe00, mask_f800}

-- `struct tm`: years since 1900, months since January.
pub record Tm : Type 0 where
  pub tm_sec : ℕ
  pub tm_min : ℕ
  pub tm_hour : ℕ
  pub tm_mday : ℕ
  pub tm_mon : ℕ
  pub tm_year : ℕ

pub record DosTime : Type 0 where
  pub time : ℕ
  pub date : ℕ

-- `GetDosTime`, for a year from 1980 on: `tm_year - 80` is an `int`.
unfoldable pub get_dos_time : Tm → DosTime
get_dos_time t = record {
  time = bit_or (bit_or (t.tm_hour * 2 ^ 11) (t.tm_min * 2 ^ 5)) (t.tm_sec / 2 ^ 1) % 2 ^ 16;
  date = bit_or (bit_or ((t.tm_year - 80) * 2 ^ 9) ((t.tm_mon + 1) * 2 ^ 5)) t.tm_mday % 2 ^ 16;
}

-- The `timeinfo` that `loadZipFile` hands to `mktime`.
unfoldable pub unpack_dos_time : DosTime → Tm
unpack_dos_time d = record {
  tm_year = bit_and d.date 0xfe00 / 2 ^ 9 + 1980;
  tm_mon = bit_and d.date 0x1e0 / 2 ^ 5;
  tm_mday = bit_and d.date 0x1f;
  tm_hour = bit_and d.time 0xf800 / 2 ^ 11;
  tm_min = bit_and d.time 0x7e0 / 2 ^ 5;
  tm_sec = bit_and d.time 0x1f * 2;
}

-- What `localtime` returns for a moment from 1980 to 2107.
pub record IsTm (t : Tm) : Type 0 where
  pub sec : t.tm_sec ≤ 60
  pub min : t.tm_min < 60
  pub hour : t.tm_hour < 24
  pub mday : (1 ≤ t.tm_mday) × (t.tm_mday ≤ 31)
  pub mon : t.tm_mon < 12
  pub year : (80 ≤ t.tm_year) × (t.tm_year < 208)

-- Three fields side by side, the lower two of five bits.
fields :
    (k : ℕ) (hi mid lo : ℕ)
    → mid * 2 ^ 5 < 2 ^ k
    → lo < 2 ^ 5
    → (n : ℕ) → hi * 2 ^ k + mid * 2 ^ 5 ≡ n * 2 ^ 5
    → bit_or (bit_or (hi * 2 ^ k) (mid * 2 ^ 5)) lo ≡ hi * 2 ^ k + mid * 2 ^ 5 + lo
fields k hi mid lo hm hl n e =
    rw (bit_or-disjoint k hi (mid * 2 ^ 5) hm, e) (bit_or-disjoint 5 n lo hl)

-- A moment from 1980 to 2107 is packed as the format says: five, six and five bits for the hour, the
-- minute and half the second, seven, four and five bits for the years since 1980, the month counted
-- from 1 and the day.
pub get_dos_time_fields :
    (t : Tm)
    → IsTm t
    → ((get_dos_time t).time ≡ t.tm_hour * 2 ^ 11 + t.tm_min * 2 ^ 5 + t.tm_sec / 2)
      × ((get_dos_time t).date ≡ (t.tm_year - 80) * 2 ^ 9 + (t.tm_mon + 1) * 2 ^ 5 + t.tm_mday)
unfolding get_dos_time
get_dos_time_fields t v =
    let time =
      fields 11 t.tm_hour t.tm_min (t.tm_sec / 2) (omega arith) (omega arith)
        (t.tm_hour * 64 + t.tm_min) (omega arith) in
    let date =
      fields 9 (t.tm_year - 80) (t.tm_mon + 1) t.tm_mday (omega arith) (omega arith)
        ((t.tm_year - 80) * 16 + t.tm_mon + 1) (omega arith) in
    (omega (arith, time), omega (arith, date))

-- What is unpacked from a moment from 1980 to 2107 that was packed has its day, hour and minute, and
-- its second without the lowest bit; but the year is 1900 years and the month one month too late for
-- `mktime`.
pub unpack_dos_time-get_dos_time :
    (t : Tm)
    → IsTm t
    → unpack_dos_time (get_dos_time t) ≡ record {
      tm_sec = t.tm_sec / 2 * 2;
      tm_min = t.tm_min;
      tm_hour = t.tm_hour;
      tm_mday = t.tm_mday;
      tm_mon = t.tm_mon + 1;
      tm_year = t.tm_year + 1900;
    }
unfolding unpack_dos_time
unpack_dos_time-get_dos_time t v = ground (
  arith,
  get_dos_time_fields t v,
  mask_1f (get_dos_time t).time,
  mask_7e0 (get_dos_time t).time,
  mask_f800 (get_dos_time t).time,
  mask_1f (get_dos_time t).date,
  mask_1e0 (get_dos_time t).date,
  mask_fe00 (get_dos_time t).date,
)
