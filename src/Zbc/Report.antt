-- ===== src/Zbc/Report.antt =====
-- REPORT ZONES of file_zbc.c: `zbc_should_report_zone`, `zbc_report_zones` and `zbc_in`.
-- A pointer that walks over the zones is the list of the zones from there on; `none` says that the code
-- would follow a null pointer or read past the array.
pub mod Listing
use tcmu_runner.Prelude.{
  ℕ, zero, suc, ◌+◌, ◌-◌, ◌*◌, ◌/◌, ◌%◌, ◌^◌, Bool, true, false, not, ◌&&◌, ◌||◌, List, [], ◌∷◌,
  ◌++◌, Option, none, some, drop, replicate, ltb, leb, ◌==◌, if◌then◌else◌,
}
use tcmu_runner.Cdb.{byte, put_unaligned_be32, cdb_get_lba, cdb_get_xfer_length}
use tcmu_runner.Iovec.{Iovec, iovec_length, memcpy_into_iovec}
use tcmu_runner.Zbc.{
  Zone, ZoneCond, not_wp, empty, imp_open, exp_open, closed, readonly, full, offline, other_cond,
  ZbcDev, is_empty, is_imp_open, is_exp_open, is_closed, is_full, inc32,
}
use tcmu_runner.Zbc.Commands.{
  Reply, sts_ok, check, illegal_request, get_zone, asc_lba_out_of_range, asc_invalid_field_in_cdb,
}
use tcmu_runner.Zbc.Write.{zone_end, type_code, sub64}

-- The codes of `enum zbc_zone_cond`.
abbrev pub cond_code : ZoneCond → ℕ
cond_code not_wp = 0
cond_code empty = 1
cond_code imp_open = 2
cond_code exp_open = 3
cond_code closed = 4
cond_code readonly = 13
cond_code full = 14
cond_code offline = 15
cond_code (other_cond n) = n

abbrev is_readonly : Zone → Bool
is_readonly z = elim z.cond [ readonly ↦ true | _ ↦ false ]

abbrev is_offline : Zone → Bool
is_offline z = elim z.cond [ offline ↦ true | _ ↦ false ]

abbrev is_not_wp : Zone → Bool
is_not_wp z = elim z.cond [ not_wp ↦ true | _ ↦ false ]

-- `enum zbc_reporting_options` without its highest bit; `none` is a reserved code.
pub data Options : Type 0 where
  ro_all ro_empty ro_imp_open ro_exp_open ro_closed ro_full ro_readonly ro_offline ro_rwp ro_non_seq
        ro_not_wp :
      Options

unfoldable pub options : ℕ → Option Options
options ro =
    if ro == 0
    then some ro_all
    else if ro == 1
    then some ro_empty
    else if ro == 2
    then some ro_imp_open
    else if ro == 3
    then some ro_exp_open
    else if ro == 4
    then some ro_closed
    else if ro == 5
    then some ro_full
    else if ro == 6
    then some ro_readonly
    else if ro == 7
    then some ro_offline
    else if ro == 16
    then some ro_rwp
    else if ro == 17
    then some ro_non_seq
    else if ro == 63
    then some ro_not_wp
    else none

-- `zbc_should_report_zone`
unfoldable pub should_report : Options → Zone → Bool
should_report ro_all z = true
should_report ro_empty z = is_empty z
should_report ro_imp_open z = is_imp_open z
should_report ro_exp_open z = is_exp_open z
should_report ro_closed z = is_closed z
should_report ro_full z = is_full z
should_report ro_readonly z = is_readonly z
should_report ro_offline z = is_offline z
should_report ro_rwp z = z.reset
should_report ro_non_seq z = z.non_seq
should_report ro_not_wp z = is_not_wp z

-- `htobe64` followed by a copy.
unfoldable pub put_be64 : ℕ → List ℕ
unfolding put_unaligned_be32
put_be64 v = put_unaligned_be32 (v / 2 ^ 32 % 2 ^ 32) ++ put_unaligned_be32 (v % 2 ^ 32)

-- The header, for a number of zones.
unfoldable pub report_data : ZbcDev → ℕ → List ℕ
unfolding put_be64
report_data d nr_zones =
    put_unaligned_be32 (nr_zones * 64 % 2 ^ 32)
    ++ replicate 4 0
    ++ put_be64 (sub64 d.capacity 1)
    ++ replicate 48 0

-- The descriptor of a zone.
unfoldable pub zone_data : Zone → List ℕ
unfolding put_be64
zone_data z =
    (type_code z.type % 16)
      ∷ (cond_code z.cond * 16 % 256 + (if z.reset then 1 else 0) + (if z.non_seq then 2 else 0))
      ∷ replicate 6 0
    ++ put_be64 z.len
    ++ put_be64 z.start
    ++ put_be64 z.wp
    ++ replicate 32 0

-- What is left of the length after 64 bytes.
abbrev pub shorter : ℕ → ℕ
shorter len = if ltb 64 len then len - 64 else 0

-- The first pass.
unfoldable pub count_from : ZbcDev → Options → Bool → List Zone → ℕ → ℕ → ℕ → Option ℕ
count_from d ro partial [] lba len n = if ltb lba d.capacity then none else some n
count_from d ro partial (z ∷ zs) lba len n =
    let skipped = count_from d ro partial zs (zone_end z) len n in
    let counted = count_from d ro partial zs (zone_end z) (shorter len) (inc32 n) in
    if not (ltb lba d.capacity)
    then some n
    else if should_report ro z
    then (if partial && ltb len 64 then some n else counted)
    else skipped

-- The second pass.
unfoldable pub list_from : ZbcDev → Options → List Zone → ℕ → ℕ → List Iovec → Option (List Iovec)
list_from d ro [] lba len iovec = if ltb lba d.capacity && leb 64 len then none else some iovec
list_from d ro (z ∷ zs) lba len iovec =
    let skipped = list_from d ro zs (zone_end z) len iovec in
    let listed =
      list_from d ro zs (zone_end z) (len - 64) (memcpy_into_iovec iovec (zone_data z) 64).1 in
    if not (ltb lba d.capacity && leb 64 len)
    then some iovec
    else if should_report ro z
    then listed
    else skipped

-- The two passes with a valid option, from the zones of the LBA on.
unfoldable pub report_from :
    ZbcDev → Options → Bool → List Zone → ℕ → ℕ → List Iovec → Option (Reply × List Iovec)
report_from d ro partial zs lba xfer iovec =
    elim (count_from d ro partial zs lba (shorter xfer) 0) [
      | none ↦ none
      | some n ↦
          let (copied, iovec1) = memcpy_into_iovec iovec (report_data d n) 64 in
          if ltb copied 64
          then some (sts_ok, iovec1)
          else elim (list_from d ro zs lba (iovec_length iovec1) iovec1) [
            | none ↦ none
            | some iovec2 ↦ some (sts_ok, iovec2)
          ]
    ]

-- `zbc_report_zones`
unfoldable pub report_zones : ZbcDev → List ℕ → List Iovec → Option (Reply × List Iovec)
report_zones d cdb iovec = elim (options (byte cdb 14 % 128)) [
  | none ↦ some (check illegal_request asc_invalid_field_in_cdb, iovec)
  | some ro ↦
      let lba = cdb_get_lba cdb in
      if leb d.capacity lba
      then some (check illegal_request asc_lba_out_of_range, iovec)
      else elim (get_zone d lba false) [
        | none ↦ none
        | some i ↦
            report_from d ro (byte cdb 14 / 128 % 2 == 1) (drop i d.zones) lba
              (cdb_get_xfer_length cdb) iovec
      ]
]

-- `zbc_in`
unfoldable pub zbc_in : ZbcDev → List ℕ → List Iovec → Option (Reply × List Iovec)
zbc_in d cdb iovec =
    if byte cdb 1 == 0
    then report_zones d cdb iovec
    else some (check illegal_request asc_invalid_field_in_cdb, iovec)
