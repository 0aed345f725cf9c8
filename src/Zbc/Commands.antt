-- ===== src/Zbc/Commands.antt =====
-- The zone management commands of file_zbc.c: `zbc_get_zone`, `zbc_open_zone`, `zbc_close_zone`,
-- `zbc_finish_zone`, `zbc_reset_wp` and `zbc_out`.
-- A command returns its reply and the device. `check key asc` stands for
-- `tcmu_sense_set_data(cmd->sense_buf, key, asc)`, whose buffer is the subject of Sense.
pub mod Effects
pub mod Outcomes
use tcmu_runner.Prelude.{
  ℕ, zero, suc, ◌+◌, ◌-◌, ◌/◌, ◌%◌, ◌^◌, Bool, true, false, not, ◌&&◌, ◌||◌, List, Option, none,
  some, get_elem?, ltb, leb, ◌==◌, if◌then◌else◌, for_range,
}
use tcmu_runner.Cdb.{byte, cdb_get_lba}
use tcmu_runner.Zbc.{
  Zone, ZbcDev, is_conv, is_exp_open, is_imp_open, is_full, is_closed, add32, do_close_zone,
  do_open_zone, do_finish_zone, do_reset_wp,
}

-- The sense keys of SPC-4 that the handler reports.
pub data SenseKey : Type 0 where
  medium_error hardware_error illegal_request data_protect : SenseKey

pub data Reply : Type 0 where
  sts_ok : Reply
  not_handled : Reply
  check : SenseKey → ℕ → Reply

abbrev pub asc_lba_out_of_range : ℕ
asc_lba_out_of_range = 0x2100

abbrev pub asc_invalid_field_in_cdb : ℕ
asc_invalid_field_in_cdb = 0x2400

abbrev pub asc_internal_target_failure : ℕ
asc_internal_target_failure = 0x4400

abbrev pub asc_unaligned_write_command : ℕ
asc_unaligned_write_command = 0x2104

abbrev pub asc_write_boundary_violation : ℕ
asc_write_boundary_violation = 0x2105

abbrev pub asc_insufficient_zone_resources : ℕ
asc_insufficient_zone_resources = 0x550e

abbrev pub asc_read_error : ℕ
asc_read_error = 0x1100

abbrev pub asc_write_error : ℕ
asc_write_error = 0x0c00

abbrev pub asc_attempt_to_read_invalid_data : ℕ
asc_attempt_to_read_invalid_data = 0x2106

-- `zbc_get_zone`: the index of the zone. The quotient is stored in an unsigned int.
unfoldable pub get_zone : ZbcDev → ℕ → Bool → Option ℕ
get_zone d lba lowest =
    let zno = lba / d.zone_size % 2 ^ 32 in
    if leb d.nr_zones zno then none else elim (get_elem? d.zones zno) [
      | none ↦ none
      | some z ↦ if lowest && not (lba == z.start) then none else some zno
    ]

-- The checks with which the four commands find the zone that they act on.
abbrev pub on_zone : ZbcDev → ℕ → (ℕ → Zone → Reply × ZbcDev) → Reply × ZbcDev
on_zone d lba act =
    if ltb d.capacity lba
    then (check illegal_request asc_lba_out_of_range, d)
    else elim (get_zone d lba true) [
      | none ↦ (check illegal_request asc_invalid_field_in_cdb, d)
      | some i ↦ elim (get_elem? d.zones i) [
        | none ↦ (check illegal_request asc_invalid_field_in_cdb, d)
        | some z ↦
            if is_conv z then (check illegal_request asc_invalid_field_in_cdb, d) else act i z
      ]
    ]

abbrev pub all_bit : List ℕ → Bool
all_bit cdb = byte cdb 14 % 2 == 1

abbrev pub closed_at : ZbcDev → ℕ → Bool
closed_at d i = elim (get_elem? d.zones i) [ none ↦ false | some z ↦ is_closed z ]

-- The number of closed zones, an unsigned int.
unfoldable pub nr_closed : ZbcDev → ℕ
nr_closed d = for_range d.nr_zones 0 (λ i n. if closed_at d i then (n + 1) % 2 ^ 32 else n) 0

abbrev pub open_if_closed : ℕ → ZbcDev → ZbcDev
open_if_closed i d = if closed_at d i then do_open_zone d i true else d

-- The branch of `zbc_open_zone` for all zones.
unfoldable pub open_all : ZbcDev → Reply × ZbcDev
open_all d =
    if ltb d.nr_open_zones (add32 d.nr_exp_open (nr_closed d))
    then (check data_protect asc_insufficient_zone_resources, d)
    else (sts_ok, for_range d.nr_zones 0 open_if_closed d)

-- The branch of `zbc_open_zone` for zone `i`.
unfoldable pub open_one : ZbcDev → ℕ → Zone → Reply × ZbcDev
open_one d i z =
    if is_exp_open z || is_full z
    then (sts_ok, d)
    else if ltb d.nr_open_zones (add32 d.nr_exp_open 1)
    then (check data_protect asc_insufficient_zone_resources, d)
    else (sts_ok, do_open_zone (if is_imp_open z then do_close_zone d i else d) i true)

-- `zbc_open_zone`
unfoldable pub open_zone : ZbcDev → List ℕ → Reply × ZbcDev
open_zone d cdb =
    if all_bit cdb then open_all d else on_zone d (cdb_get_lba cdb) (λ i z. open_one d i z)

abbrev pub close_each : ℕ → ZbcDev → ZbcDev
close_each i d = do_close_zone d i

-- `zbc_close_zone`
unfoldable pub close_zone : ZbcDev → List ℕ → Reply × ZbcDev
close_zone d cdb =
    if all_bit cdb
    then (sts_ok, for_range d.nr_zones 0 close_each d)
    else on_zone d (cdb_get_lba cdb) (λ i z. (sts_ok, do_close_zone d i))

abbrev pub finish_each : ℕ → ZbcDev → ZbcDev
finish_each i d = do_finish_zone d i false

-- `zbc_finish_zone`
unfoldable pub finish_zone : ZbcDev → List ℕ → Reply × ZbcDev
finish_zone d cdb =
    if all_bit cdb
    then (sts_ok, for_range d.nr_zones 0 finish_each d)
    else on_zone d (cdb_get_lba cdb) (λ i z. (sts_ok, do_finish_zone d i true))

abbrev pub reset_each : ℕ → ZbcDev → ZbcDev
reset_each i d = do_reset_wp d i

-- `zbc_reset_wp`
unfoldable pub reset_wp : ZbcDev → List ℕ → Reply × ZbcDev
reset_wp d cdb =
    if all_bit cdb
    then (sts_ok, for_range d.nr_zones 0 reset_each d)
    else on_zone d (cdb_get_lba cdb) (λ i z. (sts_ok, do_reset_wp d i))

-- `zbc_out`, with the service actions `ZBC_SA_CLOSE_ZONE` (1), `ZBC_SA_FINISH_ZONE` (2),
-- `ZBC_SA_OPEN_ZONE` (3) and `ZBC_SA_RESET_WP` (4).
unfoldable pub zbc_out : ZbcDev → List ℕ → Reply × ZbcDev
zbc_out d cdb =
    if byte cdb 1 == 0x01
    then close_zone d cdb
    else if byte cdb 1 == 0x02
    then finish_zone d cdb
    else if byte cdb 1 == 0x03
    then open_zone d cdb
    else if byte cdb 1 == 0x04
    then reset_wp d cdb
    else (check illegal_request asc_invalid_field_in_cdb, d)
