-- ===== src/Zbc/Write.antt =====
-- Writing to the zoned device: `zbc_check_rdwr`, `zbc_write_check_zones` and `zbc_write`.
-- `pwrite` is the system call, a parameter: at an offset and a count of bytes it gives `none` for a
-- result that is not positive, or the number of bytes written. The backstore file is a function from
-- offsets to bytes; `meta_size` is where its data begins.
pub mod Zones
pub mod Check
pub mod Pointer
mod Bytes
pub mod Loop
mod Facts
pub mod Rounds
pub mod Ends
pub mod Whole
use tcmu_runner.Prelude.{
  ℕ, zero, suc, ◌+◌, ◌-◌, ◌*◌, ◌/◌, ◌%◌, ◌^◌, Bool, true, false, not, ◌&&◌, ◌||◌, List, [], ◌∷◌,
  Option, none, some, get_elem?, get_or, take, drop, min, ltb, leb, ◌==◌, if◌then◌else◌,
}
use tcmu_runner.Cdb.{byte, cdb_get_lba, cdb_get_xfer_length}
use tcmu_runner.Iovec.{Iovec, iov_len, iovec_length, iovec_seek}
use tcmu_runner.Zbc.{
  ZoneType, conventional, seqwrite_req, seqwrite_pref, other_type, full, Zone, ZbcDev, is_conv,
  is_seq, is_seq_req, is_seq_pref, is_full, is_open, add64, with_zone, put_zone, do_close_zone,
  do_open_zone,
}
use tcmu_runner.Zbc.Commands.{
  Reply, sts_ok, check, medium_error, hardware_error, illegal_request, data_protect, get_zone,
  asc_lba_out_of_range, asc_invalid_field_in_cdb, asc_internal_target_failure,
  asc_unaligned_write_command, asc_write_boundary_violation, asc_insufficient_zone_resources,
  asc_write_error,
}

abbrev pub sub64 : ℕ → ℕ → ℕ
sub64 a b = (a + 2 ^ 64 - b) % 2 ^ 64

-- `zbc_check_rdwr`, given the LBA, the transfer length and the length of the vector.
unfoldable pub check_rdwr : ZbcDev → ℕ → ℕ → ℕ → Reply
check_rdwr d lba nr_lbas length =
    if not (length == nr_lbas * d.lba_size % 2 ^ 64)
    then check hardware_error asc_internal_target_failure
    else if ltb d.capacity (add64 lba nr_lbas) || ltb (add64 lba nr_lbas) lba
    then check illegal_request asc_lba_out_of_range
    else sts_ok

-- The zone's end, `zone->start + zone->len`.
abbrev pub zone_end : Zone → ℕ
zone_end z = add64 z.start z.len

-- The zone types as the codes that `zone_type` holds, which is 0 before the first zone.
abbrev pub type_code : ZoneType → ℕ
type_code conventional = 1
type_code seqwrite_req = 2
type_code seqwrite_pref = 3
type_code (other_type n) = n

-- The tests of one round of `zbc_write_check_zones`; `none` lets the loop go on.
unfoldable pub zone_fault : Zone → ℕ → ℕ → ℕ → Option Reply
zone_fault z zone_type nr_lbas lba =
    if not (type_code z.type == (if zone_type == 0 then type_code z.type else zone_type))
    then some (check illegal_request asc_write_boundary_violation)
    else if is_full z
    then some (check illegal_request asc_invalid_field_in_cdb)
    else if is_seq_req z && not (lba == z.wp)
    then some (check illegal_request asc_unaligned_write_command)
    else if is_seq_req z && ltb (zone_end z) (add64 lba nr_lbas)
    then some (check illegal_request asc_write_boundary_violation)
    else none

-- How many blocks of a transfer lie in the zone of its first block.
abbrev pub in_zone : Zone → ℕ → ℕ → ℕ
in_zone z lba nr_lbas =
    if ltb (zone_end z) (add64 lba nr_lbas) then sub64 (zone_end z) lba else nr_lbas

-- The loop of `zbc_write_check_zones`, on fuel; `none` says that the fuel ran out.
unfoldable pub check_zones : ℕ → ZbcDev → ℕ → ℕ → ℕ → Option Reply
check_zones zero d zone_type nr_lbas lba = none
check_zones (suc fuel) d zone_type nr_lbas lba = elim (nr_lbas == 0) [
  | true ↦ some sts_ok
  | false ↦ elim (get_zone d lba false) [
    | none ↦ some (check hardware_error asc_internal_target_failure)
    | some i ↦ elim (get_elem? d.zones i) [
      | none ↦ some (check hardware_error asc_internal_target_failure)
      | some z ↦ elim (zone_fault z zone_type nr_lbas lba) [
        | some r ↦ some r
        | none ↦
            check_zones fuel d (if zone_type == 0 then type_code z.type else zone_type)
              (sub64 nr_lbas (in_zone z lba nr_lbas)) (add64 lba (in_zone z lba nr_lbas))
      ]
    ]
  ]
]

-- What `zbc_write` does to the write pointer after `count` blocks at `lba`.
abbrev pub adjusted : Zone → ℕ → ℕ → Zone
adjusted z lba count =
    if is_seq_req z
    then record z { wp = add64 z.wp count }
    else if is_seq_pref z && leb z.wp (add64 lba count)
    then record z { wp = add64 lba count }
    else z

-- The zone is full once its pointer has reached its end.
unfoldable pub fill_up : ZbcDev → ℕ → ZbcDev
fill_up d i = with_zone d i λ z. put_zone d i (record z { wp = zone_end z; cond = full })

unfoldable pub settle_write : ZbcDev → ℕ → ℕ → ℕ → ZbcDev
settle_write d i lba count = with_zone d i λ z.
    let z1 = adjusted z lba count in
    let d1 = put_zone d i z1 in
    if is_seq z1 && leb (zone_end z1) z1.wp
    then fill_up (if is_open z1 then do_close_zone d1 i else d1) i
    else d1

abbrev pub Disk : Type 0
Disk = ℕ → ℕ

-- The file after a write of some bytes at an offset.
abbrev pub store : Disk → ℕ → List ℕ → Disk
store disk offset [] = disk
store disk offset (b ∷ bytes) = λ o. if o == offset then b else store disk (offset + 1) bytes o

pub record WriteState : Type 0 where
  pub dev : ZbcDev
  pub disk : Disk
  pub iovec : List Iovec
  pub lba : ℕ
  pub nr_lbas : ℕ

-- A round ends the command, or the loop goes on; `crash` is an access outside the zones or the vector.
pub data Next : Type 0 where
  stop : Reply → WriteState → Next
  next : WriteState → Next
  crash : Next

module _ (pwrite : ℕ → ℕ → Option ℕ) (meta_size : ℕ) where
  -- From the system call to the end of the round, in zone `i`; `v` is the first vector.
  unfoldable pub transfer : WriteState → ℕ → Zone → Iovec → List Iovec → Next
  transfer s i z v vs =
      let offset = (meta_size + s.lba * s.dev.lba_size) % 2 ^ 64 in
      let count = min (in_zone z s.lba s.nr_lbas) (iov_len v / s.dev.lba_size) in
      elim (pwrite offset (count * s.dev.lba_size)) [
        | none ↦ stop (check medium_error asc_write_error) s
        | some ret ↦ elim (iovec_seek (v ∷ vs) ret) [
          | none ↦ crash
          | some (consumed, ws) ↦ next (record s {
            dev = settle_write s.dev i s.lba (ret / s.dev.lba_size);
            disk = store s.disk offset (take ret v.window);
            iovec = drop consumed ws;
            lba = add64 s.lba (ret / s.dev.lba_size);
            nr_lbas = sub64 s.nr_lbas (ret / s.dev.lba_size);
          })
        ]
      ]

  -- The same, once the zone is open and the vector known not to be at its end.
  abbrev pub transfer_at : WriteState → ℕ → Next
  transfer_at s i = elim (get_elem? s.dev.zones i) [
    | none ↦ crash
    | some z ↦ elim s.iovec [ [] ↦ crash | v ∷ vs ↦ transfer s i z v vs ]
  ]

  -- A round of the loop of `zbc_write`.
  unfoldable pub write_once : WriteState → Next
  write_once s = elim (get_zone s.dev s.lba false) [
    | none ↦ crash
    | some i ↦ elim (get_elem? s.dev.zones i) [
      | none ↦ crash
      | some z ↦
          if ltb (zone_end z) (add64 s.lba s.nr_lbas)
          then stop (check illegal_request asc_write_boundary_violation) s
          else if is_seq z && not (is_open z)
          then (if leb s.dev.nr_open_zones s.dev.nr_exp_open
              then stop (check data_protect asc_insufficient_zone_resources) s
              else transfer_at (record s { dev = do_open_zone s.dev i false }) i)
          else transfer_at s i
    ]
  ]

  -- The loop, on fuel; `none` says that the fuel ran out or the code crashed.
  unfoldable pub write_loop : ℕ → WriteState → Option (Reply × WriteState)
  write_loop zero s = none
  write_loop (suc fuel) s = elim (s.nr_lbas == 0) [
    | true ↦ some (sts_ok, s)
    | false ↦ elim (write_once s) [
      | stop r s' ↦ some (r, s')
      | next s' ↦ write_loop fuel s'
      | crash ↦ none
    ]
  ]

  -- `zbc_write`. A transfer of n blocks takes at most n rounds of each loop.
  unfoldable pub zbc_write : ZbcDev → Disk → List ℕ → List Iovec → Option (Reply × WriteState)
  zbc_write d disk cdb iovec =
      let lba = cdb_get_lba cdb in
      let nr_lbas = cdb_get_xfer_length cdb in
      let s : WriteState = record {
        dev = d;
        disk = disk;
        iovec = iovec;
        lba = lba;
        nr_lbas = nr_lbas;
      } in
      elim (check_rdwr d lba nr_lbas (iovec_length iovec)) [
        | sts_ok ↦ elim (check_zones (nr_lbas + 1) d 0 nr_lbas lba) [
          | none ↦ none
          | some sts_ok ↦ write_loop (nr_lbas + 1) s
          | some r ↦ some (r, s)
        ]
        | r ↦ some (r, s)
      ]
