-- ===== src/Handler/Xcopy/Parse.antt =====
-- The parameter list of an EXTENDED COPY, tcmur_cmd_handler.c: `xcopy_parse_segment_descs`,
-- `xcopy_parse_target_id`, `xcopy_parse_target_descs` and `xcopy_parse_parameter_list`.
use tcmu_runner.Prelude.{
  ℕ, zero, suc, ◌+◌, ◌*◌, ◌/◌, ◌%◌, ◌^◌, List, Bool, not, ◌||◌, Option, none, some, replicate, take,
  drop, ltb, ◌==◌, if◌then◌else◌,
}
use tcmu_runner.Status.{
  Status, ok, hw_err, no_resource, range, invalid_param_list, invalid_param_list_len,
  notsupp_seg_desc_type, notsupp_tgt_desc_type, too_many_seg_desc, too_many_tgt_desc,
  cp_tgt_dev_notconn, invalid_cp_tgt_dev_type, is_ok,
}
use tcmu_runner.Cdb.{byte, get_unaligned_be16, raw_get_unaligned_be32, get_be64}
use tcmu_runner.Handler.{Device}
use tcmu_runner.Handler.Xcopy.Naa.{Target, gen_naa_ieee, same_bytes, locate_udev}

-- What `struct xcopy` holds once the segment descriptor is read.
pub record Params : Type 0 where
  pub stdi : ℕ
  pub dtdi : ℕ
  pub src_lba : ℕ
  pub dst_lba : ℕ
  pub lba_cnt : ℕ

pub data Segment : Type 0 where
  bad_segment : Status → Segment
  segment : Params → Segment

-- `xcopy_parse_segment_descs` of the bytes at `seg_desc`; `sdll` is a uint8_t, and `desc_len` too.
unfoldable pub parse_segment_descs : List ℕ → ℕ → Segment
unfolding get_unaligned_be16 get_be64
parse_segment_descs seg sdll =
    let len = sdll % 2 ^ 8 in
    if not (len % 28 == 0)
    then bad_segment invalid_param_list
    else if ltb 28 len
    then bad_segment too_many_seg_desc
    else if not (byte seg 0 == 0x02)
    then bad_segment notsupp_seg_desc_type
    else if not (get_unaligned_be16 seg 2 % 2 ^ 8 == 0x18)
    then bad_segment invalid_param_list
    else segment (record {
      stdi = get_unaligned_be16 seg 4;
      dtdi = get_unaligned_be16 seg 6;
      src_lba = get_be64 seg 12;
      dst_lba = get_be64 seg 20;
      lba_cnt = get_unaligned_be16 seg 10;
    })

-- The fields of `struct xcopy` that the target descriptors set; `none` is a NULL device.
pub record TargetEnds : Type 0 where
  pub src_dev : Option Target
  pub src_tid : List ℕ
  pub dst_dev : Option Target
  pub dst_tid : List ℕ

abbrev pub no_ends : TargetEnds
no_ends = record {
  src_dev = none;
  src_tid = replicate 16 0;
  dst_dev = none;
  dst_tid = replicate 16 0;
}

-- The designators of `xcopy_parse_target_id`, given the WWN of the command's device.
unfoldable pub source_end : Target → List ℕ → List ℕ → TargetEnds → TargetEnds
unfolding same_bytes
source_end udev wwn tid e =
    let e1 = record e { src_tid = tid } in
    if same_bytes wwn tid then record e1 { src_dev = some udev } else e1

unfoldable pub dest_end : Target → List ℕ → List ℕ → TargetEnds → TargetEnds
unfolding same_bytes
dest_end udev wwn tid e =
    let e1 = record e { dst_tid = tid } in
    if same_bytes wwn tid then record e1 { dst_dev = some udev } else e1

-- `xcopy_parse_target_id` of the descriptor `tgt`, which is the one with the number `index`.
unfoldable pub parse_target_id : Target → Params → List ℕ → ℕ → TargetEnds → Status × TargetEnds
unfolding gen_naa_ieee source_end dest_end
parse_target_id udev p tgt index e = elim (gen_naa_ieee udev) [
  | none ↦ (hw_err, e)
  | some wwn ↦
      if not (byte tgt 4 % 16 == 0x1)
        || not (byte tgt 5 / 16 % 4 == 0)
        || not (byte tgt 5 % 16 == 0x3)
        || not (byte tgt 7 == 16)
        || not (byte tgt 8 / 2 ^ 4 == 0x06)
      then (invalid_param_list, e)
      else let tid = take 16 (drop 8 tgt) in
        let e1 = if index == p.stdi then source_end udev wwn tid e else e in
        (ok, if index == p.dtdi then dest_end udev wwn tid e1 else e1)
]

-- The loop of `xcopy_parse_target_descs` over `n` descriptors.
unfoldable pub target_loop : ℕ → Target → Params → List ℕ → ℕ → TargetEnds → Status × TargetEnds
unfolding parse_target_id
target_loop zero udev p tgt i e = (ok, e)
target_loop (suc n) udev p tgt i e =
    let r = parse_target_id udev p tgt i e in
    let rest = target_loop n udev p (drop 32 tgt) (i + 1) r.1 in
    if byte tgt 0 == 0xe4 then (if is_ok r.0 then rest else r) else (notsupp_tgt_desc_type, e)

-- The other device: `none` is a device that is not found.
unfoldable pub locate_other : List Target → TargetEnds → Option TargetEnds
unfolding locate_udev
locate_other ctx e = elim e.src_dev [
  | some t ↦ elim (locate_udev ctx e.dst_tid) [
    | none ↦ none
    | some u ↦ some (record e { dst_dev = some u })
  ]
  | none ↦ elim e.dst_dev [
    | none ↦ some e
    | some t ↦ elim (locate_udev ctx e.src_tid) [
      | none ↦ none
      | some u ↦ some (record e { src_dev = some u })
    ]
  ]
]

-- `xcopy_parse_target_descs`
unfoldable pub parse_target_descs : List Target → Target → Params → List ℕ → ℕ → Status × TargetEnds
unfolding target_loop locate_other
parse_target_descs ctx udev p tgt tdll =
    let r = target_loop 2 udev p tgt 0 no_ends in
    if ltb (2 * 32) tdll
    then (too_many_tgt_desc, no_ends)
    else if not (is_ok r.0)
    then r
    else elim (locate_other ctx r.1) [ none ↦ (cp_tgt_dev_notconn, r.1) | some e ↦ (ok, e) ]

-- How `xcopy_parse_parameter_list` ends: with an error, by the use of a NULL device, or with the two
-- devices and what is to be copied.
pub data Parsed : Type 0 where
  refused : Status → Parsed
  crashed : Parsed
  accepted : Device → Device → Params → Parsed

-- The checks of `xcopy_parse_parameter_list` on the devices.
unfoldable pub check_devices : Device → Device → Params → Parsed
check_devices src dst p =
    if not (src.block_size == dst.block_size)
    then refused invalid_cp_tgt_dev_type
    else if ltb src.num_lbas ((p.src_lba + p.lba_cnt) % 2 ^ 64)
    then refused range
    else if ltb dst.num_lbas ((p.dst_lba + p.lba_cnt) % 2 ^ 64)
    then refused range
    else accepted src dst p

-- The end of `xcopy_parse_parameter_list`, for the devices that the targets name.
unfoldable pub check_pair : Option Target → Option Target → Params → Parsed
unfolding check_devices
check_pair none t p = crashed
check_pair (some s) none p = crashed
check_pair (some s) (some t) p = check_devices s.device t.device p

unfoldable pub check_ends : TargetEnds → Params → Parsed
unfolding check_pair
check_ends e p = check_pair e.src_dev e.dst_dev p

-- `xcopy_parse_parameter_list` behind the segment descriptor.
unfoldable pub parse_targets : List Target → Target → List ℕ → ℕ → Segment → Parsed
unfolding parse_target_descs check_ends
parse_targets ctx udev par tdll (bad_segment s) = refused s
parse_targets ctx udev par tdll (segment p) =
    let r = parse_target_descs ctx udev p (drop 16 par) tdll in
    if is_ok r.0 then check_ends r.1 p else refused r.0

-- `xcopy_parse_parameter_list` behind the checks of the header.
unfoldable pub parse_descs : List Target → Target → List ℕ → ℕ → ℕ → Parsed
unfolding parse_segment_descs parse_targets
parse_descs ctx udev par tdll sdll =
    parse_targets ctx udev par tdll (parse_segment_descs (drop (16 + tdll) par) sdll)

-- `xcopy_parse_parameter_list`, given the length in the CDB, whether the buffer could be allocated, and
-- the bytes copied to it; behind them it holds zeros. `sdll` is a uint16_t, and the sum of the lengths
-- is one of 32 bits.
unfoldable pub parse_parameter_list : List Target → Target → ℕ → Bool → List ℕ → Parsed
unfolding parse_descs get_unaligned_be16 raw_get_unaligned_be32
parse_parameter_list ctx udev data_length par_ok par =
    let tdll = get_unaligned_be16 par 2 in
    let sdll = raw_get_unaligned_be32 par 8 % 2 ^ 16 in
    let inline_dl = raw_get_unaligned_be32 par 12 in
    if not par_ok
    then refused no_resource
    else if not (byte par 1 / 8 % 4 == 3) || not (byte par 0 == 0)
    then refused invalid_param_list
    else if ltb tdll 32 || not (tdll % 32 == 0)
    then refused invalid_param_list_len
    else if ltb sdll 8
    then refused invalid_param_list_len
    else if ltb 1024 (tdll + sdll)
    then refused invalid_param_list_len
    else if ltb data_length ((16 + tdll + sdll + inline_dl) % 2 ^ 32)
    then refused invalid_param_list_len
    else parse_descs ctx udev par tdll sdll
