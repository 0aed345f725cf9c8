-- ===== src/Handler/Xcopy/Whole.antt =====
-- EXTENDED COPY from the parameter list to the last write.
use tcmu_runner.Prelude.{
  ℕ, suc, ◌+◌, ◌%◌, ◌^◌, ◌≤◌, ◌<◌, ◌≡◌, refl, subst, min, List, Bool, false, not, ◌||◌, Option,
  none, some, drop, ltb, ◌==◌, if_ind, dec_lt, ◌∙◌, ◌/◌, sym, arith,
}
use native.Mathlib.Nat.{pow-le-pow_right}
use tcmu_runner.Handler.Bits.{pow_pos}
use tcmu_runner.Status.{Status, is_ok}
use tcmu_runner.Cdb.{byte, cdb_get_xfer_length, get_unaligned_be16, raw_get_unaligned_be32}
use tcmu_runner.Handler.{Device}
use tcmu_runner.Handler.Sizes.{Fits}
use tcmu_runner.Handler.Unmap.{is_async}
use tcmu_runner.Handler.Xcopy.{
  Xcopy, CopyRound, first_round, begin_xcopy, handle_xcopy, copy_chain, CopyReply, answers_with,
  faults, begins,
}
use tcmu_runner.Handler.Xcopy.Copies.{CopyEnds, copy_chain-CopyEnds}
use tcmu_runner.Handler.Xcopy.Naa.{Target}
use tcmu_runner.Handler.Xcopy.Parse.{
  Params, Segment, bad_segment, segment, parse_segment_descs, TargetEnds, parse_target_descs,
  Parsed, refused, crashed, accepted, check_devices, check_pair, check_ends, parse_targets,
  parse_descs, parse_parameter_list,
}

-- What was checked of the devices and of the ranges. The sums wrap at 2 ^ 64.
abbrev Checked : Parsed → Type 0
Checked (refused s) = Unit
Checked crashed = Unit
Checked (accepted src dst p) =
    (src.block_size ≡ dst.block_size)
    × ((p.src_lba + p.lba_cnt) % 2 ^ 64 ≤ src.num_lbas)
    × ((p.dst_lba + p.lba_cnt) % 2 ^ 64 ≤ dst.num_lbas)

check_devices-Checked : (src dst : Device) (p : Params) → Checked (check_devices src dst p)
unfolding check_devices
check_devices-Checked src dst p =
    if_ind Checked (not (src.block_size == dst.block_size)) (λ _. tt)
      (λ a.
        if_ind Checked (ltb src.num_lbas ((p.src_lba + p.lba_cnt) % 2 ^ 64)) (λ _. tt)
          (λ b.
            if_ind Checked (ltb dst.num_lbas ((p.dst_lba + p.lba_cnt) % 2 ^ 64)) (λ _. tt)
              (λ c. (ground (arith, a), ground (arith, b), ground (arith, c)))))

check_pair-Checked : (s t : Option Target) (p : Params) → Checked (check_pair s t p)
unfolding check_pair
check_pair-Checked none t p = tt
check_pair-Checked (some s) none p = tt
check_pair-Checked (some s) (some t) p = check_devices-Checked s.device t.device p

check_ends-Checked : (e : TargetEnds) (p : Params) → Checked (check_ends e p)
unfolding check_ends
check_ends-Checked e p = check_pair-Checked e.src_dev e.dst_dev p

parse_targets-Checked :
    (ctx : List Target) (udev : Target) (par : List ℕ) (tdll : ℕ) (x : Segment)
    → Checked (parse_targets ctx udev par tdll x)
unfolding parse_targets
parse_targets-Checked ctx udev par tdll (bad_segment s) = tt
parse_targets-Checked ctx udev par tdll (segment p) =
    let r = parse_target_descs ctx udev p (drop 16 par) tdll in
    if_ind Checked (is_ok r.0) (λ _. check_ends-Checked r.1 p) (λ _. tt)

parse_descs-Checked :
    (ctx : List Target) (udev : Target) (par : List ℕ) (tdll sdll : ℕ)
    → Checked (parse_descs ctx udev par tdll sdll)
unfolding parse_descs
parse_descs-Checked ctx udev par tdll sdll =
    parse_targets-Checked ctx udev par tdll (parse_segment_descs (drop (16 + tdll) par) sdll)

parse_parameter_list-Checked :
    (ctx : List Target) (udev : Target) (data_length : ℕ) (par_ok : Bool) (par : List ℕ)
    → Checked (parse_parameter_list ctx udev data_length par_ok par)
unfolding parse_parameter_list
parse_parameter_list-Checked ctx udev data_length par_ok par =
    let tdll = get_unaligned_be16 par 2 in
    let sdll = raw_get_unaligned_be32 par 8 % 2 ^ 16 in
    if_ind Checked (not par_ok) (λ _. tt)
      (λ _.
        if_ind Checked (not (byte par 1 / 8 % 4 == 3) || not (byte par 0 == 0)) (λ _. tt)
          (λ _.
            if_ind Checked (ltb tdll 32 || not (tdll % 32 == 0)) (λ _. tt)
              (λ _.
                if_ind Checked (ltb sdll 8) (λ _. tt)
                  (λ _.
                    if_ind Checked (ltb 1024 (tdll + sdll)) (λ _. tt)
                      (λ _.
                        if_ind Checked
                          (ltb data_length
                            ((16 + tdll + sdll + raw_get_unaligned_be32 par 12) % 2 ^ 32))
                          (λ _. tt) (λ _. parse_descs-Checked ctx udev par tdll sdll))))))

-- What a copy that begins begins with.
abbrev Began : CopyReply → Type 0
Began (answers_with s) = Unit
Began faults = Unit
Began (begins src dst x) =
    (p : Params) × (x ≡ first_round src dst p)
    × (0 < p.lba_cnt)
    × (src.block_size ≡ dst.block_size)
    × ((p.src_lba + p.lba_cnt) % 2 ^ 64 ≤ src.num_lbas)
    × ((p.dst_lba + p.lba_cnt) % 2 ^ 64 ≤ dst.num_lbas)

begin_xcopy-Began :
    (parsed : Parsed) (state_ok : Bool) (rc : Status)
    → Checked parsed
    → Began (begin_xcopy parsed state_ok rc)
unfolding begin_xcopy
begin_xcopy-Began (refused s) state_ok rc h = tt
begin_xcopy-Began crashed state_ok rc h = tt
begin_xcopy-Began (accepted src dst p) state_ok rc (a, b, c) =
    if_ind Began (p.lba_cnt == 0) (λ _. tt)
      (λ z.
        if_ind Began (not state_ok) (λ _. tt)
          (λ _. if_ind Began (is_async rc) (λ _. (p, refl, ground (arith, z), a, b, c)) (λ _. tt)))

handle_xcopy-Began :
    (cdb : List ℕ) (parsed : Parsed) (state_ok : Bool) (rc : Status)
    → Checked parsed
    → Began (handle_xcopy cdb parsed state_ok rc)
unfolding handle_xcopy
handle_xcopy-Began cdb parsed state_ok rc h =
    if_ind Began (not (byte cdb 1 % 32 == 0)) (λ _. tt)
      (λ _.
        if_ind Began (cdb_get_xfer_length cdb == 0) (λ _. tt)
          (λ _.
            if_ind Began (ltb (cdb_get_xfer_length cdb) 16) (λ _. tt)
              (λ _. begin_xcopy-Began parsed state_ok rc h)))

pow_mono : (a b : ℕ) → a < b → 2 ^ a < 2 ^ b
pow_mono a b h =
    omega (arith, pow-le-pow_right {n = 2} (omega arith) {i = suc a} {j = b} h, pow_pos a)

pow-injective : (a b : ℕ) → 2 ^ a ≡ 2 ^ b → a ≡ b
pow-injective a b e = elim (dec_lt a b) [
  | yes p ↦ absurd (omega (arith, pow_mono a b p, e))
  | no p ↦ elim (dec_lt b a) [
    | yes q ↦ absurd (omega (arith, pow_mono b a q, e))
    | no q ↦ omega arith
  ]
]

-- An EXTENDED COPY that begins, of whose parameter list the ends of the two ranges do not pass 2 ^ 64,
-- between devices whose block size is the power of two that the shift says and whose last byte has a
-- 64-bit offset, and which allow for copies of some blocks. Unless the scheduler returns
-- TCMU_STS_OK, the chain of reads and writes ends, whatever they return. The reads are of the first
-- blocks of the source's range and the writes of the first blocks of the destination's, each byte once
-- and in order; of all blocks, if the command is finished with TCMU_STS_OK.
pub handle_xcopy-copies :
    (cdb : List ℕ) (ctx : List Target) (udev : Target) (par_ok : Bool) (par : List ℕ)
    (state_ok : Bool) (rc : Status) (src dst : Device) (x : Xcopy) (rounds : ℕ → CopyRound)
    → handle_xcopy cdb
        (parse_parameter_list ctx udev (cdb_get_xfer_length cdb) par_ok par)
        state_ok
        rc
      ≡ begins src dst x
    → Fits src
    → Fits dst
    → src.block_size ≡ 2 ^ src.block_size_shift
    → dst.block_size ≡ 2 ^ dst.block_size_shift
    → 0 < src.opt_xcopy_rw_len
    → 0 < dst.opt_xcopy_rw_len
    → x.src_lba + x.lba_cnt < 2 ^ 64
    → x.dst_lba + x.lba_cnt < 2 ^ 64
    → x.lba_cnt < 2 ^ 32
    → ((j : ℕ) → is_ok (rounds j).to_write ≡ false)
    → ((j : ℕ) → is_ok (rounds j).to_read ≡ false)
    → CopyEnds src dst x.src_lba x.dst_lba x.lba_cnt (copy_chain (x.lba_cnt + 1) src dst rounds 0 x)
unfolding first_round
handle_xcopy-copies cdb ctx udev par_ok par state_ok rc src dst x rounds e fs fd bs bd os od s t c a
      b =
    let (p, q, n, same, ss, dd) = subst Began e (
      handle_xcopy-Began cdb _ state_ok rc
        (parse_parameter_list-Checked ctx udev (cdb_get_xfer_length cdb) par_ok par)) in
    let shifts : src.block_size_shift ≡ dst.block_size_shift =
      pow-injective src.block_size_shift dst.block_size_shift (sym bs ∙ same ∙ bd) in
    let s' : p.src_lba + p.lba_cnt < 2 ^ 64 = subst (λ y. y.src_lba + y.lba_cnt < 2 ^ 64) q s in
    let t' : p.dst_lba + p.lba_cnt < 2 ^ 64 = subst (λ y. y.dst_lba + y.lba_cnt < 2 ^ 64) q t in
    let c' : p.lba_cnt < 2 ^ 32 = subst (λ y. y.lba_cnt < 2 ^ 32) q c in
    subst
      (λ y.
        CopyEnds src dst y.src_lba y.dst_lba y.lba_cnt
          (copy_chain (y.lba_cnt + 1) src dst rounds 0 y))
      (sym q)
      (copy_chain-CopyEnds src dst fs fd shifts (p.lba_cnt + 1) rounds 0 p.src_lba p.dst_lba
        p.lba_cnt (min (min src.opt_xcopy_rw_len dst.opt_xcopy_rw_len) p.lba_cnt) a b (omega arith)
        (omega arith) c' (omega arith) (omega arith) (omega arith))
