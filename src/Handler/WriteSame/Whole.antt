-- ===== src/Handler/WriteSame/Whole.antt =====
-- WRITE SAME from the command to its last write.
use tcmu_runner.Prelude.{
  ℕ, ◌+◌, ◌*◌, ◌-◌, ◌/◌, ◌%◌, ◌^◌, ◌≤◌, ◌<◌, ◌≡◌, ◌∙◌, sym, ap, subst, min, List, Bool, true, not,
  ◌&&◌, length, get_or, ◌==◌, if_ind, dec_le, ℕ_discrete, arith,
}
use native.Mathlib.Nat.{
  mul_assoc, zero-mul, mul-pos, mod-lt, div-add-mod', mul-le-mul_right, mod-eq_of_lt,
}
use tcmu_runner.Status.{Status, is_ok}
use tcmu_runner.Cdb.{byte, cdb_get_lba, cdb_get_xfer_length}
use tcmu_runner.Handler.{Device, lba_to_byte, byte_to_lba}
use tcmu_runner.Handler.Bits.{pow_pos}
use tcmu_runner.Handler.Sizes.{
  Fits, Fits-lbas, lba_to_byte-small, byte_to_lba-lba_to_byte, check_lbas-le,
}
use tcmu_runner.Handler.Unmap.{Answer, is_async}
use tcmu_runner.Handler.WriteSame.{
  handle_writesame_check, round_up, write_length, fill_buffer, write_chain, WriteReply,
  answers_with, unmaps, begins, handle_writesame,
}
use tcmu_runner.Handler.WriteSame.Chain.{
  ChainEnds, write_chain-ChainEnds, length-fill_buffer, get_or-fill_buffer,
}

-- What the device promises of its sizes: the block size is the power of two that the shift says, and the
-- longest transfer is not 0 and of fewer than 2 ^ 32 bytes.
abbrev pub Sized : Device → Type 0
Sized d =
    (d.block_size ≡ 2 ^ d.block_size_shift)
    × (0 < d.max_xfer_len)
    × (d.max_xfer_len * d.block_size < 2 ^ 32)

round_up-mul : (a b : ℕ) → a ≤ 2 ^ 32 → 0 < b → b < 2 ^ 32 → round_up a b ≡ (a + (b - 1)) / b * b
unfolding round_up
round_up-mul a b h p l =
    let e : (b + 2 ^ 64 - 1) % 2 ^ 64 ≡ b - 1 = omega arith in
    let f : (a + (b - 1)) % 2 ^ 64 ≡ a + (b - 1) = omega arith in
    rw (e, f) (mod-eq_of_lt (omega (arith, div-add-mod' (a + (b - 1)) b)))

min-mul : (a b k : ℕ) → min (a * k) (b * k) ≡ min a b * k
min-mul a b k = elim (dec_le a b) [
  | yes p ↦ let e : min a b ≡ a = omega arith in rw e (omega (arith, mul-le-mul_right k p))
  | no p ↦
      let q : b ≤ a = omega arith in
      let e : min a b ≡ b = omega arith in rw e (omega (arith, mul-le-mul_right k q))
]

-- The least multiple of `m` that is not below `a` is one of a positive number.
quotient_pos : (a m : ℕ) → 0 < a → 0 < m → 0 < (a + (m - 1)) / m
quotient_pos a m p q = elim (ℕ_discrete ((a + (m - 1)) / m) 0) [
  | yes z ↦
      let e = div-add-mod' (a + (m - 1)) m in
      let f : (a + (m - 1)) / m * m ≡ 0 = ap (λ x. x * m) z ∙ zero-mul m in
      absurd (omega (arith, e, f, mod-lt (a + (m - 1)) q))
  | no z ↦ omega arith
]

-- The writes are of whole blocks, and of one at least.
write_length-blocks :
    (d : Device) (cnt : ℕ)
    → Fits d
    → Sized d
    → cnt ≤ d.num_lbas
    → 0 < cnt
    → (n : ℕ) × (0 < n) × (n ≤ cnt) × (write_length d cnt ≡ lba_to_byte d n)
unfolding write_length
write_length-blocks d cnt fits (size, some_len, len) h p =
    let b = 2 ^ d.block_size_shift in
    let m = d.max_xfer_len * d.block_size in
    let pm : 0 < m =
      mul-pos some_len (subst (λ x. 0 < x) (sym size) (pow_pos d.block_size_shift)) in
    let q = (1024 * 1024 + (m - 1)) / m in
    let n = min (q * d.max_xfer_len) cnt in
    let r : round_up (1024 * 1024) (m % 2 ^ 32) ≡ q * d.max_xfer_len * b =
      ap (λ x. round_up (1024 * 1024) x) (mod-eq_of_lt len)
      ∙ round_up-mul (1024 * 1024) m (omega arith) pm len
      ∙ ap (λ x. q * (d.max_xfer_len * x)) size
      ∙ sym (mul_assoc q d.max_xfer_len b) in
    (
      n,
      omega (arith, p, mul-pos (quotient_pos (1024 * 1024) m (omega arith) pm) some_len),
      omega arith,
      (rw (r, lba_to_byte-small d cnt fits h, lba_to_byte-small d n fits (omega arith))
          (min-mul (q * d.max_xfer_len) cnt b)),
    )

check-le :
    (d : Device) (cdb : List ℕ) (iov_cnt iov_len : ℕ)
    → Fits d
    → cdb_get_lba cdb < 2 ^ 64
    → cdb_get_xfer_length cdb < 2 ^ 64
    → is_ok (handle_writesame_check d cdb iov_cnt iov_len) ≡ true
    → (0 < cdb_get_xfer_length cdb)
      × (cdb_get_lba cdb + cdb_get_xfer_length cdb ≤ d.num_lbas)
      × (iov_len ≡ d.block_size)
unfolding handle_writesame_check
check-le d cdb iov_cnt iov_len fits l m h = (
  ground arith,
  check_lbas-le d (cdb_get_lba cdb) (cdb_get_xfer_length cdb) (Fits-lbas d fits) l m (ground arith),
  ground arith,
)

-- What a WRITE SAME that begins comes to.
abbrev pub Writes : Device → List ℕ → List ℕ → (ℕ → Status × Status) → WriteReply → Type 0
Writes d cdb block results (answers_with s) = Unit
Writes d cdb block results (unmaps o) = Unit
Writes d cdb block results (begins buffer w) =
    ChainEnds d (cdb_get_lba cdb) (cdb_get_xfer_length cdb)
      (write_chain (cdb_get_xfer_length cdb + 1) d results 0 w)
    × (length buffer ≡ w.requested)
    × ((j : ℕ) → j < length buffer → get_or buffer j 0 ≡ get_or block (j % d.block_size) 0)

begins-Writes :
    (d : Device) (results : ℕ → Status × Status) (cdb block : List ℕ)
    → Fits d
    → Sized d
    → 0 < cdb_get_xfer_length cdb
    → cdb_get_lba cdb + cdb_get_xfer_length cdb ≤ d.num_lbas
    → length block ≡ d.block_size
    → Writes d cdb block results (
        begins
          (fill_buffer (byte_to_lba d (write_length d (cdb_get_xfer_length cdb))) block)
          (record {
            cur_lba = cdb_get_lba cdb;
            lba_cnt = cdb_get_xfer_length cdb;
            requested = write_length d (cdb_get_xfer_length cdb);
          }))
begins-Writes d results cdb block fits sized p h l =
    let (n, pn, small, e) =
      write_length-blocks d (cdb_get_xfer_length cdb) fits sized (omega arith) p in
    let c = byte_to_lba-lba_to_byte d n fits (omega arith) in
    rw (e, c)
      (
        write_chain-ChainEnds (cdb_get_xfer_length cdb + 1) d results 0 (cdb_get_lba cdb)
            (cdb_get_xfer_length cdb) n fits h pn small (omega arith),
        length-fill_buffer n block
            ∙ ap (λ x. n * x) (l ∙ sized.0)
            ∙ sym (lba_to_byte-small d n fits (omega arith)),
        λ j q.
            get_or-fill_buffer n block j 0 (subst (λ x. j < x) (length-fill_buffer n block) q)
            ∙ ap (λ x. get_or block (j % x) 0) l,
      )

-- A WRITE SAME on a device whose last byte has a 64-bit offset, whose block size is a power of two and
-- whose longest transfer is not 0 and is below 2 ^ 32 bytes: if it begins to write, then whatever the
-- writes and the scheduler answer, the chain of writes ends; the writes are of the first blocks of the
-- range of the command, each byte once and in order, and of all of them if the command is finished
-- with TCMU_STS_OK. The buffer is as long as the first write, and repeats the block of the command.
pub handle_writesame-Writes :
    (d : Device) (has_unmap : Bool) (answers : ℕ → Answer) (init : Status) (state_ok : Bool)
    (rc : Status) (cdb : List ℕ) (iov_cnt : ℕ) (block : List ℕ) (results : ℕ → Status × Status)
    → Fits d
    → Sized d
    → cdb_get_lba cdb < 2 ^ 64
    → cdb_get_xfer_length cdb < 2 ^ 64
    → Writes d cdb block results
        (handle_writesame d has_unmap answers init state_ok rc cdb iov_cnt block)
unfolding handle_writesame
handle_writesame-Writes d has_unmap answers init state_ok rc cdb iov_cnt block results fits sized l
      m =
    let P = Writes d cdb block results in
    if_ind P (not (is_ok (handle_writesame_check d cdb iov_cnt (length block)))) (λ _. tt)
      (λ e.
        if_ind P (has_unmap && byte cdb 1 / 8 % 2 == 1) (λ _. tt)
          (λ _.
            if_ind P (not state_ok) (λ _. tt)
              (λ _.
                if_ind P (is_async rc)
                  (λ _.
                    let (p, h, q) =
                      check-le d cdb iov_cnt (length block) fits l m (ground (arith, e)) in
                    begins-Writes d results cdb block fits sized p h q)
                  (λ _. tt))))
