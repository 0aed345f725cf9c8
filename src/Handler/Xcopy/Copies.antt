-- ===== src/Handler/Xcopy/Copies.antt =====
-- The reads and the writes of an EXTENDED COPY.
use tcmu_runner.Prelude.{
  ℕ, zero, suc, ◌+◌, ◌*◌, ◌-◌, ◌%◌, ◌^◌, ◌≤◌, ◌<◌, ◌≡◌, refl, sym, ap, subst, min, false, not,
  Option, some, ◌==◌, if_ind, arith,
}
use tcmu_runner.Status.{Status, ok, is_ok}
use tcmu_runner.Handler.{Device, lba_to_byte}
use tcmu_runner.Handler.Sizes.{Fits, Fits-lbas}
use tcmu_runner.Handler.Covers.{Covers, Covers-none, Covers-one, Covers-after, blocks}
use tcmu_runner.Handler.Unmap.{is_async}
use tcmu_runner.Handler.Xcopy.{
  Xcopy, CopyRound, xcopy_read_work, xcopy_write_work, CopyNext, finishes, handle_xcopy_read_cbk,
  handle_xcopy_write_cbk, CopiedRanges, after_both, written, have_read, copy_chain,
}

-- The copy ends; its reads are of the first blocks of the source and its writes of the first blocks of
-- the destination; of all, if it ends well.
abbrev pub CopyEnds : Device → Device → ℕ → ℕ → ℕ → Option CopiedRanges → Type 0
CopyEnds src dst s t cnt o =
    (c : CopiedRanges) × (o ≡ some c)
    × Covers src s cnt c.reads (c.ret ≡ ok)
    × Covers dst t cnt c.writes (c.ret ≡ ok)

-- A copy between devices with the same block size.
abbrev pub round_at : Device → ℕ → ℕ → ℕ → ℕ → Xcopy
round_at src s t cnt n = record {
  src_lba = s;
  dst_lba = t;
  lba_cnt = cnt;
  copy_lbas = n;
  requested = lba_to_byte src n;
}

same_size :
    (src dst : Device) (n : ℕ)
    → src.block_size_shift ≡ dst.block_size_shift
    → lba_to_byte src n ≡ lba_to_byte dst n
unfolding lba_to_byte
same_size src dst n e = ap (λ k. n * 2 ^ k % 2 ^ 64) e

module _ (src dst : Device) (fits_src : Fits src) (fits_dst : Fits dst)
    (same : src.block_size_shift ≡ dst.block_size_shift) where
  CopyEnds-after :
      (s t cnt n : ℕ) (o : Option CopiedRanges)
      → s + cnt ≤ src.num_lbas
      → t + cnt ≤ dst.num_lbas
      → n ≤ cnt
      → CopyEnds src dst (s + n) (t + n) (cnt - n) o
      → CopyEnds src dst s t cnt (after_both (blocks src s n) (blocks dst t n) o)
  CopyEnds-after s t cnt n o h k l (c, e, r, w) = (
    _,
    ap (after_both (blocks src s n) (blocks dst t n)) e,
    Covers-after src s cnt n c.reads (c.ret ≡ ok) fits_src h l r,
    Covers-after dst t cnt n c.writes (c.ret ≡ ok) fits_dst k l w,
  )

  CopyEnds-last :
      (s t cnt n : ℕ) (ret : Status) (rest : Xcopy → Option CopiedRanges)
      → n ≤ cnt
      → (ret ≡ ok → n ≡ cnt)
      → CopyEnds src dst s t cnt (written (blocks src s n) (blocks dst t n) rest (finishes ret))
  CopyEnds-last s t cnt n ret rest l h =
      (_, refl, Covers-one src s cnt n (ret ≡ ok) l h, Covers-one dst t cnt n (ret ≡ ok) l h)

  CopyEnds-read :
      (s t cnt n : ℕ) (ret : Status) (rest : Xcopy → Option CopiedRanges)
      → n ≤ cnt
      → is_ok ret ≡ false
      → CopyEnds src dst s t cnt (have_read (blocks src s n) rest (finishes ret))
  CopyEnds-read s t cnt n ret rest l h = (
    _,
    refl,
    Covers-one src s cnt n (ret ≡ ok) l (λ e. absurd (cc (h, e))),
    Covers-none dst t cnt (ret ≡ ok) (λ e. absurd (cc (h, e))),
  )

  write_cbk-CopyEnds :
      (s t cnt n : ℕ) (ret rc : Status) (rest : Xcopy → Option CopiedRanges)
      → s + cnt ≤ src.num_lbas
      → t + cnt ≤ dst.num_lbas
      → cnt < 2 ^ 32
      → n ≤ cnt
      → is_ok rc ≡ false
      → (n < cnt
          → CopyEnds src dst
              (s + n)
              (t + n)
              (cnt - n)
              (rest (round_at src (s + n) (t + n) (cnt - n) (min (cnt - n) n))))
      → CopyEnds src dst s t cnt (
          written
            (blocks src s n)
            (blocks dst t n)
            rest
            (handle_xcopy_write_cbk src (round_at src s t cnt n) ret rc))
  unfolding handle_xcopy_write_cbk
  write_cbk-CopyEnds s t cnt n ret rc rest h k w l f go =
      let c : (cnt + 2 ^ 32 - n) % 2 ^ 32 ≡ cnt - n = omega arith in
      let a : (s + n) % 2 ^ 64 ≡ s + n = omega (arith, Fits-lbas src fits_src) in
      let b : (t + n) % 2 ^ 64 ≡ t + n = omega (arith, Fits-lbas dst fits_dst) in
      let P = λ (x : CopyNext).
        CopyEnds src dst s t cnt (written (blocks src s n) (blocks dst t n) rest x) in
      rw (c, a, b)
        (if_ind P (not (is_ok ret))
          (λ e. CopyEnds-last s t cnt n ret rest l (λ o. absurd (cc (e, o))))
          (λ _.
            if_ind P (cnt - n == 0)
              (λ e. CopyEnds-last s t cnt n ret rest l (λ _. ground (arith, e)))
              (λ e.
                if_ind P (is_async rc)
                  (λ _. CopyEnds-after s t cnt n _ h k l (go (ground (arith, e))))
                  (λ _. CopyEnds-last s t cnt n rc rest l (λ o. absurd (cc (f, o)))))))

  pub copy_chain-CopyEnds :
      (fuel : ℕ) (rounds : ℕ → CopyRound) (i s t cnt n : ℕ)
      → ((j : ℕ) → is_ok (rounds j).to_write ≡ false)
      → ((j : ℕ) → is_ok (rounds j).to_read ≡ false)
      → s + cnt ≤ src.num_lbas
      → t + cnt ≤ dst.num_lbas
      → cnt < 2 ^ 32
      → 0 < n
      → n ≤ cnt
      → cnt < fuel
      → CopyEnds src dst s t cnt (copy_chain fuel src dst rounds i (round_at src s t cnt n))
  unfolding copy_chain xcopy_read_work xcopy_write_work handle_xcopy_read_cbk
  copy_chain-CopyEnds zero rounds i s t cnt n a b h k w p l f = elim f [ ]
  copy_chain-CopyEnds (suc fuel) rounds i s t cnt n a b h k w p l f =
      let step =
        copy_chain-CopyEnds fuel rounds (i + 1) (s + n) (t + n) (cnt - n) (min (cnt - n) n) a b in
      let r = rounds i in
      let x = round_at src s t cnt n in
      let rest = λ (y : Xcopy). copy_chain fuel src dst rounds (i + 1) y in
      let then_write = λ (y : Xcopy).
        written (blocks src s n)
          (record { offset = lba_to_byte dst y.dst_lba; length = y.requested }) rest
          (handle_xcopy_write_cbk src y r.write r.to_read) in
      let P =
        λ (z : CopyNext). CopyEnds src dst s t cnt (have_read (blocks src s n) then_write z) in
      if_ind P (not (is_ok r.read))
        (λ e. CopyEnds-read s t cnt n r.read then_write l (ground (arith, e)))
        (λ _.
          if_ind P (is_async r.to_write)
            (λ _.
              subst
                (λ z. CopyEnds src dst s t cnt (
                  written (blocks src s n) (record { offset = lba_to_byte dst t; length = z }) rest
                    (handle_xcopy_write_cbk src x r.write r.to_read)))
                (sym (same_size src dst n same))
                (write_cbk-CopyEnds s t cnt n r.write r.to_read rest h k w l (b i) (λ m.
                  step (omega arith) (omega arith) (omega arith) (omega arith) (omega arith)
                    (omega arith))))
            (λ _. CopyEnds-read s t cnt n r.to_write then_write l (a i)))
