-- ===== src/Handler/Unmap/Medium.antt =====
-- The requests of an UNMAP and the end of the medium.
use tcmu_runner.Prelude.{
  ℕ, zero, suc, ◌+◌, ◌*◌, ◌-◌, ◌/◌, ◌%◌, ◌^◌, ◌≤◌, ◌<◌, ◌≡◌, ◌≢◌, refl, ap, min, List, [], ◌∷◌,
  ◌++◌, not, Option, some, ltb, ◌==◌, All, if_ind, arith,
}
use native.Mathlib.Nat.{add-mul as add_mul, mul-le-mul_right}
use tcmu_runner.Status.{Status, async_handled, not_handled, ok, is_ok}
use tcmu_runner.Cdb.{byte, raw_get_unaligned_be32, get_be64}
use tcmu_runner.Handler.{Device, check_lbas}
use tcmu_runner.Handler.Sizes.{Fits, Fits-lbas, lba_to_byte-small, check_lbas-le}
use tcmu_runner.Handler.Ranges.{Request}
use tcmu_runner.Handler.Unmap.Splits.{align_and_split_unmap-splits}
use tcmu_runner.Handler.Unmap.Granules.{Each, Each-round, Each-All}
use tcmu_runner.Handler.Unmap.{
  is_async, Answer, Split, after, go_on, desc, split_loop, granularity, first_lbas,
  align_and_split_unmap, unmap_list, submitted, handle_unmap_internal,
}

-- The request is of bytes of the device.
abbrev pub InMedium : Device → Request → Type 0
InMedium d r = r.offset + r.length ≤ d.num_lbas * 2 ^ d.block_size_shift

desc-InMedium :
    (d : Device) (lba lbas : ℕ) → Fits d → lba + lbas ≤ d.num_lbas → InMedium d (desc d lba lbas)
unfolding desc
desc-InMedium d lba lbas fits h =
    rw (lba_to_byte-small d lba fits (omega arith), lba_to_byte-small d lbas fits (omega arith))
      (omega (
        arith,
        mul-le-mul_right (2 ^ d.block_size_shift) h,
        add_mul lba lbas (2 ^ d.block_size_shift),
      ))

split_loop-InMedium :
    (fuel : ℕ) (d : Device) (answers : ℕ → Answer) (g lba nlbas lbas i : ℕ) (ret : Status)
    → Fits d
    → lba + nlbas ≤ d.num_lbas
    → lbas ≤ nlbas
    → Each (InMedium d) (split_loop fuel d answers g lba nlbas lbas i ret)
unfolding split_loop
split_loop-InMedium zero d answers g lba nlbas lbas i ret fits h l = tt
split_loop-InMedium (suc fuel) d answers g lba nlbas lbas i ret fits h l =
    if_ind (Each (InMedium d)) (nlbas == 0) (λ _. tt)
      (λ _.
        let e : (lba + lbas) % 2 ^ 64 ≡ lba + lbas = omega (arith, Fits-lbas d fits) in
        Each-round (InMedium d) (answers i) (desc d lba lbas) i _
          (desc-InMedium d lba lbas fits (omega arith))
          (rw e (
            split_loop-InMedium fuel d answers g (lba + lbas) (nlbas - lbas) (min g (nlbas - lbas))
              (i + 1) async_handled fits (omega arith) (omega arith))))

-- The calls end, and their requests are of bytes of the device.
abbrev pub Sound : Device → Option Split → Type 0
Sound d o = (s : Split) × (o ≡ some s) × All (InMedium d) s.requests

pub align_and_split_unmap-Sound :
    (d : Device) (answers : ℕ → Answer) (lba nlbas i : ℕ)
    → Fits d
    → 0 < (granularity d).0
    → lba + nlbas ≤ d.num_lbas
    → Sound d (align_and_split_unmap d answers lba nlbas i)
unfolding align_and_split_unmap first_lbas
align_and_split_unmap-Sound d answers lba nlbas i fits gr h =
    let (s, e, _) = align_and_split_unmap-splits d answers lba nlbas i fits gr h in
    (
      s,
      e,
      Each-All (InMedium d) _ s e (
          split_loop-InMedium (suc (suc nlbas)) d answers (granularity d).0 lba nlbas
            (first_lbas (granularity d) lba nlbas) i not_handled fits h (omega arith)),
    )

All-append : (P : Request → Type 0) (rs ss : List Request) → All P rs → All P ss → All P (rs ++ ss)
All-append P [] ss p q = q
All-append P (r ∷ rs) ss (p, ps) q = (p, All-append P rs ss ps q)

after-Sound :
    (d : Device) (rs : List Request) (o : Option Split)
    → All (InMedium d) rs
    → Sound d o
    → Sound d (after rs o)
after-Sound d rs o p (s, e, q) = (_, ap (after rs) e, All-append (InMedium d) rs s.requests p q)

go_on-Sound :
    (d : Device) (o : Option Split) (rest : ℕ → Status → Option Split)
    → Sound d o
    → ((j : ℕ) (r : Status) → Sound d (rest j r))
    → Sound d (go_on o rest)
go_on-Sound d o rest (s, e, p) k = rw e (
    if_ind (Sound d) (is_async s.ret)
      (λ _. after-Sound d s.requests (rest s.rounds s.ret) p (k s.rounds s.ret))
      (λ _. (s, refl, p)))

byte-lt : (par : List ℕ) (i : ℕ) → All (λ b. b < 256) par → byte par i < 256
byte-lt [] i h = omega arith
byte-lt (b ∷ bs) zero h = h.0
byte-lt (b ∷ bs) (suc i) h = byte-lt bs i h.1

be32-lt : (par : List ℕ) (i : ℕ) → All (λ b. b < 256) par → raw_get_unaligned_be32 par i < 2 ^ 32
unfolding raw_get_unaligned_be32
be32-lt par i h =
    omega
      (arith, byte-lt par i h, byte-lt par (i + 1) h, byte-lt par (i + 2) h, byte-lt par (i + 3) h)

get_be64-lt : (par : List ℕ) (i : ℕ) → All (λ b. b < 256) par → get_be64 par i < 2 ^ 64
unfolding get_be64
get_be64-lt par i h = omega (arith, be32-lt par i h, be32-lt par (i + 4) h)

unmap_list-Sound :
    (fuel : ℕ) (d : Device) (answers : ℕ → Answer) (par : List ℕ) (offset bddl i : ℕ) (ret : Status)
    → Fits d
    → 0 < (granularity d).0
    → All (λ b. b < 256) par
    → bddl % 16 ≡ 0
    → bddl < 2 ^ 16
    → bddl / 16 < fuel
    → Sound d (unmap_list fuel d answers par offset bddl i ret)
unfolding unmap_list
unmap_list-Sound zero d answers par offset bddl i ret fits gr bytes m w f = elim f [ ]
unmap_list-Sound (suc fuel) d answers par offset bddl i ret fits gr bytes m w f =
    let lba = get_be64 par (8 + offset) in
    let nlbas = raw_get_unaligned_be32 par (8 + offset + 8) in
    let next = (offset + 16) % 2 ^ 16 in
    let left = (bddl + 2 ^ 16 - 16) % 2 ^ 16 in
    let again : bddl ≢ 0
        → (j : ℕ) (r : Status) → Sound d (unmap_list fuel d answers par next left j r) =
      λ n j r.
        unmap_list-Sound fuel d answers par next left j r fits gr bytes (omega (arith, n))
          (omega arith) (omega (arith, n)) in
    if_ind (Sound d) (bddl == 0) (λ _. (_, refl, tt))
      (λ z.
        let n : bddl ≢ 0 = λ e. absurd (ground (arith, z, e)) in
        if_ind (Sound d) (ltb d.max_unmap_len nlbas) (λ _. (_, refl, tt))
          (λ _.
            if_ind (Sound d) (not (is_ok (check_lbas d lba nlbas))) (λ _. (_, refl, tt))
              (λ e.
                if_ind (Sound d) (nlbas == 0) (λ _. again n i ok)
                  (λ _.
                    go_on-Sound d _ _
                      (align_and_split_unmap-Sound d answers lba nlbas i fits gr (
                        check_lbas-le d lba nlbas (Fits-lbas d fits)
                          (get_be64-lt par (8 + offset) bytes)
                          (omega (arith, be32-lt par (8 + offset + 8) bytes)) (ground arith)))
                      (again n)))))

-- Whatever bytes the parameter list of an UNMAP holds and whatever the allocations and the scheduler
-- answer: for a `bddl` of 16 bits that is a multiple of 16, the loop over the descriptors ends, and every request that it makes is of bytes of the device. The device's last byte
-- has a 64-bit offset, and its granularity (the optimal unmap granularity, or the most blocks of an UNMAP if
-- the device does not split unmaps) is not 0.
pub handle_unmap_internal-inside :
    (d : Device) (answers : ℕ → Answer) (bddl : ℕ) (par : List ℕ)
    → Fits d
    → 0 < (granularity d).0
    → All (λ b. b < 256) par
    → bddl % 16 ≡ 0
    → bddl < 2 ^ 16
    → (s : Split) × (handle_unmap_internal d answers ok bddl par ≡ submitted (some s))
      × All (InMedium d) s.requests
unfolding handle_unmap_internal
handle_unmap_internal-inside d answers bddl par fits gr bytes m w =
    let (s, e, p) =
      unmap_list-Sound (suc (bddl / 16)) d answers par 0 bddl 0 ok fits gr bytes m w
        (omega arith) in
    (s, ap submitted e, p)
