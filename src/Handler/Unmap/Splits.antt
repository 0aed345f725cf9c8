-- ===== src/Handler/Unmap/Splits.antt =====
-- The requests that `align_and_split_unmap` makes of a range of blocks.
use tcmu_runner.Prelude.{
  ℕ, zero, suc, ◌+◌, ◌-◌, ◌%◌, ◌^◌, ◌≤◌, ◌<◌, ◌≡◌, refl, ap, min, [], ◌∷◌, Option, some, ◌==◌,
  if_ind, arith,
}
use tcmu_runner.Status.{Status, async_handled, not_handled, no_resource}
use tcmu_runner.Handler.{Device}
use tcmu_runner.Handler.Sizes.{Fits, Fits-lbas}
use tcmu_runner.Handler.Covers.{Covers, Covers-none, Covers-one, Covers-after}
use tcmu_runner.Handler.Unmap.{
  is_async, Answer, no_desc, no_ucmd, scheduled, Split, after, desc, split_round, split_loop,
  granularity, first_lbas, align_and_split_unmap,
}

-- That a loop ends, and covers what it was called with.
abbrev pub Ends : Device → ℕ → ℕ → Option Split → Type 0
Ends d lba nlbas o =
    (s : Split) × (o ≡ some s) × Covers d lba nlbas s.requests (s.ret ≡ async_handled)

Ends-after :
    (d : Device) (lba nlbas lbas : ℕ) (o : Option Split)
    → Fits d
    → lba + nlbas ≤ d.num_lbas
    → lbas ≤ nlbas
    → Ends d (lba + lbas) (nlbas - lbas) o
    → Ends d lba nlbas (after (desc d lba lbas ∷ []) o)
unfolding desc
Ends-after d lba nlbas lbas o fits h l (s, e, c) = (
  _,
  ap (after (desc d lba lbas ∷ [])) e,
  Covers-after d lba nlbas lbas s.requests (s.ret ≡ async_handled) fits h l c,
)

Ends-round :
    (d : Device) (a : Answer) (lba nlbas lbas i : ℕ) (rest : Option Split)
    → Fits d
    → lba + nlbas ≤ d.num_lbas
    → 0 < nlbas
    → lbas ≤ nlbas
    → Ends d (lba + lbas) (nlbas - lbas) rest
    → Ends d lba nlbas (split_round a (desc d lba lbas) i rest)
unfolding split_round desc
Ends-round d no_desc lba nlbas lbas i rest fits h p l c =
    (_, refl, Covers-none d lba nlbas (no_resource ≡ async_handled) (λ e. cc))
Ends-round d no_ucmd lba nlbas lbas i rest fits h p l c =
    (_, refl, Covers-none d lba nlbas (no_resource ≡ async_handled) (λ e. cc))
Ends-round d (scheduled s) lba nlbas lbas i rest fits h p l c =
    if_ind (Ends d lba nlbas) (is_async s) (λ e. Ends-after d lba nlbas lbas rest fits h l c)
      (λ e. (_, refl, Covers-one d lba nlbas lbas (s ≡ async_handled) l (λ a. absurd (cc (e, a)))))

split_loop-Ends :
    (fuel : ℕ) (d : Device) (answers : ℕ → Answer) (gran lba nlbas lbas i : ℕ) (ret : Status)
    → Fits d
    → d.num_lbas < 2 ^ 64
    → lba + nlbas ≤ d.num_lbas
    → nlbas < fuel
    → 0 < gran
    → lbas ≤ nlbas
    → (0 < nlbas → 0 < lbas)
    → Ends d lba nlbas (split_loop fuel d answers gran lba nlbas lbas i ret)
unfolding split_loop
split_loop-Ends zero d answers gran lba nlbas lbas i ret fits w h f g l p = elim f [ ]
split_loop-Ends (suc fuel) d answers gran lba nlbas lbas i ret fits w h f g l p =
    if_ind (Ends d lba nlbas) (nlbas == 0)
      (λ e. (_, refl, Covers-none d lba nlbas (ret ≡ async_handled) (λ _. ground (arith, e))))
      (λ e.
        let pos : 0 < nlbas = ground (arith, e) in
        let step : 0 < lbas = p pos in
        let m : (lba + lbas) % 2 ^ 64 ≡ lba + lbas = omega arith in
        Ends-round d (answers i) lba nlbas lbas i _ fits h pos l (
          rw m (
            split_loop-Ends fuel d answers gran (lba + lbas) (nlbas - lbas)
              (min gran (nlbas - lbas)) (i + 1) async_handled fits w (omega arith) (omega arith) g
              (omega arith) (λ q. omega arith))))

-- The first request may be of no block.
split_loop-start :
    (d : Device) (answers : ℕ → Answer) (gran lba nlbas lbas i : ℕ) (ret : Status)
    → Fits d
    → lba + nlbas ≤ d.num_lbas
    → 0 < gran
    → lbas ≤ nlbas
    → Ends d lba nlbas (split_loop (suc (suc nlbas)) d answers gran lba nlbas lbas i ret)
unfolding split_loop
split_loop-start d answers gran lba nlbas lbas i ret fits h g l =
    if_ind (Ends d lba nlbas) (nlbas == 0)
      (λ e. (_, refl, Covers-none d lba nlbas (ret ≡ async_handled) (λ _. ground (arith, e))))
      (λ e.
        let w : d.num_lbas < 2 ^ 64 = Fits-lbas d fits in
        let m : (lba + lbas) % 2 ^ 64 ≡ lba + lbas = omega arith in
        Ends-round d (answers i) lba nlbas lbas i _ fits h (ground (arith, e)) l (
          rw m (
            split_loop-Ends (suc nlbas) d answers gran (lba + lbas) (nlbas - lbas)
              (min gran (nlbas - lbas)) (i + 1) async_handled fits w (omega arith) (omega arith) g
              (omega arith) (λ q. omega arith))))

-- On a device whose last byte has a 64-bit offset and whose granularity (the optimal unmap granularity, or
-- the most blocks of an UNMAP if the device does not split unmaps) is not 0, whatever its alignment: the
-- splitting of an UNMAP of blocks of the device ends, whatever the allocations and the scheduler answer. The
-- requests that it makes are of the first blocks of the range, each byte once and in order; of all of them,
-- if the call returns that the command goes on asynchronously.
pub align_and_split_unmap-splits :
    (d : Device) (answers : ℕ → Answer) (lba nlbas i : ℕ)
    → Fits d
    → 0 < (granularity d).0
    → lba + nlbas ≤ d.num_lbas
    → (s : Split) × (align_and_split_unmap d answers lba nlbas i ≡ some s)
      × Covers d lba nlbas s.requests (s.ret ≡ async_handled)
unfolding align_and_split_unmap first_lbas
align_and_split_unmap-splits d answers lba nlbas i fits p h =
    split_loop-start d answers (granularity d).0 lba nlbas (first_lbas (granularity d) lba nlbas) i
      not_handled fits h p (omega arith)
