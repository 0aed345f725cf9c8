-- ===== src/Handler/Unmap/Granules.antt =====
-- The requests that `align_and_split_unmap` makes, and the device's granularity.
use tcmu_runner.Prelude.{
  ℕ, zero, suc, ◌+◌, ◌*◌, ◌-◌, ◌/◌, ◌%◌, ◌^◌, ◌≤◌, ◌<◌, ◌≡◌, ◌⊎◌, ◌∙◌, subst, ap, refl, min, List,
  [], ◌∷◌, true, Option, none, some, ◌==◌, All, if_ind, dec_lt, inl, inr, arith,
}
use native.Mathlib.Nat.{
  mod-eq_of_lt, add-mul as add_mul, mul-le-mul_right, mod-lt, mul-mod_left, mod_self, div-add-mod',
}
use tcmu_runner.Status.{Status, async_handled, not_handled}
use tcmu_runner.Handler.{Device}
use tcmu_runner.Handler.Sizes.{Fits, Fits-lbas, lba_to_byte-small, mul-mod-mul_right}
use tcmu_runner.Handler.Bits.{pow_pos, and64, and64-mask}
use tcmu_runner.Handler.Ranges.{Request}
use tcmu_runner.Handler.Unmap.Splits.{align_and_split_unmap-splits}
use tcmu_runner.Handler.Unmap.{
  is_async, Answer, no_desc, no_ucmd, scheduled, Split, after, desc, split_round, split_loop,
  granularity, first_lbas, align_and_split_unmap,
}

-- No request crosses a multiple of `g` blocks.
abbrev pub InGranule : Device → ℕ → Request → Type 0
InGranule d g r = let size = g * 2 ^ d.block_size_shift in r.offset % size + r.length ≤ size

-- What holds of each request of a loop that ended.
abbrev pub Each : (Request → Type 0) → Option Split → Type 0
Each P none = Unit
Each P (some s) = All P s.requests

Each-after :
    (P : Request → Type 0) (r : Request) (o : Option Split)
    → P r
    → Each P o
    → Each P (after (r ∷ []) o)
Each-after P r none p q = tt
Each-after P r (some s) p q = (p, q)

pub Each-round :
    (P : Request → Type 0) (a : Answer) (r : Request) (i : ℕ) (rest : Option Split)
    → P r
    → Each P rest
    → Each P (split_round a r i rest)
unfolding split_round
Each-round P no_desc r i rest p q = tt
Each-round P no_ucmd r i rest p q = tt
Each-round P (scheduled s) r i rest p q =
    if_ind (Each P) (is_async s) (λ _. Each-after P r rest p q) (λ _. (p, tt))

desc-InGranule :
    (d : Device) (g lba lbas : ℕ)
    → Fits d
    → 0 < g
    → lba + lbas ≤ d.num_lbas
    → lba % g + lbas ≤ g
    → InGranule d g (desc d lba lbas)
unfolding desc
desc-InGranule d g lba lbas fits p h l =
    rw
      (
        lba_to_byte-small d lba fits (omega arith),
        lba_to_byte-small d lbas fits (omega arith),
        mul-mod-mul_right (2 ^ d.block_size_shift) lba g p (pow_pos d.block_size_shift),
      )
      (omega (
        arith,
        mul-le-mul_right (2 ^ d.block_size_shift) l,
        add_mul (lba % g) lbas (2 ^ d.block_size_shift),
      ))

min-cases : (a b : ℕ) → (min a b ≡ a) ⊎ (min a b ≡ b)
min-cases a b = ground arith

-- Where the blocks behind those of a round begin.
next_lba :
    (g lba lbas nlbas : ℕ)
    → 0 < g
    → lbas ≤ nlbas
    → (lba % g + lbas ≡ g) ⊎ (lbas ≡ nlbas)
    → ((lba + lbas) % g + min g (nlbas - lbas) ≤ g)
      × (((lba + lbas) % g + min g (nlbas - lbas) ≡ g) ⊎ (min g (nlbas - lbas) ≡ nlbas - lbas))
next_lba g lba lbas nlbas p l (inl e) =
    let q : lba + lbas ≡ (lba / g + 1) * g =
      omega (arith, div-add-mod' lba g, add_mul (lba / g) 1 g) in
    let z : (lba + lbas) % g ≡ 0 = ap (λ x. x % g) q ∙ mul-mod_left (lba / g + 1) g in
    (
      omega (arith, z),
      elim (min-cases g (nlbas - lbas)) [ inl s ↦ inl (omega (arith, z, s)) | inr s ↦ inr s ],
    )
next_lba g lba lbas nlbas p l (inr e) = (omega (arith, mod-lt (lba + lbas) p), inr (omega arith))

split_loop-InGranule :
    (fuel : ℕ) (d : Device) (answers : ℕ → Answer) (g lba nlbas lbas i : ℕ) (ret : Status)
    → Fits d
    → lba + nlbas ≤ d.num_lbas
    → 0 < g
    → lbas ≤ nlbas
    → lba % g + lbas ≤ g
    → (lba % g + lbas ≡ g) ⊎ (lbas ≡ nlbas)
    → Each (InGranule d g) (split_loop fuel d answers g lba nlbas lbas i ret)
unfolding split_loop
split_loop-InGranule zero d answers g lba nlbas lbas i ret fits h p l m o = tt
split_loop-InGranule (suc fuel) d answers g lba nlbas lbas i ret fits h p l m o =
    if_ind (Each (InGranule d g)) (nlbas == 0) (λ _. tt)
      (λ _.
        let e : (lba + lbas) % 2 ^ 64 ≡ lba + lbas = omega (arith, Fits-lbas d fits) in
        let (m', o') = next_lba g lba lbas nlbas p l o in
        Each-round (InGranule d g) (answers i) (desc d lba lbas) i _
          (desc-InGranule d g lba lbas fits p (omega arith) m)
          (rw e (
            split_loop-InGranule fuel d answers g (lba + lbas) (nlbas - lbas) (min g (nlbas - lbas))
              (i + 1) async_handled fits (omega arith) p (omega arith) m' o')))

pub Each-All :
    (P : Request → Type 0) (o : Option Split) (s : Split) → o ≡ some s → Each P o → All P s.requests
Each-All P o s e h = subst (Each P) e h

-- `granularity` of a device that splits unmaps and has the alignment 0.
unaligned :
    (d : Device)
    → d.split_unmaps ≡ true
    → d.unmap_gran_align ≡ 0
    → granularity d ≡ (d.opt_unmap_gran, 2 ^ 64 - 1)
unfolding granularity
unaligned d split align = rw (split, align) refl

-- The mask of the alignment 0 takes nothing away.
first_unaligned :
    (g lba nlbas : ℕ)
    → lba < 2 ^ 64
    → first_lbas (g, 2 ^ 64 - 1) lba nlbas ≡ min ((g + 2 ^ 64 - lba) % 2 ^ 64) nlbas
unfolding first_lbas
first_unaligned g lba nlbas h =
    let e : and64 lba (2 ^ 64 - 1) ≡ lba = and64-mask 64 lba (omega arith) ∙ omega arith in
    ap (λ x. min ((g + 2 ^ 64 - x) % 2 ^ 64) nlbas) e

-- From the granularity on: a request of no block, then granules.
from_granule-InGranule :
    (d : Device) (answers : ℕ → Answer) (g nlbas i : ℕ) (ret : Status)
    → Fits d
    → g + nlbas ≤ d.num_lbas
    → 0 < g
    → Each (InGranule d g) (split_loop (suc (suc nlbas)) d answers g g nlbas 0 i ret)
unfolding split_loop
from_granule-InGranule d answers g nlbas i ret fits h p =
    if_ind (Each (InGranule d g)) (nlbas == 0) (λ _. tt)
      (λ _.
        let e : (g + 0) % 2 ^ 64 ≡ g + 0 = omega (arith, Fits-lbas d fits) in
        let z : (g + 0) % g ≡ 0 = ap (λ x. x % g) (omega arith) ∙ mod_self g in
        Each-round (InGranule d g) (answers i) (desc d g 0) i _
          (desc-InGranule d g g 0 fits p (omega arith) (omega (arith, mod-lt g p)))
          (rw e (
            split_loop-InGranule (suc nlbas) d answers g (g + 0) (nlbas - 0) (min g (nlbas - 0))
              (i + 1) async_handled fits (omega arith) p (omega arith) (omega (arith, z))
              (elim (min-cases g (nlbas - 0)) [
                | inl s ↦ inl (omega (arith, z, s))
                | inr s ↦ inr s
              ]))))

-- What is submitted of a range: nothing, or all of it as one request.
abbrev pub AtOnce : Device → ℕ → ℕ → List Request → Type 0
AtOnce d lba nlbas rs = (rs ≡ []) ⊎ (rs ≡ desc d lba nlbas ∷ [])

abbrev AtOnces : Device → ℕ → ℕ → Option Split → Type 0
AtOnces d lba nlbas none = Unit
AtOnces d lba nlbas (some s) = AtOnce d lba nlbas s.requests

AtOnces-stop :
    (d : Device) (answers : ℕ → Answer) (gran lba nlbas at i : ℕ) (a : Answer) (fuel : ℕ)
    → AtOnces d lba nlbas (
        split_round a
          (desc d lba nlbas)
          i
          (split_loop (suc fuel) d answers gran at 0 0 (i + 1) async_handled))
unfolding split_loop split_round
AtOnces-stop d answers gran lba nlbas at i no_desc fuel = inl refl
AtOnces-stop d answers gran lba nlbas at i no_ucmd fuel = inl refl
AtOnces-stop d answers gran lba nlbas at i (scheduled s) fuel =
    if_ind (AtOnces d lba nlbas) (is_async s) (λ _. inr refl) (λ _. inr refl)

whole-AtOnces :
    (d : Device) (answers : ℕ → Answer) (gran lba nlbas i : ℕ) (ret : Status)
    → AtOnces d lba nlbas (split_loop (suc (suc nlbas)) d answers gran lba nlbas nlbas i ret)
unfolding split_loop
whole-AtOnces d answers gran lba nlbas i ret =
    let e : nlbas - nlbas ≡ 0 = omega arith in
    if_ind (AtOnces d lba nlbas) (nlbas == 0) (λ _. inl refl)
      (λ _.
        rw e (AtOnces-stop d answers gran lba nlbas ((lba + nlbas) % 2 ^ 64) i (answers i) nlbas))

AtOnces-AtOnce :
    (d : Device) (lba nlbas : ℕ) (o : Option Split) (s : Split)
    → o ≡ some s
    → AtOnces d lba nlbas o
    → AtOnce d lba nlbas s.requests
AtOnces-AtOnce d lba nlbas o s e h = subst (AtOnces d lba nlbas) e h

-- What the alignment 0 makes of a range of blocks.
module _ (d : Device) (answers : ℕ → Answer) (lba nlbas i : ℕ) (fits : Fits d)
    (split : d.split_unmaps ≡ true) (align : d.unmap_gran_align ≡ 0) (p : 0 < d.opt_unmap_gran)
    (small : d.opt_unmap_gran < 2 ^ 32) (h : lba + nlbas ≤ d.num_lbas) where
  abbrev first : ℕ
  first = min ((d.opt_unmap_gran + 2 ^ 64 - lba) % 2 ^ 64) nlbas

  starts_at :
      align_and_split_unmap d answers lba nlbas i
      ≡ split_loop (suc (suc nlbas)) d answers d.opt_unmap_gran lba nlbas first i not_handled
  unfolding align_and_split_unmap
  starts_at =
      let f : first_lbas (d.opt_unmap_gran, 2 ^ 64 - 1) lba nlbas ≡ first =
        first_unaligned d.opt_unmap_gran lba nlbas (omega (arith, Fits-lbas d fits)) in
      rw (unaligned d split align, f) refl

  below_granule :
      lba ≤ d.opt_unmap_gran
      → Each (InGranule d d.opt_unmap_gran) (align_and_split_unmap d answers lba nlbas i)
  below_granule l = rw starts_at (elim (dec_lt lba d.opt_unmap_gran) [
    | yes b ↦
        let m : lba % d.opt_unmap_gran ≡ lba = mod-eq_of_lt b in
        let e : first ≡ min (d.opt_unmap_gran - lba) nlbas = omega arith in
        split_loop-InGranule (suc (suc nlbas)) d answers d.opt_unmap_gran lba nlbas first i
          not_handled fits h p (omega arith) (omega (arith, m, e))
          (elim (min-cases (d.opt_unmap_gran - lba) nlbas) [
            | inl s ↦ inl (omega (arith, m, e, s))
            | inr s ↦ inr (e ∙ s)
          ])
    | no b ↦
        let q : lba ≡ d.opt_unmap_gran = omega arith in
        let e : first ≡ 0 = omega arith in
        rw (e, q)
          (from_granule-InGranule d answers d.opt_unmap_gran nlbas i not_handled fits (omega arith)
            p)
  ])

  past_granule :
      d.opt_unmap_gran < lba → AtOnces d lba nlbas (align_and_split_unmap d answers lba nlbas i)
  past_granule l =
      let e : first ≡ nlbas = omega (arith, Fits-lbas d fits) in
      rw (starts_at, e) (whole-AtOnces d answers d.opt_unmap_gran lba nlbas i not_handled)

-- On a device that splits unmaps, with the alignment 0 that the program sets, an optimal unmap granularity
-- of 32 bits that is not 0, and a last byte with a 64-bit offset, the splitting of an UNMAP of blocks of the
-- device ends. If the range begins at or below block number granularity, no request crosses a multiple of
-- the granularity. If it begins past that block, nothing is split: there is no request, or one for the
-- whole range.
pub align_and_split_unmap-unaligned :
    (d : Device) (answers : ℕ → Answer) (lba nlbas i : ℕ)
    → Fits d
    → d.split_unmaps ≡ true
    → d.unmap_gran_align ≡ 0
    → 0 < d.opt_unmap_gran
    → d.opt_unmap_gran < 2 ^ 32
    → lba + nlbas ≤ d.num_lbas
    → (s : Split) × (align_and_split_unmap d answers lba nlbas i ≡ some s)
      × ((lba ≤ d.opt_unmap_gran) × All (InGranule d d.opt_unmap_gran) s.requests
          ⊎ (d.opt_unmap_gran < lba) × AtOnce d lba nlbas s.requests)
align_and_split_unmap-unaligned d answers lba nlbas i fits split align p small h =
    let g : (granularity d).0 ≡ d.opt_unmap_gran = ap (λ x. x.0) (unaligned d split align) in
    let (s, e, _) = align_and_split_unmap-splits d answers lba nlbas i fits (omega (arith, g)) h in
    (
      s,
      e,
      elim (dec_lt d.opt_unmap_gran lba) [
        | yes l ↦ inr (
          l,
          AtOnces-AtOnce d lba nlbas _ s e
              (past_granule d answers lba nlbas i fits split align p small h l),
        )
        | no l ↦
            let b : lba ≤ d.opt_unmap_gran = omega arith in
            inl (
              b,
              Each-All (InGranule d d.opt_unmap_gran) _ s e
                  (below_granule d answers lba nlbas i fits split align p small h b),
            )
      ],
    )
