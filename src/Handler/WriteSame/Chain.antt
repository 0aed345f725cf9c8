-- ===== src/Handler/WriteSame/Chain.antt =====
-- The writes of a WRITE SAME, and the buffer that they write from.
use tcmu_runner.Prelude.{
  ℕ, zero, suc, ◌+◌, ◌*◌, ◌-◌, ◌%◌, ◌^◌, ◌≤◌, ◌<◌, ◌≡◌, ◌∙◌, refl, sym, ap, subst, min, List, [],
  ◌∷◌, ◌++◌, not, Option, some, length, length-append, get_or, get_or-append, dec_lt, leb, ◌==◌,
  if◌then◌else◌, if_ind, arith,
}
use native.Mathlib.Nat.{zero-mul, add-mul as add_mul, add-mod_left, mod-eq_of_lt}
use tcmu_runner.Status.{Status, ok, wr_err, is_ok}
use tcmu_runner.Handler.{Device, lba_to_byte}
use tcmu_runner.Handler.Sizes.{Fits, Fits-lbas, byte_to_lba-lba_to_byte}
use tcmu_runner.Handler.Covers.{Covers, Covers-one, Covers-after, blocks}
use tcmu_runner.Handler.Unmap.{is_async}
use tcmu_runner.Handler.WriteSame.{
  WriteSame, writesame_work, WriteNext, finishes, handle_writesame_cbk, WrittenSame, after_write,
  chained, write_chain, fill_buffer,
}

-- The chain ends, and its writes are of the first blocks of the range; of all, if it ends well.
abbrev pub ChainEnds : Device → ℕ → ℕ → Option WrittenSame → Type 0
ChainEnds d lba cnt o = (v : WrittenSame) × (o ≡ some v) × Covers d lba cnt v.writes (v.ret ≡ ok)

ChainEnds-after :
    (d : Device) (lba cnt n : ℕ) (o : Option WrittenSame)
    → Fits d
    → lba + cnt ≤ d.num_lbas
    → n ≤ cnt
    → ChainEnds d (lba + n) (cnt - n) o
    → ChainEnds d lba cnt (after_write (blocks d lba n) o)
ChainEnds-after d lba cnt n o fits h l (v, e, c) = (
  _,
  ap (after_write (blocks d lba n)) e,
  Covers-after d lba cnt n v.writes (v.ret ≡ ok) fits h l c,
)

ChainEnds-last :
    (d : Device) (lba cnt n : ℕ) (ret : Status) (rest : WriteSame → Option WrittenSame)
    → n ≤ cnt
    → (ret ≡ ok → n ≡ cnt)
    → ChainEnds d lba cnt (chained (blocks d lba n) rest (finishes ret))
ChainEnds-last d lba cnt n ret rest l h = (_, refl, Covers-one d lba cnt n (ret ≡ ok) l h)

-- What the writes behind one begin with.
abbrev behind : Device → ℕ → ℕ → ℕ → WriteSame
behind d lba cnt n = record {
  cur_lba = lba + n;
  lba_cnt = cnt - n;
  requested = lba_to_byte d (min n (cnt - n));
}

cbk-ChainEnds :
    (d : Device) (lba cnt n : ℕ) (ret rc : Status) (rest : WriteSame → Option WrittenSame)
    → Fits d
    → lba + cnt ≤ d.num_lbas
    → n ≤ cnt
    → (n < cnt → ChainEnds d (lba + n) (cnt - n) (rest (behind d lba cnt n)))
    → ChainEnds d lba cnt (
        chained (blocks d lba n) rest (
          handle_writesame_cbk d
            (record { cur_lba = lba; lba_cnt = cnt; requested = lba_to_byte d n })
            ret
            rc))
unfolding handle_writesame_cbk
cbk-ChainEnds d lba cnt n ret rc rest fits h l k =
    let w = Fits-lbas d fits in
    let b = byte_to_lba-lba_to_byte d n fits (omega arith) in
    let c : (cnt + 2 ^ 64 - n) % 2 ^ 64 ≡ cnt - n = omega arith in
    let a : (lba + n) % 2 ^ 64 ≡ lba + n = omega arith in
    let P = λ (x : WriteNext). ChainEnds d lba cnt (chained (blocks d lba n) rest x) in
    rw (b, c, a)
      (if_ind P (not (is_ok ret))
        (λ e. ChainEnds-last d lba cnt n ret rest l (λ o. absurd (cc (e, o))))
        (λ _.
          if_ind P (cnt - n == 0)
            (λ e. ChainEnds-last d lba cnt n ret rest l (λ _. ground (arith, e)))
            (λ e.
              if_ind P (is_async rc)
                (λ _. ChainEnds-after d lba cnt n _ fits h l (next (ground (arith, e))))
                (λ _. ChainEnds-last d lba cnt n wr_err rest l (λ o. cc)))))
  where
    At : ℕ → Type 0
    At r =
        ChainEnds d (lba + n) (cnt - n)
          (rest (record { cur_lba = lba + n; lba_cnt = cnt - n; requested = r }))

    at_min : (x : ℕ) → min n (cnt - n) ≡ x → n < cnt → At (lba_to_byte d x)
    at_min x e m = subst (λ y. At (lba_to_byte d y)) e (k m)

    next : n < cnt → At (if leb (cnt - n) n then lba_to_byte d (cnt - n) else lba_to_byte d n)
    next m =
        if_ind At (leb (cnt - n) n) (λ e. at_min (cnt - n) (ground (arith, e)) m)
          (λ e. at_min n (ground (arith, e)) m)

pub write_chain-ChainEnds :
    (fuel : ℕ) (d : Device) (answers : ℕ → Status × Status) (i lba cnt n : ℕ)
    → Fits d
    → lba + cnt ≤ d.num_lbas
    → 0 < n
    → n ≤ cnt
    → cnt < fuel
    → ChainEnds d lba cnt (
        write_chain fuel d answers i
          (record { cur_lba = lba; lba_cnt = cnt; requested = lba_to_byte d n }))
unfolding write_chain writesame_work
write_chain-ChainEnds zero d answers i lba cnt n fits h p l f = elim f [ ]
write_chain-ChainEnds (suc fuel) d answers i lba cnt n fits h p l f =
    cbk-ChainEnds d lba cnt n (answers i).0 (answers i).1 _ fits h l (λ m.
      write_chain-ChainEnds fuel d answers (i + 1) (lba + n) (cnt - n) (min n (cnt - n)) fits
        (omega arith) (omega arith) (omega arith) (omega arith))

-- The buffer repeats the block.
pub length-fill_buffer : (n : ℕ) (block : List ℕ) → length (fill_buffer n block) ≡ n * length block
unfolding fill_buffer
length-fill_buffer zero block = sym (zero-mul (length block))
length-fill_buffer (suc n) block =
    length-append block (fill_buffer n block)
    ∙ omega (arith, length-fill_buffer n block, add_mul 1 n (length block))

get_or-append_past :
    (xs ys : List ℕ) (k d : ℕ) → get_or (xs ++ ys) (length xs + k) d ≡ get_or ys k d
get_or-append_past [] ys k d = let e : 0 + k ≡ k = omega arith in rw e
get_or-append_past (x ∷ xs) ys k d =
    let e : suc (length xs) + k ≡ suc (length xs + k) = omega arith in
    rw e (get_or-append_past xs ys k d)

pub get_or-fill_buffer :
    (n : ℕ) (block : List ℕ) (j d : ℕ)
    → j < n * length block
    → get_or (fill_buffer n block) j d ≡ get_or block (j % length block) d
unfolding fill_buffer
get_or-fill_buffer zero block j d h = absurd (omega (arith, h, zero-mul (length block)))
get_or-fill_buffer (suc n) block j d h = elim (dec_lt j (length block)) [
  | yes p ↦
      get_or-append block (fill_buffer n block) j d p
      ∙ ap (λ i. get_or block i d) (sym (mod-eq_of_lt p))
  | no p ↦
      let e : length block + (j - length block) ≡ j = omega arith in
      ap (λ i. get_or (block ++ fill_buffer n block) i d) (sym e)
      ∙ get_or-append_past block (fill_buffer n block) (j - length block) d
      ∙ get_or-fill_buffer n block (j - length block) d (omega (arith, add_mul 1 n (length block)))
      ∙ ap (λ i. get_or block i d)
          (sym (add-mod_left (length block) (j - length block)) ∙ ap (λ i. i % length block) e)
]
