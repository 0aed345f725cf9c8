-- ===== src/Qcow/Refcount/Laws.antt =====
-- What is read of a refcount block after a write.
use tcmu_runner.Prelude.{
  ℕ, ◌+◌, ◌*◌, ◌/◌, ◌%◌, ◌^◌, ◌<◌, ◌≤◌, ◌≡◌, ◌≢◌, ◌∙◌, refl, sym, ap, List, true, some, length, set,
  All, ℕ_discrete, ◌==◌, arith,
}
use native.Mathlib.Nat.{mod-lt, div-add-mod'}
use tcmu_runner.Cdb.{byte}
use tcmu_runner.Qcow.Refcount.{bit_field, put_field, get_refcount, splice, be_bytes, set_refcount}
use tcmu_runner.Qcow.Refcount.Fields.{below, below-All, Field, fields1, fields2, fields4}
use tcmu_runner.Qcow.Refcount.Bytes.{
  byte-set_self, byte-set_ne, byte-lt, be16-splice, be32-splice, be16-outside, be32-outside, apart,
}

-- A write of one count, and what is then read of it and of the others.
abbrev Kept : ℕ → Type 0
Kept order =
    (block : List ℕ) (index value : ℕ)
    → All (λ b. b < 256) block
    → (index + 1) * 2 ^ order ≤ length block * 8
    → value < 2 ^ (2 ^ order)
    → (after : List ℕ) × (set_refcount order block index value ≡ some after)
      × (get_refcount order after index ≡ some value)
      × ((j : ℕ)
          → (j + 1) * 2 ^ order ≤ length block * 8
          → j ≢ index
          → get_refcount order after j ≡ get_refcount order block j)

keeps3 : Kept 3
unfolding set_refcount get_refcount
keeps3 block index value bytes room small =
    let e : (value / 2 ^ (2 ^ 3) == 0) ≡ true = ground arith in
    (
      set block index value,
      simp e refl,
      ap some (byte-set_self block index value (omega arith)),
      λ j r n. ap some (byte-set_ne block index value j (omega arith) n),
    )

keeps4 : Kept 4
unfolding set_refcount get_refcount
keeps4 block index value bytes room small =
    let e : (value / 2 ^ (2 ^ 4) == 0) ≡ true = ground arith in
    let bs = be_bytes 2 value in
    let h : index * 2 + 2 ≤ length block = omega arith in
    (
      splice block (index * 2) bs,
      simp e refl,
      ap some (be16-splice block (index * 2) value h small),
      λ j r n.
          ap some (be16-outside bs block (index * 2) h (j * 2) (apart 2 index j (omega arith) n)),
    )

keeps5 : Kept 5
unfolding set_refcount get_refcount
keeps5 block index value bytes room small =
    let e : (value / 2 ^ (2 ^ 5) == 0) ≡ true = ground arith in
    let bs = be_bytes 4 value in
    let h : index * 4 + 4 ≤ length block = omega arith in
    (
      splice block (index * 4) bs,
      simp e refl,
      ap some (be32-splice block (index * 4) value h small),
      λ j r n.
          ap some (be32-outside bs block (index * 4) h (j * 4) (apart 4 index j (omega arith) n)),
    )

-- Counts of `w` bits, `m` of them in a byte.
module _ (shift : ℕ → ℕ) (w m : ℕ) (pos : 0 < m)
    (fields : (b v p q : ℕ) → b < 256 → v < 2 ^ w → p < m → q < m → Field shift w b v p q)
    (block : List ℕ) (index value : ℕ) (bytes : All (λ b. b < 256) block)
    (room : index / m < length block) (small : value < 2 ^ w) where
  abbrev packed : List ℕ
  packed = set block (index / m) (put_field (byte block (index / m)) (shift (index % m)) w value)

  packed_self : bit_field (byte packed (index / m)) (shift (index % m)) w ≡ value
  packed_self =
      let p = mod-lt index pos in
      ap (λ x. bit_field x (shift (index % m)) w) (byte-set_self block (index / m) _ room)
      ∙ fields (byte block (index / m)) value (index % m) (index % m)
          (byte-lt block (index / m) bytes) small p p
      ∙ ground arith

  packed_other :
      (j : ℕ)
      → j ≢ index
      → bit_field (byte packed (j / m)) (shift (j % m)) w
        ≡ bit_field (byte block (j / m)) (shift (j % m)) w
  packed_other j n = elim (ℕ_discrete (j / m) (index / m)) [
    | no e ↦
        ap (λ x. bit_field x (shift (j % m)) w) (byte-set_ne block (index / m) _ (j / m) room e)
    | yes e ↦
        let d : index % m ≢ j % m = λ q. n (same_place e q) in
        rw e (
          ap (λ x. bit_field x (shift (j % m)) w) (byte-set_self block (index / m) _ room)
          ∙ fields (byte block (index / m)) value (index % m) (j % m)
              (byte-lt block (index / m) bytes) small (mod-lt index pos) (mod-lt j pos)
          ∙ ground (arith, d))
  ]
    where
      same_place : j / m ≡ index / m → index % m ≡ j % m → j ≡ index
      same_place e q =
          sym (div-add-mod' j m)
          ∙ ap (λ x. x * m + j % m) e
          ∙ ap (λ x. index / m * m + x) (sym q)
          ∙ div-add-mod' index m

keeps2 : Kept 2
unfolding set_refcount get_refcount
keeps2 block index value bytes room small =
    let e : (value / 2 ^ (2 ^ 2) == 0) ≡ true = ground arith in
    let f = λ (b v p q : ℕ) (h : b < 256) (k : v < 2 ^ 4) (x : p < 2) (y : q < 2).
      below-All (λ q. Field (λ x. 4 * x) 4 b v p q) 2 q y
        (below-All (λ p. All (λ q. Field (λ x. 4 * x) 4 b v p q) (below 2)) 2 p x
          (fields4 b v h k)) in
    let l : index / 2 < length block = omega arith in
    (
      _,
      simp e refl,
      ap some (packed_self (λ x. 4 * x) 4 2 (omega arith) f block index value bytes l small),
      λ j r n.
          ap some
            (packed_other (λ x. 4 * x) 4 2 (omega arith) f block index value bytes l small j n),
    )

keeps1 : Kept 1
unfolding set_refcount get_refcount
keeps1 block index value bytes room small =
    let e : (value / 2 ^ (2 ^ 1) == 0) ≡ true = ground arith in
    let f = λ (b v p q : ℕ) (h : b < 256) (k : v < 2 ^ 2) (x : p < 4) (y : q < 4).
      below-All (λ q. Field (λ x. 2 * x) 2 b v p q) 4 q y
        (below-All (λ p. All (λ q. Field (λ x. 2 * x) 2 b v p q) (below 4)) 4 p x
          (fields2 b v h k)) in
    let l : index / 4 < length block = omega arith in
    (
      _,
      simp e refl,
      ap some (packed_self (λ x. 2 * x) 2 4 (omega arith) f block index value bytes l small),
      λ j r n.
          ap some
            (packed_other (λ x. 2 * x) 2 4 (omega arith) f block index value bytes l small j n),
    )

keeps0 : Kept 0
unfolding set_refcount get_refcount
keeps0 block index value bytes room small =
    let e : (value / 2 ^ (2 ^ 0) == 0) ≡ true = ground arith in
    let f = λ (b v p q : ℕ) (h : b < 256) (k : v < 2 ^ 1) (x : p < 8) (y : q < 8).
      below-All (λ q. Field (λ x. x) 1 b v p q) 8 q y
        (below-All (λ p. All (λ q. Field (λ x. x) 1 b v p q) (below 8)) 8 p x (fields1 b v h k)) in
    let l : index / 8 < length block = omega arith in
    (
      _,
      simp e refl,
      ap some (packed_self (λ x. x) 1 8 (omega arith) f block index value bytes l small),
      λ j r n.
          ap some (packed_other (λ x. x) 1 8 (omega arith) f block index value bytes l small j n),
    )

-- A count that fits its width, written to a block of bytes at an index within it, for each of the orders
-- 0 to 5: `set_refcount` succeeds, `get_refcount` then reads that count at the index, and at every other
-- index within the block what it read before.
pub set_refcount-get_refcount :
    (order : ℕ) (block : List ℕ) (index value : ℕ)
    → order < 6
    → All (λ b. b < 256) block
    → (index + 1) * 2 ^ order ≤ length block * 8
    → value < 2 ^ (2 ^ order)
    → (after : List ℕ) × (set_refcount order block index value ≡ some after)
      × (get_refcount order after index ≡ some value)
      × ((j : ℕ)
          → (j + 1) * 2 ^ order ≤ length block * 8
          → j ≢ index
          → get_refcount order after j ≡ get_refcount order block j)
set_refcount-get_refcount order block index value h bytes room small =
    below-All Kept 6 order h (keeps5, (keeps4, (keeps3, (keeps2, (keeps1, (keeps0, tt)))))) block
      index value bytes room small
