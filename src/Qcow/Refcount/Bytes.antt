-- ===== src/Qcow/Refcount/Bytes.antt =====
-- The bytes of a refcount block after a write.
use tcmu_runner.Prelude.{
  ℕ, zero, suc, ◌+◌, ◌*◌, ◌^◌, ◌<◌, ◌≤◌, ◌≡◌, ◌≢◌, ◌⊎◌, ◌∙◌, refl, List, [], ◌∷◌, length, set,
  length-set, All, dec_lt, ◌==◌, if◌then◌else◌, inl, inr, arith,
}
use native.Mathlib.Nat.{mul-le-mul_right, add-mul as add_mul}
use tcmu_runner.Cdb.{byte, get_unaligned_be16, raw_get_unaligned_be32}
use tcmu_runner.Qcow.Refcount.{splice, be_bytes}

pub byte-set :
    (xs : List ℕ) (i v j : ℕ)
    → i < length xs
    → byte (set xs i v) j ≡ (if j == i then v else byte xs j)
byte-set [] i v j h = elim h [ ]
byte-set (x ∷ xs) zero v zero h = refl
byte-set (x ∷ xs) zero v (suc j) h = ground arith
byte-set (x ∷ xs) (suc i) v zero h = ground arith
byte-set (x ∷ xs) (suc i) v (suc j) h = byte-set xs i v j (omega arith) ∙ ground arith

pub byte-set_self : (xs : List ℕ) (i v : ℕ) → i < length xs → byte (set xs i v) i ≡ v
byte-set_self xs i v h = byte-set xs i v i h ∙ ground arith

pub byte-set_ne :
    (xs : List ℕ) (i v j : ℕ) → i < length xs → j ≢ i → byte (set xs i v) j ≡ byte xs j
byte-set_ne xs i v j h n = byte-set xs i v j h ∙ ground arith

pub byte-lt : (xs : List ℕ) (i : ℕ) → All (λ b. b < 256) xs → byte xs i < 256
byte-lt [] i h = omega arith
byte-lt (b ∷ bs) zero h = h.0
byte-lt (b ∷ bs) (suc i) h = byte-lt bs i h.1

-- A write from a place on is seen in its bytes and nowhere else.
byte-splice_before :
    (bs xs : List ℕ) (i j : ℕ)
    → i + length bs ≤ length xs
    → j < i
    → byte (splice xs i bs) j ≡ byte xs j
unfolding splice
byte-splice_before [] xs i j h l = refl
byte-splice_before (b ∷ bs) xs i j h l =
    byte-splice_before bs (set xs i b) (suc i) j (omega (arith, length-set xs i b)) (omega arith)
    ∙ byte-set_ne xs i b j (omega arith) (omega arith)

byte-splice_past :
    (bs xs : List ℕ) (i j : ℕ)
    → i + length bs ≤ length xs
    → i + length bs ≤ j
    → byte (splice xs i bs) j ≡ byte xs j
unfolding splice
byte-splice_past [] xs i j h l = refl
byte-splice_past (b ∷ bs) xs i j h l =
    byte-splice_past bs (set xs i b) (suc i) j (omega (arith, length-set xs i b)) (omega arith)
    ∙ byte-set_ne xs i b j (omega arith) (omega arith)

byte-splice_at :
    (bs xs : List ℕ) (i k : ℕ)
    → i + length bs ≤ length xs
    → k < length bs
    → byte (splice xs i bs) (i + k) ≡ byte bs k
unfolding splice
byte-splice_at [] xs i k h l = elim l [ ]
byte-splice_at (b ∷ bs) xs i zero h l =
    let e : i + 0 ≡ i = omega arith in
    rw e (
      byte-splice_before bs (set xs i b) (suc i) i (omega (arith, length-set xs i b)) (omega arith)
      ∙ byte-set_self xs i b (omega arith))
byte-splice_at (b ∷ bs) xs i (suc k) h l =
    let e : i + suc k ≡ suc i + k = omega arith in
    rw e (byte-splice_at bs (set xs i b) (suc i) k (omega (arith, length-set xs i b)) (omega arith))

-- The same for a place that is given by an equation.
splice_in :
    (bs xs : List ℕ) (i k j : ℕ)
    → i + length bs ≤ length xs
    → k < length bs
    → j ≡ i + k
    → byte (splice xs i bs) j ≡ byte bs k
splice_in bs xs i k j h l e = rw e (byte-splice_at bs xs i k h l)

splice_out :
    (bs xs : List ℕ) (i j : ℕ)
    → i + length bs ≤ length xs
    → (i ≤ j → i + length bs ≤ j)
    → byte (splice xs i bs) j ≡ byte xs j
splice_out bs xs i j h k = elim (dec_lt j i) [
  | yes p ↦ byte-splice_before bs xs i j h p
  | no p ↦ byte-splice_past bs xs i j h (k (omega arith))
]

pub be16-splice :
    (xs : List ℕ) (i v : ℕ)
    → i + 2 ≤ length xs
    → v < 2 ^ 16
    → get_unaligned_be16 (splice xs i (be_bytes 2 v)) i ≡ v
unfolding get_unaligned_be16 be_bytes
be16-splice xs i v h l =
    let at = λ (k j : ℕ) (m : k < 2) (e : j ≡ i + k). splice_in (be_bytes 2 v) xs i k j h m e in
    omega (arith, at 0 i (omega arith) (omega arith), at 1 (i + 1) (omega arith) (omega arith))

pub be32-splice :
    (xs : List ℕ) (i v : ℕ)
    → i + 4 ≤ length xs
    → v < 2 ^ 32
    → raw_get_unaligned_be32 (splice xs i (be_bytes 4 v)) i ≡ v
unfolding raw_get_unaligned_be32 be_bytes
be32-splice xs i v h l =
    let at = λ (k j : ℕ) (m : k < 4) (e : j ≡ i + k). splice_in (be_bytes 4 v) xs i k j h m e in
    omega (
      arith,
      at 0 i (omega arith) (omega arith),
      at 1 (i + 1) (omega arith) (omega arith),
      at 2 (i + 2) (omega arith) (omega arith),
      at 3 (i + 3) (omega arith) (omega arith),
    )

module _ (bs xs : List ℕ) (i : ℕ) (h : i + length bs ≤ length xs) where
  pub be16-outside :
      (j : ℕ)
      → (j + 2 ≤ i) ⊎ (i + length bs ≤ j)
      → get_unaligned_be16 (splice xs i bs) j ≡ get_unaligned_be16 xs j
  unfolding get_unaligned_be16
  be16-outside j o = omega (
    arith,
    splice_out bs xs i j h (λ q. ground arith),
    splice_out bs xs i (j + 1) h (λ q. ground arith),
  )

  pub be32-outside :
      (j : ℕ)
      → (j + 4 ≤ i) ⊎ (i + length bs ≤ j)
      → raw_get_unaligned_be32 (splice xs i bs) j ≡ raw_get_unaligned_be32 xs j
  unfolding raw_get_unaligned_be32
  be32-outside j o = omega (
    arith,
    splice_out bs xs i j h (λ q. ground arith),
    splice_out bs xs i (j + 1) h (λ q. ground arith),
    splice_out bs xs i (j + 2) h (λ q. ground arith),
    splice_out bs xs i (j + 3) h (λ q. ground arith),
  )

-- Two counts of `n` bytes lie apart.
pub apart : (n i j : ℕ) → 0 < n → j ≢ i → (j * n + n ≤ i * n) ⊎ (i * n + n ≤ j * n)
apart n i j p e = elim (dec_lt j i) [
  | yes l ↦ inl (omega (arith, mul-le-mul_right n l, add_mul 1 j n))
  | no l ↦
      let m : suc i ≤ j = omega arith in inr (omega (arith, mul-le-mul_right n m, add_mul 1 i n))
]
