-- ===== src/Qcow/Refcount/Fields.antt =====
-- The fields of a byte.
use tcmu_runner.Prelude.{
  ℕ, zero, suc, ◌*◌, ◌<◌, ◌≡◌, List, [], ◌∷◌, All, ℕ_discrete, ◌==◌, if◌then◌else◌, arith,
}
use tcmu_runner.Qcow.Refcount.{bit_field, put_field}

abbrev pub below : ℕ → List ℕ
below zero = []
below (suc n) = n ∷ below n

pub below-All : (P : ℕ → Type 0) (n p : ℕ) → p < n → All P (below n) → P p
below-All P zero p h a = elim h [ ]
below-All P (suc n) p h a = elim (ℕ_discrete p n) [
  | yes e ↦ rw e a.0
  | no e ↦ below-All P n p (omega arith) a.1
]

-- Field `q` once field `p` was written, of fields of `w` bits.
abbrev pub Field : (ℕ → ℕ) → ℕ → ℕ → ℕ → ℕ → ℕ → Type 0
Field shift w b v p q =
    bit_field (put_field b (shift p) w v) (shift q) w
    ≡ (if p == q then v else bit_field b (shift q) w)

pub fields1 :
    (b v : ℕ) → b < 256 → v < 2 → All (λ p. All (λ q. Field (λ x. x) 1 b v p q) (below 8)) (below 8)
unfolding put_field bit_field
fields1 b v h k = ground arith

pub fields2 :
    (b v : ℕ)
    → b < 256
    → v < 4
    → All (λ p. All (λ q. Field (λ x. 2 * x) 2 b v p q) (below 4)) (below 4)
unfolding put_field bit_field
fields2 b v h k = ground arith

pub fields4 :
    (b v : ℕ)
    → b < 256
    → v < 16
    → All (λ p. All (λ q. Field (λ x. 4 * x) 4 b v p q) (below 2)) (below 2)
unfolding put_field bit_field
fields4 b v h k = ground arith
