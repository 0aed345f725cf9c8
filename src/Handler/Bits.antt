-- ===== src/Handler/Bits.antt =====
-- The conjunction of the bits of two 64-bit numbers.
use tcmu_runner.Prelude.{
  ℕ, zero, suc, ◌+◌, ◌*◌, ◌-◌, ◌/◌, ◌%◌, ◌^◌, ◌≤◌, ◌<◌, ◌≡◌, ◌∙◌, sym, ap, refl, arith,
}
use native.Mathlib.Nat.{mod-eq_of_lt, mul-add-mod_self_left, div-add-mod, mod-lt, mod-one}

-- The lowest `n` bits of `a & b`.
unfoldable pub bits_and : ℕ → ℕ → ℕ → ℕ
bits_and zero a b = 0
bits_and (suc n) a b = 2 * bits_and n (a / 2) (b / 2) + (a % 2) * (b % 2)

abbrev pub and64 : ℕ → ℕ → ℕ
and64 a b = bits_and 64 a b

pub pow_pos : (k : ℕ) → 0 < 2 ^ k
pow_pos zero = omega arith
pow_pos (suc k) = omega (arith, pow_pos k)

-- The remainder by twice a number, digit by digit.
mod-double : (a p : ℕ) → 0 < p → a % (2 * p) ≡ 2 * (a / 2 % p) + a % 2
mod-double a p h =
    let q = a / 2 / p in
    let r = a / 2 % p in
    let e : 2 * p * q + (2 * r + a % 2) ≡ a = grind (arith, div-add-mod (a / 2) p) in
    let l : 2 * r + a % 2 < 2 * p = omega (arith, mod-lt (a / 2) h) in
    ap (λ x. x % (2 * p)) (sym e) ∙ mul-add-mod_self_left (2 * p) q (2 * r + a % 2) ∙ mod-eq_of_lt l

pub bits_and-zero : (n a : ℕ) → bits_and n a 0 ≡ 0
unfolding bits_and
bits_and-zero zero a = refl
bits_and-zero (suc n) a = omega (arith, bits_and-zero n (a / 2))

-- A mask of `k` ones takes the remainder.
bits_and-mask : (n k a : ℕ) → k ≤ n → bits_and n a (2 ^ k - 1) ≡ a % 2 ^ k
unfolding bits_and
bits_and-mask n zero a h = bits_and-zero n a ∙ sym (mod-one a)
bits_and-mask zero (suc k) a h = elim h [ ]
bits_and-mask (suc n) (suc k) a h =
    let e : (2 ^ suc k - 1) / 2 ≡ 2 ^ k - 1 = omega (arith, pow_pos k) in
    let o : (2 ^ suc k - 1) % 2 ≡ 1 = omega (arith, pow_pos k) in
    let t : 2 ^ suc k ≡ 2 * 2 ^ k = omega arith in
    rw (e, o, bits_and-mask n k (a / 2) (omega arith), t, mod-double a (2 ^ k) (pow_pos k))
      (omega arith)

pub and64-mask : (k a : ℕ) → k ≤ 64 → and64 a (2 ^ k - 1) ≡ a % 2 ^ k
and64-mask k a h = bits_and-mask 64 k a h
