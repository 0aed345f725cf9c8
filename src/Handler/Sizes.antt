-- ===== src/Handler/Sizes.antt =====
-- Sizes in bytes and in blocks on a device whose last byte has a 64-bit offset.
use tcmu_runner.Prelude.{ℕ, ◌+◌, ◌*◌, ◌%◌, ◌^◌, ◌≤◌, ◌<◌, ◌≡◌, ap, sym, ◌∙◌, ◌/◌, true, arith}
use native.Mathlib.Nat.{
  zero-mul, mul-one, mul-div_cancel, add-mul as add_mul, mod-eq_of_lt, mod-lt, div-add-mod',
  mul_assoc, mul-add-mod_self_right, mul-le-mul_left, mul-le-mul_right,
}
use tcmu_runner.Status.{is_ok}
use tcmu_runner.Handler.{Device, lba_to_byte, byte_to_lba, check_lbas}
use tcmu_runner.Handler.Bits.{pow_pos}

-- The size of the device is less than 2 ^ 64 bytes.
abbrev pub Fits : Device → Type 0
Fits d = d.num_lbas * 2 ^ d.block_size_shift < 2 ^ 64

pub Fits-lbas : (d : Device) → Fits d → d.num_lbas < 2 ^ 64
Fits-lbas d fits =
    omega (arith, mul-le-mul_left d.num_lbas (pow_pos d.block_size_shift), mul-one d.num_lbas)

pub lba_to_byte-small :
    (d : Device) (lba : ℕ)
    → Fits d
    → lba ≤ d.num_lbas
    → lba_to_byte d lba ≡ lba * 2 ^ d.block_size_shift
unfolding lba_to_byte
lba_to_byte-small d lba fits h =
    mod-eq_of_lt (omega (arith, mul-le-mul_right (2 ^ d.block_size_shift) h))

pub lba_to_byte-add :
    (d : Device) (a b : ℕ)
    → Fits d
    → a + b ≤ d.num_lbas
    → lba_to_byte d (a + b) ≡ lba_to_byte d a + lba_to_byte d b
lba_to_byte-add d a b fits h =
    rw
      (
        lba_to_byte-small d (a + b) fits h,
        lba_to_byte-small d a fits (omega arith),
        lba_to_byte-small d b fits (omega arith),
      )
      (add_mul a b (2 ^ d.block_size_shift))

pub lba_to_byte-zero : (d : Device) → lba_to_byte d 0 ≡ 0
unfolding lba_to_byte
lba_to_byte-zero d = ap (λ x. x % 2 ^ 64) (zero-mul (2 ^ d.block_size_shift))

pub byte_to_lba-lba_to_byte :
    (d : Device) (lba : ℕ) → Fits d → lba ≤ d.num_lbas → byte_to_lba d (lba_to_byte d lba) ≡ lba
unfolding byte_to_lba
byte_to_lba-lba_to_byte d lba fits h =
    rw (lba_to_byte-small d lba fits h) (mul-div_cancel lba (pow_pos d.block_size_shift))

mul-lt-mul_right : (b : ℕ) {x g : ℕ} → 0 < b → x < g → x * b < g * b
mul-lt-mul_right b {x} {g} q l = omega (arith, mul-le-mul_right b l, add_mul 1 x b, q)

pub mul-mod-mul_right : (b x g : ℕ) → 0 < g → 0 < b → x * b % (g * b) ≡ x % g * b
mul-mod-mul_right b x g p q =
    let e : x * b ≡ x / g * (g * b) + x % g * b =
      ap (λ y. y * b) (sym (div-add-mod' x g))
      ∙ add_mul (x / g * g) (x % g) b
      ∙ ap (λ y. y + x % g * b) (mul_assoc (x / g) g b) in
    let l : x % g * b < g * b = mul-lt-mul_right b q (mod-lt x p) in
    ap (λ y. y % (g * b)) e ∙ mul-add-mod_self_right (x / g) (g * b) (x % g * b) ∙ mod-eq_of_lt l

-- What `check_lbas` lets through is on the device.
pub check_lbas-le :
    (d : Device) (lba n : ℕ)
    → d.num_lbas < 2 ^ 64
    → lba < 2 ^ 64
    → n < 2 ^ 64
    → is_ok (check_lbas d lba n) ≡ true
    → lba + n ≤ d.num_lbas
unfolding check_lbas
check_lbas-le d lba n w l m h = ground arith
