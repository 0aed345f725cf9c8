-- ===== src/Zbc/Write/Facts.antt =====
-- What a round of `zbc_write` needs to know of its numbers, its zone and its vector.
use tcmu_runner.Prelude.{
  ℕ, ◌+◌, ◌*◌, ◌/◌, ◌%◌, ◌≤◌, ◌<◌, ◌≡◌, refl, ap, ◌∙◌, true, false, not, ◌&&◌, List, [], ◌∷◌, some,
  length, min, arith, dec_lt,
}
use native.Mathlib.Nat.{div-add-mod', add-mul as add_mul}
use tcmu_runner.Iovec.{Iovec, windows}
use tcmu_runner.Zbc.{Zone, ZbcDev, is_seq, is_full, is_open}
use tcmu_runner.Zbc.Invariant.{ZoneOk, ZoneAt, is_openable}
use tcmu_runner.Zbc.Commands.{get_zone}
use tcmu_runner.Zbc.Write.Zones.{Geometry, get_zone-Holds, zone_end-le}

le_mul : (m n b : ℕ) → m ≤ n → m * b ≤ n * b
le_mul m n b h = grind arith

-- A multiple of the zone size and the next one hold a block between them for one index only.
same_multiple : (a b c x : ℕ) → a * c ≤ x → x < (a + 1) * c → b * c ≤ x → x < (b + 1) * c → a ≡ b
same_multiple a b c x p q r s = elim (dec_lt a b) [
  | yes h ↦ absurd (grind (arith, le_mul (a + 1) b c (omega arith)))
  | no h ↦ elim (dec_lt b a) [
    | yes k ↦ absurd (grind (arith, le_mul (b + 1) a c (omega arith)))
    | no k ↦ omega arith
  ]
]

-- A number of bytes that is whole blocks, in blocks.
pub counted :
    (nr len b ret : ℕ)
    → 0 < ret
    → ret ≤ min nr (len / b) * b
    → ret % b ≡ 0
    → (ret ≡ ret / b * b) × (0 < ret / b) × (ret / b ≤ nr) × (ret ≤ len)
counted nr len b ret p few whole = (exact, some_blocks, at_most, fits)
  where
    exact : ret ≡ ret / b * b
    exact = omega (arith, div-add-mod' ret b)

    some_blocks : 0 < ret / b
    some_blocks = elim (dec_lt 0 (ret / b)) [
      | yes h ↦ h
      | no h ↦ absurd (omega (arith, exact, ap (λ x. x * b) {x = ret / b} {y = 0} (omega arith)))
    ]

    some_size : 0 < b
    some_size = elim (dec_lt 0 b) [
      | yes h ↦ h
      | no h ↦
          absurd (omega (arith, few, ap (λ x. min nr (len / b) * x) {x = b} {y = 0} (omega arith)))
    ]

    at_most : ret / b ≤ nr
    at_most = elim (dec_lt nr (ret / b)) [
      | no h ↦ omega arith
      | yes h ↦ absurd (
          omega (
            arith,
            exact,
            few,
            some_size,
            le_mul (nr + 1) (ret / b) b (omega arith),
            le_mul (min nr (len / b)) nr b (omega arith),
            add_mul nr 1 b,
          ))
    ]

    fits : ret ≤ len
    fits =
        omega (arith, few, le_mul (min nr (len / b)) (len / b) b (omega arith), div-add-mod' len b)

-- The zone that is found for a block is the one that it lies in.
pub get_zone-within :
    {d : ZbcDev} {z : Zone} (i lba : ℕ)
    → Geometry d
    → ZoneAt d i z
    → z.start ≤ lba
    → lba < z.start + z.len
    → get_zone d lba false ≡ some i
get_zone-within {d} {z} i lba g e a b =
    let (j, y, h) = get_zone-Holds lba g (omega (arith, zone_end-le i g e)) in
    let s = g.tiles i z e in
    let t = g.tiles j y h.at in
    h.found
    ∙ ap some (
        same_multiple j i d.zone_size lba (omega (arith, t.0, h.above))
          (omega (arith, t.1, h.below)) (omega (arith, s.0)) (omega (arith, s.1)))

pub openable :
    (z : Zone)
    → ZoneOk z
    → (is_seq z && not (is_open z)) ≡ true
    → is_full z ≡ false
    → is_openable z ≡ true
openable z ok shut nf = ground (arith, ok.pointer)

pub first :
    (vs : List Iovec) → 0 < length (windows vs) → (v : Iovec) × (ws : List Iovec) × (vs ≡ v ∷ ws)
first [] h = absurd (omega arith)
first (v ∷ ws) h = (v, ws, refl)

pub some_bytes : (nr b n : ℕ) → n ≡ nr * b → 0 < nr → 0 < b → 0 < n
some_bytes nr b n e p q = omega (arith, le_mul 1 nr b (omega arith))
