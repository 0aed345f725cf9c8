-- ===== src/Zbc/Invariant/Settling.antt =====
-- Closing, finishing and resetting any zone of the array: the invariant and the places of the zones are
-- kept, and nothing is opened.
use tcmu_runner.Prelude.{
  ℕ, ◌≤◌, ◌≡◌, Bool, true, false, none, get_elem?, arith, Bool-cases, Option-cases, inl, inr, ◌⊎◌,
}
use tcmu_runner.Zbc.{Zone, ZbcDev, is_conv, do_close_zone, do_finish_zone, do_reset_wp}
use tcmu_runner.Zbc.Invariant.Defs.{IsValid}
use tcmu_runner.Zbc.Invariant.Ops.{ZoneAt, do_close_zone-outside}
use tcmu_runner.Zbc.Invariant.Places.{Frame, Frame-refl, Frame-trans}
use tcmu_runner.Zbc.Invariant.Finish.{
  Settles, close-Settles, finishes, do_finish_zone-Settles, do_reset_wp-Settles,
}

-- A step that keeps the invariant and the places of the zones, and opens nothing.
pub record Keeps (d d' : ZbcDev) : Type 0 where
  pub valid : IsValid d'
  pub frame : Frame d d'
  pub imp : d'.nr_imp_open ≤ d.nr_imp_open
  pub exp : d'.nr_exp_open ≤ d.nr_exp_open

pub Keeps-refl : {d : ZbcDev} → IsValid d → Keeps d d
Keeps-refl {d} v = record { valid = v; frame = Frame-refl d; imp = omega arith; exp = omega arith }

pub Keeps-trans : {a b c : ZbcDev} → Keeps a b → Keeps b c → Keeps a c
Keeps-trans f g = record {
  valid = g.valid;
  frame = Frame-trans f.frame g.frame;
  imp = omega (arith, f.imp, g.imp);
  exp = omega (arith, f.exp, g.exp);
}

Settles-Keeps : {d d' : ZbcDev} {i : ℕ} {z : Zone} → Settles d i z d' → Keeps d d'
Settles-Keeps s = record { valid = s.valid; frame = s.frame; imp = s.imp; exp = s.exp }

pub do_close_zone-Keeps : {d : ZbcDev} (i : ℕ) → IsValid d → Keeps d (do_close_zone d i)
do_close_zone-Keeps {d} i v = elim (Option-cases (get_elem? d.zones i)) [
  | inl n ↦ rw (do_close_zone-outside d i n) (Keeps-refl v)
  | inr (z, e) ↦ Settles-Keeps (close-Settles i v e)
]

finish_nothing :
    (d : ZbcDev) (i : ℕ) (also_empty : Bool)
    → get_elem? d.zones i ≡ none
    → do_finish_zone d i also_empty ≡ d
unfolding do_finish_zone
finish_nothing d i also_empty n = ground arith

finish_skipped :
    (d : ZbcDev) {z : Zone} (i : ℕ) (also_empty : Bool)
    → ZoneAt d i z
    → (is_conv z ≡ true) ⊎ (finishes z also_empty ≡ false)
    → do_finish_zone d i also_empty ≡ d
unfolding do_finish_zone
finish_skipped d {z} i also_empty e h = ground (arith, e)

pub do_finish_zone-Keeps :
    {d : ZbcDev} (i : ℕ) (also_empty : Bool) → IsValid d → Keeps d (do_finish_zone d i also_empty)
do_finish_zone-Keeps {d} i also_empty v = elim (Option-cases (get_elem? d.zones i)) [
  | inl n ↦ rw (finish_nothing d i also_empty n) (Keeps-refl v)
  | inr (z, e) ↦ elim (Bool-cases (is_conv z)) [
    | inl c ↦ rw (finish_skipped d i also_empty e (inl c)) (Keeps-refl v)
    | inr s ↦ elim (Bool-cases (finishes z also_empty)) [
      | inl f ↦ Settles-Keeps (do_finish_zone-Settles i also_empty v e s f)
      | inr f ↦ rw (finish_skipped d i also_empty e (inr f)) (Keeps-refl v)
    ]
  ]
]

reset_skipped :
    (d : ZbcDev) (i : ℕ) → ((z : Zone) → ZoneAt d i z → is_conv z ≡ true) → do_reset_wp d i ≡ d
unfolding do_reset_wp
reset_skipped d i h = elim (Option-cases (get_elem? d.zones i)) [
  | inl n ↦ ground (arith, n)
  | inr (z, e) ↦ ground (arith, e, h z e)
]

pub do_reset_wp-Keeps : {d : ZbcDev} (i : ℕ) → IsValid d → Keeps d (do_reset_wp d i)
do_reset_wp-Keeps {d} i v = elim (Option-cases (get_elem? d.zones i)) [
  | inl n ↦ rw (reset_skipped d i (λ z e. cc)) (Keeps-refl v)
  | inr (z, e) ↦ elim (Bool-cases (is_conv z)) [
    | inl c ↦ rw (reset_skipped d i (λ y at. ground arith)) (Keeps-refl v)
    | inr s ↦ Settles-Keeps (do_reset_wp-Settles i v e s)
  ]
]
