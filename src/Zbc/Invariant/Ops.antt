-- ===== src/Zbc/Invariant/Ops.antt =====
-- The operations on one zone keep the invariant and do to the counters what they should.
use tcmu_runner.Prelude.{
  ℕ, zero, suc, ◌+◌, ◌-◌, ◌≤◌, ◌<◌, ◌^◌, ◌≡◌, true, false, none, some, get_elem?, set, All-get,
  All-set, length-set, total-set, total-le, total-add-le, weight-le-total, arith, if◌then◌else◌,
  ◌==◌, Option-cases, Bool-cases, inl, inr,
}
use tcmu_runner.Zbc.{
  empty, closed, exp_open, Zone, ZbcDev, is_conv, is_exp_open, is_open, imp_open_at, do_close_zone,
  close_imp_from, add32,
}
use tcmu_runner.Zbc.Invariant.Defs.{ZoneOk, imp_weight, exp_weight, IsValid}

imp_weight-le : (z : Zone) → imp_weight z ≤ 1
imp_weight-le z = ground arith

exp_weight-le : (z : Zone) → exp_weight z ≤ 1
exp_weight-le z = ground arith

abbrev pub ZoneAt : ZbcDev → ℕ → Zone → Type 0
ZoneAt d i z = get_elem? d.zones i ≡ some z

-- A write to one zone, with the counters moved by what the zone counts for before and after.
pub put_zone-IsValid :
    {d : ZbcDev} {z : Zone} (i : ℕ) (z' : Zone) (m n : ℕ)
    → IsValid d
    → ZoneAt d i z
    → ZoneOk z'
    → m + imp_weight z ≡ d.nr_imp_open + imp_weight z'
    → n + exp_weight z ≡ d.nr_exp_open + exp_weight z'
    → IsValid (record d { zones = set d.zones i z'; nr_imp_open = m; nr_exp_open = n })
put_zone-IsValid {d} {z} i z' m n v e ok p q = record {
  sized = omega (arith, length-set d.zones i z', v.sized);
  few = v.few;
  imp_count = omega (arith, total-set imp_weight d.zones i z' z e, v.imp_count);
  exp_count = omega (arith, total-set exp_weight d.zones i z' z e, v.exp_count);
  zones_ok = All-set ZoneOk d.zones i z' v.zones_ok ok;
}

pub counts-lt : {d : ZbcDev} → IsValid d → (d.nr_imp_open < 2 ^ 32) × (d.nr_exp_open < 2 ^ 32)
counts-lt {d} v =
    omega
      (arith, total-le imp_weight imp_weight-le d.zones, total-le exp_weight exp_weight-le d.zones)

-- What a zone adds to a counter the counter holds, and no counter reaches 2 ^ 32.
pub counters :
    {d : ZbcDev} {z : Zone} (i : ℕ)
    → IsValid d
    → ZoneAt d i z
    → (imp_weight z ≤ d.nr_imp_open)
      × (exp_weight z ≤ d.nr_exp_open)
      × (d.nr_imp_open < 2 ^ 32)
      × (d.nr_exp_open < 2 ^ 32)
counters {d} {z} i v e = omega (
  arith,
  weight-le-total imp_weight d.zones i e,
  weight-le-total exp_weight d.zones i e,
  total-le imp_weight imp_weight-le d.zones,
  total-le exp_weight exp_weight-le d.zones,
)

-- With a zone that is not explicitly open, the counter can be incremented.
pub exp-lt :
    {d : ZbcDev} {z : Zone} (i : ℕ)
    → IsValid d
    → ZoneAt d i z
    → is_exp_open z ≡ false
    → d.nr_exp_open + 1 < 2 ^ 32
exp-lt {d} {z} i v e x = ground (
  arith,
  total-set exp_weight d.zones i z' z e,
  total-le exp_weight exp_weight-le (set d.zones i z'),
  length-set d.zones i z',
)
  where
    z' : Zone
    z' = record z { cond = exp_open }

weights-le : (z : Zone) → imp_weight z + exp_weight z ≤ 1
weights-le z = ground arith

-- The sum that `__zbc_open_zone` compares does not wrap.
pub no_wrap :
    {d : ZbcDev} → IsValid d → add32 d.nr_imp_open d.nr_exp_open ≡ d.nr_imp_open + d.nr_exp_open
no_wrap {d} v = omega (arith, total-add-le imp_weight exp_weight weights-le d.zones)

pub zone-ZoneOk : {d : ZbcDev} {z : Zone} (i : ℕ) → IsValid d → ZoneAt d i z → ZoneOk z
zone-ZoneOk {d} i v e = All-get ZoneOk d.zones i v.zones_ok e

-- What `__zbc_close_zone` makes of an open zone and of the device.
abbrev pub shut : Zone → Zone
shut z = record z { cond = if z.wp == z.start then empty else closed }

abbrev pub after_close : ZbcDev → ℕ → Zone → ZbcDev
after_close d i z =
    if is_open z
    then record d {
      zones = set d.zones i (shut z);
      nr_imp_open = d.nr_imp_open - imp_weight z;
      nr_exp_open = d.nr_exp_open - exp_weight z;
    }
    else d

-- Closing needs only that the counters do not run below zero.
pub do_close_zone_raw :
    (d : ZbcDev) {z : Zone} (i : ℕ)
    → ZoneAt d i z
    → is_conv z ≡ false
    → imp_weight z ≤ d.nr_imp_open
    → exp_weight z ≤ d.nr_exp_open
    → d.nr_imp_open < 2 ^ 32
    → d.nr_exp_open < 2 ^ 32
    → do_close_zone d i ≡ after_close d i z
unfolding do_close_zone
do_close_zone_raw d {z} i e c p q m n = ground (arith, e)

pub do_close_zone_lem :
    {d : ZbcDev} {z : Zone} (i : ℕ)
    → IsValid d
    → ZoneAt d i z
    → do_close_zone d i ≡ after_close d i z
unfolding do_close_zone
do_close_zone_lem {d} {z} i v e = ground (arith, e, counters i v e, zone-ZoneOk i v e)

pub shut-ZoneOk : (z : Zone) → ZoneOk z → is_open z ≡ true → ZoneOk (shut z)
shut-ZoneOk z ok o = ground arith

after_close-IsValid :
    {d : ZbcDev} {z : Zone} (i : ℕ) → IsValid d → ZoneAt d i z → IsValid (after_close d i z)
after_close-IsValid {d} {z} i v e = elim (Bool-cases (is_open z)) [
  | inl o ↦ rw o (
      put_zone-IsValid i (shut z) _ _ v e (shut-ZoneOk z (zone-ZoneOk i v e) o)
        (ground (arith, counters i v e)) (ground (arith, counters i v e)))
  | inr c ↦ rw c v
]

pub do_close_zone-outside :
    (d : ZbcDev) (i : ℕ) → get_elem? d.zones i ≡ none → do_close_zone d i ≡ d
unfolding do_close_zone
do_close_zone-outside d i n = ground arith

pub do_close_zone-IsValid : {d : ZbcDev} (i : ℕ) → IsValid d → IsValid (do_close_zone d i)
do_close_zone-IsValid {d} i v = elim (Option-cases (get_elem? d.zones i)) [
  | inl n ↦ rw (do_close_zone-outside d i n) v
  | inr (z, e) ↦ rw (do_close_zone_lem i v e) (after_close-IsValid i v e)
]

-- An implicitly open zone other than the one in mind is closed.
pub close_imp_from-IsValid : (n i : ℕ) {d : ZbcDev} → IsValid d → IsValid (close_imp_from n i d)
unfolding close_imp_from
close_imp_from-IsValid zero i v = v
close_imp_from-IsValid (suc n) i {d} v = elim (Bool-cases (imp_open_at d i)) [
  | inl o ↦ rw (o, close_imp_from) (do_close_zone-IsValid i v)
  | inr o ↦ rw (o, close_imp_from) (close_imp_from-IsValid n (i + 1) v)
]
