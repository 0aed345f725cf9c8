-- ===== src/Zbc/Invariant/Places.antt =====
-- What the operations on zones leave alone: the configuration, and where every zone lies.
use tcmu_runner.Prelude.{
  ℕ, ◌≡◌, refl, ◌∙◌, get_elem?, set, Option-cases, Bool-cases, inl, inr, map, map-set_same,
}
use tcmu_runner.Zbc.{ZoneType, Zone, ZbcDev, is_open, do_close_zone}
use tcmu_runner.Zbc.Invariant.Defs.{IsValid}
use tcmu_runner.Zbc.Invariant.Ops.{
  ZoneAt, shut, after_close, do_close_zone_lem, do_close_zone-outside,
}

-- The part of a zone descriptor that formatting fixes.
pub record Place : Type 0 where
  pub start : ℕ
  pub len : ℕ
  pub type : ZoneType

abbrev pub place : Zone → Place
place z = record { start = z.start; len = z.len; type = z.type }

pub record Frame (d d' : ZbcDev) : Type 0 where
  pub model : d'.model ≡ d.model
  pub capacity : d'.capacity ≡ d.capacity
  pub lba_size : d'.lba_size ≡ d.lba_size
  pub zone_size : d'.zone_size ≡ d.zone_size
  pub nr_zones : d'.nr_zones ≡ d.nr_zones
  pub nr_conv_zones : d'.nr_conv_zones ≡ d.nr_conv_zones
  pub nr_open_zones : d'.nr_open_zones ≡ d.nr_open_zones
  pub places : map place d'.zones ≡ map place d.zones

pub Frame-refl : (d : ZbcDev) → Frame d d
Frame-refl d = record {
  model = refl;
  capacity = refl;
  lba_size = refl;
  zone_size = refl;
  nr_zones = refl;
  nr_conv_zones = refl;
  nr_open_zones = refl;
  places = refl;
}

pub Frame-trans : {a b c : ZbcDev} → Frame a b → Frame b c → Frame a c
Frame-trans f g = record {
  model = g.model ∙ f.model;
  capacity = g.capacity ∙ f.capacity;
  lba_size = g.lba_size ∙ f.lba_size;
  zone_size = g.zone_size ∙ f.zone_size;
  nr_zones = g.nr_zones ∙ f.nr_zones;
  nr_conv_zones = g.nr_conv_zones ∙ f.nr_conv_zones;
  nr_open_zones = g.nr_open_zones ∙ f.nr_open_zones;
  places = g.places ∙ f.places;
}

-- A write to one zone that does not move it, with any counters.
pub Frame-put :
    (d : ZbcDev) {z : Zone} (i : ℕ) (z' : Zone) (m n : ℕ)
    → ZoneAt d i z
    → place z' ≡ place z
    → Frame d (record d { zones = set d.zones i z'; nr_imp_open = m; nr_exp_open = n })
Frame-put d i z' m n e p = record {
  model = refl;
  capacity = refl;
  lba_size = refl;
  zone_size = refl;
  nr_zones = refl;
  nr_conv_zones = refl;
  nr_open_zones = refl;
  places = map-set_same place d.zones i z' e p;
}

after_close-Frame : (d : ZbcDev) {z : Zone} (i : ℕ) → ZoneAt d i z → Frame d (after_close d i z)
after_close-Frame d {z} i e = elim (Bool-cases (is_open z)) [
  | inl o ↦ rw o (Frame-put d i (shut z) _ _ e refl)
  | inr c ↦ rw c (Frame-refl d)
]

pub do_close_zone-Frame : {d : ZbcDev} (i : ℕ) → IsValid d → Frame d (do_close_zone d i)
do_close_zone-Frame {d} i v = elim (Option-cases (get_elem? d.zones i)) [
  | inl n ↦ rw (do_close_zone-outside d i n) (Frame-refl d)
  | inr (z, e) ↦ rw (do_close_zone_lem i v e) (after_close-Frame d i e)
]
