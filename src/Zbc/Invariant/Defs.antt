-- ===== src/Zbc/Invariant/Defs.antt =====
-- The invariant: the counters of open zones are exact, and the write pointer of every zone lies where
-- its type and condition say.
use tcmu_runner.Prelude.{ℕ, ◌+◌, ◌≤◌, ◌<◌, ◌^◌, ◌≡◌, All, length, total, if◌then◌else◌}
use tcmu_runner.Zbc.{
  ZoneType, conventional, seqwrite_req, seqwrite_pref, other_type, ZoneCond, not_wp, empty,
  imp_open, exp_open, closed, full, Zone, ZbcDev, is_imp_open, is_exp_open,
}

-- Where the write pointer of a sequential zone lies.
abbrev pub PointerOk : ZoneCond → ℕ → ℕ → ℕ → Type 0
PointerOk empty start len wp = wp ≡ start
PointerOk imp_open start len wp = (start ≤ wp) × (wp < start + len)
PointerOk exp_open start len wp = (start ≤ wp) × (wp < start + len)
PointerOk closed start len wp = (start < wp) × (wp < start + len)
PointerOk full start len wp = wp ≡ start + len
PointerOk _ start len wp = ⊥

-- A conventional zone has no write pointer; a sequential zone is in one of five conditions.
abbrev pub CondOk : ZoneType → ZoneCond → ℕ → ℕ → ℕ → Type 0
CondOk conventional c start len wp = c ≡ not_wp
CondOk seqwrite_req c start len wp = PointerOk c start len wp
CondOk seqwrite_pref c start len wp = PointerOk c start len wp
CondOk (other_type n) c start len wp = ⊥

pub record ZoneOk (z : Zone) : Type 0 where
  pub nonempty : 0 < z.len
  pub small : z.start + z.len < 2 ^ 63
  pub pointer : CondOk z.type z.cond z.start z.len z.wp

abbrev pub imp_weight : Zone → ℕ
imp_weight z = if is_imp_open z then 1 else 0

abbrev pub exp_weight : Zone → ℕ
exp_weight z = if is_exp_open z then 1 else 0

pub record IsValid (d : ZbcDev) : Type 0 where
  pub sized : length d.zones ≡ d.nr_zones
  pub few : d.nr_zones < 2 ^ 32
  pub imp_count : d.nr_imp_open ≡ total imp_weight d.zones
  pub exp_count : d.nr_exp_open ≡ total exp_weight d.zones
  pub zones_ok : All ZoneOk d.zones

-- No more zones are open than the device allows.
abbrev pub WithinLimit : ZbcDev → Type 0
WithinLimit d = d.nr_imp_open + d.nr_exp_open ≤ d.nr_open_zones
