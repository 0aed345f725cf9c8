-- ===== src/Zbc/Format/Fresh.antt =====
-- The device that `zbc_format_meta` leaves.
use tcmu_runner.Prelude.{
  ℕ, ◌+◌, ◌-◌, ◌*◌, ◌/◌, ◌%◌, ◌^◌, ◌<◌, ◌≡◌, refl, ap, ◌∙◌, sym, Bool, true, some, min, arith, ◌==◌,
  if◌then◌else◌, Bool-cases, inl, inr, ◌⊎◌,
}
use tcmu_runner.Zbc.{ZbcDev}
use tcmu_runner.Zbc.Invariant.{IsValid, WithinLimit}
use tcmu_runner.Zbc.Write.Zones.{Geometry}
use tcmu_runner.Zbc.Format.{
  DevConfig, conf_default_conv_num, conv_zones, sized_dev, formatted, format_meta,
}
use tcmu_runner.Zbc.Format.Layout.{
  Fits, Fits-of_sizes, length-format_zones, imp_total, exp_total, zones_ok, tiles,
}

-- A configuration whose sizes make sense: blocks and zones are not empty, the numbers fit their types,
-- and if the number of conventional zones is given, there are more zones than that.
pub record Sensible (cfg : DevConfig) : Type 0 where
  pub zone_positive : 0 < cfg.zone_size / cfg.lba_size
  pub zone_word : cfg.zone_size / cfg.lba_size < 2 ^ 32
  pub positive : 0 < cfg.dev_size / cfg.lba_size
  pub small : cfg.dev_size / cfg.lba_size < 2 ^ 62
  pub few :
      (cfg.dev_size / cfg.lba_size + cfg.zone_size / cfg.lba_size - 1)
        / (cfg.zone_size / cfg.lba_size)
      < 2 ^ 32
  pub conv :
      (cfg.conv_num ≡ conf_default_conv_num)
      ⊎ (cfg.conv_num
          < (cfg.dev_size / cfg.lba_size + cfg.zone_size / cfg.lba_size - 1)
            / (cfg.zone_size / cfg.lba_size))

conv_zones-some :
    (cfg : DevConfig) (n : ℕ)
    → (cfg.conv_num ≡ conf_default_conv_num) ⊎ (cfg.conv_num < n)
    → (c : ℕ) × (conv_zones cfg n ≡ some c)
conv_zones-some cfg n h = elim (Bool-cases (cfg.conv_num == conf_default_conv_num)) [
  | inl e ↦ ((if n / 100 == 0 then 1 else n / 100), ground (arith, e))
  | inr e ↦ (cfg.conv_num, ground (arith, h))
]

-- The number of zones fits its type.
conv_fits :
    (cfg : DevConfig)
    → Sensible cfg
    → (cfg.conv_num ≡ conf_default_conv_num)
      ⊎ (cfg.conv_num
          < (cfg.dev_size / cfg.lba_size + cfg.zone_size / cfg.lba_size - 1)
            / (cfg.zone_size / cfg.lba_size)
            % 2 ^ 32)
conv_fits cfg s = elim s.conv [ inl e ↦ inl e | inr h ↦ inr (omega (arith, s.few)) ]

sized-Fits : (d : ZbcDev) (cfg : DevConfig) (c : ℕ) → Sensible cfg → Fits (sized_dev d cfg c)
sized-Fits d cfg c s =
    Fits-of_sizes (sized_dev d cfg c) s.zone_positive s.zone_word s.small s.positive
      (omega (arith, s.few))

formatted-IsValid :
    (d : ZbcDev) (cfg : DevConfig) (c : ℕ)
    → Sensible cfg
    → d.nr_imp_open ≡ 0
    → d.nr_exp_open ≡ 0
    → IsValid (formatted d cfg c)
formatted-IsValid d cfg c s imp exp = record {
  sized = length-format_zones e e.nr_zones 0 0;
  few = omega arith;
  imp_count = imp ∙ sym (imp_total e e.nr_zones 0 0);
  exp_count = exp ∙ sym (exp_total e e.nr_zones 0 0);
  zones_ok = zones_ok e e.nr_zones 0 0 (sized-Fits d cfg c s) (omega arith) (omega arith);
}
  where
    e : ZbcDev
    e = sized_dev d cfg c

formatted-Geometry :
    (d : ZbcDev) (cfg : DevConfig) (c : ℕ) → Sensible cfg → Geometry (formatted d cfg c)
formatted-Geometry d cfg c s = record {
  sized = length-format_zones e e.nr_zones 0 0;
  few = omega arith;
  small = omega (arith, f.small);
  positive = f.positive;
  covered = f.covered;
  tiles = λ i z at.
      let t = tiles e e.nr_zones 0 0 i z f (omega arith) (omega arith) at in
      let from_0 : 0 + i ≡ i = omega arith in
      (
        t.0 ∙ ap (λ k. k * e.zone_size) from_0,
        t.1 ∙ ap (λ k. min ((k + 1) * e.zone_size) e.capacity) from_0,
      );
}
  where
    e : ZbcDev
    e = sized_dev d cfg c

    f : Fits e
    f = sized-Fits d cfg c s

-- With a configuration whose sizes make sense and a device structure that counts no open zone, and if
-- truncating, mapping and flushing the file succeed, `zbc_format_meta` succeeds, and the
-- device is valid, its zones tile it, and it is within its limit of open zones.
pub format_meta-IsValid :
    (io : ZbcDev → Bool) (cfg : DevConfig) (d : ZbcDev)
    → ((e : ZbcDev) → io e ≡ true)
    → Sensible cfg
    → d.nr_imp_open ≡ 0
    → d.nr_exp_open ≡ 0
    → (d' : ZbcDev) × (format_meta io cfg d ≡ some d') × IsValid d' × Geometry d' × WithinLimit d'
unfolding format_meta
format_meta-IsValid io cfg d ok s imp exp =
    let (c, e) = conv_zones-some cfg (sized_dev d cfg 0).nr_zones (conv_fits cfg s) in
    (
      formatted d cfg c,
      rw (e, ok (formatted d cfg c), format_meta) refl,
      formatted-IsValid d cfg c s imp exp,
      formatted-Geometry d cfg c s,
      omega arith,
    )
