-- ===== src/Zbc/Format.antt =====
-- Formatting the zoned device and taking it up again: `zbc_format_meta` and `zbc_init_meta`.
-- The device that it fills in is an argument, of which the counters of open zones are kept. Truncating
-- the file, mapping it and flushing it are one parameter, which says for a device whether they succeed.
pub mod Layout
pub mod Fresh
pub mod Restart
use tcmu_runner.Prelude.{
  for_range, ℕ, zero, suc, ◌+◌, ◌-◌, ◌/◌, ◌%◌, ◌^◌, Bool, true, false, List, [], ◌∷◌, Option, none,
  some, ltb, leb, ◌==◌, if◌then◌else◌,
}
use tcmu_runner.Zbc.{
  do_close_zone, DevModel, ha, hm, ZoneType, conventional, seqwrite_req, seqwrite_pref, not_wp,
  empty, Zone, ZbcDev, add64,
}

-- `struct zbc_dev_config`, without the path; the flag for formatting is read by the caller.
pub record DevConfig : Type 0 where
  pub dev_size : ℕ
  pub model : DevModel
  pub lba_size : ℕ
  pub zone_size : ℕ
  pub conv_num : ℕ
  pub open_num : ℕ

abbrev pub conf_default_conv_num : ℕ
conf_default_conv_num = 2 ^ 32 - 1

abbrev pub seq_type : DevModel → ZoneType
seq_type ha = seqwrite_pref
seq_type hm = seqwrite_req

-- The length of the zone that starts at `lba`; the zone size is a __u32 of the metadata.
abbrev pub zone_len : ZbcDev → ℕ → ℕ
zone_len d lba =
    if ltb d.capacity (add64 lba (d.zone_size % 2 ^ 32))
    then (d.capacity + 2 ^ 64 - lba) % 2 ^ 64
    else d.zone_size % 2 ^ 32

-- Zone `i` as the loop of `zbc_format_meta` fills it in.
abbrev pub new_zone : ZbcDev → ℕ → ℕ → Zone
new_zone d i lba =
    if ltb i d.nr_conv_zones
    then record {
      start = lba;
      len = zone_len d lba;
      wp = 2 ^ 64 - 1;
      type = conventional;
      cond = not_wp;
      non_seq = false;
      reset = false;
    }
    else record {
      start = lba;
      len = zone_len d lba;
      wp = lba;
      type = seq_type d.model;
      cond = empty;
      non_seq = false;
      reset = false;
    }

-- The loop, with `n` zones to go.
unfoldable pub format_zones : ZbcDev → ℕ → ℕ → ℕ → List Zone
format_zones d zero i lba = []
format_zones d (suc n) i lba =
    new_zone d i lba ∷ format_zones d n (i + 1) (add64 lba (zone_len d lba))

-- The number of conventional zones; `none` is -ENOSPC.
abbrev pub conv_zones : DevConfig → ℕ → Option ℕ
conv_zones cfg nr_zones =
    if cfg.conv_num == conf_default_conv_num
    then some (if nr_zones / 100 == 0 then 1 else nr_zones / 100)
    else if leb nr_zones cfg.conv_num
    then none
    else some cfg.conv_num

-- The limit of open zones: at most half of the sequential zones, but at least one.
abbrev pub open_zones : DevConfig → ℕ → ℕ
open_zones cfg nr_seq_zones =
    if leb (nr_seq_zones / 2) cfg.open_num
    then (if nr_seq_zones / 2 == 0 then 1 else nr_seq_zones / 2)
    else cfg.open_num

-- The fields of the device up to the zones.
abbrev pub sized_dev : ZbcDev → DevConfig → ℕ → ZbcDev
sized_dev d cfg nr_conv_zones =
    let capacity = cfg.dev_size / cfg.lba_size in
    let zone_size = cfg.zone_size / cfg.lba_size in
    let nr_zones = (capacity + zone_size - 1) / zone_size % 2 ^ 32 in
    record d {
      model = cfg.model;
      lba_size = cfg.lba_size;
      capacity = capacity;
      zone_size = zone_size;
      nr_zones = nr_zones;
      nr_conv_zones = nr_conv_zones;
      nr_open_zones = open_zones cfg ((nr_zones + 2 ^ 32 - nr_conv_zones) % 2 ^ 32);
    }

-- The device with its new zones.
abbrev pub formatted : ZbcDev → DevConfig → ℕ → ZbcDev
formatted d cfg nr_conv_zones =
    let e = sized_dev d cfg nr_conv_zones in record e { zones = format_zones e e.nr_zones 0 0 }

-- `zbc_format_meta`; `none` is an error.
unfoldable pub format_meta : (ZbcDev → Bool) → DevConfig → ZbcDev → Option ZbcDev
unfolding format_zones
format_meta io cfg d = elim (conv_zones cfg (sized_dev d cfg 0).nr_zones) [
  | none ↦ none
  | some nr_conv_zones ↦
      if io (formatted d cfg nr_conv_zones) then some (formatted d cfg nr_conv_zones) else none
]

abbrev pub close_at : ℕ → ZbcDev → ZbcDev
close_at i d = do_close_zone d i

-- `zbc_init_meta`, on a device whose metadata the mapping has brought in; `none` if that failed.
unfoldable pub init_meta : (ZbcDev → Bool) → ZbcDev → Option ZbcDev
init_meta io d =
    if io d
    then some (record (for_range d.nr_zones 0 close_at d) { nr_imp_open = 0; nr_exp_open = 0 })
    else none
