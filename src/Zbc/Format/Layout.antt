-- ===== src/Zbc/Format/Layout.antt =====
-- The zones that formatting lays out.
use tcmu_runner.Prelude.{
  ℕ, zero, suc, ◌+◌, ◌-◌, ◌*◌, ◌/◌, ◌%◌, ◌^◌, ◌≤◌, ◌<◌, ◌≡◌, refl, ap, ◌∙◌, some, get_elem?, length,
  min, total, All, arith, ltb, Bool-cases, inl, inr,
}
use native.Mathlib.Nat.{div-add-mod', mod-lt, add-mul as add_mul}
use tcmu_runner.Zbc.{empty, DevModel, ha, hm, Zone, ZbcDev, add64}
use tcmu_runner.Zbc.Invariant.{CondOk, ZoneOk, imp_weight, exp_weight}
use tcmu_runner.Zbc.Format.{seq_type, zone_len, new_zone, format_zones}

-- What is needed of the sizes: there are as many zones as the capacity takes, and nothing wraps.
pub record Fits (d : ZbcDev) : Type 0 where
  pub positive : 0 < d.zone_size
  pub word : d.zone_size < 2 ^ 32
  pub small : d.capacity < 2 ^ 62
  pub covered : d.capacity ≤ d.nr_zones * d.zone_size
  pub needed : (i : ℕ) → i < d.nr_zones → i * d.zone_size < d.capacity

pub length-format_zones : (d : ZbcDev) (n i lba : ℕ) → length (format_zones d n i lba) ≡ n
unfolding format_zones
length-format_zones d zero i lba = refl
length-format_zones d (suc n) i lba = ap suc (length-format_zones d n (i + 1) _)

pub imp_total : (d : ZbcDev) (n i lba : ℕ) → total imp_weight (format_zones d n i lba) ≡ 0
unfolding format_zones total
imp_total d zero i lba = refl
imp_total d (suc n) i lba = ground (arith, imp_total d n (i + 1) (add64 lba (zone_len d lba)))

pub exp_total : (d : ZbcDev) (n i lba : ℕ) → total exp_weight (format_zones d n i lba) ≡ 0
unfolding format_zones total
exp_total d zero i lba = refl
exp_total d (suc n) i lba = ground (arith, exp_total d n (i + 1) (add64 lba (zone_len d lba)))

-- The end of zone `i` is the start of the next, or the end of the device.
next_start :
    (d : ZbcDev) (i lba : ℕ)
    → Fits d
    → i < d.nr_zones
    → lba ≡ min (i * d.zone_size) d.capacity
    → (lba ≡ i * d.zone_size)
      × (0 < zone_len d lba)
      × (lba + zone_len d lba ≡ min ((i + 1) * d.zone_size) d.capacity)
next_start d i lba f h e = (
  omega (arith, f.needed i h),
  ground (arith, f.needed i h, f.positive, f.word, f.small),
  ground (arith, f.needed i h, f.positive, f.word, f.small, add_mul i 1 d.zone_size),
)

seq_pointer : (m : DevModel) (start len : ℕ) → CondOk (seq_type m) empty start len start
seq_pointer ha start len = refl
seq_pointer hm start len = refl

new_zone-ZoneOk :
    (d : ZbcDev) (i lba : ℕ)
    → 0 < zone_len d lba
    → lba + zone_len d lba < 2 ^ 63
    → ZoneOk (new_zone d i lba)
new_zone-ZoneOk d i lba p s = elim (Bool-cases (ltb i d.nr_conv_zones)) [
  | inl c ↦ rw c record { nonempty = p; small = s; pointer = refl }
  | inr c ↦
      rw c record { nonempty = p; small = s; pointer = seq_pointer d.model lba (zone_len d lba) }
]

-- The sum does not wrap.
add64-next :
    (d : ZbcDev) (i lba : ℕ)
    → Fits d
    → lba + zone_len d lba ≡ min ((i + 1) * d.zone_size) d.capacity
    → add64 lba (zone_len d lba) ≡ min ((i + 1) * d.zone_size) d.capacity
add64-next d i lba f e = omega (arith, f.small)

pub zones_ok :
    (d : ZbcDev) (n i lba : ℕ)
    → Fits d
    → n + i ≡ d.nr_zones
    → lba ≡ min (i * d.zone_size) d.capacity
    → All ZoneOk (format_zones d n i lba)
unfolding format_zones
zones_ok d zero i lba f h e = tt
zones_ok d (suc n) i lba f h e =
    let (_, long, ends) = next_start d i lba f (omega arith) e in
    (
      new_zone-ZoneOk d i lba long (omega (arith, f.small)),
      zones_ok d n (i + 1) _ f (omega arith) (add64-next d i lba f ends),
    )

new_zone-start : (d : ZbcDev) (i lba : ℕ) → (new_zone d i lba).start ≡ lba
new_zone-start d i lba = ground arith

new_zone-len : (d : ZbcDev) (i lba : ℕ) → (new_zone d i lba).len ≡ zone_len d lba
new_zone-len d i lba = ground arith

pub tiles :
    (d : ZbcDev) (n i lba k : ℕ) (z : Zone)
    → Fits d
    → n + i ≡ d.nr_zones
    → lba ≡ min (i * d.zone_size) d.capacity
    → get_elem? (format_zones d n i lba) k ≡ some z
    → (z.start ≡ (i + k) * d.zone_size)
      × (z.start + z.len ≡ min ((i + k + 1) * d.zone_size) d.capacity)
unfolding format_zones
tiles d zero i lba k z f h e at = absurd (cc)
tiles d (suc n) i lba zero z f h e at =
    let (starts, _, ends) = next_start d i lba f (omega arith) e in
    let same : new_zone d i lba ≡ z = cc in
    let here : i + 0 ≡ i = omega arith in
    rw (← same, here)
      (
        new_zone-start d i lba ∙ starts,
        omega (arith, new_zone-start d i lba, new_zone-len d i lba, ends),
      )
tiles d (suc n) i lba (suc k) z f h e at =
    let (_, _, ends) = next_start d i lba f (omega arith) e in
    let there : i + suc k ≡ i + 1 + k = omega arith in
    rw there (tiles d n (i + 1) _ k z f (omega arith) (add64-next d i lba f ends) at)

-- The number of zones is the capacity over the zone size, rounded up.
pub Fits-of_sizes :
    (d : ZbcDev)
    → 0 < d.zone_size
    → d.zone_size < 2 ^ 32
    → d.capacity < 2 ^ 62
    → 0 < d.capacity
    → d.nr_zones ≡ (d.capacity + d.zone_size - 1) / d.zone_size
    → Fits d
Fits-of_sizes d p w s nonzero e = record {
  positive = p;
  word = w;
  small = s;
  covered = omega (arith, exact, mod-lt (d.capacity + d.zone_size - 1) p);
  needed = λ i h.
      omega (
        arith,
        exact,
        le_mul (i + 1) d.nr_zones d.zone_size (omega arith),
        add_mul i 1 d.zone_size,
      );
}
  where
    exact :
        d.nr_zones * d.zone_size + (d.capacity + d.zone_size - 1) % d.zone_size
        ≡ d.capacity + d.zone_size - 1
    exact = rw e (div-add-mod' (d.capacity + d.zone_size - 1) d.zone_size)

    le_mul : (m n b : ℕ) → m ≤ n → m * b ≤ n * b
    le_mul m n b h = grind arith
