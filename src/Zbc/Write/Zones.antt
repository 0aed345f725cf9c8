-- ===== src/Zbc/Write/Zones.antt =====
-- How formatting lays the zones out, and that `zbc_get_zone` finds the zone of a block.
use tcmu_runner.Prelude.{
  ℕ, ◌+◌, ◌*◌, ◌/◌, ◌%◌, ◌^◌, ◌≤◌, ◌<◌, ◌≡◌, false, none, some, get_elem?, length, arith, min,
  get_elem?_of_lt, map, get_elem?-map, Option-cases, inl, inr, length-map, get_elem?-lt, dec_lt,
  sym, ap, ◌∙◌, List, [], ◌∷◌, zero, suc,
}
use native.Mathlib.Nat.{div-add-mod', mod-lt}
use native.Mathlib.Nat.{mod-eq_of_lt, mul-le-mul_right}
use tcmu_runner.Zbc.{Zone, ZbcDev}
use tcmu_runner.Zbc.Invariant.{ZoneAt, place, Frame}
use tcmu_runner.Zbc.Commands.{get_zone}

-- The zones tile the device: each starts at a multiple of the zone size and ends at the next one or at
-- the end of the device.
pub record Geometry (d : ZbcDev) : Type 0 where
  pub sized : length d.zones ≡ d.nr_zones
  pub few : d.nr_zones < 2 ^ 32
  pub small : d.capacity < 2 ^ 63
  pub positive : 0 < d.zone_size
  pub covered : d.capacity ≤ d.nr_zones * d.zone_size
  pub tiles :
      (i : ℕ) (z : Zone)
      → ZoneAt d i z
      → (z.start ≡ i * d.zone_size) × (z.start + z.len ≡ min ((i + 1) * d.zone_size) d.capacity)

-- The zone that holds a block.
pub record Holds (d : ZbcDev) (lba i : ℕ) (z : Zone) : Type 0 where
  pub found : get_zone d lba false ≡ some i
  pub at : ZoneAt d i z
  pub above : z.start ≤ lba
  pub below : lba < z.start + z.len

quotient_bounds : (a b : ℕ) → 0 < b → (a / b * b ≤ a) × (a < (a / b + 1) * b)
quotient_bounds a b h =
    (omega (arith, div-add-mod' a b), grind (arith, div-add-mod' a b, mod-lt a h))

below_quotient : (a b n : ℕ) → 0 < b → a < n * b → a / b < n
below_quotient a b n h lt = elim (dec_lt (a / b) n) [
  | yes p ↦ p
  | no p ↦ absurd (grind (arith, (quotient_bounds a b h).0, le_mul n (a / b) b (omega arith)))
]
  where
    le_mul : (m n b : ℕ) → m ≤ n → m * b ≤ n * b
    le_mul m n b h = grind arith

-- Without the condition on the start, `zbc_get_zone` looks only at the quotient.
get_zone-any :
    (d : ZbcDev) (lba : ℕ) {z : Zone}
    → d.nr_zones < 2 ^ 32
    → lba / d.zone_size < d.nr_zones
    → ZoneAt d (lba / d.zone_size) z
    → get_zone d lba false ≡ some (lba / d.zone_size)
unfolding get_zone
get_zone-any d lba h k e = ground (arith, e, whole)
  where
    whole : lba / d.zone_size % 2 ^ 32 ≡ lba / d.zone_size
    whole = omega arith

-- On a device whose zones tile it by the zone size, `zbc_get_zone` without the condition on the start
-- finds a zone for every block below the capacity, and the block lies in that zone.
pub get_zone-Holds :
    {d : ZbcDev} (lba : ℕ) → Geometry d → lba < d.capacity → (i : ℕ) × (z : Zone) × Holds d lba i z
get_zone-Holds {d} lba g h =
    let inside : lba / d.zone_size < d.nr_zones =
      below_quotient lba d.zone_size d.nr_zones g.positive (omega (arith, g.covered)) in
    let (z, e) = get_elem?_of_lt d.zones (lba / d.zone_size) (omega (arith, g.sized)) in
    let t = g.tiles (lba / d.zone_size) z e in
    let q = quotient_bounds lba d.zone_size g.positive in
    (
      lba / d.zone_size,
      z,
      record {
        found = get_zone-any d lba g.few inside e;
        at = e;
        above = omega (arith, t.0, q.0);
        below = omega (arith, t.1, q.1);
      },
    )

-- A zone of the device ends within the device.
pub zone_end-le :
    {d : ZbcDev} (i : ℕ) {z : Zone} → Geometry d → ZoneAt d i z → z.start + z.len ≤ d.capacity
zone_end-le {d} i {z} g e = omega (arith, (g.tiles i z e).1)

-- The blocks of the device have offsets in the backstore file that an `off_t` holds.
abbrev pub Addressable : ℕ → ZbcDev → Type 0
Addressable meta_size d = meta_size + d.capacity * d.lba_size < 2 ^ 63

-- The offset of a block of the device does not wrap around.
pub offset-small :
    (meta_size : ℕ) (d : ZbcDev) (lba : ℕ)
    → Addressable meta_size d
    → lba ≤ d.capacity
    → (meta_size + lba * d.lba_size) % 2 ^ 64 ≡ meta_size + lba * d.lba_size
offset-small meta_size d lba h l = mod-eq_of_lt (omega (arith, h, mul-le-mul_right d.lba_size l))

pub Frame-Addressable :
    (meta_size : ℕ) {d d' : ZbcDev}
    → Frame d d'
    → Addressable meta_size d
    → Addressable meta_size d'
Frame-Addressable meta_size f h = rw (f.capacity, f.lba_size) h

zone_of_place :
    (d d' : ZbcDev) (i : ℕ) (z' : Zone)
    → map place d'.zones ≡ map place d.zones
    → ZoneAt d' i z'
    → (z : Zone) × ZoneAt d i z × (place z' ≡ place z)
zone_of_place d d' i z' p e = elim (Option-cases (get_elem? d.zones i)) [
  | inl n ↦ absurd (omega (arith, get_elem?-lt d'.zones i e, none-le d.zones i n, lengths))
  | inr (z, at) ↦ (z, at, same z at)
]
  where
    lengths : length d'.zones ≡ length d.zones
    lengths = sym (length-map place d'.zones) ∙ ap length p ∙ length-map place d.zones

    none-le : (zs : List Zone) (i : ℕ) → get_elem? zs i ≡ none → length zs ≤ i
    none-le [] i n = omega arith
    none-le (x ∷ zs) zero n = absurd (cc)
    none-le (x ∷ zs) (suc i) n = omega (arith, none-le zs i n)

    same : (z : Zone) → ZoneAt d i z → place z' ≡ place z
    same z at = cc (get_elem?-map place d'.zones i e, get_elem?-map place d.zones i at, p)

-- What keeps the places of the zones keeps the geometry.
pub Frame-Geometry :
    {d d' : ZbcDev} → Geometry d → Frame d d' → length d'.zones ≡ d'.nr_zones → Geometry d'
Frame-Geometry {d} {d'} g f sized = record {
  sized = sized;
  few = omega (arith, g.few, f.nr_zones);
  small = omega (arith, g.small, f.capacity);
  positive = omega (arith, g.positive, f.zone_size);
  covered = ground (arith, g.covered, f.capacity, f.nr_zones, f.zone_size);
  tiles = λ i z' e.
      let (z, at, p) = zone_of_place d d' i z' f.places e in
      ground (arith, g.tiles i z at, f.capacity, f.zone_size);
}
