-- ===== src/Zbc/Write/Check.antt =====
-- `zbc_check_rdwr` and `zbc_write_check_zones`: the check ends, and what it has found if it succeeds.
use tcmu_runner.Prelude.{
  ℕ, zero, suc, ◌+◌, ◌-◌, ◌*◌, ◌^◌, ◌≤◌, ◌<◌, ◌≡◌, ◌≢◌, true, false, Option, none, some, length,
  arith, ◌==◌, Option-cases, inl, inr, dec_lt, ◌↔◌,
}
use tcmu_runner.Zbc.{Zone, ZbcDev, is_seq_req, is_full}
use tcmu_runner.Zbc.Invariant.{ZoneAt}
use tcmu_runner.Zbc.Commands.{Reply, sts_ok}
use tcmu_runner.Zbc.Write.{check_rdwr, zone_fault, in_zone, zone_end, check_zones}
use tcmu_runner.Zbc.Write.Zones.{Geometry, Holds, get_zone-Holds, zone_end-le}

-- The sums of the C code in numbers: nothing wraps on the device.
pub zone_end-eq :
    {d : ZbcDev} (i : ℕ) {z : Zone} → Geometry d → ZoneAt d i z → zone_end z ≡ z.start + z.len
zone_end-eq {d} i {z} g e = omega (arith, zone_end-le i g e, g.small)

-- The blocks of the transfer in the first zone: at least one, at most all.
pub in_zone_bounds :
    {d : ZbcDev} {lba i : ℕ} {z : Zone} (nr_lbas : ℕ)
    → Geometry d
    → Holds d lba i z
    → lba + nr_lbas ≤ d.capacity
    → 0 < nr_lbas
    → (0 < in_zone z lba nr_lbas)
      × (in_zone z lba nr_lbas ≤ nr_lbas)
      × (lba + in_zone z lba nr_lbas ≤ z.start + z.len)
in_zone_bounds {d} {i = i} {z = z} nr_lbas g h on p =
    ground (arith, zone_end-eq i g h.at, zone_end-le i g h.at, g.small, h.above, h.below)

-- What a check without a fault has found out about the first zone.
pub record Writable (d : ZbcDev) (lba nr_lbas i : ℕ) (z : Zone) : Type 0 where
  pub holds : Holds d lba i z
  pub not_full : is_full z ≡ false
  pub at_pointer : is_seq_req z ≡ true → lba ≡ z.wp
  pub within : is_seq_req z ≡ true → lba + nr_lbas ≤ z.start + z.len

zone_fault-none :
    {d : ZbcDev} {lba i : ℕ} {z : Zone} (zone_type nr_lbas : ℕ)
    → Geometry d
    → Holds d lba i z
    → lba + nr_lbas ≤ d.capacity
    → zone_fault z zone_type nr_lbas lba ≡ none
    → Writable d lba nr_lbas i z
unfolding zone_fault
zone_fault-none {d} {i = i} {z = z} zone_type nr_lbas g h on n = record {
  holds = h;
  not_full = ground arith;
  at_pointer = λ q. ground arith;
  within = λ q. ground (arith, zone_end-eq i g h.at, g.small);
}

-- A check that has ended; if with success, the first zone is found writable.
pub data Checked (d : ZbcDev) (lba nr_lbas : ℕ) : Option Reply → Type 0 where
  refused : {r : Reply} → r ≢ sts_ok → Checked d lba nr_lbas (some r)
  accepted :
      (0 < nr_lbas → (i : ℕ) × (z : Zone) × Writable d lba nr_lbas i z)
      → Checked d lba nr_lbas (some sts_ok)

zone_fault-refused :
    (z : Zone) (zone_type nr_lbas lba : ℕ) {r : Reply}
    → zone_fault z zone_type nr_lbas lba ≡ some r
    → r ≢ sts_ok
unfolding zone_fault
zone_fault-refused z zone_type nr_lbas lba e = λ q. ground arith

-- The check of the rest succeeds or not; what is known of the first zone is known.
from_rest :
    {d : ZbcDev} {lba nr_lbas : ℕ} {o : Option Reply} (lba' nr_lbas' : ℕ)
    → Checked d lba' nr_lbas' o
    → (0 < nr_lbas → (i : ℕ) × (z : Zone) × Writable d lba nr_lbas i z)
    → Checked d lba nr_lbas o
from_rest lba' nr_lbas' (refused n) w = refused n
from_rest lba' nr_lbas' (accepted _) w = accepted w

some_blocks : (n : ℕ) → 0 < n → (n == 0) ≡ false
some_blocks n h = ground arith

-- On a device whose zones tile it, for a transfer that ends on the device, the loop of
-- `zbc_write_check_zones` ends within one more round than there are blocks: it refuses the transfer, or
-- accepts it; then, if there is a block to write, its first zone is not full and, where a sequential
-- write is required, the transfer starts at the write pointer and stays in the zone.
pub check_zones-Checked :
    (fuel : ℕ) {d : ZbcDev} (zone_type nr_lbas lba : ℕ)
    → Geometry d
    → lba + nr_lbas ≤ d.capacity
    → nr_lbas < fuel
    → Checked d lba nr_lbas (check_zones fuel d zone_type nr_lbas lba)
unfolding check_zones
check_zones-Checked zero zone_type nr_lbas lba g on h = absurd (omega arith)
check_zones-Checked (suc fuel) {d} zone_type nr_lbas lba g on h = elim (dec_lt 0 nr_lbas) [
  | no none_left ↦ let e : nr_lbas ≡ 0 = omega arith in rw e (accepted (λ p. absurd (omega arith)))
  | yes p ↦
      let (i, z, holds) = get_zone-Holds lba g (omega arith) in
      let b = in_zone_bounds nr_lbas g holds on p in
      elim (Option-cases (zone_fault z zone_type nr_lbas lba)) [
        | inr (r, e) ↦
            rw (some_blocks nr_lbas p, holds.found, holds.at, e, check_zones)
              (refused (zone_fault-refused z zone_type nr_lbas lba e))
        | inl e ↦
            rw (some_blocks nr_lbas p, holds.found, holds.at, e, check_zones)
              (from_rest _ _
                (check_zones-Checked fuel _ _ _ g
                  (omega (arith, b.1, b.2, zone_end-le i g holds.at, g.small))
                  (omega (arith, b.0, b.1, g.small)))
                (λ q. (i, z, zone_fault-none zone_type nr_lbas g holds on e)))
      ]
]

product-lt : (a b : ℕ) → a < 2 ^ 32 → b < 2 ^ 32 → a * b < 2 ^ 64
product-lt a b h k = omega (arith, first, second)
  where
    first : a * b ≤ a * 2 ^ 32
    first = grind arith

    second : a * 2 ^ 32 ≤ (2 ^ 32 - 1) * 2 ^ 32
    second = omega arith

-- For 64-bit LBAs, 32-bit transfer lengths and block sizes, and capacities below 2 ^ 63,
-- `zbc_check_rdwr` accepts exactly the transfers that end on the device and whose vector holds as many
-- bytes as the transfer.
pub check_rdwr_iff :
    (d : ZbcDev) (lba nr_lbas length : ℕ)
    → lba < 2 ^ 64
    → nr_lbas < 2 ^ 32
    → d.lba_size < 2 ^ 32
    → d.capacity < 2 ^ 63
    → (check_rdwr d lba nr_lbas length ≡ sts_ok)
      ↔ ((length ≡ nr_lbas * d.lba_size) × (lba + nr_lbas ≤ d.capacity))
unfolding check_rdwr
check_rdwr_iff d lba nr_lbas length a b c e =
    (λ h. (ground (arith, product), ground (arith, product)), λ h. ground (arith, product))
  where
    product : nr_lbas * d.lba_size < 2 ^ 64
    product = product-lt nr_lbas d.lba_size b c
