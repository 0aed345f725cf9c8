-- ===== src/Zbc/Report/Listing.antt =====
-- REPORT ZONES against a direct description of what it reports.
use tcmu_runner.Prelude.{
  ℕ, zero, suc, ◌+◌, ◌-◌, ◌*◌, ◌/◌, ◌%◌, ◌^◌, ◌≤◌, ◌<◌, ◌≡◌, refl, sym, ap, subst, get_elem?-lt,
  ◌∙◌, Bool, true, false, inl, inr, List, [], ◌∷◌, some, length, get_elem?, take, drop, length-drop,
  min, ltb, leb, if◌then◌else◌, ◌==◌, arith, Bool-cases, if_ind, All, take-nil,
}
use tcmu_runner.Iovec.{Iovec, iovec_length, memcpy_into_iovec}
use tcmu_runner.Cdb.{byte, cdb_get_lba, cdb_get_xfer_length}
use tcmu_runner.Zbc.{Zone, ZbcDev, inc32}
use tcmu_runner.Zbc.Commands.{sts_ok}
use tcmu_runner.Zbc.Invariant.{ZoneAt, IsValid, ZoneOk}
use tcmu_runner.Zbc.Write.{zone_end}
use tcmu_runner.Zbc.Write.Zones.{Geometry, Holds, zone_end-le}
use tcmu_runner.Zbc.Report.{
  Options, options, should_report, report_data, zone_data, shorter, count_from, list_from,
  report_from, report_zones,
}

-- The zones that an option selects.
unfoldable pub matching : Options → List Zone → List Zone
matching ro [] = []
matching ro (z ∷ zs) = let rest = matching ro zs in if should_report ro z then z ∷ rest else rest

-- The descriptors of some zones, one after the other.
unfoldable pub copy_all : List Iovec → List Zone → List Iovec
copy_all iovec [] = iovec
copy_all iovec (z ∷ zs) = copy_all (memcpy_into_iovec iovec (zone_data z) 64).1 zs

-- A walk from a block to the end of the device.
data Rest (d : ZbcDev) : ℕ → List Zone → Type 0 where
  at_end : {lba : ℕ} → lba ≡ d.capacity → Rest d lba []
  at_zone :
      {lba : ℕ} {z : Zone} {zs : List Zone}
      → lba < d.capacity
      → Rest d (zone_end z) zs
      → Rest d lba (z ∷ zs)

length-matching : (ro : Options) (zs : List Zone) → length (matching ro zs) ≤ length zs
unfolding matching
length-matching ro [] = omega arith
length-matching ro (z ∷ zs) =
    if_ind (λ (l : List Zone). length l ≤ length (z ∷ zs)) (should_report ro z)
      {x = z ∷ matching ro zs} (λ _. omega (arith, length-matching ro zs))
      (λ _. omega (arith, length-matching ro zs))

no_room : (len n m : ℕ) → ltb len 64 ≡ true → n ≡ n + min (len / 64) (suc m)
no_room len n m s = ground (arith, s)

one_more :
    (len n m : ℕ)
    → ltb len 64 ≡ false
    → n + 1 < 2 ^ 32
    → inc32 n + min (shorter len / 64) m ≡ n + min (len / 64) (suc m)
one_more len n m s h = ground (arith, s)

module _ (d : ZbcDev) (ro : Options) where
  ends : {lba : ℕ} → lba ≡ d.capacity → ltb lba d.capacity ≡ false
  ends e = ground (arith, e)

  inside : {lba : ℕ} → lba < d.capacity → ltb lba d.capacity ≡ true
  inside h = ground (arith, h)

  count_all :
      (zs : List Zone) (lba len n : ℕ)
      → Rest d lba zs
      → n + length zs < 2 ^ 32
      → count_from d ro false zs lba len n ≡ some (n + length (matching ro zs))
  unfolding count_from matching
  count_all [] lba len n (at_end e) h = rw (ends e) (ap some (omega arith))
  count_all (z ∷ zs) lba len n (at_zone e r) h = elim (Bool-cases (should_report ro z)) [
    | inl q ↦
        rw (count_from, matching, inside e, q)
          (count_all zs (zone_end z) (shorter len) (inc32 n) r (omega (arith, h))
            ∙ ap some (omega (arith, h)))
    | inr q ↦
        rw (count_from, matching, inside e, q)
          (count_all zs (zone_end z) len n r (omega (arith, h)))
  ]

  count_partial :
      (zs : List Zone) (lba len n : ℕ)
      → Rest d lba zs
      → n + length zs < 2 ^ 32
      → count_from d ro true zs lba len n ≡ some (n + min (len / 64) (length (matching ro zs)))
  unfolding count_from matching
  count_partial [] lba len n (at_end e) h = rw (ends e) (ap some (omega arith))
  count_partial (z ∷ zs) lba len n (at_zone e r) h = elim (Bool-cases (should_report ro z)) [
    | inr q ↦
        rw (count_from, matching, inside e, q)
          (count_partial zs (zone_end z) len n r (omega (arith, h)))
    | inl q ↦ elim (Bool-cases (ltb len 64)) [
      | inl s ↦
          rw (count_from, matching, inside e, q, s)
            (ap some (no_room len n (length (matching ro zs)) s))
      | inr s ↦
          rw (count_from, matching, inside e, q, s)
            (count_partial zs (zone_end z) (shorter len) (inc32 n) r (omega (arith, h))
              ∙ ap some (one_more len n (length (matching ro zs)) s (omega (arith, h))))
    ]
  ]

  list_all :
      (zs : List Zone) (lba len : ℕ) (iovec : List Iovec)
      → Rest d lba zs
      → list_from d ro zs lba len iovec ≡ some (copy_all iovec (take (len / 64) (matching ro zs)))
  unfolding list_from matching copy_all
  list_all [] lba len iovec (at_end e) = rw (ends e, take-nil) refl
  list_all (z ∷ zs) lba len iovec (at_zone e r) = elim (Bool-cases (leb 64 len)) [
    | inr s ↦ rw (list_from, inside e, s, none_left s) refl
    | inl s ↦ elim (Bool-cases (should_report ro z)) [
      | inr q ↦ rw (list_from, matching, inside e, s, q) (list_all zs (zone_end z) len iovec r)
      | inl q ↦
          rw (list_from, matching, inside e, s, q, one_less s)
            (list_all zs (zone_end z) (len - 64) (memcpy_into_iovec iovec (zone_data z) 64).1 r)
    ]
  ]
    where
      none_left : leb 64 len ≡ false → len / 64 ≡ 0
      none_left s = ground (arith, s)

      one_less : leb 64 len ≡ true → len / 64 ≡ suc ((len - 64) / 64)
      one_less s = ground (arith, s)

drop-next :
    (xs : List Zone) (i : ℕ) {z : Zone} {zs : List Zone}
    → drop i xs ≡ z ∷ zs
    → (get_elem? xs i ≡ some z) × (drop (i + 1) xs ≡ zs)
drop-next [] zero e = absurd (cc)
drop-next [] (suc i) e = absurd (cc)
drop-next (x ∷ xs) zero {z} {zs} e = let (p, q) = heads e in (ap some p, q)
  where
    heads : x ∷ xs ≡ z ∷ zs → (x ≡ z) × (xs ≡ zs)
    heads e = (cc, cc)
drop-next (x ∷ xs) (suc i) e =
    let later : suc i + 1 ≡ suc (i + 1) = omega arith in rw later (drop-next xs i e)

is_last :
    (xs : List Zone) (i : ℕ) {z : Zone}
    → get_elem? xs i ≡ some z
    → drop (i + 1) xs ≡ []
    → i + 1 ≡ length xs
is_last xs i at e = omega (arith, get_elem?-lt xs i at, length-drop (i + 1) xs, ap length e)

-- The next zone starts where a zone ends, and the last one ends with the device.
last_end :
    (d : ZbcDev) (i : ℕ) (z : Zone)
    → Geometry d
    → ZoneAt d i z
    → i + 1 ≡ d.nr_zones
    → zone_end z ≡ d.capacity
last_end d i z g at e = omega (
  arith,
  g.small,
  (g.tiles i z at).1,
  subst (λ n. d.capacity ≤ n * d.zone_size) (sym e) g.covered,
)

next_end :
    (d : ZbcDev) (i : ℕ) (z y : Zone)
    → Geometry d
    → ZoneAt d i z
    → ZoneAt d (i + 1) y
    → ZoneOk y
    → (zone_end z ≡ y.start) × (zone_end z < y.start + y.len)
next_end d i z y g at at' ok =
    let t = g.tiles i z at in
    let t' = g.tiles (i + 1) y at' in
    (
      grind (arith, g.small, t.1, t'.0, t'.1, ok.nonempty),
      grind (arith, g.small, t.1, t'.0, t'.1, ok.nonempty),
    )

-- The walk over the zones reaches the end of the device.
Rest-from :
    (d : ZbcDev) (zs : List Zone) (i lba : ℕ) (z : Zone)
    → Geometry d
    → All ZoneOk zs
    → drop i d.zones ≡ z ∷ zs
    → lba < z.start + z.len
    → Rest d lba (z ∷ zs)
Rest-from d [] i lba z g ok e h =
    let (at, next) = drop-next d.zones i e in
    at_zone (omega (arith, h, zone_end-le i g at))
      (at_end (last_end d i z g at (is_last d.zones i at next ∙ g.sized)))
Rest-from d (y ∷ ys) i lba z g ok e h =
    let (at, next) = drop-next d.zones i e in
    let (at', _) = drop-next d.zones (i + 1) next in
    at_zone (omega (arith, h, zone_end-le i g at))
      (Rest-from d ys (i + 1) (zone_end z) y g ok.1 next (next_end d i z y g at at' ok.0).1)

drop-at :
    (xs : List Zone) (i : ℕ) {z : Zone}
    → All ZoneOk xs
    → get_elem? xs i ≡ some z
    → (zs : List Zone) × (drop i xs ≡ z ∷ zs) × All ZoneOk zs
drop-at [] i ok e = absurd (cc)
drop-at (x ∷ xs) zero {z} ok e = (xs, ap (λ y. y ∷ xs) same, ok.1)
  where
    same : x ≡ z
    same = cc
drop-at (x ∷ xs) (suc i) ok e = drop-at xs i ok.1 e

-- How many zones the header counts.
abbrev pub counted : Bool → ℕ → List Zone → ℕ
counted partial xfer zs = if partial then min (shorter xfer / 64) (length zs) else length zs

-- The header for a number of zones and, if it has room, the descriptors for which there is room.
unfoldable pub reported : ZbcDev → List Iovec → ℕ → List Zone → List Iovec
reported d iovec n zs =
    let (copied, iovec1) = memcpy_into_iovec iovec (report_data d n) 64 in
    if ltb copied 64 then iovec1 else copy_all iovec1 (take (iovec_length iovec1 / 64) zs)

module _ (d : ZbcDev) (ro : Options) (lba : ℕ) (zs : List Zone) (r : Rest d lba zs)
    (few : length zs < 2 ^ 32) where
  counts :
      (partial : Bool) (len : ℕ)
      → count_from d ro partial zs lba len 0
        ≡ some
            (if partial then min (len / 64) (length (matching ro zs)) else length (matching ro zs))
  counts true len = count_partial d ro zs lba len 0 r (omega (arith, few)) ∙ ap some (omega arith)
  counts false len = count_all d ro zs lba len 0 r (omega (arith, few)) ∙ ap some (omega arith)

  reports :
      (partial : Bool) (xfer : ℕ) (iovec : List Iovec)
      → report_from d ro partial zs lba xfer iovec
        ≡ some (sts_ok, reported d iovec (counted partial xfer (matching ro zs)) (matching ro zs))
  unfolding report_from reported
  reports partial xfer iovec =
      elim (Bool-cases (
        ltb (memcpy_into_iovec iovec (report_data d (counted partial xfer (matching ro zs))) 64).0
          64)) [
            | inl q ↦ rw (report_from, reported, counts partial (shorter xfer), q) refl
            | inr q ↦
                rw
                  (
                    report_from,
                    reported,
                    counts partial (shorter xfer),
                    q,
                    list_all d ro zs lba _
                        (memcpy_into_iovec iovec
                          (report_data d (counted partial xfer (matching ro zs))) 64).1
                        r,
                  )
                  refl
          ]

-- REPORT ZONES with a valid option and an LBA on the device, on a valid device whose zones tile it, follows
-- no pointer outside the zones and succeeds. It reports the zones that the option selects among those from
-- the zone of the LBA on, in order: the header counts all of them, or for a partial report those that the
-- allocation length has room for, and as many descriptors follow as the rest of the vector has room for.
pub report_zones-lists :
    (d : ZbcDev) (cdb : List ℕ) (iovec : List Iovec) (ro : Options) (i : ℕ) (z : Zone)
    → IsValid d
    → Geometry d
    → options (byte cdb 14 % 128) ≡ some ro
    → Holds d (cdb_get_lba cdb) i z
    → report_zones d cdb iovec
      ≡ some (
        sts_ok,
        reported d iovec
            (counted
              (byte cdb 14 / 128 % 2 == 1)
              (cdb_get_xfer_length cdb)
              (matching ro (drop i d.zones)))
            (matching ro (drop i d.zones)),
      )
unfolding report_zones
report_zones-lists d cdb iovec ro i z valid g valid_option held =
    rw (report_zones, valid_option, on_device, held.found)
      (reports d ro (cdb_get_lba cdb) (drop i d.zones) walk few (byte cdb 14 / 128 % 2 == 1)
        (cdb_get_xfer_length cdb) iovec)
  where
    on_device : leb d.capacity (cdb_get_lba cdb) ≡ false
    on_device = ground (arith, held.below, zone_end-le i g held.at)

    walk : Rest d (cdb_get_lba cdb) (drop i d.zones)
    walk =
        let (zs, e, ok) = drop-at d.zones i valid.zones_ok held.at in
        subst (Rest d (cdb_get_lba cdb)) (sym e)
          (Rest-from d zs i (cdb_get_lba cdb) z g ok e held.below)

    few : length (drop i d.zones) < 2 ^ 32
    few = omega (arith, length-drop i d.zones, valid.sized, valid.few)
