-- ===== src/Zbc/Commands/Outcomes.antt =====
-- What the zone management commands do to the zone that they name, and what a refusal leaves.
use tcmu_runner.Prelude.{
  ℕ, ◌≤◌, ◌≡◌, ◌≢◌, refl, Bool, true, false, ◌||◌, ◌⊎◌, List, some, arith, ltb, ◌==◌, if◌then◌else◌,
  Bool-cases, inl, inr,
}
use tcmu_runner.Cdb.{byte, cdb_get_lba}
use tcmu_runner.Zbc.{
  Zone, ZbcDev, is_conv, is_exp_open, is_full, do_close_zone, do_finish_zone, do_reset_wp,
}
use tcmu_runner.Zbc.Invariant.{
  IsValid, ZoneAt, Settles, WithinLimit, Keeps, emptied, finished, finishes, opened, closed_form,
  do_finish_zone-Settles, do_reset_wp-Settles, close-Settles,
}
use tcmu_runner.Zbc.Commands.{
  Reply, sts_ok, check, SenseKey, data_protect, asc_insufficient_zone_resources, get_zone, on_zone,
  all_bit, open_all, open_one, open_zone, close_zone, finish_zone, reset_wp, zbc_out,
}
use tcmu_runner.Zbc.Commands.Effects.{
  on_zone-cases, open_one-cases, close_zone-Keeps, finish_zone-Keeps, reset_wp-Keeps,
}

-- A refusal changes nothing.
abbrev pub Unchanged : ZbcDev → Reply × ZbcDev → Type 0
Unchanged d r = r.0 ≢ sts_ok → r.1 ≡ d

refusal-Unchanged : (d : ZbcDev) (k : SenseKey) (a : ℕ) → Unchanged d (check k a, d)
refusal-Unchanged d k a h = refl

acceptance-Unchanged : (d d' : ZbcDev) → Unchanged d (sts_ok, d')
acceptance-Unchanged d d' h = absurd (h refl)

on_zone-Unchanged :
    (d : ZbcDev) (lba : ℕ) (act : ℕ → Zone → Reply × ZbcDev)
    → ((i : ℕ) (z : Zone) → Unchanged d (act i z))
    → Unchanged d (on_zone d lba act)
on_zone-Unchanged d lba act h =
    on_zone-cases (Unchanged d) d lba act (refusal-Unchanged d) (λ i z g e c. h i z)

all_or_one-Unchanged :
    (d d' : ZbcDev) (all : Bool) (lba : ℕ) (act : ℕ → Zone → Reply × ZbcDev)
    → ((i : ℕ) (z : Zone) → Unchanged d (act i z))
    → Unchanged d (if all then (sts_ok, d') else on_zone d lba act)
all_or_one-Unchanged d d' true lba act h = acceptance-Unchanged d d'
all_or_one-Unchanged d d' false lba act h = on_zone-Unchanged d lba act h

tested-Unchanged :
    (d d' : ZbcDev) (refuse : Bool) (k : SenseKey) (a : ℕ)
    → Unchanged d (if refuse then (check k a, d) else (sts_ok, d'))
tested-Unchanged d d' true k a h = refl
tested-Unchanged d d' false k a h = absurd (h refl)

open_all-Unchanged : (d : ZbcDev) → Unchanged d (open_all d)
unfolding open_all
open_all-Unchanged d = tested-Unchanged d _ _ _ _

open_one-Unchanged : (d : ZbcDev) (i : ℕ) (z : Zone) → Unchanged d (open_one d i z)
unfolding open_one
open_one-Unchanged d i z = elim (Bool-cases (is_exp_open z || is_full z)) [
  | inl h ↦ rw h (acceptance-Unchanged d d)
  | inr h ↦ rw h (tested-Unchanged d _ _ _ _)
]

open_zone-Unchanged : (d : ZbcDev) (cdb : List ℕ) → Unchanged d (open_zone d cdb)
unfolding open_zone
open_zone-Unchanged d cdb = elim (Bool-cases (all_bit cdb)) [
  | inl a ↦ rw a (open_all-Unchanged d)
  | inr a ↦ rw a (on_zone-Unchanged d (cdb_get_lba cdb) _ (open_one-Unchanged d))
]

-- A ZBC OUT command that is answered with anything but success has left the device as it was.
pub zbc_out_refusal :
    (d : ZbcDev) (cdb : List ℕ) → (zbc_out d cdb).0 ≢ sts_ok → (zbc_out d cdb).1 ≡ d
unfolding zbc_out close_zone finish_zone reset_wp
zbc_out_refusal d cdb = elim (Bool-cases (byte cdb 1 == 0x01)) [
  | inl h ↦ rw h (all_or_one-Unchanged d _ (all_bit cdb) _ _ (λ i z. acceptance-Unchanged d _))
  | inr h ↦ rw h (elim (Bool-cases (byte cdb 1 == 0x02)) [
    | inl h ↦ rw h (all_or_one-Unchanged d _ (all_bit cdb) _ _ (λ i z. acceptance-Unchanged d _))
    | inr h ↦ rw h (elim (Bool-cases (byte cdb 1 == 0x03)) [
      | inl h ↦ rw h (open_zone-Unchanged d cdb)
      | inr h ↦ rw h (elim (Bool-cases (byte cdb 1 == 0x04)) [
        | inl h ↦
            rw h (all_or_one-Unchanged d _ (all_bit cdb) _ _ (λ i z. acceptance-Unchanged d _))
        | inr h ↦ rw h (refusal-Unchanged d _ _)
      ])
    ])
  ])
]

-- A CDB that names the sequential zone `i`, whose descriptor is `z`.
pub record Names (d : ZbcDev) (cdb : List ℕ) (i : ℕ) (z : Zone) : Type 0 where
  pub one : all_bit cdb ≡ false
  pub in_range : cdb_get_lba cdb ≤ d.capacity
  pub found : get_zone d (cdb_get_lba cdb) true ≡ some i
  pub at : ZoneAt d i z
  pub sequential : is_conv z ≡ false

on_zone_lem :
    {d : ZbcDev} {cdb : List ℕ} {i : ℕ} {z : Zone} (act : ℕ → Zone → Reply × ZbcDev)
    → Names d cdb i z
    → on_zone d (cdb_get_lba cdb) act ≡ act i z
on_zone_lem {d} {cdb} act n =
    let near : ltb d.capacity (cdb_get_lba cdb) ≡ false = ground (arith, n.in_range) in
    rw (near, n.found, n.at, n.sequential)

-- RESET WRITE POINTER of a named sequential zone succeeds and leaves that zone empty, with its write
-- pointer at its start.
pub reset_wp_named :
    {d : ZbcDev} {cdb : List ℕ} {i : ℕ} {z : Zone}
    → IsValid d
    → Names d cdb i z
    → ((reset_wp d cdb).0 ≡ sts_ok) × Settles d i (emptied z) (reset_wp d cdb).1
unfolding reset_wp
reset_wp_named {d} {i = i} v n =
    rw (n.one, on_zone_lem (λ j y. (sts_ok, do_reset_wp d j)) n)
      (refl, do_reset_wp-Settles i v n.at n.sequential)

-- FINISH ZONE of a named sequential zone that is empty, open or closed succeeds and leaves that zone
-- full, with its write pointer at its end.
pub finish_zone_named :
    {d : ZbcDev} {cdb : List ℕ} {i : ℕ} {z : Zone}
    → IsValid d
    → Names d cdb i z
    → finishes z true ≡ true
    → ((finish_zone d cdb).0 ≡ sts_ok) × Settles d i (finished z) (finish_zone d cdb).1
unfolding finish_zone
finish_zone_named {d} {i = i} v n f =
    rw (n.one, on_zone_lem (λ j y. (sts_ok, do_finish_zone d j true)) n)
      (refl, do_finish_zone-Settles i true v n.at n.sequential f)

-- CLOSE ZONE of a named sequential zone succeeds; a zone that was open is then empty or closed, by its
-- write pointer, and any other is as before.
pub close_zone_named :
    {d : ZbcDev} {cdb : List ℕ} {i : ℕ} {z : Zone}
    → IsValid d
    → Names d cdb i z
    → ((close_zone d cdb).0 ≡ sts_ok) × Settles d i (closed_form z) (close_zone d cdb).1
unfolding close_zone
close_zone_named {d} {i = i} v n =
    rw (n.one, on_zone_lem (λ j y. (sts_ok, do_close_zone d j)) n) (refl, close-Settles i v n.at)

opened-closed_form : (z : Zone) → opened true (closed_form z) ≡ opened true z
opened-closed_form z = ground arith

-- OPEN ZONE of a named sequential zone on a device that is within its limit of open zones. One of three
-- things happens: the zone is explicitly open or full already, the command succeeds and changes
-- nothing; or as many zones as the limit are explicitly open, and the command is refused with
-- INSUFFICIENT ZONE RESOURCES; or the command succeeds, the zone is explicitly open, and the
-- device is valid and within its limit.
pub open_zone_named :
    {d : ZbcDev} {cdb : List ℕ} {i : ℕ} {z : Zone}
    → IsValid d
    → WithinLimit d
    → Names d cdb i z
    → (((is_exp_open z ≡ true) ⊎ (is_full z ≡ true)) × (open_zone d cdb ≡ (sts_ok, d)))
      ⊎ ((d.nr_open_zones ≤ d.nr_exp_open)
          × (open_zone d cdb ≡ (check data_protect asc_insufficient_zone_resources, d)))
      ⊎ ((open_zone d cdb).0 ≡ sts_ok)
        × ZoneAt (open_zone d cdb).1 i (opened true z)
        × IsValid (open_zone d cdb).1
        × WithinLimit (open_zone d cdb).1
unfolding open_zone
open_zone_named {d} {i = i} {z = z} v w n =
    rw (n.one, on_zone_lem (λ j y. open_one d j y) n)
      (open_one-cases
        (λ r.
          (((is_exp_open z ≡ true) ⊎ (is_full z ≡ true)) × (r ≡ (sts_ok, d)))
          ⊎ ((d.nr_open_zones ≤ d.nr_exp_open)
              × (r ≡ (check data_protect asc_insufficient_zone_resources, d)))
          ⊎ (r.0 ≡ sts_ok) × ZoneAt r.1 i (opened true z) × IsValid r.1 × WithinLimit r.1)
        i z v n.at n.sequential (λ h. inl (h, refl)) (λ h. inr (inl (omega arith, refl)))
        (λ h t o l. inr (inr (refl, rw (opened-closed_form z) at o.now, o.valid, l w))))

open_zone-WithinLimit :
    {d : ZbcDev} (cdb : List ℕ)
    → IsValid d
    → WithinLimit d
    → all_bit cdb ≡ false
    → WithinLimit (open_zone d cdb).1
unfolding open_zone
open_zone-WithinLimit {d} cdb v w a = rw a (
    on_zone-cases (λ r. WithinLimit r.1) d _ _ (λ k c. w)
      (λ i z g e s.
        open_one-cases (λ r. WithinLimit r.1) i z v e s (λ h. w) (λ h. w) (λ h t o l. l w)))

-- Every ZBC OUT command but OPEN ZONE for all zones keeps a valid device within its limit of open zones.
pub zbc_out-WithinLimit :
    {d : ZbcDev} (cdb : List ℕ)
    → IsValid d
    → WithinLimit d
    → (byte cdb 1 ≢ 0x03) ⊎ (all_bit cdb ≡ false)
    → WithinLimit (zbc_out d cdb).1
unfolding zbc_out
zbc_out-WithinLimit {d} cdb v w h = elim (Bool-cases (byte cdb 1 == 0x01)) [
  | inl e ↦ rw e (kept (close_zone-Keeps cdb v))
  | inr e ↦ rw e (elim (Bool-cases (byte cdb 1 == 0x02)) [
    | inl e ↦ rw e (kept (finish_zone-Keeps cdb v))
    | inr e ↦ rw e (elim (Bool-cases (byte cdb 1 == 0x03)) [
      | inl e ↦ rw e (opening (ground arith))
      | inr e ↦ rw e (elim (Bool-cases (byte cdb 1 == 0x04)) [
        | inl e ↦ rw e (kept (reset_wp-Keeps cdb v))
        | inr e ↦ rw e w
      ])
    ])
  ])
]
  where
    kept : {d' : ZbcDev} → Keeps d d' → WithinLimit d'
    kept k = omega (arith, k.imp, k.exp, k.frame.nr_open_zones)

    opening : all_bit cdb ≡ false → WithinLimit (open_zone d cdb).1
    opening a = open_zone-WithinLimit cdb v w a
