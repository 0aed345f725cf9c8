-- ===== src/Zbc/Commands/Effects.antt =====
-- Every zone management command keeps the invariant of the device and the places of its zones.
use tcmu_runner.Prelude.{
  ℕ, ◌+◌, ◌<◌, ◌≡◌, Bool, true, false, ◌||◌, ◌⊎◌, List, some, get_elem?, arith, ltb, ◌==◌,
  if◌then◌else◌, for_range, for_range_inv, Bool-cases, Option-cases, inl, inr,
}
use tcmu_runner.Cdb.{byte}
use tcmu_runner.Zbc.{
  Zone, ZbcDev, is_conv, is_exp_open, is_imp_open, is_full, is_closed, do_close_zone, do_open_zone,
  add32,
}
use tcmu_runner.Zbc.Invariant.{
  IsValid, ZoneAt, Frame, Frame-refl, Frame-trans, Keeps, Keeps-refl, Keeps-trans,
  do_close_zone-Keeps, do_finish_zone-Keeps, do_reset_wp-Keeps, Opens, do_open_zone-Opens, Settles,
  closed_form, zone-ZoneOk, close_if_imp-Settles, exp-lt, is_openable, WithinLimit,
  do_open_zone-WithinLimit,
}
use tcmu_runner.Zbc.Commands.{
  Reply, sts_ok, check, SenseKey, get_zone, on_zone, all_bit, closed_at, open_if_closed, open_all,
  open_one, open_zone, close_each, close_zone, finish_each, finish_zone, reset_each, reset_wp,
  zbc_out, nr_closed, data_protect, asc_insufficient_zone_resources,
}

-- To prove something of a command on one zone: of every refusal, and of the action on a sequential zone.
pub on_zone-cases {κ} :
    (P : Reply × ZbcDev → Type κ) (d : ZbcDev) (lba : ℕ) (act : ℕ → Zone → Reply × ZbcDev)
    → ((k : SenseKey) (a : ℕ) → P (check k a, d))
    → ((i : ℕ) (z : Zone)
        → get_zone d lba true ≡ some i
        → ZoneAt d i z
        → is_conv z ≡ false
        → P (act i z))
    → P (on_zone d lba act)
on_zone-cases P d lba act refused done = elim (Bool-cases (ltb d.capacity lba)) [
  | inl h ↦ rw h (refused _ _)
  | inr h ↦ rw h (elim (Option-cases (get_zone d lba true)) [
    | inl n ↦ rw n (refused _ _)
    | inr (i, g) ↦ rw g (elim (Option-cases (get_elem? d.zones i)) [
      | inl n ↦ rw n (refused _ _)
      | inr (z, e) ↦ rw e (elim (Bool-cases (is_conv z)) [
        | inl c ↦ rw c (refused _ _)
        | inr c ↦ rw c (done i z g e c)
      ])
    ])
  ])
]

-- A valid device whose configuration and zone places are those of `d`.
pub record Sound (d d' : ZbcDev) : Type 0 where
  pub valid : IsValid d'
  pub frame : Frame d d'

Sound-refl : {d : ZbcDev} → IsValid d → Sound d d
Sound-refl {d} v = record { valid = v; frame = Frame-refl d }

Sound-of_Keeps : {d d' : ZbcDev} → Keeps d d' → Sound d d'
Sound-of_Keeps k = record { valid = k.valid; frame = k.frame }

-- A loop over the zones whose rounds keep the invariant and open nothing.
pub loop-Keeps :
    {d : ZbcDev} (body : ℕ → ZbcDev → ZbcDev) (n i : ℕ)
    → ((k : ℕ) (s : ZbcDev) → IsValid s → Keeps s (body k s))
    → IsValid d
    → Keeps d (for_range n i body d)
loop-Keeps {d} body n i round v =
    for_range_inv (Keeps d) body (λ k s h. Keeps-trans h (round k s h.valid)) n i d (Keeps-refl v)

pub closed_at-true :
    (d : ZbcDev) (i : ℕ) → closed_at d i ≡ true → (z : Zone) × ZoneAt d i z × (is_closed z ≡ true)
closed_at-true d i h = elim (Option-cases (get_elem? d.zones i)) [
  | inl n ↦ absurd (ground arith)
  | inr (z, e) ↦ (z, e, ground arith)
]

Opens-Sound : {d d' : ZbcDev} {i : ℕ} {x : Bool} {z : Zone} → Opens d i x z d' → Sound d d'
Opens-Sound o = record { valid = o.valid; frame = o.frame }

Sound-trans : {a b c : ZbcDev} → Sound a b → Sound b c → Sound a c
Sound-trans f g = record { valid = g.valid; frame = Frame-trans f.frame g.frame }

open_if_closed-Sound : (i : ℕ) (d : ZbcDev) → IsValid d → Sound d (open_if_closed i d)
open_if_closed-Sound i d v = elim (Bool-cases (closed_at d i)) [
  | inl c ↦
      let (z, e, h) = closed_at-true d i c in
      rw c (Opens-Sound (do_open_zone-Opens i true v e (ground arith)))
  | inr c ↦ rw c (Sound-refl v)
]

-- All zones one after the other.
open_loop-Sound : {d : ZbcDev} (n i : ℕ) → IsValid d → Sound d (for_range n i open_if_closed d)
open_loop-Sound {d} n i v =
    for_range_inv (Sound d) open_if_closed
      (λ k s h. Sound-trans h (open_if_closed-Sound k s h.valid)) n i d (Sound-refl v)

open_all-Sound : {d : ZbcDev} → IsValid d → Sound d (open_all d).1
unfolding open_all
open_all-Sound {d} v = elim (Bool-cases (ltb d.nr_open_zones (add32 d.nr_exp_open (nr_closed d)))) [
  | inl h ↦ rw h (Sound-refl v)
  | inr h ↦ rw h (open_loop-Sound d.nr_zones 0 v)
]

-- The device on which `zbc_open_zone` opens zone `i`.
abbrev pub before_open : ZbcDev → ℕ → Zone → ZbcDev
before_open d i z = if is_imp_open z then do_close_zone d i else d

-- The three ways that opening one zone can go.
pub open_one-cases {κ} :
    (P : Reply × ZbcDev → Type κ) {d : ZbcDev} (i : ℕ) (z : Zone)
    → IsValid d
    → ZoneAt d i z
    → is_conv z ≡ false
    → ((is_exp_open z ≡ true) ⊎ (is_full z ≡ true) → P (sts_ok, d))
    → (d.nr_open_zones < d.nr_exp_open + 1
        → P (check data_protect asc_insufficient_zone_resources, d))
    → (d.nr_exp_open < d.nr_open_zones
        → Settles d i (closed_form z) (before_open d i z)
        → Opens (before_open d i z) i true (closed_form z) (do_open_zone (before_open d i z) i true)
        → (WithinLimit d → WithinLimit (do_open_zone (before_open d i z) i true))
        → P (sts_ok, do_open_zone (before_open d i z) i true))
    → P (open_one d i z)
unfolding open_one
open_one-cases P {d} i z v e s kept full opened = elim (Bool-cases (is_exp_open z || is_full z)) [
  | inl o ↦ rw o (kept (ground arith))
  | inr o ↦ rw o (elim (Bool-cases (ltb d.nr_open_zones (add32 d.nr_exp_open 1))) [
    | inl h ↦ rw h (full (no_room o h))
    | inr h ↦ rw h (opened (room o h) (settled o) (opens o) (limit o (room o h)))
  ])
]
  where
    no_room :
        (is_exp_open z || is_full z) ≡ false
        → ltb d.nr_open_zones (add32 d.nr_exp_open 1) ≡ true
        → d.nr_open_zones < d.nr_exp_open + 1
    no_room o h = ground (arith, exp-lt i v e)

    room :
        (is_exp_open z || is_full z) ≡ false
        → ltb d.nr_open_zones (add32 d.nr_exp_open 1) ≡ false
        → d.nr_exp_open < d.nr_open_zones
    room o h = ground (arith, exp-lt i v e)

    settled : (is_exp_open z || is_full z) ≡ false → Settles d i (closed_form z) (before_open d i z)
    settled o = close_if_imp-Settles i v e (ground arith)

    openable : (is_exp_open z || is_full z) ≡ false → is_openable (closed_form z) ≡ true
    openable o = ground (arith, zone-ZoneOk i v e)

    opens :
        (is_exp_open z || is_full z) ≡ false
        → Opens (before_open d i z) i true (closed_form z) (do_open_zone (before_open d i z) i true)
    opens o = do_open_zone-Opens i true (settled o).valid (settled o).now (openable o)

    limit :
        (is_exp_open z || is_full z) ≡ false
        → d.nr_exp_open < d.nr_open_zones
        → WithinLimit d
        → WithinLimit (do_open_zone (before_open d i z) i true)
    limit o h w =
        do_open_zone-WithinLimit i true (settled o).valid (settled o).now (openable o)
          (omega (arith, (settled o).imp, (settled o).exp, (settled o).frame.nr_open_zones))
          (omega (arith, (settled o).exp, (settled o).frame.nr_open_zones))

open_one-Sound :
    {d : ZbcDev} (i : ℕ) (z : Zone)
    → IsValid d
    → ZoneAt d i z
    → is_conv z ≡ false
    → Sound d (open_one d i z).1
open_one-Sound {d} i z v e s =
    open_one-cases (λ r. Sound d r.1) i z v e s (λ h. Sound-refl v) (λ h. Sound-refl v)
      (λ h t o w. Sound-trans (record { valid = t.valid; frame = t.frame }) (Opens-Sound o))

-- A command that loops over all zones, or acts on one.
either_way :
    {d : ZbcDev} (all : Bool) (lba n : ℕ) (body : ℕ → ZbcDev → ZbcDev)
    (act : ℕ → Zone → Reply × ZbcDev)
    → IsValid d
    → ((k : ℕ) (s : ZbcDev) → IsValid s → Keeps s (body k s))
    → ((i : ℕ) (z : Zone) → Keeps d (act i z).1)
    → Keeps d (if all then (sts_ok, for_range n 0 body d) else on_zone d lba act).1
either_way {d} true lba n body act v round one = loop-Keeps body n 0 round v
either_way {d} false lba n body act v round one =
    on_zone-cases (λ r. Keeps d r.1) d lba act (λ k a. Keeps-refl v) (λ i z g e c. one i z)

pub close_zone-Keeps : {d : ZbcDev} (cdb : List ℕ) → IsValid d → Keeps d (close_zone d cdb).1
unfolding close_zone
close_zone-Keeps {d} cdb v =
    either_way (all_bit cdb) _ d.nr_zones close_each _ v (λ k s. do_close_zone-Keeps k)
      (λ i z. do_close_zone-Keeps i v)

pub finish_zone-Keeps : {d : ZbcDev} (cdb : List ℕ) → IsValid d → Keeps d (finish_zone d cdb).1
unfolding finish_zone
finish_zone-Keeps {d} cdb v =
    either_way (all_bit cdb) _ d.nr_zones finish_each _ v (λ k s. do_finish_zone-Keeps k false)
      (λ i z. do_finish_zone-Keeps i true v)

pub reset_wp-Keeps : {d : ZbcDev} (cdb : List ℕ) → IsValid d → Keeps d (reset_wp d cdb).1
unfolding reset_wp
reset_wp-Keeps {d} cdb v =
    either_way (all_bit cdb) _ d.nr_zones reset_each _ v (λ k s. do_reset_wp-Keeps k)
      (λ i z. do_reset_wp-Keeps i v)

open_zone-Sound : {d : ZbcDev} (cdb : List ℕ) → IsValid d → Sound d (open_zone d cdb).1
unfolding open_zone
open_zone-Sound {d} cdb v = elim (Bool-cases (all_bit cdb)) [
  | inl a ↦ rw a (open_all-Sound v)
  | inr a ↦ rw a (
      on_zone-cases (λ r. Sound d r.1) d _ _ (λ k c. Sound-refl v)
        (λ i z g e c. open_one-Sound i z v e c))
]

-- On a valid device every ZBC OUT command, accepted or refused, leaves a valid device (the counters of
-- open zones are exact, and every write pointer lies where its zone's type and condition say) with
-- the same configuration and the same start, length and type of every zone.
pub zbc_out-IsValid : {d : ZbcDev} (cdb : List ℕ) → IsValid d → Sound d (zbc_out d cdb).1
unfolding zbc_out
zbc_out-IsValid {d} cdb v = elim (Bool-cases (byte cdb 1 == 0x01)) [
  | inl h ↦ rw h (Sound-of_Keeps (close_zone-Keeps cdb v))
  | inr h ↦ rw h (elim (Bool-cases (byte cdb 1 == 0x02)) [
    | inl h ↦ rw h (Sound-of_Keeps (finish_zone-Keeps cdb v))
    | inr h ↦ rw h (elim (Bool-cases (byte cdb 1 == 0x03)) [
      | inl h ↦ rw h (open_zone-Sound cdb v)
      | inr h ↦ rw h (elim (Bool-cases (byte cdb 1 == 0x04)) [
        | inl h ↦ rw h (Sound-of_Keeps (reset_wp-Keeps cdb v))
        | inr h ↦ rw h (Sound-refl v)
      ])
    ])
  ])
]
