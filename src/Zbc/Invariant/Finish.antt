-- ===== src/Zbc/Invariant/Finish.antt =====
-- `__zbc_finish_zone` and `__zbc_reset_wp` on any zone.
use tcmu_runner.Prelude.{
  ℕ, ◌+◌, ◌≤◌, ◌<◌, ◌^◌, ◌≡◌, refl, ap, Bool, true, false, ◌&&◌, ◌||◌, set, arith, if◌then◌else◌,
  get_elem?-set_self, get_elem?-lt,
}
use tcmu_runner.Zbc.{
  Zone, empty, full, ZbcDev, is_conv, is_empty, is_closed, is_imp_open, is_exp_open, is_open,
  mark_full, mark_empty, do_close_zone, do_finish_zone, do_reset_wp,
}
use tcmu_runner.Zbc.Invariant.Defs.{ZoneOk, IsValid}
use tcmu_runner.Zbc.Invariant.Ops.{
  ZoneAt, put_zone-IsValid, zone-ZoneOk, shut, do_close_zone_lem, do_close_zone-IsValid,
}
use tcmu_runner.Zbc.Invariant.Places.{Frame, Frame-trans, Frame-put, do_close_zone-Frame}

-- An operation that replaces zone `i` by `z'`, which is not open, and opens nothing.
pub record Settles (d : ZbcDev) (i : ℕ) (z' : Zone) (d' : ZbcDev) : Type 0 where
  pub valid : IsValid d'
  pub frame : Frame d d'
  pub now : ZoneAt d' i z'
  pub imp : d'.nr_imp_open ≤ d.nr_imp_open
  pub exp : d'.nr_exp_open ≤ d.nr_exp_open

-- The zone that `__zbc_close_zone` leaves, whether it had anything to do or not.
abbrev pub closed_form : Zone → Zone
closed_form z = if is_open z then shut z else z

pub close-Settles :
    {d : ZbcDev} {z : Zone} (i : ℕ)
    → IsValid d
    → ZoneAt d i z
    → Settles d i (closed_form z) (do_close_zone d i)
close-Settles {d} {z} i v e = record {
  valid = do_close_zone-IsValid i v;
  frame = do_close_zone-Frame i v;
  now =
      rw (do_close_zone_lem i v e)
        (ground (arith, e, get_elem?-set_self d.zones i (shut z) (get_elem?-lt d.zones i e)));
  imp = rw (do_close_zone_lem i v e) (ground arith);
  exp = rw (do_close_zone_lem i v e) (ground arith);
}

-- Only an open zone is closed first; on any other closing does nothing.
close_if_open :
    {d : ZbcDev} {z : Zone} (i : ℕ)
    → IsValid d
    → ZoneAt d i z
    → (if is_open z then do_close_zone d i else d) ≡ do_close_zone d i
close_if_open {d} {z} i v e = rw (do_close_zone_lem i v e) (ground arith)

-- The same where the code tests for an implicitly open zone, and the zone is not explicitly open.
pub close_if_imp-Settles :
    {d : ZbcDev} {z : Zone} (i : ℕ)
    → IsValid d
    → ZoneAt d i z
    → is_exp_open z ≡ false
    → Settles d i (closed_form z) (if is_imp_open z then do_close_zone d i else d)
close_if_imp-Settles {d} {z} i v e x = rw same (close-Settles i v e)
  where
    same : (if is_imp_open z then do_close_zone d i else d) ≡ do_close_zone d i
    same = ground (arith, close_if_open i v e)

-- The zones that finishing and resetting leave.
abbrev pub finished : Zone → Zone
finished z = record z { wp = z.start + z.len; cond = full; non_seq = false; reset = false }

abbrev pub emptied : Zone → Zone
emptied z = record z { wp = z.start; cond = empty; non_seq = false; reset = false }

finished-ZoneOk : (z : Zone) → ZoneOk z → is_conv z ≡ false → ZoneOk (finished z)
finished-ZoneOk z ok s = ground arith

emptied-ZoneOk : (z : Zone) → ZoneOk z → is_conv z ≡ false → ZoneOk (emptied z)
emptied-ZoneOk z ok s = ground arith

-- A zone that is not open is replaced by one that is not.
put-Settles :
    {d : ZbcDev} {z : Zone} (i : ℕ) (z' : Zone)
    → IsValid d
    → ZoneAt d i z
    → ZoneOk z'
    → z'.start ≡ z.start
    → z'.len ≡ z.len
    → z'.type ≡ z.type
    → is_open z ≡ false
    → is_open z' ≡ false
    → Settles d i z' (record d { zones = set d.zones i z' })
put-Settles {d} {z} i z' v e ok a b c o o' = record {
  valid = put_zone-IsValid i z' d.nr_imp_open d.nr_exp_open v e ok (ground arith) (ground arith);
  frame = Frame-put d i z' d.nr_imp_open d.nr_exp_open e (cc);
  now = get_elem?-set_self d.zones i z' (get_elem?-lt d.zones i e);
  imp = omega arith;
  exp = omega arith;
}

mark_full_lem :
    (d : ZbcDev) {z : Zone} (i : ℕ)
    → ZoneAt d i z
    → z.start + z.len < 2 ^ 63
    → mark_full d i ≡ record d { zones = set d.zones i (finished z) }
unfolding mark_full
mark_full_lem d i e h = ground (arith, e)

mark_empty_lem :
    (d : ZbcDev) {z : Zone} (i : ℕ)
    → ZoneAt d i z
    → mark_empty d i ≡ record d { zones = set d.zones i (emptied z) }
unfolding mark_empty
mark_empty_lem d i e = ground (arith, e)

mark_full-Settles :
    {d : ZbcDev} {z : Zone} (i : ℕ)
    → IsValid d
    → ZoneAt d i z
    → is_conv z ≡ false
    → is_open z ≡ false
    → Settles d i (finished z) (mark_full d i)
mark_full-Settles {d} {z} i v e s o =
    rw (mark_full_lem d i e (zone-ZoneOk i v e).small) (
      put-Settles i (finished z) v e (finished-ZoneOk z (zone-ZoneOk i v e) s) refl refl refl o
        refl)

mark_empty-Settles :
    {d : ZbcDev} {z : Zone} (i : ℕ)
    → IsValid d
    → ZoneAt d i z
    → is_conv z ≡ false
    → is_open z ≡ false
    → Settles d i (emptied z) (mark_empty d i)
mark_empty-Settles {d} {z} i v e s o =
    rw (mark_empty_lem d i e)
      (put-Settles i (emptied z) v e (emptied-ZoneOk z (zone-ZoneOk i v e) s) refl refl refl o refl)

-- Two steps on one zone.
Settles-trans :
    {a b c : ZbcDev} {i : ℕ} {x y : Zone} → Settles a i x b → Settles b i y c → Settles a i y c
Settles-trans f g = record {
  valid = g.valid;
  frame = Frame-trans f.frame g.frame;
  now = g.now;
  imp = omega (arith, f.imp, g.imp);
  exp = omega (arith, f.exp, g.exp);
}

closed_form-shut : (z : Zone) → is_open (closed_form z) ≡ false
closed_form-shut z = ground arith

closed_form-conv : (z : Zone) → is_conv z ≡ false → is_conv (closed_form z) ≡ false
closed_form-conv z s = ground arith

finished-closed_form : (z : Zone) → finished (closed_form z) ≡ finished z
finished-closed_form z = ground arith

emptied-closed_form : (z : Zone) → emptied (closed_form z) ≡ emptied z
emptied-closed_form z = ground arith

-- Whether `__zbc_finish_zone` acts.
abbrev pub finishes : Zone → Bool → Bool
finishes z also_empty = is_closed z || is_open z || (also_empty && is_empty z)

do_finish_zone_lem :
    {d : ZbcDev} {z : Zone} (i : ℕ) (also_empty : Bool)
    → IsValid d
    → ZoneAt d i z
    → is_conv z ≡ false
    → do_finish_zone d i also_empty
      ≡ (if finishes z also_empty then mark_full (do_close_zone d i) i else d)
unfolding do_finish_zone
do_finish_zone_lem {d} {z} i also_empty v e s =
    ground (arith, e, ap (λ x. mark_full x i) (close_if_open i v e))

do_reset_wp_lem :
    {d : ZbcDev} {z : Zone} (i : ℕ)
    → IsValid d
    → ZoneAt d i z
    → is_conv z ≡ false
    → do_reset_wp d i ≡ mark_empty (do_close_zone d i) i
unfolding do_reset_wp
do_reset_wp_lem {d} {z} i v e s = ground (arith, e, ap (λ x. mark_empty x i) (close_if_open i v e))

-- `__zbc_finish_zone` on a sequential zone that it acts on: the zone is full, its pointer at its end.
pub do_finish_zone-Settles :
    {d : ZbcDev} {z : Zone} (i : ℕ) (also_empty : Bool)
    → IsValid d
    → ZoneAt d i z
    → is_conv z ≡ false
    → finishes z also_empty ≡ true
    → Settles d i (finished z) (do_finish_zone d i also_empty)
do_finish_zone-Settles {d} {z} i also_empty v e s f =
    rw (do_finish_zone_lem i also_empty v e s, f, ← finished-closed_form z)
      (Settles-trans c
        (mark_full-Settles i c.valid c.now (closed_form-conv z s) (closed_form-shut z)))
  where
    c : Settles d i (closed_form z) (do_close_zone d i)
    c = close-Settles i v e

-- `__zbc_reset_wp` on a sequential zone: the zone is empty, its pointer at its start.
pub do_reset_wp-Settles :
    {d : ZbcDev} {z : Zone} (i : ℕ)
    → IsValid d
    → ZoneAt d i z
    → is_conv z ≡ false
    → Settles d i (emptied z) (do_reset_wp d i)
do_reset_wp-Settles {d} {z} i v e s =
    rw (do_reset_wp_lem i v e s, ← emptied-closed_form z)
      (Settles-trans c
        (mark_empty-Settles i c.valid c.now (closed_form-conv z s) (closed_form-shut z)))
  where
    c : Settles d i (closed_form z) (do_close_zone d i)
    c = close-Settles i v e
