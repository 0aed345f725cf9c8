-- ===== src/Zbc/Invariant/Open.antt =====
-- `__zbc_open_zone` on a zone that is empty or closed.
use tcmu_runner.Prelude.{
  ℕ, ◌+◌, ◌≤◌, ◌<◌, ◌≡◌, refl, Bool, true, ◌||◌, set, arith, if◌then◌else◌, get_elem?-set_self,
  get_elem?-lt,
}
use tcmu_runner.Zbc.{
  Zone, imp_open, exp_open, ZbcDev, is_empty, is_closed, mark_open, make_room, do_open_zone,
}
use tcmu_runner.Zbc.Invariant.Defs.{ZoneOk, IsValid, WithinLimit}
use tcmu_runner.Zbc.Invariant.Ops.{ZoneAt, put_zone-IsValid, zone-ZoneOk, counts-lt}
use tcmu_runner.Zbc.Invariant.Places.{Frame, Frame-trans, Frame-put}
use tcmu_runner.Zbc.Invariant.Room.{Roomier, is_crowded, make_room-Roomier, make_room_limit}

-- A zone once it is open.
abbrev pub opened : Bool → Zone → Zone
opened explicit z = record z { cond = if explicit then exp_open else imp_open }

abbrev pub one_if : Bool → ℕ
one_if b = if b then 1 else 0

abbrev pub is_openable : Zone → Bool
is_openable z = is_empty z || is_closed z

opened-ZoneOk :
    (explicit : Bool) (z : Zone) → ZoneOk z → is_openable z ≡ true → ZoneOk (opened explicit z)
opened-ZoneOk explicit z ok o = ground arith

-- What `mark_open` makes of a valid device.
abbrev after_open : ZbcDev → ℕ → Bool → Zone → ZbcDev
after_open d i explicit z = record d {
  zones = set d.zones i (opened explicit z);
  nr_imp_open = d.nr_imp_open + (if explicit then 0 else 1);
  nr_exp_open = d.nr_exp_open + one_if explicit;
}

after_open-IsValid :
    {d : ZbcDev} {z : Zone} (i : ℕ) (explicit : Bool)
    → IsValid d
    → ZoneAt d i z
    → is_openable z ≡ true
    → IsValid (after_open d i explicit z)
after_open-IsValid {d} {z} i explicit v e o =
    put_zone-IsValid i (opened explicit z) _ _ v e (opened-ZoneOk explicit z (zone-ZoneOk i v e) o)
      (ground arith) (ground arith)

mark_open_lem :
    {d : ZbcDev} {z : Zone} (i : ℕ) (explicit : Bool)
    → IsValid d
    → ZoneAt d i z
    → is_openable z ≡ true
    → mark_open d i explicit ≡ after_open d i explicit z
unfolding mark_open
mark_open_lem {d} {z} i explicit v e o =
    ground (arith, e, counts-lt (after_open-IsValid i explicit v e o))

-- `__zbc_open_zone` on zone `i`, an empty or closed zone `z`.
pub record Opens (d : ZbcDev) (i : ℕ) (explicit : Bool) (z : Zone) (d' : ZbcDev) : Type 0 where
  pub valid : IsValid d'
  pub frame : Frame d d'
  pub now : ZoneAt d' i (opened explicit z)
  pub exp : d'.nr_exp_open ≡ d.nr_exp_open + one_if explicit
  pub grows : d'.nr_imp_open + d'.nr_exp_open ≤ d.nr_imp_open + d.nr_exp_open + 1

mark_open-Opens :
    {d : ZbcDev} {z : Zone} (i : ℕ) (explicit : Bool)
    → IsValid d
    → ZoneAt d i z
    → is_openable z ≡ true
    → Opens d i explicit z (mark_open d i explicit)
mark_open-Opens {d} {z} i explicit v e o = rw (mark_open_lem i explicit v e o) record {
  valid = after_open-IsValid i explicit v e o;
  frame = Frame-put d i (opened explicit z) _ _ e refl;
  now = get_elem?-set_self d.zones i (opened explicit z) (get_elem?-lt d.zones i e);
  exp = refl;
  grows = ground arith;
}

do_open_zone_lem :
    (d : ZbcDev) {z : Zone} (i : ℕ) (explicit : Bool)
    → ZoneAt d i z
    → is_openable z ≡ true
    → do_open_zone d i explicit ≡ mark_open (make_room d) i explicit
unfolding do_open_zone
do_open_zone_lem d {z} i explicit e o = ground (arith, e)

-- Opening an empty or closed zone keeps the invariant and the configuration, sets that zone's
-- condition and moves the counter of explicitly open zones by one exactly for an explicit opening.
pub do_open_zone-Opens :
    {d : ZbcDev} {z : Zone} (i : ℕ) (explicit : Bool)
    → IsValid d
    → ZoneAt d i z
    → is_openable z ≡ true
    → Opens d i explicit z (do_open_zone d i explicit)
do_open_zone-Opens {d} {z} i explicit v e o = rw (do_open_zone_lem d i explicit e o) record {
  valid = m.valid;
  frame = Frame-trans r.frame m.frame;
  now = m.now;
  exp = omega (arith, m.exp, r.exp);
  grows = omega (arith, m.grows, r.imp, r.exp);
}
  where
    r : Roomier (if is_crowded d then 1 else 0) d (make_room d)
    r = make_room-Roomier v

    m : Opens (make_room d) i explicit z (mark_open (make_room d) i explicit)
    m = mark_open-Opens i explicit r.valid (r.others i z e (ground arith)) o

-- With room for an explicit opening, an opening stays within the limit.
pub do_open_zone-WithinLimit :
    {d : ZbcDev} {z : Zone} (i : ℕ) (explicit : Bool)
    → IsValid d
    → ZoneAt d i z
    → is_openable z ≡ true
    → WithinLimit d
    → d.nr_exp_open < d.nr_open_zones
    → WithinLimit (do_open_zone d i explicit)
do_open_zone-WithinLimit {d} {z} i explicit v e o w h =
    rw (do_open_zone_lem d i explicit e o)
      (omega (arith, limit, m.grows, m.frame.nr_open_zones, r.frame.nr_open_zones))
  where
    r : Roomier (if is_crowded d then 1 else 0) d (make_room d)
    r = make_room-Roomier v

    limit : (make_room d).nr_imp_open + (make_room d).nr_exp_open < d.nr_open_zones
    limit = make_room_limit v w h

    m : Opens (make_room d) i explicit z (mark_open (make_room d) i explicit)
    m = mark_open-Opens i explicit r.valid (r.others i z e (ground arith)) o
