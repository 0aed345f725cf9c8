-- ===== src/Zbc/Invariant/Room.antt =====
-- `__zbc_close_imp_open_zone`: it closes one implicitly open zone if there is one, and no other zone.
use tcmu_runner.Prelude.{
  ℕ, zero, suc, ◌+◌, ◌-◌, ◌<◌, ◌≡◌, refl, ◌∙◌, Bool, true, false, some, length, get_elem?, set,
  drop, min, total, total-drop, total-nil, drop_all, arith, if◌then◌else◌, Bool-cases, inl, inr,
  get_elem?-set_ne, get_elem?_of_lt, ℕ_discrete, leb,
}
use native.Mathlib.Numerals.{add-one}
use tcmu_runner.Zbc.{
  Zone, ZbcDev, is_imp_open, imp_open_at, do_close_zone, close_imp_from, do_close_imp_open_zone,
  make_room, add32,
}
use tcmu_runner.Zbc.Invariant.Defs.{IsValid, imp_weight, WithinLimit}
use tcmu_runner.Zbc.Invariant.Ops.{ZoneAt, shut, do_close_zone_lem, do_close_zone-IsValid, no_wrap}
use tcmu_runner.Zbc.Invariant.Places.{Frame, Frame-refl, do_close_zone-Frame}

-- A device in which `k` implicitly open zones have been closed.
pub record Roomier (k : ℕ) (d d' : ZbcDev) : Type 0 where
  pub valid : IsValid d'
  pub frame : Frame d d'
  pub imp : d'.nr_imp_open ≡ d.nr_imp_open - k
  pub exp : d'.nr_exp_open ≡ d.nr_exp_open
  pub others : (j : ℕ) (z : Zone) → ZoneAt d j z → is_imp_open z ≡ false → ZoneAt d' j z

pub Roomier-none : {d : ZbcDev} (k : ℕ) → k ≡ 0 → IsValid d → Roomier k d d
Roomier-none {d} k e v = record {
  valid = v;
  frame = Frame-refl d;
  imp = omega arith;
  exp = refl;
  others = λ j z at closed. at;
}

other_zone :
    (d : ZbcDev) (i j : ℕ) (z x y : Zone)
    → ZoneAt d i z
    → is_imp_open z ≡ true
    → ZoneAt d j y
    → is_imp_open y ≡ false
    → get_elem? (set d.zones i x) j ≡ some y
other_zone d i j z x y e o at c = elim (ℕ_discrete i j) [
  | yes same ↦ absurd (ground arith)
  | no ne ↦ rw (get_elem?-set_ne d.zones i j x ne) at
]

-- Closing an implicitly open zone.
close_imp-Roomier :
    {d : ZbcDev} (i : ℕ) (z : Zone)
    → IsValid d
    → ZoneAt d i z
    → is_imp_open z ≡ true
    → Roomier 1 d (do_close_zone d i)
close_imp-Roomier {d} i z v e o = record {
  valid = do_close_zone-IsValid i v;
  frame = do_close_zone-Frame i v;
  imp = ground (arith, do_close_zone_lem i v e);
  exp = ground (arith, do_close_zone_lem i v e);
  others =
      λ j y at c. ground (arith, do_close_zone_lem i v e, other_zone d i j z (shut z) y e o at c);
}

imp_open_at-eq : (d : ZbcDev) {z : Zone} (i : ℕ) → ZoneAt d i z → imp_open_at d i ≡ is_imp_open z
imp_open_at-eq d i e = ground arith

one_found :
    (d : ZbcDev) {z : Zone} (i : ℕ)
    → ZoneAt d i z
    → is_imp_open z ≡ true
    → min 1 (total imp_weight (drop i d.zones)) ≡ 1
one_found d i e o = ground (arith, total-drop imp_weight d.zones i e)

none_found :
    (d : ZbcDev) {z : Zone} (i : ℕ)
    → ZoneAt d i z
    → is_imp_open z ≡ false
    → total imp_weight (drop i d.zones) ≡ total imp_weight (drop (i + 1) d.zones)
none_found d i e o = rw add-one (ground (arith, total-drop imp_weight d.zones i e))

close_imp_from-Roomier :
    (n i : ℕ) {d : ZbcDev}
    → n + i ≡ length d.zones
    → IsValid d
    → Roomier (min 1 (total imp_weight (drop i d.zones))) d (close_imp_from n i d)
unfolding close_imp_from
close_imp_from-Roomier zero i {d} h v =
    Roomier-none _ (rw (drop_all i d.zones (omega arith), total-nil) (omega arith)) v
close_imp_from-Roomier (suc n) i {d} h v =
    let (z, e) = get_elem?_of_lt d.zones i (omega arith) in
    elim (Bool-cases (is_imp_open z)) [
      | inl o ↦
          rw (one_found d i e o, imp_open_at-eq d i e ∙ o, close_imp_from)
            (close_imp-Roomier i z v e o)
      | inr o ↦
          rw (none_found d i e o, imp_open_at-eq d i e ∙ o, close_imp_from)
            (close_imp_from-Roomier n (i + 1) (omega arith) v)
    ]

-- On a valid device `__zbc_close_imp_open_zone` leaves a valid device with the same places of the zones;
-- one implicitly open zone fewer, if there was any, and as many explicitly open ones; every zone
-- that was not implicitly open is as before.
pub do_close_imp_open_zone-Roomier :
    {d : ZbcDev} → IsValid d → Roomier 1 d (do_close_imp_open_zone d)
unfolding do_close_imp_open_zone
do_close_imp_open_zone-Roomier {d} v = record {
  valid = r.valid;
  frame = r.frame;
  imp = omega (arith, r.imp, v.imp_count);
  exp = r.exp;
  others = r.others;
}
  where
    r : Roomier (min 1 (total imp_weight d.zones)) d (close_imp_from d.nr_zones 0 d)
    r = close_imp_from-Roomier d.nr_zones 0 (omega (arith, v.sized)) v

abbrev pub is_crowded : ZbcDev → Bool
is_crowded d = leb d.nr_open_zones (add32 d.nr_imp_open d.nr_exp_open)

-- Room is made only where the limit is reached.
pub make_room-Roomier :
    {d : ZbcDev} → IsValid d → Roomier (if is_crowded d then 1 else 0) d (make_room d)
make_room-Roomier {d} v = elim (Bool-cases (is_crowded d)) [
  | inl c ↦ rw c (do_close_imp_open_zone-Roomier v)
  | inr c ↦ rw c (Roomier-none 0 refl v)
]

-- If fewer zones than the limit are explicitly open and no more than the limit are open at all, then
-- there is room for one more.
pub make_room_limit :
    {d : ZbcDev}
    → IsValid d
    → WithinLimit d
    → d.nr_exp_open < d.nr_open_zones
    → (make_room d).nr_imp_open + (make_room d).nr_exp_open < d.nr_open_zones
make_room_limit {d} v w h = ground (arith, r.imp, r.exp, no_wrap v)
  where
    r : Roomier (if is_crowded d then 1 else 0) d (make_room d)
    r = make_room-Roomier v
