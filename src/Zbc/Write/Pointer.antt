-- ===== src/Zbc/Write/Pointer.antt =====
-- The write pointer after a transfer in one zone.
use tcmu_runner.Prelude.{
  ℕ, ◌+◌, ◌-◌, ◌≤◌, ◌<◌, ◌^◌, ◌≡◌, refl, ap, ◌∙◌, true, ◌⊎◌, some, get_elem?, set, arith, inl, inr,
  dec_lt, get_elem?-set_self, get_elem?-lt, set-set,
}
use tcmu_runner.Zbc.{Zone, full, ZbcDev, is_conv, is_seq_req, is_open, do_close_zone, put_zone}
use tcmu_runner.Zbc.Invariant.{
  IsValid, ZoneAt, ZoneOk, Keeps, zone-ZoneOk, put_zone-IsValid, Frame-put, place, imp_weight,
  exp_weight, after_close, do_close_zone_raw, counters, shut,
}
use tcmu_runner.Zbc.Write.{adjusted, settle_write, fill_up, zone_end}

-- A zone that a write has reached: sequential and open, or conventional.
abbrev pub Ready : Zone → Type 0
Ready z = (is_conv z ≡ true) ⊎ (is_open z ≡ true)

adjusted-ZoneOk :
    (z : Zone) (lba count : ℕ)
    → ZoneOk z
    → is_open z ≡ true
    → z.start ≤ lba
    → lba + count < z.start + z.len
    → (is_seq_req z ≡ true → lba ≡ z.wp)
    → ZoneOk (adjusted z lba count)
adjusted-ZoneOk z lba count ok o a b w = record {
  nonempty = ground arith;
  small = ground arith;
  pointer = ground (arith, ok.pointer, ok.small, w);
}

-- A write that ends inside the zone only moves the pointer.
settle_inside :
    {d : ZbcDev} {z : Zone} (i lba count : ℕ)
    → IsValid d
    → ZoneAt d i z
    → is_open z ≡ true
    → z.start ≤ lba
    → lba + count < z.start + z.len
    → (is_seq_req z ≡ true → lba ≡ z.wp)
    → settle_write d i lba count ≡ put_zone d i (adjusted z lba count)
unfolding settle_write
settle_inside {d} {z} i lba count v e o a b w = ground (arith, e, zone-ZoneOk i v e, w)

-- In a conventional zone nothing is recorded.
settle_conv :
    (d : ZbcDev) {z : Zone} (i lba count : ℕ)
    → ZoneAt d i z
    → is_conv z ≡ true
    → settle_write d i lba count ≡ put_zone d i z
unfolding settle_write
settle_conv d i lba count e c = ground (arith, e)

-- A write up to the end of the zone: it is closed and marked full.
abbrev ended : Zone → Zone
ended z = record z { wp = z.start + z.len }

abbrev pub filled : Zone → Zone
filled z = record z { wp = z.start + z.len; cond = full }

abbrev after_fill : ZbcDev → ℕ → Zone → ZbcDev
after_fill d i z = record d {
  zones = set d.zones i (filled z);
  nr_imp_open = d.nr_imp_open - imp_weight z;
  nr_exp_open = d.nr_exp_open - exp_weight z;
}

filled-ZoneOk : (z : Zone) → ZoneOk z → is_open z ≡ true → ZoneOk (filled z)
filled-ZoneOk z ok o = record {
  nonempty = ok.nonempty;
  small = ok.small;
  pointer = ground (arith, ok.pointer);
}

adjusted_at_end :
    (z : Zone) (lba count : ℕ)
    → ZoneOk z
    → is_open z ≡ true
    → lba + count ≡ z.start + z.len
    → (is_seq_req z ≡ true → lba ≡ z.wp)
    → adjusted z lba count ≡ ended z
adjusted_at_end z lba count ok o b w = ground (arith, ok.pointer, ok.small, w)

close_ended :
    {d : ZbcDev} {z : Zone} (i : ℕ)
    → IsValid d
    → ZoneAt d i z
    → is_open z ≡ true
    → do_close_zone (put_zone d i (ended z)) i ≡ after_close (put_zone d i (ended z)) i (ended z)
close_ended {d} {z} i v e o =
    do_close_zone_raw (put_zone d i (ended z)) i
      (get_elem?-set_self d.zones i (ended z) (get_elem?-lt d.zones i e))
      (ground (arith, (zone-ZoneOk i v e).pointer)) (omega (arith, counters i v e))
      (omega (arith, counters i v e)) (omega (arith, counters i v e))
      (omega (arith, counters i v e))

fill_up_lem :
    (d : ZbcDev) {z : Zone} (i : ℕ)
    → ZoneAt d i z
    → fill_up d i ≡ put_zone d i (record z { wp = zone_end z; cond = full })
unfolding fill_up
fill_up_lem d i e = ground (arith, e)

-- The end of the round in terms of its parts.
settle_step :
    {d : ZbcDev} {z : Zone} (i lba count : ℕ)
    → IsValid d
    → ZoneAt d i z
    → is_open z ≡ true
    → lba + count ≡ z.start + z.len
    → (is_seq_req z ≡ true → lba ≡ z.wp)
    → settle_write d i lba count ≡ fill_up (do_close_zone (put_zone d i (ended z)) i) i
unfolding settle_write
settle_step {d} {z} i lba count v e o b w = ground (
  arith,
  e,
  adjusted_at_end z lba count (zone-ZoneOk i v e) o b w,
  (zone-ZoneOk i v e).pointer,
  (zone-ZoneOk i v e).small,
)

-- Three writes to one zone are the last one.
fill_closed :
    (d : ZbcDev) {z : Zone} (i : ℕ)
    → ZoneAt d i z
    → is_open z ≡ true
    → z.start + z.len < 2 ^ 63
    → fill_up (after_close (put_zone d i (ended z)) i (ended z)) i ≡ after_fill d i z
fill_closed d {z} i e o small = rw o (
    ground (
      arith,
      fill_up_lem
          (record d {
            zones = set (set d.zones i (ended z)) i (shut (ended z));
            nr_imp_open = d.nr_imp_open - imp_weight z;
            nr_exp_open = d.nr_exp_open - exp_weight z;
          })
          i at,
      set-set d.zones i (ended z) (shut (ended z)),
      set-set d.zones i (shut (ended z)) (filled z),
    ))
  where
    at : get_elem? (set (set d.zones i (ended z)) i (shut (ended z))) i ≡ some (shut (ended z))
    at = rw set-set (get_elem?-set_self d.zones i (shut (ended z)) (get_elem?-lt d.zones i e))

settle_end :
    {d : ZbcDev} {z : Zone} (i lba count : ℕ)
    → IsValid d
    → ZoneAt d i z
    → is_open z ≡ true
    → lba + count ≡ z.start + z.len
    → (is_seq_req z ≡ true → lba ≡ z.wp)
    → settle_write d i lba count ≡ after_fill d i z
settle_end {d} {z} i lba count v e o b w =
    settle_step i lba count v e o b w
    ∙ ap (λ x. fill_up x i) (close_ended i v e o)
    ∙ fill_closed d i e o (zone-ZoneOk i v e).small

-- What a transfer of `count` blocks at `lba` into zone `i` leaves.
pub record Written (d : ZbcDev) (i lba count : ℕ) (z : Zone) (d' : ZbcDev) : Type 0 where
  pub keeps : Keeps d d'
  pub zone : Zone
  pub now : ZoneAt d' i zone
  pub same_place : place zone ≡ place z
  pub pointer : is_seq_req z ≡ true → zone.wp ≡ lba + count
  pub ready : lba + count < z.start + z.len → Ready zone

Written-inside :
    {d : ZbcDev} {z : Zone} (i lba count : ℕ)
    → IsValid d
    → ZoneAt d i z
    → is_open z ≡ true
    → z.start ≤ lba
    → lba + count < z.start + z.len
    → (is_seq_req z ≡ true → lba ≡ z.wp)
    → Written d i lba count z (put_zone d i (adjusted z lba count))
Written-inside {d} {z} i lba count v e o a b w = record {
  keeps = record {
    valid =
        put_zone-IsValid i z' d.nr_imp_open d.nr_exp_open v e
          (adjusted-ZoneOk z lba count (zone-ZoneOk i v e) o a b w) (ground arith) (ground arith);
    frame = Frame-put d i z' d.nr_imp_open d.nr_exp_open e (ground arith);
    imp = omega arith;
    exp = omega arith;
  };
  zone = z';
  now = get_elem?-set_self d.zones i z' (get_elem?-lt d.zones i e);
  same_place = ground arith;
  pointer = λ q. ground (arith, w q, (zone-ZoneOk i v e).small);
  ready = λ q. inr (ground arith);
}
  where
    z' : Zone
    z' = adjusted z lba count

Written-end :
    {d : ZbcDev} {z : Zone} (i lba count : ℕ)
    → IsValid d
    → ZoneAt d i z
    → is_open z ≡ true
    → lba + count ≡ z.start + z.len
    → Written d i lba count z (after_fill d i z)
Written-end {d} {z} i lba count v e o b = record {
  keeps = record {
    valid =
        put_zone-IsValid i (filled z) _ _ v e (filled-ZoneOk z (zone-ZoneOk i v e) o)
          (ground (arith, counters i v e)) (ground (arith, counters i v e));
    frame = Frame-put d i (filled z) _ _ e refl;
    imp = omega arith;
    exp = omega arith;
  };
  zone = filled z;
  now = get_elem?-set_self d.zones i (filled z) (get_elem?-lt d.zones i e);
  same_place = refl;
  pointer = λ q. omega arith;
  ready = λ q. absurd (omega arith);
}

Written-conv :
    {d : ZbcDev} {z : Zone} (i lba count : ℕ)
    → IsValid d
    → ZoneAt d i z
    → is_conv z ≡ true
    → Written d i lba count z (put_zone d i z)
Written-conv {d} {z} i lba count v e c = record {
  keeps = record {
    valid = put_zone-IsValid i z d.nr_imp_open d.nr_exp_open v e (zone-ZoneOk i v e) refl refl;
    frame = Frame-put d i z d.nr_imp_open d.nr_exp_open e refl;
    imp = omega arith;
    exp = omega arith;
  };
  zone = z;
  now = get_elem?-set_self d.zones i z (get_elem?-lt d.zones i e);
  same_place = refl;
  pointer = λ q. absurd (ground arith);
  ready = λ q. inl c;
}

-- After a transfer on a valid device into a conventional or open zone, inside that zone and, where a
-- sequential write is required, from its write pointer on: the device is valid, has opened nothing and
-- kept the places of its zones; a required write pointer stands behind the transfer; and the zone is
-- conventional or still open unless the transfer has reached its end.
pub settle_write-Written :
    {d : ZbcDev} {z : Zone} (i lba count : ℕ)
    → IsValid d
    → ZoneAt d i z
    → Ready z
    → z.start ≤ lba
    → lba + count ≤ z.start + z.len
    → (is_seq_req z ≡ true → lba ≡ z.wp)
    → Written d i lba count z (settle_write d i lba count)
settle_write-Written {d} i lba count v e (inl c) a b w =
    rw (settle_conv d i lba count e c) (Written-conv i lba count v e c)
settle_write-Written {d} {z} i lba count v e (inr o) a b w =
    elim (dec_lt (lba + count) (z.start + z.len)) [
      | yes h ↦ rw (settle_inside i lba count v e o a h w) (Written-inside i lba count v e o a h w)
      | no h ↦
          rw (settle_end i lba count v e o (omega arith) w)
            (Written-end i lba count v e o (omega arith))
    ]
