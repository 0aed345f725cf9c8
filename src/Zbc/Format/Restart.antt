-- ===== src/Zbc/Format/Restart.antt =====
-- Taking up a device whose zones may still be open: `zbc_init_meta`.
use tcmu_runner.Prelude.{
  subst, get_elem?_of_lt, ℕ, suc, ◌+◌, ◌<◌, ◌≡◌, ◌^◌, refl, ap, ◌∙◌, sym, Bool, true, false, List,
  [], ◌∷◌, some, get_elem?, set, length, total, All, arith, if◌then◌else◌, Bool-cases, inl, inr,
  dec_lt, for_range, for_range_ind, All-get, All-set, length-set, get_elem?-set_self,
  get_elem?-set_ne, get_elem?-lt,
}
use tcmu_runner.Zbc.{Zone, ZbcDev, is_open, do_close_zone}
use tcmu_runner.Zbc.Invariant.{
  IsValid, ZoneOk, ZoneAt, WithinLimit, imp_weight, exp_weight, shut, shut-ZoneOk,
}
use tcmu_runner.Zbc.Format.{close_at, init_meta}

-- The zones below `k` are not open.
record Shut (n k : ℕ) (d : ZbcDev) : Type 0 where
  sized : length d.zones ≡ n
  counted : d.nr_zones ≡ n
  zones_ok : All ZoneOk d.zones
  below : (j : ℕ) (z : Zone) → j < k → ZoneAt d j z → is_open z ≡ false

closed_zones :
    (d : ZbcDev) {z : Zone} (i : ℕ)
    → ZoneAt d i z
    → ZoneOk z
    → ((do_close_zone d i).zones ≡ (if is_open z then set d.zones i (shut z) else d.zones))
      × ((do_close_zone d i).nr_zones ≡ d.nr_zones)
unfolding do_close_zone
closed_zones d {z} i e ok = (ground (arith, e, ok.pointer), ground (arith, e))

same_some : (x y : Zone) → some x ≡ some y → is_open y ≡ false → is_open x ≡ false
same_some x y e h = cc

shut-closed : (z : Zone) → is_open (shut z) ≡ false
shut-closed z = ground arith

-- A list whose zones below `k` are not open, with zone `k` closed too.
below_set :
    (zs : List Zone) (k : ℕ) (z : Zone)
    → k < length zs
    → ((j : ℕ) (y : Zone) → j < k → get_elem? zs j ≡ some y → is_open y ≡ false)
    → (j : ℕ) (y : Zone) → j < k + 1
    → get_elem? (set zs k (shut z)) j ≡ some y
    → is_open y ≡ false
below_set zs k z inside h j y lt e = elim (dec_lt j k) [
  | yes p ↦ h j y p (sym (get_elem?-set_ne zs k j (shut z) (λ q. omega arith)) ∙ e)
  | no p ↦
      let here : k ≡ j = omega arith in
      same_some y (shut z)
        (sym e
          ∙ ap (λ i. get_elem? (set zs k (shut z)) i) (sym here)
          ∙ get_elem?-set_self zs k (shut z) inside)
        (shut-closed z)
]

below_same :
    (zs : List Zone) (k : ℕ) (z : Zone)
    → get_elem? zs k ≡ some z
    → is_open z ≡ false
    → ((j : ℕ) (y : Zone) → j < k → get_elem? zs j ≡ some y → is_open y ≡ false)
    → (j : ℕ) (y : Zone) → j < k + 1
    → get_elem? zs j ≡ some y
    → is_open y ≡ false
below_same zs k z at c h j y lt e = elim (dec_lt j k) [
  | yes p ↦ h j y p e
  | no p ↦
      let here : k ≡ j = omega arith in
      same_some y z (sym e ∙ ap (λ i. get_elem? zs i) (sym here) ∙ at) c
]

-- One round of the loop.
close-Shut : (n k : ℕ) (d : ZbcDev) → k < n → Shut n k d → Shut n (k + 1) (close_at k d)
close-Shut n k d h s =
    let (z, e) = get_elem?_of_lt d.zones k (omega (arith, s.sized)) in
    let ok : ZoneOk z = All-get ZoneOk d.zones k s.zones_ok e in
    let (zs, nr) = closed_zones d k e ok in
    elim (Bool-cases (is_open z)) [
      | inl o ↦
          let now = zs ∙ ap (λ b. if b then set d.zones k (shut z) else d.zones) o in
          record {
            sized = ap length now ∙ length-set d.zones k (shut z) ∙ s.sized;
            counted = nr ∙ s.counted;
            zones_ok =
                subst (All ZoneOk) (sym now)
                  (All-set ZoneOk d.zones k (shut z) s.zones_ok (shut-ZoneOk z ok o));
            below = λ j y lt at.
                below_set d.zones k z (omega (arith, s.sized)) s.below j y lt
                  (ap (λ l. get_elem? l j) (sym now) ∙ at);
          }
      | inr c ↦
          let now = zs ∙ ap (λ b. if b then set d.zones k (shut z) else d.zones) c in
          record {
            sized = ap length now ∙ s.sized;
            counted = nr ∙ s.counted;
            zones_ok = subst (All ZoneOk) (sym now) s.zones_ok;
            below = λ j y lt at.
                below_same d.zones k z e c s.below j y lt (ap (λ l. get_elem? l j) (sym now) ∙ at);
          }
    ]

none_open-total :
    (w : Zone → ℕ) (zs : List Zone)
    → ((z : Zone) → is_open z ≡ false → w z ≡ 0)
    → ((j : ℕ) (z : Zone) → get_elem? zs j ≡ some z → is_open z ≡ false)
    → total w zs ≡ 0
unfolding total
none_open-total w [] h k = refl
none_open-total w (z ∷ zs) h k =
    omega (arith, h z (k 0 z refl), none_open-total w zs h (λ j y e. k (suc j) y e))

-- Whatever the counters hold, and whichever zones are still open: where every zone is well-formed and
-- the metadata can be mapped, `zbc_init_meta` succeeds and leaves a valid device, within its
-- limit of open zones, in which no zone is open.
pub init_meta-IsValid :
    (io : ZbcDev → Bool) (d : ZbcDev)
    → io d ≡ true
    → length d.zones ≡ d.nr_zones
    → d.nr_zones < 2 ^ 32
    → All ZoneOk d.zones
    → (d' : ZbcDev) × (init_meta io d ≡ some d')
      × IsValid d'
      × WithinLimit d'
      × (total imp_weight d'.zones ≡ 0)
      × (total exp_weight d'.zones ≡ 0)
unfolding init_meta
init_meta-IsValid io d ok sized few zones = (
  record e { nr_imp_open = 0; nr_exp_open = 0 },
  rw (ok, init_meta) refl,
  record {
    sized = s.sized ∙ sym s.counted;
    few = omega (arith, s.counted);
    imp_count = sym imp;
    exp_count = sym exp;
    zones_ok = s.zones_ok;
  },
  omega arith,
  imp,
  exp,
)
  where
    e : ZbcDev
    e = for_range d.nr_zones 0 close_at d

    s : Shut d.nr_zones d.nr_zones e
    s =
        for_range_ind (Shut d.nr_zones) close_at d.nr_zones (close-Shut d.nr_zones) d.nr_zones 0 d
          (omega arith)
          (record {
            sized = sized;
            counted = refl;
            zones_ok = zones;
            below = λ j z lt at. absurd (omega arith);
          })

    closed_all : (j : ℕ) (z : Zone) → get_elem? e.zones j ≡ some z → is_open z ≡ false
    closed_all j z at = s.below j z (omega (arith, get_elem?-lt e.zones j at, s.sized)) at

    imp : total imp_weight e.zones ≡ 0
    imp = none_open-total imp_weight e.zones (λ z o. ground arith) closed_all

    exp : total exp_weight e.zones ≡ 0
    exp = none_open-total exp_weight e.zones (λ z o. ground arith) closed_all
