-- ===== src/Zbc/Write/Whole.antt =====
-- `zbc_write` as a whole: both loops end, and what a write that succeeds leaves.
use tcmu_runner.Prelude.{
  Bool-cases, ltb, ℕ, suc, ◌+◌, ◌*◌, ◌^◌, ◌≤◌, ◌<◌, ◌≡◌, ◌≢◌, refl, ap, ◌∙◌, sym, true, false, ◌⊎◌,
  List, Option, none, some, length, drop, get_or, arith, inl, inr, dec_lt,
}
use tcmu_runner.Cdb.{cdb_get_lba, cdb_get_xfer_length}
use tcmu_runner.Iovec.{Iovec, windows, iovec_length}
use tcmu_runner.Iovec.Zero.{iovec_length_mod}
use tcmu_runner.Zbc.{Zone, add64, ZbcDev, is_seq_req}
use tcmu_runner.Zbc.Invariant.{IsValid, ZoneAt, Frame-refl, WithinLimit}
use tcmu_runner.Zbc.Commands.{Reply, sts_ok, check, not_handled, SenseKey}
use tcmu_runner.Zbc.Write.{
  zone_end, Disk, WriteState, check_rdwr, write_once, write_loop, zbc_write,
}
use tcmu_runner.Zbc.Write.Zones.{Geometry, Addressable, Holds, zone_end-le}
use tcmu_runner.Zbc.Write.Check.{zone_end-eq}
use tcmu_runner.Zbc.Write.Check.{
  Checked, refused, accepted, Writable, check_zones-Checked, check_rdwr_iff,
}
use tcmu_runner.Zbc.Write.Loop.{WritesBlocks, Intact, Running}
use tcmu_runner.Zbc.Write.Ends.{Ended, failed, finished, some_left, none_left_eq, write_loop-Ended}

-- Where the write pointer stands: nothing was written, or one zone took all blocks and, if it requires
-- sequential writes, its pointer is behind them.
abbrev Pointed : ZbcDev → ℕ → ℕ → Type 0
Pointed d lba nr_lbas =
    (nr_lbas ≡ 0)
    ⊎ (i : ℕ) × (z : Zone) × ZoneAt d i z
      × (z.start ≤ lba)
      × (lba + nr_lbas ≤ z.start + z.len)
      × ((is_seq_req z ≡ false) ⊎ (z.wp ≡ lba + nr_lbas))

-- The state after a write that has succeeded.
pub record Done (meta_size : ℕ) (s0 s : WriteState) : Type 0 where
  pub intact : Intact s0.dev s.dev
  pub stored :
      (k : ℕ)
      → k < s0.nr_lbas * s0.dev.lba_size
      → s.disk (meta_size + s0.lba * s0.dev.lba_size + k) ≡ get_or (windows s0.iovec) k 0
  pub outside :
      (o : ℕ)
      → (o < meta_size + s0.lba * s0.dev.lba_size)
        ⊎ (meta_size + s0.lba * s0.dev.lba_size + s0.nr_lbas * s0.dev.lba_size ≤ o)
      → s.disk o ≡ s0.disk o
  pub pointed : Pointed s.dev s0.lba s0.nr_lbas

-- How the command ends.
pub data Outcome (meta_size : ℕ) (s0 : WriteState) : Option (Reply × WriteState) → Type 0 where
  error :
      {r : Reply} {s : WriteState}
      → r ≢ sts_ok
      → Intact s0.dev s.dev
      → Outcome meta_size s0 (some (r, s))
  success : {s : WriteState} → Done meta_size s0 s → Outcome meta_size s0 (some (sts_ok, s))

from_Ended :
    (meta_size : ℕ) (s0 : WriteState) (i : ℕ) (o : Option (Reply × WriteState))
    → Ended meta_size s0 i o
    → Outcome meta_size s0 o
from_Ended meta_size s0 i none e = elim e [ ]
from_Ended meta_size s0 i (some (r, s)) (failed n t) = error n t
from_Ended meta_size s0 i (some (_, s)) (finished z r) = success record {
  intact = r.intact;
  stored = r.stored;
  outside = r.outside;
  pointed = inr (i, z, r.at, r.above, omega (arith, r.inside, r.lba_now), pointer_behind);
}
  where
    pointer_behind : (is_seq_req z ≡ false) ⊎ (z.wp ≡ s0.lba + s0.nr_lbas)
    pointer_behind = elim (Bool-cases (is_seq_req z)) [
      | inl q ↦ inr (sym (r.pointer q) ∙ r.lba_now)
      | inr q ↦ inl q
    ]

Reply-cases :
    (r : Reply) → (r ≡ sts_ok) ⊎ (r ≡ not_handled) ⊎ (k : SenseKey) × (a : ℕ) × (r ≡ check k a)
Reply-cases sts_ok = inl refl
Reply-cases not_handled = inr (inl refl)
Reply-cases (check k a) = inr (inr (k, a, refl))

module _ (pwrite : ℕ → ℕ → Option ℕ) (meta_size : ℕ) (s0 : WriteState) where
  -- Nothing to write.
  no_blocks :
      (fuel : ℕ)
      → Intact s0.dev s0.dev
      → s0.nr_lbas ≡ 0
      → Outcome meta_size s0 (write_loop pwrite meta_size (suc fuel) s0)
  unfolding write_loop
  no_blocks fuel t e =
      rw (none_left_eq s0.nr_lbas e, write_loop)
        (success record {
          intact = t;
          stored = λ k h. absurd (omega (arith, none_bytes));
          outside = λ o h. refl;
          pointed = inl e;
        })
    where
      none_bytes : s0.nr_lbas * s0.dev.lba_size ≡ 0
      none_bytes = ap (λ n. n * s0.dev.lba_size) e ∙ (omega arith)

  -- A write over the end of its first zone.
  crossing :
      (fuel i : ℕ) (z : Zone)
      → Intact s0.dev s0.dev
      → 0 < s0.nr_lbas
      → Holds s0.dev s0.lba i z
      → z.start + z.len < s0.lba + s0.nr_lbas
      → s0.lba + s0.nr_lbas ≤ s0.dev.capacity
      → Outcome meta_size s0 (write_loop pwrite meta_size (suc fuel) s0)
  unfolding write_loop write_once
  crossing fuel i z t left h c on =
      rw (some_left s0.nr_lbas left, h.found, h.at, past, write_loop, write_once)
        (error (λ q. cc) t)
    where
      past : ltb (zone_end z) (add64 s0.lba s0.nr_lbas) ≡ true
      past = ground (
        arith,
        on,
        zone_end-eq i t.geometry h.at,
        zone_end-le i t.geometry h.at,
        t.geometry.small,
      )

  start-Running :
      (i : ℕ) (z : Zone)
      → Intact s0.dev s0.dev
      → Addressable meta_size s0.dev
      → Writable s0.dev s0.lba s0.nr_lbas i z
      → length (windows s0.iovec) ≡ s0.nr_lbas * s0.dev.lba_size
      → s0.lba + s0.nr_lbas ≤ z.start + z.len
      → Running meta_size s0 i 0 s0 z
  start-Running i z t ad ok room within = record {
    intact = t;
    addressable = ad;
    at = ok.holds.at;
    lba_now = omega arith;
    nr_now = omega arith;
    above = ok.holds.above;
    inside = within;
    pointer = ok.at_pointer;
    writable = λ h. ok.not_full;
    room = room;
    rest = ap (λ n. drop n (windows s0.iovec)) {x = 0} {y = 0 * s0.dev.lba_size} (omega arith);
    stored = λ k h. absurd (omega arith);
    outside = λ o h. refl;
  }

  -- The loop from its start, once the checks have succeeded.
  start-Outcome :
      (fuel : ℕ)
      → WritesBlocks pwrite s0.dev.lba_size
      → 0 < s0.dev.lba_size
      → Intact s0.dev s0.dev
      → Addressable meta_size s0.dev
      → s0.lba + s0.nr_lbas ≤ s0.dev.capacity
      → length (windows s0.iovec) ≡ s0.nr_lbas * s0.dev.lba_size
      → (0 < s0.nr_lbas → (i : ℕ) × (z : Zone) × Writable s0.dev s0.lba s0.nr_lbas i z)
      → s0.nr_lbas ≤ fuel
      → Outcome meta_size s0 (write_loop pwrite meta_size (suc fuel) s0)
  start-Outcome fuel p b t ad on room w enough = elim (dec_lt 0 s0.nr_lbas) [
    | no none_left ↦ no_blocks fuel t (omega arith)
    | yes left ↦
        let (i, z, ok) = w left in
        elim (dec_lt (z.start + z.len) (s0.lba + s0.nr_lbas)) [
          | yes c ↦ crossing fuel i z t left ok.holds c on
          | no within ↦ from_Ended meta_size s0 i _ (
              write_loop-Ended pwrite meta_size s0 i (suc fuel) 0 s0 z p b
                (start-Running i z t ad ok room (omega arith)) (omega arith))
        ]
  ]

  -- The check of the zones and the loop.
  Checked-Outcome :
      (o : Option Reply) (l : Option (Reply × WriteState))
      → Intact s0.dev s0.dev
      → Checked s0.dev s0.lba s0.nr_lbas o
      → ((0 < s0.nr_lbas → (i : ℕ) × (z : Zone) × Writable s0.dev s0.lba s0.nr_lbas i z)
          → Outcome meta_size s0 l)
      → Outcome meta_size s0 (elim o [ none ↦ none | some sts_ok ↦ l | some r ↦ some (r, s0) ])
  Checked-Outcome none l t c k = elim c [ ]
  Checked-Outcome (some sts_ok) l t (refused n) k = absurd (n refl)
  Checked-Outcome (some sts_ok) l t (accepted w) k = k w
  Checked-Outcome (some not_handled) l t c k = error (λ q. cc) t
  Checked-Outcome (some (check a b)) l t c k = error (λ q. cc) t

-- The state in which the command starts.
abbrev pub initial : ZbcDev → Disk → List ℕ → List Iovec → WriteState
initial d disk cdb iovec = record {
  dev = d;
  disk = disk;
  iovec = iovec;
  lba = cdb_get_lba cdb;
  nr_lbas = cdb_get_xfer_length cdb;
}

-- `zbc_write` on a valid device whose zones tile it and which is within its limit of open zones, with
-- a block size, CDB fields and a vector that fit their types, and a backstore file whose offsets fit 63 bits
-- and in which no `pwrite` is cut inside a block: the command returns. If it fails, the device is still
-- valid, within its limit and the zones are in place. If it succeeds, this holds too, the file holds the data at the place of the blocks and is as
-- before everywhere else, and, if there was a block, one zone took them all and its write pointer, if
-- it requires sequential writes, stands behind them.
pub zbc_write-Outcome :
    (pwrite : ℕ → ℕ → Option ℕ) (meta_size : ℕ) {d : ZbcDev} (disk : Disk) (cdb : List ℕ)
    (iovec : List Iovec)
    → WritesBlocks pwrite d.lba_size
    → IsValid d
    → Geometry d
    → Addressable meta_size d
    → WithinLimit d
    → 0 < d.lba_size
    → d.lba_size < 2 ^ 32
    → cdb_get_lba cdb < 2 ^ 64
    → cdb_get_xfer_length cdb < 2 ^ 32
    → length (windows iovec) < 2 ^ 64
    → Outcome meta_size (initial d disk cdb iovec) (zbc_write pwrite meta_size d disk cdb iovec)
unfolding zbc_write
zbc_write-Outcome pwrite meta_size {d} disk cdb iovec p v g ad l b small lba nr mem =
    elim (Reply-cases (check_rdwr d s0.lba s0.nr_lbas (iovec_length iovec))) [
      | inl ok ↦
          let (room, on) =
            (check_rdwr_iff d s0.lba s0.nr_lbas (iovec_length iovec) lba nr small g.small).0 ok in
          rw (ok, zbc_write)
            (Checked-Outcome pwrite meta_size s0 _ _ t
              (check_zones-Checked (s0.nr_lbas + 1) 0 s0.nr_lbas s0.lba g on (omega arith))
              (λ w. rw one_more (
                start-Outcome pwrite meta_size s0 s0.nr_lbas p b t ad on
                  (omega (arith, room, iovec_length_mod iovec)) w (omega arith))))
      | inr (inl e) ↦ rw (e, zbc_write) (error (λ q. cc) t)
      | inr (inr (k, a, e)) ↦ rw (e, zbc_write) (error (λ q. cc) t)
    ]
  where
    s0 : WriteState
    s0 = initial d disk cdb iovec

    t : Intact d d
    t = record { valid = v; geometry = g; limit = l; frame = Frame-refl d }

    one_more : s0.nr_lbas + 1 ≡ suc s0.nr_lbas
    one_more = omega arith
