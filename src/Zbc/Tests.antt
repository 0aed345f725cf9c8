-- ===== src/Zbc/Tests.antt =====
-- The theorems on the zoned device at a small device and concrete commands.
use tcmu_runner.Prelude.{
  ℕ, zero, suc, total, Option, none, some, Bool, true, replicate, ◌==◌, if◌then◌else◌, ◌+◌, ◌*◌,
  ◌≤◌, ◌≡◌, ◌≢◌, ◌⊎◌, inr, refl, false, List, [], ◌∷◌, min, drop, arith,
}
use tcmu_runner.Cdb.{cdb_get_xfer_length, cdb_get_lba}
use tcmu_runner.Zbc.{
  hm, ZoneType, conventional, seqwrite_req, ZoneCond, not_wp, closed, imp_open, Zone, ZbcDev,
  is_exp_open, is_full,
}
use tcmu_runner.Zbc.Invariant.{
  imp_weight, exp_weight, IsValid, WithinLimit, ZoneAt, Settles, emptied, finished, closed_form,
  opened,
}
use tcmu_runner.Zbc.Commands.{
  Reply, sts_ok, check, data_protect, asc_insufficient_zone_resources, get_zone, open_zone,
  close_zone, finish_zone, reset_wp, zbc_out,
}
use tcmu_runner.Zbc.Commands.Effects.{Sound, zbc_out-IsValid}
use tcmu_runner.Zbc.Commands.Outcomes.{
  Names, zbc_out_refusal, reset_wp_named, finish_zone_named, close_zone_named, open_zone_named,
  zbc_out-WithinLimit,
}
use tcmu_runner.Iovec.{Iovec, windows, iovec_length, iovec_seek}
use tcmu_runner.Zbc.Write.{
  check_rdwr, check_zones, settle_write, zone_fault, write_loop, write_once, transfer, zbc_write,
  WriteState,
}
use tcmu_runner.Zbc.Format.{DevConfig, format_meta, init_meta}
use tcmu_runner.Zbc.Format.Restart.{init_meta-IsValid}
use tcmu_runner.Zbc.Format.Fresh.{format_meta-IsValid}
use tcmu_runner.Zbc.Write.Loop.{WritesBlocks}
use tcmu_runner.Zbc.Read.{zbc_read}
use tcmu_runner.Zbc.Read.Within.{file_bytes}
use tcmu_runner.Zbc.Read.Back.{Plain, zbc_write-read}
use tcmu_runner.Zbc.Report.{ro_all, options, report_zones}
use tcmu_runner.Zbc.Report.Listing.{matching, counted, reported, report_zones-lists}
use tcmu_runner.Zbc.Write.Whole.{Outcome, initial, zbc_write-Outcome}
use tcmu_runner.Zbc.Write.Zones.{Geometry, Holds}
use tcmu_runner.Zbc.Write.Check.{Checked, check_zones-Checked}
use tcmu_runner.Zbc.Write.Pointer.{Written, settle_write-Written}

abbrev zone : ZoneType → ZoneCond → ℕ → ℕ → Zone
zone t c start wp = record {
  start = start;
  len = 8;
  wp = wp;
  type = t;
  cond = c;
  non_seq = false;
  reset = false;
}

abbrev zone1 : Zone
zone1 = zone seqwrite_req closed 8 10

abbrev zone2 : Zone
zone2 = zone seqwrite_req imp_open 16 17

-- A conventional zone, a closed one and an implicitly open one; one zone may be open.
abbrev device : ZbcDev
device = record {
  model = hm;
  capacity = 24;
  lba_size = 512;
  zone_size = 8;
  zones = zone conventional not_wp 0 0 ∷ zone1 ∷ zone2 ∷ [];
  nr_zones = 3;
  nr_conv_zones = 1;
  nr_open_zones = 1;
  nr_imp_open = 1;
  nr_exp_open = 0;
}

device-IsValid : IsValid device
unfolding total
device-IsValid = record {
  sized = refl;
  few = omega arith;
  imp_count = refl;
  exp_count = refl;
  zones_ok = (
    record { nonempty = omega arith; small = omega arith; pointer = refl },
    (
      record { nonempty = omega arith; small = omega arith; pointer = (omega arith, omega arith) },
      (
        record {
          nonempty = omega arith;
          small = omega arith;
          pointer = (omega arith, omega arith);
        },
        tt,
      ),
    ),
  );
}

device-WithinLimit : WithinLimit device
device-WithinLimit = omega arith

device-tiles :
    (i : ℕ) (z : Zone)
    → ZoneAt device i z
    → (z.start ≡ i * 8) × (z.start + z.len ≡ min ((i + 1) * 8) 24)
device-tiles zero z e = ground (arith, e)
device-tiles (suc zero) z e = ground (arith, e)
device-tiles (suc (suc zero)) z e = ground (arith, e)
device-tiles (suc (suc (suc i))) z e = ground (arith, e)

device-Geometry : Geometry device
device-Geometry = record {
  sized = refl;
  few = omega arith;
  small = omega arith;
  positive = omega arith;
  covered = omega arith;
  tiles = device-tiles;
}

-- ZBC OUT with a service action for the zone that starts at block 8.
abbrev out_8 : ℕ → List ℕ
out_8 action = 0x94 ∷ action ∷ 0 ∷ 0 ∷ 0 ∷ 0 ∷ 0 ∷ 0 ∷ 0 ∷ 8 ∷ 0 ∷ 0 ∷ 0 ∷ 0 ∷ 0 ∷ 0 ∷ []

-- One for a block at which no zone starts.
abbrev out_9 : ℕ → List ℕ
out_9 action = 0x94 ∷ action ∷ 0 ∷ 0 ∷ 0 ∷ 0 ∷ 0 ∷ 0 ∷ 0 ∷ 9 ∷ 0 ∷ 0 ∷ 0 ∷ 0 ∷ 0 ∷ 0 ∷ []

out_8-lba : (action : ℕ) → cdb_get_lba (out_8 action) ≡ 8
unfolding cdb_get_lba
out_8-lba action = refl

out_8-Names : (action : ℕ) → Names device (out_8 action) 1 zone1
unfolding cdb_get_lba get_zone
out_8-Names action = record {
  one = refl;
  in_range = omega arith;
  found = refl;
  at = refl;
  sequential = refl;
}

zbc_out-IsValid_example : Sound device (zbc_out device (out_8 3)).1
zbc_out-IsValid_example = zbc_out-IsValid (out_8 3) device-IsValid

zbc_out-WithinLimit_example : WithinLimit (zbc_out device (out_8 3)).1
zbc_out-WithinLimit_example =
    zbc_out-WithinLimit (out_8 3) device-IsValid device-WithinLimit (inr refl)

out_9_refused : (zbc_out device (out_9 4)).0 ≢ sts_ok
unfolding zbc_out cdb_get_lba get_zone reset_wp
out_9_refused = λ e. cc

zbc_out_refusal_example : (zbc_out device (out_9 4)).1 ≡ device
zbc_out_refusal_example = zbc_out_refusal device (out_9 4) out_9_refused

reset_wp_named_example :
    ((reset_wp device (out_8 4)).0 ≡ sts_ok)
    × Settles device 1 (emptied zone1) (reset_wp device (out_8 4)).1
reset_wp_named_example = reset_wp_named device-IsValid (out_8-Names 4)

finish_zone_named_example :
    ((finish_zone device (out_8 2)).0 ≡ sts_ok)
    × Settles device 1 (finished zone1) (finish_zone device (out_8 2)).1
finish_zone_named_example = finish_zone_named device-IsValid (out_8-Names 2) refl

close_zone_named_example :
    ((close_zone device (out_8 1)).0 ≡ sts_ok)
    × Settles device 1 (closed_form zone1) (close_zone device (out_8 1)).1
close_zone_named_example = close_zone_named device-IsValid (out_8-Names 1)

open_zone_named_example :
    (((is_exp_open zone1 ≡ true) ⊎ (is_full zone1 ≡ true))
      × (open_zone device (out_8 3) ≡ (sts_ok, device)))
    ⊎ ((device.nr_open_zones ≤ device.nr_exp_open)
        × (open_zone device (out_8 3)
            ≡ (check data_protect asc_insufficient_zone_resources, device)))
    ⊎ ((open_zone device (out_8 3)).0 ≡ sts_ok)
      × ZoneAt (open_zone device (out_8 3)).1 1 (opened true zone1)
      × IsValid (open_zone device (out_8 3)).1
      × WithinLimit (open_zone device (out_8 3)).1
open_zone_named_example = open_zone_named device-IsValid device-WithinLimit (out_8-Names 3)

check_zones-Checked_example : Checked device 17 4 (check_zones 5 device 0 4 17)
check_zones-Checked_example =
    check_zones-Checked 5 0 4 17 device-Geometry (omega arith) (omega arith)

-- Two rounds: inside the zone, and up to its end.
settle_write-Written_example : Written device 2 17 7 zone2 (settle_write device 2 17 7)
settle_write-Written_example =
    settle_write-Written 2 17 7 device-IsValid refl (inr refl) (omega arith) (omega arith)
      (λ e. refl)

-- A system call that writes all that it is asked to.
abbrev writes_all : ℕ → ℕ → Option ℕ
writes_all offset count = if count == 0 then none else some count

writes_all-WritesBlocks : WritesBlocks writes_all 512
writes_all-WritesBlocks = record { whole = λ offset count n m e. ground (arith, m, e) }

-- WRITE (10) of one block at 17, the write pointer of the last zone.
abbrev write_10 : List ℕ
write_10 = 0x2a ∷ 0 ∷ 0 ∷ 0 ∷ 0 ∷ 17 ∷ 0 ∷ 0 ∷ 1 ∷ 0 ∷ []

abbrev block : List Iovec
block = record { behind = []; window = replicate 512 7 } ∷ []

write_10-fields : (cdb_get_lba write_10 ≡ 17) × (cdb_get_xfer_length write_10 ≡ 1)
unfolding cdb_get_lba cdb_get_xfer_length
write_10-fields = (refl, refl)

zbc_write-Outcome_example :
    Outcome 4096
      (initial device (λ o. 0) write_10 block)
      (zbc_write writes_all 4096 device (λ o. 0) write_10 block)
zbc_write-Outcome_example =
    zbc_write-Outcome writes_all 4096 (λ o. 0) write_10 block writes_all-WritesBlocks device-IsValid
      device-Geometry (omega arith) device-WithinLimit (omega arith) (omega arith)
      (omega (arith, write_10-fields.0)) (omega (arith, write_10-fields.1)) (omega arith)

abbrev succeeds : Option (Reply × WriteState) → Bool
succeeds (some (sts_ok, s)) = true
succeeds _ = false

write_10-succeeds : succeeds (zbc_write writes_all 4096 device (λ o. 0) write_10 block) ≡ true
unfolding zbc_write check_rdwr iovec_length cdb_get_xfer_length cdb_get_lba check_zones get_zone
    zone_fault write_loop write_once transfer iovec_seek
write_10-succeeds = refl

-- A host-managed device of four zones of eight blocks, the last one short.
abbrev small_config : DevConfig
small_config = record {
  dev_size = 15360;
  model = hm;
  lba_size = 512;
  zone_size = 4096;
  conv_num = 1;
  open_num = 128;
}

abbrev blank : ZbcDev
blank = record {
  model = hm;
  capacity = 0;
  lba_size = 0;
  zone_size = 0;
  zones = [];
  nr_zones = 0;
  nr_conv_zones = 0;
  nr_open_zones = 0;
  nr_imp_open = 0;
  nr_exp_open = 0;
}

abbrev works : ZbcDev → Bool
works d = true

format_meta-IsValid_example :
    (d' : ZbcDev) × (format_meta works small_config blank ≡ some d')
    × IsValid d'
    × Geometry d'
    × WithinLimit d'
format_meta-IsValid_example =
    format_meta-IsValid works small_config blank (λ e. refl)
      (record {
        zone_positive = omega arith;
        zone_word = omega arith;
        positive = omega arith;
        small = omega arith;
        few = omega arith;
        conv = inr (omega arith);
      })
      refl refl

-- The device as it is found after a crash: a zone is open in the metadata, and nothing is counted.
abbrev crashed : ZbcDev
crashed = record device { nr_imp_open = 0; nr_exp_open = 0 }

init_meta-IsValid_example :
    (d' : ZbcDev) × (init_meta works crashed ≡ some d')
    × IsValid d'
    × WithinLimit d'
    × (total imp_weight d'.zones ≡ 0)
    × (total exp_weight d'.zones ≡ 0)
init_meta-IsValid_example =
    init_meta-IsValid works crashed refl refl (omega arith) (device-IsValid.zones_ok)

-- REPORT ZONES of all zones from block 9 on, with an allocation length of 192 bytes.
abbrev report_9 : List ℕ
report_9 = 0x95 ∷ 0 ∷ 0 ∷ 0 ∷ 0 ∷ 0 ∷ 0 ∷ 0 ∷ 0 ∷ 9 ∷ 0 ∷ 0 ∷ 0 ∷ 192 ∷ 0 ∷ 0 ∷ []

abbrev room : List Iovec
room = record { behind = []; window = replicate 192 0 } ∷ []

report_9-Holds : Holds device (cdb_get_lba report_9) 1 zone1
unfolding cdb_get_lba get_zone
report_9-Holds = record { found = refl; at = refl; above = omega arith; below = omega arith }

report_zones-lists_example :
    report_zones device report_9 room
    ≡ some (
      sts_ok,
      reported device room
          (counted false (cdb_get_xfer_length report_9) (matching ro_all (drop 1 device.zones)))
          (matching ro_all (drop 1 device.zones)),
    )
unfolding options
report_zones-lists_example =
    report_zones-lists device report_9 room ro_all 1 zone1 device-IsValid device-Geometry refl
      report_9-Holds

abbrev state_of : Option (Reply × WriteState) → WriteState
state_of (some (r, s)) = s
state_of none = initial device (λ o. 0) write_10 block

abbrev after_write : WriteState
after_write = state_of (zbc_write writes_all 4096 device (λ o. 0) write_10 block)

after_write-ends :
    zbc_write writes_all 4096 device (λ o. 0) write_10 block ≡ some (sts_ok, after_write)
unfolding zbc_write check_rdwr iovec_length cdb_get_xfer_length cdb_get_lba check_zones get_zone
    zone_fault write_loop write_once transfer iovec_seek
after_write-ends = refl

after_write-Plain : (i : ℕ) (z : Zone) → ZoneAt after_write.dev i z → Plain z
unfolding zbc_write check_rdwr iovec_length cdb_get_xfer_length cdb_get_lba check_zones get_zone
    zone_fault write_loop write_once transfer iovec_seek settle_write
after_write-Plain zero z e = ground (arith, e)
after_write-Plain (suc zero) z e = ground (arith, e)
after_write-Plain (suc (suc zero)) z e = ground (arith, e)
after_write-Plain (suc (suc (suc i))) z e = ground (arith, e)

-- READ (10) of the same block.
abbrev read_10 : List ℕ
read_10 = 0x28 ∷ 0 ∷ 0 ∷ 0 ∷ 0 ∷ 17 ∷ 0 ∷ 0 ∷ 1 ∷ 0 ∷ []

abbrev buffer : Iovec
buffer = record { behind = []; window = replicate 512 0 }

read_10-fields :
    (cdb_get_lba read_10 ≡ cdb_get_lba write_10)
    × (cdb_get_xfer_length read_10 ≡ cdb_get_xfer_length write_10)
unfolding cdb_get_lba cdb_get_xfer_length
read_10-fields = (refl, refl)

zbc_write-read_example :
    zbc_read
      (λ o n. some (file_bytes after_write.disk o n))
      4096
      after_write.dev
      read_10
      (buffer ∷ [])
    ≡ some (sts_ok, windows block ∷ [])
zbc_write-read_example =
    zbc_write-read writes_all (λ o n. some (file_bytes after_write.disk o n)) 4096 (λ o. 0) write_10
      read_10 block buffer after_write writes_all-WritesBlocks device-IsValid device-Geometry
      (omega arith) device-WithinLimit (omega arith) (omega arith)
      (omega (arith, write_10-fields.0)) (omega (arith, write_10-fields.1)) (omega arith)
      (omega (arith, write_10-fields.1)) (omega (arith, write_10-fields.1)) after_write-ends
      after_write-Plain (λ _ _. refl) read_10-fields.0 read_10-fields.1
      (omega (arith, write_10-fields.1))
