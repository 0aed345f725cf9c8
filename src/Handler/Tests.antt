-- ===== src/Handler/Tests.antt =====
-- Commands of a small device, run through the model.
use tcmu_runner.Prelude.{
  ℕ, ◌+◌, ◌/◌, ◌^◌, ◌<◌, ◌≡◌, ◌≤◌, ◌⊎◌, ◌<◌, refl, List, [], ◌∷◌, ◌++◌, true, false, some, All,
  replicate, arith,
}
use tcmu_runner.Status.{Status, async_handled, ok, wr_err, is_ok}
use tcmu_runner.Cdb.{
  cdb_get_length, cdb_get_lba, cdb_get_xfer_length, get_unaligned_be16, raw_get_unaligned_be32,
  get_be64,
}
use tcmu_runner.Handler.{Device, lba_to_byte, check_lbas, check_iovec_length}
use tcmu_runner.Handler.Sizes.{Fits}
use tcmu_runner.Handler.Covers.{Covers}
use tcmu_runner.Handler.Unmap.{
  Answer, scheduled, Split, align_and_split_unmap, granularity, submitted, handle_unmap_internal,
}
use tcmu_runner.Handler.Unmap.Splits.{align_and_split_unmap-splits}
use tcmu_runner.Handler.Unmap.Granules.{InGranule, AtOnce, align_and_split_unmap-unaligned}
use tcmu_runner.Handler.Unmap.Medium.{InMedium, handle_unmap_internal-inside}
use tcmu_runner.Handler.Unmap.Finish.{
  unmap_put, settle, settled_ret, released, Unmapping, reserve, queue, call_back, leave_loop,
  release, Reach, at_start, then_step,
}
use tcmu_runner.Handler.Unmap.Finish.Once.{in_use, went_well, Reach-Once}
use tcmu_runner.Iovec.{Iovec, iovec_length}
use tcmu_runner.Handler.Compare.{Call, locks, reads, handle_caw_check, handle_caw, caw_run}
use tcmu_runner.Handler.Compare.Guarded.{Guarded, caw_run-Guarded}
use tcmu_runner.Handler.WriteSame.{handle_writesame}
use tcmu_runner.Handler.WriteSame.Whole.{Sized, Writes, handle_writesame-Writes}
use tcmu_runner.Handler.Xcopy.{
  Xcopy, CopyRound, copy_chain, handle_xcopy, begin_xcopy, first_round, begins,
}
use tcmu_runner.Handler.Xcopy.Naa.{
  Target, char_to_hex, put_digit, naa_loop, gen_naa_ieee, same_bytes, locate_udev,
}
use tcmu_runner.Handler.Xcopy.Parse.{
  parse_segment_descs, source_end, dest_end, parse_target_id, target_loop, locate_other,
  parse_target_descs, check_devices, check_pair, check_ends, parse_targets, parse_descs,
  parse_parameter_list,
}
use tcmu_runner.Handler.Xcopy.Copies.{CopyEnds}
use tcmu_runner.Handler.Xcopy.Whole.{handle_xcopy-copies}

abbrev disk : Device
disk = record {
  block_size = 512;
  block_size_shift = 9;
  num_lbas = 1000;
  max_xfer_len = 64;
  max_unmap_len = 256;
  opt_unmap_gran = 8;
  unmap_gran_align = 0;
  split_unmaps = true;
  opt_xcopy_rw_len = 2;
}

disk-Fits : Fits disk
disk-Fits = omega arith

disk-Sized : Sized disk
disk-Sized = (refl, omega arith, omega arith)

abbrev all_scheduled : ℕ → Answer
all_scheduled i = scheduled async_handled

align_and_split_unmap-splits_example :
    (s : Split) × (align_and_split_unmap disk all_scheduled 5 20 0 ≡ some s)
    × Covers disk 5 20 s.requests (s.ret ≡ async_handled)
unfolding granularity
align_and_split_unmap-splits_example =
    align_and_split_unmap-splits disk all_scheduled 5 20 0 disk-Fits (omega arith) (omega arith)

-- Twenty blocks from block 50 on go out as one request.
align_and_split_unmap-unaligned_example :
    (s : Split) × (align_and_split_unmap disk all_scheduled 50 20 0 ≡ some s)
    × ((50 ≤ disk.opt_unmap_gran) × All (InGranule disk disk.opt_unmap_gran) s.requests
        ⊎ (disk.opt_unmap_gran < 50) × AtOnce disk 50 20 s.requests)
align_and_split_unmap-unaligned_example =
    align_and_split_unmap-unaligned disk all_scheduled 50 20 0 disk-Fits refl refl (omega arith)
      (omega arith) (omega arith)

-- One descriptor, for 20 blocks from block 10 on.
abbrev unmap_par : List ℕ
unmap_par = replicate 8 0 ++ replicate 7 0 ++ 10 ∷ 0 ∷ 0 ∷ 0 ∷ 20 ∷ 0 ∷ 0 ∷ 0 ∷ 0 ∷ []

unmap_par-bytes : All (λ b. b < 256) unmap_par
unmap_par-bytes = ground arith

handle_unmap_internal-inside_example :
    (s : Split) × (handle_unmap_internal disk all_scheduled ok 16 unmap_par ≡ submitted (some s))
    × All (InMedium disk) s.requests
unfolding granularity
handle_unmap_internal-inside_example =
    handle_unmap_internal-inside disk all_scheduled 16 unmap_par disk-Fits (omega arith)
      unmap_par-bytes (omega arith) (omega arith)

-- One request, which fails after the command's thread is done.
abbrev over : Unmapping
over = record {
  state = record { refcount = 0; status = ok; freed = true };
  stage = released ok;
  reserving = false;
  queued = 0;
  finished = ok ∷ [];
}

over-Reach : Reach over
unfolding unmap_put settle settled_ret
over-Reach =
    then_step
      (then_step
        (then_step (then_step (then_step at_start (reserve refl refl (omega arith))) (queue refl))
          (leave_loop async_handled refl refl))
        (release ok refl refl))
      (call_back wr_err (omega arith) refl)

Reach-Once_example :
    (in_use over ≡ true → (over.state.freed ≡ false) × (over.finished ≡ []))
    × (in_use over ≡ false
        → (s : Status) × (over.finished ≡ s ∷ []) × (is_ok s ≡ went_well over.stage))
Reach-Once_example = Reach-Once {c = over} over-Reach

-- WRITE SAME (16) of 20 blocks from block 4 on.
abbrev same_cdb : List ℕ
same_cdb = 0x93 ∷ 0 ∷ 0 ∷ 0 ∷ 0 ∷ 0 ∷ 0 ∷ 0 ∷ 0 ∷ 4 ∷ 0 ∷ 0 ∷ 0 ∷ 20 ∷ 0 ∷ 0 ∷ []

same_cdb-lba : cdb_get_lba same_cdb < 2 ^ 64
unfolding cdb_get_lba cdb_get_length get_unaligned_be16 raw_get_unaligned_be32 get_be64
same_cdb-lba = omega arith

same_cdb-len : cdb_get_xfer_length same_cdb < 2 ^ 64
unfolding cdb_get_xfer_length cdb_get_length get_unaligned_be16 raw_get_unaligned_be32
same_cdb-len = omega arith

abbrev a_block : List ℕ
a_block = replicate 512 7

abbrev all_well : ℕ → Status × Status
all_well i = (ok, async_handled)

handle_writesame-Writes_example :
    Writes disk same_cdb a_block all_well
      (handle_writesame disk false all_scheduled ok true async_handled same_cdb 1 a_block)
handle_writesame-Writes_example =
    handle_writesame-Writes disk false all_scheduled ok true async_handled same_cdb 1 a_block
      all_well disk-Fits disk-Sized same_cdb-lba same_cdb-len

-- EXTENDED COPY of 5 blocks from block 3 to block 100 of the same device.
abbrev unit : Target
unit = record { device = disk; serial = some (b'1' ∷ []) }

abbrev target_desc : List ℕ
target_desc = 0xe4 ∷ 0 ∷ 0 ∷ 0 ∷ 0x01 ∷ 0x03 ∷ 0 ∷ 16 ∷ 0x60 ∷ 0x01 ∷ 0x40 ∷ 0x51 ∷ replicate 20 0

abbrev copy_par : List ℕ
copy_par =
    (0 ∷ 0x18 ∷ 0 ∷ 64 ∷ 0 ∷ 0 ∷ 0 ∷ 0 ∷ 0 ∷ 0 ∷ 0 ∷ 28 ∷ 0 ∷ 0 ∷ 0 ∷ 0 ∷ [])
    ++ target_desc
    ++ target_desc
    ++ (0x02 ∷ 0 ∷ 0 ∷ 0x18 ∷ 0 ∷ 0 ∷ 0 ∷ 1 ∷ 0 ∷ 0 ∷ 0 ∷ 5 ∷ [])
    ++ (0 ∷ 0 ∷ 0 ∷ 0 ∷ 0 ∷ 0 ∷ 0 ∷ 3 ∷ 0 ∷ 0 ∷ 0 ∷ 0 ∷ 0 ∷ 0 ∷ 0 ∷ 100 ∷ [])

abbrev copy_cdb : List ℕ
copy_cdb = 0x83 ∷ 0 ∷ 0 ∷ 0 ∷ 0 ∷ 0 ∷ 0 ∷ 0 ∷ 0 ∷ 0 ∷ 0 ∷ 0 ∷ 0 ∷ 108 ∷ 0 ∷ 0 ∷ []

abbrev copy : Xcopy
copy = record { src_lba = 3; dst_lba = 100; lba_cnt = 5; copy_lbas = 2; requested = 1024 }

abbrev rounds : ℕ → CopyRound
rounds i = record { read = ok; to_write = async_handled; write = ok; to_read = async_handled }

copy-begins :
    handle_xcopy copy_cdb
      (parse_parameter_list (unit ∷ []) unit (cdb_get_xfer_length copy_cdb) true copy_par)
      true
      async_handled
    ≡ begins disk disk copy
unfolding handle_xcopy begin_xcopy first_round lba_to_byte cdb_get_xfer_length cdb_get_length
    get_unaligned_be16 raw_get_unaligned_be32 get_be64 char_to_hex put_digit naa_loop gen_naa_ieee
    same_bytes locate_udev parse_segment_descs source_end dest_end parse_target_id target_loop
    locate_other parse_target_descs check_devices check_pair check_ends parse_targets parse_descs
    parse_parameter_list
copy-begins = refl

handle_xcopy-copies_example :
    CopyEnds disk disk copy.src_lba copy.dst_lba copy.lba_cnt
      (copy_chain (copy.lba_cnt + 1) disk disk rounds 0 copy)
handle_xcopy-copies_example =
    handle_xcopy-copies copy_cdb (unit ∷ []) unit true copy_par true async_handled disk disk copy
      rounds copy-begins disk-Fits disk-Fits refl refl (omega arith) (omega arith) (omega arith)
      (omega arith) (omega arith) (λ j. refl) (λ j. refl)

-- One block of two bytes is compared, and one written.
abbrev bytewise : Device
bytewise = record disk { block_size = 2; block_size_shift = 1 }

abbrev caw_cdb : List ℕ
caw_cdb = 0x89 ∷ replicate 12 0 ++ 1 ∷ 0 ∷ 0 ∷ []

abbrev caw_vector : List Iovec
caw_vector = record { behind = []; window = 1 ∷ 2 ∷ 7 ∷ 8 ∷ [] } ∷ []

abbrev caw_read : List ℕ
caw_read = 1 ∷ 2 ∷ []

-- The command comes to the read.
caw_begins :
    handle_caw bytewise caw_cdb caw_vector true async_handled
    ≡ (record { calls = locks ∷ reads 2 ∷ []; pending = true }, async_handled)
unfolding handle_caw handle_caw_check check_iovec_length check_lbas lba_to_byte cdb_get_lba
    iovec_length get_be64 raw_get_unaligned_be32
caw_begins = refl

caw_run-Guarded_example :
    (cs : List Call) × (caw_run bytewise caw_cdb caw_vector true async_handled caw_read ok
        async_handled ok
      ≡ some cs)
    × Guarded caw_read caw_vector
        (iovec_length caw_vector / 2)
        (handle_caw bytewise caw_cdb caw_vector true async_handled).1
        cs
unfolding iovec_length
caw_run-Guarded_example =
    caw_run-Guarded bytewise caw_cdb caw_vector true async_handled caw_read ok async_handled ok
      (omega arith) (omega arith)
