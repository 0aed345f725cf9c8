-- ===== src/Handler/WriteSame.antt =====
-- WRITE SAME, tcmur_cmd_handler.c: `handle_writesame_check`, `handle_writesame` and the chain of writes
-- that `writesame_work_fn` and `handle_writesame_cbk` make.
pub mod Chain
pub mod Whole
use tcmu_runner.Prelude.{
  ℕ, zero, suc, ◌+◌, ◌*◌, ◌-◌, ◌/◌, ◌%◌, ◌^◌, min, List, [], ◌∷◌, ◌++◌, Bool, true, false, not,
  ◌&&◌, ◌||◌, Option, none, some, length, ltb, leb, ◌==◌, if◌then◌else◌,
}
use tcmu_runner.Status.{Status, ok, no_resource, wr_err, invalid_cdb, is_ok}
use tcmu_runner.Cdb.{byte, cdb_get_lba, cdb_get_xfer_length}
use tcmu_runner.Handler.{Device, lba_to_byte, byte_to_lba, check_lbas}
use tcmu_runner.Handler.Ranges.{Request}
use tcmu_runner.Handler.Unmap.{Answer, UnmapReply, is_async, handle_unmap_in_writesame}

-- `struct write_same`, with `requested` of the command.
pub record WriteSame : Type 0 where
  pub cur_lba : ℕ
  pub lba_cnt : ℕ
  pub requested : ℕ

-- `handle_writesame_check`, given the number of vectors and the length of the first.
unfoldable pub handle_writesame_check : Device → List ℕ → ℕ → ℕ → Status
unfolding check_lbas
handle_writesame_check d cdb iov_cnt iov_len =
    let lba_cnt = cdb_get_xfer_length cdb in
    if not (iov_cnt == 1) || not (iov_len == d.block_size)
    then invalid_cdb
    else if lba_cnt == 0
    then invalid_cdb
    else if ltb 0xFFFFFFFF lba_cnt
    then invalid_cdb
    else check_lbas d (cdb_get_lba cdb) lba_cnt

-- `round_up` of libtcmu_common.h on 64-bit numbers.
unfoldable pub round_up : ℕ → ℕ → ℕ
round_up a b = (a + (b + 2 ^ 64 - 1) % 2 ^ 64) % 2 ^ 64 / b * b % 2 ^ 64

-- `length` of `handle_writesame`. The product of the two 32-bit numbers is one of 32 bits.
unfoldable pub write_length : Device → ℕ → ℕ
unfolding round_up lba_to_byte
write_length d lba_cnt =
    min (round_up (1024 * 1024) (d.max_xfer_len * d.block_size % 2 ^ 32)) (lba_to_byte d lba_cnt)

-- The buffer that `handle_writesame` fills with `n` copies of the block.
unfoldable pub fill_buffer : ℕ → List ℕ → List ℕ
fill_buffer zero block = []
fill_buffer (suc n) block = block ++ fill_buffer n block

-- What `writesame_work_fn` hands to the handler.
unfoldable pub writesame_work : Device → WriteSame → Request
unfolding lba_to_byte
writesame_work d w = record { offset = lba_to_byte d w.cur_lba; length = w.requested }

-- The end of a callback: the next write is scheduled, or the command is finished.
pub data WriteNext : Type 0 where
  goes_on : WriteSame → WriteNext
  finishes : Status → WriteNext

-- `handle_writesame_cbk`, given what the write gave and what `aio_request_schedule` gives if it is called.
unfoldable pub handle_writesame_cbk : Device → WriteSame → Status → Status → WriteNext
unfolding byte_to_lba lba_to_byte
handle_writesame_cbk d w ret rc =
    let write_lbas = byte_to_lba d w.requested in
    let left_lbas = (w.lba_cnt + 2 ^ 64 - write_lbas) % 2 ^ 64 in
    let requested = if leb left_lbas write_lbas then lba_to_byte d left_lbas else w.requested in
    if not (is_ok ret)
    then finishes ret
    else if left_lbas == 0
    then finishes ret
    else if is_async rc
    then goes_on (record {
      cur_lba = (w.cur_lba + write_lbas) % 2 ^ 64;
      lba_cnt = left_lbas;
      requested = requested;
    })
    else finishes wr_err

-- The writes that were handed to the handler, and the status that the command was finished with.
pub record WrittenSame : Type 0 where
  pub writes : List Request
  pub ret : Status

abbrev pub after_write : Request → Option WrittenSame → Option WrittenSame
after_write r none = none
after_write r (some w) = some (record { writes = r ∷ w.writes; ret = w.ret })

abbrev pub chained : Request → (WriteSame → Option WrittenSame) → WriteNext → Option WrittenSame
chained r rest (goes_on w) = after_write r (rest w)
chained r rest (finishes ret) = some (record { writes = r ∷ []; ret = ret })

-- The writes and their callbacks in turn, on fuel. `answers` gives for each write its result and that
-- of the scheduling of the next.
unfoldable pub write_chain : ℕ → Device → (ℕ → Status × Status) → ℕ → WriteSame → Option WrittenSame
unfolding writesame_work handle_writesame_cbk
write_chain zero d answers i w = none
write_chain (suc fuel) d answers i w =
    let rest = λ (v : WriteSame). write_chain fuel d answers (i + 1) v in
    chained (writesame_work d w) rest (handle_writesame_cbk d w (answers i).0 (answers i).1)

-- How `handle_writesame` answers: with a status, by an UNMAP, or by the first write, to which the
-- buffer belongs.
pub data WriteReply : Type 0 where
  answers_with : Status → WriteReply
  unmaps : UnmapReply → WriteReply
  begins : List ℕ → WriteSame → WriteReply

-- `handle_writesame`, given whether the handler has unmap, the answers of the calls for it and of its
-- `unmap_init`, whether the state could be allocated, and what `aio_request_schedule` returns.
unfoldable pub handle_writesame :
    Device → Bool → (ℕ → Answer) → Status → Bool → Status → List ℕ → ℕ → List ℕ → WriteReply
unfolding handle_writesame_check handle_unmap_in_writesame write_length byte_to_lba fill_buffer
handle_writesame d has_unmap answers init state_ok rc cdb iov_cnt block =
    let ret = handle_writesame_check d cdb iov_cnt (length block) in
    let lba_cnt = cdb_get_xfer_length cdb in
    let len = write_length d lba_cnt in
    if not (is_ok ret)
    then answers_with ret
    else if has_unmap && byte cdb 1 / 8 % 2 == 1
    then unmaps (handle_unmap_in_writesame d answers init cdb)
    else if not state_ok
    then answers_with no_resource
    else if is_async rc
    then begins (fill_buffer (byte_to_lba d len) block)
        (record { cur_lba = cdb_get_lba cdb; lba_cnt = lba_cnt; requested = len })
    else answers_with rc
