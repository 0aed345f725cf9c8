-- ===== src/Handler/Xcopy.antt =====
-- EXTENDED COPY, tcmur_cmd_handler.c: `handle_xcopy` and the chain of reads and writes that
-- `handle_xcopy_read_cbk` and `handle_xcopy_write_cbk` make. The parameter list is read in the child
-- Parse, with the names of devices of Naa.
pub mod Naa
pub mod Parse
pub mod Copies
pub mod Whole
use tcmu_runner.Prelude.{
  ℕ, zero, suc, ◌+◌, ◌-◌, ◌%◌, ◌^◌, min, List, [], ◌∷◌, Bool, not, Option, none, some, ltb, ◌==◌,
  if◌then◌else◌,
}
use tcmu_runner.Status.{Status, ok, no_resource, invalid_cmd, invalid_param_list_len, is_ok}
use tcmu_runner.Cdb.{byte, cdb_get_xfer_length}
use tcmu_runner.Handler.{Device, lba_to_byte}
use tcmu_runner.Handler.Ranges.{Request}
use tcmu_runner.Handler.Unmap.{is_async}
use tcmu_runner.Handler.Xcopy.Parse.{Params, Parsed, refused, crashed, accepted}

-- What `struct xcopy` holds during the copy, with `requested` of the command.
pub record Xcopy : Type 0 where
  pub src_lba : ℕ
  pub dst_lba : ℕ
  pub lba_cnt : ℕ
  pub copy_lbas : ℕ
  pub requested : ℕ

-- What the calls of one round give: the read, the scheduling of the write, the write, and the
-- scheduling of the next read.
pub record CopyRound : Type 0 where
  pub read : Status
  pub to_write : Status
  pub write : Status
  pub to_read : Status

-- `xcopy_read_work_fn` and `xcopy_write_work_fn`: what is handed to the handlers of the two devices.
unfoldable pub xcopy_read_work : Device → Xcopy → Request
unfolding lba_to_byte
xcopy_read_work src x = record { offset = lba_to_byte src x.src_lba; length = x.requested }

unfoldable pub xcopy_write_work : Device → Xcopy → Request
unfolding lba_to_byte
xcopy_write_work dst x = record { offset = lba_to_byte dst x.dst_lba; length = x.requested }

-- The end of a callback: the copy goes on, or the command is finished.
pub data CopyNext : Type 0 where
  goes_on : Xcopy → CopyNext
  finishes : Status → CopyNext

-- `handle_xcopy_read_cbk`
unfoldable pub handle_xcopy_read_cbk : Xcopy → Status → Status → CopyNext
handle_xcopy_read_cbk x ret rc =
    if not (is_ok ret) then finishes ret else if is_async rc then goes_on x else finishes rc

-- `handle_xcopy_write_cbk`
unfoldable pub handle_xcopy_write_cbk : Device → Xcopy → Status → Status → CopyNext
unfolding lba_to_byte
handle_xcopy_write_cbk src x ret rc =
    let lba_cnt = (x.lba_cnt + 2 ^ 32 - x.copy_lbas) % 2 ^ 32 in
    let copy_lbas = min lba_cnt x.copy_lbas in
    if not (is_ok ret)
    then finishes ret
    else if lba_cnt == 0
    then finishes ret
    else if is_async rc
    then goes_on (record {
      src_lba = (x.src_lba + x.copy_lbas) % 2 ^ 64;
      dst_lba = (x.dst_lba + x.copy_lbas) % 2 ^ 64;
      lba_cnt = lba_cnt;
      copy_lbas = copy_lbas;
      requested = lba_to_byte src copy_lbas;
    })
    else finishes rc

-- The reads and the writes that were handed to the handlers, and the status of the command.
pub record CopiedRanges : Type 0 where
  pub reads : List Request
  pub writes : List Request
  pub ret : Status

abbrev pub after_both : Request → Request → Option CopiedRanges → Option CopiedRanges
after_both r w none = none
after_both r w (some c) = some (record { reads = r ∷ c.reads; writes = w ∷ c.writes; ret = c.ret })

abbrev pub written :
    Request → Request → (Xcopy → Option CopiedRanges) → CopyNext → Option CopiedRanges
written r w rest (goes_on x) = after_both r w (rest x)
written r w rest (finishes ret) = some (record { reads = r ∷ []; writes = w ∷ []; ret = ret })

abbrev pub have_read : Request → (Xcopy → Option CopiedRanges) → CopyNext → Option CopiedRanges
have_read r rest (goes_on x) = rest x
have_read r rest (finishes ret) = some (record { reads = r ∷ []; writes = []; ret = ret })

-- The reads and the writes in turn, on fuel.
unfoldable pub copy_chain : ℕ → Device → Device → (ℕ → CopyRound) → ℕ → Xcopy → Option CopiedRanges
unfolding xcopy_read_work xcopy_write_work handle_xcopy_read_cbk handle_xcopy_write_cbk
copy_chain zero src dst rounds i x = none
copy_chain (suc fuel) src dst rounds i x =
    let rest = λ (y : Xcopy). copy_chain fuel src dst rounds (i + 1) y in
    let r = rounds i in
    have_read (xcopy_read_work src x)
      (λ y.
        written (xcopy_read_work src x) (xcopy_write_work dst y) rest
          (handle_xcopy_write_cbk src y r.write r.to_read))
      (handle_xcopy_read_cbk x r.read r.to_write)

-- How `handle_xcopy` answers: with a status, by a fault, or by the first read.
pub data CopyReply : Type 0 where
  answers_with : Status → CopyReply
  faults : CopyReply
  begins : Device → Device → Xcopy → CopyReply

-- The first round of the copy.
unfoldable pub first_round : Device → Device → Params → Xcopy
unfolding lba_to_byte
first_round src dst p =
    let copy_lbas = min (min src.opt_xcopy_rw_len dst.opt_xcopy_rw_len) p.lba_cnt in
    record {
      src_lba = p.src_lba;
      dst_lba = p.dst_lba;
      lba_cnt = p.lba_cnt;
      copy_lbas = copy_lbas;
      requested = lba_to_byte src copy_lbas;
    }

-- The part of `handle_xcopy` behind the parameter list, given whether the state could be allocated and
-- what `aio_request_schedule` returns.
unfoldable pub begin_xcopy : Parsed → Bool → Status → CopyReply
unfolding first_round
begin_xcopy (refused ret) state_ok rc = answers_with ret
begin_xcopy crashed state_ok rc = faults
begin_xcopy (accepted src dst p) state_ok rc =
    if p.lba_cnt == 0
    then answers_with ok
    else if not state_ok
    then answers_with no_resource
    else if is_async rc
    then begins src dst (first_round src dst p)
    else answers_with rc

-- `handle_xcopy`, given what `xcopy_parse_parameter_list` gives if it is called.
unfoldable pub handle_xcopy : List ℕ → Parsed → Bool → Status → CopyReply
unfolding begin_xcopy
handle_xcopy cdb parsed state_ok rc =
    let data_length = cdb_get_xfer_length cdb in
    if not (byte cdb 1 % 32 == 0)
    then answers_with invalid_cmd
    else if data_length == 0
    then answers_with ok
    else if ltb data_length 16
    then answers_with invalid_param_list_len
    else begin_xcopy parsed state_ok rc
