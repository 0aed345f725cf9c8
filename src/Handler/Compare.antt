-- ===== src/Handler/Compare.antt =====
-- COMPARE AND WRITE and WRITE AND VERIFY, tcmur_cmd_handler.c: `handle_caw` and `handle_write_verify` with
-- the callbacks of their reads and writes.
pub mod Guarded
use tcmu_runner.Prelude.{
  ℕ, ◌+◌, ◌-◌, ◌*◌, ◌/◌, ◌%◌, ◌^◌, List, [], ◌∷◌, ◌++◌, Bool, true, false, not, Option, none, some,
  ltb, ◌==◌, if◌then◌else◌,
}
use tcmu_runner.Status.{Status, async_handled, ok, no_resource, invalid_cdb, miscompare, is_ok}
use tcmu_runner.Cdb.{byte, cdb_get_lba, cdb_get_xfer_length}
use tcmu_runner.Iovec.{Iovec, iovec_length, iovec_compare, cmd_seek}
use tcmu_runner.Handler.{Device, check_lbas, check_iovec_length, check_lba_and_length}
use tcmu_runner.Handler.Unmap.{is_async}

-- `handle_caw_check`; MAX_CAW_LENGTH is 1.
unfoldable pub handle_caw_check : Device → List ℕ → List Iovec → Status
unfolding check_iovec_length check_lbas
handle_caw_check d cdb iovec =
    let sectors = byte cdb 13 in
    let ret = check_iovec_length d (iovec_length iovec) (sectors * 2) in
    if ltb 1 sectors
    then invalid_cdb
    else if not (is_ok ret)
    then ret
    else check_lbas d (cdb_get_lba cdb) sectors

-- The calls that change what others see, in the order in which the code makes them: `caw_lock` is taken and
-- released, `tcmur_cmd_state_free`, a request of a read of some bytes or of a write of a vector that
-- `aio_request_schedule` takes, `tcmu_sense_set_info` and `aio_command_finish`.
pub data Call : Type 0 where
  locks unlocks frees : Call
  reads : ℕ → Call
  writes : List Iovec → Call
  sets_info : ℕ → Call
  completes : Status → Call

-- The calls of a handler or a callback, and whether a request is under way that will call `done`.
pub record Stage : Type 0 where
  pub calls : List Call
  pub pending : Bool

abbrev pub ended : List Call → Stage
ended cs = record { calls = cs; pending = false }

abbrev pub goes_on_with : List Call → Stage
goes_on_with cs = record { calls = cs; pending = true }

-- `uint32_t cmp_offset` of a `size_t` that is -1 for equal data.
unfoldable pub cmp_offset_of : Option ℕ → ℕ
cmp_offset_of none = 2 ^ 32 - 1
cmp_offset_of (some k) = k % 2 ^ 32

-- `finish_err:` of `handle_caw_read_cbk`, and the calls of `handle_caw_write_cbk`.
unfoldable pub finish_err : Status → List Call
finish_err ret = unlocks ∷ frees ∷ completes ret ∷ []

unfoldable pub handle_caw_write_cbk : Status → List Call
unfolding finish_err
handle_caw_write_cbk ret = finish_err ret

-- The part of `handle_caw_read_cbk` behind the comparison, given the vector behind the compared half and what
-- `aio_request_schedule` gives. `none` is a call that leaves its vector.
unfoldable pub caw_compared : ℕ → Option (List Iovec) → Status → Option Stage
unfolding finish_err
caw_compared cmp_offset sought rc =
    if not (cmp_offset == 2 ^ 32 - 1)
    then some (ended (sets_info cmp_offset ∷ finish_err miscompare))
    else elim sought [
      | none ↦ none
      | some vs ↦
          some (if is_async rc then goes_on_with (writes vs ∷ []) else ended (finish_err rc))
    ]

-- The same from the comparison on.
unfoldable pub caw_offset : Option (Option ℕ) → Option (List Iovec) → Status → Option Stage
unfolding caw_compared cmp_offset_of
caw_offset none sought rc = none
caw_offset (some o) sought rc = caw_compared (cmp_offset_of o) sought rc

-- `handle_caw_read_cbk`; `mem` is what the read left at `iov_base_copy`.
unfoldable pub handle_caw_read_cbk : List ℕ → List Iovec → ℕ → Status → Status → Option Stage
unfolding caw_offset finish_err
handle_caw_read_cbk mem iovec requested ret rc =
    if not (is_ok ret)
    then some (ended (finish_err ret))
    else caw_offset (iovec_compare mem iovec requested) (cmd_seek iovec requested) rc

-- `handle_caw` and what it returns, given whether the state could be allocated and what
-- `aio_request_schedule` gives.
unfoldable pub handle_caw : Device → List ℕ → List Iovec → Bool → Status → Stage × Status
unfolding handle_caw_check
handle_caw d cdb iovec state_ok rc =
    let half = iovec_length iovec / 2 in
    let ret = handle_caw_check d cdb iovec in
    if byte cdb 13 == 0
    then (ended [], ok)
    else if not (is_ok ret)
    then (ended [], ret)
    else if not state_ok
    then (ended [], no_resource)
    else if is_async rc
    then (goes_on_with (locks ∷ reads half ∷ []), async_handled)
    else (ended (locks ∷ unlocks ∷ frees ∷ []), rc)

-- A stage and, if it left a request under way, its callback.
unfoldable pub then_cbk : Stage → Option (List Call) → Option (List Call)
then_cbk s cbk =
    if s.pending then elim cbk [ none ↦ none | some cs ↦ some (s.calls ++ cs) ] else some s.calls

-- The callback of the read, and that of the write if there is one.
unfoldable pub then_write : Option Stage → Status → Option (List Call)
unfolding then_cbk handle_caw_write_cbk
then_write none wr = none
then_write (some s) wr = then_cbk s (some (handle_caw_write_cbk wr))

-- The callbacks of a COMPARE AND WRITE: the read gives `mem` and `rd`, the scheduling of the write `rc`,
-- and the write `wr`.
unfoldable pub caw_callbacks :
    List ℕ → List Iovec → ℕ → Status → Status → Status → Option (List Call)
unfolding handle_caw_read_cbk then_write
caw_callbacks mem iovec requested rd rc wr =
    then_write (handle_caw_read_cbk mem iovec requested rd rc) wr

-- The calls of a COMPARE AND WRITE from its handler on.
unfoldable pub caw_run :
    Device
    → List ℕ
    → List Iovec
    → Bool
    → Status
    → List ℕ
    → Status
    → Status
    → Status
    → Option (List Call)
unfolding handle_caw caw_callbacks then_cbk
caw_run d cdb iovec state_ok rc mem rd rc_write wr =
    then_cbk (handle_caw d cdb iovec state_ok rc).0
      (caw_callbacks mem iovec (iovec_length iovec / 2) rd rc_write wr)

-- `handle_write_verify_read_cbk` behind the comparison.
unfoldable pub verified : ℕ → List Call
verified cmp_offset =
    if not (cmp_offset == 2 ^ 32 - 1)
    then sets_info cmp_offset ∷ frees ∷ completes miscompare ∷ []
    else frees ∷ completes ok ∷ []

-- `handle_write_verify_read_cbk`; `w_iovec` is the copy of the command's vector.
unfoldable pub handle_write_verify_read_cbk : List ℕ → List Iovec → ℕ → Status → Option (List Call)
unfolding verified cmp_offset_of
handle_write_verify_read_cbk mem w_iovec requested ret =
    if not (is_ok ret)
    then some (frees ∷ completes ret ∷ [])
    else elim (iovec_compare mem w_iovec requested) [
      | none ↦ none
      | some o ↦ some (verified (cmp_offset_of o))
    ]

-- `handle_write_verify_write_cbk`; the read that is submitted is of `requested` bytes.
unfoldable pub handle_write_verify_write_cbk : ℕ → Status → Status → Stage
handle_write_verify_write_cbk requested ret rc =
    if not (is_ok ret)
    then ended (frees ∷ completes ret ∷ [])
    else if is_async rc
    then goes_on_with (reads requested ∷ [])
    else ended (frees ∷ completes rc ∷ [])

-- `handle_write_verify` and what it returns; the write is of the command's own vector.
unfoldable pub handle_write_verify : Device → List ℕ → List Iovec → Bool → Status → Stage × Status
unfolding check_lba_and_length
handle_write_verify d cdb iovec state_ok rc =
    let ret = check_lba_and_length d cdb (iovec_length iovec) (cdb_get_xfer_length cdb) in
    if not (is_ok ret)
    then (ended [], ret)
    else if not state_ok
    then (ended [], no_resource)
    else if is_async rc
    then (goes_on_with (writes iovec ∷ []), async_handled)
    else (ended (frees ∷ []), rc)
