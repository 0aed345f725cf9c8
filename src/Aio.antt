-- ===== src/Aio.antt =====
-- Tracking of asynchronous commands, tcmur_aio.c: `track_aio_request_start`,
-- `track_aio_request_finish`, `track_aio_wakeup_finish`, `aio_wait_for_empty_queue`, and
-- `aio_command_finish` of tcmur_cmd_handler.c.
-- Each function of the code holds `track_lock` throughout, so that it is one step on the state. The
-- counters are unsigned int and wrap at 2 ^ 32.
pub mod Protocol
pub mod Safety
pub mod Progress
mod Tests
use tcmu_runner.Prelude.{
  ℕ, ◌+◌, ◌-◌, ◌%◌, ◌^◌, Bool, true, false, not, ◌&&◌, Option, none, some, ltb, ◌==◌, if◌then◌else◌,
}

-- `struct tcmu_track_aio`; `is_empty_cond` says whether a waiter has left its condition variable.
pub record Track : Type 0 where
  pub pending_wakeups : ℕ
  pub tracked_aio_ops : ℕ
  pub is_empty_cond : Bool

-- `setup_aio_tracking`
abbrev pub new_track : Track
new_track = record { pending_wakeups = 0; tracked_aio_ops = 0; is_empty_cond = false }

-- `track_aio_request_start`
unfoldable pub request_start : Track → Track
request_start t = record t { tracked_aio_ops = (t.tracked_aio_ops + 1) % 2 ^ 32 }

-- The end of `track_aio_request_finish`: the waiter is signalled once nothing is tracked.
abbrev pub signal_empty : Track → Track × Bool
signal_empty t =
    if t.tracked_aio_ops == 0 && t.is_empty_cond
    then (record t { is_empty_cond = false }, true)
    else (t, false)

-- What `track_aio_request_finish` leaves: the state, `*wake_up`, and whether the waiter is signalled.
pub record Finished : Type 0 where
  pub track : Track
  pub wake_up : Bool
  pub signalled : Bool

abbrev pub finished_with : Bool → Track × Bool → Finished
finished_with wake_up (t, signalled) = record {
  track = t;
  wake_up = wake_up;
  signalled = signalled;
}

-- `track_aio_request_finish`; `wanted` says that `wake_up` is not NULL, and `none` is the failed assertion.
unfoldable pub request_finish : Bool → Track → Option Finished
request_finish wanted t =
    if t.tracked_aio_ops == 0
    then none
    else let t1 = record t { tracked_aio_ops = t.tracked_aio_ops - 1 } in
      let t2 = record t1 { pending_wakeups = (t1.pending_wakeups + 1) % 2 ^ 32 } in
      some (
        if wanted
        then finished_with (t2.pending_wakeups == 1) (signal_empty t2)
        else finished_with false (signal_empty t1))

-- `track_aio_wakeup_finish`: the state and `*wake_up`.
unfoldable pub wakeup_finish : Track → Option (Track × Bool)
wakeup_finish t =
    if ltb 1 t.pending_wakeups
    then some (record t { pending_wakeups = 1 }, true)
    else if t.pending_wakeups == 0
    then none
    else some (record t { pending_wakeups = 0 }, false)

-- `aio_wait_for_empty_queue` up to the wait; the flag says that the caller goes to sleep.
unfoldable pub wait_for_empty : Track → Track × Bool
wait_for_empty t =
    if t.tracked_aio_ops == 0 then (t, false) else (record t { is_empty_cond = true }, true)
