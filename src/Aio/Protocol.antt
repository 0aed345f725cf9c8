-- ===== src/Aio/Protocol.antt =====
-- The commands in flight as interleaved steps. A command that a thread completes goes through
-- `aio_command_finish`: it is placed in the ring (`tcmur_tcmulib_cmd_complete`), finished
-- (`track_aio_request_finish`), and if the thread is told to, it notifies the kernel of all that the ring
-- holds (`tcmulib_processing_complete`) and asks whether to do so again (`track_aio_wakeup_finish`).
use tcmu_runner.Prelude.{
  ℕ, suc, ◌+◌, ◌-◌, ◌<◌, ◌≡◌, ◌^◌, Bool, true, false, ◌&&◌, some, if◌then◌else◌,
}
use tcmu_runner.Aio.{
  Track, new_track, request_start, Finished, request_finish, wakeup_finish, wait_for_empty,
}

-- The threads by where they stand, and what the ring holds that the kernel was not told of.
pub record Flight : Type 0 where
  pub track : Track
  -- Commands that were started.
  pub in_flight : ℕ
  -- Commands that are in the ring and not finished.
  pub placed : ℕ
  -- Threads that are about to notify.
  pub notifying : ℕ
  -- Threads that have notified and will ask whether to do it again.
  pub asking : ℕ
  -- Completions in the ring since the last notification.
  pub unnotified : ℕ
  -- Whether the thread whose condition `is_empty_cond` points to sleeps until no command is tracked.
  pub asleep : Bool
  -- Threads that were signalled and have not yet set `is_empty_cond` to NULL.
  pub woken : ℕ
  -- Threads that sleep on a condition that `is_empty_cond` no longer points to: nobody will signal them.
  pub forgotten : ℕ

abbrev pub idle : Flight
idle = record {
  track = new_track;
  in_flight = 0;
  placed = 0;
  notifying = 0;
  asking = 0;
  unnotified = 0;
  asleep = false;
  woken = 0;
  forgotten = 0;
}

abbrev pub one_if : Bool → ℕ
one_if b = if b then 1 else 0

-- `is_empty_cond = NULL` behind `pthread_cond_wait`, whose condition soever it points to.
abbrev pub cleared : Flight → Flight
cleared f = record f {
  track = record f.track { is_empty_cond = false };
  asleep = false;
  forgotten = f.forgotten + one_if f.asleep;
}

-- What comes from outside. A command arrives, with room in the counter of commands. Any thread comes to wait
-- for the queue to be empty, which overwrites `is_empty_cond`: a thread that waited before is forgotten. Or
-- `pthread_cond_wait` of a thread that waits, or of a forgotten one, returns without a signal.
pub data Arrive (f : Flight) : Flight → Type 0 where
  start :
      f.track.tracked_aio_ops + 1 < 2 ^ 32
      → Arrive f (record f { track = request_start f.track; in_flight = f.in_flight + 1 })
  wait :
      {t : Track} {sleeps : Bool}
      → wait_for_empty f.track ≡ (t, sleeps)
      → Arrive f (record f {
        track = t;
        asleep = if sleeps then true else f.asleep;
        forgotten = f.forgotten + one_if (f.asleep && sleeps);
      })
  returns_early :
      f.asleep ≡ true
      → Arrive f (record f { track = record f.track { is_empty_cond = false }; asleep = false })
  forgotten_returns :
      0 < f.forgotten → Arrive f (record (cleared f) { forgotten = (cleared f).forgotten - 1 })

-- One step of a thread that completes a command, or of a thread that was signalled. There is room in the counter of wakeups: fewer than
-- 2 ^ 32 - 1 commands finish during one notification.
pub data Work (f : Flight) : Flight → Type 0 where
  place :
      0 < f.in_flight
      → Work f (record f {
        in_flight = f.in_flight - 1;
        placed = f.placed + 1;
        unnotified = f.unnotified + 1;
      })
  finish :
      {r : Finished}
      → 0 < f.placed
      → f.track.pending_wakeups + 1 < 2 ^ 32
      → request_finish true f.track ≡ some r
      → Work f (record f {
        track = r.track;
        placed = f.placed - 1;
        notifying = f.notifying + one_if r.wake_up;
        asleep = if r.signalled then false else f.asleep;
        woken = f.woken + one_if r.signalled;
      })
  -- A command that its caller completes itself (`wake_up` is NULL).
  finish_sync :
      {r : Finished}
      → 0 < f.in_flight
      → request_finish false f.track ≡ some r
      → Work f (record f {
        track = r.track;
        in_flight = f.in_flight - 1;
        asleep = if r.signalled then false else f.asleep;
        woken = f.woken + one_if r.signalled;
      })
  notify :
      0 < f.notifying
      → Work f (record f { notifying = f.notifying - 1; asking = f.asking + 1; unnotified = 0 })
  ask :
      {t : Track} {again : Bool}
      → 0 < f.asking
      → wakeup_finish f.track ≡ some (t, again)
      → Work f
          (record f { track = t; asking = f.asking - 1; notifying = f.notifying + one_if again })
  return_woken : 0 < f.woken → Work f (record (cleared f) { woken = f.woken - 1 })

-- The states that the threads can reach, in any order of their steps.
pub data Reach : Flight → Type 0 where
  at_rest : Reach idle
  arriving : {f g : Flight} → Reach f → Arrive f g → Reach g
  working : {f g : Flight} → Reach f → Work f g → Reach g

-- A number of steps of the threads that complete commands.
pub data Works : ℕ → Flight → Flight → Type 0 where
  none_more : {f : Flight} → Works 0 f f
  one_more : {n : ℕ} {f g h : Flight} → Work f g → Works n g h → Works (suc n) f h
