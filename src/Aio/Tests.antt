-- ===== src/Aio/Tests.antt =====
-- The protocol at a short run: a command starts, a thread waits for it, and it is completed.
use tcmu_runner.Prelude.{◌≤◌, ◌⊎◌, true, false, refl, arith}
use tcmu_runner.Aio.{request_start, request_finish, wait_for_empty}
use tcmu_runner.Aio.Protocol.{
  Flight, start, wait, Work, place, finish, Reach, at_rest, arriving, working, Works, none_more,
  one_more,
}
use tcmu_runner.Aio.Progress.{work_left, Quiet, Works-Quiet}

-- A command is in the ring, and a thread sleeps until it is finished.
abbrev waiting : Flight
waiting = record {
  track = record { pending_wakeups = 0; tracked_aio_ops = 1; is_empty_cond = true };
  in_flight = 0;
  placed = 1;
  notifying = 0;
  asking = 0;
  unnotified = 1;
  asleep = true;
  woken = 0;
  forgotten = 0;
}

waiting-Reach : Reach waiting
unfolding request_start wait_for_empty
waiting-Reach =
    working (arriving (arriving at_rest (start (omega arith))) (wait refl)) (place (omega arith))

-- The command is finished, the sleeper is woken, and the thread is about to notify.
abbrev finished : Flight
finished = record {
  track = record { pending_wakeups = 1; tracked_aio_ops = 0; is_empty_cond = false };
  in_flight = 0;
  placed = 0;
  notifying = 1;
  asking = 0;
  unnotified = 1;
  asleep = false;
  woken = 1;
  forgotten = 0;
}

waiting-Works : Works 1 waiting finished
unfolding request_finish
waiting-Works = one_more (finish (omega arith) (omega arith) refl) none_more

Works-Quiet_example : (1 ≤ work_left waiting) × (((h : Flight) × Work finished h) ⊎ Quiet finished)
Works-Quiet_example = Works-Quiet waiting-Reach waiting-Works (omega arith)
