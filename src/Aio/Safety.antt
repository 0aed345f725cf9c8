-- ===== src/Aio/Safety.antt =====
-- What holds at every moment, whatever the order of the threads' steps.
use tcmu_runner.Prelude.{◌+◌, ◌≤◌, ◌<◌, ◌≡◌, ◌≢◌, ◌^◌, ◌⊎◌, true, false, not, none, ◌==◌, arith}
use tcmu_runner.Aio.{request_start, request_finish, wakeup_finish, wait_for_empty}
use tcmu_runner.Aio.Protocol.{
  Flight, one_if, Arrive, start, wait, returns_early, forgotten_returns, Work, place, finish,
  finish_sync, notify, ask, return_woken, Reach, at_rest, arriving, working,
}

pub record Inv (f : Flight) : Type 0 where
  -- One thread notifies or asks exactly while a wakeup is pending.
  pub notifier : f.notifying + f.asking ≡ one_if (not (f.track.pending_wakeups == 0))
  pub tracked : f.track.tracked_aio_ops ≡ f.in_flight + f.placed
  pub room : f.track.tracked_aio_ops < 2 ^ 32
  pub sleeper : f.track.is_empty_cond ≡ f.asleep
  pub busy : (f.asleep ≡ false) ⊎ (0 < f.track.tracked_aio_ops)
  -- What the kernel was not told of, some thread will tell it of.
  pub told : (f.unnotified ≡ 0) ⊎ (0 < f.placed) ⊎ (0 < f.notifying) ⊎ (1 < f.track.pending_wakeups)

Arrive-Inv : {f g : Flight} → Arrive f g → Inv f → Inv g
unfolding request_start wait_for_empty
Arrive-Inv (start room) v = ground arith
Arrive-Inv (wait e) v = ground arith
Arrive-Inv (returns_early e) v = ground arith
Arrive-Inv (forgotten_returns h) v = ground arith

pub Work-Inv : {f g : Flight} → Work f g → Inv f → Inv g
unfolding request_finish wakeup_finish
Work-Inv (place h) v = ground arith
Work-Inv (finish h room e) v = ground arith
Work-Inv (finish_sync h e) v = ground arith
Work-Inv (notify h) v = ground arith
Work-Inv (ask h e) v = ground arith
Work-Inv (return_woken h) v = ground arith

pub Reach-Inv : {f : Flight} → Reach f → Inv f
Reach-Inv at_rest = ground arith
Reach-Inv (arriving r s) = Arrive-Inv s (Reach-Inv r)
Reach-Inv (working r s) = Work-Inv s (Reach-Inv r)

abbrev pub Safe : Flight → Type 0
Safe f =
    (f.notifying + f.asking ≤ 1)
    × ((f.placed ≡ 0) ⊎ (request_finish true f.track ≢ none))
    × ((f.in_flight ≡ 0) ⊎ (request_finish false f.track ≢ none))
    × ((f.asking ≡ 0) ⊎ (wakeup_finish f.track ≢ none))
    × ((f.asleep ≡ false) ⊎ (0 < f.track.tracked_aio_ops))
