-- ===== src/Device/Tests.antt =====
-- Runs on a backend that can be opened after a number of attempts, which the rest of the world counts.
use tcmu_runner.Prelude.{ℕ, zero, suc, ◌≡◌, refl, true, false, none, some, arith}
use tcmu_runner.Status.{Status, ok, errno, no_lock_holders}
use tcmu_runner.Device.{explicit, locked, World, Calls, reopen_locked, acquire_dev_lock}
use tcmu_runner.Device.Recovery.{Untouched, Respects, Reopened, reopen_locked-Outcome}
use tcmu_runner.Device.Locking.{Acquired, acquire_dev_lock-Acquired}

abbrev open_when_zero : World ℕ → Status × World ℕ
open_when_zero w = elim w.rest [ zero ↦ (ok, w) | suc n ↦ (errno 5, record w { rest = n }) ]

abbrev backend : Calls ℕ
backend = record {
  open_dev = open_when_zero;
  close_dev = λ w. w;
  lock = λ _ w. (ok, w);
  unlock = λ w. (ok, w);
  get_lock_tag = λ w. (no_lock_holders, 0, w);
  get_lock_state = none;
  wait_for_empty_queue = λ w. (ok, w);
  flush_ring = λ w. w;
  wait_lock_thread = λ w. (ok, w);
  block_dev = λ w. w;
  unblock_dev = λ n. n;
  others = λ w. w;
  add_to_recovery = λ n. (true, n);
  is_cmdproc = false;
  is_lock_thread = true;
}

abbrev lost : World ℕ
lost = record {
  dev = record {
    in_recovery = true;
    is_open = true;
    stopping = false;
    failover_type = explicit;
    lock_lost = true;
    lock_state = locked;
  };
  rest = 2;
}

same : (w : World ℕ) → Untouched w w
same w = ground arith

open-Untouched : (w : World ℕ) → Untouched w (open_when_zero w).1
open-Untouched w = ground arith

backend-Respects : Respects backend
backend-Respects = record {
  open_dev = λ w _. open-Untouched w;
  close_dev = λ w _. same w;
  wait = λ w _. same w;
  flush = λ w _. same w;
  others = λ _ h. h;
  lock_thread = λ _ h. h;
}

-- The third attempt opens the device.
reopen_locked-Outcome_example :
    (r : Status) × (w' : World ℕ) × (reopen_locked backend 5 (some 3) lost ≡ some (r, w'))
    × Reopened lost r w'
reopen_locked-Outcome_example = reopen_locked-Outcome backend backend-Respects 3 lost refl

-- The lock was lost, and the device cannot be reopened during its recovery.
acquire_dev_lock-Acquired_example :
    (r : Status) × (w' : World ℕ) × (acquire_dev_lock backend 7 lost ≡ some (r, w')) × Acquired r w'
acquire_dev_lock-Acquired_example = acquire_dev_lock-Acquired backend 7 lost
