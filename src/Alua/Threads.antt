-- ===== src/Alua/Threads.antt =====
-- Implicit transitions: one thread at most takes the lock at a time.
use tcmu_runner.Prelude.{ℕ, suc, ◌≡◌, true, false, ◌⊎◌, if◌then◌else◌, arith}
use tcmu_runner.Status.{Status}
use tcmu_runner.Device.{
  LockState, unlocked, World, is_locking, force_unlock, not_open, lock_result, notify_lock_lost,
  checked_state,
}
use tcmu_runner.Alua.{Alua, implicit_transition}

-- `threads` counts, in what is not of the device, the threads of `alua_lock_thread_fn`: the calls of
-- `pthread_create` that succeeded, less the threads that ended.
module _ {S : Type 0} (a : Alua S) (threads : S → ℕ) where
  -- `pthread_create` adds a thread exactly when it succeeds.
  abbrev pub Creates : Type 0
  Creates =
      (s : S) → threads (a.create s).1 ≡ (if (a.create s).0 then suc (threads s) else threads s)

  -- What may change the lock state of a device with implicit failover, each with `state_lock` held: a
  -- command, the end of a thread with some result, the loss of the lock, a step of a recovery, and a check
  -- of the lock. What leaves the lock state and the threads alone is `elsewhere`. Explicit transitions and
  -- the removal of the device have no part.
  pub data Move (w : World S) : World S → Type 0 where
    command : Move w (implicit_transition a w).1
    finish :
        (r : Status) (rest : S)
        → threads w.rest ≡ suc (threads rest)
        → Move w (record (lock_result r w) { rest = rest })
    lose : Move w (notify_lock_lost a.device w)
    recover : Move w (not_open (force_unlock w))
    check : (state : LockState) → Move w (checked_state a.device state w)
    elsewhere :
        {w' : World S}
        → w'.dev.lock_state ≡ w.dev.lock_state
        → threads w'.rest ≡ threads w.rest
        → Move w w'

  pub data Reach : World S → Type 0 where
    start : {w : World S} → w.dev.lock_state ≡ unlocked → threads w.rest ≡ 0 → Reach w
    step : {w w' : World S} → Reach w → Move w w' → Reach w'

  abbrev pub OneThread : World S → Type 0
  OneThread w =
      (is_locking w.dev.lock_state ≡ true) × (threads w.rest ≡ 1)
      ⊎ (is_locking w.dev.lock_state ≡ false) × (threads w.rest ≡ 0)

  module _ (creates : Creates) where
    Move-OneThread : {w w' : World S} → Move w w' → OneThread w → OneThread w'
    unfolding implicit_transition notify_lock_lost
    Move-OneThread {w} command h = ground (arith, creates w.rest)
    Move-OneThread (finish r rest e) h = ground arith
    Move-OneThread lose h = ground arith
    Move-OneThread recover h = ground arith
    Move-OneThread (check state) h = ground arith
    Move-OneThread (elsewhere e t) h = ground arith

    -- If `pthread_create` adds a thread exactly when it succeeds: in every state that the moves reach from a
    -- device that is not locked and has no thread that takes the lock, there is one such thread while the
    -- lock state is LOCKING, and none otherwise.
    pub Reach-OneThread : {w : World S} → Reach w → OneThread w
    Reach-OneThread (start e t) = ground arith
    Reach-OneThread (step r m) = Move-OneThread m (Reach-OneThread r)
