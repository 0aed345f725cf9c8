-- ===== src/Device/Recovery.antt =====
-- `__tcmu_reopen_dev` and `tcmu_reopen_dev`: they end, and what they leave.
use tcmu_runner.Prelude.{
  ℕ, zero, suc, ◌+◌, ◌≤◌, ◌≡◌, refl, ◌∙◌, Bool, true, false, not, ◌&&◌, ◌⊎◌, inl, inr, Option, some,
  if◌then◌else◌, arith, Bool-cases,
}
use tcmu_runner.Status.{Status, ok, errno, is_ok}
use tcmu_runner.Device.{
  World, Calls, is_locked, is_locking, recovered, force_unlock, not_open, attempted, goes_on,
  cancel_lock_thread, reopen_loop, reopen_waited, lock_settled, before_wait, reopen_locked,
}

module _ {S : Type 0} where
  -- What other threads leave alone while a device is in recovery: the flags for recovery and for an open
  -- device. They do not take back the order to stop, and nobody gets the lock.
  pub record Untouched (w w' : World S) : Type 0 where
    pub recovery : w'.dev.in_recovery ≡ w.dev.in_recovery
    pub open_flag : w'.dev.is_open ≡ w.dev.is_open
    pub stop_order : (w.dev.stopping ≡ false) ⊎ (w'.dev.stopping ≡ true)
    pub no_lock : (is_locked w'.dev.lock_state ≡ false) ⊎ (is_locked w.dev.lock_state ≡ true)

  -- The calls that run during a recovery respect it. While the thread that takes the lock is waited for, it
  -- may still get it.
  pub record Respects (c : Calls S) : Type 0 where
    pub open_dev : (w : World S) → w.dev.in_recovery ≡ true → Untouched w (c.open_dev w).1
    pub close_dev : (w : World S) → w.dev.in_recovery ≡ true → Untouched w (c.close_dev w)
    pub wait : (w : World S) → w.dev.in_recovery ≡ true → Untouched w (c.wait_for_empty_queue w).1
    pub flush : (w : World S) → w.dev.in_recovery ≡ true → Untouched w (c.flush_ring w)
    pub others : (w : World S) → w.dev.in_recovery ≡ true → (c.others w).dev.in_recovery ≡ true
    pub lock_thread :
        (w : World S) → w.dev.in_recovery ≡ true → (c.wait_lock_thread w).1.dev.in_recovery ≡ true

  -- The device is being recovered, is marked not open, and does not hold the lock.
  record Closed (w : World S) : Type 0 where
    recovery : w.dev.in_recovery ≡ true
    shut : w.dev.is_open ≡ false
    no_lock : is_locked w.dev.lock_state ≡ false

  Closed-Untouched : {w w' : World S} → Closed w → Untouched w w' → Closed w'
  Closed-Untouched h u = ground (arith, u.no_lock)

  -- What the loop has reached with the result of the last attempt.
  record Tried (r : Status) (w : World S) : Type 0 where
    recovery : w.dev.in_recovery ≡ true
    flag : w.dev.is_open ≡ is_ok r
    lost : (is_ok r ≡ false) ⊎ (w.dev.lock_lost ≡ false)
    no_lock : is_locked w.dev.lock_state ≡ false

  attempted-Tried : (r : Status) (w : World S) → Closed w → Tried r (attempted r w)
  attempted-Tried r w h = ground arith

  Tried-Closed : {r : Status} {w : World S} → Tried r w → is_ok r ≡ false → Closed w
  Tried-Closed t e = ground arith

  force-Closed : (w : World S) → w.dev.in_recovery ≡ true → Closed (not_open (force_unlock w))
  force-Closed w h = ground arith

  Closed-Tried : {w : World S} → Closed w → Tried (errno 5) w
  Closed-Tried h = ground arith

  -- How a recovery ends.
  pub data Reopened (w : World S) (r : Status) (w' : World S) : Type 0 where
    stops : w.dev.stopping ≡ true → is_ok r ≡ true → w'.dev.in_recovery ≡ false → Reopened w r w'
    opens :
        is_ok r ≡ true
        → w'.dev.in_recovery ≡ false
        → w'.dev.is_open ≡ true
        → w'.dev.lock_lost ≡ false
        → is_locked w'.dev.lock_state ≡ false
        → Reopened w r w'
    fails :
        is_ok r ≡ false
        → w'.dev.in_recovery ≡ false
        → w'.dev.is_open ≡ false
        → is_locked w'.dev.lock_state ≡ false
        → Reopened w r w'

  Tried-Reopened :
      (w : World S) {r : Status} {w' : World S} → Tried r w' → Reopened w r (recovered w')
  Tried-Reopened w {r} {w'} t = elim (Bool-cases (is_ok r)) [
    | inl o ↦ opens o refl (t.flag ∙ o) (ground (arith, t.lost)) t.no_lock
    | inr o ↦ fails o refl (t.flag ∙ o) t.no_lock
  ]

  goes_on-true :
      (n attempt : ℕ) (r : Status) (w : World S)
      → goes_on (some n) attempt r w ≡ true
      → (is_ok r ≡ false) × (attempt ≤ n)
  goes_on-true n attempt r w e = (ground arith, ground arith)

  module _ (c : Calls S) where
    pub loop-stopping :
        (fuel : ℕ) (retries : Option ℕ) (attempt : ℕ) (r : Status) (w : World S)
        → goes_on retries attempt r w ≡ false
        → reopen_loop c (suc fuel) retries attempt r w ≡ some (r, w)
    unfolding reopen_loop
    loop-stopping fuel retries attempt r w q = rw (q, reopen_loop) refl

    pub loop-going :
        (fuel : ℕ) (retries : Option ℕ) (attempt : ℕ) (r : Status) (w : World S)
        → goes_on retries attempt r w ≡ true
        → reopen_loop c (suc fuel) retries attempt r w
          ≡ reopen_loop c fuel retries
              (attempt + 1)
              (c.open_dev w).0
              (attempted (c.open_dev w).0 (c.open_dev w).1)
    unfolding reopen_loop
    loop-going fuel retries attempt r w q = rw (q, reopen_loop) refl

    -- Each attempt uses one unit of fuel, and after the last one the loop still has one to end. What holds
    -- before and of each attempt after a failure holds at the end.
    pub loop-Ends :
        (P : Status → World S → Type 0)
        → ((r : Status) (w : World S)
            → P r w
            → is_ok r ≡ false
            → P (c.open_dev w).0 (attempted (c.open_dev w).0 (c.open_dev w).1))
        → (fuel n attempt : ℕ) (r : Status) (w : World S) → attempt + fuel ≡ n + 2
        → attempt ≤ n + 1
        → P r w
        → (r' : Status) × (w' : World S) × (reopen_loop c fuel (some n) attempt r w ≡ some (r', w'))
          × P r' w'
    unfolding reopen_loop
    loop-Ends P step zero n attempt r w e h t = absurd (omega arith)
    loop-Ends P step (suc fuel) n attempt r w e h t =
        elim (Bool-cases (goes_on (some n) attempt r w)) [
          | inr stop ↦ (r, w, loop-stopping fuel (some n) attempt r w stop, t)
          | inl go ↦
              let (failed, few) = goes_on-true n attempt r w go in
              let (r', w', q, t') =
                loop-Ends P step fuel n (attempt + 1) (c.open_dev w).0
                  (attempted (c.open_dev w).0 (c.open_dev w).1) (omega arith) (omega (arith, few))
                  (step r w t failed) in
              (r', w', loop-going fuel (some n) attempt r w go ∙ q, t')
        ]

    pub reopen-going :
        (fuel : ℕ) (retries : Option ℕ) (w : World S)
        → w.dev.stopping ≡ false
        → reopen_locked c fuel retries w
          ≡ reopen_waited c fuel retries
              (lock_settled c w).dev.is_open
              (c.wait_for_empty_queue (before_wait c (lock_settled c w))).0
              (c.wait_for_empty_queue (before_wait c (lock_settled c w))).1
    unfolding reopen_locked
    reopen-going fuel retries w q = simp q

    pub reopen-stopping :
        (fuel : ℕ) (retries : Option ℕ) (w : World S)
        → w.dev.stopping ≡ true
        → reopen_locked c fuel retries w ≡ some (ok, recovered w)
    unfolding reopen_locked
    reopen-stopping fuel retries w q = simp q

  module _ (c : Calls S) (respects : Respects c) where
    attempt-Tried :
        (r : Status) (w : World S)
        → Tried r w
        → is_ok r ≡ false
        → Tried (c.open_dev w).0 (attempted (c.open_dev w).0 (c.open_dev w).1)
    attempt-Tried r w t failed =
        attempted-Tried (c.open_dev w).0 (c.open_dev w).1
          (Closed-Untouched (Tried-Closed t failed) (respects.open_dev w t.recovery))

    cancel-recovery :
        (w : World S) → w.dev.in_recovery ≡ true → (cancel_lock_thread c w).1.dev.in_recovery ≡ true
    unfolding cancel_lock_thread
    cancel-recovery w h = elim (Bool-cases (is_locking w.dev.lock_state)) [
      | inl q ↦ rw q (respects.lock_thread w h)
      | inr q ↦ rw q h
    ]

    settled-recovery :
        (w : World S) → w.dev.in_recovery ≡ true → (lock_settled c w).dev.in_recovery ≡ true
    unfolding lock_settled
    settled-recovery w h = elim (Bool-cases (is_locking w.dev.lock_state && not c.is_lock_thread)) [
      | inl q ↦ rw q (cancel-recovery (c.others w) (respects.others w h))
      | inr q ↦ rw q (respects.others w h)
    ]

    before_wait-Closed : (w : World S) → w.dev.in_recovery ≡ true → Closed (before_wait c w)
    unfolding before_wait
    before_wait-Closed w h = elim (Bool-cases c.is_cmdproc) [
      | inl q ↦ rw q (force-Closed w h)
      | inr q ↦ rw q (
          Closed-Untouched (force-Closed w h)
            (respects.flush (not_open (force_unlock w)) (force-Closed w h).recovery))
    ]

    close_dev-Closed : (b : Bool) (w : World S) → Closed w → Closed (if b then c.close_dev w else w)
    close_dev-Closed true w h = Closed-Untouched h (respects.close_dev w h.recovery)
    close_dev-Closed false w h = h

    waited-Outcome :
        (n : ℕ) (needs_close : Bool) (w : World S) (e : Status) (w1 : World S)
        → Closed w1
        → (r : Status) × (w' : World S) × (reopen_waited c (n + 2) (some n) needs_close e w1
            ≡ some (r, w'))
          × Reopened w r w'
    unfolding reopen_waited
    waited-Outcome n needs_close w e w1 h = elim (Bool-cases (is_ok e)) [
      | inr q ↦ (e, recovered w1, rw q refl, fails q refl h.shut h.no_lock)
      | inl q ↦
          let (r, w', found, t) =
            loop-Ends c Tried attempt-Tried (n + 2) n 0 (errno 5)
              (if needs_close then c.close_dev w1 else w1) (omega arith) (omega arith)
              (Closed-Tried (close_dev-Closed needs_close w1 h)) in
          (r, recovered w', rw (q, found, reopen_waited) refl, Tried-Reopened w t)
    ]

    after-Closed :
        (w : World S)
        → w.dev.in_recovery ≡ true
        → Closed (c.wait_for_empty_queue (before_wait c (lock_settled c w))).1
    after-Closed w h =
        let b = before_wait-Closed (lock_settled c w) (settled-recovery w h) in
        Closed-Untouched b (respects.wait (before_wait c (lock_settled c w)) b.recovery)

    -- With the recovery flag set, and calls that respect it: with `n` retries and two units of fuel more
    -- `__tcmu_reopen_dev` returns, and the flag is cleared. Either the device was to stop, and the result is
    -- 0; or the result is 0, the device is open and the lock not lost; or it is an error and the device's flag
    -- that it is open is clear, which says nothing of a call of the handler's `close`: that is not made if
    -- the wait for the empty queue fails. In the last two cases the lock is not held.
    pub reopen_locked-Outcome :
        (n : ℕ) (w : World S)
        → w.dev.in_recovery ≡ true
        → (r : Status) × (w' : World S) × (reopen_locked c (n + 2) (some n) w ≡ some (r, w'))
          × Reopened w r w'
    reopen_locked-Outcome n w h = elim (Bool-cases w.dev.stopping) [
      | inl q ↦ (ok, recovered w, reopen-stopping c (n + 2) (some n) w q, stops q refl refl)
      | inr q ↦
          let (r, w', e, o) =
            waited-Outcome n (lock_settled c w).dev.is_open w
              (c.wait_for_empty_queue (before_wait c (lock_settled c w))).0
              (c.wait_for_empty_queue (before_wait c (lock_settled c w))).1 (after-Closed w h) in
          (r, w', reopen-going c (n + 2) (some n) w q ∙ e, o)
    ]
