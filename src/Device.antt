-- ===== src/Device.antt =====
-- The state of a device that the runner keeps, tcmur_device.c: recovery of the connection and the lock.
-- The code holds `state_lock` while it reads or changes the flags and the lock state. What runs while it
-- does not (a call of the handler, a wait, other threads) is a parameter that may change the whole state.
pub mod Recovery
pub mod Endings
pub mod Locking
mod Tests
use tcmu_runner.Prelude.{
  ℕ, zero, suc, ◌+◌, Bool, true, false, not, ◌&&◌, ◌||◌, Option, none, some, leb, if◌then◌else◌,
}
use tcmu_runner.Status.{
  Status, ok, busy, fenced, hw_err, errno, is_ok, is_fenced, is_timeout, is_no_lock_holders,
}

-- `TCMUR_DEV_LOCK_*`
pub data LockState : Type 0 where
  unlocked locked locking unknown : LockState

-- `TCMUR_DEV_FAILOVER_*`
pub data Failover : Type 0 where
  all_active implicit explicit : Failover

-- The part of `struct tcmur_device` that these functions keep: the flags `TCMUR_DEV_FLAG_IN_RECOVERY`,
-- `TCMUR_DEV_FLAG_IS_OPEN`, `TCMUR_DEV_FLAG_STOPPING`, and the lock.
pub record Dev : Type 0 where
  pub in_recovery : Bool
  pub is_open : Bool
  pub stopping : Bool
  pub failover_type : Failover
  pub lock_lost : Bool
  pub lock_state : LockState

-- The device and all else (the backend, the kernel, the queues).
pub record World (S : Type 0) : Type 0 where
  pub dev : Dev
  pub rest : S

abbrev pub is_locked : LockState → Bool
is_locked s = elim s [ locked ↦ true | _ ↦ false ]

abbrev pub is_locking : LockState → Bool
is_locking s = elim s [ locking ↦ true | _ ↦ false ]

-- What the code calls with `state_lock` free. `open_dev` is `rhandler->open` with the second of sleep
-- that follows if it fails; `others` is what other threads do where the code only gives the lock away and
-- takes it again. `is_cmdproc` and `is_lock_thread` say which thread runs. With the lock held
-- `add_to_recovery` (`tcmu_add_dev_to_recovery_list`, true for a result of 0) and `unblock_dev` are called,
-- which leave the device's own state alone.
pub record Calls (S : Type 0) : Type 0 where
  pub open_dev : World S → Status × World S
  pub close_dev : World S → World S
  pub lock : ℕ → World S → Status × World S
  pub unlock : World S → Status × World S
  pub get_lock_tag : World S → Status × ℕ × World S
  pub get_lock_state : Option (World S → LockState × World S)
  pub wait_for_empty_queue : World S → Status × World S
  pub flush_ring : World S → World S
  pub wait_lock_thread : World S → Status × World S
  pub block_dev : World S → World S
  pub unblock_dev : S → S
  pub others : World S → World S
  pub add_to_recovery : S → Bool × S
  pub is_cmdproc : Bool
  pub is_lock_thread : Bool

module _ {S : Type 0} where
  abbrev pub set_dev : World S → Dev → World S
  set_dev w d = record w { dev = d }

  -- `tcmu_dev_in_recovery`
  abbrev pub dev_in_recovery : World S → Bool
  dev_in_recovery w = w.dev.in_recovery

  -- The end of `__tcmu_reopen_dev`.
  abbrev pub recovered : World S → World S
  recovered w = set_dev w (record w.dev { in_recovery = false })

  -- Unless the lock is being taken, it has to be taken again.
  abbrev pub force_unlock : World S → World S
  force_unlock w =
      if is_locking w.dev.lock_state then w else set_dev w (record w.dev { lock_state = unlocked })

  abbrev pub not_open : World S → World S
  not_open w = set_dev w (record w.dev { is_open = false })

  -- After an attempt to open the device.
  abbrev pub attempted : Status → World S → World S
  attempted ret w =
      if is_ok ret then set_dev w (record w.dev { is_open = true; lock_lost = false }) else w

  -- Whether there is another attempt; `none` is a negative number of retries, which sets no bound.
  abbrev pub goes_on : Option ℕ → ℕ → Status → World S → Bool
  goes_on retries attempt ret w =
      not (is_ok ret) && not w.dev.stopping && elim retries [ none ↦ true | some n ↦ leb attempt n ]

  -- The state after an attempt to take the lock.
  abbrev pub lock_result : Status → World S → World S
  lock_result r w = set_dev w (record w.dev { lock_state = if is_ok r then locked else unlocked })

  module _ (c : Calls S) where
    -- `tcmu_cancel_lock_thread`
    unfoldable pub cancel_lock_thread : World S → Status × World S
    cancel_lock_thread w = if is_locking w.dev.lock_state then c.wait_lock_thread w else (ok, w)

    -- The loop of `__tcmu_reopen_dev`, on fuel.
    unfoldable pub reopen_loop : ℕ → Option ℕ → ℕ → Status → World S → Option (Status × World S)
    reopen_loop zero retries attempt ret w = none
    reopen_loop (suc fuel) retries attempt ret w = elim (goes_on retries attempt ret w) [
      | false ↦ some (ret, w)
      | true ↦
          let (r, w') = c.open_dev w in reopen_loop fuel retries (attempt + 1) r (attempted r w')
    ]

    -- The first part of `__tcmu_reopen_dev`: a thread that takes the lock is waited for.
    unfoldable pub lock_settled : World S → World S
    lock_settled w =
        if is_locking w.dev.lock_state && not c.is_lock_thread
        then (cancel_lock_thread (c.others w)).1
        else c.others w

    -- From there up to the wait for outstanding commands.
    unfoldable pub before_wait : World S → World S
    before_wait w =
        let w' = not_open (force_unlock w) in if c.is_cmdproc then w' else c.flush_ring w'

    -- The rest, after the wait and its result.
    unfoldable pub reopen_waited :
        ℕ → Option ℕ → Bool → Status → World S → Option (Status × World S)
    reopen_waited fuel retries needs_close e w =
        if not (is_ok e)
        then some (e, recovered w)
        else elim (reopen_loop fuel retries 0 (errno 5)
            (if needs_close then c.close_dev w else w)) [
              | none ↦ none
              | some (r, w') ↦ some (r, recovered w')
            ]

    -- `__tcmu_reopen_dev`; `none` says that the fuel of the loop ran out.
    unfoldable pub reopen_locked : ℕ → Option ℕ → World S → Option (Status × World S)
    reopen_locked fuel retries w =
        if w.dev.stopping
        then some (ok, recovered w)
        else let w1 = lock_settled w in
          let (e, w2) = c.wait_for_empty_queue (before_wait w1) in
          reopen_waited fuel retries w1.dev.is_open e w2

    -- `tcmu_reopen_dev`; -EBUSY is `errno 16`.
    unfoldable pub reopen_dev : ℕ → Option ℕ → World S → Option (Status × World S)
    reopen_dev fuel retries w =
        if w.dev.in_recovery
        then some (errno 16, w)
        else reopen_locked fuel retries (c.others (set_dev w (record w.dev { in_recovery = true })))

    -- `tcmu_cancel_recovery`, on fuel: each round waits a second.
    unfoldable pub cancel_recovery : ℕ → World S → Option (World S)
    cancel_recovery zero w = none
    cancel_recovery (suc fuel) w = elim w.dev.in_recovery [
      | false ↦ some w
      | true ↦ cancel_recovery fuel (c.others w)
    ]

    -- `tcmu_notify_conn_lost`
    unfoldable pub notify_conn_lost : World S → World S
    notify_conn_lost w =
        if w.dev.stopping || w.dev.in_recovery
        then w
        else let (added, rest) = c.add_to_recovery w.rest in
          record { dev = if added then record w.dev { in_recovery = true } else w.dev; rest = rest }

    -- `tcmu_notify_lock_lost`
    unfoldable pub notify_lock_lost : World S → World S
    notify_lock_lost w =
        if is_locking w.dev.lock_state
        then w
        else set_dev w (record w.dev { lock_lost = true; lock_state = unlocked })

    abbrev pub unlocked_now : World S → World S
    unlocked_now w = set_dev w (record w.dev { lock_state = unlocked })

    -- `tcmu_release_dev_lock`
    unfoldable pub release_dev_lock : World S → World S
    release_dev_lock w =
        if not (is_locked w.dev.lock_state)
        then w
        else if not w.dev.is_open
        then unlocked_now w
        else unlocked_now (c.unlock w).1

    -- The case of an error of the handler: the tag stays as the handler left it.
    abbrev pub tag_busy : ℕ → World S → Option (Status × ℕ × World S)
    tag_busy tag w = some (busy, tag, notify_conn_lost w)

    -- `tcmu_get_lock_tag` from `retry` on, with the number of retries left.
    unfoldable pub lock_tag_from : ℕ → World S → Option (Status × ℕ × World S)
    lock_tag_from zero w =
        let (r, tag, w1) = c.get_lock_tag w in
        if is_ok r || is_no_lock_holders r
        then some (r, tag, w1)
        else if is_fenced r
        then elim (reopen_dev 2 (some 0) w1) [ none ↦ none | some (e, w2) ↦ tag_busy tag w2 ]
        else tag_busy tag w1
    lock_tag_from (suc left) w =
        let (r, tag, w1) = c.get_lock_tag w in
        if is_ok r || is_no_lock_holders r
        then some (r, tag, w1)
        else if is_fenced r
        then elim (reopen_dev 2 (some 0) w1) [
          | none ↦ none
          | some (e, w2) ↦ elim (is_ok e) [ true ↦ lock_tag_from left w2 | false ↦ tag_busy tag w2 ]
        ]
        else tag_busy tag w1

    -- `tcmu_get_lock_tag`; `tag` is what `*tag` holds before.
    unfoldable pub get_lock_tag : ℕ → World S → Option (Status × ℕ × World S)
    get_lock_tag tag w = elim w.dev.failover_type [
      | explicit ↦ if not w.dev.is_open then some (busy, tag, w) else lock_tag_from 1 (c.others w)
      | _ ↦ some (ok, tag, w)
    ]

    -- `drop_conn` of `tcmu_acquire_dev_lock`
    abbrev pub drop_conn : Status → World S → Status × World S
    drop_conn r w = (r, if is_timeout r then notify_conn_lost w else w)

    -- From `retry` to `drop_conn`, with the number of retries left. A reopening with no retries takes at
    -- most two units of fuel.
    unfoldable pub lock_from : ℕ → ℕ → Bool → World S → Option (Status × World S)
    lock_from zero tag reopen w = elim (if reopen then reopen_dev 2 (some 0) w else some (ok, w)) [
      | none ↦ none
      | some (e, w1) ↦
          if is_ok e
          then (let (r, w2) = c.lock tag w1 in some (drop_conn r w2))
          else some (drop_conn fenced w1)
    ]
    lock_from (suc left) tag reopen w =
        elim (if reopen then reopen_dev 2 (some 0) w else some (ok, w)) [
          | none ↦ none
          | some (e, w1) ↦ elim (is_ok e) [
            | false ↦ some (drop_conn fenced w1)
            | true ↦
                let (r, w2) = c.lock tag w1 in
                elim (is_fenced r) [
                  | true ↦ lock_from left tag true w2
                  | false ↦ some (drop_conn r w2)
                ]
          ]
        ]

    -- `done` of `tcmu_acquire_dev_lock`
    unfoldable pub lock_done : Status × World S → Status × World S
    lock_done (r, w) =
        let w1 = c.block_dev w in
        let w2 = if c.is_cmdproc then w1 else c.flush_ring w1 in
        (r, record (lock_result r w2) { rest = c.unblock_dev w2.rest })

    -- `tcmu_acquire_dev_lock`
    unfoldable pub acquire_dev_lock : ℕ → World S → Option (Status × World S)
    acquire_dev_lock tag w =
        let (e, w1) = c.wait_for_empty_queue w in
        if not (is_ok e)
        then some (lock_done (hw_err, w1))
        else elim (lock_from 1 tag (w1.dev.lock_lost || not w1.dev.is_open) (c.others w1)) [
          | none ↦ none
          | some r ↦ some (lock_done r)
        ]

    -- The end of `tcmu_update_dev_lock_state`.
    abbrev pub checked_state : LockState → World S → World S
    checked_state state w =
        if is_locked w.dev.lock_state && not (is_locked state)
        then set_dev w (record w.dev { lock_state = unlocked; lock_lost = true })
        else w

    -- `tcmu_update_dev_lock_state`
    unfoldable pub update_dev_lock_state : World S → World S
    update_dev_lock_state w = elim c.get_lock_state [
      | none ↦ w
      | some get ↦
          if not w.dev.is_open
          then checked_state unknown w
          else let (state, w') = get w in checked_state state w'
    ]
