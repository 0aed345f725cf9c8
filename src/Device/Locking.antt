-- ===== src/Device/Locking.antt =====
-- tcmu_acquire_dev_lock, tcmu_release_dev_lock and tcmu_get_lock_tag: they end, and what they report.
use tcmu_runner.Prelude.{
  ℕ, zero, suc, ◌≡◌, refl, Bool, true, false, not, ◌||◌, inl, inr, Option, some, if◌then◌else◌,
  arith, Bool-cases,
}
use tcmu_runner.Status.{Status, ok, busy, fenced, hw_err, is_ok, is_fenced, is_no_lock_holders}
use tcmu_runner.Device.{
  explicit, unlocked, locked, World, Calls, is_locked, reopen_dev, notify_conn_lost,
  release_dev_lock, lock_tag_from, get_lock_tag, drop_conn, lock_from, lock_done, acquire_dev_lock,
}
use tcmu_runner.Device.Endings.{Returns, reopen_dev-Returns}

-- What a read of the lock's tag reports.
pub data Tagged : Status → Type 0 where
  answered : (r : Status) → is_ok r || is_no_lock_holders r ≡ true → Tagged r
  postponed : Tagged busy

module _ {S : Type 0} where
  -- What the lock state says of the result of taking the lock.
  pub data Acquired (r : Status) (w : World S) : Type 0 where
    held : is_ok r ≡ true → w.dev.lock_state ≡ locked → Acquired r w
    refused : is_ok r ≡ false → w.dev.lock_state ≡ unlocked → Acquired r w

  abbrev pub Reads : Option (Status × ℕ × World S) → Type 0
  Reads o = (r : Status) × (tag : ℕ) × (w : World S) × (o ≡ some (r, tag, w)) × Tagged r

module _ {S : Type 0} (c : Calls S) where
  reopened_if :
      (reopen : Bool) (w : World S)
      → Returns (if reopen then reopen_dev c 2 (some 0) w else some (ok, w))
  reopened_if true w = reopen_dev-Returns c 0 w
  reopened_if false w = (ok, w, refl)

  lock_last-Returns :
      (tag : ℕ) (reopen : Bool) (w : World S)
      → Returns (if reopen then reopen_dev c 2 (some 0) w else some (ok, w))
      → Returns (lock_from c 0 tag reopen w)
  unfolding lock_from
  lock_last-Returns tag reopen w (e, w1, q) = elim (Bool-cases (is_ok e)) [
    | inl o ↦ (
      (c.lock tag w1).0,
      (drop_conn c (c.lock tag w1).0 (c.lock tag w1).1).1,
      rw (lock_from, q, o) refl,
    )
    | inr o ↦ (fenced, w1, rw (lock_from, q, o) refl)
  ]

  lock_again-Returns :
      (left tag : ℕ) (reopen : Bool) (w : World S)
      → Returns (if reopen then reopen_dev c 2 (some 0) w else some (ok, w))
      → ((w' : World S) → Returns (lock_from c left tag true w'))
      → Returns (lock_from c (suc left) tag reopen w)
  unfolding lock_from
  lock_again-Returns left tag reopen w (e, w1, q) again = elim (Bool-cases (is_ok e)) [
    | inr o ↦ (fenced, w1, rw (lock_from, q, o) refl)
    | inl o ↦ elim (Bool-cases (is_fenced (c.lock tag w1).0)) [
      | inl f ↦ let (r, w', a) = again (c.lock tag w1).1 in (r, w', rw (lock_from, q, o, f) a)
      | inr f ↦ (
        (c.lock tag w1).0,
        (drop_conn c (c.lock tag w1).0 (c.lock tag w1).1).1,
        rw (lock_from, q, o, f) refl,
      )
    ]
  ]

  lock_from-Returns :
      (left tag : ℕ) (reopen : Bool) (w : World S) → Returns (lock_from c left tag reopen w)
  lock_from-Returns zero tag reopen w = lock_last-Returns tag reopen w (reopened_if reopen w)
  lock_from-Returns (suc left) tag reopen w =
      lock_again-Returns left tag reopen w (reopened_if reopen w)
        (λ w'. lock_from-Returns left tag true w')

  lock_done-Acquired :
      (r : Status) (w : World S) → Acquired (lock_done c (r, w)).0 (lock_done c (r, w)).1
  unfolding lock_done
  lock_done-Acquired r w = elim (Bool-cases (is_ok r)) [
    | inl o ↦ held o (simp o)
    | inr o ↦ refused o (simp o)
  ]

  -- Taking the lock always ends. The lock is held afterwards if the result is success, and the state is
  -- unlocked with any other result: no call leaves the lock in the state of being taken.
  pub acquire_dev_lock-Acquired :
      (tag : ℕ) (w : World S)
      → (r : Status) × (w' : World S) × (acquire_dev_lock c tag w ≡ some (r, w')) × Acquired r w'
  unfolding acquire_dev_lock
  acquire_dev_lock-Acquired tag w = elim (Bool-cases (is_ok (c.wait_for_empty_queue w).0)) [
    | inr o ↦
        let w1 = (c.wait_for_empty_queue w).1 in
        (
          (lock_done c (hw_err, w1)).0,
          (lock_done c (hw_err, w1)).1,
          simp o,
          lock_done-Acquired hw_err w1,
        )
    | inl o ↦
        let w1 = (c.wait_for_empty_queue w).1 in
        let (r, w2, q) =
          lock_from-Returns 1 tag (w1.dev.lock_lost || not w1.dev.is_open) (c.others w1) in
        ((lock_done c (r, w2)).0, (lock_done c (r, w2)).1, simp (o, q), lock_done-Acquired r w2)
  ]

  pub release_dev_lock-unlocked :
      (w : World S) → is_locked (release_dev_lock c w).dev.lock_state ≡ false
  unfolding release_dev_lock
  release_dev_lock-unlocked w = ground arith

  lock_tag_last-Reads : (w : World S) → Reads (lock_tag_from c 0 w)
  unfolding lock_tag_from
  lock_tag_last-Reads w =
      let r = (c.get_lock_tag w).0 in
      let tag = (c.get_lock_tag w).1 in
      let w1 = (c.get_lock_tag w).2 in
      elim (Bool-cases (is_ok r || is_no_lock_holders r)) [
        | inl a ↦ (r, tag, w1, rw (lock_tag_from, a) refl, answered r a)
        | inr a ↦ elim (Bool-cases (is_fenced r)) [
          | inr f ↦ (busy, tag, notify_conn_lost c w1, rw (lock_tag_from, a, f) refl, postponed)
          | inl f ↦
              let (e, w2, q) = reopen_dev-Returns c 0 w1 in
              (busy, tag, notify_conn_lost c w2, rw (lock_tag_from, a, f, q) refl, postponed)
        ]
      ]

  lock_tag_again-Reads :
      (left : ℕ) (w : World S)
      → ((w' : World S) → Reads (lock_tag_from c left w'))
      → Reads (lock_tag_from c (suc left) w)
  unfolding lock_tag_from
  lock_tag_again-Reads left w again =
      let r = (c.get_lock_tag w).0 in
      let tag = (c.get_lock_tag w).1 in
      let w1 = (c.get_lock_tag w).2 in
      elim (Bool-cases (is_ok r || is_no_lock_holders r)) [
        | inl a ↦ (r, tag, w1, rw (lock_tag_from, a) refl, answered r a)
        | inr a ↦ elim (Bool-cases (is_fenced r)) [
          | inr f ↦ (busy, tag, notify_conn_lost c w1, rw (lock_tag_from, a, f) refl, postponed)
          | inl f ↦
              let (e, w2, q) = reopen_dev-Returns c 0 w1 in
              elim (Bool-cases (is_ok e)) [
                | inr o ↦ (
                  busy,
                  tag,
                  notify_conn_lost c w2,
                  rw (lock_tag_from, a, f, q, o) refl,
                  postponed,
                )
                | inl o ↦
                    let (r', tag', w', e', t) = again w2 in
                    (r', tag', w', rw (lock_tag_from, a, f, q, o) e', t)
              ]
        ]
      ]

  lock_tag_from-Reads : (left : ℕ) (w : World S) → Reads (lock_tag_from c left w)
  lock_tag_from-Reads zero w = lock_tag_last-Reads w
  lock_tag_from-Reads (suc left) w = lock_tag_again-Reads left w (λ w'. lock_tag_from-Reads left w')

  explicit-Reads :
      (tag : ℕ) (w : World S)
      → Reads (if not w.dev.is_open then some (busy, tag, w) else lock_tag_from c 1 (c.others w))
  explicit-Reads tag w = elim (Bool-cases w.dev.is_open) [
    | inr o ↦ (busy, tag, w, ground arith, postponed)
    | inl o ↦
        let (r, tag', w', e, t) = lock_tag_from-Reads 1 (c.others w) in
        (r, tag', w', ground (arith, e), t)
  ]

  -- Reading the tag of the lock always ends, and reports success, that nobody holds the lock, or BUSY: any
  -- other result of the handler is hidden behind BUSY.
  pub get_lock_tag-Reads : (tag : ℕ) (w : World S) → Reads (get_lock_tag c tag w)
  unfolding get_lock_tag
  get_lock_tag-Reads tag w =
      elim w.dev.failover_type
        as (λ f. Reads (elim f [
          | explicit ↦
              if not w.dev.is_open then some (busy, tag, w) else lock_tag_from c 1 (c.others w)
          | _ ↦ some (ok, tag, w)
        ])) [ explicit ↦ explicit-Reads tag w | _ ↦ (ok, tag, w, refl, answered ok refl) ]
