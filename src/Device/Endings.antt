-- ===== src/Device/Endings.antt =====
-- The calls of tcmur_device.c that reopen a device end, whatever the handler and other threads do.
use tcmu_runner.Prelude.{
  ℕ, ◌+◌, ◌≡◌, refl, ◌∙◌, Bool, true, inl, inr, Option, some, if◌then◌else◌, arith, Bool-cases,
}
use tcmu_runner.Status.{Status, ok, errno, is_ok}
use tcmu_runner.Device.{
  World, Calls, set_dev, recovered, reopen_waited, lock_settled, before_wait, reopen_locked,
  reopen_dev,
}
use tcmu_runner.Device.Recovery.{loop-Ends, reopen-going, reopen-stopping}

module _ {S : Type 0} where
  abbrev pub Returns : Option (Status × World S) → Type 0
  Returns o = (r : Status) × (w : World S) × (o ≡ some (r, w))

module _ {S : Type 0} (c : Calls S) where
  waited-Returns :
      (n : ℕ) (needs_close : Bool) (e : Status) (w : World S)
      → Returns (reopen_waited c (n + 2) (some n) needs_close e w)
  unfolding reopen_waited
  waited-Returns n needs_close e w = elim (Bool-cases (is_ok e)) [
    | inr q ↦ (e, recovered w, rw q refl)
    | inl q ↦
        let (r, w', found, _) =
          loop-Ends c (λ _ _. Unit) (λ _ _ _ _. tt) (n + 2) n 0 (errno 5)
            (if needs_close then c.close_dev w else w) (omega arith) (omega arith) tt in
        (r, recovered w', rw (q, found, reopen_waited) refl)
  ]

  locked-Returns : (n : ℕ) (w : World S) → Returns (reopen_locked c (n + 2) (some n) w)
  locked-Returns n w = elim (Bool-cases w.dev.stopping) [
    | inl q ↦ (ok, recovered w, reopen-stopping c (n + 2) (some n) w q)
    | inr q ↦
        let (r, w', e) =
          waited-Returns n (lock_settled c w).dev.is_open
            (c.wait_for_empty_queue (before_wait c (lock_settled c w))).0
            (c.wait_for_empty_queue (before_wait c (lock_settled c w))).1 in
        (r, w', reopen-going c (n + 2) (some n) w q ∙ e)
  ]

  pub reopen_dev-Returns : (n : ℕ) (w : World S) → Returns (reopen_dev c (n + 2) (some n) w)
  unfolding reopen_dev
  reopen_dev-Returns n w = elim (Bool-cases w.dev.in_recovery) [
    | inl q ↦ (errno 16, w, simp q)
    | inr q ↦
        let (r, w', e) =
          locked-Returns n (c.others (set_dev w (record w.dev { in_recovery = true }))) in
        (r, w', simp (q, e))
  ]
