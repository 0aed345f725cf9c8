-- ===== src/Zbc/Write/Ends.antt =====
-- The loop of `zbc_write`, run to its end.
use tcmu_runner.Prelude.{
  subst, ℕ, zero, suc, ◌+◌, ◌<◌, ◌≡◌, ◌≢◌, true, false, Option, none, some, arith, ◌==◌, dec_lt,
}
use tcmu_runner.Zbc.{Zone}
use tcmu_runner.Zbc.Commands.{Reply, sts_ok}
use tcmu_runner.Zbc.Write.{WriteState, Next, stop, next, crash, write_once, write_loop}
use tcmu_runner.Zbc.Write.Loop.{WritesBlocks, Intact, Running, Round, stops, goes_on}
use tcmu_runner.Zbc.Write.Rounds.{write_once-Round}

pub some_left : (n : ℕ) → 0 < n → (n == 0) ≡ false
some_left n h = ground arith

pub none_left_eq : (n : ℕ) → n ≡ 0 → (n == 0) ≡ true
none_left_eq n h = ground arith

module _ (meta_size : ℕ) (s0 : WriteState) (i : ℕ) where
  -- How the loop ends.
  pub data Ended : Option (Reply × WriteState) → Type 0 where
    failed : {r : Reply} {s : WriteState} → r ≢ sts_ok → Intact s0.dev s.dev → Ended (some (r, s))
    finished :
        {s : WriteState} (z : Zone)
        → Running meta_size s0 i s0.nr_lbas s z
        → Ended (some (sts_ok, s))

module _ (pwrite : ℕ → ℕ → Option ℕ) (meta_size : ℕ) (s0 : WriteState) (i : ℕ) where
  ended_at :
      (done : ℕ) (s : WriteState) (z : Zone)
      → s.nr_lbas ≡ 0
      → Running meta_size s0 i done s z
      → Ended meta_size s0 i (some (sts_ok, s))
  ended_at done s z e r =
      finished z (subst (λ n. Running meta_size s0 i n s z) (omega (arith, r.nr_now)) r)

  -- A round and the loop that follows it.
  step-Ended :
      (fuel done : ℕ) (x : Next)
      → Round meta_size s0 i done x
      → s0.nr_lbas < suc fuel + done
      → ((done' : ℕ) (s : WriteState) (z : Zone)
          → Running meta_size s0 i done' s z
          → s0.nr_lbas < fuel + done'
          → Ended meta_size s0 i (write_loop pwrite meta_size fuel s))
      → Ended meta_size s0 i (elim x [
        | stop r s' ↦ some (r, s')
        | next s' ↦ write_loop pwrite meta_size fuel s'
        | crash ↦ none
      ])
  step-Ended fuel done (stop r s') (stops n t) h k = failed n t
  step-Ended fuel done crash e h k = elim e [ ]
  step-Ended fuel done (next s') (goes_on more z p r) h k = k (done + more) s' z r (omega arith)

  -- With one unit of fuel more than there are blocks left, the loop ends.
  pub write_loop-Ended :
      (fuel done : ℕ) (s : WriteState) (z : Zone)
      → WritesBlocks pwrite s0.dev.lba_size
      → 0 < s0.dev.lba_size
      → Running meta_size s0 i done s z
      → s0.nr_lbas < fuel + done
      → Ended meta_size s0 i (write_loop pwrite meta_size fuel s)
  unfolding write_loop
  write_loop-Ended zero done s z p b r h = absurd (omega (arith, r.nr_now))
  write_loop-Ended (suc fuel) done s z p b r h = elim (dec_lt 0 s.nr_lbas) [
    | no none_left ↦
        let e : s.nr_lbas ≡ 0 = omega arith in
        rw (none_left_eq s.nr_lbas e, write_loop) (ended_at done s z e r)
    | yes left ↦
        rw (some_left s.nr_lbas left, write_loop)
          (step-Ended fuel done (write_once pwrite meta_size s)
            (write_once-Round pwrite meta_size s0 i done s z p b r left) h
            (λ done' s' z' r' h'. write_loop-Ended fuel done' s' z' p b r' h'))
  ]
