-- ===== src/Alua/Tests.antt =====
-- Two groups, the first of which is the local one, and a kernel that takes every state.
use tcmu_runner.Prelude.{
  ℕ, suc, ◌≤◌, ◌≡◌, refl, Bool, true, false, List, [], ◌∷◌, none, length, total, arith,
}
use tcmu_runner.Cdb.{raw_get_unaligned_be32}
use tcmu_runner.Status.{ok}
use tcmu_runner.Device.{explicit, unlocked, locked, World, Calls}
use tcmu_runner.Alua.{
  Grp, Alua, optimized, standby, by_explicit_stpg, explicit_transition, sync_state, report_bytes,
  implicit_transition,
}
use tcmu_runner.Alua.Grant.{Ends, explicit_transition-Ends}
use tcmu_runner.Alua.Sync.{here, Syncs, sync_state-Syncs}
use tcmu_runner.Alua.Report.{Counted, size, report_bytes-Inside}
use tcmu_runner.Alua.Threads.{start, step, command, OneThread, Reach-OneThread}

abbrev group : ℕ → Bool → Grp
group id local = record {
  state = standby;
  supported_states = 5;
  status = 0;
  implicit_trans_secs = 0;
  pref = false;
  id = id;
  num_tgt_ports = 1;
  tgt_ports = record { rel_port_id = id; enabled = local } ∷ [];
}

abbrev two_groups : List Grp
two_groups = group 1 true ∷ group 2 false ∷ []

abbrev device : Calls ℕ
device = record {
  open_dev = λ w. (ok, w);
  close_dev = λ w. w;
  lock = λ _ w. (ok, w);
  unlock = λ w. (ok, w);
  get_lock_tag = λ w. (ok, 2, w);
  get_lock_state = none;
  wait_for_empty_queue = λ w. (ok, w);
  flush_ring = λ w. w;
  wait_lock_thread = λ w. (ok, w);
  block_dev = λ w. w;
  unblock_dev = λ n. n;
  others = λ w. w;
  add_to_recovery = λ n. (true, n);
  is_cmdproc = true;
  is_lock_thread = false;
}

abbrev alua : Alua ℕ
alua = record {
  device = device;
  set_int = λ _ _ _ w. (true, w);
  create = λ n. (true, suc n);
  has_lock = true;
  has_get_lock_tag = true;
}

abbrev world : World ℕ
world = record {
  dev = record {
    in_recovery = false;
    is_open = true;
    stopping = false;
    failover_type = explicit;
    lock_lost = false;
    lock_state = unlocked;
  };
  rest = 0;
}

abbrev holding : World ℕ
holding = record world { dev = record world.dev { lock_state = locked } }

explicit_transition-Ends_example :
    Ends alua 0
      (group 1 true)
      optimized
      by_explicit_stpg
      (explicit_transition alua two_groups 0 (group 1 true) optimized by_explicit_stpg world)
explicit_transition-Ends_example =
    explicit_transition-Ends alua (λ _ _ _ _. refl) two_groups 0 (group 1 true) optimized
      by_explicit_stpg world refl

-- The other group's node has taken the lock.
sync_state-Syncs_example : Syncs alua 1 two_groups holding (sync_state alua two_groups 1 holding)
sync_state-Syncs_example =
    sync_state-Syncs alua (λ _ _ _ _. refl) (λ _ _ _ _. refl) 1 two_groups holding refl refl
      (here refl)

-- The room ends before the second group.
report_bytes-Inside_example :
    (length (report_bytes true 20 0 two_groups) ≤ 20)
    × (raw_get_unaligned_be32 (report_bytes true 20 0 two_groups) 0 ≡ total size two_groups)
unfolding total
report_bytes-Inside_example =
    report_bytes-Inside true 20 0 two_groups (counted 1 true, (counted 2 false, tt)) (omega arith)
      (omega arith) (omega arith)
  where
    counted : (id : ℕ) (local : Bool) → Counted (group id local)
    counted id local = record { count = refl; fits = omega arith }

-- Two commands one after the other start one thread.
Reach-OneThread_example :
    OneThread alua (λ n. n) (implicit_transition alua (implicit_transition alua world).1).1
Reach-OneThread_example =
    Reach-OneThread alua (λ n. n) (λ _. refl)
      (step (step (start {w = world} refl refl) command) command)
