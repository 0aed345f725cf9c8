-- ===== src/Aio/Progress.antt =====
-- No completion is forgotten: the threads never get stuck, and when they are done the kernel knows all.
use tcmu_runner.Prelude.{
  ℕ, ◌+◌, ◌*◌, ◌≤◌, ◌<◌, ◌≡◌, ◌^◌, ◌⊎◌, inl, inr, true, false, ltb, if◌then◌else◌, arith, dec_lt,
  Option-cases,
}
use tcmu_runner.Aio.{request_finish, wakeup_finish}
use tcmu_runner.Aio.Protocol.{
  Flight, Work, place, finish, finish_sync, notify, ask, return_woken, Reach, Works, none_more,
  one_more,
}
use tcmu_runner.Aio.Safety.{Inv, Reach-Inv, Work-Inv}

-- An upper bound of the steps that are left if nothing new arrives.
abbrev pub work_left : Flight → ℕ
work_left f =
    f.in_flight * 6
    + f.placed * 5
    + f.notifying * 2
    + f.asking
    + f.woken
    + (if ltb 1 f.track.pending_wakeups then 2 else 0)

Work-less : {f g : Flight} → Inv f → Work f g → work_left g < work_left f
unfolding request_finish wakeup_finish
Work-less v (place h) = ground arith
Work-less v (finish h room e) = ground arith
Work-less v (finish_sync h e) = ground arith
Work-less v (notify h) = ground arith
Work-less v (ask h e) = ground arith
Work-less v (return_woken h) = ground arith

Works-less : {n : ℕ} {f g : Flight} → Inv f → Works n f g → (n + work_left g ≤ work_left f) × Inv g
Works-less v none_more = (omega arith, v)
Works-less v (one_more s w) =
    let (less, u) = Works-less (Work-Inv s v) w in (omega (arith, less, Work-less v s), u)

-- Nothing is under way, and the kernel was told of every completion.
pub record Quiet (f : Flight) : Type 0 where
  pub no_commands : f.in_flight + f.placed ≡ 0
  pub untracked : f.track.tracked_aio_ops ≡ 0
  pub no_wakeups : f.track.pending_wakeups ≡ 0
  pub all_told : f.unnotified ≡ 0
  pub awake : f.asleep ≡ false
  pub returned : f.woken ≡ 0

-- Either some thread can go on, or all is quiet.
stuck-Quiet :
    {f : Flight}
    → Inv f
    → f.track.pending_wakeups + 1 < 2 ^ 32
    → ((g : Flight) × Work f g) ⊎ Quiet f
unfolding request_finish wakeup_finish
stuck-Quiet {f} v room = elim (dec_lt 0 f.in_flight) [
  | yes h ↦ inl (_, place h)
  | no h ↦ elim (dec_lt 0 f.placed) [
    | yes p ↦ elim (Option-cases (request_finish true f.track)) [
      | inr (r, e) ↦ inl (_, finish p room e)
      | inl n ↦ absurd (ground (arith, v.tracked))
    ]
    | no p ↦ elim (dec_lt 0 f.notifying) [
      | yes q ↦ inl (_, notify q)
      | no q ↦ elim (dec_lt 0 f.asking) [
        | yes k ↦ elim (Option-cases (wakeup_finish f.track)) [
          | inr ((t, again), e) ↦ inl (_, ask k e)
          | inl n ↦ absurd (ground arith)
        ]
        | no k ↦ elim (dec_lt 0 f.woken) [
          | yes u ↦ inl (_, return_woken u)
          | no u ↦ inr (ground arith)
        ]
      ]
    ]
  ]
]

-- From every state that the threads can reach, if nothing new arrives: the threads take at most as many
-- steps as `work_left` gives, in whatever order, and as long as there is room in the counter of
-- wakeups they do not stop before no command is under way, the kernel was told of every completion,
-- no wakeup is pending, and, of the threads that wait for the queue to be empty, those that were signalled
-- have returned and the one whose condition `is_empty_cond` points to does not sleep. A thread whose
-- condition was overwritten by that of a later one, or set to NULL by one that returns, may sleep on.
pub Works-Quiet :
    {n : ℕ} {f g : Flight}
    → Reach f
    → Works n f g
    → g.track.pending_wakeups + 1 < 2 ^ 32
    → (n ≤ work_left f) × (((h : Flight) × Work g h) ⊎ Quiet g)
Works-Quiet r w room =
    let (less, v) = Works-less (Reach-Inv r) w in (omega (arith, less), stuck-Quiet v room)
