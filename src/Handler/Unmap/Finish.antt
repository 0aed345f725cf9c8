-- ===== src/Handler/Unmap/Finish.antt =====
-- How an UNMAP ends: `struct unmap_state`, `unmap_init`, `unmap_put`, `handle_unmap_cbk`, the end of
-- `handle_unmap_internal`, and the changes of the count of references in `align_and_split_unmap`. The
-- threads that complete requests run between any two steps of the thread that submits them.
pub mod Once
use tcmu_runner.Prelude.{
  ℕ, ◌+◌, ◌-◌, ◌%◌, ◌^◌, ◌<◌, ◌≡◌, refl, List, [], ◌∷◌, ◌++◌, Bool, true, false, not, ◌&&◌, ltb,
  if◌then◌else◌, arith,
}
use tcmu_runner.Status.{Status, ok, is_ok}
use tcmu_runner.Handler.Unmap.{is_async}

-- `struct unmap_state`; `freed` says that it was given back.
pub record UnmapState : Type 0 where
  pub refcount : ℕ
  pub status : Status
  pub freed : Bool

-- `unmap_init`, when it succeeds.
abbrev pub unmap_init : UnmapState
unmap_init = record { refcount = 1; status = ok; freed = false }

-- `unmap_put`: the state, and the statuses that the command is finished with.
unfoldable pub unmap_put : Status → UnmapState → UnmapState × List Status
unmap_put ret u =
    let status = if not (is_ok u.status) && not (is_ok ret) then ret else u.status in
    let refcount = (u.refcount + 2 ^ 32 - 1) % 2 ^ 32 in
    if ltb 0 refcount
    then (record { refcount = refcount; status = status; freed = u.freed }, [])
    else (record { refcount = refcount; status = status; freed = true }, status ∷ [])

-- `done:` of `handle_unmap_internal`: what `unmap_put` is called with.
unfoldable pub settled_ret : Status → Status
settled_ret ret = if is_async ret then ok else ret

unfoldable pub settle : Status → UnmapState → UnmapState
settle ret u = if is_async ret then u else record u { status = ret }

-- Where the thread that submits stands: in its loops, behind `done:` with the status to put, or
-- behind its `unmap_put`.
pub data Stage : Type 0 where
  looping : Stage
  settled : Status → Stage
  released : Status → Stage

pub record Unmapping : Type 0 where
  pub state : UnmapState
  pub stage : Stage
  -- The count was raised for a request that is not scheduled yet.
  pub reserving : Bool
  -- Requests that were scheduled and whose callback has not run.
  pub queued : ℕ
  -- What `aio_command_finish` was called with.
  pub finished : List Status

abbrev pub begun : Unmapping
begun = record { state = unmap_init; stage = looping; reserving = false; queued = 0; finished = [] }

-- One step under the lock. There is room in the count, which is an unsigned int.
pub data Step (c : Unmapping) : Unmapping → Type 0 where
  reserve :
      c.stage ≡ looping
      → c.reserving ≡ false
      → c.state.refcount + 1 < 2 ^ 32
      → Step c (record c {
        state = record c.state { refcount = c.state.refcount + 1 };
        reserving = true;
      })
  queue : c.reserving ≡ true → Step c (record c { reserving = false; queued = c.queued + 1 })
  refuse :
      c.reserving ≡ true
      → Step c (record c {
        state = record c.state { refcount = c.state.refcount - 1 };
        reserving = false;
      })
  call_back :
      (ret : Status) {u : UnmapState} {done : List Status}
      → 0 < c.queued
      → unmap_put ret c.state ≡ (u, done)
      → Step c (record c { state = u; queued = c.queued - 1; finished = done ++ c.finished })
  leave_loop :
      (ret : Status)
      → c.stage ≡ looping
      → c.reserving ≡ false
      → Step c (record c { state = settle ret c.state; stage = settled (settled_ret ret) })
  release :
      (ret : Status) {u : UnmapState} {done : List Status}
      → c.stage ≡ settled ret
      → unmap_put ret c.state ≡ (u, done)
      → Step c (record c { state = u; stage = released ret; finished = done ++ c.finished })

pub data Reach : Unmapping → Type 0 where
  at_start : Reach begun
  then_step : {c e : Unmapping} → Reach c → Step c e → Reach e
