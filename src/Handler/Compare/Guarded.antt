-- ===== src/Handler/Compare/Guarded.antt =====
-- What a COMPARE AND WRITE does to the lock, the command and the data.
use tcmu_runner.Prelude.{
  ℕ, ◌+◌, ◌-◌, ◌/◌, ◌%◌, ◌^◌, ◌≤◌, ◌<◌, ◌≡◌, ◌≢◌, ◌∙◌, refl, List, [], ◌∷◌, Bool, true, false, not,
  Option, none, some, All, ◌==◌, length, take, if◌then◌else◌, if_ind, arith,
}
use tcmu_runner.Status.{Status, ok, no_resource, miscompare, is_ok}
use native.Mathlib.Nat.{mod-eq_of_lt}
use tcmu_runner.Cdb.{byte}
use tcmu_runner.Iovec.{Iovec, windows, iovec_length, cmd_seek}
use tcmu_runner.Iovec.Zero.{iovec_length_mod}
use tcmu_runner.Iovec.Compare.{IsFirstDifference, iovec_compare_correct}
use tcmu_runner.Iovec.Seek.{iovec_seek_correct}
use tcmu_runner.Handler.{Device, check_lbas, check_iovec_length}
use tcmu_runner.Handler.Unmap.{is_async}
use tcmu_runner.Handler.Compare.{
  handle_caw_check, Call, locks, unlocks, frees, reads, writes, sets_info, completes, Stage,
  cmp_offset_of, caw_offset, finish_err, caw_compared, handle_caw_read_cbk, handle_caw, then_cbk,
  then_write, caw_callbacks, caw_run,
}

cmd_seek_total :
    (vs : List Iovec) (count : ℕ)
    → count ≤ length (windows vs)
    → (ws : List Iovec) × (cmd_seek vs count ≡ some ws)
unfolding cmd_seek
cmd_seek_total vs count h =
    let (consumed, ws, e, _) = iovec_seek_correct vs count h in
    (take (length vs - consumed) ws, rw (cmd_seek, e) refl)

-- Whether `caw_lock` is held after some calls; `none` is a lock that is taken or released out of turn, or
-- a request of a handler without the lock.
unfoldable pub held_after : Bool → List Call → Option Bool
held_after held [] = some held
held_after held (locks ∷ cs) = if held then none else held_after true cs
held_after held (unlocks ∷ cs) = if held then held_after false cs else none
held_after held (reads n ∷ cs) = if held then held_after held cs else none
held_after held (writes vs ∷ cs) = if held then held_after held cs else none
held_after held (_ ∷ cs) = held_after held cs

-- What the command is completed with.
unfoldable pub completions : List Call → List Status
completions [] = []
completions (completes ret ∷ cs) = ret ∷ completions cs
completions (_ ∷ cs) = completions cs

-- The vectors that are written.
unfoldable pub written : List Call → List (List Iovec)
written [] = []
written (writes vs ∷ cs) = vs ∷ written cs
written (_ ∷ cs) = written cs

-- The offsets that the sense data are given.
unfoldable pub infos : List Call → List ℕ
infos [] = []
infos (sets_info off ∷ cs) = off ∷ infos cs
infos (_ ∷ cs) = infos cs

-- How the data may be dealt with: they are written only if they are equal, and an offset in the sense data is
-- that of the first difference, of a command that wrote nothing.
abbrev pub Data : List ℕ → List Iovec → ℕ → List Call → Type 0
Data mem iovec half cs =
    (written cs ≢ [] → take half mem ≡ take half (windows iovec))
    × All
        (λ off.
          (written cs ≡ [])
          × (completions cs ≡ miscompare ∷ [])
          × IsFirstDifference half mem (windows iovec) (some off))
        (infos cs)

-- The callbacks begin with the lock held, end without it, and complete the command once.
abbrev Ended : List ℕ → List Iovec → ℕ → Option (List Call) → Type 0
Ended mem iovec half o =
    (cs : List Call) × (o ≡ some cs)
    × (held_after true cs ≡ some false)
    × (length (completions cs) ≡ 1)
    × Data mem iovec half cs

-- A callback of the read, with that of the write behind it.
abbrev Called : List ℕ → List Iovec → ℕ → Status → Option Stage → Type 0
Called mem iovec half wr o = Ended mem iovec half (then_write o wr)

finish_err-Called :
    (mem : List ℕ) (iovec : List Iovec) (half : ℕ) (wr ret : Status)
    → Called mem iovec half wr (some (record { calls = finish_err ret; pending = false }))
unfolding then_write finish_err held_after completions written infos
finish_err-Called mem iovec half wr ret = (_, refl, refl, refl, ((λ n. absurd (n refl)), tt))

equal-Called :
    (mem : List ℕ) (iovec ws : List Iovec) (half : ℕ) (rc wr : Status)
    → IsFirstDifference half mem (windows iovec) none
    → Called mem iovec half wr (caw_compared (cmp_offset_of none) (some ws) rc)
unfolding caw_compared cmp_offset_of then_write finish_err held_after completions written infos
equal-Called mem iovec ws half rc wr d =
    if_ind (λ s. Called mem iovec half wr (some s)) (is_async rc)
      (λ _. (_, refl, refl, refl, ((λ _. d), tt))) (λ _. finish_err-Called mem iovec half wr rc)

differs-Called :
    (mem : List ℕ) (iovec ws : List Iovec) (half : ℕ) (rc wr : Status) (k : ℕ)
    → k < 2 ^ 32 - 1
    → IsFirstDifference half mem (windows iovec) (some k)
    → Called mem iovec half wr (caw_compared (cmp_offset_of (some k)) (some ws) rc)
unfolding caw_compared cmp_offset_of then_write finish_err held_after completions written infos
differs-Called mem iovec ws half rc wr k small d =
    let m : k % 2 ^ 32 ≡ k = omega arith in
    let n : (k == 2 ^ 32 - 1) ≡ false = ground arith in
    rw (m, n) (_, refl, refl, refl, ((λ z. absurd (z refl)), ((refl, refl, d), tt)))

compared-Called :
    (mem : List ℕ) (iovec ws : List Iovec) (half : ℕ) (rc wr : Status) (o : Option ℕ)
    → half < 2 ^ 32
    → IsFirstDifference half mem (windows iovec) o
    → Called mem iovec half wr (caw_compared (cmp_offset_of o) (some ws) rc)
compared-Called mem iovec ws half rc wr none l d = equal-Called mem iovec ws half rc wr d
compared-Called mem iovec ws half rc wr (some k) l d =
    differs-Called mem iovec ws half rc wr k (omega (arith, d.0)) d

caw_callbacks-Ended :
    (mem : List ℕ) (iovec : List Iovec) (half : ℕ) (rd rc wr : Status)
    → half ≤ length mem
    → half + half ≤ length (windows iovec)
    → half < 2 ^ 32
    → Ended mem iovec half (caw_callbacks mem iovec half rd rc wr)
unfolding caw_callbacks handle_caw_read_cbk caw_offset
caw_callbacks-Ended mem iovec half rd rc wr h k l =
    let (o, e, d) = iovec_compare_correct mem iovec half h (omega arith) in
    let (ws, f) = cmd_seek_total iovec half (omega arith) in
    rw (e, f)
      (if_ind (Called mem iovec half wr) (not (is_ok rd))
        (λ _. finish_err-Called mem iovec half wr rd)
        (λ _. compared-Called mem iovec ws half rc wr o l d))

handle_caw_check-sync :
    (d : Device) (cdb : List ℕ) (iovec : List Iovec)
    → is_async (handle_caw_check d cdb iovec) ≡ false
unfolding handle_caw_check check_iovec_length check_lbas
handle_caw_check-sync d cdb iovec = ground arith

-- The lock is taken and released in turn and is held by every request, the command is completed once if the
-- handler returned that it goes on, and not at all otherwise.
abbrev pub Guarded : List ℕ → List Iovec → ℕ → Status → List Call → Type 0
Guarded mem iovec half ret cs =
    (held_after false cs ≡ some false)
    × (length (completions cs) ≡ (if is_async ret then 1 else 0))
    × Data mem iovec half cs

-- Where the handler ends the command by itself.
answered-Guarded :
    (mem : List ℕ) (iovec : List Iovec) (half : ℕ) (ret : Status)
    → is_async ret ≡ false
    → Guarded mem iovec half ret []
unfolding held_after completions written infos
answered-Guarded mem iovec half ret e = (refl, ground (arith, e), ((λ n. absurd (n refl)), tt))

-- The handler, and what follows it.
abbrev Runs : List ℕ → List Iovec → ℕ → Option (List Call) → Stage × Status → Type 0
Runs mem iovec half cbk (s, ret) =
    (cs : List Call) × (then_cbk s cbk ≡ some cs) × Guarded mem iovec half ret cs

handle_caw-Runs :
    (d : Device) (cdb : List ℕ) (mem : List ℕ) (iovec : List Iovec) (state_ok : Bool) (rc : Status)
    (cbk : Option (List Call))
    → Ended mem iovec (iovec_length iovec / 2) cbk
    → Runs mem iovec (iovec_length iovec / 2) cbk (handle_caw d cdb iovec state_ok rc)
unfolding handle_caw then_cbk held_after completions written infos
handle_caw-Runs d cdb mem iovec state_ok rc cbk (cs, e, held, once, dealt) =
    let half = iovec_length iovec / 2 in
    let P = Runs mem iovec half cbk in
    if_ind P (byte cdb 13 == 0) (λ _. ([], refl, answered-Guarded mem iovec half ok refl))
      (λ _.
        if_ind P (not (is_ok (handle_caw_check d cdb iovec)))
          (λ _. (
            [],
            refl,
            answered-Guarded mem iovec half (handle_caw_check d cdb iovec)
                (handle_caw_check-sync d cdb iovec),
          ))
          (λ _.
            if_ind P (not state_ok)
              (λ _. ([], refl, answered-Guarded mem iovec half no_resource refl))
              (λ _.
                if_ind P (is_async rc)
                  (λ _. (locks ∷ reads half ∷ cs, rw e refl, (held, once, dealt)))
                  (λ q. (
                    locks ∷ unlocks ∷ frees ∷ [],
                    refl,
                    (refl, ground (arith, q), ((λ n. absurd (n refl)), tt)),
                  )))))

-- A COMPARE AND WRITE whose vector has fewer than 2 ^ 33 bytes and whose read leaves half as many bytes at
-- least, whatever the allocation, the scheduler, the read and the write return: the handler and its callbacks
-- end. `caw_lock` is taken and released in turn, held by every read and write and not held at the end. The
-- command is completed once if `handle_caw` returned TCMU_STS_ASYNC_HANDLED, and not at all if it returned
-- another status. Data are handed to the handler's write only if the bytes that were read are those of the
-- first half of the vector; and if an offset is set in the sense data, nothing is written, the command is
-- completed with TCMU_STS_MISCOMPARE, and the offset is that of the first byte that differs.
pub caw_run-Guarded :
    (d : Device) (cdb : List ℕ) (iovec : List Iovec) (state_ok : Bool) (rc : Status) (mem : List ℕ)
    (rd rc_write wr : Status)
    → length (windows iovec) < 2 ^ 33
    → iovec_length iovec / 2 ≤ length mem
    → (cs : List Call) × (caw_run d cdb iovec state_ok rc mem rd rc_write wr ≡ some cs)
      × Guarded mem iovec (iovec_length iovec / 2) (handle_caw d cdb iovec state_ok rc).1 cs
unfolding caw_run
caw_run-Guarded d cdb iovec state_ok rc mem rd rc_write wr small h =
    let half = iovec_length iovec / 2 in
    let l : iovec_length iovec ≡ length (windows iovec) =
      iovec_length_mod iovec ∙ mod-eq_of_lt (omega arith) in
    handle_caw-Runs d cdb mem iovec state_ok rc (caw_callbacks mem iovec half rd rc_write wr)
      (caw_callbacks-Ended mem iovec half rd rc_write wr h (omega (arith, l)) (omega (arith, l)))
