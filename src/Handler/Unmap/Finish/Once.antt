-- ===== src/Handler/Unmap/Finish/Once.antt =====
-- What holds of an UNMAP in every order of the threads' steps.
use tcmu_runner.Prelude.{
  ℕ, ◌+◌, ◌-◌, ◌%◌, ◌^◌, ◌<◌, ◌≡◌, ◌⊎◌, inl, inr, refl, ap, sym, subst, if_ind, append-nil, ◌∙◌,
  List, [], ◌∷◌, ◌++◌, Bool, true, false, not, ◌&&◌, ◌||◌, ltb, if◌then◌else◌, arith,
}
use tcmu_runner.Status.{Status, is_ok}
use tcmu_runner.Handler.Unmap.Finish.{
  UnmapState, unmap_put, settled_ret, settle, Stage, looping, settled, released, Unmapping, Step,
  reserve, queue, refuse, call_back, leave_loop, release, Reach, at_start, then_step,
}

abbrev one_if : Bool → ℕ
one_if b = if b then 1 else 0

-- The reference of the thread that submits.
abbrev holds : Stage → ℕ
holds looping = 1
holds (settled r) = 1
holds (released r) = 0

-- Whether what the thread that submits found was no error.
abbrev pub went_well : Stage → Bool
went_well looping = true
went_well (settled r) = is_ok r
went_well (released r) = is_ok r

record Inv (c : Unmapping) : Type 0 where
  counted : c.state.refcount ≡ holds c.stage + one_if c.reserving + c.queued
  room : c.state.refcount < 2 ^ 32
  freed : c.state.freed ≡ not (ltb 0 c.state.refcount)
  in_loop : (c.reserving ≡ false) ⊎ (c.stage ≡ looping)
  status : is_ok c.state.status ≡ went_well c.stage
  live : (c.state.freed ≡ true) ⊎ (c.finished ≡ [])
  over : (c.state.freed ≡ false) ⊎ (c.finished ≡ c.state.status ∷ [])

record Put (u v : UnmapState) (done : List Status) : Type 0 where
  less : v.refcount ≡ u.refcount - 1
  same : is_ok v.status ≡ is_ok u.status
  given : v.freed ≡ not (ltb 0 v.refcount)
  kept : (v.freed ≡ true) ⊎ (done ≡ [])
  told : (v.freed ≡ false) ⊎ (done ≡ v.status ∷ [])

-- The status that is kept is no error exactly if the one before was none.
kept_status : (s r : Status) → is_ok (if not (is_ok s) && not (is_ok r) then r else s) ≡ is_ok s
kept_status s r =
    if_ind (λ (x : Status). is_ok x ≡ is_ok s) (not (is_ok s) && not (is_ok r))
      (λ e. both (is_ok s) (is_ok r) e) (λ _. refl)
  where
    both : (a b : Bool) → (not a && not b) ≡ true → b ≡ a
    both true true e = refl
    both true false e = cc
    both false true e = cc
    both false false e = refl

unmap_put-Put :
    (ret : Status) (u : UnmapState) {v : UnmapState} {done : List Status}
    → 0 < u.refcount
    → u.refcount < 2 ^ 32
    → u.freed ≡ false
    → unmap_put ret u ≡ (v, done)
    → Put u v done
unfolding unmap_put
unmap_put-Put ret u p h f e =
    let m : (u.refcount + 2 ^ 32 - 1) % 2 ^ 32 ≡ u.refcount - 1 = omega arith in
    subst (λ (x : UnmapState × List Status). Put u x.0 x.1) e
      (if_ind (λ (x : UnmapState × List Status). Put u x.0 x.1)
        (ltb 0 ((u.refcount + 2 ^ 32 - 1) % 2 ^ 32))
        (λ t. record {
          less = m;
          same = kept_status u.status ret;
          given = f ∙ ap not (sym t);
          kept = inr refl;
          told = inl f;
        })
        (λ t. record {
          less = m;
          same = kept_status u.status ret;
          given = ap not (sym t);
          kept = inl refl;
          told = inr refl;
        }))

call_back-Inv :
    {c : Unmapping} (ret : Status) {u : UnmapState} {done : List Status}
    → 0 < c.queued
    → unmap_put ret c.state ≡ (u, done)
    → Inv c
    → Inv (record c { state = u; queued = c.queued - 1; finished = done ++ c.finished })
call_back-Inv {c} ret {u} {done} p e v =
    let f : c.state.freed ≡ false = ground (arith, v.freed, v.counted, p) in
    let n : c.finished ≡ [] = ground (arith, f, v.live) in
    let q = unmap_put-Put ret c.state (omega (arith, v.counted)) v.room f e in
    let l : done ++ c.finished ≡ done = ap (λ l. done ++ l) n ∙ append-nil done in
    record {
      counted = omega (arith, v.counted, q.less);
      room = omega (arith, v.room, q.less);
      freed = q.given;
      in_loop = v.in_loop;
      status = q.same ∙ v.status;
      live = rw l q.kept;
      over = rw l q.told;
    }

release-Inv :
    {c : Unmapping} (ret : Status) {u : UnmapState} {done : List Status}
    → c.stage ≡ settled ret
    → unmap_put ret c.state ≡ (u, done)
    → Inv c
    → Inv (record c { state = u; stage = released ret; finished = done ++ c.finished })
release-Inv {c} ret {u} {done} a e v =
    let w : holds c.stage ≡ 1 = ap holds a in
    let f : c.state.freed ≡ false = ground (arith, v.freed, v.counted, w) in
    let n : c.finished ≡ [] = ground (arith, f, v.live) in
    let q = unmap_put-Put ret c.state (omega (arith, v.counted, w)) v.room f e in
    let l : done ++ c.finished ≡ done = ap (λ l. done ++ l) n ∙ append-nil done in
    record {
      counted = omega (arith, v.counted, q.less, w);
      room = omega (arith, v.room, q.less);
      freed = q.given;
      in_loop = ground (arith, v.in_loop, a);
      status = q.same ∙ v.status ∙ ap went_well a;
      live = rw l q.kept;
      over = rw l q.told;
    }

Step-Inv : {c e : Unmapping} → Step c e → Inv c → Inv e
unfolding settled_ret settle
Step-Inv (reserve a b h) v = ground arith
Step-Inv (queue a) v = ground arith
Step-Inv (refuse a) v = ground arith
Step-Inv (call_back ret p e) v = call_back-Inv ret p e v
Step-Inv (leave_loop ret a b) v = ground arith
Step-Inv (release ret a e) v = release-Inv ret a e v

Reach-Inv : {c : Unmapping} → Reach c → Inv c
Reach-Inv at_start = record {
  counted = refl;
  room = omega arith;
  freed = refl;
  in_loop = inl refl;
  status = refl;
  live = inr refl;
  over = inl refl;
}
Reach-Inv (then_step r s) = Step-Inv s (Reach-Inv r)

-- Whether some thread will still use the state.
abbrev pub in_use : Unmapping → Bool
in_use c = c.reserving || ltb 0 c.queued || ltb 0 (holds c.stage)

-- In every order of the steps of the thread that submits the requests of an UNMAP and of those that
-- complete them: while one of them will still use the command's state it is not freed and the command
-- is not finished; when none will, it was finished exactly once. The status it is finished with is no
-- error exactly if the thread that submitted found none, whatever the requests themselves returned.
pub Reach-Once :
    {c : Unmapping}
    → Reach c
    → (in_use c ≡ true → (c.state.freed ≡ false) × (c.finished ≡ []))
      × (in_use c ≡ false → (s : Status) × (c.finished ≡ s ∷ []) × (is_ok s ≡ went_well c.stage))
Reach-Once {c} r =
    let v = Reach-Inv r in
    (
      λ h.
          let f : c.state.freed ≡ false = ground (arith, v.freed, v.counted, h) in
          (f, ground (arith, f, v.live)),
      λ h.
          let f : c.state.freed ≡ true = ground (arith, v.freed, v.counted, h) in
          (c.state.status, ground (arith, f, v.over), v.status),
    )
