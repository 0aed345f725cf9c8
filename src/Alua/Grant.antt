-- ===== src/Alua/Grant.antt =====
-- A transition that succeeds leaves the group's state and the lock in agreement.
use tcmu_runner.Prelude.{
  ℕ, zero, suc, ◌+◌, ◌≡◌, refl, sym, ap, subst, ◌∙◌, true, false, not, ◌⊎◌, inl, inr, List, [], ◌∷◌,
  Option, some, get_elem?, set, if◌then◌else◌, ◌==◌, arith, Bool-cases, if_ind, ==_iff,
  get_elem?-set_self, get_elem?-lt,
}
use tcmu_runner.Status.{Status, ok, busy, expl_transition_err, invalid_param_list, is_ok, is_hw_err}
use tcmu_runner.Device.{locked, World, is_locked, release_dev_lock}
use tcmu_runner.Device.Locking.{held, refused, acquire_dev_lock-Acquired, release_dev_lock-unlocked}
use tcmu_runner.Alua.{
  Grp, Alua, Setting, alua_access_state, alua_access_status, optimized, standby, check_sup_state,
  set_state, with_lock, others_to_standby, set_own, explicit_transition,
}

ok_not_hw_err : (r : Status) → is_ok r ≡ true → is_hw_err r ≡ false
ok_not_hw_err r h = ground arith

module _ {S : Type 0} where
  -- The lock allows a state: without a lock any, with one OPTIMIZED while it is held, and STANDBY while it
  -- is not.
  pub data Agrees (a : Alua S) (state : ℕ) (w : World S) : Type 0 where
    lockless : a.has_lock ≡ false → Agrees a state w
    holder : state ≡ optimized → w.dev.lock_state ≡ locked → Agrees a state w
    other : state ≡ standby → is_locked w.dev.lock_state ≡ false → Agrees a state w

  -- No other thread takes or loses the lock while the kernel is told of a state.
  abbrev pub Undisturbed : Alua S → Type 0
  Undisturbed a =
      (id : ℕ) (s : Setting) (v : ℕ) (w : World S)
      → (a.set_int id s v w).1.dev.lock_state ≡ w.dev.lock_state

  module _ (a : Alua S) (undisturbed : Undisturbed a) where
    pub set_state-lock :
        (g : Grp) (n status : ℕ) (w : World S)
        → (set_state a g n status w).2.dev.lock_state ≡ w.dev.lock_state
    unfolding set_state
    set_state-lock g n status w = elim (Bool-cases (a.set_int g.id alua_access_state n w).0) [
      | inr q ↦ rw (set_state, q) (undisturbed g.id alua_access_state n w)
      | inl q ↦
          rw (set_state, q)
            (undisturbed g.id alua_access_status status _ ∙ undisturbed g.id alua_access_state n w)
    ]

    others-lock :
        (pos at status : ℕ) (gs : List Grp) (w : World S)
        → (others_to_standby a pos at status gs w).1.dev.lock_state ≡ w.dev.lock_state
    unfolding others_to_standby
    others-lock pos at status [] w = refl
    others-lock pos at status (g ∷ gs) w = elim (Bool-cases (pos == at)) [
      | inl q ↦ rw (others_to_standby, q) (others-lock pos (suc at) status gs w)
      | inr q ↦
          rw (others_to_standby, q)
            (others-lock pos (suc at) status gs (set_state a g standby status w).2
              ∙ set_state-lock g standby status w)
    ]

    others-own :
        (pos at k status : ℕ) (gs : List Grp) (w : World S) {g : Grp}
        → pos ≡ at + k
        → get_elem? gs k ≡ some g
        → get_elem? (others_to_standby a pos at status gs w).0 k ≡ some g
    unfolding others_to_standby
    others-own pos at k status [] w e h = h
    others-own pos at zero status (g ∷ gs) w e h = elim (Bool-cases (pos == at)) [
      | inl q ↦ rw (others_to_standby, q) h
      | inr q ↦ absurd (ground (arith, q, e))
    ]
    others-own pos at (suc k) status (g ∷ gs) w e h =
        others-own pos (suc at) k status gs _ (omega arith) h

  -- How a transition of the group `g` at a position ends.
  pub data Granted (a : Alua S) (pos : ℕ) (g : Grp) (new status : ℕ) (r : Status) (gs : List Grp)
      (w : World S) : Type 0 where
    granted :
        is_ok r ≡ true
        → get_elem? gs pos ≡ some (record g { state = new; status = status })
        → Agrees a new w
        → Granted a pos g new status r gs w
    denied : is_ok r ≡ false → get_elem? gs pos ≡ some g → Granted a pos g new status r gs w

  -- `o` is the end of a transition.
  abbrev pub Ends :
      (a : Alua S) (pos : ℕ) (g : Grp) (new status : ℕ)
      → Option (Status × List Grp × World S)
      → Type 0
  Ends a pos g new status o =
      (r : Status) × (gs : List Grp) × (w : World S) × (o ≡ some (r, gs, w))
      × Granted a pos g new status r gs w

  module _ (a : Alua S) (undisturbed : Undisturbed a) where
    Agrees-lock :
        {n : ℕ} {w w' : World S}
        → w'.dev.lock_state ≡ w.dev.lock_state
        → Agrees a n w
        → Agrees a n w'
    Agrees-lock q (lockless h) = lockless h
    Agrees-lock q (holder n h) = holder n (q ∙ h)
    Agrees-lock q (other n h) = other n (ap is_locked q ∙ h)

    set_state-cases :
        (g : Grp) (n status : ℕ) (w : World S)
        → ((set_state a g n status w).0 ≡ ok)
            × ((set_state a g n status w).1 ≡ record g { state = n; status = status })
          ⊎ ((set_state a g n status w).0 ≡ expl_transition_err)
            × ((set_state a g n status w).1 ≡ g)
    unfolding set_state
    set_state-cases g n status w = elim (Bool-cases (a.set_int g.id alua_access_state n w).0) [
      | inl q ↦ inl (simp q, simp q)
      | inr q ↦ inr (simp q, simp q)
    ]

    own-Ends :
        (pos : ℕ) (g : Grp) (new status : ℕ) (gs : List Grp) (w : World S)
        → get_elem? gs pos ≡ some g
        → Agrees a new w
        → Ends a pos g new status (some (set_own a pos g new status gs w))
    own-Ends pos g new status gs w h agrees =
        let (r, g', w') = set_state a g new status w in
        let found = get_elem?-set_self gs pos g' (get_elem?-lt gs pos h) in
        (
          r,
          set gs pos g',
          w',
          refl,
          elim (set_state-cases g new status w) [
            | inl (e, q) ↦
                granted (ap is_ok e) (found ∙ ap some q)
                  (Agrees-lock (set_state-lock a undisturbed g new status w) agrees)
            | inr (e, q) ↦ denied (ap is_ok e) (found ∙ ap some q)
          ],
        )

    with_lock-Ends :
        (groups : List Grp) (pos : ℕ) (g : Grp) (status : ℕ) (w : World S)
        → get_elem? groups pos ≡ some g
        → Ends a pos g optimized status (with_lock a groups pos g status w)
    unfolding with_lock
    with_lock-Ends groups pos g status w h =
        let (r, w1, q, acquired) = acquire_dev_lock-Acquired a.device g.id w in
        elim acquired [
          | refused n f ↦ elim (Bool-cases (is_hw_err r)) [
            | inl x ↦ (expl_transition_err, groups, w1, rw (with_lock, q, x) refl, denied refl h)
            | inr x ↦ (busy, groups, w1, rw (with_lock, q, x, n) refl, denied refl h)
          ]
          | held o f ↦
              let gs1 = (others_to_standby a pos 0 status groups w1).0 in
              let w2 = (others_to_standby a pos 0 status groups w1).1 in
              let (r', gs', w', e, t) =
                own-Ends pos g optimized status gs1 w2
                  (others-own a undisturbed pos 0 pos status groups w1 (omega arith) h)
                  (holder refl (others-lock a undisturbed pos 0 status groups w1 ∙ f)) in
              (r', gs', w', rw (with_lock, q, ok_not_hw_err r o, o) e, t)
        ]

    optimized-Ends :
        (groups : List Grp) (pos : ℕ) (g : Grp) (status : ℕ) (w : World S)
        → get_elem? groups pos ≡ some g
        → Ends a pos g optimized status (
            if a.has_lock
            then with_lock a groups pos g status w
            else some (set_own a pos g optimized status groups w))
    optimized-Ends groups pos g status w h =
        if_ind (Ends a pos g optimized status) a.has_lock
          (λ _. with_lock-Ends groups pos g status w h)
          (λ l. own-Ends pos g optimized status groups w h (lockless l))

    standby-Ends :
        (groups : List Grp) (pos : ℕ) (g : Grp) (status : ℕ) (w : World S)
        → get_elem? groups pos ≡ some g
        → Ends a pos g standby status (
            some (
              set_own a pos g standby status groups
                (if a.has_lock then release_dev_lock a.device w else w)))
    standby-Ends groups pos g status w h =
        own-Ends pos g standby status groups (if a.has_lock then release_dev_lock a.device w else w)
          h
          (if_ind (Agrees a standby) a.has_lock
            (λ _. other refl (release_dev_lock-unlocked a.device w)) (λ l. lockless l))

    -- If no other thread takes or loses the lock while the kernel is told of a state: a transition always
    -- ends. If it succeeds, the group has the new state and status and, where there is a lock, it is held
    -- for OPTIMIZED and not held for STANDBY, the only other state granted; if it fails, the group is as it
    -- was.
    pub explicit_transition-Ends :
        (groups : List Grp) (pos : ℕ) (g : Grp) (new status : ℕ) (w : World S)
        → get_elem? groups pos ≡ some g
        → Ends a pos g new status (explicit_transition a groups pos g new status w)
    unfolding explicit_transition
    explicit_transition-Ends groups pos g new status w h =
        if_ind (Ends a pos g new status) (not (check_sup_state new g.supported_states))
          (λ _. refused)
          (λ _.
            if_ind (Ends a pos g new status) (new == optimized)
              (λ q. at optimized q (optimized-Ends groups pos g status w h))
              (λ _.
                if_ind (Ends a pos g new status) (new == standby)
                  (λ q. at standby q (standby-Ends groups pos g status w h)) (λ _. refused)))
      where
        refused : Ends a pos g new status (some (invalid_param_list, groups, w))
        refused = (invalid_param_list, groups, w, refl, denied refl h)

        at :
            (n : ℕ) {o : Option (Status × List Grp × World S)}
            → new == n ≡ true
            → Ends a pos g n status o
            → Ends a pos g new status o
        at n {o} q t = subst (λ k. Ends a pos g k status o) (sym ((==_iff new n).0 q)) t
