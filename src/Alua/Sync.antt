-- ===== src/Alua/Sync.antt =====
-- `alua_sync_state` brings the states of the groups in line with the tag of the lock.
use tcmu_runner.Prelude.{
  ℕ, ◌≡◌, refl, sym, ap, subst, ◌∙◌, true, false, not, ◌⊎◌, inl, inr, List, [], ◌∷◌, map, Option,
  some, ◌==◌, arith, Bool-cases, if_ind, ==_iff,
}
use tcmu_runner.Status.{Status, ok, is_ok, is_no_lock_holders}
use tcmu_runner.Device.{
  all_active, implicit, explicit, World, is_locked, update_dev_lock_state, get_lock_tag,
}
use tcmu_runner.Device.Locking.{get_lock_tag-Reads}
use tcmu_runner.Alua.{
  Grp, Alua, Setting, alua_access_state, by_implicit_alua, invalid_lock_tag, set_state, tag_state,
  drop_lock, sync_one, sync_groups, tagged, sync_tag, sync_state,
}
use tcmu_runner.Alua.Grant.{Undisturbed, set_state-lock}

-- A group has an id.
pub data Has (id : ℕ) : List Grp → Type 0 where
  here : {g : Grp} {gs : List Grp} → g.id ≡ id → Has id (g ∷ gs)
  there : {g : Grp} {gs : List Grp} → Has id gs → Has id (g ∷ gs)

module _ {S : Type 0} where
  -- The kernel takes every state that it is told.
  abbrev pub Accepting : Alua S → Type 0
  Accepting a = (id : ℕ) (s : Setting) (v : ℕ) (w : World S) → (a.set_int id s v w).0 ≡ true

  module _ (a : Alua S) where
    accepted-state :
        Accepting a
        → (g : Grp) (n status : ℕ) (w : World S) → (set_state a g n status w).1.state ≡ n
    unfolding set_state
    accepted-state accepting g n status w =
        rw (set_state, accepting g.id alua_access_state n w) refl

    sync_one-state :
        Accepting a
        → (tag enabled_id : ℕ) (g : Grp) (w : World S)
        → (sync_one a tag enabled_id g w).1.state ≡ tag_state tag g
    unfolding sync_one
    sync_one-state accepting tag enabled_id g w =
        if_ind (λ (r : Status × Grp × World S). r.1.state ≡ tag_state tag g)
          (tag_state tag g == g.state) (λ q. sym ((==_iff (tag_state tag g) g.state).0 q))
          (λ _.
            accepted-state accepting g (tag_state tag g) by_implicit_alua
              (drop_lock tag enabled_id g w))

    sync_groups-states :
        Accepting a
        → (tag enabled_id : ℕ) (gs : List Grp) (w : World S)
        → map (λ g. g.state) (sync_groups a tag enabled_id gs w).0 ≡ map (tag_state tag) gs
    unfolding sync_groups
    sync_groups-states accepting tag enabled_id [] w = refl
    sync_groups-states accepting tag enabled_id (g ∷ gs) w = cc (
      sync_one-state accepting tag enabled_id g w,
      sync_groups-states accepting tag enabled_id gs (sync_one a tag enabled_id g w).2,
    )

    module _ (still : Undisturbed a) where
      drop_lock-none :
          (tag enabled_id : ℕ) (g : Grp) (w : World S)
          → is_locked w.dev.lock_state ≡ false
          → is_locked (drop_lock tag enabled_id g w).dev.lock_state ≡ false
      drop_lock-none tag enabled_id g w h = ground arith

      drop_lock-drops :
          (tag enabled_id : ℕ) (g : Grp) (w : World S)
          → (tag == g.id) ≡ false
          → (enabled_id == g.id) ≡ true
          → is_locked (drop_lock tag enabled_id g w).dev.lock_state ≡ false
      drop_lock-drops tag enabled_id g w h h' = ground arith

      sync_one-lock :
          (tag enabled_id : ℕ) (g : Grp) (w : World S)
          → is_locked (drop_lock tag enabled_id g w).dev.lock_state ≡ false
          → is_locked (sync_one a tag enabled_id g w).2.dev.lock_state ≡ false
      unfolding sync_one
      sync_one-lock tag enabled_id g w h =
          if_ind (λ (r : Status × Grp × World S). is_locked r.2.dev.lock_state ≡ false)
            (tag_state tag g == g.state) (λ _. h)
            (λ _.
              ap is_locked (
                set_state-lock a still g (tag_state tag g) by_implicit_alua
                  (drop_lock tag enabled_id g w))
              ∙ h)

      sync_groups-none :
          (tag enabled_id : ℕ) (gs : List Grp) (w : World S)
          → is_locked w.dev.lock_state ≡ false
          → is_locked (sync_groups a tag enabled_id gs w).1.dev.lock_state ≡ false
      unfolding sync_groups
      sync_groups-none tag enabled_id [] w h = h
      sync_groups-none tag enabled_id (g ∷ gs) w h =
          sync_groups-none tag enabled_id gs (sync_one a tag enabled_id g w).2
            (sync_one-lock tag enabled_id g w (drop_lock-none tag enabled_id g w h))

      -- The group of the enabled port is there, and the tag is not its own.
      sync_groups-drops :
          (tag enabled_id : ℕ) (gs : List Grp) (w : World S)
          → Has enabled_id gs
          → (tag == enabled_id) ≡ false
          → is_locked (sync_groups a tag enabled_id gs w).1.dev.lock_state ≡ false
      unfolding sync_groups
      sync_groups-drops tag enabled_id [] w h n = elim h [ ]
      sync_groups-drops tag enabled_id (g ∷ gs) w (here e) n =
          sync_groups-none tag enabled_id gs (sync_one a tag enabled_id g w).2 (
            sync_one-lock tag enabled_id g w (
              drop_lock-drops tag enabled_id g w (subst (λ i. (tag == i) ≡ false) (sym e) n)
                ((==_iff enabled_id g.id).1 (sym e))))
      sync_groups-drops tag enabled_id (g ∷ gs) w (there h) n =
          sync_groups-drops tag enabled_id gs (sync_one a tag enabled_id g w).2 h n

      tag_lock :
          (tag enabled_id : ℕ) (gs : List Grp) (w : World S)
          → Has enabled_id gs
          → (tag ≡ enabled_id)
            ⊎ (is_locked (sync_groups a tag enabled_id gs w).1.dev.lock_state ≡ false)
      tag_lock tag enabled_id gs w h = elim (Bool-cases (tag == enabled_id)) [
        | inl q ↦ inl ((==_iff tag enabled_id).0 q)
        | inr q ↦ inr (sync_groups-drops tag enabled_id gs w h q)
      ]

  -- How a synchronisation with explicit failover ends.
  -- `read` and `read_tag` are what the read of the tag gave.
  pub data Synced (enabled_id : ℕ) (groups : List Grp) (read : Status) (read_tag : ℕ)
      : Status → List Grp → World S → Type 0 where
    in_line :
        {gs : List Grp} {w : World S}
        → is_ok read ≡ true
        → map (λ g. g.state) gs ≡ map (tag_state read_tag) groups
        → (read_tag ≡ enabled_id) ⊎ (is_locked w.dev.lock_state ≡ false)
        → Synced enabled_id groups read read_tag ok gs w
    no_holder :
        {gs : List Grp} {w : World S}
        → is_no_lock_holders read ≡ true
        → map (λ g. g.state) gs ≡ map (tag_state invalid_lock_tag) groups
        → (invalid_lock_tag ≡ enabled_id) ⊎ (is_locked w.dev.lock_state ≡ false)
        → Synced enabled_id groups read read_tag ok gs w
    unread :
        {w : World S}
        → is_ok read ≡ false
        → is_no_lock_holders read ≡ false
        → Synced enabled_id groups read read_tag read groups w

  -- A synchronisation after a read of the tag.
  abbrev pub Settles : ℕ → List Grp → Status → ℕ → Option (Status × List Grp × World S) → Type 0
  Settles enabled_id groups read read_tag o =
      (r : Status) × (gs : List Grp) × (w : World S) × (o ≡ some (r, gs, w))
      × Synced enabled_id groups read read_tag r gs w

  -- The same from the start: `get_lock_tag` ends, and the synchronisation follows what it gave.
  abbrev pub Syncs : Alua S → ℕ → List Grp → World S → Option (Status × List Grp × World S) → Type 0
  Syncs a enabled_id groups w o =
      (read : Status) × (read_tag : ℕ) × (w1 : World S) × (get_lock_tag a.device 0 w
        ≡ some (read, read_tag, w1))
      × Settles enabled_id groups read read_tag o

  module _ (a : Alua S) (accepting : Accepting a) (still : Undisturbed a) where
    tagged-Settles :
        (enabled_id : ℕ) (gs : List Grp) (r : Status) (tag : ℕ) (w : World S)
        → Has enabled_id gs
        → Settles enabled_id gs r tag (tagged a enabled_id gs r tag w)
    unfolding tagged
    tagged-Settles enabled_id gs r tag w h =
        if_ind (Settles enabled_id gs r tag) (is_no_lock_holders r)
          (λ n. (
            ok,
            (sync_groups a invalid_lock_tag enabled_id gs w).0,
            (sync_groups a invalid_lock_tag enabled_id gs w).1,
            refl,
            no_holder n (sync_groups-states a accepting invalid_lock_tag enabled_id gs w)
                (tag_lock a still invalid_lock_tag enabled_id gs w h),
          ))
          (λ n.
            if_ind (Settles enabled_id gs r tag) (not (is_ok r))
              (λ q. (r, gs, w, refl, unread (ground (arith, q)) n))
              (λ q. (
                ok,
                (sync_groups a tag enabled_id gs w).0,
                (sync_groups a tag enabled_id gs w).1,
                refl,
                in_line (ground (arith, q)) (sync_groups-states a accepting tag enabled_id gs w)
                    (tag_lock a still tag enabled_id gs w h),
              )))

    tag-Syncs :
        (enabled_id : ℕ) (gs : List Grp) (w : World S)
        → a.has_get_lock_tag ≡ true
        → Has enabled_id gs
        → Syncs a enabled_id gs w (sync_tag a gs enabled_id w)
    unfolding sync_tag
    tag-Syncs enabled_id gs w tags h =
        let (r, tag, w1, q, _) = get_lock_tag-Reads a.device 0 w in
        (
          r,
          tag,
          w1,
          q,
          if_ind (Settles enabled_id gs r tag) (not a.has_get_lock_tag)
              (λ n. absurd (ground (arith, n, tags)))
              (λ _. rw q (tagged-Settles enabled_id gs r tag w1 h)),
        )

    -- With explicit failover and a handler that reads tags; if the enabled port's group is among the groups,
    -- the kernel takes every state it is told, and no other thread takes or loses the lock meanwhile: a
    -- synchronisation always ends, and its result follows what `get_lock_tag` gave. If that read a tag, it
    -- succeeds with the group of that id OPTIMIZED and all others STANDBY, and if the tag is not that of the
    -- enabled port's group, the lock is not held. If nobody holds the lock, the same holds of the tag that
    -- is no group's. On any other result it fails with that result and changes no group.
    pub sync_state-Syncs :
        (enabled_id : ℕ) (gs : List Grp) (w : World S)
        → w.dev.failover_type ≡ explicit
        → a.has_get_lock_tag ≡ true
        → Has enabled_id gs
        → Syncs a enabled_id gs w (sync_state a gs enabled_id w)
    unfolding sync_state
    sync_state-Syncs enabled_id gs w e tags h =
        subst
          (λ f. Syncs a enabled_id gs w (elim f [
            | implicit ↦ some (ok, gs, update_dev_lock_state a.device w)
            | explicit ↦ sync_tag a gs enabled_id w
            | all_active ↦ some (ok, gs, w)
          ]))
          (sym e) (tag-Syncs enabled_id gs w tags h)
