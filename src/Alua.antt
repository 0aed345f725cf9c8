-- ===== src/Alua.antt =====
-- Asymmetric access to the logical unit, alua.c: the states of the target port groups and the lock.
-- A group's list of ports is part of the group, so that `port->grp` is the group it stands in; a pointer
-- to a group is its position in the list.
pub mod Grant
pub mod Sync
pub mod Report
pub mod Threads
mod Tests
use tcmu_runner.Prelude.{
  ℕ, zero, suc, ◌+◌, ◌-◌, ◌*◌, ◌/◌, ◌%◌, ◌^◌, Bool, true, false, not, ◌&&◌, List, [], ◌∷◌, ◌++◌,
  Option, none, some, length, get_elem?, set, drop, replicate, ltb, ◌==◌, if◌then◌else◌,
}
use tcmu_runner.Status.{
  Status, ok, busy, fenced, hw_err, invalid_cmd, invalid_cdb, invalid_param_list,
  invalid_param_list_len, impl_transition_err, expl_transition_err, is_ok, is_hw_err,
  is_no_lock_holders,
}
use tcmu_runner.Cdb.{
  byte, put_unaligned_be16, put_unaligned_be32, get_unaligned_be16, cdb_get_xfer_length,
}
use tcmu_runner.Iovec.{Iovec, memcpy_into_iovec, memcpy_from_iovec}
use tcmu_runner.Device.{
  Failover, all_active, implicit, explicit, LockState, unlocked, locked, locking, World, Calls,
  is_locked, is_locking, set_dev, acquire_dev_lock, release_dev_lock, get_lock_tag,
  update_dev_lock_state,
}

-- The part of `struct tgt_port` that is used.
pub record Port : Type 0 where
  pub rel_port_id : ℕ
  pub enabled : Bool

-- `struct alua_grp`
pub record Grp : Type 0 where
  pub state : ℕ
  pub supported_states : ℕ
  pub status : ℕ
  pub implicit_trans_secs : ℕ
  pub pref : Bool
  pub id : ℕ
  pub num_tgt_ports : ℕ
  pub tgt_ports : List Port

-- `ALUA_ACCESS_STATE_*`
abbrev pub optimized : ℕ
optimized = 0

abbrev pub non_optimized : ℕ
non_optimized = 1

abbrev pub standby : ℕ
standby = 2

abbrev pub unavailable : ℕ
unavailable = 3

-- `ALUA_STAT_ALTERED_BY_*`
abbrev pub by_explicit_stpg : ℕ
by_explicit_stpg = 1

abbrev pub by_implicit_alua : ℕ
by_implicit_alua = 2

-- `TCMU_INVALID_LOCK_TAG`, of 16 bits.
abbrev pub invalid_lock_tag : ℕ
invalid_lock_tag = 65535

pub data Setting : Type 0 where
  alua_access_state alua_access_status : Setting

-- What alua.c calls besides the functions of the device. `set_int` is `tcmu_set_alua_int_setting` of the
-- group with an id, true for a result of 0; other threads may run meanwhile. `create` is `pthread_create`
-- of the thread that takes the lock. The handler may have no `lock` and no `get_lock_tag`.
pub record Alua (S : Type 0) : Type 0 where
  pub device : Calls S
  pub set_int : ℕ → Setting → ℕ → World S → Bool × World S
  pub create : S → Bool × S
  pub has_lock : Bool
  pub has_get_lock_tag : Bool

abbrev enabled_of : List Port → Option Port
enabled_of [] = none
enabled_of (p ∷ ps) = if p.enabled then some p else enabled_of ps

-- `tcmu_get_enabled_port`: the position of its group, the group and the port. `at` is the position of the
-- first group.
unfoldable pub get_enabled_port : ℕ → List Grp → Option (ℕ × Grp)
get_enabled_port at [] = none
get_enabled_port at (g ∷ gs) = elim (enabled_of g.tgt_ports) [
  | none ↦ get_enabled_port (suc at) gs
  | some _ ↦ some (at, g)
]

-- `alua_check_sup_state`
unfoldable pub check_sup_state : ℕ → ℕ → Bool
check_sup_state state sup =
    if state == optimized
    then sup % 2 == 1
    else if state == non_optimized
    then sup / 2 % 2 == 1
    else if state == standby
    then sup / 4 % 2 == 1
    else if state == unavailable
    then sup / 8 % 2 == 1
    else false

-- The state that a lock holder's tag gives a group, and the lock that another node took from us.
abbrev pub tag_state : ℕ → Grp → ℕ
tag_state tag g = if tag == g.id then optimized else standby

abbrev pub drop_lock : {S : Type 0} → ℕ → ℕ → Grp → World S → World S
drop_lock tag enabled_id g w =
    if not (tag == g.id) && enabled_id == g.id && is_locked w.dev.lock_state
    then set_dev w (record w.dev { lock_state = unlocked })
    else w

module _ {S : Type 0} (a : Alua S) where
  -- `alua_set_state`
  unfoldable pub set_state : Grp → ℕ → ℕ → World S → Status × Grp × World S
  set_state g new_state alua_status w =
      let (done, w1) = a.set_int g.id alua_access_state new_state w in
      if not done
      then (expl_transition_err, g, w1)
      else let w2 = (a.set_int g.id alua_access_status alua_status w1).1 in
        (ok, record g { state = new_state; status = alua_status }, w2)

  -- A round of the loop of `alua_sync_state`.
  unfoldable pub sync_one : ℕ → ℕ → Grp → World S → Status × Grp × World S
  sync_one tag enabled_id g w =
      let w1 = drop_lock tag enabled_id g w in
      if tag_state tag g == g.state
      then (ok, g, w1)
      else set_state g (tag_state tag g) by_implicit_alua w1

  unfoldable pub sync_groups : ℕ → ℕ → List Grp → World S → List Grp × World S
  sync_groups tag enabled_id [] w = ([], w)
  sync_groups tag enabled_id (g ∷ gs) w =
      let (_, g', w1) = sync_one tag enabled_id g w in
      let (gs', w2) = sync_groups tag enabled_id gs w1 in (g' ∷ gs', w2)

  -- The loop and the result after it.
  abbrev pub synced : ℕ → ℕ → List Grp → World S → Status × List Grp × World S
  synced tag enabled_id groups w =
      let (gs, w') = sync_groups tag enabled_id groups w in (ok, gs, w')

  -- What `alua_sync_state` does with the result of the read of the tag.
  unfoldable pub tagged : ℕ → List Grp → Status → ℕ → World S → Option (Status × List Grp × World S)
  tagged enabled_id groups r tag w =
      if is_no_lock_holders r
      then some (synced invalid_lock_tag enabled_id groups w)
      else if not (is_ok r)
      then some (r, groups, w)
      else some (synced tag enabled_id groups w)

  -- `alua_sync_state` with explicit failover. `none` is inherited from the calls of the device.
  unfoldable pub sync_tag : List Grp → ℕ → World S → Option (Status × List Grp × World S)
  sync_tag groups enabled_id w =
      if not a.has_get_lock_tag then some (ok, groups, w) else elim (get_lock_tag a.device 0 w) [
        | none ↦ none
        | some (r, tag, w1) ↦ tagged enabled_id groups r tag w1
      ]

  -- `alua_sync_state`
  unfoldable pub sync_state : List Grp → ℕ → World S → Option (Status × List Grp × World S)
  sync_state groups enabled_id w = elim w.dev.failover_type [
    | implicit ↦ some (ok, groups, update_dev_lock_state a.device w)
    | explicit ↦ sync_tag groups enabled_id w
    | all_active ↦ some (ok, groups, w)
  ]

  -- `alua_implicit_transition`
  unfoldable pub implicit_transition : World S → Status × World S
  implicit_transition w = if not a.has_lock then (ok, w) else elim w.dev.lock_state [
    | locked ↦ (ok, w)
    | locking ↦ (busy, w)
    | _ ↦
        let (created, rest) = a.create w.rest in
        if created
        then (busy, record { dev = record w.dev { lock_state = locking }; rest = rest })
        else (
          impl_transition_err,
          record { dev = record w.dev { lock_state = unlocked }; rest = rest },
        )
  ]

  -- `alua_check_state`
  unfoldable pub check_state : World S → Status × World S
  check_state w = elim w.dev.failover_type [
    | explicit ↦ if is_locked w.dev.lock_state then (ok, w) else (fenced, w)
    | implicit ↦ implicit_transition w
    | all_active ↦ (ok, w)
  ]

  -- Every group but the one at a position goes to standby, whatever the kernel answers; `at` is the
  -- position of the first group.
  unfoldable pub others_to_standby : ℕ → ℕ → ℕ → List Grp → World S → List Grp × World S
  others_to_standby pos at alua_status [] w = ([], w)
  others_to_standby pos at alua_status (g ∷ gs) w =
      let (_, g', w1) = if pos == at then (ok, g, w) else set_state g standby alua_status w in
      let (gs', w2) = others_to_standby pos (suc at) alua_status gs w1 in (g' ∷ gs', w2)

  -- The end of `tcmu_explicit_transition`: the group itself.
  abbrev pub set_own : ℕ → Grp → ℕ → ℕ → List Grp → World S → Status × List Grp × World S
  set_own pos g new_state alua_status groups w =
      let (r, g', w') = set_state g new_state alua_status w in (r, set groups pos g', w')

  -- The case of OPTIMIZED of `tcmu_explicit_transition` where the lock is required.
  unfoldable pub with_lock : List Grp → ℕ → Grp → ℕ → World S → Option (Status × List Grp × World S)
  with_lock groups pos g alua_status w = elim (acquire_dev_lock a.device g.id w) [
    | none ↦ none
    | some (r, w1) ↦
        if is_hw_err r
        then some (expl_transition_err, groups, w1)
        else if not (is_ok r)
        then some (busy, groups, w1)
        else let (gs, w2) = others_to_standby pos 0 alua_status groups w1 in
          some (set_own pos g optimized alua_status gs w2)
  ]

  -- `tcmu_explicit_transition` of the group `g` at a position.
  unfoldable pub explicit_transition :
      List Grp → ℕ → Grp → ℕ → ℕ → World S → Option (Status × List Grp × World S)
  explicit_transition groups pos g new_state alua_status w =
      if not (check_sup_state new_state g.supported_states)
      then some (invalid_param_list, groups, w)
      else if new_state == optimized
      then if a.has_lock
        then with_lock groups pos g alua_status w
        else some (set_own pos g optimized alua_status groups w)
      else if new_state == standby
      then some (
          set_own pos g standby alua_status groups
            (if a.has_lock then release_dev_lock a.device w else w))
      else some (invalid_param_list, groups, w)

  -- The search for the group of an id from a position on.
  unfoldable pub find_group : ℕ → ℕ → List Grp → Option (ℕ × Grp)
  find_group id at [] = none
  find_group id at (g ∷ gs) = if g.id == id then some (at, g) else find_group id (suc at) gs

  -- One descriptor of SET TARGET PORT GROUPS; `own` is the position of the group of the enabled port.
  unfoldable pub set_one : ℕ → ℕ → ℕ → List Grp → World S → Option (Status × List Grp × World S)
  set_one own new_state id groups w = elim (find_group id 0 groups) [
    | none ↦ some (expl_transition_err, groups, w)
    | some (pos, g) ↦
        if pos == own
        then explicit_transition groups pos g new_state by_explicit_stpg w
        else some (hw_err, groups, w)
  ]

  -- The loop over the descriptors. With fewer than four bytes left the code reads past the end of its
  -- buffer: `none`.
  unfoldable pub set_loop : ℕ → List ℕ → List Grp → World S → Option (Status × List Grp × World S)
  set_loop own [] groups w = some (ok, groups, w)
  set_loop own (b0 ∷ b1 ∷ b2 ∷ b3 ∷ bs) groups w =
      elim (set_one own (b0 % 16) (b2 * 256 + b3) groups w) [
        | none ↦ none
        | some (r, groups', w') ↦ elim (is_ok r) [
          | true ↦ set_loop own bs groups' w'
          | false ↦ some (r, groups', w')
        ]
      ]
  set_loop own _ groups w = none

  -- `tcmu_emulate_set_tgt_port_grps`, if the memory for the parameters can be had; the vector of the
  -- command is consumed.
  unfoldable pub set_tgt_port_grps :
      List ℕ → List Iovec → List Grp → World S → Option (Status × List Grp × World S)
  set_tgt_port_grps cdb iovec groups w = elim (get_enabled_port 0 groups) [
    | none ↦ some (invalid_cmd, groups, w)
    | some (own, _) ↦
        let param_list_len = cdb_get_xfer_length cdb in
        if param_list_len == 0
        then some (ok, groups, w)
        else let (n, buf, _) = memcpy_from_iovec param_list_len iovec in
          if not (n == param_list_len)
          then some (invalid_param_list_len, groups, w)
          else set_loop own (drop 4 buf) groups w
  ]

-- The first byte of a group's descriptor: the state, with the highest bit for a preferred group.
abbrev pub first_byte : Grp → ℕ
first_byte g =
    if g.pref then (if g.state / 128 % 2 == 1 then g.state else 128 + g.state) else g.state

unfoldable pub port_bytes : List Port → List ℕ
port_bytes [] = []
port_bytes (p ∷ ps) = 0 ∷ 0 ∷ (p.rel_port_id / 256 % 256) ∷ (p.rel_port_id % 256) ∷ port_bytes ps

-- A group's descriptor.
unfoldable pub group_bytes : Grp → List ℕ
unfolding port_bytes
group_bytes g =
    first_byte g
    ∷ g.supported_states
    ∷ (g.id / 256 % 256)
    ∷ (g.id % 256)
    ∷ 0
    ∷ g.status
    ∷ 0
    ∷ g.num_tgt_ports
    ∷ port_bytes g.tgt_ports

-- `implicit_trans_secs` of the first group.
abbrev first_secs : List Grp → ℕ
first_secs [] = 0
first_secs (g ∷ _) = g.implicit_trans_secs

-- The loop of `tcmu_emulate_report_tgt_port_grps`: what it writes from `off` on, and `ret_data_len`.
unfoldable pub report_groups : ℕ → ℕ → ℕ → List Grp → List ℕ × ℕ
report_groups alloc_len off ret [] = ([], ret)
report_groups alloc_len off ret (g ∷ gs) =
    let size = 8 + g.num_tgt_ports * 4 in
    let skipped = report_groups alloc_len off ((ret + size) % 2 ^ 32) gs in
    let written = 8 + length g.tgt_ports * 4 in
    let (bytes, n) = report_groups alloc_len (off + written) ((ret + written) % 2 ^ 32) gs in
    if ltb alloc_len ((off + size) % 2 ^ 32) then skipped else (group_bytes g ++ bytes, n)

-- The extended header.
abbrev pub report_header : Bool → ℕ → ℕ → List ℕ
report_header ext_hdr alloc_len secs =
    if ext_hdr && ltb 5 alloc_len then 16 ∷ secs ∷ 0 ∷ 0 ∷ [] else []

-- The reported bytes: the length, the extended header, the groups; the rest of the buffer is 0.
unfoldable pub report_bytes : Bool → ℕ → ℕ → List Grp → List ℕ
report_bytes ext_hdr alloc_len secs gs =
    let header = report_header ext_hdr alloc_len secs in
    let (bytes, n) = report_groups alloc_len (4 + length header) 0 gs in
    put_unaligned_be32 n ++ header ++ bytes

module _ {S : Type 0} (a : Alua S) where
  -- `tcmu_emulate_report_tgt_port_grps`, if the memory for the buffer can be had.
  unfoldable pub report_tgt_port_grps :
      List ℕ → List Iovec → List Grp → World S → Option (Status × List Iovec × List Grp × World S)
  report_tgt_port_grps cdb iovec groups w = elim (get_enabled_port 0 groups) [
    | none ↦ some (invalid_cmd, iovec, groups, w)
    | some (_, own) ↦
        let alloc_len = cdb_get_xfer_length cdb in
        if ltb alloc_len 4
        then some (invalid_cdb, iovec, groups, w)
        else elim (sync_state a groups own.id w) [
          | none ↦ none
          | some (r, gs, w1) ↦
              if not (is_ok r)
              then some (r, iovec, gs, w1)
              else let bytes =
                  report_bytes (byte cdb 1 / 32 % 2 == 1) alloc_len (first_secs groups) gs in
                let buf = bytes ++ replicate (alloc_len - length bytes) 0 in
                some (ok, (memcpy_into_iovec iovec buf alloc_len).1, gs, w1)
        ]
  ]
