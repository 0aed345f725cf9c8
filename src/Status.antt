-- ===== src/Status.antt =====
-- The return codes of libtcmu_common.h, with the negative errno values that the same functions return.
use tcmu_runner.Prelude.{ℕ, Bool, true, false}

pub data Status : Type 0 where
  async_handled : Status
  not_handled : Status
  ok : Status
  no_resource : Status
  passthrough_err : Status
  busy : Status
  wr_err : Status
  rd_err : Status
  miscompare : Status
  invalid_cmd : Status
  invalid_cdb : Status
  invalid_param_list : Status
  invalid_param_list_len : Status
  timeout : Status
  fenced : Status
  hw_err : Status
  range : Status
  frmt_in_progress : Status
  capacity_changed : Status
  notsupp_save_params : Status
  wr_err_incompat_frmt : Status
  transition : Status
  impl_transition_err : Status
  expl_transition_err : Status
  no_lock_holders : Status
  notsupp_seg_desc_type : Status
  notsupp_tgt_desc_type : Status
  cp_tgt_dev_notconn : Status
  invalid_cp_tgt_dev_type : Status
  too_many_seg_desc : Status
  too_many_tgt_desc : Status
  -- -EIO is `errno 5`.
  errno : ℕ → Status

abbrev pub is_ok : Status → Bool
is_ok s = elim s [ ok ↦ true | _ ↦ false ]

abbrev pub is_fenced : Status → Bool
is_fenced s = elim s [ fenced ↦ true | _ ↦ false ]

abbrev pub is_timeout : Status → Bool
is_timeout s = elim s [ timeout ↦ true | _ ↦ false ]

abbrev pub is_hw_err : Status → Bool
is_hw_err s = elim s [ hw_err ↦ true | _ ↦ false ]

abbrev pub is_no_lock_holders : Status → Bool
is_no_lock_holders s = elim s [ no_lock_holders ↦ true | _ ↦ false ]
