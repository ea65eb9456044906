-- ===== src/Types/Records.antt =====
-- The structures of src/types.h.
use stackplz.Base.{ℕ, List, Mem}

pub record CommonFilter : Type 0 where
  pub is_32bit : ℕ
  pub trace_mode : ℕ
  pub trace_uid_group : ℕ
  pub signal : ℕ
  pub tsignal : ℕ

-- `regs` has 31 entries.
pub record CtxRegs : Type 0 where
  pub regs : List ℕ
  pub sp : ℕ
  pub pc : ℕ
  pub flag : ℕ

-- `str_val` has 256 bytes.
pub record ArgFilter : Type 0 where
  pub filter_type : ℕ
  pub str_val : List ℕ
  pub str_len : ℕ
  pub num_val : ℕ

pub record ConfigEntry : Type 0 where
  pub stackplz_pid : ℕ
  pub thread_whitelist : ℕ

-- The registers of the argument reader; they live in a per-CPU map between its runs.
pub record OpCtx : Type 0 where
  pub save_index : ℕ
  pub reg_index : ℕ
  pub loop_count : ℕ
  pub break_count : ℕ
  pub apply_filter : ℕ
  pub skip_flag : ℕ
  pub match_whitelist : ℕ
  pub match_blacklist : ℕ
  pub loop_index : ℕ
  pub op_key_index : ℕ
  pub op_code : ℕ
  pub post_code : ℕ
  pub str_len : ℕ
  pub read_len : ℕ
  pub read_addr : ℕ
  pub reg_value : ℕ
  pub pointer_value : ℕ
  pub tmp_value : ℕ
  pub reg_0 : ℕ

pub record OpConfig : Type 0 where
  pub code : ℕ
  pub pre_code : ℕ
  pub post_code : ℕ
  pub value : ℕ

-- `op_key_list` has MAX_OP_COUNT entries.
pub record PointArgs : Type 0 where
  pub enter_key : ℕ
  pub signal : ℕ
  pub op_count : ℕ
  pub op_key_list : List ℕ

-- `comm` has TASK_COMM_LEN bytes and `padding` seven.
pub record EventContext : Type 0 where
  pub ts : ℕ
  pub eventid : ℕ
  pub host_tid : ℕ
  pub host_pid : ℕ
  pub tid : ℕ
  pub pid : ℕ
  pub uid : ℕ
  pub comm : List ℕ
  pub argnum : ℕ
  pub padding : List ℕ

-- The record that is submitted: its context, then `buf_off` bytes of `args`, an array of
-- ARGS_BUF_SIZE bytes. `task` is a kernel address.
pub record EventData : Type 0 where
  pub context : EventContext
  pub args : Mem
  pub buf_off : ℕ
  pub task : ℕ
