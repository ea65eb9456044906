-- ===== src/Types/Args.antt =====
-- src/types.h and src/utils.h: the types of arguments, which user space knows under the same
-- numbers, and the description of one argument. No BPF program reads these.
use stackplz.Base.{ℕ, List}

-- `enum arg_type_e`, from 0 on
pub data ArgType : Type 0 where
  type_none type_num type_exp_int type_int type_uint : ArgType
  type_int8 type_int16 type_uint8 type_uint16 type_int32 type_uint32 type_int64 type_uint64 :
      ArgType
  type_string type_string_arr type_pointer type_struct type_timespec type_stat type_statfs : ArgType
  type_sigaction type_utsname type_sockaddr type_rusage type_iovec type_epollevent : ArgType
  type_sigset type_pollfd type_sysinfo type_siginfo type_msghdr type_itimerspec : ArgType
  type_stack_t type_timeval type_timezone type_pthread_attr type_array : ArgType
  type_array_int32 type_array_uint32 type_buffer : ArgType

-- `enum point_flag_e`, from 0 on
pub data PointFlag : Type 0 where
  forbidden sys_enter_exit sys_enter_only sys_exit_only uprobe_enter_read : PointFlag

-- `filter_idx` has MAX_FILTER_COUNT entries.
pub record PointArg : Type 0 where
  pub point_flag : ℕ
  pub filter_idx : List ℕ
  pub read_index : ℕ
  pub read_offset : ℕ
  pub base_type : ℕ
  pub alias_type : ℕ
  pub read_count : ℕ
  pub item_persize : ℕ
  pub item_countindex : ℕ
  pub tmp_index : ℕ
