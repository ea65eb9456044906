-- ===== src/Tests.antt =====
-- Concrete states for the examples in the child modules: a task of process 70 whose memory is
-- all zeros, but for strings, which are "ab".
pub mod Saving
pub mod Reading
pub mod Handlers
pub mod Skipping
pub mod Calls
pub mod Tracking
pub mod Decoding
pub mod Received
pub mod Compiling
pub mod Fields
pub mod Sending
pub mod Rejecting
pub mod Returning
pub mod Probing
pub mod Configuring
use stackplz.Base.{
  ℕ, true, false, ◌+◌, Option, none, some, List, [], ◌∷◌, ◌==◌, if◌then◌else◌, take, replicate,
  length-take, length-replicate, arith, ◌≤◌,
}
use stackplz.Types.{
  EventContext, EventData, OpCtx, CommonFilter, ConfigEntry, OpConfig, PointArgs, ArgFilter, OpCode,
  op_save_string, op_skip, op_save_addr, op_value,
}
use stackplz.Kernel.{Kernel, IsKernel, Config, Target, copied, Source, FitsIn}
use stackplz.ReadArgs.State.{Strs, Reader}
use stackplz.Programs.World.{World, Host, PtRegs}

abbrev pub zeros : Source
zeros n = copied (replicate n 0)

abbrev pub ab : Source
ab n = copied (take n (b'a' ∷ b'b' ∷ 0 ∷ []))

abbrev pub kernel : Kernel
kernel = record {
  probe_read = λ a. zeros;
  probe_read_user = λ a. zeros;
  probe_read_str = λ a. ab;
  probe_read_user_str = λ a. ab;
  pid_tgid = 70;
  str_buf_gen = some (replicate 256 0);
  str_buf_room = λ m key. true;
  str_buf_lru = λ m id v j. if j == id then some v else m j;
}

pub kernel-IsKernel : IsKernel kernel
kernel-IsKernel = record {
  read_fills = λ a n. length-replicate n 0;
  read_user_fills = λ a n. length-replicate n 0;
  read_str_fits = λ a n. ab_fits n;
  read_user_str_fits = λ a n. ab_fits n;
}
  where
    ab_fits : FitsIn ab
    ab_fits n = omega (arith, length-take {A = ℕ} n (b'a' ∷ b'b' ∷ 0 ∷ []))

abbrev pub target : Target
target = record { is_arm = false; max_op_count = 4 }

-- entry 0 of the program: save the address, then the string
abbrev pub save_both : OpConfig
save_both = record { code = 257; pre_code = 0; post_code = 261; value = 0 }

abbrev pub point : PointArgs
point = record { enter_key = 0; signal = 19; op_count = 1; op_key_list = 1 ∷ 2 ∷ 0 ∷ 0 ∷ [] }

-- user 2000 is traced by its group, and call 56 has arguments
abbrev pub config : Config
config = record {
  op_list = λ key. if key == 2 then none else some save_both;
  arg_filter = λ key. none;
  common_list = λ key. none;
  thread_filter = λ name. none;
  common_filter =
      some (record { is_32bit = 0; trace_mode = 1; trace_uid_group = 8; signal = 0; tsignal = 0 });
  base_config = some (record { stackplz_pid = 1; thread_whitelist = 0 });
  sysenter_point_args = λ nr. if nr == 56 then some point else none;
  sysexit_point_args = λ nr. if nr == 56 then some point else none;
  uprobe_point_args = λ key. some point;
  uretprobe_point_args = λ key. some point;
}

abbrev pub blank_context : EventContext
blank_context = record {
  ts = 0;
  eventid = 0;
  host_tid = 70;
  host_pid = 70;
  tid = 70;
  pid = 70;
  uid = 2000;
  comm = replicate 16 0;
  argnum = 0;
  padding = replicate 7 0;
}

abbrev pub blank : EventData
blank = record { context = blank_context; args = λ i. 0; buf_off = 0; task = 1 }

abbrev pub blank_op : OpCtx
blank_op = record {
  save_index = 4;
  reg_index = 0;
  loop_count = 0;
  break_count = 0;
  apply_filter = 0;
  skip_flag = 0;
  match_whitelist = 0;
  match_blacklist = 0;
  loop_index = 0;
  op_key_index = 0;
  op_code = 0;
  post_code = 0;
  str_len = 3;
  read_len = 0;
  read_addr = 0;
  reg_value = 0;
  pointer_value = 0;
  tmp_value = 0;
  reg_0 = 0;
}

abbrev pub no_strs : Strs
no_strs = record { str_buf = λ key. none; str_buf_map = λ id. none }

abbrev pub reader : Reader
reader = record { event = blank; op = blank_op; strs = no_strs }

abbrev pub world : World
world = record {
  event_data_map = some blank;
  op_ctx_map = λ i. some blank_op;
  ctx_regs_map = λ id. none;
  child_parent_map = λ id. if id == 70 then some 70 else none;
  strs = no_strs;
  out = [];
}

abbrev pub interrupted : PtRegs
interrupted = record { regs = replicate 31 5; sp = 6; pc = 7; syscallno = 56 }

-- Task `t` has the process id `69 + t`; the current one is task 1.
abbrev pub host : Host
host = record {
  pid_tgid = 70;
  uid_gid = 2000;
  ktime_ns = 9;
  comm = some (replicate 16 0);
  current_task = 1;
  task_flags = λ t. 0;
  thread_pid = λ t. t;
  level = λ p. 0;
  numbers_nr = λ p l. 69 + p;
  group_leader = λ t. t;
  regs_room = λ m key. true;
  forks_room = λ m key. true;
}
