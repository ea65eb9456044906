-- ===== src/Types/Consts.antt =====
-- src/common/consts.h and the enumerations of src/types.h other than the operations.
use stackplz.Base.{ℕ, ◌+◌, ◌^◌}

-- consts.h
abbrev pub task_comm_len : ℕ
task_comm_len = 16

abbrev pub max_loop_count : ℕ
max_loop_count = 32

abbrev pub max_strcmp_len : ℕ
max_strcmp_len = 256

abbrev pub strarr_magic_len : ℕ
strarr_magic_len = 0xffff_0000

abbrev pub tif_32bit : ℕ
tif_32bit = 2 ^ 22

abbrev pub max_string_size : ℕ
max_string_size = 4096

abbrev pub max_bytes_arr_size : ℕ
max_bytes_arr_size = 4096

abbrev pub args_buf_size : ℕ
args_buf_size = 32000

abbrev pub sys_whitelist_start : ℕ
sys_whitelist_start = 0x400

abbrev pub sys_blacklist_start : ℕ
sys_blacklist_start = sys_whitelist_start + 0x400

abbrev pub uid_whitelist_start : ℕ
uid_whitelist_start = sys_blacklist_start + 0x400

abbrev pub uid_blacklist_start : ℕ
uid_blacklist_start = uid_whitelist_start + 0x400

abbrev pub pid_whitelist_start : ℕ
pid_whitelist_start = uid_blacklist_start + 0x400

abbrev pub pid_blacklist_start : ℕ
pid_blacklist_start = pid_whitelist_start + 0x400

abbrev pub tid_whitelist_start : ℕ
tid_whitelist_start = pid_blacklist_start + 0x400

abbrev pub tid_blacklist_start : ℕ
tid_blacklist_start = tid_whitelist_start + 0x400

abbrev pub thread_name_whitelist : ℕ
thread_name_whitelist = 1

abbrev pub thread_name_blacklist : ℕ
thread_name_blacklist = 2

abbrev pub trace_common : ℕ
trace_common = 0

-- `enum arg_filter_e`
abbrev pub equal_filter : ℕ
equal_filter = 1

abbrev pub greater_filter : ℕ
greater_filter = 2

abbrev pub less_filter : ℕ
less_filter = 3

abbrev pub whitelist_filter : ℕ
whitelist_filter = 4

abbrev pub blacklist_filter : ℕ
blacklist_filter = 5

-- `enum trace_group_e`
abbrev pub group_root : ℕ
group_root = 2

abbrev pub group_system : ℕ
group_system = 4

abbrev pub group_shell : ℕ
group_shell = 8

abbrev pub group_app : ℕ
group_app = 16

abbrev pub group_iso : ℕ
group_iso = 32

-- `enum event_id_e`
abbrev pub syscall_enter : ℕ
syscall_enter = 456

abbrev pub syscall_exit : ℕ
syscall_exit = 457

abbrev pub uprobe_enter : ℕ
uprobe_enter = 458

abbrev pub uprobe_exit : ℕ
uprobe_exit = 459

-- `enum arm64_reg_e`
abbrev pub reg_arm64_lr : ℕ
reg_arm64_lr = 30

abbrev pub reg_arm64_sp : ℕ
reg_arm64_sp = 31

abbrev pub reg_arm64_pc : ℕ
reg_arm64_pc = 32

abbrev pub reg_arm64_max : ℕ
reg_arm64_max = 33
