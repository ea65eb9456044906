-- ===== src/Decoder/Record.antt =====
-- user/event: a record is its context, then arguments. `ParseContext` of event_context.go,
-- event_raw_syscalls.go and event_uprobe.go.
use stackplz.Base.{ℕ, Option, none, some, List, [], ◌∷◌, map, ◌==◌, if◌then◌else◌}
use stackplz.Types.{EventContext, syscall_enter, syscall_exit, task_comm_len}
use stackplz.Decoder.{Reads, ◌>>=◌, pure, panic, read_bytes, read_num, read_arg}
use stackplz.Decoder.Args.{Parsed, PointArg, reads_at, ebpf_sys_enter, ebpf_sys_exit, parse_point}

-- `ContextEvent.ParseContext`, from the timestamp on
unfoldable pub parse_context : Reads EventContext
parse_context = do
  ts ← read_num 8
  eventid ← read_num 4
  host_tid ← read_num 4
  host_pid ← read_num 4
  tid ← read_num 4
  pid ← read_num 4
  uid ← read_num 4
  comm ← read_bytes task_comm_len
  argnum ← read_num 1
  padding ← read_bytes 7
  pure (record {
    ts = ts;
    eventid = eventid;
    host_tid = host_tid;
    host_pid = host_pid;
    tid = tid;
    pid = pid;
    uid = uid;
    comm = comm;
    argnum = argnum;
    padding = padding;
  })

-- `config.SyscallFields`, with the results of the point
pub record SyscallFields : Type 0 where
  pub nr : ℕ
  pub lr : ℕ
  pub sp : ℕ
  pub pc : ℕ
  pub args : List Parsed

-- `config.SyscallPoint`
pub record SyscallPoint : Type 0 where
  pub nr : ℕ
  pub enter_args : List PointArg
  pub exit_args : List PointArg

-- `GetSyscallPointByNR`
unfoldable pub get_syscall_point : List SyscallPoint → ℕ → Option SyscallPoint
get_syscall_point [] nr = none
get_syscall_point (p ∷ ps) nr = if p.nr == nr then some p else get_syscall_point ps nr

-- with the point of the call: the branches by the event's id
unfoldable pub parse_enter : ℕ → List PointArg → Reads SyscallFields
parse_enter nr args = do
  lr ← read_arg 8
  sp ← read_arg 8
  pc ← read_arg 8
  results ← parse_point (map (reads_at ebpf_sys_enter) args)
  pure (record { nr = nr; lr = lr; sp = sp; pc = pc; args = results })

unfoldable pub parse_exit : ℕ → List PointArg → Reads SyscallFields
parse_exit nr args = do
  results ← parse_point (map (reads_at ebpf_sys_exit) args)
  pure (record { nr = nr; lr = 0; sp = 0; pc = 0; args = results })

-- `SyscallEvent.ParseContext` up to the padding, in an event whose other fields are unset
unfoldable pub parse_syscall : List SyscallPoint → EventContext → Reads SyscallFields
unfolding parse_enter parse_exit
parse_syscall points c = do
  nr ← read_arg 4
  elim (get_syscall_point points nr) [
    | none ↦ panic
    | some p ↦
        if c.eventid == syscall_enter
        then parse_enter nr p.enter_args
        else if c.eventid == syscall_exit
        then parse_exit nr p.exit_args
        else panic
  ]

-- a whole record
unfoldable pub parse_record : List SyscallPoint → Reads (EventContext × SyscallFields)
parse_record points = do c ← parse_context; fields ← parse_syscall points c; pure (c, fields)
