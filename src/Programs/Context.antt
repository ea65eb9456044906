-- ===== src/Programs/Context.antt =====
-- src/common/task.h and src/common/context.h: who the current task is, and the fresh event.
pub mod Start
use stackplz.Base.{ℕ, ◌/◌, ◌%◌, ◌^◌, Option, none, some, List, replicate, Bool, true, false}
use stackplz.Types.{EventContext, EventData, ConfigEntry, task_comm_len}
use stackplz.Kernel.{Config}
use stackplz.Programs.World.{World, Host, Session}

unfoldable pub get_task_pid_vnr : Host → ℕ → ℕ
get_task_pid_vnr h task =
    let pid = h.thread_pid task in let level = h.level pid in h.numbers_nr pid level

unfoldable pub get_task_ns_pid : Host → ℕ → ℕ
unfolding get_task_pid_vnr
get_task_ns_pid h task = get_task_pid_vnr h task

unfoldable pub get_task_ns_tgid : Host → ℕ → ℕ
unfolding get_task_pid_vnr
get_task_ns_tgid h task = get_task_pid_vnr h (h.group_leader task)

-- the context without the name: a failure of `bpf_get_current_comm` leaves it so
unfoldable pub task_context : Host → ℕ → EventContext → EventContext
unfolding get_task_ns_pid get_task_ns_tgid
task_context h task c = record c {
  host_tid = h.pid_tgid % 2 ^ 32;
  host_pid = h.pid_tgid / 2 ^ 32 % 2 ^ 32;
  tid = get_task_ns_pid h task;
  pid = get_task_ns_tgid h task;
  uid = h.uid_gid % 2 ^ 32;
  comm = replicate task_comm_len 0;
}

-- The flag is false where the source returns -1.
unfoldable pub init_context : Host → ℕ → EventContext → Bool × EventContext
unfolding task_context
init_context h task c =
    let c' = task_context h task c in
    elim h.comm [
      | none ↦ (false, c')
      | some name ↦ (true, record c' { comm = name; ts = h.ktime_ns; argnum = 0 })
    ]

-- the session of a context that was set, or the failure with the record in its map
unfoldable pub start_session :
    World → ConfigEntry → EventData → Bool × EventContext → Option Session × World
start_session w config e (true, c) =
    (some (record { world = w; config = config; event = record e { context = c; buf_off = 0 } }), w)
start_session w config e (false, c) =
    (none, record w { event_data_map = some (record e { context = c }) })

-- `p->event` is NULL in every caller, so it is looked up. `none` is the status 0; the world
-- beside it is the one to leave behind then.
unfoldable pub init_program_data : Host → Config → World → Option Session × World
unfolding init_context start_session
init_program_data h cfg w = elim w.event_data_map [
  | none ↦ (none, w)
  | some e ↦ elim cfg.base_config [
    | none ↦ (none, w)
    | some config ↦
        let task = h.current_task in
        let e' = record e { task = task } in
        start_session w config e' (init_context h task e'.context)
  ]
]
