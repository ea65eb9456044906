-- ===== src/Programs/Fork.antt =====
-- `tracepoint__sched__sched_process_fork`, the same in src/syscall.c and src/stack.c but for the
-- prefix of a debug message: children of traced processes are traced.
pub mod Track
use stackplz.Base.{ℕ, Option, none, some, ◌==◌, if◌then◌else◌}
use stackplz.Kernel.{Config}
use stackplz.Programs.World.{World, Host, Session, close, update_elem}
use stackplz.Programs.Context.{init_program_data, get_task_ns_pid}

-- the map after the fork; the source prints a message where the entry names another process
unfoldable pub track_child : Host → ℕ → ℕ → World → World
track_child h parent_ns_pid child_ns_pid w = elim (w.child_parent_map parent_ns_pid) [
  | none ↦ w
  | some pid ↦
      if pid == parent_ns_pid
      then record w {
        child_parent_map =
            update_elem (h.forks_room w.child_parent_map child_ns_pid) w.child_parent_map
              child_ns_pid parent_ns_pid;
      }
      else w
]

-- `parent` and `child` are the arguments of the tracepoint. The group ids that the source also
-- reads are not used.
unfoldable pub sched_process_fork : Host → Config → ℕ → ℕ → World → World
unfolding track_child
sched_process_fork h cfg parent child w =
    let (session, w') = init_program_data h cfg w in
    elim session [
      | none ↦ w'
      | some s ↦ track_child h (get_task_ns_pid h parent) (get_task_ns_pid h child) (close s)
    ]

-- src/stack.c has the same handler.
abbrev pub stack_process_fork : Host → Config → ℕ → ℕ → World → World
stack_process_fork = sched_process_fork
