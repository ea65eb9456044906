-- ===== src/Programs/World.antt =====
-- The maps that the programs write (src/maps.h), what they send, and what the kernel tells a
-- program about the current task.
use stackplz.Base.{ℕ, Bool, Option, none, some, List, ◌==◌, if◌then◌else◌}
use stackplz.Types.{EventContext, EventData, OpCtx, CtxRegs, ConfigEntry}
use stackplz.ReadArgs.State.{Strs}

-- A record sent to user space, or a signal to the current process or thread.
pub data Output : Type 0 where
  perf : EventContext → List ℕ → Output
  send_signal : ℕ → Output
  send_signal_thread : ℕ → Output

-- `event_data_map` and `op_ctx_map` are per-CPU arrays; `none` is a lookup that yields NULL.
-- `out` is what was sent so far.
pub record World : Type 0 where
  pub event_data_map : Option EventData
  pub op_ctx_map : ℕ → Option OpCtx
  pub ctx_regs_map : ℕ → Option CtxRegs
  pub child_parent_map : ℕ → Option ℕ
  pub strs : Strs
  pub out : List Output

-- The registers of the interrupted code, as `READ_KERN` reads them.
pub record PtRegs : Type 0 where
  pub regs : List ℕ
  pub sp : ℕ
  pub pc : ℕ
  pub syscallno : ℕ

-- What the helpers and the kernel's structures yield. `comm` is `none` where
-- `bpf_get_current_comm` fails; a `room` says whether a full map takes a new key.
pub record Host : Type 0 where
  pub pid_tgid : ℕ
  pub uid_gid : ℕ
  pub ktime_ns : ℕ
  pub comm : Option (List ℕ)
  pub current_task : ℕ
  pub task_flags : ℕ → ℕ
  pub thread_pid : ℕ → ℕ
  pub level : ℕ → ℕ
  pub numbers_nr : ℕ → ℕ → ℕ
  pub group_leader : ℕ → ℕ
  pub regs_room : (ℕ → Option CtxRegs) → ℕ → Bool
  pub forks_room : (ℕ → Option ℕ) → ℕ → Bool

-- `bpf_map_update_elem` and `bpf_map_delete_elem` on a hash map with numbers for keys
abbrev pub update_elem : {A : Type 0} → Bool → (ℕ → Option A) → ℕ → A → ℕ → Option A
update_elem room m key v = if room then (λ k. if k == key then some v else m k) else m

abbrev pub delete_elem : {A : Type 0} → (ℕ → Option A) → ℕ → ℕ → Option A
delete_elem m key k = if k == key then none else m k

-- A program past its initialisation: `program_data_t`, with the event record that `p.event`
-- points to. `close` leaves it in its map.
pub record Session : Type 0 where
  pub world : World
  pub config : ConfigEntry
  pub event : EventData

abbrev pub close : Session → World
close s = record s.world { event_data_map = some s.event }
