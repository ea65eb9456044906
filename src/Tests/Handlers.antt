-- ===== src/Tests/Handlers.antt =====
-- The entry of a traced system call, and the tests and registers behind it.
use stackplz.Base.{◌+◌, ◌^◌, ◌≡◌, ◌≢◌, inl, refl, arith, none, some, ◌==◌, if◌then◌else◌, ◌↔◌}
use stackplz.Types.{CtxRegs, ConfigEntry, syscall_enter, syscall_exit}
use stackplz.Kernel.{Config}
use stackplz.Filtering.{should_trace, listed}
use stackplz.Filtering.Spec.{Traced, should_trace_iff}
use stackplz.Filtering.Overlap.{whitelisted_tid_blocks}
use stackplz.Programs.World.{Host}
use stackplz.Programs.Regs.{regs_key, save_regs, load_regs, del_regs}
use stackplz.Programs.Regs.RoundTrip.{load_regs_other}
use stackplz.Programs.Syscall.{sys_enter}
use stackplz.Programs.Syscall.Reports.{EnterSends, sys_enter-Reports}
use stackplz.Tests.{
  kernel, kernel-IsKernel, target, config, interrupted, host, world, blank_context,
}

sys_enter-Reports_example :
    EnterSends host kernel target config interrupted kernel-IsKernel world.child_parent_map
      world.out
      (sys_enter host kernel target config interrupted world)
sys_enter-Reports_example =
    sys_enter-Reports host kernel target config interrupted kernel-IsKernel world

abbrev tracer : ConfigEntry
tracer = record { stackplz_pid = 1; thread_whitelist = 0 }

should_trace_iff_example :
    (should_trace config (λ id. none) tracer blank_context ≡ 1)
    ↔ Traced config (λ id. none) tracer blank_context
should_trace_iff_example = should_trace_iff config (λ id. none) tracer blank_context

-- Thread 1094 is on the whitelist: its key there is 0x1c00 + 1094.
abbrev listing : Config
listing = record config { common_list = λ key. if key == 8262 then some 1 else none }

whitelisted_tid_blocks_example : should_trace listing (λ id. none) tracer blank_context ≢ 1
unfolding listed
whitelisted_tid_blocks_example =
    whitelisted_tid_blocks listing (λ id. none) tracer blank_context 1094 (omega arith) refl
      (λ e. cc) (λ e. omega arith)

abbrev entered : CtxRegs
entered = record { regs = interrupted.regs; sp = 6; pc = 7; flag = 0 }

load_regs_other_example :
    (load_regs host syscall_exit (save_regs host entered syscall_enter world)
      ≡ load_regs host syscall_exit world)
    × (load_regs host syscall_exit (del_regs host syscall_enter world)
        ≡ load_regs host syscall_exit world)
load_regs_other_example =
    load_regs_other host entered syscall_enter world host syscall_exit (omega arith) (omega arith)
      (inl (λ e. omega arith))

-- another process of which a thread has the same number
abbrev other_host : Host
other_host = record host { pid_tgid = 2 ^ 32 + 70 }

same_key : regs_key host 456 ≡ regs_key other_host syscall_enter
unfolding regs_key
same_key = refl
