-- ===== src/Tests/Calls.antt =====
-- The exit of a system call, and probed functions, in the state of the parent module.
use stackplz.Base.{refl, arith, some}
use stackplz.Types.{CommonFilter, uprobe_enter, uprobe_exit}
use stackplz.Programs.World.{Session}
use stackplz.Programs.Syscall.{sys_exit, enter_done}
use stackplz.Programs.Syscall.Exit.{ExitSends, sys_exit-Reports}
use stackplz.Programs.Syscall.Pairing.{Silent, skipped_exit}
use stackplz.Programs.Probe.{probe_stack_warp, uretprobe_stack_warp}
use stackplz.Programs.Probe.Sends.{
  ProbeSends, probe_stack_warp-Reports, uretprobe_stack_warp-Reports,
}
use stackplz.Tests.{kernel, kernel-IsKernel, target, config, interrupted, host, world, point, blank}

sys_exit-Reports_example :
    ExitSends host kernel target config interrupted kernel-IsKernel world.child_parent_map world.out
      (sys_exit host kernel target config interrupted world)
sys_exit-Reports_example =
    sys_exit-Reports host kernel target config interrupted kernel-IsKernel world

probe_stack_warp-Reports_example :
    ProbeSends host kernel target config interrupted kernel-IsKernel 3 world uprobe_enter
      (some point)
      (probe_stack_warp host kernel target config interrupted 3 world)
probe_stack_warp-Reports_example =
    probe_stack_warp-Reports host kernel target config interrupted kernel-IsKernel 3 world

uretprobe_stack_warp-Reports_example :
    ProbeSends host kernel target config interrupted kernel-IsKernel 3 world uprobe_exit
      (some point)
      (uretprobe_stack_warp host kernel target config interrupted 3 world)
uretprobe_stack_warp-Reports_example =
    uretprobe_stack_warp-Reports host kernel target config interrupted kernel-IsKernel 3 world

abbrev filter : CommonFilter
filter = record { is_32bit = 0; trace_mode = 1; trace_uid_group = 8; signal = 0; tsignal = 0 }

abbrev session : Session
session = record {
  world = world;
  config = record { stackplz_pid = 1; thread_whitelist = 0 };
  event = blank;
}

skipped_exit_example :
    Silent (enter_done host kernel target config interrupted filter point 1 session) (
      sys_exit host kernel target config interrupted
        (enter_done host kernel target config interrupted filter point 1 session))
skipped_exit_example =
    skipped_exit host kernel target config interrupted host kernel config interrupted filter point 1
      session (λ m key e. refl) refl (λ e. omega arith)
