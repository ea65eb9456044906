-- ===== src/Tests/Rejecting.antt =====
-- The call of `Sending`, with a filter that rejects its number.
use stackplz.Base.{◌≡◌, refl, arith, some, none, [], ◌==◌, if◌then◌else◌, inr}
use stackplz.Types.{equal_filter, op_code, op_skip}
use stackplz.Kernel.{Config}
use stackplz.Event.{ok}
use stackplz.Filtering.{should_trace}
use stackplz.ReadArgs.Exec.{reg_at}
use stackplz.ReadArgs.Filters.{rejects_value}
use stackplz.Decoder.Args.{reads_at}
use stackplz.Decoder.Record.{SyscallPoint}
use stackplz.Programs.World.{World}
use stackplz.Programs.Context.{init_program_data}
use stackplz.Programs.Submit.{read_regs}
use stackplz.Programs.Syscall.{is_our_task, sysno_passes, sys_enter, sys_exit}
use stackplz.Programs.Syscall.Pairing.{Silent}
use stackplz.Compiler.{get_op_list, add_op}
use stackplz.Compiler.Ops.{rop, base_ops, register_types}
use stackplz.Compiler.Points.{add_point_args, new_config}
use stackplz.Compiler.Runs.Filters.{Rejects}
use stackplz.Compiler.Loaded.{IsCompiled}
use stackplz.Compiler.Sent.{IsTraced}
use stackplz.Compiler.Rejected.{sys_enter-Rejects}
use stackplz.Tests.{kernel, kernel-IsKernel, blank_op, world, host, interrupted}
use stackplz.Tests.Decoding.{texts_of}
use stackplz.Tests.Compiling.{
  types, manager, manager-IsDense, program, loaded, wide_target, texts_of-ArePlain,
  texts_of-AreBare,
}
use stackplz.Tests.Sending.{tracing, session}

-- The filter wants 6; the register holds 5.
abbrev strict : Config
strict = record loaded {
  arg_filter = λ key.
      if key == 1
      then some (record { filter_type = equal_filter; str_val = []; str_len = 0; num_val = 6 })
      else none;
}

strict-Rejects : Rejects strict (read_regs interrupted) texts_of
unfolding read_regs reg_at rejects_value
strict-Rejects = ((((_, refl), tt), (tt, (tt, tt))), refl)

strict-IsCompiled : IsCompiled strict types manager texts_of 64 program
unfolding get_op_list add_point_args new_config register_types add_op base_ops
strict-IsCompiled = record {
  dense = manager-IsDense;
  plain = texts_of-ArePlain;
  ends = (rop "SKIP" op_skip).config;
  first = refl;
  ends_skip = refl;
  loaded = λ key c e. e;
  room = omega arith;
  filled = refl;
}

abbrev strict_call : SyscallPoint
strict_call = record { nr = 56; enter_args = texts_of; exit_args = texts_of }

strict_call-IsTraced :
    IsTraced host wide_target strict interrupted world program session tracing blank_op
unfolding is_our_task init_program_data should_trace sysno_passes op_code
strict_call-IsTraced = record {
  ours = refl;
  starts = refl;
  traced = λ e. omega arith;
  has_point = refl;
  has_filter = refl;
  passes = refl;
  has_op = refl;
  idle = inr refl;
}

sys_enter-Rejects_example :
    (w : World) × (sys_enter host kernel wide_target strict interrupted world ≡ ok w)
    × (w.out ≡ [])
    × Silent w (sys_exit host kernel wide_target strict interrupted w)
unfolding read_regs reads_at
sys_enter-Rejects_example =
    sys_enter-Rejects host kernel wide_target strict interrupted kernel-IsKernel types manager
      strict_call 64 program strict-IsCompiled texts_of-AreBare strict-Rejects (omega arith)
      (omega arith) (omega arith) world session tracing blank_op host kernel strict interrupted
      strict_call-IsTraced (λ m key e. refl) refl
