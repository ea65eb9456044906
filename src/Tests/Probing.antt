-- ===== src/Tests/Probing.antt =====
-- A function with a text in its second register: entered by a traced task, sent, and read back.
use stackplz.Base.{◌≡◌, refl, arith, none, some, [], ◌∷◌, ℕ, inr, map, replicate}
use stackplz.Types.{uprobe_enter, PointArgs, op_code, op_skip}
use stackplz.Kernel.{Config}
use stackplz.Event.{ok}
use stackplz.Filtering.{should_trace}
use stackplz.ReadArgs.Exec.{reg_at}
use stackplz.Programs.World.{World, Output}
use stackplz.Programs.Context.{init_program_data}
use stackplz.Programs.Submit.{read_regs, signals, link_register, stack_pointer}
use stackplz.Programs.Probe.{probe_regs, probe_stack_warp}
use stackplz.Decoder.Args.{
  PointArg, text, ebpf_sys_all, ebpf_uprobe_enter, ebpf_uprobe_exit, reads_at,
}
use stackplz.Decoder.Uprobe.{UprobePoint, parse_uprobe_record}
use stackplz.Decoder.Sent.{IsOrigin, sample}
use stackplz.Compiler.{get_op_list, add_op}
use stackplz.Compiler.Ops.{rop, text_filters, base_ops, register_types}
use stackplz.Compiler.Points.{add_point_args, new_config}
use stackplz.Compiler.Filled.{point_keys}
use stackplz.Compiler.Runs.Point.{AreBare, printed_arg}
use stackplz.Compiler.Loaded.{IsCompiled}
use stackplz.Compiler.SentProbe.{IsProbed, parse_uprobe_record-probe_stack_warp}
use stackplz.Tests.{kernel, kernel-IsKernel, config, blank_op, world, host, interrupted}
use stackplz.Tests.Decoding.{an_arg}
use stackplz.Tests.Compiling.{
  a_return, return_program, types, manager, manager-IsDense, texts_of-ArePlain, wide_target, regs,
}
use stackplz.Tests.Sending.{tracing, session, session-IsContext}

abbrev point : UprobePoint
point = record {
  point_args = record (an_arg text 1 ebpf_sys_all) { group_type = ebpf_uprobe_enter } ∷ [];
  ret_arg = none;
}

abbrev probe_program : PointArgs
probe_program = record {
  enter_key = 0;
  signal = 0;
  op_count = 3;
  op_key_list = 32 ∷ 9 ∷ 25 ∷ replicate 61 0;
}

abbrev probing : Config
probing = record config {
  op_list = get_op_list (point_keys types point.point_args manager).1;
  uprobe_point_args = λ key. some probe_program;
}

point-IsCompiled : IsCompiled probing types manager point.point_args 64 probe_program
unfolding get_op_list add_point_args new_config register_types add_op base_ops
point-IsCompiled = record {
  dense = manager-IsDense;
  plain = (texts_of-ArePlain.1.0, tt);
  ends = (rop "SKIP" op_skip).config;
  first = refl;
  ends_skip = refl;
  loaded = λ key c e. e;
  room = omega arith;
  filled = refl;
}

point-AreBare : AreBare ebpf_uprobe_enter regs point.point_args
unfolding reg_at text_filters
point-AreBare = (
  (record { filters = refl; register = omega arith; kind = tt; group = refl }, refl, omega arith),
  tt,
)

call-IsProbed :
    IsProbed host kernel wide_target probing interrupted 0 world probe_program session tracing regs
      world blank_op
unfolding init_program_data should_trace probe_regs op_code read_regs
call-IsProbed = record {
  starts = refl;
  traced = λ e. omega arith;
  has_point = refl;
  has_filter = refl;
  has_regs = refl;
  has_op = refl;
  idle = inr refl;
}

point-IsOrigin : IsOrigin tracing interrupted 0
unfolding link_register stack_pointer
point-IsOrigin = record {
  point = omega arith;
  lr = omega arith;
  sp = omega arith;
  pc = omega arith;
}

parse_uprobe_record-probe_stack_warp_example :
    (w : World) × (o : Output) × (n : ℕ) × (probe_stack_warp host kernel wide_target probing
        interrupted 0 world
      ≡ ok w)
    × (w.out ≡ o ∷ signals tracing probe_program)
    × (parse_uprobe_record (point ∷ []) (sample o (9 ∷ []))
        ≡ some (
          (
            record session.event.context { eventid = uprobe_enter; argnum = n },
            record {
              probe_index = 0;
              lr = link_register tracing interrupted;
              sp = stack_pointer tracing interrupted;
              pc = 7;
              ret = none;
              args = map (printed_arg kernel wide_target regs ebpf_uprobe_enter) point.point_args;
            },
          ),
          9 ∷ [],
        ))
unfolding reads_at
parse_uprobe_record-probe_stack_warp_example =
    parse_uprobe_record-probe_stack_warp host kernel wide_target probing interrupted kernel-IsKernel
      types manager point 64 probe_program regs 0 point-IsCompiled point-AreBare (tt, tt)
      ((tt, tt), refl) (omega arith) (omega arith) (omega arith) world session tracing world
      blank_op (point ∷ []) (9 ∷ []) call-IsProbed refl session-IsContext point-IsOrigin

-- A function whose value is told of: a text, at an address that no operation sets.
abbrev probe_return : PointArg
probe_return = record a_return { group_type = ebpf_uprobe_exit }

abbrev return_point : UprobePoint
return_point = record { point_args = []; ret_arg = some probe_return }

abbrev returning : Config
returning = record config {
  op_list = get_op_list (point_keys types (probe_return ∷ []) manager).1;
  uretprobe_point_args = λ key. some return_program;
}
