-- ===== src/Tests/Sending.antt =====
-- A call with a number and two texts: entered by a traced task, sent, and read back.
use stackplz.Base.{◌≡◌, refl, arith, some, [], ◌∷◌, ℕ, inr, map}
use stackplz.Types.{syscall_enter, CommonFilter, op_code}
use stackplz.Event.{ok}
use stackplz.Filtering.{should_trace}
use stackplz.Programs.World.{World, Session, Output}
use stackplz.Programs.Context.{init_program_data}
use stackplz.Programs.Submit.{read_regs, signals, link_register, stack_pointer}
use stackplz.Programs.Syscall.{is_our_task, sysno_passes, sys_enter}
use stackplz.Decoder.Args.{ebpf_sys_enter, reads_at}
use stackplz.Decoder.Record.{SyscallPoint, get_syscall_point, parse_record}
use stackplz.Decoder.Context.{IsContext}
use stackplz.Decoder.Sent.{sample, IsOrigin}
use stackplz.Compiler.Runs.Point.{printed_arg}
use stackplz.Compiler.Sent.{IsTraced, parse_record-sys_enter}
use stackplz.Tests.{kernel, kernel-IsKernel, blank, blank_op, world, host, interrupted}
use stackplz.Tests.Decoding.{texts_of, blank_context-IsContext}
use stackplz.Tests.Compiling.{
  types, manager, program, loaded, wide_target, texts_of-IsCompiled, texts_of-AreBare,
  texts_of-AreWhole, texts_of-Admits,
}

abbrev pub tracing : CommonFilter
tracing = record { is_32bit = 0; trace_mode = 1; trace_uid_group = 8; signal = 0; tsignal = 0 }

abbrev call : SyscallPoint
call = record { nr = 56; enter_args = texts_of; exit_args = texts_of }

abbrev pub session : Session
session = record {
  world = world;
  config = record { stackplz_pid = 1; thread_whitelist = 0 };
  event = record blank { context = record blank.context { host_pid = 0; ts = 9 } };
}

call-IsTraced : IsTraced host wide_target loaded interrupted world program session tracing blank_op
unfolding is_our_task init_program_data should_trace sysno_passes op_code
call-IsTraced = record {
  ours = refl;
  starts = refl;
  traced = λ e. omega arith;
  has_point = refl;
  has_filter = refl;
  passes = refl;
  has_op = refl;
  idle = inr refl;
}

pub session-IsContext : IsContext session.event.context
session-IsContext =
    let v = blank_context-IsContext in
    record {
      ts = omega arith;
      eventid = v.eventid;
      host_tid = v.host_tid;
      host_pid = omega arith;
      tid = v.tid;
      pid = v.pid;
      uid = v.uid;
      comm = v.comm;
      argnum = v.argnum;
      padding = v.padding;
    }

pub call-IsOrigin : IsOrigin tracing interrupted 56
unfolding link_register stack_pointer
call-IsOrigin = record { point = omega arith; lr = omega arith; sp = omega arith; pc = omega arith }

parse_record-sys_enter_example :
    (w : World) × (o : Output) × (n : ℕ) × (sys_enter host kernel wide_target loaded interrupted
        world
      ≡ ok w)
    × (w.out ≡ o ∷ signals tracing program)
    × (parse_record (call ∷ []) (sample o (9 ∷ []))
        ≡ some (
          (
            record session.event.context { eventid = syscall_enter; argnum = n },
            record {
              nr = 56;
              lr = link_register tracing interrupted;
              sp = stack_pointer tracing interrupted;
              pc = 7;
              args =
                  map
                    (printed_arg kernel wide_target (read_regs interrupted) ebpf_sys_enter)
                    texts_of;
            },
          ),
          9 ∷ [],
        ))
unfolding read_regs get_syscall_point reads_at
parse_record-sys_enter_example =
    parse_record-sys_enter host kernel wide_target loaded interrupted kernel-IsKernel types manager
      call 64 program texts_of-IsCompiled texts_of-AreBare texts_of-AreWhole texts_of-Admits
      (omega arith) (omega arith) (omega arith) world session tracing blank_op (call ∷ []) (9 ∷ [])
      call-IsTraced refl session-IsContext call-IsOrigin
