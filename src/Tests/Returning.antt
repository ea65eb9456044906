-- ===== src/Tests/Returning.antt =====
-- The call of `Sending` returns: its number is read again from the registers of the entry.
use stackplz.Base.{
  ℕ, Option, ◌≡◌, refl, arith, some, none, [], ◌∷◌, List, ◌==◌, if◌then◌else◌, inr, replicate,
}
use stackplz.Types.{PointArgs, CtxRegs, op_code, op_skip, reg_arm64_max}
use stackplz.Kernel.{Config}
use stackplz.Event.{ok}
use stackplz.Filtering.{should_trace}
use stackplz.ReadArgs.Exec.{reg_at}
use stackplz.ReadArgs.Filters.{rejects_value}
use stackplz.Decoder.Args.{number, PointArg, reads_at, ebpf_sys_exit, ebpf_sys_all}
use stackplz.Decoder.Record.{SyscallPoint, get_syscall_point}
use stackplz.Programs.World.{World, Session}
use stackplz.Programs.Context.{init_program_data}
use stackplz.Programs.Regs.{load_regs}
use stackplz.Programs.Submit.{read_regs}
use stackplz.Programs.Syscall.{is_our_task, sysno_passes, sys_enter}
use stackplz.Compiler.{OpManager, get_op_list, add_op}
use stackplz.Compiler.Ops.{rop, text_filters, base_ops, register_types}
use stackplz.Compiler.Points.{add_point_args, new_config}
use stackplz.Compiler.Filled.{point_keys}
use stackplz.Compiler.Compiled.{point_ops, Compiles, ArePlain, ArePlain-Keeps, point_keys-Compiles}
use stackplz.Compiler.Runs.Filters.{Admits}
use stackplz.Compiler.Runs.Point.{AreBare}
use stackplz.Compiler.Loaded.{IsCompiled}
use stackplz.Compiler.Sent.{IsTraced, parse_record-sys_enter}
use stackplz.Compiler.Result.{IsResult}
use stackplz.Compiler.Exited.{IsExited}
use stackplz.Compiler.SentExit.{ExitTold, parse_record-sys_exit}
use stackplz.Compiler.Paired.{sys_exit-follows}
use stackplz.Tests.{kernel, kernel-IsKernel, blank_op, world, host, interrupted}
use stackplz.Tests.Decoding.{an_arg, texts_of}
use stackplz.Tests.Compiling.{
  types, manager, manager-IsDense, program, loaded, wide_target, texts_of-ArePlain,
  texts_of-AreBare, texts_of-AreWhole,
}
use stackplz.Tests.Sending.{tracing, session, session-IsContext, call-IsOrigin}

abbrev kept_number : PointArg
kept_number = record (an_arg number 0 ebpf_sys_all) {
  filter_index_list = 1 ∷ [];
  group_type = ebpf_sys_exit;
}

abbrev a_result : PointArg
a_result = an_arg number reg_arm64_max ebpf_sys_exit

-- The manager once the arguments of the entry are compiled.
abbrev entry_manager : OpManager
entry_manager = (point_keys types texts_of manager).1

entry-Compiles : Compiles manager (point_ops texts_of) (point_keys types texts_of manager)
entry-Compiles = point_keys-Compiles types texts_of manager texts_of-ArePlain manager-IsDense

abbrev returning_args : List PointArg
returning_args = kept_number ∷ a_result ∷ []

returning-ArePlain : ArePlain types entry_manager returning_args
returning-ArePlain =
    ArePlain-Keeps types manager entry_manager returning_args entry-Compiles.1
      (texts_of-ArePlain.0, (texts_of-ArePlain.0, tt))

abbrev returning_program : PointArgs
returning_program = record {
  enter_key = 0;
  signal = 0;
  op_count = 3;
  op_key_list = 32 ∷ 9 ∷ 33 ∷ replicate 61 0;
}

abbrev returning : Config
returning = record loaded {
  op_list = get_op_list (point_keys types returning_args entry_manager).1;
  sysexit_point_args = λ nr. if nr == 56 then some returning_program else none;
}

returning-IsCompiled : IsCompiled returning types entry_manager returning_args 64 returning_program
unfolding get_op_list add_point_args new_config register_types add_op base_ops point_keys
returning-IsCompiled = record {
  dense = entry-Compiles.0;
  plain = returning-ArePlain;
  ends = (rop "SKIP" op_skip).config;
  first = refl;
  ends_skip = refl;
  loaded = λ key c e. e;
  room = omega arith;
  filled = refl;
}

entering-IsCompiled : IsCompiled returning types manager texts_of 64 program
unfolding get_op_list add_point_args new_config register_types add_op base_ops
entering-IsCompiled = record {
  dense = manager-IsDense;
  plain = texts_of-ArePlain;
  ends = (rop "SKIP" op_skip).config;
  first = refl;
  ends_skip = refl;
  loaded =
      (point_keys-Compiles types returning_args entry_manager returning-ArePlain
        entry-Compiles.0).1;
  room = omega arith;
  filled = refl;
}

kept_number-AreBare : AreBare ebpf_sys_exit (read_regs interrupted) (kept_number ∷ [])
unfolding read_regs reg_at text_filters
kept_number-AreBare = (
  (record { filters = refl; register = omega arith; kind = tt; group = refl }, refl, omega arith),
  tt,
)

kept_number-Admits : Admits returning (read_regs interrupted) (kept_number ∷ [])
unfolding read_regs reg_at rejects_value
kept_number-Admits = ((((_, refl), tt), tt), refl)

entering-Admits : Admits returning (read_regs interrupted) texts_of
unfolding read_regs reg_at rejects_value
entering-Admits = ((((_, refl), tt), (tt, (tt, tt))), refl)

a_result-IsResult : IsResult a_result
a_result-IsResult = record { kind = refl; register = refl }

abbrev call : SyscallPoint
call = record { nr = 56; enter_args = texts_of; exit_args = returning_args }

entering-IsTraced :
    IsTraced host wide_target returning interrupted world program session tracing blank_op
unfolding is_our_task init_program_data should_trace sysno_passes op_code
entering-IsTraced = record {
  ours = refl;
  starts = refl;
  traced = λ e. omega arith;
  has_point = refl;
  has_filter = refl;
  passes = refl;
  has_op = refl;
  idle = inr refl;
}

-- The maps that hold the registers of a task, by a function.
abbrev keeping : (ℕ → Option CtxRegs) → World
keeping regs = record world { ctx_regs_map = regs }

abbrev exiting_session : (ℕ → Option CtxRegs) → Session
exiting_session regs = record session { world = keeping regs }

keeping-IsExited :
    (regs : ℕ → Option CtxRegs)
    → IsExited host wide_target returning interrupted
        (keeping regs)
        returning_program
        (exiting_session regs)
        tracing
        blank_op
unfolding is_our_task init_program_data should_trace sysno_passes op_code
keeping-IsExited regs = record {
  ours = refl;
  starts = refl;
  traced = λ e. omega arith;
  has_point = refl;
  has_filter = refl;
  passes = refl;
  has_op = refl;
  idle = inr refl;
}

abbrev all_kept : ℕ → Option CtxRegs
all_kept key = some (read_regs interrupted)

all_kept-loads : load_regs host 456 (keeping all_kept) ≡ some (read_regs interrupted)
unfolding load_regs read_regs
all_kept-loads = refl

parse_record-sys_exit_example :
    ExitTold host kernel wide_target returning interrupted
      (call ∷ [])
      (kept_number ∷ [])
      (read_regs interrupted)
      (exiting_session all_kept)
      (keeping all_kept)
      (9 ∷ [])
unfolding reads_at get_syscall_point read_regs
parse_record-sys_exit_example =
    parse_record-sys_exit kernel wide_target returning kernel-IsKernel types entry_manager
      (kept_number ∷ []) a_result 64 returning_program (read_regs interrupted) returning-IsCompiled
      kept_number-AreBare (tt, tt) kept_number-Admits a_result-IsResult (omega arith) (omega arith)
      (omega arith) host interrupted (keeping all_kept) (exiting_session all_kept) tracing blank_op
      call (call ∷ []) (9 ∷ []) (keeping-IsExited all_kept) all_kept-loads refl refl refl
      session-IsContext (omega arith)

-- the maps that the entry leaves
entered : (w : World) × (sys_enter host kernel wide_target returning interrupted world ≡ ok w)
unfolding read_regs reads_at get_syscall_point
entered =
    let (w, o, n, returns, sends, told) =
      parse_record-sys_enter host kernel wide_target returning interrupted kernel-IsKernel types
        manager call 64 program entering-IsCompiled texts_of-AreBare texts_of-AreWhole
        entering-Admits (omega arith) (omega arith) (omega arith) world session tracing blank_op
        (call ∷ []) (9 ∷ []) entering-IsTraced refl session-IsContext call-IsOrigin in
    (w, returns)

sys_exit-follows_example :
    ExitTold host kernel wide_target returning interrupted
      (call ∷ [])
      (kept_number ∷ [])
      (read_regs interrupted)
      (exiting_session entered.0.ctx_regs_map)
      (keeping entered.0.ctx_regs_map)
      (9 ∷ [])
unfolding reads_at get_syscall_point read_regs
sys_exit-follows_example =
    sys_exit-follows kernel wide_target returning kernel-IsKernel types (omega arith) host host
      interrupted interrupted manager entry_manager call call 64 64 program returning_program
      (kept_number ∷ []) a_result world entered.0 (keeping entered.0.ctx_regs_map) session
      (exiting_session entered.0.ctx_regs_map) tracing tracing blank_op blank_op (call ∷ [])
      (9 ∷ []) entering-IsCompiled texts_of-AreBare texts_of-AreWhole entering-Admits (omega arith)
      (omega arith) entering-IsTraced refl entered.1 refl refl returning-IsCompiled
      kept_number-AreBare (tt, tt) kept_number-Admits a_result-IsResult (omega arith) (omega arith)
      (keeping-IsExited entered.0.ctx_regs_map) refl refl session-IsContext (omega arith)
