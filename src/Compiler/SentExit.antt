-- ===== src/Compiler/SentExit.antt =====
-- What user space tells of the exit of a call, and that it is told of every entry.
use stackplz.Base.{
  ℕ, ◌+◌, ◌^◌, ◌<◌, ◌≤◌, ◌≡◌, refl, arith, some, List, [], ◌∷◌, ◌++◌, ◌==◌, false, map, get_or,
}
use stackplz.Types.{
  OpCtx, CommonFilter, PointArgs, CtxRegs, args_buf_size, syscall_enter, syscall_exit,
}
use stackplz.Kernel.{Kernel, Target, Config, IsKernel}
use stackplz.Event.{ok}
use stackplz.Event.Entries.{word, encode_all}
use stackplz.Decoder.Args.{PointArg, reads_at, plain, ebpf_sys_exit}
use stackplz.Decoder.Record.{SyscallPoint, get_syscall_point, parse_record}
use stackplz.Decoder.Context.{IsContext}
use stackplz.Decoder.Sent.{sample, parse_exit_lem, record_lem}
use stackplz.Programs.World.{World, Host, PtRegs, Session, Output, perf}
use stackplz.Programs.Regs.{load_regs}
use stackplz.Programs.Syscall.{sysno, sys_exit}
use stackplz.Compiler.{OpManager}
use stackplz.Compiler.Ops.{ArgTypes}
use stackplz.Compiler.Loaded.{IsCompiled}
use stackplz.Compiler.Runs.Filters.{Admits, budget}
use stackplz.Compiler.Runs.Point.{AreWhole, AreBare, total_need, printed_arg}
use stackplz.Compiler.Handled.{IsContext-sent}
use stackplz.Compiler.Result.{IsResult}
use stackplz.Compiler.Exited.{IsExited, exit_session-Sends}

-- The exit returns and sends one record. The decoder reads back from it the context of the task, the
-- number of the call, the arguments by the registers of the entry, and the result of the call.
abbrev pub ExitTold :
    Host
    → Kernel
    → Target
    → Config
    → PtRegs
    → List SyscallPoint
    → List PointArg
    → CtxRegs
    → Session
    → World
    → List ℕ
    → Type 0
ExitTold h k t cfg pt points args regs s w rest =
    (w' : World) × (o : Output) × (n : ℕ) × (sys_exit h k t cfg pt w ≡ ok w')
    × (w'.out ≡ w.out ++ (o ∷ []))
    × (parse_record points (sample o rest)
        ≡ some (
          (
            record s.event.context { eventid = syscall_exit; argnum = n },
            record {
              nr = sysno pt;
              lr = 0;
              sp = 0;
              pc = 0;
              args =
                  map (printed_arg k t regs ebpf_sys_exit) args ++ plain (get_or pt.regs 0 0) ∷ [];
            },
          ),
          rest,
        ))

module _ (k : Kernel) (t : Target) (cfg : Config) (law : IsKernel k) (types : ArgTypes)
    (vs : OpManager) (args : List PointArg) (ret : PointArg) (max_ops : ℕ) (pa : PointArgs)
    (regs : CtxRegs) (compiled : IsCompiled cfg types vs (args ++ ret ∷ []) max_ops pa)
    (bare : AreBare ebpf_sys_exit regs args) (whole : AreWhole args) (passes : Admits cfg regs args)
    (result : IsResult ret) (enough : budget (args ++ ret ∷ []) + 1 < t.max_op_count)
    (wide : t.max_op_count ≤ 2 ^ 32)
    (room : 5 + total_need (map (reads_at ebpf_sys_exit) args) + 4101 ≤ args_buf_size) where
  -- An exit of a traced task that passes the filters, from a call whose registers were kept by an
  -- entry that was not skipped; its arguments (each from a register of 64 bits, grouped with
  -- exits, of a registered type without loops that the decoder takes whole, filtered by value
  -- only, and admitted by their filters) and a result that is a number are compiled and loaded,
  -- with room in the buffer, the rounds that the operations need, numbers in the width of their
  -- types, and registers of the reader in which no second half of an operation waits: `sys_exit`
  -- returns, and sends one record and no signal. The decoder reads that record back: the context
  -- of the task, the number of the call, the value of each argument at the entry and, where the
  -- argument says to read more, what the kernel reads there now, and the result of the call; it
  -- leaves what follows the record.
  pub parse_record-sys_exit :
      (h : Host) (pt : PtRegs) (w : World) (s : Session) (f : CommonFilter) (c : OpCtx)
      (p : SyscallPoint) (points : List SyscallPoint) (rest : List ℕ)
      → IsExited h t cfg pt w pa s f c
      → load_regs h syscall_enter w ≡ some regs
      → (regs.flag == 1) ≡ false
      → get_syscall_point points (sysno pt) ≡ some p
      → p.exit_args ≡ args ++ ret ∷ []
      → IsContext s.event.context
      → get_or pt.regs 0 0 < 2 ^ 64
      → ExitTold h k t cfg pt points args regs s w rest
  parse_record-sys_exit h pt w s f c p points rest tr kept reported known same v small =
      let (w', returns, (n, entries, few, out, saved)) =
        exit_session-Sends h k t cfg pt law types vs args ret max_ops pa regs compiled bare whole
          passes result small enough wide room w s f c tr kept reported in
      let context = record s.event.context { eventid = syscall_exit; argnum = n } in
      let told = map (printed_arg k t regs ebpf_sys_exit) args ++ plain (get_or pt.regs 0 0) ∷ [] in
      (
        w',
        perf context (encode_all (word 4 0 (sysno pt) ∷ entries)),
        n,
        returns,
        out,
        record_lem points p told entries rest _ _ _
            (IsContext-sent s.event.context syscall_exit n v (omega arith) few)
            (parse_exit_lem points p told entries rest context (sysno pt) known refl (omega arith)
              (rw same saved)),
      )
