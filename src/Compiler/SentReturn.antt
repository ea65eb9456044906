-- ===== src/Compiler/SentReturn.antt =====
-- From the return of a probed function to what user space tells of it: the handler of src/stack.c
-- starts the reader from the value that is returned.
use stackplz.Base.{ℕ, ◌+◌, ◌^◌, ◌<◌, ◌≤◌, ◌≡◌, ◌≢◌, ◌⊎◌, none, some, List, ◌∷◌, map, get_or}
use stackplz.Types.{
  op_skip, op_code, op_value, OpCtx, CommonFilter, PointArgs, CtxRegs, args_buf_size, uprobe_exit,
}
use stackplz.Kernel.{Kernel, Target, Config, IsKernel}
use stackplz.Event.Entries.{Entry}
use stackplz.Filtering.{should_trace}
use stackplz.Decoder.Args.{PointArg, Parsed, reads_at, ebpf_uprobe_exit}
use stackplz.Decoder.Saves.{SavesAll}
use stackplz.Decoder.Uprobe.{UprobePoint}
use stackplz.Programs.World.{World, Host, PtRegs, Session}
use stackplz.Programs.Context.{init_program_data}
use stackplz.Programs.Probe.{return_regs}
use stackplz.Compiler.{OpManager}
use stackplz.Compiler.Ops.{ArgTypes}
use stackplz.Compiler.Runs.Args.{printed}
use stackplz.Compiler.Runs.Filters.{Admits, budget}
use stackplz.Compiler.Runs.Point.{AreWhole, AreBare, IsReturn, total_need, printed_arg}
use stackplz.Compiler.Loaded.{IsCompiled}
use stackplz.Compiler.Ran.{Ran}
use stackplz.Compiler.Handled.{Leaves}

-- A return of the function that passes the filter, as `IsProbed` for an entry.
pub record IsReturned (h : Host) (k : Kernel) (t : Target) (cfg : Config) (pt : PtRegs) (key : ℕ)
    (w : World) (pa : PointArgs) (s : Session) (f : CommonFilter) (regs : CtxRegs) (w' : World)
    (c : OpCtx) : Type 0 where
  pub starts : (init_program_data h cfg w).0 ≡ some s
  pub traced : should_trace cfg w.child_parent_map s.config s.event.context ≢ 0
  pub has_point : cfg.uretprobe_point_args key ≡ some pa
  pub has_filter : cfg.common_filter ≡ some f
  pub has_regs : return_regs h k t cfg pt pa s.world ≡ some (regs, w')
  pub has_op : w'.op_ctx_map 0 ≡ some c
  pub idle : (c.post_code ≡ op_value op_skip) ⊎ (op_code c.post_code ≡ none)

module _ (h : Host) (k : Kernel) (t : Target) (cfg : Config) (pt : PtRegs) (law : IsKernel k)
    (types : ArgTypes) (vs : OpManager) (p : UprobePoint) (ret : PointArg) (max_ops : ℕ)
    (pa : PointArgs) (regs : CtxRegs) (key : ℕ)
    (compiled : IsCompiled cfg types vs (ret ∷ p.point_args) max_ops pa)
    (value : IsReturn ebpf_uprobe_exit (get_or pt.regs 0 0) ret)
    (bare : AreBare ebpf_uprobe_exit regs p.point_args) (whole : AreWhole p.point_args)
    (passes : Admits cfg regs p.point_args)
    (enough : budget (ret ∷ p.point_args) + 1 < t.max_op_count) (wide : t.max_op_count ≤ 2 ^ 32)
    (room : 32 + total_need (map (reads_at ebpf_uprobe_exit) (ret ∷ p.point_args)) + 4101
      ≤ args_buf_size) where
  -- what is told of the value returned, where the reader starts with the address `a`
  abbrev told_ret : ℕ → Parsed
  told_ret a = printed k t (get_or pt.regs 0 0) a (reads_at ebpf_uprobe_exit ret)

  abbrev told_args : List Parsed
  told_args = map (printed_arg k t regs ebpf_uprobe_exit) p.point_args

  abbrev SavesReturn : ℕ → List Entry → Type 0
  SavesReturn a entries =
      SavesAll (map (reads_at ebpf_uprobe_exit) (ret ∷ p.point_args)) (told_ret a ∷ told_args)
        entries

  abbrev ReturnSends : ℕ → Session → CommonFilter → World → World → Type 0
  ReturnSends a s f w w' =
      Leaves k t cfg pa regs (SavesReturn a) pt uprobe_exit key f s.event w.out w'.out
