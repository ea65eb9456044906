-- ===== src/Compiler/SentProbe.antt =====
-- From the entry of a probed function to what user space tells of it: the handler of src/stack.c
-- runs the compiled operations, sends the record, and the decoder reads it.
use stackplz.Base.{
  ℕ, ◌+◌, ◌^◌, ◌<◌, ◌≤◌, ◌≡◌, ◌≢◌, refl, ap, ◌∙◌, arith, ◌⊎◌, none, some, List, ◌∷◌, ◌++◌, ◌==◌,
  false, map, get_or, get_elem?,
}
use stackplz.Types.{
  op_skip, op_code, op_value, OpCtx, CommonFilter, PointArgs, CtxRegs, args_buf_size, uprobe_enter,
}
use stackplz.Kernel.{Kernel, Target, Config, IsKernel}
use stackplz.Event.{ok}
use stackplz.Event.Entries.{encode_all}
use stackplz.Filtering.{should_trace}
use stackplz.Decoder.Args.{reads_at, ebpf_uprobe_enter}
use stackplz.Decoder.Uprobe.{UprobePoint, parse_uprobe_record}
use stackplz.Decoder.Context.{IsContext}
use stackplz.Decoder.Sent.{sample, IsOrigin}
use stackplz.Decoder.SentProbe.{at_entry, uprobe_record_lem}
use stackplz.Programs.World.{World, Host, PtRegs, Session, Output, perf, close}
use stackplz.Programs.Context.{init_program_data}
use stackplz.Programs.Context.Start.{init-Started}
use stackplz.Programs.Submit.{
  events_perf_submit, send_signals, signals, link_register, stack_pointer,
}
use stackplz.Programs.Submit.Report.{origin}
use stackplz.Programs.Probe.{probe_regs, probe_done, probe_body, probe_session, probe_stack_warp}
use stackplz.Programs.Probe.Reports.{probe_regs-out}
use stackplz.Compiler.{OpManager}
use stackplz.Compiler.Ops.{ArgTypes}
use stackplz.Compiler.Runs.Filters.{Admits, budget}
use stackplz.Compiler.Runs.Point.{AreWhole, AreBare, total_need, printed_arg}
use stackplz.Compiler.Loaded.{IsCompiled}
use stackplz.Compiler.Handled.{Sends, report-Sends, IsContext-sent}

-- An entry of the function that passes the filter: `s` is the session that the initialisation
-- starts, `f` the common filter, `regs` the registers that the point reads, `w'` the maps then, and
-- `c` the reader's registers.
pub record IsProbed (h : Host) (k : Kernel) (t : Target) (cfg : Config) (pt : PtRegs) (key : ℕ)
    (w : World) (pa : PointArgs) (s : Session) (f : CommonFilter) (regs : CtxRegs) (w' : World)
    (c : OpCtx) : Type 0 where
  pub starts : (init_program_data h cfg w).0 ≡ some s
  pub traced : should_trace cfg w.child_parent_map s.config s.event.context ≢ 0
  pub has_point : cfg.uprobe_point_args key ≡ some pa
  pub has_filter : cfg.common_filter ≡ some f
  pub has_regs : probe_regs h k t cfg pt pa key s.world ≡ some (regs, w')
  pub has_op : w'.op_ctx_map 0 ≡ some c
  pub idle : (c.post_code ≡ op_value op_skip) ⊎ (op_code c.post_code ≡ none)

module _ (h : Host) (k : Kernel) (t : Target) (cfg : Config) (pt : PtRegs) (law : IsKernel k)
    (types : ArgTypes) (vs : OpManager) (p : UprobePoint) (max_ops : ℕ) (pa : PointArgs)
    (regs : CtxRegs) (key : ℕ) (compiled : IsCompiled cfg types vs p.point_args max_ops pa)
    (bare : AreBare ebpf_uprobe_enter regs p.point_args) (whole : AreWhole p.point_args)
    (passes : Admits cfg regs p.point_args) (enough : budget p.point_args + 1 < t.max_op_count)
    (wide : t.max_op_count ≤ 2 ^ 32)
    (room : 32 + total_need (map (reads_at ebpf_uprobe_enter) p.point_args) + 4101
      ≤ args_buf_size) where
  abbrev ProbeSends : Session → CommonFilter → World → World → Type 0
  ProbeSends s f w w' =
      Sends k t cfg law types vs p.point_args ebpf_uprobe_enter regs max_ops pa compiled bare whole
        passes enough wide room pt uprobe_enter key f s.event w.out w'.out

  probe_body-Sends :
      (s : Session) (f : CommonFilter) (c : OpCtx) (w : World)
      → w.op_ctx_map 0 ≡ some c
      → (c.post_code ≡ op_value op_skip) ⊎ (op_code c.post_code ≡ none)
      → s.event.buf_off ≡ 0
      → s.event.context.argnum ≡ 0
      → (w' : World) × (probe_body h k t cfg pt key f pa regs (record s { world = w }) ≡ ok w')
        × ProbeSends s f w w'
  unfolding probe_body probe_done send_signals
  probe_body-Sends s f c w op idle fresh zero =
      let (e, s2, r, returns, sends, kept_regs, kept_ops) =
        report-Sends k t cfg law types vs p.point_args ebpf_uprobe_enter regs max_ops pa compiled
          bare whole passes enough wide room pt uprobe_enter key s f (get_or regs.regs 0 0) c w idle
          fresh zero in
      (
        close (send_signals f pa (events_perf_submit uprobe_enter s2)),
        rw (r, op, returns) refl,
        sends,
      )

  probe_session-Sends :
      (w : World) (s : Session) (f : CommonFilter) (w1 : World) (c : OpCtx)
      → IsProbed h k t cfg pt key w pa s f regs w1 c
      → (w' : World) × (probe_stack_warp h k t cfg pt key w ≡ ok w')
        × ProbeSends s f w1 w'
        × (w1.out ≡ w.out)
  unfolding probe_stack_warp probe_session
  probe_session-Sends w s f w1 c tr =
      let st = init-Started h cfg w tr.starts in
      let (w', returns, sends) = probe_body-Sends s f c w1 tr.has_op tr.idle st.fresh st.argnum in
      let forks = ap (λ (v : World). v.child_parent_map) st.world in
      let traced : (should_trace cfg s.world.child_parent_map s.config s.event.context == 0)
          ≡ false =
        rw forks (ground (arith, tr.traced)) in
      (
        w',
        rw (tr.starts, probe_stack_warp, traced, tr.has_point, tr.has_filter, tr.has_regs) returns,
        sends,
        probe_regs-out h k t cfg pt pa key s.world regs w1 tr.has_regs
            ∙ ap (λ (v : World). v.out) st.world,
      )

  -- An entry of a probed function by a traced task, at a point whose arguments (each from a
  -- register of 64 bits, grouped with this kind of point, of a registered type without loops that
  -- the decoder takes whole, filtered by value only, and admitted by their filters) are compiled
  -- and loaded, with room in the buffer, the rounds that the operations need, numbers in the
  -- width of their types, and registers of the reader in which no second half of an operation
  -- waits: the handler returns, and sends one record and the signals that are configured. The
  -- decoder reads that record back: the context of the task, the number of the point, `lr`, `sp`
  -- and `pc`, and for each argument the value of its register (of this point, or kept by another)
  -- and, where the argument says to read more, what the kernel reads there; it leaves what
  -- follows the record.
  pub parse_uprobe_record-probe_stack_warp :
      (w : World) (s : Session) (f : CommonFilter) (w1 : World) (c : OpCtx)
      (points : List UprobePoint) (rest : List ℕ)
      → IsProbed h k t cfg pt key w pa s f regs w1 c
      → get_elem? points key ≡ some p
      → IsContext s.event.context
      → IsOrigin f pt key
      → (w' : World) × (o : Output) × (n : ℕ) × (probe_stack_warp h k t cfg pt key w ≡ ok w')
        × (w'.out ≡ w.out ++ (o ∷ signals f pa))
        × (parse_uprobe_record points (sample o rest)
            ≡ some (
              (
                record s.event.context { eventid = uprobe_enter; argnum = n },
                record {
                  probe_index = key;
                  lr = link_register f pt;
                  sp = stack_pointer f pt;
                  pc = pt.pc;
                  ret = none;
                  args = map (printed_arg k t regs ebpf_uprobe_enter) p.point_args;
                },
              ),
              rest,
            ))
  parse_uprobe_record-probe_stack_warp w s f w1 c points rest tr known v origin_ =
      let (w', returns, (n, entries, small, out, saved), before) =
        probe_session-Sends w s f w1 c tr in
      let context = record s.event.context { eventid = uprobe_enter; argnum = n } in
      let told = map (printed_arg k t regs ebpf_uprobe_enter) p.point_args in
      let sent = perf context (encode_all (origin f pt key ++ entries)) in
      (
        w',
        sent,
        n,
        returns,
        out ∙ ap (λ o. o ++ (sent ∷ signals f pa)) before,
        uprobe_record_lem points p none told entries rest context f pt key known origin_
            (at_entry saved) (IsContext-sent s.event.context uprobe_enter n v (omega arith) small),
      )
