-- ===== src/Compiler/Sent.antt =====
-- From an entry of a traced task to what user space tells of it: the handler of src/syscall.c runs
-- the compiled operations, sends the record, and the decoder reads it.
use stackplz.Base.{
  ℕ, ◌+◌, ◌^◌, ◌<◌, ◌≤◌, ◌≡◌, ◌≢◌, refl, ap, ◌∙◌, arith, ◌⊎◌, none, some, List, ◌∷◌, ◌++◌, ◌==◌,
  true, false, map, get_or,
}
use stackplz.Types.{
  op_skip, op_code, op_value, OpCtx, CommonFilter, PointArgs, args_buf_size, syscall_enter,
}
use stackplz.Kernel.{Kernel, Target, Config, IsKernel}
use stackplz.Event.{ok}
use stackplz.Event.Entries.{encode_all}
use stackplz.Filtering.{should_trace}
use stackplz.Decoder.Args.{reads_at, ebpf_sys_enter}
use stackplz.Decoder.Record.{SyscallPoint, get_syscall_point, parse_record}
use stackplz.Decoder.Context.{IsContext}
use stackplz.Decoder.Sent.{sample, IsOrigin, parse_enter_lem, record_lem}
use stackplz.Programs.World.{World, Host, PtRegs, Session, Output, perf, close}
use stackplz.Programs.Context.{init_program_data}
use stackplz.Programs.Context.Start.{init-Started}
use stackplz.Programs.Regs.{save_regs}
use stackplz.Programs.Submit.{
  read_regs, events_perf_submit, send_signals, signals, link_register, stack_pointer,
}
use stackplz.Programs.Submit.Report.{origin}
use stackplz.Programs.Syscall.{
  sysno, is_our_task, sysno_passes, enter_done, enter_traced, enter_session, sys_enter,
}
use stackplz.Compiler.{OpManager}
use stackplz.Compiler.Ops.{ArgTypes}
use stackplz.Compiler.Runs.Filters.{Admits, budget}
use stackplz.Compiler.Runs.Point.{AreWhole, AreBare, total_need, printed_arg}
use stackplz.Compiler.Loaded.{IsCompiled}
use stackplz.Compiler.Handled.{Sends, report-Sends, IsContext-sent}

-- An entry that passes every filter, with the registers of the reader at hand: `s` is the session
-- that the initialisation starts, `f` the common filter and `c` the reader's registers.
pub record IsTraced (h : Host) (t : Target) (cfg : Config) (pt : PtRegs) (w : World)
    (pa : PointArgs) (s : Session) (f : CommonFilter) (c : OpCtx) : Type 0 where
  pub ours : is_our_task h t ≡ true
  pub starts : (init_program_data h cfg w).0 ≡ some s
  pub traced : should_trace cfg w.child_parent_map s.config s.event.context ≢ 0
  pub has_point : cfg.sysenter_point_args (sysno pt) ≡ some pa
  pub has_filter : cfg.common_filter ≡ some f
  pub passes : sysno_passes cfg f (sysno pt) ≡ true
  pub has_op : w.op_ctx_map 0 ≡ some c
  pub idle : (c.post_code ≡ op_value op_skip) ⊎ (op_code c.post_code ≡ none)

module _ (h : Host) (k : Kernel) (t : Target) (cfg : Config) (pt : PtRegs) (law : IsKernel k)
    (types : ArgTypes) (vs : OpManager) (p : SyscallPoint) (max_ops : ℕ) (pa : PointArgs)
    (compiled : IsCompiled cfg types vs p.enter_args max_ops pa)
    (bare : AreBare ebpf_sys_enter (read_regs pt) p.enter_args) (whole : AreWhole p.enter_args)
    (passes : Admits cfg (read_regs pt) p.enter_args)
    (enough : budget p.enter_args + 1 < t.max_op_count) (wide : t.max_op_count ≤ 2 ^ 32)
    (room : 32 + total_need (map (reads_at ebpf_sys_enter) p.enter_args) + 4101
      ≤ args_buf_size) where
  abbrev EnterSends : Session → CommonFilter → World → Type 0
  EnterSends s f w =
      Sends k t cfg law types vs p.enter_args ebpf_sys_enter (read_regs pt) max_ops pa compiled bare
        whole passes enough wide room pt syscall_enter (sysno pt) f s.event s.world.out w.out

  enter_traced-Sends :
      (s : Session) (f : CommonFilter) (c : OpCtx)
      → s.world.op_ctx_map 0 ≡ some c
      → (c.post_code ≡ op_value op_skip) ⊎ (op_code c.post_code ≡ none)
      → s.event.buf_off ≡ 0
      → s.event.context.argnum ≡ 0
      → (w : World) × (enter_traced h k t cfg pt f pa s ≡ ok w)
        × EnterSends s f w
        × (w.ctx_regs_map ≡ (save_regs h (read_regs pt) syscall_enter s.world).ctx_regs_map)
        × (w.op_ctx_map 1 ≡ s.world.op_ctx_map 1)
  unfolding enter_traced enter_done send_signals save_regs events_perf_submit
  enter_traced-Sends s f c op idle fresh zero =
      let (e, s2, r, returns, sends, kept_regs, kept_ops) =
        report-Sends k t cfg law types vs p.enter_args ebpf_sys_enter (read_regs pt) max_ops pa
          compiled bare whole passes enough wide room pt syscall_enter (sysno pt) s f
          (get_or (read_regs pt).regs 0 0) c (save_regs h (read_regs pt) syscall_enter s.world) idle
          fresh zero in
      (
        close (send_signals f pa (events_perf_submit syscall_enter s2)),
        rw (r, op, returns) refl,
        sends,
        kept_regs,
        kept_ops,
      )

  pub enter_session-Sends :
      (w : World) (s : Session) (f : CommonFilter) (c : OpCtx)
      → IsTraced h t cfg pt w pa s f c
      → (w' : World) × (sys_enter h k t cfg pt w ≡ ok w')
        × EnterSends s f w'
        × (s.world.out ≡ w.out)
        × (w'.ctx_regs_map ≡ (save_regs h (read_regs pt) syscall_enter w).ctx_regs_map)
        × (w'.op_ctx_map 1 ≡ w.op_ctx_map 1)
  unfolding sys_enter enter_session
  enter_session-Sends w s f c tr =
      let st = init-Started h cfg w tr.starts in
      let (w', returns, sends, regs, ops) =
        enter_traced-Sends s f c (ap (λ (v : World). v.op_ctx_map 0) st.world ∙ tr.has_op) tr.idle
          st.fresh st.argnum in
      let forks = ap (λ (v : World). v.child_parent_map) st.world in
      let traced : (should_trace cfg s.world.child_parent_map s.config s.event.context == 0)
          ≡ false =
        rw forks (ground (arith, tr.traced)) in
      (
        w',
        rw (tr.ours, tr.starts, traced, tr.has_point, tr.has_filter, tr.passes) returns,
        sends,
        ap (λ (v : World). v.out) st.world,
        regs ∙ ap (λ v. (save_regs h (read_regs pt) syscall_enter v).ctx_regs_map) st.world,
        ops ∙ ap (λ (v : World). v.op_ctx_map 1) st.world,
      )

  -- An entry of a traced task, at a call whose arguments (each from a register of 64 bits,
  -- grouped with this kind of point, of a registered type without loops that the decoder takes
  -- whole, filtered by value only, and admitted by their filters) are compiled and loaded, with
  -- room in the buffer, the rounds that the operations need, numbers in the width of their types,
  -- and registers of the reader in which no second half of an operation waits: `sys_enter`
  -- returns, and sends one record and the signals that are configured. The decoder reads that
  -- record back: the context of the task, the number of the call, `lr`, `sp` and `pc`, and for
  -- each argument the value of its register and, where the argument says to read more, what the
  -- kernel reads there; it leaves what follows the record.
  pub parse_record-sys_enter :
      (w : World) (s : Session) (f : CommonFilter) (c : OpCtx) (points : List SyscallPoint)
      (rest : List ℕ)
      → IsTraced h t cfg pt w pa s f c
      → get_syscall_point points (sysno pt) ≡ some p
      → IsContext s.event.context
      → IsOrigin f pt (sysno pt)
      → (w' : World) × (o : Output) × (n : ℕ) × (sys_enter h k t cfg pt w ≡ ok w')
        × (w'.out ≡ w.out ++ (o ∷ signals f pa))
        × (parse_record points (sample o rest)
            ≡ some (
              (
                record s.event.context { eventid = syscall_enter; argnum = n },
                record {
                  nr = sysno pt;
                  lr = link_register f pt;
                  sp = stack_pointer f pt;
                  pc = pt.pc;
                  args = map (printed_arg k t (read_regs pt) ebpf_sys_enter) p.enter_args;
                },
              ),
              rest,
            ))
  parse_record-sys_enter w s f c points rest tr known v origin_ =
      let (w', returns, (n, entries, small, out, saved), before, kept_regs, kept_ops) =
        enter_session-Sends w s f c tr in
      let context = record s.event.context { eventid = syscall_enter; argnum = n } in
      let told = map (printed_arg k t (read_regs pt) ebpf_sys_enter) p.enter_args in
      let sent = perf context (encode_all (origin f pt (sysno pt) ++ entries)) in
      (
        w',
        sent,
        n,
        returns,
        out ∙ ap (λ o. o ++ (sent ∷ signals f pa)) before,
        record_lem points p told entries rest _ _ _
            (IsContext-sent s.event.context syscall_enter n v (omega arith) small)
            (parse_enter_lem points p told entries rest _ _ _ _ known refl origin_ saved),
      )
