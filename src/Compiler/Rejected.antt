-- ===== src/Compiler/Rejected.antt =====
-- An entry whose arguments a filter rejects: the reader says to skip, the handler of src/syscall.c
-- keeps the registers with a mark, and the return of the call is not reported either.
use stackplz.Base.{
  ℕ, ◌+◌, ◌^◌, ◌<◌, ◌≤◌, ◌≡◌, refl, ap, ◌∙◌, arith, ◌⊎◌, none, some, ◌==◌, false, map, get_or,
}
use stackplz.Types.{
  op_skip, op_code, op_value, OpCtx, CommonFilter, PointArgs, args_buf_size, syscall_enter,
}
use stackplz.Kernel.{Kernel, Target, Config, IsKernel}
use stackplz.Event.{ok}
use stackplz.Filtering.{should_trace}
use stackplz.ReadArgs.State.{Reader}
use stackplz.Decoder.Args.{reads_at, ebpf_sys_enter}
use stackplz.Decoder.Record.{SyscallPoint}
use stackplz.Programs.World.{World, Host, PtRegs, Session}
use stackplz.Programs.Context.Start.{init-Started}
use stackplz.Programs.Regs.{save_regs}
use stackplz.Programs.Regs.RoundTrip.{tid}
use stackplz.Programs.Submit.{read_regs, reset_op, run_reader, put_op}
use stackplz.Programs.Submit.Report.{save_origin-emits}
use stackplz.Programs.Syscall.{sysno, enter_done, enter_traced, enter_session, sys_enter, sys_exit}
use stackplz.Programs.Syscall.Pairing.{Silent, UpdatesInPlace, skipped_exit}
use stackplz.Compiler.{OpManager}
use stackplz.Compiler.Ops.{ArgTypes}
use stackplz.Compiler.Loaded.{IsCompiled}
use stackplz.Compiler.Runs.Filters.{Rejects, budget}
use stackplz.Compiler.Runs.Point.{AreBare, total_need, point_ops-Rejects}
use stackplz.Compiler.Runs.Shape.{point_ops-IsShort}
use stackplz.Compiler.Saved.{read_args-rejected}
use stackplz.Compiler.Ran.{reset-IsFresh}
use stackplz.Compiler.Handled.{origin-size}
use stackplz.Compiler.Sent.{IsTraced}

module _ (h : Host) (k : Kernel) (t : Target) (cfg : Config) (pt : PtRegs) (law : IsKernel k)
    (types : ArgTypes) (vs : OpManager) (p : SyscallPoint) (max_ops : ℕ) (pa : PointArgs)
    (compiled : IsCompiled cfg types vs p.enter_args max_ops pa)
    (bare : AreBare ebpf_sys_enter (read_regs pt) p.enter_args)
    (fails : Rejects cfg (read_regs pt) p.enter_args)
    (enough : budget p.enter_args + 1 < t.max_op_count) (wide : t.max_op_count ≤ 2 ^ 32)
    (room : 32 + total_need (map (reads_at ebpf_sys_enter) p.enter_args) + 4101
      ≤ args_buf_size) where
  run_reader-rejected :
      (s : Session) (reg_0 : ℕ) (c : OpCtx)
      → (c.post_code ≡ op_value op_skip) ⊎ (op_code c.post_code ≡ none)
      → s.event.buf_off ≡ 32
      → (s' : Session) × (run_reader k t cfg pa (read_regs pt) 0 (reset_op reg_0 4 c) s
          ≡ ok (1, s'))
        × (s'.world.out ≡ s.world.out)
  unfolding run_reader
  run_reader-rejected s reg_0 c idle size =
      let r : Reader = record { event = s.event; op = reset_op reg_0 4 c; strs = s.world.strs } in
      let (r', returns, skip) =
        read_args-rejected k t cfg (read_regs pt) types vs p.enter_args max_ops pa compiled
          (point_ops-IsShort ebpf_sys_enter (read_regs pt) p.enter_args bare) enough wide r
          (reset-IsFresh s.event reg_0 4 c s.world idle)
          (λ r0 f same q.
            point_ops-Rejects k law t cfg (read_regs pt) ebpf_sys_enter p.enter_args r0 f bare fails
              (rw (same, size) room) q) in
      (
        record s {
          event = r'.event;
          world = put_op 0 (record r'.op { skip_flag = 0 }) (record s.world { strs = r'.strs });
        },
        rw (returns, skip) refl,
        refl,
      )

  enter_traced-skips :
      (s : Session) (f : CommonFilter) (c : OpCtx)
      → s.world.op_ctx_map 0 ≡ some c
      → (c.post_code ≡ op_value op_skip) ⊎ (op_code c.post_code ≡ none)
      → s.event.buf_off ≡ 0
      → (s' : Session) × (enter_traced h k t cfg pt f pa s ≡ ok (enter_done h k t cfg pt f pa 1 s'))
        × (s'.world.out ≡ s.world.out)
  unfolding enter_traced save_regs
  enter_traced-skips s f c op idle fresh =
      let (e, r, v, first) = save_origin-emits f pt (sysno pt) s.event fresh in
      let kept = save_regs h (read_regs pt) syscall_enter s.world in
      let (s2, returns, out) =
        run_reader-rejected (record s { event = e; world = kept }) (get_or (read_regs pt).regs 0 0)
          c idle (origin-size f pt (sysno pt) s.event e fresh first) in
      (s2, rw (r, op, returns) refl, out)

  -- An entry of a traced task that passes the other filters, at a call whose arguments (each from
  -- a register of 64 bits, grouped with this kind of point, of a registered type without loops,
  -- filtered by value only) are compiled and loaded with their filters, of which one rejects the
  -- value of its argument; with room in the buffer, the rounds that the operations need, and
  -- registers of the reader in which no second half of an operation waits: `sys_enter` returns
  -- and sends nothing. Where a full map takes an entry for a key that it holds, the next
  -- `sys_exit` of the same thread returns and sends nothing either.
  pub sys_enter-Rejects :
      (w : World) (s : Session) (f : CommonFilter) (c : OpCtx) (h' : Host) (k' : Kernel)
      (cfg' : Config) (pt' : PtRegs)
      → IsTraced h t cfg pt w pa s f c
      → UpdatesInPlace h
      → tid h' ≡ tid h
      → (w' : World) × (sys_enter h k t cfg pt w ≡ ok w')
        × (w'.out ≡ w.out)
        × Silent w' (sys_exit h' k' t cfg' pt' w')
  unfolding sys_enter enter_session enter_done save_regs
  sys_enter-Rejects w s f c h' k' cfg' pt' tr law' same =
      let st = init-Started h cfg w tr.starts in
      let (s', returns, out) =
        enter_traced-skips s f c (ap (λ (v : World). v.op_ctx_map 0) st.world ∙ tr.has_op) tr.idle
          st.fresh in
      let forks = ap (λ (v : World). v.child_parent_map) st.world in
      let traced : (should_trace cfg s.world.child_parent_map s.config s.event.context == 0)
          ≡ false =
        rw forks (ground (arith, tr.traced)) in
      (
        enter_done h k t cfg pt f pa 1 s',
        rw (tr.ours, tr.starts, traced, tr.has_point, tr.has_filter, tr.passes) returns,
        out ∙ ap (λ (v : World). v.out) st.world,
        skipped_exit h k t cfg pt h' k' cfg' pt' f pa 1 s' law' same (omega arith),
      )
