-- ===== src/Compiler/Exited.antt =====
-- From the exit of a traced call to what user space tells of it: the handler of src/syscall.c takes
-- the registers that the entry kept, runs the compiled operations on them, and saves the result.
use mathlib.Core.List.{map-append}
use stackplz.Base.{
  ℕ, ◌+◌, ◌-◌, ◌^◌, ◌<◌, ◌≤◌, ◌≡◌, ◌≢◌, refl, sym, ap, ◌∙◌, subst, arith, ◌⊎◌, none, some, List, [],
  ◌∷◌, ◌++◌, ◌==◌, true, false, length, map, get_or,
}
use stackplz.Types.{
  op_skip, op_code, op_value, OpCtx, CommonFilter, PointArgs, CtxRegs, EventData, args_buf_size,
  syscall_enter, syscall_exit,
}
use stackplz.Kernel.{Kernel, Target, Config, IsKernel}
use stackplz.Event.{ok}
use stackplz.Event.Stream.{IsValid, stream}
use stackplz.Event.Entries.{Entry, word, encode, encode_all, emit_all, emit_all-append}
use stackplz.Buffer.{max_element_size}
use stackplz.Buffer.Total.{word-saved}
use stackplz.Filtering.{should_trace}
use stackplz.Decoder.Args.{PointArg, Parsed, plain, reads_at, ebpf_sys_exit}
use stackplz.Decoder.Saves.{SavesAll, nothing, argument}
use stackplz.Programs.World.{World, Host, PtRegs, Session, Output, perf, close}
use stackplz.Programs.Context.{init_program_data}
use stackplz.Programs.Context.Start.{init-Started}
use stackplz.Programs.Regs.{load_regs, del_regs}
use stackplz.Programs.Submit.{reset_op, events_perf_submit}
use stackplz.Programs.Submit.Report.{submit-sends, perf-emit_all, empty-stream, argnum-stream}
use stackplz.Programs.Syscall.{
  sysno, is_our_task, sysno_passes, exit_done, exit_traced, exit_loaded, exit_session, sys_exit,
}
use stackplz.Programs.Syscall.Exit.{number-emits}
use stackplz.Compiler.{OpManager}
use stackplz.Compiler.Ops.{ArgTypes}
use stackplz.Compiler.Compiled.{point_ops, configs}
use stackplz.Compiler.Loaded.{IsCompiled}
use stackplz.Compiler.Runs.Filters.{Admits, budget}
use stackplz.Compiler.Runs.Entries.{buf_off-emit_all}
use stackplz.Compiler.Runs.Point.{AreWhole, AreBare, total_need, printed_arg, point_ops-Runs}
use stackplz.Compiler.Runs.Shape.{IsShort, point_ops-IsShort}
use stackplz.Compiler.Result.{IsResult, exit_ops, budget-append, SavesAll-append, result-Saves}
use stackplz.Compiler.Ran.{Ran, run_reader-Ran}
use stackplz.Compiler.Handled.{argnum-small}

-- An exit that passes every filter of its own.
pub record IsExited (h : Host) (t : Target) (cfg : Config) (pt : PtRegs) (w : World)
    (pa : PointArgs) (s : Session) (f : CommonFilter) (c : OpCtx) : Type 0 where
  pub ours : is_our_task h t ≡ true
  pub starts : (init_program_data h cfg w).0 ≡ some s
  pub traced : should_trace cfg w.child_parent_map s.config s.event.context ≢ 0
  pub has_point : cfg.sysexit_point_args (sysno pt) ≡ some pa
  pub has_filter : cfg.common_filter ≡ some f
  pub passes : sysno_passes cfg f (sysno pt) ≡ true
  pub has_op : w.op_ctx_map 1 ≡ some c
  pub idle : (c.post_code ≡ op_value op_skip) ⊎ (op_code c.post_code ≡ none)

module _ (h : Host) (k : Kernel) (t : Target) (cfg : Config) (pt : PtRegs) (law : IsKernel k)
    (types : ArgTypes) (vs : OpManager) (args : List PointArg) (ret : PointArg) (max_ops : ℕ)
    (pa : PointArgs) (regs : CtxRegs)
    (compiled : IsCompiled cfg types vs (args ++ ret ∷ []) max_ops pa)
    (bare : AreBare ebpf_sys_exit regs args) (whole : AreWhole args) (passes : Admits cfg regs args)
    (result : IsResult ret) (small : get_or pt.regs 0 0 < 2 ^ 64)
    (enough : budget (args ++ ret ∷ []) + 1 < t.max_op_count) (wide : t.max_op_count ≤ 2 ^ 32)
    (room : 5 + total_need (map (reads_at ebpf_sys_exit) args) + 4101 ≤ args_buf_size) where
  abbrev exit_told : List Parsed
  exit_told = map (printed_arg k t regs ebpf_sys_exit) args ++ plain (get_or pt.regs 0 0) ∷ []

  abbrev SavesArgs : List Entry → Type 0
  SavesArgs entries =
      SavesAll (map (reads_at ebpf_sys_exit) args) (map (printed_arg k t regs ebpf_sys_exit) args)
        entries
      × (length (encode_all entries) ≤ total_need (map (reads_at ebpf_sys_exit) args))

  -- the run of the reader in the handler
  run_reader-args :
      (s : Session) (c : OpCtx)
      → (c.post_code ≡ op_value op_skip) ⊎ (op_code c.post_code ≡ none)
      → IsValid s.event
      → s.event.buf_off ≡ 5
      → Ran k t cfg pa regs 1 (reset_op (get_or regs.regs 0 0) 1 c) s SavesArgs
  run_reader-args s c idle v size =
      let (straight, few) = point_ops-IsShort ebpf_sys_exit regs args bare in
      let same = exit_ops args ret result in
      let short : IsShort (budget (args ++ ret ∷ [])) (configs (point_ops (args ++ ret ∷ []))) =
        rw same (straight, omega (arith, few, budget-append args ret)) in
      run_reader-Ran k t cfg regs types vs (args ++ ret ∷ []) max_ops pa compiled short enough wide
        law s 1 1 (get_or regs.regs 0 0) c SavesArgs idle v
        (λ r e addr value q.
          let (entries, p, saved, sized) =
            point_ops-Runs k law t cfg regs ebpf_sys_exit args r bare whole passes
              (rw (e, size) room) q in
          (entries, rw same p, (saved, sized)))

  -- What the handler leaves: the record with what the decoder will tell.
  abbrev ExitSends : EventData → List Output → List Output → Type 0
  ExitSends e before out =
      (n : ℕ) × (entries : List Entry) × (n < 256)
      × (out
          ≡ before
            ++ (perf (record e.context { eventid = syscall_exit; argnum = n })
                  (encode_all (word 4 0 (sysno pt) ∷ entries))
                ∷ []))
      × SavesAll (map (reads_at ebpf_sys_exit) (args ++ ret ∷ [])) exit_told entries

  -- the result behind the arguments, and the record
  exit_done-Sends :
      (s0 : EventData) (s : Session) (index : ℕ) (entries : List Entry)
      → s0.buf_off ≡ 0
      → s0.context.argnum ≡ 0
      → stream s.event ≡ emit_all (stream s0) (word 4 0 (sysno pt) ∷ entries)
      → SavesArgs entries
      → (w : World) × (exit_done h k t cfg pt 0 index s ≡ ok w) × ExitSends s0 s.world.out w.out
  unfolding exit_done encode encode_all emit_all stream
  exit_done-Sends s0 s index entries fresh zero view (saved, sized) =
      let first = word 4 0 (sysno pt) in
      let last = word 8 index (get_or pt.regs 0 0) in
      let full : s.event.buf_off ≤ args_buf_size - (max_element_size + 1) =
        omega (arith, buf_off-emit_all s0 s.event (first ∷ entries) view) in
      let (e, returns, more, size) =
        word-saved s.event 8 index (get_or pt.regs 0 0) full (omega arith) (omega arith) in
      let s' = record s { event = e } in
      let valid : IsValid e = record { within = omega arith } in
      let whole : stream e ≡ emit_all (stream s0) (first ∷ (entries ++ last ∷ [])) =
        more
        ∙ ap (λ u. emit_all u (last ∷ [])) view
        ∙ sym (emit_all-append (stream s0) (first ∷ entries) (last ∷ [])) in
      let (same, count) =
        perf-emit_all syscall_exit (stream s0) (stream e) (first ∷ (entries ++ last ∷ []))
          (empty-stream s0 fresh) (argnum-stream s0 zero) whole in
      (
        close (events_perf_submit syscall_exit s'),
        rw returns refl,
        (
          (stream e).context.argnum,
          entries ++ last ∷ [],
          rw whole (
              argnum-small (stream s0) (first ∷ (entries ++ last ∷ []))
                (omega (arith, argnum-stream s0 zero))),
          submit-sends syscall_exit s' valid ∙ ap (λ o. s.world.out ++ o ∷ []) same,
          rw (map-append (reads_at ebpf_sys_exit) args (ret ∷ [])) (
              SavesAll-append saved
                (argument (result-Saves ret index (get_or pt.regs 0 0) result small) nothing)),
        ),
      )

  exit_traced-Sends :
      (s : Session) (f : CommonFilter) (c : OpCtx)
      → s.world.op_ctx_map 1 ≡ some c
      → (c.post_code ≡ op_value op_skip) ⊎ (op_code c.post_code ≡ none)
      → s.event.buf_off ≡ 0
      → s.event.context.argnum ≡ 0
      → (w : World) × (exit_traced h k t cfg pt pa regs s ≡ ok w)
        × ExitSends s.event s.world.out w.out
  unfolding exit_traced emit_all encode encode_all stream
  exit_traced-Sends s f c op idle fresh zero =
      let (e, r, v, first) = number-emits pt f s.event fresh in
      let five : e.buf_off ≡ 5 =
        omega (arith, fresh, buf_off-emit_all s.event e (word 4 0 (sysno pt) ∷ []) first) in
      let ran = run_reader-args (record s { event = e }) c idle v five in
      let index : ℕ = elim (ran.session.world.op_ctx_map 1) [
        | none ↦ 0
        | some c' ↦ c'.save_index
      ] in
      let view : stream ran.session.event
          ≡ emit_all (stream s.event) (word 4 0 (sysno pt) ∷ ran.entries) =
        ran.view
        ∙ ap (λ u. emit_all u ran.entries) first
        ∙ sym (emit_all-append (stream s.event) (word 4 0 (sysno pt) ∷ []) ran.entries) in
      let (w, returns, sends) =
        exit_done-Sends s.event ran.session index ran.entries fresh zero view ran.result in
      (w, rw (r, op, ran.returns) returns, subst (λ o. ExitSends s.event o w.out) ran.out sends)

  pub exit_session-Sends :
      (w : World) (s : Session) (f : CommonFilter) (c : OpCtx)
      → IsExited h t cfg pt w pa s f c
      → load_regs h syscall_enter w ≡ some regs
      → (regs.flag == 1) ≡ false
      → (w' : World) × (sys_exit h k t cfg pt w ≡ ok w') × ExitSends s.event w.out w'.out
  unfolding sys_exit exit_session exit_loaded del_regs
  exit_session-Sends w s f c tr kept reported =
      let st = init-Started h cfg w tr.starts in
      let s' = record s { world = del_regs h syscall_enter s.world } in
      let (w', returns, sends) =
        exit_traced-Sends s' f c (ap (λ (v : World). v.op_ctx_map 1) st.world ∙ tr.has_op) tr.idle
          st.fresh st.argnum in
      let forks = ap (λ (v : World). v.child_parent_map) st.world in
      let traced : (should_trace cfg s.world.child_parent_map s.config s.event.context == 0)
          ≡ false =
        rw forks (ground (arith, tr.traced)) in
      let regs_ : load_regs h syscall_enter s.world ≡ some regs =
        ap (load_regs h syscall_enter) st.world ∙ kept in
      (
        w',
        rw (tr.ours, tr.starts, traced, tr.has_point, tr.has_filter, regs_, reported, tr.passes)
            returns,
        subst (λ o. ExitSends s.event o w'.out) (ap (λ (v : World). v.out) st.world) sends,
      )
