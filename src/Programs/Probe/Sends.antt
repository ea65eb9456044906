-- ===== src/Programs/Probe/Sends.antt =====
-- What the handlers of function probes send.
use stackplz.Base.{ℕ, ◌≡◌, ap, ◌∙◌, Option, List, get_or, ◌==◌, Bool-cases, Option-cases, inl, inr}
use stackplz.Types.{CommonFilter, PointArgs, CtxRegs, uprobe_enter, uprobe_exit}
use stackplz.Kernel.{Kernel, IsKernel, Config, Target}
use stackplz.Event.{Run}
use stackplz.Event.Stream.{stream}
use stackplz.Event.Entries.{Extends-refl}
use stackplz.Programs.World.{World, Host, PtRegs, Session, Output}
use stackplz.Programs.Context.{init_program_data}
use stackplz.Programs.Context.Start.{init-Started, init-Kept}
use stackplz.Programs.Submit.{reset_op, put_op, signals}
use stackplz.Programs.Submit.Report.{origin, save_origin-emits, run_reader-Ran, Reports, Cause}
use stackplz.Programs.Probe.{
  probe_regs, return_regs, probe_body, return_body, probe_stack_warp, uretprobe_stack_warp,
}
use stackplz.Programs.Probe.Reports.{
  ProbeReports, silent, grown-Reports, probe_session-Reports, probe_regs-out, return_regs-out,
}

module _ (h : Host) (k : Kernel) (t : Target) (cfg : Config) (pt : PtRegs) (law : IsKernel k)
    (forks : ℕ → Option ℕ) (before : List Output) (key : ℕ) (point : Option PointArgs) (s : Session)
    (f : CommonFilter) (args : PointArgs) (regs : CtxRegs) (w : World)
    (why : Cause cfg forks point s f args) (out : w.out ≡ before) where
  probe_body-Reports :
      ProbeReports h k t cfg pt law forks before uprobe_enter key point
        (probe_body h k t cfg pt key f args regs (record s { world = w }))
  unfolding probe_body put_op
  probe_body-Reports =
      let (e, r, v, view) = save_origin-emits f pt key s.event why.fresh in
      let s1 : Session = record s { event = e; world = w } in
      rw r (elim (Option-cases (w.op_ctx_map 0)) [
        | inl none_ ↦ rw none_ (silent h k t cfg pt law forks before uprobe_enter key point _ out)
        | inr (c, some_) ↦
            let ran =
              run_reader-Ran k t cfg args regs 0 (reset_op (get_or regs.regs 0 0) 4 c) s1 law v in
            rw (some_, ran.returns)
              (grown-Reports h k t cfg pt law forks before uprobe_enter key point s s1 ran.session f
                args ran.skip why view ran.grows ran.valid (ran.out ∙ out))
      ])

  return_body-Reports :
      ProbeReports h k t cfg pt law forks before uprobe_exit key point
        (return_body h k t cfg pt key f args regs (record s { world = w }))
  unfolding return_body put_op
  return_body-Reports =
      let (e, r, v, view) = save_origin-emits f pt key s.event why.fresh in
      let s1 : Session = record s { event = e; world = w } in
      rw r (elim (Option-cases (w.op_ctx_map 0)) [
        | inl none_ ↦ rw none_ (silent h k t cfg pt law forks before uprobe_exit key point _ out)
        | inr (c, some_) ↦
            let c' = reset_op (get_or pt.regs 0 0) 4 c in
            rw some_ (elim (Bool-cases (args.op_count == 0)) [
              | inl z ↦ rw z (
                  grown-Reports h k t cfg pt law forks before uprobe_exit key point s s1
                    (record s1 { world = put_op 0 c' w }) f args 0 why view
                    (Extends-refl (stream e)) v out)
              | inr n ↦
                  let ran = run_reader-Ran k t cfg args regs 0 c' s1 law v in
                  rw (n, ran.returns)
                    (grown-Reports h k t cfg pt law forks before uprobe_exit key point s s1
                      ran.session f args ran.skip why view ran.grows ran.valid (ran.out ∙ out))
            ])
      ])

module _ (h : Host) (k : Kernel) (t : Target) (cfg : Config) (pt : PtRegs) (law : IsKernel k)
    (key : ℕ) (w : World) where
  abbrev pub ProbeSends : ℕ → Option PointArgs → Run World → Type 0
  ProbeSends id point = Reports cfg w.child_parent_map id point (λ f. origin f pt key) signals w.out

  -- With reads that fill their destination, or at most that for strings, the handler of an entry
  -- point returns from every state. It sends nothing, or one record and its signals: the record is
  -- of a task that `should_trace` admits and of a point that has arguments configured; it begins
  -- with the number of the point, `lr`, `sp` and `pc`, continues with whole entries, and its
  -- context counts them modulo 256.
  pub probe_stack_warp-Reports :
      ProbeSends uprobe_enter (cfg.uprobe_point_args key) (probe_stack_warp h k t cfg pt key w)
  unfolding probe_stack_warp
  probe_stack_warp-Reports = elim (Option-cases (init_program_data h cfg w).0) [
    | inl e ↦
        rw (e, probe_stack_warp)
          (silent h k t cfg pt law w.child_parent_map w.out uprobe_enter key _ _
            (init-Kept h cfg w).out)
    | inr (s, e) ↦
        let st = init-Started h cfg w e in
        rw (e, probe_stack_warp)
          (probe_session-Reports h k t cfg pt law w.child_parent_map w.out uprobe_enter key
            (cfg.uprobe_point_args key) s (λ args. probe_regs h k t cfg pt args key)
            (probe_body h k t cfg pt key)
            (λ args regs w'. probe_regs-out h k t cfg pt args key s.world regs w')
            (probe_body-Reports h k t cfg pt law w.child_parent_map w.out key
              (cfg.uprobe_point_args key) s)
            (ap (λ (v : World). v.out) st.world) (ap (λ (v : World). v.child_parent_map) st.world)
            st.fresh st.argnum st.config)
  ]

  -- With reads that fill their destination, or at most that for strings, the handler of a return
  -- point returns from every state. It sends nothing, or one record and its signals, as at an
  -- entry, with the arguments that are configured for the return.
  pub uretprobe_stack_warp-Reports :
      ProbeSends uprobe_exit
        (cfg.uretprobe_point_args key)
        (uretprobe_stack_warp h k t cfg pt key w)
  unfolding uretprobe_stack_warp
  uretprobe_stack_warp-Reports = elim (Option-cases (init_program_data h cfg w).0) [
    | inl e ↦
        rw (e, uretprobe_stack_warp)
          (silent h k t cfg pt law w.child_parent_map w.out uprobe_exit key _ _
            (init-Kept h cfg w).out)
    | inr (s, e) ↦
        let st = init-Started h cfg w e in
        rw (e, uretprobe_stack_warp)
          (probe_session-Reports h k t cfg pt law w.child_parent_map w.out uprobe_exit key
            (cfg.uretprobe_point_args key) s (return_regs h k t cfg pt)
            (return_body h k t cfg pt key)
            (λ args regs w'. return_regs-out h k t cfg pt args s.world regs w')
            (return_body-Reports h k t cfg pt law w.child_parent_map w.out key
              (cfg.uretprobe_point_args key) s)
            (ap (λ (v : World). v.out) st.world) (ap (λ (v : World). v.child_parent_map) st.world)
            st.fresh st.argnum st.config)
  ]
