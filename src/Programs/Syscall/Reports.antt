-- ===== src/Programs/Syscall/Reports.antt =====
-- What `sys_enter` and `sys_exit` send.
use stackplz.Base.{
  ℕ, ◌≡◌, ◌≢◌, refl, ap, ◌∙◌, sym, arith, Option, none, some, List, ◌++◌, get_or, ◌==◌,
  if◌then◌else◌, Bool-cases, Option-cases, inl, inr,
}
use stackplz.Types.{CommonFilter, PointArgs, syscall_enter}
use stackplz.Kernel.{Kernel, IsKernel, Config, Target}
use stackplz.Event.{Run, ok}
use stackplz.Event.Stream.{IsValid, stream}
use stackplz.Event.Entries.{Entry, emit_all, emit_all-append}
use stackplz.Filtering.{should_trace}
use stackplz.Programs.World.{World, Host, PtRegs, Session, Output, close}
use stackplz.Programs.Regs.{save_regs}
use stackplz.Programs.Context.{init_program_data}
use stackplz.Programs.Context.Start.{Started, init-Started, init-Kept}
use stackplz.Programs.Submit.{read_regs, reset_op, events_perf_submit, send_signals, signals}
use stackplz.Programs.Submit.Report.{
  origin, save_origin-emits, run_reader-Ran, Reports, Reports-silent, Cause, submit-Sent,
}
use stackplz.Programs.Syscall.{
  sysno, is_our_task, sysno_passes, enter_done, enter_traced, enter_session, sys_enter,
}

module _ (h : Host) (k : Kernel) (t : Target) (cfg : Config) (pt : PtRegs) (law : IsKernel k)
    (forks : ℕ → Option ℕ) (before : List Output) (point : Option PointArgs) where
  abbrev EnterReports : Run World → Type 0
  EnterReports = Reports cfg forks syscall_enter point (λ f. origin f pt (sysno pt)) signals before

  enter_done-Reports :
      (s s' : Session) (f : CommonFilter) (args : PointArgs) (entries : List Entry) (skip : ℕ)
      → Cause cfg forks point s f args
      → IsValid s'.event
      → stream s'.event ≡ emit_all (stream s.event) (origin f pt (sysno pt) ++ entries)
      → s'.world.out ≡ before
      → EnterReports (ok (enter_done h k t cfg pt f args skip s'))
  unfolding enter_done send_signals save_regs
  enter_done-Reports s s' f args entries skip why v view out = elim (Bool-cases (skip == 0)) [
    | inl z ↦ rw z (record {
      world = close (send_signals f args (events_perf_submit syscall_enter s'));
      returns = refl;
      result = inr (
          rw (← out)
            (submit-Sent cfg forks syscall_enter _ _ signals s s' f args entries why v view));
    })
    | inr n ↦ rw n (Reports-silent cfg forks syscall_enter _ _ signals before _ out)
  ]

  enter_traced-Reports :
      (s : Session) (f : CommonFilter) (args : PointArgs)
      → Cause cfg forks point s f args
      → s.world.out ≡ before
      → EnterReports (enter_traced h k t cfg pt f args s)
  unfolding enter_traced save_regs
  enter_traced-Reports s f args why out =
      let (e, r, v, view) = save_origin-emits f pt (sysno pt) s.event why.fresh in
      let s1 : Session = record s {
        event = e;
        world = save_regs h (read_regs pt) syscall_enter s.world;
      } in
      rw r (elim (Option-cases (s.world.op_ctx_map 0)) [
        | inl none_ ↦ rw none_ (Reports-silent cfg forks syscall_enter _ _ signals before _ out)
        | inr (c, some_) ↦
            let ran =
              run_reader-Ran k t cfg args (read_regs pt) 0
                (reset_op (get_or (read_regs pt).regs 0 0) 4 c) s1 law v in
            rw (some_, ran.returns)
              (enter_done-Reports s ran.session f args ran.grows.entries ran.skip why ran.valid
                (ran.grows.view
                  ∙ ap (λ u. emit_all u ran.grows.entries) view
                  ∙ sym
                      (emit_all-append (stream s.event) (origin f pt (sysno pt)) ran.grows.entries))
                (ran.out ∙ out))
      ])

  -- the common filter, then the filter of the call
  enter_filtered-Reports :
      (s : Session) (args : PointArgs) (o : Option CommonFilter)
      → cfg.common_filter ≡ o
      → point ≡ some args
      → should_trace cfg forks s.config s.event.context ≢ 0
      → cfg.base_config ≡ some s.config
      → s.event.buf_off ≡ 0
      → s.event.context.argnum ≡ 0
      → s.world.out ≡ before
      → EnterReports (elim o [
        | none ↦ ok (close s)
        | some f ↦
            if sysno_passes cfg f (sysno pt)
            then enter_traced h k t cfg pt f args s
            else ok (close s)
      ])
  enter_filtered-Reports s args none e at traced known fresh argnum out =
      Reports-silent cfg forks syscall_enter point (λ f. origin f pt (sysno pt)) signals before
        (close s) out
  enter_filtered-Reports s args (some f) e at traced known fresh argnum out =
      elim (Bool-cases (sysno_passes cfg f (sysno pt))) [
        | inl p ↦ rw p (
            enter_traced-Reports s f args
              (record {
                known = known;
                traced = traced;
                has_filter = e;
                has_point = at;
                fresh = fresh;
                argnum = argnum;
              })
              out)
        | inr p ↦ rw p (
            Reports-silent cfg forks syscall_enter point (λ f. origin f pt (sysno pt)) signals
              before (close s) out)
      ]

module _ (h : Host) (k : Kernel) (t : Target) (cfg : Config) (pt : PtRegs) (law : IsKernel k) where
  abbrev pub EnterSends : (ℕ → Option ℕ) → List Output → Run World → Type 0
  EnterSends forks before =
      Reports cfg forks syscall_enter (cfg.sysenter_point_args (sysno pt))
        (λ f. origin f pt (sysno pt)) signals before

  enter_session-Reports :
      (w : World) (s : Session)
      → Started cfg w s
      → EnterSends w.child_parent_map w.out (enter_session h k t cfg pt s)
  unfolding enter_session
  enter_session-Reports w s st =
      let out = ap (λ (v : World). v.out) st.world in
      let forks = ap (λ (v : World). v.child_parent_map) st.world in
      let silent = λ (o : Option PointArgs).
        Reports-silent cfg w.child_parent_map syscall_enter o (λ f. origin f pt (sysno pt)) signals
          w.out (close s) out in
      elim (Bool-cases (should_trace cfg s.world.child_parent_map s.config s.event.context == 0)) [
        | inl z ↦ rw z (silent (cfg.sysenter_point_args (sysno pt)))
        | inr n ↦ rw n (elim (Option-cases (cfg.sysenter_point_args (sysno pt))) [
          | inl e ↦ rw e (silent none)
          | inr (args, e) ↦ rw e (
              enter_filtered-Reports h k t cfg pt law w.child_parent_map w.out (some args) s args
                cfg.common_filter refl refl (rw (← forks) (ground arith)) st.config st.fresh
                st.argnum out)
        ])
      ]

  -- With reads that fill their destination, or at most that for strings, `sys_enter` returns from
  -- every state, whatever the configuration and the program of the reader. It sends nothing, or one record and its signals: the record is of a task that
  -- `should_trace` admits and of a call that has arguments configured; it begins with the number
  -- of the call, `lr`, `sp` and `pc`, continues with whole entries, and its context counts them modulo 256.
  pub sys_enter-Reports :
      (w : World) → EnterSends w.child_parent_map w.out (sys_enter h k t cfg pt w)
  unfolding sys_enter
  sys_enter-Reports w = elim (Bool-cases (is_our_task h t)) [
    | inl ours ↦ rw ours (elim (Option-cases (init_program_data h cfg w).0) [
      | inl e ↦ rw e (
          Reports-silent cfg w.child_parent_map syscall_enter _ _ signals w.out _
            (init-Kept h cfg w).out)
      | inr (s, e) ↦ rw e (enter_session-Reports w s (init-Started h cfg w e))
    ])
    | inr other ↦
        rw other (Reports-silent cfg w.child_parent_map syscall_enter _ _ signals w.out w refl)
  ]
