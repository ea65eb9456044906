-- ===== src/Programs/Syscall/Exit.antt =====
-- What `sys_exit` sends.
use stackplz.Base.{
  ℕ, ◌≡◌, refl, ap, ◌∙◌, sym, arith, not, ◌&&◌, Option, none, some, List, [], ◌∷◌, get_or, ◌==◌,
  Bool-cases, Option-cases, inl, inr, append-nil,
}
use stackplz.Types.{EventData, CommonFilter, PointArgs, CtxRegs, syscall_enter, syscall_exit}
use stackplz.Kernel.{Kernel, IsKernel, Config, Target, variable}
use stackplz.Event.{Run, ok}
use stackplz.Event.Stream.{IsValid, stream}
use stackplz.Event.Entries.{Entry, word, encode, emit_all, emit_all-append, Extends}
use stackplz.Buffer.{save_to_submit_buf}
use stackplz.Buffer.Total.{word-saved}
use stackplz.Filtering.{should_trace}
use stackplz.ReadArgs.Keeps.{word-Grows}
use stackplz.Programs.World.{World, Host, PtRegs, Session, Output, close}
use stackplz.Programs.Regs.{load_regs, del_regs}
use stackplz.Programs.Context.{init_program_data}
use stackplz.Programs.Context.Start.{Started, init-Started, init-Kept}
use stackplz.Programs.Submit.{reset_op, events_perf_submit}
use stackplz.Programs.Submit.Report.{run_reader-Ran, Reports, Reports-silent, Cause, submit-Sent}
use stackplz.Programs.Syscall.{
  sysno, is_our_task, sysno_passes, exit_done, exit_traced, exit_loaded, exit_session, sys_exit,
}

-- Argument 0, and no signals.
abbrev pub number : PtRegs → CommonFilter → List Entry
number pt f = word 4 0 (sysno pt) ∷ []

abbrev pub no_signals : CommonFilter → PointArgs → List Output
no_signals f args = []

pub number-emits :
    (pt : PtRegs) (f : CommonFilter) (e : EventData)
    → e.buf_off ≡ 0
    → (e' : EventData) × (save_to_submit_buf e (variable (sysno pt)) 4 0 ≡ ok (1, e'))
      × IsValid e'
      × (stream e' ≡ emit_all (stream e) (number pt f))
unfolding emit_all encode
number-emits pt f e z =
    let (e', r, v, b) = word-saved e 4 0 (sysno pt) (omega arith) (omega arith) (omega arith) in
    (e', r, record { within = omega arith }, v)

module _ (h : Host) (k : Kernel) (t : Target) (cfg : Config) (pt : PtRegs) (law : IsKernel k)
    (forks : ℕ → Option ℕ) (before : List Output) (point : Option PointArgs) where
  abbrev ExitReports : Run World → Type 0
  ExitReports = Reports cfg forks syscall_exit point (number pt) no_signals before

  silent : (w : World) → w.out ≡ before → ExitReports (ok w)
  silent w e = Reports-silent cfg forks syscall_exit point (number pt) no_signals before w e

  exit_done-Reports :
      (s s' : Session) (f : CommonFilter) (args : PointArgs) (skip index : ℕ)
      → Cause cfg forks point s f args
      → IsValid s'.event
      → Extends (emit_all (stream s.event) (number pt f)) (stream s'.event)
      → s'.world.out ≡ before
      → ExitReports (exit_done h k t cfg pt skip index s')
  unfolding exit_done
  exit_done-Reports s s' f args skip index why v grows out = elim (Bool-cases (skip == 0)) [
    | inl z ↦
        let done =
          word-Grows (emit_all (stream s.event) (number pt f)) s'.event index (v, grows)
            (get_or pt.regs 0 0) in
        let s2 : Session = record s' { event = done.event } in
        let more = done.good.1 in
        let sent =
          submit-Sent cfg forks syscall_exit point (number pt) no_signals s s2 f args more.entries
            why done.good.0
            (more.view ∙ sym (emit_all-append (stream s.event) (number pt f) more.entries)) in
        rw (z, done.returns)
          (record {
            world = close (events_perf_submit syscall_exit s2);
            returns = refl;
            result = inr (
                rw (← out)
                  (rw (append-nil (events_perf_submit syscall_exit s2).world.out) at sent));
          })
    | inr n ↦ rw n (silent _ out)
  ]

  exit_traced-Reports :
      (s : Session) (f : CommonFilter) (args : PointArgs) (regs : CtxRegs) (w : World)
      → Cause cfg forks point s f args
      → w.out ≡ before
      → ExitReports (exit_traced h k t cfg pt args regs (record s { world = w }))
  unfolding exit_traced
  exit_traced-Reports s f args regs w why out =
      let (e, r, v, view) = number-emits pt f s.event why.fresh in
      let s1 : Session = record s { event = e; world = w } in
      rw r (elim (Option-cases (w.op_ctx_map 1)) [
        | inl none_ ↦ rw none_ (silent _ out)
        | inr (c, some_) ↦
            let ran =
              run_reader-Ran k t cfg args regs 1 (reset_op (get_or regs.regs 0 0) 1 c) s1 law v in
            rw (some_, ran.returns)
              (exit_done-Reports s ran.session f args ran.skip _ why ran.valid
                (rw view at ran.grows) (ran.out ∙ out))
      ])

  exit_loaded-Reports :
      (s : Session) (f : CommonFilter) (args : PointArgs) (regs : CtxRegs)
      → Cause cfg forks point s f args
      → s.world.out ≡ before
      → ExitReports (exit_loaded h k t cfg pt f args regs s)
  unfolding exit_loaded del_regs
  exit_loaded-Reports s f args regs why out =
      elim (Bool-cases (not (regs.flag == 1) && sysno_passes cfg f (sysno pt))) [
        | inl y ↦
            rw y (exit_traced-Reports s f args regs (del_regs h syscall_enter s.world) why out)
        | inr n ↦ rw n (silent (close (record s { world = del_regs h syscall_enter s.world })) out)
      ]

  exit_found-Reports :
      (s : Session) (f : CommonFilter) (args : PointArgs) (o : Option CtxRegs)
      → Cause cfg forks point s f args
      → s.world.out ≡ before
      → ExitReports
          (elim o [ none ↦ ok (close s) | some regs ↦ exit_loaded h k t cfg pt f args regs s ])
  exit_found-Reports s f args none why out = silent (close s) out
  exit_found-Reports s f args (some regs) why out = exit_loaded-Reports s f args regs why out

  exit_filtered-Reports :
      (s : Session) (args : PointArgs) (o : Option CommonFilter)
      → ((f : CommonFilter) → o ≡ some f → Cause cfg forks point s f args)
      → s.world.out ≡ before
      → ExitReports (elim o [
        | none ↦ ok (close s)
        | some f ↦ elim (load_regs h syscall_enter s.world) [
          | none ↦ ok (close s)
          | some regs ↦ exit_loaded h k t cfg pt f args regs s
        ]
      ])
  exit_filtered-Reports s args none why out = silent (close s) out
  exit_filtered-Reports s args (some f) why out =
      exit_found-Reports s f args (load_regs h syscall_enter s.world) (why f refl) out

  exit_pointed-Reports :
      (s : Session) (o : Option PointArgs)
      → ((f : CommonFilter) (args : PointArgs)
          → o ≡ some args
          → cfg.common_filter ≡ some f
          → Cause cfg forks point s f args)
      → s.world.out ≡ before
      → ExitReports (elim o [
        | none ↦ ok (close s)
        | some args ↦ elim cfg.common_filter [
          | none ↦ ok (close s)
          | some f ↦ elim (load_regs h syscall_enter s.world) [
            | none ↦ ok (close s)
            | some regs ↦ exit_loaded h k t cfg pt f args regs s
          ]
        ]
      ])
  exit_pointed-Reports s none why out = silent (close s) out
  exit_pointed-Reports s (some args) why out =
      exit_filtered-Reports s args cfg.common_filter (λ f e. why f args refl e) out

module _ (h : Host) (k : Kernel) (t : Target) (cfg : Config) (pt : PtRegs) (law : IsKernel k) where
  abbrev pub ExitSends : (ℕ → Option ℕ) → List Output → Run World → Type 0
  ExitSends forks before =
      Reports cfg forks syscall_exit (cfg.sysexit_point_args (sysno pt)) (number pt) no_signals
        before

  exit_session-Reports :
      (w : World) (s : Session)
      → Started cfg w s
      → ExitSends w.child_parent_map w.out (exit_session h k t cfg pt s)
  unfolding exit_session
  exit_session-Reports w s st =
      let out = ap (λ (v : World). v.out) st.world in
      let same = ap (λ (v : World). v.child_parent_map) st.world in
      let point = cfg.sysexit_point_args (sysno pt) in
      elim (Bool-cases (should_trace cfg s.world.child_parent_map s.config s.event.context == 0)) [
        | inl z ↦ rw z (silent h k t cfg pt law w.child_parent_map w.out point (close s) out)
        | inr n ↦ rw n (
            exit_pointed-Reports h k t cfg pt law w.child_parent_map w.out point s point
              (λ f args at has. record {
                known = st.config;
                traced = rw (← same) (ground arith);
                has_filter = has;
                has_point = at;
                fresh = st.fresh;
                argnum = st.argnum;
              })
              out)
      ]

  -- With reads that fill their destination, or at most that for strings, `sys_exit` returns from
  -- every state. It sends nothing, or one record and no signal: the record is of a task that
  -- `should_trace` admits and of a call that has arguments configured for its exit; it begins with
  -- the number of the call, continues with whole entries, and its context counts them modulo 256.
  pub sys_exit-Reports : (w : World) → ExitSends w.child_parent_map w.out (sys_exit h k t cfg pt w)
  unfolding sys_exit
  sys_exit-Reports w =
      let point = cfg.sysexit_point_args (sysno pt) in
      elim (Bool-cases (is_our_task h t)) [
        | inl ours ↦ rw ours (elim (Option-cases (init_program_data h cfg w).0) [
          | inl e ↦
              rw e
                (silent h k t cfg pt law w.child_parent_map w.out point _ (init-Kept h cfg w).out)
          | inr (s, e) ↦ rw e (exit_session-Reports w s (init-Started h cfg w e))
        ])
        | inr other ↦ rw other (silent h k t cfg pt law w.child_parent_map w.out point w refl)
      ]
