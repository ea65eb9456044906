-- ===== src/Programs/Probe/Reports.antt =====
-- What the shared steps of the function probes send.
use stackplz.Base.{
  ℕ, ◌+◌, ◌%◌, ◌^◌, ◌≡◌, refl, ap, ◌∙◌, sym, arith, Option, none, some, List, ◌++◌, ◌==◌,
  Bool-cases, inl, inr,
}
use stackplz.Types.{CommonFilter, PointArgs, CtxRegs, uprobe_enter}
use stackplz.Kernel.{Kernel, IsKernel, Config, Target}
use stackplz.Event.{Run, ok}
use stackplz.Event.Stream.{IsValid, stream}
use stackplz.Event.Entries.{Entry, emit_all, emit_all-append, Extends}
use stackplz.Filtering.{should_trace}
use stackplz.Programs.World.{World, Host, PtRegs, Session, Output, close}
use stackplz.Programs.Regs.{save_regs, del_regs}
use stackplz.Programs.Submit.{events_perf_submit, send_signals, signals}
use stackplz.Programs.Submit.Report.{origin, Reports, Reports-silent, Cause, submit-Sent}
use stackplz.Programs.Probe.{take_regs, probe_regs, return_regs, probe_done, probe_session}

module _ (h : Host) (k : Kernel) (t : Target) (cfg : Config) (pt : PtRegs) where
  take_regs-out :
      (event_id : ℕ) (w : World) (regs : CtxRegs) (w' : World)
      → take_regs h k t cfg pt event_id w ≡ some (regs, w')
      → w'.out ≡ w.out
  unfolding take_regs del_regs
  take_regs-out event_id w regs w' e = ground arith

  pub probe_regs-out :
      (args : PointArgs) (key : ℕ) (w : World) (regs : CtxRegs) (w' : World)
      → probe_regs h k t cfg pt args key w ≡ some (regs, w')
      → w'.out ≡ w.out
  unfolding probe_regs save_regs
  probe_regs-out args key w regs w' e =
      ground (arith, take_regs-out ((uprobe_enter + args.enter_key) % 2 ^ 32) w regs w')

  pub return_regs-out :
      (args : PointArgs) (w : World) (regs : CtxRegs) (w' : World)
      → return_regs h k t cfg pt args w ≡ some (regs, w')
      → w'.out ≡ w.out
  unfolding return_regs
  return_regs-out args w regs w' e =
      ground (arith, take_regs-out ((uprobe_enter + args.enter_key) % 2 ^ 32) w regs w')

module _ (h : Host) (k : Kernel) (t : Target) (cfg : Config) (pt : PtRegs) (law : IsKernel k)
    (forks : ℕ → Option ℕ) (before : List Output) (id key : ℕ) (point : Option PointArgs) where
  abbrev pub ProbeReports : Run World → Type 0
  ProbeReports = Reports cfg forks id point (λ f. origin f pt key) signals before

  pub silent : (w : World) → w.out ≡ before → ProbeReports (ok w)
  silent w e = Reports-silent cfg forks id point (λ f. origin f pt key) signals before w e

  probe_done-Reports :
      (s s' : Session) (f : CommonFilter) (args : PointArgs) (entries : List Entry) (skip : ℕ)
      → Cause cfg forks point s f args
      → IsValid s'.event
      → stream s'.event ≡ emit_all (stream s.event) (origin f pt key ++ entries)
      → s'.world.out ≡ before
      → ProbeReports (ok (probe_done h k t cfg pt id f args skip s'))
  unfolding probe_done send_signals
  probe_done-Reports s s' f args entries skip why v view out = elim (Bool-cases (skip == 0)) [
    | inl z ↦ rw z (record {
      world = close (send_signals f args (events_perf_submit id s'));
      returns = refl;
      result =
          inr (rw (← out) (submit-Sent cfg forks id _ _ signals s s' f args entries why v view));
    })
    | inr n ↦ rw n (silent _ out)
  ]

  -- after the origin and a run of the reader
  pub grown-Reports :
      (s s1 s2 : Session) (f : CommonFilter) (args : PointArgs) (skip : ℕ)
      → Cause cfg forks point s f args
      → stream s1.event ≡ emit_all (stream s.event) (origin f pt key)
      → Extends (stream s1.event) (stream s2.event)
      → IsValid s2.event
      → s2.world.out ≡ before
      → ProbeReports (ok (probe_done h k t cfg pt id f args skip s2))
  grown-Reports s s1 s2 f args skip why view grows v out =
      probe_done-Reports s s2 f args grows.entries skip why v
        (grows.view
          ∙ ap (λ u. emit_all u grows.entries) view
          ∙ sym (emit_all-append (stream s.event) (origin f pt key) grows.entries))
        out

  module _ (s : Session) (regs_of : PointArgs → World → Option (CtxRegs × World))
      (body : CommonFilter → PointArgs → CtxRegs → Session → Run World)
      (keeps : (args : PointArgs) (regs : CtxRegs) (w' : World)
        → regs_of args s.world ≡ some (regs, w')
        → w'.out ≡ s.world.out)
      (body_reports : (f : CommonFilter) (args : PointArgs) (regs : CtxRegs) (w' : World)
        → Cause cfg forks point s f args
        → w'.out ≡ before
        → ProbeReports (body f args regs (record s { world = w' })))
      (out : s.world.out ≡ before) where
    taken-Reports :
        (f : CommonFilter) (args : PointArgs) (o : Option (CtxRegs × World))
        → Cause cfg forks point s f args
        → regs_of args s.world ≡ o
        → ProbeReports (elim o [
          | none ↦ ok (close s)
          | some (regs, w) ↦ body f args regs (record s { world = w })
        ])
    taken-Reports f args none why e = silent (close s) out
    taken-Reports f args (some (regs, w)) why e =
        body_reports f args regs w why (keeps args regs w e ∙ out)

    filtered-Reports :
        (args : PointArgs) (o : Option CommonFilter)
        → ((f : CommonFilter) → o ≡ some f → Cause cfg forks point s f args)
        → ProbeReports (elim o [
          | none ↦ ok (close s)
          | some f ↦ elim (regs_of args s.world) [
            | none ↦ ok (close s)
            | some (regs, w) ↦ body f args regs (record s { world = w })
          ]
        ])
    filtered-Reports args none why = silent (close s) out
    filtered-Reports args (some f) why =
        taken-Reports f args (regs_of args s.world) (why f refl) refl

    pointed-Reports :
        (o : Option PointArgs)
        → ((f : CommonFilter) (args : PointArgs)
            → o ≡ some args
            → cfg.common_filter ≡ some f
            → Cause cfg forks point s f args)
        → ProbeReports (elim o [
          | none ↦ ok (close s)
          | some args ↦ elim cfg.common_filter [
            | none ↦ ok (close s)
            | some f ↦ elim (regs_of args s.world) [
              | none ↦ ok (close s)
              | some (regs, w) ↦ body f args regs (record s { world = w })
            ]
          ]
        ])
    pointed-Reports none why = silent (close s) out
    pointed-Reports (some args) why =
        filtered-Reports args cfg.common_filter (λ f e. why f args refl e)

    pub probe_session-Reports :
        s.world.child_parent_map ≡ forks
        → s.event.buf_off ≡ 0
        → s.event.context.argnum ≡ 0
        → cfg.base_config ≡ some s.config
        → ProbeReports (probe_session h k t cfg pt point regs_of body s)
    unfolding probe_session
    probe_session-Reports same fresh argnum known =
        elim (Bool-cases
          (should_trace cfg s.world.child_parent_map s.config s.event.context == 0)) [
            | inl z ↦ rw z (silent (close s) out)
            | inr n ↦ rw n (
                pointed-Reports point (λ f args at has. record {
                  known = known;
                  traced = rw (← same) (ground arith);
                  has_filter = has;
                  has_point = at;
                  fresh = fresh;
                  argnum = argnum;
                }))
          ]
