-- ===== src/Programs/Syscall/Pairing.antt =====
-- `sys_exit` without the registers of an entry that was reported.
use stackplz.Base.{
  ℕ, ◌≡◌, ◌≢◌, refl, ap, ◌∙◌, arith, true, false, not, ◌&&◌, Option, none, some, ◌==◌, Bool-cases,
  Option-cases, inl, inr,
}
use stackplz.Types.{CommonFilter, PointArgs, CtxRegs, syscall_enter}
use stackplz.Kernel.{Kernel, Config, Target}
use stackplz.Event.{Run, ok}
use stackplz.Filtering.{should_trace}
use stackplz.Programs.World.{World, Host, PtRegs, Session, close}
use stackplz.Programs.Regs.{load_regs, del_regs, save_regs, regs_key}
use stackplz.Programs.Regs.RoundTrip.{tid}
use stackplz.Programs.Context.{init_program_data}
use stackplz.Programs.Context.Start.{init-Started, init-Kept}
use stackplz.Programs.Syscall.{
  sysno, is_our_task, sysno_passes, exit_loaded, exit_session, sys_exit, enter_done,
}

-- The call returns and has sent nothing more than `w`.
abbrev pub Silent : World → Run World → Type 0
Silent w run = (w' : World) × (run ≡ ok w') × (w'.out ≡ w.out)

-- No registers are kept for the thread's call, or they are marked as those of a skipped entry.
abbrev pub Unpaired : Host → World → Type 0
Unpaired h w = (regs : CtxRegs) → load_regs h syscall_enter w ≡ some regs → regs.flag ≡ 1

module _ (h : Host) (k : Kernel) (t : Target) (cfg : Config) (pt : PtRegs) where
  exit_loaded-Silent :
      (s : Session) (f : CommonFilter) (args : PointArgs) (regs : CtxRegs)
      → regs.flag ≡ 1
      → Silent s.world (exit_loaded h k t cfg pt f args regs s)
  unfolding exit_loaded del_regs
  exit_loaded-Silent s f args regs flagged =
      let blocked : (not (regs.flag == 1) && sysno_passes cfg f (sysno pt)) ≡ false =
        ground arith in
      rw blocked (close (record s { world = del_regs h syscall_enter s.world }), refl, refl)

  exit_found-Silent :
      (s : Session) (f : CommonFilter) (args : PointArgs) (o : Option CtxRegs)
      → ((regs : CtxRegs) → o ≡ some regs → regs.flag ≡ 1)
      → Silent s.world
          (elim o [ none ↦ ok (close s) | some regs ↦ exit_loaded h k t cfg pt f args regs s ])
  exit_found-Silent s f args none flagged = (close s, refl, refl)
  exit_found-Silent s f args (some regs) flagged =
      exit_loaded-Silent s f args regs (flagged regs refl)

  exit_session-Silent :
      (s : Session) → Unpaired h s.world → Silent s.world (exit_session h k t cfg pt s)
  unfolding exit_session
  exit_session-Silent s alone =
      elim (Bool-cases (should_trace cfg s.world.child_parent_map s.config s.event.context == 0)) [
        | inl z ↦ rw z (close s, refl, refl)
        | inr n ↦ rw n (elim (Option-cases (cfg.sysexit_point_args (sysno pt))) [
          | inl e ↦ rw e (close s, refl, refl)
          | inr (args, e) ↦ rw e (elim (Option-cases cfg.common_filter) [
            | inl e' ↦ rw e' (close s, refl, refl)
            | inr (f, e') ↦
                rw e' (exit_found-Silent s f args (load_regs h syscall_enter s.world) alone)
          ])
        ])
      ]

  -- Where no registers are kept for the thread's entry, or they are marked as those of an entry
  -- that was skipped, `sys_exit` returns and sends nothing.
  pub sys_exit-Unpaired : (w : World) → Unpaired h w → Silent w (sys_exit h k t cfg pt w)
  unfolding sys_exit
  sys_exit-Unpaired w alone = elim (Bool-cases (is_our_task h t)) [
    | inl ours ↦ rw ours (elim (Option-cases (init_program_data h cfg w).0) [
      | inl e ↦ rw e ((init_program_data h cfg w).1, refl, (init-Kept h cfg w).out)
      | inr (s, e) ↦
          let same = (init-Started h cfg w e).world in
          let (w', r, out) = exit_session-Silent s (rw same alone) in
          rw e (w', r, out ∙ ap (λ (v : World). v.out) same)
    ])
    | inr other ↦ rw other (w, refl, refl)
  ]

-- A full map still takes an entry for a key that it holds.
abbrev pub UpdatesInPlace : Host → Type 0
UpdatesInPlace h = (m : ℕ → Option CtxRegs) (key : ℕ) → m key ≢ none → h.regs_room m key ≡ true

module _ (h : Host) (k : Kernel) (t : Target) (cfg : Config) (pt : PtRegs) where
  -- the registers kept by a skipped entry, or none
  enter_done-Unpaired :
      (h' : Host) (f : CommonFilter) (args : PointArgs) (skip : ℕ) (s : Session)
      → UpdatesInPlace h
      → tid h' ≡ tid h
      → skip ≢ 0
      → Unpaired h' (enter_done h k t cfg pt f args skip s)
  unfolding enter_done save_regs load_regs
  enter_done-Unpaired h' f args skip s law same skipped regs e =
      elim (Bool-cases (h.regs_room s.world.ctx_regs_map (regs_key h syscall_enter))) [
        | inl room ↦ ground (arith, same_key)
        | inr full ↦ ground (arith, same_key, law s.world.ctx_regs_map (regs_key h syscall_enter))
      ]
    where
      same_key : regs_key h' syscall_enter ≡ regs_key h syscall_enter
      same_key = rw (same, regs_key) refl

  -- Where a full map takes an entry for a key that it holds: after an entry that the reader
  -- skipped, the next `sys_exit` of the same thread returns and sends nothing, whatever it reads
  -- and however it is configured.
  pub skipped_exit :
      (h' : Host) (k' : Kernel) (cfg' : Config) (pt' : PtRegs) (f : CommonFilter) (args : PointArgs)
      (skip : ℕ) (s : Session)
      → UpdatesInPlace h
      → tid h' ≡ tid h
      → skip ≢ 0
      → Silent
          (enter_done h k t cfg pt f args skip s)
          (sys_exit h' k' t cfg' pt' (enter_done h k t cfg pt f args skip s))
  skipped_exit h' k' cfg' pt' f args skip s law same skipped =
      sys_exit-Unpaired h' k' t cfg' pt' (enter_done h k t cfg pt f args skip s)
        (enter_done-Unpaired h' f args skip s law same skipped)
