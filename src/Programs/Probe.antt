-- ===== src/Programs/Probe.antt =====
-- src/stack.c: the handlers of function probes, at entry and at return. The six programs of each
-- kind call them with their number as `point_key`.
pub mod Reports
pub mod Sends
use stackplz.Base.{ℕ, ◌+◌, ◌%◌, ◌^◌, Option, none, some, get_or, ◌==◌, if◌then◌else◌, List, [], ◌∷◌}
use stackplz.Types.{CtxRegs, CommonFilter, PointArgs, uprobe_enter, uprobe_exit}
use stackplz.Kernel.{Kernel, Config, Target}
use stackplz.Event.{Run, ok, ◌>>=◌}
use stackplz.Filtering.{should_trace}
use stackplz.Programs.World.{World, Host, PtRegs, Session, close}
use stackplz.Programs.Regs.{save_regs, load_regs, del_regs}
use stackplz.Programs.Context.{init_program_data}
use stackplz.Programs.Submit.{
  read_regs, save_origin, reset_op, put_op, run_reader, events_perf_submit, send_signals,
}

module _ (h : Host) (k : Kernel) (t : Target) (cfg : Config) (pt : PtRegs) where
  -- the registers that another point kept, which are dropped with that
  unfoldable pub take_regs : ℕ → World → Option (CtxRegs × World)
  take_regs event_id w = elim (load_regs h event_id w) [
    | none ↦ none
    | some regs ↦ some (regs, del_regs h event_id w)
  ]

  -- Which registers an entry point reads: its own, kept for a later point if the key says so, or
  -- those that another point kept.
  unfoldable pub probe_regs : PointArgs → ℕ → World → Option (CtxRegs × World)
  unfolding take_regs
  probe_regs args point_key w =
      if args.enter_key == 0
      then some (read_regs pt, w)
      else if args.enter_key == (point_key + 1) % 2 ^ 32
      then some
          (read_regs pt, save_regs h (read_regs pt) ((uprobe_enter + point_key + 1) % 2 ^ 32) w)
      else take_regs ((uprobe_enter + args.enter_key) % 2 ^ 32) w

  -- Which registers a return point reads.
  unfoldable pub return_regs : PointArgs → World → Option (CtxRegs × World)
  unfolding take_regs
  return_regs args w =
      if args.enter_key == 0
      then some (read_regs pt, w)
      else take_regs ((uprobe_enter + args.enter_key) % 2 ^ 32) w

  -- after the reader: skip, or submit and signal
  unfoldable pub probe_done : ℕ → CommonFilter → PointArgs → ℕ → Session → World
  probe_done event_id f args skip s =
      if skip == 0 then close (send_signals f args (events_perf_submit event_id s)) else close s

  -- the rest of `probe_stack_warp`, from the first argument on
  unfoldable pub probe_body : ℕ → CommonFilter → PointArgs → CtxRegs → Session → Run World
  unfolding probe_done
  probe_body point_key f args saved_regs s = do
    e ← save_origin f pt point_key s.event
    let s = record s { event = e }
    elim (s.world.op_ctx_map 0) [
      | none ↦ ok (close s)
      | some c ↦ do
        (skip, s) ←
            run_reader k t cfg args saved_regs 0 (reset_op (get_or saved_regs.regs 0 0) 4 c) s
        ok (probe_done uprobe_enter f args skip s)
    ]

  -- the rest of `uretprobe_stack_warp`: the reader starts from the value that is returned, and
  -- runs only if there is something to read
  unfoldable pub return_body : ℕ → CommonFilter → PointArgs → CtxRegs → Session → Run World
  unfolding probe_done
  return_body point_key f args saved_regs s = do
    e ← save_origin f pt point_key s.event
    let s = record s { event = e }
    elim (s.world.op_ctx_map 0) [
      | none ↦ ok (close s)
      | some c ↦
          let c' = reset_op (get_or pt.regs 0 0) 4 c in
          if args.op_count == 0
          then ok (probe_done uprobe_exit f args 0 (record s { world = put_op 0 c' s.world }))
          else do
            (skip, s) ← run_reader k t cfg args saved_regs 0 c' s
            ok (probe_done uprobe_exit f args skip s)
    ]

  -- the tests that both handlers begin with, then the registers, then the rest
  unfoldable pub probe_session :
      Option PointArgs
      → (PointArgs → World → Option (CtxRegs × World))
      → (CommonFilter → PointArgs → CtxRegs → Session → Run World)
      → Session
      → Run World
  probe_session point regs_of body s =
      if should_trace cfg s.world.child_parent_map s.config s.event.context == 0
      then ok (close s)
      else elim point [
        | none ↦ ok (close s)
        | some args ↦ elim cfg.common_filter [
          | none ↦ ok (close s)
          | some f ↦ elim (regs_of args s.world) [
            | none ↦ ok (close s)
            | some (regs, w) ↦ body f args regs (record s { world = w })
          ]
        ]
      ]

  unfoldable pub probe_stack_warp : ℕ → World → Run World
  unfolding probe_session probe_regs probe_body
  probe_stack_warp point_key w =
      let (session, w') = init_program_data h cfg w in
      elim session [
        | none ↦ ok w'
        | some s ↦
            probe_session (cfg.uprobe_point_args point_key) (λ args. probe_regs args point_key)
              (probe_body point_key) s
      ]

  unfoldable pub uretprobe_stack_warp : ℕ → World → Run World
  unfolding probe_session return_regs return_body
  uretprobe_stack_warp point_key w =
      let (session, w') = init_program_data h cfg w in
      elim session [
        | none ↦ ok w'
        | some s ↦
            probe_session (cfg.uretprobe_point_args point_key) return_regs (return_body point_key) s
      ]

-- `probe_stack_0` to `probe_stack_5`, and `uretprobe_stack_0` to `uretprobe_stack_5`
abbrev pub probe_points : List ℕ
probe_points = 0 ∷ 1 ∷ 2 ∷ 3 ∷ 4 ∷ 5 ∷ []
