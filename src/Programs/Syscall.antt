-- ===== src/Programs/Syscall.antt =====
-- src/syscall.c: the handlers of `sys_enter` and `sys_exit`. Each is a row of tests that return
-- early; a helper stands for what comes after a test.
pub mod Reports
pub mod Exit
pub mod Pairing
use stackplz.Base.{
  ℕ, ◌+◌, ◌%◌, ◌^◌, bit_and, Bool, true, false, not, ◌&&◌, ◌||◌, Option, none, some, get_or, ◌==◌,
  if◌then◌else◌,
}
use stackplz.Types.{
  CtxRegs, OpCtx, CommonFilter, PointArgs, tif_32bit, trace_common, sys_whitelist_start,
  sys_blacklist_start, syscall_enter, syscall_exit,
}
use stackplz.Kernel.{Kernel, Config, Target, variable}
use stackplz.Event.{Run, ok, fault, ◌>>=◌}
use stackplz.Buffer.{save_to_submit_buf}
use stackplz.Filtering.{should_trace, listed}
use stackplz.Programs.World.{World, Host, PtRegs, Session, close}
use stackplz.Programs.Regs.{save_regs, load_regs, del_regs}
use stackplz.Programs.Context.{init_program_data}
use stackplz.Programs.Submit.{
  read_regs, save_origin, reset_op, run_reader, events_perf_submit, send_signals,
}

-- Whether the current task is there and of the width that the program is compiled for.
unfoldable pub is_our_task : Host → Target → Bool
is_our_task h t =
    let is32 = not (bit_and (h.task_flags h.current_task) tif_32bit == 0) in
    not (h.current_task == 0) && (if t.is_arm then is32 else not is32)

-- `!= NULL`
abbrev pub found : Option ℕ → Bool
found none = false
found (some _) = true

-- the whitelist counts unless all calls are traced, the blacklist always
unfoldable pub sysno_passes : Config → CommonFilter → ℕ → Bool
sysno_passes cfg f sysno =
    (if f.trace_mode == trace_common then found (listed cfg sys_whitelist_start sysno) else true)
    && not (found (listed cfg sys_blacklist_start sysno))

-- `(u32)syscallno`
abbrev pub sysno : PtRegs → ℕ
sysno pt = pt.syscallno % 2 ^ 32

module _ (h : Host) (k : Kernel) (t : Target) (cfg : Config) (pt : PtRegs) where
  -- after the reader: skip, or submit and signal
  unfoldable pub enter_done : CommonFilter → PointArgs → ℕ → Session → World
  enter_done f args skip s =
      if skip == 0
      then close (send_signals f args (events_perf_submit syscall_enter s))
      else save_regs h (record (read_regs pt) { flag = 1 }) syscall_enter (close s)

  -- past all filters
  unfoldable pub enter_traced : CommonFilter → PointArgs → Session → Run World
  unfolding enter_done
  enter_traced f args s = do
    let saved_regs = read_regs pt
    let s = record s { world = save_regs h saved_regs syscall_enter s.world }
    e ← save_origin f pt (sysno pt) s.event
    let s = record s { event = e }
    elim (s.world.op_ctx_map 0) [
      | none ↦ ok (close s)
      | some c ↦ do
        (skip, s) ←
            run_reader k t cfg args saved_regs 0 (reset_op (get_or saved_regs.regs 0 0) 4 c) s
        ok (enter_done f args skip s)
    ]

  unfoldable pub enter_session : Session → Run World
  unfolding enter_traced sysno_passes
  enter_session s =
      if should_trace cfg s.world.child_parent_map s.config s.event.context == 0
      then ok (close s)
      else elim (cfg.sysenter_point_args (sysno pt)) [
        | none ↦ ok (close s)
        | some args ↦ elim cfg.common_filter [
          | none ↦ ok (close s)
          | some f ↦ if sysno_passes cfg f (sysno pt) then enter_traced f args s else ok (close s)
        ]
      ]

  unfoldable pub sys_enter : World → Run World
  unfolding enter_session is_our_task
  sys_enter w =
      if is_our_task h t
      then (let (session, w') = init_program_data h cfg w in
          elim session [ none ↦ ok w' | some s ↦ enter_session s ])
      else ok w

  -- after the reader: skip, or save the result of the call and submit
  unfoldable pub exit_done : ℕ → ℕ → Session → Run World
  exit_done skip index s =
      if skip == 0
      then (do
        (_, e) ← save_to_submit_buf s.event (variable (get_or pt.regs 0 0)) 8 index
        ok (close (events_perf_submit syscall_exit (record s { event = e }))))
      else ok (close s)

  -- with the registers of the entry, and past all filters
  unfoldable pub exit_traced : PointArgs → CtxRegs → Session → Run World
  unfolding exit_done
  exit_traced args saved_regs s = do
    (_, e) ← save_to_submit_buf s.event (variable (sysno pt)) 4 0
    let s = record s { event = e }
    elim (s.world.op_ctx_map 1) [
      | none ↦ ok (close s)
      | some c ↦ do
        (skip, s) ←
            run_reader k t cfg args saved_regs 1 (reset_op (get_or saved_regs.regs 0 0) 1 c) s
        exit_done skip (elim (s.world.op_ctx_map 1) [ none ↦ 0 | some c ↦ c.save_index ]) s
    ]

  -- with the registers of the entry: they are dropped, and end here if the entry was skipped
  unfoldable pub exit_loaded : CommonFilter → PointArgs → CtxRegs → Session → Run World
  unfolding exit_traced sysno_passes
  exit_loaded f args saved_regs s =
      let s' = record s { world = del_regs h syscall_enter s.world } in
      if not (saved_regs.flag == 1) && sysno_passes cfg f (sysno pt)
      then exit_traced args saved_regs s'
      else ok (close s')

  unfoldable pub exit_session : Session → Run World
  unfolding exit_loaded
  exit_session s =
      if should_trace cfg s.world.child_parent_map s.config s.event.context == 0
      then ok (close s)
      else elim (cfg.sysexit_point_args (sysno pt)) [
        | none ↦ ok (close s)
        | some args ↦ elim cfg.common_filter [
          | none ↦ ok (close s)
          | some f ↦ elim (load_regs h syscall_enter s.world) [
            | none ↦ ok (close s)
            | some saved_regs ↦ exit_loaded f args saved_regs s
          ]
        ]
      ]

  unfoldable pub sys_exit : World → Run World
  unfolding exit_session is_our_task
  sys_exit w =
      if is_our_task h t
      then (let (session, w') = init_program_data h cfg w in
          elim session [ none ↦ ok w' | some s ↦ exit_session s ])
      else ok w
