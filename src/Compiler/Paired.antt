-- ===== src/Compiler/Paired.antt =====
-- An entry that was reported and the exit of the same call: the handlers of src/syscall.c hand the
-- registers from one to the other.
use stackplz.Base.{
  ℕ, zero, suc, ◌+◌, ◌^◌, ◌<◌, ◌≤◌, ◌≡◌, refl, ap, sym, ◌∙◌, true, some, List, [], ◌∷◌, ◌++◌,
  length, map, get_or,
}
use stackplz.Types.{OpCtx, CommonFilter, PointArgs, args_buf_size, syscall_enter}
use stackplz.Kernel.{Kernel, Target, Config, IsKernel}
use stackplz.Event.{ok}
use stackplz.Decoder.Args.{PointArg, reads_at, ebpf_sys_enter, ebpf_sys_exit}
use stackplz.Decoder.Record.{SyscallPoint, get_syscall_point}
use stackplz.Decoder.Context.{IsContext}
use stackplz.Programs.World.{World, Host, PtRegs, Session}
use stackplz.Programs.Regs.{load_regs, save_regs, regs_key, copy_regs}
use stackplz.Programs.Regs.RoundTrip.{tid, load_regs-save_regs}
use stackplz.Programs.Submit.{read_regs}
use stackplz.Programs.Syscall.{sysno, sys_enter}
use stackplz.Compiler.{OpManager}
use stackplz.Compiler.Ops.{ArgTypes}
use stackplz.Compiler.Loaded.{IsCompiled}
use stackplz.Compiler.Runs.Filters.{Admits, budget}
use stackplz.Compiler.Runs.Point.{AreWhole, AreBare, total_need}
use stackplz.Compiler.Sent.{IsTraced, enter_session-Sends}
use stackplz.Compiler.Result.{IsResult}
use stackplz.Compiler.Exited.{IsExited}
use stackplz.Compiler.SentExit.{ExitTold, parse_record-sys_exit}

length-copy_regs : (n i : ℕ) (xs : List ℕ) → length (copy_regs n i xs) ≡ n
unfolding copy_regs
length-copy_regs zero i xs = refl
length-copy_regs (suc n) i xs = ap suc (length-copy_regs n (suc i) xs)

-- What another run for the same thread loads depends on the map only.
load_regs-same :
    (h h' : Host) (w w' : World)
    → tid h' ≡ tid h
    → w'.ctx_regs_map ≡ w.ctx_regs_map
    → load_regs h' syscall_enter w' ≡ load_regs h syscall_enter w
unfolding load_regs regs_key
load_regs-same h h' w w' same kept = rw (load_regs, same, kept) refl

module _ (k : Kernel) (t : Target) (cfg : Config) (law : IsKernel k) (types : ArgTypes)
    (wide : t.max_op_count ≤ 2 ^ 32) where
  -- the registers of a reported entry, for what runs for this thread later
  enter-keeps :
      (h h' : Host) (pt : PtRegs) (vs : OpManager) (p : SyscallPoint) (max_ops : ℕ) (pa : PointArgs)
      (w w1 w2 : World) (s : Session) (f : CommonFilter) (c : OpCtx)
      → IsCompiled cfg types vs p.enter_args max_ops pa
      → AreBare ebpf_sys_enter (read_regs pt) p.enter_args
      → AreWhole p.enter_args
      → Admits cfg (read_regs pt) p.enter_args
      → budget p.enter_args + 1 < t.max_op_count
      → 32 + total_need (map (reads_at ebpf_sys_enter) p.enter_args) + 4101 ≤ args_buf_size
      → IsTraced h t cfg pt w pa s f c
      → h.regs_room w.ctx_regs_map (regs_key h syscall_enter) ≡ true
      → sys_enter h k t cfg pt w ≡ ok w1
      → tid h' ≡ tid h
      → w2.ctx_regs_map ≡ w1.ctx_regs_map
      → load_regs h' syscall_enter w2 ≡ some (read_regs pt)
  unfolding read_regs
  enter-keeps h h' pt vs p max_ops pa w w1 w2 s f c compiled bare whole passes enough room tr fits
        ran same kept =
      let (w', returns, sends, before, regs, ops) =
        enter_session-Sends h k t cfg pt law types vs p max_ops pa compiled bare whole passes enough
          wide room w s f c tr in
      let result : w' ≡ w1 = cc in
      load_regs-same h h' w1 w2 same kept
      ∙ load_regs-same h h (save_regs h (read_regs pt) syscall_enter w) w1 refl
          (ap (λ (v : World). v.ctx_regs_map) (sym result) ∙ regs)
      ∙ load_regs-save_regs h (read_regs pt) syscall_enter w (length-copy_regs 31 0 pt.regs) fits

  -- Every reported entry of a call is followed by a report of its exit. The entry: of a traced
  -- task that passes the filters, at a call whose arguments are compiled and loaded (each from a
  -- register of 64 bits, grouped with entries, of a registered type without loops that the
  -- decoder takes whole, filtered by value only, and admitted by their filters), where the map of
  -- registers takes another entry and `sys_enter` returned with the maps `w1`. The exit: on the
  -- same thread, in any later maps `w2` in which the registers that threads keep are as the entry
  -- left them, with other filters passed, its arguments compiled and loaded in the same way,
  -- grouped with exits, and a result that is a number. For both, room in the buffer, the rounds
  -- that the operations need, and no second half of an operation that waits. Then `sys_exit`
  -- returns and sends one record and no signal, from which the decoder reads back the context,
  -- the number of the call, the arguments by the registers of the entry, and the result.
  pub sys_exit-follows :
      (h h' : Host) (pt pt' : PtRegs) (vs vs' : OpManager) (p p' : SyscallPoint)
      (max_ops max_ops' : ℕ) (pa pa' : PointArgs) (args : List PointArg) (ret : PointArg)
      (w w1 w2 : World) (s s' : Session) (f f' : CommonFilter) (c c' : OpCtx)
      (points : List SyscallPoint) (rest : List ℕ)
      → IsCompiled cfg types vs p.enter_args max_ops pa
      → AreBare ebpf_sys_enter (read_regs pt) p.enter_args
      → AreWhole p.enter_args
      → Admits cfg (read_regs pt) p.enter_args
      → budget p.enter_args + 1 < t.max_op_count
      → 32 + total_need (map (reads_at ebpf_sys_enter) p.enter_args) + 4101 ≤ args_buf_size
      → IsTraced h t cfg pt w pa s f c
      → h.regs_room w.ctx_regs_map (regs_key h syscall_enter) ≡ true
      → sys_enter h k t cfg pt w ≡ ok w1
      → tid h' ≡ tid h
      → w2.ctx_regs_map ≡ w1.ctx_regs_map
      → IsCompiled cfg types vs' (args ++ ret ∷ []) max_ops' pa'
      → AreBare ebpf_sys_exit (read_regs pt) args
      → AreWhole args
      → Admits cfg (read_regs pt) args
      → IsResult ret
      → budget (args ++ ret ∷ []) + 1 < t.max_op_count
      → 5 + total_need (map (reads_at ebpf_sys_exit) args) + 4101 ≤ args_buf_size
      → IsExited h' t cfg pt' w2 pa' s' f' c'
      → get_syscall_point points (sysno pt') ≡ some p'
      → p'.exit_args ≡ args ++ ret ∷ []
      → IsContext s'.event.context
      → get_or pt'.regs 0 0 < 2 ^ 64
      → ExitTold h' k t cfg pt' points args (read_regs pt) s' w2 rest
  unfolding read_regs
  sys_exit-follows h h' pt pt' vs vs' p p' max_ops max_ops' pa pa' args ret w w1 w2 s s' f f' c c'
        points rest compiled bare whole passes enough room tr fits ran same kept compiled' bare'
        whole' passes' result enough' room' ex known shape v small =
      parse_record-sys_exit k t cfg law types vs' args ret max_ops' pa' (read_regs pt) compiled'
        bare' whole' passes' result enough' wide room' h' pt' w2 s' f' c' p' points rest ex
        (enter-keeps h h' pt vs p max_ops pa w w1 w2 s f c compiled bare whole passes enough room tr
          fits ran same kept)
        refl known shape v small
