-- ===== src/Programs/Submit.antt =====
-- What the handlers share: the first arguments, the run of the reader, the record that is sent
-- (`events_perf_submit` of src/common/buffer.h), the signals.
pub mod Report
use stackplz.Base.{
  ℕ, ◌+◌, ◌-◌, ◌<◌, ◌%◌, ◌^◌, Option, none, some, List, [], ◌∷◌, ◌++◌, get_or, if◌then◌else◌, ◌==◌,
  ltb, window, not,
}
use stackplz.Types.{
  EventContext, EventData, OpCtx, CtxRegs, CommonFilter, PointArgs, args_buf_size, reg_arm64_lr,
}
use stackplz.Kernel.{Kernel, Config, Target, variable}
use stackplz.Event.{Run, ok, fault, ◌>>=◌}
use stackplz.Buffer.{save_to_submit_buf}
use stackplz.ReadArgs.State.{Reader}
use stackplz.ReadArgs.{read_args}
use stackplz.Programs.World.{
  World, Host, PtRegs, Session, Output, perf, send_signal, send_signal_thread,
}
use stackplz.Programs.Regs.{copy_regs}

-- sizeof(event_context_t)
abbrev pub context_size : ℕ
context_size = 56

abbrev pub max_event_size : ℕ
max_event_size = context_size + args_buf_size

-- the number of bytes that are sent, of which the context comes first
unfoldable pub submit_size : EventData → ℕ
submit_size e =
    let size = (context_size + e.buf_off) % 2 ^ 32 in
    if ltb size max_event_size then size else max_event_size

unfoldable pub events_perf_submit : ℕ → Session → Session
unfolding submit_size
events_perf_submit id s =
    let e = record s.event { context = record s.event.context { eventid = id } } in
    let sent = perf e.context (window e.args 0 (submit_size e - context_size)) in
    record s { event = e; world = record s.world { out = s.world.out ++ sent ∷ [] } }

-- `ctx_regs_t saved_regs = {}` filled from the interrupted registers
unfoldable pub read_regs : PtRegs → CtxRegs
unfolding copy_regs
read_regs pt = record { regs = copy_regs 31 0 pt.regs; sp = pt.sp; pc = pt.pc; flag = 0 }

unfoldable pub link_register : CommonFilter → PtRegs → ℕ
link_register f pt = if f.is_32bit == 0 then get_or pt.regs reg_arm64_lr 0 else get_or pt.regs 14 0

unfoldable pub stack_pointer : CommonFilter → PtRegs → ℕ
stack_pointer f pt = if f.is_32bit == 0 then pt.sp else get_or pt.regs 13 0

-- arguments 0 to 3: the point (a `u32`), `lr`, `sp` and `pc`
unfoldable pub save_origin : CommonFilter → PtRegs → ℕ → EventData → Run EventData
unfolding link_register stack_pointer
save_origin f pt point e = do
  (_, e) ← save_to_submit_buf e (variable point) 4 0
  (_, e) ← save_to_submit_buf e (variable (link_register f pt)) 8 1
  (_, e) ← save_to_submit_buf e (variable (stack_pointer f pt)) 8 2
  (_, e) ← save_to_submit_buf e (variable pt.pc) 8 3
  ok e

-- `__builtin_memset(op_ctx, 0, sizeof(op_ctx))` clears the size of a pointer: the eight fields of
-- one byte. Then the handler sets three fields.
unfoldable pub reset_op : ℕ → ℕ → OpCtx → OpCtx
reset_op reg_0 save_index c = record c {
  save_index = save_index;
  reg_index = 0;
  loop_count = 0;
  break_count = 0;
  apply_filter = 0;
  skip_flag = 0;
  match_whitelist = 0;
  match_blacklist = 0;
  op_key_index = 0;
  reg_0 = reg_0;
}

-- `op_ctx` of the map, by its index, after a run
unfoldable pub put_op : ℕ → OpCtx → World → World
put_op i c w = record w { op_ctx_map = λ j. if j == i then some c else w.op_ctx_map j }

-- A run of the reader on `op_ctx_map[i]`; it answers whether to skip the event. The flag is
-- cleared again where it was set.
unfoldable pub run_reader :
    Kernel → Target → Config → PointArgs → CtxRegs → ℕ → OpCtx → Session → Run (ℕ × Session)
unfolding put_op
run_reader k t cfg args regs i c s = do
  r ← read_args k t cfg args regs (record { event = s.event; op = c; strs = s.world.strs })
  let w = record s.world { strs = r.strs }
  ok (
    r.op.skip_flag,
    record s { event = r.event; world = put_op i (record r.op { skip_flag = 0 }) w },
  )

unfoldable pub signals : CommonFilter → PointArgs → List Output
signals f args =
    (if ltb 0 f.signal then send_signal f.signal ∷ [] else [])
    ++ ((if ltb 0 f.tsignal then send_signal_thread f.tsignal ∷ [] else [])
        ++ (if ltb 0 args.signal then send_signal_thread args.signal ∷ [] else []))

unfoldable pub send_signals : CommonFilter → PointArgs → Session → Session
unfolding signals
send_signals f args s = record s { world = record s.world { out = s.world.out ++ signals f args } }
