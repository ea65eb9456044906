-- ===== src/Compiler/Handled.antt =====
-- The run of the reader in a handler, on the operations of a point.
use stackplz.Base.{
  ℕ, ◌+◌, ◌^◌, ◌<◌, ◌≤◌, ◌≡◌, ap, sym, ◌∙◌, subst, ◌++◌, append_assoc, arith, ◌⊎◌, none, List, [],
  ◌∷◌, length, map, length-append,
}
use stackplz.Types.{
  op_skip, op_code, op_value, OpCtx, EventData, EventContext, CtxRegs, CommonFilter, PointArgs,
  args_buf_size,
}
use stackplz.Kernel.{Kernel, Target, Config, IsKernel}
use stackplz.Event.{ok}
use stackplz.Event.Stream.{IsValid, Stream, stream, emit}
use stackplz.Event.Entries.{Entry, encode, encode_all, emit_all, emit_all-append, bytes-emit_all}
use stackplz.Buffer.Total.{length-stream}
use stackplz.Decoder.Args.{PointArg, Parsed, reads_at}
use stackplz.Decoder.Context.{IsContext}
use stackplz.Decoder.Saves.{SavesAll}
use stackplz.Programs.World.{World, PtRegs, Session, Output, perf}
use stackplz.Programs.Submit.{reset_op, run_reader, save_origin, events_perf_submit, signals}
use stackplz.Programs.Submit.Report.{
  origin, save_origin-emits, submit-sends, perf-emit_all, empty-stream, argnum-stream,
}
use stackplz.Compiler.{OpManager}
use stackplz.Compiler.Ops.{ArgTypes}
use stackplz.Compiler.Runs.Filters.{Admits, budget}
use stackplz.Compiler.Runs.Point.{AreWhole, AreBare, total_need, printed_arg, point_ops-Runs}
use stackplz.Compiler.Runs.Shape.{point_ops-IsShort}
use stackplz.Compiler.Loaded.{IsCompiled}
use stackplz.Compiler.Ran.{Ran, run_reader-Ran}

pub origin-size :
    (f : CommonFilter) (pt : PtRegs) (n : ℕ) (e e' : EventData)
    → e.buf_off ≡ 0
    → stream e' ≡ emit_all (stream e) (origin f pt n)
    → e'.buf_off ≡ 32
unfolding encode_all encode
origin-size f pt n e e' z view = omega (
  arith,
  length-stream e',
  length-stream e,
  ap (λ (s : Stream). length s.bytes) view,
  ap length (bytes-emit_all (stream e) (origin f pt n)),
  length-append (stream e).bytes (encode_all (origin f pt n)),
)

pub argnum-small :
    (s : Stream) (xs : List Entry) → s.context.argnum < 256 → (emit_all s xs).context.argnum < 256
unfolding emit_all emit
argnum-small s [] h = h
argnum-small s (x ∷ xs) h = argnum-small (emit s (encode x)) xs (omega arith)

module _ (k : Kernel) (t : Target) (cfg : Config) (pa : PointArgs) (regs : CtxRegs)
    (P : List Entry → Type 0) where
  -- What a handler leaves at the point `point`: the record of the event with the entries behind the
  -- first four, and the signals.
  abbrev pub Leaves : PtRegs → ℕ → ℕ → CommonFilter → EventData → List Output → List Output → Type 0
  Leaves pt id point f e before out =
      (n : ℕ) × (entries : List Entry) × (n < 256)
      × (out
          ≡ before
            ++ (perf (record e.context { eventid = id; argnum = n })
                  (encode_all (origin f pt point ++ entries))
                ∷ signals f pa))
      × P entries

  -- What the handlers share: the first arguments, the reader, the record.
  pub report-Leaves :
      (pt : PtRegs) (id point : ℕ) (s : Session) (f : CommonFilter) (c : OpCtx) (w : World)
      → s.event.buf_off ≡ 0
      → s.event.context.argnum ≡ 0
      → ((e : EventData)
          → IsValid e
          → e.buf_off ≡ 32
          → Ran k t cfg pa regs 0 c (record s { event = e; world = w }) P)
      → (e : EventData) × (s' : Session) × (save_origin f pt point s.event ≡ ok e)
        × (run_reader k t cfg pa regs 0 c (record s { event = e; world = w }) ≡ ok (0, s'))
        × Leaves pt id point f s.event w.out ((events_perf_submit id s').world.out ++ signals f pa)
        × (s'.world.ctx_regs_map ≡ w.ctx_regs_map)
        × (s'.world.op_ctx_map 1 ≡ w.op_ctx_map 1)
  unfolding stream
  report-Leaves pt id point s f c w fresh zero run =
      let (e, r, v, first) = save_origin-emits f pt point s.event fresh in
      let ran = run e v (origin-size f pt point s.event e fresh first) in
      let s2 = ran.session in
      let entries = ran.entries in
      let view : stream s2.event ≡ emit_all (stream s.event) (origin f pt point ++ entries) =
        ran.view
        ∙ ap (λ u. emit_all u entries) first
        ∙ sym (emit_all-append (stream s.event) (origin f pt point) entries) in
      let (same, count) =
        perf-emit_all id (stream s.event) (stream s2.event) (origin f pt point ++ entries)
          (empty-stream s.event fresh) (argnum-stream s.event zero) view in
      (
        e,
        s2,
        r,
        ran.returns,
        (
          (stream s2.event).context.argnum,
          entries,
          subst (λ (u : Stream). u.context.argnum < 256) (sym view)
              (argnum-small (stream s.event) (origin f pt point ++ entries)
                (omega (arith, argnum-stream s.event zero))),
          rw (submit-sends id s2 ran.valid, append_assoc, ran.out)
              (ap (λ o. w.out ++ (o ∷ signals f pa)) same),
          ran.result,
        ),
        ran.kept_regs,
        ran.kept_ops 1 (λ e. omega arith),
      )

module _ (k : Kernel) (t : Target) (cfg : Config) (law : IsKernel k) (types : ArgTypes)
    (vs : OpManager) (args : List PointArg) (point_type : ℕ) (regs : CtxRegs) (max_ops : ℕ)
    (pa : PointArgs) (compiled : IsCompiled cfg types vs args max_ops pa)
    (bare : AreBare point_type regs args) (whole : AreWhole args) (passes : Admits cfg regs args)
    (enough : budget args + 1 < t.max_op_count) (wide : t.max_op_count ≤ 2 ^ 32)
    (room : 32 + total_need (map (reads_at point_type) args) + 4101 ≤ args_buf_size) where
  abbrev told : List Parsed
  told = map (printed_arg k t regs point_type) args

  abbrev SavesTold : List Entry → Type 0
  SavesTold entries = SavesAll (map (reads_at point_type) args) told entries

  -- the run of the reader in the handler
  run_reader-told :
      (s : Session) (reg_0 : ℕ) (c : OpCtx)
      → (c.post_code ≡ op_value op_skip) ⊎ (op_code c.post_code ≡ none)
      → IsValid s.event
      → s.event.buf_off ≡ 32
      → Ran k t cfg pa regs 0 (reset_op reg_0 4 c) s SavesTold
  run_reader-told s reg_0 c idle v size =
      run_reader-Ran k t cfg regs types vs args max_ops pa compiled
        (point_ops-IsShort point_type regs args bare) enough wide law s 0 4 reg_0 c SavesTold idle v
        (λ r same addr value q.
          let (entries, p, saved, sized) =
            point_ops-Runs k law t cfg regs point_type args r bare whole passes
              (rw (same, size) room) q in
          (entries, p, saved))

  abbrev pub Sends : PtRegs → ℕ → ℕ → CommonFilter → EventData → List Output → List Output → Type 0
  Sends = Leaves k t cfg pa regs SavesTold

  -- What the handlers of an entry share.
  pub report-Sends :
      (pt : PtRegs) (id point : ℕ) (s : Session) (f : CommonFilter) (reg_0 : ℕ) (c : OpCtx)
      (w : World)
      → (c.post_code ≡ op_value op_skip) ⊎ (op_code c.post_code ≡ none)
      → s.event.buf_off ≡ 0
      → s.event.context.argnum ≡ 0
      → (e : EventData) × (s' : Session) × (save_origin f pt point s.event ≡ ok e)
        × (run_reader k t cfg pa regs 0 (reset_op reg_0 4 c) (record s { event = e; world = w })
            ≡ ok (0, s'))
        × Sends pt id point f s.event w.out ((events_perf_submit id s').world.out ++ signals f pa)
        × (s'.world.ctx_regs_map ≡ w.ctx_regs_map)
        × (s'.world.op_ctx_map 1 ≡ w.op_ctx_map 1)
  report-Sends pt id point s f reg_0 c w idle fresh zero =
      report-Leaves k t cfg pa regs SavesTold pt id point s f (reset_op reg_0 4 c) w fresh zero
        (λ e v size. run_reader-told (record s { event = e; world = w }) reg_0 c idle v size)

-- A context with the event's id and the number of its arguments.
pub IsContext-sent :
    (c : EventContext) (id n : ℕ)
    → IsContext c
    → id < 2 ^ 32
    → n < 256
    → IsContext (record c { eventid = id; argnum = n })
IsContext-sent c id n v h small = record {
  ts = v.ts;
  eventid = h;
  host_tid = v.host_tid;
  host_pid = v.host_pid;
  tid = v.tid;
  pid = v.pid;
  uid = v.uid;
  comm = v.comm;
  argnum = small;
  padding = v.padding;
}
