-- ===== src/Programs/Submit/Report.antt =====
-- What the shared steps of the handlers send.
use stackplz.Base.{
  ℕ, ◌-◌, ◌%◌, ◌≡◌, ◌≢◌, ◌⊎◌, inl, refl, ap, ◌∙◌, arith, Option, some, List, [], ◌∷◌, ◌++◌, length,
  append_assoc, window,
}
use Prim.Native.Nat.add
use stackplz.Types.{ConfigEntry, EventData, EventContext, CommonFilter, PointArgs, CtxRegs, OpCtx}
use stackplz.Kernel.{Kernel, IsKernel, Config, Target}
use stackplz.Event.{Run, ok}
use stackplz.Event.Stream.{IsValid, Stream, stream}
use stackplz.Event.Entries.{
  Entry, word, encode, encode_all, emit_all, Extends, bytes-emit_all, context-emit_all,
  argnum-emit_all,
}
use stackplz.Buffer.Total.{word-saved}
use stackplz.Filtering.{should_trace}
use stackplz.ReadArgs.State.{Reader}
use stackplz.ReadArgs.Safe.{read_args-Extends}
use stackplz.Programs.World.{World, PtRegs, Session, Output, perf}
use stackplz.Programs.Submit.{
  save_origin, link_register, stack_pointer, events_perf_submit, submit_size, run_reader, put_op,
}

-- Arguments 0 to 3.
abbrev pub origin : CommonFilter → PtRegs → ℕ → List Entry
origin f pt point =
    word 4 0 point
    ∷ word 8 1 (link_register f pt)
    ∷ word 8 2 (stack_pointer f pt)
    ∷ word 8 3 pt.pc
    ∷ []

pub save_origin-emits :
    (f : CommonFilter) (pt : PtRegs) (point : ℕ) (e : EventData)
    → e.buf_off ≡ 0
    → (e' : EventData) × (save_origin f pt point e ≡ ok e')
      × IsValid e'
      × (stream e' ≡ emit_all (stream e) (origin f pt point))
unfolding save_origin emit_all encode
save_origin-emits f pt point e z =
    let (e0, r0, v0, b0) = word-saved e 4 0 point (omega arith) (omega arith) (omega arith) in
    let (e1, r1, v1, b1) =
      word-saved e0 8 1 (link_register f pt) (omega arith) (omega arith) (omega arith) in
    let (e2, r2, v2, b2) =
      word-saved e1 8 2 (stack_pointer f pt) (omega arith) (omega arith) (omega arith) in
    let (e3, r3, v3, b3) = word-saved e2 8 3 pt.pc (omega arith) (omega arith) (omega arith) in
    (e3, rw (r0, r1, r2, r3), omega arith, rw (v3, v2, v1, v0))

submit_size_lem : (e : EventData) → IsValid e → submit_size e - 56 ≡ e.buf_off
unfolding submit_size
submit_size_lem e v = ground arith

-- The record that goes out is the stream.
pub submit-sends :
    (id : ℕ) (s : Session)
    → IsValid s.event
    → (events_perf_submit id s).world.out
      ≡ s.world.out ++ perf (record s.event.context { eventid = id }) (stream s.event).bytes ∷ []
unfolding events_perf_submit stream
submit-sends id s v =
    let e = record s.event { context = record s.event.context { eventid = id } } in
    ap (λ n. s.world.out ++ perf e.context (window s.event.args 0 n) ∷ [])
      (submit_size_lem e (record { within = v.within }))

pub empty-stream : (e : EventData) → e.buf_off ≡ 0 → (stream e).bytes ≡ []
unfolding stream window
empty-stream e z = rw z

pub argnum-stream : (e : EventData) → e.context.argnum ≡ 0 → (stream e).context.argnum ≡ 0
unfolding stream
argnum-stream e z = z

-- From an empty record, the record that goes out holds the entries and their number.
pub perf-emit_all :
    (id : ℕ) (s0 s : Stream) (es : List Entry)
    → s0.bytes ≡ []
    → s0.context.argnum ≡ 0
    → s ≡ emit_all s0 es
    → (perf (record s.context { eventid = id }) s.bytes
        ≡ perf (record s0.context { eventid = id; argnum = s.context.argnum }) (encode_all es))
      × (s.context.argnum % 256 ≡ length es % 256)
perf-emit_all id s0 s es empty zero view = (
  ap (λ (c : EventContext). perf (record c { eventid = id }) s.bytes) same
      ∙ ap (λ bs. perf (record s0.context { eventid = id; argnum = s.context.argnum }) bs) bytes,
  rw view (argnum-emit_all s0 es ∙ rw (zero, add.zero)),
)
  where
    same : s.context ≡ record s0.context { argnum = s.context.argnum }
    same = rw view (context-emit_all s0 es)

    bytes : s.bytes ≡ encode_all es
    bytes = rw view (bytes-emit_all s0 es ∙ rw empty)

-- A run of the reader returns, and leaves what it does not own.
pub record Ran (s : Session) (run : Run (ℕ × Session)) : Type 0 where
  pub skip : ℕ
  pub session : Session
  pub returns : run ≡ ok (skip, session)
  pub valid : IsValid session.event
  pub grows : Extends (stream s.event) (stream session.event)
  pub out : session.world.out ≡ s.world.out
  pub regs : session.world.ctx_regs_map ≡ s.world.ctx_regs_map
  pub forks : session.world.child_parent_map ≡ s.world.child_parent_map

pub run_reader-Ran :
    (k : Kernel) (t : Target) (cfg : Config) (args : PointArgs) (regs : CtxRegs) (i : ℕ) (c : OpCtx)
    (s : Session)
    → IsKernel k
    → IsValid s.event
    → Ran s (run_reader k t cfg args regs i c s)
unfolding run_reader
run_reader-Ran k t cfg args regs i c s law v =
    let r0 : Reader = record { event = s.event; op = c; strs = s.world.strs } in
    let (r, e, valid, grows) = read_args-Extends k t cfg args regs r0 law v in
    record {
      skip = r.op.skip_flag;
      session = record s {
        event = r.event;
        world = put_op i (record r.op { skip_flag = 0 }) (record s.world { strs = r.strs });
      };
      returns = rw e;
      valid = valid;
      grows = grows;
      out = refl;
      regs = refl;
      forks = refl;
    }

-- A record of a traced task was sent at a configured point: `first`, then other entries, their
-- number in its context, and behind it the signals `after`.
module _ (cfg : Config) (forks : ℕ → Option ℕ) (id : ℕ) (point : Option PointArgs)
    (first : CommonFilter → List Entry) (after : CommonFilter → PointArgs → List Output)
    (before : List Output) where
  pub record Sent (out : List Output) : Type 0 where
    pub config : ConfigEntry
    pub known : cfg.base_config ≡ some config
    pub context : EventContext
    pub traced : should_trace cfg forks config context ≢ 0
    pub filter : CommonFilter
    pub has_filter : cfg.common_filter ≡ some filter
    pub args : PointArgs
    pub has_point : point ≡ some args
    pub entries : List Entry
    pub number : ℕ
    pub counts : number % 256 ≡ length (first filter ++ entries) % 256
    pub sent :
        out
        ≡ before
          ++ (perf
                (record context { eventid = id; argnum = number })
                (encode_all (first filter ++ entries))
              ∷ after filter args)

  -- The handler returns, and has sent nothing or such a record.
  pub record Reports (run : Run World) : Type 0 where
    pub world : World
    pub returns : run ≡ ok world
    pub result : (world.out ≡ before) ⊎ Sent world.out

  pub Reports-silent : (w : World) → w.out ≡ before → Reports (ok w)
  Reports-silent w e = record { world = w; returns = refl; result = inl e }

-- Who is traced, and how; the parts of `Sent` that a handler knows before it sends.
pub record Cause (cfg : Config) (forks : ℕ → Option ℕ) (point : Option PointArgs) (s : Session)
    (filter : CommonFilter) (args : PointArgs) : Type 0 where
  pub known : cfg.base_config ≡ some s.config
  pub traced : should_trace cfg forks s.config s.event.context ≢ 0
  pub has_filter : cfg.common_filter ≡ some filter
  pub has_point : point ≡ some args
  pub fresh : s.event.buf_off ≡ 0
  pub argnum : s.event.context.argnum ≡ 0

-- A session that has saved `first` and more since it started sends such a record.
pub submit-Sent :
    (cfg : Config) (forks : ℕ → Option ℕ) (id : ℕ) (point : Option PointArgs)
    (first : CommonFilter → List Entry) (after : CommonFilter → PointArgs → List Output)
    (s s' : Session) (f : CommonFilter) (args : PointArgs) (entries : List Entry)
    → Cause cfg forks point s f args
    → IsValid s'.event
    → stream s'.event ≡ emit_all (stream s.event) (first f ++ entries)
    → Sent cfg forks id point first after s'.world.out
        ((events_perf_submit id s').world.out ++ after f args)
unfolding stream
submit-Sent cfg forks id point first after s s' f args entries why v view =
    let (same, count) =
      perf-emit_all id (stream s.event) (stream s'.event) (first f ++ entries)
        (empty-stream s.event why.fresh) (argnum-stream s.event why.argnum) view in
    record {
      config = s.config;
      known = why.known;
      context = s.event.context;
      traced = why.traced;
      filter = f;
      has_filter = why.has_filter;
      args = args;
      has_point = why.has_point;
      entries = entries;
      number = s'.event.context.argnum;
      counts = count;
      sent =
          rw (submit-sends id s' v, append_assoc)
            (ap (λ o. s'.world.out ++ (o ∷ after f args)) same);
    }
