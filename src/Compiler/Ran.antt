-- ===== src/Compiler/Ran.antt =====
-- The run of the reader in a handler, on compiled operations.
use stackplz.Base.{ℕ, ◌+◌, ◌^◌, ◌<◌, ◌≤◌, ◌≡◌, ◌≢◌, refl, arith, ◌⊎◌, none, List, ◌==◌, false}
use stackplz.Types.{op_skip, op_code, op_value, OpCtx, EventData, CtxRegs, PointArgs}
use stackplz.Kernel.{Kernel, Target, Config, IsKernel}
use stackplz.Event.{ok}
use stackplz.Event.Stream.{IsValid, stream}
use stackplz.Event.Entries.{Entry, emit_all}
use stackplz.ReadArgs.State.{Reader}
use stackplz.ReadArgs.Safe.{read_args-Extends}
use stackplz.Decoder.Args.{PointArg}
use stackplz.Programs.World.{World, Session}
use stackplz.Programs.Submit.{reset_op, run_reader, put_op}
use stackplz.Compiler.{OpManager}
use stackplz.Compiler.Ops.{ArgTypes}
use stackplz.Compiler.Compiled.{point_ops, configs}
use stackplz.Compiler.Runs.Filters.{budget}
use stackplz.Compiler.Runs.Single.{IsQuiet}
use stackplz.Compiler.Runs.Kinds.{Runs}
use stackplz.Compiler.Runs.Shape.{IsShort}
use stackplz.Compiler.Loaded.{IsCompiled}
use stackplz.Compiler.Saved.{IsFresh, read_args-saved}

pub reset-IsFresh :
    (e : EventData) (reg_0 i : ℕ) (c : OpCtx) (w : World)
    → (c.post_code ≡ op_value op_skip) ⊎ (op_code c.post_code ≡ none)
    → IsFresh (record { event = e; op = reset_op reg_0 i c; strs = w.strs })
unfolding reset_op
reset-IsFresh e reg_0 i c w idle = record {
  place = refl;
  idle = idle;
  quiet = refl;
  unfiltered = refl;
}

-- A run of the reader that says not to skip, with the registers of the index `i`: it has saved
-- entries, and left the maps but for its own registers.
pub record Ran (k : Kernel) (t : Target) (cfg : Config) (pa : PointArgs) (regs : CtxRegs) (i : ℕ)
    (c : OpCtx) (s : Session) (P : List Entry → Type 0) : Type 0 where
  pub session : Session
  pub entries : List Entry
  pub returns : run_reader k t cfg pa regs i c s ≡ ok (0, session)
  pub valid : IsValid session.event
  pub view : stream session.event ≡ emit_all (stream s.event) entries
  pub out : session.world.out ≡ s.world.out
  pub kept_regs : session.world.ctx_regs_map ≡ s.world.ctx_regs_map
  pub kept_ops : (j : ℕ) → j ≢ i → session.world.op_ctx_map j ≡ s.world.op_ctx_map j
  pub result : P entries

module _ (k : Kernel) (t : Target) (cfg : Config) (regs : CtxRegs) (types : ArgTypes)
    (vs : OpManager) (args : List PointArg) (max_ops : ℕ) (pa : PointArgs)
    (compiled : IsCompiled cfg types vs args max_ops pa)
    (short : IsShort (budget args) (configs (point_ops args)))
    (enough : budget args + 1 < t.max_op_count) (wide : t.max_op_count ≤ 2 ^ 32)
    (law : IsKernel k) where
  pub run_reader-Ran :
      (s : Session) (i j reg_0 : ℕ) (c : OpCtx) (P : List Entry → Type 0)
      → (c.post_code ≡ op_value op_skip) ⊎ (op_code c.post_code ≡ none)
      → IsValid s.event
      → ((r : Reader)
          → r.event ≡ s.event
          → r.op.read_addr ≡ c.read_addr
          → r.op.reg_0 ≡ reg_0
          → IsQuiet r
          → (entries : List Entry) × Runs k t cfg regs (configs (point_ops args)) r entries
            × P entries)
      → Ran k t cfg pa regs i (reset_op reg_0 j c) s P
  unfolding run_reader put_op reset_op
  run_reader-Ran s i j reg_0 c P idle v outcome =
      let r : Reader = record { event = s.event; op = reset_op reg_0 j c; strs = s.world.strs } in
      let (r', entries, returns, skip, view, saved) =
        read_args-saved k t cfg regs types vs args max_ops pa compiled short enough wide r P
          (reset-IsFresh s.event reg_0 j c s.world idle) outcome in
      let (r'', returns'', v'', grows) = read_args-Extends k t cfg pa regs r law v in
      let same : r'' ≡ r' = cc in
      record {
        session = record s {
          event = r'.event;
          world = put_op i (record r'.op { skip_flag = 0 }) (record s.world { strs = r'.strs });
        };
        entries = entries;
        returns = rw (returns, skip) refl;
        valid = rw (← same) v'';
        view = view;
        out = refl;
        kept_regs = refl;
        kept_ops = λ n ne. (let other : (n == i) ≡ false = ground arith in rw other refl);
        result = saved;
      }
