-- ===== src/Compiler/Received.antt =====
-- From the arguments of a point to what the decoder tells of them: the operations are compiled,
-- `read_args` runs them, and the decoder reads what it saved.
use stackplz.Base.{ℕ, ◌+◌, ◌^◌, ◌<◌, ◌≤◌, ◌≡◌, ap, ◌∙◌, some, List, ◌∷◌, ◌++◌, Bool, map}
use stackplz.Types.{CtxRegs, PointArgs, args_buf_size}
use stackplz.Kernel.{Kernel, Target, Config, IsKernel}
use stackplz.Event.{ok}
use stackplz.Event.Stream.{Stream, stream}
use stackplz.Event.Entries.{Entry, encode_all, bytes-emit_all}
use stackplz.Decoder.Args.{Kind, PointArg, Parsed, reads_at, parse_point}
use stackplz.Decoder.Saves.{SavesAll}
use stackplz.Decoder.RoundTrip.{parse_point-SavesAll}
use stackplz.ReadArgs.State.{Reader}
use stackplz.ReadArgs.{read_args}
use stackplz.Compiler.{OpManager}
use stackplz.Compiler.Ops.{ArgTypes}
use stackplz.Compiler.Compiled.{point_ops, configs}
use stackplz.Compiler.Saved.{IsFresh, read_args-saved}
use stackplz.Compiler.Loaded.{IsCompiled}
use stackplz.Compiler.Runs.Single.{IsQuiet}
use stackplz.Compiler.Runs.Filters.{Admits, budget}
use stackplz.Compiler.Runs.Kinds.{Runs}
use stackplz.Compiler.Runs.Point.{
  AreWhole, AreBare, IsReturn, total_need, printed_arg, point_ops-Runs, ret_point-Runs,
}
use stackplz.Compiler.Runs.Args.{printed}
use stackplz.Compiler.Runs.Shape.{IsShort, ret_point-IsShort, point_ops-IsShort}

-- `read_args` returns and skips nothing more; the decoder reads these results from the bytes that
-- it saved, and leaves what follows.
abbrev pub Received :
    Kernel
    → Target
    → Config
    → PointArgs
    → CtxRegs
    → Reader
    → List (Kind × Bool)
    → List Parsed
    → Type 0
Received k t cfg pa regs r reads results =
    (r' : Reader) × (bytes : List ℕ) × (read_args k t cfg pa regs r ≡ ok r')
    × (r'.op.skip_flag ≡ r.op.skip_flag)
    × ((stream r'.event).bytes ≡ (stream r.event).bytes ++ bytes)
    × ((rest : List ℕ) → parse_point reads (bytes ++ rest) ≡ some (results, rest))

module _ (k : Kernel) (t : Target) (cfg : Config) (regs : CtxRegs) (types : ArgTypes)
    (vs : OpManager) (args : List PointArg) (max_ops : ℕ) (pa : PointArgs)
    (compiled : IsCompiled cfg types vs args max_ops pa)
    (short : IsShort (budget args) (configs (point_ops args)))
    (enough : budget args + 1 < t.max_op_count) (wide : t.max_op_count ≤ 2 ^ 32) where
  -- What the operations save is what the decoder reads of the record.
  pub read_args-decoded :
      (point_type : ℕ) (r : Reader) (results : List Parsed)
      → IsFresh r
      → ((r0 : Reader)
          → r0.event ≡ r.event
          → r0.op.read_addr ≡ r.op.read_addr
          → r0.op.reg_0 ≡ r.op.reg_0
          → IsQuiet r0
          → (entries : List Entry) × Runs k t cfg regs (configs (point_ops args)) r0 entries
            × SavesAll (map (reads_at point_type) args) results entries)
      → Received k t cfg pa regs r (map (reads_at point_type) args) results
  read_args-decoded point_type r results fresh outcome =
      let (r', entries, returns, skip, view, saved) =
        read_args-saved k t cfg regs types vs args max_ops pa compiled short enough wide r
          (SavesAll (map (reads_at point_type) args) results) fresh outcome in
      (
        r',
        encode_all entries,
        returns,
        skip,
        ap (λ (s : Stream). s.bytes) view ∙ bytes-emit_all (stream r.event) entries,
        (λ rest. parse_point-SavesAll (map (reads_at point_type) args) results entries rest saved),
      )

module _ (k : Kernel) (t : Target) (cfg : Config) (regs : CtxRegs) (types : ArgTypes)
    (vs : OpManager) (args : List PointArg) (max_ops : ℕ) (pa : PointArgs) (point_type : ℕ)
    (r : Reader) (law : IsKernel k) (fresh : IsFresh r) (wide : t.max_op_count ≤ 2 ^ 32)
    (bare : AreBare point_type regs args) (whole : AreWhole args)
    (passes : Admits cfg regs args) where
  -- The arguments of a point, each from a register of 64 bits, grouped with this kind of point,
  -- of a registered type without loops that the decoder takes whole, filtered by value only, and
  -- admitted by their filters, are compiled and loaded; their list of keys is run by the reader,
  -- from the state in which a handler starts it, with room in the buffer for all of them, and the
  -- rounds that the operations need. Then `read_args` returns and skips nothing, and the decoder
  -- reads from the bytes that it saved the value of each register and, where the argument says to
  -- read more, what the kernel reads there; it leaves what follows.
  pub read_args-Received :
      IsCompiled cfg types vs args max_ops pa
      → budget args + 1 < t.max_op_count
      → r.event.buf_off + total_need (map (reads_at point_type) args) + 4101 ≤ args_buf_size
      → Received k t cfg pa regs r
          (map (reads_at point_type) args)
          (map (printed_arg k t regs point_type) args)
  read_args-Received compiled enough room =
      read_args-decoded k t cfg regs types vs args max_ops pa compiled
        (point_ops-IsShort point_type regs args bare) enough wide point_type r
        (map (printed_arg k t regs point_type) args) fresh
        (λ r0 same addr value q.
          let (entries, p, saved, sized) =
            point_ops-Runs k law t cfg regs point_type args r0 bare whole passes (rw same room) q in
          (entries, p, saved))

  -- At a return the value that is returned comes first: it and the arguments of the point, each
  -- from a register of 64 bits, grouped with this kind of point, of a registered type without
  -- loops that the decoder takes whole, filtered by value only, and admitted by their filters,
  -- are compiled and loaded; their list of keys is run by the reader, from the state in which a
  -- handler starts it, with room in the buffer for all of them, and the rounds that the
  -- operations need. Then `read_args` returns and skips nothing, and the decoder reads the value
  -- returned (`reg_0` of the reader) and the value of each register, and what the kernel reads at
  -- the address of each register; but for the value returned it tells what the kernel reads at
  -- the address with which the reader starts, not at the value: no operation of a returned value
  -- sets the address. It leaves what follows.
  pub read_args-returned :
      (ret : PointArg)
      → IsReturn point_type r.op.reg_0 ret
      → IsCompiled cfg types vs (ret ∷ args) max_ops pa
      → budget (ret ∷ args) + 1 < t.max_op_count
      → r.event.buf_off + total_need (map (reads_at point_type) (ret ∷ args)) + 4101 ≤ args_buf_size
      → Received k t cfg pa regs r (map (reads_at point_type) (ret ∷ args)) (
          printed k t r.op.reg_0 r.op.read_addr (reads_at point_type ret)
          ∷ map (printed_arg k t regs point_type) args)
  read_args-returned ret returns compiled enough room =
      read_args-decoded k t cfg regs types vs (ret ∷ args) max_ops pa compiled
        (ret_point-IsShort point_type r.op.reg_0 regs ret args returns bare) enough wide point_type
        r
        (printed k t r.op.reg_0 r.op.read_addr (reads_at point_type ret)
          ∷ map (printed_arg k t regs point_type) args)
        fresh
        (λ r0 same addr value q.
          rw (← addr, ← value)
            (ret_point-Runs k law t cfg regs point_type ret args r0 (rw value returns) bare whole
              passes (rw same room) q))
