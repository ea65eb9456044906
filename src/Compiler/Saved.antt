-- ===== src/Compiler/Saved.antt =====
-- The reader runs the compiled operations, and returns with what they save.
use stackplz.Base.{
  ℕ, zero, suc, ◌+◌, ◌^◌, ◌<◌, ◌≤◌, ◌≡◌, ◌≢◌, refl, ap, sym, ◌∙◌, subst, arith, ◌⊎◌, inl, inr,
  Option, none, some, List, [], ◌∷◌, ◌++◌, ◌==◌, false,
}
use stackplz.Types.{op_skip, op_code, op_value, OpConfig, CtxRegs, PointArgs}
use stackplz.Kernel.{Kernel, Target, Config}
use stackplz.Event.{ok}
use stackplz.Event.Stream.{stream}
use stackplz.Event.Entries.{Entry, emit_all}
use stackplz.Decoder.Args.{PointArg}
use stackplz.ReadArgs.State.{Reader, Step, next}
use stackplz.ReadArgs.Exec.{exec}
use stackplz.ReadArgs.{fetch, continue, read_loop, finish, read_args}
use stackplz.ReadArgs.Program.{start_op, KeysAt, exec_ops, loop-fetched}
use stackplz.ReadArgs.Sequence.{read_loop-sequence}
use stackplz.Compiler.{OpManager}
use stackplz.Compiler.Ops.{ArgTypes}
use stackplz.Compiler.Filled.{point_keys}
use stackplz.Compiler.Compiled.{point_ops, configs}
use stackplz.Compiler.Loaded.{IsCompiled, program-keys, program-Resolves, program-ends}
use stackplz.Compiler.Runs.Single.{IsQuiet, SameNotes}
use stackplz.Compiler.Runs.Filters.{budget}
use stackplz.Compiler.Runs.Kinds.{Runs}
use stackplz.Compiler.Runs.Shape.{IsShort, Resolves-length}

-- The state in which a handler starts the reader: at the start of the program, no second half that
-- means anything, and nothing noted about filters.
pub record IsFresh (r : Reader) : Type 0 where
  pub place : r.op.op_key_index ≡ 0
  pub idle : (r.op.post_code ≡ op_value op_skip) ⊎ (op_code r.op.post_code ≡ none)
  pub quiet : (r.op.match_blacklist == 1) ≡ false
  pub unfiltered : r.op.apply_filter ≡ 0

module _ (k : Kernel) (t : Target) (cfg : Config) (regs : CtxRegs) (args : PointArgs) where
  -- after the loop, with nothing noted about filters
  finish-plain :
      (r : Reader) → IsQuiet r → r.op.apply_filter ≡ 0 → finish k t cfg args regs (next r) ≡ ok r
  unfolding finish
  finish-plain r q f = ground (arith, q, f)

  not_skip : (code : ℕ) → op_code code ≡ none → code ≢ op_value op_skip
  unfolding op_code op_value
  not_skip code e same = ground (arith, ap op_code same)

  fetch-idle :
      (c0 : OpConfig) (r : Reader)
      → r.op.post_code ≢ op_value op_skip
      → fetch t cfg args (some c0) r.op
        ≡ some (c0, record r.op { op_code = r.op.post_code; post_code = op_value op_skip })
  unfolding fetch
  fetch-idle c0 r h =
      let waits : (r.op.post_code == op_value op_skip) ≡ false = ground arith in rw waits refl

  -- a second half that means nothing takes a round
  loop-idle :
      (n : ℕ) (c0 : OpConfig) (r : Reader)
      → op_code r.op.post_code ≡ none
      → IsQuiet r
      → read_loop k t cfg args regs (suc n) (some c0) r
        ≡ read_loop k t cfg args regs n (some c0) (record r {
          op = record r.op { op_code = r.op.post_code; post_code = op_value op_skip };
        })
  unfolding continue exec
  loop-idle n c0 r e q =
      let x = record r.op { op_code = r.op.post_code; post_code = op_value op_skip } in
      loop-fetched k t cfg regs args n (some c0) c0 x r
        (fetch-idle c0 r (not_skip r.op.post_code e)) (not_skip r.op.post_code e)
      ∙ rw (e, q) refl

module _ (k : Kernel) (t : Target) (cfg : Config) (regs : CtxRegs) (types : ArgTypes)
    (vs : OpManager) (args : List PointArg) (max_ops : ℕ) (pa : PointArgs)
    (compiled : IsCompiled cfg types vs args max_ops pa)
    (short : IsShort (budget args) (configs (point_ops args)))
    (enough : budget args + 1 < t.max_op_count) (wide : t.max_op_count ≤ 2 ^ 32) where
  read_loop-compiled :
      (n : ℕ) (o : Option OpConfig) (r : Reader)
      → r.op.op_key_index ≡ 0
      → r.op.post_code ≡ op_value op_skip
      → budget args < n
      → read_loop k t cfg pa regs n o r
        ≡ exec_ops k t cfg regs
            (configs (point_ops args))
            (λ r'. next (start_op compiled.ends r'))
            r
  read_loop-compiled n o r place idle rounds_ =
      let keys = (point_keys types args vs).0 in
      let (straight, few) = short in
      let known = program-Resolves compiled in
      let long = Resolves-length cfg.op_list keys (configs (point_ops args)) known in
      read_loop-sequence k t cfg regs pa compiled.ends compiled.ends_skip (program-ends compiled)
        wide (configs (point_ops args)) keys n o r straight known
        (subst (λ i. KeysAt pa.op_key_list i (keys ++ 0 ∷ [])) (sym place) (program-keys compiled))
        idle (omega (arith, place, long, few)) (omega (arith, few))

  -- The operations run from the state that the reader starts in.
  loop-fresh :
      (n : ℕ) (r : Reader)
      → IsFresh r
      → budget args + 1 < n
      → (r0 : Reader) × (r0.event ≡ r.event)
        × SameNotes r r0
        × (r0.op.read_addr ≡ r.op.read_addr)
        × (r0.op.reg_0 ≡ r.op.reg_0)
        × (read_loop k t cfg pa regs n (cfg.op_list 0) r
            ≡ exec_ops k t cfg regs
                (configs (point_ops args))
                (λ r'. next (start_op compiled.ends r'))
                r0)
  loop-fresh zero r fresh h = absurd (omega arith)
  loop-fresh (suc n) r fresh h = elim fresh.idle [
    | inl idle ↦ (
      r,
      refl,
      (refl, refl, refl, refl),
      refl,
      refl,
      read_loop-compiled (suc n) (cfg.op_list 0) r fresh.place idle (omega arith),
    )
    | inr waits ↦
        let r0 = record r {
          op = record r.op { op_code = r.op.post_code; post_code = op_value op_skip };
        } in
        (
          r0,
          refl,
          (refl, refl, refl, refl),
          refl,
          refl,
          ap (λ o. read_loop k t cfg pa regs (suc n) o r) (program-ends compiled)
              ∙ loop-idle k t cfg regs pa n compiled.ends r waits fresh.quiet
              ∙ read_loop-compiled n (some compiled.ends) r0 fresh.place refl (omega arith),
        )
  ]

  -- The reader returns with what the operations save.
  pub read_args-saved :
      (r : Reader) (P : List Entry → Type 0)
      → IsFresh r
      → ((r0 : Reader)
          → r0.event ≡ r.event
          → r0.op.read_addr ≡ r.op.read_addr
          → r0.op.reg_0 ≡ r.op.reg_0
          → IsQuiet r0
          → (entries : List Entry) × Runs k t cfg regs (configs (point_ops args)) r0 entries
            × P entries)
      → (r' : Reader) × (entries : List Entry) × (read_args k t cfg pa regs r ≡ ok r')
        × (r'.op.skip_flag ≡ r.op.skip_flag)
        × (stream r'.event ≡ emit_all (stream r.event) entries)
        × P entries
  unfolding read_args
  read_args-saved r P fresh outcome =
      let (r0, same, notes, addr, value, loop) = loop-fresh t.max_op_count r fresh enough in
      let (entries, p, saved) = outcome r0 same addr value (rw notes.0 fresh.quiet) in
      let end_ = start_op compiled.ends p.after in
      let quiet : IsQuiet end_ = rw (p.notes.0, notes.0) fresh.quiet in
      (
        end_,
        entries,
        ap (finish k t cfg pa regs) (loop ∙ p.runs (λ r'. next (start_op compiled.ends r')))
            ∙ finish-plain k t cfg regs pa end_ quiet (p.notes.2 ∙ notes.2 ∙ fresh.unfiltered),
        p.notes.3 ∙ notes.3,
        p.view ∙ ap (λ e. emit_all (stream e) entries) same,
        saved,
      )

  -- The reader whose operations leave the mark of a blacklist returns, and says to skip.
  pub read_args-rejected :
      (r : Reader)
      → IsFresh r
      → ((r0 : Reader) (f : Reader → Step)
          → r0.event ≡ r.event
          → IsQuiet r0
          → (r' : Reader) × (r'.op.match_blacklist ≡ 1)
            × (exec_ops k t cfg regs (configs (point_ops args)) f r0 ≡ next r'))
      → (r' : Reader) × (read_args k t cfg pa regs r ≡ ok r') × (r'.op.skip_flag ≡ 1)
  unfolding read_args finish
  read_args-rejected r fresh outcome =
      let (r0, same, notes, addr, value, loop) = loop-fresh t.max_op_count r fresh enough in
      let (r', mark, ends) =
        outcome r0 (λ r'. next (start_op compiled.ends r')) same (rw notes.0 fresh.quiet) in
      (
        record r' { op = record r'.op { skip_flag = 1 } },
        ap (finish k t cfg pa regs) (loop ∙ ends) ∙ rw mark refl,
        refl,
      )
