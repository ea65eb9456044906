-- ===== src/Compiler/Runs/Filters.antt =====
-- The filters on the value of an argument, run behind its register.
use stackplz.Base.{
  ℕ, ◌+◌, ◌≡◌, refl, ap, ◌∙◌, arith, none, some, List, [], ◌∷◌, ◌++◌, Bool, true, false, ◌&&◌,
  if◌then◌else◌, length, Bool-cases, inl, inr,
}
use stackplz.Types.{op_filter_value, op_code, op_value, ArgFilter, OpConfig, CtxRegs}
use stackplz.Kernel.{Kernel, Target, Config}
use stackplz.Event.Stream.{stream}
use stackplz.Event.Entries.{Entry, emit_all}
use stackplz.Decoder.Args.{Kind, text, std_text, buffer, PointArg}
use stackplz.ReadArgs.State.{Reader, Step, next}
use stackplz.ReadArgs.Exec.{exec, reg_at}
use stackplz.ReadArgs.Filters.{rejects_value, filter_value, with_filter}
use stackplz.ReadArgs.{continue}
use stackplz.ReadArgs.Program.{start_op, exec_op, exec_ops, exec_ops-append}
use stackplz.Compiler.{Op}
use stackplz.Compiler.Ops.{rop, new_value, filter_ops, value_filters}
use stackplz.Compiler.Compiled.{configs}
use stackplz.Compiler.Runs.Single.{IsQuiet, exec_ops-first, single}
use stackplz.Compiler.Runs.Kinds.{Runs}

-- The filters that are applied to the value of an argument.
abbrev pub tests_of : Kind → Bool → List ℕ → List ℕ
tests_of text is_ret filters = []
tests_of std_text is_ret filters = []
tests_of buffer is_ret filters = []
tests_of _ is_ret filters = if is_ret then [] else filters

abbrev pub tests : PointArg → List ℕ
tests arg = tests_of arg.kind arg.is_ret arg.filter_index_list

abbrev pub test_ops : List ℕ → List Op
test_ops filters = filter_ops "FILTER_VALUE" op_filter_value filters

pub value_filters_lem : (arg : PointArg) → value_filters arg ≡ test_ops (tests arg)
unfolding value_filters filter_ops
value_filters_lem arg = ground arith

pub tests-return : (arg : PointArg) → arg.is_ret ≡ true → test_ops (tests arg) ≡ []
unfolding filter_ops
tests-return arg e = ground arith

-- Every filter of the list has an entry in the map.
abbrev pub AreLoaded : Config → List ℕ → Type 0
AreLoaded cfg [] = Unit
AreLoaded cfg (i ∷ is) = ((f : ArgFilter) × (cfg.arg_filter i ≡ some f)) × AreLoaded cfg is

-- No filter of the list rejects the value.
abbrev pub admits_value : Config → ℕ → List ℕ → Bool
admits_value cfg v [] = true
admits_value cfg v (i ∷ is) = elim (cfg.arg_filter i) [
  | none ↦ admits_value cfg v is
  | some f ↦ if rejects_value f v then false else admits_value cfg v is
]

abbrev pub AllLoaded : Config → List PointArg → Type 0
AllLoaded cfg [] = Unit
AllLoaded cfg (arg ∷ args) = AreLoaded cfg (tests arg) × AllLoaded cfg args

-- Every argument's filters admit the value of its register.
abbrev pub admits : Config → CtxRegs → List PointArg → Bool
admits cfg regs [] = true
admits cfg regs (arg ∷ args) =
    admits_value cfg (reg_at regs arg.reg_index) (tests arg) && admits cfg regs args

abbrev pub Admits : Config → CtxRegs → List PointArg → Type 0
Admits cfg regs args = AllLoaded cfg args × (admits cfg regs args ≡ true)

abbrev pub Rejects : Config → CtxRegs → List PointArg → Type 0
Rejects cfg regs args = AllLoaded cfg args × (admits cfg regs args ≡ false)

-- The rounds of the reader that are enough for the arguments of a point.
abbrev pub budget : List PointArg → ℕ
budget [] = 0
budget (arg ∷ args) = 5 + length (tests arg) + budget args

module _ (k : Kernel) (t : Target) (cfg : Config) (regs : CtxRegs) where
  abbrev filter_op : ℕ → OpConfig
  filter_op i = (new_value (rop "FILTER_VALUE" op_filter_value) i).config

  -- one filter, run
  filter-exec :
      (i : ℕ) (f : ArgFilter) (r : Reader)
      → cfg.arg_filter i ≡ some f
      → exec k t cfg (filter_op i) regs (op_code (filter_op i).code) (start_op (filter_op i) r)
        ≡ filter_value f (start_op (filter_op i) r)
  unfolding new_value rop op_value op_code exec with_filter
  filter-exec i f r e = rw (exec, with_filter, e) refl

  accept_lem :
      (i : ℕ) (f : ArgFilter) (r : Reader)
      → cfg.arg_filter i ≡ some f
      → rejects_value f r.op.reg_value ≡ false
      → IsQuiet r
      → exec_op k t cfg regs (filter_op i) r ≡ next (start_op (filter_op i) r)
  unfolding filter_value new_value rop
  accept_lem i f r e h q =
      single k t cfg regs (filter_op i) r (start_op (filter_op i) r)
        (filter-exec i f r e ∙ rw h refl) refl q

  reject_lem :
      (i : ℕ) (f : ArgFilter) (r : Reader)
      → cfg.arg_filter i ≡ some f
      → rejects_value f r.op.reg_value ≡ true
      → (r' : Reader) × (r'.op.match_blacklist ≡ 1)
        × (r'.event ≡ r.event)
        × ((cs : List OpConfig) (g : Reader → Step)
            → exec_ops k t cfg regs (filter_op i ∷ cs) g r ≡ next r')
  unfolding filter_value new_value rop exec_ops continue
  reject_lem i f r e h =
      let r1 = start_op (filter_op i) r in
      (
        record r1 { op = record r1.op { match_blacklist = 1 } },
        refl,
        refl,
        (λ cs g. rw (filter-exec i f r e, h) refl),
      )

  -- Filters that all admit the value let the reader go on, and change no more than the place.
  pub test_ops-Runs :
      (is : List ℕ) (r : Reader)
      → AreLoaded cfg is
      → admits_value cfg r.op.reg_value is ≡ true
      → IsQuiet r
      → (p : Runs k t cfg regs (configs (test_ops is)) r []) × (p.after.op.read_addr
          ≡ r.op.read_addr)
        × (p.after.op.save_index ≡ r.op.save_index)
        × (p.after.event ≡ r.event)
  unfolding exec_ops emit_all filter_ops
  test_ops-Runs [] r l h q = (
    record { after = r; runs = λ f. refl; view = refl; notes = (refl, refl, refl, refl) },
    refl,
    refl,
    refl,
  )
  test_ops-Runs (i ∷ is) r ((a, e), l) h q =
      let admitted : rejects_value a r.op.reg_value ≡ false = ground (arith, e) in
      let more : admits_value cfg r.op.reg_value is ≡ true = ground (arith, e) in
      let (p, addr, index, event) = test_ops-Runs is (start_op (filter_op i) r) l more q in
      (
        record {
          after = p.after;
          runs = λ f.
              exec_ops-first k t cfg regs (filter_op i) (configs (test_ops is)) f r
                (start_op (filter_op i) r) (accept_lem i a r e admitted q) q
              ∙ p.runs f;
          view = p.view;
          notes = p.notes;
        },
        addr,
        index,
        event,
      )

  -- Behind operations that leave a value which the filters admit, the filters change nothing.
  pub tests-Runs :
      (cs : List OpConfig) (is : List ℕ) (r : Reader) {entries : List Entry} (v a : ℕ)
      (p : Runs k t cfg regs cs r entries)
      → p.after.op.reg_value ≡ v
      → p.after.op.read_addr ≡ a
      → AreLoaded cfg is
      → admits_value cfg v is ≡ true
      → IsQuiet r
      → (p' : Runs k t cfg regs (cs ++ configs (test_ops is)) r entries) × (p'.after.op.read_addr
          ≡ a)
  tests-Runs cs is r {entries} v a p value addr l h q =
      let (p', same, index, event) = test_ops-Runs is p.after l (rw value h) (rw p.notes.0 q) in
      (
        record {
          after = p'.after;
          runs = λ f.
              exec_ops-append k t cfg regs cs (configs (test_ops is)) f r
              ∙ p.runs (exec_ops k t cfg regs (configs (test_ops is)) f)
              ∙ p'.runs f;
          view = ap stream event ∙ p.view;
          notes = (
            p'.notes.0 ∙ p.notes.0,
            p'.notes.1 ∙ p.notes.1,
            p'.notes.2 ∙ p.notes.2,
            p'.notes.3 ∙ p.notes.3,
          );
        },
        same ∙ addr,
      )

  -- A filter that rejects the value ends the operations, and leaves its mark.
  pub test_ops-Rejects :
      (is : List ℕ) (r : Reader)
      → AreLoaded cfg is
      → admits_value cfg r.op.reg_value is ≡ false
      → IsQuiet r
      → (r' : Reader) × (r'.op.match_blacklist ≡ 1)
        × (r'.event ≡ r.event)
        × ((cs : List OpConfig) (g : Reader → Step)
            → exec_ops k t cfg regs (configs (test_ops is) ++ cs) g r ≡ next r')
  unfolding exec_ops filter_ops
  test_ops-Rejects [] r l h q = absurd (ground (arith, h))
  test_ops-Rejects (i ∷ is) r ((a, e), l) h q = elim (Bool-cases (rejects_value a r.op.reg_value)) [
    | inl y ↦
        let (r', mark, event, ends) = reject_lem i a r e y in
        (r', mark, event, (λ cs g. ends (configs (test_ops is) ++ cs) g))
    | inr n ↦
        let more : admits_value cfg r.op.reg_value is ≡ false = ground (arith, e) in
        let (r', mark, event, ends) = test_ops-Rejects is (start_op (filter_op i) r) l more q in
        (
          r',
          mark,
          event,
          (λ cs g.
              exec_ops-first k t cfg regs (filter_op i) (configs (test_ops is) ++ cs) g r
                (start_op (filter_op i) r) (accept_lem i a r e n q) q
              ∙ ends cs g),
        )
  ]
