-- ===== src/Compiler/Runs/Entry.antt =====
-- The operations of one argument, run at a point: the entries that they save.
use mathlib.Core.List.{map-append}
use stackplz.Base.{
  ℕ, ◌+◌, ◌<◌, ◌≤◌, ◌≡◌, refl, ◌∙◌, arith, List, [], ◌∷◌, ◌++◌, append-nil, append_assoc,
  if◌then◌else◌, Bool, true, false,
}
use stackplz.Types.{
  op_move_reg_value, op_read_ret, op_save_reg, op_code, op_value, OpConfig, CtxRegs, args_buf_size,
  reg_arm64_max,
}
use stackplz.Kernel.{Kernel, Target, Config, IsKernel}
use stackplz.Event.Entries.{word, encode, encode_all, emit_all}
use stackplz.Decoder.Args.{Kind, PointArg, reads_at}
use stackplz.ReadArgs.State.{Reader, Step, next}
use stackplz.ReadArgs.Exec.{exec, reg_at}
use stackplz.ReadArgs.Blocks.{HasRoom}
use stackplz.ReadArgs.Program.{start_op, exec_ops, exec_ops-append}
use stackplz.Compiler.{Op}
use stackplz.Compiler.Ops.{rop, read_save_reg, type_ops}
use stackplz.Compiler.Compiled.{arg_ops, configs}
use stackplz.Compiler.Runs.Single.{IsQuiet, exec_ops-first, single, read_save_reg_lem, read_ret_lem}
use stackplz.Compiler.Runs.Kinds.{Runs, Runs-append, type_ops-Runs, IsSimple}
use stackplz.Compiler.Runs.Args.{IsBare}
use stackplz.Compiler.Runs.Filters.{
  tests, test_ops, AreLoaded, admits_value, tests-Runs, test_ops-Rejects,
}
use stackplz.Compiler.Runs.Entries.{arg_entries, buf_off-emit_all}
use stackplz.Compiler.Runs.Ops.{entry_ops, return_ops}

module _ (k : Kernel) (law : IsKernel k) (t : Target) (cfg : Config) (regs : CtxRegs) where
  type_ops-RunsArg :
      (first : List OpConfig) (r : Reader) (i v a : ℕ) (arg : Kind × Bool)
      (p : Runs k t cfg regs first r (word 8 i v ∷ []))
      → p.after.op.read_addr ≡ a
      → IsSimple arg.0
      → HasRoom p.after.event
      → IsQuiet p.after
      → Runs k t cfg regs
          (first ++ configs (if arg.1 then type_ops arg.0 else []))
          r
          (arg_entries k t i p.after.op.save_index v a arg)
  unfolding exec_ops emit_all
  type_ops-RunsArg first r i v a (kind, false) p e s room q = rw (append-nil first) p
  type_ops-RunsArg first r i v a (kind, true) p e s room q =
      Runs-append k t cfg regs first (configs (type_ops kind)) r p
        (rw (← e) (type_ops-Runs k t cfg regs law kind p.after s room q))

  -- the register and its value as the address
  entry-Runs :
      (i : ℕ) (r : Reader)
      → i < reg_arm64_max
      → HasRoom r.event
      → IsQuiet r
      → (p : Runs k t cfg regs
          (configs (read_save_reg i ∷ rop "MOVE_REG_VALUE" op_move_reg_value ∷ []))
          r
          (word 8 r.op.save_index (reg_at regs i) ∷ []))
        × (p.after.op.read_addr ≡ reg_at regs i)
        × (p.after.op.reg_value ≡ reg_at regs i)
  unfolding exec_ops emit_all rop op_value op_code exec
  entry-Runs i r small room q =
      let c = (read_save_reg i).config in
      let c' = (rop "MOVE_REG_VALUE" op_move_reg_value).config in
      let (r1, saved, view, value, notes) =
        read_save_reg_lem k t cfg regs i r small (omega arith) q in
      let quiet : IsQuiet r1 = rw notes.0 q in
      let r2 = record (start_op c' r1) {
        op = record (start_op c' r1).op { read_addr = r1.op.reg_value };
      } in
      (
        record {
          after = r2;
          runs = λ f.
              exec_ops-first k t cfg regs c (c' ∷ []) f r r1 saved quiet
              ∙ exec_ops-first k t cfg regs c' [] f r1 r2
                  (single k t cfg regs c' r1 r2 refl refl quiet) quiet;
          view = view;
          notes = notes;
        },
        value,
        value,
      )

  -- the value that is returned; the address is what it was
  return-Runs :
      (r : Reader)
      → HasRoom r.event
      → IsQuiet r
      → (p : Runs k t cfg regs
          (configs (rop "READ_RET" op_read_ret ∷ rop "SAVE_REG" op_save_reg ∷ []))
          r
          (word 8 r.op.save_index r.op.reg_0 ∷ []))
        × (p.after.op.read_addr ≡ r.op.read_addr)
  unfolding emit_all exec_ops
  return-Runs r room q =
      let (r1, saved, view, addr, notes) = read_ret_lem k t cfg regs r (omega arith) q in
      (record { after = r1; runs = saved []; view = view; notes = notes }, addr)

  room-word :
      {first : List OpConfig} {i v : ℕ} (r : Reader)
      (p : Runs k t cfg regs first r (word 8 i v ∷ []))
      → r.event.buf_off + 4110 ≤ args_buf_size
      → HasRoom p.after.event
  unfolding encode encode_all
  room-word r p room = omega (arith, buf_off-emit_all r.event p.after.event _ p.view)

  -- The entries of an argument, at some indices.
  abbrev pub RunsArg : PointArg → ℕ → ℕ → Kind × Bool → Reader → Type 0
  RunsArg arg v a reads r =
      (i : ℕ) × (j : ℕ) × Runs k t cfg regs (configs (arg_ops arg)) r
        (arg_entries k t i j v a reads)

  -- The operations of an argument at an entry save its register and what that points to.
  pub arg_ops-Runs :
      (point_type : ℕ) (arg : PointArg) (r : Reader)
      → IsBare point_type arg
      → arg.is_ret ≡ false
      → AreLoaded cfg (tests arg)
      → admits_value cfg (reg_at regs arg.reg_index) (tests arg) ≡ true
      → r.event.buf_off + 4110 ≤ args_buf_size
      → IsQuiet r
      → RunsArg arg
          (reg_at regs arg.reg_index)
          (reg_at regs arg.reg_index)
          (reads_at point_type arg)
          r
  unfolding reads_at
  arg_ops-Runs point_type arg r bare enters loaded admitted room q =
      let (p, addr, value) = entry-Runs arg.reg_index r bare.register (omega arith) q in
      let (p', addr') =
        tests-Runs k t cfg regs _ (tests arg) r _ _ p value addr loaded admitted q in
      (
        r.op.save_index,
        p'.after.op.save_index,
        rw
            (
              entry_ops point_type arg bare enters,
              map-append (λ (op : Op). op.config) (test_ops (tests arg))
                  (if (reads_at point_type arg).1 then type_ops arg.kind else []),
            )
            (type_ops-RunsArg _ r _ _ _ (reads_at point_type arg) p' addr' bare.kind
              (room-word r p' room) (rw p'.notes.0 q)),
      )

  -- A filter that rejects the value of the register ends the reader's operations.
  pub arg_ops-Rejects :
      (point_type : ℕ) (arg : PointArg) (r : Reader)
      → IsBare point_type arg
      → arg.is_ret ≡ false
      → AreLoaded cfg (tests arg)
      → admits_value cfg (reg_at regs arg.reg_index) (tests arg) ≡ false
      → HasRoom r.event
      → IsQuiet r
      → (r' : Reader) × (r'.op.match_blacklist ≡ 1)
        × ((cs : List OpConfig) (f : Reader → Step)
            → exec_ops k t cfg regs (configs (arg_ops arg) ++ cs) f r ≡ next r')
  arg_ops-Rejects point_type arg r bare enters loaded rejected room q =
      let (p, addr, value) = entry-Runs arg.reg_index r bare.register room q in
      let more = if (reads_at point_type arg).1 then type_ops arg.kind else [] in
      let (r', mark, event, ends) =
        test_ops-Rejects k t cfg regs (tests arg) p.after loaded (rw value rejected)
          (rw p.notes.0 q) in
      (
        r',
        mark,
        (λ cs f.
            rw
              (
                entry_ops point_type arg bare enters,
                map-append (λ (op : Op). op.config) (test_ops (tests arg)) more,
                append_assoc (configs (test_ops (tests arg))) (configs more) cs,
              )
              (exec_ops-append k t cfg regs
                  (configs
                    (read_save_reg arg.reg_index ∷ rop "MOVE_REG_VALUE" op_move_reg_value ∷ []))
                  (configs (test_ops (tests arg)) ++ (configs more ++ cs)) f r
                ∙ p.runs (
                    exec_ops k t cfg regs (configs (test_ops (tests arg)) ++ (configs more ++ cs))
                      f)
                ∙ ends (configs more ++ cs) f)),
      )

  -- At a return they save the value returned, and what the reader's address of before points to.
  pub ret_ops-Runs :
      (point_type : ℕ) (arg : PointArg) (r : Reader)
      → IsBare point_type arg
      → arg.is_ret ≡ true
      → r.event.buf_off + 4110 ≤ args_buf_size
      → IsQuiet r
      → RunsArg arg r.op.reg_0 r.op.read_addr (reads_at point_type arg) r
  unfolding reads_at
  ret_ops-Runs point_type arg r bare returns room q =
      let (p, addr) = return-Runs r (omega arith) q in
      (
        r.op.save_index,
        p.after.op.save_index,
        rw (return_ops point_type arg bare returns) (
            type_ops-RunsArg _ r _ _ _ (reads_at point_type arg) p addr bare.kind
              (room-word r p room) (rw p.notes.0 q)),
      )
