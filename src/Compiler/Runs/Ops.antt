-- ===== src/Compiler/Runs/Ops.antt =====
-- The operations of a bare argument, at an entry and at a return.
use stackplz.Base.{
  ℕ, ◌≡◌, refl, ap, arith, ◌||◌, [], ◌∷◌, ◌++◌, append-nil, ◌==◌, if◌then◌else◌, true, false,
}
use stackplz.Types.{op_move_reg_value, op_read_ret, op_save_reg, reg_arm64_max}
use stackplz.Decoder.Args.{PointArg, reads_at, ebpf_sys_all}
use stackplz.Compiler.Ops.{rop, read_save_reg, type_ops, read_more, text_filters, value_filters}
use stackplz.Compiler.Compiled.{arg_ops}
use stackplz.Compiler.Runs.Args.{IsBare}
use stackplz.Compiler.Runs.Filters.{tests, test_ops, value_filters_lem, tests-return}

more_ops :
    (point_type : ℕ) (arg : PointArg)
    → IsBare point_type arg
    → value_filters arg ++ (if read_more arg then type_ops arg.kind ++ text_filters arg else [])
      ≡ test_ops (tests arg) ++ (if (reads_at point_type arg).1 then type_ops arg.kind else [])
unfolding reads_at read_more
more_ops point_type arg bare =
    rw (value_filters_lem arg, bare.filters, append-nil (type_ops arg.kind))
      (ap
        (λ (g : ℕ).
          test_ops (tests arg)
          ++ (if arg.point_type == ebpf_sys_all || arg.point_type == g
              then type_ops arg.kind
              else []))
        bare.group)

-- The operations of a bare argument.
pub entry_ops :
    (point_type : ℕ) (arg : PointArg)
    → IsBare point_type arg
    → arg.is_ret ≡ false
    → arg_ops arg
      ≡ (read_save_reg arg.reg_index ∷ rop "MOVE_REG_VALUE" op_move_reg_value ∷ [])
        ++ (test_ops (tests arg) ++ (if (reads_at point_type arg).1 then type_ops arg.kind else []))
unfolding arg_ops
entry_ops point_type arg bare enters =
    let not_max : (arg.reg_index == reg_arm64_max) ≡ false = ground (arith, bare.register) in
    rw (not_max, more_ops point_type arg bare, enters) refl

pub return_ops :
    (point_type : ℕ) (arg : PointArg)
    → IsBare point_type arg
    → arg.is_ret ≡ true
    → arg_ops arg
      ≡ (rop "READ_RET" op_read_ret ∷ rop "SAVE_REG" op_save_reg ∷ [])
        ++ (if (reads_at point_type arg).1 then type_ops arg.kind else [])
unfolding arg_ops
return_ops point_type arg bare returns =
    let not_max : (arg.reg_index == reg_arm64_max) ≡ false = ground (arith, bare.register) in
    rw (not_max, more_ops point_type arg bare, tests-return arg returns, returns) refl
