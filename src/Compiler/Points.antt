-- ===== src/Compiler/Points.antt =====
-- The list of keys that the kernel runs for a point: `AddPointArg` of user/config/iconfig.go.
use stackplz.Base.{
  ℕ, ◌+◌, Option, none, some, List, [], ◌∷◌, ◌==◌, leb, if◌then◌else◌, length, set, replicate,
}
use stackplz.Types.{PointArgs}
use stackplz.Decoder.Args.{PointArg}
use stackplz.Compiler.{OpManager}
use stackplz.Compiler.Ops.{ArgTypes, arg_op_list}

-- SYSCALL_MAX_OP_COUNT and STACK_MAX_OP_COUNT
abbrev pub syscall_max_op_count : ℕ
syscall_max_op_count = 256

abbrev pub stack_max_op_count : ℕ
stack_max_op_count = 64

-- The loop of `AddPointArg`; `none` is a panic, of the index or of a list that is full.
unfoldable pub add_keys : List ℕ → PointArgs → Option PointArgs
add_keys [] c = some c
add_keys (key ∷ keys) c =
    let c' = record c {
      op_key_list = set c.op_key_list c.op_count key;
      op_count = c.op_count + 1;
    } in
    let rest = add_keys keys c' in
    if leb (length c.op_key_list) c.op_count
    then none
    else if c.op_count + 1 == length c.op_key_list
    then none
    else rest

-- `AddPointArg`
unfoldable pub add_point_arg :
    ArgTypes → PointArg → OpManager → PointArgs → Option PointArgs × OpManager
unfolding add_keys arg_op_list
add_point_arg types arg vs c = let (keys, vs) = arg_op_list types arg vs in (add_keys keys c, vs)

unfoldable pub add_point_args :
    ArgTypes → List PointArg → OpManager → PointArgs → Option PointArgs × OpManager
unfolding add_point_arg
add_point_args types [] vs c = (some c, vs)
add_point_args types (arg ∷ args) vs c =
    let (done, vs) = add_point_arg types arg vs c in
    elim done [ none ↦ (none, vs) | some c ↦ add_point_args types args vs c ]

-- A list of so many keys, all 0.
unfoldable pub new_config : ℕ → ℕ → ℕ → PointArgs
new_config max_op_count enter_key signal = record {
  enter_key = enter_key;
  signal = signal;
  op_count = 0;
  op_key_list = replicate max_op_count 0;
}

-- `GetEnterConfig` and `GetExitConfig`
unfoldable pub get_syscall_config :
    ArgTypes → List PointArg → OpManager → Option PointArgs × OpManager
unfolding add_point_args new_config
get_syscall_config types args vs =
    add_point_args types args vs (new_config syscall_max_op_count 0 0)

-- `GetConfig`
unfoldable pub get_uprobe_config :
    ArgTypes → ℕ → ℕ → List PointArg → OpManager → Option PointArgs × OpManager
unfolding add_point_args new_config
get_uprobe_config types enter_key signal args vs =
    add_point_args types args vs (new_config stack_max_op_count enter_key signal)

-- `GetUretConfig`: the value returned comes first, if it is configured
unfoldable pub get_uret_config :
    ArgTypes → ℕ → ℕ → Option PointArg → List PointArg → OpManager → Option PointArgs × OpManager
unfolding add_point_args new_config
get_uret_config types enter_key signal ret args vs =
    let all : List PointArg = elim ret [ none ↦ args | some arg ↦ arg ∷ args ] in
    add_point_args types all vs (new_config stack_max_op_count enter_key signal)
