-- ===== src/Compiler/Compiled.antt =====
-- The keys of a point stand for the operations of its arguments, in order.
use stackplz.Base.{
  ℕ, ◌≡◌, Option, List, [], ◌∷◌, ◌++◌, map, ◌==◌, if◌then◌else◌, Bool-cases, inl, inr,
}
use stackplz.Types.{OpConfig, op_read_ret, op_save_reg, op_move_reg_value, reg_arm64_max}
use stackplz.Decoder.Args.{Kind, PointArg}
use stackplz.ReadArgs.Program.{Resolves}
use stackplz.Compiler.{Op, OpManager, add_op, get_op_list}
use stackplz.Compiler.Dense.{IsDense, Keeps, add_op-Added}
use stackplz.Compiler.Ops.{
  rop, read_save_reg, type_ops, add_ops, read_more, value_filters, text_filters, register_keys,
  ArgTypes, more_keys, arg_op_list,
}
use stackplz.Compiler.Filled.{point_keys}

-- The operations of an argument without an extra list: its register, its filters, its type.
unfoldable pub arg_ops : PointArg → List Op
arg_ops arg =
    if arg.reg_index == reg_arm64_max
    then []
    else ((if arg.is_ret
          then rop "READ_RET" op_read_ret ∷ rop "SAVE_REG" op_save_reg ∷ []
          else read_save_reg arg.reg_index ∷ rop "MOVE_REG_VALUE" op_move_reg_value ∷ [])
        ++ (value_filters arg
            ++ (if read_more arg then type_ops arg.kind ++ text_filters arg else [])))

abbrev pub point_ops : List PointArg → List Op
point_ops [] = []
point_ops (arg ∷ args) = arg_ops arg ++ point_ops args

abbrev pub configs : List Op → List OpConfig
configs ops = map (λ (op : Op). op.config) ops

pub Resolves-Keeps :
    (vs vs' : OpManager) (keys : List ℕ) (cs : List OpConfig)
    → Keeps vs vs'
    → Resolves (get_op_list vs) keys cs
    → Resolves (get_op_list vs') keys cs
Resolves-Keeps vs vs' [] [] keeps r = r
Resolves-Keeps vs vs' [] (c ∷ cs) keeps r = absurd r
Resolves-Keeps vs vs' (k ∷ keys) [] keeps r = absurd r
Resolves-Keeps vs vs' (k ∷ keys) (c ∷ cs) keeps r =
    (keeps k c r.0, Resolves-Keeps vs vs' keys cs keeps r.1)

Resolves-append :
    (l : ℕ → Option OpConfig) (ks ks' : List ℕ) (ops ops' : List Op)
    → Resolves l ks (configs ops)
    → Resolves l ks' (configs ops')
    → Resolves l (ks ++ ks') (configs (ops ++ ops'))
Resolves-append l [] ks' [] ops' r r' = r'
Resolves-append l [] ks' (op ∷ ops) ops' r r' = absurd r
Resolves-append l (k ∷ ks) ks' [] ops' r r' = absurd r
Resolves-append l (k ∷ ks) ks' (op ∷ ops) ops' r r' =
    (r.0, Resolves-append l ks ks' ops ops' r.1 r')

-- What compiling some operations does to the manager, and the keys that it yields.
abbrev pub Compiles : OpManager → List Op → List ℕ × OpManager → Type 0
Compiles vs ops (keys, vs') =
    IsDense vs' × Keeps vs vs' × Resolves (get_op_list vs') keys (configs ops)

Compiles-append :
    (vs : OpManager) (ops ops' : List Op) (first more : List ℕ × OpManager)
    → Compiles vs ops first
    → Compiles first.1 ops' more
    → Compiles vs (ops ++ ops') (first.0 ++ more.0, more.1)
Compiles-append vs ops ops' (ks, vs1) (ks', vs2) (d, k, r) (d', k', r') = (
  d',
  (λ i c e. k' i c (k i c e)),
  Resolves-append (get_op_list vs2) ks ks' ops ops' (Resolves-Keeps vs1 vs2 ks (configs ops) k' r)
      r',
)

pub add_ops-Compiles :
    (ops : List Op) (vs : OpManager) → IsDense vs → Compiles vs ops (add_ops ops vs)
unfolding add_ops
add_ops-Compiles [] vs d = (d, (λ k c e. e), tt)
add_ops-Compiles (op ∷ ops) vs d =
    let (d', found, keeps, again) = add_op-Added op vs d in
    let (d'', keeps', rest) = add_ops-Compiles ops (add_op op vs).1 d' in
    (
      d'',
      (λ k c e. keeps' k c (keeps k c e)),
      (keeps' (add_op op vs).0.index op.config found, rest),
    )

register_ops : PointArg → List Op
register_ops arg =
    if arg.is_ret
    then rop "READ_RET" op_read_ret ∷ rop "SAVE_REG" op_save_reg ∷ []
    else read_save_reg arg.reg_index ∷ rop "MOVE_REG_VALUE" op_move_reg_value ∷ []

register_keys-Compiles :
    (arg : PointArg) (vs : OpManager)
    → arg.extra_op_list ≡ []
    → IsDense vs
    → Compiles vs (register_ops arg) (register_keys arg vs)
unfolding register_keys register_ops
register_keys-Compiles arg vs plain d = elim (Bool-cases arg.is_ret) [
  | inl y ↦
      rw y (add_ops-Compiles (rop "READ_RET" op_read_ret ∷ rop "SAVE_REG" op_save_reg ∷ []) vs d)
  | inr n ↦
      rw (n, plain)
        (add_ops-Compiles
          (read_save_reg arg.reg_index ∷ rop "MOVE_REG_VALUE" op_move_reg_value ∷ []) vs d)
]

-- The keys of a type are those of its operations.
abbrev pub IsRegistered : ArgTypes → OpManager → Kind → Type 0
IsRegistered types vs kind = Resolves (get_op_list vs) (types kind) (configs (type_ops kind))

more_keys-Compiles :
    (types : ArgTypes) (arg : PointArg) (vs : OpManager)
    → IsDense vs
    → IsRegistered types vs arg.kind
    → Compiles vs
        (if read_more arg then type_ops arg.kind ++ text_filters arg else [])
        (more_keys types arg vs)
unfolding more_keys
more_keys-Compiles types arg vs d known = elim (Bool-cases (read_more arg)) [
  | inl y ↦
      let filters = add_ops (text_filters arg) vs in
      let (d', keeps, r) = add_ops-Compiles (text_filters arg) vs d in
      rw y (
        d',
        keeps,
        Resolves-append (get_op_list filters.1) (types arg.kind) filters.0 (type_ops arg.kind)
            (text_filters arg)
            (Resolves-Keeps vs filters.1 (types arg.kind) (configs (type_ops arg.kind)) keeps known)
            r,
      )
  | inr n ↦ rw n (d, (λ k c e. e), tt)
]

-- The argument has no extra list, and its type is registered.
abbrev pub IsPlain : ArgTypes → OpManager → PointArg → Type 0
IsPlain types vs arg = (arg.extra_op_list ≡ []) × IsRegistered types vs arg.kind

arg_op_list-Compiles :
    (types : ArgTypes) (arg : PointArg) (vs : OpManager)
    → IsPlain types vs arg
    → IsDense vs
    → Compiles vs (arg_ops arg) (arg_op_list types arg vs)
unfolding arg_op_list arg_ops register_ops
arg_op_list-Compiles types arg vs plain d = elim (Bool-cases (arg.reg_index == reg_arm64_max)) [
  | inl y ↦ rw y (d, (λ k c e. e), tt)
  | inr n ↦
      let first = register_keys arg vs in
      let one = register_keys-Compiles arg vs plain.0 d in
      let tests = add_ops (value_filters arg) first.1 in
      let two = add_ops-Compiles (value_filters arg) first.1 one.0 in
      let known : IsRegistered types tests.1 arg.kind =
        Resolves-Keeps vs tests.1 (types arg.kind) (configs (type_ops arg.kind))
          (λ k c e. two.1 k c (one.1 k c e)) plain.1 in
      rw n (
        Compiles-append vs (register_ops arg) _ first _ one (
          Compiles-append first.1 (value_filters arg) _ tests _ two
            (more_keys-Compiles types arg tests.1 two.0 known)))
]

abbrev pub ArePlain : ArgTypes → OpManager → List PointArg → Type 0
ArePlain types vs [] = Unit
ArePlain types vs (arg ∷ args) = IsPlain types vs arg × ArePlain types vs args

pub ArePlain-Keeps :
    (types : ArgTypes) (vs vs' : OpManager) (args : List PointArg)
    → Keeps vs vs'
    → ArePlain types vs args
    → ArePlain types vs' args
ArePlain-Keeps types vs vs' [] keeps plain = tt
ArePlain-Keeps types vs vs' (arg ∷ args) keeps plain = (
  (plain.0.0, Resolves-Keeps vs vs' (types arg.kind) (configs (type_ops arg.kind)) keeps plain.0.1),
  ArePlain-Keeps types vs vs' args keeps plain.1,
)

pub point_keys-Compiles :
    (types : ArgTypes) (args : List PointArg) (vs : OpManager)
    → ArePlain types vs args
    → IsDense vs
    → Compiles vs (point_ops args) (point_keys types args vs)
unfolding point_keys
point_keys-Compiles types [] vs plain d = (d, (λ k c e. e), tt)
point_keys-Compiles types (arg ∷ args) vs plain d =
    let first = arg_op_list-Compiles types arg vs plain.0 d in
    let others = ArePlain-Keeps types vs (arg_op_list types arg vs).1 args first.1 plain.1 in
    Compiles-append vs (arg_ops arg) (point_ops args) (arg_op_list types arg vs) _ first
      (point_keys-Compiles types args (arg_op_list types arg vs).1 others first.0)
