-- ===== src/Compiler/Loaded.antt =====
-- The arguments of a point as user space compiles and loads them, and the program they become.
use stackplz.Base.{
  ap, ℕ, zero, suc, ◌-◌, ◌<◌, ◌≡◌, refl, sym, ◌∙◌, subst, arith, inl, inr, none, some, List, [],
  ◌∷◌, ◌++◌, append_assoc, Bool-cases, length, replicate, ltb,
}
use stackplz.Types.{op_skip, op_value, OpConfig, PointArgs}
use stackplz.Kernel.{Config}
use stackplz.Decoder.Args.{PointArg}
use stackplz.ReadArgs.Program.{KeysAt, Resolves}
use stackplz.Compiler.{OpManager, get_op_list}
use stackplz.Compiler.Dense.{IsDense}
use stackplz.Compiler.Ops.{ArgTypes}
use stackplz.Compiler.Points.{add_point_args, new_config}
use stackplz.Compiler.Filled.{filled, point_keys, add_point_args-fills}
use stackplz.Compiler.Compiled.{point_ops, configs, ArePlain, point_keys-Compiles}
use stackplz.Compiler.Runs.Shape.{Resolves-more, KeysAt-front}

-- User space has compiled the arguments of a point: the manager numbers its operations by their
-- place and its first is the end of a program, the types are registered, the map of operations
-- holds the manager's, and `pa` is the list of keys, of a given length, that it fills.
pub record IsCompiled (cfg : Config) (types : ArgTypes) (vs : OpManager) (args : List PointArg)
    (max_ops : ℕ) (pa : PointArgs) : Type 0 where
  pub dense : IsDense vs
  pub plain : ArePlain types vs args
  pub ends : OpConfig
  pub first : get_op_list vs 0 ≡ some ends
  pub ends_skip : ends.code ≡ op_value op_skip
  pub loaded :
      (key : ℕ) (c : OpConfig)
      → get_op_list (point_keys types args vs).1 key ≡ some c
      → cfg.op_list key ≡ some c
  pub room : 0 < max_ops
  pub filled :
      (add_point_args types args vs (new_config max_ops pa.enter_key pa.signal)).0 ≡ some pa

KeysAt-filled : (keys : List ℕ) (m : ℕ) → 0 < m → KeysAt (keys ++ replicate m 0) 0 (keys ++ 0 ∷ [])
KeysAt-filled keys zero h = absurd (omega (arith, h))
KeysAt-filled keys (suc m) h =
    subst (λ program. KeysAt program 0 (keys ++ 0 ∷ []))
      (append_assoc keys (0 ∷ []) (replicate m 0)) (KeysAt-front (keys ++ 0 ∷ []) (replicate m 0))

module _ {cfg : Config} {types : ArgTypes} {vs : OpManager} {args : List PointArg} {max_ops : ℕ}
    {pa : PointArgs} (compiled : IsCompiled cfg types vs args max_ops pa) where
  -- the list of the point, as `AddPointArg` leaves it
  program-filled :
      pa
        ≡ filled pa.enter_key pa.signal
            (point_keys types args vs).0
            (max_ops - length (point_keys types args vs).0)
      × (length (point_keys types args vs).0 < max_ops)
  program-filled =
      let keys = (point_keys types args vs).0 in
      let e = add_point_args-fills types args vs max_ops pa.enter_key pa.signal compiled.room in
      elim (Bool-cases (ltb (length keys) max_ops)) [
        | inl y ↦
            let full : some pa ≡ some (filled pa.enter_key pa.signal keys (max_ops - length keys)) =
              sym compiled.filled ∙ e ∙ rw y refl in
            (some_injective full, ground (arith, y))
        | inr n ↦ absurd (some-none (sym compiled.filled ∙ e ∙ rw n refl))
      ]
    where
      some_injective : {a b : PointArgs} → some a ≡ some b → a ≡ b
      some_injective e = cc

      some-none : {a : PointArgs} → some a ≡ none → ⊥
      some-none e = cc

  pub program-keys : KeysAt pa.op_key_list 0 ((point_keys types args vs).0 ++ 0 ∷ [])
  program-keys =
      let keys = (point_keys types args vs).0 in
      let (full, small) = program-filled in
      rw (ap (λ (c : PointArgs). c.op_key_list) full)
        (KeysAt-filled keys (max_ops - length keys) (omega (arith, small)))

  pub program-op_count : pa.op_count ≡ length (point_keys types args vs).0
  program-op_count = ap (λ (c : PointArgs). c.op_count) program-filled.0

  pub program-Resolves :
      Resolves cfg.op_list (point_keys types args vs).0 (configs (point_ops args))
  program-Resolves =
      let (d, keeps, r) = point_keys-Compiles types args vs compiled.plain compiled.dense in
      Resolves-more _ cfg.op_list _ _ compiled.loaded r

  pub program-ends : cfg.op_list 0 ≡ some compiled.ends
  program-ends =
      let (d, keeps, r) = point_keys-Compiles types args vs compiled.plain compiled.dense in
      compiled.loaded 0 compiled.ends (keeps 0 compiled.ends compiled.first)
