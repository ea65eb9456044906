-- ===== src/Compiler/Dense.antt =====
-- The manager's indices are the positions of its operations, and no lookup changes when one is
-- added.
use Prim.Native.Nat.{suc}
use text.Mathlib.TextPositions.{eq_refl}
use stackplz.Base.{
  ℕ, ◌+◌, ◌<◌, ◌≤◌, ◌≡◌, ◌≢◌, refl, ◌∙◌, arith, true, Option, none, some, [], ◌∷◌, ◌++◌, length,
  Option-cases, Bool-cases, inl, inr,
}
use stackplz.Types.{OpConfig}
use stackplz.Compiler.{
  Op, OpManager, same_suffix, same_config, same_as, find_same, add_op, get_op_list,
}

-- The indices are `b`, `b + 1` and so on.
abbrev pub DenseFrom : ℕ → OpManager → Type 0
DenseFrom b [] = Unit
DenseFrom b (v ∷ vs) = (v.index ≡ b) × DenseFrom (suc b) vs

abbrev pub IsDense : OpManager → Type 0
IsDense vs = DenseFrom 0 vs

-- Every lookup of `vs` yields the same in `vs'`.
abbrev pub Keeps : OpManager → OpManager → Type 0
Keeps vs vs' = (k : ℕ) (c : OpConfig) → get_op_list vs k ≡ some c → get_op_list vs' k ≡ some c

same_config-eq : (c d : OpConfig) → same_config c d ≡ true → c ≡ d
unfolding same_config
same_config-eq c d h = ground arith

same_as-config : (a b : Op) → same_as a b ≡ true → a.config ≡ b.config
unfolding same_as
same_as-config a b h = same_config-eq a.config b.config (ground arith)

same_suffix_refl : (s : Option ℕ) → same_suffix s s ≡ true
unfolding same_suffix
same_suffix_refl none = refl
same_suffix_refl (some n) = ground arith

same_config_refl : (c : OpConfig) → same_config c c ≡ true
unfolding same_config
same_config_refl c = ground arith

same_as_refl : (a : Op) (i : ℕ) → same_as (record a { index = i }) a ≡ true
unfolding same_as
same_as_refl a i = rw (eq_refl a.name, same_suffix_refl a.suffix, same_config_refl a.config) refl

dense-below : (b : ℕ) (vs : OpManager) (k : ℕ) → DenseFrom b vs → k < b → get_op_list vs k ≡ none
unfolding get_op_list
dense-below b [] k d h = refl
dense-below b (v ∷ vs) k d h = ground (arith, dense-below (suc b) vs k d.1)

dense-above :
    (b : ℕ) (vs : OpManager) (k : ℕ) → DenseFrom b vs → b + length vs ≤ k → get_op_list vs k ≡ none
unfolding get_op_list
dense-above b [] k d h = refl
dense-above b (v ∷ vs) k d h = ground (arith, dense-above (suc b) vs k d.1)

dense-add :
    (b : ℕ) (vs : OpManager) (op : Op)
    → DenseFrom b vs
    → op.index ≡ b + length vs
    → DenseFrom b (vs ++ op ∷ [])
dense-add b [] op d e = (omega (arith, e), tt)
dense-add b (v ∷ vs) op d e = (d.0, dense-add (suc b) vs op d.1 (omega (arith, e)))

-- The operation added last is found at its index, the others where they were.
get_op_list-add :
    (b : ℕ) (vs : OpManager) (op : Op)
    → DenseFrom b vs
    → op.index ≡ b + length vs
    → get_op_list (vs ++ op ∷ []) op.index ≡ some op.config
unfolding get_op_list
get_op_list-add b [] op d e = ground arith
get_op_list-add b (v ∷ vs) op d e = rw (get_op_list-add (suc b) vs op d.1 (omega (arith, e))) refl

get_op_list-other :
    (vs : OpManager) (op : Op) (k : ℕ)
    → k ≢ op.index
    → get_op_list (vs ++ op ∷ []) k ≡ get_op_list vs k
unfolding get_op_list
get_op_list-other [] op k h = ground arith
get_op_list-other (v ∷ vs) op k h = rw (get_op_list-other vs op k h) refl

get_op_list-kept :
    (vs : OpManager) (op : Op) → IsDense vs → op.index ≡ length vs → Keeps vs (vs ++ op ∷ [])
get_op_list-kept vs op d e k c h =
    get_op_list-other vs op k (λ same. ground (arith, dense-above 0 vs k d, h, e, same)) ∙ h

find_same-config :
    (b : ℕ) (vs : OpManager) (op v : Op)
    → DenseFrom b vs
    → find_same op vs ≡ some v
    → get_op_list vs v.index ≡ some op.config
unfolding find_same get_op_list
find_same-config b [] op v d h = cc
find_same-config b (x ∷ vs) op v d h = elim (Bool-cases (same_as x op)) [
  | inl y ↦
      let found : x ≡ v = ground arith in
      rw (← found, dense-below (suc b) vs x.index d.1 (omega (arith, d.0)))
        (ground (arith, same_as-config x op y))
  | inr n ↦ rw (find_same-config (suc b) vs op v d.1 (ground arith)) refl
]

find_same-itself : (vs : OpManager) (op v : Op) → find_same op vs ≡ some v → add_op op vs ≡ (v, vs)
unfolding add_op
find_same-itself vs op v h = rw (add_op, h) refl

find_same-new :
    (vs : OpManager) (op : Op)
    → find_same op vs ≡ none
    → add_op op vs ≡ (record op { index = length vs }, vs ++ record op { index = length vs } ∷ [])
unfolding add_op
find_same-new vs op h = rw (add_op, h) refl

find_same-add :
    (vs : OpManager) (op v : Op)
    → find_same op vs ≡ none
    → same_as v op ≡ true
    → find_same op (vs ++ v ∷ []) ≡ some v
unfolding find_same
find_same-add [] op v h same = rw same refl
find_same-add (x ∷ vs) op v h same = ground (arith, find_same-add vs op v)

-- What `add_op-IsDense` says of an answer.
abbrev pub Added : Op → OpManager → Op × OpManager → Type 0
Added op vs (v, vs') =
    IsDense vs'
    × (get_op_list vs' v.index ≡ some op.config)
    × Keeps vs vs'
    × (add_op op vs' ≡ (v, vs'))

-- Adding an operation to a manager whose indices are the positions of its operations: they stay
-- so, the index that is returned is that of an operation with the same fields, every earlier
-- lookup yields the same as before, and adding it once more returns the same and changes nothing.
pub add_op-Added : (op : Op) (vs : OpManager) → IsDense vs → Added op vs (add_op op vs)
add_op-Added op vs d = elim (Option-cases (find_same op vs)) [
  | inl e ↦
      let v : Op = record op { index = length vs } in
      rw (find_same-new vs op e) (
        dense-add 0 vs v d (omega arith),
        get_op_list-add 0 vs v d (omega arith),
        get_op_list-kept vs v d refl,
        find_same-itself (vs ++ v ∷ []) op v
            (find_same-add vs op v e (same_as_refl op (length vs))),
      )
  | inr (v, e) ↦
      rw (find_same-itself vs op v e)
        (d, find_same-config 0 vs op v d e, (λ k c h. h), find_same-itself vs op v e)
]
