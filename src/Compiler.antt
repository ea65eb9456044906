-- ===== src/Compiler.antt =====
-- user/argtype/op_helper.go: the manager of the operations that user space puts into `op_list`.
pub mod Dense
pub mod Ops
pub mod Points
pub mod Filled
pub mod Compiled
pub mod Registered
pub mod Runs
pub mod Loaded
pub mod Saved
pub mod Ran
pub mod Received
pub mod Handled
pub mod Sent
pub mod Result
pub mod Exited
pub mod SentExit
pub mod Paired
pub mod Rejected
pub mod SentProbe
pub mod SentReturn
use Prim.Native.String.{String}
use text.Mathlib.Text.{◌==◌ as same_text}
use stackplz.Base.{
  ℕ, Bool, true, false, ◌&&◌, Option, none, some, List, [], ◌∷◌, ◌++◌, length, ◌==◌, if◌then◌else◌,
}
use stackplz.Types.{OpConfig}

-- `OpConfig` of the manager. A name is a text and perhaps a number behind it; `config` are the
-- fields that the kernel sees.
pub record Op : Type 0 where
  pub name : String
  pub suffix : Option ℕ
  pub index : ℕ
  pub config : OpConfig

abbrev pub OpManager : Type 0
OpManager = List Op

unfoldable pub same_suffix : Option ℕ → Option ℕ → Bool
same_suffix none none = true
same_suffix (some m) (some n) = m == n
same_suffix _ _ = false

unfoldable pub same_config : OpConfig → OpConfig → Bool
same_config c d =
    c.code == d.code
    && (c.pre_code == d.pre_code && (c.post_code == d.post_code && c.value == d.value))

-- `SameAs`, which does not look at the index
unfoldable pub same_as : Op → Op → Bool
unfolding same_suffix same_config
same_as a b =
    same_text a.name b.name && (same_suffix a.suffix b.suffix && same_config a.config b.config)

-- the loop of `AddOp`
unfoldable pub find_same : Op → OpManager → Option Op
unfolding same_as
find_same op [] = none
find_same op (v ∷ vs) = if same_as v op then some v else find_same op vs

-- `AddOp`: an operation that is there is not added again
unfoldable pub add_op : Op → OpManager → Op × OpManager
unfolding find_same
add_op op vs = elim (find_same op vs) [
  | some v ↦ (v, vs)
  | none ↦ let op' = record op { index = length vs } in (op', vs ++ op' ∷ [])
]

-- `GetOpList`, as a map; a later entry replaces an earlier
unfoldable pub get_op_list : OpManager → ℕ → Option OpConfig
get_op_list [] key = none
get_op_list (v ∷ vs) key =
    let rest = get_op_list vs key in
    elim rest [ some c ↦ some c | none ↦ if key == v.index then some v.config else none ]
