-- ===== src/Compiler/Runs/Shape.antt =====
-- The operations of a point's arguments have no loops, and take few rounds.
use mathlib.Core.List.{map-append}
use stackplz.Base.{
  ℕ, suc, ◌+◌, ◌≤◌, ◌≡◌, refl, arith, Option, some, List, [], ◌∷◌, ◌++◌, ◌==◌, if◌then◌else◌, Bool,
  true, false, length,
}
use stackplz.Types.{
  op_skip, op_move_reg_value, op_read_ret, op_save_reg, op_code, op_value, OpConfig, CtxRegs,
}
use stackplz.Decoder.Args.{
  Kind, number, text, std_text, buffer, number_ptr, texts, vectors, structure, PointArg, reads_at,
}
use stackplz.ReadArgs.Program.{KeysAt, Resolves, AreStraight, rounds}
use stackplz.Compiler.{Op}
use stackplz.Compiler.Ops.{
  filter_ops, rop, joined, new_value, set_save_struct, read_save_reg, type_ops,
}
use stackplz.Compiler.Compiled.{arg_ops, point_ops, configs}
use stackplz.Compiler.Runs.Filters.{tests, test_ops, budget}
use stackplz.Compiler.Runs.Kinds.{IsSimple}
use stackplz.Compiler.Runs.Ops.{entry_ops, return_ops}
use stackplz.Compiler.Runs.Point.{AreBare, IsReturn, reads_at-IsSimple}

-- Operations without loops, in at most so many rounds.
abbrev pub IsShort : ℕ → List OpConfig → Type 0
IsShort n cs = AreStraight cs × (rounds cs ≤ n)

pub IsShort-append :
    (m n : ℕ) (cs cs' : List OpConfig) → IsShort m cs → IsShort n cs' → IsShort (m + n) (cs ++ cs')
IsShort-append m n [] cs' s s' = (s'.0, omega (arith, s'.1))
IsShort-append m n (c ∷ cs) cs' s s' =
    let one : ℕ = if c.post_code == op_value op_skip then 1 else 2 in
    let (straight, small) = IsShort-append (rounds cs) n cs cs' (s.0.1, omega arith) s' in
    ((s.0.0, straight), omega (arith, small, s.1))

type_ops-IsShort : (kind : Kind) → IsSimple kind → IsShort 2 (configs (type_ops kind))
unfolding type_ops rop joined new_value set_save_struct op_value op_code
type_ops-IsShort number s = (tt, omega arith)
type_ops-IsShort text s = (((omega arith, (λ e. cc), (λ e. cc)), tt), omega arith)
type_ops-IsShort std_text s =
    (((omega arith, (λ e. cc), (λ e. cc)), ((omega arith, (λ e. cc), (λ e. cc)), tt)), omega arith)
type_ops-IsShort buffer s = (((omega arith, (λ e. cc), (λ e. cc)), tt), omega arith)
type_ops-IsShort number_ptr s = (((omega arith, (λ e. cc), (λ e. cc)), tt), omega arith)
type_ops-IsShort (structure n taken) s =
    (((omega arith, (λ e. cc), (λ e. cc)), ((omega arith, (λ e. cc), (λ e. cc)), tt)), omega arith)
type_ops-IsShort texts s = absurd s
type_ops-IsShort vectors s = absurd s

more-IsShort :
    (arg : Kind × Bool)
    → IsSimple arg.0
    → IsShort 2 (configs (if arg.1 then type_ops arg.0 else []))
more-IsShort (kind, false) s = (tt, omega arith)
more-IsShort (kind, true) s = type_ops-IsShort kind s

register-IsShort :
    (i : ℕ) → IsShort 3 (configs (read_save_reg i ∷ rop "MOVE_REG_VALUE" op_move_reg_value ∷ []))
unfolding read_save_reg joined rop op_value op_code
register-IsShort i =
    (((omega arith, (λ e. cc), (λ e. cc)), ((omega arith, (λ e. cc), (λ e. cc)), tt)), omega arith)

tests-IsShort : (is : List ℕ) → IsShort (length is) (configs (test_ops is))
unfolding filter_ops new_value rop op_value op_code
tests-IsShort [] = (tt, omega arith)
tests-IsShort (i ∷ is) =
    let (straight, few) = tests-IsShort is in
    (((omega arith, (λ e. cc), (λ e. cc)), straight), omega (arith, few))

pub point_ops-IsShort :
    (point_type : ℕ) (regs : CtxRegs) (args : List PointArg)
    → AreBare point_type regs args
    → IsShort (budget args) (configs (point_ops args))
unfolding reads_at
point_ops-IsShort point_type regs [] bare = (tt, omega arith)
point_ops-IsShort point_type regs (arg ∷ args) bare =
    let (fine, enters, small) = bare.0 in
    let reads = reads_at point_type arg in
    let n = length (tests arg) in
    let simple = reads_at-IsSimple point_type arg fine in
    let more = if reads.1 then type_ops arg.kind else [] in
    let first : IsShort (3 + (n + 2)) (configs (arg_ops arg)) =
      rw
        (
          entry_ops point_type arg fine enters,
          map-append (λ (op : Op). op.config) (test_ops (tests arg)) more,
        )
        (IsShort-append 3 (n + 2)
          (configs (read_save_reg arg.reg_index ∷ rop "MOVE_REG_VALUE" op_move_reg_value ∷ []))
          (configs (test_ops (tests arg)) ++ configs more) (register-IsShort arg.reg_index)
          (IsShort-append n 2 (configs (test_ops (tests arg))) (configs more)
            (tests-IsShort (tests arg)) (more-IsShort reads simple))) in
    let (straight, few) =
      IsShort-append (3 + (n + 2)) (budget args) (configs (arg_ops arg)) (configs (point_ops args))
        first (point_ops-IsShort point_type regs args bare.1) in
    rw (map-append (λ (op : Op). op.config) (arg_ops arg) (point_ops args))
      (straight, omega (arith, few))

return-IsShort : IsShort 3 (configs (rop "READ_RET" op_read_ret ∷ rop "SAVE_REG" op_save_reg ∷ []))
unfolding rop op_value op_code
return-IsShort =
    (((omega arith, (λ e. cc), (λ e. cc)), ((omega arith, (λ e. cc), (λ e. cc)), tt)), omega arith)

pub ret_point-IsShort :
    (point_type value : ℕ) (regs : CtxRegs) (ret : PointArg) (args : List PointArg)
    → IsReturn point_type value ret
    → AreBare point_type regs args
    → IsShort (budget (ret ∷ args)) (configs (point_ops (ret ∷ args)))
unfolding reads_at
ret_point-IsShort point_type value regs ret args (fine, returns, small, whole) bare =
    let reads = reads_at point_type ret in
    let first : IsShort 5 (configs (arg_ops ret)) = rw (return_ops point_type ret fine returns) (
      IsShort-append 3 2 (configs (rop "READ_RET" op_read_ret ∷ rop "SAVE_REG" op_save_reg ∷ []))
        (configs (if reads.1 then type_ops ret.kind else [])) return-IsShort
        (more-IsShort reads (reads_at-IsSimple point_type ret fine))) in
    let (straight, few) =
      IsShort-append 5 (budget args) (configs (arg_ops ret)) (configs (point_ops args)) first
        (point_ops-IsShort point_type regs args bare) in
    rw (map-append (λ (op : Op). op.config) (arg_ops ret) (point_ops args))
      (straight, omega (arith, few))

-- As many keys as operations, and no fewer rounds.
pub Resolves-length :
    (lookup : ℕ → Option OpConfig) (keys : List ℕ) (cs : List OpConfig)
    → Resolves lookup keys cs
    → length keys ≤ rounds cs
Resolves-length lookup [] [] r = omega arith
Resolves-length lookup [] (c ∷ cs) r = absurd r
Resolves-length lookup (k ∷ keys) [] r = absurd r
Resolves-length lookup (k ∷ keys) (c ∷ cs) r = ground (arith, Resolves-length lookup keys cs r.1)

pub Resolves-more :
    (lookup lookup' : ℕ → Option OpConfig) (keys : List ℕ) (cs : List OpConfig)
    → ((key : ℕ) (c : OpConfig) → lookup key ≡ some c → lookup' key ≡ some c)
    → Resolves lookup keys cs
    → Resolves lookup' keys cs
Resolves-more l l' [] [] more r = tt
Resolves-more l l' [] (c ∷ cs) more r = absurd r
Resolves-more l l' (k ∷ keys) [] more r = absurd r
Resolves-more l l' (k ∷ keys) (c ∷ cs) more r = (more k c r.0, Resolves-more l l' keys cs more r.1)

KeysAt-after :
    (x : ℕ) (program : List ℕ) (i : ℕ) (keys : List ℕ)
    → KeysAt program i keys
    → KeysAt (x ∷ program) (suc i) keys
KeysAt-after x program i [] at_ = tt
KeysAt-after x program i (key ∷ keys) at_ = (at_.0, KeysAt-after x program (suc i) keys at_.1)

pub KeysAt-front : (keys rest : List ℕ) → KeysAt (keys ++ rest) 0 keys
KeysAt-front [] rest = tt
KeysAt-front (key ∷ keys) rest =
    (refl, KeysAt-after key (keys ++ rest) 0 keys (KeysAt-front keys rest))
