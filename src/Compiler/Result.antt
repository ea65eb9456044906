-- ===== src/Compiler/Result.antt =====
-- The result of a call, behind the arguments of its exit: `GetOpList` of user/config/config_point_arg.go
-- makes no operation for it, and the handler saves it.
use stackplz.Base.{
  ℕ, ◌^◌, ◌<◌, ◌≤◌, ◌≡◌, refl, ap, arith, List, [], ◌∷◌, ◌++◌, append_assoc, ◌==◌, Bool, true,
  false,
}
use stackplz.Types.{reg_arm64_max}
use stackplz.Event.Entries.{Entry, word}
use stackplz.Decoder.Args.{Kind, number, PointArg, Parsed, plain, reads_at, ebpf_sys_exit}
use stackplz.Decoder.Saves.{Saves, SavesAll, nothing, argument, unread, a_number}
use stackplz.Compiler.Compiled.{arg_ops, point_ops}
use stackplz.Compiler.Runs.Filters.{budget}

-- The result of a call: a number that no operation reads.
pub record IsResult (ret : PointArg) : Type 0 where
  pub kind : ret.kind ≡ number
  pub register : ret.reg_index ≡ reg_arm64_max

pub exit_ops :
    (args : List PointArg) (ret : PointArg)
    → IsResult ret
    → point_ops (args ++ ret ∷ []) ≡ point_ops args
unfolding arg_ops
exit_ops [] ret v =
    let last : (ret.reg_index == reg_arm64_max) ≡ true = ground (arith, v.register) in rw last refl
exit_ops (arg ∷ args) ret v = ap (λ ops. arg_ops arg ++ ops) (exit_ops args ret v)

pub budget-append :
    (args : List PointArg) (ret : PointArg) → budget args ≤ budget (args ++ ret ∷ [])
budget-append [] ret = omega arith
budget-append (arg ∷ args) ret = omega (arith, budget-append args ret)

pub SavesAll-append :
    {xs ys : List (Kind × Bool)} {rs us : List Parsed} {es fs : List Entry}
    → SavesAll xs rs es
    → SavesAll ys us fs
    → SavesAll (xs ++ ys) (rs ++ us) (es ++ fs)
SavesAll-append nothing more = more
SavesAll-append {fs} (argument {entries} {more = es} first rest) more =
    rw (append_assoc entries es fs) (argument first (SavesAll-append rest more))

-- The result behind the arguments.
pub result-Saves :
    (ret : PointArg) (i v : ℕ)
    → IsResult ret
    → v < 2 ^ 64
    → Saves (reads_at ebpf_sys_exit ret) (plain v) (word 8 i v ∷ [])
unfolding reads_at
result-Saves ret i v fine small = rw fine.kind (go (reads_at ebpf_sys_exit ret).1)
  where
    go : (b : Bool) → Saves (number, b) (plain v) (word 8 i v ∷ [])
    go true = a_number i v small
    go false = unread i v small
