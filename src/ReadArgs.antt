-- ===== src/ReadArgs.antt =====
-- `read_args` of src/utils.h: an interpreter of the operations that user space puts into
-- `op_list`. `op_ctx` are its registers, `op_key_list` its program. The parts of its state are in
-- `State`, the cases of its switch in `Exec` and `Filters`; this file is the loop around them.
pub mod State
pub mod Strcmp
pub mod Filters
pub mod Exec
pub mod Keeps
pub mod Safe
pub mod Skip
pub mod Match
pub mod Straight
pub mod Program
pub mod Sequence
pub mod Blocks
use stackplz.Base.{ℕ, zero, suc, ◌+◌, Option, none, some, leb, ◌==◌, ◌&&◌, if◌then◌else◌, get_or}
use stackplz.Types.{OpCode, op_skip, op_value, op_code, OpCtx, OpConfig, PointArgs, CtxRegs}
use stackplz.Kernel.{Kernel, Config, Target}
use stackplz.Event.{Run, ok, fault}
use State.{Reader, Step, next, stop, crash, u32}
use Exec.{exec}

-- the next entry of the program; `none` where the source returns
unfoldable pub fetch_key : Target → Config → PointArgs → OpCtx → Option (OpConfig × OpCtx)
fetch_key t cfg args c =
    if leb t.max_op_count c.op_key_index
    then none
    else elim (cfg.op_list (get_or args.op_key_list c.op_key_index 0)) [
      | none ↦ none
      | some op ↦ some (
        op,
        record c {
          op_code = op.code;
          post_code = op.post_code;
          op_key_index = u32 (c.op_key_index + 1);
        },
      )
    ]

-- The code to run: the second half of the last operation if it has one, else the next entry.
unfoldable pub fetch :
    Target → Config → PointArgs → Option OpConfig → OpCtx → Option (OpConfig × OpCtx)
unfolding fetch_key op_value
fetch t cfg args none c = fetch_key t cfg args c
fetch t cfg args (some op) c =
    if c.post_code == op_value op_skip
    then fetch_key t cfg args c
    else some (op, record c { op_code = c.post_code; post_code = op_value op_skip })

-- after an operation: a blacklist match ends the loop
unfoldable pub continue : Step → (Reader → Step) → Step
continue (next r) f = if r.op.match_blacklist == 1 then next r else f r
continue (stop r) f = stop r
continue crash f = crash

module _ (k : Kernel) (t : Target) (cfg : Config) (args : PointArgs) (regs : CtxRegs) where
  -- At most so many rounds; `next` is the `break`, or that the rounds are used up.
  unfoldable pub read_loop : ℕ → Option OpConfig → Reader → Step
  unfolding fetch continue exec op_value op_code
  read_loop zero op r = next r
  read_loop (suc n) op r = elim (fetch t cfg args op r.op) [
    | none ↦ stop r
    | some (op', c) ↦
        let r' = record r { op = c } in
        if c.op_code == op_value op_skip
        then next r'
        else continue (exec k t cfg op' regs (op_code c.op_code) r') (read_loop n (some op'))
  ]

  -- the skip rules, after the loop
  unfoldable pub finish : Step → Run Reader
  finish crash = fault
  finish (stop r) = ok r
  finish (next r) =
      if r.op.match_blacklist == 1
      then ok (record r { op = record r.op { skip_flag = 1 } })
      else if r.op.apply_filter == 1 && r.op.match_whitelist == 0
      then ok (record r { op = record r.op { skip_flag = 1 } })
      else ok r

  unfoldable pub read_args : Reader → Run Reader
  unfolding read_loop finish
  read_args r = finish (read_loop t.max_op_count (cfg.op_list 0) r)
