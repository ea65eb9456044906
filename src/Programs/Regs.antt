-- ===== src/Programs/Regs.antt =====
-- src/common/arguments.h: the registers kept between the entry and the return of a function.
pub mod RoundTrip
use stackplz.Base.{
  ℕ, zero, suc, ◌+◌, ◌*◌, ◌%◌, ◌^◌, Option, none, some, List, [], ◌∷◌, get_or, if◌then◌else◌, ◌==◌,
}
use stackplz.Types.{CtxRegs}
use stackplz.Programs.World.{World, Host, update_elem, delete_elem}

-- `id << 32 | tid`
unfoldable pub regs_key : Host → ℕ → ℕ
regs_key h event_id = event_id % 2 ^ 32 * 2 ^ 32 + h.pid_tgid % 2 ^ 32

unfoldable pub save_regs : Host → CtxRegs → ℕ → World → World
unfolding regs_key
save_regs h regs event_id w =
    let id = regs_key h event_id in
    record w { ctx_regs_map = update_elem (h.regs_room w.ctx_regs_map id) w.ctx_regs_map id regs }

-- entries `i`, `i + 1`, … of an array, `n` of them
unfoldable pub copy_regs : ℕ → ℕ → List ℕ → List ℕ
copy_regs zero i xs = []
copy_regs (suc n) i xs = get_or xs i 0 ∷ copy_regs n (suc i) xs

-- `none` is the status -1
unfoldable pub load_regs : Host → ℕ → World → Option CtxRegs
unfolding regs_key copy_regs
load_regs h event_id w = elim (w.ctx_regs_map (regs_key h event_id)) [
  | none ↦ none
  | some saved ↦
      some (record {
        regs = copy_regs 31 0 saved.regs;
        sp = saved.sp;
        pc = saved.pc;
        flag = saved.flag;
      })
]

unfoldable pub del_regs : Host → ℕ → World → World
unfolding regs_key
del_regs h event_id w = record w { ctx_regs_map = delete_elem w.ctx_regs_map (regs_key h event_id) }
