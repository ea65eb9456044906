-- ===== src/ReadArgs/Straight.antt =====
-- The loop of `read_args` on a program without loops: its operations one after the other.
use stackplz.Base.{ℕ, ◌≡◌, ◌≢◌, refl, arith, Option, none, some}
use stackplz.Types.{
  OpCode, op_read_reg, op_save_addr, op_save_reg, op_save_pointer, op_save_struct, op_filter_value,
  op_filter_buffer, op_filter_string, op_save_string, op_save_ptr_string, op_for_break, EventData,
  OpConfig, CtxRegs, ArgFilter,
}
use stackplz.Kernel.{variable, Kernel, Target, Config}
use stackplz.Event.{Run, ok, fault}
use stackplz.Buffer.{save_to_submit_buf}
use stackplz.ReadArgs.State.{untag, Reader, Step, next, stop}
use stackplz.ReadArgs.Exec.{
  read_pointer, exec, after, save_value, save_struct, read_reg, save_string, save_pointed,
  save_ptr_string,
}
use stackplz.ReadArgs.Filters.{filter_value, filter_buffer, filter_string, with_filter}

-- A step that goes on leaves the place in the program alone.
abbrev pub Stays : Reader → Step → Type 0
Stays r st =
    (r' : Reader)
    → st ≡ next r'
    → (r'.op.op_key_index ≡ r.op.op_key_index) × (r'.op.post_code ≡ r.op.post_code)

next-Stays :
    (r r' : Reader)
    → r'.op.op_key_index ≡ r.op.op_key_index
    → r'.op.post_code ≡ r.op.post_code
    → Stays r (next r')
next-Stays r r' i p = λ r'' e. ground arith

after-Stays :
    (r : Reader) (run : Run (ℕ × EventData)) (f : ℕ → EventData → Step)
    → ((n : ℕ) (e : EventData) → Stays r (f n e))
    → Stays r (after run f)
unfolding after
after-Stays r (ok (n, e)) f h = h n e
after-Stays r fault f h = λ r' e. cc

module _ (k : Kernel) (t : Target) (cfg : Config) (regs : CtxRegs) where
  save_ptr_string-Stays : (r : Reader) → Stays r (save_ptr_string k t r)
  unfolding save_ptr_string save_pointed
  save_ptr_string-Stays r =
      let ptr = read_pointer k t (untag r.op.read_addr) (untag r.op.read_addr) in
      after-Stays r (save_to_submit_buf r.event (variable ptr) 8 r.op.save_index) _
        (λ n e. after-Stays r _ _ (λ n' e'. next-Stays r _ refl refl))

  with_filter-Stays :
      (o : Option ArgFilter) (r : Reader) (f : ArgFilter → Reader → Step)
      → ((a : ArgFilter) → Stays r (f a r))
      → Stays r (elim o [ none ↦ stop r | some a ↦ f a r ])
  with_filter-Stays none r f h = λ r' e. cc
  with_filter-Stays (some a) r f h = h a

  pub exec-Stays :
      (op : OpConfig) (c : Option OpCode) (r : Reader)
      → c ≢ some op_for_break
      → Stays r (exec k t cfg op regs c r)
  unfolding exec save_value save_struct read_reg save_string filter_value filter_buffer
      filter_string with_filter
  exec-Stays op none r h = λ r' e. ground arith
  exec-Stays op (some op_for_break) r h = absurd (h refl)
  exec-Stays op (some op_read_reg) r h = λ r' e. ground arith
  exec-Stays op (some op_save_addr) r h = after-Stays r _ _ (λ n e. next-Stays r _ refl refl)
  exec-Stays op (some op_save_reg) r h = after-Stays r _ _ (λ n e. next-Stays r _ refl refl)
  exec-Stays op (some op_save_pointer) r h = after-Stays r _ _ (λ n e. next-Stays r _ refl refl)
  exec-Stays op (some op_save_struct) r h = after-Stays r _ _ (λ n e. next-Stays r _ refl refl)
  exec-Stays op (some op_save_string) r h = after-Stays r _ _ (λ n e. next-Stays r _ refl refl)
  exec-Stays op (some op_save_ptr_string) r h = save_ptr_string-Stays r
  exec-Stays op (some op_filter_value) r h =
      with_filter-Stays (cfg.arg_filter op.value) r filter_value (λ a r' e. ground arith)
  exec-Stays op (some op_filter_buffer) r h =
      with_filter-Stays (cfg.arg_filter op.value) r (filter_buffer k) (λ a r' e. ground arith)
  exec-Stays op (some op_filter_string) r h =
      with_filter-Stays (cfg.arg_filter op.value) r (filter_string k) (λ a r' e. ground arith)
  exec-Stays op (some _) r h = λ r' e. ground arith
