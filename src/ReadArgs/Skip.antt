-- ===== src/ReadArgs/Skip.antt =====
-- A match of a blacklist is never lost: wherever `read_args` returns, the event is skipped.
use stackplz.Base.{
  ℕ, zero, suc, ◌+◌, ◌≡◌, ◌≢◌, refl, sym, arith, Option, none, some, ◌==◌, if◌then◌else◌,
  Bool-cases, inl, inr,
}
use stackplz.Types.{
  OpCode, op_skip, op_read_reg, op_save_addr, op_save_reg, op_save_pointer, op_save_struct,
  op_filter_value, op_filter_buffer, op_filter_string, op_save_string, op_save_ptr_string, op_code,
  op_value, EventData, OpCtx, OpConfig, CtxRegs, ArgFilter, PointArgs,
}
use stackplz.Kernel.{variable, Kernel, Target, Config}
use stackplz.Event.{Run, ok, fault}
use stackplz.Buffer.{save_to_submit_buf}
use stackplz.ReadArgs.State.{u8, untag, Reader, Step, next, stop, crash}
use stackplz.ReadArgs.Exec.{
  read_pointer, exec, after, save_value, save_struct, read_reg, save_string, save_pointed,
  save_ptr_string,
}
use stackplz.ReadArgs.Filters.{filter_value, filter_buffer, filter_string, with_filter}
use stackplz.ReadArgs.{fetch, fetch_key, continue, read_loop, finish, read_args}

-- The step does not return out of the loop with a match.
abbrev pub Clean : Step → Type 0
Clean st = (r : Reader) → st ≡ stop r → r.op.match_blacklist ≢ 1

next-Clean : (r : Reader) → Clean (next r)
next-Clean r r' e = cc

after-Clean :
    (run : Run (ℕ × EventData)) (f : ℕ → EventData → Step)
    → ((n : ℕ) (e : EventData) → Clean (f n e))
    → Clean (after run f)
unfolding after
after-Clean (ok (n, e)) f h = h n e
after-Clean fault f h = λ r e. cc

save_pointed-Clean : (k : Kernel) (ptr : ℕ) (r : Reader) → Clean (save_pointed k ptr r)
unfolding save_pointed
save_pointed-Clean k ptr r = after-Clean _ _ (λ n e. next-Clean _)

module _ (k : Kernel) (t : Target) (cfg : Config) (regs : CtxRegs) where
  save_ptr_string-Clean : (r : Reader) → Clean (save_ptr_string k t r)
  unfolding save_ptr_string
  save_ptr_string-Clean r =
      let ptr = read_pointer k t (untag r.op.read_addr) (untag r.op.read_addr) in
      after-Clean (save_to_submit_buf r.event (variable ptr) 8 r.op.save_index) _ (λ n e.
        save_pointed-Clean k ptr
          (record r { event = e; op = record r.op { save_index = u8 (r.op.save_index + 1) } }))

  with_filter-Clean :
      (o : Option ArgFilter) (r : Reader) (f : ArgFilter → Reader → Step)
      → r.op.match_blacklist ≢ 1
      → ((a : ArgFilter) → Clean (f a r))
      → Clean (elim o [ none ↦ stop r | some a ↦ f a r ])
  with_filter-Clean none r f h clean = λ r' e. ground arith
  with_filter-Clean (some a) r f h clean = clean a

  exec-Clean :
      (op : OpConfig) (c : Option OpCode) (r : Reader)
      → r.op.match_blacklist ≢ 1
      → Clean (exec k t cfg op regs c r)
  unfolding exec save_value save_struct read_reg save_string filter_value filter_buffer
      filter_string with_filter
  exec-Clean op none r h = λ r' e. cc
  exec-Clean op (some op_read_reg) r h = λ r' e. ground arith
  exec-Clean op (some op_save_addr) r h = after-Clean _ _ (λ n e. next-Clean _)
  exec-Clean op (some op_save_reg) r h = after-Clean _ _ (λ n e. next-Clean _)
  exec-Clean op (some op_save_pointer) r h = after-Clean _ _ (λ n e. next-Clean _)
  exec-Clean op (some op_save_struct) r h = after-Clean _ _ (λ n e. next-Clean _)
  exec-Clean op (some op_save_string) r h = after-Clean _ _ (λ n e. next-Clean _)
  exec-Clean op (some op_save_ptr_string) r h = save_ptr_string-Clean r
  exec-Clean op (some op_filter_value) r h =
      with_filter-Clean (cfg.arg_filter op.value) r filter_value h (λ a r' e. ground arith)
  exec-Clean op (some op_filter_buffer) r h =
      with_filter-Clean (cfg.arg_filter op.value) r (filter_buffer k) h (λ a r' e. ground arith)
  exec-Clean op (some op_filter_string) r h =
      with_filter-Clean (cfg.arg_filter op.value) r (filter_string k) h (λ a r' e. ground arith)
  exec-Clean op (some _) r h = λ r' e. cc

  continue-Clean :
      (st : Step) (f : Reader → Step)
      → Clean st
      → ((r : Reader) → r.op.match_blacklist ≢ 1 → Clean (f r))
      → Clean (continue st f)
  unfolding continue
  continue-Clean (next r) f c h = elim (Bool-cases (r.op.match_blacklist == 1)) [
    | inl y ↦ rw y (λ r' e. cc)
    | inr n ↦ rw n (h r (ground arith))
  ]
  continue-Clean (stop r) f c h = c
  continue-Clean crash f c h = λ r' e. cc

  fetch-keeps :
      (args : PointArgs) (op : Option OpConfig) (c c' : OpCtx) (op' : OpConfig)
      → fetch t cfg args op c ≡ some (op', c')
      → c'.match_blacklist ≡ c.match_blacklist
  unfolding fetch fetch_key
  fetch-keeps args none c c' op' e = ground arith
  fetch-keeps args (some op) c c' op' e = ground arith

  read_loop-Clean :
      (args : PointArgs) (n : ℕ) (op : Option OpConfig) (r : Reader)
      → r.op.match_blacklist ≢ 1
      → Clean (read_loop k t cfg args regs n op r)
  unfolding read_loop
  read_loop-Clean args zero op r h = λ r' e. cc
  read_loop-Clean args (suc n) op r h =
      fetched (fetch t cfg args op r.op) refl (λ op' r' h'. read_loop-Clean args n (some op') r' h')
    where
      fetched :
          (o : Option (OpConfig × OpCtx))
          → fetch t cfg args op r.op ≡ o
          → ((op' : OpConfig) (r' : Reader)
              → r'.op.match_blacklist ≢ 1
              → Clean (read_loop k t cfg args regs n (some op') r'))
          → Clean (elim o [
            | none ↦ stop r
            | some (op', c) ↦
                let r' = record r { op = c } in
                if c.op_code == op_value op_skip
                then next r'
                else continue
                    (exec k t cfg op' regs (op_code c.op_code) r')
                    (read_loop k t cfg args regs n (some op'))
          ])
      fetched none e ih = λ r' z. ground arith
      fetched (some (op', c)) e ih =
          let r' = record r { op = c } in
          let h' : c.match_blacklist ≢ 1 = rw (sym (fetch-keeps args op r.op c op' e)) at h in
          elim (Bool-cases (c.op_code == op_value op_skip)) [
            | inl y ↦ rw y (λ r'' z. cc)
            | inr x ↦ rw x (continue-Clean _ _ (exec-Clean op' (op_code c.op_code) r' h') (ih op'))
          ]

  finish-skips :
      (args : PointArgs) (st : Step) (r' : Reader)
      → Clean st
      → finish k t cfg args regs st ≡ ok r'
      → r'.op.match_blacklist ≡ 1
      → r'.op.skip_flag ≡ 1
  unfolding finish
  finish-skips args (next r) r' c e m = ground arith
  finish-skips args (stop r) r' c e m = absurd (c r refl (ground arith))
  finish-skips args crash r' c e m = cc

  -- From registers without a match, wherever `read_args` returns, a match of a blacklist makes the
  -- event one to skip: none is lost through the early returns of the loop.
  pub read_args-skips :
      (args : PointArgs) (r r' : Reader)
      → r.op.match_blacklist ≢ 1
      → read_args k t cfg args regs r ≡ ok r'
      → r'.op.match_blacklist ≡ 1
      → r'.op.skip_flag ≡ 1
  unfolding read_args
  read_args-skips args r r' h e m =
      finish-skips args (read_loop k t cfg args regs t.max_op_count (cfg.op_list 0) r) r'
        (read_loop-Clean args t.max_op_count (cfg.op_list 0) r h) e m
