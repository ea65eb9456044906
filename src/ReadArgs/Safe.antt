-- ===== src/ReadArgs/Safe.antt =====
-- No operation of `read_args` writes outside the buffer, and what it saves are whole entries.
use stackplz.Base.{
  ℕ, zero, suc, ◌+◌, ◌≤◌, ◌≡◌, refl, Option, none, some, arith, if◌then◌else◌, ◌==◌, ◌&&◌, inl, inr,
  Bool-cases,
}
use stackplz.Types.{
  OpCode, op_skip, op_save_addr, op_read_reg, op_save_reg, op_save_pointer, op_save_struct,
  op_filter_value, op_filter_buffer, op_filter_string, op_save_string, op_save_ptr_string, op_code,
  op_value, EventData, max_bytes_arr_size, strarr_magic_len, OpCtx, OpConfig, CtxRegs, ArgFilter,
  PointArgs,
}
use stackplz.Kernel.{Kernel, IsKernel, Target, Config}
use stackplz.Event.{ok}
use stackplz.Event.Stream.{Stream, stream, IsValid}
use stackplz.Event.Entries.{Extends, Extends-refl}
use stackplz.Buffer.{save_bytes_to_buf}
use stackplz.ReadArgs.State.{Reader, Step, next, stop, crash, u8}
use stackplz.ReadArgs.Exec.{
  exec, save_value, save_struct, struct_len, read_reg, save_string, save_pointed, save_ptr_string,
}
use stackplz.ReadArgs.Filters.{filter_value, filter_buffer, filter_string, with_filter}
use stackplz.ReadArgs.{fetch, continue, read_loop, finish, read_args}
use stackplz.ReadArgs.Keeps.{
  Good, Keeps, Grows, word-Grows, bytes-Grows, magic-Grows, str-Grows, after-Keeps, or_empty-Grows,
}

struct_len-le : (op : OpConfig) (n : ℕ) → struct_len op n ≤ max_bytes_arr_size
unfolding struct_len
struct_len-le op n = ground arith

module _ (s : Stream) (r : Reader) (g : Good s r.event) where
  save_value-Keeps : (v : ℕ) → Keeps s (save_value r v)
  unfolding save_value
  save_value-Keeps v = after-Keeps s _ (word-Grows s r.event r.op.save_index g v) (λ n e h. h)

  read_reg-Keeps : (op : OpConfig) (regs : CtxRegs) → Keeps s (read_reg op regs r)
  unfolding read_reg
  read_reg-Keeps op regs = ground arith

  filter_value-Keeps : (f : ArgFilter) → Keeps s (filter_value f r)
  unfolding filter_value
  filter_value-Keeps f = ground arith

  module _ (k : Kernel) where
    filter_buffer-Keeps : (f : ArgFilter) → Keeps s (filter_buffer k f r)
    unfolding filter_buffer
    filter_buffer-Keeps f = ground arith

    filter_string-Keeps : (f : ArgFilter) → Keeps s (filter_string k f r)
    unfolding filter_string
    filter_string-Keeps f = ground arith

    with_filter-Keeps :
        (cfg : Config) (op : OpConfig) (f : ArgFilter → Reader → Step)
        → ((a : ArgFilter) → Keeps s (f a r))
        → Keeps s (with_filter cfg op r f)
    unfolding with_filter
    with_filter-Keeps cfg op f h =
        elim (cfg.arg_filter op.value)
          as (λ o. Keeps s (elim o [ none ↦ stop r | some a ↦ f a r ])) [ none ↦ g | some a ↦ h a ]

    module _ (law : IsKernel k) where
      retry-Grows :
          (index : ℕ) (e : EventData)
          → Good s e
          → Grows s (save_bytes_to_buf e (k.probe_read 0) 0 index)
      retry-Grows index e h = bytes-Grows s e index h _ 0 (law.read_fills 0) (omega arith)

      save_struct-Keeps : (op : OpConfig) → Keeps s (save_struct k op r)
      unfolding save_struct
      save_struct-Keeps op =
          after-Keeps s _
            (or_empty-Grows s k 0 r.op.save_index
              (bytes-Grows s r.event r.op.save_index g _ _ (law.read_fills _)
                (struct_len-le op r.op.read_len))
              (retry-Grows r.op.save_index))
            (λ n e h. h)

      save_string-Keeps : Keeps s (save_string k r)
      unfolding save_string
      save_string-Keeps =
          after-Keeps s _
            (or_empty-Grows s k 0 r.op.save_index
              (str-Grows s r.event r.op.save_index g _ (law.read_str_fits _))
              (retry-Grows r.op.save_index))
            (λ n e h. h)

      save_pointed-Keeps : (ptr : ℕ) → Keeps s (save_pointed k ptr r)
      unfolding save_pointed
      save_pointed-Keeps ptr =
          after-Keeps s _
            (or_empty-Grows s k strarr_magic_len r.op.save_index
              (str-Grows s r.event r.op.save_index g _ (law.read_str_fits _))
              (λ e h. magic-Grows s e r.op.save_index h _ (law.read_fills 0)))
            (λ n e h. h)

module _ (s : Stream) {k : Kernel} (law : IsKernel k) (t : Target) where
  save_ptr_string-Keeps : (r : Reader) → Good s r.event → Keeps s (save_ptr_string k t r)
  unfolding save_ptr_string
  save_ptr_string-Keeps r g = after-Keeps s _ (word-Grows s r.event r.op.save_index g _) (λ n e h.
      save_pointed-Keeps s
        (record r { event = e; op = record r.op { save_index = u8 (r.op.save_index + 1) } }) h k law
        _)

  module _ (cfg : Config) (regs : CtxRegs) where
    exec-Keeps :
        (op : OpConfig) (c : Option OpCode) (r : Reader)
        → Good s r.event
        → Keeps s (exec k t cfg op regs c r)
    unfolding exec
    exec-Keeps op none r g = g
    exec-Keeps op (some op_save_addr) r g = save_value-Keeps s r g _
    exec-Keeps op (some op_save_reg) r g = save_value-Keeps s r g _
    exec-Keeps op (some op_save_pointer) r g = save_value-Keeps s r g _
    exec-Keeps op (some op_read_reg) r g = read_reg-Keeps s r g op regs
    exec-Keeps op (some op_save_struct) r g = save_struct-Keeps s r g k law op
    exec-Keeps op (some op_filter_value) r g =
        with_filter-Keeps s r g k cfg op filter_value (filter_value-Keeps s r g)
    exec-Keeps op (some op_filter_buffer) r g =
        with_filter-Keeps s r g k cfg op (filter_buffer k) (filter_buffer-Keeps s r g k)
    exec-Keeps op (some op_filter_string) r g =
        with_filter-Keeps s r g k cfg op (filter_string k) (filter_string-Keeps s r g k)
    exec-Keeps op (some op_save_string) r g = save_string-Keeps s r g k law
    exec-Keeps op (some op_save_ptr_string) r g = save_ptr_string-Keeps r g
    exec-Keeps op (some _) r g = g

    continue-Keeps :
        (st : Step) (f : Reader → Step)
        → Keeps s st
        → ((r : Reader) → Good s r.event → Keeps s (f r))
        → Keeps s (continue st f)
    unfolding continue
    continue-Keeps (next r) f g h = ground (arith, h r g)
    continue-Keeps (stop r) f g h = g
    continue-Keeps crash f g h = g

    module _ (args : PointArgs) where
      read_loop-Keeps :
          (n : ℕ) (op : Option OpConfig) (r : Reader)
          → Good s r.event
          → Keeps s (read_loop k t cfg args regs n op r)
      unfolding read_loop
      read_loop-Keeps zero op r g = g
      read_loop-Keeps (suc n) op r g =
          fetched (fetch t cfg args op r.op) (λ op' r' g'. read_loop-Keeps n (some op') r' g')
        where
          fetched :
              (o : Option (OpConfig × OpCtx))
              → ((op' : OpConfig) (r' : Reader)
                  → Good s r'.event
                  → Keeps s (read_loop k t cfg args regs n (some op') r'))
              → Keeps s (elim o [
                | none ↦ stop r
                | some (op', c) ↦
                    let r' = record r { op = c } in
                    if c.op_code == op_value op_skip
                    then next r'
                    else continue
                        (exec k t cfg op' regs (op_code c.op_code) r')
                        (read_loop k t cfg args regs n (some op'))
              ])
          fetched none ih = g
          fetched (some (op', c)) ih =
              let r' = record r { op = c } in
              ground (
                arith,
                continue-Keeps (exec k t cfg op' regs (op_code c.op_code) r')
                    (read_loop k t cfg args regs n (some op'))
                    (exec-Keeps op' (op_code c.op_code) r' g) (ih op'),
              )

module _ (k : Kernel) (t : Target) (cfg : Config) (args : PointArgs) (regs : CtxRegs) where
  finish-Keeps :
      (s : Stream) (st : Step)
      → Keeps s st
      → (r' : Reader) × (finish k t cfg args regs st ≡ ok r') × Good s r'.event
  unfolding finish
  finish-Keeps s (stop r) g = (r, refl, g)
  finish-Keeps s crash g = absurd g
  finish-Keeps s (next r) g = elim (Bool-cases (r.op.match_blacklist == 1)) [
    | inl e ↦ (record r { op = record r.op { skip_flag = 1 } }, rw e, g)
    | inr e ↦ elim (Bool-cases (r.op.apply_filter == 1 && r.op.match_whitelist == 0)) [
      | inl e' ↦ (record r { op = record r.op { skip_flag = 1 } }, rw (e, e'), g)
      | inr e' ↦ (r, rw (e, e'), g)
    ]
  ]

  -- With reads that fill their destination, or at most that for strings, and an offset in the
  -- buffer, `read_args` returns on every program, register file
  -- and memory: no write leaves the argument buffer, the offset stays inside it, and what the run
  -- adds to the stream are whole entries.
  pub read_args-Extends :
      (r : Reader)
      → IsKernel k
      → IsValid r.event
      → (r' : Reader) × (read_args k t cfg args regs r ≡ ok r')
        × IsValid r'.event
        × Extends (stream r.event) (stream r'.event)
  unfolding read_args
  read_args-Extends r law v =
      let s = stream r.event in
      let kept =
        read_loop-Keeps s law t cfg regs args t.max_op_count (cfg.op_list 0) r
          (v, Extends-refl s) in
      let (r', e, g) =
        finish-Keeps s (read_loop k t cfg args regs t.max_op_count (cfg.op_list 0) r) kept in
      (r', e, g.0, g.1)
