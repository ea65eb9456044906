-- ===== src/ReadArgs/Exec.antt =====
-- The operations of `read_args` (src/utils.h), the cases of its switch.
use stackplz.Base.{
  ℕ, ◌+◌, ◌-◌, ◌*◌, ◌%◌, ◌^◌, bit_and, Option, none, some, ltb, leb, ◌==◌, if◌then◌else◌, get_or,
}
use stackplz.Types.{
  OpCode, op_skip, op_reset_ctx, op_set_reg_index, op_set_read_len, op_set_read_len_reg_value,
  op_set_read_len_pointer_value, op_set_read_count, op_add_offset, op_sub_offset, op_move_reg_value,
  op_move_pointer_value, op_move_tmp_value, op_set_tmp_value, op_for_break, op_set_break_count,
  op_set_break_count_reg_value, op_set_break_count_pointer_value, op_save_addr, op_add_reg,
  op_sub_reg, op_read_reg, op_save_reg, op_read_pointer, op_save_pointer, op_save_struct,
  op_filter_value, op_filter_buffer, op_filter_string, op_save_string, op_save_ptr_string,
  op_read_std_string, op_read_ret, op_value, EventData, OpCtx, OpConfig, CtxRegs, max_loop_count,
  max_bytes_arr_size, strarr_magic_len, reg_arm64_sp, reg_arm64_pc, reg_arm64_max,
}
use stackplz.Kernel.{Kernel, Config, Target, ptr_size, variable, copy_bytes}
use stackplz.Event.{Run, ok, fault, ◌>>=◌}
use stackplz.Buffer.{save_to_submit_buf, save_bytes_to_buf, save_str_to_buf, sizeof_int}
use stackplz.ReadArgs.State.{
  Reader, Step, next, stop, crash, with_op, u8, u32, u64, sub64, untag, overlay,
}
use stackplz.ReadArgs.Filters.{filter_value, filter_buffer, filter_string, with_filter}

-- the event record after a save, or the crash
unfoldable pub after : Run (ℕ × EventData) → (ℕ → EventData → Step) → Step
after (ok (status, e)) f = f status e
after fault f = crash

-- OP_SAVE_ADDR, OP_SAVE_REG, OP_SAVE_POINTER
unfoldable pub save_value : Reader → ℕ → Step
unfolding after
save_value r v =
    after (save_to_submit_buf r.event (variable v) 8 r.op.save_index) λ _ e.
      next (record r { event = e; op = record r.op { save_index = u8 (r.op.save_index + 1) } })

-- `break_count = MAX_LOOP_COUNT`, or the given count if that is less
unfoldable pub break_count : ℕ → ℕ
break_count n = if ltb n max_loop_count then n else max_loop_count

-- OP_FOR_BREAK
unfoldable pub for_break : OpCtx → OpCtx
for_break c =
    let start = if c.loop_count == 0 then c.op_key_index else c.loop_index in
    if leb c.break_count c.loop_count
    then record c { loop_count = 0; break_count = 0; loop_index = 0 }
    else record c { loop_count = u8 (c.loop_count + 1); loop_index = start; op_key_index = start }

-- `ctx_regs->regs[i]`; behind the 31 registers lie `sp`, `pc` and `flag`
unfoldable pub reg_at : CtxRegs → ℕ → ℕ
reg_at regs i =
    if ltb i reg_arm64_sp
    then get_or regs.regs i 0
    else if i == reg_arm64_sp
    then regs.sp
    else if i == reg_arm64_pc
    then regs.pc
    else regs.flag

-- OP_READ_REG
unfoldable pub read_reg : OpConfig → CtxRegs → Reader → Step
unfolding reg_at op_value
read_reg op regs r =
    let i = if op.pre_code == op_value op_set_reg_index then u8 op.value else r.op.reg_index in
    let c = record r.op { reg_index = i } in
    if leb reg_arm64_max i
    then stop (record r { op = c })
    else with_op r (record c { reg_value = reg_at regs i })

-- the address of OP_READ_POINTER
unfoldable pub pointer_addr : OpConfig → ℕ → ℕ
unfolding op_value
pointer_addr op addr =
    if op.pre_code == op_value op_add_offset
    then u64 (addr + op.value)
    else if op.pre_code == op_value op_sub_offset
    then sub64 addr op.value
    else addr

-- `bpf_probe_read_user(&v, PTR_SIZE, addr)`
unfoldable pub read_pointer : Kernel → Target → ℕ → ℕ → ℕ
unfolding overlay
read_pointer k t addr old = overlay (copy_bytes (k.probe_read_user addr (ptr_size t))) old

-- the length that OP_SAVE_STRUCT saves
unfoldable pub struct_len : OpConfig → ℕ → ℕ
unfolding op_value
struct_len op len =
    let n = if op.pre_code == op_value op_set_read_count then u32 (len * op.value) else len in
    if ltb max_bytes_arr_size n then max_bytes_arr_size else n

-- An argument that was not saved is replaced by an empty one with the given word for its size.
unfoldable pub or_empty : Kernel → ℕ → ℕ → Run (ℕ × EventData) → Run (ℕ × EventData)
or_empty k size index run = do
  (status, e) ← run
  (_, e') ← (if status == 0 then save_bytes_to_buf e (k.probe_read 0) size index else ok (1, e))
  ok (status, e')

-- OP_SAVE_STRUCT
unfoldable pub save_struct : Kernel → OpConfig → Reader → Step
unfolding untag struct_len or_empty after
save_struct k op r =
    let c = record r.op {
      read_addr = untag r.op.read_addr;
      read_len = struct_len op r.op.read_len;
    } in
    let run = save_bytes_to_buf r.event (k.probe_read c.read_addr) c.read_len c.save_index in
    after (or_empty k 0 c.save_index run) λ status e.
      next (record r { event = e; op = record c { save_index = u8 (c.save_index + 1) } })

-- OP_SAVE_STRING
unfoldable pub save_string : Kernel → Reader → Step
unfolding untag or_empty after
save_string k r =
    let c = record r.op { read_addr = untag r.op.read_addr } in
    let run = save_str_to_buf r.event (k.probe_read_str c.read_addr) c.save_index in
    after (or_empty k 0 c.save_index run) λ status e.
      let saved = (e.buf_off + 2 ^ 32 - (r.event.buf_off + sizeof_int + 1)) % 2 ^ 32 in
      next (record r {
        event = e;
        op = record c {
          str_len = if status == 0 then c.str_len else saved;
          save_index = u8 (c.save_index + 1);
        };
      })

-- the string of OP_SAVE_PTR_STRING; one that cannot be read ends a loop over an array of strings
unfoldable pub save_pointed : Kernel → ℕ → Reader → Step
unfolding untag or_empty after
save_pointed k ptr r =
    let c = r.op in
    let run = save_str_to_buf r.event (k.probe_read_str (untag ptr)) c.save_index in
    after (or_empty k strarr_magic_len c.save_index run) λ status e. next (record r {
      event = e;
      op = record c {
        loop_count = if status == 0 then c.break_count else c.loop_count;
        save_index = u8 (c.save_index + 1);
      };
    })

-- OP_SAVE_PTR_STRING
unfoldable pub save_ptr_string : Kernel → Target → Reader → Step
unfolding untag read_pointer save_pointed after
save_ptr_string k t r =
    let ptr = read_pointer k t (untag r.op.read_addr) (untag r.op.read_addr) in
    after (save_to_submit_buf r.event (variable ptr) 8 r.op.save_index) λ _ e.
      save_pointed k ptr
        (record r { event = e; op = record r.op { save_index = u8 (r.op.save_index + 1) } })

-- OP_READ_STD_STRING: the address of the characters of a `std::string`
unfoldable pub std_string_data : Kernel → Target → ℕ → ℕ
unfolding untag overlay
std_string_data k t addr =
    let base = untag addr in
    let last = overlay (copy_bytes (k.probe_read_user (u64 (base + (ptr_size t * 3 - 1))) 1)) 0 in
    if bit_and last 0x80 == 0 then base else overlay (copy_bytes (k.probe_read_user base 8)) 0

-- `switch (op_ctx->op_code)`; `none` is a code that is no operation.
unfoldable pub exec : Kernel → Target → Config → OpConfig → CtxRegs → Option OpCode → Reader → Step
unfolding save_value break_count for_break read_reg pointer_addr read_pointer save_struct
    filter_value filter_buffer filter_string with_filter save_string save_ptr_string std_string_data
exec k t cfg op regs none r = next r
exec k t cfg op regs (some op_skip) r = next r
exec k t cfg op regs (some op_reset_ctx) r = with_op r (record r.op {
  break_count = 0;
  reg_index = 0;
  read_addr = 0;
  read_len = 0;
  reg_value = 0;
  pointer_value = 0;
})
exec k t cfg op regs (some op_set_reg_index) r = with_op r (record r.op { reg_index = u8 op.value })
exec k t cfg op regs (some op_set_read_len) r = with_op r (record r.op { read_len = u32 op.value })
exec k t cfg op regs (some op_set_read_len_reg_value) r = with_op r (record r.op {
  read_len = if ltb r.op.reg_value r.op.read_len then r.op.reg_value else r.op.read_len;
})
exec k t cfg op regs (some op_set_read_len_pointer_value) r = with_op r (record r.op {
  read_len = if ltb r.op.pointer_value r.op.read_len then r.op.pointer_value else r.op.read_len;
})
exec k t cfg op regs (some op_set_read_count) r =
    with_op r (record r.op { read_len = u32 (r.op.read_len * op.value) })
exec k t cfg op regs (some op_add_offset) r =
    with_op r (record r.op { read_addr = u64 (r.op.read_addr + op.value) })
exec k t cfg op regs (some op_sub_offset) r =
    with_op r (record r.op { read_addr = sub64 r.op.read_addr op.value })
exec k t cfg op regs (some op_move_reg_value) r =
    with_op r (record r.op { read_addr = r.op.reg_value })
exec k t cfg op regs (some op_move_pointer_value) r =
    with_op r (record r.op { read_addr = r.op.pointer_value })
exec k t cfg op regs (some op_move_tmp_value) r =
    with_op r (record r.op { read_addr = r.op.tmp_value })
exec k t cfg op regs (some op_set_tmp_value) r =
    with_op r (record r.op { tmp_value = r.op.read_addr })
exec k t cfg op regs (some op_for_break) r = with_op r (for_break r.op)
exec k t cfg op regs (some op_set_break_count) r =
    with_op r (record r.op { break_count = break_count op.value })
exec k t cfg op regs (some op_set_break_count_reg_value) r =
    with_op r (record r.op { break_count = break_count r.op.reg_value })
exec k t cfg op regs (some op_set_break_count_pointer_value) r =
    with_op r (record r.op { break_count = break_count r.op.pointer_value })
exec k t cfg op regs (some op_save_addr) r = save_value r r.op.read_addr
exec k t cfg op regs (some op_add_reg) r =
    with_op r (record r.op { read_addr = u64 (r.op.read_addr + r.op.reg_value) })
exec k t cfg op regs (some op_sub_reg) r =
    with_op r (record r.op { read_addr = sub64 r.op.read_addr r.op.reg_value })
exec k t cfg op regs (some op_read_reg) r = read_reg op regs r
exec k t cfg op regs (some op_save_reg) r = save_value r r.op.reg_value
exec k t cfg op regs (some op_read_pointer) r = with_op r (record r.op {
  pointer_value = read_pointer k t (pointer_addr op r.op.read_addr) r.op.pointer_value;
})
exec k t cfg op regs (some op_save_pointer) r = save_value r r.op.pointer_value
exec k t cfg op regs (some op_save_struct) r = save_struct k op r
exec k t cfg op regs (some op_filter_value) r = with_filter cfg op r filter_value
exec k t cfg op regs (some op_filter_buffer) r = with_filter cfg op r (filter_buffer k)
exec k t cfg op regs (some op_filter_string) r = with_filter cfg op r (filter_string k)
exec k t cfg op regs (some op_save_string) r = save_string k r
exec k t cfg op regs (some op_save_ptr_string) r = save_ptr_string k t r
exec k t cfg op regs (some op_read_std_string) r =
    with_op r (record r.op { read_addr = std_string_data k t r.op.read_addr })
exec k t cfg op regs (some op_read_ret) r = with_op r (record r.op { reg_value = r.op.reg_0 })
