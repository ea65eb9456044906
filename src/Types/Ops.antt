-- ===== src/Types/Ops.antt =====
-- src/types.h, `enum op_code_e`: the operations of the argument reader. A code is stored as a
-- `u32`; `op_code` is how a `switch` on the enumeration reads it, and `op_value` the constant.
use stackplz.Base.{
  ℕ, ◌-◌, ◌≡◌, refl, Option, none, some, List, [], ◌∷◌, ltb, if◌then◌else◌, get_elem?,
}

pub data OpCode : Type 0 where
  op_skip op_reset_ctx op_set_reg_index : OpCode
  op_set_read_len op_set_read_len_reg_value op_set_read_len_pointer_value : OpCode
  op_set_read_count op_add_offset op_sub_offset : OpCode
  op_move_reg_value op_move_pointer_value op_move_tmp_value : OpCode
  op_set_tmp_value op_for_break op_set_break_count : OpCode
  op_set_break_count_reg_value op_set_break_count_pointer_value op_save_addr : OpCode
  op_add_reg op_sub_reg op_read_reg : OpCode
  op_save_reg op_read_pointer op_save_pointer : OpCode
  op_save_struct op_filter_value op_filter_buffer : OpCode
  op_filter_string op_save_string op_save_ptr_string : OpCode
  op_read_std_string op_read_ret : OpCode

-- The enumeration in its order; the first constant is 233.
abbrev pub op_codes : List OpCode
op_codes =
    op_skip ∷ op_reset_ctx ∷ op_set_reg_index ∷ op_set_read_len ∷ op_set_read_len_reg_value
    ∷ op_set_read_len_pointer_value ∷ op_set_read_count ∷ op_add_offset ∷ op_sub_offset
    ∷ op_move_reg_value ∷ op_move_pointer_value ∷ op_move_tmp_value ∷ op_set_tmp_value
    ∷ op_for_break ∷ op_set_break_count ∷ op_set_break_count_reg_value
    ∷ op_set_break_count_pointer_value ∷ op_save_addr ∷ op_add_reg ∷ op_sub_reg ∷ op_read_reg
    ∷ op_save_reg ∷ op_read_pointer ∷ op_save_pointer ∷ op_save_struct ∷ op_filter_value
    ∷ op_filter_buffer ∷ op_filter_string ∷ op_save_string ∷ op_save_ptr_string ∷ op_read_std_string
    ∷ op_read_ret ∷ []

abbrev pub op_base : ℕ
op_base = 233

-- The constant that a code stands for; `none` is the `default` of the switch.
unfoldable pub op_code : ℕ → Option OpCode
op_code n = if ltb n op_base then none else get_elem? op_codes (n - op_base)

unfoldable pub op_value : OpCode → ℕ
op_value op_skip = 233
op_value op_reset_ctx = 234
op_value op_set_reg_index = 235
op_value op_set_read_len = 236
op_value op_set_read_len_reg_value = 237
op_value op_set_read_len_pointer_value = 238
op_value op_set_read_count = 239
op_value op_add_offset = 240
op_value op_sub_offset = 241
op_value op_move_reg_value = 242
op_value op_move_pointer_value = 243
op_value op_move_tmp_value = 244
op_value op_set_tmp_value = 245
op_value op_for_break = 246
op_value op_set_break_count = 247
op_value op_set_break_count_reg_value = 248
op_value op_set_break_count_pointer_value = 249
op_value op_save_addr = 250
op_value op_add_reg = 251
op_value op_sub_reg = 252
op_value op_read_reg = 253
op_value op_save_reg = 254
op_value op_read_pointer = 255
op_value op_save_pointer = 256
op_value op_save_struct = 257
op_value op_filter_value = 258
op_value op_filter_buffer = 259
op_value op_filter_string = 260
op_value op_save_string = 261
op_value op_save_ptr_string = 262
op_value op_read_std_string = 263
op_value op_read_ret = 264

-- Every constant is read back as itself.
pub op_code-op_value : (c : OpCode) → op_code (op_value c) ≡ some c
unfolding op_code op_value
op_code-op_value op_skip = refl
op_code-op_value _ = refl
