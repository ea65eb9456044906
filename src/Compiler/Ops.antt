-- ===== src/Compiler/Ops.antt =====
-- The operations that read an argument: those of its register, its type and its filters.
-- `GetOpList` of user/config/config_point_arg.go, and the registrations of user/argtype.
use Prim.Native.String.{String}
use stackplz.Base.{
  ◌&&◌, ℕ, Bool, true, false, ◌||◌, none, some, List, [], ◌∷◌, ◌++◌, map, ◌==◌, if◌then◌else◌,
}
use stackplz.Types.{
  OpCode, op_skip, op_reset_ctx, op_set_reg_index, op_set_read_len, op_set_read_len_reg_value,
  op_set_read_len_pointer_value, op_set_read_count, op_add_offset, op_sub_offset, op_move_reg_value,
  op_move_pointer_value, op_move_tmp_value, op_set_tmp_value, op_for_break, op_set_break_count,
  op_set_break_count_reg_value, op_set_break_count_pointer_value, op_save_addr, op_add_reg,
  op_sub_reg, op_read_reg, op_save_reg, op_read_pointer, op_save_pointer, op_save_struct,
  op_filter_value, op_filter_buffer, op_filter_string, op_save_string, op_save_ptr_string,
  op_read_std_string, op_read_ret, op_value, max_loop_count, reg_arm64_max,
}
use stackplz.Decoder.Args.{
  Kind, number, text, std_text, buffer, number_ptr, texts, vectors, structure, PointArg,
  ebpf_sys_all,
}
use stackplz.Compiler.{Op, OpManager, add_op}

-- `ROP`, which adds the operation; it has no index yet
unfoldable pub rop : String → OpCode → Op
unfolding op_value
rop name code = record {
  name = name;
  suffix = none;
  index = 0;
  config = record {
    code = op_value code;
    pre_code = op_value op_skip;
    post_code = op_value op_skip;
    value = 0;
  };
}

-- `NewValue`
unfoldable pub new_value : Op → ℕ → Op
new_value op value = record op { config = record op.config { value = value } }

-- an operation of three codes, named after its value
unfoldable pub joined : String → OpCode → OpCode → OpCode → ℕ → Op
unfolding op_value
joined name code pre post value = record {
  name = name;
  suffix = some value;
  index = 0;
  config = record {
    code = op_value code;
    pre_code = op_value pre;
    post_code = op_value post;
    value = value;
  };
}

-- `Add_READ_SAVE_REG`
unfoldable pub read_save_reg : ℕ → Op
unfolding joined
read_save_reg value = joined "READ_SAVE_REG" op_read_reg op_set_reg_index op_save_reg value

-- `SaveStruct`
unfoldable pub set_save_struct : ℕ → Op
unfolding joined
set_save_struct value = joined "SAVE_STRUCT" op_set_read_len op_skip op_save_struct value

-- `BuildReadRegBreakCount`
unfoldable pub build_read_reg_break_count : ℕ → Op
unfolding joined
build_read_reg_break_count value =
    joined "READ_REG_AS_BREAK_COUNT" op_read_reg op_set_reg_index op_set_break_count_reg_value value

-- `BuildReadPtrLen`
unfoldable pub build_read_ptr_len : ℕ → Op
unfolding joined
build_read_ptr_len offset =
    joined "READ_PTR_AS_READ_LEN" op_read_pointer op_add_offset op_set_read_len_pointer_value offset

-- The operations that exist from the start, in the order of their declarations.
unfoldable pub base_ops : List Op
unfolding rop
base_ops =
    rop "SKIP" op_skip
    ∷ rop "RESET_CTX" op_reset_ctx
    ∷ rop "SET_REG_INDEX" op_set_reg_index
    ∷ rop "SET_READ_LEN" op_set_read_len
    ∷ rop "SET_READ_LEN_REG_VALUE" op_set_read_len_reg_value
    ∷ rop "SET_READ_LEN_POINTER_VALUE" op_set_read_len_pointer_value
    ∷ rop "SET_READ_COUNT" op_set_read_count
    ∷ rop "ADD_OFFSET" op_add_offset
    ∷ rop "SUB_OFFSET" op_sub_offset
    ∷ rop "MOVE_REG_VALUE" op_move_reg_value
    ∷ rop "MOVE_POINTER_VALUE" op_move_pointer_value
    ∷ rop "MOVE_TMP_VALUE" op_move_tmp_value
    ∷ rop "SET_TMP_VALUE" op_set_tmp_value
    ∷ rop "FOR_BREAK" op_for_break
    ∷ rop "OP_SET_BREAK_COUNT" op_set_break_count
    ∷ rop "SET_BREAK_COUNT_REG_VALUE" op_set_break_count_reg_value
    ∷ rop "SET_BREAK_COUNT_POINTER_VALUE" op_set_break_count_pointer_value
    ∷ rop "SAVE_ADDR" op_save_addr
    ∷ rop "ADD_REG" op_add_reg
    ∷ rop "SUB_REG" op_sub_reg
    ∷ rop "READ_REG" op_read_reg
    ∷ rop "SAVE_REG" op_save_reg
    ∷ rop "READ_POINTER" op_read_pointer
    ∷ rop "SAVE_POINTER" op_save_pointer
    ∷ rop "SAVE_STRUCT" op_save_struct
    ∷ rop "SAVE_STRING" op_save_string
    ∷ rop "FILTER_VALUE" op_filter_value
    ∷ rop "FILTER_BUFFER" op_filter_buffer
    ∷ rop "FILTER_STRING" op_filter_string
    ∷ rop "SAVE_PTR_STRING" op_save_ptr_string
    ∷ rop "READ_STD_STRING" op_read_std_string
    ∷ rop "READ_RET" op_read_ret
    ∷ []

-- MAX_BUF_READ_SIZE
abbrev pub max_buf_read_size : ℕ
max_buf_read_size = 4096

-- `r_IOVEC`, of a structure of sixteen bytes with the length at offset eight
unfoldable pub iovec_ops : List Op
unfolding rop new_value build_read_ptr_len
iovec_ops =
    new_value (rop "SET_READ_LEN" op_set_read_len) 16
    ∷ rop "SAVE_STRUCT" op_save_struct
    ∷ new_value (rop "SET_READ_LEN" op_set_read_len) max_buf_read_size
    ∷ build_read_ptr_len 8
    ∷ rop "READ_POINTER" op_read_pointer
    ∷ rop "MOVE_POINTER_VALUE" op_move_pointer_value
    ∷ rop "SAVE_STRUCT" op_save_struct
    ∷ []

-- What a type adds when it is registered.
unfoldable pub type_ops : Kind → List Op
unfolding rop new_value set_save_struct build_read_reg_break_count iovec_ops
type_ops number = []
type_ops text = rop "SAVE_STRING" op_save_string ∷ []
type_ops std_text = rop "READ_STD_STRING" op_read_std_string ∷ rop "SAVE_STRING" op_save_string ∷ []
type_ops buffer = set_save_struct max_buf_read_size ∷ []
type_ops number_ptr = set_save_struct 8 ∷ []
type_ops (structure size taken) =
    new_value (rop "SET_READ_LEN" op_set_read_len) size ∷ rop "SAVE_STRUCT" op_save_struct ∷ []
type_ops texts =
    new_value (rop "OP_SET_BREAK_COUNT" op_set_break_count) max_loop_count
    ∷ rop "FOR_BREAK" op_for_break
    ∷ rop "SAVE_PTR_STRING" op_save_ptr_string
    ∷ new_value (rop "ADD_OFFSET" op_add_offset) 8
    ∷ rop "FOR_BREAK" op_for_break
    ∷ []
type_ops vectors =
    build_read_reg_break_count 2
    ∷ rop "SAVE_REG" op_save_reg
    ∷ rop "FOR_BREAK" op_for_break
    ∷ rop "SET_TMP_VALUE" op_set_tmp_value
    ∷ (iovec_ops
        ++ rop "MOVE_TMP_VALUE" op_move_tmp_value
          ∷ new_value (rop "ADD_OFFSET" op_add_offset) 16
          ∷ rop "FOR_BREAK" op_for_break
          ∷ [])

-- Operations added one after the other, for their indices.
unfoldable pub add_ops : List Op → OpManager → List ℕ × OpManager
add_ops [] vs = ([], vs)
add_ops (op ∷ ops) vs =
    let (v, vs) = add_op op vs in let (keys, vs) = add_ops ops vs in (v.index ∷ keys, vs)

-- the filters of an argument, by the operation that applies one
unfoldable pub filter_ops : String → OpCode → List ℕ → List Op
unfolding rop new_value
filter_ops name code filters = map (new_value (rop name code)) filters

-- `ReadMore`
unfoldable pub read_more : PointArg → Bool
read_more arg = arg.point_type == ebpf_sys_all || arg.point_type == arg.group_type

-- the filters that are applied to the value, and those to what it points to
unfoldable pub value_filters : PointArg → List Op
unfolding filter_ops
value_filters arg = elim arg.kind [
  | text ↦ []
  | std_text ↦ []
  | buffer ↦ []
  | _ ↦ if arg.is_ret then [] else filter_ops "FILTER_VALUE" op_filter_value arg.filter_index_list
]

unfoldable pub text_filters : PointArg → List Op
unfolding filter_ops
text_filters arg = elim arg.kind [
  | text ↦ filter_ops "FILTER_STRING" op_filter_string arg.filter_index_list
  | std_text ↦ filter_ops "FILTER_STRING" op_filter_string arg.filter_index_list
  | buffer ↦ filter_ops "FILTER_BUFFER" op_filter_buffer arg.filter_index_list
  | _ ↦ []
]

-- the keys that read the register, which `AddExtraOp` may have given
unfoldable pub register_keys : PointArg → OpManager → List ℕ × OpManager
unfolding rop read_save_reg add_ops
register_keys arg vs =
    if arg.is_ret
    then add_ops (rop "READ_RET" op_read_ret ∷ rop "SAVE_REG" op_save_reg ∷ []) vs
    else elim arg.extra_op_list [
      | [] ↦ add_ops (read_save_reg arg.reg_index ∷ rop "MOVE_REG_VALUE" op_move_reg_value ∷ []) vs
      | key ∷ keys ↦ (key ∷ keys, vs)
    ]

-- `arg_types`: the keys of each type that is registered.
abbrev pub ArgTypes : Type 0
ArgTypes = Kind → List ℕ

unfoldable pub same_kind : Kind → Kind → Bool
same_kind number number = true
same_kind text text = true
same_kind std_text std_text = true
same_kind buffer buffer = true
same_kind number_ptr number_ptr = true
same_kind texts texts = true
same_kind vectors vectors = true
same_kind (structure m i) (structure n j) = m == n && i == j
same_kind _ _ = false

-- The registration of a type: its operations are added, and it keeps their keys.
unfoldable pub register_type : Kind → ArgTypes × OpManager → ArgTypes × OpManager
unfolding same_kind type_ops add_ops
register_type kind (types, vs) =
    let (keys, vs) = add_ops (type_ops kind) vs in
    ((λ other. if same_kind other kind then keys else types other), vs)

-- `PreRegister`, and the types that the options add
unfoldable pub register_types : List Kind → ArgTypes × OpManager → ArgTypes × OpManager
unfolding register_type
register_types [] state = state
register_types (kind ∷ kinds) state = register_types kinds (register_type kind state)

-- the keys behind `ReadMore`
unfoldable pub more_keys : ArgTypes → PointArg → OpManager → List ℕ × OpManager
unfolding text_filters read_more add_ops
more_keys types arg vs =
    if read_more arg
    then (let (filters, vs) = add_ops (text_filters arg) vs in (types arg.kind ++ filters, vs))
    else ([], vs)

-- `GetOpList`
unfoldable pub arg_op_list : ArgTypes → PointArg → OpManager → List ℕ × OpManager
unfolding register_keys value_filters more_keys add_ops
arg_op_list types arg vs =
    if arg.reg_index == reg_arm64_max
    then ([], vs)
    else (let (first, vs) = register_keys arg vs in
        let (tests, vs) = add_ops (value_filters arg) vs in
        let (more, vs) = more_keys types arg vs in (first ++ (tests ++ more), vs))
