-- ===== src/Decoder/Args.antt =====
-- user/argtype: what `Parse` reads of the buffer for an argument, behind the value of its
-- register. The several structures are read alike, so a type is told by what it reads: a structure
-- by the size of its type, which is what the reader saves, and the bytes that its callback takes.
use stackplz.Base.{ℕ, zero, suc, ◌^◌, Bool, not, ◌||◌, List, [], ◌∷◌, ltb, ◌==◌, if◌then◌else◌}
use stackplz.Types.{strarr_magic_len, max_loop_count}
use stackplz.Decoder.{Reads, ◌>>=◌, pure, panic, read_bytes, read_num}

-- ARG_NUM and its kinds, ARG_STRING, `std`, ARG_BUFFER, ARG_PTR to a number, `string_array`,
-- `iovec_x2`, and ARG_STRUCT of a size, with the bytes that are taken of it.
pub data Kind : Type 0 where
  number text std_text buffer number_ptr texts vectors : Kind
  structure : ℕ → ℕ → Kind

-- What is printed, the address or number first.
pub data Parsed : Type 0 where
  plain : ℕ → Parsed
  with_bytes : ℕ → List ℕ → Parsed
  with_value : ℕ → ℕ → Parsed
  with_texts : ℕ → List (ℕ × List ℕ) → Parsed
  with_vectors : ℕ → List (ℕ × ℕ × List ℕ) → Parsed

-- `Arg_reg`, without the index
unfoldable pub read_address : Reads ℕ
read_address = do _ ← read_num 1; read_num 8

-- `Arg_str` and `Arg_struct`: the number of bytes that follow
unfoldable pub read_len : Reads ℕ
read_len = do _ ← read_num 1; read_num 4

-- `ARG_BUFFER.ParseArg` and `parse_STRING`
unfoldable pub parse_text : ℕ → Reads Parsed
parse_text ptr = do len ← read_len; payload ← read_bytes len; pure (with_bytes ptr payload)

-- `ARG_STRUCT.ParseArg`, and the callbacks that start with `GetStructLen`: the length is that of the
-- type, or zero; then the callback takes as many bytes as the Go structure that it names has.
unfoldable pub parse_struct : ℕ → ℕ → ℕ → Reads Parsed
parse_struct size taken ptr = do
  len ← read_len
  if len == 0
      then pure (plain ptr)
      else if not (len == size)
      then panic
      else do payload ← read_bytes taken; pure (with_bytes ptr payload)

-- `ARG_PTR.Parse` of a pointer to a number
unfoldable pub parse_number_ptr : ℕ → Reads Parsed
parse_number_ptr ptr = do
  len ← read_len
  value ← (if len == 8 then read_num 8 else pure 0)
  pure (with_value ptr value)

-- the loop of `parse_STRING_ARRAY`
unfoldable pub parse_texts : ℕ → Reads (List (ℕ × List ℕ))
parse_texts zero = pure []
parse_texts (suc n) = do
  let more = parse_texts n
  address ← read_address
  len ← read_len
  if len == strarr_magic_len then pure [] else do
    payload ← read_bytes len
    if address == 0 then pure [] else do results ← more; pure ((address, payload) ∷ results)

-- the loop of `parse_IOVEC`
unfoldable pub parse_vectors : ℕ → Reads (List (ℕ × ℕ × List ℕ))
parse_vectors zero = pure []
parse_vectors (suc n) = do
  _ ← read_len
  base ← read_num 8
  buf_len ← read_num 8
  len ← read_len
  payload ← read_bytes len
  results ← parse_vectors n
  pure ((base, buf_len, payload) ∷ results)

-- MAX_IOV_COUNT
abbrev pub max_iov_count : ℕ
max_iov_count = 6

-- `int(iovcnt.Address)` is negative from 2 ^ 63 on
unfoldable pub iov_read_count : ℕ → ℕ
iov_read_count n = if ltb n max_iov_count then n else if ltb n (2 ^ 63) then max_iov_count else 0

-- `Parse` with `parse_more`
unfoldable pub parse_more : Kind → ℕ → Reads Parsed
unfolding parse_text parse_struct parse_number_ptr
parse_more number ptr = pure (plain ptr)
parse_more text ptr = parse_text ptr
parse_more std_text ptr = parse_text ptr
parse_more buffer ptr = parse_text ptr
parse_more (structure size taken) ptr = parse_struct size taken ptr
parse_more number_ptr ptr = parse_number_ptr ptr
parse_more texts ptr = do results ← parse_texts max_loop_count; pure (with_texts ptr results)
parse_more vectors ptr = do
  count ← read_address
  results ← parse_vectors (iov_read_count count)
  pure (with_vectors ptr results)

-- `PointArg.Parse` behind its register; the flag says whether the argument is read at this point
unfoldable pub parse_arg : Kind × Bool → Reads Parsed
parse_arg (kind, more) = do
  ptr ← read_address
  if more then parse_more kind ptr else pure (plain ptr)

-- `ParseEnterPoint` and `ParseExitPoint`
unfoldable pub parse_point : List (Kind × Bool) → Reads (List Parsed)
parse_point [] = pure []
parse_point (arg ∷ args) = do
  result ← parse_arg arg
  results ← parse_point args
  pure (result ∷ results)

-- EBPF_SYS_ENTER and those that follow it
abbrev pub ebpf_sys_enter : ℕ
ebpf_sys_enter = 1

abbrev pub ebpf_sys_exit : ℕ
ebpf_sys_exit = 2

abbrev pub ebpf_sys_all : ℕ
ebpf_sys_all = 3

abbrev pub ebpf_uprobe_enter : ℕ
ebpf_uprobe_enter = 4

abbrev pub ebpf_uprobe_exit : ℕ
ebpf_uprobe_exit = 5

-- `PointArg`, of which the type is told by its kind
pub record PointArg : Type 0 where
  pub kind : Kind
  pub reg_index : ℕ
  pub extra_op_list : List ℕ
  pub filter_index_list : List ℕ
  pub point_type : ℕ
  pub group_type : ℕ
  pub is_ret : Bool

-- `parse_more` of `PointArg.Parse`
unfoldable pub reads_at : ℕ → PointArg → Kind × Bool
reads_at point_type arg = (arg.kind, arg.point_type == ebpf_sys_all || arg.point_type == point_type)
