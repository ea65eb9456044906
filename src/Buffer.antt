-- ===== src/Buffer.antt =====
-- src/common/buffer.h: the functions that save an argument into the event record. Each returns
-- its status beside the record.
pub mod Bytes
pub mod Str
pub mod Total
pub mod StrArr
pub mod StrArrTotal
pub mod Submit
use stackplz.Base.{
  ℕ, zero, suc, ◌+◌, ◌-◌, ◌%◌, ◌^◌, bit_and, Bool, true, false, List, [], ◌∷◌, ltb, leb, ◌==◌,
  if◌then◌else◌, length, le_bytes,
}
use stackplz.Types.{EventData, EventContext, args_buf_size, max_string_size, max_bytes_arr_size}
use stackplz.Kernel.{Copy, copied, faulted, Source, copy_bytes, is_copied, variable}
use stackplz.Event.{Run, ok, fault, ◌>>=◌, store, advance, count_arg}

-- sizeof(struct sockaddr_un) and sizeof(int)
abbrev pub max_element_size : ℕ
max_element_size = 110

abbrev pub sizeof_int : ℕ
sizeof_int = 4

-- `ptr` stands for what `bpf_probe_read` yields there.
unfoldable pub save_to_submit_buf : EventData → Source → ℕ → ℕ → Run (ℕ × EventData)
save_to_submit_buf e ptr size index =
    if size == 0 then ok (0, e) else if ltb (args_buf_size - 1) e.buf_off then ok (0, e) else do
      e ← store e e.buf_off (index ∷ [])
      if ltb (args_buf_size - (max_element_size + 1)) e.buf_off then ok (0, e) else do
        let got = ptr size
        e ← store e (e.buf_off + 1) (copy_bytes got)
        if is_copied got then ok (1, count_arg (advance e (size + 1))) else ok (0, e)

-- `size = size & (MAX_BYTES_ARR_SIZE - 1)` unless it is MAX_BYTES_ARR_SIZE
unfoldable pub clip_size : ℕ → ℕ
clip_size size = if size == max_bytes_arr_size then size else bit_and size (max_bytes_arr_size - 1)

-- the bytes of a non-empty array, whose header is written
unfoldable pub save_bytes_body : EventData → Source → ℕ → Run (ℕ × EventData)
save_bytes_body e ptr size = do
  let got = ptr size
  e ← store e (e.buf_off + 1 + sizeof_int) (copy_bytes got)
  if is_copied got then ok (1, count_arg (advance e (size + 1 + sizeof_int))) else ok (0, e)

-- The read of the local `size` does not fail.
unfoldable pub save_bytes_to_buf : EventData → Source → ℕ → ℕ → Run (ℕ × EventData)
unfolding save_bytes_body clip_size
save_bytes_to_buf e ptr size index = if ltb (args_buf_size - 1) e.buf_off then ok (0, e) else do
  e ← store e e.buf_off (index ∷ [])
  if ltb (args_buf_size - (sizeof_int + 1)) e.buf_off then ok (0, e) else do
    e ← store e (e.buf_off + 1) (le_bytes sizeof_int size)
    if ltb (args_buf_size - (max_bytes_arr_size + 1 + sizeof_int)) e.buf_off
        then ok (0, e)
        else if ltb 0 size
        then save_bytes_body e ptr (clip_size size)
        else ok (1, count_arg (advance e (size + 1 + sizeof_int)))

-- the size of a string whose bytes are written; the source checks the offset once more
unfoldable pub save_str_header : EventData → ℕ → Run (ℕ × EventData)
save_str_header e sz =
    if ltb (args_buf_size - (max_string_size + 1 + sizeof_int)) e.buf_off then ok (0, e) else do
      e ← store e (e.buf_off + 1) (le_bytes sizeof_int sz)
      ok (1, count_arg (advance e (sz + sizeof_int + 1)))

-- `ptr` stands for what `bpf_probe_read_str` yields there: `sz` is the number of bytes copied.
unfoldable pub save_str_to_buf : EventData → Source → ℕ → Run (ℕ × EventData)
unfolding save_str_header
save_str_to_buf e ptr index = if ltb (args_buf_size - 1) e.buf_off then ok (0, e) else do
  e ← store e e.buf_off (index ∷ [])
  if ltb (args_buf_size - (max_string_size + 1 + sizeof_int)) e.buf_off then ok (0, e) else do
    let got = ptr max_string_size
    e ← store e (e.buf_off + 1 + sizeof_int) (copy_bytes got)
    if is_copied got then save_str_header e (length (copy_bytes got)) else ok (0, e)
