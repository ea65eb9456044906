-- ===== src/Buffer/StrArr.antt =====
-- `save_str_arr_to_buf` of src/common/buffer.h: an array of strings, up to 128 of them. No program
-- of the repository calls it.
use stackplz.Base.{
  ℕ, zero, suc, ◌+◌, ◌-◌, ◌*◌, ◌%◌, ◌&&◌, Bool, true, false, [], ◌∷◌, ltb, ◌==◌, if◌then◌else◌,
  length, le_bytes, le_value,
}
use stackplz.Types.{EventData, args_buf_size, max_string_size}
use stackplz.Kernel.{Kernel, Source, copy_bytes, is_copied}
use stackplz.Event.{Run, ok, ◌>>=◌, store, advance, count_arg}
use stackplz.Buffer.{sizeof_int}

abbrev pub max_str_arr_elem : ℕ
max_str_arr_elem = 128

-- One string, behind its size; the answer is false where the source goes to `out`.
unfoldable pub save_elem : EventData → Source → Run (Bool × EventData)
save_elem e text =
    if ltb (args_buf_size - max_string_size - sizeof_int) e.buf_off then ok (false, e) else do
      let got = text max_string_size
      let sz = length (copy_bytes got)
      e ← store e (e.buf_off + sizeof_int) (copy_bytes got)
      if is_copied got && ltb 0 sz
          then (if ltb (args_buf_size - sizeof_int) e.buf_off then ok (false, e) else do
            e ← store e e.buf_off (le_bytes sizeof_int sz)
            ok (true, advance e (sz + sizeof_int)))
          else ok (false, e)

-- The loop over the pointers from index `i` on, then the "..." of a longer array. `ellipsis` is
-- what a read of that local text yields.
unfoldable pub save_elems : Kernel → Source → ℕ → ℕ → ℕ → ℕ → EventData → Run (ℕ × EventData)
unfolding save_elem
save_elems k ellipsis ptr zero i num e = do
  (saved, e) ← save_elem e ellipsis
  ok (if saved then (num + 1) % 256 else num, e)
save_elems k ellipsis ptr (suc n) i num e =
    let argp = le_value (copy_bytes (k.probe_read_user (ptr + 8 * i) 8)) in
    let rest = save_elems k ellipsis ptr n (i + 1) ((num + 1) % 256) in
    if argp == 0 then ok (num, e) else do
      (saved, e) ← save_elem e (k.probe_read_user_str argp)
      if saved then rest e else ok (num, e)

unfoldable pub save_str_arr_to_buf : Kernel → Source → EventData → ℕ → ℕ → Run (ℕ × EventData)
unfolding save_elems
save_str_arr_to_buf k ellipsis e ptr index =
    if ltb (args_buf_size - 1) e.buf_off then ok (0, e) else do
      let orig_off = e.buf_off + 1
      e ← store e e.buf_off (index ∷ [])
      (elem_num, e) ← save_elems k ellipsis ptr max_str_arr_elem 0 0 (advance e 2)
      if ltb (args_buf_size - 1) orig_off
          then ok (0, e)
          else do e ← store e orig_off (elem_num ∷ []); ok (1, count_arg e)
