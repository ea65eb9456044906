-- ===== src/ReadArgs/Filters.antt =====
-- The filtering operations of `read_args` (src/utils.h). A match is noted in the registers; what
-- it means for the event is decided at the end of the reader.
use stackplz.Base.{
  ℕ, ◌-◌, ◌/◌, ◌%◌, ◌^◌, bit_and, Bool, false, ◌&&◌, none, some, leb, ◌==◌, if◌then◌else◌, not,
}
use stackplz.Types.{
  OpConfig, ArgFilter, equal_filter, greater_filter, less_filter, whitelist_filter,
  blacklist_filter,
}
use stackplz.Kernel.{Kernel, Config, copy_bytes}
use stackplz.ReadArgs.State.{Reader, Step, next, stop, with_op, untag, overlay}
use stackplz.ReadArgs.Strcmp.{strcmp_by_map}

-- OP_FILTER_VALUE: whether a filter rejects the value of a register
unfoldable pub rejects_value : ArgFilter → ℕ → Bool
rejects_value f v =
    if f.filter_type == equal_filter
    then not (f.num_val == v)
    else if f.filter_type == greater_filter
    then leb f.num_val v
    else if f.filter_type == less_filter
    then leb v f.num_val
    else false

unfoldable pub filter_value : ArgFilter → Reader → Step
unfolding rejects_value
filter_value f r =
    if rejects_value f r.op.reg_value
    then with_op r (record r.op { match_blacklist = 1 })
    else next r

-- OP_FILTER_BUFFER: eight bytes at the address, cut by the filter's shift. A shift of 64 or more
-- is undefined in the source; the machine takes it modulo 64.
unfoldable pub matches_buffer : Kernel → ArgFilter → ℕ → Bool
unfolding untag overlay
matches_buffer k f addr =
    let ptr = untag addr in
    let got = overlay (copy_bytes (k.probe_read_user ptr 8)) ptr in
    f.num_val == bit_and got ((2 ^ 64 - 1) / 2 ^ (f.str_len % 64))

unfoldable pub filter_buffer : Kernel → ArgFilter → Reader → Step
unfolding matches_buffer
filter_buffer k f r =
    if f.filter_type == whitelist_filter
    then with_op r (record r.op {
      apply_filter = 1;
      match_whitelist = if matches_buffer k f r.op.read_addr then 1 else r.op.match_whitelist;
    })
    else next r

-- OP_FILTER_STRING
unfoldable pub filter_string : Kernel → ArgFilter → Reader → Step
filter_string k f r =
    let (is_match, strs) = strcmp_by_map k r.strs r.op f in
    let r' = record r { strs = strs } in
    if f.filter_type == whitelist_filter
    then with_op r' (record r.op {
      apply_filter = 1;
      match_whitelist = if is_match == 0 then r.op.match_whitelist else 1;
    })
    else if f.filter_type == blacklist_filter && not (is_match == 0)
    then with_op r' (record r.op { match_blacklist = 1 })
    else next r'

-- the filter of an operation; without it the reader returns
unfoldable pub with_filter : Config → OpConfig → Reader → (ArgFilter → Reader → Step) → Step
with_filter cfg op r f = elim (cfg.arg_filter op.value) [ none ↦ stop r | some a ↦ f a r ]
