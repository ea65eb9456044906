-- ===== src/Configuration/Filters.antt =====
-- user/config/config_filter.go: the filters that the user writes, numbered as they are added, and
-- the map `arg_filter` that the modules fill with them (`user/module/syscall.go`).
use stackplz.Base.{
  ℕ, ◌+◌, ◌-◌, ◌*◌, ◌/◌, ◌%◌, ◌^◌, Bool, false, ◌||◌, Option, none, some, List, [], ◌∷◌, ◌++◌, ◌==◌,
  leb, if◌then◌else◌, length, take, replicate, le_value,
}
use stackplz.Types.{
  ArgFilter, equal_filter, greater_filter, less_filter, whitelist_filter, blacklist_filter,
}
use stackplz.ReadArgs.Strcmp.{same_bytes, overwrite}
use stackplz.Configuration.{◌>>=◌}
use stackplz.Configuration.Numbers.{str_to_num64, decode_hex}
use stackplz.Configuration.Numerals.{decimal}
use stackplz.Configuration.Hex.{be_value, be_bytes}

-- `ArgFilter` of user space; the struct of the kernel's map is `EArgFilter`
pub record UserFilter : Type 0 where
  pub filter_str : List ℕ
  pub filter_type : ℕ
  pub filter_index : ℕ
  pub num_val : ℕ
  pub str_val : List ℕ
  pub str_len : ℕ

-- `ArgFilter{}`
abbrev pub blank_filter : UserFilter
blank_filter = record {
  filter_str = [];
  filter_type = 0;
  filter_index = 0;
  num_val = 0;
  str_val = replicate 256 0;
  str_len = 0;
}

-- `Match`
unfoldable pub is_named : List ℕ → UserFilter → Bool
is_named name f =
    if f.filter_index == 0 then false else same_bytes name (b'f' ∷ decimal (f.filter_index - 1))

-- `IsStr`
unfoldable pub is_str : UserFilter → Bool
is_str f = f.filter_type == whitelist_filter || f.filter_type == blacklist_filter

-- `ToEbpfValue`
unfoldable pub to_ebpf_value : UserFilter → ArgFilter
to_ebpf_value f = record {
  filter_type = f.filter_type;
  str_val = f.str_val;
  str_len = f.str_len;
  num_val = f.num_val;
}

-- `GetFilterByName`
unfoldable pub get_filter_by_name : List UserFilter → List ℕ → Option UserFilter
unfolding is_named
get_filter_by_name [] name = none
get_filter_by_name (f ∷ fs) name = if is_named name f then some f else get_filter_by_name fs name

-- `GetFilterIndex`
unfoldable pub get_filter_index : List UserFilter → List ℕ → Option ℕ
unfolding get_filter_by_name
get_filter_index fs name = do f ← get_filter_by_name fs name; some f.filter_index

-- `strings.SplitN(filter, ":", 2)`, where it has two parts
unfoldable pub split_colon : List ℕ → Option (List ℕ × List ℕ)
split_colon [] = none
split_colon (c ∷ cs) =
    let rest = split_colon cs in
    if c == b':' then some ([], cs) else (do (word, value) ← rest; some (c ∷ word, value))

-- the number of bytes that are compared, at the low end of eight: a read of eight bytes is cut by
-- this shift
abbrev pub cut : List ℕ → ℕ
cut bs = (8 - length bs) * 8

-- eight bytes, the highest first, read the other way round
abbrev pub swapped : ℕ → List ℕ → ℕ
swapped v bs = le_value (be_bytes 8 v) / 2 ^ cut bs

-- "addr": `ip` is `net.ParseIP(…).To4()`
unfoldable pub addr_filter : (List ℕ → Option (List ℕ)) → List ℕ → Option UserFilter
unfolding be_value
addr_filter ip text = elim (ip text) [
  | none ↦ none
  | some bs ↦
      if leb 9 (length bs)
      then none
      else if leb 4 (length bs)
      then some (record blank_filter {
        filter_type = whitelist_filter;
        str_len = cut bs;
        num_val = swapped (be_value 0 (take 4 bs)) bs;
      })
      else none
]

-- "bx" and "bufhex"
unfoldable pub hex_filter : List ℕ → Option UserFilter
unfolding decode_hex str_to_num64
hex_filter text = elim (decode_hex text) [
  | none ↦ none
  | some bs ↦ if leb 9 (length bs) then none else (do
    v ← str_to_num64 (b'0' ∷ b'x' ∷ text)
    some (record blank_filter {
      filter_type = whitelist_filter;
      str_len = cut bs;
      num_val = swapped v bs;
    }))
]

-- "eq", "gt" and "lt"
unfoldable pub number_filter : ℕ → List ℕ → Option UserFilter
unfolding str_to_num64
number_filter type_ text = do
  v ← str_to_num64 text
  some (record blank_filter { filter_type = type_; num_val = v })

-- "w" and "b"
unfoldable pub text_filter : ℕ → List ℕ → Option UserFilter
unfolding overwrite
text_filter type_ text =
    if leb 257 (length text)
    then none
    else some (record blank_filter {
      filter_type = type_;
      str_len = length text;
      str_val = overwrite text (replicate 256 0);
    })

-- the words of a `case`
unfoldable pub is_case : List ℕ → List (List ℕ) → Bool
unfolding same_bytes
is_case word [] = false
is_case word (w ∷ ws) = same_bytes word w || is_case word ws

abbrev pub addr_words : List (List ℕ)
addr_words = (b'a' ∷ b'd' ∷ b'd' ∷ b'r' ∷ []) ∷ []

abbrev pub hex_words : List (List ℕ)
hex_words = (b'b' ∷ b'x' ∷ []) ∷ (b'b' ∷ b'u' ∷ b'f' ∷ b'h' ∷ b'e' ∷ b'x' ∷ []) ∷ []

abbrev pub equal_words : List (List ℕ)
equal_words = (b'e' ∷ b'q' ∷ []) ∷ (b'e' ∷ b'q' ∷ b'u' ∷ b'a' ∷ b'l' ∷ []) ∷ []

abbrev pub greater_words : List (List ℕ)
greater_words = (b'g' ∷ b't' ∷ []) ∷ (b'g' ∷ b'r' ∷ b'e' ∷ b'a' ∷ b't' ∷ b'e' ∷ b'r' ∷ []) ∷ []

abbrev pub less_words : List (List ℕ)
less_words = (b'l' ∷ b't' ∷ []) ∷ (b'l' ∷ b'e' ∷ b's' ∷ b's' ∷ []) ∷ []

abbrev pub white_words : List (List ℕ)
white_words = (b'w' ∷ []) ∷ (b'w' ∷ b'h' ∷ b'i' ∷ b't' ∷ b'e' ∷ []) ∷ []

abbrev pub black_words : List (List ℕ)
black_words = (b'b' ∷ []) ∷ (b'b' ∷ b'l' ∷ b'a' ∷ b'c' ∷ b'k' ∷ []) ∷ []

-- the switch of `AddFilter`
unfoldable pub read_filter : (List ℕ → Option (List ℕ)) → List ℕ → List ℕ → Option UserFilter
unfolding addr_filter hex_filter number_filter text_filter is_case
read_filter ip word text =
    if is_case word addr_words
    then addr_filter ip text
    else if is_case word hex_words
    then hex_filter text
    else if is_case word equal_words
    then number_filter equal_filter text
    else if is_case word greater_words
    then number_filter greater_filter text
    else if is_case word less_words
    then number_filter less_filter text
    else if is_case word white_words
    then text_filter whitelist_filter text
    else if is_case word black_words
    then text_filter blacklist_filter text
    else none

-- the search of `AddFilter`: the index of a filter that was written the same
unfoldable pub written_before : List UserFilter → List ℕ → Option ℕ
unfolding same_bytes
written_before [] text = none
written_before (f ∷ fs) text =
    if same_bytes f.filter_str text then some f.filter_index else written_before fs text

-- the end of `AddFilter`: the new filter gets the next number
unfoldable pub append_filter : List UserFilter → UserFilter → ℕ × List UserFilter
append_filter fs f =
    let f = record f { filter_index = (length fs + 1) % 2 ^ 32 } in (f.filter_index, fs ++ f ∷ [])

-- `AddFilter`: the index, and the filters with the new one
unfoldable pub add_filter :
    (List ℕ → Option (List ℕ)) → List UserFilter → List ℕ → Option (ℕ × List UserFilter)
unfolding written_before split_colon read_filter append_filter
add_filter ip fs text = elim (written_before fs text) [
  | some i ↦ some (i, fs)
  | none ↦ do
    (word, value) ← split_colon text
    f ← read_filter ip word value
    some (append_filter fs f)
]

-- The loop that fills the map `arg_filter`; where an update fails, the module panics.
unfoldable pub load_filters :
    ((ℕ → Option ArgFilter) → ℕ → Bool)
    → List UserFilter
    → (ℕ → Option ArgFilter)
    → Option (ℕ → Option ArgFilter)
unfolding to_ebpf_value
load_filters room [] m = some m
load_filters room (f ∷ fs) m =
    let m' : ℕ → Option ArgFilter =
      λ key. if key == f.filter_index then some (to_ebpf_value f) else m key in
    let rest = load_filters room fs m' in if room m f.filter_index then rest else none
