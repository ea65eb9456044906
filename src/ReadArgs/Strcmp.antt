-- ===== src/ReadArgs/Strcmp.antt =====
-- `make_str_buf` and `strcmp_by_map` of src/common/buffer.h: whether the string just saved begins
-- with the text of a filter, decided by a lookup in a map that holds the text for the moment.
use stackplz.Base.{
  ℕ, Bool, true, false, ◌&&◌, Option, none, some, List, [], ◌∷◌, ltb, ◌==◌, if◌then◌else◌,
  replicate,
}
use stackplz.Types.{OpCtx, ArgFilter, max_strcmp_len}
use stackplz.Kernel.{Kernel, copy_bytes}
use stackplz.ReadArgs.State.{Strs}

unfoldable pub same_bytes : List ℕ → List ℕ → Bool
same_bytes [] [] = true
same_bytes (x ∷ xs) (y ∷ ys) = x == y && same_bytes xs ys
same_bytes _ _ = false

-- a copy over the front of an array
unfoldable pub overwrite : List ℕ → List ℕ → List ℕ
overwrite [] old = old
overwrite (b ∷ bs) [] = []
overwrite (b ∷ bs) (c ∷ old) = b ∷ overwrite bs old

-- `bpf_map_update_elem(&str_buf, …)` and `bpf_map_delete_elem(&str_buf, …)`
unfoldable pub put_str : Kernel → Strs → List ℕ → ℕ → Strs
put_str k s key v =
    if k.str_buf_room s.str_buf key
    then record s { str_buf = λ j. if same_bytes j key then some v else s.str_buf j }
    else s

unfoldable pub delete_str : Strs → List ℕ → Strs
delete_str s key = record s { str_buf = λ j. if same_bytes j key then none else s.str_buf j }

-- a write through the pointer to this thread's element of `str_buf_map`
unfoldable pub set_buf : Kernel → Strs → List ℕ → Strs
set_buf k s v = record s {
  str_buf_map = λ id. if id == k.pid_tgid then some v else s.str_buf_map id;
}

unfoldable pub make_str_buf : Kernel → Strs → Option (List ℕ) × Strs
make_str_buf k s = elim k.str_buf_gen [
  | none ↦ (none, s)
  | some gen_key ↦
      let map = k.str_buf_lru s.str_buf_map k.pid_tgid gen_key in
      (map k.pid_tgid, record s { str_buf_map = map })
]

unfoldable pub zeroed : List ℕ
zeroed = replicate 256 0

-- the number of bytes that are compared
unfoldable pub read_str_len : ArgFilter → ℕ
read_str_len filter = if ltb max_strcmp_len filter.str_len then max_strcmp_len else filter.str_len

-- the bytes at the address of the string, in a zeroed buffer
unfoldable pub str_value : Kernel → OpCtx → ArgFilter → List ℕ
unfolding read_str_len overwrite zeroed
str_value k c filter =
    overwrite (copy_bytes (k.probe_read c.read_addr (read_str_len filter))) zeroed

-- the text goes into the map, the lookup decides, and the text comes out again
unfoldable pub lookup_value : Kernel → Strs → List ℕ → ArgFilter → ℕ × Strs
unfolding put_str delete_str read_str_len
lookup_value k s value filter =
    let s' = put_str k s filter.str_val (read_str_len filter) in
    elim (s'.str_buf value) [
      | none ↦ (0, delete_str s' filter.str_val)
      | some _ ↦ (1, delete_str s' filter.str_val)
    ]

unfoldable pub lookup_str : Kernel → Strs → OpCtx → ArgFilter → ℕ × Strs
unfolding set_buf lookup_value str_value
lookup_str k s c filter =
    let value = str_value k c filter in lookup_value k (set_buf k s value) value filter

-- with the buffer that `make_str_buf` gave
unfoldable pub compare_in : Option (List ℕ) → Kernel → Strs → OpCtx → ArgFilter → ℕ × Strs
unfolding set_buf lookup_str zeroed
compare_in none k s c filter = (0, s)
compare_in (some _) k s c filter =
    let s' = set_buf k s zeroed in
    if ltb c.str_len filter.str_len then (0, s') else lookup_str k s' c filter

unfoldable pub strcmp_by_map : Kernel → Strs → OpCtx → ArgFilter → ℕ × Strs
unfolding make_str_buf compare_in
strcmp_by_map k s c filter =
    let (str_value, s') = make_str_buf k s in compare_in str_value k s' c filter
