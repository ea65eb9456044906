-- ===== src/Tests/Configuring.antt =====
-- Filters as a user writes them.
use stackplz.Base.{
  ℕ, ◌≡◌, ◌≢◌, ◌↔◌, ◌≤◌, refl, arith, true, Option, none, some, List, [], ◌∷◌, ◌++◌, ◌==◌,
  if◌then◌else◌, replicate, take,
}
use stackplz.Types.{blacklist_filter}
use stackplz.Kernel.{Config}
use stackplz.ReadArgs.Filters.{matches_buffer}
use stackplz.ReadArgs.Strcmp.{make_str_buf, strcmp_by_map}
use stackplz.Compiler.Runs.Filters.{AreLoaded, admits_value}
use stackplz.Configuration.Numbers.{str_to_num64, decode_hex}
use stackplz.Configuration.Numerals.{decimal, str_to_num64-decimal}
use stackplz.Configuration.Filters.{
  UserFilter, to_ebpf_value, hex_filter, text_filter, append_filter, add_filter, get_filter_index,
  load_filters,
}
use stackplz.Configuration.Added.{AreNumbered, Appended, add_filter-Appends}
use stackplz.Configuration.Found.{get_filter_index-decimal}
use stackplz.Configuration.Compared.{greater, compared, written, Keeps, admits_value-written}
use stackplz.Configuration.Matched.{hex_filter-matches}
use stackplz.Configuration.Texts.{strcmp_by_map-text_filter}
use stackplz.Tests.{kernel, kernel-IsKernel, config, no_strs, blank_op}

-- No text is an address.
abbrev no_ip : List ℕ → Option (List ℕ)
no_ip text = none

str_to_num64-decimal_example : str_to_num64 (decimal 4096) ≡ some 4096
str_to_num64-decimal_example = str_to_num64-decimal 4096 (omega arith)

-- `gt:5`, and the same once more
abbrev one_filter : List UserFilter
one_filter =
    record {
      filter_str = [];
      filter_type = 2;
      filter_index = 1;
      num_val = 5;
      str_val = replicate 256 0;
      str_len = 0;
    }
    ∷ []

abbrev two_filters : List UserFilter
two_filters =
    one_filter
    ++ record {
      filter_str = [];
      filter_type = 2;
      filter_index = 2;
      num_val = 5;
      str_val = replicate 256 0;
      str_len = 0;
    }
      ∷ []

one_filter-AreNumbered : AreNumbered one_filter
one_filter-AreNumbered = ((refl, refl), tt)

add_filter-Appends_example : Appended one_filter 2 two_filters
unfolding add_filter
add_filter-Appends_example =
    add_filter-Appends no_ip one_filter b'g' (b't' ∷ b':' ∷ b'5' ∷ []) 2 two_filters
      one_filter-AreNumbered (omega arith) refl

get_filter_index-decimal_example : get_filter_index two_filters (b'f' ∷ decimal 1) ≡ some 2
get_filter_index-decimal_example =
    get_filter_index-decimal two_filters 1 ((refl, refl), ((refl, refl), tt)) (omega arith)
      (omega arith)

-- the kernel's maps, with the second filter loaded
abbrev filtering : Config
filtering = record config {
  arg_filter = λ key.
      if key == 2
      then some (to_ebpf_value (record (compared greater 7) { filter_index = 2 }))
      else if key == 1
      then some (to_ebpf_value (record (compared greater 5) { filter_index = 1 }))
      else none;
}

admits_value-written_example :
    (add_filter no_ip one_filter (written greater 7)
      ≡ some (2, (append_filter one_filter (compared greater 7)).1))
    × AreLoaded filtering (2 ∷ [])
    × ((v : ℕ) → (admits_value filtering v (2 ∷ []) ≡ true) ↔ Keeps greater 7 v)
unfolding load_filters append_filter
admits_value-written_example =
    admits_value-written no_ip (λ m key. true) one_filter greater 7 filtering (λ key. none)
      one_filter-AreNumbered (omega arith) (omega arith) refl

-- the bytes 7f 45 4c 46; memory holds zeros
abbrev elf : List ℕ
elf = 127 ∷ 69 ∷ 76 ∷ 70 ∷ []

abbrev elf_text : List ℕ
elf_text = b'7' ∷ b'f' ∷ b'4' ∷ b'5' ∷ b'4' ∷ b'C' ∷ b'4' ∷ b'6' ∷ []

hex_filter-matches_example :
    (f : UserFilter) × (hex_filter elf_text ≡ some f)
    × ((matches_buffer kernel (to_ebpf_value f) 4096 ≡ true) ↔ (take 4 (replicate 8 0) ≡ elf))
unfolding decode_hex
hex_filter-matches_example =
    hex_filter-matches kernel 4096 kernel-IsKernel (omega arith) elf_text elf refl (omega arith)
      (omega arith)

has_buffer : (make_str_buf kernel no_strs).0 ≢ none
unfolding make_str_buf
has_buffer e = cc

strcmp_by_map-text_filter_example :
    (f : UserFilter) × (text_filter blacklist_filter (b'a' ∷ b'b' ∷ []) ≡ some f)
    × (((strcmp_by_map kernel no_strs blank_op (to_ebpf_value f)).0 ≡ 1)
        ↔ ((2 ≤ 3) × (replicate {A = ℕ} 2 0 ≡ b'a' ∷ b'b' ∷ [])))
strcmp_by_map-text_filter_example =
    strcmp_by_map-text_filter blacklist_filter (b'a' ∷ b'b' ∷ []) kernel no_strs blank_op
      (omega arith) kernel-IsKernel (λ key. refl, λ m key. refl) has_buffer
