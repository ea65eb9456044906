-- ===== src/Configuration/Texts.antt =====
-- A filter on a text, from what the user writes to the strings that match in the kernel.
use stackplz.Base.{
  ℕ, ◌≤◌, ◌≡◌, ◌≢◌, ◌↔◌, refl, ap, arith, false, none, some, List, [], ◌∷◌, leb, length, replicate,
  length-replicate,
}
use stackplz.Types.{OpCtx}
use stackplz.Kernel.{Kernel, IsKernel, copy_bytes}
use stackplz.ReadArgs.State.{Strs}
use stackplz.ReadArgs.Strcmp.{
  overwrite, make_str_buf, read_str_len, str_value, strcmp_by_map, zeroed,
}
use stackplz.ReadArgs.Match.{Ready, strcmp_by_map_iff}
use stackplz.Configuration.Filters.{UserFilter, blank_filter, to_ebpf_value, text_filter}

overwrite_injective :
    (xs ys old : List ℕ)
    → length xs ≡ length ys
    → length ys ≤ length old
    → overwrite xs old ≡ overwrite ys old
    → xs ≡ ys
unfolding overwrite
overwrite_injective [] [] old n fits e = refl
overwrite_injective [] (y ∷ ys) old n fits e = absurd (omega arith)
overwrite_injective (x ∷ xs) [] old n fits e = absurd (omega arith)
overwrite_injective (x ∷ xs) (y ∷ ys) [] n fits e = absurd (omega arith)
overwrite_injective (x ∷ xs) (y ∷ ys) (o ∷ old) n fits e =
    let head : x ≡ y = cc in
    let rest : overwrite xs old ≡ overwrite ys old = cc in
    let tail = overwrite_injective xs ys old (omega arith) (omega arith) rest in
    rw (head, tail) refl

-- The user writes a text of at most 256 bytes: `AddFilter` makes a filter of it. Where the map of
-- texts is empty and takes every entry, and this thread has a buffer, `strcmp_by_map` finds that a
-- string matches exactly where it is at least as long as the text and the kernel reads the bytes
-- of the text at its address.
pub strcmp_by_map-text_filter :
    (type_ : ℕ) (text : List ℕ) (k : Kernel) (s : Strs) (c : OpCtx)
    → length text ≤ 256
    → IsKernel k
    → Ready k s
    → (make_str_buf k s).0 ≢ none
    → (f : UserFilter) × (text_filter type_ text ≡ some f)
      × (((strcmp_by_map k s c (to_ebpf_value f)).0 ≡ 1) ↔ (
          (length text ≤ c.str_len) × (copy_bytes (k.probe_read c.read_addr (length text)) ≡ text)))
unfolding text_filter to_ebpf_value str_value read_str_len zeroed
strcmp_by_map-text_filter type_ text k s c small law ready buffer =
    let fits : leb 257 (length text) ≡ false = ground arith in
    let f = record blank_filter {
      filter_type = type_;
      str_len = length text;
      str_val = overwrite text (replicate 256 0);
    } in
    let whole : read_str_len (to_ebpf_value f) ≡ length text = ground arith in
    let (found, match) = (strcmp_by_map_iff k s c (to_ebpf_value f) ready buffer).0 in
    let read = copy_bytes (k.probe_read c.read_addr (length text)) in
    let sized : length read ≡ length text = law.read_fills c.read_addr (length text) in
    (
      f,
      rw (text_filter, fits) refl,
      (
        (λ h.
            let (long, same) = found h in
            (
              long,
              overwrite_injective read text (replicate 256 0) sized
                  (omega (arith, length-replicate {A = ℕ} 256 0)) (rw (str_value, whole) at same),
            )),
        (λ h. match (h.0, rw (str_value, whole) (ap (λ x. overwrite x (replicate 256 0)) h.1))),
      ),
    )
