-- ===== src/Compiler/Runs/Args.antt =====
-- An argument, from its compiled operations to what the decoder reads.
use stackplz.Base.{
  ℕ, ◌<◌, ◌≤◌, ◌^◌, ◌≡◌, refl, arith, ◌⊎◌, inl, inr, List, [], ◌∷◌, ◌==◌, if◌then◌else◌, Bool, true,
  false, length, le_value,
}
use stackplz.Types.{reg_arm64_max, max_bytes_arr_size, max_string_size}
use stackplz.Kernel.{Kernel, Target, IsKernel, Copy, copied, faulted, copy_bytes}
use stackplz.Event.Entries.{word, block}
use stackplz.Decoder.Args.{
  Kind, number, text, std_text, buffer, number_ptr, texts, vectors, structure, Parsed, plain,
  with_bytes, with_value, PointArg,
}
use stackplz.Decoder.Saves.{
  IsWhole, Saves, a_number, a_text, a_structure, no_structure, a_pointee, no_pointee,
}
use stackplz.ReadArgs.Exec.{std_string_data}
use stackplz.ReadArgs.State.{untag}
use stackplz.ReadArgs.Blocks.{contents}
use stackplz.Compiler.Ops.{text_filters, max_buf_read_size}
use stackplz.Compiler.Runs.Kinds.{IsSimple, pointed, pointed_entries}

-- What the decoder tells of an argument, by the bytes that it stands for.
unfoldable pub told : ℕ → Kind → List ℕ → Parsed
told v number bs = plain v
told v number_ptr bs = with_value v (le_value bs)
told v (structure n taken) bs = if length bs == 0 then plain v else with_bytes v bs
told v _ bs = with_bytes v bs

-- The same of an argument that is read at a point or not, by its value and an address.
unfoldable pub printed : Kernel → Target → ℕ → ℕ → Kind × Bool → Parsed
unfolding told pointed
printed k t v a (kind, false) = plain v
printed k t v a (kind, true) = told v kind (pointed k t a kind)

contents-cases :
    (c : Copy) (n : ℕ) → length (copy_bytes c) ≡ n → (length (contents c) ≡ n) ⊎ (contents c ≡ [])
contents-cases (copied bs) n h = inl h
contents-cases (faulted bs) n h = inr refl

pub contents-le : (c : Copy) (n : ℕ) → length (copy_bytes c) ≤ n → length (contents c) ≤ n
contents-le (copied bs) n h = h
contents-le (faulted bs) n h = omega arith

module _ (k : Kernel) (law : IsKernel k) (t : Target) where
  struct-Saves :
      (i j v n taken : ℕ) (bs : List ℕ)
      → v < 2 ^ 64
      → (0 < n) × (n ≤ max_bytes_arr_size)
      → taken ≡ n
      → (length bs ≡ n) ⊎ (bs ≡ [])
      → Saves
          (structure n taken, true)
          (told v (structure n taken) bs)
          (word 8 i v ∷ block j bs ∷ [])
  unfolding told
  struct-Saves i j v n taken bs h s whole (inl e) =
      let there : (length bs == 0) ≡ false = ground arith in
      rw there (a_structure i j v n taken bs h (omega arith) (ground arith) e whole)
  struct-Saves i j v n taken bs h s whole (inr e) = rw e (no_structure i j v h)

  pointer-Saves :
      (i j v : ℕ) (bs : List ℕ)
      → v < 2 ^ 64
      → (length bs ≡ 8) ⊎ (bs ≡ [])
      → Saves (number_ptr, true) (told v number_ptr bs) (word 8 i v ∷ block j bs ∷ [])
  unfolding told
  pointer-Saves i j v bs h (inl e) = a_pointee i j v bs h e
  pointer-Saves i j v bs h (inr e) = rw e (no_pointee i j v h)

  pub pointed-Saves :
      (i j v a : ℕ) (kind : Kind)
      → v < 2 ^ 64
      → IsSimple kind
      → IsWhole kind
      → Saves
          (kind, true)
          (told v kind (pointed k t a kind))
          (word 8 i v ∷ pointed_entries k t j a kind)
  unfolding told pointed
  pointed-Saves i j v a number h s whole = a_number i v h
  pointed-Saves i j v a text h s whole = a_text i j v _ refl h (
      omega (
        arith,
        contents-le (k.probe_read_str (untag a) max_string_size) max_string_size
            (law.read_str_fits (untag a) max_string_size),
      ))
  pointed-Saves i j v a std_text h s whole = a_text i j v _ refl h (
      omega (
        arith,
        contents-le (k.probe_read_str (untag (std_string_data k t a)) max_string_size)
            max_string_size (law.read_str_fits (untag (std_string_data k t a)) max_string_size),
      ))
  pointed-Saves i j v a buffer h s whole = a_text i j v _ refl h (
      omega (
        arith,
        contents-le (k.probe_read (untag a) max_buf_read_size) max_buf_read_size
            (omega (arith, law.read_fills (untag a) max_buf_read_size)),
      ))
  pointed-Saves i j v a number_ptr h s whole =
      pointer-Saves i j v _ h
        (contents-cases (k.probe_read (untag a) 8) 8 (law.read_fills (untag a) 8))
  pointed-Saves i j v a (structure n taken) h s whole =
      struct-Saves i j v n taken _ h s whole
        (contents-cases (k.probe_read (untag a) n) n (law.read_fills (untag a) n))
  pointed-Saves i j v a texts h s whole = absurd s
  pointed-Saves i j v a vectors h s whole = absurd s

-- An argument whose type has no loop, with no filter but on its value, from a register at the entry
-- of a point.
pub record IsBare (point_type : ℕ) (arg : PointArg) : Type 0 where
  pub filters : text_filters arg ≡ []
  pub register : arg.reg_index < reg_arm64_max
  pub kind : IsSimple arg.kind
  pub group : arg.group_type ≡ point_type
