-- ===== src/Buffer/StrArrTotal.antt =====
-- `save_str_arr_to_buf` stays inside the buffer.
use stackplz.Base.{
  ℕ, zero, suc, ◌+◌, ◌-◌, ◌*◌, ◌%◌, ◌≤◌, ◌≡◌, refl, arith, ◌&&◌, true, false, [], ◌∷◌, ltb, ◌==◌,
  if◌then◌else◌, length, le_bytes, length-le_bytes, le_value, write, Bool-cases, inl, inr,
}
use stackplz.Types.{EventData, args_buf_size, max_string_size}
use stackplz.Kernel.{Kernel, IsKernel, Source, FitsIn, copy_bytes, is_copied}
use stackplz.Event.{Run, ok, advance, count_arg}
use stackplz.Event.Stream.{store-ok}
use stackplz.Buffer.{sizeof_int}
use stackplz.Buffer.StrArr.{save_elem, save_elems, save_str_arr_to_buf, max_str_arr_elem}

-- The call returns, and its offset is at most two past the end.
abbrev pub Stays : {A : Type 0} → Run (A × EventData) → Type 0
Stays {A} run = (a : A) × (e : EventData) × (run ≡ ok (a, e)) × (e.buf_off ≤ args_buf_size + 1)

save_elem-Stays :
    (e : EventData) (text : Source)
    → FitsIn text
    → e.buf_off ≤ args_buf_size + 1
    → Stays (save_elem e text)
unfolding save_elem advance
save_elem-Stays e text fits h =
    elim (Bool-cases (ltb (args_buf_size - max_string_size - sizeof_int) e.buf_off)) [
      | inl full ↦ rw full (false, e, refl, h)
      | inr room ↦
          let bs = copy_bytes (text max_string_size) in
          let e1 : EventData = record e { args = write e.args (e.buf_off + sizeof_int) bs } in
          let fit = fits max_string_size in
          rw (room, store-ok e (e.buf_off + sizeof_int) bs (ground arith))
            (elim (Bool-cases (is_copied (text max_string_size) && ltb 0 (length bs))) [
              | inl yes_ ↦
                  let tight : ltb (args_buf_size - sizeof_int) e.buf_off ≡ false = ground arith in
                  let head = le_bytes sizeof_int (length bs) in
                  let e2 : EventData = record e1 { args = write e1.args e.buf_off head } in
                  let sent =
                    store-ok e1 e.buf_off head
                      (ground (arith, length-le_bytes sizeof_int (length bs))) in
                  rw (yes_, tight, sent)
                    (true, advance e2 (length bs + sizeof_int), refl, ground arith)
              | inr no_ ↦ rw no_ (false, e1, refl, h)
            ])
    ]

save_elems-Stays :
    (k : Kernel) (law : IsKernel k) (ellipsis : Source)
    → FitsIn ellipsis
    → (ptr n i num : ℕ) (e : EventData) → e.buf_off ≤ args_buf_size + 1
    → Stays (save_elems k ellipsis ptr n i num e)
unfolding save_elems
save_elems-Stays k law ellipsis fits ptr zero i num e h =
    let (saved, e', r, h') = save_elem-Stays e ellipsis fits h in
    rw r (if saved then (num + 1) % 256 else num, e', refl, h')
save_elems-Stays k law ellipsis fits ptr (suc n) i num e h =
    let argp = le_value (copy_bytes (k.probe_read_user (ptr + 8 * i) 8)) in
    let (saved, e', r, h') =
      save_elem-Stays e (k.probe_read_user_str argp) (law.read_user_str_fits argp) h in
    elim (Bool-cases (argp == 0)) [
      | inl z ↦ rw z (num, e, refl, h)
      | inr n_ ↦
          rw (n_, r)
            (elim (Bool-cases saved) [
              | inl y ↦
                  rw y (save_elems-Stays k law ellipsis fits ptr n (i + 1) ((num + 1) % 256) e' h')
              | inr x ↦ rw x (num, e', refl, h')
            ])
    ]

-- `save_str_arr_to_buf` returns from every record whose offset lies in the buffer: none of its
-- writes leaves the buffer, but the offset may end one past it.
pub save_str_arr_to_buf-Stays :
    (k : Kernel) (ellipsis : Source) (e : EventData) (ptr index : ℕ)
    → IsKernel k
    → FitsIn ellipsis
    → e.buf_off ≤ args_buf_size
    → Stays (save_str_arr_to_buf k ellipsis e ptr index)
unfolding save_str_arr_to_buf advance count_arg
save_str_arr_to_buf-Stays k ellipsis e ptr index law fits v =
    elim (Bool-cases (ltb (args_buf_size - 1) e.buf_off)) [
      | inl full ↦ rw full (0, e, refl, ground arith)
      | inr room ↦
          let e1 : EventData = record e { args = write e.args e.buf_off (index ∷ []) } in
          let (num, e2, r, h) =
            save_elems-Stays k law ellipsis fits ptr max_str_arr_elem 0 0 (advance e1 2)
              (ground arith) in
          rw (room, store-ok e e.buf_off (index ∷ []) (ground arith), r)
            (elim (Bool-cases (ltb (args_buf_size - 1) (e.buf_off + 1))) [
              | inl late ↦ rw late (0, e2, refl, h)
              | inr early ↦
                  rw (early, store-ok e2 (e.buf_off + 1) (num ∷ []) (ground arith))
                    (
                      1,
                      count_arg (record e2 { args = write e2.args (e.buf_off + 1) (num ∷ []) }),
                      refl,
                      h,
                    )
            ])
    ]
