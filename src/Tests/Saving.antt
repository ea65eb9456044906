-- ===== src/Tests/Saving.antt =====
-- Arguments saved into a blank record.
use stackplz.Base.{◌≡◌, arith, ◌∷◌, []}
use stackplz.Kernel.{variable, variable-Fills}
use stackplz.Event.{ok}
use stackplz.Event.Stream.{stream, emit, IsValid}
use stackplz.Buffer.{save_to_submit_buf, save_bytes_to_buf, save_str_to_buf, clip_size}
use stackplz.Buffer.Submit.{seen, save_to_submit_buf-saved}
use stackplz.Buffer.Bytes.{save_bytes_to_buf-saved}
use stackplz.Buffer.Str.{save_str_to_buf-saved}
use stackplz.Buffer.StrArr.{save_str_arr_to_buf}
use stackplz.Buffer.StrArrTotal.{Stays, save_str_arr_to_buf-Stays}
use stackplz.Tests.{blank, zeros, ab, kernel, kernel-IsKernel}
use stackplz.Base.{length-replicate}

blank-IsValid : IsValid blank
blank-IsValid = record { within = omega arith }

save_to_submit_buf-saved_example :
    seen (save_to_submit_buf blank (variable 258) 4 7)
    ≡ ok (1, emit (stream blank) (7 ∷ 2 ∷ 1 ∷ 0 ∷ 0 ∷ []))
save_to_submit_buf-saved_example =
    save_to_submit_buf-saved blank (variable 258) 4 7 blank-IsValid (variable-Fills 258)
      (omega arith)

save_bytes_to_buf-saved_example :
    seen (save_bytes_to_buf blank zeros 3 7)
    ≡ ok (1, emit (stream blank) (7 ∷ 3 ∷ 0 ∷ 0 ∷ 0 ∷ 0 ∷ 0 ∷ 0 ∷ []))
unfolding clip_size
save_bytes_to_buf-saved_example =
    save_bytes_to_buf-saved blank zeros 3 7 blank-IsValid (λ n. length-replicate n 0)

save_str_to_buf-saved_example :
    seen (save_str_to_buf blank ab 7)
    ≡ ok (1, emit (stream blank) (7 ∷ 3 ∷ 0 ∷ 0 ∷ 0 ∷ b'a' ∷ b'b' ∷ 0 ∷ []))
save_str_to_buf-saved_example =
    save_str_to_buf-saved blank ab 7 blank-IsValid (kernel-IsKernel.read_str_fits 0)

save_str_arr_to_buf-Stays_example : Stays (save_str_arr_to_buf kernel ab blank 8 7)
save_str_arr_to_buf-Stays_example =
    save_str_arr_to_buf-Stays kernel ab blank 8 7 kernel-IsKernel (kernel-IsKernel.read_str_fits 0)
      (omega arith)
