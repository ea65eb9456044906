-- ===== src/Tests/Reading.antt =====
-- The reader on a program of two operations, and the comparison of strings.
use stackplz.Base.{ℕ, ◌≡◌, ◌≢◌, ◌≤◌, ◌↔◌, refl, none, List, replicate, arith}
use stackplz.Types.{ArgFilter}
use stackplz.Event.{ok}
use stackplz.Event.Stream.{stream, IsValid}
use stackplz.Event.Entries.{Extends}
use stackplz.ReadArgs.{read_args}
use stackplz.ReadArgs.State.{Reader}
use stackplz.ReadArgs.Strcmp.{make_str_buf, str_value, strcmp_by_map}
use stackplz.ReadArgs.Safe.{read_args-Extends}
use stackplz.ReadArgs.Match.{strcmp_by_map_iff}
use stackplz.Programs.Submit.{read_regs}
use stackplz.Tests.{
  kernel, kernel-IsKernel, target, config, point, interrupted, reader, blank, blank_op, no_strs,
}

read_args-Extends_example :
    (r' : Reader) × (read_args kernel target config point (read_regs interrupted) reader ≡ ok r')
    × IsValid r'.event
    × Extends (stream blank) (stream r'.event)
read_args-Extends_example =
    read_args-Extends kernel target config point (read_regs interrupted) reader kernel-IsKernel
      (record { within = omega arith })

-- two zeros to look for
abbrev two_zeros : ArgFilter
two_zeros = record { filter_type = 4; str_val = replicate 256 0; str_len = 2; num_val = 0 }

has_buffer : (make_str_buf kernel no_strs).0 ≢ none
unfolding make_str_buf
has_buffer e = cc

strcmp_by_map_iff_example :
    (((strcmp_by_map kernel no_strs blank_op two_zeros).0 ≡ 1)
      ↔ ((2 ≤ 3) × (str_value kernel blank_op two_zeros ≡ replicate 256 0)))
    × ((key : List ℕ) → (strcmp_by_map kernel no_strs blank_op two_zeros).1.str_buf key ≡ none)
strcmp_by_map_iff_example =
    strcmp_by_map_iff kernel no_strs blank_op two_zeros (λ key. refl, λ m key. refl) has_buffer
