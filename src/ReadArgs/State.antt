-- ===== src/ReadArgs/State.antt =====
-- The state of `read_args` (src/utils.h): the event record, the registers `op_ctx`, and the two
-- maps through which strings are compared.
use stackplz.Base.{ℕ, ◌+◌, ◌-◌, ◌*◌, ◌/◌, ◌%◌, ◌^◌, Option, List, bit_and, le_value, length}
use stackplz.Types.{EventData, OpCtx}

-- `str_buf`, by its 256 bytes of key, and `str_buf_map`, by thread.
pub record Strs : Type 0 where
  pub str_buf : List ℕ → Option ℕ
  pub str_buf_map : ℕ → Option (List ℕ)

pub record Reader : Type 0 where
  pub event : EventData
  pub op : OpCtx
  pub strs : Strs

-- How one operation ends: `break` out of the switch, `return 0`, or a write outside the buffer.
pub data Step : Type 0 where
  next : Reader → Step
  stop : Reader → Step
  crash : Step

abbrev pub with_op : Reader → OpCtx → Step
with_op r c = next (record r { op = c })

-- Unsigned arithmetic.
abbrev pub u8 : ℕ → ℕ
u8 n = n % 256

abbrev pub u32 : ℕ → ℕ
u32 n = n % 2 ^ 32

abbrev pub u64 : ℕ → ℕ
u64 n = n % 2 ^ 64

abbrev pub sub64 : ℕ → ℕ → ℕ
sub64 a b = (a + 2 ^ 64 - b) % 2 ^ 64

-- `addr & 0xffffffffffff`, which drops a memory tag
unfoldable pub untag : ℕ → ℕ
untag a = bit_and a 0xffff_ffff_ffff

-- A variable of eight bytes after the bytes `bs` are copied over its low end.
unfoldable pub overlay : List ℕ → ℕ → ℕ
overlay bs old = le_value bs + old / 256 ^ length bs * 256 ^ length bs
