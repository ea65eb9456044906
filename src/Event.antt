-- ===== src/Event.antt =====
-- The event record under construction (`event_data_t` of src/types.h): writes into its argument
-- buffer, and what of it will be submitted.
pub mod Entries
pub mod Stream
use stackplz.Base.{
  ℕ, ◌+◌, ◌%◌, ◌^◌, ◌≡◌, Option, none, some, List, leb, if◌then◌else◌, length, write,
}
use stackplz.Types.{EventData, EventContext, args_buf_size}

-- The result of code that writes through an offset; `fault` is a write outside `args`, which in
-- the source would overwrite `buf_off` and what follows it.
pub data Run {ℓ} (A : Type ℓ) : Type ℓ where
  ok : A → Run A
  fault : Run A

infixl 5 ◌>>=◌
abbrev pub ◌>>=◌ {ℓ κ} : {A : Type ℓ} {B : Type κ} → Run A → (A → Run B) → Run B
ok a >>= f = f a
fault >>= f = fault

abbrev pub map_run {ℓ κ} : {A : Type ℓ} {B : Type κ} → (A → B) → Run A → Run B
map_run f (ok a) = ok (f a)
map_run f fault = fault

-- The bytes `bs` written to `args` from offset `off` on.
unfoldable pub store : EventData → ℕ → List ℕ → Run EventData
store e off bs =
    if leb (off + length bs) args_buf_size
    then ok (record e { args = write e.args off bs })
    else fault

-- `buf_off += n`
unfoldable pub advance : EventData → ℕ → EventData
advance e n = record e { buf_off = (e.buf_off + n) % 2 ^ 32 }

-- `context.argnum++`, of a `u8`
unfoldable pub count_arg : EventData → EventData
count_arg e = record e { context = record e.context { argnum = (e.context.argnum + 1) % 256 } }
