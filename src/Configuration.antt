-- ===== src/Configuration.antt =====
-- What user space does with its configuration before the programs run: the numbers and the filters
-- that the user writes (user/util/helper.go, user/config/config_filter.go). A text is the list of
-- its bytes; `none` stands for a panic, which ends the program.
pub mod Numbers
pub mod Numerals
pub mod Hex
pub mod Filters
pub mod Added
pub mod Found
pub mod Compared
pub mod Matched
pub mod Texts
use stackplz.Base.{Option, none, some}

infixl 5 ◌>>=◌
abbrev pub ◌>>=◌ {ℓ κ} : {A : Type ℓ} {B : Type κ} → Option A → (A → Option B) → Option B
◌>>=◌ none f = none
◌>>=◌ (some a) f = f a
