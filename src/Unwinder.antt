-- ===== src/Unwinder.antt =====
-- user/event/load_so.c: the stack unwinder, a shared library that is opened once. The C library's
-- `dlopen`, `dlsym` and `dlclose` are parameters; the calls that open and close are recorded.
pub mod Safety
use stackplz.Base.{ℕ, Bool, true, false, Option, none, some, List, [], ◌∷◌, ◌++◌, take, ◌≡◌}

pub data Symbol : Type 0 where
  stack_plz stack_plz_v2 : Symbol

-- What `dlopen` returns for a path (`none` is NULL), and `dlsym` for a symbol of a library: the
-- address, and whether `dlerror` reports an error afterwards.
pub record Dl : Type 0 where
  pub dlopen : List ℕ → Option ℕ
  pub dlsym : ℕ → Symbol → Option ℕ × Bool

-- dlsym(3): on an error it returns NULL.
pub record IsDl (d : Dl) : Type 0 where
  pub error_null : (g : ℕ) (s : Symbol) → (d.dlsym g s).1 ≡ true → (d.dlsym g s).0 ≡ none

pub data DlCall : Type 0 where
  opened closed : ℕ → DlCall

-- `g_handle`, `g_fptr` and `g_fptrv2`, and the calls so far, the latest first.
pub record Unwinder : Type 0 where
  pub handle : Option ℕ
  pub fptr : Option ℕ
  pub fptrv2 : Option ℕ
  pub calls : List DlCall

abbrev pub start : Unwinder
start = record { handle = none; fptr = none; fptrv2 = none; calls = [] }

-- the statuses 0 and -1
pub data Status : Type 0 where
  success failure : Status

-- "/libstackplz.so"
abbrev library_suffix : List ℕ
library_suffix =
    b'/' ∷ b'l' ∷ b'i' ∷ b'b' ∷ b's' ∷ b't' ∷ b'a' ∷ b'c' ∷ b'k' ∷ b'p' ∷ b'l' ∷ b'z' ∷ b'.' ∷ b's'
    ∷ b'o' ∷ []

-- what `snprintf` leaves in 256 bytes, without the final zero
unfoldable pub full_path : List ℕ → List ℕ
full_path dl_path = take 255 (dl_path ++ library_suffix)

-- `g_fptrv2` of an opened library, or its end
unfoldable pub load_v2 : Dl → ℕ → Unwinder → Status × Unwinder
load_v2 d g u =
    let (f, failed) = d.dlsym g stack_plz_v2 in
    elim failed [
      | false ↦ (success, record u { fptrv2 = f })
      | true ↦
          (failure, record u { handle = none; fptr = none; fptrv2 = f; calls = closed g ∷ u.calls })
    ]

-- `g_fptr` of an opened library, or its end
unfoldable pub load_v1 : Dl → ℕ → Unwinder → Status × Unwinder
unfolding load_v2
load_v1 d g u =
    let (f, failed) = d.dlsym g stack_plz in
    elim failed [
      | false ↦ load_v2 d g (record u { fptr = f })
      | true ↦ (failure, record u { handle = none; fptr = f; calls = closed g ∷ u.calls })
    ]

-- what `dlopen` gave
unfoldable pub load : Dl → Option ℕ → Unwinder → Status × Unwinder
unfolding load_v1
load d none u = (failure, record u { handle = none })
load d (some g) u = load_v1 d g (record u { handle = some g; calls = opened g ∷ u.calls })

-- with the value of `g_handle` first
unfoldable pub init_from : Dl → List ℕ → Option ℕ → Unwinder → Status × Unwinder
unfolding load full_path
init_from d dl_path (some _) u = (success, u)
init_from d dl_path none u = load d (d.dlopen (full_path dl_path)) u

unfoldable pub init_stack_unwinder : Dl → List ℕ → Unwinder → Status × Unwinder
unfolding init_from
init_stack_unwinder d dl_path u = init_from d dl_path u.handle u

unfoldable pub close_from : Option ℕ → Unwinder → Unwinder
close_from none u = u
close_from (some g) u = record {
  handle = none;
  fptr = none;
  fptrv2 = none;
  calls = closed g ∷ u.calls;
}

unfoldable pub close_stack_unwinder : Unwinder → Unwinder
unfolding close_from
close_stack_unwinder u = close_from u.handle u

-- Which function `get_stack` and `get_stackv2` call; `none` is the result NULL without a call.
unfoldable pub get_stack : Unwinder → Option ℕ
get_stack u = u.fptr

unfoldable pub get_stackv2 : Unwinder → Option ℕ
get_stackv2 u = u.fptrv2
