-- ===== src/Kernel.antt =====
-- What the BPF programs take from the kernel. The helpers are not part of the repository: they
-- are the fields of `Kernel`, and `IsKernel` states what is documented of them.
use stackplz.Base.{
  ℕ, ◌≤◌, ◌≡◌, Bool, true, false, Option, List, length, le_bytes, length-le_bytes, if◌then◌else◌,
}
use stackplz.Types.{CommonFilter, ArgFilter, ConfigEntry, OpConfig, PointArgs}

-- What a `bpf_probe_read*` did: the bytes that it left at the destination, and whether it
-- reports success (a status of 0, or the length of a string) or a fault (a negative status).
pub data Copy : Type 0 where
  copied : List ℕ → Copy
  faulted : List ℕ → Copy

abbrev pub copy_bytes : Copy → List ℕ
copy_bytes (copied bs) = bs
copy_bytes (faulted bs) = bs

abbrev pub is_copied : Copy → Bool
is_copied (copied bs) = true
is_copied (faulted bs) = false

-- A pointer that is handed on to a `bpf_probe_read`: what a read of a given size yields.
abbrev pub Source : Type 0
Source = ℕ → Copy

-- A read of a given size fills that many bytes, with a fault too: the destination is then zeroed.
abbrev pub Fills : Source → Type 0
Fills src = (n : ℕ) → length (copy_bytes (src n)) ≡ n

-- A read of a string fills at most the size of the buffer.
abbrev pub FitsIn : Source → Type 0
FitsIn src = (n : ℕ) → length (copy_bytes (src n)) ≤ n

-- The address of a variable on the program's own stack or in its own map, which
-- the source reads with exactly that size.
abbrev pub variable : ℕ → Source
variable v n = copied (le_bytes n v)

pub variable-Fills : (v : ℕ) → Fills (variable v)
variable-Fills v n = length-le_bytes n v

-- Addresses are numbers below 2 ^ 64. `room` says whether a hash map takes an update (it
-- refuses a new key when it is full); an LRU map makes room by itself, dropping what it likes.
pub record Kernel : Type 0 where
  pub probe_read : ℕ → Source
  pub probe_read_user : ℕ → Source
  pub probe_read_str : ℕ → Source
  pub probe_read_user_str : ℕ → Source
  pub pid_tgid : ℕ
  pub str_buf_gen : Option (List ℕ)
  pub str_buf_room : (List ℕ → Option ℕ) → List ℕ → Bool
  pub str_buf_lru : (ℕ → Option (List ℕ)) → ℕ → List ℕ → ℕ → Option (List ℕ)

pub record IsKernel (k : Kernel) : Type 0 where
  pub read_fills : (a : ℕ) → Fills (k.probe_read a)
  pub read_user_fills : (a : ℕ) → Fills (k.probe_read_user a)
  pub read_str_fits : (a : ℕ) → FitsIn (k.probe_read_str a)
  pub read_user_str_fits : (a : ℕ) → FitsIn (k.probe_read_user_str a)

-- The maps that user space fills before the programs run; the programs only look entries up.
pub record Config : Type 0 where
  pub op_list : ℕ → Option OpConfig
  pub arg_filter : ℕ → Option ArgFilter
  pub common_list : ℕ → Option ℕ
  pub thread_filter : List ℕ → Option ℕ
  pub common_filter : Option CommonFilter
  pub base_config : Option ConfigEntry
  pub sysenter_point_args : ℕ → Option PointArgs
  pub sysexit_point_args : ℕ → Option PointArgs
  pub uprobe_point_args : ℕ → Option PointArgs
  pub uretprobe_point_args : ℕ → Option PointArgs

-- How the programs are compiled: for 32-bit ARM or not, and with which MAX_OP_COUNT.
pub record Target : Type 0 where
  pub is_arm : Bool
  pub max_op_count : ℕ

abbrev pub ptr_size : Target → ℕ
ptr_size t = if t.is_arm then 4 else 8
