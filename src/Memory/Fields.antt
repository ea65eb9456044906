-- ===== src/Memory/Fields.antt =====
-- What the getters read of a task's memory descriptor, and of a mount.
use stackplz.Base.{
  ℕ, ◌+◌, ◌^◌, ◌<◌, ◌≡◌, refl, ◌⊎◌, inl, inr, arith, replicate, le_bytes, le_value-le_bytes,
  length-le_bytes,
}
use stackplz.Kernel.{Kernel, copied, faulted}
use stackplz.ReadArgs.State.{u64, overlay}
use stackplz.Memory.{
  Layout, read_kern, read_field, get_mm_from_task, get_arg_start_from_mm, get_arg_end_from_mm,
  get_env_start_from_mm, get_env_end_from_mm, real_mount,
}

-- The kernel's memory holds the number in the eight bytes of the field, or the read of the field
-- faults and leaves zeros, and the number is 0.
abbrev pub Reads : Kernel → ℕ → ℕ → ℕ → Type 0
Reads k base offset v =
    (k.probe_read (u64 (base + offset)) 8 ≡ copied (le_bytes 8 v)) × (v < 2 ^ 64)
    ⊎ (k.probe_read (u64 (base + offset)) 8 ≡ faulted (replicate 8 0)) × (v ≡ 0)

read_field_lem :
    (k : Kernel) (base offset v : ℕ) → Reads k base offset v → read_field k base offset ≡ v
unfolding read_field read_kern overlay
read_field_lem k base offset v (inl (e, h)) =
    rw e (omega (arith, le_value-le_bytes 8 v (omega (arith, h)), length-le_bytes 8 v))
read_field_lem k base offset v (inr (e, h)) = rw (e, h) refl

-- The memory of a task: its descriptor, and where its arguments and its environment lie.
pub record HasMm (k : Kernel) (l : Layout) (task mm a b c d : ℕ) : Type 0 where
  pub mm_field : Reads k task l.task_mm mm
  pub arg_start_field : Reads k mm l.arg_start a
  pub arg_end_field : Reads k mm l.arg_end b
  pub env_start_field : Reads k mm l.env_start c
  pub env_end_field : Reads k mm l.env_end d

-- From a task, the getters yield where its arguments and its environment lie, as the fields of its
-- memory descriptor say, and 0 for a field whose read faults.
pub get_mm_from_task_lem :
    (k : Kernel) (l : Layout) (task mm a b c d : ℕ)
    → HasMm k l task mm a b c d
    → (get_arg_start_from_mm k l (get_mm_from_task k l task) ≡ a)
      × (get_arg_end_from_mm k l (get_mm_from_task k l task) ≡ b)
      × (get_env_start_from_mm k l (get_mm_from_task k l task) ≡ c)
      × (get_env_end_from_mm k l (get_mm_from_task k l task) ≡ d)
unfolding get_arg_start_from_mm get_arg_end_from_mm get_env_start_from_mm get_env_end_from_mm
    get_mm_from_task
get_mm_from_task_lem k l task mm a b c d has =
    rw (read_field_lem k task l.task_mm mm has.mm_field) (
      read_field_lem k mm l.arg_start a has.arg_start_field,
      read_field_lem k mm l.arg_end b has.arg_end_field,
      read_field_lem k mm l.env_start c has.env_start_field,
      read_field_lem k mm l.env_end d has.env_end_field,
    )

real_mount_lem :
    (l : Layout) (m : ℕ)
    → m < 2 ^ 64
    → l.mount_mnt < 2 ^ 64
    → real_mount l (u64 (m + l.mount_mnt)) ≡ m
unfolding real_mount
real_mount_lem l m h h' = omega (arith, h, h')
