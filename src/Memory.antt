-- ===== src/Memory.antt =====
-- src/memory.h: single fields of the kernel's structures, read with READ_KERN of
-- src/common/common.h.
pub mod Fields
use stackplz.Base.{ℕ, ◌+◌}
use stackplz.Kernel.{Kernel, copy_bytes}
use stackplz.ReadArgs.State.{u64, sub64, overlay}

-- The offsets of the fields in their structures, which are generated from the kernel.
pub record Layout : Type 0 where
  pub task_mm : ℕ
  pub arg_start : ℕ
  pub arg_end : ℕ
  pub env_start : ℕ
  pub env_end : ℕ
  pub vm_flags : ℕ
  pub vm_start : ℕ
  pub vm_end : ℕ
  pub mount_mnt : ℕ

-- `READ_KERN`: a variable of so many bytes is cleared, then read over; the status is dropped
unfoldable pub read_kern : Kernel → ℕ → ℕ → ℕ
unfolding overlay
read_kern k size addr = overlay (copy_bytes (k.probe_read addr size)) 0

-- a field of eight bytes, a pointer or an `unsigned long`
unfoldable pub read_field : Kernel → ℕ → ℕ → ℕ
unfolding read_kern
read_field k base offset = read_kern k 8 (u64 (base + offset))

module _ (k : Kernel) (l : Layout) where
  unfoldable pub get_mm_from_task : ℕ → ℕ
  unfolding read_field
  get_mm_from_task task = read_field k task l.task_mm

  unfoldable pub get_arg_start_from_mm : ℕ → ℕ
  unfolding read_field
  get_arg_start_from_mm mm = read_field k mm l.arg_start

  unfoldable pub get_arg_end_from_mm : ℕ → ℕ
  unfolding read_field
  get_arg_end_from_mm mm = read_field k mm l.arg_end

  unfoldable pub get_env_start_from_mm : ℕ → ℕ
  unfolding read_field
  get_env_start_from_mm mm = read_field k mm l.env_start

  unfoldable pub get_env_end_from_mm : ℕ → ℕ
  unfolding read_field
  get_env_end_from_mm mm = read_field k mm l.env_end

  unfoldable pub get_vma_flags : ℕ → ℕ
  unfolding read_field
  get_vma_flags vma = read_field k vma l.vm_flags

  unfoldable pub get_vma_start : ℕ → ℕ
  unfolding read_field
  get_vma_start vma = read_field k vma l.vm_start

  unfoldable pub get_vma_end : ℕ → ℕ
  unfolding read_field
  get_vma_end vma = read_field k vma l.vm_end

-- `container_of`
unfoldable pub real_mount : Layout → ℕ → ℕ
real_mount l mnt = sub64 mnt l.mount_mnt
