-- ===== src/Tests/Fields.antt =====
-- A memory whose words hold their own address and one more.
use stackplz.Base.{◌≡◌, refl, arith, inl, ◌+◌}
use stackplz.Kernel.{Kernel, variable}
use stackplz.Memory.{
  Layout, get_mm_from_task, get_arg_start_from_mm, get_arg_end_from_mm, get_env_start_from_mm,
  get_env_end_from_mm,
}
use stackplz.Memory.Fields.{HasMm, get_mm_from_task_lem}
use stackplz.Tests.{kernel}

abbrev words : Kernel
words = record kernel { probe_read = λ a. variable (a + 1) }

abbrev layout : Layout
layout = record {
  task_mm = 1000;
  arg_start = 300;
  arg_end = 308;
  env_start = 316;
  env_end = 324;
  vm_flags = 80;
  vm_start = 0;
  vm_end = 8;
  mount_mnt = 32;
}

words-HasMm : HasMm words layout 4096 5097 5398 5406 5414 5422
words-HasMm = record {
  mm_field = inl (refl, omega arith);
  arg_start_field = inl (refl, omega arith);
  arg_end_field = inl (refl, omega arith);
  env_start_field = inl (refl, omega arith);
  env_end_field = inl (refl, omega arith);
}

get_mm_from_task_lem_example :
    (get_arg_start_from_mm words layout (get_mm_from_task words layout 4096) ≡ 5398)
    × (get_arg_end_from_mm words layout (get_mm_from_task words layout 4096) ≡ 5406)
    × (get_env_start_from_mm words layout (get_mm_from_task words layout 4096) ≡ 5414)
    × (get_env_end_from_mm words layout (get_mm_from_task words layout 4096) ≡ 5422)
get_mm_from_task_lem_example =
    get_mm_from_task_lem words layout 4096 5097 5398 5406 5414 5422 words-HasMm
