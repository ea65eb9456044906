-- ===== src/Filtering.antt =====
-- src/common/filtering.h: whether an event of a task is traced. The function is a sequence of
-- tests that return early; each test is an optional verdict, and the first verdict counts.
pub mod Spec
pub mod Overlap
use stackplz.Base.{
  ℕ, ◌+◌, ◌%◌, ◌^◌, bit_and, Bool, true, false, ◌&&◌, Option, none, some, leb, ◌==◌, if◌then◌else◌,
}
use stackplz.Types.{
  ConfigEntry, EventContext, CommonFilter, uid_whitelist_start, uid_blacklist_start,
  pid_whitelist_start, pid_blacklist_start, tid_whitelist_start, tid_blacklist_start,
  thread_name_whitelist, thread_name_blacklist, group_root, group_system, group_shell, group_app,
  group_iso,
}
use stackplz.Kernel.{Config}

-- `return` if there is a verdict, else go on
infixr 20 ◌orelse◌
abbrev pub ◌orelse◌ : Option ℕ → ℕ → ℕ
none orelse v = v
some v orelse w = v

-- own process
unfoldable pub check_self : ConfigEntry → EventContext → Option ℕ
check_self config context = if config.stackplz_pid == context.pid then some 0 else none

-- thread name, by its entry in `thread_filter`
unfoldable pub check_name : ConfigEntry → Option ℕ → Option ℕ
check_name config none = if config.thread_whitelist == 1 then some 0 else none
check_name config (some flag) =
    if flag == thread_name_blacklist
    then some 0
    else if flag == thread_name_whitelist
    then some 1
    else none

-- `bpf_map_lookup_elem(&common_list, &key)`, with `key = START + id` of 32 bits
unfoldable pub listed : Config → ℕ → ℕ → Option ℕ
listed cfg start id = cfg.common_list ((start + id) % 2 ^ 32)

abbrev pub verdict : Option ℕ → ℕ → Option ℕ
verdict none v = none
verdict (some _) v = some v

unfoldable pub has_group : CommonFilter → ℕ → Bool
has_group f g = bit_and f.trace_uid_group g == g

-- the groups of users
unfoldable pub check_group : CommonFilter → ℕ → ℕ
unfolding has_group
check_group f uid =
    if has_group f group_root && uid == 0
    then 1
    else if has_group f group_system && uid == 1000
    then 1
    else if has_group f group_shell && uid == 2000
    then 1
    else if has_group f group_app && leb 10000 uid && leb uid 19999
    then 1
    else if has_group f group_iso && leb 99000 uid && leb uid 99999
    then 1
    else 0

unfoldable pub check_groups : Option CommonFilter → ℕ → ℕ
unfolding check_group
check_groups none uid = 0
check_groups (some f) uid = check_group f uid

-- `child_parent_map` is kept by the fork handler.
unfoldable pub should_trace : Config → (ℕ → Option ℕ) → ConfigEntry → EventContext → ℕ
unfolding check_self check_name listed check_groups
should_trace cfg child_parent_map config context =
    check_self config context
    orelse check_name config (cfg.thread_filter context.comm)
    orelse verdict (listed cfg tid_blacklist_start context.tid) 0
    orelse verdict (listed cfg tid_whitelist_start context.tid) 1
    orelse verdict (listed cfg pid_blacklist_start context.pid) 0
    orelse verdict (listed cfg pid_whitelist_start context.pid) 1
    orelse verdict (child_parent_map context.pid) 1
    orelse verdict (listed cfg uid_blacklist_start context.uid) 0
    orelse verdict (listed cfg uid_whitelist_start context.uid) 1
    orelse check_groups cfg.common_filter context.uid
