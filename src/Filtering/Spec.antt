-- ===== src/Filtering/Spec.antt =====
-- What `should_trace` decides, described without its order of tests.
use stackplz.Base.{
  ℕ, ◌≡◌, ◌≢◌, ◌↔◌, ◌⊎◌, inl, inr, true, Option, none, some, arith, ◌==◌, ◌≤◌, Bool-cases, refl,
}
use stackplz.Types.{
  ConfigEntry, EventContext, CommonFilter, uid_whitelist_start, uid_blacklist_start,
  pid_whitelist_start, pid_blacklist_start, tid_whitelist_start, tid_blacklist_start,
  thread_name_whitelist, thread_name_blacklist, group_root, group_system, group_shell, group_app,
  group_iso,
}
use stackplz.Kernel.{Config}
use stackplz.Filtering.{
  listed, has_group, check_group, check_groups, check_name, should_trace, verdict, ◌orelse◌,
}

abbrev pub Listed : Option ℕ → Type 0
Listed o = o ≢ none

-- The user belongs to a group that is traced.
abbrev pub InGroup : CommonFilter → ℕ → Type 0
InGroup f uid =
    ((has_group f group_root ≡ true) × (uid ≡ 0))
    ⊎ ((has_group f group_system ≡ true) × (uid ≡ 1000))
    ⊎ ((has_group f group_shell ≡ true) × (uid ≡ 2000))
    ⊎ ((has_group f group_app ≡ true) × (10000 ≤ uid) × (uid ≤ 19999))
    ⊎ ((has_group f group_iso ≡ true) × (99000 ≤ uid) × (uid ≤ 99999))

check_group_iff : (f : CommonFilter) (uid : ℕ) → (check_group f uid ≡ 1) ↔ InGroup f uid
unfolding check_group
check_group_iff f uid = (λ h. ground arith, λ h. ground arith)

abbrev pub InGroups : Option CommonFilter → ℕ → Type 0
InGroups none uid = ⊥
InGroups (some f) uid = InGroup f uid

check_groups_iff : (o : Option CommonFilter) (uid : ℕ) → (check_groups o uid ≡ 1) ↔ InGroups o uid
unfolding check_groups
check_groups_iff none uid = (λ h. omega arith, λ h. absurd h)
check_groups_iff (some f) uid = check_group_iff f uid

-- The thread's name decides nothing.
abbrev pub NameNeutral : ConfigEntry → Option ℕ → Type 0
NameNeutral config none = config.thread_whitelist ≢ 1
NameNeutral config (some flag) = (flag ≢ thread_name_blacklist) × (flag ≢ thread_name_whitelist)

-- A blacklist, then a whitelist, then the rest.
layer :
    (black white : Option ℕ) (rest : ℕ) {R : Type 0}
    → ((rest ≡ 1) ↔ R)
    → ((verdict black 0 orelse verdict white 1 orelse rest) ≡ 1)
      ↔ ((¬ Listed black) × (Listed white ⊎ R))
layer none none rest e =
    (λ h. (λ n. n refl, inr (e.0 h)), λ h. elim h.1 [ inl n ↦ absurd (n refl) | inr r ↦ e.1 r ])
layer none (some w) rest e = (λ h. (λ n. n refl, inl (λ z. cc)), λ h. refl)
layer (some b) white rest e = (λ h. omega arith, λ h. absurd (h.0 (λ z. cc)))

admit :
    (white : Option ℕ) (rest : ℕ) {R : Type 0}
    → ((rest ≡ 1) ↔ R)
    → ((verdict white 1 orelse rest) ≡ 1) ↔ (Listed white ⊎ R)
admit none rest e = (λ h. inr (e.0 h), λ h. elim h [ inl n ↦ absurd (n refl) | inr r ↦ e.1 r ])
admit (some w) rest e = (λ h. inl (λ z. cc), λ h. refl)

named :
    (config : ConfigEntry) (o : Option ℕ) (rest : ℕ) {R : Type 0}
    → ((rest ≡ 1) ↔ R)
    → ((check_name config o orelse rest) ≡ 1)
      ↔ ((o ≡ some thread_name_whitelist) ⊎ (NameNeutral config o × R))
unfolding check_name
named config none rest e = elim (Bool-cases (config.thread_whitelist == 1)) [
  | inl y ↦ rw y (λ h. omega arith, λ h. ground arith)
  | inr n ↦ rw n (λ h. inr (ground arith, e.0 h), λ h. elim h [ inl z ↦ cc | inr r ↦ e.1 r.1 ])
]
named config (some flag) rest e = elim (Bool-cases (flag == thread_name_blacklist)) [
  | inl y ↦ rw y (λ h. omega arith, λ h. elim h [ inl z ↦ ground arith | inr r ↦ ground arith ])
  | inr n ↦ elim (Bool-cases (flag == thread_name_whitelist)) [
    | inl y ↦ rw (n, y) (λ h. inl (ground arith), λ h. refl)
    | inr n' ↦
        rw (n, n')
          (
            λ h. inr ((ground arith, ground arith), e.0 h),
            λ h. elim h [ inl z ↦ ground arith | inr r ↦ e.1 r.1 ],
          )
  ]
]

module _ (cfg : Config) (forks : ℕ → Option ℕ) (config : ConfigEntry) (c : EventContext) where
  abbrev pub UidTraced : Type 0
  UidTraced =
      (¬ Listed (listed cfg uid_blacklist_start c.uid))
      × (Listed (listed cfg uid_whitelist_start c.uid) ⊎ InGroups cfg.common_filter c.uid)

  abbrev pub PidTraced : Type 0
  PidTraced =
      (¬ Listed (listed cfg pid_blacklist_start c.pid))
      × (Listed (listed cfg pid_whitelist_start c.pid) ⊎ Listed (forks c.pid) ⊎ UidTraced)

  abbrev pub TidTraced : Type 0
  TidTraced =
      (¬ Listed (listed cfg tid_blacklist_start c.tid))
      × (Listed (listed cfg tid_whitelist_start c.tid) ⊎ PidTraced)

  -- Not the tracer itself; and the thread's name is admitted, or it is neutral and the lists of
  -- threads, processes and users admit the task, a narrower one before a wider one.
  abbrev pub Traced : Type 0
  Traced =
      (config.stackplz_pid ≢ c.pid)
      × ((cfg.thread_filter c.comm ≡ some thread_name_whitelist)
          ⊎ (NameNeutral config (cfg.thread_filter c.comm) × TidTraced))

  abbrev from_uid : ℕ
  from_uid =
      verdict (listed cfg uid_blacklist_start c.uid) 0
      orelse verdict (listed cfg uid_whitelist_start c.uid) 1
      orelse check_groups cfg.common_filter c.uid

  abbrev from_pid : ℕ
  from_pid =
      verdict (listed cfg pid_blacklist_start c.pid) 0
      orelse verdict (listed cfg pid_whitelist_start c.pid) 1
      orelse verdict (forks c.pid) 1
      orelse from_uid

  abbrev from_tid : ℕ
  from_tid =
      verdict (listed cfg tid_blacklist_start c.tid) 0
      orelse verdict (listed cfg tid_whitelist_start c.tid) 1
      orelse from_pid

  from_tid_iff : (from_tid ≡ 1) ↔ TidTraced
  from_tid_iff = layer _ _ from_pid (
      layer _ _ (verdict (forks c.pid) 1 orelse from_uid) (
        admit (forks c.pid) from_uid (
          layer _ _ (check_groups cfg.common_filter c.uid)
            (check_groups_iff cfg.common_filter c.uid))))

  from_name_iff :
      (o : Option ℕ)
      → ((check_name config o orelse from_tid) ≡ 1)
        ↔ ((o ≡ some thread_name_whitelist) ⊎ (NameNeutral config o × TidTraced))
  unfolding check_name
  from_name_iff o = named config o from_tid from_tid_iff

  -- `should_trace` is 1 exactly if the process is not the tracer itself, and the thread's name is
  -- on the whitelist, or decides nothing while the lists of threads, processes and users admit the
  -- task: the thread not on its blacklist, and on its whitelist or the process admitted in the
  -- same way (or the child of a tracked one), and so on to the user and its groups.
  pub should_trace_iff : (should_trace cfg forks config c ≡ 1) ↔ Traced
  unfolding should_trace
  should_trace_iff =
      let (p, q) = from_name_iff (cfg.thread_filter c.comm) in
      elim (Bool-cases (config.stackplz_pid == c.pid)) [
        | inl y ↦ rw y (λ h. absurd (omega arith), λ h. absurd (h.0 (ground arith)))
        | inr n ↦ rw n (λ h. (ground arith, p h), λ h. q h.1)
      ]
