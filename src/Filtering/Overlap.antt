-- ===== src/Filtering/Overlap.antt =====
-- The ranges of `common_list` are 0x400 apart, and ids are not held below that: an entry of one
-- list is an entry of the next list for a smaller id.
use stackplz.Base.{ℕ, ◌+◌, ◌-◌, ◌≤◌, ◌^◌, ◌≡◌, ◌≢◌, refl, ap, arith, Option, inl, inr, ◌%◌}
use stackplz.Types.{ConfigEntry, EventContext, tid_whitelist_start}
use stackplz.Kernel.{Config}
use stackplz.Filtering.{listed, should_trace}
use stackplz.Filtering.Spec.{Listed, NameNeutral, should_trace_iff}

-- An id of at least 0x400 in a list is in the following list, less 0x400.
listed_next :
    (cfg : Config) (start id : ℕ)
    → 0x400 ≤ id
    → listed cfg (start + 0x400) (id - 0x400) ≡ listed cfg start id
unfolding listed
listed_next cfg start id h = ap (λ n. cfg.common_list (n % 2 ^ 32)) (omega arith)

module _ (cfg : Config) (forks : ℕ → Option ℕ) (config : ConfigEntry) (c : EventContext) where
  -- Listing a thread id of at least 0x400 as traced stops the tracing of the thread whose id is
  -- 0x400 less, where the names of threads decide nothing.
  pub whitelisted_tid_blocks :
      (tid : ℕ)
      → 0x400 ≤ tid
      → c.tid ≡ tid - 0x400
      → Listed (listed cfg tid_whitelist_start tid)
      → NameNeutral config (cfg.thread_filter c.comm)
      → should_trace cfg forks config c ≢ 1
  whitelisted_tid_blocks tid h e l n t = elim ((should_trace_iff cfg forks config c).0 t).1 [
    | inl z ↦ (rw z at n).1 refl
    | inr (_, (free, _)) ↦ free (rw e (rw (listed_next cfg tid_whitelist_start tid h) l))
  ]
