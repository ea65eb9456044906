-- ===== src/Programs/Fork/Track.antt =====
-- Which processes a fork adds to `child_parent_map`.
use stackplz.Base.{ℕ, ◌≡◌, ◌≢◌, ◌⊎◌, arith, true, Option, none, some, ap, Option-cases, inl, inr}
use stackplz.Kernel.{Config}
use stackplz.Programs.World.{World, Host, close}
use stackplz.Programs.Context.{init_program_data, get_task_ns_pid}
use stackplz.Programs.Context.Start.{init-Started, init-Kept}
use stackplz.Programs.Fork.{track_child, sched_process_fork}

-- An entry names a process that was put there as itself, by user space.
abbrev pub IsForest : (ℕ → Option ℕ) → Type 0
IsForest m = (k p : ℕ) → m k ≡ some p → m p ≡ some p

module _ (h : Host) (p c : ℕ) (w : World) where
  track-IsForest :
      w.child_parent_map c ≡ none
      → IsForest w.child_parent_map
      → IsForest (track_child h p c w).child_parent_map
  unfolding track_child
  track-IsForest new f k q e = ground (arith, f k q)

  track-adds :
      w.child_parent_map p ≡ some p
      → h.forks_room w.child_parent_map c ≡ true
      → (track_child h p c w).child_parent_map c ≡ some p
  unfolding track_child
  track-adds e room = ground arith

  track_other : (k : ℕ) → k ≢ c → (track_child h p c w).child_parent_map k ≡ w.child_parent_map k
  unfolding track_child
  track_other k ne = ground arith

  -- Only a process that stands for itself has its children added.
  track_stranger :
      w.child_parent_map p ≢ some p → (track_child h p c w).child_parent_map ≡ w.child_parent_map
  unfolding track_child
  track_stranger ne = ground arith

  track_not_root :
      w.child_parent_map c ≡ none → p ≢ c → (track_child h p c w).child_parent_map c ≢ some c
  unfolding track_child
  track_not_root new ne root = ground arith

-- The map after the handler.
fork_map :
    (h : Host) (cfg : Config) (parent child : ℕ) (w : World)
    → (w' : World) × (w'.child_parent_map ≡ w.child_parent_map)
      × ((sched_process_fork h cfg parent child w ≡ w')
          ⊎ (sched_process_fork h cfg parent child w
              ≡ track_child h (get_task_ns_pid h parent) (get_task_ns_pid h child) w'))
unfolding sched_process_fork
fork_map h cfg parent child w = elim (Option-cases (init_program_data h cfg w).0) [
  | inl e ↦ (
    (init_program_data h cfg w).1,
    (init-Kept h cfg w).child_parent_map,
    inl (rw (e, sched_process_fork)),
  )
  | inr (s, e) ↦ (
    close s,
    ap (λ (v : World). v.child_parent_map) (init-Started h cfg w e).world,
    inr (rw (e, sched_process_fork)),
  )
]

module _ (h : Host) (cfg : Config) (parent child : ℕ) (w : World) where
  abbrev p : ℕ
  p = get_task_ns_pid h parent

  abbrev c : ℕ
  c = get_task_ns_pid h child

  -- Where the initialisation succeeds, the parent stands for itself and the map takes the entry,
  -- the child is added with its parent.
  pub fork-adds :
      (init_program_data h cfg w).0 ≢ none
      → w.child_parent_map p ≡ some p
      → h.forks_room w.child_parent_map c ≡ true
      → (sched_process_fork h cfg parent child w).child_parent_map c ≡ some p
  unfolding sched_process_fork
  fork-adds start root room = elim (Option-cases (init_program_data h cfg w).0) [
    | inl e ↦ absurd (start e)
    | inr (s, e) ↦
        let same = ap (λ (v : World). v.child_parent_map) (init-Started h cfg w e).world in
        rw (e, sched_process_fork) (track-adds h p c (close s) (rw same root) (rw same room))
  ]

  -- A fork that gives a new process id keeps every entry pointing at a process that stands for
  -- itself.
  pub fork-IsForest :
      w.child_parent_map c ≡ none
      → IsForest w.child_parent_map
      → IsForest (sched_process_fork h cfg parent child w).child_parent_map
  fork-IsForest new f =
      let (w', same, r) = fork_map h cfg parent child w in
      elim r [
        | inl e ↦ rw (e, same) f
        | inr e ↦ rw e (track-IsForest h p c w' (rw same new) (rw same f))
      ]

  -- Other processes keep their entries.
  fork_other :
      (k : ℕ)
      → k ≢ c
      → (sched_process_fork h cfg parent child w).child_parent_map k ≡ w.child_parent_map k
  fork_other k ne =
      let (w', same, r) = fork_map h cfg parent child w in
      elim r [ inl e ↦ rw (e, same) | inr e ↦ rw (e, track_other h p c w' k ne, same) ]

  fork_stranger :
      w.child_parent_map p ≢ some p
      → (sched_process_fork h cfg parent child w).child_parent_map ≡ w.child_parent_map
  fork_stranger ne =
      let (w', same, r) = fork_map h cfg parent child w in
      elim r [ inl e ↦ rw (e, same) | inr e ↦ rw (e, track_stranger h p c w' (rw same ne), same) ]

  -- A new child never stands for itself.
  child_not_root :
      w.child_parent_map c ≡ none
      → p ≢ c
      → (sched_process_fork h cfg parent child w).child_parent_map c ≢ some c
  child_not_root new ne root =
      let (w', same, r) = fork_map h cfg parent child w in
      elim r [
        | inl e ↦ cc (
          ap (λ (v : World). v.child_parent_map c) e,
          ap (λ (m : ℕ → Option ℕ). m c) same,
          new,
          root,
        )
        | inr e ↦ track_not_root h p c w' (rw same new) ne (rw e at root)
      ]

-- Two forks one after the other, the second by the child of the first: the grandchild is never
-- added, whatever the map held for the first parent. The ids are those that the kernel gives.
pub fork_grandchild :
    (h h' : Host) (cfg : Config) (parent child grandchild : ℕ) (w : World)
    → get_task_ns_pid h' grandchild ≢ get_task_ns_pid h child
    → get_task_ns_pid h' child ≡ get_task_ns_pid h child
    → get_task_ns_pid h parent ≢ get_task_ns_pid h child
    → w.child_parent_map (get_task_ns_pid h child) ≡ none
    → w.child_parent_map (get_task_ns_pid h' grandchild) ≡ none
    → (sched_process_fork h' cfg child grandchild
          (sched_process_fork h cfg parent child w)).child_parent_map
        (get_task_ns_pid h' grandchild)
      ≡ none
fork_grandchild h h' cfg parent child grandchild w ne same pc new_c new_g =
    let w' = sched_process_fork h cfg parent child w in
    rw (
      fork_stranger h' cfg child grandchild w'
          (rw same (child_not_root h cfg parent child w new_c pc)),
      fork_other h cfg parent child w (get_task_ns_pid h' grandchild) ne,
      new_g,
    )
