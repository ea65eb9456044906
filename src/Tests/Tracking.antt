-- ===== src/Tests/Tracking.antt =====
-- Forks of process 70 and of its child 71, and the unwinder's library.
use stackplz.Base.{◌≡◌, ◌≢◌, refl, arith, none, some, true, false, [], ◌∷◌}
use stackplz.Programs.World.{Host}
use stackplz.Programs.Context.{
  init_program_data, init_context, start_session, get_task_ns_pid, get_task_pid_vnr,
}
use stackplz.Programs.Fork.{sched_process_fork}
use stackplz.Programs.Fork.Track.{IsForest, fork-IsForest, fork_grandchild}
use stackplz.Unwinder.{Dl, IsDl, Symbol, stack_plz, stack_plz_v2, start}
use stackplz.Unwinder.Safety.{IsValid, init, shut, run, run-IsValid}
use stackplz.Tests.{config, host, world}

starts : (init_program_data host config world).0 ≢ none
unfolding init_program_data init_context start_session
starts e = cc

world-IsForest : IsForest world.child_parent_map
world-IsForest k p e = ground arith

fork-IsForest_example : IsForest (sched_process_fork host config 1 2 world).child_parent_map
unfolding get_task_ns_pid get_task_pid_vnr
fork-IsForest_example = fork-IsForest host config 1 2 world refl world-IsForest

abbrev child_host : Host
child_host = record host { current_task = 2 }

fork_grandchild_example :
    (sched_process_fork child_host config 2 3
        (sched_process_fork host config 1 2 world)).child_parent_map
      72
    ≡ none
unfolding get_task_ns_pid get_task_pid_vnr
fork_grandchild_example =
    fork_grandchild host child_host config 1 2 3 world (λ e. omega arith) refl (λ e. omega arith)
      refl refl

-- a library without the second symbol
abbrev library : Dl
library = record {
  dlopen = λ path. some 5;
  dlsym = λ g s. elim s [ stack_plz ↦ (some 8, false) | stack_plz_v2 ↦ (none, true) ];
}

library_null : (s : Symbol) → (library.dlsym 5 s).1 ≡ true → (library.dlsym 5 s).0 ≡ none
library_null stack_plz e = cc
library_null stack_plz_v2 e = refl

library-IsDl : IsDl library
library-IsDl = record { error_null = λ g s e. library_null s e }

run-IsValid_example : IsValid (run library (init [] ∷ shut ∷ init [] ∷ []) start)
run-IsValid_example = run-IsValid library library-IsDl (init [] ∷ shut ∷ init [] ∷ [])
