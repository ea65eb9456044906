-- ===== src/Unwinder/Safety.antt =====
-- The unwinder's library is open exactly while its handle is set, and its functions are called
-- only then.
use stackplz.Base.{ℕ, ◌≡◌, refl, Bool, true, false, Option, none, some, List, [], ◌∷◌}
use stackplz.Unwinder.{
  Dl, IsDl, stack_plz, stack_plz_v2, DlCall, opened, closed, Unwinder, start, Status, success,
  failure, init_stack_unwinder, close_stack_unwinder, load_v1, load_v2, load, init_from, close_from,
  full_path,
}

-- The library that a history of calls leaves open; `none` where none is. A history that opens a
-- second one or closes another than the open one has no such answer.
pub data Leaves : List DlCall → Option ℕ → Type 0 where
  nothing : Leaves [] none
  open_one : {cs : List DlCall} (g : ℕ) → Leaves cs none → Leaves (opened g ∷ cs) (some g)
  close_one : {cs : List DlCall} (g : ℕ) → Leaves cs (some g) → Leaves (closed g ∷ cs) none

pub record IsValid (u : Unwinder) : Type 0 where
  pub balanced : Leaves u.calls u.handle
  pub fptr_closed : u.handle ≡ none → u.fptr ≡ none
  pub fptrv2_closed : u.handle ≡ none → u.fptrv2 ≡ none

-- What a caller can do.
pub data Op : Type 0 where
  init : List ℕ → Op
  shut : Op

unfoldable pub apply : Dl → Op → Unwinder → Unwinder
apply d (init path) u = (init_stack_unwinder d path u).1
apply d shut u = close_stack_unwinder u

unfoldable pub run : Dl → List Op → Unwinder → Unwinder
run d [] u = u
run d (o ∷ os) u = run d os (apply d o u)

module _ (d : Dl) (law : IsDl d) (g : ℕ) where
  load_v2-IsValid :
      (u : Unwinder) → u.handle ≡ some g → Leaves u.calls (some g) → IsValid (load_v2 d g u).1
  unfolding load_v2
  load_v2-IsValid u h l = go (d.dlsym g stack_plz_v2).1 refl
    where
      f : Option ℕ
      f = (d.dlsym g stack_plz_v2).0

      Result : Bool → Status × Unwinder
      Result b = elim b [
        | false ↦ (success, record u { fptrv2 = f })
        | true ↦ (
          failure,
          record u { handle = none; fptr = none; fptrv2 = f; calls = closed g ∷ u.calls },
        )
      ]

      go : (b : Bool) → (d.dlsym g stack_plz_v2).1 ≡ b → IsValid (Result b).1
      go false e = record { balanced = rw h l; fptr_closed = λ z. cc; fptrv2_closed = λ z. cc }
      go true e = record {
        balanced = close_one g l;
        fptr_closed = λ z. refl;
        fptrv2_closed = λ z. law.error_null g stack_plz_v2 e;
      }

  load_v1-IsValid :
      (u : Unwinder)
      → u.handle ≡ some g
      → u.fptrv2 ≡ none
      → Leaves u.calls (some g)
      → IsValid (load_v1 d g u).1
  unfolding load_v1
  load_v1-IsValid u h n l = go (d.dlsym g stack_plz).1 refl
    where
      f : Option ℕ
      f = (d.dlsym g stack_plz).0

      Result : Bool → Status × Unwinder
      Result b = elim b [
        | false ↦ load_v2 d g (record u { fptr = f })
        | true ↦ (failure, record u { handle = none; fptr = f; calls = closed g ∷ u.calls })
      ]

      go : (b : Bool) → (d.dlsym g stack_plz).1 ≡ b → IsValid (Result b).1
      go false e = load_v2-IsValid (record u { fptr = f }) h l
      go true e = record {
        balanced = close_one g l;
        fptr_closed = λ z. law.error_null g stack_plz e;
        fptrv2_closed = λ z. n;
      }

close_from-IsValid :
    (o : Option ℕ) (u : Unwinder) → u.handle ≡ o → IsValid u → IsValid (close_from o u)
unfolding close_from
close_from-IsValid none u h v = v
close_from-IsValid (some g) u h v = record {
  balanced = close_one g (rw h at v.balanced);
  fptr_closed = λ z. refl;
  fptrv2_closed = λ z. refl;
}

module _ (d : Dl) (law : IsDl d) where
  load-IsValid :
      (o : Option ℕ) (u : Unwinder) → u.handle ≡ none → IsValid u → IsValid (load d o u).1
  unfolding load
  load-IsValid none u h v = record {
    balanced = rw h at v.balanced;
    fptr_closed = λ z. v.fptr_closed h;
    fptrv2_closed = λ z. v.fptrv2_closed h;
  }
  load-IsValid (some g) u h v =
      load_v1-IsValid d law g (record u { handle = some g; calls = opened g ∷ u.calls }) refl
        (v.fptrv2_closed h) (open_one g (rw h at v.balanced))

  init_from-IsValid :
      (path : List ℕ) (o : Option ℕ) (u : Unwinder)
      → u.handle ≡ o
      → IsValid u
      → IsValid (init_from d path o u).1
  unfolding init_from
  init_from-IsValid path none u h v = load-IsValid (d.dlopen (full_path path)) u h v
  init_from-IsValid path (some g) u h v = v

  apply-IsValid : (o : Op) (u : Unwinder) → IsValid u → IsValid (apply d o u)
  unfolding apply init_stack_unwinder close_stack_unwinder
  apply-IsValid (init path) u v = init_from-IsValid path u.handle u refl v
  apply-IsValid shut u v = close_from-IsValid u.handle u refl v

  run_from-IsValid : (os : List Op) (u : Unwinder) → IsValid u → IsValid (run d os u)
  unfolding run
  run_from-IsValid [] u v = v
  run_from-IsValid (o ∷ os) u v = run_from-IsValid os (apply d o u) (apply-IsValid o u v)

  -- Where `dlsym` yields NULL with an error, after any sequence of initialisations and closings
  -- from the start: every library that was opened is closed again, but for the one whose handle
  -- is set; and while none is set both functions are NULL, so that no call goes to a closed
  -- library.
  pub run-IsValid : (os : List Op) → IsValid (run d os start)
  run-IsValid os =
      run_from-IsValid os start
        (record { balanced = nothing; fptr_closed = λ z. refl; fptrv2_closed = λ z. refl })
