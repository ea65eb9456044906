-- ===== src/Compiler/Runs/Point.antt =====
-- The arguments of a point, run one after the other.
use mathlib.Core.List.{map-append}
use stackplz.Base.{
  ℕ, ◌+◌, ◌<◌, ◌≤◌, ◌^◌, ◌≡◌, refl, ◌∙◌, arith, List, [], ◌∷◌, ◌++◌, map, Bool, true, false, length,
  ◌&&◌, Bool-cases, inl, inr,
}
use stackplz.Types.{CtxRegs, args_buf_size}
use stackplz.Kernel.{Kernel, Target, Config, IsKernel}
use stackplz.Event.Stream.{stream}
use stackplz.Event.Entries.{Entry, encode_all, emit_all}
use stackplz.Decoder.Args.{Kind, PointArg, Parsed, reads_at}
use stackplz.Decoder.Saves.{IsWhole, SavesAll, nothing, argument}
use stackplz.ReadArgs.State.{Reader, Step, next}
use stackplz.ReadArgs.Exec.{reg_at}
use stackplz.ReadArgs.Program.{exec_ops, exec_ops-append}
use stackplz.Compiler.{Op}
use stackplz.Compiler.Compiled.{arg_ops, point_ops, configs}
use stackplz.Compiler.Runs.Single.{IsQuiet}
use stackplz.Compiler.Runs.Filters.{tests, admits_value, admits, Admits, Rejects}
use stackplz.Compiler.Runs.Kinds.{Runs, Runs-append, IsSimple}
use stackplz.Compiler.Runs.Args.{IsBare, printed}
use stackplz.Compiler.Runs.Entries.{
  need, arg_entries, arg_entries-Saves, buf_off-emit_all, length-encode_all, arg_entries-le,
  nine-le,
}
use stackplz.Compiler.Runs.Entry.{arg_ops-Runs, arg_ops-Rejects, ret_ops-Runs}

-- At most so many bytes go out for the arguments.
abbrev pub total_need : List (Kind × Bool) → ℕ
total_need [] = 0
total_need (arg ∷ args) = need arg + total_need args

-- What an entry of a point reads: every argument is bare, and not the value of a return.
abbrev pub AreBare : ℕ → CtxRegs → List PointArg → Type 0
AreBare point_type regs [] = Unit
AreBare point_type regs (arg ∷ args) =
    (IsBare point_type arg × (arg.is_ret ≡ false) × (reg_at regs arg.reg_index < 2 ^ 64))
    × AreBare point_type regs args

-- The types of the arguments are taken whole by the decoder.
abbrev pub AreWhole : List PointArg → Type 0
AreWhole [] = Unit
AreWhole (arg ∷ args) = IsWhole arg.kind × AreWhole args

-- The value of a return, which fits its width, of a type that the decoder takes whole.
abbrev pub IsReturn : ℕ → ℕ → PointArg → Type 0
IsReturn point_type value ret =
    IsBare point_type ret × (ret.is_ret ≡ true) × (value < 2 ^ 64) × IsWhole ret.kind

-- What the decoder tells of an argument from a register.
abbrev pub printed_arg : Kernel → Target → CtxRegs → ℕ → PointArg → Parsed
printed_arg k t regs point_type arg =
    printed k t (reg_at regs arg.reg_index) (reg_at regs arg.reg_index) (reads_at point_type arg)

both-true : {a b : Bool} → (a && b) ≡ true → (a ≡ true) × (b ≡ true)
both-true {a = true} {b} h = (refl, ground (arith, h))
both-true {a = false} {b} h = absurd (ground (arith, h))

pub reads_at-IsSimple :
    (point_type : ℕ) (arg : PointArg) → IsBare point_type arg → IsSimple (reads_at point_type arg).0
unfolding reads_at
reads_at-IsSimple point_type arg fine = fine.kind

reads_at-IsWhole :
    (point_type : ℕ) (arg : PointArg) → IsWhole arg.kind → IsWhole (reads_at point_type arg).0
unfolding reads_at
reads_at-IsWhole point_type arg whole = whole

module _ (k : Kernel) (law : IsKernel k) (t : Target) (cfg : Config) (regs : CtxRegs)
    (point_type : ℕ) where
  -- what an argument leaves of the buffer is enough for the others
  room-arg :
      (arg : PointArg) (v a i j : ℕ) (r r' : Reader) (args : List PointArg)
      → IsSimple (reads_at point_type arg).0
      → stream r'.event
        ≡ emit_all (stream r.event) (arg_entries k t i j v a (reads_at point_type arg))
      → r.event.buf_off + total_need (map (reads_at point_type) (arg ∷ args)) + 4101 ≤ args_buf_size
      → r'.event.buf_off + total_need (map (reads_at point_type) args) + 4101 ≤ args_buf_size
  room-arg arg v a i j r r' args simple view room =
      let reads = reads_at point_type arg in
      let size = arg_entries-le k law t i j v a reads simple in
      let grown = buf_off-emit_all r.event r'.event (arg_entries k t i j v a reads) view in
      omega (arith, size, grown, room)

  -- The operations of a point's arguments save the entries of the values that the decoder tells.
  pub point_ops-Runs :
      (args : List PointArg) (r : Reader)
      → AreBare point_type regs args
      → AreWhole args
      → Admits cfg regs args
      → r.event.buf_off + total_need (map (reads_at point_type) args) + 4101 ≤ args_buf_size
      → IsQuiet r
      → (entries : List Entry) × Runs k t cfg regs (configs (point_ops args)) r entries
        × SavesAll
            (map (reads_at point_type) args)
            (map (printed_arg k t regs point_type) args)
            entries
        × (length (encode_all entries) ≤ total_need (map (reads_at point_type) args))
  unfolding exec_ops emit_all encode_all
  point_ops-Runs [] r bare whole passes room q = (
    [],
    record { after = r; runs = λ f. refl; view = refl; notes = (refl, refl, refl, refl) },
    nothing,
    omega arith,
  )
  point_ops-Runs (arg ∷ args) r bare whole (loaded, passes) room q =
      let (fine, enters, small) = bare.0 in
      let v = reg_at regs arg.reg_index in
      let reads = reads_at point_type arg in
      let (admitted, rest) = both-true passes in
      let (i, j, p) =
        arg_ops-Runs k law t cfg regs point_type arg r fine enters loaded.0 admitted
          (omega (arith, nine-le reads)) q in
      let simple = reads_at-IsSimple point_type arg fine in
      let room' = room-arg arg v v i j r p.after args simple p.view room in
      let (more, p', saved, sized) =
        point_ops-Runs args p.after bare.1 whole.1 (loaded.1, rest) room' (rw p.notes.0 q) in
      let size = arg_entries-le k law t i j v v reads simple in
      (
        arg_entries k t i j v v reads ++ more,
        rw (map-append (λ (op : Op). op.config) (arg_ops arg) (point_ops args))
            (Runs-append k t cfg regs (configs (arg_ops arg)) (configs (point_ops args)) r p p'),
        argument
            (arg_entries-Saves k law t i j v v reads small simple
              (reads_at-IsWhole point_type arg whole.0))
            saved,
        omega (arith, size, sized, length-encode_all (arg_entries k t i j v v reads) more),
      )

  -- A filter that rejects a value ends the reader's operations, and leaves its mark.
  pub point_ops-Rejects :
      (args : List PointArg) (r : Reader) (f : Reader → Step)
      → AreBare point_type regs args
      → Rejects cfg regs args
      → r.event.buf_off + total_need (map (reads_at point_type) args) + 4101 ≤ args_buf_size
      → IsQuiet r
      → (r' : Reader) × (r'.op.match_blacklist ≡ 1)
        × (exec_ops k t cfg regs (configs (point_ops args)) f r ≡ next r')
  point_ops-Rejects [] r f bare (loaded, rejects) room q = absurd (ground (arith, rejects))
  point_ops-Rejects (arg ∷ args) r f bare (loaded, rejects) room q =
      let (fine, enters, small) = bare.0 in
      let v = reg_at regs arg.reg_index in
      let reads = reads_at point_type arg in
      let enough : r.event.buf_off + 4110 ≤ args_buf_size = omega (arith, nine-le reads) in
      let apart = map-append (λ (op : Op). op.config) (arg_ops arg) (point_ops args) in
      elim (Bool-cases (admits_value cfg v (tests arg))) [
        | inl y ↦
            let (i, j, p) =
              arg_ops-Runs k law t cfg regs point_type arg r fine enters loaded.0 y enough q in
            let room' =
              room-arg arg v v i j r p.after args (reads_at-IsSimple point_type arg fine) p.view
                room in
            let later : admits cfg regs args ≡ false = ground (arith, rejects, y) in
            let (r', mark, ends) =
              point_ops-Rejects args p.after f bare.1 (loaded.1, later) room' (rw p.notes.0 q) in
            (
              r',
              mark,
              rw apart (
                  exec_ops-append k t cfg regs (configs (arg_ops arg)) (configs (point_ops args)) f
                    r
                  ∙ p.runs (exec_ops k t cfg regs (configs (point_ops args)) f)
                  ∙ ends),
            )
        | inr n ↦
            let (r', mark, ends) =
              arg_ops-Rejects k law t cfg regs point_type arg r fine enters loaded.0 n (omega arith)
                q in
            (r', mark, rw apart (ends (configs (point_ops args)) f))
      ]

  -- At a return the value that is returned comes first; what the decoder tells of it is read at
  -- the address that the reader was left with.
  pub ret_point-Runs :
      (ret : PointArg) (args : List PointArg) (r : Reader)
      → IsReturn point_type r.op.reg_0 ret
      → AreBare point_type regs args
      → AreWhole args
      → Admits cfg regs args
      → r.event.buf_off + total_need (map (reads_at point_type) (ret ∷ args)) + 4101 ≤ args_buf_size
      → IsQuiet r
      → (entries : List Entry) × Runs k t cfg regs (configs (point_ops (ret ∷ args))) r entries
        × SavesAll
            (map (reads_at point_type) (ret ∷ args))
            (printed k t r.op.reg_0 r.op.read_addr (reads_at point_type ret)
              ∷ map (printed_arg k t regs point_type) args)
            entries
  ret_point-Runs ret args r (fine, returns, small, fits) bare whole passes room q =
      let v = r.op.reg_0 in
      let a = r.op.read_addr in
      let reads = reads_at point_type ret in
      let (i, j, p) =
        ret_ops-Runs k law t cfg regs point_type ret r fine returns (omega (arith, nine-le reads))
          q in
      let simple = reads_at-IsSimple point_type ret fine in
      let room' = room-arg ret v a i j r p.after args simple p.view room in
      let (more, p', saved, sized) =
        point_ops-Runs args p.after bare whole passes room' (rw p.notes.0 q) in
      (
        arg_entries k t i j v a reads ++ more,
        rw (map-append (λ (op : Op). op.config) (arg_ops ret) (point_ops args))
            (Runs-append k t cfg regs (configs (arg_ops ret)) (configs (point_ops args)) r p p'),
        argument
            (arg_entries-Saves k law t i j v a reads small simple
              (reads_at-IsWhole point_type ret fits))
            saved,
      )
