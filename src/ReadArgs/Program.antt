-- ===== src/ReadArgs/Program.antt =====
-- The program that a point gives the reader, as the sequence of its operations.
use stackplz.Base.{
  ℕ, suc, ◌+◌, ◌≡◌, ◌≢◌, refl, ap, fun_ext, arith, Option, some, List, [], ◌∷◌, ◌++◌, ◌==◌,
  if◌then◌else◌, get_or, Bool-cases, inl, inr, false,
}
use stackplz.Types.{op_skip, op_for_break, op_code, op_value, OpCtx, OpConfig, CtxRegs, PointArgs}
use stackplz.Kernel.{Kernel, Target, Config}
use stackplz.ReadArgs.State.{u32, Reader, Step, next, stop, crash}
use stackplz.ReadArgs.Exec.{exec}
use stackplz.ReadArgs.{fetch, continue, read_loop}

-- The keys stand in the program from this place on.
abbrev pub KeysAt : List ℕ → ℕ → List ℕ → Type 0
KeysAt program i [] = Unit
KeysAt program i (key ∷ keys) = (get_or program i 0 ≡ key) × KeysAt program (suc i) keys

-- The keys are those of these operations.
abbrev pub Resolves : (ℕ → Option OpConfig) → List ℕ → List OpConfig → Type 0
Resolves lookup [] [] = Unit
Resolves lookup (k ∷ ks) (c ∷ cs) = (lookup k ≡ some c) × Resolves lookup ks cs
Resolves lookup _ _ = ⊥

-- The operation is not the end of a program, and neither of its codes a loop.
abbrev pub IsStraight : OpConfig → Type 0
IsStraight c =
    (c.code ≢ op_value op_skip)
    × (op_code c.code ≢ some op_for_break)
    × (op_code c.post_code ≢ some op_for_break)

abbrev pub AreStraight : List OpConfig → Type 0
AreStraight [] = Unit
AreStraight (c ∷ cs) = IsStraight c × AreStraight cs

-- The rounds of the loop that these operations take.
abbrev pub rounds : List OpConfig → ℕ
rounds [] = 0
rounds (c ∷ cs) = (if c.post_code == op_value op_skip then 1 else 2) + rounds cs

-- The operation is fetched from the program.
abbrev pub start_op : OpConfig → Reader → Reader
start_op c r = record r {
  op = record r.op {
    op_code = c.code;
    post_code = c.post_code;
    op_key_index = u32 (r.op.op_key_index + 1);
  };
}

-- The second half of an operation is fetched.
abbrev pub second : OpConfig → Reader → Reader
second c r = record r { op = record r.op { op_code = c.post_code; post_code = op_value op_skip } }

pub continue_assoc :
    (st : Step) (f g : Reader → Step)
    → continue (continue st f) g ≡ continue st (λ r. continue (f r) g)
unfolding continue
continue_assoc (next r) f g = ground arith
continue_assoc (stop r) f g = refl
continue_assoc crash f g = refl

pub continue-cong :
    (st : Step) (f g : Reader → Step)
    → ((r : Reader) → st ≡ next r → (r.op.match_blacklist == 1) ≡ false → f r ≡ g r)
    → continue st f ≡ continue st g
unfolding continue
continue-cong (next r) f g h = elim (Bool-cases (r.op.match_blacklist == 1)) [
  | inl y ↦ rw y refl
  | inr n ↦ rw (n, h r refl n) refl
]
continue-cong (stop r) f g h = refl
continue-cong crash f g h = refl

pub continue-next :
    (r : Reader) (f : Reader → Step)
    → (r.op.match_blacklist == 1) ≡ false
    → continue (next r) f ≡ f r
unfolding continue
continue-next r f h = rw h refl

module _ (k : Kernel) (t : Target) (cfg : Config) (regs : CtxRegs) where
  abbrev pub second_half : OpConfig → Reader → Step
  second_half c r =
      if c.post_code == op_value op_skip
      then next r
      else exec k t cfg c regs (op_code c.post_code) (second c r)

  -- one operation, both halves
  abbrev pub exec_op : OpConfig → Reader → Step
  exec_op c r = continue (exec k t cfg c regs (op_code c.code) (start_op c r)) (second_half c)

  -- operations one after the other, then the rest; a match of a blacklist ends them
  unfoldable pub exec_ops : List OpConfig → (Reader → Step) → Reader → Step
  unfolding continue
  exec_ops [] f r = f r
  exec_ops (c ∷ cs) f r = continue (exec_op c r) (exec_ops cs f)

  pub exec_ops-append :
      (cs cs' : List OpConfig) (f : Reader → Step) (r : Reader)
      → exec_ops (cs ++ cs') f r ≡ exec_ops cs (exec_ops cs' f) r
  unfolding exec_ops
  exec_ops-append [] cs' f r = refl
  exec_ops-append (c ∷ cs) cs' f r =
      ap (λ g. continue (exec_op c r) g) (fun_ext (exec_ops-append cs cs' f))

  module _ (args : PointArgs) where
    pub loop-fetched :
        (n : ℕ) (o : Option OpConfig) (c : OpConfig) (x : OpCtx) (r : Reader)
        → fetch t cfg args o r.op ≡ some (c, x)
        → x.op_code ≢ op_value op_skip
        → read_loop k t cfg args regs (suc n) o r
          ≡ continue
              (exec k t cfg c regs (op_code x.op_code) (record r { op = x }))
              (read_loop k t cfg args regs n (some c))
    unfolding read_loop
    loop-fetched n o c x r e h =
        let more : (x.op_code == op_value op_skip) ≡ false = ground arith in
        rw (read_loop, e, more) refl
