-- ===== src/ReadArgs/Sequence.antt =====
-- The loop of `read_args` on a program without loops runs its operations one after the other.
use stackplz.Base.{
  ℕ, zero, suc, ◌+◌, ◌<◌, ◌≤◌, ◌^◌, ◌≡◌, ◌≢◌, refl, sym, ◌∙◌, subst, arith, Option, none, some,
  List, [], ◌∷◌, ◌++◌, leb, ◌==◌, get_or, length, Bool-cases, inl, inr, true, false,
}
use stackplz.Types.{op_skip, op_code, op_value, OpConfig, CtxRegs, PointArgs}
use stackplz.Kernel.{Kernel, Target, Config}
use stackplz.ReadArgs.State.{u32, Reader, Step, next, stop, crash}
use stackplz.ReadArgs.Exec.{exec}
use stackplz.ReadArgs.{fetch, fetch_key, continue, read_loop}
use stackplz.ReadArgs.Straight.{exec-Stays}
use stackplz.ReadArgs.Program.{
  KeysAt, Resolves, IsStraight, AreStraight, rounds, start_op, second, continue_assoc,
  continue-cong, continue-next, second_half, exec_op, exec_ops, loop-fetched,
}

module _ (k : Kernel) (t : Target) (cfg : Config) (regs : CtxRegs) where
  module _ (args : PointArgs) where
    -- the key at the place in the program, where no second half waits
    fetch-key :
        (o : Option OpConfig) (key : ℕ) (c : OpConfig) (r : Reader)
        → r.op.post_code ≡ op_value op_skip
        → r.op.op_key_index < t.max_op_count
        → get_or args.op_key_list r.op.op_key_index 0 ≡ key
        → cfg.op_list key ≡ some c
        → fetch t cfg args o r.op ≡ some (c, (start_op c r).op)
    unfolding fetch fetch_key
    fetch-key none key c r idle small e found =
        let room : leb t.max_op_count r.op.op_key_index ≡ false = ground arith in
        rw (room, e, found) refl
    fetch-key (some o) key c r idle small e found =
        let room : leb t.max_op_count r.op.op_key_index ≡ false = ground arith in
        let free : (r.op.post_code == op_value op_skip) ≡ true = ground arith in
        rw (free, room, e, found) refl

    fetch-second :
        (c : OpConfig) (r : Reader)
        → r.op.post_code ≡ c.post_code
        → c.post_code ≢ op_value op_skip
        → fetch t cfg args (some c) r.op ≡ some (c, (second c r).op)
    unfolding fetch
    fetch-second c r e h =
        let waits : (r.op.post_code == op_value op_skip) ≡ false = ground arith in
        rw (waits, e) refl

    module _ (o : Option OpConfig) (key : ℕ) (c : OpConfig) (r : Reader) (s : IsStraight c)
        (idle : r.op.post_code ≡ op_value op_skip) (small : r.op.op_key_index < t.max_op_count)
        (e : get_or args.op_key_list r.op.op_key_index 0 ≡ key)
        (found : cfg.op_list key ≡ some c) where
      -- one operation of the program, in one round or two
      loop-single :
          (m : ℕ)
          → c.post_code ≡ op_value op_skip
          → read_loop k t cfg args regs (suc m) o r
            ≡ continue (exec_op k t cfg regs c r) (read_loop k t cfg args regs m (some c))
      loop-single m none_ =
          let single : (c.post_code == op_value op_skip) ≡ true = ground arith in
          loop-fetched k t cfg regs args m o c (start_op c r).op r
            (fetch-key o key c r idle small e found) s.0
          ∙ continue-cong _ _ _ (λ r' z b. rw single (sym (continue-next r' _ b)))
          ∙ sym (continue_assoc _ (second_half k t cfg regs c) _)

      loop-double :
          (m : ℕ)
          → c.post_code ≢ op_value op_skip
          → read_loop k t cfg args regs (suc (suc m)) o r
            ≡ continue (exec_op k t cfg regs c r) (read_loop k t cfg args regs m (some c))
      loop-double m waits =
          let double : (c.post_code == op_value op_skip) ≡ false = ground arith in
          loop-fetched k t cfg regs args (suc m) o c (start_op c r).op r
            (fetch-key o key c r idle small e found) s.0
          ∙ continue-cong _ _ _ (λ r' z b.
            loop-fetched k t cfg regs args m (some c) c (second c r').op r'
              (fetch-second c r'
                (exec-Stays k t cfg regs c (op_code c.code) (start_op c r) s.1 r' z).1 waits)
              waits
            ∙ rw double refl)
          ∙ sym (continue_assoc _ (second_half k t cfg regs c) _)

    loop-end :
        (m : ℕ) (o : Option OpConfig) (c : OpConfig) (r : Reader)
        → c.code ≡ op_value op_skip
        → fetch t cfg args o r.op ≡ some (c, (start_op c r).op)
        → read_loop k t cfg args regs (suc m) o r ≡ next (start_op c r)
    unfolding read_loop
    loop-end m o c r ends e =
        let last : (c.code == op_value op_skip) ≡ true = ground arith in
        rw (read_loop, e, last) refl

  continue-next_inv :
      (st : Step) (f : Reader → Step) (r' : Reader)
      → continue st f ≡ next r'
      → (r'.op.match_blacklist == 1) ≡ false
      → (r0 : Reader) × (st ≡ next r0) × (f r0 ≡ next r')
  unfolding continue
  continue-next_inv (next r) f r' e b = elim (Bool-cases (r.op.match_blacklist == 1)) [
    | inl y ↦ absurd (ground arith)
    | inr n ↦ (r, refl, rw n at e)
  ]
  continue-next_inv (stop r) f r' e b = cc
  continue-next_inv crash f r' e b = cc

  -- An operation that does not end the loop moves on by one key, and leaves no second half.
  exec_op-moves :
      (c : OpConfig) (r r' : Reader)
      → IsStraight c
      → exec_op k t cfg regs c r ≡ next r'
      → (r'.op.match_blacklist == 1) ≡ false
      → (r'.op.op_key_index ≡ u32 (r.op.op_key_index + 1)) × (r'.op.post_code ≡ op_value op_skip)
  exec_op-moves c r r' s e b =
      let (r0, first, rest) =
        continue-next_inv (exec k t cfg c regs (op_code c.code) (start_op c r))
          (second_half k t cfg regs c) r' e b in
      let (i, p) = exec-Stays k t cfg regs c (op_code c.code) (start_op c r) s.1 r0 first in
      elim (Bool-cases (c.post_code == op_value op_skip)) [
        | inl y ↦ let same : r0 ≡ r' = ground (arith, y, rest) in ground (arith, i, p, same, y)
        | inr n ↦
            let second_ : exec k t cfg c regs (op_code c.post_code) (second c r0) ≡ next r' =
              rw n at rest in
            let (i', p') =
              exec-Stays k t cfg regs c (op_code c.post_code) (second c r0) s.2 r' second_ in
            (i' ∙ i, p')
      ]

  module _ (args : PointArgs) (c0 : OpConfig) (ends : c0.code ≡ op_value op_skip)
      (last : cfg.op_list 0 ≡ some c0) (wide : t.max_op_count ≤ 2 ^ 32) where
    -- The loop on a program without loops: the operations of its keys run one after the other up
    -- to the key 0, where no second half waits at the start, the program leaves room for that key,
    -- and the rounds suffice.
    pub read_loop-sequence :
        (cs : List OpConfig) (keys : List ℕ) (n : ℕ) (o : Option OpConfig) (r : Reader)
        → AreStraight cs
        → Resolves cfg.op_list keys cs
        → KeysAt args.op_key_list r.op.op_key_index (keys ++ 0 ∷ [])
        → r.op.post_code ≡ op_value op_skip
        → r.op.op_key_index + length keys < t.max_op_count
        → rounds cs < n
        → read_loop k t cfg args regs n o r
          ≡ exec_ops k t cfg regs cs (λ r'. next (start_op c0 r')) r
    unfolding exec_ops
    read_loop-sequence cs keys zero o r s known at_ idle room enough = absurd (omega arith)
    read_loop-sequence [] [] (suc n) o r s known at_ idle room enough =
        loop-end args n o c0 r ends (fetch-key args o 0 c0 r idle (omega arith) at_.0 last)
    read_loop-sequence [] (key ∷ keys) (suc n) o r s known at_ idle room enough = absurd known
    read_loop-sequence (c ∷ cs) [] (suc n) o r s known at_ idle room enough = absurd known
    read_loop-sequence (c ∷ cs) (key ∷ keys) (suc zero) o r s known at_ idle room enough =
        absurd (ground arith)
    read_loop-sequence (c ∷ cs) (key ∷ keys) (suc (suc n)) o r s known at_ idle room enough =
        let others : (m : ℕ)
            → rounds cs < m
            → (r' : Reader) → exec_op k t cfg regs c r ≡ next r'
            → (r'.op.match_blacklist == 1) ≡ false
            → read_loop k t cfg args regs m (some c) r'
              ≡ exec_ops k t cfg regs cs (λ r'. next (start_op c0 r')) r' =
          λ m enough' r' e b.
            let (i, p) = exec_op-moves c r r' s.0 e b in
            let i' : r'.op.op_key_index ≡ suc r.op.op_key_index = omega (arith, i, room, wide) in
            read_loop-sequence cs keys m (some c) r' s.1 known.1
              (subst (λ j. KeysAt args.op_key_list j (keys ++ 0 ∷ [])) (sym i') at_.1) p
              (omega (arith, i', room)) enough' in
        elim (Bool-cases (c.post_code == op_value op_skip)) [
          | inl y ↦
              loop-single args o key c r s.0 idle (omega arith) at_.0 known.0 (suc n) (ground arith)
              ∙ continue-cong (exec_op k t cfg regs c r) _ _ (others (suc n) (ground (arith, y)))
          | inr x ↦
              loop-double args o key c r s.0 idle (omega arith) at_.0 known.0 n (ground arith)
              ∙ continue-cong (exec_op k t cfg regs c r) _ _ (others n (ground (arith, x)))
        ]
