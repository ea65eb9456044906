-- ===== src/Compiler/Runs/Single.antt =====
-- The compiled operations, one by one.
use stackplz.Base.{
  ℕ, ◌+◌, ◌-◌, ◌<◌, ◌≤◌, ◌^◌, ◌%◌, ◌≡◌, refl, ◌∙◌, arith, List, ◌∷◌, leb, ◌==◌, if◌then◌else◌, true,
  false,
}
use stackplz.Types.{
  op_skip, max_bytes_arr_size, max_string_size, op_read_ret, op_save_reg, op_code, op_value,
  OpConfig, CtxRegs, args_buf_size, reg_arm64_max,
}
use stackplz.Kernel.{Kernel, Target, Config, IsKernel}
use stackplz.Event.Stream.{stream, emit}
use stackplz.Event.Entries.{word, block, encode}
use stackplz.Buffer.{max_element_size, sizeof_int}
use stackplz.Buffer.Total.{word-saved}
use stackplz.ReadArgs.State.{u8, untag, Reader, Step, next}
use stackplz.ReadArgs.Exec.{
  exec, after, save_value, read_reg, reg_at, save_struct, struct_len, save_string,
}
use stackplz.ReadArgs.Blocks.{contents, HasRoom, bytes-SavesBlock, str-SavesBlock}
use stackplz.ReadArgs.{continue}
use stackplz.ReadArgs.Program.{start_op, second, second_half, exec_op, exec_ops}
use stackplz.Compiler.Ops.{rop, joined, read_save_reg}

-- No match of a blacklist has been noted.
abbrev pub IsQuiet : Reader → Type 0
IsQuiet r = (r.op.match_blacklist == 1) ≡ false

-- The notes about filters are the same.
abbrev pub SameNotes : Reader → Reader → Type 0
SameNotes r r' =
    (r'.op.match_blacklist ≡ r.op.match_blacklist)
    × (r'.op.match_whitelist ≡ r.op.match_whitelist)
    × (r'.op.apply_filter ≡ r.op.apply_filter)
    × (r'.op.skip_flag ≡ r.op.skip_flag)

module _ (k : Kernel) (t : Target) (cfg : Config) (regs : CtxRegs) where
  -- a first half that goes on
  pub both-halves :
      (c : OpConfig) (r r' : Reader)
      → exec k t cfg c regs (op_code c.code) (start_op c r) ≡ next r'
      → IsQuiet r'
      → exec_op k t cfg regs c r ≡ second_half k t cfg regs c r'
  unfolding continue
  both-halves c r r' e q = rw (e, q) refl

  pub exec_ops-first :
      (c : OpConfig) (cs : List OpConfig) (f : Reader → Step) (r r' : Reader)
      → exec_op k t cfg regs c r ≡ next r'
      → IsQuiet r'
      → exec_ops k t cfg regs (c ∷ cs) f r ≡ exec_ops k t cfg regs cs f r'
  unfolding exec_ops continue
  exec_ops-first c cs f r r' e q = rw (e, q) refl

  -- the register of an argument, saved
  pub read_save_reg_lem :
      (i : ℕ) (r : Reader)
      → i < reg_arm64_max
      → r.event.buf_off ≤ args_buf_size - (max_element_size + 1)
      → IsQuiet r
      → (r' : Reader) × (exec_op k t cfg regs (read_save_reg i).config r ≡ next r')
        × (stream r'.event
            ≡ emit (stream r.event) (encode (word 8 r.op.save_index (reg_at regs i))))
        × (r'.op.reg_value ≡ reg_at regs i)
        × SameNotes r r'
  unfolding read_save_reg joined op_value op_code exec read_reg save_value after encode
  read_save_reg_lem i r small room q =
      let v = reg_at regs i in
      let (e', saved, view, size) =
        word-saved r.event 8 r.op.save_index v room (omega arith) (omega arith) in
      let c = (read_save_reg i).config in
      let wide : i % 256 ≡ i = omega arith in
      let known : leb 33 i ≡ false = ground arith in
      let r1 = record (start_op c r) {
        op = record (start_op c r).op { reg_index = i; reg_value = v };
      } in
      (
        record (second c r1) {
          event = e';
          op = record (second c r1).op { save_index = u8 (r.op.save_index + 1) };
        },
        both-halves c r r1 (rw (wide, known) refl) q ∙ rw saved refl,
        view,
        refl,
        (refl, refl, refl, refl),
      )

  -- an operation of one half
  pub single :
      (c : OpConfig) (r r' : Reader)
      → exec k t cfg c regs (op_code c.code) (start_op c r) ≡ next r'
      → c.post_code ≡ op_value op_skip
      → IsQuiet r'
      → exec_op k t cfg regs c r ≡ next r'
  single c r r' e p q =
      let none_ : (c.post_code == op_value op_skip) ≡ true = ground arith in
      both-halves c r r' e q ∙ rw none_ refl

  -- the value that is returned, saved; no address is set
  pub read_ret_lem :
      (r : Reader)
      → r.event.buf_off ≤ args_buf_size - (max_element_size + 1)
      → IsQuiet r
      → (r' : Reader) × ((cs : List OpConfig) (f : Reader → Step)
          → exec_ops k t cfg regs
              ((rop "READ_RET" op_read_ret).config ∷ (rop "SAVE_REG" op_save_reg).config ∷ cs)
              f
              r
            ≡ exec_ops k t cfg regs cs f r')
        × (stream r'.event ≡ emit (stream r.event) (encode (word 8 r.op.save_index r.op.reg_0)))
        × (r'.op.read_addr ≡ r.op.read_addr)
        × SameNotes r r'
  unfolding rop op_value op_code exec save_value after encode
  read_ret_lem r room q =
      let c1 = (rop "READ_RET" op_read_ret).config in
      let c2 = (rop "SAVE_REG" op_save_reg).config in
      let r1 = record (start_op c1 r) {
        op = record (start_op c1 r).op { reg_value = r.op.reg_0 };
      } in
      let (e', saved, view, size) =
        word-saved r.event 8 r.op.save_index r.op.reg_0 room (omega arith) (omega arith) in
      let r2 = record (start_op c2 r1) {
        event = e';
        op = record (start_op c2 r1).op { save_index = u8 (r.op.save_index + 1) };
      } in
      (
        r2,
        (λ cs f.
            exec_ops-first c1 (c2 ∷ cs) f r r1 (single c1 r r1 refl refl q) q
            ∙ exec_ops-first c2 cs f r1 r2 (single c2 r1 r2 (rw saved refl) refl q) q),
        view,
        refl,
        (refl, refl, refl, refl),
      )

  module _ (law : IsKernel k) where
    pub save_struct_lem :
        (op : OpConfig) (r : Reader)
        → op.pre_code ≡ op_value op_skip
        → HasRoom r.event
        → 0 < r.op.read_len
        → r.op.read_len ≤ max_bytes_arr_size
        → (r' : Reader) × (save_struct k op r ≡ next r')
          × (stream r'.event
              ≡ emit (stream r.event) (
                  encode (
                    block r.op.save_index
                      (contents (k.probe_read (untag r.op.read_addr) r.op.read_len)))))
          × SameNotes r r'
    unfolding save_struct struct_len op_value after
    save_struct_lem op r plain room pos small =
        let len : struct_len op r.op.read_len ≡ r.op.read_len = ground arith in
        let b =
          bytes-SavesBlock k law r.op.save_index r.event (k.probe_read (untag r.op.read_addr))
            r.op.read_len room (law.read_fills _) pos small in
        (
          record r {
            event = b.event;
            op = record r.op {
              read_addr = untag r.op.read_addr;
              read_len = r.op.read_len;
              save_index = u8 (r.op.save_index + 1);
            };
          },
          rw (len, b.returns) refl,
          b.view,
          (refl, refl, refl, refl),
        )

    pub save_string_lem :
        (r : Reader)
        → HasRoom r.event
        → (r' : Reader) × (save_string k r ≡ next r')
          × (stream r'.event
              ≡ emit (stream r.event) (
                  encode (
                    block r.op.save_index
                      (contents (k.probe_read_str (untag r.op.read_addr) max_string_size)))))
          × SameNotes r r'
    unfolding save_string after
    save_string_lem r room =
        let b =
          str-SavesBlock k law r.op.save_index r.event (k.probe_read_str (untag r.op.read_addr))
            room (law.read_str_fits _) in
        (
          record r {
            event = b.event;
            op = record r.op {
              read_addr = untag r.op.read_addr;
              str_len =
                  if b.status == 0
                  then r.op.str_len
                  else (b.event.buf_off + 2 ^ 32 - (r.event.buf_off + sizeof_int + 1)) % 2 ^ 32;
              save_index = u8 (r.op.save_index + 1);
            };
          },
          rw b.returns refl,
          b.view,
          (refl, refl, refl, refl),
        )
