-- ===== src/Compiler/Runs/Kinds.antt =====
-- The operations of a type, run from the address of an argument.
use stackplz.Base.{ℕ, ◌<◌, ◌≤◌, ◌≡◌, refl, ap, sym, ◌∙◌, arith, List, [], ◌∷◌, ◌++◌}
use stackplz.Types.{
  max_bytes_arr_size, max_string_size, op_save_string, op_read_std_string, op_set_read_len,
  op_save_struct, op_code, op_value, OpConfig, CtxRegs,
}
use stackplz.Kernel.{Kernel, Target, Config, IsKernel}
use stackplz.Event.Stream.{stream}
use stackplz.Event.Entries.{Entry, block, emit_all, emit_all-append}
use stackplz.Decoder.Args.{
  Kind, number, text, std_text, buffer, number_ptr, texts, vectors, structure,
}
use stackplz.ReadArgs.State.{u32, untag, Reader, Step}
use stackplz.ReadArgs.Exec.{exec, std_string_data}
use stackplz.ReadArgs.Blocks.{contents, HasRoom}
use stackplz.ReadArgs.Program.{start_op, second, exec_ops, exec_ops-append}
use stackplz.Compiler.Ops.{rop, new_value, set_save_struct, joined, type_ops, max_buf_read_size}
use stackplz.Compiler.Compiled.{configs}
use stackplz.Compiler.Runs.Single.{
  IsQuiet, SameNotes, exec_ops-first, single, both-halves, save_struct_lem, save_string_lem,
}

-- Operations run to their end, save these entries, and note nothing about filters.
pub record Runs (k : Kernel) (t : Target) (cfg : Config) (regs : CtxRegs) (cs : List OpConfig)
    (r : Reader) (entries : List Entry) : Type 0 where
  pub after : Reader
  pub runs : (f : Reader → Step) → exec_ops k t cfg regs cs f r ≡ f after
  pub view : stream after.event ≡ emit_all (stream r.event) entries
  pub notes : SameNotes r after

-- The type has no loop, and a size that the reader does not cut.
abbrev pub IsSimple : Kind → Type 0
IsSimple texts = ⊥
IsSimple vectors = ⊥
IsSimple (structure n taken) = (0 < n) × (n ≤ max_bytes_arr_size)
IsSimple _ = Unit

-- The bytes that an argument of a type stands for, by its address.
unfoldable pub pointed : Kernel → Target → ℕ → Kind → List ℕ
pointed k t a text = contents (k.probe_read_str (untag a) max_string_size)
pointed k t a std_text = contents (k.probe_read_str (untag (std_string_data k t a)) max_string_size)
pointed k t a buffer = contents (k.probe_read (untag a) max_buf_read_size)
pointed k t a number_ptr = contents (k.probe_read (untag a) 8)
pointed k t a (structure n taken) = contents (k.probe_read (untag a) n)
pointed k t a _ = []

-- A number has no more entry than its register.
abbrev pub pointed_entries : Kernel → Target → ℕ → ℕ → Kind → List Entry
pointed_entries k t index a number = []
pointed_entries k t index a kind = block index (pointed k t a kind) ∷ []

module _ (k : Kernel) (t : Target) (cfg : Config) (regs : CtxRegs) where
  pub Runs-append :
      (cs cs' : List OpConfig) (r : Reader) {entries more : List Entry}
      (p : Runs k t cfg regs cs r entries)
      → Runs k t cfg regs cs' p.after more
      → Runs k t cfg regs (cs ++ cs') r (entries ++ more)
  Runs-append cs cs' r {entries} {more} p q = record {
    after = q.after;
    runs = λ f.
        exec_ops-append k t cfg regs cs cs' f r ∙ p.runs (exec_ops k t cfg regs cs' f) ∙ q.runs f;
    view =
        q.view
        ∙ ap (λ s. emit_all s more) p.view
        ∙ sym (emit_all-append (stream r.event) entries more);
    notes = (
      q.notes.0 ∙ p.notes.0,
      q.notes.1 ∙ p.notes.1,
      q.notes.2 ∙ p.notes.2,
      q.notes.3 ∙ p.notes.3,
    );
  }

  module _ (law : IsKernel k) where
    struct-Runs :
        (n : ℕ) (r : Reader)
        → 0 < n
        → n ≤ max_bytes_arr_size
        → HasRoom r.event
        → IsQuiet r
        → Runs k t cfg regs
            (configs (set_save_struct n ∷ []))
            r
            (block r.op.save_index (contents (k.probe_read (untag r.op.read_addr) n)) ∷ [])
    unfolding set_save_struct joined op_value op_code exec exec_ops emit_all
    struct-Runs n r pos small room q =
        let c = (set_save_struct n).config in
        let len : u32 n ≡ n = omega arith in
        let r1 = record (start_op c r) { op = record (start_op c r).op { read_len = n } } in
        let (r', saved, view, notes) =
          save_struct_lem k t cfg regs law c (second c r1) refl room pos small in
        let quiet : IsQuiet r' = rw notes.0 q in
        record {
          after = r';
          runs = λ f.
              exec_ops-first k t cfg regs c [] f r r'
                (both-halves k t cfg regs c r r1 (rw len refl) q ∙ saved) quiet;
          view = view;
          notes = notes;
        }

    text-Runs :
        (r : Reader)
        → HasRoom r.event
        → IsQuiet r
        → Runs k t cfg regs
            (configs (rop "SAVE_STRING" op_save_string ∷ []))
            r
            (block r.op.save_index (pointed k t r.op.read_addr text) ∷ [])
    unfolding rop op_value op_code exec exec_ops emit_all pointed
    text-Runs r room q =
        let c = (rop "SAVE_STRING" op_save_string).config in
        let (r', saved, view, notes) = save_string_lem k t cfg regs law (start_op c r) room in
        let quiet : IsQuiet r' = rw notes.0 q in
        record {
          after = r';
          runs = λ f.
              exec_ops-first k t cfg regs c [] f r r' (single k t cfg regs c r r' saved refl quiet)
                quiet;
          view = view;
          notes = notes;
        }

    std_text-Runs :
        (r : Reader)
        → HasRoom r.event
        → IsQuiet r
        → Runs k t cfg regs
            (configs
              (rop "READ_STD_STRING" op_read_std_string ∷ rop "SAVE_STRING" op_save_string ∷ []))
            r
            (block r.op.save_index (pointed k t r.op.read_addr std_text) ∷ [])
    unfolding rop op_value op_code exec pointed
    std_text-Runs r room q =
        let c = (rop "READ_STD_STRING" op_read_std_string).config in
        let r1 = record (start_op c r) {
          op = record (start_op c r).op { read_addr = std_string_data k t r.op.read_addr };
        } in
        let p = text-Runs r1 room q in
        record {
          after = p.after;
          runs = λ f.
              exec_ops-first k t cfg regs c _ f r r1 (single k t cfg regs c r r1 refl refl q) q
              ∙ p.runs f;
          view = p.view;
          notes = p.notes;
        }

    structure-Runs :
        (n taken : ℕ) (r : Reader)
        → 0 < n
        → n ≤ max_bytes_arr_size
        → HasRoom r.event
        → IsQuiet r
        → Runs k t cfg regs
            (configs (type_ops (structure n taken)))
            r
            (block r.op.save_index (pointed k t r.op.read_addr (structure n taken)) ∷ [])
    unfolding type_ops rop new_value op_value op_code exec exec_ops emit_all pointed
    structure-Runs n taken r pos small room q =
        let c = (new_value (rop "SET_READ_LEN" op_set_read_len) n).config in
        let c' = (rop "SAVE_STRUCT" op_save_struct).config in
        let len : u32 n ≡ n = omega arith in
        let r1 = record (start_op c r) { op = record (start_op c r).op { read_len = n } } in
        let (r', saved, view, notes) =
          save_struct_lem k t cfg regs law c' (start_op c' r1) refl room pos small in
        let quiet : IsQuiet r' = rw notes.0 q in
        record {
          after = r';
          runs = λ f.
              exec_ops-first k t cfg regs c (c' ∷ []) f r r1
                (single k t cfg regs c r r1 (rw len refl) refl q) q
              ∙ exec_ops-first k t cfg regs c' [] f r1 r'
                  (single k t cfg regs c' r1 r' saved refl quiet) quiet;
          view = view;
          notes = notes;
        }

    -- The operations of a type save what is at the address.
    pub type_ops-Runs :
        (kind : Kind) (r : Reader)
        → IsSimple kind
        → HasRoom r.event
        → IsQuiet r
        → Runs k t cfg regs
            (configs (type_ops kind))
            r
            (pointed_entries k t r.op.save_index r.op.read_addr kind)
    unfolding type_ops exec_ops emit_all pointed
    type_ops-Runs number r s room q = record {
      after = r;
      runs = λ f. refl;
      view = refl;
      notes = (refl, refl, refl, refl);
    }
    type_ops-Runs text r s room q = text-Runs r room q
    type_ops-Runs std_text r s room q = std_text-Runs r room q
    type_ops-Runs buffer r s room q =
        struct-Runs max_buf_read_size r (omega arith) (omega arith) room q
    type_ops-Runs number_ptr r s room q = struct-Runs 8 r (omega arith) (omega arith) room q
    type_ops-Runs (structure n taken) r s room q = structure-Runs n taken r s.0 s.1 room q
    type_ops-Runs texts r s room q = absurd s
    type_ops-Runs vectors r s room q = absurd s
