-- ===== src/Decoder/Sent.antt =====
-- What the handlers send is read back by user space.
use stackplz.Base.{ℕ, ◌^◌, ◌<◌, ◌≡◌, refl, ◌∙◌, Option, some, List, [], ◌∷◌, ◌++◌, map}
use stackplz.Types.{EventContext, CommonFilter, PointArgs, syscall_enter, syscall_exit}
use stackplz.Kernel.{Config}
use stackplz.Event.Entries.{Entry, word, encode, encode_all}
use stackplz.Programs.World.{PtRegs, Output, perf, send_signal, send_signal_thread}
use stackplz.Programs.Submit.{link_register, stack_pointer, signals}
use stackplz.Programs.Submit.Report.{origin, Sent}
use stackplz.Programs.Syscall.{sysno}
use stackplz.Programs.Syscall.Exit.{number, no_signals}
use stackplz.Decoder.{Reads, ◌>>=◌, read_arg}
use stackplz.Decoder.Fields.{bind-some, read_arg_lem}
use stackplz.Decoder.Args.{Parsed, reads_at, ebpf_sys_enter, ebpf_sys_exit}
use stackplz.Decoder.Record.{
  SyscallPoint, SyscallFields, get_syscall_point, parse_context, parse_enter, parse_exit,
  parse_syscall, parse_record,
}
use stackplz.Decoder.Context.{encode_context, IsContext, parse_context-encode_context}
use stackplz.Decoder.Saves.{SavesAll}
use stackplz.Decoder.RoundTrip.{put_all, put_all_lem, parse_point_put}

-- The bytes of a record as they come out of the ring, in front of what follows them there.
unfoldable pub sample : Output → List ℕ → List ℕ
sample (perf c bytes) rest = encode_context c (bytes ++ rest)
sample (send_signal n) rest = rest
sample (send_signal_thread n) rest = rest

-- The numbers that start a record have the widths of their types.
pub record IsOrigin (f : CommonFilter) (pt : PtRegs) (n : ℕ) : Type 0 where
  pub point : n < 2 ^ 32
  pub lr : link_register f pt < 2 ^ 64
  pub sp : stack_pointer f pt < 2 ^ 64
  pub pc : pt.pc < 2 ^ 64

pub next_arg :
    {A : Type 0} {r : Option (A × List ℕ)} (f : ℕ → Reads A) (w i v : ℕ) (rest : List ℕ)
    → v < 256 ^ w
    → f v rest ≡ r
    → (read_arg w >>= f) (encode (word w i v) ++ rest) ≡ r
unfolding encode
next_arg f w i v rest h e = bind-some (read_arg w) f (read_arg_lem w i v rest h) ∙ e

module _ (points : List SyscallPoint) (p : SyscallPoint) (results : List Parsed)
    (entries : List Entry) (rest : List ℕ) where
  pub parse_enter_lem :
      (c : EventContext) (f : CommonFilter) (pt : PtRegs) (nr : ℕ)
      → get_syscall_point points nr ≡ some p
      → c.eventid ≡ syscall_enter
      → IsOrigin f pt nr
      → SavesAll (map (reads_at ebpf_sys_enter) p.enter_args) results entries
      → parse_syscall points c (encode_all (origin f pt nr ++ entries) ++ rest)
        ≡ some (
          record {
            nr = nr;
            lr = link_register f pt;
            sp = stack_pointer f pt;
            pc = pt.pc;
            args = results;
          },
          rest,
        )
  unfolding parse_syscall parse_enter put_all
  parse_enter_lem c f pt nr known id v saved = rw (put_all_lem (origin f pt nr ++ entries) rest) (
      next_arg _ 4 0 nr _ v.point (
        rw (known, id)
          (next_arg _ 8 1 _ _ v.lr (
            next_arg _ 8 2 _ _ v.sp
              (next_arg _ 8 3 _ _ v.pc (bind-some _ _ (parse_point_put rest saved)))))))

  pub parse_exit_lem :
      (c : EventContext) (nr : ℕ)
      → get_syscall_point points nr ≡ some p
      → c.eventid ≡ syscall_exit
      → nr < 2 ^ 32
      → SavesAll (map (reads_at ebpf_sys_exit) p.exit_args) results entries
      → parse_syscall points c (encode_all (word 4 0 nr ∷ entries) ++ rest)
        ≡ some (record { nr = nr; lr = 0; sp = 0; pc = 0; args = results }, rest)
  unfolding parse_syscall parse_exit put_all
  parse_exit_lem c nr known id small saved =
      rw (put_all_lem (word 4 0 nr ∷ entries) rest)
        (next_arg _ 4 0 nr _ small (rw (known, id) (bind-some _ _ (parse_point_put rest saved))))

  pub record_lem :
      (c : EventContext) (bytes : List ℕ) (fields : SyscallFields)
      → IsContext c
      → parse_syscall points c (bytes ++ rest) ≡ some (fields, rest)
      → parse_record points (sample (perf c bytes) rest) ≡ some ((c, fields), rest)
  unfolding parse_record sample
  record_lem c bytes fields v e =
      bind-some parse_context _ (parse_context-encode_context c (bytes ++ rest) v)
      ∙ bind-some (parse_syscall points c) _ e

-- The context of the record that was sent.
abbrev pub context_of :
    {cfg : Config} {forks : ℕ → Option ℕ} {id : ℕ} {point : Option PointArgs}
    {first : CommonFilter → List Entry} {after : CommonFilter → PointArgs → List Output}
    {before out : List Output}
    → Sent cfg forks id point first after before out
    → EventContext
context_of {id} sent = record sent.context { eventid = id; argnum = sent.number }

module _ (cfg : Config) (forks : ℕ → Option ℕ) (pt : PtRegs) (before out : List Output)
    (points : List SyscallPoint) (p : SyscallPoint) (results : List Parsed) (rest : List ℕ)
    (known : get_syscall_point points (sysno pt) ≡ some p) where
  -- A record that `sys_enter` sends, of numbers in the width of their types and a call that the
  -- decoder knows, where the entries behind the first four are those of the arguments of the call:
  -- the decoder reads the context, the number of the call, `lr`, `sp`, `pc` and the values of the
  -- arguments back, and leaves what follows the record.
  pub sys_enter-parse_record :
      (sent : Sent cfg forks syscall_enter
        (cfg.sysenter_point_args (sysno pt))
        (λ f. origin f pt (sysno pt))
        signals
        before
        out)
      → IsContext (context_of sent)
      → IsOrigin sent.filter pt (sysno pt)
      → SavesAll (map (reads_at ebpf_sys_enter) p.enter_args) results sent.entries
      → (o : Output) × (out ≡ before ++ (o ∷ signals sent.filter sent.args))
        × (parse_record points (sample o rest)
            ≡ some (
              (
                context_of sent,
                record {
                  nr = sysno pt;
                  lr = link_register sent.filter pt;
                  sp = stack_pointer sent.filter pt;
                  pc = pt.pc;
                  args = results;
                },
              ),
              rest,
            ))
  sys_enter-parse_record sent v origin_ saved = (
    perf (context_of sent) (encode_all (origin sent.filter pt (sysno pt) ++ sent.entries)),
    sent.sent,
    record_lem points p results sent.entries rest _ _ _ v
        (parse_enter_lem points p results sent.entries rest _ _ _ _ known refl origin_ saved),
  )

  -- A record that `sys_exit` sends, of numbers in the width of their types and a call that the
  -- decoder knows, where the entries behind the first are those of the arguments of the exit: the
  -- decoder reads the context, the number of the call and the values of the arguments back, and
  -- leaves what follows the record.
  pub sys_exit-parse_record :
      (sent : Sent cfg forks syscall_exit
        (cfg.sysexit_point_args (sysno pt))
        (number pt)
        no_signals
        before
        out)
      → IsContext (context_of sent)
      → sysno pt < 2 ^ 32
      → SavesAll (map (reads_at ebpf_sys_exit) p.exit_args) results sent.entries
      → (o : Output) × (out ≡ before ++ (o ∷ []))
        × (parse_record points (sample o rest)
            ≡ some (
              (context_of sent, record { nr = sysno pt; lr = 0; sp = 0; pc = 0; args = results }),
              rest,
            ))
  sys_exit-parse_record sent v small saved = (
    perf (context_of sent) (encode_all (word 4 0 (sysno pt) ∷ sent.entries)),
    sent.sent,
    record_lem points p results sent.entries rest _ _ _ v
        (parse_exit_lem points p results sent.entries rest _ _ known refl small saved),
  )
