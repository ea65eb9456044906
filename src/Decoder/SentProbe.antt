-- ===== src/Decoder/SentProbe.antt =====
-- What the handlers of function probes send is read back by user space.
use stackplz.Base.{
  ℕ, ◌≡◌, refl, ap, ◌∙◌, Option, none, some, Bool, false, not, ◌||◌, ◌==◌, List, [], ◌∷◌, ◌++◌, map,
  get_elem?,
}
use stackplz.Types.{EventContext, CommonFilter, PointArgs, uprobe_enter, uprobe_exit}
use stackplz.Kernel.{Config}
use stackplz.Event.Entries.{Entry, encode_all}
use stackplz.Programs.World.{PtRegs, Output, perf}
use stackplz.Programs.Submit.{link_register, stack_pointer, signals}
use stackplz.Programs.Submit.Report.{origin, Sent}
use stackplz.Decoder.Fields.{bind-some}
use stackplz.Decoder.Args.{Kind, Parsed, PointArg, reads_at, ebpf_uprobe_enter, ebpf_uprobe_exit}
use stackplz.Decoder.Uprobe.{
  UprobeFields, UprobePoint, parse_while, parse_ret, parse_values, parse_uprobe,
  parse_uprobe_record,
}
use stackplz.Decoder.Record.{parse_context}
use stackplz.Decoder.Context.{IsContext, parse_context-encode_context}
use stackplz.Decoder.Saves.{Saves, SavesAll, nothing, argument}
use stackplz.Decoder.RoundTrip.{put_all, put_all_lem, put_all-append, register_there, parse_arg_lem}
use stackplz.Decoder.Sent.{sample, IsOrigin, next_arg, context_of}

parse_while_lem :
    {args : List (Kind × Bool)} {results : List Parsed} {entries : List Entry} (rest : List ℕ)
    → SavesAll args results entries
    → parse_while args (put_all entries rest) ≡ some (results, rest)
unfolding parse_while put_all
parse_while_lem rest nothing = refl
parse_while_lem rest (argument {arg} {args} {entries} {more} one others) =
    let (v, left, e) = register_there (put_all more rest) one in
    ap (parse_while (arg ∷ args)) (put_all-append entries more rest)
    ∙ rw (parse_while, e)
        (bind-some _ _ (parse_arg_lem (put_all more rest) one)
          ∙ bind-some _ _ (parse_while_lem rest others))

-- The entries of the returned value, where it is configured.
pub data SavesRet : Option PointArg → Option Parsed → List Entry → Type 0 where
  no_ret : SavesRet none none []
  a_ret :
      {arg : PointArg} {result : Parsed} {entries : List Entry}
      → Saves (reads_at ebpf_uprobe_exit arg) result entries
      → SavesRet (some arg) (some result) entries

parse_ret_lem :
    {arg : Option PointArg} {ret : Option Parsed} {entries : List Entry} (rest : List ℕ)
    → SavesRet arg ret entries
    → parse_ret arg (put_all entries rest) ≡ some (ret, rest)
unfolding parse_ret put_all
parse_ret_lem rest no_ret = refl
parse_ret_lem rest (a_ret one) =
    let (v, left, e) = register_there rest one in
    rw (parse_ret, e) (bind-some _ _ (parse_arg_lem rest one))

-- The entries of a point, at its entry and at its return.
pub data SavesPoint (p : UprobePoint) : ℕ → Option Parsed → List Parsed → List Entry → Type 0 where
  at_entry :
      {results : List Parsed} {entries : List Entry}
      → SavesAll (map (reads_at ebpf_uprobe_enter) p.point_args) results entries
      → SavesPoint p uprobe_enter none results entries
  at_return :
      {ret : Option Parsed} {results : List Parsed} {first entries : List Entry}
      → SavesRet p.ret_arg ret first
      → SavesAll (map (reads_at ebpf_uprobe_exit) p.point_args) results entries
      → SavesPoint p uprobe_exit ret results (first ++ entries)

parse_values_lem :
    {p : UprobePoint} {id : ℕ} {ret : Option Parsed} {results : List Parsed} {entries : List Entry}
    (rest : List ℕ)
    → SavesPoint p id ret results entries
    → parse_values p id (put_all entries rest) ≡ some ((ret, results), rest)
unfolding parse_values
parse_values_lem rest (at_entry saved) = bind-some _ _ (parse_while_lem rest saved)
parse_values_lem rest (at_return {first} {entries} ret saved) =
    rw (put_all-append first entries rest) (
      bind-some _ _ (parse_ret_lem (put_all entries rest) ret)
      ∙ bind-some _ _ (parse_while_lem rest saved))

is_probe :
    {p : UprobePoint} {id : ℕ} {ret : Option Parsed} {results : List Parsed} {entries : List Entry}
    → SavesPoint p id ret results entries
    → not (id == uprobe_enter || id == uprobe_exit) ≡ false
is_probe (at_entry saved) = refl
is_probe (at_return ret saved) = refl

module _ (points : List UprobePoint) (p : UprobePoint) (ret : Option Parsed) (results : List Parsed)
    (entries : List Entry) (rest : List ℕ) (c : EventContext) (f : CommonFilter) (pt : PtRegs)
    (key : ℕ) (known : get_elem? points key ≡ some p) (v : IsOrigin f pt key)
    (saved : SavesPoint p c.eventid ret results entries) where
  abbrev fields : UprobeFields
  fields = record {
    probe_index = key;
    lr = link_register f pt;
    sp = stack_pointer f pt;
    pc = pt.pc;
    ret = ret;
    args = results;
  }

  parse_uprobe_lem :
      parse_uprobe points c (encode_all (origin f pt key ++ entries) ++ rest) ≡ some (fields, rest)
  unfolding parse_uprobe put_all
  parse_uprobe_lem =
      rw (put_all_lem (origin f pt key ++ entries) rest, is_probe saved)
        (next_arg _ 4 0 key _ v.point (
          next_arg _ 8 1 _ _ v.lr (
            next_arg _ 8 2 _ _ v.sp
              (next_arg _ 8 3 _ _ v.pc (rw known (bind-some _ _ (parse_values_lem rest saved)))))))

  pub uprobe_record_lem :
      IsContext c
      → parse_uprobe_record points (sample (perf c (encode_all (origin f pt key ++ entries))) rest)
        ≡ some ((c, fields), rest)
  unfolding parse_uprobe_record sample
  uprobe_record_lem w =
      bind-some parse_context _ (parse_context-encode_context c _ w)
      ∙ bind-some (parse_uprobe points c) _ parse_uprobe_lem

-- A record that the handler of an entry or a return point sends, of numbers in the width of their
-- types and a point that the decoder knows, where the entries behind the first four are those of
-- the point, of types that the decoder takes whole (at a return the value returned, if it is
-- configured, then the arguments): the decoder reads the context, the number of the point, `lr`,
-- `sp`, `pc`, the value returned and those of the arguments back, and leaves what follows the
-- record.
pub probe-parse_uprobe :
    (cfg : Config) (forks : ℕ → Option ℕ) (pt : PtRegs) (before out : List Output)
    (points : List UprobePoint) (p : UprobePoint) (ret : Option Parsed) (results : List Parsed)
    (rest : List ℕ) (id key : ℕ) (point : Option PointArgs)
    (sent : Sent cfg forks id point (λ f. origin f pt key) signals before out)
    → get_elem? points key ≡ some p
    → IsContext (context_of sent)
    → IsOrigin sent.filter pt key
    → SavesPoint p id ret results sent.entries
    → (o : Output) × (out ≡ before ++ (o ∷ signals sent.filter sent.args))
      × (parse_uprobe_record points (sample o rest)
          ≡ some (
            (
              context_of sent,
              record {
                probe_index = key;
                lr = link_register sent.filter pt;
                sp = stack_pointer sent.filter pt;
                pc = pt.pc;
                ret = ret;
                args = results;
              },
            ),
            rest,
          ))
probe-parse_uprobe cfg forks pt before out points p ret results rest id key point sent known w v
      saved =
    (
      perf (context_of sent) (encode_all (origin sent.filter pt key ++ sent.entries)),
      sent.sent,
      uprobe_record_lem points p ret results sent.entries rest (context_of sent) sent.filter pt key
          known v saved w,
    )
