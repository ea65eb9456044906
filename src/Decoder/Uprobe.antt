-- ===== src/Decoder/Uprobe.antt =====
-- user/event/event_uprobe.go: the record of a probed function.
use stackplz.Base.{
  ℕ, Option, none, some, List, [], ◌∷◌, map, get_elem?, ◌==◌, ◌||◌, Bool, not, if◌then◌else◌,
}
use stackplz.Types.{EventContext, uprobe_enter, uprobe_exit}
use stackplz.Decoder.{Reads, ◌>>=◌, pure, panic, read_arg}
use stackplz.Decoder.Args.{
  Kind, Parsed, PointArg, reads_at, ebpf_uprobe_enter, ebpf_uprobe_exit, read_address, parse_arg,
}
use stackplz.Decoder.Record.{parse_context}

-- What is printed of a probe; `ret` is the returned value.
pub record UprobeFields : Type 0 where
  pub probe_index : ℕ
  pub lr : ℕ
  pub sp : ℕ
  pub pc : ℕ
  pub ret : Option Parsed
  pub args : List Parsed

-- `config.UprobeArgs`
pub record UprobePoint : Type 0 where
  pub point_args : List PointArg
  pub ret_arg : Option PointArg

-- The arguments of a point; they end where a register cannot be read, which empties the buffer.
unfoldable pub parse_while : List (Kind × Bool) → Reads (List Parsed)
parse_while [] buf = some ([], buf)
parse_while (arg ∷ args) buf =
    let more = parse_while args in
    elim (read_address buf) [
      | none ↦ some ([], [])
      | some _ ↦ (parse_arg arg >>= λ result. more >>= λ results. pure (result ∷ results)) buf
    ]

-- the returned value: `none` is one that is not configured or not there
unfoldable pub parse_ret : Option PointArg → Reads (Option Parsed)
parse_ret none buf = some (none, buf)
parse_ret (some arg) buf = elim (read_address buf) [
  | none ↦ some (none, [])
  | some _ ↦ (parse_arg (reads_at ebpf_uprobe_exit arg) >>= λ result. pure (some result)) buf
]

-- what follows the number of the point, `lr`, `sp` and `pc`
unfoldable pub parse_values : UprobePoint → ℕ → Reads (Option Parsed × List Parsed)
unfolding parse_while parse_ret
parse_values point eventid =
    if eventid == uprobe_enter
    then (do
      results ← parse_while (map (reads_at ebpf_uprobe_enter) point.point_args)
      pure (none, results))
    else do
      ret ← parse_ret point.ret_arg
      results ← parse_while (map (reads_at ebpf_uprobe_exit) point.point_args)
      pure (ret, results)

-- `UprobeEvent.ParseContext` up to the padding; a point out of range is a panic, by the test or by
-- the index where `ProbeIndex + 1` wraps around to 0
unfoldable pub parse_uprobe : List UprobePoint → EventContext → Reads UprobeFields
parse_uprobe points c =
    if not (c.eventid == uprobe_enter || c.eventid == uprobe_exit) then panic else do
      probe_index ← read_arg 4
      lr ← read_arg 8
      sp ← read_arg 8
      pc ← read_arg 8
      elim (get_elem? points probe_index) [
        | none ↦ panic
        | some point ↦ do
          (ret, results) ← parse_values point c.eventid
          pure (record {
            probe_index = probe_index;
            lr = lr;
            sp = sp;
            pc = pc;
            ret = ret;
            args = results;
          })
      ]

unfoldable pub parse_uprobe_record : List UprobePoint → Reads (EventContext × UprobeFields)
parse_uprobe_record points = do c ← parse_context; fields ← parse_uprobe points c; pure (c, fields)
