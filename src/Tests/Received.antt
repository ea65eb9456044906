-- ===== src/Tests/Received.antt =====
-- Records of a call with a number and texts, and of a probe with a returned text.
use stackplz.Base.{ℕ, ◌^◌, ◌<◌, ◌≡◌, refl, arith, none, some, List, [], ◌∷◌, ◌++◌, map}
use stackplz.Types.{EventContext, CommonFilter, syscall_enter, syscall_exit, uprobe_exit}
use stackplz.Event.Entries.{Entry, word, block, encode_all}
use stackplz.Filtering.{should_trace}
use stackplz.Programs.World.{Output, perf, send_signal_thread}
use stackplz.Programs.Submit.{link_register, stack_pointer, signals}
use stackplz.Programs.Submit.Report.{origin, Sent}
use stackplz.Programs.Syscall.{sysno}
use stackplz.Programs.Syscall.Exit.{number as number_entry, no_signals}
use stackplz.Decoder.Args.{text, Parsed, plain, with_bytes, reads_at, ebpf_sys_exit, ebpf_sys_all}
use stackplz.Decoder.Record.{SyscallPoint}
use stackplz.Decoder.Uprobe.{UprobePoint, parse_uprobe_record}
use stackplz.Decoder.Context.{IsContext}
use stackplz.Decoder.Saves.{SavesAll, nothing, argument, a_number, a_text, unread}
use stackplz.Decoder.Sent.{sample, IsOrigin}
use stackplz.Decoder.SentProbe.{SavesPoint, at_return, a_ret, probe-parse_uprobe}
use stackplz.Tests.{config, point, interrupted, blank_context}
use stackplz.Tests.Decoding.{an_arg, blank_context-IsContext, texts_of, entries}

abbrev tracing : CommonFilter
tracing = record { is_32bit = 0; trace_mode = 1; trace_uid_group = 8; signal = 0; tsignal = 0 }

abbrev calls : List SyscallPoint
calls = record { nr = 56; enter_args = texts_of; exit_args = texts_of } ∷ []

abbrev context_at : ℕ → ℕ → EventContext
context_at id n = record blank_context { eventid = id; argnum = n }

context_at-IsContext : (id n : ℕ) → id < 2 ^ 32 → n < 256 → IsContext (context_at id n)
context_at-IsContext id n h h' =
    let v = blank_context-IsContext in
    record {
      ts = v.ts;
      eventid = h;
      host_tid = v.host_tid;
      host_pid = v.host_pid;
      tid = v.tid;
      pid = v.pid;
      uid = v.uid;
      comm = v.comm;
      argnum = h';
      padding = v.padding;
    }

-- A call of thread 70 was reported with these entries.
abbrev entered :
    Sent config
      (λ id. none)
      syscall_enter
      (config.sysenter_point_args (sysno interrupted))
      (λ f. origin f interrupted (sysno interrupted))
      signals
      []
      (perf (context_at syscall_enter 9) (encode_all (origin tracing interrupted 56 ++ entries))
        ∷ send_signal_thread 19
        ∷ [])
unfolding should_trace signals
entered = record {
  config = record { stackplz_pid = 1; thread_whitelist = 0 };
  known = refl;
  context = blank_context;
  traced = λ e. omega arith;
  filter = tracing;
  has_filter = refl;
  args = point;
  has_point = refl;
  entries = entries;
  number = 9;
  counts = refl;
  sent = refl;
}

call-IsOrigin : IsOrigin tracing interrupted 56
unfolding link_register stack_pointer
call-IsOrigin = record { point = omega arith; lr = omega arith; sp = omega arith; pc = omega arith }

abbrev exit_values : List Parsed
exit_values = plain 5 ∷ with_bytes 4096 (b'a' ∷ b'b' ∷ 0 ∷ []) ∷ plain 8192 ∷ []

abbrev exit_entries : List Entry
exit_entries = word 8 4 5 ∷ word 8 5 4096 ∷ block 6 (b'a' ∷ b'b' ∷ 0 ∷ []) ∷ word 8 7 8192 ∷ []

exit_saved : SavesAll (map (reads_at ebpf_sys_exit) texts_of) exit_values exit_entries
unfolding reads_at
exit_saved = argument (a_number 4 5 (omega arith)) (
    argument (a_text 5 6 4096 _ refl (omega arith) (omega arith))
      (argument (unread 7 8192 (omega arith)) nothing))

abbrev exited :
    Sent config
      (λ id. none)
      syscall_exit
      (config.sysexit_point_args (sysno interrupted))
      (number_entry interrupted)
      no_signals
      []
      (perf (context_at syscall_exit 5) (encode_all (word 4 0 56 ∷ exit_entries)) ∷ [])
unfolding should_trace
exited = record {
  config = record { stackplz_pid = 1; thread_whitelist = 0 };
  known = refl;
  context = blank_context;
  traced = λ e. omega arith;
  filter = tracing;
  has_filter = refl;
  args = point;
  has_point = refl;
  entries = exit_entries;
  number = 5;
  counts = refl;
  sent = refl;
}

-- A text is returned at point 1, which has no arguments.
abbrev probes : List UprobePoint
probes =
    record { point_args = []; ret_arg = none }
    ∷ record { point_args = []; ret_arg = some (an_arg text 0 ebpf_sys_all) }
    ∷ []

abbrev returned_entries : List Entry
returned_entries = (word 8 4 4096 ∷ block 5 (b'a' ∷ 0 ∷ []) ∷ []) ++ []

abbrev returned :
    Sent config
      (λ id. none)
      uprobe_exit
      (some point)
      (λ f. origin f interrupted 1)
      signals
      []
      (perf
          (context_at uprobe_exit 6)
          (encode_all (origin tracing interrupted 1 ++ returned_entries))
        ∷ send_signal_thread 19
        ∷ [])
unfolding should_trace signals
returned = record {
  config = record { stackplz_pid = 1; thread_whitelist = 0 };
  known = refl;
  context = blank_context;
  traced = λ e. omega arith;
  filter = tracing;
  has_filter = refl;
  args = point;
  has_point = refl;
  entries = returned_entries;
  number = 6;
  counts = refl;
  sent = refl;
}

returned_saved :
    SavesPoint
      (record { point_args = []; ret_arg = some (an_arg text 0 ebpf_sys_all) })
      uprobe_exit
      (some (with_bytes 4096 (b'a' ∷ 0 ∷ [])))
      []
      returned_entries
unfolding reads_at
returned_saved = at_return (a_ret (a_text 4 5 4096 _ refl (omega arith) (omega arith))) nothing

probe-IsOrigin : IsOrigin tracing interrupted 1
unfolding link_register stack_pointer
probe-IsOrigin = record {
  point = omega arith;
  lr = omega arith;
  sp = omega arith;
  pc = omega arith;
}

probe-parse_uprobe_example :
    (o : Output) × (perf
          (context_at uprobe_exit 6)
          (encode_all (origin tracing interrupted 1 ++ returned_entries))
        ∷ send_signal_thread 19
        ∷ []
      ≡ o ∷ signals tracing point)
    × (parse_uprobe_record probes (sample o (9 ∷ []))
        ≡ some (
          (
            context_at uprobe_exit 6,
            record {
              probe_index = 1;
              lr = link_register tracing interrupted;
              sp = stack_pointer tracing interrupted;
              pc = 7;
              ret = some (with_bytes 4096 (b'a' ∷ 0 ∷ []));
              args = [];
            },
          ),
          9 ∷ [],
        ))
unfolding returned
probe-parse_uprobe_example =
    probe-parse_uprobe config (λ id. none) interrupted [] _ probes _
      (some (with_bytes 4096 (b'a' ∷ 0 ∷ []))) [] (9 ∷ []) uprobe_exit 1 (some point) returned refl
      (context_at-IsContext uprobe_exit 6 (omega arith) (omega arith)) probe-IsOrigin returned_saved
