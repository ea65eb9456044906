-- ===== src/Decoder/Context.antt =====
-- The context of a record, as the kernel sends it and as user space reads it.
use stackplz.Base.{ℕ, ◌^◌, ◌<◌, ◌≡◌, refl, some, List, ◌++◌, length, le_bytes}
use stackplz.Types.{EventContext, task_comm_len}
use stackplz.Decoder.Fields.{next_num, next_bytes}
use stackplz.Decoder.Record.{parse_context}

-- `event_context_t` in memory, in front of other bytes; the fields leave no gap
unfoldable pub encode_context : EventContext → List ℕ → List ℕ
encode_context c rest =
    le_bytes 8 c.ts
    ++ (le_bytes 4 c.eventid
        ++ (le_bytes 4 c.host_tid
            ++ (le_bytes 4 c.host_pid
                ++ (le_bytes 4 c.tid
                    ++ (le_bytes 4 c.pid
                        ++ (le_bytes 4 c.uid
                            ++ (c.comm ++ (le_bytes 1 c.argnum ++ (c.padding ++ rest)))))))))

-- Every field has the width of its type.
pub record IsContext (c : EventContext) : Type 0 where
  pub ts : c.ts < 2 ^ 64
  pub eventid : c.eventid < 2 ^ 32
  pub host_tid : c.host_tid < 2 ^ 32
  pub host_pid : c.host_pid < 2 ^ 32
  pub tid : c.tid < 2 ^ 32
  pub pid : c.pid < 2 ^ 32
  pub uid : c.uid < 2 ^ 32
  pub comm : length c.comm ≡ task_comm_len
  pub argnum : c.argnum < 256
  pub padding : length c.padding ≡ 7

-- A context whose fields have the widths of their types is read back from its bytes, and what
-- follows it is left.
pub parse_context-encode_context :
    (c : EventContext) (rest : List ℕ)
    → IsContext c
    → parse_context (encode_context c rest) ≡ some (c, rest)
unfolding parse_context encode_context
parse_context-encode_context c rest v = next_num _ 8 _ _ v.ts (
    next_num _ 4 _ _ v.eventid (
      next_num _ 4 _ _ v.host_tid (
        next_num _ 4 _ _ v.host_pid (
          next_num _ 4 _ _ v.tid (
            next_num _ 4 _ _ v.pid (
              next_num _ 4 _ _ v.uid (
                next_bytes _ _ _ _ v.comm
                  (next_num _ 1 _ _ v.argnum (next_bytes _ _ _ _ v.padding refl)))))))))
