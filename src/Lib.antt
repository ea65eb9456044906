-- ===== src/Lib.antt =====
-- The BPF programs of stackplz, and its loader of the stack unwinder.
--
-- User space fills maps with what to trace and how to read arguments. The kernel runs a program at
-- the fork of a process, at the entry and exit of a system call (src/syscall.c), and at the entry
-- and return of a probed function (src/stack.c). A program fills the context of a record with the
-- current task, asks whether the task is traced, saves arguments into the record's buffer, runs the
-- interpreter of the configured operations, and sends the record and signals.
--
-- Which file models which code:
-- - Types (Ops, Consts, Records, Args): src/types.h, src/common/consts.h. A structure is a record
--   of numbers and lists, with the names of the source.
-- - Kernel: the helpers and the read-only maps (src/maps.h), as parameters. `Kernel` holds what
--   reads of memory yield, `IsKernel` what is documented of them: a read fills its destination, and
--   a read of a string at most that.
-- - Event: the record under construction, `event_data_t`. A write through an offset yields `fault`
--   outside the buffer. Event/Stream is the abstract view: the context and the bytes saved so far.
--   Event/Entries is what a sequence of saved arguments looks like.
-- - Buffer: src/common/buffer.h: `save_to_submit_buf`, `save_bytes_to_buf`, `save_str_to_buf`,
--   `save_str_arr_to_buf`. Its children compare each with the stream.
-- - ReadArgs: `read_args` of src/utils.h. State is its state, Exec and Filters the cases of its
--   switch, Strcmp `make_str_buf` and `strcmp_by_map` of src/common/buffer.h.
-- - Filtering: `should_trace` of src/common/filtering.h.
-- - Programs: World (the maps that programs write, and what was sent), Regs
--   (src/common/arguments.h), Context (src/common/task.h and context.h), Submit (what the handlers
--   share, with `events_perf_submit` of src/common/buffer.h), Fork, Syscall and Probe (the handlers
--   of src/syscall.c and src/stack.c).
-- - Memory: the getters of src/memory.h with READ_KERN of src/common/common.h; the offsets in the
--   kernel's structures are a parameter. Nothing calls them.
-- - Unwinder: user/event/load_so.c.
-- - Decoder: what user space reads of a record (in Go): `ReadArg` of user/event/ievent.go, the
--   `ParseContext` of event_context.go, event_raw_syscalls.go and event_uprobe.go beside it, and the
--   types of user/argtype (argtype_base.go, argtype_complex.go). Args, Record and Uprobe are the code;
--   Saves says which entries hold which values, and RoundTrip, Sent, SentProbe and Vectors compare.
--   A type that the decoder takes whole is one whose callback takes all bytes that the reader saves
--   of it: of the plain structures that are registered, every one but `dirent`, about which is
--   Dirent.
-- - Compiler: how user space (in Go) compiles arguments to operations. The root is `OpManager` of
--   user/argtype/op_helper.go; Ops the operations of an argument (`GetOpList` of
--   user/config/config_point_arg.go) and of its type (user/argtype/argtype_complex.go and
--   iargtype.go); Points the list of keys of a point (`AddPointArg` of user/config/iconfig.go, and
--   what config_syscall.go and config_uprobe.go beside it make of it). Dense is about the manager,
--   Filled about the lists, Compiled and Registered about the operations behind the keys. Runs
--   (Single, Kinds, Filters, Args, Ops, Entries, Entry, Point, Shape) follows the operations of an
--   argument in the reader, with ReadArgs/Straight, Program, Sequence and Blocks for its loop and
--   for what it saves.
--   Loaded, Saved and Received put the compiler, the reader and the decoder together, Ran, Handled,
--   Sent, SentProbe and SentReturn the handlers of `sys_enter`, of the entry and of the return of a
--   function around them, Rejected the first of them where a filter rejects a value; Result, Exited
--   and SentExit are about the handler of `sys_exit`, and Paired about an entry and the exit that
--   follows it.
-- - Configuration: what the user writes (in Go). Numbers is `StrToNum64` of user/util/helper.go with
--   the functions of Go's library below it, Filters is user/config/config_filter.go and the loop of
--   user/module/syscall.go that fills the map `arg_filter`. Numerals and Hex are about numbers, Added
--   and Found about the list of filters, Compared, Matched and Texts about what a filter does in the
--   kernel.
-- - Base holds what the others share; Tests runs the code at concrete states.
--
-- Stateful code passes its state explicitly. An early return is a branch that closes the session,
-- that is, writes the record back into its map. A handler runs to its end before the next on the
-- same processor; runs on other processors at the same time are not modelled. Integers are natural
-- numbers, with wrap-around written out as in `% 2 ^ 32`.
--
-- The loop of `read_args` takes `max_op_count` rounds at most, as MAX_OP_COUNT bounds it in the
-- source, and that of `save_str_arr_to_buf` 128; a number is written with at most as many digits as
-- its value plus one. No other fuel is used.
--
-- Not modelled: the kernel itself and libbpf; debug output; the status of the helper that sends a
-- record; `get_buf`, which nothing calls; `free_stack_str`; of user space in Go, the parsing of
-- options and files but for filters, the reading of an address of the internet (`net.ParseIP`, a
-- parameter), the extra operations of an argument, the names of types, the types that the
-- compiler's `Kind` does not list, what the decoder prints, and its callbacks for the remaining
-- structures. A type is known by its kind: the types of one kind have the same operations.
pub mod Base
pub mod Types
pub mod Kernel
pub mod Event
pub mod Buffer
pub mod ReadArgs
pub mod Memory
pub mod Filtering
pub mod Programs
pub mod Unwinder
pub mod Tests
pub mod Decoder
pub mod Compiler
pub mod Configuration
