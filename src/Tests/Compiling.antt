-- ===== src/Tests/Compiling.antt =====
-- A number and two texts: their operations compiled, run and read back.
use stackplz.Base.{
  ltb, ◌==◌, ◌-◌, ◌≡◌, refl, arith, some, none, inr, false, true, [], ◌∷◌, ◌++◌, replicate, map,
  length, if◌then◌else◌, true, false,
}
use stackplz.Types.{CtxRegs, PointArgs, equal_filter, op_skip, op_save_string, op_code, op_value}
use stackplz.Kernel.{Config, Target}
use stackplz.Decoder.Args.{number, text, PointArg, ebpf_sys_enter, ebpf_sys_all, reads_at}
use stackplz.Compiler.{OpManager, add_op, get_op_list}
use stackplz.Compiler.Dense.{IsDense, Added, add_op-Added}
use stackplz.Compiler.Ops.{ArgTypes, text_filters, base_ops, add_ops, register_types}
use stackplz.Compiler.Points.{add_point_args, new_config}
use stackplz.Compiler.Filled.{point_keys, add_point_args-fills}
use stackplz.Compiler.Ops.{rop, arg_op_list}
use stackplz.ReadArgs.Exec.{reg_at}
use stackplz.Compiler.Compiled.{add_ops-Compiles, ArePlain}
use stackplz.Compiler.Registered.{Grows, AllRegistered, register_types-AllRegistered}
use stackplz.Compiler.Runs.Filters.{Admits}
use stackplz.ReadArgs.Filters.{rejects_value}
use stackplz.Compiler.Runs.Args.{printed}
use stackplz.Compiler.Runs.Point.{AreWhole, AreBare, printed_arg}
use stackplz.Compiler.Loaded.{IsCompiled}
use stackplz.Compiler.Saved.{IsFresh}
use stackplz.Compiler.Received.{Received, read_args-Received, read_args-returned}
use stackplz.Tests.{kernel, kernel-IsKernel, config, reader, blank_op}
use stackplz.ReadArgs.State.{Reader, next}
use stackplz.ReadArgs.{read_loop}
use stackplz.ReadArgs.Program.{start_op, exec_ops}
use stackplz.ReadArgs.Sequence.{read_loop-sequence}
use stackplz.Tests.Decoding.{texts_of, an_arg}

abbrev pub no_types : ArgTypes
no_types kind = []

-- the manager with the operations that exist from the start
abbrev pub base_manager : OpManager
base_manager = (add_ops base_ops []).1

abbrev pub types : ArgTypes
types = (register_types (number ∷ text ∷ []) (no_types, base_manager)).0

abbrev pub manager : OpManager
manager = (register_types (number ∷ text ∷ []) (no_types, base_manager)).1

-- The list that the kernel gets.
abbrev pub program : PointArgs
program = record {
  enter_key = 0;
  signal = 0;
  op_count = 9;
  op_key_list = 32 ∷ 9 ∷ 33 ∷ 34 ∷ 9 ∷ 25 ∷ 35 ∷ 9 ∷ 25 ∷ replicate 55 0;
}

-- The first filter admits the number 5.
abbrev pub loaded : Config
loaded = record config {
  arg_filter = λ key.
      if key == 1
      then some (record { filter_type = equal_filter; str_val = []; str_len = 0; num_val = 5 })
      else none;
  op_list = get_op_list (point_keys types texts_of manager).1;
  sysenter_point_args = λ nr. if nr == 56 then some program else none;
}

abbrev pub wide_target : Target
wide_target = record { is_arm = false; max_op_count = 64 }

abbrev pub regs : CtxRegs
regs = record { regs = replicate 31 5; sp = 6; pc = 7; flag = 0 }

pub base_manager-IsDense : IsDense base_manager
base_manager-IsDense = (add_ops-Compiles base_ops [] tt).0

registered :
    Grows (no_types, base_manager) (register_types (number ∷ text ∷ []) (no_types, base_manager))
    × AllRegistered types manager (number ∷ text ∷ [])
registered =
    register_types-AllRegistered (number ∷ text ∷ []) no_types base_manager base_manager-IsDense

register_types-AllRegistered_example :
    Grows (no_types, base_manager) (register_types (number ∷ text ∷ []) (no_types, base_manager))
    × AllRegistered types manager (number ∷ text ∷ [])
register_types-AllRegistered_example =
    register_types-AllRegistered (number ∷ text ∷ []) no_types base_manager base_manager-IsDense

pub manager-IsDense : IsDense manager
manager-IsDense = registered.0.0

pub texts_of-ArePlain : ArePlain types manager texts_of
texts_of-ArePlain =
    ((refl, registered.1.0), ((refl, registered.1.1.0), ((refl, registered.1.1.0), tt)))

pub texts_of-AreBare : AreBare ebpf_sys_enter regs texts_of
unfolding reg_at text_filters
texts_of-AreBare = (
  (record { filters = refl; register = omega arith; kind = tt; group = refl }, refl, omega arith),
  (
    (record { filters = refl; register = omega arith; kind = tt; group = refl }, refl, omega arith),
    (
      (
        record { filters = refl; register = omega arith; kind = tt; group = refl },
        refl,
        omega arith,
      ),
      tt,
    ),
  ),
)

pub texts_of-AreWhole : AreWhole texts_of
texts_of-AreWhole = (tt, (tt, (tt, tt)))

pub texts_of-Admits : Admits loaded regs texts_of
unfolding reg_at rejects_value
texts_of-Admits = ((((_, refl), tt), (tt, (tt, tt))), refl)

pub texts_of-IsCompiled : IsCompiled loaded types manager texts_of 64 program
unfolding get_op_list add_point_args new_config register_types add_op base_ops
texts_of-IsCompiled = record {
  dense = manager-IsDense;
  plain = texts_of-ArePlain;
  ends = (rop "SKIP" op_skip).config;
  first = refl;
  ends_skip = refl;
  loaded = λ key c e. e;
  room = omega arith;
  filled = refl;
}

pub reader-IsFresh : IsFresh reader
unfolding op_code
reader-IsFresh = record { place = refl; idle = inr refl; quiet = refl; unfiltered = refl }

add_op-Added_example :
    Added (rop "SKIP" op_skip) base_manager (add_op (rop "SKIP" op_skip) base_manager)
add_op-Added_example = add_op-Added (rop "SKIP" op_skip) base_manager base_manager-IsDense

add_point_args-fills_example : (add_point_args types texts_of manager (new_config 64 0 0)).0 ≡ (
    let keys = (point_keys types texts_of manager).0 in
    if ltb (length keys) 64
    then some (record {
      enter_key = 0;
      signal = 0;
      op_count = length keys;
      op_key_list = keys ++ replicate (64 - length keys) 0;
    })
    else none)
add_point_args-fills_example = add_point_args-fills types texts_of manager 64 0 0 (omega arith)

read_args-Received_example :
    Received kernel wide_target loaded program regs reader
      (map (reads_at ebpf_sys_enter) texts_of)
      (map (printed_arg kernel wide_target regs ebpf_sys_enter) texts_of)
unfolding reads_at
read_args-Received_example =
    read_args-Received kernel wide_target loaded regs types manager texts_of 64 program
      ebpf_sys_enter reader kernel-IsKernel reader-IsFresh (omega arith) texts_of-AreBare
      texts_of-AreWhole texts_of-Admits texts_of-IsCompiled (omega arith) (omega arith)

-- A text that is returned, and no argument.
abbrev pub a_return : PointArg
a_return = record (an_arg text 0 ebpf_sys_all) { is_ret = true }

abbrev pub return_program : PointArgs
return_program = record {
  enter_key = 0;
  signal = 0;
  op_count = 3;
  op_key_list = 31 ∷ 21 ∷ 25 ∷ replicate 61 0;
}

abbrev return_loaded : Config
return_loaded = record config { op_list = get_op_list (point_keys types (a_return ∷ []) manager).1 }

a_return-IsCompiled : IsCompiled return_loaded types manager (a_return ∷ []) 64 return_program
unfolding get_op_list add_point_args new_config register_types add_op base_ops
a_return-IsCompiled = record {
  dense = manager-IsDense;
  plain = ((refl, registered.1.1.0), tt);
  ends = (rop "SKIP" op_skip).config;
  first = refl;
  ends_skip = refl;
  loaded = λ key c e. e;
  room = omega arith;
  filled = refl;
}

-- The value returned is 4096, and the reader was left with the address 8192.
abbrev returned : Reader
returned = record reader { op = record blank_op { reg_0 = 4096; read_addr = 8192 } }

returned-IsFresh : IsFresh returned
unfolding op_code
returned-IsFresh = record { place = refl; idle = inr refl; quiet = refl; unfiltered = refl }

read_args-returned_example :
    Received kernel wide_target return_loaded return_program regs returned
      (map (reads_at ebpf_sys_enter) (a_return ∷ []))
      (printed kernel wide_target 4096 8192 (reads_at ebpf_sys_enter a_return) ∷ [])
unfolding reads_at text_filters
read_args-returned_example =
    read_args-returned kernel wide_target return_loaded regs types manager [] 64 return_program
      ebpf_sys_enter returned kernel-IsKernel returned-IsFresh (omega arith) tt tt (tt, refl)
      a_return
      (
        record { filters = refl; register = omega arith; kind = tt; group = refl },
        refl,
        omega arith,
        tt,
      )
      a_return-IsCompiled (omega arith) (omega arith)

-- One key, for the operation that saves a string.
abbrev pub one_text : PointArgs
one_text = record { enter_key = 0; signal = 0; op_count = 1; op_key_list = 25 ∷ 0 ∷ [] }

abbrev idle_reader : Reader
idle_reader = record reader { op = record blank_op { post_code = 233 } }

read_loop-sequence_example :
    read_loop kernel wide_target loaded one_text regs 2 none idle_reader
    ≡ exec_ops kernel wide_target loaded regs
        ((rop "SAVE_STRING" op_save_string).config ∷ [])
        (λ r. next (start_op (rop "SKIP" op_skip).config r))
        idle_reader
unfolding get_op_list register_types add_op base_ops rop op_value op_code point_keys arg_op_list
read_loop-sequence_example =
    read_loop-sequence kernel wide_target loaded regs one_text (rop "SKIP" op_skip).config refl refl
      (omega arith) ((rop "SAVE_STRING" op_save_string).config ∷ []) (25 ∷ []) 2 none idle_reader
      ((omega arith, (λ e. cc), (λ e. cc)), tt) (refl, tt) (refl, (refl, tt)) refl (omega arith)
      (omega arith)
