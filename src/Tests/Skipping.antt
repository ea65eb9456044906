-- ===== src/Tests/Skipping.antt =====
-- The reader on a program whose only operation rejects a register that is not 5.
use stackplz.Base.{◌≡◌, refl, arith, some, []}
use stackplz.Types.{OpConfig, ArgFilter, op_code, op_value}
use stackplz.Kernel.{Config}
use stackplz.Event.{ok}
use stackplz.ReadArgs.State.{Reader}
use stackplz.ReadArgs.{read_args, read_loop, finish, fetch, fetch_key, continue}
use stackplz.ReadArgs.Exec.{exec}
use stackplz.ReadArgs.Filters.{with_filter, filter_value, rejects_value}
use stackplz.ReadArgs.Skip.{read_args-skips}
use stackplz.Programs.Submit.{read_regs}
use stackplz.Tests.{kernel, target, config, point, interrupted, reader, blank_op}

abbrev reject : OpConfig
reject = record { code = 258; pre_code = 0; post_code = 233; value = 3 }

abbrev five : ArgFilter
five = record { filter_type = 1; str_val = []; str_len = 0; num_val = 5 }

abbrev rejecting : Config
rejecting = record config { op_list = λ key. some reject; arg_filter = λ key. some five }

abbrev rejected : Reader
rejected = record reader {
  op = record blank_op {
    op_code = 258;
    post_code = 233;
    op_key_index = 1;
    match_blacklist = 1;
    skip_flag = 1;
  };
}

rejects : read_args kernel target rejecting point (read_regs interrupted) reader ≡ ok rejected
unfolding read_args read_loop finish fetch fetch_key continue exec with_filter filter_value
    rejects_value op_code op_value
rejects = refl

read_args-skips_example : rejected.op.skip_flag ≡ 1
read_args-skips_example =
    read_args-skips kernel target rejecting (read_regs interrupted) point reader rejected
      (λ e. omega arith) rejects refl
