-- ===== src/Tests/Decoding.antt =====
-- A context, arguments and vectors read back.
use stackplz.Base.{
  ℕ, false, suc, le_bytes, ◌≡◌, refl, arith, some, List, [], ◌∷◌, ◌++◌, replicate, map,
}
use stackplz.Event.Entries.{Entry, word, block, encode_all}
use stackplz.Decoder.Args.{
  Kind, number, text, vectors, Parsed, plain, with_bytes, with_vectors, PointArg, reads_at,
  ebpf_sys_enter, ebpf_sys_all, parse_more,
}
use stackplz.Decoder.Context.{IsContext}
use stackplz.Decoder.Saves.{
  SavesAll, nothing, argument, a_number, a_text, SavesVectors, no_vectors, one_vector,
}
use stackplz.Decoder.Vectors.{drop_vectors, parse_more-vectors}
use stackplz.Tests.{blank_context}

pub blank_context-IsContext : IsContext blank_context
blank_context-IsContext = record {
  ts = omega arith;
  eventid = omega arith;
  host_tid = omega arith;
  host_pid = omega arith;
  tid = omega arith;
  pid = omega arith;
  uid = omega arith;
  comm = refl;
  argnum = omega arith;
  padding = refl;
}

abbrev pub an_arg : Kind → ℕ → ℕ → PointArg
an_arg kind reg point_type = record {
  kind = kind;
  reg_index = reg;
  extra_op_list = [];
  filter_index_list = [];
  point_type = point_type;
  group_type = ebpf_sys_enter;
  is_ret = false;
}

-- A number with one filter, and two texts.
abbrev pub texts_of : List PointArg
texts_of =
    record (an_arg number 0 ebpf_sys_all) { filter_index_list = 1 ∷ [] }
    ∷ an_arg text 1 ebpf_sys_all
    ∷ an_arg text 2 ebpf_sys_enter
    ∷ []

-- 5, and the text "ab" at 4096, at 8192
abbrev pub entries : List Entry
entries =
    word 8 4 5
    ∷ word 8 5 4096
    ∷ block 6 (b'a' ∷ b'b' ∷ 0 ∷ [])
    ∷ word 8 7 8192
    ∷ block 8 (b'a' ∷ b'b' ∷ 0 ∷ [])
    ∷ []

abbrev pub values : List Parsed
values =
    plain 5 ∷ with_bytes 4096 (b'a' ∷ b'b' ∷ 0 ∷ []) ∷ with_bytes 8192 (b'a' ∷ b'b' ∷ 0 ∷ []) ∷ []

pub saved : SavesAll (map (reads_at ebpf_sys_enter) texts_of) values entries
unfolding reads_at
saved = argument (a_number 4 5 (omega arith)) (
    argument (a_text 5 6 4096 _ refl (omega arith) (omega arith))
      (argument (a_text 7 8 8192 _ refl (omega arith) (omega arith)) nothing))

-- seven vectors of one byte
abbrev seven : List Entry
seven = vector ++ (vector ++ (vector ++ (vector ++ (vector ++ (vector ++ (vector ++ []))))))
  where
    vector : List Entry
    vector = block 5 (le_bytes 8 4096 ++ le_bytes 8 1) ∷ block 6 (7 ∷ []) ∷ []

a_vector :
    {n : ℕ} {results : List (ℕ × ℕ × List ℕ)} {es : List Entry}
    → SavesVectors n results es
    → SavesVectors
        (suc n)
        ((4096, 1, 7 ∷ []) ∷ results)
        (block 5 (le_bytes 8 4096 ++ le_bytes 8 1) ∷ block 6 (7 ∷ []) ∷ es)
a_vector more = one_vector 5 6 4096 1 (7 ∷ []) (omega arith) (omega arith) (omega arith) more

parse_more-vectors_example :
    parse_more vectors 4096 (encode_all (word 8 4 7 ∷ seven) ++ [])
    ≡ some
        (with_vectors 4096 (replicate 6 (4096, 1, 7 ∷ [])), encode_all (drop_vectors 6 seven) ++ [])
parse_more-vectors_example =
    parse_more-vectors 4096 4 7 (replicate 7 (4096, 1, 7 ∷ [])) seven [] (omega arith) (omega arith)
      (a_vector (a_vector (a_vector (a_vector (a_vector (a_vector (a_vector no_vectors)))))))
