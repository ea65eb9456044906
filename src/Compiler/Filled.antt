-- ===== src/Compiler/Filled.antt =====
-- The keys of a point fill its list from the front, and at least one 0 stays behind them.
use Prim.Native.Nat.{zero, suc}
use stackplz.Base.{
  ℕ, ◌+◌, ◌-◌, ◌<◌, ◌≡◌, refl, sym, ap, ◌∙◌, arith, Option, none, some, List, [], ◌∷◌, ◌++◌,
  append_assoc, append-nil, ltb, leb, ◌==◌, length, length-append, set, replicate, if◌then◌else◌,
  true, false, Bool-cases, inl, inr,
}
use stackplz.Types.{PointArgs}
use stackplz.Decoder.Args.{PointArg}
use stackplz.Compiler.{OpManager}
use stackplz.Compiler.Ops.{ArgTypes, arg_op_list}
use stackplz.Compiler.Points.{add_keys, add_point_arg, add_point_args, new_config}

-- The keys of all arguments, one after the other.
unfoldable pub point_keys : ArgTypes → List PointArg → OpManager → List ℕ × OpManager
point_keys types [] vs = ([], vs)
point_keys types (arg ∷ args) vs =
    let (first, vs) = arg_op_list types arg vs in
    let (more, vs) = point_keys types args vs in (first ++ more, vs)

-- A list that starts with these keys and goes on with so many 0.
abbrev pub filled : ℕ → ℕ → List ℕ → ℕ → PointArgs
filled enter_key signal keys m = record {
  enter_key = enter_key;
  signal = signal;
  op_count = length keys;
  op_key_list = keys ++ replicate m 0;
}

-- The list with these keys added, or the panic where none of its 0 would stay.
abbrev pub filling : ℕ → ℕ → List ℕ → List ℕ → ℕ → Option PointArgs
filling enter_key signal done keys m =
    if ltb (length keys) m
    then some (filled enter_key signal (done ++ keys) (m - length keys))
    else none

set-end :
    (done rest : List ℕ) (old key : ℕ)
    → set (done ++ old ∷ rest) (length done) key ≡ done ++ key ∷ rest
set-end [] rest old key = refl
set-end (x ∷ done) rest old key = ap (λ t. x ∷ t) (set-end done rest old key)

length-zeros : (m : ℕ) → length {A = ℕ} (replicate m 0) ≡ m
length-zeros zero = refl
length-zeros (suc m) = ap suc (length-zeros m)

module _ (types : ArgTypes) (e s : ℕ) where
  snoc :
      (done : List ℕ) (key m : ℕ)
      → record (filled e s done (suc m)) {
        op_key_list = set (done ++ replicate (suc m) 0) (length done) key;
        op_count = length done + 1;
      }
        ≡ filled e s (done ++ key ∷ []) m
  snoc done key m =
      rw
        (
          set-end done (replicate m 0) 0 key,
          append_assoc done (key ∷ []) (replicate m 0),
          length-append done (key ∷ []),
        )
        refl

  add_keys-filled :
      (keys done : List ℕ) (m : ℕ)
      → 0 < m
      → add_keys keys (filled e s done m) ≡ filling e s done keys m
  unfolding add_keys
  add_keys-filled [] done m h = ground (arith, append-nil done)
  add_keys-filled (key ∷ keys) done zero h = absurd (omega (arith, h))
  add_keys-filled (key ∷ keys) done (suc m) h =
      let len : length (done ++ replicate (suc m) 0) ≡ length done + suc m =
        omega (arith, length-append done (replicate (suc m) 0), length-zeros m) in
      let room : leb (length (done ++ replicate (suc m) 0)) (length done) ≡ false =
        ground (arith, len) in
      elim (Bool-cases (m == 0)) [
        | inl z ↦
            let last : (length done + 1 == length (done ++ replicate (suc m) 0)) ≡ true =
              ground (arith, len, z) in
            rw (room, last) (ground (arith, z))
        | inr n ↦
            let more : (length done + 1 == length (done ++ replicate (suc m) 0)) ≡ false =
              ground (arith, len, n) in
            rw (room, more, snoc done key m)
              (add_keys-filled keys (done ++ key ∷ []) m (ground (arith, n))
                ∙ rw (append_assoc done (key ∷ []) keys) (ground arith))
      ]

  filling-append :
      (first more done : List ℕ) (m : ℕ)
      → 0 < m
      → length first < m
      → filling e s (done ++ first) more (m - length first) ≡ filling e s done (first ++ more) m
  filling-append first more done m h small =
      rw (append_assoc done first more, length-append first more) (ground arith)

  filling-full :
      (first more done : List ℕ) (m : ℕ)
      → ltb (length first) m ≡ false
      → filling e s done (first ++ more) m ≡ none
  filling-full first more done m full = rw (length-append first more) (ground (arith, full))

  add_point_args-filled :
      (args : List PointArg) (vs : OpManager) (done : List ℕ) (m : ℕ)
      → 0 < m
      → (add_point_args types args vs (filled e s done m)).0
        ≡ filling e s done (point_keys types args vs).0 m
  unfolding add_point_args add_point_arg point_keys
  add_point_args-filled [] vs done m h = ground (arith, append-nil done)
  add_point_args-filled (arg ∷ args) vs done m h =
      let first = (arg_op_list types arg vs).0 in
      let vs' = (arg_op_list types arg vs).1 in
      let more = (point_keys types args vs').0 in
      elim (Bool-cases (ltb (length first) m)) [
        | inl y ↦
            let small : length first < m = ground (arith, y) in
            let added : add_keys first (filled e s done m)
                ≡ some (filled e s (done ++ first) (m - length first)) =
              add_keys-filled first done m h ∙ rw y refl in
            rw (add_point_args, added)
              (add_point_args-filled args vs' (done ++ first) (m - length first) (omega arith)
                ∙ filling-append first more done m h small)
        | inr n ↦
            let panics : add_keys first (filled e s done m) ≡ none =
              add_keys-filled first done m h ∙ rw n refl in
            rw (add_point_args, panics) (sym (filling-full first more done m n))
      ]

-- A new list, of at least one key, filled with the arguments of a point: it holds the keys of the
-- arguments in order and behind them nothing but 0, at least one; where the keys leave no room for
-- that, `AddPointArg` panics.
pub add_point_args-fills :
    (types : ArgTypes) (args : List PointArg) (vs : OpManager) (max_op_count enter_key signal : ℕ)
    → 0 < max_op_count
    → (add_point_args types args vs (new_config max_op_count enter_key signal)).0 ≡ (
        let keys = (point_keys types args vs).0 in
        if ltb (length keys) max_op_count
        then some (record {
          enter_key = enter_key;
          signal = signal;
          op_count = length keys;
          op_key_list = keys ++ replicate (max_op_count - length keys) 0;
        })
        else none)
unfolding new_config
add_point_args-fills types args vs max_op_count enter_key signal h =
    add_point_args-filled types enter_key signal args vs [] max_op_count h
