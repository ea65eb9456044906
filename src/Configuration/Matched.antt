-- ===== src/Configuration/Matched.antt =====
-- A filter on bytes, from the hexadecimal text that the user writes to the memory that matches.
use stackplz.Base.{
  ℕ, zero, suc, ◌+◌, ◌-◌, ◌*◌, ◌/◌, ◌%◌, ◌^◌, ◌<◌, ◌≤◌, ◌≡◌, ◌↔◌, refl, sym, ap, ◌∙◌, arith, true,
  false, Option, some, List, [], ◌∷◌, ◌==◌, leb, length, take, length-take, le_value, bit_and,
}
use stackplz.Base.Bits.{bit_and_ones, bit_and_48_ones}
use native.Mathlib.Nat.{pow-suc, mul_assoc, add-mul}
use stackplz.Types.{whitelist_filter}
use stackplz.Kernel.{Kernel, IsKernel, copy_bytes}
use stackplz.ReadArgs.State.{untag, overlay}
use stackplz.ReadArgs.Filters.{matches_buffer}
use stackplz.Configuration.Numbers.{decode_hex}
use stackplz.Configuration.Hex.{
  AreBytes, str_to_num64-hex, be_value-le_value, decode_hex-AreBytes, div_between, two_pow_bytes,
  pow_256_pos,
}
use stackplz.Configuration.Filters.{
  UserFilter, blank_filter, to_ebpf_value, addr_filter, hex_filter, cut,
}

mod_bytes : (b x p : ℕ) → b < 256 → 0 < p → (b + 256 * x) % (p * 256) ≡ b + 256 * (x % p)
mod_bytes b x p h pos = grind arith

le_value-take : (n : ℕ) (bs : List ℕ) → AreBytes bs → le_value bs % 256 ^ n ≡ le_value (take n bs)
le_value-take zero bs all = omega arith
le_value-take (suc n) [] all = omega (arith, pow_256_pos (suc n))
le_value-take (suc n) (b ∷ bs) (small, all) =
    rw (pow-suc, mod_bytes b (le_value bs) (256 ^ n) small (pow_256_pos n))
      (ap (λ x. b + 256 * x) (le_value-take n bs all))

le_value_injective :
    (bs cs : List ℕ)
    → AreBytes bs
    → AreBytes cs
    → length bs ≡ length cs
    → le_value bs ≡ le_value cs
    → bs ≡ cs
le_value_injective [] [] all all' n e = refl
le_value_injective [] (c ∷ cs) all all' n e = absurd (omega arith)
le_value_injective (b ∷ bs) [] all all' n e = absurd (omega arith)
le_value_injective (b ∷ bs) (c ∷ cs) (small, all) (small', all') n e =
    let head : b ≡ c = omega arith in
    let tail = le_value_injective bs cs all all' (omega arith) (omega arith) in rw (head, tail) refl

take-AreBytes : (n : ℕ) (bs : List ℕ) → AreBytes bs → AreBytes (take n bs)
take-AreBytes zero bs all = tt
take-AreBytes (suc n) [] all = tt
take-AreBytes (suc n) (b ∷ bs) (small, all) = (small, take-AreBytes n bs all)

pow_256_add : (j n : ℕ) → 256 ^ (j + n) ≡ 256 ^ n * 256 ^ j
pow_256_add zero n = let same : zero + n ≡ n = omega arith in rw same (omega arith)
pow_256_add (suc j) n =
    let next : suc j + n ≡ suc (j + n) = omega arith in
    rw (next, pow-suc 256 (j + n), pow_256_add j n, pow-suc 256 j)
      (mul_assoc (256 ^ n) (256 ^ j) 256)

-- all ones, shifted down by the cut of `n` bytes, are the ones of `n` bytes
ones_lem : (n : ℕ) → n ≤ 8 → (2 ^ 64 - 1) / 2 ^ ((8 - n) * 8) ≡ 2 ^ (n * 8) - 1
ones_lem n h =
    let j = 8 - n in
    let p = 256 ^ j in
    let q = 256 ^ n in
    let whole : 8 ≡ j + n = omega arith in
    let least : q ≡ q - 1 + 1 = omega (arith, pow_256_pos n) in
    let all : 256 ^ 8 ≡ (q - 1 + 1) * p =
      ap (λ x. 256 ^ x) whole ∙ pow_256_add j n ∙ ap (λ x. x * p) least in
    let apart : (q - 1 + 1) * p ≡ (q - 1) * p + 1 * p = add-mul (q - 1) 1 p in
    let pos = pow_256_pos j in
    rw (two_pow_bytes j, two_pow_bytes n)
      (div_between (2 ^ 64 - 1) (q - 1) p pos (omega (arith, all, apart, pos)) (omega (arith, all)))

-- eight bytes over a pointer, cut to the first `n`
cut_lem :
    (n ptr : ℕ) (got : List ℕ)
    → length got ≡ 8
    → AreBytes got
    → ptr < 2 ^ 64
    → 0 < n
    → n ≤ 8
    → bit_and (overlay got ptr) ((2 ^ 64 - 1) / 2 ^ ((8 - n) * 8 % 64)) ≡ le_value (take n got)
unfolding overlay
cut_lem n ptr got eight all fits pos small =
    let low : (8 - n) * 8 % 64 ≡ (8 - n) * 8 = omega arith in
    let over : le_value got + ptr / 256 ^ length got * 256 ^ length got ≡ le_value got =
      rw eight (omega arith) in
    rw (over, low, ones_lem n small, bit_and_ones (n * 8) (le_value got), two_pow_bytes n)
      (le_value-take n got all)

untag-lt : (a : ℕ) → untag a < 2 ^ 64
unfolding untag
untag-lt a = omega (arith, bit_and_48_ones a)

same_value :
    (bs cs : List ℕ)
    → AreBytes bs
    → AreBytes cs
    → length bs ≡ length cs
    → ((le_value bs == le_value cs) ≡ true) ↔ (cs ≡ bs)
same_value bs cs all all' n = (
  (λ h. sym (le_value_injective bs cs all all' n (ground (arith, h)))),
  (λ e. rw e (ground arith)),
)

-- The filter on these bytes.
abbrev bytes_filter : List ℕ → UserFilter
bytes_filter bs = record blank_filter {
  filter_type = whitelist_filter;
  str_len = cut bs;
  num_val = le_value bs;
}

-- What the kernel reads at an address, in eight bytes.
abbrev pub read_bytes : Kernel → ℕ → List ℕ
read_bytes k addr = copy_bytes (k.probe_read_user (untag addr) 8)

module _ (k : Kernel) (addr : ℕ) (law : IsKernel k) (got : AreBytes (read_bytes k addr)) where
  bytes_filter-matches :
      (bs : List ℕ)
      → AreBytes bs
      → 0 < length bs
      → length bs ≤ 8
      → (matches_buffer k (to_ebpf_value (bytes_filter bs)) addr ≡ true)
        ↔ (take (length bs) (read_bytes k addr) ≡ bs)
  unfolding to_ebpf_value matches_buffer
  bytes_filter-matches bs all pos small =
      let bytes = read_bytes k addr in
      let eight = law.read_user_fills (untag addr) 8 in
      let sized : length bs ≡ length (take (length bs) bytes) =
        omega (arith, length-take (length bs) bytes, eight) in
      rw
        (matches_buffer, cut_lem (length bs) (untag addr) bytes eight got (untag-lt addr) pos small)
        (same_value bs (take (length bs) bytes) all (take-AreBytes (length bs) bytes got) sized)

  -- The user writes the digits of one to eight bytes: `AddFilter` makes a filter, which matches an
  -- address exactly where the kernel, whose reads fill their destination with bytes, reads these
  -- bytes first there.
  pub hex_filter-matches :
      (text bs : List ℕ)
      → decode_hex text ≡ some bs
      → 0 < length bs
      → length bs ≤ 8
      → (f : UserFilter) × (hex_filter text ≡ some f)
        × ((matches_buffer k (to_ebpf_value f) addr ≡ true)
            ↔ (take (length bs) (read_bytes k addr) ≡ bs))
  unfolding hex_filter
  hex_filter-matches text bs h pos small =
      let all = decode_hex-AreBytes text bs h in
      let fits : leb 9 (length bs) ≡ false = ground arith in
      (
        bytes_filter bs,
        rw
            (
              hex_filter,
              h,
              fits,
              str_to_num64-hex text bs h pos small,
              be_value-le_value bs all small,
            )
            refl,
        bytes_filter-matches bs all pos small,
      )

  -- The user writes an address of the internet that `net.ParseIP` reads as four bytes: `AddFilter`
  -- makes a filter, which matches an address exactly where the kernel, whose reads fill their
  -- destination with bytes, reads these four bytes first there.
  pub addr_filter-matches :
      (ip : List ℕ → Option (List ℕ)) (text : List ℕ) (a b c d : ℕ)
      → ip text ≡ some (a ∷ b ∷ c ∷ d ∷ [])
      → AreBytes (a ∷ b ∷ c ∷ d ∷ [])
      → (f : UserFilter) × (addr_filter ip text ≡ some f)
        × ((matches_buffer k (to_ebpf_value f) addr ≡ true)
            ↔ (take 4 (read_bytes k addr) ≡ a ∷ b ∷ c ∷ d ∷ []))
  unfolding addr_filter
  addr_filter-matches ip text a b c d h all =
      let bs = a ∷ b ∷ c ∷ d ∷ [] in
      (
        bytes_filter bs,
        rw (addr_filter, h, be_value-le_value bs all (omega arith)) refl,
        bytes_filter-matches bs all (omega arith) (omega arith),
      )
