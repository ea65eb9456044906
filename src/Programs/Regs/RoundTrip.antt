-- ===== src/Programs/Regs/RoundTrip.antt =====
-- The registers that a thread keeps for an event are those that it loads, and no other thread or
-- event touches them.
use stackplz.Base.{
  ℕ, zero, suc, ◌%◌, ◌^◌, ◌<◌, ◌≡◌, ◌≢◌, ◌⊎◌, inl, inr, refl, ap, ◌∙◌, arith, true, none, some,
  List, [], ◌∷◌, length, get_or,
}
use stackplz.Types.{CtxRegs}
use stackplz.Programs.World.{World, Host}
use stackplz.Programs.Regs.{regs_key, save_regs, load_regs, del_regs, copy_regs}

copy_shift : (n i x : ℕ) (xs : List ℕ) → copy_regs n (suc i) (x ∷ xs) ≡ copy_regs n i xs
unfolding copy_regs
copy_shift zero i x xs = refl
copy_shift (suc n) i x xs = ap (λ t. get_or xs i 0 ∷ t) (copy_shift n (suc i) x xs)

copy_all : (xs : List ℕ) → copy_regs (length xs) 0 xs ≡ xs
unfolding copy_regs
copy_all [] = refl
copy_all (x ∷ xs) = ap (λ t. x ∷ t) (copy_shift (length xs) 0 x xs ∙ copy_all xs)

copy_31 : (xs : List ℕ) → length xs ≡ 31 → copy_regs 31 0 xs ≡ xs
copy_31 xs h = rw h at (copy_all xs)

-- the same thread
abbrev pub tid : Host → ℕ
tid h = h.pid_tgid % 2 ^ 32

-- The keys of two event ids of 32 bits are equal only for the same event and thread.
pub regs_key_injective :
    (h h' : Host) (a b : ℕ)
    → a < 2 ^ 32
    → b < 2 ^ 32
    → regs_key h a ≡ regs_key h' b
    → (a ≡ b) × (tid h ≡ tid h')
unfolding regs_key
regs_key_injective h h' a b ha hb e = omega arith

module _ (h : Host) (regs : CtxRegs) (event_id : ℕ) (w : World) where
  -- Where the map takes an entry of 31 registers, loading after saving gives the registers back.
  pub load_regs-save_regs :
      length regs.regs ≡ 31
      → h.regs_room w.ctx_regs_map (regs_key h event_id) ≡ true
      → load_regs h event_id (save_regs h regs event_id w) ≡ some regs
  unfolding load_regs save_regs
  load_regs-save_regs len room = ground (arith, copy_31 regs.regs)

  -- After the entry is dropped there is nothing to load.
  pub load_regs-del_regs : load_regs h event_id (del_regs h event_id w) ≡ none
  unfolding load_regs del_regs
  load_regs-del_regs = ground arith

  -- For event ids of 32 bits, saving and dropping leave what another thread, or another event, keeps.
  pub load_regs_other :
      (h' : Host) (other : ℕ)
      → event_id < 2 ^ 32
      → other < 2 ^ 32
      → ((other ≢ event_id) ⊎ (tid h' ≢ tid h))
      → (load_regs h' other (save_regs h regs event_id w) ≡ load_regs h' other w)
        × (load_regs h' other (del_regs h event_id w) ≡ load_regs h' other w)
  unfolding load_regs save_regs del_regs
  load_regs_other h' other he ho ne = (ground (arith, keys_ne), ground (arith, keys_ne))
    where
      keys_ne : regs_key h' other ≢ regs_key h event_id
      keys_ne e = elim ne [
        | inl a ↦ a (regs_key_injective h' h other event_id ho he e).0
        | inr b ↦ b (regs_key_injective h' h other event_id ho he e).1
      ]
