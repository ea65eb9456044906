-- ===== src/Compiler/Registered.antt =====
-- What the registration of types yields: the keys of each type are those of its operations.
use stackplz.Base.{◌≡◌, refl, arith, List, [], ◌∷◌, true, Bool-cases, inl, inr}
use stackplz.Decoder.Args.{
  Kind, number, text, std_text, buffer, number_ptr, texts, vectors, structure,
}
use stackplz.Compiler.{OpManager}
use stackplz.Compiler.Dense.{IsDense, Keeps}
use stackplz.Compiler.Ops.{type_ops, add_ops, ArgTypes, same_kind, register_type, register_types}
use stackplz.Compiler.Compiled.{configs, IsRegistered, Resolves-Keeps, add_ops-Compiles}

same_kind-eq : (a b : Kind) → same_kind a b ≡ true → a ≡ b
unfolding same_kind
same_kind-eq number number h = refl
same_kind-eq text text h = refl
same_kind-eq std_text std_text h = refl
same_kind-eq buffer buffer h = refl
same_kind-eq number_ptr number_ptr h = refl
same_kind-eq texts texts h = refl
same_kind-eq vectors vectors h = refl
same_kind-eq (structure m i) (structure n j) h =
    let size : m ≡ n = ground (arith, h) in
    let taken : i ≡ j = ground (arith, h) in rw (size, taken) refl
same_kind-eq _ _ h = cc

same_kind_refl : (a : Kind) → same_kind a a ≡ true
unfolding same_kind
same_kind_refl (structure n m) = ground arith
same_kind_refl number = refl
same_kind_refl _ = refl

abbrev pub AllRegistered : ArgTypes → OpManager → List Kind → Type 0
AllRegistered types vs [] = Unit
AllRegistered types vs (kind ∷ kinds) = IsRegistered types vs kind × AllRegistered types vs kinds

-- The indices stay positions, no lookup changes, and what was registered stays so.
abbrev pub Grows : ArgTypes × OpManager → ArgTypes × OpManager → Type 0
Grows (types, vs) (types', vs') =
    IsDense vs'
    × Keeps vs vs'
    × ((kind : Kind) → IsRegistered types vs kind → IsRegistered types' vs' kind)

register_type-Grows :
    (kind : Kind) (types : ArgTypes) (vs : OpManager)
    → IsDense vs
    → Grows (types, vs) (register_type kind (types, vs))
      × IsRegistered (register_type kind (types, vs)).0 (register_type kind (types, vs)).1 kind
unfolding register_type
register_type-Grows kind types vs d =
    let added = add_ops (type_ops kind) vs in
    let (d', keeps, r) = add_ops-Compiles (type_ops kind) vs d in
    (
      (
        d',
        keeps,
        (λ other known. elim (Bool-cases (same_kind other kind)) [
          | inl y ↦ rw (y, same_kind-eq other kind y) r
          | inr n ↦
              rw n (Resolves-Keeps vs added.1 (types other) (configs (type_ops other)) keeps known)
        ]),
      ),
      rw (same_kind_refl kind) r,
    )

-- From a manager whose indices are the positions of its operations, after some types are
-- registered: the indices are still positions and no lookup has changed, every type that was
-- registered still is, and each of these types is: its keys are those of its operations.
pub register_types-AllRegistered :
    (kinds : List Kind) (types : ArgTypes) (vs : OpManager)
    → IsDense vs
    → Grows (types, vs) (register_types kinds (types, vs))
      × AllRegistered
          (register_types kinds (types, vs)).0
          (register_types kinds (types, vs)).1
          kinds
unfolding register_types
register_types-AllRegistered [] types vs d = ((d, (λ k c e. e), (λ kind known. known)), tt)
register_types-AllRegistered (kind ∷ kinds) types vs d =
    let ((d', keeps, known), here) = register_type-Grows kind types vs d in
    let types' = (register_type kind (types, vs)).0 in
    let vs' = (register_type kind (types, vs)).1 in
    let ((d'', keeps', known'), more) = register_types-AllRegistered kinds types' vs' d' in
    (
      (d'', (λ k c e. keeps' k c (keeps k c e)), (λ other k. known' other (known other k))),
      (known' kind here, more),
    )
