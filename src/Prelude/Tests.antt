-- ===== src/Prelude/Tests.antt =====
-- Boolean tests on the native numbers and on byte strings, and the conditional.
use Prim.Native.Nat.{ℕ, compare, Ordering}
use mathlib.Core.Path.{◌≡◌, refl}
use mathlib.Core.Logic.{◌↔◌, ◌⊎◌, inl, inr}
use mathlib.Core.Bool.{Bool, true, false, ◌&&◌, ◌||◌}
use mathlib.Core.Option.{Option, none, some}
use mathlib.Core.List.{List, [], ◌∷◌}
use native.Mathlib.Omega.{arith}

abbrev pub ltb : ℕ → ℕ → Bool
ltb a b = elim (compare a b) [ Ordering.lt ↦ true | _ ↦ false ]

abbrev pub leb : ℕ → ℕ → Bool
leb a b = elim (compare a b) [ Ordering.gt ↦ false | _ ↦ true ]

infix 50 ◌==◌
abbrev pub ◌==◌ : ℕ → ℕ → Bool
a == b = elim (compare a b) [ Ordering.eq ↦ true | _ ↦ false ]

infix 1 if◌then◌else◌
abbrev pub if◌then◌else◌ {ℓ} : {A : Type ℓ} → Bool → A → A → A
if true then x else y = x
if false then x else y = y

pub ==_iff : (a b : ℕ) → ((a == b) ≡ true) ↔ (a ≡ b)
==_iff a b = ground arith

pub ==-refl : (a : ℕ) → (a == a) ≡ true
==-refl a = ground arith

pub Bool-cases : (b : Bool) → (b ≡ true) ⊎ (b ≡ false)
Bool-cases true = inl refl
Bool-cases false = inr refl

pub Option-cases {ℓ} : {A : Type ℓ} (o : Option A) → (o ≡ none) ⊎ ((a : A) × (o ≡ some a))
Option-cases none = inl refl
Option-cases (some a) = inr (a, refl)

-- A std::string or a bytes field, as its bytes.
abbrev pub Bytes : Type 0
Bytes = List ℕ

unfoldable pub beq : Bytes → Bytes → Bool
beq [] [] = true
beq [] (y ∷ ys) = false
beq (x ∷ xs) [] = false
beq (x ∷ xs) (y ∷ ys) = x == y && beq xs ys

pub beq→eq : (xs ys : Bytes) → beq xs ys ≡ true → xs ≡ ys
unfolding beq
beq→eq [] [] h = refl
beq→eq [] (y ∷ ys) h = cc
beq→eq (x ∷ xs) [] h = cc
beq→eq (x ∷ xs) (y ∷ ys) h = ground (arith, beq→eq xs ys)

pub beq_refl : (xs : Bytes) → beq xs xs ≡ true
unfolding beq
beq_refl [] = refl
beq_refl (x ∷ xs) = ground (arith, beq_refl xs)

abbrev pub is_empty {ℓ} : {A : Type ℓ} → List A → Bool
is_empty [] = true
is_empty (x ∷ xs) = false

-- The order of std::string and of RocksDB's bytewise comparator.
unfoldable pub blt : Bytes → Bytes → Bool
blt [] [] = false
blt [] (y ∷ ys) = true
blt (x ∷ xs) [] = false
blt (x ∷ xs) (y ∷ ys) = ltb x y || (x == y && blt xs ys)

abbrev pub is_in : ℕ → List ℕ → Bool
is_in id [] = false
is_in id (k ∷ ks) = if k == id then true else is_in id ks

-- The order is linear, so that "not less" is transitive.
pub blt_trans : (x y z : Bytes) → blt x y ≡ false → blt y z ≡ false → blt x z ≡ false
unfolding blt
blt_trans [] [] [] h k = refl
blt_trans [] [] (c ∷ z) h k = absurd (cc k)
blt_trans [] (b ∷ y) z h k = absurd (cc h)
blt_trans (a ∷ x) [] [] h k = refl
blt_trans (a ∷ x) [] (c ∷ z) h k = absurd (cc k)
blt_trans (a ∷ x) (b ∷ y) [] h k = refl
blt_trans (a ∷ x) (b ∷ y) (c ∷ z) h k = ground (arith, blt_trans x y z)

pub blt_irrefl : (x : Bytes) → blt x x ≡ false
unfolding blt
blt_irrefl [] = refl
blt_irrefl (a ∷ x) = ground (arith, blt_irrefl x)

pub blt_asym : (x y : Bytes) → blt x y ≡ true → blt y x ≡ false
unfolding blt
blt_asym [] [] h = absurd (cc h)
blt_asym [] (b ∷ y) h = refl
blt_asym (a ∷ x) [] h = absurd (cc h)
blt_asym (a ∷ x) (b ∷ y) h = ground (arith, blt_asym x y)
