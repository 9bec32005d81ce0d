-- ===== src/Prelude/Sums.antt =====
-- Sums of the values of a function below a bound.
use Prim.Native.Nat.{ℕ, zero, suc, ◌+◌, ◌≤◌, ◌<◌}
use mathlib.Core.Path.{◌≡◌, refl}
use mathlib.Core.Logic.{◌≢◌, inl, inr}
use native.Mathlib.Omega.{arith}
use crocks.Prelude.Tests.{if◌then◌else◌, ◌==◌, ltb, Bool-cases}

abbrev pub sum_below : ℕ → (ℕ → ℕ) → ℕ
sum_below zero f = 0
sum_below (suc n) f = f 0 + sum_below n (λ k. f (suc k))

pub sum_below-add :
    (n : ℕ) (f g : ℕ → ℕ) → sum_below n (λ k. f k + g k) ≡ sum_below n f + sum_below n g
sum_below-add zero f g = refl
sum_below-add (suc n) f g = omega (arith, sum_below-add n (λ k. f (suc k)) (λ k. g (suc k)))

pub sum_below-ext :
    (n : ℕ) (f g : ℕ → ℕ) → ((k : ℕ) → k < n → f k ≡ g k) → sum_below n f ≡ sum_below n g
sum_below-ext zero f g h = refl
sum_below-ext (suc n) f g h = omega (
  arith,
  h 0 (omega arith),
  sum_below-ext n (λ k. f (suc k)) (λ k. g (suc k)) (λ k p. h (suc k) (omega arith)),
)

pub sum_below-zero : (n : ℕ) (f : ℕ → ℕ) → ((k : ℕ) → k < n → f k ≡ 0) → sum_below n f ≡ 0
sum_below-zero zero f h = refl
sum_below-zero (suc n) f h =
    omega
      (arith, h 0 (omega arith), sum_below-zero n (λ k. f (suc k)) (λ k p. h (suc k) (omega arith)))

pub le-sum_below : (n : ℕ) (f : ℕ → ℕ) (k : ℕ) → k < n → f k ≤ sum_below n f
le-sum_below zero f k h = absurd (omega arith)
le-sum_below (suc n) f zero h = omega arith
le-sum_below (suc n) f (suc k) h = omega (arith, le-sum_below n (λ k. f (suc k)) k (omega arith))

-- Two functions that agree but at one place.
pub sum_below-change :
    (n : ℕ) (f g : ℕ → ℕ) (i : ℕ)
    → i < n
    → ((k : ℕ) → k ≢ i → f k ≡ g k)
    → sum_below n f + g i ≡ sum_below n g + f i
sum_below-change zero f g i p h = absurd (omega arith)
sum_below-change (suc n) f g zero p h =
    omega
      (arith, sum_below-ext n (λ k. f (suc k)) (λ k. g (suc k)) (λ k q. h (suc k) (omega arith)))
sum_below-change (suc n) f g (suc i) p h = omega (
  arith,
  h 0 (omega arith),
  sum_below-change n (λ k. f (suc k)) (λ k. g (suc k)) i (omega arith)
      (λ k q. h (suc k) (omega arith)),
)

-- The sum of one 1.
pub sum_below-one : (n m : ℕ) → m < n → sum_below n (λ k. if m == k then 1 else 0) ≡ 1
sum_below-one zero m h = absurd (omega arith)
sum_below-one (suc n) zero h =
    omega (arith, sum_below-zero n (λ k. if 0 == suc k then 1 else 0) (λ k p. ground arith))
sum_below-one (suc n) (suc m) h = ground (
  arith,
  sum_below-one n m (omega arith),
  sum_below-ext n (λ k. if suc m == suc k then 1 else 0) (λ k. if m == k then 1 else 0)
      (λ k p. ground arith),
)

-- A positive sum has a positive term.
pub sum_below-pos : (n : ℕ) (f : ℕ → ℕ) → 0 < sum_below n f → (k : ℕ) × (k < n) × (0 < f k)
sum_below-pos zero f h = absurd (omega arith)
sum_below-pos (suc n) f h = elim (Bool-cases (ltb 0 (f 0))) [
  | inl here ↦ (0, omega arith, ground arith)
  | inr later ↦
      let (k, p, q) = sum_below-pos n (λ k. f (suc k)) (ground arith) in (suc k, omega arith, q)
]
