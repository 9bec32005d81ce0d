-- ===== src/Prelude/Lists.antt =====
-- Lists measured and indexed by native numbers, under the library's names.
use Prim.Native.Nat.{ℕ, zero, suc, ◌+◌, ◌-◌, ◌<◌}
use mathlib.Core.Path.{◌≡◌, refl, ap, subst, ◌∙◌}
use mathlib.Core.Logic.{◌⊎◌, inl, inr}
use mathlib.Core.Bool.{Bool, false}
use mathlib.Core.List.{List, [], ◌∷◌, ◌++◌}
use mathlib.Core.Option.{Option, none, some}
use native.Mathlib.Omega.{arith}
use crocks.Prelude.Tests.{if◌then◌else◌, ◌==◌}

module _ {ℓ} {A : Type ℓ} where
  abbrev pub length : List A → ℕ
  length [] = 0
  length (x ∷ xs) = suc (length xs)

  abbrev pub get_elem? : List A → ℕ → Option A
  get_elem? [] i = none
  get_elem? (x ∷ xs) zero = some x
  get_elem? (x ∷ xs) (suc i) = get_elem? xs i

  -- A write out of bounds changes nothing.
  abbrev pub set : List A → ℕ → A → List A
  set [] i v = []
  set (x ∷ xs) zero v = v ∷ xs
  set (x ∷ xs) (suc i) v = x ∷ set xs i v

  abbrev pub take : ℕ → List A → List A
  take zero xs = []
  take (suc n) [] = []
  take (suc n) (x ∷ xs) = x ∷ take n xs

  abbrev pub drop : ℕ → List A → List A
  drop zero xs = xs
  drop (suc n) [] = []
  drop (suc n) (x ∷ xs) = drop n xs

  abbrev pub replicate : ℕ → A → List A
  replicate zero a = []
  replicate (suc n) a = a ∷ replicate n a

  -- How many entries pass a test.
  unfoldable pub count : (A → Bool) → List A → ℕ
  count p [] = 0
  count p (x ∷ xs) = (if p x then 1 else 0) + count p xs

  pub length-append : (xs ys : List A) → length (xs ++ ys) ≡ length xs + length ys
  length-append [] ys = omega arith
  length-append (x ∷ xs) ys = omega (arith, length-append xs ys)

  pub take-append-drop : (n : ℕ) (xs : List A) → take n xs ++ drop n xs ≡ xs
  take-append-drop zero xs = refl
  take-append-drop (suc n) [] = refl
  take-append-drop (suc n) (x ∷ xs) = ap (◌∷◌ x) (take-append-drop n xs)

  pub length-drop : (n : ℕ) (xs : List A) → length (drop n xs) ≡ length xs - n
  length-drop zero xs = omega arith
  length-drop (suc n) [] = omega arith
  length-drop (suc n) (x ∷ xs) = omega (arith, length-drop n xs)

module _ {ℓ} {A : Type ℓ} where
  pub length-set : (xs : List A) (i : ℕ) (v : A) → length (set xs i v) ≡ length xs
  length-set [] i v = refl
  length-set (x ∷ xs) zero v = refl
  length-set (x ∷ xs) (suc i) v = ap suc (length-set xs i v)

  pub get_elem?-set :
      (xs : List A) (i j : ℕ) (v w : A)
      → get_elem? xs i ≡ some w
      → get_elem? (set xs i v) j ≡ (if i == j then some v else get_elem? xs j)
  get_elem?-set [] i j v w h = cc
  get_elem?-set (x ∷ xs) zero zero v w h = ground arith
  get_elem?-set (x ∷ xs) zero (suc j) v w h = ground arith
  get_elem?-set (x ∷ xs) (suc i) zero v w h = ground arith
  get_elem?-set (x ∷ xs) (suc i) (suc j) v w h = ground (arith, get_elem?-set xs i j v w)

  pub get_elem?-some : (xs : List A) (i : ℕ) → i < length xs → (x : A) × (get_elem? xs i ≡ some x)
  get_elem?-some [] i h = absurd (omega arith)
  get_elem?-some (x ∷ xs) zero h = (x, refl)
  get_elem?-some (x ∷ xs) (suc i) h = get_elem?-some xs i (omega arith)

  pub get_elem?-lt : (xs : List A) (i : ℕ) (x : A) → get_elem? xs i ≡ some x → i < length xs
  get_elem?-lt [] i x h = cc
  get_elem?-lt (y ∷ xs) zero x h = omega arith
  get_elem?-lt (y ∷ xs) (suc i) x h = omega (arith, get_elem?-lt xs i x h)

  pub get_elem?-append :
      (xs ys : List A) (i : ℕ) (x : A) → get_elem? xs i ≡ some x → get_elem? (xs ++ ys) i ≡ some x
  get_elem?-append [] ys i x h = cc
  get_elem?-append (y ∷ xs) ys zero x h = h
  get_elem?-append (y ∷ xs) ys (suc i) x h = get_elem?-append xs ys i x h

  pub get_elem?-concat : (xs : List A) (x : A) → get_elem? (xs ++ x ∷ []) (length xs) ≡ some x
  get_elem?-concat [] x = refl
  get_elem?-concat (y ∷ xs) x = get_elem?-concat xs x

  pub count-append : (p : A → Bool) (xs ys : List A) → count p (xs ++ ys) ≡ count p xs + count p ys
  unfolding count
  count-append p [] ys = omega arith
  count-append p (x ∷ xs) ys = ground (arith, count-append p xs ys)

  -- A write trades the old entry's vote for the new one's.
  pub count-set :
      (p : A → Bool) (xs : List A) (i : ℕ) (v w : A)
      → get_elem? xs i ≡ some w
      → count p (set xs i v) + (if p w then 1 else 0) ≡ count p xs + (if p v then 1 else 0)
  unfolding count
  count-set p [] i v w h = cc
  count-set p (x ∷ xs) zero v w h = ground arith
  count-set p (x ∷ xs) (suc i) v w h = ground (arith, count-set p xs i v w h)

abbrev pub All {ℓ κ} : {A : Type ℓ} → (A → Type κ) → List A → Type κ
All P [] = Unit
All P (x ∷ xs) = P x × All P xs

pub All-concat {ℓ κ} :
    {A : Type ℓ} (P : A → Type κ) (xs : List A) (x : A) → All P xs → P x → All P (xs ++ x ∷ [])
All-concat P [] x h p = (p, tt)
All-concat P (y ∷ xs) x h p = (h.0, All-concat P xs x h.1 p)

pub All-append {ℓ κ} :
    {A : Type ℓ} (P : A → Type κ) (xs ys : List A) → All P xs → All P ys → All P (xs ++ ys)
All-append P [] ys h p = p
All-append P (y ∷ xs) ys h p = (h.0, All-append P xs ys h.1 p)

pub All-get {ℓ κ} :
    {A : Type ℓ} (P : A → Type κ) (xs : List A) (i : ℕ) (x : A)
    → All P xs
    → get_elem? xs i ≡ some x
    → P x
All-get P [] i x h e = absurd (cc e)
All-get P (y ∷ xs) zero x h e = let same : y ≡ x = cc in subst P same h.0
All-get P (y ∷ xs) (suc i) x h e = All-get P xs i x h.1 e

module _ {ℓ} {A : Type ℓ} where
  -- What stands at an index after appending one entry.
  pub get_elem?-concat_cases :
      (xs : List A) (x y : A) (k : ℕ)
      → get_elem? (xs ++ x ∷ []) k ≡ some y
      → (get_elem? xs k ≡ some y) ⊎ ((k ≡ length xs) × (y ≡ x))
  get_elem?-concat_cases [] x y zero e = inr (refl, cc)
  get_elem?-concat_cases [] x y (suc k) e = absurd (cc e)
  get_elem?-concat_cases (z ∷ xs) x y zero e = inl e
  get_elem?-concat_cases (z ∷ xs) x y (suc k) e = elim (get_elem?-concat_cases xs x y k e) [
    | inl old ↦ inl old
    | inr (at, same) ↦ inr (ap suc at, same)
  ]

  pub get_elem?-append_cases :
      (xs ys : List A) (y : A) (k : ℕ)
      → get_elem? (xs ++ ys) k ≡ some y
      → (get_elem? xs k ≡ some y) ⊎ (get_elem? ys (k - length xs) ≡ some y)
  get_elem?-append_cases [] ys y k e =
      let same : k - 0 ≡ k = omega arith in inr (ap (get_elem? ys) same ∙ e)
  get_elem?-append_cases (z ∷ xs) ys y zero e = inl e
  get_elem?-append_cases (z ∷ xs) ys y (suc k) e = elim (get_elem?-append_cases xs ys y k e) [
    | inl old ↦ inl old
    | inr new ↦
        let same : suc k - suc (length xs) ≡ k - length xs = omega arith in
        inr (ap (get_elem? ys) same ∙ new)
  ]

  pub get_elem?-replicate : (n : ℕ) (x y : A) (k : ℕ) → get_elem? (replicate n x) k ≡ some y → y ≡ x
  get_elem?-replicate zero x y k e = absurd (cc e)
  get_elem?-replicate (suc n) x y zero e = cc
  get_elem?-replicate (suc n) x y (suc k) e = get_elem?-replicate n x y k e

  pub count-none :
      (p : A → Bool) (xs : List A)
      → ((j : ℕ) (x : A) → get_elem? xs j ≡ some x → p x ≡ false)
      → count p xs ≡ 0
  unfolding count
  count-none p [] h = refl
  count-none p (x ∷ xs) h = ground (arith, h 0 x refl, count-none p xs (λ j y e. h (suc j) y e))

  pub count-zero :
      (p : A → Bool) (xs : List A) (j : ℕ) (x : A)
      → count p xs ≡ 0
      → get_elem? xs j ≡ some x
      → p x ≡ false
  unfolding count
  count-zero p [] j x h e = absurd (cc e)
  count-zero p (y ∷ xs) zero x h e = ground arith
  count-zero p (y ∷ xs) (suc j) x h e = count-zero p xs j x (omega arith) e

  pub count-replicate :
      (p : A → Bool) (n : ℕ) (x : A) → count p (replicate n x) ≡ (if p x then n else 0)
  unfolding count
  count-replicate p zero x = ground arith
  count-replicate p (suc n) x = ground (arith, count-replicate p n x)
