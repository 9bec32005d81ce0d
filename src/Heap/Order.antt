-- ===== src/Heap/Order.antt =====
-- The order of keys, and what a Heap (src/common/heap.h) holds.
use crocks.Prelude.{
  ℕ, zero, suc, ◌+◌, ◌<◌, ◌≡◌, refl, ap, sym, subst, ◌∙◌, Bool, true, false, List, [], ◌∷◌, ◌++◌,
  Option, none, some, Bytes, blt_trans, blt_irrefl, blt_asym, is_in, arith, get_elem?, ◌==◌,
  if◌then◌else◌, Bool-cases, ◌⊎◌, inl, inr,
}
use crocks.Heap.{precedes, pop, key_at, first_of, top, collect_valid}

pub precedes_trans :
    (forward : Bool) (x y z : Bytes)
    → precedes forward x y ≡ false
    → precedes forward y z ≡ false
    → precedes forward x z ≡ false
precedes_trans true x y z h k = blt_trans x y z h k
precedes_trans false x y z h k = blt_trans z y x k h

pub precedes_irrefl : (forward : Bool) (x : Bytes) → precedes forward x x ≡ false
precedes_irrefl true x = blt_irrefl x
precedes_irrefl false x = blt_irrefl x

pub precedes_asym :
    (forward : Bool) (x y : Bytes) → precedes forward x y ≡ true → precedes forward y x ≡ false
precedes_asym true x y h = blt_asym x y h
precedes_asym false x y h = blt_asym y x h

pub is_in-pop :
    (i k : ℕ) (js : List ℕ) → is_in k (pop i js) ≡ (if i == k then false else is_in k js)
is_in-pop i k [] = ground arith
is_in-pop i k (j ∷ js) = ground (arith, is_in-pop i k js)

pub is_in-push :
    (i k : ℕ) (js : List ℕ) → is_in k (js ++ i ∷ []) ≡ (if i == k then true else is_in k js)
is_in-push i k [] = refl
is_in-push i k (j ∷ js) = ground (arith, is_in-push i k js)

pub some-inj {ℓ} : {A : Type ℓ} {x y : A} → some x ≡ some y → x ≡ y
some-inj e = cc e

pub is_in-moved :
    (b : Bool) (i k : ℕ) (js : List ℕ)
    → is_in k (if b then pop i js ++ i ∷ [] else pop i js) ≡ (if i == k then b else is_in k js)
is_in-moved true i k js = ground (arith, is_in-pop i k js, is_in-push i k (pop i js))
is_in-moved false i k js = is_in-pop i k js

module _ {ℓ} {State : Type ℓ} (key : State → Bytes) where
  first_of-some :
      (forward : Bool) (iters : List State) (i : ℕ) (o : Option ℕ)
      → (j : ℕ) × (first_of key forward iters i o ≡ some j)
  first_of-some forward iters i none = (i, refl)
  first_of-some forward iters i (some j) =
      elim (Bool-cases (precedes forward (key_at key iters j) (key_at key iters i))) [
        | inl on ↦ (j, rw on refl)
        | inr off ↦ (i, rw off refl)
      ]

  first_of-precedes :
      (forward : Bool) (iters : List State) (i j k : ℕ) (o : Option ℕ)
      → first_of key forward iters j o ≡ some i
      → (j ≡ k)
        ⊎ ((t : ℕ) × (o ≡ some t)
            × (precedes forward (key_at key iters k) (key_at key iters t) ≡ false))
      → precedes forward (key_at key iters k) (key_at key iters i) ≡ false
  first_of-precedes forward iters i j k none e (inl here) =
      let same : i ≡ k = cc in rw same (precedes_irrefl forward (key_at key iters k))
  first_of-precedes forward iters i j k none e (inr (t, f, q)) = absurd (cc f)
  first_of-precedes forward iters i j k (some u) e from =
      elim (Bool-cases (precedes forward (key_at key iters u) (key_at key iters j))) [
        | inl on ↦
            let chosen : some u ≡ some i = (rw on refl) ∙ e in
            let same : i ≡ u = cc in
            elim from [
              | inl here ↦
                  rw (same, sym here)
                    (precedes_asym forward (key_at key iters u) (key_at key iters j) on)
              | inr (t, f, q) ↦ let there : u ≡ t = cc in rw (same, there) q
            ]
        | inr off ↦
            let chosen : some j ≡ some i = (rw off refl) ∙ e in
            let same : i ≡ j = cc in
            elim from [
              | inl here ↦ rw (same, here) (precedes_irrefl forward (key_at key iters k))
              | inr (t, f, q) ↦
                  let there : u ≡ t = cc in
                  rw same (
                    precedes_trans forward (key_at key iters k) (key_at key iters u)
                      (key_at key iters j) (rw there q) off)
            ]
      ]

  pub top-some :
      (forward : Bool) (iters : List State) (js : List ℕ) (k : ℕ)
      → is_in k js ≡ true
      → (t : ℕ) × (top key forward iters js ≡ some t)
  top-some forward iters [] k h = absurd (cc h)
  top-some forward iters (j ∷ js) k h = first_of-some forward iters j (top key forward iters js)

  -- No element of a heap precedes its top.
  pub top-precedes :
      (forward : Bool) (iters : List State) (js : List ℕ) (i k : ℕ)
      → top key forward iters js ≡ some i
      → is_in k js ≡ true
      → precedes forward (key_at key iters k) (key_at key iters i) ≡ false
  top-precedes forward iters [] i k e h = absurd (cc e)
  top-precedes forward iters (j ∷ js) i k e h =
      first_of-precedes forward iters i j k (top key forward iters js) e
        (elim (Bool-cases (j == k)) [
          | inl here ↦ inl (ground arith)
          | inr there ↦
              let (t, f) = top-some forward iters js k (ground arith) in
              inr (t, f, top-precedes forward iters js t k f (ground arith))
        ])

  -- The top of a heap is one of its elements.
  pub is_in-top :
      (forward : Bool) (iters : List State) (js : List ℕ) (t : ℕ)
      → top key forward iters js ≡ some t
      → is_in t js ≡ true
  is_in-top forward iters [] t e = absurd (cc e)
  is_in-top forward iters (j ∷ js) t e =
      is_in-first_of forward iters j t js (top key forward iters js) e (is_in-top forward iters js)
    where
      is_in-first_of :
          (forward : Bool) (iters : List State) (j t : ℕ) (js : List ℕ) (o : Option ℕ)
          → first_of key forward iters j o ≡ some t
          → ((u : ℕ) → o ≡ some u → is_in u js ≡ true)
          → is_in t (j ∷ js) ≡ true
      is_in-first_of forward iters j t js none e h = let same : j ≡ t = cc e in ground arith
      is_in-first_of forward iters j t js (some u) e h =
          elim (Bool-cases (precedes forward (key_at key iters u) (key_at key iters j))) [
            | inl on ↦
                let same : u ≡ t = some-inj (sym (rw on refl) ∙ e) in
                let there = h t (ap some same) in ground arith
            | inr off ↦ let same : j ≡ t = some-inj (sym (rw off refl) ∙ e) in ground arith
          ]

module _ {ℓ} {State : Type ℓ} (is_valid : State → Bool) where
  collect_valid-lt :
      (i k : ℕ) (ss : List State) → k < i → is_in k (collect_valid is_valid i ss) ≡ false
  collect_valid-lt i k [] h = refl
  collect_valid-lt i k (s ∷ ss) h = ground (arith, collect_valid-lt (suc i) k ss (omega arith))

  pub is_in-collect_valid :
      (i k : ℕ) (ss : List State) (s : State)
      → get_elem? ss k ≡ some s
      → is_in (i + k) (collect_valid is_valid i ss) ≡ is_valid s
  is_in-collect_valid i k [] s e = absurd (cc e)
  is_in-collect_valid i zero (t ∷ ss) s e =
      let same : t ≡ s = cc in
      let later = collect_valid-lt (suc i) (i + 0) ss (omega arith) in
      let valid = ap is_valid same in ground arith
  is_in-collect_valid i (suc k) (t ∷ ss) s e =
      let rest = is_in-collect_valid (suc i) k ss s e in
      let index : suc i + k ≡ i + suc k = omega arith in
      let there : is_in (i + suc k) (collect_valid is_valid (suc i) ss) ≡ is_valid s =
        subst (λ n. is_in n (collect_valid is_valid (suc i) ss) ≡ is_valid s) index rest in
      let apart : (i == (i + suc k)) ≡ false = ground arith in
      elim (Bool-cases (is_valid t)) [ inl on ↦ rw (on, apart) there | inr off ↦ rw off there ]

  -- What has been collected is the index of an iterator.
  pub collect_valid-some :
      (i k : ℕ) (ss : List State)
      → is_in k (collect_valid is_valid i ss) ≡ true
      → (j : ℕ) × (s : State) × (k ≡ i + j) × (get_elem? ss j ≡ some s)
  collect_valid-some i k [] h = absurd (cc h)
  collect_valid-some i k (s ∷ ss) h = elim (Bool-cases (i == k)) [
    | inl here ↦ (0, s, ground arith, refl)
    | inr away ↦
        let later : is_in k (collect_valid is_valid (suc i) ss) ≡ true = ground arith in
        let (j, t, index, there) = collect_valid-some (suc i) k ss later in
        (suc j, t, omega (arith, index), there)
  ]
