-- ===== src/Client/Iterator/Merged.antt =====
-- What it is to merge the lists of the nodes.
use mathlib.Core.List.{Perm, perm_middle}
use mathlib.Core.List.Perm
use crocks.Prelude.{
  ℕ, zero, suc, ◌≡◌, refl, ap, sym, ◌∙◌, subst, Bool, false, List, [], ◌∷◌, ◌++◌, some, Bytes,
  arith, length, length-append, get_elem?, get_elem?-set, set, ◌==◌, Bool-cases, inl, inr,
}
use crocks.Heap.{precedes}
use crocks.Heap.Order.{precedes_trans, precedes_asym, some-inj}
use crocks.Client.NodeIterator.Views.{AllAfter, IsSorted}

abbrev pub Pairs : Type 0
Pairs = List (Bytes × Bytes)

abbrev pub flatten : List Pairs → Pairs
flatten [] = []
flatten (l ∷ ls) = l ++ flatten ls

-- no pair comes before the key
abbrev pub NoneBefore : Bool → Bytes → Pairs → Type 0
NoneBefore forward k [] = Unit
NoneBefore forward k (kv ∷ kvs) = (precedes forward kv.0 k ≡ false) × NoneBefore forward k kvs

abbrev pub IsOrdered : Bool → Pairs → Type 0
IsOrdered forward [] = Unit
IsOrdered forward (kv ∷ kvs) = NoneBefore forward kv.0 kvs × IsOrdered forward kvs

module _ (forward : Bool) where
  -- The second list takes a first pair from some list, which no other first pair comes before, as
  -- long as there is one.
  pub data Merged : List Pairs → Pairs → Type 0 where
    ended : (ls : List Pairs) → flatten ls ≡ [] → Merged ls []
    taken :
        (ls : List Pairs) (i : ℕ) (kv : Bytes × Bytes) (rest out : Pairs)
        → get_elem? ls i ≡ some (kv ∷ rest)
        → ((k : ℕ) (other : Bytes × Bytes) (others : Pairs)
            → get_elem? ls k ≡ some (other ∷ others)
            → precedes forward other.0 kv.0 ≡ false)
        → Merged (set ls i rest) out
        → Merged ls (kv ∷ out)

  flatten-set-Perm :
      (ls : List Pairs) (i : ℕ) (kv : Bytes × Bytes) (rest : Pairs)
      → get_elem? ls i ≡ some (kv ∷ rest)
      → Perm (flatten ls) (kv ∷ flatten (set ls i rest))
  flatten-set-Perm [] i kv rest h = absurd (cc h)
  flatten-set-Perm (l ∷ ls) zero kv rest h =
      subst (λ x. Perm (x ++ flatten ls) (kv ∷ rest ++ flatten ls)) (sym (some-inj h)) Perm.rfl
  flatten-set-Perm (l ∷ ls) (suc i) kv rest h =
      Perm.trans (Perm.append_left l (flatten-set-Perm ls i kv rest h))
        (perm_middle l (flatten (set ls i rest)))

  -- Nothing is lost or made up.
  pub Merged-Perm : (ls : List Pairs) (out : Pairs) → Merged ls out → Perm (flatten ls) out
  Merged-Perm ls _ (ended _ none_left) = subst (λ x. Perm x []) (sym none_left) Perm.rfl
  Merged-Perm ls _ (taken _ i kv rest out here least more) =
      Perm.trans (flatten-set-Perm ls i kv rest here)
        (Perm.cons kv (Merged-Perm (set ls i rest) out more))

  -- no pair of any list comes before the key
  abbrev Bound : Bytes → List Pairs → Type 0
  Bound k ls = (i : ℕ) (l : Pairs) → get_elem? ls i ≡ some l → NoneBefore forward k l

  abbrev AllSorted : List Pairs → Type 0
  AllSorted ls = (i : ℕ) (l : Pairs) → get_elem? ls i ≡ some l → IsSorted forward l

  AllAfter-NoneBefore :
      (k h : Bytes) (kvs : Pairs)
      → precedes forward h k ≡ false
      → AllAfter forward h kvs
      → NoneBefore forward k kvs
  AllAfter-NoneBefore k h [] low after = tt
  AllAfter-NoneBefore k h (kv ∷ kvs) low (first, after) = (
    precedes_trans forward kv.0 h k (precedes_asym forward h kv.0 first) low,
    AllAfter-NoneBefore k h kvs low after,
  )

  set-both {ℓ} :
      (P : Pairs → Type ℓ) (ls : List Pairs) (i : ℕ) (old new : Pairs)
      → get_elem? ls i ≡ some old
      → P new
      → ((k : ℕ) (l : Pairs) → get_elem? ls k ≡ some l → P l)
      → (k : ℕ) (l : Pairs) → get_elem? (set ls i new) k ≡ some l
      → P l
  set-both P ls i old new here h rest k l at_k = elim (Bool-cases (i == k)) [
    | inl same ↦
        let eq : new ≡ l =
          some-inj (sym (get_elem?-set ls i k new old here ∙ rw same refl) ∙ at_k) in
        subst P eq h
    | inr away ↦ rest k l (sym (get_elem?-set ls i k new old here ∙ rw away refl) ∙ at_k)
  ]

  Merged-NoneBefore :
      (k : Bytes) (ls : List Pairs) (out : Pairs)
      → Merged ls out
      → Bound k ls
      → NoneBefore forward k out
  Merged-NoneBefore k ls _ (ended _ none_left) bound = tt
  Merged-NoneBefore k ls _ (taken _ i kv rest out here least more) bound =
      let (first, others) = bound i (kv ∷ rest) here in
      (
        first,
        Merged-NoneBefore k (set ls i rest) out more
            (set-both (NoneBefore forward k) ls i (kv ∷ rest) rest here others bound),
      )

  list-NoneBefore :
      (kv : Bytes × Bytes) (ls : List Pairs)
      → ((k : ℕ) (other : Bytes × Bytes) (others : Pairs)
          → get_elem? ls k ≡ some (other ∷ others)
          → precedes forward other.0 kv.0 ≡ false)
      → AllSorted ls
      → Bound kv.0 ls
  list-NoneBefore kv ls least sorted k [] at_k = tt
  list-NoneBefore kv ls least sorted k (x ∷ xs) at_k =
      let low = least k x xs at_k in
      (low, AllAfter-NoneBefore kv.0 x.0 xs low (sorted k (x ∷ xs) at_k).0)

  -- Of lists in order the result is in order.
  pub Merged-IsOrdered :
      (ls : List Pairs) (out : Pairs) → Merged ls out → AllSorted ls → IsOrdered forward out
  Merged-IsOrdered ls _ (ended _ none_left) sorted = tt
  Merged-IsOrdered ls _ (taken _ i kv rest out here least more) sorted =
      let bound = list-NoneBefore kv ls least sorted in
      let (first, others) = bound i (kv ∷ rest) here in
      (
        Merged-NoneBefore kv.0 (set ls i rest) out more
            (set-both (NoneBefore forward kv.0) ls i (kv ∷ rest) rest here others bound),
        Merged-IsOrdered (set ls i rest) out more (
            set-both (IsSorted forward) ls i (kv ∷ rest) rest here (sorted i (kv ∷ rest) here).1
              sorted),
      )

  pub length-flatten-set :
      (ls : List Pairs) (i : ℕ) (kv : Bytes × Bytes) (rest : Pairs)
      → get_elem? ls i ≡ some (kv ∷ rest)
      → length (flatten ls) ≡ suc (length (flatten (set ls i rest)))
  length-flatten-set [] i kv rest h = absurd (cc h)
  length-flatten-set (l ∷ ls) zero kv rest h = ap (λ x. length (x ++ flatten ls)) (some-inj h)
  length-flatten-set (l ∷ ls) (suc i) kv rest h = omega (
    arith,
    length-flatten-set ls i kv rest h,
    length-append l (flatten ls),
    length-append l (flatten (set ls i rest)),
  )
