-- ===== src/Heap.antt =====
-- The class Heap (src/common/heap.h), of pointers to iterators. A pointer is an index in the list of
-- all iterators. RocksdbIteratorGreater and RocksdbIteratorLess (src/server/iterator.h) and their
-- like in src/client/iterator_impl.h compare keys.
pub mod Order
use crocks.Prelude.{
  ℕ, suc, Bool, true, false, List, [], ◌∷◌, Option, none, some, Bytes, blt, get_elem?, ◌==◌,
  if◌then◌else◌,
}

-- what comes first in a heap, for both directions
abbrev pub precedes : Bool → Bytes → Bytes → Bool
precedes true x y = blt x y
precedes false x y = blt y x

-- Heap::pop takes its top away.
abbrev pub pop : ℕ → List ℕ → List ℕ
pop i [] = []
pop i (j ∷ js) = if i == j then pop i js else j ∷ pop i js

module _ {ℓ} {State : Type ℓ} (key : State → Bytes) where
  abbrev pub key_at : List State → ℕ → Bytes
  key_at iters i = elim (get_elem? iters i) [ none ↦ [] | some s ↦ key s ]

  -- Heap::top. std::make_heap, push_heap and pop_heap put an element in front that no other one
  -- precedes.
  abbrev pub first_of : Bool → List State → ℕ → Option ℕ → Option ℕ
  first_of forward iters i none = some i
  first_of forward iters i (some j) =
      if precedes forward (key_at iters j) (key_at iters i) then some j else some i

  abbrev pub top : Bool → List State → List ℕ → Option ℕ
  top forward iters [] = none
  top forward iters (i ∷ is) = first_of forward iters i (top forward iters is)

-- `if (iter->Valid()) heap.push_back(iter)`, over the iterators from an index on
abbrev pub collect_valid {ℓ} : {State : Type ℓ} → (State → Bool) → ℕ → List State → List ℕ
collect_valid is_valid i [] = []
collect_valid is_valid i (s ∷ ss) =
    if is_valid s then i ∷ collect_valid is_valid (suc i) ss else collect_valid is_valid (suc i) ss
