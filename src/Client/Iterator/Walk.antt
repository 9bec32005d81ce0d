-- ===== src/Client/Iterator/Walk.antt =====
-- Seeks and moves of an IteratorImpl (src/client/iterator_impl.cc).
use crocks.Prelude.{
  ℕ, zero, suc, ◌≡◌, refl, ap, sym, ◌∙◌, Bool, true, false, List, [], ◌∷◌, ◌++◌, none, some, Bytes,
  is_in, arith, length, get_elem?, get_elem?-set, set, ◌==◌, ==-refl, Bool-cases, Option-cases, inl,
  inr, if◌then◌else◌, Run, ok, abort, ◌>>=◌,
}
use crocks.Heap.{top, pop}
use crocks.Heap.Order.{is_in-moved, some-inj}
use crocks.Server.Iterator.{RocksIterator}
use crocks.Server.Responses.{apply_iterator_request}
use crocks.Client.NodeIterator.{node_pair}
use crocks.Client.NodeIterator.Views.{IsSorted, Node, View}
use crocks.Client.NodeIterator.Views.Moves.{step_of, step_of-View, View-pair}
use crocks.Client.Iterator.{impl_pair, advance_node, impl_next, impl_prev}
use crocks.Client.Iterator.Merged.{Pairs, flatten, Merged, ended, taken, length-flatten-set}
use crocks.Client.Iterator.Holding.{
  Impl, key, Each-set, Holds, flatten-Holds, current-IsCurrent, current-least,
}

module _ (r : RocksIterator) where
  -- Next or Prev
  abbrev pub impl_step : Bool → Impl r → Run (Impl r)
  impl_step true m = impl_next (apply_iterator_request r) m
  impl_step false m = impl_prev (apply_iterator_request r) m

  -- what the moves of an iterator show, until it is not valid any more
  pub data Iterates (forward : Bool) : Impl r → Pairs → Type 0 where
    over : (m : Impl r) → m.current ≡ none → Iterates forward m []
    at_pair :
        (m n : Impl r) (kv : Bytes × Bytes) (kvs : Pairs)
        → impl_pair (apply_iterator_request r) m ≡ ok kv
        → impl_step forward m ≡ ok n
        → Iterates forward n kvs
        → Iterates forward m (kv ∷ kvs)

  moved : Bool → Impl r → ℕ → Node r → Impl r
  moved forward m i it =
      let iters = set m.iters i it in
      let popped = pop i m.heap in
      let heap = if it.valid then popped ++ i ∷ [] else popped in
      record m { iters = iters; heap = heap; current = top (key r) m.forward iters heap }

  advance_node-ok :
      (move : Node r → Run (Node r)) (forward : Bool) (m : Impl r) (ls : List Pairs) (i : ℕ)
      (it later : Node r)
      → Holds r forward m ls
      → m.current ≡ some i
      → get_elem? m.iters i ≡ some it
      → move it ≡ ok later
      → advance_node (apply_iterator_request r) move m ≡ ok (moved forward m i later)
  unfolding advance_node moved
  advance_node-ok move forward m ls i it later h on here step =
      let found = sym h.chosen ∙ on in rw (on, found, ==-refl i, here, step) refl

  moved-Holds :
      (forward : Bool) (m : Impl r) (ls : List Pairs) (i : ℕ) (it later : Node r) (rest : Pairs)
      → Holds r forward m ls
      → get_elem? m.iters i ≡ some it
      → View r forward later rest
      → IsSorted forward rest
      → Holds r forward (moved forward m i later) (set ls i rest)
  unfolding moved
  moved-Holds forward m ls i it later rest h here view sorted = record {
    going = h.going;
    views = Each-set r forward m.iters ls i later rest h.views view sorted;
    held = λ k x at_k. is_in-moved later.valid i k m.heap ∙ elim (Bool-cases (i == k)) [
      | inl same ↦
          let eq : later ≡ x =
            some-inj (sym (get_elem?-set m.iters i k later it here ∙ rw same refl) ∙ at_k) in
          rw same (ap (λ y. y.valid) eq)
      | inr away ↦
          rw away (h.held k x (sym (get_elem?-set m.iters i k later it here ∙ rw away refl) ∙ at_k))
    ];
    inside = λ k inside. elim (Bool-cases (i == k)) [
      | inl same ↦ (later, get_elem?-set m.iters i k later it here ∙ rw same refl)
      | inr away ↦
          let old : is_in k m.heap ≡ true =
            sym (is_in-moved later.valid i k m.heap ∙ rw away refl) ∙ inside in
          let (x, there) = h.inside k old in
          (x, get_elem?-set m.iters i k later it here ∙ rw away there)
    ];
    chosen = refl;
  }

  impl_pair-ok :
      (m : Impl r) (i : ℕ) (it : Node r) (kv : Bytes × Bytes)
      → m.current ≡ some i
      → get_elem? m.iters i ≡ some it
      → node_pair (apply_iterator_request r) it ≡ ok kv
      → impl_pair (apply_iterator_request r) m ≡ ok kv
  unfolding impl_pair
  impl_pair-ok m i it kv on here pair = rw (on, here) pair

  bind-ok {ℓ κ} :
      {A : Type ℓ} {B : Type κ} (m : Run A) (a : A) (f : A → Run B) (b : Run B)
      → m ≡ ok a
      → f a ≡ b
      → m >>= f ≡ b
  bind-ok (ok x) a f b h k = let same : x ≡ a = cc h in ap f same ∙ k
  bind-ok abort a f b h k = absurd (cc h)

  if-true {ℓ} :
      {A : Type ℓ} (b : Bool) (m : A) (n : Run A) (f : A → Run A)
      → b ≡ true
      → (if b then ok m else n) >>= f ≡ f m
  if-true true m n f h = refl
  if-true false m n f h = absurd (cc h)

  if-false {ℓ} :
      {A : Type ℓ} (b : Bool) (m : A) (n : Run A) (f : A → Run A)
      → b ≡ false
      → (if b then n else ok m) >>= f ≡ f m
  if-false true m n f h = absurd (cc h)
  if-false false m n f h = refl

  impl_step-ok :
      (forward : Bool) (m : Impl r) (kv : Bytes × Bytes) (n : Impl r)
      → m.forward ≡ forward
      → impl_pair (apply_iterator_request r) m ≡ ok kv
      → advance_node (apply_iterator_request r) (step_of r forward) m ≡ ok n
      → impl_step forward m ≡ ok n
  unfolding impl_next impl_prev
  impl_step-ok true m kv n h pair step =
      bind-ok (impl_pair (apply_iterator_request r) m) kv _ (ok n) pair
        (if-true m.forward m _ _ h ∙ step)
  impl_step-ok false m kv n h pair step =
      bind-ok (impl_pair (apply_iterator_request r) m) kv _ (ok n) pair
        (if-false m.forward m _ _ h ∙ step)

  -- the number of pairs left goes down with every move
  pub iterates :
      (forward : Bool) (left : ℕ) (m : Impl r) (ls : List Pairs)
      → Holds r forward m ls
      → length (flatten ls) ≡ left
      → (out : Pairs) × Iterates forward m out × Merged forward ls out
  iterates forward zero m ls h none_left = elim (Option-cases m.current) [
    | inl off ↦ ([], over m off, ended ls (flatten-Holds r forward m ls h off))
    | inr (i, on) ↦
        let (it, kv, rest, c) = current-IsCurrent r forward m ls i h on in
        absurd (omega (arith, length-flatten-set forward ls i kv rest c.listed, none_left))
  ]
  iterates forward (suc left) m ls h count = elim (Option-cases m.current) [
    | inl off ↦ ([], over m off, ended ls (flatten-Holds r forward m ls h off))
    | inr (i, on) ↦
        let (it, kv, rest, c) = current-IsCurrent r forward m ls i h on in
        let (later, step, view) = step_of-View r forward it kv rest c.view c.sorted.1 in
        let next = advance_node-ok (step_of r forward) forward m ls i it later h on c.here step in
        let pair = impl_pair-ok m i it kv on c.here (View-pair r forward it kv rest c.view) in
        let held = moved-Holds forward m ls i it later rest h c.here view c.sorted.1 in
        let (out, shown, merged) =
          iterates forward left (moved forward m i later) (set ls i rest) held
            (omega (arith, length-flatten-set forward ls i kv rest c.listed, count)) in
        (
          kv ∷ out,
          at_pair m (moved forward m i later) kv out pair
              (impl_step-ok forward m kv (moved forward m i later) h.going pair next) shown,
          taken ls i kv rest out c.listed (current-least r forward m ls i it kv rest h on c) merged,
        )
  ]
