-- ===== src/Client/Iterator/Holding.antt =====
-- What an IteratorImpl (src/client/iterator_impl.cc) holds of the nodes' pairs.
use crocks.Prelude.{
  ℕ, zero, suc, ◌≡◌, refl, ap, sym, ◌∙◌, subst, Bool, true, false, not, List, [], ◌∷◌, ◌++◌, none,
  some, Bytes, is_in, arith, get_elem?, set, Bool-cases, inl, inr,
}
use crocks.Heap.{precedes, key_at, top}
use crocks.Heap.Order.{some-inj, top-some, top-precedes, is_in-top}
use crocks.Server.Iterator.{RocksIterator}
use crocks.Server.Responses.{apply_iterator_request}
use crocks.Client.NodeIterator.{is_no_pair}
use crocks.Client.NodeIterator.Views.{IsSorted, Node, View, idle, waiting}
use crocks.Client.NodeIterator.Views.Moves.{View-valid}
use crocks.Client.Iterator.{IteratorImpl, node_key}
use crocks.Client.Iterator.Merged.{Pairs, flatten}

flatten-nil :
    (ls : List Pairs) → ((k : ℕ) (l : Pairs) → get_elem? ls k ≡ some l → l ≡ []) → flatten ls ≡ []
flatten-nil [] h = refl
flatten-nil (l ∷ ls) h =
    let first = h 0 l refl in
    let rest = flatten-nil ls (λ k x e. h (suc k) x e) in ap (λ x. x ++ flatten ls) first ∙ rest

no_pair-nil : (l : Pairs) → not (is_no_pair l) ≡ false → l ≡ []
no_pair-nil [] h = refl
no_pair-nil (kv ∷ l) h = absurd (cc h)

some_pair :
    (l : Pairs)
    → not (is_no_pair l) ≡ true
    → (kv : Bytes × Bytes) × (rest : Pairs) × (l ≡ kv ∷ rest)
some_pair [] h = absurd (cc h)
some_pair (kv ∷ l) h = (kv, l, refl)

abbrev pub Impl : RocksIterator → Type 0
Impl r = IteratorImpl (apply_iterator_request r)

abbrev pub key : (r : RocksIterator) → Node r → Bytes
key r it = node_key (apply_iterator_request r) it

module _ (r : RocksIterator) (forward : Bool) where
  -- the iterators, each with the pairs that it is to give
  pub data Each : List (Node r) → List Pairs → Type 0 where
    no_more : Each [] []
    each :
        (it : Node r) (l : Pairs) {its : List (Node r)} {ls : List Pairs}
        → View r forward it l
        → IsSorted forward l
        → Each its ls
        → Each (it ∷ its) (l ∷ ls)

  pub Each-iter :
      (its : List (Node r)) (ls : List Pairs) (k : ℕ) (l : Pairs)
      → Each its ls
      → get_elem? ls k ≡ some l
      → (it : Node r) × (get_elem? its k ≡ some it) × View r forward it l × IsSorted forward l
  Each-iter _ _ k l no_more h = absurd (cc h)
  Each-iter _ _ zero l (each it x view sorted more) h =
      let same : x ≡ l = some-inj h in
      (it, refl, subst (View r forward it) same view, subst (IsSorted forward) same sorted)
  Each-iter _ _ (suc k) l (each it x {its} {ls} view sorted more) h = Each-iter its ls k l more h

  Each-list :
      (its : List (Node r)) (ls : List Pairs) (k : ℕ) (it : Node r)
      → Each its ls
      → get_elem? its k ≡ some it
      → (l : Pairs) × (get_elem? ls k ≡ some l) × View r forward it l × IsSorted forward l
  Each-list _ _ k it no_more h = absurd (cc h)
  Each-list _ _ zero it (each x l view sorted more) h =
      let same : x ≡ it = some-inj h in (l, refl, subst (λ y. View r forward y l) same view, sorted)
  Each-list _ _ (suc k) it (each x l {its} {ls} view sorted more) h = Each-list its ls k it more h

  pub Each-set :
      (its : List (Node r)) (ls : List Pairs) (k : ℕ) (it : Node r) (l : Pairs)
      → Each its ls
      → View r forward it l
      → IsSorted forward l
      → Each (set its k it) (set ls k l)
  Each-set _ _ k it l no_more view sorted = no_more
  Each-set _ _ zero it l (each x y v s more) view sorted = each it l view sorted more
  Each-set _ _ (suc k) it l (each x y {its} {ls} v s more) view sorted =
      each x y v s (Each-set its ls k it l more view sorted)

  -- The heap holds just the valid iterators, and its top is the current one.
  pub record Holds (m : Impl r) (ls : List Pairs) : Type 0 where
    pub going : m.forward ≡ forward
    pub views : Each m.iters ls
    pub held : (k : ℕ) (it : Node r) → get_elem? m.iters k ≡ some it → is_in k m.heap ≡ it.valid
    pub inside : (k : ℕ) → is_in k m.heap ≡ true → (it : Node r) × (get_elem? m.iters k ≡ some it)
    pub chosen : m.current ≡ top (key r) m.forward m.iters m.heap

  View-key :
      (it : Node r) (kv : Bytes × Bytes) (kvs : Pairs)
      → View r forward it (kv ∷ kvs)
      → key r it ≡ kv.0
  View-key _ kv kvs (idle [] rest _ v d rq rs m same valid done many shows) =
      absurd (omega (arith, many (ap is_no_pair same)))
  View-key _ kv kvs (idle (x ∷ q) rest _ v d rq rs m same valid done many shows) =
      let head : x ≡ kv = cc same in ap (λ y. y.0) head
  View-key _ kv kvs (waiting x q rest _ target rq rs m same some_rest few shows) =
      let head : x ≡ kv = cc same in ap (λ y. y.0) head

  pub flatten-Holds :
      (m : Impl r) (ls : List Pairs) → Holds m ls → m.current ≡ none → flatten ls ≡ []
  flatten-Holds m ls h off = flatten-nil ls (λ k l at_k.
      let (it, here, view, sorted) = Each-iter m.iters ls k l h.views at_k in
      elim (Bool-cases it.valid) [
        | inl on ↦
            let (t, found) = top-some (key r) m.forward m.iters m.heap k (h.held k it here ∙ on) in
            absurd (cc (h.chosen, found, off))
        | inr out ↦ no_pair-nil l (sym (View-valid r forward it l view) ∙ out)
      ])

  -- the current iterator, and its pairs
  pub record IsCurrent (m : Impl r) (ls : List Pairs) (i : ℕ) (it : Node r) (kv : Bytes × Bytes)
      (rest : Pairs) : Type 0 where
    pub here : get_elem? m.iters i ≡ some it
    pub listed : get_elem? ls i ≡ some (kv ∷ rest)
    pub view : View r forward it (kv ∷ rest)
    pub sorted : IsSorted forward (kv ∷ rest)

  pub current-IsCurrent :
      (m : Impl r) (ls : List Pairs) (i : ℕ)
      → Holds m ls
      → m.current ≡ some i
      → (it : Node r) × (kv : Bytes × Bytes) × (rest : Pairs) × IsCurrent m ls i it kv rest
  current-IsCurrent m ls i h on =
      let inside = is_in-top (key r) m.forward m.iters m.heap i (sym h.chosen ∙ on) in
      let (it, here) = h.inside i inside in
      let (l, listed, view, sorted) = Each-list m.iters ls i it h.views here in
      let valid = sym (View-valid r forward it l view) ∙ sym (h.held i it here) ∙ inside in
      let (kv, rest, same) = some_pair l valid in
      (
        it,
        kv,
        rest,
        record {
          here = here;
          listed = listed ∙ ap some same;
          view = subst (View r forward it) same view;
          sorted = subst (IsSorted forward) same sorted;
        },
      )

  -- No first pair comes before that of the current iterator.
  pub current-least :
      (m : Impl r) (ls : List Pairs) (i : ℕ) (it : Node r) (kv : Bytes × Bytes) (rest : Pairs)
      → Holds m ls
      → m.current ≡ some i
      → IsCurrent m ls i it kv rest
      → (k : ℕ) (other : Bytes × Bytes) (others : Pairs) → get_elem? ls k ≡ some (other ∷ others)
      → precedes forward other.0 kv.0 ≡ false
  current-least m ls i it kv rest h on c k other others at_k =
      let (x, there, view, sorted) = Each-iter m.iters ls k (other ∷ others) h.views at_k in
      let valid = h.held k x there ∙ View-valid r forward x (other ∷ others) view in
      let low = top-precedes (key r) m.forward m.iters m.heap i k (sym h.chosen ∙ on) valid in
      let left : key_at (key r) m.iters k ≡ other.0 =
        rw (there, key_at) (View-key x other others view) in
      let right : key_at (key r) m.iters i ≡ kv.0 =
        rw (c.here, key_at) (View-key it kv rest c.view) in
      ap (λ f. precedes f other.0 kv.0) (sym h.going)
      ∙ ap (λ y. precedes m.forward y kv.0) (sym left)
      ∙ ap (precedes m.forward (key_at (key r) m.iters k)) (sym right)
      ∙ low
