-- ===== src/Client/NodeIterator/Views/Walks.antt =====
-- A seek of a NodeIterator and any moves after it (src/client/node_iterator.cc).
use crocks.Prelude.{
  ℕ, zero, suc, ◌+◌, ◌≤◌, ◌≡◌, refl, ap, subst, Bool, true, false, not, List, [], ◌∷◌, some, Bytes,
  arith, length, drop, get_elem?, ◌==◌, Run, ok, ◌>>=◌, ◌>>◌, assert,
}
use crocks.Server.Iterator.{
  RocksIterator, MultiIterator, multi_seek_to_first, multi_seek_to_last, multi_seek,
  multi_seek_for_prev,
}
use crocks.Server.Responses.{RequestOperation, make_batch, apply_iterator_request}
use crocks.Client.NodeIterator.{
  is_no_pair, push_batch, wait_for_responses, node_pair, request_seek_with,
}
use crocks.Client.NodeIterator.Batches.{Shows}
use crocks.Client.NodeIterator.Views.{IsSorted, move_of, Node, View, fetch-View}
use crocks.Client.NodeIterator.Views.Moves.{Stepped, step_of, step_of-View, View-pair, View-valid}

get_elem?-drop :
    (n : ℕ) (kvs : List (Bytes × Bytes)) (kv : Bytes × Bytes)
    → get_elem? kvs n ≡ some kv
    → (rest : List (Bytes × Bytes)) × (drop n kvs ≡ kv ∷ rest)
get_elem?-drop n [] kv h = absurd (cc h)
get_elem?-drop zero (x ∷ kvs) kv h = let same : x ≡ kv = cc h in (kvs, ap (λ y. y ∷ kvs) same)
get_elem?-drop (suc n) (x ∷ kvs) kv h = get_elem?-drop n kvs kv h

-- the direction that a request to seek goes
abbrev pub direction : RequestOperation → Bool
direction RequestOperation.seek_to_first = true
direction RequestOperation.seek_to_last = false
direction RequestOperation.seek = true
direction RequestOperation.seek_for_prev = false
direction RequestOperation.next = true
direction RequestOperation.prev = false

module _ (r : RocksIterator) where
  -- Next or Prev, a number of times
  abbrev pub steps : Bool → ℕ → Node r → Run (Node r)
  steps forward zero it = ok it
  steps forward (suc n) it = step_of r forward it >>= steps forward n

  steps-View :
      (forward : Bool) (n : ℕ) (it : Node r) (kvs : List (Bytes × Bytes))
      → View r forward it kvs
      → IsSorted forward kvs
      → n ≤ length kvs
      → Stepped r forward (steps forward n it) (drop n kvs)
  steps-View forward zero it kvs view sorted le = (it, refl, view)
  steps-View forward (suc n) it [] view sorted le = absurd (omega (arith, le))
  steps-View forward (suc n) it (kv ∷ kvs) view (after, sorted) le =
      let (next, stepped, viewed) = step_of-View r forward it kv kvs view sorted in
      rw stepped (steps-View forward n next kvs viewed sorted (omega (arith, le)))

  -- where a request to seek puts the node's iterator
  abbrev pub sought : RequestOperation → Bytes → MultiIterator r → MultiIterator r
  sought RequestOperation.seek_to_first target m = multi_seek_to_first r m
  sought RequestOperation.seek_to_last target m = multi_seek_to_last r m
  sought RequestOperation.seek target m = multi_seek r target m
  sought RequestOperation.seek_for_prev target m = multi_seek_for_prev r target m
  sought RequestOperation.next target m = m
  sought RequestOperation.prev target m = m

  answer_seek :
      (op : RequestOperation) (target : Bytes) (m : MultiIterator r)
      → apply_iterator_request r m (record { op = op; target = target })
        ≡ make_batch r (move_of r (direction op)) (sought op target m)
  unfolding apply_iterator_request
  answer_seek RequestOperation.seek_to_first target m = refl
  answer_seek RequestOperation.seek_to_last target m = refl
  answer_seek RequestOperation.seek target m = refl
  answer_seek RequestOperation.seek_for_prev target m = refl
  answer_seek RequestOperation.next target m = refl
  answer_seek RequestOperation.prev target m = refl

  -- a request to seek, the wait for its answer, and PushBatch
  abbrev pub seek_node : RequestOperation → Bytes → Node r → Run (Node r)
  seek_node op target it = do
    asked ← request_seek_with (apply_iterator_request r) op (direction op) target it
    answered ← wait_for_responses (apply_iterator_request r) asked
    push_batch (apply_iterator_request r) answered

  assert_then-Stepped :
      (forward b : Bool) (m : Run (Node r)) (f : Node r → Run (Node r)) (kvs : List (Bytes × Bytes))
      → b ≡ true
      → Stepped r forward (m >>= f) kvs
      → Stepped r forward ((assert b >> m) >>= f) kvs
  assert_then-Stepped forward true m f kvs h s = s
  assert_then-Stepped forward false m f kvs h s = absurd (cc h)

  pub seek_node-View :
      (op : RequestOperation) (target : Bytes) (it : Node r) (kvs : List (Bytes × Bytes))
      → it.pending_requests ≡ 0
      → Shows r (move_of r (direction op)) (sought op target it.server) kvs
      → IsSorted (direction op) kvs
      → (later : Node r) × (seek_node op target it ≡ ok later) × View r (direction op) later kvs
  unfolding request_seek_with
  seek_node-View op target it kvs free shows sorted =
      assert_then-Stepped (direction op) (it.pending_requests == 0) _ _ kvs (ground arith) (
        fetch-View r (direction op)
          (record it {
            valid = false;
            request = record { op = op; target = target };
            pending_requests = it.pending_requests + 2;
          })
          (record { op = op; target = target }) (sought op target it.server) kvs
          (answer_seek op target it.server) (λ h. refl) shows sorted)

  -- After a seek and n moves in its direction, a NodeIterator is at the pair that the node's own
  -- iterator comes to by as many moves after the same seek, and valid if there is one, whatever
  -- batches the pairs come in; no assert fails on the way. The keys of the node are to be in order.
  pub seek_node-steps :
      (op : RequestOperation) (target : Bytes) (it : Node r) (kvs : List (Bytes × Bytes)) (n : ℕ)
      → it.pending_requests ≡ 0
      → Shows r (move_of r (direction op)) (sought op target it.server) kvs
      → IsSorted (direction op) kvs
      → n ≤ length kvs
      → (later : Node r) × (seek_node op target it >>= steps (direction op) n ≡ ok later)
        × (later.valid ≡ not (is_no_pair (drop n kvs)))
        × ((kv : Bytes × Bytes)
            → get_elem? kvs n ≡ some kv
            → node_pair (apply_iterator_request r) later ≡ ok kv)
  seek_node-steps op target it kvs n free shows sorted le =
      let (start, sought_it, view) = seek_node-View op target it kvs free shows sorted in
      let (later, stepped, viewed) = steps-View (direction op) n start kvs view sorted le in
      (
        later,
        rw sought_it stepped,
        View-valid r (direction op) later (drop n kvs) viewed,
        λ kv at_n.
            let (rest, split) = get_elem?-drop n kvs kv at_n in
            View-pair r (direction op) later kv rest
              (subst (View r (direction op) later) split viewed),
      )
