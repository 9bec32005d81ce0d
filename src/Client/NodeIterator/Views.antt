-- ===== src/Client/NodeIterator/Views.antt =====
-- A NodeIterator (src/client/node_iterator.cc) over the iterator calls of a node.
pub mod Moves
pub mod Walks
use crocks.Prelude.{
  ℕ, zero, suc, ◌+◌, ◌≤◌, ◌<◌, ◌≡◌, refl, ap, sym, ◌∙◌, Bool, true, false, not, List, [], ◌∷◌, ◌++◌,
  append_assoc, append-nil, Option, none, some, Bytes, arith, length, take, drop, take-append-drop,
  ◌==◌, if◌then◌else◌, Run, ok, ◌>>=◌, assert,
}
use crocks.Heap.{precedes}
use crocks.Server.Iterator.{RocksIterator, MultiIterator, multi_next, multi_prev, status}
use crocks.Server.Responses.{
  RequestOperation, IteratorRequest, IteratorResponse, make_batch, apply_iterator_request,
  apply_operation_request, make_next_batch, make_prev_batch, iterator_batch_size,
}
use crocks.Client.NodeIterator.{
  NodeIterator, is_no_pair, push, push_all, push_batch, wait_for_responses, node_pair,
}
use crocks.Client.NodeIterator.Batches.{Shows, make_batch-Shows}

-- every pair comes after the key, and the pairs are in order
abbrev pub AllAfter : Bool → Bytes → List (Bytes × Bytes) → Type 0
AllAfter forward k [] = Unit
AllAfter forward k (kv ∷ kvs) = (precedes forward k kv.0 ≡ true) × AllAfter forward k kvs

abbrev pub IsSorted : Bool → List (Bytes × Bytes) → Type 0
IsSorted forward [] = Unit
IsSorted forward (kv ∷ kvs) = AllAfter forward kv.0 kvs × IsSorted forward kvs

AllAfter-take :
    (forward : Bool) (k : Bytes) (n : ℕ) (kvs : List (Bytes × Bytes))
    → AllAfter forward k kvs
    → AllAfter forward k (take n kvs)
AllAfter-take forward k zero kvs h = tt
AllAfter-take forward k (suc n) [] h = tt
AllAfter-take forward k (suc n) (kv ∷ kvs) (h, more) = (h, AllAfter-take forward k n kvs more)

length-take_full :
    (n : ℕ) (kvs : List (Bytes × Bytes)) → is_no_pair (drop n kvs) ≡ false → length (take n kvs) ≡ n
length-take_full zero kvs h = refl
length-take_full (suc n) [] h = absurd (cc h)
length-take_full (suc n) (kv ∷ kvs) h = ap suc (length-take_full n kvs h)

-- where Next and Prev lead the node's iterator, and what they ask for
abbrev pub move_of : (r : RocksIterator) → Bool → MultiIterator r → Run (MultiIterator r)
move_of r true m = multi_next r m
move_of r false m = multi_prev r m

abbrev pub op_of : Bool → RequestOperation
op_of true = RequestOperation.next
op_of false = RequestOperation.prev

abbrev pub Node : RocksIterator → Type 0
Node r = NodeIterator (apply_iterator_request r)

module _ (r : RocksIterator) (forward : Bool) where
  -- the pairs that are left, of which the node still has `rest`: either no request is under way,
  -- and there are more than five pairs here or none there, or the request for more is
  pub data View : Node r → List (Bytes × Bytes) → Type 0 where
    idle :
        (q rest kvs : List (Bytes × Bytes)) (v d : Bool) (request : IteratorRequest)
        (response : IteratorResponse) (m : MultiIterator r)
        → q ++ rest ≡ kvs
        → v ≡ not (is_no_pair kvs)
        → d ≡ is_no_pair rest
        → (is_no_pair rest ≡ false → 5 < length q)
        → Shows r (move_of r forward) m rest
        → View
            (record {
              queue = q;
              forward = forward;
              valid = v;
              done = d;
              request = request;
              response = response;
              pending_requests = 0;
              asked = none;
              server = m;
            })
            kvs
    waiting :
        (kv : Bytes × Bytes) (q rest kvs : List (Bytes × Bytes)) (target : Bytes)
        (request : IteratorRequest) (response : IteratorResponse) (m : MultiIterator r)
        → kv ∷ q ++ rest ≡ kvs
        → is_no_pair rest ≡ false
        → length q < 5
        → Shows r (move_of r forward) m rest
        → View
            (record {
              queue = kv ∷ q;
              forward = forward;
              valid = true;
              done = false;
              request = request;
              response = response;
              pending_requests = 2;
              asked = some (record { op = op_of forward; target = target });
              server = m;
            })
            kvs

  push_all-more :
      (it : Node r) (kv : Bytes × Bytes) (q batch : List (Bytes × Bytes))
      → AllAfter it.forward kv.0 batch
      → push_all (apply_iterator_request r) batch (record it { queue = kv ∷ q; valid = true })
        ≡ ok (record it { queue = kv ∷ q ++ batch; valid = true })
  unfolding push_all push node_pair
  push_all-more it kv q [] h =
      ap (λ l. ok (record it { queue = kv ∷ l; valid = true })) (sym (append-nil q))
  push_all-more it kv q (next ∷ batch) (h, more) = rw h (
      push_all-more it kv (q ++ next ∷ []) batch more
      ∙ ap (λ l. ok (record it { queue = kv ∷ l; valid = true }))
          (append_assoc q (next ∷ []) batch))

  -- an answer to the request that is under way, when the queue is empty
  pub fetch-View :
      (it : Node r) (q : IteratorRequest) (m : MultiIterator r) (kvs : List (Bytes × Bytes))
      → apply_iterator_request r it.server q ≡ make_batch r (move_of r forward) m
      → (is_no_pair kvs ≡ true → it.valid ≡ false)
      → Shows r (move_of r forward) m kvs
      → IsSorted forward kvs
      → (later : Node r) × (wait_for_responses
              (apply_iterator_request r)
              (record it { queue = []; forward = forward; asked = some q })
            >>= push_batch (apply_iterator_request r)
          ≡ ok later)
        × View later kvs
  unfolding wait_for_responses push_batch push_all push
  fetch-View it q m [] answered empty shows sorted =
      let (n, batch, rest) = make_batch-Shows r (move_of r forward) m [] shows in
      rw (answered, batch)
        (
          _,
          refl,
          idle [] [] [] it.valid true it.request _ n refl (empty refl) refl (λ h. absurd (cc h))
              rest,
        )
  fetch-View it q m (kv ∷ kvs) answered empty shows (first, sorted) =
      let (n, batch, rest) = make_batch-Shows r (move_of r forward) m (kv ∷ kvs) shows in
      let response : IteratorResponse = record {
        kvs = kv ∷ take 9 kvs;
        done = is_no_pair (drop 9 kvs);
        code = status r n.iters;
      } in
      let arrived : Node r = record it {
        queue = [];
        forward = forward;
        response = response;
        pending_requests = 0;
        asked = none;
        server = n;
      } in
      let pushed =
        push_all-more arrived kv [] (take 9 kvs) (AllAfter-take forward kv.0 9 kvs first) in
      rw (answered, batch, pushed)
        (
          _,
          refl,
          idle (kv ∷ take 9 kvs) (drop 9 kvs) (kv ∷ kvs) true (is_no_pair (drop 9 kvs)) it.request
              response n (ap (◌∷◌ kv) (take-append-drop 9 kvs)) refl refl
              (λ h. omega (arith, length-take_full 9 kvs h)) rest,
        )
