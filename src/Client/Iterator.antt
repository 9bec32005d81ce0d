-- ===== src/Client/Iterator.antt =====
-- The class IteratorImpl (src/client/iterator_impl.h, src/client/iterator_impl.cc): the iterators of
-- all nodes, merged. A pointer to a node iterator is its index.
pub mod Merged
pub mod Holding
pub mod Walk
pub mod Seeks
use crocks.Prelude.{
  ℕ, Bool, true, false, not, List, [], ◌∷◌, ◌++◌, Option, none, some, Bytes, map, get_elem?, set,
  ◌==◌, if◌then◌else◌, Run, ok, abort, ◌>>=◌, ◌>>◌, assert, or_abort,
}
use crocks.Heap.{pop, top, collect_valid}
use crocks.Server.Responses.{IteratorRequest, IteratorResponse}
use crocks.Client.NodeIterator.{
  NodeIterator, node_pair, wait_for_responses, push_batch, request_seek_to_first,
  request_seek_to_last, request_seek, request_seek_for_prev, node_next, node_prev,
  new_node_iterator, request_finish,
}

-- the comparison of two pointers
abbrev pub is_same : Option ℕ → Option ℕ → Bool
is_same none none = true
is_same none (some j) = false
is_same (some i) none = false
is_same (some i) (some j) = i == j

module _ {Server : Type 0}
    (answer : Server → IteratorRequest → Run (IteratorResponse × Server)) where
  -- key() of an iterator in a heap, which is valid
  abbrev pub node_key : NodeIterator answer → Bytes
  node_key it = elim it.queue [ [] ↦ [] | kv ∷ kvs ↦ kv.0 ]

  abbrev pub is_node_valid : NodeIterator answer → Bool
  is_node_valid it = it.valid

  -- `heap` is the container of the heap that is in use, the other one is empty.
  pub record IteratorImpl : Type 0 where
    pub iters : List (NodeIterator answer)
    pub heap : List ℕ
    pub current : Option ℕ
    pub forward : Bool

  -- the constructor, with the state of each node
  unfoldable pub new_iterator_impl : List Server → IteratorImpl
  unfolding new_node_iterator
  new_iterator_impl servers = record {
    iters = map (new_node_iterator answer) servers;
    heap = [];
    current = none;
    forward = true;
  }

  -- the two loops of a seek
  unfoldable pub request_each :
      (NodeIterator answer → Run (NodeIterator answer))
      → List (NodeIterator answer)
      → Run (List (NodeIterator answer))
  unfolding wait_for_responses
  request_each ask [] = ok []
  request_each ask (it ∷ its) = do
    free ← wait_for_responses answer it
    asked ← ask free
    rest ← request_each ask its
    ok (asked ∷ rest)

  unfoldable pub answer_each : List (NodeIterator answer) → Run (List (NodeIterator answer))
  unfolding wait_for_responses push_batch
  answer_each [] = ok []
  answer_each (it ∷ its) = do
    free ← wait_for_responses answer it
    pushed ← push_batch answer free
    rest ← answer_each its
    ok (pushed ∷ rest)

  unfoldable pub seek_impl :
      (NodeIterator answer → Run (NodeIterator answer)) → Bool → IteratorImpl → Run IteratorImpl
  unfolding request_each answer_each
  seek_impl ask forward m = do
    asked ← request_each ask m.iters
    iters ← answer_each asked
    let heap = collect_valid is_node_valid 0 iters in
        ok (record {
          iters = iters;
          heap = heap;
          current = top node_key forward iters heap;
          forward = forward;
        })

  unfoldable pub impl_seek_to_first : IteratorImpl → Run IteratorImpl
  unfolding seek_impl request_seek_to_first
  impl_seek_to_first m = seek_impl (request_seek_to_first answer) true m

  unfoldable pub impl_seek_to_last : IteratorImpl → Run IteratorImpl
  unfolding seek_impl request_seek_to_last
  impl_seek_to_last m = seek_impl (request_seek_to_last answer) false m

  unfoldable pub impl_seek : Bytes → IteratorImpl → Run IteratorImpl
  unfolding seek_impl request_seek
  impl_seek target m = seek_impl (request_seek answer target) true m

  unfoldable pub impl_seek_for_prev : Bytes → IteratorImpl → Run IteratorImpl
  unfolding seek_impl request_seek_for_prev
  impl_seek_for_prev target m = seek_impl (request_seek_for_prev answer target) false m

  -- key() and value()
  unfoldable pub impl_pair : IteratorImpl → Run (Bytes × Bytes)
  unfolding node_pair
  impl_pair m = do i ← or_abort m.current; it ← or_abort (get_elem? m.iters i); node_pair answer it

  -- the ends of Next and Prev, from the assert on the top
  unfoldable pub advance_node :
      (NodeIterator answer → Run (NodeIterator answer)) → IteratorImpl → Run IteratorImpl
  advance_node move m = do
    assert (is_same m.current (top node_key m.forward m.iters m.heap))
    i ← or_abort m.current
    it ← or_abort (get_elem? m.iters i)
    moved ← move it
    let iters = set m.iters i moved in
        let popped = pop i m.heap in
        let heap = if moved.valid then popped ++ i ∷ [] else popped in
        ok (record m { iters = iters; heap = heap; current = top node_key m.forward iters heap })

  unfoldable pub impl_next : IteratorImpl → Run IteratorImpl
  unfolding impl_pair impl_seek advance_node node_next
  impl_next m = do
    kv ← impl_pair m
    turned ← (if m.forward then ok m else impl_seek kv.0 m)
    advance_node (node_next answer) turned

  unfoldable pub impl_prev : IteratorImpl → Run IteratorImpl
  unfolding impl_pair impl_seek_for_prev advance_node node_prev
  impl_prev m = do
    kv ← impl_pair m
    turned ← (if m.forward then impl_seek_for_prev kv.0 m else ok m)
    advance_node (node_prev answer) turned

  -- the destructor, up to the deletion
  unfoldable pub wait_each : List (NodeIterator answer) → Run (List (NodeIterator answer))
  unfolding wait_for_responses
  wait_each [] = ok []
  wait_each (it ∷ its) = do
    free ← wait_for_responses answer it
    rest ← wait_each its
    ok (free ∷ rest)

  unfoldable pub finish_impl : IteratorImpl → Run (List (NodeIterator answer))
  unfolding wait_each request_finish
  finish_impl m = wait_each (map (request_finish answer) m.iters)
