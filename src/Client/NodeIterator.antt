-- ===== src/Client/NodeIterator.antt =====
-- The class NodeIterator (src/client/node_iterator.h, src/client/node_iterator.cc): the pairs that a
-- node sends in batches, one at a time. The node is a state with the answers that it gives. A
-- request is answered when the client waits for it, at the latest; the completion queue and its
-- tags are left out.
pub mod Batches
pub mod Views
use crocks.Prelude.{
  ℕ, ◌+◌, Bool, true, false, not, List, [], ◌∷◌, ◌++◌, Option, none, some, Bytes, length, ◌==◌,
  if◌then◌else◌, Run, ok, abort, ◌>>=◌, ◌>>◌, assert,
}
use crocks.Heap.{precedes}
use crocks.Server.Responses.{IteratorRequest, IteratorResponse, RequestOperation, no_response}

abbrev pub to_go : ℕ
to_go = 5

abbrev pub is_no_pair : List (Bytes × Bytes) → Bool
is_no_pair [] = true
is_no_pair (kv ∷ kvs) = false

-- `queue_.front()` and `queue_.pop()`
abbrev pub front : List (Bytes × Bytes) → Run (Bytes × Bytes)
front [] = abort
front (kv ∷ kvs) = ok kv

abbrev pub pop_front : List (Bytes × Bytes) → List (Bytes × Bytes)
pop_front [] = []
pop_front (kv ∷ kvs) = kvs

module _ {Server : Type 0}
    (answer : Server → IteratorRequest → Run (IteratorResponse × Server)) where
  -- `asked` is the request that has been written and not been answered.
  pub record NodeIterator : Type 0 where
    pub queue : List (Bytes × Bytes)
    pub forward : Bool
    pub valid : Bool
    pub done : Bool
    pub request : IteratorRequest
    pub response : IteratorResponse
    pub pending_requests : ℕ
    pub asked : Option IteratorRequest
    pub server : Server

  unfoldable pub new_node_iterator : Server → NodeIterator
  new_node_iterator s = record {
    queue = [];
    forward = true;
    valid = false;
    done = false;
    request = record { op = RequestOperation.seek_to_first; target = [] };
    response = no_response;
    pending_requests = 1;
    asked = none;
    server = s;
  }

  -- key() and value()
  unfoldable pub node_pair : NodeIterator → Run (Bytes × Bytes)
  node_pair it = do assert it.valid; front it.queue

  -- Push
  unfoldable pub push : Bytes × Bytes → NodeIterator → Run NodeIterator
  unfolding node_pair
  push kv it = if is_no_pair it.queue then ok (record it { queue = kv ∷ []; valid = true }) else do
    first ← node_pair it
    assert (precedes it.forward first.0 kv.0)
    ok (record it { queue = it.queue ++ kv ∷ [] })

  unfoldable pub push_all : List (Bytes × Bytes) → NodeIterator → Run NodeIterator
  unfolding push
  push_all [] it = ok it
  push_all (kv ∷ kvs) it = push kv it >>= push_all kvs

  unfoldable pub push_batch : NodeIterator → Run NodeIterator
  unfolding push_all
  push_batch it = do
    assert (it.pending_requests == 0)
    pushed ← push_all it.response.kvs it
    ok (record pushed { done = pushed.response.done })

  unfoldable pub wait_for_responses : NodeIterator → Run NodeIterator
  wait_for_responses it = elim it.asked [
    | none ↦ ok (record it { pending_requests = 0 })
    | some q ↦ do
      a ← answer it.server q
      ok (record it { response = a.0; server = a.1; asked = none; pending_requests = 0 })
  ]

  -- RequestNext and RequestPrev, by their operation
  unfoldable pub request_more : RequestOperation → NodeIterator → Run NodeIterator
  request_more op it = do
    assert (it.pending_requests == 0)
    ok (record it {
      request = record { op = op; target = it.request.target };
      asked = some (record { op = op; target = it.request.target });
      pending_requests = it.pending_requests + 2;
    })

  -- the four requests to seek; `target` is not set by two of them
  unfoldable pub request_seek_with :
      RequestOperation → Bool → Bytes → NodeIterator → Run NodeIterator
  request_seek_with op forward target it = do
    assert (it.pending_requests == 0)
    ok (record it {
      queue = [];
      forward = forward;
      valid = false;
      request = record { op = op; target = target };
      asked = some (record { op = op; target = target });
      pending_requests = it.pending_requests + 2;
    })

  unfoldable pub request_seek_to_first : NodeIterator → Run NodeIterator
  unfolding request_seek_with
  request_seek_to_first it =
      request_seek_with RequestOperation.seek_to_first true it.request.target it

  unfoldable pub request_seek_to_last : NodeIterator → Run NodeIterator
  unfolding request_seek_with
  request_seek_to_last it =
      request_seek_with RequestOperation.seek_to_last false it.request.target it

  unfoldable pub request_seek : Bytes → NodeIterator → Run NodeIterator
  unfolding request_seek_with
  request_seek target it = request_seek_with RequestOperation.seek true target it

  unfoldable pub request_seek_for_prev : Bytes → NodeIterator → Run NodeIterator
  unfolding request_seek_with
  request_seek_for_prev target it = request_seek_with RequestOperation.seek_for_prev false target it

  -- RequestFinish; the status comes with the end of the stream
  unfoldable pub request_finish : NodeIterator → NodeIterator
  request_finish it = record it { pending_requests = it.pending_requests + 2 }

  -- Next and Prev, after their assert on the direction
  unfoldable pub after_pop : RequestOperation → NodeIterator → Run NodeIterator
  unfolding request_more wait_for_responses push_batch
  after_pop op it =
      if length it.queue == to_go
      then (do assert (it.pending_requests == 0); if it.done then ok it else request_more op it)
      else if is_no_pair it.queue
      then (if it.done
          then ok (record it { valid = false })
          else wait_for_responses it >>= push_batch)
      else ok it

  unfoldable pub move_node : RequestOperation → NodeIterator → Run NodeIterator
  unfolding after_pop
  move_node op it = do
    assert it.valid
    assert (not (is_no_pair it.queue))
    after_pop op (record it { queue = pop_front it.queue })

  unfoldable pub node_next : NodeIterator → Run NodeIterator
  unfolding move_node
  node_next it = do assert it.forward; move_node RequestOperation.next it

  unfoldable pub node_prev : NodeIterator → Run NodeIterator
  unfolding move_node
  node_prev it = do assert (not it.forward); move_node RequestOperation.prev it
