-- ===== src/Server/Responses.antt =====
-- The answers to a client's iterator (src/server/util.cc) and IteratorCall
-- (src/server/async_server.cc).
pub mod Sizes
use crocks.Prelude.{
  ℕ, zero, suc, Bool, true, false, List, [], ◌∷◌, ◌++◌, Option, none, some, Bytes, get_elem?,
  if◌then◌else◌, Run, ok, abort, ◌>>=◌, or_abort,
}
use crocks.Status.{StatusCode}
use crocks.Server.Iterator.{
  RocksIterator, MultiIterator, status, multi_seek_to_first, multi_seek_to_last, multi_seek,
  multi_seek_for_prev, multi_next, multi_prev,
}

abbrev pub iterator_batch_size : ℕ
iterator_batch_size = 10

pub data RequestOperation : Type 0 where
  seek_to_first : RequestOperation
  seek_to_last : RequestOperation
  seek : RequestOperation
  seek_for_prev : RequestOperation
  next : RequestOperation
  prev : RequestOperation

pub record IteratorRequest : Type 0 where
  pub op : RequestOperation
  pub target : Bytes

pub record IteratorResponse : Type 0 where
  pub kvs : List (Bytes × Bytes)
  pub done : Bool
  pub code : StatusCode

abbrev pub no_response : IteratorResponse
no_response = record { kvs = []; done = false; code = StatusCode.fine }

module _ (r : RocksIterator) where
  -- MultiIterator::Valid
  abbrev pub is_none : Option ℕ → Bool
  is_none none = true
  is_none (some i) = false

  -- key() and value() of the current iterator
  unfoldable pub current_pair : MultiIterator r → Run (Bytes × Bytes)
  current_pair m = do
    i ← or_abort m.current
    s ← or_abort (get_elem? m.iters i)
    ok (r.key s, r.value s)

  -- `for (int i = 0; i < kIteratorBatchSize && it->Valid(); i++)`, with the rounds that are left
  unfoldable pub fill_batch :
      (MultiIterator r → Run (MultiIterator r))
      → ℕ
      → MultiIterator r
      → List (Bytes × Bytes)
      → Run (List (Bytes × Bytes) × MultiIterator r)
  unfolding current_pair
  fill_batch move zero m kvs = ok (kvs, m)
  fill_batch move (suc left) m kvs = elim (is_none m.current) [
    | true ↦ ok (kvs, m)
    | false ↦
        current_pair m >>= λ kv. move m >>= λ moved. fill_batch move left moved (kvs ++ kv ∷ [])
  ]

  unfoldable pub make_batch :
      (MultiIterator r → Run (MultiIterator r))
      → MultiIterator r
      → Run (IteratorResponse × MultiIterator r)
  unfolding fill_batch
  make_batch move m = do
    b ← fill_batch move iterator_batch_size m []
    ok (record { kvs = b.0; done = is_none b.1.current; code = status r b.1.iters }, b.1)

  unfoldable pub make_next_batch : MultiIterator r → Run (IteratorResponse × MultiIterator r)
  unfolding make_batch multi_next
  make_next_batch m = make_batch (multi_next r) m

  unfoldable pub make_prev_batch : MultiIterator r → Run (IteratorResponse × MultiIterator r)
  unfolding make_batch multi_prev
  make_prev_batch m = make_batch (multi_prev r) m

  -- ApplyIteratorRequest, by the operation and its target
  unfoldable pub apply_operation_request :
      RequestOperation → Bytes → MultiIterator r → Run (IteratorResponse × MultiIterator r)
  unfolding make_next_batch make_prev_batch
  apply_operation_request seek_to_first target m = make_next_batch (multi_seek_to_first r m)
  apply_operation_request seek_to_last target m = make_prev_batch (multi_seek_to_last r m)
  apply_operation_request seek target m = make_next_batch (multi_seek r target m)
  apply_operation_request seek_for_prev target m = make_prev_batch (multi_seek_for_prev r target m)
  apply_operation_request next target m = make_next_batch m
  apply_operation_request prev target m = make_prev_batch m

  unfoldable pub apply_iterator_request :
      MultiIterator r → IteratorRequest → Run (IteratorResponse × MultiIterator r)
  unfolding apply_operation_request
  apply_iterator_request m q = apply_operation_request q.op q.target m

  pub data IteratorStatus : Type 0 where
    request : IteratorStatus
    read : IteratorStatus
    write : IteratorStatus
    finish : IteratorStatus

  pub record IteratorCall : Type 0 where
    pub it : Option (MultiIterator r)
    pub response : IteratorResponse
    pub call_status : IteratorStatus
    pub finish_called : Bool
    pub on_done_called : Bool
    pub deleted : Bool

  -- IteratorCall::Proceed, where `opened` is a new MultiIterator over the node's shards
  unfoldable pub proceed_iterator :
      MultiIterator r → IteratorStatus → IteratorCall → Bool → IteratorRequest → Run IteratorCall
  unfolding apply_iterator_request
  proceed_iterator opened request c is_ok q = ok (
      if is_ok
      then record c { it = some opened; call_status = read }
      else record c { deleted = true })
  proceed_iterator opened read c true q = do
    m ← or_abort c.it
    a ← apply_iterator_request m q
    ok (record c { it = some a.1; response = a.0; call_status = write })
  proceed_iterator opened read c false q = ok (record c { call_status = finish })
  proceed_iterator opened write c is_ok q =
      ok (record c { call_status = if is_ok then read else finish })
  proceed_iterator opened finish c is_ok q =
      ok (record c { finish_called = true; deleted = c.on_done_called })

  -- IteratorCall::OnDone
  unfoldable pub iterator_on_done : IteratorCall → IteratorCall
  iterator_on_done c =
      let d : IteratorCall = record c { on_done_called = true } in
      if c.finish_called then record d { deleted = true } else record d { call_status = finish }
