-- ===== src/Client/WriteBatch.antt =====
-- WriteBatchImpl: the buffers of the shards, the calls to the nodes that they share, and the
-- completion queue (src/client/write_batch_impl.h, src/client/write_batch_impl.cc).
pub mod Writing
pub mod Quiet
pub mod Waits
pub mod Streams
pub mod Statuses
pub mod Written
pub mod Returns
use crocks.Prelude.{
  ℕ, zero, suc, ◌+◌, ◌-◌, Bool, true, false, not, ◌&&◌, List, [], ◌∷◌, ◌++◌, Option, none, some,
  map, replicate, get_elem?, set, length, Bytes, ℤ, pos, ◌+ℤ◌, ◌-ℤ◌, is_pos, is_zero, ◌==◌,
  is_empty, leb, if◌then◌else◌, Run, ok, abort, ◌>>=◌, ◌>>◌, assert, or_abort,
}
use crocks.Status.{
  GrpcCode, GrpcStatus, Status, is_fine, is_code_unavailable, good, of_grpc, of_rocksdb,
}
use crocks.Etcd.{Etcd}
use crocks.Info.{Info, Proto, index_for_shard, shard_for_key}
use crocks.Server.Batch.{BatchUpdate}
use crocks.Client.{ClusterImpl, update}
use crocks.Client.Buffer.{
  Buffer, new_buffer, add_put, add_delete, add_single_delete, add_merge, add_clear, clear,
  stream_buffer,
}

-- what is asked of the stream of a call
pub data Request : Type 0 where
  write : List BatchUpdate → Request
  read : Request
  writes_done : Request
  finish : Request

-- `outstanding` is how many requests gRPC has not answered yet; each request stands in `requests`
-- with what was outstanding when it was made.
pub record AsyncBatchCall : Type 0 where
  pub response : ℤ
  pub status : GrpcStatus
  pub pending_requests : ℤ
  pub shutdown : Bool
  pub outstanding : ℕ
  pub requests : List (Request × ℕ)

-- `call` is the node of the call; `response` is the status in it, 0 before it has come.
pub record ShardBuffer : Type 0 where
  pub buffer : Buffer
  pub call : Option ℕ
  pub response : ℤ

-- what gRPC has filled in before an event
pub data Filled : Type 0 where
  nothing : Filled
  first_response : ℕ → ℤ → Filled
  call_response : ℤ → Filled
  call_status : GrpcStatus → Filled

-- What the completion queue gives: the end of a request of a node's call, or nothing for a moment.
pub data QueueEvent : Type 0 where
  got : ℕ → Bool → Filled → QueueEvent
  timed_out : QueueEvent
  shut_down : QueueEvent

-- `calls_` in the order in which it is iterated; `reads` counts the reads of etcd.
pub record WriteBatchImpl : Type 0 where
  pub db : ClusterImpl
  pub calls : List (ℕ × AsyncBatchCall)
  pub buffers : List (Option ShardBuffer)
  pub threshold_low : ℕ
  pub threshold_high : ℕ
  pub queue : List QueueEvent
  pub reads : ℕ

abbrev pub find_call : ℕ → List (ℕ × AsyncBatchCall) → Option AsyncBatchCall
find_call id [] = none
find_call id ((k, c) ∷ cs) = if k == id then some c else find_call id cs

abbrev pub update_call :
    ℕ → (AsyncBatchCall → AsyncBatchCall) → List (ℕ × AsyncBatchCall) → List (ℕ × AsyncBatchCall)
update_call id f [] = []
update_call id f ((k, c) ∷ cs) = if k == id then (k, f c) ∷ cs else (k, c) ∷ update_call id f cs

abbrev pub on_call : ℕ → (AsyncBatchCall → AsyncBatchCall) → WriteBatchImpl → WriteBatchImpl
on_call id f w = record w { calls = update_call id f w.calls }

abbrev pub put_buffer : ℕ → ShardBuffer → WriteBatchImpl → WriteBatchImpl
put_buffer shard s w = record w { buffers = set w.buffers shard (some s) }

-- `buffers_[shard]`, which is not to be null
abbrev pub buffer_at : ℕ → WriteBatchImpl → Run ShardBuffer
buffer_at shard w = elim (get_elem? w.buffers shard) [ none ↦ abort | some b ↦ or_abort b ]

abbrev pub is_pending : ℕ → WriteBatchImpl → Bool
is_pending id w = elim (find_call id w.calls) [ none ↦ false | some c ↦ is_pos c.pending_requests ]

-- a request on the stream of a call, and how they are counted
abbrev pub ask : Request → AsyncBatchCall → AsyncBatchCall
ask r c = record c {
  requests = c.requests ++ (r, c.outstanding) ∷ [];
  outstanding = suc c.outstanding;
}

abbrev pub expect : ℕ → AsyncBatchCall → AsyncBatchCall
expect n c = record c { pending_requests = c.pending_requests +ℤ pos n }

unfoldable pub new_batch_call : AsyncBatchCall
new_batch_call = record {
  response = pos 0;
  status = record { error_code = GrpcCode.fine; message = "" };
  pending_requests = pos 1;
  shutdown = false;
  outstanding = 1;
  requests = [];
}

unfoldable pub new_write_batch_impl : ClusterImpl → ℕ → ℕ → List QueueEvent → WriteBatchImpl
new_write_batch_impl db low high queue = record {
  db = db;
  calls = [];
  buffers = replicate (length db.info.info.shards) none;
  threshold_low = low;
  threshold_high = high;
  queue = queue;
  reads = 0;
}

-- EnsureBatchCall; a null pointer is dereferenced for a node without connection
unfoldable pub ensure_batch_call : ℕ → WriteBatchImpl → Run WriteBatchImpl
unfolding new_batch_call
ensure_batch_call id w = elim (find_call id w.calls) [
  | some c ↦ ok w
  | none ↦ elim (w.db.nodes id) [
    | none ↦ abort
    | some n ↦ ok (record w { calls = w.calls ++ (id, new_batch_call) ∷ [] })
  ]
]

unfoldable pub ensure_buffer : ℕ → WriteBatchImpl → Run (ShardBuffer × WriteBatchImpl)
unfolding new_buffer
ensure_buffer shard w = elim (get_elem? w.buffers shard) [
  | none ↦ abort
  | some (some s) ↦ ok (s, w)
  | some none ↦
      let s : ShardBuffer = record { buffer = new_buffer; call = none; response = pos 0 } in
      ok (s, put_buffer shard s w)
]

abbrev pub fill_buffer : ℕ → ℤ → List (Option ShardBuffer) → List (Option ShardBuffer)
fill_buffer shard code bs = elim (get_elem? bs shard) [
  | none ↦ bs
  | some none ↦ bs
  | some (some s) ↦ set bs shard (some (record s { response = code }))
]

abbrev pub fill_call : Filled → AsyncBatchCall → AsyncBatchCall
fill_call (call_response code) c = record c { response = code }
fill_call (call_status s) c = record c { status = s }
fill_call f c = c

abbrev pub fill : Filled → WriteBatchImpl → WriteBatchImpl
fill (first_response shard code) w = record w { buffers = fill_buffer shard code w.buffers }
fill f w = w

-- the end of a request, which gRPC gives once for each
unfoldable pub settle : Bool → Filled → AsyncBatchCall → AsyncBatchCall
settle is_ok f c = elim c.outstanding [
  | zero ↦ c
  | suc n ↦
      let d : AsyncBatchCall = record (fill_call f c) { outstanding = n } in
      if is_ok
      then record d { pending_requests = c.pending_requests -ℤ pos 1 }
      else record d { shutdown = true; pending_requests = pos 0 }
]

-- QueueNext, for one thing that the queue gives; it goes on when that is nothing
unfoldable pub queue_next : QueueEvent → WriteBatchImpl → Run WriteBatchImpl
unfolding settle
queue_next (got id is_ok f) w = ok (on_call id (settle is_ok f) (fill f w))
queue_next timed_out w = ok w
queue_next shut_down w = abort

-- `while (call->pending_requests > 0) QueueNext();`, over the queue; `none` if it blocks
unfoldable pub drain : ℕ → List QueueEvent → WriteBatchImpl → Run (Option WriteBatchImpl)
unfolding queue_next
drain id [] w = ok (if is_pending id w then none else some (record w { queue = [] }))
drain id (x ∷ xs) w = elim (is_pending id w) [
  | false ↦ ok (some (record w { queue = x ∷ xs }))
  | true ↦ queue_next x w >>= drain id xs
]

-- QueueAsyncNext: whether it has processed an event
unfoldable pub queue_async_next : QueueEvent → WriteBatchImpl → Run (WriteBatchImpl × Bool)
unfolding settle
queue_async_next (got id is_ok f) w = ok (on_call id (settle is_ok f) (fill f w), true)
queue_async_next timed_out w = ok (w, false)
queue_async_next shut_down w = abort

-- `while (call->pending_requests > 0 && QueueAsyncNext());`
unfoldable pub poll : ℕ → List QueueEvent → WriteBatchImpl → Run WriteBatchImpl
unfolding queue_async_next
poll id [] w = ok (record w { queue = [] })
poll id (x ∷ xs) w = elim (is_pending id w) [
  | false ↦ ok (record w { queue = x ∷ xs })
  | true ↦ queue_async_next x w >>= λ r. elim r.1 [
    | false ↦ ok (record r.0 { queue = xs })
    | true ↦ poll id xs r.0
  ]
]

abbrev pub and_then :
    Run (Option WriteBatchImpl)
    → (WriteBatchImpl → Run (Option WriteBatchImpl))
    → Run (Option WriteBatchImpl)
and_then m f = m >>= elim [ none ↦ ok none | some w ↦ f w ]

-- the statuses of the calls
unfoldable pub get_status : List (ℕ × AsyncBatchCall) → Run Status
unfolding good of_grpc of_rocksdb
get_status [] = ok good
get_status ((id, c) ∷ cs) =
    let rest = get_status cs in
    if is_fine c.status.error_code
    then (if is_zero c.response then rest else of_rocksdb c.response)
    else if is_code_unavailable c.status.error_code
    then rest
    else ok (of_grpc c.status)
