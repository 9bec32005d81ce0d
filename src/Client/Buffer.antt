-- ===== src/Client/Buffer.antt =====
-- Buffer, and what WriteBatchImpl does with the buffer of one shard
-- (src/client/write_batch_impl.h, src/client/write_batch_impl.cc). The other shards' buffers do not
-- change it. Whether its call has gone through, and with which answer, comes from gRPC: it is the
-- argument of a step.
pub mod Contents
use crocks.Prelude.{
  ℕ, ◌+◌, Bool, true, false, List, [], ◌∷◌, ◌++◌, Bytes, is_empty, leb, if◌then◌else◌,
}
use crocks.Server.Batch.{BatchUpdate, Operation}

-- `sent` are the messages for the shard on its call, since the node that rejected it, if any.
pub record Buffer : Type 0 where
  pub updates : List BatchUpdate
  pub first_updates : List BatchUpdate
  pub byte_size : ℕ
  pub first : Bool
  pub read_requested : Bool
  pub sent : List (List BatchUpdate)

unfoldable pub new_buffer : Buffer
new_buffer = record {
  updates = [];
  first_updates = [];
  byte_size = 0;
  first = true;
  read_requested = false;
  sent = [];
}

-- `size` is protobuf's ByteSize.
module _ (size : BatchUpdate → ℕ) where
  -- AddPut and its like
  unfoldable pub add_update : Buffer → BatchUpdate → Buffer
  add_update b u = record b {
    updates = b.updates ++ u ∷ [];
    byte_size = b.byte_size + (size u + 3);
  }

  unfoldable pub add_put : Buffer → Bytes → Bytes → Buffer
  unfolding add_update
  add_put b key value = add_update b (record { op = Operation.put; key = key; value = value })

  unfoldable pub add_delete : Buffer → Bytes → Buffer
  unfolding add_update
  add_delete b key = add_update b (record { op = Operation.delete; key = key; value = [] })

  unfoldable pub add_single_delete : Buffer → Bytes → Buffer
  unfolding add_update
  add_single_delete b key =
      add_update b (record { op = Operation.single_delete; key = key; value = [] })

  unfoldable pub add_merge : Buffer → Bytes → Bytes → Buffer
  unfolding add_update
  add_merge b key value = add_update b (record { op = Operation.merge; key = key; value = value })

  unfoldable pub add_clear : Buffer → Buffer
  unfolding add_update
  add_clear b = add_update b (record { op = Operation.clear; key = []; value = [] })

unfoldable pub clear : Buffer → Buffer
clear b = record b { updates = []; byte_size = 0 }

-- Buffer::Stream, RestreamFirstBuffer (on the call of the new master) and RequestRead
unfoldable pub stream : Buffer → Buffer
stream b = record b { sent = b.sent ++ b.updates ∷ [] }

unfoldable pub restream_first_buffer : Buffer → Buffer
restream_first_buffer b = record b { sent = b.first_updates ∷ [] }

unfoldable pub request_read : Buffer → Buffer
request_read b =
    if b.read_requested then b else record b { read_requested = true; first_updates = b.updates }

-- WriteBatchImpl::Stream, once no request of the call is pending: `accepted` says that the answer to
-- the first buffer is OK and that the call has not been shut down
unfoldable pub stream_buffer : Buffer → Bool → Buffer
unfolding stream clear request_read restream_first_buffer
stream_buffer b accepted =
    if b.first
    then (if b.read_requested
        then (if accepted
            then clear (stream (record b { first = false }))
            else request_read (restream_first_buffer b))
        else clear (request_read (stream b)))
    else clear (stream b)

-- StreamIfExceededThreshold: `idle` says that no request is pending after a look at the queue
unfoldable pub stream_if_exceeded_threshold : ℕ → ℕ → Buffer → Bool → Bool → Buffer
unfolding stream_buffer
stream_if_exceeded_threshold low high b idle accepted =
    if leb b.byte_size low
    then b
    else if leb b.byte_size high
    then (if idle then stream_buffer b accepted else b)
    else stream_buffer b accepted

-- the first loop of DoWrite
unfoldable pub flush : Buffer → Bool → Buffer
unfolding stream_buffer
flush b accepted = if is_empty b.updates then b else stream_buffer b accepted
