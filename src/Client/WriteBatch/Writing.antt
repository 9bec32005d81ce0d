-- ===== src/Client/WriteBatch/Writing.antt =====
-- The methods of WriteBatchImpl that send and write (src/client/write_batch_impl.cc).
use crocks.Prelude.{
  ℕ, zero, suc, false, not, ◌&&◌, List, [], ◌∷◌, Option, none, some, map, get_elem?, length, Bytes,
  pos, is_zero, is_empty, leb, if◌then◌else◌, Run, ok, abort, ◌>>=◌, ◌>>◌, assert, or_abort,
}
use crocks.Status.{Status}
use crocks.Etcd.{Etcd}
use crocks.Info.{Proto, index_for_shard, shard_for_key}
use crocks.Server.Batch.{BatchUpdate}
use crocks.Client.{update}
use crocks.Client.Buffer.{
  Buffer, add_put, add_delete, add_single_delete, add_merge, add_clear, clear, stream_buffer,
}
use crocks.Client.WriteBatch.{
  Request, AsyncBatchCall, ShardBuffer, WriteBatchImpl, find_call, on_call, put_buffer, buffer_at,
  is_pending, ask, expect, ensure_batch_call, ensure_buffer, drain, poll, and_then, get_status,
  write, read, writes_done, finish,
}

-- `seen n` is what etcd holds at the n-th read; `size` and `real_size` are protobuf's ByteSize of an
-- update and of a buffer.
module _ (e : Etcd) (p : Proto) (seen : ℕ → Etcd.Store e) (size : BatchUpdate → ℕ)
    (real_size : List BatchUpdate → ℕ) where
  -- IndexForShard(shard, true)
  unfoldable pub update_index : ℕ → WriteBatchImpl → Run (ℕ × WriteBatchImpl)
  unfolding update index_for_shard
  update_index shard w = do
    db ← update e p w.db (seen w.reads)
    id ← index_for_shard db.info (pos shard)
    ok (id, record w { db = db; reads = suc w.reads })

  abbrev pub send : Request → AsyncBatchCall → AsyncBatchCall
  send r c = expect 1 (ask r c)

  -- Stream, for a first buffer that was rejected: it is sent to the new master
  unfoldable pub restream : ℕ → ShardBuffer → WriteBatchImpl → Run (Option WriteBatchImpl)
  unfolding update_index ensure_batch_call drain stream_buffer
  restream shard s w = do
    (id, found) ← update_index shard w
    called ← ensure_batch_call id found
    and_then (drain id called.queue (put_buffer shard (record s { call = some id }) called)) (λ v.
        do
          t ← buffer_at shard v
          assert (not (is_empty t.buffer.first_updates))
          ok (
              some (
                put_buffer shard (record t { buffer = stream_buffer t.buffer false })
                  (on_call id (λ c. send read (send (write t.buffer.first_updates) c)) v))))

  -- Stream, once no request is pending
  unfoldable pub stream_idle : ℕ → ℕ → WriteBatchImpl → Run (Option WriteBatchImpl)
  unfolding restream stream_buffer
  stream_idle shard id w = do
    s ← buffer_at shard w
    c ← or_abort (find_call id w.calls)
    let accepted = is_zero s.response && not c.shutdown in
        let next : ShardBuffer = record s { buffer = stream_buffer s.buffer accepted } in
        if s.buffer.first
        then (if s.buffer.read_requested
            then (if accepted
                then ok
                    (some (put_buffer shard next (on_call id (send (write s.buffer.updates)) w)))
                else restream shard s w)
            else ok (
                some (
                  put_buffer shard next
                    (on_call id (λ c. send read (send (write s.buffer.updates) c)) w))))
        else ok (some (put_buffer shard next (on_call id (send (write s.buffer.updates)) w)))

  -- WriteBatchImpl::Stream
  unfoldable pub stream_shard : ℕ → WriteBatchImpl → Run (Option WriteBatchImpl)
  unfolding drain stream_idle
  stream_shard shard w = do
    s ← buffer_at shard w
    assert (not (is_empty s.buffer.updates))
    assert (leb (real_size s.buffer.updates) s.buffer.byte_size)
    id ← or_abort s.call
    and_then (drain id w.queue w) (stream_idle shard id)

  -- the call of a shard's buffer, made when it has none
  unfoldable pub buffer_call : ℕ → WriteBatchImpl → Run (ℕ × WriteBatchImpl)
  unfolding index_for_shard ensure_batch_call
  buffer_call shard w = do
    s ← buffer_at shard w
    elim s.call [
      | some id ↦ ok (id, w)
      | none ↦ index_for_shard w.db.info (pos shard) >>= λ id.
          ensure_batch_call id w >>= λ v. ok (id, put_buffer shard (record s { call = some id }) v)
    ]

  -- StreamIfExceededThreshold
  unfoldable pub stream_if_exceeded : ℕ → WriteBatchImpl → Run (Option WriteBatchImpl)
  unfolding buffer_call poll stream_shard
  stream_if_exceeded shard w = do
    (id, v) ← buffer_call shard w
    s ← buffer_at shard v
    if leb s.buffer.byte_size v.threshold_low
        then ok (some v)
        else if leb s.buffer.byte_size v.threshold_high
        then (poll id v.queue v >>= λ u.
            if is_pending id u then ok (some u) else stream_shard shard u)
        else stream_shard shard v

  -- the four methods that add an update
  unfoldable pub add_to : (Buffer → Buffer) → Bytes → WriteBatchImpl → Run (Option WriteBatchImpl)
  unfolding shard_for_key ensure_buffer stream_if_exceeded
  add_to add key w = do
    shard ← shard_for_key w.db.info key
    (s, v) ← ensure_buffer shard w
    stream_if_exceeded shard (put_buffer shard (record s { buffer = add s.buffer }) v)

  unfoldable pub batch_put : Bytes → Bytes → WriteBatchImpl → Run (Option WriteBatchImpl)
  unfolding add_to add_put
  batch_put key value = add_to (λ b. add_put size b key value) key

  unfoldable pub batch_delete : Bytes → WriteBatchImpl → Run (Option WriteBatchImpl)
  unfolding add_to add_delete
  batch_delete key = add_to (λ b. add_delete size b key) key

  unfoldable pub batch_single_delete : Bytes → WriteBatchImpl → Run (Option WriteBatchImpl)
  unfolding add_to add_single_delete
  batch_single_delete key = add_to (λ b. add_single_delete size b key) key

  unfoldable pub batch_merge : Bytes → Bytes → WriteBatchImpl → Run (Option WriteBatchImpl)
  unfolding add_to add_merge
  batch_merge key value = add_to (λ b. add_merge size b key value) key

  -- WriteBatchImpl::Clear, which dereferences every pointer
  unfoldable pub clear_buffers : List (Option ShardBuffer) → Run (List (Option ShardBuffer))
  unfolding clear add_clear
  clear_buffers [] = ok []
  clear_buffers (none ∷ bs) = abort
  clear_buffers (some s ∷ bs) = clear_buffers bs >>= λ rest.
      ok (some (record s { buffer = add_clear size (clear s.buffer) }) ∷ rest)

  unfoldable pub batch_clear : WriteBatchImpl → Run (Option WriteBatchImpl)
  unfolding clear_buffers
  batch_clear w = do bs ← clear_buffers w.buffers; ok (some (record w { buffers = bs }))

  -- the loops of DoWrite: over the buffers, of which `left` are left, and twice over the calls
  unfoldable pub flush_buffer : ℕ → WriteBatchImpl → Run (Option WriteBatchImpl)
  unfolding stream_shard
  flush_buffer shard w = elim (get_elem? w.buffers shard) [
    | none ↦ abort
    | some none ↦ ok (some w)
    | some (some s) ↦ or_abort s.call >>= λ id.
        if is_empty s.buffer.updates then ok (some w) else stream_shard shard w
  ]

  unfoldable pub flush_buffers : ℕ → ℕ → WriteBatchImpl → Run (Option WriteBatchImpl)
  unfolding flush_buffer
  flush_buffers zero shard w = ok (some w)
  flush_buffers (suc left) shard w =
      and_then (flush_buffer shard w) (flush_buffers left (suc shard))

  abbrev pub close_call : AsyncBatchCall → AsyncBatchCall
  close_call c = expect 3 (ask finish (ask read (ask writes_done c)))

  unfoldable pub close_calls : List ℕ → WriteBatchImpl → Run (Option WriteBatchImpl)
  unfolding drain
  close_calls [] w = ok (some w)
  close_calls (id ∷ ids) w =
      and_then (drain id w.queue w) (λ v. close_calls ids (on_call id close_call v))

  unfoldable pub await_calls : List ℕ → WriteBatchImpl → Run (Option WriteBatchImpl)
  unfolding drain
  await_calls [] w = ok (some w)
  await_calls (id ∷ ids) w = and_then (drain id w.queue w) (await_calls ids)

  abbrev pub call_ids : WriteBatchImpl → List ℕ
  call_ids w = map (λ (c : ℕ × AsyncBatchCall). c.0) w.calls

  unfoldable pub do_write : WriteBatchImpl → Run (Option WriteBatchImpl)
  unfolding flush_buffers close_calls await_calls
  do_write w =
      and_then (flush_buffers (length w.buffers) 0 w)
        (λ v. and_then (close_calls (call_ids v) v) (λ u. await_calls (call_ids u) u))

  -- WriteBatchImpl::Write
  unfoldable pub write_batch : WriteBatchImpl → Run (Option (WriteBatchImpl × Status))
  unfolding do_write get_status
  write_batch w =
      do_write w
      >>= elim [ none ↦ ok none | some v ↦ get_status v.calls >>= λ st. ok (some (v, st)) ]
