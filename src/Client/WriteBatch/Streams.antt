-- ===== src/Client/WriteBatch/Streams.antt =====
-- WriteBatchImpl makes one Write at a time on each call (src/client/write_batch_impl.cc).
use crocks.Prelude.{
  ℕ, zero, suc, refl, not, ◌&&◌, List, [], ◌∷◌, ◌++◌, Option, none, some, get_elem?, Bytes, pos,
  is_zero, is_empty, leb, if◌then◌else◌, ok, abort, ◌>>=◌, assert, or_abort, OnOk, >>=-OnOk,
  >>=-OnOk_any, if-OnOk,
}
use crocks.Etcd.{Etcd}
use crocks.Info.{Proto, index_for_shard, shard_for_key}
use crocks.Server.Batch.{BatchUpdate}
use crocks.Client.{update}
use crocks.Client.Buffer.{Buffer, new_buffer}
use crocks.Client.WriteBatch.{
  Request, write, read, AsyncBatchCall, ShardBuffer, QueueEvent, WriteBatchImpl, find_call, on_call,
  put_buffer, buffer_at, is_pending, ask, expect, new_batch_call, ensure_batch_call, ensure_buffer,
  drain, poll,
}
use crocks.Client.WriteBatch.Writing.{
  update_index, restream, stream_idle, stream_shard, buffer_call, stream_if_exceeded, add_to,
  batch_clear, clear_buffers, flush_buffer, flush_buffers,
}
use crocks.Client.WriteBatch.Quiet.{send-IsQuiet, update_call-Quiet, Quiet-append}
use crocks.Client.WriteBatch.Waits.{
  Unblocked, and_then-OnOk, AllQuiet, IsIdle, found-IsIdle, AllQuiet-Kept, drain-IsIdle, poll-Kept,
}

ensure_batch_call-AllQuiet :
    (id : ℕ) (w : WriteBatchImpl) → AllQuiet w → OnOk AllQuiet (ensure_batch_call id w)
unfolding ensure_batch_call new_batch_call
ensure_batch_call-AllQuiet id w h = by_call (find_call id w.calls) (w.db.nodes id)
  where
    by_call :
        (o : Option AsyncBatchCall) (n : Option Bytes)
        → OnOk AllQuiet (elim o [
          | some c ↦ ok w
          | none ↦ elim n [
            | none ↦ abort
            | some a ↦ ok (record w { calls = w.calls ++ (id, new_batch_call) ∷ [] })
          ]
        ])
    by_call (some c) n = h
    by_call none none = tt
    by_call none (some a) = Quiet-append w.calls id new_batch_call h (λ on. (refl, tt))

-- a Write on an idle call, alone and before a Read
abbrev send_one : Request → AsyncBatchCall → AsyncBatchCall
send_one r c = expect 1 (ask r c)

write-AllQuiet :
    (id : ℕ) (us : List BatchUpdate) (w : WriteBatchImpl)
    → AllQuiet w
    → IsIdle id w
    → AllQuiet (on_call id (send_one (write us)) w)
write-AllQuiet id us w h idle =
    update_call-Quiet id (send_one (write us)) w.calls
      (λ c found quiet. send-IsQuiet (write us) c quiet (λ k. found-IsIdle id w c found idle)) h

write_read-AllQuiet :
    (id : ℕ) (us : List BatchUpdate) (w : WriteBatchImpl)
    → AllQuiet w
    → IsIdle id w
    → AllQuiet (on_call id (λ c. send_one read (send_one (write us) c)) w)
write_read-AllQuiet id us w h idle =
    update_call-Quiet id (λ c. send_one read (send_one (write us) c)) w.calls
      (λ c found quiet.
        send-IsQuiet read (send_one (write us) c)
          (send-IsQuiet (write us) c quiet (λ k. found-IsIdle id w c found idle))
          (λ k. absurd (cc k)))
      h

pub drain-AllQuiet :
    (id : ℕ) (xs : List QueueEvent) (w : WriteBatchImpl)
    → AllQuiet w
    → OnOk (Unblocked (λ v. AllQuiet v × IsIdle id v)) (drain id xs w)
drain-AllQuiet id xs w h = drain-IsIdle AllQuiet id xs w AllQuiet-Kept (λ v q k. k) h

module _ (e : Etcd) (p : Proto) (seen : ℕ → Etcd.Store e) (size : BatchUpdate → ℕ)
    (real_size : List BatchUpdate → ℕ) where
  update_index-AllQuiet :
      (shard : ℕ) (w : WriteBatchImpl)
      → AllQuiet w
      → OnOk
          (λ (r : ℕ × WriteBatchImpl). AllQuiet r.1)
          (update_index e p seen size real_size shard w)
  unfolding update_index
  update_index-AllQuiet shard w h =
      >>=-OnOk_any (λ (r : ℕ × WriteBatchImpl). AllQuiet r.1) (update e p w.db (seen w.reads)) _
        (λ db.
          >>=-OnOk_any (λ (r : ℕ × WriteBatchImpl). AllQuiet r.1)
            (index_for_shard db.info (pos shard)) _ (λ id. h))

  restream-AllQuiet :
      (shard : ℕ) (s : ShardBuffer) (w : WriteBatchImpl)
      → AllQuiet w
      → OnOk (Unblocked AllQuiet) (restream e p seen size real_size shard s w)
  unfolding restream
  restream-AllQuiet shard s w h =
      >>=-OnOk (λ (r : ℕ × WriteBatchImpl). AllQuiet r.1) (Unblocked AllQuiet)
        (update_index e p seen size real_size shard w) _ (update_index-AllQuiet shard w h)
        (λ r found.
          >>=-OnOk AllQuiet (Unblocked AllQuiet) (ensure_batch_call r.0 r.1) _
            (ensure_batch_call-AllQuiet r.0 r.1 found)
            (λ called quiet.
              and_then-OnOk (λ v. AllQuiet v × IsIdle r.0 v) AllQuiet
                (drain r.0 called.queue (put_buffer shard (record s { call = some r.0 }) called)) _
                (drain-AllQuiet r.0 called.queue
                  (put_buffer shard (record s { call = some r.0 }) called) quiet)
                (λ v (still, idle). >>=-OnOk_any (Unblocked AllQuiet) (buffer_at shard v) _ (λ t.
                  >>=-OnOk_any (Unblocked AllQuiet) (assert (not (is_empty t.buffer.first_updates)))
                    _ (λ u. write_read-AllQuiet r.0 t.buffer.first_updates v still idle)))))

  stream_idle-AllQuiet :
      (shard id : ℕ) (w : WriteBatchImpl)
      → AllQuiet w
      → IsIdle id w
      → OnOk (Unblocked AllQuiet) (stream_idle e p seen size real_size shard id w)
  unfolding stream_idle
  stream_idle-AllQuiet shard id w h idle =
      >>=-OnOk_any (Unblocked AllQuiet) (buffer_at shard w) _ (λ s.
        >>=-OnOk_any (Unblocked AllQuiet) (or_abort (find_call id w.calls)) _ (λ c.
          if-OnOk (Unblocked AllQuiet) s.buffer.first _ _
            (λ f.
              if-OnOk (Unblocked AllQuiet) s.buffer.read_requested _ _
                (λ g.
                  if-OnOk (Unblocked AllQuiet) (is_zero s.response && not c.shutdown) _ _
                    (λ a. write-AllQuiet id s.buffer.updates w h idle)
                    (λ a. restream-AllQuiet shard s w h))
                (λ g. write_read-AllQuiet id s.buffer.updates w h idle))
            (λ f. write-AllQuiet id s.buffer.updates w h idle)))

  stream_shard-AllQuiet :
      (shard : ℕ) (w : WriteBatchImpl)
      → AllQuiet w
      → OnOk (Unblocked AllQuiet) (stream_shard e p seen size real_size shard w)
  unfolding stream_shard
  stream_shard-AllQuiet shard w h = >>=-OnOk_any (Unblocked AllQuiet) (buffer_at shard w) _ (λ s.
      >>=-OnOk_any (Unblocked AllQuiet) (assert (not (is_empty s.buffer.updates))) _ (λ u.
        >>=-OnOk_any (Unblocked AllQuiet)
          (assert (leb (real_size s.buffer.updates) s.buffer.byte_size)) _
          (λ u. >>=-OnOk_any (Unblocked AllQuiet) (or_abort s.call) _ (λ id.
            and_then-OnOk (λ v. AllQuiet v × IsIdle id v) AllQuiet (drain id w.queue w) _
              (drain-AllQuiet id w.queue w h)
              (λ v (still, idle). stream_idle-AllQuiet shard id v still idle)))))

  buffer_call-AllQuiet :
      (shard : ℕ) (w : WriteBatchImpl)
      → AllQuiet w
      → OnOk
          (λ (r : ℕ × WriteBatchImpl). AllQuiet r.1)
          (buffer_call e p seen size real_size shard w)
  unfolding buffer_call
  buffer_call-AllQuiet shard w h =
      >>=-OnOk_any (λ (r : ℕ × WriteBatchImpl). AllQuiet r.1) (buffer_at shard w) _
        (λ s. by_call s s.call)
    where
      by_call :
          (s : ShardBuffer) (o : Option ℕ)
          → OnOk
              (λ (r : ℕ × WriteBatchImpl). AllQuiet r.1)
              (elim o [
                | some id ↦ ok (id, w)
                | none ↦ index_for_shard w.db.info (pos shard) >>= λ id.
                    ensure_batch_call id w >>= λ v.
                    ok (id, put_buffer shard (record s { call = some id }) v)
              ])
      by_call s (some id) = h
      by_call s none =
          >>=-OnOk_any (λ (r : ℕ × WriteBatchImpl). AllQuiet r.1)
            (index_for_shard w.db.info (pos shard)) _
            (λ id.
              >>=-OnOk AllQuiet (λ (r : ℕ × WriteBatchImpl). AllQuiet r.1) (ensure_batch_call id w)
                _ (ensure_batch_call-AllQuiet id w h) (λ v k. k))

  stream_if_exceeded-AllQuiet :
      (shard : ℕ) (w : WriteBatchImpl)
      → AllQuiet w
      → OnOk (Unblocked AllQuiet) (stream_if_exceeded e p seen size real_size shard w)
  unfolding stream_if_exceeded
  stream_if_exceeded-AllQuiet shard w h =
      >>=-OnOk (λ (r : ℕ × WriteBatchImpl). AllQuiet r.1) (Unblocked AllQuiet)
        (buffer_call e p seen size real_size shard w) _ (buffer_call-AllQuiet shard w h)
        (λ r quiet. >>=-OnOk_any (Unblocked AllQuiet) (buffer_at shard r.1) _ (λ s.
          if-OnOk (Unblocked AllQuiet) (leb s.buffer.byte_size r.1.threshold_low) _ _ (λ k. quiet)
            (λ k.
              if-OnOk (Unblocked AllQuiet) (leb s.buffer.byte_size r.1.threshold_high) _ _
                (λ k.
                  >>=-OnOk AllQuiet (Unblocked AllQuiet) (poll r.0 r.1.queue r.1) _
                    (poll-Kept AllQuiet r.0 r.1.queue r.1 AllQuiet-Kept (λ v q x. x) quiet)
                    (λ u still.
                      if-OnOk (Unblocked AllQuiet) (is_pending r.0 u) _ _ (λ b. still)
                        (λ b. stream_shard-AllQuiet shard u still)))
                (λ k. stream_shard-AllQuiet shard r.1 quiet))))

  ensure_buffer-AllQuiet :
      (shard : ℕ) (w : WriteBatchImpl)
      → AllQuiet w
      → OnOk (λ (r : ShardBuffer × WriteBatchImpl). AllQuiet r.1) (ensure_buffer shard w)
  unfolding ensure_buffer
  ensure_buffer-AllQuiet shard w h = by_buffer (get_elem? w.buffers shard)
    where
      by_buffer :
          (o : Option (Option ShardBuffer))
          → OnOk
              (λ (r : ShardBuffer × WriteBatchImpl). AllQuiet r.1)
              (elim o [
                | none ↦ abort
                | some (some s) ↦ ok (s, w)
                | some none ↦
                    let s : ShardBuffer = record {
                      buffer = new_buffer;
                      call = none;
                      response = pos 0;
                    } in
                    ok (s, put_buffer shard s w)
              ])
      by_buffer none = tt
      by_buffer (some (some s)) = h
      by_buffer (some none) = h

  pub add_to-AllQuiet :
      (add : Buffer → Buffer) (key : Bytes) (w : WriteBatchImpl)
      → AllQuiet w
      → OnOk (Unblocked AllQuiet) (add_to e p seen size real_size add key w)
  unfolding add_to
  add_to-AllQuiet add key w h =
      >>=-OnOk_any (Unblocked AllQuiet) (shard_for_key w.db.info key) _ (λ shard.
        >>=-OnOk (λ (r : ShardBuffer × WriteBatchImpl). AllQuiet r.1) (Unblocked AllQuiet)
          (ensure_buffer shard w) _ (ensure_buffer-AllQuiet shard w h)
          (λ r quiet.
            stream_if_exceeded-AllQuiet shard
              (put_buffer shard (record r.0 { buffer = add r.0.buffer }) r.1) quiet))

  pub batch_clear-AllQuiet :
      (w : WriteBatchImpl)
      → AllQuiet w
      → OnOk (Unblocked AllQuiet) (batch_clear e p seen size real_size w)
  unfolding batch_clear
  batch_clear-AllQuiet w h =
      >>=-OnOk_any (Unblocked AllQuiet) (clear_buffers e p seen size real_size w.buffers) _
        (λ bs. h)

  flush_buffer-AllQuiet :
      (shard : ℕ) (w : WriteBatchImpl)
      → AllQuiet w
      → OnOk (Unblocked AllQuiet) (flush_buffer e p seen size real_size shard w)
  unfolding flush_buffer
  flush_buffer-AllQuiet shard w h = by_buffer (get_elem? w.buffers shard)
    where
      by_buffer :
          (o : Option (Option ShardBuffer))
          → OnOk (Unblocked AllQuiet) (elim o [
            | none ↦ abort
            | some none ↦ ok (some w)
            | some (some s) ↦ or_abort s.call >>= λ id.
                if is_empty s.buffer.updates
                then ok (some w)
                else stream_shard e p seen size real_size shard w
          ])
      by_buffer none = tt
      by_buffer (some none) = h
      by_buffer (some (some s)) = >>=-OnOk_any (Unblocked AllQuiet) (or_abort s.call) _ (λ id.
          if-OnOk (Unblocked AllQuiet) (is_empty s.buffer.updates) _ _ (λ b. h)
            (λ b. stream_shard-AllQuiet shard w h))

  pub flush_buffers-AllQuiet :
      (left shard : ℕ) (w : WriteBatchImpl)
      → AllQuiet w
      → OnOk (Unblocked AllQuiet) (flush_buffers e p seen size real_size left shard w)
  unfolding flush_buffers
  flush_buffers-AllQuiet zero shard w h = h
  flush_buffers-AllQuiet (suc left) shard w h =
      and_then-OnOk AllQuiet AllQuiet (flush_buffer e p seen size real_size shard w) _
        (flush_buffer-AllQuiet shard w h) (λ v k. flush_buffers-AllQuiet left (suc shard) v k)
