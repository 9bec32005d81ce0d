-- ===== src/Tests/WriteBatch.antt =====
-- A batch with one update, which is sent at once and then written.
use crocks.Prelude.{
  ℕ, ◌≡◌, refl, true, false, List, [], ◌∷◌, Option, none, some, Bytes, Run, ok, abort, pos, arith,
}
use crocks.Status.{Status, good}
use crocks.Server.Batch.{BatchUpdate}
use crocks.Client.Buffer.{Buffer, add_put}
use crocks.Client.WriteBatch.{
  QueueEvent, got, timed_out, nothing, call_response, WriteBatchImpl, new_batch_call,
  new_write_batch_impl, drain,
}
use crocks.Client.WriteBatch.Writing.{add_to, write_batch}
use crocks.Client.WriteBatch.Waits.{IsIdle}
use crocks.Client.WriteBatch.Written.{Batched, IsWritten, write_batch-IsWritten}
use crocks.Client.WriteBatch.Returns.{drain-returns}
use crocks.Etcd.{Etcd}
use crocks.Tests.Wire.{wire}
use crocks.Tests.Store.{table}
use crocks.Tests.Info.{holding}
use crocks.Tests.Client.{connected}
use crocks.Tests.Cluster.{sample}

abbrev answered : QueueEvent
answered = got 0 true nothing

abbrev events : List QueueEvent
events =
    answered
    ∷ timed_out
    ∷ answered
    ∷ answered
    ∷ answered
    ∷ got 0 true (call_response (pos 0))
    ∷ answered
    ∷ []

abbrev etcd_at : ℕ → Etcd.Store table
etcd_at n = holding sample

abbrev six : BatchUpdate → ℕ
six u = 6

abbrev eight : List BatchUpdate → ℕ
eight us = 8

abbrev add_one : Buffer → Buffer
add_one b = add_put six b (b'k' ∷ []) (b'v' ∷ [])

abbrev empty : WriteBatchImpl
empty = new_write_batch_impl connected 0 100 events

abbrev value_of {ℓ} : {A : Type ℓ} → Run (Option A) → A → A
value_of (ok (some a)) b = a
value_of (ok none) b = b
value_of abort b = b

abbrev filled : WriteBatchImpl
filled = value_of (add_to table wire etcd_at six eight add_one (b'k' ∷ []) empty) empty

filled_run : add_to table wire etcd_at six eight add_one (b'k' ∷ []) empty ≡ ok (some filled)
unfolding add_to new_write_batch_impl crocks.Hash.hash crocks.Cluster.masters add_put
    crocks.Prelude.◌-ℤ◌
filled_run = refl

abbrev written : WriteBatchImpl × Status
written = value_of (write_batch table wire etcd_at six eight filled) (filled, good)

written_run : write_batch table wire etcd_at six eight filled ≡ ok (some (written.0, good))
unfolding write_batch add_to new_write_batch_impl crocks.Hash.hash crocks.Cluster.masters add_put
    crocks.Prelude.◌-ℤ◌ crocks.Prelude.◌+ℤ◌
written_run = refl

write_batch-IsWritten_example : IsWritten table wire etcd_at six eight written.0 good
write_batch-IsWritten_example =
    write_batch-IsWritten table wire etcd_at six eight filled written.0 good
      (Batched.added empty filled add_one (b'k' ∷ []) (Batched.fresh connected 0 100 events)
        filled_run)
      written_run

abbrev waiting : WriteBatchImpl
waiting = record empty { calls = (0, new_batch_call) ∷ [] }

drain-returns_example : (v : WriteBatchImpl) × (drain 0 events waiting ≡ ok (some v)) × IsIdle 0 v
unfolding new_batch_call new_write_batch_impl
drain-returns_example =
    drain-returns 0 waiting new_batch_call ((λ on. (refl, tt)), tt) refl refl (omega arith) refl
