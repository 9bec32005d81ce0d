-- ===== src/Tests/Client.antt =====
-- A client that learns of the sample cluster, and looks up a key in it.
use crocks.Prelude.{ℕ, true, false, ◌%◌, ◌≡◌, refl, [], ◌∷◌, none, some, ok, beq, get_elem?}
use crocks.Cluster.{ShardInfo, masters, addresses}
use crocks.Cluster.Valid.{IsLive}
use crocks.Etcd.{client_get-some}
use crocks.Hash.{hash}
use crocks.Info.{Info, info_key, get, index_for_key}
use crocks.Info.Lookup.{index_for_key-IsLive}
use crocks.Client.{ClusterImpl, set_connection, update}
use crocks.Server.Batch.{BatchUpdate, Operation}
use crocks.Client.Buffer.{
  stream_if_exceeded_threshold, Buffer, new_buffer, add_update, stream_buffer,
}
use crocks.Client.Buffer.Contents.{content, Filled, Filled-content}
use crocks.Client.Connections.{connection, update-connection}
use crocks.Tests.Wire.{wire}
use crocks.Tests.Store.{table}
use crocks.Tests.Info.{giver, holding}
use crocks.Tests.Cluster.{sample, sample-IsValid}

abbrev informed : Info
informed = record giver { info = sample; map = masters sample }

abbrev client : ClusterImpl
client = record { info = giver; nodes = λ k. none }

abbrev pub connected : ClusterImpl
connected = record {
  info = informed;
  nodes = set_connection (set_connection (λ k. none) 0 (some (1 ∷ []))) 1 (some (2 ∷ []));
}

updated : update table wire client (holding sample) ≡ ok connected
unfolding update beq addresses masters
updated =
    rw
      (
        update,
        client_get-some table (holding sample) info_key (wire.serialize sample) refl,
        wire.parse-serialize sample,
      )
      refl

update-connection_example :
    (get table wire giver (holding sample) ≡ ok informed)
    × (connected.nodes 1 ≡ connection (2 ∷ []))
unfolding addresses
update-connection_example =
    update-connection table wire client connected (holding sample) 1 (2 ∷ []) updated refl

index_for_key-IsLive_example :
    (s : ShardInfo) × (get_elem? sample.shards (hash (b'k' ∷ []) % 3) ≡ some s)
    × (index_for_key informed (b'k' ∷ []) ≡ ok s.master)
    × IsLive sample.nodes s.master
index_for_key-IsLive_example = index_for_key-IsLive informed (b'k' ∷ []) sample-IsValid refl refl

abbrev put_one : BatchUpdate
put_one = record { op = Operation.put; key = 1 ∷ []; value = 7 ∷ [] }

abbrev put_two : BatchUpdate
put_two = record { op = Operation.put; key = 2 ∷ []; value = 8 ∷ [] }

-- the first message has been sent, and another update is held
abbrev sending : Buffer
sending = record {
  updates = put_two ∷ [];
  first_updates = put_one ∷ [];
  byte_size = 9;
  first = true;
  read_requested = true;
  sent = (put_one ∷ []) ∷ [];
}

sending_run :
    stream_buffer
      (add_update (λ u. 6) (stream_buffer (add_update (λ u. 6) new_buffer put_one) true) put_two)
      true
    ≡ record sending {
      updates = [];
      byte_size = 0;
      first = false;
      sent = (put_one ∷ []) ∷ (put_two ∷ []) ∷ [];
    }
unfolding stream_buffer add_update new_buffer
sending_run = refl

abbrev any_size : BatchUpdate → ℕ
any_size u = 6

abbrev after_one : Buffer
after_one = stream_if_exceeded_threshold 4 100 (add_update any_size new_buffer put_one) true true

-- the second update meets the answer that the first message is rejected
abbrev after_two : Buffer
after_two = stream_if_exceeded_threshold 4 100 (add_update any_size after_one put_two) true false

Filled-content_example : content after_two ≡ put_one ∷ put_two ∷ []
Filled-content_example = Filled-content any_size 4 100 (put_one ∷ put_two ∷ []) after_two (
    Filled.added (put_one ∷ []) after_one put_two true false
      (Filled.added [] new_buffer put_one true true Filled.begin))
