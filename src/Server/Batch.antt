-- ===== src/Server/Batch.antt =====
-- BatchCall (src/server/async_server.cc) and ApplyBatchUpdate (src/server/util.cc): a batch comes in
-- buffers, each with the updates of one shard, and is written when the stream ends. A request that
-- Read has filled comes with the next event.
pub mod References
use crocks.Prelude.{
  is_in, ℕ, Bool, true, false, not, ◌&&◌, List, [], ◌∷◌, ◌++◌, Option, none, some, Bytes, ◌==◌,
  if◌then◌else◌, Run, ok, abort, ◌>>=◌,
}
use crocks.Status.{StatusCode}
use crocks.Server.Shard.{RocksDb, Shard, ShardMap, shard_at, insert, ref, unref}

pub data Operation : Type 0 where
  put : Operation
  delete : Operation
  single_delete : Operation
  merge : Operation
  clear : Operation

pub record BatchUpdate : Type 0 where
  pub op : Operation
  pub key : Bytes
  pub value : Bytes

-- rocksdb::WriteBatch, as the updates in it, each with the shard whose column family it is for
abbrev pub WriteBatch : Type 0
WriteBatch = List (ℕ × BatchUpdate)

unfoldable pub apply_operation : Operation → WriteBatch → ℕ × BatchUpdate → WriteBatch
apply_operation clear batch u = []
apply_operation op batch u = batch ++ u ∷ []

unfoldable pub apply_batch_update : WriteBatch → ℕ → BatchUpdate → WriteBatch
unfolding apply_operation
apply_batch_update batch shard u = apply_operation u.op batch (shard, u)

unfoldable pub apply_updates : WriteBatch → ℕ → List BatchUpdate → WriteBatch
unfolding apply_batch_update
apply_updates batch shard [] = batch
apply_updates batch shard (u ∷ us) = apply_updates (apply_batch_update batch shard u) shard us

pub data CallStatus : Type 0 where
  request : CallStatus
  read : CallStatus
  write : CallStatus
  finish : CallStatus

-- `got_ref_` is kept as the shards that it maps to true.
module _ (db : RocksDb) where
  -- `written` is what has been given to the database.
  pub record BatchCall : Type 0 where
    pub shards : ShardMap db
    pub got_ref : List ℕ
    pub batch : WriteBatch
    pub response : StatusCode
    pub finished : Bool
    pub status : CallStatus
    pub written : Option WriteBatch
    pub finish_called : Bool
    pub on_done_called : Bool
    pub deleted : Bool

  unfoldable pub batch_call : ShardMap db → BatchCall
  batch_call shards = record {
    shards = shards;
    got_ref = [];
    batch = [];
    response = StatusCode.fine;
    finished = false;
    status = request;
    written = none;
    finish_called = false;
    on_done_called = false;
    deleted = false;
  }

  -- the first buffer for a shard
  unfoldable pub first_buffer : BatchCall → ℕ → List BatchUpdate → BatchCall
  unfolding shard_at ref insert apply_updates
  first_buffer b id us =
      let rejected : BatchCall = record b {
        response = StatusCode.invalid_argument;
        status = write;
      } in
      elim (shard_at db b.shards id) [
        | none ↦ rejected
        | some s ↦ elim (ref db s).1 [
          | false ↦ rejected
          | true ↦ record b {
            shards = insert db b.shards id (ref db s).0;
            got_ref = id ∷ b.got_ref;
            batch = apply_updates b.batch id us;
            response = StatusCode.fine;
            status = write;
          }
        ]
      ]

  -- Another buffer for a shard: the next Read is begun, so the status stays READ. A shard that is
  -- gone is dereferenced.
  unfoldable pub next_buffer : BatchCall → ℕ → List BatchUpdate → Run BatchCall
  unfolding shard_at apply_updates
  next_buffer b id us = elim (shard_at db b.shards id) [
    | none ↦ abort
    | some s ↦ ok (record b { batch = apply_updates b.batch id us })
  ]

  -- READ with ok; `updates(0)` of an empty buffer is out of range
  unfoldable pub read_buffer : (Bytes → ℕ) → BatchCall → List BatchUpdate → Run BatchCall
  unfolding first_buffer next_buffer
  read_buffer shard_for_key b [] = abort
  read_buffer shard_for_key b (u ∷ us) =
      let id = shard_for_key u.key in
      if is_in id b.got_ref then next_buffer b id (u ∷ us) else ok (first_buffer b id (u ∷ us))

  -- READ at the end of the stream: db->Write
  unfoldable pub commit : (WriteBatch → StatusCode) → BatchCall → BatchCall
  commit write_status b = record b {
    response = write_status b.batch;
    written = some b.batch;
    status = write;
    finished = true;
  }

  -- FINISH: `shards->at(id)->Unref()` for each shard in got_ref_
  unfoldable pub release : ShardMap db → List ℕ → Run (ShardMap db)
  unfolding shard_at unref insert
  release m [] = ok m
  release m (id ∷ ids) = elim (shard_at db m id) [
    | none ↦ abort
    | some s ↦ unref db s false >>= λ r. release (insert db m id r.0) ids
  ]

  -- BatchCall::Proceed, in each status
  unfoldable pub proceed_in :
      CallStatus
      → (Bytes → ℕ)
      → (WriteBatch → StatusCode)
      → BatchCall
      → Bool
      → List BatchUpdate
      → Run BatchCall
  unfolding read_buffer commit release
  proceed_in request shard_for_key write_status b is_ok us =
      ok (if is_ok then record b { status = read } else record b { deleted = true })
  proceed_in read shard_for_key write_status b is_ok us =
      if is_ok then read_buffer shard_for_key b us else ok (commit write_status b)
  proceed_in write shard_for_key write_status b is_ok us =
      ok (record b { status = if not b.finished && is_ok then read else finish })
  proceed_in finish shard_for_key write_status b is_ok us = do
    m ← release b.shards b.got_ref
    ok (record b { shards = m; finish_called = true; deleted = b.on_done_called })

  unfoldable pub proceed :
      (Bytes → ℕ) → (WriteBatch → StatusCode) → BatchCall → Bool → List BatchUpdate → Run BatchCall
  unfolding proceed_in
  proceed shard_for_key write_status b is_ok us =
      proceed_in b.status shard_for_key write_status b is_ok us

  -- BatchCall::OnDone: the next Proceed is in FINISH
  unfoldable pub batch_on_done : BatchCall → BatchCall
  batch_on_done b =
      let d : BatchCall = record b { on_done_called = true } in
      if b.finish_called then record d { deleted = true } else record d { status = finish }
