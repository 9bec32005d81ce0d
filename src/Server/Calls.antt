-- ===== src/Server/Calls.antt =====
-- The unary calls of a node (src/server/async_server.cc): what Proceed does with a request that has
-- come in, up to the reply. Info is a node's copy of the cluster info.
pub mod Writes
pub mod Unary
use crocks.Prelude.{
  ℕ, Bool, true, false, not, ◌&&◌, List, [], ◌∷◌, Option, none, some, Bytes, beq, ◌==◌, pos,
  if◌then◌else◌, Run, ok, abort, ◌>>=◌, ◌>>◌, assert,
}
use crocks.Cluster.{addresses}
use crocks.Status.{StatusCode}
use crocks.Info.{Info, shard_for_key, wrong_shard}
use crocks.Server.Shard.{RocksDb, Shard, ShardMap, shard_at, insert, get, put, delete, ref, unref}

-- invalid_status, an error that says that the former master has crashed, or a Response
pub data Reply : Type 0 where
  invalid : Reply
  crashed : Reply
  response : StatusCode → Bytes → Reply

-- How the former master's call ends: with UNAVAILABLE, with another error, or with a Response.
pub data Forwarded : Type 0 where
  unavailable : Forwarded
  failed : Forwarded
  answered : StatusCode → Bytes → Forwarded

-- Get finds a value or NotFound; it is taken to have no other failure.
abbrev pub of_found : Option Bytes → Reply
of_found none = response StatusCode.not_found []
of_found (some v) = response StatusCode.fine v

module _ (db : RocksDb) where
  pub record Node : Type 0 where
    pub info : Info
    pub shards : ShardMap db

  -- What GetCall does next: it replies, or it asks the former master, and keeps the shard.
  pub data Got : Type 0 where
    reply : Reply → Got
    ask : Shard db → Got

  -- GetCall::Proceed in REQUEST
  unfoldable pub get_request : Node → Bytes → Bool → Run Got
  unfolding shard_for_key wrong_shard shard_at get
  get_request n key force = do
    id ← shard_for_key n.info key
    wrong ← wrong_shard n.info (pos id)
    if wrong && not force then ok (reply invalid) else elim (shard_at db n.shards id) [
      | none ↦ ok (reply invalid)
      | some s ↦
          let (found, ask_former) = get db s key in
          ok (if ask_former then ask s else reply (of_found found))
    ]

  abbrev pub contains : List Bytes → Bytes → Bool
  contains [] a = false
  contains (b ∷ bs) a = if beq b a then true else contains bs a

  -- the second Get, when the import has finished meanwhile
  unfoldable pub get_again : Shard db → Bytes → Run Reply
  unfolding get
  get_again s key = let (found, still) = get db s key in do assert (not still); ok (of_found found)

  -- GetCall::Proceed in GET, with the shard as it is by then
  unfoldable pub get_forwarded : Node → Shard db → Bytes → Forwarded → Run Reply
  unfolding get_again
  get_forwarded n s key unavailable =
      if contains (addresses n.info.info) s.old_address then ok crashed else get_again s key
  get_forwarded n s key failed = get_again s key
  get_forwarded n s key (answered StatusCode.invalid_argument v) = get_again s key
  get_forwarded n s key (answered c v) = ok (response c v)

  -- A handler that writes: Ref, the write, Unref. RocksDB's Put and Delete are taken to succeed.
  unfoldable pub write_request : (Shard db → Shard db) → Node → ℕ → Run (Node × Reply)
  unfolding shard_at ref unref insert
  write_request write n id = elim (shard_at db n.shards id) [
    | none ↦ ok (n, invalid)
    | some s ↦ elim (ref db s).1 [
      | false ↦ ok (n, invalid)
      | true ↦ do
        r ← unref db (write (ref db s).0) false
        ok (record n { shards = insert db n.shards id r.0 }, response StatusCode.fine [])
    ]
  ]

  -- PutCall::Proceed in REQUEST
  unfoldable pub put_request : Node → Bytes → Bytes → Run (Node × Reply)
  unfolding shard_for_key write_request put
  put_request n key v = do id ← shard_for_key n.info key; write_request (λ s. put db s key v) n id

  -- DeleteCall::Proceed in REQUEST
  unfoldable pub delete_request : Node → Bytes → Run (Node × Reply)
  unfolding shard_for_key write_request delete
  delete_request n key = do id ← shard_for_key n.info key; write_request (λ s. delete db s key) n id
