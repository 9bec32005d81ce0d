-- ===== src/Server/Giving.antt =====
-- MigrateCall (src/server/async_server.cc): a node gives a shard to the node that asks for it. The
-- request READ is in two parts, since WaitRefs blocks in between while other handlers go on.
pub mod Handover
use crocks.Prelude.{
  ℕ, Bool, true, false, List, Option, none, some, pos, ℤ, if◌then◌else◌, Run, ok, abort, ◌>>=◌,
  or_abort,
}
use crocks.Etcd.{Etcd}
use crocks.Info.{Info, Proto, give, available, remove_self}
use crocks.Server.Shard.{
  RocksDb, Shard, ShardMap, shard_at, insert, remove, is_shard_map_empty, unref, wait_refs,
}
use crocks.Server.Migrate.{
  Response, Files, Migrator, Dumped, migrator, Pair, SstFileWriter, dump_shard, read_chunk,
  clear_state,
}

pub data GivingStatus : Type 0 where
  request : GivingStatus
  read : GivingStatus
  write : GivingStatus
  done : GivingStatus
  finish : GivingStatus

-- `pairs` are what an iterator of RocksDB finds in a column family, in order.
module _ (e : Etcd) (p : Proto) (db : RocksDb) (w : SstFileWriter)
    (pairs : RocksDb.Cf db → List Pair) where
  open e use {Store}

  -- `waiting` says that the call is in WaitRefs, `sent` what it has written last, `stopped` that the
  -- node shuts down.
  pub record MigrateCall : Type 0 where
    pub shards : ShardMap db
    pub info : Info
    pub store : Store
    pub files : Files
    pub saved : Option Dumped
    pub shard_id : ℕ
    pub sender : Option Migrator
    pub waiting : Bool
    pub sent : Option Response
    pub rejected : Bool
    pub status : GivingStatus
    pub stopped : Bool

  -- READ up to WaitRefs, for a request for a shard from some file on
  unfoldable pub accept : MigrateCall → ℕ → ℕ → List (Store → Store) → Run MigrateCall
  unfolding shard_at unref give insert wait_refs migrator
  accept c id start_from others = elim (shard_at db c.shards id) [
    | none ↦ ok (record c { shard_id = id; rejected = true; status = finish })
    | some s ↦ do
      r ← unref db s true
      g ← give e p c.info c.store (pos id) others
      t ← if r.1 then wait_refs db r.0 else ok (r.0, true)
      ok (record c {
        shards = insert db c.shards id t.0;
        info = g.0;
        store = g.1;
        shard_id = id;
        sender = some (migrator start_from);
        waiting = true;
        status = write;
      })
  ]

  -- READ after WaitRefs, with the shard as it is by then
  unfoldable pub dump : MigrateCall → Run MigrateCall
  unfolding shard_at dump_shard
  dump c = do
    s ← or_abort (shard_at db c.shards c.shard_id)
    m ← or_abort c.sender
    d ← dump_shard w (pairs s.cf) c.files c.saved m
    ok (record c { sender = some d.0; files = d.1; saved = d.2; waiting = false })

  -- WRITE
  unfoldable pub send_next : MigrateCall → Run MigrateCall
  unfolding read_chunk
  send_next c = do
    m ← or_abort c.sender
    r ← read_chunk c.files m
    elim r.0 [
      | none ↦ ok (record c { files = r.1; sender = some r.2; status = done })
      | some a ↦ ok (record c { files = r.1; sender = some r.2; sent = some a; status = write })
    ]

  -- the end of OnDone: a node without shards removes itself
  unfoldable pub stop_if_empty : MigrateCall → List (Store → Store) → Run MigrateCall
  unfolding is_shard_map_empty remove_self
  stop_if_empty c others =
      if is_shard_map_empty db c.shards
      then (do
        r ← remove_self e p c.info c.store others
        ok (record c { info = r.0; store = r.1; stopped = true }))
      else ok c

  -- OnDone of a call that was not cancelled
  unfoldable pub finished_call : MigrateCall → List (Store → Store) → Run MigrateCall
  unfolding remove clear_state stop_if_empty
  finished_call c others =
      let cleared : Files × Option Dumped = elim c.sender [
        | none ↦ (c.files, c.saved)
        | some m ↦ clear_state m c.files
      ] in
      stop_if_empty
        (record c {
          shards = remove db c.shards c.shard_id;
          files = cleared.0;
          saved = cleared.1;
          status = finish;
        })
        others

  -- OnDone of a call that was cancelled: the node that asked, by its id in the metadata, is set to be
  -- unavailable
  unfoldable pub cancelled_call : MigrateCall → ℤ → List (Store → Store) → Run MigrateCall
  unfolding available stop_if_empty
  cancelled_call c node_id others = do
    r ← available e p c.info c.store node_id false others
    stop_if_empty (record c { info = r.0; store = r.1; status = finish }) others
