-- ===== src/Server/Importing/Recovery.antt =====
-- A request of WatchThread for a shard after a crash (src/server/async_server.cc).
use crocks.Prelude.{ℕ, ◌≡◌, true, Option, none, some}
use crocks.Etcd.{Etcd}
use crocks.Info.{Proto}
use crocks.Server.Shard.{RocksDb, Shard, shard_at}
use crocks.Server.Importing.{Receiver}

module _ (e : Etcd) (p : Proto) (db : RocksDb) where
  open e use {Store}

  -- a shard that is still marked as importing
  pub record IsMarked (id : ℕ) (d : Receiver e p db) : Type 0 where
    pub shard : Shard db
    pub here : shard_at db d.shards id ≡ some shard
    pub importing : shard.importing ≡ true

  abbrev Marked : ℕ → Option (Receiver e p db) → Type 0
  Marked id none = Unit
  Marked id (some d) = IsMarked id d

  abbrev Has : Shard db → Shard db × Receiver e p db → Type 0
  Has s (t, r) = t ≡ s
