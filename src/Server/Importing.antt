-- ===== src/Server/Importing.antt =====
-- AsyncServer::WatchThread and its requests for shards, with MigrationOver and HandleError, and what
-- Init does before it is started (src/server/async_server.cc).
pub mod Transfer
pub mod Ending
pub mod Recovery
use crocks.Prelude.{
  ℕ, Bool, true, false, not, List, [], ◌∷◌, Option, none, some, Bytes, ℤ, pos, ◌==◌, is_empty,
  if◌then◌else◌, Run, ok, abort, ◌>>=◌, ◌>>◌, assert, or_abort,
}
use crocks.Cluster.{address, is_available, is_shard_migrating, is_id}
use crocks.Status.{GrpcCode, is_fine, is_code_unavailable}
use crocks.Etcd.{Etcd}
use crocks.Etcd.Watch.{Reading, WatchCall, Watched, is_cancelled, has_value}
use crocks.Info.{Info, Proto, index_for_shard, own_tasks, own_shards, over, available}
use crocks.Info.Watching.{watch, watch_next}
use crocks.Server.Shard.{
  RocksDb, Shard, ShardMap, shard_at, add, insert, create_shards, recover_shards, ingest,
  set_importing, set_largest_key,
}
use crocks.Server.Migrate.{Importer, Saved, Response, importer, write_chunk}

abbrev pub is_invalid : GrpcCode → Bool
is_invalid GrpcCode.invalid_argument = true
is_invalid c = false

-- What the stream of a request for a shard gives: where it breaks, with the code of Finish, and the
-- responses after the confirmation, up to that.
pub data Exchange : Type 0 where
  no_write : GrpcCode → Exchange
  no_confirmation : GrpcCode → Exchange
  no_dump : GrpcCode → Exchange
  messages : Response → List Response → GrpcCode → Exchange

module _ (e : Etcd) (p : Proto) (db : RocksDb) where
  open e use {Store}

  -- `saved` is the state of each shard's ShardImporter in the database.
  pub record Receiver : Type 0 where
    pub info : Info
    pub call : WatchCall
    pub store : Store
    pub shards : ShardMap db
    pub saved : ℕ → Option Saved

  -- What happens outside during one request: the file that a crash has left, the stream, what the
  -- watch reads while the node waits for the shard and for the end of the migration, and what other
  -- processes do to etcd.
  pub record Visit : Type 0 where
    pub left : Option Bytes
    pub exchange : Exchange
    pub given : List Reading
    pub settled : List Reading
    pub given_store : Store → Store
    pub others : List (Store → Store)

  -- ShardImporter::ClearState
  abbrev pub clear_saved : ℕ → (ℕ → Option Saved) → ℕ → Option Saved
  clear_saved id saved k = if id == k then none else saved k

  abbrev pub set_saved : ℕ → Option Saved → (ℕ → Option Saved) → ℕ → Option Saved
  set_saved id new saved k = if id == k then new else saved k

  -- `bool ret = info_.WatchNext(call_); assert(!ret);`
  abbrev pub not_cancelled : Watched → Bool
  not_cancelled is_cancelled = false
  not_cancelled (has_value v) = true

  unfoldable pub next_info : Receiver → Reading → Run Receiver
  unfolding watch_next
  next_info r reading = do
    n ← watch_next e p r.info r.call reading
    assert (not_cancelled n.2)
    ok (record r { info = n.0; call = n.1 })

  -- `while (info_.IndexForShard(shard_id) != info_.id())`; `none` if it blocks
  unfoldable pub await_given : ℕ → Receiver → List Reading → Run (Option Receiver)
  unfolding next_info index_for_shard
  await_given shard_id r [] = do
    master ← index_for_shard r.info (pos shard_id)
    ok (if is_id master r.info.id then some r else none)
  await_given shard_id r (reading ∷ rest) = index_for_shard r.info (pos shard_id) >>= λ master.
      elim (is_id master r.info.id) [
        | true ↦ ok (some r)
        | false ↦ next_info r reading >>= λ n. await_given shard_id n rest
      ]

  -- the loop of MigrationOver, which reads once before it tests
  unfoldable pub await_settled : ℕ → Receiver → List Reading → Run (Option Receiver)
  unfolding next_info is_shard_migrating
  await_settled shard_id r [] = ok none
  await_settled shard_id r (reading ∷ rest) = next_info r reading >>= λ n.
      is_shard_migrating n.info.info (pos shard_id) >>= λ migrating. elim migrating [
        | false ↦ ok (some n)
        | true ↦ await_settled shard_id n rest
      ]

  -- AsyncServer::MigrationOver
  unfoldable pub finish_migration : ℕ → Visit → Receiver → Run (Option Receiver)
  unfolding over await_settled
  finish_migration shard_id v r = do
    o ← over e p r.info r.store (pos shard_id) v.others
    await_settled shard_id
        (record r { info = o.0; store = o.1; saved = clear_saved shard_id r.saved }) v.settled

  -- AsyncServer::HandleError
  unfoldable pub handle_error : GrpcCode → ℕ → Visit → Receiver → Run Receiver
  unfolding available
  handle_error code node_id v r =
      if is_code_unavailable code
      then (do
        o ← available e p r.info r.store (pos node_id) false v.others
        ok (record r { info = o.0; store = o.1 }))
      else do assert (is_fine code); ok r

  abbrev pub put_shard : ℕ → Receiver → Shard db → Receiver
  put_shard shard_id r s = record r { shards = insert db r.shards shard_id s }

  -- The shard, created if need be. A null pointer is dereferenced later.
  unfoldable pub ensure_shard : ℕ → Bytes → Receiver → Run (Shard db × Receiver)
  unfolding index_for_shard add
  ensure_shard shard_id from_address r = do
    master ← index_for_shard r.info (pos shard_id)
    elim (shard_at db r.shards shard_id) [
      | some s ↦ ok (s, r)
      | none ↦
          if is_id master r.info.id
          then abort
          else (let (shards, s) = add db r.shards shard_id from_address in
              ok (s, record r { shards = shards }))
    ]

  -- the file of a crash; a missing one makes Ingest fail with an IOError, which it skips
  unfoldable pub ingest_left : Option Bytes → Importer → Shard db → Run (Shard db)
  unfolding ingest set_largest_key
  ingest_left left i s = elim i.filename_ [
    | none ↦ ok s
    | some n ↦ elim left [
      | none ↦ ok (set_largest_key db s i.largest_key)
      | some file ↦ ingest db s file i.largest_key
    ]
  ]

  -- the loop over the responses
  unfoldable pub import_messages :
      Importer → Option Saved → Shard db → List Response → Run (Importer × Option Saved × Shard db)
  unfolding write_chunk ingest
  import_messages i saved s [] = ok (i, saved, s)
  import_messages i saved s (m ∷ ms) = elim m.finished [
    | true ↦ ok (i, saved, s)
    | false ↦
        let (j, new, ready) = write_chunk i saved m in
        (if ready then ingest db s j.written j.largest_key else ok s) >>= λ t.
        import_messages j new t ms
  ]

  -- after the node has the shard
  unfoldable pub import_shard :
      ℕ
      → ℕ
      → Visit
      → Importer
      → Response
      → List Response
      → GrpcCode
      → Receiver
      → Run (Option Receiver)
  unfolding import_messages handle_error finish_migration set_importing
  import_shard shard_id node_id v i first rest code r = do
    s ← or_abort (shard_at db r.shards shard_id)
    got ← import_messages i (r.saved shard_id) s (first ∷ rest)
    let kept = put_shard shard_id (record r { saved = set_saved shard_id got.1 r.saved }) got.2 in
        if is_fine code
        then (finish_migration shard_id v kept >>= elim [
          | none ↦ ok none
          | some done ↦ ok (some (put_shard shard_id done (set_importing db got.2 false)))
        ])
        else do h ← handle_error code node_id v kept; ok (some h)

  -- what follows the request; the former master changes etcd before it confirms
  unfoldable pub exchange_messages :
      ℕ → ℕ → Visit → Importer → Receiver → Exchange → Run (Option Receiver)
  unfolding handle_error finish_migration await_given import_shard
  exchange_messages shard_id node_id v i r (no_write code) = do
    h ← handle_error code node_id v r
    ok (some h)
  exchange_messages shard_id node_id v i r (no_confirmation code) =
      if is_invalid code
      then finish_migration shard_id v r
      else do h ← handle_error code node_id v r; ok (some h)
  exchange_messages shard_id node_id v i r (no_dump code) =
      await_given shard_id (record r { store = v.given_store r.store }) v.given
      >>= elim [ none ↦ ok none | some g ↦ handle_error code node_id v g >>= λ h. ok (some h) ]
  exchange_messages shard_id node_id v i r (messages first rest code) =
      await_given shard_id (record r { store = v.given_store r.store }) v.given
      >>= elim [ none ↦ ok none | some g ↦ import_shard shard_id node_id v i first rest code g ]

  -- the body of the loop over the shards of a task
  unfoldable pub request_shard : ℕ → Bytes → Visit → ℕ → Receiver → Run (Option Receiver)
  unfolding is_available ensure_shard importer ingest_left exchange_messages
  request_shard node_id from_address v shard_id r = do
    up ← is_available r.info.info (pos node_id)
    if not up then ok (some r) else do
      (s, kept) ← ensure_shard shard_id from_address r
      let i = importer (r.saved shard_id)
      t ← ingest_left v.left i s
      exchange_messages shard_id node_id v i (put_shard shard_id kept t) v.exchange

  -- the two loops over the tasks, as they were before the first request; `none` if one blocks
  unfoldable pub request_shards :
      ℕ → Bytes → (ℕ → Visit) → List ℕ → Receiver → Run (Option Receiver)
  unfolding request_shard
  request_shards node_id from_address visits [] r = ok (some r)
  request_shards node_id from_address visits (id ∷ ids) r =
      request_shard node_id from_address (visits id) id r
      >>= elim [ none ↦ ok none | some d ↦ request_shards node_id from_address visits ids d ]

  unfoldable pub request_tasks : (ℕ → Visit) → List (ℕ × List ℕ) → Receiver → Run (Option Receiver)
  unfolding address request_shards
  request_tasks visits [] r = ok (some r)
  request_tasks visits ((node_id, ids) ∷ ts) r =
      address r.info.info (pos node_id) >>= λ from_address.
      request_shards node_id from_address visits ids r
      >>= elim [ none ↦ ok none | some d ↦ request_tasks visits ts d ]

  -- AsyncServer::WatchThread, for as many readings of its own as are given: the last field says that
  -- the watch was cancelled, which ends the thread.
  unfoldable pub watch_thread :
      List ((ℕ → Visit) × Reading) → Receiver → Run (Option (Receiver × Bool))
  unfolding own_tasks request_tasks watch_next
  watch_thread [] r = ok (some (r, false))
  watch_thread ((visits, reading) ∷ rest) r = own_tasks r.info >>= λ ts.
      request_tasks visits ts r >>= elim [
        | none ↦ ok none
        | some d ↦ watch_next e p d.info d.call reading >>= λ n.
            let kept : Receiver = record d { info = n.0; call = n.1 } in
            elim (not_cancelled n.2) [
              | false ↦ ok (some (kept, true))
              | true ↦ watch_thread rest kept
            ]
      ]

  -- what Init does for a shard of the tasks
  unfoldable pub restore_importing : (ℕ → Option Saved) → ℕ → ShardMap db → ShardMap db
  unfolding set_importing set_largest_key
  restore_importing saved id m = elim (shard_at db m id) [
    | none ↦ m
    | some s ↦
        let on = set_importing db s true in
        insert db m id
          (elim (saved id) [ none ↦ on | some v ↦ set_largest_key db on v.largest_key ])
  ]

  unfoldable pub restore_tasks : (ℕ → Option Saved) → List (ℕ × List ℕ) → ShardMap db → ShardMap db
  unfolding restore_importing
  restore_tasks saved [] m = m
  restore_tasks saved ((node, ids) ∷ ts) m = restore_tasks saved ts (restore_each ids m)
    where
      restore_each : List ℕ → ShardMap db → ShardMap db
      restore_each [] m = m
      restore_each (id ∷ ids) m = restore_each ids (restore_importing saved id m)

  -- Init from the announcement to etcd on: `cfs` are the column families on disk, `first` is what
  -- the watch reads first. The node then runs WatchThread.
  unfoldable pub init :
      Info
      → Store
      → Bytes
      → ℤ
      → List (Store → Store)
      → List (Option ℕ × RocksDb.Cf db)
      → (ℕ → Option Saved)
      → Reading
      → Run Receiver
  unfolding own_shards own_tasks create_shards recover_shards watch restore_tasks
  init i s node_address num_shards others cfs saved first = do
    a ← crocks.Info.add e p i s node_address num_shards others
    own ← own_shards a.0
    w ← watch e p a.0 a.1 first
    ts ← own_tasks w.0
    let m = if is_empty cfs then create_shards db own [] else recover_shards db cfs [] in
        ok (record {
          info = w.0;
          call = w.1;
          store = a.1;
          shards = restore_tasks saved ts m;
          saved = saved;
        })
