-- ===== src/Server/Giving/Handover.antt =====
-- What MigrateCall (src/server/async_server.cc) dumps, and what the shard has in the end.
use crocks.Prelude.{
  ℕ, ◌≡◌, refl, ap, sym, true, false, List, [], ◌++◌, none, some, map, is_empty, ok,
}
use crocks.Etcd.{Etcd}
use crocks.Info.{Proto}
use crocks.Server.Shard.{RocksDb, Shard, shard_at, ref}
use crocks.Server.Shard.Refs.{Steps, IsNew, Steps-drained}
use crocks.Server.Migrate.{
  Response, Migrator, migrator, Pair, SstFileWriter, dump_from, dumped_file, Received, receive,
}
use crocks.Server.Migrate.Messages.{Sends}
use crocks.Server.Migrate.Transfer.{IsNext}
use crocks.Server.Migrate.Dump.{concat, files_of, state_of, dump_shard-receive}
use crocks.Server.Giving.{MigrateCall, dump}

module _ (e : Etcd) (p : Proto) (db : RocksDb) (w : SstFileWriter)
    (pairs : RocksDb.Cf db → List Pair) where
  -- A call that has waited for the references of a shard u dumps it and sends it: the receiver
  -- ingests files that hold, in order, just the pairs that the shard has at any later time v, whatever
  -- the handlers of the node have done up to then, and at v no handler gets a reference.
  pub dump-receive :
      (c : MigrateCall e p db w pairs) (s u v : Shard db) (n l : ℕ) (r : Received)
      → IsNew db s
      → Steps db s 0 u n
      → u.zero_refs ≡ true
      → Steps db u n v l
      → shard_at db c.shards c.shard_id ≡ some u
      → c.sender ≡ some (migrator 0)
      → c.saved ≡ none
      → is_empty (pairs u.cf) ≡ false
      → IsNext r 0
      → (d : MigrateCall e p db w pairs) × (m : Migrator) × (msgs : List Response) × (dump e p db w
            pairs c
          ≡ ok d)
        × (d.sender ≡ some m)
        × Sends d.files m msgs
        × ((receive r msgs).ingested
            ≡ r.ingested ++ map (dumped_file w) (dump_from w [] (pairs v.cf)))
        × (concat (dump_from w [] (pairs v.cf)) ≡ pairs v.cf)
        × (ref db v ≡ (v, false))
  unfolding dump
  dump-receive c s u v n l r new path z later at_id fresh unsaved some_pair next =
      let (left, same, refused) = Steps-drained db s u v n l new path z later in
      let (m, gs, msgs, dumped, sends, got, waits, whole) =
        dump_shard-receive w (pairs u.cf) c.files r some_pair next in
      let content : pairs u.cf ≡ pairs v.cf = ap pairs (sym same) in
      (
        record c {
          sender = some m;
          files = gs;
          saved = some (state_of (files_of w (pairs u.cf)));
          waiting = false;
        },
        m,
        msgs,
        rw (at_id, fresh, unsaved, dumped, dump) refl,
        refl,
        sends,
        rw (sym content) got,
        rw (sym content) whole,
        refused,
      )
