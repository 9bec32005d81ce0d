-- ===== src/Server/Importing/Ending.antt =====
-- How a request of WatchThread for a shard ends (src/server/async_server.cc).
use crocks.Prelude.{
  ℕ, ◌≡◌, refl, ap, sym, ◌∙◌, subst, Bool, true, false, not, List, [], ◌∷◌, Option, none, some,
  Bytes, pos, ==-refl, Run, ok, abort, ◌>>=◌, assert, or_abort, OnOk, >>=-OnOk, >>=-OnOk_any,
  if-OnOk,
}
use crocks.Cluster.{is_available, is_shard_migrating}
use crocks.Status.{GrpcCode}
use crocks.Etcd.{Etcd}
use crocks.Etcd.Watch.{Reading}
use crocks.Info.{Proto, over}
use crocks.Info.Watching.{watch_next}
use crocks.Server.Shard.{RocksDb, Shard, ShardMap, shard_at, set_importing}
use crocks.Server.Calls.Writes.{shard_at-insert}
use crocks.Server.Migrate.{Importer, Saved, Response, importer}
use crocks.Server.Importing.{
  messages, Receiver, Visit, clear_saved, not_cancelled, next_info, await_given, await_settled,
  finish_migration, put_shard, ensure_shard, ingest_left, import_messages, import_shard,
  exchange_messages, request_shard, set_saved,
}

module _ (e : Etcd) (p : Proto) (db : RocksDb) where
  open e use {Store}

  -- after the wait for the end of a migration
  abbrev pub Settled : ℕ → ShardMap db → (ℕ → Option Saved) → Option (Receiver e p db) → Type 0
  Settled id shards saved none = Unit
  Settled id shards saved (some n) =
      (n.shards ≡ shards) × (n.saved ≡ saved) × (is_shard_migrating n.info.info (pos id) ≡ ok false)

  abbrev Same : Receiver e p db → Receiver e p db → Type 0
  Same r n = (n.shards ≡ r.shards) × (n.saved ≡ r.saved)

  next_info-Same :
      (r : Receiver e p db) (reading : Reading) → OnOk (Same r) (next_info e p db r reading)
  unfolding next_info
  next_info-Same r reading =
      >>=-OnOk_any (Same r) (watch_next e p r.info r.call reading) _
        (λ n. >>=-OnOk_any (Same r) (assert (not_cancelled e p db n.2)) _ (λ u. (refl, refl)))

  await_settled-Settled :
      (id : ℕ) (r : Receiver e p db) (readings : List Reading)
      → OnOk (Settled id r.shards r.saved) (await_settled e p db id r readings)
  unfolding await_settled
  await_settled-Settled id r [] = tt
  await_settled-Settled id r (reading ∷ rest) =
      >>=-OnOk (Same r) (Settled id r.shards r.saved) (next_info e p db r reading) _
        (next_info-Same r reading)
        (λ n (shards, saved).
          tested n (await_settled-Settled id n rest) shards saved
            (is_shard_migrating n.info.info (pos id)) refl)
    where
      tested :
          (n : Receiver e p db)
          → OnOk (Settled id n.shards n.saved) (await_settled e p db id n rest)
          → n.shards ≡ r.shards
          → n.saved ≡ r.saved
          → (m : Run Bool) → is_shard_migrating n.info.info (pos id) ≡ m
          → OnOk (Settled id r.shards r.saved) (
              m >>= λ migrating. elim migrating [
                | false ↦ ok (some n)
                | true ↦ await_settled e p db id n rest
              ])
      tested n again shards saved (ok true) h =
          subst (λ x. OnOk (Settled id x r.saved) (await_settled e p db id n rest)) shards
            (subst (λ y. OnOk (Settled id n.shards y) (await_settled e p db id n rest)) saved again)
      tested n again shards saved (ok false) h = (shards, saved, h)
      tested n again shards saved abort h = tt

  pub finish_migration-Settled :
      (id : ℕ) (v : Visit e p db) (r : Receiver e p db)
      → OnOk (Settled id r.shards (clear_saved e p db id r.saved)) (finish_migration e p db id v r)
  unfolding finish_migration
  finish_migration-Settled id v r =
      >>=-OnOk_any (Settled id r.shards (clear_saved e p db id r.saved))
        (over e p r.info r.store (pos id) v.others) _
        (λ o.
          await_settled-Settled id
            (record r { info = o.0; store = o.1; saved = clear_saved e p db id r.saved }) v.settled)

  -- the shard has been imported
  pub record IsImported (id : ℕ) (d : Receiver e p db) : Type 0 where
    pub shard : Shard db
    pub here : shard_at db d.shards id ≡ some shard
    pub over : shard.importing ≡ false
    pub cleared : d.saved id ≡ none
    pub settled : is_shard_migrating d.info.info (pos id) ≡ ok false

  abbrev Imported : ℕ → Option (Receiver e p db) → Type 0
  Imported id none = Unit
  Imported id (some d) = IsImported id d

  import_shard-Imported :
      (id node_id : ℕ) (v : Visit e p db) (i : Importer) (first : Response) (rest : List Response)
      (r : Receiver e p db)
      → OnOk (Imported id) (import_shard e p db id node_id v i first rest GrpcCode.fine r)
  unfolding import_shard set_importing
  import_shard-Imported id node_id v i first rest r =
      >>=-OnOk_any (Imported id) (or_abort (shard_at db r.shards id)) _ (λ s.
        >>=-OnOk_any (Imported id) (import_messages e p db i (r.saved id) s (first ∷ rest)) _
          (λ got.
            let kept =
              put_shard e p db id (record r { saved = set_saved e p db id got.1 r.saved }) got.2 in
            >>=-OnOk (Settled id kept.shards (clear_saved e p db id kept.saved)) (Imported id)
              (finish_migration e p db id v kept) _ (finish_migration-Settled id v kept)
              (over_with got.2 kept)))
    where
      over_with :
          (s : Shard db) (kept : Receiver e p db) (n : Option (Receiver e p db))
          → Settled id kept.shards (clear_saved e p db id kept.saved) n
          → OnOk (Imported id) (elim n [
            | none ↦ ok none
            | some done ↦ ok (some (put_shard e p db id done (set_importing db s false)))
          ])
      over_with s kept none h = tt
      over_with s kept (some done) (shards, saved, settled) = record {
        shard = set_importing db s false;
        here = shard_at-insert db done.shards id (set_importing db s false);
        over = refl;
        cleared = ap (λ f. f id) saved ∙ rw (==-refl id) refl;
        settled = settled;
      }

  exchange_messages-Imported :
      (id node_id : ℕ) (v : Visit e p db) (i : Importer) (first : Response) (rest : List Response)
      (r : Receiver e p db)
      → OnOk
          (Imported id)
          (exchange_messages e p db id node_id v i r (messages first rest GrpcCode.fine))
  unfolding exchange_messages
  exchange_messages-Imported id node_id v i first rest r =
      >>=-OnOk_any (Imported id)
        (await_given e p db id (record r { store = v.given_store r.store }) v.given) _
        (elim [ none ↦ tt | some g ↦ import_shard-Imported id node_id v i first rest g ])

  -- When a request for a shard comes back from a former master that was available, and the stream has
  -- ended well, the shard is not importing any more, the state of the import is cleared, and the node
  -- has read from etcd that the migration of the shard is over.
  pub request_shard-IsImported :
      (node_id id : ℕ) (a : Bytes) (v : Visit e p db) (first : Response) (rest : List Response)
      (r d : Receiver e p db)
      → v.exchange ≡ messages first rest GrpcCode.fine
      → is_available r.info.info (pos node_id) ≡ ok true
      → request_shard e p db node_id a v id r ≡ ok (some d)
      → IsImported id d
  unfolding request_shard
  request_shard-IsImported node_id id a v first rest r d ends up back =
      subst (OnOk (Imported id)) back (
        >>=-OnOk (λ b. b ≡ true) (Imported id) (is_available r.info.info (pos node_id)) _
          (subst (OnOk (λ b. b ≡ true)) (sym up) refl)
          (λ b on.
            if-OnOk (Imported id) (not b) _ _ (λ off. absurd (cc (ap not on, off)))
              (λ h. >>=-OnOk_any (Imported id) (ensure_shard e p db id a r) _ (λ x.
                >>=-OnOk_any (Imported id) (ingest_left e p db v.left (importer (r.saved id)) x.0) _
                  (λ t.
                    subst
                      (λ y. OnOk (Imported id) (
                        exchange_messages e p db id node_id v (importer (r.saved id))
                          (put_shard e p db id x.1 t) y))
                      (sym ends)
                      (exchange_messages-Imported id node_id v (importer (r.saved id)) first rest
                        (put_shard e p db id x.1 t)))))))
