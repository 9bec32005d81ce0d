-- ===== src/Server/Importing/Transfer.antt =====
-- The contents of a shard that has been migrated: the files of a dump (src/server/migrate_util.cc),
-- received by WatchThread (src/server/async_server.cc), and ingested (src/server/shards.cc).
use crocks.Prelude.{
  ◌≡◌, refl, ap, sym, ◌∙◌, Bool, true, false, List, [], ◌∷◌, ◌++◌, append_assoc, Option, none, some,
  map, Bytes, beq, is_empty, if◌then◌else◌, Run, ok, ◌>>=◌, >>=-cong, >>=-assoc,
}
use crocks.Etcd.{Etcd}
use crocks.Info.{Proto}
use crocks.Server.Shard.{RocksDb, Entry, behind, Ingestion, Shard, ingest}
use crocks.Server.Migrate.{
  Importer, Saved, Response, Files, Migrator, Pair, SstFileWriter, Received, receive, receive_one,
  write_chunk, importer, migrator, dump_from, dump_shard, dumped_file,
}
use crocks.Server.Migrate.Messages.{Sends}
use crocks.Server.Migrate.Dump.{concat, state_of, files_of, dump_shard-receive}
use crocks.Server.Importing.{import_messages}

-- what a list of pairs has for a key
abbrev pub find : Bytes → List Pair → Option Entry
find k [] = none
find k ((j, v) ∷ es) = if beq j k then some (Entry.value v) else find k es

behind-behind : (a b c : Option Entry) → behind (behind a b) c ≡ behind a (behind b c)
behind-behind none b c = refl
behind-behind (some e) b c = refl

behind-if :
    (b : Bool) (e : Entry) (o c : Option Entry)
    → (if b then some e else behind o c) ≡ behind (if b then some e else o) c
behind-if true e o c = refl
behind-if false e o c = refl

find-append : (k : Bytes) (xs ys : List Pair) → find k (xs ++ ys) ≡ behind (find k xs) (find k ys)
find-append k [] ys = refl
find-append k ((j, v) ∷ xs) ys =
    ap (λ o. if beq j k then some (Entry.value v) else o) (find-append k xs ys)
    ∙ behind-if (beq j k) (Entry.value v) (find k xs) (find k ys)

module _ (e : Etcd) (p : Proto) (db : RocksDb) where
  ingest_all : Shard db → List (Bytes × Bytes) → Run (Shard db)
  unfolding ingest
  ingest_all s [] = ok s
  ingest_all s ((file, key) ∷ files) = ingest db s file key >>= λ t. ingest_all t files

  -- what the files have for a key
  abbrev find_files : Bytes → List (Bytes × Bytes) → Option Entry
  find_files k [] = none
  find_files k ((file, key) ∷ files) = behind (db.contents file k) (find_files k files)

  abbrev fresh : Importer → Option Saved → Received
  fresh i saved = record { importer = i; saved = saved; ingested = [] }

  abbrev with_ingested : List (Bytes × Bytes) → Received → Received
  with_ingested before r = record r { ingested = before ++ r.ingested }

  receive_one-ingested :
      (before : List (Bytes × Bytes)) (r : Received) (m : Response)
      → receive_one (with_ingested before r) m ≡ with_ingested before (receive_one r m)
  unfolding receive_one
  receive_one-ingested before r m =
      let (i, saved, ready) = write_chunk r.importer r.saved m in
      ap (λ l. record { importer = i; saved = saved; ingested = l })
        (if-append ready before r.ingested ((i.written, i.largest_key) ∷ []))
    where
      if-append :
          (b : Bool) (xs ys zs : List (Bytes × Bytes))
          → (if b then (xs ++ ys) ++ zs else xs ++ ys) ≡ xs ++ (if b then ys ++ zs else ys)
      if-append true xs ys zs = append_assoc xs ys zs
      if-append false xs ys zs = refl

  receive-ingested :
      (before : List (Bytes × Bytes)) (r : Received) (msgs : List Response)
      → receive (with_ingested before r) msgs ≡ with_ingested before (receive r msgs)
  unfolding receive
  receive-ingested before r [] = refl
  receive-ingested before r (m ∷ ms) = if-with m.finished r (receive (receive_one r m) ms) _ (
      ap (λ x. receive x ms) (receive_one-ingested before r m)
      ∙ receive-ingested before (receive_one r m) ms)
    where
      if-with :
          (b : Bool) (x y z : Received)
          → z ≡ with_ingested before y
          → (if b then with_ingested before x else z) ≡ with_ingested before (if b then x else y)
      if-with true x y z h = refl
      if-with false x y z h = h

  -- a shard takes the files of what has been received
  abbrev taken : Shard db → Received → Run (Importer × Option Saved × Shard db)
  taken s r = ingest_all s r.ingested >>= λ t. ok (r.importer, r.saved, t)

  ready-taken :
      (b : Bool) (i : Importer) (saved : Option Saved) (s : Shard db) (ms : List Response)
      → ((t : Shard db)
          → import_messages e p db i saved t ms ≡ taken t (receive (fresh i saved) ms))
      → (if b then ingest db s i.written i.largest_key else ok s)
          >>= (λ t. import_messages e p db i saved t ms)
        ≡ taken s (
            receive
              (record {
                importer = i;
                saved = saved;
                ingested = if b then (i.written, i.largest_key) ∷ [] else [];
              })
              ms)
  unfolding ingest_all
  ready-taken false i saved s ms h = h s
  ready-taken true i saved s ms h =
      >>=-cong (ingest db s i.written i.largest_key) _ _ h
      ∙ sym (>>=-assoc (ingest db s i.written i.largest_key) _ _)
      ∙ ap (taken s) (sym (receive-ingested ((i.written, i.largest_key) ∷ []) (fresh i saved) ms))

  import_messages-receive :
      (i : Importer) (saved : Option Saved) (s : Shard db) (msgs : List Response)
      → import_messages e p db i saved s msgs ≡ taken s (receive (fresh i saved) msgs)
  unfolding import_messages receive receive_one ingest_all
  import_messages-receive i saved s [] = refl
  import_messages-receive i saved s (m ∷ ms) =
      let (j, new, ready) = write_chunk i saved m in
      elim-taken m.finished (fresh i saved) _ _
        (ready-taken ready j new s ms (λ t. import_messages-receive j new t ms))
    where
      elim-taken :
          (b : Bool) (x y : Received) (z : Run (Importer × Option Saved × Shard db))
          → z ≡ taken s y
          → elim b [ true ↦ ok (x.importer, x.saved, s) | false ↦ z ] ≡ (
              ingest_all s (if b then fresh x.importer x.saved else y).ingested >>= λ t.
              ok ((if b then x else y).importer, (if b then x else y).saved, t))
      elim-taken true x y z h = refl
      elim-taken false x y z h = h

  module _ (w : SstFileWriter)
      (holds : (g : List Pair) (k : Bytes) → db.contents (w.finish g) k ≡ find k g)
      (takes : (f : RocksDb.Cf db) (file : Bytes)
        → (db.ingest_behind f file).1 ≡ Ingestion.ingested) where
    find_files-map :
        (k : Bytes) (gs : List (List Pair))
        → find_files k (map (dumped_file w) gs) ≡ find k (concat gs)
    find_files-map k [] = refl
    find_files-map k (g ∷ gs) =
        ap (λ o. behind o (find_files k (map (dumped_file w) gs))) (holds g k)
        ∙ ap (behind (find k g)) (find_files-map k gs)
        ∙ sym (find-append k g (concat gs))

    ingest-ok :
        (s : Shard db) (file key : Bytes)
        → ingest db s file key
          ≡ ok (record s { cf = (db.ingest_behind s.cf file).0; largest_key = key })
    unfolding ingest
    ingest-ok s file key = rw (takes s.cf file, ingest) refl

    ingest_all-entry :
        (s : Shard db) (files : List (Bytes × Bytes))
        → (t : Shard db) × (ingest_all s files ≡ ok t)
          × ((k : Bytes) → db.entry t.cf k ≡ behind (db.entry s.cf k) (find_files k files))
    unfolding ingest_all
    ingest_all-entry s [] = (s, refl, λ k. behind-nothing (db.entry s.cf k))
      where
        behind-nothing : (o : Option Entry) → o ≡ behind o none
        behind-nothing none = refl
        behind-nothing (some x) = refl
    ingest_all-entry s ((file, key) ∷ files) =
        let next : Shard db = record s { cf = (db.ingest_behind s.cf file).0; largest_key = key } in
        let (t, ingested, entries) = ingest_all-entry next files in
        (
          t,
          ap (λ r. r >>= λ u. ingest_all u files) (ingest-ok s file key) ∙ ingested,
          λ k.
              entries k
              ∙ ap (λ o. behind o (find_files k files))
                  (db.entry-ingest s.cf file k (takes s.cf file))
              ∙ behind-behind (db.entry s.cf k) (db.contents file k) (find_files k files),
        )

    -- The former master dumps a shard with the pairs es and sends it in some messages; a node that
    -- begins to import the shard takes them all, and then has for every key what has been written to
    -- it since the shard was given, and for the other keys what es has. The files are to hold what was
    -- put into them, and RocksDB is to take them.
    pub import_messages-entry :
        (es : List Pair) (fs : Files) (s : Shard db)
        → is_empty es ≡ false
        → (m : Migrator) × (gs : Files) × (msgs : List Response) × (dump_shard w es fs none
              (migrator 0)
            ≡ ok (m, gs, some (state_of (files_of w es))))
          × Sends gs m msgs
          × (i : Importer) × (saved : Option Saved) × (t : Shard db) × (import_messages e p db
                (importer none)
                none
                s
                msgs
              ≡ ok (i, saved, t))
          × ((k : Bytes) → db.entry t.cf k ≡ behind (db.entry s.cf k) (find k es))
    unfolding importer
    import_messages-entry es fs s some_pair =
        let start = fresh (importer none) none in
        let (m, gs, msgs, dumped, sends, got, waits, whole) =
          dump_shard-receive w es fs start some_pair (refl, refl) in
        let r = receive start msgs in
        let (t, ingested, entries) = ingest_all-entry s (map (dumped_file w) (dump_from w [] es)) in
        (
          m,
          gs,
          msgs,
          dumped,
          sends,
          r.importer,
          r.saved,
          t,
          import_messages-receive (importer none) none s msgs
              ∙ ap (λ l. ingest_all s l >>= λ u. ok (r.importer, r.saved, u)) got
              ∙ ap (λ x. x >>= λ u. ok (r.importer, r.saved, u)) ingested,
          λ k.
              entries k
              ∙ ap (behind (db.entry s.cf k))
                  (find_files-map k (dump_from w [] es) ∙ ap (find k) whole),
        )
