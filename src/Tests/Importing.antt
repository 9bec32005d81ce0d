-- ===== src/Tests/Importing.antt =====
-- A node that imports a shard, and one that was restarted before it announced the end.
use crocks.Prelude.{
  ℕ, zero, suc, ◌≡◌, refl, ap, true, false, List, [], ◌∷◌, ◌++◌, Option, none, some, Bytes, beq,
  length, take, drop, pos, Run, ok, abort,
}
use crocks.Cluster.Update.{new_shard}
use crocks.Cluster.{ClusterInfo, is_available, is_shard_migrating}
use crocks.Status.{GrpcCode}
use crocks.Etcd.{client_get, txn_put_if_value_equals}
use crocks.Etcd.Watch.{Reading, received, no_watch_response}
use crocks.Info.{Info, over, info_key}
use crocks.Server.Shard.{RocksDb, Entry, behind, Ingestion, Shard, opened, shard_at}
use crocks.Server.Migrate.{
  Response, Pair, SstFileWriter, Files, Migrator, Importer, Saved, importer, migrator, dump_shard,
}
use crocks.Server.Importing.{
  Receiver, Visit, no_confirmation, messages, request_shard, import_messages, watch_thread, init,
}
use crocks.Server.Importing.Ending.{IsImported, request_shard-IsImported}
use crocks.Server.Importing.Transfer.{find, import_messages-entry}
use crocks.Server.Migrate.Messages.{Sends}
use crocks.Server.Migrate.Dump.{files_of, state_of}
use crocks.Tests.Wire.{wire, pop, take-append, drop-append}
use crocks.Tests.Store.{table}
use crocks.Tests.Info.{giver, holding}
use crocks.Tests.Cluster.{sample, moving, leaving_shard, node}
use crocks.Tests.Server.{memory, fresh, pairs, ingested_apart}

-- node 1 has been given shard 0
abbrev given : ClusterInfo
given = record moving {
  nodes = node (1 ∷ []) 0 2 ∷ node (2 ∷ []) 1 1 ∷ [];
  shards = record leaving_shard { master = 1 } ∷ new_shard 0 ∷ new_shard 0 ∷ [];
}

abbrev settled : ClusterInfo
settled = record sample {
  nodes = node (1 ∷ []) 0 2 ∷ node (2 ∷ []) 1 1 ∷ [];
  shards = record leaving_shard { master = 1; migrating = false } ∷ new_shard 0 ∷ new_shard 0 ∷ [];
}

abbrev taker : Info
taker = record giver { info = given; map = 1 ∷ 0 ∷ 0 ∷ []; id = pos 1 }

abbrev taking : Receiver table wire memory
taking = record {
  info = taker;
  call = record { id = 0; requests = []; response = no_watch_response };
  store = holding given;
  shards = (0, record fresh { importing = true }) ∷ [];
  saved = λ k. none;
}

abbrev last_message : Response
last_message = record { eof = true; finished = false; chunk = 1 ∷ []; largest_key = 5 ∷ [] }

abbrev visit : Visit table wire memory
visit = record {
  left = none;
  exchange = messages last_message [] GrpcCode.fine;
  given = [];
  settled = received (record no_watch_response { events = wire.serialize settled ∷ [] }) ∷ [];
  given_store = λ s. s;
  others = [];
}

abbrev value_of {ℓ} : {A : Type ℓ} → Run (Option A) → A → A
value_of (ok (some a)) b = a
value_of (ok none) b = b
value_of abort b = b

abbrev taken : Receiver table wire memory
taken = value_of (request_shard table wire memory 0 (1 ∷ []) visit 0 taking) taking

taken_run : request_shard table wire memory 0 (1 ∷ []) visit 0 taking ≡ ok (some taken)
unfolding request_shard shard_at wire client_get beq crocks.Info.migration_over_decision
    crocks.Cluster.Update.migration_over crocks.Tests.Wire.get_all crocks.Tests.Wire.get_shard
    crocks.Tests.Wire.get_node crocks.Tests.Wire.node_tail crocks.Tests.Wire.put_all
    crocks.Tests.Wire.put_node crocks.Tests.Wire.put_shard txn_put_if_value_equals
taken_run = refl

request_shard-IsImported_example : IsImported table wire memory 0 taken
unfolding is_available
request_shard-IsImported_example =
    request_shard-IsImported table wire memory 0 0 (1 ∷ []) visit last_message [] taking taken refl
      refl taken_run

-- The node was restarted before it announced the end, so that the former master does not know of the
-- request.
abbrev run_of {ℓ} : {A : Type ℓ} → Run A → A → A
run_of (ok a) b = a
run_of abort b = b

-- the former master has found that it crashed
abbrev crashed : ClusterInfo
crashed = record given {
  nodes = node (1 ∷ []) 0 2 ∷ record (node (2 ∷ []) 1 1) { available = false } ∷ [];
}

abbrev start : Run (Receiver table wire memory)
start =
    init table wire memory giver (holding crashed) (2 ∷ []) (pos 0) []
      ((none, memory.created) ∷ (some 0, memory.created) ∷ []) (λ k. none)
      (received (record no_watch_response { created = true }))

abbrev restarted : Receiver table wire memory
restarted = run_of start taking

start_run : start ≡ ok restarted
unfolding init crocks.Info.add client_get beq wire crocks.Cluster.index_of crocks.Tests.Wire.get_all
    crocks.Tests.Wire.get_node crocks.Tests.Wire.node_tail crocks.Tests.Wire.put_all
    crocks.Tests.Wire.put_node is_available txn_put_if_value_equals crocks.Tests.Wire.put_shard
    crocks.Cluster.shards crocks.Cluster.tasks
start_run = refl

abbrev refused : Visit table wire memory
refused = record visit { exchange = no_confirmation GrpcCode.invalid_argument }

abbrev left_marked : Receiver table wire memory
left_marked = value_of (request_shard table wire memory 0 (1 ∷ []) refused 0 restarted) restarted

-- one round of the thread, and a second one in which nothing is left to do
abbrev ending : Reading
ending = received (record no_watch_response { canceled = true })

abbrev twice : List ((ℕ → Visit table wire memory) × Reading)
twice =
    ((λ id. visit), received (record no_watch_response { events = wire.serialize settled ∷ [] }))
    ∷ ((λ id. visit), ending)
    ∷ []

watched :
    watch_thread table wire memory twice taking
    ≡ ok (
        some (
          record taken {
            call = record taking.call { response = record no_watch_response { canceled = true } };
          },
          true,
        ))
unfolding watch_thread crocks.Cluster.tasks shard_at wire client_get beq
    crocks.Info.migration_over_decision crocks.Cluster.Update.migration_over
    crocks.Tests.Wire.get_all crocks.Tests.Wire.get_shard crocks.Tests.Wire.get_node
    crocks.Tests.Wire.node_tail crocks.Tests.Wire.put_all crocks.Tests.Wire.put_node
    crocks.Tests.Wire.put_shard txn_put_if_value_equals
watched = refl

-- files that can be read
abbrev put_pairs : List Pair → Bytes
put_pairs [] = []
put_pairs ((k, v) ∷ ps) = length k ∷ (k ++ length v ∷ (v ++ put_pairs ps))

abbrev get_pairs : ℕ → Bytes → List Pair
get_pairs zero bytes = []
get_pairs (suc n) bytes =
    let (l, b) = pop bytes in
    let (m, c) = pop (drop l b) in (take l b, take m c) ∷ get_pairs n (drop m c)

get_pairs-put_pairs : (ps : List Pair) → get_pairs (length ps) (put_pairs ps) ≡ ps
get_pairs-put_pairs [] = refl
get_pairs-put_pairs ((k, v) ∷ ps) =
    rw
      (
        take-append k (length v ∷ (v ++ put_pairs ps)),
        drop-append k (length v ∷ (v ++ put_pairs ps)),
        take-append v (put_pairs ps),
        drop-append v (put_pairs ps),
        get_pairs-put_pairs ps,
      )
      refl

abbrev file_entry : Bytes → Bytes → Option Entry
file_entry file k = find k (get_pairs (pop file).0 (pop file).1)

abbrev files : RocksDb
files = record memory {
  contents = file_entry;
  ingest_behind = λ f file. (λ k. behind (f k) (file_entry file k), Ingestion.ingested);
  entry-ingest = λ f file k h. refl;
  ingest-fails = λ f file h. absurd (ingested_apart h);
}

abbrev file_writer : SstFileWriter
file_writer = record {
  file_size = length;
  finish = λ ps. length ps ∷ put_pairs ps;
  target_file_size_base = 1;
}

abbrev written : Shard files
written = record (opened files files.created) { importing = true }

import_messages-entry_example :
    (m : Migrator) × (gs : Files) × (msgs : List Response) × (dump_shard file_writer pairs
        (λ j. none)
        none
        (migrator 0)
      ≡ ok (m, gs, some (state_of (files_of file_writer pairs))))
    × Sends gs m msgs
    × (i : Importer) × (saved : Option Saved) × (t : Shard files) × (import_messages table wire
          files
          (importer none)
          none
          written
          msgs
        ≡ ok (i, saved, t))
    × ((k : Bytes) → files.entry t.cf k ≡ behind (files.entry written.cf k) (find k pairs))
unfolding importer
import_messages-entry_example =
    import_messages-entry table wire files file_writer (λ g k. ap (find k) (get_pairs-put_pairs g))
      (λ f file. refl) pairs (λ j. none) written refl
