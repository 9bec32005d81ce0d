-- ===== src/Tests/Server.antt =====
-- A node over a stand-in for RocksDB, and migrations of a small shard.
use crocks.Prelude.{
  ℕ, ◌≡◌, ◌≢◌, ◌⊎◌, inl, refl, true, false, not, List, [], ◌∷◌, ◌++◌, Option, none, some, Bytes,
  beq, beq_refl, blt, arith, ◌-ℤ◌, length, map, drop, pos, if◌then◌else◌, ok,
}
use crocks.Cluster.{masters}
use crocks.Hash.{hash}
use crocks.Status.{StatusCode}
use crocks.Info.{shard_for_key, wrong_shard}
use crocks.Server.Shard.{RocksDb, Entry, behind, Ingestion, Shard, opened, ref, unref, shard_at}
use crocks.Server.Shard.Refs.{Steps, IsCounted, Steps-IsCounted_new, Steps-drained}
use crocks.Server.Calls.{
  Node, reply, ask, response, answered, put_request, delete_request, get_request, get_forwarded,
}
use crocks.Server.Calls.Writes.{put-get, delete-get}
use crocks.Server.Migrate.{
  Files, Pair, SstFileWriter, dump_from, dump_shard, dumped_file, migrator, Migrator, Response,
  Received, receive, write_files,
}
use crocks.Server.Migrate.Messages.{Sends}
use crocks.Server.Migrate.Transfer.{IsNext}
use crocks.Server.Migrate.Dump.{
  concat, files_of, state_of, dump_shard-receive, dump_shard-resume, write_files-get,
}
use crocks.Tests.Cluster.{sample}

pub ingested_apart : Ingestion.ingested ≢ Ingestion.io_error
ingested_apart h = cc h

-- the one pair that the files hold
abbrev pub former : Bytes → Option Entry
former k = if beq k (5 ∷ []) then some (Entry.value (9 ∷ [])) else none

abbrev pub sst : Bytes → Bytes → Option Entry
sst file k = former k

abbrev pub memory : RocksDb
memory = record {
  Cf = Bytes → Option Entry;
  created = λ k. none;
  entry = λ f k. f k;
  put = λ f k v j. if beq k j then some (Entry.value v) else f j;
  delete = λ f k j. if beq k j then some Entry.deleted else f j;
  contents = sst;
  ingest_behind = λ f file. (λ k. behind (f k) (sst file k), Ingestion.ingested);
  entry-created = λ k. refl;
  entry-put = λ f k v. rw (beq_refl k) refl;
  entry-delete = λ f k. rw (beq_refl k) refl;
  entry-ingest = λ f file k h. refl;
  ingest-fails = λ f file h. absurd (ingested_apart h);
}

abbrev nobody : ℕ
nobody = 0

abbrev one : ℕ
one = 1

abbrev pub fresh : Shard memory
fresh = opened memory memory.created

abbrev writing : Shard memory
writing = (ref memory fresh).0

taken : Steps memory fresh 0 writing 1
unfolding opened ref
taken = Steps.take fresh 0 Steps.stay refl

Steps-IsCounted_new_example :
    IsCounted memory writing 1
    × ((one ≡ 0) ⊎ ((u : Shard memory) × (unref memory writing false ≡ ok (u, true))))
    × ((u : Shard memory) × (unref memory writing true ≡ ok (u, not writing.migrating)))
Steps-IsCounted_new_example =
    Steps-IsCounted_new memory fresh writing 1 (inl (memory.created, refl)) taken

abbrev drained : Shard memory
drained = record fresh { refs = pos 0; migrating = true; zero_refs = true }

given : Steps memory fresh 0 drained 0
unfolding opened unref ◌-ℤ◌
given = Steps.migrate fresh drained 0 true Steps.stay refl

Steps-drained_example :
    (nobody ≡ 0) × (drained.cf ≡ drained.cf) × (ref memory drained ≡ (drained, false))
Steps-drained_example =
    Steps-drained memory fresh drained drained 0 0 (inl (memory.created, refl)) given refl
      Steps.stay

abbrev pub one_key : Bytes
one_key = b'k' ∷ b'e' ∷ b'y' ∷ []

abbrev pub holding : Shard memory → Node memory
holding s = record {
  info = record { info = sample; map = masters sample; address = []; id = pos 0 };
  shards = (0, fresh) ∷ (1, s) ∷ (2, fresh) ∷ [];
}

abbrev importing : Shard memory
importing = record fresh { importing = true; old_address = 2 ∷ [] }

put-get_example :
    (later : Node memory) × (put_request memory (holding importing) one_key (b'v' ∷ [])
      ≡ ok (later, response StatusCode.fine []))
    × (get_request memory later one_key false ≡ ok (reply (response StatusCode.fine (b'v' ∷ []))))
unfolding shard_for_key wrong_shard hash shard_at opened masters
put-get_example =
    put-get memory (holding importing) one_key (b'v' ∷ []) 1 0 importing refl refl refl refl refl

delete-get_example :
    (later : Node memory) × (t : Shard memory) × (delete_request memory (holding importing) one_key
      ≡ ok (later, response StatusCode.fine []))
    × (get_request memory later one_key false ≡ ok (ask t))
    × (get_forwarded memory later t one_key (answered StatusCode.fine (b'v' ∷ []))
        ≡ ok (response StatusCode.fine (b'v' ∷ [])))
unfolding shard_for_key wrong_shard hash shard_at opened blt masters
delete-get_example =
    delete-get memory (holding importing) one_key (b'v' ∷ []) 1 0 importing refl refl refl refl refl

abbrev concat_pairs : List Pair → Bytes
concat_pairs [] = []
concat_pairs ((k, v) ∷ ps) = k ++ v ++ concat_pairs ps

-- a writer that puts two pairs into a file
abbrev pub writer : SstFileWriter
writer = record { file_size = length; finish = concat_pairs; target_file_size_base = 1 }

abbrev pub pairs : List Pair
pairs = (1 ∷ [], 5 ∷ []) ∷ (2 ∷ [], 6 ∷ []) ∷ (3 ∷ [], 7 ∷ []) ∷ []

abbrev pub waiting : ℕ → Received
waiting n = record {
  importer = record { filename_ = none; written = []; largest_key = []; is_open = false; num = n };
  saved = none;
  ingested = [];
}

dump_shard-receive_example :
    (m : Migrator) × (gs : Files) × (msgs : List Response) × (dump_shard writer pairs
        (λ k. none)
        none
        (migrator 0)
      ≡ ok (m, gs, some (state_of (files_of writer pairs))))
    × Sends gs m msgs
    × ((receive (waiting 0) msgs).ingested ≡ map (dumped_file writer) (dump_from writer [] pairs))
    × IsNext (receive (waiting 0) msgs) (length (files_of writer pairs))
    × (concat (dump_from writer [] pairs) ≡ pairs)
dump_shard-receive_example =
    dump_shard-receive writer pairs (λ k. none) (waiting 0) refl (refl, refl)

dump_shard-resume_example :
    (m : Migrator) × (msgs : List Response) × (dump_shard writer pairs
        (write_files (files_of writer pairs) (λ k. none))
        (some (state_of (files_of writer pairs)))
        (migrator 1)
      ≡ ok (
        m,
        write_files (files_of writer pairs) (λ k. none),
        some (state_of (files_of writer pairs)),
      ))
    × Sends (write_files (files_of writer pairs) (λ k. none)) m msgs
    × ((receive (waiting 1) msgs).ingested ≡ drop 1 (files_of writer pairs))
    × IsNext (receive (waiting 1) msgs) (length (files_of writer pairs))
unfolding dump_from
dump_shard-resume_example =
    dump_shard-resume writer pairs (write_files (files_of writer pairs) (λ k. none))
      (files_of writer pairs) 1 (waiting 1) (omega arith)
      (λ j p e h. write_files-get (files_of writer pairs) (λ k. none) j p e) (refl, refl)
