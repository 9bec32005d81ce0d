-- ===== src/Server/Migrate.antt =====
-- The classes ShardMigrator and ShardImporter (src/server/migrate_util.h, src/server/migrate_util.cc),
-- and the loop of AsyncServer::WatchThread that receives a shard. The files of one shard are named
-- by their numbers. Calls of RocksDB and of the file system are taken to succeed.
pub mod Dump
pub mod Messages
pub mod Transfer
use crocks.Prelude.{
  ℕ, suc, ◌^◌, Bool, true, false, not, ◌&&◌, List, [], ◌∷◌, ◌++◌, Option, none, some, Bytes, length,
  map, is_empty, take, drop, get_elem?, ltb, leb, ◌==◌, if◌then◌else◌, Run, ok, abort, ◌>>=◌, ◌>>◌,
  assert, or_abort,
}

-- const int kBufSize
abbrev pub buffer_size : ℕ
buffer_size = 2 ^ 20

-- MigrateResponse
pub record Response : Type 0 where
  pub eof : Bool
  pub finished : Bool
  pub chunk : Bytes
  pub largest_key : Bytes

abbrev pub empty_response : Response
empty_response = record { eof = false; finished = false; chunk = []; largest_key = [] }

abbrev pub Files : Type 0
Files = ℕ → Option Bytes

-- `in_` is what is still to be read of the open file, `filename_` the number of the last one opened.
pub record Migrator : Type 0 where
  pub largest_keys : List Bytes
  pub in_ : Option Bytes
  pub total : ℕ
  pub num : ℕ
  pub filename_ : Option ℕ
  pub done : Bool
  pub finished : Bool

unfoldable pub migrator : ℕ → Migrator
migrator start_from = record {
  largest_keys = [];
  in_ = none;
  total = 0;
  num = start_from;
  filename_ = none;
  done = false;
  finished = false;
}

-- What SaveState leaves in the database: "total" and the largest keys, under "dumped".
pub record Dumped : Type 0 where
  pub saved_total : ℕ
  pub saved_keys : List Bytes

unfoldable pub save_state : Migrator → Dumped
save_state m = record { saved_total = m.total; saved_keys = take m.total m.largest_keys }

-- RestoreState, and whether it has restored the state; a key that is missing ends the process
unfoldable pub restore_state : Option Dumped → Migrator → Run (Migrator × Bool)
restore_state none m = ok (m, false)
restore_state (some d) m = do
  assert (not (ltb (length d.saved_keys) d.saved_total))
  assert (leb m.num d.saved_total)
  ok (
    record m {
      total = d.saved_total;
      largest_keys = m.largest_keys ++ take d.saved_total d.saved_keys;
      done = if m.num == d.saved_total then true else m.done;
    },
    true,
  )

abbrev pub Pair : Type 0
Pair = Bytes × Bytes

-- RocksDB's SstFileWriter, and options.target_file_size_base: how large a file is after some pairs
-- have been put, and what it holds when it is finished. The largest key of a file is the one that
-- was put last, since the writer takes keys in order only.
pub record SstFileWriter : Type 0 where
  pub file_size : List Pair → ℕ
  pub finish : List Pair → Bytes
  pub target_file_size_base : ℕ

abbrev pub last_key : List Pair → Bytes
last_key [] = []
last_key ((k, v) ∷ []) = k
last_key (e ∷ f ∷ es) = last_key (f ∷ es)

-- The loop of DumpShard over the pairs of the column family. `acc` is what the open file holds; no
-- file is open where it is empty.
unfoldable pub dump_from : SstFileWriter → List Pair → List Pair → List (List Pair)
dump_from w acc [] = if is_empty acc then [] else acc ∷ []
dump_from w acc (e ∷ es) = elim (ltb w.target_file_size_base (w.file_size (acc ++ e ∷ []))) [
  | true ↦ (acc ++ e ∷ []) ∷ dump_from w [] es
  | false ↦ dump_from w (acc ++ e ∷ []) es
]

-- the files of a dump, each with its largest key
abbrev pub dumped_file : SstFileWriter → List Pair → Pair
dumped_file w g = (w.finish g, last_key g)

abbrev pub write_files : List Pair → Files → Files
write_files ps fs j = elim (get_elem? ps j) [ none ↦ fs j | some p ↦ some p.0 ]

-- ShardMigrator::DumpShard, with the files that it writes and the state that it saves
unfoldable pub dump_shard :
    SstFileWriter
    → List Pair
    → Files
    → Option Dumped
    → Migrator
    → Run (Migrator × Files × Option Dumped)
unfolding dump_from save_state restore_state
dump_shard w entries fs saved m = do
  r ← restore_state saved m
  if r.1
      then ok (r.0, fs, saved)
      else if is_empty entries
      then ok (record m { done = true }, fs, saved)
      else do
        let ps = map (dumped_file w) (dump_from w [] entries)
        let d : Migrator = record m {
          largest_keys = m.largest_keys ++ map (λ p. p.1) ps;
          total = length ps;
          done = if leb (length ps) m.num then true else m.done;
        }
        assert (length d.largest_keys == d.total)
        ok (d, write_files ps fs, some (save_state d))

abbrev pub remove_file : Option ℕ → Files → Files
remove_file none fs = fs
remove_file (some k) fs = λ j. if k == j then none else fs j

-- ClearState: the saved state is deleted, and the last file
unfoldable pub clear_state : Migrator → Files → Files × Option Dumped
clear_state m fs = (remove_file m.filename_ fs, none)

-- `if (!in_.is_open())`: the file sent before is removed, and the next one opened
unfoldable pub open_input : Files → Migrator → Run (Files × Migrator × Bytes)
open_input fs m = elim m.in_ [
  | some unread ↦ ok (fs, m, unread)
  | none ↦
      let left = remove_file m.filename_ fs in
      do unread ← or_abort (left m.num); ok (left, record m { filename_ = some m.num }, unread)
]

-- the rest of ReadChunk, once the file is open; a read that ends before the buffer is full sets eof
unfoldable pub read_open : Migrator → Bytes → Run (Response × Migrator)
read_open m unread =
    let chunk = take buffer_size unread in
    if ltb (length unread) buffer_size
    then (do
      key ← or_abort (get_elem? m.largest_keys m.num)
      ok (
        record { eof = true; finished = false; chunk = chunk; largest_key = key },
        record m {
          num = suc m.num;
          in_ = none;
          done = if suc m.num == m.total then true else m.done;
        },
      ))
    else ok
        (record empty_response { chunk = chunk }, record m { in_ = some (drop buffer_size unread) })

-- ShardMigrator::ReadChunk: none where it returns false
unfoldable pub read_chunk : Files → Migrator → Run (Option Response × Files × Migrator)
unfolding open_input read_open
read_chunk fs m =
    if m.finished
    then ok (none, fs, m)
    else if m.done
    then ok (some (record empty_response { finished = true }), fs, record m { finished = true })
    else do o ← open_input fs m; r ← read_open o.1 o.2; ok (some r.0, o.0, r.1)

-- The file that filename_ names, if any, holds `written`; the database holds what SaveState left.
pub record Importer : Type 0 where
  pub filename_ : Option ℕ
  pub written : Bytes
  pub largest_key : Bytes
  pub is_open : Bool
  pub num : ℕ

-- `next_num`, `largest_key` and `filename` in the database
pub record Saved : Type 0 where
  pub next_num : ℕ
  pub largest_key : Bytes
  pub filename : Option ℕ

unfoldable pub importer : Option Saved → Importer
importer none = record {
  filename_ = none;
  written = [];
  largest_key = [];
  is_open = false;
  num = 0;
}
importer (some s) = record {
  filename_ = s.filename;
  written = [];
  largest_key = s.largest_key;
  is_open = false;
  num = s.next_num;
}

abbrev pub save_importer : Importer → Saved
save_importer i = record { next_num = i.num; largest_key = i.largest_key; filename = i.filename_ }

-- `if (!out_.is_open())`
unfoldable pub open_output : Importer → Importer
open_output i =
    if i.is_open
    then i
    else record i { filename_ = some i.num; written = []; is_open = true; num = suc i.num }

-- ShardImporter::WriteChunk, and what it leaves in the database
unfoldable pub write_chunk : Importer → Option Saved → Response → Importer × Option Saved × Bool
unfolding open_output
write_chunk i saved r =
    let o = open_output i in
    let appended : Importer = record o { written = o.written ++ r.chunk } in
    if r.eof
    then (let closed : Importer = record appended {
      largest_key = r.largest_key;
      is_open = false;
    } in
        (closed, some (save_importer closed), true))
    else (appended, saved, false)

-- What the loop of WatchThread has after the messages: the importer, its saved state, and the files that it has
-- called Ingest with, each with its largest key.
pub record Received : Type 0 where
  pub importer : Importer
  pub saved : Option Saved
  pub ingested : List (Bytes × Bytes)

-- the body of the loop
unfoldable pub receive_one : Received → Response → Received
unfolding write_chunk
receive_one s r =
    let (i, saved, ready) = write_chunk s.importer s.saved r in
    record {
      importer = i;
      saved = saved;
      ingested = if ready then s.ingested ++ (i.written, i.largest_key) ∷ [] else s.ingested;
    }

-- `do { if (response.finished()) break; … } while (stream->Read(&response))`
unfoldable pub receive : Received → List Response → Received
unfolding receive_one
receive s [] = s
receive s (r ∷ rs) = if r.finished then s else receive (receive_one s r) rs
