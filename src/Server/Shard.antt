-- ===== src/Server/Shard.antt =====
-- The classes Shard and Shards (src/server/shards.h, src/server/shards.cc). Their locks make each
-- method one step.
pub mod Refs
pub mod Reads
use crocks.Prelude.{
  ℕ, Bool, true, false, not, ◌&&◌, List, [], ◌∷◌, Option, none, some, map, Bytes, blt, ◌≡◌, ℤ, pos,
  ◌+ℤ◌, ◌-ℤ◌, is_zero, ◌==◌, if◌then◌else◌, Run, ok, abort, ◌>>=◌,
}

-- What a column family has for a key: a value, or the mark of a deletion.
pub data Entry : Type 0 where
  value : Bytes → Entry
  deleted : Entry

abbrev pub entry_value : Option Entry → Option Bytes
entry_value none = none
entry_value (some (Entry.value v)) = some v
entry_value (some Entry.deleted) = none

abbrev pub behind : Option Entry → Option Entry → Option Entry
behind none old = old
behind (some e) old = some e

pub data Ingestion : Type 0 where
  ingested : Ingestion
  io_error : Ingestion
  other_error : Ingestion

-- RocksDB, as its manual documents the calls in use: Get finds the value that was put last, unless
-- the key was deleted since; a file ingested behind is hidden by every entry that is there, also
-- by deletions; a call that fails with an IOError leaves the column family as it was. `contents`
-- is what the files of the node's directory hold.
pub record RocksDb : Type 1 where
  pub Cf : Type 0
  pub created : Cf
  pub entry : Cf → Bytes → Option Entry
  pub put : Cf → Bytes → Bytes → Cf
  pub delete : Cf → Bytes → Cf
  pub contents : Bytes → Bytes → Option Entry
  pub ingest_behind : Cf → Bytes → Cf × Ingestion
  pub entry-created : (k : Bytes) → entry created k ≡ none
  pub entry-put : (f : Cf) (k v : Bytes) → entry (put f k v) k ≡ some (Entry.value v)
  pub entry-delete : (f : Cf) (k : Bytes) → entry (delete f k) k ≡ some Entry.deleted
  pub entry-ingest :
      (f : Cf) (file k : Bytes)
      → (ingest_behind f file).1 ≡ ingested
      → entry (ingest_behind f file).0 k ≡ behind (entry f k) (contents file k)
  pub ingest-fails :
      (f : Cf) (file : Bytes) → (ingest_behind f file).1 ≡ io_error → (ingest_behind f file).0 ≡ f

module _ (db : RocksDb) where
  open db use {Cf}

  -- `zero_refs` says that set_value has been called on the promise, `retrieved` that get_future has.
  pub record Shard : Type 0 where
    pub cf : Cf
    pub importing : Bool
    pub migrating : Bool
    pub refs : ℤ
    pub zero_refs : Bool
    pub retrieved : Bool
    pub old_address : Bytes
    pub largest_key : Bytes

  -- the two constructors
  unfoldable pub opened : Cf → Shard
  opened cf = record {
    cf = cf;
    importing = false;
    migrating = false;
    refs = pos 1;
    zero_refs = false;
    retrieved = false;
    old_address = [];
    largest_key = [];
  }

  unfoldable pub imported_from : Bytes → Shard
  unfolding opened
  imported_from address = record (opened db.created) { importing = true; old_address = address }

  unfoldable pub set_importing : Shard → Bool → Shard
  set_importing s on = record s { importing = on }

  unfoldable pub set_largest_key : Shard → Bytes → Shard
  set_largest_key s key = record s { largest_key = key }

  -- Shard::Get: what the database answers, and *ask
  unfoldable pub get : Shard → Bytes → Option Bytes × Bool
  get s key =
      let not_ingested_up_to_key = blt s.largest_key key in
      let found = entry_value (db.entry s.cf key) in
      (
        found,
        s.importing && (not_ingested_up_to_key && elim found [ none ↦ true | some v ↦ false ]),
      )

  unfoldable pub put : Shard → Bytes → Bytes → Shard
  put s key v = record s { cf = db.put s.cf key v }

  unfoldable pub delete : Shard → Bytes → Shard
  delete s key = record s { cf = db.delete s.cf key }

  -- An IOError is skipped; any other failure ends the process.
  unfoldable pub ingest : Shard → Bytes → Bytes → Run Shard
  ingest s file key =
      let (cf, status) = db.ingest_behind s.cf file in
      elim status [
        | ingested ↦ ok (record s { cf = cf; largest_key = key })
        | io_error ↦ ok (record s { cf = cf; largest_key = key })
        | other_error ↦ abort
      ]

  unfoldable pub ref : Shard → Shard × Bool
  ref s = if s.migrating then (s, false) else (record s { refs = s.refs +ℤ pos 1 }, true)

  -- A second set_value on the promise throws.
  unfoldable pub unref : Shard → Bool → Run (Shard × Bool)
  unref s migrating =
      if migrating && s.migrating
      then ok (s, false)
      else (let less : Shard = record s {
        refs = s.refs -ℤ pos 1;
        migrating = if migrating then true else s.migrating;
      } in
          if is_zero less.refs
          then (if less.zero_refs then abort else ok (record less { zero_refs = true }, true))
          else ok (less, true))

  -- A second get_future on the promise throws. The caller blocks until the promise is set; the
  -- answer says whether it is set already.
  unfoldable pub wait_refs : Shard → Run (Shard × Bool)
  wait_refs s = if s.retrieved then abort else ok (record s { retrieved = true }, s.zero_refs)

  -- The map of Shards, with the newest entry of a key first.
  abbrev pub ShardMap : Type 0
  ShardMap = List (ℕ × Shard)

  unfoldable pub shard_at : ShardMap → ℕ → Option Shard
  shard_at [] id = none
  shard_at ((k, s) ∷ rest) id = if k == id then some s else shard_at rest id

  unfoldable pub is_shard_map_empty : ShardMap → Bool
  is_shard_map_empty [] = true
  is_shard_map_empty (s ∷ rest) = false

  unfoldable pub remove : ShardMap → ℕ → ShardMap
  remove [] id = []
  remove ((k, s) ∷ rest) id = if k == id then remove rest id else (k, s) ∷ remove rest id

  -- `shards_[id] = shard`
  unfoldable pub insert : ShardMap → ℕ → Shard → ShardMap
  unfolding remove
  insert m id s = (id, s) ∷ remove m id

  unfoldable pub add : ShardMap → ℕ → Bytes → ShardMap × Shard
  unfolding imported_from insert
  add m id old_address = let shard = imported_from old_address in (insert m id shard, shard)

  -- Shards(db, shards), once the column families have been created
  unfoldable pub create_shards : List ℕ → ShardMap → ShardMap
  unfolding opened insert
  create_shards [] m = m
  create_shards (id ∷ ids) m = create_shards ids (insert m id (opened db.created))

  -- Shards(db, handles): the column families that were found on disk; "default" has no number
  unfoldable pub recover_shards : List (Option ℕ × Cf) → ShardMap → ShardMap
  unfolding opened insert
  recover_shards [] m = m
  recover_shards ((none, cf) ∷ cfs) m = recover_shards cfs m
  recover_shards ((some id, cf) ∷ cfs) m = recover_shards cfs (insert m id (opened cf))

  unfoldable pub column_families : ShardMap → List Cf
  column_families [] = []
  column_families ((k, s) ∷ rest) = s.cf ∷ column_families rest
