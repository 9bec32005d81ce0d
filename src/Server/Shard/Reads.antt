-- ===== src/Server/Shard/Reads.antt =====
-- Get and Ingest of Shard (src/server/shards.cc) while a shard is being imported.
use crocks.Prelude.{
  ◌≡◌, ◌≢◌, refl, ap, true, false, Option, none, some, Bytes, blt, if◌then◌else◌, Bool-cases, inl,
  inr,
}
use crocks.Server.Shard.{RocksDb, Entry, entry_value, behind, Shard, get}

-- `old` is what the former master had when it gave the shard, and `recent` what has been written since.
module _ (db : RocksDb) (recent old : Bytes → Option Entry) where
  -- Up to the largest key ingested, the shard has what was written since, and behind it what the
  -- former master had; past it, only what was written since.
  pub record IsImported (s : Shard db) : Type 0 where
    pub upto :
        (k : Bytes) → blt s.largest_key k ≡ false → db.entry s.cf k ≡ behind (recent k) (old k)
    pub past : (k : Bytes) → blt s.largest_key k ≡ true → db.entry s.cf k ≡ recent k

  answer-past :
      (new : Option Entry) (k : Bytes)
      → new ≢ some Entry.deleted
      → (if elim (entry_value new) [ none ↦ true | some v ↦ false ]
          then entry_value (old k)
          else entry_value new)
        ≡ entry_value (behind new (old k))
  answer-past none k h = refl
  answer-past (some (Entry.value v)) k h = refl
  answer-past (some Entry.deleted) k h = absurd (h refl)

  -- While a shard is being imported, and a key has not been deleted since the shard was given, the
  -- value that Get finds, or the former master's where Get says to ask it, is the newest one.
  pub get-behind :
      (s : Shard db) (k : Bytes)
      → IsImported s
      → s.importing ≡ true
      → recent k ≢ some Entry.deleted
      → (if (get db s k).1 then entry_value (old k) else (get db s k).0)
        ≡ entry_value (behind (recent k) (old k))
  unfolding get
  get-behind s k i on kept = elim (Bool-cases (blt s.largest_key k)) [
    | inl later ↦ rw (on, later, i.past k later) (answer-past (recent k) k kept)
    | inr before ↦ rw (on, before) (ap entry_value (i.upto k before))
  ]

  -- what a file is to hold that continues the import up to a key
  abbrev pub between : Bytes → Bytes → Bytes → Option Entry
  between last key k = if blt last k then (if blt key k then none else old k) else none
