-- ===== src/Server/Batch/References.antt =====
-- The updates in the batch of BatchCall (src/server/async_server.cc) and the references that it has.
use crocks.Prelude.{
  is_in, ℕ, ◌≡◌, Bool, true, false, List, [], ◌∷◌, Option, none, some, Bytes, arith, All,
  All-concat, if◌then◌else◌, Bool-cases, Option-cases, inl, inr, Run, ok, abort, ◌>>=◌, subst,
}
use crocks.Status.{StatusCode}
use crocks.Server.Shard.{RocksDb, ShardMap, shard_at, ref}
use crocks.Server.Batch.{
  BatchUpdate, Operation, WriteBatch, apply_operation, apply_batch_update, apply_updates, BatchCall,
  CallStatus, first_buffer, next_buffer, read_buffer, commit, release, batch_call, proceed_in,
  batch_on_done, proceed,
}

-- what is known of each update in the batch
abbrev pub IsHeld : List ℕ → ℕ × BatchUpdate → Type 0
IsHeld held u = is_in u.0 held ≡ true

apply_operation-All :
    (held : List ℕ) (op : Operation) (batch : WriteBatch) (u : ℕ × BatchUpdate)
    → IsHeld held u
    → All (IsHeld held) batch
    → All (IsHeld held) (apply_operation op batch u)
unfolding apply_operation
apply_operation-All held Operation.put batch u h a = All-concat (IsHeld held) batch u a h
apply_operation-All held Operation.delete batch u h a = All-concat (IsHeld held) batch u a h
apply_operation-All held Operation.single_delete batch u h a = All-concat (IsHeld held) batch u a h
apply_operation-All held Operation.merge batch u h a = All-concat (IsHeld held) batch u a h
apply_operation-All held Operation.clear batch u h a = tt

apply_updates-All :
    (held : List ℕ) (batch : WriteBatch) (id : ℕ) (us : List BatchUpdate)
    → is_in id held ≡ true
    → All (IsHeld held) batch
    → All (IsHeld held) (apply_updates batch id us)
unfolding apply_updates apply_batch_update
apply_updates-All held batch id [] h a = a
apply_updates-All held batch id (u ∷ us) h a =
    apply_updates-All held (apply_batch_update batch id u) id us h
      (apply_operation-All held u.op batch (id, u) h a)

All-more :
    (held : List ℕ) (k : ℕ) (batch : WriteBatch)
    → All (IsHeld held) batch
    → All (IsHeld (k ∷ held)) batch
All-more held k [] a = tt
All-more held k (u ∷ batch) (h, a) = (ground arith, All-more held k batch a)

module _ (db : RocksDb) (shard_for_key : Bytes → ℕ) (write_status : WriteBatch → StatusCode) where
  abbrev pub AllWritten : List ℕ → Option WriteBatch → Type 0
  AllWritten held none = Unit
  AllWritten held (some w) = All (IsHeld held) w

  -- The shards of all updates in the batch, and of those that were written, are referenced.
  abbrev pub IsReferenced : BatchCall db → Type 0
  IsReferenced b = All (IsHeld b.got_ref) b.batch × AllWritten b.got_ref b.written

  AllWritten-more :
      (held : List ℕ) (k : ℕ) (w : Option WriteBatch) → AllWritten held w → AllWritten (k ∷ held) w
  AllWritten-more held k none a = tt
  AllWritten-more held k (some w) a = All-more held k w a

  abbrev Afterwards : Run (BatchCall db) → Type 0
  Afterwards abort = Unit
  Afterwards (ok b) = IsReferenced b

  first_buffer-IsReferenced :
      (b : BatchCall db) (id : ℕ) (us : List BatchUpdate)
      → IsReferenced b
      → IsReferenced (first_buffer db b id us)
  unfolding first_buffer
  first_buffer-IsReferenced b id us (a, w) = elim (Option-cases (shard_at db b.shards id)) [
    | inl missing ↦ rw (missing, first_buffer) (a, w)
    | inr (s, here) ↦ elim (Bool-cases (ref db s).1) [
      | inl taken ↦
          rw (here, taken, first_buffer)
            (
              apply_updates-All (id ∷ b.got_ref) b.batch id us (ground arith)
                  (All-more b.got_ref id b.batch a),
              AllWritten-more b.got_ref id b.written w,
            )
      | inr refused ↦ rw (here, refused, first_buffer) (a, w)
    ]
  ]

  next_buffer-Afterwards :
      (b : BatchCall db) (id : ℕ) (us : List BatchUpdate)
      → is_in id b.got_ref ≡ true
      → IsReferenced b
      → Afterwards (next_buffer db b id us)
  unfolding next_buffer
  next_buffer-Afterwards b id us h (a, w) = elim (Option-cases (shard_at db b.shards id)) [
    | inl missing ↦ rw (missing, next_buffer) tt
    | inr (s, here) ↦ rw (here, next_buffer) (apply_updates-All b.got_ref b.batch id us h a, w)
  ]

  read_buffer-Afterwards :
      (b : BatchCall db) (us : List BatchUpdate)
      → IsReferenced b
      → Afterwards (read_buffer db shard_for_key b us)
  unfolding read_buffer
  read_buffer-Afterwards b [] safe = tt
  read_buffer-Afterwards b (u ∷ us) safe =
      let id = shard_for_key u.key in
      elim (Bool-cases (is_in id b.got_ref)) [
        | inl held ↦ rw (held, read_buffer) (next_buffer-Afterwards b id (u ∷ us) held safe)
        | inr new ↦ rw (new, read_buffer) (first_buffer-IsReferenced b id (u ∷ us) safe)
      ]

  release-Afterwards :
      (b : BatchCall db)
      → IsReferenced b
      → (r : Run (ShardMap db))
      → Afterwards (
          r >>= λ m. ok (record b { shards = m; finish_called = true; deleted = b.on_done_called }))
  release-Afterwards b safe (ok m) = safe
  release-Afterwards b safe abort = tt

  proceed_in-Afterwards :
      (status : CallStatus) (b : BatchCall db) (is_ok : Bool) (us : List BatchUpdate)
      → IsReferenced b
      → Afterwards (proceed_in db status shard_for_key write_status b is_ok us)
  unfolding proceed_in commit
  proceed_in-Afterwards CallStatus.request b true us safe = safe
  proceed_in-Afterwards CallStatus.request b false us safe = safe
  proceed_in-Afterwards CallStatus.read b true us safe = read_buffer-Afterwards b us safe
  proceed_in-Afterwards CallStatus.read b false us safe = (safe.0, safe.0)
  proceed_in-Afterwards CallStatus.write b is_ok us safe = safe
  proceed_in-Afterwards CallStatus.finish b is_ok us safe =
      release-Afterwards b safe (release db b.shards b.got_ref)

  -- The states that a call comes to, event by event, each with its `ok` and the request read by then;
  -- OnDone may be called at any time.
  pub data Reaches (shards : ShardMap db) : BatchCall db → Type 0 where
    begin : Reaches shards (batch_call db shards)
    event :
        (b c : BatchCall db) (is_ok : Bool) (us : List BatchUpdate)
        → Reaches shards b
        → proceed db shard_for_key write_status b is_ok us ≡ ok c
        → Reaches shards c
    done : (b : BatchCall db) → Reaches shards b → Reaches shards (batch_on_done db b)

  batch_on_done-IsReferenced :
      (b : BatchCall db) → IsReferenced b → IsReferenced (batch_on_done db b)
  unfolding batch_on_done
  batch_on_done-IsReferenced b safe = by_finish b.finish_called
    where
      by_finish :
          (x : Bool)
          → let d : BatchCall db = record b { on_done_called = true } in
            IsReferenced
              (if x then record d { deleted = true } else record d { status = CallStatus.finish })
      by_finish true = safe
      by_finish false = safe

  -- In each state that a batch call comes to, the call has got a reference on the shard of each
  -- update in its batch, and of each update that it has written to the database.
  pub Reaches-IsReferenced :
      (shards : ShardMap db) (b : BatchCall db) → Reaches shards b → IsReferenced b
  unfolding batch_call proceed
  Reaches-IsReferenced shards b begin = (tt, tt)
  Reaches-IsReferenced shards c (event b _ is_ok us path e) =
      subst Afterwards e
        (proceed_in-Afterwards b.status b is_ok us (Reaches-IsReferenced shards b path))
  Reaches-IsReferenced shards _ (done b path) =
      batch_on_done-IsReferenced b (Reaches-IsReferenced shards b path)
