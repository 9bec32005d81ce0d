-- ===== src/Tests/Giving.antt =====
-- A shard with one pair is written, given and dumped.
use crocks.Prelude.{
  ◌≡◌, refl, inl, true, false, List, [], ◌∷◌, none, some, map, pos, ◌+ℤ◌, ◌-ℤ◌, ok, beq,
}
use crocks.Server.Shard.{Shard, opened, ref, unref, put, shard_at, entry_value}
use crocks.Server.Shard.Refs.{Steps}
use crocks.Server.Migrate.{Response, Migrator, migrator, Pair, dump_from, dumped_file, receive}
use crocks.Server.Migrate.Messages.{Sends}
use crocks.Server.Migrate.Dump.{concat}
use crocks.Server.Giving.{MigrateCall, GivingStatus, dump}
use crocks.Server.Giving.Handover.{dump-receive}
use crocks.Tests.Wire.{wire}
use crocks.Tests.Store.{table}
use crocks.Tests.Info.{giver, holding}
use crocks.Tests.Cluster.{moving}
use crocks.Tests.Server.{memory, fresh, writer, waiting}

-- an iterator that looks for one key
abbrev pairs_of : memory.Cf → List Pair
pairs_of f = elim (entry_value (f (5 ∷ []))) [ none ↦ [] | some v ↦ (5 ∷ [], v) ∷ [] ]

abbrev written : Shard memory
written = put memory (ref memory fresh).0 (5 ∷ []) (9 ∷ [])

abbrev loaded : Shard memory
loaded = record fresh { cf = memory.put memory.created (5 ∷ []) (9 ∷ []) }

abbrev drained : Shard memory
drained = record loaded { refs = pos 0; migrating = true; zero_refs = true }

to_drained : Steps memory fresh 0 drained 0
unfolding opened ref put unref ◌+ℤ◌ ◌-ℤ◌
to_drained =
    Steps.migrate loaded drained 0 true
      (Steps.give_back written loaded 0 true
        (Steps.write (ref memory fresh).0 0 (5 ∷ []) (9 ∷ []) (Steps.take fresh 0 Steps.stay refl))
        refl)
      refl

abbrev call : MigrateCall table wire memory writer pairs_of
call = record {
  shards = (0, drained) ∷ [];
  info = giver;
  store = holding moving;
  files = λ k. none;
  saved = none;
  shard_id = 0;
  sender = some (migrator 0);
  waiting = true;
  sent = none;
  rejected = false;
  status = GivingStatus.write;
  stopped = false;
}

dump-receive_example :
    (d : MigrateCall table wire memory writer pairs_of) × (m : Migrator) × (msgs : List Response)
    × (dump table wire memory writer pairs_of call ≡ ok d)
    × (d.sender ≡ some m)
    × Sends d.files m msgs
    × ((receive (waiting 0) msgs).ingested
        ≡ map (dumped_file writer) (dump_from writer [] (pairs_of drained.cf)))
    × (concat (dump_from writer [] (pairs_of drained.cf)) ≡ pairs_of drained.cf)
    × (ref memory drained ≡ (drained, false))
unfolding shard_at beq
dump-receive_example =
    dump-receive table wire memory writer pairs_of call fresh drained drained 0 0 (waiting 0)
      (inl (memory.created, refl)) to_drained refl Steps.stay refl refl refl refl (refl, refl)
