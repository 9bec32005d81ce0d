-- ===== src/Tests/Batch.antt =====
-- A batch of one update.
use crocks.Prelude.{ℕ, refl, true, [], ◌∷◌, Bytes}
use crocks.Status.{StatusCode}
use crocks.Server.Shard.{ShardMap}
use crocks.Server.Batch.{
  BatchUpdate, Operation, WriteBatch, CallStatus, BatchCall, batch_call, proceed, first_buffer,
}
use crocks.Server.Batch.References.{Reaches, IsReferenced, Reaches-IsReferenced}
use crocks.Tests.Server.{memory, fresh}

abbrev one_shard : ShardMap memory
one_shard = (0, fresh) ∷ []

abbrev first_shard : Bytes → ℕ
first_shard key = 0

abbrev always : WriteBatch → StatusCode
always w = StatusCode.fine

abbrev update : BatchUpdate
update = record { op = Operation.put; key = 1 ∷ []; value = 2 ∷ [] }

abbrev reading : BatchCall memory
reading = record (batch_call memory one_shard) { status = CallStatus.read }

abbrev referenced : BatchCall memory
referenced = first_buffer memory reading 0 (update ∷ [])

began : Reaches memory first_shard always one_shard reading
unfolding proceed batch_call
began = Reaches.event (batch_call memory one_shard) reading true [] Reaches.begin refl

came : Reaches memory first_shard always one_shard referenced
unfolding proceed batch_call
came = Reaches.event reading referenced true (update ∷ []) began refl

Reaches-IsReferenced_example : IsReferenced memory first_shard always referenced
Reaches-IsReferenced_example =
    Reaches-IsReferenced memory first_shard always one_shard referenced came
