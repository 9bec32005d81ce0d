-- ===== src/Tests/Cluster.antt =====
-- A cluster of two nodes, the second without shards, before and during its first migration.
use crocks.Prelude.{
  ℕ, zero, suc, ◌<◌, ◌≡◌, ◌≢◌, refl, inl, true, false, [], ◌∷◌, some, arith, get_elem?, set, count,
  pos, negsuc, Bytes, ok, abort,
}
use crocks.Cluster.{
  NodeInfo, ShardInfo, ClusterInfo, State, shards, future, index_of, no_migrations, is_migrating,
  tasks,
}
use crocks.Cluster.Valid.{has_master, IsLive, IsMigration, IsValid, IsPhased}
use crocks.Cluster.Update.{
  new_shard, add_node, add_node_with_new_shards, remove_node, give_shard, migration_over,
}
use crocks.Cluster.Update.Nodes.{
  add_node-IsValid, add_node_with_new_shards-IsValid, remove_node-IsValid,
}
use crocks.Cluster.Update.Migration.{give_shard-IsValid, migration_over-IsPhased}
use crocks.Cluster.Redistribute.{is_staying, redistribute_shards}
use crocks.Cluster.Redistribute.Balance.{IsEvened, redistribute_shards-IsEvened}

abbrev pub node : Bytes → ℕ → ℕ → NodeInfo
node address id num = record {
  address = address;
  id = id;
  num_shards = pos num;
  available = true;
  remove = false;
}

abbrev pub empty : ClusterInfo
empty = record { state = State.init; nodes = []; shards = [] }

abbrev pub sample : ClusterInfo
sample = record {
  state = State.running;
  nodes = node (1 ∷ []) 0 3 ∷ node (2 ∷ []) 1 0 ∷ [];
  shards = new_shard 0 ∷ new_shard 0 ∷ new_shard 0 ∷ [];
}

abbrev pub leaving_shard : ShardInfo
leaving_shard = record { master = 0; migrating = true; from = 0; to = 1 }

abbrev pub moving : ClusterInfo
moving = record sample {
  state = State.migrating;
  shards = leaving_shard ∷ new_shard 0 ∷ new_shard 0 ∷ [];
}

redistributed : redistribute_shards sample ≡ ok (record moving { state = State.running })
unfolding redistribute_shards count
redistributed = refl

given_and_over :
    (give_shard moving (pos 0) (pos 0)
      ≡ ok (record moving {
        nodes = node (1 ∷ []) 0 2 ∷ node (2 ∷ []) 1 1 ∷ [];
        shards = record leaving_shard { master = 1 } ∷ new_shard 0 ∷ new_shard 0 ∷ [];
      }))
    × (migration_over moving (pos 0) ≡ ok sample)
    × (give_shard sample (pos 0) (pos 0) ≡ abort)
unfolding give_shard migration_over
given_and_over = (refl, refl, refl)

queries :
    (shards sample (pos 0) ≡ ok (0 ∷ 1 ∷ 2 ∷ []))
    × (future moving (pos 1) ≡ ok (0 ∷ []))
    × (tasks moving (pos 1) ≡ ok ((0, 0 ∷ []) ∷ []))
    × (index_of sample (2 ∷ []) ≡ pos 1)
    × (index_of sample (3 ∷ []) ≡ negsuc 0)
unfolding shards future tasks index_of
queries = (refl, refl, refl, refl, refl)

pub empty-IsValid : IsValid [] []
unfolding count
empty-IsValid = record {
  ids = λ k n e l. absurd (cc e);
  counts = λ k n e. absurd (cc e);
  owned = λ j s e. absurd (cc e);
  moves = λ j s e m. absurd (cc e);
}

first-IsValid : IsValid (node (1 ∷ []) 0 3 ∷ []) sample.shards
unfolding add_node_with_new_shards
first-IsValid = add_node_with_new_shards-IsValid empty (1 ∷ []) 3 empty-IsValid refl

pub sample-IsValid : IsValid sample.nodes sample.shards
unfolding add_node
sample-IsValid =
    add_node-IsValid
      (record { state = State.running; nodes = node (1 ∷ []) 0 3 ∷ []; shards = sample.shards })
      (2 ∷ []) first-IsValid

both_live : (s : ShardInfo) → s.master ≡ 0 → s.from ≡ 0 → s.to ≡ 1 → IsMigration moving.nodes s
both_live s m f t = record {
  apart = λ e. absurd (omega (arith, f, t, e));
  giver = rw f (node (1 ∷ []) 0 3, refl, refl);
  taker = rw t (node (2 ∷ []) 1 0, refl, refl);
  owner = inl (ground arith);
}

moving_moves :
    (j : ℕ) (s : ShardInfo)
    → get_elem? moving.shards j ≡ some s
    → s.migrating ≡ true
    → IsMigration moving.nodes s
moving_moves zero s e m = both_live s (ground arith) (ground arith) (ground arith)
moving_moves (suc zero) s e m = absurd (ground arith)
moving_moves (suc (suc zero)) s e m = absurd (ground arith)
moving_moves (suc (suc (suc j))) s e m = absurd (cc e)

pub moving-IsValid : IsValid moving.nodes moving.shards
unfolding count
moving-IsValid = record {
  ids = sample-IsValid.ids;
  counts = sample-IsValid.counts;
  owned = moving_owned;
  moves = moving_moves;
}
  where
    moving_owned :
        (j : ℕ) (s : ShardInfo) → get_elem? moving.shards j ≡ some s → IsLive moving.nodes s.master
    moving_owned zero s e =
        let same : s.master ≡ 0 = ground arith in rw same (node (1 ∷ []) 0 3, refl, refl)
    moving_owned (suc j) s e = sample-IsValid.owned (suc j) s e

still : no_migrations sample ≡ true
unfolding no_migrations
still = refl

pub sample-IsPhased : IsPhased sample
unfolding no_migrations is_migrating
sample-IsPhased = refl

pub moving-IsPhased : IsPhased moving
unfolding no_migrations is_migrating
moving-IsPhased = refl

pub both_stay : 0 < count is_staying sample.nodes
unfolding count
both_stay = omega arith

redistribute_shards-IsEvened_example :
    (d : ClusterInfo) × (redistribute_shards sample ≡ ok d) × IsEvened sample d
redistribute_shards-IsEvened_example =
    redistribute_shards-IsEvened sample sample-IsValid still both_stay

give_shard-IsValid_example :
    (d : ClusterInfo) × (give_shard moving (pos 0) (pos 0) ≡ ok d)
    × (d.shards ≡ set moving.shards 0 (record leaving_shard { master = 1 }))
    × (d.state ≡ State.migrating)
    × IsValid d.nodes d.shards
    × (give_shard d (pos 0) (pos 0) ≡ ok d)
give_shard-IsValid_example = give_shard-IsValid moving 0 leaving_shard moving-IsValid refl refl refl

migration_over-IsPhased_example :
    (d : ClusterInfo) × (migration_over moving (pos 0) ≡ ok d)
    × (d.shards ≡ sample.shards)
    × IsValid d.nodes d.shards
    × IsPhased d
migration_over-IsPhased_example =
    migration_over-IsPhased moving 0 leaving_shard moving-IsValid moving-IsPhased refl refl

none_owned : count (has_master 1) sample.shards ≡ 0
unfolding count
none_owned = refl

sample_untouched :
    (j : ℕ) (s : ShardInfo)
    → get_elem? sample.shards j ≡ some s
    → s.migrating ≡ true
    → (s.from ≢ 1) × (s.to ≢ 1)
sample_untouched zero s e m = absurd (ground arith)
sample_untouched (suc zero) s e m = absurd (ground arith)
sample_untouched (suc (suc zero)) s e m = absurd (ground arith)
sample_untouched (suc (suc (suc j))) s e m = absurd (cc e)

remove_node-IsValid_example :
    (d : ClusterInfo) × (remove_node sample (pos 1) ≡ ok d) × IsValid d.nodes d.shards
remove_node-IsValid_example =
    remove_node-IsValid sample 1 sample-IsValid (omega arith) none_owned sample_untouched
