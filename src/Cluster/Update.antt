-- ===== src/Cluster/Update.antt =====
-- The methods of InfoWrapper that change the cluster info (src/common/info_wrapper.cc), each with
-- its asserts, apart from RedistributeShards.
pub mod Nodes
pub mod Migration
use crocks.Prelude.{
  ℕ, Bool, true, false, not, [], ◌∷◌, ◌++◌, length, set, replicate, Bytes, is_empty, ℤ, pos, negsuc,
  pos_part, ◌+ℤ◌, ◌-ℤ◌, if◌then◌else◌, Run, ok, ◌>>=◌, ◌>>◌, assert, at,
}
use crocks.Cluster.{NodeInfo, ShardInfo, ClusterInfo, State, is_id, is_state, none_migrating}

-- a write through mutable_nodes(id), where reading the index has succeeded
abbrev pub set_node : ClusterInfo → ℤ → NodeInfo → ClusterInfo
set_node c (pos i) n = record c { nodes = set c.nodes i n }
set_node c (negsuc i) n = c

abbrev pub set_shard : ClusterInfo → ℤ → ShardInfo → ClusterInfo
set_shard c (pos i) s = record c { shards = set c.shards i s }
set_shard c (negsuc i) s = c

abbrev pub empty_node : NodeInfo
empty_node = record { address = []; id = 0; num_shards = pos 0; available = false; remove = false }

abbrev pub new_shard : ℕ → ShardInfo
new_shard id = record { master = id; migrating = false; from = 0; to = 0 }

unfoldable pub set_state : ClusterInfo → State → ClusterInfo
set_state c s = record c { state = s }

unfoldable pub add_node : ClusterInfo → Bytes → ClusterInfo × ℕ
add_node c address =
    let id = length c.nodes in
    let node : NodeInfo = record empty_node { address = address; id = id; available = true } in
    (record c { nodes = c.nodes ++ node ∷ [] }, id)

-- A loop up to a negative number of shards makes no round.
unfoldable pub add_node_with_new_shards : ClusterInfo → Bytes → ℤ → ClusterInfo × ℕ
add_node_with_new_shards c address num_shards =
    let id = length c.nodes in
    let node : NodeInfo = record empty_node {
      address = address;
      id = id;
      num_shards = num_shards;
      available = true;
    } in
    (
      record c {
        nodes = c.nodes ++ node ∷ [];
        shards = c.shards ++ replicate (pos_part num_shards) (new_shard id);
      },
      id,
    )

unfoldable pub mark_remove_node : ClusterInfo → ℤ → Run ClusterInfo
mark_remove_node c id = do
  node ← at c.nodes id
  if is_empty node.address then ok c else ok (set_node c id (record node { remove = true }))

unfoldable pub remove_node : ClusterInfo → ℤ → Run ClusterInfo
remove_node c id = do _ ← at c.nodes id; ok (set_node c id empty_node)

-- The two nodes get one shard less and one shard more.
unfoldable pub move_count : ClusterInfo → ℕ → ℕ → Run ClusterInfo
move_count c from to = do
  giver ← at c.nodes (pos from)
  _ ← at c.nodes (pos to)
  let given = set_node c (pos from) (record giver { num_shards = giver.num_shards -ℤ pos 1 })
  taker ← at given.nodes (pos to)
  ok (set_node given (pos to) (record taker { num_shards = taker.num_shards +ℤ pos 1 }))

unfoldable pub give_shard : ClusterInfo → ℤ → ℤ → Run ClusterInfo
unfolding move_count ◌+ℤ◌ ◌-ℤ◌
give_shard c id shard_id = do
  shard ← at c.shards shard_id
  if not (is_id shard.master id) then ok c else do
    assert shard.migrating
    assert (is_id shard.from id)
    assert (not (is_id shard.to id))
    move_count (set_shard c shard_id (record shard { master = shard.to })) shard.from shard.to

unfoldable pub migration_over : ClusterInfo → ℤ → Run ClusterInfo
unfolding none_migrating set_state
migration_over c shard_id = do
  shard ← at c.shards shard_id
  let d = set_shard c shard_id (record shard { migrating = false; from = 0; to = 0 })
  if not (none_migrating d.shards)
      then ok d
      else do assert (is_state d.state State.migrating); ok (set_state d State.running)

unfoldable pub set_available : ClusterInfo → ℤ → Bool → Run ClusterInfo
set_available c id available = do
  node ← at c.nodes id
  ok (set_node c id (record node { available = available }))
