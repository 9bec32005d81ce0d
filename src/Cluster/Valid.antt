-- ===== src/Cluster/Valid.antt =====
-- When the cluster info (src/proto/info.proto) is valid.
use crocks.Prelude.{
  ℕ, ◌≡◌, ◌≢◌, ◌⊎◌, Bool, true, false, not, List, [], ◌∷◌, zero, suc, some, arith, get_elem?, count,
  is_empty, pos, ◌==◌,
}
use crocks.Cluster.{NodeInfo, ShardInfo, ClusterInfo, is_migrating, no_migrations, none_migrating}

-- A node that has shut down leaves an empty entry behind.
abbrev pub is_live : NodeInfo → Bool
is_live node = not (is_empty node.address)

abbrev pub has_master : ℕ → ShardInfo → Bool
has_master k s = s.master == k

abbrev pub IsLive : List NodeInfo → ℕ → Type 0
IsLive nodes k = (node : NodeInfo) × (get_elem? nodes k ≡ some node) × (is_live node ≡ true)

-- A migration goes from one live node to another, and the shard is still with the one or already
-- with the other.
pub record IsMigration (nodes : List NodeInfo) (s : ShardInfo) : Type 0 where
  pub apart : s.from ≢ s.to
  pub giver : IsLive nodes s.from
  pub taker : IsLive nodes s.to
  pub owner : (s.master ≡ s.from) ⊎ (s.master ≡ s.to)

pub record IsValid (nodes : List NodeInfo) (shards : List ShardInfo) : Type 0 where
  -- the id of a live node is its index
  pub ids :
      (k : ℕ) (node : NodeInfo) → get_elem? nodes k ≡ some node → is_live node ≡ true → node.id ≡ k
  -- num_shards counts the shards that a node has
  pub counts :
      (k : ℕ) (node : NodeInfo)
      → get_elem? nodes k ≡ some node
      → node.num_shards ≡ pos (count (has_master k) shards)
  -- every shard has a live master
  pub owned : (j : ℕ) (s : ShardInfo) → get_elem? shards j ≡ some s → IsLive nodes s.master
  pub moves :
      (j : ℕ) (s : ShardInfo)
      → get_elem? shards j ≡ some s
      → s.migrating ≡ true
      → IsMigration nodes s

-- The state is MIGRATING just while some shard migrates.
abbrev pub IsPhased : ClusterInfo → Type 0
IsPhased c = is_migrating c ≡ not (no_migrations c)

pub none_migrating-get :
    (ss : List ShardInfo) (j : ℕ) (s : ShardInfo)
    → none_migrating ss ≡ true
    → get_elem? ss j ≡ some s
    → s.migrating ≡ false
unfolding none_migrating
none_migrating-get [] j s h e = absurd (cc e)
none_migrating-get (t ∷ ss) zero s h e = ground arith
none_migrating-get (t ∷ ss) (suc j) s h e = none_migrating-get ss j s (ground arith) e
