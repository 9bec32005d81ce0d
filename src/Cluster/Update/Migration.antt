-- ===== src/Cluster/Update/Migration.antt =====
-- GiveShard and MigrationOver (src/common/info_wrapper.cc) and the validity of the cluster info.
use crocks.Prelude.{
  ℕ, ◌+◌, ◌≡◌, ◌∙◌, refl, inl, inr, true, false, some, arith, get_elem?, get_elem?-set, set, count,
  count-set, pos, pos-add_one, pos-sub_one, ◌+ℤ◌, ◌-ℤ◌, ◌==◌, if◌then◌else◌, Bool-cases, ok,
}
use crocks.Cluster.{
  NodeInfo, ShardInfo, ClusterInfo, State, none_migrating, no_migrations, is_migrating,
}
use crocks.Cluster.Valid.{
  is_live, has_master, IsLive, IsMigration, IsValid, IsPhased, none_migrating-get,
}
use crocks.Cluster.Update.Nodes.{set-IsLive}
use crocks.Cluster.Update.{set_shard, move_count, give_shard, migration_over, set_state}

module _ (c : ClusterInfo) (v : IsValid c.nodes c.shards) (j : ℕ) (s : ShardInfo)
    (found : get_elem? c.shards j ≡ some s) (moving : s.migrating ≡ true)
    (kept : s.master ≡ s.from) where
  move : IsMigration c.nodes s
  move = v.moves j s found moving

  giver : NodeInfo
  giver = move.giver.0

  taker : NodeInfo
  taker = move.taker.0

  abbrev given : ShardInfo
  given = record s { master = s.to }

  abbrev less : NodeInfo
  less = record giver { num_shards = giver.num_shards -ℤ pos 1 }

  abbrev more : NodeInfo
  more = record taker { num_shards = taker.num_shards +ℤ pos 1 }

  abbrev after : ClusterInfo
  after = record c {
    nodes = set (set c.nodes s.from less) s.to more;
    shards = set c.shards j given;
  }

  after_shard :
      (i : ℕ) → get_elem? after.shards i ≡ (if j == i then some given else get_elem? c.shards i)
  after_shard i = get_elem?-set c.shards j i given s found

  taker_apart : get_elem? (set c.nodes s.from less) s.to ≡ some taker
  unfolding giver taker
  taker_apart =
      ground
        (arith, get_elem?-set c.nodes s.from s.to less giver move.giver.1, move.taker.1, move.apart)

  after_node :
      (k : ℕ)
      → get_elem? after.nodes k
        ≡ (if s.to == k then some more else if s.from == k then some less else get_elem? c.nodes k)
  unfolding giver taker
  after_node k =
      get_elem?-set (set c.nodes s.from less) s.to k more taker taker_apart
      ∙ ground (arith, get_elem?-set c.nodes s.from k less giver move.giver.1)

  after_count :
      (k : ℕ)
      → count (has_master k) after.shards + (if s.from == k then 1 else 0)
        ≡ count (has_master k) c.shards + (if s.to == k then 1 else 0)
  after_count k = ground (arith, count-set (has_master k) c.shards j given s found)

  after-IsLive : (k : ℕ) → IsLive c.nodes k → IsLive after.nodes k
  unfolding giver taker
  after-IsLive k l =
      set-IsLive (set c.nodes s.from less) s.to taker more taker_apart refl k
        (set-IsLive c.nodes s.from giver less move.giver.1 refl k l)

  after-IsMigration : (t : ShardInfo) → IsMigration c.nodes t → IsMigration after.nodes t
  after-IsMigration t m = record {
    apart = m.apart;
    giver = after-IsLive t.from m.giver;
    taker = after-IsLive t.to m.taker;
    owner = m.owner;
  }

  given-IsMigration : IsMigration after.nodes given
  given-IsMigration = record {
    apart = move.apart;
    giver = after-IsLive s.from move.giver;
    taker = after-IsLive s.to move.taker;
    owner = inr refl;
  }

  after_counts :
      (k : ℕ) (node : NodeInfo)
      → get_elem? after.nodes k ≡ some node
      → node.num_shards ≡ pos (count (has_master k) after.shards)
  unfolding giver taker
  after_counts k node e = ground (
    arith,
    after_node k,
    after_count k,
    move.apart,
    v.counts k node,
    v.counts s.from giver move.giver.1,
    v.counts s.to taker move.taker.1,
    pos-add_one (count (has_master k) c.shards),
    pos-sub_one (count (has_master k) after.shards),
  )

  after_ids :
      (k : ℕ) (node : NodeInfo)
      → get_elem? after.nodes k ≡ some node
      → is_live node ≡ true
      → node.id ≡ k
  unfolding giver taker
  after_ids k node e l = ground (
    arith,
    after_node k,
    v.ids k node,
    v.ids s.from giver move.giver.1,
    v.ids s.to taker move.taker.1,
  )

  after-IsValid : IsValid after.nodes after.shards
  after-IsValid = record {
    ids = after_ids;
    counts = after_counts;
    owned = λ i t e. elim (Bool-cases (j == i)) [
      | inl here ↦
          let same : t ≡ given = ground (arith, after_shard i) in
          rw same (after-IsLive s.to move.taker)
      | inr away ↦ after-IsLive t.master (v.owned i t (ground (arith, after_shard i)))
    ];
    moves = λ i t e m. elim (Bool-cases (j == i)) [
      | inl here ↦ let same : t ≡ given = ground (arith, after_shard i) in rw same given-IsMigration
      | inr away ↦ after-IsMigration t (v.moves i t (ground (arith, after_shard i)) m)
    ];
  }

  moved : move_count (set_shard c (pos j) given) s.from s.to ≡ ok after
  unfolding move_count giver taker
  moved = rw (move.giver.1, move.taker.1, taker_apart)

  given_once : give_shard c (pos s.from) (pos j) ≡ ok after
  unfolding give_shard
  given_once = ground (arith, moved, move.apart)

  given_twice : give_shard after (pos s.from) (pos j) ≡ ok after
  unfolding give_shard
  given_twice = ground (arith, after_shard j, move.apart)

-- GiveShard, called by the master of a shard that migrates, returns and its assert statements hold.
-- It makes the receiver the master of that shard, leaves every other shard and the state alone,
-- and keeps the info valid, so that num_shards still counts the shards of each node. Called again,
-- as when the giver resumes after a crash, it changes nothing.
pub give_shard-IsValid :
    (c : ClusterInfo) (j : ℕ) (s : ShardInfo)
    → IsValid c.nodes c.shards
    → get_elem? c.shards j ≡ some s
    → s.migrating ≡ true
    → s.master ≡ s.from
    → (d : ClusterInfo) × (give_shard c (pos s.from) (pos j) ≡ ok d)
      × (d.shards ≡ set c.shards j (record s { master = s.to }))
      × (d.state ≡ c.state)
      × IsValid d.nodes d.shards
      × (give_shard d (pos s.from) (pos j) ≡ ok d)
give_shard-IsValid c j s v found moving kept = (
  after c v j s found moving kept,
  given_once c v j s found moving kept,
  refl,
  refl,
  after-IsValid c v j s found moving kept,
  given_twice c v j s found moving kept,
)

module _ (c : ClusterInfo) (v : IsValid c.nodes c.shards) (j : ℕ) (s : ShardInfo)
    (found : get_elem? c.shards j ≡ some s) where
  abbrev settled : ShardInfo
  settled = record s { migrating = false; from = 0; to = 0 }

  settled_shard :
      (i : ℕ)
      → get_elem? (set c.shards j settled) i
        ≡ (if j == i then some settled else get_elem? c.shards i)
  settled_shard i = get_elem?-set c.shards j i settled s found

  settled-IsValid : IsValid c.nodes (set c.shards j settled)
  settled-IsValid = record {
    ids = v.ids;
    counts = λ k node e.
        ground (arith, v.counts k node e, count-set (has_master k) c.shards j settled s found);
    owned = λ i t e. elim (Bool-cases (j == i)) [
      | inl here ↦
          let same : t ≡ settled = ground (arith, settled_shard i) in rw same (v.owned j s found)
      | inr away ↦ v.owned i t (ground (arith, settled_shard i))
    ];
    moves = λ i t e m. elim (Bool-cases (j == i)) [
      | inl here ↦ absurd (ground (arith, settled_shard i))
      | inr away ↦ v.moves i t (ground (arith, settled_shard i)) m
    ];
  }

-- MigrationOver of a shard that migrates returns and its assert holds. The shard no longer
-- migrates, all else about the shards is as before, and the info stays valid. The state becomes
-- RUNNING with the last migration and stays MIGRATING before, so it is MIGRATING just while some
-- shard migrates.
pub migration_over-IsPhased :
    (c : ClusterInfo) (j : ℕ) (s : ShardInfo)
    → IsValid c.nodes c.shards
    → IsPhased c
    → get_elem? c.shards j ≡ some s
    → s.migrating ≡ true
    → (d : ClusterInfo) × (migration_over c (pos j) ≡ ok d)
      × (d.shards ≡ set c.shards j (record s { migrating = false; from = 0; to = 0 }))
      × IsValid d.nodes d.shards
      × IsPhased d
unfolding migration_over set_state no_migrations is_migrating
migration_over-IsPhased c j s v phased found moving =
    let still = none_migrating-get c.shards j s in
    elim (Bool-cases (none_migrating (set c.shards j (settled c v j s found)))) [
      | inl last ↦ (
        record c { shards = set c.shards j (settled c v j s found); state = State.running },
        ground (arith, still),
        refl,
        settled-IsValid c v j s found,
        ground arith,
      )
      | inr more ↦ (
        record c { shards = set c.shards j (settled c v j s found) },
        ground (arith, still),
        refl,
        settled-IsValid c v j s found,
        ground (arith, still),
      )
    ]
