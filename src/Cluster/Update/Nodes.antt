-- ===== src/Cluster/Update/Nodes.antt =====
-- AddNode, AddNodeWithNewShards, MarkRemoveNode, RemoveNode and SetAvailable
-- (src/common/info_wrapper.cc) and the validity of the cluster info.
use crocks.Prelude.{
  ℕ, ◌+◌, ◌<◌, ◌≡◌, ◌≢◌, refl, inl, inr, Bool, true, false, List, [], ◌∷◌, ◌++◌, some, ◌⊎◌,
  append-nil, arith, length, get_elem?, get_elem?-set, get_elem?-some, get_elem?-lt,
  get_elem?-append, get_elem?-concat_cases, get_elem?-append_cases, get_elem?-replicate,
  get_elem?-concat, count-none, count-zero, count-append, count-replicate, replicate, set, count,
  is_empty, pos, ◌==◌, if◌then◌else◌, Bool-cases, Bytes, ok,
}
use crocks.Cluster.{NodeInfo, ShardInfo, ClusterInfo}
use crocks.Cluster.Valid.{is_live, has_master, IsLive, IsMigration, IsValid}
use crocks.Cluster.Update.{
  set_node, empty_node, new_shard, add_node, add_node_with_new_shards, mark_remove_node,
  remove_node, set_available,
}

-- Changing a node in ways that the invariant does not look at.
module _ (nodes : List NodeInfo) (i : ℕ) (old new : NodeInfo) (at_i : get_elem? nodes i ≡ some old)
    (same_life : is_live new ≡ is_live old) where
  pub set-IsLive : (k : ℕ) → IsLive nodes k → IsLive (set nodes i new) k
  set-IsLive k (node, e, l) = elim (Bool-cases (i == k)) [
    | inl here ↦ (new, ground (arith, get_elem?-set nodes i k new old), ground arith)
    | inr away ↦ (node, ground (arith, get_elem?-set nodes i k new old), l)
  ]

  pub set-IsMigration : (s : ShardInfo) → IsMigration nodes s → IsMigration (set nodes i new) s
  set-IsMigration s m = record {
    apart = m.apart;
    giver = set-IsLive s.from m.giver;
    taker = set-IsLive s.to m.taker;
    owner = m.owner;
  }

  pub set-IsValid :
      (shards : List ShardInfo)
      → new.id ≡ old.id
      → new.num_shards ≡ old.num_shards
      → IsValid nodes shards
      → IsValid (set nodes i new) shards
  set-IsValid shards same_id same_count v = record {
    ids = λ k node e l. ground (arith, v.ids k node, v.ids i old, get_elem?-set nodes i k new old);
    counts = λ k node e.
        ground (arith, v.counts k node, v.counts i old, get_elem?-set nodes i k new old);
    owned = λ j s e. set-IsLive s.master (v.owned j s e);
    moves = λ j s e m. set-IsMigration s (v.moves j s e m);
  }

-- MarkRemoveNode of a node that exists returns, and what it returns is valid.
mark_remove_node-IsValid :
    (c : ClusterInfo) (k : ℕ)
    → IsValid c.nodes c.shards
    → k < length c.nodes
    → (d : ClusterInfo) × (mark_remove_node c (pos k) ≡ ok d) × IsValid d.nodes d.shards
unfolding mark_remove_node
mark_remove_node-IsValid c k v h =
    let (node, e) = get_elem?-some c.nodes k h in
    elim (Bool-cases (is_empty node.address)) [
      | inl gone ↦ (c, rw (e, gone), v)
      | inr here ↦
          let new : NodeInfo = record node { remove = true } in
          (
            set_node c (pos k) new,
            rw (e, here),
            set-IsValid c.nodes k node new e refl c.shards refl refl v,
          )
    ]

pub set_available-IsValid :
    (c : ClusterInfo) (k : ℕ) (available : Bool)
    → IsValid c.nodes c.shards
    → k < length c.nodes
    → (d : ClusterInfo) × (set_available c (pos k) available ≡ ok d) × IsValid d.nodes d.shards
unfolding set_available
set_available-IsValid c k available v h =
    let (node, e) = get_elem?-some c.nodes k h in
    let new : NodeInfo = record node { available = available } in
    (set_node c (pos k) new, rw e, set-IsValid c.nodes k node new e refl c.shards refl refl v)

-- RemoveNode of a node that has no shard, and that no migration concerns, keeps the info valid.
pub remove_node-IsValid :
    (c : ClusterInfo) (k : ℕ)
    → IsValid c.nodes c.shards
    → k < length c.nodes
    → count (has_master k) c.shards ≡ 0
    → ((j : ℕ) (s : ShardInfo)
        → get_elem? c.shards j ≡ some s
        → s.migrating ≡ true
        → (s.from ≢ k) × (s.to ≢ k))
    → (d : ClusterInfo) × (remove_node c (pos k) ≡ ok d) × IsValid d.nodes d.shards
unfolding remove_node
remove_node-IsValid c k v h none_owned untouched =
    let (node, e) = get_elem?-some c.nodes k h in
    let others = λ (j : ℕ). get_elem?-set c.nodes k j empty_node node e in
    let stays : (j : ℕ) → j ≢ k → IsLive c.nodes j → IsLive (set c.nodes k empty_node) j =
      λ j apart (other, found, live). (other, ground (arith, others j), live) in
    (
      set_node c (pos k) empty_node,
      rw e,
      record {
        ids = λ j other f l. ground (arith, others j, v.ids j other);
        counts = λ j other f. ground (arith, others j, v.counts j other);
        owned = λ j s f.
            stays s.master
              (λ same. ground (arith, count-zero (has_master k) c.shards j s none_owned f))
              (v.owned j s f);
        moves = λ j s f m.
            let move = v.moves j s f m in
            let (not_from, not_to) = untouched j s f m in
            record {
              apart = move.apart;
              giver = stays s.from not_from move.giver;
              taker = stays s.to not_to move.taker;
              owner = move.owner;
            };
      },
    )

append-IsLive :
    (nodes : List NodeInfo) (new : NodeInfo) (k : ℕ) → IsLive nodes k → IsLive (nodes ++ new ∷ []) k
append-IsLive nodes new k (node, e, l) = (node, get_elem?-append nodes (new ∷ []) k node e, l)

IsLive-lt : (nodes : List NodeInfo) (k : ℕ) → IsLive nodes k → k < length nodes
IsLive-lt nodes k (node, e, _) = get_elem?-lt nodes k node e

-- A node joins with n shards of its own; without any, its address may be empty.
module _ (nodes : List NodeInfo) (shards : List ShardInfo) (new : NodeInfo) (n : ℕ)
    (v : IsValid nodes shards) (same_id : new.id ≡ length nodes)
    (same_count : new.num_shards ≡ pos n) (has_address : (n ≡ 0) ⊎ (is_live new ≡ true)) where
  abbrev grown : List ShardInfo
  grown = shards ++ replicate n (new_shard (length nodes))

  count-grown :
      (k : ℕ)
      → count (has_master k) grown
        ≡ count (has_master k) shards + (if length nodes == k then n else 0)
  count-grown k = ground (
    arith,
    count-append (has_master k) shards (replicate n (new_shard (length nodes))),
    count-replicate (has_master k) n (new_shard (length nodes)),
  )

  none_yet : count (has_master (length nodes)) shards ≡ 0
  none_yet =
      count-none (has_master (length nodes)) shards
        (λ j s e. ground (arith, IsLive-lt nodes s.master (v.owned j s e)))

  grown-IsLive :
      (j : ℕ) (s : ShardInfo) → get_elem? grown j ≡ some s → IsLive (nodes ++ new ∷ []) s.master
  grown-IsLive j s e = elim (get_elem?-append_cases shards _ s j e) [
    | inl old ↦ append-IsLive nodes new s.master (v.owned j s old)
    | inr fresh ↦
        let same = get_elem?-replicate n (new_shard (length nodes)) s _ fresh in
        elim has_address [
          | inl no_shards ↦ absurd (ground arith)
          | inr live ↦ rw same (new, get_elem?-concat nodes new, live)
        ]
  ]

  grown-IsMigration :
      (j : ℕ) (s : ShardInfo)
      → get_elem? grown j ≡ some s
      → s.migrating ≡ true
      → IsMigration (nodes ++ new ∷ []) s
  grown-IsMigration j s e m = elim (get_elem?-append_cases shards _ s j e) [
    | inl old ↦
        let move = v.moves j s old m in
        record {
          apart = move.apart;
          giver = append-IsLive nodes new s.from move.giver;
          taker = append-IsLive nodes new s.to move.taker;
          owner = move.owner;
        }
    | inr fresh ↦
        let same = get_elem?-replicate n (new_shard (length nodes)) s _ fresh in
        absurd (ground arith)
  ]

  pub grown-IsValid : IsValid (nodes ++ new ∷ []) grown
  grown-IsValid = record {
    ids = λ k node e l.
        ground (arith, get_elem?-concat_cases nodes new node k e, v.ids k node, same_id);
    counts = λ k node e. ground (
      arith,
      get_elem?-concat_cases nodes new node k e,
      v.counts k node,
      count-grown k,
      none_yet,
      get_elem?-lt nodes k node,
    );
    owned = grown-IsLive;
    moves = grown-IsMigration;
  }

-- AddNodeWithNewShards, for a node with an address, keeps the info valid.
pub add_node_with_new_shards-IsValid :
    (c : ClusterInfo) (address : Bytes) (n : ℕ)
    → IsValid c.nodes c.shards
    → is_empty address ≡ false
    → let d = (add_node_with_new_shards c address (pos n)).0 in IsValid d.nodes d.shards
unfolding add_node_with_new_shards
add_node_with_new_shards-IsValid c address n v named =
    grown-IsValid c.nodes c.shards _ n v refl refl (inr (ground arith))

-- AddNode keeps it valid.
pub add_node-IsValid :
    (c : ClusterInfo) (address : Bytes)
    → IsValid c.nodes c.shards
    → let d = (add_node c address).0 in IsValid d.nodes d.shards
unfolding add_node
add_node-IsValid c address v =
    let node : NodeInfo = record empty_node {
      address = address;
      id = length c.nodes;
      available = true;
    } in
    rw (append-nil c.shards) at (grown-IsValid c.nodes c.shards node 0 v refl refl (inl refl))
