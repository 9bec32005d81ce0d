-- ===== src/Cluster/Redistribute/Balance.antt =====
-- RedistributeShards (src/common/info_wrapper.cc) as a whole.
use crocks.Prelude.{
  ℕ, suc, ◌+◌, ◌≤◌, ◌<◌, ◌≡◌, ◌≢◌, ◌∙◌, sym, refl, ap, inl, inr, true, false, List, [], ◌∷◌, ◌++◌,
  some, arith, length, get_elem?, count, count-append, ℤ, pos, neg_part, ltb, ◌==◌, if◌then◌else◌,
  Bool-cases, sum_below, sum_below-ext, sum_below-add, sum_below-one, sum_below-zero, le-sum_below,
  All, All-append, All-get, get_elem?-lt, ok,
}
use crocks.Cluster.{NodeInfo, ShardInfo, ClusterInfo, none_migrating, no_migrations, masters}
use crocks.Cluster.Valid.{has_master, IsValid, IsMigration}
use crocks.Cluster.Redistribute.{
  Diffs, Scan, no_diffs, is_staying, calculate_diffs, all_zero, redistribute_shards,
}
use crocks.Cluster.Redistribute.Filling.{
  has_destination, give, get, IsMove, Balanced, Assigned, assign-Assigned,
}
use crocks.Cluster.Redistribute.Masters.{count-master_list, owned-master_list}
use crocks.Cluster.Redistribute.Starting.{
  share, node_diff, calculate_diffs_value, node_diff_parts, node_diff_known, sum_below-all, Counted,
  IsStaying, node_diff-IsStaying, share_bounds, share-leaving,
}

-- `d` is `c` with migrations under way that even the shards out.
pub record IsEvened (c d : ClusterInfo) : Type 0 where
  pub same_nodes : d.nodes ≡ c.nodes
  pub same_state : d.state ≡ c.state
  pub same_masters : masters d ≡ masters c
  pub valid : IsValid d.nodes d.shards
  -- a node that leaves is to have nothing
  pub leaving :
      (k : ℕ) (node : NodeInfo)
      → get_elem? c.nodes k ≡ some node
      → is_staying node ≡ false
      → count (has_destination k) d.shards ≡ 0
  -- two nodes that stay differ by one at most
  pub even :
      (j k : ℕ) (a b : NodeInfo)
      → get_elem? c.nodes j ≡ some a
      → is_staying a ≡ true
      → get_elem? c.nodes k ≡ some b
      → is_staying b ≡ true
      → count (has_destination j) d.shards ≤ count (has_destination k) d.shards + 1

-- Every shard counts for one node.
sum_below-count :
    (n : ℕ) (shards : List ShardInfo)
    → ((j : ℕ) (s : ShardInfo) → get_elem? shards j ≡ some s → s.master < n)
    → sum_below n (λ k. count (has_master k) shards) ≡ length shards
unfolding count
sum_below-count n [] h = sum_below-zero n (λ k. 0) (λ k p. refl)
sum_below-count n (s ∷ shards) h = omega (
  arith,
  sum_below-add n (λ k. if s.master == k then 1 else 0) (λ k. count (has_master k) shards),
  sum_below-one n s.master (h 0 s refl),
  sum_below-count n shards (λ j t e. h (suc j) t e),
)

not_live-count :
    (shards : List ShardInfo) (k : ℕ)
    → ((j : ℕ) (s : ShardInfo) → get_elem? shards j ≡ some s → s.master ≢ k)
    → count (has_master k) shards ≡ 0
unfolding count
not_live-count [] k h = refl
not_live-count (s ∷ shards) k h =
    ground (arith, h 0 s refl, not_live-count shards k (λ j t e. h (suc j) t e))

all_zero_of : (value : ℕ → ℤ) (ks : List ℕ) → ((k : ℕ) → value k ≡ pos 0) → all_zero value ks ≡ true
all_zero_of value [] h = refl
all_zero_of value (k ∷ ks) h = rw (h k) (all_zero_of value ks h)

module _ (c : ClusterInfo) (v : IsValid c.nodes c.shards) (still : no_migrations c ≡ true) where
  abbrev have : ℕ → ℕ
  have k = count (has_master k) c.shards

  abbrev staying : ℕ
  staying = count is_staying c.nodes

  -- what node k is to have
  abbrev goal : ℕ → ℕ
  goal = share (length c.shards) staying 0 c.nodes

  abbrev first_diffs : Diffs
  first_diffs = calculate_diffs (length c.shards) staying 0 c.nodes no_diffs

  abbrev diff : ℕ → ℤ
  diff k = node_diff (length c.shards) staying 0 c.nodes k (pos 0)

  first_value : (k : ℕ) → first_diffs.value k ≡ diff k
  first_value k = ground (
    arith,
    calculate_diffs_value (length c.shards) staying 0 0 c.nodes no_diffs
        (λ j node e l. omega (arith, v.ids j node e l)) k,
  )

  master_bound : (j : ℕ) (s : ShardInfo) → get_elem? c.shards j ≡ some s → s.master < length c.nodes
  master_bound j s e =
      let (node, found, _) = v.owned j s e in get_elem?-lt c.nodes s.master node found

  counted : Counted c.nodes have
  counted = (
    v.counts,
    λ j node e l.
        not_live-count c.shards j
          (λ i s found same. let (other, at, live) = v.owned i s found in ground (arith)),
    λ j p. not_live-count c.shards j (λ i s found same. omega (arith, master_bound i s found)),
  )

  parts :
      (k : ℕ)
      → (have k + get first_diffs k ≡ give first_diffs k + goal k) × (give first_diffs k ≤ have k)
  parts k = rw (first_value k) (node_diff_parts (length c.shards) staying 0 c.nodes have counted k)

  first_even :
      0 < staying
      → sum_below (length c.nodes) (give first_diffs) ≡ sum_below (length c.nodes) (get first_diffs)
  first_even some_stay =
      let n = length c.nodes in
      omega (
        arith,
        sum_below-count n c.shards master_bound,
        sum_below-all (length c.shards) staying c.nodes some_stay refl,
        sum_below-add n have (get first_diffs),
        sum_below-add n (give first_diffs) goal,
        sum_below-ext n (λ k. have k + get first_diffs k) (λ k. give first_diffs k + goal k)
            (λ k p. (parts k).0),
      )

  abbrev Taker : ℕ → Type 0
  Taker = IsStaying c.nodes

  first_Balanced : 0 < staying → Balanced (length c.nodes) goal Taker first_diffs [] c.shards
  unfolding count no_migrations
  first_Balanced some_stay = record {
    ahead = λ k. (parts k).1;
    even = first_even some_stay;
    known = λ k p. first_value k ∙ node_diff_known (length c.shards) staying 0 c.nodes k p;
    goals = λ k. omega (arith, (parts k).0);
    fresh = still;
    takers = λ k p.
        node_diff-IsStaying (length c.shards) staying 0 c.nodes have counted k
          (omega (arith, ap neg_part (first_value k)));
    moves = tt;
  }

  -- Every node that was to get shards has got them, so nothing is left to give either.
  module _ (t : Scan)
      (a : Assigned
        (length c.nodes)
        goal
        Taker
        c.nodes
        (record { diffs = first_diffs; done = []; rest = c.shards })
        t) where
    nothing_to_get : (k : ℕ) → get t.diffs k ≡ 0
    nothing_to_get k = elim (Bool-cases (ltb 0 (get first_diffs k))) [
      | inl taking ↦
          let (node, found, stays) =
            node_diff-IsStaying (length c.shards) staying 0 c.nodes have counted k
              (ground (arith, first_value k)) in
          let served = All-get _ c.nodes k node a.served found in ground (arith, v.ids k node found)
      | inr idle ↦ ground (arith, a.fewer k)
    ]

    settled : (k : ℕ) → t.diffs.value k ≡ pos 0
    settled k = elim (Bool-cases (ltb k (length c.nodes))) [
      | inl inside ↦
          let nothing = sum_below-zero (length c.nodes) (get t.diffs) (λ j p. nothing_to_get j) in
          let bound = le-sum_below (length c.nodes) (give t.diffs) k (ground arith) in
          ground (arith, nothing_to_get k, a.balanced.even)
      | inr outside ↦ a.balanced.known k (ground arith)
    ]

    fresh-destinations :
        (k : ℕ) (ss : List ShardInfo)
        → none_migrating ss ≡ true
        → count (has_destination k) ss ≡ count (has_master k) ss
    unfolding count none_migrating
    fresh-destinations k [] h = refl
    fresh-destinations k (s ∷ ss) h = ground (arith, fresh-destinations k ss)

    destinations : (k : ℕ) → count (has_destination k) (t.done ++ t.rest) ≡ goal k
    destinations k = ground (
      arith,
      count-append (has_destination k) t.done t.rest,
      fresh-destinations k t.rest a.balanced.fresh,
      a.balanced.goals k,
      settled k,
    )

    fresh-IsMove : (ss : List ShardInfo) → none_migrating ss ≡ true → All (IsMove Taker) ss
    unfolding none_migrating
    fresh-IsMove [] h = tt
    fresh-IsMove (s ∷ ss) h = (λ m. ground arith, fresh-IsMove ss (ground arith))

    All-moves : All (IsMove Taker) (t.done ++ t.rest)
    All-moves =
        All-append (IsMove Taker) t.done t.rest a.balanced.moves
          (fresh-IsMove t.rest a.balanced.fresh)

    result : ClusterInfo
    result = record c { shards = t.done ++ t.rest }

    result-IsMigration :
        (j : ℕ) (s : ShardInfo)
        → get_elem? (t.done ++ t.rest) j ≡ some s
        → s.migrating ≡ true
        → IsMigration c.nodes s
    result-IsMigration j s e m =
        let (from, apart, (taker, found, stays)) =
          All-get (IsMove Taker) (t.done ++ t.rest) j s All-moves e m in
        record {
          apart = λ f. apart (cc f);
          giver =
              rw from (owned-master_list c.nodes (t.done ++ t.rest) c.shards a.kept v.owned j s e);
          taker = (taker, found, ground arith);
          owner = inl (sym from);
        }

    result-IsEvened : IsEvened c result
    unfolding result masters
    result-IsEvened = record {
      same_nodes = refl;
      same_state = refl;
      same_masters = a.kept;
      valid = record {
        ids = v.ids;
        counts = λ k node e.
            v.counts k node e
            ∙ ap pos (sym (count-master_list k (t.done ++ t.rest) c.shards a.kept));
        owned = owned-master_list c.nodes (t.done ++ t.rest) c.shards a.kept v.owned;
        moves = result-IsMigration;
      };
      leaving = λ k node e l.
          destinations k ∙ share-leaving (length c.shards) staying 0 c.nodes k node e l;
      even = λ j k x y e l f m. omega (
        arith,
        destinations j,
        destinations k,
        share_bounds (length c.shards) staying 0 c.nodes j x e l,
        share_bounds (length c.shards) staying 0 c.nodes k y f m,
      );
    }

-- On a valid cluster with no migration under way and at least one node that stays,
-- RedistributeShards returns: the cursor stays inside of the shards and the closing assert holds.
-- The nodes, the state and every master are as before and the result is valid. When all migrations
-- are over, a node marked for removal will have no shard, and two nodes that stay will have the
-- same number or differ by one.
pub redistribute_shards-IsEvened :
    (c : ClusterInfo)
    → IsValid c.nodes c.shards
    → no_migrations c ≡ true
    → 0 < count is_staying c.nodes
    → (d : ClusterInfo) × (redistribute_shards c ≡ ok d) × IsEvened c d
unfolding redistribute_shards result
redistribute_shards-IsEvened c v still some_stay =
    let (t, run, a) =
      assign-Assigned (length c.nodes) (goal c v still) (Taker c v still) c.nodes
        (record { diffs = first_diffs c v still; done = []; rest = c.shards })
        (first_Balanced c v still some_stay) in
    (
      result c v still t a,
      rw (run, all_zero_of t.diffs.value t.diffs.keys (settled c v still t a)),
      result-IsEvened c v still t a,
    )
