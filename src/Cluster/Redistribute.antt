-- ===== src/Cluster/Redistribute.antt =====
-- InfoWrapper::RedistributeShards (src/common/info_wrapper.cc).
pub mod Filling
pub mod Starting
pub mod Masters
pub mod Balance
use crocks.Prelude.{
  ℕ, suc, ◌/◌, ◌%◌, Bool, true, false, not, ◌&&◌, List, [], ◌∷◌, ◌++◌, length, count, is_empty, ℤ,
  pos, ◌+ℤ◌, ◌-ℤ◌, is_neg, is_pos, is_zero, ltb, ◌==◌, if◌then◌else◌, Run, ok, abort, ◌>>=◌, ◌>>◌,
  assert,
}
use crocks.Cluster.{NodeInfo, ShardInfo, ClusterInfo}

-- The map `diffs`: its keys (a key may be listed twice), and the value of each, which is 0 where
-- operator[] finds no entry. An entry that a read creates holds 0, so it is left out.
pub record Diffs : Type 0 where
  pub keys : List ℕ
  pub value : ℕ → ℤ

abbrev pub put : ℕ → ℤ → Diffs → Diffs
put k v ds = record { keys = k ∷ ds.keys; value = λ j. if k == j then v else ds.value j }

abbrev pub no_diffs : Diffs
no_diffs = record { keys = []; value = λ _. pos 0 }

-- a node that keeps its place
abbrev pub is_staying : NodeInfo → Bool
is_staying node = not node.remove && not (is_empty node.address)

-- what the staying node of rank i is to have
abbrev pub target : ℕ → ℕ → ℕ → ℕ
target num_shards num_nodes i =
    if ltb i (num_shards % num_nodes) then suc (num_shards / num_nodes) else num_shards / num_nodes

-- the first loop over the nodes
unfoldable pub calculate_diffs : ℕ → ℕ → ℕ → List NodeInfo → Diffs → Diffs
calculate_diffs s n i [] ds = ds
calculate_diffs s n i (node ∷ rest) ds = elim (is_empty node.address) [
  | true ↦ calculate_diffs s n i rest ds
  | false ↦ elim node.remove [
    | true ↦ calculate_diffs s n i rest (put node.id node.num_shards ds)
    | false ↦
        calculate_diffs s n (suc i) rest (put node.id (node.num_shards -ℤ pos (target s n i)) ds)
  ]
]

-- The cursor i of the second loop, as the shards before it and those from it on.
pub record Scan : Type 0 where
  pub diffs : Diffs
  pub done : List ShardInfo
  pub rest : List ShardInfo

abbrev pub mark : ShardInfo → ℕ → ShardInfo
mark s id = record s { migrating = true; from = s.master; to = id }

-- `diffs[id]++; diffs[master]--`
abbrev pub shift : Diffs → ℕ → ℕ → Diffs
shift ds id master =
    let more = put id (ds.value id +ℤ pos 1) ds in put master (more.value master -ℤ pos 1) more

-- `while (diffs[id] < 0)`; past the last shard mutable_shards(i) is out of range
unfoldable pub fill : ℕ → Diffs → List ShardInfo → List ShardInfo → Run Scan
fill id ds done [] =
    if is_neg (ds.value id) then abort else ok (record { diffs = ds; done = done; rest = [] })
fill id ds done (s ∷ ss) = elim (is_neg (ds.value id)) [
  | true ↦ elim (is_pos (ds.value s.master)) [
    | true ↦ fill id (shift ds id s.master) (done ++ mark s id ∷ []) ss
    | false ↦ fill id ds (done ++ s ∷ []) ss
  ]
  | false ↦ ok (record { diffs = ds; done = done; rest = s ∷ ss })
]

-- the second loop over the nodes
unfoldable pub assign : List NodeInfo → Scan → Run Scan
assign [] r = ok r
assign (node ∷ nodes) r = fill node.id r.diffs r.done r.rest >>= assign nodes

-- the last loop, over the entries of diffs
abbrev pub all_zero : (ℕ → ℤ) → List ℕ → Bool
all_zero value [] = true
all_zero value (k ∷ ks) = is_zero (value k) && all_zero value ks

unfoldable pub redistribute_shards : ClusterInfo → Run ClusterInfo
unfolding calculate_diffs assign fill ◌+ℤ◌ ◌-ℤ◌
redistribute_shards c = do
  let diffs = calculate_diffs (length c.shards) (count is_staying c.nodes) 0 c.nodes no_diffs
  r ← assign c.nodes (record { diffs = diffs; done = []; rest = c.shards })
  assert (all_zero r.diffs.value r.diffs.keys)
  ok (record c { shards = r.done ++ r.rest })
