-- ===== src/Cluster.antt =====
-- The cluster info that the nodes and the clients share through etcd: the messages of
-- src/proto/info.proto, and the const methods of InfoWrapper (src/common/info_wrapper.h). The lock
-- that each method takes makes it one step.
pub mod Valid
pub mod Update
pub mod Redistribute
use crocks.Prelude.{
  ℕ, suc, Bool, true, false, not, ◌&&◌, List, [], ◌∷◌, ◌++◌, map, ◌==◌, if◌then◌else◌, length,
  Bytes, beq, is_empty, ℤ, pos, negsuc, is_neg, is_zero, Run, ok, abort, ◌>>=◌, ◌>>◌, assert, at,
}

-- message NodeInfo; `id` is an index into the nodes, so it is not negative
pub record NodeInfo : Type 0 where
  pub address : Bytes
  pub id : ℕ
  pub num_shards : ℤ
  pub available : Bool
  pub remove : Bool

-- message ShardInfo
pub record ShardInfo : Type 0 where
  pub master : ℕ
  pub migrating : Bool
  pub from : ℕ
  pub to : ℕ

pub data State : Type 0 where
  init running migrating : State

-- message ClusterInfo; the code neither reads nor writes num_nodes
pub record ClusterInfo : Type 0 where
  pub state : State
  pub nodes : List NodeInfo
  pub shards : List ShardInfo

-- an `int` compared with an id
abbrev pub is_id : ℕ → ℤ → Bool
is_id m (pos i) = m == i
is_id m (negsuc i) = false

abbrev pub is_state : State → State → Bool
is_state State.init State.init = true
is_state State.running State.running = true
is_state State.migrating State.migrating = true
is_state _ _ = false

unfoldable pub num_shards : ClusterInfo → ℕ
num_shards c = length c.shards

unfoldable pub num_nodes : ClusterInfo → ℕ
num_nodes c = length c.nodes

-- the loop of shards, future and Tasks: the indices, from i on, of the shards that pass a test
unfoldable pub collect : (ShardInfo → Bool) → ℕ → List ShardInfo → List ℕ
collect p i [] = []
collect p i (s ∷ ss) = let rest = collect p (suc i) ss in if p s then i ∷ rest else rest

unfoldable pub shards : ClusterInfo → ℤ → Run (List ℕ)
unfolding collect
shards c id = do assert (not (is_neg id)); ok (collect (λ s. is_id s.master id) 0 c.shards)

unfoldable pub future : ClusterInfo → ℤ → Run (List ℕ)
unfolding collect
future c id = do
  assert (not (is_neg id))
  ok (collect (λ s. s.migrating && is_id s.to id) 0 c.shards)

-- InfoWrapper::map
unfoldable pub masters : ClusterInfo → List ℕ
masters c = map (λ s. s.master) c.shards

unfoldable pub addresses : ClusterInfo → List Bytes
addresses c = map (λ n. n.address) c.nodes

unfoldable pub address : ClusterInfo → ℤ → Run Bytes
address c id = do node ← at c.nodes id; ok node.address

find_address : Bytes → List NodeInfo → ℤ
find_address a [] = negsuc 0
find_address a (n ∷ ns) = let rest = find_address a ns in if beq n.address a then pos n.id else rest

unfoldable pub index_of : ClusterInfo → Bytes → ℤ
unfolding find_address beq
index_of c a = find_address a c.nodes

unfoldable pub is_removed : ClusterInfo → ℤ → Run Bool
is_removed c id = do node ← at c.nodes id; ok node.remove

unfoldable pub is_init : ClusterInfo → Bool
is_init c = is_state c.state State.init

unfoldable pub is_running : ClusterInfo → Bool
is_running c = is_state c.state State.running

unfoldable pub is_migrating : ClusterInfo → Bool
is_migrating c = is_state c.state State.migrating

unfoldable pub is_shard_migrating : ClusterInfo → ℤ → Run Bool
is_shard_migrating c shard = do s ← at c.shards shard; ok s.migrating

unfoldable pub none_migrating : List ShardInfo → Bool
none_migrating [] = true
none_migrating (s ∷ ss) = if s.migrating then false else none_migrating ss

unfoldable pub no_migrations : ClusterInfo → Bool
unfolding none_migrating
no_migrations c = none_migrating c.shards

unfoldable pub is_available : ClusterInfo → ℤ → Run Bool
is_available c id = do node ← at c.nodes id; ok node.available

all_healthy : List NodeInfo → Bool
all_healthy [] = true
all_healthy (n ∷ ns) =
    if is_zero n.num_shards
    then all_healthy ns
    else if not n.available
    then false
    else all_healthy ns

unfoldable pub is_healthy : ClusterInfo → Bool
unfolding all_healthy
is_healthy c = all_healthy c.nodes

-- `tasks[from].push_back(i)`
abbrev pub push_task : ℕ → ℕ → List (ℕ × List ℕ) → List (ℕ × List ℕ)
push_task from i [] = (from, i ∷ []) ∷ []
push_task from i ((k, is) ∷ ts) =
    if k == from then (k, is ++ i ∷ []) ∷ ts else (k, is) ∷ push_task from i ts

collect_tasks : ℤ → ℕ → List ShardInfo → List (ℕ × List ℕ) → List (ℕ × List ℕ)
collect_tasks id i [] ts = ts
collect_tasks id i (s ∷ ss) ts =
    collect_tasks id (suc i) ss (if s.migrating && is_id s.to id then push_task s.from i ts else ts)

-- The shards that `id` is to import, by the node that gives them.
unfoldable pub tasks : ClusterInfo → ℤ → Run (List (ℕ × List ℕ))
unfolding collect_tasks
tasks c id = do assert (not (is_neg id)); ok (collect_tasks id 0 c.shards [])
