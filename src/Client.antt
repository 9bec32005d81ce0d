-- ===== src/Client.antt =====
-- The connections of ClusterImpl (src/client/cluster_impl.cc). A Node is its address.
pub mod Connections
pub mod Buffer
pub mod WriteBatch
pub mod Node
pub mod NodeIterator
pub mod Iterator
pub mod Operation
use crocks.Prelude.{
  ℕ, suc, Bool, true, false, List, [], ◌∷◌, Option, none, some, Bytes, beq, is_empty, ◌==◌,
  if◌then◌else◌, Run, ok, abort, ◌>>=◌, ◌>>◌, assert,
}
use crocks.Cluster.{addresses}
use crocks.Etcd.{Etcd}
use crocks.Info.{Info, Proto, get, index_for_key}

-- `nodes_`, where operator[] makes a null pointer of a missing entry
abbrev pub Nodes : Type 0
Nodes = ℕ → Option Bytes

abbrev pub set_connection : Nodes → ℕ → Option Bytes → Nodes
set_connection nodes id n k = if id == k then n else nodes k

-- the loop of the constructor
unfoldable pub connect : Nodes → ℕ → List Bytes → Nodes
connect nodes id [] = nodes
connect nodes id (a ∷ rest) =
    connect (if is_empty a then nodes else set_connection nodes id (some a)) (suc id) rest

-- the body of the loop of Update
unfoldable pub update_connection : Nodes → ℕ → Bytes → Run Nodes
update_connection nodes id a =
    if is_empty a then ok (set_connection nodes id none) else elim (nodes id) [
      | none ↦ ok (set_connection nodes id (some a))
      | some b ↦ do assert (beq b a); ok nodes
    ]

unfoldable pub update_connections : Nodes → ℕ → List Bytes → Run Nodes
unfolding update_connection
update_connections nodes id [] = ok nodes
update_connections nodes id (a ∷ rest) =
    update_connection nodes id a >>= λ later. update_connections later (suc id) rest

pub record ClusterImpl : Type 0 where
  pub info : Info
  pub nodes : Nodes

-- ClusterImpl::NodeForKey; a null pointer is dereferenced by the operation
unfoldable pub node_for_key : ClusterImpl → Bytes → Run (Option Bytes)
unfolding index_for_key
node_for_key c key = do idx ← index_for_key c.info key; ok (c.nodes idx)

module _ (e : Etcd) (p : Proto) where
  open e use {Store}

  -- ClusterImpl::Update
  unfoldable pub update : ClusterImpl → Store → Run ClusterImpl
  unfolding get update_connections
  update c s = do
    i ← get e p c.info s
    nodes ← update_connections c.nodes 0 (addresses i.info)
    ok (record { info = i; nodes = nodes })
