-- ===== src/Info/Places.antt =====
-- The place that Add of Info (src/common/info.cc) gives to a node.
use crocks.Prelude.{ok, abort, Run, ℤ}
use crocks.Cluster.{ClusterInfo}
use crocks.Cluster.Valid.{IsValid}
use crocks.Etcd.{Etcd}

IsPlaced : Run (ClusterInfo × ℤ) → Type 0
IsPlaced abort = Unit
IsPlaced (ok (d, id)) = IsValid d.nodes d.shards
