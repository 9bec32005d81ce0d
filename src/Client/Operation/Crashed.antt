-- ===== src/Client/Operation/Crashed.antt =====
-- ClusterImpl::Operation when the node answers that the former master has crashed
-- (src/client/cluster_impl.cc).
use crocks.Prelude.{ℕ, zero, suc, true, false, none, some, Bytes, ◌≡◌, refl, Run, ok}
use crocks.Cluster.{is_healthy}
use crocks.Status.{GrpcCode, Status, is_unavailable, is_code_unavailable}
use crocks.Etcd.{Etcd}
use crocks.Info.{Proto, index_for_key}
use crocks.Client.{ClusterImpl, node_for_key}
use crocks.Client.Node.{Answer}
use crocks.Client.Operation.{
  Options, Outside, is_invalid, is_former_master_crashed, Caller, Reply, repeats, call_node,
  call_again, finish_round, unavailable_round, operation_round, operation_from, operation,
}

unavailable-invalid : (c : GrpcCode) → is_code_unavailable c ≡ true → is_invalid c ≡ false
unavailable-invalid GrpcCode.fine h = refl
unavailable-invalid GrpcCode.unavailable h = refl
unavailable-invalid GrpcCode.deadline_exceeded h = refl
unavailable-invalid GrpcCode.invalid_argument h = absurd (cc h)
unavailable-invalid (GrpcCode.other n) h = refl

-- the answer of a node that could not ask the former master
pub record IsCrashed (s : Status) : Type 0 where
  pub code : is_unavailable s ≡ true
  pub message : is_former_master_crashed s ≡ true

module _ (e : Etcd) (p : Proto) (o : Outside e) (options : Options)
    (op : Bytes → Outside.World o → Run (Answer (Outside.World o))) (key : Bytes) where
  open o use {World}

  module _ (cluster : ClusterImpl) (address : Bytes) (id : ℕ)
      (at_index : index_for_key cluster.info key ≡ ok id)
      (connected : cluster.nodes id ≡ some address) (healthy : is_healthy cluster.info.info ≡ true)
      (crashed : (w : World)
        → (a : Answer World) × (op address w ≡ ok a) × IsCrashed a.status) where
    abbrev caller : World → Caller e p o
    caller w = record { cluster = cluster; world = w }

    abbrev reply : Answer World → Reply e p o
    reply a = record { status = a.status; value = a.value; caller = caller a.world }

    call_node-IsCrashed :
        (w : World)
        → (a : Answer World) × (call_node e p o options op key op (caller w) ≡ ok (reply a))
          × IsCrashed a.status
    unfolding call_node node_for_key
    call_node-IsCrashed w =
        let (a, answered, bad) = crashed w in
        (a, rw (at_index, connected, answered, call_node) refl, bad)

    operation_round-IsCrashed :
        (fuel : ℕ) (a : Answer World)
        → IsCrashed a.status
        → (b : Answer World) × (operation_round e p o options op key fuel (reply a)
            ≡ ok (some (repeats (reply b))))
          × IsCrashed b.status
    unfolding operation_round unavailable_round finish_round call_again is_unavailable
    operation_round-IsCrashed fuel a bad =
        let (b, answered, worse) = crashed a.world in
        (
          b,
          rw
              (
                unavailable-invalid a.status.grpc_code bad.code,
                at_index,
                bad.message,
                healthy,
                connected,
                answered,
              )
              refl,
          worse,
        )

    operation_from-crashed :
        (fuel : ℕ) (a : Answer World)
        → IsCrashed a.status
        → operation_from e p o options op key fuel (reply a) ≡ ok none
    unfolding operation_from
    operation_from-crashed zero a bad = rw (bad.code, operation_from) refl
    operation_from-crashed (suc fuel) a bad =
        let (b, next, worse) = operation_round-IsCrashed (suc fuel) a bad in
        rw (bad.code, next, operation_from) (operation_from-crashed fuel b worse)

    -- While the node of the key answers that the former master has crashed, and the client's own copy
    -- of the cluster info has every node available, Operation repeats the call, whatever etcd holds
    -- and whether or not the client is to wait: no number of rounds is enough.
    pub operation-crashed :
        (fuel : ℕ) (w : World) → operation e p o options op key fuel (caller w) ≡ ok none
    unfolding operation
    operation-crashed fuel w =
        let (a, answered, bad) = call_node-IsCrashed w in
        rw answered (operation_from-crashed fuel a bad)
