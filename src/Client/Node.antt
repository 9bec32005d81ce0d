-- ===== src/Client/Node.antt =====
-- The calls of the class Node (src/client/node.cc), over its gRPC stub as a parameter: a call changes
-- the world and, by reference, the response object, and ends with a status.
use crocks.Prelude.{[], Bytes, ℤ, pos, Run, ok, ◌>>=◌}
use crocks.Status.{GrpcStatus, Status, of_grpc, of_both, ensure}

-- pb::Response
pub record Response : Type 0 where
  pub status : ℤ
  pub value : Bytes

abbrev pub empty_response : Response
empty_response = record { status = pos 0; value = [] }

pub data Rpc : Type 0 where
  ping : Rpc
  get : Bytes → Rpc
  put : Bytes → Bytes → Rpc
  delete : Bytes → Rpc
  single_delete : Bytes → Rpc
  merge : Bytes → Bytes → Rpc

-- what a call of Node gives: its status, the value that Get stores, and the world after it
pub record Answer (World : Type 0) : Type 0 where
  pub status : Status
  pub value : Bytes
  pub world : World

module _ {World : Type 0} (stub : Bytes → Rpc → World × Response → (World × Response) × GrpcStatus)
    (address : Bytes) where
  unfoldable pub node_ping : World → Answer World
  unfolding of_grpc
  node_ping w =
      let ((later, r), s) = stub address Rpc.ping (w, empty_response) in
      record { status = of_grpc s; value = []; world = later }

  -- Ensure over a call, and the Status of both
  unfoldable pub node_call : Rpc → World → Run (Answer World)
  unfolding ensure of_both
  node_call rpc w =
      let ((later, r), s) = ensure (stub address rpc) (w, empty_response) in
      do
        status ← of_both s r.status
        ok (record { status = status; value = r.value; world = later })

  unfoldable pub node_get : Bytes → World → Run (Answer World)
  unfolding node_call
  node_get key w = node_call (Rpc.get key) w

  unfoldable pub node_put : Bytes → Bytes → World → Run (Answer World)
  unfolding node_call
  node_put key value w = node_call (Rpc.put key value) w

  unfoldable pub node_delete : Bytes → World → Run (Answer World)
  unfolding node_call
  node_delete key w = node_call (Rpc.delete key) w

  unfoldable pub node_single_delete : Bytes → World → Run (Answer World)
  unfolding node_call
  node_single_delete key w = node_call (Rpc.single_delete key) w

  unfoldable pub node_merge : Bytes → Bytes → World → Run (Answer World)
  unfolding node_call
  node_merge key value w = node_call (Rpc.merge key value) w
