-- ===== src/Client/Operation.antt =====
-- ClusterImpl::Operation (src/client/cluster_impl.cc): a request is repeated until it is answered,
-- with the cluster info read again in between. It may go on for ever, so it runs on fuel, one unit
-- for each round of a loop.
pub mod Answers
pub mod Fair
pub mod Returns
pub mod Crashed
use Prim.Native.Nat.{Ordering}
use Prim.Native.String.{String}
use Prim.Native.String
use crocks.Prelude.{
  ℕ, zero, suc, Bool, true, false, not, ◌&&◌, ◌||◌, List, [], ◌∷◌, Option, none, some, Bytes, pos,
  ◌==◌, if◌then◌else◌, Run, ok, abort, ◌>>=◌, ◌>>◌, assert, or_abort,
}
use crocks.Cluster.{is_healthy, addresses}
use crocks.Status.{GrpcCode, GrpcStatus, Status, is_unavailable, is_grpc_ok, ensure_rpc}
use crocks.Etcd.{Etcd}
use crocks.Etcd.Watch.{Reading}
use crocks.Info.{Info, Proto, get, run, index_for_key, available}
use crocks.Info.Watching.{Waited, returned, blocked, wait_until_healthy}
use crocks.Client.{ClusterImpl, set_connection, connect, node_for_key, update}
use crocks.Client.Node.{
  Response, Rpc, Answer, node_ping, node_get, node_put, node_delete, node_single_delete, node_merge,
}

pub record Options : Type 0 where
  pub inform_on_unavailable : Bool
  pub wait_on_unhealthy : Bool

abbrev pub default_options : Options
default_options = record { inform_on_unavailable = true; wait_on_unhealthy = true }

abbrev pub is_text : String → String → Bool
is_text s t = elim (String.compare s t) [ Ordering.eq ↦ true | _ ↦ false ]

abbrev pub is_invalid : GrpcCode → Bool
is_invalid GrpcCode.invalid_argument = true
is_invalid c = false

-- the test of the outer loop
abbrev pub is_retried : Status → Bool
is_retried s = is_unavailable s || is_invalid s.grpc_code

-- the test for the message of a node that could not ask the former master
abbrev pub is_former_master_crashed : Status → Bool
is_former_master_crashed s = is_text s.error_message "The former master has crashed"

-- What lies outside of the client: etcd, the nodes, and the others' progress while the client
-- sleeps, repeats a transaction, or waits for the watch.
pub record Outside (e : Etcd) : Type 1 where
  pub World : Type 0
  pub stub : Bytes → Rpc → World × Response → (World × Response) × GrpcStatus
  pub store : World → e.Store
  pub with_store : World → e.Store → World
  pub others : World → List (e.Store → e.Store)
  pub sleep : World → World
  pub opened : World → Reading
  pub readings : World → List Reading
  pub watched : World → World

module _ (e : Etcd) (p : Proto) (o : Outside e) where
  open o use {World}

  pub record Caller : Type 0 where
    pub cluster : ClusterImpl
    pub world : World

  -- the constructor: Info::Get, Info::Run, and the connections
  unfoldable pub new_cluster_impl : Info → World → Run Caller
  unfolding get run connect
  new_cluster_impl i w = do
    j ← get e p i (o.store w)
    r ← run e p j (o.store w) (o.others w)
    ok (record {
      cluster = record { info = r.0; nodes = connect (λ k. none) 0 (addresses r.0.info) };
      world = o.with_store w r.1;
    })

  -- `delete nodes_[id]; nodes_[id] = nullptr`
  unfoldable pub disconnect : ℕ → Caller → Caller
  disconnect id c = record c {
    cluster = record { info = c.cluster.info; nodes = set_connection c.cluster.nodes id none };
  }

  unfoldable pub pause : Caller → Caller
  pause c = record c { world = o.sleep c.world }

  unfoldable pub refresh : Caller → Run Caller
  unfolding update
  refresh c = do
    d ← update e p c.cluster (o.store c.world)
    ok (record { cluster = d; world = c.world })

  unfoldable pub inform : ℕ → Caller → Run Caller
  unfolding available
  inform id c = do
    r ← available e p c.cluster.info (o.store c.world) (pos id) false (o.others c.world)
    ok (record {
      cluster = record { info = r.0; nodes = c.cluster.nodes };
      world = o.with_store c.world r.1;
    })

  -- WaitUntilHealthy; `none` if it blocks
  abbrev pub after_wait : Caller → Waited → Option Caller
  after_wait c (blocked i call) = none
  after_wait c (returned i call) =
      some (record {
        cluster = record { info = i; nodes = c.cluster.nodes };
        world = o.watched c.world;
      })

  unfoldable pub wait_healthy : Caller → Run (Option Caller)
  unfolding wait_until_healthy
  wait_healthy c = do
    r ←
        wait_until_healthy e p c.cluster.info (o.store c.world) (o.opened c.world)
          (o.readings c.world)
    ok (after_wait c r)

  pub record Reply : Type 0 where
    pub status : Status
    pub value : Bytes
    pub caller : Caller

  -- what a round of the outer loop leads to
  pub data Next : Type 0 where
    returns : Reply → Next
    repeats : Reply → Next

  module _ (options : Options) (op : Bytes → World → Run (Answer World)) (key : Bytes) where
    -- `op(NodeForKey(key))`
    unfoldable pub call_node : (Bytes → World → Run (Answer World)) → Caller → Run Reply
    unfolding node_for_key
    call_node f c = do
      n ← node_for_key c.cluster key
      address ← or_abort n
      a ← f address c.world
      ok (record {
        status = a.status;
        value = a.value;
        caller = record { cluster = c.cluster; world = a.world };
      })

    unfoldable pub ping_node : Caller → Run Reply
    unfolding call_node node_ping
    ping_node c = call_node (λ address w. ok (node_ping o.stub address w)) c

    -- a round of the loop that waits until the node is back or marked as unavailable
    unfoldable pub ping_round : Caller → Run Reply
    unfolding index_for_key disconnect pause refresh ping_node inform
    ping_round c = do
      id ← index_for_key c.cluster.info key
      d ← refresh (disconnect id (pause c))
      r ← ping_node d
      informed ← (if options.inform_on_unavailable then inform id r.caller else ok r.caller)
      ok (record { status = r.status; value = r.value; caller = informed })

    abbrev pub is_awaited : Reply → Bool
    is_awaited r = is_healthy r.caller.cluster.info.info && not (is_grpc_ok r.status)

    unfoldable pub await_node : ℕ → Reply → Run (Option Caller)
    unfolding ping_round
    await_node zero r = ok (if is_awaited r then none else some r.caller)
    await_node (suc fuel) r = elim (is_awaited r) [
      | false ↦ ok (some r.caller)
      | true ↦ ping_round r.caller >>= await_node fuel
    ]

    -- the end of a round: wait if the cluster is unhealthy, and retry
    unfoldable pub call_again : Caller → Run (Option Next)
    unfolding call_node
    call_again c = do r ← call_node op c; ok (some (repeats r))

    abbrev pub call_after_wait : ℕ → Option Caller → Run (Option Next)
    call_after_wait id none = ok none
    call_after_wait id (some c) = refresh (disconnect id c) >>= call_again

    unfoldable pub finish_round : Reply → Caller → Run (Option Next)
    unfolding call_again index_for_key wait_healthy
    finish_round r c = if is_healthy c.cluster.info.info then call_again c else do
      id ← index_for_key c.cluster.info key
      if options.wait_on_unhealthy
          then wait_healthy c >>= call_after_wait id
          else ok (some (returns (record { status = r.status; value = r.value; caller = c })))

    abbrev pub finish_awaited : Reply → Option Caller → Run (Option Next)
    finish_awaited r none = ok none
    finish_awaited r (some c) = finish_round r c

    -- after a ping of the node that did not answer
    unfoldable pub after_ping : ℕ → Reply → Reply → Run (Option Next)
    unfolding await_node finish_round ensure_rpc
    after_ping fuel r ping = if is_grpc_ok ping.status then finish_round r ping.caller else do
      (if is_unavailable ping.status then ok tt else ensure_rpc ping.status)
      await_node fuel ping >>= finish_awaited r

    -- a round after status INVALID_ARGUMENT, and after status UNAVAILABLE
    unfoldable pub invalid_round : Reply → Run (Option Next)
    unfolding index_for_key refresh pause call_again
    invalid_round r = do
      id ← index_for_key r.caller.cluster.info key
      d ← refresh (pause r.caller)
      call_again d

    unfoldable pub unavailable_round : ℕ → Reply → Run (Option Next)
    unfolding index_for_key finish_round disconnect pause refresh call_again ping_node after_ping
    unavailable_round fuel r = do
      id ← index_for_key r.caller.cluster.info key
      if is_former_master_crashed r.status then finish_round r r.caller else do
        d ← refresh (disconnect id (pause r.caller))
        now ← index_for_key d.cluster.info key
        if now == id then ping_node d >>= after_ping fuel r else call_again d

    unfoldable pub operation_round : ℕ → Reply → Run (Option Next)
    unfolding invalid_round unavailable_round
    operation_round fuel r =
        if is_invalid r.status.grpc_code then invalid_round r else unavailable_round fuel r

    abbrev pub go_on : (Reply → Run (Option Reply)) → Option Next → Run (Option Reply)
    go_on again none = ok none
    go_on again (some (returns r)) = ok (some r)
    go_on again (some (repeats r)) = again r

    unfoldable pub operation_from : ℕ → Reply → Run (Option Reply)
    unfolding operation_round
    operation_from zero r = ok (if is_retried r.status then none else some r)
    operation_from (suc fuel) r = elim (is_retried r.status) [
      | false ↦ ok (some r)
      | true ↦ operation_round (suc fuel) r >>= go_on (operation_from fuel)
    ]

    unfoldable pub operation : ℕ → Caller → Run (Option Reply)
    unfolding call_node operation_from
    operation fuel c = call_node op c >>= operation_from fuel

  module _ (options : Options) (fuel : ℕ) (c : Caller) where
    unfoldable pub cluster_get : Bytes → Run (Option Reply)
    unfolding operation node_get
    cluster_get key = operation options (λ a. node_get o.stub a key) key fuel c

    unfoldable pub cluster_put : Bytes → Bytes → Run (Option Reply)
    unfolding operation node_put
    cluster_put key value = operation options (λ a. node_put o.stub a key value) key fuel c

    unfoldable pub cluster_delete : Bytes → Run (Option Reply)
    unfolding operation node_delete
    cluster_delete key = operation options (λ a. node_delete o.stub a key) key fuel c

    unfoldable pub cluster_single_delete : Bytes → Run (Option Reply)
    unfolding operation node_single_delete
    cluster_single_delete key = operation options (λ a. node_single_delete o.stub a key) key fuel c

    unfoldable pub cluster_merge : Bytes → Bytes → Run (Option Reply)
    unfolding operation node_merge
    cluster_merge key value = operation options (λ a. node_merge o.stub a key value) key fuel c
