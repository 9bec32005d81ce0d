-- ===== src/Tests/Operation.antt =====
-- A client whose request is rejected a number of times, and one that asks a node whose former master
-- has crashed.
use crocks.Prelude.{
  ℕ, zero, suc, ◌≡◌, ◌≢◌, ◌≤◌, ◌<◌, refl, ap, Bool, true, false, abort, ◌>>=◌, [], ◌∷◌, none, some,
  Bytes, Run, ok, beq, arith,
}
use crocks.Cluster.{is_healthy, masters, addresses}
use crocks.Hash.{hash}
use crocks.Etcd.Watch.{WatchCall, received, no_watch_response}
use crocks.Info.{Info, index_for_key}
use crocks.Info.Watching.{Waited, returned, blocked}
use crocks.Info.Watching.Healthy.{silent, wait_until_healthy-returned}
use crocks.Status.{GrpcCode, GrpcStatus, StatusCode, is_unavailable, is_grpc_ok}
use crocks.Client.Node.{Response, Rpc, Answer, node_ping, node_get}
use crocks.Client.Operation.{
  Outside, Caller, Reply, operation, default_options, after_wait, wait_healthy, is_retried,
}
use crocks.Client.Operation.Answers.{operation-IsFinal, IsFinal}
use crocks.Client.Operation.Fair.{IsFair}
use crocks.Client.Operation.Returns.{operation-returns}
use crocks.Client.Operation.Crashed.{operation-crashed, IsCrashed}
use crocks.Tests.Wire.{wire}
use crocks.Tests.Store.{table}
use crocks.Tests.Info.{holding}
use crocks.Tests.Cluster.{sample}
use crocks.Tests.Client.{connected}

-- the world counts the answers UNAVAILABLE that are left
abbrev reject : Bytes → Rpc → ℕ × Response → (ℕ × Response) × GrpcStatus
reject a rpc (zero, r) =
    ((zero, record r { value = 7 ∷ [] }), record { error_code = GrpcCode.fine; message = "" })
reject a rpc (suc n, r) = (
  (n, r),
  record { error_code = GrpcCode.unavailable; message = "The former master has crashed" },
)

abbrev rejecting : Outside table
rejecting = record {
  World = ℕ;
  stub = reject;
  store = λ w. holding sample;
  with_store = λ w s. w;
  others = λ w. [];
  sleep = λ w. w;
  opened = λ w. received (record no_watch_response { created = true });
  readings = λ w. [];
  watched = λ w. w;
}

abbrev asking : Bytes → ℕ → Run (Answer ℕ)
asking a = node_get reject a (b'k' ∷ [])

abbrev waiting : ℕ → Caller table wire rejecting
waiting n = record { cluster = connected; world = n }

abbrev served : Reply table wire rejecting
served = record {
  status = record {
    grpc_code = GrpcCode.fine;
    rocksdb_code = StatusCode.fine;
    error_message = "OK";
  };
  value = 7 ∷ [];
  caller = waiting 0;
}

served_run :
    operation table wire rejecting default_options asking (b'k' ∷ []) 2 (waiting 2)
    ≡ ok (some served)
unfolding operation node_get addresses masters hash is_unavailable is_healthy
served_run = refl

operation-IsFinal_example : IsFinal table wire rejecting default_options asking (b'k' ∷ []) served
operation-IsFinal_example =
    operation-IsFinal table wire rejecting default_options asking (b'k' ∷ []) 2 (waiting 2) served
      served_run

abbrev is_retried_of : Run (Answer ℕ) → Bool
is_retried_of (ok a) = is_retried a.status
is_retried_of abort = false

abbrev world_of : Run (Answer ℕ) → ℕ
world_of (ok a) = a.world
world_of abort = 0

asking_fewer :
    (address : Bytes) (w : ℕ) (a : Answer ℕ)
    → asking address w ≡ ok a
    → is_retried a.status ≡ true
    → a.world < w
unfolding node_get is_unavailable
asking_fewer address zero a h bad = absurd (cc (ap is_retried_of h, bad))
asking_fewer address (suc zero) a h bad = absurd (cc (ap is_retried_of h, bad))
asking_fewer address (suc (suc n)) a h bad = let left : n ≡ a.world = ap world_of h in omega arith

pinged_fewer : (address : Bytes) (w : ℕ) → (node_ping reject address w).world ≤ w
unfolding node_ping
pinged_fewer address zero = omega arith
pinged_fewer address (suc n) = omega arith

pinged_down_fewer :
    (address : Bytes) (w : ℕ)
    → is_grpc_ok (node_ping reject address w).status ≡ false
    → (node_ping reject address w).world < w
unfolding node_ping is_grpc_ok
pinged_down_fewer address zero h = absurd (cc h)
pinged_down_fewer address (suc n) h = omega arith

healed_by :
    (c : Caller table wire rejecting) (r : Run Waited) (j : Info) (call : WatchCall)
    → r ≡ ok (returned j call)
    → r >>= (λ x. ok (after_wait table wire rejecting c x)) ≢ ok none
healed_by c (ok (returned i k)) j call e h = cc h
healed_by c (ok (blocked i k)) j call e h = cc e
healed_by c abort j call e h = cc e

healed : (c : Caller table wire rejecting) → wait_healthy table wire rejecting c ≢ ok none
unfolding wait_healthy is_healthy beq
healed c =
    let (j, call, back, same) =
      wait_until_healthy-returned table wire c.cluster.info (holding sample)
        (record no_watch_response { created = true }) [] sample [] sample refl refl silent refl in
    healed_by c _ j call back

rejecting-IsFair : IsFair table wire rejecting asking (λ w. w)
rejecting-IsFair = record {
  called = asking_fewer;
  pinged = pinged_fewer;
  pinged_down = pinged_down_fewer;
  slept = λ w. omega arith;
  stored = λ w s. omega arith;
  watched = λ w. omega arith;
  healed = healed;
}

operation-returns_example :
    operation table wire rejecting default_options asking (b'k' ∷ []) 2 (waiting 2) ≢ ok none
operation-returns_example =
    operation-returns table wire rejecting asking default_options (b'k' ∷ []) (λ w. w)
      rejecting-IsFair (waiting 2)

-- the node never finds the former master again
abbrev crash : Bytes → ℕ → Run (Answer ℕ)
crash a w = ok (record {
  status = record {
    grpc_code = GrpcCode.unavailable;
    rocksdb_code = StatusCode.unknown;
    error_message = "The former master has crashed";
  };
  value = [];
  world = suc w;
})

crash-IsCrashed : (w : ℕ) → (a : Answer ℕ) × (crash (1 ∷ []) w ≡ ok a) × IsCrashed a.status
unfolding is_unavailable
crash-IsCrashed w = (_, refl, record { code = refl; message = refl })

operation-crashed_example :
    operation table wire rejecting default_options crash (b'k' ∷ []) 9 (waiting 0) ≡ ok none
unfolding is_healthy index_for_key masters hash
operation-crashed_example =
    operation-crashed table wire rejecting default_options crash (b'k' ∷ []) connected (1 ∷ []) 0
      refl refl refl crash-IsCrashed 9 0
