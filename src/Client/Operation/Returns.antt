-- ===== src/Client/Operation/Returns.antt =====
-- How long ClusterImpl::Operation goes on (src/client/cluster_impl.cc).
use crocks.Prelude.{
  ℕ, zero, suc, ◌≤◌, true, false, Option, none, some, Bytes, ◌≡◌, ◌≢◌, refl, subst, inl, inr,
  Bool-cases, if◌then◌else◌, ◌==◌, arith, Run, ok, abort, ◌>>=◌, OnOk, >>=-OnOk, >>=-OnOk_any,
  if-OnOk,
}
use crocks.Cluster.{is_healthy}
use crocks.Status.{is_unavailable, is_grpc_ok, ensure_rpc}
use crocks.Etcd.{Etcd}
use crocks.Info.{Proto, index_for_key}
use crocks.Client.Node.{Answer}
use crocks.Client.Operation.{
  Options, Outside, is_retried, is_invalid, is_former_master_crashed, Caller, Reply, Next, returns,
  repeats, call_node, call_again, call_after_wait, finish_round, finish_awaited, after_ping,
  invalid_round, unavailable_round, operation_round, go_on, operation_from, operation, disconnect,
  pause, refresh, ping_node, await_node, wait_healthy, after_wait,
}
use crocks.Client.Operation.Fair.{
  IsFair, Within, IsWithin, IsSpent, IsPinged, refresh-Within, call_node-IsSpent,
  ping_node-IsPinged, disconnect-pause-Within, await_node-IsWithin,
}
use crocks.Info.Watching.{Waited, returned, blocked}

module _ (e : Etcd) (p : Proto) (o : Outside e)
    (op : Bytes → Outside.World o → Run (Answer (Outside.World o))) (options : Options)
    (key : Bytes) (patience : Outside.World o → ℕ) (fair : IsFair e p o op patience) where
  abbrev IsNext : ℕ → Option (Next e p o) → Type 0
  IsNext m none = true ≡ false
  IsNext m (some (returns r)) = Unit
  IsNext m (some (repeats r)) = IsSpent e p o op options key patience fair m r

  abbrev IsDone : Option (Reply e p o) → Type 0
  IsDone none = true ≡ false
  IsDone (some r) = Unit

  call_again-IsNext :
      (m : ℕ) (c : Caller e p o)
      → Within e p o op options key patience fair m c
      → OnOk (IsNext m) (call_again e p o options op key c)
  unfolding call_again
  call_again-IsNext m c h =
      >>=-OnOk (IsSpent e p o op options key patience fair m) (IsNext m)
        (call_node e p o options op key op c) _
        (call_node-IsSpent e p o op options key patience fair m c h) (λ r s. s)

  after_wait-IsWithin :
      (m : ℕ) (c : Caller e p o) (w : Run Waited)
      → w >>= (λ r. ok (after_wait e p o c r)) ≢ ok none
      → Within e p o op options key patience fair m c
      → OnOk (IsWithin e p o op options key patience fair m) (w >>= λ r. ok (after_wait e p o c r))
  after_wait-IsWithin m c (ok (blocked i call)) goes h = absurd (goes refl)
  after_wait-IsWithin m c (ok (returned i call)) goes h = omega (arith, fair.watched c.world, h)
  after_wait-IsWithin m c abort goes h = tt

  wait_healthy-IsWithin :
      (m : ℕ) (c : Caller e p o)
      → Within e p o op options key patience fair m c
      → OnOk (IsWithin e p o op options key patience fair m) (wait_healthy e p o c)
  unfolding wait_healthy
  wait_healthy-IsWithin m c h = after_wait-IsWithin m c _ (fair.healed c) h

  call_after_wait-IsNext :
      (m id : ℕ) (c : Option (Caller e p o))
      → IsWithin e p o op options key patience fair m c
      → OnOk (IsNext m) (call_after_wait e p o options op key id c)
  unfolding disconnect
  call_after_wait-IsNext m id none h = absurd (cc h)
  call_after_wait-IsNext m id (some c) h =
      >>=-OnOk (Within e p o op options key patience fair m) (IsNext m)
        (refresh e p o (disconnect e p o id c)) _
        (refresh-Within e p o op options key patience fair m (disconnect e p o id c) h)
        (call_again-IsNext m)

  finish_round-IsNext :
      (m : ℕ) (r : Reply e p o) (c : Caller e p o)
      → Within e p o op options key patience fair m c
      → OnOk (IsNext m) (finish_round e p o options op key r c)
  unfolding finish_round
  finish_round-IsNext m r c h =
      if-OnOk (IsNext m) (is_healthy c.cluster.info.info) _ _ (λ well. call_again-IsNext m c h)
        (λ ill. >>=-OnOk_any (IsNext m) (index_for_key c.cluster.info key) _ (λ id.
          if-OnOk (IsNext m) options.wait_on_unhealthy _ _
            (λ waits.
              >>=-OnOk (IsWithin e p o op options key patience fair m) (IsNext m)
                (wait_healthy e p o c) _ (wait_healthy-IsWithin m c h)
                (call_after_wait-IsNext m id))
            (λ leaves. tt)))

  finish_awaited-IsNext :
      (m : ℕ) (r : Reply e p o) (c : Option (Caller e p o))
      → IsWithin e p o op options key patience fair m c
      → OnOk (IsNext m) (finish_awaited e p o options op key r c)
  finish_awaited-IsNext m r none h = absurd (cc h)
  finish_awaited-IsNext m r (some c) h = finish_round-IsNext m r c h

  after_ping-IsNext :
      (fuel m : ℕ) (r ping : Reply e p o)
      → IsPinged e p o op options key patience fair fuel ping
      → Within e p o op options key patience fair m ping.caller
      → OnOk (IsNext m) (after_ping e p o options op key fuel r ping)
  unfolding after_ping
  after_ping-IsNext fuel m r ping h w =
      if-OnOk (IsNext m) (is_grpc_ok ping.status) _ _ (λ up. finish_round-IsNext m r ping.caller w)
        (λ down.
          >>=-OnOk_any (IsNext m)
            (if is_unavailable ping.status then ok tt else ensure_rpc ping.status) _
            (λ u.
              >>=-OnOk (IsWithin e p o op options key patience fair m) (IsNext m)
                (await_node e p o options op key fuel ping) _
                (await_node-IsWithin e p o op options key patience fair fuel m ping h w)
                (finish_awaited-IsNext m r)))

  unavailable_round-IsNext :
      (fuel m : ℕ) (r : Reply e p o)
      → m ≤ fuel
      → Within e p o op options key patience fair m r.caller
      → OnOk (IsNext m) (unavailable_round e p o options op key fuel r)
  unfolding unavailable_round
  unavailable_round-IsNext fuel m r le h =
      >>=-OnOk_any (IsNext m) (index_for_key r.caller.cluster.info key) _ (λ id.
        if-OnOk (IsNext m) (is_former_master_crashed r.status) _ _
          (λ crashed. finish_round-IsNext m r r.caller h)
          (λ other.
            let paused = disconnect e p o id (pause e p o r.caller) in
            >>=-OnOk (Within e p o op options key patience fair m) (IsNext m) (refresh e p o paused)
              _
              (refresh-Within e p o op options key patience fair m paused
                (disconnect-pause-Within e p o op options key patience fair m id r.caller h))
              (λ d w. >>=-OnOk_any (IsNext m) (index_for_key d.cluster.info key) _ (λ now.
                if-OnOk (IsNext m) (now == id) _ _
                  (λ same.
                    >>=-OnOk (IsPinged e p o op options key patience fair m) (IsNext m)
                      (ping_node e p o options op key d) _
                      (ping_node-IsPinged e p o op options key patience fair m d w)
                      (λ ping (u, gone).
                        after_ping-IsNext fuel m r ping
                          (omega (arith, u, le), λ down. omega (arith, gone down, le)) u))
                  (λ moved. call_again-IsNext m d w)))))

  operation_round-IsNext :
      (fuel m : ℕ) (r : Reply e p o)
      → m ≤ fuel
      → Within e p o op options key patience fair m r.caller
      → OnOk (IsNext m) (operation_round e p o options op key fuel r)
  unfolding operation_round invalid_round pause
  operation_round-IsNext fuel m r le h =
      if-OnOk (IsNext m) (is_invalid r.status.grpc_code) _ _
        (λ invalid. >>=-OnOk_any (IsNext m) (index_for_key r.caller.cluster.info key) _ (λ id.
          >>=-OnOk (Within e p o op options key patience fair m) (IsNext m)
            (refresh e p o (pause e p o r.caller)) _
            (refresh-Within e p o op options key patience fair m (pause e p o r.caller)
              (omega (arith, fair.slept r.caller.world, h)))
            (call_again-IsNext m)))
        (λ other. unavailable_round-IsNext fuel m r le h)

  go_on-IsDone :
      (m : ℕ) (again : Reply e p o → Run (Option (Reply e p o)))
      → ((r : Reply e p o) → IsSpent e p o op options key patience fair m r → OnOk IsDone (again r))
      → (n : Option (Next e p o)) → IsNext m n
      → OnOk IsDone (go_on e p o options op key again n)
  go_on-IsDone m again h none w = absurd (cc w)
  go_on-IsDone m again h (some (returns r)) w = tt
  go_on-IsDone m again h (some (repeats r)) w = h r w

  operation_from-IsDone :
      (fuel : ℕ) (r : Reply e p o)
      → IsSpent e p o op options key patience fair fuel r
      → OnOk IsDone (operation_from e p o options op key fuel r)
  unfolding operation_from
  operation_from-IsDone zero r h = elim (Bool-cases (is_retried r.status)) [
    | inl bad ↦ absurd (omega (arith, h bad))
    | inr good ↦ rw (good, operation_from) tt
  ]
  operation_from-IsDone (suc fuel) r h = elim (Bool-cases (is_retried r.status)) [
    | inr good ↦ rw (good, operation_from) tt
    | inl bad ↦
        rw (bad, operation_from)
          (>>=-OnOk (IsNext fuel) IsDone (operation_round e p o options op key (suc fuel) r) _
            (operation_round-IsNext (suc fuel) fuel r (omega arith) (omega (arith, h bad)))
            (go_on-IsDone fuel _ (operation_from-IsDone fuel)))
  ]

  -- If the operation is rejected and pings fail only finitely often, and whoever waits for a
  -- healthy cluster sees one, then Operation ends: a fuel of that bound is enough.
  pub operation-returns :
      (c : Caller e p o) → operation e p o options op key (patience c.world) c ≢ ok none
  unfolding operation
  operation-returns c h =
      let bound = patience c.world in
      let wrong : true ≡ false = subst (OnOk IsDone) h (
        >>=-OnOk (IsSpent e p o op options key patience fair bound) IsDone
          (call_node e p o options op key op c) _
          (call_node-IsSpent e p o op options key patience fair bound c (omega arith))
          (operation_from-IsDone bound)) in
      absurd (cc wrong)
