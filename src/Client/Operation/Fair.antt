-- ===== src/Client/Operation/Fair.antt =====
-- What the outside does while ClusterImpl::Operation goes on, and its inner loop (src/client/cluster_impl.cc).
use crocks.Prelude.{
  ℕ, zero, suc, ◌≤◌, ◌<◌, Bool, true, false, not, ◌&&◌, Option, none, some, Bytes, ◌≡◌, ◌≢◌, refl,
  inl, inr, Bool-cases, if◌then◌else◌, arith, pos, Run, ok, abort, ◌>>=◌, or_abort, OnOk, >>=-OnOk,
  >>=-OnOk_any, if-OnOk,
}
use crocks.Status.{is_grpc_ok}
use crocks.Etcd.{Etcd}
use crocks.Info.{Proto, index_for_key, available}
use crocks.Client.{node_for_key, update}
use crocks.Client.Node.{Answer, node_ping}
use crocks.Client.Operation.{
  Options, Outside, is_retried, Caller, Reply, call_node, disconnect, pause, refresh, inform,
  ping_node, ping_round, is_awaited, await_node, wait_healthy,
}

module _ (e : Etcd) (p : Proto) (o : Outside e)
    (op : Bytes → Outside.World o → Run (Answer (Outside.World o))) where
  open o use {World}

  -- The outside has `patience` left: a bound on how often the operation is still rejected or a ping
  -- fails, which nothing raises; and whoever waits for a healthy cluster sees one.
  pub record IsFair (patience : World → ℕ) : Type 0 where
    pub called :
        (address : Bytes) (w : World) (a : Answer World)
        → op address w ≡ ok a
        → is_retried a.status ≡ true
        → patience a.world < patience w
    pub pinged :
        (address : Bytes) (w : World) → patience (node_ping o.stub address w).world ≤ patience w
    pub pinged_down :
        (address : Bytes) (w : World)
        → is_grpc_ok (node_ping o.stub address w).status ≡ false
        → patience (node_ping o.stub address w).world < patience w
    pub slept : (w : World) → patience (o.sleep w) ≤ patience w
    pub stored : (w : World) (s : e.Store) → patience (o.with_store w s) ≤ patience w
    pub watched : (w : World) → patience (o.watched w) ≤ patience w
    pub healed : (c : Caller e p o) → wait_healthy e p o c ≢ ok none

  module _ (options : Options) (key : Bytes) (patience : World → ℕ) (fair : IsFair patience) where
    abbrev pub Within : ℕ → Caller e p o → Type 0
    Within m c = patience c.world ≤ m

    abbrev pub IsWithin : ℕ → Option (Caller e p o) → Type 0
    IsWithin m none = true ≡ false
    IsWithin m (some c) = Within m c

    -- a rejected operation has used up patience
    abbrev pub IsSpent : ℕ → Reply e p o → Type 0
    IsSpent m r = is_retried r.status ≡ true → patience r.caller.world < m

    -- a ping, and a failed one
    abbrev pub IsPinged : ℕ → Reply e p o → Type 0
    IsPinged m r =
        (patience r.caller.world ≤ m) × (is_grpc_ok r.status ≡ false → patience r.caller.world < m)

    pub refresh-Within : (m : ℕ) (c : Caller e p o) → Within m c → OnOk (Within m) (refresh e p o c)
    unfolding refresh
    refresh-Within m c h =
        >>=-OnOk_any (Within m) (update e p c.cluster (o.store c.world)) _ (λ d. h)

    inform-Within : (m id : ℕ) (c : Caller e p o) → Within m c → OnOk (Within m) (inform e p o id c)
    unfolding inform
    inform-Within m id c h =
        let informed =
          available e p c.cluster.info (o.store c.world) (pos id) false (o.others c.world) in
        >>=-OnOk_any (Within m) informed _ (λ r.
          let kept : patience (o.with_store c.world r.1) ≤ m =
            omega (arith, fair.stored c.world r.1, h) in
          kept)

    pub call_node-IsSpent :
        (m : ℕ) (c : Caller e p o)
        → Within m c
        → OnOk (IsSpent m) (call_node e p o options op key op c)
    unfolding call_node
    call_node-IsSpent m c h = >>=-OnOk_any (IsSpent m) (node_for_key c.cluster key) _ (λ n.
        >>=-OnOk_any (IsSpent m) (or_abort n) _
          (λ address. answered address (op address c.world) refl))
      where
        answered :
            (address : Bytes) (a : Run (Answer World))
            → op address c.world ≡ a
            → OnOk (IsSpent m) (
                a >>= λ b. ok (record {
                  status = b.status;
                  value = b.value;
                  caller = record { cluster = c.cluster; world = b.world };
                }))
        answered address (ok a) eq = λ bad. omega (arith, fair.called address c.world a eq bad, h)
        answered address abort eq = tt

    pub ping_node-IsPinged :
        (m : ℕ) (c : Caller e p o)
        → Within m c
        → OnOk (IsPinged m) (ping_node e p o options op key c)
    unfolding ping_node call_node
    ping_node-IsPinged m c h = >>=-OnOk_any (IsPinged m) (node_for_key c.cluster key) _ (λ n.
        >>=-OnOk_any (IsPinged m) (or_abort n) _ (λ address. (
          omega (arith, fair.pinged address c.world, h),
          λ down. omega (arith, fair.pinged_down address c.world down, h),
        )))

    pub disconnect-pause-Within :
        (m id : ℕ) (c : Caller e p o) → Within m c → Within m (disconnect e p o id (pause e p o c))
    unfolding disconnect pause
    disconnect-pause-Within m id c h = omega (arith, fair.slept c.world, h)

    ping_round-IsPinged :
        (m : ℕ) (c : Caller e p o)
        → Within m c
        → OnOk (IsPinged m) (ping_round e p o options op key c)
    unfolding ping_round
    ping_round-IsPinged m c h =
        >>=-OnOk_any (IsPinged m) (index_for_key c.cluster.info key) _ (λ id.
          let paused = disconnect e p o id (pause e p o c) in
          >>=-OnOk (Within m) (IsPinged m) (refresh e p o paused) _
            (refresh-Within m paused (disconnect-pause-Within m id c h))
            (λ d w.
              >>=-OnOk (IsPinged m) (IsPinged m) (ping_node e p o options op key d) _
                (ping_node-IsPinged m d w) (informed id)))
      where
        informed :
            (id : ℕ) (r : Reply e p o)
            → IsPinged m r
            → OnOk (IsPinged m) (
                (if options.inform_on_unavailable then inform e p o id r.caller else ok r.caller)
                >>= λ c. ok (record { status = r.status; value = r.value; caller = c }))
        informed id r (w, down) =
            let now = patience r.caller.world in
            >>=-OnOk (Within now) (IsPinged m)
              (if options.inform_on_unavailable then inform e p o id r.caller else ok r.caller) _
              (if-OnOk (Within now) options.inform_on_unavailable _ _
                (λ b. inform-Within now id r.caller (omega arith)) (λ b. omega arith))
              (λ c v. (omega (arith, w, v), λ bad. omega (arith, down bad, v)))

    awaited-False : (a b : Bool) → (a && not b) ≡ true → b ≡ false
    awaited-False true true h = absurd (cc h)
    awaited-False false true h = absurd (cc h)
    awaited-False a false h = refl

    pub await_node-IsWithin :
        (fuel m : ℕ) (r : Reply e p o)
        → IsPinged fuel r
        → Within m r.caller
        → OnOk (IsWithin m) (await_node e p o options op key fuel r)
    unfolding await_node
    await_node-IsWithin zero m r (w, down) v =
        elim (Bool-cases (is_awaited e p o options op key r)) [
          | inl more ↦ absurd (omega (arith, down (awaited-False _ _ more)))
          | inr over ↦ rw (over, await_node) v
        ]
    await_node-IsWithin (suc fuel) m r (w, down) v =
        elim (Bool-cases (is_awaited e p o options op key r)) [
          | inr over ↦ rw (over, await_node) v
          | inl more ↦
              let less = down (awaited-False _ _ more) in
              let now = patience r.caller.world in
              rw (more, await_node)
                (>>=-OnOk (IsPinged now) (IsWithin m) (ping_round e p o options op key r.caller) _
                  (ping_round-IsPinged now r.caller (omega arith))
                  (λ q (u, gone).
                    await_node-IsWithin fuel m q
                      (omega (arith, u, less), λ bad. omega (arith, gone bad, less))
                      (omega (arith, u, v))))
        ]
