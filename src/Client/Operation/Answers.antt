-- ===== src/Client/Operation/Answers.antt =====
-- The answers that ClusterImpl::Operation gives (src/client/cluster_impl.cc).
use crocks.Prelude.{
  ℕ, zero, suc, false, Option, none, some, Bytes, ◌≡◌, ◌⊎◌, inl, inr, Bool-cases, if◌then◌else◌,
  ◌==◌, Run, ok, OnOk, >>=-OnOk, >>=-OnOk_any, if-OnOk, subst,
}
use crocks.Cluster.{is_healthy}
use crocks.Status.{is_unavailable, is_grpc_ok, ensure_rpc}
use crocks.Etcd.{Etcd}
use crocks.Info.{Proto, index_for_key}
use crocks.Client.Node.{Answer}
use crocks.Client.Operation.{
  Options, Outside, is_retried, is_invalid, is_former_master_crashed, Caller, Reply, Next, returns,
  repeats, call_node, call_again, call_after_wait, finish_round, finish_awaited, after_ping,
  invalid_round, unavailable_round, operation_round, go_on, operation_from, operation, disconnect,
  pause, refresh, ping_node, await_node, wait_healthy,
}

module _ (e : Etcd) (p : Proto) (o : Outside e) (options : Options)
    (op : Bytes → Outside.World o → Run (Answer (Outside.World o))) (key : Bytes) where
  -- a good reason to return
  abbrev pub IsFinal : Reply e p o → Type 0
  IsFinal r =
      (is_retried r.status ≡ false)
      ⊎ ((options.wait_on_unhealthy ≡ false) × (is_healthy r.caller.cluster.info.info ≡ false))

  abbrev EndsWell : Option (Reply e p o) → Type 0
  EndsWell none = Unit
  EndsWell (some r) = IsFinal r

  abbrev GoesWell : Option (Next e p o) → Type 0
  GoesWell none = Unit
  GoesWell (some (returns r)) = IsFinal r
  GoesWell (some (repeats r)) = Unit

  call_again-GoesWell : (c : Caller e p o) → OnOk GoesWell (call_again e p o options op key c)
  unfolding call_again
  call_again-GoesWell c = >>=-OnOk_any GoesWell (call_node e p o options op key op c) _ (λ r. tt)

  call_after_wait-GoesWell :
      (id : ℕ) (c : Option (Caller e p o))
      → OnOk GoesWell (call_after_wait e p o options op key id c)
  call_after_wait-GoesWell id none = tt
  call_after_wait-GoesWell id (some c) =
      >>=-OnOk_any GoesWell (refresh e p o (disconnect e p o id c)) _ call_again-GoesWell

  finish_round-GoesWell :
      (r : Reply e p o) (c : Caller e p o) → OnOk GoesWell (finish_round e p o options op key r c)
  unfolding finish_round
  finish_round-GoesWell r c =
      if-OnOk GoesWell (is_healthy c.cluster.info.info) _ _ (λ h. call_again-GoesWell c)
        (λ ill. >>=-OnOk_any GoesWell (index_for_key c.cluster.info key) _ (λ id.
          if-OnOk GoesWell options.wait_on_unhealthy _ _
            (λ waits. >>=-OnOk_any GoesWell (wait_healthy e p o c) _ (call_after_wait-GoesWell id))
            (λ leaves. inr (leaves, ill))))

  finish_awaited-GoesWell :
      (r : Reply e p o) (c : Option (Caller e p o))
      → OnOk GoesWell (finish_awaited e p o options op key r c)
  finish_awaited-GoesWell r none = tt
  finish_awaited-GoesWell r (some c) = finish_round-GoesWell r c

  after_ping-GoesWell :
      (fuel : ℕ) (r ping : Reply e p o)
      → OnOk GoesWell (after_ping e p o options op key fuel r ping)
  unfolding after_ping
  after_ping-GoesWell fuel r ping =
      if-OnOk GoesWell (is_grpc_ok ping.status) _ _ (λ h. finish_round-GoesWell r ping.caller)
        (λ h.
          >>=-OnOk_any GoesWell
            (if is_unavailable ping.status then ok tt else ensure_rpc ping.status) _
            (λ u.
              >>=-OnOk_any GoesWell (await_node e p o options op key fuel ping) _
                (finish_awaited-GoesWell r)))

  unavailable_round-GoesWell :
      (fuel : ℕ) (r : Reply e p o) → OnOk GoesWell (unavailable_round e p o options op key fuel r)
  unfolding unavailable_round
  unavailable_round-GoesWell fuel r =
      >>=-OnOk_any GoesWell (index_for_key r.caller.cluster.info key) _ (λ id.
        if-OnOk GoesWell (is_former_master_crashed r.status) _ _
          (λ h. finish_round-GoesWell r r.caller)
          (λ h.
            >>=-OnOk_any GoesWell (refresh e p o (disconnect e p o id (pause e p o r.caller))) _
              (λ d. >>=-OnOk_any GoesWell (index_for_key d.cluster.info key) _ (λ now.
                if-OnOk GoesWell (now == id) _ _
                  (λ same.
                    >>=-OnOk_any GoesWell (ping_node e p o options op key d) _
                      (after_ping-GoesWell fuel r))
                  (λ moved. call_again-GoesWell d)))))

  operation_round-GoesWell :
      (fuel : ℕ) (r : Reply e p o) → OnOk GoesWell (operation_round e p o options op key fuel r)
  unfolding operation_round invalid_round
  operation_round-GoesWell fuel r =
      if-OnOk GoesWell (is_invalid r.status.grpc_code) _ _
        (λ h. >>=-OnOk_any GoesWell (index_for_key r.caller.cluster.info key) _ (λ id.
          >>=-OnOk_any GoesWell (refresh e p o (pause e p o r.caller)) _ call_again-GoesWell))
        (λ h. unavailable_round-GoesWell fuel r)

  go_on-EndsWell :
      (again : Reply e p o → Run (Option (Reply e p o)))
      → ((r : Reply e p o) → OnOk EndsWell (again r))
      → (n : Option (Next e p o)) → GoesWell n
      → OnOk EndsWell (go_on e p o options op key again n)
  go_on-EndsWell again h none w = tt
  go_on-EndsWell again h (some (returns r)) w = w
  go_on-EndsWell again h (some (repeats r)) w = h r

  operation_from-EndsWell :
      (fuel : ℕ) (r : Reply e p o) → OnOk EndsWell (operation_from e p o options op key fuel r)
  unfolding operation_from
  operation_from-EndsWell zero r = elim (Bool-cases (is_retried r.status)) [
    | inl bad ↦ rw (bad, operation_from) tt
    | inr good ↦ rw (good, operation_from) (inl good)
  ]
  operation_from-EndsWell (suc fuel) r = elim (Bool-cases (is_retried r.status)) [
    | inl bad ↦
        rw (bad, operation_from)
          (>>=-OnOk GoesWell EndsWell (operation_round e p o options op key (suc fuel) r) _
            (operation_round-GoesWell (suc fuel) r)
            (go_on-EndsWell _ (operation_from-EndsWell fuel)))
    | inr good ↦ rw (good, operation_from) (inl good)
  ]

  -- When Operation returns, its status is neither UNAVAILABLE nor INVALID_ARGUMENT, except that a
  -- client that does not wait returns the failure when the info that it has is not healthy.
  pub operation-IsFinal :
      (fuel : ℕ) (c : Caller e p o) (r : Reply e p o)
      → operation e p o options op key fuel c ≡ ok (some r)
      → IsFinal r
  unfolding operation
  operation-IsFinal fuel c r h =
      subst (OnOk EndsWell) h (
        >>=-OnOk_any EndsWell (call_node e p o options op key op c) _
          (operation_from-EndsWell fuel))
