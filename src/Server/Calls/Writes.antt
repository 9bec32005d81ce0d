-- ===== src/Server/Calls/Writes.antt =====
-- Put and Delete followed by Get (src/server/async_server.cc), also while the shard is being imported.
use crocks.Prelude.{
  ℕ, suc, ◌≡◌, refl, ap, sym, subst, ◌∙◌, true, false, ◌&&◌, [], some, Bytes, blt, arith, ==-refl,
  pos, ◌+ℤ◌, ◌-ℤ◌, pos-add_one, pos-sub_one, if◌then◌else◌, ok,
}
use crocks.Status.{StatusCode}
use crocks.Info.{shard_for_key, wrong_shard}
use crocks.Server.Shard.{RocksDb, Shard, ShardMap, shard_at, insert, ref, unref, put, delete, get}
use crocks.Server.Calls.{
  Node, response, reply, ask, answered, write_request, put_request, delete_request, get_request,
  get_forwarded,
}

module _ (db : RocksDb) where
  open db use {Cf}

  pub shard_at-insert :
      (m : ShardMap db) (id : ℕ) (s : Shard db) → shard_at db (insert db m id s) id ≡ some s
  unfolding shard_at insert
  shard_at-insert m id s = rw (==-refl id) refl

  ref_taken :
      (s : Shard db) → s.migrating ≡ false → ref db s ≡ (record s { refs = s.refs +ℤ pos 1 }, true)
  unfolding ref
  ref_taken s m = rw (m, ref) refl

  unref_back :
      (s : Shard db) (k : ℕ) (cf : Cf)
      → s.migrating ≡ false
      → s.refs ≡ pos (suc k)
      → unref db (record s { cf = cf; refs = s.refs +ℤ pos 1 }) false
        ≡ ok (record s { cf = cf }, true)
  unfolding unref
  unref_back s k cf m r =
      let back : s.refs +ℤ pos 1 -ℤ pos 1 ≡ s.refs =
        ap (λ x. x +ℤ pos 1 -ℤ pos 1) r
        ∙ ap (λ x. x -ℤ pos 1) (pos-add_one (suc k))
        ∙ pos-sub_one (suc k)
        ∙ sym r in
      rw (back, r) (ground arith)

  given_back :
      (s : Shard db) (k : ℕ) (w : Cf → Cf)
      → s.migrating ≡ false
      → s.refs ≡ pos (suc k)
      → unref db (record (ref db s).0 { cf = w (ref db s).0.cf }) false
        ≡ ok (record s { cf = w s.cf }, true)
  given_back s k w m r =
      subst
        (λ p. unref db (record p.0 { cf = w p.0.cf }) false ≡ ok (record s { cf = w s.cf }, true))
        (sym (ref_taken s m)) (unref_back s k (w s.cf) m r)

  write_request_lem :
      (n : Node db) (id k : ℕ) (s : Shard db) (w : Cf → Cf)
      → shard_at db n.shards id ≡ some s
      → s.migrating ≡ false
      → s.refs ≡ pos (suc k)
      → write_request db (λ t. record t { cf = w t.cf }) n id
        ≡ ok (
          record n { shards = insert db n.shards id (record s { cf = w s.cf }) },
          response StatusCode.fine [],
        )
  unfolding write_request
  write_request_lem n id k s w at_id m r =
      let taken : (ref db s).1 ≡ true = ap (λ p. p.1) (ref_taken s m) in
      rw (write_request, at_id, taken, given_back s k w m r) refl

  -- Right after a Put that a node takes, its Get answers with the value, and does not ask the former
  -- master, whether the shard is being imported or not.
  pub put-get :
      (n : Node db) (key v : Bytes) (id k : ℕ) (s : Shard db)
      → shard_for_key n.info key ≡ ok id
      → wrong_shard n.info (pos id) ≡ ok false
      → shard_at db n.shards id ≡ some s
      → s.migrating ≡ false
      → s.refs ≡ pos (suc k)
      → (later : Node db) × (put_request db n key v ≡ ok (later, response StatusCode.fine []))
        × (get_request db later key false ≡ ok (reply (response StatusCode.fine v)))
  unfolding put_request get_request put get
  put-get n key v id k s e right at_id m r =
      let t : Shard db = record s { cf = db.put s.cf key v } in
      let later : Node db = record n { shards = insert db n.shards id t } in
      (
        later,
        rw (put_request, e, write_request_lem n id k s (λ f. db.put f key v) at_id m r) refl,
        rw (get_request, e, right, shard_at-insert n.shards id t, db.entry-put s.cf key v)
            (ground arith),
      )

  -- Right after a Delete that a node takes, its Get finds nothing, unless the shard is being imported and
  -- the key is past the largest key ingested: then, although the deletion is the newest entry, the
  -- node asks the former master, and answers with the value that the key had there.
  pub delete-get :
      (n : Node db) (key old : Bytes) (id k : ℕ) (s : Shard db)
      → shard_for_key n.info key ≡ ok id
      → wrong_shard n.info (pos id) ≡ ok false
      → shard_at db n.shards id ≡ some s
      → s.migrating ≡ false
      → s.refs ≡ pos (suc k)
      → (later : Node db) × (t : Shard db) × (delete_request db n key
          ≡ ok (later, response StatusCode.fine []))
        × (get_request db later key false
            ≡ ok (
                if s.importing && blt s.largest_key key
                then ask t
                else reply (response StatusCode.not_found [])))
        × (get_forwarded db later t key (answered StatusCode.fine old)
            ≡ ok (response StatusCode.fine old))
  unfolding delete_request get_request get_forwarded delete get
  delete-get n key old id k s e right at_id m r =
      let t : Shard db = record s { cf = db.delete s.cf key } in
      let later : Node db = record n { shards = insert db n.shards id t } in
      (
        later,
        t,
        rw (delete_request, e, write_request_lem n id k s (λ f. db.delete f key) at_id m r) refl,
        rw (get_request, e, right, shard_at-insert n.shards id t, db.entry-delete s.cf key)
            (ground arith),
        refl,
      )
