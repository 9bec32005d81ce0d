-- ===== src/Info.antt =====
-- The class Info (src/common/info.h, src/common/info.cc): a process's copy of the cluster info, and
-- its updates through etcd, each repeated until its transaction succeeds. Other processes may
-- change etcd between the read and the transaction of a round; a list says how, round by round.
pub mod Watching
pub mod Retry
pub mod Updates
pub mod Lookup
pub mod Places
pub mod Printing
use crocks.Prelude.{
  ℕ, ◌%◌, Bool, true, false, not, ◌&&◌, ◌||◌, List, [], ◌∷◌, Option, none, some, Bytes, ◌≡◌, ℤ, pos,
  negsuc, is_neg, is_empty, length, ◌==◌, if◌then◌else◌, Run, ok, abort, ◌>>=◌, ◌>>◌, assert,
  or_abort, at,
}
use crocks.Cluster.{
  ClusterInfo, State, masters, index_of, is_available, is_init, is_running, is_migrating,
  no_migrations, is_id, tasks, shards,
}
use crocks.Cluster.Update.{
  set_state, add_node, add_node_with_new_shards, mark_remove_node, remove_node, give_shard,
  migration_over, set_available,
}
use crocks.Cluster.Redistribute.{redistribute_shards}
use crocks.Hash.{hash}
use crocks.Etcd.{Etcd, client_get, txn_put_if_value_equals, txn_put_if_key_missing}

-- protobuf's SerializeToString and ParseFromString on ClusterInfo: a message is read back as it was
-- written, and no bytes are the message with no field set
pub record Proto : Type 0 where
  pub serialize : ClusterInfo → Bytes
  pub parse : Bytes → Option ClusterInfo
  pub parse-serialize : (c : ClusterInfo) → parse (serialize c) ≡ some c
  pub parse-nil : parse [] ≡ some (record { state = State.init; nodes = []; shards = [] })

pub record Info : Type 0 where
  pub info : ClusterInfo
  pub map : List ℕ
  pub address : Bytes
  pub id : ℤ

abbrev pub info_key : Bytes
info_key = b'i' ∷ b'n' ∷ b'f' ∷ b'o' ∷ []

-- What the body of an update decides: to send its new info, or to return without.
pub data Decision : Type 0 where
  write leave : ClusterInfo → Decision

-- Info::Remove(int)
unfoldable pub remove_decision : ℤ → ClusterInfo → Run Decision
remove_decision id c = do assert (is_running c); d ← mark_remove_node c id; ok (write d)

-- Info::Remove()
unfoldable pub remove_self_decision : ℤ → ClusterInfo → Run Decision
remove_self_decision id c = do d ← remove_node c id; ok (write d)

-- Info::Run
unfoldable pub run_decision : ClusterInfo → Run Decision
run_decision c =
    if is_running c || not (no_migrations c)
    then ok (leave c)
    else ok (write (set_state c State.running))

-- Info::Migrate
unfoldable pub migrate_decision : ClusterInfo → Run Decision
migrate_decision c = do
  d ← redistribute_shards c
  if no_migrations d then ok (leave d) else ok (write (set_state d State.migrating))

-- Info::GiveShard
unfoldable pub give_shard_decision : ℤ → ℤ → ClusterInfo → Run Decision
give_shard_decision id shard c = do d ← give_shard c id shard; ok (write d)

-- Info::MigrationOver
unfoldable pub migration_over_decision : ℤ → ClusterInfo → Run Decision
migration_over_decision shard c = do d ← migration_over c shard; ok (write d)

abbrev pub same_bool : Bool → Bool → Bool
same_bool true b = b
same_bool false b = not b

-- Info::SetAvailable
unfoldable pub set_available_decision : ℤ → Bool → ClusterInfo → Run Decision
set_available_decision id available c = do
  now ← is_available c id
  if same_bool now available
      then ok (leave c)
      else do d ← set_available c id available; ok (write d)

-- One round of an update: `done` returns from the method, `again` begins the next round.
pub data Round (Store : Type 0) : Type 0 where
  done : Info → Store → Round Store
  again : Info → Store → Round Store

module _ (e : Etcd) (p : Proto) where
  open e use {Store}

  -- Info::Parse
  unfoldable pub parse_info : Info → Bytes → Run Info
  parse_info i str = do c ← or_abort (p.parse str); ok (record i { info = c; map = masters c })

  -- Info::Get
  unfoldable pub get : Info → Store → Run Info
  unfolding parse_info
  get i s = parse_info i (client_get e s info_key).1

  -- the transaction at the end of a round
  unfoldable pub send : Info → ClusterInfo → Bytes → Store → Round Store
  send i d old s =
      let (s', succeeded) = txn_put_if_value_equals e s info_key (p.serialize d) old in
      let j : Info = record i { info = d } in if succeeded then done j s' else again j s'

  -- A round of Remove, GiveShard, MigrationOver and SetAvailable, which compare with what they
  -- have parsed, serialized again.
  unfoldable pub round :
      (ClusterInfo → Run Decision) → Info → Store → (Store → Store) → Run (Round Store)
  unfolding get send
  round body i s others = do
    j ← get i s
    decision ← body j.info
    elim decision [
      | write d ↦ ok (send j d (p.serialize j.info) (others s))
      | leave d ↦ ok (done (record j { info = d }) (others s))
    ]

  -- A round of Run and Migrate, which return where the key is missing, and compare with what they
  -- have read.
  unfoldable pub raw_read :
      (ClusterInfo → Run Decision) → Info → Store → ℕ × Bytes → Run (Round Store)
  unfolding parse_info send
  raw_read body i later (revision, old) = if revision == 0 then ok (done i later) else do
    j ← parse_info i old
    decision ← body j.info
    elim decision [
      | write d ↦ ok (send j d old later)
      | leave d ↦ ok (done (record j { info = d }) later)
    ]

  unfoldable pub raw_round :
      (ClusterInfo → Run Decision) → Info → Store → (Store → Store) → Run (Round Store)
  raw_round body i s others = raw_read body i (others s) (client_get e s info_key)

  -- `do … while (!succeeded)`. The list is what other processes do in each round; after it they are
  -- idle, and a round that still fails would be repeated for ever.
  unfoldable pub retry :
      (Info → Store → (Store → Store) → Run (Round Store))
      → Info
      → Store
      → List (Store → Store)
      → Run (Info × Store)
  retry step i s [] = step i s (λ t. t) >>= elim [ done j t ↦ ok (j, t) | again j t ↦ abort ]
  retry step i s (others ∷ rest) =
      step i s others >>= elim [ done j t ↦ ok (j, t) | again j t ↦ retry step j t rest ]

  unfoldable pub remove : Info → Store → ℤ → List (Store → Store) → Run (Info × Store)
  unfolding retry round
  remove i s id others = retry (round (remove_decision id)) i s others

  unfoldable pub remove_self : Info → Store → List (Store → Store) → Run (Info × Store)
  unfolding retry round
  remove_self i s others = retry (round (remove_self_decision i.id)) i s others

  unfoldable pub run : Info → Store → List (Store → Store) → Run (Info × Store)
  unfolding retry raw_round raw_read
  run i s others =
      if is_running i.info || not (no_migrations i.info)
      then ok (i, s)
      else retry (raw_round run_decision) i s others

  unfoldable pub migrate : Info → Store → List (Store → Store) → Run (Info × Store)
  unfolding retry raw_round raw_read
  migrate i s others = retry (raw_round migrate_decision) i s others

  -- The map is brought up to date at the end.
  unfoldable pub give : Info → Store → ℤ → List (Store → Store) → Run (Info × Store)
  unfolding retry round
  give i s shard others = do
    r ← retry (round (give_shard_decision i.id shard)) i s others
    ok (record r.0 { map = masters r.0.info }, r.1)

  unfoldable pub over : Info → Store → ℤ → List (Store → Store) → Run (Info × Store)
  unfolding retry round
  over i s shard others = retry (round (migration_over_decision shard)) i s others

  unfoldable pub available : Info → Store → ℤ → Bool → List (Store → Store) → Run (Info × Store)
  unfolding retry round
  available i s id on others = retry (round (set_available_decision id on)) i s others

  -- How a node finds its place in the info that it has read: its id, and the info to send.
  unfoldable pub place : ClusterInfo → Bytes → ℤ → Run (ClusterInfo × ℤ)
  place c address num_shards =
      let id = index_of c address in
      if not (is_neg id)
      then (do here ← is_available c id; assert (not here); ok (c, id))
      else if is_init c
      then (let (d, k) = add_node_with_new_shards c address num_shards in ok (d, pos k))
      else if is_running c
      then (let (d, k) = add_node c address in ok (d, pos k))
      else abort

  -- a round of Info::Add; the first node finds no key
  unfoldable pub add_read : Bytes → ℤ → Info → Store → ℕ × Bytes → Run (Round Store)
  unfolding parse_info place send
  add_read address num_shards i later (revision, old) =
      if revision == 0
      then (let (d, k) = add_node_with_new_shards i.info address num_shards in
          let (s', succeeded) = txn_put_if_key_missing e later info_key (p.serialize d) in
          let j : Info = record i { info = d; id = pos k } in
          ok (if succeeded then done j s' else again j s'))
      else do
        j ← parse_info i old
        r ← place j.info address num_shards
        ok (send (record j { id = r.1 }) r.0 old later)

  unfoldable pub add_round : Bytes → ℤ → Info → Store → (Store → Store) → Run (Round Store)
  add_round address num_shards i s others =
      add_read address num_shards i (others s) (client_get e s info_key)

  unfoldable pub add : Info → Store → Bytes → ℤ → List (Store → Store) → Run (Info × Store)
  unfolding retry add_round add_read
  add i s address num_shards others = do
    r ← retry (add_round address num_shards) i s others
    ok (record r.0 { map = masters r.0.info; address = address }, r.1)

-- A state MIGRATING goes past the three tests of Add to the exit. Info::ShardForKey divides by the
-- number of shards.
unfoldable pub shard_for_key : Info → Bytes → Run ℕ
shard_for_key i key =
    if length i.info.shards == 0 then abort else ok (hash key % length i.info.shards)

unfoldable pub index_for_shard : Info → ℤ → Run ℕ
index_for_shard i shard = at i.map shard

unfoldable pub index_for_key : Info → Bytes → Run ℕ
unfolding shard_for_key
index_for_key i key = do shard ← shard_for_key i key; at i.map (pos shard)

unfoldable pub wrong_shard : Info → ℤ → Run Bool
wrong_shard i shard = do master ← at i.map shard; ok (not (is_id master i.id))

unfoldable pub own_tasks : Info → Run (List (ℕ × List ℕ))
own_tasks i = tasks i.info i.id

unfoldable pub own_shards : Info → Run (List ℕ)
own_shards i = shards i.info i.id
