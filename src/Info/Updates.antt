-- ===== src/Info/Updates.antt =====
-- What GiveShard, MigrationOver and Migrate of Info (src/common/info.cc) leave in etcd.
use crocks.Prelude.{
  ℕ, zero, suc, ◌<◌, ◌≡◌, ◌≢◌, inl, inr, refl, ◌∙◌, sym, subst, true, false, List, [], ◌∷◌, All,
  some, arith, get_elem?, get_elem?-set, beq_refl, count, ℤ, pos, map, Run, ok, abort, ◌>>=◌,
}
use crocks.Cluster.Redistribute.{is_staying}
use crocks.Cluster.Redistribute.Balance.{IsEvened}
use crocks.Cluster.{State, ShardInfo, ClusterInfo, masters, no_migrations, is_migrating}
use crocks.Cluster.Valid.{IsValid, IsPhased, none_migrating-get}
use crocks.Cluster.Update.{give_shard, migration_over}
use crocks.Cluster.Update.Migration.{give_shard-IsValid, migration_over-IsPhased}
use crocks.Etcd.{Etcd}
use crocks.Info.{
  Proto, Info, Decision, write, leave, give_shard_decision, migration_over_decision, info_key,
  wrong_shard, give, over, round,
}
use crocks.Info.Retry.{
  Good, KeepsGood, Decides, Committed, wrote, left, round-Rounded, retry-Committing,
}

abbrev pub IsSound : ClusterInfo → Type 0
IsSound c = IsValid c.nodes c.shards × IsPhased c

give_shard-given :
    (c : ClusterInfo) (j k : ℕ) (s : ShardInfo)
    → get_elem? c.shards j ≡ some s
    → s.master ≢ k
    → give_shard c (pos k) (pos j) ≡ ok c
unfolding give_shard
give_shard-given c j k s e away = ground arith

-- shard j is to leave node k, which may have given it already
abbrev pub IsDue : ℕ → ℕ → ClusterInfo → Type 0
IsDue k j c =
    IsSound c
    × ((s : ShardInfo) × (get_elem? c.shards j ≡ some s) × (s.migrating ≡ true) × (s.from ≡ k))

-- ... and has given it
abbrev pub IsGiven : ℕ → ℕ → ClusterInfo → Type 0
IsGiven k j c =
    IsSound c
    × ((s : ShardInfo) × (get_elem? c.shards j ≡ some s)
        × (s.migrating ≡ true)
        × (s.from ≡ k)
        × (s.master ≡ s.to)
        × (s.master ≢ k))

IsPhased-same :
    (c d : ClusterInfo) (j : ℕ) (s t : ShardInfo)
    → get_elem? c.shards j ≡ some s
    → s.migrating ≡ true
    → get_elem? d.shards j ≡ some t
    → t.migrating ≡ true
    → d.state ≡ c.state
    → IsPhased c
    → IsPhased d
unfolding is_migrating no_migrations
IsPhased-same c d j s t e m f n same v =
    ground (arith, none_migrating-get c.shards j s, none_migrating-get d.shards j t)

give_shard-Decides :
    (k j : ℕ) → Decides (IsDue k j) (IsGiven k j) (give_shard_decision (pos k) (pos j))
unfolding give_shard_decision
give_shard-Decides k j c ((v, phased), (s, e, m, from)) =
    let move = v.moves j s e m in
    elim move.owner [
      | inl kept ↦
          let (d, run, shards, state, v', _) = give_shard-IsValid c j s v e m kept in
          let t : ShardInfo = record s { master = s.to } in
          let moved : get_elem? d.shards j ≡ some t =
            ground (arith, get_elem?-set c.shards j j t s e) in
          let run' = subst (λ n. give_shard c (pos n) (pos j) ≡ ok d) from run in
          inl (
            d,
            rw run',
            (
              (v', IsPhased-same c d j s t e m moved m state phased),
              (t, moved, m, from, refl, λ same. move.apart (from ∙ sym same)),
            ),
          )
      | inr given ↦
          let away : s.master ≢ k = λ same. move.apart (from ∙ sym same ∙ given) in
          inl (
            c,
            ground (arith, give_shard-given c j k s e away),
            ((v, phased), (s, e, m, from, given, away)),
          )
    ]

give_shard-writes :
    (id shard : ℤ) (c d : ClusterInfo) → give_shard_decision id shard c ≢ ok (leave d)
unfolding give_shard_decision
give_shard-writes id shard c d q =
    elim (give_shard c id shard) as (λ r. (r >>= λ a. ok (write a)) ≡ ok (leave d) → ⊥) [
      | ok a ↦ λ h. cc
      | abort ↦ λ h. cc
    ]
      q

get_elem?-masters :
    (ss : List ShardInfo) (j : ℕ) (s : ShardInfo)
    → get_elem? ss j ≡ some s
    → get_elem? (map (λ t. t.master) ss) j ≡ some s.master
get_elem?-masters [] j s h = absurd (cc h)
get_elem?-masters (t ∷ ss) zero s h = ground arith
get_elem?-masters (t ∷ ss) (suc j) s h = get_elem?-masters ss j s h

given-wrong :
    (i : Info) (k j : ℕ)
    → i.id ≡ pos k
    → IsGiven k j i.info
    → wrong_shard (record i { map = masters i.info }) (pos j) ≡ ok true
unfolding wrong_shard masters
given-wrong i k j me (_, (s, found, _, _, _, away)) =
    rw (get_elem?-masters i.info.shards j s found, me) (ground arith)

-- shard j is being received, or has been received
abbrev pub IsMoving : ℕ → ClusterInfo → Type 0
IsMoving j c =
    IsSound c × ((s : ShardInfo) × (get_elem? c.shards j ≡ some s) × (s.migrating ≡ true))

abbrev pub IsOver : ℕ → ClusterInfo → Type 0
IsOver j c = IsSound c × ((s : ShardInfo) × (get_elem? c.shards j ≡ some s) × (s.migrating ≡ false))

Decides-IsOver : (j : ℕ) → Decides (IsMoving j) (IsOver j) (migration_over_decision (pos j))
unfolding migration_over_decision
Decides-IsOver j c ((v, phased), (s, e, m)) =
    let (d, run, shards, v', phased') = migration_over-IsPhased c j s v phased e m in
    let t : ShardInfo = record s { migrating = false; from = 0; to = 0 } in
    let over : get_elem? d.shards j ≡ some t = ground (arith, get_elem?-set c.shards j j t s e) in
    inl (d, rw run, ((v', phased'), (t, over, refl)))

migration_over-writes :
    (shard : ℤ) (c d : ClusterInfo) → migration_over_decision shard c ≢ ok (leave d)
unfolding migration_over_decision
migration_over-writes shard c d q =
    elim (migration_over c shard) as (λ r. (r >>= λ a. ok (write a)) ≡ ok (leave d) → ⊥) [
      | ok a ↦ λ h. cc
      | abort ↦ λ h. cc
    ]
      q

-- RedistributeShards may be asked for, or has been: the migrations even the shards out.
abbrev pub IsStill : ClusterInfo → Type 0
IsStill c = IsSound c × (no_migrations c ≡ true) × (0 < count is_staying c.nodes)

abbrev pub IsUnderWay : ClusterInfo → Type 0
IsUnderWay d =
    IsSound d
    × ((c : ClusterInfo) × IsStill c × IsEvened c (record d { state = c.state }))
    × (d.state ≡ State.migrating)

module _ (e : Etcd) (p : Proto) where
  open e use {Store}

  put-Good :
      (Post : ClusterInfo → Type 0) (s t : Store) (d : ClusterInfo)
      → t ≡ e.put s info_key (p.serialize d)
      → Post d
      → Good e p Post t
  put-Good Post s t d same v = (
    d,
    rw same (e.value-put s info_key (p.serialize d) info_key ∙ ground (arith, beq_refl info_key)),
    v,
  )

  -- An update whose body always writes has written.
  Committed-write :
      (Inv Post : ClusterInfo → Type 0) (body : ClusterInfo → Run Decision)
      → ((c d : ClusterInfo) → body c ≢ ok (leave d))
      → (i : Info) (t : Store) → Committed e p Inv Post body i t
      → Post i.info × Good e p Post t
  Committed-write Inv Post body never i t (wrote c s h v b same v') =
      (v', put-Good Post s t i.info same v')
  Committed-write Inv Post body never i t (left c v b g) = absurd (never c i.info b)

  -- GiveShard, run by node k for a shard that is to leave it, ends, whatever the other processes
  -- do in between, as long as each of them leaves in etcd a sound info in which the shard is still
  -- to leave k. It leaves in etcd a sound info in which the receiver is the master of the shard,
  -- and from then on k takes the shard for another node's.
  pub give-IsGiven :
      (i : Info) (s : Store) (k j : ℕ) (others : List (Store → Store))
      → i.id ≡ pos k
      → Good e p (IsDue k j) s
      → All (KeepsGood e p (IsDue k j)) others
      → (i' : Info) × (t : Store) × (give e p i s (pos j) others ≡ ok (i', t))
        × Good e p (IsGiven k j) t
        × (wrong_shard i' (pos j) ≡ ok true)
  unfolding give
  give-IsGiven i s k j others me g keeps =
      let body = give_shard_decision i.id (pos j) in
      let decides : Decides (IsDue k j) (IsGiven k j) body = rw me (give_shard-Decides k j) in
      let (i', t, run, mine, c) =
        retry-Committing e p (IsDue k j) (IsGiven k j) body decides (round e p body)
          (round-Rounded e p (IsDue k j) (IsGiven k j) body decides) i s others g keeps in
      let (given, good) =
        Committed-write (IsDue k j) (IsGiven k j) body (give_shard-writes i.id (pos j)) i' t c in
      (record i' { map = masters i'.info }, t, rw run, good, given-wrong i' k j (mine ∙ me) given)

  -- MigrationOver, run for a shard that migrates, ends under the same proviso. In the sound info
  -- that it leaves in etcd the shard migrates no more, and the state is MIGRATING just while another
  -- shard does.
  pub over-IsOver :
      (i : Info) (s : Store) (j : ℕ) (others : List (Store → Store))
      → Good e p (IsMoving j) s
      → All (KeepsGood e p (IsMoving j)) others
      → (i' : Info) × (t : Store) × (over e p i s (pos j) others ≡ ok (i', t))
        × Good e p (IsOver j) t
  unfolding over
  over-IsOver i s j others g keeps =
      let body = migration_over_decision (pos j) in
      let decides = Decides-IsOver j in
      let (i', t, run, mine, c) =
        retry-Committing e p (IsMoving j) (IsOver j) body decides (round e p body)
          (round-Rounded e p (IsMoving j) (IsOver j) body decides) i s others g keeps in
      let (_, good) =
        Committed-write (IsMoving j) (IsOver j) body (migration_over-writes (pos j)) i' t c in
      (i', t, run, good)
