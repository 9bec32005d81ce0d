-- ===== src/Info/Retry.antt =====
-- The rounds of an update of Info (src/common/info.cc), with other processes in between.
use crocks.Prelude.{
  ℕ, ◌<◌, ◌≡◌, ◌⊎◌, inl, inr, refl, ◌∙◌, ap, false, List, [], ◌∷◌, All, some, Bytes, beq, beq_refl,
  beq→eq, arith, if◌then◌else◌, Bool-cases, ℤ, Run, ok, abort, ◌>>=◌, ◌==◌,
}
use crocks.Cluster.{ClusterInfo, masters}
use crocks.Etcd.{Etcd, client_get-some, txn_put_if_value_equals_lem}
use crocks.Info.{
  Proto, Info, Decision, write, leave, Round, done, again, info_key, parse_info, get, send, round,
  raw_round, raw_read, retry,
}

-- On every info with the invariant the body returns, and what it writes meets `Post`.
abbrev pub Decides :
    (ClusterInfo → Type 0) → (ClusterInfo → Type 0) → (ClusterInfo → Run Decision) → Type 0
Decides Inv Post body =
    (c : ClusterInfo)
    → Inv c
    → ((d : ClusterInfo) × (body c ≡ ok (write d)) × Post d)
      ⊎ ((d : ClusterInfo) × (body c ≡ ok (leave d)))

module _ (e : Etcd) (p : Proto) where
  open e use {Store}

  -- etcd holds this info
  abbrev pub Holds : Store → ClusterInfo → Type 0
  Holds s c = e.value s info_key ≡ some (p.serialize c)

  -- etcd holds an info with the invariant
  abbrev pub Good : (ClusterInfo → Type 0) → Store → Type 0
  Good Inv s = (c : ClusterInfo) × Holds s c × Inv c

  abbrev pub KeepsGood : (ClusterInfo → Type 0) → (Store → Store) → Type 0
  KeepsGood Inv f = (s : Store) → Good Inv s → Good Inv (f s)

  module _ (Inv Post : ClusterInfo → Type 0) (body : ClusterInfo → Run Decision) where
    -- How an update ends: it has replaced, in one step, an info with the invariant by what the
    -- body makes of it, or the body has left such an info alone.
    pub data Committed (i : Info) (t : Store) : Type 0 where
      wrote :
          (c : ClusterInfo) (s : Store)
          → Holds s c
          → Inv c
          → body c ≡ ok (write i.info)
          → t ≡ e.put s info_key (p.serialize i.info)
          → Post i.info
          → Committed i t
      left : (c : ClusterInfo) → Inv c → body c ≡ ok (leave i.info) → Good Inv t → Committed i t

    abbrev loaded : Info → ClusterInfo → Info
    loaded i c = record i { info = c; map = masters c }

    parse_info-ok :
        (i : Info) (c : ClusterInfo) → parse_info e p i (p.serialize c) ≡ ok (loaded i c)
    unfolding parse_info
    parse_info-ok i c = rw (p.parse-serialize c)

    get-ok : (i : Info) (s : Store) (c : ClusterInfo) → Holds s c → get e p i s ≡ ok (loaded i c)
    unfolding get
    get-ok i s c h = rw (client_get-some e s info_key (p.serialize c) h) (parse_info-ok i c)

    serialize-injective : (c d : ClusterInfo) → p.serialize c ≡ p.serialize d → c ≡ d
    serialize-injective c d h = cc (p.parse-serialize c, p.parse-serialize d, ap p.parse h)

    -- the transaction, on a store that holds c
    send_lem :
        (i : Info) (d c : ClusterInfo) (old : Bytes) (s : Store)
        → Holds s c
        → send e p i d old s ≡ (
            if beq (p.serialize c) old
            then done (record i { info = d }) (e.put s info_key (p.serialize d))
            else again (record i { info = d }) s)
    unfolding send
    send_lem i d c old s h = elim (Bool-cases (beq (p.serialize c) old)) [
      | inl same ↦ rw (txn_put_if_value_equals_lem e s info_key (p.serialize d) old, h, same)
      | inr other ↦ rw (txn_put_if_value_equals_lem e s info_key (p.serialize d) old, h, other)
    ]

    -- A round on a good store.
    pub data Rounded (me : ℤ) (s t : Store) : Run (Round Store) → Type 0 where
      ends : {j : Info} {u : Store} → j.id ≡ me → Committed j u → Rounded me s t (ok (done j u))
      repeats : {j : Info} → j.id ≡ me → Good Inv t → ¬ (t ≡ s) → Rounded me s t (ok (again j t))

    -- after the body has decided to write
    send-Rounded :
        (i : Info) (c d : ClusterInfo) (s t : Store)
        → Holds s c
        → Inv c
        → Post d
        → body c ≡ ok (write d)
        → Good Inv t
        → Rounded i.id s t (ok (send e p i d (p.serialize c) t))
    send-Rounded i c d s t h v v' b (c', h', w) =
        elim (Bool-cases (beq (p.serialize c') (p.serialize c))) [
          | inl same ↦
              let eq : c' ≡ c = serialize-injective c' c (beq→eq _ _ same) in
              rw (send_lem i d c' (p.serialize c) t h', same)
                (ends refl (wrote c t (rw eq at h') v b refl v'))
          | inr other ↦
              rw (send_lem i d c' (p.serialize c) t h', other)
                (repeats refl (c', h', w)
                  (λ q.
                    cc (other, beq_refl (p.serialize c), ap (λ u. e.value u info_key) q, h, h')))
        ]

    module _ (decides : Decides Inv Post body) where
      -- what follows the decision, for both kinds of round
      decided-Rounded :
          (i : Info) (c : ClusterInfo) (s t : Store) (r : Run Decision)
          → body c ≡ r
          → Holds s c
          → Inv c
          → Good Inv t
          → Rounded i.id s t (
              r >>= λ decision. elim decision [
                | write d ↦ ok (send e p i d (p.serialize c) t)
                | leave d ↦ ok (done (record i { info = d }) t)
              ])
      decided-Rounded i c s t (ok (write d)) b h v g = elim (decides c v) [
        | inl (d', b', v') ↦
            let same : d' ≡ d = cc in send-Rounded i c d s t h v (rw same at v') b g
        | inr (d', b') ↦ cc
      ]
      decided-Rounded i c s t (ok (leave d)) b h v g = ends refl (left c v b g)
      decided-Rounded i c s t abort b h v g = elim (decides c v) [
        | inl (d', b', v') ↦ cc
        | inr (d', b') ↦ cc
      ]

      pub round-Rounded :
          (i : Info) (s : Store) (others : Store → Store)
          → Good Inv s
          → KeepsGood Inv others
          → Rounded i.id s (others s) (round e p body i s others)
      unfolding round
      round-Rounded i s others (c, h, v) keeps =
          rw (get-ok i s c h)
            (decided-Rounded (loaded i c) c s (others s) (body c) refl h v (keeps s (c, h, v)))

      raw_read-Rounded :
          (i : Info) (c : ClusterInfo) (s t : Store) (r : ℕ)
          → 0 < r
          → Holds s c
          → Inv c
          → Good Inv t
          → Rounded i.id s t (raw_read e p body i t (r, p.serialize c))
      unfolding raw_read
      raw_read-Rounded i c s t r there h v g =
          let present : (r == 0) ≡ false = ground arith in
          rw (present, parse_info-ok i c) (decided-Rounded (loaded i c) c s t (body c) refl h v g)

      pub raw_round-Rounded :
          (i : Info) (s : Store) (others : Store → Store)
          → Good Inv s
          → KeepsGood Inv others
          → Rounded i.id s (others s) (raw_round e p body i s others)
      unfolding raw_round
      raw_round-Rounded i s others (c, h, v) keeps =
          rw (client_get-some e s info_key (p.serialize c) h) (
            raw_read-Rounded i c s (others s) (e.mod_revision s info_key)
              (e.revision_pos s info_key (p.serialize c) h) h v (keeps s (c, h, v)))

      -- A method that goes round until it ends.
      abbrev pub Committing : ℤ → Run (Info × Store) → Type 0
      Committing me r = (j : Info) × (t : Store) × (r ≡ ok (j, t)) × (j.id ≡ me) × Committed j t

      module _ (step : Info → Store → (Store → Store) → Run (Round Store))
          (rounds : (i : Info) (s : Store) (others : Store → Store)
            → Good Inv s
            → KeepsGood Inv others
            → Rounded i.id s (others s) (step i s others)) where
        pub retry-Committing :
            (i : Info) (s : Store) (others : List (Store → Store))
            → Good Inv s
            → All (KeepsGood Inv) others
            → Committing i.id (retry e p step i s others)
        unfolding retry
        retry-Committing i s [] g k = last (step i s (λ t. t)) (rounds i s (λ t. t) g (λ t h. h))
          where
            last :
                (r : Run (Round Store))
                → Rounded i.id s s r
                → Committing i.id (r >>= elim [ done j t ↦ ok (j, t) | again j t ↦ abort ])
            last r (ends {j} {u} m c) = (j, u, refl, m, c)
            last r (repeats m g' moved) = absurd (moved refl)
        retry-Committing i s (f ∷ rest) g (k, ks) =
            next (step i s f) (rounds i s f g k) (λ j t h. retry-Committing j t rest h ks)
          where
            next :
                (r : Run (Round Store))
                → Rounded i.id s (f s) r
                → ((j : Info) (t : Store) → Good Inv t → Committing j.id (retry e p step j t rest))
                → Committing i.id
                    (r >>= elim [ done j t ↦ ok (j, t) | again j t ↦ retry e p step j t rest ])
            next r (ends {j} {u} m c) later = (j, u, refl, m, c)
            next r (repeats {j} m g' moved) later =
                let (j', u, run, mine, c) = later j (f s) g' in (j', u, run, mine ∙ m, c)
