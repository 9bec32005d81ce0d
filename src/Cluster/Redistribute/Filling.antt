-- ===== src/Cluster/Redistribute/Filling.antt =====
-- The second loop of RedistributeShards (src/common/info_wrapper.cc): the cursor and the map diffs.
use crocks.Prelude.{
  ℕ, ◌+◌, ◌≤◌, ◌<◌, ◌≡◌, All, All-concat, refl, ap, ◌∙◌, ◌≢◌, inl, inr, Bool, true, false, List, [],
  ◌∷◌, ◌++◌, arith, count, count-append, pos, pos_part, neg_part, is_neg, is_pos, add_one_neg,
  sub_one_pos, ltb, ◌==◌, if◌then◌else◌, Bool-cases, ok, sum_below, sum_below-change,
  sum_below-zero, le-sum_below, map,
}
use crocks.Cluster.{NodeInfo, ShardInfo, none_migrating}
use crocks.Cluster.Valid.{has_master}
use crocks.Cluster.Redistribute.{Diffs, Scan, shift, mark, fill, assign}

-- the node that has the shard, and the one that will have it when all migrations are over

abbrev pub has_destination : ℕ → ShardInfo → Bool
has_destination k s = (if s.migrating then s.to else s.master) == k

abbrev pub give : Diffs → ℕ → ℕ
give ds k = pos_part (ds.value k)

abbrev pub get : Diffs → ℕ → ℕ
get ds k = neg_part (ds.value k)

one_less :
    {n : ℕ} (f g : ℕ → ℕ) (i : ℕ)
    → i < n
    → ((k : ℕ) → g k + (if i == k then 1 else 0) ≡ f k)
    → sum_below n g + 1 ≡ sum_below n f
one_less {n} f g i p h =
    omega (arith, sum_below-change n f g i p (λ k q. ground (arith, h k)), ground-here)
  where
    ground-here : g i + 1 ≡ f i
    ground-here = ground (arith, h i)

-- a migration that starts: from the master, to another node that is to get shards
abbrev pub IsMove : (ℕ → Type 0) → ShardInfo → Type 0
IsMove Taker s = s.migrating ≡ true → (s.from ≡ s.master) × (s.to ≢ s.master) × Taker s.to

abbrev pub master_list : List ShardInfo → List ℕ
master_list = map (λ s. s.master)

-- n nodes, of which node k is to have `goal k` shards
module _ (n : ℕ) (goal : ℕ → ℕ) (Taker : ℕ → Type 0) where
  pub record Balanced (ds : Diffs) (done rest : List ShardInfo) : Type 0 where
    -- what a node still gives away is ahead of the cursor
    pub ahead : (k : ℕ) → give ds k ≤ count (has_master k) rest
    pub even : sum_below n (give ds) ≡ sum_below n (get ds)
    pub known : (k : ℕ) → n ≤ k → ds.value k ≡ pos 0
    pub goals :
        (k : ℕ)
        → count (has_destination k) done + count (has_master k) rest + get ds k ≡ give ds k + goal k
    pub fresh : none_migrating rest ≡ true
    pub takers : (k : ℕ) → 0 < get ds k → Taker k
    pub moves : All (IsMove Taker) done

  -- a shard is passed over
  skip-Balanced :
      (ds : Diffs) (done ss : List ShardInfo) (s : ShardInfo)
      → Balanced ds done (s ∷ ss)
      → is_pos (ds.value s.master) ≡ false
      → Balanced ds (done ++ s ∷ []) ss
  unfolding count none_migrating
  skip-Balanced ds done ss s b h = record {
    ahead = λ k. ground (arith, b.ahead k);
    even = b.even;
    known = b.known;
    goals = λ k. ground (arith, b.goals k, b.fresh, count-append (has_destination k) done (s ∷ []));
    fresh = ground (arith, b.fresh);
    takers = b.takers;
    moves = All-concat (IsMove Taker) done s b.moves (λ m. ground (arith, b.fresh));
  }

  module _ (ds : Diffs) (done ss : List ShardInfo) (s : ShardInfo) (id : ℕ)
      (b : Balanced ds done (s ∷ ss)) (needs : is_neg (ds.value id) ≡ true)
      (gives : is_pos (ds.value s.master) ≡ true) where
    differ : id ≢ s.master
    differ e = ground arith

    -- one less to give, and one less to get
    shift-give :
        (k : ℕ) → give (shift ds id s.master) k + (if s.master == k then 1 else 0) ≡ give ds k
    shift-give k =
        ground
          (arith, differ, add_one_neg (ds.value id) needs, sub_one_pos (ds.value s.master) gives)

    shift-get : (k : ℕ) → get (shift ds id s.master) k + (if id == k then 1 else 0) ≡ get ds k
    shift-get k =
        ground
          (arith, differ, add_one_neg (ds.value id) needs, sub_one_pos (ds.value s.master) gives)

    giver_known : s.master < n
    giver_known = ground (arith, b.known s.master)

    taker_known : id < n
    taker_known = ground (arith, b.known id)

    shift-even :
        sum_below n (give (shift ds id s.master)) ≡ sum_below n (get (shift ds id s.master))
    shift-even = omega (
      arith,
      b.even,
      one_less (give ds) (give (shift ds id s.master)) s.master giver_known shift-give,
      one_less (get ds) (get (shift ds id s.master)) id taker_known shift-get,
    )

    mark-Balanced : Balanced (shift ds id s.master) (done ++ mark s id ∷ []) ss
    unfolding count none_migrating
    mark-Balanced = record {
      ahead = λ k. ground (arith, b.ahead k, shift-give k);
      even = shift-even;
      known = λ k p. ground (arith, b.known k p, giver_known, taker_known);
      goals = λ k. ground (
        arith,
        b.goals k,
        b.fresh,
        shift-give k,
        shift-get k,
        count-append (has_destination k) done (mark s id ∷ []),
      );
      fresh = ground (arith, b.fresh);
      takers = λ k p. b.takers k (omega (arith, shift-get k));
      moves =
          All-concat (IsMove Taker) done (mark s id) b.moves
            (λ m. (refl, differ, b.takers id (ground arith)));
    }

  pub record Filled (ds : Diffs) (done rest : List ShardInfo) (id : ℕ) (r : Scan) : Type 0 where
    pub balanced : Balanced r.diffs r.done r.rest
    pub served : get r.diffs id ≡ 0
    pub fewer : (k : ℕ) → get r.diffs k ≤ get ds k
    pub kept : master_list (r.done ++ r.rest) ≡ master_list (done ++ rest)

  -- with no shards left, nothing is left to get
  none_left : (ds : Diffs) (done : List ShardInfo) → Balanced ds done [] → (k : ℕ) → get ds k ≡ 0
  unfolding count
  none_left ds done b k = elim (Bool-cases (ltb k n)) [
    | inl inside ↦ omega (
      arith,
      b.even,
      sum_below-zero n (give ds) (λ j p. omega (arith, b.ahead j)),
      le-sum_below n (get ds) k (ground arith),
    )
    | inr outside ↦ ground (arith, b.known k)
  ]

  masters-concat :
      (done ss : List ShardInfo) (s t : ShardInfo)
      → t.master ≡ s.master
      → master_list ((done ++ t ∷ []) ++ ss) ≡ master_list (done ++ s ∷ ss)
  masters-concat [] ss s t e = rw e
  masters-concat (d ∷ done) ss s t e = ap (◌∷◌ d.master) (masters-concat done ss s t e)

  pub fill-Filled :
      (id : ℕ) (ds : Diffs) (done rest : List ShardInfo)
      → Balanced ds done rest
      → (r : Scan) × (fill id ds done rest ≡ ok r) × Filled ds done rest id r
  unfolding fill
  fill-Filled id ds done [] b =
      let zero_left = none_left ds done b in
      (
        record { diffs = ds; done = done; rest = [] },
        ground (arith, zero_left id),
        record { balanced = b; served = zero_left id; fewer = λ k. omega arith; kept = refl },
      )
  fill-Filled id ds done (s ∷ ss) b = elim (Bool-cases (is_neg (ds.value id))) [
    | inl needs ↦ elim (Bool-cases (is_pos (ds.value s.master))) [
      | inl gives ↦
          let (r, e, f) =
            fill-Filled id (shift ds id s.master) (done ++ mark s id ∷ []) ss
              (mark-Balanced ds done ss s id b needs gives) in
          (
            r,
            rw (needs, fill, gives) e,
            record {
              balanced = f.balanced;
              served = f.served;
              fewer = λ k. omega (arith, f.fewer k, shift-get ds done ss s id b needs gives k);
              kept = f.kept ∙ masters-concat done ss s (mark s id) refl;
            },
          )
      | inr keeps ↦
          let (r, e, f) =
            fill-Filled id ds (done ++ s ∷ []) ss (skip-Balanced ds done ss s b keeps) in
          (
            r,
            rw (needs, fill, keeps) e,
            record {
              balanced = f.balanced;
              served = f.served;
              fewer = f.fewer;
              kept = f.kept ∙ masters-concat done ss s s refl;
            },
          )
    ]
    | inr served ↦ (
      record { diffs = ds; done = done; rest = s ∷ ss },
      rw (served, fill),
      record { balanced = b; served = ground arith; fewer = λ k. omega arith; kept = refl },
    )
  ]

  pub record Assigned (nodes : List NodeInfo) (r t : Scan) : Type 0 where
    pub balanced : Balanced t.diffs t.done t.rest
    pub served : All (λ node. get t.diffs node.id ≡ 0) nodes
    pub fewer : (k : ℕ) → get t.diffs k ≤ get r.diffs k
    pub kept : master_list (t.done ++ t.rest) ≡ master_list (r.done ++ r.rest)

  pub assign-Assigned :
      (nodes : List NodeInfo) (r : Scan)
      → Balanced r.diffs r.done r.rest
      → (t : Scan) × (assign nodes r ≡ ok t) × Assigned nodes r t
  unfolding assign
  assign-Assigned [] r b =
      (r, refl, record { balanced = b; served = tt; fewer = λ k. omega arith; kept = refl })
  assign-Assigned (node ∷ nodes) r b =
      let (u, e, f) = fill-Filled node.id r.diffs r.done r.rest b in
      let (t, e', g) = assign-Assigned nodes u f.balanced in
      (
        t,
        rw e e',
        record {
          balanced = g.balanced;
          served = (omega (arith, f.served, g.fewer node.id), g.served);
          fewer = λ k. omega (arith, f.fewer k, g.fewer k);
          kept = g.kept ∙ f.kept;
        },
      )
