-- ===== src/Cluster/Redistribute/Starting.antt =====
-- The first loop of RedistributeShards (src/common/info_wrapper.cc): the map diffs at the start.
use crocks.Prelude.{
  ℕ, zero, suc, ◌+◌, ◌-◌, ◌*◌, ◌/◌, ◌%◌, ◌≤◌, ◌<◌, ◌≡◌, ◌∙◌, refl, true, false, List, [], ◌∷◌, some,
  arith, length, get_elem?, count, is_empty, ℤ, pos, negsuc, pos_part, neg_part, ◌-ℤ◌, ltb,
  if◌then◌else◌, sum_below,
}
use native.Mathlib.Nat.{mod-lt, div-add-mod}
use crocks.Cluster.{NodeInfo}
use crocks.Cluster.Valid.{is_live}
use crocks.Cluster.Redistribute.{Diffs, put, is_staying, target, calculate_diffs}

-- How many shards node j is to have, where i staying nodes come before these: each staying node
-- gets s/n shards, and the first s%n of them one more.
unfoldable pub share : ℕ → ℕ → ℕ → List NodeInfo → ℕ → ℕ
share s n i [] j = 0
share s n i (node ∷ nodes) zero = if is_staying node then target s n i else 0
share s n i (node ∷ nodes) (suc j) = share s n (if is_staying node then suc i else i) nodes j

-- The entry that the loop makes for node j, or the old one.
unfoldable pub node_diff : ℕ → ℕ → ℕ → List NodeInfo → ℕ → ℤ → ℤ
node_diff s n i [] j d = d
node_diff s n i (node ∷ nodes) zero d =
    if is_empty node.address
    then d
    else node.num_shards -ℤ pos (if node.remove then 0 else target s n i)
node_diff s n i (node ∷ nodes) (suc j) d =
    node_diff s n (if is_staying node then suc i else i) nodes j d

sub_zero : (a : ℤ) → a -ℤ pos 0 ≡ a
unfolding ◌-ℤ◌
sub_zero (pos k) = ground arith
sub_zero (negsuc k) = ground arith

abbrev pub IdsFrom : ℕ → List NodeInfo → Type 0
IdsFrom b nodes =
    (j : ℕ) (node : NodeInfo)
    → get_elem? nodes j ≡ some node
    → is_live node ≡ true
    → node.id ≡ b + j

node_diff_past :
    (s n i b : ℕ) (node : NodeInfo) (nodes : List NodeInfo) (k : ℕ) (d : ℤ)
    → b < k
    → node_diff s n i (node ∷ nodes) (k - b) d
      ≡ node_diff s n (if is_staying node then suc i else i) nodes (k - suc b) d
unfolding node_diff
node_diff_past s n i b node nodes k d h = let e : k - b ≡ suc (k - suc b) = omega arith in rw e refl

node_diff_at :
    (s n i b : ℕ) (node : NodeInfo) (nodes : List NodeInfo) (k : ℕ) (d : ℤ)
    → b ≡ k
    → node_diff s n i (node ∷ nodes) (k - b) d ≡ (
        if is_empty node.address
        then d
        else node.num_shards -ℤ pos (if node.remove then 0 else target s n i))
unfolding node_diff
node_diff_at s n i b node nodes k d h = let e : k - b ≡ zero = omega arith in rw e refl

node_diff-nil : (s n i j : ℕ) (d : ℤ) → node_diff s n i [] j d ≡ d
unfolding node_diff
node_diff-nil s n i j d = refl

IdsFrom-tail :
    (b : ℕ) (node : NodeInfo) (nodes : List NodeInfo)
    → IdsFrom b (node ∷ nodes)
    → IdsFrom (suc b) nodes
IdsFrom-tail b node nodes h j other e l = omega (arith, h (suc j) other e l)

pub calculate_diffs_value :
    (s n i b : ℕ) (nodes : List NodeInfo) (ds : Diffs)
    → IdsFrom b nodes
    → (k : ℕ)
    → (calculate_diffs s n i nodes ds).value k
      ≡ (if ltb k b then ds.value k else node_diff s n i nodes (k - b) (ds.value k))
unfolding calculate_diffs
calculate_diffs_value s n i b [] ds h k = ground (arith, node_diff-nil s n i (k - b) (ds.value k))
calculate_diffs_value s n i b (node ∷ nodes) ds h k =
    let rest = λ (i' : ℕ) (ds' : Diffs).
      calculate_diffs_value s n i' (suc b) nodes ds' (IdsFrom-tail b node nodes h) k in
    let removed = put node.id node.num_shards ds in
    let staying = put node.id (node.num_shards -ℤ pos (target s n i)) ds in
    ground (
      arith,
      h 0 node refl,
      rest i ds,
      rest i removed,
      rest (suc i) staying,
      sub_zero node.num_shards,
      node_diff_past s n i b node nodes k (ds.value k),
      node_diff_at s n i b node nodes k (ds.value k),
    )

-- What is to give, and what is to get, against the share; `have j` is what node j has.
abbrev pub Counted : List NodeInfo → (ℕ → ℕ) → Type 0
Counted nodes have =
    ((j : ℕ) (node : NodeInfo) → get_elem? nodes j ≡ some node → node.num_shards ≡ pos (have j))
    × ((j : ℕ) (node : NodeInfo)
        → get_elem? nodes j ≡ some node
        → is_live node ≡ false
        → have j ≡ 0)
    × ((j : ℕ) → length nodes ≤ j → have j ≡ 0)

Counted-tail :
    (node : NodeInfo) (nodes : List NodeInfo) (have : ℕ → ℕ)
    → Counted (node ∷ nodes) have
    → Counted nodes (λ j. have (suc j))
Counted-tail node nodes have h = (
  λ j other e. h.0 (suc j) other e,
  λ j other e l. h.1 (suc j) other e l,
  λ j p. h.2 (suc j) (omega arith),
)

pub node_diff_parts :
    (s n i : ℕ) (nodes : List NodeInfo) (have : ℕ → ℕ)
    → Counted nodes have
    → (j : ℕ)
    → (have j + neg_part (node_diff s n i nodes j (pos 0))
        ≡ pos_part (node_diff s n i nodes j (pos 0)) + share s n i nodes j)
      × (pos_part (node_diff s n i nodes j (pos 0)) ≤ have j)
unfolding node_diff share ◌-ℤ◌
node_diff_parts s n i [] have h j = (omega (arith, h.2 j (omega arith)), omega arith)
node_diff_parts s n i (node ∷ nodes) have h zero = ground (arith, h.0 0 node refl, h.1 0 node refl)
node_diff_parts s n i (node ∷ nodes) have h (suc j) =
    node_diff_parts s n (if is_staying node then suc i else i) nodes (λ k. have (suc k))
      (Counted-tail node nodes have h) j

pub node_diff_known :
    (s n i : ℕ) (nodes : List NodeInfo) (j : ℕ)
    → length nodes ≤ j
    → node_diff s n i nodes j (pos 0) ≡ pos 0
unfolding node_diff
node_diff_known s n i [] j h = refl
node_diff_known s n i (node ∷ nodes) zero h = absurd (omega arith)
node_diff_known s n i (node ∷ nodes) (suc j) h =
    node_diff_known s n (if is_staying node then suc i else i) nodes j (omega arith)

-- The shares add up to what is to be shared.
pub sum_below-share :
    (s n i : ℕ) (nodes : List NodeInfo)
    → 0 < n
    → i + count is_staying nodes ≡ n
    → sum_below (length nodes) (share s n i nodes) ≡ count is_staying nodes * (s / n) + (s % n - i)
unfolding share count
sum_below-share s n i [] p h = ground arith
sum_below-share s n i (node ∷ nodes) p h = ground (
  arith,
  mod-lt s p,
  sum_below-share s n (if is_staying node then suc i else i) nodes p (ground arith),
)

pub sum_below-all :
    (s n : ℕ) (nodes : List NodeInfo)
    → 0 < n
    → count is_staying nodes ≡ n
    → sum_below (length nodes) (share s n 0 nodes) ≡ s
sum_below-all s n nodes p h =
    let e = sum_below-share s n 0 nodes p (omega arith) in
    rw h at e ∙ omega (arith, div-add-mod s n)

abbrev pub IsStaying : List NodeInfo → ℕ → Type 0
IsStaying nodes k = (node : NodeInfo) × (get_elem? nodes k ≡ some node) × (is_staying node ≡ true)

-- Only staying nodes get shards.
pub node_diff-IsStaying :
    (s n i : ℕ) (nodes : List NodeInfo) (have : ℕ → ℕ)
    → Counted nodes have
    → (j : ℕ) → 0 < neg_part (node_diff s n i nodes j (pos 0))
    → IsStaying nodes j
unfolding node_diff ◌-ℤ◌
node_diff-IsStaying s n i [] have h j p = absurd (omega arith)
node_diff-IsStaying s n i (node ∷ nodes) have h zero p =
    (node, refl, ground (arith, h.0 0 node refl))
node_diff-IsStaying s n i (node ∷ nodes) have h (suc j) p =
    node_diff-IsStaying s n (if is_staying node then suc i else i) nodes (λ k. have (suc k))
      (Counted-tail node nodes have h) j p

-- A staying node has its part or one more, and any other node has none.
pub share_bounds :
    (s n i : ℕ) (nodes : List NodeInfo) (k : ℕ) (node : NodeInfo)
    → get_elem? nodes k ≡ some node
    → is_staying node ≡ true
    → (s / n ≤ share s n i nodes k) × (share s n i nodes k ≤ s / n + 1)
unfolding share
share_bounds s n i [] k node e h = absurd (ground arith)
share_bounds s n i (other ∷ nodes) zero node e h = ground arith
share_bounds s n i (other ∷ nodes) (suc k) node e h =
    share_bounds s n (if is_staying other then suc i else i) nodes k node e h

pub share-leaving :
    (s n i : ℕ) (nodes : List NodeInfo) (k : ℕ) (node : NodeInfo)
    → get_elem? nodes k ≡ some node
    → is_staying node ≡ false
    → share s n i nodes k ≡ 0
unfolding share
share-leaving s n i [] k node e h = absurd (ground arith)
share-leaving s n i (other ∷ nodes) zero node e h = ground arith
share-leaving s n i (other ∷ nodes) (suc k) node e h =
    share-leaving s n (if is_staying other then suc i else i) nodes k node e h
