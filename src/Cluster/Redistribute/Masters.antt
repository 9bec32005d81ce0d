-- ===== src/Cluster/Redistribute/Masters.antt =====
-- Lists of shards with the same masters, for RedistributeShards (src/common/info_wrapper.cc).
use crocks.Prelude.{ℕ, zero, suc, ◌≡◌, refl, List, [], ◌∷◌, some, arith, get_elem?, count}
use crocks.Cluster.{NodeInfo, ShardInfo}
use crocks.Cluster.Valid.{has_master, IsLive}
use crocks.Cluster.Redistribute.Filling.{master_list}

pub count-master_list :
    (k : ℕ) (ss ts : List ShardInfo)
    → master_list ss ≡ master_list ts
    → count (has_master k) ss ≡ count (has_master k) ts
unfolding count
count-master_list k [] [] e = refl
count-master_list k [] (t ∷ ts) e = cc
count-master_list k (s ∷ ss) [] e = cc
count-master_list k (s ∷ ss) (t ∷ ts) e = ground (arith, count-master_list k ss ts)

pub owned-master_list :
    (nodes : List NodeInfo) (ss ts : List ShardInfo)
    → master_list ss ≡ master_list ts
    → ((j : ℕ) (t : ShardInfo) → get_elem? ts j ≡ some t → IsLive nodes t.master)
    → (j : ℕ) (s : ShardInfo) → get_elem? ss j ≡ some s
    → IsLive nodes s.master
owned-master_list nodes [] ts e h j s f = absurd (cc f)
owned-master_list nodes (s ∷ ss) [] e h j r f = cc
owned-master_list nodes (s ∷ ss) (t ∷ ts) e h zero r f =
    let same : t.master ≡ r.master = cc in rw same at (h zero t refl)
owned-master_list nodes (s ∷ ss) (t ∷ ts) e h (suc j) r f =
    owned-master_list nodes ss ts (ground arith) (λ i u g. h (suc i) u g) j r f
