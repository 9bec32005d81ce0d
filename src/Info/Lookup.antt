-- ===== src/Info/Lookup.antt =====
-- IndexForKey of Info (src/common/info.h): the node for a key.
use native.Mathlib.Nat.{mod-lt}
use crocks.Prelude.{
  ℕ, zero, suc, ◌%◌, ◌<◌, ◌≡◌, refl, ap, false, List, [], ◌∷◌, some, map, Bytes, arith, length,
  get_elem?, get_elem?-some, is_empty, ◌==◌, ok,
}
use crocks.Cluster.{ShardInfo, masters}
use crocks.Cluster.Valid.{IsLive, IsValid}
use crocks.Hash.{hash}
use crocks.Info.{Info, shard_for_key, index_for_key}

get_elem?-masters :
    (ss : List ShardInfo) (j : ℕ) (s : ShardInfo)
    → get_elem? ss j ≡ some s
    → get_elem? (map (λ t. t.master) ss) j ≡ some s.master
get_elem?-masters [] j s e = absurd (cc e)
get_elem?-masters (t ∷ ss) zero s e = let same : t ≡ s = cc in ap (λ x. some x.master) same
get_elem?-masters (t ∷ ss) (suc j) s e = get_elem?-masters ss j s e

length_pos : (ss : List ShardInfo) → is_empty ss ≡ false → 0 < length ss
length_pos [] h = absurd (cc h)
length_pos (s ∷ ss) h = omega arith

-- With a valid info that has shards, and a map that is up to date, every key is one of a shard, and
-- IndexForKey returns the master of that shard, which is a live node.
pub index_for_key-IsLive :
    (i : Info) (key : Bytes)
    → IsValid i.info.nodes i.info.shards
    → i.map ≡ masters i.info
    → is_empty i.info.shards ≡ false
    → (s : ShardInfo) × (get_elem? i.info.shards (hash key % length i.info.shards) ≡ some s)
      × (index_for_key i key ≡ ok s.master)
      × IsLive i.info.nodes s.master
unfolding index_for_key shard_for_key masters
index_for_key-IsLive i key v fresh some_shard =
    let n = length i.info.shards in
    let shards_pos : 0 < n = length_pos i.info.shards some_shard in
    let below : hash key % n < n = mod-lt (hash key) shards_pos in
    let (s, e) = get_elem?-some i.info.shards (hash key % n) below in
    let none_zero : (n == 0) ≡ false = ground arith in
    (
      s,
      e,
      rw (none_zero, fresh, get_elem?-masters i.info.shards (hash key % n) s e) refl,
      v.owned (hash key % n) s e,
    )
