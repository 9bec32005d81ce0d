-- ===== src/Tests/Info.antt =====
-- The updates of Info over the stand-ins for etcd and protobuf.
use crocks.Prelude.{ℕ, ◌≡◌, refl, true, [], ◌∷◌, none, pos, ok, beq}
use crocks.Cluster.Update.{add_node}
use crocks.Cluster.{ClusterInfo}
use crocks.Hash.{hash}
use crocks.Info.{Info, info_key, give, over, wrong_shard}
use crocks.Info.Retry.{Good, KeepsGood}
use crocks.Info.Updates.{IsDue, IsGiven, IsMoving, IsOver, give-IsGiven, over-IsOver}
use crocks.Tests.Wire.{wire}
use crocks.Tests.Store.{table}
use crocks.Tests.Cluster.{sample, moving, leaving_shard, empty, moving-IsValid, moving-IsPhased}

hashes :
    (hash (b'k' ∷ b'e' ∷ b'y' ∷ []) ≡ 1259962252)
    × (hash (b'c' ∷ b'r' ∷ b'o' ∷ b'c' ∷ b'k' ∷ b's' ∷ []) ≡ 2345228705)
unfolding hash
hashes = (refl, refl)

abbrev pub giver : Info
giver = record { info = empty; map = []; address = 1 ∷ []; id = pos 0 }

abbrev pub holding : ClusterInfo → table.Store
holding c = table.put (λ k. none) info_key (wire.serialize c)

moving-Due : IsDue 0 0 moving
moving-Due = ((moving-IsValid, moving-IsPhased), (leaving_shard, refl, refl, refl))

-- another process writes once, in the first round
abbrev rewrite : ClusterInfo → table.Store → table.Store
rewrite c s = table.put s info_key (wire.serialize c)

rewritten :
    (Inv : ClusterInfo → Type 0) (c : ClusterInfo) → Inv c → KeepsGood table wire Inv (rewrite c)
unfolding beq
rewritten Inv c v s g = (c, refl, v)

give-IsGiven_example :
    (i' : Info) × (t : table.Store) × (give table wire giver
        (holding moving)
        (pos 0)
        (rewrite moving ∷ [])
      ≡ ok (i', t))
    × Good table wire (IsGiven 0 0) t
    × (wrong_shard i' (pos 0) ≡ ok true)
unfolding beq
give-IsGiven_example =
    give-IsGiven table wire giver (holding moving) 0 0 (rewrite moving ∷ []) refl
      (moving, refl, moving-Due) (rewritten (IsDue 0 0) moving moving-Due, tt)

moving-Moving : IsMoving 0 moving
moving-Moving = ((moving-IsValid, moving-IsPhased), (leaving_shard, refl, refl))

over-IsOver_example :
    (i' : Info) × (t : table.Store) × (over table wire giver
        (holding moving)
        (pos 0)
        (rewrite moving ∷ [])
      ≡ ok (i', t))
    × Good table wire (IsOver 0) t
unfolding beq
over-IsOver_example =
    over-IsOver table wire giver (holding moving) 0 (rewrite moving ∷ [])
      (moving, refl, moving-Moving) (rewritten (IsMoving 0) moving moving-Moving, tt)

abbrev joined : ClusterInfo × ℕ
joined = add_node sample (3 ∷ [])
