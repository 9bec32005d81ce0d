-- ===== src/Tests/Printing.antt =====
-- What Print shows of the sample cluster.
use crocks.Prelude.{◌≡◌, refl, List, [], ◌∷◌, ok, pos, inl}
use crocks.Cluster.{State, shards}
use crocks.Info.Printing.{
  Piece, first, comma, dash, list_to_string, print, state, nodes, all_shards, node, node_address,
  node_shards,
}
use crocks.Info.Printing.Ranges.{numbers, shards-list_to_string}
use crocks.Tests.Cluster.{sample}

-- the example of the comment on ListToString
shown :
    list_to_string (1 ∷ 2 ∷ 3 ∷ 5 ∷ 7 ∷ 8 ∷ 9 ∷ [])
    ≡ ok (first 1 ∷ dash 3 ∷ comma 5 ∷ comma 7 ∷ dash 9 ∷ [])
unfolding list_to_string
shown = refl

printed :
    print sample
    ≡ ok (
        state State.running
        ∷ nodes 2
        ∷ all_shards 3
        ∷ node 0
        ∷ node_address (1 ∷ [])
        ∷ node_shards (first 0 ∷ dash 2 ∷ []) 3
        ∷ node 1
        ∷ node_address (2 ∷ [])
        ∷ [])
unfolding print
printed = refl

shards-list_to_string_example :
    (ps : List Piece) × (list_to_string (0 ∷ 1 ∷ 2 ∷ []) ≡ ok ps) × (numbers ps ≡ 0 ∷ 1 ∷ 2 ∷ [])
unfolding shards
shards-list_to_string_example = shards-list_to_string sample (pos 0) 0 (1 ∷ 2 ∷ []) (inl refl)
