-- ===== src/Tests/Nodes.antt =====
-- Two nodes: one with two shards, and one with more pairs than a batch holds.
use mathlib.Core.List.{Perm}
use crocks.Prelude.{
  ℕ, zero, suc, ◌<◌, ◌≡◌, refl, true, [], ◌∷◌, ◌++◌, none, some, Bytes, blt, ok, ◌>>=◌, arith,
}
use crocks.Server.Iterator.{MultiIterator, multi_next, multi_seek_to_first}
use crocks.Server.Responses.{RequestOperation, apply_iterator_request, current_pair}
use crocks.Client.NodeIterator.{new_node_iterator, node_pair}
use crocks.Client.NodeIterator.Batches.{Shows, over, more}
use crocks.Client.NodeIterator.Views.{Node, IsSorted, AllAfter}
use crocks.Client.NodeIterator.Views.Walks.{steps, seek_node, seek_node-steps}
use crocks.Client.Iterator.{new_iterator_impl}
use crocks.Client.Iterator.Merged.{Pairs, IsOrdered}
use crocks.Client.Iterator.Holding.{Impl}
use crocks.Client.Iterator.Walk.{Iterates}
use crocks.Client.Iterator.Seeks.{to_first, no_node, shows, seek_by, seek_by-Iterates}
use crocks.Tests.Iterator.{positions, two_shards}

abbrev pair : ℕ → Bytes × Bytes
pair k = (k ∷ [], 0 ∷ [])

abbrev pairs_from : ℕ → ℕ → Pairs
pairs_from zero k = []
pairs_from (suc n) k = pair k ∷ pairs_from n (suc k)

-- one shard, with the keys 4 to 15
abbrev long : MultiIterator positions
long = record { iters = (pairs_from 12 4, 0) ∷ []; heap = []; current = none; forward = true }

abbrev long_at : ℕ → MultiIterator positions
long_at n = record {
  iters = (pairs_from 12 4, n) ∷ [];
  heap = 0 ∷ [];
  current = some 0;
  forward = true;
}

abbrev long_end : MultiIterator positions
long_end = record { iters = (pairs_from 12 4, 12) ∷ []; heap = []; current = none; forward = true }

long_shows :
    Shows positions (multi_next positions) (multi_seek_to_first positions long) (pairs_from 12 4)
unfolding multi_seek_to_first multi_next current_pair blt
long_shows = more (long_at 0) (long_at 1) _ _ refl refl refl (
    more (long_at 1) (long_at 2) _ _ refl refl refl (
      more (long_at 2) (long_at 3) _ _ refl refl refl (
        more (long_at 3) (long_at 4) _ _ refl refl refl (
          more (long_at 4) (long_at 5) _ _ refl refl refl (
            more (long_at 5) (long_at 6) _ _ refl refl refl (
              more (long_at 6) (long_at 7) _ _ refl refl refl (
                more (long_at 7) (long_at 8) _ _ refl refl refl (
                  more (long_at 8) (long_at 9) _ _ refl refl refl (
                    more (long_at 9) (long_at 10) _ _ refl refl refl (
                      more (long_at 10) (long_at 11) _ _ refl refl refl (
                        more (long_at 11) long_end _ _ refl refl refl
                          (over long_end refl))))))))))))

pairs_from-AllAfter : (n k j : ℕ) → k < j → AllAfter true (k ∷ []) (pairs_from n j)
unfolding blt
pairs_from-AllAfter zero k j h = tt
pairs_from-AllAfter (suc n) k j h = (ground arith, pairs_from-AllAfter n k (suc j) (omega arith))

pairs_from-IsSorted : (n k : ℕ) → IsSorted true (pairs_from n k)
pairs_from-IsSorted zero k = tt
pairs_from-IsSorted (suc n) k =
    (pairs_from-AllAfter n k (suc k) (omega arith), pairs_from-IsSorted n (suc k))

-- the eleventh pair comes in the second batch
seek_node-steps_example :
    (later : Node positions) × (seek_node positions RequestOperation.seek_to_first []
          (record (new_node_iterator (apply_iterator_request positions) long) {
            pending_requests = 0;
          })
        >>= steps positions true 11
      ≡ ok later)
    × (later.valid ≡ true)
    × ((kv : Bytes × Bytes)
        → some (pair 15) ≡ some kv
        → node_pair (apply_iterator_request positions) later ≡ ok kv)
unfolding new_node_iterator
seek_node-steps_example =
    seek_node-steps positions RequestOperation.seek_to_first []
      (record (new_node_iterator (apply_iterator_request positions) long) { pending_requests = 0 })
      (pairs_from 12 4) 11 refl long_shows (pairs_from-IsSorted 12 4) (omega arith)

-- the three pairs of the other node
abbrev three : Pairs
three = (1 ∷ [], 7 ∷ []) ∷ (2 ∷ [], 9 ∷ []) ∷ (3 ∷ [], 8 ∷ []) ∷ []

three_shows :
    Shows positions (multi_next positions) (multi_seek_to_first positions two_shards) three
unfolding multi_seek_to_first multi_next current_pair blt
three_shows =
    more _ _ _ _ refl refl refl
      (more _ _ _ _ refl refl refl (more _ _ _ _ refl refl refl (over _ refl)))

three-IsSorted : IsSorted true three
unfolding blt
three-IsSorted = ((refl, (refl, tt)), ((refl, tt), (tt, tt)))

seek_by-Iterates_example :
    (m : Impl positions) × (out : Pairs) × (seek_by positions to_first
        (new_iterator_impl (apply_iterator_request positions) (long ∷ two_shards ∷ []))
      ≡ ok m)
    × Iterates positions true m out
    × Perm (pairs_from 12 4 ++ three) out
    × IsOrdered true out
seek_by-Iterates_example =
    seek_by-Iterates positions to_first (long ∷ two_shards ∷ []) (pairs_from 12 4 ∷ three ∷ []) (
      shows long (pairs_from 12 4) long_shows (pairs_from-IsSorted 12 4)
        (shows two_shards three three_shows three-IsSorted no_node))
