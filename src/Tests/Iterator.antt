-- ===== src/Tests/Iterator.antt =====
-- Two shards, merged.
use crocks.Prelude.{
  ℕ, zero, suc, ◌≤◌, ◌≡◌, ◌⊎◌, refl, Bool, true, false, not, List, [], ◌∷◌, none, some, Bytes, blt,
  length, get_elem?, ltb, if◌then◌else◌, ok,
}
use crocks.Status.{StatusCode}
use crocks.Heap.{precedes, key_at}
use crocks.Server.Iterator.{
  RocksIterator, MultiIterator, seek_with, multi_next, multi_seek_to_first,
}
use crocks.Server.Iterator.Merging.{Moved, Moved-precedes}
use crocks.Server.Responses.{
  RequestOperation, IteratorRequest, IteratorResponse, is_none, iterator_batch_size,
  apply_iterator_request,
}
use crocks.Server.Responses.Sizes.{apply_iterator_request-length}

-- the pairs of a shard, and a position in them
abbrev Position : Type 0
Position = List (Bytes × Bytes) × ℕ

abbrev count_before : (Bytes → Bool) → List (Bytes × Bytes) → ℕ
count_before p [] = 0
count_before p ((k, v) ∷ kvs) = if p k then suc (count_before p kvs) else 0

abbrev back : ℕ → List (Bytes × Bytes) → Position
back zero kvs = (kvs, length kvs)
back (suc n) kvs = (kvs, n)

abbrev pub positions : RocksIterator
positions = record {
  State = Position;
  seek_to_first = λ s. (s.0, 0);
  seek_to_last = λ s. back (length s.0) s.0;
  seek = λ k s. (s.0, count_before (λ j. blt j k) s.0);
  seek_for_prev = λ k s. back (count_before (λ j. not (blt k j)) s.0) s.0;
  next = λ s. (s.0, suc s.1);
  prev = λ s. back s.1 s.0;
  is_valid = λ s. ltb s.1 (length s.0);
  key = λ s. elim (get_elem? s.0 s.1) [ none ↦ [] | some kv ↦ kv.0 ];
  value = λ s. elim (get_elem? s.0 s.1) [ none ↦ [] | some kv ↦ kv.1 ];
  code = λ s. StatusCode.fine;
}

abbrev pub two_shards : MultiIterator positions
two_shards = record {
  iters = ((1 ∷ [], 7 ∷ []) ∷ (3 ∷ [], 8 ∷ []) ∷ [], 0) ∷ ((2 ∷ [], 9 ∷ []) ∷ [], 0) ∷ [];
  heap = [];
  current = none;
  forward = true;
}

abbrev at_first : MultiIterator positions
at_first = seek_with positions positions.seek_to_first true two_shards

abbrev at_second : MultiIterator positions
at_second = record at_first {
  iters = ((1 ∷ [], 7 ∷ []) ∷ (3 ∷ [], 8 ∷ []) ∷ [], 1) ∷ ((2 ∷ [], 9 ∷ []) ∷ [], 0) ∷ [];
  heap = 1 ∷ 0 ∷ [];
  current = some 1;
}

to_second : Moved positions at_second
unfolding multi_next seek_with blt
to_second =
    Moved.next at_first at_second (Moved.sought positions.seek_to_first true two_shards) refl

Moved-precedes_example :
    (i : ℕ) × (at_second.current ≡ some i)
    × (precedes true
          (key_at positions.key at_second.iters 0)
          (key_at positions.key at_second.iters i)
        ≡ false)
unfolding seek_with
Moved-precedes_example =
    Moved-precedes positions at_second 0 ((1 ∷ [], 7 ∷ []) ∷ (3 ∷ [], 8 ∷ []) ∷ [], 1) to_second
      refl refl

abbrev exhausted : MultiIterator positions
exhausted = record {
  iters = ((1 ∷ [], 7 ∷ []) ∷ (3 ∷ [], 8 ∷ []) ∷ [], 2) ∷ ((2 ∷ [], 9 ∷ []) ∷ [], 1) ∷ [];
  heap = [];
  current = none;
  forward = true;
}

abbrev all_pairs : IteratorResponse
all_pairs = record {
  kvs = (1 ∷ [], 7 ∷ []) ∷ (2 ∷ [], 9 ∷ []) ∷ (3 ∷ [], 8 ∷ []) ∷ [];
  done = true;
  code = StatusCode.fine;
}

abbrev from_start : IteratorRequest
from_start = record { op = RequestOperation.seek_to_first; target = [] }

answered_all : apply_iterator_request positions two_shards from_start ≡ ok (all_pairs, exhausted)
unfolding apply_iterator_request multi_seek_to_first blt
answered_all = refl

apply_iterator_request-length_example :
    (length all_pairs.kvs ≤ iterator_batch_size)
    × (all_pairs.done ≡ is_none positions exhausted.current)
    × ((all_pairs.done ≡ true) ⊎ (length all_pairs.kvs ≡ iterator_batch_size))
apply_iterator_request-length_example =
    apply_iterator_request-length positions two_shards exhausted from_start all_pairs answered_all
