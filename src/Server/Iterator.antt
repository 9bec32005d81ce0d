-- ===== src/Server/Iterator.antt =====
-- The class MultiIterator (src/server/iterator.h): the iterators of a node's shards, merged. A pointer
-- to an iterator is its index.
pub mod Merging
use crocks.Prelude.{
  ℕ, suc, Bool, true, false, not, ◌&&◌, List, [], ◌∷◌, ◌++◌, Option, none, some, map, Bytes, blt,
  get_elem?, set, ◌==◌, if◌then◌else◌, Run, ok, abort, ◌>>=◌, or_abort,
}
use crocks.Status.{StatusCode}
use crocks.Heap.{pop, key_at, top, collect_valid}

-- rocksdb::Iterator
pub record RocksIterator : Type 1 where
  pub State : Type 0
  pub seek_to_first : State → State
  pub seek_to_last : State → State
  pub seek : Bytes → State → State
  pub seek_for_prev : Bytes → State → State
  pub next : State → State
  pub prev : State → State
  pub is_valid : State → Bool
  pub key : State → Bytes
  pub value : State → Bytes
  pub code : State → StatusCode

module _ (r : RocksIterator) where
  open r use {State}

  -- `heap` is the container of the heap that is in use, the other one is empty.
  pub record MultiIterator : Type 0 where
    pub iters : List State
    pub heap : List ℕ
    pub current : Option ℕ
    pub forward : Bool

  -- what the four ways to seek have in common
  unfoldable pub seek_with : (State → State) → Bool → MultiIterator → MultiIterator
  seek_with move forward m =
      let iters = map move m.iters in
      let heap = collect_valid r.is_valid 0 iters in
      record {
        iters = iters;
        heap = heap;
        current = top r.key forward iters heap;
        forward = forward;
      }

  unfoldable pub multi_seek_to_first : MultiIterator → MultiIterator
  unfolding seek_with
  multi_seek_to_first m = seek_with r.seek_to_first true m

  unfoldable pub multi_seek_to_last : MultiIterator → MultiIterator
  unfolding seek_with
  multi_seek_to_last m = seek_with r.seek_to_last false m

  unfoldable pub multi_seek : Bytes → MultiIterator → MultiIterator
  unfolding seek_with
  multi_seek target m = seek_with (r.seek target) true m

  unfoldable pub multi_seek_for_prev : Bytes → MultiIterator → MultiIterator
  unfolding seek_with
  multi_seek_for_prev target m = seek_with (r.seek_for_prev target) false m

  -- pop, move the iterator, push it if it is valid, and take the top
  unfoldable pub advance : (State → State) → MultiIterator → ℕ → State → MultiIterator
  advance move m i s =
      let iters = set m.iters i (move s) in
      let popped = pop i m.heap in
      let heap = if r.is_valid (move s) then popped ++ i ∷ [] else popped in
      record m { iters = iters; heap = heap; current = top r.key m.forward iters heap }

  unfoldable pub advance_current : (State → State) → MultiIterator → Run MultiIterator
  unfolding advance
  advance_current move m = do
    i ← or_abort m.current
    s ← or_abort (get_elem? m.iters i)
    ok (advance move m i s)

  -- MultiIterator::Next and Prev, which turn around if need be
  unfoldable pub multi_next : MultiIterator → Run MultiIterator
  unfolding advance_current multi_seek
  multi_next m = do
    i ← or_abort m.current
    advance_current r.next (if m.forward then m else multi_seek (key_at r.key m.iters i) m)

  unfoldable pub multi_prev : MultiIterator → Run MultiIterator
  unfolding advance_current multi_seek_for_prev
  multi_prev m = do
    i ← or_abort m.current
    advance_current r.prev (if m.forward then multi_seek_for_prev (key_at r.key m.iters i) m else m)

  -- MultiIterator::status: the first status that is not OK
  abbrev pub status : List State → StatusCode
  status [] = StatusCode.fine
  status (s ∷ ss) = elim (r.code s) [ StatusCode.fine ↦ status ss | c ↦ c ]
