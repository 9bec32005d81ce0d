-- ===== src/Server/Responses/Sizes.antt =====
-- How many pairs the answers of ApplyIteratorRequest (src/server/util.cc) hold.
use crocks.Prelude.{
  ℕ, zero, suc, ◌+◌, ◌≤◌, ◌≡◌, refl, subst, ◌⊎◌, inl, inr, true, List, [], ◌∷◌, ◌++◌, Bytes, arith,
  length, length-append, Bool-cases, Run, ok, abort, ◌>>=◌,
}
use crocks.Server.Iterator.{
  RocksIterator, MultiIterator, status, multi_next, multi_prev, multi_seek, multi_seek_for_prev,
  multi_seek_to_first, multi_seek_to_last,
}
use crocks.Server.Responses.{
  IteratorResponse, IteratorRequest, RequestOperation, is_none, current_pair, fill_batch,
  make_batch, make_next_batch, make_prev_batch, apply_iterator_request, apply_operation_request,
  iterator_batch_size,
}

module _ (r : RocksIterator) where
  abbrev IsFilled : ℕ → ℕ → Run (List (Bytes × Bytes) × MultiIterator r) → Type 0
  IsFilled start left abort = Unit
  IsFilled start left (ok (kvs, m)) =
      (length kvs ≤ start + left) × ((is_none r m.current ≡ true) ⊎ (length kvs ≡ start + left))

  then-IsFilled {ℓ} :
      {A : Type ℓ} (start left : ℕ) (a : Run A)
      (f : A → Run (List (Bytes × Bytes) × MultiIterator r))
      → ((x : A) → IsFilled start left (f x))
      → IsFilled start left (a >>= f)
  then-IsFilled start left (ok x) f h = h x
  then-IsFilled start left abort f h = tt

  IsFilled-suc :
      (kvs : List (Bytes × Bytes)) (kv : Bytes × Bytes) (left : ℕ)
      (b : Run (List (Bytes × Bytes) × MultiIterator r))
      → IsFilled (length (kvs ++ kv ∷ [])) left b
      → IsFilled (length kvs) (suc left) b
  IsFilled-suc kvs kv left abort h = tt
  IsFilled-suc kvs kv left (ok (all, m)) (h, inl off) =
      (omega (arith, h, length-append kvs (kv ∷ [])), inl off)
  IsFilled-suc kvs kv left (ok (all, m)) (h, inr full) = (
    omega (arith, h, length-append kvs (kv ∷ [])),
    inr (omega (arith, full, length-append kvs (kv ∷ []))),
  )

  fill_batch-IsFilled :
      (move : MultiIterator r → Run (MultiIterator r)) (left : ℕ) (m : MultiIterator r)
      (kvs : List (Bytes × Bytes))
      → IsFilled (length kvs) left (fill_batch r move left m kvs)
  unfolding fill_batch
  fill_batch-IsFilled move zero m kvs = (omega arith, inr (omega arith))
  fill_batch-IsFilled move (suc left) m kvs = elim (Bool-cases (is_none r m.current)) [
    | inl off ↦ rw (off, fill_batch) (omega arith, inl off)
    | inr on ↦
        rw (on, fill_batch)
          (then-IsFilled (length kvs) (suc left) (current_pair r m) _ (λ kv.
            then-IsFilled (length kvs) (suc left) (move m) _ (λ moved.
              IsFilled-suc kvs kv left _ (fill_batch-IsFilled move left moved (kvs ++ kv ∷ [])))))
  ]

  -- how full the answer to a request is
  abbrev pub IsFull : Run (IteratorResponse × MultiIterator r) → Type 0
  IsFull abort = Unit
  IsFull (ok (a, m)) =
      (length a.kvs ≤ iterator_batch_size)
      × (a.done ≡ is_none r m.current)
      × ((a.done ≡ true) ⊎ (length a.kvs ≡ iterator_batch_size))

  of_filled :
      (b : Run (List (Bytes × Bytes) × MultiIterator r))
      → IsFilled 0 iterator_batch_size b
      → IsFull (
          b >>= λ b.
          ok (record { kvs = b.0; done = is_none r b.1.current; code = status r b.1.iters }, b.1))
  of_filled abort h = tt
  of_filled (ok (kvs, m)) (h, k) = (h, refl, k)

  make_batch-IsFull :
      (move : MultiIterator r → Run (MultiIterator r)) (m : MultiIterator r)
      → IsFull (make_batch r move m)
  unfolding make_batch
  make_batch-IsFull move m = of_filled _ (fill_batch-IsFilled move iterator_batch_size m [])

  operation-IsFull :
      (op : RequestOperation) (target : Bytes) (m : MultiIterator r)
      → IsFull (apply_operation_request r op target m)
  unfolding apply_operation_request make_next_batch make_prev_batch
  operation-IsFull RequestOperation.seek_to_first target m =
      make_batch-IsFull (multi_next r) (multi_seek_to_first r m)
  operation-IsFull RequestOperation.seek_to_last target m =
      make_batch-IsFull (multi_prev r) (multi_seek_to_last r m)
  operation-IsFull RequestOperation.seek target m =
      make_batch-IsFull (multi_next r) (multi_seek r target m)
  operation-IsFull RequestOperation.seek_for_prev target m =
      make_batch-IsFull (multi_prev r) (multi_seek_for_prev r target m)
  operation-IsFull RequestOperation.next target m = make_batch-IsFull (multi_next r) m
  operation-IsFull RequestOperation.prev target m = make_batch-IsFull (multi_prev r) m

  -- The answer to any request holds at most ten pairs; its `done` says whether the iterator has become
  -- invalid; and if it has not, the answer holds just ten pairs.
  pub apply_iterator_request-length :
      (m n : MultiIterator r) (q : IteratorRequest) (a : IteratorResponse)
      → apply_iterator_request r m q ≡ ok (a, n)
      → (length a.kvs ≤ iterator_batch_size)
        × (a.done ≡ is_none r n.current)
        × ((a.done ≡ true) ⊎ (length a.kvs ≡ iterator_batch_size))
  unfolding apply_iterator_request
  apply_iterator_request-length m n q a e = subst IsFull e (operation-IsFull q.op q.target m)
