-- ===== src/Client/NodeIterator/Batches.antt =====
-- What the batches of a node hold (src/server/util.cc).
use crocks.Prelude.{
  ℕ, zero, suc, ◌≡◌, refl, true, false, List, [], ◌∷◌, ◌++◌, append_assoc, append-nil, Bytes, sym,
  take, drop, Run, ok, ap, ◌∙◌,
}
use crocks.Server.Iterator.{RocksIterator, MultiIterator, status}
use crocks.Server.Responses.{is_none, current_pair, fill_batch, make_batch, iterator_batch_size}
use crocks.Client.NodeIterator.{is_no_pair}

module _ (r : RocksIterator) (move : MultiIterator r → Run (MultiIterator r)) where
  -- These pairs are at the iterator's position, and where `move` leads it, up to the end.
  pub data Shows : MultiIterator r → List (Bytes × Bytes) → Type 0 where
    over : (m : MultiIterator r) → is_none r m.current ≡ true → Shows m []
    more :
        (m n : MultiIterator r) (kv : Bytes × Bytes) (kvs : List (Bytes × Bytes))
        → is_none r m.current ≡ false
        → current_pair r m ≡ ok kv
        → move m ≡ ok n
        → Shows n kvs
        → Shows m (kv ∷ kvs)

  is_none-Shows :
      (m : MultiIterator r) (kvs : List (Bytes × Bytes))
      → Shows m kvs
      → is_none r m.current ≡ is_no_pair kvs
  is_none-Shows m _ (over _ off) = off
  is_none-Shows m _ (more _ n kv kvs on here step rest) = on

  fill_batch-Shows :
      (left : ℕ) (m : MultiIterator r) (acc kvs : List (Bytes × Bytes))
      → Shows m kvs
      → (n : MultiIterator r) × (fill_batch r move left m acc ≡ ok (acc ++ take left kvs, n))
        × Shows n (drop left kvs)
  unfolding fill_batch
  fill_batch-Shows zero m acc kvs s = (m, ap (λ l. ok (l, m)) (sym (append-nil acc)), s)
  fill_batch-Shows (suc left) m acc _ (over _ off) =
      (m, rw (off, fill_batch) (ap (λ l. ok (l, m)) (sym (append-nil acc))), over m off)
  fill_batch-Shows (suc left) m acc _ (more _ n kv kvs on here step rest) =
      let (last, filled, shown) = fill_batch-Shows left n (acc ++ kv ∷ []) kvs rest in
      (
        last,
        rw (on, here, step, fill_batch)
            (filled ∙ ap (λ l. ok (l, last)) (append_assoc acc (kv ∷ []) (take left kvs))),
        shown,
      )

  -- A batch has the next ten pairs, or as many as there are, and says whether that was the last.
  pub make_batch-Shows :
      (m : MultiIterator r) (kvs : List (Bytes × Bytes))
      → Shows m kvs
      → (n : MultiIterator r) × (make_batch r move m
          ≡ ok (
            record {
              kvs = take iterator_batch_size kvs;
              done = is_no_pair (drop iterator_batch_size kvs);
              code = status r n.iters;
            },
            n,
          ))
        × Shows n (drop iterator_batch_size kvs)
  unfolding make_batch
  make_batch-Shows m kvs s =
      let (n, filled, shown) = fill_batch-Shows iterator_batch_size m [] kvs s in
      (n, rw (filled, is_none-Shows n _ shown, make_batch) refl, shown)
