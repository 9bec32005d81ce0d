-- ===== src/Client/NodeIterator/Views/Moves.antt =====
-- Seeks and moves of a NodeIterator (src/client/node_iterator.cc).
use crocks.Prelude.{
  suc, ◌≡◌, refl, ap, sym, ◌∙◌, subst, Bool, true, false, not, List, [], ◌∷◌, ◌++◌, none, Bytes,
  arith, length, ◌==◌, Bool-cases, inl, inr, Run, ok, ◌>>◌, assert,
}
use crocks.Server.Iterator.{RocksIterator, MultiIterator}
use crocks.Server.Responses.{make_batch, apply_iterator_request}
use crocks.Client.NodeIterator.{
  is_no_pair, node_pair, after_pop, move_node, node_next, node_prev, request_more,
}
use crocks.Client.NodeIterator.Batches.{Shows}
use crocks.Client.NodeIterator.Views.{
  IsSorted, move_of, op_of, Node, View, idle, waiting, fetch-View,
}

module _ (r : RocksIterator) where
  answer_more :
      (forward : Bool) (target : Bytes) (m : MultiIterator r)
      → apply_iterator_request r m (record { op = op_of forward; target = target })
        ≡ make_batch r (move_of r forward) m
  unfolding apply_iterator_request
  answer_more true target m = refl
  answer_more false target m = refl

  -- node_next or node_prev, by the direction
  abbrev pub step_of : Bool → Node r → Run (Node r)
  step_of true it = node_next (apply_iterator_request r) it
  step_of false it = node_prev (apply_iterator_request r) it

  abbrev pub Stepped : Bool → Run (Node r) → List (Bytes × Bytes) → Type 0
  Stepped forward result kvs = (later : Node r) × (result ≡ ok later) × View r forward later kvs

  move_node-View :
      (forward : Bool) (it : Node r) (kv : Bytes × Bytes) (kvs : List (Bytes × Bytes))
      → View r forward it (kv ∷ kvs)
      → IsSorted forward kvs
      → Stepped forward (move_node (apply_iterator_request r) (op_of forward) it) kvs
  unfolding move_node after_pop request_more
  move_node-View forward _ kv kvs (idle [] rest _ v d rq rs m same valid done many shows) sorted =
      absurd (omega (arith, many (ap is_no_pair same)))
  move_node-View forward _ kv kvs (idle (x ∷ []) rest _ v d rq rs m same valid done many shows)
        sorted =
      let tail : rest ≡ kvs = cc same in
      elim (Bool-cases (is_no_pair rest)) [
        | inl last ↦
            rw (valid, done, last)
              (
                _,
                refl,
                idle [] rest kvs false true rq rs m tail
                    (ap not (sym (sym (ap is_no_pair tail) ∙ last))) (sym last)
                    (λ more. absurd (cc (last, more))) shows,
              )
        | inr more ↦ absurd (omega (arith, many more))
      ]
  move_node-View forward _ kv kvs (idle (x ∷ y ∷ q) rest _ v d rq rs m same valid done many shows)
        sorted =
      let tail : y ∷ q ++ rest ≡ kvs = cc same in
      let here : true ≡ not (is_no_pair kvs) = ap (λ l. not (is_no_pair l)) tail in
      rw (valid, done)
        (elim (Bool-cases (suc (length q) == 5)) [
          | inl five ↦ elim (Bool-cases (is_no_pair rest)) [
            | inl last ↦
                rw (five, last)
                  (
                    _,
                    refl,
                    idle (y ∷ q) rest kvs true true rq rs m tail here (sym last)
                        (λ more. absurd (cc (last, more))) shows,
                  )
            | inr more ↦
                rw (five, more)
                  (
                    _,
                    refl,
                    waiting y q rest kvs rq.target
                        (record { op = op_of forward; target = rq.target }) rs m tail more
                        (ground arith) shows,
                  )
          ]
          | inr other ↦ rw other (
            _,
            refl,
            idle (y ∷ q) rest kvs true (is_no_pair rest) rq rs m tail here refl
                (λ more. ground (arith, many more)) shows,
          )
        ])
  move_node-View forward _ kv kvs (waiting x [] rest _ target rq rs m same some_rest few shows)
        sorted =
      let tail : rest ≡ kvs = cc same in
      let empty : Node r = record {
        queue = [];
        forward = forward;
        valid = true;
        done = false;
        request = rq;
        response = rs;
        pending_requests = 2;
        asked = none;
        server = m;
      } in
      fetch-View r forward empty (record { op = op_of forward; target = target }) m kvs
        (answer_more forward target m) (λ empty. absurd (cc (empty, some_rest, ap is_no_pair tail)))
        (subst (Shows r (move_of r forward) m) tail shows) sorted
  move_node-View forward _ kv kvs (waiting x (y ∷ q) rest _ target rq rs m same some_rest few shows)
        sorted =
      let tail : y ∷ q ++ rest ≡ kvs = cc same in
      let not_five : (suc (length q) == 5) ≡ false = ground arith in
      rw not_five (_, refl, waiting y q rest kvs target rq rs m tail some_rest (omega arith) shows)

  View-forward :
      (forward : Bool) (it : Node r) (kvs : List (Bytes × Bytes))
      → View r forward it kvs
      → it.forward ≡ forward
  View-forward forward _ kvs (idle q rest _ v d rq rs m same valid done many shows) = refl
  View-forward forward _ kvs (waiting x q rest _ target rq rs m same some_rest few shows) = refl

  assert-Stepped :
      (forward b : Bool) (m : Run (Node r)) (kvs : List (Bytes × Bytes))
      → b ≡ true
      → Stepped forward m kvs
      → Stepped forward (assert b >> m) kvs
  assert-Stepped forward true m kvs h s = s
  assert-Stepped forward false m kvs h s = absurd (cc h)

  pub step_of-View :
      (forward : Bool) (it : Node r) (kv : Bytes × Bytes) (kvs : List (Bytes × Bytes))
      → View r forward it (kv ∷ kvs)
      → IsSorted forward kvs
      → Stepped forward (step_of forward it) kvs
  unfolding node_next node_prev
  step_of-View true it kv kvs view sorted =
      assert-Stepped true it.forward _ kvs (View-forward true it (kv ∷ kvs) view)
        (move_node-View true it kv kvs view sorted)
  step_of-View false it kv kvs view sorted =
      assert-Stepped false (not it.forward) _ kvs (ap not (View-forward false it (kv ∷ kvs) view))
        (move_node-View false it kv kvs view sorted)

  -- the pair that key() and value() give, and Valid()
  pub View-pair :
      (forward : Bool) (it : Node r) (kv : Bytes × Bytes) (kvs : List (Bytes × Bytes))
      → View r forward it (kv ∷ kvs)
      → node_pair (apply_iterator_request r) it ≡ ok kv
  unfolding node_pair
  View-pair forward _ kv kvs (idle [] rest _ v d rq rs m same valid done many shows) =
      absurd (omega (arith, many (ap is_no_pair same)))
  View-pair forward _ kv kvs (idle (x ∷ q) rest _ v d rq rs m same valid done many shows) =
      let head : x ≡ kv = cc same in rw valid (ap ok head)
  View-pair forward _ kv kvs (waiting x q rest _ target rq rs m same some_rest few shows) =
      let head : x ≡ kv = cc same in ap ok head

  pub View-valid :
      (forward : Bool) (it : Node r) (kvs : List (Bytes × Bytes))
      → View r forward it kvs
      → it.valid ≡ not (is_no_pair kvs)
  View-valid forward _ kvs (idle q rest _ v d rq rs m same valid done many shows) = valid
  View-valid forward _ kvs (waiting x q rest _ target rq rs m same some_rest few shows) =
      ap (λ l. not (is_no_pair l)) same
