-- ===== src/Client/Iterator/Seeks.antt =====
-- The seeks of a new IteratorImpl (src/client/iterator_impl.cc), over the iterator calls of the nodes.
use mathlib.Core.List.{Perm}
use crocks.Prelude.{
  ℕ, ◌+◌, ◌≡◌, refl, ap, ◌∙◌, subst, Bool, List, [], ◌∷◌, some, Bytes, is_in, arith, length, map,
  get_elem?, Run, ok, abort, ◌>>=◌,
}
use crocks.Heap.{collect_valid}
use crocks.Heap.Order.{is_in-collect_valid, collect_valid-some}
use crocks.Server.Iterator.{RocksIterator, MultiIterator}
use crocks.Server.Responses.{apply_iterator_request, RequestOperation}
use crocks.Client.NodeIterator.{
  new_node_iterator, wait_for_responses, push_batch, request_seek_with, request_seek_to_first,
  request_seek_to_last, request_seek, request_seek_for_prev,
}
use crocks.Client.NodeIterator.Batches.{Shows}
use crocks.Client.NodeIterator.Views.{IsSorted, Node, move_of}
use crocks.Client.NodeIterator.Views.Walks.{sought, direction, seek_node-View}
use crocks.Client.Iterator.{
  is_node_valid, new_iterator_impl, request_each, answer_each, seek_impl, impl_seek_to_first,
  impl_seek_to_last, impl_seek, impl_seek_for_prev,
}
use crocks.Client.Iterator.Merged.{Pairs, flatten, IsOrdered, Merged-Perm, Merged-IsOrdered}
use crocks.Client.Iterator.Holding.{Impl, Each, no_more, each, Each-iter, Holds}
use crocks.Client.Iterator.Walk.{Iterates, iterates}

pub data Seek : Type 0 where
  to_first : Seek
  to_last : Seek
  to : Bytes → Seek
  to_prev : Bytes → Seek

-- the request that a seek makes
abbrev pub op_of_seek : Seek → RequestOperation
op_of_seek to_first = RequestOperation.seek_to_first
op_of_seek to_last = RequestOperation.seek_to_last
op_of_seek (to target) = RequestOperation.seek
op_of_seek (to_prev target) = RequestOperation.seek_for_prev

abbrev pub target_of : Seek → Bytes
target_of to_first = []
target_of to_last = []
target_of (to target) = target
target_of (to_prev target) = target

abbrev pub way_of : Seek → Bool
way_of how = direction (op_of_seek how)

module _ (r : RocksIterator) where
  abbrev pub seek_by : Seek → Impl r → Run (Impl r)
  seek_by to_first m = impl_seek_to_first (apply_iterator_request r) m
  seek_by to_last m = impl_seek_to_last (apply_iterator_request r) m
  seek_by (to target) m = impl_seek (apply_iterator_request r) target m
  seek_by (to_prev target) m = impl_seek_for_prev (apply_iterator_request r) target m

  -- where a node's own iterator is after the seek
  abbrev pub sought_by : Seek → MultiIterator r → MultiIterator r
  sought_by how m = sought r (op_of_seek how) (target_of how) m

  -- what each node has from there on, in order
  pub data AllShow (how : Seek) : List (MultiIterator r) → List Pairs → Type 0 where
    no_node : AllShow how [] []
    shows :
        (m : MultiIterator r) (l : Pairs) {ms : List (MultiIterator r)} {ls : List Pairs}
        → Shows r (move_of r (way_of how)) (sought_by how m) l
        → IsSorted (way_of how) l
        → AllShow how ms ls
        → AllShow how (m ∷ ms) (l ∷ ls)

  -- a new node iterator, once its stream is open
  abbrev fresh : MultiIterator r → Node r
  fresh m = record (new_node_iterator (apply_iterator_request r) m) { pending_requests = 0 }

  bind-bind {ℓ} :
      {A B C : Type ℓ} (m : Run A) (f : A → Run B) (g : B → Run C) (b : B)
      → m >>= f ≡ ok b
      → m >>= (λ a. f a >>= g) ≡ g b
  bind-bind (ok a) f g b h = ap (λ x. x >>= g) h
  bind-bind abort f g b h = absurd (cc h)

  asked-Each :
      (how : Seek) (ask : Node r → Run (Node r))
      → ((m : MultiIterator r)
          → ask (fresh m)
            ≡ request_seek_with
                (apply_iterator_request r)
                (op_of_seek how)
                (way_of how)
                (target_of how)
                (fresh m))
      → (ms : List (MultiIterator r)) (ls : List Pairs) → AllShow how ms ls
      → (asked : List (Node r)) × (its : List (Node r)) × (request_each
            (apply_iterator_request r)
            ask
            (map (new_node_iterator (apply_iterator_request r)) ms)
          ≡ ok asked)
        × (answer_each (apply_iterator_request r) asked ≡ ok its)
        × Each r (way_of how) its ls
  unfolding request_each answer_each new_node_iterator request_seek_with wait_for_responses
  asked-Each how ask asks _ _ no_node = ([], [], refl, refl, no_more)
  asked-Each how ask asks _ _ (shows m l {ms} {ls} shown sorted more) =
      let (asked, its, requested, answered, views) = asked-Each how ask asks ms ls more in
      let (it, found, view) =
        seek_node-View r (op_of_seek how) (target_of how) (fresh m) l refl shown sorted in
      let one : Node r = record (fresh m) {
        forward = way_of how;
        request = record { op = op_of_seek how; target = target_of how };
        asked = some (record { op = op_of_seek how; target = target_of how });
        pending_requests = 2;
      } in
      let got : wait_for_responses (apply_iterator_request r) one
            >>= push_batch (apply_iterator_request r)
          ≡ ok it =
        found in
      (
        one ∷ asked,
        it ∷ its,
        rw (asks m, requested) refl,
        bind-bind (wait_for_responses (apply_iterator_request r) one)
              (push_batch (apply_iterator_request r)) _ it got
            ∙ ap (λ x. x >>= λ rest. ok (it ∷ rest)) answered,
        each it l view sorted views,
      )

  seek_impl-Holds :
      (how : Seek) (ask : Node r → Run (Node r))
      → ((m : MultiIterator r)
          → ask (fresh m)
            ≡ request_seek_with
                (apply_iterator_request r)
                (op_of_seek how)
                (way_of how)
                (target_of how)
                (fresh m))
      → (ms : List (MultiIterator r)) (ls : List Pairs) → AllShow how ms ls
      → (m : Impl r) × (seek_impl
            (apply_iterator_request r)
            ask
            (way_of how)
            (new_iterator_impl (apply_iterator_request r) ms)
          ≡ ok m)
        × Holds r (way_of how) m ls
  unfolding seek_impl new_iterator_impl
  seek_impl-Holds how ask asks ms ls shown =
      let (asked, its, requested, answered, views) = asked-Each how ask asks ms ls shown in
      (
        _,
        rw (requested, answered) refl,
        record {
          going = refl;
          views = views;
          held = λ k it at_k.
              let index : k ≡ 0 + k = omega arith in
              ap (λ n. is_in n (collect_valid (is_node_valid (apply_iterator_request r)) 0 its))
                index
              ∙ is_in-collect_valid (is_node_valid (apply_iterator_request r)) 0 k its it at_k;
          inside = λ k inside.
              let (j, it, index, there) =
                collect_valid-some (is_node_valid (apply_iterator_request r)) 0 k its inside in
              let same : j ≡ k = omega (arith, index) in
              (it, subst (λ n. get_elem? its n ≡ some it) same there);
          chosen = refl;
        },
      )

  seek_by-Holds :
      (how : Seek) (ms : List (MultiIterator r)) (ls : List Pairs)
      → AllShow how ms ls
      → (m : Impl r) × (seek_by how (new_iterator_impl (apply_iterator_request r) ms) ≡ ok m)
        × Holds r (way_of how) m ls
  unfolding impl_seek_to_first impl_seek_to_last impl_seek impl_seek_for_prev new_node_iterator
  seek_by-Holds to_first ms ls shown =
      seek_impl-Holds to_first (request_seek_to_first (apply_iterator_request r)) (λ m. refl) ms ls
        shown
  seek_by-Holds to_last ms ls shown =
      seek_impl-Holds to_last (request_seek_to_last (apply_iterator_request r)) (λ m. refl) ms ls
        shown
  seek_by-Holds (to target) ms ls shown =
      seek_impl-Holds (to target) (request_seek (apply_iterator_request r) target) (λ m. refl) ms ls
        shown
  seek_by-Holds (to_prev target) ms ls shown =
      seek_impl-Holds (to_prev target) (request_seek_for_prev (apply_iterator_request r) target)
        (λ m. refl) ms ls shown

  Each-IsSorted :
      (forward : Bool) (its : List (Node r)) (ls : List Pairs)
      → Each r forward its ls
      → (i : ℕ) (l : Pairs) → get_elem? ls i ≡ some l
      → IsSorted forward l
  Each-IsSorted forward its ls views i l at_i =
      let (it, here, view, sorted) = Each-iter r forward its ls i l views at_i in sorted

  -- A new client iterator, after any of the seeks, gives by Next, or Prev if that is the way of the
  -- seek, just the pairs that the nodes have from there on, each as often, in the order of the keys,
  -- and then it is not valid any more; no assert fails. Each node is to have its keys in order.
  pub seek_by-Iterates :
      (how : Seek) (ms : List (MultiIterator r)) (ls : List Pairs)
      → AllShow how ms ls
      → (m : Impl r) × (out : Pairs) × (seek_by how
            (new_iterator_impl (apply_iterator_request r) ms)
          ≡ ok m)
        × Iterates r (way_of how) m out
        × Perm (flatten ls) out
        × IsOrdered (way_of how) out
  seek_by-Iterates how ms ls shown =
      let (m, found, h) = seek_by-Holds how ms ls shown in
      let (out, shows_out, merged) = iterates r (way_of how) (length (flatten ls)) m ls h refl in
      (
        m,
        out,
        found,
        shows_out,
        Merged-Perm (way_of how) ls out merged,
        Merged-IsOrdered (way_of how) ls out merged (Each-IsSorted (way_of how) m.iters ls h.views),
      )
