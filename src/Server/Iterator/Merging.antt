-- ===== src/Server/Iterator/Merging.antt =====
-- The current iterator of MultiIterator (src/server/iterator.h).
use crocks.Prelude.{
  ℕ, ◌+◌, ◌≡◌, refl, ap, sym, subst, ◌∙◌, Bool, true, false, Option, none, some, map, is_in, arith,
  get_elem?, get_elem?-set, ◌==◌, if◌then◌else◌, Bool-cases, Option-cases, inl, inr, Run, ok, abort,
  or_abort, ◌>>=◌,
}
use crocks.Server.Iterator.{
  RocksIterator, MultiIterator, seek_with, multi_seek, multi_seek_for_prev, advance,
  advance_current, multi_next, multi_prev,
}
use crocks.Heap.{precedes, key_at, top, collect_valid}
use crocks.Heap.Order.{some-inj, is_in-moved, top-some, top-precedes, is_in-collect_valid}

module _ (r : RocksIterator) where
  open r use {State}

  -- The heap holds just the iterators that are valid, and its top is the current one.
  pub record IsMerging (m : MultiIterator r) : Type 0 where
    pub held : (k : ℕ) (s : State) → get_elem? m.iters k ≡ some s → is_in k m.heap ≡ r.is_valid s
    pub chosen : m.current ≡ top r.key m.forward m.iters m.heap

  seek_with-IsMerging :
      (move : State → State) (forward : Bool) (m : MultiIterator r)
      → IsMerging (seek_with r move forward m)
  unfolding seek_with
  seek_with-IsMerging move forward m = record {
    held = λ k s e.
        let index : k ≡ 0 + k = omega arith in
        ap (λ n. is_in n (collect_valid r.is_valid 0 (map move m.iters))) index
        ∙ is_in-collect_valid r.is_valid 0 k (map move m.iters) s e;
    chosen = refl;
  }

  advance-IsMerging :
      (move : State → State) (m : MultiIterator r) (i : ℕ) (s : State)
      → get_elem? m.iters i ≡ some s
      → IsMerging m
      → IsMerging (advance r move m i s)
  unfolding advance
  advance-IsMerging move m i s e v = record {
    held = λ k t f. is_in-moved (r.is_valid (move s)) i k m.heap ∙ elim (Bool-cases (i == k)) [
      | inl here ↦
          let same : move s ≡ t =
            some-inj (sym (get_elem?-set m.iters i k (move s) s e ∙ rw here refl) ∙ f) in
          rw here (ap r.is_valid same)
      | inr away ↦
          rw away (v.held k t (sym (get_elem?-set m.iters i k (move s) s e ∙ rw away refl) ∙ f))
    ];
    chosen = refl;
  }

  -- A MultiIterator after a seek, and then any seeks and moves that return.
  pub data Moved : MultiIterator r → Type 0 where
    sought :
        (move : State → State) (forward : Bool) (m : MultiIterator r)
        → Moved (seek_with r move forward m)
    next : (m n : MultiIterator r) → Moved m → multi_next r m ≡ ok n → Moved n
    prev : (m n : MultiIterator r) → Moved m → multi_prev r m ≡ ok n → Moved n

  abbrev Merges : Run (MultiIterator r) → Type 0
  Merges (ok m) = IsMerging m
  Merges abort = Unit

  advance_current-Merges :
      (move : State → State) (m : MultiIterator r) → IsMerging m → Merges (advance_current r move m)
  unfolding advance_current
  advance_current-Merges move m v = elim (Option-cases m.current) [
    | inl off ↦ rw (off, advance_current) tt
    | inr (i, on) ↦ elim (Option-cases (get_elem? m.iters i)) [
      | inl gone ↦ rw (on, gone, advance_current) tt
      | inr (s, here) ↦ rw (on, here, advance_current) (advance-IsMerging move m i s here v)
    ]
  ]

  turned :
      (b : Bool) (m n : MultiIterator r)
      → IsMerging m
      → IsMerging n
      → IsMerging (if b then m else n)
  turned true m n v w = v
  turned false m n v w = w

  or_abort-Merges :
      (o : Option ℕ) (f : ℕ → Run (MultiIterator r))
      → ((i : ℕ) → Merges (f i))
      → Merges (or_abort o >>= f)
  or_abort-Merges none f h = tt
  or_abort-Merges (some i) f h = h i

  multi_next-Merges : (m : MultiIterator r) → IsMerging m → Merges (multi_next r m)
  unfolding multi_next multi_seek
  multi_next-Merges m v = or_abort-Merges m.current _ (λ i.
      advance_current-Merges r.next _
        (turned m.forward m _ v (seek_with-IsMerging (r.seek (key_at r.key m.iters i)) true m)))

  multi_prev-Merges : (m : MultiIterator r) → IsMerging m → Merges (multi_prev r m)
  unfolding multi_prev multi_seek_for_prev
  multi_prev-Merges m v = or_abort-Merges m.current _ (λ i. advance_current-Merges r.prev _ (
      turned m.forward _ m (seek_with-IsMerging (r.seek_for_prev (key_at r.key m.iters i)) false m)
        v))

  Moved-IsMerging : (m : MultiIterator r) → Moved m → IsMerging m
  Moved-IsMerging _ (sought move forward m) = seek_with-IsMerging move forward m
  Moved-IsMerging n (next m _ path e) =
      subst Merges e (multi_next-Merges m (Moved-IsMerging m path))
  Moved-IsMerging n (prev m _ path e) =
      subst Merges e (multi_prev-Merges m (Moved-IsMerging m path))

  -- After a seek and any moves, forwards and backwards, no valid iterator of a shard has a key that
  -- comes before the key of the current one, in the direction of the last move; and if some iterator
  -- is valid, there is a current one.
  pub Moved-precedes :
      (m : MultiIterator r) (k : ℕ) (s : State)
      → Moved m
      → get_elem? m.iters k ≡ some s
      → r.is_valid s ≡ true
      → (i : ℕ) × (m.current ≡ some i)
        × (precedes m.forward (key_at r.key m.iters k) (key_at r.key m.iters i) ≡ false)
  Moved-precedes m k s path e valid =
      let v = Moved-IsMerging m path in
      let held = v.held k s e ∙ valid in
      let (i, found) = top-some r.key m.forward m.iters m.heap k held in
      (i, v.chosen ∙ found, top-precedes r.key m.forward m.iters m.heap i k found held)
