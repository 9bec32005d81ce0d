-- ===== src/Info/Printing/Ranges.antt =====
-- The text of ListToString tells which numbers the list has (src/common/info.cc).
use crocks.Prelude.{
  ℕ, zero, suc, ◌+◌, ◌-◌, ◌<◌, ◌≤◌, ◌≡◌, ◌⊎◌, refl, ap, sym, ◌∙◌, subst, Bool, true, false, not,
  ◌&&◌, ℤ, is_neg, assert, ◌>>◌, List, [], ◌∷◌, ◌++◌, append_assoc, inl, inr, ◌==◌, ==_iff, ==-refl,
  arith, if◌then◌else◌, ok,
}
use crocks.Cluster.{ClusterInfo, ShardInfo, collect, shards, future, is_id}
use crocks.Info.Printing.{Piece, first, comma, dash, pieces_from, list_to_string}

-- the k numbers after n
abbrev pub up_from : ℕ → ℕ → List ℕ
up_from n zero = []
up_from n (suc k) = suc n ∷ up_from (suc n) k

-- what a text says after a number: "-m" is the numbers up to m
unfoldable pub read_pieces : ℕ → List Piece → List ℕ
read_pieces n [] = []
read_pieces n (first m ∷ ps) = m ∷ read_pieces m ps
read_pieces n (comma m ∷ ps) = m ∷ read_pieces m ps
read_pieces n (dash m ∷ ps) = up_from n (m - n) ++ read_pieces m ps

-- each number is larger than the one before
abbrev pub Above : ℕ → List ℕ → Type 0
Above n [] = Unit
Above n (m ∷ ms) = (n < m) × Above m ms

up_from-suc : (n k : ℕ) → up_from n (suc k) ≡ up_from n k ++ suc (n + k) ∷ []
up_from-suc n zero = ap (λ m. suc m ∷ []) (omega arith)
up_from-suc n (suc k) =
    ap (◌∷◌ (suc n)) (up_from-suc (suc n) k ∙ ap (λ m. up_from (suc n) k ++ m ∷ []) (omega arith))

-- In a range, the numbers from `start` to `last`, which is k more, have been read, and `start` was
-- written.
Ranged : ℕ → List ℕ → Type 0
Ranged head ns =
    (start k last : ℕ)
    → head ≤ start
    → last ≡ start + k
    → Above last ns
    → read_pieces start (pieces_from head true last ns) ≡ up_from start k ++ ns

Single : ℕ → List ℕ → Type 0
Single head ns =
    (last : ℕ)
    → head ≤ last
    → Above last ns
    → read_pieces last (pieces_from head false last ns) ≡ ns

Ranged-more : (head n : ℕ) (ns : List ℕ) → Ranged head ns → Single head ns → Ranged head (n ∷ ns)
unfolding Ranged Single pieces_from read_pieces
Ranged-more head n ns ranged single start k last low at (larger, above) =
    by_tests (n == head) (n == last + 1) refl refl
  where
    by_tests :
        (a b : Bool)
        → (n == head) ≡ a
        → (n == last + 1) ≡ b
        → read_pieces start (
            if a
            then first n ∷ pieces_from head true n ns
            else if b
            then pieces_from head true n ns
            else dash last ∷ comma n ∷ pieces_from head false n ns)
          ≡ up_from start k ++ n ∷ ns
    by_tests true b h g = let same : n ≡ head = (==_iff n head).0 h in absurd (omega arith)
    by_tests false true h g =
        let next : n ≡ last + 1 = (==_iff n (last + 1)).0 g in
        let sum : n ≡ suc (start + k) = omega arith in
        ranged start (suc k) n low (omega arith) above
        ∙ ap (λ l. l ++ ns) (up_from-suc start k)
        ∙ append_assoc (up_from start k) (suc (start + k) ∷ []) ns
        ∙ ap (λ m. up_from start k ++ m ∷ ns) (sym sum)
    by_tests false false h g =
        let count : last - start ≡ k = omega arith in
        ap (λ m. up_from start m ++ n ∷ read_pieces n (pieces_from head false n ns)) count
        ∙ ap (λ l. up_from start k ++ n ∷ l) (single n (omega arith) above)

Single-more : (head n : ℕ) (ns : List ℕ) → Ranged head ns → Single head ns → Single head (n ∷ ns)
unfolding Ranged Single pieces_from read_pieces
Single-more head n ns ranged single last low (larger, above) =
    by_tests (n == head) (n == last + 1) refl refl
  where
    by_tests :
        (a b : Bool)
        → (n == head) ≡ a
        → (n == last + 1) ≡ b
        → read_pieces last (
            if a
            then first n ∷ pieces_from head false n ns
            else if b
            then pieces_from head true n ns
            else comma n ∷ pieces_from head false n ns)
          ≡ n ∷ ns
    by_tests true b h g = let same : n ≡ head = (==_iff n head).0 h in absurd (omega arith)
    by_tests false true h g =
        let next : n ≡ last + 1 = (==_iff n (last + 1)).0 g in
        let sum : suc last ≡ n = omega arith in
        ranged last 1 n low next above ∙ ap (λ m. m ∷ ns) sum
    by_tests false false h g = ap (◌∷◌ n) (single n (omega arith) above)

pieces_from-read : (head : ℕ) (ns : List ℕ) → Ranged head ns × Single head ns
unfolding Ranged Single pieces_from read_pieces
pieces_from-read head [] = (
  λ start k last low at above.
      let count : last - start ≡ k = omega arith in ap (λ m. up_from start m ++ []) count,
  λ last low above. refl,
)
pieces_from-read head (n ∷ ns) =
    let (ranged, single) = pieces_from-read head ns in
    (Ranged-more head n ns ranged single, Single-more head n ns ranged single)

-- the numbers of a text
abbrev pub numbers : List Piece → List ℕ
numbers ps = read_pieces 0 ps

pub list_to_string-numbers :
    (n : ℕ) (ns : List ℕ)
    → Above n ns
    → (ps : List Piece) × (list_to_string (n ∷ ns) ≡ ok ps) × (numbers ps ≡ n ∷ ns)
unfolding Single list_to_string pieces_from read_pieces
list_to_string-numbers n ns above =
    (pieces_from n false n (n ∷ ns), refl, by_head (n == n) (==-refl n))
  where
    by_head :
        (a : Bool)
        → a ≡ true
        → read_pieces 0 (
            if a
            then first n ∷ pieces_from n false n ns
            else if n == n + 1
            then pieces_from n true n ns
            else comma n ∷ pieces_from n false n ns)
          ≡ n ∷ ns
    by_head false h = absurd (cc h)
    by_head true h = ap (◌∷◌ n) ((pieces_from-read n ns).1 n (omega arith) above)

-- what `collect` finds stands in order
collect-Above :
    (p : ShardInfo → Bool) (m i : ℕ) (ss : List ShardInfo) → m < i → Above m (collect p i ss)
unfolding collect
collect-Above p m i [] h = tt
collect-Above p m i (s ∷ ss) h =
    by_test (p s) (collect-Above p i (suc i) ss (omega arith))
      (collect-Above p m (suc i) ss (omega arith))
  where
    by_test :
        (b : Bool)
        → Above i (collect p (suc i) ss)
        → Above m (collect p (suc i) ss)
        → Above m (if b then i ∷ collect p (suc i) ss else collect p (suc i) ss)
    by_test true after later = (h, after)
    by_test false after later = later

collect-rest :
    (p : ShardInfo → Bool) (i : ℕ) (ss : List ShardInfo) (n : ℕ) (ns : List ℕ)
    → collect p i ss ≡ n ∷ ns
    → Above n ns
unfolding collect
collect-rest p i [] n ns h = absurd (cc h)
collect-rest p i (s ∷ ss) n ns h = by_test (p s) h (λ e. collect-rest p (suc i) ss n ns e)
  where
    by_test :
        (b : Bool)
        → (if b then i ∷ collect p (suc i) ss else collect p (suc i) ss) ≡ n ∷ ns
        → (collect p (suc i) ss ≡ n ∷ ns → Above n ns)
        → Above n ns
    by_test true e later =
        let head : i ≡ n = cc e in
        let tail : collect p (suc i) ss ≡ ns = cc e in
        subst (λ m. Above m ns) head
          (subst (Above i) tail (collect-Above p i (suc i) ss (omega arith)))
    by_test false e later = later e

assert-value : (b : Bool) (l m : List ℕ) → (assert b >> ok l) ≡ ok m → l ≡ m
assert-value true l m h = cc h
assert-value false l m h = absurd (cc h)

-- Print shows the shards of a node, and those that it is to get. When there are any, ListToString
-- returns, and the numbers that its text tells, each range written out, are these shards in order.
pub shards-list_to_string :
    (c : ClusterInfo) (id : ℤ) (n : ℕ) (ns : List ℕ)
    → (shards c id ≡ ok (n ∷ ns)) ⊎ (future c id ≡ ok (n ∷ ns))
    → (ps : List Piece) × (list_to_string (n ∷ ns) ≡ ok ps) × (numbers ps ≡ n ∷ ns)
unfolding shards future
shards-list_to_string c id n ns (inl h) = list_to_string-numbers n ns (
    collect-rest (λ s. is_id s.master id) 0 c.shards n ns
      (assert-value (not (is_neg id)) _ (n ∷ ns) h))
shards-list_to_string c id n ns (inr h) = list_to_string-numbers n ns (
    collect-rest (λ s. s.migrating && is_id s.to id) 0 c.shards n ns
      (assert-value (not (is_neg id)) _ (n ∷ ns) h))
