-- ===== src/Info/Printing.antt =====
-- Info::Print with its ListToString (src/common/info.cc). The text is kept as its pieces.
pub mod Ranges
use crocks.Prelude.{
  ℕ, zero, suc, ◌+◌, Bool, true, false, ◌||◌, List, [], ◌∷◌, ◌++◌, Bytes, pos, is_empty, length,
  ◌==◌, if◌then◌else◌, Run, ok, abort, ◌>>=◌, ◌>>◌, assert,
}
use crocks.Cluster.{
  ClusterInfo, State, shards, future, address, is_available, is_removed, is_init, is_running,
  is_migrating, num_nodes, num_shards,
}

-- "n", ",n" and "-n"
pub data Piece : Type 0 where
  first : ℕ → Piece
  comma : ℕ → Piece
  dash : ℕ → Piece

-- the loop of ListToString, with list[0], in_range and last
unfoldable pub pieces_from : ℕ → Bool → ℕ → List ℕ → List Piece
pieces_from head in_range last [] = if in_range then dash last ∷ [] else []
pieces_from head in_range last (n ∷ ns) =
    let kept = pieces_from head in_range n ns in
    let opened = pieces_from head true n ns in
    let closed = pieces_from head false n ns in
    if n == head
    then first n ∷ kept
    else if in_range
    then (if n == last + 1 then kept else dash last ∷ comma n ∷ closed)
    else if n == last + 1
    then opened
    else comma n ∷ closed

-- `list[0]` of an empty list is out of range
unfoldable pub list_to_string : List ℕ → Run (List Piece)
unfolding pieces_from
list_to_string [] = abort
list_to_string (n ∷ ns) = ok (pieces_from n false n (n ∷ ns))

pub data Line : Type 0 where
  state : State → Line
  nodes : ℕ → Line
  all_shards : ℕ → Line
  node : ℕ → Line
  node_address : Bytes → Line
  node_shards : List Piece → ℕ → Line
  node_future : List Piece → ℕ → Line
  unavailable : Line
  removed : Line

-- a line with a list, when there is something in it
unfoldable pub list_line : (List Piece → ℕ → Line) → List ℕ → Run (List Line)
unfolding list_to_string
list_line line ns =
    if is_empty ns then ok [] else (do ps ← list_to_string ns; ok (line ps (length ns) ∷ []))

-- the loop over the nodes, from i on; a node without address is skipped
unfoldable pub print_nodes : ClusterInfo → ℕ → ℕ → Run (List Line)
unfolding address shards future is_available is_removed list_line
print_nodes c zero i = ok []
print_nodes c (suc left) i = print_nodes c left (suc i) >>= λ rest. address c (pos i) >>= λ a.
    if is_empty a then ok rest else do
      owned ← shards c (pos i)
      here ← list_line node_shards owned
      coming ← future c (pos i)
      soon ← list_line node_future coming
      up ← is_available c (pos i)
      leaving ← is_removed c (pos i)
      ok (
          node i
          ∷ node_address a
          ∷ (here
              ++ soon
              ++ (if up then [] else unavailable ∷ [])
              ++ (if leaving then removed ∷ [] else [])
              ++ rest))

-- Info::Print
unfoldable pub print : ClusterInfo → Run (List Line)
unfolding print_nodes is_init is_running is_migrating num_nodes num_shards
print c = do
  assert (is_init c || is_running c || is_migrating c)
  rest ← print_nodes c (num_nodes c) 0
  ok (state c.state ∷ nodes (num_nodes c) ∷ all_shards (num_shards c) ∷ rest)
