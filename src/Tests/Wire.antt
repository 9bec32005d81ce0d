-- ===== src/Tests/Wire.antt =====
-- A stand-in for protobuf: an encoding of the cluster info with its decoder.
use crocks.Prelude.{
  ℕ, zero, suc, ◌≡◌, refl, ap, Bool, true, false, List, [], ◌∷◌, ◌++◌, some, Option, length, take,
  drop, Bytes, ℤ, pos, negsuc,
}
use crocks.Cluster.{NodeInfo, ShardInfo, ClusterInfo, State}
use crocks.Info.{Proto}

abbrev pub pop : Bytes → ℕ × Bytes
pop [] = (0, [])
pop (x ∷ xs) = (x, xs)

abbrev put_bool : Bool → ℕ
put_bool true = 1
put_bool false = 0

abbrev get_bool : ℕ → Bool
get_bool zero = false
get_bool (suc n) = true

pub get_bool-put_bool : (b : Bool) → get_bool (put_bool b) ≡ b
get_bool-put_bool true = refl
get_bool-put_bool false = refl

abbrev put_int : ℤ → Bytes → Bytes
put_int (pos n) rest = 0 ∷ n ∷ rest
put_int (negsuc n) rest = 1 ∷ n ∷ rest

abbrev get_int : Bytes → ℤ × Bytes
get_int [] = (pos 0, [])
get_int (zero ∷ rest) = (pos (pop rest).0, (pop rest).1)
get_int (suc k ∷ rest) = (negsuc (pop rest).0, (pop rest).1)

pub get_int-put_int : (a : ℤ) (rest : Bytes) → get_int (put_int a rest) ≡ (a, rest)
get_int-put_int (pos n) rest = refl
get_int-put_int (negsuc n) rest = refl

pub take-append : (xs rest : Bytes) → take (length xs) (xs ++ rest) ≡ xs
take-append [] rest = refl
take-append (x ∷ xs) rest = ap (◌∷◌ x) (take-append xs rest)

pub drop-append : (xs rest : Bytes) → drop (length xs) (xs ++ rest) ≡ rest
drop-append [] rest = refl
drop-append (x ∷ xs) rest = drop-append xs rest

unfoldable pub put_node : NodeInfo → Bytes → Bytes
put_node n rest =
    length n.address
    ∷ (n.address ++ (n.id ∷ put_int n.num_shards (put_bool n.available ∷ put_bool n.remove ∷ rest)))

unfoldable pub node_tail : Bytes → Bytes → NodeInfo × Bytes
node_tail address bytes =
    let (id, b) = pop bytes in
    let (num, c) = get_int b in
    let (available, d) = pop c in
    let (remove, rest) = pop d in
    (
      record {
        address = address;
        id = id;
        num_shards = num;
        available = get_bool available;
        remove = get_bool remove;
      },
      rest,
    )

unfoldable pub get_node : Bytes → NodeInfo × Bytes
get_node bytes = let (n, b) = pop bytes in node_tail (take n b) (drop n b)

pub get_node-put_node : (n : NodeInfo) (rest : Bytes) → get_node (put_node n rest) ≡ (n, rest)
unfolding get_node put_node node_tail
get_node-put_node n rest = rw (
  take-append n.address,
  drop-append n.address,
  get_int-put_int n.num_shards (put_bool n.available ∷ put_bool n.remove ∷ rest),
  get_bool-put_bool n.available,
  get_bool-put_bool n.remove,
)

unfoldable pub put_shard : ShardInfo → Bytes → Bytes
put_shard s rest = s.master ∷ put_bool s.migrating ∷ s.from ∷ s.to ∷ rest

unfoldable pub get_shard : Bytes → ShardInfo × Bytes
get_shard bytes =
    let (master, b) = pop bytes in
    let (migrating, c) = pop b in
    let (from, d) = pop c in
    let (to, rest) = pop d in
    (record { master = master; migrating = get_bool migrating; from = from; to = to }, rest)

pub get_shard-put_shard : (s : ShardInfo) (rest : Bytes) → get_shard (put_shard s rest) ≡ (s, rest)
unfolding get_shard put_shard
get_shard-put_shard s rest = rw (get_bool-put_bool s.migrating)

module _ {A : Type 0} (put_one : A → Bytes → Bytes) (get_one : Bytes → A × Bytes)
    (back : (a : A) (rest : Bytes) → get_one (put_one a rest) ≡ (a, rest)) where
  unfoldable pub put_all : List A → Bytes → Bytes
  put_all [] rest = rest
  put_all (a ∷ more) rest = put_one a (put_all more rest)

  unfoldable pub get_all : ℕ → Bytes → List A × Bytes
  get_all zero bytes = ([], bytes)
  get_all (suc n) bytes =
      let (a, b) = get_one bytes in let (others, rest) = get_all n b in (a ∷ others, rest)

  pub get_all-put_all :
      (items : List A) (rest : Bytes) → get_all (length items) (put_all items rest) ≡ (items, rest)
  unfolding get_all put_all
  get_all-put_all [] rest = refl
  get_all-put_all (a ∷ more) rest = rw (back a (put_all more rest), get_all-put_all more rest)

abbrev put_state : State → ℕ
put_state State.init = 0
put_state State.running = 1
put_state State.migrating = 2

abbrev get_state : ℕ → State
get_state zero = State.init
get_state (suc zero) = State.running
get_state (suc (suc n)) = State.migrating

pub get_state-put_state : (s : State) → get_state (put_state s) ≡ s
get_state-put_state State.init = refl
get_state-put_state State.running = refl
get_state-put_state State.migrating = refl

unfoldable pub serialize : ClusterInfo → Bytes
serialize c =
    put_state c.state
    ∷ length c.nodes
    ∷ length c.shards
    ∷ put_all put_node get_node get_node-put_node c.nodes
        (put_all put_shard get_shard get_shard-put_shard c.shards [])

unfoldable pub parse : Bytes → Option ClusterInfo
parse [] = some (record { state = State.init; nodes = []; shards = [] })
parse (state ∷ rest) =
    let (n, b) = pop rest in
    let (m, c) = pop b in
    let (nodes, d) = get_all put_node get_node get_node-put_node n c in
    let (shards, _) = get_all put_shard get_shard get_shard-put_shard m d in
    some (record { state = get_state state; nodes = nodes; shards = shards })

pub parse-serialize : (c : ClusterInfo) → parse (serialize c) ≡ some c
unfolding parse serialize
parse-serialize c = rw (
  get_all-put_all put_node get_node get_node-put_node c.nodes,
  get_all-put_all put_shard get_shard get_shard-put_shard c.shards [],
  get_state-put_state c.state,
)

unfoldable pub wire : Proto
unfolding parse serialize
wire = record {
  serialize = serialize;
  parse = parse;
  parse-serialize = parse-serialize;
  parse-nil = refl;
}
