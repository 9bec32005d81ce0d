-- ===== src/Client/Connections.antt =====
-- Update and the connections of ClusterImpl (src/client/cluster_impl.cc).
use crocks.Prelude.{
  ℕ, zero, suc, ◌+◌, ◌<◌, ◌≡◌, refl, ap, sym, ◌∙◌, false, List, [], ◌∷◌, Option, none, some, Bytes,
  beq, beq→eq, arith, get_elem?, is_empty, ◌==◌, if◌then◌else◌, Bool-cases, Option-cases, inl, inr,
  Run, ok, abort, ◌>>=◌, subst,
}
use crocks.Cluster.{addresses}
use crocks.Etcd.{Etcd}
use crocks.Info.{Proto, get}
use crocks.Client.{ClusterImpl, update, Nodes, update_connection, update_connections}

-- the connection that an address calls for
abbrev pub connection : Bytes → Option Bytes
connection a = if is_empty a then none else some a

abbrev Connects : ℕ → Bytes → Nodes → Run Nodes → Type 0
Connects id a nodes abort = Unit
Connects id a nodes (ok later) =
    (later id ≡ connection a) × ((k : ℕ) → (id == k) ≡ false → later k ≡ nodes k)

update_connection-Connects :
    (nodes : Nodes) (id : ℕ) (a : Bytes) → Connects id a nodes (update_connection nodes id a)
unfolding update_connection
update_connection-Connects nodes id [] = (ground arith, λ k h. rw h refl)
update_connection-Connects nodes id (x ∷ a) = elim (Option-cases (nodes id)) [
  | inl missing ↦ rw (missing, update_connection) (ground arith, λ k h. rw h refl)
  | inr (b, here) ↦ elim (Bool-cases (beq b (x ∷ a))) [
    | inl same ↦
        rw (here, same, update_connection) (here ∙ ap some (beq→eq b (x ∷ a) same), λ k h. refl)
    | inr other ↦ rw (here, other, update_connection) tt
  ]
]

ok-inj {ℓ} : {A : Type ℓ} {x y : A} → ok x ≡ ok y → x ≡ y
ok-inj e = cc e

-- A call that returns has come to its continuation.
>>=-ok {ℓ κ} :
    {A : Type ℓ} {B : Type κ} (m : Run A) (f : A → Run B) (b : B)
    → m >>= f ≡ ok b
    → (a : A) × (m ≡ ok a) × (f a ≡ ok b)
>>=-ok (ok a) f b e = (a, refl, e)
>>=-ok abort f b e = absurd (cc e)

-- after the loop has gone on from some id
record IsUpdated (nodes : Nodes) (id : ℕ) (rest_of : List Bytes) (later : Nodes) : Type 0 where
  kept : (k : ℕ) → k < id → later k ≡ nodes k
  made : (j : ℕ) (a : Bytes) → get_elem? rest_of j ≡ some a → later (id + j) ≡ connection a

update_connections-IsUpdated :
    (rest_of : List Bytes) (nodes : Nodes) (id : ℕ) (later : Nodes)
    → update_connections nodes id rest_of ≡ ok later
    → IsUpdated nodes id rest_of later
unfolding update_connections
update_connections-IsUpdated [] nodes id later e =
    let same : nodes ≡ later = ok-inj e in
    record { kept = λ k h. ap (λ n. n k) (sym same); made = λ j a f. absurd (cc f) }
update_connections-IsUpdated (a ∷ rest_of) nodes id later e =
    let (next, first, rest) =
      >>=-ok (update_connection nodes id a) (λ n. update_connections n (suc id) rest_of) later e in
    let after = update_connections-IsUpdated rest_of next (suc id) later rest in
    let here : Connects id a nodes (ok next) =
      subst (Connects id a nodes) first (update_connection-Connects nodes id a) in
    record {
      kept = λ k h. after.kept k (omega arith) ∙ here.1 k (ground arith);
      made = λ j b f. made_at here after j b f;
    }
  where
    made_at :
        {next : Nodes}
        → Connects id a nodes (ok next)
        → IsUpdated next (suc id) rest_of later
        → (j : ℕ) (b : Bytes) → get_elem? (a ∷ rest_of) j ≡ some b
        → later (id + j) ≡ connection b
    made_at here after zero b f =
        let start : id + 0 ≡ id = omega arith in
        ap later start ∙ after.kept id (omega arith) ∙ here.0 ∙ ap connection (cc f)
    made_at here after (suc j) b f =
        let step : id + suc j ≡ suc id + j = omega arith in ap later step ∙ after.made j b f

module _ (e : Etcd) (p : Proto) where
  open e use {Store}

  -- When Update returns, the connection with each id is to the address that the info just read has for
  -- it, and there is none where the address is empty.
  pub update-connection :
      (c d : ClusterImpl) (s : Store) (j : ℕ) (a : Bytes)
      → update e p c s ≡ ok d
      → get_elem? (addresses d.info.info) j ≡ some a
      → (get e p c.info s ≡ ok d.info) × (d.nodes j ≡ connection a)
  unfolding update
  update-connection c d s j a r f =
      let (i, read, rest) = >>=-ok (get e p c.info s) _ d r in
      let (nodes, made, end) = >>=-ok (update_connections c.nodes 0 (addresses i.info)) _ d rest in
      let same_info : i ≡ d.info = ap (λ x. x.info) (ok-inj end) in
      let same_nodes : nodes ≡ d.nodes = ap (λ x. x.nodes) (ok-inj end) in
      let updated = update_connections-IsUpdated (addresses i.info) c.nodes 0 nodes made in
      let there : get_elem? (addresses i.info) j ≡ some a =
        ap (λ x. get_elem? (addresses x.info) j) same_info ∙ f in
      let index : j ≡ 0 + j = omega arith in
      (
        read ∙ ap ok same_info,
        ap (λ n. n j) (sym same_nodes) ∙ ap nodes index ∙ updated.made j a there,
      )
