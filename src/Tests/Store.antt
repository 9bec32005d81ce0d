-- ===== src/Tests/Store.antt =====
-- A stand-in for etcd: a map from keys to values.
use crocks.Prelude.{
  ◌≡◌, refl, Bool, true, false, List, [], ◌∷◌, Option, none, some, arith, Bytes, beq, ◌==◌,
  if◌then◌else◌,
}
use crocks.Etcd.{Etcd, Compare, value_equals, version_equals, TxnRequest, holds_value, is_none}

abbrev pub Table : Type 0
Table = Bytes → Option Bytes

abbrev pub store : Table → Bytes → Bytes → Table
store s k v j = if beq k j then some v else s j

abbrev pub holds : Table → Compare → Bool
holds s (value_equals k v) = holds_value (s k) v
holds s (version_equals k n) = if n == 0 then is_none (s k) else false

abbrev pub all_hold : Table → List Compare → Bool
all_hold s [] = true
all_hold s (c ∷ cs) = if holds s c then all_hold s cs else false

abbrev pub put_each : Table → List (Bytes × Bytes) → Table
put_each s [] = s
put_each s ((k, v) ∷ r) = put_each (store s k v) r

abbrev pub txn : Table → TxnRequest → Table × Bool
txn s r = if all_hold s r.compare then (put_each s r.success, true) else (s, false)

pub txn-one :
    (s : Table) (c : Compare) (k v : Bytes)
    → txn s (record { compare = c ∷ []; success = (k, v) ∷ [] })
      ≡ (if holds s c then (store s k v, true) else (s, false))
txn-one s c k v = ground arith

abbrev pub table : Etcd
table = record {
  Store = Table;
  value = λ s k. s k;
  mod_revision = λ s k. 1;
  put = store;
  delete_range = λ s k. (λ j. if beq k j then none else s j, if is_none (s k) then 0 else 1);
  holds = holds;
  txn = txn;
  value-put = λ s k v j. refl;
  revision_pos = λ s k v h. omega arith;
  holds-value = λ s k v. refl;
  holds-version = λ s k. refl;
  txn-one = txn-one;
}
