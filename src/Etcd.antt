-- ===== src/Etcd.antt =====
-- The requests that src/common/etcd_client.cc and src/common/etcd_util.cc make, over etcd as a
-- parameter. A failed call ends the process (EnsureRpc), so only calls that succeed are modelled.
pub mod Watch
use crocks.Prelude.{
  ℕ, ◌<◌, ◌≡◌, Bool, true, false, List, [], ◌∷◌, ◌++◌, Option, none, some, Bytes, beq,
  if◌then◌else◌,
}

-- etcdserverpb::Compare, in the two forms that the client builds
pub data Compare : Type 0 where
  value_equals : Bytes → Bytes → Compare
  version_equals : Bytes → ℕ → Compare

-- etcdserverpb::TxnRequest; `success` holds the puts
pub record TxnRequest : Type 0 where
  pub compare : List Compare
  pub success : List (Bytes × Bytes)

abbrev pub holds_value : Option Bytes → Bytes → Bool
holds_value none v = false
holds_value (some w) v = beq w v

abbrev pub is_none {ℓ} : {A : Type ℓ} → Option A → Bool
is_none none = true
is_none (some a) = false

-- etcd, and what its API documents of the calls in use: a put is seen by later reads of its key; a
-- key that exists has a positive mod_revision; its version is 0 just if it is missing; a
-- transaction makes its puts if all its comparisons hold, and otherwise does nothing.
pub record Etcd : Type 1 where
  pub Store : Type 0
  pub value : Store → Bytes → Option Bytes
  pub mod_revision : Store → Bytes → ℕ
  pub put : Store → Bytes → Bytes → Store
  pub delete_range : Store → Bytes → Store × ℕ
  pub holds : Store → Compare → Bool
  pub txn : Store → TxnRequest → Store × Bool
  pub value-put :
      (s : Store) (k v : Bytes) (j : Bytes)
      → value (put s k v) j ≡ (if beq k j then some v else value s j)
  pub revision_pos : (s : Store) (k v : Bytes) → value s k ≡ some v → 0 < mod_revision s k
  pub holds-value :
      (s : Store) (k v : Bytes) → holds s (value_equals k v) ≡ holds_value (value s k) v
  pub holds-version : (s : Store) (k : Bytes) → holds s (version_equals k 0) ≡ is_none (value s k)
  pub txn-one :
      (s : Store) (c : Compare) (k v : Bytes)
      → txn s (record { compare = c ∷ []; success = (k, v) ∷ [] })
        ≡ (if holds s c then (put s k v, true) else (s, false))

-- AddCompareValueEquals, AddCompareKeyMissing, AddSuccessPut
abbrev pub no_request : TxnRequest
no_request = record { compare = []; success = [] }

unfoldable pub add_compare_value_equals : Bytes → Bytes → TxnRequest → TxnRequest
add_compare_value_equals key value request = record request {
  compare = request.compare ++ value_equals key value ∷ [];
}

pub add_compare_key_missing : Bytes → TxnRequest → TxnRequest
add_compare_key_missing key request = record request {
  compare = request.compare ++ version_equals key 0 ∷ [];
}

unfoldable pub add_success_put : Bytes → Bytes → TxnRequest → TxnRequest
add_success_put key value request = record request {
  success = request.success ++ (key, value) ∷ [];
}

module _ (e : Etcd) where
  open e use {Store}

  -- EtcdClient::Get: the revision or 0, and what it stores in *value; a missing key leaves the
  -- caller's string, which is empty at every call.
  unfoldable pub client_get : Store → Bytes → ℕ × Bytes
  client_get s key = elim (e.value s key) [ none ↦ (0, []) | some v ↦ (e.mod_revision s key, v) ]

  pub client_put : Store → Bytes → Bytes → Store
  client_put s key value = e.put s key value

  pub client_delete : Store → Bytes → Store × ℕ
  client_delete s key = e.delete_range s key

  pub key_missing : Store → Bytes → Bool
  key_missing s key = is_none (e.value s key)

  unfoldable pub txn_put_if_value_equals : Store → Bytes → Bytes → Bytes → Store × Bool
  unfolding add_compare_value_equals add_success_put
  txn_put_if_value_equals s key value old_value =
      e.txn s (add_success_put key value (add_compare_value_equals key old_value no_request))

  pub txn_put_if_key_missing : Store → Bytes → Bytes → Store × Bool
  unfolding add_compare_key_missing add_success_put
  txn_put_if_key_missing s key value =
      e.txn s (add_success_put key value (add_compare_key_missing key no_request))

  -- What the calls do, on each branch.
  pub client_get-none : (s : Store) (k : Bytes) → e.value s k ≡ none → client_get s k ≡ (0, [])
  unfolding client_get
  client_get-none s k h = rw (h, client_get)

  pub client_get-some :
      (s : Store) (k v : Bytes) → e.value s k ≡ some v → client_get s k ≡ (e.mod_revision s k, v)
  unfolding client_get
  client_get-some s k v h = rw (h, client_get)

  pub txn_put_if_value_equals_lem :
      (s : Store) (k v w : Bytes)
      → txn_put_if_value_equals s k v w
        ≡ (if holds_value (e.value s k) w then (e.put s k v, true) else (s, false))
  unfolding txn_put_if_value_equals
  txn_put_if_value_equals_lem s k v w = rw (e.txn-one s (value_equals k w) k v, e.holds-value s k w)

  pub txn_put_if_key_missing_lem :
      (s : Store) (k v : Bytes)
      → txn_put_if_key_missing s k v
        ≡ (if is_none (e.value s k) then (e.put s k v, true) else (s, false))
  unfolding txn_put_if_key_missing
  txn_put_if_key_missing_lem s k v = rw (e.txn-one s (version_equals k 0) k v, e.holds-version s k)
