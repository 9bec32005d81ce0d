-- ===== src/Server/Shard/Refs.antt =====
-- The reference counter of Shard (src/server/shards.cc): the calls of Ref and Unref that the handlers
-- make, in any order.
use crocks.Prelude.{
  ℕ, zero, suc, ◌+◌, ◌≡◌, refl, Bool, true, false, not, ◌&&◌, Bytes, arith, pos, ◌+ℤ◌, ◌-ℤ◌,
  pos-add_one, pos-sub_one, is_zero, ◌==◌, if◌then◌else◌, sym, subst, ok, ap, ◌∙◌, Bool-cases, ◌⊎◌,
  inl, inr,
}
use crocks.Server.Shard.{RocksDb, Shard, opened, imported_from, ref, unref, put, delete}

module _ (db : RocksDb) where
  open db use {Cf}

  -- `Steps s n t m`: the shard goes from s to t, and the handlers that hold a reference, n at first,
  -- are m in the end. Only a handler that holds one writes, and gives it back once.
  pub data Steps (s : Shard db) (n : ℕ) : Shard db → ℕ → Type 0 where
    stay : Steps s n s n
    take :
        (t : Shard db) (m : ℕ)
        → Steps s n t m
        → (ref db t).1 ≡ true
        → Steps s n (ref db t).0 (suc m)
    write :
        (t : Shard db) (m : ℕ) (k v : Bytes)
        → Steps s n t (suc m)
        → Steps s n (put db t k v) (suc m)
    erase :
        (t : Shard db) (m : ℕ) (k : Bytes) → Steps s n t (suc m) → Steps s n (delete db t k) (suc m)
    give_back :
        (t u : Shard db) (m : ℕ) (b : Bool)
        → Steps s n t (suc m)
        → unref db t false ≡ ok (u, b)
        → Steps s n u m
    migrate :
        (t u : Shard db) (m : ℕ) (b : Bool)
        → Steps s n t m
        → unref db t true ≡ ok (u, b)
        → Steps s n u m

  -- The counter counts the holders, and one more until the shard migrates; the promise is set just
  -- if the shard migrates and nobody holds a reference.
  abbrev pub IsCounted : Shard db → ℕ → Type 0
  IsCounted s n =
      (s.refs ≡ pos (n + (if s.migrating then 0 else 1))) × (s.zero_refs ≡ (s.migrating && n == 0))

  ref-IsCounted :
      (s : Shard db) (n : ℕ) → IsCounted s n → (ref db s).1 ≡ true → IsCounted (ref db s).0 (suc n)
  unfolding ref
  ref-IsCounted s n (c, z) h = elim (Bool-cases s.migrating) [
    | inl m ↦ absurd (ground arith)
    | inr m ↦
        let counts : s.refs +ℤ pos 1 ≡ pos (suc n + 1) =
          ap (λ r. r +ℤ pos 1) c ∙ ground (arith, pos-add_one (n + 1)) in
        (ground arith, ground arith)
  ]

  -- Unref never sets the promise a second time.
  unref-IsCounted :
      (s : Shard db) (n : ℕ)
      → IsCounted s (suc n)
      → (t : Shard db) × (unref db s false ≡ ok (t, true))
        × IsCounted t n
        × (t.cf ≡ s.cf)
        × (t.migrating ≡ s.migrating)
  unfolding unref
  unref-IsCounted s n (c, z) =
      let less = s.refs -ℤ pos 1 in
      let counts : less ≡ pos (n + (if s.migrating then 0 else 1)) =
        ap (λ r. r -ℤ pos 1) c ∙ ground (arith, pos-sub_one (n + (if s.migrating then 0 else 1))) in
      elim (Bool-cases (is_zero less)) [
        | inl last ↦ (
          record s { refs = less; zero_refs = true },
          ground arith,
          (counts, ground arith),
          refl,
          refl,
        )
        | inr more ↦ (record s { refs = less }, ground arith, (counts, ground arith), refl, refl)
      ]

  migrate-IsCounted :
      (s : Shard db) (n : ℕ)
      → IsCounted s n
      → (t : Shard db) × (unref db s true ≡ ok (t, not s.migrating))
        × IsCounted t n
        × (t.cf ≡ s.cf)
        × (t.migrating ≡ true)
  unfolding unref
  migrate-IsCounted s n (c, z) = elim (Bool-cases s.migrating) [
    | inl already ↦ (s, ground arith, (c, z), refl, already)
    | inr first ↦
        let less = s.refs -ℤ pos 1 in
        let counts : less ≡ pos n = ap (λ r. r -ℤ pos 1) c ∙ ground (arith, pos-sub_one n) in
        let marked : Shard db = record s { refs = less; migrating = true } in
        elim (Bool-cases (is_zero less)) [
          | inl last ↦ (
            record marked { zero_refs = true },
            ground arith,
            (ground arith, ground arith),
            refl,
            refl,
          )
          | inr more ↦ (marked, ground arith, (ground arith, ground arith), refl, refl)
        ]
  ]

  Steps-IsCounted :
      (s : Shard db) (n : ℕ) (t : Shard db) (m : ℕ) → Steps s n t m → IsCounted s n → IsCounted t m
  unfolding put delete
  Steps-IsCounted s n t m stay i = i
  Steps-IsCounted s n t m (take u k path h) i = ref-IsCounted u k (Steps-IsCounted s n u k path i) h
  Steps-IsCounted s n t m (write u k key v path) i = Steps-IsCounted s n u (suc k) path i
  Steps-IsCounted s n t m (erase u k key path) i = Steps-IsCounted s n u (suc k) path i
  Steps-IsCounted s n t m (give_back u v k b path e) i =
      let (w, d, counted, untouched, on) =
        unref-IsCounted u m (Steps-IsCounted s n u (suc m) path i) in
      let same : w ≡ t = cc in subst (λ x. IsCounted x m) same counted
  Steps-IsCounted s n t m (migrate u v k b path e) i =
      let (w, d, counted, untouched, on) = migrate-IsCounted u m (Steps-IsCounted s n u m path i) in
      let same : w ≡ t = cc in subst (λ x. IsCounted x m) same counted

  drained :
      (s : Shard db) (n : ℕ) (t : Shard db) (m : ℕ)
      → Steps s n t m
      → IsCounted s n
      → s.zero_refs ≡ true
      → (m ≡ 0) × (t.migrating ≡ true) × (t.cf ≡ s.cf)
  unfolding put delete ref unref
  drained s n t m stay i z = (ground arith, ground arith, refl)
  drained s n t m (take u k path h) i z =
      let (none_left, moving, same) = drained s n u k path i z in absurd (ground arith)
  drained s n t m (write u k key v path) i z =
      let (none_left, moving, same) = drained s n u (suc k) path i z in absurd (ground arith)
  drained s n t m (erase u k key path) i z =
      let (none_left, moving, same) = drained s n u (suc k) path i z in absurd (ground arith)
  drained s n t m (give_back u v k b path e) i z =
      let (none_left, moving, same) = drained s n u (suc m) path i z in absurd (ground arith)
  drained s n t m (migrate u v k b path e) i z =
      let (none_left, moving, same) = drained s n u m path i z in
      let (w, d, counted, untouched, on) = migrate-IsCounted u m (Steps-IsCounted s n u m path i) in
      let equal : w ≡ t = cc in
      (
        none_left,
        ap (λ x. x.migrating) (sym equal) ∙ on,
        ap (λ x. x.cf) (sym equal) ∙ untouched ∙ same,
      )

  abbrev pub IsNew : Shard db → Type 0
  IsNew s = ((cf : Cf) × (s ≡ opened db cf)) ⊎ ((address : Bytes) × (s ≡ imported_from db address))

  new-IsCounted : (s : Shard db) → IsNew s → IsCounted s 0
  unfolding opened imported_from
  new-IsCounted s (inl (cf, e)) = rw e (refl, refl)
  new-IsCounted s (inr (address, e)) = rw e (refl, refl)

  -- In each state that a new shard comes to, the counter is the number of handlers that hold a
  -- reference, and one more until the shard migrates, and the promise has been set just if the shard
  -- migrates and no handler holds a reference. There the next Unref does not throw: if a handler holds
  -- a reference it may give it back, and a migration gets true just if it is the first.
  pub Steps-IsCounted_new :
      (s t : Shard db) (m : ℕ)
      → IsNew s
      → Steps s 0 t m
      → IsCounted t m
        × ((m ≡ 0) ⊎ ((u : Shard db) × (unref db t false ≡ ok (u, true))))
        × ((u : Shard db) × (unref db t true ≡ ok (u, not t.migrating)))
  Steps-IsCounted_new s t zero new path =
      let counted = Steps-IsCounted s 0 t zero path (new-IsCounted s new) in
      let (u, e, after, same, on) = migrate-IsCounted t zero counted in (counted, inl refl, (u, e))
  Steps-IsCounted_new s t (suc m) new path =
      let counted = Steps-IsCounted s 0 t (suc m) path (new-IsCounted s new) in
      let (u, e, after, same, on) = migrate-IsCounted t (suc m) counted in
      let (v, f, after', same', on') = unref-IsCounted t m counted in (counted, inr (v, f), (u, e))

  -- Once WaitRefs returns, that is once the promise of a shard is set, the shard stays as it is: no
  -- handler gets a reference any more, and whatever the handlers do the column family is not changed.
  pub Steps-drained :
      (s t u : Shard db) (m n : ℕ)
      → IsNew s
      → Steps s 0 t m
      → t.zero_refs ≡ true
      → Steps t m u n
      → (n ≡ 0) × (u.cf ≡ t.cf) × (ref db u ≡ (u, false))
  unfolding ref
  Steps-drained s t u m n new path z later =
      let counted = Steps-IsCounted s 0 t m path (new-IsCounted s new) in
      let (none_left, moving, same) = drained t m u n later counted z in
      (none_left, same, rw (moving, ref))
