-- ===== src/Server/Migrate/Dump.antt =====
-- DumpShard (src/server/migrate_util.cc), and a migration from the dump to the ingestion.
use crocks.Prelude.{
  ℕ, zero, suc, ◌+◌, ◌≤◌, ◌≡◌, refl, ap, sym, ◌∙◌, true, false, List, [], ◌∷◌, ◌++◌, append_assoc,
  none, some, Bytes, arith, length, map, take, drop, get_elem?, is_empty, ltb, leb, ◌==◌, ==-refl,
  length-drop, if◌then◌else◌, Bool-cases, inl, inr, ok,
}
use crocks.Server.Migrate.{
  Response, Files, Migrator, Dumped, migrator, Pair, SstFileWriter, dump_from, dumped_file,
  write_files, dump_shard, save_state, restore_state, Received, receive,
}
use crocks.Server.Migrate.Messages.{Sends}
use crocks.Server.Migrate.Transfer.{IsReady, IsNext, transfer}

abbrev pub concat : List (List Pair) → List Pair
concat [] = []
concat (g ∷ gs) = g ++ concat gs

concat-dump_from :
    (w : SstFileWriter) (acc es : List Pair) → concat (dump_from w acc es) ≡ acc ++ es
unfolding dump_from
concat-dump_from w [] [] = refl
concat-dump_from w (a ∷ acc) [] = refl
concat-dump_from w acc (e ∷ es) =
    elim (Bool-cases (ltb w.target_file_size_base (w.file_size (acc ++ e ∷ [])))) [
      | inl full ↦ rw (dump_from, full, concat-dump_from w [] es) (append_assoc acc (e ∷ []) es)
      | inr room ↦
          rw (dump_from, room, concat-dump_from w (acc ++ e ∷ []) es) (append_assoc acc (e ∷ []) es)
    ]

length-map : (f : List Pair → Pair) (gs : List (List Pair)) → length (map f gs) ≡ length gs
length-map f [] = refl
length-map f (g ∷ gs) = ap suc (length-map f gs)

length-keys : (ps : List Pair) → length (map (λ p. p.1) ps) ≡ length ps
length-keys [] = refl
length-keys (p ∷ ps) = ap suc (length-keys ps)

get_elem?-drop : (k : ℕ) (ps : List Pair) (j : ℕ) → get_elem? (drop k ps) j ≡ get_elem? ps (k + j)
get_elem?-drop zero ps j = let e : j ≡ 0 + j = omega arith in ap (get_elem? ps) e
get_elem?-drop (suc k) [] j = refl
get_elem?-drop (suc k) (p ∷ ps) j =
    let e : suc (k + j) ≡ suc k + j = omega arith in
    get_elem?-drop k ps j ∙ ap (get_elem? (p ∷ ps)) e

get_elem?-keys :
    (ps : List Pair) (j : ℕ) (file key : Bytes)
    → get_elem? ps j ≡ some (file, key)
    → get_elem? (map (λ p. p.1) ps) j ≡ some key
get_elem?-keys [] j file key e = absurd (cc e)
get_elem?-keys (p ∷ ps) zero file key e = cc
get_elem?-keys (p ∷ ps) (suc j) file key e = get_elem?-keys ps j file key e

pub write_files-get :
    (ps : List Pair) (fs : Files) (j : ℕ) (p : Pair)
    → get_elem? ps j ≡ some p
    → write_files ps fs j ≡ some p.0
write_files-get ps fs j p e = rw (write_files, e) refl

is_empty-drop : (k : ℕ) (ps : List Pair) → k ≤ length ps → leb (length ps) k ≡ is_empty (drop k ps)
is_empty-drop zero [] h = ground arith
is_empty-drop zero (p ∷ ps) h = ground arith
is_empty-drop (suc k) [] h = absurd (omega arith)
is_empty-drop (suc k) (p ∷ ps) h = ground (arith, is_empty-drop k ps (omega arith))

-- a migrator that has the files of a dump to send, from the k-th on
ready :
    (ps : List Pair) (fs : Files) (m : Migrator) (k : ℕ)
    → m.num ≡ k
    → k ≤ length ps
    → m.total ≡ length ps
    → m.largest_keys ≡ map (λ p. p.1) ps
    → m.in_ ≡ none
    → m.filename_ ≡ none
    → m.finished ≡ false
    → m.done ≡ leb (length ps) k
    → ((j : ℕ) (p : Pair) → get_elem? ps j ≡ some p → k ≤ j → fs j ≡ some p.0)
    → IsReady fs m (drop k ps)
ready ps fs m k n h t keys i o f d have = record {
  size = omega (arith, length-drop k ps, n, t);
  files = λ j file key e.
      let here : get_elem? ps (k + j) ≡ some (file, key) = sym (get_elem?-drop k ps j) ∙ e in
      (
        rw n (have (k + j) (file, key) here (omega arith)),
        rw (n, keys) (get_elem?-keys ps (k + j) file key here),
      );
  before = λ j e. absurd (cc (e, o));
  between = i;
  last = d ∙ is_empty-drop k ps h;
  unfinished = f;
}

dump_from-some :
    (w : SstFileWriter) (acc es : List Pair)
    → is_empty (acc ++ es) ≡ false
    → is_empty (dump_from w acc es) ≡ false
unfolding dump_from
dump_from-some w [] [] h = absurd (ground arith)
dump_from-some w (a ∷ acc) [] h = refl
dump_from-some w acc (e ∷ es) h =
    elim (Bool-cases (ltb w.target_file_size_base (w.file_size (acc ++ e ∷ [])))) [
      | inl full ↦ rw (dump_from, full) refl
      | inr room ↦
          rw (dump_from, room)
            (dump_from-some w (acc ++ e ∷ []) es (ap is_empty (append_assoc acc (e ∷ []) es) ∙ h))
    ]

-- the files that a shard with these pairs is dumped to, and what is saved of them
abbrev pub files_of : SstFileWriter → List Pair → List Pair
files_of w es = map (dumped_file w) (dump_from w [] es)

abbrev pub state_of : List Pair → Dumped
state_of ps = record { saved_total = length ps; saved_keys = map (λ p. p.1) ps }

take-length : (xs : List Bytes) (n : ℕ) → n ≡ length xs → take n xs ≡ xs
take-length [] zero h = refl
take-length [] (suc n) h = refl
take-length (x ∷ xs) zero h = absurd (omega arith)
take-length (x ∷ xs) (suc n) h = ap (λ ys. x ∷ ys) (take-length xs n (omega arith))

dump_new :
    (w : SstFileWriter) (es : List Pair) (fs : Files)
    → is_empty es ≡ false
    → (m : Migrator) × (gs : Files) × (dump_shard w es fs none (migrator 0)
        ≡ ok (m, gs, some (state_of (files_of w es))))
      × (m.num ≡ 0)
      × (m.total ≡ length (files_of w es))
      × IsReady gs m (files_of w es)
unfolding dump_shard restore_state migrator save_state
dump_new w es fs some_pair =
    let ps = files_of w es in
    let done = if leb (length ps) 0 then true else false in
    let m : Migrator = record (migrator 0) {
      largest_keys = map (λ p. p.1) ps;
      total = length ps;
      done = done;
    } in
    let whole = length-keys ps in
    (
      m,
      write_files ps fs,
      rw
          (
            some_pair,
            take-length (map (λ p. p.1) ps) (length ps) (sym whole),
            whole,
            ==-refl (length ps),
          )
          refl,
      refl,
      refl,
      ready ps (write_files ps fs) m 0 refl (omega arith) refl refl refl refl refl (ground arith)
          (λ j p e h. write_files-get ps fs j p e),
    )

dump_again :
    (w : SstFileWriter) (es : List Pair) (fs : Files) (ps : List Pair) (k : ℕ)
    → k ≤ length ps
    → ((j : ℕ) (p : Pair) → get_elem? ps j ≡ some p → k ≤ j → fs j ≡ some p.0)
    → (m : Migrator) × (dump_shard w es fs (some (state_of ps)) (migrator k)
        ≡ ok (m, fs, some (state_of ps)))
      × (m.num ≡ k)
      × (m.total ≡ length ps)
      × IsReady fs m (drop k ps)
unfolding dump_shard restore_state migrator
dump_again w es fs ps k h have =
    let m : Migrator = record (migrator k) {
      largest_keys = map (λ p. p.1) ps;
      total = length ps;
      done = if k == length ps then true else false;
    } in
    let enough : ltb (length (map (λ p. p.1) ps)) (length ps) ≡ false =
      ground (arith, length-keys ps) in
    let reach : leb k (length ps) ≡ true = ground arith in
    (
      m,
      rw (enough, reach, take-length (map (λ p. p.1) ps) (length ps) (sym (length-keys ps))) refl,
      refl,
      refl,
      ready ps fs m k refl h refl refl refl refl refl (ground arith) have,
    )

-- A shard with pairs in it is migrated: DumpShard returns; the calls of ReadChunk make some messages
-- and then return false; a receiver that starts with file 0 ingests just the files of the dump, in
-- order, each byte by byte and with its largest key, and waits for the file after them; and the
-- files hold all the pairs of the shard, in order.
pub dump_shard-receive :
    (w : SstFileWriter) (es : List Pair) (fs : Files) (s : Received)
    → is_empty es ≡ false
    → IsNext s 0
    → (m : Migrator) × (gs : Files) × (msgs : List Response) × (dump_shard w es fs none (migrator 0)
        ≡ ok (m, gs, some (state_of (files_of w es))))
      × Sends gs m msgs
      × ((receive s msgs).ingested ≡ s.ingested ++ map (dumped_file w) (dump_from w [] es))
      × IsNext (receive s msgs) (length (files_of w es))
      × (concat (dump_from w [] es) ≡ es)
dump_shard-receive w es fs s some_pair next =
    let (m, gs, dumped, num, total, is_ready) = dump_new w es fs some_pair in
    let (msgs, path, got, then_next) =
      transfer gs m (files_of w es) s is_ready (next.0, next.1 ∙ sym num) in
    (m, gs, msgs, dumped, path, got, (then_next.0, then_next.1 ∙ total), concat-dump_from w [] es)

-- A migration is resumed: when a shard has been dumped to the files ps, and the state was saved, and
-- the files from number k on are still there, a new ShardMigrator that is to start from k dumps
-- nothing again, makes some messages and then returns false, and the receiver, which waits for file k,
-- ingests just the files from number k on, in order.
pub dump_shard-resume :
    (w : SstFileWriter) (es : List Pair) (fs : Files) (ps : List Pair) (k : ℕ) (s : Received)
    → k ≤ length ps
    → ((j : ℕ) (p : Pair) → get_elem? ps j ≡ some p → k ≤ j → fs j ≡ some p.0)
    → IsNext s k
    → (m : Migrator) × (msgs : List Response) × (dump_shard w es fs
          (some (state_of ps))
          (migrator k)
        ≡ ok (m, fs, some (state_of ps)))
      × Sends fs m msgs
      × ((receive s msgs).ingested ≡ s.ingested ++ drop k ps)
      × IsNext (receive s msgs) (length ps)
dump_shard-resume w es fs ps k s h have next =
    let (m, dumped, num, total, is_ready) = dump_again w es fs ps k h have in
    let (msgs, path, got, then_next) =
      transfer fs m (drop k ps) s is_ready (next.0, next.1 ∙ sym num) in
    (m, msgs, dumped, path, got, (then_next.0, then_next.1 ∙ total))
