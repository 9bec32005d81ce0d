-- ===== src/Server/Migrate/Transfer.antt =====
-- The messages that ReadChunk (src/server/migrate_util.cc) makes, and what the receiver does with them.
use crocks.Prelude.{
  ℕ, suc, ◌+◌, ◌≤◌, ◌<◌, ◌≡◌, refl, ap, sym, ◌∙◌, inl, inr, true, false, List, [], ◌∷◌, ◌++◌,
  append_assoc, append-nil, Option, none, some, Bytes, arith, length, get_elem?, is_empty, ltb,
  ◌==◌, if◌then◌else◌, Bool-cases,
}
use crocks.Server.Migrate.{
  buffer_size, Response, empty_response, Files, Migrator, remove_file, open_input, read_open,
  read_chunk, Importer, open_output, write_chunk, Received, receive_one, receive,
}
use crocks.Server.Migrate.Messages.{Sends, Sends-same, reading, sent, closed, send_file}

-- What is to be sent: the files from the next one on, with their largest keys.
pub record IsReady (fs : Files) (m : Migrator) (pending : List (Bytes × Bytes)) : Type 0 where
  pub size : m.num + length pending ≡ m.total
  pub files :
      (j : ℕ) (file key : Bytes)
      → get_elem? pending j ≡ some (file, key)
      → (fs (m.num + j) ≡ some file) × (get_elem? m.largest_keys (m.num + j) ≡ some key)
  pub before : (k : ℕ) → m.filename_ ≡ some k → k < m.num
  pub between : m.in_ ≡ none
  pub last : m.done ≡ is_empty pending
  pub unfinished : m.finished ≡ false

-- The migrator when it has opened the next file, and removed the one before it.
abbrev opened : Migrator → Migrator
opened m = record m { filename_ = some m.num }

read_chunk-open :
    (fs : Files) (m : Migrator) (file : Bytes)
    → m.in_ ≡ none
    → m.done ≡ false
    → m.finished ≡ false
    → remove_file m.filename_ fs m.num ≡ some file
    → read_chunk fs m ≡ read_chunk (remove_file m.filename_ fs) (reading (opened m) file)
unfolding read_chunk open_input read_open
read_chunk-open fs m file i d f e = elim (Bool-cases (ltb (length file) buffer_size)) [
  | inl short ↦ rw (f, d, i, e, short) (rw d refl)
  | inr long ↦ rw (f, d, i, e, long) (rw d refl)
]

remove_file-later :
    (o : Option ℕ) (fs : Files) (num n : ℕ)
    → ((k : ℕ) → o ≡ some k → k < num)
    → num ≤ n
    → remove_file o fs n ≡ fs n
remove_file-later none fs num n before h = refl
remove_file-later (some k) fs num n before h = ground (arith, before k refl)

sent-last :
    (num total : ℕ) (pending : List (Bytes × Bytes))
    → num + suc (length pending) ≡ total
    → (if suc num == total then true else false) ≡ is_empty pending
sent-last num total [] h = ground arith
sent-last num total (x ∷ pending) h = ground arith

sent-IsReady :
    (fs : Files) (m : Migrator) (file key : Bytes) (pending : List (Bytes × Bytes))
    → IsReady fs m ((file, key) ∷ pending)
    → IsReady (remove_file m.filename_ fs) (sent (opened m)) pending
sent-IsReady fs m file key pending r = record {
  size = omega (arith, r.size);
  files = λ j f k e. (
    remove_file-later m.filename_ fs m.num (suc m.num + j) r.before (omega arith)
        ∙ ap fs (omega arith)
        ∙ (r.files (suc j) f k e).0,
    ap (get_elem? m.largest_keys) (omega arith) ∙ (r.files (suc j) f k e).1,
  );
  before = λ k e. ground arith;
  between = refl;
  last = sent-last m.num m.total pending r.size;
  unfinished = refl;
}

send_end :
    (fs : Files) (m : Migrator)
    → m.finished ≡ false
    → m.done ≡ true
    → Sends fs m (record empty_response { finished = true } ∷ [])
unfolding read_chunk
send_end fs m f d =
    let end : Migrator = record m { finished = true } in
    Sends.next fs fs m end _ [] (rw (f, d) refl) (Sends.stop fs fs end end refl)

open_output-closed :
    (i : Importer)
    → i.is_open ≡ false
    → ((open_output i).num ≡ suc i.num) × ((open_output i).written ≡ [])
unfolding open_output
open_output-closed i off = (rw (off, open_output) refl, rw (off, open_output) refl)

-- the receiver between two files
abbrev pub IsNext : Received → ℕ → Type 0
IsNext s n = (s.importer.is_open ≡ false) × (s.importer.num ≡ n)

pub transfer :
    (fs : Files) (m : Migrator) (pending : List (Bytes × Bytes)) (s : Received)
    → IsReady fs m pending
    → IsNext s m.num
    → (msgs : List Response) × Sends fs m msgs
      × ((receive s msgs).ingested ≡ s.ingested ++ pending)
      × IsNext (receive s msgs) m.total
unfolding receive receive_one write_chunk open_output
transfer fs m [] s r (off, n) = (
  record empty_response { finished = true } ∷ [],
  send_end fs m r.unfinished r.last,
  sym (append-nil s.ingested),
  (off, omega (arith, n, r.size)),
)
transfer fs m ((file, key) ∷ pending) s r (off, n) =
    let fresh = open_output-closed s.importer off in
    let (msgs, path, got, (next_off, next_n)) =
      transfer (remove_file m.filename_ fs) (sent (opened m)) pending
        (closed s.importer s.saved s.ingested file key) (sent-IsReady fs m file key pending r)
        (refl, fresh.0 ∙ ap suc n) in
    let (all, whole, same) =
      send_file (length file) file (remove_file m.filename_ fs) (opened m) key s.importer s.saved
        s.ingested msgs (omega arith) (ground (arith, r.files 0 file key refl)) path in
    (
      all,
      Sends-same _ _ _ _ _
          (read_chunk-open fs m file r.between r.last r.unfinished (
            remove_file-later m.filename_ fs m.num m.num r.before (omega arith)
            ∙ ap fs (omega arith)
            ∙ (r.files 0 file key refl).0))
          whole,
      ap (λ x. x.ingested) same
          ∙ got
          ∙ append_assoc s.ingested _ pending
          ∙ ap (λ w. s.ingested ++ (w ++ file, key) ∷ pending) fresh.1,
      (ap (λ x. x.importer.is_open) same ∙ next_off, ap (λ x. x.importer.num) same ∙ next_n),
    )
