-- ===== src/Server/Migrate/Messages.antt =====
-- The messages that ReadChunk (src/server/migrate_util.cc) makes of one file, and how they are received.
use crocks.Prelude.{
  ℕ, zero, suc, ◌≤◌, ◌<◌, ◌≡◌, refl, ap, ◌∙◌, inl, inr, true, false, List, [], ◌∷◌, ◌++◌,
  append_assoc, Option, none, some, Bytes, arith, length, take, drop, take-append-drop, length-drop,
  get_elem?, ltb, ◌==◌, if◌then◌else◌, Bool-cases, ok,
}
use crocks.Server.Migrate.{
  buffer_size, Response, empty_response, Files, Migrator, open_input, read_open, read_chunk,
  Importer, Saved, save_importer, open_output, write_chunk, Received, receive_one, receive,
}

-- `Sends fs m msgs`: called again and again, ReadChunk makes the messages, and then returns false.
pub data Sends : Files → Migrator → List Response → Type 0 where
  stop : (fs gs : Files) (m n : Migrator) → read_chunk fs m ≡ ok (none, gs, n) → Sends fs m []
  next :
      (fs gs : Files) (m n : Migrator) (r : Response) (rs : List Response)
      → read_chunk fs m ≡ ok (some r, gs, n)
      → Sends gs n rs
      → Sends fs m (r ∷ rs)

pub Sends-same :
    (fs gs : Files) (m n : Migrator) (rs : List Response)
    → read_chunk fs m ≡ read_chunk gs n
    → Sends gs n rs
    → Sends fs m rs
Sends-same fs gs m n rs e (stop _ hs _ o f) = stop fs hs m o (e ∙ f)
Sends-same fs gs m n rs e (next _ hs _ o r ss f path) = next fs hs m o r ss (e ∙ f) path

take-all : (n : ℕ) (xs : Bytes) → length xs < n → take n xs ≡ xs
take-all zero xs h = absurd (omega arith)
take-all (suc n) [] h = refl
take-all (suc n) (x ∷ xs) h = ap (λ ys. x ∷ ys) (take-all n xs (omega arith))

-- A migrator that is reading a file, and the same when it has sent it.
abbrev pub reading : Migrator → Bytes → Migrator
reading m unread = record m { in_ = some unread; done = false; finished = false }

abbrev pub sent : Migrator → Migrator
sent m = record m {
  num = suc m.num;
  in_ = none;
  done = if suc m.num == m.total then true else false;
  finished = false;
}

-- A receiver that has been sent the rest of a file.
abbrev pub closed : Importer → Option Saved → List (Bytes × Bytes) → Bytes → Bytes → Received
closed i saved log unread key =
    let o = open_output i in
    let end : Importer = record o {
      written = o.written ++ unread;
      largest_key = key;
      is_open = false;
    } in
    record {
      importer = end;
      saved = some (save_importer end);
      ingested = log ++ (o.written ++ unread, key) ∷ [];
    }

abbrev pub receiver : Importer → Option Saved → List (Bytes × Bytes) → Received
receiver i saved log = record { importer = i; saved = saved; ingested = log }

read_chunk-last :
    (fs : Files) (m : Migrator) (unread key : Bytes)
    → get_elem? m.largest_keys m.num ≡ some key
    → ltb (length unread) buffer_size ≡ true
    → read_chunk fs (reading m unread)
      ≡ ok (
        some (record { eof = true; finished = false; chunk = unread; largest_key = key }),
        fs,
        sent m,
      )
unfolding read_chunk open_input read_open
read_chunk-last fs m unread key e short =
    rw (short, e, take-all buffer_size unread (ground arith)) refl

read_chunk-more :
    (fs : Files) (m : Migrator) (unread : Bytes)
    → ltb (length unread) buffer_size ≡ false
    → read_chunk fs (reading m unread)
      ≡ ok (
        some (record empty_response { chunk = take buffer_size unread }),
        fs,
        reading m (drop buffer_size unread),
      )
unfolding read_chunk open_input read_open
read_chunk-more fs m unread long = rw long refl

-- What is left to show of a file that is being read.
abbrev pub IsSent : Files → Migrator → Bytes → Bytes → Received → Received → List Response → Type 0
IsSent fs m unread key before after msgs =
    (all : List Response) × Sends fs (reading m unread) all
    × (receive before all ≡ receive after msgs)

send_last :
    (unread : Bytes) (fs : Files) (m : Migrator) (key : Bytes) (i : Importer) (saved : Option Saved)
    (log : List (Bytes × Bytes)) (msgs : List Response)
    → ltb (length unread) buffer_size ≡ true
    → get_elem? m.largest_keys m.num ≡ some key
    → Sends fs (sent m) msgs
    → IsSent fs m unread key (receiver i saved log) (closed i saved log unread key) msgs
unfolding receive receive_one write_chunk
send_last unread fs m key i saved log msgs short e path = (
  record { eof = true; finished = false; chunk = unread; largest_key = key } ∷ msgs,
  next fs fs (reading m unread) (sent m) _ msgs (read_chunk-last fs m unread key e short) path,
  refl,
)

open_output-IsOpen : (i : Importer) → (open_output i).is_open ≡ true
unfolding open_output
open_output-IsOpen i = elim (Bool-cases i.is_open) [
  | inl on ↦ ground arith
  | inr off ↦ ground arith
]

open_output-open : (i : Importer) → i.is_open ≡ true → open_output i ≡ i
unfolding open_output
open_output-open i on = rw (on, open_output) refl

-- A file that was received in two parts is closed as one.
closed-concat :
    (i : Importer) (saved : Option Saved) (log : List (Bytes × Bytes))
    (first second unread key : Bytes)
    → first ++ second ≡ unread
    → let o = open_output i in
      closed (record o { written = o.written ++ first }) saved log second key
      ≡ closed i saved log unread key
closed-concat i saved log first second unread key e =
    let o = open_output i in
    let half : Importer = record o { written = o.written ++ first } in
    rw (open_output-open half (open_output-IsOpen i), append_assoc o.written first second, e) refl

pub send_file :
    (n : ℕ) (unread : Bytes) (fs : Files) (m : Migrator) (key : Bytes) (i : Importer)
    (saved : Option Saved) (log : List (Bytes × Bytes)) (msgs : List Response)
    → length unread ≤ n
    → get_elem? m.largest_keys m.num ≡ some key
    → Sends fs (sent m) msgs
    → IsSent fs m unread key (receiver i saved log) (closed i saved log unread key) msgs
unfolding receive receive_one write_chunk open_output
send_file zero unread fs m key i saved log msgs bound e path =
    send_last unread fs m key i saved log msgs (ground arith) e path
send_file (suc n) unread fs m key i saved log msgs bound e path =
    let o = open_output i in
    let half : Importer = record o { written = o.written ++ take buffer_size unread } in
    let (rest, later, received) =
      send_file n (drop buffer_size unread) fs m key half saved log msgs
        (ground (arith, length-drop buffer_size unread)) e path in
    elim (Bool-cases (ltb (length unread) buffer_size)) [
      | inl short ↦ send_last unread fs m key i saved log msgs short e path
      | inr long ↦ (
        record empty_response { chunk = take buffer_size unread } ∷ rest,
        next fs fs (reading m unread) (reading m (drop buffer_size unread)) _ rest
            (read_chunk-more fs m unread long) later,
        received
            ∙ ap (λ r. receive r msgs)
                (closed-concat i saved log _ _ unread key (take-append-drop buffer_size unread)),
      )
    ]
