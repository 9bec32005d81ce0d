-- ===== src/Client/Buffer/Contents.antt =====
-- What the buffer of a shard holds and has sent (src/client/write_batch_impl.cc).
use crocks.Prelude.{
  if◌then◌else◌, leb, ℕ, ◌≡◌, refl, ap, sym, ◌∙◌, Bool, true, false, List, [], ◌∷◌, ◌++◌,
  append_assoc, append-nil, is_empty,
}
use crocks.Server.Batch.{BatchUpdate}
use crocks.Client.Buffer.{
  stream_if_exceeded_threshold, add_update, new_buffer, Buffer, clear, stream,
  restream_first_buffer, request_read, stream_buffer, flush,
}

abbrev pub join : List (List BatchUpdate) → List BatchUpdate
join [] = []
join (us ∷ uss) = us ++ join uss

join-concat :
    (uss : List (List BatchUpdate)) (us : List BatchUpdate) → join (uss ++ us ∷ []) ≡ join uss ++ us
join-concat [] us = append-nil us
join-concat (vs ∷ uss) us =
    ap (λ x. vs ++ x) (join-concat uss us) ∙ sym (append_assoc vs (join uss) us)

-- All the updates of the shard, sent or still held, in order.
abbrev pub content : Buffer → List BatchUpdate
content b = join b.sent ++ b.updates

-- Until the first buffer is answered, it alone has been sent, and a copy of it is held.
pub record IsKept (b : Buffer) : Type 0 where
  pub unsent : b.first ≡ true → b.read_requested ≡ false → b.sent ≡ []
  pub waiting : b.first ≡ true → b.read_requested ≡ true → b.sent ≡ b.first_updates ∷ []

streamed : (b : Buffer) → join (b.sent ++ b.updates ∷ []) ++ [] ≡ content b
streamed b = append-nil (join (b.sent ++ b.updates ∷ [])) ∙ join-concat b.sent b.updates

abbrev buffer :
    List BatchUpdate → List BatchUpdate → ℕ → Bool → Bool → List (List BatchUpdate) → Buffer
buffer us fs n first read sent = record {
  updates = us;
  first_updates = fs;
  byte_size = n;
  first = first;
  read_requested = read;
  sent = sent;
}

abbrev Keeps : Buffer → Buffer → Type 0
Keeps b c = IsKept c × (content c ≡ content b)

stream_buffer-Keeps :
    (us fs : List BatchUpdate) (n : ℕ) (first read : Bool) (sent : List (List BatchUpdate))
    (accepted : Bool)
    → IsKept (buffer us fs n first read sent)
    → Keeps
        (buffer us fs n first read sent)
        (stream_buffer (buffer us fs n first read sent) accepted)
unfolding stream_buffer stream clear request_read restream_first_buffer
stream_buffer-Keeps us fs n false read sent accepted k = (
  record { unsent = λ f r. absurd (cc f); waiting = λ f r. absurd (cc f) },
  streamed (buffer us fs n false read sent),
)
stream_buffer-Keeps us fs n true false sent accepted k = (
  record {
    unsent = λ f r. absurd (cc r);
    waiting = λ f r. ap (λ s. s ++ us ∷ []) (k.unsent refl refl);
  },
  streamed (buffer us fs n true false sent),
)
stream_buffer-Keeps us fs n true true sent true k = (
  record { unsent = λ f r. absurd (cc f); waiting = λ f r. absurd (cc f) },
  streamed (buffer us fs n false true sent),
)
stream_buffer-Keeps us fs n true true sent false k = (
  record { unsent = λ f r. absurd (cc r); waiting = λ f r. refl },
  ap (λ s. join s ++ us) (sym (k.waiting refl refl)),
)

if-Keeps :
    (b : Buffer) (test : Bool) (c d : Buffer)
    → Keeps b c
    → Keeps b d
    → Keeps b (if test then c else d)
if-Keeps b true c d h k = h
if-Keeps b false c d h k = k

module _ (size : BatchUpdate → ℕ) (low high : ℕ) where
  -- A new buffer that has been given some updates, one by one, each followed by a look at the
  -- thresholds, and that Write may have sent; with any answers of gRPC.
  pub data Filled : List BatchUpdate → Buffer → Type 0 where
    begin : Filled [] new_buffer
    added :
        (us : List BatchUpdate) (b : Buffer) (u : BatchUpdate) (idle accepted : Bool)
        → Filled us b
        → Filled
            (us ++ u ∷ [])
            (stream_if_exceeded_threshold low high (add_update size b u) idle accepted)
    flushed :
        (us : List BatchUpdate) (b : Buffer) (accepted : Bool)
        → Filled us b
        → Filled us (flush b accepted)

  sent_buffer-Keeps : (b : Buffer) (accepted : Bool) → IsKept b → Keeps b (stream_buffer b accepted)
  sent_buffer-Keeps b accepted k =
      stream_buffer-Keeps b.updates b.first_updates b.byte_size b.first b.read_requested b.sent
        accepted k

  threshold-Keeps :
      (b : Buffer) (idle accepted : Bool)
      → IsKept b
      → Keeps b (stream_if_exceeded_threshold low high b idle accepted)
  unfolding stream_if_exceeded_threshold
  threshold-Keeps b idle accepted k =
      let sends = sent_buffer-Keeps b accepted k in
      if-Keeps b (leb b.byte_size low) b _ (k, refl)
        (if-Keeps b (leb b.byte_size high) _ _ (if-Keeps b idle _ b sends (k, refl)) sends)

  Filled-Keeps : (us : List BatchUpdate) (b : Buffer) → Filled us b → IsKept b × (content b ≡ us)
  unfolding new_buffer add_update flush
  Filled-Keeps us b begin = (record { unsent = λ f r. refl; waiting = λ f r. absurd (cc r) }, refl)
  Filled-Keeps us c (added vs b u idle accepted path) =
      let (k, e) = Filled-Keeps vs b path in
      let more : Buffer = add_update size b u in
      let (kept, same) =
        threshold-Keeps more idle accepted (record { unsent = k.unsent; waiting = k.waiting }) in
      (kept, same ∙ sym (append_assoc (join b.sent) b.updates (u ∷ [])) ∙ ap (λ x. x ++ u ∷ []) e)
  Filled-Keeps us c (flushed _ b accepted path) =
      let (k, e) = Filled-Keeps us b path in
      let (kept, same) =
        if-Keeps b (is_empty b.updates) b _ (k, refl) (sent_buffer-Keeps b accepted k) in
      (kept, same ∙ e)

  -- Whatever the thresholds are and the servers answer, no update of a shard is lost or changes its
  -- place: those that have been sent on the shard's call since the last rejection, and those that are
  -- still held, are all the updates that have been added, in order.
  pub Filled-content : (us : List BatchUpdate) (b : Buffer) → Filled us b → content b ≡ us
  Filled-content us b path = (Filled-Keeps us b path).1
