-- ===== src/Client/WriteBatch/Waits.antt =====
-- What WriteBatchImpl does with its completion queue (src/client/write_batch_impl.cc).
use crocks.Prelude.{
  ℕ, ◌≡◌, refl, ap, sym, ◌∙◌, subst, Bool, true, false, List, [], ◌∷◌, Option, none, some, is_pos,
  ◌==◌, if◌then◌else◌, Run, ok, abort, ◌>>=◌, OnOk, >>=-OnOk,
}
use crocks.Client.WriteBatch.{
  AsyncBatchCall, Filled, nothing, first_response, call_response, call_status, QueueEvent, got,
  timed_out, shut_down, WriteBatchImpl, find_call, update_call, on_call, is_pending, fill, settle,
  queue_next, drain, queue_async_next, poll, and_then,
}
use crocks.Client.WriteBatch.Quiet.{Quiet, settle-IsQuiet, settle-idle, update_call-Quiet}

-- of a loop that may block
abbrev pub Unblocked {κ} : (WriteBatchImpl → Type κ) → Option WriteBatchImpl → Type κ
Unblocked P none = Unit
Unblocked P (some w) = P w

pub and_then-OnOk {κ μ} :
    (P : WriteBatchImpl → Type κ) (Q : WriteBatchImpl → Type μ) (m : Run (Option WriteBatchImpl))
    (f : WriteBatchImpl → Run (Option WriteBatchImpl))
    → OnOk (Unblocked P) m
    → ((w : WriteBatchImpl) → P w → OnOk (Unblocked Q) (f w))
    → OnOk (Unblocked Q) (and_then m f)
and_then-OnOk P Q abort f h k = tt
and_then-OnOk P Q (ok none) f h k = tt
and_then-OnOk P Q (ok (some w)) f h k = k w h

abbrev pub AllQuiet : WriteBatchImpl → Type 0
AllQuiet w = Quiet w.calls

-- no request of the node's call is pending
abbrev pub IsIdle : ℕ → WriteBatchImpl → Type 0
IsIdle id w = is_pending id w ≡ false

pub fill-calls : (f : Filled) (w : WriteBatchImpl) → (fill f w).calls ≡ w.calls
fill-calls nothing w = refl
fill-calls (first_response s k) w = refl
fill-calls (call_response k) w = refl
fill-calls (call_status s) w = refl

abbrev is_call_pending : Option AsyncBatchCall → Bool
is_call_pending o = elim o [ none ↦ false | some c ↦ is_pos c.pending_requests ]

pub found-IsIdle :
    (id : ℕ) (w : WriteBatchImpl) (c : AsyncBatchCall)
    → find_call id w.calls ≡ some c
    → IsIdle id w
    → is_pos c.pending_requests ≡ false
found-IsIdle id w c found idle = ap is_call_pending (sym found) ∙ idle

update_call-idle :
    (id k : ℕ) (f : AsyncBatchCall → AsyncBatchCall) (cs : List (ℕ × AsyncBatchCall))
    → ((c : AsyncBatchCall)
        → is_pos c.pending_requests ≡ false
        → is_pos (f c).pending_requests ≡ false)
    → is_call_pending (find_call k cs) ≡ false
    → is_call_pending (find_call k (update_call id f cs)) ≡ false
update_call-idle id k f [] g h = refl
update_call-idle id k f ((j, c) ∷ cs) g h =
    by_id (j == id) (changed (j == k) h) (passed (j == k) h (update_call-idle id k f cs g))
  where
    changed :
        (b : Bool)
        → is_call_pending (if b then some c else find_call k cs) ≡ false
        → is_call_pending (if b then some (f c) else find_call k cs) ≡ false
    changed true idle = g c idle
    changed false idle = idle

    passed :
        (b : Bool)
        → is_call_pending (if b then some c else find_call k cs) ≡ false
        → (is_call_pending (find_call k cs) ≡ false
            → is_call_pending (find_call k (update_call id f cs)) ≡ false)
        → is_call_pending (if b then some c else find_call k (update_call id f cs)) ≡ false
    passed true idle again = idle
    passed false idle again = again idle

    by_id :
        (a : Bool)
        → is_call_pending (if j == k then some (f c) else find_call k cs) ≡ false
        → is_call_pending (if j == k then some c else find_call k (update_call id f cs)) ≡ false
        → is_call_pending (find_call k (if a then (j, f c) ∷ cs else (j, c) ∷ update_call id f cs))
          ≡ false
    by_id true first second = first
    by_id false first second = second

abbrev settled : ℕ → Bool → Filled → WriteBatchImpl → WriteBatchImpl
settled id is_ok f w = on_call id (settle is_ok f) (fill f w)

settled-AllQuiet :
    (id : ℕ) (is_ok : Bool) (f : Filled) (w : WriteBatchImpl)
    → AllQuiet w
    → AllQuiet (settled id is_ok f w)
settled-AllQuiet id is_ok f w h =
    update_call-Quiet id (settle is_ok f) (fill f w).calls
      (λ c found quiet. settle-IsQuiet is_ok f c quiet) (subst Quiet (sym (fill-calls f w)) h)

settled-IsIdle :
    (id k : ℕ) (is_ok : Bool) (f : Filled) (w : WriteBatchImpl)
    → IsIdle k w
    → IsIdle k (settled id is_ok f w)
settled-IsIdle id k is_ok f w h =
    update_call-idle id k (settle is_ok f) (fill f w).calls (settle-idle is_ok f)
      (subst (λ cs. is_call_pending (find_call k cs) ≡ false) (sym (fill-calls f w)) h)

-- what the events of the queue keep
abbrev pub Kept {κ} : (WriteBatchImpl → Type κ) → Type κ
Kept P = (id : ℕ) (is_ok : Bool) (f : Filled) (w : WriteBatchImpl) → P w → P (settled id is_ok f w)

pub AllQuiet-Kept : Kept AllQuiet
AllQuiet-Kept = settled-AllQuiet

pub IsIdle-Kept : (k : ℕ) → Kept (IsIdle k)
IsIdle-Kept k id is_ok f w h = settled-IsIdle id k is_ok f w h

queue_next-Kept {κ} :
    (P : WriteBatchImpl → Type κ) (x : QueueEvent) (w : WriteBatchImpl)
    → Kept P
    → P w
    → OnOk P (queue_next x w)
unfolding queue_next
queue_next-Kept P (got id is_ok f) w k h = k id is_ok f w h
queue_next-Kept P timed_out w k h = h
queue_next-Kept P shut_down w k h = tt

queue_async_next-Kept {κ} :
    (P : WriteBatchImpl → Type κ) (x : QueueEvent) (w : WriteBatchImpl)
    → Kept P
    → P w
    → OnOk (λ (r : WriteBatchImpl × Bool). P r.0) (queue_async_next x w)
unfolding queue_async_next
queue_async_next-Kept P (got id is_ok f) w k h = k id is_ok f w h
queue_async_next-Kept P timed_out w k h = h
queue_async_next-Kept P shut_down w k h = tt

-- what does not depend on the queue
abbrev pub Queueless {κ} : (WriteBatchImpl → Type κ) → Type κ
Queueless P = (w : WriteBatchImpl) (q : List QueueEvent) → P w → P (record w { queue = q })

-- After the wait for a call it has no pending request, and what events keep holds still.
pub drain-IsIdle {κ} :
    (P : WriteBatchImpl → Type κ) (id : ℕ) (xs : List QueueEvent) (w : WriteBatchImpl)
    → Kept P
    → Queueless P
    → P w
    → OnOk (Unblocked (λ v. P v × IsIdle id v)) (drain id xs w)
unfolding drain
drain-IsIdle P id [] w k q h = by_pending (is_pending id w) refl
  where
    by_pending :
        (b : Bool)
        → is_pending id w ≡ b
        → Unblocked (λ v. P v × IsIdle id v) (if b then none else some (record w { queue = [] }))
    by_pending true idle = tt
    by_pending false idle = (q w [] h, idle)
drain-IsIdle P id (x ∷ xs) w k q h = by_pending (is_pending id w) refl (
    >>=-OnOk P (Unblocked (λ v. P v × IsIdle id v)) (queue_next x w) (drain id xs)
      (queue_next-Kept P x w k h) (λ v g. drain-IsIdle P id xs v k q g))
  where
    by_pending :
        (b : Bool)
        → is_pending id w ≡ b
        → OnOk (Unblocked (λ v. P v × IsIdle id v)) (queue_next x w >>= drain id xs)
        → OnOk (Unblocked (λ v. P v × IsIdle id v)) (elim b [
          | false ↦ ok (some (record w { queue = x ∷ xs }))
          | true ↦ queue_next x w >>= drain id xs
        ])
    by_pending true idle next = next
    by_pending false idle next = (q w (x ∷ xs) h, idle)

pub poll-Kept {κ} :
    (P : WriteBatchImpl → Type κ) (id : ℕ) (xs : List QueueEvent) (w : WriteBatchImpl)
    → Kept P
    → Queueless P
    → P w
    → OnOk P (poll id xs w)
unfolding poll
poll-Kept P id [] w k q h = q w [] h
poll-Kept P id (x ∷ xs) w k q h = by_pending (is_pending id w) (
    >>=-OnOk (λ (r : WriteBatchImpl × Bool). P r.0) P (queue_async_next x w) _
      (queue_async_next-Kept P x w k h) (λ r g. by_event r.0 r.1 g (poll-Kept P id xs r.0 k q g)))
  where
    by_event :
        (v : WriteBatchImpl) (b : Bool)
        → P v
        → OnOk P (poll id xs v)
        → OnOk P (elim b [ false ↦ ok (record v { queue = xs }) | true ↦ poll id xs v ])
    by_event v true g again = again
    by_event v false g again = q v xs g

    by_pending :
        (b : Bool)
        → OnOk P (
            queue_async_next x w >>= λ r. elim r.1 [
              | false ↦ ok (record r.0 { queue = xs })
              | true ↦ poll id xs r.0
            ])
        → OnOk P (elim b [
          | false ↦ ok (record w { queue = x ∷ xs })
          | true ↦ queue_async_next x w >>= λ r. elim r.1 [
            | false ↦ ok (record r.0 { queue = xs })
            | true ↦ poll id xs r.0
          ]
        ])
    by_pending true next = next
    by_pending false next = q w (x ∷ xs) h
