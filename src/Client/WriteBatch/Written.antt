-- ===== src/Client/WriteBatch/Written.antt =====
-- How a Write of a WriteBatchImpl ends (src/client/write_batch_impl.cc).
use crocks.Prelude.{
  ℕ, ◌≡◌, refl, ap, subst, Bool, true, false, List, [], ◌∷◌, Option, none, some, map, length, Bytes,
  pos, is_pos, ◌==◌, ==_iff, is_in, if◌then◌else◌, ok, ◌>>=◌, OnOk, >>=-OnOk,
}
use crocks.Status.{Status, is_ok}
use crocks.Etcd.{Etcd}
use crocks.Info.{Proto}
use crocks.Server.Batch.{BatchUpdate}
use crocks.Client.{ClusterImpl}
use crocks.Client.Buffer.{Buffer}
use crocks.Client.WriteBatch.{
  AsyncBatchCall, QueueEvent, WriteBatchImpl, find_call, on_call, new_write_batch_impl, drain,
  get_status,
}
use crocks.Client.WriteBatch.Writing.{
  add_to, batch_clear, flush_buffers, close_call, close_calls, await_calls, call_ids, do_write,
  write_batch,
}
use crocks.Client.WriteBatch.Quiet.{
  IsQuiet, Quiet, close_call-IsQuiet, update_call-Quiet, outstanding_none,
}
use crocks.Client.WriteBatch.Waits.{
  Unblocked, and_then-OnOk, AllQuiet, IsIdle, found-IsIdle, AllQuiet-Kept, IsIdle-Kept, Kept,
  drain-IsIdle,
}
use crocks.Client.WriteBatch.Streams.{
  drain-AllQuiet, add_to-AllQuiet, batch_clear-AllQuiet, flush_buffers-AllQuiet,
}
use crocks.Client.WriteBatch.Statuses.{have_succeeded, get_status-succeeded}

-- no request is pending, but for the calls of some nodes
abbrev IdleBut : List ℕ → WriteBatchImpl → Type 0
IdleBut ids w = (k : ℕ) → is_in k ids ≡ false → IsIdle k w

-- how a call is found among those of a list
find_call-missing :
    (k : ℕ) (cs : List (ℕ × AsyncBatchCall))
    → is_in k (map (λ (c : ℕ × AsyncBatchCall). c.0) cs) ≡ false
    → find_call k cs ≡ none
find_call-missing k [] h = refl
find_call-missing k ((j, c) ∷ cs) h = by_key (j == k) h (find_call-missing k cs)
  where
    by_key :
        (b : Bool)
        → (if b then true else is_in k (map (λ (d : ℕ × AsyncBatchCall). d.0) cs)) ≡ false
        → (is_in k (map (λ (d : ℕ × AsyncBatchCall). d.0) cs) ≡ false → find_call k cs ≡ none)
        → (if b then some c else find_call k cs) ≡ none
    by_key true g again = absurd (cc g)
    by_key false g again = again g

call_ids-IdleBut :
    (e : Etcd) (p : Proto) (seen : ℕ → Etcd.Store e) (size : BatchUpdate → ℕ)
    (real_size : List BatchUpdate → ℕ) (w : WriteBatchImpl)
    → IdleBut (call_ids e p seen size real_size w) w
call_ids-IdleBut e p seen size real_size w k h =
    ap (λ (o : Option AsyncBatchCall). elim o [ none ↦ false | some c ↦ is_pos c.pending_requests ])
      (find_call-missing k w.calls h)

abbrev Awaiting : List ℕ → WriteBatchImpl → Type 0
Awaiting ids w = AllQuiet w × IdleBut ids w

Awaiting-Kept : (ids : List ℕ) → Kept (Awaiting ids)
Awaiting-Kept ids id is_ok f w (quiet, idle) =
    (AllQuiet-Kept id is_ok f w quiet, λ k out. IsIdle-Kept k id is_ok f w (idle k out))

IdleBut-one :
    (id : ℕ) (ids : List ℕ) (w : WriteBatchImpl)
    → IdleBut (id ∷ ids) w
    → IsIdle id w
    → IdleBut ids w
IdleBut-one id ids w others idle k out = by_key (id == k) refl
  where
    by_key : (b : Bool) → (id == k) ≡ b → IsIdle k w
    by_key true h = subst (λ j. IsIdle j w) ((==_iff id k).0 h) idle
    by_key false h = others k (rw (h, out) refl)

pub calls-Quiet :
    (id : ℕ) (c : AsyncBatchCall) (cs : List (ℕ × AsyncBatchCall))
    → Quiet cs
    → find_call id cs ≡ some c
    → c.shutdown ≡ false
    → c.pending_requests ≡ pos c.outstanding
calls-Quiet id c [] h found = absurd (cc found)
calls-Quiet id c ((k, d) ∷ cs) (h, hs) found = by_key (k == id) found (calls-Quiet id c cs hs)
  where
    by_key :
        (b : Bool)
        → (if b then some d else find_call id cs) ≡ some c
        → (find_call id cs ≡ some c → c.shutdown ≡ false → c.pending_requests ≡ pos c.outstanding)
        → c.shutdown ≡ false
        → c.pending_requests ≡ pos c.outstanding
    by_key true g again = λ on. let same : d ≡ c = cc g in (subst IsQuiet same h on).0
    by_key false g again = again g

module _ (e : Etcd) (p : Proto) (seen : ℕ → Etcd.Store e) (size : BatchUpdate → ℕ)
    (real_size : List BatchUpdate → ℕ) where
  await_calls-IsIdle :
      (ids : List ℕ) (w : WriteBatchImpl)
      → AllQuiet w
      → IdleBut ids w
      → OnOk (Unblocked (Awaiting [])) (await_calls e p seen size real_size ids w)
  unfolding await_calls
  await_calls-IsIdle [] w quiet idle = (quiet, idle)
  await_calls-IsIdle (id ∷ ids) w quiet idle =
      and_then-OnOk (λ v. Awaiting (id ∷ ids) v × IsIdle id v) (Awaiting []) (drain id w.queue w) _
        (drain-IsIdle (Awaiting (id ∷ ids)) id w.queue w (Awaiting-Kept (id ∷ ids)) (λ v q h. h)
          (quiet, idle))
        (λ v ((still, others), done).
          await_calls-IsIdle ids v still (IdleBut-one id ids v others done))

  close_calls-AllQuiet :
      (ids : List ℕ) (w : WriteBatchImpl)
      → AllQuiet w
      → OnOk (Unblocked AllQuiet) (close_calls e p seen size real_size ids w)
  unfolding close_calls
  close_calls-AllQuiet [] w h = h
  close_calls-AllQuiet (id ∷ ids) w h =
      and_then-OnOk (λ v. AllQuiet v × IsIdle id v) AllQuiet (drain id w.queue w) _
        (drain-AllQuiet id w.queue w h)
        (λ v (quiet, idle).
          close_calls-AllQuiet ids (on_call id (close_call e p seen size real_size) v) (
            update_call-Quiet id (close_call e p seen size real_size) v.calls
              (λ c found one. close_call-IsQuiet c one (found-IsIdle id v c found idle)) quiet))

  do_write-IsIdle :
      (w : WriteBatchImpl)
      → AllQuiet w
      → OnOk (Unblocked (Awaiting [])) (do_write e p seen size real_size w)
  unfolding do_write
  do_write-IsIdle w h =
      and_then-OnOk AllQuiet (Awaiting [])
        (flush_buffers e p seen size real_size (length w.buffers) 0 w) _
        (flush_buffers-AllQuiet e p seen size real_size (length w.buffers) 0 w h)
        (λ v flushed.
          and_then-OnOk AllQuiet (Awaiting [])
            (close_calls e p seen size real_size (call_ids e p seen size real_size v) v) _
            (close_calls-AllQuiet (call_ids e p seen size real_size v) v flushed)
            (λ u closed.
              await_calls-IsIdle (call_ids e p seen size real_size u) u closed
                (call_ids-IdleBut e p seen size real_size u)))

  -- a batch to which updates have been added, and which may have been cleared
  pub data Batched : WriteBatchImpl → Type 0 where
    fresh :
        (db : ClusterImpl) (low high : ℕ) (queue : List QueueEvent)
        → Batched (new_write_batch_impl db low high queue)
    added :
        (w v : WriteBatchImpl) (add : Buffer → Buffer) (key : Bytes)
        → Batched w
        → add_to e p seen size real_size add key w ≡ ok (some v)
        → Batched v
    cleared :
        (w v : WriteBatchImpl)
        → Batched w
        → batch_clear e p seen size real_size w ≡ ok (some v)
        → Batched v

  -- how a batch is left by Write, and what Write says of it
  pub record IsWritten (w : WriteBatchImpl) (s : Status) : Type 0 where
    pub quiet : Quiet w.calls
    pub answered :
        (id : ℕ) (c : AsyncBatchCall)
        → find_call id w.calls ≡ some c
        → c.shutdown ≡ false
        → c.outstanding ≡ 0
    pub reported : is_ok s ≡ have_succeeded w.calls

  Batched-AllQuiet : (w : WriteBatchImpl) → Batched w → AllQuiet w
  unfolding new_write_batch_impl
  Batched-AllQuiet w (fresh db low high queue) = tt
  Batched-AllQuiet w (added v _ add key h run) =
      subst (OnOk (Unblocked AllQuiet)) run
        (add_to-AllQuiet e p seen size real_size add key v (Batched-AllQuiet v h))
  Batched-AllQuiet w (cleared v _ h run) =
      subst (OnOk (Unblocked AllQuiet)) run
        (batch_clear-AllQuiet e p seen size real_size v (Batched-AllQuiet v h))

  abbrev Written : Option (WriteBatchImpl × Status) → Type 0
  Written none = Unit
  Written (some (w, s)) = IsWritten w s

  idle-IsWritten :
      (w : WriteBatchImpl) (s : Status)
      → Awaiting [] w
      → is_ok s ≡ have_succeeded w.calls
      → IsWritten w s
  idle-IsWritten w s (still, idle) told = record {
    quiet = still;
    answered = λ id c found on.
        outstanding_none c c.outstanding (calls-Quiet id c w.calls still found on)
          (found-IsIdle id w c found (idle id refl));
    reported = told;
  }

  -- A batch is written after updates were put into it, each of which may have been sent at once.
  -- Each Write and WritesDone on a call that was not shut down was made when no request of the call
  -- was outstanding. When Write returns, no request of such a call is outstanding, and its status
  -- is OK exactly if each call has ended with OK and an OK response, or with UNAVAILABLE.
  pub write_batch-IsWritten :
      (w v : WriteBatchImpl) (s : Status)
      → Batched w
      → write_batch e p seen size real_size w ≡ ok (some (v, s))
      → IsWritten v s
  unfolding write_batch
  write_batch-IsWritten w v s batched run = subst (OnOk Written) run (
      >>=-OnOk (Unblocked (Awaiting [])) Written (do_write e p seen size real_size w) _
        (do_write-IsIdle w (Batched-AllQuiet w batched)) (λ o h. by_end o h))
    where
      by_end :
          (o : Option WriteBatchImpl)
          → Unblocked (Awaiting []) o
          → OnOk Written
              (elim o [ none ↦ ok none | some u ↦ get_status u.calls >>= λ st. ok (some (u, st)) ])
      by_end none h = tt
      by_end (some u) h =
          >>=-OnOk (λ (t : Status). is_ok t ≡ have_succeeded u.calls) Written (get_status u.calls) _
            (get_status-succeeded u.calls) (λ t told. idle-IsWritten u t h told)
