-- ===== src/Server/Calls/Unary/Deleted.antt =====
-- An object of a unary call is deleted once, after the last event (src/server/async_server.cc).
use crocks.Prelude.{
  ℕ, suc, ◌≤◌, ◌≡◌, refl, ap, sym, ◌∙◌, subst, Bool, true, false, Bytes, arith, if◌then◌else◌, Run,
  ok, ◌>>=◌, OnOk, >>=-OnOk, >>=-OnOk_any,
}
use crocks.Server.Shard.{RocksDb, Shard}
use crocks.Server.Calls.{
  Reply, Forwarded, Node, Got, reply, ask, get_request, get_forwarded, put_request, delete_request,
}
use crocks.Server.Calls.Unary.{
  UnaryStatus, request, get, finish, UnaryCall, new_unary_call, without_request, matched,
  finish_with, proceed_finish, on_done, ping_proceed, proceed_writing, put_proceed, delete_proceed,
  get_proceed, Unary, ping, get_of, put_of, delete_of, proceed_unary,
}
use crocks.Server.Calls.Unary.Lifetime.{
  is_request, is_finish, Has, waiting, working, cancelled, finished, gone, Lively,
  proceed_finish-Alive, proceed_finish-Replied, matched-Has, started-Alive, without_request-Alive,
  answered-Alive, finish_with-Replied, on_done-Alive, on_done-Replied,
}

proceed_finish-Lively :
    (c : UnaryCall)
    → is_finish c.status ≡ true
    → c.pending ≡ true
    → Lively c
    → Lively (proceed_finish c)
proceed_finish-Lively c fin on (alive, replied) =
    (proceed_finish-Alive c fin on alive, proceed_finish-Replied c fin replied)

request-off : (s : UnaryStatus) → is_request s ≡ true → is_finish s ≡ false
request-off request h = refl
request-off get h = absurd (cc h)
request-off finish h = absurd (cc h)

-- a request that is answered at once
request-Lively :
    (c : UnaryCall)
    → is_request c.status ≡ true
    → c.pending ≡ true
    → Lively c
    → Lively (finish_with (matched c))
request-Lively c req on (alive, replied) = (
  started-Alive finish (suc c.replies) c refl (matched-Has c req on alive),
  finish_with-Replied (matched c) (request-off c.status req) replied,
)

no_request-Lively :
    (c : UnaryCall)
    → is_request c.status ≡ true
    → c.pending ≡ true
    → Lively c
    → Lively (without_request c)
no_request-Lively c req on (alive, replied) =
    (without_request-Alive c (matched-Has c req on alive), replied)

ask-Lively :
    (c : UnaryCall)
    → is_request c.status ≡ true
    → c.pending ≡ true
    → Lively c
    → Lively (record (matched c) { status = get; pending = true })
ask-Lively c req on (alive, (none_yet, one)) =
    let zero_yet = none_yet (request-off c.status req) in
    (started-Alive get c.replies c refl (matched-Has c req on alive), ((λ off. zero_yet), one))

get-Lively :
    (c : UnaryCall)
    → is_request c.status ≡ false
    → is_finish c.status ≡ false
    → c.pending ≡ true
    → Lively c
    → Lively (finish_with c)
get-Lively c r f on (alive, replied) =
    (answered-Alive c r f on alive, finish_with-Replied c f replied)

ping_proceed-Lively :
    (is_ok : Bool) (c : UnaryCall) → c.pending ≡ true → Lively c → Lively (ping_proceed is_ok c)
unfolding ping_proceed
ping_proceed-Lively is_ok c on h = by_status c.status is_ok refl
  where
    by_status :
        (s : UnaryStatus) (b : Bool)
        → c.status ≡ s
        → Lively (elim s [
          | request ↦ if b then finish_with (matched c) else without_request c
          | get ↦ c
          | finish ↦ proceed_finish c
        ])
    by_status request true e = request-Lively c (ap is_request e) on h
    by_status request false e = no_request-Lively c (ap is_request e) on h
    by_status get b e = h
    by_status finish b e = proceed_finish-Lively c (ap is_finish e) on h

module _ (db : RocksDb) where
  abbrev Second : Node db × UnaryCall → Type 0
  Second r = Lively r.1

  proceed_writing-Lively :
      (handle : Node db → Run (Node db × Reply)) (is_ok : Bool) (n : Node db) (c : UnaryCall)
      → c.pending ≡ true
      → Lively c
      → OnOk Second (proceed_writing db handle is_ok n c)
  proceed_writing-Lively handle is_ok n c on h = by_status c.status is_ok refl
    where
      by_status :
          (s : UnaryStatus) (b : Bool)
          → c.status ≡ s
          → OnOk Second (elim s [
            | request ↦
                if b
                then (handle n >>= λ r. ok (r.0, finish_with (matched c)))
                else ok (n, without_request c)
            | get ↦ ok (n, c)
            | finish ↦ ok (n, proceed_finish c)
          ])
      by_status request true e =
          >>=-OnOk_any Second (handle n) _ (λ r. request-Lively c (ap is_request e) on h)
      by_status request false e = no_request-Lively c (ap is_request e) on h
      by_status get b e = h
      by_status finish b e = proceed_finish-Lively c (ap is_finish e) on h

  get_proceed-Lively :
      (key : Bytes) (force : Bool) (now : Shard db) (answer : Forwarded) (is_ok : Bool)
      (n : Node db) (c : UnaryCall)
      → c.pending ≡ true
      → Lively c
      → OnOk Lively (get_proceed db key force now answer is_ok n c)
  unfolding get_proceed
  get_proceed-Lively key force now answer is_ok n c on h = by_status c.status is_ok refl
    where
      by_got :
          (g : Got db)
          → c.status ≡ request
          → OnOk Lively (elim g [
            | reply r ↦ ok (finish_with (matched c))
            | ask s ↦ ok (record (matched c) { status = get; pending = true })
          ])
      by_got (reply r) e = request-Lively c (ap is_request e) on h
      by_got (ask s) e = ask-Lively c (ap is_request e) on h

      by_status :
          (s : UnaryStatus) (b : Bool)
          → c.status ≡ s
          → OnOk Lively (elim s [
            | request ↦
                if b
                then (get_request db n key force >>= elim [
                  | reply r ↦ ok (finish_with (matched c))
                  | ask s ↦ ok (record (matched c) { status = get; pending = true })
                ])
                else ok (without_request c)
            | get ↦ get_forwarded db n now key answer >>= λ r. ok (finish_with c)
            | finish ↦ ok (proceed_finish c)
          ])
      by_status request true e =
          >>=-OnOk_any Lively (get_request db n key force) _ (λ g. by_got g e)
      by_status request false e = no_request-Lively c (ap is_request e) on h
      by_status get b e =
          >>=-OnOk_any Lively (get_forwarded db n now key answer) _
            (λ r. get-Lively c (ap is_request e) (ap is_finish e) on h)
      by_status finish b e = proceed_finish-Lively c (ap is_finish e) on h

  proceed_unary-Lively :
      (k : Unary db) (now : Shard db) (answer : Forwarded) (is_ok : Bool) (n : Node db)
      (c : UnaryCall)
      → c.pending ≡ true
      → Lively c
      → OnOk Second (proceed_unary db k now answer is_ok n c)
  unfolding proceed_unary put_proceed delete_proceed
  proceed_unary-Lively ping now answer is_ok n c on h = ping_proceed-Lively is_ok c on h
  proceed_unary-Lively (get_of key force) now answer is_ok n c on h =
      >>=-OnOk Lively Second (get_proceed db key force now answer is_ok n c) _
        (get_proceed-Lively key force now answer is_ok n c on h) (λ d g. g)
  proceed_unary-Lively (put_of key value) now answer is_ok n c on h =
      proceed_writing-Lively (λ m. put_request db m key value) is_ok n c on h
  proceed_unary-Lively (delete_of key) now answer is_ok n c on h =
      proceed_writing-Lively (λ m. delete_request db m key) is_ok n c on h

  -- the events of a call, each of which the completion queue is to give; other calls may change the
  -- node and the shard between them
  pub data Lives (k : Unary db) : UnaryCall → Type 0 where
    created : Lives k new_unary_call
    proceeded :
        (c d : UnaryCall) (now : Shard db) (answer : Forwarded) (is_ok : Bool) (n m : Node db)
        → Lives k c
        → c.pending ≡ true
        → proceed_unary db k now answer is_ok n c ≡ ok (m, d)
        → Lives k d
    done : (c : UnaryCall) → Lives k c → c.notify ≡ true → Lives k (on_done c)

  Lives-Lively : (k : Unary db) (c : UnaryCall) → Lives k c → Lively c
  unfolding new_unary_call
  Lives-Lively k c created = (
    waiting refl (record {
      is_pending = refl;
      is_notified = refl;
      is_finished = refl;
      is_done = refl;
      count = refl;
    }),
    ((λ off. refl), (omega arith)),
  )
  Lives-Lively k c (proceeded b _ now answer is_ok n m before on run) =
      subst (OnOk Second) run
        (proceed_unary-Lively k now answer is_ok n b on (Lives-Lively k b before))
  Lives-Lively k _ (done b before due) =
      let (alive, replied) = Lives-Lively k b before in
      (on_done-Alive b due alive, on_done-Replied b replied)

  -- Ping, Get, Put and Delete: in whatever order Proceed and OnDone are called, an object is deleted
  -- once when neither is to be called again, and not before; and it replies at most once.
  pub Lives-deletions :
      (k : Unary db) (c : UnaryCall)
      → Lives k c
      → (c.deletions ≡ (if c.pending then 0 else if c.notify then 0 else 1)) × (c.replies ≤ 1)
  Lives-deletions k c lives =
      let (alive, replied) = Lives-Lively k c lives in
      (
        elim alive [
          | waiting r h ↦ counted h refl
          | working r h ↦ counted h refl
          | cancelled f h ↦ counted h refl
          | finished h ↦ counted h refl
          | gone f o h ↦ counted h refl
        ],
        replied.1,
      )
    where
      counted :
          {p n f o : Bool} {l : ℕ}
          → Has c p n f o l
          → l ≡ (if p then 0 else if n then 0 else 1)
          → c.deletions ≡ (if c.pending then 0 else if c.notify then 0 else 1)
      counted {n = n} h e =
          h.count
          ∙ e
          ∙ ap (λ x. if x then 0 else if n then 0 else 1) (sym h.is_pending)
          ∙ ap (λ y. if c.pending then 0 else if y then 0 else 1) (sym h.is_notified)
