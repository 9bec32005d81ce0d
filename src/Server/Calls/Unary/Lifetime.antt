-- ===== src/Server/Calls/Unary/Lifetime.antt =====
-- When the objects of the unary calls delete themselves (src/server/async_server.cc).
use crocks.Prelude.{
  ℕ, suc, ◌≤◌, ◌≡◌, refl, ap, sym, ◌∙◌, Bool, true, false, not, arith, if◌then◌else◌,
}
use crocks.Server.Calls.Unary.{
  UnaryStatus, request, get, finish, UnaryCall, delete_this, without_request, matched, finish_with,
  proceed_finish, on_done,
}

abbrev pub is_request : UnaryStatus → Bool
is_request request = true
is_request s = false

abbrev pub is_finish : UnaryStatus → Bool
is_finish finish = true
is_finish s = false

pub record Has (c : UnaryCall) (pending notify finished done : Bool) (n : ℕ) : Type 0 where
  pub is_pending : c.pending ≡ pending
  pub is_notified : c.notify ≡ notify
  pub is_finished : c.finish_called ≡ finished
  pub is_done : c.on_done_called ≡ done
  pub count : c.deletions ≡ n

-- where the life of a call can be
pub data Alive (c : UnaryCall) : Type 0 where
  waiting : is_request c.status ≡ true → Has c true false false false 0 → Alive c
  working : is_request c.status ≡ false → Has c true true false false 0 → Alive c
  cancelled : is_finish c.status ≡ true → Has c true false false true 0 → Alive c
  finished : Has c false true true false 0 → Alive c
  gone : (f d : Bool) → Has c false false f d 1 → Alive c

-- replies are given once, before FINISH
abbrev pub Replied : UnaryCall → Type 0
Replied c = (is_finish c.status ≡ false → c.replies ≡ 0) × (c.replies ≤ 1)

abbrev pub Lively : UnaryCall → Type 0
Lively c = Alive c × Replied c

-- the statuses exclude one another
apart : (s : UnaryStatus) → is_request s ≡ true → is_finish s ≡ true → ⊥
apart request r f = cc f
apart get r f = cc r
apart finish r f = cc r

-- by whether OnDone has been called
after_finish :
    (b : Bool) (d : UnaryCall)
    → d.pending ≡ false
    → d.notify ≡ not b
    → d.finish_called ≡ true
    → d.on_done_called ≡ b
    → d.deletions ≡ 0
    → Alive (if b then delete_this d else d)
after_finish true d p n f o k =
    gone true true
      (record { is_pending = p; is_notified = n; is_finished = f; is_done = o; count = ap suc k })
after_finish false d p n f o k =
    finished (record { is_pending = p; is_notified = n; is_finished = f; is_done = o; count = k })

pub proceed_finish-Alive :
    (c : UnaryCall)
    → is_finish c.status ≡ true
    → c.pending ≡ true
    → Alive c
    → Alive (proceed_finish c)
unfolding proceed_finish
proceed_finish-Alive c fin on alive =
    let d : UnaryCall = record c { pending = false; finish_called = true } in
    elim alive [
      | waiting r h ↦ absurd (apart c.status r fin)
      | working r h ↦
          after_finish c.on_done_called d refl (h.is_notified ∙ ap not (sym h.is_done)) refl refl
            h.count
      | cancelled f h ↦
          after_finish c.on_done_called d refl (h.is_notified ∙ ap not (sym h.is_done)) refl refl
            h.count
      | finished h ↦ absurd (cc (on, h.is_pending))
      | gone f o h ↦ absurd (cc (on, h.is_pending))
    ]

pub proceed_finish-Replied :
    (c : UnaryCall) → is_finish c.status ≡ true → Replied c → Replied (proceed_finish c)
unfolding proceed_finish
proceed_finish-Replied c fin (none_yet, one) = by_done c.on_done_called
  where
    by_done :
        (b : Bool)
        → let d : UnaryCall = record c { pending = false; finish_called = true } in
          Replied (if b then delete_this d else d)
    by_done true = (λ off. absurd (cc (off, fin)), one)
    by_done false = (λ off. absurd (cc (off, fin)), one)

-- Proceed in REQUEST
pub matched-Has :
    (c : UnaryCall)
    → is_request c.status ≡ true
    → c.pending ≡ true
    → Alive c
    → Has c true false false false 0
matched-Has c req on alive = elim alive [
  | waiting r h ↦ h
  | working r h ↦ absurd (cc (req, r))
  | cancelled f h ↦ absurd (apart c.status req f)
  | finished h ↦ absurd (cc (on, h.is_pending))
  | gone f o h ↦ absurd (cc (on, h.is_pending))
]

pub started-Alive :
    (s : UnaryStatus) (n : ℕ) (c : UnaryCall)
    → is_request s ≡ false
    → Has c true false false false 0
    → Alive (record (matched c) { status = s; pending = true; replies = n })
started-Alive s n c other h = working other (record {
  is_pending = refl;
  is_notified = refl;
  is_finished = h.is_finished;
  is_done = h.is_done;
  count = h.count;
})

pub without_request-Alive :
    (c : UnaryCall) → Has c true false false false 0 → Alive (without_request c)
without_request-Alive c h = gone false false (record {
  is_pending = refl;
  is_notified = h.is_notified;
  is_finished = h.is_finished;
  is_done = h.is_done;
  count = ap suc h.count;
})

-- Proceed in GET
pub answered-Alive :
    (c : UnaryCall)
    → is_request c.status ≡ false
    → is_finish c.status ≡ false
    → c.pending ≡ true
    → Alive c
    → Alive (finish_with c)
answered-Alive c r f on alive = elim alive [
  | waiting req h ↦ absurd (cc (req, r))
  | working req h ↦ working refl (record {
    is_pending = refl;
    is_notified = h.is_notified;
    is_finished = h.is_finished;
    is_done = h.is_done;
    count = h.count;
  })
  | cancelled fin h ↦ absurd (cc (fin, f))
  | finished h ↦ absurd (cc (on, h.is_pending))
  | gone x y h ↦ absurd (cc (on, h.is_pending))
]

pub finish_with-Replied :
    (c : UnaryCall) → is_finish c.status ≡ false → Replied c → Replied (finish_with c)
finish_with-Replied c f (none_yet, one) =
    let zero_yet = none_yet f in (λ off. absurd (cc off), omega arith)

-- OnDone
pub on_done-Alive : (c : UnaryCall) → c.notify ≡ true → Alive c → Alive (on_done c)
unfolding on_done
on_done-Alive c due alive =
    let d : UnaryCall = record c { notify = false; on_done_called = true } in
    elim alive [
      | waiting r h ↦ absurd (cc (due, h.is_notified))
      | working r h ↦ still c.finish_called h.is_finished h
      | cancelled f h ↦ absurd (cc (due, h.is_notified))
      | finished h ↦ over c.finish_called h.is_finished h
      | gone f o h ↦ absurd (cc (due, h.is_notified))
    ]
  where
    still :
        (b : Bool)
        → b ≡ false
        → Has c true true false false 0
        → let d : UnaryCall = record c { notify = false; on_done_called = true } in
          Alive (if b then delete_this d else record d { status = finish })
    still true e h = absurd (cc e)
    still false e h = cancelled refl (record {
      is_pending = h.is_pending;
      is_notified = refl;
      is_finished = h.is_finished;
      is_done = refl;
      count = h.count;
    })

    over :
        (b : Bool)
        → b ≡ true
        → Has c false true true false 0
        → let d : UnaryCall = record c { notify = false; on_done_called = true } in
          Alive (if b then delete_this d else record d { status = finish })
    over false e h = absurd (cc e)
    over true e h = gone true true (record {
      is_pending = h.is_pending;
      is_notified = refl;
      is_finished = h.is_finished;
      is_done = refl;
      count = ap suc h.count;
    })

pub on_done-Replied : (c : UnaryCall) → Replied c → Replied (on_done c)
unfolding on_done
on_done-Replied c (none_yet, one) = by_finish c.finish_called
  where
    by_finish :
        (b : Bool)
        → let d : UnaryCall = record c { notify = false; on_done_called = true } in
          Replied (if b then delete_this d else record d { status = finish })
    by_finish true = (none_yet, one)
    by_finish false = (λ off. absurd (cc off), one)
