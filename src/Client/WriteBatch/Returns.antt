-- ===== src/Client/WriteBatch/Returns.antt =====
-- The waits of WriteBatchImpl for its completion queue end (src/client/write_batch_impl.cc).
use crocks.Prelude.{
  ℕ, zero, suc, ◌≤◌, ◌≡◌, refl, ap, sym, ◌∙◌, subst, Bool, true, false, List, [], ◌∷◌, Option, none,
  some, ℤ, pos, ◌-ℤ◌, pos_part, is_pos, ◌==◌, ==_iff, arith, if◌then◌else◌, ok, ◌>>=◌,
}
use crocks.Client.WriteBatch.{
  AsyncBatchCall, Filled, QueueEvent, got, timed_out, shut_down, WriteBatchImpl, find_call,
  update_call, on_call, is_pending, fill_call, fill, settle, queue_next, drain,
}
use crocks.Client.WriteBatch.Quiet.{Quiet}
use crocks.Client.WriteBatch.Waits.{IsIdle, fill-calls}
use crocks.Client.WriteBatch.Written.{calls-Quiet}

-- how many events of a node's call the queue has, and whether it is never shut down
abbrev pub arrivals : ℕ → List QueueEvent → ℕ
arrivals id [] = 0
arrivals id (got k is_ok f ∷ xs) = if k == id then suc (arrivals id xs) else arrivals id xs
arrivals id (timed_out ∷ xs) = arrivals id xs
arrivals id (shut_down ∷ xs) = arrivals id xs

abbrev pub is_open : List QueueEvent → Bool
is_open [] = true
is_open (shut_down ∷ xs) = false
is_open (x ∷ xs) = is_open xs

find_call-update :
    (id : ℕ) (f : AsyncBatchCall → AsyncBatchCall) (cs : List (ℕ × AsyncBatchCall))
    (c : AsyncBatchCall)
    → find_call id cs ≡ some c
    → find_call id (update_call id f cs) ≡ some (f c)
find_call-update id f [] c h = absurd (cc h)
find_call-update id f ((j, d) ∷ cs) c h = by_key (j == id) refl h (find_call-update id f cs c)
  where
    by_key :
        (b : Bool)
        → (j == id) ≡ b
        → (if b then some d else find_call id cs) ≡ some c
        → (find_call id cs ≡ some c → find_call id (update_call id f cs) ≡ some (f c))
        → find_call id (if b then (j, f d) ∷ cs else (j, d) ∷ update_call id f cs) ≡ some (f c)
    by_key true k g again = rw k (let same : d ≡ c = cc g in ap (λ x. some (f x)) same)
    by_key false k g again = rw k (again g)

find_call-other :
    (id k : ℕ) (f : AsyncBatchCall → AsyncBatchCall) (cs : List (ℕ × AsyncBatchCall))
    → (k == id) ≡ false
    → find_call id (update_call k f cs) ≡ find_call id cs
find_call-other id k f [] h = refl
find_call-other id k f ((j, d) ∷ cs) h = by_key (j == k) refl (find_call-other id k f cs h)
  where
    by_key :
        (b : Bool)
        → (j == k) ≡ b
        → find_call id (update_call k f cs) ≡ find_call id cs
        → find_call id (if b then (j, f d) ∷ cs else (j, d) ∷ update_call k f cs)
          ≡ (if j == id then some d else find_call id cs)
    by_key true g again =
        let other : (j == id) ≡ false = ap (λ x. x == id) ((==_iff j k).0 g) ∙ h in rw other refl
    by_key false g again = ap (λ o. if j == id then some d else o) again

-- at most n requests of a call are pending, and gRPC will answer them
record Awaits (id n : ℕ) (w : WriteBatchImpl) : Type 0 where
  call : AsyncBatchCall
  here : find_call id w.calls ≡ some call
  pending : pos_part call.pending_requests ≤ n
  sound : pos_part call.pending_requests ≤ call.outstanding

abbrev settled_call : Bool → Filled → AsyncBatchCall → ℕ → AsyncBatchCall
settled_call is_ok f c m = elim m [
  | zero ↦ c
  | suc k ↦
      let d : AsyncBatchCall = record (fill_call f c) { outstanding = k } in
      if is_ok
      then record d { pending_requests = c.pending_requests -ℤ pos 1 }
      else record d { shutdown = true; pending_requests = pos 0 }
]

less_part : (a : ℤ) (m : ℕ) → pos_part a ≤ suc m → pos_part (a -ℤ pos 1) ≤ m
unfolding ◌-ℤ◌
less_part a m h = ground arith

settle-Awaits :
    (is_ok : Bool) (f : Filled) (c : AsyncBatchCall) (n : ℕ)
    → pos_part c.pending_requests ≤ suc n
    → pos_part c.pending_requests ≤ c.outstanding
    → (pos_part (settle is_ok f c).pending_requests ≤ n)
      × (pos_part (settle is_ok f c).pending_requests ≤ (settle is_ok f c).outstanding)
unfolding settle
settle-Awaits is_ok f c n few sound = by_count c.outstanding is_ok sound
  where
    by_count :
        (m : ℕ) (b : Bool)
        → pos_part c.pending_requests ≤ m
        → (pos_part (settled_call b f c m).pending_requests ≤ n)
          × (pos_part (settled_call b f c m).pending_requests ≤ (settled_call b f c m).outstanding)
    by_count zero b none_left = (omega arith, sound)
    by_count (suc k) true g = (less_part c.pending_requests n few, less_part c.pending_requests k g)
    by_count (suc k) false g = (omega arith, omega arith)

-- an event of the call leaves one request less
settled-Awaits :
    (id n : ℕ) (is_ok : Bool) (f : Filled) (w : WriteBatchImpl)
    → Awaits id (suc n) w
    → Awaits id n (on_call id (settle is_ok f) (fill f w))
settled-Awaits id n is_ok f w a =
    let (pending, sound) = settle-Awaits is_ok f a.call n a.pending a.sound in
    record {
      call = settle is_ok f a.call;
      here =
          find_call-update id (settle is_ok f) (fill f w).calls a.call
            (ap (find_call id) (fill-calls f w) ∙ a.here);
      pending = pending;
      sound = sound;
    }

other-Awaits :
    (id k n : ℕ) (is_ok : Bool) (f : Filled) (w : WriteBatchImpl)
    → (k == id) ≡ false
    → Awaits id n w
    → Awaits id n (on_call k (settle is_ok f) (fill f w))
other-Awaits id k n is_ok f w apart a = record {
  call = a.call;
  here =
      find_call-other id k (settle is_ok f) (fill f w).calls apart
      ∙ ap (find_call id) (fill-calls f w)
      ∙ a.here;
  pending = a.pending;
  sound = a.sound;
}

nothing-IsIdle : (id : ℕ) (w : WriteBatchImpl) → Awaits id 0 w → IsIdle id w
nothing-IsIdle id w a =
    ap (λ (o : Option AsyncBatchCall). elim o [ none ↦ false | some c ↦ is_pos c.pending_requests ])
      a.here
    ∙ not_pos a.call.pending_requests a.pending
  where
    not_pos : (x : ℤ) → pos_part x ≤ 0 → is_pos x ≡ false
    not_pos x h = ground arith

abbrev Drained : ℕ → List QueueEvent → WriteBatchImpl → Type 0
Drained id xs w = (v : WriteBatchImpl) × (drain id xs w ≡ ok (some v)) × IsIdle id v

Awaits-suc : (id n : ℕ) (w : WriteBatchImpl) → Awaits id n w → Awaits id (suc n) w
Awaits-suc id n w a = record {
  call = a.call;
  here = a.here;
  pending = let few = a.pending in omega arith;
  sound = a.sound;
}

-- one thing that the queue gives, and the rest of the wait
next-Drained :
    (id n : ℕ) (x : QueueEvent) (xs : List QueueEvent) (w : WriteBatchImpl)
    → Awaits id n w
    → n ≤ arrivals id (x ∷ xs)
    → is_open (x ∷ xs) ≡ true
    → ((m : ℕ) (v : WriteBatchImpl)
        → Awaits id m v
        → m ≤ arrivals id xs
        → is_open xs ≡ true
        → Drained id xs v)
    → (v : WriteBatchImpl) × (queue_next x w >>= drain id xs ≡ ok (some v)) × IsIdle id v
unfolding queue_next
next-Drained id n timed_out xs w a enough on again = again n w a enough on
next-Drained id n shut_down xs w a enough on again = absurd (cc on)
next-Drained id n (got k is_ok f) xs w a enough on again = by_key (k == id) refl n a enough
  where
    by_key :
        (b : Bool)
        → (k == id) ≡ b
        → (m : ℕ) → Awaits id m w
        → m ≤ (if b then suc (arrivals id xs) else arrivals id xs)
        → Drained id xs (on_call k (settle is_ok f) (fill f w))
    by_key false apart m b few =
        again m (on_call k (settle is_ok f) (fill f w)) (other-Awaits id k m is_ok f w apart b) few
          on
    by_key true same m b few = same_key m ((==_iff k id).0 same) b few
      where
        same_key :
            (m : ℕ)
            → k ≡ id
            → Awaits id m w
            → m ≤ suc (arrivals id xs)
            → Drained id xs (on_call k (settle is_ok f) (fill f w))
        same_key zero eq b few =
            again 0 (on_call k (settle is_ok f) (fill f w))
              (subst (λ j. Awaits id 0 (on_call j (settle is_ok f) (fill f w))) (sym eq)
                (settled-Awaits id 0 is_ok f w (Awaits-suc id 0 w b)))
              (omega arith) on
        same_key (suc l) eq b few =
            again l (on_call k (settle is_ok f) (fill f w))
              (subst (λ j. Awaits id l (on_call j (settle is_ok f) (fill f w))) (sym eq)
                (settled-Awaits id l is_ok f w b))
              (omega arith) on

drain-Drained :
    (id n : ℕ) (xs : List QueueEvent) (w : WriteBatchImpl)
    → Awaits id n w
    → n ≤ arrivals id xs
    → is_open xs ≡ true
    → Drained id xs w
unfolding drain
drain-Drained id zero [] w a enough on =
    let idle = nothing-IsIdle id w a in (record w { queue = [] }, rw (idle, drain) refl, idle)
drain-Drained id (suc n) [] w a enough on = absurd (omega arith)
drain-Drained id n (x ∷ xs) w a enough on =
    by_pending (is_pending id w) refl
      (next-Drained id n x xs w a enough on (λ m v. drain-Drained id m xs v))
  where
    by_pending :
        (b : Bool)
        → is_pending id w ≡ b
        → ((v : WriteBatchImpl) × (queue_next x w >>= drain id xs ≡ ok (some v)) × IsIdle id v)
        → (v : WriteBatchImpl) × (elim b [
          | false ↦ ok (some (record w { queue = x ∷ xs }))
          | true ↦ queue_next x w >>= drain id xs
        ]
            ≡ ok (some v))
          × IsIdle id v
    by_pending true busy next = next
    by_pending false idle next = (record w { queue = x ∷ xs }, refl, idle)

-- WriteBatchImpl waits for a call that has not been shut down, and the queue is to give as many
-- events of that call as it has outstanding requests, whether they went well or not, among events of
-- other calls. The wait then ends, and leaves no request of the call pending.
pub drain-returns :
    (id : ℕ) (w : WriteBatchImpl) (c : AsyncBatchCall)
    → Quiet w.calls
    → find_call id w.calls ≡ some c
    → c.shutdown ≡ false
    → c.outstanding ≤ arrivals id w.queue
    → is_open w.queue ≡ true
    → (v : WriteBatchImpl) × (drain id w.queue w ≡ ok (some v)) × IsIdle id v
drain-returns id w c quiet here on enough lasting =
    let count : c.pending_requests ≡ pos c.outstanding = calls-Quiet id c w.calls quiet here on in
    let part : pos_part c.pending_requests ≡ c.outstanding = ap pos_part count in
    drain-Drained id c.outstanding w.queue w
      (record { call = c; here = here; pending = omega arith; sound = omega arith }) enough lasting
