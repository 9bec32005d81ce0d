-- ===== src/Client/WriteBatch/Quiet.antt =====
-- What the calls of a WriteBatchImpl keep to: one Write at a time (src/client/write_batch_impl.cc).
use crocks.Prelude.{
  ℕ, zero, suc, ◌+◌, ◌≡◌, refl, ap, sym, ◌∙◌, subst, Bool, true, false, List, [], ◌∷◌, ◌++◌, some,
  ℤ, pos, ◌+ℤ◌, ◌-ℤ◌, is_pos, ◌==◌, arith, if◌then◌else◌,
}
use crocks.Client.WriteBatch.{
  Request, write, read, writes_done, finish, AsyncBatchCall, Filled, nothing, first_response,
  call_response, call_status, find_call, update_call, ask, expect, fill_call, settle,
}

abbrev pub is_write : Request → Bool
is_write (write us) = true
is_write writes_done = true
is_write r = false

-- Each Write was made when nothing was outstanding.
abbrev pub Ordered : List (Request × ℕ) → Type 0
Ordered [] = Unit
Ordered ((r, n) ∷ rs) = (is_write r ≡ true → n ≡ 0) × Ordered rs

-- of a call that has not been shut down
abbrev pub IsQuiet : AsyncBatchCall → Type 0
IsQuiet c = c.shutdown ≡ false → (c.pending_requests ≡ pos c.outstanding) × Ordered c.requests

abbrev pub Quiet : List (ℕ × AsyncBatchCall) → Type 0
Quiet [] = Unit
Quiet ((k, c) ∷ cs) = IsQuiet c × Quiet cs

Ordered-append :
    (rs : List (Request × ℕ)) (r : Request) (n : ℕ)
    → Ordered rs
    → (is_write r ≡ true → n ≡ 0)
    → Ordered (rs ++ (r, n) ∷ [])
Ordered-append [] r n h g = (g, tt)
Ordered-append ((q, m) ∷ rs) r n (h, hs) g = (h, Ordered-append rs r n hs g)

pos-add : (n k : ℕ) → pos n +ℤ pos k ≡ pos (n + k)
unfolding ◌+ℤ◌
pos-add n k = ground arith

pos-less : (n : ℕ) → pos (suc n) -ℤ pos 1 ≡ pos n
unfolding ◌-ℤ◌
pos-less n = ground arith

pub outstanding_none :
    (c : AsyncBatchCall) (n : ℕ)
    → c.pending_requests ≡ pos n
    → is_pos c.pending_requests ≡ false
    → n ≡ 0
outstanding_none c n h idle = nothing_left n (ap is_pos (sym h) ∙ idle)
  where
    nothing_left : (m : ℕ) → is_pos (pos m) ≡ false → m ≡ 0
    nothing_left m k = ground arith

ask-Ordered :
    (r : Request) (c : AsyncBatchCall)
    → Ordered c.requests
    → (is_write r ≡ true → c.outstanding ≡ 0)
    → Ordered (ask r c).requests
ask-Ordered r c h g = Ordered-append c.requests r c.outstanding h g

pub send-IsQuiet :
    (r : Request) (c : AsyncBatchCall)
    → IsQuiet c
    → (is_write r ≡ true → is_pos c.pending_requests ≡ false)
    → IsQuiet (expect 1 (ask r c))
send-IsQuiet r c quiet idle on =
    let (count, order) = quiet on in
    (
      ap (λ x. x +ℤ pos 1) count ∙ pos-add c.outstanding 1 ∙ ap pos (add_one c.outstanding),
      ask-Ordered r c order (λ w. outstanding_none c c.outstanding count (idle w)),
    )
  where
    add_one : (n : ℕ) → n + 1 ≡ suc n
    add_one n = omega arith

pub close_call-IsQuiet :
    (c : AsyncBatchCall)
    → IsQuiet c
    → is_pos c.pending_requests ≡ false
    → IsQuiet (expect 3 (ask finish (ask read (ask writes_done c))))
close_call-IsQuiet c quiet idle on =
    let (count, order) = quiet on in
    let first = ask writes_done c in
    let second = ask read first in
    (
      ap (λ x. x +ℤ pos 3) count ∙ pos-add c.outstanding 3 ∙ ap pos (add_three c.outstanding),
      ask-Ordered finish second
          (ask-Ordered read first
            (ask-Ordered writes_done c order (λ w. outstanding_none c c.outstanding count idle))
            (λ w. absurd (cc w)))
          (λ w. absurd (cc w)),
    )
  where
    add_three : (n : ℕ) → n + 3 ≡ suc (suc (suc n))
    add_three n = omega arith

fill_call-kept :
    (f : Filled) (c : AsyncBatchCall)
    → ((fill_call f c).shutdown ≡ c.shutdown) × ((fill_call f c).requests ≡ c.requests)
fill_call-kept nothing c = (refl, refl)
fill_call-kept (first_response s k) c = (refl, refl)
fill_call-kept (call_response k) c = (refl, refl)
fill_call-kept (call_status s) c = (refl, refl)

pub settle-IsQuiet :
    (is_ok : Bool) (f : Filled) (c : AsyncBatchCall) → IsQuiet c → IsQuiet (settle is_ok f c)
unfolding settle
settle-IsQuiet is_ok f c quiet = by_count c.outstanding is_ok refl
  where
    by_count :
        (n : ℕ) (b : Bool)
        → c.outstanding ≡ n
        → IsQuiet (elim n [
          | zero ↦ c
          | suc m ↦
              let d : AsyncBatchCall = record (fill_call f c) { outstanding = m } in
              if b
              then record d { pending_requests = c.pending_requests -ℤ pos 1 }
              else record d { shutdown = true; pending_requests = pos 0 }
        ])
    by_count zero b h = quiet
    by_count (suc m) false h = λ on. absurd (cc on)
    by_count (suc m) true h = λ on.
        let (still, kept) = fill_call-kept f c in
        let (count, order) = quiet (sym still ∙ on) in
        (ap (λ x. x -ℤ pos 1) (count ∙ ap pos h) ∙ pos-less m, subst Ordered (sym kept) order)

less_idle : (a : ℤ) → is_pos a ≡ false → is_pos (a -ℤ pos 1) ≡ false
unfolding ◌-ℤ◌
less_idle a h = ground arith

-- what `pending_requests > 0` says of a call that has been settled
pub settle-idle :
    (is_ok : Bool) (f : Filled) (c : AsyncBatchCall)
    → is_pos c.pending_requests ≡ false
    → is_pos (settle is_ok f c).pending_requests ≡ false
unfolding settle
settle-idle is_ok f c idle = by_count c.outstanding is_ok
  where
    by_count :
        (n : ℕ) (b : Bool)
        → is_pos (
            AsyncBatchCall.pending_requests (elim n [
              | zero ↦ c
              | suc m ↦
                  let d : AsyncBatchCall = record (fill_call f c) { outstanding = m } in
                  if b
                  then record d { pending_requests = c.pending_requests -ℤ pos 1 }
                  else record d { shutdown = true; pending_requests = pos 0 }
            ]))
          ≡ false
    by_count zero b = idle
    by_count (suc m) false = refl
    by_count (suc m) true = less_idle c.pending_requests idle

pub update_call-Quiet :
    (id : ℕ) (f : AsyncBatchCall → AsyncBatchCall) (cs : List (ℕ × AsyncBatchCall))
    → ((c : AsyncBatchCall) → find_call id cs ≡ some c → IsQuiet c → IsQuiet (f c))
    → Quiet cs
    → Quiet (update_call id f cs)
update_call-Quiet id f [] g h = tt
update_call-Quiet id f ((k, c) ∷ cs) g (h, hs) =
    by_key (k == id) g (λ later. update_call-Quiet id f cs later hs)
  where
    by_key :
        (b : Bool)
        → ((d : AsyncBatchCall)
            → (if b then some c else find_call id cs) ≡ some d
            → IsQuiet d
            → IsQuiet (f d))
        → (((d : AsyncBatchCall) → find_call id cs ≡ some d → IsQuiet d → IsQuiet (f d))
            → Quiet (update_call id f cs))
        → Quiet (if b then (k, f c) ∷ cs else (k, c) ∷ update_call id f cs)
    by_key true each again = (each c refl h, hs)
    by_key false each again = (h, again each)

pub Quiet-append :
    (cs : List (ℕ × AsyncBatchCall)) (k : ℕ) (c : AsyncBatchCall)
    → Quiet cs
    → IsQuiet c
    → Quiet (cs ++ (k, c) ∷ [])
Quiet-append [] k c h g = (g, tt)
Quiet-append ((j, d) ∷ cs) k c (h, hs) g = (h, Quiet-append cs k c hs g)
