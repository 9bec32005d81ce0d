-- ===== src/Client/WriteBatch/Statuses.antt =====
-- GetStatus of a WriteBatchImpl (src/client/write_batch_impl.cc).
use Prim.Native.String.{String}
use crocks.Prelude.{
  ℕ, zero, suc, ◌≡◌, refl, Bool, true, false, not, ◌&&◌, List, [], ◌∷◌, none, some, get_elem?, drop,
  arith, ℤ, pos, negsuc, is_zero, if◌then◌else◌, ok, OnOk, >>=-OnOk_any,
}
use crocks.Status.{
  StatusCode, GrpcCode, Status, is_fine, is_code_fine, is_code_unavailable, is_ok, good, of_grpc,
  of_rocksdb, description, status_code, codes,
}
use crocks.Client.WriteBatch.{AsyncBatchCall, get_status}

-- a call whose end GetStatus accepts
abbrev pub has_succeeded : AsyncBatchCall → Bool
has_succeeded c =
    if is_fine c.status.error_code
    then is_zero c.response
    else is_code_unavailable c.status.error_code

abbrev pub have_succeeded : List (ℕ × AsyncBatchCall) → Bool
have_succeeded [] = true
have_succeeded ((id, c) ∷ cs) = has_succeeded c && have_succeeded cs

abbrev none_fine : List StatusCode → Bool
none_fine [] = true
none_fine (c ∷ cs) = not (is_code_fine c) && none_fine cs

none_fine-get :
    (cs : List StatusCode) (n : ℕ)
    → none_fine cs ≡ true
    → is_code_fine (elim (get_elem? cs n) [ none ↦ StatusCode.unknown | some c ↦ c ]) ≡ false
none_fine-get [] n h = refl
none_fine-get (c ∷ cs) zero h = ground arith
none_fine-get (c ∷ cs) (suc n) h = none_fine-get cs n (ground arith)

status_code-fine : (k : ℤ) → is_zero k ≡ false → is_code_fine (status_code k) ≡ false
unfolding status_code
status_code-fine (pos zero) h = absurd (cc h)
status_code-fine (pos (suc n)) h = none_fine-get (drop 1 codes) n refl
status_code-fine (negsuc n) h = refl

of_rocksdb-failed :
    (k : ℤ) → is_zero k ≡ false → OnOk (λ (s : Status). is_ok s ≡ false) (of_rocksdb k)
unfolding of_rocksdb is_ok
of_rocksdb-failed k h =
    >>=-OnOk_any (λ (s : Status). is_ok s ≡ false) (description (status_code k)) _
      (λ t. status_code-fine k h)

pub get_status-succeeded :
    (cs : List (ℕ × AsyncBatchCall))
    → OnOk (λ (s : Status). is_ok s ≡ have_succeeded cs) (get_status cs)
unfolding get_status is_ok good of_grpc
get_status-succeeded [] = refl
get_status-succeeded ((id, c) ∷ cs) =
    by_code c.status.error_code c.status.message c.response (is_zero c.response) refl
      (get_status-succeeded cs)
  where
    by_code :
        (code : GrpcCode) (text : String) (k : ℤ) (z : Bool)
        → is_zero k ≡ z
        → OnOk (λ (s : Status). is_ok s ≡ have_succeeded cs) (get_status cs)
        → OnOk
            (λ (t : Status).
              is_ok t ≡ (if is_fine code then z else is_code_unavailable code) && have_succeeded cs)
            (if is_fine code
              then (if z then get_status cs else of_rocksdb k)
              else if is_code_unavailable code
              then get_status cs
              else ok (of_grpc (record { error_code = code; message = text })))
    by_code GrpcCode.fine text k true h rest = rest
    by_code GrpcCode.fine text k false h rest = of_rocksdb-failed k h
    by_code GrpcCode.unavailable text k z h rest = rest
    by_code GrpcCode.deadline_exceeded text k z h rest = refl
    by_code GrpcCode.invalid_argument text k z h rest = refl
    by_code (GrpcCode.other n) text k z h rest = refl
