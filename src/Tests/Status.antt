-- ===== src/Tests/Status.antt =====
-- Ensure over a call that takes as long as its deadline.
use crocks.Prelude.{ℕ, suc, ◌≡◌, refl, false}
use crocks.Status.{GrpcCode, GrpcStatus, is_exceeded, deadline_status, ensure}
use crocks.Status.Deadline.{calls, ensure-late, ensure-IsExceeded}

-- a world that counts the calls
abbrev slow : ℕ → ℕ × GrpcStatus
slow n = (suc n, record { error_code = GrpcCode.deadline_exceeded; message = "" })

ensure-late_example : ensure slow 0 ≡ (calls slow 13 0, deadline_status)
ensure-late_example = ensure-late slow (λ n. Unit {0}) (λ n l. refl) (λ n l. tt) 0 refl tt

ensure-IsExceeded_example : is_exceeded (ensure slow 0).1.error_code ≡ false
ensure-IsExceeded_example = ensure-IsExceeded slow 0
