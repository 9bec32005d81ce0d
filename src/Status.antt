-- ===== src/Status.antt =====
-- The class Status (include/crocks/status.h, src/common/status.cc) and the retries of Ensure
-- (src/common/util.cc).
pub mod Deadline
use Prim.Native.String.{String}
use crocks.Prelude.{
  ℕ, zero, suc, Bool, true, false, ◌&&◌, List, [], ◌∷◌, none, some, get_elem?, ℤ, pos, negsuc,
  if◌then◌else◌, Run, ok, abort, ◌>>=◌,
}

-- rocksdb::StatusCode
pub data StatusCode : Type 0 where
  fine : StatusCode
  not_found : StatusCode
  corruption : StatusCode
  not_supported : StatusCode
  invalid_argument : StatusCode
  io_error : StatusCode
  merge_in_progress : StatusCode
  incomplete : StatusCode
  shutdown_in_progress : StatusCode
  timed_out : StatusCode
  aborted : StatusCode
  busy : StatusCode
  expired : StatusCode
  try_again : StatusCode
  unknown : StatusCode

-- The codes of grpc::Status that the program tells apart.
pub data GrpcCode : Type 0 where
  fine : GrpcCode
  unavailable : GrpcCode
  deadline_exceeded : GrpcCode
  invalid_argument : GrpcCode
  other : ℕ → GrpcCode

pub record GrpcStatus : Type 0 where
  pub error_code : GrpcCode
  pub message : String

-- RocksdbStatusDescription; UNKNOWN fails an assert
unfoldable pub description : StatusCode → Run String
description StatusCode.fine = ok "OK"
description StatusCode.not_found = ok "Not found"
description StatusCode.corruption = ok "Corruption"
description StatusCode.not_supported = ok "Not supported"
description StatusCode.invalid_argument = ok "Invalid argument"
description StatusCode.io_error = ok "IO error"
description StatusCode.merge_in_progress = ok "Merge in progress"
description StatusCode.incomplete = ok "Incomplete"
description StatusCode.shutdown_in_progress = ok "Shutdown in progress"
description StatusCode.timed_out = ok "Timed out"
description StatusCode.aborted = ok "Aborted"
description StatusCode.busy = ok "Busy"
description StatusCode.expired = ok "Expired"
description StatusCode.try_again = ok "Try again"
description StatusCode.unknown = abort

abbrev pub codes : List StatusCode
codes =
    StatusCode.fine ∷ StatusCode.not_found ∷ StatusCode.corruption ∷ StatusCode.not_supported
    ∷ StatusCode.invalid_argument ∷ StatusCode.io_error ∷ StatusCode.merge_in_progress
    ∷ StatusCode.incomplete ∷ StatusCode.shutdown_in_progress ∷ StatusCode.timed_out
    ∷ StatusCode.aborted ∷ StatusCode.busy ∷ StatusCode.expired ∷ StatusCode.try_again ∷ []

-- `static_cast<rocksdb::StatusCode>(code)`; a number without a name is taken as UNKNOWN, which has no
-- description either
unfoldable pub status_code : ℤ → StatusCode
status_code (pos n) = elim (get_elem? codes n) [ none ↦ StatusCode.unknown | some c ↦ c ]
status_code (negsuc n) = StatusCode.unknown

pub record Status : Type 0 where
  pub grpc_code : GrpcCode
  pub rocksdb_code : StatusCode
  pub error_message : String

abbrev pub is_fine : GrpcCode → Bool
is_fine GrpcCode.fine = true
is_fine c = false

abbrev pub is_code_fine : StatusCode → Bool
is_code_fine StatusCode.fine = true
is_code_fine c = false

abbrev pub is_code_unavailable : GrpcCode → Bool
is_code_unavailable GrpcCode.unavailable = true
is_code_unavailable c = false

-- the constructors
unfoldable pub good : Status
good = record { grpc_code = GrpcCode.fine; rocksdb_code = StatusCode.fine; error_message = "" }

unfoldable pub of_grpc : GrpcStatus → Status
of_grpc s = record {
  grpc_code = s.error_code;
  rocksdb_code = StatusCode.unknown;
  error_message = s.message;
}

unfoldable pub of_rocksdb : ℤ → Run Status
unfolding description status_code
of_rocksdb code = do
  text ← description (status_code code)
  ok (record { grpc_code = GrpcCode.fine; rocksdb_code = status_code code; error_message = text })

unfoldable pub of_both : GrpcStatus → ℤ → Run Status
unfolding of_rocksdb of_grpc
of_both s code = if is_fine s.error_code then of_rocksdb code else ok (of_grpc s)

unfoldable pub is_ok : Status → Bool
is_ok s = is_fine s.grpc_code && is_code_fine s.rocksdb_code

unfoldable pub is_grpc_ok : Status → Bool
is_grpc_ok s = is_fine s.grpc_code

unfoldable pub is_rocksdb_ok : Status → Bool
is_rocksdb_ok s = is_code_fine s.rocksdb_code

unfoldable pub is_not_found : Status → Bool
is_not_found s = elim s.rocksdb_code [ not_found ↦ true | _ ↦ false ]

unfoldable pub is_unavailable : Status → Bool
is_unavailable s = is_code_unavailable s.grpc_code

-- EnsureRpc
unfoldable pub ensure_rpc : Status → Run (Unit {0})
unfolding is_grpc_ok
ensure_rpc s = if is_grpc_ok s then ok tt else abort

abbrev pub is_exceeded : GrpcCode → Bool
is_exceeded GrpcCode.deadline_exceeded = true
is_exceeded c = false

abbrev pub deadline_status : GrpcStatus
deadline_status = record { error_code = GrpcCode.unavailable; message = "Deadline exceeded" }

-- Ensure: `rpc` makes the call with the one deadline that Ensure has set, in a world that it changes.
module _ {World : Type 0} (rpc : World → World × GrpcStatus) where
  -- the loop, where `left` is 10 - tries
  unfoldable pub retry_exceeded : ℕ → World → GrpcStatus → World × GrpcStatus
  retry_exceeded zero w s = elim (is_exceeded s.error_code) [
    | false ↦ (w, s)
    | true ↦ ((rpc w).0, deadline_status)
  ]
  retry_exceeded (suc left) w s = elim (is_exceeded s.error_code) [
    | false ↦ (w, s)
    | true ↦ retry_exceeded left (rpc w).0 (rpc w).1
  ]

  unfoldable pub retry_unavailable : World → GrpcStatus → World × GrpcStatus
  retry_unavailable w s = elim (is_code_unavailable s.error_code) [
    | false ↦ (w, s)
    | true ↦
        let (later, again) = rpc w in (later, if is_exceeded again.error_code then s else again)
  ]

  unfoldable pub ensure : World → World × GrpcStatus
  unfolding retry_exceeded retry_unavailable
  ensure w =
      let first = rpc w in let r = retry_exceeded 10 first.0 first.1 in retry_unavailable r.0 r.1
