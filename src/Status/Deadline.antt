-- ===== src/Status/Deadline.antt =====
-- Ensure (src/common/util.cc) and its deadline.
use crocks.Prelude.{ℕ, zero, suc, ◌≡◌, refl, true, false, Bool-cases, inl, inr}
use crocks.Status.{
  GrpcStatus, is_exceeded, is_code_unavailable, deadline_status, retry_exceeded, retry_unavailable,
  ensure,
}

module _ {World : Type 0} (rpc : World → World × GrpcStatus) where
  retry_exceeded-False :
      (left : ℕ) (w : World) (s : GrpcStatus)
      → is_exceeded (retry_exceeded rpc left w s).1.error_code ≡ false
  unfolding retry_exceeded
  retry_exceeded-False zero w s = elim (Bool-cases (is_exceeded s.error_code)) [
    | inl late ↦ rw (late, retry_exceeded) refl
    | inr early ↦ rw (early, retry_exceeded) early
  ]
  retry_exceeded-False (suc left) w s = elim (Bool-cases (is_exceeded s.error_code)) [
    | inl late ↦ rw (late, retry_exceeded) (retry_exceeded-False left (rpc w).0 (rpc w).1)
    | inr early ↦ rw (early, retry_exceeded) early
  ]

  retry_unavailable-False :
      (w : World) (s : GrpcStatus)
      → is_exceeded s.error_code ≡ false
      → is_exceeded (retry_unavailable rpc w s).1.error_code ≡ false
  unfolding retry_unavailable
  retry_unavailable-False w s h = elim (Bool-cases (is_code_unavailable s.error_code)) [
    | inr other ↦ rw (other, retry_unavailable) h
    | inl again ↦ elim (Bool-cases (is_exceeded (rpc w).1.error_code)) [
      | inl late ↦ rw (again, late, retry_unavailable) h
      | inr early ↦ rw (again, early, retry_unavailable) early
    ]
  ]

  -- Whatever the call does, Ensure ends, and never with DEADLINE_EXCEEDED.
  pub ensure-IsExceeded : (w : World) → is_exceeded (ensure rpc w).1.error_code ≡ false
  unfolding ensure
  ensure-IsExceeded w = retry_unavailable-False _ _ (retry_exceeded-False 10 (rpc w).0 (rpc w).1)

  -- the world after some calls
  abbrev pub calls : ℕ → World → World
  calls zero w = w
  calls (suc n) w = calls n (rpc w).0

  module _ (Late : World → Type 0)
      (late : (w : World) → Late w → is_exceeded (rpc w).1.error_code ≡ true)
      (stays : (w : World) → Late w → Late (rpc w).0) where
    late_calls : (n : ℕ) (w : World) → Late w → Late (calls n w)
    late_calls zero w l = l
    late_calls (suc n) w l = late_calls n (rpc w).0 (stays w l)

    retry_exceeded-late :
        (left : ℕ) (w : World)
        → Late w
        → (s : GrpcStatus) → is_exceeded s.error_code ≡ true
        → retry_exceeded rpc left w s ≡ (calls (suc left) w, deadline_status)
    unfolding retry_exceeded
    retry_exceeded-late zero w l s h = rw (h, retry_exceeded) refl
    retry_exceeded-late (suc left) w l s h =
        rw (h, retry_exceeded) (retry_exceeded-late left (rpc w).0 (stays w l) (rpc w).1 (late w l))

    -- When the deadline has passed after the first call, and a call past its deadline ends with
    -- DEADLINE_EXCEEDED, then Ensure makes twelve more calls, which all fail, since they have the same
    -- deadline, and it returns UNAVAILABLE.
    pub ensure-late :
        (w : World)
        → is_exceeded (rpc w).1.error_code ≡ true
        → Late (rpc w).0
        → ensure rpc w ≡ (calls 13 w, deadline_status)
    unfolding ensure retry_unavailable
    ensure-late w h l =
        rw
          (
            retry_exceeded-late 10 (rpc w).0 l (rpc w).1 h,
            late (calls 11 (rpc w).0) (late_calls 11 (rpc w).0 l),
          )
          refl
