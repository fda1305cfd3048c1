-- ===== src/Payments/Runs.antt =====
-- Successful runs of RecordCaptureTx of apps/api/internal/payments/repository.go, taken apart
-- into their reads and their writes.
use lapangan_go.Base.{
  ◌||◌, ◌≢◌, ◌≡◌, refl, ap, subst, Bool, true, false, ◌∷◌, Option, none, some, Text, text_eq_refl,
  ok, bind_ok, ok-injective, err-ne-ok, fail_if, fail_if-eq-ok, find_first, update_where,
}
use lapangan_go.Payments.Types.{
  PaymentError, PaymentAttempt, CaptureParams, PaymentCaptureFact, CaptureResult, BookingRow, Store,
  captured, attempt_not_found, payment_integrity, capture_conflict, AttemptState, created, pending,
  failed, expired, cancelled,
}
use lapangan_go.Payments.Capture.{
  found, has_attempt_id, has_booking_id, same_optional_string, capture_disagrees, set_captured,
  fact_of, find_capture_by_attempt_or_provider_id, late_for_state, is_cancelled_booking,
  booking_expired,
}
use lapangan_go.Payments.Operations.{capture_in, write_capture, insert_capture, check_first_capture}

pub found-eq-ok :
    {A : Type 0} (e : PaymentError) (o : Option A) {a : A} → found e o ≡ ok a → o ≡ some a
found-eq-ok e none h = absurd (err-ne-ok h)
found-eq-ok e (some b) h = ap some (ok-injective h)

pub same_optional_string_refl : (s : Option Text) → same_optional_string s s ≡ true
unfolding same_optional_string
same_optional_string_refl none = refl
same_optional_string_refl (some s) = text_eq_refl s

-- The reads of a successful run.
pub record IsCaptureRun (fact_id : Text) (p : CaptureParams) (id : Text) (st : Store)
    (r : CaptureResult × Store) : Type 0 where
  pub attempt : PaymentAttempt
  pub booking : BookingRow
  pub existing : Option PaymentCaptureFact
  pub attempt_read : find_first (has_attempt_id id) st.attempts ≡ some attempt
  pub booking_read : find_first (has_booking_id attempt.booking_id) st.bookings ≡ some booking
  pub agrees : capture_disagrees attempt p ≡ false
  pub fact_read : find_capture_by_attempt_or_provider_id id p st.facts ≡ ok existing
  pub written : write_capture fact_id p attempt booking st existing ≡ ok r

pub capture_in-IsCaptureRun :
    (fact_id : Text) (p : CaptureParams) (id : Text) (st : Store) (r : CaptureResult × Store)
    → capture_in fact_id p id st ≡ ok r
    → IsCaptureRun fact_id p id st r
unfolding capture_in
capture_in-IsCaptureRun fact_id p id st r h =
    bind_ok (found attempt_not_found (find_first (has_attempt_id id) st.attempts)) h
      λ attempt h₀ k₀.
        bind_ok
          (found payment_integrity (find_first (has_booking_id attempt.booking_id) st.bookings)) k₀
          λ booking h₁ k₁.
            bind_ok (fail_if (capture_disagrees attempt p) capture_conflict) k₁ λ _ h₂ k₂.
              bind_ok (find_capture_by_attempt_or_provider_id id p st.facts) k₂ λ existing h₃ k₃.
                record {
                  attempt = attempt;
                  booking = booking;
                  existing = existing;
                  attempt_read = found-eq-ok _ _ h₀;
                  booking_read = found-eq-ok _ _ h₁;
                  agrees = fail_if-eq-ok _ _ h₂;
                  fact_read = h₃;
                  written = k₃;
                }

-- The same reads give the same run: the converse.
pub capture_in-of-run :
    (fact_id : Text) (p : CaptureParams) (id : Text) (st : Store) (r : CaptureResult × Store)
    → IsCaptureRun fact_id p id st r
    → capture_in fact_id p id st ≡ ok r
unfolding capture_in
capture_in-of-run fact_id p id st r run =
    rw (run.attempt_read, run.booking_read, run.agrees, run.fact_read) run.written

-- What a first capture stores.
pub record IsFirstCapture (fact_id : Text) (p : CaptureParams) (a : PaymentAttempt) (st : Store)
    (r : CaptureResult × Store) : Type 0 where
  pub attempt : r.0.attempt ≡ set_captured p st.now a
  pub fact : r.0.fact ≡ fact_of fact_id st.now a.id p
  pub duplicate : r.0.duplicate ≡ false
  pub booking_paid : r.0.booking_paid ≡ false
  pub attempts :
      r.1.attempts ≡ update_where (has_attempt_id a.id) (set_captured p st.now) st.attempts
  pub facts : r.1.facts ≡ fact_of fact_id st.now a.id p ∷ st.facts
  pub bookings : r.1.bookings ≡ st.bookings
  pub now : r.1.now ≡ st.now
  pub was_open : a.state ≢ captured

late_for_state-open :
    (s : AttemptState) (b late : Bool) → late_for_state s b ≡ ok late → s ≢ captured
unfolding late_for_state
late_for_state-open captured b late h = λ _. absurd (err-ne-ok h)
late_for_state-open created b late h = λ q. cc
late_for_state-open pending b late h = λ q. cc
late_for_state-open failed b late h = λ q. cc
late_for_state-open expired b late h = λ q. cc
late_for_state-open cancelled b late h = λ q. cc

pub check_first_capture-open :
    (p : CaptureParams) (a : PaymentAttempt) (b : BookingRow) (st : Store) (late : Bool)
    → check_first_capture p a b st ≡ ok late
    → a.state ≢ captured
unfolding check_first_capture
check_first_capture-open p a b st late h =
    bind_ok
      (late_for_state a.state
        (is_cancelled_booking b.status || booking_expired b.expires_at st.now))
      h λ l h₀ _. late_for_state-open a.state _ l h₀

pub insert_capture-IsFirstCapture :
    (fact_id : Text) (p : CaptureParams) (a : PaymentAttempt) (b : BookingRow) (st : Store)
    (r : CaptureResult × Store)
    → insert_capture fact_id p a b st ≡ ok r
    → IsFirstCapture fact_id p a st r
unfolding insert_capture
insert_capture-IsFirstCapture fact_id p a b st r h =
    bind_ok (check_first_capture p a b st) h λ late h₀ k₀.
      subst (IsFirstCapture fact_id p a st) (ok-injective k₀) (record {
        attempt = refl;
        fact = refl;
        duplicate = refl;
        booking_paid = refl;
        attempts = refl;
        facts = refl;
        bookings = refl;
        now = refl;
        was_open = check_first_capture-open p a b st late h₀;
      })
