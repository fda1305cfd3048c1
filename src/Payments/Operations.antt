-- ===== src/Payments/Operations.antt =====
-- The handlers of apps/api/internal/payments/repository.go over a store: TransitionState(Tx),
-- RecordCapture(Tx) and FinalizeGatewayCaptureTx. The unique indexes of the two tables are the
-- guards before the writes; the audit log is the list of what writePaymentAudit is given.
use lapangan_go.Base.{
  Bool, true, false, not, ◌&&◌, ◌||◌, ◌∷◌, Option, none, some, ltb, ◌==◌, if◌then◌else◌, any, Text,
  text, text_eq, pos, leb_ℤ, Result, ok, err, ◌>>=◌, ◌>>◌, fail_if, find_first, update_where,
  is_some, truncate_us,
}
use lapangan_go.Payments.Types.{
  AttemptState, captured, PaymentError, invalid_capture, invalid_transition, attempt_not_found,
  booking_not_found, state_conflict, payment_integrity, capture_conflict, already_captured,
  PaymentAttempt, CaptureParams, PaymentCaptureFact, CaptureResult, BookingStatus, pending_payment,
  paid, BookingRow, Store,
}
use lapangan_go.Payments.Identity.{Unicode, valid}
use lapangan_go.Payments.Capture.{
  state_eq, allowed_state_transition, found, is_bounded_reference, is_lower_sha256,
  valid_optional_provider_identity, set_state, set_captured, has_attempt_id, has_booking_id,
  fact_of, same_capture, find_capture_by_attempt_or_provider_id, booking_expired,
  is_cancelled_booking, capture_disagrees, late_for_state, same_optional_string,
}

abbrev pub is_pending_payment : BookingStatus → Bool
is_pending_payment pending_payment = true
is_pending_payment _ = false

abbrev pub is_paid : BookingStatus → Bool
is_paid paid = true
is_paid _ = false

-- `params.CapturedAt.UTC().Truncate(time.Microsecond)` and the same for the other instant.
unfoldable pub canonical_times : CaptureParams → CaptureParams
canonical_times p = record p {
  captured_at = truncate_us p.captured_at;
  observed_at = truncate_us p.observed_at;
}

-- The row that uq_payment_attempt_booking_captured forbids.
abbrev pub captures_booking : Text → PaymentAttempt → Bool
captures_booking booking_id a = text_eq a.booking_id booking_id && state_eq a.state captured

-- The rows that the unique indexes on the provider's identifiers forbid.
abbrev pub takes_identity : PaymentAttempt → CaptureParams → PaymentAttempt → Bool
takes_identity attempt p a =
    not (text_eq a.id attempt.id)
    && text_eq a.provider attempt.provider
    && text_eq a.provider_environment attempt.provider_environment
    && ((is_some p.provider_payment_req_id
          && same_optional_string a.provider_payment_req_id p.provider_payment_req_id)
        || same_optional_string a.provider_payment_id (some p.provider_payment_id))

abbrev pub takes_request : CaptureParams → PaymentCaptureFact → Bool
takes_request p f =
    text_eq f.provider p.provider
    && text_eq f.provider_environment p.provider_environment
    && is_some p.provider_payment_req_id
    && same_optional_string f.provider_payment_req_id p.provider_payment_req_id

-- Is the capture late, and may it be written: the switch on the state, the UPDATE's own
-- condition, and the unique indexes.
unfoldable pub check_first_capture :
    CaptureParams → PaymentAttempt → BookingRow → Store → Result PaymentError Bool
check_first_capture p attempt booking st =
    late_for_state attempt.state
      (is_cancelled_booking booking.status || booking_expired booking.expires_at st.now)
    >>= λ late.
        fail_if (is_some attempt.captured_at) state_conflict
        >> fail_if (any (captures_booking attempt.booking_id) st.attempts) already_captured
        >> fail_if (any (takes_identity attempt p) st.attempts) capture_conflict
        >> fail_if (any (takes_request p) st.facts) capture_conflict
        >> ok late

-- The first capture of an attempt: the UPDATE, the INSERT and the audit.
unfoldable pub insert_capture :
    Text
    → CaptureParams
    → PaymentAttempt
    → BookingRow
    → Store
    → Result PaymentError (CaptureResult × Store)
insert_capture fact_id p attempt booking st = check_first_capture p attempt booking st >>= λ late.
    ok (
      record {
        attempt = set_captured p st.now attempt;
        fact = fact_of fact_id st.now attempt.id p;
        duplicate = false;
        late_capture = late;
        booking_paid = false;
      },
      record st {
        attempts = update_where (has_attempt_id attempt.id) (set_captured p st.now) st.attempts;
        facts = fact_of fact_id st.now attempt.id p ∷ st.facts;
        audits =
            record {
              entity_id = attempt.id;
              from_state = attempt.state;
              to_state = captured;
              late_capture = late;
            }
            ∷ st.audits;
      },
    )

-- A fact is stored already.
unfoldable pub replay_capture :
    CaptureParams
    → PaymentAttempt
    → PaymentCaptureFact
    → Store
    → Result PaymentError (CaptureResult × Store)
replay_capture p attempt f st =
    fail_if (not (text_eq f.payment_attempt_id p.attempt_id) || not (same_capture f p))
      capture_conflict
    >> fail_if (not (state_eq attempt.state captured) || not (is_some attempt.captured_at))
        payment_integrity
    >> ok (
      record {
        attempt = attempt;
        fact = f;
        duplicate = true;
        late_capture = false;
        booking_paid = false;
      },
      st,
    )

unfoldable pub write_capture :
    Text
    → CaptureParams
    → PaymentAttempt
    → BookingRow
    → Store
    → Option PaymentCaptureFact
    → Result PaymentError (CaptureResult × Store)
write_capture fact_id p attempt booking st none = insert_capture fact_id p attempt booking st
write_capture fact_id p attempt booking st (some f) = replay_capture p attempt f st

-- The reads and the comparisons before the write.
unfoldable pub capture_in :
    Text → CaptureParams → Text → Store → Result PaymentError (CaptureResult × Store)
capture_in fact_id p attempt_id st =
    found attempt_not_found (find_first (has_attempt_id attempt_id) st.attempts) >>= λ attempt.
    found payment_integrity (find_first (has_booking_id attempt.booking_id) st.bookings)
    >>= λ booking.
        fail_if (capture_disagrees attempt p) capture_conflict
        >> (find_capture_by_attempt_or_provider_id attempt_id p st.facts
            >>= write_capture fact_id p attempt booking st)

-- The second half of FinalizeGatewayCaptureTx.
unfoldable pub pay_booking :
    CaptureResult
    → Store
    → Option BookingRow
    → Option BookingRow
    → Result PaymentError (CaptureResult × Store)
pay_booking r st (some pending_row) _ = ok (
  record r { booking_paid = true },
  record st {
    bookings =
        update_where (λ b. has_booking_id r.attempt.booking_id b && is_pending_payment b.status)
          (λ b. record b { status = paid; updated_at = st.now }) st.bookings;
  },
)
pay_booking r st none none = err booking_not_found
pay_booking r st none (some b) =
    if is_paid b.status && r.duplicate then ok (r, st) else err state_conflict

unfoldable pub settle_booking : CaptureResult → Store → Result PaymentError (CaptureResult × Store)
settle_booking r st =
    if r.late_capture
    then ok (r, st)
    else pay_booking r st
        (find_first (λ b. has_booking_id r.attempt.booking_id b && is_pending_payment b.status)
          st.bookings)
        (find_first (has_booking_id r.attempt.booking_id) st.bookings)

-- The conditions of validateCaptureParams, less the one on the attempt's identifier.
unfoldable pub is_bad_capture : Unicode → CaptureParams → Bool
is_bad_capture u p =
    not (text_eq p.provider (text "XENDIT"))
    || not (text_eq p.provider_environment (text "TEST"))
    || not (text_eq p.currency (text "IDR"))
    || leb_ℤ p.amount_rupiah (pos 0)
    || not (valid u p.provider_payment_id true)
    || not (valid_optional_provider_identity u p.provider_payment_req_id)
    || (not (text_eq p.authority (text "VERIFIED_WEBHOOK"))
        && not (text_eq p.authority (text "AUTHENTICATED_INQUIRY")))
    || not (is_bounded_reference p.source_reference 191)
    || not (is_lower_sha256 p.payload_hash)
    || (p.captured_at == 0)
    || (p.observed_at == 0)
    || ltb p.observed_at p.captured_at

module _ (u : Unicode) (parse_uuid : Text → Option Text) where
  unfoldable pub validate_capture_params : CaptureParams → Result PaymentError Text
  validate_capture_params p = found invalid_capture (parse_uuid p.attempt_id) >>= λ id.
      fail_if (is_bad_capture u p) invalid_capture >> ok id

  -- `fact_id` is the identity that the database draws.
  unfoldable pub record_capture_tx :
      Text → CaptureParams → Option Store → Result PaymentError (CaptureResult × Store)
  record_capture_tx fact_id p none = err payment_integrity
  record_capture_tx fact_id p (some st) =
      validate_capture_params p >>= λ id. capture_in fact_id (canonical_times p) id st

  -- In a transaction of its own.
  unfoldable pub record_capture :
      Text → CaptureParams → Store → Result PaymentError (CaptureResult × Store)
  record_capture fact_id p st =
      validate_capture_params p >>= λ _. record_capture_tx fact_id (canonical_times p) (some st)

  unfoldable pub finalize_gateway_capture_tx :
      Text → CaptureParams → Option Store → Result PaymentError (CaptureResult × Store)
  finalize_gateway_capture_tx fact_id p tx =
      record_capture_tx fact_id p tx >>= λ done. settle_booking done.0 done.1

module _ (parse_uuid : Text → Option Text) where
  unfoldable pub transition_state_tx :
      Text
      → AttemptState
      → AttemptState
      → Option Store
      → Result PaymentError (PaymentAttempt × Store)
  transition_state_tx id expected next none = err payment_integrity
  transition_state_tx id expected next (some st) =
      found attempt_not_found (parse_uuid id) >>= λ canonical.
      fail_if (not (allowed_state_transition expected next)) invalid_transition
      >> (found attempt_not_found (find_first (has_attempt_id canonical) st.attempts) >>= λ attempt.
          fail_if (not (state_eq attempt.state expected)) state_conflict
          >> ok (
            set_state next st.now attempt,
            record st {
              attempts =
                  update_where (has_attempt_id canonical) (set_state next st.now) st.attempts;
              audits =
                  record {
                    entity_id = attempt.id;
                    from_state = expected;
                    to_state = next;
                    late_capture = false;
                  }
                  ∷ st.audits;
            },
          ))

  -- TransitionState: the same tests, and then the transition in a transaction of its own.
  unfoldable pub transition_state :
      Text → AttemptState → AttemptState → Store → Result PaymentError (PaymentAttempt × Store)
  transition_state id expected next st = found attempt_not_found (parse_uuid id) >>= λ _.
      fail_if (not (allowed_state_transition expected next)) invalid_transition
      >> transition_state_tx id expected next (some st)
