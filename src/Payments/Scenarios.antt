-- ===== src/Payments/Scenarios.antt =====
-- Runs of the payment handlers on a store with one booking and one attempt.
use lapangan_go.Base.{
  ◌≡◌, ◌≢◌, refl, ◌∙◌, Bool, true, false, Option, none, some, [], ◌∷◌, List, ok, err, pos, text,
  Text, if◌then◌else◌, ◌&&◌, leb, Result, find_first,
}
use lapangan_go.Base
use lapangan_go.Payments.Types.{
  pending, captured, expired, PaymentAttempt, CaptureParams, CaptureResult, PaymentCaptureFact,
  BookingRow, Store, pending_payment, paid,
}
use lapangan_go.Payments.Identity
use lapangan_go.Payments.Identity.{Unicode, is_canonical_uuid}
use lapangan_go.Payments.Capture
use lapangan_go.Payments.Capture.{has_attempt_id, has_booking_id}
use lapangan_go.Payments.Operations
use lapangan_go.Payments.Operations.{
  record_capture_tx, finalize_gateway_capture_tx, transition_state_tx, pay_booking, settle_booking,
}
use lapangan_go.Payments.Replay.{again, record_capture_tx-replay}
use lapangan_go.Payments.Finalize.{
  IsSettled, IsReplayed, finalize_gateway_capture_tx-IsSettled,
  finalize_gateway_capture_tx-late_replay,
}
use lapangan_go.Payments.Transition.{is_final, transition_state_tx-keeps_final}

-- The ASCII part of the tables of package unicode.
abbrev ascii : Unicode
ascii = record {
  is_print = λ c. leb 32 c && leb c 126;
  is_letter = λ c. leb 97 c && leb c 122;
  to_lower = λ c. c;
}

abbrev parse : Text → Option Text
parse s = if is_canonical_uuid s then some s else none

abbrev attempt_id : Text
attempt_id = text "0b6d5f2e-1c3a-4d5e-8f90-a1b2c3d4e5f6"

abbrev attempt : PaymentAttempt
attempt = record {
  id = attempt_id;
  booking_id = text "b1";
  attempt_no = 1;
  provider = text "XENDIT";
  provider_environment = text "TEST";
  state = pending;
  currency = text "IDR";
  amount_rupiah = pos 150000;
  provider_session_id = none;
  provider_payment_req_id = none;
  provider_payment_id = none;
  provider_status_code = none;
  expires_at = 9000;
  captured_at = none;
  created_at = 1000;
  updated_at = 1000;
}

abbrev booking : BookingRow
booking = record {
  id = text "b1";
  status = pending_payment;
  expires_at = some 9000;
  updated_at = 1000;
}

abbrev store : Store
store = record {
  attempts = attempt ∷ [];
  facts = [];
  bookings = booking ∷ [];
  audits = [];
  now = 5000;
}

-- The booking has expired and no sweep has cancelled it yet.
abbrev late_store : Store
late_store = record store { now = 10000 }

abbrev capture : CaptureParams
capture = record {
  attempt_id = attempt_id;
  provider = text "XENDIT";
  provider_environment = text "TEST";
  provider_payment_id = text "py-abc";
  provider_payment_req_id = some (text "pr-abc");
  amount_rupiah = pos 150000;
  currency = text "IDR";
  captured_at = 4000;
  observed_at = 5000;
  authority = text "VERIFIED_WEBHOOK";
  source_reference = text "evt";
  payload_hash = text "0000000000000000000000000000000000000000000000000000000000000000";
}

abbrev first_attempt : PaymentAttempt
first_attempt = record attempt {
  state = captured;
  captured_at = some 4000;
  provider_payment_id = some (text "py-abc");
  provider_payment_req_id = some (text "pr-abc");
  provider_status_code = some (text "CAPTURED");
  updated_at = 10000;
}

abbrev first_fact : PaymentCaptureFact
first_fact = record {
  id = text "f1";
  payment_attempt_id = attempt_id;
  provider = text "XENDIT";
  provider_environment = text "TEST";
  provider_payment_id = text "py-abc";
  provider_payment_req_id = some (text "pr-abc");
  amount_rupiah = pos 150000;
  currency = text "IDR";
  captured_at = 4000;
  observed_at = 5000;
  authority = text "VERIFIED_WEBHOOK";
  source_reference = text "evt";
  payload_hash = text "0000000000000000000000000000000000000000000000000000000000000000";
  created_at = 10000;
}

-- What the capture leaves in the store of the expired booking.
abbrev late_result : CaptureResult × Store
late_result = (
  record {
    attempt = first_attempt;
    fact = first_fact;
    duplicate = false;
    late_capture = true;
    booking_paid = false;
  },
  record late_store {
    attempts = first_attempt ∷ [];
    facts = first_fact ∷ [];
    audits =
        record {
          entity_id = attempt_id;
          from_state = pending;
          to_state = captured;
          late_capture = true;
        }
        ∷ [];
  },
)

late_capture_run :
    record_capture_tx ascii parse (text "f1") capture (some late_store) ≡ ok late_result
unfolding record_capture_tx Operations.validate_capture_params is_canonical_uuid
    Operations.is_bad_capture Base.text_eq Identity.valid Identity.valid_non_empty Base.trim_space
    Base.has_prefix Identity.split_prefix Identity.has_known_shape Capture.is_bounded_reference
    Capture.is_lower_sha256 Operations.capture_in Capture.capture_disagrees
    Operations.canonical_times Capture.find_capture_by_attempt_or_provider_id
    Operations.write_capture Base.trim_left Base.trim_right Capture.fact_of Capture.late_for_state
    Capture.same_capture Capture.same_optional_string Capture.set_captured
    Operations.check_first_capture Operations.insert_capture Operations.replay_capture
late_capture_run = refl

late_run :
    finalize_gateway_capture_tx ascii parse (text "f1") capture (some late_store) ≡ ok late_result
unfolding finalize_gateway_capture_tx settle_booking
late_run = rw late_capture_run refl

attempt_id_canonical : parse attempt_id ≡ some attempt_id
unfolding is_canonical_uuid
attempt_id_canonical = refl

record_capture_tx-replay_example :
    record_capture_tx ascii parse (text "f2") capture (some late_result.1)
    ≡ ok (again late_result.0, late_result.1)
record_capture_tx-replay_example =
    record_capture_tx-replay ascii parse (text "f1") (text "f2") capture late_store late_result
      attempt_id_canonical late_capture_run

finalize_gateway_capture_tx-IsSettled_example :
    (r : CaptureResult × Store) × (record_capture_tx ascii parse
        (text "f1")
        capture
        (some late_store)
      ≡ ok r)
    × (late_result.0 ≡ record r.0 { booking_paid = false })
    × (late_result.1 ≡ record r.1 { bookings = booking ∷ [] })
    × IsSettled (booking ∷ []) 10000 late_result.0 (booking ∷ [])
finalize_gateway_capture_tx-IsSettled_example =
    finalize_gateway_capture_tx-IsSettled ascii parse (text "f1") capture late_store late_result
      late_run

finalize_gateway_capture_tx-late_replay_example :
    IsReplayed late_result.0 late_result.1
      (finalize_gateway_capture_tx ascii parse (text "f2") capture (some late_result.1))
finalize_gateway_capture_tx-late_replay_example =
    finalize_gateway_capture_tx-late_replay ascii parse (text "f1") (text "f2") capture late_store
      late_result attempt_id_canonical late_run refl

-- The second delivery pays the expired booking.
late_replay_pays :
    finalize_gateway_capture_tx ascii parse (text "f2") capture (some late_result.1)
    ≡ ok (
      record (again late_result.0) { booking_paid = true },
      record late_result.1 { bookings = record booking { status = paid; updated_at = 10000 } ∷ [] },
    )
unfolding finalize_gateway_capture_tx settle_booking pay_booking Base.text_eq
late_replay_pays = rw record_capture_tx-replay_example refl

-- A pending attempt expires.
abbrev expired_result : PaymentAttempt × Store
expired_result = (
  record attempt { state = expired; updated_at = 5000 },
  record store {
    attempts = record attempt { state = expired; updated_at = 5000 } ∷ [];
    audits =
        record {
          entity_id = attempt_id;
          from_state = pending;
          to_state = expired;
          late_capture = false;
        }
        ∷ [];
  },
)

expired_run : transition_state_tx parse attempt_id pending expired (some store) ≡ ok expired_result
unfolding transition_state_tx is_canonical_uuid Base.text_eq Capture.allowed_state_transition
    Capture.set_state
expired_run = refl

transition_state_tx-keeps_final_example :
    (expired_result.0.state ≢ captured)
    × ((other : Text) (b : PaymentAttempt)
        → find_first (has_attempt_id other) store.attempts ≡ some b
        → is_final b.state ≡ true
        → find_first (has_attempt_id other) expired_result.1.attempts ≡ some b)
    × (store.facts ≡ expired_result.1.facts)
    × (store.bookings ≡ expired_result.1.bookings)
transition_state_tx-keeps_final_example =
    transition_state_tx-keeps_final parse attempt_id pending expired store expired_result
      expired_run
