-- ===== src/Payments/Captured.antt =====
-- What RecordCaptureTx of apps/api/internal/payments/repository.go leaves of the bookings.
use lapangan_go.Base.{◌≡◌, refl, subst, false, Option, none, some, Text, ok, bind_ok, find_first}
use lapangan_go.Payments.Types.{CaptureParams, CaptureResult, PaymentCaptureFact, BookingRow, Store}
use lapangan_go.Payments.Capture.{has_booking_id}
use lapangan_go.Payments.Identity.{Unicode}
use lapangan_go.Payments.Operations.{
  write_capture, validate_capture_params, canonical_times, record_capture_tx,
}
use lapangan_go.Payments.Runs.{IsCaptureRun, capture_in-IsCaptureRun, insert_capture-IsFirstCapture}
use lapangan_go.Payments.Replay.{replay_capture-stored, booking_id-set_captured}

-- The recording of a capture, which reads a booking and writes none.
pub record IsCaptured (st : Store) (r : CaptureResult × Store) : Type 0 where
  pub bookings : r.1.bookings ≡ st.bookings
  pub now : r.1.now ≡ st.now
  pub unpaid : r.0.booking_paid ≡ false
  pub booking : BookingRow
  pub booking_read : find_first (has_booking_id r.0.attempt.booking_id) st.bookings ≡ some booking

capture_in-IsCaptured :
    (fact_id : Text) (p : CaptureParams) (id : Text) (st : Store) (r : CaptureResult × Store)
    → IsCaptureRun fact_id p id st r
    → IsCaptured st r
unfolding write_capture
capture_in-IsCaptured fact_id p id st r run = by_case run.existing run.written
  where
    by_case :
        (existing : Option PaymentCaptureFact)
        → write_capture fact_id p run.attempt run.booking st existing ≡ ok r
        → IsCaptured st r
    by_case (some f) k =
        subst (IsCaptured st) (replay_capture-stored p run.attempt f st r k) (record {
          bookings = refl;
          now = refl;
          unpaid = refl;
          booking = run.booking;
          booking_read = run.booking_read;
        })
    by_case none k =
        let first = insert_capture-IsFirstCapture fact_id p run.attempt run.booking st r k in
        record {
          bookings = first.bookings;
          now = first.now;
          unpaid = first.booking_paid;
          booking = run.booking;
          booking_read =
              rw (first.attempt, booking_id-set_captured p st.now run.attempt) run.booking_read;
        }

pub record_capture_tx-IsCaptured :
    (u : Unicode) (parse_uuid : Text → Option Text) (fact_id : Text) (p : CaptureParams)
    (st : Store) (r : CaptureResult × Store)
    → record_capture_tx u parse_uuid fact_id p (some st) ≡ ok r
    → IsCaptured st r
unfolding record_capture_tx
record_capture_tx-IsCaptured u parse_uuid fact_id p st r h =
    bind_ok (validate_capture_params u parse_uuid p) h λ id _ k₀.
      capture_in-IsCaptured fact_id (canonical_times p) id st r
        (capture_in-IsCaptureRun fact_id (canonical_times p) id st r k₀)
