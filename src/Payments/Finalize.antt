-- ===== src/Payments/Finalize.antt =====
-- What FinalizeGatewayCaptureTx of apps/api/internal/payments/repository.go does to the booking.
use lapangan_go.Base.{
  ℕ, ◌≡◌, ◌≢◌, refl, sym, ap, subst, ◌∙◌, inl, inr, true, false, ◌&&◌, List, Option, none, some,
  Text, Result, ok, err, All, bind_ok, ok-injective, err-ne-ok, find_first, true-ne-false, if-eq-ok,
  if-eq-ok-cases, both-true, Bool-cases,
}
use mathlib.Core.List.{Forall₂}
use lapangan_go.Payments.Types.{
  PaymentError, CaptureParams, CaptureResult, BookingRow, Store, BookingStatus, paid,
  state_conflict,
}
use lapangan_go.Payments.Capture.{has_booking_id}
use lapangan_go.Payments.Identity.{Unicode}
use lapangan_go.Payments.Operations.{
  record_capture_tx, settle_booking, pay_booking, finalize_gateway_capture_tx, is_paid,
}
use lapangan_go.Payments.Captured.{record_capture_tx-IsCaptured}
use lapangan_go.Payments.Bookings.{
  Awaits, Settles, HasRow, awaits_payment, is_paid→eq, update_where-Settles, awaits_payment-HasRow,
  has_booking_id-HasRow, find_first-awaits_payment-none,
}
use lapangan_go.Payments.Replay.{again, record_capture_tx-replay}

-- What may have become of the bookings, between the store before and the store after.
pub data IsSettled (rows : List BookingRow) (now : ℕ) (r : CaptureResult) (rows' : List BookingRow)
    : Type 0 where
  left_alone :
      r.late_capture ≡ true → r.booking_paid ≡ false → rows' ≡ rows → IsSettled rows now r rows'
  became_paid :
      r.late_capture ≡ false
      → r.booking_paid ≡ true
      → HasRow (Awaits r.attempt.booking_id) rows
      → Forall₂ (Settles r.attempt.booking_id now) rows rows'
      → IsSettled rows now r rows'
  was_paid :
      r.late_capture ≡ false
      → r.duplicate ≡ true
      → r.booking_paid ≡ false
      → HasRow (λ b. (b.id ≡ r.attempt.booking_id) × (b.status ≡ paid)) rows
      → rows' ≡ rows
      → IsSettled rows now r rows'

-- An answer and a store that differ from those of the capture in the booking alone.
abbrev pub IsEnd : CaptureResult × Store → CaptureResult × Store → Type 0
IsEnd r s =
    (s.0 ≡ record r.0 { booking_paid = s.0.booking_paid })
    × (s.1 ≡ record r.1 { bookings = s.1.bookings })
    × IsSettled r.1.bookings r.1.now s.0 s.1.bookings

pay_booking-IsEnd :
    (r : CaptureResult) (st : Store) (o o' : Option BookingRow) (s : CaptureResult × Store)
    → r.late_capture ≡ false
    → r.booking_paid ≡ false
    → find_first (awaits_payment r.attempt.booking_id) st.bookings ≡ o
    → find_first (has_booking_id r.attempt.booking_id) st.bookings ≡ o'
    → pay_booking r st o o' ≡ ok s
    → IsEnd (r, st) s
unfolding pay_booking
pay_booking-IsEnd r st (some b) o' s soon unpaid h₀ h₁ k = subst (IsEnd (r, st)) (ok-injective k) (
  refl,
  refl,
  became_paid soon refl (awaits_payment-HasRow r.attempt.booking_id st.bookings b h₀)
      (update_where-Settles r.attempt.booking_id st.now st.bookings),
)
pay_booking-IsEnd r st none none s soon unpaid h₀ h₁ k = absurd (err-ne-ok k)
pay_booking-IsEnd r st none (some b) s soon unpaid h₀ h₁ k =
    let (c, e) = if-eq-ok (is_paid b.status && r.duplicate) (r, st) state_conflict k in
    let (c₀, c₁) = both-true (is_paid b.status) r.duplicate c in
    let found =
      has_booking_id-HasRow r.attempt.booking_id st.bookings b (λ t. t ≡ paid) h₁
        (is_paid→eq b.status c₀) in
    subst (IsEnd (r, st)) e (refl, refl, was_paid soon c₁ unpaid found refl)

settle_booking-IsEnd :
    (r s : CaptureResult × Store)
    → r.0.booking_paid ≡ false
    → settle_booking r.0 r.1 ≡ ok s
    → IsEnd r s
unfolding settle_booking
settle_booking-IsEnd (r, st) s unpaid h =
    elim (if-eq-ok-cases r.late_capture (ok (r, st))
      (pay_booking r st (find_first (awaits_payment r.attempt.booking_id) st.bookings)
        (find_first (has_booking_id r.attempt.booking_id) st.bookings))
      h) [
        | inl (late, k) ↦
            subst (IsEnd (r, st)) (ok-injective k) (refl, refl, left_alone late unpaid refl)
        | inr (soon, k) ↦ pay_booking-IsEnd r st _ _ s soon unpaid refl refl k
      ]

-- A late answer is the answer of the capture itself.
settle_booking-late :
    (r s : CaptureResult × Store)
    → r.0.booking_paid ≡ false
    → settle_booking r.0 r.1 ≡ ok s
    → s.0.late_capture ≡ true
    → r ≡ s
unfolding settle_booking
settle_booking-late (r, st) s unpaid h late =
    let same = ap (λ t. t.late_capture) (settle_booking-IsEnd (r, st) s unpaid h).0 in
    let e : r.late_capture ≡ true = sym same ∙ late in ok-injective (sym (rw e refl) ∙ h)

-- What the second finalisation of a capture answers, by the bookings that it finds.
pub data IsReplayed (r : CaptureResult) (st : Store)
    : Result PaymentError (CaptureResult × Store) → Type 0 where
  becomes_paid :
      (rows : List BookingRow)
      → HasRow (Awaits r.attempt.booking_id) st.bookings
      → Forall₂ (Settles r.attempt.booking_id st.now) st.bookings rows
      → IsReplayed r st (
          ok (
            record r { duplicate = true; late_capture = false; booking_paid = true },
            record st { bookings = rows },
          ))
  stays_paid :
      All (λ b. ¬ Awaits r.attempt.booking_id b) st.bookings
      → HasRow (λ b. (b.id ≡ r.attempt.booking_id) × (b.status ≡ paid)) st.bookings
      → IsReplayed r st
          (ok (record r { duplicate = true; late_capture = false; booking_paid = false }, st))
  is_refused :
      All (λ b. ¬ Awaits r.attempt.booking_id b) st.bookings
      → HasRow (λ b. (b.id ≡ r.attempt.booking_id) × (b.status ≢ paid)) st.bookings
      → IsReplayed r st (err state_conflict)

pay_booking-IsReplayed :
    (r : CaptureResult) (st : Store) (o : Option BookingRow) (b : BookingRow)
    → find_first (awaits_payment r.attempt.booking_id) st.bookings ≡ o
    → find_first (has_booking_id r.attempt.booking_id) st.bookings ≡ some b
    → IsReplayed r st (pay_booking (again r) st o (some b))
unfolding pay_booking
pay_booking-IsReplayed r st (some a) b h₀ h₁ =
    becomes_paid _ (awaits_payment-HasRow r.attempt.booking_id st.bookings a h₀)
      (update_where-Settles r.attempt.booking_id st.now st.bookings)
pay_booking-IsReplayed r st none b h₀ h₁ =
    let nothing = find_first-awaits_payment-none r.attempt.booking_id st.bookings h₀ in
    let found = λ (P : BookingStatus → Type 0).
      has_booking_id-HasRow r.attempt.booking_id st.bookings b P h₁ in
    elim (Bool-cases (is_paid b.status)) [
      | inl e ↦ rw e (stays_paid nothing (found (λ t. t ≡ paid) (is_paid→eq b.status e)))
      | inr e ↦
          rw e (
            is_refused nothing
              (found (λ t. t ≢ paid) (λ q. true-ne-false (sym (ap is_paid q) ∙ e))))
    ]

module _ (u : Unicode) (parse_uuid : Text → Option Text) where
  -- A successful finalisation is a recorded capture whose answer and store it changes in the
  -- booking alone, with one of three ends for the bookings, from the store before it to the store
  -- after it. A late capture leaves every booking as it was before the capture. Or a booking of the
  -- attempt was PENDING_PAYMENT: it becomes PAID, the answer says so, and every other row stays as it
  -- was. Or the capture came again: the booking was PAID already, and every row stays as it was.
  pub finalize_gateway_capture_tx-IsSettled :
      (fact_id : Text) (p : CaptureParams) (st : Store) (s : CaptureResult × Store)
      → finalize_gateway_capture_tx u parse_uuid fact_id p (some st) ≡ ok s
      → (r : CaptureResult × Store) × (record_capture_tx u parse_uuid fact_id p (some st) ≡ ok r)
        × (s.0 ≡ record r.0 { booking_paid = s.0.booking_paid })
        × (s.1 ≡ record r.1 { bookings = s.1.bookings })
        × IsSettled st.bookings st.now s.0 s.1.bookings
  unfolding finalize_gateway_capture_tx
  finalize_gateway_capture_tx-IsSettled fact_id p st s h =
      bind_ok (record_capture_tx u parse_uuid fact_id p (some st)) h λ r h₀ k₀.
        let captured = record_capture_tx-IsCaptured u parse_uuid fact_id p st r h₀ in
        let (answer, store, settled) = settle_booking-IsEnd r s captured.unpaid k₀ in
        (
          r,
          h₀,
          answer,
          store,
          subst (λ rows. IsSettled rows st.now s.0 s.1.bookings) captured.bookings
              (subst (λ now. IsSettled r.1.bookings now s.0 s.1.bookings) captured.now settled),
        )

  -- A late capture that comes again, under an identifier in canonical spelling, is no longer taken
  -- for late, and the second finalisation goes on to the booking that the first one left alone. If
  -- a booking of the attempt is PENDING_PAYMENT, it becomes PAID, no other row changes, and the
  -- answer says that the booking was paid. If none is and the booking is PAID, the answer is a
  -- duplicate and the store stays as it is. If it has another status, the answer is a state
  -- conflict.
  pub finalize_gateway_capture_tx-late_replay :
      (fact_id other : Text) (p : CaptureParams) (st : Store) (s : CaptureResult × Store)
      → parse_uuid p.attempt_id ≡ some p.attempt_id
      → finalize_gateway_capture_tx u parse_uuid fact_id p (some st) ≡ ok s
      → s.0.late_capture ≡ true
      → IsReplayed s.0 s.1 (finalize_gateway_capture_tx u parse_uuid other p (some s.1))
  unfolding finalize_gateway_capture_tx settle_booking
  finalize_gateway_capture_tx-late_replay fact_id other p st s canonical h late =
      bind_ok (record_capture_tx u parse_uuid fact_id p (some st)) h λ r h₀ k₀.
        let unpaid = (record_capture_tx-IsCaptured u parse_uuid fact_id p st r h₀).unpaid in
        let first =
          subst (λ t. record_capture_tx u parse_uuid fact_id p (some st) ≡ ok t)
            (settle_booking-late r s unpaid k₀ late) h₀ in
        let captured = record_capture_tx-IsCaptured u parse_uuid fact_id p st s first in
        let waiting = find_first (awaits_payment s.0.attempt.booking_id) s.1.bookings in
        let found =
          ap (find_first (has_booking_id s.0.attempt.booking_id)) captured.bookings
          ∙ captured.booking_read in
        rw (record_capture_tx-replay u parse_uuid fact_id other p st s canonical first) (
          subst (λ o. IsReplayed s.0 s.1 (pay_booking (again s.0) s.1 waiting o)) (sym found)
            (pay_booking-IsReplayed s.0 s.1 waiting captured.booking refl found))
