-- ===== src/Payments/Replay.antt =====
-- A capture that comes again: RecordCaptureTx of apps/api/internal/payments/repository.go.
use lapangan_go.Base.{
  some-injective, ℕ, is_some, ◌||◌, ◌≡◌, refl, sym, ap, subst, ◌∙◌, true, false, not, List, [], ◌∷◌,
  Option, none, some, Text, text_eq, text_eq_refl, text_eq→eq, eqb_ℤ_refl, ok, bind_ok,
  ok-injective, fail_if, find_first, find_first-test, find_first-update_where, update_where, arith,
  ◌>>◌,
}
use lapangan_go.Payments.Types.{
  PaymentAttempt, CaptureParams, PaymentCaptureFact, CaptureResult, BookingRow, Store, captured,
  invalid_capture, payment_integrity, capture_conflict,
}
use lapangan_go.Payments.Capture.{
  found, state_eq, has_attempt_id, has_booking_id, same_optional_string, capture_disagrees,
  set_captured, fact_of, same_capture, find_capture_by_attempt_or_provider_id, at_most_one,
}
use lapangan_go.Payments.Identity.{Unicode}
use lapangan_go.Payments.Operations.{
  capture_in, write_capture, replay_capture, record_capture_tx, validate_capture_params,
  is_bad_capture, canonical_times,
}
use lapangan_go.Payments.Runs.{
  found-eq-ok, same_optional_string_refl, IsCaptureRun, capture_in-IsCaptureRun, capture_in-of-run,
  IsFirstCapture, insert_capture-IsFirstCapture,
}

same_capture-fact_of :
    (fact_id : Text) (now : ℕ) (id : Text) (p : CaptureParams)
    → same_capture (fact_of fact_id now id p) p ≡ true
unfolding same_capture fact_of
same_capture-fact_of fact_id now id p = ground (
  arith,
  text_eq_refl p.provider,
  text_eq_refl p.provider_environment,
  text_eq_refl p.provider_payment_id,
  same_optional_string_refl p.provider_payment_req_id,
  eqb_ℤ_refl p.amount_rupiah,
  text_eq_refl p.currency,
)

capture_disagrees-set_captured :
    (p : CaptureParams) (now : ℕ) (a : PaymentAttempt)
    → capture_disagrees a p ≡ false
    → capture_disagrees (set_captured p now a) p ≡ false
unfolding capture_disagrees set_captured same_optional_string
capture_disagrees-set_captured p now a h =
    ground (
      arith,
      text_eq_refl p.provider_payment_id,
      same_optional_string_refl p.provider_payment_req_id,
    )

at_most_one-none : (fs : List PaymentCaptureFact) → at_most_one fs ≡ ok none → fs ≡ []
at_most_one-none [] h = refl
at_most_one-none (f ∷ []) h = cc
at_most_one-none (f ∷ g ∷ fs) h = cc

find_capture-fact_of :
    (fact_id : Text) (now : ℕ) (id : Text) (p : CaptureParams) (facts : List PaymentCaptureFact)
    → find_capture_by_attempt_or_provider_id id p facts ≡ ok none
    → find_capture_by_attempt_or_provider_id id p (fact_of fact_id now id p ∷ facts)
      ≡ ok (some (fact_of fact_id now id p))
unfolding find_capture_by_attempt_or_provider_id fact_of
find_capture-fact_of fact_id now id p facts h = rw (text_eq_refl id, at_most_one-none _ h) refl

-- The result of a run that found its capture stored.
abbrev pub again : CaptureResult → CaptureResult
again r = record r { duplicate = true; late_capture = false; booking_paid = false }

abbrev pub stored : PaymentAttempt → PaymentCaptureFact → CaptureResult
stored a f = record {
  attempt = a;
  fact = f;
  duplicate = true;
  late_capture = false;
  booking_paid = false;
}

pub replay_capture-stored :
    (p : CaptureParams) (a : PaymentAttempt) (f : PaymentCaptureFact) (st : Store)
    (r : CaptureResult × Store)
    → replay_capture p a f st ≡ ok r
    → (stored a f, st) ≡ r
unfolding replay_capture
replay_capture-stored p a f st r h =
    bind_ok
      (fail_if (not (text_eq f.payment_attempt_id p.attempt_id) || not (same_capture f p))
          capture_conflict
        >> fail_if (not (state_eq a.state captured) || not (is_some a.captured_at))
            payment_integrity)
      h λ _ _ k₀. ok-injective k₀

id-set_captured :
    (id : Text) (p : CaptureParams) (now : ℕ) (a : PaymentAttempt)
    → has_attempt_id id (set_captured p now a) ≡ has_attempt_id id a
unfolding set_captured
id-set_captured id p now a = refl

pub booking_id-set_captured :
    (p : CaptureParams) (now : ℕ) (a : PaymentAttempt)
    → (set_captured p now a).booking_id ≡ a.booking_id
unfolding set_captured
booking_id-set_captured p now a = refl

payment_attempt_id-fact_of :
    (fact_id : Text) (now : ℕ) (id : Text) (p : CaptureParams)
    → (fact_of fact_id now id p).payment_attempt_id ≡ id
unfolding fact_of
payment_attempt_id-fact_of fact_id now id p = refl

replay_capture-first :
    (fact_id : Text) (p : CaptureParams) (a : PaymentAttempt) (id : Text) (now : ℕ) (st : Store)
    → id ≡ p.attempt_id
    → replay_capture p (set_captured p now a) (fact_of fact_id now id p) st
      ≡ ok (stored (set_captured p now a) (fact_of fact_id now id p), st)
unfolding replay_capture set_captured
replay_capture-first fact_id p a id now st e =
    rw (same_capture-fact_of fact_id now id p, accepted_id) refl
  where
    accepted_id : text_eq (fact_of fact_id now id p).payment_attempt_id p.attempt_id ≡ true
    accepted_id = rw (payment_attempt_id-fact_of fact_id now id p, e) (text_eq_refl p.attempt_id)

abbrev pub IsReplay : Text → CaptureParams → Text → CaptureResult × Store → Type 0
IsReplay other p id r = capture_in other p id r.1 ≡ ok (again r.0, r.1)

module _ (fact_id other : Text) (p : CaptureParams) (id : Text) (st : Store)
    (r : CaptureResult × Store) (e : id ≡ p.attempt_id) where
  IsReplay-stored :
      (a : PaymentAttempt) (b : BookingRow) (f : PaymentCaptureFact)
      → find_first (has_attempt_id id) st.attempts ≡ some a
      → find_first (has_booking_id a.booking_id) st.bookings ≡ some b
      → capture_disagrees a p ≡ false
      → find_capture_by_attempt_or_provider_id id p st.facts ≡ ok (some f)
      → replay_capture p a f st ≡ ok r
      → IsReplay other p id r
  unfolding write_capture
  IsReplay-stored a b f h₀ h₁ h₂ h₃ h₄ =
      let q = replay_capture-stored p a f st r h₄ in
      subst (IsReplay other p id) q (
        capture_in-of-run other p id st (stored a f, st)
          (record {
            attempt = a;
            booking = b;
            existing = some f;
            attempt_read = h₀;
            booking_read = h₁;
            agrees = h₂;
            fact_read = h₃;
            written = subst (λ s. replay_capture p a f st ≡ ok s) (sym q) h₄;
          }))

  IsReplay-first :
      (a : PaymentAttempt) (b : BookingRow)
      → id ≡ a.id
      → find_first (has_attempt_id id) st.attempts ≡ some a
      → find_first (has_booking_id a.booking_id) st.bookings ≡ some b
      → capture_disagrees a p ≡ false
      → find_capture_by_attempt_or_provider_id id p st.facts ≡ ok none
      → IsFirstCapture fact_id p a st r
      → IsReplay other p id r
  unfolding write_capture
  IsReplay-first a b i h₀ h₁ h₂ h₃ first =
      capture_in-of-run other p id r.1 (again r.0, r.1)
        (record {
          attempt = set_captured p st.now a;
          booking = b;
          existing = some (fact_of fact_id st.now id p);
          attempt_read = rw first.attempts moved;
          booking_read = rw (first.bookings, booking_id-set_captured p st.now a) h₁;
          agrees = capture_disagrees-set_captured p st.now a h₂;
          fact_read =
              rw (first.facts, sym i) (find_capture-fact_of fact_id st.now id p st.facts h₃);
          written = replay_capture-first fact_id p a id st.now r.1 e ∙ ap (λ s. ok (s, r.1)) same;
        })
    where
      same : stored (set_captured p st.now a) (fact_of fact_id st.now id p) ≡ again r.0
      same = rw (first.attempt, first.fact, i) refl

      moved :
          find_first
            (has_attempt_id id)
            (update_where (has_attempt_id a.id) (set_captured p st.now) st.attempts)
          ≡ some (set_captured p st.now a)
      moved =
          subst
            (λ x.
              find_first (has_attempt_id id)
                (update_where (has_attempt_id x) (set_captured p st.now) st.attempts)
              ≡ some (set_captured p st.now a))
            i
            (find_first-update_where (has_attempt_id id) (set_captured p st.now) st.attempts a
              (id-set_captured id p st.now) h₀)

  pub capture_in-IsReplay : IsCaptureRun fact_id p id st r → IsReplay other p id r
  unfolding write_capture
  capture_in-IsReplay run = by_case run.existing run.fact_read run.written
    where
      by_case :
          (existing : Option PaymentCaptureFact)
          → find_capture_by_attempt_or_provider_id id p st.facts ≡ ok existing
          → write_capture fact_id p run.attempt run.booking st existing ≡ ok r
          → IsReplay other p id r
      by_case (some f) h k =
          IsReplay-stored run.attempt run.booking f run.attempt_read run.booking_read run.agrees h k
      by_case none h k =
          IsReplay-first run.attempt run.booking
            (text_eq→eq id run.attempt.id
              (find_first-test (has_attempt_id id) st.attempts run.attempt run.attempt_read))
            run.attempt_read run.booking_read run.agrees h
            (insert_capture-IsFirstCapture fact_id p run.attempt run.booking st r k)

module _ (u : Unicode) (parse_uuid : Text → Option Text) where
  pub validate_capture_params-id :
      (p : CaptureParams) (id : Text)
      → validate_capture_params u parse_uuid p ≡ ok id
      → parse_uuid p.attempt_id ≡ some id
  unfolding validate_capture_params
  validate_capture_params-id p id h =
      bind_ok (found invalid_capture (parse_uuid p.attempt_id)) h λ i h₀ k₀.
        bind_ok (fail_if (is_bad_capture u p) invalid_capture) k₀
          λ _ _ k₁. found-eq-ok _ _ h₀ ∙ ap some (ok-injective k₁)

  -- A capture that was recorded and comes again, under an identifier in canonical spelling, is
  -- answered as a duplicate with the same attempt and fact, and the store stays as it is.
  pub record_capture_tx-replay :
      (fact_id other : Text) (p : CaptureParams) (st : Store) (r : CaptureResult × Store)
      → parse_uuid p.attempt_id ≡ some p.attempt_id
      → record_capture_tx u parse_uuid fact_id p (some st) ≡ ok r
      → record_capture_tx u parse_uuid other p (some r.1) ≡ ok (again r.0, r.1)
  unfolding record_capture_tx canonical_times
  record_capture_tx-replay fact_id other p st r canonical h =
      bind_ok (validate_capture_params u parse_uuid p) h λ id h₀ k₀. rw h₀ (
        capture_in-IsReplay fact_id other (canonical_times p) id st r
          (some-injective (sym (validate_capture_params-id p id h₀) ∙ canonical))
          (capture_in-IsCaptureRun fact_id (canonical_times p) id st r k₀))
