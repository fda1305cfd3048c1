-- ===== src/Worker/Decision/Conditions.antt =====
-- When commandLeaseActive and classifyProviderIdentity of
-- apps/api/internal/paymentworker/decision.go give what lets the provider be called.
use lapangan_go.Base.{
  ℕ, ◌<◌, ◌≡◌, ◌≢◌, ◌⊎◌, inl, inr, refl, ltb→lt, arith, true, Option, none, some, Text,
}
use lapangan_go.Payments.Types.{PaymentAttempt}
use lapangan_go.Payments.Capture.{valid_optional_provider_identity}
use lapangan_go.Payments.Identity.{Unicode, valid}
use lapangan_go.Outbox.Types.{Command, leased}
use lapangan_go.Worker.Decision.{
  identity_none, identity_session, identity_payment_request, identity_payment, identity_invalid,
  ProviderIdentityState, command_lease_active, classify_provider_identity, is_after,
}

-- A lease that holds: the command is leased, names its attempt, its owner and its token, and ends
-- after now.
pub record HasActiveLease (c : Command) (now : ℕ) : Type 0 where
  pub is_leased : c.state ≡ leased
  pub names_attempt : c.payment_attempt_id ≢ none
  pub has_owner : c.lease_owner ≢ none
  pub has_token : c.lease_token ≢ none
  pub ends_at : ℕ
  pub expiry : c.lease_expires_at ≡ some ends_at
  pub not_over : now < ends_at

is_after-lt : (o : Option ℕ) (now : ℕ) → is_after o now ≡ true → (t : ℕ) × (o ≡ some t) × (now < t)
is_after-lt none now h = cc
is_after-lt (some t) now h = (t, refl, ltb→lt now t h)

command_lease_active-is_after :
    (c : Command) (now : ℕ)
    → command_lease_active c now ≡ true
    → is_after c.lease_expires_at now ≡ true
unfolding command_lease_active
command_lease_active-is_after c now h = ground arith

pub command_lease_active-HasActiveLease :
    (c : Command) (now : ℕ) → command_lease_active c now ≡ true → HasActiveLease c now
unfolding command_lease_active
command_lease_active-HasActiveLease c now h =
    let (t, at, after) =
      is_after-lt c.lease_expires_at now (command_lease_active-is_after c now h) in
    record {
      is_leased = ground arith;
      names_attempt = λ q. ground arith;
      has_owner = λ q. ground arith;
      has_token = λ q. ground arith;
      ends_at = t;
      expiry = at;
      not_over = after;
    }

pub command_lease_active_of_HasActiveLease :
    (c : Command) (now : ℕ) → HasActiveLease c now → command_lease_active c now ≡ true
unfolding command_lease_active
command_lease_active_of_HasActiveLease c now lease = ground arith

-- The attempt carries none of the three identities.
pub record HasNoIdentity (a : PaymentAttempt) : Type 0 where
  pub no_session : a.provider_session_id ≡ none
  pub no_request : a.provider_payment_req_id ≡ none
  pub no_payment : a.provider_payment_id ≡ none

abbrev pub IsValidIdentity : Unicode → Option Text → Type 0
IsValidIdentity u none = Unit {0}
IsValidIdentity u (some v) = valid u v true ≡ true

-- The attempt carries an identity, all that it carries pass the policy of provideridentity, and a
-- payment comes with its request.
pub record HasValidIdentities (u : Unicode) (a : PaymentAttempt) : Type 0 where
  pub session_valid : IsValidIdentity u a.provider_session_id
  pub request_valid : IsValidIdentity u a.provider_payment_req_id
  pub payment_valid : IsValidIdentity u a.provider_payment_id
  pub has_one : (a.provider_session_id ≢ none) ⊎ (a.provider_payment_req_id ≢ none)
  pub payment_with_request : a.provider_payment_id ≢ none → a.provider_payment_req_id ≢ none

pub classify_provider_identity-HasNoIdentity :
    (u : Unicode) (a : PaymentAttempt)
    → classify_provider_identity u a ≡ identity_none
    → HasNoIdentity a
unfolding classify_provider_identity
classify_provider_identity-HasNoIdentity u a h = ground arith

pub classify_provider_identity_of_HasNoIdentity :
    (u : Unicode) (a : PaymentAttempt)
    → HasNoIdentity a
    → classify_provider_identity u a ≡ identity_none
unfolding classify_provider_identity
classify_provider_identity_of_HasNoIdentity u a h = ground arith

-- The identities by which the provider can be asked about a payment.
pub data IsKnownIdentity : ProviderIdentityState → Type 0 where
  by_session : IsKnownIdentity identity_session
  by_payment_request : IsKnownIdentity identity_payment_request
  by_payment : IsKnownIdentity identity_payment

identified-IsKnownIdentity :
    (i : ProviderIdentityState) → i ≢ identity_none → i ≢ identity_invalid → IsKnownIdentity i
identified-IsKnownIdentity identity_none n m = absurd (n refl)
identified-IsKnownIdentity identity_invalid n m = absurd (m refl)
identified-IsKnownIdentity identity_session n m = by_session
identified-IsKnownIdentity identity_payment_request n m = by_payment_request
identified-IsKnownIdentity identity_payment n m = by_payment

optional-IsValidIdentity :
    (u : Unicode) (o : Option Text)
    → valid_optional_provider_identity u o ≡ true
    → IsValidIdentity u o
optional-IsValidIdentity u none h = tt
optional-IsValidIdentity u (some v) h = h

IsValidIdentity-optional :
    (u : Unicode) (o : Option Text)
    → IsValidIdentity u o
    → valid_optional_provider_identity u o ≡ true
IsValidIdentity-optional u none h = refl
IsValidIdentity-optional u (some v) h = h

-- The tests that a known identity has passed.
known_tests :
    (u : Unicode) (a : PaymentAttempt) (i : ProviderIdentityState)
    → IsKnownIdentity i
    → classify_provider_identity u a ≡ i
    → (valid_optional_provider_identity u a.provider_session_id ≡ true)
      × (valid_optional_provider_identity u a.provider_payment_req_id ≡ true)
      × (valid_optional_provider_identity u a.provider_payment_id ≡ true)
      × (a.provider_payment_id ≢ none → a.provider_payment_req_id ≢ none)
      × ((a.provider_session_id ≢ none) ⊎ (a.provider_payment_req_id ≢ none))
unfolding classify_provider_identity
known_tests u a identity_none k h = elim k [ ]
known_tests u a identity_invalid k h = elim k [ ]
known_tests u a identity_session by_session h =
    (ground arith, ground arith, ground arith, λ p q. ground arith, inl (λ q. ground arith))
known_tests u a identity_payment_request by_payment_request h =
    (ground arith, ground arith, ground arith, λ p q. ground arith, inr (λ q. ground arith))
known_tests u a identity_payment by_payment h =
    (ground arith, ground arith, ground arith, λ p q. ground arith, inr (λ q. ground arith))

pub classify_provider_identity-HasValidIdentities :
    (u : Unicode) (a : PaymentAttempt)
    → IsKnownIdentity (classify_provider_identity u a)
    → HasValidIdentities u a
classify_provider_identity-HasValidIdentities u a k =
    let (s, r, p, with_request, one) = known_tests u a (classify_provider_identity u a) k refl in
    record {
      session_valid = optional-IsValidIdentity u a.provider_session_id s;
      request_valid = optional-IsValidIdentity u a.provider_payment_req_id r;
      payment_valid = optional-IsValidIdentity u a.provider_payment_id p;
      has_one = one;
      payment_with_request = with_request;
    }

valid-ne-invalid :
    (u : Unicode) (a : PaymentAttempt)
    → valid_optional_provider_identity u a.provider_session_id ≡ true
    → valid_optional_provider_identity u a.provider_payment_req_id ≡ true
    → valid_optional_provider_identity u a.provider_payment_id ≡ true
    → (a.provider_payment_id ≢ none → a.provider_payment_req_id ≢ none)
    → classify_provider_identity u a ≢ identity_invalid
unfolding classify_provider_identity
valid-ne-invalid u a s r p w q = ground (arith, w)

pub classify_provider_identity_of_HasValidIdentities :
    (u : Unicode) (a : PaymentAttempt)
    → HasValidIdentities u a
    → IsKnownIdentity (classify_provider_identity u a)
classify_provider_identity_of_HasValidIdentities u a v =
    identified-IsKnownIdentity (classify_provider_identity u a)
      (λ q.
        let nothing = classify_provider_identity-HasNoIdentity u a q in
        elim v.has_one [
          | inl some_session ↦ some_session nothing.no_session
          | inr some_request ↦ some_request nothing.no_request
        ])
      (valid-ne-invalid u a (IsValidIdentity-optional u _ v.session_valid)
        (IsValidIdentity-optional u _ v.request_valid)
        (IsValidIdentity-optional u _ v.payment_valid) v.payment_with_request)
