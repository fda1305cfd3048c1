-- ===== src/Worker/Decision.antt =====
-- The decision before a call of the provider: apps/api/internal/paymentworker/decision.go.
pub mod Conditions
pub mod Authorised
use lapangan_go.Base.{
  ℕ, ◌≡◌, refl, ◌⊎◌, inl, inr, arith, Bool, true, false, not, ◌&&◌, ◌||◌, Option, none, some, List,
  [], Text, text, ltb, is_some, if◌then◌else◌, ◌<◌, ltb→lt,
}
use lapangan_go.Payments.Types.{
  AttemptState, created, pending, captured, failed, expired, cancelled, PaymentAttempt,
}
use lapangan_go.Payments.Capture.{valid_optional_provider_identity}
use lapangan_go.Payments.Identity.{Unicode}
use lapangan_go.Outbox.Types.{
  Command, CommandState, CommandType, leased, payment_create, payment_inquiry,
}

pub data ProviderIdentityState : Type 0 where
  identity_none identity_session identity_payment_request : ProviderIdentityState
  identity_payment identity_invalid : ProviderIdentityState

pub data ExecutionAction : Type 0 where
  call_create call_inquiry local_create_recovery local_retry : ExecutionAction
  local_noop local_terminal reject_lease : ExecutionAction

pub record ExecutionDecision : Type 0 where
  pub action : ExecutionAction
  pub identity_state : ProviderIdentityState
  pub reason : Text

abbrev pub is_terminal_attempt_state : AttemptState → Bool
is_terminal_attempt_state created = false
is_terminal_attempt_state pending = false
is_terminal_attempt_state _ = true

abbrev pub is_leased : CommandState → Bool
is_leased leased = true
is_leased _ = false

abbrev pub is_after : Option ℕ → ℕ → Bool
is_after none now = false
is_after (some t) now = ltb now t

unfoldable pub command_lease_active : Command → ℕ → Bool
command_lease_active c now =
    is_leased c.state
    && is_some c.payment_attempt_id
    && is_some c.lease_owner
    && is_some c.lease_token
    && is_after c.lease_expires_at now

unfoldable pub classify_provider_identity : Unicode → PaymentAttempt → ProviderIdentityState
classify_provider_identity u a =
    if not (valid_optional_provider_identity u a.provider_session_id)
      || not (valid_optional_provider_identity u a.provider_payment_req_id)
      || not (valid_optional_provider_identity u a.provider_payment_id)
    then identity_invalid
    else if is_some a.provider_payment_id && not (is_some a.provider_payment_req_id)
    then identity_invalid
    else if is_some a.provider_payment_id
    then identity_payment
    else if is_some a.provider_payment_req_id
    then identity_payment_request
    else if is_some a.provider_session_id
    then identity_session
    else identity_none

abbrev pub decide : ExecutionAction → ProviderIdentityState → ExecutionDecision
decide a i = record { action = a; identity_state = i; reason = [] }

abbrev blocked : ProviderIdentityState → ExecutionDecision
blocked i = record {
  action = local_terminal;
  identity_state = i;
  reason = text "PROVIDER_CONTRACT_BLOCKED";
}

-- The inner switch of a PAYMENT_CREATE on an attempt that may be created.
abbrev pub decide_create : ProviderIdentityState → ExecutionDecision
decide_create identity_none = decide call_create identity_none
decide_create identity_invalid = blocked identity_invalid
decide_create i = decide local_create_recovery i

-- The inner switch of a PAYMENT_INQUIRY on a pending attempt.
abbrev pub decide_inquiry : ProviderIdentityState → ExecutionDecision
decide_inquiry identity_none = decide local_retry identity_none
decide_inquiry identity_invalid = blocked identity_invalid
decide_inquiry i = decide call_inquiry i

unfoldable pub decide_by_type :
    CommandType → AttemptState → ProviderIdentityState → ExecutionDecision
decide_by_type payment_create created i = decide_create i
decide_by_type payment_create pending i = decide_create i
decide_by_type payment_inquiry pending i = decide_inquiry i
decide_by_type _ _ i = blocked i

unfoldable pub decide_command_execution : Unicode → Command → PaymentAttempt → ℕ → ExecutionDecision
decide_command_execution u c a now =
    let i = classify_provider_identity u a in
    if not (command_lease_active c now)
    then decide reject_lease i
    else if is_terminal_attempt_state a.state
    then decide local_noop i
    else decide_by_type c.command_type a.state i
