-- ===== src/Worker/Decision/Authorised.antt =====
-- When the worker may call the provider: apps/api/internal/paymentworker/decision.go.
use lapangan_go.Base.{◌≡◌, ◌≢◌, refl, ◌↔◌, ◌⊎◌, inl, inr, Bool, true, false, not, ℕ, if◌then◌else◌}
use lapangan_go.Payments.Types.{
  AttemptState, created, pending, captured, failed, expired, cancelled, PaymentAttempt,
}
use lapangan_go.Payments.Identity.{Unicode}
use lapangan_go.Outbox.Types.{
  Command, CommandType, payment_create, payment_inquiry, refund_create, refund_inquiry,
  other_command,
}
use lapangan_go.Worker.Decision.Conditions.{
  HasActiveLease, HasNoIdentity, HasValidIdentities, IsKnownIdentity, by_session,
  by_payment_request, by_payment, command_lease_active-HasActiveLease,
  command_lease_active_of_HasActiveLease, classify_provider_identity-HasNoIdentity,
  classify_provider_identity_of_HasNoIdentity, classify_provider_identity-HasValidIdentities,
  classify_provider_identity_of_HasValidIdentities,
}
use lapangan_go.Worker.Decision.{
  ProviderIdentityState, identity_none, identity_session, identity_payment_request,
  identity_payment, identity_invalid, ExecutionAction, call_create, call_inquiry, reject_lease,
  local_noop, decide, decide_inquiry, ExecutionDecision, decide_by_type, decide_command_execution,
  classify_provider_identity, command_lease_active, is_terminal_attempt_state,
}

-- What the switch on the command lets through, by the state of the identity.
abbrev MayCreate : CommandType → AttemptState → ProviderIdentityState → Type 0
MayCreate t s i = (t ≡ payment_create) × ((s ≡ created) ⊎ (s ≡ pending)) × (i ≡ identity_none)

abbrev MayInquire : CommandType → AttemptState → ProviderIdentityState → Type 0
MayInquire t s i = (t ≡ payment_inquiry) × (s ≡ pending) × IsKnownIdentity i

decide_by_type-call_create :
    (t : CommandType) (s : AttemptState) (i : ProviderIdentityState)
    → (decide_by_type t s i).action ≡ call_create
    → MayCreate t s i
unfolding decide_by_type
decide_by_type-call_create payment_create created identity_none h = (refl, inl refl, refl)
decide_by_type-call_create payment_create created identity_session h = cc
decide_by_type-call_create payment_create created identity_payment_request h = cc
decide_by_type-call_create payment_create created identity_payment h = cc
decide_by_type-call_create payment_create created identity_invalid h = cc
decide_by_type-call_create payment_create pending identity_none h = (refl, inr refl, refl)
decide_by_type-call_create payment_create pending identity_session h = cc
decide_by_type-call_create payment_create pending identity_payment_request h = cc
decide_by_type-call_create payment_create pending identity_payment h = cc
decide_by_type-call_create payment_create pending identity_invalid h = cc
decide_by_type-call_create payment_create captured i h = cc
decide_by_type-call_create payment_create failed i h = cc
decide_by_type-call_create payment_create expired i h = cc
decide_by_type-call_create payment_create cancelled i h = cc
decide_by_type-call_create payment_inquiry pending identity_none h = cc
decide_by_type-call_create payment_inquiry pending identity_session h = cc
decide_by_type-call_create payment_inquiry pending identity_payment_request h = cc
decide_by_type-call_create payment_inquiry pending identity_payment h = cc
decide_by_type-call_create payment_inquiry pending identity_invalid h = cc
decide_by_type-call_create payment_inquiry created i h = cc
decide_by_type-call_create payment_inquiry captured i h = cc
decide_by_type-call_create payment_inquiry failed i h = cc
decide_by_type-call_create payment_inquiry expired i h = cc
decide_by_type-call_create payment_inquiry cancelled i h = cc
decide_by_type-call_create refund_create s i h = cc
decide_by_type-call_create refund_inquiry s i h = cc
decide_by_type-call_create (other_command t) s i h = cc

decide_by_type-call_inquiry :
    (t : CommandType) (s : AttemptState) (i : ProviderIdentityState)
    → (decide_by_type t s i).action ≡ call_inquiry
    → MayInquire t s i
unfolding decide_by_type
decide_by_type-call_inquiry payment_create created identity_none h = cc
decide_by_type-call_inquiry payment_create created identity_session h = cc
decide_by_type-call_inquiry payment_create created identity_payment_request h = cc
decide_by_type-call_inquiry payment_create created identity_payment h = cc
decide_by_type-call_inquiry payment_create created identity_invalid h = cc
decide_by_type-call_inquiry payment_create pending identity_none h = cc
decide_by_type-call_inquiry payment_create pending identity_session h = cc
decide_by_type-call_inquiry payment_create pending identity_payment_request h = cc
decide_by_type-call_inquiry payment_create pending identity_payment h = cc
decide_by_type-call_inquiry payment_create pending identity_invalid h = cc
decide_by_type-call_inquiry payment_create captured i h = cc
decide_by_type-call_inquiry payment_create failed i h = cc
decide_by_type-call_inquiry payment_create expired i h = cc
decide_by_type-call_inquiry payment_create cancelled i h = cc
decide_by_type-call_inquiry payment_inquiry pending identity_none h = cc
decide_by_type-call_inquiry payment_inquiry pending identity_session h = (refl, refl, by_session)
decide_by_type-call_inquiry payment_inquiry pending identity_payment_request h =
    (refl, refl, by_payment_request)
decide_by_type-call_inquiry payment_inquiry pending identity_payment h = (refl, refl, by_payment)
decide_by_type-call_inquiry payment_inquiry pending identity_invalid h = cc
decide_by_type-call_inquiry payment_inquiry created i h = cc
decide_by_type-call_inquiry payment_inquiry captured i h = cc
decide_by_type-call_inquiry payment_inquiry failed i h = cc
decide_by_type-call_inquiry payment_inquiry expired i h = cc
decide_by_type-call_inquiry payment_inquiry cancelled i h = cc
decide_by_type-call_inquiry refund_create s i h = cc
decide_by_type-call_inquiry refund_inquiry s i h = cc
decide_by_type-call_inquiry (other_command t) s i h = cc

-- A decision for another action than the two refusals comes from the switch on the command.
guarded_decision :
    (active final : Bool) (i : ProviderIdentityState) (d : ExecutionDecision)
    (action : ExecutionAction)
    → reject_lease ≢ action
    → local_noop ≢ action
    → (if not active
        then decide reject_lease i
        else if final
        then decide local_noop i
        else d).action
      ≡ action
    → (active ≡ true) × (d.action ≡ action)
guarded_decision true false i d action n m h = (refl, h)
guarded_decision true true i d action n m h = absurd (m h)
guarded_decision false final i d action n m h = absurd (n h)

-- What the two calls of the provider need.
pub record CreateIsDue (c : Command) (a : PaymentAttempt) (now : ℕ) : Type 0 where
  pub lease : HasActiveLease c now
  pub is_create : c.command_type ≡ payment_create
  pub is_open : (a.state ≡ created) ⊎ (a.state ≡ pending)
  pub no_identity : HasNoIdentity a

pub record InquiryIsDue (u : Unicode) (c : Command) (a : PaymentAttempt) (now : ℕ) : Type 0 where
  pub lease : HasActiveLease c now
  pub is_inquiry : c.command_type ≡ payment_inquiry
  pub is_pending : a.state ≡ pending
  pub identities : HasValidIdentities u a

module _ (u : Unicode) (c : Command) (a : PaymentAttempt) (now : ℕ) where
  create_called : CreateIsDue c a now → (decide_command_execution u c a now).action ≡ call_create
  unfolding decide_command_execution decide_by_type classify_provider_identity
  create_called due =
      let active = command_lease_active_of_HasActiveLease c now due.lease in
      let i = classify_provider_identity_of_HasNoIdentity u a due.no_identity in
      elim due.is_open [
        | inl s ↦ rw (active, due.is_create, s, i) refl
        | inr s ↦ rw (active, due.is_create, s, i) refl
      ]

  inquiry_called :
      InquiryIsDue u c a now → (decide_command_execution u c a now).action ≡ call_inquiry
  unfolding decide_command_execution decide_by_type classify_provider_identity
  inquiry_called due =
      rw (command_lease_active_of_HasActiveLease c now due.lease, due.is_inquiry, due.is_pending)
        (known (classify_provider_identity u a)
          (classify_provider_identity_of_HasValidIdentities u a due.identities))
    where
      known :
          (k : ProviderIdentityState) → IsKnownIdentity k → (decide_inquiry k).action ≡ call_inquiry
      known identity_session by_session = refl
      known identity_payment_request by_payment_request = refl
      known identity_payment by_payment = refl
      known identity_none k = elim k [ ]
      known identity_invalid k = elim k [ ]

  create_due : (decide_command_execution u c a now).action ≡ call_create → CreateIsDue c a now
  unfolding decide_command_execution
  create_due h =
      let (active, k) =
        guarded_decision (command_lease_active c now) (is_terminal_attempt_state a.state)
          (classify_provider_identity u a)
          (decide_by_type c.command_type a.state (classify_provider_identity u a)) call_create
          (λ q. cc) (λ q. cc) h in
      let (t, s, i) = decide_by_type-call_create c.command_type a.state _ k in
      record {
        lease = command_lease_active-HasActiveLease c now active;
        is_create = t;
        is_open = s;
        no_identity = classify_provider_identity-HasNoIdentity u a i;
      }

  inquiry_due : (decide_command_execution u c a now).action ≡ call_inquiry → InquiryIsDue u c a now
  unfolding decide_command_execution
  inquiry_due h =
      let (active, k) =
        guarded_decision (command_lease_active c now) (is_terminal_attempt_state a.state)
          (classify_provider_identity u a)
          (decide_by_type c.command_type a.state (classify_provider_identity u a)) call_inquiry
          (λ q. cc) (λ q. cc) h in
      let (t, s, i) = decide_by_type-call_inquiry c.command_type a.state _ k in
      record {
        lease = command_lease_active-HasActiveLease c now active;
        is_inquiry = t;
        is_pending = s;
        identities = classify_provider_identity-HasValidIdentities u a i;
      }

  -- The worker calls the provider to create a payment exactly when the command is leased, names
  -- its attempt, its owner and its token and its lease ends after now, it is a PAYMENT_CREATE, its
  -- attempt is CREATED or PENDING, and the attempt carries none of the three identities of the
  -- provider. It asks the provider about a payment exactly when the lease is such, the command is a
  -- PAYMENT_INQUIRY, its attempt is PENDING, and the attempt carries a session or a payment request,
  -- carries no payment without its request, and carries no identity that the policy for provider
  -- identities refuses.
  pub decide_command_execution-authorised :
      (((decide_command_execution u c a now).action ≡ call_create) ↔ CreateIsDue c a now)
      × (((decide_command_execution u c a now).action ≡ call_inquiry) ↔ InquiryIsDue u c a now)
  decide_command_execution-authorised = ((create_due, create_called), (inquiry_due, inquiry_called))
