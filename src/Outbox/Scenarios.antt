-- ===== src/Outbox/Scenarios.antt =====
-- A command that is claimed and then succeeds.
use lapangan_go.Base.{
  ◌≡◌, refl, arith, ℕ, Bool, true, false, Option, none, some, [], ◌∷◌, List, ok, pos, text, Text,
  if◌then◌else◌,
}
use lapangan_go.Base
use lapangan_go.Payments.Identity.{is_canonical_uuid}
use lapangan_go.Outbox.Types.{Command, CommandType, pending, leased, succeeded, payment_create}
use lapangan_go.Payments.Types.{created, pending_payment}
use lapangan_go.Outbox.Lease
use lapangan_go.Outbox.Lease.{Outbox, Aggregate}
use lapangan_go.Outbox.Operations
use lapangan_go.Outbox.Operations.{lease_command, mark_succeeded}
use lapangan_go.Outbox.Invariant.{IsWellFormed}
use lapangan_go.Outbox.History.{AreLater}
use lapangan_go.Outbox.Trace.{Trace, here, step_on, claims, succeeds, Trace-IsWellFormed}
use lapangan_go.Outbox.Lives.{Trace-later}

abbrev parse : Text → Option Text
parse s = if is_canonical_uuid s then some s else none

abbrev command_id : Text
command_id = text "0b6d5f2e-1c3a-4d5e-8f90-a1b2c3d4e5f6"

abbrev worker_name : Text
worker_name = text "worker:1b6d5f2e-1c3a-4d5e-8f90-a1b2c3d4e5f6"

abbrev lease : Text
lease = text "2b6d5f2e-1c3a-4d5e-8f90-a1b2c3d4e5f6"

abbrev reference : Text
reference = text "sha256:0000000000000000000000000000000000000000000000000000000000000000"

abbrev waiting : Command
waiting = record {
  id = command_id;
  command_type = payment_create;
  aggregate_id = text "a1";
  payment_attempt_id = some (text "a1");
  idempotency_key = text "payment:create:1";
  request_hash = text "h";
  state = pending;
  attempt_count = 0;
  malformed_response_count = 0;
  available_at = 1000;
  lease_owner = none;
  lease_token = none;
  lease_expires_at = none;
  last_error_code = none;
  provider_reference = none;
  created_at = 1000;
  updated_at = 1000;
  completed_at = none;
}

abbrev before : Outbox
before = record { commands = waiting ∷ []; now = 2000 }

abbrev claimed : Command
claimed = record waiting {
  state = leased;
  attempt_count = 1;
  lease_owner = some worker_name;
  lease_token = some lease;
  lease_expires_at = some 62000;
  updated_at = 2000;
}

abbrev held : Outbox
held = record { commands = claimed ∷ []; now = 2000 }

abbrev finished : Command
finished = record waiting {
  state = succeeded;
  attempt_count = 1;
  provider_reference = some reference;
  updated_at = 2000;
  completed_at = some 2000;
}

abbrev after : Outbox
after = record { commands = finished ∷ []; now = 2000 }

-- The attempt of the command is new, and its booking awaits payment.
abbrev joined : Command → Option Aggregate
joined c =
    some (record {
      attempt_state = created;
      booking_status = pending_payment;
      create_cancelled = false;
    })

abbrev allowed : CommandType → Bool
allowed t = true

claim_run :
    lease_command joined allowed command_id worker_name lease (pos 60000) before
    ≡ ok (some claimed, held)
unfolding lease_command Lease.set_leased Lease.is_due Lease.is_claimable Base.text_eq
claim_run = refl

success_run :
    mark_succeeded parse command_id worker_name lease reference (some held) ≡ ok (finished, after)
unfolding mark_succeeded is_canonical_uuid Operations.validate_lease_owner Operations.after_prefix
    Operations.validate_lease_token Operations.validate_provider_reference Operations.finish_named
    Operations.finish_lease Lease.holds_lease Lease.set_succeeded Base.text_eq
success_run = refl

abbrev life : Trace parse before after
life =
    step_on before held after
      (claims joined allowed command_id worker_name lease (pos 60000) before (some claimed, held)
        claim_run)
      (step_on held after after
        (succeeds command_id worker_name lease reference held (finished, after) success_run)
        (here after))

Trace-IsWellFormed_example : IsWellFormed after
Trace-IsWellFormed_example = Trace-IsWellFormed parse before after life (refl, tt)

Trace-later_example : AreLater before.commands after.commands
Trace-later_example = Trace-later parse before after life
