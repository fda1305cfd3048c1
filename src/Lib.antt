-- ===== src/Lib.antt =====
-- Verification library of the LapanganGo API, the Go program under apps/api.
--
-- LapanganGo books sports courts. The library models the part of the API that handles money: the
-- calculator of a booking's fees, the choice of an owner's commercial term, the journal of the
-- platform's finance with its reversals, the attempts to pay a booking through a gateway, the outbox
-- of commands to that gateway, and the worker that sends them. It also models the part that shows
-- which slots of a court are available, and the limiter of requests.
--
-- Base        what the modules share: tests, lists, tables, results, integers and texts. A text is
--             the list of its code points, which are taken for valid UTF-8; `byte_len` gives its
--             length in bytes. An int64 is an integer ℤ, and add64, sub64, neg64 and mul64 wrap
--             modulo 2 ^ 64 as Go's operators do. An instant is a number of nanoseconds since the
--             zero time, and a pair (T, error) is a `Result`.
-- Finance     apps/api/internal/platformfinance/calculator.go. Money: checkedAddInt64,
--             checkedSubInt64, checkedMulNonNegativeInt64. Fees: CalculateBookingFees, as
--             validate_params, settle and commission_amount, with an unbounded reference
--             calculation in Fees/Reference.
-- Journal     apps/api/internal/platformfinance/journal.go, journal_service.go and
--             journal_reversal.go. Types: the parameters and the stored rows. Patterns: the regular
--             expressions and the metadata rules. Validate: validateAndNormalizeJournalInternal and
--             validateJournalAccountDimensions. Reversal: invertPostedJournalEntries,
--             exactReversalEntryMultisetMatches, whose map of counts is an association list, and in
--             Reversal/Request normalizeReverseJournalParams. Posting: Hash for journal_hash.go,
--             Store for the tables with the triggers and indexes of
--             db/migrations/022_platform_double_entry_ledger.up.sql, Repository for
--             journal_repository.go, Replay for journal_replay.go and replayExistingReversal, and
--             Service for PostJournal and ReverseJournal. Appended, Outcome, Reversing and Loading take
--             their runs apart, Ledger and Preserved hold the invariant, Books the steps, and Again and
--             Idempotent the second posting of a journal.
-- Terms       apps/api/internal/platformfinance/commercial_term_resolver.go. Resolver:
--             ResolveEffectiveTerm with its query over a table of terms. Winner: what it answers.
-- Payments    apps/api/internal/payments/repository.go and dto.go, and
--             apps/api/internal/provideridentity/policy.go. Identity: Valid. Capture and Operations:
--             TransitionState(Tx), RecordCapture(Tx) and FinalizeGatewayCaptureTx as functions from
--             a store of attempts, capture facts, bookings and audit rows to a result and the store
--             that is committed; an error rolls the transaction back. Bookings and Captured: the
--             bookings row by row. Replay, Finalize and Transition: the handlers' properties.
-- Outbox      apps/api/internal/paymentoutbox/model.go and repository.go. Lease and Operations: the
--             UPDATE of claimNextOnce, as lease_command, and MarkSucceeded(Tx), MarkTerminal(Tx) and
--             MarkRetryable(Tx). Trace: these as a step relation, with its sequences.
-- Worker      apps/api/internal/paymentworker/decision.go and policy.go. Decision:
--             decideCommandExecution, with what its two calls of the provider need in Conditions and
--             Authorised. Retry: the delays of RetryPolicy, and the policy that
--             NewProcessor of processor.go accepts.
-- Limiter     apps/api/internal/middleware/rate_limiter.go. Memory: MemoryRateLimiter, whose map is
--             a function. Windows: sequences of requests and sweeps.
-- Availability apps/api/internal/availability/service.go and repository.go. Types: the rows. Slots:
--             parseClockMinutes, the overlap tests, buildSlots with its loop and GetAvailability.
--             Schedule: where the slots lie. Free: what an available slot promises.
--
-- The worker decides on a leased command of the outbox and an attempt of the payments, and it
-- finishes the lease with a delay of its policy, which the outbox validates.
--
-- Parameters. uuid.Parse with String is `parse_uuid`, which gives the canonical form of a text that
-- is a UUID; the database is taken to read identifiers in the same way. The tables of Go's package
-- unicode are the record Unicode. The first two bytes of the hash behind the jitter are `hash16`.
-- What the joins of a claim find for a command is the argument `joined`. The record JournalRuntime has
-- the SHA-256 of a payload's JSON, time.Format and uuid.Parse; the record Database has the failures
-- of the database, the constraints that the model does not spell out and the order of a query's
-- rows; and the record Calendar has what package time does with the days of the court's location.
-- The identity that the database draws for a new row is an argument.
--
-- Bounds. A loop is a recursion on a list, and the doubling of a delay is one on the number of its
-- rounds. Two loops run on a number of rounds: the slots of a day on one more than its closing
-- minute, of which every round uses up one at least, and the digits of a number on one more than the
-- number. Amounts are 64-bit where the code's are, and a theorem that needs it has the hypothesis
-- IsInt64 or HasInt64Amounts.
--
-- Not modelled: the concurrency of transactions (the advisory locks make the payment handlers of a
-- booking run one after the other, and the model runs whole transactions in some order), failures
-- of the connection outside the journal, the triggers of the database but those of the journal's
-- inserts, the deferred check of a journal's balance at its commit, and the packages that are I/O,
-- HTTP or SQL only. The unique indexes that the payment handlers rely on are guards in
-- check_first_capture. Within one transaction, and within one answer about a court's day, the model has
-- a single reading of the clock: the outbox reads the instant of the statement in some columns, and
-- the availability service reads its clock for each slot. The law of the record Calendar is that of a
-- location whose clock does not change.
pub mod Availability
pub mod Base
pub mod Finance
pub mod Journal
pub mod Terms
pub mod Payments
pub mod Outbox
pub mod Limiter
pub mod Worker
