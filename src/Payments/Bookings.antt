-- ===== src/Payments/Bookings.antt =====
-- The bookings of the store under RecordCaptureTx and the UPDATE of FinalizeGatewayCaptureTx
-- (apps/api/internal/payments/repository.go), stated row by row.
use lapangan_go.Base.{
  ℕ, ◌≡◌, refl, sym, ◌∙◌, inl, inr, Bool, true, false, ◌&&◌, none, some, List, [], ◌∷◌, Text,
  text_eq_refl, text_eq→eq, find_first, find_first-test, find_first-none, update_where, Bool-cases,
  both-true, All, arith, if◌then◌else◌,
}
use mathlib.Core.List.{Memᴰ, Forall₂}
use lapangan_go.Payments.Types.{
  BookingRow, BookingStatus, paid, pending_payment, waiting_verification, confirmed,
  cancelled_booking, completed,
}
use lapangan_go.Payments.Capture.{has_booking_id}
use lapangan_go.Payments.Operations.{is_pending_payment, is_paid}

-- A booking of this identifier that is PENDING_PAYMENT.
abbrev pub Awaits : Text → BookingRow → Type 0
Awaits id b = (b.id ≡ id) × (b.status ≡ pending_payment)

-- What the payment of a booking does to a row: the booking becomes PAID where it awaits payment,
-- and no other row changes.
pub data Settles (id : Text) (now : ℕ) (b b' : BookingRow) : Type 0 where
  pays : Awaits id b → b' ≡ record b { status = paid; updated_at = now } → Settles id now b b'
  spares : ¬ Awaits id b → b' ≡ b → Settles id now b b'

-- A row of the table with a property.
abbrev pub HasRow : (BookingRow → Type 0) → List BookingRow → Type 0
HasRow P rows = (b : BookingRow) × Memᴰ b rows × P b

-- The test of the UPDATE, and what it writes.
abbrev pub awaits_payment : Text → BookingRow → Bool
awaits_payment id b = has_booking_id id b && is_pending_payment b.status

abbrev pub pay : ℕ → BookingRow → BookingRow
pay now b = record b { status = paid; updated_at = now }

is_pending_payment→eq : (s : BookingStatus) → is_pending_payment s ≡ true → s ≡ pending_payment
is_pending_payment→eq pending_payment h = refl
is_pending_payment→eq paid h = cc
is_pending_payment→eq waiting_verification h = cc
is_pending_payment→eq confirmed h = cc
is_pending_payment→eq cancelled_booking h = cc
is_pending_payment→eq completed h = cc

pub is_paid→eq : (b : BookingStatus) → is_paid b ≡ true → b ≡ paid
is_paid→eq paid h = refl
is_paid→eq pending_payment h = cc
is_paid→eq waiting_verification h = cc
is_paid→eq confirmed h = cc
is_paid→eq cancelled_booking h = cc
is_paid→eq completed h = cc

pub has_booking_id→eq : (id : Text) (b : BookingRow) → has_booking_id id b ≡ true → b.id ≡ id
has_booking_id→eq id b h = sym (text_eq→eq id b.id h)

pub awaits_payment-Awaits : (id : Text) (b : BookingRow) → awaits_payment id b ≡ true → Awaits id b
awaits_payment-Awaits id b h =
    let (i, s) = both-true (has_booking_id id b) (is_pending_payment b.status) h in
    (has_booking_id→eq id b i, is_pending_payment→eq b.status s)

not_awaits_payment-Awaits :
    (id : Text) (b : BookingRow) → awaits_payment id b ≡ false → ¬ Awaits id b
not_awaits_payment-Awaits id b h (i, s) = ground (arith, text_eq_refl b.id)

pub update_where-Settles :
    (id : Text) (now : ℕ) (rows : List BookingRow)
    → Forall₂ (Settles id now) rows (update_where (awaits_payment id) (pay now) rows)
update_where-Settles id now [] = Forall₂.nil
update_where-Settles id now (b ∷ rows) = Forall₂.cons (settled b) (update_where-Settles id now rows)
  where
    settled : (b : BookingRow) → Settles id now b (if awaits_payment id b then pay now b else b)
    settled b = elim (Bool-cases (awaits_payment id b)) [
      | inl e ↦ pays (awaits_payment-Awaits id b e) (rw e refl)
      | inr e ↦ spares (not_awaits_payment-Awaits id b e) (rw e refl)
    ]

find_first-Memᴰ :
    (p : BookingRow → Bool) (rows : List BookingRow) (b : BookingRow)
    → find_first p rows ≡ some b
    → Memᴰ b rows
find_first-Memᴰ p [] b h = cc
find_first-Memᴰ p (c ∷ rows) b h = elim (Bool-cases (p c)) [
  | inl e ↦ Memᴰ.head (found e)
  | inr e ↦ Memᴰ.tail (find_first-Memᴰ p rows b (missed e))
]
  where
    found : p c ≡ true → b ≡ c
    found e = ground arith

    missed : p c ≡ false → find_first p rows ≡ some b
    missed e = ground arith

pub awaits_payment-HasRow :
    (id : Text) (rows : List BookingRow) (b : BookingRow)
    → find_first (awaits_payment id) rows ≡ some b
    → HasRow (Awaits id) rows
awaits_payment-HasRow id rows b h = (
  b,
  find_first-Memᴰ (awaits_payment id) rows b h,
  awaits_payment-Awaits id b (find_first-test (awaits_payment id) rows b h),
)

pub has_booking_id-HasRow :
    (id : Text) (rows : List BookingRow) (b : BookingRow) (P : BookingStatus → Type 0)
    → find_first (has_booking_id id) rows ≡ some b
    → P b.status
    → HasRow (λ c. (c.id ≡ id) × P c.status) rows
has_booking_id-HasRow id rows b P h q = (
  b,
  find_first-Memᴰ (has_booking_id id) rows b h,
  (has_booking_id→eq id b (find_first-test (has_booking_id id) rows b h), q),
)

pub find_first-awaits_payment-none :
    (id : Text) (rows : List BookingRow)
    → find_first (awaits_payment id) rows ≡ none
    → All (λ b. ¬ Awaits id b) rows
find_first-awaits_payment-none id [] h = tt
find_first-awaits_payment-none id (b ∷ rows) h =
    let (e, rest) = find_first-none (awaits_payment id) (b ∷ rows) h in
    (not_awaits_payment-Awaits id b e, find_first-awaits_payment-none id rows (missed e))
  where
    missed : awaits_payment id b ≡ false → find_first (awaits_payment id) rows ≡ none
    missed e = sym (rw e refl) ∙ h
