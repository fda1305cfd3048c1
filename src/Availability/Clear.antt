-- ===== src/Availability/Clear.antt =====
-- What the overlap tests of apps/api/internal/availability/service.go leave in the way of a slot.
use lapangan_go.Base.{
  Option, refl, leb, text_eq→eq, both-true, ℕ, ◌≤◌, ◌≡◌, arith, true, false, List, [], ◌∷◌, All,
  none, some, Bool-cases, inl, inr, ◌⊎◌, text, text_eq,
}
use lapangan_go.Availability.Types.{BlockedSlot, ActiveBooking, Calendar}
use lapangan_go.Availability.Slots.{
  overlaps, overlaps_any_blocked_slot, overlaps_any_booking, is_expired_pending, booking_start,
  booking_end,
}

pub unblocked :
    (from to : ℕ) (bs : List BlockedSlot)
    → overlaps_any_blocked_slot from to bs ≡ false
    → All (λ b. overlaps from to b.start_at b.end_at ≡ false) bs
unfolding overlaps_any_blocked_slot
unblocked from to [] h = tt
unblocked from to (b ∷ bs) h = (ground (arith, h), unblocked from to bs (ground (arith, h)))

-- An unpaid booking that has run out: it has no expiry, or one that is not after now.
abbrev pub HasRunOut : ℕ → ActiveBooking → Type 0
HasRunOut now b =
    (b.status ≡ text "PENDING_PAYMENT")
    × ((b.expires_at ≡ none) ⊎ ((expiry : ℕ) × (b.expires_at ≡ some expiry) × (expiry ≤ now)))

pending_status :
    (now : ℕ) (b : ActiveBooking)
    → is_expired_pending now b ≡ true
    → text_eq b.status (text "PENDING_PAYMENT") ≡ true
unfolding is_expired_pending
pending_status now b h = ground (arith, h)

over :
    (o : Option ℕ) (now : ℕ)
    → elim o [ none ↦ true | some expiry ↦ leb expiry now ] ≡ true
    → (o ≡ none) ⊎ ((expiry : ℕ) × (o ≡ some expiry) × (expiry ≤ now))
over none now h = inl refl
over (some expiry) now h = inr (expiry, refl, ground arith)

is_expired_pending-HasRunOut :
    (now : ℕ) (b : ActiveBooking) → is_expired_pending now b ≡ true → HasRunOut now b
unfolding is_expired_pending
is_expired_pending-HasRunOut now b h = (
  text_eq→eq b.status (text "PENDING_PAYMENT") (pending_status now b h),
  over b.expires_at now (both-true (text_eq b.status (text "PENDING_PAYMENT")) _ h).1,
)

-- A booking that does not stand in the way.
abbrev pub IsClear : Calendar → ℕ → ℕ → ℕ → ActiveBooking → Type 0
IsClear calendar now from to b =
    HasRunOut now b ⊎ (overlaps from to (booking_start calendar b) (booking_end calendar b) ≡ false)

pub unbooked :
    (calendar : Calendar) (now from to : ℕ) (bs : List ActiveBooking)
    → overlaps_any_booking calendar now from to bs ≡ false
    → All (IsClear calendar now from to) bs
unfolding overlaps_any_booking
unbooked calendar now from to [] h = tt
unbooked calendar now from to (b ∷ bs) h = elim (Bool-cases (is_expired_pending now b)) [
  | inl e ↦ (
    inl (is_expired_pending-HasRunOut now b e),
    unbooked calendar now from to bs (ground (arith, h, e)),
  )
  | inr e ↦ (inr (ground (arith, h, e)), unbooked calendar now from to bs (ground (arith, h, e)))
]
