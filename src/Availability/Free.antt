-- ===== src/Availability/Free.antt =====
-- The slots that GetAvailability of apps/api/internal/availability/service.go shows as available.
use lapangan_go.Base.{
  ℕ, zero, suc, ◌+◌, ◌/◌, ◌%◌, ◌≤◌, ◌<◌, ◌≡◌, sym, ap, subst, ◌∙◌, arith, Bool, true, false, not,
  ◌&&◌, List, [], ◌∷◌, All, All-map, ltb, ◌==◌, if◌then◌else◌, none, some, ok, err, Result, bind_ok,
  ok-injective, err-ne-ok, if-eq-ok-cases, Option-eq-ok, Bool-cases, inl, inr, Text, text, text_eq,
  trim_space, select_where, pos,
}
use lapangan_go.Availability.Types.{
  SlotResponse, AvailabilityResponse, AvailabilityStore, AvailabilityError, Court, OperatingHour,
  BlockedSlot, ActiveBooking, Calendar, court_not_found, invalid_availability_date,
}
use lapangan_go.Availability.Slots.{
  overlaps, overlaps_any_blocked_slot, overlaps_any_booking, slot_at, time_at_minutes, build_slots,
  list_blocked_slots, list_active_bookings, parse_availability_date, closed_availability,
  is_closed_operating_hour, find_court_by_id, find_operating_hour, open_availability,
  get_availability,
}
use lapangan_go.Availability.Clear.{IsClear, unblocked, unbooked}
use lapangan_go.Availability.Clock.{minutes-bounds}
use lapangan_go.Availability.Schedule.{
  IsCalendar, IsBetween, slot_series, time_at_minutes-le, build_slots-IsSchedule,
}

slot_at-available :
    (calendar : Calendar) (now date : ℕ) (blocked : List BlockedSlot)
    (bookings : List ActiveBooking) (m start : ℕ)
    → (slot_at calendar now date blocked bookings m start).status ≡ text "AVAILABLE"
    → (overlaps_any_blocked_slot
          (time_at_minutes calendar date start)
          (time_at_minutes calendar date (start + m))
          blocked
        ≡ false)
      × (overlaps_any_booking calendar now
            (time_at_minutes calendar date start)
            (time_at_minutes calendar date (start + m))
            bookings
          ≡ false)
unfolding slot_at
slot_at-available calendar now date blocked bookings m start h = ground (arith, h)

All-series :
    (P : SlotResponse → Type 0) (slot : ℕ → SlotResponse) (n m start : ℕ)
    → ((k : ℕ) → P (slot k))
    → All P (slot_series slot n m start)
All-series P slot zero m start h = tt
All-series P slot (suc n) m start h = (h start, All-series P slot n m (start + m) h)

All-apply :
    (P Q : SlotResponse → Type 0) (slots : List SlotResponse)
    → All (λ t. P t → Q t) slots
    → All P slots
    → All Q slots
All-apply P Q [] f h = tt
All-apply P Q (t ∷ slots) f h = (f.0 h.0, All-apply P Q slots f.1 h.1)

-- A row that a query leaves out has a reason of its own.
All-selected :
    {A : Type 0} (p : A → Bool) (P : A → Type 0) (rows : List A)
    → ((a : A) → p a ≡ false → P a)
    → All P (select_where p rows)
    → All P rows
All-selected p P [] left h = tt
All-selected p P (a ∷ rows) left h = elim (Bool-cases (p a)) [
  | inl e ↦ let k = selected e in (k.0, All-selected p P rows left k.1)
  | inr e ↦ (left a e, All-selected p P rows left (passed e))
]
  where
    selected : p a ≡ true → All P (a ∷ select_where p rows)
    selected e =
        subst (λ (b : Bool). All P (if b then a ∷ select_where p rows else select_where p rows)) e h

    passed : p a ≡ false → All P (select_where p rows)
    passed e =
        subst (λ (b : Bool). All P (if b then a ∷ select_where p rows else select_where p rows)) e h

-- No blocked slot of the court, and no booking of the court on the day that still counts, overlaps
-- the slot.
pub record IsFree (calendar : Calendar) (s : AvailabilityStore) (court_id : Text) (date : ℕ)
    (slot : SlotResponse) : Type 0 where
  pub blocked :
      All
        (λ b.
          text_eq b.court_id court_id ≡ true
          → overlaps slot.start_at slot.end_at b.start_at b.end_at ≡ false)
        s.blocked_slots
  pub booked :
      All
        (λ b.
          text_eq b.court_id court_id ≡ true
          → (b.date == date) ≡ true
          → text_eq b.status (text "CANCELLED") ≡ false
          → IsClear calendar s.now slot.start_at slot.end_at b)
        s.bookings

abbrev IsHonest : Calendar → AvailabilityStore → Text → ℕ → SlotResponse → Type 0
IsHonest calendar s court_id date slot =
    slot.status ≡ text "AVAILABLE" → IsFree calendar s court_id date slot

module _ (calendar : Calendar) (law : IsCalendar calendar) (s : AvailabilityStore) (court_id : Text)
    (date : ℕ) where
  abbrev day_start : ℕ
  day_start = calendar.date_at date 0 0

  abbrev day_end : ℕ
  day_end = calendar.date_at (calendar.next_day date) 0 0

  -- A blocked slot of another day does not reach the slots of this one.
  outside :
      (b : BlockedSlot) (from to : ℕ)
      → day_start ≤ from
      → to ≤ day_end
      → (text_eq b.court_id court_id && ltb day_start b.end_at && ltb b.start_at day_end) ≡ false
      → text_eq b.court_id court_id ≡ true
      → overlaps from to b.start_at b.end_at ≡ false
  outside b from to h k out own = ground (arith, h, k, out, own)

  abbrev IsInDay : SlotResponse → Type 0
  IsInDay slot = (day_start ≤ slot.start_at) × (slot.end_at ≤ day_end)

  abbrev slot : ℕ → ℕ → SlotResponse
  slot =
      slot_at calendar s.now date (list_blocked_slots court_id day_start day_end s)
        (list_active_bookings court_id date s)

  slot_at-IsFree :
      (m start : ℕ) → IsInDay (slot m start) → IsHonest calendar s court_id date (slot m start)
  unfolding slot_at
  slot_at-IsFree m start day available =
      let free =
        slot_at-available calendar s.now date (list_blocked_slots court_id day_start day_end s)
          (list_active_bookings court_id date s) m start available in
      record {
        blocked =
            All-selected _ _ s.blocked_slots (λ b out own. outside b _ _ day.0 day.1 out own)
              (All-map _ _ _ (λ b clear own. clear) (unblocked _ _ _ free.0));
        booked =
            All-selected _ _ s.bookings (λ b out own on live. absurd (clash b out own on live))
              (All-map _ _ _ (λ b clear own on live. clear) (unbooked calendar s.now _ _ _ free.1));
      }
    where
      clash :
          (b : ActiveBooking)
          → (text_eq b.court_id court_id
              && (b.date == date)
              && not (text_eq b.status (text "CANCELLED")))
            ≡ false
          → text_eq b.court_id court_id ≡ true
          → (b.date == date) ≡ true
          → text_eq b.status (text "CANCELLED") ≡ false
          → ⊥
      clash b out own on live = ground (arith, out, own, on, live)

  -- Between two times of the clock a slot is in the day.
  IsBetween-IsInDay :
      (from to : ℕ) (t : SlotResponse)
      → to < 1440
      → IsBetween calendar law date from to t
      → IsInDay t
  unfolding time_at_minutes
  IsBetween-IsInDay from to t h b =
      let start = time_at_minutes-le calendar law date 0 from (omega arith) in
      let end = law.before_next_day date (to / 60) (to % 60) (omega arith) (omega arith) in
      (omega (arith, start, b.0), omega (arith, end, b.2))

  open_availability-IsHonest :
      (hours : OperatingHour) (r : AvailabilityResponse)
      → open_availability calendar court_id date hours s ≡ ok r
      → All (IsHonest calendar s court_id date) r.slots
  unfolding open_availability
  open_availability-IsHonest hours r h =
      bind_ok
        (build_slots calendar s.now date hours (list_blocked_slots court_id day_start day_end s)
          (list_active_bookings court_id date s) (pos 3600000000000))
        h
        λ slots h₀ k₀.
          let schedule =
            build_slots-IsSchedule calendar law s.now date hours _ _ (pos 3600000000000) slots h₀ in
          let closes : schedule.close_minutes < 1440 =
            minutes-bounds hours.close_time _ schedule.closes in
          let honest =
            subst (All (λ t. IsInDay t → IsHonest calendar s court_id date t))
              (sym schedule.full.series)
              (All-series _ _ schedule.full.count _ _ (slot_at-IsFree _)) in
          subst (λ (q : AvailabilityResponse). All (IsHonest calendar s court_id date) q.slots)
            (ok-injective k₀)
            (All-apply _ _ slots honest
              (All-map _ _ slots (λ t b. IsBetween-IsInDay _ _ t closes b) schedule.inside))

-- When the day of a court is answered, no slot that the answer shows as available overlaps a blocked
-- slot of the court, or a booking of the court on that day that is neither cancelled nor an unpaid
-- one that has run out, having no expiry or one that is not after now.
pub get_availability-IsFree :
    (calendar : Calendar) (law : IsCalendar calendar) (s : AvailabilityStore)
    (court_id date_value : Text) (r : AvailabilityResponse)
    → get_availability calendar court_id date_value s ≡ ok r
    → (date : ℕ) × (calendar.parse_date (trim_space date_value) ≡ some date)
      × All (λ slot. slot.status ≡ text "AVAILABLE" → IsFree calendar s court_id date slot) r.slots
unfolding get_availability
get_availability-IsFree calendar law s court_id date_value r h =
    bind_ok (parse_availability_date calendar date_value) h λ date h₀ k₀. (
      date,
      parsed date h₀,
      elim (Option-eq-ok (find_court_by_id court_id s) (err court_not_found) (open_court date) k₀) [
        | inl (_, e) ↦ absurd (err-ne-ok e)
        | inr (court, _, e) ↦
            elim (if-eq-ok-cases (not (is_active court))
              (ok (closed_availability calendar court_id date)) _ e) [
                | inl (_, c) ↦ closed date c
                | inr (_, o) ↦
                    elim (Option-eq-ok (find_operating_hour court_id (calendar.weekday date) s)
                      (ok (closed_availability calendar court_id date)) (open_day date) o) [
                        | inl (_, c) ↦ closed date c
                        | inr (hours, _, k) ↦
                            elim (if-eq-ok-cases (is_closed_operating_hour hours)
                              (ok (closed_availability calendar court_id date))
                              (open_availability calendar court_id date hours s) k) [
                                | inl (_, c) ↦ closed date c
                                | inr (_, c) ↦
                                    open_availability-IsHonest calendar law s court_id date hours r
                                      c
                              ]
                      ]
              ]
      ],
    )
  where
    is_active : Court → Bool
    is_active court =
        text_eq court.status (text "ACTIVE") && text_eq court.venue_status (text "ACTIVE")

    open_day : ℕ → OperatingHour → Result AvailabilityError AvailabilityResponse
    open_day date hours =
        if is_closed_operating_hour hours
        then ok (closed_availability calendar court_id date)
        else open_availability calendar court_id date hours s

    open_court : ℕ → Court → Result AvailabilityError AvailabilityResponse
    open_court date court =
        if not (is_active court)
        then ok (closed_availability calendar court_id date)
        else elim (find_operating_hour court_id (calendar.weekday date) s) [
          | none ↦ ok (closed_availability calendar court_id date)
          | some hours ↦ open_day date hours
        ]

    closed :
        (date : ℕ)
        → ◌≡◌ {A = Result AvailabilityError AvailabilityResponse}
            (ok (closed_availability calendar court_id date))
            (ok r)
        → All
            (λ slot. slot.status ≡ text "AVAILABLE" → IsFree calendar s court_id date slot)
            r.slots
    closed date e =
        subst (λ (q : AvailabilityResponse). All (IsHonest calendar s court_id date) q.slots)
          (ok-injective e) tt

    parsed :
        (date : ℕ)
        → parse_availability_date calendar date_value ≡ ok date
        → calendar.parse_date (trim_space date_value) ≡ some date
    parsed date e =
        elim (Option-eq-ok (calendar.parse_date (trim_space date_value))
          (err invalid_availability_date)
          (λ d. if text_eq (trim_space date_value) [] then err invalid_availability_date else ok d)
          e) [
            | inl (_, k) ↦ absurd (err-ne-ok k)
            | inr (d, p, k) ↦
                elim (if-eq-ok-cases (text_eq (trim_space date_value) [])
                  (err invalid_availability_date) (ok d) k) [
                    | inl (_, l) ↦ absurd (err-ne-ok l)
                    | inr (_, l) ↦ p ∙ ap some (ok-injective l)
                  ]
          ]
