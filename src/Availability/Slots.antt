-- ===== src/Availability/Slots.antt =====
-- GetAvailability of apps/api/internal/availability/service.go with the queries of repository.go.
use lapangan_go.Base.{
  ℕ, zero, suc, ◌+◌, ◌-◌, ◌*◌, ◌/◌, ◌%◌, Bool, true, false, not, ◌&&◌, ◌||◌, List, [], ◌∷◌,
  if◌then◌else◌, leb, ltb, ◌==◌, Option, none, some, is_some, Result, ok, err, ◌>>=◌, ◌>>◌, fail_if,
  Text, text, text_eq, trim_space, find_first, select_where, ℤ, pos, negsuc, pos_part, leb_ℤ, ltb_ℤ,
  quot,
}
use lapangan_go.Availability.Types.{
  SlotResponse, AvailabilityResponse, Court, OperatingHour, BlockedSlot, ActiveBooking,
  AvailabilityError, court_not_found, invalid_availability_date, invalid_operating_hours,
  division_by_zero, Calendar, AvailabilityStore,
}

abbrev pub is_digit : ℕ → Bool
is_digit c = leb 48 c && leb c 57

-- strconv.Atoi on a text of two characters: a sign may stand in front of a digit.
unfoldable pub atoi_two : ℕ → ℕ → Option ℤ
atoi_two a b =
    if not (is_digit b)
    then none
    else if is_digit a
    then some (pos (10 * (a - 48) + (b - 48)))
    else if a == 43
    then some (pos (b - 48))
    else if a == 45
    then some (if b == 48 then pos 0 else negsuc (b - 49))
    else none

-- An hour and a minute in their ranges, as minutes of the day.
unfoldable pub clock_minutes : ℤ → ℤ → Result AvailabilityError ℕ
clock_minutes hour minute =
    if ltb_ℤ hour (pos 0) || ltb_ℤ (pos 23) hour || ltb_ℤ minute (pos 0) || ltb_ℤ (pos 59) minute
    then err invalid_operating_hours
    else ok (pos_part hour * 60 + pos_part minute)

abbrev pub numbers_to_minutes : Option ℤ → Option ℤ → Result AvailabilityError ℕ
numbers_to_minutes (some hour) (some minute) = clock_minutes hour minute
numbers_to_minutes _ _ = err invalid_operating_hours

-- Two characters, a colon and two characters; the callers replace every error by the same one.
unfoldable pub parse_clock_minutes : Text → Result AvailabilityError ℕ
unfolding atoi_two clock_minutes
parse_clock_minutes (a ∷ b ∷ colon ∷ c ∷ d ∷ []) =
    if colon == 58
    then numbers_to_minutes (atoi_two a b) (atoi_two c d)
    else err invalid_operating_hours
parse_clock_minutes _ = err invalid_operating_hours

module _ (calendar : Calendar) where
  unfoldable pub time_at_minutes : ℕ → ℕ → ℕ
  time_at_minutes date minutes = calendar.date_at date (minutes / 60) (minutes % 60)

-- The loop, on a number of rounds that a day of minutes never uses up.
unfoldable pub slots_from : (ℕ → SlotResponse) → ℕ → ℕ → ℕ → ℕ → List SlotResponse
slots_from slot zero slot_minutes close_minutes start_minutes = []
slots_from slot (suc rounds) slot_minutes close_minutes start_minutes =
    elim (leb (start_minutes + slot_minutes) close_minutes) [
      | true ↦
          slot start_minutes
          ∷ slots_from slot rounds slot_minutes close_minutes (start_minutes + slot_minutes)
      | false ↦ []
    ]

abbrev pub minutes_of : Option Text → Result AvailabilityError ℕ
minutes_of none = err invalid_operating_hours
minutes_of (some value) = parse_clock_minutes value

abbrev pub is_closed_operating_hour : OperatingHour → Bool
is_closed_operating_hour h = h.is_closed || not (is_some h.open_time) || not (is_some h.close_time)

abbrev pub find_court_by_id : Text → AvailabilityStore → Option Court
find_court_by_id id s = find_first (λ (c : Court). text_eq c.id id) s.courts

abbrev pub find_operating_hour : Text → ℕ → AvailabilityStore → Option OperatingHour
find_operating_hour id day s =
    find_first (λ (h : OperatingHour). text_eq h.court_id id && (h.day_of_week == day))
      s.operating_hours

-- The order of the rows does not matter to the overlaps.
abbrev pub list_blocked_slots : Text → ℕ → ℕ → AvailabilityStore → List BlockedSlot
list_blocked_slots id from to s =
    select_where
      (λ (b : BlockedSlot). text_eq b.court_id id && ltb from b.end_at && ltb b.start_at to)
      s.blocked_slots

abbrev pub list_active_bookings : Text → ℕ → AvailabilityStore → List ActiveBooking
list_active_bookings id date s =
    select_where
      (λ (b : ActiveBooking).
        text_eq b.court_id id && (b.date == date) && not (text_eq b.status (text "CANCELLED")))
      s.bookings

abbrev pub overlaps : ℕ → ℕ → ℕ → ℕ → Bool
overlaps slot_start slot_end start_at end_at = ltb slot_start end_at && ltb start_at slot_end

unfoldable pub overlaps_any_blocked_slot : ℕ → ℕ → List BlockedSlot → Bool
overlaps_any_blocked_slot slot_start slot_end [] = false
overlaps_any_blocked_slot slot_start slot_end (b ∷ bs) =
    overlaps slot_start slot_end b.start_at b.end_at
    || overlaps_any_blocked_slot slot_start slot_end bs

-- A booking that awaits its payment has run out at its expiry, or when it has none.
unfoldable pub is_expired_pending : ℕ → ActiveBooking → Bool
is_expired_pending now b =
    text_eq b.status (text "PENDING_PAYMENT")
    && elim b.expires_at [ none ↦ true | some expiry ↦ leb expiry now ]

module _ (calendar : Calendar) where
  abbrev pub booking_start : ActiveBooking → ℕ
  booking_start b = calendar.date_at b.date b.start_time.0 b.start_time.1

  abbrev pub booking_end : ActiveBooking → ℕ
  booking_end b = calendar.date_at b.date b.end_time.0 b.end_time.1

  -- One instant stands for the readings of the clock, of which the code takes one for each slot.
  unfoldable pub overlaps_any_booking : ℕ → ℕ → ℕ → List ActiveBooking → Bool
  unfolding is_expired_pending
  overlaps_any_booking now slot_start slot_end [] = false
  overlaps_any_booking now slot_start slot_end (b ∷ bs) =
      let rest = overlaps_any_booking now slot_start slot_end bs in
      if is_expired_pending now b
      then rest
      else overlaps slot_start slot_end (booking_start b) (booking_end b) || rest

  -- The body of the loop.
  unfoldable pub slot_at : ℕ → ℕ → List BlockedSlot → List ActiveBooking → ℕ → ℕ → SlotResponse
  unfolding time_at_minutes overlaps_any_blocked_slot overlaps_any_booking
  slot_at now date blocked bookings slot_minutes start_minutes =
      let slot_start = time_at_minutes calendar date start_minutes in
      let slot_end = time_at_minutes calendar date (start_minutes + slot_minutes) in
      record {
        start_at = slot_start;
        end_at = slot_end;
        status =
            if overlaps_any_blocked_slot slot_start slot_end blocked
            then text "BLOCKED"
            else if overlaps_any_booking now slot_start slot_end bookings
            then text "BOOKED"
            else text "AVAILABLE";
      }

  unfoldable pub build_slots :
      ℕ
      → ℕ
      → OperatingHour
      → List BlockedSlot
      → List ActiveBooking
      → ℤ
      → Result AvailabilityError (List SlotResponse)
  unfolding slot_at slots_from parse_clock_minutes
  build_slots now date hours blocked bookings slot_duration = do
    fail_if
        (not (is_some hours.open_time)
          || not (is_some hours.close_time)
          || leb_ℤ slot_duration (pos 0))
        invalid_operating_hours
    open_minutes ← minutes_of hours.open_time
    close_minutes ← minutes_of hours.close_time
    fail_if (leb close_minutes open_minutes) invalid_operating_hours
    fail_if (pos_part (quot slot_duration 60000000000) == 0) division_by_zero
    ok (
        slots_from (slot_at now date blocked bookings (pos_part (quot slot_duration 60000000000)))
          (suc close_minutes) (pos_part (quot slot_duration 60000000000)) close_minutes
          open_minutes)

  abbrev pub closed_availability : Text → ℕ → AvailabilityResponse
  closed_availability court_id date = record {
    court_id = court_id;
    date = calendar.format_date date;
    status = text "CLOSED";
    slots = [];
  }

  abbrev pub parse_availability_date : Text → Result AvailabilityError ℕ
  parse_availability_date value = elim (calendar.parse_date (trim_space value)) [
    | none ↦ err invalid_availability_date
    | some date ↦ if text_eq (trim_space value) [] then err invalid_availability_date else ok date
  ]

  -- The answer for a court that is open on the day.
  unfoldable pub open_availability :
      Text → ℕ → OperatingHour → AvailabilityStore → Result AvailabilityError AvailabilityResponse
  unfolding build_slots
  open_availability court_id date hours s = do
    slots ←
        build_slots s.now date hours
          (list_blocked_slots court_id (calendar.date_at date 0 0)
            (calendar.date_at (calendar.next_day date) 0 0) s)
          (list_active_bookings court_id date s) (pos 3600000000000)
    ok (record {
      court_id = court_id;
      date = calendar.format_date date;
      status = text "OPEN";
      slots = slots;
    })

  unfoldable pub get_availability :
      Text → Text → AvailabilityStore → Result AvailabilityError AvailabilityResponse
  unfolding open_availability
  get_availability court_id date_value s = do
    date ← parse_availability_date date_value
    elim (find_court_by_id court_id s) [
      | none ↦ err court_not_found
      | some court ↦
          if not
            (text_eq court.status (text "ACTIVE") && text_eq court.venue_status (text "ACTIVE"))
          then ok (closed_availability court_id date)
          else elim (find_operating_hour court_id (calendar.weekday date) s) [
            | none ↦ ok (closed_availability court_id date)
            | some hours ↦
                if is_closed_operating_hour hours
                then ok (closed_availability court_id date)
                else open_availability court_id date hours s
          ]
    ]
