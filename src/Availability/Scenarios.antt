-- ===== src/Availability/Scenarios.antt =====
-- A court on a morning with three hours, one blocked and one booked.
use lapangan_go.Base.{
  ℕ, ◌+◌, ◌*◌, ◌<◌, ◌≡◌, refl, arith, true, false, List, [], ◌∷◌, All, Option, none, some, ok, Text,
  text, pos, trim_space,
}
use lapangan_go.Base
use lapangan_go.Availability.Types.{
  SlotResponse, AvailabilityResponse, OperatingHour, BlockedSlot, ActiveBooking, Calendar,
  AvailabilityStore,
}
use lapangan_go.Availability.Slots.{build_slots, get_availability, parse_clock_minutes}
use lapangan_go.Availability.Slots
use lapangan_go.Availability.Clock.{clock_text, parse_clock_minutes-clock_text}
use lapangan_go.Availability.Schedule.{IsCalendar, IsSchedule, build_slots-IsSchedule}
use lapangan_go.Availability.Free.{IsFree, get_availability-IsFree}

-- Days of 86400 seconds, as a location without changes of its clock has them. Every text is read as
-- the third day.
abbrev calendar : Calendar
calendar = record {
  parse_date = λ _. some 3;
  format_date = λ _. text "2026-01-03";
  weekday = λ d. d;
  next_day = λ d. d + 1;
  date_at = λ d h m. 86400000000000 * d + 3600000000000 * h + 60000000000 * m;
}

calendar-IsCalendar : IsCalendar calendar
calendar-IsCalendar = record {
  forward = λ d h m h' m' hm hm' less. omega arith;
  before_next_day = λ d h m hh hm. omega arith;
}

abbrev hours : OperatingHour
hours = record {
  court_id = text "c";
  day_of_week = 3;
  open_time = some (text "08:00");
  close_time = some (text "11:30");
  is_closed = false;
}

abbrev blocked_slot : BlockedSlot
blocked_slot = record {
  id = text "b";
  court_id = text "c";
  start_at = calendar.date_at 3 8 30;
  end_at = calendar.date_at 3 9 0;
}

abbrev booking : ActiveBooking
booking = record {
  id = text "k";
  court_id = text "c";
  date = 3;
  start_time = (9, 0);
  end_time = (10, 0);
  status = text "PAID";
  expires_at = none;
}

abbrev store : AvailabilityStore
store = record {
  courts = record { id = text "c"; status = text "ACTIVE"; venue_status = text "ACTIVE" } ∷ [];
  operating_hours = hours ∷ [];
  blocked_slots = blocked_slot ∷ [];
  bookings = booking ∷ [];
  now = 5;
}

abbrev slot : ℕ → Text → SlotResponse
slot h status = record {
  start_at = calendar.date_at 3 h 0;
  end_at = calendar.date_at 3 (h + 1) 0;
  status = status;
}

abbrev slots : List SlotResponse
slots = slot 8 (text "BLOCKED") ∷ slot 9 (text "BOOKED") ∷ slot 10 (text "AVAILABLE") ∷ []

abbrev answer : AvailabilityResponse
answer = record {
  court_id = text "c";
  date = text "2026-01-03";
  status = text "OPEN";
  slots = slots;
}

built :
    build_slots calendar 5 3 hours (blocked_slot ∷ []) (booking ∷ []) (pos 3600000000000) ≡ ok slots
unfolding Slots.build_slots Slots.slots_from Slots.slot_at Slots.time_at_minutes
    Slots.overlaps_any_blocked_slot Slots.overlaps_any_booking Slots.is_expired_pending
    Slots.parse_clock_minutes Slots.atoi_two Slots.clock_minutes Base.quot Base.text_eq
built = refl

answered : get_availability calendar (text "c") (text "2026-01-03") store ≡ ok answer
unfolding Slots.get_availability Slots.open_availability Slots.build_slots Slots.slots_from
    Slots.slot_at Slots.time_at_minutes Slots.overlaps_any_blocked_slot Slots.overlaps_any_booking
    Slots.is_expired_pending Slots.parse_clock_minutes Slots.atoi_two Slots.clock_minutes Base.quot
    Base.text_eq Base.trim_space Base.trim_left Base.trim_right
answered = refl

build_slots-IsSchedule_example :
    IsSchedule calendar calendar-IsCalendar 5 3 hours
      (blocked_slot ∷ [])
      (booking ∷ [])
      (pos 3600000000000)
      slots
build_slots-IsSchedule_example =
    build_slots-IsSchedule calendar calendar-IsCalendar 5 3 hours (blocked_slot ∷ []) (booking ∷ [])
      (pos 3600000000000) slots built

get_availability-IsFree_example :
    (date : ℕ) × (calendar.parse_date (trim_space (text "2026-01-03")) ≡ some date)
    × All (λ t. t.status ≡ text "AVAILABLE" → IsFree calendar store (text "c") date t) answer.slots
get_availability-IsFree_example =
    get_availability-IsFree calendar calendar-IsCalendar store (text "c") (text "2026-01-03") answer
      answered

parse_clock_minutes-clock_text_example : parse_clock_minutes (clock_text 23 59) ≡ ok 1439
parse_clock_minutes-clock_text_example =
    parse_clock_minutes-clock_text 23 59 (omega arith) (omega arith)
