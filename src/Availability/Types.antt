-- ===== src/Availability/Types.antt =====
-- The data of apps/api/internal/availability/dto.go and repository.go. An instant is a number of
-- nanoseconds, and a day is the number that the calendar gives it.
use lapangan_go.Base.{ℕ, Bool, List, Option, Text}

pub record SlotResponse : Type 0 where
  pub start_at : ℕ
  pub end_at : ℕ
  pub status : Text

pub record AvailabilityResponse : Type 0 where
  pub court_id : Text
  pub date : Text
  pub status : Text
  pub slots : List SlotResponse

-- A court with the status of its venue.
pub record Court : Type 0 where
  pub id : Text
  pub status : Text
  pub venue_status : Text

pub record OperatingHour : Type 0 where
  pub court_id : Text
  pub day_of_week : ℕ
  pub open_time : Option Text
  pub close_time : Option Text
  pub is_closed : Bool

pub record BlockedSlot : Type 0 where
  pub id : Text
  pub court_id : Text
  pub start_at : ℕ
  pub end_at : ℕ

-- The times of a booking are an hour and a minute of its day.
pub record ActiveBooking : Type 0 where
  pub id : Text
  pub court_id : Text
  pub date : ℕ
  pub start_time : ℕ × ℕ
  pub end_time : ℕ × ℕ
  pub status : Text
  pub expires_at : Option ℕ

pub data AvailabilityError : Type 0 where
  court_not_found invalid_availability_date invalid_operating_hours division_by_zero :
      AvailabilityError

-- What package time does with the days of the court's location: ParseInLocation, Format and Weekday,
-- the day after, and time.Date with an hour and a minute of a day.
pub record Calendar : Type 0 where
  pub parse_date : Text → Option ℕ
  pub format_date : ℕ → Text
  pub weekday : ℕ → ℕ
  pub next_day : ℕ → ℕ
  pub date_at : ℕ → ℕ → ℕ → ℕ

pub record AvailabilityStore : Type 0 where
  pub courts : List Court
  pub operating_hours : List OperatingHour
  pub blocked_slots : List BlockedSlot
  pub bookings : List ActiveBooking
  pub now : ℕ
