-- ===== src/Availability/Schedule.antt =====
-- The slots that buildSlots of apps/api/internal/availability/service.go gives: how many there are and
-- where they lie.
use lapangan_go.Base.{
  ℕ, zero, suc, ◌+◌, ◌*◌, ◌/◌, ◌%◌, ◌≤◌, ◌<◌, ◌≡◌, sym, ap, subst, ◌∙◌, arith, true, false, not,
  ◌||◌, List, [], ◌∷◌, All, Pairwise, leb, ◌==◌, is_some, ok, bind_ok, ok-injective, fail_if,
  fail_if-eq-ok, Bool-cases, inl, inr, ℤ, pos, pos_part, quot, leb_ℤ,
}
use lapangan_go.Availability.Types.{
  SlotResponse, OperatingHour, BlockedSlot, ActiveBooking, Calendar, invalid_operating_hours,
  division_by_zero,
}
use lapangan_go.Availability.Slots.{time_at_minutes, slot_at, slots_from, minutes_of, build_slots}

-- n slots, one after the other.
abbrev pub slot_series : (ℕ → SlotResponse) → ℕ → ℕ → ℕ → List SlotResponse
slot_series slot zero slot_minutes start_minutes = []
slot_series slot (suc n) slot_minutes start_minutes =
    slot start_minutes ∷ slot_series slot n slot_minutes (start_minutes + slot_minutes)

-- As many slots as fit, no fewer and no more.
pub record IsFull (slot : ℕ → SlotResponse) (slot_minutes open_minutes close_minutes : ℕ)
    (slots : List SlotResponse) : Type 0 where
  pub count : ℕ
  pub series : slots ≡ slot_series slot count slot_minutes open_minutes
  pub fits : open_minutes + count * slot_minutes ≤ close_minutes
  pub no_more : close_minutes < open_minutes + count * slot_minutes + slot_minutes

slots_from-more :
    (slot : ℕ → SlotResponse) (rounds m close start : ℕ)
    → leb (start + m) close ≡ true
    → slots_from slot (suc rounds) m close start
      ≡ slot start ∷ slots_from slot rounds m close (start + m)
unfolding slots_from
slots_from-more slot rounds m close start h = ground (arith, h)

slots_from-end :
    (slot : ℕ → SlotResponse) (rounds m close start : ℕ)
    → leb (start + m) close ≡ false
    → slots_from slot (suc rounds) m close start ≡ []
unfolding slots_from
slots_from-end slot rounds m close start h = ground (arith, h)

slots_from-IsFull :
    (slot : ℕ → SlotResponse) (rounds slot_minutes close_minutes start_minutes : ℕ)
    → 0 < slot_minutes
    → start_minutes ≤ close_minutes
    → close_minutes < start_minutes + rounds
    → IsFull slot slot_minutes start_minutes close_minutes
        (slots_from slot rounds slot_minutes close_minutes start_minutes)
slots_from-IsFull slot zero m close start positive opened enough = absurd (omega arith)
slots_from-IsFull slot (suc rounds) m close start positive opened enough =
    elim (Bool-cases (leb (start + m) close)) [
      | inl e ↦
          let rest =
            slots_from-IsFull slot rounds m close (start + m) positive (ground arith)
              (omega arith) in
          record {
            count = suc (rest.count);
            series =
                slots_from-more slot rounds m close start e ∙ ap (λ l. slot start ∷ l) rest.series;
            fits = grind (arith, rest.fits);
            no_more = grind (arith, rest.no_more);
          }
      | inr e ↦ record {
        count = 0;
        series = slots_from-end slot rounds m close start e;
        fits = omega arith;
        no_more = ground arith;
      }
    ]

-- The clock of a day goes forward.
pub record IsCalendar (calendar : Calendar) : Type 0 where
  pub forward :
      (d h m h' m' : ℕ)
      → m < 60
      → m' < 60
      → h * 60 + m < h' * 60 + m'
      → calendar.date_at d h m < calendar.date_at d h' m'
  pub before_next_day :
      (d h m : ℕ)
      → h < 24
      → m < 60
      → calendar.date_at d h m < calendar.date_at (calendar.next_day d) 0 0

module _ (calendar : Calendar) (law : IsCalendar calendar) (date : ℕ) where
  pub time_at_minutes-forward :
      (a b : ℕ) → a < b → time_at_minutes calendar date a < time_at_minutes calendar date b
  unfolding time_at_minutes
  time_at_minutes-forward a b h =
      law.forward date (a / 60) (a % 60) (b / 60) (b % 60) (omega arith) (omega arith) (omega arith)

  pub time_at_minutes-le :
      (a b : ℕ) → a ≤ b → time_at_minutes calendar date a ≤ time_at_minutes calendar date b
  time_at_minutes-le a b h = elim (Bool-cases (a == b)) [
    | inl e ↦ let same : a ≡ b = ground arith in rw same (omega arith)
    | inr e ↦ let less = time_at_minutes-forward a b (ground arith) in omega arith
  ]

  -- A slot between two minutes of the day.
  abbrev pub IsBetween : ℕ → ℕ → SlotResponse → Type 0
  IsBetween open_minutes close_minutes slot =
      (time_at_minutes calendar date open_minutes ≤ slot.start_at)
      × (slot.start_at < slot.end_at)
      × (slot.end_at ≤ time_at_minutes calendar date close_minutes)

module _ (calendar : Calendar) (law : IsCalendar calendar) (now date : ℕ)
    (blocked : List BlockedSlot) (bookings : List ActiveBooking) (slot_minutes : ℕ)
    (positive : 0 < slot_minutes) where
  abbrev slot : ℕ → SlotResponse
  slot = slot_at calendar now date blocked bookings slot_minutes

  slot_series-IsBetween :
      (n start open_minutes close_minutes : ℕ)
      → open_minutes ≤ start
      → start + n * slot_minutes ≤ close_minutes
      → All
          (IsBetween calendar law date open_minutes close_minutes)
          (slot_series slot n slot_minutes start)
  unfolding slot_at
  slot_series-IsBetween zero start from to h k = tt
  slot_series-IsBetween (suc n) start from to h k = (
    (
      time_at_minutes-le calendar law date from start h,
      time_at_minutes-forward calendar law date start (start + slot_minutes) (omega arith),
      time_at_minutes-le calendar law date (start + slot_minutes) to (grind arith),
    ),
    slot_series-IsBetween n (start + slot_minutes) from to (omega arith) (grind arith),
  )

  -- The slots that come later start when this one has ended.
  slot_series-after :
      (n start end : ℕ)
      → end ≤ start
      → All
          (λ (s : SlotResponse). time_at_minutes calendar date end ≤ s.start_at)
          (slot_series slot n slot_minutes start)
  unfolding slot_at
  slot_series-after zero start end h = tt
  slot_series-after (suc n) start end h = (
    time_at_minutes-le calendar law date end start h,
    slot_series-after n (start + slot_minutes) end (omega arith),
  )

  slot_series-Pairwise :
      (n start : ℕ)
      → Pairwise
          (λ (s t : SlotResponse). s.end_at ≤ t.start_at)
          (slot_series slot n slot_minutes start)
  unfolding slot_at
  slot_series-Pairwise zero start = tt
  slot_series-Pairwise (suc n) start = (
    slot_series-after n (start + slot_minutes) (start + slot_minutes) (omega arith),
    slot_series-Pairwise n (start + slot_minutes),
  )

-- The whole minutes of a duration.
abbrev pub whole_minutes : ℤ → ℕ
whole_minutes slot_duration = pos_part (quot slot_duration 60000000000)

-- The slots of a day: as many as fit between the hours, in order and apart.
pub record IsSchedule (calendar : Calendar) (law : IsCalendar calendar) (now date : ℕ)
    (hours : OperatingHour) (blocked : List BlockedSlot) (bookings : List ActiveBooking)
    (slot_duration : ℤ) (slots : List SlotResponse) : Type 0 where
  pub open_minutes : ℕ
  pub close_minutes : ℕ
  pub opens : minutes_of hours.open_time ≡ ok open_minutes
  pub closes : minutes_of hours.close_time ≡ ok close_minutes
  pub full :
      IsFull
        (slot_at calendar now date blocked bookings (pos_part (quot slot_duration 60000000000)))
        (pos_part (quot slot_duration 60000000000))
        open_minutes
        close_minutes
        slots
  pub inside : All (IsBetween calendar law date open_minutes close_minutes) slots
  pub apart : Pairwise (λ (s t : SlotResponse). s.end_at ≤ t.start_at) slots

-- When the slots of a day can be built, there are as many as fit between the opening and the closing
-- time, and no more; each lies between these times and ends after it starts; and each ends before
-- the next one starts.
pub build_slots-IsSchedule :
    (calendar : Calendar) (law : IsCalendar calendar) (now date : ℕ) (hours : OperatingHour)
    (blocked : List BlockedSlot) (bookings : List ActiveBooking) (slot_duration : ℤ)
    (slots : List SlotResponse)
    → build_slots calendar now date hours blocked bookings slot_duration ≡ ok slots
    → IsSchedule calendar law now date hours blocked bookings slot_duration slots
unfolding build_slots
build_slots-IsSchedule calendar law now date hours blocked bookings slot_duration slots h =
    bind_ok
      (fail_if
        (not (is_some hours.open_time)
          || not (is_some hours.close_time)
          || leb_ℤ slot_duration (pos 0))
        invalid_operating_hours)
      h
      λ _ h₀ k₀. bind_ok (minutes_of hours.open_time) k₀ λ opens h₁ k₁.
        bind_ok (minutes_of hours.close_time) k₁ λ closes h₂ k₂.
          bind_ok (fail_if (leb closes opens) invalid_operating_hours) k₂ λ _ h₃ k₃.
            bind_ok (fail_if ((whole_minutes slot_duration) == 0) division_by_zero) k₃ λ _ h₄ k₄.
              let later = fail_if-eq-ok (leb closes opens) _ h₃ in
              let some_minutes = fail_if-eq-ok ((whole_minutes slot_duration) == 0) _ h₄ in
              let positive : 0 < (whole_minutes slot_duration) = ground arith in
              let full =
                slots_from-IsFull
                  (slot_at calendar now date blocked bookings (whole_minutes slot_duration))
                  (suc closes) (whole_minutes slot_duration) closes opens positive (ground arith)
                  (omega arith) in
              subst (IsSchedule calendar law now date hours blocked bookings slot_duration)
                (ok-injective k₄)
                (record {
                  open_minutes = opens;
                  close_minutes = closes;
                  opens = h₁;
                  closes = h₂;
                  full = full;
                  inside =
                      subst (All (IsBetween calendar law date opens closes)) (sym full.series) (
                        slot_series-IsBetween calendar law now date blocked bookings
                          (whole_minutes slot_duration) positive full.count opens opens closes
                          (omega arith) full.fits);
                  apart =
                      subst (Pairwise (λ (s t : SlotResponse). s.end_at ≤ t.start_at))
                        (sym full.series)
                        (slot_series-Pairwise calendar law now date blocked bookings
                          (whole_minutes slot_duration) positive full.count opens);
                })
