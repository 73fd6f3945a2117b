-- ===== src/Schedule/Recurrence.antt =====
-- scheduler/recurrence.py. A time counts microseconds, in UTC or on the wall clock of the schedule's
-- zone; zoneinfo and calendar are parameters.
use scientific_research_rada.Prelude.{
  ℕ, zero, suc, ◌+◌, ◌-◌, ◌*◌, ◌/◌, min, Bool, false, Option, none, some, ltb, leb, if◌then◌else◌,
}

-- A wall-clock time: months since year 0, the day of the month from 1, the time of day.
pub record Local : Type 0 where
  pub month : ℕ
  pub day : ℕ
  pub time : ℕ

-- `ZoneInfo(schedule.time_zone)` with the calendar.
pub record Zone : Type 0 where
  -- `value.astimezone(zone)`
  pub to_local : ℕ → Local
  -- `local.replace(fold=0).astimezone(timezone.utc)`, of a wall-clock time as one number.
  pub to_utc : ℕ → ℕ
  -- The days before a month.
  pub month_start : ℕ → ℕ
  -- `monthrange(year, month)[1]`
  pub month_length : ℕ → ℕ

pub data Frequency : Type 0 where
  daily weekly monthly quarterly : Frequency

pub record DigestSchedule : Type 0 where
  pub frequency : Frequency
  pub starts_at : ℕ
  pub ends_at : Option ℕ

-- A day has 86400 seconds.
abbrev pub full_day : ℕ
full_day = 86400000000

-- The fuel of the second loop: there is at most one occurrence a day.
abbrev pub enough : ℕ → ℕ
enough now = now / full_day + 2

-- `ends_at is not None and t >= ends_at`
abbrev pub reaches : Option ℕ → ℕ → Bool
reaches none t = false
reaches (some end) t = leb end t

abbrev pub is_over : DigestSchedule → ℕ → Bool
is_over schedule t = reaches schedule.ends_at t

abbrev pub cut_off : DigestSchedule → ℕ → Option ℕ
cut_off schedule t = if is_over schedule t then none else some t

module _ (zone : Zone) where
  -- A wall-clock time as one number.
  unfoldable pub clock : Local → ℕ
  clock l = (zone.month_start l.month + (l.day - 1)) * full_day + l.time

  abbrev pub anchor_of : DigestSchedule → Local
  anchor_of schedule = zone.to_local schedule.starts_at

  -- `anchor.replace(year, month, day=min(anchor.day, monthrange(...)[1]))`, some months later.
  unfoldable pub month_later : Local → ℕ → Local
  month_later anchor months =
      let month = anchor.month + months in
      record { month = month; day = min anchor.day (zone.month_length month); time = anchor.time }

  unfoldable pub local_for : Frequency → Local → ℕ → ℕ
  local_for Frequency.daily anchor index = clock anchor + index * 1 * full_day
  local_for Frequency.weekly anchor index = clock anchor + index * 7 * full_day
  local_for Frequency.monthly anchor index = clock (month_later anchor (index * 1))
  local_for Frequency.quarterly anchor index = clock (month_later anchor (index * 3))

  abbrev pub local_at : DigestSchedule → ℕ → ℕ
  local_at schedule index = local_for schedule.frequency (anchor_of schedule) index

  unfoldable pub occurrence : DigestSchedule → ℕ → ℕ
  occurrence schedule zero = schedule.starts_at
  occurrence schedule (suc index) = zone.to_utc (local_at schedule (suc index))

  -- The first guess of `around`, where a negative difference counts as 0.
  unfoldable pub guess : DigestSchedule → ℕ → ℕ
  guess schedule now =
      let anchor = anchor_of schedule in
      let local_now = zone.to_local now in
      let days = clock local_now / full_day - clock anchor / full_day in
      let months = local_now.month - anchor.month in
      elim (schedule.frequency) [
        | Frequency.daily ↦ days / 1
        | Frequency.weekly ↦ days / 7
        | Frequency.monthly ↦ months / 1
        | Frequency.quarterly ↦ months / 3
      ]

  -- `while index > 0 and occurrence(schedule, index) > now: index -= 1`
  unfoldable pub step_back : DigestSchedule → ℕ → ℕ → ℕ
  step_back schedule now zero = zero
  step_back schedule now (suc index) =
      let rest = step_back schedule now index in
      if ltb now (occurrence schedule (suc index)) then rest else suc index

  -- `while occurrence(schedule, index + 1) <= now: index += 1`, on fuel.
  unfoldable pub step_on : ℕ → DigestSchedule → ℕ → ℕ → ℕ
  step_on zero schedule now index = index
  step_on (suc fuel) schedule now index =
      let rest = step_on fuel schedule now (suc index) in
      if leb (occurrence schedule (suc index)) now then rest else index

  unfoldable pub find_index : DigestSchedule → ℕ → ℕ
  find_index schedule now =
      step_on (enough now) schedule now (step_back schedule now (guess schedule now))

  unfoldable pub around : DigestSchedule → ℕ → Option ℕ × Option ℕ
  around schedule now =
      let index = find_index schedule now in
      let candidate = occurrence schedule index in
      if is_over schedule now
      then (none, none)
      else if leb candidate now
      then (some candidate, cut_off schedule (occurrence schedule (suc index)))
      else (none, cut_off schedule candidate)

  unfoldable pub first_dispatch : DigestSchedule → ℕ → Option ℕ
  first_dispatch schedule now = (around schedule now).1
