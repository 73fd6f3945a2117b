-- ===== src/Schedule/Tests.antt =====
-- A daily schedule in a zone without offset, with months of thirty days.
use scientific_research_rada.Prelude.{◌+◌, ◌*◌, ◌/◌, ◌%◌, some, ◌≡◌, refl, arith}
use scientific_research_rada.Schedule.Recurrence.{
  Zone, Frequency, DigestSchedule, clock, local_for, occurrence, guess, step_back, step_on,
  find_index, around, first_dispatch,
}
use scientific_research_rada.Schedule.Order.{IsZone}
use scientific_research_rada.Schedule.Around.{IsLatest, IsNext, around_lem}

abbrev plain : Zone
plain = record {
  to_local = λ t. record {
    month = t / 86400000000 / 30;
    day = t / 86400000000 % 30 + 1;
    time = t % 86400000000;
  };
  to_utc = λ l. l;
  month_start = λ m. m * 30;
  month_length = λ _. 30;
}

plain-IsZone : IsZone plain
unfolding clock
plain-IsZone = record {
  months = λ m. omega arith;
  days = λ m. omega arith;
  date = λ t. (omega arith, omega arith);
  offset = λ l. omega arith;
  ordered = λ l l' h. omega arith;
  after = λ t l h. omega arith;
}

-- From noon of day 1, each day, until day 9.
abbrev each_day : DigestSchedule
each_day = record {
  frequency = Frequency.daily;
  starts_at = 129600000000;
  ends_at = some 777600000000;
}

-- At the start of day 4 the last run was due at noon of day 3, and the next one is at noon.
at_day_four : around plain each_day 345600000000 ≡ (some 302400000000, some 388800000000)
unfolding around find_index guess step_back step_on occurrence local_for clock
at_day_four = refl

starts_later : first_dispatch plain each_day 5 ≡ some 129600000000
unfolding first_dispatch around find_index guess step_back step_on occurrence local_for clock
starts_later = refl

around_lem_example :
    IsLatest plain plain-IsZone each_day 345600000000 (around plain each_day 345600000000).0
    × IsNext plain plain-IsZone each_day 345600000000 (around plain each_day 345600000000).1
around_lem_example = around_lem plain plain-IsZone each_day 345600000000 refl
