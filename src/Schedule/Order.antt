-- ===== src/Schedule/Order.antt =====
-- The occurrences of a schedule are in order and not bounded (scheduler/recurrence.py).
use mathlib.Core.Path.{subst, sym}
use scientific_research_rada.Prelude.{
  ℕ, zero, suc, ◌+◌, ◌*◌, ◌≤◌, ◌<◌, ltb, leb, arith, ◌≡◌, leb→le, Bool-cases, inl, inr,
}
use scientific_research_rada.Schedule.Recurrence.{
  Local, Zone, Frequency, DigestSchedule, full_day, clock, anchor_of, month_later, local_for,
  local_at, occurrence,
}

-- What calendar and zoneinfo document: months follow each other and are not empty, a date is a day
-- of its month, an offset is less than a day, and wall-clock times at least a day apart keep their
-- order.
pub record IsZone (zone : Zone) : Type 0 where
  pub months : (m : ℕ) → zone.month_start (suc m) ≡ zone.month_start m + zone.month_length m
  pub days : (m : ℕ) → 1 ≤ zone.month_length m
  pub date :
      (t : ℕ)
      → (1 ≤ (zone.to_local t).day)
        × ((zone.to_local t).day ≤ zone.month_length (zone.to_local t).month)
  pub offset : (l : ℕ) → l ≤ zone.to_utc l + full_day
  pub ordered : (l l' : ℕ) → l + full_day ≤ l' → zone.to_utc l ≤ zone.to_utc l'
  pub after : (t l : ℕ) → clock zone (zone.to_local t) + full_day ≤ l → t ≤ zone.to_utc l

module _ (zone : Zone) (laws : IsZone zone) where
  month_start-later :
      (m n : ℕ) → m < n → zone.month_start m + zone.month_length m ≤ zone.month_start n
  month_start-later m zero h = omega arith
  month_start-later m (suc n) h = elim (Bool-cases (ltb m n)) [
    | inl before ↦ ground (arith, month_start-later m n, laws.months n)
    | inr last ↦
        let same : m ≡ n = ground arith in
        subst (λ x. zone.month_start x + zone.month_length x ≤ zone.month_start (suc n)) (sym same)
          (omega (arith, laws.months n))
  ]

  clock-month_later :
      (anchor : Local) (a b : ℕ)
      → 1 ≤ anchor.day
      → a < b
      → clock zone (month_later zone anchor a) + full_day ≤ clock zone (month_later zone anchor b)
  unfolding clock month_later
  clock-month_later anchor a b day before = omega (
    arith,
    month_start-later (anchor.month + a) (anchor.month + b) (omega arith),
    laws.days (anchor.month + a),
    laws.days (anchor.month + b),
  )

  -- The local times are at least a day apart.
  local_for-step :
      (f : Frequency) (anchor : Local) (i : ℕ)
      → 1 ≤ anchor.day
      → local_for zone f anchor i + full_day ≤ local_for zone f anchor (suc i)
  unfolding local_for
  local_for-step Frequency.daily anchor i day = omega arith
  local_for-step Frequency.weekly anchor i day = omega arith
  local_for-step Frequency.monthly anchor i day =
      clock-month_later anchor (i * 1) (suc i * 1) day (omega arith)
  local_for-step Frequency.quarterly anchor i day =
      clock-month_later anchor (i * 3) (suc i * 3) day (omega arith)

  clock-first :
      (anchor : Local) (a : ℕ)
      → 1 ≤ anchor.day
      → anchor.day ≤ zone.month_length anchor.month
      → 1 ≤ a
      → clock zone anchor + full_day ≤ clock zone (month_later zone anchor a)
  unfolding clock month_later
  clock-first anchor a day date later = omega (
    arith,
    month_start-later anchor.month (anchor.month + a) (omega arith),
    laws.days (anchor.month + a),
  )

  local_for-first :
      (f : Frequency) (anchor : Local)
      → 1 ≤ anchor.day
      → anchor.day ≤ zone.month_length anchor.month
      → clock zone anchor + full_day ≤ local_for zone f anchor 1
  unfolding local_for
  local_for-first Frequency.daily anchor day date = omega arith
  local_for-first Frequency.weekly anchor day date = omega arith
  local_for-first Frequency.monthly anchor day date = clock-first anchor 1 day date (omega arith)
  local_for-first Frequency.quarterly anchor day date = clock-first anchor 3 day date (omega arith)

  local_at-step :
      (s : DigestSchedule) (i : ℕ) → local_at zone s i + full_day ≤ local_at zone s (suc i)
  local_at-step s i = local_for-step s.frequency (anchor_of zone s) i (laws.date s.starts_at).0

  pub local_at-unbounded : (s : DigestSchedule) (i : ℕ) → i * full_day ≤ local_at zone s i
  local_at-unbounded s zero = omega arith
  local_at-unbounded s (suc i) = omega (arith, local_at-unbounded s i, local_at-step s i)

  pub occurrence-step :
      (s : DigestSchedule) (i : ℕ) → occurrence zone s i ≤ occurrence zone s (suc i)
  unfolding occurrence
  occurrence-step s zero = laws.after s.starts_at (local_at zone s 1) (
      local_for-first s.frequency (anchor_of zone s) (laws.date s.starts_at).0
        (laws.date s.starts_at).1)
  occurrence-step s (suc i) = laws.ordered _ _ (local_at-step s (suc i))

  pub occurrence_mono :
      (s : DigestSchedule) (i j : ℕ) → i ≤ j → occurrence zone s i ≤ occurrence zone s j
  occurrence_mono s i zero h =
      let same : i ≡ 0 = omega arith in
      subst (λ x. occurrence zone s x ≤ occurrence zone s 0) (sym same) (omega arith)
  occurrence_mono s i (suc j) h = elim (Bool-cases (leb i j)) [
    | inl before ↦ omega (arith, occurrence_mono s i j (leb→le i j before), occurrence-step s j)
    | inr last ↦
        let same : i ≡ suc j = ground arith in
        subst (λ x. occurrence zone s x ≤ occurrence zone s (suc j)) (sym same) (omega arith)
  ]

  pub occurrence-unbounded :
      (s : DigestSchedule) (i : ℕ) → i * full_day ≤ occurrence zone s i + full_day
  unfolding occurrence
  occurrence-unbounded s zero = omega arith
  occurrence-unbounded s (suc i) =
      omega (arith, local_at-unbounded s (suc i), laws.offset (local_at zone s (suc i)))
