-- ===== src/Schedule/Around.antt =====
-- `around` and `first_dispatch` of scheduler/recurrence.py: the loops end, and no occurrence is
-- skipped.
use mathlib.Core.Path.{subst, sym}
use scientific_research_rada.Prelude.{
  ℕ, zero, suc, ◌+◌, ◌*◌, ◌≤◌, ◌<◌, true, false, Option, none, some, leb, arith, ◌≡◌, ◌⊎◌, refl,
  leb→le, Bool-cases, inl, inr,
}
use scientific_research_rada.Schedule.Recurrence.{
  Zone, DigestSchedule, full_day, occurrence, guess, step_back, step_on, enough, find_index,
  reaches, is_over, cut_off, around,
}
use scientific_research_rada.Schedule.Order.{IsZone, occurrence_mono, occurrence-unbounded}

reaches_mono : (ends : Option ℕ) (t u : ℕ) → t ≤ u → reaches ends t ≡ true → reaches ends u ≡ true
reaches_mono none t u le h = h
reaches_mono (some end) t u le h = ground arith

module _ (zone : Zone) (laws : IsZone zone) (s : DigestSchedule) (now : ℕ) where
  abbrev Reached : ℕ → Type 0
  Reached i = (i ≡ 0) ⊎ (occurrence zone s i ≤ now)

  step_back-Reached : (i : ℕ) → Reached (step_back zone s now i)
  unfolding step_back
  step_back-Reached zero = inl refl
  step_back-Reached (suc i) = ground (arith, step_back-Reached i)

  step_on-Reached : (fuel i : ℕ) → Reached i → Reached (step_on zone fuel s now i)
  unfolding step_on
  step_on-Reached zero i h = h
  step_on-Reached (suc fuel) i h = ground (arith, step_on-Reached fuel (suc i))

  -- With the fuel of a day for each index, the second loop ends.
  step_on-ends :
      (fuel i : ℕ)
      → now + full_day < (i + fuel) * full_day
      → now < occurrence zone s (suc (step_on zone fuel s now i))
  unfolding step_on
  step_on-ends zero i h = omega (arith, occurrence-unbounded zone laws s (suc i))
  step_on-ends (suc fuel) i h = elim (Bool-cases (leb (occurrence zone s (suc i)) now)) [
    | inl more ↦ ground (arith, step_on-ends fuel (suc i) (omega arith))
    | inr last ↦ ground arith
  ]

  enough_lem : (i : ℕ) → now + full_day < (i + enough now) * full_day
  enough_lem i = omega arith

  find_index_lem :
      Reached (find_index zone s now) × (now < occurrence zone s (suc (find_index zone s now)))
  unfolding find_index
  find_index_lem =
      let start = step_back zone s now (guess zone s now) in
      (
        step_on-Reached (enough now) start (step_back-Reached (guess zone s now)),
        step_on-ends (enough now) start (enough_lem start),
      )

  -- The latest occurrence that is not after now.
  abbrev pub IsLatest : Option ℕ → Type 0
  IsLatest none = (i : ℕ) → now < occurrence zone s i
  IsLatest (some t) =
      (t ≤ now)
      × ((i : ℕ) × (occurrence zone s i ≡ t))
      × ((i : ℕ) → (occurrence zone s i ≤ t) ⊎ (now < occurrence zone s i))

  -- The first occurrence after now, where it is before the end of the schedule.
  abbrev pub IsNext : Option ℕ → Type 0
  IsNext none = (i : ℕ) → (occurrence zone s i ≤ now) ⊎ (is_over s (occurrence zone s i) ≡ true)
  IsNext (some t) =
      (now < t)
      × (is_over s t ≡ false)
      × ((i : ℕ) × (occurrence zone s i ≡ t))
      × ((i : ℕ) → (occurrence zone s i ≤ now) ⊎ (t ≤ occurrence zone s i))

  cut_off-over : (t : ℕ) → is_over s t ≡ true → cut_off s t ≡ none
  cut_off-over t h = ground arith

  cut_off-open : (t : ℕ) → is_over s t ≡ false → cut_off s t ≡ some t
  cut_off-open t h = ground arith

  -- The occurrence that follows the ones up to now, cut off at the end.
  cut_off-IsNext :
      (k : ℕ)
      → now < occurrence zone s k
      → ((i : ℕ) → (occurrence zone s i ≤ now) ⊎ (occurrence zone s k ≤ occurrence zone s i))
      → IsNext (cut_off s (occurrence zone s k))
  cut_off-IsNext k later least = elim (Bool-cases (is_over s (occurrence zone s k))) [
    | inl over ↦ subst IsNext (sym (cut_off-over (occurrence zone s k) over)) (λ i. elim (least i) [
      | inl before ↦ inl before
      | inr from ↦
          inr (reaches_mono s.ends_at (occurrence zone s k) (occurrence zone s i) from over)
    ])
    | inr open_then ↦
        subst IsNext (sym (cut_off-open (occurrence zone s k) open_then))
          (later, open_then, (k, refl), least)
  ]

  abbrev Answer : Option ℕ × Option ℕ → Type 0
  Answer answer = IsLatest answer.0 × IsNext answer.1

  around-reached :
      (k : ℕ)
      → find_index zone s now ≡ k
      → is_over s now ≡ false
      → occurrence zone s k ≤ now
      → around zone s now ≡ (some (occurrence zone s k), cut_off s (occurrence zone s (suc k)))
  unfolding around
  around-reached k found open_now reached = ground arith

  around-later :
      (k : ℕ)
      → find_index zone s now ≡ k
      → is_over s now ≡ false
      → now < occurrence zone s k
      → around zone s now ≡ (none, cut_off s (occurrence zone s k))
  unfolding around
  around-later k found open_now later = ground arith

  -- The occurrences up to an index, and those from the next one on.
  beside :
      (k i : ℕ)
      → (occurrence zone s i ≤ occurrence zone s k)
        ⊎ (occurrence zone s (suc k) ≤ occurrence zone s i)
  beside k i = elim (Bool-cases (leb i k)) [
    | inl before ↦ inl (occurrence_mono zone laws s i k (leb→le i k before))
    | inr from ↦ inr (occurrence_mono zone laws s (suc k) i (ground arith))
  ]

  -- An index that is not reached is the first.
  starts_later :
      (k : ℕ)
      → Reached k
      → now < occurrence zone s k
      → (i : ℕ) → occurrence zone s k ≤ occurrence zone s i
  starts_later k (inl start) later i =
      subst (λ x. occurrence zone s x ≤ occurrence zone s i) (sym start)
        (occurrence_mono zone laws s 0 i (omega arith))
  starts_later k (inr reached) later i = omega (arith, reached, later)

  -- For a zone with the documented laws, and before the end of the schedule, `around` answers the
  -- latest occurrence that is not after now and the first one after now, cut off at the end.
  pub around_lem :
      is_over s now ≡ false → IsLatest (around zone s now).0 × IsNext (around zone s now).1
  around_lem open_now =
      let k = find_index zone s now in
      let next = find_index_lem.1 in
      elim (Bool-cases (leb (occurrence zone s k) now)) [
        | inl at ↦
            let reached = leb→le (occurrence zone s k) now at in
            subst Answer (sym (around-reached k refl open_now reached)) (
              (
                reached,
                (k, refl),
                λ i. elim (beside k i) [
                  | inl before ↦ inl before
                  | inr from ↦ inr (omega (arith, next, from))
                ],
              ),
              cut_off-IsNext (suc k) next (λ i. elim (beside k i) [
                | inl before ↦ inl (omega (arith, reached, before))
                | inr from ↦ inr from
              ]),
            )
        | inr at ↦
            let later : now < occurrence zone s k = ground arith in
            let first = starts_later k find_index_lem.0 later in
            subst Answer (sym (around-later k refl open_now later))
              ((λ i. omega (arith, first i, later)), cut_off-IsNext k later (λ i. inr (first i)))
      ]
