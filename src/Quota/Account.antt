-- ===== src/Quota/Account.antt =====
-- services/subscription_access_service.py: the billing window of an account, and the digests that
-- stay active under a plan. A time is a month, a day and a time of day.
use scientific_research_rada.Prelude.{
  ℕ, ◌+◌, ◌-◌, ◌≤◌, zero, suc, min, String, Bool, true, false, not, ◌&&◌, ◌||◌, List, [], ◌∷◌, ◌++◌,
  ltb, ◌==◌, ◌≡◌, refl, arith, if◌then◌else◌, length, take, keep, length-append,
}
use scientific_research_rada.Prelude.Texts.{contains, is_subset, is_subset-append, is_subset_refl}
use scientific_research_rada.Schedule.Recurrence.{Local}

-- The `>` of two times.
unfoldable pub is_after : Local → Local → Bool
is_after a b =
    ltb b.month a.month
    || (a.month == b.month && (ltb b.day a.day || (a.day == b.day && ltb b.time a.time)))

-- `month_length` is `monthrange(year, month)[1]`.
module _ (month_length : ℕ → ℕ) where
  -- `month_at`, for the month that the offset reaches.
  unfoldable pub month_at : Local → ℕ → Local
  month_at anchor month = record {
    month = month;
    day = min anchor.day (month_length month);
    time = anchor.time;
  }

  unfoldable pub window : Local → Local → Local × Local
  window anchor stamp =
      let month =
        if is_after (month_at anchor stamp.month) stamp then stamp.month - 1 else stamp.month in
      (month_at anchor month, month_at anchor (month + 1))

  -- The window of a time after the first month starts at or before that time and ends after it.
  pub window_lem :
      (anchor stamp : Local)
      → 1 ≤ stamp.month
      → (is_after (window anchor stamp).0 stamp ≡ false)
        × (is_after (window anchor stamp).1 stamp ≡ true)
  unfolding window month_at is_after
  window_lem anchor stamp h = ground arith

-- `free_digest_ids`: `available` is the answer of the query, `preferences` the saved choice.
unfoldable pub free_digest_ids : List String → List String → ℕ → List String
free_digest_ids available preferences limit =
    let preferred = take limit (keep (contains available) preferences) in
    preferred
    ++ take (limit - length preferred) (keep (λ id. not (contains preferred id)) available)

length-take_le : (n : ℕ) (xs : List String) → length (take n xs) ≤ n
length-take_le zero xs = omega arith
length-take_le (suc n) [] = omega arith
length-take_le (suc n) (x ∷ xs) = omega (arith, length-take_le n xs)

is_subset-take :
    (n : ℕ) (xs ys : List String) → is_subset xs ys ≡ true → is_subset (take n xs) ys ≡ true
unfolding is_subset
is_subset-take zero xs ys h = refl
is_subset-take (suc n) [] ys h = refl
is_subset-take (suc n) (x ∷ xs) ys h = ground (arith, is_subset-take n xs ys)

is_subset-keep_known : (xs ys : List String) → is_subset (keep (contains ys) xs) ys ≡ true
unfolding is_subset
is_subset-keep_known [] ys = refl
is_subset-keep_known (x ∷ xs) ys = ground (arith, is_subset-keep_known xs ys)

is_subset-keep :
    (p : String → Bool) (xs ys : List String)
    → is_subset xs ys ≡ true
    → is_subset (keep p xs) ys ≡ true
unfolding is_subset
is_subset-keep p [] ys h = refl
is_subset-keep p (x ∷ xs) ys h = ground (arith, is_subset-keep p xs ys)

-- The active digests are digests of the account, and not more than the plan allows.
pub free_digest_ids_lem :
    (available preferences : List String) (limit : ℕ)
    → (length (free_digest_ids available preferences limit) ≤ limit)
      × (is_subset (free_digest_ids available preferences limit) available ≡ true)
unfolding free_digest_ids
free_digest_ids_lem available preferences limit =
    let preferred = take limit (keep (contains available) preferences) in
    let others = keep (λ id. not (contains preferred id)) available in
    (
      omega (
        arith,
        length-append preferred (take (limit - length preferred) others),
        length-take_le limit (keep (contains available) preferences),
        length-take_le (limit - length preferred) others,
      ),
      ground (
        arith,
        is_subset-append preferred (take (limit - length preferred) others) available,
        is_subset-take limit (keep (contains available) preferences) available,
        is_subset-keep_known preferences available,
        is_subset-take (limit - length preferred) others available,
        is_subset-keep (λ id. not (contains preferred id)) available available,
        is_subset_refl available,
      ),
    )
