-- ===== src/RateLimit/Allowance.antt =====
-- radar/submission.py: `_reserve_run_budget`, against the read-only forecast
-- `run_allowance_available_at` of services/rate_limit_service.py.
use scientific_research_rada.Prelude.{
  ℕ, ◌<◌, String, true, ◌∷◌, none, ltb, eq_iff, ◌≡◌, ◌≢◌, ◌↔◌, arith,
}
use scientific_research_rada.Prelude.Outcome.{Outcome, ok, raised}
use scientific_research_rada.RateLimit.{
  RateLimitBucket, RateLimitExceeded, Table, Window, get, increment, insert_or_increment,
  consume_window, bucket_of, window_key, consume, enforce, blocked_until,
  run_allowance_available_at,
}
use scientific_research_rada.RateLimit.Counting.{
  alone, count_of, increment_other, consume_window_lem,
}

get_cons_other :
    (b : RateLimitBucket) (other : String) (table : Table)
    → b.key ≢ other
    → get other (b ∷ table) ≡ get other table
unfolding get
get_cons_other b other table differ = ground (arith, eq_iff b.key other)

-- A call leaves the counters of other keys alone.
pub consume_window_other :
    (window : Window) (limit : ℕ) (other : String) (table : Table)
    → window.key ≢ other
    → get other (consume_window window limit alone table).0 ≡ get other table
unfolding consume_window insert_or_increment
consume_window_other window limit other table differ =
    let one = increment_other window.key other limit table differ in
    let two = increment_other window.key other limit (increment window.key limit table).0 differ in
    let three =
      get_cons_other (record { key = window.key; count = 1; expires_at = window.deadline }) other
        (increment window.key limit table).0 differ in
    ground (arith, one, two, three)

module _ (hash_key : String → String → ℕ → String) where
  -- The second window is consumed only where the first call did not raise.
  unfoldable pub reserve_run_budget :
      String → ℕ → ℕ → ℕ → (Table → Table) → Table → Table × Outcome RateLimitExceeded (Unit {0})
  reserve_run_budget owner per_hour per_day now others table =
      let (table', hour) = enforce hash_key "radar-hour" owner per_hour 3600 now others table in
      elim hour [
        | raised e ↦ (table', raised e)
        | ok _ ↦ enforce hash_key "radar-day" owner per_day 86400 now others table'
      ]

  -- A window blocks exactly when a call in it would be refused.
  blocked_until_lem :
      (scope subject : String) (limit seconds now : ℕ) (table : Table)
      → 0 < limit
      → let before = count_of (get (window_key hash_key scope subject seconds now).key table) in
        (blocked_until hash_key scope subject limit seconds now table ≡ none)
        ↔ (ltb before limit ≡ true)
  unfolding blocked_until
  blocked_until_lem scope subject limit seconds now table h = ground arith

  enforce_lem :
      (scope subject : String) (limit seconds now : ℕ) (table : Table)
      → 0 < limit
      → let before = count_of (get (window_key hash_key scope subject seconds now).key table) in
        ((enforce hash_key scope subject limit seconds now alone table).1 ≡ ok tt)
        ↔ (ltb before limit ≡ true)
  unfolding enforce consume
  enforce_lem scope subject limit seconds now table h =
      ground
        (arith, consume_window_lem (window_key hash_key scope subject seconds now) limit table h)

  enforce_other :
      (scope subject : String) (limit seconds now : ℕ) (other : String) (table : Table)
      → (window_key hash_key scope subject seconds now).key ≢ other
      → get other (enforce hash_key scope subject limit seconds now alone table).0 ≡ get other table
  unfolding enforce consume
  enforce_other scope subject limit seconds now other table differ =
      consume_window_other (window_key hash_key scope subject seconds now) limit other table differ

  -- Where no other session writes, both limits are at least one and the keys of the two windows
  -- differ, the forecast reports no wait exactly when reserving the run's budget succeeds.
  pub allowance_iff :
      (owner : String) (per_hour per_day now : ℕ) (table : Table)
      → 0 < per_hour
      → 0 < per_day
      → hash_key "radar-hour" owner (bucket_of 3600 now)
        ≢ hash_key "radar-day" owner (bucket_of 86400 now)
      → (run_allowance_available_at hash_key owner per_hour per_day now table ≡ none)
        ↔ ((reserve_run_budget owner per_hour per_day now alone table).1 ≡ ok tt)
  unfolding run_allowance_available_at reserve_run_budget
  allowance_iff owner per_hour per_day now table h d differ =
      let day = (window_key hash_key "radar-day" owner 86400 now).key in
      let after = (enforce hash_key "radar-hour" owner per_hour 3600 now alone table).0 in
      let apart : (window_key hash_key "radar-hour" owner 3600 now).key ≢ day =
        (unfold window_key in differ) in
      ground (
        arith,
        blocked_until_lem "radar-hour" owner per_hour 3600 now table h,
        blocked_until_lem "radar-day" owner per_day 86400 now table d,
        enforce_lem "radar-hour" owner per_hour 3600 now table h,
        enforce_lem "radar-day" owner per_day 86400 now after d,
        enforce_other "radar-hour" owner per_hour 3600 now day table apart,
      )
