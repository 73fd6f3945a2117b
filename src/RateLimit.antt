-- ===== src/RateLimit.antt =====
-- services/rate_limit_service.py: fixed-window counters in a table. A time is a number of
-- microseconds since the epoch, so `int(now.timestamp())` is a division.
pub mod Windows
pub mod Counting
pub mod Allowance
mod Tests
use scientific_research_rada.Prelude.{
  ℕ, ◌+◌, ◌-◌, ◌*◌, ◌/◌, max, String, Bool, true, false, List, [], ◌∷◌, Option, none, some, ltb,
  leb, str_eq, ◌&&◌, not, if◌then◌else◌, ◌==◌,
}
use scientific_research_rada.Prelude.Keyed.{is_some}
use scientific_research_rada.Prelude.Outcome.{Outcome, ok, raised}

pub record RateLimitBucket : Type 0 where
  pub key : String
  pub count : ℕ
  pub expires_at : ℕ

abbrev pub Table : Type 0
Table = List RateLimitBucket

abbrev pub second : ℕ
second = 1000000

-- `window_key`: `hash_key scope subject bucket` is the HMAC of the three.
pub record Window : Type 0 where
  pub key : String
  pub deadline : ℕ

unfoldable pub bucket_of : ℕ → ℕ → ℕ
bucket_of seconds now = now / second / seconds

module _ (hash_key : String → String → ℕ → String) where
  unfoldable pub window_key : String → String → ℕ → ℕ → Window
  window_key scope subject seconds now = record {
    key = hash_key scope subject (bucket_of seconds now);
    deadline = (bucket_of seconds now + 1) * seconds * second;
  }

-- `max(1, math.ceil((deadline - now).total_seconds()))`
unfoldable pub retry_after : ℕ → ℕ → ℕ
retry_after deadline now = max 1 ((deadline - now + (second - 1)) / second)

-- `db.get(RateLimitBucket, key)`
unfoldable pub get : String → Table → Option RateLimitBucket
get key [] = none
get key (b ∷ rest) = let later = get key rest in if str_eq b.key key then some b else later

-- The update of `consume`: the table, and whether one row was changed. The key is primary.
unfoldable pub increment : String → ℕ → Table → Table × Bool
increment key limit [] = ([], false)
increment key limit (b ∷ rest) =
    let (rest', changed) = increment key limit rest in
    if str_eq b.key key
    then (if ltb b.count limit
        then (record b { count = b.count + 1 } ∷ rest, true)
        else (b ∷ rest, false))
    else (b ∷ rest', changed)

-- The insertion of a new counter. Before it reaches the table other sessions commit, which `others`
-- does; where one of them has inserted the key, the update is made once more.
unfoldable pub insert_or_increment : Window → ℕ → (Table → Table) → Table → Table × Bool
insert_or_increment window limit others table =
    let seen = others table in
    if is_some (get window.key seen)
    then increment window.key limit seen
    else (record { key = window.key; count = 1; expires_at = window.deadline } ∷ seen, true)

unfoldable pub consume_window : Window → ℕ → (Table → Table) → Table → Table × Bool
consume_window window limit others table =
    let (table', accepted) = increment window.key limit table in
    if not accepted && not (is_some (get window.key table'))
    then insert_or_increment window limit others table'
    else (table', accepted)

pub record RateLimitExceeded : Type 0 where
  pub retry_after : ℕ
  pub scope : String

module _ (hash_key : String → String → ℕ → String) where
  -- `consume`, with the time of the call: the table, and `(accepted, retry_after)`.
  unfoldable pub consume :
      String → String → ℕ → ℕ → ℕ → (Table → Table) → Table → Table × (Bool × ℕ)
  consume scope subject limit seconds now others table =
      let window = window_key hash_key scope subject seconds now in
      let (table', accepted) = consume_window window limit others table in
      (table', (accepted, retry_after window.deadline now))

  unfoldable pub enforce :
      String
      → String
      → ℕ
      → ℕ
      → ℕ
      → (Table → Table)
      → Table
      → Table × Outcome RateLimitExceeded (Unit {0})
  enforce scope subject limit seconds now others table =
      let (table', (accepted, retry)) = consume scope subject limit seconds now others table in
      (table', if accepted then ok tt else raised (record { retry_after = retry; scope = scope }))

  -- The deadline of a window whose counter is used up.
  unfoldable pub blocked_until : String → String → ℕ → ℕ → ℕ → Table → Option ℕ
  blocked_until scope subject limit seconds now table =
      let window = window_key hash_key scope subject seconds now in
      elim (get window.key table) [
        | none ↦ none
        | some b ↦ if leb limit b.count then some window.deadline else none
      ]

  -- `max(blocked_until) if blocked_until else None`
  abbrev pub latest : Option ℕ → Option ℕ → Option ℕ
  latest none b = b
  latest (some a) none = some a
  latest (some a) (some b) = some (max a b)

  unfoldable pub run_allowance_available_at : String → ℕ → ℕ → ℕ → Table → Option ℕ
  run_allowance_available_at owner per_hour per_day now table =
      latest (blocked_until "radar-hour" owner per_hour 3600 now table)
        (blocked_until "radar-day" owner per_day 86400 now table)

-- `cleanup_rate_limits`
unfoldable pub cleanup_rate_limits : ℕ → Table → Table
cleanup_rate_limits now [] = []
cleanup_rate_limits now (b ∷ rest) =
    let kept = cleanup_rate_limits now rest in if leb b.expires_at now then kept else b ∷ kept
