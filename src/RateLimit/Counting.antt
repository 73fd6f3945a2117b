-- ===== src/RateLimit/Counting.antt =====
-- The limit that the counters of services/rate_limit_service.py enforce.
use mathlib.Core.Option
use text.Mathlib.TextPositions.{eq_refl}
use scientific_research_rada.Prelude.{
  ℕ, ◌+◌, ◌-◌, ◌≤◌, ◌<◌, min, String, Bool, false, List, [], ◌∷◌, Option, none, some, eq_iff, ltb,
  ◌≡◌, ◌≢◌, refl, arith, if◌then◌else◌, length, Option-cases, inl, inr, All,
}
use scientific_research_rada.RateLimit.{
  RateLimitBucket, Table, Window, get, increment, insert_or_increment, consume_window, bucket_of,
  window_key, consume,
}

-- What the update does to a counter, and what it answers.
abbrev bump : ℕ → RateLimitBucket → RateLimitBucket
bump limit b = if ltb b.count limit then record b { count = b.count + 1 } else b

abbrev has_room : ℕ → Option RateLimitBucket → Bool
has_room limit none = false
has_room limit (some b) = ltb b.count limit

increment_lem :
    (key : String) (limit : ℕ) (table : Table)
    → ((increment key limit table).1 ≡ has_room limit (get key table))
      × (get key (increment key limit table).0 ≡ Option.map (bump limit) (get key table))
unfolding increment get
increment_lem key limit [] = (refl, refl)
increment_lem key limit (b ∷ rest) = ground (arith, increment_lem key limit rest)

pub increment_other :
    (key other : String) (limit : ℕ) (table : Table)
    → key ≢ other
    → get other (increment key limit table).0 ≡ get other table
unfolding increment get
increment_other key other limit [] differ = refl
increment_other key other limit (b ∷ rest) differ =
    ground
      (arith, eq_iff b.key key, eq_iff b.key other, increment_other key other limit rest differ)

get_cons_self :
    (key : String) (n t : ℕ) (table : Table)
    → get key (record { key = key; count = n; expires_at = t } ∷ table)
      ≡ some (record { key = key; count = n; expires_at = t })
unfolding get
get_cons_self key n t table = rw eq_refl

-- The count of a key, where no other session writes.
abbrev pub count_of : Option RateLimitBucket → ℕ
count_of none = 0
count_of (some b) = b.count

abbrev pub alone : Table → Table
alone table = table

-- With a limit of at least one, a call is accepted exactly while fewer calls than the limit have
-- been, and an accepted call is counted.
pub consume_window_lem :
    (window : Window) (limit : ℕ) (table : Table)
    → 0 < limit
    → let before = count_of (get window.key table) in
      let (table', accepted) = consume_window window limit alone table in
      (accepted ≡ ltb before limit)
      × (count_of (get window.key table') ≡ (if ltb before limit then before + 1 else before))
unfolding consume_window insert_or_increment
consume_window_lem window limit table h = elim (Option-cases (get window.key table)) [
  | inl absent ↦ ground (
    arith,
    increment_lem window.key limit table,
    get_cons_self window.key 1 window.deadline (increment window.key limit table).0,
  )
  | inr (b, e) ↦ ground (arith, increment_lem window.key limit table)
]

module _ (hash_key : String → String → ℕ → String) (scope subject : String)
    (limit seconds : ℕ) where
  -- The calls of one subject at the times of a list, one after the other: how many were accepted.
  unfoldable pub accepted_calls : List ℕ → Table → ℕ
  accepted_calls [] table = 0
  accepted_calls (now ∷ later) table =
      let (table', (accepted, wait)) =
        consume hash_key scope subject limit seconds now alone table in
      (if accepted then 1 else 0) + accepted_calls later table'

  consume_lem :
      (window now : ℕ) (table : Table)
      → 0 < limit
      → bucket_of seconds now ≡ window
      → let key = hash_key scope subject window in
        let before = count_of (get key table) in
        let called = consume hash_key scope subject limit seconds now alone table in
        (called.1.0 ≡ ltb before limit)
        × (count_of (get key called.0) ≡ (if ltb before limit then before + 1 else before))
  consume_lem window now table h same = rw (← same) (unfold consume window_key in counted)
    where
      counted :
          let w = window_key hash_key scope subject seconds now in
          let before = count_of (get w.key table) in
          let (table', accepted) = consume_window w limit alone table in
          (accepted ≡ ltb before limit)
          × (count_of (get w.key table') ≡ (if ltb before limit then before + 1 else before))
      counted = consume_window_lem (window_key hash_key scope subject seconds now) limit table h

  -- Calls at times of one window are counted together: of those, exactly as many are accepted as the
  -- limit still allows.
  pub accepted_calls_lem :
      (window : ℕ) (times : List ℕ) (table : Table)
      → 0 < limit
      → All (λ now. bucket_of seconds now ≡ window) times
      → count_of (get (hash_key scope subject window) table) ≤ limit
      → accepted_calls times table
        ≡ min (length times) (limit - count_of (get (hash_key scope subject window) table))
  unfolding accepted_calls
  accepted_calls_lem window [] table h same le = omega arith
  accepted_calls_lem window (now ∷ later) table h same le =
      let called = consume hash_key scope subject limit seconds now alone table in
      let facts = consume_lem window now table h same.0 in
      let rest : count_of (get (hash_key scope subject window) called.0) ≤ limit
          → accepted_calls later called.0
            ≡ min (length later) (limit - count_of (get (hash_key scope subject window) called.0)) =
        accepted_calls_lem window later called.0 h same.1 in
      ground (arith, facts, rest)
