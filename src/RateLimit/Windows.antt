-- ===== src/RateLimit/Windows.antt =====
-- The windows of services/rate_limit_service.py: where they end and how long a caller is told to
-- wait.
use scientific_research_rada.Prelude.{ℕ, ◌+◌, ◌*◌, ◌/◌, ◌≤◌, ◌<◌, String, arith}
use scientific_research_rada.RateLimit.{second, bucket_of, window_key, retry_after}

bucket_bounds : (s d : ℕ) → 0 < d → (s / d * d ≤ s) × (s < (s / d + 1) * d)
bucket_bounds s d h = (grind arith, grind arith)

-- The current window ends after now, and at most its whole length later.
pub deadline_bounds :
    (hash_key : String → String → ℕ → String) (scope subject : String) (seconds now : ℕ)
    → 0 < seconds
    → let window = window_key hash_key scope subject seconds now in
      (now < window.deadline) × (window.deadline ≤ now + seconds * second)
unfolding window_key bucket_of
deadline_bounds hash_key scope subject seconds now h =
    let facts = bucket_bounds (now / second) seconds h in (omega arith, omega arith)

-- The announced wait is at least one second, at most the window's length, and reaches its end.
pub retry_after_bounds :
    (hash_key : String → String → ℕ → String) (scope subject : String) (seconds now : ℕ)
    → 0 < seconds
    → let window = window_key hash_key scope subject seconds now in
      let wait = retry_after window.deadline now in
      (1 ≤ wait) × (wait ≤ seconds) × (window.deadline ≤ now + wait * second)
unfolding retry_after
retry_after_bounds hash_key scope subject seconds now h =
    let bounds = deadline_bounds hash_key scope subject seconds now h in
    (ground arith, ground arith, ground arith)
