-- ===== src/RateLimit/Tests.antt =====
-- The theorems on the rate limits at concrete times and limits.
use Prim.Native.String.{◌++◌}
use scientific_research_rada.Prelude.{
  ℕ, ◌+◌, ◌*◌, ◌≤◌, String, [], ◌∷◌, ◌≡◌, ◌↔◌, refl, none, arith, eq_iff,
}
use scientific_research_rada.Prelude.Outcome.{ok}
use scientific_research_rada.RateLimit.{
  Table, second, bucket_of, window_key, retry_after, get, run_allowance_available_at,
}
use scientific_research_rada.RateLimit.Windows.{retry_after_bounds}
use scientific_research_rada.RateLimit.Counting.{alone, accepted_calls, accepted_calls_lem}
use scientific_research_rada.RateLimit.Allowance.{reserve_run_budget, allowance_iff}

-- A stand-in for the keyed hash, which only tells the scopes apart.
abbrev plain : String → String → ℕ → String
plain scope subject bucket = scope ++ subject

abbrev empty : Table
empty = []

retry_after_bounds_example :
    let window = window_key plain "login-ip" "a" 900 5000000 in
    let wait = retry_after window.deadline 5000000 in
    (1 ≤ wait) × (wait ≤ 900) × (window.deadline ≤ 5000000 + wait * second)
retry_after_bounds_example = retry_after_bounds plain "login-ip" "a" 900 5000000 (omega arith)

accepted_calls_lem_example :
    accepted_calls plain "login-email" "a" 2 900 (1000000 ∷ 2000000 ∷ 3000000 ∷ []) empty ≡ 2
unfolding get
accepted_calls_lem_example =
    accepted_calls_lem plain "login-email" "a" 2 900 0 (1000000 ∷ 2000000 ∷ 3000000 ∷ []) empty
      (omega arith) (unfold bucket_of in (refl, (refl, (refl, tt)))) (unfold get in omega arith)

allowance_iff_example :
    (run_allowance_available_at plain "a" 3 10 5000000 empty ≡ none)
    ↔ ((reserve_run_budget plain "a" 3 10 5000000 alone empty).1 ≡ ok tt)
allowance_iff_example =
    allowance_iff plain "a" 3 10 5000000 empty (omega arith) (omega arith)
      (ground (arith, eq_iff "radar-houra" "radar-daya"))
