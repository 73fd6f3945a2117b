-- ===== src/Quota/Observation.antt =====
-- services/subscription_observation_service.py: the ledger that observes runs and never denies one.
-- A month is a number; the number of the account's digests, the assigned limits and the number of
-- saved summaries are arguments.
use mathlib.Core.Path.{subst, ap}
use scientific_research_rada.Prelude.{
  ℕ, ◌+◌, ◌%◌, ◌==◌, ◌&&◌, ◌||◌, String, Bool, true, false, List, [], ◌∷◌, ◌++◌, Option, none, some,
  ◌≡◌, refl, arith, if◌then◌else◌,
}
use scientific_research_rada.Runs.Model.{DigestRunTrigger}
use scientific_research_rada.Quota.Plans.{PlanEntitlements}
use scientific_research_rada.Quota.Model.{UsageState, RequestContext, Issue}
use scientific_research_rada.Quota.Rules.{Totals, is_manual, is_reserved, is_settled, reasons}

-- `next_month`, of a year and a month from 1 to 12.
unfoldable pub next_month : ℕ → ℕ → ℕ × ℕ
next_month year month = (year + (if month == 12 then 1 else 0), month % 12 + 1)

pub record Assessment : Type 0 where
  pub at : ℕ
  pub reasons : List Issue
  pub request_context : RequestContext

pub record ObservedRunUsage : Type 0 where
  pub run_key : ℕ
  pub user_id : ℕ
  pub period_start : ℕ
  pub trigger : DigestRunTrigger
  pub state : UsageState
  pub requested_papers : ℕ
  pub actual_papers : ℕ
  pub attempts : ℕ
  pub assessments : List Assessment
  pub updated_at : ℕ

abbrev pub Observed : Type 0
Observed = List ObservedRunUsage

unfoldable pub lookup : ℕ → Observed → Option ObservedRunUsage
lookup k [] = none
lookup k (u ∷ us) = let rest = lookup k us in if u.run_key == k then some u else rest

unfoldable pub put : ObservedRunUsage → Observed → Observed
put u [] = u ∷ []
put u (v ∷ vs) = let rest = put u vs in if v.run_key == u.run_key then u ∷ vs else v ∷ rest

unfoldable pub sum_where : (ObservedRunUsage → Bool) → (ObservedRunUsage → ℕ) → Observed → ℕ
sum_where test amount [] = 0
sum_where test amount (u ∷ us) = (if test u then amount u else 0) + sum_where test amount us

-- The sums that `reasons` reads.
unfoldable pub totals : ℕ → ℕ → Observed → Totals
totals user period us =
    let here = λ (u : ObservedRunUsage). u.user_id == user && u.period_start == period in
    record {
      completed_runs = sum_where (λ u. here u && is_settled u.state) (λ _. 1) us;
      reserved_runs = sum_where (λ u. here u && is_reserved u.state) (λ _. 1) us;
      manual_runs =
          sum_where
            (λ u. here u && (is_settled u.state || is_reserved u.state) && is_manual u.trigger)
            (λ _. 1) us;
      completed_papers = sum_where (λ u. here u && is_settled u.state) (λ u. u.actual_papers) us;
      reserved_papers = sum_where (λ u. here u && is_reserved u.state) (λ u. u.requested_papers) us;
    }

-- A run, with the month of its first observation and the context of its request.
pub record ObservedRun : Type 0 where
  pub id : ℕ
  pub owner_id : ℕ
  pub trigger : DigestRunTrigger
  pub maximum_papers : ℕ
  pub frequency : Option String
  pub send_email : Bool

abbrev pub is_released : UsageState → Bool
is_released UsageState.released = true
is_released _ = false

-- A new row, or the next attempt of a released one.
unfoldable pub attempt : Option ObservedRunUsage → ℕ → ℕ → ObservedRun → ObservedRunUsage
attempt none stamp month run = record {
  run_key = run.id;
  user_id = run.owner_id;
  period_start = month;
  trigger = run.trigger;
  state = UsageState.released;
  requested_papers = run.maximum_papers;
  actual_papers = 0;
  attempts = 1;
  assessments = [];
  updated_at = stamp;
}
attempt (some row) stamp month run = record row { attempts = row.attempts + 1 }

-- The context of the first assessment, else of the request.
abbrev pub context_of : List Assessment → ObservedRun → ObservedRunUsage → RequestContext
context_of (a ∷ _) run row = a.request_context
context_of [] run row = record {
  frequency = run.frequency;
  send_email = run.send_email && (if is_manual row.trigger then false else true);
}

abbrev pub assessed :
    Option PlanEntitlements → Totals → ObservedRunUsage → ℕ → RequestContext → List Issue
assessed none usage row digests context = []
assessed (some config) usage row digests context =
    reasons config usage row.requested_papers row.trigger digests context.frequency
      context.send_email

-- `user_totals` are the totals of the row's month, read after the row was added.
unfoldable pub observe :
    Option PlanEntitlements → Totals → ℕ → ℕ → ObservedRun → ObservedRunUsage → ObservedRunUsage
observe plan user_totals digests stamp run row =
    let context = context_of row.assessments run row in
    record row {
      assessments =
          row.assessments
          ++ (record {
            at = stamp;
            reasons = assessed plan user_totals row digests context;
            request_context = context;
          }
              ∷ []);
      state = UsageState.reserved;
      updated_at = stamp;
    }

-- `row and row.state != 'released'`
abbrev pub is_counted : Option ObservedRunUsage → Bool
is_counted none = false
is_counted (some u) = if is_released u.state then false else true

unfoldable pub reserve : Option PlanEntitlements → ℕ → ℕ → ℕ → ObservedRun → Observed → Observed
reserve plan digests stamp month run us =
    let row = attempt (lookup run.id us) stamp month run in
    let usage = totals run.owner_id row.period_start (put row us) in
    if is_counted (lookup run.id us) then us else put (observe plan usage digests stamp run row) us

unfoldable pub settle : ℕ → Bool → ℕ → ℕ → Observed → Observed
settle run_id success papers stamp us = elim (lookup run_id us) [
  | none ↦ us
  | some u ↦
      if is_reserved u.state
      then put
          (record u {
            actual_papers = papers;
            state = if success then UsageState.settled else UsageState.released;
            updated_at = stamp;
          })
          us
      else us
]

lookup-key : (k : ℕ) (us : Observed) {u : ObservedRunUsage} → lookup k us ≡ some u → u.run_key ≡ k
unfolding lookup
lookup-key k [] h = absurd (cc)
lookup-key k (v ∷ vs) {u = w} h = ground (arith, lookup-key k vs {u = w})

lookup-put : (u : ObservedRunUsage) (us : Observed) → lookup u.run_key (put u us) ≡ some u
unfolding lookup put
lookup-put u [] = ground arith
lookup-put u (v ∷ vs) = ground (arith, lookup-put u vs)

attempt-key :
    (o : Option ObservedRunUsage) (stamp month : ℕ) (run : ObservedRun)
    → ((u : ObservedRunUsage) → o ≡ some u → u.run_key ≡ run.id)
    → (attempt o stamp month run).run_key ≡ run.id
unfolding attempt
attempt-key none stamp month run known = refl
attempt-key (some u) stamp month run known = known u refl

-- The observed row is reserved, under its key.
put-observe-is_counted :
    (plan : Option PlanEntitlements) (usage : Totals) (digests stamp k : ℕ) (run : ObservedRun)
    (row : ObservedRunUsage) (us : Observed)
    → row.run_key ≡ k
    → is_counted (lookup k (put (observe plan usage digests stamp run row) us)) ≡ true
unfolding observe
put-observe-is_counted plan usage digests stamp k run row us same =
    let found = lookup-put (observe plan usage digests stamp run row) us in
    subst (λ x. is_counted (lookup x (put (observe plan usage digests stamp run row) us)) ≡ true)
      same (ap is_counted found)

reserve-is_counted :
    (plan : Option PlanEntitlements) (digests stamp month : ℕ) (run : ObservedRun) (us : Observed)
    → is_counted (lookup run.id (reserve plan digests stamp month run us)) ≡ true
unfolding reserve
reserve-is_counted plan digests stamp month run us =
    let row = attempt (lookup run.id us) stamp month run in
    ground (
      arith,
      put-observe-is_counted plan (totals run.owner_id row.period_start (put row us)) digests stamp
          run.id run row us
          (attempt-key (lookup run.id us) stamp month run (λ u found. lookup-key run.id us found)),
    )

reserve_of_counted :
    (plan : Option PlanEntitlements) (digests stamp month : ℕ) (run : ObservedRun) (us : Observed)
    → is_counted (lookup run.id us) ≡ true
    → reserve plan digests stamp month run us ≡ us
unfolding reserve
reserve_of_counted plan digests stamp month run us counted = ground arith

-- Enqueuing a run again, under whatever plan and month, changes nothing: it is neither reserved nor
-- charged twice.
pub reserve_twice :
    (plan plan' : Option PlanEntitlements) (digests digests' stamp stamp' month month' : ℕ)
    (run run' : ObservedRun) (us : Observed)
    → run.id ≡ run'.id
    → reserve plan' digests' stamp' month' run' (reserve plan digests stamp month run us)
      ≡ reserve plan digests stamp month run us
reserve_twice plan plan' digests digests' stamp stamp' month month' run run' us same =
    let us' = reserve plan digests stamp month run us in
    reserve_of_counted plan' digests' stamp' month' run' us' (
      subst (λ k. is_counted (lookup k us') ≡ true) same
        (reserve-is_counted plan digests stamp month run us))
