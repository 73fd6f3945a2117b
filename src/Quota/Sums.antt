-- ===== src/Quota/Sums.antt =====
-- The sums of the ledger after a row is written, and what an admission without objections says
-- (services/subscription_access_service.py).
use scientific_research_rada.Prelude.{
  ℕ, ◌+◌, ◌≤◌, Bool, not, ◌&&◌, List, [], ◌∷◌, Option, none, some, ◌≡◌, arith, refl, if◌then◌else◌,
  max, String,
}
use scientific_research_rada.Runs.Model.{DigestRunTrigger}
use scientific_research_rada.Quota.Plans.{PlanEntitlements}
use scientific_research_rada.Quota.Model.{
  RequestContext, SubscriptionRunUsage, Ledger, Allowed, RunRequest, Issue, lookup, put,
}
use scientific_research_rada.Quota.Rules.{
  Totals, is_manual, sum_where, totals, reasons, advise, assess_allowed, counted_digests,
}

-- What a row adds to a sum.
abbrev pub share :
    (SubscriptionRunUsage → Bool) → (SubscriptionRunUsage → ℕ) → Option SubscriptionRunUsage → ℕ
share test amount none = 0
share test amount (some u) = if test u then amount u else 0

-- Writing a row replaces the share of the row with its key.
pub sum_where-put :
    (test : SubscriptionRunUsage → Bool) (amount : SubscriptionRunUsage → ℕ)
    (u : SubscriptionRunUsage) (us : Ledger)
    → sum_where test amount (put u us) + share test amount (lookup u.run_key us)
      ≡ sum_where test amount us + share test amount (some u)
unfolding sum_where put lookup
sum_where-put test amount u [] = omega arith
sum_where-put test amount u (v ∷ vs) = ground (arith, sum_where-put test amount u vs)

-- What the limits demand of a request.
pub record Fits (config : PlanEntitlements) (usage : Totals) (papers : ℕ) (manual : Bool)
    : Type 0 where
  pub runs : usage.completed_runs + usage.reserved_runs + 1 ≤ config.runs_per_month
  pub manual_runs :
      usage.manual_runs + (if manual then 1 else 0)
      ≤ max config.manual_runs_per_month usage.manual_runs
  pub monthly : usage.completed_papers + usage.reserved_papers + papers ≤ config.papers_per_month
  pub per_run : papers ≤ config.max_papers_per_run

pub reasons-Fits :
    (config : PlanEntitlements) (usage : Totals) (papers : ℕ) (trigger : DigestRunTrigger)
    (digests : ℕ) (frequency : Option String) (email : Bool)
    → reasons config usage papers trigger digests frequency email ≡ []
    → Fits config usage papers (is_manual trigger)
unfolding reasons
reasons-Fits config usage papers trigger digests frequency email h = record {
  runs = ground arith;
  manual_runs = ground arith;
  monthly = ground arith;
  per_run = ground arith;
}

pub advise_nil : (issues : List Issue) → advise issues ≡ [] → issues ≡ []
unfolding advise
advise_nil [] h = refl
advise_nil (x ∷ xs) h = absurd (cc)

-- An admission without objections passed the two early returns.
assess_allowed-reasons :
    (access : Allowed) (digests : ℕ) (context : RequestContext) (run : RunRequest) (us : Ledger)
    → assess_allowed access digests context run us ≡ []
    → reasons access.plan.configuration
        (totals run.owner_id access.period_start access.period_end us)
        run.maximum_papers
        run.trigger
        (counted_digests access.active_digest_ids digests)
        context.frequency
        (not (is_manual run.trigger) && context.send_email)
      ≡ []
unfolding assess_allowed
assess_allowed-reasons access digests context run us h = ground (
  arith,
  advise_nil (
      reasons access.plan.configuration
        (totals run.owner_id access.period_start access.period_end us) run.maximum_papers
        run.trigger (counted_digests access.active_digest_ids digests) context.frequency
        (not (is_manual run.trigger) && context.send_email)),
)

pub assess-Fits :
    (access : Allowed) (digests : ℕ) (context : RequestContext) (run : RunRequest) (us : Ledger)
    → assess_allowed access digests context run us ≡ []
    → Fits access.plan.configuration
        (totals run.owner_id access.period_start access.period_end us)
        run.maximum_papers
        (is_manual run.trigger)
assess-Fits access digests context run us h =
    reasons-Fits access.plan.configuration
      (totals run.owner_id access.period_start access.period_end us) run.maximum_papers run.trigger
      (counted_digests access.active_digest_ids digests) context.frequency
      (not (is_manual run.trigger) && context.send_email)
      (assess_allowed-reasons access digests context run us h)

pub lookup-key :
    (k : ℕ) (us : Ledger) {u : SubscriptionRunUsage} → lookup k us ≡ some u → u.run_key ≡ k
unfolding lookup
lookup-key k [] h = absurd (cc)
lookup-key k (v ∷ vs) {u = w} h = ground (arith, lookup-key k vs {u = w})
