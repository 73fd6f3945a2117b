-- ===== src/Quota/Rules.antt =====
-- The rules on a new run: `reasons` of services/subscription_observation_service.py, `totals` and
-- `assess` of services/subscription_access_service.py.
use scientific_research_rada.Prelude.{
  ℕ, ◌+◌, String, Bool, true, false, not, ◌&&◌, ◌||◌, List, [], ◌∷◌, ◌++◌, Option, none, some, ltb,
  ◌==◌, if◌then◌else◌, length, any,
}
use scientific_research_rada.Prelude.Texts.{contains}
use scientific_research_rada.Runs.Model.{DigestRunTrigger}
use scientific_research_rada.Quota.Plans.{PlanEntitlements}
use scientific_research_rada.Quota.Model.{
  UsageState, RequestContext, SubscriptionRunUsage, Ledger, Allowed, Access, RunRequest, Issue,
}

pub record Totals : Type 0 where
  pub completed_runs : ℕ
  pub reserved_runs : ℕ
  pub manual_runs : ℕ
  pub completed_papers : ℕ
  pub reserved_papers : ℕ

abbrev pub is_manual : DigestRunTrigger → Bool
is_manual DigestRunTrigger.manual = true
is_manual DigestRunTrigger.scheduled = false

abbrev pub is_reserved : UsageState → Bool
is_reserved UsageState.reserved = true
is_reserved _ = false

abbrev pub is_settled : UsageState → Bool
is_settled UsageState.settled = true
is_settled _ = false

-- The `WHERE` clause of `totals`: the row's period overlaps the window and it is not released.
unfoldable pub in_window : ℕ → ℕ → ℕ → SubscriptionRunUsage → Bool
in_window user start finish u =
    u.user_id == user
    && ltb start u.period_end
    && ltb u.period_start finish
    && (is_reserved u.state || is_settled u.state)

-- `coalesce(sum(case(test, amount, else 0)), 0)`
unfoldable pub sum_where : (SubscriptionRunUsage → Bool) → (SubscriptionRunUsage → ℕ) → Ledger → ℕ
sum_where test amount [] = 0
sum_where test amount (u ∷ us) = (if test u then amount u else 0) + sum_where test amount us

unfoldable pub totals : ℕ → ℕ → ℕ → Ledger → Totals
totals user start finish us =
    let here = in_window user start finish in
    record {
      completed_runs = sum_where (λ u. here u && is_settled u.state) (λ _. 1) us;
      reserved_runs = sum_where (λ u. here u && is_reserved u.state) (λ _. 1) us;
      manual_runs = sum_where (λ u. here u && is_manual u.trigger) (λ _. 1) us;
      completed_papers = sum_where (λ u. here u && is_settled u.state) (λ u. u.actual_papers) us;
      reserved_papers = sum_where (λ u. here u && is_reserved u.state) (λ u. u.requested_papers) us;
    }

-- `frequency not in config['schedule_frequencies']`
abbrev pub offers : List String → Option String → Bool
offers frequencies none = false
offers frequencies (some f) = contains frequencies f

abbrev pub listed : Bool → Issue → List Issue
listed applies issue = if applies then issue ∷ [] else []

unfoldable pub reasons :
    PlanEntitlements → Totals → ℕ → DigestRunTrigger → ℕ → Option String → Bool → List Issue
reasons config usage requested_papers trigger digest_count frequency email =
    listed (ltb config.runs_per_month (usage.completed_runs + usage.reserved_runs + 1))
      Issue.runs_exhausted
    ++ listed (is_manual trigger && ltb config.manual_runs_per_month (usage.manual_runs + 1))
        Issue.manual_exhausted
    ++ listed
        (ltb config.papers_per_month
          (usage.completed_papers + usage.reserved_papers + requested_papers))
        Issue.papers_exhausted
    ++ listed (ltb config.max_papers_per_run requested_papers) Issue.per_run_limit
    ++ listed (ltb config.max_digests digest_count) Issue.digest_limit
    ++ listed (not (is_manual trigger) && not (offers config.schedule_frequencies frequency))
        Issue.frequency_excluded
    ++ listed (email && not config.email_delivery) Issue.email_excluded

abbrev pub is_per_run : Issue → Bool
is_per_run Issue.per_run_limit = true
is_per_run _ = false

abbrev pub is_digest_limit : Issue → Bool
is_digest_limit Issue.digest_limit = true
is_digest_limit _ = false

-- `i.startswith('Monthly')`
abbrev pub is_monthly : Issue → Bool
is_monthly Issue.runs_exhausted = true
is_monthly Issue.manual_exhausted = true
is_monthly Issue.papers_exhausted = true
is_monthly _ = false

-- The advice that `assess` appends.
unfoldable pub advise : List Issue → List Issue
advise issues =
    issues
    ++ listed (any is_per_run issues) Issue.reduce_papers
    ++ listed (any is_digest_limit issues) Issue.delete_digest
    ++ listed (any is_monthly issues) Issue.monthly_reset

-- The digests that count: the active ones where the answer lists them.
abbrev pub counted_digests : Option (List String) → ℕ → ℕ
counted_digests none all = all
counted_digests (some ids) all = length ids

abbrev pub is_inactive : Option (List String) → String → Bool
is_inactive none id = false
is_inactive (some ids) id = not (contains ids id)

unfoldable pub assess_allowed : Allowed → ℕ → RequestContext → RunRequest → Ledger → List Issue
assess_allowed access digest_count context run us =
    if is_inactive access.active_digest_ids run.digest_id
    then Issue.inactive_digest ∷ []
    else if not (is_manual run.trigger) && run.schedule_paused
    then Issue.paused_schedule ∷ []
    else advise (
        reasons access.plan.configuration
          (totals run.owner_id access.period_start access.period_end us) run.maximum_papers
          run.trigger (counted_digests access.active_digest_ids digest_count) context.frequency
          (not (is_manual run.trigger) && context.send_email))

unfoldable pub assess : Access → ℕ → RequestContext → RunRequest → Ledger → List Issue
assess Access.complimentary digest_count context run us = []
assess (Access.denied reason) digest_count context run us = Issue.not_allowed reason ∷ []
assess (Access.allowed access) digest_count context run us =
    assess_allowed access digest_count context run us
