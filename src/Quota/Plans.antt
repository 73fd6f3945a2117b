-- ===== src/Quota/Plans.antt =====
-- The limits of a plan (services/billing_types.py, services/billing_renewal_policy.py).
use scientific_research_rada.Prelude.{
  ℕ, String, Bool, true, false, not, ◌&&◌, ◌||◌, List, leb, ◌==◌, str_eq, if◌then◌else◌,
}
use scientific_research_rada.Prelude.Texts.{is_subset, same_set}

-- `frozenset[str]` is a list of which only the members are read.
pub record PlanEntitlements : Type 0 where
  pub max_digests : ℕ
  pub max_papers_per_run : ℕ
  pub papers_per_month : ℕ
  pub runs_per_month : ℕ
  pub manual_runs_per_month : ℕ
  pub schedule_frequencies : List String
  pub email_delivery : Bool

-- `self.includes(other=other)`
unfoldable pub includes : PlanEntitlements → PlanEntitlements → Bool
includes self other =
    leb other.max_digests self.max_digests
    && leb other.max_papers_per_run self.max_papers_per_run
    && leb other.papers_per_month self.papers_per_month
    && leb other.runs_per_month self.runs_per_month
    && leb other.manual_runs_per_month self.manual_runs_per_month
    && is_subset other.schedule_frequencies self.schedule_frequencies
    && (not other.email_delivery || self.email_delivery)

abbrev pub same_flag : Bool → Bool → Bool
same_flag true b = b
same_flag false b = not b

-- The `==` of the frozen dataclass.
unfoldable pub same_entitlements : PlanEntitlements → PlanEntitlements → Bool
same_entitlements p q =
    p.max_digests == q.max_digests
    && p.max_papers_per_run == q.max_papers_per_run
    && p.papers_per_month == q.papers_per_month
    && p.runs_per_month == q.runs_per_month
    && p.manual_runs_per_month == q.manual_runs_per_month
    && same_set p.schedule_frequencies q.schedule_frequencies
    && same_flag p.email_delivery q.email_delivery

-- `self.improves(other=other)`
unfoldable pub improves : PlanEntitlements → PlanEntitlements → Bool
improves self other = includes self other && not (same_entitlements self other)

-- The saved configuration of a revision, whose `billing_type` is "stripe" where it has none.
pub record SubscriptionPlanRevision : Type 0 where
  pub id : ℕ
  pub code : String
  pub currency : String
  pub is_stripe : Bool
  pub configuration : PlanEntitlements

unfoldable pub is_renewal_upgrade : SubscriptionPlanRevision → SubscriptionPlanRevision → Bool
is_renewal_upgrade source target =
    if str_eq source.code target.code
      || not source.is_stripe
      || not target.is_stripe
      || not (str_eq source.currency target.currency)
    then false
    else improves target.configuration source.configuration

-- The keys of a configuration that decide whether subscribers may choose the plan; `trial_days` is 0
-- where it is missing.
pub record Publication : Type 0 where
  pub subscriber_visible : Bool
  pub is_reviewed : Bool
  pub is_tax_inclusive : Bool
  pub is_free : Bool
  pub has_stripe_sandbox : Bool
  pub trial_days : ℕ

-- `available` of services/billing_policy.py.
unfoldable pub available : Publication → Bool
available p =
    p.subscriber_visible
    && p.is_reviewed
    && p.is_tax_inclusive
    && (p.is_free || p.has_stripe_sandbox)
    && p.trial_days == 0
