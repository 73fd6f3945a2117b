-- ===== src/Quota/Model.antt =====
-- The ledger of accepted runs (models/subscription_access.py) and what the access rules answer
-- (services/subscription_access_service.py). A time counts microseconds.
use scientific_research_rada.Prelude.{
  ℕ, String, Bool, List, [], ◌∷◌, Option, none, some, ◌==◌, if◌then◌else◌,
}
use scientific_research_rada.Runs.Model.{DigestRunTrigger}
use scientific_research_rada.Quota.Plans.{PlanEntitlements}

pub data UsageState : Type 0 where
  reserved settled released : UsageState

-- The schedule's keys that the rules read.
pub record RequestContext : Type 0 where
  pub frequency : Option String
  pub send_email : Bool

pub record SubscriptionRunUsage : Type 0 where
  pub run_key : ℕ
  pub user_id : ℕ
  pub checkout_id : Option ℕ
  pub plan_revision_id : ℕ
  pub period_start : ℕ
  pub period_end : ℕ
  pub trigger : DigestRunTrigger
  pub state : UsageState
  pub requested_papers : ℕ
  pub actual_papers : ℕ
  pub request_context : RequestContext

abbrev pub Ledger : Type 0
Ledger = List SubscriptionRunUsage

pub record Plan : Type 0 where
  pub id : ℕ
  pub configuration : PlanEntitlements

-- What `resolve` answers in the mode "sandbox" where new research is allowed.
pub record Allowed : Type 0 where
  pub plan : Plan
  pub checkout_id : Option ℕ
  pub period_start : ℕ
  pub period_end : ℕ
  -- `str(id)` of the active digests.
  pub active_digest_ids : Option (List String)

-- The answer of `resolve`: the mode "complimentary", `allowed` false with its reason, or the rest.
pub data Access : Type 0 where
  complimentary : Access
  denied : String → Access
  allowed : Allowed → Access

-- The part of a run and of its digest that the rules read.
pub record RunRequest : Type 0 where
  pub id : ℕ
  pub owner_id : ℕ
  pub digest_id : String
  pub trigger : DigestRunTrigger
  pub maximum_papers : ℕ
  pub schedule_paused : Bool

-- One constructor for each message of `reasons` and `assess`.
pub data Issue : Type 0 where
  runs_exhausted manual_exhausted papers_exhausted per_run_limit digest_limit : Issue
  frequency_excluded email_excluded inactive_digest paused_schedule : Issue
  reduce_papers delete_digest monthly_reset : Issue
  not_allowed : String → Issue

-- `db.get(Usage, run_key)`: the key is the primary key.
unfoldable pub lookup : ℕ → Ledger → Option SubscriptionRunUsage
lookup k [] = none
lookup k (u ∷ us) = let rest = lookup k us in if u.run_key == k then some u else rest

-- The row written back, or added where the key is new.
unfoldable pub put : SubscriptionRunUsage → Ledger → Ledger
put u [] = u ∷ []
put u (v ∷ vs) = let rest = put u vs in if v.run_key == u.run_key then u ∷ vs else v ∷ rest
