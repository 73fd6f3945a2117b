-- ===== src/Quota/Ledger.antt =====
-- `reserve` and `settle` of services/subscription_access_service.py, under the account's lock.
use scientific_research_rada.Prelude.{
  ℕ, Bool, true, false, List, [], ◌∷◌, Option, none, some, ◌||◌, if◌then◌else◌,
}
use scientific_research_rada.Prelude.Outcome.{Outcome, ok, raised}
use scientific_research_rada.Runs.Model.{DigestRunTrigger}
use scientific_research_rada.Quota.Model.{
  UsageState, RequestContext, SubscriptionRunUsage, Ledger, Allowed, Access, RunRequest, Issue,
  lookup, put,
}
use scientific_research_rada.Quota.Rules.{is_reserved, is_settled, assess}

-- `AccessDenied`: of a closing account, or with the issues.
pub data AccessDenied : Type 0 where
  closing : AccessDenied
  blocked : List Issue → AccessDenied

-- `run_context`: `original` is the context of the run's first observed assessment, `emailed`
-- whether an email delivery of the run exists.
abbrev pub original_context : Option RequestContext → RequestContext → RequestContext
original_context none schedule = schedule
original_context (some original) schedule = original

unfoldable pub run_context :
    Option SubscriptionRunUsage
    → RequestContext
    → DigestRunTrigger
    → Option RequestContext
    → Bool
    → RequestContext
run_context (some existing) schedule trigger original emailed = existing.request_context
run_context none schedule DigestRunTrigger.manual original emailed = schedule
run_context none schedule DigestRunTrigger.scheduled original emailed =
    let context = original_context original schedule in
    if emailed then record context { send_email = true } else context

-- `existing.state in ('reserved', 'settled')`
unfoldable pub is_charged : Option SubscriptionRunUsage → Bool
is_charged none = false
is_charged (some u) = is_reserved u.state || is_settled u.state

-- The owner of a row: a row that exists keeps the user it was added with.
abbrev pub owner_of : Option SubscriptionRunUsage → ℕ → ℕ
owner_of none user = user
owner_of (some u) user = u.user_id

abbrev pub context_of : Option SubscriptionRunUsage → RequestContext → RequestContext
context_of none context = context
context_of (some u) context = u.request_context

unfoldable pub reserved_row :
    Option SubscriptionRunUsage → Allowed → RequestContext → RunRequest → SubscriptionRunUsage
reserved_row existing access context run = record {
  run_key = run.id;
  user_id = owner_of existing run.owner_id;
  checkout_id = access.checkout_id;
  plan_revision_id = access.plan.id;
  period_start = access.period_start;
  period_end = access.period_end;
  trigger = run.trigger;
  state = UsageState.reserved;
  requested_papers = run.maximum_papers;
  actual_papers = 0;
  request_context = context_of existing context;
}

abbrev pub admit :
    Access → List Issue → RequestContext → RunRequest → Ledger → Outcome AccessDenied Ledger
admit access (i ∷ issues) context run us = raised (AccessDenied.blocked (i ∷ issues))
admit (Access.allowed a) [] context run us =
    ok (put (reserved_row (lookup run.id us) a context run) us)
admit _ [] context run us = ok us

-- `context` is the answer of `run_context`; `is_closing` is `require_open_account`.
unfoldable pub reserve :
    Bool → Access → ℕ → RequestContext → RunRequest → Ledger → Outcome AccessDenied Ledger
reserve is_closing access digest_count context run us =
    if is_closing
    then raised AccessDenied.closing
    else if is_charged (lookup run.id us)
    then ok us
    else admit access (assess access digest_count context run us) context run us

abbrev pub settled_row : Bool → ℕ → SubscriptionRunUsage → SubscriptionRunUsage
settled_row success papers u = record u {
  actual_papers = papers;
  state = if success then UsageState.settled else UsageState.released;
}

-- `papers` is the number of saved summaries of the run.
unfoldable pub settle : ℕ → Bool → ℕ → Ledger → Ledger
settle run_id success papers us = elim (lookup run_id us) [
  | none ↦ us
  | some u ↦ if is_reserved u.state then put (settled_row success papers u) us else us
]
