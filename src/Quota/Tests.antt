-- ===== src/Quota/Tests.antt =====
-- The theorems on the allowance at a concrete plan and ledger.
use scientific_research_rada.Prelude.{ltb, ◌+◌, true, false, [], ◌∷◌, none, some, ◌≡◌, refl, arith}
use scientific_research_rada.Prelude.Texts.{contains, is_subset, same_set}
use scientific_research_rada.Prelude.Outcome.{ok}
use scientific_research_rada.Runs.Model.{DigestRunTrigger}
use scientific_research_rada.Quota.Plans.{
  PlanEntitlements, SubscriptionPlanRevision, includes, same_entitlements, improves,
  is_renewal_upgrade,
}
use scientific_research_rada.Quota.Model.{
  UsageState, RequestContext, SubscriptionRunUsage, Access, RunRequest, lookup, put,
}
use scientific_research_rada.Quota.Rules.{
  Totals, sum_where, totals, reasons, advise, assess_allowed, assess,
}
use scientific_research_rada.Quota.Ledger.{is_charged, reserved_row, reserve, settle}
use scientific_research_rada.Quota.Upgrades.{is_renewal_upgrade_asym, upgrade_keeps_admission}
use scientific_research_rada.Quota.Bounds.{
  IsWithin, Changes, reserving, settling, here, next, Changes-IsWithin,
}
use scientific_research_rada.Prelude.{any}
use scientific_research_rada.Quota.Details.{
  check_allowed, check_details, is_about_details, details_admitted,
}

abbrev free_limits : PlanEntitlements
free_limits = record {
  max_digests = 1;
  max_papers_per_run = 5;
  papers_per_month = 10;
  runs_per_month = 2;
  manual_runs_per_month = 2;
  schedule_frequencies = [];
  email_delivery = false;
}

abbrev paid_limits : PlanEntitlements
paid_limits = record {
  max_digests = 3;
  max_papers_per_run = 10;
  papers_per_month = 100;
  runs_per_month = 20;
  manual_runs_per_month = 10;
  schedule_frequencies = "weekly" ∷ [];
  email_delivery = true;
}

abbrev starter : SubscriptionPlanRevision
starter = record {
  id = 1;
  code = "starter";
  currency = "eur";
  is_stripe = true;
  configuration = free_limits;
}

abbrev team : SubscriptionPlanRevision
team = record {
  id = 2;
  code = "team";
  currency = "eur";
  is_stripe = true;
  configuration = paid_limits;
}

abbrev unused : Totals
unused = record {
  completed_runs = 0;
  reserved_runs = 0;
  manual_runs = 0;
  completed_papers = 0;
  reserved_papers = 0;
}

is_upgrade : is_renewal_upgrade starter team ≡ true
unfolding is_renewal_upgrade improves includes same_entitlements same_set is_subset contains
is_upgrade = refl

is_renewal_upgrade_asym_example : is_renewal_upgrade team starter ≡ false
is_renewal_upgrade_asym_example = is_renewal_upgrade_asym starter team is_upgrade

upgrade_keeps_admission_example :
    reasons paid_limits unused 5 DigestRunTrigger.manual 1 none false ≡ []
upgrade_keeps_admission_example =
    upgrade_keeps_admission starter team unused 5 DigestRunTrigger.manual 1 none false is_upgrade
      (unfold reasons in refl)

abbrev account : Access
account = Access.allowed (record {
  plan = record { id = 1; configuration = free_limits };
  checkout_id = none;
  period_start = 1000;
  period_end = 2000;
  active_digest_ids = some ("d" ∷ []);
})

abbrev no_context : RequestContext
no_context = record { frequency = none; send_email = false }

abbrev request : RunRequest
request = record {
  id = 7;
  owner_id = 4;
  digest_id = "d";
  trigger = DigestRunTrigger.manual;
  maximum_papers = 5;
  schedule_paused = false;
}

abbrev row : SubscriptionRunUsage
row = record {
  run_key = 7;
  user_id = 4;
  checkout_id = none;
  plan_revision_id = 1;
  period_start = 1000;
  period_end = 2000;
  trigger = DigestRunTrigger.manual;
  state = UsageState.reserved;
  requested_papers = 5;
  actual_papers = 0;
  request_context = no_context;
}

is_admitted : reserve false account 1 no_context request [] ≡ ok (row ∷ [])
unfolding reserve is_charged lookup put reserved_row assess assess_allowed contains advise reasons
    totals sum_where
is_admitted = refl

abbrev admitted_and_settled : Changes 4 1000 2000 free_limits [] (settle 7 true 4 (row ∷ []))
admitted_and_settled =
    next
      (next here (reserving false account 1 no_context request refl (refl, refl, refl) is_admitted))
      (settling 7 true 4 (unfold lookup in omega arith))

Changes-IsWithin_example : IsWithin free_limits (totals 4 1000 2000 (settle 7 true 4 (row ∷ [])))
unfolding totals sum_where
Changes-IsWithin_example =
    Changes-IsWithin 4 1000 2000 free_limits admitted_and_settled
      (record { runs = omega arith; manual_runs = omega arith; papers = omega arith })

details_admitted_example :
    any is_about_details
      (reasons paid_limits unused 10 DigestRunTrigger.scheduled 1 (some "weekly") true)
    ≡ ltb 100 (unused.completed_papers + unused.reserved_papers + 10)
unfolding check_details check_allowed contains
details_admitted_example =
    details_admitted
      (record {
        plan = record { id = 2; configuration = paid_limits };
        checkout_id = none;
        period_start = 1000;
        period_end = 2000;
        active_digest_ids = none;
      })
      1 true 10 (record { frequency = some "weekly"; send_email = true }) unused 1 refl
