-- ===== src/Quota/Details.antt =====
-- `check_details` of services/subscription_access_service.py: what may be saved in a digest.
use scientific_research_rada.Prelude.{
  ℕ, ◌+◌, String, Bool, true, false, not, ◌&&◌, ◌||◌, Option, none, some, ltb, leb, ◌≡◌, arith,
  if◌then◌else◌, any,
}
use scientific_research_rada.Prelude.Keyed.{is_some}
use scientific_research_rada.Prelude.Outcome.{Outcome, ok, raised, ◌>>◌, raise_if}
use scientific_research_rada.Runs.Model.{DigestRunTrigger}
use scientific_research_rada.Quota.Plans.{PlanEntitlements}
use scientific_research_rada.Quota.Model.{RequestContext, Allowed, Access, Issue}
use scientific_research_rada.Quota.Rules.{Totals, counted_digests, offers, reasons}

pub data DetailsDenied : Type 0 where
  closing no_digest_left too_many_papers schedule_excluded : DetailsDenied
  not_allowed : String → DetailsDenied

abbrev pub exceeds : ℕ → Option ℕ → Bool
exceeds limit none = false
exceeds limit (some papers) = ltb limit papers

abbrev pub excludes : PlanEntitlements → Option RequestContext → Bool
excludes config none = false
excludes config (some schedule) =
    not (offers config.schedule_frequencies schedule.frequency)
    || (schedule.send_email && not config.email_delivery)

unfoldable pub check_allowed :
    Allowed → ℕ → Bool → Option ℕ → Option RequestContext → Outcome DetailsDenied (Unit {0})
check_allowed access digest_count creating requested_papers schedule =
    let config = access.plan.configuration in
    let count = counted_digests access.active_digest_ids digest_count in
    raise_if (creating && leb config.max_digests count) DetailsDenied.no_digest_left
    >> raise_if (exceeds config.max_papers_per_run requested_papers) DetailsDenied.too_many_papers
    >> raise_if (excludes config schedule) DetailsDenied.schedule_excluded

unfoldable pub check_details :
    Bool → Access → ℕ → Bool → Option ℕ → Option RequestContext → Outcome DetailsDenied (Unit {0})
check_details true access digest_count creating requested_papers schedule =
    raised DetailsDenied.closing
check_details false Access.complimentary digest_count creating requested_papers schedule = ok tt
check_details false (Access.denied reason) digest_count creating requested_papers schedule =
    if not creating && not (is_some requested_papers) && not (is_some schedule)
    then ok tt
    else raised (DetailsDenied.not_allowed reason)
check_details false (Access.allowed access) digest_count creating requested_papers schedule =
    check_allowed access digest_count creating requested_papers schedule

-- The objections of the rules to the number of papers or to the schedule.
abbrev pub is_about_details : Issue → Bool
is_about_details Issue.per_run_limit = true
is_about_details Issue.papers_exhausted = true
is_about_details Issue.frequency_excluded = true
is_about_details Issue.email_excluded = true
is_about_details _ = false

-- A scheduled run whose number of papers and schedule may be saved under the plan is refused for
-- that number or that schedule exactly when the papers used and reserved in the month, with this
-- number, exceed the papers of the plan.
pub details_admitted :
    (access : Allowed) (count : ℕ) (creating : Bool) (papers : ℕ) (schedule : RequestContext)
    (usage : Totals) (digests : ℕ)
    → check_details false (Access.allowed access) count creating (some papers) (some schedule)
      ≡ ok tt
    → any is_about_details (
        reasons access.plan.configuration usage papers DigestRunTrigger.scheduled digests
          schedule.frequency schedule.send_email)
      ≡ ltb access.plan.configuration.papers_per_month
          (usage.completed_papers + usage.reserved_papers + papers)
unfolding check_details check_allowed reasons
details_admitted access count creating papers schedule usage digests h = ground arith
