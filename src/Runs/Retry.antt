-- ===== src/Runs/Retry.antt =====
-- repositories/run_state_repository.py: `requeue_failed`, on a run whose retry was claimed.
use text.Mathlib.Text.{starts_with, find?}
use scientific_research_rada.Prelude.{
  String, Bool, true, false, List, [], ◌∷◌, Option, none, some, ◌&&◌, ◌||◌, if◌then◌else◌, any,
}
use scientific_research_rada.Prelude.Keyed.{is_some}
use scientific_research_rada.Prelude.Outcome.{Outcome, ok, raised}
use scientific_research_rada.Runs.Model.{
  DigestRun, DigestRunStage, DigestRunStatus, DigestRunStageStatus, DigestRunStageType, stage_in,
  first_stage,
}
use scientific_research_rada.Runs.State.{clear_active_response}

-- The `ValueError` of a run with no failed stage.
pub data RetryError : Type 0 where
  no_failed_stage : RetryError

abbrev pub rejected_prefixes : List String
rejected_prefixes =
    "Discovery relevance failed: The discovery stage returned more papers"
    ∷ "Paper summaries failed: The summary stage must return exactly one summary"
    ∷ "Trend analysis failed: The trend analysis referenced unknown papers:"
    ∷ "Digest briefing failed: The digest briefing referenced unknown papers:" ∷ []

-- `message or ""`
abbrev pub or_empty : Option String → String
or_empty none = ""
or_empty (some message) = message

abbrev pub is_discovery : DigestRunStageType → Bool
is_discovery DigestRunStageType.discovery_relevance = true
is_discovery _ = false

-- A saved response that an older release kept although it was rejected.
unfoldable pub was_rejected : DigestRunStage → Bool
was_rejected failed =
    let message = or_empty failed.error_message in
    (is_discovery failed.stage
      && is_some (find? message "validation error for DiscoveryRelevanceOutput")
      && is_some (find? message "Every searched paper must have one relevance assessment"))
    || any (λ prefix. starts_with message prefix) rejected_prefixes

unfoldable pub reset_failed : DigestRunStage → DigestRunStage
unfolding was_rejected clear_active_response
reset_failed failed =
    let cleared = if was_rejected failed then clear_active_response failed else failed in
    record cleared {
      status = DigestRunStageStatus.pending;
      error_message = none;
      completed_at = none;
    }

-- The assignments to the first failed stage.
unfoldable pub reset_first : List DigestRunStage → List DigestRunStage
unfolding reset_failed
reset_first [] = []
reset_first (s ∷ rest) =
    let others = reset_first rest in
    if stage_in DigestRunStageStatus.failed s.status then reset_failed s ∷ rest else s ∷ others

unfoldable pub requeued : DigestRun → DigestRun
unfolding reset_first
requeued run = record run {
  stages = reset_first run.stages;
  status = DigestRunStatus.queued;
  error_message = none;
  completed_at = none;
  worker_id = none;
  lease_expires_at = none;
}

unfoldable pub requeue_failed : DigestRun → Outcome RetryError DigestRun
unfolding first_stage requeued
requeue_failed run =
    if is_some (first_stage DigestRunStageStatus.failed run.stages)
    then ok (requeued run)
    else raised no_failed_stage
