-- ===== src/Pipeline/Tests.antt =====
-- The summaries stage on three papers in batches of two, from the start and after an execution that
-- saved one batch.
use scientific_research_rada.Prelude.{ℕ}
use scientific_research_rada.Prelude.Texts.{same_set, is_empty}
use scientific_research_rada.Radar.Validators.{validate_unique_papers, has_repeats}
use scientific_research_rada.Radar.Validation.{validate_summaries}
use scientific_research_rada.Radar.Evidence.{
  constrain_summaries, constrain_summary, document_of, is_usable, with_source, truthy,
}
use scientific_research_rada.Prelude.{All, length, ◌≤◌, arith}
use scientific_research_rada.Runs.Lifecycle.{stage_of}
use scientific_research_rada.Runs.Model.{DigestRunStageStatus, summaries_result}
use scientific_research_rada.Prelude.{String, List, [], ◌∷◌, map, none, some, ◌≡◌, inl, refl}
use mathlib.Core.List.{flatten}
use scientific_research_rada.Prelude.Texts.{is_unique, is_subset}
use scientific_research_rada.Prelude.Outcome.{ok}
use scientific_research_rada.Radar.Samples.{discovery, document, summary, paper, assessment}
use scientific_research_rada.Radar.StageInputs.{EvidencePaper, SelectedPaper, summary_input}
use scientific_research_rada.Radar.Evidence.{Documents}
use scientific_research_rada.Runs.Model.{
  DigestRun, DigestRunStage, DigestRunStatus, DigestRunTrigger, DigestRunStageType,
}
use scientific_research_rada.Runs.State.{pending_stage}
use scientific_research_rada.Pipeline.Model.{Pipeline, Reply, failure, summaries_reply}
use scientific_research_rada.Pipeline.Stages.{Setting, execute_summaries, summarize_batches}
use scientific_research_rada.Pipeline.Complete.{execute_summaries_lem, Result}
use scientific_research_rada.Pipeline.Accept.{accept_batch}
use scientific_research_rada.Pipeline.Batches.{batches, batches_lem}
use scientific_research_rada.Pipeline.Answered.{
  Answered, batch_of, request_of, summarize_batches_answered,
}

abbrev pub run : DigestRun
run = record {
  id = 7;
  digest_id = 1;
  owner_id = 3;
  status = DigestRunStatus.running;
  trigger = DigestRunTrigger.manual;
  digest_snapshot = record { maximum_papers = 10; reporting_from = 100; reporting_to = 130 };
  error_message = none;
  started_at = 50;
  completed_at = none;
  scheduled_for = none;
  worker_id = some "a";
  lease_expires_at = some 90;
  request_count = 0;
  feedback_text = none;
  feedback_created_at = none;
  feedback_updated_at = none;
  stages =
      pending_stage DigestRunStageType.discovery_relevance 1
      ∷ pending_stage DigestRunStageType.paper_summaries 2
      ∷ pending_stage DigestRunStageType.trend_analysis 3
      ∷ pending_stage DigestRunStageType.digest_briefing 4
      ∷ [];
}

abbrev documents : Documents
documents = ("p1", document) ∷ ("p2", document) ∷ ("p3", document) ∷ []

abbrev pub setting : Setting
setting = record {
  summary_batch_size = 2;
  now = 60;
  date_text = λ _. "2026-01-01";
  prepare_content = λ _. ok documents;
}

abbrev answer : List String → Reply
answer ids = summaries_reply (some "r") (record { paper_summaries = map summary ids })

abbrev lost_provider : Pipeline
lost_provider = record { run = run; replies = answer ("p2" ∷ "p1" ∷ []) ∷ failure ∷ []; asked = [] }

abbrev chosen : List SelectedPaper
chosen =
    record { paper = paper "p1" (some 110); relevance = assessment "p1" }
    ∷ record { paper = paper "p2" (some 90); relevance = assessment "p2" }
    ∷ record { paper = paper "p3" none; relevance = assessment "p3" }
    ∷ []

-- The stage that the first execution leaves, and the provider of the retry.
abbrev half_done : DigestRunStage
half_done = record (pending_stage DigestRunStageType.paper_summaries 2) {
  status = DigestRunStageStatus.failed;
  result_data = some (summaries_result (summary "p2" ∷ summary "p1" ∷ []));
}

abbrev retried : Pipeline
retried = record {
  run = record run { stages = half_done ∷ [] };
  replies = answer ("p3" ∷ []) ∷ [];
  asked = [];
}

execute_summaries_lem_example :
    Result ("p1" ∷ "p2" ∷ "p3" ∷ []) (execute_summaries setting discovery retried)
unfolding summary_input is_unique stage_of is_subset
execute_summaries_lem_example =
    execute_summaries_lem setting discovery chosen refl refl retried half_done refl
      ((refl, refl), inl refl)

abbrev evidence : String → EvidencePaper
evidence id = record {
  external_id = id;
  title = "Title";
  authors = [];
  url = "https://example.org";
  published_date = none;
  source_evidence = document;
}

abbrev answered : List Answered
answered =
    (evidence "p1" ∷ evidence "p2" ∷ [], answer ("p2" ∷ "p1" ∷ []))
    ∷ (evidence "p3" ∷ [], answer ("p3" ∷ []))
    ∷ []

abbrev asked_all : Pipeline
asked_all = record lost_provider { replies = answer ("p2" ∷ "p1" ∷ []) ∷ answer ("p3" ∷ []) ∷ [] }

summarize_batches_answered_example :
    ((summarize_batches setting documents 3 (map batch_of answered) asked_all).1 ≡ ok tt)
    × ((summarize_batches setting documents 3 (map batch_of answered) asked_all).0.replies ≡ [])
    × ((summarize_batches setting documents 3 (map batch_of answered) asked_all).0.asked
        ≡ map request_of answered)
unfolding accept_batch validate_unique_papers has_repeats validate_summaries same_set
    constrain_summaries constrain_summary document_of is_usable is_empty with_source truthy
summarize_batches_answered_example =
    summarize_batches_answered setting documents 3 answered [] asked_all (refl, (refl, tt)) refl

abbrev three : List ℕ
three = 1 ∷ 2 ∷ 3 ∷ []

batches_lem_example :
    (flatten (batches 2 three) ≡ three) × All (λ b. length b ≤ 2) (batches 2 three)
batches_lem_example = batches_lem 2 three (omega arith)
