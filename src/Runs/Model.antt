-- ===== src/Runs/Model.antt =====
-- models/digest_run.py: the rows of a run and of its stages. A UUID and a time are numbers; a time
-- counts microseconds. The snapshot is the part that the code reads.
use scientific_research_rada.Prelude.{
  ℕ, String, Bool, true, false, List, [], ◌∷◌, Option, none, some, if◌then◌else◌,
}
use scientific_research_rada.Radar.Contracts.{
  DiscoveryRelevanceOutput, PaperSummary, TrendAnalysisOutput, DigestBriefingOutput,
}

pub data DigestRunStatus : Type 0 where
  queued running completed failed : DigestRunStatus

pub data DigestRunTrigger : Type 0 where
  manual scheduled : DigestRunTrigger

pub data DigestRunStageType : Type 0 where
  discovery_relevance paper_summaries trend_analysis digest_briefing : DigestRunStageType

pub data DigestRunStageStatus : Type 0 where
  pending running completed failed : DigestRunStageStatus

abbrev pub radar_stage_order : List DigestRunStageType
radar_stage_order =
    DigestRunStageType.discovery_relevance ∷ DigestRunStageType.paper_summaries
    ∷ DigestRunStageType.trend_analysis ∷ DigestRunStageType.digest_briefing ∷ []

-- The JSON of a stage's `result_data`, by the contract that it is parsed with.
pub data StageResult : Type 0 where
  discovery_result : DiscoveryRelevanceOutput → StageResult
  summaries_result : List PaperSummary → StageResult
  trend_result : TrendAnalysisOutput → StageResult
  briefing_result : DigestBriefingOutput → StageResult

pub record DigestRunStage : Type 0 where
  pub stage : DigestRunStageType
  pub position : ℕ
  pub status : DigestRunStageStatus
  pub progress_current : ℕ
  pub progress_total : ℕ
  pub result_data : Option StageResult
  pub error_message : Option String
  pub active_response_id : Option String
  pub response_ids : List String
  pub started_at : Option ℕ
  pub completed_at : Option ℕ

pub record DigestSnapshot : Type 0 where
  pub maximum_papers : ℕ
  pub reporting_from : ℕ
  pub reporting_to : ℕ

pub record DigestRun : Type 0 where
  pub id : ℕ
  pub digest_id : ℕ
  pub owner_id : ℕ
  pub status : DigestRunStatus
  pub trigger : DigestRunTrigger
  pub digest_snapshot : DigestSnapshot
  pub error_message : Option String
  pub started_at : ℕ
  pub completed_at : Option ℕ
  pub scheduled_for : Option ℕ
  pub worker_id : Option String
  pub lease_expires_at : Option ℕ
  pub request_count : ℕ
  pub feedback_text : Option String
  pub feedback_created_at : Option ℕ
  pub feedback_updated_at : Option ℕ
  pub stages : List DigestRunStage

-- `status IN ('queued', 'running')`
abbrev pub is_active : DigestRunStatus → Bool
is_active DigestRunStatus.queued = true
is_active DigestRunStatus.running = true
is_active _ = false

abbrev pub is_running : DigestRunStatus → Bool
is_running DigestRunStatus.running = true
is_running _ = false

abbrev pub is_failed : DigestRunStatus → Bool
is_failed DigestRunStatus.failed = true
is_failed _ = false

abbrev pub stage_in : DigestRunStageStatus → DigestRunStageStatus → Bool
stage_in DigestRunStageStatus.pending DigestRunStageStatus.pending = true
stage_in DigestRunStageStatus.running DigestRunStageStatus.running = true
stage_in DigestRunStageStatus.completed DigestRunStageStatus.completed = true
stage_in DigestRunStageStatus.failed DigestRunStageStatus.failed = true
stage_in _ _ = false

-- The first stage of a status.
unfoldable pub first_stage : DigestRunStageStatus → List DigestRunStage → Option DigestRunStage
first_stage wanted [] = none
first_stage wanted (s ∷ rest) =
    let later = first_stage wanted rest in if stage_in wanted s.status then some s else later

-- The property `current_stage`.
unfoldable pub current_stage : DigestRun → Option DigestRunStageType
current_stage run =
    if is_active run.status
    then elim (first_stage DigestRunStageStatus.running run.stages) [
      | some s ↦ some s.stage
      | none ↦ elim (first_stage DigestRunStageStatus.pending run.stages) [
        | some s ↦ some s.stage
        | none ↦ none
      ]
    ]
    else none
