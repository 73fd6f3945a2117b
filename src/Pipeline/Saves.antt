-- ===== src/Pipeline/Saves.antt =====
-- repositories/run_result_repository.py: what an accepted result writes to its stage. The rows of
-- papers, trends and briefings repeat the result and are left out, as are the model's name and usage.
use scientific_research_rada.Prelude.{
  ℕ, String, List, [], ◌∷◌, ◌++◌, Option, none, some, length, if◌then◌else◌, str_eq,
}
use scientific_research_rada.Radar.Contracts.{PaperSummary}
use scientific_research_rada.Runs.Model.{
  DigestRunStage, DigestRunStageStatus, StageResult, summaries_result,
}

-- `if result.response_id:` of `record_result_metadata`
abbrev pub add_response : Option String → List String → List String
add_response none ids = ids
add_response (some id) ids = if str_eq id "" then ids else ids ++ (id ∷ [])

unfoldable pub record_result_metadata : Option String → DigestRunStage → DigestRunStage
record_result_metadata response_id stage = record stage {
  response_ids = add_response response_id stage.response_ids;
  active_response_id = none;
}

-- `_complete_stage` with its defaults for the progress.
unfoldable pub complete_stage : StageResult → Option String → ℕ → DigestRunStage → DigestRunStage
unfolding record_result_metadata
complete_stage result response_id now stage = record_result_metadata response_id (record stage {
  result_data = some result;
  progress_current = 1;
  progress_total = 1;
  status = DigestRunStageStatus.completed;
  completed_at = some now;
})

-- `list((stage.result_data or {}).get("paper_summaries", []))`
abbrev pub saved_summaries : Option StageResult → List PaperSummary
saved_summaries (some (summaries_result ss)) = ss
saved_summaries _ = []

unfoldable pub save_summary_batch :
    List PaperSummary → Option String → ℕ → DigestRunStage → DigestRunStage
unfolding record_result_metadata
save_summary_batch summaries response_id progress_total stage =
    let all = saved_summaries stage.result_data ++ summaries in
    record_result_metadata response_id (record stage {
      result_data = some (summaries_result all);
      progress_current = length all;
      progress_total = progress_total;
    })

abbrev pub or_no_summaries : Option StageResult → Option StageResult
or_no_summaries none = some (summaries_result [])
or_no_summaries (some r) = some r

unfoldable pub complete_summary_stage : ℕ → ℕ → DigestRunStage → DigestRunStage
complete_summary_stage progress_total now stage = record stage {
  status = DigestRunStageStatus.completed;
  progress_current = progress_total;
  progress_total = progress_total;
  completed_at = some now;
  result_data = or_no_summaries stage.result_data;
}
