-- ===== src/Pipeline/Stages.antt =====
-- The four stages of radar/runner.py. A stage that is completed is read from its checkpoint.
use scientific_research_rada.Prelude.{
  ℕ, String, List, [], ◌∷◌, map, Option, none, some, length, ◌==◌, if◌then◌else◌,
}
use scientific_research_rada.Prelude.Outcome.{Outcome, ok, raised, wrap_error}
use scientific_research_rada.Radar.Contracts.{
  DiscoveryRelevanceOutput, PaperSummary, PaperSummariesOutput, TrendAnalysisOutput,
  DigestBriefingOutput,
}
use scientific_research_rada.Radar.StageInputs.{
  EvidencePaper, summary_input, summary_evidence_input, TrendPaper, trend_input, BriefingPaper,
  briefing_input,
}
use scientific_research_rada.Radar.Evidence.{Documents, document_of}
use scientific_research_rada.Runs.Model.{
  DigestRunStage, DigestRunStageType, StageResult, discovery_result, summaries_result, trend_result,
  briefing_result,
}
use scientific_research_rada.Runs.State.{mark_stage_running}
use scientific_research_rada.Pipeline.Model.{
  PipelineError, M, ◌>>=◌, ◌>>◌, pure, lift, get_stage, write_stage, ask,
}
use scientific_research_rada.Pipeline.Saves.{
  complete_stage, saved_summaries, save_summary_batch, complete_summary_stage,
}
use scientific_research_rada.Pipeline.Batches.{batches}
use scientific_research_rada.Pipeline.Accept.{
  accept_batch, accept_briefing, accept_discovery, accept_trend, checkpoint, evidence_ids,
  read_briefing, read_discovery, read_summaries, read_trend, remaining_papers,
}

-- What a run is executed with: the settings, the clock, the text of a date, and the documents that
-- `prepare_content` finds for a discovery.
pub record Setting : Type 0 where
  pub summary_batch_size : ℕ
  pub now : ℕ
  pub date_text : ℕ → String
  pub prepare_content : DiscoveryRelevanceOutput → Outcome PipelineError Documents

module _ (setting : Setting) where
  abbrev pub begin : DigestRunStageType → M (Unit {0})
  begin stage = write_stage stage (mark_stage_running setting.now 1)

  unfoldable pub request_discovery : ℕ → ℕ → ℕ → M DiscoveryRelevanceOutput
  request_discovery maximum_papers reporting_from reporting_to = do
    begin DigestRunStageType.discovery_relevance
    reply ← ask DigestRunStageType.discovery_relevance []
    (id, saved) ←
        lift (accept_discovery setting.date_text maximum_papers reporting_from reporting_to reply)
    write_stage DigestRunStageType.discovery_relevance
        (complete_stage (discovery_result saved) id setting.now)
    pure saved

  abbrev pub resume_discovery : Option StageResult → ℕ → ℕ → ℕ → M DiscoveryRelevanceOutput
  resume_discovery (some result) maximum_papers reporting_from reporting_to =
      lift (read_discovery result)
  resume_discovery none maximum_papers reporting_from reporting_to =
      request_discovery maximum_papers reporting_from reporting_to

  unfoldable pub execute_discovery : ℕ → ℕ → ℕ → M DiscoveryRelevanceOutput
  execute_discovery maximum_papers reporting_from reporting_to = do
    stage ← get_stage DigestRunStageType.discovery_relevance
    resume_discovery (checkpoint stage) maximum_papers reporting_from reporting_to

  -- `begin_summaries`
  unfoldable pub begin_summaries : List PaperSummary → ℕ → DigestRunStage → DigestRunStage
  begin_summaries existing progress_total stage =
      record (mark_stage_running setting.now progress_total stage) {
        result_data = some (summaries_result existing);
        progress_current = length existing;
      }

  -- One round of the loop over the batches.
  unfoldable pub summarize_batch : Documents → ℕ → List EvidencePaper → M (Unit {0})
  summarize_batch documents progress_total batch = do
    reply ← ask DigestRunStageType.paper_summaries (evidence_ids batch)
    (id, saved) ← lift (accept_batch documents batch reply)
    write_stage DigestRunStageType.paper_summaries (save_summary_batch saved id progress_total)

  unfoldable pub summarize_batches : Documents → ℕ → List (List EvidencePaper) → M (Unit {0})
  summarize_batches documents progress_total [] = pure tt
  summarize_batches documents progress_total (b ∷ bs) = do
    summarize_batch documents progress_total b
    summarize_batches documents progress_total bs

  -- `range` refuses a step of 0.
  abbrev pub sized_batches :
      ℕ → List EvidencePaper → Outcome PipelineError (List (List EvidencePaper))
  sized_batches size papers =
      if size == 0 then raised PipelineError.bad_batch_size else ok (batches size papers)

  abbrev pub final_summaries : Option StageResult → Outcome PipelineError PaperSummariesOutput
  final_summaries none = raised PipelineError.bad_checkpoint
  final_summaries (some result) = read_summaries result

  unfoldable pub request_summaries :
      List PaperSummary → DiscoveryRelevanceOutput → M PaperSummariesOutput
  request_summaries existing discovery = do
    selected ← lift (wrap_error PipelineError.invalid_stage (summary_input discovery))
    write_stage DigestRunStageType.paper_summaries (begin_summaries existing (length selected))
    documents ← lift (setting.prepare_content discovery)
    papers ← lift (
        wrap_error PipelineError.invalid_stage
          (summary_evidence_input discovery (λ id. document_of id documents)))
    todo ← lift (sized_batches setting.summary_batch_size (remaining_papers existing papers))
    summarize_batches documents (length papers) todo
    write_stage DigestRunStageType.paper_summaries
        (complete_summary_stage (length papers) setting.now)
    stage ← get_stage DigestRunStageType.paper_summaries
    lift (final_summaries stage.result_data)

  abbrev pub resume_summaries :
      Option StageResult → List PaperSummary → DiscoveryRelevanceOutput → M PaperSummariesOutput
  resume_summaries (some result) existing discovery = lift (read_summaries result)
  resume_summaries none existing discovery = request_summaries existing discovery

  unfoldable pub execute_summaries : DiscoveryRelevanceOutput → M PaperSummariesOutput
  execute_summaries discovery = do
    stage ← get_stage DigestRunStageType.paper_summaries
    resume_summaries (checkpoint stage) (saved_summaries stage.result_data) discovery

  abbrev pub trend_ids : List TrendPaper → List String
  trend_ids papers = map (λ (p : TrendPaper). p.external_id) papers

  unfoldable pub request_trends :
      DiscoveryRelevanceOutput → PaperSummariesOutput → M TrendAnalysisOutput
  request_trends discovery summaries = do
    begin DigestRunStageType.trend_analysis
    papers ← lift (wrap_error PipelineError.invalid_stage (trend_input discovery summaries))
    reply ← ask DigestRunStageType.trend_analysis (trend_ids papers)
    (id, saved) ← lift (accept_trend summaries.paper_summaries reply)
    write_stage DigestRunStageType.trend_analysis
        (complete_stage (trend_result saved) id setting.now)
    pure saved

  abbrev pub resume_trends :
      Option StageResult → DiscoveryRelevanceOutput → PaperSummariesOutput → M TrendAnalysisOutput
  resume_trends (some result) discovery summaries = lift (read_trend result)
  resume_trends none discovery summaries = request_trends discovery summaries

  unfoldable pub execute_trends :
      DiscoveryRelevanceOutput → PaperSummariesOutput → M TrendAnalysisOutput
  execute_trends discovery summaries = do
    stage ← get_stage DigestRunStageType.trend_analysis
    resume_trends (checkpoint stage) discovery summaries

  abbrev pub briefing_ids : List BriefingPaper → List String
  briefing_ids papers = map (λ (p : BriefingPaper). p.external_id) papers

  unfoldable pub request_briefing :
      DiscoveryRelevanceOutput → PaperSummariesOutput → M DigestBriefingOutput
  request_briefing discovery summaries = do
    begin DigestRunStageType.digest_briefing
    papers ← lift (wrap_error PipelineError.invalid_stage (briefing_input discovery summaries))
    reply ← ask DigestRunStageType.digest_briefing (briefing_ids papers)
    (id, saved) ← lift (accept_briefing summaries.paper_summaries reply)
    write_stage DigestRunStageType.digest_briefing
        (complete_stage (briefing_result saved) id setting.now)
    pure saved

  abbrev pub resume_briefing :
      Option StageResult → DiscoveryRelevanceOutput → PaperSummariesOutput → M DigestBriefingOutput
  resume_briefing (some result) discovery summaries = lift (read_briefing result)
  resume_briefing none discovery summaries = request_briefing discovery summaries

  unfoldable pub execute_briefing :
      DiscoveryRelevanceOutput → PaperSummariesOutput → M DigestBriefingOutput
  execute_briefing discovery summaries = do
    stage ← get_stage DigestRunStageType.digest_briefing
    resume_briefing (checkpoint stage) discovery summaries
