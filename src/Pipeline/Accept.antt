-- ===== src/Pipeline/Accept.antt =====
-- radar/runner.py: what is done with an answer before it is saved, and how a checkpoint is read.
use scientific_research_rada.Prelude.{
  ℕ, String, Bool, true, false, not, List, [], ◌∷◌, ◌++◌, map, Option, none, some, keep, all,
  if◌then◌else◌,
}
use scientific_research_rada.Prelude.Outcome.{Outcome, ok, raised, wrap_error, ◌>>=◌, ◌>>◌}
use scientific_research_rada.Prelude.Texts.{contains}
use scientific_research_rada.Radar.Contracts.{
  SearchPaper, DiscoveryRelevanceOutput, PaperSummary, PaperSummariesOutput, SourceAttribution,
  SummaryBasis, TrendAnalysisOutput, SourceBasis, DigestBriefingOutput,
}
use scientific_research_rada.Radar.Validators.{
  ContractError, ids_of_summaries, validate_assessments, validate_unique_papers,
  validate_paper_selections,
}
use scientific_research_rada.Radar.Validation.{
  validate_discovery, validate_summaries, validate_trends, validate_briefing,
}
use scientific_research_rada.Radar.Period.{exclude_out_of_period_papers}
use scientific_research_rada.Radar.StageInputs.{EvidencePaper}
use scientific_research_rada.Radar.Evidence.{Documents, constrain_summaries}
use scientific_research_rada.Runs.Model.{
  DigestRunStage, DigestRunStageStatus, StageResult, discovery_result, summaries_result,
  trend_result, briefing_result,
}
use scientific_research_rada.Pipeline.Model.{
  PipelineError, Reply, discovery_reply, summaries_reply, trend_reply, briefing_reply,
}

abbrev pub is_completed : DigestRunStageStatus → Bool
is_completed DigestRunStageStatus.completed = true
is_completed _ = false

-- `stage.status == COMPLETED and stage.result_data`
abbrev pub checkpoint : DigestRunStage → Option StageResult
checkpoint stage = if is_completed stage.status then stage.result_data else none

-- What the client parses by the response format; another reply fails.
abbrev pub client_error : ContractError → PipelineError
client_error _ = PipelineError.client_failed

abbrev pub Answer : Type 0 → Type 0
Answer A = Outcome PipelineError (Option String × A)

abbrev pub expect_discovery : Reply → Answer DiscoveryRelevanceOutput
expect_discovery (discovery_reply id o) =
    wrap_error client_error (validate_assessments o) >>= λ o'. ok (id, o')
expect_discovery _ = raised PipelineError.client_failed

abbrev pub expect_summaries : Reply → Answer PaperSummariesOutput
expect_summaries (summaries_reply id o) =
    wrap_error client_error (validate_unique_papers o) >>= λ o'. ok (id, o')
expect_summaries _ = raised PipelineError.client_failed

abbrev pub expect_trend : Reply → Answer TrendAnalysisOutput
expect_trend (trend_reply id o) = ok (id, o)
expect_trend _ = raised PipelineError.client_failed

abbrev pub expect_briefing : Reply → Answer DigestBriefingOutput
expect_briefing (briefing_reply id o) =
    wrap_error client_error (validate_paper_selections o) >>= λ o'. ok (id, o')
expect_briefing _ = raised PipelineError.client_failed

-- `model_validate(stage.result_data)` of a checkpoint.
abbrev pub read_discovery : StageResult → Outcome PipelineError DiscoveryRelevanceOutput
read_discovery (discovery_result o) =
    wrap_error PipelineError.invalid_contract (validate_assessments o)
read_discovery _ = raised PipelineError.bad_checkpoint

abbrev pub read_summaries : StageResult → Outcome PipelineError PaperSummariesOutput
read_summaries (summaries_result ss) =
    wrap_error PipelineError.invalid_contract
      (validate_unique_papers (record { paper_summaries = ss }))
read_summaries _ = raised PipelineError.bad_checkpoint

abbrev pub read_trend : StageResult → Outcome PipelineError TrendAnalysisOutput
read_trend (trend_result o) = ok o
read_trend _ = raised PipelineError.bad_checkpoint

abbrev pub read_briefing : StageResult → Outcome PipelineError DigestBriefingOutput
read_briefing (briefing_result o) =
    wrap_error PipelineError.invalid_contract (validate_paper_selections o)
read_briefing _ = raised PipelineError.bad_checkpoint

-- `paper.abstract = None` for every paper.
unfoldable pub without_abstracts : DiscoveryRelevanceOutput → DiscoveryRelevanceOutput
without_abstracts o = record o {
  search = record (o.search) {
    papers = map (λ (p : SearchPaper). record p { abstract = none }) o.search.papers;
  };
}

abbrev pub evidence_ids : List EvidencePaper → List String
evidence_ids papers = map (λ (p : EvidencePaper). p.external_id) papers

-- The papers of the selection that no saved summary is about.
unfoldable pub remaining_papers : List PaperSummary → List EvidencePaper → List EvidencePaper
remaining_papers existing papers =
    keep (λ (p : EvidencePaper). not (contains (ids_of_summaries existing) p.external_id)) papers

abbrev pub attributions_of : List PaperSummary → List SourceAttribution
attributions_of [] = []
attributions_of (s ∷ rest) = elim (s.source_attribution) [
  | none ↦ attributions_of rest
  | some a ↦ a ∷ attributions_of rest
]

abbrev pub has_basis_metadata : PaperSummary → Bool
has_basis_metadata s = elim (s.summary_basis) [ SummaryBasis.metadata_only ↦ true | _ ↦ false ]

abbrev pub has_basis_abstract : PaperSummary → Bool
has_basis_abstract s = elim (s.summary_basis) [ SummaryBasis.abstract_only ↦ true | _ ↦ false ]

-- The set of bases is empty or one element, read as a test of every summary.
unfoldable pub source_basis_of : List PaperSummary → SourceBasis
source_basis_of ss =
    if all has_basis_metadata ss
    then SourceBasis.metadata_only
    else if all has_basis_abstract ss
    then SourceBasis.abstracts_only
    else SourceBasis.mixed

unfoldable pub with_provenance : List PaperSummary → DigestBriefingOutput → DigestBriefingOutput
with_provenance ss o = record {
  digest_briefing = record (o.digest_briefing) {
    source_attributions = attributions_of ss;
    source_basis = source_basis_of ss;
    quality_warnings =
        o.digest_briefing.quality_warnings
        ++ ("Summary evidence is limited to the saved abstracts or selected sections; no complete full-text review or automated claim verification was performed."
            ∷ []);
  };
}

-- The checks between an answer and its save: the output as it is saved, or the error.
unfoldable pub accept_discovery : (ℕ → String) → ℕ → ℕ → ℕ → Reply → Answer DiscoveryRelevanceOutput
accept_discovery date_text maximum_papers reporting_from reporting_to reply = do
  (id, output) ← expect_discovery reply
  wrap_error PipelineError.invalid_output (validate_discovery output maximum_papers)
  kept ←
      wrap_error PipelineError.invalid_stage
        (exclude_out_of_period_papers date_text reporting_from reporting_to output)
  ok (id, without_abstracts kept)

unfoldable pub accept_batch : Documents → List EvidencePaper → Reply → Answer (List PaperSummary)
accept_batch documents batch reply = do
  (id, output) ← expect_summaries reply
  wrap_error PipelineError.invalid_output (validate_summaries output (evidence_ids batch))
  constrained ←
      wrap_error PipelineError.invalid_evidence
        (constrain_summaries documents output.paper_summaries)
  ok (id, constrained)

unfoldable pub accept_trend : List PaperSummary → Reply → Answer TrendAnalysisOutput
accept_trend summaries reply = do
  (id, output) ← expect_trend reply
  wrap_error PipelineError.invalid_output (validate_trends output (ids_of_summaries summaries))
  ok (id, output)

unfoldable pub accept_briefing : List PaperSummary → Reply → Answer DigestBriefingOutput
accept_briefing summaries reply = do
  (id, output) ← expect_briefing reply
  wrap_error PipelineError.invalid_output (validate_briefing output (ids_of_summaries summaries))
  ok (id, with_provenance summaries output)
