-- ===== src/Radar/Agreement.antt =====
-- The validator of a whole output (`RadarOutput` of contracts.py, which the tests build) against the
-- checks that the stages of a run make one after the other (radar/validation.py, radar/runner.py).
use scientific_research_rada.Prelude.{String, true, List, ◌≡◌, ◌↔◌, arith, map}
use scientific_research_rada.Prelude.Texts.{is_subset, same_set, is_empty-difference}
use scientific_research_rada.Prelude.Outcome.{ok}
use scientific_research_rada.Radar.StageInputs.{SelectedPaper}
use scientific_research_rada.Radar.Contracts.{
  RadarOutput, DiscoveryRelevanceOutput, PaperSummariesOutput, TrendAnalysisOutput,
  DigestBriefingOutput,
}
use scientific_research_rada.Radar.Validators.{
  paper_ids, ids_of_summaries, validate_assessments, validate_unique_papers,
  validate_paper_selections,
}
use scientific_research_rada.Radar.Validation.{
  validate_references, validate_summaries, validate_trends, validate_briefing,
}

abbrev pub discovery_of : RadarOutput → DiscoveryRelevanceOutput
discovery_of o = record { search = o.search; relevance = o.relevance }

abbrev summaries_of : RadarOutput → PaperSummariesOutput
summaries_of o = record { paper_summaries = o.paper_summaries }

abbrev trends_of : RadarOutput → TrendAnalysisOutput
trends_of o = record { trend_analysis = o.trend_analysis }

abbrev briefing_of : RadarOutput → DigestBriefingOutput
briefing_of o = record { digest_briefing = o.digest_briefing }

abbrev pub ids_of_selected : List SelectedPaper → List String
ids_of_selected papers = map (λ (p : SelectedPaper). p.paper.external_id) papers

-- The checks that a run makes on its four outputs, where `selected` are the papers that it asks
-- summaries of, all its batches together: the summaries are of those papers, and what the later
-- stages cite has a summary.
abbrev pub StagesAccept : RadarOutput → List SelectedPaper → Type 0
StagesAccept o selected =
    let known = ids_of_summaries o.paper_summaries in
    (validate_assessments (discovery_of o) ≡ ok (discovery_of o))
    × (validate_unique_papers (summaries_of o) ≡ ok (summaries_of o))
    × (validate_summaries (summaries_of o) (ids_of_selected selected) ≡ ok tt)
    × (validate_trends (trends_of o) known ≡ ok tt)
    × (validate_briefing (briefing_of o) known ≡ ok tt)
    × (validate_paper_selections (briefing_of o) ≡ ok (briefing_of o))

-- A stage's references are accepted exactly when every one of them is known.
pub validate_references_iff :
    (ids known : List String) (stage : String)
    → (validate_references ids known stage ≡ ok tt) ↔ (is_subset ids known ≡ true)
unfolding validate_references
validate_references_iff ids known stage = ground (arith, is_empty-difference ids known)

-- Every paper that was found is selected.
abbrev pub AllSelected : RadarOutput → List SelectedPaper → Type 0
AllSelected o selected = same_set (ids_of_selected selected) (paper_ids o.search.papers) ≡ true
