-- ===== src/Radar/Validators.antt =====
-- contracts.py: the `model_validator` methods, and the conversion of the wire response.
pub mod Parse
use mathlib.Core.List.{flatten}
use scientific_research_rada.Prelude.{
  ℕ, String, Bool, List, [], ◌∷◌, ◌++◌, Option, none, some, not, ◌||◌, length, map, ◌==◌,
}
use scientific_research_rada.Prelude.Texts.{contains, difference, dedup, is_empty, same_set}
use scientific_research_rada.Prelude.Outcome.{Outcome, ok, raised, raise_if, ◌>>=◌, ◌>>◌}
use scientific_research_rada.Radar.Contracts.{
  SearchPaper, SearchStage, RelevanceStage, RelevanceAssessment, DiscoveryRelevanceOutput,
  AssessedPaper, DiscoveryResponse, PaperSummary, PaperSummariesOutput, TrendAnalysis,
  DigestBriefing, DigestBriefingOutput, RadarOutput,
}
use scientific_research_rada.Radar.Validation.References.{trend_groups, main_signal_groups}

-- The `ValueError`s that the validators raise, one for each message.
pub data ContractError : Type 0 where
  repeated_papers repeated_assessments assessment_mismatch repeated_summaries : ContractError
  repeated_selections overlapping_selections summary_mismatch : ContractError
  unknown_papers : List String → ContractError

-- `len(ids) != len(set(ids))`
unfoldable pub has_repeats : List String → Bool
unfolding dedup
has_repeats ids = not (length ids == length (dedup ids))

-- `set(xs) & set(ys)` is not empty.
unfoldable pub overlap : List String → List String → Bool
unfolding contains
overlap [] ys = Bool.false
overlap (x ∷ xs) ys = contains ys x || overlap xs ys

abbrev pub paper_ids : List SearchPaper → List String
paper_ids = map (λ p. p.external_id)

abbrev pub assessment_ids : List RelevanceAssessment → List String
assessment_ids = map (λ a. a.external_id)

abbrev pub ids_of_summaries : List PaperSummary → List String
ids_of_summaries = map (λ s. s.external_id)

unfoldable pub validate_assessments :
    DiscoveryRelevanceOutput → Outcome ContractError DiscoveryRelevanceOutput
validate_assessments self =
    let papers = paper_ids self.search.papers in
    let assessed = assessment_ids self.relevance.assessments in
    do
      raise_if (has_repeats papers) repeated_papers
      raise_if (has_repeats assessed) repeated_assessments
      raise_if (not (same_set assessed papers)) assessment_mismatch
      ok self

abbrev pub assess_item : AssessedPaper → RelevanceAssessment
assess_item item = record { external_id = item.paper.external_id; details = item.assessment }

-- The object that `to_output` builds, before its validator has run.
abbrev pub merged : DiscoveryResponse → DiscoveryRelevanceOutput
merged self = record {
  search = record { metadata = self.search; papers = map (λ i. i.paper) self.papers };
  relevance = record {
    methodology = self.methodology;
    assessments = map assess_item self.papers;
    recommendations = self.recommendations;
    quality_warnings = self.quality_warnings;
  };
}

unfoldable pub to_output : DiscoveryResponse → Outcome ContractError DiscoveryRelevanceOutput
to_output self = validate_assessments (merged self)

unfoldable pub validate_unique_papers :
    PaperSummariesOutput → Outcome ContractError PaperSummariesOutput
validate_unique_papers self = do
  raise_if (has_repeats (ids_of_summaries self.paper_summaries)) repeated_summaries
  ok self

-- The two checks on the selected papers, which `RadarOutput` makes again.
unfoldable pub check_selections : DigestBriefing → Outcome ContractError (Unit {0})
check_selections briefing =
    let top_ids = briefing.top_paper_external_ids in
    let secondary_ids = briefing.secondary_paper_external_ids in
    do
      raise_if (has_repeats top_ids || has_repeats secondary_ids) repeated_selections
      raise_if (overlap top_ids secondary_ids) overlapping_selections

unfoldable pub validate_paper_selections :
    DigestBriefingOutput → Outcome ContractError DigestBriefingOutput
validate_paper_selections self = do check_selections self.digest_briefing; ok self

unfoldable pub collect_referenced_ids : RadarOutput → List String
collect_referenced_ids self = flatten (
    trend_groups self.trend_analysis
    ++ (self.digest_briefing.top_paper_external_ids
        ∷ self.digest_briefing.secondary_paper_external_ids
        ∷ (map (λ a. a.related_external_ids) self.digest_briefing.recommendations
            ++ main_signal_groups self.digest_briefing.main_signal)))

unfoldable pub validate_paper_references : RadarOutput → Outcome ContractError RadarOutput
validate_paper_references self = do
  discovery ← validate_assessments (record { search = self.search; relevance = self.relevance })
  let expected_ids = paper_ids discovery.search.papers
  let summarized = ids_of_summaries self.paper_summaries
  raise_if (has_repeats summarized || not (same_set summarized expected_ids)) summary_mismatch
  let unknown_ids = difference (collect_referenced_ids self) expected_ids
  raise_if (not (is_empty unknown_ids)) (unknown_papers unknown_ids)
  check_selections self.digest_briefing
  ok self
