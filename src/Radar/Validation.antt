-- ===== src/Radar/Validation.antt =====
-- radar/validation.py: the rules that a stage's output passes before it is saved.
pub mod References
use scientific_research_rada.Prelude.{
  ℕ, ltb, String, Bool, List, Option, none, some, not, length, map, str_eq, if◌then◌else◌,
}
use scientific_research_rada.Prelude.Texts.{difference, is_empty, same_set}
use scientific_research_rada.Prelude.Outcome.{Outcome, raise_if}
use scientific_research_rada.Radar.Contracts.{
  DiscoveryRelevanceOutput, PaperSummariesOutput, TrendAnalysisOutput, DigestBriefingOutput,
  PaperSummary,
}
use References.{trend_references, briefing_references}

-- radar/errors.py: `RadarOutputValidationError`, by the message that it is raised with.
pub data RadarOutputValidationError : Type 0 where
  unknown_papers : String → List String → RadarOutputValidationError
  too_many_papers invalid_interval summary_mismatch : RadarOutputValidationError

-- What a stage may raise: a rejected output, or the `KeyError` of a dictionary.
pub data StageError : Type 0 where
  rejected : RadarOutputValidationError → StageError
  key_error : String → StageError

unfoldable pub validate_references :
    List String → List String → String → Outcome RadarOutputValidationError (Unit {0})
validate_references referenced_ids known_ids stage =
    let unknown = difference referenced_ids known_ids in
    raise_if (not (is_empty unknown)) (unknown_papers stage unknown)

unfoldable pub validate_discovery :
    DiscoveryRelevanceOutput → ℕ → Outcome RadarOutputValidationError (Unit {0})
validate_discovery output maximum_papers =
    raise_if (ltb maximum_papers (length output.search.papers)) too_many_papers

abbrev pub summary_ids : PaperSummariesOutput → List String
summary_ids output = map (λ s. s.external_id) output.paper_summaries

unfoldable pub validate_summaries :
    PaperSummariesOutput → List String → Outcome RadarOutputValidationError (Unit {0})
validate_summaries output expected_ids =
    raise_if (not (same_set (summary_ids output) expected_ids)) summary_mismatch

unfoldable pub validate_trends :
    TrendAnalysisOutput → List String → Outcome RadarOutputValidationError (Unit {0})
validate_trends output known_ids =
    validate_references (trend_references output) known_ids "trend analysis"

unfoldable pub validate_briefing :
    DigestBriefingOutput → List String → Outcome RadarOutputValidationError (Unit {0})
validate_briefing output known_ids =
    validate_references (briefing_references output) known_ids "digest briefing"
