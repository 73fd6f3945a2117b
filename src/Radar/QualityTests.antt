-- ===== src/Radar/QualityTests.antt =====
-- The quality checks at a small saved output.
use scientific_research_rada.Prelude.{true, false, [], ◌∷◌, ◌≡◌, refl}
use scientific_research_rada.Prelude.Outcome.{ok}
use scientific_research_rada.Prelude.Texts.{
  contains, difference, is_subset, same_set, dedup, is_empty,
}
use scientific_research_rada.Radar.Validation.References.{trend_references, briefing_references}
use scientific_research_rada.Radar.Period.{is_in_period}
use scientific_research_rada.Radar.Quality.{
  QualityMode, QualityStatus, Severity, Code, QualityDecision, QualityConfig, SavedOutput,
  TextTools, selected_ids, cited_ids, reference_findings, overstated_ids, included_papers,
  date_findings, access_findings, content_findings, all_findings, evaluate_quality,
}
use scientific_research_rada.Radar.Cleared.{IsCleared, evaluate_quality_lem}
use scientific_research_rada.Radar.Samples.{discovery, output}

abbrev plain : TextTools
plain = record {
  strip = λ t. t;
  without_doi_prefix = λ t. t;
  lower = λ t. t;
  canonical_url = λ t. t;
  is_doi_host = λ _. false;
  title_words = λ t. t;
}

abbrev config : QualityConfig
config = record {
  mode = QualityMode.enforce;
  check_reporting_dates = true;
  check_duplicates = false;
  check_source_access = true;
  sparse_paper_threshold = 3;
}

abbrev saved : SavedOutput
saved = record {
  discovery = discovery;
  summaries = record { paper_summaries = output.paper_summaries };
  trends = record { trend_analysis = output.trend_analysis };
  briefing = record { digest_briefing = output.digest_briefing };
  reporting_from = 50;
  reporting_to = 130;
}

abbrev decision : QualityDecision
decision = record {
  status = QualityStatus.warning;
  findings =
      record {
        code = Code.unknown_publication_date;
        severity = Severity.warning;
        paper_ids = "p3" ∷ [];
      }
      ∷ record {
        code = Code.limited_source_access;
        severity = Severity.warning;
        paper_ids = "p3" ∷ "p1" ∷ "p2" ∷ [];
      }
      ∷ [];
}

is_decided : evaluate_quality plain config saved ≡ ok decision
unfolding evaluate_quality all_findings reference_findings content_findings date_findings
    access_findings included_papers overstated_ids selected_ids cited_ids trend_references
    briefing_references is_in_period contains difference is_subset same_set dedup is_empty
    mathlib.Core.List.flatten
is_decided = refl

evaluate_quality_lem_example : IsCleared plain config saved
evaluate_quality_lem_example = evaluate_quality_lem plain config saved refl is_decided refl
