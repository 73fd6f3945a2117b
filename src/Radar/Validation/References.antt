-- ===== src/Radar/Validation/References.antt =====
-- radar/validation.py: the papers that a trend analysis and a briefing refer to.
use mathlib.Core.List.{flatten}
use scientific_research_rada.Prelude.{String, List, [], ◌∷◌, ◌++◌, Option, none, some, map}
use scientific_research_rada.Radar.Contracts.{
  TrendAnalysis, TrendAnalysisOutput, DigestBriefing, DigestBriefingOutput, BriefingMainSignal,
}

abbrev pub trend_groups : TrendAnalysis → List (List String)
trend_groups trend =
    map (λ i. i.evidence_external_ids) trend.themes
    ++ (map (λ i. i.supporting_external_ids) trend.emerging_items
        ++ (map (λ i. i.supporting_external_ids) trend.repeated_limitations_or_unresolved_problems
            ++ (map (λ i. i.supporting_external_ids) trend.contradictions_or_competing_approaches
                ++ (map (λ i. i.supporting_external_ids) trend.weak_signals
                    ++ (map (λ i. i.supporting_external_ids) trend.changes_vs_previous_digest
                        ++ map (λ i. i.supporting_external_ids) trend.practical_implications)))))

unfoldable pub trend_references : TrendAnalysisOutput → List String
trend_references output = flatten (trend_groups output.trend_analysis)

-- `groups.append(...)` where there is a main signal.
abbrev pub main_signal_groups : Option BriefingMainSignal → List (List String)
main_signal_groups none = []
main_signal_groups (some signal) = signal.supporting_external_ids ∷ []

abbrev pub briefing_groups : DigestBriefing → List (List String)
briefing_groups briefing =
    briefing.top_paper_external_ids
    ∷ briefing.secondary_paper_external_ids
    ∷ (map (λ i. i.related_external_ids) briefing.recommendations
        ++ main_signal_groups briefing.main_signal)

unfoldable pub briefing_references : DigestBriefingOutput → List String
briefing_references output = flatten (briefing_groups output.digest_briefing)
