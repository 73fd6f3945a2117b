-- ===== src/Radar/Contracts/Briefing.antt =====
-- contracts.py: the briefing, and the combined output of a run.
use scientific_research_rada.Prelude.{String, Option, List}
use scientific_research_rada.Radar.Contracts.Discovery.{SearchStage, RelevanceStage}
use scientific_research_rada.Radar.Contracts.Summaries.{SourceAttribution, PaperSummary}
use scientific_research_rada.Radar.Contracts.Trends.{
  Confidence, Priority, RecommendedSearch, TrendAnalysis,
}

pub record BriefingMainSignal : Type 0 where
  pub title : String
  pub summary : String
  pub why_it_matters : String
  pub supporting_external_ids : List String
  pub confidence : Confidence
  pub caveats : List String

pub record RecommendedAction : Type 0 where
  pub action : String
  pub reason : String
  pub priority : Priority
  pub related_external_ids : List String

pub data SourceBasis : Type 0 where
  metadata_only abstracts_only open_full_text user_provided_sources mixed unclear : SourceBasis

pub record DigestBriefing : Type 0 where
  pub title : String
  pub executive_summary : String
  pub highlights : List String
  pub main_signal : Option BriefingMainSignal
  pub top_paper_external_ids : List String
  pub secondary_paper_external_ids : List String
  pub recommendations : List RecommendedAction
  pub recommended_next_searches : List RecommendedSearch
  pub source_basis : SourceBasis
  pub transparency_note : String
  pub quality_warnings : List String
  pub source_attributions : List SourceAttribution
  pub content_markdown : String

pub record DigestBriefingOutput : Type 0 where
  pub digest_briefing : DigestBriefing

pub record RadarOutput : Type 0 where
  pub search : SearchStage
  pub relevance : RelevanceStage
  pub paper_summaries : List PaperSummary
  pub trend_analysis : TrendAnalysis
  pub digest_briefing : DigestBriefing
