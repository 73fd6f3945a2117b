-- ===== src/Radar/Contracts/Trends.antt =====
-- contracts.py: the trend analysis.
use scientific_research_rada.Prelude.{String, List}

pub data Confidence : Type 0 where
  low medium high : Confidence

pub data Priority : Type 0 where
  low medium high : Priority

pub data Audience : Type 0 where
  researchers builders_technical_teams science_communicators_educators executives_decision_makers
        general :
      Audience

pub data EvidenceType : Type 0 where
  multi_paper_pattern single_paper_signal historical_continuation weak_signal : EvidenceType

pub record TrendTheme : Type 0 where
  pub title : String
  pub summary : String
  pub evidence_type : EvidenceType
  pub evidence_external_ids : List String
  pub observed_pattern : String
  pub interpretation : String
  pub confidence : Confidence
  pub relevance_to_audience : String
  pub caveats : List String

pub data ItemType : Type 0 where
  method model tool dataset benchmark framework metric system other : ItemType

pub data MaturityLevel : Type 0 where
  early emerging established unclear : MaturityLevel

pub record EmergingItem : Type 0 where
  pub name : String
  pub item_type : ItemType
  pub description : String
  pub supporting_external_ids : List String
  pub why_it_matters : String
  pub maturity_level : MaturityLevel
  pub confidence : Confidence
  pub caveats : List String

pub record RepeatedProblem : Type 0 where
  pub name : String
  pub description : String
  pub supporting_external_ids : List String
  pub affected_methods_or_topics : List String
  pub why_it_matters : String
  pub confidence : Confidence

pub record CompetingApproach : Type 0 where
  pub description : String
  pub approach_a : String
  pub approach_b : String
  pub supporting_external_ids : List String
  pub interpretation : String
  pub confidence : Confidence
  pub caveats : List String

pub record WeakSignal : Type 0 where
  pub name : String
  pub description : String
  pub supporting_external_ids : List String
  pub why_it_may_matter : String
  pub why_confidence_is_limited : String
  pub recommended_monitoring_query : String

pub data ChangeType : Type 0 where
  new_theme repeated_theme fading_theme stronger_signal weaker_signal unclear : ChangeType

pub record HistoricalChange : Type 0 where
  pub change_type : ChangeType
  pub description : String
  pub supporting_external_ids : List String
  pub previous_digest_reference : String
  pub confidence : Confidence

pub record PracticalImplication : Type 0 where
  pub audience_segment : Audience
  pub implication : String
  pub supporting_external_ids : List String
  pub recommended_action : String
  pub confidence : Confidence

pub record RecommendedSearch : Type 0 where
  pub query : String
  pub reason : String
  pub priority : Priority

pub record TrendAnalysis : Type 0 where
  pub overview : String
  pub overall_confidence : Confidence
  pub analysis_limitations : List String
  pub themes : List TrendTheme
  pub emerging_items : List EmergingItem
  pub repeated_limitations_or_unresolved_problems : List RepeatedProblem
  pub contradictions_or_competing_approaches : List CompetingApproach
  pub weak_signals : List WeakSignal
  pub changes_vs_previous_digest : List HistoricalChange
  pub practical_implications : List PracticalImplication
  pub recommendations : List String
  pub recommended_next_searches : List RecommendedSearch

pub record TrendAnalysisOutput : Type 0 where
  pub trend_analysis : TrendAnalysis
