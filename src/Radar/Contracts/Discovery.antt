-- ===== src/Radar/Contracts/Discovery.antt =====
-- contracts.py: papers found by the search, and their relevance assessments.
use scientific_research_rada.Prelude.{ℕ, String, Bool, Option, List}

pub record SourceCitation : Type 0 where
  pub title : String
  pub url : String

-- `open_access` is the literal "open".
pub data AccessStatus : Type 0 where
  open_access paywalled metadata_only user_provided unknown : AccessStatus

pub record SearchPaper : Type 0 where
  pub source_name : String
  pub external_id : String
  pub title : String
  pub authors : List String
  pub abstract : Option String
  pub published_date : Option ℕ
  pub updated_date : Option ℕ
  pub venue_or_source : Option String
  pub url : String
  pub pdf_url : Option String
  pub doi : Option String
  pub access_status : AccessStatus
  pub license : Option String
  pub full_text_available : Bool
  pub discovery_reason : String
  pub matched_keywords : List String
  pub possible_duplicate_of : Option String
  pub factual_note : String
  pub warnings : List String
  pub citations : List SourceCitation

pub record SearchMetadata : Type 0 where
  pub queries : List String
  pub sources_used : List String
  pub deduplication_notes : List String
  pub coverage_notes : List String
  pub next_step_recommendations : List String

pub record SearchStage : Type 0 where
  pub metadata : SearchMetadata
  pub papers : List SearchPaper

pub data RecommendedStatus : Type 0 where
  summarize mention_briefly archive reject : RecommendedStatus

pub data DigestPlacement : Type 0 where
  top_paper important_technical_contribution trend_signal background_context niche_interest
        archive_only reject_placement :
      DigestPlacement

pub record RelevanceDetails : Type 0 where
  pub topic_relevance_score : ℕ
  pub novelty_signal_score : ℕ
  pub practical_value_score : ℕ
  pub score : ℕ
  pub confidence_score : ℕ
  pub recommended_status : RecommendedStatus
  pub best_digest_placement : DigestPlacement
  pub rationale : String
  pub criteria : List String
  pub evidence_used : List String
  pub potential_value_for_audience : String
  pub caveats : List String
  pub next_step_recommendations : List String

-- A subclass of `RelevanceDetails`: the inherited fields stand in `details`.
pub record RelevanceAssessment : Type 0 where
  pub external_id : String
  pub details : RelevanceDetails

pub record RelevanceStage : Type 0 where
  pub methodology : String
  pub assessments : List RelevanceAssessment
  pub recommendations : List String
  pub quality_warnings : List String

pub record DiscoveryRelevanceOutput : Type 0 where
  pub search : SearchStage
  pub relevance : RelevanceStage

pub record AssessedPaper : Type 0 where
  pub paper : SearchPaper
  pub assessment : RelevanceDetails

pub record DiscoveryResponse : Type 0 where
  pub search : SearchMetadata
  pub papers : List AssessedPaper
  pub methodology : String
  pub recommendations : List String
  pub quality_warnings : List String
