-- ===== src/Radar/Contracts/Summaries.antt =====
-- contracts.py: the summaries of the selected papers.
use scientific_research_rada.Prelude.{ℕ, String, Option, List}

pub record FindingEvidence : Type 0 where
  pub finding_index : ℕ
  pub passage_ids : List String

pub record SourceAttribution : Type 0 where
  pub title : String
  pub authors : List String
  pub source_url : String
  pub license_url : String
  pub rights_notice : String
  pub changes : String

pub data SummaryBasis : Type 0 where
  metadata_only abstract_only extracted_sections open_full_text user_provided_source unclear :
      SummaryBasis

pub data PaperType : Type 0 where
  empirical_study benchmark_paper dataset_paper survey_review theoretical_paper systems_paper
        methods_paper position_paper case_study unclear :
      PaperType

pub record PaperSummary : Type 0 where
  pub external_id : String
  pub summary_basis : SummaryBasis
  pub paper_type : PaperType
  pub concise_summary : String
  pub why_this_paper_matters : List String
  pub methods : List String
  pub key_findings : List String
  pub limitations : List String
  pub implications : List String
  pub recommendations : List String
  pub suggested_digest_bullet : String
  pub follow_up_questions : List String
  pub related_search_terms : List String
  pub warnings : List String
  pub confidence_score : ℕ
  pub summary_evidence_ids : List String
  pub finding_evidence : List FindingEvidence
  pub source_attribution : Option SourceAttribution

pub record PaperSummariesOutput : Type 0 where
  pub paper_summaries : List PaperSummary
