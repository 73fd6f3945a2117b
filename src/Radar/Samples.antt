-- ===== src/Radar/Samples.antt =====
-- Small outputs of the stages, for the tests.
use scientific_research_rada.Prelude.{ℕ, String, Bool, List, [], ◌∷◌, Option, none, some}
use scientific_research_rada.Radar.Contracts
use scientific_research_rada.Radar.Sources

abbrev pub paper : String → Option ℕ → Contracts.SearchPaper
paper id published = record {
  source_name = "arXiv";
  external_id = id;
  title = "Title";
  authors = [];
  abstract = none;
  published_date = published;
  updated_date = none;
  venue_or_source = none;
  url = "https://example.org";
  pdf_url = none;
  doi = none;
  access_status = Contracts.unknown;
  license = none;
  full_text_available = Bool.false;
  discovery_reason = "";
  matched_keywords = [];
  possible_duplicate_of = none;
  factual_note = "";
  warnings = [];
  citations = [];
}

abbrev pub details : Contracts.RelevanceDetails
details = record {
  topic_relevance_score = 5;
  novelty_signal_score = 5;
  practical_value_score = 5;
  score = 50;
  confidence_score = 5;
  recommended_status = Contracts.RecommendedStatus.summarize;
  best_digest_placement = Contracts.DigestPlacement.top_paper;
  rationale = "Relevant.";
  criteria = [];
  evidence_used = [];
  potential_value_for_audience = "";
  caveats = [];
  next_step_recommendations = [];
}

abbrev pub assessment : String → Contracts.RelevanceAssessment
assessment id = record { external_id = id; details = details }

abbrev metadata : Contracts.SearchMetadata
metadata = record {
  queries = [];
  sources_used = [];
  deduplication_notes = [];
  coverage_notes = [];
  next_step_recommendations = [];
}

-- Three papers: inside the days 100 to 130, before them, and without a date.
abbrev pub discovery : Contracts.DiscoveryRelevanceOutput
discovery = record {
  search = record {
    metadata = metadata;
    papers = paper "p1" (some 110) ∷ paper "p2" (some 90) ∷ paper "p3" none ∷ [];
  };
  relevance = record {
    methodology = "";
    assessments = assessment "p1" ∷ assessment "p2" ∷ assessment "p3" ∷ [];
    recommendations = [];
    quality_warnings = [];
  };
}

abbrev pub response : Contracts.DiscoveryResponse
response = record {
  search = metadata;
  papers = record { paper = paper "p1" (some 110); assessment = details } ∷ [];
  methodology = "";
  recommendations = [];
  quality_warnings = [];
}

abbrev pub summary : String → Contracts.PaperSummary
summary id = record {
  external_id = id;
  summary_basis = Contracts.SummaryBasis.abstract_only;
  paper_type = Contracts.PaperType.empirical_study;
  concise_summary = "Summary.";
  why_this_paper_matters = [];
  methods = [];
  key_findings = "A finding." ∷ [];
  limitations = [];
  implications = [];
  recommendations = [];
  suggested_digest_bullet = "";
  follow_up_questions = [];
  related_search_terms = [];
  warnings = [];
  confidence_score = 5;
  summary_evidence_ids = "s1" ∷ [];
  finding_evidence = record { finding_index = 0; passage_ids = "s1" ∷ [] } ∷ [];
  source_attribution = none;
}

abbrev pub theme : List String → Contracts.TrendTheme
theme ids = record {
  title = "";
  summary = "";
  evidence_type = Contracts.EvidenceType.multi_paper_pattern;
  evidence_external_ids = ids;
  observed_pattern = "";
  interpretation = "";
  confidence = Contracts.Confidence.medium;
  relevance_to_audience = "";
  caveats = [];
}

abbrev pub trends : List String → Contracts.TrendAnalysis
trends ids = record {
  overview = "Overview.";
  overall_confidence = Contracts.Confidence.medium;
  analysis_limitations = [];
  themes = theme ids ∷ [];
  emerging_items = [];
  repeated_limitations_or_unresolved_problems = [];
  contradictions_or_competing_approaches = [];
  weak_signals = [];
  changes_vs_previous_digest = [];
  practical_implications = [];
  recommendations = [];
  recommended_next_searches = [];
}

abbrev pub briefing : List String → List String → Contracts.DigestBriefing
briefing top secondary = record {
  title = "Title";
  executive_summary = "Summary";
  highlights = [];
  main_signal = none;
  top_paper_external_ids = top;
  secondary_paper_external_ids = secondary;
  recommendations = [];
  recommended_next_searches = [];
  source_basis = Contracts.SourceBasis.unclear;
  transparency_note = "Note";
  quality_warnings = [];
  source_attributions = [];
  content_markdown = "Text";
}

abbrev pub output : Contracts.RadarOutput
output = record {
  search = discovery.search;
  relevance = discovery.relevance;
  paper_summaries = summary "p3" ∷ summary "p1" ∷ summary "p2" ∷ [];
  trend_analysis = trends ("p1" ∷ "p2" ∷ []);
  digest_briefing = briefing ("p1" ∷ []) ("p3" ∷ []);
}

-- A document with one excerpt, under a licence.
abbrev pub document : Sources.SourceDocument
document = record {
  external_id = "p1";
  title = "Title";
  authors = [];
  status = Sources.SourceStatus.available;
  basis = Sources.DocumentBasis.abstract_only;
  source_url = some "https://example.org/p1";
  request_url = none;
  retrieved_at = 0;
  source_version = none;
  content_sha256 = none;
  license_url = some "https://example.org/licence";
  permission_source = none;
  rights_notice = none;
  policy_version = "1";
  cached = Bool.false;
  passages = record { id = "s1"; section = "Abstract"; text = "Text." } ∷ [];
  notes = [];
}
