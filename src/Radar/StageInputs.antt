-- ===== src/Radar/StageInputs.antt =====
-- radar/stage_inputs.py: what each stage's prompt is given.
use scientific_research_rada.Prelude.{
  ℕ, String, Bool, true, false, List, [], ◌∷◌, Option, none, some, if◌then◌else◌,
}
use scientific_research_rada.Prelude.Keyed.{index_by}
use scientific_research_rada.Prelude.Outcome.{Outcome, ok, or_raise, ◌>>=◌}
use scientific_research_rada.Radar.Contracts.{
  SearchPaper, AccessStatus, RelevanceAssessment, RecommendedStatus, summarize, mention_briefly,
  DiscoveryRelevanceOutput, PaperSummary, PaperSummariesOutput, SummaryBasis,
}
use scientific_research_rada.Radar.Validation.{StageError, key_error}
use scientific_research_rada.Radar.Period.{assessment_id}
use scientific_research_rada.Radar.Sources.{SourceDocument}

abbrev pub summary_id : PaperSummary → String
summary_id s = s.external_id

-- `recommended_status in {"summarize", "mention_briefly"}`
abbrev pub is_selected : RecommendedStatus → Bool
is_selected summarize = true
is_selected mention_briefly = true
is_selected _ = false

-- A paper's fields and its assessment's, as one JSON object.
pub record SelectedPaper : Type 0 where
  pub paper : SearchPaper
  pub relevance : RelevanceAssessment

unfoldable pub select_papers :
    List RelevanceAssessment → List SearchPaper → Outcome StageError (List SelectedPaper)
unfolding index_by
select_papers assessed [] = ok []
select_papers assessed (p ∷ ps) = do
  a ← or_raise (index_by assessment_id p.external_id assessed) (key_error p.external_id)
  rest ← select_papers assessed ps
  if is_selected a.details.recommended_status
      then ok (record { paper = p; relevance = a } ∷ rest)
      else ok rest

-- `summary_input(discovery)`, with no documents.
unfoldable pub summary_input : DiscoveryRelevanceOutput → Outcome StageError (List SelectedPaper)
unfolding select_papers
summary_input discovery = select_papers discovery.relevance.assessments discovery.search.papers

pub record EvidencePaper : Type 0 where
  pub external_id : String
  pub title : String
  pub authors : List String
  pub url : String
  pub published_date : Option ℕ
  pub source_evidence : SourceDocument

-- `documents[...]`: the dictionary is a function.
unfoldable pub with_evidence :
    (String → Option SourceDocument) → List SelectedPaper → Outcome StageError (List EvidencePaper)
with_evidence documents [] = ok []
with_evidence documents (s ∷ rest) = do
  document ← or_raise (documents s.paper.external_id) (key_error s.paper.external_id)
  others ← with_evidence documents rest
  ok (
      record {
        external_id = s.paper.external_id;
        title = s.paper.title;
        authors = s.paper.authors;
        url = s.paper.url;
        published_date = s.paper.published_date;
        source_evidence = document;
      }
      ∷ others)

-- `summary_input(discovery, documents)`
unfoldable pub summary_evidence_input :
    DiscoveryRelevanceOutput
    → (String → Option SourceDocument)
    → Outcome StageError (List EvidencePaper)
unfolding summary_input with_evidence
summary_evidence_input discovery documents = do
  papers ← summary_input discovery
  with_evidence documents papers

pub record TrendPaper : Type 0 where
  pub external_id : String
  pub title : String
  pub authors : List String
  pub published_date : Option ℕ
  pub url : String
  pub source_name : String
  pub access_status : AccessStatus
  pub relevance_score : ℕ
  pub recommended_status : RecommendedStatus
  pub summary : PaperSummary

abbrev pub trend_paper : SearchPaper → RelevanceAssessment → PaperSummary → TrendPaper
trend_paper paper a s = record {
  external_id = paper.external_id;
  title = paper.title;
  authors = paper.authors;
  published_date = paper.published_date;
  url = paper.url;
  source_name = paper.source_name;
  access_status = paper.access_status;
  relevance_score = a.details.score;
  recommended_status = a.details.recommended_status;
  summary = s;
}

pub record BriefingPaper : Type 0 where
  pub external_id : String
  pub title : String
  pub authors : List String
  pub url : String
  pub relevance_score : ℕ
  pub recommended_status : RecommendedStatus
  pub concise_summary : String
  pub key_findings : List String
  pub limitations : List String
  pub suggested_digest_bullet : String
  pub confidence_score : ℕ
  pub summary_basis : SummaryBasis
  pub warnings : List String

abbrev pub briefing_paper : SearchPaper → RelevanceAssessment → PaperSummary → BriefingPaper
briefing_paper paper a s = record {
  external_id = paper.external_id;
  title = paper.title;
  authors = paper.authors;
  url = paper.url;
  relevance_score = a.details.score;
  recommended_status = a.details.recommended_status;
  concise_summary = s.concise_summary;
  key_findings = s.key_findings;
  limitations = s.limitations;
  suggested_digest_bullet = s.suggested_digest_bullet;
  confidence_score = s.confidence_score;
  summary_basis = s.summary_basis;
  warnings = s.warnings;
}

-- The comprehension that both functions share: the papers with a summary, in discovery order.
module _ {A : Type 0} (build : SearchPaper → RelevanceAssessment → PaperSummary → A)
    (assessed : List RelevanceAssessment) (summaries : List PaperSummary) where
  unfoldable pub summarized_paper : SearchPaper → PaperSummary → Outcome StageError A
  unfolding index_by
  summarized_paper p s = do
    a ← or_raise (index_by assessment_id p.external_id assessed) (key_error p.external_id)
    ok (build p a s)

  unfoldable pub summarized_papers : List SearchPaper → Outcome StageError (List A)
  unfolding summarized_paper index_by
  summarized_papers [] = ok []
  summarized_papers (p ∷ ps) =
      let rest = summarized_papers ps in
      elim (index_by summary_id p.external_id summaries) [
        | none ↦ rest
        | some s ↦ do item ← summarized_paper p s; items ← rest; ok (item ∷ items)
      ]

unfoldable pub trend_input :
    DiscoveryRelevanceOutput → PaperSummariesOutput → Outcome StageError (List TrendPaper)
unfolding summarized_papers
trend_input discovery summaries =
    summarized_papers trend_paper discovery.relevance.assessments summaries.paper_summaries
      discovery.search.papers

unfoldable pub briefing_input :
    DiscoveryRelevanceOutput → PaperSummariesOutput → Outcome StageError (List BriefingPaper)
unfolding summarized_papers
briefing_input discovery summaries =
    summarized_papers briefing_paper discovery.relevance.assessments summaries.paper_summaries
      discovery.search.papers
