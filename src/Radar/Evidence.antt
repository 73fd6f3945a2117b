-- ===== src/Radar/Evidence.antt =====
-- radar/evidence.py: whether the statements of a summary refer to passages of its source, and what
-- a summary may claim without a source.
use scientific_research_rada.Prelude.{
  ℕ, ◌+◌, String, Bool, true, false, not, ◌&&◌, ◌||◌, List, [], ◌∷◌, ◌++◌, map, Option, none, some,
  leb, ◌==◌, str_eq, if◌then◌else◌, length, keep,
}
use scientific_research_rada.Prelude.Outcome.{Outcome, ok, ◌>>=◌, or_raise}
use scientific_research_rada.Prelude.Texts.{is_subset, is_empty}
use scientific_research_rada.Prelude.Keyed.{index_by}
use scientific_research_rada.Radar.Contracts.{
  FindingEvidence, SourceAttribution, PaperSummary, SummaryBasis, PaperType,
}
use scientific_research_rada.Radar.Sources.{
  SourcePassage, SourceStatus, DocumentBasis, SourceDocument, EvidenceStatement, PaperContentRead,
}

-- `list(dict.fromkeys(xs))`: the first of equal texts stays.
unfoldable pub from_keys : List String → List String
from_keys [] = []
from_keys (x ∷ xs) = x ∷ keep (λ y. not (str_eq x y)) (from_keys xs)

abbrev pub is_available : SourceStatus → Bool
is_available SourceStatus.available = true
is_available _ = false

abbrev pub no_source_text : String
no_source_text = "No permission-checked source text was available."

abbrev pub bad_index : String
bad_index = "A finding reference has an invalid or duplicate index."

abbrev pub bad_reference : String
bad_reference = "A summary statement has missing or invalid evidence references."

-- The dictionary `links`, newest entry first.
abbrev pub Links : Type 0
Links = List (ℕ × List String)

-- `links.get(index, [])`
unfoldable pub link_of : ℕ → Links → List String
link_of index [] = []
link_of index (l ∷ links) = let rest = link_of index links in if l.0 == index then l.1 else rest

-- `index in links`
unfoldable pub has_link : ℕ → Links → Bool
has_link index [] = false
has_link index (l ∷ links) = (l.0 == index) || has_link index links

-- The loop over `finding_evidence`: the dictionary and the warnings.
unfoldable pub read_links : ℕ → List FindingEvidence → Links → Links × List String
read_links findings [] links = (links, [])
read_links findings (link ∷ rest) links =
    let (all, warnings) =
      read_links findings rest ((link.finding_index, link.passage_ids) ∷ links) in
    (
      all,
      if leb findings link.finding_index || has_link link.finding_index links
          then bad_index ∷ warnings
          else warnings,
    )

-- `enumerate(summary.key_findings)` with the link of each finding.
unfoldable pub finding_values : ℕ → List String → Links → List (String × List String)
finding_values index [] links = []
finding_values index (finding ∷ rest) links =
    (finding, link_of index links) ∷ finding_values (index + 1) rest links

abbrev pub statement_of : List String → String × List String → EvidenceStatement
statement_of allowed value = record {
  text = value.0;
  passage_ids = value.1;
  references_valid = not (is_empty value.1) && is_subset value.1 allowed;
}

-- `if text and not valid and document.status == "available"`
unfoldable pub statement_warnings : Bool → List EvidenceStatement → List String
statement_warnings available [] = []
statement_warnings available (s ∷ rest) =
    let warnings = statement_warnings available rest in
    if not (str_eq s.text "") && not s.references_valid && available
    then bad_reference ∷ warnings
    else warnings

abbrev pub passage_ids_of : SourceDocument → List String
passage_ids_of document = map (λ (p : SourcePassage). p.id) document.passages

abbrev pub source_warnings : SourceDocument → List String
source_warnings document =
    if not (is_available document.status) || is_empty (passage_ids_of document)
    then no_source_text ∷ []
    else []

-- `values`: the summary's own text, then its findings.
unfoldable pub summary_statements : SourceDocument → PaperSummary → Links → List EvidenceStatement
summary_statements document summary links = map (statement_of (passage_ids_of document)) (
    (summary.concise_summary, summary.summary_evidence_ids)
    ∷ finding_values 0 summary.key_findings links)

unfoldable pub inspect_summary : SourceDocument → Option PaperSummary → PaperContentRead
inspect_summary document none = record {
  document = document;
  statements = [];
  warnings = from_keys (source_warnings document);
}
inspect_summary document (some summary) =
    let (links, index_warnings) =
      read_links (length summary.key_findings) summary.finding_evidence [] in
    let statements = summary_statements document summary links in
    record {
      document = document;
      statements = statements;
      warnings = from_keys (
          source_warnings document
          ++ index_warnings
          ++ statement_warnings (is_available document.status) statements);
    }

-- `KeyError` of `documents[...]`, and the `assert`.
pub data EvidenceError : Type 0 where
  missing_document missing_source : EvidenceError

abbrev pub Documents : Type 0
Documents = List (String × SourceDocument)

unfoldable pub document_of : String → Documents → Option SourceDocument
document_of id [] = none
document_of id (d ∷ ds) = let rest = document_of id ds in if str_eq d.0 id then some d.1 else rest

-- `document.status != "available" or not document.passages`, negated.
unfoldable pub is_usable : SourceDocument → Bool
is_usable document = is_available document.status && not (is_empty (passage_ids_of document))

abbrev pub no_source_note : String
no_source_note =
    "This paper was discovered, but reusable source content could not be confirmed. Scientific findings were not summarized."

unfoldable pub without_source : PaperSummary → PaperSummary
without_source s = record s {
  source_attribution = none;
  summary_basis = SummaryBasis.metadata_only;
  paper_type = PaperType.unclear;
  concise_summary = no_source_note;
  suggested_digest_bullet = no_source_note;
  why_this_paper_matters = [];
  methods = [];
  key_findings = [];
  implications = [];
  recommendations = [];
  follow_up_questions = [];
  related_search_terms = [];
  summary_evidence_ids = [];
  finding_evidence = [];
  limitations = "Only bibliographic metadata is available; consult the original source." ∷ [];
  warnings = "No approved source content was supplied; detailed claims were omitted." ∷ [];
  confidence_score = 1;
}

abbrev pub basis_of : DocumentBasis → SummaryBasis
basis_of DocumentBasis.abstract_only = SummaryBasis.abstract_only
basis_of DocumentBasis.extracted_sections = SummaryBasis.extracted_sections
basis_of DocumentBasis.metadata_only = SummaryBasis.metadata_only

abbrev pub basis_note : DocumentBasis → String
basis_note DocumentBasis.abstract_only =
    "Based only on the source abstract; full text was not reviewed."
basis_note _ = "Based on selected source sections; this is not a complete full-text review."

abbrev pub text_or_empty : Option String → String
text_or_empty none = ""
text_or_empty (some t) = t

unfoldable pub attribution_of : SourceDocument → String → String → SourceAttribution
attribution_of document source_url license_url = record {
  title = document.title;
  authors = document.authors;
  source_url = source_url;
  license_url = license_url;
  rights_notice = text_or_empty document.rights_notice;
  changes =
      "Original AI summary based on selected source excerpts; source formatting normalized and text may be shortened. Source excerpts remain under the linked licence. No author endorsement is implied.";
}

-- A text that `assert` accepts: present and not empty.
unfoldable pub truthy : Option String → Option String
truthy none = none
truthy (some t) = if str_eq t "" then none else some t

-- The review reads the summary after its basis and attribution are set.
unfoldable pub with_source : SourceDocument → PaperSummary → Outcome EvidenceError PaperSummary
with_source document s = do
  source_url ← or_raise (truthy document.source_url) EvidenceError.missing_source
  license_url ← or_raise (truthy document.license_url) EvidenceError.missing_source
  let s' = record s {
    summary_basis = basis_of document.basis;
    source_attribution = some (attribution_of document source_url license_url);
  }
  let review = inspect_summary document (some s')
  ok (record s' {
    warnings = from_keys (s.warnings ++ basis_note document.basis ∷ review.warnings);
  })

unfoldable pub constrain_summary : Documents → PaperSummary → Outcome EvidenceError PaperSummary
constrain_summary documents s = do
  document ← or_raise (document_of s.external_id documents) EvidenceError.missing_document
  if is_usable document then with_source document s else ok (without_source s)

unfoldable pub constrain_summaries :
    Documents → List PaperSummary → Outcome EvidenceError (List PaperSummary)
constrain_summaries documents [] = ok []
constrain_summaries documents (s ∷ rest) = do
  s' ← constrain_summary documents s
  rest' ← constrain_summaries documents rest
  ok (s' ∷ rest')

-- The papers whose content needs a review.
unfoldable pub affected : Documents → List PaperSummary → List String
affected [] summaries = []
affected ((key, document) ∷ rest) summaries =
    let others = affected rest summaries in
    let summary = index_by (λ (s : PaperSummary). s.external_id) key summaries in
    if is_empty (inspect_summary document summary).warnings then others else key ∷ others
