-- ===== src/Radar/EvidenceTests.antt =====
-- The traceability checks at one document and one summary.
use scientific_research_rada.Prelude.{[], ◌∷◌, some, ◌≡◌, refl, ◌&&◌, All, length, not, map}
use scientific_research_rada.Prelude.Outcome.{ok}
use scientific_research_rada.Prelude.Texts.{contains, is_subset, is_empty}
use scientific_research_rada.Radar.Contracts.{PaperSummary, SummaryBasis}
use scientific_research_rada.Radar.Sources.{SourcePassage}
use scientific_research_rada.Radar.Evidence.{
  is_available, Documents, from_keys, link_of, has_link, read_links, finding_values,
  statement_warnings, summary_statements, inspect_summary, document_of, is_usable, attribution_of,
  truthy, with_source, constrain_summary, constrain_summaries,
}
use scientific_research_rada.Radar.Traced.{
  valid_links, is_traced, findings_traced, inspect_summary_lem,
}
use scientific_research_rada.Radar.Constrained.{IsConstrained, constrain_summaries_lem}
use scientific_research_rada.Radar.Samples.{document, summary}

abbrev documents : Documents
documents = ("p1", document) ∷ []

abbrev constrained : PaperSummary
constrained = record (summary "p1") {
  summary_basis = SummaryBasis.abstract_only;
  source_attribution =
      some (attribution_of document "https://example.org/p1" "https://example.org/licence");
  warnings = "Based only on the source abstract; full text was not reviewed." ∷ [];
}

is_constrained : constrain_summaries documents (summary "p1" ∷ []) ≡ ok (constrained ∷ [])
unfolding constrain_summaries constrain_summary with_source document_of is_usable is_empty truthy
    inspect_summary summary_statements read_links has_link finding_values link_of statement_warnings
    from_keys is_subset contains
is_constrained = refl

inspect_summary_lem_example : is_empty (inspect_summary document (some (summary "p1"))).warnings ≡ (
    is_available document.status
    && not (is_empty (map (λ (p : SourcePassage). p.id) document.passages))
    && valid_links (length (summary "p1").key_findings) (summary "p1").finding_evidence
    && is_traced document (summary "p1").concise_summary (summary "p1").summary_evidence_ids
    && findings_traced document (summary "p1").finding_evidence 0 (summary "p1").key_findings)
inspect_summary_lem_example = inspect_summary_lem document (summary "p1")

constrain_summaries_lem_example : All (IsConstrained documents) (constrained ∷ [])
constrain_summaries_lem_example =
    constrain_summaries_lem documents (summary "p1" ∷ []) is_constrained
