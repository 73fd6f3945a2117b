-- ===== src/Radar/Traced.antt =====
-- What the traceability checks of radar/evidence.py accept.
use scientific_research_rada.Prelude.{
  ap, ℕ, String, Bool, true, false, not, ◌&&◌, ◌||◌, List, [], ◌∷◌, ◌++◌, some, ltb, ◌==◌, str_eq,
  if◌then◌else◌, length, any, all, ◌≡◌, inl, inr, refl, arith, Bool-cases, ◌+◌, map, ◌∙◌,
}
use scientific_research_rada.Prelude.Texts.{is_empty, is_subset}
use scientific_research_rada.Radar.Contracts.{FindingEvidence, PaperSummary}
use scientific_research_rada.Radar.Sources.{SourceDocument, EvidenceStatement, SourcePassage}
use scientific_research_rada.Radar.Evidence.{
  from_keys, is_available, Links, has_link, read_links, statement_warnings, source_warnings,
  summary_statements, inspect_summary, is_usable, link_of, finding_values, statement_of,
  passage_ids_of,
}

is_empty-append : (xs ys : List String) → is_empty (xs ++ ys) ≡ (is_empty xs && is_empty ys)
unfolding is_empty
is_empty-append [] ys = refl
is_empty-append (x ∷ xs) ys = refl

is_empty-from_keys : (xs : List String) → is_empty (from_keys xs) ≡ is_empty xs
unfolding is_empty from_keys
is_empty-from_keys [] = refl
is_empty-from_keys (x ∷ xs) = refl

-- Every link names a finding, and no two name the same one.
unfoldable pub valid_links : ℕ → List FindingEvidence → Bool
valid_links findings [] = true
valid_links findings (l ∷ ls) =
    ltb l.finding_index findings
    && not (any (λ (m : FindingEvidence). m.finding_index == l.finding_index) ls)
    && valid_links findings ls

abbrev is_new : Links → FindingEvidence → Bool
is_new links l = not (has_link l.finding_index links)

all-is_new :
    (k : ℕ) (ids : List String) (links : Links) (ls : List FindingEvidence)
    → all (is_new ((k, ids) ∷ links)) ls
      ≡ (not (any (λ (m : FindingEvidence). m.finding_index == k) ls) && all (is_new links) ls)
unfolding has_link
all-is_new k ids links [] = refl
all-is_new k ids links (l ∷ ls) = ground (arith, all-is_new k ids links ls)

read_links_lem :
    (findings : ℕ) (ls : List FindingEvidence) (links : Links)
    → is_empty (read_links findings ls links).1 ≡ (valid_links findings ls && all (is_new links) ls)
unfolding is_empty read_links valid_links
read_links_lem findings [] links = refl
read_links_lem findings (l ∷ ls) links = ground (
  arith,
  all-is_new l.finding_index l.passage_ids links ls,
  read_links_lem findings ls ((l.finding_index, l.passage_ids) ∷ links),
)

-- A text is blank, or it has references and all of them are passages of the document.
abbrev pub is_traced : SourceDocument → String → List String → Bool
is_traced document text ids =
    str_eq text ""
    || (not (is_empty ids) && is_subset ids (map (λ (p : SourcePassage). p.id) document.passages))

-- The passages that a summary links to one of its findings.
unfoldable pub evidence_for : ℕ → List FindingEvidence → List String
evidence_for k [] = []
evidence_for k (l ∷ ls) =
    let rest = evidence_for k ls in
    if any (λ (m : FindingEvidence). m.finding_index == k) ls
    then rest
    else if l.finding_index == k
    then l.passage_ids
    else []

unfoldable pub findings_traced : SourceDocument → List FindingEvidence → ℕ → List String → Bool
findings_traced document ls k [] = true
findings_traced document ls k (finding ∷ rest) =
    is_traced document finding (evidence_for k ls) && findings_traced document ls (k + 1) rest

link_of-read_links :
    (k findings : ℕ) (ls : List FindingEvidence) (links : Links)
    → link_of k (read_links findings ls links).0 ≡ (
        if any (λ (m : FindingEvidence). m.finding_index == k) ls
        then evidence_for k ls
        else link_of k links)
unfolding link_of read_links evidence_for
link_of-read_links k findings [] links = refl
link_of-read_links k findings (l ∷ ls) links =
    ground (arith, link_of-read_links k findings ls ((l.finding_index, l.passage_ids) ∷ links))

evidence_for-none :
    (k : ℕ) (ls : List FindingEvidence)
    → any (λ (m : FindingEvidence). m.finding_index == k) ls ≡ false
    → evidence_for k ls ≡ []
unfolding evidence_for
evidence_for-none k [] h = refl
evidence_for-none k (l ∷ ls) h = ground arith

link_of-evidence :
    (k findings : ℕ) (ls : List FindingEvidence)
    → link_of k (read_links findings ls []).0 ≡ evidence_for k ls
unfolding link_of
link_of-evidence k findings ls =
    elim (Bool-cases (any (λ (m : FindingEvidence). m.finding_index == k) ls)) [
      | inl found ↦ link_of-read_links k findings ls [] ∙ rw found
      | inr missing ↦
          link_of-read_links k findings ls [] ∙ rw (missing, evidence_for-none k ls missing)
    ]

abbrev is_referred : EvidenceStatement → Bool
is_referred s = str_eq s.text "" || s.references_valid

all_findings-traced :
    (document : SourceDocument) (n : ℕ) (ls : List FindingEvidence) (k : ℕ) (fs : List String)
    → all is_referred
        (map (statement_of (passage_ids_of document)) (finding_values k fs (read_links n ls []).0))
      ≡ findings_traced document ls k fs
unfolding finding_values findings_traced
all_findings-traced document n ls k [] = refl
all_findings-traced document n ls k (f ∷ fs) = rw (link_of-evidence k n ls) (
    ap (λ b. is_traced document f (evidence_for k ls) && b)
      (all_findings-traced document n ls (k + 1) fs))

statement_warnings_lem :
    (ss : List EvidenceStatement) → is_empty (statement_warnings true ss) ≡ all is_referred ss
unfolding is_empty statement_warnings
statement_warnings_lem [] = refl
statement_warnings_lem (s ∷ ss) = ground (arith, statement_warnings_lem ss)

all_new : (ls : List FindingEvidence) → all (is_new []) ls ≡ true
unfolding has_link
all_new [] = refl
all_new (l ∷ ls) = all_new ls

source_warnings_lem :
    (document : SourceDocument) → is_empty (source_warnings document) ≡ is_usable document
unfolding is_usable is_empty
source_warnings_lem document = ground arith

statements_traced :
    (document : SourceDocument) (s : PaperSummary)
    → all is_referred
        (summary_statements document s (read_links (length s.key_findings) s.finding_evidence []).0)
      ≡ (is_traced document s.concise_summary s.summary_evidence_ids
          && findings_traced document s.finding_evidence 0 s.key_findings)
unfolding summary_statements
statements_traced document s =
    rw (all_findings-traced document (length s.key_findings) s.finding_evidence 0 s.key_findings)

-- The inspection of a summary has no warning exactly when the document is available and has
-- passages, every link names a finding and no two the same, and the summary's text and each finding,
-- with the passages linked to it, is blank or refers to at least one passage and only to passages of
-- this document.
pub inspect_summary_lem :
    (document : SourceDocument) (s : PaperSummary)
    → is_empty (inspect_summary document (some s)).warnings ≡ (
        is_available document.status
        && not (is_empty (map (λ (p : SourcePassage). p.id) document.passages))
        && valid_links (length s.key_findings) s.finding_evidence
        && is_traced document s.concise_summary s.summary_evidence_ids
        && findings_traced document s.finding_evidence 0 s.key_findings)
unfolding inspect_summary is_usable
inspect_summary_lem document s =
    let (links, index_warnings) = read_links (length s.key_findings) s.finding_evidence [] in
    let statements = summary_statements document s links in
    let others = statement_warnings (is_available document.status) statements in
    ground (
      arith,
      is_empty-from_keys (source_warnings document ++ index_warnings ++ others),
      is_empty-append (source_warnings document) (index_warnings ++ others),
      is_empty-append index_warnings others,
      source_warnings_lem document,
      read_links_lem (length s.key_findings) s.finding_evidence [],
      all_new s.finding_evidence,
      statement_warnings_lem statements,
      statements_traced document s,
    )
