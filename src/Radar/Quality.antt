-- ===== src/Radar/Quality.antt =====
-- radar/quality.py: the checks of a saved output. A finding keeps its code, severity and papers; its
-- message is left out. A set of ids is a list of which only the members are read.
use scientific_research_rada.Prelude.{
  ℕ, String, Bool, true, false, not, ◌&&◌, ◌||◌, List, [], ◌∷◌, ◌++◌, map, Option, none, some, ltb,
  str_eq, if◌then◌else◌, length, keep, any,
}
use scientific_research_rada.Prelude.Outcome.{Outcome, ok, raised}
use scientific_research_rada.Prelude.Keyed.{is_some}
use scientific_research_rada.Prelude.Texts.{contains, difference, same_set, dedup, is_empty}
use scientific_research_rada.Radar.Contracts.{
  SearchPaper, RelevanceAssessment, DiscoveryRelevanceOutput, PaperSummary, PaperSummariesOutput,
  SummaryBasis, TrendTheme, EvidenceType, TrendAnalysisOutput, BriefingMainSignal,
  DigestBriefingOutput,
}
use scientific_research_rada.Radar.Validation.References.{trend_references, briefing_references}
use scientific_research_rada.Radar.Period.{is_in_period}
use scientific_research_rada.Radar.StageInputs.{is_selected}

pub data QualityMode : Type 0 where
  off observe enforce : QualityMode

pub data Severity : Type 0 where
  warning hold : Severity

pub data QualityStatus : Type 0 where
  not_evaluated pass warning hold : QualityStatus

pub data Code : Type 0 where
  summary_coverage unknown_references unselected_references missing_content empty_summaries : Code
  missing_evidence_references single_paper_pattern reporting_period unknown_publication_date : Code
  duplicate_identity possible_duplicates limited_source_access inconsistent_source_basis : Code
  sparse_results : Code

pub record QualityFinding : Type 0 where
  pub code : Code
  pub severity : Severity
  pub paper_ids : List String

pub record QualityDecision : Type 0 where
  pub status : QualityStatus
  pub findings : List QualityFinding

pub record QualityConfig : Type 0 where
  pub mode : QualityMode
  pub check_reporting_dates : Bool
  pub check_duplicates : Bool
  pub check_source_access : Bool
  pub sparse_paper_threshold : ℕ

-- The four parsed stages and the reporting interval of the snapshot.
pub record SavedOutput : Type 0 where
  pub discovery : DiscoveryRelevanceOutput
  pub summaries : PaperSummariesOutput
  pub trends : TrendAnalysisOutput
  pub briefing : DigestBriefingOutput
  pub reporting_from : ℕ
  pub reporting_to : ℕ

-- What `str`, `re` and `urllib.parse` compute.
pub record TextTools : Type 0 where
  pub strip : String → String
  pub without_doi_prefix : String → String
  pub lower : String → String
  pub canonical_url : String → String
  pub is_doi_host : String → Bool
  pub title_words : String → String

-- `add(...)` under a condition.
abbrev pub add_if : Bool → Code → Severity → List String → List QualityFinding
add_if false code severity ids = []
add_if true code severity ids = record { code = code; severity = severity; paper_ids = ids } ∷ []

abbrev pub paper_key : SearchPaper → String
paper_key p = p.external_id

abbrev pub paper_keys : SavedOutput → List String
paper_keys o = map paper_key o.discovery.search.papers

unfoldable pub selected_ids : SavedOutput → List String
selected_ids o =
    map (λ (a : RelevanceAssessment). a.external_id)
      (keep (λ (a : RelevanceAssessment). is_selected a.details.recommended_status)
        o.discovery.relevance.assessments)

abbrev pub summary_keys : List PaperSummary → List String
summary_keys ss = map (λ (s : PaperSummary). s.external_id) ss

unfoldable pub cited_ids : SavedOutput → List String
cited_ids o = trend_references o.trends ++ briefing_references o.briefing

-- Lines 48 to 53.
unfoldable pub reference_findings : SavedOutput → List QualityFinding
reference_findings o =
    let selected = selected_ids o in
    let summarized = summary_keys o.summaries.paper_summaries in
    let references = cited_ids o in
    add_if (not (same_set selected summarized)) Code.summary_coverage Severity.hold
      (difference selected summarized ++ difference summarized selected)
    ++ add_if (not (is_empty (difference references (paper_keys o)))) Code.unknown_references
        Severity.hold (difference references (paper_keys o))
    ++ add_if (not (is_empty (difference references selected))) Code.unselected_references
        Severity.hold (difference references selected)

abbrev pub lacks_support : Option BriefingMainSignal → Bool
lacks_support none = false
lacks_support (some signal) = is_empty signal.supporting_external_ids

abbrev pub is_pattern : EvidenceType → Bool
is_pattern EvidenceType.multi_paper_pattern = true
is_pattern _ = false

-- A theme that calls one paper a pattern.
abbrev pub is_overstated : TrendTheme → Bool
is_overstated theme =
    is_pattern theme.evidence_type && ltb (length (dedup theme.evidence_external_ids)) 2

unfoldable pub overstated_ids : List TrendTheme → List String
overstated_ids [] = []
overstated_ids (theme ∷ themes) =
    let rest = overstated_ids themes in
    if is_overstated theme then theme.evidence_external_ids ++ rest else rest

abbrev pub is_limited : SummaryBasis → Bool
is_limited SummaryBasis.abstract_only = true
is_limited SummaryBasis.metadata_only = true
is_limited SummaryBasis.unclear = true
is_limited _ = false

abbrev pub is_full_text : SummaryBasis → Bool
is_full_text SummaryBasis.open_full_text = true
is_full_text _ = false

-- A paper of this id without full text.
abbrev pub lacks_full_text : List SearchPaper → String → Bool
lacks_full_text papers id =
    any (λ (p : SearchPaper). str_eq p.external_id id && not p.full_text_available) papers

unfoldable pub included_papers : SavedOutput → List SearchPaper
included_papers o =
    keep (λ (p : SearchPaper). contains (selected_ids o ++ cited_ids o) p.external_id)
      o.discovery.search.papers

-- Lines 81 to 89.
unfoldable pub date_findings : SavedOutput → List QualityFinding
date_findings o =
    let included = included_papers o in
    let outside = map paper_key (
      keep
        (λ (p : SearchPaper). not (is_in_period o.reporting_from o.reporting_to p.published_date))
        included) in
    let unknown =
      map paper_key (keep (λ (p : SearchPaper). not (is_some p.published_date)) included) in
    add_if (not (is_empty outside)) Code.reporting_period Severity.hold outside
    ++ add_if (not (is_empty unknown)) Code.unknown_publication_date Severity.warning unknown

-- Lines 113 to 121.
unfoldable pub access_findings : SavedOutput → List QualityFinding
access_findings o =
    let summaries = o.summaries.paper_summaries in
    let limited =
      summary_keys (keep (λ (s : PaperSummary). is_limited s.summary_basis) summaries) in
    let inconsistent = summary_keys (
      keep
        (λ (s : PaperSummary).
          is_full_text s.summary_basis && lacks_full_text o.discovery.search.papers s.external_id)
        summaries) in
    add_if (not (is_empty limited)) Code.limited_source_access Severity.warning limited
    ++ add_if (not (is_empty inconsistent)) Code.inconsistent_source_basis Severity.hold
        inconsistent

abbrev pub refers_to : List String → Option String → Bool
refers_to ids none = false
refers_to ids (some id) = contains ids id

abbrev pub when : Bool → List QualityFinding → List QualityFinding
when true findings = findings
when false findings = []

abbrev pub is_hold : QualityFinding → Bool
is_hold f = elim (f.severity) [ Severity.hold ↦ true | Severity.warning ↦ false ]

abbrev pub status_of : List QualityFinding → QualityStatus
status_of [] = QualityStatus.pass
status_of (f ∷ fs) = if any is_hold (f ∷ fs) then QualityStatus.hold else QualityStatus.warning

abbrev pub is_off : QualityMode → Bool
is_off QualityMode.off = true
is_off _ = false

-- `raise ValueError("Invalid reporting interval")`
pub data QualityError : Type 0 where
  invalid_interval : QualityError

abbrev pub text_of : Option String → String
text_of none = ""
text_of (some t) = t

module _ (tools : TextTools) where
  abbrev pub is_blank : String → Bool
  is_blank t = str_eq (tools.strip t) ""

  -- Lines 56 to 74.
  unfoldable pub content_findings : SavedOutput → List QualityFinding
  content_findings o =
      let briefing = o.briefing.digest_briefing in
      let trend = o.trends.trend_analysis in
      let empty_summaries =
        summary_keys
          (keep (λ (s : PaperSummary). is_blank s.concise_summary) o.summaries.paper_summaries) in
      let overstated = overstated_ids trend.themes in
      add_if
        (is_blank briefing.title
          || is_blank briefing.executive_summary
          || is_blank briefing.content_markdown
          || is_blank briefing.transparency_note
          || is_blank trend.overview)
        Code.missing_content Severity.hold []
      ++ add_if (not (is_empty empty_summaries)) Code.empty_summaries Severity.hold empty_summaries
      ++ add_if
          (any (λ (t : TrendTheme). is_empty t.evidence_external_ids) trend.themes
            || lacks_support briefing.main_signal)
          Code.missing_evidence_references Severity.hold []
      ++ add_if (not (is_empty overstated)) Code.single_paper_pattern Severity.hold overstated

  unfoldable pub canonical_doi : String → String
  canonical_doi value = tools.lower (tools.without_doi_prefix (tools.strip value))

  -- The DOI of a paper, read from its URL where it has none and the host is DOI's.
  unfoldable pub doi_of : SearchPaper → String
  doi_of p =
      let doi = canonical_doi (text_of p.doi) in
      if str_eq doi "" && tools.is_doi_host p.url then canonical_doi p.url else doi

  unfoldable pub same_identity : SearchPaper → SearchPaper → Bool
  same_identity p q =
      (not (str_eq (doi_of p) "") && str_eq (doi_of p) (doi_of q))
      || str_eq (tools.canonical_url p.url) (tools.canonical_url q.url)

  unfoldable pub same_title : SearchPaper → SearchPaper → Bool
  same_title p q =
      not (str_eq (tools.title_words p.title) "")
      && str_eq (tools.title_words p.title) (tools.title_words q.title)

  -- The papers that share a key with another paper: the sets of two or more.
  unfoldable pub shared_ids :
      (SearchPaper → SearchPaper → Bool) → List SearchPaper → List SearchPaper → List String
  shared_ids same included [] = []
  shared_ids same included (p ∷ ps) =
      let rest = shared_ids same included ps in
      if any (λ (q : SearchPaper). not (str_eq q.external_id p.external_id) && same p q) included
      then p.external_id ∷ rest
      else rest

  -- Lines 92 to 110.
  unfoldable pub duplicate_findings : SavedOutput → List QualityFinding
  duplicate_findings o =
      let included = included_papers o in
      let duplicate_ids = shared_ids same_identity included included in
      let declared = map paper_key (
        keep (λ (p : SearchPaper). refers_to (map paper_key included) p.possible_duplicate_of)
          included) in
      let possible =
        difference (shared_ids same_title included included) duplicate_ids ++ declared in
      add_if (not (is_empty duplicate_ids)) Code.duplicate_identity Severity.hold duplicate_ids
      ++ add_if (not (is_empty possible)) Code.possible_duplicates Severity.warning possible

  unfoldable pub all_findings : QualityConfig → SavedOutput → List QualityFinding
  all_findings config o =
      reference_findings o
      ++ content_findings o
      ++ when config.check_reporting_dates (date_findings o)
      ++ when config.check_duplicates (duplicate_findings o)
      ++ when config.check_source_access (access_findings o)
      ++ add_if (ltb (length (dedup (selected_ids o))) config.sparse_paper_threshold)
          Code.sparse_results Severity.warning []

  unfoldable pub evaluate_quality :
      QualityConfig → SavedOutput → Outcome QualityError QualityDecision
  evaluate_quality config o =
      let findings = all_findings config o in
      let sorted = keep is_hold findings ++ keep (λ f. not (is_hold f)) findings in
      if is_off config.mode
      then ok (record { status = QualityStatus.not_evaluated; findings = [] })
      else if config.check_reporting_dates && ltb o.reporting_to o.reporting_from
      then raised QualityError.invalid_interval
      else ok (record { status = status_of sorted; findings = sorted })
