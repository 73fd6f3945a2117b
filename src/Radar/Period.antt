-- ===== src/Radar/Period.antt =====
-- radar/validation.py: `exclude_out_of_period_papers`. The papers are the loop's items; the
-- assessments are shared objects, changed through the dictionary `assessments`.
pub mod Excluded
use Prim.Native.String.{◌++◌ as append}
use scientific_research_rada.Prelude.{
  ℕ, ltb, leb, String, Bool, true, false, List, [], ◌∷◌, ◌++◌, Option, none, some, not, ◌&&◌,
  if◌then◌else◌,
}
use scientific_research_rada.Prelude.Texts.{contains}
use scientific_research_rada.Prelude.Keyed.{index_by, update_by, is_some}
use scientific_research_rada.Prelude.Outcome.{Outcome, ok, raised, raise_if, ◌>>=◌, ◌>>◌}
use scientific_research_rada.Radar.Contracts.{
  SearchPaper, RelevanceDetails, RelevanceAssessment, reject, reject_placement,
  DiscoveryRelevanceOutput,
}
use scientific_research_rada.Radar.Validation.{
  RadarOutputValidationError, invalid_interval, StageError, rejected, key_error,
}

abbrev pub assessment_id : RelevanceAssessment → String
assessment_id a = a.external_id

-- The test of the loop's `continue`, for the interval from `start` to `end`, both included.
unfoldable pub is_in_period : ℕ → ℕ → Option ℕ → Bool
is_in_period start end none = true
is_in_period start end (some d) = leb start d && leb d end

-- `date_text` is `str(date)`.
module _ (date_text : ℕ → String) where
  unfoldable pub exclusion_reason : ℕ → ℕ → ℕ → String
  exclusion_reason start end published =
      append "Excluded by reporting-period rule: publication date " (
        append (date_text published) (
          append " is outside "
            (append (date_text start) (append " to " (append (date_text end) " (inclusive).")))))

-- The assignments to one assessment.
unfoldable pub mark_excluded : String → RelevanceDetails → RelevanceDetails
unfolding contains
mark_excluded reason details =
    let out = record details {
      recommended_status = reject;
      best_digest_placement = reject_placement;
    } in
    if contains details.caveats reason then out else record out {
      caveats = details.caveats ++ reason ∷ [];
      rationale = append reason (append " Original discovery assessment: " details.rationale);
    }

abbrev pub exclude_assessment : String → RelevanceAssessment → RelevanceAssessment
exclude_assessment reason a = record a { details = mark_excluded reason a.details }

unfoldable pub warn : String → SearchPaper → SearchPaper
unfolding contains
warn reason paper =
    if contains paper.warnings reason
    then paper
    else record paper { warnings = paper.warnings ++ reason ∷ [] }

abbrev pub Loop : Type 0
Loop = List SearchPaper × List RelevanceAssessment

module _ (date_text : ℕ → String) (start end : ℕ) where
  -- One round for a paper that was published on `published`, outside the interval.
  unfoldable pub exclude_one :
      ℕ
      → SearchPaper
      → List RelevanceAssessment
      → Outcome StageError (SearchPaper × List RelevanceAssessment)
  unfolding index_by update_by exclusion_reason mark_excluded warn
  exclude_one published paper assessed =
      let reason = exclusion_reason date_text start end published in
      if is_some (index_by assessment_id paper.external_id assessed)
      then ok (
        warn reason paper,
        update_by assessment_id paper.external_id (exclude_assessment reason) assessed,
      )
      else raised (key_error paper.external_id)

  -- One round of the loop, by the paper's publication date.
  unfoldable pub exclude_dated :
      Option ℕ
      → SearchPaper
      → List RelevanceAssessment
      → Outcome StageError (SearchPaper × List RelevanceAssessment)
  unfolding is_in_period exclude_one
  exclude_dated none paper assessed = ok (paper, assessed)
  exclude_dated (some d) paper assessed =
      if is_in_period start end (some d) then ok (paper, assessed) else exclude_one d paper assessed

  unfoldable pub exclude_paper :
      SearchPaper
      → List RelevanceAssessment
      → Outcome StageError (SearchPaper × List RelevanceAssessment)
  unfolding exclude_dated
  exclude_paper paper = exclude_dated paper.published_date paper

  unfoldable pub exclude_papers :
      List SearchPaper → List RelevanceAssessment → Outcome StageError Loop
  unfolding exclude_paper
  exclude_papers [] assessed = ok ([], assessed)
  exclude_papers (p ∷ ps) assessed = do
    (p', assessed') ← exclude_paper p assessed
    (ps', assessed'') ← exclude_papers ps assessed'
    ok (p' ∷ ps', assessed'')

  unfoldable pub exclude_out_of_period_papers :
      DiscoveryRelevanceOutput → Outcome StageError DiscoveryRelevanceOutput
  unfolding exclude_papers
  exclude_out_of_period_papers output = do
    raise_if (ltb end start) (rejected invalid_interval)
    (papers, assessed) ← exclude_papers output.search.papers output.relevance.assessments
    ok (record {
      search = record (output.search) { papers = papers };
      relevance = record (output.relevance) { assessments = assessed };
    })
