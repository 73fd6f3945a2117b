-- ===== src/Radar/Cleared.antt =====
-- What an output satisfies that radar/quality.py does not put on hold.
use scientific_research_rada.Prelude.{
  String, Bool, true, false, not, ◌&&◌, ◌||◌, List, [], ◌∷◌, ◌++◌, map, ◌≡◌, refl, arith, keep, any,
  sym, ◌∙◌, Option, none, some,
}
use scientific_research_rada.Prelude.Outcome.{ok}
use scientific_research_rada.Prelude.Texts.{is_subset, same_set, is_empty, is_empty-difference}
use scientific_research_rada.Radar.Contracts.{
  BriefingMainSignal, SearchPaper, TrendTheme, PaperSummary,
}
use scientific_research_rada.Radar.Period.{is_in_period}
use scientific_research_rada.Radar.Quality.{
  QualityStatus, QualityFinding, QualityDecision, QualityConfig, SavedOutput, TextTools, paper_key,
  paper_keys, selected_ids, summary_keys, cited_ids, reference_findings, included_papers,
  date_findings, access_findings, is_blank, content_findings, duplicate_findings, when,
  all_findings, is_hold, status_of, is_off, evaluate_quality, lacks_support,
}

any-append {ℓ} :
    {A : Type ℓ} (p : A → Bool) (xs ys : List A) → any p (xs ++ ys) ≡ (any p xs || any p ys)
any-append p [] ys = refl
any-append p (x ∷ xs) ys = ground (arith, any-append p xs ys)

held_parts :
    (fs gs : List QualityFinding)
    → any is_hold (fs ++ gs) ≡ false
    → (any is_hold fs ≡ false) × (any is_hold gs ≡ false)
held_parts fs gs h = ground (arith, any-append is_hold fs gs)

any-keep {ℓ} : {A : Type ℓ} (p : A → Bool) (xs : List A) → any p (keep p xs) ≡ any p xs
any-keep p [] = refl
any-keep p (x ∷ xs) = ground (arith, any-keep p xs)

any-keep-not : (fs : List QualityFinding) → any is_hold (keep (λ f. not (is_hold f)) fs) ≡ false
any-keep-not [] = refl
any-keep-not (f ∷ fs) = ground (arith, any-keep-not fs)

is_empty-map-keep {ℓ} :
    {A : Type ℓ} (key : A → String) (p : A → Bool) (xs : List A)
    → is_empty (map key (keep p xs)) ≡ not (any p xs)
unfolding is_empty
is_empty-map-keep key p [] = refl
is_empty-map-keep key p (x ∷ xs) = ground (arith, is_empty-map-keep key p xs)

abbrev pub is_held : QualityStatus → Bool
is_held QualityStatus.hold = true
is_held _ = false

status_lem : (fs : List QualityFinding) → is_held (status_of fs) ≡ any is_hold fs
status_lem [] = refl
status_lem (f ∷ fs) = ground arith

-- The summaries are those of the selected papers, what is cited was found and selected, no summary
-- is blank, every theme names evidence, a main signal names supporting papers, and, where the dates are checked, no included paper is dated outside the interval.
pub record IsCleared (tools : TextTools) (config : QualityConfig) (o : SavedOutput) : Type 0 where
  pub covered : same_set (selected_ids o) (summary_keys o.summaries.paper_summaries) ≡ true
  pub known : is_subset (cited_ids o) (paper_keys o) ≡ true
  pub chosen : is_subset (cited_ids o) (selected_ids o) ≡ true
  pub written :
      any (λ (s : PaperSummary). is_blank tools s.concise_summary) o.summaries.paper_summaries
      ≡ false
  pub supported :
      any (λ (t : TrendTheme). is_empty t.evidence_external_ids) o.trends.trend_analysis.themes
      ≡ false
  pub signal_supported :
      (signal : BriefingMainSignal)
      → o.briefing.digest_briefing.main_signal ≡ some signal
      → is_empty signal.supporting_external_ids ≡ false
  pub dated :
      (config.check_reporting_dates
        && any
            (λ (p : SearchPaper).
              not (is_in_period o.reporting_from o.reporting_to p.published_date))
            (included_papers o))
      ≡ false

module _ (tools : TextTools) (config : QualityConfig) (o : SavedOutput) where
  references_lem :
      any is_hold (reference_findings o) ≡ false
      → (same_set (selected_ids o) (summary_keys o.summaries.paper_summaries) ≡ true)
        × (is_subset (cited_ids o) (paper_keys o) ≡ true)
        × (is_subset (cited_ids o) (selected_ids o) ≡ true)
  unfolding reference_findings
  references_lem h = ground (
    arith,
    is_empty-difference (cited_ids o) (paper_keys o),
    is_empty-difference (cited_ids o) (selected_ids o),
  )

  content_lem :
      any is_hold (content_findings tools o) ≡ false
      → (any (λ (s : PaperSummary). is_blank tools s.concise_summary) o.summaries.paper_summaries
          ≡ false)
        × (any (λ (t : TrendTheme). is_empty t.evidence_external_ids) o.trends.trend_analysis.themes
            ≡ false)
        × (lacks_support o.briefing.digest_briefing.main_signal ≡ false)
  unfolding content_findings
  content_lem h = ground (
    arith,
    is_empty-map-keep (λ (s : PaperSummary). s.external_id)
        (λ (s : PaperSummary). is_blank tools s.concise_summary) o.summaries.paper_summaries,
  )

  signal_lem :
      (signal : BriefingMainSignal) (found : Option BriefingMainSignal)
      → lacks_support found ≡ false
      → found ≡ some signal
      → is_empty signal.supporting_external_ids ≡ false
  signal_lem signal none h e = ground arith
  signal_lem signal (some found) h e = ground arith

  dates_lem :
      any is_hold (date_findings o) ≡ false
      → any
          (λ (p : SearchPaper). not (is_in_period o.reporting_from o.reporting_to p.published_date))
          (included_papers o)
        ≡ false
  unfolding date_findings
  dates_lem h = ground (
    arith,
    is_empty-map-keep paper_key
        (λ (p : SearchPaper). not (is_in_period o.reporting_from o.reporting_to p.published_date))
        (included_papers o),
  )

  findings_lem :
      any is_hold (all_findings tools config o) ≡ false
      → (any is_hold (reference_findings o) ≡ false)
        × (any is_hold (content_findings tools o) ≡ false)
        × (any is_hold (when config.check_reporting_dates (date_findings o)) ≡ false)
  unfolding all_findings
  findings_lem h =
      let dates = when config.check_reporting_dates (date_findings o) in
      let duplicates = when config.check_duplicates (duplicate_findings tools o) in
      let access = when config.check_source_access (access_findings o) in
      let basic = reference_findings o ++ content_findings tools o in
      let h1 = (held_parts (basic ++ dates ++ duplicates ++ access) _ h).0 in
      let h2 = (held_parts (basic ++ dates ++ duplicates) access h1).0 in
      let (both, held) = held_parts basic dates (held_parts (basic ++ dates) duplicates h2).0 in
      let (references, content) =
        held_parts (reference_findings o) (content_findings tools o) both in
      (references, content, held)

  -- The decision is held exactly when some finding holds.
  decision_lem :
      {d : QualityDecision}
      → is_off config.mode ≡ false
      → evaluate_quality tools config o ≡ ok d
      → is_held d.status ≡ any is_hold (all_findings tools config o)
  unfolding evaluate_quality
  decision_lem on e =
      let findings = all_findings tools config o in
      let first = keep is_hold findings in
      let last = keep (λ f. not (is_hold f)) findings in
      ground (
        arith,
        status_lem (first ++ last),
        any-append is_hold first last,
        any-keep is_hold findings,
        any-keep-not findings,
      )

  -- Where the checks are on and answer a decision that is not held, the output is cleared.
  pub evaluate_quality_lem :
      {d : QualityDecision}
      → is_off config.mode ≡ false
      → evaluate_quality tools config o ≡ ok d
      → is_held d.status ≡ false
      → IsCleared tools config o
  evaluate_quality_lem on e h =
      let (references, content, dates) = findings_lem (sym (decision_lem on e) ∙ h) in
      let (covered, known, chosen) = references_lem references in
      let (written, supported, signal) = content_lem content in
      record {
        covered = covered;
        known = known;
        chosen = chosen;
        written = written;
        supported = supported;
        signal_supported = λ x e. signal_lem x o.briefing.digest_briefing.main_signal signal e;
        dated = ground (arith, dates_lem);
      }
