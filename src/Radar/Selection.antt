-- ===== src/Radar/Selection.antt =====
-- From an accepted discovery to the papers that are summarized: the period rule of
-- radar/validation.py, then `summary_input` of radar/stage_inputs.py.
use mathlib.Core.Bool.{false≢true}
use text.Mathlib.TextPositions.{eq_refl}
use scientific_research_rada.Prelude.{
  ℕ, ◌≤◌, ltb_of_le, String, true, false, List, [], ◌∷◌, ◌≡◌, refl, sym, ◌∙◌, arith, All, Option,
  none, some, Bool-cases, inl, inr,
}
use scientific_research_rada.Prelude.Texts.{contains, contains-same_set}
use scientific_research_rada.Prelude.Keyed.{index_by, is_some, is_some-index_by}
use scientific_research_rada.Prelude.Outcome.{ok}
use scientific_research_rada.Radar.Contracts.{
  SearchPaper, RelevanceAssessment, DiscoveryRelevanceOutput,
}
use scientific_research_rada.Radar.Validators.{paper_ids, assessment_ids, validate_assessments}
use scientific_research_rada.Radar.Validators.Parse.{validate_assessments_sound}
use scientific_research_rada.Radar.Period.{
  assessment_id, is_in_period, exclude_papers, exclude_out_of_period_papers,
}
use scientific_research_rada.Radar.Period.Excluded.{IsRejected, AreKnown, exclude_papers-Done}
use scientific_research_rada.Radar.StageInputs.{
  SelectedPaper, is_selected, select_papers, summary_input,
}

-- Every paper of an accepted output has an assessment.
known_of_subset :
    (papers : List SearchPaper) (assessed : List RelevanceAssessment)
    → ((k : String)
        → contains (paper_ids papers) k ≡ true
        → contains (assessment_ids assessed) k ≡ true)
    → AreKnown papers assessed
unfolding contains
known_of_subset [] assessed h = tt
known_of_subset (p ∷ ps) assessed h =
    (h p.external_id (rw eq_refl), known_of_subset ps assessed (λ k c. h k (ground (arith, c))))

validated_known :
    (o : DiscoveryRelevanceOutput)
    → validate_assessments o ≡ ok o
    → (k : String) → contains (paper_ids o.search.papers) k ≡ true
    → contains (assessment_ids o.relevance.assessments) k ≡ true
validated_known o h k c =
    let sound = validate_assessments_sound o h in
    contains-same_set (assessment_ids o.relevance.assessments) (paper_ids o.search.papers) k sound.3
    ∙ c

module _ (start end : ℕ) where
  abbrev AllInPeriod : List SelectedPaper → Type 0
  AllInPeriod = All (λ s. is_in_period start end s.paper.published_date ≡ true)

  abbrev OutRejected : List SearchPaper → List RelevanceAssessment → Type 0
  OutRejected papers assessed =
      All
        (λ p.
          is_in_period start end p.published_date ≡ false
          → IsRejected (index_by assessment_id p.external_id assessed))
        papers

  not_selected :
      (a : RelevanceAssessment)
      → IsRejected (some a)
      → is_selected a.details.recommended_status ≡ false
  not_selected a h = ground arith

  abbrev Selects : List SearchPaper → List RelevanceAssessment → Type 0
  Selects papers assessed =
      (chosen : List SelectedPaper) × (select_papers assessed papers ≡ ok chosen)
      × AllInPeriod chosen

  Selects-with :
      (p : SearchPaper) (ps : List SearchPaper) (assessed : List RelevanceAssessment)
      (o : Option RelevanceAssessment)
      → index_by assessment_id p.external_id assessed ≡ o
      → is_some o ≡ true
      → (is_in_period start end p.published_date ≡ false → IsRejected o)
      → Selects ps assessed
      → Selects (p ∷ ps) assessed
  Selects-with p ps assessed none e known out rest = absurd (false≢true known)
  Selects-with p ps assessed (some a) e known out (chosen, made, inside) =
      elim (Bool-cases (is_selected a.details.recommended_status)) [
        | inl picked ↦ (
          record { paper = p; relevance = a } ∷ chosen,
          (unfold select_papers in rw (e, made, picked)),
          (in_period picked, inside),
        )
        | inr dropped ↦ (chosen, (unfold select_papers in rw (e, made, dropped)), inside)
      ]
    where
      in_period :
          is_selected a.details.recommended_status ≡ true
          → is_in_period start end p.published_date ≡ true
      in_period picked = elim (Bool-cases (is_in_period start end p.published_date)) [
        | inl yes_in ↦ yes_in
        | inr is_out ↦ absurd (false≢true (sym (not_selected a (out is_out)) ∙ picked))
      ]

  -- The selection returns, and what it selects is in the period.
  select_papers-Selects :
      (papers : List SearchPaper) (assessed : List RelevanceAssessment)
      → AreKnown papers assessed
      → OutRejected papers assessed
      → Selects papers assessed
  unfolding select_papers
  select_papers-Selects [] assessed known out = ([], refl, tt)
  select_papers-Selects (p ∷ ps) assessed known out =
      Selects-with p ps assessed (index_by assessment_id p.external_id assessed) refl
        (is_some-index_by assessment_id p.external_id assessed ∙ known.0) out.0
        (select_papers-Selects ps assessed known.1 out.1)

-- After an accepted discovery and a valid interval the period rule returns, the selection of papers
-- to summarize returns, and every selected paper has no publication date or one in the interval.
pub selected_in_period :
    (date_text : ℕ → String) (start end : ℕ) (o : DiscoveryRelevanceOutput)
    → validate_assessments o ≡ ok o
    → start ≤ end
    → (o' : DiscoveryRelevanceOutput) × (chosen : List SelectedPaper)
      × (exclude_out_of_period_papers date_text start end o ≡ ok o')
      × (summary_input o' ≡ ok chosen)
      × All (λ s. is_in_period start end s.paper.published_date ≡ true) chosen
selected_in_period date_text start end o accepted le =
    let papers = o.search.papers in
    let assessed = o.relevance.assessments in
    let (r, made, done) =
      exclude_papers-Done date_text start end papers assessed
        (known_of_subset papers assessed (validated_known o accepted)) in
    let (chosen, selected, inside) =
      select_papers-Selects start end r.0 r.1
        (known_of_subset r.0 r.1
          λ k c. rw done.same_ids (validated_known o accepted k (rw done.papers_kept at c)))
        done.out_rejected in
    (
      record {
        search = record (o.search) { papers = r.0 };
        relevance = record (o.relevance) { assessments = r.1 };
      },
      chosen,
      returned r made,
      (unfold summary_input in selected),
      inside,
    )
  where
    returned :
        (r : List SearchPaper × List RelevanceAssessment)
        → exclude_papers date_text start end o.search.papers o.relevance.assessments ≡ ok r
        → exclude_out_of_period_papers date_text start end o
          ≡ ok (record {
            search = record (o.search) { papers = r.0 };
            relevance = record (o.relevance) { assessments = r.1 };
          })
    returned r made = unfold exclude_out_of_period_papers in rw (ltb_of_le start end le, made)
