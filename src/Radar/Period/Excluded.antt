-- ===== src/Radar/Period/Excluded.antt =====
-- The effect of `exclude_out_of_period_papers` on the assessments (radar/validation.py).
use mathlib.Core.Bool.{false≢true}
use mathlib.Core.Option
use text.Mathlib.TextPositions.{eq_refl}
use scientific_research_rada.Prelude.{
  sym, ◌∙◌, ap₂, ℕ, String, Bool, true, false, List, [], ◌∷◌, Option, none, some, map, ◌≡◌, ◌≢◌,
  refl, arith, inl, inr, ◌⊎◌, eq_iff, All, if◌then◌else◌, Bool-cases, str_eq,
}
use scientific_research_rada.Prelude.Texts.{contains}
use scientific_research_rada.Prelude.Keyed.{
  index_by, update_by, is_some, is_some-index_by, map-update_by, index_by-update_by,
}
use scientific_research_rada.Prelude.Outcome.{Outcome, ok}
use scientific_research_rada.Radar.Contracts.{
  SearchPaper, RelevanceAssessment, reject, reject_placement,
}
use scientific_research_rada.Radar.Validation.{StageError}
use scientific_research_rada.Radar.Period.{
  assessment_id, is_in_period, exclusion_reason, mark_excluded, exclude_assessment, warn,
  exclude_one, exclude_dated, exclude_paper, exclude_papers, Loop,
}

-- An assessment that is there and rejects its paper.
abbrev pub IsRejected : Option RelevanceAssessment → Type 0
IsRejected none = ⊥
IsRejected (some a) =
    (a.details.recommended_status ≡ reject) × (a.details.best_digest_placement ≡ reject_placement)

exclude_assessment-IsRejected :
    (reason : String) (a : RelevanceAssessment) → IsRejected (some (exclude_assessment reason a))
unfolding mark_excluded
exclude_assessment-IsRejected reason a = ground arith

warn_keeps :
    (reason : String) (p : SearchPaper)
    → ((warn reason p).external_id ≡ p.external_id)
      × ((warn reason p).published_date ≡ p.published_date)
unfolding warn
warn_keeps reason p = ground arith

split-IsRejected :
    (reason : String) (b : Bool) (o : Option RelevanceAssessment)
    → IsRejected o
    → IsRejected (if b then Option.map (exclude_assessment reason) o else o)
split-IsRejected reason true none h = absurd h
split-IsRejected reason true (some a) h = exclude_assessment-IsRejected reason a
split-IsRejected reason false o h = h

map-IsRejected :
    (reason : String) (o : Option RelevanceAssessment)
    → is_some o ≡ true
    → IsRejected (Option.map (exclude_assessment reason) o)
map-IsRejected reason none h = absurd (false≢true h)
map-IsRejected reason (some a) h = exclude_assessment-IsRejected reason a

-- Every paper has an assessment in the dictionary.
abbrev pub AreKnown : List SearchPaper → List RelevanceAssessment → Type 0
AreKnown papers before = All (λ p. contains (map assessment_id before) p.external_id ≡ true) papers

known_after :
    (papers : List SearchPaper) (before after : List RelevanceAssessment)
    → map assessment_id after ≡ map assessment_id before
    → AreKnown papers before
    → AreKnown papers after
known_after papers before after same h = rw same h

module _ (date_text : ℕ → String) (start end : ℕ) where
  -- What one round has done.
  pub record Round (p : SearchPaper) (before : List RelevanceAssessment) (p' : SearchPaper)
      (after : List RelevanceAssessment) : Type 0 where
    pub same_id : p'.external_id ≡ p.external_id
    pub same_date : p'.published_date ≡ p.published_date
    pub same_ids : map assessment_id after ≡ map assessment_id before
    pub still_rejected :
        (k : String)
        → IsRejected (index_by assessment_id k before)
        → IsRejected (index_by assessment_id k after)
    pub out_rejected :
        is_in_period start end p.published_date ≡ false
        → IsRejected (index_by assessment_id p.external_id after)
    pub others_kept :
        (k : String)
        → (is_in_period start end p.published_date ≡ true) ⊎ (p.external_id ≢ k)
        → index_by assessment_id k after ≡ index_by assessment_id k before

  excluded_Round :
      (d : ℕ) (p : SearchPaper) (before : List RelevanceAssessment)
      → p.published_date ≡ some d
      → is_in_period start end (some d) ≡ false
      → is_some (index_by assessment_id p.external_id before) ≡ true
      → let reason = exclusion_reason date_text start end d in
        Round p before
          (warn reason p)
          (update_by assessment_id p.external_id (exclude_assessment reason) before)
  excluded_Round d p before e out known =
      let reason = exclusion_reason date_text start end d in
      record {
        same_id = (warn_keeps reason p).0;
        same_date = (warn_keeps reason p).1;
        same_ids =
            map-update_by assessment_id p.external_id (exclude_assessment reason) before
              (λ a. refl);
        still_rejected =
            λ k h. rw (changed reason k) (split-IsRejected reason (str_eq p.external_id k) _ h);
        out_rejected =
            λ _. rw (changed reason p.external_id, eq_refl) (map-IsRejected reason _ known);
        others_kept = λ k c. kept reason k c;
      }
    where
      changed :
          (reason : String) (k : String)
          → index_by assessment_id k
              (update_by assessment_id p.external_id (exclude_assessment reason) before)
            ≡ (if str_eq p.external_id k
                then Option.map (exclude_assessment reason) (index_by assessment_id k before)
                else index_by assessment_id k before)
      changed reason k =
          index_by-update_by assessment_id k p.external_id (exclude_assessment reason) before
            (λ a. refl)

      kept :
          (reason : String) (k : String)
          → (is_in_period start end p.published_date ≡ true) ⊎ (p.external_id ≢ k)
          → index_by assessment_id k
              (update_by assessment_id p.external_id (exclude_assessment reason) before)
            ≡ index_by assessment_id k before
      kept reason k (inl now_in) = absurd (false≢true (sym out ∙ (rw e at now_in)))
      kept reason k (inr ne) = ground (arith, changed reason k, eq_iff p.external_id k)

  kept_Round :
      (p : SearchPaper) (before : List RelevanceAssessment)
      → is_in_period start end p.published_date ≡ true
      → Round p before p before
  kept_Round p before now_in = record {
    same_id = refl;
    same_date = refl;
    same_ids = refl;
    still_rejected = λ k h. h;
    out_rejected = λ out. absurd (false≢true (sym out ∙ now_in));
    others_kept = λ k c. refl;
  }

  -- What a round gives: a result, with the changes that `Round` lists.
  abbrev Rounds :
      SearchPaper
      → List RelevanceAssessment
      → Outcome StageError (SearchPaper × List RelevanceAssessment)
      → Type 0
  Rounds p before done =
      (r : SearchPaper × List RelevanceAssessment) × (done ≡ ok r) × Round p before r.0 r.1

  exclude_one-Round :
      (d : ℕ) (p : SearchPaper) (before : List RelevanceAssessment)
      → p.published_date ≡ some d
      → is_in_period start end (some d) ≡ false
      → contains (map assessment_id before) p.external_id ≡ true
      → Rounds p before (exclude_one date_text start end d p before)
  exclude_one-Round d p before e out known =
      let there : is_some (index_by assessment_id p.external_id before) ≡ true =
        is_some-index_by assessment_id p.external_id before ∙ known in
      let reason = exclusion_reason date_text start end d in
      (
        (warn reason p, update_by assessment_id p.external_id (exclude_assessment reason) before),
        (unfold exclude_one in rw there),
        excluded_Round d p before e out there,
      )

  exclude_dated-Round :
      (o : Option ℕ) (p : SearchPaper) (before : List RelevanceAssessment)
      → p.published_date ≡ o
      → contains (map assessment_id before) p.external_id ≡ true
      → Rounds p before (exclude_dated date_text start end o p before)
  exclude_dated-Round none p before e known = (
    (p, before),
    (unfold exclude_dated in refl),
    kept_Round p before (rw e (unfold is_in_period in refl)),
  )
  exclude_dated-Round (some d) p before e known =
      elim (Bool-cases (is_in_period start end (some d))) [
        | inl now_in ↦
            ((p, before), (unfold exclude_dated in rw (now_in)), kept_Round p before (rw e now_in))
        | inr out ↦
            let (r, made, round) = exclude_one-Round d p before e out known in
            (r, (unfold exclude_dated in rw out made), round)
      ]

  exclude_paper-Round :
      (p : SearchPaper) (before : List RelevanceAssessment)
      → contains (map assessment_id before) p.external_id ≡ true
      → Rounds p before (exclude_paper date_text start end p before)
  exclude_paper-Round p before known =
      unfold exclude_paper in exclude_dated-Round p.published_date p before refl known

  -- What the loop has done.
  pub record Done (papers : List SearchPaper) (before : List RelevanceAssessment)
      (papers' : List SearchPaper) (after : List RelevanceAssessment) : Type 0 where
    pub papers_kept : map (λ p. p.external_id) papers' ≡ map (λ p. p.external_id) papers
    pub dates_kept : map (λ p. p.published_date) papers' ≡ map (λ p. p.published_date) papers
    pub same_ids : map assessment_id after ≡ map assessment_id before
    pub still_rejected :
        (k : String)
        → IsRejected (index_by assessment_id k before)
        → IsRejected (index_by assessment_id k after)
    pub out_rejected :
        All
          (λ p.
            is_in_period start end p.published_date ≡ false
            → IsRejected (index_by assessment_id p.external_id after))
          papers'
    pub others_kept :
        (k : String)
        → All (λ p. (is_in_period start end p.published_date ≡ true) ⊎ (p.external_id ≢ k)) papers
        → index_by assessment_id k after ≡ index_by assessment_id k before

  exclude_papers-cons :
      (p : SearchPaper) (ps : List SearchPaper) (before : List RelevanceAssessment)
      {one : SearchPaper × List RelevanceAssessment} {rest : Loop}
      → exclude_paper date_text start end p before ≡ ok one
      → exclude_papers date_text start end ps one.1 ≡ ok rest
      → exclude_papers date_text start end (p ∷ ps) before ≡ ok (one.0 ∷ rest.0, rest.1)
  exclude_papers-cons p ps before made made_rest = unfold exclude_papers in rw (made, made_rest)

  pub exclude_papers-Done :
      (papers : List SearchPaper) (before : List RelevanceAssessment)
      → AreKnown papers before
      → (r : Loop) × (exclude_papers date_text start end papers before ≡ ok r)
        × Done papers before r.0 r.1
  unfolding exclude_papers
  exclude_papers-Done [] before h = (
    ([], before),
    refl,
    record {
      papers_kept = refl;
      dates_kept = refl;
      same_ids = refl;
      still_rejected = λ k x. x;
      out_rejected = tt;
      others_kept = λ k x. refl;
    },
  )
  exclude_papers-Done (p ∷ ps) before h =
      let (one, made, round) = exclude_paper-Round p before h.0 in
      let (rest, made_rest, done) =
        exclude_papers-Done ps one.1 (known_after ps before one.1 round.same_ids h.1) in
      (
        (one.0 ∷ rest.0, rest.1),
        exclude_papers-cons p ps before made made_rest,
        record {
          papers_kept = ap₂ ◌∷◌ round.same_id done.papers_kept;
          dates_kept = ap₂ ◌∷◌ round.same_date done.dates_kept;
          same_ids = done.same_ids ∙ round.same_ids;
          still_rejected = λ k x. done.still_rejected k (round.still_rejected k x);
          out_rejected = (
            (λ out. rw round.same_id (
                done.still_rejected p.external_id
                  (round.out_rejected (rw round.same_date at out)))),
            done.out_rejected,
          );
          others_kept = λ k x. done.others_kept k x.1 ∙ round.others_kept k x.0;
        },
      )
