-- ===== src/Pipeline/Evidenced.antt =====
-- The parts of `_execute_summaries` of radar/runner.py before and after the batches.
use mathlib.Core.Option
use mathlib.Core.Path.{subst}
use scientific_research_rada.Prelude.{
  String, true, not, List, [], ◌∷◌, map, Option, none, some, ◌≡◌, refl, sym, ap, ◌∙◌, arith, keep,
}
use scientific_research_rada.Prelude.Outcome.{
  ok, wrap_error-eq-ok, >>=-eq-ok, or_raise, ok-injective,
}
use scientific_research_rada.Prelude.Texts.{
  contains, is_unique, contains-append, contains_of_subset,
}
use scientific_research_rada.Radar.Contracts.{
  PaperSummary, PaperSummariesOutput, DiscoveryRelevanceOutput,
}
use scientific_research_rada.Radar.Validators.{ids_of_summaries}
use scientific_research_rada.Radar.Sources.{SourceDocument}
use scientific_research_rada.Radar.StageInputs.{
  EvidencePaper, SelectedPaper, with_evidence, summary_input, summary_evidence_input,
}
use scientific_research_rada.Runs.Model.{
  DigestRunStage, DigestRunStageType, StageResult, summaries_result, discovery_result, trend_result,
  briefing_result,
}
use scientific_research_rada.Pipeline.Model.{PipelineError, Pipeline, write_stage}
use scientific_research_rada.Pipeline.Saves.{saved_summaries, or_no_summaries}
use scientific_research_rada.Pipeline.Accept.{evidence_ids, remaining_papers, read_summaries}
use scientific_research_rada.Pipeline.Sets.{
  is_unique-append, is_unique-keep, overlap-keep_new, contains-keep,
}
use scientific_research_rada.Pipeline.Batched.{validate_unique_papers_lem}
use scientific_research_rada.Pipeline.Summarized.{stage_of-change_stage, HasStage, IsPartial, Ready}

abbrev pub selected_ids : List SelectedPaper → List String
selected_ids papers = map (λ (s : SelectedPaper). s.paper.external_id) papers

pub with_evidence-ids :
    (documents : String → Option SourceDocument) (selected : List SelectedPaper)
    {papers : List EvidencePaper}
    → with_evidence documents selected ≡ ok papers
    → evidence_ids papers ≡ selected_ids selected
unfolding with_evidence
with_evidence-ids documents [] h = subst (λ x. evidence_ids x ≡ []) (ok-injective h) refl
with_evidence-ids documents (s ∷ rest) h =
    let (document, found, h1) = >>=-eq-ok (or_raise (documents s.paper.external_id) _) _ h in
    let (others, made, h2) = >>=-eq-ok (with_evidence documents rest) _ h1 in
    subst (λ x. evidence_ids x ≡ selected_ids (s ∷ rest)) (ok-injective h2)
      (ap (λ x. s.paper.external_id ∷ x) (with_evidence-ids documents rest made))

-- The papers with their evidence are the selected ones.
pub summary_evidence_input-ids :
    (discovery : DiscoveryRelevanceOutput) (documents : String → Option SourceDocument)
    {selected : List SelectedPaper} {papers : List EvidencePaper}
    → summary_input discovery ≡ ok selected
    → summary_evidence_input discovery documents ≡ ok papers
    → evidence_ids papers ≡ selected_ids selected
unfolding summary_evidence_input
summary_evidence_input-ids discovery documents {selected} known h =
    let (chosen, made, h1) = >>=-eq-ok (summary_input discovery) _ h in
    with_evidence-ids documents chosen h1 ∙ ap selected_ids (ok-injective (sym made ∙ known))

pub remaining_papers-ids :
    (existing : List PaperSummary) (papers : List EvidencePaper)
    → evidence_ids (remaining_papers existing papers)
      ≡ keep (λ x. not (contains (ids_of_summaries existing) x)) (evidence_ids papers)
unfolding remaining_papers
remaining_papers-ids existing [] = refl
remaining_papers-ids existing (p ∷ ps) = ground (arith, remaining_papers-ids existing ps)

-- Before the first batch every selected paper is saved or still to do.
pub Ready-start :
    (selected saved : List String)
    → is_unique selected ≡ true
    → IsPartial selected saved
    → Ready selected saved (keep (λ x. not (contains saved x)) selected)
Ready-start selected saved unique (once, known) =
    let todo = keep (λ x. not (contains saved x)) selected in
    (
      ground (
        arith,
        is_unique-append saved todo,
        is_unique-keep (λ x. not (contains saved x)) selected unique,
        overlap-keep_new saved selected,
      ),
      λ a. ground (
        arith,
        contains-append saved todo a,
        contains-keep (λ x. not (contains saved x)) selected a,
        contains_of_subset saved selected a known,
      ),
    )

-- A checkpoint that can be read is returned as it was saved.
pub read_summaries_lem :
    (result : StageResult) {o : PaperSummariesOutput}
    → read_summaries result ≡ ok o
    → saved_summaries (some result) ≡ o.paper_summaries
read_summaries_lem (summaries_result ss) {o} h =
    ap (λ (x : PaperSummariesOutput). x.paper_summaries)
      (validate_unique_papers_lem (record { paper_summaries = ss })
        (wrap_error-eq-ok PipelineError.invalid_contract _ h)).0
read_summaries_lem (discovery_result x) h = absurd (cc)
read_summaries_lem (trend_result x) h = absurd (cc)
read_summaries_lem (briefing_result x) h = absurd (cc)

pub or_no_summaries_lem :
    (o : Option StageResult)
    → (result : StageResult) × (or_no_summaries o ≡ some result)
      × (saved_summaries (some result) ≡ saved_summaries o)
or_no_summaries_lem none = (summaries_result [], refl, refl)
or_no_summaries_lem (some result) = (result, refl, refl)

pub write_stage-HasStage :
    (f : DigestRunStage → DigestRunStage) (p : Pipeline) (s : DigestRunStage)
    → ((x : DigestRunStage) → (f x).stage ≡ x.stage)
    → HasStage p s
    → HasStage (write_stage DigestRunStageType.paper_summaries f p).0 (f s)
unfolding write_stage
write_stage-HasStage f p s same here =
    stage_of-change_stage DigestRunStageType.paper_summaries f p.run.stages same
    ∙ ap (Option.map f) here
