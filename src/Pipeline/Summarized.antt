-- ===== src/Pipeline/Summarized.antt =====
-- The summaries stage of radar/runner.py over interruptions, retries and batches of any size: no
-- selected paper is lost, and none is summarized twice.
use mathlib.Core.Option
use mathlib.Core.Path.{subst}
use mathlib.Core.List.{flatten, map-append, append-nil}
use scientific_research_rada.Prelude.{
  ℕ, String, true, List, [], ◌∷◌, ◌++◌, Option, some, ◌≡◌, ◌⊎◌, inl, inr, refl, sym, ap, ◌∙◌, arith,
}
use scientific_research_rada.Prelude.Outcome.{Outcome, ok, raised, Outcome-cases}
use scientific_research_rada.Prelude.Texts.{
  contains, same_set, is_subset, is_unique, contains-same_set, contains-append,
}
use scientific_research_rada.Radar.Contracts.{PaperSummary}
use scientific_research_rada.Radar.Validators.{ids_of_summaries}
use scientific_research_rada.Radar.StageInputs.{EvidencePaper}
use scientific_research_rada.Radar.Evidence.{Documents}
use scientific_research_rada.Runs.Model.{DigestRunStage, DigestRunStageStatus, DigestRunStageType}
use scientific_research_rada.Runs.Lifecycle.{stage_of, change_stage}
use scientific_research_rada.Pipeline.Model.{
  PipelineError, Pipeline, next_reply, and_then-raised, and_then-ok, ask, write_stage,
}
use scientific_research_rada.Pipeline.Saves.{
  record_result_metadata, saved_summaries, save_summary_batch,
}
use scientific_research_rada.Pipeline.Accept.{evidence_ids, accept_batch}
use scientific_research_rada.Pipeline.Stages.{Setting, summarize_batch, summarize_batches}
use scientific_research_rada.Pipeline.Sets.{
  is_unique-replace, contains-replace, is_subset_of_contains, same_set_of_contains,
  is_unique-append,
}
use scientific_research_rada.Pipeline.Batched.{accept_batch_lem}

pub stage_of-change_stage :
    (w : DigestRunStageType) (f : DigestRunStage → DigestRunStage) (ss : List DigestRunStage)
    → ((s : DigestRunStage) → (f s).stage ≡ s.stage)
    → stage_of w (change_stage w f ss) ≡ Option.map f (stage_of w ss)
unfolding stage_of change_stage
stage_of-change_stage w f [] same = refl
stage_of-change_stage w f (s ∷ ss) same = ground (arith, same s, stage_of-change_stage w f ss same)

abbrev pub saved_ids : DigestRunStage → List String
saved_ids s = ids_of_summaries (saved_summaries s.result_data)

-- The stage of the summaries, in a state of the execution.
abbrev pub HasStage : Pipeline → DigestRunStage → Type 0
HasStage p s = stage_of DigestRunStageType.paper_summaries p.run.stages ≡ some s

module _ (selected : List String) where
  -- What is saved and what is still to do: each selected paper once, and nothing else.
  abbrev pub Ready : List String → List String → Type 0
  Ready saved todo =
      (is_unique (saved ++ todo) ≡ true)
      × ((a : String) → contains (saved ++ todo) a ≡ contains selected a)

  -- The saved summaries are about different papers, all of them selected.
  abbrev pub IsPartial : List String → Type 0
  IsPartial saved = (is_unique saved ≡ true) × (is_subset saved selected ≡ true)

  abbrev pub IsComplete : List String → Type 0
  IsComplete saved = (is_unique saved ≡ true) × (same_set saved selected ≡ true)

  pub Ready-IsPartial : (saved todo : List String) → Ready saved todo → IsPartial saved
  Ready-IsPartial saved todo (unique, members) = (
    ground (arith, is_unique-append saved todo),
    is_subset_of_contains saved selected
        (λ a known. sym (members a) ∙ ground (arith, contains-append saved todo a, known)),
  )

  pub Ready-IsComplete : (saved : List String) → Ready saved [] → IsComplete saved
  Ready-IsComplete saved (unique, members) = (
    subst (λ x. is_unique x ≡ true) (append-nil saved) unique,
    same_set_of_contains saved selected
        (λ a. subst (λ x. contains x a ≡ contains selected a) (append-nil saved) (members a)),
  )

  Ready-step :
      (saved new old todo : List String)
      → is_unique new ≡ true
      → same_set new old ≡ true
      → Ready saved (old ++ todo)
      → Ready (saved ++ new) todo
  Ready-step saved new old todo unique same (u, members) =
      let congr : (a : String) → contains old a ≡ contains new a =
        λ a. sym (contains-same_set new old a same) in
      (
        is_unique-replace saved old new todo congr unique u,
        λ a. sym (contains-replace saved old new todo congr a) ∙ members a,
      )

module _ (setting : Setting) (documents : Documents) (total : ℕ) where
  abbrev saved_state : List EvidencePaper → Option String → List PaperSummary → Pipeline → Pipeline
  saved_state batch id c p =
      (write_stage DigestRunStageType.paper_summaries (save_summary_batch c id total)
        (ask DigestRunStageType.paper_summaries (evidence_ids batch) p).0).0

  summarize_batch_saves :
      (batch : List EvidencePaper) (p : Pipeline) (id : Option String) (c : List PaperSummary)
      → accept_batch documents batch (next_reply p.replies) ≡ ok (id, c)
      → summarize_batch setting documents total batch p ≡ (saved_state batch id c p, ok tt)
  unfolding summarize_batch ask write_stage
  summarize_batch_saves batch p id c accepted = ground arith

  saved_state-HasStage :
      (batch : List EvidencePaper) (p : Pipeline) (id : Option String) (c : List PaperSummary)
      (s : DigestRunStage)
      → HasStage p s
      → HasStage (saved_state batch id c p) (save_summary_batch c id total s)
  unfolding ask write_stage save_summary_batch record_result_metadata
  saved_state-HasStage batch p id c s here =
      stage_of-change_stage DigestRunStageType.paper_summaries (save_summary_batch c id total)
        p.run.stages (λ _. refl)
      ∙ ap (Option.map (save_summary_batch c id total)) here

  -- A batch leaves the run as it was, or saves a summary of each of its papers.
  pub summarize_batch_lem :
      (batch : List EvidencePaper) (p : Pipeline) (s : DigestRunStage)
      → HasStage p s
      → ((e : PipelineError) × ((summarize_batch setting documents total batch p).1 ≡ raised e)
          × ((summarize_batch setting documents total batch p).0.run ≡ p.run))
        ⊎ ((s' : DigestRunStage) × (c : List PaperSummary) × ((summarize_batch setting documents
                total batch p).1
              ≡ ok tt)
            × HasStage (summarize_batch setting documents total batch p).0 s'
            × (s'.status ≡ s.status)
            × (saved_ids s' ≡ saved_ids s ++ ids_of_summaries c)
            × (is_unique (ids_of_summaries c) ≡ true)
            × (same_set (ids_of_summaries c) (evidence_ids batch) ≡ true))
  unfolding summarize_batch ask write_stage save_summary_batch record_result_metadata
  summarize_batch_lem batch p s here =
      elim (Outcome-cases (accept_batch documents batch (next_reply p.replies))) [
        | inr (e, refused) ↦ inl (e, ground arith, ground arith)
        | inl ((id, c), accepted) ↦
            let s' = save_summary_batch c id total s in
            let (unique, same) = accept_batch_lem documents batch (next_reply p.replies) accepted in
            (inr (
              s',
              c,
              ground arith,
              subst (λ r. HasStage r.0 s') (sym (summarize_batch_saves batch p id c accepted))
                  (saved_state-HasStage batch p id c s here),
              refl,
              map-append (λ (x : PaperSummary). x.external_id) (saved_summaries s.result_data) c,
              unique,
              same,
            ))
      ]

  module _ (selected : List String) where
    -- The stage after some batches: running, with at least a part of the summaries, and with all of
    -- them where no error was raised.
    abbrev pub Ends : Pipeline × Outcome PipelineError (Unit {0}) → Type 0
    Ends r =
        (s' : DigestRunStage) × HasStage r.0 s'
        × (s'.status ≡ DigestRunStageStatus.running)
        × IsPartial selected (saved_ids s')
        × (((e : PipelineError) × (r.1 ≡ raised e))
            ⊎ ((r.1 ≡ ok tt) × Ready selected (saved_ids s') []))

    pub summarize_batches-Ends :
        (bs : List (List EvidencePaper)) (p : Pipeline) (s : DigestRunStage)
        → HasStage p s
        → s.status ≡ DigestRunStageStatus.running
        → Ready selected (saved_ids s) (evidence_ids (flatten bs))
        → Ends (summarize_batches setting documents total bs p)
    unfolding summarize_batches flatten
    summarize_batches-Ends [] p s here runs ready =
        (s, here, runs, Ready-IsPartial selected (saved_ids s) [] ready, inr (refl, ready))
    summarize_batches-Ends (b ∷ bs) p s here runs ready = elim (summarize_batch_lem b p s here) [
      | inl (e, refused, same) ↦
          subst Ends (sym (and_then-raised (summarize_batch setting documents total b p) _ refused))
            (
              s,
              subst (λ x. stage_of DigestRunStageType.paper_summaries x.stages ≡ some s) (sym same)
                  here,
              runs,
              Ready-IsPartial selected (saved_ids s) _ ready,
              inl (e, refl),
            )
      | inr (s', c, saved, here', kept, ids, unique, members) ↦
          let next =
            Ready-step selected (saved_ids s) (ids_of_summaries c) (evidence_ids b)
              (evidence_ids (flatten bs)) unique members
              (subst (Ready selected (saved_ids s))
                (map-append (λ (x : EvidencePaper). x.external_id) b (flatten bs)) ready) in
          subst Ends (sym (and_then-ok (summarize_batch setting documents total b p) _ saved)) (
            summarize_batches-Ends bs (summarize_batch setting documents total b p).0 s' here'
              (kept ∙ runs)
              (subst (λ x. Ready selected x (evidence_ids (flatten bs))) (sym ids) next))
    ]
