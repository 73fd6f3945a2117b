-- ===== src/Pipeline/Complete.antt =====
-- `_execute_summaries` of radar/runner.py as a whole: what is saved after it, and what it returns.
use mathlib.Core.Path.{subst}
use mathlib.Core.List.{flatten}
use scientific_research_rada.Prelude.{
  ℕ, String, true, false, not, List, map, some, ◌≡◌, ◌⊎◌, inl, inr, refl, sym, ap, ◌∙◌, arith,
  length, ◌==◌, ◌≤◌, Bool-cases, Option-cases, keep,
}
use scientific_research_rada.Prelude.Outcome.{Outcome, ok, raised, Outcome-cases, wrap_error}
use scientific_research_rada.Prelude.Texts.{contains, is_unique}
use scientific_research_rada.Radar.Contracts.{
  PaperSummary, PaperSummariesOutput, DiscoveryRelevanceOutput,
}
use scientific_research_rada.Radar.Validators.{ids_of_summaries}
use scientific_research_rada.Radar.StageInputs.{
  EvidencePaper, SelectedPaper, summary_input, summary_evidence_input,
}
use scientific_research_rada.Radar.Evidence.{Documents, document_of}
use scientific_research_rada.Runs.Model.{
  DigestRunStage, DigestRunStageStatus, DigestRunStageType, StageResult,
}
use scientific_research_rada.Runs.State.{mark_stage_running}
use scientific_research_rada.Pipeline.Model.{
  PipelineError, Pipeline, M, and_then, ◌>>=◌, ◌>>◌, lift, get_stage, and_then-raised, and_then-ok,
  write_stage,
}
use scientific_research_rada.Pipeline.Saves.{saved_summaries, complete_summary_stage}
use scientific_research_rada.Pipeline.Accept.{
  evidence_ids, remaining_papers, read_summaries, checkpoint, is_completed,
}
use scientific_research_rada.Pipeline.Batches.{batches, batches_lem}
use scientific_research_rada.Pipeline.Stages.{
  Setting, begin_summaries, summarize_batches, sized_batches, final_summaries, request_summaries,
  execute_summaries,
}
use scientific_research_rada.Pipeline.Summarized.{
  saved_ids, HasStage, IsPartial, IsComplete, Ready, Ready-IsComplete, summarize_batches-Ends,
}
use scientific_research_rada.Pipeline.Evidenced.{
  selected_ids, summary_evidence_input-ids, remaining_papers-ids, Ready-start, read_summaries_lem,
  or_no_summaries_lem, write_stage-HasStage,
}

module _ (selected : List String) where
  -- A stage as `_execute_summaries` finds and leaves it: the summaries saved so far are about
  -- different selected papers; if the stage is completed they are about all of them.
  abbrev pub IsSound : DigestRunStage → Type 0
  IsSound s =
      IsPartial selected (saved_ids s)
      × ((is_completed s.status ≡ false) ⊎ IsComplete selected (saved_ids s))

  -- The run afterwards, and the outcome: an error, or summaries of exactly the selected papers.
  abbrev pub Result : Pipeline × Outcome PipelineError PaperSummariesOutput → Type 0
  Result r =
      ((s : DigestRunStage) × HasStage r.0 s × IsSound s)
      × (((e : PipelineError) × (r.1 ≡ raised e))
          ⊎ ((o : PaperSummariesOutput) × (r.1 ≡ ok o)
              × IsComplete selected (ids_of_summaries o.paper_summaries)))

  abbrev Found : Pipeline → DigestRunStage → Type 0
  Found p s = HasStage p s × IsSound s

  raised-Result :
      (p : Pipeline) (s : DigestRunStage) (e : PipelineError) → Found p s → Result (p, raised e)
  raised-Result p s e (here, sound) = ((s, here, sound), inl (e, refl))

  running-IsSound :
      (s : DigestRunStage)
      → s.status ≡ DigestRunStageStatus.running
      → IsPartial selected (saved_ids s)
      → IsSound s
  running-IsSound s runs partial =
      (partial, inl (subst (λ x. is_completed x ≡ false) (sym runs) refl))

  -- A completed stage, read.
  read-Result :
      (p : Pipeline) (s : DigestRunStage) (result : StageResult)
      → Found p s
      → s.result_data ≡ some result
      → IsComplete selected (saved_ids s)
      → Result (lift (read_summaries result) p)
  read-Result p s result (here, sound) saved complete =
      elim (Outcome-cases (read_summaries result)) [
        | inr (e, refused) ↦ ((s, here, sound), inl (e, refused))
        | inl (o, returned) ↦ (
          (s, here, sound),
          inr (
            o,
            returned,
            subst (λ x. IsComplete selected (ids_of_summaries x))
                (ap saved_summaries saved ∙ read_summaries_lem result returned) complete,
          ),
        )
      ]

  module _ (setting : Setting) (discovery : DiscoveryRelevanceOutput) where
    -- After the last batch: the stage is completed and read.
    abbrev finish_summaries : ℕ → M PaperSummariesOutput
    finish_summaries n = do
      write_stage DigestRunStageType.paper_summaries (complete_summary_stage n setting.now)
      stage ← get_stage DigestRunStageType.paper_summaries
      lift (final_summaries setting stage.result_data)

    finish_summaries-Result :
        (n : ℕ) (p : Pipeline) (s : DigestRunStage)
        → HasStage p s
        → IsPartial selected (saved_ids s)
        → IsComplete selected (saved_ids s)
        → Result (finish_summaries n p)
    unfolding write_stage get_stage complete_summary_stage
    finish_summaries-Result n p s here partial complete =
        let f = complete_summary_stage n setting.now in
        let q = (write_stage DigestRunStageType.paper_summaries f p).0 in
        let (result, saved, same) = or_no_summaries_lem s.result_data in
        let ids : saved_ids (f s) ≡ saved_ids s =
          ap (λ o. map (λ (x : PaperSummary). x.external_id) (saved_summaries o)) saved
          ∙ ap (map (λ (x : PaperSummary). x.external_id)) same in
        let here' = write_stage-HasStage f p s (λ _. refl) here in
        let complete' = subst (IsComplete selected) (sym ids) complete in
        let sound : IsSound (f s) = (subst (IsPartial selected) (sym ids) partial, inr complete') in
        let found : Found q (f s) = (here', sound) in
        rw (here', saved) (read-Result q (f s) result found saved complete')

    start_ids :
        (existing : List PaperSummary) (papers : List EvidencePaper)
        → is_unique selected ≡ true
        → evidence_ids papers ≡ selected
        → IsPartial selected (ids_of_summaries existing)
        → (size : ℕ) → 1 ≤ size
        → Ready selected
            (ids_of_summaries existing)
            (evidence_ids (flatten (batches size (remaining_papers existing papers))))
    start_ids existing papers unique same partial size pos =
        let ids =
          ap evidence_ids (batches_lem size (remaining_papers existing papers) pos).0
          ∙ remaining_papers-ids existing papers
          ∙ ap (keep (λ x. not (contains (ids_of_summaries existing) x))) same in
        subst (Ready selected (ids_of_summaries existing)) (sym ids)
          (Ready-start selected (ids_of_summaries existing) unique partial)

    module _ (documents : Documents) where
      -- The part of `_execute_summaries` from the batches on.
      abbrev batches_part : ℕ → List (List EvidencePaper) → M PaperSummariesOutput
      batches_part n todo = do summarize_batches setting documents n todo; finish_summaries n

      batches_part-Result :
          (n : ℕ) (todo : List (List EvidencePaper)) (p : Pipeline) (s : DigestRunStage)
          → HasStage p s
          → s.status ≡ DigestRunStageStatus.running
          → Ready selected (saved_ids s) (evidence_ids (flatten todo))
          → Result (batches_part n todo p)
      batches_part-Result n todo p s here runs ready =
          let (s', here', runs', partial, ended) =
            summarize_batches-Ends setting documents n selected todo p s here runs ready in
          elim ended [
            | inl (e, refused) ↦
                subst Result
                  (sym (and_then-raised (summarize_batches setting documents n todo p) _ refused))
                  (raised-Result (summarize_batches setting documents n todo p).0 s' e
                    (here', running-IsSound s' runs' partial))
            | inr (done, ready') ↦
                subst Result
                  (sym (and_then-ok (summarize_batches setting documents n todo p) _ done))
                  (finish_summaries-Result n (summarize_batches setting documents n todo p).0 s'
                    here' partial (Ready-IsComplete selected (saved_ids s') ready'))
          ]

    -- The selected papers, and what was saved before.
    module _ (chosen : List SelectedPaper) (known : summary_input discovery ≡ ok chosen)
        (same : selected_ids chosen ≡ selected) (unique : is_unique selected ≡ true)
        (existing : List PaperSummary)
        (partial : IsPartial selected (ids_of_summaries existing)) where
      -- The part from the evidence on.
      abbrev evidence_part : Documents → M PaperSummariesOutput
      evidence_part documents = do
        papers ← lift (
            wrap_error PipelineError.invalid_stage
              (summary_evidence_input discovery (λ id. document_of id documents)))
        todo ←
            lift
              (sized_batches setting setting.summary_batch_size (remaining_papers existing papers))
        batches_part documents (length papers) todo

      abbrev IsBegun : Pipeline → DigestRunStage → Type 0
      IsBegun p s =
          HasStage p s
          × (s.status ≡ DigestRunStageStatus.running)
          × (saved_ids s ≡ ids_of_summaries existing)

      begun-Found : (p : Pipeline) (s : DigestRunStage) → IsBegun p s → Found p s
      begun-Found p s (here, runs, ids) =
          (here, running-IsSound s runs (subst (IsPartial selected) (sym ids) partial))

      sized-Result :
          (documents : Documents) (papers : List EvidencePaper) (p : Pipeline) (s : DigestRunStage)
          → evidence_ids papers ≡ selected
          → IsBegun p s
          → Result (
              and_then
                (lift
                  (sized_batches setting setting.summary_batch_size
                    (remaining_papers existing papers))
                  p)
                (batches_part documents (length papers)))
      sized-Result documents papers p s ids begun =
          elim (Bool-cases (setting.summary_batch_size == 0)) [
            | inl zero_size ↦
                rw zero_size
                  (raised-Result p s PipelineError.bad_batch_size (begun-Found p s begun))
            | inr positive ↦ rw positive (
                batches_part-Result documents (length papers)
                  (batches setting.summary_batch_size (remaining_papers existing papers)) p s
                  begun.0 begun.1
                  (subst
                    (λ x. Ready selected x (
                      evidence_ids (
                        flatten
                          (batches setting.summary_batch_size (remaining_papers existing papers)))))
                    (sym begun.2)
                    (start_ids existing papers unique ids partial setting.summary_batch_size
                      (ground arith))))
          ]

      evidence_part-Result :
          (documents : Documents) (p : Pipeline) (s : DigestRunStage)
          → IsBegun p s
          → Result (evidence_part documents p)
      evidence_part-Result documents p s begun =
          elim (Outcome-cases (summary_evidence_input discovery (λ id. document_of id documents))) [
            | inr (e, refused) ↦
                rw refused
                  (raised-Result p s (PipelineError.invalid_stage e) (begun-Found p s begun))
            | inl (papers, made) ↦ rw made (
                sized-Result documents papers p s
                  (summary_evidence_input-ids discovery (λ id. document_of id documents) known made
                    ∙ same)
                  begun)
          ]

      abbrev begun_stage : DigestRunStage → DigestRunStage
      begun_stage = begin_summaries setting existing (length chosen)

      request_summaries-Result :
          (p : Pipeline) (s : DigestRunStage)
          → HasStage p s
          → Result (request_summaries setting existing discovery p)
      unfolding request_summaries write_stage begin_summaries mark_stage_running
      request_summaries-Result p s here =
          let q = (write_stage DigestRunStageType.paper_summaries begun_stage p).0 in
          let begun : IsBegun q (begun_stage s) =
            (write_stage-HasStage begun_stage p s (λ _. refl) here, refl, refl) in
          elim (Outcome-cases (setting.prepare_content discovery)) [
            | inr (e, refused) ↦
                rw (known, refused)
                  (raised-Result q (begun_stage s) e (begun-Found q (begun_stage s) begun))
            | inl (documents, found) ↦
                rw (known, found) (evidence_part-Result documents q (begun_stage s) begun)
          ]

checkpoint_lem :
    (selected : List String) (s : DigestRunStage) {result : StageResult}
    → (is_completed s.status ≡ false) ⊎ IsComplete selected (saved_ids s)
    → checkpoint s ≡ some result
    → IsComplete selected (saved_ids s) × (s.result_data ≡ some result)
checkpoint_lem selected s (inl other) h = absurd (ground arith)
checkpoint_lem selected s (inr complete) h = (complete, ground arith)

-- The summaries stage of a discovery that selects different papers. It is entered with a stage
-- whose saved summaries are about different selected papers, and about all of them if it is
-- completed. Whatever the provider answers and wherever an error ends it, afterwards the saved
-- summaries are again about different selected papers, and about all of them if the stage is
-- completed, so that a retry may enter with them; where no error is raised, the summaries returned
-- are about exactly the selected papers, each once.
pub execute_summaries_lem :
    (setting : Setting) (discovery : DiscoveryRelevanceOutput) (chosen : List SelectedPaper)
    → summary_input discovery ≡ ok chosen
    → is_unique (selected_ids chosen) ≡ true
    → (p : Pipeline) (s : DigestRunStage) → HasStage p s
    → IsSound (selected_ids chosen) s
    → Result (selected_ids chosen) (execute_summaries setting discovery p)
unfolding execute_summaries get_stage
execute_summaries_lem setting discovery chosen known unique p s here (partial, done) =
    let selected = selected_ids chosen in
    let again =
      request_summaries-Result selected setting discovery chosen known refl unique
        (saved_summaries s.result_data) partial p s here in
    rw here (elim (Option-cases (checkpoint s)) [
      | inl absent ↦ rw absent again
      | inr (result, present) ↦
          let (complete, saved) = checkpoint_lem selected s done present in
          rw present (read-Result selected p s result (here, (partial, done)) saved complete)
    ])
