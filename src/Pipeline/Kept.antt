-- ===== src/Pipeline/Kept.antt =====
-- What an execution of the stages (radar/runner.py) does not change in a run: its id, its worker and
-- the kinds of its stages.
use scientific_research_rada.Prelude.{length}
use scientific_research_rada.Prelude.Outcome.{wrap_error}
use scientific_research_rada.Radar.StageInputs.{
  summary_input, summary_evidence_input, trend_input, briefing_input,
}
use scientific_research_rada.Radar.Evidence.{document_of}
use scientific_research_rada.Pipeline.Saves
use scientific_research_rada.Pipeline.Execute.{in_stage, execute_stages}
use scientific_research_rada.Prelude.{ℕ, String, List, [], ◌∷◌, Option, none, some, ◌≡◌, refl}
use scientific_research_rada.Prelude.Outcome.{Outcome, ok, raised}
use scientific_research_rada.Radar.Contracts.{
  DiscoveryRelevanceOutput, PaperSummary, PaperSummariesOutput,
}
use scientific_research_rada.Radar.StageInputs.{EvidencePaper}
use scientific_research_rada.Radar.Evidence.{Documents}
use scientific_research_rada.Runs.Model.{
  DigestRun, DigestRunStage, DigestRunStageType, StageResult, discovery_result, trend_result,
  briefing_result,
}
use scientific_research_rada.Runs.State.{mark_stage_running}
use scientific_research_rada.Pipeline.Model.{
  PipelineError, Pipeline, ◌>>=◌, ◌>>◌, pure, lift, get_stage, write_stage, ask,
}
use scientific_research_rada.Pipeline.Saves.{
  complete_stage, record_result_metadata, save_summary_batch, complete_summary_stage,
}
use scientific_research_rada.Pipeline.Accept.{
  checkpoint, evidence_ids, remaining_papers, accept_discovery, accept_batch, accept_trend,
  accept_briefing,
}
use scientific_research_rada.Pipeline.Stages
use scientific_research_rada.Pipeline.Stages.{
  Setting, begin_summaries, request_discovery, resume_discovery, execute_discovery, summarize_batch,
  summarize_batches, request_summaries, resume_summaries, execute_summaries, request_trends,
  resume_trends, execute_trends, request_briefing, resume_briefing, execute_briefing,
}
use scientific_research_rada.Pipeline.Unchanged.{
  AlwaysKeeps, Keeps, and_then-Keeps, ask-Keeps, bind-Keeps, complete_stage-kind, get_stage-Keeps,
  lift-Keeps, mark_stage_running-kind, then-Keeps, write_stage-Keeps,
}

module _ (setting : Setting) where
  begin-Keeps : (stage : DigestRunStageType) → AlwaysKeeps (Stages.begin setting stage)
  begin-Keeps stage =
      write_stage-Keeps stage (mark_stage_running setting.now 1)
        (mark_stage_running-kind setting.now 1)

  -- The end of a stage: an accepted answer is saved.
  save-Keeps :
      {A : Type 0} (stage : DigestRunStageType) (result : A → StageResult)
      (accepted : Outcome PipelineError (Option String × A))
      → AlwaysKeeps (do
        (id, saved) ← lift accepted
        write_stage stage (complete_stage (result saved) id setting.now)
        pure saved)
  unfolding write_stage
  save-Keeps stage result (raised e) p = (refl, refl, refl)
  save-Keeps stage result (ok (id, saved)) p =
      write_stage-Keeps stage (complete_stage (result saved) id setting.now)
        (complete_stage-kind (result saved) id setting.now) p

  request_discovery-Keeps :
      (maximum from to : ℕ) → AlwaysKeeps (request_discovery setting maximum from to)
  unfolding request_discovery
  request_discovery-Keeps maximum from to =
      let stage = DigestRunStageType.discovery_relevance in
      bind-Keeps (Stages.begin setting stage) _ (begin-Keeps stage) λ _.
        bind-Keeps (ask stage []) _ (ask-Keeps stage []) λ reply.
          save-Keeps stage discovery_result
            (accept_discovery setting.date_text maximum from to reply)

  execute_discovery-Keeps :
      (maximum from to : ℕ) → AlwaysKeeps (execute_discovery setting maximum from to)
  unfolding execute_discovery
  execute_discovery-Keeps maximum from to =
      bind-Keeps (get_stage DigestRunStageType.discovery_relevance) _
        (get_stage-Keeps DigestRunStageType.discovery_relevance) λ stage. resume (checkpoint stage)
    where
      resume : (o : Option StageResult) → AlwaysKeeps (resume_discovery setting o maximum from to)
      resume none p = request_discovery-Keeps maximum from to p
      resume (some result) p = (refl, refl, refl)

  request_trends-Keeps :
      (discovery : DiscoveryRelevanceOutput) (summaries : PaperSummariesOutput)
      → AlwaysKeeps (request_trends setting discovery summaries)
  unfolding request_trends
  request_trends-Keeps discovery summaries =
      let stage = DigestRunStageType.trend_analysis in
      bind-Keeps (Stages.begin setting stage) _ (begin-Keeps stage) λ _.
        then-Keeps (wrap_error PipelineError.invalid_stage (trend_input discovery summaries)) _
          λ papers.
            bind-Keeps (ask stage (Stages.trend_ids setting papers)) _ (ask-Keeps stage _)
              λ reply. save-Keeps stage trend_result (accept_trend summaries.paper_summaries reply)

  execute_trends-Keeps :
      (discovery : DiscoveryRelevanceOutput) (summaries : PaperSummariesOutput)
      → AlwaysKeeps (execute_trends setting discovery summaries)
  unfolding execute_trends
  execute_trends-Keeps discovery summaries =
      bind-Keeps (get_stage DigestRunStageType.trend_analysis) _
        (get_stage-Keeps DigestRunStageType.trend_analysis) λ stage. resume (checkpoint stage)
    where
      resume : (o : Option StageResult) → AlwaysKeeps (resume_trends setting o discovery summaries)
      resume none p = request_trends-Keeps discovery summaries p
      resume (some result) p = (refl, refl, refl)

  request_briefing-Keeps :
      (discovery : DiscoveryRelevanceOutput) (summaries : PaperSummariesOutput)
      → AlwaysKeeps (request_briefing setting discovery summaries)
  unfolding request_briefing
  request_briefing-Keeps discovery summaries =
      let stage = DigestRunStageType.digest_briefing in
      bind-Keeps (Stages.begin setting stage) _ (begin-Keeps stage) λ _.
        then-Keeps (wrap_error PipelineError.invalid_stage (briefing_input discovery summaries)) _
          λ papers.
            bind-Keeps (ask stage (Stages.briefing_ids setting papers)) _ (ask-Keeps stage _)
              λ reply.
                save-Keeps stage briefing_result (accept_briefing summaries.paper_summaries reply)

  execute_briefing-Keeps :
      (discovery : DiscoveryRelevanceOutput) (summaries : PaperSummariesOutput)
      → AlwaysKeeps (execute_briefing setting discovery summaries)
  unfolding execute_briefing
  execute_briefing-Keeps discovery summaries =
      bind-Keeps (get_stage DigestRunStageType.digest_briefing) _
        (get_stage-Keeps DigestRunStageType.digest_briefing) λ stage. resume (checkpoint stage)
    where
      resume :
          (o : Option StageResult) → AlwaysKeeps (resume_briefing setting o discovery summaries)
      resume none p = request_briefing-Keeps discovery summaries p
      resume (some result) p = (refl, refl, refl)

  begin_summaries-kind :
      (existing : List PaperSummary) (total : ℕ) (s : DigestRunStage)
      → (begin_summaries setting existing total s).stage ≡ s.stage
  unfolding begin_summaries mark_stage_running
  begin_summaries-kind existing total s = refl

  batch-kind :
      (saved : List PaperSummary) (id : Option String) (total : ℕ) (s : DigestRunStage)
      → (save_summary_batch saved id total s).stage ≡ s.stage
  unfolding save_summary_batch
  batch-kind saved id total s = refl

  summarize_batch-Keeps :
      (documents : Documents) (total : ℕ) (batch : List EvidencePaper)
      → AlwaysKeeps (summarize_batch setting documents total batch)
  unfolding summarize_batch
  summarize_batch-Keeps documents total batch =
      let stage = DigestRunStageType.paper_summaries in
      bind-Keeps (ask stage (evidence_ids batch)) _ (ask-Keeps stage (evidence_ids batch)) λ reply.
        then-Keeps (accept_batch documents batch reply) _
          λ x. write_stage-Keeps stage (save_summary_batch x.1 x.0 total) (batch-kind x.1 x.0 total)

  summarize_batches-Keeps :
      (documents : Documents) (total : ℕ) (bs : List (List EvidencePaper))
      → AlwaysKeeps (summarize_batches setting documents total bs)
  unfolding summarize_batches
  summarize_batches-Keeps documents total [] p = (refl, refl, refl)
  summarize_batches-Keeps documents total (b ∷ bs) p =
      and_then-Keeps p.run (summarize_batch setting documents total b p) _
        (summarize_batch-Keeps documents total b p)
        λ _ q. summarize_batches-Keeps documents total bs q

  complete_kind :
      (total : ℕ) (s : DigestRunStage)
      → (complete_summary_stage total setting.now s).stage ≡ s.stage
  unfolding complete_summary_stage
  complete_kind total s = refl

  request_summaries-Keeps :
      (existing : List PaperSummary) (discovery : DiscoveryRelevanceOutput)
      → AlwaysKeeps (request_summaries setting existing discovery)
  unfolding request_summaries
  request_summaries-Keeps existing discovery =
      let stage = DigestRunStageType.paper_summaries in
      then-Keeps (wrap_error PipelineError.invalid_stage (summary_input discovery)) _ λ chosen.
        bind-Keeps (write_stage stage (begin_summaries setting existing (length chosen))) _
          (write_stage-Keeps stage _ (begin_summaries-kind existing (length chosen)))
          λ _. then-Keeps (setting.prepare_content discovery) _ λ documents. after documents
    where
      after :
          (documents : Documents)
          → AlwaysKeeps (do
            papers ← lift (
                wrap_error PipelineError.invalid_stage
                  (summary_evidence_input discovery (λ id. document_of id documents)))
            todo ← lift (
                Stages.sized_batches setting setting.summary_batch_size
                  (remaining_papers existing papers))
            summarize_batches setting documents (length papers) todo
            write_stage DigestRunStageType.paper_summaries
                (complete_summary_stage (length papers) setting.now)
            stage ← get_stage DigestRunStageType.paper_summaries
            lift (Stages.final_summaries setting stage.result_data))
      after documents =
          then-Keeps
            (wrap_error PipelineError.invalid_stage
              (summary_evidence_input discovery (λ id. document_of id documents)))
            _
            λ papers.
              then-Keeps
                (Stages.sized_batches setting setting.summary_batch_size
                  (remaining_papers existing papers))
                _
                λ todo.
                  bind-Keeps (summarize_batches setting documents (length papers) todo) _
                    (summarize_batches-Keeps documents (length papers) todo)
                    λ _.
                      bind-Keeps
                        (write_stage DigestRunStageType.paper_summaries
                          (complete_summary_stage (length papers) setting.now))
                        _
                        (write_stage-Keeps DigestRunStageType.paper_summaries _
                          (complete_kind (length papers)))
                        λ _.
                          bind-Keeps (get_stage DigestRunStageType.paper_summaries) _
                            (get_stage-Keeps DigestRunStageType.paper_summaries)
                            λ stage. lift-Keeps (Stages.final_summaries setting stage.result_data)

  execute_summaries-Keeps :
      (discovery : DiscoveryRelevanceOutput) → AlwaysKeeps (execute_summaries setting discovery)
  unfolding execute_summaries
  execute_summaries-Keeps discovery =
      bind-Keeps (get_stage DigestRunStageType.paper_summaries) _
        (get_stage-Keeps DigestRunStageType.paper_summaries)
        λ stage. resume (checkpoint stage) (Saves.saved_summaries stage.result_data)
    where
      resume :
          (o : Option StageResult) (existing : List PaperSummary)
          → AlwaysKeeps (resume_summaries setting o existing discovery)
      resume none existing p = request_summaries-Keeps existing discovery p
      resume (some result) existing p = (refl, refl, refl)

  -- An execution of the four stages keeps the run's id, its worker and the kinds of its stages.
  pub execute_stages-Keeps :
      (run : DigestRun) (p : Pipeline) → Keeps p.run (execute_stages setting run p).0.run
  unfolding execute_stages
  execute_stages-Keeps run p =
      let s = run.digest_snapshot in
      and_then-Keeps p.run
        (in_stage DigestRunStageType.discovery_relevance
          (execute_discovery setting s.maximum_papers s.reporting_from s.reporting_to) p)
        _ (execute_discovery-Keeps s.maximum_papers s.reporting_from s.reporting_to p)
        λ discovery p1.
          and_then-Keeps p1.run
            (in_stage DigestRunStageType.paper_summaries (execute_summaries setting discovery) p1) _
            (execute_summaries-Keeps discovery p1)
            λ summaries p2.
              and_then-Keeps p2.run
                (in_stage DigestRunStageType.trend_analysis
                  (execute_trends setting discovery summaries) p2)
                _ (execute_trends-Keeps discovery summaries p2)
                λ trend p3.
                  and_then-Keeps p3.run
                    (in_stage DigestRunStageType.digest_briefing
                      (execute_briefing setting discovery summaries) p3)
                    _ (execute_briefing-Keeps discovery summaries p3)
                    λ briefing p4. (refl, refl, refl)
