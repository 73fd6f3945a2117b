-- ===== src/Pipeline/Execute.antt =====
-- `execute_run` of radar/runner.py: the four stages, the end of the run, and the report of a failure.
-- What other sessions commit is seen where the runner reads the row again, between the stages and the
-- end of the run: they may have taken the run over. The message of an error, the clock's answers and
-- the sources' verification are arguments.
use scientific_research_rada.Prelude.{ℕ, String, Bool, true, false, List, [], none, some, length}
use scientific_research_rada.Prelude.Outcome.{Outcome, ok, raised, wrap_error}
use scientific_research_rada.Runs.Model.{DigestRun, DigestRunStageType}
use scientific_research_rada.Runs.Lease.{World, Session, commit, RadarClientError}
use scientific_research_rada.Runs.Lifecycle.{
  stage_of, running, assign_run, on_pending, complete_run, fail,
}
use scientific_research_rada.Pipeline.Model.{
  PipelineError, invalid_output, Pipeline, Reply, M, and_then,
}
use scientific_research_rada.Pipeline.Saves.{saved_summaries}
use scientific_research_rada.Pipeline.Stages.{
  Setting, execute_discovery, execute_summaries, execute_trends, execute_briefing,
}

-- An error with the `active_stage` that it ended.
abbrev pub StageFailure : Type 0
StageFailure = DigestRunStageType × PipelineError

abbrev pub Staged : Type 0 → Type 0
Staged A = Pipeline → Pipeline × Outcome StageFailure A

abbrev pub in_stage : {A : Type 0} → DigestRunStageType → M A → Staged A
in_stage stage m p = ((m p).0, wrap_error (λ e. (stage, e)) (m p).1)

module _ (setting : Setting) where
  -- The body of the `try` before the run is completed.
  unfoldable pub execute_stages : DigestRun → Staged (Unit {0})
  execute_stages run p =
      and_then
        (in_stage DigestRunStageType.discovery_relevance
          (execute_discovery setting run.digest_snapshot.maximum_papers
            run.digest_snapshot.reporting_from run.digest_snapshot.reporting_to)
          p)
        λ discovery p1.
          and_then
            (in_stage DigestRunStageType.paper_summaries (execute_summaries setting discovery) p1)
            λ summaries p2.
              and_then
                (in_stage DigestRunStageType.trend_analysis
                  (execute_trends setting discovery summaries) p2)
                λ trend p3.
                  and_then
                    (in_stage DigestRunStageType.digest_briefing
                      (execute_briefing setting discovery summaries) p3)
                    λ briefing p4. (p4, ok tt)

abbrev pub is_output_error : PipelineError → Bool
is_output_error (invalid_output e) = true
is_output_error _ = false

-- The number of summaries that the run has saved.
abbrev pub saved_papers : DigestRun → ℕ
saved_papers run = elim (stage_of DigestRunStageType.paper_summaries run.stages) [
  | none ↦ 0
  | some s ↦ length (saved_summaries s.result_data)
]

-- What `execute_run` is given besides the run: the worker, the ends of its leases, the clock, the
-- verification of the sources, and the texts of errors.
pub record Worker : Type 0 where
  pub worker_id : String
  pub first_lease : ℕ
  pub second_lease : ℕ
  pub now : ℕ
  pub verify : Session → Session
  pub cut : String → String
  pub stage_message : DigestRunStageType → PipelineError → String
  pub client_message : RadarClientError → String

-- What other sessions have committed when the row is read again.
abbrev pub meanwhile : (World → World) → Session → Session
meanwhile others s = record { committed = others s.committed; pending = others s.committed }

module _ (worker : Worker) (run_id : ℕ) where
  -- `self.lifecycle.complete_run(run_id)`; its error is reported for the last stage.
  unfoldable pub complete_or_fail : ℕ → Session → Session × Outcome RadarClientError (Unit {0})
  complete_or_fail papers s =
      let (s', outcome) =
        complete_run (some worker.worker_id) worker.first_lease worker.second_lease worker.now
          worker.verify run_id papers s in
      elim outcome [
        | ok _ ↦ (s', ok tt)
        | raised e ↦
            fail worker.cut (some worker.worker_id) run_id (some DigestRunStageType.digest_briefing)
              false (worker.client_message e) worker.now papers s'
      ]

  unfoldable pub end_run :
      DigestRun
      → Outcome StageFailure (Unit {0})
      → Session
      → Session × Outcome RadarClientError (Unit {0})
  end_run run (ok _) s = complete_or_fail (saved_papers run) s
  end_run run (raised (stage, e)) s =
      fail worker.cut (some worker.worker_id) run_id (some stage) (is_output_error e)
        (worker.stage_message stage e) worker.now (saved_papers run) s

  abbrev pub save_run : DigestRun → Session → Session
  save_run run s = commit (on_pending (assign_run run_id (λ _. run)) s)

  unfoldable pub execute_run :
      Setting
      → List Reply
      → (World → World)
      → Session
      → Session × Outcome RadarClientError (Unit {0})
  unfolding end_run
  execute_run setting replies others s = elim (running run_id s) [
    | none ↦ (s, ok tt)
    | some run ↦
        let (p, outcome) =
          execute_stages setting run (record { run = run; replies = replies; asked = [] }) in
        end_run p.run outcome (meanwhile others (save_run p.run s))
  ]
