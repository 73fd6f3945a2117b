-- ===== src/Pipeline/Ownership.antt =====
-- `execute_run` of radar/runner.py ends a run that its worker holds, and leaves one that it has lost
-- to its replacement.
use scientific_research_rada.Prelude.{ℕ, String, Bool, true, false, List, [], some, ◌≡◌, ◌⊎◌}
use scientific_research_rada.Prelude.Outcome.{Outcome}
use scientific_research_rada.Runs.Model.{DigestRun, DigestRunStageType, radar_stage_order}
use scientific_research_rada.Runs.State.{get, is_owned}
use scientific_research_rada.Runs.Lease.{World, Session, RadarClientError}
use scientific_research_rada.Runs.Lifecycle.{fail}
use scientific_research_rada.Runs.Rows.{UniqueIds}
use scientific_research_rada.Pipeline.Model.{Pipeline, Reply}
use scientific_research_rada.Pipeline.Stages.{Setting}
use scientific_research_rada.Pipeline.Execute.{Worker, execute_stages, save_run}
use scientific_research_rada.Pipeline.Unchanged.{kinds}
use scientific_research_rada.Pipeline.Ends.{IsOver}

module _ (worker : Worker) (run_id : ℕ) where
  abbrev start : DigestRun → List Reply → Pipeline
  start run replies = record { run = run; replies = replies; asked = [] }

  -- The row is not the worker's.
  abbrev IsLost : World → Type 0
  IsLost w =
      (r : DigestRun) × (get run_id w.db.runs ≡ some r)
      × (is_owned worker.worker_id r.worker_id ≡ false)

  abbrev failed_run :
      DigestRunStageType
      → Bool
      → String
      → ℕ
      → Session
      → Session × Outcome RadarClientError (Unit {0})
  failed_run stage is_output message papers s =
      fail worker.cut (some worker.worker_id) run_id (some stage) is_output message worker.now
        papers s

  -- Other sessions leave the run in the table, with its four stages, and ids unique.
  pub record OthersKeep (others : World → World) : Type 0 where
    pub unique : (w : World) → UniqueIds w.db.runs → UniqueIds (others w).db.runs
    pub present :
        (w : World) (r : DigestRun)
        → get run_id w.db.runs ≡ some r
        → kinds r ≡ radar_stage_order
        → (r' : DigestRun) × (get run_id (others w).db.runs ≡ some r')
          × (kinds r' ≡ radar_stage_order)

  -- What is committed when the run is read again after its stages.
  abbrev pub after_stages : Setting → List Reply → (World → World) → DigestRun → World → World
  after_stages setting replies others run w =
      others
        (save_run worker run_id (execute_stages setting run (start run replies)).0.run
          (record { committed = w; pending = w })).committed

  -- The row is the worker's and the run is over, or it is not and all is as the others left it.
  abbrev pub EndsOrLeaves : World → Session × Outcome RadarClientError (Unit {0}) → Type 0
  EndsOrLeaves w result =
      (r : DigestRun) × (get run_id w.db.runs ≡ some r)
      × (((is_owned worker.worker_id r.worker_id ≡ true) × IsOver worker run_id result)
          ⊎ ((is_owned worker.worker_id r.worker_id ≡ false) × (result.0.committed ≡ w)))
