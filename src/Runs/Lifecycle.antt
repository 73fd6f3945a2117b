-- ===== src/Runs/Lifecycle.antt =====
-- radar/lifecycle.py: how a stage starts, and the transactions that end a run. The run's status and
-- the ledger's row change in one transaction. The observing ledger, the quality decision and the rows
-- of provider requests are left out; the number of saved summaries, the message of a failure and the cut of a message are
-- arguments.
use scientific_research_rada.Prelude.{
  ℕ, zero, suc, String, Bool, true, false, not, List, [], ◌∷◌, Option, none, some, if◌then◌else◌,
  length,
}
use scientific_research_rada.Prelude.Keyed.{is_some}
use scientific_research_rada.Prelude.Outcome.{Outcome, or_raise, ok, raised}
use scientific_research_rada.Radar.Contracts.{PaperSummary}
use scientific_research_rada.Runs.Model.{
  DigestRun, DigestRunStage, DigestRunStageType, StageResult, is_running,
}
use scientific_research_rada.Runs.State.{
  update_where, with_id, get, is_owned, mark_stage_running, clear_active_response, mark_completed,
  fail_stage, fail_run,
}
use scientific_research_rada.Runs.Lease.{World, Session, commit, rollback, RadarClientError, renew}
use scientific_research_rada.Quota.Ledger.{settle}

abbrev pub same_stage : DigestRunStageType → DigestRunStageType → Bool
same_stage DigestRunStageType.discovery_relevance DigestRunStageType.discovery_relevance = true
same_stage DigestRunStageType.paper_summaries DigestRunStageType.paper_summaries = true
same_stage DigestRunStageType.trend_analysis DigestRunStageType.trend_analysis = true
same_stage DigestRunStageType.digest_briefing DigestRunStageType.digest_briefing = true
same_stage _ _ = false

-- The static method `stage`.
unfoldable pub stage_of : DigestRunStageType → List DigestRunStage → Option DigestRunStage
stage_of wanted [] = none
stage_of wanted (s ∷ rest) =
    let later = stage_of wanted rest in if same_stage s.stage wanted then some s else later

-- `running`
unfoldable pub running : ℕ → Session → Option DigestRun
running run_id s = elim (get run_id s.pending.db.runs) [
  | none ↦ none
  | some run ↦ if is_running run.status then some run else none
]

-- `reload`
unfoldable pub reload : ℕ → Session → Outcome RadarClientError DigestRun
reload run_id s = or_raise (get run_id s.pending.db.runs) RadarClientError.not_reloaded

-- An assignment to that stage of a run.
unfoldable pub change_stage :
    DigestRunStageType
    → (DigestRunStage → DigestRunStage)
    → List DigestRunStage
    → List DigestRunStage
change_stage wanted f [] = []
change_stage wanted f (s ∷ rest) =
    let later = change_stage wanted f rest in
    if same_stage s.stage wanted then f s ∷ rest else s ∷ later

abbrev pub on_stage : DigestRunStageType → (DigestRunStage → DigestRunStage) → DigestRun → DigestRun
on_stage wanted f run = record run { stages = change_stage wanted f run.stages }

-- An assignment to a loaded run, flushed.
abbrev pub assign_run : ℕ → (DigestRun → DigestRun) → World → World
assign_run run_id f w = record w {
  db = record (w.db) { runs = update_where (with_id run_id) f w.db.runs };
}

abbrev pub settle_run : ℕ → Bool → ℕ → World → World
settle_run run_id success papers w = record w { usage = settle run_id success papers w.usage }

abbrev pub on_pending : (World → World) → Session → Session
on_pending f s = record s { pending = f s.pending }

unfoldable pub begin_stage : ℕ → DigestRunStageType → ℕ → ℕ → Session → Session
unfolding commit
begin_stage run_id stage now progress_total s =
    commit
      (on_pending (assign_run run_id (on_stage stage (mark_stage_running now progress_total))) s)

-- `existing` are the summaries that were saved before.
unfoldable pub begin_summaries :
    ℕ → DigestRunStageType → List PaperSummary → ℕ → ℕ → Session → Session
unfolding commit
begin_summaries run_id stage existing now progress_total s =
    let begin = λ (x : DigestRunStage). record (mark_stage_running now progress_total x) {
      result_data = some (StageResult.summaries_result existing);
      progress_current = length existing;
    } in
    commit (on_pending (assign_run run_id (on_stage stage begin)) s)

-- The first `stop` of these statements: then the process or the database may fail.
abbrev pub run_steps : ℕ → List (Session → Session) → Session → Session
run_steps n [] s = s
run_steps zero (f ∷ fs) s = s
run_steps (suc n) (f ∷ fs) s = run_steps n fs (f s)

-- The last transaction of `complete_run`: the settlement, the completion, the commit.
unfoldable pub finish_steps : ℕ → ℕ → ℕ → List (Session → Session)
finish_steps now run_id papers =
    on_pending (settle_run run_id true papers)
    ∷ on_pending (assign_run run_id (mark_completed now))
    ∷ commit
    ∷ []

-- The second part of `complete_run`, after the sources are verified, up to the statement `stop`.
unfoldable pub finish_until :
    ℕ → Option String → ℕ → ℕ → ℕ → ℕ → Session → Session × Outcome RadarClientError (Unit {0})
finish_until stop worker lease now run_id papers s = elim (get run_id s.pending.db.runs) [
  | none ↦ (s, raised RadarClientError.not_reloaded)
  | some run ↦
      let (s', renewed) = renew worker lease run s in
      elim renewed [
        | raised e ↦ (s', raised e)
        | ok _ ↦ (run_steps stop (finish_steps now run_id papers) s', ok tt)
      ]
]

-- Where nothing fails.
abbrev pub finish :
    Option String → ℕ → ℕ → ℕ → ℕ → Session → Session × Outcome RadarClientError (Unit {0})
finish worker lease now run_id papers s = finish_until 3 worker lease now run_id papers s

-- `verify` is what `verify_automatically` and other sessions commit.
unfoldable pub complete_run :
    Option String
    → ℕ
    → ℕ
    → ℕ
    → (Session → Session)
    → ℕ
    → ℕ
    → Session
    → Session × Outcome RadarClientError (Unit {0})
complete_run worker first_lease second_lease now verify run_id papers s =
    elim (get run_id s.pending.db.runs) [
      | none ↦ (s, raised RadarClientError.not_reloaded)
      | some run ↦
          let (s', renewed) = renew worker first_lease run s in
          elim renewed [
            | raised e ↦ (s', raised e)
            | ok _ ↦ finish worker second_lease now run_id papers (verify (commit s'))
          ]
    ]

-- `self.worker_id is not None and failed_run.worker_id != self.worker_id`
abbrev pub lost_run : Option String → DigestRun → Bool
lost_run none run = false
lost_run (some worker) run = not (is_owned worker run.worker_id)

module _ (cut : String → String) where
  abbrev pub mark_failed : ℕ → DigestRunStageType → Bool → String → ℕ → ℕ → World → World
  mark_failed run_id stage is_output_error message at papers w =
      let fail_one = λ (s : DigestRunStage).
        fail_stage cut message at (if is_output_error then clear_active_response s else s) in
      assign_run run_id (λ r. fail_run cut message at (on_stage stage fail_one r))
        (settle_run run_id false papers w)

  -- `fail`, where `is_output_error` is `isinstance(error, RadarOutputValidationError)`.
  unfoldable pub fail :
      Option String
      → ℕ
      → Option DigestRunStageType
      → Bool
      → String
      → ℕ
      → ℕ
      → Session
      → Session × Outcome RadarClientError (Unit {0})
  fail worker run_id none is_output_error message at papers s = (rollback s, ok tt)
  fail worker run_id (some stage) is_output_error message at papers s =
      elim (get run_id (rollback s).pending.db.runs) [
        | none ↦ (rollback s, ok tt)
        | some run ↦
            if lost_run worker run
            then (rollback s, ok tt)
            else if is_some (stage_of stage run.stages)
            then (
              commit (
                  on_pending (mark_failed run_id stage is_output_error message at papers)
                    (rollback s)),
              ok tt,
            )
            else (rollback s, raised RadarClientError.missing_stage)
      ]
