-- ===== src/Runs/Steps.antt =====
-- The transactions on the table of runs as steps that any number of workers and requests may take
-- in any order, and what every reachable table satisfies (repositories/run_state_repository.py,
-- radar/lifecycle.py, radar/submission.py; the index `uq_digest_runs_owner_active` of
-- models/digest_run.py).
mod Counts
pub mod Keeps
use scientific_research_rada.Prelude.{
  ℕ, ◌≤◌, String, Bool, true, false, List, [], ◌∷◌, Option, none, some, ◌==◌, ◌&&◌, ◌≡◌, All, ◌⊎◌,
}
use scientific_research_rada.Runs.Model.{
  DigestRun, DigestRunStage, DigestRunStageType, DigestSnapshot, is_active, is_running, is_failed,
}
use scientific_research_rada.Runs.State.{
  Db, update_where, row_count, with_id, holds, claim_update, renew_lease, new_run, mark_completed,
  fail_run,
}
use scientific_research_rada.Runs.Feedback.{save_feedback_if_latest}
use scientific_research_rada.Runs.Lifecycle.{on_stage}
use scientific_research_rada.Runs.Rows.{HasNoId, UniqueIds}
use scientific_research_rada.Runs.Retry.{requeued}

-- The rows that the unique index covers, for one owner.
abbrev pub active_of : ℕ → DigestRun → Bool
active_of owner r = (r.owner_id == owner) && is_active r.status

-- `cut` is the cut of a message to 2000 characters.
module _ (cut : String → String) where
  pub data Step (db : Db) : Db → Type 0 where
    -- `create_running`, flushed: the index has no other active run of the owner.
    created :
        (id now digest owner : ℕ) (snapshot : DigestSnapshot)
        → HasNoId id db.runs
        → row_count (active_of owner) db.runs ≡ 0
        → Step db (record db { runs = new_run id now digest owner snapshot ∷ db.runs })
    -- The second statement of `claim_next`.
    claimed :
        (k : ℕ) (worker : String) (lease now : ℕ) → Step db (claim_update k worker lease now db).0
    renewed : (k : ℕ) (worker : String) (lease : ℕ) → Step db (renew_lease k worker lease db).0
    -- `claim_failed_retry` and `requeue_failed`, flushed under the index.
    retried :
        (k owner : ℕ)
        → All (λ r. with_id k r ≡ true → r.owner_id ≡ owner) db.runs
        → row_count (active_of owner) db.runs ≡ 0
        → Step db (record db {
          runs = update_where (λ r. with_id k r && is_failed r.status) requeued db.runs;
        })
    -- The end of `complete_run`, fenced by a renewal in the same transaction.
    finished :
        (k : ℕ) (worker : String) (now : ℕ)
        → Step db (record db { runs = update_where (holds k worker) (mark_completed now) db.runs })
    -- The write of `fail`, by primary key: it was decided on a row that the transaction read before,
    -- so other sessions may have changed the row since, whatever its worker and status are now.
    aborted :
        (k : ℕ) (stage : DigestRunStageType) (f : DigestRunStage → DigestRunStage)
        (message : String) (at : ℕ)
        → Step db (record db {
          runs =
              update_where (with_id k) (λ r. fail_run cut message at (on_stage stage f r)) db.runs;
        })
    -- The saves of a stage, by primary key and not fenced.
    stage_saved :
        (k : ℕ) (stage : DigestRunStageType) (f : DigestRunStage → DigestRunStage)
        → Step db (record db { runs = update_where (with_id k) (on_stage stage f) db.runs })
    -- The feedback on a completed run, from a row that the request has loaded.
    fed_back :
        (run : DigestRun) (text : String) (now : ℕ)
        → Step db (save_feedback_if_latest run text now db).0

  pub data Reach (db : Db) : Db → Type 0 where
    here : Reach db db
    next : {db' db'' : Db} → Reach db db' → Step db' db'' → Reach db db''

-- A run that no worker executes has no worker and no lease; a running one has a worker.
abbrev pub IsIdle : DigestRun → Type 0
IsIdle r = (is_running r.status ≡ true) ⊎ ((r.worker_id ≡ none) × (r.lease_expires_at ≡ none))

pub record IsConsistent (db : Db) : Type 0 where
  pub unique : UniqueIds db.runs
  pub one_active : (owner : ℕ) → row_count (active_of owner) db.runs ≤ 1
  pub idle : All IsIdle db.runs
