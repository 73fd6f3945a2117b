-- ===== src/Runs/State.antt =====
-- repositories/run_state_repository.py: each method is one or two SQL statements on the table of
-- runs, or assignments to the loaded run.
use scientific_research_rada.Prelude.{
  ℕ, ◌+◌, String, Bool, true, false, List, [], ◌∷◌, Option, none, some, ltb, ◌==◌, ◌&&◌, ◌||◌, not,
  str_eq, if◌then◌else◌,
}
use scientific_research_rada.Runs.Model.{
  DigestRun, DigestRunStage, DigestRunStatus, DigestRunStageStatus, DigestRunStageType,
  DigestRunTrigger, DigestSnapshot, is_active, is_running, is_failed, radar_stage_order,
}

-- The committed rows, and the users with a `closure_requested_at`.
pub record Db : Type 0 where
  pub runs : List DigestRun
  pub is_closing : ℕ → Bool

-- `lease_expires_at IS NULL OR lease_expires_at < now`
abbrev pub is_free : ℕ → Option ℕ → Bool
is_free now none = true
is_free now (some t) = ltb t now

-- The `WHERE` clause of both statements of `claim_next`.
unfoldable pub is_claimable : Db → ℕ → DigestRun → Bool
is_claimable db now r =
    not (db.is_closing r.owner_id) && is_active r.status && is_free now r.lease_expires_at

-- `ORDER BY started_at, id`
abbrev pub is_before : DigestRun → DigestRun → Bool
is_before a b = ltb a.started_at b.started_at || (a.started_at == b.started_at && ltb a.id b.id)

abbrev pub earlier : DigestRun → Option DigestRun → DigestRun
earlier r none = r
earlier r (some s) = if is_before s r then s else r

-- The first statement: the first claimable run.
unfoldable pub first_claimable : (DigestRun → Bool) → List DigestRun → Option DigestRun
first_claimable test [] = none
first_claimable test (r ∷ rs) =
    let rest = first_claimable test rs in if test r then some (earlier r rest) else rest

-- `UPDATE ... WHERE test`: the new rows and the row count.
unfoldable pub update_where :
    (DigestRun → Bool) → (DigestRun → DigestRun) → List DigestRun → List DigestRun
update_where test f [] = []
update_where test f (r ∷ rs) = (if test r then f r else r) ∷ update_where test f rs

unfoldable pub row_count : (DigestRun → Bool) → List DigestRun → ℕ
row_count test [] = 0
row_count test (r ∷ rs) = (if test r then 1 else 0) + row_count test rs

abbrev pub with_id : ℕ → DigestRun → Bool
with_id k r = r.id == k

unfoldable pub get : ℕ → List DigestRun → Option DigestRun
get k [] = none
get k (r ∷ rs) = let rest = get k rs in if r.id == k then some r else rest

abbrev pub claimed_by : String → ℕ → DigestRun → DigestRun
claimed_by worker lease r = record r {
  status = DigestRunStatus.running;
  worker_id = some worker;
  lease_expires_at = some lease;
}

-- The second statement, a compare-and-swap on the candidate's row.
unfoldable pub claim_update : ℕ → String → ℕ → ℕ → Db → Db × Bool
claim_update candidate worker lease now db =
    let test = λ (r : DigestRun). with_id candidate r && is_claimable db now r in
    (
      record db { runs = update_where test (claimed_by worker lease) db.runs },
      row_count test db.runs == 1,
    )

-- `claim_next`. Between the two statements other sessions commit: `others` is what they do.
unfoldable pub claim_next : String → ℕ → ℕ → (Db → Db) → Db → Db × Option DigestRun
claim_next worker lease now others db = elim (first_claimable (is_claimable db now) db.runs) [
  | none ↦ (db, none)
  | some candidate ↦
      let (db', claimed) = claim_update candidate.id worker lease now (others db) in
      (db', if claimed then get candidate.id db'.runs else none)
]

abbrev pub is_owned : String → Option String → Bool
is_owned worker none = false
is_owned worker (some w) = str_eq w worker

abbrev pub holds : ℕ → String → DigestRun → Bool
holds run_id worker r = with_id run_id r && (is_owned worker r.worker_id && is_running r.status)

unfoldable pub renew_lease : ℕ → String → ℕ → Db → Db × Bool
renew_lease run_id worker lease db = (
  record db {
    runs =
        update_where (holds run_id worker) (λ r. record r { lease_expires_at = some lease })
          db.runs;
  },
  row_count (holds run_id worker) db.runs == 1,
)

unfoldable pub claim_failed_retry : ℕ → Db → Db × Bool
claim_failed_retry run_id db =
    let test = λ (r : DigestRun). with_id run_id r && is_failed r.status in
    (
      record db {
        runs = update_where test (λ r. record r { status = DigestRunStatus.queued }) db.runs;
      },
      row_count test db.runs == 1,
    )

-- The stages of a new run: `position` counts from 1.
abbrev pub pending_stage : DigestRunStageType → ℕ → DigestRunStage
pending_stage stage position = record {
  stage = stage;
  position = position;
  status = DigestRunStageStatus.pending;
  progress_current = 0;
  progress_total = 1;
  result_data = none;
  error_message = none;
  active_response_id = none;
  response_ids = [];
  started_at = none;
  completed_at = none;
}

unfoldable pub new_stages : ℕ → List DigestRunStageType → List DigestRunStage
new_stages position [] = []
new_stages position (s ∷ rest) = pending_stage s position ∷ new_stages (position + 1) rest

-- `create_running` before its row is added; `id` and `now` come from `uuid4` and the clock.
unfoldable pub new_run : ℕ → ℕ → ℕ → ℕ → DigestSnapshot → DigestRun
unfolding new_stages
new_run id now digest_id owner_id snapshot = record {
  id = id;
  digest_id = digest_id;
  owner_id = owner_id;
  status = DigestRunStatus.queued;
  trigger = DigestRunTrigger.manual;
  digest_snapshot = snapshot;
  error_message = none;
  started_at = now;
  completed_at = none;
  scheduled_for = none;
  worker_id = none;
  lease_expires_at = none;
  request_count = 0;
  feedback_text = none;
  feedback_created_at = none;
  feedback_updated_at = none;
  stages = new_stages 1 radar_stage_order;
}

unfoldable pub mark_stage_running : ℕ → ℕ → DigestRunStage → DigestRunStage
mark_stage_running now progress_total stage = record stage {
  status = DigestRunStageStatus.running;
  progress_current = 0;
  progress_total = progress_total;
  error_message = none;
  started_at = some now;
  completed_at = none;
}

unfoldable pub clear_active_response : DigestRunStage → DigestRunStage
clear_active_response stage = record stage { active_response_id = none }

unfoldable pub mark_completed : ℕ → DigestRun → DigestRun
mark_completed now run = record run {
  status = DigestRunStatus.completed;
  error_message = none;
  completed_at = some now;
  worker_id = none;
  lease_expires_at = none;
}

-- `message[:2000]` is `cut message`.
module _ (cut : String → String) where
  unfoldable pub fail_stage : String → ℕ → DigestRunStage → DigestRunStage
  fail_stage message at stage = record stage {
    status = DigestRunStageStatus.failed;
    error_message = some (cut message);
    completed_at = some at;
  }

  unfoldable pub fail_run : String → ℕ → DigestRun → DigestRun
  fail_run message at run = record run {
    status = DigestRunStatus.failed;
    error_message = some (cut message);
    completed_at = some at;
    worker_id = none;
    lease_expires_at = none;
  }
