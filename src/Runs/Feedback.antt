-- ===== src/Runs/Feedback.antt =====
-- `save_feedback_if_latest` of repositories/digest_run_repository.py: the one statement that writes a
-- run after its completion.
use scientific_research_rada.Prelude.{
  ℕ, String, Bool, true, false, not, Option, none, some, ltb, ◌==◌, ◌&&◌, ◌||◌, any,
}
use scientific_research_rada.Runs.Model.{DigestRun, DigestRunStatus}
use scientific_research_rada.Runs.State.{Db, update_where, row_count, with_id}

abbrev pub has_completed : DigestRunStatus → Bool
has_completed DigestRunStatus.completed = true
has_completed _ = false

-- A run of the same digest that was started later, or at the same time with a larger id.
unfoldable pub is_newer : DigestRun → DigestRun → Bool
is_newer run newer =
    newer.digest_id == run.digest_id
    && (ltb run.started_at newer.started_at
        || (newer.started_at == run.started_at && ltb run.id newer.id))

abbrev pub or_now : ℕ → Option ℕ → ℕ
or_now now none = now
or_now now (some t) = t

unfoldable pub with_feedback : DigestRun → String → ℕ → DigestRun → DigestRun
with_feedback run text now r = record r {
  feedback_text = some text;
  feedback_created_at = some (or_now now run.feedback_created_at);
  feedback_updated_at = some now;
}

abbrev pub takes_feedback : Db → DigestRun → DigestRun → Bool
takes_feedback db run r =
    with_id run.id r && (has_completed r.status && not (any (is_newer run) db.runs))

-- `run` is the row as the request has loaded it.
unfoldable pub save_feedback_if_latest : DigestRun → String → ℕ → Db → Db × Bool
save_feedback_if_latest run text now db = (
  record db { runs = update_where (takes_feedback db run) (with_feedback run text now) db.runs },
  row_count (takes_feedback db run) db.runs == 1,
)
