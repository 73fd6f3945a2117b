-- ===== src/Runs/EndingTests.antt =====
-- The ends of a run in a session with one running run.
use scientific_research_rada.Prelude.{true, false, [], ◌∷◌, none, some, ◌≡◌, refl, arith, eq_iff}
use scientific_research_rada.Runs.Model.{
  DigestRun, DigestRunStatus, DigestRunTrigger, DigestRunStageType,
}
use scientific_research_rada.Runs.State.{claim_update, row_count, is_claimable}
use scientific_research_rada.Runs.Lease.{World, Session}
use scientific_research_rada.Runs.Lifecycle.{finish_until, fail}
use scientific_research_rada.Runs.Ending.{IsWhole, finish_lem, fail-claim_update}

abbrev running_run : DigestRun
running_run = record {
  id = 7;
  digest_id = 1;
  owner_id = 3;
  status = DigestRunStatus.running;
  trigger = DigestRunTrigger.manual;
  digest_snapshot = record { maximum_papers = 10; reporting_from = 100; reporting_to = 130 };
  error_message = none;
  started_at = 50;
  completed_at = none;
  scheduled_for = none;
  worker_id = some "a";
  lease_expires_at = some 90;
  request_count = 0;
  feedback_text = none;
  feedback_created_at = none;
  feedback_updated_at = none;
  stages = [];
}

abbrev world : World
world = record { db = record { runs = running_run ∷ []; is_closing = λ _. false }; usage = [] }

abbrev session : Session
session = record { committed = world; pending = world }

finish_lem_example :
    IsWhole (some "a") 100 60 7 3 session (finish_until 2 (some "a") 100 60 7 3 session).0
finish_lem_example = finish_lem 2 (some "a") 100 60 7 3 session

claimed_by_b : (claim_update 7 "b" 200 95 world.db).1 ≡ true
unfolding claim_update row_count is_claimable
claimed_by_b = refl

abbrev taken : World
taken = record world { db = (claim_update 7 "b" 200 95 world.db).0 }

fail-claim_update_example :
    (fail
      (λ s. s)
      (some "a")
      7
      (some DigestRunStageType.paper_summaries)
      false
      "Failed."
      96
      0
      (record session { committed = taken })).0
    ≡ record { committed = taken; pending = taken }
fail-claim_update_example =
    fail-claim_update (λ s. s) "a" "b" 7 200 95 (some DigestRunStageType.paper_summaries) false
      "Failed." 96 0 session (tt, tt) (ground (arith, eq_iff "a" "b")) claimed_by_b
