-- ===== src/Runs/Tests.antt =====
-- The theorems on runs at a small table.
use scientific_research_rada.Prelude.{
  String, true, false, [], ◌∷◌, none, some, ◌≡◌, refl, arith, eq_iff, inr,
}
use scientific_research_rada.Runs.Model.{DigestRun, DigestRunStatus, DigestRunTrigger}
use scientific_research_rada.Runs.State.{
  Db, row_count, is_claimable, first_claimable, claim_update, renew_lease,
}
use scientific_research_rada.Runs.Claims.{claim_exclusive, claim_fences}
use scientific_research_rada.Runs.Offer.{IsOffer, first_claimable-IsOffer}
use scientific_research_rada.Runs.Steps.{claimed, Reach, here, next, IsConsistent}
use scientific_research_rada.Runs.Steps.Keeps.{Reach-IsConsistent}

abbrev queued_run : DigestRun
queued_run = record {
  id = 7;
  digest_id = 1;
  owner_id = 3;
  status = DigestRunStatus.queued;
  trigger = DigestRunTrigger.manual;
  digest_snapshot = record { maximum_papers = 10; reporting_from = 100; reporting_to = 130 };
  error_message = none;
  started_at = 50;
  completed_at = none;
  scheduled_for = none;
  worker_id = none;
  lease_expires_at = none;
  request_count = 0;
  feedback_text = none;
  feedback_created_at = none;
  feedback_updated_at = none;
  stages = [];
}

abbrev completed_run : DigestRun
completed_run = record queued_run {
  id = 5;
  owner_id = 4;
  status = DigestRunStatus.completed;
  completed_at = some 40;
}

abbrev db : Db
db = record { runs = queued_run ∷ completed_run ∷ []; is_closing = λ _. false }

abbrev keep_all : String → String
keep_all s = s

claimed_by_a : (claim_update 7 "a" 100 60 db).1 ≡ true
unfolding claim_update row_count is_claimable
claimed_by_a = refl

claim_exclusive_example : (claim_update 7 "b" 200 90 (claim_update 7 "a" 100 60 db).0).1 ≡ false
claim_exclusive_example =
    claim_exclusive 7 db "a" "b" 100 200 60 90 ((refl, tt), (tt, tt)) claimed_by_a (omega arith)

claim_fences_example :
    let db' = (claim_update 7 "a" 100 60 db).0 in
    (renew_lease 7 "z" 300 db' ≡ (db', false)) × ((renew_lease 7 "a" 300 db').1 ≡ true)
claim_fences_example =
    claim_fences 7 db "z" "a" 100 300 60 ((refl, tt), (tt, tt)) (ground (arith, eq_iff "z" "a"))
      claimed_by_a

first_claimable-IsOffer_example : IsOffer db 60 (first_claimable (is_claimable db 60) db.runs)
first_claimable-IsOffer_example = first_claimable-IsOffer db 60

db-IsConsistent : IsConsistent db
unfolding row_count
db-IsConsistent = record {
  unique = ((refl, tt), (tt, tt));
  one_active = λ owner. ground arith;
  idle = (inr (refl, refl), (inr (refl, refl), tt));
}

abbrev claim_path : Reach keep_all db (claim_update 7 "a" 100 60 db).0
claim_path = next here (claimed 7 "a" 100 60)

Reach-IsConsistent_example : IsConsistent (claim_update 7 "a" 100 60 db).0
Reach-IsConsistent_example = Reach-IsConsistent keep_all claim_path db-IsConsistent
