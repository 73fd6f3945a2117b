-- ===== src/Runs/Steps/Keeps.antt =====
-- Every step keeps the table consistent.
use mathlib.Core.Bool.{false≢true}
use scientific_research_rada.Prelude.{
  ℕ, ◌≤◌, String, Bool, true, false, ◌∷◌, some, ◌==◌, ==_iff, ◌&&◌, ◌≡◌, All, arith, refl, sym, ◌∙◌,
  and-true_parts, Bool-cases, All-of_each, All-map_implies, inl, inr,
}
use scientific_research_rada.Runs.Model.{DigestRun, is_failed}
use scientific_research_rada.Runs.State.{
  Db, is_claimable, claimed_by, update_where, row_count, with_id, holds, claim_update, renew_lease,
  new_run, mark_completed, fail_run,
}
use scientific_research_rada.Runs.Feedback.{save_feedback_if_latest, takes_feedback, with_feedback}
use scientific_research_rada.Runs.Lifecycle.{on_stage}
use scientific_research_rada.Runs.Rows.{HasNoId, UniqueIds-update}
use scientific_research_rada.Runs.Retry.{requeued}
use scientific_research_rada.Runs.Steps.{
  active_of, Step, created, claimed, renewed, retried, finished, aborted, stage_saved, fed_back,
  Reach, here, next, IsIdle, IsConsistent,
}
use scientific_research_rada.Runs.Steps.Counts.{
  row_count-update_le, row_count-update_le_add, row_count-with_id_le_one, All-update_where,
}

-- An update that keeps ids, makes no run active and leaves rows idle keeps the table consistent.
update_where-IsConsistent :
    (test : DigestRun → Bool) (f : DigestRun → DigestRun) (db : Db)
    → ((r : DigestRun) → (f r).id ≡ r.id)
    → ((owner : ℕ) (r : DigestRun)
        → test r ≡ true
        → active_of owner (f r) ≡ true
        → active_of owner r ≡ true)
    → ((r : DigestRun) → test r ≡ true → IsIdle r → IsIdle (f r))
    → IsConsistent db
    → IsConsistent (record db { runs = update_where test f db.runs })
update_where-IsConsistent test f db same inactive idle c = record {
  unique = UniqueIds-update test f db.runs same c.unique;
  one_active = λ owner. omega (
    arith,
    row_count-update_le test f (active_of owner) db.runs (All-of_each _ db.runs (inactive owner)),
    c.one_active owner,
  );
  idle = All-update_where IsIdle test f db.runs idle c.idle;
}

claimed-active :
    (db : Db) (now : ℕ) (worker : String) (lease owner : ℕ) (r : DigestRun)
    → is_claimable db now r ≡ true
    → active_of owner (claimed_by worker lease r) ≡ true
    → active_of owner r ≡ true
unfolding is_claimable
claimed-active db now worker lease owner r test h = ground arith

claimed-IsIdle : (worker : String) (lease : ℕ) (r : DigestRun) → IsIdle (claimed_by worker lease r)
claimed-IsIdle worker lease r = ground arith

renewed-IsIdle :
    (k : ℕ) (worker : String) (lease : ℕ) (r : DigestRun)
    → holds k worker r ≡ true
    → IsIdle (record r { lease_expires_at = some lease })
renewed-IsIdle k worker lease r h = ground arith

requeued-IsIdle : (r : DigestRun) → IsIdle (requeued r)
unfolding requeued
requeued-IsIdle r = ground arith

completed-IsIdle : (now : ℕ) (r : DigestRun) → IsIdle (mark_completed now r)
unfolding mark_completed
completed-IsIdle now r = ground arith

completed-inactive :
    (now owner : ℕ) (r : DigestRun) → active_of owner (mark_completed now r) ≡ false
unfolding mark_completed
completed-inactive now owner r = ground arith

module _ (cut : String → String) where
  failed-IsIdle : (message : String) (at : ℕ) (r : DigestRun) → IsIdle (fail_run cut message at r)
  unfolding fail_run
  failed-IsIdle message at r = ground arith

  failed-inactive :
      (message : String) (at owner : ℕ) (r : DigestRun)
      → active_of owner (fail_run cut message at r) ≡ false
  unfolding fail_run
  failed-inactive message at owner r = ground arith

-- A table with one more run, for an owner who had no active run.
created-IsConsistent :
    (db : Db) (run : DigestRun)
    → HasNoId run.id db.runs
    → row_count (active_of run.owner_id) db.runs ≡ 0
    → IsIdle run
    → IsConsistent db
    → IsConsistent (record db { runs = run ∷ db.runs })
unfolding row_count
created-IsConsistent db run fresh none_active idle c = record {
  unique = (fresh, c.unique);
  one_active = one_more;
  idle = (idle, c.idle);
}
  where
    one_more : (owner : ℕ) → row_count (active_of owner) (run ∷ db.runs) ≤ 1
    one_more owner = elim (Bool-cases (run.owner_id == owner)) [
      | inl same ↦
          let none_here : row_count (active_of owner) db.runs ≡ 0 =
            rw ((==_iff run.owner_id owner).0 same) at none_active in
          ground arith
      | inr other ↦ ground (arith, c.one_active owner)
    ]

-- A retried run is its owner's, so it makes no run of another owner active.
retried_owner :
    (k owner owner' : ℕ) (r : DigestRun)
    → (owner == owner') ≡ false
    → (with_id k r ≡ true → r.owner_id ≡ owner)
    → (with_id k r && is_failed r.status) ≡ true
    → active_of owner' (requeued r) ≡ true
    → active_of owner' r ≡ true
unfolding requeued
retried_owner k owner owner' r other owned test h = ground arith

retried-IsConsistent :
    (db : Db) (k owner : ℕ)
    → All (λ r. with_id k r ≡ true → r.owner_id ≡ owner) db.runs
    → row_count (active_of owner) db.runs ≡ 0
    → IsConsistent db
    → IsConsistent (record db {
      runs = update_where (λ r. with_id k r && is_failed r.status) requeued db.runs;
    })
retried-IsConsistent db k owner owners none_active c = record {
  unique =
      UniqueIds-update (λ r. with_id k r && is_failed r.status) requeued db.runs
        (λ r. unfold requeued in refl) c.unique;
  one_active = one_more;
  idle =
      All-update_where IsIdle (λ r. with_id k r && is_failed r.status) requeued db.runs
        (λ r _ _. requeued-IsIdle r) c.idle;
}
  where
    one_more :
        (owner' : ℕ)
        → row_count
            (active_of owner')
            (update_where (λ r. with_id k r && is_failed r.status) requeued db.runs)
          ≤ 1
    one_more owner' = elim (Bool-cases (owner == owner')) [
      | inl same ↦
          let none_here : row_count (active_of owner') db.runs ≡ 0 =
            rw ((==_iff owner owner').0 same) at none_active in
          omega (
            arith,
            row_count-update_le_add (λ r. with_id k r && is_failed r.status) requeued
                (active_of owner') db.runs,
            row_count-with_id_le_one k (λ r. is_failed r.status) db.runs c.unique,
          )
      | inr other ↦ omega (
        arith,
        c.one_active owner',
        row_count-update_le (λ r. with_id k r && is_failed r.status) requeued (active_of owner')
            db.runs
            (All-map_implies _ _ db.runs (λ r owned. retried_owner k owner owner' r other owned)
              owners),
      )
    ]

module _ (cut : String → String) where
  -- Every step keeps the table consistent.
  pub Step-IsConsistent : {db db' : Db} → Step cut db db' → IsConsistent db → IsConsistent db'
  Step-IsConsistent {db} (created id now digest owner snapshot fresh none_active) c =
      created-IsConsistent db (new_run id now digest owner snapshot) (unfold new_run in fresh)
        (unfold new_run in none_active) (unfold new_run in ground arith) c
  Step-IsConsistent {db} (claimed k worker lease now) c =
      unfold claim_update in
      update_where-IsConsistent (λ r. with_id k r && is_claimable db now r)
        (claimed_by worker lease) db (λ r. refl)
        (λ owner r test.
          claimed-active db now worker lease owner r
            (and-true_parts (with_id k r) (is_claimable db now r) test).1)
        (λ r _ _. claimed-IsIdle worker lease r) c
  Step-IsConsistent {db} (renewed k worker lease) c =
      unfold renew_lease in
      update_where-IsConsistent (holds k worker) (λ r. record r { lease_expires_at = some lease })
        db (λ r. refl) (λ owner r _ h. h) (λ r test _. renewed-IsIdle k worker lease r test) c
  Step-IsConsistent {db} (retried k owner owners none_active) c =
      retried-IsConsistent db k owner owners none_active c
  Step-IsConsistent {db} (finished k worker now) c =
      update_where-IsConsistent (holds k worker) (mark_completed now) db
        (λ r. unfold mark_completed in refl)
        (λ owner r _ h. absurd (false≢true (sym (completed-inactive now owner r) ∙ h)))
        (λ r _ _. completed-IsIdle now r) c
  Step-IsConsistent {db} (aborted k stage f message at) c =
      update_where-IsConsistent (with_id k) (λ r. fail_run cut message at (on_stage stage f r)) db
        (λ r. unfold fail_run in refl)
        (λ owner r _ h.
          absurd (false≢true (sym (failed-inactive cut message at owner (on_stage stage f r)) ∙ h)))
        (λ r _ _. failed-IsIdle cut message at (on_stage stage f r)) c
  Step-IsConsistent {db} (stage_saved k stage f) c =
      update_where-IsConsistent (with_id k) (on_stage stage f) db (λ r. refl) (λ owner r _ h. h)
        (λ r _ idle. idle) c
  Step-IsConsistent {db} (fed_back run text now) c =
      unfold save_feedback_if_latest with_feedback in
      update_where-IsConsistent (takes_feedback db run) (with_feedback run text now) db (λ r. refl)
        (λ owner r _ h. h) (λ r _ idle. idle) c

  -- From a consistent table, whatever the workers and the requests do, in any order, every owner has
  -- at most one queued or running run, ids stay unique, and a run that is not running has neither a
  -- worker nor a lease.
  pub Reach-IsConsistent : {db db' : Db} → Reach cut db db' → IsConsistent db → IsConsistent db'
  Reach-IsConsistent here c = c
  Reach-IsConsistent (next r s) c = Step-IsConsistent s (Reach-IsConsistent r c)
