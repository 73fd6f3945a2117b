-- ===== src/Runs/Ending.antt =====
-- The transactions that end a run (radar/lifecycle.py) change the run and the ledger together, or
-- leave both.
use mathlib.Core.Path.{subst}
use scientific_research_rada.Prelude.{
  ℕ, String, Bool, true, false, Option, none, some, ◌≡◌, ◌⊎◌, inl, inr, refl, arith, Option-cases,
  zero, suc, ap, sym, ◌≢◌, eq_iff,
}
use scientific_research_rada.Prelude.Outcome.{ok, raised}
use scientific_research_rada.Runs.Model.{DigestRun, DigestRunStageType}
use scientific_research_rada.Runs.State.{
  update_where, with_id, get, is_owned, mark_completed, claim_update, claimed_by,
}
use scientific_research_rada.Runs.Lease.{World, Session, commit, rollback, RadarClientError, renew}
use scientific_research_rada.Runs.Lifecycle.{run_steps, finish_steps, finish_until, fail}
use scientific_research_rada.Runs.Rows.{UniqueIds}
use scientific_research_rada.Runs.Claims.{claimed_row}
use scientific_research_rada.Quota.Ledger.{settle}

-- A renewal does not touch what is committed, nor the ledger where it succeeds.
pub renew_lem :
    (worker : Option String) (lease : ℕ) (run : DigestRun) (s : Session)
    → ((renew worker lease run s).0.committed ≡ s.committed)
      × (((renew worker lease run s).1 ≡ ok tt)
          ⊎ ((e : RadarClientError) × ((renew worker lease run s).1 ≡ raised e)))
unfolding renew rollback
renew_lem none lease run s = ground arith
renew_lem (some worker) lease run s = ground arith

renew-usage :
    (worker : Option String) (lease : ℕ) (run : DigestRun) (s : Session)
    → (renew worker lease run s).1 ≡ ok tt
    → (renew worker lease run s).0.pending.usage ≡ s.pending.usage
unfolding renew
renew-usage none lease run s h = ground arith
renew-usage (some worker) lease run s h = ground arith

-- The committed rows and ledger are those before, or the completion of the run and its settlement
-- are both committed.
abbrev pub IsWhole : Option String → ℕ → ℕ → ℕ → ℕ → Session → Session → Type 0
IsWhole worker lease now run_id papers s s' =
    (s'.committed ≡ s.committed)
    ⊎ (((run : DigestRun) × (get run_id s.pending.db.runs ≡ some run)
          × ((renew worker lease run s).1 ≡ ok tt)
          × (s'.committed.db.runs
              ≡ update_where (with_id run_id) (mark_completed now)
                  (renew worker lease run s).0.pending.db.runs))
        × (s'.committed.usage ≡ settle run_id true papers s.pending.usage))

finish_steps_lem :
    (stop : ℕ) (worker : Option String) (lease now run_id papers : ℕ) (s : Session)
    (run : DigestRun)
    → get run_id s.pending.db.runs ≡ some run
    → (renew worker lease run s).1 ≡ ok tt
    → IsWhole worker lease now run_id papers s
        (run_steps stop (finish_steps now run_id papers) (renew worker lease run s).0)
unfolding finish_steps commit
finish_steps_lem zero worker lease now run_id papers s run found renewed =
    inl (renew_lem worker lease run s).0
finish_steps_lem (suc zero) worker lease now run_id papers s run found renewed =
    inl (renew_lem worker lease run s).0
finish_steps_lem (suc (suc zero)) worker lease now run_id papers s run found renewed =
    inl (renew_lem worker lease run s).0
finish_steps_lem (suc (suc (suc n))) worker lease now run_id papers s run found renewed = inr (
  (run, found, renewed, refl),
  ap (settle run_id true papers) (renew-usage worker lease run s renewed),
)

finish_until-renewed :
    (stop : ℕ) (worker : Option String) (lease now run_id papers : ℕ) (s : Session)
    (run : DigestRun)
    → get run_id s.pending.db.runs ≡ some run
    → (renew worker lease run s).1 ≡ ok tt
    → (finish_until stop worker lease now run_id papers s).0
      ≡ run_steps stop (finish_steps now run_id papers) (renew worker lease run s).0
unfolding finish_until
finish_until-renewed stop worker lease now run_id papers s run found renewed = ground arith

-- The end of a completed run, which may stop after any of its statements: nothing is committed, or
-- the run's renewal held and both the completion and the settlement of the run are committed; never
-- one of the two.
pub finish_lem :
    (stop : ℕ) (worker : Option String) (lease now run_id papers : ℕ) (s : Session)
    → IsWhole worker lease now run_id papers s
        (finish_until stop worker lease now run_id papers s).0
unfolding finish_until
finish_lem stop worker lease now run_id papers s =
    elim (Option-cases (get run_id s.pending.db.runs)) [
      | inl missing ↦ inl (ground (arith, missing))
      | inr (run, found) ↦ elim (renew_lem worker lease run s).1 [
        | inl renewed ↦
            subst (IsWhole worker lease now run_id papers s)
              (sym (finish_until-renewed stop worker lease now run_id papers s run found renewed))
              (finish_steps_lem stop worker lease now run_id papers s run found renewed)
        | inr (e, refused) ↦ inl (ground (arith, found, refused, (renew_lem worker lease run s).0))
      ]
    ]

-- A report of a worker that does not own the committed run is rolled back.
pub fail_fenced :
    (cut : String → String) (worker : String) (run_id : ℕ) (stage : Option DigestRunStageType)
    (is_output_error : Bool) (message : String) (at papers : ℕ) (s : Session) (run : DigestRun)
    → get run_id s.committed.db.runs ≡ some run
    → is_owned worker run.worker_id ≡ false
    → (fail cut (some worker) run_id stage is_output_error message at papers s).0
      ≡ record { committed = s.committed; pending = s.committed }
unfolding fail rollback
fail_fenced cut worker run_id none is_output_error message at papers s run found other = refl
fail_fenced cut worker run_id (some stage) is_output_error message at papers s run found other =
    ground arith

-- A worker whose run another worker has claimed since, after its lease ended, changes nothing by
-- reporting a failure, whatever its open transaction has changed: the row stays the new worker's and
-- the ledger as it was.
pub fail-claim_update :
    (cut : String → String) (old new : String) (run_id lease now : ℕ)
    (stage : Option DigestRunStageType) (is_output_error : Bool) (message : String) (at papers : ℕ)
    (s : Session)
    → UniqueIds s.committed.db.runs
    → old ≢ new
    → (claim_update run_id new lease now s.committed.db).1 ≡ true
    → let w = record (s.committed) { db = (claim_update run_id new lease now s.committed.db).0 } in
      (fail cut
        (some old)
        run_id
        stage
        is_output_error
        message
        at
        papers
        (record s { committed = w })).0
      ≡ record { committed = w; pending = w }
fail-claim_update cut old new run_id lease now stage is_output_error message at papers s unique
      differ claimed =
    let w : World = record (s.committed) {
      db = (claim_update run_id new lease now s.committed.db).0;
    } in
    let (r, found, _, _) = claimed_row run_id s.committed.db unique new lease now claimed in
    fail_fenced cut old run_id stage is_output_error message at papers (record s { committed = w })
      (claimed_by new lease r) found (ground (arith, eq_iff new old))
