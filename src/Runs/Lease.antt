-- ===== src/Runs/Lease.antt =====
-- radar/lease.py, over a session: the committed state, and the state with the open transaction's
-- changes.
use scientific_research_rada.Prelude.{ℕ, String, Option, none, some, if◌then◌else◌}
use scientific_research_rada.Prelude.Outcome.{Outcome, ok, raised, raise_if}
use scientific_research_rada.Runs.Model.{DigestRun}
use scientific_research_rada.Runs.State.{Db, renew_lease}
use scientific_research_rada.Quota.Model.{Ledger}

pub record World : Type 0 where
  pub db : Db
  pub usage : Ledger

pub record Session : Type 0 where
  pub committed : World
  pub pending : World

unfoldable pub commit : Session → Session
commit s = record { committed = s.pending; pending = s.pending }

unfoldable pub rollback : Session → Session
rollback s = record { committed = s.committed; pending = s.committed }

-- The `RadarClientError` of a closing account, of a lost lease and of a run that is gone.
pub data RadarClientError : Type 0 where
  account_closing lease_lost not_reloaded missing_stage : RadarClientError

-- `renew`, where the lease is to end at `lease`. The run's row was loaded before.
unfoldable pub renew :
    Option String → ℕ → DigestRun → Session → Session × Outcome RadarClientError (Unit {0})
renew none lease run s =
    (s, raise_if (s.pending.db.is_closing run.owner_id) RadarClientError.account_closing)
renew (some worker) lease run s =
    let (db', renewed) = renew_lease run.id worker lease s.pending.db in
    let s' = record s { pending = record (s.pending) { db = db' } } in
    if s.pending.db.is_closing run.owner_id
    then (s, raised RadarClientError.account_closing)
    else if renewed
    then (s', ok tt)
    else (rollback s', raised RadarClientError.lease_lost)

-- `poll`: a renewal that is committed at once.
unfoldable pub poll :
    Option String → ℕ → DigestRun → Session → Session × Outcome RadarClientError (Unit {0})
poll worker lease run s =
    let (s', renewed) = renew worker lease run s in
    elim renewed [ raised e ↦ (s', raised e) | ok _ ↦ (commit s', ok tt) ]
