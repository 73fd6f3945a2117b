-- ===== src/Pipeline/Ends.antt =====
-- How `execute_run` of radar/runner.py ends a run that its worker holds.
use scientific_research_rada.Pipeline.Execute.{saved_papers, is_output_error}
use scientific_research_rada.Runs.Ending.{renew_lem}
use scientific_research_rada.Runs.State.{holds}
use scientific_research_rada.Runs.Lifecycle.{mark_failed}
use mathlib.Core.Option
use mathlib.Core.Path.{subst}
use text.Mathlib.TextPositions.{eq_refl}
use scientific_research_rada.Prelude.{
  ℕ, String, Bool, true, false, List, [], ◌∷◌, map, any, some, ◌≡◌, ◌⊎◌, inl, inr, refl, sym, ap,
  ◌∙◌, arith, if◌then◌else◌, Bool-cases,
}
use scientific_research_rada.Prelude.Keyed.{is_some}
use scientific_research_rada.Prelude.Outcome.{Outcome, ok, raised}
use scientific_research_rada.Runs.Model.{
  DigestRun, DigestRunStage, DigestRunStageType, DigestRunStatus, radar_stage_order,
}
use scientific_research_rada.Runs.State.{
  update_where, with_id, get, is_owned, fail_run, mark_completed, renew_lease,
}
use scientific_research_rada.Runs.Lease.{World, Session, commit, rollback, renew, RadarClientError}
use scientific_research_rada.Runs.Lifecycle.{
  same_stage, stage_of, fail, finish, finish_until, finish_steps, complete_run,
}
use scientific_research_rada.Runs.Rows.{get-update, get-has_id}
use scientific_research_rada.Pipeline.Model.{Pipeline, Reply}
use scientific_research_rada.Pipeline.Execute.{Worker, StageFailure, complete_or_fail, end_run}
use scientific_research_rada.Pipeline.Unchanged.{kinds, Keeps}

is_some-stage_of :
    (w : DigestRunStageType) (ss : List DigestRunStage)
    → is_some (stage_of w ss) ≡ any (λ k. same_stage k w) (map (λ (s : DigestRunStage). s.stage) ss)
unfolding stage_of
is_some-stage_of w [] = refl
is_some-stage_of w (s ∷ ss) = ground (arith, is_some-stage_of w ss)

in_order : (w : DigestRunStageType) → any (λ k. same_stage k w) radar_stage_order ≡ true
in_order DigestRunStageType.discovery_relevance = refl
in_order DigestRunStageType.paper_summaries = refl
in_order DigestRunStageType.trend_analysis = refl
in_order DigestRunStageType.digest_briefing = refl

has_stage :
    (w : DigestRunStageType) (r : DigestRun)
    → kinds r ≡ radar_stage_order
    → is_some (stage_of w r.stages) ≡ true
has_stage w r h = is_some-stage_of w r.stages ∙ ap (any (λ k. same_stage k w)) h ∙ in_order w

-- A row that is written as a whole.
get-replaced :
    (k : ℕ) (run r : DigestRun) (rs : List DigestRun)
    → run.id ≡ k
    → get k rs ≡ some r
    → get k (update_where (with_id k) (λ _. run) rs) ≡ some run
unfolding get update_where
get-replaced k run r [] same found = absurd (cc)
get-replaced k run r (x ∷ rs) same found = ground (arith, get-replaced k run r rs same)

module _ (worker : Worker) (run_id : ℕ) where
  -- The committed row is the worker's, with the four stages.
  abbrev pub IsHeld : List DigestRun → Type 0
  IsHeld rows =
      (r : DigestRun) × (get run_id rows ≡ some r)
      × (r.worker_id ≡ some worker.worker_id)
      × (kinds r ≡ radar_stage_order)

  abbrev pub HasStatus : DigestRunStatus → List DigestRun → Type 0
  HasStatus status rows = (r : DigestRun) × (get run_id rows ≡ some r) × (r.status ≡ status)

  updated_HasStatus :
      (f : DigestRun → DigestRun) (status : DigestRunStatus) (rs : List DigestRun) (r : DigestRun)
      → ((x : DigestRun) → (f x).id ≡ x.id)
      → ((x : DigestRun) → (f x).status ≡ status)
      → get run_id rs ≡ some r
      → HasStatus status (update_where (with_id run_id) f rs)
  updated_HasStatus f status rs r same given found = (
    f r,
    get-update run_id (with_id run_id) f rs same
        ∙ ground (arith, found, get-has_id run_id rs {r = r} found),
    given r,
  )

  fail_runs :
      (stage : DigestRunStageType) (is_output_error : Bool) (message : String) (papers : ℕ)
      (s : Session) (r : DigestRun)
      → get run_id s.committed.db.runs ≡ some r
      → is_owned worker.worker_id r.worker_id ≡ true
      → is_some (stage_of stage r.stages) ≡ true
      → (fail worker.cut
          (some worker.worker_id)
          run_id
          (some stage)
          is_output_error
          message
          worker.now
          papers
          s).0.committed.db.runs
        ≡ (mark_failed worker.cut run_id stage is_output_error message worker.now papers
            s.committed).db.runs
  unfolding fail rollback commit
  fail_runs stage is_output_error message papers s r found owned known = ground arith

  after_fail :
      (stage : DigestRunStageType) (is_output_error : Bool) (message : String) (papers : ℕ)
      (s : Session)
      → IsHeld s.committed.db.runs
      → HasStatus DigestRunStatus.failed
          (fail worker.cut
            (some worker.worker_id)
            run_id
            (some stage)
            is_output_error
            message
            worker.now
            papers
            s).0.committed.db.runs
  unfolding fail_run
  after_fail stage is_output_error message papers s (r, found, owned, order) =
      let mine : is_owned worker.worker_id r.worker_id ≡ true =
        rw owned (eq_refl worker.worker_id) in
      subst (HasStatus DigestRunStatus.failed)
        (sym
          (fail_runs stage is_output_error message papers s r found mine (has_stage stage r order)))
        (updated_HasStatus _ DigestRunStatus.failed s.committed.db.runs r (λ _. refl) (λ _. refl)
          found)

  renewed_runs :
      (lease : ℕ) (run : DigestRun) (s : Session)
      → (renew (some worker.worker_id) lease run s).1 ≡ ok tt
      → (renew (some worker.worker_id) lease run s).0.pending.db.runs
        ≡ update_where
            (holds run.id worker.worker_id)
            (λ (r : DigestRun). record r { lease_expires_at = some lease })
            s.pending.db.runs
  unfolding renew renew_lease
  renewed_runs lease run s h = ground arith

  updated_IsHeld :
      (test : DigestRun → Bool) (f : DigestRun → DigestRun) (rs : List DigestRun)
      → ((x : DigestRun) → Keeps x (f x))
      → IsHeld rs
      → IsHeld (update_where test f rs)
  updated_IsHeld test f rs keeps (r, found, owned, order) =
      let read =
        get-update run_id test f rs (λ x. (keeps x).0)
        ∙ ap (Option.map (λ (x : DigestRun). if test x then f x else x)) found in
      elim (Bool-cases (test r)) [
        | inl yes_it_is ↦
            (f r, read ∙ ground (arith, yes_it_is), (keeps r).1 ∙ owned, (keeps r).2 ∙ order)
        | inr no_it_is ↦ (r, read ∙ ground (arith, no_it_is), owned, order)
      ]

  renew-IsHeld :
      (lease : ℕ) (run : DigestRun) (s : Session)
      → (renew (some worker.worker_id) lease run s).1 ≡ ok tt
      → IsHeld s.pending.db.runs
      → IsHeld (renew (some worker.worker_id) lease run s).0.pending.db.runs
  renew-IsHeld lease run s renewed held =
      subst IsHeld (sym (renewed_runs lease run s renewed))
        (updated_IsHeld _ _ s.pending.db.runs (λ x. (refl, refl, refl)) held)

  -- A run that is completed, or an error after which the worker still holds it.
  abbrev Completes : Session × Outcome RadarClientError (Unit {0}) → Type 0
  Completes r =
      ((r.1 ≡ ok tt) × HasStatus DigestRunStatus.completed r.0.committed.db.runs)
      ⊎ ((e : RadarClientError) × (r.1 ≡ raised e) × IsHeld r.0.committed.db.runs)

  finish_runs :
      (papers : ℕ) (s : Session) (r : DigestRun)
      → get run_id s.pending.db.runs ≡ some r
      → (renew (some worker.worker_id) worker.second_lease r s).1 ≡ ok tt
      → (finish
          (some worker.worker_id)
          worker.second_lease
          worker.now
          run_id
          papers
          s).0.committed.db.runs
        ≡ update_where
            (with_id run_id)
            (mark_completed worker.now)
            (renew (some worker.worker_id) worker.second_lease r s).0.pending.db.runs
  unfolding finish_until finish_steps commit
  finish_runs papers s r found renewed = ground arith

  finish-Completes :
      (papers : ℕ) (s : Session)
      → IsHeld s.committed.db.runs
      → IsHeld s.pending.db.runs
      → Completes (finish (some worker.worker_id) worker.second_lease worker.now run_id papers s)
  unfolding finish_until finish_steps commit mark_completed
  finish-Completes papers s committed (r, found, owned, order) =
      let w = some worker.worker_id in
      let lease = worker.second_lease in
      elim (renew_lem w lease r s).1 [
        | inl renewed ↦
            let (r', found', _, _) = renew-IsHeld lease r s renewed (r, found, owned, order) in
            inl (
              ground (arith, found),
              subst (HasStatus DigestRunStatus.completed)
                  (sym (finish_runs papers s r found renewed))
                  (updated_HasStatus (mark_completed worker.now) DigestRunStatus.completed
                    (renew w lease r s).0.pending.db.runs r' (λ _. refl) (λ _. refl) found'),
            )
        | inr (e, refused) ↦ inr (
          e,
          ground (arith, found),
          subst IsHeld (ground (arith, found, (renew_lem w lease r s).0)) committed,
        )
      ]

  -- The verification of the sources commits no change of a run.
  abbrev pub VerifyKeeps : Type 0
  VerifyKeeps =
      (x : Session)
      → ((worker.verify x).committed.db.runs ≡ x.committed.db.runs)
        × ((worker.verify x).pending.db.runs ≡ x.committed.db.runs)

  unfoldable pub renewed_session : DigestRun → World → Session × Outcome RadarClientError (Unit {0})
  renewed_session r w =
      renew (some worker.worker_id) worker.first_lease r (record { committed = w; pending = w })

  abbrev pub completed_run : ℕ → World → Session × Outcome RadarClientError (Unit {0})
  completed_run papers w =
      complete_run (some worker.worker_id) worker.first_lease worker.second_lease worker.now
        worker.verify run_id papers (record { committed = w; pending = w })

  complete_renewed :
      (papers : ℕ) (w : World) (r : DigestRun)
      → get run_id w.db.runs ≡ some r
      → (renewed_session r w).1 ≡ ok tt
      → completed_run papers w
        ≡ finish
            (some worker.worker_id)
            worker.second_lease
            worker.now
            run_id
            papers
            (worker.verify (commit (renewed_session r w).0))
  unfolding complete_run renewed_session
  complete_renewed papers w r found renewed = ground arith

  pub complete_refused :
      (papers : ℕ) (w : World) (r : DigestRun) (e : RadarClientError)
      → get run_id w.db.runs ≡ some r
      → (renewed_session r w).1 ≡ raised e
      → completed_run papers w ≡ ((renewed_session r w).0, raised e)
  unfolding complete_run renewed_session
  complete_refused papers w r e found refused = ground arith

  complete_Completes :
      VerifyKeeps → (papers : ℕ) (w : World) → IsHeld w.db.runs → Completes (completed_run papers w)
  unfolding renewed_session commit
  complete_Completes verified papers w held =
      let (r, found, _, _) = held in
      let s : Session = record { committed = w; pending = w } in
      let (same, outcome) = renew_lem (some worker.worker_id) worker.first_lease r s in
      elim outcome [
        | inl renewed ↦
            let now_held = renew-IsHeld worker.first_lease r s renewed held in
            let (committed, pending) = verified (commit (renewed_session r w).0) in
            subst Completes (sym (complete_renewed papers w r found renewed)) (
              finish-Completes papers (worker.verify (commit (renewed_session r w).0))
                (subst IsHeld (sym committed) now_held) (subst IsHeld (sym pending) now_held))
        | inr (e, refused) ↦
            subst Completes (sym (complete_refused papers w r e found refused))
              (inr (e, refl, subst (λ (x : World). IsHeld x.db.runs) (sym same) held))
      ]

  -- The run is over: completed or failed.
  abbrev pub IsOver : Session × Outcome RadarClientError (Unit {0}) → Type 0
  IsOver r =
      HasStatus DigestRunStatus.completed r.0.committed.db.runs
      ⊎ HasStatus DigestRunStatus.failed r.0.committed.db.runs

  abbrev pub ended_run : ℕ → World → Session × Outcome RadarClientError (Unit {0})
  ended_run papers w = complete_or_fail worker run_id papers (record { committed = w; pending = w })

  ended_done :
      (papers : ℕ) (w : World)
      → (completed_run papers w).1 ≡ ok tt
      → ended_run papers w ≡ ((completed_run papers w).0, ok tt)
  unfolding complete_or_fail
  ended_done papers w done = ground arith

  pub ended_failed :
      (papers : ℕ) (w : World) (e : RadarClientError)
      → (completed_run papers w).1 ≡ raised e
      → ended_run papers w
        ≡ fail worker.cut
            (some worker.worker_id)
            run_id
            (some DigestRunStageType.digest_briefing)
            false
            (worker.client_message e)
            worker.now
            papers
            (completed_run papers w).0
  unfolding complete_or_fail
  ended_failed papers w e refused = ground arith

  complete_or_fail_IsOver :
      VerifyKeeps → (papers : ℕ) (w : World) → IsHeld w.db.runs → IsOver (ended_run papers w)
  complete_or_fail_IsOver verified papers w held =
      elim (complete_Completes verified papers w held) [
        | inl (done, over) ↦ subst IsOver (sym (ended_done papers w done)) (inl over)
        | inr (e, refused, still) ↦ subst IsOver (sym (ended_failed papers w e refused)) (
            inr (
              after_fail DigestRunStageType.digest_briefing false (worker.client_message e) papers
                (completed_run papers w).0 still))
      ]

  pub end_run-IsOver :
      VerifyKeeps
      → (run : DigestRun) (outcome : Outcome StageFailure (Unit {0})) (w : World) → IsHeld w.db.runs
      → IsOver (end_run worker run_id run outcome (record { committed = w; pending = w }))
  unfolding end_run
  end_run-IsOver verified run (ok tt) w held =
      complete_or_fail_IsOver verified (saved_papers run) w held
  end_run-IsOver verified run (raised (stage, e)) w held = inr (
      after_fail stage (is_output_error e) (worker.stage_message stage e) (saved_papers run)
        (record { committed = w; pending = w }) held)

  pub saved_IsHeld :
      (run : DigestRun) (r : DigestRun) (rs : List DigestRun)
      → get run_id rs ≡ some r
      → Keeps r run
      → r.worker_id ≡ some worker.worker_id
      → kinds r ≡ radar_stage_order
      → IsHeld (update_where (with_id run_id) (λ _. run) rs)
  saved_IsHeld run r rs found keeps owned order = (
    run,
    get-replaced run_id run r rs (keeps.0 ∙ get-has_id run_id rs {r = r} found) found,
    keeps.1 ∙ owned,
    keeps.2 ∙ order,
  )

  abbrev start : DigestRun → List Reply → Pipeline
  start run replies = record { run = run; replies = replies; asked = [] }
