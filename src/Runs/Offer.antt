-- ===== src/Runs/Offer.antt =====
-- Which run the first statement of `claim_next` offers to a worker
-- (repositories/run_state_repository.py).
use scientific_research_rada.Prelude.{
  ℕ, ◌≤◌, ◌<◌, true, false, List, [], ◌∷◌, Option, none, some, ◌≡◌, ◌⊎◌, ◌↔◌, inl, inr, refl, arith,
  All, ◌&&◌, Option-cases, Bool-cases,
}
use mathlib.Core.Path.{subst, sym}
use scientific_research_rada.Runs.Model.{DigestRun, DigestRunStatus, is_active}
use scientific_research_rada.Runs.State.{Db, is_free, is_claimable, is_before, first_claimable}
use scientific_research_rada.Runs.Claims.{first_claimable-none, first_claimable_lem}

-- The account is not closing, the run is queued or running, and no worker has an unexpired lease.
abbrev pub IsWaiting : Db → ℕ → DigestRun → Type 0
IsWaiting db now r =
    (db.is_closing r.owner_id ≡ false)
    × ((r.status ≡ DigestRunStatus.queued) ⊎ (r.status ≡ DigestRunStatus.running))
    × ((r.lease_expires_at ≡ none) ⊎ ((t : ℕ) × (r.lease_expires_at ≡ some t) × (t < now)))

-- It was started earlier, or at the same time with a smaller id.
abbrev pub ComesFirst : DigestRun → DigestRun → Type 0
ComesFirst r s = (r.started_at < s.started_at) ⊎ ((r.started_at ≡ s.started_at) × (r.id ≤ s.id))

abbrev pub IsOffer : Db → ℕ → Option DigestRun → Type 0
IsOffer db now none = All (λ s. IsWaiting db now s → ⊥) db.runs
IsOffer db now (some r) =
    IsWaiting db now r × All (λ s. (IsWaiting db now s → ⊥) ⊎ ComesFirst r s) db.runs

active_iff :
    (status : DigestRunStatus)
    → (is_active status ≡ true)
      ↔ ((status ≡ DigestRunStatus.queued) ⊎ (status ≡ DigestRunStatus.running))
active_iff DigestRunStatus.queued = (λ _. inl refl, λ _. refl)
active_iff DigestRunStatus.running = (λ _. inr refl, λ _. refl)
active_iff DigestRunStatus.completed = (λ h. ground arith, λ h. ground arith)
active_iff DigestRunStatus.failed = (λ h. ground arith, λ h. ground arith)

free_iff :
    (now : ℕ) (lease : Option ℕ)
    → (is_free now lease ≡ true) ↔ ((lease ≡ none) ⊎ ((t : ℕ) × (lease ≡ some t) × (t < now)))
free_iff now none = (λ _. inl refl, λ _. refl)
free_iff now (some t) = (
  λ h. inr (t, refl, ground arith),
  λ h. elim h [ inl e ↦ absurd (cc) | inr (t', e, lt) ↦ ground arith ],
)

is_claimable_iff :
    (db : Db) (now : ℕ) (r : DigestRun) → (is_claimable db now r ≡ true) ↔ IsWaiting db now r
unfolding is_claimable
is_claimable_iff db now r = (
  λ h. (
    ground arith,
    (active_iff r.status).0 (ground arith),
    (free_iff now r.lease_expires_at).0 (ground arith),
  ),
  λ h.
      let (kept, active, free) = h in
      rw (kept, (active_iff r.status).1 active, (free_iff now r.lease_expires_at).1 free),
)

not-IsWaiting :
    (db : Db) (now : ℕ) (rs : List DigestRun)
    → All (λ s. is_claimable db now s ≡ false) rs
    → All (λ s. IsWaiting db now s → ⊥) rs
not-IsWaiting db now [] h = tt
not-IsWaiting db now (s ∷ rs) h =
    (λ w. ground (arith, h.0, (is_claimable_iff db now s).1 w), not-IsWaiting db now rs h.1)

not_before : (r s : DigestRun) → is_before s r ≡ false → ComesFirst r s
not_before r s h = ground arith

first_of :
    (db : Db) (now : ℕ) (r : DigestRun) (rs : List DigestRun)
    → All (λ s. (is_claimable db now s && is_before s r) ≡ false) rs
    → All (λ s. (IsWaiting db now s → ⊥) ⊎ ComesFirst r s) rs
first_of db now r [] h = tt
first_of db now r (s ∷ rs) h = (
  elim (Bool-cases (is_claimable db now s)) [
    | inl ready ↦ inr (not_before r s (rw ready at h.0))
    | inr other ↦ inl (λ w. ground (arith, other, (is_claimable_iff db now s).1 w))
  ],
  first_of db now r rs h.1,
)

-- A worker is offered a run whose account is not closing, that is queued or running and has no
-- unexpired lease, and every other such run was started later, or at the same time with a larger id;
-- none is offered only where there is no such run.
pub first_claimable-IsOffer :
    (db : Db) (now : ℕ) → IsOffer db now (first_claimable (is_claimable db now) db.runs)
first_claimable-IsOffer db now =
    elim (Option-cases (first_claimable (is_claimable db now) db.runs)) [
      | inl missing ↦ subst (IsOffer db now) (sym missing) (
          not-IsWaiting db now db.runs (first_claimable-none (is_claimable db now) db.runs missing))
      | inr (r, found) ↦
          let (ready, first) = first_claimable_lem (is_claimable db now) db.runs r found in
          subst (IsOffer db now) (sym found)
            ((is_claimable_iff db now r).0 ready, first_of db now r db.runs first)
    ]
