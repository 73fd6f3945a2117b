-- ===== src/Runs/Claims.antt =====
-- What `claim_next` and `renew_lease` promise to concurrent workers
-- (repositories/run_state_repository.py).
use mathlib.Core.Option
use mathlib.Core.Path.{subst}
use scientific_research_rada.Prelude.{
  ℕ, ◌≤◌, String, Bool, true, false, List, [], ◌∷◌, Option, none, some, ==_iff, ◌&&◌, eq_iff, ◌≡◌,
  ◌≢◌, refl, ◌∙◌, ap, ap₂, arith, if◌then◌else◌, All, Bool-cases, Option-cases, inl, inr,
}
use scientific_research_rada.Runs.Model.{DigestRun, is_running}
use scientific_research_rada.Runs.State.{
  Db, is_claimable, is_before, earlier, first_claimable, with_id, get, claimed_by, claim_update,
  is_owned, renew_lease,
}
use scientific_research_rada.Runs.Rows.{
  UniqueIds, passes, row_count-with_id, get-update_where, update_where-refused, UniqueIds-update,
}

-- No row is found exactly where none passes the test.
pub first_claimable-none :
    (test : DigestRun → Bool) (rs : List DigestRun)
    → first_claimable test rs ≡ none
    → All (λ s. test s ≡ false) rs
unfolding first_claimable
first_claimable-none test [] h = tt
first_claimable-none test (r ∷ rs) h = elim (Bool-cases (test r)) [
  | inl passed ↦ ground arith
  | inr failed ↦ (failed, first_claimable-none test rs (ground arith))
]

-- `ORDER BY` is a total order.
before_trans :
    (a b c : DigestRun) → is_before a b ≡ false → is_before b c ≡ false → is_before a c ≡ false
before_trans a b c h g = ground arith

before_when :
    (t : Bool) (s b c : DigestRun)
    → (t && is_before s b) ≡ false
    → is_before b c ≡ false
    → (t && is_before s c) ≡ false
before_when true s b c h g = before_trans s b c h g
before_when false s b c h g = refl

abbrev NoneBefore : (DigestRun → Bool) → DigestRun → List DigestRun → Type 0
NoneBefore test r = All (λ s. (test s && is_before s r) ≡ false)

NoneBefore-trans :
    (test : DigestRun → Bool) (b c : DigestRun) (rs : List DigestRun)
    → is_before b c ≡ false
    → NoneBefore test b rs
    → NoneBefore test c rs
NoneBefore-trans test b c [] h n = tt
NoneBefore-trans test b c (s ∷ rs) h n =
    (before_when (test s) s b c n.0 h, NoneBefore-trans test b c rs h n.1)

NoneBefore-of_none :
    (test : DigestRun → Bool) (c : DigestRun) (rs : List DigestRun)
    → All (λ s. test s ≡ false) rs
    → NoneBefore test c rs
NoneBefore-of_none test c [] n = tt
NoneBefore-of_none test c (s ∷ rs) n = (rw n.0, NoneBefore-of_none test c rs n.1)

before_irrefl : (r : DigestRun) → is_before r r ≡ false
before_irrefl r = ground arith

before_asym : (a b : DigestRun) → is_before a b ≡ true → is_before b a ≡ false
before_asym a b h = ground arith

module _ (test : DigestRun → Bool) where
  abbrev IsFirst : List DigestRun → DigestRun → Type 0
  IsFirst rs r = (test r ≡ true) × NoneBefore test r rs

  -- The candidate of a longer table, from the candidate of its tail.
  IsFirst-of_cons :
      (x : DigestRun) (rs : List DigestRun) (b : Bool) (o : Option DigestRun)
      → test x ≡ b
      → first_claimable test rs ≡ o
      → ((s : DigestRun) → o ≡ some s → IsFirst rs s)
      → (r : DigestRun) → (if b then some (earlier x o) else o) ≡ some r
      → IsFirst (x ∷ rs) r
  IsFirst-of_cons x rs false o t e ih r h = ((ih r h).0, (rw t, (ih r h).1))
  IsFirst-of_cons x rs true none t e ih r h =
      let same : x ≡ r = cc in
      subst (IsFirst (x ∷ rs)) same
        (t, (rw t (before_irrefl x), NoneBefore-of_none test x rs (first_claimable-none test rs e)))
  IsFirst-of_cons x rs true (some s) t e ih r h = elim (Bool-cases (is_before s x)) [
    | inl before ↦
        let same : s ≡ r = ground arith in
        subst (IsFirst (x ∷ rs)) same
          ((ih s refl).0, (rw t (before_asym s x before), (ih s refl).1))
    | inr after ↦
        let same : x ≡ r = ground arith in
        subst (IsFirst (x ∷ rs)) same
          (t, (rw t (before_irrefl x), NoneBefore-trans test s x rs after (ih s refl).1))
  ]

  -- The candidate passes the test, and no row that passes it comes before.
  pub first_claimable_lem :
      (rs : List DigestRun) (r : DigestRun)
      → first_claimable test rs ≡ some r
      → (test r ≡ true) × All (λ s. (test s && is_before s r) ≡ false) rs
  unfolding first_claimable
  first_claimable_lem [] r h = absurd (cc)
  first_claimable_lem (x ∷ rs) r h =
      IsFirst-of_cons x rs (test x) (first_claimable test rs) refl refl (first_claimable_lem rs) r h

module _ (k : ℕ) (db : Db) (unique : UniqueIds db.runs) where
  -- A claim succeeds exactly when the row is claimable.
  pub claim_update_iff :
      (worker : String) (lease now : ℕ)
      → (claim_update k worker lease now db).1 ≡ passes (is_claimable db now) (get k db.runs)
  unfolding claim_update
  claim_update_iff worker lease now = row_count-with_id k (is_claimable db now) db.runs unique

  -- After a claim the row is the worker's.
  pub get-claim_update :
      (worker : String) (lease now : ℕ)
      → get k (claim_update k worker lease now db).0.runs
        ≡ Option.map
            (λ r. if is_claimable db now r then claimed_by worker lease r else r)
            (get k db.runs)
  unfolding claim_update
  get-claim_update worker lease now =
      get-update_where k k (is_claimable db now) (claimed_by worker lease) db.runs (λ r. refl)
      ∙ rw ((==_iff k k).1 refl)

  pub UniqueIds-claim_update :
      (worker : String) (lease now : ℕ) → UniqueIds (claim_update k worker lease now db).0.runs
  unfolding claim_update
  UniqueIds-claim_update worker lease now =
      UniqueIds-update (λ r. with_id k r && is_claimable db now r) (claimed_by worker lease) db.runs
        (λ r. refl) unique

  -- A row that was claimed is running, the worker's, until the lease ends.
  pub claimed_row :
      (worker : String) (lease now : ℕ)
      → (claim_update k worker lease now db).1 ≡ true
      → (r : DigestRun) × (get k (claim_update k worker lease now db).0.runs
          ≡ some (claimed_by worker lease r))
        × (get k db.runs ≡ some r)
        × (is_claimable db now r ≡ true)
  claimed_row worker lease now claimed = elim (Option-cases (get k db.runs)) [
    | inl missing ↦ absurd (ground (arith, claim_update_iff worker lease now))
    | inr (r, e) ↦
        let ready : is_claimable db now r ≡ true =
          ground (arith, claim_update_iff worker lease now) in
        (r, get-claim_update worker lease now ∙ rw (e, ready), e, ready)
  ]

-- Of two workers that found the same run, the second does not get it while the lease of the first
-- lasts.
pub claim_exclusive :
    (k : ℕ) (db : Db) (first second : String) (lease lease' now now' : ℕ)
    → UniqueIds db.runs
    → (claim_update k first lease now db).1 ≡ true
    → now' ≤ lease
    → (claim_update k second lease' now' (claim_update k first lease now db).0).1 ≡ false
claim_exclusive k db first second lease lease' now now' unique claimed le =
    let db' = (claim_update k first lease now db).0 in
    let (r, e, _, _) = claimed_row k db unique first lease now claimed in
    claim_update_iff k db' (UniqueIds-claim_update k db unique first lease now) second lease' now'
    ∙ (rw e (unfold is_claimable in ground arith))

-- A worker can extend its own lease on a running row, and no other worker can.
pub renew_lease_iff :
    (k : ℕ) (db : Db) (worker : String) (lease : ℕ)
    → UniqueIds db.runs
    → (renew_lease k worker lease db).1
      ≡ passes (λ r. is_owned worker r.worker_id && is_running r.status) (get k db.runs)
unfolding renew_lease
renew_lease_iff k db worker lease unique =
    row_count-with_id k (λ r. is_owned worker r.worker_id && is_running r.status) db.runs unique

-- A lease that is not renewed leaves the table as it was.
pub renew_lease-refused :
    (k : ℕ) (db : Db) (worker : String) (lease : ℕ)
    → UniqueIds db.runs
    → (renew_lease k worker lease db).1 ≡ false
    → (renew_lease k worker lease db).0 ≡ db
unfolding renew_lease
renew_lease-refused k db worker lease unique refused =
    ap (λ rs. record db { runs = rs })
      (update_where-refused k (λ r. is_owned worker r.worker_id && is_running r.status) _ db.runs
        unique refused)

-- Fencing. Once another worker has claimed a run whose lease had ended, the earlier worker's renewal
-- is refused and changes nothing, and the new worker's renewal succeeds.
pub claim_fences :
    (k : ℕ) (db : Db) (old new : String) (lease lease' now : ℕ)
    → UniqueIds db.runs
    → old ≢ new
    → (claim_update k new lease now db).1 ≡ true
    → let db' = (claim_update k new lease now db).0 in
      (renew_lease k old lease' db' ≡ (db', false)) × ((renew_lease k new lease' db').1 ≡ true)
claim_fences k db old new lease lease' now unique differ claimed =
    let db' = (claim_update k new lease now db).0 in
    let unique' = UniqueIds-claim_update k db unique new lease now in
    let (r, e, _, _) = claimed_row k db unique new lease now claimed in
    let lost : (renew_lease k old lease' db').1 ≡ false =
      renew_lease_iff k db' old lease' unique' ∙ rw e (ground (arith, eq_iff new old)) in
    (
      ap₂ (λ (a : Db) (b : Bool). (a, b)) (renew_lease-refused k db' old lease' unique' lost) lost,
      renew_lease_iff k db' new lease' unique' ∙ rw e (ground (arith, eq_iff new new)),
    )
