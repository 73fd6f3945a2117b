-- ===== src/Runs/Steps/Counts.antt =====
-- How many rows pass a condition, before and after an update.
use scientific_research_rada.Prelude.{
  ℕ, ◌≤◌, ◌+◌, Bool, true, List, [], ◌∷◌, ◌==◌, ==_iff, ◌&&◌, ◌≡◌, All, arith, Bool-cases, inl, inr,
}
use scientific_research_rada.Runs.Model.{DigestRun}
use scientific_research_rada.Runs.State.{update_where, row_count, with_id}
use scientific_research_rada.Runs.Rows.{HasNoId, UniqueIds, row_count-missing}

module _ (test : DigestRun → Bool) (f : DigestRun → DigestRun) (P : DigestRun → Bool) where
  -- An update that makes no row pass adds none.
  pub row_count-update_le :
      (rs : List DigestRun)
      → All (λ r. test r ≡ true → P (f r) ≡ true → P r ≡ true) rs
      → row_count P (update_where test f rs) ≤ row_count P rs
  unfolding row_count update_where
  row_count-update_le [] keeps = omega arith
  row_count-update_le (r ∷ rs) keeps = ground (arith, keeps.0, row_count-update_le rs keeps.1)

  -- An update adds at most the rows that it changes.
  pub row_count-update_le_add :
      (rs : List DigestRun)
      → row_count P (update_where test f rs) ≤ row_count P rs + row_count test rs
  unfolding row_count update_where
  row_count-update_le_add [] = omega arith
  row_count-update_le_add (r ∷ rs) = ground (arith, row_count-update_le_add rs)

pub row_count-with_id_le_one :
    (k : ℕ) (test : DigestRun → Bool) (rs : List DigestRun)
    → UniqueIds rs
    → row_count (λ r. with_id k r && test r) rs ≤ 1
unfolding row_count
row_count-with_id_le_one k test [] u = omega arith
row_count-with_id_le_one k test (r ∷ rs) u = elim (Bool-cases (r.id == k)) [
  | inl same ↦
      let missing : HasNoId k rs = rw ((==_iff r.id k).0 same) at u.0 in
      ground (arith, row_count-missing k test rs missing)
  | inr other ↦ ground (arith, row_count-with_id_le_one k test rs u.1)
]

-- What holds of every row, and is kept by the change, holds after it.
pub All-update_where :
    (Q : DigestRun → Type 0) (test : DigestRun → Bool) (f : DigestRun → DigestRun)
    (rs : List DigestRun)
    → ((r : DigestRun) → test r ≡ true → Q r → Q (f r))
    → All Q rs
    → All Q (update_where test f rs)
unfolding update_where
All-update_where Q test f [] keeps h = tt
All-update_where Q test f (r ∷ rs) keeps h = elim (Bool-cases (test r)) [
  | inl passed ↦ rw passed (keeps r passed h.0, All-update_where Q test f rs keeps h.1)
  | inr failed ↦ rw failed (h.0, All-update_where Q test f rs keeps h.1)
]
