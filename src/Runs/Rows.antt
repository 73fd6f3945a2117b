-- ===== src/Runs/Rows.antt =====
-- The table of runs under an update by primary key (repositories/run_state_repository.py).
use mathlib.Core.Option
use mathlib.Core.Path.{subst}
use scientific_research_rada.Prelude.{
  ℕ, Bool, false, List, [], ◌∷◌, Option, none, some, ◌==◌, ==_iff, ◌&&◌, ◌≡◌, refl, arith,
  if◌then◌else◌, All, Bool-cases, inl, inr,
}
use scientific_research_rada.Runs.Model.{DigestRun}
use scientific_research_rada.Runs.State.{update_where, row_count, with_id, get}

-- An update that no row satisfies.
pub update_where-none :
    (test : DigestRun → Bool) (f : DigestRun → DigestRun) (rs : List DigestRun)
    → row_count test rs ≡ 0
    → update_where test f rs ≡ rs
unfolding update_where row_count
update_where-none test f [] h = refl
update_where-none test f (r ∷ rs) h = ground (arith, update_where-none test f rs)

-- No two rows share an id: the primary key.
abbrev pub HasNoId : ℕ → List DigestRun → Type 0
HasNoId k = All (λ r. (r.id == k) ≡ false)

abbrev pub UniqueIds : List DigestRun → Type 0
UniqueIds [] = Unit
UniqueIds (r ∷ rs) = HasNoId r.id rs × UniqueIds rs

pub row_count-missing :
    (k : ℕ) (test : DigestRun → Bool) (rs : List DigestRun)
    → HasNoId k rs
    → row_count (λ r. with_id k r && test r) rs ≡ 0
unfolding row_count
row_count-missing k test [] h = refl
row_count-missing k test (r ∷ rs) h = ground (arith, row_count-missing k test rs h.1)

pub get-missing : (k : ℕ) (rs : List DigestRun) → HasNoId k rs → get k rs ≡ none
unfolding get
get-missing k [] h = refl
get-missing k (r ∷ rs) h = ground (arith, get-missing k rs h.1)

abbrev pub passes : (DigestRun → Bool) → Option DigestRun → Bool
passes test none = false
passes test (some r) = test r

-- An update by primary key reaches the row of that key, if it passes the rest of the condition.
pub row_count-with_id :
    (k : ℕ) (test : DigestRun → Bool) (rs : List DigestRun)
    → UniqueIds rs
    → (row_count (λ r. with_id k r && test r) rs == 1) ≡ passes test (get k rs)
unfolding row_count get
row_count-with_id k test [] u = refl
row_count-with_id k test (r ∷ rs) u = elim (Bool-cases (r.id == k)) [
  | inl same ↦
      let missing : HasNoId k rs = rw ((==_iff r.id k).0 same) at u.0 in
      ground (arith, row_count-missing k test rs missing)
  | inr other ↦ ground (arith, row_count-with_id k test rs u.1)
]

-- What an update by primary key leaves to be read.
pub get-update_where :
    (j k : ℕ) (test : DigestRun → Bool) (f : DigestRun → DigestRun) (rs : List DigestRun)
    → ((r : DigestRun) → (f r).id ≡ r.id)
    → get j (update_where (λ r. with_id k r && test r) f rs)
      ≡ (if k == j then Option.map (λ r. if test r then f r else r) (get j rs) else get j rs)
unfolding get update_where
get-update_where j k test f [] same = ground arith
get-update_where j k test f (r ∷ rs) same =
    ground (arith, same r, get-update_where j k test f rs same)

pub get-has_id : (k : ℕ) (rs : List DigestRun) {r : DigestRun} → get k rs ≡ some r → r.id ≡ k
unfolding get
get-has_id k [] h = absurd (cc)
get-has_id k (x ∷ rs) {r} h = ground (arith, get-has_id k rs {r = r})

-- Ids stay unique.
HasNoId-update :
    (k : ℕ) (test : DigestRun → Bool) (f : DigestRun → DigestRun) (rs : List DigestRun)
    → ((r : DigestRun) → (f r).id ≡ r.id)
    → HasNoId k rs
    → HasNoId k (update_where test f rs)
unfolding update_where
HasNoId-update k test f [] same h = tt
HasNoId-update k test f (r ∷ rs) same h =
    (ground (arith, same r, h.0), HasNoId-update k test f rs same h.1)

pub UniqueIds-update :
    (test : DigestRun → Bool) (f : DigestRun → DigestRun) (rs : List DigestRun)
    → ((r : DigestRun) → (f r).id ≡ r.id)
    → UniqueIds rs
    → UniqueIds (update_where test f rs)
unfolding update_where
UniqueIds-update test f [] same u = tt
UniqueIds-update test f (r ∷ rs) same u =
    (rw (kept r) (HasNoId-update r.id test f rs same u.0), UniqueIds-update test f rs same u.1)
  where
    kept : (r : DigestRun) → (if test r then f r else r).id ≡ r.id
    kept r = ground (arith, same r)

-- A condition by primary key that does not hold of exactly one row holds of none.
pub update_where-refused :
    (k : ℕ) (test : DigestRun → Bool) (f : DigestRun → DigestRun) (rs : List DigestRun)
    → UniqueIds rs
    → (row_count (λ r. with_id k r && test r) rs == 1) ≡ false
    → update_where (λ r. with_id k r && test r) f rs ≡ rs
unfolding update_where row_count
update_where-refused k test f [] u h = refl
update_where-refused k test f (r ∷ rs) u h = elim (Bool-cases (r.id == k)) [
  | inl same ↦
      let missing : HasNoId k rs = rw ((==_iff r.id k).0 same) at u.0 in
      let zero_rows = row_count-missing k test rs missing in
      ground (arith, zero_rows, update_where-none (λ r. with_id k r && test r) f rs zero_rows)
  | inr other ↦ ground (arith, update_where-refused k test f rs u.1)
]

-- A read after any update that keeps ids.
pub get-update :
    (j : ℕ) (test : DigestRun → Bool) (f : DigestRun → DigestRun) (rs : List DigestRun)
    → ((r : DigestRun) → (f r).id ≡ r.id)
    → get j (update_where test f rs) ≡ Option.map (λ r. if test r then f r else r) (get j rs)
unfolding get update_where
get-update j test f [] same = refl
get-update j test f (r ∷ rs) same = ground (arith, same r, get-update j test f rs same)

pub All-get :
    (P : DigestRun → Type 0) (k : ℕ) (rs : List DigestRun) (r : DigestRun)
    → All P rs
    → get k rs ≡ some r
    → P r
unfolding get
All-get P k [] r h e = absurd (cc)
All-get P k (x ∷ rs) r h e = elim (Bool-cases (x.id == k)) [
  | inl same ↦ let found : x ≡ r = ground arith in subst P found h.0
  | inr other ↦ All-get P k rs r h.1 (ground arith)
]
