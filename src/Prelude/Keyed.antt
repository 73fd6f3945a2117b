-- ===== src/Prelude/Keyed.antt =====
-- `by_id = {key(x): x for x in xs}`: among entries with one key the last one stays. The objects
-- are shared with the list, so an assignment through the dictionary changes the list.
use mathlib.Core.Path.{◌≡◌, refl}
use mathlib.Core.Bool.{Bool, true, false}
use mathlib.Core.Option
use mathlib.Core.Option.{Option, none, some}
use mathlib.Core.List.{List, [], ◌∷◌, map}
use Prim.Native.String.{String}
use native.Mathlib.Omega.{arith}
use text.Mathlib.Text.{◌==◌ as str_eq}
use text.Mathlib.TextEquality.{eq_iff}
use scientific_research_rada.Prelude.Tests.{if◌then◌else◌}
use scientific_research_rada.Prelude.Texts.{contains}

abbrev pub is_some {ℓ} : {A : Type ℓ} → Option A → Bool
is_some none = false
is_some (some _) = true

module _ {ℓ} {A : Type ℓ} (key : A → String) where
  -- `by_id.get(k)`
  unfoldable pub index_by : String → List A → Option A
  index_by k [] = none
  index_by k (x ∷ xs) = elim (index_by k xs) [
    | some y ↦ some y
    | none ↦ if str_eq (key x) k then some x else none
  ]

  -- An in-place change of `by_id[k]`; nothing happens where the key is missing.
  unfoldable pub update_by : String → (A → A) → List A → List A
  unfolding index_by
  update_by k f [] = []
  update_by k f (x ∷ xs) =
      let rest = update_by k f xs in
      if is_some (index_by k xs) then x ∷ rest else if str_eq (key x) k then f x ∷ xs else x ∷ xs

  pub is_some-index_by :
      (k : String) (xs : List A) → is_some (index_by k xs) ≡ contains (map key xs) k
  unfolding index_by contains
  is_some-index_by k [] = refl
  is_some-index_by k (x ∷ xs) = ground (arith, is_some-index_by k xs)

  pub key_of_index : (k : String) (xs : List A) {x : A} → index_by k xs ≡ some x → key x ≡ k
  unfolding index_by
  key_of_index k [] h = absurd (cc)
  key_of_index k (x ∷ xs) {x = y} h = ground (arith, eq_iff (key x) k, key_of_index k xs {x = y})

  pub map-update_by :
      (k : String) (f : A → A) (xs : List A)
      → ((x : A) → key (f x) ≡ key x)
      → map key (update_by k f xs) ≡ map key xs
  unfolding update_by
  map-update_by k f [] same = refl
  map-update_by k f (x ∷ xs) same = ground (arith, same x, map-update_by k f xs same)

  -- The entry of the key is changed, and no other.
  pub index_by-update_by :
      (j k : String) (f : A → A) (xs : List A)
      → ((x : A) → key (f x) ≡ key x)
      → index_by j (update_by k f xs)
        ≡ (if str_eq k j then Option.map f (index_by j xs) else index_by j xs)
  unfolding index_by update_by
  index_by-update_by j k f [] same = ground arith
  index_by-update_by j k f (x ∷ xs) same = ground (
    arith,
    same x,
    eq_iff k j,
    eq_iff (key x) k,
    eq_iff (key x) j,
    index_by-update_by j k f xs same,
  )
