-- ===== src/Prelude/Texts.antt =====
-- Python's sets of texts, as lists of which only the membership is read.
use Prim.Native.Nat.{◌≤◌}
use Prim.Native.String.{String}
use mathlib.Core.Path.{◌≡◌, refl}
use mathlib.Core.Logic.{◌↔◌}
use mathlib.Core.Bool.{Bool, true, false, not, ◌&&◌, ◌||◌}
use mathlib.Core.List.{List, [], ◌∷◌, ◌++◌}
use native.Mathlib.Omega.{arith}
use text.Mathlib.Text.{◌==◌ as str_eq}
use text.Mathlib.TextEquality.{eq_iff}
use text.Mathlib.TextPositions.{eq_refl}
use scientific_research_rada.Prelude.Tests.{if◌then◌else◌}
use scientific_research_rada.Prelude.Lists.{length}

-- `a in xs`
unfoldable pub contains : List String → String → Bool
contains [] a = false
contains (x ∷ xs) a = str_eq x a || contains xs a

-- `xs - ys`
unfoldable pub difference : List String → List String → List String
unfolding contains
difference [] ys = []
difference (x ∷ xs) ys = let rest = difference xs ys in if contains ys x then rest else x ∷ rest

-- `xs <= ys`, `set(xs).issubset(ys)`
unfoldable pub is_subset : List String → List String → Bool
unfolding contains
is_subset [] ys = true
is_subset (x ∷ xs) ys = contains ys x && is_subset xs ys

-- `set(xs) == set(ys)`
unfoldable pub same_set : List String → List String → Bool
unfolding is_subset
same_set xs ys = is_subset xs ys && is_subset ys xs

-- `set(xs)`: the last of equal texts stays.
unfoldable pub dedup : List String → List String
unfolding contains
dedup [] = []
dedup (x ∷ xs) = let rest = dedup xs in if contains xs x then rest else x ∷ rest

-- `len(xs) == len(set(xs))`, read as a scan.
unfoldable pub is_unique : List String → Bool
unfolding contains
is_unique [] = true
is_unique (x ∷ xs) = not (contains xs x) && is_unique xs

unfoldable pub is_empty : List String → Bool
is_empty [] = true
is_empty (x ∷ xs) = false

pub contains-append :
    (xs ys : List String) (a : String) → contains (xs ++ ys) a ≡ (contains xs a || contains ys a)
unfolding contains
contains-append [] ys a = refl
contains-append (x ∷ xs) ys a = ground (arith, contains-append xs ys a)

pub contains-difference :
    (xs ys : List String) (a : String)
    → contains (difference xs ys) a ≡ (contains xs a && not (contains ys a))
unfolding contains difference
contains-difference [] ys a = refl
contains-difference (x ∷ xs) ys a = ground (arith, eq_iff x a, contains-difference xs ys a)

pub contains_of_subset :
    (xs ys : List String) (a : String)
    → is_subset xs ys ≡ true
    → contains xs a ≡ true
    → contains ys a ≡ true
unfolding contains is_subset
contains_of_subset [] ys a s h = cc
contains_of_subset (x ∷ xs) ys a s h = ground (arith, eq_iff x a, contains_of_subset xs ys a)

pub is_subset-cons :
    (xs ys : List String) (y : String) → is_subset xs ys ≡ true → is_subset xs (y ∷ ys) ≡ true
unfolding contains is_subset
is_subset-cons [] ys y h = refl
is_subset-cons (x ∷ xs) ys y h = ground (arith, is_subset-cons xs ys y)

pub is_subset_refl : (xs : List String) → is_subset xs xs ≡ true
unfolding contains is_subset
is_subset_refl [] = refl
is_subset_refl (x ∷ xs) = rw eq_refl (is_subset-cons xs xs x (is_subset_refl xs))

pub same_set_refl : (xs : List String) → same_set xs xs ≡ true
unfolding same_set
same_set_refl xs = rw is_subset_refl

-- Equal sets have equal members.
pub contains-same_set :
    (xs ys : List String) (a : String) → same_set xs ys ≡ true → contains xs a ≡ contains ys a
unfolding same_set
contains-same_set xs ys a h = ground (arith, contains_of_subset xs ys a, contains_of_subset ys xs a)

-- The difference is empty exactly when every element is known.
pub is_empty-difference : (xs ys : List String) → is_empty (difference xs ys) ≡ is_subset xs ys
unfolding is_empty difference is_subset
is_empty-difference [] ys = refl
is_empty-difference (x ∷ xs) ys = ground (arith, is_empty-difference xs ys)

pub contains-is_empty :
    (xs : List String) → is_empty xs ≡ false → (a : String) × (contains xs a ≡ true)
unfolding is_empty contains
contains-is_empty [] h = absurd (cc)
contains-is_empty (x ∷ xs) h = (x, rw eq_refl)

pub contains-dedup : (xs : List String) (a : String) → contains (dedup xs) a ≡ contains xs a
unfolding contains dedup
contains-dedup [] a = refl
contains-dedup (x ∷ xs) a = ground (arith, eq_iff x a, contains-dedup xs a)

pub length-dedup_le : (xs : List String) → length (dedup xs) ≤ length xs
unfolding dedup
length-dedup_le [] = omega arith
length-dedup_le (x ∷ xs) = ground (arith, length-dedup_le xs)

-- The scan finds a repetition exactly when the set is smaller than the list.
pub is_unique_iff : (xs : List String) → (is_unique xs ≡ true) ↔ (length (dedup xs) ≡ length xs)
unfolding is_unique dedup
is_unique_iff [] = ((λ _. refl), (λ _. refl))
is_unique_iff (x ∷ xs) = ground (arith, is_unique_iff xs, length-dedup_le xs)

pub is_subset-append :
    (xs ys zs : List String) → is_subset (xs ++ ys) zs ≡ (is_subset xs zs && is_subset ys zs)
unfolding is_subset
is_subset-append [] ys zs = refl
is_subset-append (x ∷ xs) ys zs = ground (arith, is_subset-append xs ys zs)

-- Only the members of the larger set count.
pub is_subset_congr :
    (xs ys zs : List String) → same_set ys zs ≡ true → is_subset xs ys ≡ is_subset xs zs
unfolding is_subset
is_subset_congr [] ys zs h = refl
is_subset_congr (x ∷ xs) ys zs h =
    ground (arith, is_subset_congr xs ys zs h, contains-same_set ys zs x h)

-- Only the members of the smaller set count.
is_subset_trans :
    (xs ys zs : List String)
    → is_subset xs ys ≡ true
    → is_subset ys zs ≡ true
    → is_subset xs zs ≡ true
unfolding is_subset
is_subset_trans [] ys zs h g = refl
is_subset_trans (x ∷ xs) ys zs h g =
    ground (arith, is_subset_trans xs ys zs, contains_of_subset ys zs x g)

is_subset_of_same :
    (ys zs xs : List String) → same_set ys zs ≡ true → is_subset ys xs ≡ is_subset zs xs
unfolding same_set
is_subset_of_same ys zs xs h = ground (arith, is_subset_trans ys zs xs, is_subset_trans zs ys xs)

pub same_set_sym : (xs ys : List String) → same_set xs ys ≡ same_set ys xs
unfolding same_set
same_set_sym xs ys = ground arith

pub same_set_congr :
    (xs ys zs : List String) → same_set ys zs ≡ true → same_set xs ys ≡ same_set xs zs
unfolding same_set
same_set_congr xs ys zs h = ground (arith, is_subset_congr xs ys zs h, is_subset_of_same ys zs xs h)

pub same_set_trans :
    (xs ys zs : List String) → same_set xs ys ≡ true → same_set ys zs ≡ true → same_set xs zs ≡ true
same_set_trans xs ys zs h g = ground (arith, same_set_congr xs ys zs g)
