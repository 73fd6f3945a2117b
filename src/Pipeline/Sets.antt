-- ===== src/Pipeline/Sets.antt =====
-- Lists of texts read as sets: what stays when a part is replaced by a part with the same members.
use text.Mathlib.TextPositions.{eq_refl}
use scientific_research_rada.Prelude.{
  String, Bool, true, false, not, ◌&&◌, ◌||◌, List, [], ◌∷◌, ◌++◌, eq_iff, ◌≡◌, refl, sym, ◌∙◌,
  arith, keep, Bool-cases, inl, inr,
}
use scientific_research_rada.Prelude.Texts.{
  contains, is_subset, same_set, is_unique, contains-append,
}
use scientific_research_rada.Radar.Validators.{overlap}

pub is_subset_of_contains :
    (xs ys : List String)
    → ((a : String) → contains xs a ≡ true → contains ys a ≡ true)
    → is_subset xs ys ≡ true
unfolding contains is_subset
is_subset_of_contains [] ys h = refl
is_subset_of_contains (x ∷ xs) ys h =
    ground
      (arith, h x, eq_refl x, is_subset_of_contains xs ys (λ a known. h a (ground (arith, known))))

pub same_set_of_contains :
    (xs ys : List String) → ((a : String) → contains xs a ≡ contains ys a) → same_set xs ys ≡ true
unfolding same_set
same_set_of_contains xs ys h = rw (
  is_subset_of_contains xs ys (λ a known. sym (h a) ∙ known),
  is_subset_of_contains ys xs (λ a known. h a ∙ known),
)

overlap_of_contains :
    (xs ys : List String) (a : String)
    → contains xs a ≡ true
    → contains ys a ≡ true
    → overlap xs ys ≡ true
unfolding overlap contains
overlap_of_contains [] ys a h k = cc
overlap_of_contains (x ∷ xs) ys a h k = ground (arith, eq_iff x a, overlap_of_contains xs ys a)

overlap_witness :
    (xs ys : List String)
    → overlap xs ys ≡ true
    → (a : String) × (contains xs a ≡ true) × (contains ys a ≡ true)
unfolding overlap contains
overlap_witness [] ys h = absurd (cc)
overlap_witness (x ∷ xs) ys h = elim (Bool-cases (contains ys x)) [
  | inl known ↦ (x, ground (arith, eq_refl x), known)
  | inr other ↦
      let (a, left, right) = overlap_witness xs ys (ground arith) in (a, ground arith, right)
]

pub overlap_congr :
    (xs zs ys : List String)
    → ((a : String) → contains xs a ≡ contains zs a)
    → overlap xs ys ≡ overlap zs ys
overlap_congr xs zs ys same = elim (Bool-cases (overlap xs ys)) [
  | inl meets ↦
      let (a, left, right) = overlap_witness xs ys meets in
      meets ∙ sym (overlap_of_contains zs ys a (sym (same a) ∙ left) right)
  | inr apart ↦ elim (Bool-cases (overlap zs ys)) [
    | inl meets ↦
        let (a, left, right) = overlap_witness zs ys meets in
        overlap_of_contains xs ys a (same a ∙ left) right ∙ sym meets
    | inr apart' ↦ apart ∙ sym apart'
  ]
]

overlap_of_swapped : (xs ys : List String) → overlap xs ys ≡ true → overlap ys xs ≡ true
overlap_of_swapped xs ys h =
    let (a, left, right) = overlap_witness xs ys h in overlap_of_contains ys xs a right left

overlap_comm : (xs ys : List String) → overlap xs ys ≡ overlap ys xs
overlap_comm xs ys = ground (arith, overlap_of_swapped xs ys, overlap_of_swapped ys xs)

pub overlap-append :
    (xs ys zs : List String) → overlap (xs ++ ys) zs ≡ (overlap xs zs || overlap ys zs)
unfolding overlap
overlap-append [] ys zs = refl
overlap-append (x ∷ xs) ys zs = ground (arith, overlap-append xs ys zs)

pub is_unique-append :
    (xs ys : List String)
    → is_unique (xs ++ ys) ≡ (is_unique xs && is_unique ys && not (overlap xs ys))
unfolding is_unique overlap
is_unique-append [] ys = ground arith
is_unique-append (x ∷ xs) ys = ground (arith, contains-append xs ys x, is_unique-append xs ys)

pub contains-keep :
    (p : String → Bool) (xs : List String) (a : String)
    → contains (keep p xs) a ≡ (contains xs a && p a)
unfolding contains
contains-keep p [] a = refl
contains-keep p (x ∷ xs) a = ground (arith, eq_iff x a, contains-keep p xs a)

-- Elements that are not in a list do not overlap it.
pub overlap-keep_new :
    (ys xs : List String) → overlap ys (keep (λ x. not (contains ys x)) xs) ≡ false
overlap-keep_new ys xs = elim (Bool-cases (overlap ys (keep (λ x. not (contains ys x)) xs))) [
  | inl meets ↦
      let (a, left, right) = overlap_witness ys (keep (λ x. not (contains ys x)) xs) meets in
      absurd (ground (arith, contains-keep (λ x. not (contains ys x)) xs a))
  | inr apart ↦ apart
]

pub is_unique-keep :
    (p : String → Bool) (xs : List String) → is_unique xs ≡ true → is_unique (keep p xs) ≡ true
unfolding is_unique
is_unique-keep p [] h = refl
is_unique-keep p (x ∷ xs) h = ground (arith, contains-keep p xs x, is_unique-keep p xs)

-- A part that is replaced by another one with the same members, itself without repetition.
pub is_unique-replace :
    (xs old new ys : List String)
    → ((a : String) → contains old a ≡ contains new a)
    → is_unique new ≡ true
    → is_unique (xs ++ (old ++ ys)) ≡ true
    → is_unique ((xs ++ new) ++ ys) ≡ true
is_unique-replace xs old new ys same unique h = ground (
  arith,
  is_unique-append xs (old ++ ys),
  is_unique-append old ys,
  is_unique-append (xs ++ new) ys,
  is_unique-append xs new,
  overlap-append xs new ys,
  overlap-append old ys xs,
  overlap_comm xs (old ++ ys),
  overlap_comm ys xs,
  overlap_comm xs new,
  overlap_congr old new xs same,
  overlap_congr old new ys same,
)

pub contains-replace :
    (xs old new ys : List String)
    → ((a : String) → contains old a ≡ contains new a)
    → (a : String) → contains (xs ++ (old ++ ys)) a ≡ contains ((xs ++ new) ++ ys) a
contains-replace xs old new ys same a = ground (
  arith,
  same a,
  contains-append xs (old ++ ys) a,
  contains-append old ys a,
  contains-append (xs ++ new) ys a,
  contains-append xs new a,
)
