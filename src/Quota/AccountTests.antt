-- ===== src/Quota/AccountTests.antt =====
-- A billing window at the end of a month, and the digests of a small plan.
use scientific_research_rada.Prelude.{ℕ, ◌≤◌, true, false, [], ◌∷◌, ◌≡◌, refl, arith, length}
use scientific_research_rada.Prelude.Texts.{contains, is_subset}
use scientific_research_rada.Schedule.Recurrence.{Local}
use scientific_research_rada.Quota.Account.{
  is_after, month_at, window, window_lem, free_digest_ids, free_digest_ids_lem,
}

abbrev months : ℕ → ℕ
months _ = 30

-- The last day of a month as the anchor, and the 29th of a later month.
abbrev anchor : Local
anchor = record { month = 12; day = 31; time = 0 }

abbrev stamp : Local
stamp = record { month = 15; day = 29; time = 7 }

starts_on_the_last_day : (window months anchor stamp).0 ≡ record { month = 14; day = 30; time = 0 }
unfolding window month_at is_after
starts_on_the_last_day = refl

window_lem_example :
    (is_after (window months anchor stamp).0 stamp ≡ false)
    × (is_after (window months anchor stamp).1 stamp ≡ true)
window_lem_example = window_lem months anchor stamp (omega arith)

chosen : free_digest_ids ("c" ∷ "b" ∷ "a" ∷ []) ("b" ∷ "gone" ∷ []) 2 ≡ "b" ∷ "c" ∷ []
unfolding free_digest_ids contains
chosen = refl

free_digest_ids_lem_example :
    (length (free_digest_ids ("c" ∷ "b" ∷ "a" ∷ []) ("b" ∷ "gone" ∷ []) 2) ≤ 2)
    × (is_subset
          (free_digest_ids ("c" ∷ "b" ∷ "a" ∷ []) ("b" ∷ "gone" ∷ []) 2)
          ("c" ∷ "b" ∷ "a" ∷ [])
        ≡ true)
free_digest_ids_lem_example = free_digest_ids_lem ("c" ∷ "b" ∷ "a" ∷ []) ("b" ∷ "gone" ∷ []) 2
