-- ===== src/Billing/Order.antt =====
-- The record of a verified invoice does not depend on the order of its lines (`to_record` of
-- services/billing_types.py).
use Prim.Native.Nat.{Ordering, compare as compare_ℕ}
use Prim.Native.Char.{code}
use Prim.Native.String.compare
use Prim.Native.String.{compare, then, ◌∷◌ as next_char, [] as no_chars}
use scientific_research_rada.Billing.Types.{UpgradeQuoteRecord}
use scientific_research_rada.Prelude.{
  ℕ, String, false, not, List, [], ◌∷◌, map, ◌≡◌, inl, inr, refl, sym, ap, ap₂, ◌∙◌, arith, str_eq,
  eq_iff, Bool-cases,
}
use scientific_research_rada.Billing.Integers.{ℤ, ◌+ℤ◌}
use scientific_research_rada.Billing.Verified.{IsVerified}
use scientific_research_rada.Billing.Json.{text}
use scientific_research_rada.Billing.Types.{
  ProrationLine, VerifiedUpgradeInvoice, SubscriptionUpgrade, price_after, insert_line,
  sorted_lines, to_record, line_record,
}

abbrev flip : Ordering → Ordering
flip Ordering.lt = Ordering.gt
flip Ordering.eq = Ordering.eq
flip Ordering.gt = Ordering.lt

flip-then : (a b : Ordering) → flip (then a b) ≡ then (flip a) (flip b)
flip-then Ordering.lt b = refl
flip-then Ordering.eq b = refl
flip-then Ordering.gt b = refl

flip-compare_ℕ : (a b : ℕ) → flip (compare_ℕ a b) ≡ compare_ℕ b a
flip-compare_ℕ a b = ground arith

flip-compare : (s t : String) → flip (compare s t) ≡ compare t s
flip-compare no_chars no_chars = refl
flip-compare no_chars (next_char d t) = ap flip (compare.nil-cons d t) ∙ sym (compare.cons-nil d t)
flip-compare (next_char c s) no_chars = ap flip (compare.cons-nil c s) ∙ sym (compare.nil-cons c s)
flip-compare (next_char c s) (next_char d t) =
    ap flip (compare.cons-cons c d s t)
    ∙ flip-then (compare_ℕ (code c) (code d)) (compare s t)
    ∙ ap₂ then (flip-compare_ℕ (code c) (code d)) (flip-compare s t)
    ∙ sym (compare.cons-cons d c t s)

-- Of two different prices one comes after the other.
price_after_total :
    (s t : String)
    → str_eq s t ≡ false
    → price_after (text s) (text t) ≡ not (price_after (text t) (text s))
price_after_total s t h = ground (arith, flip-compare s t, eq_iff s t)

sorted_lines-swap :
    (a b : ProrationLine) (s t : String)
    → a.price_id ≡ text s
    → b.price_id ≡ text t
    → str_eq s t ≡ false
    → sorted_lines (a ∷ b ∷ []) ≡ sorted_lines (b ∷ a ∷ [])
unfolding sorted_lines insert_line
sorted_lines-swap a b s t ea eb h =
    rw (ea, eb, price_after_total s t h)
      (elim (Bool-cases (price_after (text t) (text s))) [ inl e ↦ rw e refl | inr e ↦ rw e refl ])

-- The record of a credit and a charge, in one order.
abbrev record_of : SubscriptionUpgrade → ProrationLine → ProrationLine → UpgradeQuoteRecord
record_of upgrade credit charge = record {
  currency = upgrade.quote.currency;
  amount_due = credit.amount +ℤ charge.amount;
  total = credit.amount +ℤ charge.amount;
  lines = map line_record (sorted_lines (credit ∷ charge ∷ []));
}

to_record_parts :
    (v : VerifiedUpgradeInvoice) (c : String) (n : ℤ) (ls : List ProrationLine)
    → v.currency ≡ c
    → v.amount_due ≡ n
    → v.total ≡ n
    → sorted_lines v.lines ≡ ls
    → to_record v ≡ record { currency = c; amount_due = n; total = n; lines = map line_record ls }
unfolding to_record
to_record_parts v c n ls ec ed et el = rw (ec, ed, et, el)

to_record_pair :
    (upgrade : SubscriptionUpgrade) (v : VerifiedUpgradeInvoice) (known : IsVerified upgrade v)
    → to_record v ≡ record_of upgrade known.0 known.1
to_record_pair upgrade v (credit, charge, lines, pair, _, _, sum, _, due, same) =
    to_record_parts v upgrade.quote.currency (credit.amount +ℤ charge.amount)
      (sorted_lines (credit ∷ charge ∷ [])) same (due ∙ sum) sum
      (elim lines [
        | inl e ↦ ap sorted_lines e
        | inr e ↦
            ap sorted_lines e
            ∙ sym (
                sorted_lines-swap credit charge upgrade.source_price_id upgrade.target_price_id
                  pair.0 pair.1 pair.4)
      ])

-- Two accepted invoices of one upgrade with the same credit and the same charge, in any order of
-- their lines, have one record.
pub to_record_order :
    (upgrade : SubscriptionUpgrade) (v w : VerifiedUpgradeInvoice) (known : IsVerified upgrade v)
    (known' : IsVerified upgrade w)
    → known.0 ≡ known'.0
    → known.1 ≡ known'.1
    → to_record v ≡ to_record w
to_record_order upgrade v w known known' credit charge =
    to_record_pair upgrade v known
    ∙ ap₂ (record_of upgrade) credit charge
    ∙ sym (to_record_pair upgrade w known')
