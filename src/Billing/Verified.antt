-- ===== src/Billing/Verified.antt =====
-- What an invoice that services/billing_payment_rules.py accepts looks like.
use scientific_research_rada.Billing.Rules.{
  require_invoice_identity, require_supported_invoice_setup,
}
use mathlib.Core.Path.{subst}
use scientific_research_rada.Prelude.{
  suc, String, Bool, true, false, not, List, [], ◌∷◌, length, All, str_eq, eq_iff, ◌==◌, ◌≡◌, ◌⊎◌,
  inl, inr, refl, sym, ap, ◌∙◌, arith,
}
use scientific_research_rada.Prelude.Outcome.{ok, raise_if, >>=-eq-ok, ok-injective}
use scientific_research_rada.Billing.Integers.{ℤ, pos, ◌+ℤ◌, is_positive, same_int_iff, +ℤ_comm}
use scientific_research_rada.Billing.Json.{
  Json, null, boolean, number, text, array, object, Failure, get, or_else, empty_object, is_boolean,
  is_text, is_number, len, length-iterate, no_items,
}
use scientific_research_rada.Billing.Types.{
  SandboxCheckout, SubscriptionUpgrade, ProrationLine, VerifiedUpgradeInvoice,
}
use scientific_research_rada.Billing.Rules.{
  line_price, line_amount, line_period, raw_lines, checked_total, distinct_prices, price_amount,
  require_credit_and_charge, sum_amounts, validate_lines, validate_proration_line,
  validate_upgrade_invoice,
}

text_of_is_text : (j : Json) (s : String) → is_text j s ≡ true → j ≡ text s
text_of_is_text (text t) s h = ground (arith, eq_iff t s)
text_of_is_text null s h = absurd (cc)
text_of_is_text (boolean b) s h = absurd (cc)
text_of_is_text (number n) s h = absurd (cc)
text_of_is_text (array xs) s h = absurd (cc)
text_of_is_text (object ms) s h = absurd (cc)

-- One line credits the source price, the other one charges the target price.
abbrev pub IsPair : SubscriptionUpgrade → ProrationLine → ProrationLine → Type 0
IsPair upgrade credit charge =
    (credit.price_id ≡ text upgrade.source_price_id)
    × (charge.price_id ≡ text upgrade.target_price_id)
    × (is_positive credit.amount ≡ false)
    × (is_positive charge.amount ≡ true)
    × (str_eq upgrade.source_price_id upgrade.target_price_id ≡ false)

require_credit_and_charge_lem :
    (a b : ProrationLine) (upgrade : SubscriptionUpgrade) {done : Unit {0}}
    → require_credit_and_charge (a ∷ b ∷ []) upgrade ≡ ok done
    → IsPair upgrade a b ⊎ IsPair upgrade b a
unfolding require_credit_and_charge distinct_prices price_amount
require_credit_and_charge_lem a b upgrade h = ground (
  arith,
  text_of_is_text a.price_id upgrade.source_price_id,
  text_of_is_text b.price_id upgrade.source_price_id,
  text_of_is_text a.price_id upgrade.target_price_id,
  text_of_is_text b.price_id upgrade.target_price_id,
)

-- A line of the period that the upgrade was quoted for.
abbrev pub IsQuoted : SubscriptionUpgrade → ProrationLine → Type 0
IsQuoted upgrade l =
    (is_number l.period_start (pos upgrade.proration_at) ≡ true)
    × (is_number l.period_end (pos upgrade.period_end) ≡ true)

raise_if-eq-ok : (b : Bool) (e : Failure) {done : Unit {0}} → raise_if b e ≡ ok done → b ≡ false
raise_if-eq-ok b e h = ground arith

line_period_lem :
    (line : Json) (upgrade : SubscriptionUpgrade) {start end : Json}
    → line_period line upgrade ≡ ok (start, end)
    → (is_number start (pos upgrade.proration_at) ≡ true)
      × (is_number end (pos upgrade.period_end) ≡ true)
unfolding line_period
line_period_lem line upgrade h = ground arith

raw_lines_lem : (invoice : Json) {raw : List Json} → raw_lines invoice ≡ ok raw → length raw ≡ 2
unfolding raw_lines
raw_lines_lem invoice h =
    let (given, _, h1) = >>=-eq-ok (get invoice "lines") _ h in
    let page = or_else given empty_object in
    let (found, _, h2) = >>=-eq-ok (get page "data") _ h1 in
    let data_lines = or_else found (array no_items) in
    let (more, _, h3) = >>=-eq-ok (get page "has_more") _ h2 in
    let (_, _, h4) = >>=-eq-ok (raise_if (not (is_boolean more false)) _) _ h3 in
    let (n, counted, h5) = >>=-eq-ok (len data_lines) _ h4 in
    let (_, two, h6) = >>=-eq-ok (raise_if (not (n == 2)) _) _ h5 in
    length-iterate data_lines counted h6 ∙ ground (arith, two)

checked_total_lem :
    (invoice : Json) (lines : List ProrationLine) {total amount_due : ℤ}
    → checked_total invoice lines ≡ ok (total, amount_due)
    → (is_positive total ≡ true) × (amount_due ≡ total) × (sum_amounts lines ≡ total)
unfolding checked_total
checked_total_lem invoice lines {total} {amount_due} h =
    ground (arith, same_int_iff amount_due total, same_int_iff (sum_amounts lines) total)

sum_pair : (a b : ProrationLine) → sum_amounts (a ∷ b ∷ []) ≡ a.amount +ℤ b.amount
unfolding sum_amounts ◌+ℤ◌
sum_pair a b = ground arith

-- What is accepted: a credit and a charge, in any order, for the quoted period, whose positive sum
-- is the total and the amount due.
abbrev pub IsVerified : SubscriptionUpgrade → VerifiedUpgradeInvoice → Type 0
IsVerified upgrade v =
    (credit : ProrationLine) × (charge : ProrationLine) × ((v.lines ≡ credit ∷ charge ∷ [])
      ⊎ (v.lines ≡ charge ∷ credit ∷ []))
    × IsPair upgrade credit charge
    × IsQuoted upgrade credit
    × IsQuoted upgrade charge
    × (v.total ≡ credit.amount +ℤ charge.amount)
    × (is_positive v.total ≡ true)
    × (v.amount_due ≡ v.total)
    × (v.currency ≡ upgrade.quote.currency)

module _ (is_one : Json → Bool) (checkout : SandboxCheckout) (upgrade : SubscriptionUpgrade) where
  validate_proration_line-IsQuoted :
      (line : Json) (currency : String) {l : ProrationLine}
      → validate_proration_line is_one line checkout upgrade currency ≡ ok l
      → IsQuoted upgrade l
  unfolding validate_proration_line
  validate_proration_line-IsQuoted line currency h =
      let (price, found, h1) = >>=-eq-ok (line_price line) _ h in
      let (amount, owned, h2) =
        >>=-eq-ok (line_amount is_one line checkout upgrade currency) _ h1 in
      let ((start, end), dated, h3) = >>=-eq-ok (line_period line upgrade) _ h2 in
      subst (IsQuoted upgrade) (ok-injective h3) (line_period_lem line upgrade dated)

  validate_lines_lem :
      (raw : List Json) (currency : String) {ls : List ProrationLine}
      → validate_lines is_one raw checkout upgrade currency ≡ ok ls
      → (length ls ≡ length raw) × All (IsQuoted upgrade) ls
  unfolding validate_lines
  validate_lines_lem [] currency h =
      subst (λ x. (length x ≡ 0) × All (IsQuoted upgrade) x) (ok-injective h) (refl, tt)
  validate_lines_lem (line ∷ lines) currency h =
      let (first, one, h1) =
        >>=-eq-ok (validate_proration_line is_one line checkout upgrade currency) _ h in
      let (others, more, h2) =
        >>=-eq-ok (validate_lines is_one lines checkout upgrade currency) _ h1 in
      let (same, quoted) = validate_lines_lem lines currency more in
      subst (λ x. (length x ≡ length (line ∷ lines)) × All (IsQuoted upgrade) x) (ok-injective h2)
        (ap suc same, (validate_proration_line-IsQuoted line currency one, quoted))

  two_lines :
      (ls : List ProrationLine)
      → length ls ≡ 2
      → (a : ProrationLine) × (b : ProrationLine) × (ls ≡ a ∷ b ∷ [])
  two_lines [] h = absurd (omega arith)
  two_lines (a ∷ []) h = absurd (omega arith)
  two_lines (a ∷ b ∷ []) h = (a, b, refl)
  two_lines (a ∷ b ∷ c ∷ ls) h = absurd (omega arith)

  pair_IsVerified :
      (a b : ProrationLine) (currency : String) (total amount_due : ℤ)
      → IsPair upgrade a b ⊎ IsPair upgrade b a
      → IsQuoted upgrade a
      → IsQuoted upgrade b
      → (is_positive total ≡ true) × (amount_due ≡ total) × (sum_amounts (a ∷ b ∷ []) ≡ total)
      → currency ≡ upgrade.quote.currency
      → IsVerified upgrade (record {
        currency = currency;
        amount_due = amount_due;
        total = total;
        lines = a ∷ b ∷ [];
      })
  pair_IsVerified a b currency total amount_due (inl pair) qa qb (pos_total, due, sum) same =
      (a, b, inl refl, pair, qa, qb, sym sum ∙ sum_pair a b, pos_total, due, same)
  pair_IsVerified a b currency total amount_due (inr pair) qa qb (pos_total, due, sum) same = (
    b,
    a,
    inr refl,
    pair,
    qb,
    qa,
    sym sum ∙ sum_pair a b ∙ +ℤ_comm a.amount b.amount,
    pos_total,
    due,
    same,
  )

  -- An invoice that is accepted has two lines, in any order: a credit, not positive, for the price
  -- that the subscription had, and a positive charge for the price that it gets, both for the period
  -- of the quote. Their sum is the total, which is positive and is the amount due, and the currency
  -- is the quote's.
  pub validate_upgrade_invoice_lem :
      (invoice : Json) (preview : Bool) {v : VerifiedUpgradeInvoice}
      → validate_upgrade_invoice is_one invoice checkout upgrade preview ≡ ok v
      → IsVerified upgrade v
  unfolding validate_upgrade_invoice
  validate_upgrade_invoice_lem invoice preview h =
      let currency = upgrade.quote.currency in
      let (_, _, h1) = >>=-eq-ok (require_invoice_identity invoice checkout) _ h in
      let (_, _, h2) = >>=-eq-ok (require_supported_invoice_setup invoice currency preview) _ h1 in
      let (raw, complete, h3) = >>=-eq-ok (raw_lines invoice) _ h2 in
      let (lines, valid, h4) =
        >>=-eq-ok (validate_lines is_one raw checkout upgrade currency) _ h3 in
      let (_, paired, h5) = >>=-eq-ok (require_credit_and_charge lines upgrade) _ h4 in
      let ((total, amount_due), summed, h6) = >>=-eq-ok (checked_total invoice lines) _ h5 in
      let (same_length, quoted) = validate_lines_lem raw currency valid in
      let (a, b, two) = two_lines lines (same_length ∙ raw_lines_lem invoice complete) in
      let both = subst (All (IsQuoted upgrade)) two quoted in
      subst (IsVerified upgrade)
        (ap (λ x. record { currency = currency; amount_due = amount_due; total = total; lines = x })
            (sym two)
          ∙ ok-injective h6)
        (pair_IsVerified a b currency total amount_due
          (require_credit_and_charge_lem a b upgrade
            (subst (λ x. require_credit_and_charge x upgrade ≡ ok tt) two paired))
          both.0 both.1.0
          (checked_total_lem invoice (a ∷ b ∷ [])
            (subst (λ x. checked_total invoice x ≡ ok (total, amount_due)) two summed))
          refl)
