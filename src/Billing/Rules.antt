-- ===== src/Billing/Rules.antt =====
-- services/billing_payment_rules.py: what an invoice must show before an upgrade is confirmed or
-- taken as paid.
pub mod Evidence
unfoldable pub use Evidence.*
use scientific_research_rada.Prelude.{
  ℕ, String, Bool, true, false, not, ◌&&◌, ◌||◌, List, [], ◌∷◌, Option, none, some, length, any,
  all, str_eq, ◌==◌, leb, if◌then◌else◌,
}
use scientific_research_rada.Prelude.Outcome.{ok, raised, raise_if, ◌>>=◌, ◌>>◌}
use scientific_research_rada.Billing.Integers.{ℤ, pos, ◌+ℤ◌, is_positive, same_int}
use scientific_research_rada.Billing.Json.{
  Json, no_items, null, boolean, number, text, array, object, Failure, error, type_error, Checked,
  get, get_or, truthy, or_else, empty_object, is_boolean, is_text, is_column, is_number, len,
  iterate,
}
use scientific_research_rada.Billing.Types.{
  SandboxCheckout, SubscriptionUpgrade, ProrationLine, VerifiedUpgradeInvoice, UpgradeQuoteRecord,
  ProrationLineRecord, InvoiceReview, to_record,
}

unfoldable pub sum_amounts : List ProrationLine → ℤ
sum_amounts [] = pos 0
sum_amounts (l ∷ ls) = l.amount +ℤ sum_amounts ls

abbrev total_error : Failure
total_error = error "Upgrade total must match its credit and charge without other adjustments." 409

abbrev integer_of : Json → Checked ℤ
integer_of (number n) = ok n
integer_of _ = raised total_error

abbrev count_error : Failure
count_error = error "Expected exactly the complete unused-time credit and upgrade charge." 409

-- The complete page of two lines.
unfoldable pub raw_lines : Json → Checked (List Json)
raw_lines invoice = do
  given ← get invoice "lines"
  let page = or_else given empty_object
  found ← get page "data"
  let data_lines = or_else found (array no_items)
  more ← get page "has_more"
  raise_if (not (is_boolean more false)) count_error
  n ← len data_lines
  raise_if (not (n == 2)) count_error
  iterate data_lines

-- The total and the amount due, for the verified lines.
unfoldable pub checked_total : Json → List ProrationLine → Checked (ℤ × ℤ)
unfolding sum_amounts
checked_total invoice lines = do
  raw_total ← get invoice "total"
  raw_due ← get invoice "amount_due"
  total ← integer_of raw_total
  amount_due ← integer_of raw_due
  raise_if
      (not (is_positive total && same_int amount_due total && same_int (sum_amounts lines) total))
      total_error
  ok (total, amount_due)

module _ (is_one : Json → Bool) where
  unfoldable pub validate_upgrade_invoice :
      Json → SandboxCheckout → SubscriptionUpgrade → Bool → Checked VerifiedUpgradeInvoice
  validate_upgrade_invoice invoice checkout upgrade preview = do
    require_invoice_identity invoice checkout
    let currency = upgrade.quote.currency
    require_supported_invoice_setup invoice currency preview
    raw ← raw_lines invoice
    lines ← validate_lines is_one raw checkout upgrade currency
    require_credit_and_charge lines upgrade
    (total, amount_due) ← checked_total invoice lines
    ok (record { currency = currency; amount_due = amount_due; total = total; lines = lines })

  unfoldable pub snapshot :
      Json → SandboxCheckout → SubscriptionUpgrade → Bool → Checked UpgradeQuoteRecord
  snapshot invoice checkout upgrade preview = do
    v ← validate_upgrade_invoice invoice checkout upgrade preview
    ok (to_record v)

abbrev settlement_error : Failure
settlement_error = error "Upgrade settlement is incomplete or inconsistent." 409

-- The second part of the condition, for a paid invoice.
unfoldable pub check_paid : Json → UpgradeQuoteRecord → Json → Json → Checked (Unit {0})
check_paid invoice quote paid remaining = do
  raise_if (not (is_number paid quote.amount_due && is_number remaining (pos 0))) settlement_error
  transitions ← get invoice "status_transitions"
  paid_at ← get (or_else transitions empty_object) "paid_at"
  raise_if (not (truthy paid_at)) settlement_error

unfoldable pub require_upgrade_settlement : Json → UpgradeQuoteRecord → Checked (Unit {0})
unfolding check_paid
require_upgrade_settlement invoice quote = do
  status ← get invoice "status"
  paid ← get invoice "amount_paid"
  remaining ← get invoice "amount_remaining"
  if is_text status "paid" then check_paid invoice quote paid remaining else ok tt

abbrev same_line : ProrationLineRecord → ProrationLineRecord → Bool
same_line a b =
    same_key a.price b.price
    && same_int a.amount b.amount
    && same_key a.start b.start
    && same_key a.end b.end

unfoldable pub same_lines : List ProrationLineRecord → List ProrationLineRecord → Bool
same_lines [] [] = true
same_lines (a ∷ as') (b ∷ bs) = same_line a b && same_lines as' bs
same_lines _ _ = false

unfoldable pub same_quote : UpgradeQuoteRecord → UpgradeQuoteRecord → Bool
same_quote a b =
    str_eq a.currency b.currency
    && same_int a.amount_due b.amount_due
    && same_int a.total b.total
    && same_lines a.lines b.lines

-- The upgrade of the checkout with the invoice's id.
unfoldable pub upgrade_of : Json → ℕ → List SubscriptionUpgrade → Option SubscriptionUpgrade
upgrade_of id checkout_id [] = none
upgrade_of id checkout_id (u ∷ us) =
    let others = upgrade_of id checkout_id us in
    if is_column id u.invoice_id && (u.checkout_id == checkout_id) then some u else others

-- `except Error`: other exceptions go on.
abbrev pub issue_of : Checked (Unit {0}) → Checked (Option String)
issue_of (ok _) = ok none
issue_of (raised (error message status)) = ok (some message)
issue_of (raised other) = raised other

module _ (is_one : Json → Bool) where
  unfoldable pub invoice_check : Json → SandboxCheckout → SubscriptionUpgrade → Checked (Unit {0})
  invoice_check invoice checkout upgrade = do
    found ← snapshot is_one invoice checkout upgrade false
    raise_if (not (same_quote found upgrade.quote))
        (error "The invoice differs from the confirmed upgrade quote." 409)
    require_upgrade_settlement invoice upgrade.quote

  unfoldable pub invoice_issue :
      List SubscriptionUpgrade → SandboxCheckout → Json → Checked (Option InvoiceReview)
  invoice_issue upgrades checkout invoice = do
    id ← get invoice "id"
    elim (upgrade_of id checkout.id upgrades) [
      | none ↦ ok none
      | some upgrade ↦ do
        issue ← issue_of (invoice_check invoice checkout upgrade)
        ok (some (record { issue = issue; start = upgrade.proration_at; end = upgrade.period_end }))
    ]
