-- ===== src/Billing/Settled.antt =====
-- What `invoice_issue` of services/billing_payment_rules.py has seen where it reports no issue.
use mathlib.Core.Path.{subst}
use scientific_research_rada.Prelude.{
  String, Bool, true, false, not, ◌&&◌, List, Option, none, some, ◌≡◌, ◌⊎◌, inl, inr, refl, sym, ap,
  ◌∙◌, arith, if◌then◌else◌,
}
use scientific_research_rada.Prelude.Outcome.{ok, raised, raise_if, ◌>>=◌, >>=-eq-ok, ok-injective}
use scientific_research_rada.Billing.Integers.{ℤ, pos}
use scientific_research_rada.Billing.Json.{
  Json, error, attribute_error, type_error, Checked, get, is_text, is_number,
}
use scientific_research_rada.Billing.Types.{
  SandboxCheckout, SubscriptionUpgrade, VerifiedUpgradeInvoice, UpgradeQuoteRecord, InvoiceReview,
  to_record,
}
use scientific_research_rada.Billing.Rules.{
  validate_upgrade_invoice, snapshot, same_quote, require_upgrade_settlement, upgrade_of,
  invoice_check, issue_of, invoice_issue,
}
use scientific_research_rada.Billing.Rules.{check_paid}
use scientific_research_rada.Billing.Verified.{IsVerified, validate_upgrade_invoice_lem}

-- An amount of the invoice is a number.
abbrev Has : Json → String → ℤ → Type 0
Has invoice key n = (x : Json) × (get invoice key ≡ ok x) × (is_number x n ≡ true)

-- A status other than paid, or the whole amount paid and nothing left to pay.
abbrev pub IsSettled : Json → UpgradeQuoteRecord → Type 0
IsSettled invoice quote =
    (status : Json) × (get invoice "status" ≡ ok status)
    × ((is_text status "paid" ≡ false)
        ⊎ (Has invoice "amount_paid" quote.amount_due × Has invoice "amount_remaining" (pos 0)))

check_paid_lem :
    (invoice : Json) (quote : UpgradeQuoteRecord) (paid remaining : Json) {done : Unit {0}}
    → check_paid invoice quote paid remaining ≡ ok done
    → (is_number paid quote.amount_due ≡ true) × (is_number remaining (pos 0) ≡ true)
unfolding check_paid
check_paid_lem invoice quote paid remaining h =
    let (_, passed, _) =
      >>=-eq-ok (raise_if (not (is_number paid quote.amount_due && is_number remaining (pos 0))) _)
        _ h in
    ground (arith, passed)

paid_branch :
    (b : Bool) (part : Checked (Unit {0})) {done : Unit {0}}
    → (if b then part else ok tt) ≡ ok done
    → (b ≡ false) ⊎ (part ≡ ok done)
paid_branch true part h = inr h
paid_branch false part h = inl refl

require_upgrade_settlement_lem :
    (invoice : Json) (quote : UpgradeQuoteRecord) {done : Unit {0}}
    → require_upgrade_settlement invoice quote ≡ ok done
    → IsSettled invoice quote
unfolding require_upgrade_settlement
require_upgrade_settlement_lem invoice quote h =
    let (status, known, h1) = >>=-eq-ok (get invoice "status") _ h in
    let (paid, has_paid, h2) = >>=-eq-ok (get invoice "amount_paid") _ h1 in
    let (remaining, has_remaining, h3) = >>=-eq-ok (get invoice "amount_remaining") _ h2 in
    (
      status,
      known,
      elim (paid_branch (is_text status "paid") (check_paid invoice quote paid remaining) h3) [
        | inl other ↦ inl other
        | inr checked ↦
            let (whole, nothing_left) = check_paid_lem invoice quote paid remaining checked in
            inr ((paid, has_paid, whole), (remaining, has_remaining, nothing_left))
      ],
    )

-- The review in a result.
abbrev issue_in : Option InvoiceReview → Option String
issue_in none = none
issue_in (some r) = r.issue

found_branch :
    (o : Option SubscriptionUpgrade) (review : SubscriptionUpgrade → Checked (Option InvoiceReview))
    {r : InvoiceReview}
    → elim o [ none ↦ ok none | some u ↦ review u ] ≡ ok (some r)
    → (u : SubscriptionUpgrade) × (o ≡ some u) × (review u ≡ ok (some r))
found_branch none review h = absurd (cc)
found_branch (some u) review h = (u, refl, h)

module _ (is_one : Json → Bool) (checkout : SandboxCheckout) where
  -- The evidence behind a confirmed upgrade.
  abbrev pub IsConfirmed : Json → SubscriptionUpgrade → Type 0
  IsConfirmed invoice upgrade =
      (v : VerifiedUpgradeInvoice) × (validate_upgrade_invoice is_one invoice checkout upgrade false
        ≡ ok v)
      × IsVerified upgrade v
      × (same_quote (to_record v) upgrade.quote ≡ true)
      × IsSettled invoice upgrade.quote

  invoice_check_lem :
      (invoice : Json) (upgrade : SubscriptionUpgrade) {done : Unit {0}}
      → invoice_check is_one invoice checkout upgrade ≡ ok done
      → IsConfirmed invoice upgrade
  unfolding invoice_check snapshot
  invoice_check_lem invoice upgrade h =
      let (found, made, h1) = >>=-eq-ok (snapshot is_one invoice checkout upgrade false) _ h in
      let (v, valid, h2) =
        >>=-eq-ok (validate_upgrade_invoice is_one invoice checkout upgrade false) _ made in
      let (_, same, h3) = >>=-eq-ok (raise_if (not (same_quote found upgrade.quote)) _) _ h1 in
      (
        v,
        valid,
        validate_upgrade_invoice_lem is_one checkout upgrade invoice false valid,
        subst (λ x. same_quote x upgrade.quote ≡ true) (sym (ok-injective h2)) (ground arith),
        require_upgrade_settlement_lem invoice upgrade.quote h3,
      )

  issue_of_lem : (c : Checked (Unit {0})) → issue_of c ≡ ok none → c ≡ ok tt
  issue_of_lem (ok tt) h = refl
  issue_of_lem (raised (error m s)) h = absurd (cc)
  issue_of_lem (raised attribute_error) h = absurd (cc)
  issue_of_lem (raised type_error) h = absurd (cc)

  review_lem :
      (invoice : Json) (upgrade : SubscriptionUpgrade) {review : InvoiceReview}
      → (issue_of (invoice_check is_one invoice checkout upgrade) >>= λ issue.
          ok (
            some
              (record { issue = issue; start = upgrade.proration_at; end = upgrade.period_end })))
        ≡ ok (some review)
      → review.issue ≡ none
      → IsConfirmed invoice upgrade
  review_lem invoice upgrade {review} h clear =
      let (issue, found, h1) =
        >>=-eq-ok (issue_of (invoice_check is_one invoice checkout upgrade)) _ h in
      invoice_check_lem invoice upgrade (
        issue_of_lem (invoice_check is_one invoice checkout upgrade) (
          subst (λ x. issue_of (invoice_check is_one invoice checkout upgrade) ≡ ok x)
            (ap issue_in (ok-injective h1) ∙ clear) found))

  -- A review without an issue stands for an upgrade of this checkout whose invoice is verified, has
  -- the amounts and the lines of the confirmed quote, and is settled.
  pub invoice_issue_lem :
      (upgrades : List SubscriptionUpgrade) (invoice : Json) {review : InvoiceReview}
      → invoice_issue is_one upgrades checkout invoice ≡ ok (some review)
      → review.issue ≡ none
      → (id : Json) × (upgrade : SubscriptionUpgrade) × (get invoice "id" ≡ ok id)
        × (upgrade_of id checkout.id upgrades ≡ some upgrade)
        × IsConfirmed invoice upgrade
  unfolding invoice_issue
  invoice_issue_lem upgrades invoice {review} h clear =
      let (id, known, h1) = >>=-eq-ok (get invoice "id") _ h in
      let (upgrade, present, h2) = found_branch (upgrade_of id checkout.id upgrades) _ h1 in
      (id, upgrade, known, present, review_lem invoice upgrade h2 clear)
