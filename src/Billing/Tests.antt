-- ===== src/Billing/Tests.antt =====
-- An upgrade from a price of 1000 to one of 2500 in the middle of a period, as Stripe's JSON.
use scientific_research_rada.Billing.Rules.{
  require_invoice_identity, ref, subscription_id, require_supported_invoice_setup, any_field,
  raw_lines, validate_lines, validate_proration_line, line_price, line_amount, line_period,
  require_credit_and_charge, checked_total, invoice_check, snapshot, require_upgrade_settlement,
  check_paid, same_lines, same_quote,
}
use scientific_research_rada.Billing.Integers.{◌+ℤ◌}
use scientific_research_rada.Billing.Json.{get_or}
use scientific_research_rada.Prelude.{
  String, Bool, true, false, List, [], ◌∷◌, none, some, ◌≡◌, inl, inr, refl,
}
use scientific_research_rada.Prelude.Outcome.{ok}
use scientific_research_rada.Billing.Integers.{ℤ, pos, negsuc}
use scientific_research_rada.Billing.Json.{
  Json, boolean, number, text, array, object, no_items, item, no_members, member, get, is_number,
}
use scientific_research_rada.Billing.Types.{
  SandboxCheckout, SubscriptionUpgrade, ProrationLine, VerifiedUpgradeInvoice, UpgradeQuoteRecord,
  InvoiceReview, to_record,
}
use scientific_research_rada.Billing.Rules.{validate_upgrade_invoice, invoice_issue, upgrade_of}
use scientific_research_rada.Billing.Verified.{IsVerified, validate_upgrade_invoice_lem}
use scientific_research_rada.Billing.Order.{to_record_order}
use scientific_research_rada.Billing.Settled.{IsConfirmed, invoice_issue_lem}
use scientific_research_rada.Billing.Applied.{IsApplied}
use scientific_research_rada.Billing.InForce.{IsPriceAt, expected_invoice_price_lem}
use scientific_research_rada.Billing.Prices.{SubscriptionChange, expected_invoice_price}

abbrev checkout : SandboxCheckout
checkout = record {
  id = 1;
  price_id = "price_a";
  livemode = false;
  customer_id = some "cus_1";
  subscription_id = some "sub_1";
}

abbrev quote : UpgradeQuoteRecord
quote = record {
  currency = "eur";
  amount_due = pos 750;
  total = pos 750;
  lines =
      record {
        price = text "price_a";
        amount = negsuc 499;
        start = number (pos 100);
        end = number (pos 200);
      }
      ∷ record {
        price = text "price_b";
        amount = pos 1250;
        start = number (pos 100);
        end = number (pos 200);
      }
      ∷ [];
}

abbrev upgrade : SubscriptionUpgrade
upgrade = record {
  checkout_id = 1;
  invoice_id = some "in_1";
  source_price_id = "price_a";
  target_price_id = "price_b";
  item_id = "si_1";
  period_end = 200;
  proration_at = 100;
  applied_at = some 110;
  quote = quote;
}

abbrev obj : List (String × Json) → Json
obj [] = object no_members
obj ((k, x) ∷ rest) = elim (obj rest) [ object ms ↦ object (member k x ms) | other ↦ other ]

abbrev line : String → ℤ → Json
line price amount = obj (
    ("proration", boolean true)
    ∷ ("quantity", number (pos 1))
    ∷ ("subscription", text "sub_1")
    ∷ ("subscription_item", text "si_1")
    ∷ ("currency", text "eur")
    ∷ ("amount", number amount)
    ∷ ("price", text price)
    ∷ ("period", obj (("start", number (pos 100)) ∷ ("end", number (pos 200)) ∷ []))
    ∷ [])

-- The charge stands before the credit.
abbrev invoice : Json
invoice = obj (
    ("id", text "in_1")
    ∷ ("object", text "invoice")
    ∷ ("livemode", boolean false)
    ∷ ("customer", text "cus_1")
    ∷ ("subscription", text "sub_1")
    ∷ ("currency", text "eur")
    ∷ ("collection_method", text "charge_automatically")
    ∷ ("billing_reason", text "subscription_update")
    ∷ (
      "lines",
      obj (
          ("has_more", boolean false)
          ∷ (
            "data",
            array (item (line "price_b" (pos 1250)) (item (line "price_a" (negsuc 499)) no_items)),
          )
          ∷ []),
    )
    ∷ ("total", number (pos 750))
    ∷ ("amount_due", number (pos 750))
    ∷ ("status", text "paid")
    ∷ ("amount_paid", number (pos 750))
    ∷ ("amount_remaining", number (pos 0))
    ∷ ("status_transitions", obj (("paid_at", number (pos 120)) ∷ []))
    ∷ [])

abbrev is_one : Json → Bool
is_one x = is_number x (pos 1)

abbrev credit : ProrationLine
credit = record {
  price_id = text "price_a";
  amount = negsuc 499;
  period_start = number (pos 100);
  period_end = number (pos 200);
}

abbrev charge : ProrationLine
charge = record {
  price_id = text "price_b";
  amount = pos 1250;
  period_start = number (pos 100);
  period_end = number (pos 200);
}

abbrev verified : VerifiedUpgradeInvoice
verified = record {
  currency = "eur";
  amount_due = pos 750;
  total = pos 750;
  lines = charge ∷ credit ∷ [];
}

abbrev review : InvoiceReview
review = record { issue = none; start = 100; end = 200 }

verified_run : validate_upgrade_invoice is_one invoice checkout upgrade false ≡ ok verified
unfolding validate_upgrade_invoice require_invoice_identity get_or ref subscription_id
    require_supported_invoice_setup any_field raw_lines validate_lines validate_proration_line
    line_price line_amount line_period require_credit_and_charge checked_total ◌+ℤ◌
verified_run = refl

validate_upgrade_invoice_lem_example : IsVerified upgrade verified
validate_upgrade_invoice_lem_example =
    validate_upgrade_invoice_lem is_one checkout upgrade invoice false verified_run

issue_run : invoice_issue is_one (upgrade ∷ []) checkout invoice ≡ ok (some review)
unfolding validate_upgrade_invoice require_invoice_identity get_or ref subscription_id
    require_supported_invoice_setup any_field raw_lines validate_lines validate_proration_line
    line_price line_amount line_period require_credit_and_charge checked_total ◌+ℤ◌ invoice_issue
    upgrade_of invoice_check snapshot require_upgrade_settlement check_paid same_lines same_quote
    to_record
issue_run = refl

invoice_issue_lem_example :
    (id : Json) × (u : SubscriptionUpgrade) × (get invoice "id" ≡ ok id)
    × (upgrade_of id 1 (upgrade ∷ []) ≡ some u)
    × IsConfirmed is_one checkout invoice u
invoice_issue_lem_example =
    invoice_issue_lem is_one checkout (upgrade ∷ []) invoice {review = review} issue_run refl

abbrev swapped : VerifiedUpgradeInvoice
swapped = record verified { lines = credit ∷ charge ∷ [] }

to_record_order_example : to_record verified ≡ to_record swapped
unfolding ◌+ℤ◌
to_record_order_example =
    to_record_order upgrade verified swapped
      (
        credit,
        charge,
        inr refl,
        (refl, refl, refl, refl, refl),
        (refl, refl),
        (refl, refl),
        refl,
        refl,
        refl,
        refl,
      )
      (
        credit,
        charge,
        inl refl,
        (refl, refl, refl, refl, refl),
        (refl, refl),
        (refl, refl),
        refl,
        refl,
        refl,
        refl,
      )
      refl refl

abbrev change : SubscriptionChange
change = record {
  checkout_id = 1;
  source_price_id = "price_b";
  target_price_id = "price_c";
  effective_at = 300;
  applied_at = some 300;
}

expected_invoice_price_lem_example :
    IsPriceAt checkout 200
      (IsApplied (change ∷ []) (upgrade ∷ []) checkout)
      (expected_invoice_price (change ∷ []) (upgrade ∷ []) checkout (some 200))
expected_invoice_price_lem_example =
    expected_invoice_price_lem (change ∷ []) (upgrade ∷ []) checkout 200
