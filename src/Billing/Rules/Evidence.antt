-- ===== src/Billing/Rules/Evidence.antt =====
-- The checks of services/billing_payment_rules.py on the parts of an invoice: whose it is, how it was
-- made, its lines, and the pair of a credit and a charge.
use scientific_research_rada.Prelude.{
  ℕ, String, Bool, true, false, not, ◌&&◌, ◌||◌, List, [], ◌∷◌, Option, none, some, length, any,
  all, ◌==◌, leb, if◌then◌else◌,
}
use scientific_research_rada.Prelude.Outcome.{ok, raised, raise_if, ◌>>=◌, ◌>>◌}
use scientific_research_rada.Billing.Integers.{ℤ, pos, is_positive}
use scientific_research_rada.Billing.Json.{
  Json, null, boolean, number, text, array, object, Failure, error, type_error, Checked, get,
  get_or, truthy, or_else, empty_object, is_boolean, is_text, is_column, is_number,
}
use scientific_research_rada.Billing.Types.{SandboxCheckout, SubscriptionUpgrade, ProrationLine}

unfoldable pub ref : Json → Json
ref (object ms) = elim (get (object ms) "id") [ ok x ↦ x | raised _ ↦ null ]
ref value = value

unfoldable pub subscription_id : Json → Checked Json
subscription_id value = do
  parent ← get value "parent"
  details ← get (or_else parent empty_object) "subscription_details"
  inner ← get (or_else details empty_object) "subscription"
  outer ← get value "subscription"
  ok (ref (or_else inner outer))

unfoldable pub metadata : Json → Checked Json
metadata value = do
  parent ← get value "parent"
  nested ← get (or_else parent empty_object) "subscription_details"
  outer ← get value "subscription_details"
  saved ← get (or_else nested (or_else outer empty_object)) "metadata"
  ok (or_else saved empty_object)

-- `datetime.fromtimestamp` refuses times after `last`.
abbrev pub bad_stamp : Failure
bad_stamp = error "Stripe returned an invalid invoice timestamp." 502

unfoldable pub stamp : ℕ → Json → Bool → Checked (Option ℕ)
stamp last null true = ok none
stamp last (number (pos n)) optional = if leb n last then ok (some n) else raised bad_stamp
stamp last value optional = raised bad_stamp

abbrev pub owner_error : Failure
owner_error = error "Upgrade invoice ownership could not be verified." 409

-- The tests in the order of the condition: the later ones may end with an exception.
unfoldable pub require_invoice_identity : Json → SandboxCheckout → Checked (Unit {0})
require_invoice_identity invoice checkout = do
  kind ← get invoice "object"
  livemode ← get invoice "livemode"
  customer ← get invoice "customer"
  raise_if
      (not (
        is_text kind "invoice"
        && is_boolean livemode checkout.livemode
        && is_column (ref customer) checkout.customer_id))
      owner_error
  subscription ← subscription_id invoice
  raise_if (not (is_column subscription checkout.subscription_id)) owner_error

-- `any(invoice.get(field) for field in fields)`
unfoldable pub any_field : Json → List String → Checked Bool
any_field invoice [] = ok false
any_field invoice (f ∷ fs) = do
  value ← get invoice f
  others ← any_field invoice fs
  ok (truthy value || others)

abbrev pub discount_fields : List String
discount_fields = "discounts" ∷ "total_discount_amounts" ∷ "default_tax_rates" ∷ []

abbrev pub balance_fields : List String
balance_fields =
    "starting_balance" ∷ "ending_balance" ∷ "amount_shipping" ∷ "paid_out_of_band"
    ∷ "amount_paid_off_stripe" ∷ "post_payment_credit_notes_amount"
    ∷ "pre_payment_credit_notes_amount" ∷ "amount_overpaid" ∷ []

abbrev pub adjusted_error : Failure
adjusted_error =
    error "Discounts, balances, manual settlement, or invoice adjustments require review." 409

unfoldable pub require_supported_invoice_setup : Json → String → Bool → Checked (Unit {0})
require_supported_invoice_setup invoice currency preview = do
  actual ← get invoice "currency"
  collection ← get invoice "collection_method"
  raise_if (not (is_text actual currency && is_text collection "charge_automatically"))
      (error "Upgrade invoice currency or collection method does not match." 409)
  reason ← get invoice "billing_reason"
  raise_if (not preview && not (is_text reason "subscription_update"))
      (error "Expected an invoice generated by this subscription update." 409)
  discounted ← any_field invoice discount_fields
  raise_if discounted adjusted_error
  automatic ← get invoice "automatic_tax"
  taxed ← get (or_else automatic empty_object) "enabled"
  adjusted ← any_field invoice balance_fields
  raise_if (truthy taxed || adjusted) adjusted_error

abbrev pub is_null : Json → Bool
is_null null = true
is_null _ = false

abbrev pub line_error : Failure
line_error = error "Upgrade invoice line ownership, quantity, or proration is unverified." 409

abbrev pub amount_of : Json → Checked ℤ
amount_of (number n) = ok n
amount_of _ = raised line_error

-- The price of a line, from its `pricing` or from the older field.
unfoldable pub line_price : Json → Checked Json
line_price line = do
  pricing ← get line "pricing"
  details ← get (or_else pricing empty_object) "price_details"
  inner ← get (or_else details empty_object) "price"
  outer ← get line "price"
  ok (ref (or_else inner outer))

unfoldable pub line_period : Json → SubscriptionUpgrade → Checked (Json × Json)
line_period line upgrade = do
  period ← get line "period"
  start ← get (or_else period empty_object) "start"
  end ← get (or_else period empty_object) "end"
  raise_if
      (not (is_number start (pos upgrade.proration_at) && is_number end (pos upgrade.period_end)))
      (error "Upgrade proration dates differ from the confirmed quote." 409)
  ok (start, end)

-- `Decimal(str(quantity)) == 1`: the reading of decimals is the standard library's.
module _ (is_one : Json → Bool) where
  -- The amount of a line of this subscription and its item.
  unfoldable pub line_amount : Json → SandboxCheckout → SubscriptionUpgrade → String → Checked ℤ
  line_amount line checkout upgrade currency = do
    parent ← get line "parent"
    item ← get (or_else parent empty_object) "subscription_item_details"
    let details = or_else item empty_object
    decimal ← get line "quantity_decimal"
    quantity ← get line "quantity"
    outer_proration ← get line "proration"
    proration ← get_or details "proration" outer_proration
    inner_subscription ← get details "subscription"
    outer_subscription ← get line "subscription"
    inner_item ← get details "subscription_item"
    outer_item ← get line "subscription_item"
    actual ← get line "currency"
    raise_if
        (not (
          is_boolean proration true
          && is_one (if is_null decimal then quantity else decimal)
          && is_column (ref (or_else inner_subscription outer_subscription))
              checkout.subscription_id
          && is_text (ref (or_else inner_item outer_item)) upgrade.item_id
          && is_text actual currency))
        line_error
    amount ← get line "amount"
    amount_of amount

  unfoldable pub validate_proration_line :
      Json → SandboxCheckout → SubscriptionUpgrade → String → Checked ProrationLine
  validate_proration_line line checkout upgrade currency = do
    price ← line_price line
    amount ← line_amount line checkout upgrade currency
    (start, end) ← line_period line upgrade
    ok (record { price_id = price; amount = amount; period_start = start; period_end = end })

  unfoldable pub validate_lines :
      List Json → SandboxCheckout → SubscriptionUpgrade → String → Checked (List ProrationLine)
  validate_lines [] checkout upgrade currency = ok []
  validate_lines (line ∷ lines) checkout upgrade currency = do
    first ← validate_proration_line line checkout upgrade currency
    others ← validate_lines lines checkout upgrade currency
    ok (first ∷ others)

-- `a == b` for keys of a dictionary.
abbrev pub same_key : Json → Json → Bool
same_key null null = true
same_key (text s) b = is_text b s
same_key (number n) b = is_number b n
same_key (boolean true) b = is_number b (pos 1)
same_key (boolean false) b = is_number b (pos 0)
same_key _ b = false

-- A list or a dictionary is no key.
abbrev pub is_key : Json → Bool
is_key (array xs) = false
is_key (object ms) = false
is_key _ = true

-- The keys of `{line.price_id: line for line in lines}`.
unfoldable pub distinct_prices : List ProrationLine → List Json
distinct_prices [] = []
distinct_prices (l ∷ ls) =
    let others = distinct_prices ls in
    if any (same_key l.price_id) others then others else l.price_id ∷ others

-- The amount of the last line of a price, if that passes a test.
unfoldable pub price_amount : String → List ProrationLine → Option ℤ
price_amount price [] = none
price_amount price (l ∷ ls) = elim (price_amount price ls) [
  | some n ↦ some n
  | none ↦ if is_text l.price_id price then some l.amount else none
]

abbrev pub is_charge : Option ℤ → Bool
is_charge none = false
is_charge (some n) = is_positive n

abbrev pub is_credit : Option ℤ → Bool
is_credit none = false
is_credit (some n) = not (is_positive n)

abbrev pub known_price : SubscriptionUpgrade → Json → Bool
known_price upgrade k = is_text k upgrade.source_price_id || is_text k upgrade.target_price_id

unfoldable pub require_credit_and_charge :
    List ProrationLine → SubscriptionUpgrade → Checked (Unit {0})
unfolding distinct_prices price_amount
require_credit_and_charge lines upgrade = do
  raise_if (not (all (λ (l : ProrationLine). is_key l.price_id) lines)) type_error
  let prices = distinct_prices lines
  raise_if
      (not (
        (length prices == 2)
        && all (known_price upgrade) prices
        && is_credit (price_amount upgrade.source_price_id lines)
        && is_charge (price_amount upgrade.target_price_id lines)))
      (error "Upgrade invoice must credit the saved source price and charge the target price." 409)
