-- ===== src/Billing/Types.antt =====
-- services/billing_types.py: the values that the payment rules build, and the record that is kept.
-- Points of time are whole seconds.
use Prim.Native.Nat.{Ordering}
use Prim.Native.String.{compare}
use scientific_research_rada.Prelude.{
  ℕ, String, Bool, true, false, List, [], ◌∷◌, map, Option, if◌then◌else◌,
}
use scientific_research_rada.Billing.Integers.{ℤ}
use scientific_research_rada.Billing.Json.{Json, text}

-- The columns that the rules read.
pub record SandboxCheckout : Type 0 where
  pub id : ℕ
  pub price_id : String
  pub livemode : Bool
  pub customer_id : Option String
  pub subscription_id : Option String

pub record ProrationLine : Type 0 where
  pub price_id : Json
  pub amount : ℤ
  pub period_start : Json
  pub period_end : Json

pub record ProrationLineRecord : Type 0 where
  pub price : Json
  pub amount : ℤ
  pub start : Json
  pub end : Json

pub record UpgradeQuoteRecord : Type 0 where
  pub currency : String
  pub amount_due : ℤ
  pub total : ℤ
  pub lines : List ProrationLineRecord

pub record VerifiedUpgradeInvoice : Type 0 where
  pub currency : String
  pub amount_due : ℤ
  pub total : ℤ
  pub lines : List ProrationLine

pub record SubscriptionUpgrade : Type 0 where
  pub checkout_id : ℕ
  pub invoice_id : Option String
  pub source_price_id : String
  pub target_price_id : String
  pub item_id : String
  pub period_end : ℕ
  pub proration_at : ℕ
  pub applied_at : Option ℕ
  pub quote : UpgradeQuoteRecord

pub record PriceBinding : Type 0 where
  pub effective_at : ℕ
  pub source_price_id : String
  pub target_price_id : String

pub record InvoiceReview : Type 0 where
  pub issue : Option String
  pub start : ℕ
  pub end : ℕ

abbrev pub line_record : ProrationLine → ProrationLineRecord
line_record line = record {
  price = line.price_id;
  amount = line.amount;
  start = line.period_start;
  end = line.period_end;
}

-- Texts in the order of their characters. The prices of a verified invoice are texts.
abbrev pub price_after : Json → Json → Bool
price_after (text a) (text b) = elim (compare a b) [ Ordering.gt ↦ true | _ ↦ false ]
price_after _ _ = false

-- `sorted(lines, key=lambda line: line.price_id)`: equal prices keep their order.
unfoldable pub insert_line : ProrationLine → List ProrationLine → List ProrationLine
insert_line line [] = line ∷ []
insert_line line (other ∷ rest) =
    let later = insert_line line rest in
    if price_after line.price_id other.price_id then other ∷ later else line ∷ other ∷ rest

unfoldable pub sorted_lines : List ProrationLine → List ProrationLine
unfolding insert_line
sorted_lines [] = []
sorted_lines (line ∷ rest) = insert_line line (sorted_lines rest)

-- `VerifiedUpgradeInvoice.to_record`
unfoldable pub to_record : VerifiedUpgradeInvoice → UpgradeQuoteRecord
unfolding sorted_lines
to_record v = record {
  currency = v.currency;
  amount_due = v.amount_due;
  total = v.total;
  lines = map line_record (sorted_lines v.lines);
}
