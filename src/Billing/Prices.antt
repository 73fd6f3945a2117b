-- ===== src/Billing/Prices.antt =====
-- `expected_invoice_price` of services/billing_payment_rules.py: the price that a full period is
-- billed at, after scheduled changes and upgrades.
use scientific_research_rada.Prelude.{
  ℕ, ◌≤◌, String, ◌&&◌, List, [], ◌∷◌, ◌++◌, Option, none, some, ltb, leb, ◌==◌, if◌then◌else◌, inl,
  inr, arith, All, All-map_implies, Bool-cases,
}
use scientific_research_rada.Prelude.Keyed.{is_some}
use scientific_research_rada.Billing.Types.{SandboxCheckout, SubscriptionUpgrade, PriceBinding}

-- The columns of models/subscription_change.py that are read.
pub record SubscriptionChange : Type 0 where
  pub checkout_id : ℕ
  pub source_price_id : String
  pub target_price_id : String
  pub effective_at : ℕ
  pub applied_at : Option ℕ

-- The rows of the checkout that were applied.
unfoldable pub change_bindings : ℕ → List SubscriptionChange → List PriceBinding
change_bindings checkout_id [] = []
change_bindings checkout_id (c ∷ cs) =
    let rest = change_bindings checkout_id cs in
    if (c.checkout_id == checkout_id) && is_some c.applied_at
    then record {
      effective_at = c.effective_at;
      source_price_id = c.source_price_id;
      target_price_id = c.target_price_id;
    }
      ∷ rest
    else rest

unfoldable pub upgrade_bindings : ℕ → List SubscriptionUpgrade → List PriceBinding
upgrade_bindings checkout_id [] = []
upgrade_bindings checkout_id (u ∷ us) =
    let rest = upgrade_bindings checkout_id us in
    if (u.checkout_id == checkout_id) && is_some u.applied_at
    then record {
      effective_at = u.proration_at;
      source_price_id = u.source_price_id;
      target_price_id = u.target_price_id;
    }
      ∷ rest
    else rest

-- `events.sort(key=lambda event: event.effective_at)`: equal times keep their order.
unfoldable pub insert_binding : PriceBinding → List PriceBinding → List PriceBinding
insert_binding b [] = b ∷ []
insert_binding b (c ∷ cs) =
    let later = insert_binding b cs in
    if ltb c.effective_at b.effective_at then c ∷ later else b ∷ c ∷ cs

unfoldable pub sorted_bindings : List PriceBinding → List PriceBinding
unfolding insert_binding
sorted_bindings [] = []
sorted_bindings (b ∷ bs) = insert_binding b (sorted_bindings bs)

-- The loop over the sorted bindings.
unfoldable pub price_after_bindings : ℕ → String → List PriceBinding → String
price_after_bindings start price [] = price
price_after_bindings start price (b ∷ bs) =
    price_after_bindings start (if leb b.effective_at start then b.target_price_id else price) bs

abbrev pub first_source : SandboxCheckout → List PriceBinding → String
first_source checkout [] = checkout.price_id
first_source checkout (b ∷ bs) = b.source_price_id

unfoldable pub price_of_events : SandboxCheckout → List PriceBinding → Option ℕ → String
unfolding price_after_bindings
price_of_events checkout events none = checkout.price_id
price_of_events checkout events (some start) =
    price_after_bindings start (first_source checkout events) events

unfoldable pub expected_invoice_price :
    List SubscriptionChange → List SubscriptionUpgrade → SandboxCheckout → Option ℕ → String
unfolding sorted_bindings change_bindings upgrade_bindings price_of_events
expected_invoice_price changes upgrades checkout period_start =
    price_of_events checkout
      (sorted_bindings
        (change_bindings checkout.id changes ++ upgrade_bindings checkout.id upgrades))
      period_start

-- Times that do not decrease.
abbrev pub AreSorted : List PriceBinding → Type 0
AreSorted [] = Unit
AreSorted (b ∷ bs) = All (λ (c : PriceBinding). b.effective_at ≤ c.effective_at) bs × AreSorted bs

module _ (P : PriceBinding → Type 0) where
  All-insert_binding :
      (b : PriceBinding) (bs : List PriceBinding) → P b → All P bs → All P (insert_binding b bs)
  unfolding insert_binding
  All-insert_binding b [] h hs = (h, tt)
  All-insert_binding b (c ∷ cs) h hs = elim (Bool-cases (ltb c.effective_at b.effective_at)) [
    | inl after ↦ rw after (hs.0, All-insert_binding b cs h hs.1)
    | inr before ↦ rw before (h, hs)
  ]

insert_binding-AreSorted :
    (b : PriceBinding) (bs : List PriceBinding) → AreSorted bs → AreSorted (insert_binding b bs)
unfolding insert_binding
insert_binding-AreSorted b [] h = (tt, tt)
insert_binding-AreSorted b (c ∷ cs) h = elim (Bool-cases (ltb c.effective_at b.effective_at)) [
  | inl after ↦ rw after (
    All-insert_binding (λ (d : PriceBinding). c.effective_at ≤ d.effective_at) b cs (ground arith)
        h.0,
    insert_binding-AreSorted b cs h.1,
  )
  | inr before ↦ rw before (
    (
      ground arith,
      All-map_implies (λ (d : PriceBinding). c.effective_at ≤ d.effective_at)
          (λ (d : PriceBinding). b.effective_at ≤ d.effective_at) cs (λ d le. ground arith) h.0,
    ),
    h,
  )
]

pub sorted_bindings-AreSorted : (bs : List PriceBinding) → AreSorted (sorted_bindings bs)
unfolding sorted_bindings
sorted_bindings-AreSorted [] = tt
sorted_bindings-AreSorted (b ∷ bs) =
    insert_binding-AreSorted b (sorted_bindings bs) (sorted_bindings-AreSorted bs)
