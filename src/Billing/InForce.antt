-- ===== src/Billing/InForce.antt =====
-- `expected_invoice_price` of services/billing_payment_rules.py picks the last change or upgrade that
-- was in force at the start of a period.
use mathlib.Core.Path.{subst}
use scientific_research_rada.Prelude.{
  ℕ, ◌≤◌, ◌<◌, String, List, [], ◌∷◌, ◌++◌, some, ltb, leb, ◌≡◌, ◌⊎◌, inl, inr, refl, sym, arith,
  All, All-map_implies, Bool-cases, ◌↔◌,
}
use scientific_research_rada.Billing.Applied.{Occurs, IsApplied, events-IsApplied}
use scientific_research_rada.Billing.Types.{SandboxCheckout, SubscriptionUpgrade, PriceBinding}
use scientific_research_rada.Billing.Prices.{
  SubscriptionChange, change_bindings, upgrade_bindings, insert_binding, sorted_bindings,
  price_after_bindings, price_of_events, expected_invoice_price, AreSorted,
  sorted_bindings-AreSorted,
}

-- The last binding at or before a time.
abbrev IsLast : ℕ → List PriceBinding → PriceBinding → Type 0
IsLast start bs b =
    Occurs b bs
    × (b.effective_at ≤ start)
    × All (λ (c : PriceBinding). (start < c.effective_at) ⊎ (c.effective_at ≤ b.effective_at)) bs

-- A first binding, where all of them are later.
abbrev IsFirst : List PriceBinding → PriceBinding → Type 0
IsFirst bs b = Occurs b bs × All (λ (c : PriceBinding). b.effective_at ≤ c.effective_at) bs

abbrev AllLater : ℕ → List PriceBinding → Type 0
AllLater start = All (λ (c : PriceBinding). start < c.effective_at)

Occurs-insert_binding :
    (b c : PriceBinding) (cs : List PriceBinding)
    → Occurs b (insert_binding c cs)
    → (b ≡ c) ⊎ Occurs b cs
unfolding insert_binding
Occurs-insert_binding b c [] h = h
Occurs-insert_binding b c (d ∷ ds) h = elim (Bool-cases (ltb d.effective_at c.effective_at)) [
  | inl after ↦ (elim (rw after at h) [
    | inl same ↦ inr (inl same)
    | inr later ↦ elim (Occurs-insert_binding b c ds later) [
      | inl same ↦ inl same
      | inr found ↦ inr (inr found)
    ]
  ])
  | inr before ↦ rw before at h
]

module _ (P : PriceBinding → Type 0) where
  All-Occurs : (b : PriceBinding) (bs : List PriceBinding) → All P bs → Occurs b bs → P b
  All-Occurs b [] h o = absurd o
  All-Occurs b (c ∷ cs) h (inl same) = subst P (sym same) h.0
  All-Occurs b (c ∷ cs) h (inr later) = All-Occurs b cs h.1 later

  All-of_insert :
      (c : PriceBinding) (cs : List PriceBinding) → All P (insert_binding c cs) → All P (c ∷ cs)
  unfolding insert_binding
  All-of_insert c [] h = h
  All-of_insert c (d ∷ ds) h = elim (Bool-cases (ltb d.effective_at c.effective_at)) [
    | inl after ↦
        let (first, rest) = rw after at h in
        let (one, more) = All-of_insert c ds rest in (one, (first, more))
    | inr before ↦ rw before at h
  ]

  All-of_sorted : (bs : List PriceBinding) → All P (sorted_bindings bs) → All P bs
  unfolding sorted_bindings
  All-of_sorted [] h = tt
  All-of_sorted (b ∷ bs) h =
      let (first, rest) = All-of_insert b (sorted_bindings bs) h in (first, All-of_sorted bs rest)

Occurs-sorted :
    (b : PriceBinding) (bs : List PriceBinding) → Occurs b (sorted_bindings bs) → Occurs b bs
unfolding sorted_bindings
Occurs-sorted b [] h = h
Occurs-sorted b (c ∷ cs) h = elim (Occurs-insert_binding b c (sorted_bindings cs) h) [
  | inl same ↦ inl same
  | inr later ↦ inr (Occurs-sorted b cs later)
]

-- The loop: the price stays where every binding is later, and else is the last one's target.
price_after_bindings_lem :
    (start : ℕ) (price : String) (bs : List PriceBinding)
    → AreSorted bs
    → (AllLater start bs × (price_after_bindings start price bs ≡ price))
      ⊎ ((b : PriceBinding) × IsLast start bs b
          × (price_after_bindings start price bs ≡ b.target_price_id))
unfolding price_after_bindings
price_after_bindings_lem start price [] sorted = inl (tt, refl)
price_after_bindings_lem start price (c ∷ cs) sorted =
    elim (Bool-cases (leb c.effective_at start)) [
      | inl reached ↦ elim (price_after_bindings_lem start c.target_price_id cs sorted.1) [
        | inl (later, same) ↦ inr (
          c,
          (
            inl refl,
            ground arith,
            (
              inr (ground arith),
              All-map_implies (λ (d : PriceBinding). start < d.effective_at)
                  (λ (d : PriceBinding).
                    (start < d.effective_at) ⊎ (d.effective_at ≤ c.effective_at))
                  cs (λ d l. inl l) later,
            ),
          ),
          rw reached same,
        )
        | inr (b, last, same) ↦ inr (
          b,
          (
            inr last.0,
            last.1,
            (
              inr (
                  All-Occurs (λ (d : PriceBinding). c.effective_at ≤ d.effective_at) b cs sorted.0
                    last.0),
              last.2,
            ),
          ),
          rw reached same,
        )
      ]
      | inr ahead ↦ elim (price_after_bindings_lem start price cs sorted.1) [
        | inl (later, same) ↦ inl ((ground arith, later), rw ahead same)
        | inr (b, last, same) ↦
            inr (b, (inr last.0, last.1, (inl (ground arith), last.2)), rw ahead same)
      ]
    ]

head-IsFirst : (c : PriceBinding) (cs : List PriceBinding) → AreSorted (c ∷ cs) → IsFirst (c ∷ cs) c
head-IsFirst c cs sorted = (inl refl, (ground arith, sorted.0))

sorted-IsLast :
    (start : ℕ) (bs : List PriceBinding) (b : PriceBinding)
    → IsLast start (sorted_bindings bs) b
    → IsLast start bs b
sorted-IsLast start bs b (occurs, reached, others) = (
  Occurs-sorted b bs occurs,
  reached,
  All-of_sorted (λ (c : PriceBinding). (start < c.effective_at) ⊎ (c.effective_at ≤ b.effective_at))
      bs others,
)

sorted-IsFirst :
    (bs : List PriceBinding) (b : PriceBinding) → IsFirst (sorted_bindings bs) b → IsFirst bs b
sorted-IsFirst bs b (occurs, others) = (
  Occurs-sorted b bs occurs,
  All-of_sorted (λ (c : PriceBinding). b.effective_at ≤ c.effective_at) bs others,
)

-- The price that a list of events gives.
abbrev IsListPrice : SandboxCheckout → ℕ → List PriceBinding → String → Type 0
IsListPrice checkout start events price =
    ((b : PriceBinding) × IsLast start events b × (price ≡ b.target_price_id))
    ⊎ ((b : PriceBinding) × IsFirst events b × AllLater start events × (price ≡ b.source_price_id))
    ⊎ ((events ≡ []) × (price ≡ checkout.price_id))

insert_binding-not_empty :
    (b : PriceBinding) (bs : List PriceBinding) → insert_binding b bs ≡ [] → ⊥
unfolding insert_binding
insert_binding-not_empty b [] h = cc
insert_binding-not_empty b (c ∷ cs) h = ground arith

empty_of_sorted : (bs : List PriceBinding) → sorted_bindings bs ≡ [] → bs ≡ []
unfolding sorted_bindings
empty_of_sorted [] h = refl
empty_of_sorted (b ∷ bs) h = absurd (insert_binding-not_empty b (sorted_bindings bs) h)

price_of_events_lem :
    (checkout : SandboxCheckout) (start : ℕ) (events : List PriceBinding)
    (sorted : List PriceBinding)
    → sorted_bindings events ≡ sorted
    → IsListPrice checkout start events (price_of_events checkout sorted (some start))
unfolding price_of_events price_after_bindings
price_of_events_lem checkout start events [] e = inr (inr (empty_of_sorted events e, refl))
price_of_events_lem checkout start events (c ∷ cs) e =
    let sorted = subst AreSorted e (sorted_bindings-AreSorted events) in
    elim (price_after_bindings_lem start c.source_price_id (c ∷ cs) sorted) [
      | inl (later, same) ↦ inr (
          inl (
            c,
            sorted-IsFirst events c (subst (λ x. IsFirst x c) (sym e) (head-IsFirst c cs sorted)),
            All-of_sorted (λ (d : PriceBinding). start < d.effective_at) events
                (subst (AllLater start) (sym e) later),
            same,
          ))
      | inr (b, last, same) ↦
          inl (b, sorted-IsLast start events b (subst (λ x. IsLast start x b) (sym e) last), same)
    ]

-- What the price of a period is: the target of a last event at or before its start; where all
-- events are later, the source of a first one; and without events the price of the checkout.
abbrev pub IsPriceAt : SandboxCheckout → ℕ → (PriceBinding → Type 0) → String → Type 0
IsPriceAt checkout start IsEvent price =
    ((b : PriceBinding) × IsEvent b
      × (b.effective_at ≤ start)
      × ((c : PriceBinding)
          → IsEvent c
          → (start < c.effective_at) ⊎ (c.effective_at ≤ b.effective_at))
      × (price ≡ b.target_price_id))
    ⊎ ((b : PriceBinding) × IsEvent b
        × ((c : PriceBinding)
            → IsEvent c
            → (start < c.effective_at) × (b.effective_at ≤ c.effective_at))
        × (price ≡ b.source_price_id))
    ⊎ (((c : PriceBinding) → IsEvent c → ⊥) × (price ≡ checkout.price_id))

module _ (events : List PriceBinding) (IsEvent : PriceBinding → Type 0)
    (complete : (b : PriceBinding) → Occurs b events ↔ IsEvent b) where
  every_event : (P : PriceBinding → Type 0) → All P events → (c : PriceBinding) → IsEvent c → P c
  every_event P all c event = All-Occurs P c events all ((complete c).1 event)

  no_event : events ≡ [] → (c : PriceBinding) → IsEvent c → ⊥
  no_event none_left c event = subst (Occurs c) none_left ((complete c).1 event)

  list_price :
      (checkout : SandboxCheckout) (start : ℕ) (price : String)
      → IsListPrice checkout start events price
      → IsPriceAt checkout start IsEvent price
  list_price checkout start price (inl (b, (occurs, reached, others), same)) = inl (
    b,
    (complete b).0 occurs,
    reached,
    every_event (λ c. (start < c.effective_at) ⊎ (c.effective_at ≤ b.effective_at)) others,
    same,
  )
  list_price checkout start price (inr (inl (b, (occurs, others), later, same))) = inr (
      inl (
        b,
        (complete b).0 occurs,
        λ c event. (
          every_event (λ d. start < d.effective_at) later c event,
          every_event (λ d. b.effective_at ≤ d.effective_at) others c event,
        ),
        same,
      ))
  list_price checkout start price (inr (inr (none_left, same))) =
      inr (inr (no_event none_left, same))

-- The price that a full period is billed at is the target of a last change or upgrade of this
-- checkout that was applied and takes effect at or before the period's start; where all that were
-- applied take effect later, the source of a first one; and without any, the checkout's price.
pub expected_invoice_price_lem :
    (changes : List SubscriptionChange) (upgrades : List SubscriptionUpgrade)
    (checkout : SandboxCheckout) (start : ℕ)
    → IsPriceAt checkout start
        (IsApplied changes upgrades checkout)
        (expected_invoice_price changes upgrades checkout (some start))
unfolding expected_invoice_price
expected_invoice_price_lem changes upgrades checkout start =
    let events = change_bindings checkout.id changes ++ upgrade_bindings checkout.id upgrades in
    list_price events (IsApplied changes upgrades checkout)
      (events-IsApplied changes upgrades checkout) checkout start _
      (price_of_events_lem checkout start events _ refl)
