-- ===== src/Billing/Applied.antt =====
-- The changes and upgrades of a checkout that were applied, as `expected_invoice_price` of
-- services/billing_payment_rules.py reads their rows.
use mathlib.Core.Path.{subst}
use mathlib.Core.Bool.{false≢true}
use scientific_research_rada.Prelude.{
  ℕ, true, List, [], ◌∷◌, ◌++◌, Option, none, some, ◌≡◌, ◌≢◌, ◌⊎◌, ◌↔◌, inl, inr, refl, sym, ap,
  ◌∙◌, arith, ◌==◌, ◌&&◌, ==_iff, Bool-cases,
}
use scientific_research_rada.Prelude.Keyed.{is_some}
use scientific_research_rada.Billing.Types.{SandboxCheckout, SubscriptionUpgrade, PriceBinding}
use scientific_research_rada.Billing.Prices.{SubscriptionChange, change_bindings, upgrade_bindings}

abbrev pub Occurs : {A : Type 0} → A → List A → Type 0
Occurs b [] = ⊥
Occurs b (c ∷ cs) = (b ≡ c) ⊎ Occurs b cs

-- The change is the checkout's, was applied, and has this time and these prices.
pub record FromChange (checkout : SandboxCheckout) (c : SubscriptionChange) (b : PriceBinding)
    : Type 0 where
  pub mine : c.checkout_id ≡ checkout.id
  pub applied : c.applied_at ≢ none
  pub at : b.effective_at ≡ c.effective_at
  pub source : b.source_price_id ≡ c.source_price_id
  pub target : b.target_price_id ≡ c.target_price_id

-- The same of an upgrade, which takes effect when it is prorated.
pub record FromUpgrade (checkout : SandboxCheckout) (u : SubscriptionUpgrade) (b : PriceBinding)
    : Type 0 where
  pub mine : u.checkout_id ≡ checkout.id
  pub applied : u.applied_at ≢ none
  pub at : b.effective_at ≡ u.proration_at
  pub source : b.source_price_id ≡ u.source_price_id
  pub target : b.target_price_id ≡ u.target_price_id

abbrev pub IsApplied :
    List SubscriptionChange → List SubscriptionUpgrade → SandboxCheckout → PriceBinding → Type 0
IsApplied changes upgrades checkout b =
    ((c : SubscriptionChange) × Occurs c changes × FromChange checkout c b)
    ⊎ ((u : SubscriptionUpgrade) × Occurs u upgrades × FromUpgrade checkout u b)

applied_test :
    {A : Type 0} (k id : ℕ) (o : Option A)
    → (((k == id) && is_some o) ≡ true) ↔ ((k ≡ id) × (o ≢ none))
applied_test k id none = ground (arith, ==_iff k id)
applied_test k id (some t) = ground (arith, ==_iff k id)

binding_ext :
    (b c : PriceBinding)
    → b.effective_at ≡ c.effective_at
    → b.source_price_id ≡ c.source_price_id
    → b.target_price_id ≡ c.target_price_id
    → b ≡ c
binding_ext b c h1 h2 h3 = cc

change_bindings_sound :
    (b : PriceBinding) (checkout : SandboxCheckout) (xs : List SubscriptionChange)
    → Occurs b (change_bindings checkout.id xs)
    → (x : SubscriptionChange) × Occurs x xs × FromChange checkout x b
unfolding change_bindings
change_bindings_sound b checkout [] h = absurd h
change_bindings_sound b checkout (x ∷ xs) h =
    let (own, at) = (applied_test x.checkout_id checkout.id x.applied_at) in
    elim (Bool-cases ((x.checkout_id == checkout.id) && is_some x.applied_at)) [
      | inl applied ↦ elim (rw applied at h) [
        | inl same ↦
            let (mine, done) = own applied in
            (
              x,
              inl refl,
              record {
                mine = mine;
                applied = done;
                at = ap (λ y. y.effective_at) same;
                source = ap (λ y. y.source_price_id) same;
                target = ap (λ y. y.target_price_id) same;
              },
            )
        | inr o ↦
            let (y, found, from) = change_bindings_sound b checkout xs o in (y, inr found, from)
      ]
      | inr other ↦
          let (y, found, from) = change_bindings_sound b checkout xs (rw other at h) in
          (y, inr found, from)
    ]

change_bindings_complete :
    (b : PriceBinding) (checkout : SandboxCheckout) (x : SubscriptionChange)
    (xs : List SubscriptionChange)
    → Occurs x xs
    → FromChange checkout x b
    → Occurs b (change_bindings checkout.id xs)
unfolding change_bindings
change_bindings_complete b checkout x [] found from = absurd found
change_bindings_complete b checkout x (y ∷ ys) found from =
    elim (Bool-cases ((y.checkout_id == checkout.id) && is_some y.applied_at)) [
      | inl applied ↦ rw applied (elim found [
        | inl same ↦
            let from' : FromChange checkout y b = subst (λ z. FromChange checkout z b) same from in
            inl (binding_ext b _ from'.at from'.source from'.target)
        | inr later ↦ inr (change_bindings_complete b checkout x ys later from)
      ])
      | inr other ↦ rw other (elim found [
        | inl same ↦
            let from' : FromChange checkout y b = subst (λ z. FromChange checkout z b) same from in
            absurd (
              false≢true (
                sym other
                ∙ (applied_test y.checkout_id checkout.id y.applied_at).1
                    (from'.mine, from'.applied)))
        | inr later ↦ change_bindings_complete b checkout x ys later from
      ])
    ]

upgrade_bindings_sound :
    (b : PriceBinding) (checkout : SandboxCheckout) (xs : List SubscriptionUpgrade)
    → Occurs b (upgrade_bindings checkout.id xs)
    → (x : SubscriptionUpgrade) × Occurs x xs × FromUpgrade checkout x b
unfolding upgrade_bindings
upgrade_bindings_sound b checkout [] h = absurd h
upgrade_bindings_sound b checkout (x ∷ xs) h =
    let (own, at) = (applied_test x.checkout_id checkout.id x.applied_at) in
    elim (Bool-cases ((x.checkout_id == checkout.id) && is_some x.applied_at)) [
      | inl applied ↦ elim (rw applied at h) [
        | inl same ↦
            let (mine, done) = own applied in
            (
              x,
              inl refl,
              record {
                mine = mine;
                applied = done;
                at = ap (λ y. y.effective_at) same;
                source = ap (λ y. y.source_price_id) same;
                target = ap (λ y. y.target_price_id) same;
              },
            )
        | inr o ↦
            let (y, found, from) = upgrade_bindings_sound b checkout xs o in (y, inr found, from)
      ]
      | inr other ↦
          let (y, found, from) = upgrade_bindings_sound b checkout xs (rw other at h) in
          (y, inr found, from)
    ]

upgrade_bindings_complete :
    (b : PriceBinding) (checkout : SandboxCheckout) (x : SubscriptionUpgrade)
    (xs : List SubscriptionUpgrade)
    → Occurs x xs
    → FromUpgrade checkout x b
    → Occurs b (upgrade_bindings checkout.id xs)
unfolding upgrade_bindings
upgrade_bindings_complete b checkout x [] found from = absurd found
upgrade_bindings_complete b checkout x (y ∷ ys) found from =
    elim (Bool-cases ((y.checkout_id == checkout.id) && is_some y.applied_at)) [
      | inl applied ↦ rw applied (elim found [
        | inl same ↦
            let from' : FromUpgrade checkout y b =
              subst (λ z. FromUpgrade checkout z b) same from in
            inl (binding_ext b _ from'.at from'.source from'.target)
        | inr later ↦ inr (upgrade_bindings_complete b checkout x ys later from)
      ])
      | inr other ↦ rw other (elim found [
        | inl same ↦
            let from' : FromUpgrade checkout y b =
              subst (λ z. FromUpgrade checkout z b) same from in
            absurd (
              false≢true (
                sym other
                ∙ (applied_test y.checkout_id checkout.id y.applied_at).1
                    (from'.mine, from'.applied)))
        | inr later ↦ upgrade_bindings_complete b checkout x ys later from
      ])
    ]

Occurs-append :
    (b : PriceBinding) (xs ys : List PriceBinding)
    → Occurs b (xs ++ ys) ↔ (Occurs b xs ⊎ Occurs b ys)
Occurs-append b [] ys = (λ h. inr h, λ h. ground arith)
Occurs-append b (x ∷ xs) ys =
    let (front, back) = Occurs-append b xs ys in ground (arith, front, back)

-- The bindings are those of the applied changes and upgrades of the checkout, and no other.
pub events-IsApplied :
    (changes : List SubscriptionChange) (upgrades : List SubscriptionUpgrade)
    (checkout : SandboxCheckout) (b : PriceBinding)
    → Occurs b (change_bindings checkout.id changes ++ upgrade_bindings checkout.id upgrades)
      ↔ IsApplied changes upgrades checkout b
events-IsApplied changes upgrades checkout b =
    let (parts, whole) =
      Occurs-append b (change_bindings checkout.id changes)
        (upgrade_bindings checkout.id upgrades) in
    (
      λ h. elim (parts h) [
        | inl o ↦ inl (change_bindings_sound b checkout changes o)
        | inr o ↦ inr (upgrade_bindings_sound b checkout upgrades o)
      ],
      λ h. whole (elim h [
        | inl (c, found, from) ↦ inl (change_bindings_complete b checkout c changes found from)
        | inr (u, found, from) ↦ inr (upgrade_bindings_complete b checkout u upgrades found from)
      ]),
    )
