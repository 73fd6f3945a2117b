-- ===== src/Quota/Upgrades.antt =====
-- What a renewal upgrade means for the rules (services/billing_renewal_policy.py).
use scientific_research_rada.Prelude.{
  ℕ, String, Bool, true, false, [], Option, none, some, ◌≡◌, arith,
}
use scientific_research_rada.Prelude.Texts.{is_subset, same_set, contains_of_subset}
use scientific_research_rada.Runs.Model.{DigestRunTrigger}
use scientific_research_rada.Quota.Plans.{
  PlanEntitlements, SubscriptionPlanRevision, includes, same_entitlements, improves,
  is_renewal_upgrade,
}
use scientific_research_rada.Quota.Rules.{Totals, offers, reasons}

-- Plans that include each other are equal, so only one of two plans improves the other.
pub improves_asym : (p q : PlanEntitlements) → improves p q ≡ true → improves q p ≡ false
unfolding improves includes same_entitlements same_set
improves_asym p q h = ground arith

offers_mono :
    (small large : PlanEntitlements) (f : Option String)
    → is_subset small.schedule_frequencies large.schedule_frequencies ≡ true
    → offers small.schedule_frequencies f ≡ true
    → offers large.schedule_frequencies f ≡ true
offers_mono small large none s h = h
offers_mono small large (some f) s h =
    contains_of_subset small.schedule_frequencies large.schedule_frequencies f s h

-- A request without objections under a plan has none under a plan that includes it.
pub reasons_mono :
    (small large : PlanEntitlements) (usage : Totals) (papers : ℕ) (trigger : DigestRunTrigger)
    (digests : ℕ) (frequency : Option String) (email : Bool)
    → includes large small ≡ true
    → reasons small usage papers trigger digests frequency email ≡ []
    → reasons large usage papers trigger digests frequency email ≡ []
unfolding includes reasons
reasons_mono small large usage papers trigger digests frequency email h e =
    ground (arith, offers_mono small large frequency)

-- Of two plan revisions at most one is a renewal upgrade of the other.
pub is_renewal_upgrade_asym :
    (source target : SubscriptionPlanRevision)
    → is_renewal_upgrade source target ≡ true
    → is_renewal_upgrade target source ≡ false
unfolding is_renewal_upgrade
is_renewal_upgrade_asym source target h =
    ground (arith, improves_asym target.configuration source.configuration)

improves-includes : (p q : PlanEntitlements) → improves p q ≡ true → includes p q ≡ true
unfolding improves
improves-includes p q h = ground arith

upgrade-improves :
    (source target : SubscriptionPlanRevision)
    → is_renewal_upgrade source target ≡ true
    → improves target.configuration source.configuration ≡ true
unfolding is_renewal_upgrade
upgrade-improves source target h = ground arith

-- After a renewal upgrade, with the same usage, a request to which the rules had no objection under
-- the old plan meets no objection under the new one.
pub upgrade_keeps_admission :
    (source target : SubscriptionPlanRevision) (usage : Totals) (papers : ℕ)
    (trigger : DigestRunTrigger) (digests : ℕ) (frequency : Option String) (email : Bool)
    → is_renewal_upgrade source target ≡ true
    → reasons source.configuration usage papers trigger digests frequency email ≡ []
    → reasons target.configuration usage papers trigger digests frequency email ≡ []
upgrade_keeps_admission source target usage papers trigger digests frequency email h e =
    reasons_mono source.configuration target.configuration usage papers trigger digests frequency
      email
      (improves-includes target.configuration source.configuration
        (upgrade-improves source target h))
      e
