-- ===== src/Quota/Bounds.antt =====
-- The allowance of a plan is never exceeded (services/subscription_access_service.py).
use mathlib.Core.Path.{subst, sym}
use scientific_research_rada.Prelude.{
  ℕ, ◌+◌, ◌≤◌, Bool, true, false, ◌&&◌, List, [], ◌∷◌, Option, none, some, ◌≡◌, arith, refl,
  if◌then◌else◌, Option-cases, Bool-cases, inl, inr, ◌⊎◌,
}
use scientific_research_rada.Prelude.Outcome.{ok}
use scientific_research_rada.Quota.Plans.{PlanEntitlements}
use scientific_research_rada.Quota.Model.{
  RequestContext, SubscriptionRunUsage, Ledger, Allowed, Access, RunRequest, Issue, lookup, put,
}
use scientific_research_rada.Quota.Rules.{
  Totals, is_manual, is_reserved, is_settled, in_window, sum_where, totals, assess,
}
use scientific_research_rada.Quota.Ledger.{
  is_charged, reserved_row, settled_row, reserve, settle, admit,
}
use scientific_research_rada.Quota.Sums.{share, sum_where-put, lookup-key, Fits, assess-Fits}

-- The limits hold for what is charged.
pub record IsWithin (config : PlanEntitlements) (usage : Totals) : Type 0 where
  pub runs : usage.completed_runs + usage.reserved_runs ≤ config.runs_per_month
  pub manual_runs : usage.manual_runs ≤ config.manual_runs_per_month
  pub papers : usage.completed_papers + usage.reserved_papers ≤ config.papers_per_month

-- The two ways in which settling ends.
settle-cases :
    (run_id : ℕ) (success : Bool) (papers : ℕ) (us : Ledger)
    → (settle run_id success papers us ≡ us)
      ⊎ ((u : SubscriptionRunUsage) × (lookup run_id us ≡ some u)
          × (is_reserved u.state ≡ true)
          × (settle run_id success papers us ≡ put (settled_row success papers u) us))
unfolding settle
settle-cases run_id success papers us = elim (Option-cases (lookup run_id us)) [
  | inl missing ↦ inl (ground arith)
  | inr (u, found) ↦ elim (Bool-cases (is_reserved u.state)) [
    | inl held ↦ inr (u, found, held, ground arith)
    | inr other ↦ inl (ground arith)
  ]
]

admit-cases :
    (access : Access) (issues : List Issue) (context : RequestContext) (run : RunRequest)
    (us : Ledger) {us' : Ledger}
    → admit access issues context run us ≡ ok us'
    → (us' ≡ us)
      ⊎ ((a : Allowed) × (access ≡ Access.allowed a)
          × (issues ≡ [])
          × (us' ≡ put (reserved_row (lookup run.id us) a context run) us))
admit-cases access (i ∷ issues) context run us h = absurd (cc)
admit-cases (Access.allowed a) [] context run us h = inr (a, refl, refl, cc)
admit-cases Access.complimentary [] context run us h = inl (cc)
admit-cases (Access.denied reason) [] context run us h = inl (cc)

-- The ways in which a reservation succeeds: it is there already, or nothing is counted, or a row is
-- written and the rules have no objection.
reserve-cases :
    (is_closing : Bool) (access : Access) (digests : ℕ) (context : RequestContext)
    (run : RunRequest) (us : Ledger) {us' : Ledger}
    → reserve is_closing access digests context run us ≡ ok us'
    → (us' ≡ us)
      ⊎ ((a : Allowed) × (access ≡ Access.allowed a)
          × (assess access digests context run us ≡ [])
          × (us' ≡ put (reserved_row (lookup run.id us) a context run) us)
          × (is_charged (lookup run.id us) ≡ false))
unfolding reserve
reserve-cases is_closing access digests context run us {us' = v} h =
    ground
      (arith, admit-cases access (assess access digests context run us) context run us {us' = v})

module _ (user start finish : ℕ) where
  -- The account's answer is about this window and this plan.
  abbrev pub IsFor : PlanEntitlements → Access → Type 0
  IsFor config (Access.allowed a) =
      (a.plan.configuration ≡ config) × (a.period_start ≡ start) × (a.period_end ≡ finish)
  IsFor config _ = Unit

  -- What a run reserved is at least what it used.
  abbrev pub Covers : Option SubscriptionRunUsage → ℕ → Type 0
  Covers none papers = Unit
  Covers (some u) papers = papers ≤ u.requested_papers

  -- The five tests of the sums.
  abbrev settled_here : SubscriptionRunUsage → Bool
  settled_here u = in_window user start finish u && is_settled u.state

  abbrev reserved_here : SubscriptionRunUsage → Bool
  reserved_here u = in_window user start finish u && is_reserved u.state

  abbrev manual_here : SubscriptionRunUsage → Bool
  manual_here u = in_window user start finish u && is_manual u.trigger

  -- A row that is not charged has no share.
  free_shares :
      (amount : SubscriptionRunUsage → ℕ) (o : Option SubscriptionRunUsage)
      → is_charged o ≡ false
      → (share settled_here amount o ≡ 0)
        × (share reserved_here amount o ≡ 0)
        × (share manual_here amount o ≡ 0)
  unfolding in_window is_charged
  free_shares amount none h = (refl, refl, refl)
  free_shares amount (some u) h = ground arith

  -- The shares of a row that was just reserved.
  reserved_shares :
      (o : Option SubscriptionRunUsage) (a : Allowed) (context : RequestContext) (run : RunRequest)
      → let row = reserved_row o a context run in
        (share settled_here (λ _. 1) (some row) ≡ 0)
        × (share reserved_here (λ _. 1) (some row) ≤ 1)
        × (share manual_here (λ _. 1) (some row) ≤ (if is_manual run.trigger then 1 else 0))
        × (share settled_here (λ u. u.actual_papers) (some row) ≡ 0)
        × (share reserved_here (λ u. u.requested_papers) (some row) ≤ run.maximum_papers)
  unfolding in_window reserved_row
  reserved_shares o a context run = ground arith

  -- A row that is not charged is replaced by the reserved one.
  pub put_reserved :
      (config : PlanEntitlements) (row : SubscriptionRunUsage) (us : Ledger) (papers : ℕ)
      (manual : Bool)
      → is_charged (lookup row.run_key us) ≡ false
      → (share settled_here (λ _. 1) (some row) ≡ 0)
        × (share reserved_here (λ _. 1) (some row) ≤ 1)
        × (share manual_here (λ _. 1) (some row) ≤ (if manual then 1 else 0))
        × (share settled_here (λ u. u.actual_papers) (some row) ≡ 0)
        × (share reserved_here (λ u. u.requested_papers) (some row) ≤ papers)
      → Fits config (totals user start finish us) papers manual
      → IsWithin config (totals user start finish us)
      → IsWithin config (totals user start finish (put row us))
  unfolding totals
  put_reserved config row us papers manual free (s1, r1, m1, sp, rp) fits within =
      let one = free_shares (λ _. 1) (lookup row.run_key us) free in
      record {
        runs = omega (
          arith,
          fits.runs,
          one.0,
          one.1,
          sum_where-put settled_here (λ _. 1) row us,
          sum_where-put reserved_here (λ _. 1) row us,
        );
        manual_runs = omega (
          arith,
          fits.manual_runs,
          within.manual_runs,
          one.2,
          sum_where-put manual_here (λ _. 1) row us,
        );
        papers = omega (
          arith,
          fits.monthly,
          (free_shares (λ u. u.actual_papers) (lookup row.run_key us) free).0,
          (free_shares (λ u. u.requested_papers) (lookup row.run_key us) free).1,
          sum_where-put settled_here (λ u. u.actual_papers) row us,
          sum_where-put reserved_here (λ u. u.requested_papers) row us,
        );
      }

  -- Settling moves a reservation to what was used, or frees it.
  settled_shares :
      (success : Bool) (papers : ℕ) (u : SubscriptionRunUsage)
      → is_reserved u.state ≡ true
      → papers ≤ u.requested_papers
      → let row = settled_row success papers u in
        (share settled_here (λ _. 1) (some row) + share reserved_here (λ _. 1) (some row)
          ≤ share settled_here (λ _. 1) (some u) + share reserved_here (λ _. 1) (some u))
        × (share manual_here (λ _. 1) (some row) ≤ share manual_here (λ _. 1) (some u))
        × (share settled_here (λ u. u.actual_papers) (some row)
              + share reserved_here (λ u. u.requested_papers) (some row)
            ≤ share settled_here (λ u. u.actual_papers) (some u)
              + share reserved_here (λ u. u.requested_papers) (some u))
  unfolding in_window
  settled_shares true papers u h le = ground arith
  settled_shares false papers u h le = ground arith

  -- Writing a row with smaller shares keeps the limits.
  put_smaller :
      (config : PlanEntitlements) (row u : SubscriptionRunUsage) (us : Ledger)
      → lookup row.run_key us ≡ some u
      → (share settled_here (λ _. 1) (some row) + share reserved_here (λ _. 1) (some row)
          ≤ share settled_here (λ _. 1) (some u) + share reserved_here (λ _. 1) (some u))
        × (share manual_here (λ _. 1) (some row) ≤ share manual_here (λ _. 1) (some u))
        × (share settled_here (λ u. u.actual_papers) (some row)
              + share reserved_here (λ u. u.requested_papers) (some row)
            ≤ share settled_here (λ u. u.actual_papers) (some u)
              + share reserved_here (λ u. u.requested_papers) (some u))
      → IsWithin config (totals user start finish us)
      → IsWithin config (totals user start finish (put row us))
  unfolding totals
  put_smaller config row u us found (c, m, p) within = record {
    runs =
        omega (
          arith,
          c,
          within.runs,
          put_found settled_here (λ _. 1),
          put_found reserved_here (λ _. 1),
        );
    manual_runs = omega (arith, m, within.manual_runs, put_found manual_here (λ _. 1));
    papers = omega (
      arith,
      p,
      within.papers,
      put_found settled_here (λ u. u.actual_papers),
      put_found reserved_here (λ u. u.requested_papers),
    );
  }
    where
      put_found :
          (test : SubscriptionRunUsage → Bool) (amount : SubscriptionRunUsage → ℕ)
          → sum_where test amount (put row us) + share test amount (some u)
            ≡ sum_where test amount us + share test amount (some row)
      put_found test amount =
          subst
            (λ o.
              sum_where test amount (put row us) + share test amount o
              ≡ sum_where test amount us + share test amount (some row))
            found (sum_where-put test amount row us)

  pub settle-IsWithin :
      (config : PlanEntitlements) (run_id : ℕ) (success : Bool) (papers : ℕ) (us : Ledger)
      → Covers (lookup run_id us) papers
      → IsWithin config (totals user start finish us)
      → IsWithin config (totals user start finish (settle run_id success papers us))
  settle-IsWithin config run_id success papers us covers within =
      elim (settle-cases run_id success papers us) [
        | inl same ↦ subst (λ us'. IsWithin config (totals user start finish us')) (sym same) within
        | inr (u, found, held, written) ↦
            subst (λ us'. IsWithin config (totals user start finish us')) (sym written)
              (put_smaller config (settled_row success papers u) u us
                (subst (λ k. lookup k us ≡ some u) (sym (lookup-key run_id us found)) found)
                (settled_shares success papers u held (subst (λ o. Covers o papers) found covers))
                within)
      ]

  -- The room that the admission found is room in this window and plan.
  Fits-moved :
      (config : PlanEntitlements) (a : Allowed) (run : RunRequest) (us : Ledger) (papers : ℕ)
      (manual : Bool)
      → run.owner_id ≡ user
      → IsFor config (Access.allowed a)
      → Fits a.plan.configuration (totals run.owner_id a.period_start a.period_end us) papers manual
      → Fits config (totals user start finish us) papers manual
  Fits-moved config a run us papers manual o (c, s, f) fits =
      subst (λ x. Fits x (totals user start finish us) papers manual) c
        (subst (λ x. Fits a.plan.configuration (totals x start finish us) papers manual) o
          (subst (λ x. Fits a.plan.configuration (totals run.owner_id x finish us) papers manual) s
            (subst
              (λ x.
                Fits a.plan.configuration (totals run.owner_id a.period_start x us) papers manual)
              f fits)))

  pub reserve-IsWithin :
      (config : PlanEntitlements) (is_closing : Bool) (access : Access) (digests : ℕ)
      (context : RequestContext) (run : RunRequest) (us : Ledger) {us' : Ledger}
      → run.owner_id ≡ user
      → IsFor config access
      → reserve is_closing access digests context run us ≡ ok us'
      → IsWithin config (totals user start finish us)
      → IsWithin config (totals user start finish us')
  unfolding assess reserved_row
  reserve-IsWithin config is_closing access digests context run us {us'} mine for e within =
      elim (reserve-cases is_closing access digests context run us e) [
        | inl same ↦ subst (λ x. IsWithin config (totals user start finish x)) (sym same) within
        | inr (a, same, clear, written, free) ↦
            subst (λ x. IsWithin config (totals user start finish x)) (sym written)
              (put_reserved config (reserved_row (lookup run.id us) a context run) us
                run.maximum_papers (is_manual run.trigger) free
                (reserved_shares (lookup run.id us) a context run)
                (Fits-moved config a run us run.maximum_papers (is_manual run.trigger) mine
                  (subst (IsFor config) same for)
                  (assess-Fits a digests context run us
                    (subst (λ x. assess x digests context run us ≡ []) same clear)))
                within)
      ]

  -- What happens to the ledger: reservations of the account's runs under the plan and the window,
  -- and settlements that use at most what was reserved.
  pub data Change (config : PlanEntitlements) (us : Ledger) : Ledger → Type 0 where
    reserving :
        (is_closing : Bool) (access : Access) (digests : ℕ) (context : RequestContext)
        (run : RunRequest) {us' : Ledger}
        → run.owner_id ≡ user
        → IsFor config access
        → reserve is_closing access digests context run us ≡ ok us'
        → Change config us us'
    settling :
        (run_id : ℕ) (success : Bool) (papers : ℕ)
        → Covers (lookup run_id us) papers
        → Change config us (settle run_id success papers us)

  pub data Changes (config : PlanEntitlements) (us : Ledger) : Ledger → Type 0 where
    here : Changes config us us
    next :
        {us' us'' : Ledger}
        → Changes config us us'
        → Change config us' us''
        → Changes config us us''

  Change-IsWithin :
      (config : PlanEntitlements) {us us' : Ledger}
      → Change config us us'
      → IsWithin config (totals user start finish us)
      → IsWithin config (totals user start finish us')
  Change-IsWithin config (Change.reserving c access digests context run mine for e) within =
      reserve-IsWithin config c access digests context run _ mine for e within
  Change-IsWithin config (Change.settling k success papers covers) within =
      settle-IsWithin config k success papers _ covers within

  -- Whatever sequence of reservations of the account's runs under one plan and one billing window,
  -- and of settlements of runs that used at most what they reserved, happens to a ledger whose
  -- charges in the window are within the plan: the charged runs, manual runs and papers of the
  -- window stay within the plan.
  pub Changes-IsWithin :
      (config : PlanEntitlements) {us us' : Ledger}
      → Changes config us us'
      → IsWithin config (totals user start finish us)
      → IsWithin config (totals user start finish us')
  Changes-IsWithin config Changes.here within = within
  Changes-IsWithin config (Changes.next before change) within =
      Change-IsWithin config change (Changes-IsWithin config before within)
