-- ===== src/Client/Accounting.antt =====
-- radar/request_accounting.py: the row of a request follows the responses of the provider. The price
-- of a model at a time is an argument.
use scientific_research_rada.Prelude.{
  ℕ, zero, suc, ◌+◌, String, Bool, true, false, List, [], ◌∷◌, ◌++◌, Option, none, some, length,
  str_eq, if◌then◌else◌,
}
use scientific_research_rada.Prelude.Outcome.{ok, raised}
use scientific_research_rada.Client.Model.{
  ResponseStatus, RequestOutcome, RadarTokenUsage, RadarRequest, Response, ClientError,
  client_error, Exchange, M, ◌>>◌, modify,
}

-- `self.lease.renew(self.run)`: the next answer of the lease.
abbrev pub next_lease : List Bool → Bool
next_lease [] = false
next_lease (b ∷ _) = b

abbrev pub other_leases : List Bool → List Bool
other_leases [] = []
other_leases (_ ∷ bs) = bs

unfoldable pub renew_lease : M (Unit {0})
renew_lease s =
    let s' = record s { leases = other_leases s.leases } in
    (s', if next_lease s.leases then ok tt else raised (client_error ClientError.lease_lost))

unfoldable pub row_at : ℕ → List RadarRequest → Option RadarRequest
row_at n [] = none
row_at zero (r ∷ rs) = some r
row_at (suc n) (r ∷ rs) = row_at n rs

unfoldable pub update_at : ℕ → (RadarRequest → RadarRequest) → List RadarRequest → List RadarRequest
update_at n f [] = []
update_at zero f (r ∷ rs) = f r ∷ rs
update_at (suc n) f (r ∷ rs) = r ∷ update_at n f rs

abbrev pub has_response : String → RadarRequest → Bool
has_response id r = elim (r.response_id) [ none ↦ false | some i ↦ str_eq i id ]

abbrev pub next_index : Option ℕ → Option ℕ
next_index none = none
next_index (some n) = some (suc n)

-- `find_by_response`: the position of the row.
unfoldable pub find_by_response : String → List RadarRequest → Option ℕ
find_by_response id [] = none
find_by_response id (r ∷ rs) =
    let later = next_index (find_by_response id rs) in if has_response id r then some 0 else later

-- `status in {"queued", "in_progress"}`
abbrev pub is_pending : ResponseStatus → Bool
is_pending ResponseStatus.queued = true
is_pending ResponseStatus.in_progress = true
is_pending _ = false

module _ (current_price : String → ℕ → Option ℕ) (requested_model : String) where
  abbrev pub new_row : String → Option ℕ → ℕ → RadarRequest
  new_row model_name pricing created_at = record {
    response_id = none;
    model_name = model_name;
    status = ResponseStatus.submitted;
    outcome = RequestOutcome.unconfirmed;
    usage = none;
    web_search_calls = none;
    service_tier = none;
    pricing = pricing;
    created_at = created_at;
    observed_at = none;
  }

  -- A row that is added becomes the current one.
  abbrev pub add_row : RadarRequest → Exchange → Exchange
  add_row row s = record s { rows = s.rows ++ (row ∷ []); current = some (length s.rows) }

  -- `observe({"event": "submitted"})`
  unfoldable pub observe_submitted : M (Unit {0})
  observe_submitted = do
    renew_lease
    modify (λ s. add_row (new_row requested_model (current_price requested_model s.now) s.now) s)

  abbrev pub or_current : Option ℕ → Option ℕ → Option ℕ
  or_current (some n) current = some n
  or_current none current = current

  abbrev pub or_row : Option ℕ → String → Exchange → Exchange
  or_row (some n) model_name s = record s { current = some n }
  or_row none model_name s = add_row (new_row model_name none s.now) s

  -- The row that an observation is written to: of the response, the current one, or a new one.
  unfoldable pub choose_row : String → String → Exchange → Exchange
  choose_row response_id model_name s =
      or_row (or_current (find_by_response response_id s.rows) s.current) model_name s

  abbrev pub or_usage : Option RadarTokenUsage → Option RadarTokenUsage → Option RadarTokenUsage
  or_usage none old = old
  or_usage (some u) old = some u

  abbrev pub or_pricing : Option ℕ → Option ℕ → Option ℕ
  or_pricing none old = old
  or_pricing (some p) old = some p

  abbrev pub model_of : Response → String
  model_of r = elim (r.model) [
    | none ↦ requested_model
    | some m ↦ if str_eq m "" then requested_model else m
  ]

  -- The assignments of `observe`, with `_observation` of radar/client.py.
  unfoldable pub observed_row : Response → ℕ → RadarRequest → RadarRequest
  observed_row r now row = record row {
    response_id = some r.id;
    pricing =
        if str_eq row.model_name (model_of r)
        then row.pricing
        else or_pricing (current_price (model_of r) row.created_at) row.pricing;
    model_name = model_of r;
    status = r.status;
    usage = or_usage r.usage row.usage;
    web_search_calls = if is_pending r.status then none else some r.web_search_calls;
    service_tier = r.service_tier;
    observed_at = some now;
  }

  abbrev pub on_current : (RadarRequest → RadarRequest) → Exchange → Exchange
  on_current f s = elim (s.current) [ none ↦ s | some n ↦ record s { rows = update_at n f s.rows } ]

  unfoldable pub observe : Response → M (Unit {0})
  unfolding choose_row observed_row
  observe r = do
    renew_lease
    modify (λ s. on_current (observed_row r s.now) (choose_row r.id (model_of r) s))

  abbrev pub started : String → RadarRequest → RadarRequest
  started response_id row = record row { response_id = some response_id }

  -- With `record_response_started`.
  unfoldable pub persist_response_id : String → M (Unit {0})
  persist_response_id response_id = do
    renew_lease
    modify (λ s.
        on_current (started response_id)
          (record s { active_response_id = some response_id; request_count = s.request_count + 1 }))

-- With `clear_active_response`.
unfoldable pub clear_lost_response : M (Unit {0})
clear_lost_response = modify (λ s. record s { active_response_id = none })
