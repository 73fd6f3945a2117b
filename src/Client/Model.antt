-- ===== src/Client/Model.antt =====
-- The state of one request to the provider (radar/client.py): the rows of the run's requests, the
-- stage's active response, what the provider will answer, and the clock.
use scientific_research_rada.Prelude.{ℕ, String, Bool, List, Option}
use scientific_research_rada.Prelude.Outcome.{Outcome, ok, raised}

-- The states of a background response; `submitted` is the first one of a row.
pub data ResponseStatus : Type 0 where
  submitted queued in_progress completed : ResponseStatus
  other : String → ResponseStatus

pub data RequestOutcome : Type 0 where
  unconfirmed accepted rejected interrupted : RequestOutcome

pub record RadarTokenUsage : Type 0 where
  pub input_tokens : ℕ
  pub cached_input_tokens : ℕ
  pub output_tokens : ℕ
  pub reasoning_tokens : ℕ

-- The columns of models/radar_request.py that are read; a price is a number.
pub record RadarRequest : Type 0 where
  pub response_id : Option String
  pub model_name : String
  pub status : ResponseStatus
  pub outcome : RequestOutcome
  pub usage : Option RadarTokenUsage
  pub web_search_calls : Option ℕ
  pub service_tier : Option String
  pub pricing : Option ℕ
  pub created_at : ℕ
  pub observed_at : Option ℕ

-- A response of the provider. `output_parsed` and `output_text` are texts that are read later.
pub record Response : Type 0 where
  pub id : String
  pub model : Option String
  pub status : ResponseStatus
  pub output_parsed : Option String
  pub output_text : String
  pub usage : Option RadarTokenUsage
  pub web_search_calls : ℕ
  pub service_tier : Option String

-- How a call of the provider's library ends.
pub data Call : Type 0 where
  returned : Response → Call
  not_found failed invalid : Call

-- A `RadarClientError`, by its cause.
pub data ClientError : Type 0 where
  lease_lost timed_out ended_otherwise no_data invalid_data request_failed : ClientError

-- An exception inside `execute`: of the provider, with a test for status 404, or of the validation.
pub data Stop : Type 0 where
  client_error : ClientError → Stop
  api_error : (is_missing : Bool) → Stop
  validation_error : Stop
  out_of_fuel : Stop

-- `current` is the position of the collector's row. `leases` are the answers of the lease, `waits`
-- what each round of the loop takes besides its sleep.
pub record Exchange : Type 0 where
  pub rows : List RadarRequest
  pub current : Option ℕ
  pub active_response_id : Option String
  pub request_count : ℕ
  pub calls : List Call
  pub submissions : ℕ
  pub leases : List Bool
  pub waits : List ℕ
  pub now : ℕ

abbrev pub M : Type 0 → Type 0
M A = Exchange → Exchange × Outcome Stop A

abbrev pub and_then :
    {A B : Type 0} → Exchange × Outcome Stop A → (A → M B) → Exchange × Outcome Stop B
and_then (s, ok a) f = f a s
and_then (s, raised e) f = (s, raised e)

infixl 5 ◌>>=◌ ◌>>◌
abbrev pub ◌>>=◌ : {A B : Type 0} → M A → (A → M B) → M B
◌>>=◌ m f s = and_then (m s) f

abbrev pub ◌>>◌ : {B : Type 0} → M (Unit {0}) → M B → M B
m >> k = m >>= λ _. k

abbrev pub pure : {A : Type 0} → A → M A
pure a s = (s, ok a)

abbrev pub stop : {A : Type 0} → Stop → M A
stop e s = (s, raised e)

abbrev pub modify : (Exchange → Exchange) → M (Unit {0})
modify f s = (f s, ok tt)
