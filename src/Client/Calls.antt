-- ===== src/Client/Calls.antt =====
-- `execute` of radar/client.py: a response is retrieved or requested, polled until it ends, and read.
-- The request's parameters and the texts of errors are left out; the readers of the output are
-- arguments. A collector of accounts is always given.
use scientific_research_rada.Client.Accounting.{model_of}
use scientific_research_rada.Prelude.{
  ℕ, zero, suc, ◌+◌, String, Bool, true, false, List, [], ◌∷◌, Option, none, some, leb, str_eq,
  if◌then◌else◌,
}
use scientific_research_rada.Prelude.Outcome.{Outcome, ok, raised}
use scientific_research_rada.Client.Model.{
  ResponseStatus, RadarTokenUsage, Response, Call, returned, not_found, failed, invalid,
  ClientError, Stop, client_error, api_error, validation_error, out_of_fuel, Exchange, M, and_then,
  ◌>>=◌, ◌>>◌, pure, stop, modify,
}
use scientific_research_rada.Client.Accounting.{
  renew_lease, is_pending, observe_submitted, observe, persist_response_id, clear_lost_response,
}

-- The next answer of the provider; without one the call fails.
abbrev pub next_call : List Call → Call
next_call [] = Call.failed
next_call (c ∷ _) = c

abbrev pub other_calls : List Call → List Call
other_calls [] = []
other_calls (_ ∷ cs) = cs

abbrev answer_of : Call → Outcome Stop Response
answer_of (returned r) = ok r
answer_of not_found = raised (api_error true)
answer_of failed = raised (api_error false)
answer_of invalid = raised validation_error

-- A call of the library.
unfoldable pub call : M Response
call s = (record s { calls = other_calls s.calls }, answer_of (next_call s.calls))

pub record RadarClient : Type 0 where
  pub background_poll_timeout : ℕ
  pub background_poll_interval : ℕ
  pub model_name : String
  pub current_price : String → ℕ → Option ℕ

pub record RadarClientResult (A : Type 0) : Type 0 where
  pub output : A
  pub response_id : String
  pub model_name : String
  pub usage : RadarTokenUsage

-- `_usage`: zeros where the response has none.
abbrev pub usage_of : Option RadarTokenUsage → RadarTokenUsage
usage_of none = record {
  input_tokens = 0;
  cached_input_tokens = 0;
  output_tokens = 0;
  reasoning_tokens = 0;
}
usage_of (some u) = u

-- `except Exception`, where a status of 404 is a lost response.
abbrev pub found_or_lost :
    Exchange × Outcome Stop Response → Exchange × Outcome Stop (Option Response)
found_or_lost (s, ok r) = (s, ok (some r))
found_or_lost (s, raised (api_error true)) = (clear_lost_response >> pure none) s
found_or_lost (s, raised e) = (s, raised e)

abbrev pub count_submission : Exchange → Exchange
count_submission s = record s { submissions = s.submissions + 1 }

-- A wait: the sleep, and what the round takes besides.
abbrev next_wait : List ℕ → ℕ
next_wait [] = 0
next_wait (n ∷ _) = n

abbrev other_waits : List ℕ → List ℕ
other_waits [] = []
other_waits (_ ∷ ns) = ns

-- A retrieval in the loop: two failures in a row are passed over.
abbrev pub retried :
    Response → ℕ → Exchange × Outcome Stop Response → Exchange × Outcome Stop (Response × ℕ)
retried last failures (s, ok r) = (s, ok (r, 0))
retried last failures (s, raised e) =
    if leb 3 (failures + 1) then (s, raised e) else (s, ok (last, failures + 1))

abbrev pub is_finished : ResponseStatus → Bool
is_finished ResponseStatus.completed = true
is_finished _ = false

module _ (client : RadarClient) where
  abbrev pub observed : Response → M (Unit {0})
  observed = observe client.current_price client.model_name

  unfoldable pub submit : M Response
  submit = do
    observe_submitted client.current_price client.model_name
    modify count_submission
    r ← call
    persist_response_id client.current_price client.model_name r.id
    pure r

  abbrev pub or_submit : Option Response → M Response
  or_submit (some r) = pure r
  or_submit none = submit

  unfoldable pub start : Option String → M Response
  start none = submit
  start (some id) =
      if str_eq id "" then submit else (do r ← (λ s. found_or_lost (call s)); or_submit r)

  unfoldable pub sleep : M (Unit {0})
  sleep = modify (λ s. record s {
    now = s.now + client.background_poll_interval + next_wait s.waits;
    waits = other_waits s.waits;
  })

  -- One round of the loop: the last response, and the failures in a row.
  unfoldable pub poll_once : Response → ℕ → M (Response × ℕ)
  poll_once r failures = do
    sleep
    renew_lease
    x ← (λ s. retried r failures (call s))
    observed x.0
    pure x

  unfoldable pub poll : ℕ → ℕ → Response → ℕ → M Response
  poll zero deadline r failures s = (s, raised out_of_fuel)
  poll (suc fuel) deadline r failures s = elim (is_pending r.status) [
    | false ↦ (s, ok r)
    | true ↦ elim (leb deadline s.now) [
      | true ↦ (s, raised (client_error ClientError.timed_out))
      | false ↦ and_then (poll_once r failures s) λ x. poll fuel deadline x.0 x.1
    ]
  ]

  unfoldable pub await_response : Response → M Response
  await_response r s =
      let deadline = s.now + client.background_poll_timeout in
      poll (suc client.background_poll_timeout) deadline r 0 s

  abbrev pub lost : {A : Type 0} → ClientError → M A
  lost e = do clear_lost_response; stop (client_error e)

  -- `model_validate_json` and `to_output`.
  module _ {A : Type 0} (read : String → Outcome Stop A) where
    abbrev pub read_text : Option String → String → M A
    read_text (some parsed) output_text s = (s, read parsed)
    read_text none output_text s =
        if str_eq output_text "" then lost ClientError.no_data s else (s, read output_text)

    unfoldable pub read_output : Response → M A
    read_output r =
        if is_finished r.status
        then read_text r.output_parsed r.output_text
        else lost ClientError.ended_otherwise

    unfoldable pub attempt : Option String → M (Response × A)
    attempt existing_response_id = do
      first ← start existing_response_id
      observed first
      r ← await_response first
      output ← read_output r
      pure (r, output)

    -- The `except` clauses.
    abbrev pub translate :
        Exchange × Outcome Stop (Response × A) → Exchange × Outcome Stop (RadarClientResult A)
    translate (s, ok (r, output)) = (
      s,
      ok (record {
        output = output;
        response_id = r.id;
        model_name = model_of client.current_price client.model_name r;
        usage = usage_of r.usage;
      }),
    )
    translate (s, raised validation_error) = lost ClientError.invalid_data s
    translate (s, raised (client_error e)) = (s, raised (client_error e))
    translate (s, raised (api_error b)) = (s, raised (client_error ClientError.request_failed))
    translate (s, raised out_of_fuel) = (s, raised out_of_fuel)

    unfoldable pub execute : Option String → M (RadarClientResult A)
    execute existing_response_id s = translate (attempt existing_response_id s)
