-- ===== src/Client/Tests.antt =====
-- A request that is queued, fails to be polled once, and completes.
use scientific_research_rada.Client.Calls.{usage_of}
use scientific_research_rada.Client.Calls.{
  attempt, start, submit, call, await_response, poll, poll_once, sleep, read_output,
}
use scientific_research_rada.Client.Accounting.{
  observe_submitted, renew_lease, persist_response_id, observe, find_by_response, update_at,
}
use scientific_research_rada.Prelude.{
  ◌+◌, ◌≤◌, String, true, false, [], ◌∷◌, none, some, ◌≡◌, refl, arith,
}
use scientific_research_rada.Prelude.Outcome.{Outcome, ok}
use scientific_research_rada.Client.Model.{ResponseStatus, Response, Call, returned, Exchange, Stop}
use scientific_research_rada.Client.Calls.{RadarClient, RadarClientResult, execute}
use scientific_research_rada.Client.Quiet.{runs_out}
use scientific_research_rada.Client.Submissions.{execute_lem, execute_resumes}
use scientific_research_rada.Client.Accounted.{IsAccounted, execute_recorded}

abbrev client : RadarClient
client = record {
  background_poll_timeout = 10;
  background_poll_interval = 2;
  model_name = "model";
  current_price = λ _ _. some 3;
}

abbrev response : ResponseStatus → Response
response status = record {
  id = "resp_1";
  model = some "model-1";
  status = status;
  output_parsed = some "{}";
  output_text = "{}";
  usage = none;
  web_search_calls = 1;
  service_tier = none;
}

abbrev first_state : Exchange
first_state = record {
  rows = [];
  current = none;
  active_response_id = none;
  request_count = 0;
  calls =
      returned (response ResponseStatus.queued)
      ∷ Call.failed
      ∷ returned (response ResponseStatus.completed)
      ∷ [];
  submissions = 0;
  leases = true ∷ true ∷ true ∷ true ∷ true ∷ true ∷ true ∷ true ∷ [];
  waits = 1 ∷ [];
  now = 100;
}

abbrev read : String → Outcome Stop String
read text = ok text

execute_lem_example :
    (runs_out (execute client read none first_state).1 ≡ false)
    × ((execute client read none first_state).0.submissions ≤ 0 + 1)
execute_lem_example = execute_lem client (omega arith) read (λ _. refl) none first_state

execute_resumes_example : (execute client read (some "resp_1") first_state).0.submissions ≤ 0
execute_resumes_example =
    execute_resumes client (omega arith) read (λ _. refl) "resp_1" (response ResponseStatus.queued)
      first_state refl refl

abbrev result : RadarClientResult String
result = record {
  output = "{}";
  response_id = "resp_1";
  model_name = "model-1";
  usage = usage_of none;
}

executed : (execute client read none first_state).1 ≡ ok result
unfolding execute attempt start submit observe_submitted renew_lease call persist_response_id
    observe await_response poll find_by_response update_at poll_once sleep read_output
executed = refl

execute_recorded_example : IsAccounted client read result (execute client read none first_state).0
execute_recorded_example = execute_recorded client read none first_state tt executed
