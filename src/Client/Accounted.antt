-- ===== src/Client/Accounted.antt =====
-- What a call of `execute` of radar/client.py returns is in the account of radar/request_accounting.py.
use scientific_research_rada.Prelude.Outcome.{ok-injective}
use scientific_research_rada.Client.Recorded.{ValidIndex}
use scientific_research_rada.Prelude.Outcome.{Outcome-cases}
use mathlib.Core.Path.{subst}
use scientific_research_rada.Prelude.{
  String, Bool, true, false, Option, none, some, str_eq, ◌≡◌, refl, sym, inl, inr, Bool-cases,
  Option-cases, if◌then◌else◌,
}
use scientific_research_rada.Prelude.Outcome.{Outcome, ok, raised}
use scientific_research_rada.Client.Model.{
  RadarRequest, Response, ClientError, Stop, client_error, api_error, validation_error, out_of_fuel,
  Exchange,
}
use scientific_research_rada.Client.Accounting.{
  observe_submitted, persist_response_id, clear_lost_response, renew_lease, started,
}
use scientific_research_rada.Client.Calls.{
  RadarClient, RadarClientResult, call, found_or_lost, count_submission, observed, submit,
  or_submit, start, await_response, lost, is_finished, read_text, read_output, attempt, translate,
  execute,
}
use scientific_research_rada.Client.Recorded.{
  Gives, and_then-Gives, IsValid, IsRecorded, row_at-added, HasCurrent, changed, on_current_lem,
  same-IsValid, renew_lem, observe_lem, call_lem, poll-IsRecorded,
}

Gives-map :
    {A : Type 0} (P Q : A → Exchange → Type 0) (r : Exchange × Outcome Stop A)
    → ((a : A) (q : Exchange) → P a q → Q a q)
    → Gives P r
    → Gives Q r
Gives-map P Q (q, ok a) f h = f a q h
Gives-map P Q (q, raised e) f h = tt

module _ (client : RadarClient) where
  changed-IsValid :
      (f : RadarRequest → RadarRequest) (s : Exchange) → IsValid s → IsValid (changed client f s)
  changed-IsValid f s valid = elim (Option-cases s.current) [
    | inl absent ↦
        let same : changed client f s ≡ s = rw absent refl in subst IsValid (sym same) valid
    | inr (n, present) ↦
        let here : HasCurrent client s =
          (n, present, subst (λ c. ValidIndex c s.rows) present valid) in
        let (now, (row, found)) = on_current_lem client f s here in
        subst (λ c. ValidIndex c (changed client f s).rows) (sym now) (f row, found)
  ]

  persist_lem :
      (id : String) (s : Exchange)
      → IsValid s
      → Gives (λ _ q. IsValid q) (persist_response_id client.current_price client.model_name id s)
  unfolding persist_response_id
  persist_lem id s valid =
      and_then-Gives (λ _ q. IsValid q) (λ _ q. IsValid q) (renew_lease s) _
        (renew_lem client s valid)
        λ _ q valid'. changed-IsValid (started client.current_price client.model_name id) _ valid'

  submitted_lem :
      (s : Exchange)
      → IsValid s
      → Gives (λ _ q. IsValid q) (observe_submitted client.current_price client.model_name s)
  unfolding observe_submitted
  submitted_lem s valid =
      and_then-Gives (λ _ q. IsValid q) (λ _ q. IsValid q) (renew_lease s) _
        (renew_lem client s valid) λ _ q _. (_, row_at-added q.rows _)

  call-Gives : (s : Exchange) → IsValid s → Gives (λ _ q. IsValid q) (call s)
  unfolding call
  call-Gives s valid = elim (Outcome-cases (call s).1) [
    | inl (r, e) ↦ rw e valid
    | inr (x, e) ↦ rw e tt
  ]

  submit_recorded : (s : Exchange) → IsValid s → Gives (λ _ q. IsValid q) (submit client s)
  unfolding submit
  submit_recorded s valid =
      and_then-Gives (λ _ q. IsValid q) (λ _ q. IsValid q)
        (observe_submitted client.current_price client.model_name s) _ (submitted_lem s valid)
        λ _ q valid'.
          and_then-Gives (λ _ p. IsValid p) (λ _ p. IsValid p) (call (count_submission q)) _
            (call-Gives (count_submission q) valid')
            λ r q' valid''.
              and_then-Gives (λ _ p. IsValid p) (λ _ p. IsValid p)
                (persist_response_id client.current_price client.model_name r.id q') _
                (persist_lem r.id q' valid'') λ _ q'' valid'''. valid'''

  or_submit_recorded :
      (o : Option Response) (s : Exchange)
      → IsValid s
      → Gives (λ _ q. IsValid q) (or_submit client o s)
  or_submit_recorded none s valid = submit_recorded s valid
  or_submit_recorded (some r) s valid = valid

  found_lem :
      (r : Exchange × Outcome Stop Response)
      → IsValid r.0
      → Gives (λ _ q. IsValid q) (found_or_lost r)
  unfolding clear_lost_response
  found_lem (q, ok r) valid = valid
  found_lem (q, raised (api_error true)) valid = valid
  found_lem (q, raised (api_error false)) valid = tt
  found_lem (q, raised (client_error e)) valid = tt
  found_lem (q, raised validation_error) valid = tt
  found_lem (q, raised out_of_fuel) valid = tt

  start_recorded :
      (existing : Option String) (s : Exchange)
      → IsValid s
      → Gives (λ _ q. IsValid q) (start client existing s)
  unfolding start
  start_recorded none s valid = submit_recorded s valid
  start_recorded (some id) s valid = elim (Bool-cases (str_eq id "")) [
    | inl blank ↦ rw blank (submit_recorded s valid)
    | inr given ↦ rw given (
        and_then-Gives (λ _ q. IsValid q) (λ _ q. IsValid q) (found_or_lost (call s))
          (or_submit client)
          (found_lem (call s) (same-IsValid client s (call s).0 (call_lem client s) valid))
          or_submit_recorded)
  ]

  module _ {A : Type 0} (read : String → Outcome Stop A) where
    -- What is read belongs to a response that is completed and recorded.
    abbrev Read : Response → A → Exchange → Type 0
    Read r output q = IsRecorded r q × (is_finished r.status ≡ true)

    read_text-IsRecorded :
        (r : Response) (parsed : Option String) (output_text : String) (s : Exchange)
        → IsRecorded r s
        → Gives (λ _ q. IsRecorded r q) (read_text client read parsed output_text s)
    unfolding clear_lost_response
    read_text-IsRecorded r (some parsed) output_text s known = elim (Outcome-cases (read parsed)) [
      | inl (a, e) ↦ rw e known
      | inr (x, e) ↦ rw e tt
    ]
    read_text-IsRecorded r none output_text s known = elim (Bool-cases (str_eq output_text "")) [
      | inl blank ↦ rw blank tt
      | inr given ↦ elim (Outcome-cases (read output_text)) [
        | inl (a, e) ↦ rw (given, e) known
        | inr (x, e) ↦ rw (given, e) tt
      ]
    ]

    given_finished :
        (b : Bool) (r : Response) (s : Exchange)
        → IsRecorded r s
        → Gives
            (λ _ q. IsRecorded r q × (b ≡ true))
            ((if b
                then read_text client read r.output_parsed r.output_text
                else lost client ClientError.ended_otherwise)
              s)
    unfolding clear_lost_response
    given_finished false r s known = tt
    given_finished true r s known =
        Gives-map (λ _ q. IsRecorded r q) (λ _ q. IsRecorded r q × (true ≡ true))
          (read_text client read r.output_parsed r.output_text s) (λ _ q known'. (known', refl))
          (read_text-IsRecorded r r.output_parsed r.output_text s known)

    read_output-Read :
        (r : Response) (s : Exchange)
        → IsRecorded r s
        → Gives (λ output q. Read r output q) (read_output client read r s)
    unfolding read_output
    read_output-Read r s known = given_finished (is_finished r.status) r s known

    abbrev Attempted : Response × A → Exchange → Type 0
    Attempted x q = Read x.0 x.1 q

    attempt_recorded :
        (existing : Option String) (s : Exchange)
        → IsValid s
        → Gives Attempted (attempt client read existing s)
    unfolding attempt await_response
    attempt_recorded existing s valid =
        and_then-Gives (λ _ q. IsValid q) Attempted (start client existing s) _
          (start_recorded existing s valid)
          λ first q valid'.
            and_then-Gives (λ _ p. IsRecorded first p) Attempted (observed client first q) _
              (observe_lem client first q valid')
              λ _ q' known.
                and_then-Gives (λ r p. IsRecorded r p) Attempted (await_response client first q') _
                  (poll-IsRecorded client _ _ first 0 q' known)
                  λ r q'' known'.
                    and_then-Gives (λ output p. Read r output p) Attempted
                      (read_output client read r q'') _ (read_output-Read r q'' known')
                      λ output q''' done. done

    -- The returned result is of a completed response whose row is the collector's.
    abbrev pub IsAccounted : RadarClientResult A → Exchange → Type 0
    IsAccounted result q =
        (r : Response) × (result.response_id ≡ r.id)
        × (is_finished r.status ≡ true)
        × IsRecorded r q

    translate_recorded :
        (r : Exchange × Outcome Stop (Response × A))
        → Gives Attempted r
        → Gives IsAccounted (translate client read r)
    unfolding clear_lost_response
    translate_recorded (q, ok (r, output)) (known, done) = (r, refl, done, known)
    translate_recorded (q, raised validation_error) h = tt
    translate_recorded (q, raised (client_error e)) h = tt
    translate_recorded (q, raised (api_error b)) h = tt
    translate_recorded (q, raised out_of_fuel) h = tt

    -- Whatever the provider answers: where a call of `execute` returns a result, the response of the
    -- result is completed, and the collector has a row with its id and its status.
    pub execute_recorded :
        (existing : Option String) (s : Exchange) {result : RadarClientResult A}
        → IsValid s
        → (execute client read existing s).1 ≡ ok result
        → IsAccounted result (execute client read existing s).0
    unfolding execute
    execute_recorded existing s {result} valid returned =
        accounted (execute client read existing s)
          (translate_recorded (attempt client read existing s) (attempt_recorded existing s valid))
          returned
      where
        accounted :
            (r : Exchange × Outcome Stop (RadarClientResult A))
            → Gives IsAccounted r
            → r.1 ≡ ok result
            → IsAccounted result r.0
        accounted (q, ok x) h e = subst (λ y. IsAccounted y q) (ok-injective e) h
        accounted (q, raised x) h e = absurd (cc)
