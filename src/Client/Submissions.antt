-- ===== src/Client/Submissions.antt =====
-- `execute` of radar/client.py submits at most one request, and none where the response that a stage
-- still waits for is found.
use scientific_research_rada.Client.Calls.{is_finished}
use mathlib.Core.Path.{subst}
use scientific_research_rada.Prelude.{
  ℕ, ◌+◌, ◌≤◌, String, Bool, true, false, Option, none, some, str_eq, ◌≡◌, inl, inr, refl, sym,
  arith, Bool-cases, if◌then◌else◌,
}
use scientific_research_rada.Prelude.Outcome.{Outcome, ok, raised}
use scientific_research_rada.Client.Model.{
  Response, returned, ClientError, Stop, client_error, api_error, validation_error, out_of_fuel,
  Exchange, M, and_then, ◌>>=◌, ◌>>◌, pure,
}
use scientific_research_rada.Client.Accounting.{
  clear_lost_response, observe_submitted, persist_response_id,
}
use scientific_research_rada.Client.Calls.{
  RadarClient, call, next_call, found_or_lost, count_submission, observed, submit, or_submit, start,
  await_response, lost, read_text, read_output, attempt, translate, execute,
}
use scientific_research_rada.Client.Quiet.{
  runs_out, StaysStill, call-IsQuiet, observed-IsQuiet, persist-IsQuiet, observe_submitted-IsQuiet,
}
use scientific_research_rada.Client.Ends.{Submits, await_response-Polled, and_then-Submits}

abbrev AtMost : {A : Type 0} → ℕ → Exchange × Outcome Stop A → Type 0
AtMost n r = (r.0.submissions ≤ n) × (runs_out r.1 ≡ false)

and_then-AtMost :
    {A B : Type 0} (n : ℕ) (r : Exchange × Outcome Stop A) (f : A → M B)
    → AtMost n r
    → ((a : A) → AtMost n (f a r.0))
    → AtMost n (and_then r f)
and_then-AtMost n (q, ok a) f h rest = rest a
and_then-AtMost n (q, raised (client_error e)) f h rest = h
and_then-AtMost n (q, raised (api_error e)) f h rest = h
and_then-AtMost n (q, raised validation_error) f h rest = h
and_then-AtMost n (q, raised out_of_fuel) f h rest = h

still-AtMost :
    {A : Type 0} (n : ℕ) (s : Exchange) (r : Exchange × Outcome Stop A)
    → s.submissions ≤ n
    → StaysStill s r
    → AtMost n r
still-AtMost n s r le (_, same, own) = (omega arith, own)

found_or_lost-StaysStill :
    (s : Exchange) (r : Exchange × Outcome Stop Response)
    → StaysStill s r
    → StaysStill s (found_or_lost r)
unfolding clear_lost_response
found_or_lost-StaysStill s (q, ok r) h = h
found_or_lost-StaysStill s (q, raised (api_error true)) (n, m, o) = (n, m, refl)
found_or_lost-StaysStill s (q, raised (api_error false)) h = h
found_or_lost-StaysStill s (q, raised (client_error e)) h = h
found_or_lost-StaysStill s (q, raised validation_error) h = h
found_or_lost-StaysStill s (q, raised out_of_fuel) h = h

module _ (client : RadarClient) (positive : 1 ≤ client.background_poll_interval) where
  submit-AtMost : (n : ℕ) (s : Exchange) → s.submissions + 1 ≤ n → AtMost n (submit client s)
  unfolding submit
  submit-AtMost n s le =
      let first = observe_submitted client.current_price client.model_name s in
      let still = observe_submitted-IsQuiet client s in
      and_then-AtMost n first _ (still-AtMost n s first (omega arith) still) λ _.
        let q = count_submission first.0 in
        let counted : q.submissions ≤ n = omega (arith, still.1) in
        and_then-AtMost n (call q) _ (still-AtMost n q (call q) counted (call-IsQuiet q)) λ r.
          let q' = (call q).0 in
          let persisted = persist_response_id client.current_price client.model_name r.id q' in
          let counted' : q'.submissions ≤ n = omega (arith, (call-IsQuiet q).1) in
          let kept = still-AtMost n q' persisted counted' (persist-IsQuiet client r.id q') in
          and_then-AtMost n persisted _ kept (λ _. (kept.0, refl))

  start-AtMost :
      (existing : Option String) (n : ℕ) (s : Exchange)
      → s.submissions + 1 ≤ n
      → AtMost n (start client existing s)
  unfolding start
  start-AtMost none n s le = submit-AtMost n s le
  start-AtMost (some id) n s le = elim (Bool-cases (str_eq id "")) [
    | inl blank ↦ rw blank (submit-AtMost n s le)
    | inr given ↦
        let found = found_or_lost (call s) in
        let still = found_or_lost-StaysStill s (call s) (call-IsQuiet s) in
        rw given (
          and_then-AtMost n found (or_submit client) (still-AtMost n s found (omega arith) still)
            (λ o. next o found.0 (omega (arith, still.1))))
  ]
    where
      next :
          (o : Option Response) (q : Exchange)
          → q.submissions + 1 ≤ n
          → AtMost n (or_submit client o q)
      next none q le' = submit-AtMost n q le'
      next (some r) q le' = (omega arith, refl)

  module _ {A : Type 0} (read : String → Outcome Stop A)
      (reads : (t : String) → runs_out (read t) ≡ false) where
    lost_lem : (e : ClientError) (q : Exchange) → Submits {A = A} q.submissions (lost client e q)
    unfolding clear_lost_response
    lost_lem e q = (refl, refl)

    read_text_lem :
        (parsed : Option String) (output_text : String) (q : Exchange)
        → Submits q.submissions (read_text client read parsed output_text q)
    read_text_lem (some parsed) output_text q = (refl, reads parsed)
    read_text_lem none output_text q = elim (Bool-cases (str_eq output_text "")) [
      | inl blank ↦ rw blank (lost_lem ClientError.no_data q)
      | inr given ↦ rw given (refl, reads output_text)
    ]

    branch_lem :
        (b : Bool) (r : Response) (q : Exchange)
        → Submits q.submissions (
            (if b
                then read_text client read r.output_parsed r.output_text
                else lost client ClientError.ended_otherwise)
              q)
    branch_lem true r q = read_text_lem r.output_parsed r.output_text q
    branch_lem false r q = lost_lem ClientError.ended_otherwise q

    read_output_lem :
        (r : Response) (q : Exchange) → Submits q.submissions (read_output client read r q)
    unfolding read_output
    read_output_lem r q = branch_lem (is_finished r.status) r q

    -- The part of `execute` after a response was found or requested.
    abbrev follow : Response → M (Response × A)
    follow first = do
      observed client first
      r ← await_response client first
      output ← read_output client read r
      pure (r, output)

    follow_lem : (first : Response) (q : Exchange) → Submits q.submissions (follow first q)
    follow_lem first q =
        let still = observed-IsQuiet client first q in
        and_then-Submits client positive q.submissions (observed client first q) _
          (still.1, still.2)
          λ _ q'.
            and_then-Submits client positive q'.submissions (await_response client first q') _
              (await_response-Polled client positive first q').0
              λ r q''.
                and_then-Submits client positive q''.submissions (read_output client read r q'') _
                  (read_output_lem r q'') λ output q'''. (refl, refl)

    translate_lem :
        (n : ℕ) (r : Exchange × Outcome Stop (Response × A))
        → AtMost n r
        → AtMost n (translate client read r)
    unfolding clear_lost_response
    translate_lem n (q, ok (r, output)) h = (h.0, refl)
    translate_lem n (q, raised validation_error) h = (h.0, refl)
    translate_lem n (q, raised (client_error e)) h = (h.0, refl)
    translate_lem n (q, raised (api_error b)) h = (h.0, refl)
    translate_lem n (q, raised out_of_fuel) h = absurd (cc)

    -- With an interval that is not 0 and readers of the output that end, a call of `execute` ends
    -- within the rounds that the time limit allows, whatever the provider, the lease and the clock
    -- answer, and it submits at most one request.
    pub execute_lem :
        (existing : Option String) (s : Exchange)
        → (runs_out (execute client read existing s).1 ≡ false)
          × ((execute client read existing s).0.submissions ≤ s.submissions + 1)
    unfolding execute attempt
    execute_lem existing s =
        let n = s.submissions + 1 in
        let begun = start-AtMost existing n s (omega arith) in
        let tried = and_then-AtMost n (start client existing s) follow begun (λ first.
          let (same, own) = follow_lem first (start client existing s).0 in
          (omega (arith, same, begun.0), own)) in
        let (count, own) = translate_lem n (attempt client read existing s) tried in (own, count)

    start_found :
        (id : String) (r : Response) (s : Exchange)
        → str_eq id "" ≡ false
        → next_call s.calls ≡ returned r
        → start client (some id) s ≡ ((call s).0, ok r)
    unfolding start call
    start_found id r s given found = ground arith

    -- Where the response that the stage waits for is found at the provider, nothing is submitted.
    pub execute_resumes :
        (id : String) (r : Response) (s : Exchange)
        → str_eq id "" ≡ false
        → next_call s.calls ≡ returned r
        → (execute client read (some id) s).0.submissions ≤ s.submissions
    unfolding execute attempt
    execute_resumes id r s given found =
        let n = s.submissions in
        let (same, own) = follow_lem r (call s).0 in
        let tried : AtMost n (follow r (call s).0) =
          (omega (arith, same, (call-IsQuiet s).1), own) in
        (translate_lem n (attempt client read (some id) s) (
          subst (λ x. AtMost n (and_then x follow)) (sym (start_found id r s given found)) tried)).0
