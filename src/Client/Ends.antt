-- ===== src/Client/Ends.antt =====
-- `execute` of radar/client.py ends within its time limit, and submits at most one request.
use scientific_research_rada.Client.Quiet.{poll_settled, poll_late, poll_round}
use mathlib.Core.Path.{subst}
use scientific_research_rada.Prelude.{
  ℕ, zero, suc, ◌+◌, ◌≤◌, false, leb, ◌≡◌, inl, inr, refl, sym, ◌∙◌, arith, Bool-cases,
}
use scientific_research_rada.Prelude.Outcome.{Outcome, ok, raised}
use scientific_research_rada.Client.Model.{
  Response, Stop, client_error, api_error, validation_error, out_of_fuel, Exchange, M, and_then,
}
use scientific_research_rada.Client.Accounting.{is_pending}
use scientific_research_rada.Client.Calls.{RadarClient, sleep, poll_once, poll, await_response}
use scientific_research_rada.Client.Quiet.{runs_out, poll_once_lem}

-- A response that is no longer pending, or an error.
abbrev pub IsSettled : Outcome Stop Response → Type 0
IsSettled (ok r) = is_pending r.status ≡ false
IsSettled (raised e) = Unit

-- The number of submissions afterwards, and an end that is the program's.
abbrev pub Submits : {A : Type 0} → ℕ → Exchange × Outcome Stop A → Type 0
Submits n r = (r.0.submissions ≡ n) × (runs_out r.1 ≡ false)

module _ (client : RadarClient) (positive : 1 ≤ client.background_poll_interval) where
  abbrev pub Polled : Exchange → Exchange × Outcome Stop Response → Type 0
  Polled s r = Submits s.submissions r × IsSettled r.1

  slept : (r : Response) (failures : ℕ) (s : Exchange) → s.now + 1 ≤ (sleep client s).0.now
  unfolding sleep
  slept r failures s = omega arith

  and_then-Polled :
      {A : Type 0} (s : Exchange) (r : Exchange × Outcome Stop A) (f : A → M Response)
      → Submits s.submissions r
      → ((a : A) → Polled r.0 (f a r.0))
      → Polled s (and_then r f)
  and_then-Polled s (q, ok a) f (same, _) rest =
      let ((n, o), settled) = rest a in ((n ∙ same, o), settled)
  and_then-Polled s (q, raised (client_error e)) f h rest = (h, tt)
  and_then-Polled s (q, raised (api_error e)) f h rest = (h, tt)
  and_then-Polled s (q, raised validation_error) f h rest = (h, tt)
  and_then-Polled s (q, raised out_of_fuel) f h rest = (h, tt)

  poll_step :
      (fuel deadline : ℕ) (r : Response) (failures : ℕ) (s : Exchange)
      → (leb deadline s.now ≡ false
          → Polled s
              (and_then (poll_once client r failures s) (λ x. poll client fuel deadline x.0 x.1)))
      → Polled s (poll client (suc fuel) deadline r failures s)
  poll_step fuel deadline r failures s round = elim (Bool-cases (is_pending r.status)) [
    | inr settled ↦
        subst (Polled s) (sym (poll_settled client fuel deadline r failures s settled))
          ((refl, refl), settled)
    | inl pending ↦ elim (Bool-cases (leb deadline s.now)) [
      | inl late ↦
          subst (Polled s) (sym (poll_late client fuel deadline r failures s pending late))
            ((refl, refl), tt)
      | inr early ↦
          subst (Polled s) (sym (poll_round client fuel deadline r failures s pending early))
            (round early)
    ]
  ]

  poll-Polled :
      (fuel deadline : ℕ) (r : Response) (failures : ℕ) (s : Exchange)
      → deadline ≤ s.now + fuel
      → Polled s (poll client (suc fuel) deadline r failures s)
  poll-Polled zero deadline r failures s enough =
      poll_step zero deadline r failures s λ early. absurd (ground (arith, enough, early))
  poll-Polled (suc fuel) deadline r failures s enough =
      let (time, submitted, own) = poll_once_lem client r failures s in
      poll_step (suc fuel) deadline r failures s λ early.
        and_then-Polled s (poll_once client r failures s) _ (submitted, own)
          λ x.
            poll-Polled fuel deadline x.0 x.1 (poll_once client r failures s).0
              (omega (arith, time, slept r failures s))

  pub await_response-Polled : (r : Response) (s : Exchange) → Polled s (await_response client r s)
  unfolding await_response
  await_response-Polled r s =
      poll-Polled client.background_poll_timeout (s.now + client.background_poll_timeout) r 0 s
        (omega arith)

  -- A part that submits what the counts say.
  pub and_then-Submits :
      {A B : Type 0} (n : ℕ) (r : Exchange × Outcome Stop A) (f : A → M B)
      → Submits n r
      → ((a : A) (q : Exchange) → Submits q.submissions (f a q))
      → Submits n (and_then r f)
  and_then-Submits n (q, ok a) f (same, _) rest = let (m, o) = rest a q in (m ∙ same, o)
  and_then-Submits n (q, raised (client_error e)) f h rest = h
  and_then-Submits n (q, raised (api_error e)) f h rest = h
  and_then-Submits n (q, raised validation_error) f h rest = h
  and_then-Submits n (q, raised out_of_fuel) f h rest = h
