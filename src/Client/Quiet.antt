-- ===== src/Client/Quiet.antt =====
-- The parts of radar/client.py and radar/request_accounting.py that neither wait nor submit.
use scientific_research_rada.Prelude.{suc, leb}
use scientific_research_rada.Client.Accounting.{is_pending}
use scientific_research_rada.Client.Calls.{poll}
use scientific_research_rada.Prelude.{ℕ, String, Bool, true, false, ◌≡◌, refl, ◌∙◌, arith}
use scientific_research_rada.Prelude.Outcome.{Outcome, ok, raised}
use scientific_research_rada.Client.Model.{
  Response, ClientError, Stop, client_error, api_error, validation_error, out_of_fuel, Exchange, M,
  and_then,
}
use scientific_research_rada.Client.Accounting.{
  renew_lease, choose_row, observe_submitted, observe, persist_response_id, clear_lost_response,
}
use scientific_research_rada.Client.Calls.{RadarClient, call, retried, observed, poll_once, sleep}

-- The model's own end of a loop, which the program does not have.
abbrev pub runs_out : {A : Type 0} → Outcome Stop A → Bool
runs_out (raised out_of_fuel) = true
runs_out _ = false

abbrev pub Still : Exchange → Exchange → Type 0
Still s s' = (s'.now ≡ s.now) × (s'.submissions ≡ s.submissions)

abbrev pub StaysStill : {A : Type 0} → Exchange → Exchange × Outcome Stop A → Type 0
StaysStill s r = (r.0.now ≡ s.now) × (r.0.submissions ≡ s.submissions) × (runs_out r.1 ≡ false)

abbrev pub IsQuiet : {A : Type 0} → M A → Type 0
IsQuiet m = (s : Exchange) → StaysStill s (m s)

pub and_then-StaysStill :
    {A B : Type 0} (s : Exchange) (r : Exchange × Outcome Stop A) (f : A → M B)
    → StaysStill s r
    → ((a : A) → IsQuiet (f a))
    → StaysStill s (and_then r f)
and_then-StaysStill s (q, ok a) f (n, m, _) rest = let (n', m', o) = rest a q in (n' ∙ n, m' ∙ m, o)
and_then-StaysStill s (q, raised (client_error e)) f (n, m, o) rest = (n, m, refl)
and_then-StaysStill s (q, raised (api_error e)) f (n, m, o) rest = (n, m, refl)
and_then-StaysStill s (q, raised validation_error) f (n, m, o) rest = (n, m, refl)
and_then-StaysStill s (q, raised out_of_fuel) f (n, m, o) rest = absurd (cc)

pub renew_lease-IsQuiet : IsQuiet renew_lease
unfolding renew_lease
renew_lease-IsQuiet s = ground arith

pub call-IsQuiet : IsQuiet call
unfolding call
call-IsQuiet s = ground arith

pub clear_lost_response-IsQuiet : IsQuiet clear_lost_response
unfolding clear_lost_response
clear_lost_response-IsQuiet s = (refl, refl, refl)

module _ (client : RadarClient) where
  pub observed-IsQuiet : (r : Response) → IsQuiet (observed client r)
  unfolding observe choose_row
  observed-IsQuiet r s =
      and_then-StaysStill s (renew_lease s) _ (renew_lease-IsQuiet s) λ _ q. ground arith

  pub persist-IsQuiet :
      (id : String) → IsQuiet (persist_response_id client.current_price client.model_name id)
  unfolding persist_response_id
  persist-IsQuiet id s =
      and_then-StaysStill s (renew_lease s) _ (renew_lease-IsQuiet s) λ _ q. ground arith

  pub observe_submitted-IsQuiet : IsQuiet (observe_submitted client.current_price client.model_name)
  unfolding observe_submitted
  observe_submitted-IsQuiet s =
      and_then-StaysStill s (renew_lease s) _ (renew_lease-IsQuiet s) λ _ q. (refl, refl, refl)

  retried-StaysStill :
      (s : Exchange) (last : Response) (failures : ℕ) (r : Exchange × Outcome Stop Response)
      → StaysStill s r
      → StaysStill s (retried last failures r)
  retried-StaysStill s last failures r h = ground arith

  -- A round of the loop takes at least the interval.
  pub poll_once_lem :
      (r : Response) (failures : ℕ) (s : Exchange)
      → ((poll_once client r failures s).0.now ≡ (sleep client s).0.now)
        × ((poll_once client r failures s).0.submissions ≡ s.submissions)
        × (runs_out (poll_once client r failures s).1 ≡ false)
  unfolding poll_once sleep
  poll_once_lem r failures s =
      let q = (sleep client s).0 in
      and_then-StaysStill q (renew_lease q) _ (renew_lease-IsQuiet q) λ _ q'.
        and_then-StaysStill q' (retried r failures (call q')) _
          (retried-StaysStill q' r failures (call q') (call-IsQuiet q'))
          λ x q''.
            and_then-StaysStill q'' (observed client x.0 q'') _ (observed-IsQuiet x.0 q'')
              λ _ q'''. (refl, refl, refl)

  -- The loop, by its tests.
  pub poll_settled :
      (fuel deadline : ℕ) (r : Response) (failures : ℕ) (s : Exchange)
      → is_pending r.status ≡ false
      → poll client (suc fuel) deadline r failures s ≡ (s, ok r)
  unfolding poll
  poll_settled fuel deadline r failures s h = ground arith

  pub poll_late :
      (fuel deadline : ℕ) (r : Response) (failures : ℕ) (s : Exchange)
      → is_pending r.status ≡ true
      → leb deadline s.now ≡ true
      → poll client (suc fuel) deadline r failures s
        ≡ (s, raised (client_error ClientError.timed_out))
  unfolding poll
  poll_late fuel deadline r failures s h k = ground arith

  pub poll_round :
      (fuel deadline : ℕ) (r : Response) (failures : ℕ) (s : Exchange)
      → is_pending r.status ≡ true
      → leb deadline s.now ≡ false
      → poll client (suc fuel) deadline r failures s
        ≡ and_then (poll_once client r failures s) (λ x. poll client fuel deadline x.0 x.1)
  unfolding poll
  poll_round fuel deadline r failures s h k = ground arith
