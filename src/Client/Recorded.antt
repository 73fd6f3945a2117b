-- ===== src/Client/Recorded.antt =====
-- The row of a request follows its response (radar/request_accounting.py): what a call of `execute`
-- returns is in the account.
use scientific_research_rada.Prelude.{leb}
use scientific_research_rada.Client.Accounting.{next_lease, is_pending}
use scientific_research_rada.Client.Quiet.{poll_settled, poll_late, poll_round}
use scientific_research_rada.Client.Accounting.{or_row, on_current}
use mathlib.Core.Path.{subst}
use scientific_research_rada.Prelude.{
  ℕ, zero, suc, ◌+◌, String, List, [], ◌∷◌, ◌++◌, length, Option, none, some, ◌≡◌, inl, inr, refl,
  sym, arith, Bool-cases, Option-cases,
}
use scientific_research_rada.Prelude.Outcome.{Outcome, ok, raised}
use scientific_research_rada.Client.Model.{RadarRequest, Response, Stop, Exchange, M, and_then}
use scientific_research_rada.Client.Accounting.{
  row_at, update_at, has_response, find_by_response, choose_row, observed_row, observe, renew_lease,
  or_current, model_of,
}
use scientific_research_rada.Client.Calls.{
  RadarClient, call, retried, observed, sleep, poll_once, poll,
}

-- A property of the result and the state of a part that did not raise.
abbrev pub Gives : {A : Type 0} → (A → Exchange → Type 0) → Exchange × Outcome Stop A → Type 0
Gives P (q, ok a) = P a q
Gives P (q, raised e) = Unit

pub and_then-Gives :
    {A B : Type 0} (P : A → Exchange → Type 0) (Q : B → Exchange → Type 0)
    (r : Exchange × Outcome Stop A) (f : A → M B)
    → Gives P r
    → ((a : A) (q : Exchange) → P a q → Gives Q (f a q))
    → Gives Q (and_then r f)
and_then-Gives P Q (q, ok a) f h rest = rest a q h
and_then-Gives P Q (q, raised e) f h rest = tt

abbrev pub HasRow : ℕ → List RadarRequest → Type 0
HasRow n rows = (row : RadarRequest) × (row_at n rows ≡ some row)

abbrev pub ValidIndex : Option ℕ → List RadarRequest → Type 0
ValidIndex none rows = Unit
ValidIndex (some n) rows = HasRow n rows

-- The collector's position is that of a row.
abbrev pub IsValid : Exchange → Type 0
IsValid s = ValidIndex s.current s.rows

-- The collector's row has the response's id and status.
abbrev pub IsRecorded : Response → Exchange → Type 0
IsRecorded r s =
    (n : ℕ) × (row : RadarRequest) × (s.current ≡ some n)
    × (row_at n s.rows ≡ some row)
    × (row.response_id ≡ some r.id)
    × (row.status ≡ r.status)

pub recorded-IsValid : (r : Response) (s : Exchange) → IsRecorded r s → IsValid s
recorded-IsValid r s (n, row, now, found, _, _) =
    subst (λ c. ValidIndex c s.rows) (sym now) (row, found)

pub row_at-update_at :
    (n : ℕ) (f : RadarRequest → RadarRequest) (rows : List RadarRequest) {row : RadarRequest}
    → row_at n rows ≡ some row
    → row_at n (update_at n f rows) ≡ some (f row)
unfolding row_at update_at
row_at-update_at n f [] h = absurd (cc)
row_at-update_at zero f (x ∷ xs) {row} h = ground arith
row_at-update_at (suc n) f (x ∷ xs) {row} h = row_at-update_at n f xs {row = row} h

pub row_at-added :
    (rows : List RadarRequest) (x : RadarRequest) → row_at (length rows) (rows ++ (x ∷ [])) ≡ some x
unfolding row_at
row_at-added [] x = refl
row_at-added (y ∷ rows) x = row_at-added rows x

find-HasRow :
    (id : String) (rows : List RadarRequest) {n : ℕ}
    → find_by_response id rows ≡ some n
    → HasRow n rows
unfolding find_by_response row_at
find-HasRow id [] h = absurd (cc)
find-HasRow id (x ∷ rows) {n} h = elim (Bool-cases (has_response id x)) [
  | inl here ↦ let first : 0 ≡ n = ground arith in subst (λ k. HasRow k (x ∷ rows)) first (x, refl)
  | inr there ↦ elim (Option-cases (find_by_response id rows)) [
    | inl missing ↦ absurd (ground arith)
    | inr (m, found) ↦
        let later : suc m ≡ n = ground arith in
        subst (λ k. HasRow k (x ∷ rows)) later (find-HasRow id rows found)
  ]
]

module _ (client : RadarClient) where
  abbrev choose : Response → Exchange → Exchange
  choose r s =
      choose_row client.current_price client.model_name r.id
        (model_of client.current_price client.model_name r) s

  -- The row that an observation is written to exists.
  abbrev pub HasCurrent : Exchange → Type 0
  HasCurrent s = (n : ℕ) × (s.current ≡ some n) × HasRow n s.rows

  or_row-HasCurrent :
      (c : Option ℕ) (model_name : String) (s : Exchange)
      → ValidIndex c s.rows
      → HasCurrent (or_row client.current_price client.model_name c model_name s)
  or_row-HasCurrent none model_name s valid = (length s.rows, refl, (_, row_at-added s.rows _))
  or_row-HasCurrent (some n) model_name s valid = (n, refl, valid)

  or_current-valid :
      (o c : Option ℕ) (rows : List RadarRequest)
      → ((n : ℕ) → o ≡ some n → HasRow n rows)
      → ValidIndex c rows
      → ValidIndex (or_current client.current_price client.model_name o c) rows
  or_current-valid none c rows found valid = valid
  or_current-valid (some n) c rows found valid = found n refl

  choose-HasCurrent : (r : Response) (s : Exchange) → IsValid s → HasCurrent (choose r s)
  unfolding choose_row
  choose-HasCurrent r s valid =
      or_row-HasCurrent
        (or_current client.current_price client.model_name (find_by_response r.id s.rows) s.current)
        (model_of client.current_price client.model_name r) s
        (or_current-valid (find_by_response r.id s.rows) s.current s.rows
          (λ n found. find-HasRow r.id s.rows found) valid)

  abbrev pub changed : (RadarRequest → RadarRequest) → Exchange → Exchange
  changed f s = on_current client.current_price client.model_name f s

  pub on_current_lem :
      (f : RadarRequest → RadarRequest) (s : Exchange) (here : HasCurrent s)
      → ((changed f s).current ≡ some here.0)
        × ((row : RadarRequest) × (row_at here.0 (changed f s).rows ≡ some (f row)))
  on_current_lem f s (n, now, (row, found)) = (
    ground (arith, now),
    (
      row,
      subst (λ c. row_at n (with_current c).rows ≡ some (f row)) (sym now)
          (row_at-update_at n f s.rows {row = row} found),
    ),
  )
    where
      with_current : Option ℕ → Exchange
      with_current c = elim c [ none ↦ s | some m ↦ record s { rows = update_at m f s.rows } ]

  abbrev SameRows : Exchange → Exchange → Type 0
  SameRows s q = (q.rows ≡ s.rows) × (q.current ≡ s.current)

  pub same-IsValid : (s q : Exchange) → SameRows s q → IsValid s → IsValid q
  same-IsValid s q (rows, current) valid =
      subst (λ c. ValidIndex c q.rows) (sym current)
        (subst (λ rs. ValidIndex s.current rs) (sym rows) valid)

  pub renew_lem : (s : Exchange) → IsValid s → Gives (λ _ q. IsValid q) (renew_lease s)
  unfolding renew_lease
  renew_lem s valid = elim (Bool-cases (next_lease s.leases)) [
    | inl held ↦ rw held valid
    | inr gone ↦ rw gone tt
  ]

  pub observe_lem :
      (r : Response) (s : Exchange)
      → IsValid s
      → Gives (λ _ q. IsRecorded r q) (observed client r s)
  unfolding observe observed_row
  observe_lem r s valid =
      and_then-Gives (λ _ q. IsValid q) (λ _ q. IsRecorded r q) (renew_lease s) _
        (renew_lem s valid)
        λ _ q valid'.
          let here = choose-HasCurrent r q valid' in
          let f = observed_row client.current_price client.model_name r q.now in
          let (now, (row, found)) = on_current_lem f (choose r q) here in
          (here.0, f row, now, found, refl, refl)

  pub call_lem : (s : Exchange) → SameRows s (call s).0
  unfolding call
  call_lem s = (refl, refl)

  retried_lem :
      (last : Response) (failures : ℕ) (r : Exchange × Outcome Stop Response)
      → IsValid r.0
      → Gives (λ _ q. IsValid q) (retried last failures r)
  retried_lem last failures (q, ok r) valid = valid
  retried_lem last failures (q, raised e) valid = elim (Bool-cases (leb 3 (failures + 1))) [
    | inl many ↦ rw many tt
    | inr few ↦ rw few valid
  ]

  poll_once-IsRecorded :
      (r : Response) (failures : ℕ) (s : Exchange)
      → IsValid s
      → Gives (λ x q. IsRecorded x.0 q) (poll_once client r failures s)
  unfolding poll_once sleep
  poll_once-IsRecorded r failures s valid =
      let q = (sleep client s).0 in
      and_then-Gives (λ _ p. IsValid p) (λ x p. IsRecorded x.0 p) (renew_lease q) _
        (renew_lem q valid)
        λ _ q' valid'.
          and_then-Gives (λ _ p. IsValid p) (λ x p. IsRecorded x.0 p) (retried r failures (call q'))
            _ (retried_lem r failures (call q') (same-IsValid q' (call q').0 (call_lem q') valid'))
            λ x q'' valid''.
              and_then-Gives (λ _ p. IsRecorded x.0 p) (λ y p. IsRecorded y.0 p)
                (observed client x.0 q'') _ (observe_lem x.0 q'' valid'') λ _ q''' known. known

  pub poll-IsRecorded :
      (fuel deadline : ℕ) (r : Response) (failures : ℕ) (s : Exchange)
      → IsRecorded r s
      → Gives (λ x q. IsRecorded x q) (poll client fuel deadline r failures s)
  poll-IsRecorded zero deadline r failures s known = (unfold poll in tt)
  poll-IsRecorded (suc fuel) deadline r failures s known = elim (Bool-cases (is_pending r.status)) [
    | inr settled ↦
        subst (Gives (λ x q. IsRecorded x q))
          (sym (poll_settled client fuel deadline r failures s settled)) known
    | inl pending ↦ elim (Bool-cases (leb deadline s.now)) [
      | inl late ↦
          subst (Gives (λ x q. IsRecorded x q))
            (sym (poll_late client fuel deadline r failures s pending late)) tt
      | inr early ↦
          subst (Gives (λ x q. IsRecorded x q))
            (sym (poll_round client fuel deadline r failures s pending early))
            (and_then-Gives (λ x q. IsRecorded x.0 q) (λ x q. IsRecorded x q)
              (poll_once client r failures s) _
              (poll_once-IsRecorded r failures s (recorded-IsValid r s known))
              λ x q known'. poll-IsRecorded fuel deadline x.0 x.1 q known')
    ]
  ]
