-- ===== src/Pipeline/Answered.antt =====
-- The loop over the batches of radar/runner.py with a provider that answers every batch.
use mathlib.Core.List.{append_assoc, append-nil}
use scientific_research_rada.Prelude.{
  ℕ, Bool, true, false, List, [], ◌∷◌, ◌++◌, map, All, ◌≡◌, inl, inr, refl, sym, ap, ◌∙◌, arith,
}
use scientific_research_rada.Prelude.Outcome.{Outcome, ok, raised, Outcome-cases}
use scientific_research_rada.Radar.StageInputs.{EvidencePaper}
use scientific_research_rada.Radar.Evidence.{Documents}
use scientific_research_rada.Runs.Model.{DigestRunStageType}
use scientific_research_rada.Pipeline.Model.{Pipeline, Reply, Asked, and_then-ok, ask, write_stage}
use scientific_research_rada.Pipeline.Accept.{evidence_ids, accept_batch}
use scientific_research_rada.Pipeline.Stages.{Setting, summarize_batch, summarize_batches}

abbrev pub is_ok {ℓ κ} : {E : Type ℓ} {A : Type κ} → Outcome E A → Bool
is_ok (ok a) = true
is_ok (raised e) = false

-- A batch with the answer that it gets.
abbrev pub Answered : Type 0
Answered = List EvidencePaper × Reply

abbrev pub batch_of : Answered → List EvidencePaper
batch_of x = x.0

abbrev pub reply_of : Answered → Reply
reply_of x = x.1

-- The request for a batch lists its papers.
abbrev pub request_of : Answered → Asked
request_of x = record { stage = DigestRunStageType.paper_summaries; paper_ids = evidence_ids x.0 }

module _ (setting : Setting) (documents : Documents) (total : ℕ) where
  abbrev IsAccepted : Answered → Type 0
  IsAccepted x = is_ok (accept_batch documents x.0 x.1) ≡ true

  summarize_batch_answered :
      (x : Answered) (rest : List Reply) (p : Pipeline)
      → IsAccepted x
      → p.replies ≡ reply_of x ∷ rest
      → ((summarize_batch setting documents total (batch_of x) p).1 ≡ ok tt)
        × ((summarize_batch setting documents total (batch_of x) p).0.replies ≡ rest)
        × ((summarize_batch setting documents total (batch_of x) p).0.asked
            ≡ p.asked ++ (request_of x ∷ []))
  unfolding summarize_batch ask write_stage
  summarize_batch_answered x rest p accepted next =
      elim (Outcome-cases (accept_batch documents x.0 x.1)) [
        | inl ((id, saved), e) ↦ ground arith
        | inr (e, refused) ↦ absurd (ground arith)
      ]

  -- Where the provider has an acceptable answer for each of the batches, the loop ends without an
  -- error, and has made one request for each batch, in order and for exactly its papers, and none
  -- after them.
  pub summarize_batches_answered :
      (todo : List Answered) (rest : List Reply) (p : Pipeline)
      → All IsAccepted todo
      → p.replies ≡ map reply_of todo ++ rest
      → ((summarize_batches setting documents total (map batch_of todo) p).1 ≡ ok tt)
        × ((summarize_batches setting documents total (map batch_of todo) p).0.replies ≡ rest)
        × ((summarize_batches setting documents total (map batch_of todo) p).0.asked
            ≡ p.asked ++ map request_of todo)
  unfolding summarize_batches
  summarize_batches_answered [] rest p accepted next = (refl, next, sym (append-nil p.asked))
  summarize_batches_answered (x ∷ todo) rest p (first, others) next =
      let (done, left, made) =
        summarize_batch_answered x (map reply_of todo ++ rest) p first next in
      let q = (summarize_batch setting documents total (batch_of x) p).0 in
      let (done', left', made') = summarize_batches_answered todo rest q others left in
      rw
        (and_then-ok (summarize_batch setting documents total (batch_of x) p)
          (λ _. summarize_batches setting documents total (map batch_of todo)) done)
        (
          done',
          left',
          made'
              ∙ ap (λ a. a ++ map request_of todo) made
              ∙ append_assoc p.asked (request_of x ∷ []) (map request_of todo),
        )
