-- ===== src/Pipeline/Batched.antt =====
-- One answer for a batch of papers, from the provider to the saved stage (radar/runner.py).
use mathlib.Core.Path.{subst}
use scientific_research_rada.Prelude.{String, true, false, List, Option, ◌≡◌, sym, ap, ◌∙◌, arith}
use scientific_research_rada.Prelude.Outcome.{
  ok, >>=-eq-ok, ok-injective, wrap_error, wrap_error-eq-ok,
}
use scientific_research_rada.Prelude.Texts.{same_set, is_unique, is_unique_iff}
use scientific_research_rada.Radar.Contracts.{PaperSummary, PaperSummariesOutput}
use scientific_research_rada.Radar.Validators.{
  has_repeats, ids_of_summaries, validate_unique_papers,
}
use scientific_research_rada.Radar.Validation.{validate_summaries}
use scientific_research_rada.Radar.StageInputs.{EvidencePaper}
use scientific_research_rada.Radar.Evidence.{Documents, constrain_summaries}
use scientific_research_rada.Radar.Constrained.{constrain_summaries-ids}
use scientific_research_rada.Pipeline.Model.{
  PipelineError, Reply, failure, discovery_reply, summaries_reply, trend_reply, briefing_reply,
}
use scientific_research_rada.Pipeline.Accept.{
  client_error, expect_summaries, evidence_ids, accept_batch,
}

-- Ids that do not repeat.
has_repeats_lem : (ids : List String) → has_repeats ids ≡ false → is_unique ids ≡ true
unfolding has_repeats
has_repeats_lem ids h = ground (arith, is_unique_iff ids)

pub validate_unique_papers_lem :
    (o : PaperSummariesOutput) {o' : PaperSummariesOutput}
    → validate_unique_papers o ≡ ok o'
    → (o ≡ o') × (is_unique (ids_of_summaries o.paper_summaries) ≡ true)
unfolding validate_unique_papers
validate_unique_papers_lem o h =
    ground (arith, has_repeats_lem (ids_of_summaries o.paper_summaries))

validate_summaries_lem :
    (o : PaperSummariesOutput) (expected : List String)
    → validate_summaries o expected ≡ ok tt
    → same_set (ids_of_summaries o.paper_summaries) expected ≡ true
unfolding validate_summaries
validate_summaries_lem o expected h = ground arith

-- An answer that parses has summaries of different papers.
expect_summaries_lem :
    (reply : Reply) {id : Option String} {o : PaperSummariesOutput}
    → expect_summaries reply ≡ ok (id, o)
    → is_unique (ids_of_summaries o.paper_summaries) ≡ true
expect_summaries_lem failure h = absurd (cc)
expect_summaries_lem (discovery_reply id' o') h = absurd (cc)
expect_summaries_lem (trend_reply id' o') h = absurd (cc)
expect_summaries_lem (briefing_reply id' o') h = absurd (cc)
expect_summaries_lem (summaries_reply id' o') {id} {o} h =
    let (parsed, valid, e) = >>=-eq-ok (wrap_error client_error (validate_unique_papers o')) _ h in
    let (same, unique) =
      validate_unique_papers_lem o'
        (wrap_error-eq-ok client_error (validate_unique_papers o') valid) in
    subst (λ (x : PaperSummariesOutput). is_unique (ids_of_summaries x.paper_summaries) ≡ true)
      (same ∙ ap (λ (x : Option String × PaperSummariesOutput). x.1) (ok-injective e)) unique

-- An accepted batch has a summary of each of its papers, once.
pub accept_batch_lem :
    (documents : Documents) (batch : List EvidencePaper) (reply : Reply) {id : Option String}
    {saved : List PaperSummary}
    → accept_batch documents batch reply ≡ ok (id, saved)
    → (is_unique (ids_of_summaries saved) ≡ true)
      × (same_set (ids_of_summaries saved) (evidence_ids batch) ≡ true)
unfolding accept_batch
accept_batch_lem documents batch reply {saved} h =
    let ((id', output), parsed, h1) = >>=-eq-ok (expect_summaries reply) _ h in
    let (_, valid, h2) =
      >>=-eq-ok
        (wrap_error PipelineError.invalid_output (validate_summaries output (evidence_ids batch))) _
        h1 in
    let (kept, constrained, h3) =
      >>=-eq-ok
        (wrap_error PipelineError.invalid_evidence
          (constrain_summaries documents output.paper_summaries))
        _ h2 in
    let ids =
      constrain_summaries-ids documents output.paper_summaries
        (wrap_error-eq-ok PipelineError.invalid_evidence _ constrained) in
    let same = ap (λ (x : Option String × List PaperSummary). x.1) (ok-injective h3) in
    subst
      (λ x.
        (is_unique (ids_of_summaries x) ≡ true)
        × (same_set (ids_of_summaries x) (evidence_ids batch) ≡ true))
      same
      (
        subst (λ x. is_unique x ≡ true) (sym ids) (expect_summaries_lem reply parsed),
        subst (λ x. same_set x (evidence_ids batch) ≡ true) (sym ids)
            (validate_summaries_lem output (evidence_ids batch)
              (wrap_error-eq-ok PipelineError.invalid_output _ valid)),
      )
