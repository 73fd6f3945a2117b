-- ===== src/Pipeline/Model.antt =====
-- The state of a run's execution and the errors that end it (radar/runner.py). Each write of
-- radar/lifecycle.py is committed at once, so an error loses nothing that was written before.
use scientific_research_rada.Prelude.{◌≡◌, ap, String, List, [], ◌∷◌, ◌++◌, Option}
use scientific_research_rada.Prelude.Outcome.{Outcome, ok, raised, or_raise, ok-injective}
use scientific_research_rada.Radar.Contracts.{
  DiscoveryRelevanceOutput, PaperSummariesOutput, TrendAnalysisOutput, DigestBriefingOutput,
}
use scientific_research_rada.Radar.Validators.{ContractError}
use scientific_research_rada.Radar.Validation.{RadarOutputValidationError, StageError}
use scientific_research_rada.Radar.Evidence.{EvidenceError}
use scientific_research_rada.Runs.Model.{DigestRun, DigestRunStage, DigestRunStageType}
use scientific_research_rada.Runs.Lifecycle.{stage_of, on_stage}

-- What a stage may raise, by where it comes from.
pub data PipelineError : Type 0 where
  client_failed missing_stage bad_checkpoint bad_batch_size : PipelineError
  invalid_output : RadarOutputValidationError → PipelineError
  invalid_stage : StageError → PipelineError
  invalid_contract : ContractError → PipelineError
  invalid_evidence : EvidenceError → PipelineError

-- What `client.execute` answers a request with: an error, or an output with its response id.
pub data Reply : Type 0 where
  failure : Reply
  discovery_reply : Option String → DiscoveryRelevanceOutput → Reply
  summaries_reply : Option String → PaperSummariesOutput → Reply
  trend_reply : Option String → TrendAnalysisOutput → Reply
  briefing_reply : Option String → DigestBriefingOutput → Reply

-- A request, by its stage and the papers that its prompt lists.
pub record Asked : Type 0 where
  pub stage : DigestRunStageType
  pub paper_ids : List String

-- The run as committed, the answers that the provider will give, and the requests made.
pub record Pipeline : Type 0 where
  pub run : DigestRun
  pub replies : List Reply
  pub asked : List Asked

abbrev pub M : Type 0 → Type 0
M A = Pipeline → Pipeline × Outcome PipelineError A

abbrev pub and_then :
    {E A B : Type 0}
    → Pipeline × Outcome E A
    → (A → Pipeline → Pipeline × Outcome E B)
    → Pipeline × Outcome E B
and_then (p, ok a) f = f a p
and_then (p, raised e) f = (p, raised e)

infixl 5 ◌>>=◌ ◌>>◌
abbrev pub ◌>>=◌ : {A B : Type 0} → M A → (A → M B) → M B
◌>>=◌ m f p = and_then (m p) f

abbrev pub ◌>>◌ : {B : Type 0} → M (Unit {0}) → M B → M B
m >> k = m >>= λ _. k

abbrev pub pure : {A : Type 0} → A → M A
pure a p = (p, ok a)

-- An outcome of code that does not write.
abbrev pub lift : {A : Type 0} → Outcome PipelineError A → M A
lift o p = (p, o)

-- `lifecycle.stage(run, ...)`
unfoldable pub get_stage : DigestRunStageType → M DigestRunStage
get_stage wanted p = (p, or_raise (stage_of wanted p.run.stages) PipelineError.missing_stage)

-- Assignments to a stage, committed.
unfoldable pub write_stage : DigestRunStageType → (DigestRunStage → DigestRunStage) → M (Unit {0})
write_stage wanted f p = (record p { run = on_stage wanted f p.run }, ok tt)

-- `requests.execute`: the next answer of the provider; without one the request fails.
abbrev pub next_reply : List Reply → Reply
next_reply [] = Reply.failure
next_reply (r ∷ _) = r

abbrev pub other_replies : List Reply → List Reply
other_replies [] = []
other_replies (_ ∷ rs) = rs

unfoldable pub ask : DigestRunStageType → List String → M Reply
ask stage paper_ids p = (
  record p {
    replies = other_replies p.replies;
    asked = p.asked ++ (record { stage = stage; paper_ids = paper_ids } ∷ []);
  },
  ok (next_reply p.replies),
)

-- A chain after a part that ended.
pub and_then-raised :
    {A B : Type 0} (r : Pipeline × Outcome PipelineError A) (f : A → M B) {e : PipelineError}
    → r.1 ≡ raised e
    → and_then r f ≡ (r.0, raised e)
and_then-raised (p, ok a) f h = absurd (cc)
and_then-raised (p, raised e) f h = cc

pub and_then-ok :
    {A B : Type 0} (r : Pipeline × Outcome PipelineError A) (f : A → M B) {a : A}
    → r.1 ≡ ok a
    → and_then r f ≡ f a r.0
and_then-ok (p, ok a) f h = ap (λ x. f x p) (ok-injective h)
and_then-ok (p, raised e) f h = absurd (cc)
