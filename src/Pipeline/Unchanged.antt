-- ===== src/Pipeline/Unchanged.antt =====
-- What no write of a stage changes in a run (radar/runner.py), part by part.
use scientific_research_rada.Prelude.{ℕ, String, List, [], ◌∷◌, map, Option, ◌≡◌, refl, ◌∙◌, arith}
use scientific_research_rada.Prelude.Outcome.{Outcome, ok, raised}
use scientific_research_rada.Runs.Model.{DigestRun, DigestRunStage, DigestRunStageType, StageResult}
use scientific_research_rada.Runs.State.{mark_stage_running}
use scientific_research_rada.Runs.Lifecycle.{change_stage}
use scientific_research_rada.Pipeline.Model.{
  PipelineError, Pipeline, M, and_then, ◌>>=◌, lift, get_stage, write_stage, ask,
}
use scientific_research_rada.Pipeline.Saves.{complete_stage}

abbrev pub kinds : DigestRun → List DigestRunStageType
kinds r = map (λ (s : DigestRunStage). s.stage) r.stages

abbrev pub Keeps : DigestRun → DigestRun → Type 0
Keeps r r' = (r'.id ≡ r.id) × (r'.worker_id ≡ r.worker_id) × (kinds r' ≡ kinds r)

pub Keeps-trans : (a b c : DigestRun) → Keeps a b → Keeps b c → Keeps a c
Keeps-trans a b c (i, w, k) (i', w', k') = (i' ∙ i, w' ∙ w, k' ∙ k)

pub and_then-Keeps :
    {E A B : Type 0} (before : DigestRun) (r : Pipeline × Outcome E A)
    (f : A → Pipeline → Pipeline × Outcome E B)
    → Keeps before r.0.run
    → ((a : A) (q : Pipeline) → Keeps q.run (f a q).0.run)
    → Keeps before (and_then r f).0.run
and_then-Keeps before (q, ok a) f kept rest = Keeps-trans before q.run (f a q).0.run kept (rest a q)
and_then-Keeps before (q, raised e) f kept rest = kept

abbrev pub AlwaysKeeps : {A : Type 0} → M A → Type 0
AlwaysKeeps m = (p : Pipeline) → Keeps p.run (m p).0.run

pub bind-Keeps :
    {A B : Type 0} (m : M A) (f : A → M B)
    → AlwaysKeeps m
    → ((a : A) → AlwaysKeeps (f a))
    → AlwaysKeeps (m >>= f)
bind-Keeps m f first rest p = and_then-Keeps p.run (m p) f (first p) rest

pub lift-Keeps : {A : Type 0} (o : Outcome PipelineError A) → AlwaysKeeps (lift o)
lift-Keeps o p = (refl, refl, refl)

pub then-Keeps :
    {A B : Type 0} (o : Outcome PipelineError A) (f : A → M B)
    → ((a : A) → AlwaysKeeps (f a))
    → AlwaysKeeps (lift o >>= f)
then-Keeps o f rest = bind-Keeps (lift o) f (lift-Keeps o) rest

pub get_stage-Keeps : (stage : DigestRunStageType) → AlwaysKeeps (get_stage stage)
unfolding get_stage
get_stage-Keeps stage p = (refl, refl, refl)

pub ask-Keeps : (stage : DigestRunStageType) (ids : List String) → AlwaysKeeps (ask stage ids)
unfolding ask
ask-Keeps stage ids p = (refl, refl, refl)

pub kinds-change_stage :
    (w : DigestRunStageType) (f : DigestRunStage → DigestRunStage) (ss : List DigestRunStage)
    → ((s : DigestRunStage) → (f s).stage ≡ s.stage)
    → map (λ (s : DigestRunStage). s.stage) (change_stage w f ss)
      ≡ map (λ (s : DigestRunStage). s.stage) ss
unfolding change_stage
kinds-change_stage w f [] same = refl
kinds-change_stage w f (s ∷ ss) same = ground (arith, same s, kinds-change_stage w f ss same)

pub write_stage-Keeps :
    (w : DigestRunStageType) (f : DigestRunStage → DigestRunStage)
    → ((s : DigestRunStage) → (f s).stage ≡ s.stage)
    → AlwaysKeeps (write_stage w f)
unfolding write_stage
write_stage-Keeps w f same p = (refl, refl, kinds-change_stage w f p.run.stages same)

pub complete_stage-kind :
    (result : StageResult) (id : Option String) (now : ℕ) (s : DigestRunStage)
    → (complete_stage result id now s).stage ≡ s.stage
unfolding complete_stage
complete_stage-kind result id now s = refl

pub mark_stage_running-kind :
    (now total : ℕ) (s : DigestRunStage) → (mark_stage_running now total s).stage ≡ s.stage
unfolding mark_stage_running
mark_stage_running-kind now total s = refl
