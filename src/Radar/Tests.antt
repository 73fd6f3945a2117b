-- ===== src/Radar/Tests.antt =====
-- The theorems on the research pipeline at small outputs.
use scientific_research_rada.Prelude.{
  ℕ, String, ◌≡◌, refl, All, arith, true, List, ◌∷◌, [], some, none,
}
use scientific_research_rada.Prelude.Outcome.{ok}
use scientific_research_rada.Radar.Contracts.{DiscoveryRelevanceOutput}
use scientific_research_rada.Radar.Validators.{validate_assessments, has_repeats, to_output, merged}
use scientific_research_rada.Radar.Validators.Parse.{to_output_lem}
use scientific_research_rada.Prelude.Texts.{is_unique, same_set}
use scientific_research_rada.Radar.Period.{is_in_period, exclude_out_of_period_papers}
use scientific_research_rada.Radar.StageInputs.{SelectedPaper, summary_input}
use scientific_research_rada.Radar.Selection.{selected_in_period}
use scientific_research_rada.Radar.Samples.{paper, assessment, discovery, response}

abbrev day : ℕ → String
day d = "day"

discovery_accepted : validate_assessments discovery ≡ ok discovery
unfolding validate_assessments has_repeats same_set
discovery_accepted = refl

selected_in_period_example :
    (o' : DiscoveryRelevanceOutput) × (chosen : List SelectedPaper) × (exclude_out_of_period_papers
        day 100 130 discovery
      ≡ ok o')
    × (summary_input o' ≡ ok chosen)
    × All (λ s. is_in_period 100 130 s.paper.published_date ≡ true) chosen
selected_in_period_example =
    selected_in_period day 100 130 discovery discovery_accepted (omega arith)

to_output_lem_example : to_output response ≡ ok (merged response)
unfolding is_unique
to_output_lem_example = to_output_lem response

abbrev selected : List SelectedPaper
selected =
    record { paper = paper "p1" (some 110); relevance = assessment "p1" }
    ∷ record { paper = paper "p2" (some 90); relevance = assessment "p2" }
    ∷ record { paper = paper "p3" none; relevance = assessment "p3" }
    ∷ []
