-- ===== src/Radar/Validators/Parse.antt =====
-- What the validators of the stage outputs accept (contracts.py).
use scientific_research_rada.Prelude.{
  String, true, List, [], ◌∷◌, map, ◌≡◌, refl, arith, if◌then◌else◌, not,
}
use scientific_research_rada.Prelude.Texts.{is_unique, is_unique_iff, same_set, same_set_refl}
use scientific_research_rada.Prelude.Outcome.{ok, raised}
use scientific_research_rada.Radar.Contracts.{
  AssessedPaper, DiscoveryRelevanceOutput, DiscoveryResponse,
}
use scientific_research_rada.Radar.Validators.{
  has_repeats, paper_ids, assessment_ids, validate_assessments, assess_item, merged, to_output,
  repeated_papers,
}

-- The comparison of the lengths is the scan for a repetition.
pub has_repeats-eq : (ids : List String) → has_repeats ids ≡ not (is_unique ids)
unfolding has_repeats
has_repeats-eq ids = ground (arith, is_unique_iff ids)

-- The wire response lists every paper with its assessment.
merged_ids :
    (items : List AssessedPaper)
    → assessment_ids (map assess_item items) ≡ paper_ids (map (λ i. i.paper) items)
merged_ids [] = refl
merged_ids (i ∷ items) = rw (merged_ids items)

-- Converting a wire response succeeds exactly when the identifiers of its papers are distinct, and
-- then gives the merged object; no response fails for an assessment that is repeated or missing.
pub to_output_lem :
    (r : DiscoveryResponse)
    → to_output r ≡ (
        if is_unique (paper_ids (merged r).search.papers)
        then ok (merged r)
        else raised repeated_papers)
unfolding to_output validate_assessments
to_output_lem r = rw (merged_ids r.papers) (
    ground (
      arith,
      has_repeats-eq (paper_ids (merged r).search.papers),
      same_set_refl (paper_ids (merged r).search.papers),
    ))

-- An accepted output has distinct papers, distinct assessments, and one for the other.
pub validate_assessments_sound :
    (o : DiscoveryRelevanceOutput) {o' : DiscoveryRelevanceOutput}
    → validate_assessments o ≡ ok o'
    → (o' ≡ o)
      × (is_unique (paper_ids o.search.papers) ≡ true)
      × (is_unique (assessment_ids o.relevance.assessments) ≡ true)
      × (same_set (assessment_ids o.relevance.assessments) (paper_ids o.search.papers) ≡ true)
unfolding validate_assessments
validate_assessments_sound o h = ground (
  arith,
  has_repeats-eq (paper_ids o.search.papers),
  has_repeats-eq (assessment_ids o.relevance.assessments),
)
