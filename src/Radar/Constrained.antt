-- ===== src/Radar/Constrained.antt =====
-- What a summary claims once radar/evidence.py has constrained it.
use mathlib.Core.Path.{subst, sym}
use scientific_research_rada.Prelude.{
  ap, ap₂, String, true, false, List, [], ◌∷◌, none, some, str_eq, if◌then◌else◌, All, ◌≡◌, ◌⊎◌,
  inl, inr, refl, arith, Bool-cases, ◌≢◌, Option,
}
use scientific_research_rada.Prelude.Outcome.{ok, or_raise, >>=-eq-ok, or_raise-eq-ok, ok-injective}
use scientific_research_rada.Prelude.Texts.{is_empty}
use scientific_research_rada.Radar.Contracts.{PaperSummary, SummaryBasis, SourceAttribution}
use scientific_research_rada.Radar.Sources.{SourceDocument, SourceStatus, DocumentBasis}
use scientific_research_rada.Radar.Validators.{ids_of_summaries}
use scientific_research_rada.Radar.Evidence.{
  Documents, document_of, is_usable, without_source, basis_of, attribution_of, truthy, with_source,
  text_or_empty, constrain_summary, constrain_summaries,
}

-- The basis that a summary states for each basis of its document.
pub data SameBasis : DocumentBasis → SummaryBasis → Type 0 where
  of_abstract : SameBasis DocumentBasis.abstract_only SummaryBasis.abstract_only
  of_sections : SameBasis DocumentBasis.extracted_sections SummaryBasis.extracted_sections
  of_metadata : SameBasis DocumentBasis.metadata_only SummaryBasis.metadata_only

-- An attribution names the document's title and authors, its source and its licence, both present
-- and not blank, and its rights notice, blank where the document has none.
pub record Credits (document : SourceDocument) (a : SourceAttribution) : Type 0 where
  pub title : a.title ≡ document.title
  pub authors : a.authors ≡ document.authors
  pub source : document.source_url ≡ some a.source_url
  pub has_source : str_eq a.source_url "" ≡ false
  pub license : document.license_url ≡ some a.license_url
  pub has_license : str_eq a.license_url "" ≡ false
  pub rights :
      (document.rights_notice ≡ some a.rights_notice)
      ⊎ ((document.rights_notice ≡ none) × (a.rights_notice ≡ ""))

-- What a summary may claim: with an available document that has passages, its basis and attribution
-- are the document's; otherwise it states metadata only, with no scientific content, no evidence and
-- no attribution.
abbrev pub Claims : SourceDocument → PaperSummary → Type 0
Claims document s =
    ((document.status ≡ SourceStatus.available)
      × (document.passages ≢ [])
      × SameBasis document.basis s.summary_basis
      × ((a : SourceAttribution) × (s.source_attribution ≡ some a) × Credits document a))
    ⊎ (((document.status ≢ SourceStatus.available) ⊎ (document.passages ≡ []))
        × (s.summary_basis ≡ SummaryBasis.metadata_only)
        × (s.key_findings ≡ [])
        × (s.methods ≡ [])
        × (s.implications ≡ [])
        × (s.recommendations ≡ [])
        × (s.summary_evidence_ids ≡ [])
        × (s.finding_evidence ≡ [])
        × (s.source_attribution ≡ none))

abbrev pub IsConstrained : Documents → PaperSummary → Type 0
IsConstrained documents s =
    (document : SourceDocument) × (document_of s.external_id documents ≡ some document)
    × Claims document s

basis_of-SameBasis : (b : DocumentBasis) → SameBasis b (basis_of b)
basis_of-SameBasis DocumentBasis.abstract_only = SameBasis.of_abstract
basis_of-SameBasis DocumentBasis.extracted_sections = SameBasis.of_sections
basis_of-SameBasis DocumentBasis.metadata_only = SameBasis.of_metadata

truthy_lem :
    (o : Option String) (t : String) → truthy o ≡ some t → (o ≡ some t) × (str_eq t "" ≡ false)
unfolding truthy
truthy_lem none t h = absurd (cc)
truthy_lem (some x) t h = ground arith

text_or_empty_lem :
    (o : Option String) → (o ≡ some (text_or_empty o)) ⊎ ((o ≡ none) × (text_or_empty o ≡ ""))
text_or_empty_lem none = inr (refl, refl)
text_or_empty_lem (some t) = inl refl

attribution_of-Credits :
    (document : SourceDocument) (source_url license_url : String)
    → truthy document.source_url ≡ some source_url
    → truthy document.license_url ≡ some license_url
    → Credits document (attribution_of document source_url license_url)
unfolding attribution_of
attribution_of-Credits document source_url license_url has_source has_license =
    let (source, given) = truthy_lem document.source_url source_url has_source in
    let (license, stated) = truthy_lem document.license_url license_url has_license in
    record {
      title = refl;
      authors = refl;
      source = source;
      has_source = given;
      license = license;
      has_license = stated;
      rights = text_or_empty_lem document.rights_notice;
    }

usable_lem :
    (document : SourceDocument)
    → is_usable document ≡ true
    → (document.status ≡ SourceStatus.available) × (document.passages ≢ [])
unfolding is_usable is_empty
usable_lem document h = (ground arith, λ e. ground arith)

not_usable_lem :
    (document : SourceDocument)
    → is_usable document ≡ false
    → (document.status ≢ SourceStatus.available) ⊎ (document.passages ≡ [])
unfolding is_usable is_empty
not_usable_lem document h = ground arith

with_source-Claims :
    (document : SourceDocument) (s : PaperSummary) {s' : PaperSummary}
    → is_usable document ≡ true
    → with_source document s ≡ ok s'
    → Claims document s' × (s'.external_id ≡ s.external_id)
unfolding with_source
with_source-Claims document s usable h =
    let (source_url, found, h1) = >>=-eq-ok (or_raise (truthy document.source_url) _) _ h in
    let (license_url, found', h2) = >>=-eq-ok (or_raise (truthy document.license_url) _) _ h1 in
    let (available, has_passages) = usable_lem document usable in
    let credits =
      attribution_of-Credits document source_url license_url
        (or_raise-eq-ok (truthy document.source_url) _ found)
        (or_raise-eq-ok (truthy document.license_url) _ found') in
    subst (λ x. Claims document x × (x.external_id ≡ s.external_id)) (ok-injective h2)
      (
        inl (
          available,
          has_passages,
          basis_of-SameBasis document.basis,
          (attribution_of document source_url license_url, refl, credits),
        ),
        refl,
      )

unusable_lem :
    (document : SourceDocument) (s : PaperSummary) {s' : PaperSummary}
    → is_usable document ≡ false
    → (if is_usable document then with_source document s else ok (without_source s)) ≡ ok s'
    → without_source s ≡ s'
unusable_lem document s h e = ground arith

constrain_summary_lem :
    (documents : Documents) (s : PaperSummary) {s' : PaperSummary}
    → constrain_summary documents s ≡ ok s'
    → IsConstrained documents s'
unfolding constrain_summary without_source
constrain_summary_lem documents s {s' = r} h =
    let (document, found, h1) = >>=-eq-ok (or_raise (document_of s.external_id documents) _) _ h in
    let known = or_raise-eq-ok (document_of s.external_id documents) _ found in
    elim (Bool-cases (is_usable document)) [
      | inl usable ↦
          let (claims, same) = with_source-Claims document s {s' = r} usable (ground arith) in
          (document, subst (λ k. document_of k documents ≡ some document) (sym same) known, claims)
      | inr unusable ↦ subst (IsConstrained documents) (unusable_lem document s unusable h1) (
        document,
        known,
        inr (not_usable_lem document unusable, refl, refl, refl, refl, refl, refl, refl, refl),
      )
    ]

-- Whatever the model answered, when the constraint returns, every summary has a document. Where that
-- is available and has passages, the summary states its basis and credits its title, authors, source
-- and licence; otherwise the summary states metadata only, with no finding, method, implication,
-- recommendation, evidence or attribution.
pub constrain_summaries_lem :
    (documents : Documents) (ss : List PaperSummary) {ss' : List PaperSummary}
    → constrain_summaries documents ss ≡ ok ss'
    → All (IsConstrained documents) ss'
unfolding constrain_summaries
constrain_summaries_lem documents [] h = subst (All (IsConstrained documents)) (ok-injective h) tt
constrain_summaries_lem documents (s ∷ rest) h =
    let (s', first, h1) = >>=-eq-ok (constrain_summary documents s) _ h in
    let (rest', others, h2) = >>=-eq-ok (constrain_summaries documents rest) _ h1 in
    subst (All (IsConstrained documents)) (ok-injective h2)
      (constrain_summary_lem documents s first, constrain_summaries_lem documents rest others)

-- The constraint keeps the ids, in order.
constrain_summary-id :
    (documents : Documents) (s : PaperSummary) {s' : PaperSummary}
    → constrain_summary documents s ≡ ok s'
    → s'.external_id ≡ s.external_id
unfolding constrain_summary without_source
constrain_summary-id documents s {s' = r} h =
    let (document, found, h1) = >>=-eq-ok (or_raise (document_of s.external_id documents) _) _ h in
    elim (Bool-cases (is_usable document)) [
      | inl usable ↦ (with_source-Claims document s {s' = r} usable (ground arith)).1
      | inr unusable ↦ ap (λ x. x.external_id) (sym (unusable_lem document s unusable h1))
    ]

pub constrain_summaries-ids :
    (documents : Documents) (ss : List PaperSummary) {ss' : List PaperSummary}
    → constrain_summaries documents ss ≡ ok ss'
    → ids_of_summaries ss' ≡ ids_of_summaries ss
unfolding constrain_summaries
constrain_summaries-ids documents [] h = subst (λ x. ids_of_summaries x ≡ []) (ok-injective h) refl
constrain_summaries-ids documents (s ∷ rest) h =
    let (s', first, h1) = >>=-eq-ok (constrain_summary documents s) _ h in
    let (rest', others, h2) = >>=-eq-ok (constrain_summaries documents rest) _ h1 in
    subst (λ x. ids_of_summaries x ≡ ids_of_summaries (s ∷ rest)) (ok-injective h2)
      (ap₂ (λ x xs. x ∷ xs) (constrain_summary-id documents s first)
        (constrain_summaries-ids documents rest others))
