-- ===== src/Radar/Sources.antt =====
-- schemas/source_content.py: the excerpts of the sources that a run may use. A time is a number of
-- microseconds.
use scientific_research_rada.Prelude.{ℕ, String, Bool, Option, List}

pub record SourcePassage : Type 0 where
  pub id : String
  pub section : String
  pub text : String

pub data SourceStatus : Type 0 where
  available unavailable rights_unconfirmed : SourceStatus

pub data DocumentBasis : Type 0 where
  abstract_only extracted_sections metadata_only : DocumentBasis

pub record SourceDocument : Type 0 where
  pub external_id : String
  pub title : String
  pub authors : List String
  pub status : SourceStatus
  pub basis : DocumentBasis
  pub source_url : Option String
  pub request_url : Option String
  pub retrieved_at : ℕ
  pub source_version : Option String
  pub content_sha256 : Option String
  pub license_url : Option String
  pub permission_source : Option String
  pub rights_notice : Option String
  pub policy_version : String
  pub cached : Bool
  pub passages : List SourcePassage
  pub notes : List String

pub record EvidenceStatement : Type 0 where
  pub text : String
  pub passage_ids : List String
  pub references_valid : Bool

pub record PaperContentRead : Type 0 where
  pub document : SourceDocument
  pub statements : List EvidenceStatement
  pub warnings : List String
