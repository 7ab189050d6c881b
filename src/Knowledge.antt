-- ===== src/Knowledge.antt =====
-- Knowledge retrieval: the typed contract (src/hisiem_soc_copilot/application/ports/knowledge.py,
-- domain/knowledge/enums.py) that the query, the ranking, the citations and the service share.
-- A text is its list of code points, a UUID and a point in time are numbers.
pub mod Texts
pub mod Uuids
pub mod Citation
pub mod Ranking
pub mod Diversification
pub mod Query
pub mod Corpus
pub mod Resolution
pub mod Retrieval
mod Examples
use Texts.{Text}
use hisiem_soc_copilot.Prelude.{ℕ, String, Option, Bool, List}

pub data SourceKind : Type 0 where
  mitre_attack : SourceKind
  curated_guidance : SourceKind
  tenant_runbook : SourceKind

pub data Visibility : Type 0 where
  global : Visibility
  tenant : Visibility

pub record KnowledgeQuery : Type 0 where
  pub topic : Text
  pub context_terms : List Text
  pub limit : ℕ

-- A chunk joined with the facts of its document and its version.
pub record KnowledgeChunkView : Type 0 where
  pub chunk_id : ℕ
  pub document_id : ℕ
  pub document_version_id : ℕ
  pub ordinal : ℕ
  pub heading_path : Text
  pub content : Text
  pub content_hash : Text
  pub title : Text
  pub source_kind : SourceKind
  pub language : Text
  pub source_version : Option Text
  pub document_status : Text
  pub visibility : Visibility
  pub tenant_id : Option Text
  pub external_key : Text
  pub document_version_number : ℕ
  pub chunk_generation : ℕ

pub record KnowledgeHit : Type 0 where
  pub citation_id : Text
  pub document_id : ℕ
  pub document_version_id : ℕ
  pub chunk_id : ℕ
  pub source_kind : SourceKind
  pub title : Text
  pub excerpt : Text
  pub language : Text
  pub source_version : Option Text
  pub retrieved_at : ℕ

pub record RetrievalProfile : Type 0 where
  pub profile_id : String
  pub lexical_candidate_limit : ℕ
  pub vector_candidate_limit : ℕ
  pub rrf_k : ℕ
  pub max_chunks_per_document : ℕ
  pub chunker_version : Text
  pub embedding_profile_id : Option ℕ
  pub embedding_model_id : Text

pub record KnowledgeSearchResult : Type 0 where
  pub hits : List KnowledgeHit
  pub truncated : Bool
  pub retrieval_profile : RetrievalProfile

abbrev pub max_result_limit : ℕ
max_result_limit = 5

-- The errors that a retrieval raises, each an InvalidKnowledgeQueryError or a
-- KnowledgeRetrievalUnavailableError by its message, an InvalidContentHashError
-- or an InvalidCitationError.
pub data RetrievalError : Type 0 where
  tenant_required : RetrievalError
  limit_out_of_range : RetrievalError
  topic_empty : RetrievalError
  topic_too_long : RetrievalError
  context_term_too_long : RetrievalError
  too_many_context_terms : RetrievalError
  too_many_search_terms : RetrievalError
  no_active_profile : RetrievalError
  no_provider : RetrievalError
  provider_mismatch : RetrievalError
  embedding_mismatch : RetrievalError
  dimension_mismatch : RetrievalError
  invalid_content_hash : RetrievalError
  invalid_citation : RetrievalError
  rrf_k_out_of_range : RetrievalError
  limit_not_positive : RetrievalError
  invalid_scope : RetrievalError
  provider_failed : RetrievalError
