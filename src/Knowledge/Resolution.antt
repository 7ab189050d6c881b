-- ===== src/Knowledge/Resolution.antt =====
-- The citation resolver
-- (src/hisiem_soc_copilot/application/services/knowledge_retrieval.py
-- `KnowledgeCitationResolver`, domain/knowledge/entities.py `require_valid_scope`).
pub mod Citations
use hisiem_soc_copilot.Knowledge.{
  SourceKind, Visibility, global, tenant, KnowledgeQuery, KnowledgeChunkView, KnowledgeHit,
  KnowledgeSearchResult, RetrievalProfile, RetrievalError, tenant_required, no_active_profile,
  no_provider, provider_mismatch, embedding_mismatch, dimension_mismatch, limit_not_positive,
  invalid_scope,
}
use hisiem_soc_copilot.Knowledge.Texts.{Text, text_eq, starts_with}
use hisiem_soc_copilot.Knowledge.Citation.{Citation, format_citation_id, parse_citation_id}
use hisiem_soc_copilot.Knowledge.Query.{normalize_query, build_search_text, build_search_terms}
use hisiem_soc_copilot.Knowledge.Ranking.{Scores, reciprocal_rank_fusion}
use hisiem_soc_copilot.Knowledge.Diversification.{
  DiversificationOutcome, diversify, build_excerpt, max_excerpt_chars,
}
use hisiem_soc_copilot.Knowledge.Corpus.{
  EmbeddingIdentity, same_identity, EmbeddingProfileRecord, Database, lexical_candidates,
  vector_candidates, get_chunk_view,
}
use hisiem_soc_copilot.Prelude.{
  ℕ, String, Bool, true, false, not, ◌&&◌, ◌||◌, Option, none, some, List, [], ◌∷◌, ◌==◌, leb,
  if◌then◌else◌, length, all, is_space, is_some, or_else, map, Result, ok, err, ◌>>=◌, ◌>>◌,
  require,
}

pub data Reason : Type 0 where
  malformed_citation : Reason
  chunk_not_found : Reason
  scope_mismatch : Reason
  content_integrity_mismatch : Reason

pub record ResolvedChunk : Type 0 where
  pub document_id : ℕ
  pub document_version_id : ℕ
  pub chunk_id : ℕ
  pub source_kind : SourceKind
  pub title : Text
  pub language : Text
  pub source_version : Option Text
  pub excerpt : Text
  pub document_status : Text

pub data CitationResolution : Type 0 where
  unresolved : Text → Reason → CitationResolution
  resolved : Text → ResolvedChunk → CitationResolution

unfoldable pub require_valid_scope : Visibility → Option Text → Result RetrievalError Unit
require_valid_scope global tenant_id = require (not (is_some tenant_id)) invalid_scope
require_valid_scope tenant tenant_id =
    require (not (all is_space (or_else tenant_id []))) invalid_scope

unfoldable pub resolved_chunk : KnowledgeChunkView → ResolvedChunk
unfolding build_excerpt
resolved_chunk v = record {
  document_id = v.document_id;
  document_version_id = v.document_version_id;
  chunk_id = v.chunk_id;
  source_kind = v.source_kind;
  title = v.title;
  language = v.language;
  source_version = v.source_version;
  excerpt = build_excerpt v.content max_excerpt_chars;
  document_status = v.document_status;
}

-- `view.visibility is Visibility.TENANT and view.tenant_id != tenant_id`
unfoldable pub is_foreign : Text → KnowledgeChunkView → Bool
unfolding text_eq
is_foreign tenant_id v = elim v.visibility [
  | global ↦ false
  | tenant ↦ elim v.tenant_id [ none ↦ true | some t ↦ not (text_eq t tenant_id) ]
]

-- The checks on a view that was found.
unfoldable pub check_view :
    (Text → Text) → Text → Text → Text → KnowledgeChunkView → CitationResolution
unfolding text_eq starts_with resolved_chunk is_foreign
check_view sha tenant_id citation_id prefix v =
    if is_foreign tenant_id v
    then unresolved citation_id scope_mismatch
    else if not (text_eq (sha v.content) v.content_hash) || not (starts_with v.content_hash prefix)
    then unresolved citation_id content_integrity_mismatch
    else resolved citation_id (resolved_chunk v)

unfoldable pub resolve_view :
    (Text → Text)
    → Text
    → Text
    → Text
    → Option KnowledgeChunkView
    → Result RetrievalError CitationResolution
unfolding require_valid_scope check_view
resolve_view sha tenant_id citation_id prefix none = ok (unresolved citation_id chunk_not_found)
resolve_view sha tenant_id citation_id prefix (some v) =
    require_valid_scope v.visibility v.tenant_id
    >> ok (check_view sha tenant_id citation_id prefix v)

module _ {S : Type 0} (sha : Text → Text) (db : Database S) where
  unfoldable pub resolve_parsed :
      Text → Text → Option Citation → Result RetrievalError CitationResolution
  unfolding resolve_view get_chunk_view
  resolve_parsed tenant_id citation_id none = ok (unresolved citation_id malformed_citation)
  resolve_parsed tenant_id citation_id (some c) =
      resolve_view sha tenant_id citation_id c.content_hash_prefix
        (get_chunk_view db tenant_id c.chunk_id)

  unfoldable pub resolve : Text → Text → Result RetrievalError CitationResolution
  unfolding parse_citation_id resolve_parsed
  resolve tenant_id citation_id =
      require (not (all is_space tenant_id)) tenant_required
      >> resolve_parsed tenant_id citation_id (parse_citation_id citation_id)
