-- ===== src/Knowledge/Retrieval.antt =====
-- The retrieval service
-- (src/hisiem_soc_copilot/application/services/knowledge_retrieval.py
-- `KnowledgeRetrievalService`). The embedding provider is an argument;
-- what it raises is `provider_failed`.
pub mod Kept
pub mod Served
pub mod Scope
pub mod HitCitations
pub mod Spaces
use hisiem_soc_copilot.Knowledge.{
  SourceKind, Visibility, global, tenant, KnowledgeQuery, KnowledgeChunkView, KnowledgeHit,
  KnowledgeSearchResult, RetrievalProfile, RetrievalError, tenant_required, no_active_profile,
  no_provider, provider_mismatch, embedding_mismatch, dimension_mismatch, limit_not_positive,
  invalid_scope,
}
use hisiem_soc_copilot.Knowledge.Texts.{Text, text_eq, starts_with}
use hisiem_soc_copilot.Knowledge.Citation.{Citation, format_citation_id, parse_citation_id}
use hisiem_soc_copilot.Knowledge.Query.{normalize_query, build_search_text, build_search_terms}
use hisiem_soc_copilot.Knowledge.Ranking.{Scores, reciprocal_rank_fusion}
use hisiem_soc_copilot.Knowledge.Diversification.{
  DiversificationOutcome, diversify, build_excerpt, max_excerpt_chars,
}
use hisiem_soc_copilot.Knowledge.Corpus.{
  EmbeddingIdentity, same_identity, EmbeddingProfileRecord, Database, lexical_candidates,
  vector_candidates, get_chunk_view,
}
use hisiem_soc_copilot.Prelude.{
  ℕ, String, Bool, true, false, not, ◌&&◌, ◌||◌, Option, none, some, List, [], ◌∷◌, ◌==◌, leb,
  if◌then◌else◌, length, all, is_space, is_some, or_else, map, Result, ok, err, ◌>>=◌, ◌>>◌,
  require,
}

pub data RetrievalMode : Type 0 where
  lexical_only : RetrievalMode
  vector_only : RetrievalMode
  hybrid : RetrievalMode

abbrev mode_profile_id : RetrievalMode → String
mode_profile_id lexical_only = "lexical-v1"
mode_profile_id vector_only = "vector-v1"
mode_profile_id hybrid = "hybrid-v1"

pub record HybridRetrievalConfig : Type 0 where
  pub lexical_candidate_limit : ℕ
  pub vector_candidate_limit : ℕ
  pub rrf_k : ℕ
  pub max_chunks_per_document : ℕ
  pub chunker_version : Text

unfoldable check_config : HybridRetrievalConfig → Result RetrievalError HybridRetrievalConfig
check_config c =
    require (leb 1 c.lexical_candidate_limit && leb 1 c.vector_candidate_limit) limit_not_positive
    >> (require (leb 1 c.rrf_k) limit_not_positive
        >> (require (leb 1 c.max_chunks_per_document) limit_not_positive
            >> (require (not (all is_space c.chunker_version)) limit_not_positive >> ok c)))

pub record EmbeddingVector (S : Type 0) : Type 0 where
  pub values : List S
  pub identity : EmbeddingIdentity

pub record EmbeddingProvider (S : Type 0) : Type 0 where
  pub identity : EmbeddingIdentity
  pub embed_query : Text → Result RetrievalError (EmbeddingVector S)

unfoldable pub hit_of : ℕ → KnowledgeChunkView → Text → KnowledgeHit
unfolding build_excerpt
hit_of retrieved_at v citation_id = record {
  citation_id = citation_id;
  document_id = v.document_id;
  document_version_id = v.document_version_id;
  chunk_id = v.chunk_id;
  source_kind = v.source_kind;
  title = v.title;
  excerpt = build_excerpt v.content max_excerpt_chars;
  language = v.language;
  source_version = v.source_version;
  retrieved_at = retrieved_at;
}

unfoldable pub to_hit : ℕ → KnowledgeChunkView → Result RetrievalError KnowledgeHit
unfolding format_citation_id hit_of
to_hit retrieved_at v = format_citation_id v.chunk_id v.content_hash >>= λ citation_id.
    ok (hit_of retrieved_at v citation_id)

unfoldable pub to_hits : ℕ → List KnowledgeChunkView → Result RetrievalError (List KnowledgeHit)
unfolding to_hit
to_hits now [] = ok []
to_hits now (v ∷ vs) = to_hit now v >>= λ hit. to_hits now vs >>= λ hits. ok (hit ∷ hits)

module _ {S : Type 0} (o : Scores S) (config : HybridRetrievalConfig) where
  unfoldable pub describe_profile : RetrievalMode → Option ℕ → Text → RetrievalProfile
  describe_profile mode profile_id model_id = record {
    profile_id = mode_profile_id mode;
    lexical_candidate_limit = config.lexical_candidate_limit;
    vector_candidate_limit = config.vector_candidate_limit;
    rrf_k = config.rrf_k;
    max_chunks_per_document = config.max_chunks_per_document;
    chunker_version = config.chunker_version;
    embedding_profile_id = profile_id;
    embedding_model_id = model_id;
  }

  unfoldable pub finalize :
      ℕ
      → KnowledgeQuery
      → RetrievalProfile
      → List KnowledgeChunkView
      → Result RetrievalError KnowledgeSearchResult
  unfolding diversify to_hits
  finalize now query profile ranked =
      let outcome = diversify ranked query.limit config.max_chunks_per_document in
      to_hits now outcome.views >>= λ hits.
      ok (record { hits = hits; truncated = outcome.truncated; retrieval_profile = profile })

  unfoldable pub fuse_and_finalize :
      ℕ
      → KnowledgeQuery
      → RetrievalProfile
      → List (List KnowledgeChunkView)
      → Result RetrievalError KnowledgeSearchResult
  unfolding reciprocal_rank_fusion finalize
  fuse_and_finalize now query profile lists =
      reciprocal_rank_fusion o config.rrf_k lists >>= λ ranked. finalize now query profile ranked

  -- The query is embedded, and compared in the embedding space of the profile only.
  unfoldable pub search_embedded :
      Database S
      → EmbeddingProvider S
      → Text
      → KnowledgeQuery
      → EmbeddingProfileRecord
      → Result RetrievalError (List KnowledgeChunkView)
  unfolding build_search_text vector_candidates same_identity
  search_embedded db p tenant_id query profile = p.embed_query (build_search_text query) >>= λ v.
      require (same_identity v.identity profile.identity) embedding_mismatch
      >> (require (length v.values == profile.identity.dimension) dimension_mismatch
          >> ok (vector_candidates db tenant_id profile.id v.values config.vector_candidate_limit))

  module _ (db : Database S) (provider : Option (EmbeddingProvider S)) (now : ℕ) where
    -- The one active profile, where the provider embeds in it.
    unfoldable pub require_active_profile : Result RetrievalError EmbeddingProfileRecord
    unfolding same_identity
    require_active_profile = elim db.active_profile [
      | none ↦ err no_active_profile
      | some profile ↦ elim provider [
        | none ↦ err no_provider
        | some p ↦
            require (same_identity p.identity profile.identity) provider_mismatch >> ok profile
      ]
    ]

    unfoldable pub lexical_channel :
        Text → KnowledgeQuery → Result RetrievalError (List KnowledgeChunkView)
    unfolding build_search_terms lexical_candidates
    lexical_channel tenant_id query = build_search_terms query >>= λ terms.
        ok (lexical_candidates db tenant_id terms config.lexical_candidate_limit)

    unfoldable pub vector_channel :
        Text
        → KnowledgeQuery
        → EmbeddingProfileRecord
        → Result RetrievalError (List KnowledgeChunkView)
    unfolding search_embedded
    vector_channel tenant_id query profile = elim provider [
      | none ↦ err no_provider
      | some p ↦ search_embedded db p tenant_id query profile
    ]

    unfoldable pub retrieve_lexical_only :
        Text → KnowledgeQuery → Result RetrievalError KnowledgeSearchResult
    unfolding lexical_channel fuse_and_finalize describe_profile
    retrieve_lexical_only tenant_id query = lexical_channel tenant_id query >>= λ lexical.
        fuse_and_finalize now query (describe_profile lexical_only none []) (lexical ∷ [])

    unfoldable pub retrieve_vector_only :
        Text → KnowledgeQuery → Result RetrievalError KnowledgeSearchResult
    unfolding require_active_profile vector_channel fuse_and_finalize describe_profile
    retrieve_vector_only tenant_id query = require_active_profile >>= λ profile.
        vector_channel tenant_id query profile >>= λ vector.
        fuse_and_finalize now query
          (describe_profile vector_only (some profile.id) profile.identity.model_id) (vector ∷ [])

    unfoldable pub retrieve_hybrid :
        Text → KnowledgeQuery → Result RetrievalError KnowledgeSearchResult
    unfolding require_active_profile lexical_channel vector_channel fuse_and_finalize
        describe_profile
    retrieve_hybrid tenant_id query = require_active_profile >>= λ profile.
        lexical_channel tenant_id query >>= λ lexical.
        vector_channel tenant_id query profile >>= λ vector.
        fuse_and_finalize now query
          (describe_profile hybrid (some profile.id) profile.identity.model_id)
          (lexical ∷ vector ∷ [])

    unfoldable pub retrieve_mode :
        RetrievalMode → Text → KnowledgeQuery → Result RetrievalError KnowledgeSearchResult
    unfolding retrieve_lexical_only retrieve_vector_only retrieve_hybrid
    retrieve_mode lexical_only = retrieve_lexical_only
    retrieve_mode vector_only = retrieve_vector_only
    retrieve_mode hybrid = retrieve_hybrid

    unfoldable pub retrieve :
        (Text → Text)
        → RetrievalMode
        → Text
        → KnowledgeQuery
        → Result RetrievalError KnowledgeSearchResult
    unfolding normalize_query retrieve_mode
    retrieve nfc mode tenant_id query =
        require (not (all is_space tenant_id)) tenant_required
        >> (normalize_query nfc query >>= λ q. retrieve_mode mode tenant_id q)
