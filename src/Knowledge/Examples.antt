-- ===== src/Knowledge/Examples.antt =====
-- A corpus of three chunks, searched, and the theorems at it.
use mathlib.Core.Path.{subst}
use hisiem_soc_copilot.Knowledge.{
  KnowledgeQuery, KnowledgeChunkView, KnowledgeSearchResult, tenant_runbook, curated_guidance,
  global, tenant,
}
use hisiem_soc_copilot.Knowledge.Texts.{Text, contains}
use hisiem_soc_copilot.Knowledge.Uuids.{hex_before}
use hisiem_soc_copilot.Knowledge.Ranking.{Scores, reciprocal_rank_fusion}
use hisiem_soc_copilot.Knowledge.Ranking.Fusion.{
  IsLawful, has_chunk, has_chunk_in, distinct_chunks, reciprocal_rank_fusion_lem,
}
use hisiem_soc_copilot.Knowledge.Ranking.SingleList.{reciprocal_rank_fusion_single}
use hisiem_soc_copilot.Knowledge.Diversification.{diversify}
use hisiem_soc_copilot.Knowledge.Diversification.Reference.{within_cap, over_cap, diversify_lem}
use hisiem_soc_copilot.Knowledge.Corpus.{ChunkRow, Database, EmbeddingIdentity}
use hisiem_soc_copilot.Knowledge.Citation.{Citation, parse_citation_id, render, render-parse}
use hisiem_soc_copilot.Knowledge.Query.{normalize_query, build_search_terms}
use hisiem_soc_copilot.Knowledge.Query.Normalized.{distinct_texts}
use hisiem_soc_copilot.Knowledge.Query.Again.{
  IsNormalized, normalize_query-IsNormalized, normalize_query_again,
}
use hisiem_soc_copilot.Knowledge.Query.SearchTerms.{is_word_of, build_search_terms_lem}
use hisiem_soc_copilot.Knowledge.Retrieval.{
  HybridRetrievalConfig, EmbeddingProvider, hybrid, lexical_only, retrieve,
}
use hisiem_soc_copilot.Knowledge.Resolution.{resolve, resolved, ResolvedChunk, require_valid_scope}
use hisiem_soc_copilot.Knowledge.Retrieval.Served.{IsOrderly}
use hisiem_soc_copilot.Knowledge.Retrieval.Scope.{IsHitFrom, retrieve-AreHits}
use hisiem_soc_copilot.Knowledge.Resolution.Citations.{
  unique_ids, IsResolvedBy, resolve-IsResolvedBy,
}
use hisiem_soc_copilot.Knowledge.Retrieval.HitCitations.{IsSound, Resolves, retrieve-resolve}
use hisiem_soc_copilot.Knowledge.Retrieval.Spaces.{IsComparable, retrieve-IsComparable}
use hisiem_soc_copilot.Prelude.{
  ℕ, ◌+◌, ◌*◌, ◌≤◌, ◌≡◌, ◌≢◌, refl, sym, inl, inr, true, false, none, some, List, [], ◌∷◌, ◌++◌,
  is_space, ltb, arith, length, take, codes, All, In, ok, err,
}

-- Scores as exact fractions.
pub record Fraction : Type 0 where
  pub num : ℕ
  pub den : ℕ

abbrev fractions : Scores Fraction
fractions = record {
  nothing = record { num = 0; den = 1 };
  plus = λ a b. record { num = a.num * b.den + b.num * a.den; den = a.den * b.den };
  reciprocal = λ n. record { num = 1; den = n };
  above = λ a b. ltb (b.num * a.den) (a.num * b.den);
}

fractions-IsLawful : IsLawful fractions
fractions-IsLawful = record {
  plus_nothing = λ s. ground arith;
  above_reciprocal = λ n m h b. ground arith;
  not_above_reciprocal = λ n m h b. ground arith;
}

-- A stand-in for SHA-256: 64 hexadecimal digits that depend on the text.
unfoldable digest : Text → Text
unfolding hex_before
digest t = hex_before 64 (length t) []

abbrev chunk : ℕ → ℕ → ℕ → Text → Text → KnowledgeChunkView
chunk id document ordinal content hash = record {
  chunk_id = id;
  document_id = document;
  document_version_id = document;
  ordinal = ordinal;
  heading_path = [];
  content = content;
  content_hash = hash;
  title = codes "guide";
  source_kind = curated_guidance;
  language = codes "en";
  source_version = none;
  document_status = codes "ACTIVE";
  visibility = global;
  tenant_id = none;
  external_key = codes "g";
  document_version_number = 1;
  chunk_generation = 1;
}

unfoldable first : KnowledgeChunkView
unfolding digest
first = chunk 11 1 0 (codes "reset the account") (digest (codes "reset the account"))

unfoldable second : KnowledgeChunkView
unfolding digest
second = chunk 12 1 1 (codes "watch sshd") (digest (codes "watch sshd"))

unfoldable third : KnowledgeChunkView
unfolding digest
third = record (chunk 13 2 0 (codes "call the owner") (digest (codes "call the owner"))) {
  visibility = tenant;
  tenant_id = some (codes "acme");
}

abbrev row : KnowledgeChunkView → ChunkRow
row v = record { view = v; active_version_id = some v.document_version_id; embedded_in = 7 ∷ [] }

abbrev space : EmbeddingIdentity
space = record {
  provider = codes "p";
  model_id = codes "m";
  dimension = 1;
  distance_metric = codes "COSINE";
  normalization = codes "NONE";
  profile_version = 1;
}

unfoldable corpus : Database Fraction
unfolding first second third
corpus = record {
  rows = row first ∷ row second ∷ row third ∷ [];
  active_profile = some (record { id = 7; identity = space });
  matches = λ terms v. true;
  by_rank = λ terms vs. vs;
  by_distance = λ vector vs. vs;
}

abbrev embedder : EmbeddingProvider Fraction
embedder = record {
  identity = space;
  embed_query = λ t. ok (record { values = record { num = 1; den = 2 } ∷ []; identity = space });
}

abbrev knobs : HybridRetrievalConfig
knobs = record {
  lexical_candidate_limit = 20;
  vector_candidate_limit = 20;
  rrf_k = 60;
  max_chunks_per_document = 1;
  chunker_version = codes "structure-aware-v1";
}

abbrev acme : Text
acme = codes "acme"

abbrev nfc : Text → Text
nfc t = t

abbrev question : KnowledgeQuery
question = record {
  topic = codes "  brute   force";
  context_terms = codes "sshd" ∷ codes "T1110" ∷ codes "sshd " ∷ [];
  limit = 2;
}

abbrev no_result : KnowledgeSearchResult
no_result = record {
  hits = [];
  truncated = false;
  retrieval_profile = record {
    profile_id = "";
    lexical_candidate_limit = 0;
    vector_candidate_limit = 0;
    rrf_k = 0;
    max_chunks_per_document = 0;
    chunker_version = [];
    embedding_profile_id = none;
    embedding_model_id = [];
  };
}

-- What the hybrid search of the corpus returns.
unfoldable found : KnowledgeSearchResult
unfolding retrieve corpus
found = elim (retrieve fractions knobs corpus (some embedder) 99 nfc hybrid acme question) [
  | ok r ↦ r
  | err e ↦ no_result
]

search_ok : retrieve fractions knobs corpus (some embedder) 99 nfc hybrid acme question ≡ ok found
unfolding retrieve corpus found
search_ok = refl

-- The cap leaves one chunk of the first document, and the tenant's own chunk fills the page.
two_hits : length found.hits ≡ 2
unfolding found retrieve corpus
two_hits = refl

corpus-IsOrderly : IsOrderly corpus
unfolding corpus
corpus-IsOrderly = record { rank_order = λ terms vs v m. m; distance_order = λ vector vs v m. m }

corpus_unique : unique_ids corpus.rows ≡ true
unfolding corpus first second third unique_ids
corpus_unique = refl

first-IsSound : IsSound digest (row first)
unfolding first require_valid_scope
first-IsSound = record { hashed = refl; id_bound = omega arith; scoped = refl }

second-IsSound : IsSound digest (row second)
unfolding second require_valid_scope
second-IsSound = record { hashed = refl; id_bound = omega arith; scoped = refl }

third-IsSound : IsSound digest (row third)
unfolding third require_valid_scope is_space
third-IsSound = record { hashed = refl; id_bound = omega arith; scoped = refl }

corpus-IsSound : (r : ChunkRow) → In r corpus.rows → IsSound digest r
unfolding corpus
corpus-IsSound r (inl e) = subst (IsSound digest) (sym e) first-IsSound
corpus-IsSound r (inr (inl e)) = subst (IsSound digest) (sym e) second-IsSound
corpus-IsSound r (inr (inr (inl e))) = subst (IsSound digest) (sym e) third-IsSound
corpus-IsSound r (inr (inr (inr m))) = absurd m

retrieve-resolve_example : All (Resolves digest corpus acme) found.hits
retrieve-resolve_example =
    retrieve-resolve fractions knobs corpus (some embedder) 99 digest nfc hybrid acme question found
      corpus-IsOrderly corpus_unique corpus-IsSound search_ok

retrieve-AreHits_example :
    (All (IsHitFrom corpus.rows acme 99) found.hits × (length found.hits ≤ 2))
    × (length found.hits ≤ 5)
retrieve-AreHits_example =
    retrieve-AreHits fractions knobs corpus (some embedder) 99 corpus-IsOrderly nfc hybrid acme
      question found search_ok

not_lexical : hybrid ≢ lexical_only
not_lexical e = ground (arith, e)

retrieve-IsComparable_example :
    (q : KnowledgeQuery) × (normalize_query nfc question ≡ ok q)
    × IsComparable fractions knobs corpus (some embedder) 99 q
retrieve-IsComparable_example =
    retrieve-IsComparable fractions knobs corpus (some embedder) 99 nfc hybrid acme question found
      not_lexical search_ok

abbrev handle : Citation
handle = record { chunk_id = 13; content_hash_prefix = codes "000000000000" }

abbrev no_chunk : ResolvedChunk
no_chunk = record {
  document_id = 0;
  document_version_id = 0;
  chunk_id = 0;
  source_kind = tenant_runbook;
  title = [];
  language = [];
  source_version = none;
  excerpt = [];
  document_status = [];
}

unfoldable pointed : ResolvedChunk
unfolding resolve corpus render
pointed = elim (resolve digest corpus acme (render handle)) [
  | ok r ↦ elim r [ resolved t d ↦ d | _ ↦ no_chunk ]
  | err e ↦ no_chunk
]

resolve_ok : resolve digest corpus acme (render handle) ≡ ok (resolved (render handle) pointed)
unfolding resolve corpus render pointed
resolve_ok = refl

resolve-IsResolvedBy_example : IsResolvedBy digest corpus.rows acme (render handle) pointed
resolve-IsResolvedBy_example =
    resolve-IsResolvedBy digest corpus acme (render handle) pointed resolve_ok

abbrev zeros : Text
zeros = codes "0000000000000000000000000000000000000000000000000000000000000009"

abbrev written : Text
written = codes "kcit:00000000-0000-0000-0000-00000000000d:000000000000"

written_ok : parse_citation_id written ≡ some handle
unfolding parse_citation_id
written_ok = refl

render-parse_example : render handle ≡ written
render-parse_example = render-parse written handle written_ok

abbrev ranking : List KnowledgeChunkView
ranking = first ∷ second ∷ third ∷ []

diversify_lem_example :
    (diversify ranking 2 1).views ≡ take 2 (within_cap 1 [] ranking ++ over_cap 1 [] ranking)
diversify_lem_example = diversify_lem ranking 2 1

reciprocal_rank_fusion_single_example :
    reciprocal_rank_fusion fractions 60 (ranking ∷ []) ≡ ok ranking
reciprocal_rank_fusion_single_example =
    reciprocal_rank_fusion_single fractions fractions-IsLawful 60 ranking (omega arith)
      (omega arith) (unfold distinct_chunks first second third in refl)

abbrev fused : List KnowledgeChunkView
fused = second ∷ first ∷ []

fused_ok :
    reciprocal_rank_fusion fractions 60 ((first ∷ second ∷ []) ∷ (second ∷ []) ∷ []) ≡ ok fused
unfolding reciprocal_rank_fusion first second
fused_ok = refl

reciprocal_rank_fusion_lem_example :
    (distinct_chunks fused ≡ true)
    × ((c : ℕ) → has_chunk c fused ≡ has_chunk_in c ((first ∷ second ∷ []) ∷ (second ∷ []) ∷ []))
reciprocal_rank_fusion_lem_example =
    reciprocal_rank_fusion_lem fractions 60 ((first ∷ second ∷ []) ∷ (second ∷ []) ∷ []) fused
      fused_ok

abbrev normalized : KnowledgeQuery
normalized = record {
  topic = codes "brute force";
  context_terms = codes "sshd" ∷ codes "T1110" ∷ [];
  limit = 2;
}

normalized_ok : normalize_query nfc question ≡ ok normalized
unfolding normalize_query
normalized_ok = refl

normalize_query-IsNormalized_example : IsNormalized normalized × (normalized.limit ≡ question.limit)
normalize_query-IsNormalized_example =
    normalize_query-IsNormalized nfc question normalized normalized_ok

unchanged : (ts : List Text) → All (λ t. nfc t ≡ t) ts
unchanged [] = tt
unchanged (t ∷ ts) = (refl, unchanged ts)

normalized-IsNormalized : IsNormalized normalized
normalized-IsNormalized = (normalize_query-IsNormalized nfc question normalized normalized_ok).0

normalize_query_again_example : normalize_query nfc normalized ≡ ok normalized
normalize_query_again_example =
    normalize_query_again nfc normalized normalized-IsNormalized refl
      (unchanged normalized.context_terms)

abbrev terms : List Text
terms = codes "brute" ∷ codes "force" ∷ codes "sshd" ∷ codes "T1110" ∷ []

terms_ok : build_search_terms normalized ≡ ok terms
unfolding build_search_terms
terms_ok = refl

build_search_terms_lem_example :
    (length terms ≤ 96)
    × (distinct_texts terms ≡ true)
    × ((w : Text) → contains w terms ≡ is_word_of w (normalized.topic ∷ normalized.context_terms))
build_search_terms_lem_example = build_search_terms_lem normalized terms terms_ok
