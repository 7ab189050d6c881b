-- ===== src/Knowledge/Retrieval/Scope.antt =====
-- Where the hits of a retrieval come from
-- (src/hisiem_soc_copilot/application/services/knowledge_retrieval.py `retrieve`,
-- infrastructure/persistence/repositories/knowledge.py `lexical_candidates`, `vector_candidates`).
use mathlib.Core.Path.{subst}
use hisiem_soc_copilot.Knowledge.{
  KnowledgeQuery, KnowledgeChunkView, KnowledgeHit, KnowledgeSearchResult, tenant_required,
  RetrievalProfile, max_result_limit,
}
use hisiem_soc_copilot.Knowledge.Texts.{Text}
use hisiem_soc_copilot.Knowledge.Query.{normalize_query, build_search_terms, build_search_text}
use hisiem_soc_copilot.Knowledge.Query.Again.{normalize_query-IsNormalized}
use hisiem_soc_copilot.Knowledge.Ranking.{Scores, reciprocal_rank_fusion}
use hisiem_soc_copilot.Knowledge.Diversification.{diversify}
use hisiem_soc_copilot.Knowledge.Diversification.Reference.{length-diversify}
use hisiem_soc_copilot.Knowledge.Retrieval.Served.{IsServed, IsOrderly, All-lexical, All-vector}
use hisiem_soc_copilot.Knowledge.Retrieval.Kept.{All-fusion, All-diversify}
use hisiem_soc_copilot.Knowledge.Corpus.Eligible.{IsEligible}
use hisiem_soc_copilot.Knowledge.Corpus.{
  ChunkRow, Database, EmbeddingProfileRecord, lexical_candidates, vector_candidates,
}
use hisiem_soc_copilot.Knowledge.Retrieval.{
  search_embedded, HybridRetrievalConfig, EmbeddingProvider, RetrievalMode, lexical_only,
  vector_only, hybrid, to_hit, to_hits, finalize, fuse_and_finalize, require_active_profile,
  lexical_channel, vector_channel, retrieve_lexical_only, retrieve_vector_only, retrieve_hybrid,
  retrieve_mode, retrieve, describe_profile,
}
use hisiem_soc_copilot.Prelude.{
  is_space, all, not, Option-cases, ℕ, suc, ◌≤◌, ◌≡◌, refl, ap, ◌∙◌, inl, inr, Option, none, some,
  List, [], ◌∷◌, arith, length, All, >>=-ok, In, ok, ◌>>=◌, require,
}

-- The hit is that of a row that the tenant is served.
abbrev pub IsHitFrom : List ChunkRow → Text → ℕ → KnowledgeHit → Type 0
IsHitFrom rows tenant_id now hit =
    (r : ChunkRow) × In r rows × IsEligible rows tenant_id r × (to_hit now r.view ≡ ok hit)

to_hits-IsHitFrom :
    (rows : List ChunkRow) (tenant_id : Text) (now : ℕ) (vs : List KnowledgeChunkView)
    (hits : List KnowledgeHit)
    → All (IsServed rows tenant_id) vs
    → to_hits now vs ≡ ok hits
    → All (IsHitFrom rows tenant_id now) hits × (length hits ≡ length vs)
unfolding to_hits
to_hits-IsHitFrom rows tenant_id now [] hits p h =
    let e : [] ≡ hits = ground arith in rw (← e) (tt, refl)
to_hits-IsHitFrom rows tenant_id now (v ∷ vs) hits p h =
    let first = >>=-ok (to_hit now v) (λ hit. to_hits now vs >>= λ hs. ok (hit ∷ hs)) hits h in
    let others = >>=-ok (to_hits now vs) (λ hs. ok (first.0 ∷ hs)) hits first.2 in
    let ih = to_hits-IsHitFrom rows tenant_id now vs others.0 p.1 others.1 in
    let e : first.0 ∷ others.0 ≡ hits = ground arith in
    let q : to_hit now p.0.0.view ≡ ok first.0 = ap (to_hit now) p.0.3 ∙ first.1 in
    rw (← e) (((p.0.0, p.0.1, p.0.2, q), ih.0), ap suc ih.1)

module _ {S : Type 0} (o : Scores S) (config : HybridRetrievalConfig) (db : Database S) where
  abbrev AreHits : Text → ℕ → KnowledgeQuery → KnowledgeSearchResult → Type 0
  AreHits tenant_id now q result =
      All (IsHitFrom db.rows tenant_id now) result.hits × (length result.hits ≤ q.limit)

  finalize-AreHits :
      (tenant_id : Text) (now : ℕ) (q : KnowledgeQuery) (profile : RetrievalProfile)
      (ranked : List KnowledgeChunkView) (result : KnowledgeSearchResult)
      → All (IsServed db.rows tenant_id) ranked
      → finalize o config now q profile ranked ≡ ok result
      → AreHits tenant_id now q result
  unfolding finalize
  finalize-AreHits tenant_id now q profile ranked result p h =
      let page = diversify ranked q.limit config.max_chunks_per_document in
      let got =
        >>=-ok (to_hits now page.views)
          (λ hits.
            ok (record { hits = hits; truncated = page.truncated; retrieval_profile = profile }))
          result h in
      let l =
        to_hits-IsHitFrom db.rows tenant_id now page.views got.0
          (All-diversify (IsServed db.rows tenant_id) ranked q.limit config.max_chunks_per_document
            p)
          got.1 in
      let e : got.0 ≡ result.hits = ground arith in
      rw (← e)
        (l.0, omega (arith, l.1, length-diversify ranked q.limit config.max_chunks_per_document))

  fuse-AreHits :
      (tenant_id : Text) (now : ℕ) (q : KnowledgeQuery) (profile : RetrievalProfile)
      (lists : List (List KnowledgeChunkView)) (result : KnowledgeSearchResult)
      → All (All (IsServed db.rows tenant_id)) lists
      → fuse_and_finalize o config now q profile lists ≡ ok result
      → AreHits tenant_id now q result
  unfolding fuse_and_finalize
  fuse-AreHits tenant_id now q profile lists result p h =
      let got =
        >>=-ok (reciprocal_rank_fusion o config.rrf_k lists)
          (λ ranked. finalize o config now q profile ranked) result h in
      finalize-AreHits tenant_id now q profile got.0 result
        (All-fusion (IsServed db.rows tenant_id) o config.rrf_k lists got.0 p got.1) got.2

  module _ (provider : Option (EmbeddingProvider S)) (now : ℕ) (h : IsOrderly db) where
    lexical_channel-AreServed :
        (tenant_id : Text) (q : KnowledgeQuery) (vs : List KnowledgeChunkView)
        → lexical_channel o config db provider now tenant_id q ≡ ok vs
        → All (IsServed db.rows tenant_id) vs
    unfolding lexical_channel
    lexical_channel-AreServed tenant_id q vs e =
        let got =
          >>=-ok (build_search_terms q)
            (λ terms. ok (lexical_candidates db tenant_id terms config.lexical_candidate_limit)) vs
            e in
        let same : lexical_candidates db tenant_id got.0 config.lexical_candidate_limit ≡ vs =
          ground arith in
        subst (All (IsServed db.rows tenant_id)) (same)
          (All-lexical db tenant_id got.0 config.lexical_candidate_limit h)

    search_embedded-AreServed :
        (p : EmbeddingProvider S) (tenant_id : Text) (q : KnowledgeQuery)
        (profile : EmbeddingProfileRecord) (vs : List KnowledgeChunkView)
        → search_embedded o config db p tenant_id q profile ≡ ok vs
        → All (IsServed db.rows tenant_id) vs
    unfolding search_embedded
    search_embedded-AreServed p tenant_id q profile vs e =
        let got = >>=-ok (p.embed_query (build_search_text q)) _ vs e in
        let same : vector_candidates db tenant_id profile.id got.0.values
              config.vector_candidate_limit
            ≡ vs =
          ground (arith, got.2) in
        subst (All (IsServed db.rows tenant_id)) (same)
          (All-vector db tenant_id profile.id got.0.values config.vector_candidate_limit h)

    vector_channel-AreServed :
        (tenant_id : Text) (q : KnowledgeQuery) (profile : EmbeddingProfileRecord)
        (vs : List KnowledgeChunkView)
        → vector_channel o config db provider now tenant_id q profile ≡ ok vs
        → All (IsServed db.rows tenant_id) vs
    unfolding vector_channel
    vector_channel-AreServed tenant_id q profile vs e = elim (Option-cases provider) [
      | inl n ↦ absurd (ground (arith, n, e))
      | inr (p, s) ↦ search_embedded-AreServed p tenant_id q profile vs (rw s at e)
    ]

    two :
        (t : Text) (l v : List KnowledgeChunkView)
        → All (IsServed db.rows t) l
        → All (IsServed db.rows t) v
        → All (All (IsServed db.rows t)) (l ∷ v ∷ [])
    two t l v p q = (p, (q, tt))

    abbrev described : RetrievalMode → EmbeddingProfileRecord → RetrievalProfile
    described mode p = describe_profile o config mode (some p.id) p.identity.model_id

    retrieve_mode-AreHits :
        (mode : RetrievalMode) (tenant_id : Text) (q : KnowledgeQuery)
        (result : KnowledgeSearchResult)
        → retrieve_mode o config db provider now mode tenant_id q ≡ ok result
        → AreHits tenant_id now q result
    unfolding retrieve_mode retrieve_lexical_only retrieve_vector_only retrieve_hybrid
    retrieve_mode-AreHits lexical_only tenant_id q result e =
        let l =
          >>=-ok (lexical_channel o config db provider now tenant_id q)
            (λ lexical.
              fuse_and_finalize o config now q (describe_profile o config lexical_only none [])
                (lexical ∷ []))
            result e in
        fuse-AreHits tenant_id now q (describe_profile o config lexical_only none []) (l.0 ∷ [])
          result (lexical_channel-AreServed tenant_id q l.0 l.1, tt) l.2
    retrieve_mode-AreHits vector_only tenant_id q result e =
        let p = >>=-ok (require_active_profile o config db provider now) _ result e in
        let v = >>=-ok (vector_channel o config db provider now tenant_id q p.0) _ result p.2 in
        fuse-AreHits tenant_id now q (described vector_only p.0) (v.0 ∷ []) result
          (vector_channel-AreServed tenant_id q p.0 v.0 v.1, tt) v.2
    retrieve_mode-AreHits hybrid tenant_id q result e =
        let p = >>=-ok (require_active_profile o config db provider now) _ result e in
        let l = >>=-ok (lexical_channel o config db provider now tenant_id q) _ result p.2 in
        let v = >>=-ok (vector_channel o config db provider now tenant_id q p.0) _ result l.2 in
        fuse-AreHits tenant_id now q (described hybrid p.0) (l.0 ∷ v.0 ∷ []) result
          (two tenant_id l.0 v.0 (lexical_channel-AreServed tenant_id q l.0 l.1)
            (vector_channel-AreServed tenant_id q p.0 v.0 v.1))
          v.2

    -- When the orders of PostgreSQL return rows of the query, every hit of a retrieval that
    -- returns, in any mode, is made from a row of an active document's active version, at a
    -- generation that no row of the version exceeds, in the scope of the tenant; the hits are no
    -- more than the query's limit, and five at most.
    pub retrieve-AreHits :
        (nfc : Text → Text) (mode : RetrievalMode) (tenant_id : Text) (q : KnowledgeQuery)
        (result : KnowledgeSearchResult)
        → retrieve o config db provider now nfc mode tenant_id q ≡ ok result
        → AreHits tenant_id now q result × (length result.hits ≤ max_result_limit)
    unfolding retrieve
    retrieve-AreHits nfc mode tenant_id q result e =
        let t = >>=-ok (require (not (all is_space tenant_id)) tenant_required) _ result e in
        let n = >>=-ok (normalize_query nfc q) _ result t.2 in
        let found = retrieve_mode-AreHits mode tenant_id n.0 result n.2 in
        let l = normalize_query-IsNormalized nfc q n.0 n.1 in
        ((found.0, omega (arith, found.1, l.1)), omega (arith, found.1, l.0.limit_bound))
