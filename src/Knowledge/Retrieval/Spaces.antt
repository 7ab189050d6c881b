-- ===== src/Knowledge/Retrieval/Spaces.antt =====
-- Which embedding space a query vector is compared in
-- (src/hisiem_soc_copilot/application/services/knowledge_retrieval.py `_require_active_profile`,
-- `_vector_candidates`).
use hisiem_soc_copilot.Knowledge.{
  KnowledgeChunkView, no_active_profile, no_provider, provider_mismatch, KnowledgeQuery,
  KnowledgeSearchResult, tenant_required, embedding_mismatch, dimension_mismatch,
}
use hisiem_soc_copilot.Knowledge.Texts.{Text}
use hisiem_soc_copilot.Knowledge.Query.{normalize_query, build_search_text}
use hisiem_soc_copilot.Knowledge.Ranking.{Scores}
use hisiem_soc_copilot.Knowledge.Corpus.Eligible.{same_identity_lem}
use hisiem_soc_copilot.Knowledge.Corpus.{
  Database, EmbeddingProfileRecord, same_identity, vector_candidates,
}
use hisiem_soc_copilot.Knowledge.Retrieval.{
  HybridRetrievalConfig, EmbeddingVector, EmbeddingProvider, RetrievalMode, lexical_only,
  vector_only, hybrid, require_active_profile, lexical_channel, search_embedded, vector_channel,
  retrieve_vector_only, retrieve_hybrid, retrieve_mode, retrieve,
}
use hisiem_soc_copilot.Prelude.{
  ℕ, ◌≡◌, ◌≢◌, refl, not, Option, none, some, List, ◌==◌, ==_iff, arith, length, all, is_space, ok,
  err, ◌>>◌, require, >>=-ok, require-ok,
}

module _ {S : Type 0} (o : Scores S) (config : HybridRetrievalConfig) (db : Database S)
    (provider : Option (EmbeddingProvider S)) (now : ℕ) where
  -- The provider is in the space of the active profile, and so is the vector it made.
  abbrev pub IsComparable : KnowledgeQuery → Type 0
  IsComparable q =
      (profile : EmbeddingProfileRecord) × (p : EmbeddingProvider S) × (v : EmbeddingVector S)
      × (db.active_profile ≡ some profile)
      × (provider ≡ some p)
      × (p.identity ≡ profile.identity)
      × (p.embed_query (build_search_text q) ≡ ok v)
      × (v.identity ≡ profile.identity)
      × (length v.values ≡ profile.identity.dimension)

  active_profile_lem :
      (profile : EmbeddingProfileRecord)
      → require_active_profile o config db provider now ≡ ok profile
      → (p : EmbeddingProvider S) × (db.active_profile ≡ some profile)
        × (provider ≡ some p)
        × (p.identity ≡ profile.identity)
  active_profile_lem profile e =
      cases db.active_profile provider refl refl (unfold require_active_profile in e)
    where
      cases :
          (a : Option EmbeddingProfileRecord) (b : Option (EmbeddingProvider S))
          → db.active_profile ≡ a
          → provider ≡ b
          → (elim a [
            | none ↦ err no_active_profile
            | some r ↦ elim b [
              | none ↦ err no_provider
              | some p ↦ require (same_identity p.identity r.identity) provider_mismatch >> ok r
            ]
          ])
            ≡ ok profile
          → (p : EmbeddingProvider S) × (db.active_profile ≡ some profile)
            × (provider ≡ some p)
            × (p.identity ≡ profile.identity)
      cases none b ea eb h = absurd (ground (arith, h))
      cases (some r) none ea eb h = absurd (ground (arith, h))
      cases (some r) (some p) ea eb h =
          let k =
            >>=-ok (require (same_identity p.identity r.identity) provider_mismatch) (λ _. ok r)
              profile h in
          let same : r ≡ profile = ground (arith, k.2) in
          (
            p,
            rw (← same) ea,
            eb,
            rw (← same) (
                same_identity_lem p.identity r.identity
                  (require-ok (same_identity p.identity r.identity) provider_mismatch k.0 k.1)),
          )

  vector_channel_lem :
      (tenant_id : Text) (q : KnowledgeQuery) (profile : EmbeddingProfileRecord)
      (p : EmbeddingProvider S) (vs : List KnowledgeChunkView)
      → provider ≡ some p
      → vector_channel o config db provider now tenant_id q profile ≡ ok vs
      → (v : EmbeddingVector S) × (p.embed_query (build_search_text q) ≡ ok v)
        × (v.identity ≡ profile.identity)
        × (length v.values ≡ profile.identity.dimension)
  vector_channel_lem tenant_id q profile p vs s e =
      let e' : search_embedded o config db p tenant_id q profile ≡ ok vs =
        unfold vector_channel in (rw s at e) in
      let v =
        >>=-ok (p.embed_query (build_search_text q))
          (λ v.
            require (same_identity v.identity profile.identity) embedding_mismatch
            >> (require (length v.values == profile.identity.dimension) dimension_mismatch
                >> ok (
                    vector_candidates db tenant_id profile.id v.values
                      config.vector_candidate_limit)))
          vs (unfold search_embedded in e') in
      let i =
        >>=-ok (require (same_identity v.0.identity profile.identity) embedding_mismatch) _ vs
          v.2 in
      let d =
        >>=-ok (require (length v.0.values == profile.identity.dimension) dimension_mismatch) _ vs
          i.2 in
      (
        v.0,
        v.1,
        same_identity_lem v.0.identity profile.identity
            (require-ok (same_identity v.0.identity profile.identity) embedding_mismatch i.0 i.1),
        (==_iff (length v.0.values) profile.identity.dimension).0 (
            require-ok (length v.0.values == profile.identity.dimension) dimension_mismatch d.0
              d.1),
      )

  retrieve_mode-IsComparable :
      (mode : RetrievalMode) (tenant_id : Text) (q : KnowledgeQuery)
      (result : KnowledgeSearchResult)
      → mode ≢ lexical_only
      → retrieve_mode o config db provider now mode tenant_id q ≡ ok result
      → IsComparable q
  unfolding retrieve_mode retrieve_vector_only retrieve_hybrid
  retrieve_mode-IsComparable lexical_only tenant_id q result n e = absurd (n refl)
  retrieve_mode-IsComparable vector_only tenant_id q result n e =
      let p = >>=-ok (require_active_profile o config db provider now) _ result e in
      let v = >>=-ok (vector_channel o config db provider now tenant_id q p.0) _ result p.2 in
      let a = active_profile_lem p.0 p.1 in
      let c = vector_channel_lem tenant_id q p.0 a.0 v.0 a.2 v.1 in
      (p.0, a.0, c.0, a.1, a.2, a.3, c.1, c.2, c.3)
  retrieve_mode-IsComparable hybrid tenant_id q result n e =
      let p = >>=-ok (require_active_profile o config db provider now) _ result e in
      let l = >>=-ok (lexical_channel o config db provider now tenant_id q) _ result p.2 in
      let v = >>=-ok (vector_channel o config db provider now tenant_id q p.0) _ result l.2 in
      let a = active_profile_lem p.0 p.1 in
      let c = vector_channel_lem tenant_id q p.0 a.0 v.0 a.2 v.1 in
      (p.0, a.0, c.0, a.1, a.2, a.3, c.1, c.2, c.3)

  -- A retrieval that returns in a mode other than lexical has found an active profile and a
  -- provider of the same identity, and its provider has embedded the search text of the normalized
  -- query into a vector of that identity and of the profile's dimension.
  pub retrieve-IsComparable :
      (nfc : Text → Text) (mode : RetrievalMode) (tenant_id : Text) (q : KnowledgeQuery)
      (result : KnowledgeSearchResult)
      → mode ≢ lexical_only
      → retrieve o config db provider now nfc mode tenant_id q ≡ ok result
      → (q' : KnowledgeQuery) × (normalize_query nfc q ≡ ok q') × IsComparable q'
  unfolding retrieve
  retrieve-IsComparable nfc mode tenant_id q result n e =
      let t = >>=-ok (require (not (all is_space tenant_id)) tenant_required) _ result e in
      let m = >>=-ok (normalize_query nfc q) _ result t.2 in
      (m.0, m.1, retrieve_mode-IsComparable mode tenant_id m.0 result n m.2)
