-- ===== src/Knowledge/Retrieval/HitCitations.antt =====
-- The citation of a hit resolves to the chunk of the hit
-- (src/hisiem_soc_copilot/application/services/knowledge_retrieval.py `_to_hit`,
-- `KnowledgeCitationResolver.resolve`).
use hisiem_soc_copilot.Knowledge.{
  KnowledgeQuery, KnowledgeChunkView, KnowledgeHit, KnowledgeSearchResult, tenant_required,
}
use hisiem_soc_copilot.Knowledge.Texts.{Text, text_eq, text_eq_self, starts_with}
use hisiem_soc_copilot.Knowledge.Uuids.{uuid_bound}
use hisiem_soc_copilot.Knowledge.Citation.{
  Citation, render, format_citation_id, content_hash_prefix, require_valid_content_hash,
  is_valid_content_hash, parse_citation_id, parse-format,
}
use hisiem_soc_copilot.Knowledge.Query.{normalize_query}
use hisiem_soc_copilot.Knowledge.Ranking.{Scores}
use hisiem_soc_copilot.Knowledge.Corpus.Eligible.{scope_predicate_of_InScope}
use hisiem_soc_copilot.Knowledge.Corpus.{
  ChunkRow, Database, scope_predicate, find_view, get_chunk_view,
}
use hisiem_soc_copilot.Knowledge.Retrieval.{
  HybridRetrievalConfig, EmbeddingProvider, RetrievalMode, retrieve, retrieve_mode, to_hit, hit_of,
}
use hisiem_soc_copilot.Knowledge.Resolution.{
  resolved, resolved_chunk, is_foreign, ResolvedChunk, require_valid_scope, check_view,
  resolve_view, resolve_parsed, resolve,
}
use hisiem_soc_copilot.Knowledge.Retrieval.Served.{IsOrderly}
use hisiem_soc_copilot.Knowledge.Retrieval.Scope.{IsHitFrom, retrieve-AreHits}
use hisiem_soc_copilot.Knowledge.Resolution.Citations.{ok-inj, unique_ids, find_view-In}
use hisiem_soc_copilot.Prelude.{
  ℕ, zero, suc, ◌<◌, ◌≡◌, refl, sym, ap, ◌∙◌, inl, inr, true, false, not, Option, some, List, [],
  ◌∷◌, arith, Bool-cases, take, all, is_space, All, In, ok, ◌>>=◌, require, >>=-ok, require-ok,
}

starts_with-take : (n : ℕ) (t : Text) → starts_with t (take n t) ≡ true
unfolding starts_with
starts_with-take zero [] = refl
starts_with-take zero (c ∷ cs) = refl
starts_with-take (suc n) [] = refl
starts_with-take (suc n) (c ∷ cs) = ground (arith, starts_with-take n cs)

foreign_of_scope :
    (tenant_id : Text) (v : KnowledgeChunkView)
    → scope_predicate tenant_id v ≡ true
    → is_foreign tenant_id v ≡ false
unfolding scope_predicate is_foreign
foreign_of_scope tenant_id v h = ground arith

-- A stored row whose hash is that of its content, with an id and a scope that are valid.
pub record IsSound (sha : Text → Text) (r : ChunkRow) : Type 0 where
  pub hashed : sha r.view.content ≡ r.view.content_hash
  pub id_bound : r.view.chunk_id < uuid_bound
  pub scoped : require_valid_scope r.view.visibility r.view.tenant_id ≡ ok tt

handle : KnowledgeChunkView → Citation
handle v = record { chunk_id = v.chunk_id; content_hash_prefix = take 12 v.content_hash }

format_valid :
    (u : ℕ) (hash t : Text) → format_citation_id u hash ≡ ok t → is_valid_content_hash hash ≡ true
unfolding format_citation_id content_hash_prefix require_valid_content_hash
format_valid u hash t e = elim (Bool-cases (is_valid_content_hash hash)) [
  | inl h ↦ h
  | inr h ↦ absurd (ground (arith, rw h at e))
]

check_view_lem :
    (sha : Text → Text) (tenant_id citation_id prefix : Text) (v : KnowledgeChunkView)
    → is_foreign tenant_id v ≡ false
    → text_eq (sha v.content) v.content_hash ≡ true
    → starts_with v.content_hash prefix ≡ true
    → check_view sha tenant_id citation_id prefix v ≡ resolved citation_id (resolved_chunk v)
check_view_lem sha tenant_id citation_id prefix v f h p = unfold check_view in rw (f, h, p) refl

resolve_view_lem :
    (sha : Text → Text) (tenant_id citation_id prefix : Text) (v : KnowledgeChunkView)
    → require_valid_scope v.visibility v.tenant_id ≡ ok tt
    → check_view sha tenant_id citation_id prefix v ≡ resolved citation_id (resolved_chunk v)
    → resolve_view sha tenant_id citation_id prefix (some v)
      ≡ ok (resolved citation_id (resolved_chunk v))
resolve_view_lem sha tenant_id citation_id prefix v s c = unfold resolve_view in rw (s, c) refl

resolve_parsed_lem :
    {S : Type 0} (sha : Text → Text) (db : Database S) (tenant_id citation_id : Text) (c : Citation)
    (o : Option KnowledgeChunkView)
    → find_view tenant_id c.chunk_id db.rows ≡ o
    → resolve_parsed sha db tenant_id citation_id (some c)
      ≡ resolve_view sha tenant_id citation_id c.content_hash_prefix o
resolve_parsed_lem sha db tenant_id citation_id c o g =
    unfold resolve_parsed get_chunk_view in
    ap (resolve_view sha tenant_id citation_id c.content_hash_prefix) g

resolve_step :
    {S : Type 0} (sha : Text → Text) (db : Database S) (tenant_id citation_id : Text)
    (o : Option Citation)
    → all is_space tenant_id ≡ false
    → parse_citation_id citation_id ≡ o
    → resolve sha db tenant_id citation_id ≡ resolve_parsed sha db tenant_id citation_id o
resolve_step sha db tenant_id citation_id o b p =
    unfold resolve in rw b (ap (resolve_parsed sha db tenant_id citation_id) p)

resolve-format :
    {S : Type 0} (sha : Text → Text) (db : Database S) (tenant_id : Text) (r : ChunkRow)
    → In r db.rows
    → unique_ids db.rows ≡ true
    → IsSound sha r
    → scope_predicate tenant_id r.view ≡ true
    → all is_space tenant_id ≡ false
    → is_valid_content_hash r.view.content_hash ≡ true
    → resolve sha db tenant_id (render (handle r.view))
      ≡ ok (resolved (render (handle r.view)) (resolved_chunk r.view))
resolve-format sha db tenant_id r m u k s b h =
    let t = render (handle r.view) in
    let p : parse_citation_id t ≡ some (handle r.view) =
      unfold handle in ((parse-format r.view.chunk_id r.view.content_hash k.id_bound h).1) in
    let g : find_view tenant_id (handle r.view).chunk_id db.rows ≡ some r.view =
      unfold handle in (find_view-In tenant_id r db.rows m u s) in
    let w : starts_with r.view.content_hash (handle r.view).content_hash_prefix ≡ true =
      unfold handle in (starts_with-take 12 r.view.content_hash) in
    let e : text_eq (sha r.view.content) r.view.content_hash ≡ true =
      rw k.hashed (text_eq_self r.view.content_hash) in
    resolve_step sha db tenant_id t (some (handle r.view)) b p
    ∙ resolve_parsed_lem sha db tenant_id t (handle r.view) (some r.view) g
    ∙ resolve_view_lem sha tenant_id t (handle r.view).content_hash_prefix r.view k.scoped (
        check_view_lem sha tenant_id t (handle r.view).content_hash_prefix r.view
          (foreign_of_scope tenant_id r.view s) e w)

-- The citation of the hit resolves to the chunk that the hit shows.
abbrev pub Resolves : {S : Type 0} → (Text → Text) → Database S → Text → KnowledgeHit → Type 0
Resolves sha db tenant_id hit =
    (d : ResolvedChunk) × (resolve sha db tenant_id hit.citation_id
      ≡ ok (resolved hit.citation_id d))
    × (d.chunk_id ≡ hit.chunk_id)
    × (d.document_version_id ≡ hit.document_version_id)
    × (d.excerpt ≡ hit.excerpt)

to_hit_lem :
    (now : ℕ) (v : KnowledgeChunkView) (hit : KnowledgeHit)
    → to_hit now v ≡ ok hit
    → (t : Text) × (format_citation_id v.chunk_id v.content_hash ≡ ok t) × (hit_of now v t ≡ hit)
to_hit_lem now v hit e =
    let f =
      >>=-ok (format_citation_id v.chunk_id v.content_hash) (λ t. ok (hit_of now v t)) hit
        (unfold to_hit in e) in
    (f.0, f.1, ok-inj (hit_of now v f.0) hit f.2)

render_of_format :
    (v : KnowledgeChunkView) (t : Text)
    → v.chunk_id < uuid_bound
    → format_citation_id v.chunk_id v.content_hash ≡ ok t
    → render (handle v) ≡ t
render_of_format v t b e =
    let f : format_citation_id v.chunk_id v.content_hash ≡ ok (render (handle v)) =
      unfold handle in
      ((parse-format v.chunk_id v.content_hash b (format_valid v.chunk_id v.content_hash t e)).0) in
    ok-inj (render (handle v)) t (sym f ∙ e)

hit_of-Resolves :
    {S : Type 0} (sha : Text → Text) (db : Database S) (tenant_id : Text) (now : ℕ)
    (v : KnowledgeChunkView) (t : Text)
    → resolve sha db tenant_id t ≡ ok (resolved t (resolved_chunk v))
    → Resolves sha db tenant_id (hit_of now v t)
unfolding hit_of
hit_of-Resolves sha db tenant_id now v t e = (
  resolved_chunk v,
  e,
  unfold resolved_chunk in refl,
  unfold resolved_chunk in refl,
  unfold resolved_chunk in refl,
)

IsHitFrom-Resolves :
    {S : Type 0} (sha : Text → Text) (db : Database S) (tenant_id : Text) (now : ℕ)
    (hit : KnowledgeHit)
    → unique_ids db.rows ≡ true
    → ((r : ChunkRow) → In r db.rows → IsSound sha r)
    → all is_space tenant_id ≡ false
    → IsHitFrom db.rows tenant_id now hit
    → Resolves sha db tenant_id hit
IsHitFrom-Resolves sha db tenant_id now hit u k b from =
    let r = from.0 in
    let f = to_hit_lem now r.view hit from.3 in
    let c : render (handle r.view) ≡ f.0 = render_of_format r.view f.0 (k r from.1).id_bound f.1 in
    let e : resolve sha db tenant_id f.0 ≡ ok (resolved f.0 (resolved_chunk r.view)) = rw (← c) (
      resolve-format sha db tenant_id r from.1 u (k r from.1)
        (scope_predicate_of_InScope tenant_id r.view from.2.scope) b
        (format_valid r.view.chunk_id r.view.content_hash f.0 f.1)) in
    rw (← f.2) (hit_of-Resolves sha db tenant_id now r.view f.0 e)

All-Resolves :
    {S : Type 0} (sha : Text → Text) (db : Database S) (tenant_id : Text) (now : ℕ)
    (hits : List KnowledgeHit)
    → unique_ids db.rows ≡ true
    → ((r : ChunkRow) → In r db.rows → IsSound sha r)
    → all is_space tenant_id ≡ false
    → All (IsHitFrom db.rows tenant_id now) hits
    → All (Resolves sha db tenant_id) hits
All-Resolves sha db tenant_id now [] u k b h = tt
All-Resolves sha db tenant_id now (hit ∷ hits) u k b h = (
  IsHitFrom-Resolves sha db tenant_id now hit u k b h.0,
  All-Resolves sha db tenant_id now hits u k b h.1,
)

-- When the orders of PostgreSQL return rows of the query, the chunk ids are distinct, and each row
-- has the hash of its content, an id below 16 ^ 32 and a valid scope, then the citation of every
-- hit of a retrieval that returns is resolved for the same tenant, to the chunk, the document
-- version and the excerpt of the hit.
pub retrieve-resolve :
    {S : Type 0} (o : Scores S) (config : HybridRetrievalConfig) (db : Database S)
    (provider : Option (EmbeddingProvider S)) (now : ℕ) (sha nfc : Text → Text)
    (mode : RetrievalMode) (tenant_id : Text) (q : KnowledgeQuery) (result : KnowledgeSearchResult)
    → IsOrderly db
    → unique_ids db.rows ≡ true
    → ((r : ChunkRow) → In r db.rows → IsSound sha r)
    → retrieve o config db provider now nfc mode tenant_id q ≡ ok result
    → All (Resolves sha db tenant_id) result.hits
retrieve-resolve o config db provider now sha nfc mode tenant_id q result i u k e =
    let t =
      >>=-ok (require (not (all is_space tenant_id)) tenant_required)
        (λ _.
          normalize_query nfc q >>= λ n. retrieve_mode o config db provider now mode tenant_id n)
        result (unfold retrieve in e) in
    let nonblank = require-ok (not (all is_space tenant_id)) tenant_required t.0 t.1 in
    let b : all is_space tenant_id ≡ false = ground (arith, nonblank) in
    All-Resolves sha db tenant_id now result.hits u k b
      ((retrieve-AreHits o config db provider now i nfc mode tenant_id q result e).0.0)
