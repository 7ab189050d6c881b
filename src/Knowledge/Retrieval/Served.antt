-- ===== src/Knowledge/Retrieval/Served.antt =====
-- Which rows the candidates of a retrieval come from
-- (src/hisiem_soc_copilot/application/services/knowledge_retrieval.py `retrieve`,
-- infrastructure/persistence/repositories/knowledge.py `lexical_candidates`, `vector_candidates`).
use mathlib.Core.Path.{subst}
use hisiem_soc_copilot.Knowledge.{KnowledgeChunkView}
use hisiem_soc_copilot.Knowledge.Texts.{Text}
use hisiem_soc_copilot.Knowledge.Corpus.Eligible.{IsEligible, is_served-IsEligible}
use hisiem_soc_copilot.Knowledge.Corpus.{
  ChunkRow, Database, is_served, member, views, lexical_candidates, vector_candidates,
}
use hisiem_soc_copilot.Prelude.{
  ℕ, ◌≡◌, refl, sym, inl, inr, Bool, ◌&&◌, List, [], ◌∷◌, Bool-cases, keep, All, All-take, In,
}

-- What `ORDER BY` gives: the same rows in another order.
abbrev Reorders : (List KnowledgeChunkView → List KnowledgeChunkView) → Type 0
Reorders f = (vs : List KnowledgeChunkView) (v : KnowledgeChunkView) → In v (f vs) → In v vs

In-All :
    (P : KnowledgeChunkView → Type 0) (v : KnowledgeChunkView) (vs : List KnowledgeChunkView)
    → In v vs
    → All P vs
    → P v
In-All P v [] m h = absurd m
In-All P v (w ∷ ws) (inl e) h = subst P (sym e) h.0
In-All P v (w ∷ ws) (inr m) h = In-All P v ws m h.1

All-In :
    (P : KnowledgeChunkView → Type 0) (vs : List KnowledgeChunkView)
    → ((v : KnowledgeChunkView) → In v vs → P v)
    → All P vs
All-In P [] h = tt
All-In P (v ∷ vs) h = (h v (inl refl), All-In P vs (λ w m. h w (inr m)))

All-Reorders :
    (P : KnowledgeChunkView → Type 0) (f : List KnowledgeChunkView → List KnowledgeChunkView)
    (vs : List KnowledgeChunkView)
    → Reorders f
    → All P vs
    → All P (f vs)
All-Reorders P f vs r h = All-In P (f vs) (λ v m. In-All P v vs (r vs v m) h)

-- The view is that of a row that the tenant is served.
abbrev pub IsServed : List ChunkRow → Text → KnowledgeChunkView → Type 0
IsServed rows tenant_id v = (r : ChunkRow) × In r rows × IsEligible rows tenant_id r × (r.view ≡ v)

kept_rows :
    (rows : List ChunkRow) (tenant_id : Text) (p : ChunkRow → Bool) (rs : List ChunkRow)
    → ((r : ChunkRow) → In r rs → In r rows)
    → All (IsServed rows tenant_id) (views (keep (λ r. is_served rows tenant_id r && p r) rs))
kept_rows rows tenant_id p [] h = tt
kept_rows rows tenant_id p (r ∷ rs) h =
    let rest = kept_rows rows tenant_id p rs (λ x m. h x (inr m)) in
    elim (Bool-cases (is_served rows tenant_id r)) [
      | inr f ↦ rw f rest
      | inl t ↦ elim (Bool-cases (p r)) [
        | inr f ↦ rw (t, f) rest
        | inl u ↦
            rw (t, u)
              (pair r.view (views (keep (λ x. is_served rows tenant_id x && p x) rs))
                (r, h r (inl refl), is_served-IsEligible rows tenant_id r t, refl) rest)
      ]
    ]
  where
    pair :
        (v : KnowledgeChunkView) (vs : List KnowledgeChunkView)
        → IsServed rows tenant_id v
        → All (IsServed rows tenant_id) vs
        → All (IsServed rows tenant_id) (v ∷ vs)
    pair v vs a b = (a, b)

module _ {S : Type 0} (db : Database S) where
  pub record IsOrderly : Type 0 where
    pub rank_order : (terms : List Text) → Reorders (db.by_rank terms)
    pub distance_order : (vector : List S) → Reorders (db.by_distance vector)

  pub All-lexical :
      (tenant_id : Text) (terms : List Text) (limit : ℕ)
      → IsOrderly
      → All (IsServed db.rows tenant_id) (lexical_candidates db tenant_id terms limit)
  unfolding lexical_candidates
  All-lexical tenant_id [] limit h = tt
  All-lexical tenant_id (t ∷ ts) limit h =
      let found =
        views (keep (λ r. is_served db.rows tenant_id r && db.matches (t ∷ ts) r.view) db.rows) in
      All-take (IsServed db.rows tenant_id) limit (db.by_rank (t ∷ ts) found) (
        All-Reorders (IsServed db.rows tenant_id) (db.by_rank (t ∷ ts)) found
          (h.rank_order (t ∷ ts))
          (kept_rows db.rows tenant_id (λ r. db.matches (t ∷ ts) r.view) db.rows (λ r m. m)))

  pub All-vector :
      (tenant_id : Text) (profile_id : ℕ) (vector : List S) (limit : ℕ)
      → IsOrderly
      → All (IsServed db.rows tenant_id) (vector_candidates db tenant_id profile_id vector limit)
  unfolding vector_candidates
  All-vector tenant_id profile_id vector limit h =
      let found =
        views
          (keep (λ r. is_served db.rows tenant_id r && member profile_id r.embedded_in) db.rows) in
      All-take (IsServed db.rows tenant_id) limit (db.by_distance vector found) (
        All-Reorders (IsServed db.rows tenant_id) (db.by_distance vector) found
          (h.distance_order vector)
          (kept_rows db.rows tenant_id (λ r. member profile_id r.embedded_in) db.rows (λ r m. m)))
