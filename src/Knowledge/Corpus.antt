-- ===== src/Knowledge/Corpus.antt =====
-- The rows that retrieval reads and the queries over them
-- (src/hisiem_soc_copilot/infrastructure/persistence/repositories/knowledge.py
-- `_scope_predicate`, `_generation_probe`, `lexical_candidates`, `vector_candidates`,
-- `get_chunk_view`). A row is a content chunk joined with its version and its document. Full-text
-- matching and the two `ORDER BY`s are PostgreSQL's: fields of the database.
pub mod Eligible
use hisiem_soc_copilot.Knowledge.{KnowledgeChunkView, global, tenant}
use hisiem_soc_copilot.Knowledge.Texts.{Text, text_eq}
use hisiem_soc_copilot.Prelude.{
  ◌≡◌, ◌⊎◌, ℕ, Bool, true, false, ◌&&◌, ◌||◌, Option, none, some, opt_eq, List, [], ◌∷◌, ◌==◌, ltb,
  codes, if◌then◌else◌, keep, map, take,
}

-- What makes two vectors comparable.
pub record EmbeddingIdentity : Type 0 where
  pub provider : Text
  pub model_id : Text
  pub dimension : ℕ
  pub distance_metric : Text
  pub normalization : Text
  pub profile_version : ℕ

unfoldable pub same_identity : EmbeddingIdentity → EmbeddingIdentity → Bool
unfolding text_eq
same_identity a b =
    text_eq a.provider b.provider
    && text_eq a.model_id b.model_id
    && a.dimension == b.dimension
    && text_eq a.distance_metric b.distance_metric
    && text_eq a.normalization b.normalization
    && a.profile_version == b.profile_version

pub record EmbeddingProfileRecord : Type 0 where
  pub id : ℕ
  pub identity : EmbeddingIdentity

pub record ChunkRow : Type 0 where
  pub view : KnowledgeChunkView
  -- `active_version_id` of the document.
  pub active_version_id : Option ℕ
  -- The profiles that the chunk has an embedding in.
  pub embedded_in : List ℕ

pub record Database (S : Type 0) : Type 0 where
  pub rows : List ChunkRow
  pub active_profile : Option EmbeddingProfileRecord
  -- `lexical_document @@ query`
  pub matches : List Text → KnowledgeChunkView → Bool
  -- `ORDER BY ts_rank DESC, ...`
  pub by_rank : List Text → List KnowledgeChunkView → List KnowledgeChunkView
  -- `ORDER BY cosine_distance ASC, ...`
  pub by_distance : List S → List KnowledgeChunkView → List KnowledgeChunkView

unfoldable pub scope_predicate : Text → KnowledgeChunkView → Bool
unfolding text_eq
scope_predicate tenant_id v = elim v.visibility [
  | global ↦ true
  | tenant ↦ elim v.tenant_id [ none ↦ false | some t ↦ text_eq t tenant_id ]
]

-- A later generation of the version is among the rows.
unfoldable pub has_later : KnowledgeChunkView → List ChunkRow → Bool
has_later v [] = false
has_later v (r ∷ rs) =
    (r.view.document_version_id == v.document_version_id
      && ltb v.chunk_generation r.view.chunk_generation)
    || has_later v rs

unfoldable pub is_served : List ChunkRow → Text → ChunkRow → Bool
unfolding scope_predicate has_later text_eq
is_served rows tenant_id r =
    scope_predicate tenant_id r.view
    && text_eq r.view.document_status (codes "ACTIVE")
    && opt_eq r.active_version_id (some r.view.document_version_id)
    && (if has_later r.view rows then false else true)

unfoldable pub member : ℕ → List ℕ → Bool
member x [] = false
member x (y ∷ ys) = x == y || member x ys

abbrev pub views : List ChunkRow → List KnowledgeChunkView
views rs = map (λ r. r.view) rs

unfoldable pub find_view : Text → ℕ → List ChunkRow → Option KnowledgeChunkView
unfolding scope_predicate
find_view tenant_id chunk_id [] = none
find_view tenant_id chunk_id (r ∷ rs) =
    let rest = find_view tenant_id chunk_id rs in
    if r.view.chunk_id == chunk_id && scope_predicate tenant_id r.view then some r.view else rest

module _ {S : Type 0} (db : Database S) where
  unfoldable pub lexical_candidates : Text → List Text → ℕ → List KnowledgeChunkView
  unfolding is_served
  lexical_candidates tenant_id [] limit = []
  lexical_candidates tenant_id (t ∷ ts) limit = take limit (
      db.by_rank (t ∷ ts)
        (views (keep (λ r. is_served db.rows tenant_id r && db.matches (t ∷ ts) r.view) db.rows)))

  unfoldable pub vector_candidates : Text → ℕ → List S → ℕ → List KnowledgeChunkView
  unfolding is_served member
  vector_candidates tenant_id profile_id vector limit = take limit (
      db.by_distance vector (
        views
          (keep (λ r. is_served db.rows tenant_id r && member profile_id r.embedded_in) db.rows)))

  unfoldable pub get_chunk_view : Text → ℕ → Option KnowledgeChunkView
  unfolding find_view
  get_chunk_view tenant_id chunk_id = find_view tenant_id chunk_id db.rows

-- The tenant may read the view: it is global, or the tenant's own.
abbrev pub InScope : Text → KnowledgeChunkView → Type 0
InScope tenant_id v =
    (v.visibility ≡ global) ⊎ ((v.visibility ≡ tenant) × (v.tenant_id ≡ some tenant_id))
