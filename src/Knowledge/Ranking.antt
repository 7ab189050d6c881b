-- ===== src/Knowledge/Ranking.antt =====
-- Reciprocal Rank Fusion and its tie-break
-- (src/hisiem_soc_copilot/application/services/knowledge_retrieval.py `reciprocal_rank_fusion`,
-- application/ports/knowledge.py `stable_ranking_key`). Of a candidate only its view is read. The
-- floating-point operations are a record of operations, so that nothing depends on rounding.
pub mod Fusion
pub mod SingleList
use hisiem_soc_copilot.Knowledge.{
  KnowledgeChunkView, RetrievalError, rrf_k_out_of_range, SourceKind, mitre_attack,
  curated_guidance, tenant_runbook, Visibility, global, tenant,
}
use hisiem_soc_copilot.Knowledge.Texts.{Text, text_eq, text_lt}
use hisiem_soc_copilot.Prelude.{
  ℕ, suc, ◌+◌, Bool, true, false, List, [], ◌∷◌, ◌==◌, ltb, if◌then◌else◌, codes, map, or_else, leb,
  Result, ok, ◌>>◌, require,
}

unfoldable source_kind_value : SourceKind → Text
source_kind_value mitre_attack = codes "MITRE_ATTACK"
source_kind_value curated_guidance = codes "CURATED_GUIDANCE"
source_kind_value tenant_runbook = codes "TENANT_RUNBOOK"

unfoldable visibility_value : Visibility → Text
visibility_value global = codes "GLOBAL"
visibility_value tenant = codes "TENANT"

-- The key of the tie-break: texts, then numbers, compared in this order.
pub record RankingKey : Type 0 where
  pub texts : List Text
  pub numbers : List ℕ

unfoldable stable_ranking_key : KnowledgeChunkView → RankingKey
unfolding source_kind_value visibility_value
stable_ranking_key v = record {
  texts =
      source_kind_value v.source_kind
      ∷ visibility_value v.visibility
      ∷ or_else v.tenant_id []
      ∷ v.external_key
      ∷ [];
  numbers = v.document_version_number ∷ v.chunk_generation ∷ v.ordinal ∷ [];
}

unfoldable numbers_lt : List ℕ → List ℕ → Bool
numbers_lt (x ∷ xs) (y ∷ ys) = let rest = numbers_lt xs ys in if x == y then rest else ltb x y
numbers_lt [] (y ∷ ys) = true
numbers_lt _ _ = false

-- `a < b` of two keys: the texts first, and the numbers where the texts are the same.
unfoldable texts_lt : List Text → List Text → Bool → Bool
unfolding text_eq text_lt
texts_lt (x ∷ xs) (y ∷ ys) last =
    let rest = texts_lt xs ys last in if text_eq x y then rest else text_lt x y
texts_lt _ _ last = last

unfoldable key_lt : RankingKey → RankingKey → Bool
unfolding texts_lt numbers_lt
key_lt a b = texts_lt a.texts b.texts (numbers_lt a.numbers b.numbers)

-- The operations on scores: 0.0, `+`, `1.0 / n` and `>`.
pub record Scores (S : Type 0) : Type 0 where
  pub nothing : S
  pub plus : S → S → S
  pub reciprocal : ℕ → S
  pub above : S → S → Bool

-- An entry of the two dictionaries `views` and `scores`.
pub record Entry (S : Type 0) : Type 0 where
  pub view : KnowledgeChunkView
  pub score : S

module _ {S : Type 0} (o : Scores S) where
  -- `views.setdefault(...)` and `scores[...] = scores.get(..., 0.0) + ...`.
  unfoldable pub add_score : KnowledgeChunkView → S → List (Entry S) → List (Entry S)
  add_score v s [] = record { view = v; score = o.plus o.nothing s } ∷ []
  add_score v s (e ∷ es) =
      let rest = add_score v s es in
      if e.view.chunk_id == v.chunk_id
      then record { view = e.view; score = o.plus e.score s } ∷ es
      else e ∷ rest

  -- The candidates of one list, from this rank on.
  unfoldable pub add_list : ℕ → ℕ → List KnowledgeChunkView → List (Entry S) → List (Entry S)
  unfolding add_score
  add_list k rank [] es = es
  add_list k rank (v ∷ vs) es = add_list k (rank + 1) vs (add_score v (o.reciprocal (k + rank)) es)

  unfoldable pub add_lists : ℕ → List (List KnowledgeChunkView) → List (Entry S) → List (Entry S)
  unfolding add_list
  add_lists k [] es = es
  add_lists k (l ∷ ls) es = add_lists k ls (add_list k 1 l es)

  -- The order of the sort key, the score downwards and then the tie-break.
  unfoldable pub ranks_before : Entry S → Entry S → Bool
  unfolding key_lt stable_ranking_key
  ranks_before a b =
      if o.above a.score b.score
      then true
      else if o.above b.score a.score
      then false
      else key_lt (stable_ranking_key a.view) (stable_ranking_key b.view)

  -- `sorted`, which keeps the order of entries that are level.
  unfoldable pub insert_ranked : Entry S → List (Entry S) → List (Entry S)
  unfolding ranks_before
  insert_ranked e [] = e ∷ []
  insert_ranked e (f ∷ fs) =
      let rest = insert_ranked e fs in if ranks_before f e then f ∷ rest else e ∷ f ∷ fs

  unfoldable pub sort_ranked : List (Entry S) → List (Entry S)
  unfolding insert_ranked
  sort_ranked [] = []
  sort_ranked (e ∷ es) = insert_ranked e (sort_ranked es)

  -- The views of the entries, in the order of the sort key.
  unfoldable pub ranked_views : List (Entry S) → List KnowledgeChunkView
  unfolding sort_ranked
  ranked_views es = map (λ e. e.view) (sort_ranked es)

  unfoldable pub reciprocal_rank_fusion :
      ℕ → List (List KnowledgeChunkView) → Result RetrievalError (List KnowledgeChunkView)
  unfolding add_lists ranked_views
  reciprocal_rank_fusion k lists =
      require (leb 1 k) rrf_k_out_of_range >> ok (ranked_views (add_lists k lists []))
