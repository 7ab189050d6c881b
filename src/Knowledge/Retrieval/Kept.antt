-- ===== src/Knowledge/Retrieval/Kept.antt =====
-- What holds of the candidates holds of the fused and the diversified views
-- (src/hisiem_soc_copilot/application/services/knowledge_retrieval.py
-- `reciprocal_rank_fusion`, `diversify`).
use mathlib.Core.Path.{subst}
use hisiem_soc_copilot.Knowledge.{KnowledgeChunkView}
use hisiem_soc_copilot.Knowledge.Ranking.{
  Scores, Entry, add_score, add_list, add_lists, insert_ranked, sort_ranked, ranked_views,
  reciprocal_rank_fusion,
}
use hisiem_soc_copilot.Knowledge.Diversification.{diversify}
use hisiem_soc_copilot.Knowledge.Diversification.Reference.{within_cap, over_cap, diversify_lem}
use hisiem_soc_copilot.Prelude.{
  ℕ, ◌+◌, ◌≡◌, List, [], ◌∷◌, ◌++◌, arith, map, All, All-take, All-append, ok,
}

module _ (P : KnowledgeChunkView → Type 0) where
  abbrev AllViews : {S : Type 0} → List (Entry S) → Type 0
  AllViews es = All (λ e. P e.view) es

  AllViews-add_score :
      {S : Type 0} (o : Scores S) (v : KnowledgeChunkView) (s : S) (es : List (Entry S))
      → P v
      → AllViews es
      → AllViews (add_score o v s es)
  unfolding add_score
  AllViews-add_score o v s [] p h = (p, tt)
  AllViews-add_score o v s (e ∷ es) p h =
      ground (arith, AllViews-add_score o v s es p h.1, h.0, h.1)

  AllViews-add_list :
      {S : Type 0} (o : Scores S) (k rank : ℕ) (vs : List KnowledgeChunkView) (es : List (Entry S))
      → All P vs
      → AllViews es
      → AllViews (add_list o k rank vs es)
  unfolding add_list
  AllViews-add_list o k rank [] es p h = h
  AllViews-add_list o k rank (v ∷ vs) es p h =
      let s = o.reciprocal (k + rank) in
      AllViews-add_list o k (rank + 1) vs (add_score o v s es) p.1
        (AllViews-add_score o v s es p.0 h)

  AllViews-add_lists :
      {S : Type 0} (o : Scores S) (k : ℕ) (ls : List (List KnowledgeChunkView))
      (es : List (Entry S))
      → All (All P) ls
      → AllViews es
      → AllViews (add_lists o k ls es)
  unfolding add_lists
  AllViews-add_lists o k [] es p h = h
  AllViews-add_lists o k (l ∷ ls) es p h =
      AllViews-add_lists o k ls (add_list o k 1 l es) p.1 (AllViews-add_list o k 1 l es p.0 h)

  AllViews-insert :
      {S : Type 0} (o : Scores S) (e : Entry S) (es : List (Entry S))
      → P e.view
      → AllViews es
      → AllViews (insert_ranked o e es)
  unfolding insert_ranked
  AllViews-insert o e [] p h = (p, tt)
  AllViews-insert o e (f ∷ fs) p h = ground (arith, AllViews-insert o e fs p h.1, h.0, h.1)

  All-sort :
      {S : Type 0} (o : Scores S) (es : List (Entry S)) → AllViews es → AllViews (sort_ranked o es)
  unfolding sort_ranked
  All-sort o [] h = tt
  All-sort o (e ∷ es) h = AllViews-insert o e (sort_ranked o es) h.0 (All-sort o es h.1)

  All-views : {S : Type 0} (es : List (Entry S)) → AllViews es → All P (map (λ e. e.view) es)
  All-views [] h = tt
  All-views (e ∷ es) h = (h.0, All-views es h.1)

  -- The fusion of lists of such views is a list of such views.
  pub All-fusion :
      {S : Type 0} (o : Scores S) (k : ℕ) (ls : List (List KnowledgeChunkView))
      (vs : List KnowledgeChunkView)
      → All (All P) ls
      → reciprocal_rank_fusion o k ls ≡ ok vs
      → All P vs
  unfolding reciprocal_rank_fusion ranked_views
  All-fusion o k ls vs p h =
      let all_ranked : All P (map (λ e. e.view) (sort_ranked o (add_lists o k ls []))) =
        All-views (sort_ranked o (add_lists o k ls []))
          (All-sort o (add_lists o k ls []) (AllViews-add_lists o k ls [] p tt)) in
      let e : map (λ x. x.view) (sort_ranked o (add_lists o k ls [])) ≡ vs = ground arith in
      subst (All P) (e) all_ranked

  All-within :
      (most : ℕ) (vs earlier : List KnowledgeChunkView)
      → All P vs
      → All P (within_cap most earlier vs)
  unfolding within_cap
  All-within most [] earlier h = tt
  All-within most (v ∷ vs) earlier h = ground (arith, All-within most vs (v ∷ earlier) h.1, h.0)

  All-over :
      (most : ℕ) (vs earlier : List KnowledgeChunkView)
      → All P vs
      → All P (over_cap most earlier vs)
  unfolding over_cap
  All-over most [] earlier h = tt
  All-over most (v ∷ vs) earlier h = ground (arith, All-over most vs (v ∷ earlier) h.1, h.0)

  pub All-diversify :
      (ranked : List KnowledgeChunkView) (limit most : ℕ)
      → All P ranked
      → All P (diversify ranked limit most).views
  All-diversify ranked limit most h = rw (diversify_lem ranked limit most) (
      All-take P limit (within_cap most [] ranked ++ over_cap most [] ranked) (
        All-append P (within_cap most [] ranked) (over_cap most [] ranked)
          (All-within most ranked [] h) (All-over most ranked [] h)))
