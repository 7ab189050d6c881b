-- ===== src/Knowledge/Ranking/Fusion.antt =====
-- What the fusion keeps and how it orders it
-- (src/hisiem_soc_copilot/application/services/knowledge_retrieval.py `reciprocal_rank_fusion`).
use hisiem_soc_copilot.Knowledge.{KnowledgeChunkView}
use hisiem_soc_copilot.Knowledge.Ranking.{
  Scores, Entry, add_score, add_list, add_lists, insert_ranked, sort_ranked, ranked_views,
  reciprocal_rank_fusion,
}
use hisiem_soc_copilot.Prelude.{
  ℕ, ◌+◌, ◌≤◌, ◌<◌, ◌≡◌, refl, ◌∙◌, Bool, true, false, not, ◌&&◌, ◌||◌, List, [], ◌∷◌, ◌==◌, arith,
  map, ok,
}

-- The chunk is among the views.
unfoldable pub has_chunk : ℕ → List KnowledgeChunkView → Bool
has_chunk c [] = false
has_chunk c (v ∷ vs) = c == v.chunk_id || has_chunk c vs

unfoldable pub distinct_chunks : List KnowledgeChunkView → Bool
unfolding has_chunk
distinct_chunks [] = true
distinct_chunks (v ∷ vs) = not (has_chunk v.chunk_id vs) && distinct_chunks vs

unfoldable pub has_chunk_in : ℕ → List (List KnowledgeChunkView) → Bool
unfolding has_chunk
has_chunk_in c [] = false
has_chunk_in c (l ∷ ls) = has_chunk c l || has_chunk_in c ls

-- Ranks up to this one have reciprocals that floating point tells apart.
abbrev pub rank_bound : ℕ
rank_bound = 1000000

module _ {S : Type 0} (o : Scores S) where
  -- What IEEE arithmetic gives: zero is neutral, and a smaller rank scores strictly more.
  pub record IsLawful : Type 0 where
    pub plus_nothing : (s : S) → o.plus o.nothing s ≡ s
    pub above_reciprocal :
        (n m : ℕ) → n < m → m ≤ rank_bound → o.above (o.reciprocal n) (o.reciprocal m) ≡ true
    pub not_above_reciprocal :
        (n m : ℕ) → n < m → m ≤ rank_bound → o.above (o.reciprocal m) (o.reciprocal n) ≡ false

  abbrev views_of : List (Entry S) → List KnowledgeChunkView
  views_of es = map (λ e. e.view) es

  has_chunk-add_score :
      (c : ℕ) (v : KnowledgeChunkView) (s : S) (es : List (Entry S))
      → has_chunk c (views_of (add_score o v s es)) ≡ (has_chunk c (views_of es) || c == v.chunk_id)
  unfolding has_chunk add_score
  has_chunk-add_score c v s [] = ground arith
  has_chunk-add_score c v s (e ∷ es) = ground (arith, has_chunk-add_score c v s es)

  distinct-add_score :
      (v : KnowledgeChunkView) (s : S) (es : List (Entry S))
      → distinct_chunks (views_of es) ≡ true
      → distinct_chunks (views_of (add_score o v s es)) ≡ true
  unfolding distinct_chunks has_chunk add_score
  distinct-add_score v s [] h = refl
  distinct-add_score v s (e ∷ es) h =
      ground (arith, distinct-add_score v s es, has_chunk-add_score e.view.chunk_id v s es)

  has_chunk-add_list :
      (c k rank : ℕ) (l : List KnowledgeChunkView) (es : List (Entry S))
      → has_chunk c (views_of (add_list o k rank l es))
        ≡ (has_chunk c (views_of es) || has_chunk c l)
  unfolding has_chunk add_list
  has_chunk-add_list c k rank [] es = ground arith
  has_chunk-add_list c k rank (v ∷ vs) es =
      let s = o.reciprocal (k + rank) in
      ground (
        arith,
        has_chunk-add_list c k (rank + 1) vs (add_score o v s es),
        has_chunk-add_score c v s es,
      )

  distinct-add_list :
      (k rank : ℕ) (l : List KnowledgeChunkView) (es : List (Entry S))
      → distinct_chunks (views_of es) ≡ true
      → distinct_chunks (views_of (add_list o k rank l es)) ≡ true
  unfolding add_list
  distinct-add_list k rank [] es h = h
  distinct-add_list k rank (v ∷ vs) es h =
      let s = o.reciprocal (k + rank) in
      distinct-add_list k (rank + 1) vs (add_score o v s es) (distinct-add_score v s es h)

  has_chunk-add_lists :
      (c k : ℕ) (ls : List (List KnowledgeChunkView)) (es : List (Entry S))
      → has_chunk c (views_of (add_lists o k ls es))
        ≡ (has_chunk c (views_of es) || has_chunk_in c ls)
  unfolding has_chunk_in add_lists
  has_chunk-add_lists c k [] es = ground arith
  has_chunk-add_lists c k (l ∷ ls) es =
      ground
        (arith, has_chunk-add_lists c k ls (add_list o k 1 l es), has_chunk-add_list c k 1 l es)

  distinct-add_lists :
      (k : ℕ) (ls : List (List KnowledgeChunkView)) (es : List (Entry S))
      → distinct_chunks (views_of es) ≡ true
      → distinct_chunks (views_of (add_lists o k ls es)) ≡ true
  unfolding add_lists
  distinct-add_lists k [] es h = h
  distinct-add_lists k (l ∷ ls) es h =
      distinct-add_lists k ls (add_list o k 1 l es) (distinct-add_list k 1 l es h)

  has_chunk-insert :
      (c : ℕ) (e : Entry S) (es : List (Entry S))
      → has_chunk c (views_of (insert_ranked o e es))
        ≡ (c == e.view.chunk_id || has_chunk c (views_of es))
  unfolding has_chunk insert_ranked
  has_chunk-insert c e [] = refl
  has_chunk-insert c e (f ∷ fs) = ground (arith, has_chunk-insert c e fs)

  distinct-insert :
      (e : Entry S) (es : List (Entry S))
      → has_chunk e.view.chunk_id (views_of es) ≡ false
      → distinct_chunks (views_of es) ≡ true
      → distinct_chunks (views_of (insert_ranked o e es)) ≡ true
  unfolding distinct_chunks has_chunk insert_ranked
  distinct-insert e [] h k = refl
  distinct-insert e (f ∷ fs) h k =
      ground (arith, distinct-insert e fs, has_chunk-insert f.view.chunk_id e fs)

  has_chunk-sort :
      (c : ℕ) (es : List (Entry S))
      → has_chunk c (views_of (sort_ranked o es)) ≡ has_chunk c (views_of es)
  unfolding has_chunk sort_ranked
  has_chunk-sort c [] = refl
  has_chunk-sort c (e ∷ es) =
      ground (arith, has_chunk-sort c es, has_chunk-insert c e (sort_ranked o es))

  distinct-sort :
      (es : List (Entry S))
      → distinct_chunks (views_of es) ≡ true
      → distinct_chunks (views_of (sort_ranked o es)) ≡ true
  unfolding distinct_chunks sort_ranked
  distinct-sort [] h = refl
  distinct-sort (e ∷ es) h = ground (
    arith,
    distinct-sort es,
    distinct-insert e (sort_ranked o es),
    has_chunk-sort e.view.chunk_id es,
  )

  -- A fusion that returns has no chunk twice, and has a chunk exactly when one of the ranked lists
  -- has it.
  pub reciprocal_rank_fusion_lem :
      (k : ℕ) (lists : List (List KnowledgeChunkView)) (vs : List KnowledgeChunkView)
      → reciprocal_rank_fusion o k lists ≡ ok vs
      → (distinct_chunks vs ≡ true) × ((c : ℕ) → has_chunk c vs ≡ has_chunk_in c lists)
  unfolding reciprocal_rank_fusion ranked_views
  reciprocal_rank_fusion_lem k lists vs h =
      let es = add_lists o k lists [] in
      let d : distinct_chunks (views_of es) ≡ true =
        distinct-add_lists k lists [] (unfold distinct_chunks in refl) in
      let e : views_of (sort_ranked o es) ≡ vs = ground arith in
      (
        rw (← e) (distinct-sort es d),
        λ c.
            rw (← e)
              (has_chunk-sort c es ∙ has_chunk-add_lists c k lists [] ∙ unfold has_chunk in refl),
      )
