-- ===== src/Knowledge/Ranking/SingleList.antt =====
-- The fusion of one ranked list is the list
-- (src/hisiem_soc_copilot/application/services/knowledge_retrieval.py `reciprocal_rank_fusion`).
use mathlib.Core.List.{append_assoc, append-nil}
use hisiem_soc_copilot.Knowledge.{KnowledgeChunkView}
use hisiem_soc_copilot.Knowledge.Ranking.{
  Scores, Entry, add_score, add_list, add_lists, ranks_before, insert_ranked, sort_ranked,
  ranked_views, reciprocal_rank_fusion,
}
use hisiem_soc_copilot.Knowledge.Ranking.Fusion.{IsLawful, rank_bound, has_chunk, distinct_chunks}
use hisiem_soc_copilot.Prelude.{
  ℕ, ◌+◌, ◌≤◌, ◌≡◌, refl, sym, ap, ◌∙◌, true, false, List, [], ◌∷◌, ◌++◌, ◌==◌, leb, arith, length,
  map, ok,
}

module _ {S : Type 0} (o : Scores S) (h : IsLawful o) where
  -- The entries of the list, each with the score of its rank.
  scored : ℕ → ℕ → List KnowledgeChunkView → List (Entry S)
  scored k rank [] = []
  scored k rank (v ∷ vs) =
      record { view = v; score = o.reciprocal (k + rank) } ∷ scored k (rank + 1) vs

  views_of-append :
      (es : List (Entry S)) (e : Entry S) (c : ℕ)
      → has_chunk c (map (λ x. x.view) es) ≡ false
      → (c == e.view.chunk_id) ≡ false
      → has_chunk c (map (λ x. x.view) (es ++ (e ∷ []))) ≡ false
  unfolding has_chunk
  views_of-append [] e c p q = ground arith
  views_of-append (x ∷ es) e c p q = ground (arith, views_of-append es e c)

  add_score-fresh :
      (v : KnowledgeChunkView) (s : S) (es : List (Entry S))
      → has_chunk v.chunk_id (map (λ x. x.view) es) ≡ false
      → add_score o v s es ≡ es ++ (record { view = v; score = s } ∷ [])
  unfolding has_chunk add_score
  add_score-fresh v s [] p = rw (h.plus_nothing s) refl
  add_score-fresh v s (e ∷ es) p = ground (arith, add_score-fresh v s es)

  -- None of the views is among the entries.
  abbrev AreFresh : List KnowledgeChunkView → List (Entry S) → Type 0
  AreFresh [] es = Unit
  AreFresh (v ∷ vs) es = (has_chunk v.chunk_id (map (λ x. x.view) es) ≡ false) × AreFresh vs es

  AreFresh-append :
      (vs : List KnowledgeChunkView) (es : List (Entry S)) (e : Entry S)
      → AreFresh vs es
      → has_chunk e.view.chunk_id vs ≡ false
      → AreFresh vs (es ++ (e ∷ []))
  unfolding has_chunk
  AreFresh-append [] es e p q = tt
  AreFresh-append (v ∷ vs) es e p q = (
    views_of-append es e v.chunk_id p.0 (ground arith),
    AreFresh-append vs es e p.1 (ground arith),
  )

  add_list_lem :
      (k rank : ℕ) (l : List KnowledgeChunkView) (es : List (Entry S))
      → distinct_chunks l ≡ true
      → AreFresh l es
      → add_list o k rank l es ≡ es ++ scored k rank l
  unfolding add_list scored distinct_chunks
  add_list_lem k rank [] es d p = sym (append-nil es)
  add_list_lem k rank (v ∷ vs) es d p =
      let s = o.reciprocal (k + rank) in
      let e : Entry S = record { view = v; score = s } in
      ap (add_list o k (rank + 1) vs) (add_score-fresh v s es p.0)
      ∙ add_list_lem k (rank + 1) vs (es ++ (e ∷ [])) (ground arith)
          (AreFresh-append vs es e p.1 (ground arith))
      ∙ append_assoc es (e ∷ []) (scored k (rank + 1) vs)

  insert-scored :
      (k rank : ℕ) (v : KnowledgeChunkView) (vs : List KnowledgeChunkView)
      → k + (rank + length vs) ≤ rank_bound
      → insert_ranked o
          (record { view = v; score = o.reciprocal (k + rank) })
          (scored k (rank + 1) vs)
        ≡ record { view = v; score = o.reciprocal (k + rank) } ∷ scored k (rank + 1) vs
  unfolding insert_ranked ranks_before scored
  insert-scored k rank v [] b = refl
  insert-scored k rank v (w ∷ ws) b = ground (
    arith,
    h.above_reciprocal (k + rank) (k + (rank + 1)),
    h.not_above_reciprocal (k + rank) (k + (rank + 1)),
  )

  sort-scored :
      (k rank : ℕ) (vs : List KnowledgeChunkView)
      → k + (rank + length vs) ≤ rank_bound
      → sort_ranked o (scored k rank vs) ≡ scored k rank vs
  unfolding sort_ranked scored
  sort-scored k rank [] b = refl
  sort-scored k rank (v ∷ vs) b =
      rw (sort-scored k (rank + 1) vs (omega arith)) (insert-scored k rank v vs (omega arith))

  views_of-scored :
      (k rank : ℕ) (vs : List KnowledgeChunkView) → map (λ e. e.view) (scored k rank vs) ≡ vs
  unfolding scored
  views_of-scored k rank [] = refl
  views_of-scored k rank (v ∷ vs) = ap (λ r. v ∷ r) (views_of-scored k (rank + 1) vs)

  all_fresh : (l : List KnowledgeChunkView) → AreFresh l []
  unfolding has_chunk
  all_fresh [] = tt
  all_fresh (v ∷ vs) = (refl, all_fresh vs)

  -- With scores for which zero is neutral and a smaller rank, up to a million, has the larger
  -- reciprocal, a constant of at least 1, and ranks that stay below that bound, the fusion of one
  -- list of distinct chunks is the list.
  pub reciprocal_rank_fusion_single :
      (k : ℕ) (l : List KnowledgeChunkView)
      → 1 ≤ k
      → k + (1 + length l) ≤ rank_bound
      → distinct_chunks l ≡ true
      → reciprocal_rank_fusion o k (l ∷ []) ≡ ok l
  unfolding reciprocal_rank_fusion add_lists ranked_views
  reciprocal_rank_fusion_single k l p b d =
      let e : map (λ x. x.view) (sort_ranked o (add_list o k 1 l [])) ≡ l =
        ap (λ es. map (λ x. x.view) (sort_ranked o es)) (add_list_lem k 1 l [] d (all_fresh l))
        ∙ ap (map (λ x. x.view)) (sort-scored k 1 l b)
        ∙ views_of-scored k 1 l in
      let t : leb 1 k ≡ true = ground arith in rw (t, e) refl
