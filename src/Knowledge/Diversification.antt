-- ===== src/Knowledge/Diversification.antt =====
-- The diversification of a ranking and the excerpt of a chunk
-- (src/hisiem_soc_copilot/application/services/knowledge_retrieval.py `diversify`,
-- `build_excerpt`).
pub mod Reference
use hisiem_soc_copilot.Knowledge.{KnowledgeChunkView}
use hisiem_soc_copilot.Knowledge.Texts.{Text, collapse_whitespace, rstrip_where}
use hisiem_soc_copilot.Prelude.{
  ℕ, suc, ◌+◌, Bool, List, [], ◌∷◌, ◌++◌, ◌==◌, ltb, leb, if◌then◌else◌, length, take, is_space,
}

pub record DiversificationOutcome : Type 0 where
  pub views : List KnowledgeChunkView
  pub truncated : Bool

-- The local state of the first pass.
pub record Pass : Type 0 where
  pub selected : List KnowledgeChunkView
  pub deferred : List KnowledgeChunkView
  pub per_document : ℕ → ℕ

unfoldable pub place : ℕ → KnowledgeChunkView → Pass → Pass
place max_per_document view p =
    let used = p.per_document view.document_id in
    if ltb used max_per_document
    then record p {
      selected = p.selected ++ (view ∷ []);
      per_document = λ d. if d == view.document_id then used + 1 else p.per_document d;
    }
    else record p { deferred = p.deferred ++ (view ∷ []) }

unfoldable pub first_pass : ℕ → ℕ → List KnowledgeChunkView → Pass → Pass
unfolding place
first_pass limit max_per_document [] p = p
first_pass limit max_per_document (view ∷ views) p =
    let rest = first_pass limit max_per_document views (place max_per_document view p) in
    if leb limit (length p.selected) then p else rest

unfoldable pub second_pass :
    ℕ → List KnowledgeChunkView → List KnowledgeChunkView → List KnowledgeChunkView
second_pass limit [] selected = selected
second_pass limit (view ∷ views) selected =
    let rest = second_pass limit views (selected ++ (view ∷ [])) in
    if leb limit (length selected) then selected else rest

abbrev pub no_pass : Pass
no_pass = record { selected = []; deferred = []; per_document = λ d. 0 }

-- What the second pass adds, where the first left the page short.
unfoldable pub fill : ℕ → Pass → List KnowledgeChunkView
unfolding second_pass
fill limit p =
    if ltb (length p.selected) limit then second_pass limit p.deferred p.selected else p.selected

abbrev pub outcome : List KnowledgeChunkView → List KnowledgeChunkView → DiversificationOutcome
outcome ranked views = record { views = views; truncated = ltb (length views) (length ranked) }

unfoldable pub diversify : List KnowledgeChunkView → ℕ → ℕ → DiversificationOutcome
unfolding first_pass fill
diversify ranked limit max_per_document =
    outcome ranked (fill limit (first_pass limit max_per_document ranked no_pass))

abbrev pub max_excerpt_chars : ℕ
max_excerpt_chars = 480

unfoldable pub build_excerpt : Text → ℕ → Text
unfolding collapse_whitespace rstrip_where
build_excerpt content limit =
    let collapsed = collapse_whitespace content in
    if leb (length collapsed) limit
    then collapsed
    else rstrip_where is_space (take limit collapsed) ++ (0x2026 ∷ [])
