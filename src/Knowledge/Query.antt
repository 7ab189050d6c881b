-- ===== src/Knowledge/Query.antt =====
-- Query normalization
-- (src/hisiem_soc_copilot/application/services/knowledge_retrieval.py `normalize_query` to
-- `build_search_terms`). `unicodedata.normalize("NFC", ...)` is an argument.
pub mod Normalized
pub mod Again
pub mod SearchTerms
use hisiem_soc_copilot.Knowledge.{
  KnowledgeQuery, RetrievalError, limit_out_of_range, topic_empty, topic_too_long,
  context_term_too_long, too_many_context_terms, too_many_search_terms, max_result_limit,
}
use hisiem_soc_copilot.Knowledge.Texts.{Text, words, collapse_whitespace, contains, join}
use hisiem_soc_copilot.Prelude.{
  ℕ, not, ◌&&◌, ◌||◌, List, [], ◌∷◌, ◌++◌, leb, ltb, if◌then◌else◌, length, is_empty, Result, ok,
  err, ◌>>=◌, ◌>>◌, require,
}

abbrev pub max_topic_chars : ℕ
max_topic_chars = 256

abbrev pub max_context_terms : ℕ
max_context_terms = 12

abbrev pub max_context_term_chars : ℕ
max_context_term_chars = 64

abbrev pub max_search_terms : ℕ
max_search_terms = 96

-- `if item not in items: items.append(item)`
abbrev pub add_new : Text → List Text → List Text
add_new t ts = if contains t ts then ts else ts ++ (t ∷ [])

unfoldable pub normalize_topic : (Text → Text) → Text → Result RetrievalError Text
unfolding collapse_whitespace
normalize_topic nfc topic =
    let normalized = collapse_whitespace (nfc topic) in
    require (not (is_empty normalized)) topic_empty
    >> (require (leb (length normalized) max_topic_chars) topic_too_long >> ok normalized)

-- One round of the loop over the raw terms.
unfoldable pub add_term : Text → List Text → Result RetrievalError (List Text)
unfolding contains
add_term term terms =
    if is_empty term
    then ok terms
    else if ltb max_context_term_chars (length term)
    then err context_term_too_long
    else ok (add_new term terms)

unfoldable pub add_terms : (Text → Text) → List Text → List Text → Result RetrievalError (List Text)
unfolding add_term collapse_whitespace
add_terms nfc [] terms = ok terms
add_terms nfc (raw ∷ raws) terms =
    add_term (collapse_whitespace (nfc raw)) terms >>= λ ts. add_terms nfc raws ts

unfoldable pub bound_terms : List Text → Result RetrievalError (List Text)
bound_terms terms =
    require (leb (length terms) max_context_terms) too_many_context_terms >> ok terms

unfoldable pub normalize_context_terms :
    (Text → Text) → List Text → Result RetrievalError (List Text)
unfolding add_terms bound_terms
normalize_context_terms nfc raws = add_terms nfc raws [] >>= λ ts. bound_terms ts

-- A limit that is not positive stands as zero.
unfoldable pub normalize_query :
    (Text → Text) → KnowledgeQuery → Result RetrievalError KnowledgeQuery
unfolding normalize_topic normalize_context_terms
normalize_query nfc q =
    require (leb 1 q.limit && leb q.limit max_result_limit) limit_out_of_range
    >> (normalize_topic nfc q.topic >>= λ topic.
        normalize_context_terms nfc q.context_terms >>= λ terms.
        ok (record { topic = topic; context_terms = terms; limit = q.limit }))

unfoldable pub build_search_text : KnowledgeQuery → Text
unfolding collapse_whitespace join
build_search_text q = collapse_whitespace (join 32 (q.topic ∷ q.context_terms))

-- The tokens of one part, those not seen before.
unfoldable pub add_tokens : List Text → List Text → List Text
unfolding contains
add_tokens [] terms = terms
add_tokens (token ∷ tokens) terms = add_tokens tokens (add_new token terms)

unfoldable pub add_parts : List Text → List Text → List Text
unfolding add_tokens words
add_parts [] terms = terms
add_parts (part ∷ parts) terms = add_parts parts (add_tokens (words part) terms)

unfoldable pub build_search_terms : KnowledgeQuery → Result RetrievalError (List Text)
unfolding add_parts
build_search_terms q =
    let terms = add_parts (q.topic ∷ q.context_terms) [] in
    require (leb (length terms) max_search_terms) too_many_search_terms >> ok terms
