-- ===== src/Knowledge/Query/SearchTerms.antt =====
-- The terms of the lexical channel are the words of the query, each once
-- (src/hisiem_soc_copilot/application/services/knowledge_retrieval.py `build_search_terms`).
use hisiem_soc_copilot.Knowledge.{KnowledgeQuery, too_many_search_terms}
use hisiem_soc_copilot.Knowledge.Texts.{Text, words, contains, text_eq, eq_of_text_eq}
use hisiem_soc_copilot.Knowledge.Query.{
  add_new, add_tokens, add_parts, build_search_terms, max_search_terms,
}
use hisiem_soc_copilot.Knowledge.Query.Normalized.{
  distinct_texts, distinct-add_new, contains-append,
}
use hisiem_soc_copilot.Prelude.{
  ◌≤◌, ◌≡◌, refl, ◌∙◌, inl, inr, Bool, true, false, ◌||◌, List, [], ◌∷◌, leb, arith, Bool-cases,
  length, ok, ◌>>◌, require,
}

-- The text is a word of one of the parts.
unfoldable pub is_word_of : Text → List Text → Bool
unfolding contains words
is_word_of w [] = false
is_word_of w (part ∷ parts) = contains w (words part) || is_word_of w parts

contains_of_text_eq :
    (w t : Text) (ts : List Text) → contains t ts ≡ true → text_eq w t ≡ true → contains w ts ≡ true
contains_of_text_eq w t ts h e = rw (eq_of_text_eq w t e) h

contains-add_new :
    (w t : Text) (ts : List Text) → contains w (add_new t ts) ≡ (contains w ts || text_eq w t)
contains-add_new w t ts = elim (Bool-cases (contains t ts)) [
  | inl e ↦ rw e (ground (arith, contains_of_text_eq w t ts e))
  | inr e ↦ rw e (contains-append w t ts)
]

contains-add_tokens :
    (w : Text) (tokens ts : List Text)
    → contains w (add_tokens tokens ts) ≡ (contains w ts || contains w tokens)
contains-add_tokens w [] ts = unfold add_tokens contains in ground arith
contains-add_tokens w (t ∷ tokens) ts =
    tokens_step (contains-add_tokens w tokens (add_new t ts)) (contains-add_new w t ts)
  where
    tokens_step :
        contains w (add_tokens tokens (add_new t ts))
          ≡ (contains w (add_new t ts) || contains w tokens)
        → contains w (add_new t ts) ≡ (contains w ts || text_eq w t)
        → contains w (add_tokens (t ∷ tokens) ts) ≡ (contains w ts || contains w (t ∷ tokens))
    tokens_step h k = unfold add_tokens contains in ground (arith, h, k)

distinct-add_tokens :
    (tokens ts : List Text)
    → distinct_texts ts ≡ true
    → distinct_texts (add_tokens tokens ts) ≡ true
unfolding add_tokens
distinct-add_tokens [] ts h = h
distinct-add_tokens (t ∷ tokens) ts h =
    distinct-add_tokens tokens (add_new t ts) (distinct-add_new t ts h)

contains-add_parts :
    (w : Text) (parts ts : List Text)
    → contains w (add_parts parts ts) ≡ (contains w ts || is_word_of w parts)
unfolding add_parts is_word_of
contains-add_parts w [] ts = ground arith
contains-add_parts w (part ∷ parts) ts = ground (
  arith,
  contains-add_parts w parts (add_tokens (words part) ts),
  contains-add_tokens w (words part) ts,
)

distinct-add_parts :
    (parts ts : List Text) → distinct_texts ts ≡ true → distinct_texts (add_parts parts ts) ≡ true
unfolding add_parts
distinct-add_parts [] ts h = h
distinct-add_parts (part ∷ parts) ts h =
    distinct-add_parts parts (add_tokens (words part) ts) (distinct-add_tokens (words part) ts h)

-- The search terms that are returned are 96 at most and all different, and a text is one of them
-- exactly when it is a word of the topic or of a context term.
pub build_search_terms_lem :
    (q : KnowledgeQuery) (terms : List Text)
    → build_search_terms q ≡ ok terms
    → (length terms ≤ max_search_terms)
      × (distinct_texts terms ≡ true)
      × ((w : Text) → contains w terms ≡ is_word_of w (q.topic ∷ q.context_terms))
unfolding build_search_terms
build_search_terms_lem q terms e =
    let found = add_parts (q.topic ∷ q.context_terms) [] in
    let l : (leb (length found) max_search_terms ≡ true) × (found ≡ terms) = parts found e in
    rw (← l.1) (
      ground (arith, l.0),
      distinct-add_parts (q.topic ∷ q.context_terms) [] (unfold distinct_texts in refl),
      λ w. contains-add_parts w (q.topic ∷ q.context_terms) [] ∙ unfold contains in refl,
    )
  where
    parts :
        (found : List Text)
        → (require (leb (length found) max_search_terms) too_many_search_terms >> ok found)
          ≡ ok terms
        → (leb (length found) max_search_terms ≡ true) × (found ≡ terms)
    parts found h = ground arith
