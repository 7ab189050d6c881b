-- ===== src/Knowledge/Query/Again.antt =====
-- A normalized query, and normalizing it again
-- (src/hisiem_soc_copilot/application/services/knowledge_retrieval.py `normalize_query`).
use hisiem_soc_copilot.Knowledge.{
  KnowledgeQuery, limit_out_of_range, topic_empty, topic_too_long, max_result_limit,
}
use hisiem_soc_copilot.Knowledge.Texts.{Text, collapse_whitespace, contains, text_eq}
use hisiem_soc_copilot.Knowledge.Query.{
  normalize_topic, add_term, add_terms, bound_terms, normalize_context_terms, normalize_query,
  max_topic_chars, max_context_terms, max_context_term_chars,
}
use hisiem_soc_copilot.Knowledge.Query.Normalized.{
  IsTerm, AreTerms, add_terms-AreTerms, distinct_texts, collapse_twice, text_eq_comm,
}
use mathlib.Core.List.{append_assoc, append-nil}
use hisiem_soc_copilot.Prelude.{
  ◌≤◌, ◌≡◌, refl, sym, ap, ◌∙◌, true, false, not, ◌&&◌, List, [], ◌∷◌, ◌++◌, leb, ltb, arith, All,
  length, is_empty, ok, ◌>>◌, require, >>=-ok, require-ok,
}

-- Within the bounds: the limit, the topic, and the terms, which are all different.
pub record IsNormalized (q : KnowledgeQuery) : Type 0 where
  pub limit_pos : 1 ≤ q.limit
  pub limit_bound : q.limit ≤ max_result_limit
  pub topic_nonempty : is_empty q.topic ≡ false
  pub topic_bound : length q.topic ≤ max_topic_chars
  pub topic_collapsed : collapse_whitespace q.topic ≡ q.topic
  pub terms : AreTerms q.context_terms
  pub terms_bound : length q.context_terms ≤ max_context_terms

normalize_topic_lem :
    (nfc : Text → Text) (topic t : Text)
    → normalize_topic nfc topic ≡ ok t
    → (is_empty t ≡ false) × (length t ≤ max_topic_chars) × (collapse_whitespace t ≡ t)
unfolding normalize_topic
normalize_topic_lem nfc topic t e =
    let c = collapse_whitespace (nfc topic) in
    let l : (not (is_empty c) ≡ true) × (leb (length c) max_topic_chars ≡ true) × (c ≡ t) =
      parts c e in
    rw (← l.2) (ground (arith, l.0), ground (arith, l.1), collapse_twice (nfc topic))
  where
    parts :
        (c : Text)
        → (require (not (is_empty c)) topic_empty
            >> (require (leb (length c) max_topic_chars) topic_too_long >> ok c))
          ≡ ok t
        → (not (is_empty c) ≡ true) × (leb (length c) max_topic_chars ≡ true) × (c ≡ t)
    parts c h = ground arith

bound_terms_lem :
    (ts us : List Text) → bound_terms ts ≡ ok us → (length us ≤ max_context_terms) × (ts ≡ us)
unfolding bound_terms
bound_terms_lem ts us e = ground arith

-- A normalized query keeps the limit, which is from 1 to 5; its topic is not empty and has 256
-- characters at most; its terms are 12 at most, all different, not empty and of 64 characters at
-- most; and topic and terms have collapsed white space.
pub normalize_query-IsNormalized :
    (nfc : Text → Text) (q q' : KnowledgeQuery)
    → normalize_query nfc q ≡ ok q'
    → IsNormalized q' × (q'.limit ≡ q.limit)
unfolding normalize_query normalize_context_terms
normalize_query-IsNormalized nfc q q' e =
    let l =
      >>=-ok (require (leb 1 q.limit && leb q.limit max_result_limit) limit_out_of_range) _ q' e in
    let t = >>=-ok (normalize_topic nfc q.topic) _ q' l.2 in
    let c = >>=-ok (normalize_context_terms nfc q.context_terms) _ q' t.2 in
    let a = >>=-ok (add_terms nfc q.context_terms []) _ c.0 c.1 in
    let b = bound_terms_lem a.0 c.0 a.2 in
    let limits =
      require-ok (leb 1 q.limit && leb q.limit max_result_limit) limit_out_of_range l.0 l.1 in
    let topic = normalize_topic_lem nfc q.topic t.0 t.1 in
    let terms : AreTerms c.0 =
      rw (← b.1)
        (add_terms-AreTerms nfc q.context_terms [] a.0 (tt, unfold distinct_texts in refl) a.1) in
    let same : (record { topic = t.0; context_terms = c.0; limit = q.limit }) ≡ q' =
      ground (arith, c.2) in
    rw (← same) (
      record {
        limit_pos = ground (arith, limits);
        limit_bound = ground (arith, limits);
        topic_nonempty = topic.0;
        topic_bound = topic.1;
        topic_collapsed = topic.2;
        terms = terms;
        terms_bound = b.0;
      },
      refl,
    )

contains-middle :
    (u t : Text) (acc ts : List Text) → text_eq u t ≡ true → contains u (acc ++ (t ∷ ts)) ≡ true
unfolding contains
contains-middle u t [] ts e = ground arith
contains-middle u t (v ∷ acc) ts e = ground (arith, contains-middle u t acc ts e)

new_in_distinct :
    (t : Text) (acc ts : List Text)
    → distinct_texts (acc ++ (t ∷ ts)) ≡ true
    → contains t acc ≡ false
unfolding distinct_texts contains
new_in_distinct t [] ts h = refl
new_in_distinct t (u ∷ acc) ts h =
    ground (arith, new_in_distinct t acc ts, contains-middle u t acc ts, text_eq_comm t u)

-- Terms that are normalized and different are collected as they are.
add_terms_lem :
    (nfc : Text → Text) (ts acc : List Text)
    → All (λ t. nfc t ≡ t) ts
    → All IsTerm ts
    → distinct_texts (acc ++ ts) ≡ true
    → add_terms nfc ts acc ≡ ok (acc ++ ts)
unfolding add_terms add_term
add_terms_lem nfc [] acc f h d = ap (λ l. ok l) (sym (append-nil acc))
add_terms_lem nfc (t ∷ ts) acc f h d =
    let d' : distinct_texts ((acc ++ (t ∷ [])) ++ ts) ≡ true =
      rw (append_assoc acc (t ∷ []) ts) d in
    let same : collapse_whitespace (nfc t) ≡ t = rw f.0 h.0.2 in
    let long : ltb max_context_term_chars (length t) ≡ false = ground (arith, h.0.1) in
    rw (same, h.0.0, long, new_in_distinct t acc ts d)
      (add_terms_lem nfc ts (acc ++ (t ∷ [])) f.1 h.1 d'
        ∙ ap (λ l. ok l) (append_assoc acc (t ∷ []) ts))

-- Normalizing changes nothing of a query within the bounds whose topic and terms have collapsed
-- white space and are in NFC, and whose terms are all different.
pub normalize_query_again :
    (nfc : Text → Text) (q : KnowledgeQuery)
    → IsNormalized q
    → nfc q.topic ≡ q.topic
    → All (λ t. nfc t ≡ t) q.context_terms
    → normalize_query nfc q ≡ ok q
unfolding normalize_query normalize_topic normalize_context_terms bound_terms
normalize_query_again nfc q h f g =
    let topic : collapse_whitespace (nfc q.topic) ≡ q.topic = rw f h.topic_collapsed in
    rw (topic, add_terms_lem nfc q.context_terms [] g h.terms.0 h.terms.1)
      (ground (arith, h.limit_pos, h.limit_bound, h.topic_nonempty, h.topic_bound, h.terms_bound))
