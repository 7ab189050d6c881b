-- ===== src/Knowledge/Query/Normalized.antt =====
-- What a normalized query satisfies, and that normalizing it again changes nothing
-- (src/hisiem_soc_copilot/application/services/knowledge_retrieval.py `normalize_query`,
-- `build_search_terms`).
use hisiem_soc_copilot.Knowledge.Texts.{
  Text, Avoids, words, split_where, split_where-join, collapse_whitespace, contains, join, text_eq,
  push,
}
use hisiem_soc_copilot.Knowledge.Query.{add_term, add_terms, add_new, max_context_term_chars}
use hisiem_soc_copilot.Prelude.{
  ℕ, ◌≤◌, ◌≡◌, refl, ap, ◌∙◌, inl, inr, Bool, true, false, not, ◌&&◌, ◌||◌, List, [], ◌∷◌, ◌++◌,
  ltb, arith, Bool-cases, All, All-append, keep, length, is_empty, is_space, ok, >>=-ok,
}

-- A word: not empty, and without white space.
abbrev IsWord : Text → Type 0
IsWord w = (is_empty w ≡ false) × Avoids is_space w

split_where-Avoids-All : (p : ℕ → Bool) (t : Text) → All (Avoids p) (split_where p t)
unfolding split_where
split_where-Avoids-All p [] = (tt, tt)
split_where-Avoids-All p (c ∷ cs) = elim (Bool-cases (p c)) [
  | inl e ↦ rw e (blank (split_where p cs) (split_where-Avoids-All p cs))
  | inr e ↦ rw e (pushed c e (split_where p cs) (split_where-Avoids-All p cs))
]
  where
    blank : (ws : List Text) → All (Avoids p) ws → All (Avoids p) ([] ∷ ws)
    blank ws h = (tt, h)

    pushed :
        (d : ℕ) → p d ≡ false → (ws : List Text) → All (Avoids p) ws → All (Avoids p) (push d ws)
    pushed d e [] h = ((e, tt), tt)
    pushed d e (w ∷ ws) h = ((e, h.0), h.1)

kept_words :
    (ws : List Text) → All (Avoids is_space) ws → All IsWord (keep (λ w. not (is_empty w)) ws)
kept_words [] h = tt
kept_words ([] ∷ ws) h = kept_words ws h.1
kept_words ((c ∷ cs) ∷ ws) h = ((refl, h.0), kept_words ws h.1)

words-IsWord : (t : Text) → All IsWord (words t)
unfolding words
words-IsWord t = kept_words (split_where is_space t) (split_where-Avoids-All is_space t)

All-kept : (ws : List Text) → All IsWord ws → keep (λ w. not (is_empty w)) ws ≡ ws
All-kept [] h = refl
All-kept (w ∷ ws) h = rw (h.0.0) (ap (λ r. w ∷ r) (All-kept ws h.1))

All-Avoids : (ws : List Text) → All IsWord ws → All (Avoids is_space) ws
All-Avoids [] h = tt
All-Avoids (w ∷ ws) h = (h.0.1, All-Avoids ws h.1)

-- Words joined by spaces are the words of the joined text.
words-join : (ws : List Text) → All IsWord ws → words (join 32 ws) ≡ ws
words-join [] h = unfold words split_where join in refl
words-join (w ∷ ws) h =
    unfold words in
    (ap (keep (λ x. not (is_empty x)))
        (split_where-join is_space 32 w ws (unfold is_space in refl) (All-Avoids (w ∷ ws) h))
      ∙ All-kept (w ∷ ws) h)

pub collapse_twice :
    (t : Text) → collapse_whitespace (collapse_whitespace t) ≡ collapse_whitespace t
unfolding collapse_whitespace
collapse_twice t = ap (join 32) (words-join (words t) (words-IsWord t))

-- A context term that normalization leaves alone.
abbrev pub IsTerm : Text → Type 0
IsTerm t = (is_empty t ≡ false) × (length t ≤ max_context_term_chars) × (collapse_whitespace t ≡ t)

-- No text twice.
unfoldable pub distinct_texts : List Text → Bool
unfolding contains
distinct_texts [] = true
distinct_texts (t ∷ ts) = not (contains t ts) && distinct_texts ts

pub contains-append :
    (t u : Text) (ts : List Text) → contains t (ts ++ (u ∷ [])) ≡ (contains t ts || text_eq t u)
unfolding contains
contains-append t u [] = ground arith
contains-append t u (v ∷ ts) = ground (arith, contains-append t u ts)

pub text_eq_comm : (a b : Text) → text_eq a b ≡ text_eq b a
unfolding text_eq
text_eq_comm [] [] = refl
text_eq_comm [] (y ∷ ys) = refl
text_eq_comm (x ∷ xs) [] = refl
text_eq_comm (x ∷ xs) (y ∷ ys) = ground (arith, text_eq_comm xs ys)

distinct-append :
    (t : Text) (ts : List Text)
    → contains t ts ≡ false
    → distinct_texts ts ≡ true
    → distinct_texts (ts ++ (t ∷ [])) ≡ true
unfolding distinct_texts contains
distinct-append t [] h k = refl
distinct-append t (u ∷ ts) h k =
    ground (arith, distinct-append t ts, contains-append u t ts, text_eq_comm t u)

pub distinct-add_new :
    (t : Text) (ts : List Text) → distinct_texts ts ≡ true → distinct_texts (add_new t ts) ≡ true
distinct-add_new t ts h = elim (Bool-cases (contains t ts)) [
  | inl e ↦ rw e h
  | inr e ↦ rw e (distinct-append t ts e h)
]

All-add_new :
    (P : Text → Type 0) (t : Text) (ts : List Text) → P t → All P ts → All P (add_new t ts)
All-add_new P t ts p h = elim (Bool-cases (contains t ts)) [
  | inl e ↦ rw e h
  | inr e ↦ rw e (All-append P ts (t ∷ []) h (p, tt))
]

abbrev pub AreTerms : List Text → Type 0
AreTerms ts = All IsTerm ts × (distinct_texts ts ≡ true)

add_term-AreTerms :
    (term : Text) (ts us : List Text)
    → collapse_whitespace term ≡ term
    → AreTerms ts
    → add_term term ts ≡ ok us
    → AreTerms us
unfolding add_term
add_term-AreTerms term ts us c h e = elim (Bool-cases (is_empty term)) [
  | inl t ↦ let same : ts ≡ us = ground (arith, rw t at e) in rw (← same) h
  | inr f ↦ elim (Bool-cases (ltb max_context_term_chars (length term))) [
    | inl t ↦ absurd (ground (arith, rw (f, t) at e))
    | inr g ↦
        let same : add_new term ts ≡ us = ground (arith, rw (f, g) at e) in
        rw (← same)
          (All-add_new IsTerm term ts (f, ground arith, c) h.0, distinct-add_new term ts h.1)
  ]
]

pub add_terms-AreTerms :
    (nfc : Text → Text) (raws ts us : List Text)
    → AreTerms ts
    → add_terms nfc raws ts ≡ ok us
    → AreTerms us
unfolding add_terms
add_terms-AreTerms nfc [] ts us h e = let same : ts ≡ us = ground arith in rw (← same) h
add_terms-AreTerms nfc (raw ∷ raws) ts us h e =
    let got =
      >>=-ok (add_term (collapse_whitespace (nfc raw)) ts) (λ vs. add_terms nfc raws vs) us e in
    add_terms-AreTerms nfc raws got.0 us
      (add_term-AreTerms (collapse_whitespace (nfc raw)) ts got.0 (collapse_twice (nfc raw)) h
        got.1)
      got.2
