-- ===== src/Knowledge/Texts.antt =====
-- The text operations that the knowledge services use, over code points: `split`, `" ".join`,
-- `rstrip`, slices and comparison
-- (src/hisiem_soc_copilot/application/services/knowledge_retrieval.py).
use hisiem_soc_copilot.Prelude.{
  ℕ, ◌≡◌, ◌≢◌, refl, ap, ◌∙◌, inl, inr, Bool, true, false, not, List, [], ◌∷◌, ◌++◌, ◌&&◌, ◌==◌,
  ==_iff, ltb, arith, if◌then◌else◌, Bool-cases, All, keep, is_empty, is_space,
}

-- The code points of a text.
abbrev pub Text : Type 0
Text = List ℕ

unfoldable pub text_eq : Text → Text → Bool
text_eq [] [] = true
text_eq (x ∷ xs) (y ∷ ys) = x == y && text_eq xs ys
text_eq _ _ = false

-- `a < b` of two texts.
unfoldable pub text_lt : Text → Text → Bool
text_lt [] [] = false
text_lt [] (y ∷ ys) = true
text_lt (x ∷ xs) [] = false
text_lt (x ∷ xs) (y ∷ ys) = let rest = text_lt xs ys in if x == y then rest else ltb x y

unfoldable pub starts_with : Text → Text → Bool
starts_with xs [] = true
starts_with [] (p ∷ ps) = false
starts_with (x ∷ xs) (p ∷ ps) = x == p && starts_with xs ps

-- `x in xs`
unfoldable pub contains : Text → List Text → Bool
unfolding text_eq
contains t [] = false
contains t (u ∷ us) = if text_eq t u then true else contains t us

abbrev pub push : ℕ → List Text → List Text
push c [] = (c ∷ []) ∷ []
push c (w ∷ ws) = (c ∷ w) ∷ ws

abbrev split_step : Bool → ℕ → List Text → List Text
split_step cut c ws = if cut then [] ∷ ws else push c ws

-- The pieces between the characters that satisfy the test, the empty ones too.
unfoldable pub split_where : (ℕ → Bool) → Text → List Text
split_where p [] = [] ∷ []
split_where p (c ∷ cs) = split_step (p c) c (split_where p cs)

-- `text.split(sep)` for a separator of one character.
unfoldable pub split_on : ℕ → Text → List Text
unfolding split_where
split_on sep = split_where (λ c. c == sep)

-- `text.split()`
unfoldable pub words : Text → List Text
unfolding split_where is_space
words t = keep (λ w. not (is_empty w)) (split_where is_space t)

unfoldable pub join : ℕ → List Text → Text
join sep [] = []
join sep (w ∷ []) = w
join sep (w ∷ v ∷ ws) = w ++ (sep ∷ join sep (v ∷ ws))

unfoldable pub collapse_whitespace : Text → Text
unfolding words join
collapse_whitespace t = join 32 (words t)

-- `text.rstrip()`, for the characters that satisfy the test.
abbrev strip_step : Bool → ℕ → Text → Text
strip_step blank c rest = if blank && is_empty rest then [] else c ∷ rest

unfoldable pub rstrip_where : (ℕ → Bool) → Text → Text
rstrip_where p [] = []
rstrip_where p (c ∷ cs) = strip_step (p c) c (rstrip_where p cs)

pub text_eq_self : (t : Text) → text_eq t t ≡ true
unfolding text_eq
text_eq_self [] = refl
text_eq_self (x ∷ xs) = ground (arith, text_eq_self xs)

pub eq_of_text_eq : (t u : Text) → text_eq t u ≡ true → t ≡ u
unfolding text_eq
eq_of_text_eq [] [] h = refl
eq_of_text_eq [] (y ∷ ys) h = ground arith
eq_of_text_eq (x ∷ xs) [] h = ground arith
eq_of_text_eq (x ∷ xs) (y ∷ ys) h = ground (arith, eq_of_text_eq xs ys)

-- No character of the text satisfies the test.
abbrev pub Avoids : (ℕ → Bool) → Text → Type 0
Avoids p = All (λ c. p c ≡ false)

split_where-Avoids : (p : ℕ → Bool) (w : Text) → Avoids p w → split_where p w ≡ w ∷ []
unfolding split_where
split_where-Avoids p [] h = refl
split_where-Avoids p (c ∷ cs) h = ground (arith, split_where-Avoids p cs h.1, h.0)

split_where-append :
    (p : ℕ → Bool) (w : Text) (sep : ℕ) (rest : Text)
    → Avoids p w
    → p sep ≡ true
    → split_where p (w ++ (sep ∷ rest)) ≡ w ∷ split_where p rest
unfolding split_where
split_where-append p [] sep rest h s = ground arith
split_where-append p (c ∷ cs) sep rest h s =
    ground (arith, split_where-append p cs sep rest h.1 s, h.0)

-- Pieces that the test does not meet are found again by a split at it.
pub split_where-join :
    (p : ℕ → Bool) (sep : ℕ) (w : Text) (ws : List Text)
    → p sep ≡ true
    → All (Avoids p) (w ∷ ws)
    → split_where p (join sep (w ∷ ws)) ≡ w ∷ ws
unfolding join
split_where-join p sep w [] s h = split_where-Avoids p w h.0
split_where-join p sep w (v ∷ ws) s h =
    split_where-append p w sep (join sep (v ∷ ws)) h.0 s
    ∙ ap (λ r. w ∷ r) (split_where-join p sep v ws s h.1)

join-push : (sep c : ℕ) (ws : List Text) → ws ≢ [] → join sep (push c ws) ≡ c ∷ join sep ws
unfolding join
join-push sep c [] h = absurd (h refl)
join-push sep c (w ∷ []) h = refl
join-push sep c (w ∷ v ∷ ws) h = refl

split_where_nonempty : (p : ℕ → Bool) (t : Text) → split_where p t ≢ []
unfolding split_where
split_where_nonempty p [] = λ e. ground (arith, e)
split_where_nonempty p (c ∷ cs) = λ e. ground (arith, e, split_where_nonempty p cs)

-- Joined by the separator, the pieces are the text.
pub join-split_on : (sep : ℕ) (t : Text) → join sep (split_on sep t) ≡ t
unfolding split_on split_where
join-split_on sep [] = unfold join in refl
join-split_on sep (c ∷ cs) = elim (Bool-cases (c == sep)) [
  | inl e ↦ rw e (
      cut (split_where (λ x. x == sep) cs) (split_where_nonempty (λ x. x == sep) cs)
        (join-split_on sep cs) ((==_iff c sep).0 e))
  | inr e ↦ rw e (
      join-push sep c (split_where (λ x. x == sep) cs) (split_where_nonempty (λ x. x == sep) cs)
      ∙ ap (λ r. c ∷ r) (join-split_on sep cs))
]
  where
    cut : (ws : List Text) → ws ≢ [] → join sep ws ≡ cs → c ≡ sep → join sep ([] ∷ ws) ≡ c ∷ cs
    cut [] h e d = absurd (h refl)
    cut (w ∷ ws) h e d = unfold join in ground (arith)
