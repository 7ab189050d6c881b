-- ===== src/Knowledge/Diversification/Reference.antt =====
-- The diversification against its description without a loop: the first views of each document
-- come first, the others after them, and the page is cut at the limit
-- (src/hisiem_soc_copilot/application/services/knowledge_retrieval.py `diversify`,
-- `build_excerpt`).
use mathlib.Core.List.{append_assoc, append-nil}
use hisiem_soc_copilot.Knowledge.{KnowledgeChunkView}
use hisiem_soc_copilot.Knowledge.Texts.{Text, rstrip_where, collapse_whitespace}
use hisiem_soc_copilot.Knowledge.Diversification.{
  Pass, place, first_pass, second_pass, no_pass, fill, diversify, build_excerpt,
}
use hisiem_soc_copilot.Prelude.{
  ℕ, zero, suc, ◌+◌, ◌-◌, ◌≤◌, ◌<◌, ◌≡◌, refl, sym, ap, ◌∙◌, inl, inr, Bool, true, min, List, [],
  ◌∷◌, ◌++◌, ◌==◌, ltb, leb, arith, if◌then◌else◌, Bool-cases, length, take, take-nil,
  length-append, length-take-le, is_space,
}

-- How many of the views are of the document.
unfoldable count_of : ℕ → List KnowledgeChunkView → ℕ
count_of d [] = 0
count_of d (v ∷ vs) = if d == v.document_id then suc (count_of d vs) else count_of d vs

-- The views that fewer than `most` of the earlier ones share the document of, and the others.
unfoldable pub within_cap :
    ℕ → List KnowledgeChunkView → List KnowledgeChunkView → List KnowledgeChunkView
unfolding count_of
within_cap most earlier [] = []
within_cap most earlier (v ∷ vs) =
    if ltb (count_of v.document_id earlier) most
    then v ∷ within_cap most (v ∷ earlier) vs
    else within_cap most (v ∷ earlier) vs

unfoldable pub over_cap :
    ℕ → List KnowledgeChunkView → List KnowledgeChunkView → List KnowledgeChunkView
unfolding count_of
over_cap most earlier [] = []
over_cap most earlier (v ∷ vs) =
    if ltb (count_of v.document_id earlier) most
    then over_cap most (v ∷ earlier) vs
    else v ∷ over_cap most (v ∷ earlier) vs

-- The first pass has counted each document of the earlier views, up to the most.
abbrev Counts : ℕ → List KnowledgeChunkView → Pass → Type 0
Counts most earlier p = (d : ℕ) → p.per_document d ≡ min most (count_of d earlier)

Counts-place :
    (most : ℕ) (earlier : List KnowledgeChunkView) (v : KnowledgeChunkView) (p : Pass)
    → Counts most earlier p
    → Counts most (v ∷ earlier) (place most v p)
unfolding place count_of
Counts-place most earlier v p h d = elim (Bool-cases (d == v.document_id)) [
  | inl e ↦ ground (arith, h d, h v.document_id, e)
  | inr e ↦ ground (arith, h d, h v.document_id, e)
]

-- What the first pass has selected and deferred, for a page that still has `room` places.
abbrev page : ℕ → Pass → List KnowledgeChunkView → List KnowledgeChunkView
page room p kept = p.selected ++ take room kept

place-selected :
    (most : ℕ) (earlier : List KnowledgeChunkView) (v : KnowledgeChunkView) (p : Pass)
    → Counts most earlier p
    → ((place most v p).selected ≡ (
        if ltb (count_of v.document_id earlier) most then p.selected ++ (v ∷ []) else p.selected))
      × ((place most v p).deferred ≡ (
          if ltb (count_of v.document_id earlier) most then p.deferred else p.deferred ++ (v ∷ [])))
unfolding place
place-selected most earlier v p h = ground (arith, h v.document_id)

-- A page that takes one more item, cut at the limit.
page-snoc :
    (s w : List KnowledgeChunkView) (v : KnowledgeChunkView) (limit : ℕ)
    → length s < limit
    → (s ++ (v ∷ [])) ++ take (limit - length (s ++ (v ∷ []))) w
      ≡ s ++ take (limit - length s) (v ∷ w)
page-snoc s w v limit h =
    let e : limit - length s ≡ suc (limit - length (s ++ (v ∷ []))) =
      omega (arith, length-append s (v ∷ [])) in
    rw e (append_assoc s (v ∷ []) (take (limit - length (s ++ (v ∷ []))) w))

page_full :
    (s w : List KnowledgeChunkView) (limit : ℕ)
    → leb limit (length s) ≡ true
    → s ++ take (limit - length s) w ≡ s
page_full s w limit h = let e : limit - length s ≡ 0 = ground arith in rw e (append-nil s)

first_pass-selected :
    (most limit : ℕ) (vs earlier : List KnowledgeChunkView) (p : Pass)
    → Counts most earlier p
    → length p.selected ≤ limit
    → (first_pass limit most vs p).selected
      ≡ p.selected ++ take (limit - length p.selected) (within_cap most earlier vs)
unfolding first_pass within_cap
first_pass-selected most limit [] earlier p h l =
    sym (ap (λ r. p.selected ++ r) (take-nil (limit - length p.selected)) ∙ append-nil p.selected)
first_pass-selected most limit (v ∷ vs) earlier p h l =
    elim (Bool-cases (leb limit (length p.selected))) [
      | inl f ↦
          unfold first_pass in
          rw f (sym (page_full p.selected (within_cap most earlier (v ∷ vs)) limit f))
      | inr f ↦ elim (Bool-cases (ltb (count_of v.document_id earlier) most)) [
        | inl t ↦
            let e : (place most v p).selected ≡ p.selected ++ (v ∷ []) =
              rw t at ((place-selected most earlier v p h).0) in
            rw (f, t)
              (first_pass-selected most limit vs (v ∷ earlier) (place most v p)
                  (Counts-place most earlier v p h)
                  (rw e (ground (arith, length-append p.selected (v ∷ []))))
                ∙ rw e (
                    page-snoc p.selected (within_cap most (v ∷ earlier) vs) v limit (ground arith)))
        | inr t ↦
            let e : (place most v p).selected ≡ p.selected =
              rw t at ((place-selected most earlier v p h).0) in
            rw (f, t)
              (first_pass-selected most limit vs (v ∷ earlier) (place most v p)
                  (Counts-place most earlier v p h) (rw e l)
                ∙ rw e refl)
      ]
    ]

first_pass-deferred :
    (most limit : ℕ) (vs earlier : List KnowledgeChunkView) (p : Pass)
    → Counts most earlier p
    → length (first_pass limit most vs p).selected < limit
    → (first_pass limit most vs p).deferred ≡ p.deferred ++ over_cap most earlier vs
unfolding first_pass over_cap
first_pass-deferred most limit [] earlier p h l = sym (append-nil p.deferred)
first_pass-deferred most limit (v ∷ vs) earlier p h l =
    elim (Bool-cases (leb limit (length p.selected))) [
      | inl f ↦ let short : length p.selected < limit = rw f at l in absurd (ground arith)
      | inr f ↦
          let short : length (first_pass limit most vs (place most v p)).selected < limit =
            rw f at l in
          let ih =
            first_pass-deferred most limit vs (v ∷ earlier) (place most v p)
              (Counts-place most earlier v p h) short in
          elim (Bool-cases (ltb (count_of v.document_id earlier) most)) [
            | inl t ↦
                let e : (place most v p).deferred ≡ p.deferred =
                  rw t at ((place-selected most earlier v p h).1) in
                rw (f, t) (ih ∙ rw e refl)
            | inr t ↦
                let e : (place most v p).deferred ≡ p.deferred ++ (v ∷ []) =
                  rw t at ((place-selected most earlier v p h).1) in
                rw (f, t)
                  (ih ∙ rw e (append_assoc p.deferred (v ∷ []) (over_cap most (v ∷ earlier) vs)))
          ]
    ]

second_pass_lem :
    (limit : ℕ) (vs s : List KnowledgeChunkView)
    → length s ≤ limit
    → second_pass limit vs s ≡ s ++ take (limit - length s) vs
unfolding second_pass
second_pass_lem limit [] s l = sym (ap (λ r. s ++ r) (take-nil (limit - length s)) ∙ append-nil s)
second_pass_lem limit (v ∷ vs) s l = elim (Bool-cases (leb limit (length s))) [
  | inl f ↦ rw f (sym (page_full s (v ∷ vs) limit f))
  | inr f ↦ rw f (
      second_pass_lem limit vs (s ++ (v ∷ [])) (ground (arith, length-append s (v ∷ [])))
      ∙ page-snoc s vs v limit (ground arith))
]

minus_zero : (n : ℕ) → n ≡ n - 0
minus_zero n = omega arith

take-append :
    (n : ℕ) (xs ys : List KnowledgeChunkView)
    → take n (xs ++ ys) ≡ take n xs ++ take (n - length (take n xs)) ys
take-append zero xs ys = refl
take-append (suc n) [] ys = ap (λ k. take k ys) (minus_zero (suc n))
take-append (suc n) (x ∷ xs) ys =
    let e : suc n - suc (length (take n xs)) ≡ n - length (take n xs) = omega arith in
    rw e (ap (λ r. x ∷ r) (take-append n xs ys))

fill_lem :
    (limit : ℕ) (p : Pass) (w o : List KnowledgeChunkView)
    → p.selected ≡ take limit w
    → (length p.selected < limit → p.deferred ≡ o)
    → fill limit p ≡ take limit (w ++ o)
fill_lem limit p w o e d = elim (Bool-cases (ltb (length p.selected) limit)) [
  | inl f ↦
      unfold fill in
      rw f (
        second_pass_lem limit p.deferred p.selected (ground arith)
        ∙ rw (d (ground arith)) (rw e (sym (take-append limit w o))))
  | inr f ↦
      unfold fill in
      rw f (sym (page_full p.selected o limit (ground arith)) ∙ rw e (sym (take-append limit w o)))
]

-- The page is the first `limit` views of a list that has the views with fewer than the cap of
-- earlier views of their document first, in rank order, and the other views after them.
pub diversify_lem :
    (ranked : List KnowledgeChunkView) (limit most : ℕ)
    → (diversify ranked limit most).views
      ≡ take limit (within_cap most [] ranked ++ over_cap most [] ranked)
unfolding diversify
diversify_lem ranked limit most =
    let counts : Counts most [] no_pass = λ d. unfold count_of in omega arith in
    let selected =
      first_pass-selected most limit ranked [] no_pass counts (omega arith)
      ∙ ap (λ k. take k (within_cap most [] ranked)) (sym (minus_zero limit)) in
    fill_lem limit (first_pass limit most ranked no_pass) (within_cap most [] ranked)
      (over_cap most [] ranked) selected (first_pass-deferred most limit ranked [] no_pass counts)

length-take : (n : ℕ) (vs : List KnowledgeChunkView) → length (take n vs) ≡ min n (length vs)
length-take zero vs = omega arith
length-take (suc n) [] = omega arith
length-take (suc n) (v ∷ vs) = omega (arith, length-take n vs)

length-within-over :
    (most : ℕ) (vs earlier : List KnowledgeChunkView)
    → length (within_cap most earlier vs ++ over_cap most earlier vs) ≡ length vs
unfolding within_cap over_cap
length-within-over most [] earlier = refl
length-within-over most (v ∷ vs) earlier = ground (
  arith,
  length-within-over most vs (v ∷ earlier),
  length-append (within_cap most (v ∷ earlier) vs) (v ∷ over_cap most (v ∷ earlier) vs),
  length-append (within_cap most (v ∷ earlier) vs) (over_cap most (v ∷ earlier) vs),
)

pub length-diversify :
    (ranked : List KnowledgeChunkView) (limit most : ℕ)
    → length (diversify ranked limit most).views ≡ min limit (length ranked)
length-diversify ranked limit most =
    ap length (diversify_lem ranked limit most)
    ∙ length-take limit (within_cap most [] ranked ++ over_cap most [] ranked)
    ∙ ap (min limit) (length-within-over most ranked [])

-- No more of a document than the cap among the views within it.
count_of-within :
    (d most : ℕ) (vs earlier : List KnowledgeChunkView)
    → count_of d (within_cap most earlier vs) ≤ most - count_of d earlier
unfolding within_cap count_of
count_of-within d most [] earlier = omega arith
count_of-within d most (v ∷ vs) earlier = elim (Bool-cases (d == v.document_id)) [
  | inl e ↦ ground (arith, count_of-within d most vs (v ∷ earlier), e)
  | inr e ↦ ground (arith, count_of-within d most vs (v ∷ earlier), e)
]

count_of-take :
    (d n : ℕ) (vs ws : List KnowledgeChunkView)
    → n ≤ length vs
    → count_of d (take n (vs ++ ws)) ≤ count_of d vs
unfolding count_of
count_of-take d zero vs ws h = omega arith
count_of-take d (suc n) [] ws h = absurd (omega arith)
count_of-take d (suc n) (v ∷ vs) ws h = ground (arith, count_of-take d n vs ws (omega arith))

-- Where the first views of the documents fill the page, no document has more of it than the cap.
count_of-diversify :
    (ranked : List KnowledgeChunkView) (limit most d : ℕ)
    → limit ≤ length (within_cap most [] ranked)
    → count_of d (diversify ranked limit most).views ≤ most
count_of-diversify ranked limit most d h = rw (diversify_lem ranked limit most) (
    bounded (count_of-take d limit (within_cap most [] ranked) (over_cap most [] ranked) h)
      (count_of-within d most ranked []))
  where
    bounded : {a b : ℕ} → a ≤ b → b ≤ most - count_of d [] → a ≤ most
    bounded p q = omega arith

length-rstrip : (p : ℕ → Bool) (t : Text) → length (rstrip_where p t) ≤ length t
unfolding rstrip_where
length-rstrip p [] = omega arith
length-rstrip p (c ∷ cs) = ground (arith, length-rstrip p cs)

length-build_excerpt :
    (content : Text) (limit : ℕ) → length (build_excerpt content limit) ≤ limit + 1
unfolding build_excerpt
length-build_excerpt content limit = ground (
  arith,
  length-append (rstrip_where is_space (take limit (collapse_whitespace content))) (0x2026 ∷ []),
  length-rstrip is_space (take limit (collapse_whitespace content)),
  length-take-le limit (collapse_whitespace content),
)
