-- ===== src/Knowledge/Resolution/Citations.antt =====
-- A citation is resolved against the rows, and the citation of a hit resolves
-- (src/hisiem_soc_copilot/application/services/knowledge_retrieval.py `_to_hit`,
-- `KnowledgeCitationResolver.resolve`).
use hisiem_soc_copilot.Knowledge.{KnowledgeChunkView, tenant_required}
use hisiem_soc_copilot.Knowledge.Texts.{Text, text_eq, eq_of_text_eq, starts_with}
use hisiem_soc_copilot.Knowledge.Citation.{Citation, parse_citation_id}
use hisiem_soc_copilot.Knowledge.Corpus.Eligible.{scope_predicate-InScope}
use hisiem_soc_copilot.Knowledge.Corpus.{
  InScope, ChunkRow, Database, scope_predicate, find_view, get_chunk_view,
}
use hisiem_soc_copilot.Knowledge.Resolution.{
  CitationResolution, unresolved, resolved, scope_mismatch, content_integrity_mismatch,
  ResolvedChunk, resolved_chunk, is_foreign, require_valid_scope, check_view, resolve_view,
  resolve_parsed, resolve,
}
use hisiem_soc_copilot.Prelude.{
  ℕ, ◌≡◌, refl, sym, inl, inr, Bool, true, false, not, ◌&&◌, ◌||◌, Option, none, some, List, [],
  ◌∷◌, ◌==◌, ==_iff, arith, if◌then◌else◌, Bool-cases, all, is_space, In, Result, ok, require,
  >>=-ok,
}

unfoldable has_id : ℕ → List ChunkRow → Bool
has_id c [] = false
has_id c (r ∷ rs) = c == r.view.chunk_id || has_id c rs

-- The primary key of the content chunks.
unfoldable pub unique_ids : List ChunkRow → Bool
unfolding has_id
unique_ids [] = true
unique_ids (r ∷ rs) = not (has_id r.view.chunk_id rs) && unique_ids rs

has_id-In : (r : ChunkRow) (rs : List ChunkRow) → In r rs → has_id r.view.chunk_id rs ≡ true
has_id-In r [] m = absurd m
has_id-In r (x ∷ rs) (inl e) = unfold has_id in rw e (ground arith)
has_id-In r (x ∷ rs) (inr m) = has_step (has_id-In r rs m)
  where
    has_step : has_id r.view.chunk_id rs ≡ true → has_id r.view.chunk_id (x ∷ rs) ≡ true
    has_step h = unfold has_id in ground (arith, h)

has_id-eq :
    (c d : ℕ) (rs : List ChunkRow) → (c == d) ≡ true → has_id d rs ≡ true → has_id c rs ≡ true
has_id-eq c d rs e h = rw ((==_iff c d).0 e) h

pub find_view-In :
    (tenant_id : Text) (r : ChunkRow) (rs : List ChunkRow)
    → In r rs
    → unique_ids rs ≡ true
    → scope_predicate tenant_id r.view ≡ true
    → find_view tenant_id r.view.chunk_id rs ≡ some r.view
unfolding find_view unique_ids
find_view-In tenant_id r [] m u s = absurd m
find_view-In tenant_id r (x ∷ rs) (inl e) u s = rw (← e) (ground (arith, s))
find_view-In tenant_id r (x ∷ rs) (inr m) u s = ground (
  arith,
  find_view-In tenant_id r rs m,
  has_id-In r rs m,
  has_id-eq x.view.chunk_id r.view.chunk_id rs,
)

-- The row of a view that was found.
abbrev IsFound : List ChunkRow → Text → ℕ → KnowledgeChunkView → Type 0
IsFound rows tenant_id c v =
    (r : ChunkRow) × In r rows × (r.view ≡ v) × (v.chunk_id ≡ c) × InScope tenant_id v

find_view-IsFound :
    (tenant_id : Text) (c : ℕ) (rs : List ChunkRow) (v : KnowledgeChunkView)
    → find_view tenant_id c rs ≡ some v
    → IsFound rs tenant_id c v
unfolding find_view
find_view-IsFound tenant_id c [] v e = absurd (ground (arith, e))
find_view-IsFound tenant_id c (x ∷ rs) v e =
    elim (Bool-cases (x.view.chunk_id == c && scope_predicate tenant_id x.view)) [
      | inl t ↦
          let same : x.view ≡ v = ground (arith, rw t at e) in
          let scope : scope_predicate tenant_id x.view ≡ true = ground (arith, t) in
          (
            x,
            inl refl,
            same,
            rw (← same) (ground (arith, t)),
            rw (← same) (scope_predicate-InScope tenant_id x.view scope),
          )
      | inr f ↦
          let ih = find_view-IsFound tenant_id c rs v (rw f at e) in
          (ih.0, inr ih.1, ih.2, ih.3, ih.4)
    ]

-- What the resolver has checked of a view that it resolves to.
abbrev IsIntact : (Text → Text) → Text → KnowledgeChunkView → ResolvedChunk → Type 0
IsIntact sha prefix v d =
    (sha v.content ≡ v.content_hash)
    × (starts_with v.content_hash prefix ≡ true)
    × (d ≡ resolved_chunk v)

resolved-inj :
    (a b : Text) (c d : ResolvedChunk)
    → ◌≡◌ {A = CitationResolution} (resolved a c) (resolved b d)
    → c ≡ d
resolved-inj a b c d e = ground arith

check_view-IsIntact :
    (sha : Text → Text) (tenant_id citation_id prefix : Text) (v : KnowledgeChunkView)
    (d : ResolvedChunk)
    → check_view sha tenant_id citation_id prefix v ≡ resolved citation_id d
    → IsIntact sha prefix v d
check_view-IsIntact sha tenant_id citation_id prefix v d e =
    checks (is_foreign tenant_id v) (text_eq (sha v.content) v.content_hash)
      (starts_with v.content_hash prefix) refl refl (unfold check_view in e)
  where
    checks :
        (f h p : Bool)
        → text_eq (sha v.content) v.content_hash ≡ h
        → starts_with v.content_hash prefix ≡ p
        → (if f
            then unresolved citation_id scope_mismatch
            else if not h || not p
            then unresolved citation_id content_integrity_mismatch
            else resolved citation_id (resolved_chunk v))
          ≡ resolved citation_id d
        → IsIntact sha prefix v d
    checks true h p eh ep q = absurd (ground (arith, q))
    checks false false p eh ep q = absurd (ground (arith, q))
    checks false true false eh ep q = absurd (ground (arith, q))
    checks false true true eh ep q = (
      eq_of_text_eq (sha v.content) v.content_hash eh,
      ep,
      sym (resolved-inj citation_id citation_id (resolved_chunk v) d q),
    )

pub ok-inj : {E A : Type 0} (a b : A) → ◌≡◌ {A = Result E A} (ok a) (ok b) → a ≡ b
ok-inj a b e = ground arith

-- The citation is that of a row in scope whose content has the recorded hash.
abbrev pub IsResolvedBy : (Text → Text) → List ChunkRow → Text → Text → ResolvedChunk → Type 0
IsResolvedBy sha rows tenant_id citation_id d =
    (c : Citation) × (v : KnowledgeChunkView) × (parse_citation_id citation_id ≡ some c)
    × IsFound rows tenant_id c.chunk_id v
    × IsIntact sha c.content_hash_prefix v d

found-IsResolvedBy :
    {S : Type 0} (sha : Text → Text) (db : Database S) (tenant_id citation_id : Text)
    (d : ResolvedChunk) (c : Citation) (o : Option KnowledgeChunkView)
    → parse_citation_id citation_id ≡ some c
    → find_view tenant_id c.chunk_id db.rows ≡ o
    → resolve_view sha tenant_id citation_id c.content_hash_prefix o ≡ ok (resolved citation_id d)
    → IsResolvedBy sha db.rows tenant_id citation_id d
found-IsResolvedBy sha db tenant_id citation_id d c none q g h =
    absurd (unfold resolve_view in ground (arith, h))
found-IsResolvedBy sha db tenant_id citation_id d c (some v) q g h =
    let k =
      >>=-ok (require_valid_scope v.visibility v.tenant_id)
        (λ _. ok (check_view sha tenant_id citation_id c.content_hash_prefix v))
        (resolved citation_id d) (unfold resolve_view in h) in
    (
      c,
      v,
      q,
      find_view-IsFound tenant_id c.chunk_id db.rows v g,
      check_view-IsIntact sha tenant_id citation_id c.content_hash_prefix v d (
          ok-inj (check_view sha tenant_id citation_id c.content_hash_prefix v)
            (resolved citation_id d) k.2),
    )

parsed-IsResolvedBy :
    {S : Type 0} (sha : Text → Text) (db : Database S) (tenant_id citation_id : Text)
    (d : ResolvedChunk) (o : Option Citation)
    → parse_citation_id citation_id ≡ o
    → resolve_parsed sha db tenant_id citation_id o ≡ ok (resolved citation_id d)
    → IsResolvedBy sha db.rows tenant_id citation_id d
parsed-IsResolvedBy sha db tenant_id citation_id d none q h =
    absurd (unfold resolve_parsed in ground (arith, h))
parsed-IsResolvedBy sha db tenant_id citation_id d (some c) q h =
    found-IsResolvedBy sha db tenant_id citation_id d c (find_view tenant_id c.chunk_id db.rows) q
      refl (unfold resolve_parsed get_chunk_view in h)

-- A citation that is resolved was parsed into a chunk id and a hash prefix, and is answered with
-- the facts of a row of that id in the scope of the tenant, whose content has the stored hash,
-- which begins with the prefix.
pub resolve-IsResolvedBy :
    {S : Type 0} (sha : Text → Text) (db : Database S) (tenant_id citation_id : Text)
    (d : ResolvedChunk)
    → resolve sha db tenant_id citation_id ≡ ok (resolved citation_id d)
    → IsResolvedBy sha db.rows tenant_id citation_id d
resolve-IsResolvedBy sha db tenant_id citation_id d e =
    let t =
      >>=-ok (require (not (all is_space tenant_id)) tenant_required)
        (λ _. resolve_parsed sha db tenant_id citation_id (parse_citation_id citation_id))
        (resolved citation_id d) (unfold resolve in e) in
    parsed-IsResolvedBy sha db tenant_id citation_id d (parse_citation_id citation_id) refl t.2
