-- ===== src/Workflow/Creation/Evidence.antt =====
-- What the resolution of the requested evidence accepts.
use mathlib.Core.Path.{subst}
use hisiem_soc_copilot.Prelude.{
  ℕ, ◌≡◌, ◌≢◌, String, Option, none, some, Bool, true, false, List, [], ◌∷◌, ◌&&◌, ◌==◌, Result, ok,
  err, arith, All, In, inl, inr, refl, keep, all, map, is_empty, Bool-cases, ◌⊎◌, sym,
  if◌then◌else◌, str_eq, str_eq_iff,
}
use hisiem_soc_copilot.Workflow.{Store, EvidenceRow, HandlerError}
use hisiem_soc_copilot.Workflow.Creation.{
  resolve_evidence_ids, canonicalize, find_by_ids, is_among, with_new, with_parsed, confirm,
  evidence_id, same_set,
}

-- No id is among those that follow it.
unfoldable pub Distinct : List ℕ → Type 0
unfolding is_among
Distinct [] = Unit
Distinct (x ∷ xs) = (is_among x xs ≡ false) × Distinct xs

-- Evidence of the investigation and of the tenant has the id.
pub IsInScope : String → ℕ → Store → ℕ → Type 0
IsInScope tenant investigation_id s id =
    (e : EvidenceRow) × In e s.evidence
    × (e.tenant_id ≡ tenant)
    × (e.investigation_id ≡ investigation_id)
    × (e.id ≡ id)

head_or_tail :
    (id x : ℕ) (xs : List ℕ) → is_among id (x ∷ xs) ≡ true → (id ≡ x) ⊎ (is_among id xs ≡ true)
unfolding is_among
head_or_tail id x xs h = elim (Bool-cases (is_among id xs)) [
  | inl t ↦ inr t
  | inr f ↦ inl (ground arith)
]

abbrev Kept : (EvidenceRow → Bool) → ℕ → List EvidenceRow → Type 0
Kept p id rows = (e : EvidenceRow) × In e rows × (p e ≡ true) × (e.id ≡ id)

later :
    (p : EvidenceRow → Bool) (id : ℕ) (r : EvidenceRow) (rows : List EvidenceRow)
    → Kept p id rows
    → Kept p id (r ∷ rows)
later p id r rows (e, m, h, k) = (e, inr m, h, k)

-- A row that the test keeps has the id.
kept_row :
    (p : EvidenceRow → Bool) (id : ℕ) (rows : List EvidenceRow)
    → is_among id (map evidence_id (keep p rows)) ≡ true
    → Kept p id rows
unfolding evidence_id
kept_row p id [] h = unfold is_among in ground arith
kept_row p id (r ∷ rows) h = go (kept_row p id rows) (p r) refl h
  where
    go :
        (is_among id (map evidence_id (keep p rows)) ≡ true → Kept p id rows)
        → (b : Bool) → p r ≡ b
        → is_among id (map evidence_id (if b then r ∷ keep p rows else keep p rows)) ≡ true
        → Kept p id (r ∷ rows)
    go rec false e k = later p id r rows (rec k)
    go rec true e k = elim (head_or_tail id r.id (map evidence_id (keep p rows)) k) [
      | inl q ↦ (r, inl refl, e, sym q)
      | inr m ↦ later p id r rows (rec m)
    ]

not_among :
    (v : ℕ) (seen ids : List ℕ)
    → All (λ id. is_among id (v ∷ seen) ≡ false) ids
    → (is_among v ids ≡ false) × All (λ id. is_among id seen ≡ false) ids
unfolding is_among
not_among v seen [] h = (refl, tt)
not_among v seen (x ∷ xs) h = ground (arith, not_among v seen xs h.1)

-- A list of ids that is distinct and new.
IsNew : List ℕ → Result HandlerError (List ℕ) → Type 0
IsNew seen (err e) = Unit
IsNew seen (ok ids) = Distinct ids × All (λ id. is_among id seen ≡ false) ids

with_new-IsNew :
    (v : ℕ) (seen : List ℕ) (r : Result HandlerError (List ℕ))
    → IsNew (v ∷ seen) r
    → IsNew seen (with_new v seen r)
unfolding with_new IsNew
with_new-IsNew v seen (err e) h = tt
with_new-IsNew v seen (ok ids) h = elim (Bool-cases (is_among v seen)) [
  | inl t ↦ rw t (h.0, (not_among v seen ids h.1).1)
  | inr f ↦ let k = not_among v seen ids h.1 in rw f ((unfold Distinct in (k.0, h.0)), (f, k.1))
]

with_parsed-IsNew :
    (seen : List ℕ) (o : Option ℕ) (rest : ℕ → Result HandlerError (List ℕ))
    → ((v : ℕ) → IsNew (v ∷ seen) (rest v))
    → IsNew seen (with_parsed seen o rest)
unfolding with_parsed
with_parsed-IsNew seen none rest h = unfold IsNew in tt
with_parsed-IsNew seen (some v) rest h = with_new-IsNew v seen (rest v) (h v)

canonicalize-IsNew :
    (parse : String → Option ℕ) (seen : List ℕ) (raws : List String)
    → IsNew seen (canonicalize parse seen raws)
unfolding canonicalize
canonicalize-IsNew parse seen [] = unfold IsNew Distinct in (tt, tt)
canonicalize-IsNew parse seen (raw ∷ raws) =
    with_parsed-IsNew seen (parse raw) (λ v. canonicalize parse (v ∷ seen) raws)
      (λ v. canonicalize-IsNew parse (v ∷ seen) raws)

-- The rows that the repository finds for an id are in scope.
found_row :
    (tenant : String) (investigation_id id : ℕ) (ids : List ℕ) (s : Store)
    → is_among id (map evidence_id (find_by_ids tenant investigation_id ids s)) ≡ true
    → IsInScope tenant investigation_id s id
unfolding find_by_ids
found_row tenant investigation_id id ids s h = in_scope (kept_row _ id s.evidence h)
  where
    in_scope :
        Kept
          (λ e.
            str_eq e.tenant_id tenant
            && e.investigation_id == investigation_id
            && is_among e.id ids)
          id
          s.evidence
        → IsInScope tenant investigation_id s id
    in_scope (e, m, h, k) =
        unfold IsInScope in
        (e, m, (str_eq_iff e.tenant_id tenant).0 (ground arith), ground arith, k)

resolve-facts :
    (parse : String → Option ℕ) (tenant : String) (investigation_id : ℕ) (raws : List String)
    (s : Store) (ids : List ℕ)
    → resolve_evidence_ids parse tenant investigation_id raws s ≡ ok ids
    → (is_empty raws ≡ false)
      × (canonicalize parse [] raws ≡ ok ids)
      × (same_set (map evidence_id (find_by_ids tenant investigation_id ids s)) ids ≡ true)
unfolding resolve_evidence_ids confirm
resolve-facts parse tenant investigation_id raws s ids e = ground arith

all-All : (p : ℕ → Bool) (xs : List ℕ) → all p xs ≡ true → All (λ x. p x ≡ true) xs
all-All p [] h = tt
all-All p (x ∷ xs) h = (ground arith, all-All p xs (ground arith))

All-scope :
    (tenant : String) (investigation_id : ℕ) (ids xs : List ℕ) (s : Store)
    → All (λ x. is_among x (map evidence_id (find_by_ids tenant investigation_id ids s)) ≡ true) xs
    → All (IsInScope tenant investigation_id s) xs
All-scope tenant investigation_id ids [] s h = tt
All-scope tenant investigation_id ids (x ∷ xs) s h =
    (found_row tenant investigation_id x ids s h.0, All-scope tenant investigation_id ids xs s h.1)

new-Distinct : (ids : List ℕ) → IsNew [] (ok ids) → Distinct ids
unfolding IsNew
new-Distinct ids h = h.0

first_kept :
    (parse : String → Option ℕ) (raws : List String) (ids : List ℕ)
    → is_empty raws ≡ false
    → canonicalize parse [] raws ≡ ok ids
    → ids ≢ []
unfolding canonicalize with_parsed with_new is_among
first_kept parse [] ids h e = ground arith
first_kept parse (raw ∷ raws) ids h e = ground arith

-- When the resolution of the requested evidence succeeds, its ids are some, are distinct, and each
-- is the id of evidence of the investigation and of the tenant.
pub resolve_evidence_ids-IsInScope :
    (parse : String → Option ℕ) (tenant : String) (investigation_id : ℕ) (raws : List String)
    (s : Store) (ids : List ℕ)
    → resolve_evidence_ids parse tenant investigation_id raws s ≡ ok ids
    → (ids ≢ []) × Distinct ids × All (IsInScope tenant investigation_id s) ids
resolve_evidence_ids-IsInScope parse tenant investigation_id raws s ids e =
    let f = resolve-facts parse tenant investigation_id raws s ids e in
    let n = canonicalize-IsNew parse [] raws in
    (
      first_kept parse raws ids f.0 f.1,
      new-Distinct ids (subst (IsNew []) f.1 n),
      All-scope tenant investigation_id ids ids s (all-All _ ids (unfold same_set in ground arith)),
    )
