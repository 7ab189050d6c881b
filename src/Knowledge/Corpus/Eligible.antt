-- ===== src/Knowledge/Corpus/Eligible.antt =====
-- Which rows retrieval serves to a tenant, and which identities are the same
-- (src/hisiem_soc_copilot/infrastructure/persistence/repositories/knowledge.py `_scope_predicate`,
-- `_generation_probe`, `lexical_candidates`).
use hisiem_soc_copilot.Knowledge.{KnowledgeChunkView, Visibility, global, tenant}
use hisiem_soc_copilot.Knowledge.Texts.{Text, text_eq, text_eq_self, eq_of_text_eq}
use hisiem_soc_copilot.Knowledge.Corpus.{
  EmbeddingIdentity, same_identity, ChunkRow, scope_predicate, has_later, is_served, InScope,
}
use hisiem_soc_copilot.Prelude.{
  ℕ, ◌≤◌, ◌≡◌, refl, ap, ◌⊎◌, inl, inr, Bool, true, false, ◌&&◌, Option, none, some, opt_eq, List,
  [], ◌∷◌, arith, codes, if◌then◌else◌, In,
}

-- An active document's active version, at its last generation, in the tenant's scope.
pub record IsEligible (rows : List ChunkRow) (tenant_id : Text) (r : ChunkRow) : Type 0 where
  pub scope : InScope tenant_id r.view
  pub active : r.view.document_status ≡ codes "ACTIVE"
  pub active_version : r.active_version_id ≡ some r.view.document_version_id
  pub current :
      (x : ChunkRow)
      → In x rows
      → x.view.document_version_id ≡ r.view.document_version_id
      → x.view.chunk_generation ≤ r.view.chunk_generation

scope-cases :
    (visibility : Visibility) (owner : Option Text) (tenant_id : Text)
    → (elim visibility [
      | global ↦ true
      | tenant ↦ elim owner [ none ↦ false | some t ↦ text_eq t tenant_id ]
    ])
      ≡ true
    → (visibility ≡ global) ⊎ ((visibility ≡ tenant) × (owner ≡ some tenant_id))
scope-cases global owner tenant_id h = inl refl
scope-cases tenant none tenant_id h = absurd (ground (arith, h))
scope-cases tenant (some t) tenant_id h = inr (refl, ap (λ x. some x) (eq_of_text_eq t tenant_id h))

pub scope_predicate-InScope :
    (tenant_id : Text) (v : KnowledgeChunkView)
    → scope_predicate tenant_id v ≡ true
    → InScope tenant_id v
unfolding scope_predicate
scope_predicate-InScope tenant_id v h = scope-cases v.visibility v.tenant_id tenant_id h

pub scope_predicate_of_InScope :
    (tenant_id : Text) (v : KnowledgeChunkView)
    → InScope tenant_id v
    → scope_predicate tenant_id v ≡ true
unfolding scope_predicate
scope_predicate_of_InScope tenant_id v (inl e) = rw e refl
scope_predicate_of_InScope tenant_id v (inr (e, o)) = rw (e, o) (text_eq_self tenant_id)

has_later_lem :
    (v : KnowledgeChunkView) (rs : List ChunkRow) (x : ChunkRow)
    → has_later v rs ≡ false
    → In x rs
    → x.view.document_version_id ≡ v.document_version_id
    → x.view.chunk_generation ≤ v.chunk_generation
unfolding has_later
has_later_lem v [] x h m e = absurd m
has_later_lem v (r ∷ rs) x h (inl s) e = rw s (ground (arith, h, rw s at e))
has_later_lem v (r ∷ rs) x h (inr m) e = has_later_lem v rs x (ground (arith, h)) m e

opt_eq-some : (o : Option ℕ) (n : ℕ) → opt_eq o (some n) ≡ true → o ≡ some n
opt_eq-some none n h = absurd (ground (arith, h))
opt_eq-some (some m) n h = ground (arith, h)

pub is_served-IsEligible :
    (rows : List ChunkRow) (tenant_id : Text) (r : ChunkRow)
    → is_served rows tenant_id r ≡ true
    → IsEligible rows tenant_id r
is_served-IsEligible rows tenant_id r h =
    checks (scope_predicate tenant_id r.view) (text_eq r.view.document_status (codes "ACTIVE"))
      (opt_eq r.active_version_id (some r.view.document_version_id)) (has_later r.view rows) refl
      refl refl refl (unfold is_served in h)
  where
    checks :
        (s a v l : Bool)
        → scope_predicate tenant_id r.view ≡ s
        → text_eq r.view.document_status (codes "ACTIVE") ≡ a
        → opt_eq r.active_version_id (some r.view.document_version_id) ≡ v
        → has_later r.view rows ≡ l
        → (s && a && v && (if l then false else true)) ≡ true
        → IsEligible rows tenant_id r
    checks true true true false es ea ev el q = record {
      scope = scope_predicate-InScope tenant_id r.view es;
      active = eq_of_text_eq r.view.document_status (codes "ACTIVE") ea;
      active_version = opt_eq-some r.active_version_id r.view.document_version_id ev;
      current = λ x m e. has_later_lem r.view rows x el m e;
    }
    checks true true true true es ea ev el q = absurd (ground (arith, q))
    checks true true false l es ea ev el q = absurd (ground (arith, q))
    checks true false v l es ea ev el q = absurd (ground (arith, q))
    checks false a v l es ea ev el q = absurd (ground (arith, q))

pub same_identity_lem : (a b : EmbeddingIdentity) → same_identity a b ≡ true → a ≡ b
unfolding same_identity
same_identity_lem a b h = ground (
  arith,
  eq_of_text_eq a.provider b.provider,
  eq_of_text_eq a.model_id b.model_id,
  eq_of_text_eq a.distance_metric b.distance_metric,
  eq_of_text_eq a.normalization b.normalization,
)
