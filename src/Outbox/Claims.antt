-- ===== src/Outbox/Claims.antt =====
-- What a claim that selects a waiting row does to the row, whatever else the table holds
-- (src/hisiem_soc_copilot/infrastructure/persistence/repositories/durable.py `claim_batch`).
use hisiem_soc_copilot.Prelude.{
  ℕ, suc, ◌≤◌, ◌≡◌, refl, ap, sym, ◌∙◌, String, Option, none, some, Bool, true, false, List, [],
  ◌∷◌, ◌==◌, arith, All, In, length, ◌⊎◌, inl, inr, Bool-cases, ==_self,
}
use hisiem_soc_copilot.Outbox.{
  OutboxRow, OutboxRecord, Table, Draw, find_row, update_where, is_claimable, is_waiting,
  take_lease, record_of, claim_row, claim_rows, claim_batch, with_record, select_ready, matches,
  is_due, is_for,
}
use hisiem_soc_copilot.Outbox.Actions.{claiming, act, act_row}
use hisiem_soc_copilot.Outbox.Rows.{
  Distinct, Distinct-update, find_row-act, claim_row-update, matches_at,
}
use hisiem_soc_copilot.Outbox.Selection.{Apart, select_ready-Apart, select_ready_all}
use hisiem_soc_copilot.Outbox.Batches.{untouched, find_row_id, claim_row-some}

-- The list has one record of the id, and it is `k`.
abbrev pub Once : OutboxRecord → List OutboxRecord → Type 0
Once k [] = ⊥
Once k (x ∷ xs) =
    ((x ≡ k) × All (λ y. (y.id == k.id) ≡ false) xs) ⊎ (((x.id == k.id) ≡ false) × Once k xs)

-- So many rows, and no two of one id.
abbrev pub Sized : ℕ → Table → Type 0
Sized m t = Distinct t × (length t ≡ m)

All-at : (P : OutboxRow → Type 0) (r : OutboxRow) (rs : List OutboxRow) → All P rs → In r rs → P r
All-at P r [] a i = absurd i
All-at P r (s ∷ ss) a (inl e) = rw e a.0
All-at P r (s ∷ ss) a (inr i) = All-at P r ss a.1 i

In-find : (j : ℕ) (t : Table) (r : OutboxRow) → find_row j t ≡ some r → In r t
unfolding find_row
In-find j [] r h = absurd (ground (arith, h))
In-find j (s ∷ ss) r h = elim (Bool-cases (s.id == j)) [
  | inl e ↦ inl (ground (arith, h, e))
  | inr e ↦ inr (In-find j ss r (ground (arith, h, e)))
]

length-update :
    (p : OutboxRow → Bool) (f : OutboxRow → OutboxRow) (t : Table)
    → length (update_where p f t) ≡ length t
unfolding update_where
length-update p f [] = refl
length-update p f (r ∷ rs) = ap suc (length-update p f rs)

pub update-Sized :
    (p : OutboxRow → Bool) (f : OutboxRow → OutboxRow) (m : ℕ) (t : Table)
    → ((r : OutboxRow) → (f r).id ≡ r.id)
    → Sized m t
    → Sized m (update_where p f t)
update-Sized p f m t keeps (d, l) = (Distinct-update p f t keeps d, length-update p f t ∙ l)

module _ (worker : String) where
  claim_row-Sized :
      (draw : Draw) (s : OutboxRow) (m : ℕ) (t : Table)
      → Sized m t
      → Sized m (claim_row worker draw s t).0
  claim_row-Sized draw s m t z =
      rw (claim_row-update worker draw s t)
        (update-Sized (is_claimable s) (take_lease worker draw s) m t (λ _. refl) z)

  module _ (draw : ℕ → Draw) where
    claim_rows-Sized :
        (ss : List OutboxRow) (m : ℕ) (t : Table)
        → Sized m t
        → Sized m (claim_rows worker draw ss t).0
    unfolding claim_rows
    claim_rows-Sized [] m t z = z
    claim_rows-Sized (s ∷ ss) m t z =
        claim_rows-Sized ss m (claim_row worker (draw s.id) s t).0
          (claim_row-Sized (draw s.id) s m t z)

    other_claimed :
        (s q : OutboxRow) (j : ℕ) (t : Table)
        → (s.id == j) ≡ false
        → find_row j t ≡ some q
        → find_row j (claim_row worker (draw s.id) s t).0 ≡ some q
    unfolding claim_row act
    other_claimed s q j t ne h =
        find_row-act (claiming worker (draw s.id) s) j t q h
        ∙ ap some (untouched worker (draw s.id) s q j (find_row_id j t q h) (ground (arith, ne)))

    others_claimed :
        (ss : List OutboxRow) (q : OutboxRow) (j : ℕ) (t : Table)
        → All (λ s. (s.id == j) ≡ false) ss
        → find_row j t ≡ some q
        → find_row j (claim_rows worker draw ss t).0 ≡ some q
    unfolding claim_rows
    others_claimed [] q j t a h = h
    others_claimed (s ∷ ss) q j t a h =
        others_claimed ss q j (claim_row worker (draw s.id) s t).0 a.1 (other_claimed s q j t a.0 h)

    with_other :
        (P : OutboxRecord → Type 0) (s : OutboxRow) (t : Table) (o : Option OutboxRecord)
        (ks : List OutboxRecord)
        → (claim_row worker (draw s.id) s t).1 ≡ o
        → P (record_of worker (draw s.id) s)
        → All P ks
        → All P (with_record o ks)
    with_other P s t none ks q p h = h
    with_other P s t (some k) ks q p h = (rw (claim_row-some worker (draw s.id) s t k q).0 p, h)

    others_recorded :
        (ss : List OutboxRow) (j : ℕ) (t : Table)
        → All (λ s. (s.id == j) ≡ false) ss
        → All (λ k. (k.id == j) ≡ false) (claim_rows worker draw ss t).1
    unfolding claim_rows
    others_recorded [] j t a = tt
    others_recorded (s ∷ ss) j t a =
        with_other (λ k. (k.id == j) ≡ false) s t (claim_row worker (draw s.id) s t).1
          (claim_rows worker draw ss (claim_row worker (draw s.id) s t).0).1 refl a.0
          (others_recorded ss j (claim_row worker (draw s.id) s t).0 a.1)

    Once-other :
        (k : OutboxRecord) (s : OutboxRow) (t : Table) (o : Option OutboxRecord)
        (ks : List OutboxRecord)
        → (claim_row worker (draw s.id) s t).1 ≡ o
        → (s.id == k.id) ≡ false
        → Once k ks
        → Once k (with_record o ks)
    Once-other k s t none ks q ne h = h
    Once-other k s t (some x) ks q ne h =
        inr (rw (claim_row-some worker (draw s.id) s t x q).0 ne, h)

    -- The round of the row itself.
    own_claimed :
        (r : OutboxRow) (t : Table)
        → Distinct t
        → find_row r.id t ≡ some r
        → is_waiting r.status ≡ true
        → (find_row r.id (claim_row worker (draw r.id) r t).0
            ≡ some (take_lease worker (draw r.id) r r))
          × ((claim_row worker (draw r.id) r t).1 ≡ some (record_of worker (draw r.id) r))
    unfolding claim_row act
    own_claimed r t d h w =
        let own : is_claimable r r ≡ true =
          unfold is_claimable in ground (arith, w, ==_self r.id) in
        let hit : matches (is_claimable r) t ≡ true =
          matches_at (is_claimable r) r.id (λ s e. unfold is_claimable in ground (arith, e)) t r d h
          ∙ own in
        (
          find_row-act (claiming worker (draw r.id) r) r.id t r h
              ∙ ap some (unfold act_row in rw own refl),
          rw hit refl,
        )

    -- The claiming loop over rows with the row among them.
    own_claims :
        (ss : List OutboxRow) (r : OutboxRow) (m : ℕ) (t : Table)
        → Apart ss
        → In r ss
        → Sized m t
        → find_row r.id t ≡ some r
        → is_waiting r.status ≡ true
        → (find_row r.id (claim_rows worker draw ss t).0 ≡ some (take_lease worker (draw r.id) r r))
          × Once (record_of worker (draw r.id) r) (claim_rows worker draw ss t).1
    unfolding claim_rows Apart
    own_claims [] r m t a i z h w = absurd i
    own_claims (s ∷ ss) r m t a (inl e) z h w =
        let mine = own_claimed r t z.0 h w in
        let u = (claim_row worker (draw r.id) r t).0 in
        rw (sym e) (
          others_claimed ss (take_lease worker (draw r.id) r r) r.id u (rw e a.0) mine.0,
          rw mine.1 (inl (refl, others_recorded ss r.id u (rw e a.0))),
        )
    own_claims (s ∷ ss) r m t a (inr i) z h w =
        let u = (claim_row worker (draw s.id) s t).0 in
        let ne : (s.id == r.id) ≡ false =
          ground (arith, All-at (λ x. (x.id == s.id) ≡ false) r ss a.0 i) in
        let rest =
          own_claims ss r m u a.1 i (claim_row-Sized (draw s.id) s m t z)
            (other_claimed s r r.id t ne h) w in
        (
          rest.0,
          Once-other (record_of worker (draw r.id) r) s t (claim_row worker (draw s.id) s t).1
              (claim_rows worker draw ss u).1 refl ne rest.1,
        )

    -- A batch that leaves no ready row out takes the row under a lease, and has one record of it.
    pub batch_claims :
        (limit before timeout : ℕ) (destination : String) (r : OutboxRow) (m : ℕ) (t : Table)
        → m ≤ limit
        → Sized m t
        → find_row r.id t ≡ some r
        → is_waiting r.status ≡ true
        → is_due before timeout r ≡ true
        → is_for (some destination) r ≡ true
        → (let claimed = claim_batch worker limit before timeout (some destination) draw t in
            (find_row r.id claimed.0 ≡ some (take_lease worker (draw r.id) r r))
            × Once (record_of worker (draw r.id) r) claimed.1
            × Sized m claimed.0)
    unfolding claim_batch
    batch_claims limit before timeout destination r m t le z h w due here =
        let ss = select_ready limit before timeout (some destination) t in
        let mine =
          own_claims ss r m t (select_ready-Apart limit before timeout (some destination) t z.0)
            (select_ready_all limit before timeout (some destination) t r (omega (arith, le, z.1))
              (In-find r.id t r h) due here)
            z h w in
        (mine.0, mine.1, claim_rows-Sized ss m t z)
