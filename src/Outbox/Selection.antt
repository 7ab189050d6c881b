-- ===== src/Outbox/Selection.antt =====
-- What the SELECT of a claim returns: due rows only, the oldest ones, at most `limit` of them.
use hisiem_soc_copilot.Prelude.{
  In, In-keep, suc, zero, ◌⊎◌, refl, ap, ℕ, suc, zero, ◌≤◌, ◌≡◌, ◌⊎◌, refl, String, Option, none,
  Bool, true, false, List, [], ◌∷◌, ◌==◌, arith, ap, ◌∙◌, ◌&&◌, inl, inr, All, All-take, keep, take,
  length, length-take-le, leb, Bool-cases,
}
use hisiem_soc_copilot.Outbox.{
  OutboxRow, Table, is_due, is_for, select_ready, order_by_created, insert_by_created, find_row,
}
use hisiem_soc_copilot.Outbox.Rows.{Distinct}

module _ (P : OutboxRow → Type 0) where
  All-insert :
      (r : OutboxRow) (rs : List OutboxRow) → P r → All P rs → All P (insert_by_created r rs)
  unfolding insert_by_created
  All-insert r [] p h = (p, tt)
  All-insert r (s ∷ ss) p h = elim (Bool-cases (leb r.created_at s.created_at)) [
    | inl e ↦ rw e (p, h)
    | inr e ↦ rw e (h.0, All-insert r ss p h.1)
  ]

  All-order : (rs : List OutboxRow) → All P rs → All P (order_by_created rs)
  unfolding order_by_created
  All-order [] h = tt
  All-order (r ∷ rs) h = All-insert r (order_by_created rs) h.0 (All-order rs h.1)

All-keep : (p : OutboxRow → Bool) (rs : List OutboxRow) → All (λ r. p r ≡ true) (keep p rs)
All-keep p [] = tt
All-keep p (r ∷ rs) = elim (Bool-cases (p r)) [
  | inl e ↦ rw e (e, All-keep p rs)
  | inr e ↦ rw e (All-keep p rs)
]

-- Whether a row may be selected.
abbrev is_ready : ℕ → ℕ → Option String → OutboxRow → Bool
is_ready before timeout destination r = is_due before timeout r && is_for destination r

select_ready_due :
    (limit before timeout : ℕ) (destination : Option String) (t : Table)
    → All
        (λ r. is_ready before timeout destination r ≡ true)
        (select_ready limit before timeout destination t)
unfolding select_ready
select_ready_due limit before timeout destination t =
    All-take _ limit _ (All-order _ _ (All-keep (is_ready before timeout destination) t))

pub length-select_ready :
    (limit before timeout : ℕ) (destination : Option String) (t : Table)
    → length (select_ready limit before timeout destination t) ≤ limit
unfolding select_ready
length-select_ready limit before timeout destination t = length-take-le limit _

IsOrdered : List OutboxRow → Type 0
IsOrdered [] = Unit
IsOrdered (r ∷ rs) = All (λ s. r.created_at ≤ s.created_at) rs × IsOrdered rs

All-older :
    (a b : ℕ) (rs : List OutboxRow)
    → a ≤ b
    → All (λ s. b ≤ s.created_at) rs
    → All (λ s. a ≤ s.created_at) rs
All-older a b [] h k = tt
All-older a b (r ∷ rs) h k = (omega (arith, k.0), All-older a b rs h k.1)

insert-IsOrdered :
    (r : OutboxRow) (rs : List OutboxRow) → IsOrdered rs → IsOrdered (insert_by_created r rs)
unfolding insert_by_created IsOrdered
insert-IsOrdered r [] h = (tt, tt)
insert-IsOrdered r (s ∷ ss) h = elim (Bool-cases (leb r.created_at s.created_at)) [
  | inl e ↦ rw e ((ground arith, All-older r.created_at s.created_at ss (ground arith) h.0), h)
  | inr e ↦ rw e (All-insert _ r ss (ground arith) h.0, insert-IsOrdered r ss h.1)
]

order-IsOrdered : (rs : List OutboxRow) → IsOrdered (order_by_created rs)
unfolding order_by_created IsOrdered
order-IsOrdered [] = tt
order-IsOrdered (r ∷ rs) = insert-IsOrdered r (order_by_created rs) (order-IsOrdered rs)

In-insert_self : (r : OutboxRow) (rs : List OutboxRow) → In r (insert_by_created r rs)
unfolding insert_by_created
In-insert_self r [] = inl refl
In-insert_self r (s ∷ ss) = elim (Bool-cases (leb r.created_at s.created_at)) [
  | inl e ↦ rw e (inl refl)
  | inr e ↦ rw e (inr (In-insert_self r ss))
]

or_deeper : {A B C : Type 0} → A ⊎ B → (B → C) → A ⊎ C
or_deeper (inl a) f = inl a
or_deeper (inr b) f = inr (f b)

In-insert : (x r : OutboxRow) (rs : List OutboxRow) → In x rs → In x (insert_by_created r rs)
unfolding insert_by_created
In-insert x r [] m = absurd m
In-insert x r (s ∷ ss) m = elim (Bool-cases (leb r.created_at s.created_at)) [
  | inl e ↦ rw e (inr m)
  | inr e ↦ rw e (or_deeper m (In-insert x r ss))
]

In-order : (x : OutboxRow) (rs : List OutboxRow) → In x rs → In x (order_by_created rs)
unfolding order_by_created
In-order x [] m = absurd m
In-order x (r ∷ rs) (inl e) = rw e (In-insert_self r (order_by_created rs))
In-order x (r ∷ rs) (inr m) = In-insert x r (order_by_created rs) (In-order x rs m)

-- The alternative to being among the first `n` of an ordered list.
abbrev pub CrowdedOut : ℕ → OutboxRow → List OutboxRow → Type 0
CrowdedOut n x rs = (length rs ≡ n) × All (λ s. s.created_at ≤ x.created_at) rs

All-In :
    (x : OutboxRow) {a : ℕ} (rs : List OutboxRow)
    → All (λ s. a ≤ s.created_at) rs
    → In x rs
    → a ≤ x.created_at
All-In x [] h m = absurd m
All-In x (r ∷ rs) h (inl e) = rw e h.0
All-In x (r ∷ rs) h (inr m) = All-In x rs h.1 m

take_oldest :
    (n : ℕ) (x : OutboxRow) (rs : List OutboxRow)
    → IsOrdered rs
    → In x rs
    → In x (take n rs) ⊎ CrowdedOut n x (take n rs)
unfolding IsOrdered
take_oldest zero x rs h m = inr (refl, tt)
take_oldest (suc n) x [] h m = absurd m
take_oldest (suc n) x (r ∷ rs) h (inl e) = inl (inl e)
take_oldest (suc n) x (r ∷ rs) h (inr m) = elim (take_oldest n x rs h.1 m) [
  | inl found ↦ inl (inr found)
  | inr (full, older) ↦ inr (ap suc full, (All-In x rs h.0 m, older))
]

-- A row that is ready and is not selected gave way to `limit` rows, none of them younger.
pub select_ready_oldest :
    (limit before timeout : ℕ) (destination : Option String) (t : Table) (x : OutboxRow)
    → In x t
    → is_ready before timeout destination x ≡ true
    → In x (select_ready limit before timeout destination t)
      ⊎ CrowdedOut limit x (select_ready limit before timeout destination t)
unfolding select_ready
select_ready_oldest limit before timeout destination t x m h =
    let ready = keep (is_ready before timeout destination) t in
    take_oldest limit x (order_by_created ready) (order-IsOrdered ready)
      (In-order x ready (In-keep (is_ready before timeout destination) x t m h))

length-insert :
    (r : OutboxRow) (rs : List OutboxRow) → length (insert_by_created r rs) ≡ suc (length rs)
unfolding insert_by_created
length-insert r [] = refl
length-insert r (s ∷ ss) = ground (arith, length-insert r ss)

length-order : (rs : List OutboxRow) → length (order_by_created rs) ≡ length rs
unfolding order_by_created
length-order [] = refl
length-order (r ∷ rs) = length-insert r (order_by_created rs) ∙ ap suc (length-order rs)

length-keep : (p : OutboxRow → Bool) (rs : List OutboxRow) → length (keep p rs) ≤ length rs
length-keep p [] = omega arith
length-keep p (r ∷ rs) = ground (arith, length-keep p rs)

take_all : (n : ℕ) (rs : List OutboxRow) → length rs ≤ n → take n rs ≡ rs
take_all zero [] h = refl
take_all zero (r ∷ rs) h = absurd (omega (arith, h))
take_all (suc n) [] h = refl
take_all (suc n) (r ∷ rs) h = ap (λ xs. r ∷ xs) (take_all n rs (omega (arith, h)))

-- A limit that the rows of the table do not exceed leaves no ready row out.
pub select_ready_all :
    (limit before timeout : ℕ) (destination : Option String) (t : Table) (x : OutboxRow)
    → length t ≤ limit
    → In x t
    → is_due before timeout x ≡ true
    → is_for destination x ≡ true
    → In x (select_ready limit before timeout destination t)
unfolding select_ready
select_ready_all limit before timeout destination t x le m due here =
    let ready = keep (is_ready before timeout destination) t in
    rw
      (take_all limit (order_by_created ready) (
        omega (arith, le, length-order ready, length-keep (is_ready before timeout destination) t)))
      (In-order x ready (In-keep (is_ready before timeout destination) x t m (rw (due, here) refl)))

-- Rows of which no two share an id, as a condition on the items alone.
unfoldable pub Apart : List OutboxRow → Type 0
Apart [] = Unit
Apart (r ∷ rs) = All (λ s. (s.id == r.id) ≡ false) rs × Apart rs

absent : (j : ℕ) (t : Table) → find_row j t ≡ none → All (λ s. (s.id == j) ≡ false) t
unfolding find_row
absent j [] h = tt
absent j (r ∷ rs) h = (ground arith, absent j rs (ground arith))

Distinct-Apart : (t : Table) → Distinct t → Apart t
unfolding Apart
Distinct-Apart [] d = tt
Distinct-Apart (r ∷ rs) d = (absent r.id rs d.0, Distinct-Apart rs d.1)

keep-All :
    (P : OutboxRow → Type 0) (p : OutboxRow → Bool) (rs : List OutboxRow)
    → All P rs
    → All P (keep p rs)
keep-All P p [] h = tt
keep-All P p (r ∷ rs) h = elim (Bool-cases (p r)) [
  | inl e ↦ rw e (h.0, keep-All P p rs h.1)
  | inr e ↦ rw e (keep-All P p rs h.1)
]

keep-Apart : (p : OutboxRow → Bool) (rs : List OutboxRow) → Apart rs → Apart (keep p rs)
unfolding Apart
keep-Apart p [] h = tt
keep-Apart p (r ∷ rs) h = elim (Bool-cases (p r)) [
  | inl e ↦ rw e (keep-All _ p rs h.0, keep-Apart p rs h.1)
  | inr e ↦ rw e (keep-Apart p rs h.1)
]

insert-Apart :
    (r : OutboxRow) (rs : List OutboxRow)
    → All (λ s. (s.id == r.id) ≡ false) rs
    → Apart rs
    → Apart (insert_by_created r rs)
unfolding insert_by_created Apart
insert-Apart r [] a h = (tt, tt)
insert-Apart r (s ∷ ss) a h = elim (Bool-cases (leb r.created_at s.created_at)) [
  | inl e ↦ rw e (a, h)
  | inr e ↦ rw e (All-insert _ r ss (ground arith) h.0, insert-Apart r ss a.1 h.1)
]

order-Apart : (rs : List OutboxRow) → Apart rs → Apart (order_by_created rs)
unfolding order_by_created Apart
order-Apart [] h = tt
order-Apart (r ∷ rs) h =
    insert-Apart r (order_by_created rs) (All-order _ rs h.0) (order-Apart rs h.1)

take-Apart : (n : ℕ) (rs : List OutboxRow) → Apart rs → Apart (take n rs)
unfolding Apart
take-Apart zero rs h = tt
take-Apart (suc n) [] h = tt
take-Apart (suc n) (r ∷ rs) h = (All-take _ n rs h.0, take-Apart n rs h.1)

pub select_ready-Apart :
    (limit before timeout : ℕ) (destination : Option String) (t : Table)
    → Distinct t
    → Apart (select_ready limit before timeout destination t)
unfolding select_ready
select_ready-Apart limit before timeout destination t d =
    take-Apart limit _ (order-Apart _ (keep-Apart _ t (Distinct-Apart t d)))
