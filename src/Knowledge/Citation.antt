-- ===== src/Knowledge/Citation.antt =====
-- Content hashes and citation handles
-- (src/hisiem_soc_copilot/domain/knowledge/value_objects.py). SHA-256 is an argument of what uses
-- it.
use hisiem_soc_copilot.Knowledge.{RetrievalError, invalid_content_hash, invalid_citation}
use hisiem_soc_copilot.Knowledge.Texts.{
  Text, Avoids, text_eq, text_eq_self, eq_of_text_eq, split_on, split_where, split_where-join, join,
  join-split_on,
}
use hisiem_soc_copilot.Knowledge.Uuids.{
  is_hex, str_uuid, uuid_of, uuid_bound, uuid_of-str_uuid, str_uuid-Avoids,
}
use hisiem_soc_copilot.Prelude.{
  ℕ, zero, suc, ◌≤◌, ◌<◌, ◌≡◌, refl, sym, ap, ◌∙◌, Bool, true, false, not, ◌&&◌, ◌||◌, ◌==◌, leb,
  Option, none, some, List, [], ◌∷◌, ◌++◌, arith, if◌then◌else◌, all, take, length, is_empty,
  Result, ok, ◌>>=◌, ◌>>◌, require, All,
}

-- `[0-9a-f]{64}`
unfoldable pub is_valid_content_hash : Text → Bool
unfolding is_hex
is_valid_content_hash t = length t == 64 && all is_hex t

unfoldable pub require_valid_content_hash : Text → Result RetrievalError Text
unfolding is_valid_content_hash
require_valid_content_hash t = require (is_valid_content_hash t) invalid_content_hash >> ok t

unfoldable pub content_hash_matches : (Text → Text) → Text → Text → Bool
unfolding is_valid_content_hash text_eq
content_hash_matches sha content hash =
    if not (is_valid_content_hash hash) then false else text_eq (sha content) hash

abbrev citation_prefix_len : ℕ
citation_prefix_len = 12

unfoldable pub content_hash_prefix : Text → Result RetrievalError Text
unfolding require_valid_content_hash
content_hash_prefix hash = require_valid_content_hash hash >>= λ h. ok (take citation_prefix_len h)

-- `[0-9a-f]{8,16}`
unfoldable is_hash_prefix : Text → Bool
unfolding is_hex
is_hash_prefix t = leb 8 (length t) && leb (length t) 16 && all is_hex t

pub record Citation : Type 0 where
  pub chunk_id : ℕ
  pub content_hash_prefix : Text

-- The constructor, with its check.
unfoldable pub citation : ℕ → Text → Result RetrievalError Citation
unfolding is_hash_prefix
citation chunk_id prefix =
    require (is_empty prefix || is_hash_prefix prefix) invalid_citation
    >> ok (record { chunk_id = chunk_id; content_hash_prefix = prefix })

abbrev kcit : Text
kcit = 107 ∷ 99 ∷ 105 ∷ 116 ∷ []

abbrev colon : ℕ
colon = 58

unfoldable pub render : Citation → Text
unfolding str_uuid
render c = kcit ++ (colon ∷ str_uuid c.chunk_id ++ (colon ∷ c.content_hash_prefix))

unfoldable pub format_citation_id : ℕ → Text → Result RetrievalError Text
unfolding content_hash_prefix citation render
format_citation_id chunk_id hash =
    content_hash_prefix hash >>= λ p. citation chunk_id p >>= λ c. ok (render c)

-- The parts of a citation, checked one after the other. `UUID(raw)` that raises is a `none`.
unfoldable check_uuid : Text → Text → Option ℕ → Option Citation
unfolding str_uuid text_eq is_hash_prefix
check_uuid raw hash none = none
check_uuid raw hash (some u) =
    if not (text_eq (str_uuid u) raw)
    then none
    else if not (is_hash_prefix hash)
    then none
    else some (record { chunk_id = u; content_hash_prefix = hash })

unfoldable check_parts : List Text → Option Citation
unfolding text_eq check_uuid uuid_of
check_parts (prefix ∷ raw ∷ hash ∷ []) =
    if not (text_eq prefix kcit) then none else check_uuid raw hash (uuid_of raw)
check_parts _ = none

unfoldable pub parse_citation_id : Text → Option Citation
unfolding split_on check_parts
parse_citation_id t = check_parts (split_on colon t)

-- A digit is no colon.
hex-Avoids : (t : Text) → all is_hex t ≡ true → Avoids (λ c. c == colon) t
unfolding is_hex
hex-Avoids [] h = tt
hex-Avoids (c ∷ cs) h = (ground arith, hex-Avoids cs (ground arith))

all-take : (p : ℕ → Bool) (n : ℕ) (t : Text) → all p t ≡ true → all p (take n t) ≡ true
all-take p zero t h = refl
all-take p (suc n) [] h = refl
all-take p (suc n) (c ∷ cs) h = ground (arith, all-take p n cs)

length-take_of_le : (n : ℕ) (t : Text) → n ≤ length t → length (take n t) ≡ n
length-take_of_le zero t h = refl
length-take_of_le (suc n) [] h = absurd (omega arith)
length-take_of_le (suc n) (c ∷ cs) h = omega (arith, length-take_of_le n cs (omega arith))

take-is_hash_prefix :
    (hash : Text) → is_valid_content_hash hash ≡ true → is_hash_prefix (take 12 hash) ≡ true
unfolding is_valid_content_hash is_hash_prefix
take-is_hash_prefix hash h = ground (arith, length-take_of_le 12 hash, all-take is_hex 12 hash)

kcit-Avoids : Avoids (λ x. x == colon) kcit
kcit-Avoids = ground arith

-- A rendered citation falls into its three parts again.
split_on-render :
    (c : Citation)
    → is_hash_prefix c.content_hash_prefix ≡ true
    → split_on colon (render c) ≡ kcit ∷ str_uuid c.chunk_id ∷ c.content_hash_prefix ∷ []
unfolding split_on
split_on-render c h =
    let parts : render c ≡ join colon (kcit ∷ str_uuid c.chunk_id ∷ c.content_hash_prefix ∷ []) =
      unfold render join in refl in
    ap (split_where (λ x. x == colon)) parts
    ∙ split_where-join (λ x. x == colon) colon kcit
        (str_uuid c.chunk_id ∷ c.content_hash_prefix ∷ []) refl
        (both kcit (str_uuid c.chunk_id ∷ c.content_hash_prefix ∷ []) kcit-Avoids (
          both (str_uuid c.chunk_id) (c.content_hash_prefix ∷ []) (str_uuid-Avoids c.chunk_id) (
            both c.content_hash_prefix []
              (hex-Avoids c.content_hash_prefix (unfold is_hash_prefix in ground arith)) tt)))
  where
    both :
        (w : Text) (ws : List Text)
        → Avoids (λ x. x == colon) w
        → All (Avoids (λ x. x == colon)) ws
        → All (Avoids (λ x. x == colon)) (w ∷ ws)
    both w ws h k = (h, k)

parse-render :
    (c : Citation)
    → c.chunk_id < uuid_bound
    → is_hash_prefix c.content_hash_prefix ≡ true
    → parse_citation_id (render c) ≡ some c
unfolding parse_citation_id check_parts check_uuid
parse-render c b h = rw (split_on-render c h) (
    ground (
      arith,
      text_eq_self kcit,
      text_eq_self (str_uuid c.chunk_id),
      uuid_of-str_uuid c.chunk_id b,
      h,
    ))

-- For a chunk id below 16 ^ 32 and a hash of 64 lower-case hexadecimal digits, the citation is
-- formatted, and the parser reads the same id and the first twelve digits from it.
pub parse-format :
    (u : ℕ) (hash : Text)
    → u < uuid_bound
    → is_valid_content_hash hash ≡ true
    → (format_citation_id u hash
        ≡ ok (render (record { chunk_id = u; content_hash_prefix = take 12 hash })))
      × (parse_citation_id (render (record { chunk_id = u; content_hash_prefix = take 12 hash }))
          ≡ some (record { chunk_id = u; content_hash_prefix = take 12 hash }))
parse-format u hash b h = (
  unfold format_citation_id content_hash_prefix require_valid_content_hash citation in
      ground (arith, take-is_hash_prefix hash h, h),
  parse-render (record { chunk_id = u; content_hash_prefix = take 12 hash }) b
      (take-is_hash_prefix hash h),
)

-- What follows the comparison with the text of the parsed UUID.
abbrev after_uuid : Text → Text → Text → ℕ → Option Citation
after_uuid s raw hash u =
    if not (text_eq s raw)
    then none
    else if not (is_hash_prefix hash)
    then none
    else some (record { chunk_id = u; content_hash_prefix = hash })

after_uuid_lem :
    (s raw hash : Text) (u : ℕ) (c : Citation)
    → after_uuid s raw hash u ≡ some c
    → (raw ≡ s) × (u ≡ c.chunk_id) × (hash ≡ c.content_hash_prefix)
after_uuid_lem s raw hash u c e = ground (arith, eq_of_text_eq s raw)

check_uuid_lem :
    (raw hash : Text) (o : Option ℕ) (c : Citation)
    → check_uuid raw hash o ≡ some c
    → (raw ≡ str_uuid c.chunk_id) × (hash ≡ c.content_hash_prefix)
unfolding check_uuid
check_uuid_lem raw hash none c e = ground arith
check_uuid_lem raw hash (some u) c e =
    let l = after_uuid_lem (str_uuid u) raw hash u c e in (l.0 ∙ ap str_uuid l.1, l.2)

check_parts_lem :
    (parts : List Text) (c : Citation)
    → check_parts parts ≡ some c
    → parts ≡ kcit ∷ str_uuid c.chunk_id ∷ c.content_hash_prefix ∷ []
unfolding check_parts
check_parts_lem [] c e = ground arith
check_parts_lem (a ∷ []) c e = ground arith
check_parts_lem (a ∷ b ∷ []) c e = ground arith
check_parts_lem (a ∷ b ∷ d ∷ []) c e =
    ground (arith, eq_of_text_eq a kcit, check_uuid_lem b d (uuid_of b) c)
check_parts_lem (a ∷ b ∷ d ∷ x ∷ xs) c e = ground arith

-- A text that parses as a citation is the text of that citation.
pub render-parse : (t : Text) (c : Citation) → parse_citation_id t ≡ some c → render c ≡ t
unfolding parse_citation_id
render-parse t c e =
    let parts : render c ≡ join colon (kcit ∷ str_uuid c.chunk_id ∷ c.content_hash_prefix ∷ []) =
      unfold render join in refl in
    parts ∙ sym (ap (join colon) (check_parts_lem (split_on colon t) c e)) ∙ join-split_on colon t
