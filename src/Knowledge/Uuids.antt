-- ===== src/Knowledge/Uuids.antt =====
-- `str(UUID)` and `UUID(text)` as the citation parser uses them
-- (src/hisiem_soc_copilot/domain/knowledge/value_objects.py). A UUID is a number below 16 ^ 32. The
-- constructor also takes capital digits, braces and other places of the hyphens; it takes a "urn:"
-- prefix as well, which no piece of a text split at ':' holds, and it strips braces, which the
-- comparison with `str` refuses in any case.
use hisiem_soc_copilot.Knowledge.Texts.{Text, Avoids}
use hisiem_soc_copilot.Prelude.{
  ℕ, zero, suc, ◌+◌, ◌*◌, ◌/◌, ◌%◌, ◌-◌, ◌^◌, ◌<◌, ◌≡◌, refl, ap, ◌∙◌, Bool, true, not, ◌&&◌, ◌||◌,
  ◌==◌, leb, ltb, Option, none, some, List, [], ◌∷◌, ◌++◌, arith, if◌then◌else◌, All, keep, take,
  length,
}

-- A lower-case hexadecimal digit.
unfoldable pub digit : ℕ → ℕ
digit n = if ltb n 10 then 48 + n else 87 + n

unfoldable digit_value : ℕ → Option ℕ
digit_value c =
    if leb 48 c && leb c 57
    then some (c - 48)
    else if leb 97 c && leb c 102
    then some (c - 87)
    else if leb 65 c && leb c 70
    then some (c - 55)
    else none

-- The last `n` hexadecimal digits of `u`, before `rest`.
unfoldable pub hex_before : ℕ → ℕ → Text → Text
unfolding digit
hex_before zero u rest = rest
hex_before (suc n) u rest = hex_before n (u / 16) (digit (u % 16) ∷ rest)

-- `int(text, 16)` after the digits read so far.
unfoldable read_hex : ℕ → Text → Option ℕ
unfolding digit_value
read_hex acc [] = some acc
read_hex acc (c ∷ cs) = elim (digit_value c) [ none ↦ none | some v ↦ read_hex (acc * 16 + v) cs ]

abbrev drop : ℕ → Text → Text
drop zero t = t
drop (suc n) [] = []
drop (suc n) (c ∷ cs) = drop n cs

-- Hyphens after groups of the given lengths.
unfoldable hyphenate : List ℕ → Text → Text
hyphenate [] t = t
hyphenate (n ∷ ns) t = take n t ++ (45 ∷ hyphenate ns (drop n t))

abbrev uuid_groups : List ℕ
uuid_groups = 8 ∷ 4 ∷ 4 ∷ 4 ∷ []

abbrev no_hyphens : Text → Text
no_hyphens t = keep (λ c. not (c == 45)) t

unfoldable pub str_uuid : ℕ → Text
unfolding hyphenate hex_before
str_uuid u = hyphenate uuid_groups (hex_before 32 u [])

unfoldable pub uuid_of : Text → Option ℕ
unfolding read_hex
uuid_of t = if length (no_hyphens t) == 32 then read_hex 0 (no_hyphens t) else none

abbrev pub uuid_bound : ℕ
uuid_bound = 16 ^ 32

-- A lower-case hexadecimal digit, as the regular expressions spell it.
unfoldable pub is_hex : ℕ → Bool
is_hex c = (leb 48 c && leb c 57) || (leb 97 c && leb c 102)

abbrev IsHexText : Text → Type 0
IsHexText = All (λ c. is_hex c ≡ true)

digit-is_hex : (n : ℕ) → n < 16 → is_hex (digit n) ≡ true
unfolding digit is_hex
digit-is_hex n h = ground arith

digit_value-digit : (n : ℕ) → n < 16 → digit_value (digit n) ≡ some n
unfolding digit digit_value
digit_value-digit n h = ground arith

hex_before-IsHexText : (n u : ℕ) (rest : Text) → IsHexText rest → IsHexText (hex_before n u rest)
unfolding hex_before
hex_before-IsHexText zero u rest h = h
hex_before-IsHexText (suc n) u rest h =
    hex_before-IsHexText n (u / 16) (digit (u % 16) ∷ rest) (digit-is_hex (u % 16) (omega arith), h)

length-hex_before : (n u : ℕ) (rest : Text) → length (hex_before n u rest) ≡ n + length rest
unfolding hex_before
length-hex_before zero u rest = omega arith
length-hex_before (suc n) u rest =
    omega (arith, length-hex_before n (u / 16) (digit (u % 16) ∷ rest))

read_hex-digit :
    (acc n : ℕ) (rest : Text)
    → n < 16
    → read_hex acc (digit n ∷ rest) ≡ read_hex (acc * 16 + n) rest
unfolding read_hex
read_hex-digit acc n rest h = ground (arith, digit_value-digit n h)

pow_suc : (n : ℕ) → 16 ^ (suc n) ≡ 16 * 16 ^ n
pow_suc n = omega arith

read_hex-hex_before :
    (n u acc : ℕ) (rest : Text)
    → u < 16 ^ n
    → read_hex acc (hex_before n u rest) ≡ read_hex (acc * 16 ^ n + u) rest
unfolding hex_before
read_hex-hex_before zero u acc rest h =
    let e : acc ≡ acc * 16 ^ zero + u = ground arith in ap (λ k. read_hex k rest) e
read_hex-hex_before (suc n) u acc rest h =
    read_hex-hex_before n (u / 16) acc (digit (u % 16) ∷ rest) (omega (arith, pow_suc n))
    ∙ read_hex-digit (acc * 16 ^ n + u / 16) (u % 16) rest (omega arith)
    ∙ ap (λ k. read_hex k rest) (same (16 ^ n) (16 ^ (suc n)) (pow_suc n))
  where
    same : (q r : ℕ) → r ≡ 16 * q → (acc * q + u / 16) * 16 + u % 16 ≡ acc * r + u
    same q r e = rw e (omega arith)

-- A text of hexadecimal digits keeps all of them when the hyphens are removed.
no_hyphens-hex : (t : Text) → IsHexText t → no_hyphens t ≡ t
unfolding is_hex
no_hyphens-hex [] h = refl
no_hyphens-hex (c ∷ cs) h = ground (arith, no_hyphens-hex cs h.1, h.0)

no_hyphens-append : (t u : Text) → no_hyphens (t ++ u) ≡ no_hyphens t ++ no_hyphens u
no_hyphens-append [] u = refl
no_hyphens-append (c ∷ cs) u = ground (arith, no_hyphens-append cs u)

take-append-drop : (n : ℕ) (t : Text) → take n t ++ drop n t ≡ t
take-append-drop zero t = refl
take-append-drop (suc n) [] = refl
take-append-drop (suc n) (c ∷ cs) = ap (λ r. c ∷ r) (take-append-drop n cs)

IsHexText-take : (n : ℕ) (t : Text) → IsHexText t → IsHexText (take n t)
IsHexText-take zero t h = tt
IsHexText-take (suc n) [] h = tt
IsHexText-take (suc n) (c ∷ cs) h = (h.0, IsHexText-take n cs h.1)

IsHexText-drop : (n : ℕ) (t : Text) → IsHexText t → IsHexText (drop n t)
IsHexText-drop zero t h = h
IsHexText-drop (suc n) [] h = tt
IsHexText-drop (suc n) (c ∷ cs) h = IsHexText-drop n cs h.1

no_hyphens-hyphenate : (ns : List ℕ) (t : Text) → IsHexText t → no_hyphens (hyphenate ns t) ≡ t
unfolding hyphenate
no_hyphens-hyphenate [] t h = no_hyphens-hex t h
no_hyphens-hyphenate (n ∷ ns) t h =
    no_hyphens-append (take n t) (45 ∷ hyphenate ns (drop n t))
    ∙ rw
        (
          no_hyphens-hex (take n t) (IsHexText-take n t h),
          no_hyphens-hyphenate ns (drop n t) (IsHexText-drop n t h),
        )
        (take-append-drop n t)

uuid_of-hyphenate :
    (t : Text) → IsHexText t → length t ≡ 32 → uuid_of (hyphenate uuid_groups t) ≡ read_hex 0 t
unfolding uuid_of
uuid_of-hyphenate t h e = rw (no_hyphens-hyphenate uuid_groups t h) (ground (arith, e))

all_read : (u : ℕ) → read_hex (0 * 16 ^ 32 + u) [] ≡ some u
unfolding read_hex
all_read u = ap (λ k. some k) (omega arith)

-- The text of a UUID reads back as the UUID.
pub uuid_of-str_uuid : (u : ℕ) → u < uuid_bound → uuid_of (str_uuid u) ≡ some u
unfolding str_uuid
uuid_of-str_uuid u h =
    uuid_of-hyphenate (hex_before 32 u []) (hex_before-IsHexText 32 u [] tt)
      (length-hex_before 32 u [])
    ∙ read_hex-hex_before 32 u 0 [] h
    ∙ all_read u

-- The text of a UUID holds no colon.
pub str_uuid-Avoids : (u : ℕ) → Avoids (λ c. c == 58) (str_uuid u)
unfolding str_uuid
str_uuid-Avoids u = hyphens uuid_groups (hex_before 32 u []) (hex_before-IsHexText 32 u [] tt)
  where
    hex : (t : Text) → IsHexText t → Avoids (λ c. c == 58) t
    hex [] h = tt
    hex (c ∷ cs) h = (unfold is_hex in ground (arith, h.0), hex cs h.1)

    both :
        (t u : Text)
        → Avoids (λ c. c == 58) t
        → Avoids (λ c. c == 58) u
        → Avoids (λ c. c == 58) (t ++ u)
    both [] v h k = k
    both (c ∷ cs) v h k = (h.0, both cs v h.1 k)

    hyphens : (ns : List ℕ) (t : Text) → IsHexText t → Avoids (λ c. c == 58) (hyphenate ns t)
    hyphens [] t h = hex t h
    hyphens (n ∷ ns) t h =
        both (take n t) (45 ∷ hyphenate ns (drop n t)) (hex (take n t) (IsHexText-take n t h))
          (refl, hyphens ns (drop n t) (IsHexText-drop n t h))
