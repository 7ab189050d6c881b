-- ===== src/Response/ActionSpecs.antt =====
-- The executable actions and their parameters (src/hisiem_soc_copilot/domain/response/actions.py).
use hisiem_soc_copilot.Prelude.{
  ℕ, ◌≤◌, ◌≡◌, ◌↔◌, String, Option, none, some, Bool, true, false, List, [], ◌∷◌, ◌||◌, arith,
  str_eq, is_blank, codes, length, ltb, not, Result, ok, err, is_ok, if◌then◌else◌, keep, is_empty,
  str_eq_iff, sym, ◌∙◌,
}
use hisiem_soc_copilot.Response.{
  ResponseActionKey, start_soar_playbook, ParameterValue, text, other, Parameters, action_allowed,
  action_value,
}

pub record ActionSpec : Type 0 where
  pub key : ResponseActionKey
  pub required_parameters : List String
  pub allowed_parameters : List String
  pub max_parameter_length : ℕ

abbrev start_spec : ActionSpec
start_spec = record {
  key = start_soar_playbook;
  required_parameters = "playbook_id" ∷ [];
  allowed_parameters = "playbook_id" ∷ [];
  max_parameter_length = 200;
}

-- `_SPECS.get(ResponseActionKey(action_key)) if _is_known(action_key) else None`
unfoldable spec_of : String → Option ActionSpec
unfolding action_allowed action_value
spec_of key =
    if action_allowed key
    then (if str_eq key (action_value start_soar_playbook) then some start_spec else none)
    else none

unfoldable pub is_executable : String → Bool
unfolding action_value
is_executable key = str_eq key (action_value start_soar_playbook)

pub data ParameterError : Type 0 where
  unsupported_action : ParameterError
  missing_parameters : List String → ParameterError
  unsupported_parameters : List String → ParameterError
  not_a_text : String → ParameterError
  too_long : String → ParameterError

pub contains : List String → String → Bool
contains [] k = false
contains (j ∷ js) k = str_eq j k || contains js k

-- The set difference of two lists of names.
pub without : List String → List String → List String
unfolding contains
without xs ys = keep (λ k. not (contains ys k)) xs

pub names : Parameters → List String
names [] = []
names ((k, v) ∷ ps) = k ∷ names ps

check_value : ℕ → String → ParameterValue → Result ParameterError Unit
unfolding is_blank
check_value limit name (other n) = err (not_a_text name)
check_value limit name (text s) =
    if is_blank s
    then err (not_a_text name)
    else if ltb limit (length (codes s))
    then err (too_long name)
    else ok tt

first_error : Result ParameterError Unit → Result ParameterError Unit → Result ParameterError Unit
first_error (ok u) rest = rest
first_error (err e) rest = err e

check_values : ℕ → Parameters → Result ParameterError Unit
unfolding check_value first_error
check_values limit [] = ok tt
check_values limit ((name, value) ∷ ps) =
    let rest = check_values limit ps in first_error (check_value limit name value) rest

check_names : ActionSpec → Parameters → Result ParameterError Unit
unfolding without names check_values
check_names spec ps =
    let missing = without spec.required_parameters (names ps) in
    let extra = without (names ps) spec.allowed_parameters in
    if not (is_empty missing)
    then err (missing_parameters missing)
    else if not (is_empty extra)
    then err (unsupported_parameters extra)
    else check_values spec.max_parameter_length ps

check_spec : Option ActionSpec → Parameters → Result ParameterError Unit
unfolding check_names
check_spec none ps = err unsupported_action
check_spec (some spec) ps = check_names spec ps

unfoldable pub validate_action_parameters : String → Parameters → Result ParameterError Unit
unfolding spec_of check_spec
validate_action_parameters key ps = check_spec (spec_of key) ps

-- A dictionary has each key once.
unfoldable pub Distinct : Parameters → Type 0
unfolding contains names
Distinct [] = Unit
Distinct ((k, v) ∷ ps) = (contains (names ps) k ≡ false) × Distinct ps

-- A text with something in it, of 200 code points at most.
IsBounded : String → Type 0
IsBounded s = (is_blank s ≡ false) × (length (codes s) ≤ 200)

IsFit : ParameterValue → Type 0
IsFit (text s) = IsBounded s
IsFit (other n) = ⊥

-- The parameters that a playbook is started with: its id and nothing else.
IsPlaybookChoice : Parameters → Type 0
IsPlaybookChoice ((k, v) ∷ []) = (k ≡ "playbook_id") × IsFit v
IsPlaybookChoice _ = ⊥

check_value_iff :
    (name : String) (v : ParameterValue) → (is_ok (check_value 200 name v) ≡ true) ↔ IsFit v
unfolding check_value IsBounded IsFit
check_value_iff name (other n) = ground arith
check_value_iff name (text s) = ground arith

str_eq_flip : (a b : String) → str_eq a b ≡ true → str_eq b a ≡ true
str_eq_flip a b h = (str_eq_iff b a).1 (sym ((str_eq_iff a b).0 h))

str_eq_comm : (a b : String) → str_eq a b ≡ str_eq b a
str_eq_comm a b = ground (arith, str_eq_flip a b, str_eq_flip b a)

check_one :
    (k : String) (v : ParameterValue)
    → (is_ok (check_names start_spec ((k, v) ∷ [])) ≡ true) ↔ IsPlaybookChoice ((k, v) ∷ [])
unfolding check_names without names contains check_values first_error IsPlaybookChoice
check_one k v =
    ground (arith, check_value_iff k v, str_eq_comm "playbook_id" k, str_eq_iff k "playbook_id")

two_keys :
    (k j : String)
    → str_eq "playbook_id" k ≡ true
    → str_eq "playbook_id" j ≡ true
    → str_eq j k ≡ true
two_keys k j h h' =
    (str_eq_iff j k).1 (sym ((str_eq_iff "playbook_id" j).0 h') ∙ (str_eq_iff "playbook_id" k).0 h)

check_two :
    (k j : String) (v w : ParameterValue) (ps : Parameters)
    → str_eq j k ≡ false
    → is_ok (check_names start_spec ((k, v) ∷ (j, w) ∷ ps)) ≡ false
unfolding check_names without names contains
check_two k j v w ps h = ground (arith, two_keys k j)

or_left : (b c : Bool) → (b || c) ≡ false → b ≡ false
or_left b c h = ground arith

second_differs :
    (k j : String) (v w : ParameterValue) (ps : Parameters)
    → Distinct ((k, v) ∷ (j, w) ∷ ps)
    → str_eq j k ≡ false
unfolding Distinct contains names
second_differs k j v w ps distinct = or_left (str_eq j k) (contains (names ps) k) distinct.0

check_names_iff :
    (ps : Parameters)
    → Distinct ps
    → (is_ok (check_names start_spec ps) ≡ true) ↔ IsPlaybookChoice ps
check_names_iff [] distinct =
    unfold check_names without names contains IsPlaybookChoice in ground arith
check_names_iff ((k, v) ∷ []) distinct = check_one k v
check_names_iff ((k, v) ∷ (j, w) ∷ ps) distinct =
    unfold IsPlaybookChoice in
    ground (arith, check_two k j v w ps (second_differs k j v w ps distinct))

check_spec_iff :
    (key : String) (ps : Parameters)
    → (is_ok (validate_action_parameters key ps) ≡ true)
      ↔ ((key ≡ "START_SOAR_PLAYBOOK") × (is_ok (check_names start_spec ps) ≡ true))
unfolding validate_action_parameters check_spec spec_of action_allowed action_value
check_spec_iff key ps = ground (arith, str_eq_iff key "START_SOAR_PLAYBOOK")

-- A dictionary of parameters is accepted exactly for the one executable action, and when its one
-- key is `playbook_id`, with a text that is not blank and has 200 code points at most.
accepted_iff :
    (key : String) (ps : Parameters) (distinct : Distinct ps)
    → (is_ok (validate_action_parameters key ps) ≡ true)
      ↔ ((key ≡ "START_SOAR_PLAYBOOK") × IsPlaybookChoice ps)
accepted_iff key ps distinct = ground (arith, check_spec_iff key ps, check_names_iff ps distinct)
