-- ===== src/Runtime/Values.antt =====
-- What src/minion/runtime does with the JSON values of a tool call's arguments and of an event's
-- payload: `str`, `bool`, iteration, `arguments[key]` and `arguments.get(key, [])`.
use software_engineering_age.Prelude.{
  ℕ, zero, suc, String, ◌<>◌, Bool, true, false, Option, none, some, List, [], ◌∷◌, eqb,
  if◌then◌else◌,
}
use software_engineering_age.Prelude.Text
use software_engineering_age.Prelude.Text.{nonempty}
use software_engineering_age.Domain.{
  Value, Items, Fields, Payload, payload_get, str, num, bool, null, obj, arr, cons, nil, field, end,
}
use software_engineering_age.Effects.{Result, ok, err, key_error, external}

-- `str(value)`; `shown` is Python's text for a value that is no text
abbrev pub str_of : (Value → String) → Value → String
str_of shown (str s) = s
str_of shown v = shown v

-- `bool(value)`
abbrev pub truthy : Value → Bool
truthy (str s) = nonempty s
truthy (num zero) = false
truthy (num (suc n)) = true
truthy (bool b) = b
truthy null = false
truthy (obj end) = false
truthy (obj (field k v rest)) = true
truthy (arr nil) = false
truthy (arr (cons v rest)) = true

-- `bool(payload.get(key))`
abbrev pub truthy_at : Option Value → Bool
truthy_at none = false
truthy_at (some v) = truthy v

abbrev characters : String → List Value
characters String.[] = []
characters (String.◌∷◌ c s) = str (String.◌∷◌ c String.[]) ∷ characters s

abbrev elements : Items → List Value
elements nil = []
elements (cons v rest) = v ∷ elements rest

abbrev keys : Fields → List Value
keys end = []
keys (field k v rest) = str k ∷ keys rest

-- `for x in value`
abbrev pub iterate : Value → Result (List Value)
iterate (arr items) = ok (elements items)
iterate (obj fields) = ok (keys fields)
iterate (str s) = ok (characters s)
iterate _ = err (external "TypeError")

-- the values of `arguments.get(key, [])`
abbrev pub iterate_at : Option Value → Result (List Value)
iterate_at none = ok []
iterate_at (some v) = iterate v

-- `arguments[key]`
abbrev pub argument : String → Payload → Result Value
argument key arguments = elim (payload_get key arguments) [
  | none ↦ err (key_error key)
  | some v ↦ ok v
]

-- Python's library, as far as texts are made or searched by it: `str` of what is no text,
-- `json.dumps` of a payload and, indented, of a value, `re.search` with its first group, `re.sub`
-- with the empty text, and `int` of a text of digits.
pub record PythonText : Type 0 where
  pub shown : Value → String
  pub dumps : Payload → String
  pub dumps_indented : Value → String
  pub search_group : String → String → Option String
  pub sub_empty : String → String → String
  pub int : String → ℕ

-- the decimal digits of the next number, lowest first
abbrev increment : List ℕ → List ℕ
increment [] = 1 ∷ []
increment (d ∷ ds) = let carried = increment ds in if eqb d 9 then 0 ∷ carried else suc d ∷ ds

abbrev digits : ℕ → List ℕ
digits zero = 0 ∷ []
digits (suc n) = increment (digits n)

abbrev digit_text : ℕ → String
digit_text d = drop_text d "0123456789"
  where
    drop_text : ℕ → String → String
    drop_text n s = Text.take 1 (Text.drop n s)

abbrev digits_text : List ℕ → String → String
digits_text [] s = s
digits_text (d ∷ ds) s = digits_text ds (digit_text d <> s)

-- `str(n)` of a number
abbrev pub decimal : ℕ → String
decimal n = digits_text (digits n) ""
