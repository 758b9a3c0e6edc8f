-- ===== src/Js/Coerce.antt =====
-- The text that a pattern test makes of a value that is no text: `/…/.test(v)`.
use sql_server_lab.Prelude.{
  ℕ, zero, suc, ◌+◌, ◌/◌, ◌%◌, Bool, true, false, List, [], ◌∷◌, ◌++◌, ltb, if◌then◌else◌,
}
use sql_server_lab.Js.{
  Value, Elements, undefined, null, bool, num, negative, fraction, str, arr, obj, no_more, item,
  codes, truthy,
}

-- The decimal digits of a number, with room for 21 of them; from 10 ^ 21 on JavaScript writes an
-- exponent with a sign, which no pattern of Ui/ accepts.
abbrev pub digits_of : ℕ → ℕ → List ℕ
digits_of zero n = []
digits_of (suc room) n =
    let front = digits_of room (n / 10) in
    if ltb n 10 then (n + b'0') ∷ [] else front ++ (n % 10 + b'0') ∷ []

abbrev pub number_text : ℕ → List ℕ
number_text n = if ltb n 1000000000000000000000 then digits_of 21 n else codes "1e+21"

unfoldable mutual
  -- An element of an array as a text; null and undefined give none. A negative number is written by
  -- its sign alone, which suffices for the patterns.
  pub element_text : Value → List ℕ
  element_text undefined = []
  element_text null = []
  element_text (bool true) = codes "true"
  element_text (bool false) = codes "false"
  element_text (num n) = number_text n
  element_text (negative n) = b'-' ∷ []
  element_text (fraction s) = codes s
  element_text (str s) = codes s
  element_text (arr vs) = joined vs
  element_text (obj fs) = codes "[object Object]"

  -- The elements, joined by commas.
  pub joined : Elements → List ℕ
  joined no_more = []
  joined (item v no_more) = element_text v
  joined (item v (item w vs)) = element_text v ++ b',' ∷ joined (item w vs)

-- `String(v)`.
unfoldable pub text_value : Value → List ℕ
text_value undefined = codes "undefined"
text_value null = codes "null"
text_value v = element_text v

-- `/…/.test(v || '')`.
abbrev pub test_or_empty : (List ℕ → Bool) → Value → Bool
test_or_empty p v = if truthy v then p (text_value v) else p []
