-- ===== src/Js/Patterns.antt =====
-- Anchored regular expressions of Ui/*.js, as tests of a list of code points.
-- A pattern is a chain of classes with repetition counts; `^…$` matches the whole text.
use mathlib.Core.List.{reverse}
use sql_server_lab.Prelude.{
  ℕ, zero, suc, Bool, true, false, not, ◌&&◌, ◌||◌, List, [], ◌∷◌, if◌then◌else◌, leb, ◌==◌,
}

-- `$`.
abbrev pub finished : List ℕ → Bool
finished [] = true
finished (c ∷ cs) = false

-- `[class]{n}` and what follows it.
abbrev pub exactly : ℕ → (ℕ → Bool) → (List ℕ → Bool) → List ℕ → Bool
exactly zero p k cs = k cs
exactly (suc n) p k [] = false
exactly (suc n) p k (c ∷ cs) = p c && exactly n p k cs

-- `[class]{0,n}` and what follows it.
abbrev pub up_to : ℕ → (ℕ → Bool) → (List ℕ → Bool) → List ℕ → Bool
up_to zero p k cs = k cs
up_to (suc n) p k [] = k []
up_to (suc n) p k (c ∷ cs) = k (c ∷ cs) || (p c && up_to n p k cs)

abbrev pub is_digit : ℕ → Bool
is_digit c = leb b'0' c && leb c b'9'

abbrev pub is_lower : ℕ → Bool
is_lower c = leb b'a' c && leb c b'z'

abbrev pub is_upper : ℕ → Bool
is_upper c = leb b'A' c && leb c b'Z'

abbrev pub is_letter : ℕ → Bool
is_letter c = is_lower c || is_upper c

-- `[0-9a-f]`, and the same under the flag `i`.
abbrev pub is_hex : ℕ → Bool
is_hex c = is_digit c || (leb b'a' c && leb c b'f')

abbrev pub is_hex_i : ℕ → Bool
is_hex_i c = is_hex c || (leb b'A' c && leb c b'F')

-- `[A-Za-z0-9_-]`.
abbrev pub is_word_or_dash : ℕ → Bool
is_word_or_dash c = is_letter c || is_digit c || c == b'_' || c == b'-'

-- `[A-Za-z0-9_]`.
abbrev pub is_word : ℕ → Bool
is_word c = is_letter c || is_digit c || c == b'_'

abbrev pub is_dash : ℕ → Bool
is_dash c = c == b'-'

-- `[1-5]` and `[89ab]`, the latter under the flag `i`.
abbrev is_version : ℕ → Bool
is_version c = leb b'1' c && leb c b'5'

abbrev is_variant : ℕ → Bool
is_variant c = c == b'8' || c == b'9' || (leb b'a' c && leb c b'b') || (leb b'A' c && leb c b'B')

-- `/^h{8}-h{4}-h{4}-h{4}-h{12}$/` for a class `h`.
pub guid_of : (ℕ → Bool) → List ℕ → Bool
guid_of h = exactly 8 h (
    exactly 1 is_dash (
      exactly 4 h (
        exactly 1 is_dash (
          exactly 4 h
            (exactly 1 is_dash (exactly 4 h (exactly 1 is_dash (exactly 12 h finished))))))))

-- `/^[0-9a-f]{8}-…$/i`.
unfoldable pub guid_i : List ℕ → Bool
unfolding guid_of
guid_i = guid_of is_hex_i

-- The same without the flag.
unfoldable pub guid : List ℕ → Bool
unfolding guid_of
guid = guid_of is_hex

-- `/^[0-9a-f]{8}-[0-9a-f]{4}-[1-5][0-9a-f]{3}-[89ab][0-9a-f]{3}-[0-9a-f]{12}$/i`.
unfoldable pub guid_rfc : List ℕ → Bool
guid_rfc = exactly 8 is_hex_i (
    exactly 1 is_dash (
      exactly 4 is_hex_i (
        exactly 1 is_dash (
          exactly 1 is_version (
            exactly 3 is_hex_i (
              exactly 1 is_dash (
                exactly 1 is_variant
                  (exactly 3 is_hex_i (exactly 1 is_dash (exactly 12 is_hex_i finished))))))))))

-- `/^[A-Za-z][A-Za-z0-9_-]{0,63}$/`.
unfoldable pub instance_name : List ℕ → Bool
instance_name = exactly 1 is_letter (up_to 63 is_word_or_dash finished)

-- `/^[a-f0-9]{n}$/`.
unfoldable pub hex : ℕ → List ℕ → Bool
hex n = exactly n is_hex finished

-- `/^[0-9]{lo,hi}$/` for `hi = lo + more`.
unfoldable pub digits_between : ℕ → ℕ → List ℕ → Bool
digits_between lo more = exactly lo is_digit (up_to more is_digit finished)

-- White space and line ends, which `trim` removes.
abbrev pub is_space : ℕ → Bool
is_space c =
    (leb 9 c && leb c 13)
    || c == 32
    || c == 160
    || c == 5760
    || (leb 8192 c && leb c 8202)
    || c == 8232
    || c == 8233
    || c == 8239
    || c == 8287
    || c == 12288
    || c == 65279

unfoldable pub trim_start : List ℕ → List ℕ
trim_start [] = []
trim_start (c ∷ cs) = if is_space c then trim_start cs else c ∷ cs

-- `trim`, on the code points.
unfoldable pub trim : List ℕ → List ℕ
unfolding trim_start
trim cs = reverse (trim_start (reverse (trim_start cs)))

abbrev is_upper_or_underscore : ℕ → Bool
is_upper_or_underscore c = is_upper c || c == b'_'

abbrev all_of : (ℕ → Bool) → List ℕ → Bool
all_of p [] = true
all_of p (c ∷ cs) = p c && all_of p cs

-- A literal at the start, and what follows it.
abbrev pub literally : List ℕ → (List ℕ → Bool) → List ℕ → Bool
literally [] k cs = k cs
literally (l ∷ ls) k [] = false
literally (l ∷ ls) k (c ∷ cs) = c == l && literally ls k cs

-- `/^RUN_ARTIFACT_[A-Z_]+$/`.
unfoldable pub reason_code : List ℕ → Bool
reason_code =
    literally
      (b'R' ∷ b'U' ∷ b'N' ∷ b'_' ∷ b'A' ∷ b'R' ∷ b'T' ∷ b'I' ∷ b'F' ∷ b'A' ∷ b'C' ∷ b'T' ∷ b'_'
        ∷ [])
      (exactly 1 is_upper_or_underscore (all_of is_upper_or_underscore))

-- `/^[A-Za-z0-9][A-Za-z0-9._-]{0,127}$/`.
unfoldable pub model_name : List ℕ → Bool
model_name =
    exactly 1 (λ c. is_letter c || is_digit c)
      (up_to 127 (λ c. is_word_or_dash c || c == b'.') finished)

-- `/^[A-Za-z0-9_-]{24,256}$/`.
unfoldable pub api_key : List ℕ → Bool
api_key = exactly 24 is_word_or_dash (up_to 232 is_word_or_dash finished)

-- `!/[\u0000-\u001f\u007f-\u009f]/.test(…)`: no control character.
unfoldable pub no_control : List ℕ → Bool
no_control [] = true
no_control (c ∷ cs) = not (leb c 31 || (leb 127 c && leb c 159)) && no_control cs

-- `/^[A-Za-z0-9_]{1,128}$/`.
unfoldable pub collation_name : List ℕ → Bool
collation_name = exactly 1 is_word (up_to 127 is_word finished)

-- `/^\d{4}-\d{2}-\d{2}T\d{2}:\d{2}:\d{2}\.\d{7}Z$/`.
unfoldable pub timestamp : List ℕ → Bool
timestamp = exactly 4 is_digit (
    literally (b'-' ∷ []) (
      exactly 2 is_digit (
        literally (b'-' ∷ []) (
          exactly 2 is_digit (
            literally (b'T' ∷ []) (
              exactly 2 is_digit (
                literally (b':' ∷ []) (
                  exactly 2 is_digit (
                    literally (b':' ∷ []) (
                      exactly 2 is_digit (
                        literally (b'.' ∷ [])
                          (exactly 7 is_digit (literally (b'Z' ∷ []) finished)))))))))))))

-- `/^[a-z0-9][a-z0-9_-]{0,127}$/`.
unfoldable pub variant_id : List ℕ → Bool
variant_id =
    exactly 1 (λ c. is_lower c || is_digit c)
      (up_to 127 (λ c. is_lower c || is_digit c || c == b'_' || c == b'-') finished)

-- Up to `n` groups `\.\d{1,3}`, and the end.
abbrev dotted : ℕ → List ℕ → Bool
dotted zero cs = finished cs
dotted (suc n) cs =
    finished cs || literally (b'.' ∷ []) (exactly 1 is_digit (up_to 2 is_digit (dotted n))) cs

-- `/^\d{1,3}(\.\d{1,3}){0,3}$/`.
unfoldable pub version_number : List ℕ → Bool
version_number = exactly 1 is_digit (up_to 2 is_digit (dotted 3))

-- `/^\d{4}$/`.
unfoldable pub year : List ℕ → Bool
year = exactly 4 is_digit finished
