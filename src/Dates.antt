-- ===== src/Dates.antt =====
-- The German dates of Ui/app.js: dateToGerman and parseGermanDate. Texts are lists of codes; a
-- date is its year, month and day in local time.
pub mod Laws
mod Tests
use sql_server_lab.Prelude.{
  ℕ, ◌+◌, ◌*◌, ◌-◌, Bool, true, false, not, ◌&&◌, List, [], ◌∷◌, ◌++◌, Option, none, some, ltb,
  length, ◌==◌, if◌then◌else◌,
}
use sql_server_lab.Js.{codes}
use sql_server_lab.Js.Coerce.{number_text}
use sql_server_lab.Js.Patterns.{is_digit, trim}

pub record Date : Type 0 where
  pub year : ℕ
  pub month : ℕ
  pub day : ℕ

-- `text.padStart(2, '0')`.
abbrev pub pad_start : List ℕ → List ℕ
pad_start [] = b'0' ∷ b'0' ∷ []
pad_start (c ∷ []) = b'0' ∷ c ∷ []
pad_start (c ∷ d ∷ cs) = c ∷ d ∷ cs

-- dateToGerman.
unfoldable pub date_to_german : Date → List ℕ
date_to_german v =
    pad_start (number_text v.day)
    ++ b'.' ∷ pad_start (number_text v.month)
    ++ b'.' ∷ number_text v.year

-- The groups of `/^(\d{2})\.(\d{2})\.(\d{4})$/`.
pub record Groups : Type 0 where
  pub day : List ℕ
  pub month : List ℕ
  pub year : List ℕ

unfoldable pub match_german : List ℕ → Option Groups
match_german (a ∷ b ∷ p ∷ c ∷ d ∷ q ∷ w ∷ x ∷ y ∷ z ∷ []) =
    if is_digit a
      && is_digit b
      && p == b'.'
      && is_digit c
      && is_digit d
      && q == b'.'
      && is_digit w
      && is_digit x
      && is_digit y
      && is_digit z
    then some (record { day = a ∷ b ∷ []; month = c ∷ d ∷ []; year = w ∷ x ∷ y ∷ z ∷ [] })
    else none
match_german _ = none

-- `Number(text)`, for a text of digits.
abbrev number_from : ℕ → List ℕ → ℕ
number_from n [] = n
number_from n (c ∷ cs) = number_from (n * 10 + (c - b'0')) cs

abbrev pub number_of : List ℕ → ℕ
number_of cs = number_from 0 cs

abbrev pub iso_of : Groups → List ℕ
iso_of g = g.year ++ b'-' ∷ g.month ++ b'-' ∷ g.day

abbrev pub same_date : Date → Groups → Bool
same_date v g =
    v.year == number_of g.year && v.month == number_of g.month && v.day == number_of g.day

-- parseGermanDate; `at_midnight` is what `new Date(iso + 'T00:00:00')` has read of a text, if it
-- is a time. Nothing is the error.
module _ (at_midnight : List ℕ → Option Date) where
  abbrev checked : Groups → Option Date → Option (List ℕ)
  checked g none = none
  checked g (some v) = if same_date v g then some (iso_of g) else none

  abbrev parsed : Option Groups → Option (List ℕ)
  parsed none = none
  parsed (some g) = checked g (at_midnight (iso_of g ++ codes "T00:00:00"))

  unfoldable pub parse_german_date : List ℕ → Option (List ℕ)
  parse_german_date cs = parsed (match_german (trim cs))
