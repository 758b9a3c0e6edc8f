-- ===== src/Dates/Tests.antt =====
-- German dates at concrete inputs.
use sql_server_lab.Prelude.{
  ℕ, Bool, true, false, List, [], ◌∷◌, Option, none, some, ◌≡◌, refl, arith, if◌then◌else◌, ◌&&◌,
  ◌==◌,
}
use sql_server_lab.Js.{codes}
use sql_server_lab.Dates.{Date, date_to_german, parse_german_date}
use sql_server_lab.Dates.Laws.{iso_text, parse_german_date-date_to_german}

abbrev leap_day : Date
leap_day = record { year = 2028; month = 2; day = 29 }

-- A browser that knows one date.
abbrev same_codes : List ℕ → List ℕ → Bool
same_codes [] [] = true
same_codes [] (y ∷ ys) = false
same_codes (x ∷ xs) [] = false
same_codes (x ∷ xs) (y ∷ ys) = x == y && same_codes xs ys

abbrev at_midnight : List ℕ → Option Date
at_midnight cs = if same_codes cs (codes "2028-02-29T00:00:00") then some leap_day else none

read_back : date_to_german leap_day ≡ codes "29.02.2028"
unfolding date_to_german
read_back = refl

parse_german_date-date_to_german_example :
    parse_german_date at_midnight (date_to_german leap_day) ≡ some (iso_text leap_day)
parse_german_date-date_to_german_example =
    parse_german_date-date_to_german at_midnight leap_day (omega arith) (omega arith) (omega arith)
      (omega arith) refl
