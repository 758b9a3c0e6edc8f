-- ===== src/Dates/Laws.antt =====
-- A German date that has been written is read back.
use sql_server_lab.Prelude.{
  ℕ, suc, ◌+◌, ◌/◌, ◌%◌, ◌≤◌, ◌<◌, true, false, List, [], ◌∷◌, ◌++◌, Option, some, ltb, ◌==◌, ◌≡◌,
  refl, ap, ◌∙◌, arith, Bool-cases, inl, inr, ==_iff,
}
use sql_server_lab.Js.{codes}
use sql_server_lab.Js.Coerce.{number_text, digits_of}
use sql_server_lab.Js.Patterns.{is_digit, is_space, trim, trim_start}
use sql_server_lab.Dates.{
  Date, pad_start, date_to_german, Groups, match_german, number_of, iso_of, same_date,
  parse_german_date,
}

ltb_from : (a b : ℕ) → b ≤ a → ltb a b ≡ false
ltb_from a b h = ground (arith, h)

ltb_below : (a b : ℕ) → a < b → ltb a b ≡ true
ltb_below a b h = ground (arith, h)

is_digit_lem : (n : ℕ) → n ≤ 9 → is_digit (n + 48) ≡ true
is_digit_lem n h = ground (arith, h)

is_space_lem : (n : ℕ) → n ≤ 9 → is_space (n + 48) ≡ false
is_space_lem n h = ground (arith, h)

abbrev two : ℕ → List ℕ
two n = (n / 10 + 48) ∷ (n % 10 + 48) ∷ []

abbrev four : ℕ → List ℕ
four n = (n / 10 / 10 / 10 + 48) ∷ (n / 10 / 10 % 10 + 48) ∷ (n / 10 % 10 + 48) ∷ (n % 10 + 48) ∷ []

digits_of_last : (room n : ℕ) → n < 10 → digits_of (suc room) n ≡ (n + 48) ∷ []
digits_of_last room n h = let short = ltb_below n 10 h in rw short refl

digits_of_next :
    (room n : ℕ) → 10 ≤ n → digits_of (suc room) n ≡ digits_of room (n / 10) ++ (n % 10 + 48) ∷ []
digits_of_next room n h = let long = ltb_from n 10 h in rw long refl

number_text_lem : (n : ℕ) → n ≤ 9999 → number_text n ≡ digits_of 21 n
number_text_lem n h =
    let short = ltb_below n 1000000000000000000000 (omega (arith, h)) in rw short refl

-- One or two digits, and four.
number_text-two : (n : ℕ) → 10 ≤ n → n ≤ 99 → number_text n ≡ two n
number_text-two n l h =
    number_text_lem n (omega (arith, h))
    ∙ digits_of_next 20 n l
    ∙ ap (λ xs. xs ++ (n % 10 + 48) ∷ []) (digits_of_last 19 (n / 10) (omega (arith, h)))

number_text-four : (n : ℕ) → 1000 ≤ n → n ≤ 9999 → number_text n ≡ four n
number_text-four n l h =
    number_text_lem n h
    ∙ digits_of_next 20 n (omega (arith, l))
    ∙ ap (λ xs. xs ++ (n % 10 + 48) ∷ [])
        (digits_of_next 19 (n / 10) (omega (arith, l))
          ∙ ap (λ xs. xs ++ (n / 10 % 10 + 48) ∷ [])
              (digits_of_next 18 (n / 10 / 10) (omega (arith, l))
                ∙ ap (λ xs. xs ++ (n / 10 / 10 % 10 + 48) ∷ [])
                    (digits_of_last 17 (n / 10 / 10 / 10) (omega (arith, h)))))

pad_start-number_text : (n : ℕ) → n ≤ 99 → pad_start (number_text n) ≡ two n
pad_start-number_text n h = elim (Bool-cases (ltb n 10)) [
  | inl e ↦
      let small : n < 10 = ground (arith, e) in
      let front : n / 10 ≡ 0 = omega (arith, small) in
      let back : n % 10 ≡ n = omega (arith, small) in
      ap pad_start (number_text_lem n (omega (arith, h)) ∙ digits_of_last 20 n small)
      ∙ rw (front, back) refl
  | inr e ↦ let large : 10 ≤ n = ground (arith, e) in ap pad_start (number_text-two n large h)
]

-- The text of a date with a year of four digits.
abbrev german : Date → List ℕ
german v = two v.day ++ b'.' ∷ two v.month ++ b'.' ∷ four v.year

date_to_german_lem :
    (v : Date)
    → v.day ≤ 99
    → v.month ≤ 99
    → 1000 ≤ v.year
    → v.year ≤ 9999
    → date_to_german v ≡ german v
unfolding date_to_german
date_to_german_lem v d m l y =
    let day = pad_start-number_text v.day d in
    let month = pad_start-number_text v.month m in
    let year = number_text-four v.year l y in rw (day, month, year) refl

abbrev groups : Date → Groups
groups v = record { day = two v.day; month = two v.month; year = four v.year }

-- `new Date` is handed this text.
abbrev pub iso_text : Date → List ℕ
iso_text v = iso_of (groups v)

match_german_lem :
    (v : Date)
    → v.day ≤ 99
    → v.month ≤ 99
    → v.year ≤ 9999
    → match_german (german v) ≡ some (groups v)
unfolding match_german
match_german_lem v d m y =
    let a = is_digit_lem (v.day / 10) (omega (arith, d)) in
    let b = is_digit_lem (v.day % 10) (omega arith) in
    let c = is_digit_lem (v.month / 10) (omega (arith, m)) in
    let e = is_digit_lem (v.month % 10) (omega arith) in
    let f = is_digit_lem (v.year / 10 / 10 / 10) (omega (arith, y)) in
    let g = is_digit_lem (v.year / 10 / 10 % 10) (omega arith) in
    let h = is_digit_lem (v.year / 10 % 10) (omega arith) in
    let i = is_digit_lem (v.year % 10) (omega arith) in rw (a, b, c, e, f, g, h, i) refl

trim-german : (v : Date) → v.day ≤ 99 → trim (german v) ≡ german v
unfolding trim trim_start
trim-german v d =
    let first = is_space_lem (v.day / 10) (omega (arith, d)) in
    let last = is_space_lem (v.year % 10) (omega arith) in rw (first, last) refl

number_of-two : (n : ℕ) → number_of (two n) ≡ n
number_of-two n = omega arith

number_of-four : (n : ℕ) → number_of (four n) ≡ n
number_of-four n = omega arith

==_refl : (n : ℕ) → (n == n) ≡ true
==_refl n = (==_iff n n).1 refl

same_date_lem : (v : Date) → same_date v (groups v) ≡ true
same_date_lem v =
    let year = number_of-four v.year in
    let month = number_of-two v.month in
    let day = number_of-two v.day in
    let a = ==_refl v.year in
    let b = ==_refl v.month in let c = ==_refl v.day in rw (year, month, day, a, b, c) refl

-- A date with a year of four digits that the browser reads as itself from its ISO text is written
-- in the German form and read back from it, as its ISO text.
pub parse_german_date-date_to_german :
    (at_midnight : List ℕ → Option Date) (v : Date)
    → v.day ≤ 99
    → v.month ≤ 99
    → 1000 ≤ v.year
    → v.year ≤ 9999
    → at_midnight (iso_text v ++ codes "T00:00:00") ≡ some v
    → parse_german_date at_midnight (date_to_german v) ≡ some (iso_text v)
unfolding parse_german_date
parse_german_date-date_to_german at_midnight v d m l y h =
    let written = date_to_german_lem v d m l y in
    let trimmed = trim-german v d in
    let matched = match_german_lem v d m y in
    let same = same_date_lem v in rw (written, trimmed, matched, h, same) refl
