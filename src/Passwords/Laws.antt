-- ===== src/Passwords/Laws.antt =====
-- What every generated password satisfies.
use native.Mathlib.Omega.{mod_fact}
use sql_server_lab.Prelude.{
  ==_iff, ◌||◌, ℕ, zero, suc, ◌+◌, ◌%◌, ◌≤◌, ◌<◌, Bool, true, List, [], ◌∷◌, ◌++◌, length,
  length-append, any, ltb, ◌==◌, if◌then◌else◌, ◌≡◌, refl, sym, ◌∙◌, ap, subst, inl, inr, arith,
  Bool-cases,
}
use sql_server_lab.Passwords.{
  char_at, put, swap, uppers, lowers, digits, signs, characters, draw, first_four, fill, shuffle,
  generate,
}

abbrev weight : Bool → ℕ
weight b = if b then 1 else 0

-- How many characters pass a test.
abbrev pub count : (ℕ → Bool) → List ℕ → ℕ
count p [] = 0
count p (x ∷ xs) = weight (p x) + count p xs

module _ (p : ℕ → Bool) where
  count-append : (xs ys : List ℕ) → count p (xs ++ ys) ≡ count p xs + count p ys
  count-append [] ys = omega arith
  count-append (x ∷ xs) ys = omega (arith, count-append xs ys)

  count-put :
      (xs : List ℕ) (i v : ℕ)
      → i < length xs
      → count p (put xs i v) + weight (p (char_at xs i)) ≡ count p xs + weight (p v)
  count-put [] i v h = absurd (omega (arith, h))
  count-put (x ∷ xs) zero v h = omega arith
  count-put (x ∷ xs) (suc i) v h = omega (arith, count-put xs i v (omega (arith, h)))

length-put : (xs : List ℕ) (i v : ℕ) → length (put xs i v) ≡ length xs
length-put [] i v = refl
length-put (x ∷ xs) zero v = refl
length-put (x ∷ xs) (suc i) v = ap suc (length-put xs i v)

-- Writing what a place already holds, at another place, does not change the former.
char_at-put : (xs : List ℕ) (i j v : ℕ) → char_at xs j ≡ v → char_at (put xs i v) j ≡ v
char_at-put [] i j v h = h
char_at-put (x ∷ xs) zero zero v h = refl
char_at-put (x ∷ xs) zero (suc j) v h = h
char_at-put (x ∷ xs) (suc i) zero v h = h
char_at-put (x ∷ xs) (suc i) (suc j) v h = char_at-put xs i j v h

length-swap : (i j : ℕ) (xs : List ℕ) → length (swap i j xs) ≡ length xs
unfolding swap
length-swap i j xs =
    length-put (put xs i (char_at xs j)) j (char_at xs i) ∙ length-put xs i (char_at xs j)

module _ (p : ℕ → Bool) where
  count-swap :
      (i j : ℕ) (xs : List ℕ) → i < length xs → j < length xs → count p (swap i j xs) ≡ count p xs
  unfolding swap
  count-swap i j xs h k =
      let first = count-put p xs i (char_at xs j) h in
      let second =
        count-put p (put xs i (char_at xs j)) j (char_at xs i)
          (subst (λ n. j < n) (sym (length-put xs i (char_at xs j))) k) in
      let kept = ap (λ c. weight (p c)) (char_at-put xs i j (char_at xs j) refl) in
      omega (arith, first, second, kept)

count-snoc :
    (p : ℕ → Bool) (xs : List ℕ) (c : ℕ)
    → p c ≡ true
    → count p xs ≡ length xs
    → count p (xs ++ c ∷ []) ≡ length (xs ++ c ∷ [])
count-snoc p xs c h k =
    let more : count p (c ∷ []) ≡ 1 = rw h refl in
    omega (arith, count-append p xs (c ∷ []), length-append xs (c ∷ []), k, more)

count-one :
    (p : ℕ → Bool) (xs : List ℕ) (i : ℕ) → i < length xs → p (char_at xs i) ≡ true → 1 ≤ count p xs
count-one p [] i h k = absurd (omega (arith, h))
count-one p (x ∷ xs) zero h k = rw k (omega arith)
count-one p (x ∷ xs) (suc i) h k = omega (arith, count-one p xs i (omega (arith, h)) k)

count-four :
    (p : ℕ → Bool) (a b c d : ℕ)
    → p a ≡ true
    → p b ≡ true
    → p c ≡ true
    → p d ≡ true
    → count p (a ∷ b ∷ c ∷ d ∷ []) ≡ 4
count-four p a b c d h k l m = rw (h, k, l, m) refl

-- Whether a character is one of a group.
unfoldable pub is_in : List ℕ → ℕ → Bool
is_in group c = any (λ (x : ℕ). x == c) group

same : (c : ℕ) → (c == c) ≡ true
same c = (==_iff c c).1 refl

is_in-char_at : (group : List ℕ) (i : ℕ) → i < length group → is_in group (char_at group i) ≡ true
unfolding is_in
is_in-char_at [] i h = absurd (omega (arith, h))
is_in-char_at (x ∷ xs) zero h = rw (same x) refl
is_in-char_at (x ∷ xs) (suc i) h = rw (is_in-char_at xs i (omega (arith, h))) (ground arith)

is_in-append : (g h : List ℕ) (c : ℕ) → is_in (g ++ h) c ≡ (is_in g c || is_in h c)
unfolding is_in
is_in-append [] h c = refl
is_in-append (x ∷ g) h c = rw (is_in-append g h c) (ground arith)

is_in_left : (g h : List ℕ) (c : ℕ) → is_in g c ≡ true → is_in (g ++ h) c ≡ true
is_in_left g h c k = is_in-append g h c ∙ rw k refl

is_in_right : (g h : List ℕ) (c : ℕ) → is_in h c ≡ true → is_in (g ++ h) c ≡ true
is_in_right g h c k = is_in-append g h c ∙ either (is_in g c) (is_in h c) k
  where
    either : (a b : Bool) → b ≡ true → (a || b) ≡ true
    either a b e = ground (arith, e)

module _ (source : ℕ → ℕ) where
  count-shuffle :
      (p : ℕ → Bool) (i k : ℕ) (xs : List ℕ)
      → i < length xs
      → count p (shuffle source i k xs) ≡ count p xs
  unfolding shuffle
  count-shuffle p zero k xs h = refl
  count-shuffle p (suc i) k xs h =
      let j = source k % suc (suc i) in
      let short = mod_fact (source k) (suc i) in
      count-shuffle p i (suc k) (swap (suc i) j xs)
        (subst (λ n. i < n) (sym (length-swap (suc i) j xs)) (omega (arith, h)))
      ∙ count-swap p (suc i) j xs h (omega (arith, h, short))

  length-shuffle : (i k : ℕ) (xs : List ℕ) → length (shuffle source i k xs) ≡ length xs
  unfolding shuffle
  length-shuffle zero k xs = refl
  length-shuffle (suc i) k xs =
      length-shuffle i (suc k) (swap (suc i) (source k % suc (suc i)) xs)
      ∙ length-swap (suc i) (source k % suc (suc i)) xs

  draw-is_in :
      (k n : ℕ) (group : List ℕ) → length group ≡ suc n → is_in group (draw source k group) ≡ true
  unfolding draw
  draw-is_in k n group e =
      is_in-char_at group (source k % length group)
        (subst (λ m. source k % m < m) (sym e) (mod_fact (source k) n))

  -- Enough turns fill a list up to 32 characters.
  length-fill :
      (turns k : ℕ) (xs : List ℕ)
      → length xs ≤ 32
      → 32 ≤ length xs + turns
      → length (fill source turns k xs).1 ≡ 32
  unfolding fill
  length-fill zero k xs h e = omega (arith, h, e)
  length-fill (suc turns) k xs h e = elim (Bool-cases (ltb (length xs) 32)) [
    | inl l ↦ rw l (
        length-fill turns (suc k) _
          (rw (length-append xs (draw source k characters ∷ [])) (ground (arith, l)))
          (rw (length-append xs (draw source k characters ∷ [])) (omega (arith, e))))
    | inr l ↦ rw l (ground (arith, l, h))
  ]

  -- Filling keeps the characters that are there.
  count-fill :
      (p : ℕ → Bool) (turns k : ℕ) (xs : List ℕ) → count p xs ≤ count p (fill source turns k xs).1
  unfolding fill
  count-fill p zero k xs = omega arith
  count-fill p (suc turns) k xs = elim (Bool-cases (ltb (length xs) 32)) [
    | inl l ↦ rw l (
        omega (
          arith,
          count-fill p turns (suc k) (xs ++ draw source k characters ∷ []),
          count-append p xs (draw source k characters ∷ []),
        ))
    | inr l ↦ rw l (omega arith)
  ]

  -- Filling adds characters of the groups only.
  fill-is_in :
      (turns k : ℕ) (xs : List ℕ)
      → count (is_in characters) xs ≡ length xs
      → count (is_in characters) (fill source turns k xs).1 ≡ length (fill source turns k xs).1
  unfolding fill
  fill-is_in zero k xs h = h
  fill-is_in (suc turns) k xs h = elim (Bool-cases (ltb (length xs) 32)) [
    | inl l ↦ rw l (
        fill-is_in turns (suc k) _ (
          count-snoc (is_in characters) xs (draw source k characters)
            (draw-is_in k 63 characters refl) h))
    | inr l ↦ rw l h
  ]

  four_short : length (first_four source) ≤ 32
  unfolding first_four
  four_short = omega arith

  four_enough : 32 ≤ length (first_four source) + 32
  unfolding first_four
  four_enough = omega arith

  four_long : 4 ≡ length (first_four source)
  unfolding first_four
  four_long = refl

  first_four-has :
      (1 ≤ count (is_in uppers) (first_four source))
      × (1 ≤ count (is_in lowers) (first_four source))
      × (1 ≤ count (is_in digits) (first_four source))
      × (1 ≤ count (is_in signs) (first_four source))
      × (count (is_in characters) (first_four source) ≡ 4)
  unfolding first_four
  first_four-has =
      let u = draw-is_in 0 23 uppers refl in
      let l = draw-is_in 1 24 lowers refl in
      let d = draw-is_in 2 7 digits refl in
      let s = draw-is_in 3 6 signs refl in
      let u' = is_in_left uppers (lowers ++ digits ++ signs) (draw source 0 uppers) u in
      let l' =
        is_in_right uppers (lowers ++ digits ++ signs) (draw source 1 lowers)
          (is_in_left lowers (digits ++ signs) (draw source 1 lowers) l) in
      let d' = is_in_right uppers (lowers ++ digits ++ signs) (draw source 2 digits) (
        is_in_right lowers (digits ++ signs) (draw source 2 digits)
          (is_in_left digits signs (draw source 2 digits) d)) in
      let s' = is_in_right uppers (lowers ++ digits ++ signs) (draw source 3 signs) (
        is_in_right lowers (digits ++ signs) (draw source 3 signs)
          (is_in_right digits signs (draw source 3 signs) s)) in
      (
        count-one (is_in uppers) (first_four source) 0 (omega arith) u,
        count-one (is_in lowers) (first_four source) 1 (omega arith) l,
        count-one (is_in digits) (first_four source) 2 (omega arith) d,
        count-one (is_in signs) (first_four source) 3 (omega arith) s,
        count-four (is_in characters) (draw source 0 uppers) (draw source 1 lowers)
            (draw source 2 digits) (draw source 3 signs) u' l' d' s',
      )

  -- Whatever numbers the browser draws, the password has 32 characters, all of the four groups, and
  -- at least one of each group.
  pub generate_lem :
      (length (generate source) ≡ 32)
      × (count (is_in characters) (generate source) ≡ 32)
      × (1 ≤ count (is_in uppers) (generate source))
      × (1 ≤ count (is_in lowers) (generate source))
      × (1 ≤ count (is_in digits) (generate source))
      × (1 ≤ count (is_in signs) (generate source))
  unfolding generate
  generate_lem =
      let filled = fill source 32 4 (first_four source) in
      let size = length-fill 32 4 (first_four source) four_short four_enough in
      let room : 31 < length filled.1 = omega (arith, size) in
      let kept = λ (p : ℕ → Bool). count-shuffle p 31 filled.0 filled.1 room in
      let grown = λ (p : ℕ → Bool). count-fill p 32 4 (first_four source) in
      let has = first_four-has in
      (
        length-shuffle 31 filled.0 filled.1 ∙ size,
        kept (is_in characters) ∙ fill-is_in 32 4 (first_four source) (has.4 ∙ four_long) ∙ size,
        omega (arith, kept (is_in uppers), grown (is_in uppers), has.0),
        omega (arith, kept (is_in lowers), grown (is_in lowers), has.1),
        omega (arith, kept (is_in digits), grown (is_in digits), has.2),
        omega (arith, kept (is_in signs), grown (is_in signs), has.3),
      )
