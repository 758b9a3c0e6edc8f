-- ===== src/Passwords.antt =====
-- The generated guest passwords: generateHyperVGuestPassword of Ui/app.js. The numbers that
-- `crypto.getRandomValues` gives are an argument: `source k` is the answer to the k-th call.
pub mod Laws
mod Tests
use sql_server_lab.Prelude.{
  ℕ, zero, suc, ◌+◌, ◌%◌, Bool, true, false, List, [], ◌∷◌, ◌++◌, length, ltb, if◌then◌else◌,
}
use sql_server_lab.Js.{codes}

-- `xs[i]`, for an index within the list.
abbrev pub char_at : List ℕ → ℕ → ℕ
char_at [] i = 0
char_at (x ∷ xs) zero = x
char_at (x ∷ xs) (suc i) = char_at xs i

-- `xs[i] = v`.
abbrev pub put : List ℕ → ℕ → ℕ → List ℕ
put [] i v = []
put (x ∷ xs) zero v = v ∷ xs
put (x ∷ xs) (suc i) v = x ∷ put xs i v

-- `[xs[i], xs[j]] = [xs[j], xs[i]]`.
unfoldable pub swap : ℕ → ℕ → List ℕ → List ℕ
swap i j xs = put (put xs i (char_at xs j)) j (char_at xs i)

abbrev pub uppers : List ℕ
uppers = codes "ABCDEFGHJKLMNPQRSTUVWXYZ"

abbrev pub lowers : List ℕ
lowers = codes "abcdefghijkmnopqrstuvwxyz"

abbrev pub digits : List ℕ
digits = codes "23456789"

abbrev pub signs : List ℕ
signs = codes "!#%+-_@"

-- `groups.join('')`.
abbrev pub characters : List ℕ
characters = uppers ++ lowers ++ digits ++ signs

module _ (source : ℕ → ℕ) where
  -- `group[randomIndex(group.length)]` at the k-th call; no group is empty.
  unfoldable pub draw : ℕ → List ℕ → ℕ
  draw k group = char_at group (source k % length group)

  -- `groups.map(…)`.
  unfoldable pub first_four : List ℕ
  first_four = draw 0 uppers ∷ draw 1 lowers ∷ draw 2 digits ∷ draw 3 signs ∷ []

  -- `while (characters.length < 32)`, with the number of calls so far. Every turn adds a character,
  -- so that 32 turns are enough.
  unfoldable pub fill : ℕ → ℕ → List ℕ → ℕ × List ℕ
  fill zero k xs = (k, xs)
  fill (suc turns) k xs =
      let rest = fill turns (suc k) (xs ++ draw k characters ∷ []) in
      if ltb (length xs) 32 then rest else (k, xs)

  -- The loop that swaps, from the given index down to 1.
  unfoldable pub shuffle : ℕ → ℕ → List ℕ → List ℕ
  shuffle zero k xs = xs
  shuffle (suc i) k xs = shuffle i (suc k) (swap (suc i) (source k % suc (suc i)) xs)

  unfoldable pub generate : List ℕ
  generate = let filled = fill 32 4 first_four in shuffle 31 filled.0 filled.1
