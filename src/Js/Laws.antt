-- ===== src/Js/Laws.antt =====
-- Laws of the tests on values.
use sql_server_lab.Prelude.{
  ℕ, zero, suc, ◌&&◌, ◌==◌, ==_iff, String, Bool, true, List, [], ◌∷◌, ◌++◌, ◌≡◌, refl, ◌≤◌, arith,
  all, length, and_parts, eq_iff, ap,
}
use sql_server_lab.Js.Patterns.{literally, exactly, finished, hex, is_hex}
use sql_server_lab.Js.{Value, num, str, is_str, is_integer_in, nat_of}

pub eq_of_is_str : (v : Value) (t : String) → is_str v t ≡ true → v ≡ str t
eq_of_is_str (str s) t h = ap str ((eq_iff s t).0 h)
eq_of_is_str _ t h = cc

-- What an integer test establishes.
pub integer_parts :
    (lo hi : ℕ) (v : Value)
    → is_integer_in lo hi v ≡ true
    → (v ≡ num (nat_of v)) × (lo ≤ nat_of v) × (nat_of v ≤ hi)
integer_parts lo hi (num n) h = (refl, ground arith, ground arith)
integer_parts lo hi _ h = absurd (ground arith)

-- What a literal at the start of a pattern establishes.
pub literally_parts :
    (ls : List ℕ) (k : List ℕ → Bool) (cs : List ℕ)
    → literally ls k cs ≡ true
    → (rest : List ℕ) × (cs ≡ ls ++ rest) × (k rest ≡ true)
literally_parts [] k cs h = (cs, refl, h)
literally_parts (l ∷ ls) k [] h = cc
literally_parts (l ∷ ls) k (c ∷ cs) h =
    let parts = and_parts (c == l) (literally ls k cs) h in
    let later = literally_parts ls k cs parts.1 in
    (later.0, cons_eq ((==_iff c l).0 parts.0) later.1, later.2)
  where
    cons_eq : {a b : ℕ} {xs ys : List ℕ} → a ≡ b → xs ≡ ys → a ∷ xs ≡ b ∷ ys
    cons_eq p q = cc

exactly_parts :
    (n : ℕ) (p : ℕ → Bool) (cs : List ℕ)
    → exactly n p finished cs ≡ true
    → (length cs ≡ n) × (all p cs ≡ true)
exactly_parts zero p [] h = (refl, refl)
exactly_parts zero p (c ∷ cs) h = cc
exactly_parts (suc n) p [] h = cc
exactly_parts (suc n) p (c ∷ cs) h =
    let parts = and_parts (p c) (exactly n p finished cs) h in
    let later = exactly_parts n p cs parts.1 in (omega (arith, later.0), both parts.0 later.1)
  where
    both : {a b : Bool} → a ≡ true → b ≡ true → (a && b) ≡ true
    both x y = ground (arith, x, y)

-- What a pattern of hexadecimal digits establishes.
pub hex_parts : (n : ℕ) (cs : List ℕ) → hex n cs ≡ true → (length cs ≡ n) × (all is_hex cs ≡ true)
unfolding hex
hex_parts n cs h = exactly_parts n is_hex cs h
