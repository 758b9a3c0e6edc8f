-- ===== src/Passwords/Tests.antt =====
-- The theorem about generated guest passwords at a concrete source of numbers.
use sql_server_lab.Prelude.{ℕ, ◌*◌, ◌+◌, ◌≤◌, ◌≡◌, length}
use sql_server_lab.Passwords.{uppers, lowers, digits, signs, characters, generate}
use sql_server_lab.Passwords.Laws.{count, is_in, generate_lem}

abbrev source : ℕ → ℕ
source k = k * 48271 + 11

generate_lem_example :
    (length (generate source) ≡ 32)
    × (count (is_in characters) (generate source) ≡ 32)
    × (1 ≤ count (is_in uppers) (generate source))
    × (1 ≤ count (is_in lowers) (generate source))
    × (1 ≤ count (is_in digits) (generate source))
    × (1 ≤ count (is_in signs) (generate source))
generate_lem_example = generate_lem source
