-- ===== src/Js/Maps/Defs.antt =====
-- The operations of `Map`: get, has, set, delete, and the removal of entries by a test.
use sql_server_lab.Prelude.{
  String, Bool, true, false, List, [], ◌∷◌, Option, none, some, str_eq, if◌then◌else◌,
}

abbrev pub Map : Type 0 → Type 0
Map V = List (String × V)

module _ {V : Type 0} where
  unfoldable pub lookup : String → Map V → Option V
  lookup key [] = none
  lookup key ((name, v) ∷ rest) = if str_eq name key then some v else lookup key rest

  unfoldable pub has : String → Map V → Bool
  has key [] = false
  has key ((name, v) ∷ rest) = if str_eq name key then true else has key rest

  -- `set` keeps the place of a key that is there, and appends one that is not.
  unfoldable pub insert : String → V → Map V → Map V
  insert key v [] = (key, v) ∷ []
  insert key v ((name, old) ∷ rest) =
      if str_eq name key then (name, v) ∷ rest else (name, old) ∷ insert key v rest

  -- `delete`.
  unfoldable pub remove : String → Map V → Map V
  remove key [] = []
  remove key ((name, old) ∷ rest) =
      let rest = remove key rest in if str_eq name key then rest else (name, old) ∷ rest

  abbrev pub values : Map V → List V
  values [] = []
  values ((key, v) ∷ rest) = v ∷ values rest

  abbrev pub map_keys : Map V → List String
  map_keys [] = []
  map_keys ((key, v) ∷ rest) = key ∷ map_keys rest
