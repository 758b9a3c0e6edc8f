-- ===== src/Js/Maps/Laws.antt =====
-- The laws of the dictionary operations.
use sql_server_lab.Prelude.{
  String, Bool, true, false, [], ◌∷◌, none, some, str_eq, eq_iff, if◌then◌else◌, Bool-cases, inl,
  inr, ◌∙◌, keep, ◌≡◌, refl, arith,
}
use sql_server_lab.Js.Maps.Defs.{Map, lookup, has, insert, remove}

module _ {V : Type 0} where
  pub lookup-insert :
      (key other : String) (v : V) (rest : Map V)
      → lookup other (insert key v rest) ≡ (if str_eq key other then some v else lookup other rest)
  unfolding lookup insert
  lookup-insert key other v [] = refl
  lookup-insert key other v ((name, old) ∷ rest) =
      ground (
        arith,
        eq_iff key other,
        eq_iff name key,
        eq_iff name other,
        lookup-insert key other v rest,
      )

  pub has_of_lookup :
      (key : String) (v : V) (rest : Map V) → lookup key rest ≡ some v → has key rest ≡ true
  unfolding lookup has
  has_of_lookup key v [] h = cc
  has_of_lookup key v ((other, old) ∷ rest) h = ground (arith, has_of_lookup key v rest)

  pub lookup_of_not_has :
      (key : String) (rest : Map V) → has key rest ≡ false → lookup key rest ≡ none
  unfolding lookup has
  lookup_of_not_has key [] h = refl
  lookup_of_not_has key ((other, old) ∷ rest) h = ground (arith, lookup_of_not_has key rest)

  -- An entry that passes a test survives the removal of those that do not.
  pub has-keep :
      (p : String × V → Bool) (key : String) (v : V) (rest : Map V)
      → lookup key rest ≡ some v
      → p (key, v) ≡ true
      → has key (keep p rest) ≡ true
  unfolding lookup has
  has-keep p key v [] h t = cc
  has-keep p key v ((other, old) ∷ rest) h t =
      ground (arith, eq_iff other key, has-keep p key v rest)

  pub lookup-remove_self : (key : String) (rest : Map V) → lookup key (remove key rest) ≡ none
  unfolding lookup remove
  lookup-remove_self key [] = refl
  lookup-remove_self key ((other, old) ∷ rest) = ground (arith, lookup-remove_self key rest)

  -- Keys occur once.
  abbrev pub IsMap : Map V → Type 0
  IsMap [] = Unit
  IsMap ((key, v) ∷ rest) = (lookup key rest ≡ none) × IsMap rest

  pub insert-IsMap : (key : String) (v : V) (rest : Map V) → IsMap rest → IsMap (insert key v rest)
  unfolding insert lookup
  insert-IsMap key v [] h = (refl, tt)
  insert-IsMap key v ((other, old) ∷ rest) (u, h) = elim (Bool-cases (str_eq other key)) [
    | inl e ↦ rw e (u, h)
    | inr e ↦ rw e (
      lookup-insert key other v rest ∙ ground (arith, u, eq_iff key other, eq_iff other key),
      insert-IsMap key v rest h,
    )
  ]

  pub lookup-keep-none :
      (p : String × V → Bool) (key : String) (rest : Map V)
      → lookup key rest ≡ none
      → lookup key (keep p rest) ≡ none
  unfolding lookup
  lookup-keep-none p key [] h = refl
  lookup-keep-none p key ((other, old) ∷ rest) h = ground (arith, lookup-keep-none p key rest)

  pub keep-IsMap : (p : String × V → Bool) (rest : Map V) → IsMap rest → IsMap (keep p rest)
  keep-IsMap p [] h = tt
  keep-IsMap p ((other, old) ∷ rest) (u, h) = elim (Bool-cases (p (other, old))) [
    | inl e ↦ rw e (lookup-keep-none p other rest u, keep-IsMap p rest h)
    | inr e ↦ rw e (keep-IsMap p rest h)
  ]

  -- With unique keys an entry is kept exactly if it passes the test.
  pub lookup-keep :
      (p : String × V → Bool) (key : String) (v : V) (rest : Map V)
      → IsMap rest
      → lookup key rest ≡ some v
      → lookup key (keep p rest) ≡ (if p (key, v) then some v else none)
  unfolding lookup
  lookup-keep p key v [] h e = cc
  lookup-keep p key v ((other, old) ∷ rest) (u, h) e =
      ground (arith, eq_iff other key, lookup-keep-none p other rest u, lookup-keep p key v rest h)
