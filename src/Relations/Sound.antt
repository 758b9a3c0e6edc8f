-- ===== src/Relations/Sound.antt =====
-- What adding a relation keeps true of a draft.
use sql_server_lab.Prelude.{
  ℕ, String, Bool, true, false, not, ◌&&◌, ◌||◌, List, [], ◌∷◌, ◌++◌, Option, none, some, any, find,
  length, length-append, ltb, str_eq, if◌then◌else◌, ◌≡◌, refl, sym, ap, subst, ◌∙◌, inl, inr, ◌≤◌,
  ◌<◌, arith, Bool-cases, All, All-weaken, All-append, some_injective, if_some_parts, eq_refl,
  eq_iff,
}
use sql_server_lab.Js.{Value, get, text_of}
use sql_server_lab.Relations.Draft.{
  Relation, Choice, has_instance, is_shared, same_target, other_shared, is_proposed, is_refused,
  proposal, add_to,
}

-- No relation of a run's draft is one of an instance to itself.
abbrev pub NoneOfItself : String → List Relation → Type 0
NoneOfItself own draft =
    All (λ (r : Relation). (str_eq r.run own && str_eq r.instance_id r.source) ≡ false) draft

-- All targets of other runs are the same instance.
abbrev pub SharesOne : String → List Relation → Type 0
SharesOne own draft =
    (s : Relation)
    → find (is_shared own) draft ≡ some s
    → All (λ (r : Relation). is_shared own r ≡ true → same_target s r.run r.instance_id ≡ true)
        draft

-- No relation is proposed twice.
abbrev pub Distinct : List Relation → Type 0
Distinct [] = Unit
Distinct (r ∷ rs) = (is_proposed rs r.source r.run r.instance_id ≡ false) × Distinct rs

abbrev pub IsSound : String → List Relation → Type 0
IsSound own draft =
    (length draft ≤ 4) × NoneOfItself own draft × SharesOne own draft × Distinct draft

any-append :
    {A : Type 0} (p : A → Bool) (xs : List A) (y : A) → any p (xs ++ y ∷ []) ≡ (any p xs || p y)
any-append p [] y = elim (Bool-cases (p y)) [ inl e ↦ rw e refl | inr e ↦ rw e refl ]
any-append p (x ∷ xs) y = rw (any-append p xs y) (assoc (p x) (any p xs) (p y))
  where
    assoc : (a b c : Bool) → (a || (b || c)) ≡ ((a || b) || c)
    assoc true b c = refl
    assoc false b c = refl

either_false : (a b : Bool) → (a || b) ≡ false → (a ≡ false) × (b ≡ false)
either_false a b h = ground (arith, h)

all_false : (a b c : Bool) → (a || b || c) ≡ false → (a ≡ false) × (b ≡ false) × (c ≡ false)
all_false a b c h = ground (arith, h)

str_eq_sym : (s t : String) → str_eq s t ≡ str_eq t s
str_eq_sym s t = elim (Bool-cases (str_eq s t)) [
  | inl e ↦ let same = (eq_iff s t).0 e in e ∙ sym ((eq_iff t s).1 (sym same))
  | inr e ↦ elim (Bool-cases (str_eq t s)) [
    | inl f ↦ let same = (eq_iff t s).0 f in (eq_iff s t).1 (sym same) ∙ sym f
    | inr f ↦ e ∙ sym f
  ]
]

-- A relation that the draft of x would have twice, seen from the other side.
same_sym :
    (r x : Relation)
    → (str_eq r.source x.source && same_target r x.run x.instance_id)
      ≡ (str_eq x.source r.source && same_target x r.run r.instance_id)
same_sym r x =
    let a = str_eq_sym r.source x.source in
    let b = str_eq_sym r.run x.run in
    let c = str_eq_sym r.instance_id x.instance_id in rw (a, b, c) refl

Distinct-append :
    (draft : List Relation) (x : Relation)
    → is_proposed draft x.source x.run x.instance_id ≡ false
    → Distinct draft
    → Distinct (draft ++ x ∷ [])
Distinct-append [] x h d = (refl, tt)
Distinct-append (r ∷ rs) x h (n, d) =
    let parts = either_false _ (is_proposed rs x.source x.run x.instance_id) h in
    let differs : (str_eq x.source r.source && same_target x r.run r.instance_id) ≡ false =
      sym (same_sym r x) ∙ parts.0 in
    let mine =
      any-append (λ (y : Relation). str_eq y.source r.source && same_target y r.run r.instance_id)
        rs x in
    (
      mine
          ∙ ap (λ b. b || (str_eq x.source r.source && same_target x r.run r.instance_id)) n
          ∙ differs,
      Distinct-append rs x parts.1 d,
    )

find_nothing :
    {A : Type 0} (p : A → Bool) (xs : List A) → find p xs ≡ none → All (λ x. p x ≡ false) xs
find_nothing p [] h = tt
find_nothing p (x ∷ xs) h = step (p x) refl h (find_nothing p xs)
  where
    step :
        (b : Bool)
        → p x ≡ b
        → (if b then some x else find p xs) ≡ none
        → (find p xs ≡ none → All (λ y. p y ≡ false) xs)
        → All (λ y. p y ≡ false) (x ∷ xs)
    step true e h k = cc
    step false e h k = (e, k h)

abbrev or_else : {A : Type 0} → Option A → Option A → Option A
or_else none o = o
or_else (some a) o = some a

find-append :
    {A : Type 0} (p : A → Bool) (xs : List A) (y : A)
    → find p (xs ++ y ∷ []) ≡ or_else (find p xs) (if p y then some y else none)
find-append p [] y = refl
find-append p (x ∷ xs) y = step (p x) (find-append p xs y)
  where
    step :
        (b : Bool)
        → find p (xs ++ y ∷ []) ≡ or_else (find p xs) (if p y then some y else none)
        → (if b then some x else find p (xs ++ y ∷ []))
          ≡ or_else (if b then some x else find p xs) (if p y then some y else none)
    step true h = refl
    step false h = h

same_target_refl : (r : Relation) → same_target r r.run r.instance_id ≡ true
same_target_refl r = rw (eq_refl r.run, eq_refl r.instance_id) refl

abbrev AllTo : String → Relation → List Relation → Type 0
AllTo own s draft =
    All (λ (r : Relation). is_shared own r ≡ true → same_target s r.run r.instance_id ≡ true) draft

-- A first foreign target is the only one.
first_shared :
    (own : String) (draft : List Relation) (x s : Relation)
    → find (is_shared own) draft ≡ none
    → (if is_shared own x then some x else none) ≡ some s
    → AllTo own s (draft ++ x ∷ [])
first_shared own draft x s n e = step (is_shared own x) e
  where
    step : (b : Bool) → (if b then some x else none) ≡ some s → AllTo own s (draft ++ x ∷ [])
    step false f = cc
    step true f =
        subst (λ y. AllTo own y (draft ++ x ∷ [])) (some_injective x s f)
          (All-append _ draft (x ∷ [])
            (All-weaken draft (λ r off on. absurd (apart off on))
              (find_nothing (is_shared own) draft n))
            ((λ h. same_target_refl x), tt))
      where
        apart : {b : Bool} → b ≡ false → b ≡ true → ⊥
        apart off on = cc

-- A further foreign target is the first one again.
further_shared :
    (own : String) (draft : List Relation) (x s : Relation)
    → other_shared (some s) own x.run x.instance_id ≡ false
    → AllTo own s draft
    → AllTo own s (draft ++ x ∷ [])
further_shared own draft x s h k =
    All-append _ draft (x ∷ []) k ((λ f. step (is_shared own x) f h), tt)
  where
    step :
        (b : Bool)
        → b ≡ true
        → (b && not (same_target s x.run x.instance_id)) ≡ false
        → same_target s x.run x.instance_id ≡ true
    step b f h = ground (arith, f, h)

SharesOne-append :
    (own : String) (draft : List Relation) (x : Relation)
    → other_shared (find (is_shared own) draft) own x.run x.instance_id ≡ false
    → SharesOne own draft
    → SharesOne own (draft ++ x ∷ [])
SharesOne-append own draft x h k s e =
    step (find (is_shared own) draft) refl h (sym (find-append (is_shared own) draft x) ∙ e)
  where
    step :
        (o : Option Relation)
        → find (is_shared own) draft ≡ o
        → other_shared o own x.run x.instance_id ≡ false
        → or_else o (if is_shared own x then some x else none) ≡ some s
        → AllTo own s (draft ++ x ∷ [])
    step none f h e = first_shared own draft x s f e
    step (some a) f h e =
        let same = some_injective a s e in
        further_shared own draft x s
          (subst (λ y. other_shared (some y) own x.run x.instance_id ≡ false) same h)
          (k s (f ∙ ap some same))

four_true : (n : ℕ) (b c d : Bool) → (ltb n 4 && b && c && not d) ≡ true → (n < 4) × (d ≡ false)
four_true n b c d h = ground (arith, h)

-- A relation that is not refused leaves a sound draft sound.
append-IsSound :
    (own : String) (draft : List Relation) (x : Relation)
    → length draft < 4
    → is_refused own draft x.source x.run x.instance_id ≡ false
    → IsSound own draft
    → IsSound own (draft ++ x ∷ [])
unfolding is_refused
append-IsSound own draft x l r (k, n, f, d) =
    let parts =
      all_false (str_eq x.run own && str_eq x.instance_id x.source)
        (other_shared (find (is_shared own) draft) own x.run x.instance_id)
        (is_proposed draft x.source x.run x.instance_id) r in
    (
      (let sum = length-append draft (x ∷ []) in omega (arith, sum, l)),
      All-append _ draft (x ∷ []) n (parts.0, tt),
      SharesOne-append own draft x parts.1 f,
      Distinct-append draft x parts.2 d,
    )

-- What the `add` button adds leaves a sound draft sound.
pub add_to-IsSound :
    (own : Value) (source : String) (choice : Choice) (o : Option Value) (draft : List Relation)
    (x : Relation)
    → add_to own source choice o draft ≡ some x
    → IsSound (text_of (get own "RunId")) draft
    → IsSound (text_of (get own "RunId")) (draft ++ x ∷ [])
unfolding add_to
add_to-IsSound own source choice none draft x h s = cc
add_to-IsSound own source choice (some run) draft x h s =
    let added : Relation = proposal (text_of (get own "RunId")) source run choice.instance_id in
    let taken =
      if_some_parts
        (ltb (length draft) 4
          && has_instance run choice.instance_id
          && has_instance own source
          && not (
              is_refused (text_of (get own "RunId")) draft source (text_of (get run "RunId"))
                choice.instance_id))
        added x h in
    let tests =
      four_true (length draft) (has_instance run choice.instance_id) (has_instance own source)
        (is_refused (text_of (get own "RunId")) draft source (text_of (get run "RunId"))
          choice.instance_id)
        taken.0 in
    subst (λ y. IsSound (text_of (get own "RunId")) (draft ++ y ∷ [])) taken.1
      (append-IsSound (text_of (get own "RunId")) draft added tests.0 tests.1 s)
