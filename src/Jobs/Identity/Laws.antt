-- ===== src/Jobs/Identity/Laws.antt =====
-- What reaches the identity of a submission (Ui/app.js, nonSecretSubmissionIdentity).
use sql_server_lab.Prelude.{
  String, Bool, true, false, List, [], ◌∷◌, ◌++◌, some, ◌≡◌, arith, find, All, and_parts, ◌&&◌,
  Bool-cases, inl, inr,
}
use sql_server_lab.Js.{Value, is_false, is_string}
use sql_server_lab.Js.Maps.{Map, insert, map_keys}
use sql_server_lab.Jobs.Identity.{
  Descriptor, Payload, is_allowed, commands, is_named, contributes, collect, to_lower, target_value,
  non_secret_submission_identity,
}

abbrev pub with_parameter :
    List (String × Value) → String → Value → List (String × Value) → Value → Payload
with_parameter before name v after set = record {
  parameters = before ++ (name, v) ∷ after;
  parameter_set = set;
}

collect-ignored :
    (endpoint : String) (descriptors : List Descriptor) (before : List (String × Value))
    (name : String) (v w : Value) (after : List (String × Value)) (targets : Map Value)
    → contributes endpoint descriptors name v ≡ false
    → contributes endpoint descriptors name w ≡ false
    → collect endpoint descriptors (before ++ (name, v) ∷ after) targets
      ≡ collect endpoint descriptors (before ++ (name, w) ∷ after) targets
unfolding collect
collect-ignored endpoint descriptors [] name v w after targets p q = ground (arith, p, q)
collect-ignored endpoint descriptors ((n, x) ∷ before) name v w after targets p q =
    collect-ignored endpoint descriptors before name v w after _ p q

and_false_end : (a b : Bool) → (a && b && false) ≡ false
and_false_end a b = ground arith

contributes_of_sensitive :
    (descriptors : List Descriptor) (name : String) (d : Descriptor) (v : Value)
    → find (λ (e : Descriptor). is_named (to_lower name) e.name) descriptors ≡ some d
    → is_false d.sensitive ≡ false
    → contributes commands descriptors name v ≡ false
unfolding contributes
contributes_of_sensitive descriptors name d v found secret =
    rw (found, secret) (and_false_end (is_allowed (to_lower name)) (is_string v))

-- For a catalogued command, the value of a parameter whose descriptor does not say that it is not
-- sensitive has no influence on the identity, wherever the parameter stands.
pub identity_ignores_sensitive :
    (action : String) (set : Value) (descriptors : List Descriptor)
    (before after : List (String × Value)) (name : String) (d : Descriptor) (v w : Value)
    → find (λ (e : Descriptor). is_named (to_lower name) e.name) descriptors ≡ some d
    → is_false d.sensitive ≡ false
    → non_secret_submission_identity action commands
        (with_parameter before name v after set)
        descriptors
      ≡ non_secret_submission_identity action commands
          (with_parameter before name w after set)
          descriptors
unfolding non_secret_submission_identity
identity_ignores_sensitive action set descriptors before after name d v w found secret = rw (
    collect-ignored commands descriptors before name v w after []
      (contributes_of_sensitive descriptors name d v found secret)
      (contributes_of_sensitive descriptors name d w found secret))

keys-insert-allowed :
    (k : String) (v : Value) (m : Map Value)
    → is_allowed k ≡ true
    → All (λ j. is_allowed j ≡ true) (map_keys m)
    → All (λ j. is_allowed j ≡ true) (map_keys (insert k v m))
unfolding insert
keys-insert-allowed k v [] h a = (h, tt)
keys-insert-allowed k v ((j, w) ∷ m) h a = ground (arith, keys-insert-allowed k v m h)

is_allowed_of_contributes :
    (endpoint : String) (descriptors : List Descriptor) (name : String) (v : Value)
    → contributes endpoint descriptors name v ≡ true
    → is_allowed (to_lower name) ≡ true
unfolding contributes
is_allowed_of_contributes endpoint descriptors name v h =
    let front = and_parts (is_allowed (to_lower name) && is_string v) _ h in
    (and_parts (is_allowed (to_lower name)) (is_string v) front.0).0

collect-allowed :
    (endpoint : String) (descriptors : List Descriptor) (ps : List (String × Value)) (m : Map Value)
    → All (λ j. is_allowed j ≡ true) (map_keys m)
    → All (λ j. is_allowed j ≡ true) (map_keys (collect endpoint descriptors ps m))
unfolding collect
collect-allowed endpoint descriptors [] m a = a
collect-allowed endpoint descriptors ((name, v) ∷ ps) m a =
    elim (Bool-cases (contributes endpoint descriptors name v)) [
      | inl h ↦ rw h (
          collect-allowed endpoint descriptors ps _ (
            keys-insert-allowed (to_lower name) (target_value (to_lower name) v) m
              (is_allowed_of_contributes endpoint descriptors name v h) a))
      | inr h ↦ rw h (collect-allowed endpoint descriptors ps m a)
    ]

-- Whatever the parameters, the identity's targets are among the eleven logical coordinates.
pub identity_targets_allowed :
    (action endpoint : String) (payload : Payload) (descriptors : List Descriptor)
    → All
        (λ j. is_allowed j ≡ true)
        (map_keys (non_secret_submission_identity action endpoint payload descriptors).targets)
unfolding non_secret_submission_identity
identity_targets_allowed action endpoint payload descriptors =
    collect-allowed endpoint descriptors payload.parameters [] tt
