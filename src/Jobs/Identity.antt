-- ===== src/Jobs/Identity.antt =====
-- What a submission is identified by: canonicalSubmission and nonSecretSubmissionIdentity of
-- Ui/app.js. The SHA-256 of the identity's JSON text is the key under which the page remembers it.
pub mod Laws
use Prim.Native.Char.{Char, code}
use Prim.Native.String.{compare}
use Prim.Native.Nat.{Ordering}
use sql_server_lab.Prelude.{
  ℕ, zero, suc, ◌-◌, String, Bool, false, ◌&&◌, ◌||◌, not, List, [], ◌∷◌, Option, none, some,
  str_eq, if◌then◌else◌, includes, find,
}
use sql_server_lab.Js.{
  Value, str, arr, obj, no_more, item, Elements, Fields, end, field, codes, is_string, is_str,
  is_false,
}
use sql_server_lab.Js.Maps.{Map, insert}
use sql_server_lab.Js.Coerce.{text_value}
use sql_server_lab.Js.Patterns.{is_upper, guid_rfc, literally, finished}

-- `Object.keys(value).sort()` on the fields themselves: keys in the order of their code points.
insert_field : String → Value → Fields → Fields
insert_field k v end = field k v end
insert_field k v (field j w fs) = elim (compare k j) [
  | Ordering.gt ↦ field j w (insert_field k v fs)
  | _ ↦ field k v (field j w fs)
]

mutual
  pub canonical_submission : Value → Value
  canonical_submission (arr vs) = arr (canonical_items vs)
  canonical_submission (obj fs) = obj (canonical_fields fs)
  canonical_submission v = v

  canonical_items : Elements → Elements
  canonical_items no_more = no_more
  canonical_items (item v vs) = item (canonical_submission v) (canonical_items vs)

  canonical_fields : Fields → Fields
  canonical_fields end = end
  canonical_fields (field k v fs) = insert_field k (canonical_submission v) (canonical_fields fs)

-- The letter of the alphabet at a place, or the given character.
letter_at : ℕ → String → Char → Char
letter_at n String.[] c = c
letter_at zero (String.◌∷◌ d s) c = d
letter_at (suc n) (String.◌∷◌ d s) c = letter_at n s c

-- `toLowerCase`, on the letters of ASCII; other characters are left as they are.
unfoldable pub to_lower : String → String
unfolding letter_at
to_lower String.[] = String.[]
to_lower (String.◌∷◌ c s) =
    String.◌∷◌
      (if is_upper (code c) then letter_at (code c - 65) "abcdefghijklmnopqrstuvwxyz" c else c)
      (to_lower s)

-- One entry of a parameter set of the command catalogue.
pub record Descriptor : Type 0 where
  pub name : Value
  pub sensitive : Value
  pub is_credential : Value
  pub type_name : Value

-- `payload`, with the parameters in the order of `Object.entries`.
pub record Payload : Type 0 where
  pub parameters : List (String × Value)
  pub parameter_set : Value

pub record Identity : Type 0 where
  pub action : String
  pub endpoint : String
  pub parameter_set : Value
  pub targets : Map Value

abbrev pub allowed : List String
allowed =
    "runid" ∷ "instanceid" ∷ "buildid" ∷ "artifactid" ∷ "groupid" ∷ "labname" ∷ "provider"
    ∷ "stateroot" ∷ "dataroot" ∷ "mediaroot" ∷ "testdataroot" ∷ []

abbrev commands : String
commands = "/api/commands"

-- `item.Name?.toLowerCase() === normalized`.
abbrev is_named : String → Value → Bool
is_named normalized (str s) = str_eq (to_lower s) normalized
is_named normalized _ = false

-- The test of a catalogued parameter: not sensitive, no credential, a plain text. The pattern test
-- of the type name takes it as a text.
abbrev is_plain_text : Option Descriptor → Bool
is_plain_text none = false
is_plain_text (some d) =
    is_false d.sensitive
    && is_false d.is_credential
    && literally (codes "System.String") finished (text_value d.type_name)

pub is_allowed : String → Bool
is_allowed = includes allowed

-- Whether a parameter contributes to the identity.
pub contributes : String → List Descriptor → String → Value → Bool
contributes endpoint descriptors name value =
    let normalized = to_lower name in
    is_allowed normalized
    && is_string value
    && (not (str_eq endpoint commands)
        || is_plain_text (find (λ (d : Descriptor). is_named normalized d.name) descriptors))

-- GUIDs of groups and runs are compared without regard to case.
abbrev target_value : String → Value → Value
target_value normalized (str s) =
    if (str_eq normalized "groupid" || str_eq normalized "runid") && guid_rfc (codes s)
    then str (to_lower s)
    else str s
target_value normalized v = v

-- The loop over `Object.entries(payload.parameters || {})`.
pub collect : String → List Descriptor → List (String × Value) → Map Value → Map Value
collect endpoint descriptors [] targets = targets
collect endpoint descriptors ((name, value) ∷ rest) targets = collect endpoint descriptors rest (
    if contributes endpoint descriptors name value
    then insert (to_lower name) (target_value (to_lower name) value) targets
    else targets)

pub non_secret_submission_identity : String → String → Payload → List Descriptor → Identity
non_secret_submission_identity action endpoint payload descriptors = record {
  action = action;
  endpoint = endpoint;
  parameter_set = if str_eq endpoint commands then payload.parameter_set else str "";
  targets = collect endpoint descriptors payload.parameters [];
}

fields_of : Map Value → Fields
fields_of [] = end
fields_of ((k, v) ∷ m) = field k v (fields_of m)

-- The identity as the object that is serialised.
pub identity_value : Identity → Value
identity_value i = obj (
    field "action" (str i.action) (
      field "endpoint" (str i.endpoint)
        (field "parameterSet" i.parameter_set (field "targets" (obj (fields_of i.targets)) end))))
