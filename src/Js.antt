-- ===== src/Js.antt =====
-- The values that Ui/*.js reads from JSON responses and from DOM controls, with the tests on them
-- that the modules of Ui/ share, and the patterns (`/…/.test`) of Js/Patterns.antt.
--
-- A number is a natural number, a negative integer or, as `fraction`, any other finite number by
-- its decimal text. An object is a list of fields with distinct names, which JSON.parse gives.
pub mod Coerce
pub mod Laws
pub mod Maps
pub mod Patterns
use Prim.Native.Char.{code}
use sql_server_lab.Prelude.{
  ℕ, suc, zero, ◌+◌, String, Bool, true, false, ◌&&◌, ◌||◌, not, List, [], ◌∷◌, Option, none, some,
  length, all, leb, ltb, ◌==◌, str_eq, includes, if◌then◌else◌,
}

mutual
  pub data Value : Type 0 where
    undefined : Value
    null : Value
    bool : Bool → Value
    num : ℕ → Value
    negative : ℕ → Value
    fraction : String → Value
    str : String → Value
    arr : Elements → Value
    obj : Fields → Value

  pub data Elements : Type 0 where
    no_more : Elements
    item : Value → Elements → Elements

  pub data Fields : Type 0 where
    end : Fields
    field : String → Value → Fields → Fields

abbrev pub elements : Elements → List Value
elements no_more = []
elements (item v vs) = v ∷ elements vs

abbrev pub items : List Value → Elements
items [] = no_more
items (v ∷ vs) = item v (items vs)

-- `Object.keys` of an object.
abbrev pub keys : Fields → List String
keys end = []
keys (field k v fs) = k ∷ keys fs

abbrev pub field_of : Fields → String → Value
field_of end k = undefined
field_of (field j v fs) k = if str_eq j k then v else field_of fs k

-- `v.k` for a plain object; any other value has no such property here.
abbrev pub get : Value → String → Value
get (obj fs) k = field_of fs k
get _ k = undefined

-- `v !== null && typeof v === 'object' && !Array.isArray(v)` with exactly the given keys: as many
-- keys as names, and every key among the names.
abbrev pub shape : Value → List String → Bool
shape (obj fs) names = length (keys fs) == length names && all (includes names) (keys fs)
shape _ names = false

-- The same test as environment-groups.js writes it: as many keys, and every name among them.
abbrev pub has_only_keys : Value → List String → Bool
has_only_keys (obj fs) names = length (keys fs) == length names && all (includes (keys fs)) names
has_only_keys _ names = false

-- `v === 'text'`.
abbrev pub is_str : Value → String → Bool
is_str (str s) t = str_eq s t
is_str _ t = false

abbrev pub is_null : Value → Bool
is_null null = true
is_null _ = false

abbrev pub is_true : Value → Bool
is_true (bool b) = b
is_true _ = false

abbrev pub is_false : Value → Bool
is_false (bool b) = not b
is_false _ = false

-- `typeof v === 'boolean'`, and `'string'`.
abbrev pub is_bool : Value → Bool
is_bool (bool b) = true
is_bool _ = false

abbrev pub is_string : Value → Bool
is_string (str s) = true
is_string _ = false

-- `v !== null && typeof v === 'object' && !Array.isArray(v)`.
abbrev pub is_object : Value → Bool
is_object (obj fs) = true
is_object _ = false

abbrev pub is_array : Value → Bool
is_array (arr vs) = true
is_array _ = false

-- `Array.isArray(v)` and `v.length === 0`.
abbrev pub is_empty_array : Value → Bool
is_empty_array (arr no_more) = true
is_empty_array _ = false

-- The elements of an array, and none of any other value.
abbrev pub array_of : Value → List Value
array_of (arr vs) = elements vs
array_of _ = []

-- `names.includes(v)` for a list of texts.
abbrev pub is_one_of : List String → Value → Bool
is_one_of names (str s) = includes names s
is_one_of names _ = false

-- `Number.isInteger(v) && v >= lo && v <= hi` for natural bounds.
abbrev pub is_integer_in : ℕ → ℕ → Value → Bool
is_integer_in lo hi (num n) = leb lo n && leb n hi
is_integer_in lo hi _ = false

-- The natural number that a value holds; 0 stands for every value that holds none.
abbrev pub nat_of : Value → ℕ
nat_of (num n) = n
nat_of _ = 0

abbrev pub text_of : Value → String
text_of (str s) = s
text_of _ = ""

-- The code points of a text. The patterns of Ui/ speak of ASCII characters only, so that the
-- UTF-16 units of other characters match nothing but a negated class.
abbrev pub codes : String → List ℕ
codes String.[] = []
codes (String.◌∷◌ c s) = code c ∷ codes s

-- `s.length`, in UTF-16 units.
abbrev pub units : List ℕ → ℕ
units [] = 0
units (c ∷ cs) = (if ltb c 65536 then 1 else 2) + units cs

-- `typeof v === 'string' && /…/.test(v)`.
abbrev pub matches : (List ℕ → Bool) → Value → Bool
matches p (str s) = p (codes s)
matches p _ = false

-- `v.length >= lo && v.length <= hi` for a text, in UTF-16 units.
abbrev pub has_length : ℕ → ℕ → Value → Bool
has_length lo hi (str s) = leb lo (units (codes s)) && leb (units (codes s)) hi
has_length lo hi _ = false

-- A value as a condition: null, undefined, false, 0
-- and the empty text are falsy.
abbrev pub truthy : Value → Bool
truthy undefined = false
truthy null = false
truthy (bool b) = b
truthy (num n) = not (n == 0)
truthy (str s) = not (str_eq s "")
truthy _ = true

-- An array of exactly these texts, in this order.
unfoldable pub same_texts : List Value → List String → Bool
same_texts [] [] = true
same_texts [] (t ∷ ts) = false
same_texts (v ∷ vs) [] = false
same_texts (v ∷ vs) (t ∷ ts) = is_str v t && same_texts vs ts

unfoldable pub is_list_of : List String → Value → Bool
is_list_of texts v = is_array v && same_texts (array_of v) texts
