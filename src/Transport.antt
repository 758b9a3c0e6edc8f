-- ===== src/Transport.antt =====
-- The transport of the page: Ui/operator-transport.js. The capability that the page takes from its
-- fragment, and sqlServerLabUiFetch, which adds it to a request.
pub mod Addresses
pub mod Laws
mod Tests
use sql_server_lab.Prelude.{
  ℕ, ◌+◌, ◌*◌, ◌-◌, String, Bool, true, false, not, ◌&&◌, ◌||◌, List, [], ◌∷◌, Option, none, some,
  any, leb, str_eq, if◌then◌else◌,
}
use sql_server_lab.Js.{Value, undefined, obj, arr, end, get, codes}
use sql_server_lab.Js.Patterns.{hex, literally}

-- What the browser makes of an address; `port` is empty or has digits only.
pub record Url : Type 0 where
  pub href : String
  pub origin : String
  pub protocol : String
  pub hostname : String
  pub port : String
  pub username : String
  pub password : String
  pub hash : String
  pub pathname : String

-- The parts of the page's address that the script reads, and whether the fragment could be removed
-- and the address parsed.
pub record Page : Type 0 where
  pub origin : String
  pub fragment : String
  pub is_replaced : Bool
  pub address : Option Url

abbrev pub after : List ℕ → List ℕ → List ℕ
after [] cs = cs
after (x ∷ xs) [] = []
after (x ∷ xs) (c ∷ cs) = after xs cs

abbrev pub prefix : List ℕ
prefix = codes "#sql-lab-operator="

-- `/^#sql-lab-operator=([a-f0-9]{64})$/.exec(fragment)`: the group.
unfoldable pub match_fragment : List ℕ → Option (List ℕ)
match_fragment cs = if literally prefix (hex 64) cs then some (after prefix cs) else none

-- `Number(port)`.
abbrev decimal_from : ℕ → List ℕ → ℕ
decimal_from n [] = n
decimal_from n (c ∷ cs) = decimal_from (n * 10 + (c - b'0')) cs

abbrev pub port_number : Url → ℕ
port_number u = decimal_from 0 (codes u.port)

unfoldable pub is_loopback : Url → String → Bool
is_loopback u origin =
    str_eq u.protocol "http:"
    && str_eq u.hostname "127.0.0.1"
    && leb 1025 (port_number u)
    && leb (port_number u) 65535
    && str_eq u.origin origin
    && str_eq u.username ""
    && str_eq u.password ""

abbrev pub granted : Option (List ℕ) → Option Url → String → Option (List ℕ)
granted (some digits) (some u) origin = if is_loopback u origin then some digits else none
granted _ _ origin = none

-- The capability after the script has been loaded.
unfoldable pub capability : Page → Option (List ℕ)
unfolding match_fragment
capability p =
    if p.is_replaced then granted (match_fragment (codes p.fragment)) p.address p.origin else none

-- Headers hold their names in lower case.
abbrev pub Headers : Type 0
Headers = List (String × List ℕ)

abbrev pub operator_header : String
operator_header = "x-sqlserverlab-operator"

abbrev pub has_operator : Headers → Bool
has_operator hs = any (λ (h : String × List ℕ). str_eq h.0 operator_header) hs

pub data Input : Type 0 where
  text : String → Input
  other : Input

pub record Request : Type 0 where
  pub href : String
  pub options : Value
  pub headers : Headers
  pub redirect : String

-- A call that throws, with its message, or that the browser itself lets throw; or a request.
pub data Fetch : Type 0 where
  refused : String → Fetch
  threw : Fetch
  sent : Request → Fetch

-- `options = {}`, and `options && typeof options === 'object'`.
abbrev pub options_of : Value → Value
options_of undefined = obj end
options_of v = v

abbrev pub is_options : Value → Bool
is_options (obj fs) = true
is_options (arr vs) = true
is_options _ = false

unfoldable pub is_target : Url → String → Bool
is_target u origin =
    str_eq u.origin origin
    && str_eq u.username ""
    && str_eq u.password ""
    && str_eq u.hash ""
    && literally (codes "/api/") (λ cs. true) (codes u.pathname)

-- `url_of` is `new URL(input, origin + '/')`, and `headers_of` is `new Headers(value)`; nothing is
-- what they throw.
module _ (url_of : String → Option Url) (headers_of : Value → Option Headers) where
  abbrev pub with_headers : List ℕ → Url → Value → Option Headers → Fetch
  with_headers c u options none = threw
  with_headers c u options (some hs) =
      if has_operator hs
      then refused "UI_OPERATOR_HEADER_INVALID"
      else sent (record {
        href = u.href;
        options = options;
        headers = (operator_header, c) ∷ hs;
        redirect = "error";
      })

  abbrev pub with_url : List ℕ → String → Value → Option Url → Fetch
  with_url c origin options none = threw
  with_url c origin options (some u) =
      if is_target u origin
      then with_headers c u options (headers_of (get options "headers"))
      else refused "UI_OPERATOR_TARGET_INVALID"

  abbrev pub fetch_with : Option (List ℕ) → String → Input → Value → Fetch
  fetch_with (some c) origin (text t) options =
      if is_options options
      then with_url c origin options (url_of t)
      else refused "UI_OPERATOR_REQUIRED"
  fetch_with _ origin input options = refused "UI_OPERATOR_REQUIRED"

  -- sqlServerLabUiFetch, on a page that has been loaded.
  unfoldable pub ui_fetch : Page → Input → Value → Fetch
  unfolding capability
  ui_fetch p input options = fetch_with (capability p) p.origin input (options_of options)
