-- ===== src/Transport/Addresses.antt =====
-- What the tests of Ui/operator-transport.js establish of the addresses and of the fragment.
use sql_server_lab.Prelude.{
  ℕ, ◌≤◌, String, true, List, ◌++◌, some, ◌≡◌, refl, ap, ◌∙◌, str_eq, eq_iff, and_parts, leb,
  leb→le, length, all, if_some_parts, sym, [], ◌∷◌,
}
use sql_server_lab.Js.{codes}
use sql_server_lab.Js.Patterns.{literally, hex, is_hex}
use sql_server_lab.Js.Laws.{literally_parts, hex_parts}
use sql_server_lab.Transport.{
  Url, prefix, after, match_fragment, port_number, is_loopback, is_target,
}

-- An address below /api/ of an origin, without a user, a password or a fragment.
pub record IsApi (u : Url) (origin : String) : Type 0 where
  pub own_origin : u.origin ≡ origin
  pub no_user : u.username ≡ ""
  pub no_password : u.password ≡ ""
  pub no_hash : u.hash ≡ ""
  pub below_api : (rest : List ℕ) × (codes u.pathname ≡ codes "/api/" ++ rest)

-- The address of a page that a server on the loopback address delivers, at a port of users.
pub record IsLocal (u : Url) (origin : String) : Type 0 where
  pub plain : u.protocol ≡ "http:"
  pub host : u.hostname ≡ "127.0.0.1"
  pub port_from : 1025 ≤ port_number u
  pub port_to : port_number u ≤ 65535
  pub own_origin : u.origin ≡ origin
  pub no_user : u.username ≡ ""
  pub no_password : u.password ≡ ""

-- A fragment that holds a capability of 64 hexadecimal digits.
pub record Holds (fragment : String) (c : List ℕ) : Type 0 where
  pub written : codes fragment ≡ codes "#sql-lab-operator=" ++ c
  pub size : length c ≡ 64
  pub digits : all is_hex c ≡ true

pub is_target-IsApi : (u : Url) (origin : String) → is_target u origin ≡ true → IsApi u origin
unfolding is_target
is_target-IsApi u origin h =
    let path = and_parts _ (literally (codes "/api/") (λ cs. true) (codes u.pathname)) h in
    let hash = and_parts _ (str_eq u.hash "") path.0 in
    let password = and_parts _ (str_eq u.password "") hash.0 in
    let user = and_parts (str_eq u.origin origin) (str_eq u.username "") password.0 in
    let rest = literally_parts (codes "/api/") (λ cs. true) (codes u.pathname) path.1 in
    record {
      own_origin = (eq_iff u.origin origin).0 user.0;
      no_user = (eq_iff u.username "").0 user.1;
      no_password = (eq_iff u.password "").0 password.1;
      no_hash = (eq_iff u.hash "").0 hash.1;
      below_api = (rest.0, rest.1);
    }

pub is_loopback-IsLocal :
    (u : Url) (origin : String) → is_loopback u origin ≡ true → IsLocal u origin
unfolding is_loopback
is_loopback-IsLocal u origin h =
    let password = and_parts _ (str_eq u.password "") h in
    let user = and_parts _ (str_eq u.username "") password.0 in
    let own = and_parts _ (str_eq u.origin origin) user.0 in
    let to = and_parts _ (leb (port_number u) 65535) own.0 in
    let from = and_parts _ (leb 1025 (port_number u)) to.0 in
    let host = and_parts (str_eq u.protocol "http:") (str_eq u.hostname "127.0.0.1") from.0 in
    record {
      plain = (eq_iff u.protocol "http:").0 host.0;
      host = (eq_iff u.hostname "127.0.0.1").0 host.1;
      port_from = leb→le _ _ from.1;
      port_to = leb→le _ _ to.1;
      own_origin = (eq_iff u.origin origin).0 own.1;
      no_user = (eq_iff u.username "").0 user.1;
      no_password = (eq_iff u.password "").0 password.1;
    }

after-append : (xs cs : List ℕ) → after xs (xs ++ cs) ≡ cs
after-append [] cs = refl
after-append (x ∷ xs) cs = after-append xs cs

pub match_fragment-Holds :
    (fragment : String) (c : List ℕ) → match_fragment (codes fragment) ≡ some c → Holds fragment c
unfolding match_fragment
match_fragment-Holds fragment c h =
    let parts =
      if_some_parts (literally prefix (hex 64) (codes fragment)) (after prefix (codes fragment)) c
        h in
    let split = literally_parts prefix (hex 64) (codes fragment) parts.0 in
    let same : split.0 ≡ c =
      sym (after-append prefix split.0) ∙ ap (after prefix) (sym split.1) ∙ parts.1 in
    let counted = hex_parts 64 split.0 split.2 in
    record {
      written = split.1 ∙ ap (λ (x : List ℕ). prefix ++ x) same;
      size = ap (λ (x : List ℕ). length x) (sym same) ∙ counted.0;
      digits = ap (λ (x : List ℕ). all is_hex x) (sym same) ∙ counted.1;
    }
