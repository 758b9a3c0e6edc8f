-- ===== src/Transport/Tests.antt =====
-- The transport at concrete inputs.
use sql_server_lab.Prelude.{
  ℕ, String, true, List, [], ◌∷◌, Option, none, some, refl, str_eq, if◌then◌else◌,
}
use sql_server_lab.Js.{Value, undefined, obj, end, codes}
use sql_server_lab.Js.Patterns.{hex}
use sql_server_lab.Transport.{
  Url, Page, match_fragment, is_loopback, capability, Headers, operator_header, text, Request,
  is_target, ui_fetch,
}
use sql_server_lab.Transport.Laws.{IsGranted, IsRequestOf, sent_with_capability}

abbrev home : Url
home = record {
  href = "http://127.0.0.1:8123/";
  origin = "http://127.0.0.1:8123";
  protocol = "http:";
  hostname = "127.0.0.1";
  port = "8123";
  username = "";
  password = "";
  hash = "";
  pathname = "/";
}

abbrev api : Url
api = record home { href = "http://127.0.0.1:8123/api/jobs"; pathname = "/api/jobs" }

abbrev page : Page
page = record {
  origin = "http://127.0.0.1:8123";
  fragment = "#sql-lab-operator=0123456789abcdef0123456789abcdef0123456789abcdef0123456789abcdef";
  is_replaced = true;
  address = some home;
}

abbrev url_of : String → Option Url
url_of t = if str_eq t "/api/jobs" then some api else none

abbrev headers_of : Value → Option Headers
headers_of v = some []

abbrev digits : List ℕ
digits = codes "0123456789abcdef0123456789abcdef0123456789abcdef0123456789abcdef"

abbrev request : Request
request = record {
  href = "http://127.0.0.1:8123/api/jobs";
  options = obj end;
  headers = (operator_header, digits) ∷ [];
  redirect = "error";
}

sent_with_capability_example :
    (c : List ℕ) × IsGranted page c
    × IsRequestOf url_of headers_of page (text "/api/jobs") undefined c request
unfolding ui_fetch capability match_fragment is_loopback is_target hex
sent_with_capability_example =
    sent_with_capability url_of headers_of page (text "/api/jobs") undefined request refl
