-- ===== src/Transport/Laws.antt =====
-- What a request that the page sends is known to be.
use sql_server_lab.Prelude.{
  ℕ, String, Bool, true, false, List, ◌∷◌, Option, none, some, if◌then◌else◌, ◌≡◌, refl, sym, ap,
  ◌∙◌, if_some_parts,
}
use sql_server_lab.Js.{Value, get, codes}
use sql_server_lab.Transport.Addresses.{
  IsApi, IsLocal, Holds, is_target-IsApi, is_loopback-IsLocal, match_fragment-Holds,
}
use sql_server_lab.Transport.{
  Url, Page, match_fragment, is_loopback, granted, capability, Headers, operator_header,
  has_operator, Input, text, other, Request, Fetch, refused, sent, options_of, is_options,
  is_target, with_headers, with_url, fetch_with, ui_fetch,
}

-- The capability is the one of the page's fragment, which could be removed from the address bar,
-- and the page is the loopback server's.
abbrev pub IsGranted : Page → List ℕ → Type 0
IsGranted p c =
    (u : Url) × (p.is_replaced ≡ true)
    × (p.address ≡ some u)
    × IsLocal u p.origin
    × Holds p.fragment c

capability-IsGranted : (p : Page) (c : List ℕ) → capability p ≡ some c → IsGranted p c
unfolding capability
capability-IsGranted p c h =
    let parts =
      replaced p.is_replaced (granted (match_fragment (codes p.fragment)) p.address p.origin) h in
    granted_parts (match_fragment (codes p.fragment)) p.address refl refl parts.0 parts.1
  where
    replaced :
        (b : Bool) (g : Option (List ℕ))
        → (if b then g else none) ≡ some c
        → (b ≡ true) × (g ≡ some c)
    replaced true g e = (refl, e)
    replaced false g e = cc

    granted_parts :
        (m : Option (List ℕ)) (a : Option Url)
        → match_fragment (codes p.fragment) ≡ m
        → p.address ≡ a
        → p.is_replaced ≡ true
        → granted m a p.origin ≡ some c
        → IsGranted p c
    granted_parts none none e f b g = cc
    granted_parts none (some u) e f b g = cc
    granted_parts (some digits) none e f b g = cc
    granted_parts (some digits) (some u) e f b g =
        let parts = if_some_parts (is_loopback u p.origin) digits c g in
        (
          u,
          b,
          f,
          is_loopback-IsLocal u p.origin parts.0,
          match_fragment-Holds p.fragment c (e ∙ ap some parts.1),
        )

-- What a request has to do with the call that it comes from.
abbrev pub IsRequestOf :
    (String → Option Url)
    → (Value → Option Headers)
    → Page
    → Input
    → Value
    → List ℕ
    → Request
    → Type 0
IsRequestOf url_of headers_of p input options c r =
    (t : String) × (u : Url) × (hs : Headers) × (input ≡ text t)
    × (url_of t ≡ some u)
    × IsApi u p.origin
    × (headers_of (get (options_of options) "headers") ≡ some hs)
    × (has_operator hs ≡ false)
    × (r ≡ record {
      href = u.href;
      options = options_of options;
      headers = (operator_header, c) ∷ hs;
      redirect = "error";
    })

sent_injective : (r s : Request) → sent r ≡ sent s → r ≡ s
sent_injective r s h = cc

-- A request that is sent has passed the tests.
unless_refused :
    (b : Bool) (m : String) (f : Fetch) (r : Request)
    → (if b then refused m else f) ≡ sent r
    → (b ≡ false) × (f ≡ sent r)
unless_refused true m f r h = cc
unless_refused false m f r h = (refl, h)

if_allowed :
    (b : Bool) (m : String) (f : Fetch) (r : Request)
    → (if b then f else refused m) ≡ sent r
    → (b ≡ true) × (f ≡ sent r)
if_allowed true m f r h = (refl, h)
if_allowed false m f r h = cc

module _ (url_of : String → Option Url) (headers_of : Value → Option Headers) where
  with_headers_parts :
      (c : List ℕ) (u : Url) (options : Value) (o : Option Headers) (r : Request)
      → with_headers url_of headers_of c u options o ≡ sent r
      → (hs : Headers) × (o ≡ some hs)
        × (has_operator hs ≡ false)
        × (r ≡ record {
          href = u.href;
          options = options;
          headers = (operator_header, c) ∷ hs;
          redirect = "error";
        })
  with_headers_parts c u options none r h = cc
  with_headers_parts c u options (some hs) r h =
      let parts = unless_refused (has_operator hs) "UI_OPERATOR_HEADER_INVALID" _ r h in
      (hs, refl, parts.0, sym (sent_injective _ r parts.1))

  fetch_with_parts :
      (o : Option (List ℕ)) (p : Page) (input : Input) (options : Value) (r : Request)
      → fetch_with url_of headers_of o p.origin input (options_of options) ≡ sent r
      → (c : List ℕ) × (o ≡ some c) × IsRequestOf url_of headers_of p input options c r
  fetch_with_parts none p input options r h = cc
  fetch_with_parts (some c) p other options r h = cc
  fetch_with_parts (some c) p (text t) options r h =
      let objects =
        if_allowed (is_options (options_of options)) "UI_OPERATOR_REQUIRED"
          (with_url url_of headers_of c p.origin (options_of options) (url_of t)) r h in
      parsed (url_of t) refl objects.1
    where
      parsed :
          (o : Option Url)
          → url_of t ≡ o
          → with_url url_of headers_of c p.origin (options_of options) o ≡ sent r
          → (d : List ℕ) × (some c ≡ some d) × IsRequestOf url_of headers_of p (text t) options d r
      parsed none e f = cc
      parsed (some u) e f =
          let target =
            if_allowed (is_target u p.origin) "UI_OPERATOR_TARGET_INVALID"
              (with_headers url_of headers_of c u (options_of options)
                (headers_of (get (options_of options) "headers")))
              r f in
          let made =
            with_headers_parts c u (options_of options)
              (headers_of (get (options_of options) "headers")) r target.1 in
          (
            c,
            refl,
            (t, u, made.0, refl, e, is_target-IsApi u p.origin target.0, made.1, made.2, made.3),
          )

  -- A request that the page sends goes to the address that the browser makes of the given text.
  -- This address has the page's own origin and a path below /api/, and no user, password or
  -- fragment. The page's address is plain HTTP on 127.0.0.1 at a port from 1025 to 65535, without
  -- user and password. The request carries the 64 hexadecimal digits of the page's fragment, which
  -- could be removed from the address bar, in the header of the operator, which the caller has not
  -- set, beside the caller's headers; it keeps the caller's options and follows no redirection.
  pub sent_with_capability :
      (p : Page) (input : Input) (options : Value) (r : Request)
      → ui_fetch url_of headers_of p input options ≡ sent r
      → (c : List ℕ) × IsGranted p c × IsRequestOf url_of headers_of p input options c r
  unfolding ui_fetch
  sent_with_capability p input options r h =
      let parts = fetch_with_parts (capability p) p input options r h in
      (parts.0, capability-IsGranted p parts.0 parts.1, parts.2)
