-- ===== src/Qualification/Page.antt =====
-- The state of Ui/tls-live-qualification.js: its buttons with their status, and what changes them.
-- A status is what its text says.
use sql_server_lab.Prelude.{
  ℕ, zero, suc, Bool, true, false, not, ◌||◌, List, [], ◌∷◌, Option, none, some, map, get_elem?,
  ◌==◌, if◌then◌else◌,
}
use sql_server_lab.Js.{Value}
use sql_server_lab.Qualification.{Target, eligible, valid}

pub data Status : Type 0 where
  initial unavailable checking unconfirmed : Status
  confirmed : Value → Status

pub record Control : Type 0 where
  pub target : Target
  pub disabled : Bool
  pub status : Status

pub record Page : Type 0 where
  pub generation : ℕ
  pub pending : Bool
  pub available : Bool
  pub controls : List Control

abbrev pub set_all : Status → List Control → List Control
set_all s = map (λ (c : Control). record c { status = s })

abbrev pub disable_all : Bool → List Control → List Control
disable_all b = map (λ (c : Control). record c { disabled = b })

abbrev pub set_status : ℕ → Status → List Control → List Control
set_status i s [] = []
set_status zero s (c ∷ cs) = record c { status = s } ∷ cs
set_status (suc i) s (c ∷ cs) = c ∷ set_status i s cs

-- invalidate; the timer that it clears would only call it.
abbrev pub invalidate : Page → Page
invalidate p = record p { generation = suc p.generation; controls = set_all initial p.controls }

abbrev pub idle_status : Bool → Status
idle_status available = if available then initial else unavailable

-- The buttons for the eligible targets, as far as there are articles.
abbrev pub mounted : Bool → Bool → ℕ → List Target → List Control
mounted disabled available articles [] = []
mounted disabled available zero (t ∷ ts) = []
mounted disabled available (suc articles) (t ∷ ts) =
    let rest = mounted disabled available articles ts in
    if eligible t
    then record { target = t; disabled = disabled; status = idle_status available } ∷ rest
    else rest

-- mount, with the number of the articles.
unfoldable pub mount : ℕ → List Target → Page → Page
mount articles targets p = record (invalidate p) {
  controls = mounted (p.pending || not p.available) p.available articles targets;
}

-- setAvailable.
unfoldable pub set_available : Bool → Page → Page
set_available value p = record (invalidate p) {
  available = value;
  controls =
      map
        (λ (c : Control). record c {
          disabled = p.pending || not value;
          status = idle_status value;
        })
        p.controls;
}

-- What a check remembers while it waits.
pub record Ticket : Type 0 where
  pub index : ℕ
  pub target : Target
  pub call_generation : ℕ
  pub started : ℕ

abbrev pub ticket : ℕ → ℕ → Control → Page → Ticket
ticket i now c p = record {
  index = i;
  target = c.target;
  call_generation = suc p.generation;
  started = now;
}

abbrev pub checking_page : ℕ → Page → Page
checking_page i p = record (invalidate p) {
  pending = true;
  controls = set_status i checking (disable_all true (set_all initial p.controls));
}

-- The first half of the `click` handler of the i-th button, at a time, after the page has seen the
-- click; a disabled button gets none.
unfoldable pub press_control : ℕ → ℕ → Option Control → Page → Option Ticket × Page
press_control i now none p = (none, p)
press_control i now (some c) p =
    if c.disabled
    then (none, p)
    else if not p.pending
    then (some (ticket i now c (invalidate p)), checking_page i (invalidate p))
    else (none, invalidate p)

abbrev pub press : ℕ → ℕ → Page → Option Ticket × Page
press i now p = press_control i now (get_elem? p.controls i) p

-- `finally`.
unfoldable pub release : Page → Page
release p = record p { pending = false; controls = disable_all (not p.available) p.controls }

-- How a check ended: it threw, or there is a result at a time.
pub data Outcome : Type 0 where
  thrown : Outcome
  finished : Value → ℕ → Outcome

module _ (time_of : Value → Option ℕ) where
  abbrev pub status_of : Ticket → Outcome → Status
  status_of t thrown = unconfirmed
  status_of t (finished v now) =
      if valid time_of v t.target t.started now then confirmed v else unconfirmed

  -- The second half of the `click` handler.
  unfoldable pub end_check : Ticket → Outcome → Page → Page
  end_check t o p = release (
      if t.call_generation == p.generation
      then record p { controls = set_status t.index (status_of t o) p.controls }
      else p)

-- A click on a button is seen by the whole page first, which invalidates it; so does the time at
-- which a result expires.
pub data Event : Type 0 where
  render : ℕ → List Target → Event
  press_check : ℕ → ℕ → Event
  make_available : Bool → Event
  click_button submit_form hide_page expire : Event

unfoldable pub handle : Event → Page → Option Ticket × Page
handle (render articles targets) p = (none, mount articles targets p)
handle (press_check i now) p = press i now p
handle (make_available value) p = (none, set_available value p)
handle click_button p = (none, invalidate p)
handle submit_form p = (none, invalidate p)
handle hide_page p = (none, invalidate p)
handle expire p = (none, invalidate p)
