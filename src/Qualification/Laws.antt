-- ===== src/Qualification/Laws.antt =====
-- The page of the live checks fills the interface of Session: what a button says was confirmed
-- belongs to its target.
use sql_server_lab.Prelude.{
  ℕ, zero, suc, Bool, true, false, not, ◌||◌, List, [], ◌∷◌, Option, none, some, map, get_elem?,
  ◌==◌, lt→neq, ◌≡◌, refl, sym, ap, subst, ◌∙◌, ◌⊎◌, inl, inr, ◌≤◌, ◌<◌, arith, Bool-cases, All,
  if_any, some_injective,
}
use sql_server_lab.Js.{Value}
use sql_server_lab.Session.{Machine, IsSafe, Reachable}
use sql_server_lab.Session.Laws.{Reachable-Fits, ask_calm, ask_sent, ask_any}
use sql_server_lab.Qualification.{Target, eligible, valid}
use sql_server_lab.Qualification.Page.{
  Status, initial, checking, confirmed, Control, Page, set_status, invalidate, idle_status, mounted,
  mount, set_available, Ticket, ticket, checking_page, press_control, release, Outcome, thrown,
  finished, end_check, Event, render, press_check, make_available, click_button, submit_form,
  hide_page, expire, handle, status_of,
}

-- The ticket's button is still that of its target.
abbrev pub IsFor : Page → Ticket → Type 0
IsFor p t = (c : Control) × (get_elem? p.controls t.index ≡ some c) × (c.target ≡ t.target)

abbrev Calm : Page → Page → Type 0
Calm p p' =
    (p.generation < p'.generation)
    ⊎ ((p'.generation ≡ p.generation) × (true ≡ true) × ((t : Ticket) → IsFor p t → IsFor p' t))

same : (p : Page) → Calm p p
same p = inr (refl, refl, λ t f. f)

press_calm :
    (i now : ℕ) (o : Option Control) (p : Page)
    → (press_control i now o p).0 ≡ none
    → Calm p (press_control i now o p).1
unfolding press_control
press_calm i now none p h = same p
press_calm i now (some c) p h =
    ask_calm (ticket i now c (invalidate p)) p (checking_page i (invalidate p)) (invalidate p)
      (Calm p) c.disabled (not p.pending) (same p) (inl (omega arith)) h

calm : (e : Event) (p : Page) → (handle e p).0 ≡ none → Calm p (handle e p).1
unfolding handle mount set_available
calm (render articles targets) p h = inl (omega arith)
calm (press_check i now) p h = press_calm i now (get_elem? p.controls i) p h
calm (make_available value) p h = inl (omega arith)
calm click_button p h = inl (omega arith)
calm submit_form p h = inl (omega arith)
calm hide_page p h = inl (omega arith)
calm expire p h = inl (omega arith)

-- The target of the i-th button survives changes of the others' texts.
abbrev IsTarget : List Control → ℕ → Target → Type 0
IsTarget cs i t = (c : Control) × (get_elem? cs i ≡ some c) × (c.target ≡ t)

IsTarget-map :
    (f : Control → Control) (cs : List Control) (i : ℕ) (t : Target)
    → ((c : Control) → (f c).target ≡ c.target)
    → IsTarget cs i t
    → IsTarget (map f cs) i t
IsTarget-map f [] i t k (c, e, q) = cc
IsTarget-map f (x ∷ xs) zero t k (c, e, q) =
    (f x, refl, k x ∙ ap (λ (y : Control). y.target) (some_injective x c e) ∙ q)
IsTarget-map f (x ∷ xs) (suc i) t k h = IsTarget-map f xs i t k h

IsTarget-set_status :
    (j : ℕ) (s : Status) (cs : List Control) (i : ℕ) (t : Target)
    → IsTarget cs i t
    → IsTarget (set_status j s cs) i t
IsTarget-set_status j s [] i t (c, e, q) = cc
IsTarget-set_status zero s (x ∷ xs) zero t (c, e, q) =
    (record x { status = s }, refl, ap (λ (y : Control). y.target) (some_injective x c e) ∙ q)
IsTarget-set_status zero s (x ∷ xs) (suc i) t h = h
IsTarget-set_status (suc j) s (x ∷ xs) zero t h = h
IsTarget-set_status (suc j) s (x ∷ xs) (suc i) t h = IsTarget-set_status j s xs i t h

abbrev Asked : Page → Ticket → Page → Type 0
Asked p t p' =
    ((true ≡ false) ⊎ (p.generation < p'.generation))
    × (p.generation ≤ p'.generation)
    × (t.call_generation ≡ p'.generation)
    × (true ≡ true)
    × IsFor p' t

press_asked :
    (i now : ℕ) (o : Option Control) (p : Page) (t : Ticket)
    → get_elem? p.controls i ≡ o
    → (press_control i now o p).0 ≡ some t
    → Asked p t (press_control i now o p).1
unfolding press_control
press_asked i now none p t e h = cc
press_asked i now (some c) p t e h =
    ask_sent (ticket i now c (invalidate p)) p (checking_page i (invalidate p)) (invalidate p)
      (Asked p) c.disabled (not p.pending) t
      (λ stop go. (
        inr (omega arith),
        omega arith,
        refl,
        refl,
        IsTarget-set_status i checking _ i c.target (
            IsTarget-map (λ (x : Control). record x { disabled = true }) _ i c.target (λ x. refl)
              (IsTarget-map (λ (x : Control). record x { status = initial }) _ i c.target
                (λ x. refl)
                (IsTarget-map (λ (x : Control). record x { status = initial }) p.controls i c.target
                  (λ x. refl) (c, e, refl)))),
      ))
      h

asked : (e : Event) (p : Page) (t : Ticket) → (handle e p).0 ≡ some t → Asked p t (handle e p).1
unfolding handle
asked (render articles targets) p t h = cc
asked (press_check i now) p t h = press_asked i now (get_elem? p.controls i) p t refl h
asked (make_available value) p t h = cc
asked click_button p t h = cc
asked submit_form p t h = cc
asked hide_page p t h = cc
asked expire p t h = cc

module _ (time_of : Value → Option ℕ) where
  -- A confirmation is that of a valid result for the target.
  abbrev pub StatusFits : Target → Status → Type 0
  StatusFits t (confirmed v) = (started : ℕ) × (now : ℕ) × (valid time_of v t started now ≡ true)
  StatusFits t _ = Unit

  abbrev pub ControlsFit : List Control → Type 0
  ControlsFit cs = All (λ (c : Control). StatusFits c.target c.status) cs

  abbrev pub Shows : Page → Type 0
  Shows p = ControlsFit p.controls

  ControlsFit-map :
      (f : Control → Control) (cs : List Control)
      → ((c : Control) → StatusFits c.target c.status → StatusFits (f c).target (f c).status)
      → ControlsFit cs
      → ControlsFit (map f cs)
  ControlsFit-map f [] k h = tt
  ControlsFit-map f (c ∷ cs) k (h, hs) = (k c h, ControlsFit-map f cs k hs)

  ControlsFit-set_status :
      (i : ℕ) (s : Status) (cs : List Control)
      → ((c : Control) → get_elem? cs i ≡ some c → StatusFits c.target s)
      → ControlsFit cs
      → ControlsFit (set_status i s cs)
  ControlsFit-set_status i s [] k h = tt
  ControlsFit-set_status zero s (c ∷ cs) k (h, hs) = (k c refl, hs)
  ControlsFit-set_status (suc i) s (c ∷ cs) k (h, hs) =
      (h, ControlsFit-set_status i s cs (λ x e. k x e) hs)

  StatusFits-idle_status : (t : Target) (available : Bool) → StatusFits t (idle_status available)
  StatusFits-idle_status t true = tt
  StatusFits-idle_status t false = tt

  ControlsFit-mounted :
      (disabled available : Bool) (articles : ℕ) (ts : List Target)
      → ControlsFit (mounted disabled available articles ts)
  ControlsFit-mounted disabled available articles [] = tt
  ControlsFit-mounted disabled available zero (t ∷ ts) = tt
  ControlsFit-mounted disabled available (suc articles) (t ∷ ts) =
      let rest = ControlsFit-mounted disabled available articles ts in
      if_any ControlsFit (eligible t)
        (record { target = t; disabled = disabled; status = idle_status available }
          ∷ mounted disabled available articles ts)
        (mounted disabled available articles ts) (StatusFits-idle_status t available, rest) rest

  invalidate-Shows : (p : Page) → Shows p → Shows (invalidate p)
  invalidate-Shows p h =
      ControlsFit-map (λ (x : Control). record x { status = initial }) p.controls (λ c f. tt) h

  press-Shows :
      (i now : ℕ) (o : Option Control) (p : Page) → Shows p → Shows (press_control i now o p).1
  unfolding press_control
  press-Shows i now none p h = h
  press-Shows i now (some c) p h =
      let cleared = invalidate-Shows p h in
      ask_any (ticket i now c (invalidate p)) p (checking_page i (invalidate p)) (invalidate p)
        Shows c.disabled (not p.pending) h
        (ControlsFit-set_status i checking _ (λ x e. tt)
          (ControlsFit-map (λ (x : Control). record x { disabled = true }) _ (λ x f. f)
            (invalidate-Shows (invalidate p) cleared)))
        cleared

  handle-Shows : (e : Event) (p : Page) → Shows p → Shows (handle e p).1
  unfolding handle mount set_available
  handle-Shows (render articles targets) p h =
      ControlsFit-mounted (p.pending || not p.available) p.available articles targets
  handle-Shows (press_check i now) p h = press-Shows i now (get_elem? p.controls i) p h
  handle-Shows (make_available value) p h =
      ControlsFit-map
        (λ (c : Control). record c {
          disabled = p.pending || not value;
          status = idle_status value;
        })
        p.controls (λ c f. StatusFits-idle_status c.target value) h
  handle-Shows click_button p h = invalidate-Shows p h
  handle-Shows submit_form p h = invalidate-Shows p h
  handle-Shows hide_page p h = invalidate-Shows p h
  handle-Shows expire p h = invalidate-Shows p h

  release-Shows : (p : Page) → Shows p → Shows (release p)
  unfolding release
  release-Shows p h =
      ControlsFit-map (λ (x : Control). record x { disabled = not p.available }) p.controls
        (λ x f. f) h

  abbrev Stale : Page → Page → Type 0
  Stale p p' =
      (p'.generation ≡ p.generation)
      × (true ≡ true)
      × ((t : Ticket) → IsFor p t → IsFor p' t)
      × (Shows p → Shows p')

  release-Stale : (p : Page) → Stale p (release p)
  unfolding release
  release-Stale p = (
    refl,
    refl,
    λ t f.
        IsTarget-map (λ (x : Control). record x { disabled = not p.available }) p.controls t.index
          t.target (λ x. refl) f,
    release-Shows p,
  )

  end_check-Stale :
      (t : Ticket) (o : Outcome) (p : Page)
      → t.call_generation < p.generation
      → Stale p (end_check time_of t o p)
  unfolding end_check
  end_check-Stale t o p h =
      let differ = lt→neq t.call_generation p.generation h in rw differ (release-Stale p)

  StatusFits-status_of : (t : Ticket) (o : Outcome) → StatusFits t.target (status_of time_of t o)
  StatusFits-status_of t thrown = tt
  StatusFits-status_of t (finished v now) =
      elim (Bool-cases (valid time_of v t.target t.started now)) [
        | inl e ↦ rw e (t.started, now, e)
        | inr e ↦ rw e tt
      ]

  abbrev Left : Page → Page → Type 0
  Left p p' = (p.generation ≤ p'.generation) × Shows p'

  end_check_current :
      (t : Ticket) (o : Outcome) (p : Page) → IsFor p t → Shows p → Left p (end_check time_of t o p)
  unfolding end_check release
  end_check_current t o p (c, e, q) h =
      let fits : (x : Control)
          → get_elem? p.controls t.index ≡ some x
          → StatusFits x.target (status_of time_of t o) =
        λ x f.
          subst (λ y. StatusFits y (status_of time_of t o))
            (sym (ap (λ (y : Control). y.target) (some_injective x c (sym f ∙ e)) ∙ q))
            (StatusFits-status_of t o) in
      if_any (λ (x : Page). Left p (release x)) (t.call_generation == p.generation)
        (record p { controls = set_status t.index (status_of time_of t o) p.controls }) p
        (
          omega arith,
          release-Shows
              (record p { controls = set_status t.index (status_of time_of t o) p.controls })
              (ControlsFit-set_status t.index (status_of time_of t o) p.controls fits h),
        )
        (omega arith, release-Shows p h)

  -- The page as a machine; a check that waits does not keep the others from being sent.
  abbrev pub checks : Machine Page Event Ticket Outcome
  checks = record {
    revision = λ p. p.generation;
    busy = λ p. true;
    stamp = λ t. t.call_generation;
    IsFor = IsFor;
    Fits = Shows;
    handle = handle;
    reply = end_check time_of;
  }

  checks-IsSafe : IsSafe checks
  checks-IsSafe = record {
    calm = calm;
    asked = asked;
    handle-Fits = handle-Shows;
    stale = end_check-Stale;
    current = λ t o p e f h. end_check_current t o p f h;
  }

  -- In every run of the page, however the targets are rendered anew, clicks come and checks end, a
  -- confirmation beside a button is one of a valid result for its target.
  pub shown_checks_fit :
      (p : Page) (ts : List Ticket) → Reachable checks p ts → ControlsFit p.controls
  shown_checks_fit p ts r = Reachable-Fits checks checks-IsSafe p ts r
