-- ===== src/Session/Laws.antt =====
-- What every dialog that fills the interface guarantees.
use sql_server_lab.Prelude.{
  ◌||◌, ◌&&◌, ◌==◌, lt→neq, ==_iff, if◌then◌else◌, ℕ, zero, suc, get_elem?, Bool, true, false, List,
  [], ◌∷◌, Option, none, some, ◌≡◌, refl, sym, ap, subst, ◌⊎◌, inl, inr, ◌≤◌, ◌<◌, arith, All,
  All-weaken, All-get_elem?, ◌∙◌, some_injective,
}
use sql_server_lab.Session.{
  Machine, IsSafe, without, Reachable, initially, quietly, asking, receiving,
}

-- The shape in which a handler asks: it stops, or sends a request, or does something else.
module _ {State Ticket : Type 0} (t : Ticket) (same sent other : State) where
  abbrev pub ask : Bool → Bool → Option Ticket × State
  ask stop go = if stop then (none, same) else if go then (some t, sent) else (none, other)

  pub ask_calm :
      (P : State → Type 0) (stop go : Bool)
      → P same
      → P other
      → (ask stop go).0 ≡ none
      → P (ask stop go).1
  ask_calm P true go p q h = p
  ask_calm P false true p q h = cc
  ask_calm P false false p q h = q

  pub ask_sent :
      (P : Ticket → State → Type 0) (stop go : Bool) (u : Ticket)
      → (stop ≡ false → go ≡ true → P t sent)
      → (ask stop go).0 ≡ some u
      → P u (ask stop go).1
  ask_sent P true go u p h = cc
  ask_sent P false true u p h =
      subst (λ (x : Ticket). P x sent) (some_injective t u h) (p refl refl)
  ask_sent P false false u p h = cc

  pub ask_any :
      (P : State → Type 0) (stop go : Bool) → P same → P sent → P other → P (ask stop go).1
  ask_any P true go p q r = p
  ask_any P false true p q r = q
  ask_any P false false p q r = r

-- The shape in which an answer is taken: `next` is looked at if the request is current and the
-- dialog open, and a request that is still current then frees the dialog.
module _ {State : Type 0} (revision : State → ℕ) (free : State → State) (n : ℕ) where
  abbrev pub finish : State → State
  finish s = if n == revision s then free s else s

  abbrev pub looked : Bool → State → State → State
  looked is_open next s = finish (if n == revision s && is_open then next else s)

  pub looked_stale : (is_open : Bool) (next s : State) → n < revision s → looked is_open next s ≡ s
  looked_stale is_open next s h =
      let differ = lt→neq n (revision s) h in
      let ignored : (if n == revision s && is_open then next else s) ≡ s = rw differ refl in
      ap finish ignored ∙ rw differ refl

  -- The answer to the current request of an open dialog is looked at, and frees it.
  pub looked_now :
      (next s : State) → n ≡ revision s → n ≡ revision next → looked true next s ≡ free next
  looked_now next s e f =
      let here = (==_iff n (revision s)).1 e in
      let there = (==_iff n (revision next)).1 f in
      let taken : (if n == revision s && true then next else s) ≡ next = rw here refl in
      ap finish taken ∙ rw there refl

  pub looked_keeps :
      (P : State → Type 0) (is_open : Bool) (next s : State)
      → ((x : State) → P x → P (free x))
      → P next
      → P s
      → P (looked is_open next s)
  looked_keeps P is_open next s f p q = freed _ (chosen (n == revision s && is_open))
    where
      chosen : (c : Bool) → P (if c then next else s)
      chosen true = p
      chosen false = q

      freed : (x : State) → P x → P (finish x)
      freed x h = either (n == revision x)
        where
          either : (c : Bool) → P (if c then free x else x)
          either true = f x h
          either false = h

-- A disjunction that fails.
pub neither : (a b : Bool) → (a || b) ≡ false → (a ≡ false) × (b ≡ false)
neither a b h = ground (arith, h)

All-without : {A : Type 0} (P : A → Type 0) (xs : List A) (i : ℕ) → All P xs → All P (without i xs)
All-without P [] i h = h
All-without P (x ∷ xs) zero (p, h) = h
All-without P (x ∷ xs) (suc i) (p, h) = (p, All-without P xs i h)

module _ {State Event Ticket Reply : Type 0} (m : Machine State Event Ticket Reply) where
  -- An answer that changes nothing at all.
  pub unchanged :
      (s s' : State)
      → s' ≡ s
      → (m.revision s' ≡ m.revision s)
        × (m.busy s' ≡ m.busy s)
        × ((u : Ticket) → m.IsFor s u → m.IsFor s' u)
        × (m.Fits s → m.Fits s')
  unchanged s s' e = (
    ap m.revision e,
    ap m.busy e,
    λ u f. subst (λ (x : State). m.IsFor x u) (sym e) f,
    λ f. subst m.Fits (sym e) f,
  )

module _ {State Event Ticket Reply : Type 0} (m : Machine State Event Ticket Reply) where
  abbrev IsOld : State → Ticket → Type 0
  IsOld s t = m.stamp t < m.revision s

  -- Of the requests that wait at most one is not old; the dialog is busy with it.
  abbrev Waits : State → List Ticket → Type 0
  Waits s [] = Unit
  Waits s (t ∷ ts) =
      (IsOld s t × Waits s ts)
      ⊎ ((m.stamp t ≡ m.revision s) × (m.busy s ≡ true) × m.IsFor s t × All (IsOld s) ts)

  all_old : (s : State) (ts : List Ticket) → All (IsOld s) ts → Waits s ts
  all_old s [] h = tt
  all_old s (t ∷ ts) (p, h) = inl (p, all_old s ts h)

  older :
      (s s' : State) (ts : List Ticket)
      → m.revision s ≤ m.revision s'
      → All (IsOld s) ts
      → All (IsOld s') ts
  older s s' ts h = All-weaken ts (λ t p. omega (arith, h, p))

  -- After the revision has moved every request is old.
  moved :
      (s s' : State) (ts : List Ticket)
      → m.revision s < m.revision s'
      → Waits s ts
      → All (IsOld s') ts
  moved s s' [] h w = tt
  moved s s' (t ∷ ts) h (inl (p, w)) = (omega (arith, h, p), moved s s' ts h w)
  moved s s' (t ∷ ts) h (inr (p, b, f, o)) =
      (omega (arith, h, p), older s s' ts (omega (arith, h)) o)

  idle : (s : State) (ts : List Ticket) → m.busy s ≡ false → Waits s ts → All (IsOld s) ts
  idle s [] h w = tt
  idle s (t ∷ ts) h (inl (p, w)) = (p, idle s ts h w)
  idle s (t ∷ ts) h (inr (p, b, f, o)) = absurd (true_false (sym b ∙ h))
    where
      true_false : true ≡ false → ⊥
      true_false e = cc

  kept :
      (s s' : State) (ts : List Ticket)
      → m.revision s' ≡ m.revision s
      → m.busy s' ≡ m.busy s
      → ((t : Ticket) → m.IsFor s t → m.IsFor s' t)
      → Waits s ts
      → Waits s' ts
  kept s s' [] h k f w = tt
  kept s s' (t ∷ ts) h k f (inl (p, w)) = inl (omega (arith, h, p), kept s s' ts h k f w)
  kept s s' (t ∷ ts) h k f (inr (p, b, g, o)) =
      inr (p ∙ sym h, k ∙ b, f t g, older s s' ts (omega (arith, h)) o)

  -- A request that is answered is old, or it is the one that the dialog waits for.
  answered_cases :
      (s : State) (ts : List Ticket) (i : ℕ) (t : Ticket)
      → Waits s ts
      → get_elem? ts i ≡ some t
      → (IsOld s t × Waits s (without i ts))
        ⊎ ((m.stamp t ≡ m.revision s) × m.IsFor s t × All (IsOld s) (without i ts))
  answered_cases s [] i t w e = cc
  answered_cases s (u ∷ ts) zero t (inl (p, w)) e =
      let same = some_injective u t e in inl (subst (IsOld s) same p, w)
  answered_cases s (u ∷ ts) zero t (inr (p, b, f, o)) e =
      let same = some_injective u t e in
      inr (subst (λ (x : Ticket). m.stamp x ≡ m.revision s) same p, subst (m.IsFor s) same f, o)
  answered_cases s (u ∷ ts) (suc i) t (inl (p, w)) e = elim (answered_cases s ts i t w e) [
    | inl (q, v) ↦ inl (q, inl (p, v))
    | inr (q, f, o) ↦ inr (q, f, (p, o))
  ]
  answered_cases s (u ∷ ts) (suc i) t (inr (p, b, f, o)) e =
      inl (All-get_elem? (IsOld s) ts i t o e, inr (p, b, f, All-without (IsOld s) ts i o))

module _ {State Event Ticket Reply : Type 0} (m : Machine State Event Ticket Reply)
    (safe : IsSafe m) where
  Reachable-Waits : (s : State) (ts : List Ticket) → Reachable m s ts → Waits m s ts × m.Fits s
  Reachable-Waits _ _ (initially s f) = (tt, f)
  Reachable-Waits _ _ (quietly e s ts h r) =
      let before = Reachable-Waits s ts r in
      (
        elim (safe.calm e s h) [
          | inl k ↦ all_old m (m.handle e s).1 ts (moved m s (m.handle e s).1 ts k before.0)
          | inr (k, b, f) ↦ kept m s (m.handle e s).1 ts k b f before.0
        ],
        safe.handle-Fits e s before.1,
      )
  Reachable-Waits _ _ (asking e s t ts h r) =
      let before = Reachable-Waits s ts r in
      let parts = safe.asked e s t h in
      let others : All (IsOld m (m.handle e s).1) ts = elim parts.0 [
        | inl b ↦ older m s (m.handle e s).1 ts parts.1 (idle m s ts b before.0)
        | inr k ↦ moved m s (m.handle e s).1 ts k before.0
      ] in
      (inr (parts.2, parts.3, parts.4, others), safe.handle-Fits e s before.1)
  Reachable-Waits _ _ (receiving i t a s ts e r) =
      let before = Reachable-Waits s ts r in
      elim (answered_cases m s ts i t before.0 e) [
        | inl (q, w) ↦
            let after = safe.stale t a s q in
            (kept m s (m.reply t a s) (without i ts) after.0 after.1 after.2 w, after.3 before.1)
        | inr (q, f, o) ↦
            let after = safe.current t a s q f before.1 in
            (
              all_old m (m.reply t a s) (without i ts)
                  (older m s (m.reply t a s) (without i ts) after.0 o),
              after.1,
            )
      ]

  -- In every run, whatever the order of the answers, what is shown fits.
  pub Reachable-Fits : (s : State) (ts : List Ticket) → Reachable m s ts → m.Fits s
  Reachable-Fits s ts r = (Reachable-Waits s ts r).1

  -- In every run, a request that waits is old, or it was made for what is selected now.
  pub Reachable-IsFor :
      (s : State) (ts : List Ticket) (i : ℕ) (t : Ticket)
      → Reachable m s ts
      → get_elem? ts i ≡ some t
      → (m.stamp t < m.revision s) ⊎ ((m.stamp t ≡ m.revision s) × m.IsFor s t)
  Reachable-IsFor s ts i t r e = elim (answered_cases m s ts i t (Reachable-Waits s ts r).0 e) [
    | inl (q, w) ↦ inl q
    | inr (q, f, o) ↦ inr (q, f)
  ]
