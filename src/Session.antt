-- ===== src/Session.antt =====
-- What the dialogs of Ui/ have in common that number their requests by a revision: the interface
-- that a dialog has to fill, and the runs of a dialog with the requests that wait for an answer.
-- Every request is answered at most once, in any order.
pub mod Laws
use sql_server_lab.Prelude.{
  ℕ, zero, suc, get_elem?, Bool, true, false, List, [], ◌∷◌, Option, none, some, ◌≡◌, ◌⊎◌, ◌≤◌, ◌<◌,
}
use sql_server_lab.Js.{Value}

-- A dialog changes by what the user does (`handle`, with the request that this sends, if any) and
-- by the answers to requests (`reply`). `IsFor` says that a request was made for what is selected
-- now, and `Fits` that what is shown belongs to it.
pub record Machine (State Event Ticket Reply : Type 0) : Type 1 where
  pub revision : State → ℕ
  pub busy : State → Bool
  pub stamp : Ticket → ℕ
  pub IsFor : State → Ticket → Type 0
  pub Fits : State → Type 0
  pub handle : Event → State → Option Ticket × State
  pub reply : Ticket → Reply → State → State

-- What comes back for a request: nothing that can be used (no answer, an error, no JSON), or a value
-- with the size of its JSON text in bytes.
pub data Answer : Type 0 where
  lost : Answer
  arrived : ℕ → Value → Answer

-- The list without its i-th element.
abbrev pub without {ℓ} : {A : Type ℓ} → ℕ → List A → List A
without i [] = []
without zero (x ∷ xs) = xs
without (suc i) (x ∷ xs) = x ∷ without i xs

module _ {State Event Ticket Reply : Type 0} (m : Machine State Event Ticket Reply) where
  -- The laws of such a machine.
  pub record IsSafe : Type 0 where
    -- without a request the revision moves, or no request loses what it was made for
    pub calm :
        (e : Event) (s : State)
        → (m.handle e s).0 ≡ none
        → (m.revision s < m.revision (m.handle e s).1)
          ⊎ ((m.revision (m.handle e s).1 ≡ m.revision s)
              × (m.busy (m.handle e s).1 ≡ m.busy s)
              × ((t : Ticket) → m.IsFor s t → m.IsFor (m.handle e s).1 t))
    -- a request is sent by a dialog that is not busy, or it moves the revision
    pub asked :
        (e : Event) (s : State) (t : Ticket)
        → (m.handle e s).0 ≡ some t
        → ((m.busy s ≡ false) ⊎ (m.revision s < m.revision (m.handle e s).1))
          × (m.revision s ≤ m.revision (m.handle e s).1)
          × (m.stamp t ≡ m.revision (m.handle e s).1)
          × (m.busy (m.handle e s).1 ≡ true)
          × m.IsFor (m.handle e s).1 t
    pub handle-Fits : (e : Event) (s : State) → m.Fits s → m.Fits (m.handle e s).1
    -- the answer to an old request takes nothing from what is shown and from other requests
    pub stale :
        (t : Ticket) (r : Reply) (s : State)
        → m.stamp t < m.revision s
        → (m.revision (m.reply t r s) ≡ m.revision s)
          × (m.busy (m.reply t r s) ≡ m.busy s)
          × ((u : Ticket) → m.IsFor s u → m.IsFor (m.reply t r s) u)
          × (m.Fits s → m.Fits (m.reply t r s))
    pub current :
        (t : Ticket) (r : Reply) (s : State)
        → m.stamp t ≡ m.revision s
        → m.IsFor s t
        → m.Fits s
        → (m.revision s ≤ m.revision (m.reply t r s)) × m.Fits (m.reply t r s)

  -- The states of a dialog, with the requests that wait, after any run from a state that shows
  -- nothing wrong.
  pub data Reachable : State → List Ticket → Type 0 where
    initially : (s : State) → m.Fits s → Reachable s []
    quietly :
        (e : Event) (s : State) (ts : List Ticket)
        → (m.handle e s).0 ≡ none
        → Reachable s ts
        → Reachable (m.handle e s).1 ts
    asking :
        (e : Event) (s : State) (t : Ticket) (ts : List Ticket)
        → (m.handle e s).0 ≡ some t
        → Reachable s ts
        → Reachable (m.handle e s).1 (t ∷ ts)
    receiving :
        (i : ℕ) (t : Ticket) (r : Reply) (s : State) (ts : List Ticket)
        → get_elem? ts i ≡ some t
        → Reachable s ts
        → Reachable (m.reply t r s) (without i ts)
