-- ===== src/Builds/Laws.antt =====
-- What the buttons of an image build guarantee.
use sql_server_lab.Prelude.{
  [], str_eq, keep, ◌≡◌, refl, sym, ap, ◌∙◌, inl, inr, Bool-cases, eq_iff, arith, ◌↔◌,
}
use sql_server_lab.Builds.{
  Kind, windows, sql, other, Build, Button, sealed_state, cleanup_action_for, windows_actions,
  sql_actions, actions_for,
}

abbrev pub IsKnown : Kind → Type 0
IsKnown other = ⊥
IsKnown _ = Unit

cleanup_only :
    (kind : Kind) (item : Build)
    → keep (λ (b : Button). b.cleanup) (cleanup_action_for kind item) ≡ cleanup_action_for kind item
unfolding cleanup_action_for
cleanup_only kind item = elim (Bool-cases (str_eq item.state "CLEANED_UP")) [
  | inl e ↦ rw e refl
  | inr e ↦ rw e (elim (Bool-cases (str_eq item.state (sealed_state kind))) [
    | inl f ↦ rw f refl
    | inr f ↦ rw f refl
  ])
]

windows_cleanup :
    (item : Build)
    → keep (λ (b : Button). b.cleanup) (windows_actions item) ≡ cleanup_action_for windows item
unfolding windows_actions
windows_cleanup item = ground (arith, cleanup_only windows item)

sql_cleanup :
    (item : Build)
    → keep (λ (b : Button). b.cleanup) (sql_actions item) ≡ cleanup_action_for sql item
unfolding sql_actions
sql_cleanup item = ground (arith, cleanup_only sql item)

-- For a known kind, the cleaning buttons among the offered ones are exactly those of
-- `cleanup_action_for`, in every state.
pub actions_for_cleanup :
    (kind : Kind) (item : Build)
    → IsKnown kind
    → keep (λ (b : Button). b.cleanup) (actions_for kind item) ≡ cleanup_action_for kind item
unfolding actions_for
actions_for_cleanup windows item k = windows_cleanup item
actions_for_cleanup sql item k = sql_cleanup item
actions_for_cleanup other item k = absurd k

no_cleanup_iff :
    (kind : Kind) (item : Build) → (cleanup_action_for kind item ≡ []) ↔ (item.state ≡ "CLEANED_UP")
unfolding cleanup_action_for
no_cleanup_iff kind item = ground (arith, eq_iff item.state "CLEANED_UP")

windows_none : (item : Build) → item.state ≡ "CLEANED_UP" → windows_actions item ≡ []
unfolding windows_actions cleanup_action_for
windows_none item e = rw e refl

sql_none : (item : Build) → item.state ≡ "CLEANED_UP" → sql_actions item ≡ []
unfolding sql_actions cleanup_action_for
sql_none item e = rw e refl

-- For a known kind the page offers no action exactly for a build that was cleaned up.
pub actions_for-eq-nil_iff :
    (kind : Kind) (item : Build)
    → IsKnown kind
    → (actions_for kind item ≡ []) ↔ (item.state ≡ "CLEANED_UP")
unfolding actions_for
actions_for-eq-nil_iff windows item k = (
  λ e.
      (no_cleanup_iff windows item).0
        (sym (windows_cleanup item) ∙ ap (keep (λ (b : Button). b.cleanup)) e),
  windows_none item,
)
actions_for-eq-nil_iff sql item k = (
  λ e.
      (no_cleanup_iff sql item).0
        (sym (sql_cleanup item) ∙ ap (keep (λ (b : Button). b.cleanup)) e),
  sql_none item,
)
actions_for-eq-nil_iff other item k = absurd k
