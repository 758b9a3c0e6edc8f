-- ===== src/Groups/Laws.antt =====
-- What the dialog of environment groups guarantees.
use sql_server_lab.Prelude.{
  ℕ, suc, String, Bool, true, false, not, ◌&&◌, List, [], ◌∷◌, map, Option, none, some, ◌≡◌, refl,
  ◌∙◌, ◌⊎◌, inl, inr, Bool-cases, arith, is_nil, any, str_eq, ◌||◌,
}
use sql_server_lab.Js.{Value, get, array_of}
use sql_server_lab.Groups.{valid_view}
use sql_server_lab.Groups.Cards.{
  Command, Row, command, in_progress, is_stopped, member_row, group_commands, card, render,
}
use sql_server_lab.Groups.Dialog.{
  Dialog, begin_read, is_current, settle, end_read, close, Event, open_dialog, close_dialog,
  send_command, bad_input, start_read, answer, started, handle, run,
}

-- What is listed comes whole from a view that meets the contract.
abbrev pub IsTrusted : Dialog → Type 0
IsTrusted d = (d.list ≡ []) ⊎ ((view : Value) × (valid_view view ≡ true) × (d.list ≡ render view))

settle-IsTrusted : (reply : Option Value) (d : Dialog) → IsTrusted (settle reply d)
unfolding settle
settle-IsTrusted none d = inl refl
settle-IsTrusted (some view) d = elim (Bool-cases (valid_view view)) [
  | inl e ↦ inr (view, e, rw e refl)
  | inr e ↦ inl (rw e refl)
]

end_read-IsTrusted :
    (generation : ℕ) (reply : Option Value) (d : Dialog)
    → IsTrusted d
    → IsTrusted (end_read generation reply d)
unfolding end_read
end_read-IsTrusted generation reply d t = elim (Bool-cases (is_current generation d)) [
  | inl e ↦ rw e (settle-IsTrusted reply d)
  | inr e ↦ rw e t
]

begin_read-IsTrusted : (d : Dialog) → IsTrusted d → IsTrusted (started d (begin_read d))
unfolding begin_read
begin_read-IsTrusted d t = elim (Bool-cases d.active_request) [ inl e ↦ rw e t | inr e ↦ rw e t ]

close-list : (d : Dialog) → (close d).list ≡ d.list
unfolding close
close-list d = ground arith

handle-IsTrusted : (e : Event) (d : Dialog) → IsTrusted d → IsTrusted (handle e d)
unfolding handle
handle-IsTrusted open_dialog d t = t
handle-IsTrusted close_dialog d t = rw (close-list d) t
handle-IsTrusted send_command d t = rw (close-list (record d { generation = suc d.generation })) t
handle-IsTrusted bad_input d t = t
handle-IsTrusted start_read d t = begin_read-IsTrusted d t
handle-IsTrusted (answer generation reply) d t = end_read-IsTrusted generation reply d t

-- Whatever happens at a dialog that lists nothing untrusted, it lists no group but those of one
-- view that meets the contract.
pub run-IsTrusted : (es : List Event) (d : Dialog) → IsTrusted d → IsTrusted (run es d)
unfolding run
run-IsTrusted [] d t = t
run-IsTrusted (e ∷ es) d t = run-IsTrusted es (handle e d) (handle-IsTrusted e d t)

-- Whether a list of commands has an enabled one for an action.
abbrev pub offers : String → List Command → Bool
offers action = any (λ (c : Command). str_eq c.action action && not c.disabled)

-- Whether some row of a card has one.
abbrev pub offers_in_rows : String → List Row → Bool
offers_in_rows action = any (λ (r : Row). offers action r.commands)

start_stop :
    (group : Value)
    → (offers "Start" (card group).commands ≡ (
        not (in_progress group)
        && is_stopped group
        && not (is_nil (array_of (get group "members")))))
      × (offers "Stop" (card group).commands ≡ (not (in_progress group) && not (is_stopped group)))
unfolding card group_commands command
start_stop group = elim (Bool-cases (in_progress group)) [
  | inl h ↦ rw h (refl, refl)
  | inr h ↦ elim (Bool-cases (is_stopped group)) [
    | inl k ↦ rw (h, k) (enabled (is_nil (array_of (get group "members"))), refl)
    | inr k ↦ rw (h, k) (refl, refl)
  ]
]
  where
    enabled : (b : Bool) → (not b || false) ≡ not b
    enabled b = ground arith

removable :
    (group : Value) (ms : List Value)
    → offers_in_rows "RemoveMember" (map (member_row group) ms)
      ≡ (is_stopped group && not (in_progress group) && not (is_nil ms))
unfolding member_row command
removable group [] = ground arith
removable group (v ∷ ms) = elim (Bool-cases (is_stopped group && not (in_progress group))) [
  | inl h ↦ rw h refl
  | inr h ↦ rw h (removable group ms ∙ rw h refl)
]

-- A card offers to start its group exactly if no operation is in progress, the group is stopped and
-- has members; to stop it exactly if no operation is in progress and the group is not stopped; to
-- remove a member exactly if no operation is in progress and the group is stopped and has members;
-- and to add one exactly if no operation is in progress and the group is stopped.
pub card-offers :
    (group : Value)
    → (offers "Start" (card group).commands ≡ (
        not (in_progress group)
        && is_stopped group
        && not (is_nil (array_of (get group "members")))))
      × (offers "Stop" (card group).commands ≡ (not (in_progress group) && not (is_stopped group)))
      × (offers_in_rows "RemoveMember" (card group).members ≡ (
          is_stopped group
          && not (in_progress group)
          && not (is_nil (array_of (get group "members")))))
      × ((card group).membership_editor ≡ (not (in_progress group) && is_stopped group))
unfolding card
card-offers group =
    let both = start_stop group in
    (both.0, both.1, removable group (array_of (get group "members")), refl)
