-- ===== src/Jobs/Command/Laws.antt =====
-- What a command submission guarantees (Ui/app.js, submitUiCommandBody).
use sql_server_lab.Prelude.{
  ℕ, String, true, List, [], ◌∷◌, ◌≡◌, refl, inl, inr, arith, includes, Bool-cases, and_parts, ◌&&◌,
}
use sql_server_lab.Js.{Value, str, get, is_object, matches, codes, text_of, is_str}
use sql_server_lab.Js.Laws.{eq_of_is_str}
use sql_server_lab.Js.Patterns.{hex}
use sql_server_lab.Jobs.Command.{
  Arrival, Reply, ok, error, Call, ask_grant, send_command, cancel_grant, Outcome, accepted,
  refused, read_ui_job_response, is_grant, has_receipt, is_acceptance, public_message,
  public_messages, judge, send_with, give_up, after_grant, submit_ui_command_body,
}

-- The ways in which a submission may use the network.
pub data Flow (body : String) : List Call → Type 0 where
  only_asked : Flow body (ask_grant body ∷ [])
  asked_and_cancelled :
      (receipt : String)
      → hex 32 (codes receipt) ≡ true
      → Flow body (ask_grant body ∷ cancel_grant receipt ∷ [])
  asked_and_sent :
      (grant : String)
      → hex 64 (codes grant) ≡ true
      → Flow body (ask_grant body ∷ send_command grant body ∷ [])

hex_of_matches : (n : ℕ) (v : Value) → matches (hex n) v ≡ true → hex n (codes (text_of v)) ≡ true
hex_of_matches n (str s) h = h
hex_of_matches n _ h = cc

grant_parts :
    (g : Value)
    → is_grant g ≡ true
    → (hex 64 (codes (text_of (get g "grant"))) ≡ true)
      × (hex 32 (codes (text_of (get g "receiptId"))) ≡ true)
unfolding is_grant
grant_parts g h =
    let front = and_parts (is_object g && matches (hex 64) (get g "grant")) _ h in
    (
      hex_of_matches 64 (get g "grant") (and_parts (is_object g) _ front.0).1,
      hex_of_matches 32 (get g "receiptId") front.1,
    )

receipt_part :
    (g : Value) → has_receipt g ≡ true → hex 32 (codes (text_of (get g "receiptId"))) ≡ true
unfolding has_receipt
receipt_part g h = hex_of_matches 32 (get g "receiptId") (and_parts (is_object g) _ h).1

give_up-Flow : (g : Value) (body : String) → Flow body (give_up g body).calls
unfolding give_up
give_up-Flow g body = elim (Bool-cases (has_receipt g)) [
  | inl h ↦ rw h (asked_and_cancelled _ (receipt_part g h))
  | inr h ↦ rw h only_asked
]

after_grant-Flow :
    (net : Call → Arrival) (body : String) (r : Reply) → Flow body (after_grant net body r).calls
unfolding after_grant send_with
after_grant-Flow net body (error m) = only_asked
after_grant-Flow net body (ok g) = elim (Bool-cases (is_grant g)) [
  | inl h ↦ rw h (asked_and_sent _ (grant_parts g h).0)
  | inr h ↦ rw h (give_up-Flow g body)
]

-- However the network behaves, a submission asks for a grant and then does one of three things:
-- nothing more, or cancels a grant by a receipt of 32 hexadecimal digits, or sends the command with
-- a grant of 64, with the body that the grant was asked for. So it never sends a command twice, and
-- never cancels a grant whose command it has sent.
pub submit-Flow :
    (net : Call → Arrival) (body : String) → Flow body (submit_ui_command_body net body).calls
unfolding submit_ui_command_body
submit-Flow net body = after_grant-Flow net body _

-- The record of an accepted submission.
pub record IsConfirmed (net : Call → Arrival) (body : String) (v : Value) : Type 0 where
  pub grant : Value
  pub granted : read_ui_job_response "/api/command-grants" (net (ask_grant body)) ≡ ok grant
  pub well_formed : is_grant grant ≡ true
  pub answered :
      read_ui_job_response "/api/commands" (net (send_command (text_of (get grant "grant")) body))
      ≡ ok v
  pub same_receipt : get v "receiptId" ≡ str (text_of (get grant "receiptId"))

receipt_of_acceptance :
    (g v : Value) → is_acceptance g v ≡ true → get v "receiptId" ≡ str (text_of (get g "receiptId"))
unfolding is_acceptance
receipt_of_acceptance g v h =
    eq_of_is_str (get v "receiptId") _
      (and_parts _ (is_str (get v "receiptId") (text_of (get g "receiptId"))) h).1

judge-accepted :
    (g v : Value) (r : Reply) → judge g r ≡ accepted v → (r ≡ ok v) × (is_acceptance g v ≡ true)
unfolding judge
judge-accepted g v (ok w) h = ground arith
judge-accepted g v (error m) h = cc

after_grant-accepted :
    (net : Call → Arrival) (body : String) (v : Value) (r : Reply)
    → read_ui_job_response "/api/command-grants" (net (ask_grant body)) ≡ r
    → (after_grant net body r).outcome ≡ accepted v
    → IsConfirmed net body v
unfolding after_grant send_with give_up
after_grant-accepted net body v (error m) e h = cc
after_grant-accepted net body v (ok g) e h = elim (Bool-cases (is_grant g)) [
  | inl w ↦
      let j =
        judge-accepted g v
          (read_ui_job_response "/api/commands" (net (send_command (text_of (get g "grant")) body)))
          (rw w at h) in
      record {
        grant = g;
        granted = e;
        well_formed = w;
        answered = j.0;
        same_receipt = receipt_of_acceptance g v j.1;
      }
  | inr w ↦ absurd (ground arith)
]

-- A submission is accepted only on the strength of both replies: a well-formed grant, and a reply
-- to the command sent with that grant whose receipt is the grant's.
pub accepted-IsConfirmed :
    (net : Call → Arrival) (body : String) (v : Value)
    → (submit_ui_command_body net body).outcome ≡ accepted v
    → IsConfirmed net body v
unfolding submit_ui_command_body
accepted-IsConfirmed net body v h = after_grant-accepted net body v _ refl h

public_message-includes : (m : String) → includes public_messages (public_message m) ≡ true
unfolding public_message
public_message-includes m = elim (Bool-cases (includes public_messages m)) [
  | inl h ↦ rw h h
  | inr h ↦ rw h refl
]

-- A refusal carries one of the four messages that the page passes on.
abbrev pub IsPublic : Outcome → Type 0
IsPublic (accepted v) = Unit
IsPublic (refused m receipt) = includes public_messages m ≡ true

judge-IsPublic : (g : Value) (r : Reply) → IsPublic (judge g r)
unfolding judge
judge-IsPublic g (ok v) = elim (Bool-cases (is_acceptance g v)) [
  | inl h ↦ rw h tt
  | inr h ↦ rw h refl
]
judge-IsPublic g (error m) = public_message-includes m

after_grant-IsPublic :
    (net : Call → Arrival) (body : String) (r : Reply) → IsPublic (after_grant net body r).outcome
unfolding after_grant send_with give_up
after_grant-IsPublic net body (error m) = public_message-includes m
after_grant-IsPublic net body (ok g) = elim (Bool-cases (is_grant g)) [
  | inl h ↦ rw h (judge-IsPublic g _)
  | inr h ↦ rw h (elim (Bool-cases (has_receipt g)) [ inl k ↦ rw k refl | inr k ↦ rw k refl ])
]

-- However the network behaves, a refused submission carries one of the four messages that the page
-- passes on, never the text of an error from the network.
pub submit-IsPublic :
    (net : Call → Arrival) (body : String) → IsPublic (submit_ui_command_body net body).outcome
unfolding submit_ui_command_body
submit-IsPublic net body = after_grant-IsPublic net body _
