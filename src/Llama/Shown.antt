-- ===== src/Llama/Shown.antt =====
-- Which session the dialog that starts one shows.
use sql_server_lab.Prelude.{
  ℕ, String, Bool, true, false, ◌&&◌, List, [], ◌∷◌, Option, none, some, ◌≡◌, refl, sym, ◌∙◌, ap,
  subst, ◌⊎◌, inl, inr, if◌then◌else◌, arith, Any, some_injective, and_parts,
}
use sql_server_lab.Js.{Value, get, text_of, is_true, matches}
use sql_server_lab.Js.Patterns.{guid}
use sql_server_lab.Llama.Start.{
  Action, what_if, start, is_start, is_verified, valid_result, result_head, Dialog, clear_inputs,
  invalidate, Request, Ticket, waiting_dialog, Reply, failed, answered, is_current, take_reply,
  release, end_request, Event, open_dialog, close_dialog, edit, press, answer, begin_request, begun,
  handle, run,
}
use sql_server_lab.Llama.Safety.{begin_parts}

-- The session that an event reports: the answer to a start, verified and valid, with that id.
abbrev pub Reports : String → Event → Type 0
Reports id (answer ticket (answered view)) =
    (ticket.action ≡ start)
    × (valid_result view start ≡ true)
    × (is_verified view ≡ true)
    × (text_of (get view "OperationId") ≡ id)
Reports id _ = ⊥

release-result : (ticket : Ticket) (d : Dialog) → (release ticket d).result ≡ d.result
unfolding release clear_inputs
release-result ticket d = ground arith

-- An answer that is verified belongs to a start.
verified-start :
    (view : Value) (action : Action)
    → valid_result view action ≡ true
    → is_verified view ≡ true
    → action ≡ start
unfolding valid_result is_start
verified-start view start h k = refl
verified-start view what_if h k = absurd (
    impossible (is_verified view) (is_true (get view "PossibleOwnSession"))
      (matches guid (get view "OperationId")) _ (and_parts (result_head view) _ h).1 k)
  where
    impossible : (v a b c : Bool) → (if v then false && a && b else c) ≡ true → v ≡ true → ⊥
    impossible v a b c h k = ground (arith, h, k)

take_reply-result :
    (ticket : Ticket) (reply : Reply) (d : Dialog) (id : String)
    → (take_reply ticket reply d).result ≡ some id
    → (d.result ≡ some id) ⊎ Reports id (answer ticket reply)
unfolding take_reply
take_reply-result ticket failed d id h = inl h
take_reply-result ticket (answered view) d id h = reported (
    shown (valid_result view ticket.action) (is_verified view) (text_of (get view "OperationId")) h)
  where
    shown :
        (v w : Bool) (t : String)
        → (if v then record d { result = if w then some t else none } else d).result ≡ some id
        → (d.result ≡ some id) ⊎ ((v ≡ true) × (w ≡ true) × (t ≡ id))
    shown true true t h = inr (refl, refl, some_injective t id h)
    shown true false t h = cc
    shown false w t h = inl h

    reported :
        (d.result ≡ some id)
          ⊎ ((valid_result view ticket.action ≡ true)
              × (is_verified view ≡ true)
              × (text_of (get view "OperationId") ≡ id))
        → (d.result ≡ some id) ⊎ Reports id (answer ticket (answered view))
    reported (inl h) = inl h
    reported (inr (v, w, t)) =
        let action = verified-start view ticket.action v w in
        inr (action, subst (λ (a : Action). valid_result view a ≡ true) action v, w, t)

end_request-result :
    (ticket : Ticket) (reply : Reply) (d : Dialog) (id : String)
    → (end_request ticket reply d).result ≡ some id
    → (d.result ≡ some id) ⊎ Reports id (answer ticket reply)
unfolding end_request
end_request-result ticket reply d id h =
    seen (is_current ticket d) (
      sym (release-result ticket (if is_current ticket d then take_reply ticket reply d else d))
      ∙ h)
  where
    seen :
        (c : Bool)
        → (if c then take_reply ticket reply d else d).result ≡ some id
        → (d.result ≡ some id) ⊎ Reports id (answer ticket reply)
    seen true h = take_reply-result ticket reply d id h
    seen false h = inl h

none_is_not_some : {o : Option String} (id : String) → o ≡ none → o ≡ some id → ⊥
none_is_not_some id h k = cc

module _ (size_of : Request → ℕ × ℕ) where
  begin_request-result :
      (action : Action) (d : Dialog) (ticket : Ticket) (request : Request) (d' : Dialog)
      → begin_request size_of action d ≡ some (ticket, request, d')
      → d'.result ≡ none
  unfolding waiting_dialog clear_inputs
  begin_request-result action d ticket request d' h =
      sym (ap (λ (x : Dialog). x.result) (begin_parts size_of action d ticket request d' h).2)

  handle-result :
      (e : Event) (d : Dialog) (id : String)
      → (handle size_of e d).result ≡ some id
      → (d.result ≡ some id) ⊎ Reports id e
  unfolding handle invalidate clear_inputs
  handle-result open_dialog d id h = cc
  handle-result close_dialog d id h = cc
  handle-result (edit form c) d id h = cc
  handle-result (press action) d id h = inl (pressed (begin_request size_of action d) refl h)
    where
      pressed :
          (o : Option (Ticket × Request × Dialog))
          → begin_request size_of action d ≡ o
          → (begun size_of d o).result ≡ some id
          → d.result ≡ some id
      pressed none e k = k
      pressed (some (t, q, d')) e k =
          absurd (none_is_not_some id (begin_request-result action d t q d' e) k)
  handle-result (answer ticket reply) d id h = end_request-result ticket reply d id h

  -- A session that the dialog shows, and did not show before some events, was reported by one of
  -- them: the valid answer to a start, whose status is ENDPOINT_VERIFIED.
  pub shown_session :
      (es : List Event) (d : Dialog) (id : String)
      → (run size_of es d).result ≡ some id
      → (d.result ≡ some id) ⊎ Any (Reports id) es
  unfolding run
  shown_session [] d id h = inl h
  shown_session (e ∷ es) d id h = elim (shown_session es (handle size_of e d) id h) [
    | inl k ↦ elim (handle-result e d id k) [ inl j ↦ inl j | inr j ↦ inr (inl j) ]
    | inr k ↦ inr (inr k)
  ]
