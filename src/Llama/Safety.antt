-- ===== src/Llama/Safety.antt =====
-- What the dialog that starts a llama.cpp session guarantees.
use sql_server_lab.Prelude.{
  ℕ, Bool, true, false, not, ◌&&◌, ◌||◌, List, [], ◌∷◌, none, some, ◌≡◌, refl, sym, ◌∙◌, ap, subst,
  arith, All, bind_parts, require_parts, some_injective,
}
use sql_server_lab.Llama.Start.{
  Action, empty_form, read_inputs, is_start, Dialog, clear_inputs, invalidate, Request, Ticket,
  is_refused, waiting_dialog, Reply, failed, answered, take_reply, release, end_request, Event,
  open_dialog, close_dialog, edit, press, answer, fits, body_for, begin_request, handle, run,
}

-- Whether an event opens the dialog anew.
abbrev pub opens : Event → Bool
opens open_dialog = true
opens _ = false

attempted-is_refused :
    (action : Action) (d : Dialog) → d.attempted ≡ true → is_refused action d ≡ true
unfolding is_refused
attempted-is_refused action d h =
    blocked d.busy d.attempted (not d.is_open) (is_start action && not d.confirmed) h
  where
    blocked : (b a o s : Bool) → a ≡ true → (b || a || o || s) ≡ true
    blocked b a o s h = ground (arith, h)

module _ (size_of : Request → ℕ × ℕ) where
  attempted_refuses :
      (action : Action) (d : Dialog) → d.attempted ≡ true → begin_request size_of action d ≡ none
  unfolding begin_request
  attempted_refuses action d h = rw (attempted-is_refused action d h) refl

  end_request-attempted :
      (ticket : Ticket) (reply : Reply) (d : Dialog)
      → (end_request ticket reply d).attempted ≡ d.attempted
  unfolding end_request release take_reply clear_inputs
  end_request-attempted ticket failed d = ground arith
  end_request-attempted ticket (answered view) d = ground arith

  handle-attempted :
      (e : Event) (d : Dialog)
      → opens e ≡ false
      → d.attempted ≡ true
      → (handle size_of e d).attempted ≡ true
  unfolding handle invalidate clear_inputs
  handle-attempted open_dialog d h k = cc
  handle-attempted close_dialog d h k = k
  handle-attempted (edit form c) d h k = k
  handle-attempted (press action) d h k = rw (attempted_refuses action d k) k
  handle-attempted (answer ticket reply) d h k = end_request-attempted ticket reply d ∙ k

  run-attempted :
      (es : List Event) (d : Dialog)
      → All (λ (e : Event). opens e ≡ false) es
      → d.attempted ≡ true
      → (run size_of es d).attempted ≡ true
  unfolding run
  run-attempted [] d h k = k
  run-attempted (e ∷ es) d (h, hs) k =
      run-attempted es (handle size_of e d) hs (handle-attempted e d h k)

  pub begin_parts :
      (action : Action) (d : Dialog) (ticket : Ticket) (request : Request) (d' : Dialog)
      → begin_request size_of action d ≡ some (ticket, request, d')
      → (is_refused action d ≡ false)
        × (body_for size_of action d ≡ some request)
        × (waiting_dialog d ≡ d')
  unfolding begin_request
  begin_parts action d ticket request d' h =
      let first = require_parts (not (is_refused action d)) _ (ticket, request, d') h in
      let second = bind_parts (body_for size_of action d) _ (ticket, request, d') first.1 in
      let same = some_injective _ (ticket, request, d') second.2 in
      (
        not_true (is_refused action d) first.0,
        second.1 ∙ ap some (ap sent same),
        ap (λ (x : Ticket × Request × Dialog). x.2) same,
      )
    where
      not_true : (b : Bool) → not b ≡ true → b ≡ false
      not_true b h = ground (arith, h)

      sent : Ticket × Request × Dialog → Request
      sent (t, q, e) = q

  -- After a request of either kind has been sent, nothing is sent by the dialog until it is opened
  -- anew, whatever the user changes and whatever is answered.
  pub sends_once :
      (es : List Event) (action again : Action) (d : Dialog) (ticket : Ticket) (request : Request)
      (d' : Dialog)
      → All (λ (e : Event). opens e ≡ false) es
      → begin_request size_of action d ≡ some (ticket, request, d')
      → begin_request size_of again (run size_of es d') ≡ none
  unfolding waiting_dialog clear_inputs
  sends_once es action again d ticket request d' h k = attempted_refuses again (run size_of es d') (
      run-attempted es d' h
        (ap (λ (x : Dialog). x.attempted) (sym (begin_parts action d ticket request d' k).2)))

  -- A request that is sent carries the inputs of the form, read and within all limits, and is
  -- confirmed exactly if it is a start, which the user has confirmed; and the dialog that waits for
  -- the answer holds none of the inputs any more.
  pub sends_and_forgets :
      (action : Action) (d : Dialog) (ticket : Ticket) (request : Request) (d' : Dialog)
      → begin_request size_of action d ≡ some (ticket, request, d')
      → (read_inputs d.form ≡ some request.inputs)
        × (request.action ≡ action)
        × (request.confirmed ≡ is_start action)
        × ((is_start action && not d.confirmed) ≡ false)
        × (fits size_of request ≡ true)
        × (d'.form ≡ empty_form)
        × (d'.confirmed ≡ false)
  unfolding body_for is_refused waiting_dialog clear_inputs
  sends_and_forgets action d ticket request d' h =
      let parts = begin_parts action d ticket request d' h in
      let body = bind_parts (read_inputs d.form) _ request parts.1 in
      let last = require_parts _ _ request body.2 in
      let same = some_injective _ request last.1 in
      (
        body.1 ∙ ap (λ (q : Request). some q.inputs) same,
        sym (ap (λ (q : Request). q.action) same),
        sym (ap (λ (q : Request). q.confirmed) same),
        unconfirmed d.busy d.attempted (not d.is_open) _ parts.0,
        subst (λ (q : Request). fits size_of q ≡ true) same last.0,
        sym (ap (λ (x : Dialog). x.form) parts.2),
        sym (ap (λ (x : Dialog). x.confirmed) parts.2),
      )
    where
      unconfirmed : (b a o s : Bool) → (b || a || o || s) ≡ false → s ≡ false
      unconfirmed b a o s h = ground (arith, h)
