-- ===== src/Removal/Laws.antt =====
-- What the dialog that removes run metadata guarantees.
use sql_server_lab.Prelude.{
  suc, String, Bool, true, false, not, ◌&&◌, ◌||◌, List, [], ◌∷◌, Option, none, some, ◌≡◌, refl,
  sym, ◌∙◌, ap, inl, inr, if◌then◌else◌, Bool-cases, arith, All, and_parts, guarded, leb,
}
use sql_server_lab.Js.{Value, get, is_true, is_str, text_of, bool, is_false, is_null}
use sql_server_lab.Js.Laws.{eq_of_is_str}
use sql_server_lab.Removal.{
  valid_preview, valid_targets, valid_removal, is_ready, is_about, preview_head, preview_tail,
  ready_tail, closed_tail,
}
use sql_server_lab.Removal.Dialog.{
  Action, read, preview, apply, Dialog, Ticket, Payload, apply_run, Reply, failed, answered, Event,
  open_dialog, close_dialog, press, select, confirm, answer, invalidate, begin_request,
  is_permitted, payload_of, waiting_dialog, Payload, apply_run, token_of, is_apply, receive,
  take_reply, end_request, is_current, handle, run, begun, selected_target, run_of, can_apply,
  preview_is_of,
}

-- A preview that the dialog holds is a valid one of some run.
abbrev pub IsVetted : Option Value → Type 0
IsVetted none = Unit
IsVetted (some v) = (run_id : String) × (valid_preview v run_id ≡ true)

receive-IsVetted :
    (action : Action) (run_id : String) (view : Value) (d : Dialog)
    → IsVetted d.preview
    → IsVetted (receive action run_id view d).preview
unfolding receive
receive-IsVetted read run_id view d h = elim (Bool-cases (valid_targets view)) [
  | inl e ↦ rw e h
  | inr e ↦ rw e tt
]
receive-IsVetted preview run_id view d h = elim (Bool-cases (valid_preview view run_id)) [
  | inl e ↦ rw e (run_id, e)
  | inr e ↦ rw e tt
]
receive-IsVetted apply run_id view d h = elim (Bool-cases (valid_removal view run_id)) [
  | inl e ↦ rw e h
  | inr e ↦ rw e tt
]

take_reply-IsVetted :
    (ticket : Ticket) (reply : Reply) (d : Dialog)
    → IsVetted d.preview
    → IsVetted (take_reply ticket reply d).preview
unfolding take_reply
take_reply-IsVetted ticket failed d h = tt
take_reply-IsVetted ticket (answered size view) d h = elim (Bool-cases (leb size 1048576)) [
  | inl e ↦ rw e (receive-IsVetted ticket.action ticket.run_id view d h)
  | inr e ↦ rw e tt
]

end_request-IsVetted :
    (ticket : Ticket) (reply : Reply) (d : Dialog)
    → IsVetted d.preview
    → IsVetted (end_request ticket reply d).preview
unfolding end_request
end_request-IsVetted ticket reply d h = elim (Bool-cases (is_current ticket d)) [
  | inl e ↦ rw e (take_reply-IsVetted ticket reply d h)
  | inr e ↦ rw e h
]

-- A dialog that is busy, waiting or closed begins nothing.
begin_request-none :
    (action : Action) (d : Dialog)
    → (d.busy || d.pending_apply || not d.is_open) ≡ true
    → begin_request action d ≡ none
unfolding begin_request
begin_request-none action d h = rw h refl

begin_request-IsVetted :
    (action : Action) (d : Dialog)
    → IsVetted d.preview
    → IsVetted (begun d (begin_request action d)).preview
unfolding begin_request invalidate waiting_dialog
begin_request-IsVetted action d h = elim (Bool-cases (d.busy || d.pending_apply || not d.is_open)) [
  | inl e ↦ rw e h
  | inr e ↦
      rw e (elim (Bool-cases (is_permitted action d)) [
        | inl f ↦ rw f (waiting action)
        | inr f ↦ rw f h
      ])
]
  where
    waiting :
        (a : Action)
        → IsVetted
            (begun d (
              some (
                record {
                  action = a;
                  run_id = run_of (selected_target d);
                  current = suc d.revision;
                },
                payload_of a d,
                waiting_dialog a d,
              ))).preview
    waiting read = tt
    waiting preview = tt
    waiting apply = tt

handle-IsVetted : (e : Event) (d : Dialog) → IsVetted d.preview → IsVetted (handle e d).preview
unfolding handle invalidate
handle-IsVetted open_dialog d h = tt
handle-IsVetted close_dialog d h = tt
handle-IsVetted (press action) d h = begin_request-IsVetted action d h
handle-IsVetted (select n) d h = tt
handle-IsVetted (confirm c) d h = h
handle-IsVetted (answer ticket reply) d h = end_request-IsVetted ticket reply d h

run-IsVetted : (es : List Event) (d : Dialog) → IsVetted d.preview → IsVetted (run es d).preview
unfolding run
run-IsVetted [] d h = h
run-IsVetted (e ∷ es) d h = run-IsVetted es (handle e d) (handle-IsVetted e d h)

blocked : (b p o : Bool) → p ≡ true → (b || p || not o) ≡ true
blocked b p o h = ground (arith, h)

-- Whether an event is the answer to a removal.
abbrev pub ends_apply : Event → Bool
ends_apply (answer ticket reply) = is_apply ticket.action
ends_apply _ = false

receive-pending :
    (action : Action) (run_id : String) (view : Value) (d : Dialog)
    → (receive action run_id view d).pending_apply ≡ d.pending_apply
unfolding receive
receive-pending read run_id view d = ground arith
receive-pending preview run_id view d = ground arith
receive-pending apply run_id view d = ground arith

take_reply-pending :
    (ticket : Ticket) (reply : Reply) (d : Dialog)
    → (take_reply ticket reply d).pending_apply ≡ d.pending_apply
unfolding take_reply
take_reply-pending ticket failed d = refl
take_reply-pending ticket (answered size view) d = elim (Bool-cases (leb size 1048576)) [
  | inl e ↦ rw e (receive-pending ticket.action ticket.run_id view d)
  | inr e ↦ rw e refl
]

handle-pending :
    (e : Event) (d : Dialog)
    → ends_apply e ≡ false
    → d.pending_apply ≡ true
    → (handle e d).pending_apply ≡ true
unfolding handle invalidate end_request
handle-pending open_dialog d h k = k
handle-pending close_dialog d h k = k
handle-pending (press action) d h k =
    rw (begin_request-none action d (blocked d.busy d.pending_apply d.is_open k)) k
handle-pending (select n) d h k = k
handle-pending (confirm c) d h k = k
handle-pending (answer ticket reply) d h k = rw h (elim (Bool-cases (is_current ticket d)) [
  | inl e ↦ rw e (take_reply-pending ticket reply d ∙ k)
  | inr e ↦ rw e k
])

run-pending :
    (es : List Event) (d : Dialog)
    → All (λ (e : Event). ends_apply e ≡ false) es
    → d.pending_apply ≡ true
    → (run es d).pending_apply ≡ true
unfolding run
run-pending [] d h k = k
run-pending (e ∷ es) d (h, hs) k = run-pending es (handle e d) hs (handle-pending e d h k)

-- While a removal waits for its answer no request of any kind begins, whatever else happens: not by
-- closing and opening the dialog, nor by the answers of earlier reads and previews.
pub removal_blocks :
    (es : List Event) (d : Dialog) (action : Action)
    → All (λ (e : Event). ends_apply e ≡ false) es
    → d.pending_apply ≡ true
    → begin_request action (run es d) ≡ none
removal_blocks es d action h k =
    begin_request-none action (run es d)
      (blocked (run es d).busy (run es d).pending_apply (run es d).is_open (run-pending es d h k))

about_run : (v : Value) (r : String) → is_about v r ≡ true → is_str (get v "RunId") r ≡ true
unfolding is_about
about_run v r h = (and_parts _ (is_str (get v "RunId") r) h).1

same_run : (v : Value) (r s : String) → is_str v r ≡ true → is_str v s ≡ true → r ≡ s
same_run v r s h k = ap text_of (sym (eq_of_is_str v r h) ∙ eq_of_is_str v s k)

true_not_false : (v : Value) → is_true v ≡ true → is_false v ≡ true → ⊥
true_not_false (bool b) h k = ground (arith, h, k)
true_not_false _ h k = cc

closed_not_applicable : (v : Value) → closed_tail v ≡ true → is_false (get v "CanApply") ≡ true
unfolding closed_tail
closed_not_applicable v h =
    let front =
      and_parts (is_false (get v "CanApply") && is_null (get v "PreviewToken") && _) _ h in
    (and_parts (is_false (get v "CanApply")) _
      (and_parts (is_false (get v "CanApply") && is_null (get v "PreviewToken")) _ front.0).0).0

else_part : (b x y : Bool) → (if b then x else y) ≡ true → b ≡ false → y ≡ true
else_part b x y h k = ground (arith, h, k)

applicable-is_ready :
    (v : Value) → is_true (get v "CanApply") ≡ true → preview_tail v ≡ true → is_ready v ≡ true
unfolding preview_tail
applicable-is_ready v h k = elim (Bool-cases (is_ready v)) [
  | inl e ↦ e
  | inr e ↦ absurd (
      true_not_false (get v "CanApply") h
        (closed_not_applicable v (else_part (is_ready v) (ready_tail v) (closed_tail v) k e)))
]

-- What a held preview that may be applied for a run says.
vetted_parts :
    (p : Option Value) (r : String)
    → IsVetted p
    → can_apply p ≡ true
    → preview_is_of p r ≡ true
    → (v : Value) × (p ≡ some v) × (valid_preview v r ≡ true) × (is_ready v ≡ true)
unfolding valid_preview
vetted_parts none r h k l = cc
vetted_parts (some v) r (run_id, h) k l =
    let parts = and_parts (is_about v run_id && preview_head v) (preview_tail v) h in
    let front = and_parts (is_about v run_id) (preview_head v) parts.0 in
    let same = same_run (get v "RunId") run_id r (about_run v run_id front.0) l in
    (v, refl, rw (sym same) h, applicable-is_ready v k parts.1)

-- What a dialog that holds a vetted preview may send as a removal, whatever happened to it: the run
-- that is selected and the token of its preview, which is a valid one of that very run, says that
-- it may be applied, and was confirmed.
pub removal_is_bound :
    (es : List Event) (d : Dialog) (ticket : Ticket) (payload : Payload) (d' : Dialog)
    → IsVetted d.preview
    → begin_request apply (run es d) ≡ some (ticket, payload, d')
    → (v : Value) × ((run es d).preview ≡ some v)
      × (valid_preview v (run_of (selected_target (run es d))) ≡ true)
      × (is_ready v ≡ true)
      × ((run es d).confirmed ≡ true)
      × (payload ≡ apply_run (run_of (selected_target (run es d))) (text_of (get v "PreviewToken")))
unfolding begin_request is_permitted payload_of
removal_is_bound es d ticket payload d' h k =
    let begun = guarded _ _ _ _ k in
    let front = and_parts _ (run es d).confirmed begun.1 in
    let checks =
      and_parts _ (preview_is_of (run es d).preview (run_of (selected_target (run es d))))
        front.0 in
    let held =
      vetted_parts (run es d).preview (run_of (selected_target (run es d))) (run-IsVetted es d h)
        (and_parts _ (can_apply (run es d).preview) checks.0).1 checks.1 in
    (
      held.0,
      held.1,
      held.2,
      held.3,
      front.1,
      sym (ap payload_in begun.2)
          ∙ ap (λ p. apply_run (run_of (selected_target (run es d))) (token_of p)) held.1,
    )
  where
    payload_in : Ticket × Payload × Dialog → Payload
    payload_in (t, p, e) = p
