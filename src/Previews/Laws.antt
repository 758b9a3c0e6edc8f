-- ===== src/Previews/Laws.antt =====
-- What the dialogs that preview a container's port or autostart guarantee.
use sql_server_lab.Prelude.{
  ℕ, zero, suc, ◌+◌, ◌≤◌, String, Bool, true, false, not, ◌||◌, List, [], ◌∷◌, Option, none, some,
  ◌≡◌, refl, sym, ap, subst, inl, inr, if◌then◌else◌, Bool-cases, Option-cases, arith, all, leb,
  get_elem?, and_parts, some_injective,
}
use sql_server_lab.Js.{Value, num, get, array_of, text_of}
use sql_server_lab.Previews.{Kind, valid_target, valid_targets, targets_head, all_different}
use sql_server_lab.Previews.Port
use sql_server_lab.Previews.AutoStart
use sql_server_lab.Previews.Dialog.{
  Action, read, preview, Dialog, target_at, selected_target, invalidate, forget_targets, Payload,
  preview_change, Ticket, Reply, failed, answered, is_current, waiting_dialog, ask, reject, release,
  Event, open_dialog, close_dialog, press, choose, select, answer, preview_request, begin_request,
  receive, take_reply, end_request, handle, run,
}

-- What the counts of a measured plan are: numbers that fit each other.
pub record AreCounts (m : Value) : Type 0 where
  pub total : ℕ
  pub volumes : ℕ
  pub binds : ℕ
  pub writable : ℕ
  pub others : ℕ
  pub total_is : get m "TotalMountCount" ≡ num total
  pub volumes_is : get m "VolumeMountCount" ≡ num volumes
  pub binds_is : get m "HostBindCount" ≡ num binds
  pub writable_is : get m "WritableHostBindCount" ≡ num writable
  pub others_is : get m "OtherMountCount" ≡ num others
  pub adds_up : total ≡ volumes + binds + others
  pub writable_fits : writable ≤ binds
  pub bounded : total ≤ 1024

all-get_elem? :
    (p : Value → Bool) (xs : List Value) (i : ℕ) (x : Value)
    → all p xs ≡ true
    → get_elem? xs i ≡ some x
    → p x ≡ true
all-get_elem? p [] i x h k = cc
all-get_elem? p (y ∷ xs) zero x h k =
    subst (λ (z : Value). p z ≡ true) (some_injective y x k) (and_parts (p y) _ h).0
all-get_elem? p (y ∷ xs) (suc i) x h k = all-get_elem? p xs i x (and_parts (p y) _ h).1 k

-- Every target that the dialog offers meets the contract.
abbrev pub AreVetted : Dialog → Type 0
AreVetted d = all valid_target d.targets ≡ true

reject-AreVetted : (a : Action) (d : Dialog) → AreVetted d → AreVetted (reject a d)
unfolding reject forget_targets
reject-AreVetted read d h = refl
reject-AreVetted preview d h = h

valid_targets-all :
    (contract : String) (view : Value)
    → valid_targets contract view ≡ true
    → all valid_target (array_of (get view "Targets")) ≡ true
unfolding valid_targets
valid_targets-all contract view e =
    let front = and_parts _ (all_different (array_of (get view "Targets"))) e in
    (and_parts (targets_head contract view) _ front.0).1

selected-valid_target :
    (targets : List Value) (selected : Option ℕ) (v : Value)
    → all valid_target targets ≡ true
    → target_at targets selected ≡ some v
    → valid_target v ≡ true
selected-valid_target targets none v h k = cc
selected-valid_target targets (some i) v h k = all-get_elem? valid_target targets i v h k

module _ (kind : Kind) where
  receive-AreVetted :
      (a : Action) (provider : String) (view : Value) (d : Dialog)
      → AreVetted d
      → AreVetted (receive kind a provider view d)
  unfolding receive
  receive-AreVetted read provider view d h = elim (Bool-cases (valid_targets kind.contract view)) [
    | inl e ↦ rw e (valid_targets-all kind.contract view e)
    | inr e ↦ rw e (reject-AreVetted read d h)
  ]
  receive-AreVetted preview provider view d h = elim (Bool-cases (kind.valid_plan view provider)) [
    | inl e ↦ rw e h
    | inr e ↦ rw e (reject-AreVetted preview d h)
  ]

  take_reply-AreVetted :
      (t : Ticket) (reply : Reply) (d : Dialog)
      → AreVetted d
      → AreVetted (take_reply kind t reply d)
  unfolding take_reply
  take_reply-AreVetted t failed d h = reject-AreVetted t.action d h
  take_reply-AreVetted t (answered size view) d h = elim (Bool-cases (leb size 1048576)) [
    | inl e ↦ rw e (receive-AreVetted t.action t.provider view d h)
    | inr e ↦ rw e (reject-AreVetted t.action d h)
  ]

  begin_request-targets : (a : Action) (d : Dialog) → (begin_request kind a d).1.targets ≡ d.targets
  unfolding begin_request preview_request ask waiting_dialog invalidate
  begin_request-targets read d = ground arith
  begin_request-targets preview d = elim (Option-cases (selected_target d)) [
    | inl e ↦ rw e (ground arith)
    | inr (t, e) ↦ rw e (ground arith)
  ]

  handle-AreVetted : (e : Event) (d : Dialog) → AreVetted d → AreVetted (handle kind e d)
  unfolding handle invalidate forget_targets end_request release
  handle-AreVetted open_dialog d h = refl
  handle-AreVetted close_dialog d h = refl
  handle-AreVetted (press a) d h = rw (begin_request-targets a d) h
  handle-AreVetted (choose text) d h = h
  handle-AreVetted (select n) d h = h
  handle-AreVetted (answer t reply) d h = elim (Bool-cases (is_current t d)) [
    | inl e ↦ rw e (take_reply-AreVetted t reply d h)
    | inr e ↦ rw e h
  ]

  run-AreVetted : (es : List Event) (d : Dialog) → AreVetted d → AreVetted (run kind es d)
  unfolding run
  run-AreVetted [] d h = h
  run-AreVetted (e ∷ es) d h = run-AreVetted es (handle kind e d) (handle-AreVetted e d h)

  asked_parts :
      (o : Option Value) (d : Dialog) (t : Ticket) (payload : Payload)
      → (preview_request kind o d).0 ≡ some (t, payload)
      → (v : Value) × (o ≡ some v)
        × (kind.accepts d.choice ≡ true)
        × (payload
            ≡ preview_change (text_of (get v "RunId")) (text_of (get v "InstanceId")) d.choice)
        × (t.provider ≡ text_of (get v "Provider"))
  unfolding preview_request ask
  asked_parts none d t payload h = cc
  asked_parts (some v) d t payload h = accepted (kind.accepts d.choice) refl h
    where
      accepted :
          (c : Bool)
          → kind.accepts d.choice ≡ c
          → (if c
              then ask preview
                  (text_of (get v "Provider"))
                  (preview_change (text_of (get v "RunId")) (text_of (get v "InstanceId")) d.choice)
                  d
              else (none, invalidate d)).0
            ≡ some (t, payload)
          → (w : Value) × (some v ≡ some w)
            × (kind.accepts d.choice ≡ true)
            × (payload
                ≡ preview_change (text_of (get w "RunId")) (text_of (get w "InstanceId")) d.choice)
            × (t.provider ≡ text_of (get w "Provider"))
      accepted true e k =
          let same = some_injective _ (t, payload) k in
          (
            v,
            refl,
            e,
            sym (ap (λ (x : Ticket × Payload). x.1) same),
            sym (ap (λ (x : Ticket × Payload). x.0.provider) same),
          )
      accepted false e k = cc

  begun_parts :
      (d : Dialog) (t : Ticket) (payload : Payload)
      → (begin_request kind preview d).0 ≡ some (t, payload)
      → (preview_request kind (selected_target d) d).0 ≡ some (t, payload)
  unfolding begin_request
  begun_parts d t payload h = open_only (d.busy || not d.is_open) h
    where
      open_only :
          (c : Bool)
          → (if c then (none, d) else preview_request kind (selected_target d) d).0
            ≡ some (t, payload)
          → (preview_request kind (selected_target d) d).0 ≡ some (t, payload)
      open_only true k = cc
      open_only false k = k

  -- What a dialog that offers vetted targets asks to preview, whatever happened to it: a change of
  -- the selected target, which meets the contract, to a choice that the kind accepts.
  pub preview_is_bound :
      (es : List Event) (d : Dialog) (t : Ticket) (payload : Payload)
      → AreVetted d
      → (begin_request kind preview (run kind es d)).0 ≡ some (t, payload)
      → (v : Value) × (selected_target (run kind es d) ≡ some v)
        × (valid_target v ≡ true)
        × (kind.accepts (run kind es d).choice ≡ true)
        × (payload
            ≡ preview_change
                (text_of (get v "RunId"))
                (text_of (get v "InstanceId"))
                (run kind es d).choice)
        × (t.provider ≡ text_of (get v "Provider"))
  preview_is_bound es d t payload h k =
      let now = run kind es d in
      let parts = asked_parts (selected_target now) now t payload (begun_parts now t payload k) in
      (
        parts.0,
        parts.1,
        selected-valid_target now.targets now.selected parts.0 (run-AreVetted es d h) parts.1,
        parts.2,
        parts.3,
        parts.4,
      )
