-- ===== src/Llama/Preview.antt =====
-- The preview that the dialog shows always belongs to the inputs that stand in its form.
use sql_server_lab.Prelude.{
  ℕ, suc, Bool, true, false, not, ◌||◌, List, [], ◌∷◌, Option, none, some, ◌≡◌, refl, sym, ◌∙◌, ap,
  subst, ◌⊎◌, inl, inr, if◌then◌else◌, Bool-cases, arith, All, All-weaken, All-get_elem?, get_elem?,
  ◌<◌, ◌==◌, bind_parts, require_parts, some_injective, and_parts, ==_iff,
}
use sql_server_lab.Js.{Value}
use sql_server_lab.Llama.{Common}
use sql_server_lab.Llama.Plan.{
  Inputs, read_inputs, valid_plan, Dialog, Ticket, invalidate, begin_request, Reply, failed,
  answered, is_current, take_reply, end_request, Event, open_dialog, close_dialog, edit, handle,
}

-- What the user may do besides asking for a preview.
pub data IsSilent : Event → Type 0 where
  opening : IsSilent open_dialog
  closing : IsSilent close_dialog
  editing : (form : Common) → IsSilent (edit form)

-- The dialogs that can arise from one that shows nothing, with the requests made so far; an answer
-- is always to one of them.
pub data Reachable : Dialog → List Ticket → Type 0 where
  initially : (d : Dialog) → d.result ≡ none → Reachable d []
  silently :
      (e : Event) (d : Dialog) (ts : List Ticket)
      → IsSilent e
      → Reachable d ts
      → Reachable (handle e d) ts
  requesting :
      (d d' : Dialog) (t : Ticket) (ts : List Ticket)
      → begin_request d ≡ some (t, d')
      → Reachable d ts
      → Reachable d' (t ∷ ts)
  receiving :
      (i : ℕ) (t : Ticket) (reply : Reply) (d : Dialog) (ts : List Ticket)
      → get_elem? ts i ≡ some t
      → Reachable d ts
      → Reachable (end_request t reply d) ts

-- A request whose revision is still the dialog's has the inputs of the form.
abbrev IsHonest : Dialog → Ticket → Type 0
IsHonest d t =
    (t.revision < d.revision) ⊎ ((t.revision ≡ d.revision) × (read_inputs d.form ≡ some t.inputs))

abbrev pub Fits : Common → Option Value → Type 0
Fits form none = Unit
Fits form (some view) =
    (inputs : Inputs) × (read_inputs form ≡ some inputs) × (valid_plan view inputs ≡ true)

older : (d d' : Dialog) (t : Ticket) → d.revision < d'.revision → IsHonest d t → IsHonest d' t
older d d' t h (inl k) = inl (omega (arith, h, k))
older d d' t h (inr (k, l)) = inl (omega (arith, h, k))

silent-revision : (e : Event) (d : Dialog) → IsSilent e → d.revision < (handle e d).revision
unfolding handle invalidate
silent-revision _ d opening = omega arith
silent-revision _ d closing = omega arith
silent-revision _ d (editing form) = omega arith

silent-result : (e : Event) (d : Dialog) → IsSilent e → (handle e d).result ≡ none
unfolding handle invalidate
silent-result _ d opening = refl
silent-result _ d closing = refl
silent-result _ d (editing form) = refl

begin_parts :
    (d d' : Dialog) (t : Ticket)
    → begin_request d ≡ some (t, d')
    → (read_inputs d.form ≡ some t.inputs)
      × (t.revision ≡ suc d.revision)
      × (d'.revision ≡ suc d.revision)
      × (d'.form ≡ d.form)
      × (d'.result ≡ none)
unfolding begin_request
begin_parts d d' t h =
    let first = require_parts (not (d.busy || not d.is_open)) _ (t, d') h in
    let second = bind_parts (read_inputs d.form) _ (t, d') first.1 in
    let same = some_injective _ (t, d') second.2 in
    (
      second.1 ∙ ap (λ (x : Ticket × Dialog). some x.0.inputs) same,
      sym (ap (λ (x : Ticket × Dialog). x.0.revision) same),
      sym (ap (λ (x : Ticket × Dialog). x.1.revision) same),
      sym (ap (λ (x : Ticket × Dialog). x.1.form) same),
      sym (ap (λ (x : Ticket × Dialog). x.1.result) same),
    )

take_reply-keeps :
    (t : Ticket) (reply : Reply) (d : Dialog)
    → ((take_reply t reply d).revision ≡ d.revision) × ((take_reply t reply d).form ≡ d.form)
unfolding take_reply
take_reply-keeps t failed d = (refl, refl)
take_reply-keeps t (answered view) d = ground arith

end_request-keeps :
    (t : Ticket) (reply : Reply) (d : Dialog)
    → ((end_request t reply d).revision ≡ d.revision) × ((end_request t reply d).form ≡ d.form)
unfolding end_request
end_request-keeps t reply d = ground (arith, take_reply-keeps t reply d)

take_reply-Fits :
    (t : Ticket) (reply : Reply) (d : Dialog)
    → read_inputs d.form ≡ some t.inputs
    → Fits d.form d.result
    → Fits (take_reply t reply d).form (take_reply t reply d).result
unfolding take_reply
take_reply-Fits t failed d h k = k
take_reply-Fits t (answered view) d h k = elim (Bool-cases (valid_plan view t.inputs)) [
  | inl e ↦ rw e (t.inputs, h, e)
  | inr e ↦ rw e k
]

-- An answer that is looked at is one to a request for the inputs of the form.
honest_inputs :
    (d : Dialog) (t : Ticket)
    → IsHonest d t
    → is_current t d ≡ true
    → read_inputs d.form ≡ some t.inputs
honest_inputs d t (inl h) k =
    let same =
      (==_iff t.revision d.revision).0 (and_parts (t.revision == d.revision) d.is_open k).0 in
    absurd (omega (arith, h, same))
honest_inputs d t (inr (h, l)) k = l

end_request-Fits :
    (t : Ticket) (reply : Reply) (d : Dialog)
    → IsHonest d t
    → Fits d.form d.result
    → Fits (end_request t reply d).form (end_request t reply d).result
unfolding end_request
end_request-Fits t reply d h k = released _ _ (seen (is_current t d) refl)
  where
    released :
        (c : Bool) (s : Dialog)
        → Fits s.form s.result
        → Fits
            (if c then record s { busy = false } else s).form
            (if c then record s { busy = false } else s).result
    released true s f = f
    released false s f = f

    seen :
        (c : Bool)
        → is_current t d ≡ c
        → Fits
            (if c then take_reply t reply d else d).form
            (if c then take_reply t reply d else d).result
    seen true e = take_reply-Fits t reply d (honest_inputs d t h e) k
    seen false e = k

-- The requests of a reachable dialog are honest, and what it shows fits its form.
Reachable-parts :
    (d : Dialog) (ts : List Ticket) → Reachable d ts → All (IsHonest d) ts × Fits d.form d.result
Reachable-parts _ _ (initially d e) = (tt, subst (Fits d.form) (sym e) tt)
Reachable-parts _ _ (silently e d ts s r) =
    let before = Reachable-parts d ts r in
    (
      All-weaken ts (λ t h. older d (handle e d) t (silent-revision e d s) h) before.0,
      subst (Fits (handle e d).form) (sym (silent-result e d s)) tt,
    )
Reachable-parts _ _ (requesting d d' t ts e r) =
    let before = Reachable-parts d ts r in
    let parts = begin_parts d d' t e in
    (
      (
        inr (parts.1 ∙ sym parts.2, rw parts.3 parts.0),
        All-weaken ts (λ u h. older d d' u (omega (arith, parts.2)) h) before.0,
      ),
      subst (Fits d'.form) (sym parts.4) tt,
    )
Reachable-parts _ _ (receiving i t reply d ts e r) =
    let before = Reachable-parts d ts r in
    (
      All-weaken ts (λ u h. kept u h) before.0,
      end_request-Fits t reply d (All-get_elem? (IsHonest d) ts i t before.0 e) before.1,
    )
  where
    kept : (u : Ticket) → IsHonest d u → IsHonest (end_request t reply d) u
    kept u h = rw ((end_request-keeps t reply d).0, (end_request-keeps t reply d).1) h

-- However the user edits, closes, opens and asks again, and in whatever order the server's answers
-- to these requests come in: a preview that is shown is a valid one for the inputs that are read
-- from the form as it stands.
pub shown_plan_fits :
    (d : Dialog) (ts : List Ticket) (view : Value)
    → Reachable d ts
    → d.result ≡ some view
    → (inputs : Inputs) × (read_inputs d.form ≡ some inputs) × (valid_plan view inputs ≡ true)
shown_plan_fits d ts view r h = subst (Fits d.form) h (Reachable-parts d ts r).1
