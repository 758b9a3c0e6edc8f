-- ===== src/Evaluations/Laws.antt =====
-- The dialog is a session; so the plan that it shows belongs to the selected run and mode.
use sql_server_lab.Prelude.{
  suc, String, Bool, true, false, not, ◌||◌, List, Option, none, some, ◌≡◌, refl, sym, subst, ◌⊎◌,
  inl, inr, ◌≤◌, ◌<◌, arith, Bool-cases, includes,
}
use sql_server_lab.Js.{Value, codes, get, array_of}
use sql_server_lab.Js.Patterns.{trim}
use sql_server_lab.Session.{Machine, IsSafe, Answer, lost, arrived, Reachable}
use sql_server_lab.Session.Laws.{
  Reachable-Fits, looked_stale, looked_keeps, unchanged, ask_calm, ask_sent, ask_any, neither,
}
use sql_server_lab.Evaluations.{modes, valid_metadata, valid_plan}
use sql_server_lab.Evaluations.Dialog.{
  Dialog, own, invalidate, Question, read, preview, Ticket, reading, first_run, begin_read,
  ask_preview, begin_preview, Event, open_dialog, close_dialog, press_read, press_preview,
  type_root, choose_run, choose_mode, handle, release, receive, end_request,
}

module _ (parses : String → Bool) where
  abbrev pub Fits : Dialog → Option Value → Type 0
  Fits d none = Unit
  Fits d (some view) = (v : Value) × (own d ≡ some v) × (valid_plan parses view v d.mode ≡ true)

  abbrev pub Shows : Dialog → Type 0
  Shows d = Fits d d.result

  -- A read is made by a dialog that shows no plan; a preview for the selected run and mode.
  abbrev pub IsAskedFor : Dialog → Question → Type 0
  IsAskedFor d (read root) = d.result ≡ none
  IsAskedFor d (preview root v mode) = (own d ≡ some v) × (mode ≡ d.mode)

  abbrev pub IsFor : Dialog → Ticket → Type 0
  IsFor d t = IsAskedFor d t.question

  abbrev pub plans : Machine Dialog Event Ticket Answer
  plans = record {
    revision = λ d. d.revision;
    busy = λ d. d.busy;
    stamp = λ t. t.revision;
    IsFor = IsFor;
    Fits = Shows;
    handle = handle;
    reply = end_request parses;
  }

  abbrev Calm : Dialog → Dialog → Type 0
  Calm d d' =
      (d.revision < d'.revision)
      ⊎ ((d'.revision ≡ d.revision) × (d'.busy ≡ d.busy) × ((t : Ticket) → IsFor d t → IsFor d' t))

  abbrev Asked : Dialog → Ticket → Dialog → Type 0
  Asked d t d' =
      ((d.busy ≡ false) ⊎ (d.revision < d'.revision))
      × (d.revision ≤ d'.revision)
      × (t.revision ≡ d'.revision)
      × (d'.busy ≡ true)
      × IsFor d' t

  abbrev read_ticket : Dialog → Ticket
  read_ticket d = record { question = read (trim (codes d.root_text)); revision = suc d.revision }

  abbrev preview_ticket : Value → Dialog → Ticket
  preview_ticket v d = record { question = preview d.root v d.mode; revision = d.revision }

  abbrev previewing : Dialog → Dialog
  previewing d = record d { busy = true; result = none }

  same : (d : Dialog) → Calm d d
  same d = inr (refl, refl, λ t f. f)

  ask_preview_calm :
      (o : Option Value) (d : Dialog) → (ask_preview o d).0 ≡ none → Calm d (ask_preview o d).1
  unfolding ask_preview
  ask_preview_calm none d h = same d
  ask_preview_calm (some v) d h =
      ask_calm (preview_ticket v d) d (previewing d) d (Calm d) (d.busy || not d.is_open)
        (includes modes d.mode) (same d) (same d) h

  calm : (e : Event) (d : Dialog) → (handle e d).0 ≡ none → Calm d (handle e d).1
  unfolding handle invalidate begin_read begin_preview
  calm open_dialog d h = inl (omega arith)
  calm close_dialog d h = inl (omega arith)
  calm press_read d h =
      ask_calm (read_ticket d) d (reading d) d (Calm d) (d.busy || not d.is_open) true (same d)
        (same d) h
  calm press_preview d h = ask_preview_calm (own d) d h
  calm (type_root text) d h = inl (omega arith)
  calm (choose_run run) d h = inl (omega arith)
  calm (choose_mode mode) d h = inl (omega arith)

  ask_preview_asked :
      (o : Option Value) (d : Dialog) (t : Ticket)
      → own d ≡ o
      → (ask_preview o d).0 ≡ some t
      → Asked d t (ask_preview o d).1
  unfolding ask_preview
  ask_preview_asked none d t e h = cc
  ask_preview_asked (some v) d t e h =
      ask_sent (preview_ticket v d) d (previewing d) d (Asked d) (d.busy || not d.is_open)
        (includes modes d.mode) t
        (λ stop go.
          (inl (neither d.busy (not d.is_open) stop).0, omega arith, refl, refl, (e, refl)))
        h

  asked : (e : Event) (d : Dialog) (t : Ticket) → (handle e d).0 ≡ some t → Asked d t (handle e d).1
  unfolding handle invalidate begin_read begin_preview
  asked open_dialog d t h = cc
  asked close_dialog d t h = cc
  asked press_read d t h =
      ask_sent (read_ticket d) d (reading d) d (Asked d) (d.busy || not d.is_open) true t
        (λ stop go. (inl (neither d.busy (not d.is_open) stop).0, omega arith, refl, refl, refl)) h
  asked press_preview d t h = ask_preview_asked (own d) d t refl h
  asked (type_root text) d t h = cc
  asked (choose_run run) d t h = cc
  asked (choose_mode mode) d t h = cc

  ask_preview-Shows : (o : Option Value) (d : Dialog) → Shows d → Shows (ask_preview o d).1
  unfolding ask_preview
  ask_preview-Shows none d f = f
  ask_preview-Shows (some v) d f =
      ask_any (preview_ticket v d) d (previewing d) d Shows (d.busy || not d.is_open)
        (includes modes d.mode) f tt f

  handle-Shows : (e : Event) (d : Dialog) → Shows d → Shows (handle e d).1
  unfolding handle invalidate begin_read begin_preview
  handle-Shows open_dialog d f = tt
  handle-Shows close_dialog d f = tt
  handle-Shows press_read d f =
      ask_any (read_ticket d) d (reading d) d Shows (d.busy || not d.is_open) true f tt f
  handle-Shows press_preview d f = ask_preview-Shows (own d) d f
  handle-Shows (type_root text) d f = tt
  handle-Shows (choose_run run) d f = tt
  handle-Shows (choose_mode mode) d f = tt

  abbrev free : Dialog → Dialog
  free d = record d { busy = false }

  end_request_stale :
      (t : Ticket) (a : Answer) (d : Dialog)
      → t.revision < d.revision
      → end_request parses t a d ≡ d
  unfolding end_request release
  end_request_stale t a d h =
      looked_stale (λ (x : Dialog). x.revision) free t.revision d.is_open
        (receive parses t.question a d) d h

  abbrev Left : Dialog → Dialog → Type 0
  Left d d' = (d.revision ≤ d'.revision) × Shows d'

  receive_current :
      (q : Question) (a : Answer) (d : Dialog) → IsAskedFor d q → Left d (receive parses q a d)
  unfolding receive invalidate
  receive_current (read root) lost d f = (omega arith, tt)
  receive_current (preview root v mode) lost d f = (omega arith, tt)
  receive_current (read root) (arrived size view) d f = elim (Bool-cases (valid_metadata view)) [
    | inl e ↦ rw e (
      omega arith,
      subst
          (Fits (record d {
            runs = array_of (get view "Runs");
            root = root;
            run = first_run (array_of (get view "Runs"));
          }))
          (sym f) tt,
    )
    | inr e ↦ rw e (omega arith, tt)
  ]
  receive_current (preview root v mode) (arrived size view) d (o, f) =
      elim (Bool-cases (valid_plan parses view v mode)) [
        | inl e ↦ rw e (omega arith, (v, o, subst (λ m. valid_plan parses view v m ≡ true) f e))
        | inr e ↦ rw e (omega arith, tt)
      ]

  end_request_current :
      (t : Ticket) (a : Answer) (d : Dialog)
      → t.revision ≡ d.revision
      → IsFor d t
      → Shows d
      → Left d (end_request parses t a d)
  unfolding end_request release
  end_request_current t a d e f s =
      looked_keeps (λ (x : Dialog). x.revision) free t.revision (Left d) d.is_open
        (receive parses t.question a d) d (λ x h. h) (receive_current t.question a d f)
        (omega arith, s)

  plans-IsSafe : IsSafe plans
  plans-IsSafe = record {
    calm = calm;
    asked = asked;
    handle-Fits = handle-Shows;
    stale = λ t a d h. unchanged plans d (end_request parses t a d) (end_request_stale t a d h);
    current = end_request_current;
  }

  -- In every run of the dialog, whatever the user does while requests wait and in whatever order
  -- their answers come, a plan that is shown is a valid one for the selected run and mode.
  pub shown_refresh_fits :
      (d : Dialog) (ts : List Ticket) (view : Value)
      → Reachable plans d ts
      → d.result ≡ some view
      → (v : Value) × (own d ≡ some v) × (valid_plan parses view v d.mode ≡ true)
  shown_refresh_fits d ts view r e = subst (Fits d) e (Reachable-Fits plans plans-IsSafe d ts r)
