-- ===== src/Relations/Asking.antt =====
-- The requests of the component relations, and what they are made for.
use sql_server_lab.Prelude.{
  String, true, false, not, ◌||◌, List, [], Option, none, some, ◌≡◌, refl, sym, subst, ◌⊎◌, inl,
  inr, ◌≤◌, ◌<◌, arith, if_any,
}
use sql_server_lab.Js.{Value, get, text_of}
use sql_server_lab.Session.Laws.{ask_calm, ask_sent, neither}
use sql_server_lab.Relations.{valid_preview}
use sql_server_lab.Relations.Draft.{Relation, run_of, add_to}
use sql_server_lab.Relations.Sound.{IsSound}
use sql_server_lab.Relations.Dialog.{
  Dialog, own, render_choices, invalidate, Question, read, preview, Ticket, reading, read_ticket,
  begin_read, preview_ticket, previewing, ask_preview, added, press_add_for, Event, open_dialog,
  close_dialog, press_read, press_preview, press_clear, press_add, type_root, choose_run,
  choose_source, choose_target, handle,
}

-- The draft is sound for the own run; without one it is empty.
abbrev pub DraftFits : Option Value → List Relation → Type 0
DraftFits none draft = draft ≡ []
DraftFits (some v) draft = IsSound (text_of (get v "RunId")) draft

abbrev pub ResultFits : Option Value → Option Value → Type 0
ResultFits o none = Unit
ResultFits o (some view) =
    (v : Value) × (o ≡ some v) × (valid_preview view (text_of (get v "RunId")) ≡ true)

abbrev pub Shows : Dialog → Type 0
Shows d = DraftFits (own d) d.draft × ResultFits (own d) d.result

abbrev pub IsAskedFor : Dialog → Question → Type 0
IsAskedFor d (read root) = (d.draft ≡ []) × (d.result ≡ none)
IsAskedFor d (preview root v draft bound) = (own d ≡ some v) × (d.draft ≡ draft)

abbrev pub IsFor : Dialog → Ticket → Type 0
IsFor d t = IsAskedFor d t.question

empty-IsSound : (id : String) → IsSound id []
empty-IsSound id = (omega arith, tt, λ s e. cc, tt)

pub empty-DraftFits : (o : Option Value) (draft : List Relation) → draft ≡ [] → DraftFits o draft
empty-DraftFits none draft e = e
empty-DraftFits (some v) draft e =
    subst (IsSound (text_of (get v "RunId"))) (sym e) (empty-IsSound (text_of (get v "RunId")))

abbrev pub Calm : Dialog → Dialog → Type 0
Calm d d' =
    (d.revision < d'.revision)
    ⊎ ((d'.revision ≡ d.revision) × (d'.busy ≡ d.busy) × ((t : Ticket) → IsFor d t → IsFor d' t))

-- A dialog whose draft, result and own run are the same.
alike :
    (d d' : Dialog)
    → d'.revision ≡ d.revision
    → d'.busy ≡ d.busy
    → ((q : Question) → IsAskedFor d q → IsAskedFor d' q)
    → Calm d d'
alike d d' r b k = inr (r, b, λ t f. k t.question f)

same : (d : Dialog) → Calm d d
same d = alike d d refl refl (λ q f. f)

added_calm : (o : Option Relation) (d : Dialog) → Calm d (added o d)
unfolding added render_choices
added_calm none d = same d
added_calm (some x) d = inl (omega arith)

press_add_calm : (o : Option Value) (d : Dialog) → Calm d (press_add_for o d)
unfolding press_add_for
press_add_calm none d = same d
press_add_calm (some v) d =
    if_any (Calm d) d.busy d
      (added (add_to v d.source d.target (run_of d.runs d.target.run) d.draft) d) (same d)
      (added_calm (add_to v d.source d.target (run_of d.runs d.target.run) d.draft) d)

ask_preview_calm :
    (o : Option Value) (d : Dialog) → (ask_preview o d).0 ≡ none → Calm d (ask_preview o d).1
unfolding ask_preview
ask_preview_calm none d h = same d
ask_preview_calm (some v) d h =
    ask_calm (preview_ticket v d) d (previewing d) d (Calm d) (d.busy || not d.is_open) true
      (same d) (same d) h

pub calm : (e : Event) (d : Dialog) → (handle e d).0 ≡ none → Calm d (handle e d).1
unfolding handle invalidate render_choices begin_read
calm open_dialog d h = inl (omega arith)
calm close_dialog d h = inl (omega arith)
calm press_read d h =
    ask_calm (read_ticket d) d (reading d) d (Calm d) (d.busy || not d.is_open) true (same d)
      (same d) h
calm press_preview d h = ask_preview_calm (own d) d h
calm press_clear d h = inl (omega arith)
calm press_add d h = press_add_calm (own d) d
calm (type_root text) d h = inl (omega arith)
calm (choose_run run) d h = inl (omega arith)
calm (choose_source source) d h =
    alike d (render_choices (record d { source = source })) refl refl still
  where
    still :
        (q : Question)
        → IsAskedFor d q
        → IsAskedFor (render_choices (record d { source = source })) q
    still (read root) f = f
    still (preview root v draft bound) f = f
calm (choose_target target) d h = alike d (record d { target = target }) refl refl still
  where
    still : (q : Question) → IsAskedFor d q → IsAskedFor (record d { target = target }) q
    still (read root) f = f
    still (preview root v draft bound) f = f

abbrev pub Asked : Dialog → Ticket → Dialog → Type 0
Asked d t d' =
    ((d.busy ≡ false) ⊎ (d.revision < d'.revision))
    × (d.revision ≤ d'.revision)
    × (t.revision ≡ d'.revision)
    × (d'.busy ≡ true)
    × IsFor d' t

ask_preview_asked :
    (o : Option Value) (d : Dialog) (t : Ticket)
    → own d ≡ o
    → (ask_preview o d).0 ≡ some t
    → Asked d t (ask_preview o d).1
unfolding ask_preview
ask_preview_asked none d t e h = cc
ask_preview_asked (some v) d t e h =
    ask_sent (preview_ticket v d) d (previewing d) d (Asked d) (d.busy || not d.is_open) true t
      (λ stop go. (inl (neither d.busy (not d.is_open) stop).0, omega arith, refl, refl, (e, refl)))
      h

pub asked :
    (e : Event) (d : Dialog) (t : Ticket) → (handle e d).0 ≡ some t → Asked d t (handle e d).1
unfolding handle begin_read invalidate render_choices
asked open_dialog d t h = cc
asked close_dialog d t h = cc
asked press_read d t h =
    ask_sent (read_ticket d) d (reading d) d (Asked d) (d.busy || not d.is_open) true t
      (λ stop go.
        (inl (neither d.busy (not d.is_open) stop).0, omega arith, refl, refl, (refl, refl)))
      h
asked press_preview d t h = ask_preview_asked (own d) d t refl h
asked press_clear d t h = cc
asked press_add d t h = cc
asked (type_root text) d t h = cc
asked (choose_run run) d t h = cc
asked (choose_source source) d t h = cc
asked (choose_target target) d t h = cc
