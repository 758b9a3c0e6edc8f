-- ===== src/Cms/Laws.antt =====
-- The target of an inspection: in every run of the dialog (Ui/app.js, readCmsInspection and the
-- handlers of the dialog) an answer leaves the target of the view that it finds.
use sql_server_lab.Prelude.{
  ℕ, ◌≤◌, ◌<◌, get_elem?, List, Bool, true, false, not, ◌||◌, Option, none, some, ◌≡◌, refl, sym,
  ap, subst, ◌⊎◌, inl, inr, Bool-cases, and_parts, arith,
}
use sql_server_lab.Js.{Value, get, is_str}
use sql_server_lab.Session.{Machine, IsSafe, Reachable, Answer, lost, arrived}
use sql_server_lab.Session.Laws.{
  ask_sent, ask_calm, neither, looked_stale, looked_keeps, unchanged, Reachable-IsFor,
}
use sql_server_lab.Cms.{
  Dialog, can_inspect, same_target, Question, read, inspect, Ticket, ticket, waiting, begin_read,
  inspect_view, is_accepted, receive, release, end_request, Event, open_dialog, close_dialog,
  press_read, press_check, opened, handle,
}

-- An inspection is for the view of the dialog, which can be inspected.
abbrev IsAskedFor : Dialog → Question → Type 0
IsAskedFor d read = Unit
IsAskedFor d (inspect v) = (d.view ≡ some v) × (can_inspect v ≡ true)

abbrev IsFor : Dialog → Ticket → Type 0
IsFor d t = IsAskedFor d t.question

-- A handler that asks nothing: the revision moves, or nothing is lost.
abbrev Calm : Dialog → Dialog → Type 0
Calm d d' =
    (d.revision < d'.revision)
    ⊎ ((d'.revision ≡ d.revision) × (d'.busy ≡ d.busy) × ((t : Ticket) → IsFor d t → IsFor d' t))

still : (d : Dialog) → Calm d d
still d = inr (refl, refl, λ t h. h)

inspect_view-Calm :
    (o : Option Value) (d : Dialog) → (inspect_view o d).0 ≡ none → Calm d (inspect_view o d).1
unfolding inspect_view
inspect_view-Calm none d h = still d
inspect_view-Calm (some v) d h =
    ask_calm (ticket (inspect v) d) d (waiting d) d (Calm d) (d.busy || not d.is_open)
      (can_inspect v) (still d) (still d) h

calm : (e : Event) (d : Dialog) → (handle e d).0 ≡ none → Calm d (handle e d).1
unfolding handle begin_read
calm open_dialog d h = cc
calm close_dialog d h = inl (omega arith)
calm press_read d h =
    ask_calm (ticket read d) d (waiting d) d (Calm d) (d.busy || not d.is_open) true (still d)
      (still d) h
calm press_check d h = inspect_view-Calm d.view d h

abbrev Asked : Dialog → Ticket → Dialog → Type 0
Asked d t d' =
    ((d.busy ≡ false) ⊎ (d.revision < d'.revision))
    × (d.revision ≤ d'.revision)
    × (t.revision ≡ d'.revision)
    × (d'.busy ≡ true)
    × IsFor d' t

inspect_view-Asked :
    (o : Option Value) (d : Dialog) (t : Ticket)
    → d.view ≡ o
    → (inspect_view o d).0 ≡ some t
    → Asked d t (inspect_view o d).1
unfolding inspect_view
inspect_view-Asked none d t e h = cc
inspect_view-Asked (some v) d t e h =
    ask_sent (ticket (inspect v) d) d (waiting d) d (Asked d) (d.busy || not d.is_open)
      (can_inspect v) t
      (λ stop go. (inl (neither d.busy (not d.is_open) stop).0, omega arith, refl, refl, (e, go))) h

read_asked :
    (d : Dialog) (t : Ticket)
    → (begin_read (opened d)).0 ≡ some t
    → Asked d t (begin_read (opened d)).1
unfolding begin_read
read_asked d t h =
    ask_sent (ticket read (opened d)) d (waiting (opened d)) d (Asked d) false true t
      (λ stop go. (inr (omega arith), omega arith, refl, refl, tt)) h

asked : (e : Event) (d : Dialog) (t : Ticket) → (handle e d).0 ≡ some t → Asked d t (handle e d).1
unfolding handle begin_read
asked open_dialog d t h = read_asked d t h
asked close_dialog d t h = cc
asked press_read d t h =
    ask_sent (ticket read d) d (waiting d) d (Asked d) (d.busy || not d.is_open) true t
      (λ stop go. (inl (neither d.busy (not d.is_open) stop).0, omega arith, refl, refl, tt)) h
asked press_check d t h = inspect_view-Asked d.view d t refl h

abbrev free : Dialog → Dialog
free d = record d { busy = false }

-- What the answer to an inspection can make of the view of a dialog: it leaves it, removes it, or
-- replaces it by one of the same target, if it was one that can be inspected.
abbrev pub LeavesTarget : Dialog → Dialog → Type 0
LeavesTarget s s' =
    (s'.view ≡ s.view)
    ⊎ (s'.view ≡ none)
    ⊎ ((v : Value) × (w : Value) × (s.view ≡ some v)
        × (can_inspect v ≡ true)
        × (s'.view ≡ some w)
        × (same_target w v ≡ true))

module _ (parses : Value → Bool) where
  -- The dialog as a machine.
  abbrev pub inspections : Machine Dialog Event Ticket Answer
  inspections = record {
    revision = λ d. d.revision;
    busy = λ d. d.busy;
    stamp = λ t. t.revision;
    IsFor = IsFor;
    Fits = λ d. Unit;
    handle = handle;
    reply = end_request parses;
  }

  end_request_stale :
      (t : Ticket) (a : Answer) (d : Dialog)
      → t.revision < d.revision
      → end_request parses t a d ≡ d
  unfolding end_request release
  end_request_stale t a d h =
      looked_stale (λ (x : Dialog). x.revision) free t.revision d.is_open
        (receive parses t.question a d) d h

  receive-revision :
      (q : Question) (a : Answer) (d : Dialog) → (receive parses q a d).revision ≡ d.revision
  unfolding receive
  receive-revision q lost d = refl
  receive-revision q (arrived size payload) d = ground arith

  end_request_current :
      (t : Ticket) (a : Answer) (d : Dialog) → d.revision ≤ (end_request parses t a d).revision
  unfolding end_request release
  end_request_current t a d =
      looked_keeps (λ (x : Dialog). x.revision) free t.revision
        (λ (x : Dialog). d.revision ≤ x.revision) d.is_open (receive parses t.question a d) d
        (λ x h. h) (omega (arith, receive-revision t.question a d)) (omega arith)

  inspections-IsSafe : IsSafe inspections
  inspections-IsSafe = record {
    calm = calm;
    asked = asked;
    handle-Fits = λ e d h. tt;
    stale =
        λ t a d h. unchanged inspections d (end_request parses t a d) (end_request_stale t a d h);
    current = λ t a d e f h. (end_request_current t a d, tt);
  }

  receive-LeavesTarget :
      (v : Value) (a : Answer) (s : Dialog)
      → IsAskedFor s (inspect v)
      → LeavesTarget s (receive parses (inspect v) a s)
  unfolding receive is_accepted
  receive-LeavesTarget v lost s f = inr (inl refl)
  receive-LeavesTarget v (arrived size payload) s f =
      elim (Bool-cases (is_accepted (inspect v) (get payload "Result"))) [
        | inl e ↦
            let same =
              and_parts
                (is_str (get (get payload "Result") "ContractVersion")
                  "SqlServerLab.CmsInspection/1.0")
                (same_target (get payload "Result") v) e in
            rw e (inr (inr (v, get payload "Result", f.0, f.1, refl, same.1)))
        | inr e ↦ rw e (inr (inl refl))
      ]

  asked-LeavesTarget :
      (q : Question) (v : Value) (a : Answer) (s : Dialog)
      → q ≡ inspect v
      → IsAskedFor s q
      → LeavesTarget s (receive parses q a s)
  asked-LeavesTarget q v a s e f =
      let g : IsAskedFor s (inspect v) = subst (λ (x : Question). IsAskedFor s x) e f in
      subst (λ (x : Question). LeavesTarget s (receive parses x a s)) (sym e)
        (receive-LeavesTarget v a s g)

  end_request-LeavesTarget :
      (t : Ticket) (v : Value) (a : Answer) (s : Dialog)
      → t.question ≡ inspect v
      → IsFor s t
      → LeavesTarget s (end_request parses t a s)
  unfolding end_request release
  end_request-LeavesTarget t v a s e f =
      looked_keeps (λ (x : Dialog). x.revision) free t.revision (LeavesTarget s) s.is_open
        (receive parses t.question a s) s (λ x h. h) (asked-LeavesTarget t.question v a s e f)
        (inl refl)

  -- In every run of the dialog, whatever the user does while requests wait and in whatever order
  -- their answers come: the answer to an inspection leaves the view that the dialog has when it
  -- comes, or removes it, or replaces it by one of the same target, and then the view that it
  -- replaces was one that can be inspected.
  pub inspection_target_stays :
      (s : Dialog) (ts : List Ticket) (i : ℕ) (t : Ticket) (v : Value) (a : Answer)
      → Reachable inspections s ts
      → get_elem? ts i ≡ some t
      → t.question ≡ inspect v
      → LeavesTarget s (end_request parses t a s)
  inspection_target_stays s ts i t v a r e q =
      elim (Reachable-IsFor inspections inspections-IsSafe s ts i t r e) [
        | inl old ↦ inl (ap (λ (x : Dialog). x.view) (end_request_stale t a s old))
        | inr (now, f) ↦ end_request-LeavesTarget t v a s q f
      ]
