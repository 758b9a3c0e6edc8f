-- ===== src/Collations.antt =====
-- The search in the collation catalogue: Ui/collation-catalog.js. The contract of the answer, the
-- state of the dialog, `search` and the event handlers. The status line is left out; `shown` is the
-- view whose results are listed.
pub mod Laws
mod Tests
use sql_server_lab.Prelude.{
  ℕ, suc, String, Bool, true, false, not, ◌&&◌, ◌||◌, List, [], ◌∷◌, Option, none, some, all, leb,
  length, is_nil, includes, ◌==◌, if◌then◌else◌,
}
use sql_server_lab.Js.{
  Value, get, shape, is_str, is_bool, is_true, is_false, is_array, is_empty_array, is_one_of,
  is_integer_in, array_of, nat_of, matches, has_length, codes, units,
}
use sql_server_lab.Js.Patterns.{collation_name, no_control, trim}
use sql_server_lab.Session.{Answer, lost, arrived}

-- `r.Locale.trim().length > 0`.
abbrev is_not_blank : List ℕ → Bool
is_not_blank cs = not (is_nil (trim cs))

pub valid_row : String → Value → Bool
valid_row sql r =
    shape r (
      "Name" ∷ "Locale" ∷ "CodePage" ∷ "Lcid" ∷ "CaseSensitivity" ∷ "AccentSensitivity" ∷ "Utf8"
      ∷ "Status" ∷ "SqlVersion" ∷ [])
    && matches no_control (get r "Name")
    && matches collation_name (get r "Name")
    && matches no_control (get r "Locale")
    && matches is_not_blank (get r "Locale")
    && has_length 0 256 (get r "Locale")
    && is_integer_in 0 2147483647 (get r "CodePage")
    && is_integer_in 0 2147483647 (get r "Lcid")
    && is_one_of ("CI" ∷ "CS" ∷ "BIN" ∷ "BIN2" ∷ []) (get r "CaseSensitivity")
    && is_one_of ("AI" ∷ "AS" ∷ "NOT_APPLICABLE" ∷ []) (get r "AccentSensitivity")
    && is_bool (get r "Utf8")
    && is_one_of ("SUPPORTED" ∷ "DEPRECATED" ∷ []) (get r "Status")
    && is_str (get r "SqlVersion") sql

-- The number of results: at most 100, as many as are counted, and 100 if there are more.
unfoldable pub counts_agree : Value → Bool
counts_agree v =
    leb (length (array_of (get v "Results"))) 100
    && is_integer_in (length (array_of (get v "Results"))) (length (array_of (get v "Results")))
        (get v "ReturnedCount")
    && is_bool (get v "Truncated")
    && (not (is_true (get v "Truncated")) || length (array_of (get v "Results")) == 100)
    && is_str (get v "Status")
        (if is_nil (array_of (get v "Results")) then "NO_MATCHES" else "MATCHES")

unfoldable pub valid_head : String → Value → Bool
valid_head sql v =
    shape v (
      "Contract" ∷ "SqlVersion" ∷ "Status" ∷ "Results" ∷ "ReturnedCount" ∷ "Truncated"
      ∷ "SqlValidation" ∷ "ExecutionSupported" ∷ "MutationAllowed" ∷ "Actions" ∷ [])
    && shape (get v "Contract") ("Name" ∷ "Version" ∷ [])
    && is_str (get (get v "Contract") "Name") "SqlServerLab.CollationCatalogueSearch"
    && is_str (get (get v "Contract") "Version") "1.0"
    && is_str (get v "SqlVersion") sql
    && is_array (get v "Results")
    && is_str (get v "SqlValidation") "NOT_CHECKED"
    && is_false (get v "ExecutionSupported")
    && is_false (get v "MutationAllowed")
    && is_empty_array (get v "Actions")

-- valid.
unfoldable pub valid : Value → String → Bool
valid v sql = valid_head sql v && counts_agree v && all (valid_row sql) (array_of (get v "Results"))

pub record Dialog : Type 0 where
  pub revision : ℕ
  pub busy : Bool
  pub is_open : Bool
  pub sql : String
  pub query : String
  pub search_disabled : Bool
  pub shown : Option Value

-- What a search remembers while it waits, and sends.
pub record Ticket : Type 0 where
  pub sql : String
  pub query : String
  pub current : ℕ

-- clear.
unfoldable pub clear : Dialog → Dialog
clear d = record d {
  revision = suc d.revision;
  busy = false;
  search_disabled = false;
  shown = none;
}

-- cancel.
unfoldable pub cancel : Dialog → Dialog
cancel d = record (clear d) { query = ""; sql = "2025" }

unfoldable pub valid_input : String → String → Bool
valid_input sql query =
    includes ("2019" ∷ "2022" ∷ "2025" ∷ []) sql
    && no_control (codes query)
    && leb (units (codes query)) 256

-- The first half of `search`.
unfoldable pub begin_search : Dialog → Option Ticket × Dialog
begin_search d =
    if d.busy || not d.is_open
    then (none, d)
    else if valid_input d.sql d.query
    then (
      some (record { sql = d.sql; query = d.query; current = suc d.revision }),
      record d { revision = suc d.revision; busy = true; search_disabled = true; shown = none },
    )
    else (none, clear d)

-- `finally`.
unfoldable pub release : Ticket → Dialog → Dialog
release t d =
    if t.current == d.revision then record d { busy = false; search_disabled = false } else d

-- The rest of `try`, or `catch`, for an answer to a current search in an open dialog.
unfoldable pub receive : Ticket → Answer → Dialog → Dialog
receive t lost d = clear d
receive t (arrived size view) d =
    if valid view t.sql && leb size 65536 then record d { shown = some view } else clear d

-- The second half of `search`.
unfoldable pub end_search : Ticket → Answer → Dialog → Dialog
end_search t answer d =
    release t (if t.current == d.revision && d.is_open then receive t answer d else d)

-- The event handlers; the `close` event that a closed dialog gets is one more `close_dialog`.
pub data Event : Type 0 where
  open_dialog close_dialog press_search : Event
  type_query choose_sql : String → Event

unfoldable pub handle : Event → Dialog → Option Ticket × Dialog
handle open_dialog d = (none, record (clear d) { sql = "2025"; query = ""; is_open = true })
handle close_dialog d = (none, record (cancel d) { is_open = false })
handle press_search d = begin_search d
handle (type_query text) d = (none, clear (record d { query = text }))
handle (choose_sql version) d = (none, clear (record d { sql = version }))
