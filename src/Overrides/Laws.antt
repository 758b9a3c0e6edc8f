-- ===== src/Overrides/Laws.antt =====
-- What the user can do while a request for media sources waits: close the dialog.
use sql_server_lab.Prelude.{true, ◌≡◌, refl, arith}
use sql_server_lab.Overrides.{
  Dialog, controls, Event, open_dialog, close_dialog, press_read, press_preview, press_reset,
  press_apply, choose, type_url, is_possible,
}

-- While an open dialog waits for an answer, every event that the controls allow is its closing; so
-- the source and the address that it shows are those that the request was made for.
only_closing :
    (e : Event) (d : Dialog)
    → d.busy ≡ true
    → d.is_open ≡ true
    → is_possible e d ≡ true
    → e ≡ close_dialog
unfolding is_possible controls
only_closing close_dialog d b o h = refl
only_closing open_dialog d b o h = absurd (ground (arith, o, h))
only_closing press_read d b o h = absurd (ground (arith, b, h))
only_closing press_preview d b o h = absurd (ground (arith, b, h))
only_closing press_reset d b o h = absurd (ground (arith, b, h))
only_closing press_apply d b o h = absurd (ground (arith, b, h))
only_closing (choose id) d b o h = absurd (ground (arith, b, h))
only_closing (type_url text) d b o h = absurd (ground (arith, b, h))
