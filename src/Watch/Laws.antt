-- ===== src/Watch/Laws.antt =====
-- Late answers to the watch of resources.
use sql_server_lab.Prelude.{false, ◌≡◌, ◌<◌}
use sql_server_lab.Session.{Answer}
use sql_server_lab.Session.Laws.{looked_stale}
use sql_server_lab.Watch.{Dialog, Ticket, receive, release, end_request}

-- An answer that comes after the dialog has been closed or opened anew changes nothing.
end_request_stale :
    (t : Ticket) (a : Answer) (d : Dialog) → t.revision < d.revision → end_request t a d ≡ d
unfolding end_request release
end_request_stale t a d h =
    looked_stale (λ (x : Dialog). x.revision) (λ (x : Dialog). record x { busy = false }) t.revision
      d.is_open (receive a d) d h
