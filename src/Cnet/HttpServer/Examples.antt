-- ===== src/Cnet/HttpServer/Examples.antt =====
-- The theorems about the HTTP server at a server that is started and closed.
use chisel_uds.Prelude.{true, false, none, some, [], ◌∷◌, ◌≡◌, refl, codes, text_eq}
use chisel_uds.Prelude.ErrGroup.{returned, wait_for}
use chisel_uds.Prelude.ErrGroup.Examples.{tally}
use chisel_uds.Cnet.HttpServer.{
  Service, HttpServer, server_closed, go_serve, close, wait, Reachable, begin, serves, is_closed,
  moves, newest, ends, cancels, Run, new_http_server, stay, then_moves,
}
use chisel_uds.Cnet.HttpServer.Waits.{ServiceOutcome, Ends, Reachable-ServiceOutcome, stops}

abbrev started : Service tally
started = record {
  group = record { count = 1; first = none };
  parent_done = false;
  serving = true;
  watching = true;
}

abbrev ended : Service tally
ended = record started { group = record { count = 0; first = some server_closed }; serving = false }

closed-Reachable : Reachable tally (record { shutdown = true; services = started ∷ [] })
unfolding go_serve close
closed-Reachable = is_closed none (serves true begin)

ended-Reachable : Reachable tally (record { shutdown = true; services = ended ∷ [] })
ended-Reachable = moves closed-Reachable (newest (ends refl))

Reachable-ServiceOutcome_example :
    ServiceOutcome tally true ended (wait tally (record { shutdown = true; services = ended ∷ [] }))
Reachable-ServiceOutcome_example = Reachable-ServiceOutcome tally true ended [] ended-Reachable

cancelled-Reachable :
    Reachable tally
      (record { shutdown = false; services = record started { parent_done = true } ∷ [] })
unfolding go_serve
cancelled-Reachable = moves (serves true begin) (newest cancels)

stops_example :
    (h : HttpServer tally) × Run tally
      (record { shutdown = false; services = record started { parent_done = true } ∷ [] })
      h
    × Ends tally h
stops_example =
    stops tally false (record started { parent_done = true }) [] cancelled-Reachable refl

-- A server that was closed starts again without an error, and ends at once.
abbrev again : HttpServer tally
again = (go_serve tally true (record { shutdown = true; services = ended ∷ [] })).0

restarts : (go_serve tally true (record { shutdown = true; services = ended ∷ [] })).1 ≡ none
unfolding go_serve
restarts = refl

ends_at_once :
    Run tally again (record { shutdown = true; services = ended ∷ ended ∷ [] })
    × (wait tally (record { shutdown = true; services = ended ∷ ended ∷ [] }) ≡ returned none)
unfolding go_serve wait wait_for text_eq
ends_at_once = (then_moves stay (newest (ends refl)), refl)

-- Neither Close nor Wait works before a start.
not_yet :
    ((close tally none (new_http_server tally)).1 ≡ some (codes "not started yet"))
    × (wait tally (new_http_server tally) ≡ returned (some (codes "not started yet")))
unfolding close wait
not_yet = (refl, refl)
