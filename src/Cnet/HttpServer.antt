-- ===== src/Cnet/HttpServer.antt =====
-- share/cnet/http_server.go: the HTTP server that can be waited for. Of net/http, Serve returns an error
-- that is not nil, http.ErrServerClosed if the server was closed; Close closes the server for good. The
-- package errgroup is a parameter.
pub mod Waits
mod Examples
use chisel_uds.Prelude.{
  ℕ, zero, suc, Text, codes, Bool, true, false, Option, none, some, List, [], ◌∷◌, text_eq, ◌≡◌,
  ◌≢◌, ◌||◌, if◌then◌else◌,
}
use chisel_uds.Prelude.ErrGroup.{ErrGroup, Waiting, returned, wait_for}

-- http.ErrServerClosed
abbrev pub server_closed : Text
server_closed = codes "http: Server closed"

abbrev pub not_started : Text
not_started = codes "not started yet"

-- the end of Wait: ErrServerClosed is a success
unfoldable pub waited : Option Text → Option Text
waited none = none
waited (some e) = if text_eq e server_closed then none else some e

module _ (errgroup : ErrGroup) where
  open errgroup use {Group, with_context, go, returns, running, error, cancelled}

  -- What one call of GoServe started: its group with the goroutine of Serve, whether the context that it was
  -- given is done, and the goroutine that waits for the derived context.
  pub record Service : Type 0 where
    pub group : Group
    pub parent_done : Bool
    pub serving : Bool
    pub watching : Bool

  -- `shutdown`: Close of http.Server was called. The newest service comes first; its group is the waiter.
  pub record HttpServer : Type 0 where
    pub shutdown : Bool
    pub services : List Service

  abbrev pub new_http_server : HttpServer
  new_http_server = record { shutdown = false; services = [] }

  -- GoServe, with whether its context is set
  unfoldable pub go_serve : Bool → HttpServer → HttpServer × Option Text
  go_serve false h = (h, some (codes "ctx must be set"))
  go_serve true h = (
    record h {
      services =
          record { group = go with_context; parent_done = false; serving = true; watching = true }
          ∷ h.services;
    },
    none,
  )

  -- GoListenAndServeContext, with the error of net.Listen
  unfoldable pub go_listen_and_serve_context :
      Bool → Option Text → HttpServer → HttpServer × Option Text
  unfolding go_serve
  go_listen_and_serve_context false e h = (h, some (codes "ctx must be set"))
  go_listen_and_serve_context true (some e) h = (h, some e)
  go_listen_and_serve_context true none h = go_serve true h

  -- Close, with what http.Server.Close returns, by the services; h.waiter is nil if there is none
  unfoldable pub close_with : List Service → Option Text → HttpServer → HttpServer × Option Text
  close_with [] e h = (h, some not_started)
  close_with (s ∷ ss) e h = (record h { shutdown = true }, e)

  unfoldable pub close : Option Text → HttpServer → HttpServer × Option Text
  unfolding close_with
  close e h = close_with h.services e h

  unfoldable pub wait_newest : List Service → Waiting
  unfolding waited
  wait_newest [] = returned (some not_started)
  wait_newest (s ∷ ss) = wait_for (running s.group) (waited (error s.group))

  unfoldable pub wait : HttpServer → Waiting
  unfolding wait_newest
  wait h = wait_newest h.services

  -- the context that the second goroutine waits for
  abbrev pub is_done : Service → Bool
  is_done s = s.parent_done || cancelled s.group

  -- How a service moves on, with whether the server is shut down before and after.
  pub data Moves : Bool → Service → Bool → Service → Type 0 where
    -- the context that GoServe was given is cancelled
    cancels : {b : Bool} {s : Service} → Moves b s b (record s { parent_done = true })
    -- Accept fails while the server is not closed
    fails :
        {s : Service} (e : Text)
        → s.serving ≡ true
        → e ≢ server_closed
        → Moves false s false (record s { serving = false; group = returns (some e) s.group })
    -- Serve finds that the server was closed
    ends :
        {s : Service}
        → s.serving ≡ true
        → Moves true s true
            (record s { serving = false; group = returns (some server_closed) s.group })
    -- the second goroutine calls Close
    closes :
        {b : Bool} {s : Service}
        → s.watching ≡ true
        → is_done s ≡ true
        → Moves b s true (record s { watching = false })

  -- A move of one of the services
  pub data MovesIn : Bool → List Service → Bool → List Service → Type 0 where
    newest :
        {b c : Bool} {s t : Service} {ss : List Service}
        → Moves b s c t
        → MovesIn b (s ∷ ss) c (t ∷ ss)
    older :
        {b c : Bool} {s : Service} {ss ts : List Service}
        → MovesIn b ss c ts
        → MovesIn b (s ∷ ss) c (s ∷ ts)

  -- The states that a server can reach, by calls and by what its goroutines do
  pub data Reachable : HttpServer → Type 0 where
    begin : Reachable new_http_server
    serves : {h : HttpServer} (set : Bool) → Reachable h → Reachable (go_serve set h).0
    is_closed : {h : HttpServer} (e : Option Text) → Reachable h → Reachable (close e h).0
    moves :
        {b c : Bool} {ss ts : List Service}
        → Reachable (record { shutdown = b; services = ss })
        → MovesIn b ss c ts
        → Reachable (record { shutdown = c; services = ts })

  -- What the goroutines can do in some time
  pub data Run : HttpServer → HttpServer → Type 0 where
    stay : {h : HttpServer} → Run h h
    then_moves :
        {h : HttpServer} {b c : Bool} {ss ts : List Service}
        → Run h (record { shutdown = b; services = ss })
        → MovesIn b ss c ts
        → Run h (record { shutdown = c; services = ts })
