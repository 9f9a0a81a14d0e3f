-- ===== src/Server/Lifecycle.antt =====
-- server/server.go: `Start`, `StartContext`, `Run` and `Wait`, on the listener and the HTTP server.
use chisel_uds.Prelude.{Text, Bool, true, Option, none, some, ◌≡◌, refl, arith, ◌∙◌}
use chisel_uds.Prelude.Result.{Result, err, ok}
use chisel_uds.Prelude.ErrGroup.{ErrGroup, Waiting, waits, returned, wait_for}
use chisel_uds.Server.Listener.{System, TlsConfig, NetListener, listener}
use chisel_uds.Cnet.HttpServer.{HttpServer, go_serve, wait, wait_newest}

module _ (errgroup : ErrGroup) (sys : System) where
  open errgroup use {running, with_context}

  -- by what `listener` gives, with whether the context is set
  unfoldable pub serve_on :
      Result Text NetListener → Bool → HttpServer errgroup → HttpServer errgroup × Option Text
  serve_on (err e) set h = (h, some e)
  serve_on (ok l) set h = go_serve errgroup set h

  unfoldable pub start_context :
      TlsConfig → Bool → Text → Text → HttpServer errgroup → HttpServer errgroup × Option Text
  unfolding serve_on
  start_context c set host port h = serve_on (listener sys c host port) set h

  -- context.Background() is set
  unfoldable pub start :
      TlsConfig → Text → Text → HttpServer errgroup → HttpServer errgroup × Option Text
  unfolding start_context
  start c host port h = start_context c true host port h

  -- `Run` behind `Start`: its error, or what Wait comes to
  unfoldable pub run_from : HttpServer errgroup × Option Text → Waiting
  run_from (h, some e) = returned (some e)
  run_from (h, none) = wait errgroup h

  unfoldable pub run : TlsConfig → Text → Text → HttpServer errgroup → Waiting
  unfolding run_from start
  run c host port h = run_from (start c host port h)

  run_by : Result Text NetListener → HttpServer errgroup → Waiting
  unfolding run_from serve_on
  run_by r h = run_from (serve_on r true h)

  -- A server runs exactly if its listener could be made, and otherwise returns the listener's error.
  pub run_lem :
      (c : TlsConfig) (host port : Text) (h : HttpServer errgroup)
      → run c host port h
        ≡ (elim (listener sys c host port) [ err e ↦ returned (some e) | ok l ↦ waits ])
  unfolding run start start_context run_by run_from serve_on go_serve wait wait_newest wait_for
  run_lem c host port h = by_listener (listener sys c host port)
    where
      by_listener :
          (r : Result Text NetListener)
          → run_by r h ≡ (elim r [ err e ↦ returned (some e) | ok l ↦ waits ])
      by_listener (err e) = refl
      by_listener (ok l) =
          let q : running (errgroup.go with_context) ≡ 1 =
            errgroup.running_go with_context ∙ ground (arith, errgroup.running_with_context) in
          rw q refl
