-- ===== src/Tunnel/Examples.antt =====
-- The theorems about the tunnel at concrete systems, histories and streams.
use chisel_uds.Prelude.{
  has_suffix, arith, false, true, codes, [], ◌∷◌, ◌++◌, List, ◌≡◌, refl, none, some, ◌↔◌, text_eq,
  has_byte,
}
use chisel_uds.Settings.Remote.Types.{Remote, empty_remote, uds_mode_listen}
use chisel_uds.Tunnel.Proxy.{
  System, socket, listen, restrict, listen_unix, close_unix, make_directory, stat, remove,
  resolve_unix, refused, dispatch, state_change, EndpointState, tcp, resolve_tcp, listen_tcp,
  resolve_udp, listen_udp,
}
use chisel_uds.Tunnel.Proxy.Life.{Opened, Listens, listen_lem}
use chisel_uds.Tunnel.Pair.{Visit, arrives, leaves, visits}
use chisel_uds.Tunnel.Pair.Matching.{Implements, spec_visits, visits_refines}
use chisel_uds.Tunnel.Pair.Relay.{first, second, relay_uds_pair, opened, closed, relay-closed}
use chisel_uds.Settings.Remote.Print.{remote}
use chisel_uds.Tunnel.Outbound.{handle_ssh_channel, udp_service, served, rejected}
use chisel_uds.Settings.Remote.Tokens.{l4_proto}
use chisel_uds.Tunnel.Outbound.Serves.{extra_data, Ends, handle_ssh_channel-remote}
use chisel_uds.Tunnel.Bind.{bind_remotes, opened as opened_reports, proxy_log, bind_remotes-refused}
use chisel_uds.Tunnel.Streams.{
  Streams, accept, start, step, Reachable, begin, next, no_streams, StreamState, stream_event,
}
use chisel_uds.Tunnel.Streams.Events.{IsConsistent, Reachable-IsConsistent}

abbrev socket_remote : Remote
socket_remote = record empty_remote { uds_mode = uds_mode_listen; uds_socket_path = codes "/s" }

-- a stale socket is there, and the mode of the new one cannot be changed
abbrev stubborn : System
stubborn = record {
  answer = λ c. elim c [
    | make_directory p ↦ none
    | stat p ↦ none
    | remove p ↦ none
    | resolve_unix p ↦ none
    | listen_unix p ↦ none
    | restrict p ↦ some (codes "no")
    | close_unix p ↦ none
    | resolve_tcp a ↦ none
    | listen_tcp a ↦ none
    | resolve_udp a ↦ none
    | listen_udp a ↦ none
  ];
  file_info = λ path. socket;
}

closes_on_error : listen stubborn (codes "p") socket_remote ≡ (
  make_directory (codes "/s")
      ∷ stat (codes "/s")
      ∷ remove (codes "/s")
      ∷ resolve_unix (codes "/s")
      ∷ listen_unix (codes "/s")
      ∷ restrict (codes "/s")
      ∷ close_unix (codes "/s")
      ∷ [],
  refused (codes "p: chmod unix socket: no"),
)
unfolding listen text_eq
closes_on_error = refl

listen_lem_example :
    Opened stubborn (codes "/s") (listen stubborn (codes "p") socket_remote)
    × Listens (listen stubborn (codes "p") socket_remote) (dispatch socket_remote)
listen_lem_example = listen_lem stubborn (codes "p") socket_remote

abbrev history : List Visit
history =
    arrives (codes "/s") 1
    ∷ arrives (codes "/s") 2
    ∷ arrives (codes "/s") 3
    ∷ leaves (codes "/s") 3
    ∷ arrives (codes "/s") 4
    ∷ []

visits_refines_example :
    Implements (visits history []).0 (spec_visits history (λ path. none)).0
    × ((visits history []).1 ≡ (spec_visits history (λ path. none)).1)
visits_refines_example = visits_refines history

relay-closed_example :
    let (calls, e) = relay_uds_pair none (some (codes "no")) first in
    (closed first calls ≡ opened first calls)
    × ((e ≡ none) ↔ ((opened first calls ≡ true) × (opened second calls ≡ true)))
relay-closed_example = relay-closed none (some (codes "no")) first first

abbrev after_accept : Streams
after_accept = record no_streams {
  waiting = 1;
  events = stream_event (codes "1") empty_remote 5 StreamState.accepted 1 [] (codes "unix") ∷ [];
}

abbrev after_start : Streams
after_start = record after_accept { count = 1; waiting = 0; numbered = 1 ∷ [] }

after_start-Reachable : Reachable (codes "1") empty_remote (codes "unix") after_start
unfolding step
after_start-Reachable = next 6 start (next 5 accept begin refl) refl

Reachable-IsConsistent_example : IsConsistent after_start
Reachable-IsConsistent_example =
    Reachable-IsConsistent (codes "1") empty_remote (codes "unix") after_start after_start-Reachable

abbrev web_remote : Remote
web_remote = record empty_remote { local_proto = codes "tcp"; local_port = codes "80" }

bind_remotes-refused_example :
    bind_remotes stubborn (codes "tun") (codes "1") true (web_remote ∷ socket_remote ∷ []) ≡ (
      opened_reports stubborn (codes "tun") (codes "1") (web_remote ∷ [])
          ++ (state_change (codes "1") socket_remote EndpointState.pending []
              ∷ state_change (codes "1") socket_remote EndpointState.failed (
                  proxy_log stubborn (codes "tun") (codes "1") socket_remote
                  ++ codes ": chmod unix socket: "
                  ++ codes "no")
              ∷ []),
      refused (
          proxy_log stubborn (codes "tun") (codes "1") socket_remote
          ++ codes ": chmod unix socket: "
          ++ codes "no"),
    )
unfolding listen text_eq
bind_remotes-refused_example =
    bind_remotes-refused stubborn (codes "tun") (codes "1") (web_remote ∷ []) [] socket_remote
      (proxy_log stubborn (codes "tun") (codes "1") socket_remote
        ++ codes ": chmod unix socket: "
        ++ codes "no")
      ((tcp, refl), tt) refl

-- a remote of UDP
abbrev name_remote : Remote
name_remote = record empty_remote {
  local_proto = codes "udp";
  remote_host = codes "DNS";
  remote_port = codes "53";
}

handle_ssh_channel-remote_example :
    Ends true false none name_remote
      (record { count = 4; open_now = 2 })
      (handle_ssh_channel true false none
        (extra_data name_remote)
        (record { count = 4; open_now = 2 }))
unfolding text_eq has_byte
handle_ssh_channel-remote_example =
    handle_ssh_channel-remote true false none name_remote (record { count = 4; open_now = 2 }) refl
      refl (ground arith)

serves_udp :
    (handle_ssh_channel true false none
      (extra_data name_remote)
      (record { count = 4; open_now = 2 })).1
    ≡ served (udp_service (codes "dns:53"))
unfolding handle_ssh_channel extra_data dispatch remote l4_proto text_eq has_suffix
serves_udp = refl

denies_outbound :
    (handle_ssh_channel false true none (codes "db:1") (record { count = 4; open_now = 2 })).1
    ≡ rejected (codes "Denied outbound connection")
unfolding handle_ssh_channel
denies_outbound = refl
