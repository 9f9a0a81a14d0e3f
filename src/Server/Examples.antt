-- ===== src/Server/Examples.antt =====
-- The theorems about the handler at a server with one user and one connection.
use chisel_uds.Prelude.{
  codes, true, false, ◌^◌, ◌-◌, [], ◌∷◌, ◌≡◌, refl, none, some, text_eq, cut, arith,
}
use chisel_uds.Prelude.Dict.{lookup, insert, remove}
use chisel_uds.Monitor.{new_monitor_state}
use chisel_uds.Settings.Users.{
  entries, load_user_index, decode_users, decode_addrs, parse_auth, len, get, set, del, has_access,
}
use chisel_uds.Settings.Users.Examples.{exact_texts, ann}
use chisel_uds.Settings.Remote.Types.{Remote, empty_remote}
use chisel_uds.Settings.Remote.Print.{Host, user_addr}
use chisel_uds.Server.{
  Request, arrives, channel_closed, serving, crashed, rejected, ServerState, auth_user,
  after_handshake, Connection, handle_websocket, itoa,
}
use chisel_uds.Server.Handshake.{
  Authenticated, auth_user_lem, Session, handle_websocket_lem, reload-crashed,
}

abbrev database : Remote
database = record empty_remote {
  local_port = codes "5432";
  remote_host = codes "db";
  remote_port = codes "5432";
}

abbrev host : Host
host = record { listens_tcp = λ a. true; listens_udp = λ a. true; has_directory = λ p. true }

abbrev server : ServerState exact_texts
server = record {
  users = (codes "ann", ann) ∷ [];
  sessions = [];
  monitor = new_monitor_state;
  sess_count = 0;
}

abbrev log_in : ServerState exact_texts → ServerState exact_texts
log_in s = (auth_user exact_texts (codes "hash") (codes "ann") (codes "x:y") s).0

abbrev request : Request
request = record { kind = codes "config"; config = some (some database ∷ []) }

abbrev connection : Connection exact_texts
connection = record {
  remote_addr = codes "10.0.0.1:999";
  started = 5;
  decided = 9;
  upgrade_error = none;
  handshake = log_in;
  handshake_error = none;
  ssh_session_id = codes "hash";
  request = arrives request;
}

serves_database :
    (handle_websocket exact_texts false host connection server).1 ≡ serving (database ∷ [])
unfolding handle_websocket auth_user get set del len lookup insert remove text_eq has_access
    user_addr
serves_database = refl

denies_other :
    (handle_websocket exact_texts false host
      (record connection {
        request =
            arrives (record { kind = codes "config"; config = some (some empty_remote ∷ []) });
      })
      server).1
    ≡ rejected (codes "server: access to ':' denied")
unfolding handle_websocket auth_user get set del len lookup insert remove text_eq has_access
    user_addr
denies_other = refl

crashes_nil :
    (handle_websocket exact_texts false host
      (record connection {
        request = arrives (record { kind = codes "config"; config = some (none ∷ []) });
      })
      server).1
    ≡ crashed
unfolding handle_websocket auth_user get set del len lookup insert remove text_eq has_access
    user_addr
crashes_nil = refl

-- A client that ends its connection before its request
crashes_closed :
    (handle_websocket exact_texts false host
      (record connection { request = channel_closed })
      server).1
    ≡ crashed
unfolding handle_websocket auth_user get set del len lookup insert remove text_eq
crashes_closed = refl

itoa_example : itoa (2 ^ 32 - 12) ≡ codes "-12"
unfolding itoa
itoa_example = refl

handle_websocket_lem_example :
    Session exact_texts false host connection server
      (handle_websocket exact_texts false host connection server)
handle_websocket_lem_example = handle_websocket_lem exact_texts false host connection server

auth_user_lem_example :
    Authenticated exact_texts
      (codes "hash")
      (codes "ann")
      (codes "x:y")
      server
      (auth_user exact_texts (codes "hash") (codes "ann") (codes "x:y") server)
auth_user_lem_example = auth_user_lem exact_texts (codes "hash") (codes "ann") (codes "x:y") server

abbrev open_server : ServerState exact_texts
open_server = record server { users = [] }

abbrev reloaded : ServerState exact_texts
reloaded = record open_server {
  users = (load_user_index exact_texts (entries ((codes "ann:x:y", []) ∷ [])) []).0;
}

reload-crashed_example :
    (auth_user exact_texts (codes "hash") (codes "ann") [] open_server ≡ (open_server, true))
    × (after_handshake exact_texts 9
          (codes "1")
          (codes "hash")
          false
          host
          (arrives request)
          reloaded
        ≡ (reloaded, crashed))
unfolding len get lookup load_user_index decode_users decode_addrs parse_auth cut insert text_eq
reload-crashed_example =
    reload-crashed exact_texts 9 (codes "1") (codes "hash") (codes "ann") [] false host
      (arrives request) (entries ((codes "ann:x:y", []) ∷ [])) open_server refl refl (ground arith)
