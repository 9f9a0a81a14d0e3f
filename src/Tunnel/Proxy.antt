-- ===== src/Tunnel/Proxy.antt =====
-- share/tunnel/tunnel_in_proxy.go: how a proxy comes to listen, and how its life is reported.
-- The system is given by what it answers to each call; `Io` keeps the calls that were made, in order.
pub mod Life
use chisel_uds.Prelude.{
  ℕ, Text, codes, Bool, true, false, ◌&&◌, Option, none, some, List, [], ◌∷◌, ◌++◌, text_eq,
  if◌then◌else◌,
}
use chisel_uds.Settings.Remote.Types.{Remote, is_uds, uds_mode_listen, uds_mode_pair}
use chisel_uds.Settings.Remote.Print.{local, to_string}

-- EndpointState
pub data EndpointState : Type 0 where
  pending active failed closed : EndpointState

pub record EndpointStateChange : Type 0 where
  pub session_id : Text
  pub descriptor : Text
  pub state : EndpointState
  pub error : Text

-- The calls of `listen` on the system.
pub data Call : Type 0 where
  -- os.MkdirAll(filepath.Dir(path), 0o755)
  make_directory : Text → Call
  -- os.Stat
  stat : Text → Call
  -- os.Remove
  remove : Text → Call
  -- net.ResolveUnixAddr and net.ListenUnix
  resolve_unix : Text → Call
  listen_unix : Text → Call
  -- os.Chmod(path, 0o660)
  restrict : Text → Call
  -- l.Close()
  close_unix : Text → Call
  resolve_tcp : Text → Call
  listen_tcp : Text → Call
  resolve_udp : Text → Call
  listen_udp : Text → Call

-- What os.Stat says: os.IsNotExist(err), another error, or whether the file is a socket.
pub data FileInfo : Type 0 where
  missing : FileInfo
  unreadable : Text → FileInfo
  socket : FileInfo
  other_file : FileInfo

pub record System : Type 0 where
  -- the error of a call, if it has one
  pub answer : Call → Option Text
  pub file_info : Text → FileInfo

pub data Tried {ℓ} (A : Type ℓ) : Type ℓ where
  refused : Text → Tried A
  done : A → Tried A

abbrev pub Io {ℓ} : Type ℓ → Type ℓ
Io A = List Call × Tried A

module _ {ℓ κ} {A : Type ℓ} {B : Type κ} where
  infixl 5 ◌>>=◌
  abbrev pub ◌>>=◌ : Io A → (A → Io B) → Io B
  (calls, refused e) >>= next = (calls, refused e)
  (calls, done a) >>= next = (calls ++ (next a).0, (next a).1)

infixl 5 ◌>>◌
abbrev pub ◌>>◌ {ℓ} : {B : Type ℓ} → Io (Unit {0}) → Io B → Io B
first >> second = first >>= (λ _. second)

abbrev look : Call → Io (Unit {0})
look c = (c ∷ [], done tt)

abbrev give {ℓ} : {A : Type ℓ} → A → Io A
give a = ([], done a)

-- The listener that a proxy holds.
pub data Listener : Type 0 where
  no_listener unix tcp udp : Listener

-- emitEndpointState, with a callback set
abbrev pub state_change : Text → Remote → EndpointState → Text → EndpointStateChange
state_change session_id r state message = record {
  session_id = session_id;
  descriptor = to_string r;
  state = state;
  error = message;
}

-- The functions that `Run` hands over to, each of which returns an error or none.
pub data Runner : Type 0 where
  stdio_runner pair_runner unix_runner tcp_runner udp_runner : Runner

-- the dispatch of `Run`; `none` is its panic
unfoldable pub dispatch : Remote → Option Runner
unfolding is_uds
dispatch r =
    if r.stdio
    then some stdio_runner
    else if is_uds r && text_eq r.uds_mode uds_mode_pair
    then some pair_runner
    else if is_uds r && text_eq r.uds_mode uds_mode_listen
    then some unix_runner
    else if text_eq r.local_proto (codes "tcp")
    then some tcp_runner
    else if text_eq r.local_proto (codes "udp")
    then some udp_runner
    else none

-- What `Run` reports, for an active proxy: the deferred call.
abbrev pub run_changes : Text → Remote → List EndpointStateChange
run_changes session_id r = state_change session_id r closed [] ∷ []

module _ (sys : System) where
  -- A call whose error goes back in a message that begins with `prefix`.
  abbrev call : Text → Call → Io (Unit {0})
  call prefix c = (c ∷ [], elim (sys.answer c) [ none ↦ done tt | some e ↦ refused (prefix ++ e) ])

  -- the end of `removeUnixSocketIfExists`, for what `os.Stat` said
  abbrev remove_found : Text → Text → FileInfo → Io (Unit {0})
  remove_found prefix path missing = ([], done tt)
  remove_found prefix path (unreadable e) = ([], refused (prefix ++ e))
  remove_found prefix path socket = call prefix (remove path)
  remove_found prefix path other_file =
      ([], refused (prefix ++ codes "path exists and is not a unix socket: " ++ path))

  -- The prefix is the caller's.
  unfoldable pub remove_unix_socket_if_exists : Text → Text → Io (Unit {0})
  remove_unix_socket_if_exists prefix path =
      look (stat path) >> remove_found prefix path (sys.file_info path)

  -- os.Chmod, and the close of the listener if it fails
  abbrev pub restrict_or_close : Text → Text → Io Listener
  restrict_or_close log path = elim (sys.answer (restrict path)) [
    | none ↦ (restrict path ∷ [], done unix)
    | some e ↦
        (restrict path ∷ close_unix path ∷ [], refused (log ++ codes ": chmod unix socket: " ++ e))
  ]

  unfoldable pub open_socket : Text → Text → Io Listener
  open_socket log path = do
    call (log ++ codes ": resolve unix: ") (resolve_unix path)
    call (log ++ codes ": unix: ") (listen_unix path)
    restrict_or_close log path

  unfoldable pub listen_on_socket : Text → Text → Io Listener
  unfolding remove_unix_socket_if_exists open_socket
  listen_on_socket log path = do
    call (log ++ codes ": mkdir: ") (make_directory path)
    remove_unix_socket_if_exists (log ++ codes ": cleanup stale socket: ") path
    open_socket log path

  abbrev pub on_tcp : Text → Text → Io Listener
  on_tcp log addr = do
    call (log ++ codes ": resolve: ") (resolve_tcp addr)
    call (log ++ codes ": tcp: ") (listen_tcp addr)
    give tcp

  -- listenUDP
  abbrev pub on_udp : Text → Text → Io Listener
  on_udp log addr = do
    call (log ++ codes ": resolve: ") (resolve_udp addr)
    call (log ++ codes ": listen: ") (listen_udp addr)
    give udp

  -- `log` is the prefix of the proxy's logger
  unfoldable pub listen : Text → Remote → Io Listener
  unfolding is_uds local listen_on_socket
  listen log r =
      if r.stdio
      then ([], done no_listener)
      else if is_uds r && text_eq r.uds_mode uds_mode_pair
      then ([], done no_listener)
      else if is_uds r && text_eq r.uds_mode uds_mode_listen
      then listen_on_socket log r.uds_socket_path
      else if text_eq r.local_proto (codes "tcp")
      then on_tcp log (r.local_host ++ b':' ∷ r.local_port)
      else if text_eq r.local_proto (codes "udp")
      then on_udp log (local r)
      else ([], refused (log ++ codes ": unknown local proto"))

  -- The changes that `NewProxy` reports, and the listener of the proxy or the error.
  unfoldable pub new_proxy : Text → Text → Remote → List EndpointStateChange × Tried Listener
  new_proxy log session_id r = elim (listen log r).1 [
    | refused e ↦
        (state_change session_id r pending [] ∷ state_change session_id r failed e ∷ [], refused e)
    | done l ↦
        (state_change session_id r pending [] ∷ state_change session_id r active [] ∷ [], done l)
  ]

  -- The changes that a proxy reports from its making to the end of its run.
  unfoldable pub life : Text → Text → Remote → List EndpointStateChange
  unfolding new_proxy
  life log session_id r =
      let (changes, made) = new_proxy log session_id r in
      elim made [ refused e ↦ changes | done l ↦ changes ++ run_changes session_id r ]
