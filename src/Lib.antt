-- ===== src/Lib.antt =====
-- chisel-uds: a TCP, UDP and Unix socket tunnel over SSH over WebSockets.
--
-- A client connects to the server over a WebSocket, logs in over SSH and sends its remotes. The
-- server checks them against the user's addresses, and both ends then run a tunnel: for each
-- remote one end has a proxy that listens, and sends each connection through an SSH channel to the
-- other. The server's monitor and its publisher of metrics are told of sessions, endpoints and
-- streams.
--
-- Prelude: names of the libraries, Boolean tests, lists, texts as lists of bytes with the
-- functions of the package `strings` that the program calls (Strings), Go maps as association
-- lists (Dict), `sort.Slice` as an insertion sort (Sort), integers over the native numbers (Int).
--
-- Settings: share/settings. Remote is remote.go: `decode_remote` is DecodeRemote, with the regular
-- expressions in Tokens and `decodeUDSRemote` in Uds; Print has `String`, `Encode`, `UserAddr` and
-- the other methods. Number and HostPort are strconv.Atoi and net.SplitHostPort as the code uses
-- them. Users is user.go and users.go: `load_user_index` is loadUserIndex, the methods of Users
-- keep their names; Users/Index is UserIndex over its life, with the server's AddUser, DeleteUser
-- and ResetUsers (`server_add_user`, ...), LoadUsers (`load_users`) and the loop of addWatchEvents
-- (`on_event`). Environment is env.go: `env_int` is EnvInt.
--
-- Monitor: server/monitor_state.go, a method of monitorState for each function: markSessionPending
-- is `mark_session_pending`, and so on; `snapshot` keeps its name.
--
-- Server: server/server.go and server/server_handler.go. `auth_user` is authUser, and
-- handleWebsocket is `handle_websocket`, which is made of `begin_session`, `pull_user`,
-- `check_request` and `validate` for the loop over the remotes. Endpoints is
-- onEndpointStateChange, Otel is server/otel.go with the methods of Server that feed it. Listener
-- is server/server_listen.go: `listener` and `add_ca` keep their names. Setup is NewServer in the
-- parts that `from_key` and `from_pem` begin, and handleClientHandler as `route`. Lifecycle is
-- Start, StartContext, Run and Wait. Session is the end of handleWebsocket, behind the handshake,
-- and Logins puts authUser on the users of Settings.
--
-- Tunnel: share/tunnel. Proxy and Streams are tunnel_in_proxy.go: `listen`, `new_proxy` and
-- `dispatch` (Run), and the connections of a proxy as interleaved steps. Pair is
-- tunnel_in_proxy_uds_pair.go: `arrive` is the locked block of `run`, `remove_waiter` is
-- removeWaiter, and `relay_uds_pair` keeps its name. Bind is BindRemotes of tunnel.go up to the
-- run of the proxies. Outbound is tunnel_out_ssh.go and share/cnet/connstats.go:
-- `handle_ssh_channel` is handleSSHChannel, and `extra_data` is what the proxies give to OpenChannel.
-- Connection is the rest of tunnel.go: BindSSH, its
-- goroutines, each with the context of its call, and getSSH as interleaved steps, with
-- keepAliveLoop; WaitGroup is wg.go, a step for
-- each write of a counter. Running is the errgroup that both ends run BindSSH or connectionLoop
-- in, with BindRemotes and its own group of proxies. PipeRemote is pipeRemote with
-- openRemoteStream, and runTCP, runUnix and runStdio. UdpHandler is tunnel_out_ssh_udp.go, with
-- the goroutines that read, and UdpListener is tunnel_in_proxy_udp.go, with both loops: a round of
-- a loop is a step, as `inbound_round` of runInbound.
--
-- Cnet: share/cnet/conn_ws.go, `read` and `write` of wsConn; Meter is meter.go, and HttpServer is
-- http_server.go with the two goroutines of GoServe. Client: client/client_connect.go,
-- `connection_loop` is connectionLoop; Setup is client/client.go: `new_client` is NewClient in the
-- parts that `from_tls`, `from_remotes` and `from_proxy` begin, and `verify_server` is
-- verifyServer. Connect is connectionOnce as `connection_once`. Lifecycle is Start, Wait and
-- Close.
--
-- Cio: share/cio. Pipe is pipe.go, its goroutines as interleaved steps; Logger is logger.go, the
-- loggers as a store with the pointers between them (`fork`, `is_on`, `logf`).
--
-- Commands: main.go, `server` and `client` with the settings of their flags.
--
-- Keys: share/ccrypto, with the names of its functions: `read_bytes` is determRand.Read,
-- `seed_pem` is Seed2PEM, `chisel_key_pem` is ChiselKey2PEM. What a run draws from rand.Reader for a
-- key without a seed is an argument, `draw`.
--
-- Bounds: a loop that takes parts off a text has the text's length as fuel, and each part takes a
-- byte; `digits_of` has one more than the number. A read of the deterministic reader has a round
-- for each byte of its buffer, and a round fills at least one. `sess_count` wraps at 2^32, and
-- `itoa` prints it as an int32. A stream's number is taken to be below 2^31 where it is printed.
--
-- Parameters: url.Parse and what CanListen asks of the system, the package regexp, the answers of
-- the system to the calls of `listen`, the packages backoff and errgroup (Prelude/ErrGroup),
-- fmt.Sprintf for the loggers, the messages of a WebSocket, the SSH handshake and the WebSocket
-- upgrade as what they came to, sockets and gob as what they answered, the files, the packages
-- tls, x509, base64 and pem, the curve and the hashes, and the clock. Case folding and trimming
-- are those of ASCII text.
--
-- Not modelled: what only calls libraries: the printing of the log, tracing spans and the set-up
-- of their exporter, the parsing of flags, the SOCKS server, signals and profiling. That a
-- goroutine of a step relation can step means that it is not held by the others; how long the
-- system takes is left open.
mod Prelude
pub mod Monitor
pub mod Settings
pub mod Server
pub mod Tunnel
pub mod Cnet
pub mod Client
pub mod Keys
pub mod Commands
pub mod Cio
