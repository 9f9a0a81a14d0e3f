-- ===== src/Tunnel/Proxy/Life.antt =====
-- What a proxy does to the system while it comes to listen, and what it reports over its life.
use chisel_uds.Prelude.{
  Text, codes, Bool, true, false, ◌&&◌, Option, none, some, List, [], ◌∷◌, ◌++◌, text_eq,
  if◌then◌else◌, ◌≡◌, inl, inr, refl, arith, All, Option-cases, sym, subst,
}
use chisel_uds.Settings.Remote.Types.{Remote, is_uds, uds_mode_listen, uds_mode_pair}
use chisel_uds.Settings.Remote.Print.{local}
use chisel_uds.Tunnel.Proxy.{
  Call, make_directory, stat, remove, resolve_unix, listen_unix, restrict, close_unix, resolve_tcp,
  listen_tcp, resolve_udp, listen_udp, FileInfo, missing, unreadable, socket, other_file, System,
  Tried, refused, done, Io, Listener, no_listener, unix, tcp, udp, open_socket, restrict_or_close,
  listen_on_socket, listen, Runner, stdio_runner, pair_runner, unix_runner, tcp_runner, udp_runner,
  on_tcp, on_udp, dispatch,
}

-- whether a Unix listener is open after the calls
pub leaves_open : System → List Call → Bool → Bool
leaves_open sys [] is_open = is_open
leaves_open sys (c ∷ rest) is_open = elim c [
  | make_directory p ↦ leaves_open sys rest is_open
  | stat p ↦ leaves_open sys rest is_open
  | remove p ↦ leaves_open sys rest is_open
  | resolve_unix p ↦ leaves_open sys rest is_open
  | listen_unix p ↦ (elim (sys.answer (listen_unix p)) [
    | none ↦ leaves_open sys rest true
    | some e ↦ leaves_open sys rest is_open
  ])
  | restrict p ↦ leaves_open sys rest is_open
  | close_unix p ↦ leaves_open sys rest false
  | resolve_tcp a ↦ leaves_open sys rest is_open
  | listen_tcp a ↦ leaves_open sys rest is_open
  | resolve_udp a ↦ leaves_open sys rest is_open
  | listen_udp a ↦ leaves_open sys rest is_open
]

-- A file is removed only if it is a socket.
pub SparesFiles : System → Call → Type 0
SparesFiles sys (remove p) = sys.file_info p ≡ socket
SparesFiles sys c = Unit

pub is_unix : Tried Listener → Bool
is_unix (refused e) = false
is_unix (done no_listener) = false
is_unix (done unix) = true
is_unix (done tcp) = false
is_unix (done udp) = false

-- What a socket's listener shows: the file's mode is restricted to its owner and group.
pub record Opened (sys : System) (path : Text) (result : Io Listener) : Type 0 where
  pub no_leak : leaves_open sys result.0 false ≡ is_unix result.1
  pub spares : All (SparesFiles sys) result.0
  pub restricted : result.1 ≡ done unix → sys.answer (restrict path) ≡ none

open_socket-Opened : (sys : System) (log path : Text) → Opened sys path (open_socket sys log path)
unfolding open_socket leaves_open SparesFiles is_unix
open_socket-Opened sys log path = elim (Option-cases (sys.answer (resolve_unix path))) [
  | inr (e, q) ↦
      rw (open_socket, q)
        (record { no_leak = refl; spares = (tt, tt); restricted = λ h. absurd cc })
  | inl q ↦ elim (Option-cases (sys.answer (listen_unix path))) [
    | inr (e, p) ↦
        rw (open_socket, q, p)
          (record {
            no_leak = rw (leaves_open, p) refl;
            spares = (tt, (tt, tt));
            restricted = λ h. absurd cc;
          })
    | inl p ↦ elim (Option-cases (sys.answer (restrict path))) [
      | inr (e, o) ↦
          rw (open_socket, q, p, restrict_or_close, o)
            (record {
              no_leak = rw (leaves_open, p) refl;
              spares = (tt, (tt, (tt, (tt, tt))));
              restricted = λ h. absurd cc;
            })
      | inl o ↦
          rw (open_socket, q, p, restrict_or_close, o)
            (record {
              no_leak = rw (leaves_open, p) refl;
              spares = (tt, (tt, (tt, tt)));
              restricted = λ h. o;
            })
    ]
  ]
]

listen_on_socket-found :
    (sys : System) (log path : Text) (i : FileInfo)
    → sys.answer (make_directory path) ≡ none
    → sys.file_info path ≡ i
    → Opened sys path (listen_on_socket sys log path)
unfolding listen_on_socket leaves_open SparesFiles is_unix
listen_on_socket-found sys log path missing q f =
    let o = open_socket-Opened sys log path in
    rw (listen_on_socket, q, f)
      (record { no_leak = o.no_leak; spares = (tt, (tt, o.spares)); restricted = o.restricted })
listen_on_socket-found sys log path (unreadable e) q f =
    rw (listen_on_socket, q, f)
      (record { no_leak = refl; spares = (tt, (tt, tt)); restricted = λ h. absurd cc })
listen_on_socket-found sys log path other_file q f =
    rw (listen_on_socket, q, f)
      (record { no_leak = refl; spares = (tt, (tt, tt)); restricted = λ h. absurd cc })
listen_on_socket-found sys log path socket q f = elim (Option-cases (sys.answer (remove path))) [
  | inr (e, p) ↦
      rw (listen_on_socket, q, f, p)
        (record { no_leak = refl; spares = (tt, (tt, (f, tt))); restricted = λ h. absurd cc })
  | inl p ↦
      let o = open_socket-Opened sys log path in
      rw (listen_on_socket, q, f, p)
        (record {
          no_leak = o.no_leak;
          spares = (tt, (tt, (f, o.spares)));
          restricted = o.restricted;
        })
]

listen_on_socket-Opened :
    (sys : System) (log path : Text) → Opened sys path (listen_on_socket sys log path)
unfolding listen_on_socket leaves_open SparesFiles is_unix
listen_on_socket-Opened sys log path = elim (Option-cases (sys.answer (make_directory path))) [
  | inr (e, q) ↦
      rw (listen_on_socket, q)
        (record { no_leak = refl; spares = (tt, tt); restricted = λ h. absurd cc })
  | inl q ↦ listen_on_socket-found sys log path _ q refl
]

-- which function serves which listener
pub Serves : Listener → Runner → Type 0
Serves no_listener stdio_runner = Unit
Serves no_listener pair_runner = Unit
Serves unix unix_runner = Unit
Serves tcp tcp_runner = Unit
Serves udp udp_runner = Unit
Serves l runner = ⊥

-- What `Run` hands over to, for a proxy that listens.
pub Listens : Io Listener → Option Runner → Type 0
Listens (calls, refused e) d = Unit
Listens (calls, done l) d = (runner : Runner) × (d ≡ some runner) × Serves l runner

-- what is shown of `listen`
abbrev Good : System → Text → Io Listener → Option Runner → Type 0
Good sys path result d = Opened sys path result × Listens result d

listens_by :
    (sys : System) (path : Text) (result : Io Listener) (l : Listener) (runner : Runner)
    → Opened sys path result
    → ((m : Listener) → result.1 ≡ done m → m ≡ l)
    → Serves l runner
    → Good sys path result (some runner)
unfolding Listens
listens_by sys path (calls, refused e) l runner o m s = (o, tt)
listens_by sys path (calls, done k) l runner o m s =
    (o, (runner, refl, subst (λ x. Serves x runner) (sym (m k refl)) s))

on_tcp-Opened :
    (sys : System) (log path addr : Text)
    → Opened sys path (on_tcp sys log addr)
      × ((m : Listener) → (on_tcp sys log addr).1 ≡ done m → m ≡ tcp)
unfolding leaves_open SparesFiles is_unix
on_tcp-Opened sys log path addr = elim (Option-cases (sys.answer (resolve_tcp addr))) [
  | inr (e, q) ↦
      rw (on_tcp, q)
        (
          record { no_leak = refl; spares = (tt, tt); restricted = λ h. absurd cc },
          λ m h. absurd cc,
        )
  | inl q ↦ elim (Option-cases (sys.answer (listen_tcp addr))) [
    | inr (e, p) ↦
        rw (on_tcp, q, p)
          (
            record { no_leak = refl; spares = (tt, (tt, tt)); restricted = λ h. absurd cc },
            λ m h. absurd cc,
          )
    | inl p ↦
        rw (on_tcp, q, p)
          (
            record { no_leak = refl; spares = (tt, (tt, tt)); restricted = λ h. absurd cc },
            λ m h. cc,
          )
  ]
]

on_udp-Opened :
    (sys : System) (log path addr : Text)
    → Opened sys path (on_udp sys log addr)
      × ((m : Listener) → (on_udp sys log addr).1 ≡ done m → m ≡ udp)
unfolding leaves_open SparesFiles is_unix
on_udp-Opened sys log path addr = elim (Option-cases (sys.answer (resolve_udp addr))) [
  | inr (e, q) ↦
      rw (on_udp, q)
        (
          record { no_leak = refl; spares = (tt, tt); restricted = λ h. absurd cc },
          λ m h. absurd cc,
        )
  | inl q ↦ elim (Option-cases (sys.answer (listen_udp addr))) [
    | inr (e, p) ↦
        rw (on_udp, q, p)
          (
            record { no_leak = refl; spares = (tt, (tt, tt)); restricted = λ h. absurd cc },
            λ m h. absurd cc,
          )
    | inl p ↦
        rw (on_udp, q, p)
          (
            record { no_leak = refl; spares = (tt, (tt, tt)); restricted = λ h. absurd cc },
            λ m h. cc,
          )
  ]
]

listens_nothing :
    (sys : System) (path : Text) (runner : Runner)
    → Serves no_listener runner
    → Good sys path ([], done no_listener) (some runner)
unfolding leaves_open SparesFiles is_unix Listens
listens_nothing sys path runner s =
    (record { no_leak = refl; spares = tt; restricted = λ h. absurd cc }, (runner, refl, s))

listens_unknown : (sys : System) (path e : Text) → Good sys path ([], refused e) none
unfolding leaves_open SparesFiles is_unix Listens
listens_unknown sys path e =
    (record { no_leak = refl; spares = tt; restricted = λ h. absurd cc }, tt)

listen_on_socket-unix :
    (sys : System) (log path : Text) (m : Listener)
    → (listen_on_socket sys log path).1 ≡ done m
    → m ≡ unix
unfolding listen_on_socket
listen_on_socket-unix sys log path m h = ground arith

-- the tests that `listen` and `Run` both make, in order
chain {ℓ} : {A : Type ℓ} → Bool → Bool → Bool → Bool → Bool → A → A → A → A → A → A → A
chain s a b c d x1 x2 x3 x4 x5 x6 =
    if s then x1 else if a then x2 else if b then x3 else if c then x4 else if d then x5 else x6

chain_both {ℓ κ} :
    {A : Type ℓ} {B : Type κ} (P : A → B → Type 0) (s a b c d : Bool) (x1 x2 x3 x4 x5 x6 : A)
    (y1 y2 y3 y4 y5 y6 : B)
    → P x1 y1
    → P x2 y2
    → P x3 y3
    → P x4 y4
    → P x5 y5
    → P x6 y6
    → P (chain s a b c d x1 x2 x3 x4 x5 x6) (chain s a b c d y1 y2 y3 y4 y5 y6)
unfolding chain
chain_both P true a b c d x1 x2 x3 x4 x5 x6 y1 y2 y3 y4 y5 y6 h1 h2 h3 h4 h5 h6 = h1
chain_both P false true b c d x1 x2 x3 x4 x5 x6 y1 y2 y3 y4 y5 y6 h1 h2 h3 h4 h5 h6 = h2
chain_both P false false true c d x1 x2 x3 x4 x5 x6 y1 y2 y3 y4 y5 y6 h1 h2 h3 h4 h5 h6 = h3
chain_both P false false false true d x1 x2 x3 x4 x5 x6 y1 y2 y3 y4 y5 y6 h1 h2 h3 h4 h5 h6 = h4
chain_both P false false false false true x1 x2 x3 x4 x5 x6 y1 y2 y3 y4 y5 y6 h1 h2 h3 h4 h5 h6 = h5
chain_both P false false false false false x1 x2 x3 x4 x5 x6 y1 y2 y3 y4 y5 y6 h1 h2 h3 h4 h5 h6 =
    h6

-- A proxy that comes to listen has the listener that its `Run` uses, which then does not panic. Whatever
-- the system answers, a file is removed only if it is a socket; a Unix listener stays open exactly if
-- `listen` succeeds with it, so no error path leaks one; and then the socket's mode is restricted.
pub listen_lem :
    (sys : System) (log : Text) (r : Remote)
    → Opened sys r.uds_socket_path (listen sys log r) × Listens (listen sys log r) (dispatch r)
unfolding listen dispatch Serves chain
listen_lem sys log r =
    let path = r.uds_socket_path in
    let (t, ts) = on_tcp-Opened sys log path (r.local_host ++ b':' ∷ r.local_port) in
    let (u, us) = on_udp-Opened sys log path (local r) in
    chain_both (Good sys path) r.stdio (is_uds r && text_eq r.uds_mode uds_mode_pair)
      (is_uds r && text_eq r.uds_mode uds_mode_listen) (text_eq r.local_proto (codes "tcp"))
      (text_eq r.local_proto (codes "udp")) _ _ _ _ _ _ _ _ _ _ _ _
      (listens_nothing sys path stdio_runner tt) (listens_nothing sys path pair_runner tt)
      (listens_by sys path _ unix unix_runner (listen_on_socket-Opened sys log path)
        (listen_on_socket-unix sys log path) tt)
      (listens_by sys path _ tcp tcp_runner t ts tt) (listens_by sys path _ udp udp_runner u us tt)
      (listens_unknown sys path (log ++ codes ": unknown local proto"))
