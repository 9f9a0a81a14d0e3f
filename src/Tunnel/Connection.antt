-- ===== src/Tunnel/Connection.antt =====
-- share/tunnel/tunnel.go: the SSH connection of a tunnel, as the steps of BindSSH, of its goroutines that
-- wait for the context, and of one caller of getSSH.
-- Each call of BindSSH has a context of its own: connectionOnce of the client, and the errgroup of the
-- server's handler, cancel it once the call has returned, and it is done before if a context above it is.
-- The caller of getSSH has another.
-- One BindSSH runs at a time, as both the client and the server call it. Connections are numbered in the
-- order in which they are bound. A call of the wait group is one step here; WaitGroup has its writes.

pub mod Consistent
pub mod Wakes
mod Examples
use chisel_uds.Prelude.{
  ℕ, zero, suc, ◌+◌, ◌-◌, Text, Bool, true, false, not, ◌&&◌, Option, none, some, List, [], ◌∷◌,
  ltb, length, text_eq, codes, if◌then◌else◌, ◌≡◌,
}

-- Where BindSSH stands: before a call, behind the start of its goroutine, behind `activeConn = c`, behind
-- `Done`, behind `c.Wait()`, and behind `Add(1)`.
pub data Binder : Type 0 where
  idle : Binder
  linked : ℕ → Binder
  marked : ℕ → Binder
  serving : ℕ → Binder
  ended : ℕ → Binder
  barred : ℕ → Binder

-- Where a caller stands in getSSH: before and behind the test of the context, at the select, behind
-- `activatingConnWait`, and behind its return
pub data Getter : Type 0 where
  fresh : Getter
  looking : Getter
  waiting : Getter
  woken : Getter
  answered : Option ℕ → Getter

-- `active` is activeConn, `gate` the counter of activatingConn. `watches`: the goroutine of the running
-- call of BindSSH waits for its context; `behind`: so many goroutines of calls that have returned have not
-- yet called DoneAll. `cancelled`: a context above that of the running call is done; `caller_done`: the one
-- of the caller of getSSH is.
pub record Link : Type 0 where
  pub active : Option ℕ
  pub gate : ℕ
  pub binder : Binder
  pub bound : ℕ
  pub watches : Bool
  pub behind : ℕ
  pub cancelled : Bool
  pub caller_done : Bool
  pub getter : Getter
  pub panicked : Bool

-- New
abbrev pub new_link : Link
new_link = record {
  active = none;
  gate = 1;
  binder = idle;
  bound = 0;
  watches = false;
  behind = 0;
  cancelled = false;
  caller_done = false;
  getter = fresh;
  panicked = false;
}

-- how many goroutines wait for the context of the running call
abbrev pub watchers : Bool → ℕ
watchers true = 1
watchers false = 0

-- The next step of BindSSH, or its next call. Its last one returns, and its context is then cancelled.
unfoldable pub bind_ssh : Binder → Link → Link
bind_ssh idle s = record s { binder = linked s.bound; bound = s.bound + 1; watches = true }
bind_ssh (linked c) s = elim s.active [
  | none ↦ record s { active = some c; binder = marked c }
  | some _ ↦ record s { panicked = true }
]
bind_ssh (marked c) s = record s { gate = s.gate - 1; binder = serving c }
bind_ssh (serving c) s = record s { binder = ended c }
bind_ssh (ended c) s = record s { gate = s.gate + 1; binder = barred c }
bind_ssh (barred c) s = record s {
  active = none;
  binder = idle;
  watches = false;
  behind = s.behind + watchers s.watches;
}

-- The next step of getSSH; `none`: it blocks, or has returned.
unfoldable pub get_ssh : Getter → Link → Option Link
get_ssh fresh s = some (record s { getter = if s.caller_done then answered none else looking })
get_ssh looking s = elim s.active [
  | none ↦ some (record s { getter = waiting })
  | some c ↦ some (record s { getter = answered (some c) })
]
get_ssh waiting s = elim s.gate [ zero ↦ some (record s { getter = woken }) | suc _ ↦ none ]
get_ssh woken s = some (record s { getter = answered s.active })
get_ssh (answered c) s = none

-- the other cases of the select: the context is done, or the time is over
unfoldable pub give_up : Getter → Link → Option Link
give_up waiting s = some (record s { getter = answered none })
give_up fresh s = none
give_up looking s = none
give_up woken s = none
give_up (answered c) s = none

-- `DoneAll` of the goroutine of the running call, which a context above has released
unfoldable pub done_all : Bool → Link → Option Link
done_all false s = none
done_all true s = if s.cancelled then some (record s { gate = 0; watches = false }) else none

-- `DoneAll` of a goroutine whose call has returned, by how many there are
unfoldable pub done_behind : ℕ → Link → Option Link
done_behind zero s = none
done_behind (suc n) s = some (record s { gate = 0; behind = n })

pub data Action : Type 0 where
  bind : Action
  get : Action
  stop_waiting : Action
  -- a new call of getSSH
  call_get : Action
  cancel : Action
  cancel_caller : Action
  release : Action
  release_behind : Action

unfoldable pub step : Action → Link → Option Link
unfolding bind_ssh get_ssh give_up done_all done_behind
step bind s = if s.panicked then none else some (bind_ssh s.binder s)
step get s = get_ssh s.getter s
step stop_waiting s = give_up s.getter s
step call_get s = some (record s { getter = fresh })
step cancel s = some (record s { cancelled = true })
step cancel_caller s = some (record s { caller_done = true })
step release s = done_all s.watches s
step release_behind s = done_behind s.behind s

pub data Reachable : Link → Type 0 where
  begin : Reachable new_link
  next : {s s' : Link} (a : Action) → Reachable s → step a s ≡ some s' → Reachable s'

-- The state after actions that happen in this order.
unfoldable pub run : List Action → Link → Option Link
unfolding step
run [] s = some s
run (a ∷ rest) s = elim (step a s) [ none ↦ none | some s' ↦ run rest s' ]

-- What `SendRequest` of a ping came to
pub data Ping : Type 0 where
  failed : Ping
  reply : Text → Ping

-- keepAliveLoop: whether it closes the connection after these pings
unfoldable pub keep_alive : List Ping → Bool
keep_alive [] = false
keep_alive (failed ∷ rest) = true
keep_alive (reply b ∷ rest) =
    let later = keep_alive rest in
    if ltb 0 (length b) && not (text_eq b (codes "pong")) then true else later
