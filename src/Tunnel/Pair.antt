-- ===== src/Tunnel/Pair.antt =====
-- share/tunnel/tunnel_in_proxy_uds_pair.go: the registry that pairs the proxies of one socket path.
-- The queue is read and written under the lock, so each locked block is one step. A waiter is a
-- number, since the code compares waiters as pointers.
pub mod Matching
pub mod Relay
use chisel_uds.Prelude.{
  ℕ, Text, Bool, true, false, Option, none, some, List, [], ◌∷◌, ◌++◌, ◌==◌, if◌then◌else◌,
}
use chisel_uds.Prelude.Dict.{Dict, lookup, insert, remove}

-- waiters map[string][]*udsPairWaiter
abbrev pub Registry : Type 0
Registry = Dict (List ℕ)

-- a missing key reads as the empty queue
unfoldable pub queue_of : Text → Registry → List ℕ
queue_of path r = elim (lookup path r) [ none ↦ [] | some queue ↦ queue ]

-- The locked block of `run`: the waiter that is paired with `self`, if there is one.
unfoldable pub arrive : Text → ℕ → Registry → Registry × Option ℕ
unfolding queue_of
arrive path self r = elim (queue_of path r) [
  | [] ↦ (insert path (self ∷ []) r, none)
  | peer ∷ rest ↦ (insert path rest r, some peer)
]

-- The queue without the first waiter that is `waiter`; `none` if there is none.
unfoldable pub without : ℕ → List ℕ → Option (List ℕ)
without waiter [] = none
without waiter (w ∷ rest) =
    let more = without waiter rest in
    if w == waiter then some rest else (elim more [ none ↦ none | some ws ↦ some (w ∷ ws) ])

unfoldable pub remove_waiter : Text → ℕ → Registry → Registry
unfolding queue_of without
remove_waiter path waiter r = elim (without waiter (queue_of path r)) [
  | none ↦ r
  | some [] ↦ remove path (insert path [] r)
  | some (w ∷ ws) ↦ insert path (w ∷ ws) r
]

-- What the runs of proxies do to the registry.
pub data Visit : Type 0 where
  arrives : Text → ℕ → Visit
  -- the context of a waiting proxy is cancelled
  leaves : Text → ℕ → Visit

-- A pair is the one that waited, and the one that came.
unfoldable pub visit : Visit → Registry → Registry × Option (ℕ × ℕ)
unfolding arrive remove_waiter
visit (arrives path self) r =
    let (r', peer) = arrive path self r in (r', elim peer [ none ↦ none | some p ↦ some (p, self) ])
visit (leaves path waiter) r = (remove_waiter path waiter r, none)

-- The registry after a history, and the pairs that it made, in order.
unfoldable pub visits : List Visit → Registry → Registry × List (ℕ × ℕ)
unfolding visit
visits [] r = (r, [])
visits (v ∷ rest) r =
    let (r1, pair) = visit v r in
    let (r2, pairs) = visits rest r1 in (r2, elim pair [ none ↦ pairs | some p ↦ p ∷ pairs ])
