-- ===== src/Tunnel/Connection/Examples.antt =====
-- The theorems about the connection of a tunnel at one caller that waits.
use chisel_uds.Prelude.{ℕ, suc, none, some, [], ◌∷◌, ◌++◌, ◌≡◌, refl}
use chisel_uds.Tunnel.Connection.{
  Link, new_link, waiting, answered, bind, get, release_behind, run, step, Reachable, begin, next,
}
use chisel_uds.Tunnel.Connection.Consistent.{IsGated, current, Reachable-IsGated}
use chisel_uds.Tunnel.Connection.Wakes.{Answers, until_served, waiting_wakes}

-- The caller waits behind a connection that has ended; the goroutine of its call has not yet called DoneAll.
abbrev waits : Link
waits = record new_link { getter = waiting; bound = 1; behind = 1 }

waits-Reachable : Reachable waits
unfolding step
waits-Reachable =
    next get
      (next get
        (next bind
          (next bind (next bind (next bind (next bind (next bind begin refl) refl) refl) refl) refl)
          refl)
        refl)
      refl

Reachable-IsGated_example : IsGated waits
Reachable-IsGated_example = Reachable-IsGated waits-Reachable

waiting_wakes_example :
    Answers (until_served waits.binder ++ (get ∷ get ∷ [])) waits
    × ((n : ℕ)
        → waits.behind ≡ suc n
        → run (release_behind ∷ get ∷ get ∷ []) waits
          ≡ some (record waits { gate = 0; behind = n; getter = answered (current waits.binder) }))
waiting_wakes_example = waiting_wakes waits waits-Reachable refl

-- Nothing above is cancelled, and the caller is woken without a connection.
wakes_empty :
    run (release_behind ∷ get ∷ get ∷ []) waits
    ≡ some (record waits { gate = 0; behind = 0; getter = answered none })
unfolding run
wakes_empty = refl
