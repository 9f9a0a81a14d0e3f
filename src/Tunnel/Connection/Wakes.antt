-- ===== src/Tunnel/Connection/Wakes.antt =====
-- A caller that waits in getSSH is woken.
use chisel_uds.Prelude.{
  ℕ, suc, ◌≤◌, true, false, Option, none, some, List, [], ◌∷◌, ◌++◌, ◌≡◌, refl, arith, sym, subst,
  ap, ◌∙◌,
}
use chisel_uds.Tunnel.Connection.{
  Binder, idle, linked, marked, serving, ended, barred, waiting, woken, answered, Link, bind_ssh,
  get_ssh, Action, bind, get, release_behind, done_behind, step, Reachable, run,
}
use chisel_uds.Tunnel.Connection.Consistent.{current, opened, bind_linked, Reachable-IsGated}

-- The steps of BindSSH up to the next connection that it serves, if it serves none.
unfoldable pub until_served : Binder → List Action
until_served idle = bind ∷ bind ∷ bind ∷ []
until_served (linked c) = bind ∷ bind ∷ []
until_served (marked c) = bind ∷ []
until_served (serving c) = []
until_served (ended c) = []
until_served (barred c) = bind ∷ bind ∷ bind ∷ bind ∷ []

-- After these actions the caller has the connection that is then active.
abbrev pub Answers : List Action → Link → Type 0
Answers actions s =
    (c : ℕ) × (t : Link) × (run actions s ≡ some t)
    × (t.getter ≡ answered (some c))
    × (t.active ≡ some c)

run_first :
    (a : Action) (rest : List Action) (s t : Link)
    → step a s ≡ some t
    → run (a ∷ rest) s ≡ run rest t
unfolding run
run_first a rest s t e = ap (λ (o : Option Link). elim o [ none ↦ none | some u ↦ run rest u ]) e

step_bind : (s : Link) → s.panicked ≡ false → step bind s ≡ some (bind_ssh s.binder s)
unfolding step
step_bind s p = ground arith

gate_opens :
    (s : Link) → s.getter ≡ waiting → s.gate ≡ 0 → step get s ≡ some (record s { getter = woken })
unfolding step get_ssh
gate_opens s w z = ground arith

bind_first :
    (b : Binder) (rest : List Action) (s : Link)
    → s.binder ≡ b
    → s.panicked ≡ false
    → Answers rest (bind_ssh b s)
    → Answers (bind ∷ rest) s
bind_first b rest s e p (c, t, r, g, a) = (
  c,
  t,
  run_first bind rest s (bind_ssh b s) (step_bind s p ∙ ap (λ k. some (bind_ssh k s)) e) ∙ r,
  g,
  a,
)

abbrev two_gets : List Action
two_gets = get ∷ get ∷ []

from_serving :
    (c : ℕ) (s : Link) → s.active ≡ some c → s.gate ≡ 0 → s.getter ≡ waiting → Answers two_gets s
unfolding run step get_ssh
from_serving c s a z w = (
  c,
  _,
  run_first get (get ∷ []) s (record s { getter = woken }) (gate_opens s w z),
  ap answered a,
  a,
)

from_marked :
    (c : ℕ) (s : Link)
    → s.binder ≡ marked c
    → s.panicked ≡ false
    → s.active ≡ some c
    → s.gate ≤ 1
    → s.getter ≡ waiting
    → Answers (bind ∷ two_gets) s
unfolding bind_ssh
from_marked c s b p a z w =
    bind_first (marked c) two_gets s b p (from_serving c (bind_ssh (marked c) s) a (omega arith) w)

from_linked :
    (c : ℕ) (s : Link)
    → s.binder ≡ linked c
    → s.panicked ≡ false
    → s.active ≡ none
    → s.gate ≤ 1
    → s.getter ≡ waiting
    → Answers (bind ∷ bind ∷ two_gets) s
from_linked c s b p a z w = bind_first (linked c) (bind ∷ two_gets) s b p (
    subst (Answers (bind ∷ two_gets)) (sym (bind_linked c s a))
      (from_marked c (record s { active = some c; binder = marked c }) refl p refl z w))

from_idle :
    (s : Link)
    → s.binder ≡ idle
    → s.panicked ≡ false
    → s.active ≡ none
    → s.gate ≤ 1
    → s.getter ≡ waiting
    → Answers (bind ∷ bind ∷ bind ∷ two_gets) s
unfolding bind_ssh
from_idle s b p a z w =
    bind_first idle (bind ∷ bind ∷ two_gets) s b p
      (from_linked s.bound (bind_ssh idle s) refl p a z w)

from_barred :
    (c : ℕ) (s : Link)
    → s.binder ≡ barred c
    → s.panicked ≡ false
    → s.gate ≤ 1
    → s.getter ≡ waiting
    → Answers (bind ∷ bind ∷ bind ∷ bind ∷ two_gets) s
unfolding bind_ssh
from_barred c s b p z w =
    bind_first (barred c) (bind ∷ bind ∷ bind ∷ two_gets) s b p
      (from_idle (bind_ssh (barred c) s) refl p refl z w)

wakes_at :
    (b : Binder) (s : Link)
    → s.binder ≡ b
    → s.panicked ≡ false
    → s.active ≡ current b
    → s.gate ≤ 1
    → (opened b ≡ true → s.gate ≡ 0)
    → s.getter ≡ waiting
    → Answers (until_served b ++ two_gets) s
unfolding until_served current opened
wakes_at idle s b p a z o w = from_idle s b p a z w
wakes_at (linked c) s b p a z o w = from_linked c s b p a z w
wakes_at (marked c) s b p a z o w = from_marked c s b p a z w
wakes_at (serving c) s b p a z o w = from_serving c s a (o refl) w
wakes_at (ended c) s b p a z o w = from_serving c s a (o refl) w
wakes_at (barred c) s b p a z o w = from_barred c s b p z w

-- DoneAll of a goroutine that a returned call left wakes the caller, who reads what is active.
released_wakes :
    (n : ℕ) (s : Link)
    → s.behind ≡ suc n
    → s.getter ≡ waiting
    → run (release_behind ∷ get ∷ get ∷ []) s
      ≡ some (record s { gate = 0; behind = n; getter = answered s.active })
unfolding run step get_ssh done_behind
released_wakes n s b w =
    run_first release_behind two_gets s (record s { gate = 0; behind = n }) (rw (step, b) refl)
    ∙ run_first get (get ∷ []) _ _ (gate_opens (record s { gate = 0; behind = n }) w refl)

-- A caller that waits in getSSH can always be woken, whatever contexts are done: from every reachable state
-- there is a run, in which BindSSH goes on to the next connection that it serves (at once where it serves
-- one) and the caller takes two more steps, after which the caller has returned the connection that is then
-- active. But where a call of BindSSH has returned and its goroutine has not yet called DoneAll, that call
-- wakes the caller as well, which then returns what is active at that moment: no connection, if no other
-- call of BindSSH has set one.
pub waiting_wakes :
    (s : Link)
    → Reachable s
    → s.getter ≡ waiting
    → Answers (until_served s.binder ++ (get ∷ get ∷ [])) s
      × ((n : ℕ)
          → s.behind ≡ suc n
          → run (release_behind ∷ get ∷ get ∷ []) s
            ≡ some (record s { gate = 0; behind = n; getter = answered (current s.binder) }))
waiting_wakes s r w =
    let i = Reachable-IsGated r in
    (
      wakes_at s.binder s refl i.single i.reads i.once i.stands_open w,
      λ n b.
          released_wakes n s b w
          ∙ ap (λ c. some (record s { gate = 0; behind = n; getter = answered c })) i.reads,
    )
