-- ===== src/Tunnel/Connection/Consistent.antt =====
-- What holds of the connection and its gate between the steps of BindSSH.
use chisel_uds.Prelude.{
  ℕ, zero, suc, ◌+◌, ◌≤◌, ◌<◌, ap, Bool, true, false, Option, none, some, if◌then◌else◌, ◌≡◌, refl,
  arith, Option-cases, Bool-cases, sym, subst, inl, inr,
}
use chisel_uds.Tunnel.Connection.{
  Binder, idle, linked, marked, serving, ended, barred, Getter, fresh, looking, waiting, woken,
  answered, Link, bind_ssh, get_ssh, give_up, done_all, Action, done_behind, watchers, bind, get,
  stop_waiting, call_get, cancel, cancel_caller, release, release_behind, step, Reachable, begin,
  next,
}

-- the connection that getSSH may read where BindSSH stands
unfoldable pub current : Binder → Option ℕ
current idle = none
current (linked c) = none
current (marked c) = some c
current (serving c) = some c
current (ended c) = some c
current (barred c) = some c

-- whether the gate stands open there
unfoldable pub opened : Binder → Bool
opened idle = false
opened (linked c) = false
opened (marked c) = false
opened (serving c) = true
opened (ended c) = true
opened (barred c) = false

-- A call behind the start of its goroutine takes the place that is free.
pub bind_linked :
    (c : ℕ) (s : Link)
    → s.active ≡ none
    → bind_ssh (linked c) s ≡ record s { active = some c; binder = marked c }
unfolding bind_ssh
bind_linked c s e = ground arith

-- The connection to read is that of the running call; the gate is closed at most once, and open where that
-- call serves; while no goroutine has called DoneAll it is open only there; and no call found another's
-- connection.
pub record IsGated (s : Link) : Type 0 where
  pub reads : s.active ≡ current s.binder
  pub once : s.gate ≤ 1
  pub stands_open : opened s.binder ≡ true → s.gate ≡ 0
  pub waits : s.behind + watchers s.watches ≤ s.bound
  pub gated : s.bound ≡ s.behind + watchers s.watches → s.gate ≡ (if opened s.binder then 0 else 1)
  pub single : s.panicked ≡ false

bind_at-IsGated :
    (b : Binder) (s : Link)
    → s.active ≡ current b
    → s.gate ≤ 1
    → (opened b ≡ true → s.gate ≡ 0)
    → s.behind + watchers s.watches ≤ s.bound
    → (s.bound ≡ s.behind + watchers s.watches → s.gate ≡ (if opened b then 0 else 1))
    → s.panicked ≡ false
    → IsGated (bind_ssh b s)
unfolding bind_ssh current opened
bind_at-IsGated idle s r c o w g p = record {
  reads = r;
  once = c;
  stands_open = o;
  waits = ground arith;
  gated = λ e. g (ground arith);
  single = p;
}
bind_at-IsGated (linked c) s r h o w g p =
    subst IsGated (sym (bind_linked c s r))
      (record { reads = refl; once = h; stands_open = o; waits = w; gated = g; single = p })
bind_at-IsGated (marked c) s r h o w g p = record {
  reads = r;
  once = omega arith;
  stands_open = λ e. omega arith;
  waits = w;
  gated = λ e. omega arith;
  single = p;
}
bind_at-IsGated (serving c) s r h o w g p = record {
  reads = r;
  once = h;
  stands_open = o;
  waits = w;
  gated = g;
  single = p;
}
bind_at-IsGated (ended c) s r h o w g p = record {
  reads = r;
  once = (let z = o refl in omega arith);
  stands_open = λ e. absurd (ground arith);
  waits = w;
  gated = λ e. (let z = o refl in omega arith);
  single = p;
}
bind_at-IsGated (barred c) s r h o w g p = record {
  reads = refl;
  once = h;
  stands_open = λ e. absurd (ground arith);
  waits = omega arith;
  gated = λ e. g (omega arith);
  single = p;
}

-- getSSH, a new call of it and giving up change nothing that BindSSH reads.
abbrev set_getter : Getter → Link → Link
set_getter g s = record s { getter = g }

get_at : (g : Getter) (s s' : Link) → get_ssh g s ≡ some s' → (g' : Getter) × (s' ≡ set_getter g' s)
unfolding get_ssh
get_at fresh s s' e = (if s.caller_done then answered none else looking, cc)
get_at looking s s' e = elim (Option-cases s.active) [
  | inl n ↦ (waiting, ground arith)
  | inr (c, q) ↦ (answered (some c), ground arith)
]
get_at waiting s s' e = (woken, ground arith)
get_at woken s s' e = (answered s.active, cc)
get_at (answered c) s s' e = absurd (ground arith)

give_up_at :
    (g : Getter) (s s' : Link) → give_up g s ≡ some s' → (g' : Getter) × (s' ≡ set_getter g' s)
unfolding give_up
give_up_at fresh s s' e = absurd (ground arith)
give_up_at looking s s' e = absurd (ground arith)
give_up_at waiting s s' e = (answered none, cc)
give_up_at woken s s' e = absurd (ground arith)
give_up_at (answered c) s s' e = absurd (ground arith)

set_getter-IsGated : (g : Getter) (s s' : Link) → s' ≡ set_getter g s → IsGated s → IsGated s'
set_getter-IsGated g s s' e i = subst IsGated (sym e) (record {
  reads = i.reads;
  once = i.once;
  stands_open = i.stands_open;
  waits = i.waits;
  gated = i.gated;
  single = i.single;
})

-- A goroutine that calls DoneAll opens the gate, and is one less that waits.
release-IsGated :
    (n : ℕ) (w : Bool) (s : Link)
    → n + watchers w < s.behind + watchers s.watches
    → IsGated s
    → IsGated (record s { gate = 0; behind = n; watches = w })
release-IsGated n w s h i =
    let b = i.waits in
    (record {
      reads = i.reads;
      once = omega arith;
      stands_open = λ e. refl;
      waits = omega arith;
      gated = λ e. absurd (omega arith);
      single = i.single;
    })

done_all-IsGated :
    (w : Bool) (s s' : Link) → s.watches ≡ w → done_all w s ≡ some s' → IsGated s → IsGated s'
unfolding done_all
done_all-IsGated false s s' q e i = absurd (ground arith)
done_all-IsGated true s s' q e i = elim (Bool-cases s.cancelled) [
  | inl t ↦
      let r : record s { gate = 0; watches = false } ≡ s' = ground arith in
      let one : watchers s.watches ≡ 1 = ap watchers q in
      subst IsGated r (release-IsGated s.behind false s (omega arith) i)
  | inr f ↦ absurd (ground arith)
]

done_behind-IsGated :
    (n : ℕ) (s s' : Link) → s.behind ≡ n → done_behind n s ≡ some s' → IsGated s → IsGated s'
unfolding done_behind
done_behind-IsGated zero s s' q e i = absurd (ground arith)
done_behind-IsGated (suc n) s s' q e i =
    let r : record s { gate = 0; behind = n } ≡ s' = ground arith in
    subst IsGated r (release-IsGated n s.watches s (omega arith) i)

-- Setting the flag of a context changes nothing that BindSSH reads.
flag-IsGated :
    (c d : Bool) (s : Link) → IsGated s → IsGated (record s { cancelled = c; caller_done = d })
flag-IsGated c d s i = record {
  reads = i.reads;
  once = i.once;
  stands_open = i.stands_open;
  waits = i.waits;
  gated = i.gated;
  single = i.single;
}

step-IsGated : (a : Action) (s s' : Link) → step a s ≡ some s' → IsGated s → IsGated s'
unfolding step
step-IsGated bind s s' e i =
    let p = i.single in
    let q : bind_ssh s.binder s ≡ s' = ground arith in
    subst IsGated q
      (bind_at-IsGated s.binder s i.reads i.once i.stands_open i.waits i.gated i.single)
step-IsGated get s s' e i = let (g, q) = get_at s.getter s s' e in set_getter-IsGated g s s' q i
step-IsGated stop_waiting s s' e i =
    let (g, q) = give_up_at s.getter s s' e in set_getter-IsGated g s s' q i
step-IsGated call_get s s' e i =
    let q : s' ≡ set_getter fresh s = cc in set_getter-IsGated fresh s s' q i
step-IsGated cancel s s' e i =
    let q : record s { cancelled = true } ≡ s' = cc in
    subst IsGated q (flag-IsGated true s.caller_done s i)
step-IsGated cancel_caller s s' e i =
    let q : record s { caller_done = true } ≡ s' = cc in
    subst IsGated q (flag-IsGated s.cancelled true s i)
step-IsGated release s s' e i = done_all-IsGated s.watches s s' refl e i
step-IsGated release_behind s s' e i = done_behind-IsGated s.behind s s' refl e i

-- In every state that steps of BindSSH, its goroutines, getSSH and the contexts can reach, in any order,
-- the connection to read is that of the call of BindSSH that runs; the gate is open while that call
-- serves, and otherwise closed at most once; it is closed exactly once there as long as no goroutine of
-- BindSSH has called DoneAll; and no call panics over another's connection.
pub Reachable-IsGated : {s : Link} → Reachable s → IsGated s
unfolding current opened
Reachable-IsGated begin = record {
  reads = refl;
  once = ground arith;
  stands_open = λ e. absurd (ground arith);
  waits = ground arith;
  gated = λ e. refl;
  single = refl;
}
Reachable-IsGated (next {s} {s'} a r e) = step-IsGated a s s' e (Reachable-IsGated r)
