-- ===== src/Tunnel/WaitGroup/Races.antt =====
-- What the counters of the wait group have in common, and when it panics.
use chisel_uds.Prelude.{◌+◌, ◌<◌, true, false, ◌≡◌, refl, arith}
use chisel_uds.Tunnel.WaitGroup.{
  WaitGroup, new_group, Step, add_n, add_inner, swap, done_inner, negative, Reach, here, later,
}

-- The two counters agree up to the goroutines that stand between their writes.
abbrev pub Balanced : WaitGroup → Type 0
Balanced s = s.n + s.finishing ≡ s.inner + s.adding

Step-Balanced : {s t : WaitGroup} → Step s t → Balanced s → Balanced t
Step-Balanced (add_n p h) b = omega arith
Step-Balanced (add_inner p h) b = omega arith
Step-Balanced (swap p h) b = omega arith
Step-Balanced (done_inner p f i) b = omega arith
Step-Balanced (negative p f i) b = b

-- In every state that goroutines can bring about, in any order of their writes, the two counters agree up
-- to those that stand between two writes.
pub Reach-Balanced : {s t : WaitGroup} → Balanced s → Reach s t → Balanced t
Reach-Balanced b here = b
Reach-Balanced b (later r st) = Step-Balanced st (Reach-Balanced b r)

needs_add :
    {s t : WaitGroup}
    → Step s t
    → s.panicked ≡ false
    → t.panicked ≡ true
    → Balanced s
    → 0 < s.adding
needs_add (add_n p h) f e b = absurd (ground arith)
needs_add (add_inner p h) f e b = absurd (ground arith)
needs_add (swap p h) f e b = absurd (ground arith)
needs_add (done_inner p g i) f e b = absurd (ground arith)
needs_add (negative p g i) f e b = omega arith

-- A step panics only while another goroutine stands inside `Add`, between its two writes.
pub panic_needs_add :
    {s t : WaitGroup}
    → Reach new_group s
    → Step s t
    → s.panicked ≡ false
    → t.panicked ≡ true
    → 0 < s.adding
panic_needs_add r st f e = needs_add st f e (Reach-Balanced (omega arith) r)

-- And it can: from any state with nothing to wait for, an `Add` whose second write comes after a
-- concurrent `DoneAll` makes the group panic.
pub add_races :
    (s : WaitGroup)
    → Reach new_group s
    → s.panicked ≡ false
    → s.n ≡ 0
    → s.inner ≡ 0
    → (t : WaitGroup) × Reach s t × (t.panicked ≡ true)
add_races s r f z i = (
  _,
  later (later (later here (add_n f (omega arith))) (swap {m = s.n} f (omega arith)))
      (negative f (omega arith) i),
  refl,
)
