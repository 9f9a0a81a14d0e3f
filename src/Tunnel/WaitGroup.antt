-- ===== src/Tunnel/WaitGroup.antt =====
-- share/tunnel/wg.go: the wait group of a tunnel, used by any number of goroutines at once.
-- `Add` writes its two counters one after the other, and so does `Done`. A compare-and-swap of `Done` that
-- succeeds takes one off `n`; one that fails, and a load, change nothing and are left out.
pub mod Races
mod Examples
use chisel_uds.Prelude.{ℕ, zero, suc, ◌+◌, ◌^◌, ◌<◌, Bool, true, false, ◌≡◌}

-- `n`, the counter of the inner group, and how many goroutines stand between the two writes of `Add` and of
-- `Done`. `panicked`: the inner counter would have become negative.
pub record WaitGroup : Type 0 where
  pub n : ℕ
  pub inner : ℕ
  pub adding : ℕ
  pub finishing : ℕ
  pub panicked : Bool

abbrev pub new_group : WaitGroup
new_group = record { n = 0; inner = 0; adding = 0; finishing = 0; panicked = false }

-- One write of one goroutine. The tunnel adds one at a time, and `n` is an int32.
pub data Step (s : WaitGroup) : WaitGroup → Type 0 where
  -- atomic.AddInt32(&w.n, 1)
  add_n :
      s.panicked ≡ false
      → s.n + 1 < 2 ^ 31
      → Step s (record s { n = s.n + 1; adding = s.adding + 1 })
  -- w.inner.Add(1)
  add_inner :
      {a : ℕ}
      → s.panicked ≡ false
      → s.adding ≡ suc a
      → Step s (record s { inner = s.inner + 1; adding = a })
  -- n > 0 && atomic.CompareAndSwapInt32(&w.n, n, n-1)
  swap :
      {m : ℕ}
      → s.panicked ≡ false
      → s.n ≡ suc m
      → Step s (record s { n = m; finishing = s.finishing + 1 })
  -- w.inner.Done()
  done_inner :
      {f i : ℕ}
      → s.panicked ≡ false
      → s.finishing ≡ suc f
      → s.inner ≡ suc i
      → Step s (record s { inner = i; finishing = f })
  -- the same at zero
  negative :
      s.panicked ≡ false → 0 < s.finishing → s.inner ≡ 0 → Step s (record s { panicked = true })

pub data Reach (s : WaitGroup) : WaitGroup → Type 0 where
  here : Reach s s
  later : {t u : WaitGroup} → Reach s t → Step t u → Reach s u
