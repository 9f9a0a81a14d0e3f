-- ===== src/Prelude/ErrGroup.antt =====
-- The package golang.org/x/sync/errgroup as the code uses it: functions that run in a group, the context
-- that WithContext derives, and what Wait gives once all have returned.
pub mod Examples
use mathlib.Core.Path.{◌≡◌, refl}
use mathlib.Core.Bool.{Bool, false, true, ◌||◌}
use mathlib.Core.Option.{Option, none, some}
use Prim.Native.Nat.{ℕ, zero, suc, ◌+◌, ◌-◌}
use chisel_uds.Prelude.Strings.{Text}

abbrev pub is_some {ℓ} : {A : Type ℓ} → Option A → Bool
is_some none = false
is_some (some a) = true

-- the first of two errors
abbrev pub earlier : Option Text → Option Text → Option Text
earlier none e = e
earlier (some d) e = some d

pub earlier-is_some : (d e : Option Text) → is_some (earlier d e) ≡ (is_some d || is_some e)
earlier-is_some none e = refl
earlier-is_some (some t) e = refl

pub record ErrGroup : Type 1 where
  pub Group : Type 0
  -- errgroup.WithContext
  pub with_context : Group
  -- Go: one more function runs
  pub go : Group → Group
  -- one of the running functions returns
  pub returns : Option Text → Group → Group
  pub running : Group → ℕ
  -- the first error that a function returned, which Wait returns
  pub error : Group → Option Text
  -- the group has cancelled its context
  pub cancelled : Group → Bool
  pub running_with_context : running with_context ≡ 0
  pub running_go : (g : Group) → running (go g) ≡ running g + 1
  pub running_returns : (e : Option Text) (g : Group) → running (returns e g) ≡ running g - 1
  pub error_with_context : error with_context ≡ none
  pub error_go : (g : Group) → error (go g) ≡ error g
  pub error_returns : (e : Option Text) (g : Group) → error (returns e g) ≡ earlier (error g) e
  pub cancelled_with_context : cancelled with_context ≡ false
  pub cancelled_go : (g : Group) → cancelled (go g) ≡ cancelled g
  pub cancelled_returns :
      (e : Option Text) (g : Group) → cancelled (returns e g) ≡ (cancelled g || is_some e)

-- What Wait comes to in a state: it waits, or it returns the error of the group.
pub data Waiting : Type 0 where
  waits : Waiting
  returned : Option Text → Waiting

-- by the number of running functions and the first error
unfoldable pub wait_for : ℕ → Option Text → Waiting
wait_for zero e = returned e
wait_for (suc n) e = waits
