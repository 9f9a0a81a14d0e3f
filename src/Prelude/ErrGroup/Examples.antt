-- ===== src/Prelude/ErrGroup/Examples.antt =====
-- A group that counts its functions and keeps the first error.
use mathlib.Core.Path.{refl}
use mathlib.Core.Option.{Option, none}
use Prim.Native.Nat.{ℕ, ◌+◌, ◌-◌}
use chisel_uds.Prelude.Strings.{Text}
use chisel_uds.Prelude.ErrGroup.{ErrGroup, is_some, earlier, earlier-is_some}

pub record Tally : Type 0 where
  pub count : ℕ
  pub first : Option Text

abbrev pub tally : ErrGroup
tally = record {
  Group = Tally;
  with_context = record { count = 0; first = none };
  go = λ g. record g { count = g.count + 1 };
  returns = λ e g. record { count = g.count - 1; first = earlier g.first e };
  running = λ g. g.count;
  error = λ g. g.first;
  cancelled = λ g. is_some g.first;
  running_with_context = refl;
  running_go = λ g. refl;
  running_returns = λ e g. refl;
  error_with_context = refl;
  error_go = λ g. refl;
  error_returns = λ e g. refl;
  cancelled_with_context = refl;
  cancelled_go = λ g. refl;
  cancelled_returns = λ e g. earlier-is_some g.first e;
}
