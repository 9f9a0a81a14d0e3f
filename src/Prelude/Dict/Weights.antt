-- ===== src/Prelude/Dict/Weights.antt =====
-- Sums over the values of a map.
use Prim.Native.Nat.{ℕ, ◌+◌, ◌≤◌}
use mathlib.Core.Path.{◌≡◌, refl}
use mathlib.Core.Option.{Option, none, some}
use mathlib.Core.List.{[], ◌∷◌}
use native.Mathlib.Omega.{arith}
use chisel_uds.Prelude.Strings.{Text, text_eq_iff}
use chisel_uds.Prelude.Lists.{length}
use chisel_uds.Prelude.Dict.{Dict, lookup, insert, remove, IsMap}

module _ {ℓ} {V : Type ℓ} (w : V → ℕ) where
  unfoldable pub weigh : Dict V → ℕ
  weigh [] = 0
  weigh ((k, v) ∷ m) = w v + weigh m

  abbrev pub weigh_found : Option V → ℕ
  weigh_found none = 0
  weigh_found (some v) = w v

  pub weigh-insert :
      (k : Text) (v : V) (m : Dict V)
      → weigh (insert k v m) + weigh_found (lookup k m) ≡ weigh m + w v
  unfolding weigh insert lookup
  weigh-insert k v [] = omega arith
  weigh-insert k v ((j, u) ∷ m) = ground (arith, weigh-insert k v m)

  remove_missing : (k : Text) (m : Dict V) → lookup k m ≡ none → remove k m ≡ m
  unfolding remove lookup
  remove_missing k [] h = refl
  remove_missing k ((j, u) ∷ m) h = ground (arith, remove_missing k m)

  pub weigh-remove :
      (k : Text) (m : Dict V) → IsMap m → weigh (remove k m) + weigh_found (lookup k m) ≡ weigh m
  unfolding weigh remove lookup
  weigh-remove k [] h = omega arith
  weigh-remove k ((j, u) ∷ m) h =
      ground (arith, weigh-remove k m h.1, text_eq_iff j k, remove_missing j m h.0)

  pub weigh_bounds : ((v : V) → w v ≤ 1) → (m : Dict V) → weigh m ≤ length m
  unfolding weigh
  weigh_bounds small [] = omega arith
  weigh_bounds small ((k, v) ∷ m) = omega (arith, small v, weigh_bounds small m)
