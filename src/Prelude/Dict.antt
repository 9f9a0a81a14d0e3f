-- ===== src/Prelude/Dict.antt =====
-- Go's `map[string]V` as an association list in some order. A new key goes to the end.
pub mod Weights
use mathlib.Core.Path.{◌≡◌, refl, subst}
use mathlib.Core.Option.{Option, none, some}
use mathlib.Core.List.{List, [], ◌∷◌, map}
use native.Mathlib.Omega.{arith}
use mathlib.Core.Logic.{inl, inr}
use chisel_uds.Prelude.Tests.{if◌then◌else◌, Bool-cases}
use chisel_uds.Prelude.Strings.{Text, text_eq, text_eq_iff}

abbrev pub Dict {ℓ} : Type ℓ → Type ℓ
Dict V = List (Text × V)

module _ {ℓ} {V : Type ℓ} where
  -- v, ok := m[k]
  unfoldable pub lookup : Text → Dict V → Option V
  lookup k [] = none
  lookup k ((j, v) ∷ m) = if text_eq j k then some v else lookup k m

  -- m[k] = v
  unfoldable pub insert : Text → V → Dict V → Dict V
  insert k v [] = (k, v) ∷ []
  insert k v ((j, w) ∷ m) = if text_eq j k then (j, v) ∷ m else (j, w) ∷ insert k v m

  -- delete(m, k)
  unfoldable pub remove : Text → Dict V → Dict V
  remove k [] = []
  remove k ((j, v) ∷ m) = let rest = remove k m in if text_eq j k then rest else (j, v) ∷ rest

  pub lookup-insert :
      (k j : Text) (v : V) (m : Dict V)
      → lookup j (insert k v m) ≡ (if text_eq k j then some v else lookup j m)
  unfolding lookup insert
  lookup-insert k j v [] = refl
  lookup-insert k j v ((i, w) ∷ m) =
      ground (arith, text_eq_iff k j, text_eq_iff i k, text_eq_iff i j, lookup-insert k j v m)

  pub lookup-remove :
      (k j : Text) (m : Dict V) → lookup j (remove k m) ≡ (if text_eq k j then none else lookup j m)
  unfolding lookup remove
  lookup-remove k j [] = ground arith
  lookup-remove k j ((i, w) ∷ m) =
      ground (arith, text_eq_iff k j, text_eq_iff i k, text_eq_iff i j, lookup-remove k j m)

  -- Each key stands once, as in a Go map.
  abbrev pub IsMap : Dict V → Type ℓ
  IsMap [] = Unit
  IsMap ((k, v) ∷ m) = (lookup k m ≡ none) × IsMap m

  pub insert-IsMap : (k : Text) (v : V) (m : Dict V) → IsMap m → IsMap (insert k v m)
  unfolding insert lookup
  insert-IsMap k v [] h = (refl, tt)
  insert-IsMap k v ((j, w) ∷ m) h =
      ground
        (arith, insert-IsMap k v m h.1, lookup-insert k j v m, text_eq_iff j k, text_eq_iff k j)

  pub remove-IsMap : (k : Text) (m : Dict V) → IsMap m → IsMap (remove k m)
  unfolding remove lookup
  remove-IsMap k [] h = tt
  remove-IsMap k ((j, w) ∷ m) h =
      ground (arith, remove-IsMap k m h.1, lookup-remove k j m, text_eq_iff j k)

  abbrev pub values : Dict V → List V
  values = map λ e. e.1

  abbrev pub keys : Dict V → List Text
  keys = map λ e. e.0

  -- every entry satisfies the relation
  abbrev pub Entries {κ} : (Text → V → Type κ) → Dict V → Type κ
  Entries P [] = Unit
  Entries P ((k, v) ∷ m) = P k v × Entries P m

  pub insert-Entries {κ} :
      (P : Text → V → Type κ) (k : Text) (v : V) (m : Dict V)
      → P k v
      → Entries P m
      → Entries P (insert k v m)
  unfolding insert
  insert-Entries P k v [] h es = (h, tt)
  insert-Entries P k v ((j, w) ∷ m) h es = elim (Bool-cases (text_eq j k)) [
    | inl e ↦ rw (e, insert) (rw ((text_eq_iff j k).0 e) h, es.1)
    | inr e ↦ rw (e, insert) (es.0, insert-Entries P k v m h es.1)
  ]

  pub Entries-lookup {κ} :
      (P : Text → V → Type κ) (k : Text) (v : V) (m : Dict V)
      → Entries P m
      → lookup k m ≡ some v
      → P k v
  unfolding lookup
  Entries-lookup P k v [] es h = cc
  Entries-lookup P k v ((j, w) ∷ m) es h = elim (Bool-cases (text_eq j k)) [
    | inl e ↦ subst (P k) {x = w} (ground arith) (subst (λ i. P i w) ((text_eq_iff j k).0 e) es.0)
    | inr e ↦ Entries-lookup P k v m es.1 (rw (e, lookup) at h)
  ]
