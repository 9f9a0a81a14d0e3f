-- ===== src/Prelude/Sort.antt =====
-- The package `sort`: `sort.Slice(s, less)`. Sorting is by insertion; where the keys of the elements
-- are distinct, every sorting algorithm has this result (`sort_by-Perm`).
use mathlib.Core.Path.{◌≡◌, refl, subst, ◌∙◌}
use mathlib.Core.Logic.{◌⊎◌, inl, inr, ∥∥₁_elim}
use mathlib.Core.Bool.{Bool, true, false}
use mathlib.Core.List.{List, [], ◌∷◌, Perm, Permᴰ}
use mathlib.Core.List.Perm
use native.Mathlib.Omega.{arith}
use chisel_uds.Prelude.Lists.{All}
use chisel_uds.Prelude.Tests.{if◌then◌else◌, Bool-cases}

module _ {ℓ} {A : Type ℓ} (less : A → A → Bool) where
  unfoldable pub insert_by : A → List A → List A
  insert_by x [] = x ∷ []
  insert_by x (y ∷ ys) = if less x y then x ∷ y ∷ ys else y ∷ insert_by x ys

  unfoldable pub sort_by : List A → List A
  unfolding insert_by
  sort_by [] = []
  sort_by (x ∷ xs) = insert_by x (sort_by xs)

  -- No later element is less than its predecessor.
  abbrev pub IsSortedBy : List A → Type 0
  IsSortedBy [] = Unit
  IsSortedBy (x ∷ []) = Unit
  IsSortedBy (x ∷ y ∷ ys) = (less y x ≡ false) × IsSortedBy (y ∷ ys)

  pub insert_by-Perm : (x : A) (xs : List A) → Perm (insert_by x xs) (x ∷ xs)
  unfolding insert_by
  insert_by-Perm x [] = Perm.refl _
  insert_by-Perm x (y ∷ ys) = elim (Bool-cases (less x y)) [
    | inl e ↦ rw (e, insert_by) (Perm.refl _)
    | inr e ↦ rw (e, insert_by) (Perm.trans (Perm.cons y (insert_by-Perm x ys)) (Perm.swap x y ys))
  ]

  pub sort_by-perm_self : (xs : List A) → Perm (sort_by xs) xs
  unfolding sort_by
  sort_by-perm_self [] = Perm.refl _
  sort_by-perm_self (x ∷ xs) =
      Perm.trans (insert_by-Perm x (sort_by xs)) (Perm.cons x (sort_by-perm_self xs))

  insert_by-IsSortedBy :
      (asym : (a b : A) → less a b ≡ true → less b a ≡ false) (x : A) (xs : List A)
      → IsSortedBy xs
      → IsSortedBy (insert_by x xs)
  unfolding insert_by
  insert_by-IsSortedBy asym x [] s = tt
  insert_by-IsSortedBy asym x (y ∷ []) s = ground (arith, asym x y)
  insert_by-IsSortedBy asym x (y ∷ z ∷ zs) s =
      ground (arith, asym x y, asym x z, insert_by-IsSortedBy asym x (z ∷ zs) s.1)

  pub sort_by-IsSortedBy :
      (asym : (a b : A) → less a b ≡ true → less b a ≡ false) (xs : List A)
      → IsSortedBy (sort_by xs)
  unfolding sort_by
  sort_by-IsSortedBy asym [] = tt
  sort_by-IsSortedBy asym (x ∷ xs) =
      insert_by-IsSortedBy asym x (sort_by xs) (sort_by-IsSortedBy asym xs)

  -- Two elements that `less` tells apart can be inserted in either order.
  insert_by_comm :
      (trans : (a b c : A) → less a b ≡ true → less b c ≡ true → less a c ≡ true)
      (asym : (a b : A) → less a b ≡ true → less b a ≡ false) (x y : A) (xs : List A)
      → (less x y ≡ true) ⊎ (less y x ≡ true)
      → insert_by x (insert_by y xs) ≡ insert_by y (insert_by x xs)
  unfolding insert_by
  insert_by_comm trans asym x y [] h = ground (arith, asym x y, asym y x)
  insert_by_comm trans asym x y (z ∷ zs) h =
      ground
        (arith, asym x y, asym y x, trans x y z, trans y x z, insert_by_comm trans asym x y zs h)

  -- `less` orders the two elements.
  abbrev pub Told : A → A → Type 0
  Told x y = (less x y ≡ true) ⊎ (less y x ≡ true)

  -- `less` orders every two elements of the list.
  abbrev pub Apart : List A → Type 0
  Apart [] = Unit
  Apart (x ∷ xs) = All (Told x) xs × Apart xs

  All-Permᴰ : (P : A → Type 0) {xs ys : List A} → Permᴰ xs ys → All P xs → All P ys
  All-Permᴰ P Permᴰ.nil h = h
  All-Permᴰ P (Permᴰ.cons e d) h = (rw (← e) h.0, All-Permᴰ P d h.1)
  All-Permᴰ P (Permᴰ.swap e f) h = (rw (← f) h.1.0, (rw (← e) h.0, h.1.1))
  All-Permᴰ P (Permᴰ.trans d e) h = All-Permᴰ P e (All-Permᴰ P d h)

  Told-swap : {x y : A} → Told x y → Told y x
  Told-swap (inl h) = inr h
  Told-swap (inr h) = inl h

  Apart-Permᴰ : {xs ys : List A} → Permᴰ xs ys → Apart xs → Apart ys
  Apart-Permᴰ Permᴰ.nil h = h
  Apart-Permᴰ (Permᴰ.cons {a = a} e d) h = (rw (← e) (All-Permᴰ (Told a) d h.0), Apart-Permᴰ d h.1)
  Apart-Permᴰ (Permᴰ.swap {l = l} e f) h = (
    (rw (← e, ← f) (Told-swap h.0.0), subst (λ z. All (Told z) l) f h.1.0),
    (subst (λ z. All (Told z) l) e h.0.1, h.1.1),
  )
  Apart-Permᴰ (Permᴰ.trans d e) h = Apart-Permᴰ e (Apart-Permᴰ d h)

  module _ (trans : (a b c : A) → less a b ≡ true → less b c ≡ true → less a c ≡ true)
      (asym : (a b : A) → less a b ≡ true → less b a ≡ false) where
    sort_by-Permᴰ : {xs ys : List A} → Permᴰ xs ys → Apart xs → sort_by xs ≡ sort_by ys
    unfolding sort_by
    sort_by-Permᴰ Permᴰ.nil h = refl
    sort_by-Permᴰ (Permᴰ.cons e d) h = rw (e, sort_by-Permᴰ d h.1)
    sort_by-Permᴰ (Permᴰ.swap {a = a} {b = b} {l = l} e f) h =
        rw (← e, ← f) (insert_by_comm trans asym a b (sort_by l) h.0.0)
    sort_by-Permᴰ (Permᴰ.trans d e) h = sort_by-Permᴰ d h ∙ sort_by-Permᴰ e (Apart-Permᴰ d h)

    -- The order in which the elements are found does not matter to the sorted list.
    pub sort_by-Perm : IsSet A → (xs ys : List A) → Perm xs ys → Apart xs → sort_by xs ≡ sort_by ys
    sort_by-Perm A_set xs ys p h = ∥∥₁_elim p (hlevel A_set) (λ d. sort_by-Permᴰ d h)
