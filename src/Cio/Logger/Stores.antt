-- ===== src/Cio/Logger/Stores.antt =====
-- What an update of a store of loggers leaves, and the pointers between its loggers.
use chisel_uds.Prelude.{
  ℕ, zero, suc, ◌<◌, Bool, none, some, [], ◌∷◌, ◌++◌, ◌≡◌, ◌≢◌, refl, ap, subst, arith, length,
  length-append, All, Option-cases, inl, inr,
}
use chisel_uds.Cio.Logger.{
  Level, info, debug, Flag, Logger, flag, Store, at, update, fork_flag, set_own,
}

-- the place of the first logger of the line of a logger, by its flag
abbrev pub root_of : ℕ → Flag → ℕ
root_of i f = elim f.link [ none ↦ i | some r ↦ r ]

-- A pointer of the logger points to one of `n` loggers.
abbrev pub IsLinked : ℕ → Logger → Type 0
IsLinked n l = (v : Level) (r : ℕ) → (flag v l).link ≡ some r → r < n

abbrev pub AreLinked : Store → Type 0
AreLinked s = All (IsLinked (length s)) s

pub at-below : (r : ℕ) (s : Store) → r < length s → (l : Logger) × (at r s ≡ some l)
unfolding at
at-below r [] h = absurd (ground arith)
at-below zero (l ∷ s) h = (l, refl)
at-below (suc r) (l ∷ s) h = at-below r s (ground arith)

pub at-All :
    (P : Logger → Type 0) (i : ℕ) (s : Store) (l : Logger) → All P s → at i s ≡ some l → P l
unfolding at
at-All P i [] l h e = absurd cc
at-All P zero (k ∷ s) l h e = let q : k ≡ l = cc in subst P q h.0
at-All P (suc i) (k ∷ s) l h e = at-All P i s l h.1 e

pub at-length : (s : Store) (i : ℕ) (l : Logger) → at i s ≡ some l → i < length s
unfolding at
at-length [] i l e = absurd cc
at-length (k ∷ s) zero l e = ground arith
at-length (k ∷ s) (suc i) l e = ground (arith, at-length s i l e)

pub at-update :
    (i : ℕ) (f : Logger → Logger) (s : Store) (l : Logger)
    → at i s ≡ some l
    → at i (update i f s) ≡ some (f l)
unfolding at update
at-update i f [] l e = absurd cc
at-update zero f (k ∷ s) l e = ap (λ o. elim o [ none ↦ none | some x ↦ some (f x) ]) e
at-update (suc i) f (k ∷ s) l e = at-update i f s l e

pub at-update_other :
    (i j : ℕ) (f : Logger → Logger) (s : Store) → i ≢ j → at j (update i f s) ≡ at j s
unfolding at update
at-update_other i j f [] n = refl
at-update_other zero zero f (k ∷ s) n = absurd (n refl)
at-update_other zero (suc j) f (k ∷ s) n = refl
at-update_other (suc i) zero f (k ∷ s) n = refl
at-update_other (suc i) (suc j) f (k ∷ s) n = at-update_other i j f s (λ e. n (ap suc e))

pub length-update : (i : ℕ) (f : Logger → Logger) (s : Store) → length (update i f s) ≡ length s
unfolding update
length-update i f [] = refl
length-update zero f (k ∷ s) = refl
length-update (suc i) f (k ∷ s) = ap suc (length-update i f s)

pub own-set_own : (v : Level) (b : Bool) (l : Logger) → (flag v (set_own v b l)).own ≡ b
unfolding set_own
own-set_own info b l = refl
own-set_own debug b l = refl

pub link-set_own :
    (v w : Level) (b : Bool) (l : Logger) → (flag v (set_own w b l)).link ≡ (flag v l).link
unfolding set_own
link-set_own info info b l = refl
link-set_own info debug b l = refl
link-set_own debug info b l = refl
link-set_own debug debug b l = refl

pub update-All :
    (P : Logger → Type 0) (i : ℕ) (f : Logger → Logger) (s : Store)
    → ((l : Logger) → P l → P (f l))
    → All P s
    → All P (update i f s)
unfolding update
update-All P i f [] p h = tt
update-All P zero f (k ∷ s) p h = (p k h.0, h.1)
update-All P (suc i) f (k ∷ s) p h = (h.0, update-All P i f s p h.1)

pub append-AreLinked :
    (s : Store) (n : ℕ) (l : Logger)
    → length s < n
    → All (IsLinked (length s)) s
    → IsLinked (length s) l
    → (t : Store) → All (IsLinked (length s)) t
    → All (IsLinked n) (t ++ l ∷ [])
append-AreLinked s n l h a k [] b = ((λ v r e. ground (arith, k v r e)), tt)
append-AreLinked s n l h a k (x ∷ t) b =
    ((λ v r e. ground (arith, b.0 v r e)), append-AreLinked s n l h a k t b.1)

pub add-AreLinked :
    (s : Store) (l : Logger) → AreLinked s → IsLinked (length s) l → AreLinked (s ++ l ∷ [])
add-AreLinked s l a k =
    append-AreLinked s (length (s ++ l ∷ [])) l (ground (arith, length-append s (l ∷ []))) a k s a

pub fork_flag-below :
    (n i : ℕ) (f : Flag)
    → i < n
    → ((r : ℕ) → f.link ≡ some r → r < n)
    → (r : ℕ) → (fork_flag i f).link ≡ some r
    → r < n
unfolding fork_flag
fork_flag-below n i f b h r q = elim (Option-cases f.link) [
  | inl e ↦ ground (arith, e)
  | inr (k, e) ↦ ground (arith, h k e)
]
