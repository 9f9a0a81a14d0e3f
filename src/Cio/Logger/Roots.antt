-- ===== src/Cio/Logger/Roots.antt =====
-- The flags of the first logger of a line turn on every logger of the line.
use chisel_uds.Prelude.{
  ℕ, ◌<◌, ◌==◌, Text, Bool, true, ◌||◌, or_true, Option, none, some, List, [], ◌∷◌, ◌≡◌, ◌≢◌, refl,
  sym, ap, ◌∙◌, subst, arith, length, All, Option-cases, Bool-cases, ==_iff, inl, inr,
}
use chisel_uds.Cio.Logger.{
  Fmt, Level, info, debug, Flag, Logger, flag, Store, at, update, new_logger, fork_flag, set_own,
  forked, fork, linked, is_on, LogOp, makes, forks, sets, run_op, run_ops,
}
use chisel_uds.Cio.Logger.Stores.{
  root_of, IsLinked, AreLinked, at-below, at-All, at-length, at-update, at-update_other,
  length-update, own-set_own, link-set_own, update-All, add-AreLinked, fork_flag-below,
}

module _ (fmt : Fmt) where
  open fmt use {Arg}

  forked-IsLinked :
      (n i : ℕ) (prefix : Text) (args : List Arg) (l : Logger)
      → i < n
      → IsLinked n l
      → IsLinked n (forked fmt i prefix args l)
  unfolding forked
  forked-IsLinked n i prefix args l b h info r q = fork_flag-below n i l.info_flag b (h info) r q
  forked-IsLinked n i prefix args l b h debug r q = fork_flag-below n i l.debug_flag b (h debug) r q

  new_logger-IsLinked : (n : ℕ) (prefix : Text) → IsLinked n (new_logger prefix)
  unfolding new_logger
  new_logger-IsLinked n prefix info r q = absurd cc
  new_logger-IsLinked n prefix debug r q = absurd cc

  set_own-AreLinked :
      (v : Level) (b : Bool) (i : ℕ) (s : Store)
      → AreLinked s
      → AreLinked (update i (set_own v b) s)
  set_own-AreLinked v b i s h =
      subst (λ n. All (IsLinked n) (update i (set_own v b) s))
        (sym (length-update i (set_own v b) s))
        (update-All (IsLinked (length s)) i (set_own v b) s
          (λ l k w r q. k w r (sym (link-set_own w v b l) ∙ q)) h)

  fork-AreLinked :
      (i : ℕ) (prefix : Text) (args : List Arg) (s : Store)
      → AreLinked s
      → AreLinked (fork fmt i prefix args s)
  unfolding fork
  fork-AreLinked i prefix args s h = elim (Option-cases (at i s)) [
    | inl e ↦ rw (fork, e) h
    | inr (l, e) ↦
        rw (fork, e)
          (add-AreLinked s (forked fmt i prefix args l) h (
            forked-IsLinked (length s) i prefix args l (at-length s i l e)
              (at-All (IsLinked (length s)) i s l h e)))
  ]

  run_ops-AreLinked :
      (ops : List (LogOp fmt)) (s : Store) → AreLinked s → AreLinked (run_ops fmt ops s)
  unfolding run_ops run_op
  run_ops-AreLinked [] s h = h
  run_ops-AreLinked (makes prefix ∷ ops) s h =
      run_ops-AreLinked ops _
        (add-AreLinked s (new_logger prefix) h (new_logger-IsLinked (length s) prefix))
  run_ops-AreLinked (forks i prefix args ∷ ops) s h =
      run_ops-AreLinked ops _ (fork-AreLinked i prefix args s h)
  run_ops-AreLinked (sets v i b ∷ ops) s h = run_ops-AreLinked ops _ (set_own-AreLinked v b i s h)

  is_on-at :
      (v : Level) (i : ℕ) (t : Store) (k : Logger)
      → at i t ≡ some k
      → is_on v i t ≡ ((flag v k).own || linked v (flag v k).link t)
  unfolding is_on
  is_on-at v i t k e = rw (is_on, e) refl

  linked-at :
      (v : Level) (r : ℕ) (t : Store) (k : Logger)
      → at r t ≡ some k
      → linked v (some r) t ≡ (flag v k).own
  unfolding linked
  linked-at v r t k e = rw (linked, e) refl

  -- a logger whose own flag is set
  itself_on :
      (v : Level) (i : ℕ) (s : Store) (l : Logger)
      → at i s ≡ some l
      → is_on v i (update i (set_own v true) s) ≡ true
  itself_on v i s l e =
      let t = update i (set_own v true) s in
      is_on-at v i t (set_own v true l) (at-update i (set_own v true) s l e)
      ∙ ap (λ b. b || linked v (flag v (set_own v true l)).link t) (own-set_own v true l)

  -- a logger that points to another, whose flag is set
  other_on :
      (v : Level) (i r : ℕ) (s : Store) (l k : Logger)
      → at i s ≡ some l
      → at r s ≡ some k
      → (flag v l).link ≡ some r
      → r ≢ i
      → is_on v i (update r (set_own v true) s) ≡ true
  other_on v i r s l k e f q n =
      let t = update r (set_own v true) s in
      is_on-at v i t l (at-update_other r i (set_own v true) s n ∙ e)
      ∙ ap (λ o. (flag v l).own || linked v o t) q
      ∙ ap (λ b. (flag v l).own || b)
          (linked-at v r t (set_own v true k) (at-update r (set_own v true) s k f)
            ∙ own-set_own v true k)
      ∙ or_true (flag v l).own

  turned_on :
      (v : Level) (i : ℕ) (s : Store) (l : Logger)
      → AreLinked s
      → at i s ≡ some l
      → (o : Option ℕ) → (flag v l).link ≡ o
      → is_on v i (update (elim o [ none ↦ i | some r ↦ r ]) (set_own v true) s) ≡ true
  turned_on v i s l h e none q = itself_on v i s l e
  turned_on v i s l h e (some r) q = elim (Bool-cases (r == i)) [
    | inl b ↦
        subst (λ j. is_on v i (update j (set_own v true) s) ≡ true) (sym ((==_iff r i).0 b))
          (itself_on v i s l e)
    | inr b ↦
        let (k, f) = at-below r s (at-All (IsLinked (length s)) i s l h e v r q) in
        other_on v i r s l k e f q (λ z. ground (arith, z))
  ]

  root_of-fork_flag : (i j : ℕ) (f : Flag) → root_of j (fork_flag i f) ≡ root_of i f
  unfolding fork_flag
  root_of-fork_flag i j f = elim (Option-cases f.link) [
    | inl e ↦ ground (arith, e)
    | inr (k, e) ↦ ground (arith, e)
  ]

  root_of-forked :
      (v : Level) (i j : ℕ) (prefix : Text) (args : List Arg) (l : Logger)
      → root_of j (flag v (forked fmt i prefix args l)) ≡ root_of i (flag v l)
  unfolding forked
  root_of-forked info i j prefix args l = root_of-fork_flag i j l.info_flag
  root_of-forked debug i j prefix args l = root_of-fork_flag i j l.debug_flag

  -- However the loggers of a program were made, forked and set: when the flag of the first logger of a
  -- line is set, every logger that was forked from it, at any depth, prints at that level; and a logger
  -- that is forked from one of the line belongs to the same line.
  pub turns_on :
      (ops : List (LogOp fmt)) (v : Level) (i : ℕ) (l : Logger)
      → let s = run_ops fmt ops [] in
        at i s ≡ some l
        → (is_on v i (update (root_of i (flag v l)) (set_own v true) s) ≡ true)
          × ((prefix : Text) (args : List Arg) (j : ℕ)
              → root_of j (flag v (forked fmt i prefix args l)) ≡ root_of i (flag v l))
  turns_on ops v i l e = (
    turned_on v i _ l (run_ops-AreLinked ops [] tt) e (flag v l).link refl,
    λ prefix args j. root_of-forked v i j prefix args l,
  )
