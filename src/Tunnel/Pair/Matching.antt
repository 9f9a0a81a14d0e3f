-- ===== src/Tunnel/Pair/Matching.antt =====
-- The registry against its specification: for each path at most one proxy waits.
use chisel_uds.Prelude.{
  ℕ, Text, true, false, Option, none, some, List, [], ◌∷◌, ◌==◌, if◌then◌else◌, ◌≡◌, refl, arith,
  inl, inr, text_eq, Option-cases, Bool-cases, ap, sym, ◌∙◌, subst,
}
use chisel_uds.Prelude.Dict.{lookup, insert, remove, lookup-insert, lookup-remove}
use chisel_uds.Tunnel.Pair.{Registry, queue_of, without, Visit, arrives, leaves, visit, visits}

-- The specification's state: who waits at a path.
abbrev pub Waiting : Type 0
Waiting = Text → Option ℕ

abbrev pub update : Text → Option ℕ → Waiting → Waiting
update path w f = λ p. if text_eq path p then w else f p

-- Who comes to an empty place waits; who comes to one that waits is paired with it.
abbrev pub spec_visit : Visit → Waiting → Waiting × Option (ℕ × ℕ)
spec_visit (arrives path self) f = elim (f path) [
  | none ↦ (update path (some self) f, none)
  | some peer ↦ (update path none f, some (peer, self))
]
spec_visit (leaves path waiter) f = elim (f path) [
  | none ↦ (f, none)
  | some w ↦ (if w == waiter then update path none f else f, none)
]

abbrev pub spec_visits : List Visit → Waiting → Waiting × List (ℕ × ℕ)
spec_visits [] f = (f, [])
spec_visits (v ∷ rest) f =
    let (f1, pair) = spec_visit v f in
    let (f2, pairs) = spec_visits rest f1 in (f2, elim pair [ none ↦ pairs | some p ↦ p ∷ pairs ])

abbrev at_most_one : Option ℕ → List ℕ
at_most_one none = []
at_most_one (some w) = w ∷ []

-- The registry holds what the specification says: each queue is empty or has the one that waits.
abbrev pub Implements : Registry → Waiting → Type 0
Implements r f = (path : Text) → queue_of path r ≡ at_most_one (f path)

queue_of-insert :
    (path other : Text) (q : List ℕ) (r : Registry)
    → queue_of other (insert path q r) ≡ (if text_eq path other then q else queue_of other r)
unfolding queue_of
queue_of-insert path other q r =
    ground (arith, lookup-insert path other q r, Option-cases (lookup other r))

queue_of-remove :
    (path other : Text) (r : Registry)
    → queue_of other (remove path r) ≡ (if text_eq path other then [] else queue_of other r)
unfolding queue_of
queue_of-remove path other r =
    ground (arith, lookup-remove path other r, Option-cases (lookup other r))

visit-arrives_first :
    (path : Text) (self : ℕ) (r : Registry)
    → queue_of path r ≡ []
    → visit (arrives path self) r ≡ (insert path (self ∷ []) r, none)
unfolding visit
visit-arrives_first path self r e = ground arith

visit-arrives_second :
    (path : Text) (self peer : ℕ) (rest : List ℕ) (r : Registry)
    → queue_of path r ≡ peer ∷ rest
    → visit (arrives path self) r ≡ (insert path rest r, some (peer, self))
unfolding visit
visit-arrives_second path self peer rest r e = ground arith

visit-leaves_absent :
    (path : Text) (waiter : ℕ) (r : Registry)
    → without waiter (queue_of path r) ≡ none
    → visit (leaves path waiter) r ≡ (r, none)
unfolding visit
visit-leaves_absent path waiter r e = ground arith

visit-leaves_last :
    (path : Text) (waiter : ℕ) (r : Registry)
    → without waiter (queue_of path r) ≡ some []
    → visit (leaves path waiter) r ≡ (remove path (insert path [] r), none)
unfolding visit
visit-leaves_last path waiter r e = ground arith

without-nil : (waiter : ℕ) → without waiter [] ≡ none
unfolding without
without-nil waiter = refl

without-alone : (w waiter : ℕ) → w == waiter ≡ true → without waiter (w ∷ []) ≡ some []
unfolding without
without-alone w waiter b = ground arith

without-other : (w waiter : ℕ) → w == waiter ≡ false → without waiter (w ∷ []) ≡ none
unfolding without
without-other w waiter b = ground arith

abbrev MatchesSpec : Registry × Option (ℕ × ℕ) → Waiting × Option (ℕ × ℕ) → Type 0
MatchesSpec (r, made) (f, wanted) = Implements r f × (made ≡ wanted)

visit_refines :
    (v : Visit) (r : Registry) (f : Waiting)
    → Implements r f
    → MatchesSpec (visit v r) (spec_visit v f)
visit_refines (arrives path self) r f h = elim (Option-cases (f path)) [
  | inl e ↦
      let q : queue_of path r ≡ [] = h path ∙ ap at_most_one e in
      subst (λ x. MatchesSpec x (spec_visit (arrives path self) f))
        (sym (visit-arrives_first path self r q))
        (rw (spec_visit, e) (λ p. ground (arith, queue_of-insert path p (self ∷ []) r, h p), refl))
  | inr (peer, e) ↦
      let q : queue_of path r ≡ peer ∷ [] = h path ∙ ap at_most_one e in
      subst (λ x. MatchesSpec x (spec_visit (arrives path self) f))
        (sym (visit-arrives_second path self peer [] r q))
        (rw (spec_visit, e) (λ p. ground (arith, queue_of-insert path p [] r, h p), refl))
]
visit_refines (leaves path waiter) r f h = elim (Option-cases (f path)) [
  | inl e ↦
      let q : without waiter (queue_of path r) ≡ none =
        ap (without waiter) (h path ∙ ap at_most_one e) ∙ without-nil waiter in
      subst (λ x. MatchesSpec x (spec_visit (leaves path waiter) f))
        (sym (visit-leaves_absent path waiter r q)) (rw (spec_visit, e) (h, refl))
  | inr (w, e) ↦
      let q : queue_of path r ≡ w ∷ [] = h path ∙ ap at_most_one e in
      elim (Bool-cases (w == waiter)) [
        | inl b ↦
            subst (λ x. MatchesSpec x (spec_visit (leaves path waiter) f))
              (sym (
                visit-leaves_last path waiter r (ap (without waiter) q ∙ without-alone w waiter b)))
              (rw (spec_visit, e, b)
                (
                  λ p. ground (
                    arith,
                    queue_of-remove path p (insert path [] r),
                    queue_of-insert path p [] r,
                    h p,
                  ),
                  refl,
                ))
        | inr b ↦
            subst (λ x. MatchesSpec x (spec_visit (leaves path waiter) f))
              (sym (
                visit-leaves_absent path waiter r
                  (ap (without waiter) q ∙ without-other w waiter b)))
              (rw (spec_visit, e, b) (h, refl))
      ]
]

-- a pair put before pairs
joined :
    (made wanted : Option (ℕ × ℕ)) (ps qs : List (ℕ × ℕ))
    → made ≡ wanted
    → ps ≡ qs
    → (elim made [ none ↦ ps | some p ↦ p ∷ ps ]) ≡ (elim wanted [ none ↦ qs | some p ↦ p ∷ qs ])
joined made wanted ps qs e es =
    ap (λ (m : Option (ℕ × ℕ)). elim m [ none ↦ ps | some p ↦ p ∷ ps ]) e
    ∙ ap (λ (l : List (ℕ × ℕ)). elim wanted [ none ↦ l | some p ↦ p ∷ l ]) es

visits_refines_from :
    (vs : List Visit) (r : Registry) (f : Waiting)
    → Implements r f
    → Implements (visits vs r).0 (spec_visits vs f).0 × ((visits vs r).1 ≡ (spec_visits vs f).1)
unfolding visits
visits_refines_from [] r f h = (h, refl)
visits_refines_from (v ∷ vs) r f h =
    let (i, e) = visit_refines v r f h in
    let (j, es) = visits_refines_from vs (visit v r).0 (spec_visit v f).0 i in
    (j, joined (visit v r).1 (spec_visit v f).1 _ _ e es)

-- Whatever proxies come and go, from the empty registry on each path has at most one that waits, and
-- the pairs are those of the specification: one that comes is paired with the one that waits at its
-- path, which then waits no more, and it waits itself if there is none.
pub visits_refines :
    (vs : List Visit)
    → Implements (visits vs []).0 (spec_visits vs (λ path. none)).0
      × ((visits vs []).1 ≡ (spec_visits vs (λ path. none)).1)
unfolding queue_of lookup
visits_refines vs = visits_refines_from vs [] (λ path. none) (λ path. refl)
