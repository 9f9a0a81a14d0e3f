-- ===== src/Settings/Users/Order.antt =====
-- The object of the user file is a Go map: `loadUserIndex` ranges over it in an order that differs from
-- one run to the next. What of its result depends on the order.
use mathlib.Core.List.{Permᴰ}
use mathlib.Core.List.Permᴰ.{nil, cons, swap, trans, symm}
use chisel_uds.Prelude.{
  Text, Option, none, some, List, [], ◌∷◌, ◌≡◌, ◌≢◌, ◌↔◌, refl, arith, text_eq_iff, All,
  Option-cases, inl, inr, ap, sym, ◌∙◌, subst,
}
use chisel_uds.Prelude.Dict.{lookup}
use chisel_uds.Settings.Users.{
  Regexp, User, Users, LoadError, entries, Decoded, loaded, load_failed, parse_auth, decode_addrs,
  decode_users, load_user_index,
}
use chisel_uds.Settings.Users.Load.{
  IsEntry, here, there, load_user_index_lem, Reloaded, loaded-cases,
}

-- No two entries of the file have one user name.
abbrev pub NamesDiffer : List (Text × List Text) → Type 0
NamesDiffer [] = Unit
NamesDiffer (e ∷ rest) = All (λ f. (parse_auth e.0).0 ≢ (parse_auth f.0).0) rest × NamesDiffer rest

module _ (regexp : Regexp) where
  open regexp use {Pattern}

  IsEntry-name :
      (u : User regexp) (t : Text) (raw : List (Text × List Text))
      → All (λ f. t ≢ (parse_auth f.0).0) raw
      → IsEntry regexp u raw
      → t ≢ u.name
  IsEntry-name u t _ h (here {auth = auth} p n d) = λ e. h.0 (e ∙ sym (ap (λ q. q.0) p))
  IsEntry-name u t _ h (there i) = IsEntry-name u t _ h.1 i

  IsEntry-unique :
      (u v : User regexp) (raw : List (Text × List Text))
      → NamesDiffer raw
      → IsEntry regexp u raw
      → IsEntry regexp v raw
      → u.name ≡ v.name
      → u ≡ v
  IsEntry-unique u v _ h (here p n d) (here p' n' d') e = cc
  IsEntry-unique u v _ h (here {rest = rest} p n d) (there j) e =
      absurd (IsEntry-name v u.name rest (rw (ap (λ q. q.0) p) at h.0) j e)
  IsEntry-unique u v _ h (there {rest = rest} i) (here p n d) e =
      absurd (IsEntry-name u v.name rest (rw (ap (λ q. q.0) p) at h.0) i (sym e))
  IsEntry-unique u v _ h (there i) (there j) e = IsEntry-unique u v _ h.1 i j e

  IsEntry-cons :
      (u : User regexp) (a b : Text × List Text) (xs ys : List (Text × List Text))
      → a ≡ b
      → (IsEntry regexp u xs → IsEntry regexp u ys)
      → IsEntry regexp u (a ∷ xs)
      → IsEntry regexp u (b ∷ ys)
  IsEntry-cons u _ b _ ys e f (here {auth = auth} {remotes = remotes} p n d) =
      subst (λ c. IsEntry regexp u (c ∷ ys)) e (here p n d)
  IsEntry-cons u _ b _ ys e f (there i) = there (f i)

  IsEntry-swap :
      (u : User regexp) (a b c d : Text × List Text) (l : List (Text × List Text))
      → a ≡ d
      → b ≡ c
      → IsEntry regexp u (a ∷ b ∷ l)
      → IsEntry regexp u (c ∷ d ∷ l)
  IsEntry-swap u _ b c d l e f (here p n q) =
      there (subst (λ x. IsEntry regexp u (x ∷ l)) e (here p n q))
  IsEntry-swap u a _ c d l e f (there (here p n q)) =
      subst (λ x. IsEntry regexp u (x ∷ d ∷ l)) f (here p n q)
  IsEntry-swap u a b c d l e f (there (there i)) = there (there i)

  IsEntry-Permᴰ :
      (u : User regexp) (xs ys : List (Text × List Text))
      → Permᴰ xs ys
      → IsEntry regexp u xs
      → IsEntry regexp u ys
  IsEntry-Permᴰ u _ _ nil i = i
  IsEntry-Permᴰ u _ _ (cons {a} {b} {l₁ = xs} {l₂ = ys} e p) i =
      IsEntry-cons u a b xs ys e (IsEntry-Permᴰ u xs ys p) i
  IsEntry-Permᴰ u _ _ (swap {a} {b} {a' = c} {b' = d} {l} e f) i = IsEntry-swap u a b c d l e f i
  IsEntry-Permᴰ u _ _ (trans {l₁ = xs} {l₂ = ys} {l₃ = zs} p q) i =
      IsEntry-Permᴰ u ys zs q (IsEntry-Permᴰ u xs ys p i)

  -- An entry with a name, each of whose addresses compiles
  abbrev IsGood : Text × List Text → Type 0
  IsGood e = ((parse_auth e.0).0 ≢ []) × (decode_addrs regexp e.1 ≢ none)

  All-Permᴰ : (xs ys : List (Text × List Text)) → Permᴰ xs ys → All IsGood xs → All IsGood ys
  All-Permᴰ _ _ nil h = tt
  All-Permᴰ _ _ (cons {a} {b} {l₁ = xs} {l₂ = ys} e p) h =
      (subst IsGood e h.0, All-Permᴰ xs ys p h.1)
  All-Permᴰ _ _ (swap e f) h = (subst IsGood f h.1.0, (subst IsGood e h.0, h.1.1))
  All-Permᴰ _ _ (trans {l₁ = xs} {l₂ = ys} {l₃ = zs} p q) h =
      All-Permᴰ ys zs q (All-Permᴰ xs ys p h)

  decode_users-IsGood :
      (raw : List (Text × List Text)) (users : List (User regexp))
      → decode_users regexp raw ≡ loaded users
      → All IsGood raw
  decode_users-IsGood [] users h = tt
  decode_users-IsGood ((auth, remotes) ∷ rest) users h =
      let l = loaded-cases regexp auth remotes rest users _ refl h in
      ((l.named, λ e. cc), decode_users-IsGood rest l.others l.rest_eq)

  IsGood-decode_users :
      (raw : List (Text × List Text))
      → All IsGood raw
      → (users : List (User regexp)) × (decode_users regexp raw ≡ loaded users)
  unfolding decode_users
  IsGood-decode_users [] h = ([], refl)
  IsGood-decode_users ((auth, remotes) ∷ rest) h =
      let (users, q) = IsGood-decode_users rest h.1 in
      elim (Option-cases (decode_addrs regexp remotes)) [
        | inl n ↦ absurd (h.0.1 n)
        | inr (addrs, d) ↦ (
          record { name = (parse_auth auth).0; pass = (parse_auth auth).1; addrs = addrs } ∷ users,
          ground (arith, q, d, text_eq_iff (parse_auth auth).0 [], h.0.0),
        )
      ]

  loads-decoded :
      (raw : List (Text × List Text)) (u : Users regexp) (d : Decoded regexp)
      → decode_users regexp raw ≡ d
      → (load_user_index regexp (entries raw) u).1 ≡ none ↔ All IsGood raw
  unfolding load_user_index
  loads-decoded raw u (loaded users) q =
      rw (q, load_user_index) (λ e. decode_users-IsGood raw users q, λ h. refl)
  loads-decoded raw u (load_failed e) q =
      rw (q, load_user_index)
        (λ z. absurd cc, λ h. absurd (let (us, p) = IsGood-decode_users raw h in ground arith))

  loads-IsGood :
      (raw : List (Text × List Text)) (u : Users regexp)
      → (load_user_index regexp (entries raw) u).1 ≡ none ↔ All IsGood raw
  loads-IsGood raw u = loads-decoded raw u _ refl

  -- Two results of a reload are the same to the server: both fail or neither does, and every user name
  -- finds the same user.
  abbrev pub AreAlike : Users regexp × Option LoadError → Users regexp × Option LoadError → Type 0
  AreAlike r s = (r.1 ≡ none ↔ s.1 ≡ none) × ((k : Text) → lookup k r.0 ≡ lookup k s.0)

  -- The users are those of the entries, each under its name.
  abbrev HoldsEntries : List (Text × List Text) → Users regexp → Type 0
  HoldsEntries raw m =
      ((k : Text) (v : User regexp) → lookup k m ≡ some v → IsEntry regexp v raw × (v.name ≡ k))
      × ((v : User regexp) → IsEntry regexp v raw → lookup v.name m ≢ none)

  IsEntry-found :
      (v : User regexp) (raw : List (Text × List Text)) (m : Users regexp)
      → All (λ e. lookup (parse_auth e.0).0 m ≢ none) raw
      → IsEntry regexp v raw
      → lookup v.name m ≢ none
  IsEntry-found v _ m h (here p n d) = rw (ap (λ q. q.0) p) at h.0
  IsEntry-found v _ m h (there {rest = rest} i) = IsEntry-found v rest m h.1 i

  HoldsEntries-lookup :
      (raw : List (Text × List Text)) (a b : Users regexp) (k : Text) (v : User regexp)
      → NamesDiffer raw
      → HoldsEntries raw a
      → HoldsEntries raw b
      → lookup k a ≡ some v
      → lookup k b ≡ some v
  HoldsEntries-lookup raw a b k v d ha hb e =
      let (i, n) = ha.0 k v e in
      elim (Option-cases (lookup k b)) [
        | inl z ↦ absurd (hb.1 v i (ap (λ j. lookup j b) n ∙ z))
        | inr (w, f) ↦
            let (j, m) = hb.0 k w f in f ∙ ap some (IsEntry-unique w v raw d j i (m ∙ sym n))
      ]

  HoldsEntries-eq :
      (raw : List (Text × List Text)) (a b : Users regexp) (k : Text)
      → NamesDiffer raw
      → HoldsEntries raw a
      → HoldsEntries raw b
      → lookup k a ≡ lookup k b
  HoldsEntries-eq raw a b k d ha hb = elim (Option-cases (lookup k a)) [
    | inr (v, e) ↦ e ∙ sym (HoldsEntries-lookup raw a b k v d ha hb e)
    | inl z ↦ (elim (Option-cases (lookup k b)) [
      | inl y ↦ z ∙ sym y
      | inr (v, e) ↦ absurd (let q = HoldsEntries-lookup raw b a k v d hb ha e in cc)
    ])
  ]

  alike-cases :
      (xs ys : List (Text × List Text)) (u : Users regexp) (r s : Users regexp × Option LoadError)
      → Permᴰ xs ys
      → NamesDiffer xs
      → Reloaded regexp xs u r
      → Reloaded regexp ys u s
      → (r.1 ≡ none ↔ s.1 ≡ none)
      → AreAlike r s
  alike-cases xs ys u (a, none) (b, none) p d h g f = (
    f,
    λ k.
        HoldsEntries-eq xs a b k d (h.0, λ v i. IsEntry-found v xs a h.1 i)
          (
            λ j v e. (IsEntry-Permᴰ v ys xs (symm p) (g.0 j v e).0, (g.0 j v e).1),
            λ v i. IsEntry-found v ys b g.1 (IsEntry-Permᴰ v xs ys p i),
          ),
  )
  alike-cases xs ys u (a, none) (b, some y) p d h g f = absurd (let q = f.0 refl in cc)
  alike-cases xs ys u (a, some x) (b, none) p d h g f = absurd (let q = f.1 refl in cc)
  alike-cases xs ys u (a, some x) (b, some y) p d h g f = (f, λ k. ap (lookup k) (h ∙ sym g))

  -- If no two entries of the file have one user name, the order in which Go ranges over them does not
  -- matter: for any two orders a reload fails with both or with neither, and afterwards each name finds
  -- the same user with the same password and addresses, or none.
  pub orders_alike :
      (xs ys : List (Text × List Text)) (u : Users regexp)
      → Permᴰ xs ys
      → NamesDiffer xs
      → AreAlike (load_user_index regexp (entries xs) u) (load_user_index regexp (entries ys) u)
  orders_alike xs ys u p d =
      alike-cases xs ys u _ _ p d (load_user_index_lem regexp xs u)
        (load_user_index_lem regexp ys u)
        (
          λ e. (loads-IsGood ys u).1 (All-Permᴰ xs ys p ((loads-IsGood xs u).0 e)),
          λ e. (loads-IsGood xs u).1 (All-Permᴰ ys xs (symm p) ((loads-IsGood ys u).0 e)),
        )
