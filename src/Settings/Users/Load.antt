-- ===== src/Settings/Users/Load.antt =====
-- What a reload of the user file does, and what the users may reach.
use chisel_uds.Prelude.{
  Text, codes, true, false, Option, none, some, List, [], ◌∷◌, ◌++◌, ◌≡◌, ◌≢◌, ◌⊎◌, inl, inr, refl,
  arith, text_eq, text_eq_iff, text_eq_refl, cut_first, has_byte, All, if◌then◌else◌, Bool-cases,
  Option-cases, ap, sym, ◌∙◌, subst,
}
use chisel_uds.Prelude.Dict.{lookup, insert, lookup-insert}
use chisel_uds.Settings.Users.{
  Regexp, User, Users, LoadError, entries, Decoded, loaded, load_failed, parse_auth, access_loop,
  index_users, decode_addrs, decode_users, load_user_index,
}

-- A name without a colon and any password are read back from "name:pass".
pub parse_auth-join :
    (name pass : Text)
    → has_byte name b':' ≡ false
    → parse_auth (name ++ b':' ∷ pass) ≡ (name, pass)
unfolding parse_auth
parse_auth-join name pass h = ground (arith, cut_first name pass b':' h)

lookup-nil : {V : Type 0} (k : Text) (v : V) → lookup k [] ≡ some v → ⊥
unfolding lookup
lookup-nil k v e = cc

module _ (regexp : Regexp) where
  open regexp use {Pattern, compile, matches, empty, matches_empty}

  -- The user `user` is an entry of the file: its name and password are what stands before and behind
  -- the first colon, and each of its addresses compiled.
  pub data IsEntry (user : User regexp) : List (Text × List Text) → Type 0 where
    here :
        {auth : Text} {remotes : List Text} {rest : List (Text × List Text)}
        → parse_auth auth ≡ (user.name, user.pass)
        → user.name ≢ []
        → decode_addrs regexp remotes ≡ some user.addrs
        → IsEntry user ((auth, remotes) ∷ rest)
    there :
        {e : Text × List Text} {rest : List (Text × List Text)}
        → IsEntry user rest
        → IsEntry user (e ∷ rest)

  pub data IsIn (user : User regexp) : List (User regexp) → Type 0 where
    first : {rest : List (User regexp)} → IsIn user (user ∷ rest)
    later : {u : User regexp} {rest : List (User regexp)} → IsIn user rest → IsIn user (u ∷ rest)

  lookup-index_users :
      (users : List (User regexp)) (m : Users regexp) (k : Text) (u : User regexp)
      → lookup k (index_users regexp users m) ≡ some u
      → (IsIn u users × (u.name ≡ k)) ⊎ (lookup k m ≡ some u)
  unfolding index_users
  lookup-index_users [] m k u h = inr h
  lookup-index_users (v ∷ users) m k u h =
      elim (lookup-index_users users (insert v.name v m) k u h) [
        | inl (i, e) ↦ inl (later i, e)
        | inr e ↦ place (rw lookup-insert at e)
      ]
    where
      found : text_eq v.name k ≡ true → v ≡ u → IsIn u (v ∷ users) × (u.name ≡ k)
      found t e = (
        subst (λ w. IsIn w (v ∷ users)) e first,
        ap (λ w. w.name) (sym e) ∙ (text_eq_iff v.name k).0 t,
      )

      place :
          (if text_eq v.name k then some v else lookup k m) ≡ some u
          → (IsIn u (v ∷ users) × (u.name ≡ k)) ⊎ (lookup k m ≡ some u)
      place e = elim (Bool-cases (text_eq v.name k)) [
        | inl t ↦ inl (found t (ground arith))
        | inr t ↦ inr (rw t at e)
      ]

  kept-index_users :
      (users : List (User regexp)) (m : Users regexp) (k : Text)
      → lookup k m ≢ none
      → lookup k (index_users regexp users m) ≢ none
  unfolding index_users
  kept-index_users [] m k h = h
  kept-index_users (v ∷ users) m k h =
      kept-index_users users (insert v.name v m) k
        (λ e. ground (arith, lookup-insert v.name k v m, h))

  found-index_users :
      (u : User regexp) (users : List (User regexp)) (m : Users regexp)
      → IsIn u users
      → lookup u.name (index_users regexp users m) ≢ none
  unfolding index_users
  found-index_users u users m (first {rest = rest}) =
      kept-index_users rest (insert u.name u m) u.name
        (λ e. ground (arith, lookup-insert u.name u.name u m, text_eq_refl u.name))
  found-index_users u users m (later {u = v} {rest = rest} i) =
      found-index_users u rest (insert v.name v m) i

  -- What a successful decoding of the first entry shows.
  pub record HeadLoaded (auth : Text) (remotes : List Text) (rest : List (Text × List Text))
      (users : List (User regexp)) : Type 0 where
    pub addrs : List Pattern
    pub others : List (User regexp)
    pub head_eq :
        users
        ≡ record { name = (parse_auth auth).0; pass = (parse_auth auth).1; addrs = addrs } ∷ others
    pub addrs_eq : decode_addrs regexp remotes ≡ some addrs
    pub rest_eq : decode_users regexp rest ≡ loaded others
    pub named : (parse_auth auth).0 ≢ []

  pub loaded-cases :
      (auth : Text) (remotes : List Text) (rest : List (Text × List Text))
      (users : List (User regexp)) (more : Decoded regexp)
      → decode_users regexp rest ≡ more
      → decode_users regexp ((auth, remotes) ∷ rest) ≡ loaded users
      → HeadLoaded auth remotes rest users
  unfolding decode_users
  loaded-cases auth remotes rest users (load_failed e) q h =
      absurd (ground (arith, Option-cases (decode_addrs regexp remotes)))
  loaded-cases auth remotes rest users (loaded others) q h =
      elim (Option-cases (decode_addrs regexp remotes)) [
        | inl n ↦ absurd (ground arith)
        | inr (addrs, e) ↦ (record {
          addrs = addrs;
          others = others;
          head_eq = ground arith;
          addrs_eq = e;
          rest_eq = q;
          named = λ z. ground (arith, text_eq_iff (parse_auth auth).0 []);
        })
      ]

  IsEntry-split :
      (u v : User regexp) (us : List (User regexp)) → IsIn u (v ∷ us) → (u ≡ v) ⊎ IsIn u us
  IsEntry-split u v us first = inl refl
  IsEntry-split u v us (later i) = inr i

  decode_users_sound :
      (raw : List (Text × List Text)) (users : List (User regexp)) (u : User regexp)
      → decode_users regexp raw ≡ loaded users
      → IsIn u users
      → IsEntry u raw
  unfolding decode_users
  decode_users_sound [] users u h i = absurd (none_in (subst (IsIn u) {y = []} (ground arith) i))
    where
      none_in : IsIn u [] → ⊥
      none_in j = elim j [ ]
  decode_users_sound ((auth, remotes) ∷ rest) users u h i =
      let l = loaded-cases auth remotes rest users _ refl h in
      elim (IsEntry-split u _ l.others (subst (IsIn u) l.head_eq i)) [
        | inl e ↦
            here (sym (ap (λ (w : User regexp). (w.name, w.pass)) e))
              (λ z. l.named (sym (ap (λ (w : User regexp). w.name) e) ∙ z))
              (l.addrs_eq ∙ ap some (sym (ap (λ (w : User regexp). w.addrs) e)))
        | inr j ↦ there (decode_users_sound rest l.others u l.rest_eq j)
      ]

  -- An entry's user stands in the list.
  abbrev Stands : List (User regexp) → Text × List Text → Type 0
  Stands users e = (u : User regexp) × IsIn u users × (u.name ≡ (parse_auth e.0).0)

  decode_users_complete :
      (raw : List (Text × List Text)) (users every : List (User regexp))
      → decode_users regexp raw ≡ loaded users
      → ((u : User regexp) → IsIn u users → IsIn u every)
      → All (Stands every) raw
  unfolding decode_users
  decode_users_complete [] users every h f = tt
  decode_users_complete ((auth, remotes) ∷ rest) users every h f =
      let l = loaded-cases auth remotes rest users _ refl h in
      let v : User regexp = record {
        name = (parse_auth auth).0;
        pass = (parse_auth auth).1;
        addrs = l.addrs;
      } in
      (
        (v, f v (subst (IsIn v) (sym l.head_eq) first), refl),
        decode_users_complete rest l.others every l.rest_eq
            (λ u i. f u (subst (IsIn u) (sym l.head_eq) (later i))),
      )

  -- What a reload leaves: after an error the users as they were; otherwise exactly those of the file,
  -- each found user an entry under its own name, and each entry's name found.
  abbrev pub Reloaded :
      List (Text × List Text) → Users regexp → Users regexp × Option LoadError → Type 0
  Reloaded raw before (after, some e) = after ≡ before
  Reloaded raw before (after, none) =
      ((k : Text) (u : User regexp) → lookup k after ≡ some u → IsEntry u raw × (u.name ≡ k))
      × All (λ e. lookup (parse_auth e.0).0 after ≢ none) raw

  found-All :
      (users : List (User regexp)) (raw : List (Text × List Text))
      → All (Stands users) raw
      → All (λ e. lookup (parse_auth e.0).0 (index_users regexp users []) ≢ none) raw
  found-All users [] h = tt
  found-All users (e ∷ raw) h = (
    subst (λ k. lookup k (index_users regexp users []) ≢ none) h.0.2
        (found-index_users h.0.0 users [] h.0.1),
    found-All users raw h.1,
  )

  reload-decoded :
      (raw : List (Text × List Text)) (before : Users regexp) (d : Decoded regexp)
      → decode_users regexp raw ≡ d
      → Reloaded raw before (load_user_index regexp (entries raw) before)
  unfolding load_user_index
  reload-decoded raw before (load_failed e) q = rw (q, load_user_index) refl
  reload-decoded raw before (loaded users) q =
      rw (q, load_user_index)
        (
          λ k u h. elim (lookup-index_users users [] k u h) [
            | inl (i, e) ↦ (decode_users_sound raw users u q i, e)
            | inr e ↦ absurd (lookup-nil k u e)
          ],
          found-All users raw (decode_users_complete raw users users q (λ u i. i)),
        )

  -- A reload that fails on a bad entry changes no user. One that succeeds drops every user that is not
  -- in the file: each user found is an entry of the file, under the name before the first colon, with
  -- the password behind it and with its addresses compiled, and every entry's name is found.
  pub load_user_index_lem :
      (raw : List (Text × List Text)) (before : Users regexp)
      → Reloaded raw before (load_user_index regexp (entries raw) before)
  load_user_index_lem raw before = reload-decoded raw before _ refl

  decode_addrs_wildcard :
      (r : Text) (rs : List Text) (ps : List Pattern) (addr : Text)
      → (r ≡ []) ⊎ (r ≡ codes "*")
      → decode_addrs regexp (r ∷ rs) ≡ some ps
      → access_loop regexp ps addr ≡ true
  unfolding decode_addrs access_loop
  decode_addrs_wildcard r rs [] addr w h = absurd (
      ground
        (arith, text_eq_iff r [], text_eq_iff r (codes "*"), Option-cases (decode_addrs regexp rs)))
  decode_addrs_wildcard r rs (p ∷ ps) addr w h = ground (
    arith,
    text_eq_iff r [],
    text_eq_iff r (codes "*"),
    Option-cases (decode_addrs regexp rs),
    matches_empty addr,
  )
