-- ===== src/Server/Admission.antt =====
-- server/server_handler.go: which lists of remotes the loop over them accepts.
use chisel_uds.Prelude.{
  Text, Bool, true, false, Option, none, some, List, [], ◌∷◌, ◌≡◌, inl, inr, refl, arith, map, All,
  Bool-cases, Option-cases, ap, sym, ◌∙◌, subst,
}
use chisel_uds.Settings.Users.{Regexp, User, has_access}
use chisel_uds.Settings.Remote.Types.{Remote}
use chisel_uds.Settings.Remote.Print.{Host, can_listen, user_addr}
use chisel_uds.Server.{Verdict, valid, denied, nil_remote, lacks_access, objection, validate}

module _ (regexp : Regexp) where
  -- What a remote needs to be served: the user, if there is one, has access to its address; and if it
  -- is reversed, the server allows that and can listen on it.
  pub record IsPermitted (user : Option (User regexp)) (reverse : Bool) (host : Host) (r : Remote)
      : Type 0 where
    pub access : (u : User regexp) → user ≡ some u → has_access regexp u (user_addr r) ≡ true
    pub enabled : r.reverse ≡ true → reverse ≡ true
    pub listens : r.reverse ≡ true → can_listen host r ≡ true

  same : (v u : User regexp) → some v ≡ some u → v ≡ u
  same v u e = cc

  lacks_access_none :
      (user : Option (User regexp)) (u : User regexp) (addr : Text)
      → lacks_access regexp user addr ≡ false
      → user ≡ some u
      → has_access regexp u addr ≡ true
  lacks_access_none none u addr h e = cc
  lacks_access_none (some v) u addr h e =
      subst (λ w. has_access regexp w addr ≡ true) (same v u e) (ground arith)

  objection-IsPermitted :
      (user : Option (User regexp)) (reverse : Bool) (host : Host) (r : Remote)
      → objection regexp user reverse host r ≡ none
      → IsPermitted user reverse host r
  unfolding objection
  objection-IsPermitted user reverse host r h = record {
    access = λ u e. lacks_access_none user u (user_addr r) (ground arith) e;
    enabled = λ e. ground arith;
    listens = λ e. ground arith;
  }

  -- What an accepted first remote shows.
  record HeadValid (user : Option (User regexp)) (reverse : Bool) (host : Host) (r : Remote)
      (rest : List (Option Remote)) (rs : List Remote) : Type 0 where
    others : List Remote
    head_eq : rs ≡ r ∷ others
    no_objection : objection regexp user reverse host r ≡ none
    rest_eq : validate regexp user reverse host rest ≡ valid others

  valid-cases :
      (user : Option (User regexp)) (reverse : Bool) (host : Host) (r : Remote)
      (rest : List (Option Remote)) (rs : List Remote) (more : Verdict)
      → validate regexp user reverse host rest ≡ more
      → validate regexp user reverse host (some r ∷ rest) ≡ valid rs
      → HeadValid user reverse host r rest rs
  unfolding validate
  valid-cases user reverse host r rest rs (denied e) q h =
      absurd (ground (arith, Option-cases (objection regexp user reverse host r)))
  valid-cases user reverse host r rest rs nil_remote q h =
      absurd (ground (arith, Option-cases (objection regexp user reverse host r)))
  valid-cases user reverse host r rest rs (valid others) q h =
      elim (Option-cases (objection regexp user reverse host r)) [
        | inl n ↦ record { others = others; head_eq = ground arith; no_objection = n; rest_eq = q }
        | inr (e, n) ↦ absurd (ground arith)
      ]

  -- The loop over the remotes accepts exactly the lists in which no remote is nil and each is permitted
  -- to the user; the remotes are then all of them, in order.
  pub validate-valid :
      (user : Option (User regexp)) (reverse : Bool) (host : Host) (remotes : List (Option Remote))
      (rs : List Remote)
      → validate regexp user reverse host remotes ≡ valid rs
      → (remotes ≡ map some rs) × All (IsPermitted user reverse host) rs
  unfolding validate
  validate-valid user reverse host [] [] h = (refl, tt)
  validate-valid user reverse host [] (r ∷ rs) h = absurd cc
  validate-valid user reverse host (none ∷ rest) rs h = absurd cc
  validate-valid user reverse host (some r ∷ rest) rs h =
      let l = valid-cases user reverse host r rest rs _ refl h in
      let (e, a) = validate-valid user reverse host rest l.others l.rest_eq in
      (
        ap (λ m. some r ∷ m) e ∙ ap (map some) (sym l.head_eq),
        subst (All (IsPermitted user reverse host)) (sym l.head_eq)
            (objection-IsPermitted user reverse host r l.no_objection, a),
      )

  not_lacking :
      (user : Option (User regexp)) (addr : Text)
      → ((u : User regexp) → user ≡ some u → has_access regexp u addr ≡ true)
      → lacks_access regexp user addr ≡ false
  not_lacking none addr h = refl
  not_lacking (some u) addr h = rw (h u refl) refl

  objection-none :
      (user : Option (User regexp)) (reverse : Bool) (host : Host) (r : Remote)
      → IsPermitted user reverse host r
      → objection regexp user reverse host r ≡ none
  unfolding objection
  objection-none user reverse host r p =
      let n = not_lacking user (user_addr r) p.access in
      elim (Bool-cases r.reverse) [
        | inl t ↦
            (let a = p.enabled t in let l = p.listens t in rw (objection, n, a, l) (ground arith))
        | inr f ↦ rw (objection, n, f) refl
      ]

  -- The loop over the remotes accepts a list in which each remote is permitted.
  pub validate-permitted :
      (user : Option (User regexp)) (reverse : Bool) (host : Host) (rs : List Remote)
      → All (IsPermitted user reverse host) rs
      → validate regexp user reverse host (map some rs) ≡ valid rs
  unfolding validate
  validate-permitted user reverse host [] a = refl
  validate-permitted user reverse host (r ∷ rs) (p, a) =
      rw (validate, objection-none user reverse host r p, validate-permitted user reverse host rs a)
        refl
