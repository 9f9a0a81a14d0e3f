-- ===== src/Server/Logins.antt =====
-- authUser of server/server.go on the users that share/settings/users.go keeps: who may log in after the
-- user file and the server's methods have changed the users.
mod Examples
use chisel_uds.Prelude.{
  ℕ, ◌==◌, Text, Bool, true, false, Option, none, some, List, [], ◌∷◌, ◌≡◌, ◌↔◌, ◌⊎◌, inl, inr,
  refl, arith, text_eq, text_eq_iff, text_eq_refl, Bool-cases, Option-cases, length, sym, ap, ◌∙◌,
  if◌then◌else◌,
}
use chisel_uds.Prelude.Dict.{Dict, lookup}
use chisel_uds.Settings.Users.{Regexp, User, Users, get, len}
use chisel_uds.Settings.Users.Index.{IndexOp, UserIndex, new_user_index, run_ops}
use chisel_uds.Settings.Users.Index.Refines.{View, Shows, specified_all, run_ops-Shows}
use chisel_uds.Server.{ServerState, auth_user}

module _ (regexp : Regexp) where
  -- The login is right: there are no users at all, or the name's user has the password.
  abbrev pub MayLogin : (Text → Option (User regexp)) → Text → Text → Type 0
  MayLogin find name password =
      ((k : Text) → find k ≡ none)
      ⊎ ((u : User regexp) × (find name ≡ some u) × (u.pass ≡ password))

  lookup-empty : (m : Users regexp) → (len regexp m == 0) ≡ true → (k : Text) → lookup k m ≡ none
  unfolding len lookup
  lookup-empty [] e k = refl
  lookup-empty (x ∷ m) e k = absurd (ground arith)

  some_found :
      (m : Users regexp) → (len regexp m == 0) ≡ false → ((k : Text) → lookup k m ≡ none) → ⊥
  unfolding len lookup
  some_found [] e h = ground arith
  some_found ((j, u) ∷ m) e h = ground (arith, h j, text_eq_refl j)

  -- With users, by what the lookup of the name finds
  login_of : Option (User regexp) → Text → Bool
  login_of none password = false
  login_of (some u) password = text_eq u.pass password

  auth_user-users :
      (sid name password : Text) (s : ServerState regexp)
      → (len regexp s.users == 0) ≡ false
      → (auth_user regexp sid name password s).1 ≡ login_of (lookup name s.users) password
  unfolding auth_user get login_of
  auth_user-users sid name password s z = elim (Option-cases (lookup name s.users)) [
    | inl n ↦ rw (auth_user, z, n) refl
    | inr (u, n) ↦ elim (Bool-cases (text_eq u.pass password)) [
      | inl b ↦ rw (auth_user, z, n, b) refl
      | inr b ↦ rw (auth_user, z, n, b) refl
    ]
  ]

  login_iff :
      (o : Option (User regexp)) (password : Text)
      → (login_of o password ≡ true) ↔ ((u : User regexp) × (o ≡ some u) × (u.pass ≡ password))
  unfolding login_of
  login_iff none password = (λ e. absurd cc, λ (u, e, p). absurd cc)
  login_iff (some v) password = (
    λ e. (v, refl, (text_eq_iff v.pass password).0 e),
    λ (u, e, p).
        (text_eq_iff v.pass password).1 (let q : u ≡ v = cc in ap (λ w. w.pass) (sym q) ∙ p),
  )

  auth_user_iff :
      (sid name password : Text) (s : ServerState regexp)
      → ((auth_user regexp sid name password s).1 ≡ true)
        ↔ MayLogin (λ k. lookup k s.users) name password
  unfolding auth_user
  auth_user_iff sid name password s = elim (Bool-cases (len regexp s.users == 0)) [
    | inl z ↦ (λ e. inl (lookup-empty s.users z), λ h. rw (auth_user, z) refl)
    | inr z ↦
        let q = auth_user-users sid name password s z in
        let (f, g) = login_iff (lookup name s.users) password in
        (
          λ e. inr (f (sym q ∙ e)),
          λ h. elim h [ inl a ↦ absurd (some_found s.users z a) | inr b ↦ q ∙ g b ],
        )
  ]

  MayLogin-eq :
      (find find' : Text → Option (User regexp)) (name password : Text)
      → ((k : Text) → find k ≡ find' k)
      → MayLogin find name password
      → MayLogin find' name password
  MayLogin-eq find find' name password e (inl h) = inl (λ k. sym (e k) ∙ h k)
  MayLogin-eq find find' name password e (inr (u, h, p)) = inr (u, sym (e name) ∙ h, p)

  -- no users, and no file
  abbrev pub nobody : View regexp
  nobody = record { find = λ k. none; file = []; watched = false }

  -- the view of the specification after the changes
  abbrev pub viewed : List (IndexOp regexp) → View regexp
  viewed ops = specified_all regexp ops nobody

  nobody-Shows : Shows regexp (new_user_index regexp) nobody
  unfolding lookup
  nobody-Shows = (λ k. refl, refl, refl)

  -- After any loads, writes of the watched file, and users added, deleted and reset, authUser accepts a
  -- login exactly if the specification of the changes leaves no user at all, or a user of that name with
  -- that password.
  pub logins_specified :
      (ops : List (IndexOp regexp)) (sid name password : Text) (s : ServerState regexp)
      → s.users ≡ (run_ops regexp ops (new_user_index regexp)).users
      → ((auth_user regexp sid name password s).1 ≡ true) ↔ MayLogin (viewed ops).find name password
  logins_specified ops sid name password s e =
      let same = (run_ops-Shows regexp ops (new_user_index regexp) nobody nobody-Shows).0 in
      let found : (k : Text) → lookup k s.users ≡ (viewed ops).find k =
        λ k. ap (lookup k) e ∙ same k in
      let (f, g) = auth_user_iff sid name password s in
      (
        λ h. MayLogin-eq _ _ name password found (f h),
        λ h. g (MayLogin-eq _ _ name password (λ k. sym (found k)) h),
      )
