-- ===== src/Settings/Users.antt =====
-- share/settings/user.go and users.go: users, their addresses, and the index that a file reloads.
-- The methods of `Users` hold the lock for the one access to the map that each makes.
-- The package `regexp` is a parameter: what compiles, and what a pattern matches.
pub mod Load
pub mod Order
pub mod Index
pub mod Examples
use chisel_uds.Prelude.{
  ℕ, Text, codes, Bool, true, false, ◌||◌, Option, none, some, List, [], ◌∷◌, ◌≡◌, text_eq, cut,
  length, if◌then◌else◌,
}
use chisel_uds.Prelude.Dict.{Dict, lookup, insert, remove}

-- An empty expression compiles and matches every text.
pub record Regexp : Type 1 where
  pub Pattern : Type 0
  pub compile : Text → Option Pattern
  pub matches : Pattern → Text → Bool
  pub empty : Pattern
  pub compile_empty : compile [] ≡ some empty
  pub matches_empty : (s : Text) → matches empty s ≡ true

-- strings.SplitN(auth, ":", 2) if there is a colon
unfoldable pub parse_auth : Text → Text × Text
parse_auth auth = elim (cut auth b':') [ none ↦ ([], []) | some pair ↦ pair ]

-- why `loadUserIndex` fails
pub data LoadError : Type 0 where
  not_set unreadable invalid_json invalid_auth invalid_address : LoadError

-- What stands behind the configured file name: no name, a file that cannot be read, one that is not
-- JSON of the right type, or its object in the order in which Go ranges over the map.
pub data AuthFile : Type 0 where
  failing : LoadError → AuthFile
  entries : List (Text × List Text) → AuthFile

module _ (regexp : Regexp) where
  open regexp use {Pattern, compile, matches, empty}

  pub record User : Type 0 where
    pub name : Text
    pub pass : Text
    pub addrs : List Pattern

  -- UserAllowAll
  abbrev pub user_allow_all : Pattern
  user_allow_all = empty

  access_loop : List Pattern → Text → Bool
  access_loop [] addr = false
  access_loop (r ∷ rest) addr =
      let more = access_loop rest addr in if matches r addr then true else more

  unfoldable pub has_access : User → Text → Bool
  unfolding access_loop
  has_access user addr = access_loop user.addrs addr

  abbrev pub Users : Type 0
  Users = Dict User

  unfoldable pub len : Users → ℕ
  len u = length u

  unfoldable pub get : Text → Users → Option User
  get key u = lookup key u

  unfoldable pub set : Text → User → Users → Users
  set key user u = insert key user u

  unfoldable pub del : Text → Users → Users
  del key u = remove key u

  unfoldable pub add_user : User → Users → Users
  unfolding set
  add_user user u = set user.name user u

  -- the loop of `Reset` over the new map
  unfoldable pub index_users : List User → Users → Users
  index_users [] m = m
  index_users (user ∷ rest) m = index_users rest (insert user.name user m)

  unfoldable pub reset : List User → Users → Users
  unfolding index_users
  reset users u = index_users users []

  -- the inner loop of `loadUserIndex`
  unfoldable pub decode_addrs : List Text → Option (List Pattern)
  decode_addrs [] = some []
  decode_addrs (r ∷ rest) =
      let more = decode_addrs rest in
      if text_eq r [] || text_eq r (codes "*")
      then (elim more [ none ↦ none | some ps ↦ some (user_allow_all ∷ ps) ])
      else (elim (compile r) [
        | none ↦ none
        | some p ↦ (elim more [ none ↦ none | some ps ↦ some (p ∷ ps) ])
      ])

  pub data Decoded : Type 0 where
    loaded : List User → Decoded
    load_failed : LoadError → Decoded

  abbrev pub cons_user : User → Decoded → Decoded
  cons_user user (loaded users) = loaded (user ∷ users)
  cons_user user (load_failed e) = load_failed e

  -- the outer loop: the first bad entry ends it
  unfoldable pub decode_users : List (Text × List Text) → Decoded
  decode_users [] = loaded []
  decode_users ((auth, remotes) ∷ rest) =
      let more = decode_users rest in
      let (name, pass) = parse_auth auth in
      if text_eq name [] then load_failed invalid_auth else (elim (decode_addrs remotes) [
        | none ↦ load_failed invalid_address
        | some addrs ↦ cons_user (record { name = name; pass = pass; addrs = addrs }) more
      ])

  -- The users after the call, and the error that it returns.
  unfoldable pub load_user_index : AuthFile → Users → Users × Option LoadError
  unfolding reset
  load_user_index (failing e) u = (u, some e)
  load_user_index (entries raw) u = elim (decode_users raw) [
    | loaded users ↦ (reset users u, none)
    | load_failed e ↦ (u, some e)
  ]
