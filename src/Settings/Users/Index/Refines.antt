-- ===== src/Settings/Users/Index/Refines.antt =====
-- The server's users against their specification: a function from names to users.
use chisel_uds.Prelude.{
  Text, Bool, true, false, Option, none, some, List, [], ◌∷◌, ◌≡◌, refl, arith, text_eq,
  Option-cases, inl, inr, ap, sym, ◌∙◌, subst, if◌then◌else◌,
}
use chisel_uds.Prelude.Dict.{lookup, insert, lookup-insert, lookup-remove}
use chisel_uds.Settings.Users.{
  Regexp, User, Users, AuthFile, LoadError, failing, entries, Decoded, loaded, load_failed,
  index_users, decode_users, load_user_index, add_user, set, del, reset,
}
use chisel_uds.Settings.Users.Index.{
  UserIndex, IndexOp, adds, deletes, resets, loads, changes, run_op, run_ops, file_at, reload,
  watch, load_users, on_event, compile_addrs, add_compiled, server_add_user, server_delete_user,
  server_reset_users,
}

module _ (regexp : Regexp) where
  open regexp use {Pattern}

  -- The users as the rest of the server sees them, with the name of the file and whether it is watched.
  pub record View : Type 0 where
    pub find : Text → Option (User regexp)
    pub file : Text
    pub watched : Bool

  -- The last user of a list with a name
  abbrev pub last_named : Text → List (User regexp) → Option (User regexp)
  last_named k [] = none
  last_named k (u ∷ rest) = elim (last_named k rest) [
    | some v ↦ some v
    | none ↦ (if text_eq u.name k then some u else none)
  ]

  -- The users that a file describes, if it can be read and has no bad entry
  abbrev pub described : AuthFile → Option (List (User regexp))
  described (failing e) = none
  described (entries raw) = elim (decode_users regexp raw) [
    | loaded users ↦ some users
    | load_failed e ↦ none
  ]

  -- Either all users are replaced by the file's, or none is changed.
  abbrev pub refreshed : Option (List (User regexp)) → View → View
  refreshed none v = v
  refreshed (some users) v = record v { find = λ k. last_named k users }

  -- The user is found if its addresses compiled.
  abbrev pub added : Text → Text → Option (List Pattern) → View → View
  added name pass none v = v
  added name pass (some ps) v = record v {
    find = λ k.
        if text_eq name k then some (record { name = name; pass = pass; addrs = ps }) else v.find k;
  }

  -- After a load the file is watched unless it was bad or the watcher failed.
  abbrev pub watched_after : Option (List (User regexp)) → Option Text → View → View
  watched_after none w v = v
  watched_after (some users) (some e) v = refreshed (some users) v
  watched_after (some users) none v = record (refreshed (some users) v) { watched = true }

  abbrev pub specified : IndexOp regexp → View → View
  specified (adds name pass addrs) v = added name pass (compile_addrs regexp addrs) v
  specified (deletes name) v = record v { find = λ k. if text_eq name k then none else v.find k }
  specified (resets users) v = record v { find = λ k. last_named k users }
  specified (loads read w name) v =
      watched_after (described (file_at regexp read name)) w (record v { file = name })
  specified (changes write read) v =
      if v.watched
      then (if write then refreshed (described (file_at regexp read v.file)) v else v)
      else v

  abbrev pub specified_all : List (IndexOp regexp) → View → View
  specified_all [] v = v
  specified_all (op ∷ rest) v = specified_all rest (specified op v)

  -- The index and the specification say the same about every name.
  abbrev pub Shows : UserIndex regexp → View → Type 0
  Shows x v =
      ((k : Text) → lookup k x.users ≡ v.find k)
      × (x.config_file ≡ v.file)
      × (x.watching ≡ v.watched)

  lookup-index_users :
      (users : List (User regexp)) (m : Users regexp) (k : Text)
      → lookup k (index_users regexp users m)
        ≡ (elim (last_named k users) [ some v ↦ some v | none ↦ lookup k m ])
  unfolding index_users
  lookup-index_users [] m k = refl
  lookup-index_users (u ∷ rest) m k =
      lookup-index_users rest (insert u.name u m) k ∙ (elim (Option-cases (last_named k rest)) [
        | inr (v, e) ↦ ground arith
        | inl e ↦ ground (arith, lookup-insert u.name k u m)
      ])

  lookup-reset :
      (users : List (User regexp)) (m : Users regexp) (k : Text)
      → lookup k (reset regexp users m) ≡ last_named k users
  unfolding reset lookup
  lookup-reset users m k = elim (Option-cases (last_named k users)) [
    | inl e ↦ lookup-index_users users [] k ∙ ground arith
    | inr (v, e) ↦ lookup-index_users users [] k ∙ ground arith
  ]

  -- A load fails and keeps the users, or replaces them by those that the file describes.
  abbrev Matches :
      Users regexp → Users regexp × Option LoadError → Option (List (User regexp)) → Type 0
  Matches u (m, some e) none = m ≡ u
  Matches u (m, none) (some us) = m ≡ reset regexp us u
  Matches u (m, some e) (some us) = ⊥
  Matches u (m, none) none = ⊥

  load-Matches :
      (f : AuthFile) (u : Users regexp) → Matches u (load_user_index regexp f u) (described f)
  unfolding load_user_index
  load-Matches (failing e) u = refl
  load-Matches (entries raw) u = decoded (decode_users regexp raw)
    where
      decoded :
          (d : Decoded regexp)
          → Matches u
              (elim d [ loaded us ↦ (reset regexp us u, none) | load_failed e ↦ (u, some e) ])
              (elim d [ loaded us ↦ some us | load_failed e ↦ none ])
      decoded (loaded us) = refl
      decoded (load_failed e) = refl

  watch-Shows :
      (x : UserIndex regexp) (v : View) (r : Users regexp × Option LoadError)
      (d : Option (List (User regexp))) (w : Option Text)
      → Shows x v
      → Matches x.users r d
      → Shows (watch regexp w (record x { users = r.0 }, r.1)).0 (watched_after d w v)
  unfolding watch
  watch-Shows x v (m, some e) none w h q = (λ k. ap (lookup k) q ∙ h.0 k, h.1, h.2)
  watch-Shows x v (m, none) (some us) (some e) h q =
      (λ k. ap (lookup k) q ∙ lookup-reset us x.users k, h.1, h.2)
  watch-Shows x v (m, none) (some us) none h q =
      (λ k. ap (lookup k) q ∙ lookup-reset us x.users k, h.1, refl)
  watch-Shows x v (m, some e) (some us) w h q = absurd q
  watch-Shows x v (m, none) none w h q = absurd q

  refresh-Shows :
      (x : UserIndex regexp) (v : View) (r : Users regexp × Option LoadError)
      (d : Option (List (User regexp)))
      → Shows x v
      → Matches x.users r d
      → Shows (record x { users = r.0 }) (refreshed d v)
  refresh-Shows x v (m, some e) none h q = (λ k. ap (lookup k) q ∙ h.0 k, h.1, h.2)
  refresh-Shows x v (m, none) (some us) h q =
      (λ k. ap (lookup k) q ∙ lookup-reset us x.users k, h.1, h.2)
  refresh-Shows x v (m, some e) (some us) h q = absurd q
  refresh-Shows x v (m, none) none h q = absurd q

  add-Shows :
      (name pass : Text) (d : Option (List Pattern)) (x : UserIndex regexp) (v : View)
      → Shows x v
      → Shows (add_compiled regexp name pass d x).0 (added name pass d v)
  unfolding add_compiled add_user set
  add-Shows name pass none x v h = h
  add-Shows name pass (some ps) x v h =
      (λ k. lookup-insert name k _ x.users ∙ ground (arith, h.0 k), h.1, h.2)

  change-Shows :
      (write watched : Bool) (name : Text) (read : Text → AuthFile) (x : UserIndex regexp)
      (v : View)
      → Shows x v
      → x.config_file ≡ name
      → Shows (if watched then on_event regexp write read x else x) (
          if watched
          then (if write then refreshed (described (file_at regexp read name)) v else v)
          else v)
  unfolding on_event reload
  change-Shows write false name read x v h e = h
  change-Shows false true name read x v h e = h
  change-Shows true true name read x v h e =
      let before = file_at regexp read x.config_file in
      let r = load_user_index regexp before x.users in
      refresh-Shows x v r (described (file_at regexp read name)) h (
        subst (λ n. Matches x.users r (described (file_at regexp read n))) e
          (load-Matches before x.users))

  op-Shows :
      (op : IndexOp regexp) (x : UserIndex regexp) (v : View)
      → Shows x v
      → Shows (run_op regexp op x) (specified op v)
  unfolding run_op server_add_user server_delete_user server_reset_users load_users reload del
  op-Shows (adds name pass addrs) x v h = add-Shows name pass (compile_addrs regexp addrs) x v h
  op-Shows (deletes name) x v h =
      (λ k. lookup-remove name k x.users ∙ ground (arith, h.0 k), h.1, h.2)
  op-Shows (resets users) x v h = (λ k. lookup-reset users x.users k, h.1, h.2)
  op-Shows (loads read w name) x v h =
      watch-Shows (record x { config_file = name }) (record v { file = name }) _ _ w
        (h.0, refl, h.2) (load-Matches (file_at regexp read name) x.users)
  op-Shows (changes write read) x v h =
      subst
        (λ b.
          Shows (if b then on_event regexp write read x else x) (specified (changes write read) v))
        (sym h.2) (change-Shows write v.watched v.file read x v h h.1)

  -- Whatever happens to the index, and in whatever order, the users that the server finds are those that
  -- the specification says: an added user under its name if each address compiled, none under a deleted
  -- name, and after a reset, a load or a write of the watched file exactly the last user of each name in
  -- the list or the file, if the file could be read and has no bad entry; otherwise the users stay.
  pub run_ops-Shows :
      (ops : List (IndexOp regexp)) (x : UserIndex regexp) (v : View)
      → Shows x v
      → Shows (run_ops regexp ops x) (specified_all ops v)
  unfolding run_ops
  run_ops-Shows [] x v h = h
  run_ops-Shows (op ∷ rest) x v h =
      run_ops-Shows rest (run_op regexp op x) (specified op v) (op-Shows op x v h)
