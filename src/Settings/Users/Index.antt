-- ===== src/Settings/Users/Index.antt =====
-- The life of the server's users: share/settings/users.go `UserIndex`, with the methods of
-- server/server.go that change them. What stands behind a file name when it is read, and the error of
-- the watcher, are given.
pub mod Refines
use chisel_uds.Prelude.{
  Text, Bool, true, false, Option, none, some, List, [], ◌∷◌, text_eq, if◌then◌else◌,
}
use chisel_uds.Settings.Users.{
  Regexp, User, Users, AuthFile, LoadError, failing, not_set, load_user_index, add_user, del, reset,
}

module _ (regexp : Regexp) where
  open regexp use {Pattern, compile}

  -- `watching`: a goroutine of `addWatchEvents` receives the events of the file.
  pub record UserIndex : Type 0 where
    pub users : Users regexp
    pub config_file : Text
    pub watching : Bool

  abbrev pub new_user_index : UserIndex
  new_user_index = record { users = []; config_file = []; watching = false }

  -- why `LoadUsers` fails: the load, or the watcher
  pub data IndexError : Type 0 where
    not_loaded : LoadError → IndexError
    not_watched : Text → IndexError

  -- what `loadUserIndex` reads: the configured name is tested first
  unfoldable pub file_at : (Text → AuthFile) → Text → AuthFile
  file_at read name = if text_eq name [] then failing not_set else read name

  -- `loadUserIndex` on the index
  unfoldable pub reload : (Text → AuthFile) → UserIndex → UserIndex × Option LoadError
  unfolding file_at
  reload read x =
      let (users, e) = load_user_index regexp (file_at read x.config_file) x.users in
      (record x { users = users }, e)

  -- `LoadUsers` behind its first load, whose users stay if the watcher fails
  unfoldable pub watch : Option Text → UserIndex × Option LoadError → UserIndex × Option IndexError
  watch w (x, some e) = (x, some (not_loaded e))
  watch (some e) (x, none) = (x, some (not_watched e))
  watch none (x, none) = (record x { watching = true }, none)

  -- with the error of NewWatcher or of its Add
  unfoldable pub load_users :
      (Text → AuthFile) → Option Text → Text → UserIndex → UserIndex × Option IndexError
  unfolding watch reload
  load_users read w config_file x = watch w (reload read (record x { config_file = config_file }))

  -- one turn of the loop of `addWatchEvents`, for an event with or without the bit `Write`
  unfoldable pub on_event : Bool → (Text → AuthFile) → UserIndex → UserIndex
  unfolding reload
  on_event write read x = if write then (reload read x).0 else x

  -- the loop of the server's `AddUser`
  unfoldable pub compile_addrs : List Text → Option (List Pattern)
  compile_addrs [] = some []
  compile_addrs (addr ∷ rest) =
      let more = compile_addrs rest in
      elim (compile addr) [
        | none ↦ none
        | some p ↦ (elim more [ none ↦ none | some ps ↦ some (p ∷ ps) ])
      ]

  -- Server.AddUser behind that loop: the users, and whether it returns an error
  unfoldable pub add_compiled : Text → Text → Option (List Pattern) → UserIndex → UserIndex × Bool
  unfolding add_user
  add_compiled name pass none x = (x, true)
  add_compiled name pass (some addrs) x =
      let user : User regexp = record { name = name; pass = pass; addrs = addrs } in
      (record x { users = add_user regexp user x.users }, false)

  unfoldable pub server_add_user : Text → Text → List Text → UserIndex → UserIndex × Bool
  unfolding compile_addrs add_compiled
  server_add_user name pass addrs x = add_compiled name pass (compile_addrs addrs) x

  -- Server.DeleteUser
  unfoldable pub server_delete_user : Text → UserIndex → UserIndex
  unfolding del
  server_delete_user name x = record x { users = del regexp name x.users }

  -- Server.ResetUsers, of users that are not nil
  unfoldable pub server_reset_users : List (User regexp) → UserIndex → UserIndex
  unfolding reset
  server_reset_users users x = record x { users = reset regexp users x.users }

  -- What happens to the index, in the order in which the lock is taken.
  pub data IndexOp : Type 0 where
    adds : Text → Text → List Text → IndexOp
    deletes : Text → IndexOp
    resets : List (User regexp) → IndexOp
    loads : (Text → AuthFile) → Option Text → Text → IndexOp
    changes : Bool → (Text → AuthFile) → IndexOp

  -- An event of the file reaches the index only if it is watched.
  unfoldable pub run_op : IndexOp → UserIndex → UserIndex
  unfolding server_add_user server_delete_user server_reset_users load_users on_event
  run_op (adds name pass addrs) x = (server_add_user name pass addrs x).0
  run_op (deletes name) x = server_delete_user name x
  run_op (resets users) x = server_reset_users users x
  run_op (loads read w name) x = (load_users read w name x).0
  run_op (changes write read) x = if x.watching then on_event write read x else x

  unfoldable pub run_ops : List IndexOp → UserIndex → UserIndex
  unfolding run_op
  run_ops [] x = x
  run_ops (op ∷ rest) x = run_ops rest (run_op op x)
