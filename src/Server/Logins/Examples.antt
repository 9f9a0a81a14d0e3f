-- ===== src/Server/Logins/Examples.antt =====
-- Logins after the changes of the users in Settings.Users.Examples, and after the file was emptied.
use chisel_uds.Prelude.{
  codes, true, false, List, [], ◌∷◌, ◌++◌, ◌≡◌, ◌↔◌, refl, text_eq, cut, has_byte,
}
use chisel_uds.Prelude.Dict.{insert, lookup, remove}
use chisel_uds.Settings.Users.{len, get, load_user_index, decode_users, decode_addrs, parse_auth}
use chisel_uds.Settings.Users.Index.{IndexOp, changes, new_user_index, run_ops}
use chisel_uds.Settings.Users.Examples.{exact_texts, ops, read_nothing}
use chisel_uds.Monitor.{new_monitor_state}
use chisel_uds.Server.{ServerState, auth_user}
use chisel_uds.Server.Logins.{MayLogin, viewed, logins_specified}

abbrev after : List (IndexOp exact_texts) → ServerState exact_texts
after ops' = record {
  users = (run_ops exact_texts ops' (new_user_index exact_texts)).users;
  sessions = [];
  monitor = new_monitor_state;
  sess_count = 0;
}

logins_specified_example :
    ((auth_user exact_texts (codes "hash") (codes "ann") (codes "x:y") (after ops)).1 ≡ true)
    ↔ MayLogin exact_texts (viewed exact_texts ops).find (codes "ann") (codes "x:y")
logins_specified_example =
    logins_specified exact_texts ops (codes "hash") (codes "ann") (codes "x:y") (after ops) refl

-- Bob is deleted, and anybody may log in once a write leaves the file without entries.
opens :
    ((auth_user exact_texts (codes "hash") (codes "bob") (codes "z") (after ops)).1 ≡ false)
    × ((auth_user exact_texts
          (codes "hash")
          (codes "bob")
          []
          (after (ops ++ changes true read_nothing ∷ []))).1
        ≡ true)
unfolding auth_user len get run_ops load_user_index decode_users decode_addrs parse_auth cut text_eq
    has_byte insert lookup remove
opens = (refl, refl)
