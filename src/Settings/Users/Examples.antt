-- ===== src/Settings/Users/Examples.antt =====
-- The theorems about users at a concrete file, with patterns that match the one text they spell.
use chisel_uds.Prelude.{
  Text, Bool, true, false, codes, [], ◌∷◌, List, ◌≡◌, ◌≢◌, refl, arith, text_eq_iff, none, some,
  Option, text_eq, cut, has_byte, if◌then◌else◌,
}
use chisel_uds.Prelude.Dict.{lookup, insert, remove}
use chisel_uds.Settings.Users.{
  Regexp, User, AuthFile, entries, parse_auth, load_user_index, decode_addrs, decode_users,
  invalid_address,
}
use chisel_uds.Settings.Users.Load.{Reloaded, load_user_index_lem}
use chisel_uds.Settings.Users.Order.{NamesDiffer, AreAlike, orders_alike}
use chisel_uds.Settings.Users.Index.{
  IndexOp, loads, adds, changes, deletes, new_user_index, run_op, run_ops,
}
use chisel_uds.Settings.Users.Index.Refines.{View, Shows, specified_all, run_ops-Shows}
use mathlib.Core.List.Permᴰ.{swap}

abbrev pub matches_text : Text → Text → Bool
matches_text pattern s = if text_eq pattern [] then true else text_eq pattern s

abbrev pub compile_text : Text → Option Text
compile_text s = if has_byte s b'(' then none else some s

pub compile_text-nil : compile_text [] ≡ some []
unfolding has_byte
compile_text-nil = refl

pub matches_text-nil : (s : Text) → matches_text [] s ≡ true
unfolding text_eq
matches_text-nil s = refl

abbrev pub exact_texts : Regexp
exact_texts = record {
  Pattern = Text;
  compile = compile_text;
  matches = matches_text;
  empty = [];
  compile_empty = compile_text-nil;
  matches_empty = matches_text-nil;
}

abbrev pub ann : User exact_texts
ann = record { name = codes "ann"; pass = codes "x:y"; addrs = codes "db:5432" ∷ [] }

abbrev pub file : List (Text × List Text)
file = (codes "ann:x:y", codes "db:5432" ∷ []) ∷ (codes "bob:z", codes "*" ∷ []) ∷ []

abbrev bad_file : List (Text × List Text)
bad_file = (codes "ann:x:y", codes "db:5432" ∷ []) ∷ (codes "bob:z", codes "(" ∷ []) ∷ []

loads_file : (load_user_index exact_texts (entries file) []).1 ≡ none
unfolding load_user_index decode_users decode_addrs parse_auth cut text_eq has_byte insert
loads_file = refl

finds_ann : lookup (codes "ann") (load_user_index exact_texts (entries file) []).0 ≡ some ann
unfolding load_user_index decode_users decode_addrs parse_auth cut text_eq has_byte insert lookup
finds_ann = refl

keeps_users :
    load_user_index exact_texts (entries bad_file) ((codes "ann", ann) ∷ [])
    ≡ ((codes "ann", ann) ∷ [], some invalid_address)
unfolding load_user_index decode_users decode_addrs parse_auth cut text_eq has_byte insert
keeps_users = refl

abbrev reordered : List (Text × List Text)
reordered = (codes "bob:z", codes "*" ∷ []) ∷ (codes "ann:x:y", codes "db:5432" ∷ []) ∷ []

differ : (s t : Text) → text_eq s t ≡ false → s ≢ t
differ s t h e = ground (arith, text_eq_iff s t)

file-NamesDiffer : NamesDiffer file
unfolding parse_auth cut text_eq
file-NamesDiffer = ((differ (codes "ann") (codes "bob") refl, tt), (tt, tt))

orders_alike_example :
    AreAlike exact_texts
      (load_user_index exact_texts (entries file) [])
      (load_user_index exact_texts (entries reordered) [])
orders_alike_example = orders_alike exact_texts file reordered [] (swap refl refl) file-NamesDiffer

-- Two entries of one name: the last one in the order of the map gives the password.
abbrev twice : List (Text × List Text)
twice = (codes "bob:1", []) ∷ (codes "bob:2", []) ∷ []

abbrev twice_reordered : List (Text × List Text)
twice_reordered = (codes "bob:2", []) ∷ (codes "bob:1", []) ∷ []

abbrev bob : Text → User exact_texts
bob pass = record { name = codes "bob"; pass = pass; addrs = [] }

order_decides :
    (lookup (codes "bob") (load_user_index exact_texts (entries twice) []).0
      ≡ some (bob (codes "2")))
    × (lookup (codes "bob") (load_user_index exact_texts (entries twice_reordered) []).0
        ≡ some (bob (codes "1")))
unfolding load_user_index decode_users decode_addrs parse_auth cut text_eq has_byte insert lookup
order_decides = (refl, refl)

abbrev pub read_file : Text → AuthFile
read_file name = entries file

abbrev pub read_nothing : Text → AuthFile
read_nothing name = entries []

abbrev pub ops : List (IndexOp exact_texts)
ops =
    loads read_file none (codes "users.json")
    ∷ adds (codes "eve") (codes "pw") ([] ∷ [])
    ∷ changes true read_file
    ∷ deletes (codes "bob")
    ∷ []

abbrev nobody : View exact_texts
nobody = record { find = λ k. none; file = []; watched = false }

nobody-Shows : Shows exact_texts (new_user_index exact_texts) nobody
unfolding lookup
nobody-Shows = (λ k. refl, refl, refl)

-- A user that was added is gone after the next write of the file.
forgets_eve :
    lookup (codes "eve") (run_ops exact_texts ops (new_user_index exact_texts)).users ≡ none
unfolding run_ops load_user_index decode_users decode_addrs parse_auth cut text_eq has_byte insert
    lookup remove
forgets_eve = refl

-- A write that leaves no entries leaves no users.
forgets_all :
    (run_op exact_texts
      (changes true read_nothing)
      (run_ops exact_texts ops (new_user_index exact_texts))).users
    ≡ []
unfolding run_op run_ops load_user_index decode_users decode_addrs parse_auth cut text_eq has_byte
    insert lookup remove
forgets_all = refl

run_ops-Shows_example :
    Shows exact_texts
      (run_ops exact_texts ops (new_user_index exact_texts))
      (specified_all exact_texts ops nobody)
run_ops-Shows_example =
    run_ops-Shows exact_texts ops (new_user_index exact_texts) nobody nobody-Shows

load_user_index_lem_example :
    Reloaded exact_texts file [] (load_user_index exact_texts (entries file) [])
load_user_index_lem_example = load_user_index_lem exact_texts file []
