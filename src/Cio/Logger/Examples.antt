-- ===== src/Cio/Logger/Examples.antt =====
-- The loggers of a server, its tunnel and one of its connections, with a format that knows "%s" alone.
use chisel_uds.Prelude.{
  ℕ, Text, codes, true, false, ◌&&◌, none, some, List, [], ◌∷◌, ◌++◌, ◌==◌, ◌≡◌, refl, ap,
  if◌then◌else◌,
}
use chisel_uds.Cio.Logger.{
  Fmt, debug, Logger, flag, at, update, new_logger, fork_flag, set_own, forked, fork, is_on, logf,
  errorf, LogOp, makes, forks, run_ops,
}
use chisel_uds.Cio.Logger.Stores.{root_of}
use chisel_uds.Cio.Logger.Roots.{turns_on}

abbrev spell : Text → List Text → Text
spell [] args = []
spell (c ∷ []) args = c ∷ []
spell (c ∷ d ∷ rest) [] = let more = spell (d ∷ rest) [] in c ∷ more
spell (c ∷ d ∷ rest) (a ∷ args) =
    let found = spell rest args in
    let more = spell (d ∷ rest) (a ∷ args) in
    if c == b'%' && d == b's' then a ++ found else c ∷ more

spell-colon :
    (f : Text) (args : List Text) → spell (codes ": " ++ f) args ≡ codes ": " ++ spell f args
spell-colon [] [] = refl
spell-colon [] (a ∷ args) = refl
spell-colon (c ∷ f) [] = refl
spell-colon (c ∷ f) (a ∷ args) = refl

pub spell-text :
    (s f : Text) (args : List Text)
    → spell (codes "%s: " ++ f) (s ∷ args) ≡ s ++ (codes ": " ++ spell f args)
spell-text s f args = ap (◌++◌ s) (spell-colon f args)

abbrev spells : Fmt
spells = record { Arg = Text; text = λ s. s; sprintf = spell; sprintf_text = spell-text }

abbrev ops : List (LogOp spells)
ops =
    makes (codes "server")
    ∷ forks 0 (codes "tun") []
    ∷ forks 1 (codes "conn#%s") (codes "7" ∷ [])
    ∷ []

abbrev connection : Logger
connection = record {
  prefix = codes "server: tun: conn#7";
  info_flag = record { own = false; link = some 0 };
  debug_flag = record { own = false; link = some 0 };
}

forks_twice : at 2 (run_ops spells ops []) ≡ some connection
unfolding at run_ops new_logger fork forked fork_flag
forks_twice = refl

turns_on_example :
    (is_on debug 2 (update 0 (set_own debug true) (run_ops spells ops [])) ≡ true)
    × ((prefix : Text) (args : List Text) (j : ℕ)
        → root_of j (flag debug (forked spells 2 prefix args connection)) ≡ 0)
turns_on_example = turns_on spells ops debug 2 connection forks_twice

prints :
    (logf spells debug 2 (codes "Open %s") (codes "x" ∷ []) (run_ops spells ops []) ≡ none)
    × (logf spells debug 2
          (codes "Open %s")
          (codes "x" ∷ [])
          (update 0 (set_own debug true) (run_ops spells ops []))
        ≡ some (codes "server: tun: conn#7: Open x"))
unfolding at run_ops new_logger fork forked fork_flag logf set_own update
prints = (refl, refl)

-- The prefix is part of the format: a verb in it takes an argument.
misprints :
    errorf spells (new_logger (codes "proxy#fe80::1%s0")) (codes "Open %s") (codes "x" ∷ [])
    ≡ codes "proxy#fe80::1x0: Open %s"
unfolding errorf new_logger
misprints = refl
