-- ===== src/Cio/Logger.antt =====
-- share/cio/logger.go: loggers, which are forked from one another. A forked logger keeps pointers to the
-- two flags of the first logger of its line, so the loggers are a store, and a pointer is the place of
-- the logger that holds the flag. Of fmt.Sprintf it is used that a format that begins with "%s: " puts
-- its first argument there.
pub mod Stores
pub mod Roots
mod Examples
use chisel_uds.Prelude.{
  ℕ, zero, suc, Text, codes, Bool, true, false, ◌||◌, Option, none, some, List, [], ◌∷◌, ◌++◌, ◌≡◌,
  length, if◌then◌else◌,
}

pub record Fmt : Type 1 where
  pub Arg : Type 0
  pub text : Text → Arg
  pub sprintf : Text → List Arg → Text
  pub sprintf_text :
      (s f : Text) (args : List Arg)
      → sprintf (codes "%s: " ++ f) (text s ∷ args) ≡ s ++ (codes ": " ++ sprintf f args)

pub data Level : Type 0 where
  info debug : Level

-- A level of a logger: its own flag, and the pointer to another's
pub record Flag : Type 0 where
  pub own : Bool
  pub link : Option ℕ

pub record Logger : Type 0 where
  pub prefix : Text
  pub info_flag : Flag
  pub debug_flag : Flag

abbrev pub flag : Level → Logger → Flag
flag info l = l.info_flag
flag debug l = l.debug_flag

-- the loggers in the order in which they were made
abbrev pub Store : Type 0
Store = List Logger

unfoldable pub at : ℕ → Store → Option Logger
at i [] = none
at zero (l ∷ s) = some l
at (suc i) (l ∷ s) = at i s

unfoldable pub update : ℕ → (Logger → Logger) → Store → Store
update i f [] = []
update zero f (l ∷ s) = f l ∷ s
update (suc i) f (l ∷ s) = l ∷ update i f s

-- NewLogger
unfoldable pub new_logger : Text → Logger
new_logger prefix = record {
  prefix = prefix;
  info_flag = record { own = false; link = none };
  debug_flag = record { own = false; link = none };
}

-- the flag of a logger that is forked from the one at `i`
unfoldable pub fork_flag : ℕ → Flag → Flag
fork_flag i f = record { own = f.own; link = elim f.link [ none ↦ some i | some r ↦ some r ] }

-- l.Info = b, or l.Debug = b
unfoldable pub set_own : Level → Bool → Logger → Logger
set_own info b l = record l { info_flag = record l.info_flag { own = b } }
set_own debug b l = record l { debug_flag = record l.debug_flag { own = b } }

module _ (fmt : Fmt) where
  open fmt use {Arg, text, sprintf}

  unfoldable pub forked : ℕ → Text → List Arg → Logger → Logger
  unfolding fork_flag
  forked i prefix args l = record {
    prefix = sprintf (codes "%s: " ++ prefix) (text l.prefix ∷ args);
    info_flag = fork_flag i l.info_flag;
    debug_flag = fork_flag i l.debug_flag;
  }

  -- `Fork` of the logger at `i`
  unfoldable pub fork : ℕ → Text → List Arg → Store → Store
  unfolding forked at
  fork i prefix args s = elim (at i s) [ none ↦ s | some l ↦ s ++ forked i prefix args l ∷ [] ]

  -- `Errorf`
  unfoldable pub errorf : Logger → Text → List Arg → Text
  errorf l f args = sprintf (l.prefix ++ codes ": " ++ f) args

-- the flag that a pointer points to
unfoldable pub linked : Level → Option ℕ → Store → Bool
unfolding at
linked v none s = false
linked v (some r) s = elim (at r s) [ none ↦ false | some l ↦ (flag v l).own ]

-- `IsInfo` and `IsDebug` of the logger at `i`
unfoldable pub is_on : Level → ℕ → Store → Bool
unfolding at linked
is_on v i s = elim (at i s) [ none ↦ false | some l ↦ (flag v l).own || linked v (flag v l).link s ]

module _ (fmt : Fmt) where
  open fmt use {Arg, sprintf}

  -- `Infof` and `Debugf`: the line that is printed
  unfoldable pub logf : Level → ℕ → Text → List Arg → Store → Option Text
  unfolding is_on at errorf
  logf v i f args s = elim (at i s) [
    | none ↦ none
    | some l ↦ if is_on v i s then some (errorf fmt l f args) else none
  ]

  -- What happens to the loggers of a program
  pub data LogOp : Type 0 where
    makes : Text → LogOp
    forks : ℕ → Text → List Arg → LogOp
    sets : Level → ℕ → Bool → LogOp

  unfoldable pub run_op : LogOp → Store → Store
  unfolding fork update set_own new_logger
  run_op (makes prefix) s = s ++ new_logger prefix ∷ []
  run_op (forks i prefix args) s = fork fmt i prefix args s
  run_op (sets v i b) s = update i (set_own v b) s

  unfoldable pub run_ops : List LogOp → Store → Store
  unfolding run_op
  run_ops [] s = s
  run_ops (op ∷ ops) s = run_ops ops (run_op op s)
