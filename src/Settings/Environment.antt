-- ===== src/Settings/Environment.antt =====
-- share/settings/env.go: the environment variables of chisel.
use chisel_uds.Prelude.{Text, codes, Bool, ◌||◌, Option, none, some, ◌++◌, text_eq, to_lower}
use chisel_uds.Prelude.Int.{ℤ}
use chisel_uds.Settings.Number.{atoi}

-- os.Getenv
abbrev pub Environment : Type 0
Environment = Text → Text

unfoldable pub env : Environment → Text → Text
env getenv name = getenv (codes "CHISEL_" ++ name)

unfoldable pub env_int : Environment → Text → ℤ → ℤ
unfolding env
env_int getenv name default = elim (atoi (env getenv name)) [ some n ↦ n | none ↦ default ]

-- with time.ParseDuration, in nanoseconds
unfoldable pub env_duration : (Text → Option ℤ) → Environment → Text → ℤ → ℤ
unfolding env
env_duration parse getenv name default = elim (parse (env getenv name)) [
  | some n ↦ n
  | none ↦ default
]

unfoldable pub env_bool : Environment → Text → Bool
unfolding env
env_bool getenv name =
    text_eq (env getenv name) (codes "1") || text_eq (to_lower (env getenv name)) (codes "true")
