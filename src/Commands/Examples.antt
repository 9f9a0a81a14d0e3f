-- ===== src/Commands/Examples.antt =====
-- The commands at a few flags.
use chisel_uds.Prelude.{
  codes, none, some, [], ◌∷◌, ◌++◌, ◌≡◌, refl, arith, text_eq, has_prefix, cut, trim_space,
}
use chisel_uds.Prelude.Result.{err, ok}
use chisel_uds.Prelude.Dict.{insert}
use chisel_uds.Keys.{
  generate_key_file, private_chisel_key, seed_chisel_key, seed_private_key, is_chisel_key,
}
use chisel_uds.Server.Listener.{System as ListenSystem}
use chisel_uds.Server.Setup.Examples.{regexp, toy, toy-Decodes, chisel_key, sys}
use chisel_uds.Settings.Environment.{Environment, env}
use chisel_uds.Commands.{
  key, keyfile, keygen, tls_domain, set_server_flag, set_server_flags, server_defaults,
  with_environment, or_else, run_keygen, keygen_end, server, generates, set_header,
}
use chisel_uds.Commands.Keygen.{server-keygen}

abbrev listens : ListenSystem
listens = record {
  load_key_pair = λ cert pair. err (codes "no file");
  stat = λ path. err (codes "no file");
  read_dir = λ path. err (codes "no file");
  read_file = λ path. err (codes "no file");
  certificates = λ content. [];
  listen_error = λ address. none;
  join = λ a b. a ++ codes "/" ++ b;
  getenv = λ name. [];
  user_home = none;
}

abbrev no_variables : Environment
no_variables = λ name. []

-- Each domain counts, and the last of the flags that set one variable.
domains :
    (set_server_flags
      (tls_domain (codes "a") ∷ tls_domain (codes "b") ∷ [])
      server_defaults).tls.domains
    ≡ codes "a" ∷ codes "b" ∷ []
unfolding set_server_flags set_server_flag
domains = refl

default_port : (with_environment no_variables server_defaults).port ≡ codes "8080"
unfolding with_environment or_else text_eq
default_port = refl

prints :
    server regexp toy sys listens no_variables
      (λ path bytes. none)
      (key (codes "s") ∷ keygen (codes "-") ∷ [])
    ≡ generates (some chisel_key)
unfolding server set_server_flags set_server_flag run_keygen keygen_end generate_key_file
    seed_chisel_key private_chisel_key seed_private_key text_eq
prints = refl

server-keygen_example :
    server regexp toy sys listens no_variables (λ path bytes. none) (keyfile (codes "f") ∷ [])
    ≡ server regexp toy sys listens no_variables (λ path bytes. none) (key (codes "s") ∷ [])
unfolding is_chisel_key has_prefix env
server-keygen_example =
    server-keygen regexp toy sys listens no_variables (λ path bytes. none) (codes "s") chisel_key
      (codes "f") toy-Decodes (λ e. absurd (ground arith)) refl prints refl
      (λ e. absurd (ground arith)) refl

header_value : set_header (λ k. k) (codes "Host: a") [] ≡ ok ((codes "Host", codes "a") ∷ [])
unfolding set_header cut trim_space insert
header_value = refl
