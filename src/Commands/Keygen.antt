-- ===== src/Commands/Keygen.antt =====
-- A key that one run of the command prints, and another reads.
use chisel_uds.Prelude.{
  Text, codes, false, Option, none, some, [], ◌∷◌, text_eq, ◌≡◌, ◌≢◌, refl, arith, ap, sym, ◌∙◌,
}
use chisel_uds.Prelude.Result.{Result, err, ok, bind_ok}
use chisel_uds.Keys.{Crypto, seed_chisel_key, generate_key_file, is_chisel_key}
use chisel_uds.Keys.Formats.{Decodes}
use chisel_uds.Settings.Users.{Regexp}
use chisel_uds.Server.Listener.{System as ListenSystem}
use chisel_uds.Server.Setup.{new_server, System as ServerSystem, Config as ServerConfig}
use chisel_uds.Server.Setup.Admits.{new_server-keygen}
use chisel_uds.Settings.Environment.{Environment, env}
use chisel_uds.Commands.{
  or_else, server_defaults, key, keyfile, keygen, set_server_flag, set_server_flags,
  with_environment, generates, start_server, run_with, run_server, keygen_end, run_keygen, server,
}

or_else_set : (t fallback : Text) → t ≢ [] → or_else t fallback ≡ t
unfolding or_else text_eq
or_else_set [] fallback n = absurd (n refl)
or_else_set (c ∷ t) fallback n = refl

module _ (regexp : Regexp) (crypto : Crypto) (sys : ServerSystem) (listens : ListenSystem) where
  keygen_end-printed :
      (r : Result Text (Option Text)) (made : Text)
      → keygen_end regexp crypto sys listens r ≡ generates (some made)
      → r ≡ ok (some made)
  unfolding keygen_end
  keygen_end-printed (err e) made q = absurd (ground arith)
  keygen_end-printed (ok none) made q = absurd (ground arith)
  keygen_end-printed (ok (some t)) made q = ground arith

  printed :
      (write : Text → Text → Option Text) (seed made : Text)
      → generate_key_file crypto write (codes "-") sys.draw seed ≡ ok (some made)
      → seed_chisel_key crypto sys.draw seed ≡ ok made
  unfolding generate_key_file text_eq
  printed write seed made e =
      let (t, q, r) =
        bind_ok (seed_chisel_key crypto sys.draw seed) (λ (t : Text). ok (some t)) (some made) e in
      let p : t ≡ made = ground arith in q ∙ ap ok p

  -- the configuration of the two runs, but for the key
  config_of : Environment → ServerConfig
  config_of getenv = (with_environment getenv server_defaults).config

  -- NewServer with a key file is NewServer with the seed of its key, behind the fallbacks of the environment.
  same_server :
      (getenv : Environment) (seed made file : Text)
      → Decodes crypto
      → seed ≢ []
      → env getenv (codes "KEY_FILE") ≡ []
      → seed_chisel_key crypto sys.draw seed ≡ ok made
      → is_chisel_key file ≡ false
      → file ≢ []
      → sys.read_file file ≡ some made
      → new_server regexp crypto sys
          (record (config_of getenv) { key_file = or_else file (env getenv (codes "KEY_FILE")) })
        ≡ new_server regexp crypto sys (record (config_of getenv) {
          key_file = env getenv (codes "KEY_FILE");
          key_seed = or_else seed (env getenv (codes "KEY"));
        })
  same_server getenv seed made file law n v c f m r =
      let c0 = config_of getenv in
      let (inline, by_file) =
        new_server-keygen regexp crypto sys c0 sys.draw seed made file law n c f m r in
      ap (λ t. new_server regexp crypto sys (record c0 { key_file = t })) (or_else_set file _ m)
      ∙ by_file
      ∙ sym (
          ap
            (λ t.
              new_server regexp crypto sys
                (record c0 { key_file = t; key_seed = or_else seed (env getenv (codes "KEY")) }))
            v
          ∙ ap (λ t. new_server regexp crypto sys (record c0 { key_file = []; key_seed = t }))
              (or_else_set seed _ n))

  -- Start to end: the key that a run of `server --key seed --keygen -` prints, put into a file and given to
  -- `server --keyfile`, makes the command do exactly what it does with `--key seed`, if base64 and x509 decode
  -- what they encode and the environment names no other key file.
  pub server-keygen :
      (getenv : Environment) (write : Text → Text → Option Text) (seed made file : Text)
      → Decodes crypto
      → seed ≢ []
      → env getenv (codes "KEY_FILE") ≡ []
      → server regexp crypto sys listens getenv write (key seed ∷ keygen (codes "-") ∷ [])
        ≡ generates (some made)
      → is_chisel_key file ≡ false
      → file ≢ []
      → sys.read_file file ≡ some made
      → server regexp crypto sys listens getenv write (keyfile file ∷ [])
        ≡ server regexp crypto sys listens getenv write (key seed ∷ [])
  unfolding server set_server_flags set_server_flag run_keygen run_server run_with start_server
      with_environment config_of or_else text_eq
  server-keygen getenv write seed made file law n v e f m r =
      let g =
        keygen_end-printed (generate_key_file crypto write (codes "-") sys.draw seed) made e in
      let c = printed write seed made g in
      ap (run_with regexp crypto sys listens (with_environment getenv server_defaults))
        (same_server getenv seed made file law n v c f m r)
