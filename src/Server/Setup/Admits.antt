-- ===== src/Server/Setup/Admits.antt =====
-- Which key a server takes, and whom it lets in.
use chisel_uds.Prelude.{
  ℕ, Text, Bool, true, false, none, some, [], ◌∷◌, text_eq, has_byte, cut, has_prefix,
  if◌then◌else◌, ◌≡◌, ◌≢◌, refl, arith, ap, sym, subst, ◌∙◌,
}
use mathlib.Core.Path.{fun_ext}
use chisel_uds.Prelude.Result.{Result, ok, ◌>>=◌}
use chisel_uds.Keys.{Crypto, seed_pem, seed_chisel_key, chisel_key_pem, is_chisel_key}
use chisel_uds.Keys.Formats.{Decodes, seed_chisel_key-pem}
use chisel_uds.Settings.Users.{Regexp, Users, parse_auth}
use chisel_uds.Server.Setup.{
  Config, System, SetupError, Server, otel_of, file_users, with_pair, with_auth, key_bytes,
  pem_of_key, pem_of_seed, server_pem, from_pem, from_key, new_server,
}

cut-none : (s : Text) (c : ℕ) → has_byte s c ≡ false → cut s c ≡ none
unfolding has_byte cut
cut-none [] c h = refl
cut-none (x ∷ s) c h = let ih = cut-none s c (ground arith) in ground arith

module _ (regexp : Regexp) (crypto : Crypto) (sys : System) where
  with_auth-no_colon :
      (auth : Text)
      → has_byte auth b':' ≡ false
      → (users : Users regexp) → with_auth regexp crypto sys auth users ≡ users
  unfolding with_auth with_pair parse_auth text_eq
  with_auth-no_colon auth h users =
      let q = cut-none auth b':' h in
      let r : parse_auth auth ≡ ([], []) = ground arith in
      subst (λ (x : Text × Text). with_pair regexp crypto sys auth x users ≡ users) (sym r)
        (if_same (text_eq auth []) users)
    where
      if_same : (b : Bool) (u : Users regexp) → (if b then u else u) ≡ u
      if_same true u = refl
      if_same false u = refl

  -- NewServer with another reading of the flag
  with_reading :
      Config → (Users regexp → Users regexp) → Result SetupError (Server regexp crypto sys)
  with_reading c reading = otel_of regexp crypto sys c >>= (λ publishes.
      file_users regexp crypto sys c.auth_file
      >>= (λ users. from_key regexp crypto sys c publishes (reading users)))

  -- A flag `auth` without a colon is as good as none: the server starts, and has the users of its file only,
  -- none without a file.
  pub new_server-no_colon :
      (c : Config)
      → has_byte c.auth b':' ≡ false
      → new_server regexp crypto sys c ≡ new_server regexp crypto sys (record c { auth = [] })
  unfolding new_server with_reading from_key has_byte
  new_server-no_colon c h =
      let all : with_auth regexp crypto sys c.auth ≡ with_auth regexp crypto sys [] =
        fun_ext
          (λ users. with_auth-no_colon c.auth h users ∙ sym (with_auth-no_colon [] refl users)) in
      ap (with_reading c) all

  server_pem-seed :
      (seed pem : Text)
      → seed_pem crypto sys.draw seed ≡ ok pem
      → server_pem regexp crypto sys [] seed ≡ ok pem
  unfolding server_pem pem_of_seed text_eq
  server_pem-seed seed pem e = ground arith

  pem_of_key-is :
      (key pem : Text)
      → is_chisel_key key ≡ true
      → chisel_key_pem crypto key ≡ ok pem
      → pem_of_key regexp crypto sys key ≡ ok pem
  unfolding pem_of_key
  pem_of_key-is key pem is e = rw (is, e) refl

  server_pem-key :
      (key seed pem : Text)
      → is_chisel_key key ≡ true
      → chisel_key_pem crypto key ≡ ok pem
      → server_pem regexp crypto sys key seed ≡ ok pem
  unfolding server_pem key_bytes text_eq is_chisel_key has_prefix
  server_pem-key [] seed pem is e = absurd (ground arith)
  server_pem-key (x ∷ rest) seed pem is e =
      let q : key_bytes regexp crypto sys (x ∷ rest) ≡ ok (x ∷ rest) = rw is refl in
      ap (λ (r : Result SetupError Text). r >>= pem_of_key regexp crypto sys) q
      ∙ pem_of_key-is (x ∷ rest) pem is e

  server_pem-file :
      (file key seed pem : Text)
      → file ≢ []
      → is_chisel_key file ≡ false
      → sys.read_file file ≡ some key
      → is_chisel_key key ≡ true
      → chisel_key_pem crypto key ≡ ok pem
      → server_pem regexp crypto sys file seed ≡ ok pem
  unfolding server_pem key_bytes text_eq
  server_pem-file [] key seed pem n f r is e = absurd (n refl)
  server_pem-file (x ∷ rest) key seed pem n f r is e =
      let q : key_bytes regexp crypto sys (x ∷ rest) ≡ ok key = rw (f, r) refl in
      ap (λ (t : Result SetupError Text). t >>= pem_of_key regexp crypto sys) q
      ∙ pem_of_key-is key pem is e

  -- NewServer with another private key
  with_pem : Config → Result SetupError Text → Result SetupError (Server regexp crypto sys)
  with_pem c r = otel_of regexp crypto sys c >>= (λ publishes.
      file_users regexp crypto sys c.auth_file >>= (λ users.
        r >>= from_pem regexp crypto sys c publishes (with_auth regexp crypto sys c.auth users)))

  -- With a key file that another run with `keygen` made of a seed that is set, or with its text in place of
  -- the file, a server is the one that the seed itself gives, with its key and so its fingerprint; if base64
  -- and x509 decode what they encode.
  pub new_server-keygen :
      (c : Config) (draw : ℕ) (seed key file : Text)
      → Decodes crypto
      → seed ≢ []
      → seed_chisel_key crypto draw seed ≡ ok key
      → is_chisel_key file ≡ false
      → file ≢ []
      → sys.read_file file ≡ some key
      → (new_server regexp crypto sys (record c { key_file = key })
          ≡ new_server regexp crypto sys (record c { key_file = []; key_seed = seed }))
        × (new_server regexp crypto sys (record c { key_file = file })
            ≡ new_server regexp crypto sys (record c { key_file = []; key_seed = seed }))
  unfolding new_server from_key from_pem with_pem
  new_server-keygen c draw seed key file law set e f n r =
      let (is, pem, of_key, of_seed) =
        seed_chisel_key-pem crypto law draw sys.draw seed key set e in
      let same = server_pem-seed seed pem of_seed in
      (
        ap (with_pem c) (server_pem-key key c.key_seed pem is of_key ∙ sym same),
        ap (with_pem c) (server_pem-file file key c.key_seed pem n f r is of_key ∙ sym same),
      )
