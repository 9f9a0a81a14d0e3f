-- ===== src/Server/Setup/Examples.antt =====
-- The theorems about the set-up of a server, with stand-ins for the system and the cryptography.
use chisel_uds.Prelude.{
  Text, codes, true, false, none, some, [], ◌∷◌, ◌++◌, ◌≡◌, refl, arith, text_eq, has_prefix, subst,
}
use chisel_uds.Prelude.Result.{Result, err, ok}
use chisel_uds.Keys.{
  Crypto, PrivateKey, seed_pem, private_key_pem, chisel_key_prefix, new_determ_rand,
  generate_key_go119, seed_private_key, private_chisel_key, seed_chisel_key, is_chisel_key,
}
use chisel_uds.Keys.Formats.{Decodes}
use chisel_uds.Settings.Users.{Regexp, invalid_json, failing}
use chisel_uds.Server.Setup.{
  Config, System, pem_of_seed, server_pem, new_server, route, websocket, answered,
}
use chisel_uds.Server.Setup.Admits.{new_server-keygen}

abbrev pub regexp : Regexp
regexp = record {
  Pattern = Text;
  compile = λ s. some s;
  matches = λ p s. true;
  empty = [];
  compile_empty = refl;
  matches_empty = λ s. refl;
}

abbrev pub parse_key : Text → Result Text PrivateKey
parse_key [] = err (codes "bad key")
parse_key (d ∷ []) = err (codes "bad key")
parse_key (d ∷ x ∷ []) = err (codes "bad key")
parse_key (d ∷ x ∷ y ∷ rest) = ok (record { d = d; x = x; y = y })

abbrev pub toy : Crypto
toy = record {
  sha512 = λ t. t ++ t;
  order = 97;
  bit_len = 7;
  base_mult = λ k. (k, k);
  random_key = λ n. ok (record { d = n; x = n; y = n });
  marshal = λ k. ok (k.d ∷ k.x ∷ k.y ∷ []);
  parse = parse_key;
  base64_encode = λ b. b;
  base64_decode = λ b. ok b;
  pem_encode = λ b. 1 ∷ b;
}

pub toy-Decodes : Decodes toy
toy-Decodes = record {
  base64 = λ b. refl;
  x509 = λ k b e. (let q : k.d ∷ k.x ∷ k.y ∷ [] ≡ b = cc in subst (λ t. parse_key t ≡ ok k) q refl);
}

abbrev pub seed_key : PrivateKey
seed_key = generate_key_go119 toy (new_determ_rand toy (codes "s"))

abbrev pub chisel_key : Text
chisel_key = chisel_key_prefix ++ seed_key.d ∷ seed_key.x ∷ seed_key.y ∷ []

pub chisel_key-made : seed_chisel_key toy 5 (codes "s") ≡ ok chisel_key
unfolding seed_chisel_key private_chisel_key seed_private_key text_eq
chisel_key-made = refl

abbrev pub sys : System
sys = record {
  draw = 7;
  otel_error = λ e. none;
  auth_entries = λ f. failing invalid_json;
  watch_error = λ f. none;
  read_file = λ f. some chisel_key;
  parse_private_key = λ pem. ok pem;
  base64_encode = λ b. b;
  sha256 = λ b. b;
  url_parse = λ s. err (codes "no URL");
}

abbrev config : Config
config = record {
  key_seed = codes "s";
  key_file = [];
  auth_file = [];
  auth = codes "secret";
  proxy = [];
  otel_enabled = false;
  otel_endpoint = [];
}

new_server-keygen_example :
    (new_server regexp toy sys (record config { key_file = chisel_key })
      ≡ new_server regexp toy sys (record config { key_file = []; key_seed = codes "s" }))
    × (new_server regexp toy sys (record config { key_file = codes "f" })
        ≡ new_server regexp toy sys (record config { key_file = []; key_seed = codes "s" }))
unfolding is_chisel_key has_prefix
new_server-keygen_example =
    new_server-keygen regexp toy sys config 5 (codes "s") chisel_key (codes "f") toy-Decodes
      (λ e. absurd (ground arith)) chisel_key-made refl (λ e. absurd (ground arith)) refl

-- Without a seed each run has a key of its own.
draws_anew :
    (server_pem regexp toy sys [] [] ≡ ok (1 ∷ 7 ∷ 7 ∷ 7 ∷ []))
    × (server_pem regexp toy (record sys { draw = 8 }) [] [] ≡ ok (1 ∷ 8 ∷ 8 ∷ 8 ∷ []))
unfolding server_pem pem_of_seed seed_pem seed_private_key private_key_pem text_eq
draws_anew = (refl, refl)

-- A request that asks for another version of the protocol is answered as any other.
routes :
    (route (codes "1") false (codes "WebSocket") (codes "chisel-v3") (codes "/health") ≡ websocket)
    × (route (codes "1") false (codes "websocket") (codes "chisel-v2") (codes "/version")
        ≡ answered true (codes "1"))
unfolding route text_eq
routes = (refl, refl)
