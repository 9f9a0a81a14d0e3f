-- ===== src/Keys/Examples.antt =====
-- The theorems about keys with stand-ins for SHA-512, the curve and the encodings.
use chisel_uds.Prelude.{ℕ, zero, suc, ◌≤◌, ◌<◌, Text, codes, [], ◌∷◌, arith}
use chisel_uds.Prelude.Result.{err, ok}
use chisel_uds.Keys.{Crypto, rand_field_element}
use chisel_uds.Keys.Reader.{rand_field_element_bounds}

abbrev zeros : ℕ → Text
zeros zero = []
zeros (suc n) = 0 ∷ zeros n

abbrev toy : Crypto
toy = record {
  sha512 = λ t. zeros 64;
  order = 97;
  bit_len = 7;
  base_mult = λ k. (k, k);
  random_key = λ n. err (codes "no entropy");
  marshal = λ k. ok (k.d ∷ k.x ∷ k.y ∷ []);
  parse = λ b. err (codes "bad key");
  base64_encode = λ b. b;
  base64_decode = λ b. ok b;
  pem_encode = λ b. b;
}

rand_field_element_bounds_example :
    (1 ≤ rand_field_element toy []) × (rand_field_element toy [] < 97)
rand_field_element_bounds_example = rand_field_element_bounds toy [] (omega arith)
