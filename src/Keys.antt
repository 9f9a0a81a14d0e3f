-- ===== src/Keys.antt =====
-- share/ccrypto: the keys of a server, from a seed, in the format of chisel and in PEM.
-- Parameters: SHA-512, the curve, the encodings of base64, x509 and pem, a random key, and the writing
-- of a file.
pub mod Reader
pub mod Formats
mod Examples
use chisel_uds.Prelude.{
  ℕ, zero, suc, ◌+◌, ◌-◌, ◌*◌, ◌/◌, ◌%◌, Text, codes, Bool, true, false, Option, none, some, List,
  [], ◌∷◌, ◌++◌, length, take, drop, has_prefix, text_eq, if◌then◌else◌,
}
use chisel_uds.Prelude.Result.{Result, err, ok, ◌>>=◌}

-- ecdsa.PrivateKey
pub record PrivateKey : Type 0 where
  pub d : ℕ
  pub x : ℕ
  pub y : ℕ

pub record Crypto : Type 0 where
  pub sha512 : Text → Text
  -- the curve's order, its BitLen, and ScalarBaseMult of a number
  pub order : ℕ
  pub bit_len : ℕ
  pub base_mult : ℕ → ℕ × ℕ
  -- ecdsa.GenerateKey, by what it draws from rand.Reader, which differs from call to call
  pub random_key : ℕ → Result Text PrivateKey
  -- x509.MarshalECPrivateKey and ParseECPrivateKey
  pub marshal : PrivateKey → Result Text Text
  pub parse : Text → Result Text PrivateKey
  -- base64.RawStdEncoding
  pub base64_encode : Text → Text
  pub base64_decode : Text → Result Text Text
  -- pem.EncodeToMemory of a block of type "EC PRIVATE KEY"
  pub pem_encode : Text → Text

-- DetermRandIter and ChiselKeyPrefix
abbrev pub determ_rand_iter : ℕ
determ_rand_iter = 2048

abbrev pub chisel_key_prefix : Text
chisel_key_prefix = codes "ck-"

-- new(big.Int).SetBytes
unfoldable pub number_of : ℕ → Text → ℕ
number_of k [] = k
number_of k (b ∷ rest) = number_of (k * 256 + b) rest

module _ (c : Crypto) where
  -- `hash`: the next input, and the output; sha512.Size is 64
  unfoldable pub hash : Text → Text × Text
  hash input = (take 32 (c.sha512 input), drop 32 (c.sha512 input))

  -- the loop of NewDetermRand, whose last output is never read
  unfoldable pub strengthen : ℕ → Text → Text
  unfolding hash
  strengthen zero next = next
  strengthen (suc i) next = strengthen i (hash next).0

  unfoldable pub new_determ_rand : Text → Text
  unfolding strengthen
  new_determ_rand seed = strengthen determ_rand_iter seed

  -- The loop of `Read`: `left` bytes of the buffer are to be filled. A round fills at least one of them.
  unfoldable pub read_loop : ℕ → ℕ → Text → Text × Text
  unfolding hash
  read_loop zero left next = ([], next)
  read_loop (suc fuel) zero next = ([], next)
  read_loop (suc fuel) (suc l) next =
      let (next', out) = hash next in
      let (more, last) = read_loop fuel (suc l - length (take (suc l) out)) next' in
      (take (suc l) out ++ more, last)

  -- `Read` of a buffer of that length
  unfoldable pub read_bytes : ℕ → Text → Text × Text
  unfolding read_loop
  read_bytes l next = read_loop l l next

  -- `randFieldElement`; the reader does not fail, and fills the buffer in one call
  unfoldable pub rand_field_element : Text → ℕ
  unfolding read_bytes number_of
  rand_field_element next = number_of 0 (read_bytes (c.bit_len / 8 + 8) next).0 % (c.order - 1) + 1

  unfoldable pub generate_key_go119 : Text → PrivateKey
  unfolding rand_field_element
  generate_key_go119 next =
      let k = rand_field_element next in
      record { d = k; x = (c.base_mult k).0; y = (c.base_mult k).1 }

  unfoldable pub seed_private_key : ℕ → Text → Result Text PrivateKey
  unfolding new_determ_rand generate_key_go119
  seed_private_key draw seed =
      if text_eq seed [] then c.random_key draw else ok (generate_key_go119 (new_determ_rand seed))

  unfoldable pub private_key_pem : PrivateKey → Result Text Text
  private_key_pem k = c.marshal k >>= (λ b. ok (c.pem_encode b))

  unfoldable pub private_chisel_key : PrivateKey → Result Text Text
  private_chisel_key k = c.marshal k >>= (λ b. ok (chisel_key_prefix ++ c.base64_encode b))

  unfoldable pub seed_pem : ℕ → Text → Result Text Text
  unfolding seed_private_key private_key_pem
  seed_pem draw seed = seed_private_key draw seed >>= private_key_pem

  unfoldable pub seed_chisel_key : ℕ → Text → Result Text Text
  unfolding seed_private_key private_chisel_key
  seed_chisel_key draw seed = seed_private_key draw seed >>= private_chisel_key

  unfoldable pub chisel_private_key : Text → Result Text PrivateKey
  chisel_private_key key = c.base64_decode (drop (length chisel_key_prefix) key) >>= c.parse

  unfoldable pub chisel_key_pem : Text → Result Text Text
  unfolding chisel_private_key private_key_pem
  chisel_key_pem key = chisel_private_key key >>= private_key_pem

  -- where GenerateKeyFile puts the key: it prints it, or writes the file
  unfoldable pub generate_key_file :
      (Text → Text → Option Text) → Text → ℕ → Text → Result Text (Option Text)
  unfolding seed_chisel_key
  generate_key_file write path draw seed = seed_chisel_key draw seed >>= (λ key.
      if text_eq path (codes "-")
      then ok (some key)
      else (elim (write path key) [ none ↦ ok none | some e ↦ err e ]))

unfoldable pub is_chisel_key : Text → Bool
is_chisel_key key = has_prefix key chisel_key_prefix

-- `FingerprintKey` of a public key in the wire format of SSH, with base64.StdEncoding and SHA-256
unfoldable pub fingerprint_key : (Text → Text) → (Text → Text) → Text → Text
fingerprint_key base64_encode sha256 wire = base64_encode (sha256 wire)
