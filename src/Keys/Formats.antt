-- ===== src/Keys/Formats.antt =====
-- A key in the format of chisel and in PEM.
use chisel_uds.Prelude.{
  ℕ, Text, true, [], text_eq, text_eq_iff, Bool-cases, inl, inr, ◌≢◌, ◌++◌, has_prefix, ◌≡◌, refl,
  ap, sym, subst, ◌∙◌,
}
use chisel_uds.Prelude.Result.{Result, ok, ◌>>=◌, bind_ok}
use chisel_uds.Keys.{
  Crypto, PrivateKey, chisel_key_prefix, new_determ_rand, generate_key_go119, seed_private_key,
  private_key_pem, private_chisel_key, seed_pem, seed_chisel_key, chisel_private_key,
  chisel_key_pem, is_chisel_key,
}

-- What is documented of base64 and of x509: what they encode they decode.
pub record Decodes (c : Crypto) : Type 0 where
  pub base64 : (b : Text) → c.base64_decode (c.base64_encode b) ≡ ok b
  pub x509 : (k : PrivateKey) (b : Text) → c.marshal k ≡ ok b → c.parse b ≡ ok k

-- A seed that is set gives a key, whatever is drawn.
pub seeded :
    (c : Crypto) (draw : ℕ) (seed : Text)
    → seed ≢ []
    → seed_private_key c draw seed ≡ ok (generate_key_go119 c (new_determ_rand c seed))
unfolding seed_private_key
seeded c draw seed n = elim (Bool-cases (text_eq seed [])) [
  | inl t ↦ absurd (n ((text_eq_iff seed []).0 t))
  | inr f ↦ rw f refl
]

module _ (c : Crypto) (law : Decodes c) where
  -- A key in the format of chisel is read back, and has a PEM.
  private_chisel_key-read :
      (k : PrivateKey) (key : Text)
      → private_chisel_key c k ≡ ok key
      → (is_chisel_key key ≡ true)
        × (chisel_private_key c key ≡ ok k)
        × (pem : Text) × (private_key_pem c k ≡ ok pem)
  unfolding private_chisel_key chisel_private_key private_key_pem is_chisel_key has_prefix
  private_chisel_key-read k key e =
      let (b, m, q) =
        bind_ok (c.marshal k) (λ (b : Text). ok (chisel_key_prefix ++ c.base64_encode b)) key e in
      let made : chisel_key_prefix ++ c.base64_encode b ≡ key = cc in
      (
        subst (λ t. is_chisel_key t ≡ true) made refl,
        subst (λ t. chisel_private_key c t ≡ ok k) made
            (ap (λ (r : Result Text Text). r >>= c.parse) (law.base64 b) ∙ law.x509 k b m),
        c.pem_encode b,
        ap (λ (r : Result Text Text). r >>= (λ b. ok (c.pem_encode b))) m,
      )

  -- If base64 and x509 decode what they encode, the key that `keygen` makes of a seed is recognised as a key in
  -- the format of chisel, and it has a PEM, which is that of the seed in every other run.
  pub seed_chisel_key-pem :
      (draw other : ℕ) (seed key : Text)
      → seed ≢ []
      → seed_chisel_key c draw seed ≡ ok key
      → (is_chisel_key key ≡ true)
        × (pem : Text) × (chisel_key_pem c key ≡ ok pem)
        × (seed_pem c other seed ≡ ok pem)
  unfolding seed_chisel_key chisel_key_pem seed_pem
  seed_chisel_key-pem draw other seed key n e =
      let k = generate_key_go119 c (new_determ_rand c seed) in
      let made : private_chisel_key c k ≡ ok key =
        ap (λ (r : Result Text PrivateKey). r >>= private_chisel_key c) (sym (seeded c draw seed n))
        ∙ e in
      let (is, read, pem, q) = private_chisel_key-read k key made in
      let to_pem : Result Text PrivateKey → Result Text Text = λ r. (r >>= private_key_pem c) in
      (is, pem, ap to_pem read ∙ q, ap to_pem (seeded c other seed n) ∙ q)
