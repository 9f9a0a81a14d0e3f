-- ===== src/Client/Setup/Fingerprint.antt =====
-- Which keys of a server the client takes for a fingerprint.
use chisel_uds.Prelude.{
  Text, true, not, [], ◌∷◌, ◌++◌, map, text_eq, text_eq_iff, has_prefix, ◌≡◌, ◌≢◌, ◌⊎◌, ◌↔◌, inl,
  inr, refl, arith, sym, subst, ◌∙◌, Bool-cases,
}
use chisel_uds.Prelude.Result.{ok, fail_if_ok}
use chisel_uds.Keys.{fingerprint_key}
use chisel_uds.Client.Setup.{
  Base64, decodes, corrupt, undecoded, Hashes, invalid_fingerprint, hex_byte, join_colon,
  verify_legacy_fingerprint, verify_decoded, verify_server,
}

has_prefix_sound : (a b : Text) → has_prefix a b ≡ true → (rest : Text) × (a ≡ b ++ rest)
unfolding has_prefix
has_prefix_sound a [] p = (a, refl)
has_prefix_sound [] (c ∷ b) p = absurd (ground arith)
has_prefix_sound (c ∷ a) (d ∷ b) p =
    let (rest, q) = has_prefix_sound a b (ground arith) in
    let e : c ≡ d = ground arith in (rest, cc)

has_prefix_complete : (b rest : Text) → has_prefix (b ++ rest) b ≡ true
unfolding has_prefix
has_prefix_complete [] rest = refl
has_prefix_complete (c ∷ b) rest = let ih = has_prefix_complete b rest in ground arith

module _ (h : Hashes) where
  abbrev pub legacy_fingerprint : Text → Text
  legacy_fingerprint key = join_colon (map hex_byte (h.md5 key))

  -- The text is the key's SHA-256 hash in base64; or it is not in base64, and the key's MD5 hash in
  -- hexadecimal begins with it.
  abbrev pub IsFingerprintOf : Text → Text → Type 0
  IsFingerprintOf expect key =
      ((h.base64 expect ≡ decodes) × (fingerprint_key h.base64_encode h.sha256 key ≡ expect))
      ⊎ ((h.base64 expect ≡ corrupt) × (rest : Text) × (legacy_fingerprint key ≡ expect ++ rest))

  verify_decoded_sound :
      (d : Base64) (expect key : Text)
      → h.base64 expect ≡ d
      → verify_decoded h d expect key ≡ ok tt
      → IsFingerprintOf expect key
  unfolding verify_decoded verify_legacy_fingerprint
  verify_decoded_sound corrupt expect key b e =
      let got = legacy_fingerprint key in
      let p = fail_if_ok (not (has_prefix got expect)) (invalid_fingerprint got) tt e in
      let (rest, f) = has_prefix_sound got expect (ground arith) in inr (b, rest, f)
  verify_decoded_sound (undecoded x) expect key b e = absurd (ground arith)
  verify_decoded_sound decodes expect key b e =
      let got = fingerprint_key h.base64_encode h.sha256 key in
      let p = fail_if_ok (not (text_eq got expect)) (invalid_fingerprint got) tt e in
      inl (b, (text_eq_iff got expect).0 (ground arith))

  verify_decoded_complete :
      (expect key : Text)
      → IsFingerprintOf expect key
      → verify_decoded h (h.base64 expect) expect key ≡ ok tt
  unfolding verify_decoded verify_legacy_fingerprint
  verify_decoded_complete expect key (inl (b, f)) =
      let p = (text_eq_iff (fingerprint_key h.base64_encode h.sha256 key) expect).1 f in
      rw (b, p) refl
  verify_decoded_complete expect key (inr (b, rest, f)) =
      let p : has_prefix (legacy_fingerprint key) expect ≡ true =
        subst (λ t. has_prefix t expect ≡ true) (sym f) (has_prefix_complete expect rest) in
      rw (b, p) refl

  behind_empty :
      (expect key : Text)
      → expect ≢ []
      → verify_server h expect key ≡ verify_decoded h (h.base64 expect) expect key
  unfolding verify_server
  behind_empty expect key n = elim (Bool-cases (text_eq expect [])) [
    | inl t ↦ absurd (n ((text_eq_iff expect []).0 t))
    | inr f ↦ rw f refl
  ]

  -- Where a fingerprint is set, the client accepts exactly the keys whose SHA-256 hash in base64 it is, and,
  -- where it is not in base64, those whose MD5 hash in hexadecimal begins with it, however short it is.
  pub verify_server_iff :
      (expect key : Text)
      → expect ≢ []
      → (verify_server h expect key ≡ ok tt) ↔ IsFingerprintOf expect key
  verify_server_iff expect key n =
      let q = behind_empty expect key n in
      (
        λ e. verify_decoded_sound (h.base64 expect) expect key refl (sym q ∙ e),
        λ f. q ∙ verify_decoded_complete expect key f,
      )
