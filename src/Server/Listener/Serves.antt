-- ===== src/Server/Listener/Serves.antt =====
-- What a listener that the server opened speaks.
use chisel_uds.Prelude.{
  Text, codes, true, false, not, ◌&&◌, Option, none, some, List, [], ◌∷◌, ◌++◌, text_eq, ◌≡◌, refl,
  arith, Bool-cases, Option-cases, inl, inr, ap, sym, subst, ◌∙◌,
}
use chisel_uds.Prelude.Result.{Result, ok, ◌>>=◌, fail_if, bind_ok, fail_if_ok}
use chisel_uds.Server.Listener.{
  no_client_cert, require_and_verify_client_cert, PairConf, ca_pool, TlsConfig, TlsConf, key_pair,
  NetListener, System, is_empty, add_ca, with_ca, tls_key_cert, listen_on, tls_lets_encrypt,
  domains_conf, has_key_cert, tls_conf, listener,
}

module _ (sys : System) where
  -- With a key and a certificate: their pair. Without a CA no client's certificate is asked for; with a CA
  -- one is required, and verified against the certificates of the CA's files.
  pub record IsMutual (c : TlsConfig) (t : Option TlsConf) : Type 0 where
    pub conf : PairConf
    pub loaded : sys.load_key_pair c.cert c.key ≡ ok conf.certificate
    pub made : t ≡ some (key_pair conf)
    pub no_ca :
        text_eq c.ca [] ≡ true → (conf.client_auth ≡ no_client_cert) × (conf.client_cas ≡ none)
    pub some_ca :
        text_eq c.ca [] ≡ false
        → (conf.client_auth ≡ require_and_verify_client_cert)
          × (certs : List Text) × (conf.client_cas ≡ some certs)
          × (ca_pool sys c.ca ≡ ok certs)

  -- What the server speaks by its configuration
  pub record Serves (c : TlsConfig) (t : Option TlsConf) : Type 0 where
    pub plain : has_key_cert sys c ≡ false → is_empty c.domains ≡ true → t ≡ none
    pub by_domains :
        is_empty c.domains ≡ false
        → (has_key_cert sys c ≡ false) × (t ≡ some (tls_lets_encrypt sys c.domains))
    pub by_key : has_key_cert sys c ≡ true → IsMutual c t

  -- The configuration of `tlsKeyCert`, for a key pair that was loaded
  with_ca-IsMutual :
      (c : TlsConfig) (pair : Text) (t : PairConf)
      → sys.load_key_pair c.cert c.key ≡ ok pair
      → with_ca sys c.ca pair ≡ ok t
      → IsMutual c (some (key_pair t))
  unfolding with_ca add_ca
  with_ca-IsMutual c pair t l e =
      let plain : PairConf = record {
        certificate = pair;
        client_cas = none;
        client_auth = no_client_cert;
      } in
      elim (Bool-cases (text_eq c.ca [])) [
        | inl b ↦
            (let q : plain ≡ t = ground arith in
              subst (λ u. IsMutual c (some (key_pair u))) q
                (record {
                  conf = plain;
                  loaded = l;
                  made = refl;
                  no_ca = λ _. (refl, refl);
                  some_ca = λ f. absurd (ground arith);
                }))
        | inr b ↦
            (let finish : List Text → Result Text PairConf = λ pool. ok (record plain {
              client_cas = some pool;
              client_auth = require_and_verify_client_cert;
            }) in
              let q : (ca_pool sys c.ca >>= finish) ≡ ok t = ground arith in
              let (certs, a, m) = bind_ok (ca_pool sys c.ca) finish t q in
              let made : record plain {
                client_cas = some certs;
                client_auth = require_and_verify_client_cert;
              }
                  ≡ t =
                cc in
              subst (λ u. IsMutual c (some (key_pair u))) made
                (record {
                  conf = _;
                  loaded = l;
                  made = refl;
                  no_ca = λ f. absurd (ground arith);
                  some_ca = λ _. (refl, certs, refl, a);
                }))
      ]

  tls_key_cert-IsMutual :
      (c : TlsConfig) (t : PairConf)
      → tls_key_cert sys c.key c.cert c.ca ≡ ok t
      → IsMutual c (some (key_pair t))
  unfolding tls_key_cert
  tls_key_cert-IsMutual c t e =
      let (pair, l, q) = bind_ok (sys.load_key_pair c.cert c.key) (with_ca sys c.ca) t e in
      with_ca-IsMutual c pair t l q

  domains_conf-none : (ds : List Text) → is_empty ds ≡ true → domains_conf sys ds ≡ none
  unfolding domains_conf is_empty
  domains_conf-none [] e = refl
  domains_conf-none (d ∷ rest) e = absurd (ground arith)

  domains_conf-some :
      (ds : List Text) → is_empty ds ≡ false → domains_conf sys ds ≡ some (tls_lets_encrypt sys ds)
  unfolding domains_conf is_empty
  domains_conf-some [] e = absurd (ground arith)
  domains_conf-some (d ∷ rest) e = refl

  -- which configuration `listener` takes
  tls_conf-pair :
      (c : TlsConfig)
      → has_key_cert sys c ≡ true
      → tls_conf sys c ≡ (tls_key_cert sys c.key c.cert c.ca >>= (λ t. ok (some (key_pair t))))
  unfolding tls_conf
  tls_conf-pair c k = ground arith

  tls_conf-domains :
      (c : TlsConfig)
      → has_key_cert sys c ≡ false
      → tls_conf sys c ≡ ok (domains_conf sys c.domains)
  unfolding tls_conf
  tls_conf-domains c k = ground arith

  from_key :
      (c : TlsConfig) (t : Option TlsConf)
      → (not (is_empty c.domains) && has_key_cert sys c) ≡ false
      → has_key_cert sys c ≡ true
      → tls_conf sys c ≡ ok t
      → Serves c t
  from_key c t g k e =
      let (u, l, m) =
        bind_ok (tls_key_cert sys c.key c.cert c.ca) (λ (u : PairConf). ok (some (key_pair u))) t
          (sym (tls_conf-pair c k) ∙ e) in
      let q : some (key_pair u) ≡ t = cc in
      record {
        plain = λ f. absurd (ground arith);
        by_domains = λ d. absurd (ground arith);
        by_key = λ _. subst (IsMutual c) q (tls_key_cert-IsMutual c u l);
      }

  from_domains :
      (c : TlsConfig) (t : Option TlsConf)
      → has_key_cert sys c ≡ false
      → tls_conf sys c ≡ ok t
      → Serves c t
  from_domains c t k e =
      let q : domains_conf sys c.domains ≡ t = (let p = tls_conf-domains c k in cc) in
      record {
        plain = λ _ d. sym q ∙ domains_conf-none c.domains d;
        by_domains = λ d. (k, sym q ∙ domains_conf-some c.domains d);
        by_key = λ f. absurd (ground arith);
      }

  tls_conf-Serves :
      (c : TlsConfig) (t : Option TlsConf)
      → (not (is_empty c.domains) && has_key_cert sys c) ≡ false
      → tls_conf sys c ≡ ok t
      → Serves c t
  tls_conf-Serves c t g e = elim (Bool-cases (has_key_cert sys c)) [
    | inl k ↦ from_key c t g k e
    | inr k ↦ from_domains c t k e
  ]

  listen_on_ok :
      (address : Text) (t : Option TlsConf) (l : NetListener)
      → listen_on sys address t ≡ ok l
      → (l.address ≡ address) × (l.tls ≡ t)
  unfolding listen_on
  listen_on_ok address t l e = elim (Option-cases (sys.listen_error address)) [
    | inl n ↦
        (let q : record { address = address; tls = t } ≡ l = ground arith in
          (ap (λ (m : NetListener). m.address) (sym q), ap (λ (m : NetListener). m.tls) (sym q)))
    | inr (x, n) ↦ absurd (ground arith)
  ]

  -- A listener that the server opened stands at the address given. Without domains, and without both a key
  -- and a certificate, it speaks plain HTTP, also if one of the two is set; with domains, which then go
  -- without such a pair, it speaks TLS by LetsEncrypt for them, whatever CA is set; with a key and a
  -- certificate it speaks TLS with their pair, and requires a client's certificate, verified against the
  -- pool of the CA, if a CA is set, and asks for none otherwise.
  pub listener-Serves :
      (c : TlsConfig) (host port : Text) (l : NetListener)
      → listener sys c host port ≡ ok l
      → (l.address ≡ host ++ codes ":" ++ port) × Serves c l.tls
  unfolding listener
  listener-Serves c host port l e =
      let address : Text = host ++ codes ":" ++ port in
      let after : Unit {0} → Result Text NetListener =
        λ _. (tls_conf sys c >>= listen_on sys address) in
      let (u, g, q) =
        bind_ok
          (fail_if (not (is_empty c.domains) && has_key_cert sys c)
            (codes "cannot use key/cert and domains"))
          after l e in
      let (t, a, m) = bind_ok (tls_conf sys c) (listen_on sys address) l q in
      let (at, made) = listen_on_ok address t l m in
      let free =
        fail_if_ok (not (is_empty c.domains) && has_key_cert sys c)
          (codes "cannot use key/cert and domains") u g in
      (at, subst (Serves c) (sym made) (tls_conf-Serves c t free a))
